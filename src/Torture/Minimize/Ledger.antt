-- ===== src/Torture/Minimize/Ledger.antt =====
-- lib/sippycup_torture/minimize.py, the trace of `_test`: the traffic of its entries.
use mathlib.Core.List.{map-append}
use sippycup.Prelude.{map, sym, ◌∙◌, ℕ, ◌+◌, ◌*◌, List, [], ◌∷◌, ◌≡◌, arith, All, ◌++◌}
use sippycup.Torture.Minimize.{TraceEntry, Reproducer}

-- The bytes that the trials in a trace send, each entry by its size and its number of trials.
abbrev pub sent_bytes : List TraceEntry → ℕ
sent_bytes [] = 0
sent_bytes (e ∷ es) = e.bytes * e.trials + sent_bytes es

-- The packets that they may send, with so many for each trial.
abbrev pub sent_packets : ℕ → List TraceEntry → ℕ
sent_packets per_trial [] = 0
sent_packets per_trial (e ∷ es) = per_trial * e.trials + sent_packets per_trial es

pub sent_bytes-snoc :
    (es : List TraceEntry) (e : TraceEntry)
    → sent_bytes (es ++ e ∷ []) ≡ sent_bytes es + e.bytes * e.trials
sent_bytes-snoc [] e = omega arith
sent_bytes-snoc (x ∷ es) e = rw (sent_bytes-snoc es e) (omega arith)

pub sent_packets-snoc :
    (n : ℕ) (es : List TraceEntry) (e : TraceEntry)
    → sent_packets n (es ++ e ∷ []) ≡ sent_packets n es + n * e.trials
sent_packets-snoc n [] e = omega arith
sent_packets-snoc n (x ∷ es) e = rw (sent_packets-snoc n es e) (omega arith)

pub All-snoc :
    (P : TraceEntry → Type 0) (es : List TraceEntry) (e : TraceEntry)
    → All P es
    → P e
    → All P (es ++ e ∷ [])
All-snoc P [] e h p = (p, tt)
All-snoc P (x ∷ es) e h p = (h.0, All-snoc P es e h.1 p)

pub map-snoc :
    (f : Reproducer → ℕ) (g : TraceEntry → ℕ) (cs : List Reproducer) (es : List TraceEntry)
    (c : Reproducer) (e : TraceEntry)
    → map f cs ≡ map g es
    → f c ≡ g e
    → map f (cs ++ c ∷ []) ≡ map g (es ++ e ∷ [])
map-snoc f g cs es c e h k = map-append f cs (c ∷ []) ∙ cc (h, k) ∙ sym (map-append g es (e ∷ []))
