-- ===== src/Tui/Buffer/Conserved.antt =====
-- lib/sippycup_tui/state.py, `BoundedEventBuffer`: no event is lost without being counted, whatever
-- the order in which the threads run.
use mathlib.Core.Path.{subst}
use mathlib.Core.List.{append_assoc}
use sippycup.Prelude.{
  ℕ, ◌+◌, ◌-◌, ◌≤◌, ◌<◌, true, ◌&&◌, List, [], ◌∷◌, ◌++◌, some, ok, ◌≡◌, refl, sym, ap, ◌∙◌, arith,
  str_eq, leb, length, length-snoc, ok-injective, guard-bind,
}
use sippycup.Json.{lookup}
use sippycup.Tui.Event.{Event, invalid_capacity}
use sippycup.Tui.Reducer.{drop_count}
use sippycup.Tui.Buffer.{
  Buffer, create, enqueue, count_drop, diagnostic, report_drops, dequeue, System, start, Step,
  put_succeeds, put_finds_full, put_counts, get_reports, get_waits, get_takes, get_times_out, Reach,
  here, next,
}

-- The drops that the reports tell of.
unfoldable pub reported : List Event → ℕ
reported [] = 0
reported (e ∷ es) = drop_count e.payload + reported es

-- The reports are numbered from `n + 1`, without a gap.
unfoldable pub Numbered : ℕ → List Event → Type 0
Numbered n [] = Unit
Numbered n (e ∷ es) =
    (e.sequence ≡ n + 1) × (str_eq e.source "ui-buffer" ≡ true) × Numbered (n + 1) es

-- Every accepted event is delivered or still queued, in the order of acceptance; the queue keeps
-- its capacity; every lost event is reported, counted, or about to be counted; and the reports are
-- Numbered from 1.
pub record Conserved (s : System) : Type 0 where
  pub ordered : s.accepted ≡ s.delivered ++ s.buffer.queue
  pub bounded : length s.buffer.queue ≤ s.buffer.capacity
  pub counted : s.lost ≡ s.refused + s.buffer.dropped + reported s.reports
  pub sequenced : Numbered 0 s.reports
  pub last_report : s.buffer.diagnostic_sequence ≡ length s.reports

reported-append :
    (es : List Event) (e : Event) → reported (es ++ e ∷ []) ≡ reported es + drop_count e.payload
unfolding reported
reported-append [] e = omega arith
reported-append (d ∷ es) e = omega (arith, reported-append es e)

Numbered-append :
    (n : ℕ) (es : List Event) (e : Event)
    → Numbered n es
    → e.sequence ≡ n + length es + 1
    → str_eq e.source "ui-buffer" ≡ true
    → Numbered n (es ++ e ∷ [])
unfolding Numbered
Numbered-append n [] e h k src = (omega arith, src, tt)
Numbered-append n (d ∷ es) e h k src =
    (h.0, h.1, Numbered-append (n + 1) es e h.2 (omega arith) src)

enqueue-some :
    (event : Event) (b b' : Buffer)
    → enqueue event b ≡ some b'
    → (length b.queue < b.capacity) × (record b { queue = b.queue ++ event ∷ [] } ≡ b')
unfolding enqueue
enqueue-some event b b' h = ground arith

report_drops-some :
    (b b' : Buffer) (event : Event)
    → report_drops b ≡ some (event, b')
    → (0 < b.dropped)
      × (diagnostic (b.diagnostic_sequence + 1) b.dropped ≡ event)
      × (record b { dropped = 0; diagnostic_sequence = b.diagnostic_sequence + 1 } ≡ b')
unfolding report_drops
report_drops-some b b' event h = ground arith

dequeue-some :
    (q : List Event) (b b' : Buffer) (event : Event)
    → dequeue q b ≡ some (event, b')
    → (rest : List Event) × (q ≡ event ∷ rest) × (record b { queue = rest } ≡ b')
unfolding dequeue
dequeue-some [] b b' event h = cc
dequeue-some (e ∷ rest) b b' event h = (rest, ground arith, ground arith)

drop_count-diagnostic : (k n : ℕ) → 0 < n → drop_count (diagnostic k n).payload ≡ n
unfolding drop_count lookup
drop_count-diagnostic k n h = ground arith

enqueue-Conserved :
    (s : System) (event : Event) (b : Buffer)
    → enqueue event s.buffer ≡ some b
    → Conserved s
    → Conserved (record s { buffer = b; accepted = s.accepted ++ event ∷ [] })
enqueue-Conserved s event b h c =
    let (room, e) = enqueue-some event s.buffer b h in
    subst
      (λ (b' : Buffer). Conserved (record s { buffer = b'; accepted = s.accepted ++ event ∷ [] })) e
      (record {
        ordered =
            ap (λ es. es ++ event ∷ []) c.ordered
            ∙ append_assoc s.delivered s.buffer.queue (event ∷ []);
        bounded = omega (arith, length-snoc s.buffer.queue event);
        counted = c.counted;
        sequenced = c.sequenced;
        last_report = c.last_report;
      })

report_drops-Conserved :
    (s : System) (event : Event) (b : Buffer)
    → report_drops s.buffer ≡ some (event, b)
    → Conserved s
    → Conserved (record s { buffer = b; reports = s.reports ++ event ∷ [] })
report_drops-Conserved s event b h c =
    let (some_drops, e, e') = report_drops-some s.buffer b event h in
    let report = diagnostic (s.buffer.diagnostic_sequence + 1) s.buffer.dropped in
    subst (λ (b' : Buffer). Conserved (record s { buffer = b'; reports = s.reports ++ event ∷ [] }))
      e'
      (subst
        (λ (d : Event). Conserved (record s {
          buffer = record s.buffer {
            dropped = 0;
            diagnostic_sequence = s.buffer.diagnostic_sequence + 1;
          };
          reports = s.reports ++ d ∷ [];
        }))
        e
        (record {
          ordered = c.ordered;
          bounded = c.bounded;
          counted = omega (
            arith,
            c.counted,
            reported-append s.reports report,
            drop_count-diagnostic (s.buffer.diagnostic_sequence + 1) s.buffer.dropped some_drops,
          );
          sequenced =
              Numbered-append 0 s.reports report c.sequenced (omega (arith, c.last_report)) refl;
          last_report = omega (arith, c.last_report, length-snoc s.reports report);
        }))

dequeue-Conserved :
    (s : System) (event : Event) (b : Buffer)
    → dequeue s.buffer.queue s.buffer ≡ some (event, b)
    → Conserved s
    → Conserved
        (record s { buffer = b; waiting = s.waiting - 1; delivered = s.delivered ++ event ∷ [] })
dequeue-Conserved s event b h c =
    let (rest, q, e) = dequeue-some s.buffer.queue s.buffer b event h in
    subst
      (λ (b' : Buffer).
        Conserved (record s {
          buffer = b';
          waiting = s.waiting - 1;
          delivered = s.delivered ++ event ∷ [];
        }))
      e
      (record {
        ordered =
            c.ordered
            ∙ ap (λ es. s.delivered ++ es) q
            ∙ sym (append_assoc s.delivered (event ∷ []) rest);
        bounded = omega (arith, c.bounded, ap length q);
        counted = c.counted;
        sequenced = c.sequenced;
        last_report = c.last_report;
      })

Step-Conserved : {s t : System} → Step s t → Conserved s → Conserved t
unfolding count_drop
Step-Conserved (put_succeeds s event b h) c = enqueue-Conserved s event b h c
Step-Conserved (put_finds_full s event h) c = record {
  ordered = c.ordered;
  bounded = c.bounded;
  counted = omega (arith, c.counted);
  sequenced = c.sequenced;
  last_report = c.last_report;
}
Step-Conserved (put_counts s h) c = record {
  ordered = c.ordered;
  bounded = c.bounded;
  counted = omega (arith, c.counted);
  sequenced = c.sequenced;
  last_report = c.last_report;
}
Step-Conserved (get_reports s event b h) c = report_drops-Conserved s event b h c
Step-Conserved (get_waits s h) c = record {
  ordered = c.ordered;
  bounded = c.bounded;
  counted = c.counted;
  sequenced = c.sequenced;
  last_report = c.last_report;
}
Step-Conserved (get_takes s event b h d) c = dequeue-Conserved s event b d c
Step-Conserved (get_times_out s h) c = record {
  ordered = c.ordered;
  bounded = c.bounded;
  counted = c.counted;
  sequenced = c.sequenced;
  last_report = c.last_report;
}

start-Conserved : (capacity : ℕ) (b : Buffer) → create capacity ≡ ok b → Conserved (start b)
unfolding create reported Numbered
start-Conserved capacity b h =
    let (_, made) = guard-bind (leb 1 capacity && leb capacity 10000) invalid_capacity _ h in
    let same : record { capacity = capacity; queue = []; dropped = 0; diagnostic_sequence = 0 }
        ≡ b =
      ok-injective made in
    subst (λ (b' : Buffer). Conserved (start b')) same
      (record {
        ordered = refl;
        bounded = omega arith;
        counted = omega arith;
        sequenced = tt;
        last_report = refl;
      })

-- Whatever steps the producers and consumers of a new buffer take, in any order: every accepted
-- event is delivered or still queued, in the order of acceptance; the queue keeps its capacity;
-- every lost event is reported, counted, or about to be counted; and the reports are numbered
-- from 1 without a gap.
pub Reach-Conserved :
    (capacity : ℕ) (b : Buffer) {s : System}
    → create capacity ≡ ok b
    → Reach (start b) s
    → Conserved s
Reach-Conserved capacity b h here = start-Conserved capacity b h
Reach-Conserved capacity b h (next r st) = Step-Conserved st (Reach-Conserved capacity b h r)
