-- ===== src/Tui/Reducer/Latest.antt =====
-- lib/sippycup_tui/state.py: `last_sequence` is the highest sequence number of each source.
use sippycup.Prelude.{
  ℕ, max, String, List, [], ◌∷◌, Option, none, some, ok, ◌≡◌, ◌∙◌, ap, arith, str_eq, eq_iff,
  if◌then◌else◌, >>=-eq-ok, get, get-put,
}
use sippycup.Tui.Event.{Event}
use sippycup.Tui.Reducer.{
  ViewState, initial, is_late, mark_late, mark_dropped, mark_schema_error, mark_phase, reduce_event,
  replay,
}

-- The higher of the two.
abbrev pub later : Option ℕ → ℕ → Option ℕ
later none n = some n
later (some m) n = some (max m n)

-- The highest sequence number of a source.
abbrev pub highest : String → List Event → Option ℕ → Option ℕ
highest source [] seen = seen
highest source (e ∷ es) seen =
    highest source es (if str_eq e.source source then later seen e.sequence else seen)

reduce_event-highest :
    (source : String) (s t : ViewState) (e : Event)
    → reduce_event s e ≡ ok t
    → get source t.last_sequence ≡ (
        if str_eq e.source source
        then later (get source s.last_sequence) e.sequence
        else get source s.last_sequence)
unfolding reduce_event mark_late mark_dropped mark_schema_error mark_phase is_late
reduce_event-highest source s t e h =
    ground (arith, get-put source e.source e.sequence s.last_sequence, eq_iff e.source source)

replay-highest :
    (source : String) (es : List Event) (s t : ViewState)
    → replay es s ≡ ok t
    → get source t.last_sequence ≡ highest source es (get source s.last_sequence)
unfolding replay
replay-highest source [] s t h = ground arith
replay-highest source (e ∷ es) s t h =
    let (s', p, q) = >>=-eq-ok (reduce_event s e) (replay es) h in
    replay-highest source es s' t q ∙ ap (highest source es) (reduce_event-highest source s s' e p)

-- After a replay from the initial state, `last_sequence` maps every source to the highest sequence
-- number among its events, however they were ordered, and to nothing if there are none.
pub replay-last_sequence :
    (source : String) (es : List Event) (t : ViewState)
    → replay es initial ≡ ok t
    → get source t.last_sequence ≡ highest source es none
unfolding get
replay-last_sequence source es t h = replay-highest source es initial t h
