-- ===== src/Tui/Examples.antt =====
-- Tests and witnesses for lib/sippycup_tui/state.py: a short run with a late event and a drop.
use sippycup.Prelude.{
  ℕ, String, List, [], ◌∷◌, Option, none, ok, ◌≡◌, ◌↔◌, refl, length, arith, get, put,
}
use sippycup.Json.{Value, str, int, pos, Fields, end, field, lookup, keys}
use sippycup.Tui.Event.{
  Event, mapping, decode_event, raw_fields, is_text, read_sequence, read_label, read_payload,
}
use sippycup.Tui.Event.Bounds.{Describes, decode_event_iff}
use sippycup.Tui.Reducer.{
  ViewState, initial, is_phase, phase_from, phase_actions, warn, is_late, drop_count, mark_late,
  mark_dropped, mark_phase, reduce_event, replay,
}
use sippycup.Tui.Reducer.Consistent.{Consistent, replay-Consistent}
use sippycup.Tui.Reducer.Latest.{highest, replay-last_sequence}
use sippycup.Tui.Buffer.{
  Buffer, create, enqueue, count_drop, diagnostic, report_drops, dequeue, System, start, Reach,
  here, next, put_succeeds, put_finds_full, put_counts, get_reports, get_waits, get_takes,
}
use sippycup.Tui.Buffer.Conserved.{Conserved, Reach-Conserved}

abbrev event : ℕ → String → String → Event
event n source kind = record { sequence = n; source = source; kind = kind; payload = end }

abbrev run : List Event
run =
    event 1 "runner" "plan.started"
    ∷ event 3 "runner" "run.started"
    ∷ event 2 "runner" "run.failed"
    ∷ diagnostic 1 4
    ∷ []

replay-Consistent_example :
    (s : ViewState) × (replay run initial ≡ ok s) × Consistent (length run) s
replay-Consistent_example = replay-Consistent run

replayed : (s : ViewState) × (replay run initial ≡ ok s)
unfolding replay reduce_event is_phase phase_from phase_actions warn is_late drop_count mark_late
    mark_dropped mark_phase get put lookup
replayed = (_, refl)

-- The failure that comes late is not shown; the drop is.
replayed_phase : replayed.0.phase ≡ "warning"
unfolding replayed
replayed_phase = refl

replayed_dropped : replayed.0.dropped ≡ 4
unfolding replayed
replayed_dropped = refl

replay-last_sequence_example : get "runner" replayed.0.last_sequence ≡ highest "runner" run none
replay-last_sequence_example = replay-last_sequence "runner" run replayed.0 replayed.1

abbrev parse : String → Option Value
parse s = none

abbrev printed_size : Fields → ℕ
printed_size fs = 2

abbrev raw : Fields
raw = field "schema" (str "sippycup.ui-event/v1") (
    field "sequence" (int (pos 7))
      (field "source" (str "runner") (field "kind" (str "run.started") end)))

decoded : decode_event parse printed_size (mapping raw) ≡ ok (event 7 "runner" "run.started")
unfolding decode_event raw_fields is_text read_sequence read_label read_payload lookup keys
decoded = refl

decode_event_iff_example :
    (decode_event parse printed_size (mapping raw) ≡ ok (event 7 "runner" "run.started")) ↔ (
      (value : Fields) × (raw_fields parse printed_size (mapping raw) ≡ ok value)
      × Describes parse printed_size value (event 7 "runner" "run.started"))
decode_event_iff_example =
    decode_event_iff parse printed_size (mapping raw) (event 7 "runner" "run.started")

-- A buffer for one event: the second is lost, counted, and reported before the first is taken.
abbrev small : Buffer
small = record { capacity = 1; queue = []; dropped = 0; diagnostic_sequence = 0 }

created : create 1 ≡ ok small
unfolding create
created = refl

abbrev first : Event
first = event 1 "runner" "plan.started"

abbrev second : Event
second = event 2 "runner" "run.started"

abbrev full : Buffer
full = record small { queue = first ∷ [] }

abbrev at_last : System
at_last = record {
  buffer = record { capacity = 1; queue = []; dropped = 0; diagnostic_sequence = 1 };
  refused = 0;
  waiting = 0;
  accepted = first ∷ [];
  lost = 1;
  delivered = first ∷ [];
  reports = diagnostic 1 1 ∷ [];
}

steps : Reach (start small) at_last
unfolding enqueue count_drop report_drops dequeue
steps =
    next
      (next
        (next
          (next (next (next here (put_succeeds _ first full refl)) (put_finds_full _ second refl))
            (put_counts _ (omega arith)))
          (get_reports _ (diagnostic 1 1) (record full { diagnostic_sequence = 1 }) refl))
        (get_waits _ refl))
      (get_takes _ first at_last.buffer (omega arith) refl)

Reach-Conserved_example : Conserved at_last
Reach-Conserved_example = Reach-Conserved 1 small created steps
