-- ===== src/Tui/Reducer.antt =====
-- lib/sippycup_tui/state.py: `ViewState`, `reduce_event` and `replay`. A warning is kept as what it
-- is about, not as its wording.
pub mod Consistent
pub mod Latest
use sippycup.Prelude.{
  ℕ, ◌+◌, ◌-◌, String, Bool, true, false, List, [], ◌∷◌, ◌++◌, Option, none, some, Result, ok, err,
  ◌>>=◌, ◌>>◌, guard, str_eq, leb, length, drop, any, get, put, if◌then◌else◌,
}
use sippycup.Json.{Value, int, pos, Fields, lookup}
use sippycup.Tui.Event.{EventError, invalid_phase, missing_phase, Event}

pub data Warning : Type 0 where
  late_event : String → ℕ → ℕ → Warning
  events_dropped : ℕ → Warning
  schema_mismatch runtime_warning : Option Value → Warning

pub record ViewState : Type 0 where
  pub phase : String
  pub last_sequence : List (String × ℕ)
  pub processed : ℕ
  pub dropped : ℕ
  pub late : ℕ
  pub schema_errors : ℕ
  pub warnings : List Warning
  pub actions : List String
  pub latest : Option Event

-- `ViewState()`.
abbrev pub initial : ViewState
initial = record {
  phase = "planning";
  last_sequence = [];
  processed = 0;
  dropped = 0;
  late = 0;
  schema_errors = 0;
  warnings = [];
  actions = "stop" ∷ "quit" ∷ [];
  latest = none;
}

abbrev pub phases : List String
phases =
    "planning" ∷ "ready" ∷ "running" ∷ "warning" ∷ "stopping" ∷ "recovery" ∷ "complete" ∷ "failed"
    ∷ []

-- `phase in PHASES`.
unfoldable pub is_phase : String → Bool
is_phase phase = any (λ p. str_eq phase p) phases

abbrev pub kind_to_phase : List (String × String)
kind_to_phase =
    ("plan.started", "planning")
    ∷ ("plan.ready", "ready")
    ∷ ("run.started", "running")
    ∷ ("run.warning", "warning")
    ∷ ("stop.requested", "stopping")
    ∷ ("recovery.started", "recovery")
    ∷ ("run.completed", "complete")
    ∷ ("assertions.passed", "complete")
    ∷ ("run.failed", "failed")
    ∷ ("assertions.failed", "failed")
    ∷ []

-- `table.get(kind, phase)`.
unfoldable pub phase_from : List (String × String) → String → String → String
phase_from [] kind phase = phase
phase_from ((k, p) ∷ rest) kind phase = if str_eq k kind then p else phase_from rest kind phase

abbrev pub phase_of : String → String → String
phase_of = phase_from kind_to_phase

abbrev pub watching : List String
watching = "stop" ∷ "note" ∷ "bookmark" ∷ "quit" ∷ []

abbrev pub ending : List String
ending = "stop" ∷ "note" ∷ "quit" ∷ []

abbrev pub reviewing : List String
reviewing = "stop" ∷ "termshark" ∷ "note" ∷ "quit" ∷ []

-- `PHASE_ACTIONS[phase]`.
unfoldable pub phase_actions : String → Option (List String)
phase_actions phase =
    if str_eq phase "planning"
    then some ("stop" ∷ "quit" ∷ [])
    else if str_eq phase "ready"
    then some ("start" ∷ "stop" ∷ "quit" ∷ [])
    else if str_eq phase "running"
    then some watching
    else if str_eq phase "warning"
    then some watching
    else if str_eq phase "stopping"
    then some ending
    else if str_eq phase "recovery"
    then some ending
    else if str_eq phase "complete"
    then some reviewing
    else if str_eq phase "failed"
    then some reviewing
    else none

-- `tuple(warnings[-100:])` with one more warning at the end.
unfoldable pub warn : List Warning → Warning → List Warning
warn ws w = drop (length ws + 1 - 100) (ws ++ w ∷ [])

-- `type(count) is int and count >= 1`, or 1.
unfoldable pub drop_count : Fields → ℕ
drop_count payload = elim (lookup "count" payload) [
  | some (int (pos n)) ↦ if leb 1 n then n else 1
  | _ ↦ 1
]

-- The event is not newer than the last one of its source.
unfoldable pub is_late : ViewState → Event → Option ℕ
is_late state event = elim (get event.source state.last_sequence) [
  | none ↦ none
  | some last ↦ if leb event.sequence last then some last else none
]

-- The four states that `reduce_event` returns.
unfoldable pub mark_late : ViewState → Event → ℕ → ViewState
mark_late state event last = record state {
  late = state.late + 1;
  warnings = warn state.warnings (late_event event.source event.sequence last);
}

unfoldable pub mark_dropped : ViewState → Event → ViewState
mark_dropped state event = record state {
  phase = "warning";
  last_sequence = put event.source event.sequence state.last_sequence;
  processed = state.processed + 1;
  dropped = state.dropped + drop_count event.payload;
  warnings = warn state.warnings (events_dropped (drop_count event.payload));
  actions = watching;
}

unfoldable pub mark_schema_error : ViewState → Event → ViewState
mark_schema_error state event = record state {
  phase = "warning";
  last_sequence = put event.source event.sequence state.last_sequence;
  processed = state.processed + 1;
  schema_errors = state.schema_errors + 1;
  warnings = warn state.warnings (schema_mismatch (lookup "message" event.payload));
  actions = watching;
}

unfoldable pub mark_phase : ViewState → Event → List String → ViewState
mark_phase state event actions = record state {
  phase = phase_of event.kind state.phase;
  last_sequence = put event.source event.sequence state.last_sequence;
  processed = state.processed + 1;
  warnings =
      if str_eq event.kind "run.warning"
      then warn state.warnings (runtime_warning (lookup "message" event.payload))
      else drop (length state.warnings - 100) state.warnings;
  actions = actions;
  latest = some event;
}

unfoldable pub reduce_event : ViewState → Event → Result EventError ViewState
reduce_event state event = do
  guard (is_phase state.phase) invalid_phase
  elim (is_late state event) [
    | some last ↦ ok (mark_late state event last)
    | none ↦
        if str_eq event.kind "ui.dropped"
        then ok (mark_dropped state event)
        else if str_eq event.kind "ui.schema-error"
        then ok (mark_schema_error state event)
        else elim (phase_actions (phase_of event.kind state.phase)) [
          | none ↦ err missing_phase
          | some actions ↦ ok (mark_phase state event actions)
        ]
  ]

unfoldable pub replay : List Event → ViewState → Result EventError ViewState
replay [] state = ok state
replay (event ∷ events) state = do next ← reduce_event state event; replay events next
