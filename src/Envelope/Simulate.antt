-- ===== src/Envelope/Simulate.antt =====
-- lib/sippycup/envelope.py, `_normalize_commands` (after the fields are read) and
-- `simulate_envelope_plan`: the ramp controller, driven by a schedule of operator commands. It
-- sends no traffic, and the optional `endpoint` callback, which has no result, is left out.
pub mod Total
pub mod Trace
use sippycup.Prelude.{
  ℕ, zero, suc, ◌+◌, String, Bool, true, false, ◌&&◌, ◌||◌, List, [], ◌∷◌, ◌++◌, Option, none, some,
  Result, ok, err, ◌>>=◌, ◌>>◌, guard, ltb, leb, ◌==◌, any, min, length, get_elem?, if◌then◌else◌,
}
use sippycup.Envelope.Arithmetic.{EnvelopeError, refused, checked_add}
use sippycup.Envelope.Compile.{Maxima, Totals, Step, Plan, no_totals}

pub data Command : Type 0 where
  pause resume stop : Command

pub record Control : Type 0 where
  pub at_seconds : ℕ
  pub command : Command

-- `if at_seconds < previous: raise`; `previous` starts at -1, below every time.
unfoldable pub check_order : ℕ → List Control → Result EnvelopeError (Unit {0})
check_order previous [] = ok tt
check_order previous (c ∷ rest) = do
  guard (leb previous c.at_seconds) (refused "controls must be ordered by atSeconds")
  check_order c.at_seconds rest

-- The commands at one time, in the order given.
pub record Group : Type 0 where
  pub time : ℕ
  pub commands : List Command

-- `grouped.setdefault(time, []).append(command)`, kept in the order of `sorted(grouped)`.
unfoldable pub add_command : ℕ → Command → List Group → List Group
add_command time command [] = record { time = time; commands = command ∷ [] } ∷ []
add_command time command (g ∷ gs) =
    if time == g.time
    then record g { commands = g.commands ++ command ∷ [] } ∷ gs
    else if ltb time g.time
    then record { time = time; commands = command ∷ [] } ∷ g ∷ gs
    else g ∷ add_command time command gs

unfoldable pub group_from : List Group → List Control → List Group
group_from groups [] = groups
group_from groups (c ∷ rest) = group_from (add_command c.at_seconds c.command groups) rest

pub data State : Type 0 where
  running paused stopped completed : State

pub data Event : Type 0 where
  controller_started control_stop control_pause control_resume : Event
  controller_completed : String → Event
  controller_stopped : Event
  ramp_step_started : Step → Event

-- One entry of `events`; its `sequence` is `len(events) + 1` when it is added.
pub record Entry : Type 0 where
  pub sequence : ℕ
  pub at_seconds : ℕ
  pub event : Event
  pub state : State

-- The variables of the loop. `groups` are the command groups from `command_index` on.
pub record Controller : Type 0 where
  pub groups : List Group
  pub next_step : ℕ
  pub next_start : Option ℕ
  pub state : State
  pub events : List Entry
  pub consumed : Totals

abbrev pub emit : ℕ → Event → Controller → Controller
emit at_seconds event c = record c {
  events =
      c.events
      ++ record {
        sequence = length c.events + 1;
        at_seconds = at_seconds;
        event = event;
        state = c.state;
      }
        ∷ [];
}

abbrev pub is_stop : Command → Bool
is_stop stop = true
is_stop _ = false

abbrev pub is_pause : Command → Bool
is_pause pause = true
is_pause _ = false

abbrev pub is_running : State → Bool
is_running running = true
is_running _ = false

abbrev pub is_paused : State → Bool
is_paused paused = true
is_paused _ = false

abbrev pub is_final : State → Bool
is_final stopped = true
is_final completed = true
is_final _ = false

-- The commands of one time: stop wins over pause, and pause over resume. A group is never empty,
-- so what is left is a resume.
unfoldable pub control : ℕ → List Command → Controller → Result EnvelopeError Controller
control now commands c =
    if any is_stop commands
    then ok (emit now control_stop (record c { state = stopped }))
    else if any is_pause commands
    then ok (emit now control_pause (record c { state = paused; next_start = none }))
    else if is_paused c.state
    then ok (emit now control_resume (record c { state = running; next_start = some now }))
    else err (refused "resume requires a paused controller")

module _ (plan : Plan) where
  -- The next step of the ramp at time `now`: a missing step completes the run, and one that does
  -- not fit a budget stops it.
  unfoldable pub advance : ℕ → Option Step → Controller → Result EnvelopeError Controller
  advance now none c =
      ok (emit now (controller_completed plan.reason) (record c { state = completed }))
  advance now (some step) c = do
    let tail = plan.maxima.cooldown_seconds + plan.maxima.recovery_deadline_seconds
    calls ← checked_add c.consumed.calls step.budget.calls "consumed calls"
    duration ←
        checked_add c.consumed.ramp_duration_seconds step.hold_seconds "consumed ramp duration"
    after_hold ← checked_add now step.hold_seconds "wall-clock hold deadline"
    with_recovery ← checked_add after_hold tail "wall-clock recovery deadline"
    exhausted ←
        (if ltb plan.maxima.total_calls calls then ok true else do
          remaining ← checked_add duration tail "remaining duration"
          ok (
              ltb plan.maxima.duration_seconds remaining
              || ltb plan.maxima.duration_seconds with_recovery))
    if exhausted then ok (emit now controller_stopped (record c { state = stopped })) else do
      calls' ← checked_add c.consumed.calls step.budget.calls "consumed calls"
      media ← checked_add c.consumed.media_packets step.budget.media_packets "consumed mediaPackets"
      seconds ← checked_add c.consumed.call_seconds step.budget.call_seconds "consumed callSeconds"
      ramp ←
          checked_add c.consumed.ramp_duration_seconds step.budget.duration_seconds
            "consumed rampDurationSeconds"
      let consumed : Totals = record {
        calls = calls';
        media_packets = media;
        call_seconds = seconds;
        ramp_duration_seconds = ramp;
      }
      ok (record (emit now (ramp_step_started step) (record c { consumed = consumed })) {
        next_step = c.next_step + 1;
        next_start = some (now + step.hold_seconds);
      })

  -- One round of the loop; `none` is the `break` on an empty `candidates`. A group at the time of a
  -- ramp event goes first. Where neither branch applies the loop would go round for ever; `round`
  -- then leaves the controller as it is.
  unfoldable pub round :
      List Group → Option ℕ → Controller → Option (Result EnvelopeError Controller)
  round [] none c = none
  round [] (some start) c =
      some (if is_running c.state then advance start (get_elem? plan.steps c.next_step) c else ok c)
  round (g ∷ gs) none c = some (control g.time g.commands (record c { groups = gs }))
  round (g ∷ gs) (some start) c = some (
      if leb g.time start
      then control g.time g.commands (record c { groups = gs })
      else if is_running c.state
      then advance start (get_elem? plan.steps c.next_step) c
      else ok c)

  -- `while state not in {"stopped", "completed"}`; the outer `none` means that the fuel ran out.
  unfoldable pub drive : ℕ → Controller → Option (Result EnvelopeError Controller)
  drive zero c = none
  drive (suc fuel) c = elim (is_final c.state) [
    | true ↦ some (ok c)
    | false ↦ elim (round c.groups c.next_start c) [
      | none ↦ some (ok c)
      | some (err e) ↦ some (err e)
      | some (ok c') ↦ drive fuel c'
    ]
  ]

  abbrev pub opening : List Group → Controller
  opening groups = emit 0 controller_started (record {
    groups = groups;
    next_step = 0;
    next_start = some 0;
    state = running;
    events = [];
    consumed = no_totals;
  })

  -- The fuel is one round for each group and each step, and two to end.
  unfoldable pub simulate : List Control → Option (Result EnvelopeError Controller)
  simulate controls = elim (check_order 0 controls) [
    | err e ↦ some (err e)
    | ok _ ↦
        let groups = group_from [] controls in
        drive (length groups + length plan.steps + 2) (opening groups)
  ]
