-- ===== src/Envelope/Compile.antt =====
-- lib/sippycup/envelope.py, `_validate_constraints`, `_step_budget` and `_compile_normalized`: a
-- normalized authorization is expanded to the steps of a ramp that fit its budgets.
pub mod Schedule
pub mod Plans
use sippycup.Prelude.{
  ℕ, ◌+◌, String, Bool, true, false, ◌&&◌, ◌||◌, List, [], ◌∷◌, ◌++◌, Option, none, some, Result,
  ok, err, ◌>>=◌, ◌>>◌, guard, not, ltb, leb, ◌==◌, max, length, if◌then◌else◌,
}
use sippycup.Envelope.Arithmetic.{EnvelopeError, refused, checked_add, checked_mul, ceil_div}
use sippycup.Envelope.Ramp.{levels}

-- `DIMENSIONS`.
pub data Dimension : Type 0 where
  calls_per_second concurrent_calls media_packets_per_second : Dimension

-- A value for each dimension.
pub record Intensity : Type 0 where
  pub calls_per_second : ℕ
  pub concurrent_calls : ℕ
  pub media_packets_per_second : ℕ

-- `intensity[dimension]`.
abbrev pub at_dimension : Dimension → Intensity → ℕ
at_dimension Dimension.calls_per_second i = i.calls_per_second
at_dimension Dimension.concurrent_calls i = i.concurrent_calls
at_dimension Dimension.media_packets_per_second i = i.media_packets_per_second

-- `{key: (level if key == dimension else workload[key]) for key in DIMENSIONS}`.
abbrev pub with_level : Dimension → ℕ → Intensity → Intensity
with_level Dimension.calls_per_second level i = record i { calls_per_second = level }
with_level Dimension.concurrent_calls level i = record i { concurrent_calls = level }
with_level Dimension.media_packets_per_second level i = record i {
  media_packets_per_second = level;
}

-- `MAXIMA_KEYS`.
pub record Maxima : Type 0 where
  pub intensity : Intensity
  pub total_calls : ℕ
  pub duration_seconds : ℕ
  pub hold_seconds : ℕ
  pub cooldown_seconds : ℕ
  pub recovery_deadline_seconds : ℕ

-- `WORKLOAD_KEYS`.
pub record Workload : Type 0 where
  pub intensity : Intensity
  pub call_duration_seconds : ℕ

pub record Ramp : Type 0 where
  pub dimension : Dimension
  pub start : ℕ
  pub step : ℕ

pub record Budget : Type 0 where
  pub calls : ℕ
  pub media_packets : ℕ
  pub call_seconds : ℕ
  pub duration_seconds : ℕ

pub record Totals : Type 0 where
  pub calls : ℕ
  pub media_packets : ℕ
  pub call_seconds : ℕ
  pub ramp_duration_seconds : ℕ

pub record Step : Type 0 where
  pub index : ℕ
  pub level : ℕ
  pub start_at_seconds : ℕ
  pub hold_seconds : ℕ
  pub intensity : Intensity
  pub budget : Budget

pub record Plan : Type 0 where
  pub maxima : Maxima
  pub workload : Workload
  pub ramp : Ramp
  pub totals : Totals
  pub total_duration_seconds : ℕ
  pub reason : String
  pub ceiling_reached : Bool
  pub steps : List Step

abbrev pub no_totals : Totals
no_totals = record { calls = 0; media_packets = 0; call_seconds = 0; ramp_duration_seconds = 0 }

unfoldable pub validate_constraints : Maxima → Workload → Ramp → Result EnvelopeError (Unit {0})
validate_constraints maxima workload ramp = do
  guard (leb workload.intensity.calls_per_second maxima.intensity.calls_per_second)
      (refused "workload.callsPerSecond")
  guard (leb workload.intensity.concurrent_calls maxima.intensity.concurrent_calls)
      (refused "workload.concurrentCalls")
  guard (leb workload.intensity.media_packets_per_second maxima.intensity.media_packets_per_second)
      (refused "workload.mediaPacketsPerSecond")
  guard (leb workload.call_duration_seconds maxima.duration_seconds)
      (refused "workload.callDurationSeconds")
  guard (at_dimension ramp.dimension workload.intensity == ramp.start)
      (refused "workload value for ramp.dimension")
  guard (leb ramp.start (at_dimension ramp.dimension maxima.intensity)) (refused "ramp.start")

unfoldable pub step_budget : Intensity → ℕ → ℕ → Result EnvelopeError Budget
step_budget intensity hold_seconds call_duration_seconds = do
  calls_at_rate ← checked_mul intensity.calls_per_second hold_seconds "step calls at CPS"
  let rotations = ceil_div hold_seconds call_duration_seconds
  calls_at_concurrency ←
      checked_mul intensity.concurrent_calls rotations "step calls at concurrency"
  media_packets ← checked_mul intensity.media_packets_per_second hold_seconds "step media packets"
  call_seconds ← checked_mul intensity.concurrent_calls hold_seconds "step call-seconds"
  ok (record {
    calls = max calls_at_rate calls_at_concurrency;
    media_packets = media_packets;
    call_seconds = call_seconds;
    duration_seconds = hold_seconds;
  })

-- What the loop leaves: the totals, the steps, and `reason` when it ends.
pub record Expansion : Type 0 where
  pub totals : Totals
  pub steps : List Step
  pub reason : String

module _ (maxima : Maxima) (workload : Workload) (ramp : Ramp) (reserved_tail : ℕ) where
  unfoldable pub expand : List ℕ → Totals → List Step → Result EnvelopeError Expansion
  expand [] totals steps =
      ok (record { totals = totals; steps = steps; reason = "authorization_ceiling" })
  expand (level ∷ rest) totals steps = do
    let intensity = with_level ramp.dimension level workload.intensity
    budget ← step_budget intensity maxima.hold_seconds workload.call_duration_seconds
    next_calls ← checked_add totals.calls budget.calls "total calls"
    next_duration ← checked_add totals.ramp_duration_seconds budget.duration_seconds "ramp duration"
    total_duration ← checked_add next_duration reserved_tail "worst-case duration"
    if ltb maxima.total_calls next_calls || ltb maxima.duration_seconds total_duration
        then ok (record { totals = totals; steps = steps; reason = "budget_exhausted" })
        else do
          next_media ← checked_add totals.media_packets budget.media_packets "total media packets"
          next_call_seconds ←
              checked_add totals.call_seconds budget.call_seconds "total call-seconds"
          expand rest
              (record {
                calls = next_calls;
                media_packets = next_media;
                call_seconds = next_call_seconds;
                ramp_duration_seconds = next_duration;
              })
              (steps
                ++ record {
                  index = length steps + 1;
                  level = level;
                  start_at_seconds = totals.ramp_duration_seconds;
                  hold_seconds = maxima.hold_seconds;
                  intensity = intensity;
                  budget = budget;
                }
                  ∷ [])

-- `steps[-1]`.
abbrev pub last_step : List Step → Option Step
last_step [] = none
last_step (s ∷ []) = some s
last_step (s ∷ t ∷ rest) = last_step (t ∷ rest)

-- What follows the loop; `steps[-1]` is handed in.
unfoldable pub conclude :
    Maxima → Workload → Ramp → ℕ → Expansion → Option Step → Result EnvelopeError Plan
conclude maxima workload ramp reserved_tail expansion none =
    err (refused "no ramp step fits the remaining total-call and duration budgets")
conclude maxima workload ramp reserved_tail expansion (some last) = do
  let reached = last.level == at_dimension ramp.dimension maxima.intensity
  total_duration ←
      checked_add expansion.totals.ramp_duration_seconds reserved_tail "worst-case duration"
  ok (record {
    maxima = maxima;
    workload = workload;
    ramp = ramp;
    totals = expansion.totals;
    total_duration_seconds = total_duration;
    reason = if not reached then "budget_exhausted" else expansion.reason;
    ceiling_reached = reached;
    steps = expansion.steps;
  })

unfoldable pub compile_normalized : Maxima → Workload → Ramp → Result EnvelopeError Plan
compile_normalized maxima workload ramp = do
  reserved_tail ←
      checked_add maxima.cooldown_seconds maxima.recovery_deadline_seconds
        "cooldown and recovery duration"
  guard (ltb reserved_tail maxima.duration_seconds) (refused "duration hard maximum")
  ramp_levels ← levels ramp.start ramp.step (at_dimension ramp.dimension maxima.intensity)
  expansion ← expand maxima workload ramp reserved_tail ramp_levels no_totals []
  conclude maxima workload ramp reserved_tail expansion (last_step expansion.steps)
