-- ===== src/Envelope/Examples.antt =====
-- lib/sippycup/envelope.py on a small authorization: ten calls per second, reached from two.
use sippycup.Prelude.{
  ℕ, List, [], ◌∷◌, some, Result, ok, ltb, length, ◌≡◌, refl, arith, err, if◌then◌else◌,
}
use sippycup.Envelope.Arithmetic.{EnvelopeError, refused, ceil_div, checked_add, checked_mul}
use sippycup.Envelope.Ramp.{levels, level_range, cap_last, last_differs, max_plan_steps}
use sippycup.Envelope.Ramp.Shape.{Climbs, levels-Climbs}
use sippycup.Envelope.Compile.{
  Dimension, Maxima, Workload, Ramp, Plan, step_budget, expand, conclude, compile_normalized,
}
use sippycup.Envelope.Compile.Plans.{IsScheduled, compile_normalized-IsScheduled}
use sippycup.Envelope.Simulate.{Control, Controller, stop, pause, resume, simulate}
use sippycup.Envelope.Simulate.Trace.{Finished, simulate_no_controls}
use sippycup.Envelope.Simulate.Total.{Safe, simulate-Safe}

abbrev ceiling : Maxima
ceiling = record {
  intensity = record {
    calls_per_second = 10;
    concurrent_calls = 20;
    media_packets_per_second = 1000;
  };
  total_calls = 1000;
  duration_seconds = 100;
  hold_seconds = 10;
  cooldown_seconds = 5;
  recovery_deadline_seconds = 5;
}

abbrev load : Workload
load = record {
  intensity = record { calls_per_second = 2; concurrent_calls = 4; media_packets_per_second = 100 };
  call_duration_seconds = 5;
}

abbrev ramp : Ramp
ramp = record { dimension = Dimension.calls_per_second; start = 2; step = 3 }

compiled : (plan : Plan) × (compile_normalized ceiling load ramp ≡ ok plan)
unfolding compile_normalized conclude expand step_budget levels level_range cap_last last_differs
    ceil_div checked_add checked_mul
compiled = (_, refl)

levels-Climbs_example :
    (xs : List ℕ) × Climbs 3 10 2 xs
    × (levels 2 3 10 ≡ (
        if ltb max_plan_steps (length (2 ∷ xs))
        then err (refused "ramp expansion exceeds planner limit")
        else ok (2 ∷ xs)))
levels-Climbs_example = levels-Climbs 2 3 10 (omega arith) (omega arith)

compile_normalized-IsScheduled_example : IsScheduled ceiling load ramp compiled.0
compile_normalized-IsScheduled_example =
    compile_normalized-IsScheduled ceiling load ramp (omega arith) (omega arith) compiled.1

simulate_no_controls_example :
    (c : Controller) × (simulate compiled.0 [] ≡ some (ok c))
    × Finished compiled.0 compiled.0.totals c
simulate_no_controls_example =
    simulate_no_controls ceiling load ramp compiled.0 (omega arith) (omega arith) (omega arith)
      (omega arith) compiled.1

abbrev interrupted : List Control
interrupted =
    record { at_seconds = 15; command = pause }
    ∷ record { at_seconds = 40; command = resume }
    ∷ record { at_seconds = 60; command = stop }
    ∷ []

simulate-Safe_example :
    (r : Result EnvelopeError Controller) × (simulate compiled.0 interrupted ≡ some r)
    × Safe compiled.0 r
simulate-Safe_example =
    simulate-Safe ceiling load ramp compiled.0 interrupted (omega arith) (omega arith) compiled.1
