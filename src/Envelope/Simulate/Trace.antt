-- ===== src/Envelope/Simulate/Trace.antt =====
-- lib/sippycup/envelope.py, `simulate_envelope_plan` with no operator command: it runs every step
-- of a compiled plan and consumes exactly the planned worst case.
use native.Mathlib.Numerals.{add-one}
use mathlib.Core.List.{append_assoc, append-nil}
use sippycup.Prelude.{
  ℕ, suc, ◌+◌, ◌≤◌, ◌<◌, List, [], ◌∷◌, ◌++◌, none, some, ok, ◌≡◌, refl, sym, ap, ◌∙◌, arith,
  length, length-snoc, get_elem?, get_elem?-append_head, get_elem?-length,
}
use sippycup.Envelope.Arithmetic.{u64_max, checked_add}
use sippycup.Envelope.Compile.{
  Maxima, Workload, Ramp, Totals, Step, Plan, no_totals, at_dimension, compile_normalized,
}
use sippycup.Envelope.Compile.Schedule.{Fitting, add_budget, step_budget-duration}
use sippycup.Envelope.Compile.Plans.{tail, compile_normalized-IsScheduled}
use sippycup.Envelope.Simulate.{
  Entry, Controller, running, completed, ramp_step_started, controller_completed, advance, drive,
  simulate, round, emit, opening, check_order, group_from,
}

module _ (plan : Plan) where
  abbrev at_step : ℕ → Totals → List Entry → Controller
  at_step k t events = record {
    groups = [];
    next_step = k;
    next_start = some t.ramp_duration_seconds;
    state = running;
    events = events;
    consumed = t;
  }

  -- A step that fits is started.
  advance-fits :
      (k : ℕ) (t : Totals) (events : List Entry) (s : Step)
      → t.calls + s.budget.calls ≤ plan.maxima.total_calls
      → t.ramp_duration_seconds + s.hold_seconds + tail plan.maxima ≤ plan.maxima.duration_seconds
      → t.media_packets + s.budget.media_packets ≤ u64_max
      → t.call_seconds + s.budget.call_seconds ≤ u64_max
      → s.budget.duration_seconds ≡ s.hold_seconds
      → plan.maxima.total_calls ≤ u64_max
      → plan.maxima.duration_seconds ≤ u64_max
      → (events' : List Entry) × (advance plan t.ramp_duration_seconds (some s) (at_step k t events)
          ≡ ok (at_step (k + 1) (add_budget t s.budget) events'))
  unfolding advance checked_add
  advance-fits k t events s c d m q e uc ud = (
    events
        ++ record {
          sequence = length events + 1;
          at_seconds = t.ramp_duration_seconds;
          event = ramp_step_started s;
          state = running;
        }
          ∷ [],
    ground arith,
  )

  -- Where the run ends.
  pub Finished : Totals → Controller → Type 0
  Finished last c = (c.state ≡ completed) × (c.next_step ≡ length plan.steps) × (c.consumed ≡ last)

  drive_end :
      (pre : List Step) (t : Totals) (events : List Entry)
      → plan.steps ≡ pre ++ []
      → (c : Controller) × (drive plan 2 (at_step (length pre) t events) ≡ some (ok c))
        × Finished t c
  unfolding drive round advance Finished
  drive_end pre t events e =
      let none_left : get_elem? plan.steps (length pre) ≡ none =
        rw (e, append-nil) (get_elem?-length pre) in
      (
        emit t.ramp_duration_seconds (controller_completed plan.reason)
            (record (at_step (length pre) t events) { state = completed }),
        rw (none_left, drive, round, advance) refl,
        (refl, rw (e, append-nil) refl, refl),
      )

  drive_next :
      (fuel k : ℕ) (t : Totals) (events events' : List Entry) (s : Step)
      → get_elem? plan.steps k ≡ some s
      → advance plan t.ramp_duration_seconds (some s) (at_step k t events)
        ≡ ok (at_step (k + 1) (add_budget t s.budget) events')
      → drive plan (suc fuel) (at_step k t events)
        ≡ drive plan fuel (at_step (k + 1) (add_budget t s.budget) events')
  unfolding drive round
  drive_next fuel k t events events' s e a = rw (e, a, drive, round) refl

  module _ (workload : Workload) (ramp : Ramp) (uc : plan.maxima.total_calls ≤ u64_max)
      (ud : plan.maxima.duration_seconds ≤ u64_max) where
    drive_all :
        (pre ss : List Step) (t last : Totals) (events : List Entry)
        → plan.steps ≡ pre ++ ss
        → Fitting plan.maxima workload ramp (tail plan.maxima) t (length pre) ss last
        → (c : Controller) × (drive plan (suc (suc (length ss))) (at_step (length pre) t events)
            ≡ some (ok c))
          × Finished last c
    unfolding Fitting
    drive_all pre [] t last events e f = rw f (drive_end pre t events e)
    drive_all pre (s ∷ ss) t last events e (fits, rest) =
        let d =
          step_budget-duration s.intensity s.hold_seconds workload.call_duration_seconds
            fits.budgeted in
        let (events', a) =
          advance-fits (length pre) t events s fits.calls_fit (omega (arith, fits.time_fits, d))
            fits.media_fits fits.seconds_fit d uc ud in
        let (c, p, q) =
          drive_all (pre ++ s ∷ []) ss (add_budget t s.budget) last events'
            (e ∙ sym (append_assoc pre (s ∷ []) ss)) (rw (length-snoc, add-one) rest) in
        (
          c,
          drive_next (suc (suc (length ss))) (length pre) t events events' s
                (rw e (get_elem?-append_head pre s ss)) a
              ∙ (rw length-snoc at p),
          q,
        )

-- A controller with no operator command, on a compiled plan, starts every step, completes, and
-- consumes exactly the plan's totals.
pub simulate_no_controls :
    (maxima : Maxima) (workload : Workload) (ramp : Ramp) (plan : Plan)
    → maxima.total_calls ≤ u64_max
    → maxima.duration_seconds ≤ u64_max
    → ramp.start ≤ at_dimension ramp.dimension maxima.intensity
    → 0 < ramp.step
    → compile_normalized maxima workload ramp ≡ ok plan
    → (c : Controller) × (simulate plan [] ≡ some (ok c)) × Finished plan plan.totals c
unfolding simulate check_order group_from
simulate_no_controls maxima workload ramp plan uc ud fits pos h =
    let v = compile_normalized-IsScheduled maxima workload ramp fits pos h in
    let (c, p, q) =
      drive_all plan workload ramp (rw v.authorized uc) (rw v.authorized ud) [] plan.steps no_totals
        plan.totals (opening plan []).events refl (rw v.authorized v.scheduled) in
    let fuel : 0 + length plan.steps + 2 ≡ suc (suc (length plan.steps)) = omega arith in
    (c, ap (λ n. drive plan n (opening plan [])) fuel ∙ p, q)
