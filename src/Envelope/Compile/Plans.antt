-- ===== src/Envelope/Compile/Plans.antt =====
-- lib/sippycup/envelope.py, `_compile_normalized`: what a compiled plan promises.
use mathlib.Core.Path.{subst}
use sippycup.Prelude.{
  ℕ, suc, ◌+◌, ◌≤◌, ◌<◌, String, Bool, List, [], ◌∷◌, ◌++◌, map, Option, none, some, ok, >>=-eq-ok,
  ok-injective, ltb, ◌≡◌, ◌≢◌, refl, ap, ◌∙◌, inl, inr, arith, if◌then◌else◌, eq_iff, guard-bind,
  ltb→lt,
}
use sippycup.Envelope.Arithmetic.{checked_add-bind}
use sippycup.Envelope.Ramp.{levels}
use sippycup.Envelope.Ramp.Shape.{Climbs, levels-ok}
use sippycup.Envelope.Compile.{
  Maxima, Workload, Ramp, Totals, Step, Expansion, Plan, at_dimension, no_totals, expand, last_step,
  conclude, compile_normalized,
}
use sippycup.Envelope.Compile.Schedule.{Fitting, Expanded, expand-Expanded, add_budget}

abbrev pub tail : Maxima → ℕ
tail maxima = maxima.cooldown_seconds + maxima.recovery_deadline_seconds

-- A plan's steps are a first part of the ramp and a schedule within the authorization; its totals
-- are theirs, and with the cooldown and the recovery they stay within the hard maxima. The plan
-- says that it ends at the ceiling only if no level is left out.
pub record IsScheduled (maxima : Maxima) (workload : Workload) (ramp : Ramp) (plan : Plan)
    : Type 0 where
  pub authorized : plan.maxima ≡ maxima
  pub ran : List ℕ
  pub skipped : List ℕ
  pub climbs : Climbs ramp.step (at_dimension ramp.dimension maxima.intensity) ramp.start ran
  pub in_order : map (λ (s : Step). s.level) plan.steps ++ skipped ≡ ramp.start ∷ ran
  pub scheduled : Fitting maxima workload ramp (tail maxima) no_totals 0 plan.steps plan.totals
  pub started : plan.steps ≢ []
  pub calls_within : plan.totals.calls ≤ maxima.total_calls
  pub time_adds : plan.total_duration_seconds ≡ plan.totals.ramp_duration_seconds + tail maxima
  pub time_within : plan.total_duration_seconds ≤ maxima.duration_seconds
  pub at_ceiling : plan.reason ≡ "authorization_ceiling" → skipped ≡ []

exhausted_reason :
    (b : Bool) (reason : String)
    → reason ≡ "budget_exhausted"
    → (if b then "budget_exhausted" else reason) ≢ "authorization_ceiling"
exhausted_reason b reason e h = ground (arith, eq_iff "budget_exhausted" "authorization_ceiling")

module _ (maxima : Maxima) (workload : Workload) (ramp : Ramp) where
  -- The bounds pass from the totals before a schedule to those after it.
  Fitting-bounds :
      (k : ℕ) (t : Totals) (n : ℕ) (ss : List Step) (last : Totals)
      → t.calls ≤ maxima.total_calls
      → t.ramp_duration_seconds + k ≤ maxima.duration_seconds
      → Fitting maxima workload ramp k t n ss last
      → (last.calls ≤ maxima.total_calls)
        × (last.ramp_duration_seconds + k ≤ maxima.duration_seconds)
  unfolding Fitting
  Fitting-bounds k t n [] last c d h = rw h (c, d)
  Fitting-bounds k t n (s ∷ ss) last c d (f, h) =
      Fitting-bounds k (add_budget t s.budget) (suc n) ss last f.calls_fit f.time_fits h

  conclude-IsScheduled :
      (ls : List ℕ) (ran : List ℕ) (e : Expansion) (o : Option Step) {plan : Plan}
      → Climbs ramp.step (at_dimension ramp.dimension maxima.intensity) ramp.start ran
      → ls ≡ ramp.start ∷ ran
      → tail maxima < maxima.duration_seconds
      → Expanded maxima workload ramp (tail maxima) ls no_totals [] e
      → o ≡ last_step e.steps
      → conclude maxima workload ramp (tail maxima) e o ≡ ok plan
      → IsScheduled maxima workload ramp plan
  unfolding conclude Expanded
  conclude-IsScheduled ls ran e none climbs q room x l h = cc
  conclude-IsScheduled ls ran e (some last) climbs q room (new, skipped, p, order, fit, z) l h =
      let (h1, _) = checked_add-bind e.totals.ramp_duration_seconds (tail maxima) _ _ h in
      let (c, d) =
        Fitting-bounds (tail maxima) no_totals 0 new e.totals (omega arith) (omega arith) fit in
      subst (IsScheduled maxima workload ramp) (ok-injective h1) (record {
        authorized = refl;
        ran = ran;
        skipped = skipped;
        climbs = climbs;
        in_order = rw p (order ∙ q);
        scheduled = rw p fit;
        started = λ nil. cc (l, ap last_step nil);
        calls_within = c;
        time_adds = refl;
        time_within = d;
        at_ceiling = λ ceiling. elim z [
          | inl none_left ↦ none_left
          | inr exhausted ↦ absurd (exhausted_reason _ e.reason exhausted ceiling)
        ];
      })

  -- A plan that is compiled for a ramp that starts below its ceiling runs a first part of the
  -- levels as a schedule without gaps, whose calls and time, with cooldown and recovery, stay
  -- within the hard maxima; it claims the ceiling only if no level is left out.
  pub compile_normalized-IsScheduled :
      {plan : Plan}
      → ramp.start ≤ at_dimension ramp.dimension maxima.intensity
      → 0 < ramp.step
      → compile_normalized maxima workload ramp ≡ ok plan
      → IsScheduled maxima workload ramp plan
  unfolding compile_normalized
  compile_normalized-IsScheduled {plan} fits pos h =
      let (h1, _) =
        checked_add-bind maxima.cooldown_seconds maxima.recovery_deadline_seconds _ _ h in
      let (room, h2) = guard-bind (ltb (tail maxima) maxima.duration_seconds) _ _ h1 in
      let (ls, p, h3) = >>=-eq-ok (levels ramp.start ramp.step _) _ h2 in
      let (e, q, h4) = >>=-eq-ok (expand maxima workload ramp (tail maxima) ls no_totals []) _ h3 in
      let (ran, climbs, r) = levels-ok ramp.start ramp.step _ fits pos p in
      conclude-IsScheduled ls ran e (last_step e.steps) climbs r (ltb→lt _ _ room)
        (expand-Expanded maxima workload ramp (tail maxima) ls no_totals [] e q) refl h4
