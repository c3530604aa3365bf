-- ===== src/Envelope/Compile/Schedule.antt =====
-- lib/sippycup/envelope.py, the loop of `_compile_normalized`: the steps that it adds are a
-- schedule within the budgets, with no gap.
use mathlib.Core.List.{append-nil, append_assoc}
use native.Mathlib.Numerals.{add-one}
use mathlib.Core.Path.{subst}
use sippycup.Prelude.{
  ap, ℕ, suc, ◌+◌, ◌≤◌, String, false, ◌||◌, List, [], ◌∷◌, ◌++◌, map, ok, >>=-eq-ok, ok-injective,
  ltb, ◌≡◌, refl, sym, ◌∙◌, ◌⊎◌, inl, inr, arith, length, length-snoc, Bool-cases,
}
use sippycup.Envelope.Arithmetic.{u64_max, checked_mul, checked_add-bind}
use sippycup.Envelope.Compile.{
  Maxima, Workload, Ramp, Intensity, Budget, Totals, Step, Expansion, with_level, step_budget,
  expand,
}

-- A budget lasts as long as its step is held.
pub step_budget-duration :
    (i : Intensity) (hold call : ℕ) {b : Budget}
    → step_budget i hold call ≡ ok b
    → b.duration_seconds ≡ hold
unfolding step_budget
step_budget-duration i hold call h =
    let (c1, p1, h1) = >>=-eq-ok (checked_mul i.calls_per_second _ _) _ h in
    let (c2, p2, h2) = >>=-eq-ok (checked_mul i.concurrent_calls _ _) _ h1 in
    let (c3, p3, h3) = >>=-eq-ok (checked_mul i.media_packets_per_second _ _) _ h2 in
    let (c4, p4, h4) = >>=-eq-ok (checked_mul i.concurrent_calls hold _) _ h3 in
    sym (ap (λ (b : Budget). b.duration_seconds) (ok-injective h4))

-- The totals after one more budget.
abbrev pub add_budget : Totals → Budget → Totals
add_budget t b = record {
  calls = t.calls + b.calls;
  media_packets = t.media_packets + b.media_packets;
  call_seconds = t.call_seconds + b.call_seconds;
  ramp_duration_seconds = t.ramp_duration_seconds + b.duration_seconds;
}

module _ (maxima : Maxima) (workload : Workload) (ramp : Ramp) (tail : ℕ) where
  -- The step `s`, after `n` others with the totals `t`, is the ramp's, has its budget, starts when
  -- they end, and leaves the totals within the authorization.
  pub record StepFits (t : Totals) (n : ℕ) (s : Step) : Type 0 where
    pub numbered : s.index ≡ n + 1
    pub starts : s.start_at_seconds ≡ t.ramp_duration_seconds
    pub holds : s.hold_seconds ≡ maxima.hold_seconds
    pub ramped : s.intensity ≡ with_level ramp.dimension s.level workload.intensity
    pub budgeted :
        step_budget s.intensity s.hold_seconds workload.call_duration_seconds ≡ ok s.budget
    pub calls_fit : t.calls + s.budget.calls ≤ maxima.total_calls
    pub time_fits :
        t.ramp_duration_seconds + s.budget.duration_seconds + tail ≤ maxima.duration_seconds
    pub media_fits : t.media_packets + s.budget.media_packets ≤ u64_max
    pub seconds_fit : t.call_seconds + s.budget.call_seconds ≤ u64_max

  -- The steps run one after the other from the totals `t`, and add up to the last totals.
  unfoldable pub Fitting : Totals → ℕ → List Step → Totals → Type 0
  Fitting t n [] last = last ≡ t
  Fitting t n (s ∷ ss) last = StepFits t n s × Fitting (add_budget t s.budget) (suc n) ss last

  -- What the loop adds to `steps`: a schedule for a first part of the levels, and for all of them
  -- unless a budget ended it.
  unfoldable pub Expanded : List ℕ → Totals → List Step → Expansion → Type 0
  Expanded ls t steps e =
      (new : List Step) × (skipped : List ℕ) × (e.steps ≡ steps ++ new)
      × (map (λ (s : Step). s.level) new ++ skipped ≡ ls)
      × Fitting t (length steps) new e.totals
      × ((skipped ≡ []) ⊎ (e.reason ≡ "budget_exhausted"))

  Expanded-step :
      (level : ℕ) (ls : List ℕ) (t : Totals) (steps : List Step) (s : Step) (e : Expansion)
      → s.level ≡ level
      → StepFits t (length steps) s
      → Expanded ls (add_budget t s.budget) (steps ++ s ∷ []) e
      → Expanded (level ∷ ls) t steps e
  unfolding Expanded Fitting
  Expanded-step level ls t steps s e same fits (new, skipped, p, q, r, z) = (
    s ∷ new,
    skipped,
    p ∙ append_assoc steps (s ∷ []) new,
    cc (same, q),
    (fits, rw (length-snoc, add-one) at r),
    z,
  )

  Expanded-stop :
      (ls : List ℕ) (t : Totals) (steps : List Step) (reason : String)
      → (ls ≡ []) ⊎ (reason ≡ "budget_exhausted")
      → Expanded ls t steps (record { totals = t; steps = steps; reason = reason })
  unfolding Expanded Fitting
  Expanded-stop ls t steps reason z = ([], ls, sym (append-nil steps), refl, refl, z)

  -- The two tests that end the loop, and the four sums, read back as the bounds.
  step_fits :
      (level : ℕ) (t : Totals) (steps : List Step) (b : Budget) (total : ℕ)
      → step_budget
          (with_level ramp.dimension level workload.intensity)
          maxima.hold_seconds
          workload.call_duration_seconds
        ≡ ok b
      → total ≡ t.ramp_duration_seconds + b.duration_seconds + tail
      → (ltb maxima.total_calls (t.calls + b.calls) || ltb maxima.duration_seconds total) ≡ false
      → t.media_packets + b.media_packets ≤ u64_max
      → t.call_seconds + b.call_seconds ≤ u64_max
      → StepFits t (length steps) (record {
        index = length steps + 1;
        level = level;
        start_at_seconds = t.ramp_duration_seconds;
        hold_seconds = maxima.hold_seconds;
        intensity = with_level ramp.dimension level workload.intensity;
        budget = b;
      })
  step_fits level t steps b total p q go m c = record {
    numbered = refl;
    starts = refl;
    holds = refl;
    ramped = refl;
    budgeted = p;
    calls_fit = ground arith;
    time_fits = ground arith;
    media_fits = m;
    seconds_fit = c;
  }

  pub expand-Expanded :
      (ls : List ℕ) (t : Totals) (steps : List Step) (e : Expansion)
      → expand maxima workload ramp tail ls t steps ≡ ok e
      → Expanded ls t steps e
  unfolding expand
  expand-Expanded [] t steps e h =
      subst (Expanded [] t steps) (ok-injective h)
        (Expanded-stop [] t steps "authorization_ceiling" (inl refl))
  expand-Expanded (level ∷ ls) t steps e h =
      let (b, pb, h1) = >>=-eq-ok (step_budget _ maxima.hold_seconds _) _ h in
      let (h2, _) = checked_add-bind t.calls b.calls _ _ h1 in
      let (h3, _) = checked_add-bind t.ramp_duration_seconds b.duration_seconds _ _ h2 in
      let (h4, _) = checked_add-bind (t.ramp_duration_seconds + b.duration_seconds) tail _ _ h3 in
      elim (Bool-cases (
        ltb maxima.total_calls (t.calls + b.calls)
        || ltb maxima.duration_seconds (t.ramp_duration_seconds + b.duration_seconds + tail))) [
          | inl stop ↦
              subst (Expanded (level ∷ ls) t steps) (ok-injective (rw stop at h4))
                (Expanded-stop (level ∷ ls) t steps "budget_exhausted" (inr refl))
          | inr go ↦
              let (h5, m) = checked_add-bind t.media_packets b.media_packets _ _ (rw go at h4) in
              let (h6, c) = checked_add-bind t.call_seconds b.call_seconds _ _ h5 in
              Expanded-step level ls t steps _ e refl (step_fits level t steps b _ pb refl go m c)
                (expand-Expanded ls (add_budget t b) _ e h6)
        ]
