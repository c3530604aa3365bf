-- ===== src/Envelope/Simulate/Total.antt =====
-- lib/sippycup/envelope.py, `simulate_envelope_plan` under any operator commands: the loop ends,
-- and what it consumes stays within the authorization.
use sippycup.Prelude.{
  ℕ, zero, suc, ◌+◌, ◌-◌, ◌≤◌, ◌<◌, Bool, true, List, [], ◌∷◌, Option, none, some, Result, ok, err,
  ◌≡◌, ◌⊎◌, inl, inr, refl, ap, ◌∙◌, arith, length, get_elem?, get_elem?-lt, All-get_elem,
  Result-cases, Bool-cases, Option-cases, All, leb,
}
use sippycup.Envelope.Arithmetic.{checked_add, EnvelopeError}
use sippycup.Envelope.Compile.{
  Maxima, Workload, Ramp, Totals, Step, Plan, at_dimension, no_totals, compile_normalized,
}
use sippycup.Envelope.Compile.Schedule.{Fitting, add_budget, step_budget-duration}
use sippycup.Envelope.Compile.Plans.{tail, compile_normalized-IsScheduled}
use sippycup.Envelope.Simulate.{
  Group, Controller, Control, Command, State, running, is_final, is_running, advance, control,
  drive, simulate, round, opening, check_order, group_from,
}

-- A ramp event is only due while the controller runs.
abbrev pub ready : Option ℕ → State → Bool
ready none state = true
ready (some start) state = is_running state

-- What a command group leaves alone.
control-ok :
    (now : ℕ) (commands : List Command) (c : Controller) {c' : Controller}
    → control now commands c ≡ ok c'
    → ((ready c'.next_start c'.state ≡ true) ⊎ (is_final c'.state ≡ true))
      × (c'.groups ≡ c.groups)
      × (c'.next_step ≡ c.next_step)
      × (c'.consumed ≡ c.consumed)
unfolding control
control-ok now commands c h = ground arith

module _ (plan : Plan) where
  advance-none :
      (now : ℕ) (c : Controller) {c' : Controller}
      → advance plan now none c ≡ ok c'
      → (is_final c'.state ≡ true) × (c'.consumed ≡ c.consumed)
  unfolding advance
  advance-none now c h = ground arith

  advance-some :
      (now : ℕ) (s : Step) (c : Controller) {c' : Controller}
      → advance plan now (some s) c ≡ ok c'
      → c.state ≡ running
      → s.budget.duration_seconds ≡ s.hold_seconds
      → ((is_final c'.state ≡ true) × (c'.consumed ≡ c.consumed))
        ⊎ ((c'.state ≡ running)
            × (ready c'.next_start c'.state ≡ true)
            × (c'.groups ≡ c.groups)
            × (c'.next_step ≡ c.next_step + 1)
            × (c'.consumed.calls ≤ plan.maxima.total_calls)
            × (c'.consumed.ramp_duration_seconds + tail plan.maxima ≤ plan.maxima.duration_seconds))
  unfolding advance checked_add
  advance-some now s c h r d = ground arith

  -- What is left to do.
  abbrev measure : Controller → ℕ
  measure c = length c.groups + (length plan.steps - c.next_step)

  -- The consumption stays within the authorization, with the cooldown and the recovery.
  pub record Within (consumed : Totals) : Type 0 where
    pub calls_within : consumed.calls ≤ plan.maxima.total_calls
    pub time_within :
        consumed.ramp_duration_seconds + tail plan.maxima ≤ plan.maxima.duration_seconds

  -- How a run may end: with an error, or within the authorization.
  abbrev pub Safe : Result EnvelopeError Controller → Type 0
  Safe (ok c) = Within c.consumed
  Safe (err e) = Unit

  abbrev Next : Controller → Controller → Type 0
  Next c c' =
      ((is_final c'.state ≡ true)
        ⊎ ((ready c'.next_start c'.state ≡ true) × (measure c' < measure c)))
      × Within c'.consumed

  module _ (held : All (λ (s : Step). s.budget.duration_seconds ≡ s.hold_seconds) plan.steps) where
    advance-Next :
        (now : ℕ) (c : Controller) {c' : Controller}
        → advance plan now (get_elem? plan.steps c.next_step) c ≡ ok c'
        → c.state ≡ running
        → Within c.consumed
        → Next c c'
    advance-Next now c h r w = elim (Option-cases (get_elem? plan.steps c.next_step)) [
      | inl none_left ↦ ground (arith, advance-none now c (rw none_left at h))
      | inr (s, e) ↦ ground (
        arith,
        advance-some now s c (rw e at h) r (All-get_elem _ plan.steps c.next_step held e),
        get_elem?-lt plan.steps c.next_step e,
      )
    ]

    control-Next :
        (g : Group) (gs : List Group) (c : Controller) {c' : Controller}
        → c.groups ≡ g ∷ gs
        → control g.time g.commands (record c { groups = gs }) ≡ ok c'
        → Within c.consumed
        → Next c c'
    control-Next g gs c q h w =
        ground (arith, control-ok g.time g.commands (record c { groups = gs }) h)

    -- What one round can do: break, raise, or go on.
    Round : List Group → Option ℕ → Controller → Type 0
    Round gs o c =
        (round plan gs o c ≡ none)
        ⊎ (((e : EnvelopeError) × (round plan gs o c ≡ some (err e)))
            ⊎ ((c' : Controller) × (round plan gs o c ≡ some (ok c')) × Next c c'))

    module _ (c : Controller) (w : Within c.consumed) where
      round-advance :
          (gs : List Group) (start : ℕ)
          → c.state ≡ running
          → round plan gs (some start) c
            ≡ some (advance plan start (get_elem? plan.steps c.next_step) c)
          → Round gs (some start) c
      unfolding Round
      round-advance gs start r e =
          elim (Result-cases (advance plan start (get_elem? plan.steps c.next_step) c)) [
            | inl (x, p) ↦ inr (inl (x, e ∙ ap some p))
            | inr (c', p) ↦ inr (inr (c', e ∙ ap some p, advance-Next start c p r w))
          ]

      round-control :
          (g : Group) (gs : List Group) (o : Option ℕ)
          → c.groups ≡ g ∷ gs
          → round plan (g ∷ gs) o c ≡ some (control g.time g.commands (record c { groups = gs }))
          → Round (g ∷ gs) o c
      unfolding Round
      round-control g gs o q e =
          elim (Result-cases (control g.time g.commands (record c { groups = gs }))) [
            | inl (x, p) ↦ inr (inl (x, e ∙ ap some p))
            | inr (c', p) ↦ inr (inr (c', e ∙ ap some p, control-Next g gs c q p w))
          ]

      Round-cases :
          (gs : List Group) (o : Option ℕ) → c.groups ≡ gs → ready o c.state ≡ true → Round gs o c
      unfolding round
      Round-cases [] none q r = unfold Round in inl refl
      Round-cases [] (some start) q r = round-advance [] start (ground arith) (rw r refl)
      Round-cases (g ∷ gs) none q r = round-control g gs none q refl
      Round-cases (g ∷ gs) (some start) q r = elim (Bool-cases (leb g.time start)) [
        | inl due ↦ round-control g gs (some start) q (rw due refl)
        | inr later ↦ round-advance (g ∷ gs) start (ground arith) (rw (later, r) refl)
      ]

    -- There is fuel for what is left to do.
    abbrev Fuelled : ℕ → Controller → Type 0
    Fuelled fuel c =
        ((is_final c.state ≡ true) × (1 ≤ fuel))
        ⊎ ((ready c.next_start c.state ≡ true) × (measure c + 2 ≤ fuel))

    drive-Safe :
        (fuel : ℕ) (c : Controller)
        → Fuelled fuel c
        → Within c.consumed
        → (r : Result EnvelopeError Controller) × (drive plan fuel c ≡ some r) × Safe r
    unfolding drive Round
    drive-Safe zero c f w = absurd (omega arith)
    drive-Safe (suc fuel) c f w = elim (Bool-cases (is_final c.state)) [
      | inl final ↦ (ok c, rw (final, drive) refl, w)
      | inr live ↦ elim (Round-cases c w c.groups c.next_start refl (ground arith)) [
        | inl stops ↦ (ok c, rw (live, stops, drive) refl, w)
        | inr (inl (e, raises)) ↦ (err e, rw (live, raises, drive) refl, tt)
        | inr (inr (c', goes, next)) ↦
            let (r, p, safe) = drive-Safe fuel c' (ground arith) next.1 in
            (r, rw (live, goes, drive) p, safe)
      ]
    ]

  Fitting-held :
      (workload : Workload) (ramp : Ramp) (k : ℕ) (t : Totals) (n : ℕ) (ss : List Step)
      (last : Totals)
      → Fitting plan.maxima workload ramp k t n ss last
      → All (λ (s : Step). s.budget.duration_seconds ≡ s.hold_seconds) ss
  unfolding Fitting
  Fitting-held workload ramp k t n [] last f = tt
  Fitting-held workload ramp k t n (s ∷ ss) last (f, fs) = (
    step_budget-duration s.intensity s.hold_seconds workload.call_duration_seconds f.budgeted,
    Fitting-held workload ramp k (add_budget t s.budget) (suc n) ss last fs,
  )

-- On a compiled plan the controller ends within the fuel whatever the operator commands are, with
-- an error or with a consumption within the authorized calls and duration.
pub simulate-Safe :
    (maxima : Maxima) (workload : Workload) (ramp : Ramp) (plan : Plan) (controls : List Control)
    → ramp.start ≤ at_dimension ramp.dimension maxima.intensity
    → 0 < ramp.step
    → compile_normalized maxima workload ramp ≡ ok plan
    → (r : Result EnvelopeError Controller) × (simulate plan controls ≡ some r) × Safe plan r
unfolding simulate
simulate-Safe maxima workload ramp plan controls fits pos h =
    let v = compile_normalized-IsScheduled maxima workload ramp fits pos h in
    elim (Result-cases (check_order 0 controls)) [
      | inl (e, refused) ↦ (err e, rw (refused, simulate) refl, tt)
      | inr (u, ordered) ↦
          let groups = group_from [] controls in
          let (r, p, safe) =
            drive-Safe plan
              (Fitting-held plan workload ramp (tail maxima) no_totals 0 plan.steps plan.totals
                (rw v.authorized v.scheduled))
              (length groups + length plan.steps + 2) (opening plan groups)
              (inr (refl, omega arith))
              (rw v.authorized (record {
                calls_within = omega arith;
                time_within = omega (arith, v.time_adds, v.time_within);
              })) in
          (r, rw (ordered, simulate) p, safe)
    ]
