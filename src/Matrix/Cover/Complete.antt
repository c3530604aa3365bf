-- ===== src/Matrix/Cover/Complete.antt =====
-- lib/sippycup/covering.py, `_complete_assignment`: it finds a completion exactly if there is one,
-- whatever the seed, the namespace and the uncovered tuples are.
use mathlib.Core.Path.{subst}
use mathlib.Core.Option.{some-injective}
use sippycup.Prelude.{
  ℕ, String, Bool, true, false, List, [], ◌∷◌, Option, none, some, ◌≡◌, refl, sym, ◌∙◌, arith,
  str_eq, eq_iff, All, All-sort_by, any-sort_by, sort_by, get, put, get-put, Bool-cases,
  Option-cases, inl, inr,
}
use sippycup.Matrix.Constraint.{Scalar, same_scalar, Assignment, is_one_of, Constraint}
use sippycup.Matrix.Constraint.Monotone.{Extends, allowed-Extends}
use sippycup.Matrix.Satisfiable.{Domain, domain_before, all_allow}
use sippycup.Matrix.Satisfiable.Exact.{
  same_scalar-eq, same_scalar_refl, Chooses, Completion, Distinct, Distinct-sort_by, Fresh,
  Fresh-put, Extends-put, Extends-unput,
}
use sippycup.Matrix.Cover.{
  FactorTuple, filter, is_unassigned, try_candidates, candidate_before, search_completion,
  complete_assignment,
}

try_candidates-some :
    (f : Scalar → Option Assignment) (vs : List Scalar) (b : Assignment)
    → try_candidates f vs ≡ some b
    → (v : Scalar) × (is_one_of vs v ≡ true) × (f v ≡ some b)
unfolding try_candidates
try_candidates-some f [] b h = cc h
try_candidates-some f (v ∷ vs) b h = elim (Option-cases (f v)) [
  | inl failed ↦
      let (w, one, p) = try_candidates-some f vs b (rw (failed, try_candidates) at h) in
      (w, ground arith, p)
  | inr (done, p) ↦ (v, rw same_scalar_refl refl, p ∙ (rw (p, try_candidates) at h))
]

try_candidates-none :
    (f : Scalar → Option Assignment) (vs : List Scalar) (v : Scalar)
    → try_candidates f vs ≡ none
    → is_one_of vs v ≡ true
    → f v ≡ none
unfolding try_candidates
try_candidates-none f [] v h one = cc
try_candidates-none f (w ∷ vs) v h one = elim (Option-cases (f w)) [
  | inr (done, p) ↦ cc (rw (p, try_candidates) at h)
  | inl failed ↦ elim (Bool-cases (same_scalar w v)) [
    | inl same ↦ subst (λ u. f u ≡ none) (same_scalar-eq w v same) failed
    | inr other ↦ try_candidates-none f vs v (rw (failed, try_candidates) at h) (ground arith)
  ]
]

pub All-filter {ℓ κ} :
    {A : Type ℓ} (P : A → Type κ) (p : A → Bool) (xs : List A) → All P xs → All P (filter p xs)
All-filter P p [] h = tt
All-filter P p (x ∷ xs) h = elim (Bool-cases (p x)) [
  | inl e ↦ rw e ((h.0, All-filter P p xs h.1))
  | inr e ↦ rw e (All-filter P p xs h.1)
]

Distinct-filter : (p : Domain → Bool) (ds : List Domain) → Distinct ds → Distinct (filter p ds)
unfolding Distinct
Distinct-filter p [] h = tt
Distinct-filter p (d ∷ ds) h = elim (Bool-cases (p d)) [
  | inl e ↦
      rw e
        ((All-filter (λ (o : Domain). str_eq d.0 o.0 ≡ false) p ds h.0, Distinct-filter p ds h.1))
  | inr e ↦ rw e (Distinct-filter p ds h.1)
]

Fresh-filter : (a : Assignment) (ds : List Domain) → Fresh a (filter (is_unassigned a) ds)
unfolding is_unassigned
Fresh-filter a [] = tt
Fresh-filter a (d ∷ ds) = elim (Option-cases (get d.0 a)) [
  | inl free ↦ rw (free, is_unassigned) ((free, Fresh-filter a ds))
  | inr (v, chosen) ↦ rw (chosen, is_unassigned) (Fresh-filter a ds)
]

-- A factor of the assignment has a value of its domain.
abbrev pub Consistent : Assignment → List Domain → Type 0
Consistent a ds =
    All (λ (d : Domain). (v : Scalar) → get d.0 a ≡ some v → is_one_of d.1 v ≡ true) ds

Chooses-filter :
    (a b : Assignment) (ds : List Domain)
    → Extends b a
    → Consistent a ds
    → All (Chooses b) (filter (is_unassigned a) ds)
    → All (Chooses b) ds
unfolding is_unassigned
Chooses-filter a b [] e c h = tt
Chooses-filter a b (d ∷ ds) e c h = elim (Option-cases (get d.0 a)) [
  | inl free ↦
      let chosen : Chooses b d × All (Chooses b) (filter (is_unassigned a) ds) =
        rw (free, is_unassigned) at h in
      (chosen.0, Chooses-filter a b ds e c.1 chosen.1)
  | inr (v, known) ↦ (
    (v, e d.0 v known, c.0 v known),
    Chooses-filter a b ds e c.1 (rw (known, is_unassigned) at h),
  )
]

module _ (stable_key : ℕ → String → Scalar → String) (seed : ℕ) (namespace : String)
    (uncovered : List FactorTuple) (cs : List Constraint) where
  search_completion-none :
      (ds : List Domain) (a b : Assignment)
      → search_completion stable_key seed namespace uncovered cs ds a ≡ none
      → Extends b a
      → All (Chooses b) ds
      → all_allow cs b ≡ true
      → ⊥
  unfolding search_completion
  search_completion-none [] a b h e t k =
      cc (rw (allowed-Extends cs a b e k, search_completion) at h)
  search_completion-none ((factor, domain) ∷ rest) a b h e ((v, chosen, one), t) k =
      let order = candidate_before stable_key seed namespace uncovered factor a in
      search_completion-none rest (put factor v a) b
        (try_candidates-none
          (λ w. search_completion stable_key seed namespace uncovered cs rest (put factor w a))
          (sort_by order domain) v (rw (allowed-Extends cs a b e k, search_completion) at h)
          (any-sort_by order (λ w. same_scalar w v) domain ∙ one))
        (Extends-put b a factor v e chosen) t k

  search_completion-some :
      (ds : List Domain) (a b : Assignment)
      → search_completion stable_key seed namespace uncovered cs ds a ≡ some b
      → Fresh a ds
      → Distinct ds
      → Completion cs ds a b
  unfolding search_completion Distinct
  search_completion-some [] a b h f d = elim (Bool-cases (all_allow cs a)) [
    | inr refused ↦ cc (rw (refused, search_completion) at h)
    | inl allowed ↦
        subst (Completion cs [] a) (some-injective _ _ (rw (allowed, search_completion) at h))
          ((λ g w k. k), tt, allowed)
  ]
  search_completion-some ((factor, domain) ∷ rest) a b h f d = elim (Bool-cases (all_allow cs a)) [
    | inr refused ↦ cc (rw (refused, search_completion) at h)
    | inl allowed ↦
        let order = candidate_before stable_key seed namespace uncovered factor a in
        let (v, one, p) =
          try_candidates-some
            (λ w. search_completion stable_key seed namespace uncovered cs rest (put factor w a))
            (sort_by order domain) b (rw (allowed, search_completion) at h) in
        let (e, t, k) =
          search_completion-some rest (put factor v a) b p (Fresh-put a factor v rest d.0 f.1)
            d.1 in
        let chosen : get factor b ≡ some v =
          e factor v (get-put factor factor v a ∙ rw ((eq_iff factor factor).1 refl) refl) in
        (
          Extends-unput b a factor v f.0 e,
          ((v, chosen, sym (any-sort_by order (λ w. same_scalar w v) domain) ∙ one), t),
          k,
        )
  ]

  -- What is returned extends what is fixed, chooses a value for every factor, and is allowed.
  pub complete_assignment-some :
      (domains : List Domain) (fixed b : Assignment)
      → Distinct domains
      → Consistent fixed domains
      → complete_assignment stable_key seed namespace uncovered domains cs fixed ≡ some b
      → Completion cs domains fixed b
  unfolding complete_assignment
  complete_assignment-some domains fixed b d c h =
      let free = filter (is_unassigned fixed) domains in
      elim (Bool-cases (all_allow cs fixed)) [
        | inr refused ↦ cc (rw refused at h)
        | inl allowed ↦
            let (e, t, k) =
              search_completion-some (sort_by domain_before free) fixed b (rw allowed at h)
                ((All-sort_by domain_before (λ (o : Domain). get o.0 fixed ≡ none) free).1
                  (Fresh-filter fixed domains))
                (Distinct-sort_by free (Distinct-filter (is_unassigned fixed) domains d)) in
            (
              e,
              Chooses-filter fixed b domains e c ((All-sort_by domain_before (Chooses b) free).0 t),
              k,
            )
      ]

  -- If nothing is returned, no assignment that is allowed extends what is fixed.
  pub complete_assignment-none :
      (domains : List Domain) (fixed b : Assignment)
      → complete_assignment stable_key seed namespace uncovered domains cs fixed ≡ none
      → Completion cs domains fixed b
      → ⊥
  unfolding complete_assignment
  complete_assignment-none domains fixed b h (e, t, k) =
      let free = filter (is_unassigned fixed) domains in
      search_completion-none (sort_by domain_before free) fixed b
        (rw (allowed-Extends cs fixed b e k) at h) e
        ((All-sort_by domain_before (Chooses b) free).1
          (All-filter (Chooses b) (is_unassigned fixed) domains t))
        k
