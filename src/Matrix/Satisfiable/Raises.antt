-- ===== src/Matrix/Satisfiable/Raises.antt =====
-- lib/sippycup/campaign.py: what `_matrix_satisfiable` and `_minimal_unsat_core` raise.
use sippycup.Prelude.{
  Ends, Only-Ends, ℕ, zero, suc, ◌+◌, ◌≤◌, ◌<◌, Bool, List, [], ◌∷◌, Result, ◌>>=◌, guard, ◌≡◌,
  refl, arith, leb, ltb, length, length-without_one, sort_by, put, Bool-cases, inl, inr, Only,
  guard-Only, bind-Only,
}
use sippycup.Matrix.Constraint.{Scalar, Assignment, Constraint}
use sippycup.Matrix.Satisfiable.{
  ManifestError, too_many_states, max_sat_states, Domain, domain_before, all_allow, try_values,
  search_states, matrix_satisfiable, without, shrink_core, minimal_unsat_core,
}

-- Nothing is raised but that the search has too many states.
abbrev pub GivesUp {ℓ} : {A : Type ℓ} → Result ManifestError A → Type ℓ
GivesUp = Only (λ e. e ≡ too_many_states)

module _ (cs : List Constraint) where
  try_values-GivesUp :
      (f : Scalar → ℕ → Result ManifestError (Bool × ℕ)) (vs : List Scalar) (n : ℕ)
      → ((v : Scalar) (m : ℕ) → GivesUp (f v m))
      → GivesUp (try_values f vs n)
  unfolding try_values
  try_values-GivesUp f [] n each = λ e h. cc h
  try_values-GivesUp f (v ∷ vs) n each = bind-Only (f v n) _ (each v n) (λ found.
      elim (Bool-cases found.0) [
        | inl yes_found ↦ λ e h. cc (rw yes_found at h)
        | inr no_found ↦ rw no_found (try_values-GivesUp f vs found.1 each)
      ])

  search_states-GivesUp :
      (ds : List Domain) (a : Assignment) (n : ℕ) → GivesUp (search_states cs ds a n)
  unfolding search_states
  search_states-GivesUp [] a n =
      bind-Only (guard (leb (n + 1) max_sat_states) too_many_states) _
        (guard-Only _ _ too_many_states refl) (λ u e h. cc h)
  search_states-GivesUp ((factor, domain) ∷ rest) a n =
      bind-Only (guard (leb (n + 1) max_sat_states) too_many_states) _
        (guard-Only _ _ too_many_states refl)
        (λ u. elim (Bool-cases (all_allow cs a)) [
          | inr refused ↦ λ e h. cc (rw refused at h)
          | inl allowed ↦ rw allowed (
              try_values-GivesUp _ domain (n + 1)
                (λ v m. search_states-GivesUp rest (put factor v a) m))
        ])

  pub matrix_satisfiable-GivesUp : (domains : List Domain) → GivesUp (matrix_satisfiable domains cs)
  unfolding matrix_satisfiable
  matrix_satisfiable-GivesUp domains =
      bind-Only (search_states cs (sort_by domain_before domains) [] 0) _
        (search_states-GivesUp (sort_by domain_before domains) [] 0) (λ found e h. cc h)

module _ (domains : List Domain) where
  shrink_core-GivesUp :
      (n i : ℕ) (core : List Constraint)
      → length core ≤ i + n
      → GivesUp (shrink_core domains n i core)
  unfolding shrink_core
  shrink_core-GivesUp zero i core enough = λ e h. ground arith
  shrink_core-GivesUp (suc n) i core enough = elim (Bool-cases (ltb i (length core))) [
    | inr past ↦ rw (past, shrink_core) (λ e h. cc h)
    | inl more ↦
        let below : i < length core = ground arith in
        let fewer = length-without_one i core below in
        rw (more, shrink_core, ◌>>=◌)
          (bind-Only (matrix_satisfiable domains (without i core)) _
            (matrix_satisfiable-GivesUp (without i core) domains)
            (λ r. elim (Bool-cases r) [
              | inl s ↦ rw s (shrink_core-GivesUp n (i + 1) core (omega arith))
              | inr s ↦ rw s (shrink_core-GivesUp n i (without i core) (omega arith))
            ]))
  ]

  -- The search for a minimal core returns one, or raises that a search has too many states.
  pub minimal_unsat_core-Ends :
      (cs : List Constraint) → Ends (λ e. e ≡ too_many_states) (minimal_unsat_core domains cs)
  unfolding minimal_unsat_core
  minimal_unsat_core-Ends cs =
      Only-Ends (shrink_core domains (length cs) 0 cs)
        (shrink_core-GivesUp (length cs) 0 cs (omega arith))
