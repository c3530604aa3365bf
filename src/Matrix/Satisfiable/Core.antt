-- ===== src/Matrix/Satisfiable/Core.antt =====
-- lib/sippycup/campaign.py, `_minimal_unsat_core`: no constraint of the core can be left out.
use mathlib.Core.Path.{subst}
use sippycup.Prelude.{
  ℕ, zero, suc, ◌+◌, ◌<◌, ◌≤◌, Bool, true, List, ok, ◌>>=◌, ◌≡◌, arith, ltb, length, all,
  without_one-known, length-without_one, all-without_two, Bool-cases, inl, inr, bind-elim,
  ok-injective,
}
use sippycup.Matrix.Constraint.{Constraint, constraint_allows}
use sippycup.Matrix.Satisfiable.{
  Domain, matrix_satisfiable, without, shrink_core, minimal_unsat_core,
}
use sippycup.Matrix.Satisfiable.Exact.{Distinct, Satisfiable, matrix_satisfiable_iff}

module _ (domains : List Domain) where
  -- Without any one of the constraints before the index, the others are satisfiable.
  abbrev pub Needed : ℕ → List Constraint → Type 0
  Needed n core = (i : ℕ) → i < n → Satisfiable domains (without i core)

  -- Needed constraints stay needed when a later one is left out.
  Needed-without : (n : ℕ) (core : List Constraint) → Needed n core → Needed n (without n core)
  unfolding Satisfiable
  Needed-without n core h i l =
      let (b, t, k) = h i l in (b, t, all-without_two (λ c. constraint_allows c b) i n core l k)

  Needed-suc :
      (n : ℕ) (core : List Constraint)
      → Needed n core
      → Satisfiable domains (without n core)
      → Needed (n + 1) core
  Needed-suc n core h s i l = elim (Bool-cases (ltb i n)) [
    | inl e ↦ h i (ground arith)
    | inr e ↦
        let last : n ≡ i = ground arith in subst (λ j. Satisfiable domains (without j core)) last s
  ]

  -- A core that is not satisfiable, and is minimal.
  pub record IsMinimal (cs core : List Constraint) : Type 0 where
    pub unsatisfiable : Satisfiable domains core → ⊥
    pub needed : Needed (length core) core
    pub kept : (p : Constraint → Bool) → all p cs ≡ true → all p core ≡ true

  done :
      (i : ℕ) (cs core result : List Constraint)
      → i ≡ length core
      → (Satisfiable domains core → ⊥)
      → Needed i core
      → ((p : Constraint → Bool) → all p cs ≡ true → all p core ≡ true)
      → core ≡ result
      → IsMinimal cs result
  done i cs core result whole u needed kept same =
      subst (IsMinimal cs) same
        (record { unsatisfiable = u; needed = λ j l. needed j (omega arith); kept = kept })

  shrink_core-IsMinimal :
      (n i : ℕ) (cs core result : List Constraint)
      → Distinct domains
      → length core ≤ i + n
      → i ≤ length core
      → (Satisfiable domains core → ⊥)
      → Needed i core
      → ((p : Constraint → Bool) → all p cs ≡ true → all p core ≡ true)
      → shrink_core domains n i core ≡ ok result
      → IsMinimal cs result
  unfolding shrink_core
  shrink_core-IsMinimal zero i cs core result d enough within u needed kept h =
      elim (Bool-cases (ltb i (length core))) [
        | inl more ↦ absurd (ground arith)
        | inr past ↦
            done i cs core result (ground arith) u needed kept
              (ok-injective (rw (past, shrink_core) at h))
      ]
  shrink_core-IsMinimal (suc n) i cs core result d enough within u needed kept h =
      elim (Bool-cases (ltb i (length core))) [
        | inr past ↦
            done i cs core result (ground arith) u needed kept
              (ok-injective (rw (past, shrink_core) at h))
        | inl more ↦
            let below : i < length core = ground arith in
            let fewer = length-without_one i core below in
            bind-elim (matrix_satisfiable domains (without i core)) _
              (rw (more, shrink_core, ◌>>=◌) at h)
              (λ r p h1.
                let verdict = matrix_satisfiable_iff domains (without i core) r d p in
                elim (Bool-cases r) [
                  | inl yes_satisfiable ↦
                      shrink_core-IsMinimal n (i + 1) cs core result d (omega arith) (omega arith) u
                        (Needed-suc i core needed (verdict.0 yes_satisfiable)) kept
                        (rw yes_satisfiable at h1)
                  | inr refused ↦
                      shrink_core-IsMinimal n i cs (without i core) result d (omega arith)
                        (omega arith) (λ s. cc (verdict.1 s, refused))
                        (Needed-without i core needed)
                        (λ q k. without_one-known q i core (kept q k)) (rw refused at h1)
                ])
      ]

  -- From constraints that no assignment meets, the core that is returned is of these constraints,
  -- still cannot be met, and each of its constraints is needed for that.
  pub minimal_unsat_core-IsMinimal :
      (cs core : List Constraint)
      → Distinct domains
      → (Satisfiable domains cs → ⊥)
      → minimal_unsat_core domains cs ≡ ok core
      → IsMinimal cs core
  unfolding minimal_unsat_core
  minimal_unsat_core-IsMinimal cs core d u h =
      shrink_core-IsMinimal (length cs) 0 cs cs core d (omega arith) (omega arith) u
        (λ i l. absurd (omega arith)) (λ p k. k) h
