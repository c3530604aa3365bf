-- ===== src/Resilience/Overload/Fairness.antt =====
-- lib/sippycup_resilience/overload.py, the comparison of the highest and the lowest rate: it speaks
-- for every two clients.
use mathlib.Core.Path.{subst}
use sippycup.Prelude.{
  ℕ, Bool, true, false, List, [], ◌∷◌, ◌≡◌, ◌↔◌, refl, sym, arith, All, Bool-cases, inl, inr,
}
use sippycup.Resilience.Overload.{highest, lowest, is_unfair}

-- What the code relies on of finite floating-point numbers: `<` is a strict order without
-- incomparable rates, a rate does not differ from itself, and a difference does not shrink when the
-- higher rate grows and the lower one falls.
pub record FloatLaws {Float : Type 0} (below : Float → Float → Bool)
    (differs_above : Float → Float → ℕ → Bool) : Type 0 where
  pub asymmetric : (x y : Float) → below x y ≡ true → below y x ≡ false
  pub irreflexive : (x : Float) → below x x ≡ false
  pub transitive : (x y z : Float) → below y x ≡ false → below z y ≡ false → below z x ≡ false
  pub no_difference : (x : Float) (n : ℕ) → differs_above x x n ≡ false
  pub monotone :
      (x y x' y' : Float) (n : ℕ)
      → below x' x ≡ false
      → below y y' ≡ false
      → differs_above x' y' n ≡ false
      → differs_above x y n ≡ false

-- No rate is above another by more than the tolerance.
abbrev pub Fair : {Float : Type 0} → (Float → Float → ℕ → Bool) → ℕ → List Float → Type 0
Fair differs_above tolerance xs = All (λ x. All (λ y. differs_above x y tolerance ≡ false) xs) xs

module _ {Float : Type 0} (below : Float → Float → Bool) where
  highest-All :
      (P : Float → Type 0) (best : Float) (xs : List Float)
      → P best
      → All P xs
      → P (highest below best xs)
  unfolding highest
  highest-All P best [] p h = p
  highest-All P best (x ∷ xs) p (q, h) = elim (Bool-cases (below best x)) [
    | inl above ↦ rw above (highest-All P x xs q h)
    | inr not_above ↦ rw not_above (highest-All P best xs p h)
  ]

  lowest-All :
      (P : Float → Type 0) (best : Float) (xs : List Float)
      → P best
      → All P xs
      → P (lowest below best xs)
  unfolding lowest
  lowest-All P best [] p h = p
  lowest-All P best (x ∷ xs) p (q, h) = elim (Bool-cases (below x best)) [
    | inl under ↦ rw under (lowest-All P x xs q h)
    | inr not_under ↦ rw not_under (lowest-All P best xs p h)
  ]

  highest_end : (best : Float) → highest below best [] ≡ best
  unfolding highest
  highest_end best = refl

  highest_next :
      (best x : Float) (xs : List Float)
      → below best x ≡ true
      → highest below best (x ∷ xs) ≡ highest below x xs
  unfolding highest
  highest_next best x xs h = rw h refl

  highest_same :
      (best x : Float) (xs : List Float)
      → below best x ≡ false
      → highest below best (x ∷ xs) ≡ highest below best xs
  unfolding highest
  highest_same best x xs h = rw h refl

  lowest_end : (best : Float) → lowest below best [] ≡ best
  unfolding lowest
  lowest_end best = refl

  lowest_next :
      (best x : Float) (xs : List Float)
      → below x best ≡ true
      → lowest below best (x ∷ xs) ≡ lowest below x xs
  unfolding lowest
  lowest_next best x xs h = rw h refl

  lowest_same :
      (best x : Float) (xs : List Float)
      → below x best ≡ false
      → lowest below best (x ∷ xs) ≡ lowest below best xs
  unfolding lowest
  lowest_same best x xs h = rw h refl

module _ {Float : Type 0} (below : Float → Float → Bool) (differs_above : Float → Float → ℕ → Bool)
    (laws : FloatLaws below differs_above) where
  highest-above :
      (best : Float) (xs : List Float)
      → All (λ x. below (highest below best xs) x ≡ false) (best ∷ xs)
  highest-above best [] = (rw (highest_end below best) (laws.irreflexive best), tt)
  highest-above best (x ∷ xs) = elim (Bool-cases (below best x)) [
    | inl above ↦
        let (own, rest) = highest-above x xs in
        subst (λ h. All (λ y. below h y ≡ false) (best ∷ x ∷ xs))
          (sym (highest_next below best x xs above))
          (laws.transitive best x _ (laws.asymmetric best x above) own, (own, rest))
    | inr not_above ↦
        let (own, rest) = highest-above best xs in
        subst (λ h. All (λ y. below h y ≡ false) (best ∷ x ∷ xs))
          (sym (highest_same below best x xs not_above))
          (own, (laws.transitive x best _ not_above own, rest))
  ]

  lowest-under :
      (best : Float) (xs : List Float)
      → All (λ x. below x (lowest below best xs) ≡ false) (best ∷ xs)
  lowest-under best [] = (rw (lowest_end below best) (laws.irreflexive best), tt)
  lowest-under best (x ∷ xs) = elim (Bool-cases (below x best)) [
    | inl under ↦
        let (own, rest) = lowest-under x xs in
        subst (λ l. All (λ y. below y l ≡ false) (best ∷ x ∷ xs))
          (sym (lowest_next below best x xs under))
          (laws.transitive _ x best own (laws.asymmetric x best under), (own, rest))
    | inr not_under ↦
        let (own, rest) = lowest-under best xs in
        subst (λ l. All (λ y. below y l ≡ false) (best ∷ x ∷ xs))
          (sym (lowest_same below best x xs not_under))
          (own, (laws.transitive _ best x own not_under, rest))
  ]

  -- The greatest difference bounds the difference of every two rates.
  within_gap :
      (high low x : Float) (tolerance : ℕ) (ys : List Float)
      → differs_above high low tolerance ≡ false
      → below high x ≡ false
      → All (λ y. below y low ≡ false) ys
      → All (λ y. differs_above x y tolerance ≡ false) ys
  within_gap high low x tolerance [] gap above under = tt
  within_gap high low x tolerance (y ∷ ys) gap above (first, under) = (
    laws.monotone x y high low tolerance above first gap,
    within_gap high low x tolerance ys gap above under,
  )

  all_within_gap :
      (high low : Float) (tolerance : ℕ) (xs ys : List Float)
      → differs_above high low tolerance ≡ false
      → All (λ x. below high x ≡ false) xs
      → All (λ y. below y low ≡ false) ys
      → All (λ x. All (λ y. differs_above x y tolerance ≡ false) ys) xs
  all_within_gap high low tolerance [] ys gap above under = tt
  all_within_gap high low tolerance (x ∷ xs) ys gap (first, above) under = (
    within_gap high low x tolerance ys gap first under,
    all_within_gap high low tolerance xs ys gap above under,
  )

  highest-gap :
      (percent : ℕ → ℕ → Float) (tolerance : ℕ) (x : Float) (xs : List Float)
      → is_unfair percent below differs_above tolerance (x ∷ xs) ≡ false
      → differs_above (highest below x xs) (lowest below x xs) tolerance ≡ false
  unfolding is_unfair highest lowest
  highest-gap percent tolerance x [] h = laws.no_difference x tolerance
  highest-gap percent tolerance x (y ∷ xs) h = ground (arith, h)

  Fair-gap :
      (tolerance : ℕ) (x : Float) (xs : List Float)
      → Fair differs_above tolerance (x ∷ xs)
      → differs_above (highest below x xs) (lowest below x xs) tolerance ≡ false
  Fair-gap tolerance x xs (first, rest) =
      let (one, others) =
        highest-All below (λ a. All (λ y. differs_above a y tolerance ≡ false) (x ∷ xs)) x xs first
          rest in
      lowest-All below (λ y. differs_above (highest below x xs) y tolerance ≡ false) x xs one others

  -- The comparison of the highest and the lowest rate finds nothing exactly when no two rates
  -- differ by more than the tolerance.
  pub is_unfair-Fair :
      (percent : ℕ → ℕ → Float) (tolerance : ℕ) (xs : List Float)
      → (is_unfair percent below differs_above tolerance xs ≡ false)
        ↔ Fair differs_above tolerance xs
  unfolding is_unfair
  is_unfair-Fair percent tolerance [] = (λ h. tt, λ h. refl)
  is_unfair-Fair percent tolerance (x ∷ xs) = (
    λ h.
        all_within_gap (highest below x xs) (lowest below x xs) tolerance (x ∷ xs) (x ∷ xs)
          (highest-gap percent tolerance x xs h) (highest-above x xs) (lowest-under x xs),
    λ h. ground (arith, Fair-gap tolerance x xs h),
  )
