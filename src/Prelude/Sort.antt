-- ===== src/Prelude/Sort.antt =====
-- `sorted(xs, key=…)`, stable, by insertion: `before x y` is `key(x) <= key(y)`.
use mathlib.Core.Logic.{◌↔◌}
use mathlib.Core.Bool.{Bool}
use mathlib.Core.List.{List, [], ◌∷◌}
use mathlib.Core.Path.{◌≡◌, refl}
use native.Mathlib.Omega.{arith}
use sippycup.Prelude.Tests.{if◌then◌else◌, Bool-cases}
use mathlib.Core.Logic.{inl, inr}
use sippycup.Prelude.Lists.{All, any}

module _ {ℓ} {A : Type ℓ} (before : A → A → Bool) where
  unfoldable pub insert_sorted : A → List A → List A
  insert_sorted x [] = x ∷ []
  insert_sorted x (y ∷ ys) = if before x y then x ∷ y ∷ ys else y ∷ insert_sorted x ys

  unfoldable pub sort_by : List A → List A
  sort_by [] = []
  sort_by (x ∷ xs) = insert_sorted x (sort_by xs)

  pub All-insert_sorted {κ} :
      (P : A → Type κ) (x : A) (xs : List A) → All P (insert_sorted x xs) ↔ (P x × All P xs)
  unfolding insert_sorted
  All-insert_sorted P x [] = (λ h. h, λ h. h)
  All-insert_sorted P x (y ∷ ys) = elim (Bool-cases (before x y)) [
    | inl e ↦ rw e (λ h. (h.0, h.1), λ h. (h.0, h.1))
    | inr e ↦
        let (f, g) = All-insert_sorted P x ys in
        rw e (λ h. ((f h.1).0, (h.0, (f h.1).1)), λ h. (h.1.0, g (h.0, h.1.1)))
  ]

  -- Sorting keeps the elements.
  pub All-sort_by {κ} : (P : A → Type κ) (xs : List A) → All P (sort_by xs) ↔ All P xs
  unfolding sort_by
  All-sort_by P [] = (λ h. h, λ h. h)
  All-sort_by P (x ∷ xs) =
      let (f, g) = All-insert_sorted P x (sort_by xs) in
      let (f', g') = All-sort_by P xs in (λ h. ((f h).0, f' (f h).1), λ h. g (h.0, g' h.1))

  any-insert_sorted :
      (p : A → Bool) (x : A) (xs : List A) → any p (insert_sorted x xs) ≡ any p (x ∷ xs)
  unfolding insert_sorted
  any-insert_sorted p x [] = refl
  any-insert_sorted p x (y ∷ ys) = ground (arith, any-insert_sorted p x ys)

  pub any-sort_by : (p : A → Bool) (xs : List A) → any p (sort_by xs) ≡ any p xs
  unfolding sort_by
  any-sort_by p [] = refl
  any-sort_by p (x ∷ xs) = ground (arith, any-insert_sorted p x (sort_by xs), any-sort_by p xs)
