-- ===== src/Prelude/Lists.antt =====
-- Lists measured and indexed by native numbers, under the library's names, and Boolean tests over
-- lists that compute.
use Prim.Native.Nat.{ℕ, zero, suc, ◌+◌, ◌-◌, ◌<◌, min}
use mathlib.Core.Path.{◌≡◌, refl, subst}
use mathlib.Core.Bool.{Bool, true, false, ◌&&◌, ◌||◌}
use mathlib.Core.Option.{Option, none, some, some-injective}
use mathlib.Core.List.{List, [], ◌∷◌, ◌++◌}
use native.Mathlib.Omega.{arith}

module _ {ℓ} {A : Type ℓ} where
  abbrev pub length : List A → ℕ
  length [] = 0
  length (x ∷ xs) = suc (length xs)

  abbrev pub get_elem? : List A → ℕ → Option A
  get_elem? [] i = none
  get_elem? (x ∷ xs) zero = some x
  get_elem? (x ∷ xs) (suc i) = get_elem? xs i

  pub length-append : (xs ys : List A) → length (xs ++ ys) ≡ length xs + length ys
  length-append [] ys = omega arith
  length-append (x ∷ xs) ys = omega (arith, length-append xs ys)

  abbrev pub take : ℕ → List A → List A
  take zero xs = []
  take (suc n) [] = []
  take (suc n) (x ∷ xs) = x ∷ take n xs

  abbrev pub drop : ℕ → List A → List A
  drop zero xs = xs
  drop (suc n) [] = []
  drop (suc n) (x ∷ xs) = drop n xs

  -- Python's `any` and `all` over a generator.
  abbrev pub any : (A → Bool) → List A → Bool
  any p [] = false
  any p (x ∷ xs) = p x || any p xs

  abbrev pub all : (A → Bool) → List A → Bool
  all p [] = true
  all p (x ∷ xs) = p x && all p xs

  -- A property of every element, as nested pairs.
  abbrev pub All {κ} : (A → Type κ) → List A → Type κ
  All P [] = Unit
  All P (x ∷ xs) = P x × All P xs

module _ {ℓ} {A : Type ℓ} where
  pub length-drop : (n : ℕ) (xs : List A) → length (drop n xs) ≡ length xs - n
  length-drop zero xs = omega arith
  length-drop (suc n) [] = omega arith
  length-drop (suc n) (x ∷ xs) = omega (arith, length-drop n xs)

  pub length-take : (n : ℕ) (xs : List A) → length (take n xs) ≡ min n (length xs)
  length-take zero xs = omega arith
  length-take (suc n) [] = omega arith
  length-take (suc n) (x ∷ xs) = omega (arith, length-take n xs)

  pub All-append {κ} : (P : A → Type κ) (xs ys : List A) → All P xs → All P ys → All P (xs ++ ys)
  All-append P [] ys h k = k
  All-append P (x ∷ xs) ys h k = (h.0, All-append P xs ys h.1 k)

  pub All-map {κ υ} :
      (P : A → Type κ) (Q : A → Type υ) (xs : List A) → ((x : A) → P x → Q x) → All P xs → All Q xs
  All-map P Q [] f h = tt
  All-map P Q (x ∷ xs) f h = (f x h.0, All-map P Q xs f h.1)

  pub length-snoc : (xs : List A) (x : A) → length (xs ++ x ∷ []) ≡ length xs + 1
  length-snoc [] x = omega arith
  length-snoc (y ∷ ys) x = omega (arith, length-snoc ys x)

  pub get_elem?-append_head :
      (xs : List A) (y : A) (ys : List A) → get_elem? (xs ++ y ∷ ys) (length xs) ≡ some y
  get_elem?-append_head [] y ys = refl
  get_elem?-append_head (x ∷ xs) y ys = get_elem?-append_head xs y ys

  pub get_elem?-length : (xs : List A) → get_elem? xs (length xs) ≡ none
  get_elem?-length [] = refl
  get_elem?-length (x ∷ xs) = get_elem?-length xs

  pub get_elem?-lt : (xs : List A) (i : ℕ) {a : A} → get_elem? xs i ≡ some a → i < length xs
  get_elem?-lt [] i h = cc
  get_elem?-lt (x ∷ xs) zero h = omega arith
  get_elem?-lt (x ∷ xs) (suc i) h = omega (arith, get_elem?-lt xs i h)

  pub All-get_elem {κ} :
      (P : A → Type κ) (xs : List A) (i : ℕ) {a : A} → All P xs → get_elem? xs i ≡ some a → P a
  All-get_elem P [] i h e = cc
  All-get_elem P (x ∷ xs) zero h e = subst P (some-injective _ _ e) h.0
  All-get_elem P (x ∷ xs) (suc i) h e = All-get_elem P xs i h.1 e

  pub without_one-known :
      (p : A → Bool) (i : ℕ) (xs : List A)
      → all p xs ≡ true
      → all p (take i xs ++ drop (suc i) xs) ≡ true
  without_one-known p zero [] h = refl
  without_one-known p (suc i) [] h = refl
  without_one-known p zero (x ∷ xs) h = ground arith
  without_one-known p (suc i) (x ∷ xs) h = ground (arith, without_one-known p i xs)

  pub length-without_one :
      (i : ℕ) (xs : List A) → i < length xs → length (take i xs ++ drop (suc i) xs) + 1 ≡ length xs
  length-without_one i [] h = absurd (omega arith)
  length-without_one zero (x ∷ xs) h = omega arith
  length-without_one (suc i) (x ∷ xs) h = omega (arith, length-without_one i xs)

  -- Leaving out a later element as well leaves out no more of the rest.
  pub all-without_two :
      (p : A → Bool) (i j : ℕ) (xs : List A)
      → i < j
      → all p (take i xs ++ drop (suc i) xs) ≡ true
      → all p (take i (take j xs ++ drop (suc j) xs) ++ drop (suc i) (take j xs ++ drop (suc j) xs))
        ≡ true
  all-without_two p i zero xs l h = absurd (omega arith)
  all-without_two p zero (suc j) [] l h = refl
  all-without_two p (suc i) (suc j) [] l h = refl
  all-without_two p zero (suc j) (x ∷ xs) l h = without_one-known p j xs h
  all-without_two p (suc i) (suc j) (x ∷ xs) l h =
      ground (arith, all-without_two p i j xs (omega arith))
