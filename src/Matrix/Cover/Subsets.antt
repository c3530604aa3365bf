-- ===== src/Matrix/Cover/Subsets.antt =====
-- lib/sippycup/covering.py, `_requested_subsets`: what holds of the factors holds of the subsets.
use sippycup.Prelude.{
  ℕ, zero, suc, String, Bool, true, false, not, ◌&&◌, arith, all, List, [], ◌∷◌, ◌++◌, map, ◌≡◌,
  str_eq, any, All, All-map, All-append, All-sort_by, if◌then◌else◌, if_keeps,
}
use sippycup.Matrix.Constraint.{Scalar}
use sippycup.Matrix.Satisfiable.{Domain}
use sippycup.Matrix.Satisfiable.Exact.{Distinct}
use sippycup.Matrix.Cover.{
  FactorTuple, Matrix, matrix_factors, combinations, same_names, names_le, add_subsets,
  risk_subsets, requested_subsets,
}
use sippycup.Matrix.Cover.Tuples.{Proper}
use sippycup.Matrix.Cover.Product.{names}

-- The names differ.
unfoldable pub Different : List String → Type 0
Different [] = Unit
Different (f ∷ fs) = All (λ g. str_eq f g ≡ false) fs × Different fs

abbrev pub different : List String → Bool
different [] = true
different (f ∷ fs) = all (λ g. not (str_eq f g)) fs && different fs

pub all-All {ℓ} :
    {A : Type ℓ} (p : A → Bool) (xs : List A) → all p xs ≡ true → All (λ x. p x ≡ true) xs
all-All p [] h = tt
all-All p (x ∷ xs) h = (ground arith, all-All p xs (ground arith))

pub different-Different : (fs : List String) → different fs ≡ true → Different fs
unfolding Different
different-Different [] h = tt
different-Different (f ∷ fs) h = (
  All-map (λ g. not (str_eq f g) ≡ true) (λ g. str_eq f g ≡ false) fs (λ g k. ground arith)
      (all-All (λ g. not (str_eq f g)) fs (ground arith)),
  different-Different fs (ground arith),
)

module _ {κ} (Q : List String → Type κ) where
  add_subsets-keeps :
      (more subsets : List (List String))
      → All Q more
      → All Q subsets
      → All Q (add_subsets more subsets)
  add_subsets-keeps [] subsets h k = k
  add_subsets-keeps (s ∷ more) subsets h k =
      add_subsets-keeps more (if any (same_names s) subsets then subsets else subsets ++ s ∷ []) h.1
        (if_keeps (All Q) (any (same_names s) subsets) k
          (All-append Q subsets (s ∷ []) k (h.0, tt)))

  risk_subsets-keeps :
      (risks : List (List String × ℕ)) (subsets : List (List String))
      → All (λ (r : List String × ℕ). All Q (combinations r.1 r.0)) risks
      → All Q subsets
      → All Q (risk_subsets risks subsets)
  risk_subsets-keeps [] subsets h k = k
  risk_subsets-keeps ((factors, strength) ∷ risks) subsets h k =
      risk_subsets-keeps risks (add_subsets (combinations strength factors) subsets) h.1
        (add_subsets-keeps (combinations strength factors) subsets h.0 k)

  pub requested_subsets-keeps :
      (m : Matrix)
      → All Q (combinations m.strength matrix_factors)
      → All (λ (r : List String × ℕ). All Q (combinations r.1 r.0)) m.risks
      → All Q (requested_subsets m)
  unfolding requested_subsets
  requested_subsets-keeps m h k =
      (All-sort_by names_le Q
          (risk_subsets m.risks (add_subsets (combinations m.strength matrix_factors) []))).1
        (risk_subsets-keeps m.risks _ k
          (add_subsets-keeps (combinations m.strength matrix_factors) [] h tt))

All-cons {κ} :
    (Q : String → Type κ) (x : String) (yss : List (List String))
    → Q x
    → All (All Q) yss
    → All (All Q) (map (λ ys. x ∷ ys) yss)
All-cons Q x [] q h = tt
All-cons Q x (ys ∷ yss) q h = ((q, h.0), All-cons Q x yss q h.1)

pub combinations-All {κ} :
    (Q : String → Type κ) (n : ℕ) (xs : List String) → All Q xs → All (All Q) (combinations n xs)
combinations-All Q zero xs h = (tt, tt)
combinations-All Q (suc n) [] h = tt
combinations-All Q (suc n) (x ∷ xs) h =
    All-append (All Q) (map (λ ys. x ∷ ys) (combinations n xs)) (combinations (suc n) xs)
      (All-cons Q x (combinations n xs) h.0 (combinations-All Q n xs h.1))
      (combinations-All Q (suc n) xs h.1)

Different-cons :
    (x : String) (yss : List (List String))
    → All (All (λ g. str_eq x g ≡ false)) yss
    → All Different yss
    → All Different (map (λ ys. x ∷ ys) yss)
unfolding Different
Different-cons x [] q h = tt
Different-cons x (ys ∷ yss) q h = ((q.0, h.0), Different-cons x yss q.1 h.1)

pub combinations-Different :
    (n : ℕ) (xs : List String) → Different xs → All Different (combinations n xs)
unfolding Different
combinations-Different zero xs h = (tt, tt)
combinations-Different (suc n) [] h = tt
combinations-Different (suc n) (x ∷ xs) h =
    All-append Different (map (λ ys. x ∷ ys) (combinations n xs)) (combinations (suc n) xs)
      (Different-cons x (combinations n xs) (combinations-All (λ g. str_eq x g ≡ false) n xs h.0)
        (combinations-Different n xs h.1))
      (combinations-Different (suc n) xs h.1)

-- The factors of a dictionary of domains.
abbrev pub factor_names : List Domain → List String
factor_names [] = []
factor_names ((f, d) ∷ ds) = f ∷ factor_names ds

apart_domains :
    (f : String) (ds : List Domain)
    → All (λ g. str_eq f g ≡ false) (factor_names ds)
    → All (λ (d : Domain). str_eq f d.0 ≡ false) ds
apart_domains f [] h = tt
apart_domains f ((g, d) ∷ ds) h = (h.0, apart_domains f ds h.1)

pub Different-Distinct : (ds : List Domain) → Different (factor_names ds) → Distinct ds
unfolding Different Distinct
Different-Distinct [] h = tt
Different-Distinct ((f, d) ∷ ds) h = (apart_domains f ds h.0, Different-Distinct ds h.1)

apart_tuple :
    (f : String) (item : FactorTuple)
    → All (λ g. str_eq f g ≡ false) (names item)
    → All (λ (x : String × Scalar). str_eq f x.0 ≡ false) item
apart_tuple f [] h = tt
apart_tuple f ((g, v) ∷ item) h = (h.0, apart_tuple f item h.1)

pub Different-Proper : (item : FactorTuple) → Different (names item) → Proper item
unfolding Different Proper
Different-Proper [] h = tt
Different-Proper ((f, v) ∷ item) h = (apart_tuple f item h.0, Different-Proper item h.1)
