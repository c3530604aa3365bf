-- ===== src/Matrix/Cover/Product.antt =====
-- lib/sippycup/covering.py: the product of the domains of a subset has exactly the tuples that an
-- assignment gives the factors of the subset.
use mathlib.Core.Path.{subst}
use sippycup.Prelude.{
  String, Bool, true, ◌||◌, List, [], ◌∷◌, map, some, ok, bind-elim, ok-injective, ◌≡◌, refl, sym,
  ap, ◌∙◌, arith, eq_iff, All, All-append, get, Bool-cases, Option-cases, inl, inr,
}
use sippycup.Matrix.Constraint.{Scalar, same_scalar, Assignment, is_one_of}
use sippycup.Matrix.Satisfiable.{Domain}
use sippycup.Matrix.Satisfiable.Exact.{same_scalar-eq, same_scalar_refl}
use sippycup.Matrix.Cover.{FactorTuple, assignment_covers, tuples_of, product, same_tuple}
use sippycup.Matrix.Cover.Tuples.{has, any-append, Drawn}

-- The factors are in the dictionary.
abbrev pub Known : List Domain → List String → Type 0
Known domains factors = All (λ f. (d : List Scalar) × (get f domains ≡ some d)) factors

abbrev pub names : FactorTuple → List String
names [] = []
names ((f, v) ∷ item) = f ∷ names item

-- A tuple of the subset, with values from the domains.
abbrev pub IsTuple : List Domain → List String → FactorTuple → Type 0
IsTuple domains factors item = (names item ≡ factors) × Drawn domains item

All-prefix :
    (domains : List Domain) (factor : String) (factors : List String) (v : Scalar) (d : List Scalar)
    (rest : List FactorTuple)
    → get factor domains ≡ some d
    → is_one_of d v ≡ true
    → All (IsTuple domains factors) rest
    → All (IsTuple domains (factor ∷ factors)) (map (λ item. (factor, v) ∷ item) rest)
All-prefix domains factor factors v d [] known one h = tt
All-prefix domains factor factors v d (item ∷ rest) known one h = (
  (ap (λ ns. factor ∷ ns) h.0.0, ((d, known, one), h.0.1)),
  All-prefix domains factor factors v d rest known one h.1,
)

tuples_of-IsTuple :
    (domains : List Domain) (factor : String) (factors : List String) (d vs : List Scalar)
    (rest : List FactorTuple)
    → get factor domains ≡ some d
    → ((v : Scalar) → is_one_of vs v ≡ true → is_one_of d v ≡ true)
    → All (IsTuple domains factors) rest
    → All (IsTuple domains (factor ∷ factors)) (tuples_of factor rest vs)
unfolding tuples_of
tuples_of-IsTuple domains factor factors d [] rest known sub h = tt
tuples_of-IsTuple domains factor factors d (v ∷ vs) rest known sub h =
    All-append (IsTuple domains (factor ∷ factors)) _ _
      (All-prefix domains factor factors v d rest known (sub v (rw same_scalar_refl refl)) h)
      (tuples_of-IsTuple domains factor factors d vs rest known (λ w one. sub w (ground arith)) h)

pub product-IsTuple :
    (domains : List Domain) (factors : List String) (items : List FactorTuple)
    → product domains factors ≡ ok items
    → All (IsTuple domains factors) items
unfolding product
product-IsTuple domains [] items h =
    let same : ◌≡◌ {A = List FactorTuple} ([] ∷ []) items = ok-injective h in
    subst (All (IsTuple domains [])) same ((refl, tt), tt)
product-IsTuple domains (factor ∷ factors) items h =
    bind-elim (product domains factors) _ h (λ rest p h1. elim (Option-cases (get factor domains)) [
      | inl missing ↦ cc (rw missing at h1)
      | inr (d, known) ↦
          let same : tuples_of factor rest d ≡ items = ok-injective (rw known at h1) in
          rw (← same) (
            tuples_of-IsTuple domains factor factors d d rest known (λ v one. one)
              (product-IsTuple domains factors rest p))
    ])

or_right : (a b : Bool) → b ≡ true → a || b ≡ true
or_right a b h = ground arith

has-prefix :
    (factor : String) (v : Scalar) (item : FactorTuple) (rest : List FactorTuple)
    → has item rest ≡ true
    → has ((factor, v) ∷ item) (map (λ t. (factor, v) ∷ t) rest) ≡ true
has-prefix factor v item [] h = cc h
has-prefix factor v item (t ∷ rest) h =
    rw ((eq_iff factor factor).1 refl, same_scalar_refl v)
      (ground (arith, has-prefix factor v item rest))

has-tuples_of :
    (factor : String) (v : Scalar) (item : FactorTuple) (rest : List FactorTuple) (vs : List Scalar)
    → is_one_of vs v ≡ true
    → has item rest ≡ true
    → has ((factor, v) ∷ item) (tuples_of factor rest vs) ≡ true
unfolding tuples_of
has-tuples_of factor v item rest [] one h = cc one
has-tuples_of factor v item rest (w ∷ vs) one h =
    any-append (same_tuple ((factor, v) ∷ item)) (map (λ t. (factor, w) ∷ t) rest)
      (tuples_of factor rest vs)
    ∙ elim (Bool-cases (same_scalar w v)) [
      | inl same ↦
          let first : has ((factor, v) ∷ item) (map (λ t. (factor, w) ∷ t) rest) ≡ true =
            subst (λ u. has ((factor, v) ∷ item) (map (λ t. (factor, u) ∷ t) rest) ≡ true)
              (sym (same_scalar-eq w v same)) (has-prefix factor v item rest h) in
          rw first refl
      | inr other ↦ or_right _ _ (has-tuples_of factor v item rest vs (rw other at one) h)
    ]

-- The assignment gives every factor of the dictionary a value of its domain.
abbrev pub Assigns : List Domain → Assignment → Type 0
Assigns domains b =
    (f : String) (d : List Scalar)
    → get f domains ≡ some d
    → (v : Scalar) × (get f b ≡ some v) × (is_one_of d v ≡ true)

pub product-has :
    (domains : List Domain) (factors : List String) (items : List FactorTuple) (b : Assignment)
    → product domains factors ≡ ok items
    → Assigns domains b
    → (item : FactorTuple) × (has item items ≡ true) × (assignment_covers b item ≡ true)
unfolding product assignment_covers
product-has domains [] items b h a =
    let same : ◌≡◌ {A = List FactorTuple} ([] ∷ []) items = ok-injective h in
    ([], subst (λ ts. has [] ts ≡ true) same refl, refl)
product-has domains (factor ∷ factors) items b h a =
    bind-elim (product domains factors) _ h (λ rest p h1. elim (Option-cases (get factor domains)) [
      | inl missing ↦ cc (rw missing at h1)
      | inr (d, known) ↦
          let (item, q, c) = product-has domains factors rest b p a in
          let (v, chosen, one) = a factor d known in
          let same : tuples_of factor rest d ≡ items = ok-injective (rw known at h1) in
          (
            (factor, v) ∷ item,
            rw (← same) (has-tuples_of factor v item rest d one q),
            rw (chosen, same_scalar_refl v) c,
          )
    ])

-- The product raises nothing for factors that are in the dictionary.
pub product-Known :
    (domains : List Domain) (factors : List String)
    → Known domains factors
    → (items : List FactorTuple) × (product domains factors ≡ ok items)
unfolding product
product-Known domains [] k = ([] ∷ [], refl)
product-Known domains (factor ∷ factors) k =
    let (rest, p) = product-Known domains factors k.1 in
    let (d, known) = k.0 in (tuples_of factor rest d, rw (p, known) refl)
