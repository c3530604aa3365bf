-- ===== src/Matrix/Cover/Covers.antt =====
-- lib/sippycup/covering.py, `generate_covering_array` as a whole.
use mathlib.Core.Path.{subst}
use mathlib.Core.Option.{some-injective}
use sippycup.Prelude.{
  Ends, Only-Ends, ℕ, String, Bool, true, false, not, List, [], ◌∷◌, none, some, ok, ◌>>=◌,
  bind-elim, ok-injective, ◌≡◌, refl, sym, ap, ◌∙◌, arith, str_eq, eq_iff, length, any, all, All,
  All-map, All-sort_by, get, Bool-cases, inl, inr, Only, bind-Only_from,
}
use sippycup.Matrix.Constraint.{Scalar, Assignment}
use sippycup.Matrix.Satisfiable.{too_many_tuples, Domain}
use sippycup.Matrix.Satisfiable.Exact.{Distinct, Chooses}
use sippycup.Matrix.Cover.{
  FactorTuple, filter, is_value, assignment_covers, covered_by, Excluded, Requests, Matrix,
  matrix_factors, requested_subsets, TupleKey, CoveringArray, collect, fill_rows, classify,
  generate_covering_array,
}
use sippycup.Matrix.Cover.Complete.{All-filter}
use sippycup.Matrix.Cover.Tuples.{Proper, is_value-eq}
use sippycup.Matrix.Cover.Product.{names, Assigns, Known}
use sippycup.Matrix.Cover.Classify.{
  All-has, Permitted, IsExcluded, Complete, classify-Complete, classify-Only,
}
use sippycup.Matrix.Cover.Subsets.{
  Different, different-Different, all-All, factor_names, requested_subsets-keeps, combinations-All,
  combinations-Different, Different-Distinct, Different-Proper,
}
use sippycup.Matrix.Cover.Rows.{Valid, Filled, fill_rows-Filled, All-unfilter}

abbrev pub is_factor : List String → String → Bool
is_factor factors f = any (λ g. str_eq g f) factors

-- What `_validate_matrix` establishes: a domain for each of the factors, risks that name different
-- factors, and mandatory cases that are assignments which every constraint allows.
pub record IsNormal (m : Matrix) : Type 0 where
  pub factors : factor_names m.factors ≡ matrix_factors
  pub risks :
      All
        (λ (r : List String × ℕ). Different r.0 × All (λ f. is_factor matrix_factors f ≡ true) r.0)
        m.risks
  pub mandatory : All (Valid m.factors m.constraints) m.mandatory

-- The two assignments give the factors the same values.
pub agree : List String → Assignment → Assignment → Bool
agree factors row b =
    all (λ f. elim (get f b) [ none ↦ false | some v ↦ is_value (get f row) v ]) factors

known_domain :
    (ds : List Domain) (f : String)
    → is_factor (factor_names ds) f ≡ true
    → (d : List Scalar) × (get f ds ≡ some d)
unfolding get
known_domain [] f h = cc
known_domain ((g, d) ∷ ds) f h = elim (Bool-cases (str_eq g f)) [
  | inl same ↦ (d, rw (same, get) refl)
  | inr other ↦ let (e, p) = known_domain ds f (rw other at h) in (e, rw (other, get) p)
]

Chooses-Assigns : (ds : List Domain) (b : Assignment) → All (Chooses b) ds → Assigns ds b
unfolding get
Chooses-Assigns [] b h f d p = cc
Chooses-Assigns ((g, e) ∷ ds) b ((v, chosen, one), t) f d p = elim (Bool-cases (str_eq g f)) [
  | inl same ↦
      let named : g ≡ f = (eq_iff g f).0 same in
      let domain : e ≡ d = some-injective _ _ (rw same at p) in
      (v, ap (λ n. get n b) (sym named) ∙ chosen, rw (← domain) one)
  | inr other ↦ Chooses-Assigns ds b t f d (rw other at p)
]

factors-Different : Different matrix_factors
factors-Different = different-Different matrix_factors refl

All-factors : All (λ f. is_factor matrix_factors f ≡ true) matrix_factors
All-factors = all-All (is_factor matrix_factors) matrix_factors refl

module _ (m : Matrix) (n : IsNormal m) where
  subsets-Different : All Different (requested_subsets m)
  subsets-Different =
      requested_subsets-keeps Different m
        (combinations-Different m.strength matrix_factors factors-Different)
        (All-map _ _ m.risks (λ (r : List String × ℕ) k. combinations-Different r.1 r.0 k.0)
          n.risks)

  subsets-Known : All (Known m.factors) (requested_subsets m)
  subsets-Known =
      All-map (All (λ f. is_factor matrix_factors f ≡ true)) (Known m.factors) (requested_subsets m)
        (λ subset k.
          All-map (λ f. is_factor matrix_factors f ≡ true) _ subset
            (λ f e. known_domain m.factors f (ap (λ fs. is_factor fs f) n.factors ∙ e)) k)
        (requested_subsets-keeps (All (λ f. is_factor matrix_factors f ≡ true)) m
          (combinations-All (λ f. is_factor matrix_factors f ≡ true) m.strength matrix_factors
            All-factors)
          (All-map _ _ m.risks
            (λ (r : List String × ℕ) k.
              combinations-All (λ f. is_factor matrix_factors f ≡ true) r.1 r.0 k.1)
            n.risks))

  subsets-Proper :
      All (λ subset. (item : FactorTuple) → names item ≡ subset → Proper item) (requested_subsets m)
  subsets-Proper =
      All-map Different _ (requested_subsets m) (λ subset k item e. Different-Proper item (rw e k))
        subsets-Different

  domains-Distinct : Distinct m.factors
  domains-Distinct = Different-Distinct m.factors (rw (n.factors) factors-Different)

covers-agree :
    (item : FactorTuple) (row b : Assignment)
    → assignment_covers b item ≡ true
    → assignment_covers row item ≡ true
    → agree (names item) row b ≡ true
unfolding assignment_covers agree
covers-agree [] row b h k = refl
covers-agree ((f, v) ∷ item) row b h k =
    let known : get f b ≡ some v = is_value-eq (get f b) v (ground arith) in
    let value : is_value (get f row) v ≡ true = ground arith in
    rw (known, value) (covers-agree item row b (ground arith) (ground arith))

any-map_test {ℓ} :
    {A : Type ℓ} (p q : A → Bool) (xs : List A)
    → ((x : A) → p x ≡ true → q x ≡ true)
    → any p xs ≡ true
    → any q xs ≡ true
any-map_test p q [] f h = cc h
any-map_test p q (x ∷ xs) f h = ground (arith, f x, any-map_test p q xs f)

All-swap {ℓ κ υ ρ} :
    {A : Type ℓ} {B : Type κ} (V : B → Type υ) (P : B → A → Type ρ) (xs : List A)
    → ((b : B) → V b → All (P b) xs)
    → All (λ x. (b : B) → V b → P b x) xs
All-swap V P [] f = tt
All-swap V P (x ∷ xs) f = (λ b v. (f b v).0, All-swap V P xs (λ b v. (f b v).1))

-- The rows are assignments that every constraint allows. Whatever such an assignment gives a
-- requested subset of the factors, some row gives it too. The required tuples are covered, and the
-- excluded ones cannot be extended to such an assignment.
pub record IsCovering (m : Matrix) (c : CoveringArray) : Type 0 where
  pub valid : All (Valid m.factors m.constraints) c.rows
  pub covers :
      All
        (λ subset.
          (b : Assignment)
          → Valid m.factors m.constraints b
          → any (λ row. agree subset row b) c.rows ≡ true)
        (requested_subsets m)
  pub required : All (λ item. covered_by c.rows item ≡ true) c.required_tuples
  pub excluded : All (IsExcluded m.factors m.constraints) c.excluded_tuples

abbrev nothing : Requests
nothing = record { required = []; excluded = [] }

module _ (stable_key : ℕ → String → Scalar → String) (stable_tuple : ℕ → String → TupleKey → String)
    (dumps : Scalar → String) (decimal : ℕ → String) (seed : ℕ) (m : Matrix) (n : IsNormal m) where
  abbrev uncovered : Requests → List FactorTuple
  uncovered requests = filter (λ t. not (covered_by m.mandatory t)) requests.required

  -- The rows that are added after the classification.
  rows_for :
      (requests : Requests)
      → Complete m.factors m.constraints stable_key stable_tuple dumps decimal seed
          (requested_subsets m)
          nothing
          requests
      → (rows : List Assignment) × (fill_rows stable_key stable_tuple dumps decimal seed
            (length (uncovered requests))
            m.factors
            m.constraints
            0
            m.mandatory
            (uncovered requests)
          ≡ ok rows)
        × Filled m.factors m.constraints m.mandatory (uncovered requests) rows
  rows_for requests c =
      fill_rows-Filled m.factors m.constraints stable_key stable_tuple dumps decimal seed
        (length (uncovered requests)) 0 m.mandatory (uncovered requests) (omega arith)
        (domains-Distinct m n)
        (All-filter (Permitted m.factors m.constraints) (λ t. not (covered_by m.mandatory t))
          requests.required (c.permitted tt))

  covering :
      (requests : Requests) (rows : List Assignment) (c : CoveringArray)
      → Complete m.factors m.constraints stable_key stable_tuple dumps decimal seed
          (requested_subsets m)
          nothing
          requests
      → Filled m.factors m.constraints m.mandatory (uncovered requests) rows
      → c.rows ≡ rows
      → ((P : FactorTuple → Type 0) → All P requests.required → All P c.required_tuples)
      → ((P : Excluded → Type 0) → All P requests.excluded → All P c.excluded_tuples)
      → IsCovering m c
  covering requests rows c complete filled same sorted sorted_excluded =
      let all_covered : All (λ item. covered_by rows item ≡ true) requests.required =
        All-unfilter (λ item. covered_by rows item ≡ true) (λ t. not (covered_by m.mandatory t))
          requests.required (λ x k. filled.still x (ground arith)) filled.covered in
      record {
        valid = rw same (filled.valid n.mandatory);
        covers =
            All-swap (Valid m.factors m.constraints)
              (λ b subset. any (λ row. agree subset row b) c.rows ≡ true) (requested_subsets m)
              (λ b v.
                All-map _ _ (requested_subsets m)
                  (λ subset (item, named, inside, covers).
                    let row_covers : covered_by rows item ≡ true =
                      All-has (λ t. covered_by rows t ≡ true) item requests.required inside
                        all_covered in
                    rw (same, ← named)
                      (any-map_test (λ row. assignment_covers row item)
                        (λ row. agree (names item) row b) rows
                        (λ row k. covers-agree item row b covers k) row_covers))
                  (complete.requested b v.0 (Chooses-Assigns m.factors b v.0) v.1));
        required = rw same (sorted (λ item. covered_by rows item ≡ true) all_covered);
        excluded = sorted_excluded (IsExcluded m.factors m.constraints) (complete.refused tt);
      }

  -- Of a normal matrix, the array that is returned covers every tuple of values that an allowed
  -- assignment gives to a requested subset of the factors, with rows that are allowed; and the
  -- tuples that are reported as excluded are those of no allowed assignment.
  pub generate_covering_array-IsCovering :
      (c : CoveringArray)
      → generate_covering_array stable_key stable_tuple dumps decimal seed m ≡ ok c
      → IsCovering m c
  unfolding generate_covering_array
  generate_covering_array-IsCovering c h =
      bind-elim
        (classify stable_key stable_tuple dumps decimal seed m.factors m.constraints
          (requested_subsets m) nothing)
        _ h
        (λ requests p h1.
          let complete =
            classify-Complete m.factors m.constraints stable_key stable_tuple dumps decimal seed
              (requested_subsets m) nothing requests (domains-Distinct m n) (subsets-Proper m n)
              p in
          let (rows, q, filled) = rows_for requests complete in
          subst (IsCovering m) (ok-injective (rw (q, ◌>>=◌) at h1)) (
            covering requests rows
              (collect stable_key stable_tuple dumps decimal seed requests rows) complete filled
              refl (λ P. (All-sort_by _ P requests.required).1)
              (λ P. (All-sort_by _ P requests.excluded).1)))

  generate_covering_array-Only :
      Only
        (λ e. e ≡ too_many_tuples)
        (generate_covering_array stable_key stable_tuple dumps decimal seed m)
  unfolding generate_covering_array
  generate_covering_array-Only =
      bind-Only_from
        (classify stable_key stable_tuple dumps decimal seed m.factors m.constraints
          (requested_subsets m) nothing)
        _
        (classify-Only m.factors m.constraints stable_key stable_tuple dumps decimal seed
          (requested_subsets m) nothing (subsets-Known m n))
        (λ requests p.
          let complete =
            classify-Complete m.factors m.constraints stable_key stable_tuple dumps decimal seed
              (requested_subsets m) nothing requests (domains-Distinct m n) (subsets-Proper m n)
              p in
          let (rows, q, filled) = rows_for requests complete in rw (q, ◌>>=◌) (λ e h. cc h))

  -- The generation of a normal matrix returns an array, or raises that it has too many tuples.
  pub generate_covering_array-Ends :
      Ends
        (λ e. e ≡ too_many_tuples)
        (generate_covering_array stable_key stable_tuple dumps decimal seed m)
  generate_covering_array-Ends =
      Only-Ends (generate_covering_array stable_key stable_tuple dumps decimal seed m)
        generate_covering_array-Only
