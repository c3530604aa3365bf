-- ===== src/Matrix/Cover.antt =====
-- lib/sippycup/covering.py, the covering array: a completion of a tuple, the classification of the
-- requested tuples, and the rows. SHA-256 and `json.dumps` are parameters, as the digest of a
-- value under a seed and a namespace. Sets are lists without repetition.
pub mod Complete
pub mod Tuples
pub mod Product
pub mod Classify
pub mod Subsets
pub mod Rows
pub mod Covers
mod Examples
use Prim.Native.String.{compare, ◌++◌ as append}
use Prim.Native.Nat.{Ordering}
use sippycup.Prelude.{
  ℕ, zero, suc, ◌+◌, String, Bool, true, false, ◌&&◌, ◌||◌, not, Option, none, some, List, [], ◌∷◌,
  ◌++◌, map, Result, ok, err, ◌>>=◌, ◌>>◌, guard, str_eq, ltb, leb, ◌==◌, length, any, all, sort_by,
  get, put, if◌then◌else◌,
}
use sippycup.Matrix.Constraint.{Scalar, same_scalar, Assignment, Constraint, constraint_allows}
use sippycup.Matrix.Satisfiable.{
  ManifestError, too_many_tuples, internal_error, key_error, out_of_fuel, Domain, text_le,
  domain_before, all_allow,
}

abbrev pub FactorTuple : Type 0
FactorTuple = List (String × Scalar)

abbrev pub is_value : Option Scalar → Scalar → Bool
is_value none v = false
is_value (some w) v = same_scalar w v

-- `_assignment_covers`.
unfoldable pub assignment_covers : Assignment → FactorTuple → Bool
assignment_covers assignment item =
    all (λ (entry : String × Scalar). is_value (get entry.0 assignment) entry.1) item

-- `_compatible`.
unfoldable pub compatible : Assignment → FactorTuple → Bool
compatible assignment item =
    all
      (λ (entry : String × Scalar). elim (get entry.0 assignment) [
        | none ↦ true
        | some w ↦ same_scalar w entry.1
      ])
      item

-- `dict(item)`.
unfoldable pub dict : FactorTuple → Assignment → Assignment
dict [] assignment = assignment
dict ((factor, value) ∷ item) assignment = dict item (put factor value assignment)

abbrev pub filter {ℓ} : {A : Type ℓ} → (A → Bool) → List A → List A
filter p [] = []
filter p (x ∷ xs) = let rest = filter p xs in if p x then x ∷ rest else rest

unfoldable pub is_unassigned : Assignment → Domain → Bool
is_unassigned assignment domain = elim (get domain.0 assignment) [ none ↦ true | some _ ↦ false ]

-- `for value in candidates`, up to the first completion.
unfoldable pub try_candidates : (Scalar → Option Assignment) → List Scalar → Option Assignment
try_candidates attempt [] = none
try_candidates attempt (v ∷ vs) = elim (attempt v) [
  | some done ↦ some done
  | none ↦ try_candidates attempt vs
]

module _ (stable_key : ℕ → String → Scalar → String) (seed : ℕ) where
  -- The order of `candidates.sort(key=candidate_key)`, by the score from high to low.
  unfoldable pub candidate_before :
      String → List FactorTuple → String → Assignment → Scalar → Scalar → Bool
  candidate_before namespace uncovered factor assignment v w =
      let key = stable_key seed (append namespace (append ":" factor)) in
      let score =
        λ (x : Scalar). length (filter (compatible (put factor x assignment)) uncovered) in
      ltb (score w) (score v) || (score v == score w && text_le (key v) (key w))

  -- `search` of `_complete_assignment`, over the factors that are left.
  unfoldable pub search_completion :
      String → List FactorTuple → List Constraint → List Domain → Assignment → Option Assignment
  search_completion namespace uncovered cs [] assignment =
      if all_allow cs assignment then some assignment else none
  search_completion namespace uncovered cs ((factor, domain) ∷ rest) assignment =
      elim (all_allow cs assignment) [
        | false ↦ none
        | true ↦
            try_candidates
              (λ v. search_completion namespace uncovered cs rest (put factor v assignment))
              (sort_by (candidate_before namespace uncovered factor assignment) domain)
      ]

  unfoldable pub complete_assignment :
      String → List FactorTuple → List Domain → List Constraint → Assignment → Option Assignment
  complete_assignment namespace uncovered domains cs fixed =
      if all_allow cs fixed
      then search_completion namespace uncovered cs
          (sort_by domain_before (filter (is_unassigned fixed) domains)) fixed
      else none

-- `itertools.product` of the domains of a subset, as tuples of pairs.
unfoldable pub tuples_of : String → List FactorTuple → List Scalar → List FactorTuple
tuples_of factor rest [] = []
tuples_of factor rest (v ∷ vs) = map (λ item. (factor, v) ∷ item) rest ++ tuples_of factor rest vs

-- A factor that is not in `domains` is a `KeyError`.
unfoldable pub product : List Domain → List String → Result ManifestError (List FactorTuple)
product domains [] = ok ([] ∷ [])
product domains (factor ∷ factors) = do
  rest ← product domains factors
  elim (get factor domains) [
    | none ↦ err key_error
    | some domain ↦ ok (tuples_of factor rest domain)
  ]

pub record Excluded : Type 0 where
  pub values : FactorTuple
  pub reasons : List String

pub record Requests : Type 0 where
  pub required : List FactorTuple
  pub excluded : List Excluded

abbrev pub same_tuple : FactorTuple → FactorTuple → Bool
same_tuple [] [] = true
same_tuple ((f, v) ∷ a) ((g, w) ∷ b) = (str_eq f g && same_scalar v w) && same_tuple a b
same_tuple _ _ = false

-- `required.add(item)`.
unfoldable pub add_tuple : FactorTuple → List FactorTuple → List FactorTuple
add_tuple item items = if any (same_tuple item) items then items else items ++ item ∷ []

abbrev pub max_requirements : ℕ
max_requirements = 250000

-- The ids of the constraints that the tuple alone violates.
unfoldable pub direct_reasons : List Constraint → Assignment → List String
direct_reasons [] fixed = []
direct_reasons (c ∷ cs) fixed =
    let rest = direct_reasons cs fixed in if constraint_allows c fixed then rest else c.id ∷ rest

abbrev pub or_not_extendable : List String → List String
or_not_extendable [] = "not-extendable" ∷ []
or_not_extendable (r ∷ rs) = r ∷ rs

-- The tuple with the reasons for its exclusion.
abbrev pub exclusion : List Constraint → FactorTuple → Excluded
exclusion cs item = record {
  values = item;
  reasons = or_not_extendable (direct_reasons cs (dict item []));
}

-- The part of a normalized matrix that is read here. `risks` has the entries of `riskWeights` with
-- `coveringFactors`, each with its `interactionStrength`.
pub record Matrix : Type 0 where
  pub factors : List Domain
  pub constraints : List Constraint
  pub mandatory : List Assignment
  pub strength : ℕ
  pub risks : List (List String × ℕ)

abbrev pub matrix_factors : List String
matrix_factors =
    "transport" ∷ "addressFamily" ∷ "codec" ∷ "ptime" ∷ "mediaProtection" ∷ "dtmf" ∷ "earlyMedia"
    ∷ "holdReinvite" ∷ "teardownInitiator" ∷ "duration" ∷ "nat" ∷ "impairment" ∷ []

-- `itertools.combinations`.
abbrev pub combinations {ℓ} : {A : Type ℓ} → ℕ → List A → List (List A)
combinations zero xs = [] ∷ []
combinations (suc n) [] = []
combinations (suc n) (x ∷ xs) = map (λ ys. x ∷ ys) (combinations n xs) ++ combinations (suc n) xs

abbrev pub same_names : List String → List String → Bool
same_names [] [] = true
same_names (f ∷ a) (g ∷ b) = str_eq f g && same_names a b
same_names _ _ = false

-- `a <= b` of tuples of texts.
abbrev pub names_le : List String → List String → Bool
names_le [] b = true
names_le (f ∷ a) [] = false
names_le (f ∷ a) (g ∷ b) = if str_eq f g then names_le a b else text_le f g

abbrev pub add_subsets : List (List String) → List (List String) → List (List String)
add_subsets [] subsets = subsets
add_subsets (s ∷ more) subsets =
    add_subsets more (if any (same_names s) subsets then subsets else subsets ++ s ∷ [])

abbrev pub risk_subsets : List (List String × ℕ) → List (List String) → List (List String)
risk_subsets [] subsets = subsets
risk_subsets ((factors, strength) ∷ risks) subsets =
    risk_subsets risks (add_subsets (combinations strength factors) subsets)

unfoldable pub requested_subsets : Matrix → List (List String)
requested_subsets m =
    sort_by names_le
      (risk_subsets m.risks (add_subsets (combinations m.strength matrix_factors) []))

-- `min(items, key=key)`, where `first` is the best so far.
abbrev pub min_by : (FactorTuple → String) → FactorTuple → List FactorTuple → FactorTuple
min_by key first [] = first
min_by key first (item ∷ items) =
    min_by key (if text_le (key first) (key item) then first else item) items

pub record CoveringArray : Type 0 where
  pub rows : List Assignment
  pub required_tuples : List FactorTuple
  pub excluded_tuples : List Excluded

abbrev pub TupleKey : Type 0
TupleKey = List (String × String)

-- `a <= b` of the keys of tuples.
abbrev pub key_le : TupleKey → TupleKey → Bool
key_le [] b = true
key_le (x ∷ a) [] = false
key_le ((f, v) ∷ a) ((g, w) ∷ b) =
    if str_eq f g then if str_eq v w then key_le a b else text_le v w else text_le f g

abbrev pub covered_by : List Assignment → FactorTuple → Bool
covered_by rows item = any (λ row. assignment_covers row item) rows

module _ (stable_key : ℕ → String → Scalar → String) (stable_tuple : ℕ → String → TupleKey → String)
    (dumps : Scalar → String) (decimal : ℕ → String) (seed : ℕ) where
  -- `_tuple_key`.
  abbrev pub tuple_key : FactorTuple → TupleKey
  tuple_key item = map (λ (entry : String × Scalar). (entry.0, dumps entry.1)) item

  unfoldable pub classify_tuples :
      List Domain → List Constraint → List FactorTuple → Requests → Result ManifestError Requests
  classify_tuples domains cs [] seen = ok seen
  classify_tuples domains cs (item ∷ items) seen = do
    guard (ltb (length seen.required + length seen.excluded) max_requirements) too_many_tuples
    elim (complete_assignment stable_key seed "classify" [] domains cs (dict item [])) [
      | some completion ↦
          classify_tuples domains cs items (record seen { required = add_tuple item seen.required })
      | none ↦
          classify_tuples domains cs items
            (record seen { excluded = seen.excluded ++ exclusion cs item ∷ [] })
    ]

  unfoldable pub classify :
      List Domain → List Constraint → List (List String) → Requests → Result ManifestError Requests
  classify domains cs [] seen = ok seen
  classify domains cs (subset ∷ subsets) seen = do
    items ← product domains subset
    classified ← classify_tuples domains cs items seen
    classify domains cs subsets classified

  -- The loop `while uncovered`, with fuel for the number of uncovered tuples, which every row lowers.
  unfoldable pub fill_rows :
      ℕ
      → List Domain
      → List Constraint
      → ℕ
      → List Assignment
      → List FactorTuple
      → Result ManifestError (List Assignment)
  fill_rows fuel domains cs row_number rows [] = ok rows
  fill_rows zero domains cs row_number rows (item ∷ items) = err out_of_fuel
  fill_rows (suc fuel) domains cs row_number rows (item ∷ items) =
      let number = decimal (row_number + 1) in
      let target =
        min_by (λ t. stable_tuple seed (append "target:" number) (tuple_key t)) item items in
      elim (complete_assignment stable_key seed (append "row:" number) (item ∷ items) domains cs
        (dict target [])) [
          | none ↦ err internal_error
          | some completed ↦
              fill_rows fuel domains cs (row_number + 1) (rows ++ completed ∷ [])
                (filter (λ t. not (assignment_covers completed t)) (item ∷ items))
        ]

  -- The result, with its tuples sorted by their keys.
  abbrev pub collect : Requests → List Assignment → CoveringArray
  collect requests rows = record {
    rows = rows;
    required_tuples = sort_by (λ a b. key_le (tuple_key a) (tuple_key b)) requests.required;
    excluded_tuples =
        sort_by (λ (a b : Excluded). key_le (tuple_key a.values) (tuple_key b.values))
          requests.excluded;
  }

  unfoldable pub generate_covering_array : Matrix → Result ManifestError CoveringArray
  generate_covering_array m = do
    requests ←
        classify m.factors m.constraints (requested_subsets m)
          (record { required = []; excluded = [] })
    let uncovered = filter (λ t. not (covered_by m.mandatory t)) requests.required
    rows ← fill_rows (length uncovered) m.factors m.constraints 0 m.mandatory uncovered
    ok (collect requests rows)
