-- ===== src/Matrix/Cover/Classify.antt =====
-- lib/sippycup/covering.py, the classification of `generate_covering_array`: the tuples that some
-- allowed assignment has are required, the others are excluded.
use mathlib.Core.Path.{subst}
use sippycup.Prelude.{
  ℕ, String, true, ◌+◌, List, [], ◌∷◌, ◌++◌, none, some, ok, ◌>>=◌, guard, guard-Only, bind-elim,
  ok-injective, ◌≡◌, refl, sym, ◌∙◌, ltb, length, All, All-map, All-append, Bool-cases,
  Option-cases, inl, inr, Only, bind-Only,
}
use sippycup.Matrix.Constraint.{Scalar, Assignment, Constraint}
use sippycup.Matrix.Satisfiable.{too_many_tuples, Domain, all_allow}
use sippycup.Matrix.Satisfiable.Exact.{Distinct, Chooses, Completion, Extends-empty}
use sippycup.Matrix.Cover.{
  FactorTuple, assignment_covers, dict, complete_assignment, product, Excluded, Requests, add_tuple,
  max_requirements, exclusion, same_tuple, classify_tuples, classify, TupleKey,
}
use sippycup.Matrix.Cover.Complete.{complete_assignment-some, complete_assignment-none}
use sippycup.Matrix.Cover.Tuples.{
  has, same_tuple_refl, same_tuple-eq, any-append, Proper, covers-Extends-dict, Drawn,
  dict-Consistent,
}
use sippycup.Matrix.Cover.Product.{
  Known, names, IsTuple, product-IsTuple, Assigns, product-has, product-Known,
}

has-add_tuple :
    (x item : FactorTuple) (items : List FactorTuple)
    → has x items ≡ true
    → has x (add_tuple item items) ≡ true
unfolding add_tuple
has-add_tuple x item items h = elim (Bool-cases (has item items)) [
  | inl old ↦ rw old h
  | inr new ↦ rw new (any-append _ items (item ∷ []) ∙ rw h refl)
]

add_tuple-has :
    (item : FactorTuple) (items : List FactorTuple) → has item (add_tuple item items) ≡ true
unfolding add_tuple
add_tuple-has item items = elim (Bool-cases (has item items)) [
  | inl old ↦ rw old old
  | inr new ↦ rw new (any-append _ items (item ∷ []) ∙ rw (new, same_tuple_refl item) refl)
]

All-add_tuple {κ} :
    (P : FactorTuple → Type κ) (item : FactorTuple) (items : List FactorTuple)
    → P item
    → All P items
    → All P (add_tuple item items)
unfolding add_tuple
All-add_tuple P item items p h = elim (Bool-cases (has item items)) [
  | inl old ↦ rw old h
  | inr new ↦ rw new (All-append P items (item ∷ []) h (p, tt))
]

pub All-has {κ} :
    (P : FactorTuple → Type κ) (x : FactorTuple) (items : List FactorTuple)
    → has x items ≡ true
    → All P items
    → P x
All-has P x [] h a = cc
All-has P x (item ∷ items) h a = elim (Bool-cases (same_tuple x item)) [
  | inl same ↦ subst P (sym (same_tuple-eq x item same)) a.0
  | inr other ↦ All-has P x items (rw other at h) a.1
]

module _ (domains : List Domain) (cs : List Constraint) where
  -- The tuple can be extended to an assignment of all factors that every constraint allows.
  abbrev pub Extendable : FactorTuple → Type 0
  Extendable item = (b : Assignment) × Completion cs domains (dict item []) b

  abbrev pub IsExcluded : Excluded → Type 0
  IsExcluded e = Extendable e.values → ⊥

  -- A tuple of different factors, with values of their domains.
  abbrev pub Wellformed : FactorTuple → Type 0
  Wellformed item = Proper item × Drawn domains item

  abbrev pub Permitted : FactorTuple → Type 0
  Permitted item = Wellformed item × Extendable item

  module _ (stable_key : ℕ → String → Scalar → String)
      (stable_tuple : ℕ → String → TupleKey → String) (dumps : Scalar → String)
      (decimal : ℕ → String) (seed : ℕ) where
    record Classified (items : List FactorTuple) (seen result : Requests) : Type 0 where
      kept : (x : FactorTuple) → has x seen.required ≡ true → has x result.required ≡ true
      found : (x : FactorTuple) → has x items ≡ true → Extendable x → has x result.required ≡ true
      permitted : All Permitted seen.required → All Permitted result.required
      refused : All IsExcluded seen.excluded → All IsExcluded result.excluded

    Classified-permitted :
        (item : FactorTuple) (items : List FactorTuple) (seen result : Requests) (b : Assignment)
        → Distinct domains
        → Wellformed item
        → complete_assignment stable_key seed "classify" [] domains cs (dict item []) ≡ some b
        → Classified items (record seen { required = add_tuple item seen.required }) result
        → Classified (item ∷ items) seen result
    Classified-permitted item items seen result b d w found c =
        let completion =
          complete_assignment-some stable_key seed "classify" [] cs domains (dict item []) b d
            (dict-Consistent domains item d w.1) found in
        record {
          kept = λ x k. c.kept x (has-add_tuple x item seen.required k);
          found = λ x k e. elim (Bool-cases (same_tuple x item)) [
            | inl same ↦ c.kept x (
                subst (λ y. has y (add_tuple item seen.required) ≡ true)
                  (sym (same_tuple-eq x item same)) (add_tuple-has item seen.required))
            | inr other ↦ c.found x (rw other at k) e
          ];
          permitted =
              λ k. c.permitted (All-add_tuple Permitted item seen.required (w, (b, completion)) k);
          refused = λ k. c.refused k;
        }

    Classified-refused :
        (item : FactorTuple) (items : List FactorTuple) (seen result : Requests)
        → complete_assignment stable_key seed "classify" [] domains cs (dict item []) ≡ none
        → Classified items
            (record seen { excluded = seen.excluded ++ exclusion cs item ∷ [] })
            result
        → Classified (item ∷ items) seen result
    Classified-refused item items seen result missing c =
        let impossible : Extendable item → ⊥ = λ e.
          complete_assignment-none stable_key seed "classify" [] cs domains (dict item []) e.0
            missing e.1 in
        record {
          kept = λ x k. c.kept x k;
          found = λ x k e. elim (Bool-cases (same_tuple x item)) [
            | inl same ↦ absurd (impossible (subst Extendable (same_tuple-eq x item same) e))
            | inr other ↦ c.found x (rw other at k) e
          ];
          permitted = λ k. c.permitted k;
          refused = λ k.
              c.refused
                (All-append IsExcluded seen.excluded (exclusion cs item ∷ []) k (impossible, tt));
        }

    classify_tuples-Classified :
        (items : List FactorTuple) (seen result : Requests)
        → Distinct domains
        → All Wellformed items
        → classify_tuples stable_key stable_tuple dumps decimal seed domains cs items seen
          ≡ ok result
        → Classified items seen result
    unfolding classify_tuples
    classify_tuples-Classified [] seen result d w h =
        subst (Classified [] seen) (ok-injective h)
          (record { kept = λ x k. k; found = λ x k e. cc k; permitted = λ k. k; refused = λ k. k })
    classify_tuples-Classified (item ∷ items) seen result d w h =
        bind-elim
          (guard (ltb (length seen.required + length seen.excluded) max_requirements)
            too_many_tuples)
          _ h
          (λ u p h1.
            elim (Option-cases
              (complete_assignment stable_key seed "classify" [] domains cs (dict item []))) [
                | inr (b, found) ↦ Classified-permitted item items seen result b d w.0 found (
                    classify_tuples-Classified items
                      (record seen { required = add_tuple item seen.required }) result d w.1
                      (rw found at h1))
                | inl missing ↦ Classified-refused item items seen result missing (
                    classify_tuples-Classified items
                      (record seen { excluded = seen.excluded ++ exclusion cs item ∷ [] }) result d
                      w.1 (rw missing at h1))
              ])

    -- After the classification of the subsets, every tuple that an allowed assignment has is required.
    pub record Complete (subsets : List (List String)) (seen result : Requests) : Type 0 where
      pub still : (x : FactorTuple) → has x seen.required ≡ true → has x result.required ≡ true
      pub requested :
          (b : Assignment)
          → All (Chooses b) domains
          → Assigns domains b
          → all_allow cs b ≡ true
          → All
              (λ subset.
                (item : FactorTuple) × (names item ≡ subset)
                × (has item result.required ≡ true)
                × (assignment_covers b item ≡ true))
              subsets
      pub permitted : All Permitted seen.required → All Permitted result.required
      pub refused : All IsExcluded seen.excluded → All IsExcluded result.excluded

    pub classify-Complete :
        (subsets : List (List String)) (seen result : Requests)
        → Distinct domains
        → All (λ subset. (item : FactorTuple) → names item ≡ subset → Proper item) subsets
        → classify stable_key stable_tuple dumps decimal seed domains cs subsets seen ≡ ok result
        → Complete subsets seen result
    unfolding classify
    classify-Complete [] seen result d w h = subst (Complete [] seen) (ok-injective h) (record {
      still = λ x k. k;
      requested = λ b c a k. tt;
      permitted = λ k. k;
      refused = λ k. k;
    })
    classify-Complete (subset ∷ subsets) seen result d w h =
        bind-elim (product domains subset) _ h (λ items p h1.
          bind-elim
            (classify_tuples stable_key stable_tuple dumps decimal seed domains cs items seen) _ h1
            (λ middle q h2.
              let tuples = product-IsTuple domains subset items p in
              let one =
                classify_tuples-Classified items seen middle d
                  (All-map (IsTuple domains subset) Wellformed items (λ x t. (w.0 x t.0, t.1))
                    tuples)
                  q in
              let rest = classify-Complete subsets middle result d w.1 h2 in
              record {
                still = λ x k. rest.still x (one.kept x k);
                requested = λ b c a k.
                    let (item, inside, covers) = product-has domains subset items b p a in
                    let shaped = All-has (IsTuple domains subset) item items inside tuples in
                    let extension : Extendable item =
                      (b, (covers-Extends-dict item [] b (Extends-empty b) covers, c, k)) in
                    (
                      (item, shaped.0, rest.still item (one.found item inside extension), covers),
                      rest.requested b c a k,
                    );
                permitted = λ k. rest.permitted (one.permitted k);
                refused = λ k. rest.refused (one.refused k);
              }))

    classify_tuples-Only :
        (items : List FactorTuple) (seen : Requests)
        → Only
            (λ e. e ≡ too_many_tuples)
            (classify_tuples stable_key stable_tuple dumps decimal seed domains cs items seen)
    unfolding classify_tuples
    classify_tuples-Only [] seen = λ e h. cc h
    classify_tuples-Only (item ∷ items) seen =
        bind-Only
          (guard (ltb (length seen.required + length seen.excluded) max_requirements)
            too_many_tuples)
          _ (guard-Only _ _ too_many_tuples refl)
          (λ u.
            elim (Option-cases
              (complete_assignment stable_key seed "classify" [] domains cs (dict item []))) [
                | inr (b, found) ↦ rw found (
                    classify_tuples-Only items
                      (record seen { required = add_tuple item seen.required }))
                | inl missing ↦ rw missing (
                    classify_tuples-Only items
                      (record seen { excluded = seen.excluded ++ exclusion cs item ∷ [] }))
              ])

    pub classify-Only :
        (subsets : List (List String)) (seen : Requests)
        → All (Known domains) subsets
        → Only
            (λ e. e ≡ too_many_tuples)
            (classify stable_key stable_tuple dumps decimal seed domains cs subsets seen)
    unfolding classify
    classify-Only [] seen k = λ e h. cc h
    classify-Only (subset ∷ subsets) seen k =
        let (items, p) = product-Known domains subset k.0 in
        rw (p, ◌>>=◌)
          (bind-Only
            (classify_tuples stable_key stable_tuple dumps decimal seed domains cs items seen) _
            (classify_tuples-Only items seen) (λ middle. classify-Only subsets middle k.1))
