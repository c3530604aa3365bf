-- ===== src/Matrix/Cover/Rows.antt =====
-- lib/sippycup/covering.py, the rows of `generate_covering_array`.
use Prim.Native.String.{◌++◌ as append}
use sippycup.Prelude.{
  ℕ, zero, suc, ◌+◌, ◌≤◌, String, Bool, true, false, not, List, [], ◌∷◌, ◌++◌, map, ok, ◌≡◌, refl,
  ◌∙◌, arith, length, All, All-append, if◌then◌else◌, if_keeps, Bool-cases, Option-cases, inl, inr,
}
use sippycup.Matrix.Constraint.{Scalar, Assignment, Constraint}
use sippycup.Matrix.Satisfiable.{text_le, Domain, all_allow}
use sippycup.Matrix.Satisfiable.Exact.{Distinct, Chooses}
use sippycup.Matrix.Cover.{
  FactorTuple, filter, assignment_covers, covered_by, dict, complete_assignment, min_by, TupleKey,
  fill_rows,
}
use sippycup.Matrix.Cover.Complete.{All-filter, complete_assignment-some, complete_assignment-none}
use sippycup.Matrix.Cover.Tuples.{any-append, dict-covers, covers-Extends, dict-Consistent}
use sippycup.Matrix.Cover.Classify.{Permitted}

All-min_by {κ} :
    (P : FactorTuple → Type κ) (key : FactorTuple → String) (x : FactorTuple)
    (xs : List FactorTuple)
    → P x
    → All P xs
    → P (min_by key x xs)
All-min_by P key x [] p h = p
All-min_by P key x (y ∷ ys) p h =
    All-min_by P key (if text_le (key x) (key y) then x else y) ys
      (if_keeps P (text_le (key x) (key y)) p h.0) h.1

-- A test that fails on the minimum leaves out at least one.
filter-min_by :
    (p : FactorTuple → Bool) (key : FactorTuple → String) (x : FactorTuple) (xs : List FactorTuple)
    → p (min_by key x xs) ≡ false
    → length (filter p (x ∷ xs)) ≤ length xs
filter-min_by p key x [] h = rw h (omega arith)
filter-min_by p key x (y ∷ ys) h = elim (Bool-cases (text_le (key x) (key y))) [
  | inl first ↦ let rest = filter-min_by p key x ys (rw first at h) in ground (arith, rest)
  | inr second ↦ let rest = filter-min_by p key y ys (rw second at h) in ground (arith, rest)
]

pub All-unfilter {ℓ κ} :
    {A : Type ℓ} (P : A → Type κ) (p : A → Bool) (xs : List A)
    → ((x : A) → p x ≡ false → P x)
    → All P (filter p xs)
    → All P xs
All-unfilter P p [] out h = tt
All-unfilter P p (x ∷ xs) out h = elim (Bool-cases (p x)) [
  | inl e ↦
      let both : P x × All P (filter p xs) = rw e at h in (both.0, All-unfilter P p xs out both.1)
  | inr e ↦ (out x e, All-unfilter P p xs out (rw e at h))
]

module _ (domains : List Domain) (cs : List Constraint) where
  -- An assignment of every factor that every constraint allows.
  abbrev pub Valid : Assignment → Type 0
  Valid b = All (Chooses b) domains × (all_allow cs b ≡ true)

  pub record Filled (rows : List Assignment) (items : List FactorTuple) (result : List Assignment)
      : Type 0 where
    pub still : (x : FactorTuple) → covered_by rows x ≡ true → covered_by result x ≡ true
    pub valid : All Valid rows → All Valid result
    pub covered : All (λ x. covered_by result x ≡ true) items

  add_row :
      (rows : List Assignment) (row : Assignment) (items : List FactorTuple)
      (result : List Assignment)
      → Valid row
      → Filled (rows ++ row ∷ []) (filter (λ t. not (assignment_covers row t)) items) result
      → Filled rows items result
  add_row rows row items result v f = record {
    still = λ x k. f.still x (any-append (λ r. assignment_covers r x) rows (row ∷ []) ∙ rw k refl);
    valid = λ k. f.valid (All-append Valid rows (row ∷ []) k (v, tt));
    covered =
        All-unfilter (λ x. covered_by result x ≡ true) (λ t. not (assignment_covers row t)) items
          (λ x k.
            f.still x (any-append (λ r. assignment_covers r x) rows (row ∷ []) ∙ ground arith))
          f.covered;
  }

  module _ (stable_key : ℕ → String → Scalar → String)
      (stable_tuple : ℕ → String → TupleKey → String) (dumps : Scalar → String)
      (decimal : ℕ → String) (seed : ℕ) where
    -- With fuel for the tuples that are left, the loop ends with a row for each of them.
    pub fill_rows-Filled :
        (fuel row_number : ℕ) (rows : List Assignment) (items : List FactorTuple)
        → length items ≤ fuel
        → Distinct domains
        → All (Permitted domains cs) items
        → (result : List Assignment) × (fill_rows stable_key stable_tuple dumps decimal seed fuel
              domains cs row_number rows items
            ≡ ok result)
          × Filled rows items result
    unfolding fill_rows
    fill_rows-Filled fuel row_number rows [] enough d p =
        (rows, refl, record { still = λ x k. k; valid = λ k. k; covered = tt })
    fill_rows-Filled zero row_number rows (item ∷ items) enough d p = absurd (omega arith)
    fill_rows-Filled (suc fuel) row_number rows (item ∷ items) enough d p =
        let number = decimal (row_number + 1) in
        let key = λ (t : FactorTuple).
          stable_tuple seed (append "target:" number)
            (map (λ (entry : String × Scalar). (entry.0, dumps entry.1)) t) in
        let target = min_by key item items in
        let ((proper, drawn), (b, completion)) =
          All-min_by (Permitted domains cs) key item items p.0 p.1 in
        elim (Option-cases (
          complete_assignment stable_key seed (append "row:" number) (item ∷ items) domains cs
            (dict target []))) [
              | inl missing ↦ absurd (
                  complete_assignment-none stable_key seed (append "row:" number) (item ∷ items) cs
                    domains (dict target []) b missing completion)
              | inr (row, found) ↦
                  let (e, chosen, allowed) =
                    complete_assignment-some stable_key seed (append "row:" number) (item ∷ items)
                      cs domains (dict target []) row d (dict-Consistent domains target d drawn)
                      found in
                  let covers =
                    covers-Extends target (dict target []) row e (dict-covers target [] proper) in
                  let uncovered = λ (t : FactorTuple). not (assignment_covers row t) in
                  let fewer = filter-min_by uncovered key item items (rw covers refl) in
                  let (result, q, f) =
                    fill_rows-Filled fuel (row_number + 1) (rows ++ row ∷ [])
                      (filter uncovered (item ∷ items)) (omega (arith, fewer)) d
                      (All-filter (Permitted domains cs) uncovered (item ∷ items) p) in
                  (
                    result,
                    rw (found, fill_rows) q,
                    add_row rows row (item ∷ items) result (chosen, allowed) f,
                  )
            ]
