-- ===== src/Matrix/Sequence/Greedy.antt =====
-- lib/sippycup/covering.py, the selection of `generate_event_sequences`: every round covers a tuple, so
-- that the loop ends.
use Prim.Native.String.{◌++◌ as append}
use sippycup.Prelude.{
  ℕ, zero, suc, ◌+◌, ◌≤◌, String, Bool, true, false, ◌&&◌, ◌||◌, not, List, [], ◌∷◌, ◌++◌, ok, ◌≡◌,
  refl, ◌∙◌, arith, leb, ltb, ◌==◌, length, any, All, All-append, if◌then◌else◌, if_keeps,
  Bool-cases, inl, inr,
}
use sippycup.Matrix.Satisfiable.{text_le}
use sippycup.Matrix.Cover.{filter}
use sippycup.Matrix.Cover.Complete.{All-filter}
use sippycup.Matrix.Cover.Rows.{All-unfilter}
use sippycup.Matrix.Cover.Tuples.{any-append}
use sippycup.Matrix.Sequence.{
  Sequences, contains_sequence, ordered_subsequences, score, max_by, select,
}

filter-split {ℓ} :
    {A : Type ℓ} (p : A → Bool) (xs : List A)
    → length (filter (λ x. not (p x)) xs) + length (filter p xs) ≡ length xs
filter-split p [] = omega arith
filter-split p (x ∷ xs) = ground (arith, filter-split p xs)

higher :
    (rank : List String → ℕ) (best item : List String) (tied : Bool)
    → let next =
        if leb (rank item) (rank best) && (ltb (rank item) (rank best) || tied)
        then best
        else item in
      (rank best ≤ rank next) × (rank item ≤ rank next)
higher rank best item tied =
    elim (Bool-cases (leb (rank item) (rank best) && (ltb (rank item) (rank best) || tied))) [
      | inl e ↦ rw e ((omega arith, ground arith))
      | inr e ↦ rw e ((ground arith, omega arith))
    ]

-- No item ranks higher than the maximum.
max_by-IsGreatest :
    (rank : List String → ℕ) (tie : List String → String) (best : List String) (items : Sequences)
    → All (λ x. rank x ≤ rank (max_by rank tie best items)) (best ∷ items)
max_by-IsGreatest rank tie best [] = (omega arith, tt)
max_by-IsGreatest rank tie best (item ∷ items) =
    let better =
      leb (rank item) (rank best)
      && (ltb (rank item) (rank best) || text_le (tie item) (tie best)) in
    let next = if better then best else item in
    let rest = max_by-IsGreatest rank tie next items in
    let above = higher rank best item (text_le (tie item) (tie best)) in
    (omega (arith, rest.0, above.0), (omega (arith, rest.0, above.1), rest.1))

All-max_by {κ} :
    (P : List String → Type κ) (rank : List String → ℕ) (tie : List String → String)
    (best : List String) (items : Sequences)
    → P best
    → All P items
    → P (max_by rank tie best items)
All-max_by P rank tie best [] p h = p
All-max_by P rank tie best (item ∷ items) p h =
    let better =
      leb (rank item) (rank best)
      && (ltb (rank item) (rank best) || text_le (tie item) (tie best)) in
    All-max_by P rank tie (if better then best else item) items (if_keeps P better p h.0) h.1

some_rank :
    (p : List String → Bool) (rank : List String → ℕ) (k : ℕ) (xs : Sequences)
    → ((x : List String) → p x ≡ true → 1 ≤ rank x)
    → any p xs ≡ true
    → All (λ x. rank x ≤ k) xs
    → 1 ≤ k
some_rank p rank k [] f h a = cc
some_rank p rank k (x ∷ xs) f h a = elim (Bool-cases (p x)) [
  | inl e ↦ omega (arith, f x e, a.0)
  | inr e ↦ some_rank p rank k xs f (rw e at h) a.1
]

-- One of the sequences has the tuple as an ordered subsequence.
abbrev pub is_covered : ℕ → Sequences → List String → Bool
is_covered strength sequences t =
    any (λ s. contains_sequence (ordered_subsequences s strength) t) sequences

pub record Selected (strength : ℕ) (candidates selected uncovered result : Sequences) : Type 1 where
  pub still :
      (t : List String)
      → is_covered strength selected t ≡ true
      → is_covered strength result t ≡ true
  pub covered : All (λ t. is_covered strength result t ≡ true) uncovered
  pub chosen : (P : List String → Type 0) → All P candidates → All P selected → All P result

counted :
    (p : List String → Bool) (t : List String) (rest : Sequences)
    → p t ≡ true
    → 1 ≤ length (filter p (t ∷ rest))
counted p t rest e = rw e (omega arith)

not_zero : (n : ℕ) → 1 ≤ n → (n == 0) ≡ false
not_zero n h = ground arith

last_covers : (a b : Bool) → not b ≡ false → a || (b || false) ≡ true
last_covers a b h = ground arith

Selected-add :
    (strength : ℕ) (c : List String) (candidates selected uncovered result : Sequences)
    (best : List String)
    → ((P : List String → Type 0) → P c → All P candidates → P best)
    → Selected strength
        (c ∷ candidates)
        (selected ++ best ∷ [])
        (filter (λ u. not (contains_sequence (ordered_subsequences best strength) u)) uncovered)
        result
    → Selected strength (c ∷ candidates) selected uncovered result
Selected-add strength c candidates selected uncovered result best is_candidate s =
    let holds = λ (t x : List String). contains_sequence (ordered_subsequences x strength) t in
    record {
      still = λ t k. s.still t (any-append (holds t) selected (best ∷ []) ∙ rw k refl);
      covered =
          All-unfilter (λ t. is_covered strength result t ≡ true) (λ u. not (holds u best))
            uncovered
            (λ t k. s.still t (
              any-append (holds t) selected (best ∷ [])
              ∙ last_covers (any (holds t) selected) (holds t best) k))
            s.covered;
      chosen =
          λ P h k. s.chosen P h (All-append P selected (best ∷ []) k (is_candidate P h.0 h.1, tt));
    }

module _ (stable_key : ℕ → String → List String → String) (decimal : ℕ → String) (seed : ℕ) where
  pub select-Selected :
      (fuel strength : ℕ) (candidates selected uncovered : Sequences)
      → length uncovered ≤ fuel
      → All (λ t. is_covered strength candidates t ≡ true) uncovered
      → (result : Sequences) × (select stable_key decimal seed fuel strength candidates selected
            uncovered
          ≡ ok result)
        × Selected strength candidates selected uncovered result
  unfolding select
  select-Selected fuel strength candidates selected [] enough a =
      (selected, refl, record { still = λ t k. k; covered = tt; chosen = λ P c s. s })
  select-Selected zero strength candidates selected (t ∷ uncovered) enough a = absurd (omega arith)
  select-Selected (suc fuel) strength [] selected (t ∷ uncovered) enough a = cc (a.0)
  select-Selected (suc fuel) strength (c ∷ candidates) selected (t ∷ uncovered) enough a =
      let rank = score strength (t ∷ uncovered) in
      let tie = stable_key seed (append "sequence:" (decimal (length selected))) in
      let best = max_by rank tie c candidates in
      let covers = contains_sequence (ordered_subsequences best strength) in
      let some_new : 1 ≤ rank best =
        some_rank (λ s. contains_sequence (ordered_subsequences s strength) t) rank (rank best)
          (c ∷ candidates)
          (λ x e. counted (contains_sequence (ordered_subsequences x strength)) t uncovered e) a.0
          (max_by-IsGreatest rank tie c candidates) in
      let fewer = filter-split covers (t ∷ uncovered) in
      let (result, p, s) =
        select-Selected fuel strength (c ∷ candidates) (selected ++ best ∷ [])
          (filter (λ u. not (covers u)) (t ∷ uncovered)) (omega (arith, fewer, some_new))
          (All-filter (λ u. is_covered strength (c ∷ candidates) u ≡ true) (λ u. not (covers u))
            (t ∷ uncovered) a) in
      let positive : (rank best == 0) ≡ false = not_zero (rank best) some_new in
      (
        result,
        rw (positive, select) p,
        Selected-add strength c candidates selected (t ∷ uncovered) result best
            (λ P h k. All-max_by P rank tie c candidates h k) s,
      )
