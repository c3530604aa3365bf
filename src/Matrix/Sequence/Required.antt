-- ===== src/Matrix/Sequence/Required.antt =====
-- lib/sippycup/covering.py, the required tuples of `generate_event_sequences`: those of the candidates.
use mathlib.Core.Path.{subst}
use sippycup.Prelude.{
  ℕ, zero, suc, ◌<◌, String, Bool, true, ◌||◌, List, [], ◌∷◌, ◌++◌, ◌≡◌, refl, sym, ◌∙◌, arith, leb,
  length, All, All-map, All-append, if◌then◌else◌, if_keeps, Bool-cases, inl, inr,
}
use sippycup.Matrix.Cover.{combinations, same_names}
use sippycup.Matrix.Sequence.{
  Sequences, contains_sequence, add_sequences, ordered_subsequences, required_of,
}
use sippycup.Matrix.Sequence.Candidates.{same_names_refl, same_names-eq, contains-last}
use sippycup.Matrix.Sequence.Greedy.{is_covered}
use sippycup.Matrix.Cover.Tuples.{any-append}

pub or_left : (a b : Bool) → a ≡ true → a || b ≡ true
or_left a b h = ground arith

or_right : (a b : Bool) → b ≡ true → a || b ≡ true
or_right a b h = ground arith

abbrev add_one : Sequences → List String → Sequences
add_one found m = if contains_sequence found m then found else found ++ m ∷ []

contains-add_one :
    (found : Sequences) (m s : List String)
    → contains_sequence found s ≡ true
    → contains_sequence (add_one found m) s ≡ true
contains-add_one found m s h = elim (Bool-cases (contains_sequence found m)) [
  | inl old ↦ rw old h
  | inr new ↦ rw new (any-append (same_names s) found (m ∷ []) ∙ rw h refl)
]

add_one-has : (found : Sequences) (m : List String) → contains_sequence (add_one found m) m ≡ true
add_one-has found m = elim (Bool-cases (contains_sequence found m)) [
  | inl old ↦ rw old old
  | inr new ↦ rw new (contains-last found m)
]

pub contains-add :
    (more found : Sequences) (s : List String)
    → contains_sequence more s || contains_sequence found s ≡ true
    → contains_sequence (add_sequences more found) s ≡ true
contains-add [] found s h = ground arith
contains-add (m ∷ more) found s h =
    contains-add more (add_one found m) s (elim (Bool-cases (same_names s m)) [
      | inl same ↦ or_right (contains_sequence more s) (contains_sequence (add_one found m) s) (
          subst (λ x. contains_sequence (add_one found m) x ≡ true) (sym (same_names-eq s m same))
            (add_one-has found m))
      | inr other ↦ elim (Bool-cases (contains_sequence more s)) [
        | inl e ↦ rw e refl
        | inr e ↦
            or_right (contains_sequence more s) (contains_sequence (add_one found m) s)
              (contains-add_one found m s (rw (other, e) at h))
      ]
    ])

pub All-add {κ} :
    (P : List String → Type κ) (more found : Sequences)
    → All P more
    → All P found
    → All P (add_sequences more found)
All-add P [] found h k = k
All-add P (m ∷ more) found h k =
    All-add P more (if contains_sequence found m then found else found ++ m ∷ []) h.1
      (if_keeps (All P) (contains_sequence found m) k (All-append P found (m ∷ []) k (h.0, tt)))

-- A subsequence is not longer than its sequence.
pub combinations-short : (n : ℕ) (s : List String) → length s < n → combinations n s ≡ []
combinations-short zero s h = absurd (omega arith)
combinations-short (suc n) [] h = refl
combinations-short (suc n) (a ∷ s) h =
    rw (combinations-short n s (omega arith), combinations-short (suc n) s (omega arith)) refl

abbrev add_item : ℕ → Sequences → List String → Sequences
add_item strength found item =
    if leb strength (length item)
    then add_sequences (ordered_subsequences item strength) found
    else found

contains-add_item :
    (strength : ℕ) (found : Sequences) (item t : List String)
    → contains_sequence (ordered_subsequences item strength) t || contains_sequence found t ≡ true
    → contains_sequence (add_item strength found item) t ≡ true
contains-add_item strength found item t h = elim (Bool-cases (leb strength (length item))) [
  | inl long ↦ rw long (contains-add (ordered_subsequences item strength) found t h)
  | inr short ↦
      let none_there = combinations-short strength item (ground arith) in
      rw short (rw none_there at h)
]

required_of-still :
    (strength : ℕ) (items found : Sequences) (t : List String)
    → contains_sequence found t ≡ true
    → contains_sequence (required_of strength items found) t ≡ true
unfolding required_of
required_of-still strength [] found t h = h
required_of-still strength (item ∷ items) found t h =
    required_of-still strength items (add_item strength found item) t (
      contains-add_item strength found item t (
        or_right (contains_sequence (ordered_subsequences item strength) t)
          (contains_sequence found t) h))

pub contains-required :
    (strength : ℕ) (items found : Sequences) (s t : List String)
    → contains_sequence items s ≡ true
    → contains_sequence (ordered_subsequences s strength) t ≡ true
    → contains_sequence (required_of strength items found) t ≡ true
unfolding required_of
contains-required strength [] found s t one sub = cc one
contains-required strength (item ∷ items) found s t one sub =
    elim (Bool-cases (same_names s item)) [
      | inl same ↦ required_of-still strength items (add_item strength found item) t (
          contains-add_item strength found item t (
            or_left (contains_sequence (ordered_subsequences item strength) t)
              (contains_sequence found t)
              (subst (λ x. contains_sequence (ordered_subsequences x strength) t ≡ true)
                (same_names-eq s item same) sub)))
      | inr other ↦
          contains-required strength items (add_item strength found item) s t (rw other at one) sub
    ]

pub All-required {κ} :
    (P : List String → Type κ) (strength : ℕ) (items found : Sequences)
    → All (λ item. All P (ordered_subsequences item strength)) items
    → All P found
    → All P (required_of strength items found)
unfolding required_of
All-required P strength [] found h k = k
All-required P strength (item ∷ items) found h k =
    All-required P strength items
      (if leb strength (length item)
        then add_sequences (ordered_subsequences item strength) found
        else found)
      h.1
      (if_keeps (All P) (leb strength (length item))
        (All-add P (ordered_subsequences item strength) found h.0 k) k)

pub All-contains {κ} :
    (P : List String → Type κ) (x : List String) (items : Sequences)
    → contains_sequence items x ≡ true
    → All P items
    → P x
All-contains P x [] h a = cc
All-contains P x (item ∷ items) h a = elim (Bool-cases (same_names x item)) [
  | inl same ↦ subst P (sym (same_names-eq x item same)) a.0
  | inr other ↦ All-contains P x items (rw other at h) a.1
]

pub contains_self : (xs : Sequences) → All (λ x. contains_sequence xs x ≡ true) xs
contains_self [] = tt
contains_self (x ∷ xs) = (
  rw (same_names_refl x) refl,
  All-map _ _ xs (λ y k. or_right (same_names y x) (contains_sequence xs y) k) (contains_self xs),
)

-- A candidate covers its own subsequences.
covered-member :
    (strength : ℕ) (items : Sequences) (item t : List String)
    → contains_sequence items item ≡ true
    → contains_sequence (ordered_subsequences item strength) t ≡ true
    → is_covered strength items t ≡ true
covered-member strength [] item t h k = cc h
covered-member strength (x ∷ items) item t h k = elim (Bool-cases (same_names item x)) [
  | inl same ↦
      rw
        (subst (λ y. contains_sequence (ordered_subsequences y strength) t ≡ true)
          (same_names-eq item x same) k)
        refl
  | inr other ↦
      or_right (contains_sequence (ordered_subsequences x strength) t) (is_covered strength items t)
        (covered-member strength items item t (rw other at h) k)
]

pub candidates-covered :
    (strength : ℕ) (items : Sequences)
    → All
        (λ item. All (λ t. is_covered strength items t ≡ true) (ordered_subsequences item strength))
        items
candidates-covered strength items =
    All-map (λ item. contains_sequence items item ≡ true)
      (λ item. All (λ t. is_covered strength items t ≡ true) (ordered_subsequences item strength))
      items
      (λ item k.
        All-map (λ t. contains_sequence (ordered_subsequences item strength) t ≡ true)
          (λ t. is_covered strength items t ≡ true) (ordered_subsequences item strength)
          (λ t e. covered-member strength items item t k e)
          (contains_self (ordered_subsequences item strength)))
      (contains_self items)
