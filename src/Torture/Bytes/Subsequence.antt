-- ===== src/Torture/Bytes/Subsequence.antt =====
-- lib/sippycup_torture/minimize.py: `_is_subsequence` decides the order-preserving embedding of
-- bytes, and `_delete_spans` only ever removes bytes.
use mathlib.Core.Path.{subst}
use mathlib.Core.Option.{some-injective}
use mathlib.Core.List.Sublistᴰ
use mathlib.Core.List.{Sublistᴰ}
use sippycup.Prelude.{
  ℕ, zero, suc, ◌≤◌, true, List, [], ◌∷◌, ◌++◌, some, ◌==◌, length, take, drop, ◌≡◌, ◌↔◌, refl, sym,
  arith, Bool-cases, Option-cases, inl, inr,
}
use sippycup.Torture.Bytes.{
  Span, delete_span, delete_all, delete_spans, sort_spans, seek, is_subsequence,
}

-- What `seek` leaves is the source after its first `value`.
seek-sound :
    (value : ℕ) (source rest xs : List ℕ)
    → seek value source ≡ some rest
    → Sublistᴰ xs rest
    → Sublistᴰ (value ∷ xs) source
unfolding seek
seek-sound value [] rest xs h s = cc
seek-sound value (y ∷ ys) rest xs h s = elim (Bool-cases (value == y)) [
  | inl same ↦
      Sublistᴰ.cons-cons (ground arith)
        (subst (Sublistᴰ xs) (some-injective _ _ (sym (rw same at h))) s)
  | inr other ↦ Sublistᴰ.cons (seek-sound value ys rest xs (rw other at h) s)
]

-- Any embedding goes through the first match.
seek_complete :
    (value : ℕ) (xs source : List ℕ)
    → Sublistᴰ (value ∷ xs) source
    → (rest : List ℕ) × (seek value source ≡ some rest) × Sublistᴰ xs rest
unfolding seek
seek_complete value xs [] s = cc (Sublistᴰ.eq-nil s)
seek_complete value xs (y ∷ ys) s = elim (Bool-cases (value == y)) [
  | inl same ↦ (
    ys,
    rw same refl,
    elim (Sublistᴰ.cases_cons-cons s) [
      | inl later ↦ Sublistᴰ.trans (Sublistᴰ.cons (Sublistᴰ.refl xs)) later
      | inr here ↦ here.1
    ],
  )
  | inr other ↦ elim (Sublistᴰ.cases_cons-cons s) [
    | inl later ↦ rw other (seek_complete value xs ys later)
    | inr here ↦ absurd (ground (arith, here.0))
  ]
]

-- The test on iterators holds exactly of the candidates that keep the source's order.
pub is_subsequence_iff :
    (candidate source : List ℕ)
    → (is_subsequence candidate source ≡ true) ↔ Sublistᴰ candidate source
unfolding is_subsequence
is_subsequence_iff [] source = (λ _. Sublistᴰ.nil-sublist source, λ _. refl)
is_subsequence_iff (x ∷ xs) source = elim (Option-cases (seek x source)) [
  | inl missing ↦ (
    λ h. cc (rw (missing, is_subsequence) at h),
    λ s. cc (missing, (seek_complete x xs source s).1),
  )
  | inr (rest, found) ↦ (
    λ h.
        seek-sound x source rest xs found
          ((is_subsequence_iff xs rest).0 (rw (found, is_subsequence) at h)),
    λ s.
        let (rest', found', t) = seek_complete x xs source s in
        rw (found', is_subsequence) ((is_subsequence_iff xs rest').1 t),
  )
]

drop-Sublist : (j : ℕ) (xs : List ℕ) → Sublistᴰ (drop j xs) xs
drop-Sublist zero xs = Sublistᴰ.refl xs
drop-Sublist (suc j) [] = Sublistᴰ.slnil
drop-Sublist (suc j) (x ∷ xs) = Sublistᴰ.cons (drop-Sublist j xs)

take-drop-Sublist : (i j : ℕ) (xs : List ℕ) → i ≤ j → Sublistᴰ (take i xs ++ drop j xs) xs
take-drop-Sublist zero j xs h = drop-Sublist j xs
take-drop-Sublist (suc i) zero xs h = absurd (omega arith)
take-drop-Sublist (suc i) (suc j) [] h = Sublistᴰ.slnil
take-drop-Sublist (suc i) (suc j) (x ∷ xs) h =
    Sublistᴰ.cons-cons refl (take-drop-Sublist i j xs (omega arith))

delete_span-Sublist : (xs : List ℕ) (s : Span) → Sublistᴰ (delete_span xs s) xs
unfolding delete_span
delete_span-Sublist xs s = take-drop-Sublist s.start _ xs (ground arith)

delete_all-Sublist : (xs : List ℕ) (ss : List Span) → Sublistᴰ (delete_all xs ss) xs
unfolding delete_all
delete_all-Sublist xs [] = Sublistᴰ.refl xs
delete_all-Sublist xs (s ∷ ss) =
    Sublistᴰ.trans (delete_all-Sublist (delete_span xs s) ss) (delete_span-Sublist xs s)

-- Deleting any spans leaves bytes of the data, in their order.
pub delete_spans-Sublist : (xs : List ℕ) (ss : List Span) → Sublistᴰ (delete_spans xs ss) xs
unfolding delete_spans
delete_spans-Sublist xs ss = delete_all-Sublist xs (sort_spans ss)

-- What remains is shorter unless it is all of the data.
pub length-Sublist : {xs ys : List ℕ} → Sublistᴰ xs ys → length xs ≤ length ys
length-Sublist Sublistᴰ.slnil = omega arith
length-Sublist (Sublistᴰ.cons s) = omega (arith, length-Sublist s)
length-Sublist (Sublistᴰ.cons-cons e s) = omega (arith, length-Sublist s)
