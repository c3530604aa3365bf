-- ===== src/Matrix/Satisfiable/Exact.antt =====
-- lib/sippycup/campaign.py, `_matrix_satisfiable`: the search finds an assignment exactly if there
-- is one.
use mathlib.Core.Path.{subst}
use sippycup.Prelude.{
  ℕ, ◌+◌, String, Bool, true, false, List, [], ◌∷◌, Option, none, some, Result, ok, guard, ◌≡◌, ◌↔◌,
  refl, sym, ap, ◌∙◌, arith, str_eq, eq_iff, leb, All, sort_by, All-sort_by, All-insert_sorted,
  insert_sorted, get, put, get-put, Bool-cases, inl, inr, bind-elim, ok-injective,
}
use sippycup.Matrix.Constraint.{
  Scalar, text, number, same_scalar, Assignment, is_one_of, Constraint,
}
use sippycup.Matrix.Constraint.Monotone.{Extends, allowed-Extends}
use sippycup.Matrix.Satisfiable.{
  ManifestError, too_many_states, max_sat_states, Domain, domain_before, all_allow, try_values,
  search_states, matrix_satisfiable,
}

pub same_scalar-eq : (a b : Scalar) → same_scalar a b ≡ true → a ≡ b
unfolding same_scalar
same_scalar-eq (text a) (text b) h = ground (arith, eq_iff a b)
same_scalar-eq (number a) (number b) h = ground arith
same_scalar-eq (text a) (number b) h = cc
same_scalar-eq (number a) (text b) h = cc

pub same_scalar_refl : (a : Scalar) → same_scalar a a ≡ true
unfolding same_scalar
same_scalar_refl (text a) = (eq_iff a a).1 refl
same_scalar_refl (number a) = ground arith

-- The assignment gives a factor a value of its domain.
abbrev pub Chooses : Assignment → Domain → Type 0
Chooses b d = (v : Scalar) × (get d.0 b ≡ some v) × (is_one_of d.1 v ≡ true)

-- An assignment of all the factors that every constraint allows.
unfoldable pub Satisfiable : List Domain → List Constraint → Type 0
Satisfiable domains cs = (b : Assignment) × All (Chooses b) domains × (all_allow cs b ≡ true)

-- The verdict of one attempt, kept apart from its count of states.
answer :
    {r : Result ManifestError (Bool × ℕ)} (found : Bool × ℕ) {b : Bool}
    → r ≡ ok found
    → found.0 ≡ b
    → r ≡ ok (b, found.1)
answer found p e = p ∙ ap (λ t. ok (t, found.1)) e

try_values-false :
    (f : Scalar → ℕ → Result ManifestError (Bool × ℕ)) (vs : List Scalar) (v : Scalar) (n m : ℕ)
    → try_values f vs n ≡ ok (false, m)
    → is_one_of vs v ≡ true
    → (i j : ℕ) × (f v i ≡ ok (false, j))
unfolding try_values
try_values-false f [] v n m h k = cc
try_values-false f (w ∷ vs) v n m h k = bind-elim (f w n) _ h (λ found p h1.
    elim (Bool-cases found.0) [
      | inl yes_found ↦ cc (rw yes_found at h1)
      | inr no_found ↦ elim (Bool-cases (same_scalar w v)) [
        | inl same ↦ (
          n,
          found.1,
          subst (λ u. f u n ≡ ok (false, found.1)) (same_scalar-eq w v same)
              (answer found p no_found),
        )
        | inr other ↦ try_values-false f vs v found.1 m (rw no_found at h1) (ground arith)
      ]
    ])

try_values-true :
    (f : Scalar → ℕ → Result ManifestError (Bool × ℕ)) (vs : List Scalar) (n m : ℕ)
    → try_values f vs n ≡ ok (true, m)
    → (v : Scalar) × (is_one_of vs v ≡ true) × (i j : ℕ) × (f v i ≡ ok (true, j))
unfolding try_values
try_values-true f [] n m h = cc
try_values-true f (w ∷ vs) n m h = bind-elim (f w n) _ h (λ found p h1. elim (Bool-cases found.0) [
  | inl yes_found ↦ (w, rw same_scalar_refl refl, n, found.1, answer found p yes_found)
  | inr no_found ↦
      let (v, one, i, j, q) = try_values-true f vs found.1 m (rw no_found at h1) in
      (v, ground arith, i, j, q)
])

pub Extends-put :
    (b a : Assignment) (factor : String) (v : Scalar)
    → Extends b a
    → get factor b ≡ some v
    → Extends b (put factor v a)
Extends-put b a factor v e h g w k = elim (Bool-cases (str_eq factor g)) [
  | inl same ↦
      let named : factor ≡ g = (eq_iff factor g).0 same in
      subst (λ n. get n b ≡ some w) named (h ∙ (rw same at (sym (get-put g factor v a) ∙ k)))
  | inr other ↦ e g w (rw other at (sym (get-put g factor v a) ∙ k))
]

-- A search that finds nothing leaves no assignment out.
search_states-false :
    (cs : List Constraint) (ds : List Domain) (a b : Assignment) (n m : ℕ)
    → search_states cs ds a n ≡ ok (false, m)
    → Extends b a
    → All (Chooses b) ds
    → all_allow cs b ≡ true
    → ⊥
unfolding search_states
search_states-false cs [] a b n m h e t k =
    bind-elim (guard (leb (n + 1) max_sat_states) too_many_states) _ h
      (λ u p h1. cc (allowed-Extends cs a b e k, h1))
search_states-false cs ((factor, domain) ∷ rest) a b n m h e ((v, chosen, one), t) k =
    bind-elim (guard (leb (n + 1) max_sat_states) too_many_states) _ h (λ u p h1.
      let (i, j, q) =
        try_values-false (λ w. search_states cs rest (put factor w a)) domain v (n + 1) m
          (rw (allowed-Extends cs a b e k) at h1) one in
      search_states-false cs rest (put factor v a) b i j q (Extends-put b a factor v e chosen) t k)

-- The factors of a dictionary differ.
unfoldable pub Distinct : List Domain → Type 0
Distinct [] = Unit
Distinct (d ∷ ds) = All (λ (e : Domain). str_eq d.0 e.0 ≡ false) ds × Distinct ds

-- None of the factors has a value yet.
abbrev pub Fresh : Assignment → List Domain → Type 0
Fresh a ds = All (λ (d : Domain). get d.0 a ≡ none) ds

pub Fresh-put :
    (a : Assignment) (factor : String) (v : Scalar) (ds : List Domain)
    → All (λ (e : Domain). str_eq factor e.0 ≡ false) ds
    → Fresh a ds
    → Fresh (put factor v a) ds
Fresh-put a factor v [] d f = tt
Fresh-put a factor v (e ∷ ds) d f =
    (get-put e.0 factor v a ∙ rw d.0 f.0, Fresh-put a factor v ds d.1 f.1)

pub Extends-unput :
    (b a : Assignment) (factor : String) (v : Scalar)
    → get factor a ≡ none
    → Extends b (put factor v a)
    → Extends b a
Extends-unput b a factor v fresh e g w k = elim (Bool-cases (str_eq factor g)) [
  | inl same ↦
      absurd (some-none (sym k ∙ ap (λ n. get n a) (sym ((eq_iff factor g).0 same)) ∙ fresh))
  | inr other ↦ e g w (get-put g factor v a ∙ rw other k)
]
  where
    some-none : {x : Scalar} → ◌≡◌ {A = Option Scalar} (some x) none → ⊥
    some-none h = cc

-- An assignment that extends this one, gives every factor a value, and is allowed.
abbrev pub Completion : List Constraint → List Domain → Assignment → Assignment → Type 0
Completion cs ds a b = Extends b a × All (Chooses b) ds × (all_allow cs b ≡ true)

-- What a search finds is an assignment.
search_states-true :
    (cs : List Constraint) (ds : List Domain) (a : Assignment) (n m : ℕ)
    → search_states cs ds a n ≡ ok (true, m)
    → Fresh a ds
    → Distinct ds
    → (b : Assignment) × Completion cs ds a b
unfolding search_states Distinct
search_states-true cs [] a n m h f d =
    bind-elim (guard (leb (n + 1) max_sat_states) too_many_states) _ h
      (λ u p h1. (a, ((λ g w k. k), tt, cc h1)))
search_states-true cs ((factor, domain) ∷ rest) a n m h f d =
    bind-elim (guard (leb (n + 1) max_sat_states) too_many_states) _ h (λ u p h1.
      elim (Bool-cases (all_allow cs a)) [
        | inr refused ↦ cc (rw refused at h1)
        | inl allowed ↦
            let (v, one, i, j, q) =
              try_values-true (λ w. search_states cs rest (put factor w a)) domain (n + 1) m
                (rw allowed at h1) in
            let (b, (e, t, k)) =
              search_states-true cs rest (put factor v a) i j q (Fresh-put a factor v rest d.0 f.1)
                d.1 in
            let chosen : get factor b ≡ some v =
              e factor v (get-put factor factor v a ∙ rw ((eq_iff factor factor).1 refl) refl) in
            (b, (Extends-unput b a factor v f.0 e, ((v, chosen, one), t), k))
      ])

Distinct-insert_sorted :
    (d : Domain) (ds : List Domain)
    → All (λ (e : Domain). str_eq d.0 e.0 ≡ false) ds
    → Distinct ds
    → Distinct (insert_sorted domain_before d ds)
unfolding insert_sorted Distinct
Distinct-insert_sorted d [] f g = (tt, tt)
Distinct-insert_sorted d (e ∷ ds) f g = elim (Bool-cases (domain_before d e)) [
  | inl first ↦ rw first ((f.0, f.1), (g.0, g.1))
  | inr second ↦
      let apart : str_eq e.0 d.0 ≡ false = ground (arith, eq_iff e.0 d.0, eq_iff d.0 e.0) in
      let others : All (λ (o : Domain). str_eq e.0 o.0 ≡ false) (insert_sorted domain_before d ds) =
        (All-insert_sorted domain_before (λ (o : Domain). str_eq e.0 o.0 ≡ false) d ds).1
          (apart, g.0) in
      rw second ((others, Distinct-insert_sorted d ds f.1 g.1))
]

pub Distinct-sort_by : (ds : List Domain) → Distinct ds → Distinct (sort_by domain_before ds)
unfolding sort_by Distinct
Distinct-sort_by [] d = tt
Distinct-sort_by (e ∷ ds) d =
    Distinct-insert_sorted e (sort_by domain_before ds)
      ((All-sort_by domain_before (λ (o : Domain). str_eq e.0 o.0 ≡ false) ds).1 d.0)
      (Distinct-sort_by ds d.1)

Fresh-empty : (ds : List Domain) → Fresh [] ds
unfolding get
Fresh-empty [] = tt
Fresh-empty (d ∷ ds) = (refl, Fresh-empty ds)

pub Extends-empty : (b : Assignment) → Extends b []
unfolding get
Extends-empty b g w k = cc k

-- For a dictionary of domains, the verdict of the search is whether an assignment of all the
-- factors is allowed.
pub matrix_satisfiable_iff :
    (domains : List Domain) (cs : List Constraint) (r : Bool)
    → Distinct domains
    → matrix_satisfiable domains cs ≡ ok r
    → (r ≡ true) ↔ Satisfiable domains cs
unfolding matrix_satisfiable Satisfiable
matrix_satisfiable_iff domains cs true d h =
    bind-elim (search_states cs (sort_by domain_before domains) [] 0) _ h (λ found p h1.
      let (b, (e, t, k)) =
        search_states-true cs (sort_by domain_before domains) [] 0 found.1
          (answer found p (ok-injective h1)) (Fresh-empty _) (Distinct-sort_by domains d) in
      (λ _. (b, (All-sort_by domain_before (Chooses b) domains).0 t, k), λ _. refl))
matrix_satisfiable_iff domains cs false d h =
    bind-elim (search_states cs (sort_by domain_before domains) [] 0) _ h (λ found p h1. (
      λ absurdity. cc absurdity,
      λ s. absurd (
          search_states-false cs (sort_by domain_before domains) [] s.0 0 found.1
            (answer found p (ok-injective h1)) (Extends-empty s.0)
            ((All-sort_by domain_before (Chooses s.0) domains).1 s.1) s.2),
    ))
