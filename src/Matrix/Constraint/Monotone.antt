-- ===== src/Matrix/Constraint/Monotone.antt =====
-- lib/sippycup/campaign.py: what a constraint refuses on a part of an assignment, it refuses on all
-- of it. This is why the searches may give up early.
use sippycup.Prelude.{
  String, Bool, true, false, List, [], ◌∷◌, some, ◌≡◌, refl, arith, get, all, Bool-cases,
  Option-cases, inl, inr,
}
use sippycup.Matrix.Constraint.{
  Scalar, Assignment, Predicate, is_one_of, predicate_from, Form, require, exclude, implies,
  Constraint, form_allows, constraint_allows,
}

-- The assignment `b` agrees with `a` wherever `a` has a value.
abbrev pub Extends : Assignment → Assignment → Type 0
Extends b a = (factor : String) (v : Scalar) → get factor a ≡ some v → get factor b ≡ some v

predicate_from-false :
    (u u' : Bool) (p : Predicate) (a b : Assignment)
    → Extends b a
    → predicate_from u p a ≡ some false
    → predicate_from u' p b ≡ some false
unfolding predicate_from
predicate_from-false u u' [] a b e h = ground arith
predicate_from-false u u' ((factor, allowed) ∷ rest) a b e h = elim (Option-cases (get factor a)) [
  | inl open_a ↦ elim (Option-cases (get factor b)) [
    | inl open_b ↦
        rw (open_b, predicate_from)
          (predicate_from-false true true rest a b e (rw (open_a, predicate_from) at h))
    | inr (v, known) ↦ elim (Bool-cases (is_one_of allowed v)) [
      | inl yes_v ↦
          rw (known, yes_v, predicate_from)
            (predicate_from-false true u' rest a b e (rw (open_a, predicate_from) at h))
      | inr no_v ↦ rw (known, no_v, predicate_from) refl
    ]
  ]
  | inr (v, known) ↦ elim (Bool-cases (is_one_of allowed v)) [
    | inl yes_v ↦
        rw (e factor v known, yes_v, predicate_from)
          (predicate_from-false u u' rest a b e (rw (known, yes_v, predicate_from) at h))
    | inr no_v ↦ rw (e factor v known, no_v, predicate_from) refl
  ]
]

predicate_from-open : (p : Predicate) (a : Assignment) → predicate_from true p a ≡ some true → ⊥
unfolding predicate_from
predicate_from-open [] a h = ground arith
predicate_from-open ((factor, allowed) ∷ rest) a h = elim (Option-cases (get factor a)) [
  | inl open_a ↦ predicate_from-open rest a (rw (open_a, predicate_from) at h)
  | inr (v, known) ↦ elim (Bool-cases (is_one_of allowed v)) [
    | inl yes_v ↦ predicate_from-open rest a (rw (known, yes_v, predicate_from) at h)
    | inr no_v ↦ cc (rw (known, no_v, predicate_from) at h)
  ]
]

predicate_from-true :
    (p : Predicate) (a b : Assignment)
    → Extends b a
    → predicate_from false p a ≡ some true
    → predicate_from false p b ≡ some true
unfolding predicate_from
predicate_from-true [] a b e h = refl
predicate_from-true ((factor, allowed) ∷ rest) a b e h = elim (Option-cases (get factor a)) [
  | inl open_a ↦ absurd (predicate_from-open rest a (rw (open_a, predicate_from) at h))
  | inr (v, known) ↦ elim (Bool-cases (is_one_of allowed v)) [
    | inl yes_v ↦
        rw (e factor v known, yes_v, predicate_from)
          (predicate_from-true rest a b e (rw (known, yes_v, predicate_from) at h))
    | inr no_v ↦ cc (rw (known, no_v, predicate_from) at h)
  ]
]

form_allows-Extends :
    (f : Form) (a b : Assignment) → Extends b a → form_allows f b ≡ true → form_allows f a ≡ true
unfolding form_allows
form_allows-Extends (require p) a b e h = ground (arith, predicate_from-false false false p a b e)
form_allows-Extends (exclude p) a b e h = ground (arith, predicate_from-true p a b e)
form_allows-Extends (implies p q) a b e h =
    ground (arith, predicate_from-true p a b e, predicate_from-false false false q a b e)

-- Constraints that allow an assignment allow every part of it.
pub allowed-Extends :
    (cs : List Constraint) (a b : Assignment)
    → Extends b a
    → all (λ c. constraint_allows c b) cs ≡ true
    → all (λ c. constraint_allows c a) cs ≡ true
allowed-Extends [] a b e h = refl
allowed-Extends (c ∷ cs) a b e h =
    ground (arith, form_allows-Extends c.form a b e, allowed-Extends cs a b e)
