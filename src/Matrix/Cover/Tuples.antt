-- ===== src/Matrix/Cover/Tuples.antt =====
-- lib/sippycup/covering.py: tuples as assignments (`dict(item)`, `_assignment_covers`), and the product
-- of the domains of a subset.
use mathlib.Core.Option.{some-injective}
use sippycup.Prelude.{
  String, Bool, true, false, ◌||◌, List, [], ◌∷◌, ◌++◌, Option, none, some, ◌≡◌, refl, sym, ap, ◌∙◌,
  arith, str_eq, eq_iff, any, All, All-map, get, put, get-put, Bool-cases, inl, inr,
}
use sippycup.Matrix.Constraint.{Scalar, Assignment, is_one_of}
use sippycup.Matrix.Constraint.Monotone.{Extends}
use sippycup.Matrix.Satisfiable.{Domain}
use sippycup.Matrix.Satisfiable.Exact.{same_scalar-eq, same_scalar_refl, Distinct, Extends-put}
use sippycup.Matrix.Cover.{FactorTuple, is_value, assignment_covers, dict, same_tuple}
use sippycup.Matrix.Cover.Complete.{Consistent}

abbrev pub has : FactorTuple → List FactorTuple → Bool
has item items = any (same_tuple item) items

pub same_tuple_refl : (a : FactorTuple) → same_tuple a a ≡ true
same_tuple_refl [] = refl
same_tuple_refl ((f, v) ∷ a) = rw ((eq_iff f f).1 refl, same_scalar_refl v, same_tuple_refl a) refl

pub same_tuple-eq : (a b : FactorTuple) → same_tuple a b ≡ true → a ≡ b
same_tuple-eq [] [] h = refl
same_tuple-eq [] (y ∷ b) h = cc
same_tuple-eq (x ∷ a) [] h = cc
same_tuple-eq ((f, v) ∷ a) ((g, w) ∷ b) h =
    let names : f ≡ g = ground (arith, eq_iff f g) in
    let values : v ≡ w = same_scalar-eq v w (ground arith) in
    let rest : a ≡ b = same_tuple-eq a b (ground arith) in rw (names, values, rest) refl

pub any-append {ℓ} :
    {A : Type ℓ} (p : A → Bool) (xs ys : List A) → any p (xs ++ ys) ≡ any p xs || any p ys
any-append p [] ys = refl
any-append p (x ∷ xs) ys = ground (arith, any-append p xs ys)

pub is_value-eq : (o : Option Scalar) (v : Scalar) → is_value o v ≡ true → o ≡ some v
is_value-eq none v h = cc
is_value-eq (some w) v h = ap some (same_scalar-eq w v h)

-- The factors of a tuple differ.
unfoldable pub Proper : FactorTuple → Type 0
Proper [] = Unit
Proper (x ∷ item) = All (λ (y : String × Scalar). str_eq x.0 y.0 ≡ false) item × Proper item

dict-other :
    (f : String) (item : FactorTuple) (a : Assignment)
    → All (λ (y : String × Scalar). str_eq f y.0 ≡ false) item
    → get f (dict item a) ≡ get f a
unfolding dict
dict-other f [] a h = refl
dict-other f ((g, w) ∷ item) a h =
    let apart : str_eq g f ≡ false = ground (arith, eq_iff f g, eq_iff g f, h.0) in
    dict-other f item (put g w a) h.1 ∙ get-put f g w a ∙ rw apart refl

-- A tuple whose factors differ is covered by its dictionary.
pub dict-covers :
    (item : FactorTuple) (a : Assignment)
    → Proper item
    → assignment_covers (dict item a) item ≡ true
unfolding assignment_covers dict Proper
dict-covers [] a p = refl
dict-covers ((f, v) ∷ item) a p =
    let own : get f (dict item (put f v a)) ≡ some v =
      dict-other f item (put f v a) p.0 ∙ get-put f f v a ∙ rw ((eq_iff f f).1 refl) refl in
    rw (own, same_scalar_refl v) (dict-covers item (put f v a) p.1)

-- An assignment covers what a part of it covers.
pub covers-Extends :
    (item : FactorTuple) (a b : Assignment)
    → Extends b a
    → assignment_covers a item ≡ true
    → assignment_covers b item ≡ true
unfolding assignment_covers
covers-Extends [] a b e h = refl
covers-Extends ((f, v) ∷ item) a b e h =
    let known : get f a ≡ some v = is_value-eq (get f a) v (ground arith) in
    rw (e f v known, same_scalar_refl v) (covers-Extends item a b e (ground arith))

-- An assignment that covers a tuple extends its dictionary.
pub covers-Extends-dict :
    (item : FactorTuple) (a b : Assignment)
    → Extends b a
    → assignment_covers b item ≡ true
    → Extends b (dict item a)
unfolding assignment_covers dict
covers-Extends-dict [] a b e h = e
covers-Extends-dict ((f, v) ∷ item) a b e h =
    covers-Extends-dict item (put f v a) b
      (Extends-put b a f v e (is_value-eq (get f b) v (ground arith))) (ground arith)

-- Each value of the tuple is in the domain of its factor.
abbrev pub Drawn : List Domain → FactorTuple → Type 0
Drawn domains item =
    All
      (λ (x : String × Scalar).
        (d : List Scalar) × (get x.0 domains ≡ some d) × (is_one_of d x.1 ≡ true))
      item

abbrev Within : List Domain → Assignment → Type 0
Within domains a =
    (f : String) (d : List Scalar) (v : Scalar)
    → get f domains ≡ some d
    → get f a ≡ some v
    → is_one_of d v ≡ true

dict-Within :
    (domains : List Domain) (item : FactorTuple) (a : Assignment)
    → Drawn domains item
    → Within domains a
    → Within domains (dict item a)
unfolding dict
dict-Within domains [] a h w = w
dict-Within domains ((g, u) ∷ item) a ((d', known, one), t) w =
    dict-Within domains item (put g u a) t (λ f d v p q. elim (Bool-cases (str_eq g f)) [
      | inl same ↦
          let named : g ≡ f = (eq_iff g f).0 same in
          let value : u ≡ v = some-injective _ _ (rw same at (sym (get-put f g u a) ∙ q)) in
          let domain : d' ≡ d =
            some-injective _ _ (sym known ∙ ap (λ n. get n domains) named ∙ p) in
          rw (← value, ← domain) one
      | inr other ↦ w f d v p (rw other at (sym (get-put f g u a) ∙ q))
    ])

get-Distinct :
    (domains : List Domain)
    → Distinct domains
    → All (λ (d : Domain). get d.0 domains ≡ some d.1) domains
unfolding Distinct get
get-Distinct [] h = tt
get-Distinct ((f, d) ∷ ds) h = (rw ((eq_iff f f).1 refl) refl, weaken ds h.0 (get-Distinct ds h.1))
  where
    weaken :
        (es : List Domain)
        → All (λ (e : Domain). str_eq f e.0 ≡ false) es
        → All (λ (e : Domain). get e.0 ds ≡ some e.1) es
        → All (λ (e : Domain). get e.0 ((f, d) ∷ ds) ≡ some e.1) es
    weaken [] a g = tt
    weaken (e ∷ es) a g = (rw (a.0, get) g.0, weaken es a.1 g.1)

pub dict-Consistent :
    (domains : List Domain) (item : FactorTuple)
    → Distinct domains
    → Drawn domains item
    → Consistent (dict item []) domains
unfolding get
dict-Consistent domains item d h =
    All-map (λ (e : Domain). get e.0 domains ≡ some e.1) _ domains
      (λ e p v q. dict-Within domains item [] h (λ f d' v' p' q'. cc q') e.0 e.1 v p q)
      (get-Distinct domains d)
