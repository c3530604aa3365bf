-- ===== src/Resilience/Common/Facts.antt =====
-- What the validators of lib/sippycup_resilience/common.py guarantee to the analyses.
use sippycup.Prelude.{
  Bool, false, ◌&&◌, ◌++◌, map, if◌then◌else◌, ℕ, ◌≤◌, String, true, List, [], ◌∷◌, some, Result,
  ok, err, ◌>>=◌, ◌≡◌, refl, str_eq, eq_iff, all, arith, Bool-cases, inl, inr,
}
use sippycup.Json.{pos, Value, int, str, Fields, end, field, lookup, has_key}
use sippycup.Resilience.Common.{
  verdict, member, Error, key_error, type_error, contains, exact_keys, bounded_int, get_item,
}

-- An accepted integer lies in the range.
pub bounded_int_range : (v : Value) (lo hi n : ℕ) → bounded_int v lo hi ≡ ok n → (lo ≤ n) × (n ≤ hi)
unfolding bounded_int
bounded_int_range (int (pos m)) lo hi n h = ground arith
bounded_int_range _ lo hi n h = cc

-- A result that is no exception of Python itself.
abbrev pub Controlled : {A : Type 0} → Result Error A → Type 0
Controlled (ok a) = Unit
Controlled (err key_error) = ⊥
Controlled (err type_error) = ⊥
Controlled (err _) = Unit

pub Controlled-bind :
    {A B : Type 0} (m : Result Error A) (f : A → Result Error B)
    → Controlled m
    → ((a : A) → m ≡ ok a → Controlled (f a))
    → Controlled (m >>= f)
Controlled-bind (ok a) f h k = k a refl
Controlled-bind (err key_error) f h k = absurd h
Controlled-bind (err type_error) f h k = absurd h
Controlled-bind (err Error.not_an_object) f h k = tt
Controlled-bind (err _) f h k = tt

lookup-has_key :
    (key : String) (fs : Fields) → has_key key fs ≡ true → (v : Value) × (lookup key fs ≡ some v)
unfolding lookup has_key
lookup-has_key key end h = cc
lookup-has_key key (field j v fs) h = elim (Bool-cases (str_eq j key)) [
  | inl e ↦ (v, rw e)
  | inr e ↦ rw e (lookup-has_key key fs (rw e at h))
]

contains-has_key :
    (required : List String) (key : String) (fs : Fields)
    → all (λ k. has_key k fs) required ≡ true
    → contains required key ≡ true
    → has_key key fs ≡ true
contains-has_key [] key fs h c = cc
contains-has_key (r ∷ rs) key fs h c = ground (arith, eq_iff r key, contains-has_key rs key fs)

-- After `exact_keys`, reading a required key raises no `KeyError`.
pub get_item-Controlled :
    (fs : Fields) (required optional : List String) (key : String)
    → exact_keys fs required optional ≡ ok tt
    → contains required key ≡ true
    → Controlled (get_item fs key)
unfolding get_item exact_keys
get_item-Controlled fs required optional key h c =
    let (v, e) = lookup-has_key key fs (contains-has_key required key fs (ground arith) c) in
    rw (e, get_item, Controlled) tt

-- A member of a tuple of texts is one of them.
pub member-ok :
    (v : Value) (names : List String) (e : Error) {s : String}
    → member v names e ≡ ok s
    → contains names s ≡ true
unfolding member
member-ok (str s) names e h = ground arith
member-ok _ names e h = cc

abbrev pub is_empty {ℓ} : {A : Type ℓ} → List A → Bool
is_empty [] = true
is_empty (x ∷ xs) = false

pub is_empty-append {ℓ} :
    {A : Type ℓ} (xs ys : List A) → is_empty (xs ++ ys) ≡ is_empty xs && is_empty ys
is_empty-append [] ys = refl
is_empty-append (x ∷ xs) ys = refl

-- The verdict on findings that are all failures.
pub verdict-fails {ℓ} :
    {A : Type ℓ} (fs : List A)
    → verdict (map (λ f. "fail") fs) ≡ (if is_empty fs then "pass" else "fail")
unfolding verdict
verdict-fails [] = refl
verdict-fails (f ∷ fs) = refl
