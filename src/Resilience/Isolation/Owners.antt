-- ===== src/Resilience/Isolation/Owners.antt =====
-- lib/sippycup_resilience/isolation.py: in a validated plan the owner of a key is the call that has it.
use sippycup.Prelude.{
  String, Bool, true, false, not, some, List, [], ◌∷◌, ok, guard, bind-elim, ok-injective, ◌≡◌,
  refl, sym, ap, ◌∙◌, arith, str_eq, eq_iff, any, All, Bool-cases, inl, inr,
}
use mathlib.Core.Path.{subst}
use mathlib.Core.Option.{some-injective}
use sippycup.Json.{Value}
use sippycup.Resilience.Common.{Error, invalid}
use sippycup.Resilience.Isolation.{
  Call, clashes, read_call, read_calls, call_named, owner_by, is_owner,
}

-- No two calls have the same id, marker or SSRC.
unfoldable pub Apart : List Call → Type 0
Apart [] = Unit
Apart (c ∷ calls) = All (λ d. clashes c d ≡ false) calls × Apart calls

clashes-sym : (c d : Call) → clashes c d ≡ false → clashes d c ≡ false
clashes-sym c d h = ground (
  arith,
  eq_iff c.call_id d.call_id,
  eq_iff d.call_id c.call_id,
  eq_iff c.marker d.marker,
  eq_iff d.marker c.marker,
)

not_any :
    (c : Call) (seen : List Call)
    → any (clashes c) seen ≡ false
    → All (λ d. clashes d c ≡ false) seen
not_any c [] h = tt
not_any c (d ∷ seen) h = (clashes-sym c d (ground arith), not_any c seen (ground arith))

nothing_clashes : (seen : List Call) → All (λ d. All (λ c. clashes d c ≡ false) []) seen
nothing_clashes [] = tt
nothing_clashes (d ∷ seen) = (tt, nothing_clashes seen)

guard-not : (b : Bool) (e : Error) (u : Unit {0}) → guard (not b) e ≡ ok u → b ≡ false
guard-not false e u h = refl
guard-not true e u h = cc

All-both {κ υ} :
    (P : Call → Type κ) (Q : Call → Type υ) (xs : List Call)
    → All P xs
    → All Q xs
    → All (λ x. P x × Q x) xs
All-both P Q [] h k = tt
All-both P Q (x ∷ xs) h k = ((h.0, k.0), All-both P Q xs h.1 k.1)

-- The calls that are read differ from each other, and from those before.
pub read_calls-Apart :
    (seen : List Call) (values : List Value) (calls : List Call)
    → read_calls seen values ≡ ok calls
    → Apart calls × All (λ d. All (λ c. clashes d c ≡ false) calls) seen
unfolding read_calls Apart
read_calls-Apart seen [] calls h =
    subst (λ cs. Apart cs × All (λ d. All (λ c. clashes d c ≡ false) cs) seen) (ok-injective h)
      (tt, nothing_clashes seen)
read_calls-Apart seen (v ∷ values) calls h = bind-elim (read_call v) _ h (λ call p h1.
    bind-elim (guard (not (any (clashes call) seen)) (invalid "unique")) _ h1 (λ u q h2.
      bind-elim (read_calls (call ∷ seen) values) _ h2 (λ rest r h3.
        let (apart, others) = read_calls-Apart (call ∷ seen) values rest r in
        let differs =
          not_any call seen (guard-not (any (clashes call) seen) (invalid "unique") u q) in
        subst (λ cs. Apart cs × All (λ d. All (λ c. clashes d c ≡ false) cs) seen) (ok-injective h3)
          ((others.0, apart), All-both _ _ seen differs others.1))))

named_owner :
    (has_key : Call → Bool) (name : String) (calls : List Call)
    → All (λ (d : Call). str_eq d.call_id name ≡ false) calls
    → is_owner (owner_by has_key calls) name ≡ false
unfolding owner_by
named_owner has_key name [] h = refl
named_owner has_key name (d ∷ calls) h = elim (Bool-cases (has_key d)) [
  | inl e ↦ rw (e, owner_by) h.0
  | inr e ↦ rw (e, owner_by) (named_owner has_key name calls h.1)
]

named_apart :
    (d : Call) (name : String) (calls : List Call)
    → str_eq d.call_id name ≡ true
    → All (λ c. clashes d c ≡ false) calls
    → All (λ (c : Call). str_eq c.call_id name ≡ false) calls
named_apart d name [] e h = tt
named_apart d name (c ∷ calls) e h = (
  ground (arith, eq_iff d.call_id name, eq_iff c.call_id name, eq_iff d.call_id c.call_id, h.0),
  named_apart d name calls e h.1,
)

pub All-named {κ} :
    (P : Call → Type κ) (name : String) (calls : List Call) (c : Call)
    → call_named name calls ≡ some c
    → All P calls
    → P c
unfolding call_named
All-named P name [] c h a = cc
All-named P name (d ∷ calls) c h a = elim (Bool-cases (str_eq d.call_id name)) [
  | inl e ↦ subst P (some-injective _ _ (rw (e, call_named) at h)) a.0
  | inr e ↦ All-named P name calls c (rw (e, call_named) at h) a.1
]

-- A call with this id owns the key exactly if it has it, where no two calls have the key.
pub owner_by-call :
    (has_key : Call → Bool) (name : String) (calls : List Call) (c : Call)
    → ((d e : Call) → clashes d e ≡ false → has_key d ≡ true → has_key e ≡ false)
    → Apart calls
    → call_named name calls ≡ some c
    → is_owner (owner_by has_key calls) name ≡ has_key c
unfolding owner_by call_named Apart
owner_by-call has_key name [] c once apart h = cc h
owner_by-call has_key name (d ∷ calls) c once apart h = elim (Bool-cases (str_eq d.call_id name)) [
  | inl same ↦
      let first : d ≡ c = some-injective _ _ (rw (same, call_named) at h) in
      elim (Bool-cases (has_key d)) [
        | inl e ↦ rw (e, owner_by) (same ∙ sym (sym (ap has_key first) ∙ e))
        | inr e ↦
            rw (e, owner_by)
              (named_owner has_key name calls (named_apart d name calls same apart.0)
                ∙ sym (sym (ap has_key first) ∙ e))
      ]
  | inr other ↦
      let later : call_named name calls ≡ some c = rw (other, call_named) at h in
      elim (Bool-cases (has_key d)) [
        | inl e ↦
            rw (e, owner_by)
              (other
                ∙ sym
                    (once d c (All-named (λ x. clashes d x ≡ false) name calls c later apart.0) e))
        | inr e ↦ rw (e, owner_by) (owner_by-call has_key name calls c once apart.1 later)
      ]
]
