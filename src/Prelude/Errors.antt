-- ===== src/Prelude/Errors.antt =====
-- A Python function that may raise: the value that it returns, or the exception.
use mathlib.Core.Path.{◌≡◌, refl, ap, subst}
use mathlib.Core.Bool.{Bool, true, false}
use mathlib.Core.Logic.{◌⊎◌, inl, inr}
use mathlib.Core.List.{List, [], ◌∷◌}

pub data Result {ℓ κ} (E : Type ℓ) (A : Type κ) : Type (ℓ ⊔ κ) where
  ok : A → Result E A
  err : E → Result E A

infixl 5 ◌>>=◌ ◌>>◌
-- What follows a raised exception is not run.
abbrev pub ◌>>=◌ {ℓ κ υ} :
    {Ex : Type ℓ} {A : Type κ} {B : Type υ} → Result Ex A → (A → Result Ex B) → Result Ex B
err raised >>= k = err raised
ok value >>= k = k value

-- `if not test: raise e`.
abbrev pub guard {ℓ} : {Ex : Type ℓ} → Bool → Ex → Result Ex (Unit {0})
guard false raised = err raised
guard true raised = ok tt

abbrev pub ◌>>◌ {ℓ κ υ} :
    {Ex : Type ℓ} {A : Type κ} {B : Type υ} → Result Ex A → Result Ex B → Result Ex B
first >> next = first >>= λ _. next

-- A block that returns got past its first line.
pub >>=-eq-ok {ℓ κ υ} :
    {Ex : Type ℓ} {A : Type κ} {B : Type υ} (r : Result Ex A) (k : A → Result Ex B) {b : B}
    → (r >>= k) ≡ ok b
    → (a : A) × (r ≡ ok a) × (k a ≡ ok b)
>>=-eq-ok (err raised) k h = cc
>>=-eq-ok (ok value) k h = (value, refl, h)

-- A list comprehension whose body may raise.
unfoldable pub map_result {ℓ κ υ} :
    {E : Type ℓ} {A : Type κ} {B : Type υ} → (A → Result E B) → List A → Result E (List B)
map_result f [] = ok []
map_result f (x ∷ xs) = do y ← f x; ys ← map_result f xs; ok (y ∷ ys)

pub ok-injective {ℓ κ} :
    {E : Type ℓ} {A : Type κ} {a b : A} → ◌≡◌ {A = Result E A} (ok a) (ok b) → a ≡ b
ok-injective h = cc

-- A block that goes on after a guard went on because its test holds.
pub guard-bind {ℓ κ} :
    {E : Type ℓ} {A : Type κ} (b : Bool) (e : E) (k : Result E A) {r : A}
    → (guard b e >> k) ≡ ok r
    → (b ≡ true) × (k ≡ ok r)
guard-bind true e k h = (refl, h)
guard-bind false e k h = cc

pub Result-cases {ℓ κ} :
    {E : Type ℓ} {A : Type κ} (r : Result E A) → ((e : E) × (r ≡ err e)) ⊎ ((a : A) × (r ≡ ok a))
Result-cases (ok a) = inr (a, refl)
Result-cases (err e) = inl (e, refl)

pub bind_ok {ℓ κ υ} :
    {E : Type ℓ} {A : Type κ} {B : Type υ} {m : Result E A} {a : A} (f : A → Result E B)
    → m ≡ ok a
    → (m >>= f) ≡ f a
bind_ok f h = ap (λ x. x >>= f) h

-- The same, for a long block: the rest of the proof goes on from the value.
pub bind-elim {ℓ κ υ ρ} :
    {Ex : Type ℓ} {A : Type κ} {B : Type υ} {P : Type ρ} (r : Result Ex A) (k : A → Result Ex B)
    {b : B}
    → (r >>= k) ≡ ok b
    → ((a : A) → r ≡ ok a → k a ≡ ok b → P)
    → P
bind-elim (err raised) k h next = absurd (cc h)
bind-elim (ok value) k h next = next value refl h

err-injective {ℓ κ} :
    {E : Type ℓ} {A : Type κ} {a b : E} → ◌≡◌ {A = Result E A} (err a) (err b) → a ≡ b
err-injective h = cc

-- What is raised is only what the predicate holds of.
abbrev pub Only {ℓ κ υ} :
    {Ex : Type ℓ} {A : Type κ} → (Ex → Type υ) → Result Ex A → Type (ℓ ⊔ κ ⊔ υ)
Only {Ex = Ex} P r = (raised : Ex) → r ≡ err raised → P raised

pub guard-Only {ℓ υ} :
    {Ex : Type ℓ} (P : Ex → Type υ) (b : Bool) (e : Ex) → P e → Only P (guard b e)
guard-Only P true e p = λ raised h. cc h
guard-Only P false e p = λ raised h. subst P (err-injective h) p

-- The rest of the block may use where its value comes from.
pub bind-Only_from {ℓ κ υ ρ} :
    {Ex : Type ℓ} {A : Type κ} {B : Type υ} {P : Ex → Type ρ} (r : Result Ex A)
    (k : A → Result Ex B)
    → Only P r
    → ((a : A) → r ≡ ok a → Only P (k a))
    → Only P (r >>= k)
bind-Only_from {P = P} (err raised) k h next = λ x e. subst P (err-injective e) (h raised refl)
bind-Only_from (ok value) k h next = next value refl

pub bind-Only {ℓ κ υ ρ} :
    {Ex : Type ℓ} {A : Type κ} {B : Type υ} {P : Ex → Type ρ} (r : Result Ex A)
    (k : A → Result Ex B)
    → Only P r
    → ((a : A) → Only P (k a))
    → Only P (r >>= k)
bind-Only r k h next = bind-Only_from r k h (λ a e. next a)

-- A value is returned, or an exception is raised that the predicate holds of.
abbrev pub Ends {ℓ κ υ} :
    {Ex : Type ℓ} {A : Type κ} → (Ex → Type υ) → Result Ex A → Type (ℓ ⊔ κ ⊔ υ)
Ends {Ex = Ex} {A = A} P r =
    ((value : A) × (r ≡ ok value)) ⊎ ((raised : Ex) × (r ≡ err raised) × P raised)

pub Only-Ends {ℓ κ υ} :
    {Ex : Type ℓ} {A : Type κ} {P : Ex → Type υ} (r : Result Ex A) → Only P r → Ends P r
Only-Ends (ok value) h = inl (value, refl)
Only-Ends (err raised) h = inr (raised, refl, h raised refl)
