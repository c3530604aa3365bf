-- ===== src/Prelude/Dict.antt =====
-- A Python dictionary with texts as keys, as an association list in the order of insertion.
use mathlib.Core.Path.{◌≡◌, refl}
use mathlib.Core.Option.{Option, none, some}
use mathlib.Core.List.{List, [], ◌∷◌}
use native.Mathlib.Omega.{arith}
use text.Mathlib.Text.{◌==◌ as str_eq}
use text.Mathlib.TextEquality.{eq_iff}
use Prim.Native.String.{String}
use mathlib.Core.Bool.{false}
use mathlib.Core.Path.{◌∙◌}
use mathlib.Core.Logic.{inl, inr}
use sippycup.Prelude.Tests.{if◌then◌else◌, Bool-cases}
use sippycup.Prelude.Lists.{All}

module _ {ℓ} {A : Type ℓ} where
  -- `d.get(key)`, where `none` is a missing key.
  unfoldable pub get : String → List (String × A) → Option A
  get key [] = none
  get key ((k, v) ∷ rest) = if str_eq k key then some v else get key rest

  -- `d[key] = value`.
  unfoldable pub put : String → A → List (String × A) → List (String × A)
  put key v [] = (key, v) ∷ []
  put key v ((k, w) ∷ rest) = if str_eq k key then (k, v) ∷ rest else (k, w) ∷ put key v rest

  pub get-put :
      (j k : String) (v : A) (m : List (String × A))
      → get j (put k v m) ≡ (if str_eq k j then some v else get j m)
  unfolding get put
  get-put j k v [] = refl
  get-put j k v ((i, w) ∷ rest) =
      ground (arith, eq_iff k j, eq_iff i k, eq_iff i j, get-put j k v rest)

  -- No key is listed twice.
  abbrev pub Unique : List (String × A) → Type ℓ
  Unique [] = Unit {ℓ}
  Unique ((k, v) ∷ rest) = (get k rest ≡ none) × Unique rest

  pub put-Unique : (k : String) (v : A) (m : List (String × A)) → Unique m → Unique (put k v m)
  unfolding get put
  put-Unique k v [] u = (refl, tt)
  put-Unique k v ((i, w) ∷ rest) u = elim (Bool-cases (str_eq i k)) [
    | inl same ↦ rw same u
    | inr other ↦ rw (other, put) (fresh other, put-Unique k v rest u.1)
  ]
    where
      fresh : str_eq i k ≡ false → get i (put k v rest) ≡ none
      fresh other = get-put i k v rest ∙ ground (arith, eq_iff k i, eq_iff i k, u.0)

  skip_entry :
      (k : String) (v : A) (rest xs : List (String × A))
      → get k rest ≡ none
      → All (λ (e : String × A). get e.0 rest ≡ some e.1) xs
      → All (λ (e : String × A). get e.0 ((k, v) ∷ rest) ≡ some e.1) xs
  unfolding get
  skip_entry k v rest [] fresh h = tt
  skip_entry k v rest ((j, w) ∷ xs) fresh h =
      (ground (arith, eq_iff k j, h.0), skip_entry k v rest xs fresh h.1)

  -- Without a key twice, every entry is found under its key.
  pub Unique-get :
      (m : List (String × A)) → Unique m → All (λ (e : String × A). get e.0 m ≡ some e.1) m
  unfolding get
  Unique-get [] u = tt
  Unique-get ((k, v) ∷ rest) u =
      (rw ((eq_iff k k).1 refl) refl, skip_entry k v rest rest u.0 (Unique-get rest u.1))
