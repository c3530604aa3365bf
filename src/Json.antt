-- ===== src/Json.antt =====
-- JSON documents as `json.loads` returns them: the values that the validators of the library read.
use sippycup.Prelude.{
  ℕ, String, Bool, true, false, Option, none, some, List, [], ◌∷◌, str_eq, if◌then◌else◌,
}

-- Python's unbounded `int`; `negsuc n` is -(n + 1).
pub data ℤ : Type 0 where
  pos : ℕ → ℤ
  negsuc : ℕ → ℤ

-- `float m e` is the finite double m * 2 ^ e; `not_finite` stands for NaN and the infinities.
-- An object keeps its pairs in order; its keys are texts.
mutual
  pub data Fields : Type 0 where
    end : Fields
    field : String → Value → Fields → Fields

  pub data Value : Type 0 where
    obj : Fields → Value
    str : String → Value
    int : ℤ → Value
    bool : Bool → Value
    float : ℤ → ℤ → Value
    arr : Items → Value
    null not_finite : Value

  pub data Items : Type 0 where
    nil : Items
    cons : Value → Items → Items

-- The elements of a Python list.
abbrev pub elements : Items → List Value
elements nil = []
elements (cons v vs) = v ∷ elements vs

-- `d[key]`, where a missing key is `none`.
unfoldable pub lookup : String → Fields → Option Value
lookup k end = none
lookup k (field j v fs) = if str_eq j k then some v else lookup k fs

-- `key in d`.
unfoldable pub has_key : String → Fields → Bool
has_key k end = false
has_key k (field j v fs) = if str_eq j k then true else has_key k fs

-- `set(d)`, in the order of the pairs.
unfoldable pub keys : Fields → List String
keys end = []
keys (field j v fs) = j ∷ keys fs
