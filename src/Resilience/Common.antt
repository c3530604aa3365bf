-- ===== src/Resilience/Common.antt =====
-- lib/sippycup_resilience/common.py: the validators that every analysis shares.
-- A raised exception is a value of `Error`; the wording of a message is not kept, but what it is
-- about is. `key_error` and `type_error` are the exceptions of Python itself, which the command
-- line does not catch.
pub mod Facts
use Prim.Native.String.{count}
use sippycup.Prelude.{
  ℕ, ltb, leb, String, Bool, ◌&&◌, ◌||◌, List, [], ◌∷◌, none, some, Result, ok, err, str_eq, any,
  all, if◌then◌else◌,
}
use sippycup.Json.{elements, pos, Value, int, str, bool, obj, Fields, lookup, has_key, keys}

pub data Error : Type 0 where
  not_an_object missing_keys unsupported_keys not_an_integer not_a_string not_a_boolean : Error
  invalid : String → Error
  key_error type_error : Error

unfoldable pub require_mapping : Value → Result Error Fields
require_mapping (obj fs) = ok fs
require_mapping _ = err not_an_object

-- `name in names`, for a tuple or a set of texts.
abbrev pub contains : List String → String → Bool
contains names name = any (λ n. str_eq n name) names

-- The missing keys are reported before the unknown ones.
unfoldable pub exact_keys : Fields → List String → List String → Result Error (Unit {0})
exact_keys value required optional =
    if all (λ key. has_key key value) required
    then if all (λ key. contains required key || contains optional key) (keys value)
      then ok tt
      else err unsupported_keys
    else err missing_keys

-- `type(value) is int` is false of a Boolean and of a float.
unfoldable pub bounded_int : Value → ℕ → ℕ → Result Error ℕ
bounded_int (int (pos n)) minimum maximum =
    if leb minimum n && leb n maximum then ok n else err not_an_integer
bounded_int _ minimum maximum = err not_an_integer

unfoldable pub nonempty_string : Value → ℕ → Result Error String
nonempty_string (str s) maximum =
    if str_eq s "" || ltb maximum (count s) then err not_a_string else ok s
nonempty_string _ maximum = err not_a_string

unfoldable pub boolean : Value → Result Error Bool
boolean (bool b) = ok b
boolean _ = err not_a_boolean

-- `item[key]`.
unfoldable pub get_item : Fields → String → Result Error Value
get_item fs key = elim (lookup key fs) [ none ↦ err key_error | some v ↦ ok v ]

-- `value in (a, b, …)` for a tuple of texts: the text, if it is one of them.
unfoldable pub member : Value → List String → Error → Result Error String
member (str s) names e = if contains names s then ok s else err e
member _ names e = err e

-- `value in {a, b, …}` hashes the value first, and a list or an object has no hash.
unfoldable pub hashed_member : Value → List String → Error → Result Error String
hashed_member (str s) names e = if contains names s then ok s else err e
hashed_member (Value.arr _) names e = err type_error
hashed_member (obj _) names e = err type_error
hashed_member _ names e = err e

-- `verdict`, over the severities of the findings.
unfoldable pub verdict : List String → String
verdict severities = if any (λ severity. str_eq severity "fail") severities then "fail" else "pass"

-- `if not isinstance(value, list): raise …`.
unfoldable pub require_list : Value → Result Error (List Value)
require_list (Value.arr vs) = ok (elements vs)
require_list _ = err (invalid "array")
