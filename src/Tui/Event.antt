-- ===== src/Tui/Event.antt =====
-- lib/sippycup_tui/state.py: `Event` and `decode_event`. The JSON parser and the size of a printed
-- payload are parameters.
pub mod Bounds
use Prim.Native.String.{count}
use sippycup.Prelude.{
  ℕ, String, Bool, false, ◌||◌, [], ◌∷◌, Option, none, some, Result, ok, err, ◌>>=◌, ◌>>◌, guard,
  str_eq, ltb, leb, any, all, if◌then◌else◌,
}
use sippycup.Json.{Value, str, int, obj, pos, Fields, end, lookup, keys}

-- The `EventError`s of the module; `missing_phase` is Python's own `KeyError`.
pub data EventError : Type 0 where
  not_json not_an_object unknown_fields unsupported_schema invalid_sequence : EventError
  invalid_source invalid_kind invalid_payload payload_too_large : EventError
  invalid_phase invalid_capacity missing_phase : EventError

pub record Event : Type 0 where
  pub sequence : ℕ
  pub source : String
  pub kind : String
  pub payload : Fields

abbrev pub event_schema : String
event_schema = "sippycup.ui-event/v1"

-- `type(sequence) is not int or sequence < 0`.
unfoldable pub read_sequence : Option Value → Result EventError ℕ
read_sequence (some (int (pos n))) = ok n
read_sequence _ = err invalid_sequence

-- `not isinstance(source, str) or not source or len(source) > 64`, and the like for the kind.
unfoldable pub read_label : Option Value → ℕ → EventError → Result EventError String
read_label (some (str s)) maximum e = if str_eq s "" || ltb maximum (count s) then err e else ok s
read_label _ maximum e = err e

-- `value.get("payload", {})`, which has to be an object.
unfoldable pub read_payload : Option Value → Result EventError Fields
read_payload none = ok end
read_payload (some (obj fs)) = ok fs
read_payload (some _) = err invalid_payload

unfoldable pub is_text : Option Value → String → Bool
is_text (some (str s)) expected = str_eq s expected
is_text _ expected = false

-- What `decode_event` is given: a text, or a mapping.
pub data Raw : Type 0 where
  text : String → Raw
  mapping : Fields → Raw

module _ (parse : String → Option Value) (printed_size : Fields → ℕ) where
  unfoldable pub raw_fields : Raw → Result EventError Fields
  raw_fields (mapping fs) = ok fs
  raw_fields (text s) = elim (parse s) [
    | none ↦ err not_json
    | some (obj fs) ↦ ok fs
    | some _ ↦ err not_an_object
  ]

  unfoldable pub decode_event : Raw → Result EventError Event
  decode_event raw = do
    value ← raw_fields raw
    guard
        (all
          (λ key.
            any (λ k. str_eq k key) ("schema" ∷ "sequence" ∷ "source" ∷ "kind" ∷ "payload" ∷ []))
          (keys value))
        unknown_fields
    guard (is_text (lookup "schema" value) event_schema) unsupported_schema
    sequence ← read_sequence (lookup "sequence" value)
    source ← read_label (lookup "source" value) 64 invalid_source
    kind ← read_label (lookup "kind" value) 96 invalid_kind
    payload ← read_payload (lookup "payload" value)
    guard (leb (printed_size payload) 65536) payload_too_large
    ok (record { sequence = sequence; source = source; kind = kind; payload = payload })
