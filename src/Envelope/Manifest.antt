-- ===== src/Envelope/Manifest.antt =====
-- lib/sippycup/envelope.py: the reading of a manifest, from the document that YAML gives to the
-- normalized authorization. A missing key after `_exact_keys` would be a `KeyError`.
pub mod Lowered
pub mod Bounds
pub mod Overrides
mod Examples
use Prim.Native.String.{count}
use sippycup.Prelude.{
  ℕ, String, Bool, true, false, ◌&&◌, ◌||◌, not, List, [], ◌∷◌, ◌++◌, Option, none, some, Result,
  ok, err, ◌>>=◌, ◌>>◌, guard, str_eq, ltb, leb, ◌==◌, any, all, if◌then◌else◌,
}
use sippycup.Json.{Value, obj, str, int, pos, Fields, lookup, has_key, keys}
use sippycup.Envelope.Arithmetic.{EnvelopeError, refused, u64_max}
use sippycup.Envelope.Text.{all_characters, first_character, is_lower, is_name_character, is_hex}
use sippycup.Envelope.Compile.{
  Dimension, Intensity, Maxima, Workload, Ramp, Plan, validate_constraints, compile_normalized,
}

-- `_object`.
unfoldable pub object : Value → Result EnvelopeError Fields
object (obj fs) = ok fs
object _ = err (refused "object")

-- `_exact_keys`.
unfoldable pub check_keys : Fields → List String → Result EnvelopeError (Unit {0})
check_keys value required = do
  guard (all (λ key. has_key key value) required) (refused "missing fields")
  guard (all (λ key. any (λ r. str_eq r key) required) (keys value)) (refused "unsupported fields")

unfoldable pub item : Fields → String → Result EnvelopeError Value
item fs key = elim (lookup key fs) [ none ↦ err (refused "KeyError") | some v ↦ ok v ]

-- `_uint`, where the minimum is 0 or 1.
unfoldable pub uint : Value → ℕ → Result EnvelopeError ℕ
uint (int (pos n)) minimum =
    if ltb n minimum || ltb u64_max n then err (refused "integer range") else ok n
uint _ minimum = err (refused "integer")

-- `_name`.
unfoldable pub name : Value → Result EnvelopeError String
name (str s) =
    if str_eq s ""
      || ltb 63 (count s)
      || not (first_character is_lower s)
      || not (all_characters is_name_character s)
    then err (refused "name")
    else ok s
name _ = err (refused "name")

-- `_sha256`.
unfoldable pub check_sha256 : String → Result EnvelopeError String
check_sha256 s =
    if not (count s == 64) || not (all_characters is_hex s) then err (refused "sha256") else ok s

-- A number of at least 1 under a key.
unfoldable pub positive : Fields → String → Result EnvelopeError ℕ
positive fs key = do v ← item fs key; uint v 1

unfoldable pub normalize_maxima : Value → Result EnvelopeError Maxima
normalize_maxima value = do
  maxima ← object value
  check_keys maxima (
      "callsPerSecond" ∷ "concurrentCalls" ∷ "mediaPacketsPerSecond" ∷ "totalCalls"
      ∷ "durationSeconds" ∷ "holdSeconds" ∷ "cooldownSeconds" ∷ "recoveryDeadlineSeconds" ∷ [])
  calls ← positive maxima "callsPerSecond"
  concurrent ← positive maxima "concurrentCalls"
  media ← positive maxima "mediaPacketsPerSecond"
  total ← positive maxima "totalCalls"
  duration ← positive maxima "durationSeconds"
  hold ← positive maxima "holdSeconds"
  cooldown ← positive maxima "cooldownSeconds"
  recovery ← positive maxima "recoveryDeadlineSeconds"
  ok (record {
    intensity = record {
      calls_per_second = calls;
      concurrent_calls = concurrent;
      media_packets_per_second = media;
    };
    total_calls = total;
    duration_seconds = duration;
    hold_seconds = hold;
    cooldown_seconds = cooldown;
    recovery_deadline_seconds = recovery;
  })

unfoldable pub normalize_workload : Value → Result EnvelopeError Workload
normalize_workload value = do
  workload ← object value
  check_keys workload
      ("callsPerSecond" ∷ "concurrentCalls" ∷ "mediaPacketsPerSecond" ∷ "callDurationSeconds" ∷ [])
  calls ← positive workload "callsPerSecond"
  concurrent ← positive workload "concurrentCalls"
  media ← positive workload "mediaPacketsPerSecond"
  duration ← positive workload "callDurationSeconds"
  ok (record {
    intensity = record {
      calls_per_second = calls;
      concurrent_calls = concurrent;
      media_packets_per_second = media;
    };
    call_duration_seconds = duration;
  })

-- `dimension not in DIMENSIONS`.
unfoldable pub read_dimension : Value → Result EnvelopeError Dimension
read_dimension (str s) =
    if str_eq s "callsPerSecond"
    then ok Dimension.calls_per_second
    else if str_eq s "concurrentCalls"
    then ok Dimension.concurrent_calls
    else if str_eq s "mediaPacketsPerSecond"
    then ok Dimension.media_packets_per_second
    else err (refused "ramp.dimension")
read_dimension _ = err (refused "ramp.dimension")

unfoldable pub normalize_ramp : Value → Result EnvelopeError Ramp
normalize_ramp value = do
  ramp ← object value
  check_keys ramp ("dimension" ∷ "start" ∷ "step" ∷ [])
  v ← item ramp "dimension"
  dimension ← read_dimension v
  start ← positive ramp "start"
  step ← positive ramp "step"
  ok (record { dimension = dimension; start = start; step = step })

-- One of `MAXIMA_KEYS`.
pub data MaximaKey : Type 0 where
  max_calls_per_second max_concurrent_calls max_media_packets_per_second max_total_calls : MaximaKey
  max_duration_seconds max_hold_seconds max_cooldown_seconds max_recovery_deadline_seconds :
      MaximaKey

-- `key not in MAXIMA_KEYS` is `none`.
unfoldable pub read_key : String → Option MaximaKey
read_key key =
    if str_eq key "callsPerSecond"
    then some max_calls_per_second
    else if str_eq key "concurrentCalls"
    then some max_concurrent_calls
    else if str_eq key "mediaPacketsPerSecond"
    then some max_media_packets_per_second
    else if str_eq key "totalCalls"
    then some max_total_calls
    else if str_eq key "durationSeconds"
    then some max_duration_seconds
    else if str_eq key "holdSeconds"
    then some max_hold_seconds
    else if str_eq key "cooldownSeconds"
    then some max_cooldown_seconds
    else if str_eq key "recoveryDeadlineSeconds"
    then some max_recovery_deadline_seconds
    else none

-- `maxima[key]`.
abbrev pub at_key : MaximaKey → Maxima → ℕ
at_key max_calls_per_second m = m.intensity.calls_per_second
at_key max_concurrent_calls m = m.intensity.concurrent_calls
at_key max_media_packets_per_second m = m.intensity.media_packets_per_second
at_key max_total_calls m = m.total_calls
at_key max_duration_seconds m = m.duration_seconds
at_key max_hold_seconds m = m.hold_seconds
at_key max_cooldown_seconds m = m.cooldown_seconds
at_key max_recovery_deadline_seconds m = m.recovery_deadline_seconds

-- `result[key] = reduced`.
abbrev pub with_key : MaximaKey → ℕ → Maxima → Maxima
with_key max_calls_per_second n m = record m {
  intensity = record m.intensity { calls_per_second = n };
}
with_key max_concurrent_calls n m = record m {
  intensity = record m.intensity { concurrent_calls = n };
}
with_key max_media_packets_per_second n m = record m {
  intensity = record m.intensity { media_packets_per_second = n };
}
with_key max_total_calls n m = record m { total_calls = n }
with_key max_duration_seconds n m = record m { duration_seconds = n }
with_key max_hold_seconds n m = record m { hold_seconds = n }
with_key max_cooldown_seconds n m = record m { cooldown_seconds = n }
with_key max_recovery_deadline_seconds n m = record m { recovery_deadline_seconds = n }

-- The loop of `_apply_reductions` over `reductions.items()`; a value `none` is Python's `None`.
unfoldable pub apply_reductions :
    Maxima → List (String × Option Value) → Maxima → Result EnvelopeError Maxima
apply_reductions maxima [] result = ok result
apply_reductions maxima ((key, value) ∷ rest) result = elim (read_key key) [
  | none ↦ err (refused "unsupported maximum override")
  | some k ↦ elim value [
    | none ↦ apply_reductions maxima rest result
    | some v ↦ (do
      reduced ← uint v 1
      guard (leb reduced (at_key k maxima)) (refused "override exceeds authorized maximum")
      apply_reductions maxima rest (with_key k reduced result))
  ]
]

-- What `_normalize_manifest` returns.
pub record Normalized : Type 0 where
  pub name : String
  pub source_maxima : Maxima
  pub maxima : Maxima
  pub workload : Workload
  pub ramp : Ramp

-- `!=` of a value and a text.
abbrev pub is_text : Value → String → Bool
is_text (str s) expected = str_eq s expected
is_text _ expected = false

unfoldable pub normalize_manifest :
    Value → List (String × Option Value) → Result EnvelopeError Normalized
normalize_manifest manifest reductions = do
  document ← object manifest
  check_keys document
      ("apiVersion" ∷ "kind" ∷ "metadata" ∷ "authorization" ∷ "workload" ∷ "ramp" ∷ [])
  version ← item document "apiVersion"
  guard (is_text version "sippycup.dev/envelope/v1") (refused "apiVersion")
  kind ← item document "kind"
  guard (is_text kind "Envelope") (refused "kind")
  metadata_value ← item document "metadata"
  metadata ← object metadata_value
  check_keys metadata ("name" ∷ [])
  name_value ← item metadata "name"
  manifest_name ← name name_value
  authorization_value ← item document "authorization"
  authorization ← object authorization_value
  check_keys authorization ("hardMaxima" ∷ [])
  hard_value ← item authorization "hardMaxima"
  source_maxima ← normalize_maxima hard_value
  maxima ← apply_reductions source_maxima reductions source_maxima
  workload_value ← item document "workload"
  workload ← normalize_workload workload_value
  ramp_value ← item document "ramp"
  ramp ← normalize_ramp ramp_value
  validate_constraints maxima workload ramp
  ok (record {
    name = manifest_name;
    source_maxima = source_maxima;
    maxima = maxima;
    workload = workload;
    ramp = ramp;
  })

-- `compile_envelope_plan`, without the copies that the plan holds of the name and the digest.
unfoldable pub compile_envelope_plan :
    Value → String → List (String × Option Value) → Result EnvelopeError Plan
compile_envelope_plan manifest manifest_sha256 reductions = do
  check_sha256 manifest_sha256
  n ← normalize_manifest manifest reductions
  compile_normalized n.maxima n.workload n.ramp
