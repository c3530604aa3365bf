-- ===== src/Resilience/Isolation.antt =====
-- lib/sippycup_resilience/isolation.py: the reading of an isolation plan, the contamination findings,
-- and the clean observations of a plan.
pub mod Owners
pub mod Verdict
pub mod Clean
mod Examples
use Prim.Native.String.{count}
use Prim.Native.Char.{code}
use sippycup.Prelude.{
  ℕ, zero, suc, ◌+◌, String, Bool, true, false, not, ◌&&◌, ◌||◌, Option, none, some, List, [], ◌∷◌,
  ◌++◌, map, Result, ok, err, ◌>>=◌, ◌>>◌, guard, map_result, str_eq, leb, ◌==◌, length, any, all,
  sort_by, if◌then◌else◌,
}
use sippycup.Json.{Value, Fields, ℤ, pos, negsuc, str, bool, int, float, obj, end, field}
use sippycup.Envelope.Text.{all_characters}
use sippycup.Matrix.Satisfiable.{text_le}
use sippycup.Resilience.Common.{
  Error, invalid, require_mapping, require_list, exact_keys, bounded_int, nonempty_string, boolean,
  get_item, verdict,
}

pub record Call : Type 0 where
  pub call_id : String
  pub marker : String
  pub ssrc : ℕ
  pub source_port : ℕ

pub record Observation : Type 0 where
  pub call_id : String
  pub marker : String
  pub ssrc : ℕ
  pub source_port : ℕ
  pub after_teardown : Bool

-- `owner` is Python's `None` if no call has the marker or the SSRC, and absent from other findings.
pub record Finding : Type 0 where
  pub code : String
  pub call_id : String
  pub owner : Option String
  pub observation : Option ℕ

pub record Report : Type 0 where
  pub status : String
  pub planned_calls : ℕ
  pub observed_calls : ℕ
  pub observations : ℕ
  pub findings : List Finding

abbrev pub plan_version : String
plan_version = "sippycup.dev/isolation-plan/v1"

abbrev pub max_calls : ℕ
max_calls = 4096

abbrev pub max_observations : ℕ
max_observations = 262144

-- `value == PLAN_VERSION`.
abbrev pub is_version : Value → Bool
is_version (str s) = str_eq s plan_version
is_version _ = false

-- `value == 0`, which also holds of `False` and of a float.
abbrev pub equals_zero : Value → Bool
equals_zero (int (pos n)) = n == 0
equals_zero (bool b) = not b
equals_zero (float (pos m) e) = m == 0
equals_zero _ = false

-- A text of 32 characters that are all `0` or `1`.
unfoldable pub is_watermark : String → Bool
is_watermark marker =
    count marker == 32 && all_characters (λ c. code c == 48 || code c == 49) marker

-- The validation of one call.
unfoldable pub read_call : Value → Result Error Call
read_call raw = do
  call ← require_mapping raw
  exact_keys call ("callId" ∷ "ssrc" ∷ "marker" ∷ "dtmf" ∷ "sourcePort" ∷ "destinationPort" ∷ []) []
  raw_id ← get_item call "callId"
  call_id ← nonempty_string raw_id 128
  raw_marker ← get_item call "marker"
  marker ← nonempty_string raw_marker 64
  guard (is_watermark marker) (invalid "marker")
  raw_ssrc ← get_item call "ssrc"
  ssrc ← bounded_int raw_ssrc 1 4294967295
  raw_source ← get_item call "sourcePort"
  source_port ← bounded_int raw_source 1024 65535
  raw_destination ← get_item call "destinationPort"
  destination_port ← bounded_int raw_destination 1024 65535
  ok (record { call_id = call_id; marker = marker; ssrc = ssrc; source_port = source_port })

-- `call_id in identities or marker in markers or ssrc in ssrcs`.
abbrev pub clashes : Call → Call → Bool
clashes c d = str_eq c.call_id d.call_id || str_eq c.marker d.marker || c.ssrc == d.ssrc

-- The loop of `_validate_plan` after the calls in `seen`.
unfoldable pub read_calls : List Call → List Value → Result Error (List Call)
read_calls seen [] = ok []
read_calls seen (raw ∷ rest) = do
  call ← read_call raw
  guard (not (any (clashes call) seen)) (invalid "unique")
  calls ← read_calls (call ∷ seen) rest
  ok (call ∷ calls)

-- `_validate_plan`: the calls of the plan.
unfoldable pub validate_plan : Value → Result Error (List Call)
validate_plan value = do
  plan ← require_mapping value
  exact_keys plan
      ("apiVersion" ∷ "seed" ∷ "callCount" ∷ "calls" ∷ "networkExecutions" ∷ "claim" ∷ []) []
  version ← get_item plan "apiVersion"
  executions ← get_item plan "networkExecutions"
  guard (is_version version && equals_zero executions) (invalid "plan")
  raw_count ← get_item plan "callCount"
  call_count ← bounded_int raw_count 2 max_calls
  raw_calls ← get_item plan "calls"
  values ← require_list raw_calls
  guard (length values == call_count) (invalid "callCount")
  read_calls [] values

-- `calls.get(call_id)`.
unfoldable pub call_named : String → List Call → Option Call
call_named name [] = none
call_named name (c ∷ calls) = if str_eq c.call_id name then some c else call_named name calls

-- `marker_owner.get(marker)` and `ssrc_owner.get(ssrc)`, of calls that differ in the key.
unfoldable pub owner_by : (Call → Bool) → List Call → Option String
owner_by has_key [] = none
owner_by has_key (c ∷ calls) = if has_key c then some c.call_id else owner_by has_key calls

abbrev pub marker_owner : List Call → String → Option String
marker_owner calls marker = owner_by (λ c. str_eq c.marker marker) calls

abbrev pub ssrc_owner : List Call → ℕ → Option String
ssrc_owner calls ssrc = owner_by (λ c. c.ssrc == ssrc) calls

abbrev pub is_owner : Option String → String → Bool
is_owner none name = false
is_owner (some owner) name = str_eq owner name

-- The reading of one observation, with the call that it names.
unfoldable pub read_observation : List Call → Value → Result Error (Observation × Call)
read_observation calls raw = do
  item ← require_mapping raw
  exact_keys item ("callId" ∷ "marker" ∷ "ssrc" ∷ "sourcePort" ∷ "afterTeardown" ∷ []) []
  raw_id ← get_item item "callId"
  call_id ← nonempty_string raw_id 128
  expected ← elim (call_named call_id calls) [ none ↦ err (invalid "unknown call") | some c ↦ ok c ]
  raw_marker ← get_item item "marker"
  marker ← nonempty_string raw_marker 64
  raw_ssrc ← get_item item "ssrc"
  ssrc ← bounded_int raw_ssrc 1 4294967295
  raw_port ← get_item item "sourcePort"
  source_port ← bounded_int raw_port 1024 65535
  raw_after ← get_item item "afterTeardown"
  after_teardown ← boolean raw_after
  ok (
    record {
      call_id = call_id;
      marker = marker;
      ssrc = ssrc;
      source_port = source_port;
      after_teardown = after_teardown;
    },
    expected,
  )

abbrev pub fail_if : Bool → Finding → List Finding
fail_if true finding = finding ∷ []
fail_if false finding = []

-- The findings of one observation.
unfoldable pub judge : List Call → ℕ → Observation × Call → List Finding
judge calls index (o, expected) =
    fail_if (not (is_owner (marker_owner calls o.marker) o.call_id)) (record {
      code = "cross_call_marker";
      call_id = o.call_id;
      owner = marker_owner calls o.marker;
      observation = some index;
    })
    ++ fail_if (not (is_owner (ssrc_owner calls o.ssrc) o.call_id) || not (o.ssrc == expected.ssrc))
        (record {
          code = "ssrc_misassociation";
          call_id = o.call_id;
          owner = ssrc_owner calls o.ssrc;
          observation = some index;
        })
    ++ fail_if (not (o.source_port == expected.source_port)) (record {
      code = "source_tuple_mismatch";
      call_id = o.call_id;
      owner = none;
      observation = some index;
    })
    ++ fail_if o.after_teardown (record {
      code = "media_after_teardown";
      call_id = o.call_id;
      owner = none;
      observation = some index;
    })

-- The loop over the observations, from `index` on.
unfoldable pub judge_all : List Call → ℕ → List (Observation × Call) → List Finding
judge_all calls index [] = []
judge_all calls index (o ∷ os) = judge calls index o ++ judge_all calls (index + 1) os

abbrev pub is_observed : List (Observation × Call) → String → Bool
is_observed os name = any (λ (o : Observation × Call). str_eq o.0.call_id name) os

abbrev pub partition_ids : (String → Bool) → List Call → List String
partition_ids p [] = []
partition_ids p (c ∷ calls) =
    let rest = partition_ids p calls in if p c.call_id then c.call_id ∷ rest else rest

unfoldable pub unobserved : List String → List Finding
unobserved [] = []
unobserved (name ∷ missing) =
    record { code = "call_unobserved"; call_id = name; owner = none; observation = none }
    ∷ unobserved missing

unfoldable pub findings : List Call → List (Observation × Call) → List Finding
findings calls os =
    judge_all calls 0 os
    ++ unobserved (sort_by text_le (partition_ids (λ name. not (is_observed os name)) calls))

-- Every finding has the severity `fail`. The observed calls are among the calls of the plan.
unfoldable pub report : List Call → List (Observation × Call) → Report
report calls os = record {
  status = verdict (map (λ (f : Finding). "fail") (findings calls os));
  planned_calls = length calls;
  observed_calls = length (partition_ids (is_observed os) calls);
  observations = length os;
  findings = findings calls os;
}

unfoldable pub analyze_isolation : Value → Value → Result Error Report
analyze_isolation plan_value observations_value = do
  calls ← validate_plan plan_value
  values ← require_list observations_value
  guard (leb (length values) max_observations) (invalid "observations")
  os ← map_result (read_observation calls) values
  ok (report calls os)

-- One document of `clean_observations`.
unfoldable pub clean_observation : Call → Value
clean_observation c = obj (
    field "callId" (str c.call_id) (
      field "marker" (str c.marker) (
        field "ssrc" (int (pos c.ssrc))
          (field "sourcePort" (int (pos c.source_port)) (field "afterTeardown" (bool false) end)))))

unfoldable pub clean_observations : Value → Result Error (List Value)
clean_observations plan = do calls ← validate_plan plan; ok (map clean_observation calls)
