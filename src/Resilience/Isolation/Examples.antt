-- ===== src/Resilience/Isolation/Examples.antt =====
-- lib/sippycup_resilience/isolation.py: a plan of two calls, clean and contaminated.
use sippycup.Prelude.{
  String, List, [], ◌∷◌, some, none, ok, ◌≡◌, refl, map_result, sort_by, insert_sorted,
}
use sippycup.Json.{Value, nil, cons, arr, obj, field, end, str, int, pos, lookup, has_key, keys}
use sippycup.Matrix.Satisfiable.{text_le}
use sippycup.Envelope.Text.{all_characters}
use sippycup.Resilience.Common.{
  require_mapping, require_list, exact_keys, bounded_int, nonempty_string, boolean, get_item,
  verdict,
}
use sippycup.Resilience.Isolation.{
  Call, Report, plan_version, is_watermark, read_call, read_calls, validate_plan, call_named,
  owner_by, read_observation, judge, judge_all, unobserved, findings, report, analyze_isolation,
  clean_observation, clean_observations,
}
use sippycup.Resilience.Isolation.Verdict.{Analyzed, analyze_isolation-Analyzed}
use sippycup.Resilience.Isolation.Clean.{array_of, clean_observations-Clean}

abbrev zeros : String
zeros = "00000000000000000000000000000000"

abbrev ones : String
ones = "11111111111111111111111111111111"

abbrev call_document : Call → Value
call_document c = obj (
    field "callId" (str c.call_id) (
      field "ssrc" (int (pos c.ssrc)) (
        field "marker" (str c.marker) (
          field "dtmf" (str "0042") (
            field "sourcePort" (int (pos c.source_port))
              (field "destinationPort" (int (pos 20001)) end))))))

abbrev first_call : Call
first_call = record { call_id = "call-000001"; marker = zeros; ssrc = 7; source_port = 20000 }

abbrev second_call : Call
second_call = record { call_id = "call-000002"; marker = ones; ssrc = 8; source_port = 20002 }

abbrev plan : Value
plan = obj (
    field "apiVersion" (str plan_version) (
      field "seed" (str "s") (
        field "callCount" (int (pos 2)) (
          field "calls"
            (arr (cons (call_document first_call) (cons (call_document second_call) nil)))
            (field "networkExecutions" (int (pos 0)) (field "claim" (str "c") end))))))

valid : validate_plan plan ≡ ok (first_call ∷ second_call ∷ [])
unfolding validate_plan read_calls read_call is_watermark all_characters require_mapping
    require_list exact_keys bounded_int nonempty_string get_item lookup has_key keys
valid = refl

-- The second call is heard with the marker of the first, and the first not at all.
abbrev heard : Value
heard = arr (cons (clean_observation (record second_call { marker = zeros })) nil)

abbrev confusion : Report
confusion = record {
  status = "fail";
  planned_calls = 2;
  observed_calls = 1;
  observations = 1;
  findings =
      record {
        code = "cross_call_marker";
        call_id = "call-000002";
        owner = some "call-000001";
        observation = some 0;
      }
      ∷ record {
        code = "call_unobserved";
        call_id = "call-000001";
        owner = none;
        observation = none;
      }
      ∷ [];
}

contaminated : analyze_isolation plan heard ≡ ok confusion
unfolding analyze_isolation validate_plan read_calls read_call is_watermark all_characters
    require_mapping require_list exact_keys bounded_int nonempty_string boolean get_item lookup
    has_key keys map_result read_observation call_named report findings judge_all judge owner_by
    unobserved sort_by insert_sorted text_le verdict clean_observation
contaminated = refl

analyze_isolation-Analyzed_example : Analyzed plan heard confusion
analyze_isolation-Analyzed_example = analyze_isolation-Analyzed plan heard confusion contaminated

clean_observations-Clean_example :
    (docs : List Value) × (clean_observations plan ≡ ok docs)
    × (r : Report) × (analyze_isolation plan (arr (array_of docs)) ≡ ok r)
    × (r.status ≡ "pass")
clean_observations-Clean_example =
    clean_observations-Clean plan (first_call ∷ second_call ∷ []) valid
