-- ===== src/Resilience/Overload/Examples.antt =====
-- lib/sippycup_resilience/overload.py: a retry that comes too soon.
use sippycup.Prelude.{
  String, List, true, false, ℕ, ◌+◌, ◌*◌, ◌/◌, ltb, arith, Bool, [], ◌∷◌, ok, ◌≡◌, refl, get, put,
}
use sippycup.Json.{
  Value, nil, cons, arr, obj, field, end, str, int, pos, null, lookup, has_key, keys,
}
use sippycup.Resilience.Common.{
  require_mapping, require_list, exact_keys, bounded_int, nonempty_string, get_item, verdict,
}
use sippycup.Resilience.Overload.{
  Report, read_retry_after, read_attempt, read_attempts, group_attempts, judge_retry, judge_retries,
  judge_group, judge_groups, client_totals, highest, lowest, is_unfair, rates, fairness_findings,
  analyze_overload,
}
use sippycup.Resilience.Overload.Fairness.{FloatLaws}
use sippycup.Resilience.Overload.Discipline.{Analyzed, analyze_overload-Analyzed}

abbrev transaction : ℕ → ℕ → ℕ → Value → Value
transaction at attempt response retry = obj (
    field "atMs" (int (pos at)) (
      field "client" (str "peer-1") (
        field "requestId" (str "r-1") (
          field "attempt" (int (pos attempt))
            (field "response" (int (pos response)) (field "retryAfterMs" retry end))))))

abbrev transactions : Value
transactions =
    arr (cons (transaction 0 1 503 (int (pos 1000))) (cons (transaction 500 2 200 null) nil))

-- Whole percents in place of the floating-point numbers.
abbrev percent : ℕ → ℕ → ℕ
percent success total = success * 100 / total

abbrev differs_above : ℕ → ℕ → ℕ → Bool
differs_above x y n = ltb (y + n) x

whole_percents : FloatLaws ltb differs_above
whole_percents = record {
  asymmetric = λ x y h. ground arith;
  irreflexive = λ x. ground arith;
  transitive = λ x y z h k. ground arith;
  no_difference = λ x n. ground arith;
  monotone = λ x y x' y' n h k l. ground arith;
}

abbrev too_soon : Report
too_soon = record {
  status = "fail";
  transactions = 2;
  logical_requests = 1;
  maximum_attempts = 2;
  findings = record { code = "retry_before_retry_after"; request_id = "r-1"; attempt = 2 } ∷ [];
}

run :
    analyze_overload percent ltb differs_above transactions (int (pos 2)) (int (pos 20))
    ≡ ok too_soon
unfolding analyze_overload require_list require_mapping exact_keys bounded_int nonempty_string
    get_item lookup has_key keys read_retry_after read_attempt read_attempts group_attempts
    judge_retry judge_retries judge_group judge_groups client_totals fairness_findings verdict get
    put highest lowest is_unfair
run = refl

-- One client always succeeds and the other never: the rates are 100 and 0 percent.
abbrev one_sided : List (String × (ℕ × ℕ))
one_sided = ("peer-1", (2, 2)) ∷ ("peer-2", (0, 1)) ∷ []

unfair_rates :
    is_unfair percent ltb differs_above 99 (rates percent ltb differs_above one_sided) ≡ true
unfolding is_unfair highest lowest
unfair_rates = refl

fair_rates :
    is_unfair percent ltb differs_above 100 (rates percent ltb differs_above one_sided) ≡ false
unfolding is_unfair highest lowest
fair_rates = refl

analyze_overload-Analyzed_example :
    Analyzed percent ltb differs_above transactions (int (pos 2)) (int (pos 20)) too_soon
analyze_overload-Analyzed_example =
    analyze_overload-Analyzed percent ltb differs_above whole_percents transactions (int (pos 2))
      (int (pos 20)) too_soon run
