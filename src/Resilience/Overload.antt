-- ===== src/Resilience/Overload.antt =====
-- lib/sippycup_resilience/overload.py, `analyze_overload`. The floating-point arithmetic is a
-- parameter: `percent success total` is `success * 100.0 / total`, `below x y` is `x < y`, and
-- `differs_above x y n` is `x - y > n`.
pub mod Requests
pub mod Retries
pub mod Clients
pub mod Fairness
pub mod Discipline
mod Examples
use sippycup.Prelude.{
  ℕ, zero, suc, ◌+◌, String, Bool, true, false, not, ◌&&◌, ◌||◌, Option, none, some, List, [], ◌∷◌,
  ◌++◌, map, Result, ok, err, ◌>>=◌, ◌>>◌, guard, str_eq, leb, ltb, ◌==◌, max, length, any, all,
  get, put, if◌then◌else◌,
}
use sippycup.Json.{Value, null}
use sippycup.Resilience.Common.{
  Error, invalid, require_mapping, require_list, exact_keys, bounded_int, nonempty_string, get_item,
  verdict,
}

abbrev pub max_transactions : ℕ
max_transactions = 1000000

abbrev pub max_duration_ms : ℕ
max_duration_ms = 3600000

pub record Attempt : Type 0 where
  pub at_ms : ℕ
  pub client : String
  pub request_id : String
  pub attempt : ℕ
  pub response : ℕ
  pub retry_after : Option ℕ

-- `attempt` is the number of attempts in `retry_amplification`; `client_unfairness` is about no
-- request, and has neither. The limits and rates that a finding repeats are left out.
pub record Finding : Type 0 where
  pub code : String
  pub request_id : String
  pub attempt : ℕ

pub record Report : Type 0 where
  pub status : String
  pub transactions : ℕ
  pub logical_requests : ℕ
  pub maximum_attempts : ℕ
  pub findings : List Finding

-- `None`, or a bounded integer.
unfoldable pub read_retry_after : Value → Result Error (Option ℕ)
read_retry_after null = ok none
read_retry_after v = do n ← bounded_int v 1 max_duration_ms; ok (some n)

abbrev pub is_given : Option ℕ → Bool
is_given none = false
is_given (some n) = true

-- One transaction, after one at the time `previous`.
unfoldable pub read_attempt : ℕ → Value → Result Error Attempt
read_attempt previous raw = do
  item ← require_mapping raw
  exact_keys item ("atMs" ∷ "client" ∷ "requestId" ∷ "attempt" ∷ "response" ∷ "retryAfterMs" ∷ [])
      []
  raw_at ← get_item item "atMs"
  at_ms ← bounded_int raw_at 0 max_duration_ms
  guard (leb previous at_ms) (invalid "atMs")
  raw_client ← get_item item "client"
  client ← nonempty_string raw_client 64
  raw_id ← get_item item "requestId"
  request_id ← nonempty_string raw_id 128
  raw_attempt ← get_item item "attempt"
  attempt ← bounded_int raw_attempt 1 32
  raw_response ← get_item item "response"
  response ← bounded_int raw_response 100 699
  raw_retry ← get_item item "retryAfterMs"
  retry_after ← read_retry_after raw_retry
  guard (response == 503 || not (is_given retry_after)) (invalid "Retry-After")
  ok (record {
    at_ms = at_ms;
    client = client;
    request_id = request_id;
    attempt = attempt;
    response = response;
    retry_after = retry_after;
  })

-- The loop over the transactions.
unfoldable pub read_attempts : ℕ → List Value → Result Error (List Attempt)
read_attempts previous [] = ok []
read_attempts previous (raw ∷ rest) = do
  first ← read_attempt previous raw
  attempts ← read_attempts first.at_ms rest
  ok (first ∷ attempts)

abbrev pub Groups : Type 0
Groups = List (String × List Attempt)

-- `attempts[request_id]` of the `defaultdict`.
abbrev pub or_empty : Option (List Attempt) → List Attempt
or_empty none = []
or_empty (some records) = records

-- `attempts[request_id].append(record)`, over the transactions.
unfoldable pub group_attempts : List Attempt → Groups → Groups
group_attempts [] groups = groups
group_attempts (a ∷ rest) groups =
    group_attempts rest (put a.request_id (or_empty (get a.request_id groups) ++ a ∷ []) groups)

-- `len(clients) == 1`.
abbrev pub one_client : List Attempt → Bool
one_client [] = false
one_client (a ∷ rest) = all (λ (b : Attempt). str_eq a.client b.client) rest

-- `numbers == list(range(n, …))`.
abbrev pub numbered_from : ℕ → List Attempt → Bool
numbered_from n [] = true
numbered_from n (a ∷ rest) = a.attempt == n && numbered_from (n + 1) rest

-- The finding on an attempt that follows another one.
unfoldable pub judge_retry : Attempt → Attempt → List Finding
judge_retry prior current =
    if not (prior.response == 503)
    then record {
      code = "retry_after_non_overload";
      request_id = current.request_id;
      attempt = current.attempt;
    }
      ∷ []
    else elim prior.retry_after [
      | none ↦
          record {
            code = "unbounded_retry_after_503";
            request_id = current.request_id;
            attempt = current.attempt;
          }
          ∷ []
      | some wait ↦
          if ltb current.at_ms (prior.at_ms + wait)
          then record {
            code = "retry_before_retry_after";
            request_id = current.request_id;
            attempt = current.attempt;
          }
            ∷ []
          else []
    ]

-- The loop over `zip(records, records[1:])`.
unfoldable pub judge_retries : Attempt → List Attempt → List Finding
judge_retries prior [] = []
judge_retries prior (current ∷ rest) = judge_retry prior current ++ judge_retries current rest

unfoldable pub judge_group : ℕ → String → List Attempt → List Finding
judge_group limit name [] = []
judge_group limit name (a ∷ rest) =
    (if ltb limit (length (a ∷ rest))
      then record { code = "retry_amplification"; request_id = name; attempt = length (a ∷ rest) }
        ∷ []
      else [])
    ++ judge_retries a rest

-- The loop over the requests.
unfoldable pub judge_groups : ℕ → Groups → Result Error (List Finding)
judge_groups limit [] = ok []
judge_groups limit ((name, records) ∷ groups) = do
  guard (one_client records) (invalid "client")
  guard (numbered_from 1 records) (invalid "attempt")
  found ← judge_groups limit groups
  ok (judge_group limit name records ++ found)

abbrev pub succeeded : List Attempt → Bool
succeeded records = any (λ (a : Attempt). leb 200 a.response && ltb a.response 300) records

abbrev pub client_of : List Attempt → String
client_of [] = ""
client_of (a ∷ rest) = a.client

abbrev pub counts : Option (ℕ × ℕ) → ℕ × ℕ
counts none = (0, 0)
counts (some c) = c

-- `client_success` and `client_totals`.
unfoldable pub client_totals : Groups → List (String × (ℕ × ℕ)) → List (String × (ℕ × ℕ))
client_totals [] totals = totals
client_totals ((name, records) ∷ groups) totals =
    let client = client_of records in
    let (success, total) = counts (get client totals) in
    client_totals groups
      (put client ((if succeeded records then success + 1 else success), total + 1) totals)

abbrev pub longest : Groups → ℕ
longest [] = 0
longest ((name, records) ∷ groups) = max (length records) (longest groups)

module _ {Float : Type 0} (below : Float → Float → Bool) where
  -- `max(rates.values())`, from the rate `best`.
  unfoldable pub highest : Float → List Float → Float
  highest best [] = best
  highest best (x ∷ rest) = highest (if below best x then x else best) rest

  -- `min(rates.values())`, from the rate `best`.
  unfoldable pub lowest : Float → List Float → Float
  lowest best [] = best
  lowest best (x ∷ rest) = lowest (if below x best then x else best) rest

module _ {Float : Type 0} (percent : ℕ → ℕ → Float) (below : Float → Float → Bool)
    (differs_above : Float → Float → ℕ → Bool) where
  -- `rates.values()`.
  abbrev pub rates : List (String × (ℕ × ℕ)) → List Float
  rates = map (λ (c : String × (ℕ × ℕ)). percent c.1.0 c.1.1)

  -- `len(rates) >= 2 and max(rates.values()) - min(rates.values()) > fairness`.
  unfoldable pub is_unfair : ℕ → List Float → Bool
  is_unfair tolerance [] = false
  is_unfair tolerance (x ∷ rest) =
      leb 2 (length (x ∷ rest))
      && differs_above (highest below x rest) (lowest below x rest) tolerance

  unfoldable pub fairness_findings : ℕ → Groups → List Finding
  fairness_findings tolerance groups =
      if is_unfair tolerance (rates (client_totals groups []))
      then record { code = "client_unfairness"; request_id = ""; attempt = 0 } ∷ []
      else []

  -- Every finding has the severity `fail`.
  unfoldable pub analyze_overload : Value → Value → Value → Result Error Report
  analyze_overload transactions_value max_attempts tolerance_value = do
    values ← require_list transactions_value
    guard (not (length values == 0)) (invalid "transactions")
    guard (leb (length values) max_transactions) (invalid "transactions")
    limit ← bounded_int max_attempts 1 5
    tolerance ← bounded_int tolerance_value 0 100
    attempts ← read_attempts 0 values
    let groups = group_attempts attempts []
    found ← judge_groups limit groups
    let findings = found ++ fairness_findings tolerance groups
    ok (record {
      status = verdict (map (λ (f : Finding). "fail") findings);
      transactions = length values;
      logical_requests = length groups;
      maximum_attempts = longest groups;
      findings = findings;
    })
