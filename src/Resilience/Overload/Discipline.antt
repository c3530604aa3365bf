-- ===== src/Resilience/Overload/Discipline.antt =====
-- lib/sippycup_resilience/overload.py: what the verdict means, and that no transaction is lost.
use sippycup.Prelude.{
  ℕ, suc, ◌<◌, String, Bool, true, false, not, ◌&&◌, some, List, [], ◌∷◌, ◌++◌, ok, guard,
  bind-elim, ok-injective, ◌≡◌, refl, sym, ap, ◌∙◌, arith, leb, ◌==◌, length, all, get,
  if◌then◌else◌, Bool-cases, inl, inr, All, map, ◌⊎◌, ◌↔◌, eq_iff,
}
use sippycup.Json.{Value}
use sippycup.Resilience.Common.{verdict, invalid, require_list, bounded_int}
use sippycup.Resilience.Common.Facts.{is_empty, is_empty-append, verdict-fails}
use sippycup.Resilience.Overload.{
  max_transactions, Attempt, Finding, Report, read_attempt, read_attempts, Groups, group_attempts,
  one_client, numbered_from, judge_groups, fairness_findings, analyze_overload, rates, is_unfair,
  client_totals, client_of,
}
use sippycup.Resilience.Overload.Retries.{is_disciplined, judge_groups-is_disciplined}
use sippycup.Resilience.Overload.Requests.{
  total_attempts, group_attempts-total_attempts, attempts_of, group_attempts-attempts_of,
}
use sippycup.Resilience.Overload.Clients.{
  successes_of, requests_of, client_totals-own, client_totals-positive, client_totals-every,
}
use sippycup.Resilience.Overload.Fairness.{FloatLaws, Fair, is_unfair-Fair}

length-read_attempts :
    (previous : ℕ) (values : List Value) (attempts : List Attempt)
    → read_attempts previous values ≡ ok attempts
    → length attempts ≡ length values
unfolding read_attempts
length-read_attempts previous [] attempts h = ap length (sym (ok-injective h))
length-read_attempts previous (v ∷ values) attempts h =
    bind-elim (read_attempt previous v) _ h (λ first e1 h1.
      bind-elim (read_attempts first.at_ms values) _ h1 (λ rest e2 h2.
        let size = length-read_attempts first.at_ms values rest e2 in
        ap length (sym (ok-injective h2)) ∙ ap (λ n. suc n) size))

module _ {Float : Type 0} (percent : ℕ → ℕ → Float) (below : Float → Float → Bool)
    (differs_above : Float → Float → ℕ → Bool) where
  -- What a report is made from: the grouped attempts, which are all the transactions, and the totals
  -- of the clients.
  pub record Analyzed (transactions max_attempts tolerance : Value) (r : Report) : Type 0 where
    pub values : List Value
    pub attempts : List Attempt
    pub groups : Groups
    pub totals : List (String × (ℕ × ℕ))
    pub limit : ℕ
    pub allowance : ℕ
    pub listed : require_list transactions ≡ ok values
    pub limited : bounded_int max_attempts 1 5 ≡ ok limit
    pub tolerated : bounded_int tolerance 0 100 ≡ ok allowance
    pub read : read_attempts 0 values ≡ ok attempts
    pub grouped : All (λ (g : String × List Attempt). g.1 ≡ attempts_of g.0 attempts) groups
    pub complete : total_attempts groups ≡ length values
    pub checked :
        all (λ (g : String × List Attempt). one_client g.1 && numbered_from 1 g.1) groups ≡ true
    pub owned :
        All
          (λ (e : String × (ℕ × ℕ)). e.1 ≡ (successes_of e.0 groups, requests_of e.0 groups))
          totals
    pub positive : All (λ (e : String × (ℕ × ℕ)). 0 < e.1.1) totals
    pub every_client :
        All
          (λ (g : String × List Attempt).
            get (client_of g.1) totals
            ≡ some (successes_of (client_of g.1) groups, requests_of (client_of g.1) groups))
          groups
    pub settled : (r.status ≡ "pass") ⊎ (r.status ≡ "fail")
    pub judged : (r.status ≡ "pass") ↔ (
        (all (λ (g : String × List Attempt). is_disciplined limit g.1) groups ≡ true)
        × Fair differs_above allowance (rates percent below differs_above totals))

  is_empty-fairness_findings :
      (tolerance : ℕ) (groups : Groups)
      → is_empty (fairness_findings percent below differs_above tolerance groups)
        ≡ not (
            is_unfair percent below differs_above tolerance
              (rates percent below differs_above (client_totals groups [])))
  unfolding fairness_findings
  is_empty-fairness_findings tolerance groups =
      elim (Bool-cases (
        is_unfair percent below differs_above tolerance
          (rates percent below differs_above (client_totals groups [])))) [
            | inl unfair ↦ rw unfair refl
            | inr fair ↦ rw fair refl
          ]

  status-judged :
      (disciplined unfair : Bool) (status : String) (P : Type 0)
      → status ≡ (if disciplined && not unfair then "pass" else "fail")
      → ((unfair ≡ false) ↔ P)
      → (status ≡ "pass") ↔ ((disciplined ≡ true) × P)
  status-judged true true status P h p =
      (λ e. absurd (ground (arith, eq_iff "fail" "pass")), λ (d, q). absurd (cc (p.1 q)))
  status-judged true false status P h p = (λ e. (refl, p.0 refl), λ q. h)
  status-judged false unfair status P h p =
      (λ e. absurd (ground (arith, eq_iff "fail" "pass")), λ (d, q). cc)

  status-settled :
      (b : Bool) (status : String)
      → status ≡ (if b then "pass" else "fail")
      → (status ≡ "pass") ⊎ (status ≡ "fail")
  status-settled true status h = inl h
  status-settled false status h = inr h

  judged_status :
      (limit tolerance : ℕ) (groups : Groups) (found : List Finding)
      → judge_groups limit groups ≡ ok found
      → verdict (
          map
            (λ (f : Finding). "fail")
            (found ++ fairness_findings percent below differs_above tolerance groups))
        ≡ (if all (λ (g : String × List Attempt). is_disciplined limit g.1) groups
              && not (
                  is_unfair percent below differs_above tolerance
                    (rates percent below differs_above (client_totals groups [])))
            then "pass"
            else "fail")
  judged_status limit tolerance groups found e =
      let fairness = fairness_findings percent below differs_above tolerance groups in
      let clean = (judge_groups-is_disciplined limit groups found e).0 in
      verdict-fails (found ++ fairness)
      ∙ rw (is_empty-append found fairness, clean, is_empty-fairness_findings tolerance groups) refl

  -- A report is returned only for transactions that the validators accept. The group of a request
  -- is exactly its attempts, in their order, and the groups have as many attempts as there are
  -- transactions; each request is of one client and its attempts are numbered from one. The
  -- client of each request has totals; all totals are the number of the requests of a client, at
  -- least one, and of those that succeeded. Where
  -- the floating-point numbers follow their laws, the report passes exactly when every request keeps
  -- to the limit of attempts and retries only after a 503 whose Retry-After has passed, and no two
  -- clients' rates of success differ by more than the tolerance; otherwise it fails.
  pub analyze_overload-Analyzed :
      FloatLaws below differs_above
      → (transactions max_attempts tolerance : Value) (r : Report)
      → analyze_overload percent below differs_above transactions max_attempts tolerance ≡ ok r
      → Analyzed transactions max_attempts tolerance r
  unfolding analyze_overload
  analyze_overload-Analyzed laws transactions max_attempts tolerance r h =
      bind-elim (require_list transactions) _ h (λ values e1 h1.
        bind-elim (guard (not (length values == 0)) (invalid "transactions")) _ h1 (λ u2 e2 h2.
          bind-elim (guard (leb (length values) max_transactions) (invalid "transactions")) _ h2
            (λ u3 e3 h3. bind-elim (bounded_int max_attempts 1 5) _ h3 (λ limit e4 h4.
              bind-elim (bounded_int tolerance 0 100) _ h4 (λ allowance e5 h5.
                bind-elim (read_attempts 0 values) _ h5 (λ attempts e6 h6.
                  bind-elim (judge_groups limit (group_attempts attempts [])) _ h6 (λ found e7 h7.
                    let groups = group_attempts attempts [] in
                    let totals = client_totals groups [] in
                    let status =
                      ap (λ (t : Report). t.status) (sym (ok-injective h7))
                      ∙ judged_status limit allowance groups found e7 in
                    record {
                      values = values;
                      attempts = attempts;
                      groups = groups;
                      totals = totals;
                      limit = limit;
                      allowance = allowance;
                      listed = e1;
                      limited = e4;
                      tolerated = e5;
                      read = e6;
                      grouped = group_attempts-attempts_of attempts;
                      complete = omega (
                        arith,
                        group_attempts-total_attempts attempts [],
                        length-read_attempts 0 values attempts e6,
                      );
                      checked = (judge_groups-is_disciplined limit groups found e7).1;
                      owned = client_totals-own groups;
                      positive = client_totals-positive groups;
                      every_client = client_totals-every groups;
                      settled = status-settled _ r.status status;
                      judged = status-judged _ _ r.status _ status (
                          is_unfair-Fair below differs_above laws percent allowance
                            (rates percent below differs_above totals));
                    })))))))
