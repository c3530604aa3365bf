-- ===== src/Resilience/Isolation/Verdict.antt =====
-- lib/sippycup_resilience/isolation.py, `analyze_isolation`: what the verdict means.
use sippycup.Prelude.{
  ℕ, ◌+◌, String, Bool, true, false, not, ◌&&◌, ◌||◌, some, List, [], ◌∷◌, ◌++◌, Result, ok, ◌>>=◌,
  guard, map_result, bind-elim, ok-injective, ◌≡◌, refl, sym, ap, ◌∙◌, arith, str_eq, eq_iff, leb,
  ◌==◌, length, all, All, sort_by, insert_sorted, if◌then◌else◌, Bool-cases, Option-cases, inl, inr,
}
use mathlib.Core.Path.{subst}
use sippycup.Json.{Value}
use sippycup.Matrix.Satisfiable.{text_le}
use sippycup.Resilience.Common.{
  Error, invalid, require_mapping, require_list, exact_keys, bounded_int, nonempty_string, boolean,
  get_item,
}
use sippycup.Resilience.Isolation.{
  Call, Observation, Finding, Report, max_calls, max_observations, is_version, equals_zero,
  validate_plan, call_named, marker_owner, ssrc_owner, is_owner, read_observation, fail_if, judge,
  judge_all, is_observed, partition_ids, unobserved, findings, report, analyze_isolation,
}
use sippycup.Resilience.Common.Facts.{is_empty, is_empty-append, verdict-fails}
use sippycup.Resilience.Isolation.Owners.{Apart, read_calls-Apart, owner_by-call}

-- The marker, the SSRC and the source port are those of the call that the observation names, and it
-- came before the teardown.
abbrev pub is_own : Observation × Call → Bool
is_own (o, c) =
    str_eq c.marker o.marker
    && c.ssrc == o.ssrc
    && c.source_port == o.source_port
    && not o.after_teardown

abbrev pub Names : List Call → Observation × Call → Type 0
Names calls p = call_named p.0.call_id calls ≡ some p.1

is_empty-fail_if : (b : Bool) (f : Finding) → is_empty (fail_if b f) ≡ not b
is_empty-fail_if true f = refl
is_empty-fail_if false f = refl

no_findings :
    (a b c d : Bool) (f g h k : Finding)
    → is_empty (fail_if a f ++ fail_if b g ++ fail_if c h ++ fail_if d k)
      ≡ (not a && (not b && (not c && not d)))
no_findings true b c d f g h k = refl
no_findings false true c d f g h k = refl
no_findings false false true d f g h k = refl
no_findings false false false d f g h k = is_empty-fail_if d k

own_flags :
    (m : Bool) (x y p q : ℕ) (t : Bool)
    → (not (not m) && (not (not (x == y) || not (y == x)) && (not (not (q == p)) && not t)))
      ≡ (m && x == y && p == q && not t)
own_flags m x y p q t = ground arith

judge-is_own :
    (calls : List Call) (index : ℕ) (p : Observation × Call)
    → Apart calls
    → Names calls p
    → is_empty (judge calls index p) ≡ is_own p
unfolding judge
judge-is_own calls index (o, c) apart named =
    let marker : is_owner (marker_owner calls o.marker) o.call_id ≡ str_eq c.marker o.marker =
      owner_by-call (λ d. str_eq d.marker o.marker) o.call_id calls c
        (λ d e k l.
          ground
            (arith, eq_iff d.marker o.marker, eq_iff e.marker o.marker, eq_iff d.marker e.marker))
        apart named in
    let ssrc : is_owner (ssrc_owner calls o.ssrc) o.call_id ≡ (c.ssrc == o.ssrc) =
      owner_by-call (λ d. d.ssrc == o.ssrc) o.call_id calls c (λ d e k l. ground arith) apart
        named in
    no_findings _ _ _ o.after_teardown _ _ _ _
    ∙ rw (marker, ssrc)
        (own_flags (str_eq c.marker o.marker) c.ssrc o.ssrc c.source_port o.source_port
          o.after_teardown)

judge_all-is_own :
    (calls : List Call) (index : ℕ) (os : List (Observation × Call))
    → Apart calls
    → All (Names calls) os
    → is_empty (judge_all calls index os) ≡ all is_own os
unfolding judge_all
judge_all-is_own calls index [] apart h = refl
judge_all-is_own calls index (o ∷ os) apart h =
    is_empty-append (judge calls index o) (judge_all calls (index + 1) os)
    ∙ rw (judge-is_own calls index o apart h.0, judge_all-is_own calls (index + 1) os apart h.1)
        refl

insert_sorted_not_empty :
    (x : String) (xs : List String) → is_empty (insert_sorted text_le x xs) ≡ false
unfolding insert_sorted
insert_sorted_not_empty x [] = refl
insert_sorted_not_empty x (y ∷ ys) = elim (Bool-cases (text_le x y)) [
  | inl e ↦ rw e refl
  | inr e ↦ rw e refl
]

is_empty-sort_by : (xs : List String) → is_empty (sort_by text_le xs) ≡ is_empty xs
unfolding sort_by
is_empty-sort_by [] = refl
is_empty-sort_by (x ∷ xs) = insert_sorted_not_empty x (sort_by text_le xs)

is_empty-unobserved : (xs : List String) → is_empty (unobserved xs) ≡ is_empty xs
unfolding unobserved
is_empty-unobserved [] = refl
is_empty-unobserved (x ∷ xs) = refl

is_empty-partition_ids :
    (p : String → Bool) (calls : List Call)
    → is_empty (partition_ids (λ name. not (p name)) calls) ≡ all (λ (c : Call). p c.call_id) calls
is_empty-partition_ids p [] = refl
is_empty-partition_ids p (c ∷ calls) = elim (Bool-cases (p c.call_id)) [
  | inl e ↦ rw e (is_empty-partition_ids p calls)
  | inr e ↦ rw e refl
]

pub report_status :
    (calls : List Call) (os : List (Observation × Call))
    → Apart calls
    → All (Names calls) os
    → (report calls os).status ≡ (
        if all is_own os && all (λ (c : Call). is_observed os c.call_id) calls
        then "pass"
        else "fail")
unfolding report findings
report_status calls os apart named =
    let missing = partition_ids (λ name. not (is_observed os name)) calls in
    let all_observed : is_empty (unobserved (sort_by text_le missing))
        ≡ all (λ (c : Call). is_observed os c.call_id) calls =
      is_empty-unobserved (sort_by text_le missing)
      ∙ is_empty-sort_by missing
      ∙ is_empty-partition_ids (is_observed os) calls in
    let clean = is_empty-append (judge_all calls 0 os) (unobserved (sort_by text_le missing)) in
    verdict-fails (judge_all calls 0 os ++ unobserved (sort_by text_le missing))
    ∙ rw (clean, judge_all-is_own calls 0 os apart named, all_observed) refl

read_observation-Names :
    (calls : List Call) (raw : Value) (p : Observation × Call)
    → read_observation calls raw ≡ ok p
    → Names calls p
unfolding read_observation
read_observation-Names calls raw p h = bind-elim (require_mapping raw) _ h (λ item e1 h1.
    bind-elim
      (exact_keys item ("callId" ∷ "marker" ∷ "ssrc" ∷ "sourcePort" ∷ "afterTeardown" ∷ []) []) _ h1
      (λ u e2 h2. bind-elim (get_item item "callId") _ h2 (λ raw_id e3 h3.
        bind-elim (nonempty_string raw_id 128) _ h3 (λ call_id e4 h4.
          elim (Option-cases (call_named call_id calls)) [
            | inl missing ↦ cc (rw (missing, ◌>>=◌) at h4)
            | inr (c, found) ↦
                bind-elim (get_item item "marker") _ (rw (found, ◌>>=◌) at h4) (λ raw_marker e5 h5.
                  bind-elim (nonempty_string raw_marker 64) _ h5 (λ marker e6 h6.
                    bind-elim (get_item item "ssrc") _ h6 (λ raw_ssrc e7 h7.
                      bind-elim (bounded_int raw_ssrc 1 4294967295) _ h7 (λ ssrc e8 h8.
                        bind-elim (get_item item "sourcePort") _ h8 (λ raw_port e9 h9.
                          bind-elim (bounded_int raw_port 1024 65535) _ h9 (λ source_port e10 h10.
                            bind-elim (get_item item "afterTeardown") _ h10 (λ raw_after e11 h11.
                              bind-elim (boolean raw_after) _ h11 (λ after_teardown e12 h12.
                                subst (Names calls) (ok-injective h12) found))))))))
          ]))))

map_result-All {κ} :
    (P : Observation × Call → Type κ) (f : Value → Result Error (Observation × Call))
    (values : List Value) (os : List (Observation × Call))
    → ((v : Value) (p : Observation × Call) → f v ≡ ok p → P p)
    → map_result f values ≡ ok os
    → All P os
unfolding map_result
map_result-All P f [] os each h = subst (All P) (ok-injective h) tt
map_result-All P f (v ∷ values) os each h = bind-elim (f v) _ h (λ p e h1.
    bind-elim (map_result f values) _ h1 (λ ps q h2.
      subst (All P) (ok-injective h2) (each v p e, map_result-All P f values ps each q)))

-- The calls of a validated plan differ.
pub validate_plan-Apart :
    (plan : Value) (calls : List Call) → validate_plan plan ≡ ok calls → Apart calls
unfolding validate_plan
validate_plan-Apart plan calls h = bind-elim (require_mapping plan) _ h (λ fields e1 h1.
    bind-elim
      (exact_keys fields
        ("apiVersion" ∷ "seed" ∷ "callCount" ∷ "calls" ∷ "networkExecutions" ∷ "claim" ∷ []) [])
      _ h1
      (λ u2 e2 h2. bind-elim (get_item fields "apiVersion") _ h2 (λ version e3 h3.
        bind-elim (get_item fields "networkExecutions") _ h3 (λ executions e4 h4.
          bind-elim (guard (is_version version && equals_zero executions) (invalid "plan")) _ h4
            (λ u5 e5 h5. bind-elim (get_item fields "callCount") _ h5 (λ raw_count e6 h6.
              bind-elim (bounded_int raw_count 2 max_calls) _ h6 (λ call_count e7 h7.
                bind-elim (get_item fields "calls") _ h7 (λ raw_calls e8 h8.
                  bind-elim (require_list raw_calls) _ h8 (λ values e9 h9.
                    bind-elim (guard (length values == call_count) (invalid "callCount")) _ h9
                      (λ u10 e10 h10. (read_calls-Apart [] values calls h10).0))))))))))

-- What a report is made from: the calls of the plan, which differ, and the observations, each with
-- the call that it names.
pub record Analyzed (plan observations : Value) (r : Report) : Type 0 where
  pub calls : List Call
  pub os : List (Observation × Call)
  pub planned : validate_plan plan ≡ ok calls
  pub read : (require_list observations >>= map_result (read_observation calls)) ≡ ok os
  pub status : r.status ≡ (
      if all is_own os && all (λ (c : Call). is_observed os c.call_id) calls
      then "pass"
      else "fail")

-- A report is returned only for a plan and observations that the validators accept, and it passes
-- exactly when every observation has the marker, the SSRC and the source port of the call that it
-- names and came before the teardown, and every call of the plan is observed.
pub analyze_isolation-Analyzed :
    (plan observations : Value) (r : Report)
    → analyze_isolation plan observations ≡ ok r
    → Analyzed plan observations r
unfolding analyze_isolation
analyze_isolation-Analyzed plan observations r h =
    bind-elim (validate_plan plan) _ h (λ calls e1 h1.
      bind-elim (require_list observations) _ h1 (λ values e2 h2.
        bind-elim (guard (leb (length values) max_observations) (invalid "observations")) _ h2
          (λ u3 e3 h3. bind-elim (map_result (read_observation calls) values) _ h3 (λ os e4 h4.
            record {
              calls = calls;
              os = os;
              planned = e1;
              read = rw (e2, ◌>>=◌) e4;
              status =
                  ap (λ (t : Report). t.status) (sym (ok-injective h4))
                  ∙ report_status calls os (validate_plan-Apart plan calls e1) (
                      map_result-All (Names calls) (read_observation calls) values os
                        (read_observation-Names calls) e4);
            }))))
