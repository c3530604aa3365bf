-- ===== src/Resilience/Isolation/Clean.antt =====
-- lib/sippycup_resilience/isolation.py: the clean observations of a plan, read back.
use sippycup.Prelude.{
  ℕ, suc, ◌≤◌, String, Bool, true, false, not, ◌&&◌, ◌||◌, some, List, [], ◌∷◌, map, ok, ◌>>=◌,
  guard, map_result, bind-elim, ok-injective, ◌≡◌, refl, ap, ◌∙◌, arith, str_eq, eq_iff, leb, ltb,
  ◌==◌, length, any, all, All, Bool-cases, inl, inr,
}
use mathlib.Core.Path.{subst}
use Prim.Native.String.{count}
use sippycup.Json.{Value, Items, nil, cons, arr, elements, str, int, pos, lookup, has_key, keys}
use sippycup.Resilience.Common.{
  invalid, require_mapping, require_list, exact_keys, bounded_int, nonempty_string, boolean,
  get_item,
}
use sippycup.Resilience.Isolation.{
  Call, Observation, Report, max_calls, max_observations, is_version, equals_zero, is_watermark,
  clashes, read_call, read_calls, validate_plan, call_named, read_observation, is_observed, report,
  analyze_isolation, clean_observation, clean_observations,
}
use sippycup.Resilience.Common.Facts.{bounded_int_range}
use sippycup.Resilience.Isolation.Owners.{Apart}
use sippycup.Resilience.Isolation.Verdict.{Names, is_own, validate_plan-Apart, report_status}

-- A JSON array of the documents.
abbrev pub array_of : List Value → Items
array_of [] = nil
array_of (v ∷ vs) = cons v (array_of vs)

-- The fields are accepted again.
record Accepted (c : Call) : Type 0 where
  id : nonempty_string (str c.call_id) 128 ≡ ok c.call_id
  mark : nonempty_string (str c.marker) 64 ≡ ok c.marker
  source : bounded_int (int (pos c.ssrc)) 1 4294967295 ≡ ok c.ssrc
  port : bounded_int (int (pos c.source_port)) 1024 65535 ≡ ok c.source_port

nonempty_string_again :
    (v : Value) (n : ℕ) (s : String) → nonempty_string v n ≡ ok s → nonempty_string (str s) n ≡ ok s
unfolding nonempty_string
nonempty_string_again (str t) n s h = elim (Bool-cases (str_eq t "" || ltb n (count t))) [
  | inl bad ↦ cc (rw bad at h)
  | inr good ↦
      let same : t ≡ s = ok-injective (rw good at h) in
      subst (λ u. nonempty_string (str u) n ≡ ok u) same (rw (good, nonempty_string) refl)
]
nonempty_string_again _ n s h = cc

bounded_int_again :
    (v : Value) (a b n : ℕ) → bounded_int v a b ≡ ok n → bounded_int (int (pos n)) a b ≡ ok n
unfolding bounded_int
bounded_int_again (int (pos m)) a b n h = elim (Bool-cases (leb a m && leb m b)) [
  | inr bad ↦ cc (rw bad at h)
  | inl good ↦
      let same : m ≡ n = ok-injective (rw good at h) in
      subst (λ k. bounded_int (int (pos k)) a b ≡ ok k) same (rw (good, bounded_int) refl)
]
bounded_int_again _ a b n h = cc

read_call-Accepted : (raw : Value) (c : Call) → read_call raw ≡ ok c → Accepted c
unfolding read_call
read_call-Accepted raw c h = bind-elim (require_mapping raw) _ h (λ call e1 h1.
    bind-elim
      (exact_keys call
        ("callId" ∷ "ssrc" ∷ "marker" ∷ "dtmf" ∷ "sourcePort" ∷ "destinationPort" ∷ []) [])
      _ h1
      (λ u2 e2 h2. bind-elim (get_item call "callId") _ h2 (λ raw_id e3 h3.
        bind-elim (nonempty_string raw_id 128) _ h3 (λ call_id e4 h4.
          bind-elim (get_item call "marker") _ h4 (λ raw_marker e5 h5.
            bind-elim (nonempty_string raw_marker 64) _ h5 (λ marker e6 h6.
              bind-elim (guard (is_watermark marker) (invalid "marker")) _ h6 (λ u7 e7 h7.
                bind-elim (get_item call "ssrc") _ h7 (λ raw_ssrc e8 h8.
                  bind-elim (bounded_int raw_ssrc 1 4294967295) _ h8 (λ ssrc e9 h9.
                    bind-elim (get_item call "sourcePort") _ h9 (λ raw_source e10 h10.
                      bind-elim (bounded_int raw_source 1024 65535) _ h10 (λ source_port e11 h11.
                        bind-elim (get_item call "destinationPort") _ h11
                          (λ raw_destination e12 h12.
                            bind-elim (bounded_int raw_destination 1024 65535) _ h12
                              (λ destination_port e13 h13.
                                subst Accepted (ok-injective h13) (record {
                                  id = nonempty_string_again raw_id 128 call_id e4;
                                  mark = nonempty_string_again raw_marker 64 marker e6;
                                  source = bounded_int_again raw_ssrc 1 4294967295 ssrc e9;
                                  port = bounded_int_again raw_source 1024 65535 source_port e11;
                                }))))))))))))))

-- The observation that the document of a call is read as.
abbrev own_observation : Call → Observation × Call
own_observation c = (
  record {
    call_id = c.call_id;
    marker = c.marker;
    ssrc = c.ssrc;
    source_port = c.source_port;
    after_teardown = false;
  },
  c,
)

read_observation-clean :
    (calls : List Call) (c : Call)
    → Accepted c
    → call_named c.call_id calls ≡ some c
    → read_observation calls (clean_observation c) ≡ ok (own_observation c)
unfolding read_observation clean_observation require_mapping exact_keys get_item lookup has_key keys
    boolean
read_observation-clean calls c a named = rw (a.id, named, a.mark, a.source, a.port, ◌>>=◌) refl

read_calls-Accepted :
    (seen : List Call) (values : List Value) (calls : List Call)
    → read_calls seen values ≡ ok calls
    → All Accepted calls × (length calls ≡ length values)
unfolding read_calls
read_calls-Accepted seen [] calls h =
    subst (λ (cs : List Call). All Accepted cs × (length cs ≡ 0)) (ok-injective h) (tt, omega arith)
read_calls-Accepted seen (v ∷ values) calls h = bind-elim (read_call v) _ h (λ call p h1.
    bind-elim (guard (not (any (clashes call) seen)) (invalid "unique")) _ h1 (λ u q h2.
      bind-elim (read_calls (call ∷ seen) values) _ h2 (λ rest r h3.
        let (accepted, size) = read_calls-Accepted (call ∷ seen) values rest r in
        subst (λ (cs : List Call). All Accepted cs × (length cs ≡ suc (length values)))
          (ok-injective h3) ((read_call-Accepted v call p, accepted), omega (arith, size)))))

validate_plan-Accepted :
    (plan : Value) (calls : List Call)
    → validate_plan plan ≡ ok calls
    → All Accepted calls × (length calls ≤ max_calls)
unfolding validate_plan
validate_plan-Accepted plan calls h = bind-elim (require_mapping plan) _ h (λ fields e1 h1.
    bind-elim
      (exact_keys fields
        ("apiVersion" ∷ "seed" ∷ "callCount" ∷ "calls" ∷ "networkExecutions" ∷ "claim" ∷ []) [])
      _ h1
      (λ u2 e2 h2. bind-elim (get_item fields "apiVersion") _ h2 (λ version e3 h3.
        bind-elim (get_item fields "networkExecutions") _ h3 (λ executions e4 h4.
          bind-elim (guard (is_version version && equals_zero executions) (invalid "plan")) _ h4
            (λ u5 e5 h5. bind-elim (get_item fields "callCount") _ h5 (λ raw_count e6 h6.
              bind-elim (bounded_int raw_count 2 max_calls) _ h6 (λ call_count e7 h7.
                bind-elim (get_item fields "calls") _ h7 (λ raw_calls e8 h8.
                  bind-elim (require_list raw_calls) _ h8 (λ values e9 h9.
                    bind-elim (guard (length values == call_count) (invalid "callCount")) _ h9
                      (λ u10 e10 h10.
                        let (accepted, size) = read_calls-Accepted [] values calls h10 in
                        (
                          accepted,
                          fits (length values) call_count (length calls) u10 e10
                              (at_most raw_count call_count e7) size,
                        )))))))))))
  where
    at_most : (v : Value) (n : ℕ) → bounded_int v 2 max_calls ≡ ok n → n ≤ max_calls
    at_most v n e = (bounded_int_range v 2 max_calls n e).1

    fits :
        (values n calls : ℕ) (u : Unit {0})
        → guard (values == n) (invalid "callCount") ≡ ok u
        → n ≤ max_calls
        → calls ≡ values
        → calls ≤ max_calls
    fits values n calls u e l size = ground arith

call_named_self :
    (calls : List Call)
    → Apart calls
    → All (λ (c : Call). call_named c.call_id calls ≡ some c) calls
unfolding Apart call_named
call_named_self [] a = tt
call_named_self (d ∷ calls) a =
    (rw ((eq_iff d.call_id d.call_id).1 refl) refl, later calls a.0 (call_named_self calls a.1))
  where
    later :
        (cs : List Call)
        → All (λ c. clashes d c ≡ false) cs
        → All (λ (c : Call). call_named c.call_id calls ≡ some c) cs
        → All (λ (c : Call). call_named c.call_id (d ∷ calls) ≡ some c) cs
    later [] h k = tt
    later (c ∷ cs) h k =
        let other : str_eq d.call_id c.call_id ≡ false = ground (arith, h.0) in
        (rw (other, call_named) k.0, later cs h.1 k.1)

map_result-own_observation :
    (calls cs : List Call)
    → All Accepted cs
    → All (λ (c : Call). call_named c.call_id calls ≡ some c) cs
    → map_result (read_observation calls) (map clean_observation cs) ≡ ok (map own_observation cs)
unfolding map_result
map_result-own_observation calls [] a n = refl
map_result-own_observation calls (c ∷ cs) a n =
    rw (read_observation-clean calls c a.0 n.0, ◌>>=◌)
      (rw (map_result-own_observation calls cs a.1 n.1, ◌>>=◌) refl)

elements-array_of : (vs : List Value) → elements (array_of vs) ≡ vs
elements-array_of [] = refl
elements-array_of (v ∷ vs) = ap (λ rest. v ∷ rest) (elements-array_of vs)

own_observations_own : (cs : List Call) → all is_own (map own_observation cs) ≡ true
own_observations_own [] = refl
own_observations_own (c ∷ cs) =
    rw ((eq_iff c.marker c.marker).1 refl, own_observations_own cs)
      (same_numbers c.ssrc c.source_port)
  where
    same_numbers : (x p : ℕ) → (true && x == x && p == p && not false) && true ≡ true
    same_numbers x p = ground arith

all-implied {ℓ} :
    {A : Type ℓ} (p q : A → Bool) (xs : List A)
    → ((x : A) → p x ≡ true → q x ≡ true)
    → all p xs ≡ true
    → all q xs ≡ true
all-implied p q [] f h = refl
all-implied p q (x ∷ xs) f h = ground (arith, f x, all-implied p q xs f)

own_observations_observe :
    (cs : List Call) → all (λ (c : Call). is_observed (map own_observation cs) c.call_id) cs ≡ true
own_observations_observe [] = refl
own_observations_observe (c ∷ cs) = rw ((eq_iff c.call_id c.call_id).1 refl) (
    all-implied (λ (d : Call). is_observed (map own_observation cs) d.call_id)
      (λ (d : Call). is_observed (map own_observation (c ∷ cs)) d.call_id) cs
      (λ d h.
        observed_more (str_eq c.call_id d.call_id) (is_observed (map own_observation cs) d.call_id)
          h)
      (own_observations_observe cs))
  where
    observed_more : (a b : Bool) → b ≡ true → a || b ≡ true
    observed_more a b h = ground arith

named_own :
    (calls cs : List Call)
    → All (λ (c : Call). call_named c.call_id calls ≡ some c) cs
    → All (Names calls) (map own_observation cs)
named_own calls [] h = tt
named_own calls (c ∷ cs) h = (h.0, named_own calls cs h.1)

length-map_clean : (cs : List Call) → length (map clean_observation cs) ≡ length cs
length-map_clean [] = refl
length-map_clean (c ∷ cs) = ap (λ n. suc n) (length-map_clean cs)

-- The clean observations of a plan that is accepted exist, and the analysis of the plan with them
-- returns a report that passes.
pub clean_observations-Clean :
    (plan : Value) (calls : List Call)
    → validate_plan plan ≡ ok calls
    → (docs : List Value) × (clean_observations plan ≡ ok docs)
      × (r : Report) × (analyze_isolation plan (arr (array_of docs)) ≡ ok r)
      × (r.status ≡ "pass")
unfolding clean_observations analyze_isolation require_list
clean_observations-Clean plan calls h =
    let apart = validate_plan-Apart plan calls h in
    let (accepted, size) = validate_plan-Accepted plan calls h in
    let named = call_named_self calls apart in
    let docs = map clean_observation calls in
    let os = map own_observation calls in
    let few : leb (length docs) max_observations ≡ true =
      fits (length docs) (length calls) (length-map_clean calls) size in
    (
      docs,
      rw (h, ◌>>=◌) refl,
      report calls os,
      rw
          (
            h,
            ◌>>=◌,
            elements-array_of docs,
            few,
            map_result-own_observation calls calls accepted named,
          )
          refl,
      report_status calls os apart (named_own calls calls named)
          ∙ rw (own_observations_own calls, own_observations_observe calls) refl,
    )
  where
    fits : (n k : ℕ) → n ≡ k → k ≤ max_calls → leb n max_observations ≡ true
    fits n k e l = ground arith
