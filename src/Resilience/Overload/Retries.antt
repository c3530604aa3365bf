-- ===== src/Resilience/Overload/Retries.antt =====
-- lib/sippycup_resilience/overload.py, the loop over the requests: the attempts of a disciplined
-- request give no finding.
use sippycup.Prelude.{
  ℕ, ◌+◌, String, Bool, true, false, ◌&&◌, none, some, List, [], ◌∷◌, ok, guard, bind-elim,
  ok-injective, ◌≡◌, refl, sym, ap, ◌∙◌, arith, leb, ltb, ◌==◌, length, all, if◌then◌else◌,
  Bool-cases, Option-cases, inl, inr,
}
use mathlib.Core.Path.{subst}
use sippycup.Resilience.Common.{Error, invalid}
use sippycup.Resilience.Common.Facts.{is_empty, is_empty-append}
use sippycup.Resilience.Overload.{
  Attempt, Finding, Groups, one_client, numbered_from, judge_retry, judge_retries, judge_group,
  judge_groups,
}

-- The retry follows an overload response, no sooner than its Retry-After says.
abbrev pub is_allowed_retry : Attempt → Attempt → Bool
is_allowed_retry prior current = prior.response == 503 && (elim prior.retry_after [
  | none ↦ false
  | some wait ↦ leb (prior.at_ms + wait) current.at_ms
])

abbrev pub all_allowed : Attempt → List Attempt → Bool
all_allowed prior [] = true
all_allowed prior (current ∷ rest) = is_allowed_retry prior current && all_allowed current rest

-- The attempts of a request: within the limit, of one client, numbered from 1, and all its retries
-- are allowed.
abbrev pub is_disciplined : ℕ → List Attempt → Bool
is_disciplined limit [] = true
is_disciplined limit (a ∷ rest) = leb (length (a ∷ rest)) limit && all_allowed a rest

judge_retry-is_allowed_retry :
    (prior current : Attempt)
    → is_empty (judge_retry prior current) ≡ is_allowed_retry prior current
unfolding judge_retry
judge_retry-is_allowed_retry prior current = elim (Bool-cases (prior.response == 503)) [
  | inr other ↦ rw other refl
  | inl overload ↦ elim (Option-cases prior.retry_after) [
    | inl missing ↦ rw (overload, missing) refl
    | inr (wait, given) ↦ rw (overload, given) (too_soon (prior.at_ms + wait) current.at_ms _)
  ]
]
  where
    too_soon :
        (due at : ℕ) (f : Finding) → is_empty (if ltb at due then f ∷ [] else []) ≡ leb due at
    too_soon due at f = ground arith

judge_retries-all_allowed :
    (prior : Attempt) (rest : List Attempt)
    → is_empty (judge_retries prior rest) ≡ all_allowed prior rest
unfolding judge_retries
judge_retries-all_allowed prior [] = refl
judge_retries-all_allowed prior (current ∷ rest) =
    is_empty-append (judge_retry prior current) (judge_retries current rest)
    ∙ rw (judge_retry-is_allowed_retry prior current, judge_retries-all_allowed current rest) refl

judge_group-is_disciplined :
    (limit : ℕ) (name : String) (records : List Attempt)
    → is_empty (judge_group limit name records) ≡ is_disciplined limit records
unfolding judge_group
judge_group-is_disciplined limit name [] = refl
judge_group-is_disciplined limit name (a ∷ rest) =
    is_empty-append (if ltb limit (length (a ∷ rest)) then _ ∷ [] else []) (judge_retries a rest)
    ∙ rw (judge_retries-all_allowed a rest)
        (within limit (length (a ∷ rest)) _ (all_allowed a rest))
  where
    within :
        (n k : ℕ) (f : Finding) (b : Bool)
        → is_empty (if ltb n k then f ∷ [] else []) && b ≡ leb k n && b
    within n k f b = ground arith

-- What the loop over the requests finds, and what it checks.
pub judge_groups-is_disciplined :
    (limit : ℕ) (groups : Groups) (found : List Finding)
    → judge_groups limit groups ≡ ok found
    → (is_empty found ≡ all (λ (g : String × List Attempt). is_disciplined limit g.1) groups)
      × (all (λ (g : String × List Attempt). one_client g.1 && numbered_from 1 g.1) groups ≡ true)
unfolding judge_groups
judge_groups-is_disciplined limit [] found h =
    subst (λ fs. (is_empty fs ≡ true) × (true ≡ true)) (ok-injective h) (refl, refl)
judge_groups-is_disciplined limit ((name, records) ∷ groups) found h =
    bind-elim (guard (one_client records) (invalid "client")) _ h (λ u1 e1 h1.
      bind-elim (guard (numbered_from 1 records) (invalid "attempt")) _ h1 (λ u2 e2 h2.
        bind-elim (judge_groups limit groups) _ h2 (λ rest e3 h3.
          let (clean, checked) = judge_groups-is_disciplined limit groups rest e3 in
          (
            ap is_empty (sym (ok-injective h3))
                ∙ is_empty-append (judge_group limit name records) rest
                ∙ rw (judge_group-is_disciplined limit name records, clean) refl,
            rw (passes _ _ u1 e1, passes _ _ u2 e2, checked) refl,
          ))))
  where
    passes : (b : Bool) (e : Error) (u : Unit {0}) → guard b e ≡ ok u → b ≡ true
    passes true e u k = refl
    passes false e u k = cc
