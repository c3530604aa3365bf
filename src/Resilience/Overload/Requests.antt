-- ===== src/Resilience/Overload/Requests.antt =====
-- lib/sippycup_resilience/overload.py, the grouping of the transactions: every request has its own
-- attempts, in their order.
use mathlib.Core.List.{append_assoc, append-nil}
use sippycup.Prelude.{
  ℕ, ◌+◌, length, length-append, arith, String, List, [], ◌∷◌, ◌++◌, some, ◌≡◌, refl, sym, ap, ◌∙◌,
  str_eq, eq_iff, All, get, put, get-put, if◌then◌else◌, Bool-cases, inl, inr, Unique, put-Unique,
  Unique-get,
}
use sippycup.Resilience.Overload.{Attempt, Groups, or_empty, group_attempts}

-- The attempts of a request, in their order.
abbrev pub attempts_of : String → List Attempt → List Attempt
attempts_of name [] = []
attempts_of name (a ∷ rest) =
    if str_eq a.request_id name then a ∷ attempts_of name rest else attempts_of name rest

get-group_attempts :
    (name : String) (attempts : List Attempt) (groups : Groups)
    → or_empty (get name (group_attempts attempts groups))
      ≡ or_empty (get name groups) ++ attempts_of name attempts
unfolding group_attempts
get-group_attempts name [] groups = sym (append-nil (or_empty (get name groups)))
get-group_attempts name (a ∷ rest) groups =
    let next = put a.request_id (or_empty (get a.request_id groups) ++ a ∷ []) groups in
    let found = get-put name a.request_id (or_empty (get a.request_id groups) ++ a ∷ []) groups in
    get-group_attempts name rest next ∙ elim (Bool-cases (str_eq a.request_id name)) [
      | inl same ↦
          let named = (eq_iff a.request_id name).0 same in
          rw (found, same, ap (λ k. get k groups) named)
            (append_assoc (or_empty (get name groups)) (a ∷ []) (attempts_of name rest))
      | inr other ↦ rw (found, other) refl
    ]

group_attempts-Unique :
    (attempts : List Attempt) (groups : Groups)
    → Unique groups
    → Unique (group_attempts attempts groups)
unfolding group_attempts
group_attempts-Unique [] groups u = u
group_attempts-Unique (a ∷ rest) groups u =
    group_attempts-Unique rest _ (put-Unique a.request_id _ groups u)

each_group :
    (attempts : List Attempt) (groups xs : Groups)
    → ((name : String) → or_empty (get name groups) ≡ attempts_of name attempts)
    → All (λ (g : String × List Attempt). get g.0 groups ≡ some g.1) xs
    → All (λ (g : String × List Attempt). g.1 ≡ attempts_of g.0 attempts) xs
each_group attempts groups [] h k = tt
each_group attempts groups (g ∷ xs) h (found, k) =
    (sym (ap or_empty found) ∙ h g.0, each_group attempts groups xs h k)

-- The group of a request is exactly its attempts.
pub group_attempts-attempts_of :
    (attempts : List Attempt)
    → All
        (λ (g : String × List Attempt). g.1 ≡ attempts_of g.0 attempts)
        (group_attempts attempts [])
unfolding get
group_attempts-attempts_of attempts =
    each_group attempts (group_attempts attempts []) (group_attempts attempts [])
      (λ name. get-group_attempts name attempts [])
      (Unique-get (group_attempts attempts []) (group_attempts-Unique attempts [] tt))

-- The number of attempts in the groups.
abbrev pub total_attempts : Groups → ℕ
total_attempts [] = 0
total_attempts ((name, records) ∷ groups) = length records + total_attempts groups

put-total_attempts :
    (name : String) (a : Attempt) (groups : Groups) (old : List Attempt)
    → or_empty (get name groups) ≡ old
    → total_attempts (put name (old ++ a ∷ []) groups) ≡ total_attempts groups + 1
unfolding get put
put-total_attempts name a [] old h = omega (arith, length-append old (a ∷ []), ap length h)
put-total_attempts name a ((k, records) ∷ groups) old h = elim (Bool-cases (str_eq k name)) [
  | inl same ↦
      let known : records ≡ old = rw same at h in
      rw (same, ← known) (omega (arith, length-append records (a ∷ [])))
  | inr other ↦
      rw (other, put) (omega (arith, put-total_attempts name a groups old (rw (other, get) at h)))
]

pub group_attempts-total_attempts :
    (attempts : List Attempt) (groups : Groups)
    → total_attempts (group_attempts attempts groups) ≡ length attempts + total_attempts groups
unfolding group_attempts
group_attempts-total_attempts [] groups = omega arith
group_attempts-total_attempts (a ∷ rest) groups =
    let next = put a.request_id (or_empty (get a.request_id groups) ++ a ∷ []) groups in
    omega (
      arith,
      group_attempts-total_attempts rest next,
      put-total_attempts a.request_id a groups (or_empty (get a.request_id groups)) refl,
    )
