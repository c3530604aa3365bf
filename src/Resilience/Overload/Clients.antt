-- ===== src/Resilience/Overload/Clients.antt =====
-- lib/sippycup_resilience/overload.py, `client_totals` and `client_success`: every client has the
-- number of its requests, and of those that succeeded.
use sippycup.Prelude.{
  ℕ, ◌+◌, ◌<◌, String, Bool, ◌&&◌, List, [], ◌∷◌, some, ◌≡◌, refl, sym, ap, ◌∙◌, arith, str_eq,
  eq_iff, All, get, put, get-put, if◌then◌else◌, Bool-cases, Option-cases, inl, inr, Unique,
  put-Unique, Unique-get,
}
use sippycup.Resilience.Overload.{Attempt, Groups, client_of, counts, succeeded, client_totals}

abbrev pub is_of : String → String × List Attempt → Bool
is_of client g = str_eq (client_of g.1) client

-- The number of requests of a client.
abbrev pub requests_of : String → Groups → ℕ
requests_of client [] = 0
requests_of client (g ∷ groups) = (if is_of client g then 1 else 0) + requests_of client groups

-- The number of requests of a client with a response of 200 to 299.
abbrev pub successes_of : String → Groups → ℕ
successes_of client [] = 0
successes_of client (g ∷ groups) =
    (if is_of client g && succeeded g.1 then 1 else 0) + successes_of client groups

counted : (b : Bool) (n s : ℕ) → (if b then n + 1 else n) + s ≡ n + ((if b then 1 else 0) + s)
counted b n s = ground arith

get-client_totals :
    (client : String) (groups : Groups) (totals : List (String × (ℕ × ℕ)))
    → ((counts (get client (client_totals groups totals))).0
        ≡ (counts (get client totals)).0 + successes_of client groups)
      × ((counts (get client (client_totals groups totals))).1
          ≡ (counts (get client totals)).1 + requests_of client groups)
unfolding client_totals
get-client_totals client [] totals = (omega arith, omega arith)
get-client_totals client ((name, records) ∷ groups) totals =
    let own = client_of records in
    let old = counts (get own totals) in
    let new : ℕ × ℕ = ((if succeeded records then old.0 + 1 else old.0), old.1 + 1) in
    let found = get-put client own new totals in
    let rest = get-client_totals client groups (put own new totals) in
    elim (Bool-cases (str_eq own client)) [
      | inl same ↦
          let known : old ≡ counts (get client totals) =
            ap (λ k. counts (get k totals)) ((eq_iff own client).0 same) in
          (
            rest.0
                ∙ rw (found, same, ← known)
                    (counted (succeeded records) old.0 (successes_of client groups)),
            rest.1 ∙ rw (found, same, ← known) (omega arith),
          )
      | inr other ↦
          (rest.0 ∙ rw (found, other) (omega arith), rest.1 ∙ rw (found, other) (omega arith))
    ]

client_totals-Unique :
    (groups : Groups) (totals : List (String × (ℕ × ℕ)))
    → Unique totals
    → Unique (client_totals groups totals)
unfolding client_totals
client_totals-Unique [] totals u = u
client_totals-Unique ((name, records) ∷ groups) totals u =
    client_totals-Unique groups _ (put-Unique (client_of records) _ totals u)

-- The entry of a client that is found has its numbers.
found_entry :
    (client : String) (groups : Groups) (c : ℕ × ℕ)
    → get client (client_totals groups []) ≡ some c
    → c ≡ (successes_of client groups, requests_of client groups)
unfolding get
found_entry client groups c found =
    let (s, t) = get-client_totals client groups [] in
    let successes : c.0 ≡ successes_of client groups =
      sym (ap (λ v. (counts v).0) found) ∙ s ∙ omega arith in
    let requests : c.1 ≡ requests_of client groups =
      sym (ap (λ v. (counts v).1) found) ∙ t ∙ omega arith in
    λ i. (successes i, requests i)

each_entry :
    (groups : Groups) (xs : List (String × (ℕ × ℕ)))
    → All (λ (e : String × (ℕ × ℕ)). get e.0 (client_totals groups []) ≡ some e.1) xs
    → All (λ (e : String × (ℕ × ℕ)). e.1 ≡ (successes_of e.0 groups, requests_of e.0 groups)) xs
each_entry groups [] h = tt
each_entry groups (e ∷ xs) (found, h) = (found_entry e.0 groups e.1 found, each_entry groups xs h)

-- The totals of every client are its own.
pub client_totals-own :
    (groups : Groups)
    → All
        (λ (e : String × (ℕ × ℕ)). e.1 ≡ (successes_of e.0 groups, requests_of e.0 groups))
        (client_totals groups [])
client_totals-own groups =
    each_entry groups (client_totals groups [])
      (Unique-get (client_totals groups []) (client_totals-Unique groups [] tt))

add_request :
    (g : String × List Attempt) (groups xs : Groups)
    → All (λ (h : String × List Attempt). 0 < requests_of (client_of h.1) groups) xs
    → All (λ (h : String × List Attempt). 0 < requests_of (client_of h.1) (g ∷ groups)) xs
add_request g groups [] h = tt
add_request g groups (x ∷ xs) (first, h) = (omega arith, add_request g groups xs h)

requests_of-own :
    (groups : Groups)
    → All (λ (g : String × List Attempt). 0 < requests_of (client_of g.1) groups) groups
requests_of-own [] = tt
requests_of-own (g ∷ groups) = (
  rw ((eq_iff (client_of g.1) (client_of g.1)).1 refl) (omega arith),
  add_request g groups groups (requests_of-own groups),
)

each_client :
    (groups xs : Groups)
    → All (λ (g : String × List Attempt). 0 < requests_of (client_of g.1) groups) xs
    → All
        (λ (g : String × List Attempt).
          get (client_of g.1) (client_totals groups [])
          ≡ some (successes_of (client_of g.1) groups, requests_of (client_of g.1) groups))
        xs
unfolding get
each_client groups [] h = tt
each_client groups (g ∷ xs) (positive, h) =
    let total = (get-client_totals (client_of g.1) groups []).1 in
    (
      elim (Option-cases (get (client_of g.1) (client_totals groups []))) [
        | inl missing ↦ absurd (omega (arith, sym (ap (λ v. (counts v).1) missing) ∙ total))
        | inr (c, found) ↦ found ∙ ap some (found_entry (client_of g.1) groups c found)
      ],
      each_client groups xs h,
    )

-- The client of every request has totals, its own.
pub client_totals-every :
    (groups : Groups)
    → All
        (λ (g : String × List Attempt).
          get (client_of g.1) (client_totals groups [])
          ≡ some (successes_of (client_of g.1) groups, requests_of (client_of g.1) groups))
        groups
client_totals-every groups = each_client groups groups (requests_of-own groups)

put-positive :
    (client : String) (c : ℕ × ℕ) (totals : List (String × (ℕ × ℕ)))
    → 0 < c.1
    → All (λ (e : String × (ℕ × ℕ)). 0 < e.1.1) totals
    → All (λ (e : String × (ℕ × ℕ)). 0 < e.1.1) (put client c totals)
unfolding put
put-positive client c [] p h = (p, tt)
put-positive client c ((k, d) ∷ totals) p (first, h) = elim (Bool-cases (str_eq k client)) [
  | inl same ↦ rw same (p, h)
  | inr other ↦ rw (other, put) (first, put-positive client c totals p h)
]

each_positive :
    (groups : Groups) (totals : List (String × (ℕ × ℕ)))
    → All (λ (e : String × (ℕ × ℕ)). 0 < e.1.1) totals
    → All (λ (e : String × (ℕ × ℕ)). 0 < e.1.1) (client_totals groups totals)
unfolding client_totals
each_positive [] totals h = h
each_positive ((name, records) ∷ groups) totals h =
    each_positive groups _ (put-positive (client_of records) _ totals (omega arith) h)

-- Only clients with a request have totals.
pub client_totals-positive :
    (groups : Groups) → All (λ (e : String × (ℕ × ℕ)). 0 < e.1.1) (client_totals groups [])
client_totals-positive groups = each_positive groups [] tt
