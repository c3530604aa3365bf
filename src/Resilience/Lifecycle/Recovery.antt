-- ===== src/Resilience/Lifecycle/Recovery.antt =====
-- lib/sippycup_resilience/lifecycle.py, `analyze_lifecycle`: what a passing report means.
use sippycup.Prelude.{
  ℕ, suc, ap, false, ◌+◌, ◌≤◌, ◌<◌, String, List, [], ◌∷◌, ◌++◌, map, Option, none, some, ok, ◌≡◌,
  ◌↔◌, refl, arith, str_eq, length, All, any, Bool-cases, Option-cases, inl, inr, ltb, >>=-eq-ok,
  guard-bind, ltb→lt, ok-injective, eq_iff, leb, not, ◌==◌, ◌&&◌,
}
use sippycup.Json.{Value}
use sippycup.Resilience.Common.{
  require_mapping, exact_keys, get_item, member, hashed_member, verdict, invalid, require_list,
  bounded_int,
}
use sippycup.Resilience.Lifecycle.{
  Snapshot, Finding, Report, first_leak, leak_finding, findings, conclude, read_snapshot,
  read_snapshots, report, analyze_lifecycle, max_cycles, scenarios, resource_keys,
}

-- No settled snapshot holds more than the baseline, memory up to the tolerance.
unfoldable pub Recovered : ℕ → Snapshot → List Snapshot → Type 0
Recovered tolerance base settled =
    All (λ (s : Snapshot). s.sessions ≤ base.sessions) settled
    × All (λ (s : Snapshot). s.sockets ≤ base.sockets) settled
    × All (λ (s : Snapshot). s.tasks ≤ base.tasks) settled
    × All (λ (s : Snapshot). s.memory_bytes ≤ base.memory_bytes + tolerance) settled

abbrev pub Passes : List Finding → Type 0
Passes fs = verdict (map (λ (f : Finding). f.severity) fs) ≡ "pass"

fail-pass : ¬ (◌≡◌ {A = String} "fail" "pass")
fail-pass h = cc ((eq_iff "fail" "pass").1 h)

Passes-append : (fs gs : List Finding) → Passes (fs ++ gs) ↔ (Passes fs × Passes gs)
unfolding verdict
Passes-append [] gs = (λ p. (refl, p), λ q. q.1)
Passes-append (f ∷ fs) gs = elim (Bool-cases (str_eq f.severity "fail")) [
  | inl bad ↦ (λ p. absurd (fail-pass (rw bad at p)), λ q. absurd (fail-pass (rw bad at q.0)))
  | inr good ↦ rw good (Passes-append fs gs)
]

first_leak-none :
    (value : Snapshot → ℕ) (limit : ℕ) (ss : List Snapshot)
    → (first_leak value limit ss ≡ none) ↔ All (λ s. value s ≤ limit) ss
unfolding first_leak
first_leak-none value limit [] = (λ _. tt, λ _. refl)
first_leak-none value limit (s ∷ ss) = elim (Bool-cases (ltb limit (value s))) [
  | inl above ↦ (λ h. absurd (cc (rw above at h)), λ a. absurd (ground (arith, a.0)))
  | inr within ↦ (
    λ h. (ground arith, (first_leak-none value limit ss).0 (rw within at h)),
    λ a. rw within ((first_leak-none value limit ss).1 a.1),
  )
]

leak_finding-Passes :
    (value : Snapshot → ℕ) (code : String) (tolerance : Option ℕ) (limit : ℕ) (base : Snapshot)
    (ss : List Snapshot)
    → Passes (leak_finding value code tolerance limit base ss) ↔ All (λ s. value s ≤ limit) ss
unfolding leak_finding verdict
leak_finding-Passes value code tolerance limit base ss =
    elim (Option-cases (first_leak value limit ss)) [
      | inl clear ↦
          (λ _. (first_leak-none value limit ss).0 clear, λ _. rw (clear, leak_finding) refl)
      | inr (cycle, leak) ↦ (
        λ p. absurd (fail-pass (rw (leak, leak_finding) at p)),
        λ a. absurd (cc (leak, (first_leak-none value limit ss).1 a)),
      )
    ]

pub findings-Passes :
    (tolerance : ℕ) (base : Snapshot) (settled : List Snapshot)
    → Passes (findings tolerance base settled) ↔ Recovered tolerance base settled
unfolding findings Recovered
findings-Passes tolerance base settled =
    let a =
      leak_finding-Passes (λ (s : Snapshot). s.sessions) "sessions_not_recovered" none base.sessions
        base settled in
    let b =
      leak_finding-Passes (λ (s : Snapshot). s.sockets) "sockets_not_recovered" none base.sockets
        base settled in
    let c =
      leak_finding-Passes (λ (s : Snapshot). s.tasks) "tasks_not_recovered" none base.tasks base
        settled in
    let d =
      leak_finding-Passes (λ (s : Snapshot). s.memory_bytes) "memory_not_recovered" (some tolerance)
        (base.memory_bytes + tolerance) base settled in
    (
      λ p.
          let p1 = (Passes-append _ _).0 p in
          let p2 = (Passes-append _ _).0 p1.1 in
          let p3 = (Passes-append _ _).0 p2.1 in (a.0 p1.0, b.0 p2.0, c.0 p3.0, d.0 p3.1),
      λ (ra, rb, rc, rd).
          (Passes-append _ _).1
            (a.1 ra, (Passes-append _ _).1 (b.1 rb, (Passes-append _ _).1 (c.1 rc, d.1 rd))),
    )

-- The cycles of the snapshots grow, from above `previous`.
pub Increasing : Option ℕ → List Snapshot → Type 0
Increasing previous [] = Unit
Increasing none (s ∷ ss) = Increasing (some s.cycle) ss
Increasing (some p) (s ∷ ss) = (p < s.cycle) × Increasing (some s.cycle) ss

-- What an accepted document says: a report of its snapshots.
pub record Analyzed (raws : List Value) (tolerance : ℕ) (r : Report) : Type 0 where
  pub base : Snapshot
  pub settled : List Snapshot
  pub read : read_snapshots none raws ≡ ok (base ∷ settled)
  pub first : base.cycle ≡ 0
  pub baseline : base.phase ≡ "baseline"
  pub all_settled : All (λ (s : Snapshot). s.phase ≡ "settled") settled
  pub some_settled : 1 ≤ length settled
  pub few_settled : length settled ≤ max_cycles
  pub increasing : Increasing (some base.cycle) settled
  pub counted : r.cycles ≡ length settled
  pub judged : (r.status ≡ "pass") ↔ Recovered tolerance base settled

any-All :
    (name : String) (ss : List Snapshot)
    → any (λ (s : Snapshot). not (str_eq s.phase name)) ss ≡ false
    → All (λ (s : Snapshot). s.phase ≡ name) ss
any-All name [] h = tt
any-All name (s ∷ ss) h = (ground (arith, eq_iff s.phase name), any-All name ss (ground arith))

length-read_snapshots :
    (previous : Option ℕ) (raws : List Value) (ss : List Snapshot)
    → read_snapshots previous raws ≡ ok ss
    → length ss ≡ length raws
unfolding read_snapshots
length-read_snapshots previous [] ss h = rw (← ok-injective h) refl
length-read_snapshots previous (raw ∷ raws) ss h =
    let (s, e, h1) = >>=-eq-ok (read_snapshot previous raw) _ h in
    let (rest, e2, h2) = >>=-eq-ok (read_snapshots (some s.cycle) raws) _ h1 in
    rw (← ok-injective h2) (ap suc (length-read_snapshots (some s.cycle) raws rest e2))

report-Analyzed :
    (raws : List Value) (tolerance : ℕ) (ss : List Snapshot) (r : Report)
    → read_snapshots none raws ≡ ok ss
    → Increasing none ss
    → length ss ≤ max_cycles + 1
    → report tolerance ss ≡ ok r
    → Analyzed raws tolerance r
unfolding report conclude Increasing
report-Analyzed raws tolerance [] r e i few h = cc
report-Analyzed raws tolerance (base ∷ []) r e i few h = cc
report-Analyzed raws tolerance (base ∷ first ∷ more) r e i few h =
    let (p, h1) =
      guard-bind (base.cycle == 0 && str_eq base.phase "baseline") (invalid "first snapshot") _ h in
    let (q, h2) =
      guard-bind (not (any (λ (s : Snapshot). not (str_eq s.phase "settled")) (first ∷ more)))
        (invalid "post-baseline snapshots") _ h1 in
    rw (← ok-injective h2) (record {
      base = base;
      settled = first ∷ more;
      read = e;
      first = ground arith;
      baseline = ground (arith, eq_iff base.phase "baseline");
      all_settled = any-All "settled" (first ∷ more) (ground arith);
      some_settled = omega arith;
      few_settled = omega arith;
      increasing = i;
      counted = refl;
      judged = findings-Passes tolerance base (first ∷ more);
    })

read_snapshot-after :
    (p : ℕ) (raw : Value) (s : Snapshot) → read_snapshot (some p) raw ≡ ok s → p < s.cycle
unfolding read_snapshot
read_snapshot-after p raw s h =
    let (item, _, h1) = >>=-eq-ok (require_mapping raw) _ h in
    let (_, _, h2) =
      >>=-eq-ok (exact_keys item ("cycle" ∷ "phase" ∷ "scenario" ∷ resource_keys) []) _ h1 in
    let (v3, _, h3) = >>=-eq-ok (get_item item "cycle") _ h2 in
    let (cycle, _, h4) = >>=-eq-ok (bounded_int v3 0 max_cycles) _ h3 in
    let (above, h5) = guard-bind (ltb p cycle) (invalid "cycle order") _ h4 in
    let (v6, _, h6) = >>=-eq-ok (get_item item "phase") _ h5 in
    let (phase, _, h7) = >>=-eq-ok (hashed_member v6 _ _) _ h6 in
    let (v8, _, h8) = >>=-eq-ok (get_item item "scenario") _ h7 in
    let (scenario, _, h9) = >>=-eq-ok (member v8 scenarios _) _ h8 in
    let (v10, _, h10) = >>=-eq-ok (get_item item "sessions") _ h9 in
    let (sessions, _, h11) = >>=-eq-ok (bounded_int v10 _ _) _ h10 in
    let (v12, _, h12) = >>=-eq-ok (get_item item "sockets") _ h11 in
    let (sockets, _, h13) = >>=-eq-ok (bounded_int v12 _ _) _ h12 in
    let (v14, _, h14) = >>=-eq-ok (get_item item "tasks") _ h13 in
    let (tasks, _, h15) = >>=-eq-ok (bounded_int v14 _ _) _ h14 in
    let (v16, _, h16) = >>=-eq-ok (get_item item "memoryBytes") _ h15 in
    let (memory_bytes, _, h17) = >>=-eq-ok (bounded_int v16 _ _) _ h16 in
    rw (← ok-injective h17) (ltb→lt p cycle above)

read_snapshots-Increasing :
    (previous : Option ℕ) (raws : List Value) (ss : List Snapshot)
    → read_snapshots previous raws ≡ ok ss
    → Increasing previous ss
unfolding read_snapshots Increasing
read_snapshots-Increasing none [] ss h = rw (← ok-injective h) tt
read_snapshots-Increasing (some p) [] ss h = rw (← ok-injective h) tt
read_snapshots-Increasing none (raw ∷ raws) ss h =
    let (s, e, h1) = >>=-eq-ok (read_snapshot none raw) _ h in
    let (rest, e2, h2) = >>=-eq-ok (read_snapshots (some s.cycle) raws) _ h1 in
    rw (← ok-injective h2) (read_snapshots-Increasing (some s.cycle) raws rest e2)
read_snapshots-Increasing (some p) (raw ∷ raws) ss h =
    let (s, e, h1) = >>=-eq-ok (read_snapshot (some p) raw) _ h in
    let (rest, e2, h2) = >>=-eq-ok (read_snapshots (some s.cycle) raws) _ h1 in
    rw (← ok-injective h2)
      (read_snapshot-after p raw s e, read_snapshots-Increasing (some s.cycle) raws rest e2)

-- An accepted document is a baseline snapshot at cycle zero and, after it, one to max_cycles
-- settled snapshots with growing cycles, and its report passes exactly when every settled snapshot
-- is back within the baseline's resources, memory up to the tolerance.
pub analyze_lifecycle-Analyzed :
    (snapshots_value tolerance_value : Value) (r : Report)
    → analyze_lifecycle snapshots_value tolerance_value ≡ ok r
    → (tolerance : ℕ) × (bounded_int tolerance_value 0 1073741824 ≡ ok tolerance)
      × (raws : List Value) × (require_list snapshots_value ≡ ok raws)
      × Analyzed raws tolerance r
unfolding analyze_lifecycle
analyze_lifecycle-Analyzed snapshots_value tolerance_value r h =
    let (raws, listed, h1) = >>=-eq-ok (require_list snapshots_value) _ h in
    let (sized, h2) =
      guard-bind (leb 2 (length raws) && leb (length raws) (max_cycles + 1)) (invalid "snapshots") _
        h1 in
    let (tolerance, e, h3) = >>=-eq-ok (bounded_int tolerance_value 0 1073741824) _ h2 in
    let (ss, read, h4) = >>=-eq-ok (read_snapshots none raws) _ h3 in
    (
      tolerance,
      e,
      raws,
      listed,
      report-Analyzed raws tolerance ss r read (read_snapshots-Increasing none raws ss read)
          (rw (length-read_snapshots none raws ss read) (ground arith)) h4,
    )
