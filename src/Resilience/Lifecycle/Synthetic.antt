-- ===== src/Resilience/Lifecycle/Synthetic.antt =====
-- lib/sippycup_resilience/lifecycle.py: the analysis of the synthetic snapshots.
use mathlib.Core.Path.{subst}
use sippycup.Prelude.{
  ℕ, zero, suc, ◌+◌, ◌-◌, ◌*◌, ◌%◌, ◌≤◌, ◌<◌, String, true, false, List, [], ◌∷◌, Option, none,
  some, ok, ◌≡◌, ◌↔◌, ◌&&◌, refl, ap, not, arith, str_eq, eq_iff, length, All, any, lt→ltb, leb,
}
use sippycup.Json.{Value, int, arr, cons, elements, pos, lookup, has_key, keys}
use sippycup.Resilience.Common.{
  require_mapping, exact_keys, bounded_int, get_item, member, hashed_member, require_list, contains,
}
use sippycup.Resilience.Lifecycle.{
  Snapshot, Report, report, conclude, analyze_lifecycle, resource_keys, read_snapshot,
  read_snapshots, synthetic_snapshot, settled_snapshots, synthetic_snapshots, leaked, scenario_at,
  scenarios, max_cycles,
}
use sippycup.Resilience.Lifecycle.Recovery.{Recovered, findings-Passes}

-- The snapshot that the document says.
abbrev pub settled_snapshot : ℕ → String → String → Option String → Snapshot
settled_snapshot cycle phase scenario leak = record {
  cycle = cycle;
  phase = phase;
  scenario = scenario;
  sessions = leaked leak cycle "sessions" 0;
  sockets = leaked leak cycle "sockets" 2;
  tasks = leaked leak cycle "tasks" 4;
  memory_bytes = leaked leak cycle "memoryBytes" 16777216;
}

bounded_int-ok : (lo n hi : ℕ) → lo ≤ n → n ≤ hi → bounded_int (int (pos n)) lo hi ≡ ok n
unfolding bounded_int
bounded_int-ok lo n hi h k = ground arith

leaked-le :
    (leak : Option String) (cycle : ℕ) (key : String) (base : ℕ)
    → leaked leak cycle key base ≤ base + cycle * 4096
unfolding leaked
leaked-le none cycle key base = omega arith
leaked-le (some l) cycle key base = ground arith

leaked-accepted :
    (leak : Option String) (cycle : ℕ) (key : String) (base : ℕ)
    → cycle ≤ max_cycles
    → base ≤ 16777216
    → bounded_int (int (pos (leaked leak cycle key base))) 0 1125899906842624
      ≡ ok (leaked leak cycle key base)
leaked-accepted leak cycle key base within small =
    bounded_int-ok 0 (leaked leak cycle key base) 1125899906842624 (omega arith)
      (omega (arith, leaked-le leak cycle key base))

read_snapshot-synthetic :
    (previous cycle : ℕ) (scenario : String) (leak : Option String)
    → previous < cycle
    → cycle ≤ max_cycles
    → contains scenarios scenario ≡ true
    → read_snapshot (some previous) (synthetic_snapshot cycle "settled" scenario leak)
      ≡ ok (settled_snapshot cycle "settled" scenario leak)
unfolding read_snapshot synthetic_snapshot require_mapping exact_keys get_item lookup has_key keys
    hashed_member member
read_snapshot-synthetic previous cycle scenario leak after within known =
    rw (bounded_int-ok 0 cycle max_cycles (omega arith) within) (
      rw (lt→ltb previous cycle after) (
        rw known (
          rw (leaked-accepted leak cycle "sessions" 0 within (omega arith)) (
            rw (leaked-accepted leak cycle "sockets" 2 within (omega arith)) (
              rw (leaked-accepted leak cycle "tasks" 4 within (omega arith)) (
                rw (leaked-accepted leak cycle "memoryBytes" 16777216 within (omega arith))
                  refl))))))

scenario_at-known : (i : ℕ) → i < 6 → contains scenarios (scenario_at i) ≡ true
unfolding scenario_at
scenario_at-known zero h = refl
scenario_at-known (suc zero) h = refl
scenario_at-known (suc (suc zero)) h = refl
scenario_at-known (suc (suc (suc zero))) h = refl
scenario_at-known (suc (suc (suc (suc zero)))) h = refl
scenario_at-known (suc (suc (suc (suc (suc zero))))) h = refl
scenario_at-known (suc (suc (suc (suc (suc (suc i)))))) h = absurd (omega arith)

-- The snapshots of `n` cycles from `cycle` on.
abbrev pub settled_from : ℕ → ℕ → Option String → List Snapshot
settled_from cycle zero leak = []
settled_from cycle (suc n) leak =
    settled_snapshot cycle "settled" (scenario_at ((cycle - 1) % 6)) leak
    ∷ settled_from (cycle + 1) n leak

read_snapshots-settled :
    (previous cycle n : ℕ) (leak : Option String)
    → previous < cycle
    → cycle + n ≤ max_cycles + 1
    → read_snapshots (some previous) (elements (settled_snapshots cycle n leak))
      ≡ ok (settled_from cycle n leak)
unfolding read_snapshots settled_snapshots
read_snapshots-settled previous cycle zero leak after within = refl
read_snapshots-settled previous cycle (suc n) leak after within =
    rw
      (read_snapshot-synthetic previous cycle (scenario_at ((cycle - 1) % 6)) leak after
        (omega arith) (scenario_at-known ((cycle - 1) % 6) (omega arith)))
      (rw (read_snapshots-settled cycle (cycle + 1) n leak (omega arith) (omega arith)) refl)

read_snapshots-synthetic :
    (n : ℕ) (leak : Option String)
    → n ≤ max_cycles
    → read_snapshots none (
        synthetic_snapshot 0 "baseline" "answered_bye" none ∷ elements (settled_snapshots 1 n leak))
      ≡ ok (settled_snapshot 0 "baseline" "answered_bye" none ∷ settled_from 1 n leak)
unfolding read_snapshots synthetic_snapshot leaked read_snapshot require_mapping exact_keys get_item
    lookup has_key keys hashed_member member bounded_int
read_snapshots-synthetic n leak within =
    rw (read_snapshots-settled 0 1 n leak (omega arith) (omega arith)) refl

length-settled :
    (cycle n : ℕ) (leak : Option String) → length (elements (settled_snapshots cycle n leak)) ≡ n
unfolding settled_snapshots
length-settled cycle zero leak = refl
length-settled cycle (suc n) leak = ap suc (length-settled (cycle + 1) n leak)

all_settled :
    (cycle n : ℕ) (leak : Option String)
    → any (λ (s : Snapshot). not (str_eq s.phase "settled")) (settled_from cycle n leak) ≡ false
all_settled cycle zero leak = refl
all_settled cycle (suc n) leak = all_settled (cycle + 1) n leak

settled-All :
    (P : Snapshot → Type 0) (cycle n : ℕ) (leak : Option String)
    → ((k : ℕ) (name : String) → k < cycle + n → P (settled_snapshot k "settled" name leak))
    → All P (settled_from cycle n leak)
settled-All P cycle zero leak h = tt
settled-All P cycle (suc n) leak h = (
  h cycle _ (omega arith),
  settled-All P (cycle + 1) n leak (λ k name below. h k name (omega arith)),
)

abbrev base : Snapshot
base = settled_snapshot 0 "baseline" "answered_bye" none

-- What the snapshots of `n` cycles with this leak are judged to be.
clean-Recovered : (t n : ℕ) → Recovered t base (settled_from 1 n none)
unfolding Recovered leaked
clean-Recovered t n = (
  settled-All _ 1 n none (λ k name below. omega arith),
  settled-All _ 1 n none (λ k name below. omega arith),
  settled-All _ 1 n none (λ k name below. omega arith),
  settled-All _ 1 n none (λ k name below. omega arith),
)

memory-Recovered :
    (t n : ℕ) → n * 4096 ≤ t → Recovered t base (settled_from 1 n (some "memoryBytes"))
unfolding Recovered leaked
memory-Recovered t n h = (
  settled-All _ 1 n (some "memoryBytes") (λ k name below. omega arith),
  settled-All _ 1 n (some "memoryBytes") (λ k name below. omega arith),
  settled-All _ 1 n (some "memoryBytes") (λ k name below. omega arith),
  settled-All _ 1 n (some "memoryBytes") (λ k name below. omega arith),
)

report-synthetic :
    (t n : ℕ) (leak : Option String)
    → 1 ≤ n
    → (r : Report) × (report t (base ∷ settled_from 1 n leak) ≡ ok r)
      × ((r.status ≡ "pass") ↔ Recovered t base (settled_from 1 n leak))
unfolding report conclude
report-synthetic t zero leak h = absurd (omega arith)
report-synthetic t (suc n) leak h = (
  conclude t base (settled_snapshot 1 "settled" (scenario_at 0) leak) (settled_from 2 n leak),
  rw (all_settled 2 n leak) refl,
  findings-Passes t base (settled_from 1 (suc n) leak),
)

-- The document of `n` cycles is made, and analysed.
analyze-synthetic :
    (t n : ℕ) (leak : Option String)
    → 1 ≤ n
    → n ≤ max_cycles
    → t ≤ 1073741824
    → elim leak [ none ↦ true | some key ↦ contains resource_keys key ] ≡ true
    → (v : Value) × (synthetic_snapshots (int (pos n)) leak ≡ ok v)
      × (r : Report) × (analyze_lifecycle v (int (pos t)) ≡ ok r)
      × ((r.status ≡ "pass") ↔ Recovered t base (settled_from 1 n leak))
unfolding synthetic_snapshots analyze_lifecycle require_list
analyze-synthetic t n leak some_cycles within bounded known =
    let (r, e, judged) = report-synthetic t n leak some_cycles in
    let ranged : (leb 2 (suc n) && leb (suc n) (max_cycles + 1)) ≡ true = ground arith in
    (
      arr (cons (synthetic_snapshot 0 "baseline" "answered_bye" none) (settled_snapshots 1 n leak)),
      rw (bounded_int-ok 1 n max_cycles some_cycles within) (rw known refl),
      r,
      rw (length-settled 1 n leak) (
          rw ranged (
            rw (bounded_int-ok 0 t 1073741824 (omega arith) bounded)
              (rw (read_snapshots-synthetic n leak within) e))),
      judged,
    )

-- Without a leak, the document of 1 to 100000 cycles is analysed, and its report passes.
pub synthetic-clean :
    (t n : ℕ)
    → 1 ≤ n
    → n ≤ max_cycles
    → t ≤ 1073741824
    → (v : Value) × (synthetic_snapshots (int (pos n)) none ≡ ok v)
      × (r : Report) × (analyze_lifecycle v (int (pos t)) ≡ ok r)
      × (r.status ≡ "pass")
synthetic-clean t n some_cycles within bounded =
    let (v, e, r, e', judged) = analyze-synthetic t n none some_cycles within bounded refl in
    (v, e, r, e', judged.1 (clean-Recovered t n))

memory_at_last :
    (cycle m limit : ℕ) (leak : Option String)
    → All (λ (s : Snapshot). s.memory_bytes ≤ limit) (settled_from cycle (suc m) leak)
    → leaked leak (cycle + m) "memoryBytes" 16777216 ≤ limit
memory_at_last cycle zero limit leak h =
    subst (λ c. leaked leak c "memoryBytes" 16777216 ≤ limit) (omega arith) h.0
memory_at_last cycle (suc m) limit leak h =
    subst (λ c. leaked leak c "memoryBytes" 16777216 ≤ limit) {x = cycle + 1 + m} (omega arith)
      (memory_at_last (cycle + 1) m limit leak h.1)

not_leaking :
    (key name : String) (base : ℕ) → leaked (some key) 1 name base ≤ base → str_eq key name ≡ false
unfolding leaked
not_leaking key name base h = ground arith

memory_left :
    (key : String)
    → contains resource_keys key ≡ true
    → str_eq key "sessions" ≡ false
    → str_eq key "sockets" ≡ false
    → str_eq key "tasks" ≡ false
    → key ≡ "memoryBytes"
memory_left key known a b c = ground (
  arith,
  eq_iff "sessions" key,
  eq_iff key "sessions",
  eq_iff "sockets" key,
  eq_iff key "sockets",
  eq_iff "tasks" key,
  eq_iff key "tasks",
  eq_iff "memoryBytes" key,
)

Recovered-leak :
    (t n : ℕ) (key : String)
    → 1 ≤ n
    → contains resource_keys key ≡ true
    → Recovered t base (settled_from 1 n (some key))
    → (key ≡ "memoryBytes") × (n * 4096 ≤ t)
unfolding Recovered leaked
Recovered-leak t zero key h known r = absurd (omega arith)
Recovered-leak t (suc m) key h known (a, b, c, d) =
    let not_sessions = not_leaking key "sessions" 0 a.0 in
    let not_sockets = not_leaking key "sockets" 2 b.0 in
    let not_tasks = not_leaking key "tasks" 4 c.0 in
    let same : key ≡ "memoryBytes" = memory_left key known not_sessions not_sockets not_tasks in
    let last : 16777216 + (1 + m) * 4096 ≤ 16777216 + t =
      rw same at (memory_at_last 1 m (16777216 + t) (some key) d) in
    (same, omega arith)

-- With a leak in a resource, the report of 1 to 100000 cycles passes exactly if the leak is of
-- memory and the tolerance covers 4096 bytes for every cycle.
pub synthetic-leak :
    (t n : ℕ) (key : String)
    → 1 ≤ n
    → n ≤ max_cycles
    → t ≤ 1073741824
    → contains resource_keys key ≡ true
    → (v : Value) × (synthetic_snapshots (int (pos n)) (some key) ≡ ok v)
      × (r : Report) × (analyze_lifecycle v (int (pos t)) ≡ ok r)
      × ((r.status ≡ "pass") ↔ ((key ≡ "memoryBytes") × (n * 4096 ≤ t)))
synthetic-leak t n key some_cycles within bounded known =
    let (v, e, r, e', judged) = analyze-synthetic t n (some key) some_cycles within bounded known in
    (
      v,
      e,
      r,
      e',
      (
        λ p. Recovered-leak t n key some_cycles known (judged.0 p),
        λ (same, covered). judged.1 (rw same (memory-Recovered t n covered)),
      ),
    )
