-- ===== src/Resilience/Lifecycle.antt =====
-- lib/sippycup_resilience/lifecycle.py: `synthetic_snapshots` and `analyze_lifecycle`.
-- The slope of the memory is kept as the fraction before the division and the rounding.
pub mod Recovery
pub mod Synthetic
mod Examples
use sippycup.Prelude.{
  ℕ, zero, suc, ◌+◌, ◌-◌, ◌*◌, ◌%◌, max, String, Bool, true, false, ◌&&◌, not, List, [], ◌∷◌, ◌++◌,
  map, Option, none, some, Result, ok, err, ◌>>=◌, ◌>>◌, guard, str_eq, ltb, leb, ◌==◌, length,
  get_elem?, any, if◌then◌else◌,
}
use sippycup.Json.{Value, int, str, arr, obj, Items, nil, cons, Fields, end, field, pos}
use sippycup.Resilience.Common.{
  Error, invalid, require_mapping, exact_keys, bounded_int, get_item, member, hashed_member,
  verdict, contains, require_list,
}

abbrev pub max_cycles : ℕ
max_cycles = 100000

abbrev pub scenarios : List String
scenarios =
    "answered_bye" ∷ "cancel_487" ∷ "reinvite" ∷ "lost_bye_expiry" ∷ "reconnect"
    ∷ "graceful_drain_restart" ∷ []

abbrev pub resource_keys : List String
resource_keys = "sessions" ∷ "sockets" ∷ "tasks" ∷ "memoryBytes" ∷ []

-- A snapshot that has been read.
pub record Snapshot : Type 0 where
  pub cycle : ℕ
  pub phase : String
  pub scenario : String
  pub sessions : ℕ
  pub sockets : ℕ
  pub tasks : ℕ
  pub memory_bytes : ℕ

pub record Finding : Type 0 where
  pub severity : String
  pub code : String
  pub first_cycle : ℕ
  pub maximum : ℕ
  pub baseline : ℕ
  pub tolerance : Option ℕ

pub record Report : Type 0 where
  pub status : String
  pub cycles : ℕ
  pub scenarios_observed : List String
  pub baseline : Snapshot
  pub max_sessions : ℕ
  pub max_sockets : ℕ
  pub max_tasks : ℕ
  pub max_memory_bytes : ℕ
  pub memory_first : ℕ
  pub memory_last : ℕ
  pub memory_steps : ℕ
  pub findings : List Finding

-- The body of the loop over the snapshots; `previous` is `none` for -1.
unfoldable pub read_snapshot : Option ℕ → Value → Result Error Snapshot
read_snapshot previous raw = do
  item ← require_mapping raw
  exact_keys item ("cycle" ∷ "phase" ∷ "scenario" ∷ resource_keys) []
  cycle ← bounded_int (← get_item item "cycle") 0 max_cycles
  guard (elim previous [ none ↦ true | some p ↦ ltb p cycle ]) (invalid "cycle order")
  phase ← hashed_member (← get_item item "phase") ("baseline" ∷ "settled" ∷ []) (invalid "phase")
  scenario ← member (← get_item item "scenario") scenarios (invalid "scenario")
  sessions ← bounded_int (← get_item item "sessions") 0 1125899906842624
  sockets ← bounded_int (← get_item item "sockets") 0 1125899906842624
  tasks ← bounded_int (← get_item item "tasks") 0 1125899906842624
  memory_bytes ← bounded_int (← get_item item "memoryBytes") 0 1125899906842624
  ok (record {
    cycle = cycle;
    phase = phase;
    scenario = scenario;
    sessions = sessions;
    sockets = sockets;
    tasks = tasks;
    memory_bytes = memory_bytes;
  })

unfoldable pub read_snapshots : Option ℕ → List Value → Result Error (List Snapshot)
read_snapshots previous [] = ok []
read_snapshots previous (raw ∷ raws) = do
  s ← read_snapshot previous raw
  rest ← read_snapshots (some s.cycle) raws
  ok (s ∷ rest)

-- `max(item[key] for item in snapshots[1:])`, of numbers.
unfoldable pub maximum_of : (Snapshot → ℕ) → List Snapshot → ℕ
maximum_of value [] = 0
maximum_of value (s ∷ ss) = max (value s) (maximum_of value ss)

-- `leaked[0]["cycle"]` of the snapshots over the limit, if there are any.
unfoldable pub first_leak : (Snapshot → ℕ) → ℕ → List Snapshot → Option ℕ
first_leak value limit [] = none
first_leak value limit (s ∷ ss) =
    if ltb limit (value s) then some s.cycle else first_leak value limit ss

unfoldable pub leak_finding :
    (Snapshot → ℕ) → String → Option ℕ → ℕ → Snapshot → List Snapshot → List Finding
leak_finding value code tolerance limit base settled = elim (first_leak value limit settled) [
  | none ↦ []
  | some cycle ↦
      record {
        severity = "fail";
        code = code;
        first_cycle = cycle;
        maximum = maximum_of value settled;
        baseline = value base;
        tolerance = tolerance;
      }
      ∷ []
]

unfoldable pub findings : ℕ → Snapshot → List Snapshot → List Finding
findings tolerance base settled =
    leak_finding (λ (s : Snapshot). s.sessions) "sessions_not_recovered" none base.sessions base
      settled
    ++ (leak_finding (λ (s : Snapshot). s.sockets) "sockets_not_recovered" none base.sockets base
          settled
        ++ (leak_finding (λ (s : Snapshot). s.tasks) "tasks_not_recovered" none base.tasks base
              settled
            ++ leak_finding (λ (s : Snapshot). s.memory_bytes) "memory_not_recovered"
                (some tolerance) (base.memory_bytes + tolerance) base settled))

-- `sorted(scenarios)`: of the six, in the order of their names, those that occur.
unfoldable pub observed : List Snapshot → List String
observed snapshots = keep (
    "answered_bye" ∷ "cancel_487" ∷ "graceful_drain_restart" ∷ "lost_bye_expiry" ∷ "reconnect"
    ∷ "reinvite" ∷ [])
  where
    keep : List String → List String
    keep [] = []
    keep (name ∷ names) =
        if any (λ (s : Snapshot). str_eq s.scenario name) snapshots
        then name ∷ keep names
        else keep names

-- `snapshots[-1]`, where the first is not the last.
unfoldable pub last_of : Snapshot → List Snapshot → Snapshot
last_of s [] = s
last_of s (t ∷ ts) = last_of t ts

-- The returned report.
unfoldable pub conclude : ℕ → Snapshot → Snapshot → List Snapshot → Report
conclude tolerance base first more = record {
  status = verdict (map (λ (f : Finding). f.severity) (findings tolerance base (first ∷ more)));
  cycles = length (first ∷ more);
  scenarios_observed = observed (base ∷ first ∷ more);
  baseline = base;
  max_sessions = maximum_of (λ (s : Snapshot). s.sessions) (first ∷ more);
  max_sockets = maximum_of (λ (s : Snapshot). s.sockets) (first ∷ more);
  max_tasks = maximum_of (λ (s : Snapshot). s.tasks) (first ∷ more);
  max_memory_bytes = maximum_of (λ (s : Snapshot). s.memory_bytes) (first ∷ more);
  memory_first = first.memory_bytes;
  memory_last = (last_of first more).memory_bytes;
  memory_steps = max 1 (length (base ∷ first ∷ more) - 2);
  findings = findings tolerance base (first ∷ more);
}

-- What follows the loop.
unfoldable pub report : ℕ → List Snapshot → Result Error Report
report tolerance [] = err (invalid "snapshots")
report tolerance (base ∷ []) = err (invalid "snapshots")
report tolerance (base ∷ first ∷ more) = do
  guard (base.cycle == 0 && str_eq base.phase "baseline") (invalid "first snapshot")
  guard (not (any (λ (s : Snapshot). not (str_eq s.phase "settled")) (first ∷ more)))
      (invalid "post-baseline snapshots")
  ok (conclude tolerance base first more)

unfoldable pub analyze_lifecycle : Value → Value → Result Error Report
analyze_lifecycle snapshots_value memory_tolerance_bytes = do
  raws ← require_list snapshots_value
  guard (leb 2 (length raws) && leb (length raws) (max_cycles + 1)) (invalid "snapshots")
  tolerance ← bounded_int memory_tolerance_bytes 0 1073741824
  snapshots ← read_snapshots none raws
  report tolerance snapshots

-- `SCENARIOS[i]`, for an index in range.
unfoldable pub scenario_at : ℕ → String
scenario_at i = elim (get_elem? scenarios i) [ none ↦ "" | some name ↦ name ]

-- `values[key]` after `values[leak] += …`.
unfoldable pub leaked : Option String → ℕ → String → ℕ → ℕ
leaked none cycle key base = base
leaked (some leak) cycle key base =
    if str_eq leak key then base + cycle * (if str_eq leak "memoryBytes" then 4096 else 1) else base

unfoldable pub synthetic_snapshot : ℕ → String → String → Option String → Value
synthetic_snapshot cycle phase scenario leak = obj (
    field "cycle" (int (pos cycle)) (
      field "phase" (str phase) (
        field "scenario" (str scenario) (
          field "sessions" (int (pos (leaked leak cycle "sessions" 0))) (
            field "sockets" (int (pos (leaked leak cycle "sockets" 2))) (
              field "tasks" (int (pos (leaked leak cycle "tasks" 4))) (
                field "memoryBytes" (int (pos (leaked leak cycle "memoryBytes" 16777216)))
                  end)))))))

-- The `for cycle in range(1, count + 1)`, for the `n` cycles from `cycle` on.
unfoldable pub settled_snapshots : ℕ → ℕ → Option String → Items
settled_snapshots cycle zero leak = nil
settled_snapshots cycle (suc n) leak =
    cons (synthetic_snapshot cycle "settled" (scenario_at ((cycle - 1) % 6)) leak)
      (settled_snapshots (cycle + 1) n leak)

unfoldable pub synthetic_snapshots : Value → Option String → Result Error Value
synthetic_snapshots cycles leak = do
  count ← bounded_int cycles 1 max_cycles
  guard (elim leak [ none ↦ true | some key ↦ contains resource_keys key ]) (invalid "leak")
  ok (
      arr (
        cons (synthetic_snapshot 0 "baseline" "answered_bye" none)
          (settled_snapshots 1 count leak)))
