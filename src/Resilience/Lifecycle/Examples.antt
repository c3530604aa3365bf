-- ===== src/Resilience/Lifecycle/Examples.antt =====
-- Witnesses for lib/sippycup_resilience/lifecycle.py, at short synthetic runs.
use sippycup.Prelude.{ℕ, ◌≤◌, ◌*◌, String, List, none, some, ok, ◌≡◌, ◌↔◌, refl, arith}
use sippycup.Json.{Value, int, pos}
use sippycup.Resilience.Common.{bounded_int, require_list}
use sippycup.Resilience.Lifecycle.{Report, synthetic_snapshots, analyze_lifecycle}
use sippycup.Resilience.Lifecycle.Recovery.{Analyzed, analyze_lifecycle-Analyzed}
use sippycup.Resilience.Lifecycle.Synthetic.{synthetic-clean, synthetic-leak}

synthetic-clean_example :
    (v : Value) × (synthetic_snapshots (int (pos 7)) none ≡ ok v)
    × (r : Report) × (analyze_lifecycle v (int (pos 1048576)) ≡ ok r)
    × (r.status ≡ "pass")
synthetic-clean_example = synthetic-clean 1048576 7 (omega arith) (omega arith) (omega arith)

synthetic-leak_example :
    (v : Value) × (synthetic_snapshots (int (pos 7)) (some "memoryBytes") ≡ ok v)
    × (r : Report) × (analyze_lifecycle v (int (pos 1048576)) ≡ ok r)
    × ((r.status ≡ "pass")
        ↔ ((◌≡◌ {A = String} "memoryBytes" "memoryBytes") × (7 * 4096 ≤ 1048576)))
synthetic-leak_example =
    synthetic-leak 1048576 7 "memoryBytes" (omega arith) (omega arith) (omega arith) refl

-- A run of seven cycles, and its report.
clean_run :
    (v : Value) × (synthetic_snapshots (int (pos 7)) none ≡ ok v)
    × (r : Report) × (analyze_lifecycle v (int (pos 1048576)) ≡ ok r)
    × (r.status ≡ "pass")
clean_run = synthetic-clean 1048576 7 (omega arith) (omega arith) (omega arith)

analyze_lifecycle-Analyzed_example :
    (tolerance : ℕ) × (bounded_int (int (pos 1048576)) 0 1073741824 ≡ ok tolerance)
    × (raws : List Value) × (require_list clean_run.0 ≡ ok raws)
    × Analyzed raws tolerance clean_run.2
analyze_lifecycle-Analyzed_example =
    analyze_lifecycle-Analyzed clean_run.0 (int (pos 1048576)) clean_run.2 clean_run.3
