-- ===== src/Torture/Minimize/Examples.antt =====
-- Tests and witnesses for lib/sippycup_torture/minimize.py: a peer that fails on a message with a
-- byte 88 in it.
use mathlib.Core.List.{Sublistᴰ}
use sippycup.Torture.Bytes.Subsequence.{is_subsequence_iff}
use sippycup.Prelude.{true, ◌↔◌, ℕ, ◌+◌, String, List, [], ◌∷◌, Result, ok, ◌≡◌, refl, any, ◌==◌}
use sippycup.Torture.Bytes.{
  line_spans, spans, body_start, find, find_in, starts_with, line_spans_from, value_spans,
  token_spans, skip, delete_spans, delete_span, delete_all, sort_spans, insert_span, is_subsequence,
  seek,
}
use sippycup.Torture.Minimize.{
  CorpusError, Reproducer, TrialResult, Limits, State, Summary, is_stable, is_flaky, same_bytes,
  count_failed, classify, chunks, run_trials, record_trials, test, scan, refine, reduce_bytes,
  reduce_dimensions, reduce, summary, minimize, initialize, check_authorization, check_limits,
}
use sippycup.Torture.Minimize.Outcome.{Outcome, minimize-Outcome}

-- The world counts the messages sent.
abbrev peer : ℕ → Reproducer → TrialResult × ℕ
peer sent candidate = (
  record { failed = any (λ byte. byte == 88) candidate.wire_bytes; actual_outcome = "silence" },
  sent + 1,
)

abbrev digest : List ℕ → String
digest bytes = "digest"

-- "AB\r\n\r\nX\nY".
abbrev message : Reproducer
message = record {
  wire_bytes = 65 ∷ 66 ∷ 13 ∷ 10 ∷ 13 ∷ 10 ∷ 88 ∷ 10 ∷ 89 ∷ [];
  dimensions = "fold" ∷ [];
  authorization = record {
    destination = "192.0.2.1";
    dialog_state = "idle";
    max_packets_per_trial = 2;
    max_bytes_per_trial = 64;
  };
}

abbrev budget : Limits
budget = record {
  trials = 3;
  quorum = 2;
  max_candidates = 64;
  max_total_packets = 768;
  max_total_bytes = 4096;
}

abbrev start : State ℕ
start = record {
  trace = [];
  candidates = 0;
  total_packets = 0;
  total_bytes = 0;
  final_trials = [];
  world = 0;
}

started : initialize peer digest 0 message budget ≡ ok start
unfolding initialize check_authorization check_limits
started = refl

minimize-Outcome_example :
    Outcome peer digest message budget 0 (minimize peer digest message budget start)
minimize-Outcome_example = minimize-Outcome peer digest message budget 0 start started

abbrev reduced_bytes : Result CorpusError (Summary × State ℕ) → List ℕ
reduced_bytes (ok (s, _)) = s.reduced.wire_bytes
reduced_bytes _ = []

-- The blank line goes, then the last line; no more, since the first header line is never cut.
minimized_message :
    reduced_bytes (minimize peer digest message budget start) ≡ 65 ∷ 66 ∷ 13 ∷ 10 ∷ 88 ∷ 10 ∷ []
unfolding minimize test run_trials record_trials count_failed classify is_stable is_flaky
    is_subsequence seek reduce reduce_bytes reduce_dimensions refine scan chunks spans body_start
    find find_in starts_with line_spans line_spans_from value_spans token_spans skip delete_spans
    delete_span delete_all sort_spans insert_span same_bytes summary
minimized_message = refl

is_subsequence_iff_example :
    (is_subsequence (65 ∷ 13 ∷ []) (65 ∷ 66 ∷ 13 ∷ []) ≡ true)
    ↔ Sublistᴰ {A = ℕ} (65 ∷ 13 ∷ []) (65 ∷ 66 ∷ 13 ∷ [])
is_subsequence_iff_example = is_subsequence_iff (65 ∷ 13 ∷ []) (65 ∷ 66 ∷ 13 ∷ [])
