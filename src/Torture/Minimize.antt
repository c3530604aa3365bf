-- ===== src/Torture/Minimize.antt =====
-- lib/sippycup_torture/minimize.py, `HierarchicalMinimizer`: hierarchical delta debugging under a
-- traffic budget. The predicate that sends a candidate and watches the peer is a parameter that
-- may depend on, and change, the state of the outside world; so is SHA-256.
pub mod Ledger
pub mod Budget
pub mod Search
pub mod Levels
pub mod Outcome
mod Examples
use sippycup.Prelude.{
  ℕ, zero, suc, ◌+◌, ◌-◌, ◌*◌, ◌/◌, ◌%◌, String, Bool, true, false, ◌&&◌, ◌||◌, not, List, [], ◌∷◌,
  ◌++◌, map, Option, none, some, Result, ok, err, ◌>>=◌, ◌>>◌, guard, str_eq, ltb, leb, ◌==◌, min,
  length, take, drop, all, any, if◌then◌else◌,
}
use sippycup.Torture.Bytes.{
  Span, Level, sections, headers, body_lines, values, spans, delete_spans, is_subsequence,
}

-- The `CorpusError`s of the class; `out_of_fuel` is the model's own, and never raised.
pub data CorpusError : Type 0 where
  invalid_authorization invalid_limits empty_source oversized_source no_quorum : CorpusError
  reordered_bytes new_dimension changed_authorization out_of_fuel : CorpusError

pub record Authorization : Type 0 where
  pub destination : String
  pub dialog_state : String
  pub max_packets_per_trial : ℕ
  pub max_bytes_per_trial : ℕ

pub record Reproducer : Type 0 where
  pub wire_bytes : List ℕ
  pub dimensions : List String
  pub authorization : Authorization

pub record TrialResult : Type 0 where
  pub failed : Bool
  pub actual_outcome : String

pub record Limits : Type 0 where
  pub trials : ℕ
  pub quorum : ℕ
  pub max_candidates : ℕ
  pub max_total_packets : ℕ
  pub max_total_bytes : ℕ

-- `Authorization.__post_init__`.
unfoldable pub check_authorization : Authorization → Result CorpusError (Unit {0})
check_authorization a = do
  guard (not (str_eq a.destination "" || str_eq a.dialog_state "")) invalid_authorization
  guard (leb 1 a.max_packets_per_trial && leb a.max_packets_per_trial 3) invalid_authorization
  guard (leb 1 a.max_bytes_per_trial && leb a.max_bytes_per_trial 4096) invalid_authorization

-- `MinimizerLimits.__post_init__`.
unfoldable pub check_limits : Limits → Result CorpusError (Unit {0})
check_limits l = do
  guard
      (all (leb 1)
        (l.trials ∷ l.quorum ∷ l.max_candidates ∷ l.max_total_packets ∷ l.max_total_bytes ∷ []))
      invalid_limits
  guard (not (ltb l.trials l.quorum || ltb 9 l.trials)) invalid_limits
  guard (not (ltb 256 l.max_candidates || ltb 768 l.max_total_packets)) invalid_limits

pub data Classification : Type 0 where
  stable flaky not_reproduced budget_exhausted : Classification

pub record Verdict : Type 0 where
  pub failures : ℕ
  pub classification : Classification

pub record TraceEntry : Type 0 where
  pub index : ℕ
  pub level : String
  pub sha256 : String
  pub bytes : ℕ
  pub dimensions : List String
  pub failures : ℕ
  pub trials : ℕ
  pub classification : Classification
  pub actual_outcomes : List String

-- The attributes that the methods change, and the outside world.
pub record State (World : Type 0) : Type 0 where
  pub trace : List TraceEntry
  pub candidates : ℕ
  pub total_packets : ℕ
  pub total_bytes : ℕ
  pub final_trials : List TrialResult
  pub world : World

-- The parts of `_result` that are not copied from the arguments.
pub record Summary : Type 0 where
  pub reduced : Reproducer
  pub stability : Classification
  pub actual_outcomes : List String
  pub candidate_tests : ℕ
  pub reserved_packets : ℕ
  pub bytes : ℕ

abbrev pub same_authorization : Authorization → Authorization → Bool
same_authorization a b =
    str_eq a.destination b.destination
    && str_eq a.dialog_state b.dialog_state
    && a.max_packets_per_trial == b.max_packets_per_trial
    && a.max_bytes_per_trial == b.max_bytes_per_trial

-- `==` on bytes.
unfoldable pub same_bytes : List ℕ → List ℕ → Bool
same_bytes [] [] = true
same_bytes (x ∷ xs) (y ∷ ys) = x == y && same_bytes xs ys
same_bytes _ _ = false

-- `name in names`.
abbrev pub contains : List String → String → Bool
contains names name = any (λ n. str_eq n name) names

-- `sum(result.failed for result in results)`.
unfoldable pub count_failed : List TrialResult → ℕ
count_failed [] = 0
count_failed (r ∷ rs) = (if r.failed then 1 else 0) + count_failed rs

unfoldable pub classify : Limits → ℕ → Classification
classify limits failures =
    if failures == limits.trials
    then stable
    else if leb limits.quorum failures
    then flaky
    else not_reproduced

unfoldable pub is_stable : Classification → Bool
is_stable stable = true
is_stable _ = false

unfoldable pub is_flaky : Classification → Bool
is_flaky flaky = true
is_flaky _ = false

-- `spans[start : start + width]` for `start in range(0, len(spans), width)`.
unfoldable pub chunks : ℕ → ℕ → List Span → List (List Span)
chunks zero width ss = []
chunks (suc fuel) width [] = []
chunks (suc fuel) width (s ∷ ss) = take width (s ∷ ss) ∷ chunks fuel width (drop width (s ∷ ss))

-- `math.ceil(a / b)`.
abbrev pub ceil : ℕ → ℕ → ℕ
ceil a b = a / b + (if a % b == 0 then 0 else 1)

module _ {World : Type 0} (predicate : World → Reproducer → TrialResult × World)
    (sha256 : List ℕ → String) where
  -- `tuple(self.predicate(candidate) for _ in range(trials))`.
  unfoldable pub run_trials : ℕ → Reproducer → World → List TrialResult × World
  run_trials zero candidate world = ([], world)
  run_trials (suc n) candidate world =
      let (r, world') = predicate world candidate in
      let (rs, world'') = run_trials n candidate world' in (r ∷ rs, world'')

  module _ (source : Reproducer) (limits : Limits) where
    -- The part of `_test` behind its checks: the trials, and the books.
    unfoldable pub record_trials : Reproducer → String → State World → Verdict × State World
    record_trials candidate level st =
        let (results, world') = run_trials limits.trials candidate st.world in
        let failures = count_failed results in
        let classification = classify limits failures in
        (
          record { failures = failures; classification = classification },
          record {
            candidates = st.candidates + 1;
            total_packets =
                st.total_packets + source.authorization.max_packets_per_trial * limits.trials;
            total_bytes = st.total_bytes + length candidate.wire_bytes * limits.trials;
            final_trials = results;
            trace =
                st.trace
                ++ record {
                  index = st.candidates + 1;
                  level = level;
                  sha256 = sha256 candidate.wire_bytes;
                  bytes = length candidate.wire_bytes;
                  dimensions = candidate.dimensions;
                  failures = failures;
                  trials = limits.trials;
                  classification = classification;
                  actual_outcomes = map (λ (r : TrialResult). r.actual_outcome) results;
                }
                  ∷ [];
            world = world';
          },
        )

    abbrev exhausted : State World → Result CorpusError (Verdict × State World)
    exhausted st = ok (record { failures = 0; classification = budget_exhausted }, st)

    -- `_test`.
    unfoldable pub test :
        Reproducer → String → State World → Result CorpusError (Verdict × State World)
    test candidate level st = if leb limits.max_candidates st.candidates then exhausted st else do
      guard (is_subsequence candidate.wire_bytes source.wire_bytes) reordered_bytes
      guard (all (contains source.dimensions) candidate.dimensions) new_dimension
      guard (same_authorization candidate.authorization source.authorization) changed_authorization
      if ltb limits.max_total_packets
              (st.total_packets + source.authorization.max_packets_per_trial * limits.trials)
            || ltb limits.max_total_bytes
                (st.total_bytes + length candidate.wire_bytes * limits.trials)
          then exhausted st
          else ok (record_trials candidate level st)

    -- The inner `for` of `_reduce_bytes`: the first chunk whose removal reproduces every time.
    unfoldable pub scan :
        List (List Span)
        → Reproducer
        → String
        → State World
        → Result CorpusError (Option Reproducer × State World)
    scan [] current level st = ok (none, st)
    scan (removal ∷ rest) current level st =
        let bytes = delete_spans current.wire_bytes removal in
        let candidate = record current { wire_bytes = bytes } in
        let skipped = scan rest current level st in
        if length bytes == 0 || same_bytes bytes current.wire_bytes then skipped else do
          tested ← test candidate level st
          elim (is_stable tested.0.classification) [
            | true ↦ ok (some candidate, tested.1)
            | false ↦ scan rest current level tested.1
          ]

    -- The `while partitions <= len(spans)` of `_reduce_bytes`.
    unfoldable pub refine :
        ℕ
        → ℕ
        → List Span
        → Reproducer
        → String
        → State World
        → Result CorpusError (Option Reproducer × State World)
    refine zero partitions ss current level st = err out_of_fuel
    refine (suc fuel) partitions ss current level st = elim (leb partitions (length ss)) [
      | false ↦ ok (none, st)
      | true ↦ (do
        scanned ← scan (chunks (length ss) (ceil (length ss) partitions) ss) current level st
        elim scanned.0 [
          | some candidate ↦ ok (some candidate, scanned.1)
          | none ↦ elim (partitions == length ss) [
            | true ↦ ok (none, scanned.1)
            | false ↦ refine fuel (min (length ss) (partitions * 2)) ss current level scanned.1
          ]
        ])
    ]

    -- `_reduce_bytes`.
    unfoldable pub reduce_bytes :
        ℕ
        → Reproducer
        → Level
        → String
        → State World
        → Result CorpusError (Reproducer × State World)
    reduce_bytes zero current level name st = err out_of_fuel
    reduce_bytes (suc fuel) current level name st =
        let ss = spans current.wire_bytes level in
        if length ss == 0 then ok (current, st) else do
          refined ← refine (suc (length ss)) (min 2 (length ss)) ss current name st
          elim refined.0 [
            | none ↦ ok (current, refined.1)
            | some candidate ↦ reduce_bytes fuel candidate level name refined.1
          ]

    -- `_reduce_dimensions`, with fuel for `len(dimensions) - index`, which every round lowers.
    unfoldable pub reduce_dimensions :
        ℕ → ℕ → Reproducer → State World → Result CorpusError (Reproducer × State World)
    reduce_dimensions zero index current st =
        if ltb index (length current.dimensions) then err out_of_fuel else ok (current, st)
    reduce_dimensions (suc n) index current st =
        let dimensions = current.dimensions in
        let candidate = record current {
          dimensions = take index dimensions ++ drop (index + 1) dimensions;
        } in
        if not (ltb index (length dimensions)) then ok (current, st) else do
          tested ← test candidate "mutation-dimensions" st
          elim (is_stable tested.0.classification) [
            | true ↦ reduce_dimensions n index candidate tested.1
            | false ↦ reduce_dimensions n (index + 1) current tested.1
          ]

    abbrev bytes_fuel : Reproducer → ℕ
    bytes_fuel current = suc (length current.wire_bytes)

    -- The reductions of `minimize`, level by level.
    unfoldable pub reduce : Reproducer → State World → Result CorpusError (Reproducer × State World)
    reduce r0 st0 = do
      s1 ← reduce_bytes (bytes_fuel r0) r0 sections "sections" st0
      s2 ← reduce_bytes (bytes_fuel s1.0) s1.0 headers "headers" s1.1
      s3 ← reduce_bytes (bytes_fuel s2.0) s2.0 body_lines "body-lines" s2.1
      s4 ← reduce_bytes (bytes_fuel s3.0) s3.0 values "values" s3.1
      reduce_dimensions (length s4.0.dimensions) 0 s4.0 s4.1

    unfoldable pub summary : Reproducer → Classification → State World → Summary
    summary reduced stability st = record {
      reduced = reduced;
      stability = stability;
      actual_outcomes = map (λ (r : TrialResult). r.actual_outcome) st.final_trials;
      candidate_tests = st.candidates;
      reserved_packets = st.total_packets;
      bytes = st.total_bytes;
    }

    unfoldable pub minimize : State World → Result CorpusError (Summary × State World)
    minimize st = do
      baseline ← test source "baseline" st
      guard (leb limits.quorum baseline.0.failures) no_quorum
      if is_flaky baseline.0.classification
          then ok (summary source flaky baseline.1, baseline.1)
          else do
            reduced ← reduce source baseline.1
            final ← test reduced.0 "final-confirmation" reduced.1
            let status = if is_stable final.0.classification then stable else flaky
            ok (summary reduced.0 status final.1, final.1)

  -- `__init__`, without the redaction of the command line.
  unfoldable pub initialize : World → Reproducer → Limits → Result CorpusError (State World)
  initialize world source limits = do
    check_authorization source.authorization
    check_limits limits
    guard (not (length source.wire_bytes == 0)) empty_source
    guard (leb (length source.wire_bytes) source.authorization.max_bytes_per_trial) oversized_source
    ok (record {
      trace = [];
      candidates = 0;
      total_packets = 0;
      total_bytes = 0;
      final_trials = [];
      world = world;
    })
