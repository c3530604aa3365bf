-- ===== src/Torture/Minimize/Budget.antt =====
-- lib/sippycup_torture/minimize.py, `_test`: one test keeps the budgets, and rejects no candidate
-- that is a reduction of the source.
use mathlib.Core.List.Sublistᴰ
use mathlib.Core.List.{Sublistᴰ}
use sippycup.Prelude.{
  map, sym, ◌∙◌, ℕ, zero, suc, ◌+◌, ◌*◌, ◌≤◌, ◌<◌, String, Bool, true, false, ◌||◌, List, [], ◌∷◌,
  ok, ◌≡◌, refl, ap, arith, eq_iff, length, length-snoc, all, All, ◌++◌, if◌then◌else◌, Bool-cases,
  inl, inr, ltb, leb,
}
use sippycup.Torture.Bytes.Subsequence.{is_subsequence_iff}
use sippycup.Torture.Minimize.Ledger.{
  sent_bytes, sent_packets, sent_bytes-snoc, sent_packets-snoc, All-snoc, map-snoc,
}
use sippycup.Torture.Minimize.{
  Authorization, TraceEntry, Reproducer, TrialResult, Limits, Verdict, State, budget_exhausted,
  same_authorization, contains, count_failed, classify, is_stable, run_trials, record_trials, test,
}

-- `set(dimensions).issubset(set(dimensions))`.
contains-weaken :
    (n : String) (ns xs : List String)
    → all (contains ns) xs ≡ true
    → all (contains (n ∷ ns)) xs ≡ true
contains-weaken n ns [] h = refl
contains-weaken n ns (x ∷ xs) h = ground (arith, contains-weaken n ns xs)

pub all-contains_self : (xs : List String) → all (contains xs) xs ≡ true
all-contains_self [] = refl
all-contains_self (x ∷ xs) =
    ground (arith, eq_iff x x, contains-weaken x xs xs (all-contains_self xs))

same_authorization_self : (a : Authorization) → same_authorization a a ≡ true
same_authorization_self a =
    ground (arith, eq_iff a.destination a.destination, eq_iff a.dialog_state a.dialog_state)

-- A candidate that keeps a part of the source: bytes in their order, dimensions of the source's,
-- and its authorization.
pub record Reduces (source c : Reproducer) : Type 0 where
  pub ordered : Sublistᴰ c.wire_bytes source.wire_bytes
  pub known : all (contains source.dimensions) c.dimensions ≡ true
  pub authorized : c.authorization ≡ source.authorization

pub Reduces-refl : (source : Reproducer) → Reduces source source
Reduces-refl source = record {
  ordered = Sublistᴰ.refl source.wire_bytes;
  known = all-contains_self source.dimensions;
  authorized = refl;
}

-- All the trials failed.
abbrev pub all_failed : List TrialResult → Bool
all_failed = all (λ (r : TrialResult). r.failed)

count_failed-le : (rs : List TrialResult) → count_failed rs ≤ length rs
unfolding count_failed
count_failed-le [] = omega arith
count_failed-le (r ∷ rs) = ground (arith, count_failed-le rs)

all_failed-count : (rs : List TrialResult) → count_failed rs ≡ length rs → all_failed rs ≡ true
unfolding count_failed
all_failed-count [] h = refl
all_failed-count (r ∷ rs) h = ground (arith, count_failed-le rs, all_failed-count rs)

module _ {World : Type 0} (predicate : World → Reproducer → TrialResult × World)
    (sha256 : List ℕ → String) (source : Reproducer) (limits : Limits) (start : World) where
  length-run_trials :
      (n : ℕ) (c : Reproducer) (w : World) → length (run_trials predicate sha256 n c w).0 ≡ n
  unfolding run_trials
  length-run_trials zero c w = refl
  length-run_trials (suc n) c w = ap suc (length-run_trials n c _)

  -- The outside world after the trials of these candidates, one after the other.
  abbrev pub replay : World → List Reproducer → World
  replay w [] = w
  replay w (c ∷ cs) = replay (run_trials predicate sha256 limits.trials c w).1 cs

  replay-snoc :
      (w : World) (cs : List Reproducer) (c : Reproducer)
      → replay w (cs ++ c ∷ []) ≡ (run_trials predicate sha256 limits.trials c (replay w cs)).1
  replay-snoc w [] c = refl
  replay-snoc w (d ∷ cs) c = replay-snoc (run_trials predicate sha256 limits.trials d w).1 cs c

  -- The outside world has seen the trials of candidates with the sizes in the trace, and no other.
  abbrev pub Ran : State World → Type 0
  Ran st =
      (cs : List Reproducer) × (map (λ (c : Reproducer). length c.wire_bytes) cs
        ≡ map (λ (e : TraceEntry). e.bytes) st.trace)
      × (st.world ≡ replay start cs)

  -- The traffic of the trace is what is booked, and stays within the limits; the trace has one entry
  -- for each test, with all its trials.
  pub record Within (st : State World) : Type 0 where
    pub tests_within : st.candidates ≤ limits.max_candidates
    pub packets_within : st.total_packets ≤ limits.max_total_packets
    pub bytes_within : st.total_bytes ≤ limits.max_total_bytes
    pub traced : length st.trace ≡ st.candidates
    pub all_trials : All (λ (e : TraceEntry). e.trials ≡ limits.trials) st.trace
    pub packets_booked :
        st.total_packets ≡ sent_packets source.authorization.max_packets_per_trial st.trace
    pub bytes_booked : st.total_bytes ≡ sent_bytes st.trace
    pub ran : Ran st

  -- The last trials are `limits.trials` runs of this candidate, and every one failed.
  abbrev pub Reproduced : Reproducer → State World → Type 0
  Reproduced c st =
      (w : World) × (st.final_trials ≡ (run_trials predicate sha256 limits.trials c w).0)
      × (all_failed st.final_trials ≡ true)
      × (length st.final_trials ≡ limits.trials)

  -- A verdict on a candidate, and the state after it.
  pub record Reported (c : Reproducer) (v : Verdict) (st : State World) : Type 0 where
    pub within : Within st
    pub unanimous : is_stable v.classification ≡ true → Reproduced c st

  classify-stable : (n : ℕ) → is_stable (classify limits n) ≡ true → n ≡ limits.trials
  unfolding classify is_stable
  classify-stable n h = ground arith

  unanimous_trials :
      (c : Reproducer) (w : World)
      → is_stable (classify limits (count_failed (run_trials predicate sha256 limits.trials c w).0))
        ≡ true
      → all_failed (run_trials predicate sha256 limits.trials c w).0 ≡ true
  unanimous_trials c w h =
      all_failed-count ((run_trials predicate sha256 limits.trials c w).0)
        (cc (classify-stable _ h, length-run_trials limits.trials c w))

  record_trials-Ran :
      (c : Reproducer) (level : String) (st : State World)
      → Ran st
      → Ran (record_trials predicate sha256 source limits c level st).1
  unfolding record_trials
  record_trials-Ran c level st (cs, sizes, seen) = (
    cs ++ c ∷ [],
    map-snoc (λ (d : Reproducer). length d.wire_bytes) (λ (e : TraceEntry). e.bytes) cs st.trace c _
        sizes refl,
    ap (λ w. (run_trials predicate sha256 limits.trials c w).1) seen ∙ sym (replay-snoc start cs c),
  )

  record_trials-Reported :
      (c : Reproducer) (level : String) (st : State World)
      → Within st
      → st.candidates < limits.max_candidates
      → st.total_packets + source.authorization.max_packets_per_trial * limits.trials
        ≤ limits.max_total_packets
      → st.total_bytes + length c.wire_bytes * limits.trials ≤ limits.max_total_bytes
      → Reported c
          (record_trials predicate sha256 source limits c level st).0
          (record_trials predicate sha256 source limits c level st).1
  unfolding record_trials
  record_trials-Reported c level st w room packets bytes = record {
    within = record {
      tests_within = omega arith;
      packets_within = packets;
      bytes_within = bytes;
      traced = grind (arith, length-snoc);
      all_trials =
          All-snoc (λ (e : TraceEntry). e.trials ≡ limits.trials) st.trace _ w.all_trials refl;
      packets_booked =
          rw
            (
              sent_packets-snoc source.authorization.max_packets_per_trial st.trace,
              w.packets_booked,
            )
            refl;
      bytes_booked = rw (sent_bytes-snoc st.trace, w.bytes_booked) refl;
      ran = record_trials-Ran c level st w.ran;
    };
    unanimous = λ h.
        (st.world, refl, unanimous_trials c st.world h, length-run_trials limits.trials c st.world);
  }

  -- Whether the trials of a candidate would go over a budget.
  abbrev over : Reproducer → State World → Bool
  over c st =
      ltb limits.max_total_packets
        (st.total_packets + source.authorization.max_packets_per_trial * limits.trials)
      || ltb limits.max_total_bytes (st.total_bytes + length c.wire_bytes * limits.trials)

  test-checked :
      (c : Reproducer) (level : String) (st : State World)
      → Reduces source c
      → leb limits.max_candidates st.candidates ≡ false
      → test predicate sha256 source limits c level st ≡ (
          if over c st
          then ok (record { failures = 0; classification = budget_exhausted }, st)
          else ok (record_trials predicate sha256 source limits c level st))
  unfolding test
  test-checked c level st r room =
      let ordered = (is_subsequence_iff c.wire_bytes source.wire_bytes).1 r.ordered in
      let same : same_authorization c.authorization source.authorization ≡ true =
        rw r.authorized (same_authorization_self source.authorization) in
      rw (room, ordered, r.known, same, test) refl

  -- A candidate that reduces the source is tested or the budget is exhausted; nothing is raised.
  abbrev pub Tested : Reproducer → String → State World → Type 0
  Tested c level st =
      (v : Verdict) × (st' : State World) × (test predicate sha256 source limits c level st
        ≡ ok (v, st'))
      × Reported c v st'

  test-full :
      (c : Reproducer) (level : String) (st : State World)
      → leb limits.max_candidates st.candidates ≡ true
      → test predicate sha256 source limits c level st
        ≡ ok (record { failures = 0; classification = budget_exhausted }, st)
  unfolding test
  test-full c level st full = rw (full, test) refl

  exhausted-Reported :
      (c : Reproducer) (st : State World)
      → Within st
      → Reported c (record { failures = 0; classification = budget_exhausted }) st
  unfolding is_stable
  exhausted-Reported c st w = record { within = w; unanimous = λ h. cc h }

  pub test-Reported :
      (c : Reproducer) (level : String) (st : State World)
      → Reduces source c
      → Within st
      → Tested c level st
  unfolding is_stable
  test-Reported c level st r w = elim (Bool-cases (leb limits.max_candidates st.candidates)) [
    | inl full ↦ (
      record { failures = 0; classification = budget_exhausted },
      st,
      test-full c level st full,
      exhausted-Reported c st w,
    )
    | inr room ↦ elim (Bool-cases (over c st)) [
      | inl e ↦ (
        record { failures = 0; classification = budget_exhausted },
        st,
        rw e at (test-checked c level st r room),
        exhausted-Reported c st w,
      )
      | inr e ↦ (
        (record_trials predicate sha256 source limits c level st).0,
        (record_trials predicate sha256 source limits c level st).1,
        rw e at (test-checked c level st r room),
        record_trials-Reported c level st w (ground arith) (ground arith) (ground arith),
      )
    ]
  ]
