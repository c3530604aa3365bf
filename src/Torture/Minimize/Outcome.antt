-- ===== src/Torture/Minimize/Outcome.antt =====
-- lib/sippycup_torture/minimize.py, `minimize`: its result is a reduction of the source within the
-- budgets, and a stable result is confirmed by the last trials.
use sippycup.Prelude.{
  not, ℕ, String, List, [], Result, ok, err, ◌>>=◌, ◌>>◌, guard, ◌≡◌, refl, arith, length,
  if◌then◌else◌, Bool-cases, inl, inr, leb, ◌==◌, ◌⊎◌, guard-bind, >>=-eq-ok, ok-injective,
}
use sippycup.Torture.Minimize.{
  CorpusError, no_quorum, empty_source, oversized_source, check_authorization, check_limits,
  Reproducer, TrialResult, Limits, Verdict, State, Summary, summary, stable, flaky, is_stable,
  is_flaky, test, reduce, minimize, initialize,
}
use sippycup.Torture.Minimize.Budget.{
  Reduces, Reduces-refl, Within, Reported, Reproduced, test-Reported,
}
use mathlib.Core.Path.{subst}
use sippycup.Torture.Minimize.Levels.{reduce-Reduced}

module _ {World : Type 0} (predicate : World → Reproducer → TrialResult × World)
    (sha256 : List ℕ → String) (source : Reproducer) (limits : Limits) (start : World) where
  -- What a summary promises of the state it is made in.
  pub record Minimized (s : Summary) (st : State World) : Type 0 where
    pub reduces : Reduces source s.reduced
    pub within : Within predicate sha256 source limits start st
    pub classified : (s.stability ≡ stable) ⊎ (s.stability ≡ flaky)
    pub confirmed :
        s.stability ≡ stable → Reproduced predicate sha256 source limits start s.reduced st
    pub accounted :
        (s.candidate_tests ≡ st.candidates)
        × (s.reserved_packets ≡ st.total_packets)
        × (s.bytes ≡ st.total_bytes)

  -- Either the source does not reach the quorum, or there is such a summary.
  pub Outcome : Result CorpusError (Summary × State World) → Type 0
  Outcome r =
      (r ≡ err no_quorum) ⊎ ((s : Summary) × (st : State World) × (r ≡ ok (s, st)) × Minimized s st)

  initialize-Within :
      (st : State World)
      → initialize predicate sha256 start source limits ≡ ok st
      → Within predicate sha256 source limits start st
  unfolding initialize
  initialize-Within st h =
      let (_, _, limited) = >>=-eq-ok (check_authorization source.authorization) _ h in
      let (_, _, checked) = >>=-eq-ok (check_limits limits) _ limited in
      let (_, filled) = guard-bind (not (length source.wire_bytes == 0)) empty_source _ checked in
      let (_, made) =
        guard-bind (leb (length source.wire_bytes) source.authorization.max_bytes_per_trial)
          oversized_source _ filled in
      let started : record {
        trace = [];
        candidates = 0;
        total_packets = 0;
        total_bytes = 0;
        final_trials = [];
        world = start;
      }
          ≡ st =
        ok-injective made in
      subst (Within predicate sha256 source limits start) started (record {
        tests_within = omega arith;
        packets_within = omega arith;
        bytes_within = omega arith;
        traced = refl;
        all_trials = tt;
        packets_booked = refl;
        bytes_booked = refl;
        ran = ([], refl, refl);
      })

  final-Outcome :
      (c : Reproducer) (st : State World) (v : Verdict)
      → Reduces source c
      → Reported predicate sha256 source limits start c v st
      → Minimized
          (summary predicate sha256 source limits c
            (if is_stable v.classification then stable else flaky)
            st)
          st
  unfolding summary
  final-Outcome c st v r p = record {
    reduces = r;
    within = p.within;
    classified = elim (Bool-cases (is_stable v.classification)) [
      | inl s ↦ inl (rw s refl)
      | inr s ↦ inr (rw s refl)
    ];
    confirmed = λ h. elim (Bool-cases (is_stable v.classification)) [
      | inl s ↦ p.unanimous s
      | inr s ↦ absurd (cc (rw s at h))
    ];
    accounted = (refl, refl, refl);
  }

  flaky-Outcome :
      (st : State World)
      → Within predicate sha256 source limits start st
      → Minimized (summary predicate sha256 source limits source flaky st) st
  unfolding summary
  flaky-Outcome st w = record {
    reduces = Reduces-refl source;
    within = w;
    classified = inr refl;
    confirmed = λ h. cc h;
    accounted = (refl, refl, refl);
  }

  -- `final = self._test(...)` and the return.
  abbrev finish : Reproducer → State World → Result CorpusError (Summary × State World)
  finish c st = do
    final ← test predicate sha256 source limits c "final-confirmation" st
    let status = if is_stable final.0.classification then stable else flaky
    ok (summary predicate sha256 source limits c status final.1, final.1)

  finish-Outcome :
      (c : Reproducer) (st : State World)
      → Reduces source c
      → Within predicate sha256 source limits start st
      → Outcome (finish c st)
  unfolding Outcome
  finish-Outcome c st r w =
      let (v, st', e, p) =
        test-Reported predicate sha256 source limits start c "final-confirmation" st r w in
      inr (_, st', rw e refl, final-Outcome c st' v r p)

  baseline-Outcome :
      (v : Verdict) (st : State World)
      → Within predicate sha256 source limits start st
      → Outcome (
          guard (leb limits.quorum v.failures) no_quorum
          >> (if is_flaky v.classification
              then ok (summary predicate sha256 source limits source flaky st, st)
              else reduce predicate sha256 source limits source st >>= λ r. finish r.0 r.1))
  unfolding Outcome
  baseline-Outcome v st w = elim (Bool-cases (leb limits.quorum v.failures)) [
    | inr below ↦ inl (rw below refl)
    | inl quorum ↦ elim (Bool-cases (is_flaky v.classification)) [
      | inl f ↦ inr (_, st, rw (quorum, f) refl, flaky-Outcome st w)
      | inr f ↦
          let (c, st', e, r, w') =
            reduce-Reduced predicate sha256 source limits start source st (Reduces-refl source) w in
          rw (quorum, f, e) (finish-Outcome c st' r w')
    ]
  ]

  -- From an initialized state, a run either raises that the source does not meet the quorum or
  -- returns a summary: the reduced bytes are a subsequence of the source's, the dimensions are among
  -- the source's, the authorization is the source's, tests, packets and bytes stay within the
  -- limits, where the packets and bytes that are booked are those of all the trials in the trace,
  -- which has one entry for each test; the outside world has seen these trials and no other; and a
  -- stable result has just failed in every one of the last trials.
  pub minimize-Outcome :
      (st : State World)
      → initialize predicate sha256 start source limits ≡ ok st
      → Outcome (minimize predicate sha256 source limits st)
  unfolding minimize
  minimize-Outcome st h =
      let (v, st', e, p) =
        test-Reported predicate sha256 source limits start source "baseline" st
          (Reduces-refl source) (initialize-Within st h) in
      rw e (baseline-Outcome v st' p.within)
