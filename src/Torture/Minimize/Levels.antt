-- ===== src/Torture/Minimize/Levels.antt =====
-- lib/sippycup_torture/minimize.py, `_reduce_dimensions` and the levels of `minimize`: every
-- candidate is a reduction of the source, so that no check of `_test` is met.
use sippycup.Prelude.{
  without_one-known, length-without_one, ℕ, zero, suc, ◌+◌, ◌≤◌, String, true, List, ◌++◌, Result,
  ok, ◌>>=◌, ◌≡◌, refl, arith, length, take, drop, Bool-cases, inl, inr, ltb,
}
use sippycup.Torture.Bytes.{Level, sections, headers, body_lines, values}
use sippycup.Torture.Minimize.{
  CorpusError, Reproducer, TrialResult, Limits, Verdict, State, contains, is_stable, test,
  reduce_bytes, reduce_dimensions, reduce,
}
use sippycup.Torture.Minimize.Search.{Reduced, reduce_bytes-Reduced}
use sippycup.Torture.Minimize.Budget.{Reduces, Within, test-Reported}

add_one : (i : ℕ) → i + 1 ≡ suc i
add_one i = omega arith

module _ {World : Type 0} (predicate : World → Reproducer → TrialResult × World)
    (sha256 : List ℕ → String) (source : Reproducer) (limits : Limits) (start : World) where
  abbrev without_dimension : Reproducer → ℕ → Reproducer
  without_dimension c i = record c { dimensions = take i c.dimensions ++ drop (i + 1) c.dimensions }

  without_dimension-Reduces :
      (c : Reproducer) (i : ℕ) → Reduces source c → Reduces source (without_dimension c i)
  without_dimension-Reduces c i r = record {
    ordered = r.ordered;
    known = rw (add_one i) (without_one-known (contains source.dimensions) i c.dimensions r.known);
    authorized = r.authorized;
  }

  reduce_dimensions-step :
      (n i : ℕ) (current : Reproducer) (st st' : State World) (v : Verdict)
      → ltb i (length current.dimensions) ≡ true
      → test predicate sha256 source limits (without_dimension current i) "mutation-dimensions" st
        ≡ ok (v, st')
      → Reduced predicate sha256 source limits start
          (reduce_dimensions predicate sha256 source limits n i (without_dimension current i) st')
      → Reduced predicate sha256 source limits start
          (reduce_dimensions predicate sha256 source limits n (i + 1) current st')
      → Reduced predicate sha256 source limits start
          (reduce_dimensions predicate sha256 source limits (suc n) i current st)
  unfolding reduce_dimensions
  reduce_dimensions-step n i current st st' v more e (c, st2, e2, r, w) (c3, st3, e3, r3, w3) =
      elim (Bool-cases (is_stable v.classification)) [
        | inl s ↦ (c, st2, rw (more, e, ◌>>=◌, reduce_dimensions) (rw s e2), r, w)
        | inr s ↦ (c3, st3, rw (more, e, ◌>>=◌, reduce_dimensions) (rw s e3), r3, w3)
      ]

  reduce_dimensions-Reduced :
      (n i : ℕ) (current : Reproducer) (st : State World)
      → length current.dimensions ≤ i + n
      → Reduces source current
      → Within predicate sha256 source limits start st
      → Reduced predicate sha256 source limits start
          (reduce_dimensions predicate sha256 source limits n i current st)
  unfolding reduce_dimensions
  reduce_dimensions-Reduced zero i current st enough r w = (current, st, ground arith, r, w)
  reduce_dimensions-Reduced (suc n) i current st enough r w =
      elim (Bool-cases (ltb i (length current.dimensions))) [
        | inr past ↦ (current, st, rw (past, reduce_dimensions) refl, r, w)
        | inl more ↦
            let r' = without_dimension-Reduces current i r in
            let (v, st', e, p) =
              test-Reported predicate sha256 source limits start (without_dimension current i)
                "mutation-dimensions" st r' w in
            let fewer : length (take i current.dimensions ++ drop (i + 1) current.dimensions) + 1
                ≡ length current.dimensions =
              rw (add_one i) (length-without_one i current.dimensions (ground arith)) in
            reduce_dimensions-step n i current st st' v more e
              (reduce_dimensions-Reduced n i (without_dimension current i) st' (omega arith) r'
                p.within)
              (reduce_dimensions-Reduced n (i + 1) current st' (omega arith) r p.within)
      ]

  then-Reduced :
      (r : Result CorpusError (Reproducer × State World))
      (k : Reproducer × State World → Result CorpusError (Reproducer × State World))
      → Reduced predicate sha256 source limits start r
      → ((c : Reproducer) (st : State World)
          → Reduces source c
          → Within predicate sha256 source limits start st
          → Reduced predicate sha256 source limits start (k (c, st)))
      → Reduced predicate sha256 source limits start (r >>= k)
  then-Reduced r k (c, st, e, red, w) next = rw e (next c st red w)

  level-Reduced :
      (level : Level) (name : String) (c : Reproducer) (st : State World)
      → Reduces source c
      → Within predicate sha256 source limits start st
      → Reduced predicate sha256 source limits start
          (reduce_bytes predicate sha256 source limits (suc (length c.wire_bytes)) c level name st)
  level-Reduced level name c st r w =
      reduce_bytes-Reduced predicate sha256 source limits start (suc (length c.wire_bytes)) c level
        name st (omega arith) r w

  -- The reductions raise nothing and run out of no fuel.
  pub reduce-Reduced :
      (c : Reproducer) (st : State World)
      → Reduces source c
      → Within predicate sha256 source limits start st
      → Reduced predicate sha256 source limits start (reduce predicate sha256 source limits c st)
  unfolding reduce
  reduce-Reduced c st r w =
      then-Reduced _ _ (level-Reduced sections "sections" c st r w) (λ c1 st1 r1 w1.
        then-Reduced _ _ (level-Reduced headers "headers" c1 st1 r1 w1) (λ c2 st2 r2 w2.
          then-Reduced _ _ (level-Reduced body_lines "body-lines" c2 st2 r2 w2) (λ c3 st3 r3 w3.
            then-Reduced _ _ (level-Reduced values "values" c3 st3 r3 w3) (λ c4 st4 r4 w4.
              reduce_dimensions-Reduced (length c4.dimensions) 0 c4 st4 (omega arith) r4 w4))))
