-- ===== src/Torture/Minimize/Search.antt =====
-- lib/sippycup_torture/minimize.py, the search: `_reduce_bytes`, `_reduce_dimensions`, `minimize`.
-- Every candidate of the search is a reduction of the source, so that no check of `_test` is met;
-- the fuel is enough since partitions double and an adopted candidate is shorter.
use mathlib.Core.Path.{subst}
use mathlib.Core.Option.{some-injective}
use mathlib.Core.List.Sublistᴰ
use mathlib.Core.List.{Sublistᴰ}
use sippycup.Prelude.{
  ℕ, zero, suc, ◌+◌, ◌*◌, ◌≤◌, ◌<◌, String, true, false, ◌||◌, List, [], ◌∷◌, Option, none, some,
  Result, ok, ◌>>=◌, ◌≡◌, refl, arith, length, Bool-cases, inl, inr, leb, ◌==◌, min,
}
use sippycup.Torture.Bytes.{Span, Level, spans, delete_spans}
use sippycup.Torture.Bytes.Subsequence.{delete_spans-Sublist, length-Sublist}
use sippycup.Torture.Minimize.{
  CorpusError, Reproducer, TrialResult, Limits, Verdict, State, same_bytes, is_stable, test, scan,
  refine, reduce_bytes, chunks, ceil,
}
use sippycup.Torture.Minimize.Budget.{Reduces, Within, Reported, test-Reported}

-- Bytes of the data in their order that are not the data are fewer.
shorter : {xs ys : List ℕ} → Sublistᴰ xs ys → same_bytes xs ys ≡ false → length xs < length ys
unfolding same_bytes
shorter Sublistᴰ.slnil h = cc h
shorter (Sublistᴰ.cons s) h = omega (arith, length-Sublist s)
shorter (Sublistᴰ.cons-cons e s) h = ground (arith, e, shorter s)

-- `c` is a reduction of the source with fewer bytes than `b`.
pub record Improves (source b c : Reproducer) : Type 0 where
  pub reduces : Reduces source c
  pub fewer : length c.wire_bytes < length b.wire_bytes

removed-Improves :
    (source b : Reproducer) (removal : List Span)
    → Reduces source b
    → same_bytes (delete_spans b.wire_bytes removal) b.wire_bytes ≡ false
    → Improves source b (record b { wire_bytes = delete_spans b.wire_bytes removal })
removed-Improves source b removal r other =
    let s = delete_spans-Sublist b.wire_bytes removal in
    record {
      reduces = record {
        ordered = Sublistᴰ.trans s r.ordered;
        known = r.known;
        authorized = r.authorized;
      };
      fewer = shorter s other;
    }

module _ {World : Type 0} (predicate : World → Reproducer → TrialResult × World)
    (sha256 : List ℕ → String) (source : Reproducer) (limits : Limits) (start : World) where
  -- What a search returns: a candidate that improves, if any, within the budgets.
  pub record Found (current : Reproducer) (o : Option Reproducer) (st : State World) : Type 0 where
    pub within : Within predicate sha256 source limits start st
    pub improves : (c : Reproducer) → o ≡ some c → Improves source current c

  abbrev Searched : Reproducer → Result CorpusError (Option Reproducer × State World) → Type 0
  Searched current r =
      (o : Option Reproducer) × (st : State World) × (r ≡ ok (o, st)) × Found current o st

  none-Found :
      (current : Reproducer) (st : State World)
      → Within predicate sha256 source limits start st
      → Found current none st
  none-Found current st w = record { within = w; improves = λ c h. cc h }

  some-Found :
      (current c : Reproducer) (st : State World)
      → Within predicate sha256 source limits start st
      → Improves source current c
      → Found current (some c) st
  some-Found current c st w i = record {
    within = w;
    improves = λ c' h. subst (Improves source current) (some-injective _ _ h) i;
  }

  scan-step :
      (removal : List Span) (rest : List (List Span)) (current : Reproducer) (level : String)
      (st st' : State World) (v : Verdict)
      → Reduces source current
      → (length (delete_spans current.wire_bytes removal) == 0
          || same_bytes (delete_spans current.wire_bytes removal) current.wire_bytes)
        ≡ false
      → test predicate sha256 source limits
          (record current { wire_bytes = delete_spans current.wire_bytes removal })
          level
          st
        ≡ ok (v, st')
      → Reported predicate sha256 source limits start
          (record current { wire_bytes = delete_spans current.wire_bytes removal })
          v
          st'
      → Searched current (scan predicate sha256 source limits rest current level st')
      → Searched current (scan predicate sha256 source limits (removal ∷ rest) current level st)
  unfolding scan
  scan-step removal rest current level st st' v r keep e p (o, st2, e2, f) =
      elim (Bool-cases (is_stable v.classification)) [
        | inl s ↦ (
          some (record current { wire_bytes = delete_spans current.wire_bytes removal }),
          st',
          rw (keep, e, ◌>>=◌, s, scan) refl,
          some-Found current
              (record current { wire_bytes = delete_spans current.wire_bytes removal }) st' p.within
              (removed-Improves source current removal r (ground arith)),
        )
        | inr s ↦ (o, st2, rw (keep, e, ◌>>=◌, s, scan) e2, f)
      ]

  scan-Searched :
      (removals : List (List Span)) (current : Reproducer) (level : String) (st : State World)
      → Reduces source current
      → Within predicate sha256 source limits start st
      → Searched current (scan predicate sha256 source limits removals current level st)
  unfolding scan
  scan-Searched [] current level st r w = (none, st, refl, none-Found current st w)
  scan-Searched (removal ∷ rest) current level st r w =
      let bytes = delete_spans current.wire_bytes removal in
      elim (Bool-cases (length bytes == 0 || same_bytes bytes current.wire_bytes)) [
        | inl skip ↦
            let (o, st', e, f) = scan-Searched rest current level st r w in
            (o, st', rw (skip, scan) e, f)
        | inr keep ↦
            let i = removed-Improves source current removal r (ground arith) in
            let (v, st', e, p) =
              test-Reported predicate sha256 source limits start
                (record current { wire_bytes = bytes }) level st i.reduces w in
            scan-step removal rest current level st st' v r keep e p
              (scan-Searched rest current level st' r p.within)
      ]

  refine-step :
      (fuel k : ℕ) (ss : List Span) (current : Reproducer) (level : String) (st : State World)
      → leb k (length ss) ≡ true
      → Searched current (
          scan predicate sha256 source limits
            (chunks (length ss) (ceil (length ss) k) ss)
            current
            level
            st)
      → ((st' : State World)
          → Within predicate sha256 source limits start st'
          → (k == length ss) ≡ false
          → Searched current (
              refine predicate sha256 source limits fuel
                (min (length ss) (k * 2))
                ss
                current
                level
                st'))
      → Searched current (refine predicate sha256 source limits (suc fuel) k ss current level st)
  unfolding refine
  refine-step fuel k ss current level st within (some c, st', e, f) next =
      (some c, st', rw (within, e, refine) refl, f)
  refine-step fuel k ss current level st within (none, st', e, f) next =
      elim (Bool-cases (k == length ss)) [
        | inl last ↦ (none, st', rw (within, e, ◌>>=◌, refine) (rw last refl), f)
        | inr more ↦
            let (o, st2, e2, f2) = next st' f.within more in
            (o, st2, rw (within, e, ◌>>=◌, refine) (rw more e2), f2)
      ]

  -- Partitions double up to the number of the spans.
  refine-Searched :
      (fuel k : ℕ) (ss : List Span) (current : Reproducer) (level : String) (st : State World)
      → 1 ≤ k
      → length ss < fuel + k
      → 1 ≤ fuel
      → Reduces source current
      → Within predicate sha256 source limits start st
      → Searched current (refine predicate sha256 source limits fuel k ss current level st)
  unfolding refine
  refine-Searched zero k ss current level st positive enough some_fuel r w = absurd (omega arith)
  refine-Searched (suc fuel) k ss current level st positive enough some_fuel r w =
      elim (Bool-cases (leb k (length ss))) [
        | inr past ↦ (none, st, rw (past, refine) refl, none-Found current st w)
        | inl within ↦
            refine-step fuel k ss current level st within (scan-Searched _ current level st r w)
              (λ st' w' more.
                refine-Searched fuel (min (length ss) (k * 2)) ss current level st' (ground arith)
                  (ground arith) (ground arith) r w')
      ]

  -- What a reduction returns: a candidate that reduces the source, within the budgets.
  abbrev pub Reduced : Result CorpusError (Reproducer × State World) → Type 0
  Reduced r =
      (c : Reproducer) × (st : State World) × (r ≡ ok (c, st))
      × Reduces source c
      × Within predicate sha256 source limits start st

  reduce_bytes-step :
      (fuel : ℕ) (current : Reproducer) (level : Level) (name : String) (st : State World)
      → Reduces source current
      → (length (spans current.wire_bytes level) == 0) ≡ false
      → Searched current (
          refine predicate sha256 source limits
            (suc (length (spans current.wire_bytes level)))
            (min 2 (length (spans current.wire_bytes level)))
            (spans current.wire_bytes level)
            current
            name
            st)
      → ((c : Reproducer) (st' : State World)
          → Improves source current c
          → Within predicate sha256 source limits start st'
          → Reduced (reduce_bytes predicate sha256 source limits fuel c level name st'))
      → Reduced (reduce_bytes predicate sha256 source limits (suc fuel) current level name st)
  unfolding reduce_bytes
  reduce_bytes-step fuel current level name st r has_spans (none, st', e, f) next =
      (current, st', rw (has_spans, e, ◌>>=◌, reduce_bytes) refl, r, f.within)
  reduce_bytes-step fuel current level name st r has_spans (some c, st', e, f) next =
      let (c2, st2, e2, r2, w2) = next c st' (f.improves c refl) f.within in
      (c2, st2, rw (has_spans, e, ◌>>=◌, reduce_bytes) e2, r2, w2)

  -- Every round that adopts a candidate has fewer bytes to reduce.
  pub reduce_bytes-Reduced :
      (fuel : ℕ) (current : Reproducer) (level : Level) (name : String) (st : State World)
      → length current.wire_bytes < fuel
      → Reduces source current
      → Within predicate sha256 source limits start st
      → Reduced (reduce_bytes predicate sha256 source limits fuel current level name st)
  unfolding reduce_bytes
  reduce_bytes-Reduced zero current level name st enough r w = absurd (omega arith)
  reduce_bytes-Reduced (suc fuel) current level name st enough r w =
      let ss = spans current.wire_bytes level in
      elim (Bool-cases (length ss == 0)) [
        | inl nothing ↦ (current, st, rw (nothing, reduce_bytes) refl, r, w)
        | inr has_spans ↦
            reduce_bytes-step fuel current level name st r has_spans
              (refine-Searched (suc (length ss)) (min 2 (length ss)) ss current name st
                (ground arith) (ground arith) (omega arith) r w)
              (λ c st' i w'.
                reduce_bytes-Reduced fuel c level name st' (omega (arith, i.fewer)) i.reduces w')
      ]
