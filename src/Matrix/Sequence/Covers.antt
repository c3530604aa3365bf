-- ===== src/Matrix/Sequence/Covers.antt =====
-- lib/sippycup/covering.py, `generate_event_sequences` as a whole.
use mathlib.Core.Path.{subst}
use sippycup.Prelude.{
  Ends, Only-Ends, ℕ, ◌≤◌, String, Bool, true, false, ◌&&◌, not, List, [], ◌∷◌, ◌++◌, ok, ◌>>=◌,
  guard, bind-elim, ok-injective, ◌≡◌, refl, sym, ap, ◌∙◌, arith, str_eq, eq_iff, leb, length,
  length-append, all, All, All-map, All-sort_by, any-sort_by, sort_by, Bool-cases, inl, inr, Only,
  bind-Only, guard-Only,
}
use sippycup.Matrix.Satisfiable.{
  ManifestError, text_le, invalid_actions, invalid_bounds, too_many_candidates,
}
use sippycup.Matrix.Cover.{filter, same_names, names_le}
use sippycup.Matrix.Sequence.{
  supported_actions, is_in, no_repetition, ends_in_hangup, valid_action_sequence, Sequences,
  contains_sequence, add_sequences, ordered_subsequences, words, all_candidates, required_of,
  select, SequenceCover, generate_event_sequences,
}
use sippycup.Matrix.Sequence.Traces.{Trace, valid_action_sequence_iff, Trace-ends}
use sippycup.Matrix.Sequence.Candidates.{Found, all_candidates-Found, all_candidates-Only}
use sippycup.Matrix.Sequence.Required.{
  or_left, contains-add, contains-required, All-required, All-add, All-contains, contains_self,
  candidates-covered,
}
use sippycup.Matrix.Sequence.Greedy.{is_covered, Selected, select-Selected}

-- A trace ends in its only hangup.
ends_split :
    (s : List String)
    → ends_in_hangup s ≡ true
    → (w : List String) × (s ≡ w ++ "hangup" ∷ []) × All (λ a. str_eq a "hangup" ≡ false) w
ends_split [] h = cc
ends_split (a ∷ []) h = ([], ap (λ n. n ∷ []) ((eq_iff a "hangup").0 h), tt)
ends_split (a ∷ b ∷ s) h =
    let (w, e, n) = ends_split (b ∷ s) (ground arith) in
    (a ∷ w, ap (λ r. a ∷ r) e, (ground arith, n))

is_in-filter :
    (a : String) (p : String → Bool) (xs : List String)
    → p a ≡ true
    → is_in a xs ≡ true
    → is_in a (filter p xs) ≡ true
is_in-filter a p [] h k = cc
is_in-filter a p (x ∷ xs) h k = elim (Bool-cases (str_eq a x)) [
  | inl same ↦
      let named : a ≡ x = (eq_iff a x).0 same in
      let kept : p x ≡ true = rw (← named) h in rw (kept, same) refl
  | inr other ↦ elim (Bool-cases (p x)) [
    | inl e ↦ rw (e, other) (is_in-filter a p xs h (rw other at k))
    | inr e ↦ rw e (is_in-filter a p xs h (rw other at k))
  ]
]

abbrev nonterminal : List String → List String
nonterminal ordered = filter (λ a. not (str_eq a "hangup")) ordered

abbrev SequenceWithin : ℕ → List String → List String → Type 0
SequenceWithin max_actions actions s =
    Trace false false s × All (λ a. is_in a actions ≡ true) s × (length s ≤ max_actions)

All-nonterminal :
    (actions w rest : List String)
    → All (λ a. is_in a actions ≡ true) (w ++ rest)
    → All (λ a. str_eq a "hangup" ≡ false) w
    → All (λ a. is_in a (nonterminal (sort_by text_le actions)) ≡ true) w
All-nonterminal actions [] rest h k = tt
All-nonterminal actions (a ∷ w) rest h k = (
  is_in-filter a (λ b. not (str_eq b "hangup")) (sort_by text_le actions) (rw (k.0) refl)
      (any-sort_by text_le (str_eq a) actions ∙ h.0),
  All-nonterminal actions w rest h.1 k.1,
)

-- Every trace of the actions, up to the bound, is a candidate.
trace-candidate :
    (max_actions : ℕ) (found : Sequences) (actions s : List String)
    → Found max_actions 0 (nonterminal (sort_by text_le actions)) [] found
    → SequenceWithin max_actions actions s
    → contains_sequence (sort_by names_le (add_sequences found [])) s ≡ true
trace-candidate max_actions found actions s f (t, known, short) =
    let (w, e, plain) = ends_split s (Trace-ends false false s t) in
    let inside =
      All-nonterminal actions w ("hangup" ∷ []) (subst (All (λ a. is_in a actions ≡ true)) e known)
        plain in
    let accepted =
      subst (λ r. valid_action_sequence r ≡ true) e ((valid_action_sequence_iff s).1 t) in
    let bound : length (w ++ "hangup" ∷ []) ≤ max_actions =
      subst (λ r. length r ≤ max_actions) e short in
    let size = length-append w ("hangup" ∷ []) in
    let whole = f.added w inside (omega arith) (omega (arith, bound, size)) accepted in
    any-sort_by names_le (same_names s) (add_sequences found [])
    ∙ contains-add found [] s (
        or_left (contains_sequence found s) false
          (subst (λ r. contains_sequence found r ≡ true) (sym e) whole))

filter-holds {ℓ} : {A : Type ℓ} (p : A → Bool) (xs : List A) → All (λ x. p x ≡ true) (filter p xs)
filter-holds p [] = tt
filter-holds p (x ∷ xs) = elim (Bool-cases (p x)) [
  | inl e ↦ rw e ((e, filter-holds p xs))
  | inr e ↦ rw e (filter-holds p xs)
]

absent : (a b : Bool) → (a ≡ true → b ≡ true) → not b ≡ true → a ≡ false
absent a b f h = ground arith

-- The refusals that the code states: of bounds, of actions, and of too many candidates.
abbrev pub is_refusal : ManifestError → Bool
is_refusal invalid_bounds = true
is_refusal invalid_actions = true
is_refusal too_many_candidates = true
is_refusal _ = false

-- The sequences that are selected are traces of calls. Whatever ordered tuple of actions occurs in
-- a trace of the actions within the bound, it occurs in one of them, and it is not excluded.
pub record IsCover (actions : List String) (max_actions strength : ℕ) (c : SequenceCover)
    : Type 0 where
  pub traces : All (Trace false false) c.sequences
  pub covers :
      (s : List String)
      → SequenceWithin max_actions actions s
      → All (λ t. is_covered strength c.sequences t ≡ true) (ordered_subsequences s strength)
  pub excluded :
      (s : List String)
      → SequenceWithin max_actions actions s
      → All (λ t. contains_sequence (ordered_subsequences s strength) t ≡ false) c.excluded_tuples

module _ (stable_key : ℕ → String → List String → String) (decimal : ℕ → String) (seed : ℕ) where
  abbrev candidates_of : Sequences → Sequences
  candidates_of found = sort_by names_le (add_sequences found [])

  -- The selection from the candidates that were found.
  Selected-of :
      (strength : ℕ) (found : Sequences)
      → (result : Sequences) × (select stable_key decimal seed
            (length (required_of strength (candidates_of found) []))
            strength
            (candidates_of found)
            []
            (required_of strength (candidates_of found) [])
          ≡ ok result)
        × Selected strength
            (candidates_of found)
            []
            (required_of strength (candidates_of found) [])
            result
  Selected-of strength found =
      select-Selected stable_key decimal seed
        (length (required_of strength (candidates_of found) [])) strength (candidates_of found) []
        (required_of strength (candidates_of found) []) (omega arith)
        (All-required (λ t. is_covered strength (candidates_of found) t ≡ true) strength
          (candidates_of found) [] (candidates-covered strength (candidates_of found)) tt)

  -- What the code returns, from the candidates that were found.
  abbrev cover_of : List String → ℕ → Sequences → Sequences → SequenceCover
  cover_of actions strength found selected = record {
    sequences = selected;
    required_tuples = sort_by names_le (required_of strength (candidates_of found) []);
    excluded_tuples = sort_by names_le (
        filter (λ t. not (contains_sequence (required_of strength (candidates_of found) []) t))
          (words strength (sort_by text_le actions)));
  }

  cover_of-IsCover :
      (actions : List String) (max_actions strength : ℕ) (found selected : Sequences)
      → Found max_actions 0 (nonterminal (sort_by text_le actions)) [] found
      → Selected strength
          (candidates_of found)
          []
          (required_of strength (candidates_of found) [])
          selected
      → IsCover actions max_actions strength (cover_of actions strength found selected)
  cover_of-IsCover actions max_actions strength found selected f s =
      let required = required_of strength (candidates_of found) [] in
      let occurs =
        λ (r : List String) (w : SequenceWithin max_actions actions r) (t : List String)
            (k : contains_sequence (ordered_subsequences r strength) t ≡ true).
          contains-required strength (candidates_of found) [] r t
            (trace-candidate max_actions found actions r f w) k in
      record {
        traces =
            s.chosen (Trace false false)
              (All-map (λ r. valid_action_sequence r ≡ true) (Trace false false)
                (candidates_of found) (λ r v. (valid_action_sequence_iff r).0 v)
                ((All-sort_by names_le (λ r. valid_action_sequence r ≡ true)
                    (add_sequences found [])).1
                  (All-add (λ r. valid_action_sequence r ≡ true) found [] (f.valid tt) tt)))
              tt;
        covers = λ r w.
            All-map (λ t. contains_sequence (ordered_subsequences r strength) t ≡ true)
              (λ t. is_covered strength selected t ≡ true) (ordered_subsequences r strength)
              (λ t k.
                All-contains (λ u. is_covered strength selected u ≡ true) t required
                  (occurs r w t k) s.covered)
              (contains_self (ordered_subsequences r strength));
        excluded = λ r w.
            (All-sort_by names_le
                (λ t. contains_sequence (ordered_subsequences r strength) t ≡ false) _).1
              (All-map (λ t. not (contains_sequence required t) ≡ true)
                (λ t. contains_sequence (ordered_subsequences r strength) t ≡ false) _
                (λ t k.
                  absent (contains_sequence (ordered_subsequences r strength) t)
                    (contains_sequence required t) (occurs r w t) k)
                (filter-holds (λ t. not (contains_sequence required t))
                  (words strength (sort_by text_le actions))));
      }

  -- The selected sequences are traces of calls; they cover every ordered tuple of actions of every
  -- trace of the given actions within the bound; and no excluded tuple occurs in such a trace.
  pub generate_event_sequences-IsCover :
      (actions : List String) (max_actions strength : ℕ) (c : SequenceCover)
      → generate_event_sequences stable_key decimal seed actions max_actions strength ≡ ok c
      → IsCover actions max_actions strength c
  unfolding generate_event_sequences
  generate_event_sequences-IsCover actions max_actions strength c h =
      let ordered = sort_by text_le actions in
      bind-elim (guard (leb 1 max_actions && leb max_actions 7) invalid_bounds) _ h (λ u1 e1 h1.
        bind-elim (guard (leb 1 strength && leb strength max_actions) invalid_bounds) _ h1
          (λ u2 e2 h2. bind-elim (guard (no_repetition ordered) invalid_actions) _ h2 (λ u3 e3 h3.
            bind-elim (guard (all (λ a. is_in a supported_actions) ordered) invalid_actions) _ h3
              (λ u4 e4 h4.
                bind-elim (guard (is_in "hangup" ordered) invalid_actions) _ h4 (λ u5 e5 h5.
                  bind-elim (all_candidates max_actions 0 (nonterminal ordered) []) _ h5
                    (λ found p h6.
                      let (selected, q, s) = Selected-of strength found in
                      subst (IsCover actions max_actions strength)
                        (ok-injective (rw (q, ◌>>=◌) at h6))
                        (cover_of-IsCover actions max_actions strength found selected
                          (all_candidates-Found max_actions 0 (nonterminal ordered) [] found p)
                          s)))))))

  generate_event_sequences-Only :
      (actions : List String) (max_actions strength : ℕ)
      → Only
          (λ e. is_refusal e ≡ true)
          (generate_event_sequences stable_key decimal seed actions max_actions strength)
  unfolding generate_event_sequences
  generate_event_sequences-Only actions max_actions strength =
      let ordered = sort_by text_le actions in
      let refuses = λ (e : ManifestError). is_refusal e ≡ true in
      bind-Only (guard (leb 1 max_actions && leb max_actions 7) invalid_bounds) _
        (guard-Only refuses _ _ refl)
        (λ u1.
          bind-Only (guard (leb 1 strength && leb strength max_actions) invalid_bounds) _
            (guard-Only refuses _ _ refl)
            (λ u2.
              bind-Only (guard (no_repetition ordered) invalid_actions) _
                (guard-Only refuses _ _ refl)
                (λ u3.
                  bind-Only (guard (all (λ a. is_in a supported_actions) ordered) invalid_actions) _
                    (guard-Only refuses _ _ refl)
                    (λ u4.
                      bind-Only (guard (is_in "hangup" ordered) invalid_actions) _
                        (guard-Only refuses _ _ refl)
                        (λ u5.
                          bind-Only (all_candidates max_actions 0 (nonterminal ordered) []) _
                            (λ e k.
                              ap is_refusal
                                (all_candidates-Only max_actions 0 (nonterminal ordered) [] e k))
                            (λ found.
                              let (selected, q, s) = Selected-of strength found in
                              rw (q, ◌>>=◌) (λ e k. cc k)))))))

  -- The generation returns a cover, or raises a refusal of its arguments or of too many candidates:
  -- it meets no internal error.
  pub generate_event_sequences-Ends :
      (actions : List String) (max_actions strength : ℕ)
      → Ends
          (λ e. is_refusal e ≡ true)
          (generate_event_sequences stable_key decimal seed actions max_actions strength)
  generate_event_sequences-Ends actions max_actions strength =
      Only-Ends (generate_event_sequences stable_key decimal seed actions max_actions strength)
        (generate_event_sequences-Only actions max_actions strength)
