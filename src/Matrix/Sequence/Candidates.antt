-- ===== src/Matrix/Sequence/Candidates.antt =====
-- lib/sippycup/covering.py, the candidates of `generate_event_sequences`: every valid sequence of the
-- actions, up to the bound on its length.
use mathlib.Core.Path.{subst}
use sippycup.Prelude.{
  ℕ, zero, suc, ◌+◌, ◌≤◌, ◌<◌, String, Bool, true, false, ◌||◌, List, [], ◌∷◌, ◌++◌, map, ok, guard,
  bind-elim, ok-injective, ◌≡◌, refl, sym, ap, ◌∙◌, arith, str_eq, eq_iff, leb, ◌==◌, length, any,
  All, All-append, if◌then◌else◌, Bool-cases, inl, inr, Only, bind-Only, guard-Only,
}
use sippycup.Matrix.Satisfiable.{too_many_candidates}
use sippycup.Matrix.Cover.{same_names}
use sippycup.Matrix.Cover.Tuples.{any-append}
use sippycup.Matrix.Sequence.{
  is_in, valid_action_sequence, Sequences, contains_sequence, prefix_all, words,
  max_sequence_candidates, add_candidates, all_candidates,
}

pub same_names_refl : (a : List String) → same_names a a ≡ true
same_names_refl [] = refl
same_names_refl (f ∷ a) = rw ((eq_iff f f).1 refl, same_names_refl a) refl

pub same_names-eq : (a b : List String) → same_names a b ≡ true → a ≡ b
same_names-eq [] [] h = refl
same_names-eq [] (y ∷ b) h = cc
same_names-eq (x ∷ a) [] h = cc
same_names-eq (f ∷ a) (g ∷ b) h =
    let names : f ≡ g = ground (arith, eq_iff f g) in
    let rest : a ≡ b = same_names-eq a b (ground arith) in rw (names, rest) refl

contains-prefix :
    (a : String) (w : List String) (ws : Sequences)
    → contains_sequence ws w ≡ true
    → contains_sequence (map (λ v. a ∷ v) ws) (a ∷ w) ≡ true
contains-prefix a w [] h = cc h
contains-prefix a w (v ∷ ws) h = rw ((eq_iff a a).1 refl) (ground (arith, contains-prefix a w ws))

or_right : (a b : Bool) → b ≡ true → a || b ≡ true
or_right a b h = ground arith

contains-prefix_all :
    (a : String) (w : List String) (actions : List String) (ws : Sequences)
    → is_in a actions ≡ true
    → contains_sequence ws w ≡ true
    → contains_sequence (prefix_all actions ws) (a ∷ w) ≡ true
unfolding prefix_all
contains-prefix_all a w [] ws one h = cc one
contains-prefix_all a w (b ∷ actions) ws one h =
    any-append (same_names (a ∷ w)) (map (λ v. b ∷ v) ws) (prefix_all actions ws)
    ∙ elim (Bool-cases (str_eq a b)) [
      | inl same ↦
          let named : a ≡ b = (eq_iff a b).0 same in
          let first : contains_sequence (map (λ v. b ∷ v) ws) (a ∷ w) ≡ true =
            subst (λ c. contains_sequence (map (λ v. c ∷ v) ws) (a ∷ w) ≡ true) named
              (contains-prefix a w ws h) in
          rw first refl
      | inr other ↦ or_right _ _ (contains-prefix_all a w actions ws (rw other at one) h)
    ]

-- The words are all the sequences of the actions of their length.
words-contain :
    (actions w : List String)
    → All (λ a. is_in a actions ≡ true) w
    → contains_sequence (words (length w) actions) w ≡ true
unfolding words
words-contain actions [] h = refl
words-contain actions (a ∷ w) h =
    contains-prefix_all a w actions (words (length w) actions) h.0 (words-contain actions w h.1)

pub contains-last :
    (found : Sequences) (s : List String) → contains_sequence (found ++ s ∷ []) s ≡ true
contains-last found s =
    any-append (same_names s) found (s ∷ [])
    ∙ or_right (any (same_names s) found) (same_names s s || false) (rw (same_names_refl s) refl)

-- One loop over prefixes: what was found stays, and the valid sequences are added.
record Added (prefixes found result : Sequences) : Type 0 where
  still : (s : List String) → contains_sequence found s ≡ true → contains_sequence result s ≡ true
  added :
      (p : List String)
      → contains_sequence prefixes p ≡ true
      → valid_action_sequence (p ++ "hangup" ∷ []) ≡ true
      → contains_sequence result (p ++ "hangup" ∷ []) ≡ true
  valid :
      All (λ s. valid_action_sequence s ≡ true) found
      → All (λ s. valid_action_sequence s ≡ true) result

add_candidates-Added :
    (prefixes found result : Sequences)
    → add_candidates prefixes found ≡ ok result
    → Added prefixes found result
unfolding add_candidates
add_candidates-Added [] found result h =
    subst (Added [] found) (ok-injective h)
      (record { still = λ s k. k; added = λ p k v. cc k; valid = λ k. k })
add_candidates-Added (prefix ∷ prefixes) found result h =
    elim (Bool-cases (valid_action_sequence (prefix ++ "hangup" ∷ []))) [
      | inl accepted ↦
          bind-elim
            (guard (leb (length (found ++ (prefix ++ "hangup" ∷ []) ∷ [])) max_sequence_candidates)
              too_many_candidates)
            _ (rw (accepted, add_candidates) at h)
            (λ u e h1.
              let rest =
                add_candidates-Added prefixes (found ++ (prefix ++ "hangup" ∷ []) ∷ []) result h1 in
              record {
                still = λ s k.
                    rest.still s (
                      any-append (same_names s) found ((prefix ++ "hangup" ∷ []) ∷ []) ∙ rw k refl);
                added = λ p k v. elim (Bool-cases (same_names p prefix)) [
                  | inl same ↦
                      subst (λ q. contains_sequence result (q ++ "hangup" ∷ []) ≡ true)
                        (sym (same_names-eq p prefix same))
                        (rest.still (prefix ++ "hangup" ∷ [])
                          (contains-last found (prefix ++ "hangup" ∷ [])))
                  | inr other ↦ rest.added p (rw other at k) v
                ];
                valid = λ k. rest.valid (
                    All-append (λ s. valid_action_sequence s ≡ true) found
                      ((prefix ++ "hangup" ∷ []) ∷ []) k (accepted, tt));
              })
      | inr refused ↦
          bind-elim (guard (leb (length found) max_sequence_candidates) too_many_candidates) _
            (rw (refused, add_candidates) at h)
            (λ u e h1.
              let rest = add_candidates-Added prefixes found result h1 in
              record {
                still = λ s k. rest.still s k;
                added = λ p k v. elim (Bool-cases (same_names p prefix)) [
                  | inl same ↦ cc (
                    ap (λ q. valid_action_sequence (q ++ "hangup" ∷ []))
                        (same_names-eq p prefix same),
                    v,
                    refused,
                  )
                  | inr other ↦ rest.added p (rw other at k) v
                ];
                valid = λ k. rest.valid k;
              })
    ]

-- All the lengths from `n` on: nothing but valid sequences is found, and each of them.
pub record Found (more n : ℕ) (nonterminal : List String) (found result : Sequences) : Type 0 where
  pub still :
      (s : List String) → contains_sequence found s ≡ true → contains_sequence result s ≡ true
  pub added :
      (w : List String)
      → All (λ a. is_in a nonterminal ≡ true) w
      → n ≤ length w
      → length w < n + more
      → valid_action_sequence (w ++ "hangup" ∷ []) ≡ true
      → contains_sequence result (w ++ "hangup" ∷ []) ≡ true
  pub valid :
      All (λ s. valid_action_sequence s ≡ true) found
      → All (λ s. valid_action_sequence s ≡ true) result

pub all_candidates-Found :
    (more n : ℕ) (nonterminal : List String) (found result : Sequences)
    → all_candidates more n nonterminal found ≡ ok result
    → Found more n nonterminal found result
unfolding all_candidates
all_candidates-Found zero n nonterminal found result h =
    subst (Found zero n nonterminal found) (ok-injective h)
      (record { still = λ s k. k; added = λ w a l u v. absurd (omega arith); valid = λ k. k })
all_candidates-Found (suc more) n nonterminal found result h =
    bind-elim (add_candidates (words n nonterminal) found) _ h (λ middle p h1.
      let one = add_candidates-Added (words n nonterminal) found middle p in
      let rest = all_candidates-Found more (n + 1) nonterminal middle result h1 in
      record {
        still = λ s k. rest.still s (one.still s k);
        added = λ w a l u v. elim (Bool-cases (length w == n)) [
          | inl whole ↦
              let size : length w ≡ n = ground arith in
              rest.still (w ++ "hangup" ∷ []) (
                one.added w
                  (subst (λ k. contains_sequence (words k nonterminal) w ≡ true) size
                    (words-contain nonterminal w a))
                  v)
          | inr longer ↦ rest.added w a (ground arith) (omega arith) v
        ];
        valid = λ k. rest.valid (one.valid k);
      })

add_candidates-Only :
    (prefixes found : Sequences)
    → Only (λ e. e ≡ too_many_candidates) (add_candidates prefixes found)
unfolding add_candidates
add_candidates-Only [] found = λ e h. cc h
add_candidates-Only (prefix ∷ prefixes) found =
    let next =
      if valid_action_sequence (prefix ++ "hangup" ∷ [])
      then found ++ (prefix ++ "hangup" ∷ []) ∷ []
      else found in
    bind-Only (guard (leb (length next) max_sequence_candidates) too_many_candidates) _
      (guard-Only _ _ too_many_candidates refl) (λ u. add_candidates-Only prefixes next)

pub all_candidates-Only :
    (more n : ℕ) (nonterminal : List String) (found : Sequences)
    → Only (λ e. e ≡ too_many_candidates) (all_candidates more n nonterminal found)
unfolding all_candidates
all_candidates-Only zero n nonterminal found = λ e h. cc h
all_candidates-Only (suc more) n nonterminal found =
    bind-Only (add_candidates (words n nonterminal) found) _
      (add_candidates-Only (words n nonterminal) found)
      (λ middle. all_candidates-Only more (n + 1) nonterminal middle)
