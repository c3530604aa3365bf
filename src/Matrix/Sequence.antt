-- ===== src/Matrix/Sequence.antt =====
-- lib/sippycup/covering.py, the action sequences: `_valid_action_sequence`, `_ordered_subsequences`
-- and `generate_event_sequences`. SHA-256 and `json.dumps` are a parameter, as the digest of a
-- sequence under a seed and a namespace. Sets are lists without repetition.
pub mod Traces
pub mod Greedy
pub mod Candidates
pub mod Required
pub mod Covers
mod Examples
use Prim.Native.String.{◌++◌ as append}
use sippycup.Prelude.{
  ℕ, zero, suc, ◌+◌, ◌-◌, String, Bool, true, false, ◌&&◌, ◌||◌, not, Option, none, some, List, [],
  ◌∷◌, ◌++◌, map, Result, ok, err, ◌>>=◌, ◌>>◌, guard, str_eq, ltb, leb, ◌==◌, length, any, all,
  sort_by, if◌then◌else◌,
}
use sippycup.Matrix.Satisfiable.{
  ManifestError, invalid_actions, invalid_bounds, too_many_candidates, internal_error, out_of_fuel,
  text_le,
}
use sippycup.Matrix.Cover.{filter, combinations, same_names, names_le}

abbrev pub supported_actions : List String
supported_actions = "dtmf" ∷ "hold" ∷ "resume" ∷ "reinvite" ∷ "failure" ∷ "recover" ∷ "hangup" ∷ []

abbrev pub is_in : String → List String → Bool
is_in name names = any (str_eq name) names

-- `len(set(actions)) == len(actions)`.
abbrev pub no_repetition : List String → Bool
no_repetition [] = true
no_repetition (a ∷ actions) = not (is_in a actions) && no_repetition actions

-- What one action does to `held` and `failed`; `none` is `return False`.
unfoldable pub after : Bool → Bool → String → Option (Bool × Bool)
after held true action = if str_eq action "recover" then some (held, false) else none
after held false action =
    if str_eq action "hold"
    then (if held then none else some (true, false))
    else if str_eq action "resume"
    then (if held then some (false, false) else none)
    else if is_in action ("dtmf" ∷ "reinvite" ∷ [])
    then some (held, false)
    else if str_eq action "failure"
    then some (held, true)
    else none

-- The loop of `_valid_action_sequence`, which skips a hangup.
unfoldable pub valid_from : Bool → Bool → List String → Bool
valid_from held failed [] = true
valid_from held failed (action ∷ rest) =
    if str_eq action "hangup"
    then valid_from held failed rest
    else elim (after held failed action) [
      | none ↦ false
      | some next ↦ valid_from next.0 next.1 rest
    ]

-- `sequence and sequence[-1] == "hangup" and "hangup" not in sequence[:-1]`.
abbrev pub ends_in_hangup : List String → Bool
ends_in_hangup [] = false
ends_in_hangup (action ∷ []) = str_eq action "hangup"
ends_in_hangup (action ∷ next ∷ rest) = not (str_eq action "hangup") && ends_in_hangup (next ∷ rest)

-- `_valid_action_sequence`.
unfoldable pub valid_action_sequence : List String → Bool
valid_action_sequence sequence =
    if ends_in_hangup sequence then valid_from false false sequence else false

abbrev pub Sequences : Type 0
Sequences = List (List String)

abbrev pub contains_sequence : Sequences → List String → Bool
contains_sequence sequences s = any (same_names s) sequences

-- `set.update`.
abbrev pub add_sequences : Sequences → Sequences → Sequences
add_sequences [] found = found
add_sequences (s ∷ more) found =
    add_sequences more (if contains_sequence found s then found else found ++ s ∷ [])

-- `_ordered_subsequences`, whose repetitions are those of `combinations`.
abbrev pub ordered_subsequences : List String → ℕ → Sequences
ordered_subsequences sequence strength = combinations strength sequence

-- `itertools.product(actions, repeat=n)`.
unfoldable pub prefix_all : List String → Sequences → Sequences
prefix_all [] words = []
prefix_all (a ∷ actions) words = map (λ w. a ∷ w) words ++ prefix_all actions words

unfoldable pub words : ℕ → List String → Sequences
words zero actions = [] ∷ []
words (suc n) actions = prefix_all actions (words n actions)

abbrev pub max_sequence_candidates : ℕ
max_sequence_candidates = 250000

-- The loop over the prefixes of one length.
unfoldable pub add_candidates : Sequences → Sequences → Result ManifestError Sequences
add_candidates [] candidates = ok candidates
add_candidates (prefix ∷ prefixes) candidates = do
  let sequence = prefix ++ "hangup" ∷ []
  let found = if valid_action_sequence sequence then candidates ++ sequence ∷ [] else candidates
  guard (leb (length found) max_sequence_candidates) too_many_candidates
  add_candidates prefixes found

-- The loop over the lengths, from `n` on.
unfoldable pub all_candidates : ℕ → ℕ → List String → Sequences → Result ManifestError Sequences
all_candidates zero n nonterminal candidates = ok candidates
all_candidates (suc more) n nonterminal candidates = do
  found ← add_candidates (words n nonterminal) candidates
  all_candidates more (n + 1) nonterminal found

-- The union of the subsequences of the candidates.
unfoldable pub required_of : ℕ → Sequences → Sequences → Sequences
required_of strength [] found = found
required_of strength (item ∷ items) found = required_of strength items (
    if leb strength (length item)
    then add_sequences (ordered_subsequences item strength) found
    else found)

-- `len(_ordered_subsequences(item, strength) & uncovered)`.
abbrev pub score : ℕ → Sequences → List String → ℕ
score strength uncovered item =
    length (filter (contains_sequence (ordered_subsequences item strength)) uncovered)

-- `max(scored, key=…)`, where `best` is the first of the greatest so far.
abbrev pub max_by :
    (List String → ℕ) → (List String → String) → List String → Sequences → List String
max_by rank tie best [] = best
max_by rank tie best (item ∷ items) =
    max_by rank tie
      (if leb (rank item) (rank best)
          && (ltb (rank item) (rank best) || text_le (tie item) (tie best))
        then best
        else item)
      items

pub record SequenceCover : Type 0 where
  pub sequences : Sequences
  pub required_tuples : Sequences
  pub excluded_tuples : Sequences

module _ (stable_key : ℕ → String → List String → String) (decimal : ℕ → String) (seed : ℕ) where
  -- The loop `while uncovered`, with fuel for the number of uncovered tuples. `max` of no candidates
  -- raises `ValueError`, which stands with the internal error here; neither is met.
  unfoldable pub select : ℕ → ℕ → Sequences → Sequences → Sequences → Result ManifestError Sequences
  select fuel strength candidates selected [] = ok selected
  select zero strength candidates selected (t ∷ uncovered) = err out_of_fuel
  select (suc fuel) strength [] selected (t ∷ uncovered) = err internal_error
  select (suc fuel) strength (c ∷ candidates) selected (t ∷ uncovered) =
      let rank = score strength (t ∷ uncovered) in
      let tie = stable_key seed (append "sequence:" (decimal (length selected))) in
      let best = max_by rank tie c candidates in
      let rest = select fuel strength (c ∷ candidates) (selected ++ best ∷ []) (
        filter (λ u. not (contains_sequence (ordered_subsequences best strength) u))
          (t ∷ uncovered)) in
      if rank best == 0 then err internal_error else rest

  unfoldable pub generate_event_sequences : List String → ℕ → ℕ → Result ManifestError SequenceCover
  generate_event_sequences actions max_actions strength = do
    guard (leb 1 max_actions && leb max_actions 7) invalid_bounds
    guard (leb 1 strength && leb strength max_actions) invalid_bounds
    let ordered = sort_by text_le actions
    guard (no_repetition ordered) invalid_actions
    guard (all (λ a. is_in a supported_actions) ordered) invalid_actions
    guard (is_in "hangup" ordered) invalid_actions
    let nonterminal = filter (λ a. not (str_eq a "hangup")) ordered
    found ← all_candidates max_actions 0 nonterminal []
    let candidates = sort_by names_le (add_sequences found [])
    let required = required_of strength candidates []
    selected ← select (length required) strength candidates [] required
    ok (record {
      sequences = selected;
      required_tuples = sort_by names_le required;
      excluded_tuples =
          sort_by names_le
            (filter (λ t. not (contains_sequence required t)) (words strength ordered));
    })
