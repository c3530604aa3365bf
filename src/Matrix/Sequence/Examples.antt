-- ===== src/Matrix/Sequence/Examples.antt =====
-- lib/sippycup/covering.py: a cover of the pairs of hold, resume and hangup.
use sippycup.Prelude.{
  Ends, ℕ, String, true, false, List, [], ◌∷◌, ok, ◌≡◌, ◌↔◌, refl, sort_by, insert_sorted,
}
use sippycup.Matrix.Satisfiable.{text_le}
use sippycup.Matrix.Sequence.{
  after, valid_from, valid_action_sequence, prefix_all, words, add_candidates, all_candidates,
  required_of, select, SequenceCover, generate_event_sequences,
}
use sippycup.Matrix.Sequence.Traces.{Trace, valid_action_sequence_iff}
use sippycup.Matrix.Sequence.Covers.{
  IsCover, is_refusal, generate_event_sequences-IsCover, generate_event_sequences-Ends,
}

abbrev key_of : ℕ → String → List String → String
key_of seed namespace [] = namespace
key_of seed namespace (a ∷ s) = a

abbrev decimal : ℕ → String
decimal n = "1"

abbrev actions : List String
actions = "hangup" ∷ "hold" ∷ "resume" ∷ []

cover : (c : SequenceCover) × (generate_event_sequences key_of decimal 7 actions 3 2 ≡ ok c)
unfolding generate_event_sequences select required_of all_candidates add_candidates words prefix_all
    valid_action_sequence valid_from after sort_by insert_sorted text_le
cover = (_, refl)

one_sequence : cover.0.sequences ≡ ("hold" ∷ "resume" ∷ "hangup" ∷ []) ∷ []
unfolding cover generate_event_sequences select required_of all_candidates add_candidates words
    prefix_all valid_action_sequence valid_from after sort_by insert_sorted text_le
one_sequence = refl

failed_call : valid_action_sequence ("failure" ∷ "dtmf" ∷ "hangup" ∷ []) ≡ false
unfolding valid_action_sequence valid_from after
failed_call = refl

valid_action_sequence_iff_example :
    (valid_action_sequence ("hold" ∷ "failure" ∷ "recover" ∷ "resume" ∷ "hangup" ∷ []) ≡ true)
    ↔ Trace false false ("hold" ∷ "failure" ∷ "recover" ∷ "resume" ∷ "hangup" ∷ [])
valid_action_sequence_iff_example =
    valid_action_sequence_iff ("hold" ∷ "failure" ∷ "recover" ∷ "resume" ∷ "hangup" ∷ [])

generate_event_sequences-IsCover_example : IsCover actions 3 2 cover.0
generate_event_sequences-IsCover_example =
    generate_event_sequences-IsCover key_of decimal 7 actions 3 2 cover.0 cover.1

generate_event_sequences-Ends_example :
    Ends (λ e. is_refusal e ≡ true) (generate_event_sequences key_of decimal 7 actions 3 2)
generate_event_sequences-Ends_example = generate_event_sequences-Ends key_of decimal 7 actions 3 2
