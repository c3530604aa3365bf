-- ===== src/Envelope/Manifest/Overrides.antt =====
-- lib/sippycup/envelope.py, `_apply_reductions`: each maximum is the last override of its name.
use sippycup.Prelude.{
  ℕ, String, List, [], ◌∷◌, Option, none, some, ok, ◌≡◌, refl, ap, sym, ◌∙◌, arith, str_eq, leb,
  if◌then◌else◌, Option-cases, inl, inr, >>=-eq-ok, guard-bind, ok-injective, eq_iff,
}
use sippycup.Json.{Value, int, pos}
use sippycup.Envelope.Compile.{Maxima}
use sippycup.Envelope.Manifest.{
  uint, at_key, read_key, MaximaKey, max_calls_per_second, max_concurrent_calls,
  max_media_packets_per_second, max_total_calls, max_duration_seconds, max_hold_seconds,
  max_cooldown_seconds, max_recovery_deadline_seconds, with_key, apply_reductions,
}

-- The name of a maximum in the documents.
abbrev pub key_name : MaximaKey → String
key_name max_calls_per_second = "callsPerSecond"
key_name max_concurrent_calls = "concurrentCalls"
key_name max_media_packets_per_second = "mediaPacketsPerSecond"
key_name max_total_calls = "totalCalls"
key_name max_duration_seconds = "durationSeconds"
key_name max_hold_seconds = "holdSeconds"
key_name max_cooldown_seconds = "cooldownSeconds"
key_name max_recovery_deadline_seconds = "recoveryDeadlineSeconds"

-- A maximum after one entry of the overrides: the value of an entry with its name, if it has one.
abbrev pub override : MaximaKey → String → Option Value → ℕ → ℕ
override k key (some (int (pos n))) old = if str_eq key (key_name k) then n else old
override k key _ old = old

-- A maximum after all the overrides.
abbrev pub overridden : MaximaKey → List (String × Option Value) → ℕ → ℕ
overridden k [] old = old
overridden k ((key, value) ∷ rest) old = overridden k rest (override k key value old)

at_key-with_key :
    (k j : MaximaKey) (n : ℕ) (m : Maxima)
    → at_key k (with_key j n m) ≡ (if str_eq (key_name j) (key_name k) then n else at_key k m)
at_key-with_key max_calls_per_second max_calls_per_second n m = refl
at_key-with_key max_calls_per_second _ n m = refl
at_key-with_key max_concurrent_calls max_concurrent_calls n m = refl
at_key-with_key max_concurrent_calls _ n m = refl
at_key-with_key max_media_packets_per_second max_media_packets_per_second n m = refl
at_key-with_key max_media_packets_per_second _ n m = refl
at_key-with_key max_total_calls max_total_calls n m = refl
at_key-with_key max_total_calls _ n m = refl
at_key-with_key max_duration_seconds max_duration_seconds n m = refl
at_key-with_key max_duration_seconds _ n m = refl
at_key-with_key max_hold_seconds max_hold_seconds n m = refl
at_key-with_key max_hold_seconds _ n m = refl
at_key-with_key max_cooldown_seconds max_cooldown_seconds n m = refl
at_key-with_key max_cooldown_seconds _ n m = refl
at_key-with_key max_recovery_deadline_seconds max_recovery_deadline_seconds n m = refl
at_key-with_key max_recovery_deadline_seconds _ n m = refl

read_key-key_name : (key : String) (j : MaximaKey) → read_key key ≡ some j → key ≡ key_name j
unfolding read_key
read_key-key_name key j h = ground (
  arith,
  eq_iff key "callsPerSecond",
  eq_iff key "concurrentCalls",
  eq_iff key "mediaPacketsPerSecond",
  eq_iff key "totalCalls",
  eq_iff key "durationSeconds",
  eq_iff key "holdSeconds",
  eq_iff key "cooldownSeconds",
  eq_iff key "recoveryDeadlineSeconds",
)

uint-int : (v : Value) {n : ℕ} → uint v 1 ≡ ok n → v ≡ int (pos n)
unfolding uint
uint-int (int (pos m)) h = ground arith
uint-int _ h = cc

-- The accepted overrides are enforced, each one.
pub apply_reductions-overridden :
    (k : MaximaKey) (source : Maxima) (reductions : List (String × Option Value)) (m : Maxima)
    {r : Maxima}
    → apply_reductions source reductions m ≡ ok r
    → at_key k r ≡ overridden k reductions (at_key k m)
unfolding apply_reductions
apply_reductions-overridden k source [] m h = ap (at_key k) (ok-injective (sym h))
apply_reductions-overridden k source ((key, none) ∷ rest) m h = elim (Option-cases (read_key key)) [
  | inl unknown ↦ absurd (cc (rw (unknown, apply_reductions) at h))
  | inr (j, found) ↦ apply_reductions-overridden k source rest m (rw (found, apply_reductions) at h)
]
apply_reductions-overridden k source ((key, some v) ∷ rest) m h =
    elim (Option-cases (read_key key)) [
      | inl unknown ↦ absurd (cc (rw (unknown, apply_reductions) at h))
      | inr (j, found) ↦
          let (reduced, given, h1) = >>=-eq-ok (uint v 1) _ (rw (found, apply_reductions) at h) in
          let (_, h2) = guard-bind (leb reduced (at_key j source)) _ _ h1 in
          let named = read_key-key_name key j found in
          apply_reductions-overridden k source rest (with_key j reduced m) h2
          ∙ ap (overridden k rest)
              (rw (at_key-with_key k j reduced m, uint-int v given, named) refl)
    ]
