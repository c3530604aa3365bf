-- ===== src/Envelope/Manifest/Lowered.antt =====
-- lib/sippycup/envelope.py, `_apply_reductions`: no override raises a maximum.
use mathlib.Core.Path.{subst}
use sippycup.Prelude.{
  leb→le, ℕ, ◌≤◌, String, List, [], ◌∷◌, Option, none, some, ok, ◌≡◌, arith, leb, Option-cases, inl,
  inr, >>=-eq-ok, guard-bind, ok-injective,
}
use sippycup.Json.{Value}
use sippycup.Envelope.Compile.{Maxima}
use sippycup.Envelope.Manifest.{
  uint, at_key, read_key, MaximaKey, max_calls_per_second, max_concurrent_calls,
  max_media_packets_per_second, max_total_calls, max_duration_seconds, max_hold_seconds,
  max_cooldown_seconds, max_recovery_deadline_seconds, with_key, apply_reductions,
}

-- No maximum is above the one of the source.
pub record Lowered (source m : Maxima) : Type 0 where
  pub calls : m.intensity.calls_per_second ≤ source.intensity.calls_per_second
  pub concurrent : m.intensity.concurrent_calls ≤ source.intensity.concurrent_calls
  pub media : m.intensity.media_packets_per_second ≤ source.intensity.media_packets_per_second
  pub total : m.total_calls ≤ source.total_calls
  pub duration : m.duration_seconds ≤ source.duration_seconds
  pub hold : m.hold_seconds ≤ source.hold_seconds
  pub cooldown : m.cooldown_seconds ≤ source.cooldown_seconds
  pub recovery : m.recovery_deadline_seconds ≤ source.recovery_deadline_seconds

pub Lowered-refl : (m : Maxima) → Lowered m m
Lowered-refl m = record {
  calls = omega arith;
  concurrent = omega arith;
  media = omega arith;
  total = omega arith;
  duration = omega arith;
  hold = omega arith;
  cooldown = omega arith;
  recovery = omega arith;
}

with_key-Lowered :
    (k : MaximaKey) (n : ℕ) (source m : Maxima)
    → n ≤ at_key k source
    → Lowered source m
    → Lowered source (with_key k n m)
with_key-Lowered max_calls_per_second n source m low l = record {
  calls = low;
  concurrent = l.concurrent;
  media = l.media;
  total = l.total;
  duration = l.duration;
  hold = l.hold;
  cooldown = l.cooldown;
  recovery = l.recovery;
}
with_key-Lowered max_concurrent_calls n source m low l = record {
  calls = l.calls;
  concurrent = low;
  media = l.media;
  total = l.total;
  duration = l.duration;
  hold = l.hold;
  cooldown = l.cooldown;
  recovery = l.recovery;
}
with_key-Lowered max_media_packets_per_second n source m low l = record {
  calls = l.calls;
  concurrent = l.concurrent;
  media = low;
  total = l.total;
  duration = l.duration;
  hold = l.hold;
  cooldown = l.cooldown;
  recovery = l.recovery;
}
with_key-Lowered max_total_calls n source m low l = record {
  calls = l.calls;
  concurrent = l.concurrent;
  media = l.media;
  total = low;
  duration = l.duration;
  hold = l.hold;
  cooldown = l.cooldown;
  recovery = l.recovery;
}
with_key-Lowered max_duration_seconds n source m low l = record {
  calls = l.calls;
  concurrent = l.concurrent;
  media = l.media;
  total = l.total;
  duration = low;
  hold = l.hold;
  cooldown = l.cooldown;
  recovery = l.recovery;
}
with_key-Lowered max_hold_seconds n source m low l = record {
  calls = l.calls;
  concurrent = l.concurrent;
  media = l.media;
  total = l.total;
  duration = l.duration;
  hold = low;
  cooldown = l.cooldown;
  recovery = l.recovery;
}
with_key-Lowered max_cooldown_seconds n source m low l = record {
  calls = l.calls;
  concurrent = l.concurrent;
  media = l.media;
  total = l.total;
  duration = l.duration;
  hold = l.hold;
  cooldown = low;
  recovery = l.recovery;
}
with_key-Lowered max_recovery_deadline_seconds n source m low l = record {
  calls = l.calls;
  concurrent = l.concurrent;
  media = l.media;
  total = l.total;
  duration = l.duration;
  hold = l.hold;
  cooldown = l.cooldown;
  recovery = low;
}

pub apply_reductions-Lowered :
    (source : Maxima) (reductions : List (String × Option Value)) (m : Maxima) {r : Maxima}
    → Lowered source m
    → apply_reductions source reductions m ≡ ok r
    → Lowered source r
unfolding apply_reductions
apply_reductions-Lowered source [] m l h = subst (Lowered source) (ok-injective h) l
apply_reductions-Lowered source ((key, none) ∷ rest) m l h = elim (Option-cases (read_key key)) [
  | inl unknown ↦ absurd (cc (rw (unknown, apply_reductions) at h))
  | inr (k, found) ↦ apply_reductions-Lowered source rest m l (rw (found, apply_reductions) at h)
]
apply_reductions-Lowered source ((key, some v) ∷ rest) m l h = elim (Option-cases (read_key key)) [
  | inl unknown ↦ absurd (cc (rw (unknown, apply_reductions) at h))
  | inr (k, found) ↦
      let (reduced, _, h1) = >>=-eq-ok (uint v 1) _ (rw (found, apply_reductions) at h) in
      let (low, h2) = guard-bind (leb reduced (at_key k source)) _ _ h1 in
      apply_reductions-Lowered source rest (with_key k reduced m)
        (with_key-Lowered k reduced source m (leb→le _ _ low) l) h2
]
