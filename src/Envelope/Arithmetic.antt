-- ===== src/Envelope/Arithmetic.antt =====
-- lib/sippycup/envelope.py: the checked arithmetic below 2 ^ 64, and the error type.
use sippycup.Prelude.{
  ℕ, ◌+◌, ◌-◌, ◌*◌, ◌/◌, ◌%◌, ◌^◌, ◌≤◌, ◌<◌, String, ◌≡◌, ◌≢◌, Result, ok, err, ◌>>=◌, ltb, ◌==◌,
  arith, if◌then◌else◌, Bool-cases, inl, inr, ◌&&◌, not,
}

-- `EnvelopeError`: an arithmetic overflow, with what was calculated, or another refusal.
pub data EnvelopeError : Type 0 where
  overflow : String → EnvelopeError
  refused : String → EnvelopeError

abbrev pub u64_max : ℕ
u64_max = 2 ^ 64 - 1

-- `left > U64_MAX - right` over Python's integers, where the difference may be negative.
unfoldable pub checked_add : ℕ → ℕ → String → Result EnvelopeError ℕ
checked_add left right field =
    if ltb u64_max (left + right) then err (overflow field) else ok (left + right)

unfoldable pub checked_mul : ℕ → ℕ → String → Result EnvelopeError ℕ
checked_mul left right field =
    if not (left == 0) && ltb (u64_max / left) right
    then err (overflow field)
    else ok (left * right)

-- `numerator // denominator + bool(numerator % denominator)`; every denominator here is positive.
unfoldable pub ceil_div : ℕ → ℕ → ℕ
ceil_div numerator denominator =
    numerator / denominator + (if numerator % denominator == 0 then 0 else 1)

-- A checked sum is the sum, and fits in 64 bits.
pub checked_add-ok :
    (a b : ℕ) (field : String) {c : ℕ} → checked_add a b field ≡ ok c → (c ≡ a + b) × (c ≤ u64_max)
unfolding checked_add
checked_add-ok a b field h = ground arith

-- A block that goes on after a checked sum goes on with the sum.
pub checked_add-bind {ℓ} :
    {A : Type ℓ} (a b : ℕ) (field : String) (f : ℕ → Result EnvelopeError A) {r : A}
    → (checked_add a b field >>= f) ≡ ok r
    → (f (a + b) ≡ ok r) × (a + b ≤ u64_max)
unfolding checked_add
checked_add-bind a b field f h = elim (Bool-cases (ltb u64_max (a + b))) [
  | inl over ↦ cc (rw over at h)
  | inr fits ↦ (rw fits at h, ground arith)
]

-- A sum that fits is not refused.
pub checked_add-fits :
    (a b : ℕ) (field : String) → a + b ≤ u64_max → checked_add a b field ≡ ok (a + b)
unfolding checked_add
checked_add-fits a b field h = ground arith

mul_le_of_le_div : (a b u : ℕ) → b ≤ u / a → a ≢ 0 → a * b ≤ u
mul_le_of_le_div a b u h p = grind arith

le_div_of_mul_le : (a b u : ℕ) → a * b ≤ u → a ≢ 0 → b ≤ u / a
le_div_of_mul_le a b u h p = grind arith

pub checked_mul-ok :
    (a b : ℕ) (field : String) {c : ℕ} → checked_mul a b field ≡ ok c → (c ≡ a * b) × (c ≤ u64_max)
unfolding checked_mul
checked_mul-ok a b field h = ground (arith, mul_le_of_le_div a b u64_max)

pub checked_mul-fits :
    (a b : ℕ) (field : String) → a * b ≤ u64_max → checked_mul a b field ≡ ok (a * b)
unfolding checked_mul
checked_mul-fits a b field h = ground (arith, le_div_of_mul_le a b u64_max)

-- The least number of parts of size `b` that hold `a`.
pub ceil_div_bounds : (a b : ℕ) → 0 < b → (a ≤ ceil_div a b * b) × (ceil_div a b * b < a + b)
unfolding ceil_div
ceil_div_bounds a b h = grind arith
