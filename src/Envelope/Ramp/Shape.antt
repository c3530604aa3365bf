-- ===== src/Envelope/Ramp/Shape.antt =====
-- lib/sippycup/envelope.py, `_levels`: the ramp climbs by one step at a time and ends at the
-- maximum.
use sippycup.Prelude.{
  ℕ, zero, suc, ◌+◌, ◌-◌, ◌*◌, ◌≤◌, ◌<◌, false, List, [], ◌∷◌, ok, err, ltb, min, if◌then◌else◌,
  ◌≡◌, refl, arith, length, ok-injective, sym, ◌∙◌, ap, Bool-cases, inl, inr,
}
use native.Mathlib.Numerals.{add-one}
use sippycup.Envelope.Arithmetic.{refused, ceil_div, ceil_div_bounds}
use sippycup.Envelope.Ramp.{max_plan_steps, level_range, cap_last, last_differs, levels}

-- After the level `x` come `xs`: each is one step above the one before, but never above the
-- maximum; the list ends at the maximum, and only there.
abbrev pub Climbs : ℕ → ℕ → ℕ → List ℕ → Type 0
Climbs step maximum x [] = x ≡ maximum
Climbs step maximum x (y ∷ ys) =
    (x < maximum) × (y ≡ min (x + step) maximum) × Climbs step maximum y ys

-- What the arithmetic of the last index gives: `x` is the level at `index`, and `count` further
-- levels are just enough to reach the maximum.
cap_last-Climbs :
    (start step maximum index count x : ℕ)
    → 0 < step
    → start + index * step ≡ x
    → maximum ≤ x + count * step
    → x + count * step < maximum + step
    → (xs : List ℕ) × (cap_last maximum (level_range start step index (suc count))
        ≡ min x maximum ∷ xs)
      × Climbs step maximum (min x maximum) xs
      × (length xs ≡ count)
unfolding cap_last level_range
cap_last-Climbs start step maximum index zero x pos e lo hi = ([], rw e, omega arith, refl)
cap_last-Climbs start step maximum index (suc count) x pos e lo hi =
    let (xs, p, q, r) =
      cap_last-Climbs start step maximum (suc index) count (x + step) pos (omega arith)
        (omega arith) (omega arith) in
    let capped : min x maximum ≡ x = omega arith in
    (min (x + step) maximum ∷ xs, cc (e, p, capped), (omega arith, rw capped refl, q), ap suc r)

last_differs-Climbs :
    (step maximum x : ℕ) (xs : List ℕ)
    → Climbs step maximum x xs
    → last_differs maximum (x ∷ xs) ≡ false
unfolding last_differs
last_differs-Climbs step maximum x [] h = ground arith
last_differs-Climbs step maximum x (y ∷ ys) h = last_differs-Climbs step maximum y ys h.2

capped-Climbs :
    (start step maximum count : ℕ)
    → start ≤ maximum
    → 0 < step
    → count ≡ ceil_div (maximum - start) step
    → (xs : List ℕ) × (cap_last maximum (level_range start step 0 (count + 1)) ≡ start ∷ xs)
      × Climbs step maximum start xs
      × (length xs ≡ count)
capped-Climbs start step maximum count fits pos e =
    let b = ceil_div_bounds (maximum - start) step pos in
    let (xs, p, q, r) =
      cap_last-Climbs start step maximum 0 count start pos (omega arith) (rw e (omega (arith, b)))
        (rw e (omega (arith, b))) in
    let low : min start maximum ≡ start = omega arith in
    (xs, rw add-one (p ∙ ap (λ x. x ∷ xs) low), rw low at q, r)

-- The ramp from `start` to `maximum` in steps of `step` begins at `start`, climbs by `step` capped
-- at `maximum`, and ends at `maximum`; it is refused exactly when it has more than
-- `max_plan_steps` levels.
pub levels-Climbs :
    (start step maximum : ℕ)
    → start ≤ maximum
    → 0 < step
    → (xs : List ℕ) × Climbs step maximum start xs
      × (levels start step maximum ≡ (
          if ltb max_plan_steps (length (start ∷ xs))
          then err (refused "ramp expansion exceeds planner limit")
          else ok (start ∷ xs)))
unfolding levels
levels-Climbs start step maximum fits pos =
    let (xs, p, q, r) =
      capped-Climbs start step maximum (ceil_div (maximum - start) step) fits pos refl in
    (xs, q, rw (p, last_differs-Climbs step maximum start xs q, ← r, add-one) refl)

-- The levels of a ramp that is not refused.
pub levels-ok :
    (start step maximum : ℕ) {ls : List ℕ}
    → start ≤ maximum
    → 0 < step
    → levels start step maximum ≡ ok ls
    → (xs : List ℕ) × Climbs step maximum start xs × (ls ≡ start ∷ xs)
levels-ok start step maximum fits pos h =
    let (xs, c, e) = levels-Climbs start step maximum fits pos in
    elim (Bool-cases (ltb max_plan_steps (length (start ∷ xs)))) [
      | inl many ↦ cc (h, rw many at e)
      | inr few ↦ (xs, c, ok-injective (sym h ∙ rw few at e))
    ]
