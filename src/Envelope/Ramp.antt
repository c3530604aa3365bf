-- ===== src/Envelope/Ramp.antt =====
-- lib/sippycup/envelope.py, `_levels`: the levels of a one-dimensional ramp.
pub mod Shape
use sippycup.Prelude.{
  ℕ, zero, suc, ◌+◌, ◌-◌, ◌*◌, Bool, List, [], ◌∷◌, ◌++◌, Result, ok, err, ltb, ◌==◌, min, not,
  if◌then◌else◌,
}
use sippycup.Envelope.Arithmetic.{EnvelopeError, refused, ceil_div}

abbrev pub max_plan_steps : ℕ
max_plan_steps = 100_000

-- `[start + index * step for index in range(index, index + count)]`.
unfoldable pub level_range : ℕ → ℕ → ℕ → ℕ → List ℕ
level_range start step index zero = []
level_range start step index (suc count) =
    (start + index * step) ∷ level_range start step (suc index) count

-- `levels[-1] = min(levels[-1], maximum)`; the list is never empty where this runs.
unfoldable pub cap_last : ℕ → List ℕ → List ℕ
cap_last maximum [] = []
cap_last maximum (x ∷ []) = min x maximum ∷ []
cap_last maximum (x ∷ y ∷ rest) = x ∷ cap_last maximum (y ∷ rest)

-- `levels[-1] != maximum`.
unfoldable pub last_differs : ℕ → List ℕ → Bool
last_differs maximum [] = Bool.false
last_differs maximum (x ∷ []) = not (x == maximum)
last_differs maximum (x ∷ y ∷ rest) = last_differs maximum (y ∷ rest)

-- `maximum - start` is not negative: the constraints are validated before.
unfoldable pub levels : ℕ → ℕ → ℕ → Result EnvelopeError (List ℕ)
levels start step maximum =
    let count = ceil_div (maximum - start) step + 1 in
    let capped = cap_last maximum (level_range start step 0 count) in
    if ltb max_plan_steps count
    then err (refused "ramp expansion exceeds planner limit")
    else ok (if last_differs maximum capped then capped ++ maximum ∷ [] else capped)
