-- ===== src/Matrix/Satisfiable.antt =====
-- lib/sippycup/campaign.py: `_matrix_satisfiable` and `_minimal_unsat_core`. The search counts its
-- states, and gives up above `MAX_SAT_STATES`. Its dictionary of the assignment is passed down.
pub mod Exact
pub mod Core
pub mod Raises
mod Examples
use Prim.Native.Nat.{Ordering}
use Prim.Native.String.{compare}
use sippycup.Prelude.{
  ℕ, zero, suc, ◌+◌, String, Bool, true, false, ◌&&◌, ◌||◌, List, [], ◌∷◌, ◌++◌, Result, ok, err,
  ◌>>=◌, ◌>>◌, guard, ltb, leb, ◌==◌, length, take, drop, all, sort_by, put, if◌then◌else◌,
}
use sippycup.Matrix.Constraint.{Scalar, Assignment, Constraint, constraint_allows}

pub data ManifestError : Type 0 where
  too_many_states too_many_tuples invalid_seed internal_error out_of_fuel : ManifestError
  key_error invalid_actions invalid_bounds too_many_candidates : ManifestError

abbrev pub max_sat_states : ℕ
max_sat_states = 1000000

-- A factor with its domain.
abbrev pub Domain : Type 0
Domain = String × List Scalar

-- `a <= b` of texts.
unfoldable pub text_le : String → String → Bool
text_le a b = elim (compare a b) [ Ordering.gt ↦ false | _ ↦ true ]

-- `key=lambda factor: (len(domains[factor]), factor)`.
unfoldable pub domain_before : Domain → Domain → Bool
domain_before (f, d) (g, e) = ltb (length d) (length e) || (length d == length e && text_le f g)

abbrev pub all_allow : List Constraint → Assignment → Bool
all_allow cs assignment = all (λ c. constraint_allows c assignment) cs

-- `for item in domains[factor]`, where the answer to one value is `attempt`.
unfoldable pub try_values :
    (Scalar → ℕ → Result ManifestError (Bool × ℕ))
    → List Scalar
    → ℕ
    → Result ManifestError (Bool × ℕ)
try_values attempt [] states = ok (false, states)
try_values attempt (v ∷ vs) states = do
  found ← attempt v states
  elim found.0 [ true ↦ ok (true, found.1) | false ↦ try_values attempt vs found.1 ]

-- `search`, over the factors that are left.
unfoldable pub search_states :
    List Constraint → List Domain → Assignment → ℕ → Result ManifestError (Bool × ℕ)
search_states cs [] assignment states = do
  guard (leb (states + 1) max_sat_states) too_many_states
  ok (all_allow cs assignment, states + 1)
search_states cs ((factor, domain) ∷ rest) assignment states = do
  guard (leb (states + 1) max_sat_states) too_many_states
  elim (all_allow cs assignment) [
    | false ↦ ok (false, states + 1)
    | true ↦ try_values (λ v. search_states cs rest (put factor v assignment)) domain (states + 1)
  ]

unfoldable pub matrix_satisfiable : List Domain → List Constraint → Result ManifestError Bool
matrix_satisfiable domains cs = do
  found ← search_states cs (sort_by domain_before domains) [] 0
  ok found.0

-- `core[:index] + core[index + 1 :]`.
abbrev pub without {ℓ} : {A : Type ℓ} → ℕ → List A → List A
without index core = take index core ++ drop (suc index) core

-- The loop of `_minimal_unsat_core`, with fuel for `len(core) - index`, which every round lowers.
unfoldable pub shrink_core :
    List Domain → ℕ → ℕ → List Constraint → Result ManifestError (List Constraint)
shrink_core domains zero index core = if ltb index (length core) then err out_of_fuel else ok core
shrink_core domains (suc fuel) index core = elim (ltb index (length core)) [
  | false ↦ ok core
  | true ↦ (do
    satisfiable ← matrix_satisfiable domains (without index core)
    elim satisfiable [
      | false ↦ shrink_core domains fuel index (without index core)
      | true ↦ shrink_core domains fuel (index + 1) core
    ])
]

unfoldable pub minimal_unsat_core :
    List Domain → List Constraint → Result ManifestError (List Constraint)
minimal_unsat_core domains cs = shrink_core domains (length cs) 0 cs
