-- ===== src/Matrix/Constraint.antt =====
-- lib/sippycup/campaign.py: `_predicate_state` and `_constraint_allows`, on assignments that may
-- leave factors open.
pub mod Monotone
use sippycup.Prelude.{
  ℕ, String, Bool, true, false, ◌&&◌, not, List, [], ◌∷◌, Option, none, some, str_eq, ◌==◌, any,
  get, if◌then◌else◌,
}

-- `Scalar = str | int`.
pub data Scalar : Type 0 where
  text : String → Scalar
  number : ℕ → Scalar

unfoldable pub same_scalar : Scalar → Scalar → Bool
same_scalar (text a) (text b) = str_eq a b
same_scalar (number a) (number b) = a == b
same_scalar _ _ = false

abbrev pub Assignment : Type 0
Assignment = List (String × Scalar)

-- Each factor of a predicate with the values that it allows.
abbrev pub Predicate : Type 0
Predicate = List (String × List Scalar)

abbrev pub is_one_of : List Scalar → Scalar → Bool
is_one_of allowed value = any (λ v. same_scalar v value) allowed

-- The loop of `_predicate_state`; `none` is Python's `None`.
unfoldable pub predicate_from : Bool → Predicate → Assignment → Option Bool
predicate_from unknown [] assignment = if unknown then none else some true
predicate_from unknown ((factor, allowed) ∷ rest) assignment = elim (get factor assignment) [
  | none ↦ predicate_from true rest assignment
  | some value ↦ elim (is_one_of allowed value) [
    | true ↦ predicate_from unknown rest assignment
    | false ↦ some false
  ]
]

abbrev pub predicate_state : Predicate → Assignment → Option Bool
predicate_state = predicate_from false

-- The logical forms of a constraint: exactly one of the keys `require`, `exclude`, and `if` with
-- `then`.
pub data Form : Type 0 where
  require exclude : Predicate → Form
  implies : Predicate → Predicate → Form

pub record Constraint : Type 0 where
  pub id : String
  pub form : Form

abbrev pub is_false : Option Bool → Bool
is_false (some false) = true
is_false _ = false

abbrev pub is_true : Option Bool → Bool
is_true (some true) = true
is_true _ = false

unfoldable pub form_allows : Form → Assignment → Bool
form_allows (require p) assignment = not (is_false (predicate_state p assignment))
form_allows (exclude p) assignment = not (is_true (predicate_state p assignment))
form_allows (implies p q) assignment =
    not (is_true (predicate_state p assignment) && is_false (predicate_state q assignment))

abbrev pub constraint_allows : Constraint → Assignment → Bool
constraint_allows c assignment = form_allows c.form assignment
