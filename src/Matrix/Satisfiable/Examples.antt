-- ===== src/Matrix/Satisfiable/Examples.antt =====
-- lib/sippycup/campaign.py: the search and the core on small matrices.
use sippycup.Prelude.{
  Ends, true, false, List, [], ◌∷◌, ok, ◌≡◌, ◌↔◌, refl, sort_by, insert_sorted, get, put,
}
use sippycup.Matrix.Constraint.{
  text, number, same_scalar, Constraint, require, exclude, implies, predicate_from, form_allows,
}
use sippycup.Matrix.Satisfiable.{
  Domain, too_many_states, text_le, domain_before, try_values, search_states, matrix_satisfiable,
  shrink_core, minimal_unsat_core,
}
use sippycup.Matrix.Satisfiable.Exact.{Distinct, Satisfiable, matrix_satisfiable_iff}
use sippycup.Matrix.Satisfiable.Core.{IsMinimal, minimal_unsat_core-IsMinimal}
use sippycup.Matrix.Satisfiable.Raises.{minimal_unsat_core-Ends}

abbrev factors : List Domain
factors = ("transport", text "udp" ∷ text "tls" ∷ []) ∷ ("ptime", number 20 ∷ number 30 ∷ []) ∷ []

abbrev tls_only : Constraint
tls_only = record { id = "tls-only"; form = require (("transport", text "tls" ∷ []) ∷ []) }

abbrev no_tls : Constraint
no_tls = record { id = "no-tls"; form = exclude (("transport", text "tls" ∷ []) ∷ []) }

abbrev fast_udp : Constraint
fast_udp = record {
  id = "fast-udp";
  form = implies (("transport", text "udp" ∷ []) ∷ []) (("ptime", number 20 ∷ []) ∷ []);
}

factors-Distinct : Distinct factors
unfolding Distinct
factors-Distinct = ((refl, tt), (tt, tt))

one_answer : matrix_satisfiable factors (no_tls ∷ fast_udp ∷ []) ≡ ok true
unfolding matrix_satisfiable search_states try_values form_allows predicate_from get put same_scalar
    sort_by insert_sorted domain_before text_le
one_answer = refl

no_answer : matrix_satisfiable factors (tls_only ∷ fast_udp ∷ no_tls ∷ []) ≡ ok false
unfolding matrix_satisfiable search_states try_values form_allows predicate_from get put same_scalar
    sort_by insert_sorted domain_before text_le
no_answer = refl

-- The second constraint does not matter.
core : minimal_unsat_core factors (tls_only ∷ fast_udp ∷ no_tls ∷ []) ≡ ok (tls_only ∷ no_tls ∷ [])
unfolding minimal_unsat_core shrink_core matrix_satisfiable search_states try_values form_allows
    predicate_from get put same_scalar sort_by insert_sorted domain_before text_le
core = refl

matrix_satisfiable_iff_example : (true ≡ true) ↔ Satisfiable factors (no_tls ∷ fast_udp ∷ [])
matrix_satisfiable_iff_example =
    matrix_satisfiable_iff factors (no_tls ∷ fast_udp ∷ []) true factors-Distinct one_answer

unmet : Satisfiable factors (tls_only ∷ fast_udp ∷ no_tls ∷ []) → ⊥
unmet s = cc (
    (matrix_satisfiable_iff factors (tls_only ∷ fast_udp ∷ no_tls ∷ []) false factors-Distinct
        no_answer).1
      s)

minimal_unsat_core-IsMinimal_example :
    IsMinimal factors (tls_only ∷ fast_udp ∷ no_tls ∷ []) (tls_only ∷ no_tls ∷ [])
minimal_unsat_core-IsMinimal_example =
    minimal_unsat_core-IsMinimal factors (tls_only ∷ fast_udp ∷ no_tls ∷ [])
      (tls_only ∷ no_tls ∷ []) factors-Distinct unmet core

minimal_unsat_core-Ends_example :
    Ends (λ e. e ≡ too_many_states) (minimal_unsat_core factors (tls_only ∷ fast_udp ∷ no_tls ∷ []))
minimal_unsat_core-Ends_example =
    minimal_unsat_core-Ends factors (tls_only ∷ fast_udp ∷ no_tls ∷ [])
