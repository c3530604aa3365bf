-- ===== src/Matrix/Cover/Examples.antt =====
-- lib/sippycup/covering.py: a covering array with a constraint and a risk.
use Prim.Native.String.{◌++◌ as append}
use sippycup.Prelude.{
  Ends, ℕ, String, List, [], ◌∷◌, ok, ◌≡◌, refl, sort_by, insert_sorted, get, put,
}
use sippycup.Matrix.Constraint.{
  Scalar, Assignment, text, number, same_scalar, Constraint, exclude, predicate_from, form_allows,
}
use sippycup.Matrix.Satisfiable.{Domain, too_many_tuples, text_le, domain_before}
use sippycup.Matrix.Cover.{
  Matrix, FactorTuple, TupleKey, CoveringArray, assignment_covers, compatible, dict, is_unassigned,
  try_candidates, candidate_before, search_completion, complete_assignment, tuples_of, product,
  add_tuple, direct_reasons, classify_tuples, classify, fill_rows, requested_subsets,
  generate_covering_array,
}
use sippycup.Matrix.Cover.Subsets.{Different, different-Different}
use sippycup.Matrix.Cover.Covers.{
  IsNormal, IsCovering, generate_covering_array-IsCovering, generate_covering_array-Ends,
}

abbrev domains : List Domain
domains =
    ("transport", text "tls" ∷ text "udp" ∷ [])
    ∷ ("addressFamily", text "ipv4" ∷ [])
    ∷ ("codec", text "opus" ∷ text "pcmu" ∷ [])
    ∷ ("ptime", number 20 ∷ [])
    ∷ ("mediaProtection", text "plain" ∷ [])
    ∷ ("dtmf", text "none" ∷ [])
    ∷ ("earlyMedia", text "disabled" ∷ [])
    ∷ ("holdReinvite", text "disabled" ∷ [])
    ∷ ("teardownInitiator", text "caller" ∷ [])
    ∷ ("duration", number 60 ∷ [])
    ∷ ("nat", text "none" ∷ [])
    ∷ ("impairment", text "none" ∷ [])
    ∷ []

abbrev no_opus_on_udp : Constraint
no_opus_on_udp = record {
  id = "no-opus-on-udp";
  form = exclude (("transport", text "udp" ∷ []) ∷ ("codec", text "opus" ∷ []) ∷ []);
}

abbrev matrix : Matrix
matrix = record {
  factors = domains;
  constraints = no_opus_on_udp ∷ [];
  mandatory = [];
  strength = 1;
  risks = ("transport" ∷ "codec" ∷ [], 2) ∷ [];
}

abbrev key_of : ℕ → String → Scalar → String
key_of seed namespace (text s) = append namespace s
key_of seed namespace (number n) = namespace

abbrev tuple_key_of : ℕ → String → TupleKey → String
tuple_key_of seed namespace [] = namespace
tuple_key_of seed namespace ((f, v) ∷ key) = append f v

abbrev print : Scalar → String
print (text s) = s
print (number n) = "20"

abbrev decimal : ℕ → String
decimal n = "1"

-- The factors that have one value.
abbrev others : Assignment → Assignment
others rest =
    ("addressFamily", text "ipv4")
    ∷ ("dtmf", text "none")
    ∷ ("duration", number 60)
    ∷ ("earlyMedia", text "disabled")
    ∷ ("holdReinvite", text "disabled")
    ∷ ("impairment", text "none")
    ∷ ("mediaProtection", text "plain")
    ∷ ("nat", text "none")
    ∷ ("ptime", number 20)
    ∷ ("teardownInitiator", text "caller")
    ∷ rest

abbrev single : String → String → FactorTuple
single factor value = (factor, text value) ∷ []

abbrev pair : String → String → FactorTuple
pair transport codec = ("transport", text transport) ∷ ("codec", text codec) ∷ []

-- One row for each allowed pair of a transport and a codec.
abbrev expected : CoveringArray
expected = record {
  rows =
      others (("codec", text "pcmu") ∷ ("transport", text "tls") ∷ [])
      ∷ (("codec", text "opus") ∷ others (("transport", text "tls") ∷ []))
      ∷ (("transport", text "udp") ∷ others (("codec", text "pcmu") ∷ []))
      ∷ [];
  required_tuples =
      single "addressFamily" "ipv4"
      ∷ single "codec" "opus"
      ∷ single "codec" "pcmu"
      ∷ single "dtmf" "none"
      ∷ (("duration", number 60) ∷ [])
      ∷ single "earlyMedia" "disabled"
      ∷ single "holdReinvite" "disabled"
      ∷ single "impairment" "none"
      ∷ single "mediaProtection" "plain"
      ∷ single "nat" "none"
      ∷ (("ptime", number 20) ∷ [])
      ∷ single "teardownInitiator" "caller"
      ∷ single "transport" "tls"
      ∷ pair "tls" "opus"
      ∷ pair "tls" "pcmu"
      ∷ single "transport" "udp"
      ∷ pair "udp" "pcmu"
      ∷ [];
  excluded_tuples = record { values = pair "udp" "opus"; reasons = "no-opus-on-udp" ∷ [] } ∷ [];
}

array : generate_covering_array key_of tuple_key_of print decimal 7 matrix ≡ ok expected
unfolding generate_covering_array classify classify_tuples fill_rows requested_subsets product
    tuples_of add_tuple direct_reasons complete_assignment search_completion candidate_before
    try_candidates is_unassigned dict compatible assignment_covers form_allows predicate_from get
    put same_scalar sort_by insert_sorted domain_before text_le
array = refl

risk_factors : Different ("transport" ∷ "codec" ∷ [])
risk_factors = different-Different ("transport" ∷ "codec" ∷ []) refl

matrix-IsNormal : IsNormal matrix
matrix-IsNormal = record {
  factors = refl;
  risks = ((risk_factors, (refl, (refl, tt))), tt);
  mandatory = tt;
}

generate_covering_array-IsCovering_example : IsCovering matrix expected
generate_covering_array-IsCovering_example =
    generate_covering_array-IsCovering key_of tuple_key_of print decimal 7 matrix matrix-IsNormal
      expected array

generate_covering_array-Ends_example :
    Ends
      (λ e. e ≡ too_many_tuples)
      (generate_covering_array key_of tuple_key_of print decimal 7 matrix)
generate_covering_array-Ends_example =
    generate_covering_array-Ends key_of tuple_key_of print decimal 7 matrix matrix-IsNormal
