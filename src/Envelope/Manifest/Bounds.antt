-- ===== src/Envelope/Manifest/Bounds.antt =====
-- lib/sippycup/envelope.py: what the reading of a manifest guarantees to the planner.
use sippycup.Prelude.{◌≤◌, ◌<◌, String, List, Option, ok, ◌≡◌}
use sippycup.Json.{Value, Fields}
use sippycup.Envelope.Compile.{at_dimension}
use sippycup.Envelope.Manifest.Lowered.{Lowered}
use sippycup.Envelope.Manifest.Overrides.{overridden}
use sippycup.Envelope.Manifest.{
  object, item, normalize_maxima, normalize_workload, normalize_ramp, at_key, MaximaKey, Normalized,
}

-- The maxima, the workload and the ramp are those that the sections of the document state.
pub record StatedBy (manifest : Value) (n : Normalized) : Type 0 where
  pub document : Fields
  pub authorization_value : Value
  pub authorization : Fields
  pub maxima_value : Value
  pub workload_value : Value
  pub ramp_value : Value
  pub is_object : object manifest ≡ ok document
  pub authorizes : item document "authorization" ≡ ok authorization_value
  pub authorization_object : object authorization_value ≡ ok authorization
  pub hard_maxima : item authorization "hardMaxima" ≡ ok maxima_value
  pub states_maxima : normalize_maxima maxima_value ≡ ok n.source_maxima
  pub has_workload : item document "workload" ≡ ok workload_value
  pub states_workload : normalize_workload workload_value ≡ ok n.workload
  pub has_ramp : item document "ramp" ≡ ok ramp_value
  pub states_ramp : normalize_ramp ramp_value ≡ ok n.ramp

-- What an accepted manifest gives: maxima that the reductions only lower, each the last override of
-- its name, and a ramp that climbs
-- from below its ceiling.
pub record Accepted (manifest : Value) (reductions : List (String × Option Value)) (n : Normalized)
    : Type 0 where
  pub stated : StatedBy manifest n
  pub lowered : Lowered n.source_maxima n.maxima
  pub enforced :
      (k : MaximaKey) → at_key k n.maxima ≡ overridden k reductions (at_key k n.source_maxima)
  pub climbs : 0 < n.ramp.step
  pub fits : n.ramp.start ≤ at_dimension n.ramp.dimension n.maxima.intensity
