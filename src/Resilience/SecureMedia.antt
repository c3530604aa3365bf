-- ===== src/Resilience/SecureMedia.antt =====
-- lib/sippycup_resilience/secure_media.py: the signaling and secure-media policy oracle.
pub mod Verdict
mod Examples
use sippycup.Prelude.{
  ℕ, String, Bool, true, false, not, ◌&&◌, ◌||◌, List, [], ◌∷◌, ◌++◌, map, Result, ok, err, ◌>>=◌,
  ◌>>◌, guard, str_eq, ltb, if◌then◌else◌,
}
use sippycup.Json.{Value, Fields, str, bool, obj, end, field}
use sippycup.Resilience.Common.{
  Error, invalid, require_mapping, exact_keys, nonempty_string, boolean, get_item, member, contains,
  verdict,
}

pub record Policy : Type 0 where
  pub profile : String
  pub require_mtls : Bool
  pub minimum_tls : String
  pub allow_fallback : Bool
  pub require_replay : Bool

pub record Observation : Type 0 where
  pub certificate_valid : Bool
  pub hostname_valid : Bool
  pub mutual_tls : Bool
  pub tls_version : String
  pub media_profile : String
  pub authentication_valid : Bool
  pub replay_accepted : Bool
  pub key_material_exposed : Bool

pub record Finding : Type 0 where
  pub severity : String
  pub code : String

pub record Report : Type 0 where
  pub status : String
  pub profile : String
  pub findings : List Finding

abbrev pub profiles : List String
profiles = "sip-tls" ∷ "srtp" ∷ "dtls-srtp" ∷ []

-- `versions[…]`, on the four versions that the validation lets through.
abbrev pub tls_rank : String → ℕ
tls_rank v =
    if str_eq v "TLS1.0"
    then 10
    else if str_eq v "TLS1.1"
    then 11
    else if str_eq v "TLS1.2"
    then 12
    else 13

-- `expected_media is not None and media_profile != expected_media`, for the profile's entry.
abbrev pub wrong_media : String → String → Bool
wrong_media profile media =
    if str_eq profile "sip-tls"
    then false
    else if str_eq profile "srtp"
    then not (str_eq media "SRTP")
    else not (str_eq media "DTLS-SRTP")

-- `fail(code)` under a test.
unfoldable pub fail_if : Bool → String → List Finding
fail_if test code = if test then record { severity = "fail"; code = code } ∷ [] else []

unfoldable pub findings : Policy → Observation → List Finding
findings policy o =
    fail_if (not o.certificate_valid) "certificate_invalid"
    ++ (fail_if (not o.hostname_valid) "hostname_or_sni_invalid"
        ++ (fail_if (ltb (tls_rank o.tls_version) (tls_rank policy.minimum_tls))
              "tls_version_downgrade"
            ++ (fail_if (policy.require_mtls && not o.mutual_tls) "mutual_tls_missing"
                ++ (fail_if
                      (wrong_media policy.profile o.media_profile
                        && not (policy.allow_fallback && str_eq o.media_profile "RTP"))
                      "media_profile_downgrade"
                    ++ (fail_if
                          (contains ("SRTP" ∷ "DTLS-SRTP" ∷ []) o.media_profile
                            && not o.authentication_valid)
                          "media_authentication_failed"
                        ++ (fail_if (policy.require_replay && str_eq o.media_profile "RTP")
                              "replay_protection_unavailable"
                            ++ (fail_if (policy.require_replay && o.replay_accepted)
                                  "replay_accepted"
                                ++ (fail_if o.key_material_exposed "key_material_exposed"))))))))

unfoldable pub read_policy : Value → Result Error Policy
read_policy value = do
  policy ← require_mapping value
  exact_keys policy
      ("profile" ∷ "requireMutualTls" ∷ "minimumTlsVersion" ∷ "allowRtpFallback"
        ∷ "requireReplayProtection" ∷ [])
      []
  profile ← member (← get_item policy "profile") profiles (invalid "profile")
  mtls ← boolean (← get_item policy "requireMutualTls")
  fallback ← boolean (← get_item policy "allowRtpFallback")
  replay ← boolean (← get_item policy "requireReplayProtection")
  minimum ← nonempty_string (← get_item policy "minimumTlsVersion") 16
  guard (contains ("TLS1.2" ∷ "TLS1.3" ∷ []) minimum) (invalid "minimumTlsVersion")
  ok (record {
    profile = profile;
    require_mtls = mtls;
    minimum_tls = minimum;
    allow_fallback = fallback;
    require_replay = replay;
  })

unfoldable pub read_observation : Value → Result Error Observation
read_observation value = do
  o ← require_mapping value
  exact_keys o
      ("certificateValid" ∷ "hostnameValid" ∷ "mutualTls" ∷ "tlsVersion" ∷ "mediaProfile"
        ∷ "authenticationValid" ∷ "replayAccepted" ∷ "keyMaterialExposed" ∷ [])
      []
  certificate ← boolean (← get_item o "certificateValid")
  hostname ← boolean (← get_item o "hostnameValid")
  mtls ← boolean (← get_item o "mutualTls")
  authentication ← boolean (← get_item o "authenticationValid")
  replay ← boolean (← get_item o "replayAccepted")
  exposed ← boolean (← get_item o "keyMaterialExposed")
  version ← nonempty_string (← get_item o "tlsVersion") 16
  guard (contains ("TLS1.0" ∷ "TLS1.1" ∷ "TLS1.2" ∷ "TLS1.3" ∷ []) version) (invalid "tlsVersion")
  media ← nonempty_string (← get_item o "mediaProfile") 32
  guard (contains ("RTP" ∷ "SRTP" ∷ "DTLS-SRTP" ∷ []) media) (invalid "mediaProfile")
  ok (record {
    certificate_valid = certificate;
    hostname_valid = hostname;
    mutual_tls = mtls;
    tls_version = version;
    media_profile = media;
    authentication_valid = authentication;
    replay_accepted = replay;
    key_material_exposed = exposed;
  })

unfoldable pub report : Policy → Observation → Report
report policy o = record {
  status = verdict (map (λ (f : Finding). f.severity) (findings policy o));
  profile = policy.profile;
  findings = findings policy o;
}

unfoldable pub analyze_secure_media : Value → Value → Result Error Report
analyze_secure_media policy_value observation_value = do
  policy ← read_policy policy_value
  o ← read_observation observation_value
  ok (report policy o)

-- `default_policy`.
unfoldable pub default_policy : String → Result Error Value
default_policy profile = do
  guard (contains profiles profile) (invalid "profile")
  ok (
      obj (
        field "profile" (str profile) (
          field "requireMutualTls" (bool false) (
            field "minimumTlsVersion" (str "TLS1.2") (
              field "allowRtpFallback" (bool false)
                (field "requireReplayProtection" (bool (not (str_eq profile "sip-tls"))) end))))))

-- `clean_observation`.
unfoldable pub clean_observation : String → Result Error Value
clean_observation profile = do
  guard (contains profiles profile) (invalid "profile")
  ok (
      obj (
        field "certificateValid" (bool true) (
          field "hostnameValid" (bool true) (
            field "mutualTls" (bool false) (
              field "tlsVersion" (str "TLS1.3") (
                field "mediaProfile"
                  (str (
                    if str_eq profile "sip-tls"
                    then "RTP"
                    else if str_eq profile "srtp"
                    then "SRTP"
                    else "DTLS-SRTP"))
                  (field "authenticationValid" (bool true) (
                    field "replayAccepted" (bool false)
                      (field "keyMaterialExposed" (bool false) end)))))))))
