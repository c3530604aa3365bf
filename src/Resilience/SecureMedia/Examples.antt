-- ===== src/Resilience/SecureMedia/Examples.antt =====
-- lib/sippycup_resilience/secure_media.py on clean observations.
use sippycup.Prelude.{String, Result, err, ◌>>=◌, true, false, ok, ◌≡◌, ◌↔◌, refl}
use sippycup.Json.{Value, str, bool, obj, end, field, has_key, keys, lookup}
use sippycup.Resilience.Common.{
  require_mapping, exact_keys, get_item, member, nonempty_string, boolean, Error, invalid, verdict,
}
use sippycup.Resilience.SecureMedia.{
  Policy, Observation, read_policy, read_observation, analyze_secure_media, report, default_policy,
  clean_observation, findings, fail_if,
}
use sippycup.Resilience.SecureMedia.Verdict.{Secure, analyze_secure_media_pass}

abbrev policy_document : Value
policy_document = obj (
    field "profile" (str "srtp") (
      field "requireMutualTls" (bool false) (
        field "minimumTlsVersion" (str "TLS1.2") (
          field "allowRtpFallback" (bool false)
            (field "requireReplayProtection" (bool true) end)))))

abbrev observation_document : Value
observation_document = obj (
    field "certificateValid" (bool true) (
      field "hostnameValid" (bool true) (
        field "mutualTls" (bool false) (
          field "tlsVersion" (str "TLS1.3") (
            field "mediaProfile" (str "SRTP") (
              field "authenticationValid" (bool true) (
                field "replayAccepted" (bool false)
                  (field "keyMaterialExposed" (bool false) end))))))))

policy_read : (policy : Policy) × (read_policy policy_document ≡ ok policy)
unfolding read_policy require_mapping exact_keys has_key keys get_item lookup member nonempty_string
    boolean
policy_read = (_, refl)

observation_read : (o : Observation) × (read_observation observation_document ≡ ok o)
unfolding read_observation require_mapping exact_keys has_key keys get_item lookup nonempty_string
    boolean
observation_read = (_, refl)

analyze_secure_media_pass_example :
    ((report policy_read.0 observation_read.0).status ≡ "pass")
    ↔ Secure policy_read.0 observation_read.0
unfolding analyze_secure_media read_policy require_mapping exact_keys has_key keys get_item lookup
    member nonempty_string boolean read_observation policy_read observation_read
analyze_secure_media_pass_example =
    analyze_secure_media_pass policy_document observation_document policy_read.0 observation_read.0
      policy_read.1 observation_read.1 refl

-- The verdict on the clean observation of a profile, against its default policy.
abbrev clean_status : String → Result Error String
clean_status profile = do
  policy ← default_policy profile
  observation ← clean_observation profile
  r ← analyze_secure_media policy observation
  ok r.status

clean_sip_tls : clean_status "sip-tls" ≡ ok "pass"
unfolding default_policy clean_observation analyze_secure_media read_policy read_observation report
    findings fail_if require_mapping exact_keys get_item member nonempty_string boolean verdict
    lookup has_key keys
clean_sip_tls = refl

clean_dtls_srtp : clean_status "dtls-srtp" ≡ ok "pass"
unfolding default_policy clean_observation analyze_secure_media read_policy read_observation report
    findings fail_if require_mapping exact_keys get_item member nonempty_string boolean verdict
    lookup has_key keys
clean_dtls_srtp = refl

unknown_profile : clean_status "sdes" ≡ err (invalid "profile")
unfolding default_policy member
unknown_profile = refl
