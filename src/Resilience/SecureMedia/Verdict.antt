-- ===== src/Resilience/SecureMedia/Verdict.antt =====
-- lib/sippycup_resilience/secure_media.py: what a passing report means.
use mathlib.Core.Path.{subst}
use sippycup.Prelude.{
  ◌≤◌, String, Bool, true, false, not, ◌&&◌, List, [], ◌∷◌, ◌++◌, map, ok, >>=-eq-ok, ok-injective,
  ◌∙◌, bind_ok, guard-bind, ◌≡◌, ◌≢◌, ◌↔◌, ◌⊎◌, refl, sym, arith, eq_iff, str_eq, ltb,
}
use sippycup.Json.{Value}
use sippycup.Resilience.Common.{
  contains, verdict, member, require_mapping, exact_keys, get_item, boolean, nonempty_string,
}
use sippycup.Resilience.Common.Facts.{member-ok}
use sippycup.Resilience.SecureMedia.{
  Policy, Observation, Finding, Report, report, tls_rank, fail_if, findings, read_policy,
  read_observation, analyze_secure_media, wrong_media, profiles,
}

-- What the policy demands of a call, as the conditions that all hold.
pub record Secure (policy : Policy) (o : Observation) : Type 0 where
  pub certificate : o.certificate_valid ≡ true
  pub hostname : o.hostname_valid ≡ true
  pub version : tls_rank policy.minimum_tls ≤ tls_rank o.tls_version
  pub client_certificate : policy.require_mtls ≡ true → o.mutual_tls ≡ true
  pub srtp_media :
      policy.profile ≡ "srtp"
      → (o.media_profile ≡ "SRTP") ⊎ ((policy.allow_fallback ≡ true) × (o.media_profile ≡ "RTP"))
  pub dtls_media :
      policy.profile ≡ "dtls-srtp"
      → (o.media_profile ≡ "DTLS-SRTP")
        ⊎ ((policy.allow_fallback ≡ true) × (o.media_profile ≡ "RTP"))
  pub authentic :
      (o.media_profile ≡ "SRTP") ⊎ (o.media_profile ≡ "DTLS-SRTP") → o.authentication_valid ≡ true
  pub protected : policy.require_replay ≡ true → o.media_profile ≢ "RTP"
  pub no_replay : policy.require_replay ≡ true → o.replay_accepted ≡ false
  pub unexposed : o.key_material_exposed ≡ false

abbrev severities : List Finding → List String
severities = map (λ (f : Finding). f.severity)

-- A test that adds a finding holds the verdict at `fail`.
verdict-fail_if :
    (b : Bool) (code : String) (fs : List Finding)
    → (verdict (severities (fail_if b code ++ fs)) ≡ "pass")
      ↔ ((b ≡ false) × (verdict (severities fs) ≡ "pass"))
unfolding verdict fail_if
verdict-fail_if true code fs = (λ h. ground (arith, eq_iff "fail" "pass"), λ h. cc h.0)
verdict-fail_if false code fs = (λ h. (refl, h), λ h. h.1)

verdict-fail_if_last :
    (b : Bool) (code : String) → (verdict (severities (fail_if b code)) ≡ "pass") ↔ (b ≡ false)
unfolding verdict fail_if
verdict-fail_if_last true code = (λ h. ground (arith, eq_iff "fail" "pass"), λ h. cc h)
verdict-fail_if_last false code = (λ h. refl, λ h. refl)

module _ (policy : Policy) (o : Observation) where
  -- No test of the code adds a finding.
  record Passes : Type 0 where
    certificate : not o.certificate_valid ≡ false
    hostname : not o.hostname_valid ≡ false
    version : ltb (tls_rank o.tls_version) (tls_rank policy.minimum_tls) ≡ false
    client : (policy.require_mtls && not o.mutual_tls) ≡ false
    media :
        (wrong_media policy.profile o.media_profile
          && not (policy.allow_fallback && str_eq o.media_profile "RTP"))
        ≡ false
    authentic :
        (contains ("SRTP" ∷ "DTLS-SRTP" ∷ []) o.media_profile && not o.authentication_valid) ≡ false
    protected : (policy.require_replay && str_eq o.media_profile "RTP") ≡ false
    no_replay : (policy.require_replay && o.replay_accepted) ≡ false
    unexposed : o.key_material_exposed ≡ false

  Passes-of_verdict : verdict (severities (findings policy o)) ≡ "pass" → Passes
  unfolding findings
  Passes-of_verdict h0 =
      let (certificate, h1) =
        (verdict-fail_if (not o.certificate_valid) "certificate_invalid" _).0 h0 in
      let (hostname, h2) =
        (verdict-fail_if (not o.hostname_valid) "hostname_or_sni_invalid" _).0 h1 in
      let (version, h3) =
        (verdict-fail_if (ltb (tls_rank o.tls_version) (tls_rank policy.minimum_tls))
            "tls_version_downgrade" _).0
          h2 in
      let (client, h4) =
        (verdict-fail_if (policy.require_mtls && not o.mutual_tls) "mutual_tls_missing" _).0 h3 in
      let (media, h5) =
        (verdict-fail_if
            (wrong_media policy.profile o.media_profile
              && not (policy.allow_fallback && str_eq o.media_profile "RTP"))
            "media_profile_downgrade" _).0
          h4 in
      let (authentic, h6) =
        (verdict-fail_if
            (contains ("SRTP" ∷ "DTLS-SRTP" ∷ []) o.media_profile && not o.authentication_valid)
            "media_authentication_failed" _).0
          h5 in
      let (protected, h7) =
        (verdict-fail_if (policy.require_replay && str_eq o.media_profile "RTP")
            "replay_protection_unavailable" _).0
          h6 in
      let (no_replay, h8) =
        (verdict-fail_if (policy.require_replay && o.replay_accepted) "replay_accepted" _).0 h7 in
      record {
        certificate = certificate;
        hostname = hostname;
        version = version;
        client = client;
        media = media;
        authentic = authentic;
        protected = protected;
        no_replay = no_replay;
        unexposed = (verdict-fail_if_last o.key_material_exposed "key_material_exposed").0 h8;
      }

  verdict-of_Passes : Passes → verdict (severities (findings policy o)) ≡ "pass"
  unfolding findings fail_if verdict
  verdict-of_Passes p = ground arith

  Secure-iff : contains profiles policy.profile ≡ true → Passes ↔ Secure policy o
  Secure-iff known = (
    λ p. ground (
      arith,
      eq_iff "SRTP" o.media_profile,
      eq_iff o.media_profile "SRTP",
      eq_iff "DTLS-SRTP" o.media_profile,
      eq_iff o.media_profile "DTLS-SRTP",
      eq_iff o.media_profile "RTP",
      eq_iff policy.profile "srtp",
      eq_iff policy.profile "dtls-srtp",
      eq_iff policy.profile "sip-tls",
      eq_iff "srtp" "sip-tls",
      eq_iff "srtp" "dtls-srtp",
      eq_iff "dtls-srtp" "sip-tls",
    ),
    λ s. ground (
      arith,
      eq_iff "SRTP" o.media_profile,
      eq_iff o.media_profile "SRTP",
      eq_iff "DTLS-SRTP" o.media_profile,
      eq_iff o.media_profile "DTLS-SRTP",
      eq_iff o.media_profile "RTP",
      eq_iff "srtp" policy.profile,
      eq_iff policy.profile "srtp",
      eq_iff "dtls-srtp" policy.profile,
      eq_iff "sip-tls" policy.profile,
      eq_iff policy.profile "sip-tls",
    ),
  )

read_policy-profile :
    (value : Value) {policy : Policy}
    → read_policy value ≡ ok policy
    → contains profiles policy.profile ≡ true
unfolding read_policy
read_policy-profile value h =
    let (fs, p1, h1) = >>=-eq-ok (require_mapping value) _ h in
    let (u, p2, h2) = >>=-eq-ok (exact_keys fs _ _) _ h1 in
    let (v, p3, h3) = >>=-eq-ok (get_item fs "profile") _ h2 in
    let (profile, p4, h4) = >>=-eq-ok (member v profiles _) _ h3 in
    let (v5, p5, h5) = >>=-eq-ok (get_item fs "requireMutualTls") _ h4 in
    let (b6, p6, h6) = >>=-eq-ok (boolean v5) _ h5 in
    let (v7, p7, h7) = >>=-eq-ok (get_item fs "allowRtpFallback") _ h6 in
    let (b8, p8, h8) = >>=-eq-ok (boolean v7) _ h7 in
    let (v9, p9, h9) = >>=-eq-ok (get_item fs "requireReplayProtection") _ h8 in
    let (b10, p10, h10) = >>=-eq-ok (boolean v9) _ h9 in
    let (v11, p11, h11) = >>=-eq-ok (get_item fs "minimumTlsVersion") _ h10 in
    let (m, p12, h12) = >>=-eq-ok (nonempty_string v11 _) _ h11 in
    let (p13, h13) = guard-bind _ _ _ h12 in
    subst (λ (q : Policy). contains profiles q.profile ≡ true) (ok-injective h13)
      (member-ok v profiles _ p4)

-- For a policy and an observation that are read, a report passes exactly when: the certificate and
-- the host name are valid; the TLS version is no lower than the policy's minimum; the client has a
-- certificate where the policy requires one; the media profile is the policy's, or plain RTP where
-- the policy allows the fallback; secured media are authenticated; no key material is exposed; and,
-- where the policy requires replay protection, the media are not plain RTP and no replay is
-- accepted. An accepted replay that the policy does not forbid passes.
pub analyze_secure_media_pass :
    (policy_value observation_value : Value) (policy : Policy) (o : Observation) {r : Report}
    → read_policy policy_value ≡ ok policy
    → read_observation observation_value ≡ ok o
    → analyze_secure_media policy_value observation_value ≡ ok r
    → (r.status ≡ "pass") ↔ Secure policy o
unfolding analyze_secure_media report
analyze_secure_media_pass policy_value observation_value policy o {r} p q e =
    let same : report policy o ≡ r = ok-injective (sym (bind_ok _ p ∙ bind_ok _ q) ∙ e) in
    let secure = Secure-iff policy o (read_policy-profile policy_value p) in
    rw (← same) (
      λ pass. secure.0 (Passes-of_verdict policy o pass),
      λ s. verdict-of_Passes policy o (secure.1 s),
    )
