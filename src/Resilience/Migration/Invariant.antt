-- ===== src/Resilience/Migration/Invariant.antt =====
-- lib/sippycup_resilience/migration.py, one packet: which packets the loop accepts, and what it
-- leaves alone when it rejects one.
use sippycup.Prelude.{
  ℕ, ◌+◌, String, true, false, ◌≡◌, ◌≢◌, ◌↔◌, ◌⊎◌, List, [], ◌∷◌, ◌++◌, refl, arith, eq_iff, Option,
  Bool, all, map, ap, str_eq, ◌&&◌, length, length-snoc,
}
use sippycup.Resilience.Common.{verdict}
use sippycup.Resilience.Migration.{Finding, Endpoint, Policy, Packet, Run, judge}

-- The rule for a packet, with no order of tests: it comes before the teardown, is authenticated
-- where the policy asks for it, has the call's SSRC, comes from the active tuple or may move it,
-- and under ICE has fresh consent.
pub record Admits (policy : Policy) (active : Endpoint) (packet : Packet) : Type 0 where
  pub live : packet.after_teardown ≡ false
  pub authentic : policy.require_authentication ≡ true → packet.authenticated ≡ true
  pub right_ssrc : packet.ssrc ≡ policy.ssrc
  pub permitted :
      (packet.source ≡ active)
      ⊎ ((policy.mode ≢ "strict") × (policy.allow_rebinding ≡ true) × (packet.authenticated ≡ true))
  pub consented : policy.mode ≡ "ice" → packet.consent ≡ true

module _ (policy : Policy) (index : ℕ) (packet : Packet) (run : Run) where
  -- The loop counts a packet as accepted exactly when the rule admits it.
  pub judge_accepts :
      ((judge policy index packet run).accepted ≡ run.accepted + 1)
      ↔ Admits policy run.active packet
  unfolding judge
  judge_accepts = (
    λ h. ground (
      arith,
      eq_iff policy.mode "strict",
      eq_iff policy.mode "ice",
      eq_iff packet.source.address run.active.address,
    ),
    λ h. ground (
      arith,
      eq_iff policy.mode "strict",
      eq_iff policy.mode "ice",
      eq_iff packet.source.address run.active.address,
    ),
  )

  -- One round either accepts the packet, with no finding, or rejects it, with one finding.
  pub judge_cases :
      (((judge policy index packet run).accepted ≡ run.accepted + 1)
        × ((judge policy index packet run).findings ≡ run.findings)
        × ((judge policy index packet run).active ≡ packet.source))
      ⊎ (((judge policy index packet run).accepted ≡ run.accepted)
          × (length (judge policy index packet run).findings ≡ length run.findings + 1)
          × ((judge policy index packet run).active ≡ run.active)
          × ((judge policy index packet run).migrations ≡ run.migrations))
  unfolding judge
  judge_cases = grind (arith, eq_iff packet.source.address run.active.address, length-snoc)

  -- One round keeps the active tuple and the moves, or records the one move to the packet's tuple.
  pub judge_moves :
      (((judge policy index packet run).migrations ≡ run.migrations)
        × ((judge policy index packet run).active ≡ run.active))
      ⊎ (((judge policy index packet run).migrations
            ≡ run.migrations
              ++ record { packet = index; moved_from = run.active; moved_to = packet.source } ∷ [])
          × ((judge policy index packet run).active ≡ packet.source)
          × (packet.source ≢ run.active)
          × ((judge policy index packet run).accepted ≡ run.accepted + 1))
  unfolding judge
  judge_moves = ground (arith, eq_iff packet.source.address run.active.address)

-- Every finding has severity `fail`.
unfoldable pub failing : List Finding → Bool
failing = all (λ (f : Finding). str_eq f.severity "fail")

failing-snoc :
    (fs : List Finding) (code : String) (i : ℕ) (source : Option Endpoint)
    → failing (fs ++ record { severity = "fail"; code = code; packet = i; source = source } ∷ [])
      ≡ failing fs
unfolding failing
failing-snoc [] code i source = refl
failing-snoc (f ∷ fs) code i source =
    ap (λ b. str_eq f.severity "fail" && b) (failing-snoc fs code i source)

pub failing-judge :
    (policy : Policy) (index : ℕ) (packet : Packet) (run : Run)
    → failing (judge policy index packet run).findings ≡ failing run.findings
unfolding judge
failing-judge policy index packet run = grind (arith, failing-snoc)

pub verdict-failing :
    (findings : List Finding)
    → failing findings ≡ true
    → (verdict (map (λ (f : Finding). f.severity) findings) ≡ "pass") ↔ (length findings ≡ 0)
unfolding verdict failing
verdict-failing [] h = (λ _. refl, λ _. refl)
verdict-failing (f ∷ fs) h = (λ e. ground (arith, eq_iff "fail" "pass"), λ e. absurd (omega arith))
