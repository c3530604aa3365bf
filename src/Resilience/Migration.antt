-- ===== src/Resilience/Migration.antt =====
-- lib/sippycup_resilience/migration.py: the oracle of RTP tuple migration. A report is computed
-- from a policy and a list of packets; `active` is the tuple that media is accepted from.
-- `ipaddress.ip_address` is the parameter `parse_ip`.
pub mod Invariant
pub mod Traces
mod Examples
use sippycup.Prelude.{
  ℕ, ◌+◌, ◌-◌, String, Bool, true, false, not, ◌&&◌, ◌||◌, List, [], ◌∷◌, ◌++◌, map, Option, none,
  some, Result, ok, err, ◌>>=◌, ◌>>◌, guard, str_eq, ltb, ◌==◌, length, if◌then◌else◌,
}
use sippycup.Json.{Value, obj, field, end, str, int, pos, bool}
use sippycup.Resilience.Common.{
  Error, invalid, contains, require_mapping, exact_keys, bounded_int, nonempty_string, boolean,
  get_item, member, require_list, verdict,
}

-- What `ipaddress.ip_address` tells of a literal address; `text` is `str(parsed)`.
pub record IpAddress : Type 0 where
  pub text : String
  pub is_multicast : Bool
  pub is_unspecified : Bool

pub record Endpoint : Type 0 where
  pub address : String
  pub port : ℕ

-- The equality of two `(address, port)` tuples.
abbrev pub same_endpoint : Endpoint → Endpoint → Bool
same_endpoint a b = str_eq a.address b.address && a.port == b.port

pub record Policy : Type 0 where
  pub mode : String
  pub initial : Endpoint
  pub ssrc : ℕ
  pub allow_rebinding : Bool
  pub require_authentication : Bool

pub record Packet : Type 0 where
  pub source : Endpoint
  pub ssrc : ℕ
  pub authenticated : Bool
  pub consent : Bool
  pub after_teardown : Bool

pub record Finding : Type 0 where
  pub severity : String
  pub code : String
  pub packet : ℕ
  pub source : Option Endpoint

pub record Move : Type 0 where
  pub packet : ℕ
  pub moved_from : Endpoint
  pub moved_to : Endpoint

-- The variables of the loop.
pub record Run : Type 0 where
  pub active : Endpoint
  pub findings : List Finding
  pub accepted : ℕ
  pub migrations : List Move

pub record Report : Type 0 where
  pub status : String
  pub accepted_packets : ℕ
  pub rejected_packets : ℕ
  pub migrations : List Move
  pub active_tuple : Endpoint
  pub findings : List Finding

abbrev pub modes : List String
modes = "strict" ∷ "symmetric-rtp" ∷ "ice" ∷ []

abbrev pub max_packets : ℕ
max_packets = 1_000_000

abbrev pub start : Policy → Run
start policy = record { active = policy.initial; findings = []; accepted = 0; migrations = [] }

abbrev fail : String → ℕ → Option Endpoint → Run → Run
fail code index source run = record run {
  findings =
      run.findings
      ++ record { severity = "fail"; code = code; packet = index; source = source } ∷ [];
}

abbrev can_move : Policy → Packet → Bool
can_move policy packet =
    not (str_eq policy.mode "strict")
    && policy.allow_rebinding
    && packet.authenticated
    && (not (str_eq policy.mode "ice") || packet.consent)

-- One round of the loop, after the packet is read.
unfoldable pub judge : Policy → ℕ → Packet → Run → Run
judge policy index packet run =
    if packet.after_teardown
    then fail "packet_after_teardown" index none run
    else if policy.require_authentication && not packet.authenticated
    then fail "packet_authentication_failed" index none run
    else if not (packet.ssrc == policy.ssrc)
    then fail "ssrc_collision" index none run
    else if same_endpoint packet.source run.active
    then (if str_eq policy.mode "ice" && not packet.consent
        then fail "ice_consent_expired" index none run
        else record run { accepted = run.accepted + 1 })
    else if not (can_move policy packet)
    then fail "unauthorized_tuple" index (some packet.source) run
    else record run {
      migrations =
          run.migrations
          ++ record { packet = index; moved_from = run.active; moved_to = packet.source } ∷ [];
      active = packet.source;
      accepted = run.accepted + 1;
    }

unfoldable pub report : ℕ → Run → Report
report packets run = record {
  status = verdict (map (λ (f : Finding). f.severity) run.findings);
  accepted_packets = run.accepted;
  rejected_packets = packets - run.accepted;
  migrations = run.migrations;
  active_tuple = run.active;
  findings = run.findings;
}

module _ (parse_ip : String → Option IpAddress) where
  parse_literal : String → Result Error IpAddress
  parse_literal address = elim (parse_ip address) [
    | none ↦ err (invalid "IP literal")
    | some parsed ↦ ok parsed
  ]

  -- `_tuple`.
  pub read_tuple : Value → Result Error Endpoint
  read_tuple value = do
    item ← require_mapping value
    exact_keys item ("address" ∷ "port" ∷ []) []
    address ← nonempty_string (← get_item item "address") 64
    parsed ← parse_literal address
    guard (not (parsed.is_multicast || parsed.is_unspecified)) (invalid "specific unicast")
    port ← bounded_int (← get_item item "port") 1024 65535
    ok (record { address = parsed.text; port = port })

  pub read_policy : Value → Result Error Policy
  read_policy value = do
    policy ← require_mapping value
    exact_keys policy
        ("mode" ∷ "initialTuple" ∷ "ssrc" ∷ "allowAuthenticatedRebinding" ∷ "requireAuthentication"
          ∷ [])
        []
    mode ← member (← get_item policy "mode") modes (invalid "mode")
    initial ← read_tuple (← get_item policy "initialTuple")
    ssrc ← bounded_int (← get_item policy "ssrc") 1 0xFFFFFFFF
    allow ← boolean (← get_item policy "allowAuthenticatedRebinding")
    require ← boolean (← get_item policy "requireAuthentication")
    ok (record {
      mode = mode;
      initial = initial;
      ssrc = ssrc;
      allow_rebinding = allow;
      require_authentication = require;
    })

  pub read_packet : Value → Result Error Packet
  read_packet value = do
    packet ← require_mapping value
    exact_keys packet ("source" ∷ "ssrc" ∷ "authenticated" ∷ "consentFresh" ∷ "afterTeardown" ∷ [])
        []
    source ← read_tuple (← get_item packet "source")
    ssrc ← bounded_int (← get_item packet "ssrc") 1 0xFFFFFFFF
    authenticated ← boolean (← get_item packet "authenticated")
    consent ← boolean (← get_item packet "consentFresh")
    after_teardown ← boolean (← get_item packet "afterTeardown")
    ok (record {
      source = source;
      ssrc = ssrc;
      authenticated = authenticated;
      consent = consent;
      after_teardown = after_teardown;
    })

  -- The loop over the packets, from the one at `index`.
  pub run_packets : Policy → ℕ → List Value → Run → Result Error Run
  run_packets policy index [] run = ok run
  run_packets policy index (raw ∷ rest) run = do
    packet ← read_packet raw
    run_packets policy (index + 1) rest (judge policy index packet run)

  pub read_packets : Value → Result Error (List Value)
  read_packets value = do
    packets ← require_list value
    guard (not (length packets == 0)) (invalid "packets must be a non-empty array")
    guard (not (ltb max_packets (length packets))) (invalid "packets exceed the maximum")
    ok packets

  pub analyze_migration : Value → Value → Result Error Report
  analyze_migration policy_value packets_value = do
    policy ← read_policy policy_value
    packets ← read_packets packets_value
    run ← run_packets policy 0 packets (start policy)
    ok (report (length packets) run)

-- `default_policy`.
unfoldable pub default_policy : String → Result Error Value
default_policy mode = do
  guard (contains modes mode) (invalid "mode")
  ok (
      obj (
        field "mode" (str mode) (
          field "initialTuple"
            (obj (field "address" (str "192.0.2.10") (field "port" (int (pos 20000)) end)))
            (field "ssrc" (int (pos 1372326417)) (
              field "allowAuthenticatedRebinding" (bool (not (str_eq mode "strict")))
                (field "requireAuthentication" (bool true) end))))))
