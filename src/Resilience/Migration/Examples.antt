-- ===== src/Resilience/Migration/Examples.antt =====
-- lib/sippycup_resilience/migration.py on a call whose media moves to another address.
use sippycup.Prelude.{
  ◌>>=◌, ℕ, ◌+◌, String, true, false, List, [], Option, some, ok, map_result, ◌≡◌, ◌↔◌, refl,
}
use sippycup.Json.{
  pos, Value, int, str, bool, arr, obj, nil, cons, end, field, has_key, keys, lookup,
}
use sippycup.Resilience.Common.{
  require_mapping, exact_keys, get_item, member, nonempty_string, bounded_int, boolean,
  require_list, verdict,
}
use sippycup.Resilience.Migration.{
  default_policy, IpAddress, Policy, Packet, Report, judge, start, analyze_migration, read_policy,
  read_packets, read_packet, read_tuple, parse_literal, run_packets, report,
}
use sippycup.Resilience.Migration.Invariant.{Admits, judge_accepts}
use sippycup.Resilience.Migration.Traces.{Honest, analyze_migration-Honest, strict_never_moves}

-- Every address is a literal unicast address.
abbrev parse_ip : String → Option IpAddress
parse_ip s = some (record { text = s; is_multicast = false; is_unspecified = false })

abbrev tuple : String → ℕ → Value
tuple a p = obj (field "address" (str a) (field "port" (int (pos p)) end))

abbrev policy_document : String → Value
policy_document mode = obj (
    field "mode" (str mode) (
      field "initialTuple" (tuple "192.0.2.10" 20000) (
        field "ssrc" (int (pos 7)) (
          field "allowAuthenticatedRebinding" (bool true)
            (field "requireAuthentication" (bool true) end)))))

abbrev packet_document : String → Value
packet_document a = obj (
    field "source" (tuple a 20000) (
      field "ssrc" (int (pos 7)) (
        field "authenticated" (bool true)
          (field "consentFresh" (bool true) (field "afterTeardown" (bool false) end)))))

abbrev packet_documents : Value
packet_documents =
    arr (cons (packet_document "192.0.2.10") (cons (packet_document "192.0.2.99") nil))

migrated :
    (r : Report) × (analyze_migration parse_ip (policy_document "symmetric-rtp") packet_documents
      ≡ ok r)
unfolding analyze_migration read_policy require_mapping exact_keys has_key keys get_item lookup
    member read_tuple nonempty_string parse_literal bounded_int boolean read_packets require_list
    run_packets read_packet verdict judge report
migrated = (_, refl)

pinned :
    (r : Report) × (analyze_migration parse_ip (policy_document "strict") packet_documents ≡ ok r)
unfolding analyze_migration read_policy require_mapping exact_keys has_key keys get_item lookup
    member read_tuple nonempty_string parse_literal bounded_int boolean read_packets require_list
    run_packets read_packet verdict judge report
pinned = (_, refl)

analyze_migration-Honest_example :
    (policy : Policy) × (raws : List Value) × (packets : List Packet) × (read_policy parse_ip
        (policy_document "symmetric-rtp")
      ≡ ok policy)
    × (read_packets parse_ip packet_documents ≡ ok raws)
    × (map_result (read_packet parse_ip) raws ≡ ok packets)
    × Honest policy packets migrated.0
analyze_migration-Honest_example =
    analyze_migration-Honest parse_ip (policy_document "symmetric-rtp") packet_documents migrated.1

abbrev strict_policy : Policy
strict_policy = record {
  mode = "strict";
  initial = record { address = "192.0.2.10"; port = 20000 };
  ssrc = 7;
  allow_rebinding = true;
  require_authentication = true;
}

strict_never_moves_example :
    (pinned.0.migrations ≡ []) × (pinned.0.active_tuple ≡ strict_policy.initial)
unfolding read_policy require_mapping exact_keys has_key keys get_item lookup member read_tuple
    nonempty_string parse_literal bounded_int boolean
strict_never_moves_example =
    strict_never_moves parse_ip (policy_document "strict") packet_documents strict_policy refl refl
      pinned.1

abbrev moved : Packet
moved = record {
  source = record { address = "192.0.2.99"; port = 20000 };
  ssrc = 7;
  authenticated = true;
  consent = true;
  after_teardown = false;
}

judge_accepts_example :
    ((judge strict_policy 0 moved (start strict_policy)).accepted ≡ 0 + 1)
    ↔ Admits strict_policy strict_policy.initial moved
judge_accepts_example = judge_accepts strict_policy 0 moved (start strict_policy)

-- The default policies are read.
defaults :
    (p : Policy) × (q : Policy) × ((default_policy "strict" >>= read_policy parse_ip) ≡ ok p)
    × ((default_policy "ice" >>= read_policy parse_ip) ≡ ok q)
unfolding default_policy read_policy read_tuple parse_literal require_mapping exact_keys get_item
    member nonempty_string bounded_int boolean has_key keys lookup
defaults = (_, _, refl, refl)
