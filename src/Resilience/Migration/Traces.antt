-- ===== src/Resilience/Migration/Traces.antt =====
-- lib/sippycup_resilience/migration.py, a whole run: what a report says of the packets.
use mathlib.Core.Path.{subst}
use mathlib.Core.List.{append-nil, append_assoc}
use sippycup.Prelude.{
  ℕ, zero, suc, ◌+◌, String, true, List, [], ◌∷◌, ◌++◌, Option, some, Result, ok, >>=-eq-ok,
  map_result, ◌≡◌, ◌≢◌, ◌↔◌, inl, inr, refl, sym, ap, ◌∙◌, ok-injective, arith, length, length-snoc,
  get_elem?, All, All-append, All-map,
}
use sippycup.Json.{Value}
use sippycup.Resilience.Migration.{
  IpAddress, Endpoint, Policy, Packet, Run, Report, Move, judge, start, report, read_packet,
  run_packets, analyze_migration, read_policy, read_packets,
}
use sippycup.Resilience.Migration.Invariant.{
  Admits, judge_accepts, judge_cases, judge_moves, failing, failing-judge, verdict-failing,
}

-- The moves lead from one tuple to another, each from where the one before ended.
abbrev pub Chain : Endpoint → List Move → Endpoint → Type 0
Chain a [] b = a ≡ b
Chain a (m ∷ ms) b = (m.moved_from ≡ a) × Chain m.moved_to ms b

Chain-snoc :
    (a b : Endpoint) (ms : List Move) (m : Move)
    → Chain a ms b
    → m.moved_from ≡ b
    → Chain a (ms ++ m ∷ []) m.moved_to
Chain-snoc a b [] m h e = (cc, refl)
Chain-snoc a b (n ∷ ns) m h e = (h.0, Chain-snoc n.moved_to b ns m h.1 e)

-- A move is made by the packet that it names: a packet from a new tuple, which the rule admits.
abbrev pub Justified : Policy → List Packet → Move → Type 0
Justified policy packets m =
    (p : Packet) × (get_elem? packets m.packet ≡ some p)
    × (p.source ≡ m.moved_to)
    × (m.moved_to ≢ m.moved_from)
    × Admits policy m.moved_from p

get_elem?-append {ℓ} :
    {A : Type ℓ} (xs ys : List A) (i : ℕ) {a : A}
    → get_elem? xs i ≡ some a
    → get_elem? (xs ++ ys) i ≡ some a
get_elem?-append [] ys i h = cc
get_elem?-append (x ∷ xs) ys zero h = h
get_elem?-append (x ∷ xs) ys (suc i) h = get_elem?-append xs ys i h

get_elem?-snoc {ℓ} :
    {A : Type ℓ} (xs : List A) (a : A) → get_elem? (xs ++ a ∷ []) (length xs) ≡ some a
get_elem?-snoc [] a = refl
get_elem?-snoc (x ∷ xs) a = get_elem?-snoc xs a

-- What holds of the loop's variables once the packets `seen` are judged.
record Inv (policy : Policy) (seen : List Packet) (run : Run) : Type 0 where
  counted : run.accepted + length run.findings ≡ length seen
  chained : Chain policy.initial run.migrations run.active
  justified : All (Justified policy seen) run.migrations
  severe : failing run.findings ≡ true

module _ (policy : Policy) (seen : List Packet) (packet : Packet) (run : Run)
    (h : Inv policy seen run) where
  judge-counted :
      (judge policy (length seen) packet run).accepted
        + length (judge policy (length seen) packet run).findings
      ≡ length (seen ++ packet ∷ [])
  judge-counted =
      ground
        (arith, judge_cases policy (length seen) packet run, length-snoc seen packet, h.counted)

  judge-chained :
      Chain policy.initial
        (judge policy (length seen) packet run).migrations
        (judge policy (length seen) packet run).active
  judge-chained = elim (judge_moves policy (length seen) packet run) [
    | inl k ↦ rw (k.0, k.1) h.chained
    | inr k ↦ rw (k.0, k.1) (Chain-snoc _ _ run.migrations _ h.chained refl)
  ]

  judge-Justified :
      All
        (Justified policy (seen ++ packet ∷ []))
        (judge policy (length seen) packet run).migrations
  judge-Justified = elim (judge_moves policy (length seen) packet run) [
    | inl k ↦ rw k.0 older
    | inr k ↦ rw k.0 (
        All-append _ run.migrations _ older (
          (
            packet,
            get_elem?-snoc seen packet,
            refl,
            k.2,
            (judge_accepts policy (length seen) packet run).0 k.3,
          ),
          tt,
        ))
  ]
    where
      older : All (Justified policy (seen ++ packet ∷ [])) run.migrations
      older =
          All-map _ _ run.migrations
            (λ m j. (j.0, get_elem?-append seen (packet ∷ []) m.packet j.1, j.2, j.3, j.4))
            h.justified

  judge-Inv : Inv policy (seen ++ packet ∷ []) (judge policy (length seen) packet run)
  judge-Inv = record {
    counted = judge-counted;
    chained = judge-chained;
    justified = judge-Justified;
    severe = rw failing-judge h.severe;
  }

start-Inv : (policy : Policy) → Inv policy [] (start policy)
unfolding failing
start-Inv policy = record { counted = refl; chained = refl; justified = tt; severe = refl }

module _ (parse_ip : String → Option IpAddress) (policy : Policy) where
  run_packets-Inv :
      (seen : List Packet) (raws : List Value) (run run' : Run)
      → Inv policy seen run
      → run_packets parse_ip policy (length seen) raws run ≡ ok run'
      → (packets : List Packet) × (map_result (read_packet parse_ip) raws ≡ ok packets)
        × Inv policy (seen ++ packets) run'
  unfolding run_packets map_result
  run_packets-Inv seen [] run run' h e =
      ([], refl, rw append-nil (subst (Inv policy seen) (ok-injective e) h))
  run_packets-Inv seen (raw ∷ raws) run run' h e =
      let (packet, p, q) = >>=-eq-ok (read_packet parse_ip raw) _ e in
      let (packets, r, v) =
        run_packets-Inv (seen ++ packet ∷ []) raws (judge policy (length seen) packet run) run'
          (judge-Inv policy seen packet run h) (rw length-snoc q) in
      (packet ∷ packets, rw (p, r), rw append_assoc at v)

-- What a report says of a policy and the packets that were read.
pub record Honest (policy : Policy) (packets : List Packet) (r : Report) : Type 0 where
  pub counted : r.accepted_packets + r.rejected_packets ≡ length packets
  pub explained : length r.findings ≡ r.rejected_packets
  pub passes : (r.status ≡ "pass") ↔ (r.rejected_packets ≡ 0)
  pub chained : Chain policy.initial r.migrations r.active_tuple
  pub justified : All (Justified policy packets) r.migrations

report-Honest :
    (policy : Policy) (packets : List Packet) (run : Run)
    → Inv policy packets run
    → Honest policy packets (report (length packets) run)
unfolding report
report-Honest policy packets run h = record {
  counted = omega (arith, h.counted);
  explained = omega (arith, h.counted);
  passes =
      let v = verdict-failing run.findings h.severe in
      (λ e. omega (arith, v.0 e, h.counted), λ e. v.1 (omega (arith, h.counted)));
  chained = h.chained;
  justified = h.justified;
}

length-map_result {ℓ κ υ} :
    {E : Type ℓ} {A : Type κ} {B : Type υ} (f : A → Result E B) (xs : List A) {ys : List B}
    → map_result f xs ≡ ok ys
    → length ys ≡ length xs
unfolding map_result
length-map_result f [] h = ap length (sym (ok-injective h))
length-map_result f (x ∷ xs) h =
    let (y, p, q) = >>=-eq-ok (f x) _ h in
    let (zs, r, s) = >>=-eq-ok (map_result f xs) _ q in
    ap length (sym (ok-injective s)) ∙ ap suc (length-map_result f xs r)

-- A report is returned only for a policy and packets that the validators accept, and then it
-- counts every packet once, has a finding for each rejected one, passes exactly when none is
-- rejected, and lists a chain of moves from the initial tuple to the active one, each made by a
-- packet that the rule admits.
pub analyze_migration-Honest :
    (parse_ip : String → Option IpAddress) (policy_value packets_value : Value) {r : Report}
    → analyze_migration parse_ip policy_value packets_value ≡ ok r
    → (policy : Policy) × (raws : List Value) × (packets : List Packet) × (read_policy parse_ip
          policy_value
        ≡ ok policy)
      × (read_packets parse_ip packets_value ≡ ok raws)
      × (map_result (read_packet parse_ip) raws ≡ ok packets)
      × Honest policy packets r
unfolding analyze_migration
analyze_migration-Honest parse_ip policy_value packets_value e =
    let (policy, p, e1) = >>=-eq-ok (read_policy parse_ip policy_value) _ e in
    let (raws, q, e2) = >>=-eq-ok (read_packets parse_ip packets_value) _ e1 in
    let (run, s, e3) = >>=-eq-ok (run_packets parse_ip policy 0 raws (start policy)) _ e2 in
    let (packets, t, v) =
      run_packets-Inv parse_ip policy [] raws (start policy) run (start-Inv policy) s in
    (
      policy,
      raws,
      packets,
      p,
      q,
      t,
      subst (Honest policy packets)
          (ap (λ n. report n run) (length-map_result (read_packet parse_ip) raws t)
            ∙ ok-injective e3)
          (report-Honest policy packets run v),
    )

strict_moves :
    (policy : Policy) (packets : List Packet) (a b : Endpoint) (ms : List Move)
    → policy.mode ≡ "strict"
    → Chain a ms b
    → All (Justified policy packets) ms
    → (ms ≡ []) × (b ≡ a)
strict_moves policy packets a b [] strict c j = (refl, sym c)
strict_moves policy packets a b (m ∷ ms) strict c (j, js) = elim j.4.permitted [
  | inl same ↦ absurd (j.3 (sym j.2 ∙ same))
  | inr moves ↦ absurd (moves.0 strict)
]

-- Under a strict policy a report lists no move, and media stays on the initial tuple.
pub strict_never_moves :
    (parse_ip : String → Option IpAddress) (policy_value packets_value : Value) (policy : Policy)
    {r : Report}
    → read_policy parse_ip policy_value ≡ ok policy
    → policy.mode ≡ "strict"
    → analyze_migration parse_ip policy_value packets_value ≡ ok r
    → (r.migrations ≡ []) × (r.active_tuple ≡ policy.initial)
strict_never_moves parse_ip policy_value packets_value policy {r} p strict e =
    let (policy', raws, packets, p', q, t, h) =
      analyze_migration-Honest parse_ip policy_value packets_value e in
    let same = ok-injective (sym p ∙ p') in
    rw same (
      strict_moves policy' packets policy'.initial r.active_tuple r.migrations
        (ap (λ (x : Policy). x.mode) (sym same) ∙ strict) h.chained h.justified)
