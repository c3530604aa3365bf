-- ===== src/Tui/Event/Bounds.antt =====
-- lib/sippycup_tui/state.py, `decode_event`: which objects it accepts, and as what.
use Prim.Native.String.{count}
use mathlib.Core.Path.{subst}
use sippycup.Prelude.{
  ℕ, ◌≤◌, String, Bool, true, false, List, [], ◌∷◌, Option, none, some, ok, ◌≡◌, ◌≢◌, ◌⊎◌, ◌↔◌,
  refl, arith, str_eq, eq_iff, leb, leb→le, any, all, All, bind-elim, guard, ok-injective, inl, inr,
}
use sippycup.Json.{Value, str, int, obj, pos, Fields, end, keys, lookup}
use sippycup.Tui.Event.{
  EventError, Event, Raw, event_schema, invalid_source, invalid_kind, unknown_fields,
  unsupported_schema, payload_too_large, raw_fields, is_text, read_sequence, read_label,
  read_payload, decode_event,
}

-- The names of the fields of an event.
abbrev pub IsFieldName : String → Type 0
IsFieldName key =
    (key ≡ "schema") ⊎ (key ≡ "sequence") ⊎ (key ≡ "source") ⊎ (key ≡ "kind") ⊎ (key ≡ "payload")

-- A field that is a non-empty text of at most `maximum` characters.
abbrev pub IsLabel : Option Value → ℕ → String → Type 0
IsLabel v maximum s = (v ≡ some (str s)) × (s ≢ "") × (count s ≤ maximum)

read_label-IsLabel :
    (v : Option Value) (maximum : ℕ) (e : EventError) {s : String}
    → read_label v maximum e ≡ ok s
    → IsLabel v maximum s
unfolding read_label
read_label-IsLabel (some (str t)) maximum e h = ground (arith, eq_iff t "")
read_label-IsLabel _ maximum e h = cc

read_label-of_IsLabel :
    (v : Option Value) (maximum : ℕ) (e : EventError) (s : String)
    → IsLabel v maximum s
    → read_label v maximum e ≡ ok s
unfolding read_label
read_label-of_IsLabel v maximum e s (given, filled, short) =
    rw (given, read_label) (ground (arith, eq_iff s ""))

read_sequence-int : (v : Option Value) {n : ℕ} → read_sequence v ≡ ok n → v ≡ some (int (pos n))
unfolding read_sequence
read_sequence-int (some (int (pos m))) h = cc
read_sequence-int _ h = cc

is_text-str : (v : Option Value) (s : String) → is_text v s ≡ true → v ≡ some (str s)
unfolding is_text
is_text-str (some (str t)) s h = ground (arith, eq_iff t s)
is_text-str _ s h = cc

-- The payload of an object: an object, or the empty one where the field is missing.
abbrev pub IsPayload : Option Value → Fields → Type 0
IsPayload v fs = ((v ≡ none) × (fs ≡ end)) ⊎ (v ≡ some (obj fs))

read_payload-IsPayload : (v : Option Value) {fs : Fields} → read_payload v ≡ ok fs → IsPayload v fs
unfolding read_payload
read_payload-IsPayload none h = inl (refl, cc)
read_payload-IsPayload (some (obj gs)) h = inr cc
read_payload-IsPayload _ h = cc

read_payload-of_IsPayload :
    (v : Option Value) (fs : Fields) → IsPayload v fs → read_payload v ≡ ok fs
unfolding read_payload
read_payload-of_IsPayload v fs (inl (missing, empty)) = rw (missing, empty) refl
read_payload-of_IsPayload v fs (inr given) = rw given refl

abbrev is_field_name : String → Bool
is_field_name key =
    any (λ k. str_eq k key) ("schema" ∷ "sequence" ∷ "source" ∷ "kind" ∷ "payload" ∷ [])

is_field_name_iff : (key : String) → (is_field_name key ≡ true) ↔ IsFieldName key
is_field_name_iff key = (
  λ h. ground (
    arith,
    eq_iff "schema" key,
    eq_iff "sequence" key,
    eq_iff "source" key,
    eq_iff "kind" key,
    eq_iff "payload" key,
  ),
  λ h. ground (
    arith,
    eq_iff "schema" key,
    eq_iff "sequence" key,
    eq_iff "source" key,
    eq_iff "kind" key,
    eq_iff "payload" key,
  ),
)

known_iff : (names : List String) → (all is_field_name names ≡ true) ↔ All IsFieldName names
known_iff [] = (λ h. tt, λ h. refl)
known_iff (k ∷ names) = (
  λ h. ((is_field_name_iff k).0 (ground arith), (known_iff names).0 (ground arith)),
  λ (a, rest). rw ((is_field_name_iff k).1 a, (known_iff names).1 rest) refl,
)

guard-true {ℓ} : {E : Type ℓ} (b : Bool) (e : E) {u : Unit {0}} → guard b e ≡ ok u → b ≡ true
guard-true true e h = refl
guard-true false e h = cc

module _ (parse : String → Option Value) (printed_size : Fields → ℕ) where
  -- The object describes the event.
  pub record Describes (value : Fields) (e : Event) : Type 0 where
    pub known : All IsFieldName (keys value)
    pub versioned : lookup "schema" value ≡ some (str event_schema)
    pub sequenced : lookup "sequence" value ≡ some (int (pos e.sequence))
    pub sourced : IsLabel (lookup "source" value) 64 e.source
    pub of_kind : IsLabel (lookup "kind" value) 96 e.kind
    pub carries : IsPayload (lookup "payload" value) e.payload
    pub small : printed_size e.payload ≤ 65536

  decode_event-Describes :
      (raw : Raw) (e : Event)
      → decode_event parse printed_size raw ≡ ok e
      → (value : Fields) × (raw_fields parse printed_size raw ≡ ok value) × Describes value e
  unfolding decode_event
  decode_event-Describes raw e h = bind-elim (raw_fields parse printed_size raw) _ h (λ value r h1.
      bind-elim (guard (all is_field_name (keys value)) unknown_fields) _ h1 (λ u1 known h2.
        bind-elim (guard (is_text (lookup "schema" value) event_schema) unsupported_schema) _ h2
          (λ u2 p2 h3. bind-elim (read_sequence (lookup "sequence" value)) _ h3 (λ sequence p3 h4.
            bind-elim (read_label (lookup "source" value) 64 invalid_source) _ h4 (λ source p4 h5.
              bind-elim (read_label (lookup "kind" value) 96 invalid_kind) _ h5 (λ kind p5 h6.
                bind-elim (read_payload (lookup "payload" value)) _ h6 (λ payload p6 h7.
                  bind-elim (guard (leb (printed_size payload) 65536) payload_too_large) _ h7
                    (λ u7 small h8. (
                      value,
                      r,
                      subst (Describes value) (ok-injective h8) (record {
                        known = (known_iff (keys value)).0 (guard-true _ _ known);
                        versioned = is_text-str _ event_schema (guard-true _ _ p2);
                        sequenced = read_sequence-int _ p3;
                        sourced = read_label-IsLabel _ 64 invalid_source p4;
                        of_kind = read_label-IsLabel _ 96 invalid_kind p5;
                        carries = read_payload-IsPayload _ p6;
                        small = leb→le _ _ (guard-true _ _ small);
                      }),
                    )))))))))

  decode_event-of_Describes :
      (raw : Raw) (e : Event) (value : Fields)
      → raw_fields parse printed_size raw ≡ ok value
      → Describes value e
      → decode_event parse printed_size raw ≡ ok e
  unfolding decode_event is_text read_sequence
  decode_event-of_Describes raw e value r d =
      let known = (known_iff (keys value)).1 d.known in
      let source = read_label-of_IsLabel _ 64 invalid_source e.source d.sourced in
      let kind = read_label-of_IsLabel _ 96 invalid_kind e.kind d.of_kind in
      let payload = read_payload-of_IsPayload _ e.payload d.carries in
      let small : leb (printed_size e.payload) 65536 ≡ true = ground (arith, d.small) in
      rw (r, known, d.versioned, d.sequenced, source, kind, payload, small) refl

  -- An input is decoded to an event exactly when its object describes the event: it has only known
  -- fields, the schema of this version, the sequence as a natural number, a non-empty source of at
  -- most 64 characters, a non-empty kind of at most 96, and a payload of at most 64 KiB, which is
  -- empty where the field is missing.
  pub decode_event_iff :
      (raw : Raw) (e : Event)
      → (decode_event parse printed_size raw ≡ ok e)
        ↔ ((value : Fields) × (raw_fields parse printed_size raw ≡ ok value) × Describes value e)
  decode_event_iff raw e =
      (decode_event-Describes raw e, λ (value, r, d). decode_event-of_Describes raw e value r d)
