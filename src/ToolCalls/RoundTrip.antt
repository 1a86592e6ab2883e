-- ===== src/ToolCalls/RoundTrip.antt =====
-- A ToolCall of smolllm/toolcall.go through MarshalJSON and back through UnmarshalJSON.
use smolllm_go.Prelude.{
  ◌≡◌, refl, sym, ap, ◌∙◌, ◌⊎◌, inl, inr, Bool, true, false, Option, none, some, [], ◌∷◌,
  if◌then◌else◌, Bool-cases,
}
use mathlib.Core.Path.{subst}
use smolllm_go.Text.{Text, lit}
use smolllm_go.ToolCalls.{ToolCall, Fields, field_of, copy_fields}
use smolllm_go.Errors.{str, Result, ok, context}
use smolllm_go.Balancer.Pairs.{>>=-eq-ok, context-eq-ok}
use smolllm_go.ToolCalls.Wire.{
  ToolCallWire, Json, wire_of, marshal_extras, with_extras, marshal_json, delete_all, call_keys,
  call_of, unmarshal_json,
}
use smolllm_go.ToolCalls.Merging.{
  known, named_like, or_else, Distinct, field-copy, field-delete_all, Foreign, Own, field_of-known,
  field_of-unknown, or_else-none,
}

abbrev pub compacted : Json → Option Text → Option Text
compacted j none = none
compacted j (some v) = some (j.compact v)

-- What encoding/json promises of the wire struct: it is read back as it was, and as a map it has
-- the fields of the struct only.
abbrev pub WireKept : Json → ToolCallWire → Type 0
WireKept j w =
    (encoded : Text)
    → j.encode_wire w ≡ ok encoded
    → (j.decode_wire encoded ≡ ok w) × ((m : Fields) × (j.decode_fields encoded ≡ ok m) × Own m)

-- What it promises of a map: it is read back with its values compacted.
abbrev pub FieldsKept : Json → Fields → Type 0
FieldsKept j m =
    (encoded : Text)
    → j.encode_fields m ≡ ok encoded
    → (m' : Fields) × (j.decode_fields encoded ≡ ok m')
      × ((k : Text) → field_of k m' ≡ compacted j (field_of k m))

-- What it promises of reading a struct out of a map: where the map has the encoded fields of a
-- struct, and no other key that it takes for one of them, it reads that struct.
abbrev pub WireRead : Json → ToolCallWire → Fields → Type 0
WireRead j w m =
    (encoded own_encoded : Text) (own : Fields)
    → j.encode_wire w ≡ ok own_encoded
    → j.decode_fields own_encoded ≡ ok own
    → ((k : Text) → known k ≡ true → field_of k m ≡ field_of k own)
    → ((k v : Text) → field_of k m ≡ some v → (known k ≡ true) ⊎ (named_like k ≡ false))
    → j.encode_fields m ≡ ok encoded
    → j.decode_wire encoded ≡ ok w

-- The same call, each of its extras compacted.
abbrev pub SameCall : Json → ToolCall → ToolCall → Type 0
SameCall j t t' =
    (t'.id ≡ t.id)
    × (t'.type ≡ t.type)
    × (t'.name ≡ t.name)
    × (t'.arguments ≡ t.arguments)
    × ((k : Text) → field_of k t'.extra ≡ compacted j (field_of k t.extra))

-- What UnmarshalJSON makes of an encoded call, given what its two decoders read.
unmarshal_json-reads :
    (j : Json) (t : ToolCall) (encoded : Text) (m : Fields)
    → Foreign t.extra
    → j.decode_wire encoded ≡ ok (wire_of t)
    → j.decode_fields encoded ≡ ok m
    → ((k : Text) → known k ≡ false → field_of k m ≡ compacted j (field_of k t.extra))
    → (t' : ToolCall) × (unmarshal_json j encoded ≡ ok t') × SameCall j t t'
unfolding unmarshal_json
unmarshal_json-reads j t encoded m foreign a b read = (
  call_of (wire_of t) (delete_all call_keys m),
  rw (a, b) refl,
  (
    refl,
    refl,
    refl,
    refl,
    λ k. elim (Bool-cases (known k)) [
      | inl h ↦
          field-delete_all k m
          ∙ (ap (λ (c : Bool). if c then none else field_of k m) h
              ∙ ap (λ o. compacted j o) (sym (field_of-known t.extra k foreign h)))
      | inr h ↦
          field-delete_all k m ∙ (ap (λ (c : Bool). if c then none else field_of k m) h ∙ read k h)
    ],
  ),
)

-- The merged map has the own fields of the call and its extras.
module _ (extra own : Fields) (distinct : Distinct extra) (foreign : Foreign extra)
    (is_own : Own own) where
  merged-known : (k : Text) → known k ≡ true → field_of k (copy_fields own extra) ≡ field_of k own
  merged-known k h =
      field-copy k own extra distinct
      ∙ ap (λ o. or_else o (field_of k own)) (field_of-known extra k foreign h)

  merged-unknown :
      (k : Text) → known k ≡ false → field_of k (copy_fields own extra) ≡ field_of k extra
  merged-unknown k h =
      field-copy k own extra distinct
      ∙ (ap (λ o. or_else (field_of k extra) o) (field_of-unknown own k is_own h)
          ∙ or_else-none (field_of k extra))

  merged-keys :
      (k v : Text)
      → field_of k (copy_fields own extra) ≡ some v
      → (known k ≡ true) ⊎ (named_like k ≡ false)
  merged-keys k v h = elim (Bool-cases (known k)) [
    | inl a ↦ inl a
    | inr a ↦ inr (foreign k v (sym (merged-unknown k a) ∙ h))
  ]

ok-injective : (a b : Fields) → ◌≡◌ {A = Result Fields} (ok a) (ok b) → a ≡ b
ok-injective a b h = cc h

with_extras-cases :
    (j : Json) (extra : Fields) (own_encoded encoded : Text)
    → with_extras j extra own_encoded ≡ ok encoded
    → ((extra ≡ []) × (own_encoded ≡ encoded)) ⊎ (marshal_extras j extra own_encoded ≡ ok encoded)
with_extras-cases j [] own_encoded encoded h = inl (refl, cc h)
with_extras-cases j (e ∷ extra) own_encoded encoded h = inr h

module _ (j : Json) (t : ToolCall) (own : Fields) (foreign : Foreign t.extra)
    (is_own : Own own) where
  reads-bare :
      (encoded : Text)
      → t.extra ≡ []
      → j.decode_wire encoded ≡ ok (wire_of t)
      → j.decode_fields encoded ≡ ok own
      → (t' : ToolCall) × (unmarshal_json j encoded ≡ ok t') × SameCall j t t'
  unfolding field_of
  reads-bare encoded bare a b = unmarshal_json-reads j t encoded own foreign a b (λ k h.
      field_of-unknown own k is_own h ∙ sym (ap (λ extra. compacted j (field_of k extra)) bare))

  reads-merged :
      (own_encoded encoded : Text)
      → Distinct t.extra
      → j.encode_wire (wire_of t) ≡ ok own_encoded
      → j.decode_fields own_encoded ≡ ok own
      → FieldsKept j (copy_fields own t.extra)
      → WireRead j (wire_of t) (copy_fields own t.extra)
      → j.encode_fields (copy_fields own t.extra) ≡ ok encoded
      → (t' : ToolCall) × (unmarshal_json j encoded ≡ ok t') × SameCall j t t'
  reads-merged own_encoded encoded distinct a b kept read h =
      let (m, c, same) = kept encoded h in
      let w =
        read encoded own_encoded own a b (merged-known t.extra own distinct foreign is_own)
          (merged-keys t.extra own distinct foreign is_own) h in
      unmarshal_json-reads j t encoded m foreign w c (λ k u.
        same k ∙ ap (λ o. compacted j o) (merged-unknown t.extra own distinct foreign is_own k u))

-- A call that MarshalJSON encodes is read back by UnmarshalJSON as the same call, each extra as
-- Marshal compacts it, where no extra has a key that encoding/json takes for a field of the struct.
-- This is given that each key of the extras stands once, and that encoding/json reads the wire
-- struct and the merged map back as it wrote them and the struct out of the merged map.
pub unmarshal_json-marshal_json :
    (j : Json) (t : ToolCall) (encoded : Text)
    → Distinct t.extra
    → Foreign t.extra
    → WireKept j (wire_of t)
    → ((own : Fields) (own_encoded : Text)
        → j.encode_wire (wire_of t) ≡ ok own_encoded
        → j.decode_fields own_encoded ≡ ok own
        → FieldsKept j (copy_fields own t.extra) × WireRead j (wire_of t) (copy_fields own t.extra))
    → marshal_json j t ≡ ok encoded
    → (t' : ToolCall) × (unmarshal_json j encoded ≡ ok t') × SameCall j t t'
unfolding marshal_json
unmarshal_json-marshal_json j t encoded distinct foreign kept merged h =
    let (e, a, h₁) =
      >>=-eq-ok (context (str (lit "encode tool call: ") ∷ []) (j.encode_wire (wire_of t))) _ h in
    let a₁ = context-eq-ok _ (j.encode_wire (wire_of t)) a in
    let (b, (own, c, is_own)) = kept e a₁ in
    elim (with_extras-cases j t.extra e encoded h₁) [
      | inl (bare, same) ↦
          reads-bare j t own foreign is_own encoded bare
            (subst (λ x. j.decode_wire x ≡ ok (wire_of t)) same b)
            (subst (λ x. j.decode_fields x ≡ ok own) same c)
      | inr g ↦
          let (m, d, k) = >>=-eq-ok (context _ (j.decode_fields e)) _ g in
          let d₁ = context-eq-ok _ (j.decode_fields e) d in
          let m_own = subst (λ x. Own x) (ok-injective own m (sym c ∙ d₁)) is_own in
          let (fields, wire) = merged m e a₁ d₁ in
          reads-merged j t m foreign m_own e encoded distinct a₁ d₁ fields wire
            (context-eq-ok _ (j.encode_fields (copy_fields m t.extra)) k)
    ]
