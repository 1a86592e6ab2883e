-- ===== src/ToolCalls/WireTests.antt =====
-- The theorem on the JSON of tool calls at a codec that writes each text behind its length.
use smolllm_go.Prelude.{
  ℕ, zero, suc, ◌≡◌, refl, ap, ◌∙◌, inl, inr, false, Option, none, some, [], ◌∷◌, ◌++◌, Bool-cases,
  length, take, drop,
}
use mathlib.Core.Path.{subst}
use smolllm_go.Text.{Text, lit, text_eq}
use smolllm_go.Text.Laws.{text_eq→eq}
use smolllm_go.Errors.{plain, str, ok, err}
use smolllm_go.ToolCalls.{ToolCall, Fields, put_field, field_of, copy_fields}
use smolllm_go.ToolCalls.Wire.{ToolCallWire, Json, wire_of, marshal_json, unmarshal_json}
use smolllm_go.ToolCalls.Merging.{named_like, Distinct, Foreign, Own}
use smolllm_go.ToolCalls.RoundTrip.{
  compacted, WireKept, FieldsKept, WireRead, SameCall, unmarshal_json-marshal_json,
}

abbrev framed : Text → Text
framed t = length t ∷ t

unfoldable written : Fields → Text
written [] = []
written ((k, v) ∷ m) = framed k ++ (framed v ++ written m)

-- The fields of a text, on fuel for their number.
unfoldable parsed : ℕ → Text → Fields
parsed zero t = []
parsed (suc fuel) [] = []
parsed (suc fuel) (n ∷ t) = elim (drop n t) [
  | [] ↦ []
  | i ∷ u ↦ (take n t, take i u) ∷ parsed fuel (drop i u)
]

abbrev function_value : ToolCallWire → Text
function_value w = framed w.name ++ w.arguments

abbrev wire_fields : ToolCallWire → Fields
wire_fields w = (lit "id", w.id) ∷ (lit "type", w.type) ∷ (lit "function", function_value w) ∷ []

abbrev function_of : Text → Text × Text
function_of [] = ([], [])
function_of (n ∷ t) = (take n t, drop n t)

abbrev or_blank : Option Text → Text
or_blank none = []
or_blank (some t) = t

abbrev read_wire : Fields → ToolCallWire
read_wire m = record {
  id = or_blank (field_of (lit "id") m);
  type = or_blank (field_of (lit "type") m);
  name = (function_of (or_blank (field_of (lit "function") m))).0;
  arguments = (function_of (or_blank (field_of (lit "function") m))).1;
}

abbrev codec : Json
codec = record {
  encode_wire = λ w. ok (written (wire_fields w));
  decode_wire = λ t. ok (read_wire (parsed (length t) t));
  encode_fields = λ m. ok (written m);
  decode_fields = λ t. ok (parsed (length t) t);
  decode_delta = λ t. err (plain (str (lit "no fragment") ∷ []));
  compact = λ v. v;
}

abbrev call : ToolCall
call = record {
  id = lit "c1";
  type = lit "function";
  name = lit "f";
  arguments = lit "{}";
  extra = (lit "sig", lit "1") ∷ [];
}

abbrev own_fields : Fields
own_fields = wire_fields (wire_of call)

own_fields-Own : Own own_fields
unfolding field_of
own_fields-Own k v h = elim (Bool-cases (text_eq (lit "id") k)) [
  | inl a ↦ rw a refl
  | inr a ↦ elim (Bool-cases (text_eq (lit "type") k)) [
    | inl b ↦ rw (a, b) refl
    | inr b ↦ elim (Bool-cases (text_eq (lit "function") k)) [
      | inl c ↦ rw (a, b, c) refl
      | inr c ↦ cc (rw (a, b, c) at h)
    ]
  ]
]

extra-Foreign : Foreign call.extra
unfolding field_of
extra-Foreign k v h = elim (Bool-cases (text_eq (lit "sig") k)) [
  | inl a ↦ subst (λ x. named_like x ≡ false) (text_eq→eq (lit "sig") k a) refl
  | inr a ↦ cc (rw a at h)
]

extra-Distinct : Distinct call.extra
unfolding field_of
extra-Distinct = (refl, tt)

call-WireKept : WireKept codec (wire_of call)
unfolding written parsed field_of
call-WireKept encoded h =
    let e : written own_fields ≡ encoded = cc h in
    subst
      (λ x.
        (codec.decode_wire x ≡ ok (wire_of call))
        × ((m : Fields) × (codec.decode_fields x ≡ ok m) × Own m))
      e (refl, (own_fields, refl, own_fields-Own))

compacted-id : (o : Option Text) → o ≡ compacted codec o
compacted-id none = refl
compacted-id (some v) = refl

abbrev merged : Fields
merged = copy_fields own_fields call.extra

merged-FieldsKept : FieldsKept codec merged
unfolding written parsed copy_fields put_field
merged-FieldsKept encoded h =
    let e : written merged ≡ encoded = cc h in
    subst
      (λ x.
        (m : Fields) × (codec.decode_fields x ≡ ok m)
        × ((k : Text) → field_of k m ≡ compacted codec (field_of k merged)))
      e (merged, refl, λ k. compacted-id (field_of k merged))

merged-WireRead : WireRead codec (wire_of call) merged
unfolding written parsed copy_fields put_field field_of
merged-WireRead encoded own_encoded own a b agree keys h =
    let e : written merged ≡ encoded = cc h in
    subst (λ x. codec.decode_wire x ≡ ok (wire_of call)) e refl

call-merged :
    (own : Fields) (own_encoded : Text)
    → codec.encode_wire (wire_of call) ≡ ok own_encoded
    → codec.decode_fields own_encoded ≡ ok own
    → FieldsKept codec (copy_fields own call.extra)
      × WireRead codec (wire_of call) (copy_fields own call.extra)
unfolding written parsed
call-merged own own_encoded a b =
    let e : written own_fields ≡ own_encoded = cc a in
    let f : parsed (length own_encoded) own_encoded ≡ own = cc b in
    let g : own_fields ≡ own = ap (λ x. parsed (length x) x) e ∙ f in
    subst
      (λ x.
        FieldsKept codec (copy_fields x call.extra)
        × WireRead codec (wire_of call) (copy_fields x call.extra))
      g (merged-FieldsKept, merged-WireRead)

call_encoded : marshal_json codec call ≡ ok (written merged)
unfolding marshal_json written parsed copy_fields put_field
call_encoded = refl

unmarshal_json-marshal_json_example :
    (t' : ToolCall) × (unmarshal_json codec (written merged) ≡ ok t') × SameCall codec call t'
unmarshal_json-marshal_json_example =
    unmarshal_json-marshal_json codec call (written merged) extra-Distinct extra-Foreign
      call-WireKept call-merged call_encoded
