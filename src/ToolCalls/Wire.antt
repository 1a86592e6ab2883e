-- ===== src/ToolCalls/Wire.antt =====
-- The JSON of tool calls in smolllm/toolcall.go: MarshalJSON and UnmarshalJSON of a ToolCall,
-- UnmarshalJSON of a streamed fragment, and extraFields. A map is an association list in which each
-- key stands once.
use smolllm_go.Prelude.{Option, none, some, List, [], ◌∷◌, ◌==◌, if◌then◌else◌, length}
use smolllm_go.Text.{Text, lit, text_eq}
use smolllm_go.Errors.{str, Result, ok, ◌>>=◌, context}
use smolllm_go.ToolCalls.{ToolCall, ToolCallDelta, FunctionDelta, Fields, copy_fields}
use smolllm_go.Prelude.Int.{ℤ}

-- toolCallWire
pub record ToolCallWire : Type 0 where
  pub id : Text
  pub type : Text
  pub name : Text
  pub arguments : Text

-- The struct that a fragment is decoded into.
pub record DeltaWire : Type 0 where
  pub index : Option ℤ
  pub id : Text
  pub type : Text
  pub function : Option FunctionDelta

-- What the codecs need of encoding/json: Marshal and Unmarshal at the types that they use, and what
-- Marshal makes of a raw message, which it compacts.
pub record Json : Type 0 where
  pub encode_wire : ToolCallWire → Result Text
  pub decode_wire : Text → Result ToolCallWire
  pub encode_fields : Fields → Result Text
  pub decode_fields : Text → Result Fields
  pub decode_delta : Text → Result DeltaWire
  pub compact : Text → Text

abbrev pub wire_of : ToolCall → ToolCallWire
wire_of t = record { id = t.id; type = t.type; name = t.name; arguments = t.arguments }

-- ToolCall.MarshalJSON where there are extras
abbrev pub marshal_extras : Json → Fields → Text → Result Text
marshal_extras j extra encoded = do
  merged ← context (str (lit "encode tool call extras: ") ∷ []) (j.decode_fields encoded)
  context (str (lit "encode tool call extras: ") ∷ []) (j.encode_fields (copy_fields merged extra))

-- ToolCall.MarshalJSON behind the encoded wire fields
abbrev pub with_extras : Json → Fields → Text → Result Text
with_extras j [] encoded = ok encoded
with_extras j (e ∷ extra) encoded = marshal_extras j (e ∷ extra) encoded

-- ToolCall.MarshalJSON
unfoldable pub marshal_json : Json → ToolCall → Result Text
unfolding copy_fields
marshal_json j t = do
  encoded ← context (str (lit "encode tool call: ") ∷ []) (j.encode_wire (wire_of t))
  with_extras j t.extra encoded

-- delete(fields, key)
unfoldable pub delete_field : Text → Fields → Fields
delete_field k [] = []
delete_field k ((i, v) ∷ m) =
    let rest = delete_field k m in if text_eq i k then rest else (i, v) ∷ rest

-- The loop that deletes the known keys.
unfoldable pub delete_all : List Text → Fields → Fields
unfolding delete_field
delete_all [] m = m
delete_all (k ∷ ks) m = delete_all ks (delete_field k m)

abbrev pub call_keys : List Text
call_keys = lit "id" ∷ lit "type" ∷ lit "function" ∷ []

abbrev pub delta_keys : List Text
delta_keys = lit "index" ∷ call_keys

abbrev pub call_of : ToolCallWire → Fields → ToolCall
call_of w extra = record {
  id = w.id;
  type = w.type;
  name = w.name;
  arguments = w.arguments;
  extra = extra;
}

-- ToolCall.UnmarshalJSON
unfoldable pub unmarshal_json : Json → Text → Result ToolCall
unfolding delete_all
unmarshal_json j encoded = do
  wire ← context (str (lit "decode tool call: ") ∷ []) (j.decode_wire encoded)
  raw ← context (str (lit "decode tool call: ") ∷ []) (j.decode_fields encoded)
  ok (call_of wire (delete_all call_keys raw))

-- toolCallDelta.UnmarshalJSON
unfoldable pub unmarshal_delta : Json → Text → Result ToolCallDelta
unfolding delete_all
unmarshal_delta j encoded = do
  wire ← context (str (lit "decode tool call delta: ") ∷ []) (j.decode_delta encoded)
  raw ← context (str (lit "decode tool call delta: ") ∷ []) (j.decode_fields encoded)
  ok (record {
    index = wire.index;
    id = wire.id;
    type = wire.type;
    function = wire.function;
    extra = delete_all delta_keys raw;
  })

-- ToolCall.extraFields
unfoldable pub extra_fields : ToolCall → Option Fields
unfolding copy_fields
extra_fields t = if length t.extra == 0 then none else some (copy_fields [] t.extra)
