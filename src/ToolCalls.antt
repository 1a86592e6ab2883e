-- ===== src/ToolCalls.antt =====
-- smolllm/toolcall.go: tool calls, and the accumulator that puts them together from streamed
-- fragments. A slot number is a Go `int`; the map of slots is an association list.
use smolllm_go.Prelude.{
  Elem, Elem-append, get_or, Elem-get_or, ℕ, zero, suc, ◌+◌, ◌-◌, ◌*◌, ◌/◌, ◌%◌, ◌^◌, ◌≤◌, ◌<◌, min,
  ◌≡◌, refl, sym, ap, ◌∙◌, ◌≢◌, ◌↔◌, ◌⊎◌, inl, inr, Bool, true, false, not, ◌&&◌, ◌||◌, Option,
  none, some, List, [], ◌∷◌, ◌++◌, map, append-nil, append_assoc, arith, ltb, leb, ◌==◌,
  if◌then◌else◌, ==_iff, ==_refl, Bool-cases, Option-cases, is_some, length, get_elem?, take, drop,
  length-append, take-append-drop, length-drop, drop-length, length-map, All, All-append,
}
use smolllm_go.Prelude.Int.{ℤ, pos, negsuc, ltb_ℤ, leb_ℤ, eq_ℤ, suc_int}
use smolllm_go.Text.{
  Text, lit, text_eq, is_empty, has_prefix, has_suffix, trim_space, trim_left, trim_right,
  trim_suffix, split, join, index, lower_byte, upper_byte, itoa,
}
pub mod Slots
pub mod Streamed
pub mod Order
pub mod Tests
pub mod Wire
pub mod RoundTrip
pub mod WireTests
pub mod Merging

-- map[string]json.RawMessage
abbrev pub Fields : Type 0
Fields = List (Text × Text)

-- fields[key] = value
unfoldable pub put_field : Text → Text → Fields → Fields
put_field k v [] = (k, v) ∷ []
put_field k v ((j, w) ∷ m) = if text_eq j k then (k, v) ∷ m else (j, w) ∷ put_field k v m

unfoldable pub field_of : Text → Fields → Option Text
field_of k [] = none
field_of k ((j, w) ∷ m) = if text_eq j k then some w else field_of k m

-- A range over `extra` that stores every pair; maps.Copy.
unfoldable pub copy_fields : Fields → Fields → Fields
unfolding put_field
copy_fields dst [] = dst
copy_fields dst ((k, v) ∷ m) = copy_fields (put_field k v dst) m

-- ToolCall, with its ToolCallFunction in `name` and `arguments`
pub record ToolCall : Type 0 where
  pub id : Text
  pub type : Text
  pub name : Text
  pub arguments : Text
  pub extra : Fields

-- toolCallFunctionDelta
pub record FunctionDelta : Type 0 where
  pub name : Text
  pub arguments : Option Text

-- toolCallDelta
pub record ToolCallDelta : Type 0 where
  pub index : Option ℤ
  pub id : Text
  pub type : Text
  pub function : Option FunctionDelta
  pub extra : Fields

-- toolCallSlot
pub record Slot : Type 0 where
  pub call : ToolCall
  pub arguments : Text

-- toolCallAccumulator
pub record Accumulator : Type 0 where
  pub slots : List (ℤ × Slot)
  pub last_slot : Option ℤ

-- newToolCallAccumulator
abbrev pub new_accumulator : Accumulator
new_accumulator = record { slots = []; last_slot = none }

-- toolCallFragment
pub record Fragment : Type 0 where
  pub index : ℤ
  pub started : Bool
  pub arguments : Text

-- a.slots[i]
unfoldable pub slot_at : ℤ → List (ℤ × Slot) → Option Slot
slot_at i [] = none
slot_at i ((j, s) ∷ m) = if eq_ℤ j i then some s else slot_at i m

-- a.slots[i] = s
unfoldable pub set_slot : ℤ → Slot → List (ℤ × Slot) → List (ℤ × Slot)
set_slot i s [] = (i, s) ∷ []
set_slot i s ((j, t) ∷ m) = if eq_ℤ j i then (j, s) ∷ m else (j, t) ∷ set_slot i s m

-- The loop of slotFor that looks for the next free number.
unfoldable pub next_slot : ℤ → List (ℤ × Slot) → ℤ
unfolding suc_int
next_slot next [] = next
next_slot next ((j, s) ∷ m) = next_slot (if leb_ℤ next j then suc_int j else next) m

-- slotFor
unfoldable pub slot_for : Accumulator → ToolCallDelta → ℤ
unfolding next_slot
slot_for a d = elim d.index [
  | some i ↦ i
  | none ↦ elim a.last_slot [
    | none ↦ next_slot (pos 0) a.slots
    | some l ↦ if is_empty d.id then l else next_slot (pos 0) a.slots
  ]
]

abbrev pub empty_slot : Slot
empty_slot = record {
  call = record { id = []; type = []; name = []; arguments = []; extra = [] };
  arguments = [];
}

abbrev pub or_empty : Option Slot → Slot
or_empty none = empty_slot
or_empty (some s) = s

abbrev pub keep_first : Text → Text → Text
keep_first new old = if is_empty new then old else new

abbrev pub name_of : Option FunctionDelta → Text
name_of none = []
name_of (some f) = f.name

abbrev pub text_or_empty : Option Text → Text
text_or_empty none = []
text_or_empty (some t) = t

abbrev pub arguments_of : Option FunctionDelta → Text
arguments_of none = []
arguments_of (some f) = text_or_empty f.arguments

-- What one fragment does to its slot.
unfoldable pub merge_slot : ToolCallDelta → Slot → Slot
unfolding copy_fields
merge_slot d s = record {
  call = record {
    id = keep_first d.id s.call.id;
    type = keep_first d.type s.call.type;
    name = keep_first (name_of d.function) s.call.name;
    arguments = s.call.arguments;
    extra = copy_fields s.call.extra d.extra;
  };
  arguments = s.arguments ++ arguments_of d.function;
}

-- merge, with the fragment that it hands to `observe`
unfoldable pub merge : Accumulator → ToolCallDelta → Accumulator × Fragment
merge a d =
    let i = slot_for a d in
    let found = slot_at i a.slots in
    (
      record { slots = set_slot i (merge_slot d (or_empty found)) a.slots; last_slot = some i },
      record { index = i; started = not (is_some found); arguments = arguments_of d.function },
    )

-- feed, with the fragments in order
unfoldable pub feed : Accumulator → List ToolCallDelta → Accumulator × List Fragment
feed a [] = (a, [])
feed a (d ∷ ds) = let (b, f) = merge a d in let (c, fs) = feed b ds in (c, f ∷ fs)

-- resolve
unfoldable pub resolve : Slot → ToolCall
resolve s = record s.call { arguments = s.arguments }

-- sort.Ints
unfoldable pub insert_int : ℤ → List ℤ → List ℤ
insert_int i [] = i ∷ []
insert_int i (j ∷ l) = if leb_ℤ i j then i ∷ j ∷ l else j ∷ insert_int i l

abbrev pub keys : List (ℤ × Slot) → List ℤ
keys [] = []
keys ((i, s) ∷ m) = i ∷ keys m

unfoldable pub sort_ints : List ℤ → List ℤ
unfolding insert_int
sort_ints [] = []
sort_ints (i ∷ l) = insert_int i (sort_ints l)

-- sortedIndexes
unfoldable pub sorted_indexes : Accumulator → List ℤ
unfolding sort_ints
sorted_indexes a = sort_ints (keys a.slots)

-- a.slots[index].resolve() for every index; a missing slot would be a nil dereference.
unfoldable pub resolve_all : List (ℤ × Slot) → List ℤ → List ToolCall
unfolding slot_at resolve
resolve_all slots [] = []
resolve_all slots (i ∷ l) =
    let rest = resolve_all slots l in
    elim (slot_at i slots) [ none ↦ rest | some s ↦ resolve s ∷ rest ]

-- result, and snapshot, which is the same
unfoldable pub result : Accumulator → List ToolCall
unfolding sorted_indexes resolve_all
result a = resolve_all a.slots (sorted_indexes a)

-- describeToolCalls
unfoldable pub describe_parts : List ToolCall → List Text
unfolding itoa
describe_parts [] = []
describe_parts (c ∷ cs) =
    (c.name ++ (lit " " ++ (itoa (length c.arguments) ++ lit " bytes"))) ∷ describe_parts cs

unfoldable pub describe_tool_calls : List ToolCall → Text
unfolding describe_parts join
describe_tool_calls calls = join (lit ", ") (describe_parts calls)
