-- ===== src/ToolCalls/Tests.antt =====
-- The theorems on tool calls at concrete fragments.
use smolllm_go.Prelude.{
  Elem, ◌≡◌, refl, true, Option, none, some, List, [], ◌∷◌, map, arith, if◌then◌else◌, is_some,
}
use smolllm_go.Prelude.Int.{ℤ, pos}
use smolllm_go.Text.{Text, lit}
use smolllm_go.ToolCalls.{
  Accumulator, new_accumulator, ToolCallDelta, ToolCall, slot_at, set_slot, merge, merge_slot,
  slot_for, feed, result, sorted_indexes, empty_slot,
}
use smolllm_go.ToolCalls.Slots.{slot_for_fresh, Above}
use smolllm_go.ToolCalls.Streamed.{announced, announced-slot_at}
use smolllm_go.ToolCalls.Order.{Increasing, Reads, result-in_order}

abbrev piece : Option ℤ → Text → Text → ToolCallDelta
piece i id arguments = record {
  index = i;
  id = id;
  type = [];
  function = some (record { name = lit "f"; arguments = some arguments });
  extra = [];
}

abbrev two_calls : List ToolCallDelta
two_calls =
    piece (some (pos 1)) (lit "b") (lit "{")
    ∷ piece (some (pos 0)) (lit "a") (lit "[")
    ∷ piece (some (pos 1)) [] (lit "}")
    ∷ piece none (lit "c") (lit "x")
    ∷ piece none [] (lit "y")
    ∷ []

two_calls_result :
    map (λ (c : ToolCall). c.arguments) (result (feed new_accumulator two_calls).0)
    ≡ lit "[" ∷ lit "{}" ∷ lit "xy" ∷ []
unfolding feed result merge slot_for slot_at set_slot merge_slot
two_calls_result = refl

announced-slot_at_example :
    let (a, fs) = feed new_accumulator two_calls in
    announced (pos 1) fs ≡ (if is_some (slot_at (pos 1) a.slots) then 1 else 0)
announced-slot_at_example = announced-slot_at two_calls (pos 1)

result-in_order_example :
    let a = (feed new_accumulator two_calls).0 in
    Increasing (sorted_indexes a)
    × Reads a.slots (sorted_indexes a) (result a)
    × ((i : ℤ) → is_some (slot_at i a.slots) ≡ true → Elem i (sorted_indexes a))
result-in_order_example = result-in_order two_calls

abbrev one_slot : Accumulator
one_slot = record { slots = (pos 3, empty_slot) ∷ []; last_slot = some (pos 3) }

slot_for_fresh_example :
    Above (slot_for one_slot (piece none (lit "c") [])) one_slot.slots
    × (slot_at (slot_for one_slot (piece none (lit "c") [])) one_slot.slots ≡ none)
slot_for_fresh_example =
    slot_for_fresh one_slot (piece none (lit "c") []) refl refl (omega arith, tt)
