-- ===== src/EventStream.antt =====
-- smolllm/eventstream.go: events, and the queue between a call and its consumer. The lock makes
-- push and closeInput single steps; `notify` only wakes the pump and carries no data.
use smolllm_go.Prelude.{
  Elem, Elem-append, get_or, Elem-get_or, ℕ, zero, suc, ◌+◌, ◌-◌, ◌*◌, ◌/◌, ◌%◌, ◌^◌, ◌≤◌, ◌<◌, min,
  ◌≡◌, refl, sym, ap, ◌∙◌, ◌≢◌, ◌↔◌, ◌⊎◌, inl, inr, Bool, true, false, not, ◌&&◌, ◌||◌, Option,
  none, some, List, [], ◌∷◌, ◌++◌, map, append-nil, append_assoc, arith, ltb, leb, ◌==◌,
  if◌then◌else◌, ==_iff, ==_refl, Bool-cases, Option-cases, is_some, length, get_elem?, take, drop,
  length-append, take-append-drop, length-drop, drop-length, length-map, All, All-append,
}
use smolllm_go.Prelude.Int.{ℤ, pos}
use smolllm_go.Text.{
  Text, lit, text_eq, is_empty, has_prefix, has_suffix, trim_space, trim_left, trim_right,
  trim_suffix, split, join, index, lower_byte, upper_byte, itoa,
}
use smolllm_go.ToolCalls.{ToolCall}
use smolllm_go.Message.{AssistantMessage, Attempt, StopReason}
pub mod Pump
pub mod Delivery
pub mod Refines
pub mod Tests

-- EventKind
pub data EventKind : Type 0 where
  start text_delta reasoning_delta tool_call_start tool_call_delta : EventKind
  tool_call_end leg_failed done error : EventKind

-- EventKind.Terminal
abbrev pub kind_is_terminal : EventKind → Bool
kind_is_terminal done = true
kind_is_terminal error = true
kind_is_terminal _ = false

-- Event
pub record Event : Type 0 where
  pub kind : EventKind
  pub delta : Text
  pub index : ℤ
  pub tool_call : Option ToolCall
  pub attempt : Option Attempt
  pub message : AssistantMessage

-- newEvent
abbrev pub new_event : EventKind → AssistantMessage → Event
new_event kind message = record {
  kind = kind;
  delta = [];
  index = pos 0;
  tool_call = none;
  attempt = none;
  message = message;
}

-- EventStream: `finished` is finishOnce, `ended` the closed channel `done`, `abandoned` the closed
-- channel `abandon` with closeOnce, `cancelled` whether `cancel` was called.
pub record EventStream : Type 0 where
  pub queue : List Event
  pub input_closed : Bool
  pub finished : Bool
  pub ended : Bool
  pub result : Option AssistantMessage
  pub abandoned : Bool
  pub cancelled : Bool

-- newEventStream
abbrev pub new_event_stream : EventStream
new_event_stream = record {
  queue = [];
  input_closed = false;
  finished = false;
  ended = false;
  result = none;
  abandoned = false;
  cancelled = false;
}

-- push
unfoldable pub push : EventStream → Event → EventStream
push s e = if s.input_closed then s else record s { queue = s.queue ++ (e ∷ []) }

-- closeInput
unfoldable pub close_input : EventStream → EventStream
close_input s = record s { input_closed = true }

-- Close
unfoldable pub close : EventStream → EventStream
close s = if s.abandoned then s else record s { abandoned = true; cancelled = true }

-- The kind of the terminal event.
abbrev pub terminal_kind : StopReason → EventKind
terminal_kind StopReason.error = error
terminal_kind StopReason.aborted = error
terminal_kind _ = done

-- finish
unfoldable pub finish : EventStream → AssistantMessage → EventStream
unfolding push close_input
finish s m =
    if s.finished
    then s
    else let t =
        push (record s { finished = true; result = some m })
          (new_event (terminal_kind m.stop_reason) m) in
      record (close_input t) { ended = true }
