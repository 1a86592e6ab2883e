-- ===== src/Message.antt =====
-- smolllm/message.go: stop reasons, attempts, the assistant message and its accumulator. The
-- times that the program reads off the clock (Started, Duration, TTFT) are left out.
use smolllm_go.Prelude.{
  Elem, Elem-append, get_or, Elem-get_or, ℕ, zero, suc, ◌+◌, ◌-◌, ◌*◌, ◌/◌, ◌%◌, ◌^◌, ◌≤◌, ◌<◌, min,
  ◌≡◌, refl, sym, ap, ◌∙◌, ◌≢◌, ◌↔◌, ◌⊎◌, inl, inr, Bool, true, false, not, ◌&&◌, ◌||◌, Option,
  none, some, List, [], ◌∷◌, ◌++◌, map, append-nil, append_assoc, arith, ltb, leb, ◌==◌,
  if◌then◌else◌, ==_iff, ==_refl, Bool-cases, Option-cases, is_some, length, get_elem?, take, drop,
  length-append, take-append-drop, length-drop, drop-length, length-map, All, All-append,
}
use smolllm_go.Prelude.Int.{ℤ, pos}
use smolllm_go.Text.{
  Text, lit, text_eq, is_empty, has_prefix, has_suffix, trim_space, trim_left, trim_right,
  trim_suffix, split, join, index, lower_byte, upper_byte, itoa,
}
use smolllm_go.Call.{PreparedCall, preview_api_key}
use smolllm_go.Errors.{LegError}
use smolllm_go.ToolCalls.{ToolCall, Accumulator, new_accumulator, result}
use smolllm_go.Usage.{Usage, new_usage}
pub mod Reasons
pub mod Tests

-- StopReason
pub data StopReason : Type 0 where
  pending stop length_limit tool_use error aborted : StopReason

-- StopReason.Terminal
unfoldable pub reason_is_terminal : StopReason → Bool
reason_is_terminal pending = false
reason_is_terminal _ = true

-- stopReasonFor
unfoldable pub stop_reason_for : Text → List ToolCall → StopReason
stop_reason_for finish_reason calls =
    if text_eq finish_reason (lit "length")
    then length_limit
    else if text_eq finish_reason (lit "tool_calls") || ltb 0 (length calls)
    then tool_use
    else stop

-- Attempt
pub record Attempt : Type 0 where
  pub provider : Text
  pub model : Text
  pub model_name : Text
  pub api_key_hint : Text
  pub retries : ℕ
  pub usage : Usage
  pub emitted : Bool
  pub failure : Option LegError

-- Attempt.Failed
abbrev pub attempt_failed : Attempt → Bool
attempt_failed a = is_some a.failure

-- newAttempt
unfoldable pub new_attempt : Option PreparedCall → ℕ → Attempt
unfolding new_usage preview_api_key
new_attempt none n = record {
  provider = [];
  model = [];
  model_name = [];
  api_key_hint = [];
  retries = n;
  usage = new_usage (pos 0) (pos 0) (pos 0) (pos 0) true;
  emitted = false;
  failure = none;
}
new_attempt (some call) n = record {
  provider = call.provider.name;
  model = call.model;
  model_name = call.model_name;
  api_key_hint = preview_api_key call.api_key;
  retries = n;
  usage = new_usage (pos call.input_tokens) (pos 0) (pos 0) (pos 0) true;
  emitted = false;
  failure = none;
}

-- AssistantMessage
pub record AssistantMessage : Type 0 where
  pub content : Text
  pub reasoning : Text
  pub tool_calls : List ToolCall
  pub reasoning_items : List Text
  pub stop_reason : StopReason
  pub error_message : Text
  pub finish_reason : Text
  pub provider : Text
  pub model : Text
  pub model_name : Text
  pub usage : Usage
  pub attempts : List Attempt

-- messageAccumulator
pub record MessageAccumulator : Type 0 where
  pub content : Text
  pub reasoning : Text
  pub tools : Accumulator
  pub reasoning_items : List Text
  pub stop_reason : StopReason
  pub error_message : Text
  pub finish_reason : Text
  pub provider : Text
  pub model_name : Text
  pub model : Text
  pub usage : Usage
  pub attempts : List Attempt

-- newMessageAccumulator
unfoldable pub new_message_accumulator : MessageAccumulator
unfolding new_usage
new_message_accumulator = record {
  content = [];
  reasoning = [];
  tools = new_accumulator;
  reasoning_items = [];
  stop_reason = pending;
  error_message = [];
  finish_reason = [];
  provider = [];
  model_name = [];
  model = [];
  usage = new_usage (pos 0) (pos 0) (pos 0) (pos 0) true;
  attempts = [];
}

-- resetLeg
unfoldable pub reset_leg : MessageAccumulator → MessageAccumulator
unfolding new_usage
reset_leg a = record a {
  provider = [];
  model = [];
  model_name = [];
  content = [];
  reasoning = [];
  tools = new_accumulator;
  reasoning_items = [];
  finish_reason = [];
  usage = new_usage (pos 0) (pos 0) (pos 0) (pos 0) true;
}

-- messageAccumulator.snapshot
unfoldable pub snapshot : MessageAccumulator → AssistantMessage
unfolding result
snapshot a = record {
  content = a.content;
  reasoning = a.reasoning;
  tool_calls = result a.tools;
  reasoning_items = a.reasoning_items;
  stop_reason = a.stop_reason;
  error_message = a.error_message;
  finish_reason = a.finish_reason;
  provider = a.provider;
  model = a.model;
  model_name = a.model_name;
  usage = a.usage;
  attempts = a.attempts;
}
