-- ===== src/Request.antt =====
-- smolllm/types.go: a request and its validation. A message is the union of the OpenAI SDK as the
-- program reads it: which arm is set, the role and content that its getters give, and whether it
-- carries tool calls or a function call.
use smolllm_go.Prelude.{
  Elem, Elem-append, get_or, Elem-get_or, ℕ, zero, suc, ◌+◌, ◌-◌, ◌*◌, ◌/◌, ◌%◌, ◌^◌, ◌≤◌, ◌<◌, min,
  ◌≡◌, refl, sym, ap, ◌∙◌, ◌≢◌, ◌↔◌, ◌⊎◌, inl, inr, Bool, true, false, not, ◌&&◌, ◌||◌, Option,
  none, some, List, [], ◌∷◌, ◌++◌, map, append-nil, append_assoc, arith, ltb, leb, ◌==◌,
  if◌then◌else◌, ==_iff, ==_refl, Bool-cases, Option-cases, is_some, length, get_elem?, take, drop,
  length-append, take-append-drop, length-drop, drop-length, length-map, All, All-append,
}
use smolllm_go.Text.{
  Text, lit, text_eq, is_empty, has_prefix, has_suffix, trim_space, trim_left, trim_right,
  trim_suffix, split, join, index, lower_byte, upper_byte, itoa,
}
use smolllm_go.Errors.{
  Piece, str, quoted, num, HttpError, Disposition, retry, advance, abort, LegInfo, Err, canceled,
  deadline_exceeded, leg_budget_exceeded, http, plain, wrap, leg, joined, LegError, as_err, Result,
  ok, err, ◌>>=◌, context, errors_is, is_canceled, is_deadline, is_leg_budget, as_http, as_leg,
  ErrorDecoder, leg_local_rejection, classify_http, classify, new_leg_error, as_leg_error,
  join_leg_errors, error_text,
}
pub mod Validation
pub mod Tests

pub data Arm : Type 0 where
  developer system user assistant tool function unset : Arm

-- A part of a content that is an array.
pub data Part : Type 0 where
  text_part image_part other_part : Text → Part

-- What GetContent gives: nothing, a string, or an array of parts.
pub data Content : Type 0 where
  nothing : Content
  words : Text → Content
  parts : List Part → Content

-- Message
pub record Message : Type 0 where
  pub arm : Arm
  pub role : Option Text
  pub content : Content
  pub tool_calls : ℕ
  pub function_call : Bool

-- msg.GetContent().AsAny() != nil
abbrev pub is_content : Content → Bool
is_content nothing = false
is_content (words t) = true
is_content (parts ps) = true

abbrev pub has_content : Message → Bool
has_content m = is_content m.content

-- Request, its tools left out
pub record Request : Type 0 where
  pub system_prompt : Text
  pub messages : List Message

-- The `switch` of messageRole.
abbrev pub arm_role : Arm → Option Text
arm_role developer = some (lit "developer")
arm_role system = some (lit "system")
arm_role user = some (lit "user")
arm_role assistant = some (lit "assistant")
arm_role tool = some (lit "tool")
arm_role function = some (lit "function")
arm_role unset = none

-- messageRole
unfoldable pub message_role : Message → Option Text
message_role m = elim m.role [
  | none ↦ arm_role m.arm
  | some r ↦ if is_empty (trim_space r) then arm_role m.arm else some (trim_space r)
]

abbrev pub is_tool : Arm → Bool
is_tool tool = true
is_tool _ = false

-- What a turn of the loop of Request.Validate finds wrong with a message.
unfoldable pub message_error : ℕ → Message → Option Err
unfolding message_role
message_error i m = elim (message_role m) [
  | none ↦ some (plain (str (lit "request message #") ∷ num i ∷ str (lit " must set role") ∷ []))
  | some r ↦
      if text_eq r (lit "function")
      then some (
          plain (
            str (lit "request message #")
            ∷ num i
            ∷ str (lit " uses unsupported role ")
            ∷ quoted r
            ∷ []))
      else if has_content m || is_tool m.arm || ltb 0 m.tool_calls || m.function_call
      then none
      else some (plain (str (lit "request message #") ∷ num i ∷ str (lit " must set content") ∷ []))
]

unfoldable pub first_error : ℕ → List Message → Option Err
first_error i [] = none
first_error i (m ∷ ms) =
    let rest = first_error (suc i) ms in elim (message_error i m) [ some e ↦ some e | none ↦ rest ]

-- Request.Validate
unfoldable pub validate : Request → Option Err
unfolding first_error
validate r =
    if length r.messages == 0
    then some (plain (str (lit "request must contain at least one message") ∷ []))
    else first_error 0 r.messages

-- ensureRole
unfoldable pub ensure_role : Message → Message
ensure_role m = elim m.arm [ function ↦ m | unset ↦ m | arm ↦ record m { role = arm_role arm } ]

abbrev plain_message : Arm → Content → Message
plain_message arm content = record {
  arm = arm;
  role = arm_role arm;
  content = content;
  tool_calls = 0;
  function_call = false;
}

-- System, User, Assistant and Developer
abbrev pub system_message : Text → Message
system_message content = plain_message system (words content)

abbrev pub user_message : Text → Message
user_message content = plain_message user (words content)

abbrev pub assistant_message : Text → Message
assistant_message content = plain_message assistant (words content)

abbrev pub developer_message : Text → Message
developer_message content = plain_message developer (words content)

-- AssistantToolCalls, of the calls their number
abbrev pub assistant_tool_calls : Text → ℕ → Message
assistant_tool_calls content calls =
    record (plain_message assistant (if is_empty content then nothing else words content)) {
      tool_calls = calls;
    }

-- ToolResult
abbrev pub tool_result : Text → Message
tool_result content = plain_message tool (words content)

-- RequestFromString
abbrev pub request_from_string : Text → Request
request_from_string prompt = record { system_prompt = []; messages = user_message prompt ∷ [] }

-- RequestFromMessages
unfoldable pub request_from_messages : List Message → Request
unfolding ensure_role
request_from_messages messages = record { system_prompt = []; messages = map ensure_role messages }
