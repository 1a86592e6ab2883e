-- ===== src/Command.antt =====
-- cmd/cli/main.go: the command line tool. Its two commands are functions of their parsed arguments;
-- what they print comes back as the bytes of the two output streams.
use smolllm_go.Prelude.{
  Elem, Elem-append, get_or, Elem-get_or, ℕ, zero, suc, ◌+◌, ◌-◌, ◌*◌, ◌/◌, ◌%◌, ◌^◌, ◌≤◌, ◌<◌, min,
  ◌≡◌, refl, sym, ap, ◌∙◌, ◌≢◌, ◌↔◌, ◌⊎◌, inl, inr, Bool, true, false, not, ◌&&◌, ◌||◌, Option,
  none, some, List, [], ◌∷◌, ◌++◌, map, append-nil, append_assoc, arith, ltb, leb, ◌==◌,
  if◌then◌else◌, ==_iff, ==_refl, Bool-cases, Option-cases, is_some, length, get_elem?, take, drop,
  length-append, take-append-drop, length-drop, drop-length, length-map, All, All-append,
}
use smolllm_go.Prelude.Int.{ℤ, pos, pos_part, neg_part}
use smolllm_go.Text.{
  Text, lit, text_eq, is_empty, has_prefix, has_suffix, trim_space, trim_left, trim_right,
  trim_suffix, split, join, index, lower_byte, upper_byte, itoa,
}
use smolllm_go.Errors.{
  Piece, str, quoted, num, Message, HttpError, Disposition, retry, advance, abort, LegInfo, Err,
  canceled, deadline_exceeded, leg_budget_exceeded, http, plain, wrap, leg, joined, LegError,
  as_err, Result, ok, err, ◌>>=◌, context, errors_is, is_canceled, is_deadline, is_leg_budget,
  as_http, as_leg, ErrorDecoder, leg_local_rejection, classify_http, classify, new_leg_error,
  as_leg_error, join_leg_errors, error_text,
}
use smolllm_go.Float.{Float, float_one, float_two, float_zero, float_lt, is_nan}
use smolllm_go.Options.{
  Options, Setter, apply_options, with_timeout, with_model, with_temperature, with_top_p,
  with_reasoning_effort, with_image_paths, with_backtick_removal, with_dimensions,
}
use smolllm_go.ToolCalls.{ToolCall}
use smolllm_go.Message.{AssistantMessage, StopReason, Attempt}
use smolllm_go.EventStream.{
  Event, EventKind, start, text_delta, reasoning_delta, tool_call_start, tool_call_delta,
  tool_call_end, leg_failed, done,
}
pub mod Run
pub mod Streaming
pub mod Accepted
pub mod Tests

-- askCmd
pub record AskCommand : Type 0 where
  pub model : Text
  pub system_prompt : Text
  pub images : List Text
  pub temperature : Option Float
  pub top_p : Option Float
  pub reasoning_effort : Option Text
  pub timeout : ℤ
  pub strip_backticks : Bool
  pub streams : Bool
  pub validates : Bool
  pub prompt : List Text

-- A setter that cannot panic.
abbrev pub always : (Options → Options) → Setter
always f o = some (f o)

abbrev pub when : Bool → Setter → List Setter
when true f = f ∷ []
when false f = []

abbrev pub when_some {ℓ} : {A : Type ℓ} → Option A → (A → Setter) → List Setter
when_some none f = []
when_some (some a) f = f a ∷ []

-- What the tests of askCmd.options on a sampling option come to: is it NaN, is it out of range?
abbrev pub tested : Text → Text → Float → Bool → Bool → Result (Option Float)
tested not_nan between x true outside = err (plain (str not_nan ∷ []))
tested not_nan between x false true = err (plain (str between ∷ []))
tested not_nan between x false false = ok (some x)

-- The tests of askCmd.options on a sampling option, with their two messages.
unfoldable pub checked_sampling : Text → Text → Float → Option Float → Result (Option Float)
unfolding float_lt
checked_sampling not_nan between bound none = ok none
checked_sampling not_nan between bound (some x) =
    tested not_nan between x (is_nan x) (float_lt x float_zero || float_lt bound x)

-- askCmd.options; the logger is left out
unfoldable pub ask_options : AskCommand → Result (List Setter)
unfolding checked_sampling with_timeout with_model with_temperature with_top_p with_reasoning_effort
    with_image_paths with_backtick_removal
ask_options c = do
  temperature ←
      checked_sampling (lit "temperature cannot be NaN")
        (lit "temperature must be between 0 and 2 inclusive") float_two c.temperature
  top_p ←
      checked_sampling (lit "top-p cannot be NaN") (lit "top-p must be between 0 and 1 inclusive")
        float_one c.top_p
  ok (
      always (with_timeout c.timeout)
      ∷ (when (not (is_empty (trim_space c.model))) (always (with_model (trim_space c.model)))
          ++ (when_some temperature with_temperature
              ++ (when_some top_p with_top_p
                  ++ (when_some c.reasoning_effort with_reasoning_effort
                      ++ (when (ltb 0 (length c.images)) (always (with_image_paths c.images))
                          ++ when c.strip_backticks (always with_backtick_removal)))))))

-- What is on the terminal: `out` is stdout and `log` stderr. `writes` counts the writes of an answer
-- to stdout, `write_error` is the first error of them.
pub record Console : Type 0 where
  pub out : Text
  pub log : Text
  pub writes : ℕ
  pub write_error : Option Err
  pub in_reasoning : Bool

abbrev pub new_console : Console
new_console = record { out = []; log = []; writes = 0; write_error = none; in_reasoning = false }

abbrev pub newline : Text
newline = 10 ∷ []

abbrev pub print_log : Text → Console → Console
print_log t s = record s { log = s.log ++ t }

-- `answer` of streamToStdout. `fails` is what the writes to stdout give.
unfoldable pub print_answer : (ℕ → Option Err) → Text → Console → Console
print_answer fails t s = if is_some s.write_error then s else elim (fails s.writes) [
  | none ↦ record s { out = s.out ++ t; writes = suc s.writes }
  | some e ↦ record s {
    writes = suc s.writes;
    write_error = some (wrap (str (lit "write answer to stdout: ") ∷ []) e []);
  }
]

-- A heading where the stream changes from answer to thinking, or back.
abbrev pub switch_to : Bool → Text → Console → Console
switch_to thinking heading s =
    if (s.in_reasoning && thinking) || (not s.in_reasoning && not thinking)
    then s
    else record s { log = s.log ++ heading; in_reasoning = thinking }

abbrev pub thinking : Console → Console
thinking s = switch_to true (lit "[Thinking]" ++ newline) s

abbrev pub answering : Console → Console
answering s = switch_to false (newline ++ (lit "[Answer]" ++ newline)) s

abbrev pub call_text : ToolCall → Text
call_text call = call.name ++ (32 ∷ call.arguments) ++ newline

abbrev pub tool_call_line : ToolCall → Text
tool_call_line call = newline ++ (lit "[Tool call] " ++ call_text call)

abbrev pub failure_line : (Text → Text) → LegError → Text
failure_line quote l = newline ++ (lit "[leg failed] " ++ (error_text quote (as_err l) ++ newline))

-- The `switch` of streamToStdout, with strconv.Quote as `quote`.
unfoldable pub show_event : (Text → Text) → (ℕ → Option Err) → Event → Console → Console
unfolding print_answer error_text
show_event quote fails e s = elim e.kind [
  | reasoning_delta ↦ print_log e.delta (thinking s)
  | text_delta ↦ print_answer fails e.delta (answering s)
  | tool_call_end ↦ elim e.tool_call [ none ↦ s | some call ↦ print_log (tool_call_line call) s ]
  | leg_failed ↦ elim e.attempt [
    | none ↦ s
    | some a ↦ elim a.failure [ none ↦ s | some l ↦ print_log (failure_line quote l) s ]
  ]
  | _ ↦ s
]

unfoldable pub show_events : (Text → Text) → (ℕ → Option Err) → List Event → Console → Console
unfolding show_event
show_events quote fails [] s = s
show_events quote fails (e ∷ es) s = show_events quote fails es (show_event quote fails e s)

-- streamToStdout, on the events that the stream delivers
unfoldable pub stream_to_stdout : (Text → Text) → (ℕ → Option Err) → List Event → Console
unfolding show_events print_answer
stream_to_stdout quote fails es =
    print_answer fails newline (show_events quote fails es new_console)

-- reportOutcome: the error, and what it prints to stderr
unfoldable pub report_outcome : AssistantMessage → Option Err × Text
report_outcome m = elim m.stop_reason [
  | StopReason.error ↦ (some (plain (str m.error_message ∷ [])), [])
  | StopReason.aborted ↦ (some (plain (str (lit "aborted: ") ∷ str m.error_message ∷ [])), [])
  | StopReason.length_limit ↦ (none, lit "[truncated] the model hit its output limit" ++ newline)
  | _ ↦ (none, [])
]

unfoldable pub call_lines : List ToolCall → Text
call_lines [] = []
call_lines (call ∷ calls) = lit "[tool call] " ++ (call_text call ++ call_lines calls)

-- What a command ends in: its error, which sets the exit status, and what it printed.
pub record Exit : Type 0 where
  pub failure : Option Err
  pub out : Text
  pub log : Text

abbrev pub exit_with : Err → Exit
exit_with e = record { failure = some e; out = []; log = [] }

-- reportResult
unfoldable pub report_result : AssistantMessage → Exit
unfolding report_outcome call_lines
report_result m =
    let (failure, noted) = report_outcome m in
    if is_some failure then record { failure = failure; out = []; log = noted } else record {
      failure = none;
      out = if is_empty m.content then [] else m.content ++ newline;
      log =
          noted
          ++ ((if is_empty m.reasoning then [] else lit "[reasoning] " ++ (m.reasoning ++ newline))
              ++ call_lines m.tool_calls);
    }
