-- ===== src/Leg.antt =====
-- attemptLeg of smolllm/chain.go: one attempt at a model, from its preparation to the answer that
-- the guards accept or to the failure.
use smolllm_go.Prelude.{
  ℕ, Bool, true, false, not, ◌&&◌, Option, none, some, List, [], ◌∷◌, ◌++◌, ltb, if◌then◌else◌,
  is_some,
}
use smolllm_go.Prelude.Int.{ℤ, pos, ltb_ℤ}
use smolllm_go.Text.{Text, lit, text_eq, is_empty, trim_space}
use smolllm_go.Call.{PreparedCall}
use smolllm_go.Errors.{str, quoted, Err, plain, LegError, Result, ok, err, new_leg_error}
use smolllm_go.Balancer.{Balancer}
use smolllm_go.ToolCalls.{ToolCall, describe_tool_calls}
use smolllm_go.Usage.{Usage, estimate_usage}
use smolllm_go.Message.{Attempt, new_attempt}
use smolllm_go.EventStream.{tool_call_end}
use smolllm_go.Options.{Options}
use smolllm_go.Transport.{prepare_llm_call}
use smolllm_go.Sink.{ChainState, emit}
use smolllm_go.Streaming.{Wire, LegOutcome, consume_leg_stream}
use smolllm_go.Backticks.{strip_backticks}
use smolllm_go.Exchange.{World, Setting, refused, accepted, exchange}

-- failedAttempt
unfoldable pub failed_attempt : Option PreparedCall → ℕ → LegError → Option LegOutcome → Attempt
unfolding new_attempt
failed_attempt call retries l none = record (new_attempt call retries) { failure = some l }
failed_attempt call retries l (some o) =
    let a = new_attempt call retries in
    record a { usage = if o.usage.reported then o.usage.usage else a.usage; failure = some l }

abbrev pub is_empty_list : List ToolCall → Bool
is_empty_list [] = true
is_empty_list (c ∷ cs) = false

-- guardResponse; its warning for calls truncated at a declared max_tokens is a log line
unfoldable pub guard_response :
    ChainState → Options → PreparedCall → LegOutcome → Usage → Option Err
unfolding describe_tool_calls
guard_response s o call out usage =
    let trimmed = trim_space s.acc.content in
    let cut_off = text_eq out.finish_reason (lit "length") in
    let no_calls = is_empty_list out.tool_calls in
    if is_empty trimmed && is_empty (trim_space s.acc.reasoning) && no_calls
    then some
        (plain (str (lit "model ") ∷ quoted call.model ∷ str (lit " returned empty response") ∷ []))
    else if cut_off && is_empty trimmed && no_calls
    then some (
        plain (
          str (lit "model ")
          ∷ quoted call.model
          ∷ str (
              lit
                " truncated before any content (finish_reason=length, reasoning consumed the output budget)")
          ∷ []))
    else if cut_off && not no_calls && not (is_some o.max_tokens)
    then some (
        plain (
          str (lit "model ")
          ∷ quoted call.model
          ∷ str (lit " truncated mid tool call (finish_reason=length): ")
          ∷ str (describe_tool_calls out.tool_calls)
          ∷ []))
    else if ltb 0 o.min_output_tokens
        && no_calls
        && ltb_ℤ usage.output (pos o.min_output_tokens)
        && ltb 1000 call.input_tokens
    then some (
        plain (
          str (lit "model ")
          ∷ quoted call.model
          ∷ str (lit " returned suspiciously short response")
          ∷ []))
    else none

-- The loop that announces the completed calls.
unfoldable pub emit_calls : List ℤ → List ToolCall → ChainState → ChainState
emit_calls [] cs s = s
emit_calls (i ∷ is) [] s = s
emit_calls (i ∷ is) (c ∷ cs) s = emit_calls is cs (emit tool_call_end [] i (some c) none s)

module _ (c : Setting) where
  abbrev pub fail_leg :
      Option PreparedCall
      → Text
      → ℕ
      → Err
      → Option LegOutcome
      → ChainState
      → Attempt × Option LegError × ChainState
  fail_leg call model retries e o s =
      let l = new_leg_error c.rejection call model retries e in
      (failed_attempt call retries l o, some l, s)

  -- The end of attemptLeg: an accepted answer is announced, and its fences are stripped.
  unfoldable pub accept :
      PreparedCall → ℕ → LegOutcome → Usage → ChainState → Attempt × Option LegError × ChainState
  unfolding emit_calls strip_backticks new_attempt
  accept call retries out usage s =
      let t = emit_calls out.tool_indexes out.tool_calls s in
      let stripped =
        if c.options.remove_backticks
        then record t { acc = record t.acc { content = strip_backticks t.acc.content } }
        else t in
      (record (new_attempt (some call) retries) { usage = usage }, none, stripped)

  abbrev pub usage_of_leg : PreparedCall → LegOutcome → ChainState → Usage
  usage_of_leg call out s =
      if out.usage.reported
      then out.usage.usage
      else estimate_usage call.input_tokens (s.acc.content ++ s.acc.reasoning)

  -- attemptLeg behind a stream that was read without an error
  unfoldable pub judge :
      PreparedCall → Text → ℕ → LegOutcome → ChainState → Attempt × Option LegError × ChainState
  unfolding guard_response accept estimate_usage failed_attempt new_leg_error
  judge call model retries out s =
      let usage = usage_of_leg call out s in
      let t = record s { acc = record s.acc { usage = usage } } in
      elim (guard_response t c.options call out usage) [
        | some e ↦ fail_leg (some call) model retries e (some out) t
        | none ↦ accept call retries out usage t
      ]

  -- attemptLeg from the stream on
  unfoldable pub read_leg :
      PreparedCall → Text → ℕ → Wire → ChainState → Attempt × Option LegError × ChainState
  unfolding consume_leg_stream judge failed_attempt new_leg_error
  read_leg call model retries wire s =
      let (out, s₁) = consume_leg_stream c.decoders wire s in
      let t = record s₁ { acc = record s₁.acc { finish_reason = out.finish_reason } } in
      elim out.failure [
        | some e ↦ fail_leg (some call) model retries e (some out) t
        | none ↦ judge call model retries out t
      ]

  abbrev pub name_leg : PreparedCall → ChainState → ChainState
  name_leg call s = record s {
    acc = record s.acc {
      provider = call.provider.name;
      model = call.model;
      model_name = call.model_name;
    };
  }

  -- attemptLeg behind the prepared call; an `err` of `exchange` is a leg failure
  unfoldable pub send_leg :
      World → PreparedCall → Text → ℕ → ChainState → Attempt × Option LegError × ChainState
  unfolding exchange read_leg failed_attempt new_leg_error
  send_leg w call model retries s = elim (exchange c w call) [
    | refused call' e ↦ fail_leg (some call') model retries e none (name_leg call s)
    | accepted call' wire ↦ read_leg call' model retries wire (name_leg call s)
  ]

  -- newCallExecution: a request that cannot be built fails the leg too
  abbrev pub prepared : World → Result PreparedCall → Result PreparedCall
  prepared w (err e) = err e
  prepared w (ok call) = elim w.request_error [ none ↦ ok call | some e ↦ err e ]

  -- attemptLeg
  unfoldable pub attempt_leg :
      World → Balancer → Text → ℕ → ChainState → (Attempt × Option LegError × ChainState) × Balancer
  unfolding send_leg prepare_llm_call failed_attempt new_leg_error
  attempt_leg w b model retries s =
      let (call, b') = prepare_llm_call c.env c.encode c.options model b w.draw in
      (
        elim (prepared w call) [
          | err e ↦ fail_leg none model retries e none s
          | ok p ↦ send_leg w p model retries s
        ],
        b',
      )
