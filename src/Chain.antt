-- ===== src/Chain.antt =====
-- runLeg and runChain of smolllm/chain.go: the retries of a leg, the fallback from model to model, and
-- how a call ends.
use smolllm_go.Prelude.{
  Elem, Elem-append, get_or, Elem-get_or, ℕ, zero, suc, ◌+◌, ◌-◌, ◌*◌, ◌/◌, ◌%◌, ◌^◌, ◌≤◌, ◌<◌, min,
  ◌≡◌, refl, sym, ap, ◌∙◌, ◌≢◌, ◌↔◌, ◌⊎◌, inl, inr, Bool, true, false, not, ◌&&◌, ◌||◌, Option,
  none, some, List, [], ◌∷◌, ◌++◌, map, append-nil, append_assoc, arith, ltb, leb, ◌==◌,
  if◌then◌else◌, ==_iff, ==_refl, Bool-cases, Option-cases, is_some, length, get_elem?, take, drop,
  length-append, take-append-drop, length-drop, drop-length, length-map, All, All-append,
}
use smolllm_go.Prelude.Int.{ℤ, pos, ltb_ℤ}
use smolllm_go.Text.{
  Text, lit, text_eq, is_empty, has_prefix, has_suffix, trim_space, trim_left, trim_right,
  trim_suffix, split, join, index, lower_byte, upper_byte, itoa,
}
use smolllm_go.Call.{PreparedCall}
use smolllm_go.Errors.{
  Piece, str, quoted, num, Message, HttpError, Disposition, retry, advance, abort, LegInfo, Err,
  canceled, deadline_exceeded, leg_budget_exceeded, http, plain, wrap, leg, joined, LegError,
  as_err, Result, ok, err, ◌>>=◌, context, errors_is, is_canceled, is_deadline, is_leg_budget,
  as_http, as_leg, ErrorDecoder, leg_local_rejection, classify_http, classify, new_leg_error,
  as_leg_error, join_leg_errors, error_text,
}
use smolllm_go.Balancer.{Balancer}
use smolllm_go.ToolCalls.{ToolCall, result, describe_tool_calls}
use smolllm_go.Usage.{Usage, ReportedUsage, estimate_usage, estimate_tokens}
use smolllm_go.Message.{
  StopReason, Attempt, new_attempt, MessageAccumulator, AssistantMessage, new_message_accumulator,
  reset_leg, snapshot, stop_reason_for,
}
use smolllm_go.EventStream.{
  EventKind, EventStream, new_event_stream, tool_call_end, leg_failed, finish,
}
use smolllm_go.Options.{Options}
use smolllm_go.Transport.{Env, Encoder, prepare_llm_call}
use smolllm_go.Request.{Request, validate}
use smolllm_go.Sink.{ChainState, emit}
use smolllm_go.Streaming.{Decoders, Wire, LegOutcome, consume_leg_stream}
use smolllm_go.Backticks.{strip_backticks}
use smolllm_go.Exchange.{World, Setting}
use smolllm_go.Leg.{attempt_leg}
pub mod Emission
pub mod Legs
pub mod Ends
pub mod Bounds
pub mod Guards
pub mod Tests
pub mod Shown
pub mod Answer

-- The state of a call: what runChain, the client's balancer and the hook hold.
pub record Run : Type 0 where
  pub state : ChainState
  pub balancer : Balancer
  pub attempt_count : ℕ
  pub leg_errors : List Err
  pub hook_log : List Attempt

-- commitFailure
unfoldable pub commit_failure : LegError → LegError
commit_failure l = elim l.info.disposition [
  | abort ↦ l
  | _ ↦ record {
    info = record l.info { disposition = abort };
    cause =
        wrap [] l.cause (str (lit " (output already emitted, so the chain did not advance)") ∷ []);
  }
]

module _ (c : Setting) where
  -- finishSucceeded
  unfoldable pub finish_succeeded : ChainState → ChainState
  unfolding finish snapshot stop_reason_for result
  finish_succeeded s =
      let acc = record s.acc {
        stop_reason = stop_reason_for s.acc.finish_reason (result s.acc.tools);
        error_message = [];
      } in
      record s { acc = acc; stream = finish s.stream (snapshot acc) }

  -- finishFailed
  unfoldable pub finish_failed : StopReason → Text → ChainState → ChainState
  unfolding finish snapshot
  finish_failed reason message s =
      let acc = record s.acc { stop_reason = reason; error_message = message } in
      record s { acc = acc; stream = finish s.stream (snapshot acc) }

  -- terminalReason
  abbrev pub terminal_reason : StopReason
  terminal_reason = elim c.ended [
    | none ↦ StopReason.error
    | some e ↦ if errors_is is_canceled e then StopReason.aborted else StopReason.error
  ]

  -- What runLeg reports: the call finished, or what to do next.
  abbrev pub Verdict : Type 0
  Verdict = Option Disposition

  -- The failure of an attempt, committed where output has reached a consumer.
  abbrev pub committed : ChainState → Option LegError → Option LegError
  committed s none = none
  committed s (some l) = if s.commit_on_output && s.emitted then some (commit_failure l) else some l

  -- What runLeg does with an attempt that is over: it is recorded, reported to the hook, and the
  -- call ends or the failure becomes an event.
  unfoldable pub conclude :
      Attempt → Option LegError → ChainState → Balancer → Run → Option LegError × Run
  unfolding finish_succeeded
  conclude a₀ failure s b r =
      let a = record a₀ { emitted = s.emitted; failure = failure } in
      let t = record s { acc = record s.acc { attempts = s.acc.attempts ++ (a ∷ []) } } in
      let state : ChainState = elim failure [
        | none ↦ finish_succeeded t
        | some l ↦ emit leg_failed [] (pos 0) none (some a) t
      ] in
      let errors : List Err = elim failure [
        | none ↦ r.leg_errors
        | some l ↦ r.leg_errors ++ (as_err l ∷ [])
      ] in
      (
        failure,
        record {
          state = state;
          balancer = b;
          attempt_count = suc r.attempt_count;
          leg_errors = errors;
          hook_log = if c.hooked then r.hook_log ++ (a ∷ []) else r.hook_log;
        },
      )

  -- One round of the loop of runLeg, without the switch on the disposition.
  unfoldable pub run_attempt : Text → ℕ → Run → Option LegError × Run
  unfolding attempt_leg reset_leg commit_failure conclude
  run_attempt model retries r =
      let s₀ = record r.state { acc = reset_leg r.state.acc; emitted = false } in
      let ((a, failure, s), b) =
        attempt_leg c (c.world r.attempt_count) r.balancer model retries s₀ in
      conclude a (committed s failure) s b r

  -- runLeg: `retries` counts up while `left` counts down from opts.MaxRetries
  unfoldable pub run_leg : ℕ → Text → ℕ → Run → Verdict × Run
  unfolding run_attempt
  run_leg zero model retries r = (some advance, r)
  run_leg (suc left) model retries r =
      let w = c.world r.attempt_count in
      let (failure, r') = run_attempt model retries r in
      let again = run_leg left model (suc retries) r' in
      let decided : Verdict × Run = elim failure [
        | none ↦ (none, r')
        | some l ↦ elim l.info.disposition [
          | retry ↦ again
          | abort ↦ (some abort, r')
          | advance ↦ (some advance, r')
        ]
      ] in
      if ltb 0 retries && not w.waited
      then (some abort, r)
      else if ltb 0 retries && (ltb 0 c.options.leg_budget && w.budget_spent)
      then (some advance, r)
      else decided

  -- The loop of runChain over the models that the selector hands out: whether the call finished
  unfoldable pub run_models : List Text → Run → Bool × Run
  unfolding run_leg
  run_models [] r = (false, r)
  run_models (m ∷ ms) r =
      let (verdict, r') = run_leg c.options.max_retries m 0 r in
      let rest = run_models ms r' in
      elim verdict [
        | none ↦ (true, r')
        | some abort ↦ (false, r')
        | some advance ↦ rest
        | some retry ↦ rest
      ]

  abbrev pub start_state : Bool → ChainState
  start_state commit = record {
    acc = new_message_accumulator;
    stream = new_event_stream;
    commit_on_output = commit;
    emitted = false;
  }

  -- The end of runChain where the loop did not finish the call.
  unfoldable pub end_chain : Bool × Run → ChainState
  unfolding finish_failed error_text join_leg_errors
  end_chain (true, r) = r.state
  end_chain (false, r) =
      finish_failed terminal_reason (error_text c.quote (join_leg_errors r.leg_errors)) r.state

  -- runChain without its deferred finishFailed. `models` is what the selector hands out, or the
  -- error of createSelector.
  unfoldable pub chain_body : Request → Result (List Text) → Bool → Balancer → ChainState
  unfolding validate run_models end_chain new_message_accumulator
  chain_body req models commit b = elim (validate req) [
    | some e ↦ finish_failed StopReason.error (error_text c.quote e) (start_state commit)
    | none ↦ elim models [
      | err e ↦ finish_failed StopReason.error (error_text c.quote e) (start_state commit)
      | ok ms ↦
          let s = emit EventKind.start [] (pos 0) none none (start_state commit) in
          end_chain (
            run_models ms (record {
              state = s;
              balancer = b;
              attempt_count = 0;
              leg_errors = [];
              hook_log = [];
            }))
    ]
  ]

  -- runChain: the deferred call finishes a stream that nothing has finished
  unfoldable pub run_chain : Request → Result (List Text) → Bool → Balancer → ChainState
  unfolding chain_body finish_failed
  run_chain req models commit b =
      finish_failed terminal_reason (lit "chain ended without a result")
        (chain_body req models commit b)
