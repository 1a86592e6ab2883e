-- ===== src/Exchange.antt =====
-- The part of smolllm/transport.go that sends a leg's request, and httpError of smolllm/errors.go.
-- What is outside the program enters as a `World` for each attempt: the draw of the balancer, what
-- the transport and the provider give, and what the clock and the context say.
use smolllm_go.Prelude.{ℕ, Bool, Option, none, some, [], ◌∷◌, ◌++◌, map, leb, ◌==◌, if◌then◌else◌}
use smolllm_go.Text.{Text, lit, text_eq, is_empty, trim_space, lower_byte}
use smolllm_go.Call.{PreparedCall}
use smolllm_go.Errors.{
  str, quoted, Message, Err, canceled, leg_budget_exceeded, http, plain, wrap, Result, ok, err,
  ErrorDecoder,
}
use smolllm_go.Usage.{estimate_tokens}
use smolllm_go.Options.{Options}
use smolllm_go.Transport.{Env, Encoder}
use smolllm_go.Streaming.{Decoders, Wire}

-- http.Response, as the program reads it
pub record Response : Type 0 where
  pub status : ℕ
  pub should_retry : Text
  pub body : Text
  pub read_error : Option Text
  pub wire : Wire

-- What one attempt meets. `second` answers a request that is repeated without stream_options;
-- `budget_fired` is whether the timer of the budget fired, `budget_is_cause` whether it is the cause
-- of the cancelled context, which a caller that cancelled first is instead.
pub record World : Type 0 where
  pub waited : Bool
  pub budget_spent : Bool
  pub draw : ℕ
  pub request_error : Option Err
  pub first : Result Response
  pub second : Result Response
  pub budget_fired : Bool
  pub budget_is_cause : Bool

-- What a call is given: the environment, the codecs, the options and what it meets, an attempt
-- after the other. `without_usage` is json's part of requestBodyWithoutStreamUsage, `none` where
-- the body has no stream_options; `ended` is the context's error at the end of the chain.
pub record Setting : Type 0 where
  pub env : Env
  pub encode : Encoder
  pub decoders : Decoders
  pub rejection : ErrorDecoder
  pub without_usage : Text → Result (Option Text)
  pub status_text : ℕ → Text
  pub quote : Text → Text
  pub options : Options
  pub hooked : Bool
  pub world : ℕ → World
  pub ended : Option Err

abbrev pub same_fold : Text → Text → Bool
same_fold a b = text_eq (map lower_byte a) (map lower_byte b)

-- httpError of smolllm/errors.go
unfoldable pub http_error : (ℕ → Text) → Response → Err
http_error status_text r =
    let no_retry = same_fold (trim_space r.should_retry) (lit "false") in
    let message = trim_space r.body in
    elim r.read_error [
      | some e ↦
          http
            (record { status_code = r.status; body = lit "read body: " ++ e; no_retry = no_retry })
      | none ↦ http (record {
        status_code = r.status;
        body = if is_empty message then status_text r.status else message;
        no_retry = no_retry;
      })
    ]

-- budgetCause
unfoldable pub budget_cause : World → Err → Err
budget_cause w e =
    if w.budget_is_cause then wrap [] leg_budget_exceeded (str (lit " (budget)") ∷ []) else e

-- What the exchange of an attempt ends in: an error, or a response to read, with the call as a
-- repeated request leaves it.
pub data Exchange : Type 0 where
  refused : PreparedCall → Err → Exchange
  accepted : PreparedCall → Wire → Exchange

abbrev pub is_failure : ℕ → Bool
is_failure status = leb 400 status

module _ (c : Setting) where
  -- The checks on the response that is current.
  unfoldable pub settle : World → PreparedCall → Response → Exchange
  unfolding http_error budget_cause
  settle w call r =
      if is_failure r.status
      then refused call (budget_cause w (http_error c.status_text r))
      else if w.budget_fired
      then refused call (budget_cause w canceled)
      else accepted call r.wire

  abbrev quoted_body : Text → Message
  quoted_body body =
      str (lit "retry without stream_options failed after original HTTP 400 response ")
      ∷ quoted body
      ∷ str (lit ": ")
      ∷ []

  -- The repeated request of retryWithoutStreamUsage.
  unfoldable pub repeat : World → PreparedCall → Response → Text → Exchange
  unfolding settle estimate_tokens
  repeat w call r body = elim r.read_error [
    | some e ↦ refused call (
        budget_cause w (
          wrap (str (lit "read original stream_options rejection body: ") ∷ []) (plain (str e ∷ []))
            []))
    | none ↦
        let call' = record call { body = body; input_tokens = estimate_tokens body } in
        elim w.second [
          | err e ↦ refused call' (budget_cause w (wrap (quoted_body r.body) e []))
          | ok r' ↦ settle w call' r'
        ]
  ]

  -- retryWithoutStreamUsage, which acts on a 400 only, and what follows it in attemptLeg
  unfoldable pub answer : World → PreparedCall → Response → Exchange
  unfolding repeat
  answer w call r =
      if r.status == 400
      then elim (c.without_usage call.body) [
        | err e ↦ refused call (budget_cause w e)
        | ok none ↦ settle w call r
        | ok (some body) ↦ repeat w call r body
      ]
      else settle w call r

  -- exec.do and the rest up to the stream
  unfoldable pub exchange : World → PreparedCall → Exchange
  unfolding answer
  exchange w call = elim w.first [
    | err e ↦ refused call (budget_cause w e)
    | ok r ↦ answer w call r
  ]
