-- ===== src/Chain/Ends.antt =====
-- How a call ends: runChain of smolllm/chain.go.
use mathlib.Core.Path.{subst}
use smolllm_go.Prelude.{
  ◌≡◌, refl, sym, ◌∙◌, ◌≢◌, inl, inr, Bool, true, false, Option, none, some, List, [], ◌∷◌, ◌++◌,
  append-nil, All,
}
use smolllm_go.Prelude.Int.{pos}
use smolllm_go.Text.{Text}
use smolllm_go.Errors.{Disposition, retry, advance, abort, Result, errors_is, is_canceled}
use smolllm_go.Balancer.{Balancer}
use smolllm_go.Message.{StopReason, Attempt, AssistantMessage, new_message_accumulator}
use smolllm_go.EventStream.{EventKind}
use smolllm_go.EventStream.Delivery.{finish_again}
use smolllm_go.Request.{Request, validate}
use smolllm_go.Sink.{ChainState}
use smolllm_go.Exchange.{Setting}
use smolllm_go.Chain.{
  Run, run_leg, run_models, end_chain, chain_body, run_chain, finish_failed, terminal_reason,
  start_state,
}
use smolllm_go.Chain.Emission.{Open, if_keeps, Option_keeps, Result_keeps, emit-Open}
use smolllm_go.Chain.Legs.{
  Failed, Passed, IsFailure, at_most_one, Settled, Ended, Ending, finish_failed-Settled, Left, won,
  stopped, goes_on, run_leg-Left,
}

module _ (c : Setting) (mode : Bool) where
  -- What the loop over the models leaves: whether the call is over.
  data Looped : Bool → ChainState → Type 0 where
    over : {s : ChainState} → Settled mode s → Looped true s
    unfinished :
        {s : ChainState} (before : List Attempt) (last : Option Attempt)
        → All (Passed mode) before
        → All Failed (at_most_one last)
        → Open mode (before ++ at_most_one last) s
        → Looped false s

  after_leg-Looped :
      (v : Option Disposition) (r : Run) (rest : Bool × Run)
      → Left mode v r.state
      → ((trail : List Attempt)
          → All (Passed mode) trail
          → Open mode trail r.state
          → Looped rest.0 rest.1.state)
      → let x : Bool × Run = elim v [
        | none ↦ (true, r)
        | some abort ↦ (false, r)
        | some advance ↦ rest
        | some retry ↦ rest
      ] in
        Looped x.0 x.1.state
  after_leg-Looped none r rest (won w) g = over w
  after_leg-Looped (some abort) r rest (stopped b l p f o) g = unfinished b l p f o
  after_leg-Looped (some _) r rest (goes_on d b n p o) g = after d n
    where
      after :
          (d : Disposition)
          → d ≢ abort
          → let x : Bool × Run = elim (some d) [
            | none ↦ (true, r)
            | some abort ↦ (false, r)
            | some advance ↦ rest
            | some retry ↦ rest
          ] in
            Looped x.0 x.1.state
      after abort n = absurd (n refl)
      after advance n = g b p o
      after retry n = g b p o

  run_models-Looped :
      (ms : List Text) (trail : List Attempt) (r : Run)
      → All (Passed mode) trail
      → Open mode trail r.state
      → Looped (run_models c ms r).0 (run_models c ms r).1.state
  unfolding run_models
  run_models-Looped [] trail r p o =
      unfinished trail none p tt (o.0, o.1, o.2 ∙ sym (append-nil trail))
  run_models-Looped (m ∷ ms) trail r p o =
      let x = run_leg c c.options.max_retries m 0 r in
      after_leg-Looped x.0 x.1 (run_models c ms x.1)
        (run_leg-Left c mode c.options.max_retries m 0 trail r p o)
        (λ t q k. run_models-Looped ms t x.1 q k)

  terminal_reason-IsFailure : IsFailure (terminal_reason c)
  terminal_reason-IsFailure =
      Option_keeps IsFailure c.ended (inl refl)
        (λ e. if_keeps IsFailure (errors_is is_canceled e) (inr refl) (inl refl))

  end_chain-Settled : (x : Bool × Run) → Looped x.0 x.1.state → Settled mode (end_chain c x)
  unfolding end_chain
  end_chain-Settled (_, r) (over w) = w
  end_chain-Settled (_, r) (unfinished b l p f o) =
      finish_failed-Settled c mode b l (terminal_reason c) _ r.state p f terminal_reason-IsFailure o

  start-Open : Open mode [] (start_state c mode)
  unfolding new_message_accumulator
  start-Open = ((refl, refl, tt), refl, refl)

  chain_body-Settled :
      (req : Request) (models : Result (List Text)) (b : Balancer)
      → Settled mode (chain_body c req models mode b)
  unfolding chain_body
  chain_body-Settled req models b =
      let bad : (t : Text)
          → Settled mode (finish_failed c StopReason.error t (start_state c mode)) =
        λ t.
          finish_failed-Settled c mode [] none StopReason.error t (start_state c mode) tt tt
            (inl refl) start-Open in
      Option_keeps (Settled mode) (validate req)
        (Result_keeps (Settled mode) models (λ e. bad _)
          (λ ms. end_chain-Settled _ (
            run_models-Looped ms [] _ tt (
              emit-Open mode [] EventKind.start [] (pos 0) none none (start_state c mode) refl
                start-Open))))
        (λ e. bad _)

  -- A finished stream is not finished again.
  finish_failed-Settled_again :
      (reason : StopReason) (t : Text) (s : ChainState)
      → Settled mode s
      → (finish_failed c reason t s).stream ≡ s.stream
  unfolding finish_failed
  finish_failed-Settled_again reason t s (m, (f, g, h, j), e) = finish_again s.stream _ f

-- A call always ends, whatever the request, the models and the providers do: the stream has a
-- result, the queued events end in its terminal event and no event before that is terminal. Every
-- attempt of the message but the last failed with a disposition that lets the chain go on, and
-- where the call commits on output (Stream) none of these showed output to the consumer. Either
-- the last attempt succeeded and the stop reason is the one of its finish reason, or every attempt
-- failed and the stop reason is error or aborted.
pub run_chain-settles :
    (c : Setting) (req : Request) (models : Result (List Text)) (mode : Bool) (b : Balancer)
    → let s = run_chain c req models mode b in
      (m : AssistantMessage) × Ended s.stream m × Ending mode m
unfolding run_chain
run_chain-settles c req models mode b =
    let s = chain_body c req models mode b in
    let (m, e, k) = chain_body-Settled c mode req models b in
    (m, subst (λ x. Ended x m) (sym (finish_failed-Settled_again c mode _ _ s (m, e, k))) e, k)
