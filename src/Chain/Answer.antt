-- ===== src/Chain/Answer.antt =====
-- The answer that Stream shows is the message's: runLeg and runChain of smolllm/chain.go.
use mathlib.Core.Path.{subst}
use smolllm_go.Prelude.{
  ℕ, zero, suc, ◌≡◌, refl, sym, ap, ◌∙◌, ◌⊎◌, inl, inr, Bool, true, false, not, ◌&&◌, Option, none,
  some, List, [], ◌∷◌, ◌++◌, append-nil, ltb, Bool-cases,
}
use smolllm_go.Prelude.Int.{pos}
use smolllm_go.Text.{Text}
use smolllm_go.Errors.{Disposition, retry, advance, abort, LegError, Result}
use smolllm_go.Balancer.{Balancer}
use smolllm_go.Message.{
  StopReason, Attempt, AssistantMessage, new_message_accumulator, snapshot, reset_leg,
}
use smolllm_go.EventStream.{EventKind, EventStream, finish, leg_failed, new_event, terminal_kind}
use smolllm_go.EventStream.Delivery.{finish_first, finish_again}
use smolllm_go.Request.{Request, validate}
use smolllm_go.Sink.{ChainState, emit}
use smolllm_go.Exchange.{Setting}
use smolllm_go.Leg.{attempt_leg}
use smolllm_go.Chain.{
  Run, commit_failure, committed, conclude, run_attempt, run_leg, run_models, end_chain, chain_body,
  run_chain, finish_succeeded, finish_failed, start_state, terminal_reason,
}
use smolllm_go.Chain.Emission.{if_keeps, Option_keeps, Result_keeps, attempt_leg-Kept}
use smolllm_go.Chain.Legs.{commit_failure-abort}
use smolllm_go.Chain.Shown.{
  Shows, Fresh, Told, Shows-Kept, emit-Shows, shown, shown_last, text_of_event,
}

terminal_text :
    (r : StopReason) (m : AssistantMessage) → text_of_event (new_event (terminal_kind r) m) ≡ []
terminal_text StopReason.error m = refl
terminal_text StopReason.aborted m = refl
terminal_text StopReason.pending m = refl
terminal_text StopReason.stop m = refl
terminal_text StopReason.length_limit m = refl
terminal_text StopReason.tool_use m = refl

-- A call that ends with a message of its content has shown that content.
finish-Told :
    (s t : ChainState) (m : AssistantMessage)
    → Shows s
    → t.stream ≡ finish s.stream m
    → m.content ≡ s.acc.content
    → Told t
finish-Told s t m (f, c, k, h, n) e q =
    let z = finish_first s.stream m f c in
    let last = new_event (terminal_kind m.stop_reason) m in
    (
      ap (λ (x : EventStream). x.finished) (e ∙ z),
      (
        m,
        ap (λ (x : EventStream). x.result) (e ∙ z),
        ap (λ (x : EventStream). shown x.queue) (e ∙ z)
            ∙ (shown_last s.stream.queue last
                ∙ (ap (λ u. shown s.stream.queue ++ u) (terminal_text m.stop_reason m)
                    ∙ (append-nil (shown s.stream.queue) ∙ (h ∙ sym q)))),
      ),
    )

and_false : (a b : Bool) → (a && b) ≡ false → a ≡ true → b ≡ false
and_false true b e h = e
and_false false b e h = cc

-- What a failure of an attempt leaves, by whether the chain goes on.
abbrev AfterFailure : LegError → ChainState → Type 0
AfterFailure l s = Shows s × ((l.info.disposition ≡ abort) ⊎ (s.acc.content ≡ []))

-- What an attempt leaves.
abbrev AfterAttempt : Option LegError → ChainState → Type 0
AfterAttempt none s = Told s
AfterAttempt (some l) s = AfterFailure l s

-- What a leg leaves, by what it reports.
abbrev AfterLeg : Option Disposition → ChainState → Type 0
AfterLeg none s = Told s
AfterLeg (some Disposition.abort) s = Shows s
AfterLeg (some Disposition.retry) s = Fresh s
AfterLeg (some Disposition.advance) s = Fresh s

-- What the loop over the models leaves.
abbrev AfterModels : Bool → ChainState → Type 0
AfterModels true s = Told s
AfterModels false s = Shows s

module _ (c : Setting) (kept : c.options.remove_backticks ≡ false) where
  finish_failed-Told :
      (reason : StopReason) (t : Text) (s : ChainState)
      → Shows s
      → Told (finish_failed c reason t s)
  unfolding finish_failed snapshot
  finish_failed-Told reason t s h =
      let acc = record s.acc { stop_reason = reason; error_message = t } in
      finish-Told s (finish_failed c reason t s) (snapshot acc) h refl refl

  finish_succeeded-Told : (s : ChainState) → Shows s → Told (finish_succeeded c s)
  unfolding finish_succeeded snapshot
  finish_succeeded-Told s h = finish-Told s (finish_succeeded c s) _ h refl refl

  conclude-AfterAttempt :
      (a : Attempt) (f : Option LegError) (s : ChainState) (b : Balancer) (r : Run)
      → ((l : LegError) → f ≡ some l → (l.info.disposition ≡ abort) ⊎ (s.acc.content ≡ []))
      → Shows s
      → AfterAttempt (conclude c a f s b r).0 (conclude c a f s b r).1.state
  unfolding conclude emit
  conclude-AfterAttempt a none s b r g h =
      let z = record a { emitted = s.emitted; failure = none } in
      finish_succeeded-Told
        (record s { acc = record s.acc { attempts = s.acc.attempts ++ (z ∷ []) } }) h
  conclude-AfterAttempt a (some l) s b r g h =
      let z = record a { emitted = s.emitted; failure = some l } in
      let t = record s { acc = record s.acc { attempts = s.acc.attempts ++ (z ∷ []) } } in
      (emit-Shows leg_failed [] (pos 0) none (some z) t refl h, g l refl)

  committed-AfterAttempt :
      (a : Attempt) (f : Option LegError) (s : ChainState) (b : Balancer) (r : Run)
      → Shows s
      → AfterAttempt
          (conclude c a (committed c s f) s b r).0
          (conclude c a (committed c s f) s b r).1.state
  committed-AfterAttempt a none s b r h = conclude-AfterAttempt a none s b r (λ l e. cc) h
  committed-AfterAttempt a (some l) s b r h = elim (Bool-cases (s.commit_on_output && s.emitted)) [
    | inl e ↦ rw e (
        conclude-AfterAttempt a (some (commit_failure l)) s b r
          (λ k q. inl (cc (q, commit_failure-abort l))) h)
    | inr e ↦ rw e (
        conclude-AfterAttempt a (some l) s b r
          (λ k q. inr (h.4 (and_false s.commit_on_output s.emitted e h.2))) h)
  ]

  run_attempt-AfterAttempt :
      (m : Text) (n : ℕ) (r : Run)
      → Fresh r.state
      → AfterAttempt (run_attempt c m n r).0 (run_attempt c m n r).1.state
  unfolding run_attempt reset_leg
  run_attempt-AfterAttempt m n r ((f, i, k, h, u), z) =
      let s = record r.state { acc = reset_leg r.state.acc; emitted = false } in
      let x = attempt_leg c (c.world r.attempt_count) r.balancer m n s in
      committed-AfterAttempt x.0.0 x.0.1 x.0.2 x.1 r (
        attempt_leg-Kept c Shows (Shows-Kept c kept) (c.world r.attempt_count) r.balancer m n s
          (f, i, k, h ∙ z, λ e. refl))

  switch-AfterLeg :
      (f : Option LegError) (r : Run) (again : Option Disposition × Run)
      → AfterAttempt f r.state
      → (Fresh r.state → AfterLeg again.0 again.1.state)
      → let x : Option Disposition × Run = elim f [
        | none ↦ (none, r)
        | some l ↦ elim l.info.disposition [
          | retry ↦ again
          | abort ↦ (some abort, r)
          | advance ↦ (some advance, r)
        ]
      ] in
        AfterLeg x.0 x.1.state
  switch-AfterLeg none r again h g = h
  switch-AfterLeg (some l) r again (h, inl e) g = rw e h
  switch-AfterLeg (some l) r again (h, inr z) g = by_disposition l.info.disposition
    where
      by_disposition :
          (d : Disposition)
          → let x : Option Disposition × Run = elim d [
            | retry ↦ again
            | abort ↦ (some abort, r)
            | advance ↦ (some advance, r)
          ] in
            AfterLeg x.0 x.1.state
      by_disposition retry = g (h, z)
      by_disposition abort = h
      by_disposition advance = (h, z)

  run_leg-AfterLeg :
      (left : ℕ) (m : Text) (n : ℕ) (r : Run)
      → Fresh r.state
      → AfterLeg (run_leg c left m n r).0 (run_leg c left m n r).1.state
  unfolding run_leg
  run_leg-AfterLeg zero m n r h = h
  run_leg-AfterLeg (suc left) m n r h =
      let x = run_attempt c m n r in
      if_keeps (λ (x : Option Disposition × Run). AfterLeg x.0 x.1.state)
        (ltb 0 n && not (c.world r.attempt_count).waited) h.0
        (if_keeps (λ (x : Option Disposition × Run). AfterLeg x.0 x.1.state)
          (ltb 0 n && (ltb 0 c.options.leg_budget && (c.world r.attempt_count).budget_spent)) h
          (switch-AfterLeg x.0 x.1 (run_leg c left m (suc n) x.1) (run_attempt-AfterAttempt m n r h)
            (λ k. run_leg-AfterLeg left m (suc n) x.1 k)))

  leg_end-AfterModels :
      (v : Option Disposition) (r : Run) (rest : Bool × Run)
      → AfterLeg v r.state
      → (Fresh r.state → AfterModels rest.0 rest.1.state)
      → let x : Bool × Run = elim v [
        | none ↦ (true, r)
        | some abort ↦ (false, r)
        | some advance ↦ rest
        | some retry ↦ rest
      ] in
        AfterModels x.0 x.1.state
  leg_end-AfterModels none r rest h g = h
  leg_end-AfterModels (some Disposition.abort) r rest h g = h
  leg_end-AfterModels (some Disposition.retry) r rest h g = g h
  leg_end-AfterModels (some Disposition.advance) r rest h g = g h

  run_models-AfterModels :
      (ms : List Text) (r : Run)
      → Fresh r.state
      → AfterModels (run_models c ms r).0 (run_models c ms r).1.state
  unfolding run_models
  run_models-AfterModels [] r h = h.0
  run_models-AfterModels (m ∷ ms) r h =
      let x = run_leg c c.options.max_retries m 0 r in
      leg_end-AfterModels x.0 x.1 (run_models c ms x.1)
        (run_leg-AfterLeg c.options.max_retries m 0 r h) (λ k. run_models-AfterModels ms x.1 k)

  end_chain-Told : (x : Bool × Run) → AfterModels x.0 x.1.state → Told (end_chain c x)
  unfolding end_chain
  end_chain-Told (true, r) h = h
  end_chain-Told (false, r) h = finish_failed-Told (terminal_reason c) _ r.state h

  start-Shows : Shows (start_state c true)
  unfolding new_message_accumulator shown
  start-Shows = (refl, refl, refl, refl, λ e. refl)

  chain_body-Told :
      (req : Request) (models : Result (List Text)) (b : Balancer)
      → Told (chain_body c req models true b)
  unfolding chain_body emit
  chain_body-Told req models b =
      let bad : (t : Text) → Told (finish_failed c StopReason.error t (start_state c true)) =
        λ t. finish_failed-Told StopReason.error t (start_state c true) start-Shows in
      Option_keeps Told (validate req)
        (Result_keeps Told models (λ e. bad _)
          (λ ms. end_chain-Told _ (
            run_models-AfterModels ms _ (
              emit-Shows EventKind.start [] (pos 0) none none (start_state c true) refl start-Shows,
              start_content,
            ))))
        (λ e. bad _)
    where
      start_content :
          (emit EventKind.start [] (pos 0) none none (start_state c true)).acc.content ≡ []
      start_content = refl

-- Stream never splices two answers together: where no fences are stripped, the answer text of all
-- the events of a call that commits on output is the content of its terminal message, whichever
-- models were tried and whether the call succeeded or failed.
pub run_chain-shown :
    (c : Setting) (req : Request) (models : Result (List Text)) (b : Balancer)
    → c.options.remove_backticks ≡ false
    → let s = run_chain c req models true b in
      (m : AssistantMessage) × (s.stream.result ≡ some m) × (shown s.stream.queue ≡ m.content)
unfolding run_chain finish_failed
run_chain-shown c req models b k =
    let s = chain_body c req models true b in
    let (f, t) = chain_body-Told c k req models b in
    subst
      (λ (x : EventStream).
        (m : AssistantMessage) × (x.result ≡ some m) × (shown x.queue ≡ m.content))
      (sym (finish_again s.stream _ f)) t
