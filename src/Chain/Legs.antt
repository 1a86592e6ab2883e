-- ===== src/Chain/Legs.antt =====
-- How a leg, and the chain of legs, end: runLeg and runChain of smolllm/chain.go.
use mathlib.Core.Path.{subst}
use smolllm_go.Prelude.{
  ℕ, zero, suc, ◌≡◌, refl, sym, ap, ◌∙◌, ◌≢◌, ◌⊎◌, inl, inr, Bool, true, false, not, ◌&&◌, Option,
  none, some, List, [], ◌∷◌, ◌++◌, append-nil, arith, ltb, Bool-cases, All, All-append,
}
use smolllm_go.Prelude.Int.{pos}
use smolllm_go.Text.{Text}
use smolllm_go.Errors.{Disposition, retry, advance, abort, LegError}
use smolllm_go.Balancer.{Balancer}
use smolllm_go.Message.{StopReason, Attempt, AssistantMessage, stop_reason_for, snapshot, reset_leg}
use smolllm_go.EventStream.{EventStream, finish, leg_failed}
use smolllm_go.EventStream.Delivery.{EndsWith, finish_first}
use smolllm_go.Sink.{ChainState}
use smolllm_go.Exchange.{Setting}
use smolllm_go.Leg.{attempt_leg}
use smolllm_go.Chain.{
  Run, commit_failure, committed, conclude, run_attempt, run_leg, finish_succeeded, finish_failed,
}
use smolllm_go.Chain.Emission.{Runs, Open, if_keeps, emit-Open, Open-Kept, attempt_leg-Kept}

-- An attempt that failed.
abbrev pub Failed : Attempt → Type 0
Failed a = (l : LegError) × (a.failure ≡ some l)

-- An attempt that the chain went on from: it failed, its failure does not end the chain, and where
-- the call commits on output none of its output reached a consumer.
abbrev pub Passed : Bool → Attempt → Type 0
Passed mode a =
    (l : LegError) × (a.failure ≡ some l)
    × (l.info.disposition ≢ abort)
    × (mode ≡ true → a.emitted ≡ false)

abbrev pub IsFailure : StopReason → Type 0
IsFailure r = (r ≡ StopReason.error) ⊎ (r ≡ StopReason.aborted)

abbrev pub at_most_one : Option Attempt → List Attempt
at_most_one none = []
at_most_one (some a) = a ∷ []

-- How a call ends: with the answer of its last attempt, or in a failure where every attempt failed.
-- The chain went on from every attempt but the last.
pub data Ending (mode : Bool) (m : AssistantMessage) : Type 0 where
  answered :
      (before : List Attempt) (a : Attempt)
      → All (Passed mode) before
      → a.failure ≡ none
      → m.attempts ≡ before ++ (a ∷ [])
      → m.stop_reason ≡ stop_reason_for m.finish_reason m.tool_calls
      → Ending mode m
  failed :
      (before : List Attempt) (last : Option Attempt)
      → All (Passed mode) before
      → All Failed (at_most_one last)
      → m.attempts ≡ before ++ at_most_one last
      → IsFailure m.stop_reason
      → Ending mode m

-- A stream that the message ended.
abbrev pub Ended : EventStream → AssistantMessage → Type 0
Ended s m = (s.finished ≡ true) × (s.ended ≡ true) × (s.result ≡ some m) × EndsWith s.queue m

-- A state whose stream is over, with the message that ended it.
abbrev pub Settled : Bool → ChainState → Type 0
Settled mode s = (m : AssistantMessage) × Ended s.stream m × Ending mode m

finish-Ended : (s : EventStream) (m : AssistantMessage) → Runs s → Ended (finish s m) m
finish-Ended s m (f, c, n) =
    subst (λ x. Ended x m) (sym (finish_first s m f c))
      (refl, refl, refl, record { before = s.queue; splits = refl; clean = n })

Disposition-cases : (d : Disposition) → (d ≡ abort) ⊎ ((d ≡ retry) ⊎ (d ≡ advance))
Disposition-cases abort = inl refl
Disposition-cases retry = inr (inl refl)
Disposition-cases advance = inr (inr refl)

finish_succeeded-Settled :
    (c : Setting) (mode : Bool) (before : List Attempt) (a : Attempt) (s : ChainState)
    → All (Passed mode) before
    → a.failure ≡ none
    → Open mode (before ++ (a ∷ [])) s
    → Settled mode (finish_succeeded c s)
unfolding finish_succeeded snapshot
finish_succeeded-Settled c mode before a s p f (r, k, h) =
    (_, finish-Ended s.stream _ r, answered before a p f h refl)

pub finish_failed-Settled :
    (c : Setting) (mode : Bool) (before : List Attempt) (last : Option Attempt)
    (reason : StopReason) (t : Text) (s : ChainState)
    → All (Passed mode) before
    → All Failed (at_most_one last)
    → IsFailure reason
    → Open mode (before ++ at_most_one last) s
    → Settled mode (finish_failed c reason t s)
unfolding finish_failed snapshot
finish_failed-Settled c mode before last reason t s p f i (r, k, h) =
    (_, finish-Ended s.stream _ r, failed before last p f h i)

pub commit_failure-abort : (l : LegError) → (commit_failure l).info.disposition ≡ abort
unfolding commit_failure
commit_failure-abort l = ground arith

-- What an attempt leaves.
data Tried (mode : Bool) (trail : List Attempt) : Option LegError → ChainState → Type 0 where
  accepted : {s : ChainState} → Settled mode s → Tried mode trail none s
  rejected :
      {s : ChainState} (l : LegError) (a : Attempt)
      → a.failure ≡ some l
      → (mode ≡ true → a.emitted ≡ true → l.info.disposition ≡ abort)
      → Open mode (trail ++ (a ∷ [])) s
      → Tried mode trail (some l) s

-- What a leg leaves, by what it reports.
pub data Left (mode : Bool) : Option Disposition → ChainState → Type 0 where
  won : {s : ChainState} → Settled mode s → Left mode none s
  stopped :
      {s : ChainState} (before : List Attempt) (last : Option Attempt)
      → All (Passed mode) before
      → All Failed (at_most_one last)
      → Open mode (before ++ at_most_one last) s
      → Left mode (some abort) s
  goes_on :
      {s : ChainState} (d : Disposition) (before : List Attempt)
      → d ≢ abort
      → All (Passed mode) before
      → Open mode before s
      → Left mode (some d) s

module _ (c : Setting) (mode : Bool) where
  conclude-Tried :
      (trail : List Attempt) (a : Attempt) (f : Option LegError) (s : ChainState) (b : Balancer)
      (r : Run)
      → All (Passed mode) trail
      → ((l : LegError) → f ≡ some l → mode ≡ true → s.emitted ≡ true → l.info.disposition ≡ abort)
      → Open mode trail s
      → Tried mode trail (conclude c a f s b r).0 (conclude c a f s b r).1.state
  unfolding conclude
  conclude-Tried trail a none s b r p g (x, k, h) =
      let z = record a { emitted = s.emitted; failure = none } in
      let t = record s { acc = record s.acc { attempts = s.acc.attempts ++ (z ∷ []) } } in
      accepted (finish_succeeded-Settled c mode trail z t p refl (x, k, ap (λ y. y ++ (z ∷ [])) h))
  conclude-Tried trail a (some l) s b r p g (x, k, h) =
      let z = record a { emitted = s.emitted; failure = some l } in
      rejected l z refl (g l refl) (
        emit-Open mode (trail ++ (z ∷ [])) leg_failed [] (pos 0) none (some z)
          (record s { acc = record s.acc { attempts = s.acc.attempts ++ (z ∷ []) } }) refl
          (x, k, ap (λ y. y ++ (z ∷ [])) h))

  committed-Tried :
      (trail : List Attempt) (a : Attempt) (f : Option LegError) (s : ChainState) (b : Balancer)
      (r : Run)
      → All (Passed mode) trail
      → Open mode trail s
      → Tried mode trail
          (conclude c a (committed c s f) s b r).0
          (conclude c a (committed c s f) s b r).1.state
  committed-Tried trail a none s b r p h = conclude-Tried trail a none s b r p (λ l e. cc) h
  committed-Tried trail a (some l) s b r p h = elim (Bool-cases (s.commit_on_output && s.emitted)) [
    | inl e ↦ rw e (
        conclude-Tried trail a (some (commit_failure l)) s b r p
          (λ k q u v. cc (q, commit_failure-abort l)) h)
    | inr e ↦ rw e (conclude-Tried trail a (some l) s b r p (λ k q u v. cc (e, u, v, h.1)) h)
  ]

  run_attempt-Tried :
      (m : Text) (n : ℕ) (trail : List Attempt) (r : Run)
      → All (Passed mode) trail
      → Open mode trail r.state
      → Tried mode trail (run_attempt c m n r).0 (run_attempt c m n r).1.state
  unfolding run_attempt reset_leg
  run_attempt-Tried m n trail r p h =
      let s = record r.state { acc = reset_leg r.state.acc; emitted = false } in
      let x = attempt_leg c (c.world r.attempt_count) r.balancer m n s in
      committed-Tried trail x.0.0 x.0.1 x.0.2 x.1 r p (
        attempt_leg-Kept c (Open mode trail) (Open-Kept c mode trail) (c.world r.attempt_count)
          r.balancer m n s h)

  -- A failed attempt that the disposition goes on from has passed.
  Tried-Passed :
      (trail : List Attempt) (l : LegError) (a : Attempt)
      → All (Passed mode) trail
      → a.failure ≡ some l
      → (mode ≡ true → a.emitted ≡ true → l.info.disposition ≡ abort)
      → l.info.disposition ≢ abort
      → All (Passed mode) (trail ++ (a ∷ []))
  Tried-Passed trail l a p e g n =
      All-append (Passed mode) trail (a ∷ []) p ((l, e, n, λ k. unsent k), tt)
    where
      unsent : mode ≡ true → a.emitted ≡ false
      unsent k = elim (Bool-cases a.emitted) [ inl t ↦ absurd (n (g k t)) | inr f ↦ f ]

  -- The switch of runLeg on the disposition of a failure, where a retry goes well.
  switch-Left :
      (trail : List Attempt) (f : Option LegError) (r' : Run) (again : Option Disposition × Run)
      → All (Passed mode) trail
      → Tried mode trail f r'.state
      → ((before : List Attempt)
          → All (Passed mode) before
          → Open mode before r'.state
          → Left mode again.0 again.1.state)
      → let x : Option Disposition × Run = elim f [
        | none ↦ (none, r')
        | some l ↦ elim l.info.disposition [
          | retry ↦ again
          | abort ↦ (some abort, r')
          | advance ↦ (some advance, r')
        ]
      ] in
        Left mode x.0 x.1.state
  switch-Left trail none r' again p (accepted w) g = won w
  switch-Left trail (some _) r' again p (rejected l a e k o) g =
      elim (Disposition-cases l.info.disposition) [
        | inl d ↦ rw d (stopped trail (some a) p ((l, e), tt) o)
        | inr (inl d) ↦ rw d (g _ (Tried-Passed trail l a p e k (λ z. cc)) o)
        | inr (inr d) ↦
            rw d (goes_on advance _ (λ z. cc) (Tried-Passed trail l a p e k (λ z. cc)) o)
      ]

  pub run_leg-Left :
      (left : ℕ) (m : Text) (n : ℕ) (trail : List Attempt) (r : Run)
      → All (Passed mode) trail
      → Open mode trail r.state
      → Left mode (run_leg c left m n r).0 (run_leg c left m n r).1.state
  unfolding run_leg
  run_leg-Left zero m n trail r p o = goes_on advance trail (λ z. cc) p o
  run_leg-Left (suc left) m n trail r p o =
      let x = run_attempt c m n r in
      if_keeps (λ (x : Option Disposition × Run). Left mode x.0 x.1.state)
        (ltb 0 n && not (c.world r.attempt_count).waited)
        (stopped trail none p tt (o.0, o.1, o.2 ∙ sym (append-nil trail)))
        (if_keeps (λ (x : Option Disposition × Run). Left mode x.0 x.1.state)
          (ltb 0 n && (ltb 0 c.options.leg_budget && (c.world r.attempt_count).budget_spent))
          (goes_on advance trail (λ z. cc) p o)
          (switch-Left trail x.0 x.1 (run_leg c left m (suc n) x.1) p
            (run_attempt-Tried m n trail r p o)
            (λ before q k. run_leg-Left left m (suc n) before x.1 q k)))
