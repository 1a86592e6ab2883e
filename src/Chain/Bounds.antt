-- ===== src/Chain/Bounds.antt =====
-- How many attempts a call makes: runLeg and runChain of smolllm/chain.go.
use smolllm_go.Prelude.{
  ℕ, zero, suc, ◌+◌, ◌*◌, ◌≤◌, ◌≡◌, refl, Bool, true, false, not, ◌&&◌, Option, none, some, List,
  [], ◌∷◌, arith, ltb, length,
}
use smolllm_go.Text.{Text}
use smolllm_go.Errors.{Disposition, retry, advance, abort, LegError}
use smolllm_go.Exchange.{Setting}
use smolllm_go.Chain.{Run, conclude, run_attempt, run_leg, run_models}
use smolllm_go.Chain.Emission.{if_keeps}

module _ (c : Setting) where
  run_attempt-count :
      (m : Text) (n : ℕ) (r : Run) → (run_attempt c m n r).1.attempt_count ≡ suc r.attempt_count
  unfolding run_attempt conclude
  run_attempt-count m n r = refl

  switch-count :
      (f : Option LegError) (r : Run) (again : Option Disposition × Run) (k : ℕ)
      → r.attempt_count ≤ k
      → again.1.attempt_count ≤ k
      → let x : Option Disposition × Run = elim f [
        | none ↦ (none, r)
        | some l ↦ elim l.info.disposition [
          | retry ↦ again
          | abort ↦ (some abort, r)
          | advance ↦ (some advance, r)
        ]
      ] in
        x.1.attempt_count ≤ k
  switch-count f r again k h g = ground arith

  -- A leg makes at most as many attempts as it has retries left.
  pub run_leg-count :
      (left : ℕ) (m : Text) (n : ℕ) (r : Run)
      → (run_leg c left m n r).1.attempt_count ≤ r.attempt_count + left
  unfolding run_leg
  run_leg-count zero m n r = omega arith
  run_leg-count (suc left) m n r =
      let x = run_attempt c m n r in
      let ih = run_leg-count left m (suc n) x.1 in
      let e = run_attempt-count m n r in
      let bound = r.attempt_count + suc left in
      let here : r.attempt_count ≤ bound = omega arith in
      let w = c.world r.attempt_count in
      if_keeps (λ (x : Option Disposition × Run). x.1.attempt_count ≤ bound)
        (ltb 0 n && not w.waited) {then_part = (some abort, r)} here
        (if_keeps (λ (x : Option Disposition × Run). x.1.attempt_count ≤ bound)
          (ltb 0 n && (ltb 0 c.options.leg_budget && w.budget_spent))
          {then_part = (some advance, r)} here
          (switch-count x.0 x.1 (run_leg c left m (suc n) x.1) bound (omega (arith, e))
            (omega (arith, e, ih))))

  run_models-total :
      (ms : List Text) (r : Run)
      → (run_models c ms r).1.attempt_count ≤ r.attempt_count + length ms * c.options.max_retries
  unfolding run_models
  run_models-total [] r = omega arith
  run_models-total (m ∷ ms) r =
      let x = run_leg c c.options.max_retries m 0 r in
      let h = run_leg-count c.options.max_retries m 0 r in
      let ih = run_models-total ms x.1 in
      after x.0 x.1 (run_models c ms x.1) (omega (arith, h)) (omega (arith, h, ih))
    where
      after :
          (v : Option Disposition) (q : Run) (rest : Bool × Run)
          → q.attempt_count ≤ r.attempt_count + length (m ∷ ms) * c.options.max_retries
          → rest.1.attempt_count ≤ r.attempt_count + length (m ∷ ms) * c.options.max_retries
          → let x : Bool × Run = elim v [
            | none ↦ (true, q)
            | some abort ↦ (false, q)
            | some advance ↦ rest
            | some retry ↦ rest
          ] in
            x.1.attempt_count ≤ r.attempt_count + length (m ∷ ms) * c.options.max_retries
      after none q rest h g = h
      after (some abort) q rest h g = h
      after (some advance) q rest h g = g
      after (some retry) q rest h g = g

  -- Whatever the providers do, each model is given at most MaxRetries attempts from wherever the call
  -- stands, and a call over k models makes at most k times that many.
  pub run_models-count :
      (ms : List Text) (r : Run)
      → ((m : Text) (q : Run)
          → (run_leg c c.options.max_retries m 0 q).1.attempt_count
            ≤ q.attempt_count + c.options.max_retries)
        × ((run_models c ms r).1.attempt_count
            ≤ r.attempt_count + length ms * c.options.max_retries)
  run_models-count ms r =
      ((λ m q. run_leg-count c.options.max_retries m 0 q), run_models-total ms r)
