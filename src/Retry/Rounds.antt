-- ===== src/Retry/Rounds.antt =====
-- What withRetry of smolllm/retry.go returns.
use smolllm_go.Prelude.{
  ℕ, zero, suc, ◌+◌, ◌≤◌, ◌<◌, ◌≡◌, refl, ◌∙◌, ◌≢◌, ◌⊎◌, inl, inr, Bool, true, false, not, ◌&&◌,
  Option, some, arith, ltb, ◌==◌, ==_iff, Bool-cases,
}
use smolllm_go.Errors.{
  Err, Disposition, retry, advance, abort, ErrorDecoder, classify, Result, ok, err,
}
use smolllm_go.Retry.{outcome, with_retry}

pub Result-cases {ℓ} :
    {A : Type ℓ} (r : Result A) → ((a : A) × (r ≡ ok a)) ⊎ ((e : Err) × (r ≡ err e))
Result-cases (ok a) = inl (a, refl)
Result-cases (err e) = inr (e, refl)

pub Disposition-cases : (d : Disposition) → (d ≡ retry) ⊎ ((d ≡ advance) ⊎ (d ≡ abort))
Disposition-cases retry = inl refl
Disposition-cases advance = inr (inl refl)
Disposition-cases abort = inr (inr refl)

module _ {A S : Type 0} (decode : ErrorDecoder) (waited : ℕ → Bool) (fn : ℕ → S → Result A × S)
    (state : ℕ → S) where
  -- An attempt that fails with an error which Classify retries, on the state that it meets.
  abbrev pub IsTransient : ℕ → Type 0
  IsTransient i =
      (e : Err) × ((fn i (state i)).0 ≡ err e)
      × (classify decode e ≡ retry)
      × ((fn i (state i)).1 ≡ state (suc i))

  -- An attempt that ends the loop.
  abbrev pub IsFinal : ℕ → Type 0
  IsFinal i = (e : Err) → (fn i (state i)).0 ≡ err e → classify decode e ≢ retry

  abbrev pub returned : Result A → Result (Option A)
  returned (ok a) = ok (some a)
  returned (err e) = err e

  goes_on : (n : ℕ) → waited n ≡ true → (ltb 0 n && not (waited n)) ≡ false
  goes_on n w = ground arith

  round_final :
      (left n : ℕ) (last : Option Err)
      → waited n ≡ true
      → IsFinal n
      → outcome (with_retry decode waited fn (suc left) n last (state n))
        ≡ (returned (fn n (state n)).0, (fn n (state n)).1)
  unfolding with_retry
  round_final left n last w f = elim (Result-cases (fn n (state n)).0) [
    | inl (a, p) ↦ rw (goes_on n w, p) refl
    | inr (e, p) ↦ elim (Disposition-cases (classify decode e)) [
      | inl q ↦ absurd (f e p q)
      | inr (inl q) ↦ rw (goes_on n w, p, q) refl
      | inr (inr q) ↦ rw (goes_on n w, p, q) refl
    ]
  ]

  round_transient :
      (left n : ℕ) (last : Option Err) (e : Err)
      → waited n ≡ true
      → (fn n (state n)).0 ≡ err e
      → classify decode e ≡ retry
      → (fn n (state n)).1 ≡ state (suc n)
      → outcome (with_retry decode waited fn (suc left) n last (state n))
        ≡ outcome (with_retry decode waited fn left (suc n) (some e) (state (suc n)))
  unfolding with_retry
  round_transient left n last e w p q r = rw (goes_on n w, p, q, r) refl

  -- Where no wait is cut short, withRetry returns what the first attempt gives that is not a
  -- transient failure, if that attempt is among its maxRetries attempts, whether it is a result or
  -- an error, and leaves the state that this attempt leaves; later attempts are not made.
  pub with_retry-first :
      (left n m : ℕ) (last : Option Err)
      → ((i : ℕ) → waited i ≡ true)
      → n ≤ m
      → m < n + left
      → ((i : ℕ) → n ≤ i → i < m → IsTransient i)
      → IsFinal m
      → outcome (with_retry decode waited fn left n last (state n))
        ≡ (returned (fn m (state m)).0, (fn m (state m)).1)
  with_retry-first zero n m last w a b t f = absurd (omega arith)
  with_retry-first (suc left) n m last w a b t f = elim (Bool-cases (n == m)) [
    | inl e ↦
        let same : n ≡ m = (==_iff n m).0 e in
        rw (← same) (round_final left n last (w n) (rw (← same) at f))
    | inr e ↦
        let less : n < m = ground (arith, a, e) in
        let (x, p, q, r) = t n (omega arith) less in
        round_transient left n last x (w n) p q r
        ∙ with_retry-first left (suc n) m (some x) w (omega (arith, less)) (omega (arith, b))
            (λ i h k. t i (omega (arith, h)) k) f
  ]
