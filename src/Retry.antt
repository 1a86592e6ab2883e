-- ===== src/Retry.antt =====
-- smolllm/retry.go: the backoff, and the retry loop that an embedding call uses. A time.Duration is
-- an int64 of nanoseconds, here the number of its 64 bits.
use smolllm_go.Prelude.{
  Elem, Elem-append, get_or, Elem-get_or, ℕ, zero, suc, ◌+◌, ◌-◌, ◌*◌, ◌/◌, ◌%◌, ◌^◌, ◌≤◌, ◌<◌, min,
  ◌≡◌, refl, sym, ap, ◌∙◌, ◌≢◌, ◌↔◌, ◌⊎◌, inl, inr, Bool, true, false, not, ◌&&◌, ◌||◌, Option,
  none, some, List, [], ◌∷◌, ◌++◌, map, append-nil, append_assoc, arith, ltb, leb, ◌==◌,
  if◌then◌else◌, ==_iff, ==_refl, Bool-cases, Option-cases, is_some, length, get_elem?, take, drop,
  length-append, take-append-drop, length-drop, drop-length, length-map, All, All-append,
}
use smolllm_go.Errors.{
  Err, Disposition, retry, abort, advance, ErrorDecoder, classify, Result, ok, err,
}
pub mod Backoff
pub mod Rounds
pub mod Tests
pub mod Found

abbrev pub second : ℕ
second = 1000000000

abbrev pub retry_base_delay : ℕ
retry_base_delay = second

abbrev pub retry_max_delay : ℕ
retry_max_delay = 30 * second

-- a > b for int64 values: a value with the top bit set is negative
abbrev pub above : ℕ → ℕ → Bool
above a b = ltb a (2 ^ 63) && ltb b a

-- d *= retryBackoffScale, `attempt` times
unfoldable pub scale : ℕ → ℕ → ℕ
scale zero d = d
scale (suc attempt) d = scale attempt ((d * 2) % 2 ^ 64)

-- retryDelay
unfoldable pub retry_delay : ℕ → ℕ
unfolding scale
retry_delay attempt =
    let d = scale attempt retry_base_delay in if above d retry_max_delay then retry_max_delay else d

-- withRetry: `left` counts down from maxRetries, `waited` tells whether the timer fired before the
-- context ended, and `last` is the error of the attempt before, none at first. What the attempts
-- change is the state `s`. The result is that of the last attempt, with the delays that were waited
-- for; a nil error with a zero value is `ok none`.
unfoldable pub with_retry {ℓ} :
    {A S : Type ℓ}
    → ErrorDecoder
    → (ℕ → Bool)
    → (ℕ → S → Result A × S)
    → ℕ
    → ℕ
    → Option Err
    → S
    → List ℕ × Result (Option A) × S
unfolding retry_delay classify
with_retry decode waited fn zero attempt last s =
    ([], elim last [ none ↦ ok none | some e ↦ err e ], s)
with_retry decode waited fn (suc left) attempt last s =
    let pause : List ℕ = if ltb 0 attempt then retry_delay (attempt - 1) ∷ [] else [] in
    let stopped : Result (Option _) = elim last [ none ↦ ok none | some e ↦ err e ] in
    let (result, t) = fn attempt s in
    if ltb 0 attempt && not (waited attempt) then (pause, stopped, s) else elim result [
      | ok a ↦ (pause, ok (some a), t)
      | err e ↦ elim (classify decode e) [
        | retry ↦
            let rest = with_retry decode waited fn left (suc attempt) (some e) t in
            (pause ++ rest.0, rest.1, rest.2)
        | advance ↦ (pause, err e, t)
        | abort ↦ (pause, err e, t)
      ]
    ]

-- What withRetry returns, and the state that it leaves.
abbrev pub outcome {ℓ} : {A S : Type ℓ} → List ℕ × Result (Option A) × S → Result (Option A) × S
outcome (waits, result, s) = (result, s)
