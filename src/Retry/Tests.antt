-- ===== src/Retry/Tests.antt =====
-- Delays, and the theorems about them.
use mathlib.Core.Path.{subst}
use smolllm_go.Prelude.{
  suc, ◌==◌, ◌<◌, true, refl, if◌then◌else◌, false, ◌≤◌, Bool, [], none, ℕ, ◌+◌, ◌*◌, ◌^◌, min, ◌≡◌,
  arith,
}
use smolllm_go.Errors.{Err, ErrorDecoder, http, classify, Result, ok, err}
use smolllm_go.Retry.{outcome, with_retry, retry_delay, retry_base_delay, retry_max_delay}
use smolllm_go.Retry.Rounds.{IsTransient, returned, with_retry-first}
use smolllm_go.Retry.Backoff.{retry_delay-capped, retry_delay-wraps}

retry_delay-capped_example : retry_delay 3 ≡ min (retry_base_delay * 2 ^ 3) retry_max_delay
retry_delay-capped_example = retry_delay-capped 3 (omega arith)

retry_delay-wraps_example : retry_delay (55 + 1) ≡ 0
retry_delay-wraps_example = retry_delay-wraps 1

abbrev undecoded : ErrorDecoder
undecoded t = none

abbrev busy : Err
busy = http (record { status_code = 503; body = []; no_retry = false })

abbrev always : ℕ → Bool
always i = true

-- The first attempt fails with a 503, the others give 7; the state counts them.
abbrev attempts : ℕ → ℕ → Result ℕ × ℕ
attempts i s = (if i == 0 then err busy else ok 7, suc s)

abbrev count : ℕ → ℕ
count i = i

busy_first : (i : ℕ) → 0 ≤ i → i < 1 → IsTransient undecoded always attempts count i
unfolding classify
busy_first i a b =
    let e : 0 ≡ i = omega arith in
    subst (λ j. IsTransient undecoded always attempts count j) e (busy, refl, refl, refl)

with_retry-first_example :
    outcome (with_retry undecoded always attempts 3 0 none 0)
    ≡ (returned undecoded always attempts count (attempts 1 1).0, (attempts 1 1).1)
with_retry-first_example =
    with_retry-first undecoded always attempts count 3 0 1 none (λ i. refl) (omega arith)
      (omega arith) busy_first (λ e p. cc)
