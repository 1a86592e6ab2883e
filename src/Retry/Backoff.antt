-- ===== src/Retry/Backoff.antt =====
-- The delays of smolllm/retry.go.
use native.Mathlib.Nat.{
  pow-succ', mul_assoc, mul-one, zero-add, suc-add, one-le-pow, le-mul_of_pos_right, mod-eq_of_lt,
  pow-le-pow_right, mul-le-mul_left,
}
use smolllm_go.Prelude.{
  ℕ, zero, suc, ◌+◌, ◌*◌, ◌%◌, ◌^◌, ◌≤◌, ◌<◌, min, ◌≡◌, refl, sym, ap, ◌∙◌, true, arith, leb,
}
use smolllm_go.Retry.{scale, retry_delay, retry_base_delay, retry_max_delay}

-- A doubling that stays below 2 ^ 64 does not wrap.
scale_exact : (a d : ℕ) → d * 2 ^ a < 2 ^ 64 → scale a d ≡ d * 2 ^ a
unfolding scale
scale_exact zero d h = sym (mul-one d)
scale_exact (suc a) d h =
    let e : d * 2 ^ suc a ≡ d * 2 * 2 ^ a =
      ap (λ x. d * x) (pow-succ' 2 a) ∙ sym (mul_assoc d 2 (2 ^ a)) in
    let small : d * 2 * 2 ^ a < 2 ^ 64 = rw e at h in
    let le : d * 2 ≤ d * 2 * 2 ^ a = le-mul_of_pos_right (d * 2) (one-le-pow a 2 (omega arith)) in
    let fits : d * 2 < 2 ^ 64 = omega (arith, le, small) in
    ap (scale a) (mod-eq_of_lt fits) ∙ scale_exact a (d * 2) small ∙ sym e

scale_zero : (a : ℕ) → scale a 0 ≡ 0
unfolding scale
scale_zero zero = refl
scale_zero (suc a) = scale_zero a

scale_add : (a b d : ℕ) → scale (a + b) d ≡ scale b (scale a d)
unfolding scale
scale_add zero b d = ap (λ x. scale x d) (zero-add b)
scale_add (suc a) b d = ap (λ x. scale x d) (suc-add a b) ∙ scale_add a b ((d * 2) % 2 ^ 64)

scale_55 : scale 55 retry_base_delay ≡ 0
unfolding scale
scale_55 = refl

-- The first 34 delays double from a second and are capped at 30 seconds.
pub retry_delay-capped :
    (a : ℕ) → a ≤ 33 → retry_delay a ≡ min (retry_base_delay * 2 ^ a) retry_max_delay
unfolding retry_delay
retry_delay-capped a h =
    let le : retry_base_delay * 2 ^ a ≤ retry_base_delay * 2 ^ 33 =
      mul-le-mul_left retry_base_delay (pow-le-pow_right (omega arith) h) in
    let e = scale_exact a retry_base_delay (omega (arith, le)) in rw e (ground (arith, le))

-- From the 56th wait on the doubled delay has wrapped to zero: there is no wait any more, where the
-- cap should give 30 seconds.
pub retry_delay-wraps : (a : ℕ) → retry_delay (55 + a) ≡ 0
unfolding retry_delay
retry_delay-wraps a =
    let e : scale (55 + a) retry_base_delay ≡ 0 =
      scale_add 55 a retry_base_delay ∙ ap (scale a) scale_55 ∙ scale_zero a in
    rw e refl

-- The 35th delay is negative: its top bit is set, and the cap does not apply.
delay_34 : leb (2 ^ 63) (retry_delay 34) ≡ true
unfolding retry_delay
delay_34 = refl
