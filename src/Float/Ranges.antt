-- ===== src/Float/Ranges.antt =====
-- Which floats the range test of the sampling options lets through.
use smolllm_go.Prelude.{
  ◌*◌, ◌^◌, ◌≤◌, ◌<◌, ◌≡◌, refl, ◌↔◌, ◌⊎◌, inl, inr, true, false, arith, Bool-cases,
}
use smolllm_go.Float.{Float, float_one, float_two, is_negative, out_of_range}

float_tests :
    (out_of_range float_two (3 * 2 ^ 61) ≡ true)
    × (out_of_range float_two float_one ≡ false)
    × (out_of_range float_two (2 ^ 63) ≡ false)
unfolding out_of_range
float_tests = (refl, refl, refl)

-- A 64-bit pattern passes the range test just where it is minus zero or a pattern from 0 up to the
-- bound's: no NaN, no infinity and no negative number passes.
pub out_of_range-false :
    (bound x : Float)
    → bound ≤ 2047 * 2 ^ 52
    → x < 2 ^ 64
    → (out_of_range bound x ≡ false) ↔ ((x ≡ 2 ^ 63) ⊎ (x ≤ bound))
unfolding out_of_range
out_of_range-false bound x h k = (
  λ f. elim (Bool-cases (is_negative x)) [
    | inl e ↦ inl (ground arith)
    | inr e ↦ inr (ground arith)
  ],
  λ s. elim s [ inl e ↦ ground arith | inr l ↦ ground arith ],
)
