-- ===== src/Float.antt =====
-- A float64 as the program uses it: the number of its 64 bits, with the comparisons of IEEE 754.
use smolllm_go.Prelude.{
  Elem, Elem-append, get_or, Elem-get_or, ℕ, zero, suc, ◌+◌, ◌-◌, ◌*◌, ◌/◌, ◌%◌, ◌^◌, ◌≤◌, ◌<◌, min,
  ◌≡◌, refl, sym, ap, ◌∙◌, ◌≢◌, ◌↔◌, ◌⊎◌, inl, inr, Bool, true, false, not, ◌&&◌, ◌||◌, Option,
  none, some, List, [], ◌∷◌, ◌++◌, map, append-nil, append_assoc, arith, ltb, leb, ◌==◌,
  if◌then◌else◌, ==_iff, ==_refl, Bool-cases, Option-cases, is_some, length, get_elem?, take, drop,
  length-append, take-append-drop, length-drop, drop-length, length-map, All, All-append,
}
pub mod Ranges

abbrev pub Float : Type 0
Float = ℕ

-- 0.0, 1.0 and 2.0
abbrev pub float_zero : Float
float_zero = 0

abbrev pub float_one : Float
float_one = 1023 * 2 ^ 52

abbrev pub float_two : Float
float_two = 2 ^ 62

abbrev pub is_negative : Float → Bool
is_negative x = leb (2 ^ 63) x

-- The exponent and the mantissa.
abbrev pub magnitude : Float → ℕ
magnitude x = x % 2 ^ 63

-- math.IsNaN
abbrev pub is_nan : Float → Bool
is_nan x = ltb (2047 * 2 ^ 52) (magnitude x)

abbrev above_zero : Float → Float → Bool
above_zero x y = ltb 0 (magnitude x) || ltb 0 (magnitude y)

-- x < y
unfoldable pub float_lt : Float → Float → Bool
float_lt x y =
    if is_nan x || is_nan y
    then false
    else if is_negative x
    then if is_negative y then ltb (magnitude y) (magnitude x) else above_zero x y
    else if is_negative y
    then false
    else ltb (magnitude x) (magnitude y)

-- x <= y
unfoldable pub float_le : Float → Float → Bool
float_le x y =
    if is_nan x || is_nan y
    then false
    else if is_negative x
    then if is_negative y then leb (magnitude y) (magnitude x) else true
    else if is_negative y
    then not (above_zero x y)
    else leb (magnitude x) (magnitude y)

-- The test of the sampling options: NaN, below 0, or above the bound
unfoldable pub out_of_range : Float → Float → Bool
unfolding float_lt
out_of_range bound x = is_nan x || float_lt x float_zero || float_lt bound x
