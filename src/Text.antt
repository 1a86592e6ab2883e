-- ===== src/Text.antt =====
-- Go strings as the lists of their bytes, and what the program calls of package strings.
use Prim.Native.Char.{code}
use Prim.Native.String.{String}
use smolllm_go.Prelude.{
  ℕ, zero, suc, ◌+◌, ◌-◌, ◌*◌, ◌/◌, ◌%◌, ◌<◌, ◌≡◌, refl, Bool, true, false, not, ◌&&◌, ◌||◌, Option,
  none, some, List, [], ◌∷◌, ◌++◌, map, arith, ltb, leb, ◌==◌, if◌then◌else◌, length, take, drop,
}
pub mod Laws

-- The bytes of a string.
abbrev pub Text : Type 0
Text = List ℕ

-- The bytes of an ASCII literal.
abbrev pub lit : String → Text
lit String.[] = []
lit (String.◌∷◌ c s) = code c ∷ lit s

-- s == t
abbrev pub text_eq : Text → Text → Bool
text_eq [] [] = true
text_eq [] (d ∷ t) = false
text_eq (c ∷ s) [] = false
text_eq (c ∷ s) (d ∷ t) = c == d && text_eq s t

abbrev pub is_empty : Text → Bool
is_empty [] = true
is_empty (c ∷ s) = false

-- strings.HasPrefix(s, prefix), the prefix first.
unfoldable pub has_prefix : Text → Text → Bool
has_prefix [] s = true
has_prefix (c ∷ p) [] = false
has_prefix (c ∷ p) (d ∷ s) = c == d && has_prefix p s

-- How many bytes a white-space rune at the head takes, 0 if none stands there: the property
-- White_Space of Unicode, in UTF-8, as unicode.IsSpace decides it.
abbrev three_byte_space : ℕ → ℕ → ℕ → Bool
three_byte_space a b c =
    (a == 0xe1 && b == 0x9a && c == 0x80)
    || (a == 0xe2
        && ((b == 0x80 && ((leb 0x80 c && leb c 0x8a) || c == 0xa8 || c == 0xa9 || c == 0xaf))
            || (b == 0x81 && c == 0x9f)))
    || (a == 0xe3 && b == 0x80 && c == 0x80)

abbrev two_byte_space : ℕ → ℕ → Bool
two_byte_space a b = a == 0xc2 && (b == 0x85 || b == 0xa0)

abbrev one_byte_space : ℕ → Bool
one_byte_space c = (leb 9 c && leb c 13) || c == 32

unfoldable pub space_width : Text → ℕ
space_width [] = 0
space_width (a ∷ []) = if one_byte_space a then 1 else 0
space_width (a ∷ b ∷ []) = if one_byte_space a then 1 else if two_byte_space a b then 2 else 0
space_width (a ∷ b ∷ c ∷ s) =
    if one_byte_space a
    then 1
    else if two_byte_space a b
    then 2
    else if three_byte_space a b c
    then 3
    else 0

-- The same for a rune at the end, over the reversed text.
unfoldable pub rev_space_width : Text → ℕ
rev_space_width [] = 0
rev_space_width (a ∷ []) = if one_byte_space a then 1 else 0
rev_space_width (a ∷ b ∷ []) = if one_byte_space a then 1 else if two_byte_space b a then 2 else 0
rev_space_width (a ∷ b ∷ c ∷ s) =
    if one_byte_space a
    then 1
    else if two_byte_space b a
    then 2
    else if three_byte_space c b a
    then 3
    else 0

-- Drops what `width` recognises at the head, as often as it does; the first argument counts the
-- bytes of a rune that are still to be dropped.
unfoldable pub drop_runes : (Text → ℕ) → ℕ → Text → Text
drop_runes width (suc k) [] = []
drop_runes width (suc k) (c ∷ s) = drop_runes width k s
drop_runes width zero [] = []
drop_runes width zero (c ∷ s) = elim (width (c ∷ s)) [ zero ↦ c ∷ s | suc k ↦ drop_runes width k s ]

unfoldable pub rev_onto : Text → Text → Text
rev_onto [] acc = acc
rev_onto (c ∷ s) acc = rev_onto s (c ∷ acc)

abbrev pub rev : Text → Text
rev s = rev_onto s []

unfoldable pub trim_left : Text → Text
unfolding drop_runes space_width
trim_left s = drop_runes space_width 0 s

unfoldable pub trim_right : Text → Text
unfolding drop_runes rev_space_width rev_onto
trim_right s = rev (drop_runes rev_space_width 0 (rev s))

-- strings.TrimSpace
unfoldable pub trim_space : Text → Text
unfolding trim_left trim_right
trim_space s = trim_right (trim_left s)

-- strings.HasSuffix(s, suffix), the suffix first.
unfoldable pub has_suffix : Text → Text → Bool
unfolding has_prefix
has_suffix p s = leb (length p) (length s) && text_eq (drop (length s - length p) s) p

-- strings.TrimSuffix(s, suffix), the suffix first.
unfoldable pub trim_suffix : Text → Text → Text
unfolding has_suffix
trim_suffix p s = if has_suffix p s then take (length s - length p) s else s

abbrev push_head : ℕ → List Text → List Text
push_head c [] = (c ∷ []) ∷ []
push_head c (w ∷ ws) = (c ∷ w) ∷ ws

-- strings.Split(s, sep) at a separator of one byte.
unfoldable pub split : ℕ → Text → List Text
split sep [] = [] ∷ []
split sep (c ∷ s) = let rest = split sep s in if c == sep then [] ∷ rest else push_head c rest

-- strings.Join
unfoldable pub join : Text → List Text → Text
join sep [] = []
join sep (w ∷ []) = w
join sep (w ∷ v ∷ ws) = w ++ (sep ++ join sep (v ∷ ws))

-- strings.Index(s, sub), the substring first; `none` is -1.
unfoldable pub index : Text → Text → Option ℕ
unfolding has_prefix
index sub [] = if is_empty sub then some 0 else none
index sub (c ∷ s) =
    let rest = index sub s in
    if has_prefix sub (c ∷ s) then some 0 else elim rest [ none ↦ none | some i ↦ some (suc i) ]

-- strings.ToLower and strings.ToUpper on a byte, which is all of it on ASCII.
abbrev pub lower_byte : ℕ → ℕ
lower_byte c = if leb 65 c && leb c 90 then c + 32 else c

abbrev pub upper_byte : ℕ → ℕ
upper_byte c = if leb 97 c && leb c 122 then c - 32 else c

-- strconv.Itoa of a number: its decimal digits.
unfoldable pub digits_onto : ℕ → ℕ → Text → Text
digits_onto zero n acc = acc
digits_onto (suc fuel) n acc =
    let next : Text = (48 + n % 10) ∷ acc in
    let rest = digits_onto fuel (n / 10) next in if n / 10 == 0 then next else rest

unfoldable pub itoa : ℕ → Text
unfolding digits_onto
itoa n = digits_onto (suc n) n []

trim_test :
    trim_space (32 ∷ 0xc2 ∷ 0xa0 ∷ (lit "a b" ++ (0xe2 ∷ 0x80 ∷ 0x89 ∷ 10 ∷ []))) ≡ lit "a b"
unfolding trim_space
trim_test = refl

split_test :
    map (λ (w : Text). w) (split b',' (lit "a,b,,c")) ≡ lit "a" ∷ lit "b" ∷ [] ∷ lit "c" ∷ []
unfolding split
split_test = refl

itoa_test : itoa 1204 ≡ lit "1204"
unfolding itoa
itoa_test = refl
