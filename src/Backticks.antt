-- ===== src/Backticks.antt =====
-- stripBackticks of smolllm/utils.go.
use smolllm_go.Prelude.{◌≡◌, refl, not, ◌||◌, List, [], ◌∷◌, ◌++◌, if◌then◌else◌}
use smolllm_go.Text.{Text, lit, text_eq, has_prefix, has_suffix, trim_suffix, split, join}
pub mod Fences
pub mod Tests

abbrev pub fence : Text
fence = 96 ∷ 96 ∷ 96 ∷ []

-- The first line goes where it opens the fence.
abbrev pub drop_opening : List Text → List Text
drop_opening [] = []
drop_opening (l ∷ ls) = if has_prefix fence l then ls else l ∷ ls

-- The last line loses the fence, and goes where it is nothing else.
unfoldable pub drop_closing : List Text → List Text
drop_closing [] = []
drop_closing (l ∷ []) =
    if has_suffix fence l then if text_eq l fence then [] else trim_suffix fence l ∷ [] else l ∷ []
drop_closing (l ∷ k ∷ ls) = l ∷ drop_closing (k ∷ ls)

unfoldable pub strip_backticks : Text → Text
unfolding has_prefix has_suffix split drop_closing join
strip_backticks text =
    if not (has_prefix fence text) || not (has_suffix fence text)
    then text
    else join (10 ∷ []) (drop_closing (drop_opening (split 10 text)))
