-- ===== src/Providers/Tests.antt =====
-- A model string, and the theorem about it.
use smolllm_go.Prelude.{◌≡◌, refl, ◌⊎◌, false, []}
use smolllm_go.Text.{Text, lit, trim_space, is_empty}
use smolllm_go.Call.{Provider}
use smolllm_go.Errors.{ok}
use smolllm_go.Providers.{parse_model_string}
use smolllm_go.Providers.Spec.{IsBare, IsNamed, parse_model_string-parts}

abbrev spec : Text
spec = lit " my/qwen/8b"

abbrev unknown : Provider × Text
unknown = (record { name = lit "my"; base_url = [] }, lit "qwen/8b")

parsed : parse_model_string spec ≡ ok unknown
unfolding parse_model_string
parsed = refl

parse_model_string-parts_example :
    (IsBare (trim_space spec) unknown ⊎ IsNamed (trim_space spec) unknown)
    × (is_empty unknown.1 ≡ false)
parse_model_string-parts_example = parse_model_string-parts spec unknown parsed
