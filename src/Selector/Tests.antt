-- ===== src/Selector/Tests.antt =====
-- A model string, and the theorem about it.
use smolllm_go.Prelude.{none, length, ◌<◌, List, some, ◌≡◌, refl, false, [], ◌∷◌, map, take, All}
use smolllm_go.Text.{Text, lit, is_empty, trim_space, split}
use smolllm_go.Errors.{ok}
use smolllm_go.Options.{Options, default_options}
use smolllm_go.Transport.{Env}
use smolllm_go.Selector.{SequentialSelector, new_sequential_selector, candidate, string_selector}
use smolllm_go.Float.{float_zero, float_one}
use smolllm_go.Options.{random, with_model_set}
use smolllm_go.Selector.Random.{Arithmetic, RandomSelector, create_selector, weighted, sequential}
use smolllm_go.Selector.Draining.{IsShare, drain_random, with_model_set-IsShare}
use smolllm_go.Selector.Models.{drain, create_selector-in_order}

abbrev chosen : Options
chosen = record default_options { model = lit "a/b, c" }

abbrev no_env : Env
no_env k = []

abbrev selected : SequentialSelector
selected = new_sequential_selector (lit "a/b" ∷ lit "c" ∷ [])

created : create_selector no_env chosen ≡ ok (sequential selected)
unfolding create_selector string_selector trim_space split
created = refl

create_selector-in_order_example :
    (s : SequentialSelector) × (sequential selected ≡ sequential s)
    × (drain 2 s ≡ take 2 (map trim_space (split b',' (candidate no_env chosen))))
    × All (λ (m : Text). is_empty m ≡ false) s.models
create_selector-in_order_example =
    create_selector-in_order no_env chosen (sequential selected) 2 refl created

-- Two models of equal weight, with an arithmetic that rounds everything to zero.
abbrev pool : List Text
pool = lit "a/b" ∷ lit "c" ∷ []

abbrev flat : Arithmetic
flat = record { add = λ x y. float_zero; mul = λ x y. float_zero }

abbrev over_pool : Options
over_pool = record default_options { new_selector = some (random pool none) }

set : with_model_set pool default_options ≡ some over_pool
unfolding with_model_set
set = refl

with_model_set-IsShare_example :
    (0 < length pool)
    × ((r : RandomSelector) × (create_selector no_env over_pool ≡ ok (weighted r))
        × (r.remaining ≡ pool)
        × IsShare 2 r (drain_random flat (λ i. float_one) 2 r))
with_model_set-IsShare_example =
    with_model_set-IsShare flat (λ i. float_one) no_env pool default_options over_pool 2 set
