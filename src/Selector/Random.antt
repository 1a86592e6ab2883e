-- ===== src/Selector/Random.antt =====
-- RandomSelector of smolllm/selector.go, and createSelector with an Options.NewSelector. `draw` is
-- rand.Float64() as it comes; a sum and a product are what the machine's floats give.
use smolllm_go.Prelude.{
  ℕ, suc, ◌-◌, Bool, Option, none, some, List, [], ◌∷◌, ◌++◌, ltb, ◌==◌, if◌then◌else◌, length,
  get_elem?, take, drop,
}
use smolllm_go.Text.{Text}
use smolllm_go.Errors.{Result, ok, ◌>>=◌}
use smolllm_go.Float.{Float, float_zero, float_one, float_le}
use smolllm_go.Options.{Dict, lookup, put, NewSelector, random, custom, Options}
use smolllm_go.Transport.{Env}
use smolllm_go.Selector.{SequentialSelector, string_selector}

-- float64 addition and multiplication
pub record Arithmetic : Type 0 where
  pub add : Float → Float → Float
  pub mul : Float → Float → Float

-- RandomSelector
pub record RandomSelector : Type 0 where
  pub weights : Dict Float
  pub remaining : List Text

-- weights[m], where a nil map has no entry
abbrev pub given_weight : Option (Dict Float) → Text → Option Float
given_weight none m = none
given_weight (some weights) m = lookup m weights

abbrev pub weight_or : Float → Option Float → Float
weight_or d none = d
weight_or d (some w) = w

-- The loop of NewRandomSelector.
unfoldable pub fill_weights : Option (Dict Float) → List Text → Dict Float → Dict Float
unfolding lookup put
fill_weights weights [] w = w
fill_weights weights (m ∷ ms) w =
    fill_weights weights ms (put m (weight_or float_one (given_weight weights m)) w)

-- NewRandomSelector
unfoldable pub new_random_selector : List Text → Option (Dict Float) → RandomSelector
unfolding fill_weights
new_random_selector models weights = record {
  weights = fill_weights weights models [];
  remaining = models;
}

-- r.weights[m]
unfoldable pub weight_of : RandomSelector → Text → Float
unfolding lookup
weight_of r m = weight_or float_zero (lookup m r.weights)

module _ (ar : Arithmetic) (r : RandomSelector) where
  -- total
  unfoldable pub total_weight : Float → List Text → Float
  unfolding weight_of
  total_weight total [] = total
  total_weight total (m ∷ ms) = total_weight (ar.add total (weight_of r m)) ms

  -- The loop that finds chosenIdx: the first index at which the cumulative weight reaches the point.
  unfoldable pub chosen_index : Float → Float → ℕ → ℕ → List Text → ℕ
  unfolding weight_of float_le
  chosen_index point cumulative last i [] = last
  chosen_index point cumulative last i (m ∷ ms) =
      let reached = ar.add cumulative (weight_of r m) in
      let rest = chosen_index point reached last (suc i) ms in
      if float_le point reached then i else rest

-- RandomSelector.NextModel
unfoldable pub next_random : Arithmetic → Float → RandomSelector → Option Text × RandomSelector
unfolding total_weight chosen_index
next_random ar draw r =
    if length r.remaining == 0
    then (none, r)
    else let point = ar.mul draw (total_weight ar r float_zero r.remaining) in
      let i = chosen_index ar r point float_zero (length r.remaining - 1) 0 r.remaining in
      (
        get_elem? r.remaining i,
        record r { remaining = take i r.remaining ++ drop (suc i) r.remaining },
      )

-- RandomSelector.HasMore
abbrev pub has_more_random : RandomSelector → Bool
has_more_random r = ltb 0 (length r.remaining)

-- The selectors that createSelector returns; the caller's own stands for the models it hands out.
pub data ModelSelector : Type 0 where
  sequential : SequentialSelector → ModelSelector
  weighted : RandomSelector → ModelSelector
  own : List Text → ModelSelector

-- opts.NewSelector(), a new selector for each call
unfoldable pub build_selector : NewSelector → ModelSelector
unfolding new_random_selector
build_selector (random models weights) = weighted (new_random_selector models weights)
build_selector (custom models) = own models

-- createSelector
unfoldable pub create_selector : Env → Options → Result ModelSelector
unfolding build_selector string_selector
create_selector env o = elim o.new_selector [
  | some f ↦ ok (build_selector f)
  | none ↦ string_selector env o >>= (λ s. ok (sequential s))
]
