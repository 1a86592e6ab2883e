-- ===== src/Options.antt =====
-- smolllm/options.go: the options that decide what a call does, the overrides per leg and per
-- provider, and smolllm/extra_body.go. Maps are association lists; a JSON value is its text, a
-- duration its nanoseconds. The HTTP client, the logger and the hook are left out.
use smolllm_go.Prelude.{
  Elem, Elem-append, get_or, Elem-get_or, ℕ, zero, suc, ◌+◌, ◌-◌, ◌*◌, ◌/◌, ◌%◌, ◌^◌, ◌≤◌, ◌<◌, min,
  ◌≡◌, refl, sym, ap, ◌∙◌, ◌≢◌, ◌↔◌, ◌⊎◌, inl, inr, Bool, true, false, not, ◌&&◌, ◌||◌, Option,
  none, some, List, [], ◌∷◌, ◌++◌, map, append-nil, append_assoc, arith, ltb, leb, ◌==◌,
  if◌then◌else◌, ==_iff, ==_refl, Bool-cases, Option-cases, is_some, length, get_elem?, take, drop,
  length-append, take-append-drop, length-drop, drop-length, length-map, All, All-append,
}
use smolllm_go.Prelude.Int.{ℤ, pos, negsuc, pos_part}
use smolllm_go.Text.{
  Text, lit, text_eq, is_empty, has_prefix, has_suffix, trim_space, trim_left, trim_right,
  trim_suffix, split, join, index, lower_byte, upper_byte, itoa,
}
use smolllm_go.Float.{Float, float_zero, float_one, float_two, float_le, is_nan, out_of_range}
pub mod Maps
pub mod Precedence
pub mod Sampling
pub mod Tests

-- map[string]V
abbrev pub Dict : Type 0 → Type 0
Dict V = List (Text × V)

module _ {V : Type 0} where
  -- m[k], with whether it is there
  unfoldable pub lookup : Text → Dict V → Option V
  lookup k [] = none
  lookup k ((j, v) ∷ m) = if text_eq j k then some v else lookup k m

  -- m[k] = v
  unfoldable pub put : Text → V → Dict V → Dict V
  put k v [] = (k, v) ∷ []
  put k v ((j, w) ∷ m) = if text_eq j k then (k, v) ∷ m else (j, w) ∷ put k v m

  -- maps.Copy(dst, src)
  unfoldable pub copy : Dict V → Dict V → Dict V
  unfolding put
  copy dst [] = dst
  copy dst ((k, v) ∷ m) = copy (put k v dst) m

-- ProviderConfig
pub record ProviderConfig : Type 0 where
  pub base_url : Text
  pub api_key : Text
  pub headers : Dict Text

-- What Options.NewSelector builds: a random selector over models with weights, `none` for equal
-- ones, or the caller's own selector, by the models that it hands out.
pub data NewSelector : Type 0 where
  random : List Text → Option (Dict Float) → NewSelector
  custom : List Text → NewSelector

-- Options
pub record Options : Type 0 where
  pub model : Text
  pub new_selector : Option NewSelector
  pub temperature : Option Float
  pub top_p : Option Float
  pub max_tokens : Option ℤ
  pub stop : List Text
  pub seed : Option ℤ
  pub reasoning_effort : Option Text
  pub leg_efforts : Dict Text
  pub providers : Dict ProviderConfig
  pub default_provider : ProviderConfig
  pub image_paths : List Text
  pub timeout : ℤ
  pub max_retries : ℕ
  pub leg_budget : ℕ
  pub remove_backticks : Bool
  pub min_output_tokens : ℕ
  pub dimensions : ℕ
  pub extra_body : Dict Text
  pub provider_extra_body : Dict (Dict Text)

-- defaultOptions
abbrev pub default_options : Options
default_options = record {
  model = [];
  new_selector = none;
  temperature = none;
  top_p = none;
  max_tokens = none;
  stop = [];
  seed = none;
  reasoning_effort = none;
  leg_efforts = [];
  providers = [];
  default_provider = record { base_url = []; api_key = []; headers = [] };
  image_paths = [];
  timeout = pos (600 * 1000000000);
  max_retries = 3;
  leg_budget = 0;
  remove_backticks = false;
  min_output_tokens = 0;
  dimensions = 0;
  extra_body = [];
  provider_extra_body = [];
}

-- WithModel
unfoldable pub with_model : Text → Options → Options
with_model model o = record o { model = model }

-- WithModelSet; `none` is its panic
unfoldable pub with_model_set : List Text → Options → Option Options
with_model_set models o =
    if length models == 0
    then none
    else some (record o { new_selector = some (random models none) })

-- The test on a weight in WithModelWeights.
abbrev pub bad_weight : Float → Bool
bad_weight w = is_nan w || float_le w float_zero

abbrev pub any_bad_weight : Dict Float → Bool
any_bad_weight [] = false
any_bad_weight ((m, w) ∷ ws) = bad_weight w || any_bad_weight ws

abbrev pub dict_keys {ℓ} : {V : Type ℓ} → List (Text × V) → List Text
dict_keys [] = []
dict_keys ((k, v) ∷ m) = k ∷ dict_keys m

-- WithModelWeights, its map in the order in which the range over it gives the entries; `none` is one
-- of its panics
unfoldable pub with_model_weights : Dict Float → Options → Option Options
unfolding float_le
with_model_weights weights o =
    if length weights == 0
    then none
    else if any_bad_weight weights
    then none
    else some (record o { new_selector = some (random (dict_keys weights) (some weights)) })

-- WithTemperature; `none` is its panic
unfoldable pub with_temperature : Float → Options → Option Options
unfolding out_of_range
with_temperature value o =
    if out_of_range float_two value then none else some (record o { temperature = some value })

-- WithTopP; `none` is its panic
unfoldable pub with_top_p : Float → Options → Option Options
unfolding out_of_range
with_top_p value o =
    if out_of_range float_one value then none else some (record o { top_p = some value })

-- value <= 0
abbrev pub not_positive : ℤ → Bool
not_positive (pos n) = n == 0
not_positive (negsuc n) = true

-- WithMaxTokens; `none` is its panic
unfoldable pub with_max_tokens : ℤ → Options → Option Options
with_max_tokens value o =
    if not_positive value then none else some (record o { max_tokens = some value })

abbrev pub is_blank : Text → Bool
is_blank s = is_empty (trim_space s)

abbrev pub any_blank : List Text → Bool
any_blank [] = false
any_blank (w ∷ ws) = is_blank w || any_blank ws

-- WithStop; `none` is one of its panics. The sequences are kept as they are given.
unfoldable pub with_stop : List Text → Options → Option Options
with_stop stops o =
    if length stops == 0
    then none
    else if any_blank stops
    then none
    else some (record o { stop = stops })

-- WithSeed
unfoldable pub with_seed : ℤ → Options → Options
with_seed value o = record o { seed = some value }

-- WithImagePaths
unfoldable pub with_image_paths : List Text → Options → Options
with_image_paths paths o = record o { image_paths = paths }

-- WithTimeout
unfoldable pub with_timeout : ℤ → Options → Options
with_timeout timeout o = record o { timeout = timeout }

-- WithLegBudget; `none` is its panic
unfoldable pub with_leg_budget : ℤ → Options → Option Options
with_leg_budget (pos budget) o = some (record o { leg_budget = budget })
with_leg_budget (negsuc budget) o = none

-- WithDimensions; `none` is its panic
unfoldable pub with_dimensions : ℤ → Options → Option Options
with_dimensions dimensions o =
    if not_positive dimensions then none else some (record o { dimensions = pos_part dimensions })

-- strings.ToLower(strings.TrimSpace(s))
abbrev pub normalized : Text → Text
normalized s = map lower_byte (trim_space s)

-- WithReasoningEffort; `none` is its panic
unfoldable pub with_reasoning_effort : Text → Options → Option Options
with_reasoning_effort value o =
    if is_empty (normalized value)
    then none
    else some (record o { reasoning_effort = some (normalized value) })

-- legSpecKey
abbrev pub leg_spec_key : Text → Text
leg_spec_key model = trim_space model

-- WithLegReasoningEffort; `none` is one of its panics
unfoldable pub with_leg_reasoning_effort : Text → Text → Options → Option Options
with_leg_reasoning_effort model effort o =
    if is_empty (leg_spec_key model)
    then none
    else if is_empty (normalized effort)
    then none
    else some
        (record o { leg_efforts = put (leg_spec_key model) (normalized effort) o.leg_efforts })

-- reasoningEffortFor
unfoldable pub reasoning_effort_for : Options → Text → Option Text
reasoning_effort_for o model = elim (lookup (leg_spec_key model) o.leg_efforts) [
  | some effort ↦ some effort
  | none ↦ o.reasoning_effort
]

-- WithProvider
unfoldable pub with_provider : Text → ProviderConfig → Options → Options
with_provider name cfg o = record o { providers = put name cfg o.providers }

-- WithDefaultProvider
unfoldable pub with_default_provider : ProviderConfig → Options → Options
with_default_provider cfg o = record o { default_provider = cfg }

-- providerBaseURL
unfoldable pub provider_base_url : Options → Text → Text
provider_base_url o name = elim (lookup name o.providers) [
  | none ↦ o.default_provider.base_url
  | some cfg ↦ if is_blank cfg.base_url then o.default_provider.base_url else cfg.base_url
]

-- providerAPIKey
unfoldable pub provider_api_key : Options → Text → Text
provider_api_key o name = elim (lookup name o.providers) [
  | none ↦ o.default_provider.api_key
  | some cfg ↦ if is_blank cfg.api_key then o.default_provider.api_key else cfg.api_key
]

-- providerHeaders
unfoldable pub provider_headers : Options → Text → Dict Text
provider_headers o name = elim (lookup name o.providers) [
  | none ↦ o.default_provider.headers
  | some cfg ↦
      if length o.default_provider.headers == 0
      then cfg.headers
      else copy o.default_provider.headers cfg.headers
]

-- WithMaxRetries; `none` is its panic
unfoldable pub with_max_retries : ℕ → Options → Option Options
with_max_retries attempts o =
    if attempts == 0 then none else some (record o { max_retries = attempts })

-- WithBacktickRemoval
unfoldable pub with_backtick_removal : Options → Options
with_backtick_removal o = record o { remove_backticks = true }

-- WithMinOutputTokens
unfoldable pub with_min_output_tokens : ℕ → Options → Options
with_min_output_tokens n o = record o { min_output_tokens = n }

-- reservedExtraBodyKeys
abbrev pub reserved_keys : List Text
reserved_keys = lit "stream" ∷ lit "stream_options" ∷ lit "messages" ∷ lit "model" ∷ []

unfoldable pub set_reserved : Dict Text → List Text → List Text
unfolding lookup
set_reserved fields [] = []
set_reserved fields (k ∷ ks) =
    let rest = set_reserved fields ks in if is_some (lookup k fields) then k ∷ rest else rest

-- checkedExtraBody; `none` is its panic
unfoldable pub checked_extra_body : Dict Text → Option (Dict Text)
unfolding set_reserved
checked_extra_body fields =
    if ltb 0 (length (set_reserved fields reserved_keys)) then none else some fields

-- WithExtraBody
unfoldable pub with_extra_body : Dict Text → Options → Option Options
with_extra_body fields o = elim (checked_extra_body fields) [
  | none ↦ none
  | some copied ↦ some (record o { extra_body = copied })
]

-- WithProviderExtraBody; `none` is one of its panics
unfoldable pub with_provider_extra_body : Text → Dict Text → Options → Option Options
with_provider_extra_body provider fields o =
    let name = trim_space provider in
    if is_empty name then none else elim (checked_extra_body fields) [
      | none ↦ none
      | some copied ↦
          some (record o { provider_extra_body = put name copied o.provider_extra_body })
    ]

-- extraBodyFor
unfoldable pub extra_body_for : Options → Text → Dict Text
extra_body_for o provider = elim (lookup provider o.provider_extra_body) [
  | none ↦ o.extra_body
  | some own ↦ copy (copy [] o.extra_body) own
]

-- An option is a function on the options; `none` where making it panics.
abbrev pub Setter : Type 0
Setter = Options → Option Options

-- The loop over options of applyOptions and Client.callOptions.
unfoldable pub apply_all : List Setter → Options → Option Options
apply_all [] o = some o
apply_all (f ∷ fs) o = elim (f o) [ none ↦ none | some p ↦ apply_all fs p ]

-- applyOptions
unfoldable pub apply_options : List Setter → Option Options
unfolding apply_all
apply_options fs = apply_all fs default_options

-- Client.callOptions: the options of the call over those of the client
unfoldable pub call_options : Options → List Setter → Option Options
unfolding apply_all
call_options client fs = apply_all fs client
