-- ===== src/Configuration.antt =====
-- smolllm/validation.go: the check of a configuration before any request.
use smolllm_go.Prelude.{
  Elem, Elem-append, get_or, Elem-get_or, ℕ, zero, suc, ◌+◌, ◌-◌, ◌*◌, ◌/◌, ◌%◌, ◌^◌, ◌≤◌, ◌<◌, min,
  ◌≡◌, refl, sym, ap, ◌∙◌, ◌≢◌, ◌↔◌, ◌⊎◌, inl, inr, Bool, true, false, not, ◌&&◌, ◌||◌, Option,
  none, some, List, [], ◌∷◌, ◌++◌, map, append-nil, append_assoc, arith, ltb, leb, ◌==◌,
  if◌then◌else◌, ==_iff, ==_refl, Bool-cases, Option-cases, is_some, length, get_elem?, take, drop,
  length-append, take-append-drop, length-drop, drop-length, length-map, All, All-append,
}
use smolllm_go.Text.{
  Text, lit, text_eq, is_empty, has_prefix, has_suffix, trim_space, trim_left, trim_right,
  trim_suffix, split, join, index, lower_byte, upper_byte, itoa,
}
use smolllm_go.Call.{Provider}
use smolllm_go.Errors.{Err, plain, wrap, str, quoted, Result, ok, err, ◌>>=◌, context}
use smolllm_go.Options.{
  Dict, Options, leg_spec_key, reasoning_effort_for, provider_base_url, provider_api_key,
}
use smolllm_go.Providers.{parse_model_string}
use smolllm_go.Balancer.{PairKey, build_pairs, validate_key_url_pairs}
use smolllm_go.Transport.{Env, resolve_base_url, resolve_api_key, normalize_reasoning_effort}
pub mod Sound
pub mod Tests

-- The steps of validateModelConfig behind the wrapping of their errors; the log line is left out.
unfoldable pub model_config : Env → Options → Text → Result (List PairKey)
unfolding parse_model_string normalize_reasoning_effort resolve_base_url resolve_api_key
model_config env o spec = do
  (prov, model_name) ← parse_model_string spec
  effort ← normalize_reasoning_effort (reasoning_effort_for o spec) prov.name
  base ← resolve_base_url env prov model_name (provider_base_url o prov.name)
  key ← resolve_api_key env prov model_name (provider_api_key o prov.name)
  build_pairs key base

-- validateModelConfig; `none` is its nil
unfoldable pub validate_model_config : Env → Options → Text → Option Err
unfolding model_config
validate_model_config env o model = elim (model_config env o (trim_space model)) [
  | ok ps ↦ none
  | err e ↦ some (wrap (str (lit "validate ") ∷ quoted model ∷ str (lit ": ") ∷ []) e [])
]

-- a < b for strings, byte by byte
unfoldable pub text_lt : Text → Text → Bool
text_lt s [] = false
text_lt [] (d ∷ t) = true
text_lt (c ∷ s) (d ∷ t) = let rest = text_lt s t in if c == d then rest else ltb c d

unfoldable pub insert_text : Text → List Text → List Text
unfolding text_lt
insert_text t [] = t ∷ []
insert_text t (u ∷ us) = let rest = insert_text t us in if text_lt u t then u ∷ rest else t ∷ u ∷ us

-- slices.Sort
unfoldable pub sort_texts : List Text → List Text
unfolding insert_text
sort_texts [] = []
sort_texts (t ∷ ts) = insert_text t (sort_texts ts)

abbrev pub in_chain : Text → List Text → Bool
in_chain spec [] = false
in_chain spec (m ∷ ms) = text_eq (leg_spec_key m) spec || in_chain spec ms

-- The overrides that name no leg of the chain.
unfoldable pub unmatched : List Text → Dict Text → List Text
unmatched chain [] = []
unmatched chain ((spec, effort) ∷ efforts) =
    let rest = unmatched chain efforts in if in_chain spec chain then rest else spec ∷ rest

abbrev pub unmatched_error : Text → Err
unmatched_error spec = plain (
    str (lit "WithLegReasoningEffort names model ")
    ∷ quoted spec
    ∷ str (lit ", which is not in the chain")
    ∷ [])

-- unmatchedLegEfforts, on the models of the chain
unfoldable pub unmatched_leg_efforts : Options → List Text → List Err
unfolding unmatched sort_texts
unmatched_leg_efforts o chain = map unmatched_error (sort_texts (unmatched chain o.leg_efforts))

-- An error of a model is appended to the others, a nil is not.
abbrev pub append_error : Option Err → List Err → List Err
append_error none rest = rest
append_error (some e) rest = e ∷ rest

-- The loop of Client.Validate over the models.
unfoldable pub config_errors : Env → Options → List Text → List Err
config_errors env o [] = []
config_errors env o (m ∷ ms) = append_error (validate_model_config env o m) (config_errors env o ms)

-- Client.Validate, on what createSelector gives and its selector hands out. The result is the list
-- that errors.Join joins, which is nil where it is empty.
unfoldable pub validate_client : Env → Options → Result (List Text) → List Err
unfolding config_errors unmatched_leg_efforts
validate_client env o (err e) = e ∷ []
validate_client env o (ok []) =
    plain (str (lit "no models were configured for validation") ∷ []) ∷ []
validate_client env o (ok (m ∷ ms)) =
    config_errors env o (m ∷ ms) ++ unmatched_leg_efforts o (m ∷ ms)
