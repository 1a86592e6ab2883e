-- ===== src/Configuration/Tests.antt =====
-- A configuration, and the theorem about it.
use smolllm_go.Prelude.{if◌then◌else◌, Elem, ℕ, ◌≡◌, refl, ◌≢◌, true, Option, List, [], ◌∷◌}
use smolllm_go.Text.{Text, lit, text_eq, trim_space}
use smolllm_go.Errors.{ok}
use smolllm_go.Options.{Options, default_options, reasoning_effort_for}
use smolllm_go.Balancer.{Balancer, choose_pair}
use smolllm_go.Transport.{Env, Routing, normalize_reasoning_effort, resolve_routing}
use smolllm_go.Configuration.{validate_client}
use smolllm_go.Configuration.Sound.{AllNamed, validate_client_sound}

abbrev env : Env
env name = if text_eq name (lit "OPENAI_API_KEY") then lit "sk-1" else []

abbrev models : List Text
models = lit "openai/gpt-4o" ∷ []

accepted : validate_client env default_options (ok models) ≡ []
unfolding validate_client smolllm_go.Configuration.config_errors
    smolllm_go.Configuration.unmatched_leg_efforts smolllm_go.Configuration.validate_model_config
    smolllm_go.Configuration.model_config smolllm_go.Configuration.unmatched
    smolllm_go.Configuration.sort_texts smolllm_go.Providers.parse_model_string
    smolllm_go.Providers.named_provider smolllm_go.Providers.cut_at smolllm_go.Providers.providers
    smolllm_go.Transport.resolve_base_url smolllm_go.Transport.resolve_api_key
    smolllm_go.Transport.normalize_reasoning_effort smolllm_go.Transport.provider_env_key
    smolllm_go.Options.reasoning_effort_for smolllm_go.Options.provider_base_url
    smolllm_go.Options.provider_api_key smolllm_go.Balancer.build_pairs
accepted = refl

validate_client_sound_example :
    (models ≢ [])
    × AllNamed models default_options.leg_efforts
    × ((m : Text)
        → Elem m models
        → (r : Routing) × (effort : Option Text) × (resolve_routing env default_options
              (trim_space m)
            ≡ ok r)
          × (normalize_reasoning_effort
                (reasoning_effort_for default_options (trim_space m))
                r.provider.name
              ≡ ok effort)
          × ((b : Balancer) (v : ℕ)
              → b.configured ≡ true
              → (p : Text × Text) × (b' : Balancer) × (choose_pair b r.api_keys r.base_urls v
                  ≡ (ok p, b'))))
validate_client_sound_example = validate_client_sound env default_options models accepted
