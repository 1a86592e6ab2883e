-- ===== src/Options/Tests.antt =====
-- Options with a provider, and the theorem about them.
use smolllm_go.Prelude.{◌≡◌, ◌≢◌, [], if◌then◌else◌}
use smolllm_go.Text.{lit}
use smolllm_go.Options.{
  ProviderConfig, default_options, with_provider, provider_base_url, provider_api_key, is_blank,
}
use smolllm_go.Options.Precedence.{with_provider-wins}

abbrev local_config : ProviderConfig
local_config = record { base_url = lit "http://localhost"; api_key = []; headers = [] }

with_provider-wins_example :
    let p = with_provider (lit "ollama") local_config default_options in
    (provider_base_url p (lit "ollama") ≡ (
      if is_blank local_config.base_url
      then default_options.default_provider.base_url
      else local_config.base_url))
    × (provider_api_key p (lit "ollama") ≡ (
        if is_blank local_config.api_key
        then default_options.default_provider.api_key
        else local_config.api_key))
    × (lit "ollama" ≢ lit "openai"
        → (provider_base_url p (lit "openai") ≡ provider_base_url default_options (lit "openai"))
          × (provider_api_key p (lit "openai") ≡ provider_api_key default_options (lit "openai")))
with_provider-wins_example =
    with_provider-wins default_options (lit "ollama") (lit "openai") local_config
