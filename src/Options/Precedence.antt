-- ===== src/Options/Precedence.antt =====
-- Which configuration of a provider wins: smolllm/options.go.
use smolllm_go.Prelude.{◌≡◌, refl, ◌∙◌, ◌≢◌, some, if◌then◌else◌}
use smolllm_go.Text.{Text}
use smolllm_go.Text.Laws.{text_eq-false, text_eq_refl}
use smolllm_go.Options.{
  ProviderConfig, Options, with_provider, provider_base_url, provider_api_key, is_blank, lookup,
}
use smolllm_go.Options.Maps.{lookup-put}

-- After WithProvider the base URL of that provider is the one given, or the default provider's
-- where the given one is blank, whatever was set for the provider before; the base URL and the key
-- of any other provider stay as they were.
pub with_provider-wins :
    (o : Options) (name other : Text) (cfg : ProviderConfig)
    → let p = with_provider name cfg o in
      (provider_base_url p name
        ≡ (if is_blank cfg.base_url then o.default_provider.base_url else cfg.base_url))
      × (provider_api_key p name
          ≡ (if is_blank cfg.api_key then o.default_provider.api_key else cfg.api_key))
      × (name ≢ other
          → (provider_base_url p other ≡ provider_base_url o other)
            × (provider_api_key p other ≡ provider_api_key o other))
unfolding with_provider provider_base_url provider_api_key
with_provider-wins o name other cfg =
    let same : lookup name (with_provider name cfg o).providers ≡ some cfg =
      lookup-put name name cfg o.providers ∙ (rw (text_eq_refl name) refl) in
    (
      rw (same, provider_base_url) refl,
      rw (same, provider_api_key) refl,
      λ n.
          let kept : lookup other (with_provider name cfg o).providers ≡ lookup other o.providers =
            lookup-put name other cfg o.providers ∙ (rw (text_eq-false name other n) refl) in
          (rw (kept, provider_base_url) refl, rw (kept, provider_api_key) refl),
    )
