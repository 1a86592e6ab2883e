-- ===== src/Configuration/Sound.antt =====
-- What a configuration that passes Validate is good for.
use mathlib.Core.Path.{subst}
use smolllm_go.Providers.{parse_model_string}
use smolllm_go.Prelude.{
  Elem, ℕ, ◌≡◌, refl, sym, ap, ◌∙◌, ◌≢◌, ◌⊎◌, inl, inr, true, Option, none, some, List, [], ◌∷◌,
  ◌++◌, map, arith, Bool-cases, All,
}
use smolllm_go.Text.{lit, Text, trim_space}
use smolllm_go.Call.{Provider}
use smolllm_go.Errors.{wrap, str, quoted, Err, Result, ok, err}
use smolllm_go.Options.{Dict, Options, reasoning_effort_for, provider_base_url, provider_api_key}
use smolllm_go.Balancer.{PairKey, Balancer, build_pairs, choose_pair}
use smolllm_go.Balancer.Pairs.{>>=-eq-ok}
use smolllm_go.Balancer.Fairness.{choose_pair-fair}
use smolllm_go.Transport.{
  Env, Routing, normalize_reasoning_effort, resolve_routing, resolve_base_url, resolve_api_key,
}
use smolllm_go.Configuration.{
  append_error, model_config, validate_model_config, unmatched, in_chain, unmatched_leg_efforts,
  config_errors, validate_client, sort_texts, insert_text, unmatched_error,
}

-- A leg that can be prepared: its provider, URL and key are found, its lists pair up, and its
-- provider takes its reasoning effort.
abbrev pub IsPreparable : Env → Options → Text → Type 0
IsPreparable env o spec =
    (r : Routing) × (ps : List PairKey) × (effort : Option Text) × (resolve_routing env o spec
      ≡ ok r)
    × (build_pairs r.api_keys r.base_urls ≡ ok ps)
    × (normalize_reasoning_effort (reasoning_effort_for o spec) r.provider.name ≡ ok effort)

Result-cases {ℓ} : {A : Type ℓ} (r : Result A) → ((a : A) × (r ≡ ok a)) ⊎ ((e : Err) × (r ≡ err e))
Result-cases (ok a) = inl (a, refl)
Result-cases (err e) = inr (e, refl)

routing_of :
    (env : Env) (o : Options) (spec : Text) (x : Provider × Text) (base key : Text)
    → parse_model_string spec ≡ ok x
    → resolve_base_url env x.0 x.1 (provider_base_url o x.0.name) ≡ ok base
    → resolve_api_key env x.0 x.1 (provider_api_key o x.0.name) ≡ ok key
    → resolve_routing env o spec
      ≡ ok (record { provider = x.0; model_name = x.1; base_urls = base; api_keys = key })
unfolding resolve_routing
routing_of env o spec x base key a c d = rw (a, c, d) refl

model_config-IsPreparable :
    (env : Env) (o : Options) (spec : Text) {ps : List PairKey}
    → model_config env o spec ≡ ok ps
    → IsPreparable env o spec
unfolding model_config
model_config-IsPreparable env o spec {ps} h =
    let (x, a, h₁) = >>=-eq-ok (parse_model_string spec) _ h in
    let (effort, b, h₂) =
      >>=-eq-ok (normalize_reasoning_effort (reasoning_effort_for o spec) x.0.name) _ h₁ in
    let (base, c, h₃) =
      >>=-eq-ok (resolve_base_url env x.0 x.1 (provider_base_url o x.0.name)) _ h₂ in
    let (key, d, h₄) = >>=-eq-ok (resolve_api_key env x.0 x.1 (provider_api_key o x.0.name)) _ h₃ in
    let r : Routing = record {
      provider = x.0;
      model_name = x.1;
      base_urls = base;
      api_keys = key;
    } in
    (r, ps, effort, routing_of env o spec x base key a c d, h₄, b)

validated :
    (env : Env) (o : Options) (k : Text)
    → ((ps : List PairKey) × (model_config env o (trim_space k) ≡ ok ps)
        × (validate_model_config env o k ≡ none))
      ⊎ ((e : Err) × (validate_model_config env o k ≡ some e))
unfolding validate_model_config
validated env o k = elim (Result-cases (model_config env o (trim_space k))) [
  | inl (ps, e) ↦ inl (ps, e, rw (e, validate_model_config) refl)
  | inr (x, e) ↦ inr (
    wrap (str (lit "validate ") ∷ quoted k ∷ str (lit ": ") ∷ []) x [],
    rw (e, validate_model_config) refl,
  )
]

module _ (env : Env) (o : Options) (k : Text) (ms : List Text) where
  config_errors-none :
      validate_model_config env o k ≡ none → config_errors env o (k ∷ ms) ≡ config_errors env o ms
  unfolding config_errors
  config_errors-none h = ap (λ v. append_error v (config_errors env o ms)) h

  config_errors-some :
      (e : Err)
      → validate_model_config env o k ≡ some e
      → config_errors env o (k ∷ ms) ≡ e ∷ config_errors env o ms
  unfolding config_errors
  config_errors-some e h = ap (λ v. append_error v (config_errors env o ms)) h

-- Where the error list is empty there is no error of a model.
config_errors-IsPreparable :
    (env : Env) (o : Options) (ms : List Text) (m : Text)
    → config_errors env o ms ≡ []
    → Elem m ms
    → IsPreparable env o (trim_space m)
config_errors-IsPreparable env o [] m h i = absurd i
config_errors-IsPreparable env o (k ∷ ms) m h i = elim (validated env o k) [
  | inl (ps, e, z) ↦ elim i [
    | inl same ↦
        subst (λ x. IsPreparable env o (trim_space x)) (sym same)
          (model_config-IsPreparable env o (trim_space k) e)
    | inr j ↦ config_errors-IsPreparable env o ms m (sym (config_errors-none env o k ms z) ∙ h) j
  ]
  | inr (x, e) ↦ cc (sym (config_errors-some env o k ms x e) ∙ h)
]

insert_text-ne-nil : (t : Text) (us : List Text) → insert_text t us ≢ []
unfolding insert_text
insert_text-ne-nil t [] h = cc
insert_text-ne-nil t (u ∷ us) h = ground arith

sort_texts-nil : (ts : List Text) → map unmatched_error (sort_texts ts) ≡ [] → ts ≡ []
unfolding sort_texts
sort_texts-nil [] h = refl
sort_texts-nil (t ∷ ts) h =
    absurd (insert_text-ne-nil t (sort_texts ts) (map-nil (sort_texts (t ∷ ts)) h))
  where
    map-nil : (us : List Text) → map unmatched_error us ≡ [] → us ≡ []
    map-nil [] k = refl
    map-nil (u ∷ us) k = cc

append-nil_parts {ℓ} : {A : Type ℓ} (xs ys : List A) → xs ++ ys ≡ [] → (xs ≡ []) × (ys ≡ [])
append-nil_parts [] ys h = (refl, h)
append-nil_parts (x ∷ xs) ys h = cc

-- Every override names a leg of the chain.
abbrev pub AllNamed : List Text → Dict Text → Type 0
AllNamed chain = All (λ (p : Text × Text). in_chain p.0 chain ≡ true)

unmatched-AllNamed :
    (chain : List Text) (efforts : Dict Text)
    → unmatched chain efforts ≡ []
    → AllNamed chain efforts
unfolding unmatched
unmatched-AllNamed chain [] h = tt
unmatched-AllNamed chain ((spec, effort) ∷ efforts) h = elim (Bool-cases (in_chain spec chain)) [
  | inl e ↦ (e, unmatched-AllNamed chain efforts (rw e at h))
  | inr e ↦ cc (rw e at h)
]

-- A configuration that Validate reports no error for is usable: there is a model; every leg of the
-- chain finds its provider, base URL and key, and its provider takes its reasoning effort; a
-- balancer that newBalancer made then always chooses a key and a URL for it; and every override of
-- an effort names a leg of the chain.
pub validate_client_sound :
    (env : Env) (o : Options) (ms : List Text)
    → validate_client env o (ok ms) ≡ []
    → (ms ≢ [])
      × AllNamed ms o.leg_efforts
      × ((m : Text)
          → Elem m ms
          → (r : Routing) × (effort : Option Text) × (resolve_routing env o (trim_space m) ≡ ok r)
            × (normalize_reasoning_effort (reasoning_effort_for o (trim_space m)) r.provider.name
                ≡ ok effort)
            × ((b : Balancer) (v : ℕ)
                → b.configured ≡ true
                → (p : Text × Text) × (b' : Balancer) × (choose_pair b r.api_keys r.base_urls v
                    ≡ (ok p, b'))))
unfolding validate_client unmatched_leg_efforts
validate_client_sound env o [] h = cc
validate_client_sound env o (k ∷ ms) h =
    let (a, b) = append-nil_parts (config_errors env o (k ∷ ms)) _ h in
    (
      (λ e. cc),
      unmatched-AllNamed (k ∷ ms) o.leg_efforts
          (sort_texts-nil (unmatched (k ∷ ms) o.leg_efforts) b),
      λ m i.
          let (r, ps, effort, x, y, z) = config_errors-IsPreparable env o (k ∷ ms) m a i in
          (
            r,
            effort,
            x,
            z,
            λ c v q.
                let (p, b', e, f, g) = choose_pair-fair c r.api_keys r.base_urls v y q in
                ((p.key, p.url), b', e),
          ),
    )
