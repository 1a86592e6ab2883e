-- ===== src/Transport.antt =====
-- smolllm/transport.go: what a leg resolves to before its request is sent. `env` is os.Getenv.
-- `Encoder` stands for the JSON of the request body, which encoding/json and the SDK write.
use smolllm_go.Prelude.{
  ℕ, Bool, true, false, not, ◌&&◌, ◌||◌, Option, none, some, List, [], ◌∷◌, ◌++◌, map, leb, ◌==◌,
  if◌then◌else◌,
}
use smolllm_go.Prelude.Int.{ℤ}
use smolllm_go.Text.{
  Text, lit, text_eq, is_empty, has_prefix, has_suffix, trim_space, trim_suffix, join, upper_byte,
}
use smolllm_go.Call.{Provider, PreparedCall}
use smolllm_go.Errors.{str, quoted, Err, plain, Result, ok, err, ◌>>=◌}
use smolllm_go.Balancer.{Balancer, choose_pair}
use smolllm_go.Options.{
  Dict, Options, reasoning_effort_for, provider_base_url, provider_api_key, provider_headers,
  extra_body_for, is_blank, normalized, any_blank, not_positive,
}
use smolllm_go.Float.{Float, float_one, float_two, out_of_range}
use smolllm_go.Providers.{parse_model_string}
use smolllm_go.Usage.{estimate_tokens}
pub mod Sampling
pub mod Tests

abbrev pub Env : Type 0
Env = Text → Text

-- ReplaceAll(name, "-", "_") and ToUpper, on a byte
abbrev pub env_byte : ℕ → ℕ
env_byte c = if c == b'-' then b'_' else upper_byte c

-- providerEnvKey
unfoldable pub provider_env_key : Text → Text → Text
provider_env_key name suffix = map env_byte name ++ (b'_' ∷ suffix)

-- resolveBaseURL
unfoldable pub resolve_base_url : Env → Provider → Text → Text → Result Text
unfolding provider_env_key
resolve_base_url env prov model_name explicit =
    let env_key = provider_env_key prov.name (lit "BASE_URL") in
    if not (is_blank explicit)
    then ok explicit
    else if is_empty prov.name
    then err (
        plain (
          str (lit "bare model ")
          ∷ quoted model_name
          ∷ str (
              lit
                " requires a base URL. Provide WithProvider(BareProvider, ...) or use provider/model format")
          ∷ []))
    else if not (is_blank (env env_key))
    then ok (env env_key)
    else if is_blank prov.base_url
    then err (
        plain (
          str (lit "base URL not found. set ")
          ∷ str env_key
          ∷ str (lit " or provide WithProvider")
          ∷ []))
    else ok prov.base_url

-- resolveAPIKey
unfoldable pub resolve_api_key : Env → Provider → Text → Text → Result Text
unfolding provider_env_key
resolve_api_key env prov model_name explicit =
    let env_key = provider_env_key prov.name (lit "API_KEY") in
    if not (is_blank explicit)
    then ok explicit
    else if is_empty prov.name
    then err (
        plain (
          str (lit "bare model ")
          ∷ quoted model_name
          ∷ str (
              lit
                " requires an API key. Provide WithProvider(BareProvider, ...) or use provider/model format")
          ∷ []))
    else if not (is_blank (env env_key))
    then ok (env env_key)
    else if text_eq prov.name (lit "ollama")
    then ok (lit "ollama")
    else err (
        plain (
          str (lit "API key not found. set ")
          ∷ str env_key
          ∷ str (lit " or provide WithProvider")
          ∷ []))

-- openAIReasoningEfforts and ollamaReasoningEfforts of smolllm/request.go
abbrev pub openai_efforts : List Text
openai_efforts =
    lit "none" ∷ lit "minimal" ∷ lit "low" ∷ lit "medium" ∷ lit "high" ∷ lit "xhigh" ∷ []

abbrev pub ollama_efforts : List Text
ollama_efforts = lit "none" ∷ lit "low" ∷ lit "medium" ∷ lit "high" ∷ []

abbrev pub allowed_efforts : Text → List Text
allowed_efforts provider =
    if text_eq provider (lit "ollama") then ollama_efforts else openai_efforts

abbrev pub contains : Text → List Text → Bool
contains w [] = false
contains w (v ∷ vs) = text_eq w v || contains w vs

-- normalizeReasoningEffort
unfoldable pub normalize_reasoning_effort : Option Text → Text → Result (Option Text)
unfolding join
normalize_reasoning_effort none provider = ok none
normalize_reasoning_effort (some effort) provider =
    if is_empty (normalized effort)
    then err (plain (str (lit "reasoning_effort must not be empty") ∷ []))
    else if contains (normalized effort) (allowed_efforts provider)
    then ok (some (normalized effort))
    else err (
        plain (
          str (lit "unsupported reasoning_effort=")
          ∷ quoted effort
          ∷ str (lit " for provider ")
          ∷ quoted provider
          ∷ str (lit "; expected one of: ")
          ∷ str (join (lit ", ") (allowed_efforts provider))
          ∷ []))

-- strings.TrimRight(s, "/"), over the reversed text
unfoldable pub drop_slashes : Text → Text
drop_slashes [] = []
drop_slashes (c ∷ s) = if c == b'/' then drop_slashes s else c ∷ s

abbrev pub is_digit : ℕ → Bool
is_digit c = leb 48 c && leb c 57

-- /v\d+$ over the reversed text: digits, then `v/`; the flag is whether a digit was read
unfoldable pub version_tail : Bool → Text → Bool
version_tail seen [] = false
version_tail seen (c ∷ s) =
    let rest = version_tail true s in
    if is_digit c then rest else seen && c == b'v' && has_prefix (lit "/") s

unfoldable pub reversed : Text → Text → Text
reversed [] acc = acc
reversed (c ∷ s) acc = reversed s (c ∷ acc)

unfoldable pub trim_slashes : Text → Text
unfolding drop_slashes reversed
trim_slashes s = reversed (drop_slashes (reversed s [])) []

-- hasVersionSuffix
unfoldable pub has_version_suffix : Text → Bool
unfolding version_tail trim_slashes reversed has_prefix
has_version_suffix url = version_tail false (reversed (trim_slashes url) [])

-- resolveEndpointURL
unfoldable pub resolve_endpoint_url : Text → Text → Text → Text
unfolding has_version_suffix trim_slashes trim_space has_suffix trim_suffix
resolve_endpoint_url base_url provider endpoint =
    let base = trim_space base_url in
    let stripped = trim_slashes base in
    let slash : Text = b'/' ∷ endpoint in
    if text_eq provider (lit "anthropic")
    then if has_version_suffix stripped
      then stripped ++ slash
      else stripped ++ (lit "/v1/" ++ endpoint)
    else if text_eq provider (lit "gemini")
    then if has_version_suffix stripped
      then stripped ++ slash
      else stripped ++ (lit "/v1beta/openai/" ++ endpoint)
    else if has_suffix (lit "#") base
    then trim_suffix (lit "#") base
    else if has_suffix (lit "/") base
    then base ++ endpoint
    else if has_version_suffix base
    then base ++ slash
    else base ++ (lit "/v1/" ++ endpoint)

-- The fields of chatCompletionRequest that the library sets, the messages as the SDK has them.
pub record Payload : Type 0 where
  pub model : Text
  pub stream_usage : Bool
  pub temperature : Option Float
  pub top_p : Option Float
  pub max_tokens : Option ℤ
  pub stop : List Text
  pub seed : Option ℤ
  pub reasoning_effort : Option Text
  pub extra_body : Dict Text

-- json.Marshal of the payload for the turn, merged with the extra fields
abbrev pub Encoder : Type 0
Encoder = Payload → Result Text

abbrev pub some_not_positive : Option ℤ → Bool
some_not_positive none = false
some_not_positive (some n) = not_positive n

-- The range test on a sampling option.
abbrev pub some_out_of_range : Float → Option Float → Bool
some_out_of_range bound none = false
some_out_of_range bound (some x) = out_of_range bound x

abbrev pub plain_text : Text → Err
plain_text t = plain (str t ∷ [])

-- The checks of buildRequestPayload behind the composed messages, and the payload. The text of an
-- error leaves out the number that it prints with %f.
unfoldable pub build_payload : Options → Text → Text → Text → Result Payload
unfolding out_of_range normalize_reasoning_effort reasoning_effort_for extra_body_for
build_payload o spec model_name provider =
    if some_out_of_range float_two o.temperature
    then err (plain_text (lit "temperature must be between 0 and 2 inclusive"))
    else if some_out_of_range float_one o.top_p
    then err (plain_text (lit "top_p must be between 0 and 1 inclusive"))
    else if some_not_positive o.max_tokens
    then err (plain_text (lit "max_tokens must be positive"))
    else if any_blank o.stop
    then err (plain_text (lit "stop sequences must not be empty"))
    else do
      effort ← normalize_reasoning_effort (reasoning_effort_for o spec) provider
      ok (record {
        model = model_name;
        stream_usage = true;
        temperature = o.temperature;
        top_p = o.top_p;
        max_tokens = o.max_tokens;
        stop = o.stop;
        seed = o.seed;
        reasoning_effort = effort;
        extra_body = extra_body_for o provider;
      })

-- buildRequestPayload
unfoldable pub build_request_payload :
    Encoder → Options → Text → Text → Text → Text → Result (Text × Text × ℕ)
unfolding build_payload resolve_endpoint_url estimate_tokens
build_request_payload encode o spec model_name provider base_url =
    if is_blank base_url then err (plain_text (lit "base URL not provided")) else do
      payload ← build_payload o spec model_name provider
      body ← encode payload
      ok (
        resolve_endpoint_url base_url provider (lit "chat/completions"),
        body,
        estimate_tokens body,
      )

-- The steps of prepareLLMCall up to the choice of a pair.
pub record Routing : Type 0 where
  pub provider : Provider
  pub model_name : Text
  pub base_urls : Text
  pub api_keys : Text

unfoldable pub resolve_routing : Env → Options → Text → Result Routing
unfolding parse_model_string resolve_base_url resolve_api_key provider_base_url provider_api_key
resolve_routing env o spec = do
  (prov, model_name) ← parse_model_string spec
  base ← resolve_base_url env prov model_name (provider_base_url o prov.name)
  key ← resolve_api_key env prov model_name (provider_api_key o prov.name)
  ok (record { provider = prov; model_name = model_name; base_urls = base; api_keys = key })

-- The steps behind it.
abbrev pub finish_call : Encoder → Options → Text → Routing → Text × Text → Result PreparedCall
finish_call encode o spec r (key, url) = do
  (endpoint, body, tokens) ← build_request_payload encode o spec r.model_name r.provider.name url
  ok (record {
    url = endpoint;
    body = body;
    provider = r.provider;
    model = spec;
    model_name = r.model_name;
    api_key = key;
    headers = provider_headers o r.provider.name;
    input_tokens = tokens;
  })

-- prepareLLMCall, with the value `v` of the balancer's random source. The balancer counts the
-- chosen pair even where the payload is then refused.
unfoldable pub prepare_llm_call :
    Env → Encoder → Options → Text → Balancer → ℕ → Result PreparedCall × Balancer
unfolding resolve_routing choose_pair build_request_payload provider_headers trim_space
prepare_llm_call env encode o model b v =
    let spec = trim_space model in
    elim (resolve_routing env o spec) [
      | err e ↦ (err e, b)
      | ok r ↦
          let (chosen, b') = choose_pair b r.api_keys r.base_urls v in
          (chosen >>= finish_call encode o spec r, b')
    ]
