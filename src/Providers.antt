-- ===== src/Providers.antt =====
-- smolllm/providers.go: the table of known providers and the parser of model specs.
use Prim.Native.String.{String}
use smolllm_go.Prelude.{ℕ, Option, none, some, [], ◌∷◌, ◌==◌, if◌then◌else◌}
use smolllm_go.Text.{Text, lit, is_empty, trim_space}
use smolllm_go.Call.{Provider}
use smolllm_go.Errors.{str, quoted, plain, Result, ok, err}
use smolllm_go.Options.{Dict, lookup}
pub mod Spec
pub mod Tests

abbrev entry : String → String → Text × Provider
entry name url = (lit name, record { name = lit name; base_url = lit url })

-- providers
unfoldable pub providers : Dict Provider
providers =
    entry "aihubmix" "https://aihubmix.com"
    ∷ entry "anthropic" "https://api.anthropic.com/"
    ∷ entry "azure-openai" ""
    ∷ entry "baichuan" "https://api.baichuan-ai.com"
    ∷ entry "baidu-cloud" "https://qianfan.baidubce.com/v2/"
    ∷ entry "dashscope" "https://dashscope.aliyuncs.com/compatible-mode/v1/"
    ∷ entry "deepseek" "https://api.deepseek.com"
    ∷ entry "dmxapi" "https://www.dmxapi.cn"
    ∷ entry "doubao" "https://ark.cn-beijing.volces.com/api/v3/"
    ∷ entry "fireworks" "https://api.fireworks.ai/inference"
    ∷ entry "gemini" "https://generativelanguage.googleapis.com"
    ∷ entry "gitee-ai" "https://ai.gitee.com"
    ∷ entry "github" "https://models.inference.ai.azure.com/"
    ∷ entry "graphrag-kylin-mountain" ""
    ∷ entry "grok" "https://api.x.ai"
    ∷ entry "groq" "https://api.groq.com/openai"
    ∷ entry "hunyuan" "https://api.hunyuan.cloud.tencent.com"
    ∷ entry "hyperbolic" "https://api.hyperbolic.xyz"
    ∷ entry "infini" "https://cloud.infini-ai.com/maas"
    ∷ entry "jina" "https://api.jina.ai"
    ∷ entry "lmstudio" "http://localhost:1234"
    ∷ entry "minimax" "https://api.minimax.chat/v1/"
    ∷ entry "mistral" "https://api.mistral.ai"
    ∷ entry "modelscope" "https://api-inference.modelscope.cn/v1/"
    ∷ entry "moonshot" "https://api.moonshot.cn"
    ∷ entry "nvidia" "https://integrate.api.nvidia.com"
    ∷ entry "o3" "https://api.o3.fan"
    ∷ entry "ocoolai" "https://api.ocoolai.com"
    ∷ entry "ollama" "http://localhost:11434"
    ∷ entry "openai" "https://api.openai.com"
    ∷ entry "openrouter" "https://openrouter.ai/api/v1/"
    ∷ entry "perplexity" "https://api.perplexity.ai/"
    ∷ entry "ppio" "https://api.ppinfra.com/v3/openai"
    ∷ entry "silicon" "https://api.siliconflow.cn"
    ∷ entry "stepfun" "https://api.stepfun.com"
    ∷ entry "tencent-cloud-ti" "https://api.lkeap.cloud.tencent.com"
    ∷ entry "together" "https://api.together.xyz"
    ∷ entry "xirang" "https://wishub-x1.ctyun.cn"
    ∷ entry "yi" "https://api.lingyiwanwu.com"
    ∷ entry "zhinao" "https://api.360.cn"
    ∷ entry "zhipu" "https://open.bigmodel.cn/api/paas/v4/"
    ∷ []

-- strings.SplitN(s, "/", 2) at the first slash; `none` where there is none
unfoldable pub cut_at : ℕ → Text → Option (Text × Text)
cut_at sep [] = none
cut_at sep (c ∷ s) =
    let rest = cut_at sep s in
    if c == sep then some ([], s) else elim rest [ none ↦ none | some (a, b) ↦ some (c ∷ a, b) ]

abbrev pub known_or : Text → Option Provider → Provider
known_or name none = record { name = name; base_url = [] }
known_or name (some p) = p

-- The part of parseModelString behind the split.
unfoldable pub named_provider : Text → Text → Text → Result (Provider × Text)
unfolding providers lookup
named_provider model name rest =
    let model_name = trim_space rest in
    if is_empty name
    then err (plain (str (lit "provider name missing in model string ") ∷ quoted model ∷ []))
    else if is_empty model_name
    then err (plain (str (lit "model name missing for provider ") ∷ quoted name ∷ []))
    else ok (known_or name (lookup name providers), model_name)

-- parseModelString
unfoldable pub parse_model_string : Text → Result (Provider × Text)
unfolding cut_at named_provider trim_space
parse_model_string raw =
    let model = trim_space raw in
    if is_empty model
    then err (plain (str (lit "model string must not be empty") ∷ []))
    else elim (cut_at b'/' model) [
      | none ↦ ok (record { name = []; base_url = [] }, model)
      | some (name, rest) ↦ named_provider model name rest
    ]
