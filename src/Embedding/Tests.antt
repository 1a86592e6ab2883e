-- ===== src/Embedding/Tests.antt =====
-- A call that embeds two texts, and the theorem about it.
use mathlib.Core.Path.{subst}
use smolllm_go.Prelude.{
  arith, ℕ, ◌≡◌, refl, true, false, none, some, List, [], ◌∷◌, if◌then◌else◌, length, All,
}
use smolllm_go.Prelude.Int.{pos}
use smolllm_go.Text.{Text, lit, text_eq}
use smolllm_go.Errors.{ok}
use smolllm_go.Float.{float_zero, float_one}
use smolllm_go.Balancer.{new_balancer}
use smolllm_go.Transport.{Env}
use smolllm_go.Options.{default_options}
use smolllm_go.Exchange.{Response, is_failure}
use smolllm_go.Embedding.{ApiResponse, EmbeddingResponse, HttpRequest, Setting, State, embed}
use smolllm_go.Embedding.Sorting.{IsNumbered, IsInPlace}
use smolllm_go.Embedding.Aligned.{embed-aligned}

abbrev env : Env
env name = if text_eq name (lit "OPENAI_API_KEY") then lit "sk-1" else []

abbrev reply : Response
reply = record {
  status = 200;
  should_retry = [];
  body = lit "{}";
  read_error = none;
  wire = record { lines = []; scan_error = none; context_error = none };
}

-- The provider answers in the wrong order.
abbrev swapped : ApiResponse
swapped = record {
  items =
      record { index = pos 1; embedding = float_one ∷ [] }
      ∷ record { index = pos 0; embedding = float_zero ∷ [] }
      ∷ [];
  prompt_tokens = some (pos 4);
}

abbrev setting : Setting
setting = record {
  env = env;
  encode = λ q. ok (lit "{}");
  decode = λ r. ok swapped;
  rejection = λ t. none;
  status_text = λ n. [];
  options = default_options;
  hooked = false;
  meets = λ n i. record { draw = 0; request_error = none; reply = λ q. ok reply };
  waited = λ n i. true;
}

abbrev texts : List Text
texts = lit "a" ∷ lit "b" ∷ []

abbrev before : State
before = record { balancer = new_balancer; hooks = [] }

abbrev given : EmbeddingResponse
given = record {
  embeddings = (float_zero ∷ []) ∷ (float_one ∷ []) ∷ [];
  model = lit "openai/emb";
  model_name = lit "emb";
  provider = lit "openai";
  usage = record {
    input = pos 4;
    output = pos 0;
    cache_read = pos 0;
    reasoning = pos 0;
    total = pos 4;
    estimated = false;
  };
}

embedded : (embed setting texts (ok (lit "openai/emb" ∷ [])) before).0 ≡ ok (some given)
unfolding embed
embedded = refl

swapped-IsNumbered : IsNumbered swapped.items
swapped-IsNumbered =
    (((1, refl, omega arith), ((0, refl, omega arith), tt)), (((λ e. cc), tt), (tt, tt)))

numbered : (r : Response) (api : ApiResponse) → setting.decode r ≡ ok api → IsNumbered api.items
numbered r api e =
    let same : swapped ≡ api = cc e in
    subst (λ (x : ApiResponse). IsNumbered x.items) same swapped-IsNumbered

embed-aligned_example :
    (length given.embeddings ≡ length texts)
    × ((n i : ℕ) × (q : HttpRequest) × (r : Response) × (api : ApiResponse) × ((setting.meets n
              i).reply
            q
          ≡ ok r)
        × (is_failure r.status ≡ false)
        × (setting.decode r ≡ ok api)
        × All (IsInPlace given.embeddings) api.items)
embed-aligned_example =
    embed-aligned setting texts (ok (lit "openai/emb" ∷ [])) before given numbered embedded
