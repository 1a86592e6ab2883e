-- ===== src/Embedding.antt =====
-- smolllm/embed.go: a call for embeddings, which tries one model after another with retries.
use smolllm_go.Prelude.{
  ℕ, suc, Bool, true, false, Option, none, some, List, [], ◌∷◌, ◌++◌, map, ◌==◌, if◌then◌else◌,
  length,
}
use smolllm_go.Prelude.Int.{ℤ, pos, ltb_ℤ}
use smolllm_go.Text.{Text, lit, trim_space}
use smolllm_go.Errors.{
  Disposition, str, num, abort, Err, plain, wrap, LegError, as_err, Result, ok, err, ◌>>=◌, as_http,
  ErrorDecoder, classify, new_leg_error, as_leg_error, join_leg_errors,
}
use smolllm_go.Call.{preview_api_key}
use smolllm_go.Float.{Float}
use smolllm_go.Usage.{Usage, new_usage, estimate_tokens}
use smolllm_go.Message.{Attempt}
use smolllm_go.Options.{Dict, Options, reasoning_effort_for, provider_headers}
use smolllm_go.Balancer.{Balancer, choose_pair}
use smolllm_go.Transport.{
  Env, Routing, resolve_routing, normalize_reasoning_effort, resolve_endpoint_url,
}
use smolllm_go.Retry.{with_retry}
use smolllm_go.Exchange.{Response, http_error, is_failure}
pub mod Sorting
pub mod Aligned
pub mod Tests

-- embeddingRequest, its `input` a single text or several
pub data Input : Type 0 where
  single : Text → Input
  several : List Text → Input

pub record EmbeddingRequest : Type 0 where
  pub model : Text
  pub input : Input
  pub dimensions : ℕ
  pub reasoning_effort : Option Text

-- embeddingDataItem
pub record Item : Type 0 where
  pub index : ℤ
  pub embedding : List Float

-- embeddingAPIResponse, of its usage the prompt_tokens that are read
pub record ApiResponse : Type 0 where
  pub items : List Item
  pub prompt_tokens : Option ℤ

-- EmbeddingResponse
pub record EmbeddingResponse : Type 0 where
  pub embeddings : List (List Float)
  pub model : Text
  pub model_name : Text
  pub provider : Text
  pub usage : Usage

-- What goes over the wire to the transport.
pub record HttpRequest : Type 0 where
  pub url : Text
  pub authorization : Text
  pub headers : Dict Text
  pub body : Text

-- What one attempt meets: the draw of the balancer, an error of http.NewRequest, and what the
-- transport answers to the request.
pub record Meeting : Type 0 where
  pub draw : ℕ
  pub request_error : Option Err
  pub reply : HttpRequest → Result Response

-- What a call is given. `encode` and `decode` are encoding/json on the request and on the body of
-- the response; `meets` and `waited` are by model and by attempt; `hooked` tells whether there is
-- a hook.
pub record Setting : Type 0 where
  pub env : Env
  pub encode : EmbeddingRequest → Result Text
  pub decode : Response → Result ApiResponse
  pub rejection : ErrorDecoder
  pub status_text : ℕ → Text
  pub options : Options
  pub hooked : Bool
  pub meets : ℕ → ℕ → Meeting
  pub waited : ℕ → ℕ → Bool

-- What a call changes: the client's balancer, and the attempts that the hook was called with.
pub record State : Type 0 where
  pub balancer : Balancer
  pub hooks : List Attempt

-- sort.Slice by the index, which leaves the order of items with the same index open
unfoldable pub insert_item : Item → List Item → List Item
insert_item x [] = x ∷ []
insert_item x (y ∷ ys) =
    let rest = insert_item x ys in if ltb_ℤ y.index x.index then y ∷ rest else x ∷ y ∷ ys

unfoldable pub sort_items : List Item → List Item
unfolding insert_item
sort_items [] = []
sort_items (x ∷ xs) = insert_item x (sort_items xs)

abbrev pub vectors : List Item → List (List Float)
vectors items = map (λ (x : Item). x.embedding) items

-- Single string input for one text, slice otherwise.
abbrev pub input_payload : List Text → Input
input_payload (text ∷ []) = single text
input_payload texts = several texts

-- A leg with its routing, its pair and the tokens of its body.
pub record Leg : Type 0 where
  pub spec : Text
  pub routing : Routing
  pub key : Text
  pub url : Text
  pub retries : ℕ
  pub tokens : ℕ

-- `identity` of embedOnce
unfoldable pub identity : Leg → Attempt
unfolding preview_api_key new_usage
identity l = record {
  provider = l.routing.provider.name;
  model = l.spec;
  model_name = l.routing.model_name;
  api_key_hint = preview_api_key l.key;
  retries = l.retries;
  usage = new_usage (pos l.tokens) (pos 0) (pos 0) (pos 0) true;
  emitted = false;
  failure = none;
}

-- The usage that the provider reports, else the estimate.
abbrev pub usage_of_reply : Leg → Option ℤ → Usage
usage_of_reply l none = new_usage (pos l.tokens) (pos 0) (pos 0) (pos 0) true
usage_of_reply l (some n) = new_usage n (pos 0) (pos 0) (pos 0) false

abbrev pub response_of : Leg → ApiResponse → EmbeddingResponse
response_of l api = record {
  embeddings = vectors (sort_items api.items);
  model = l.spec;
  model_name = l.routing.model_name;
  provider = l.routing.provider.name;
  usage = usage_of_reply l api.prompt_tokens;
}

-- The error where the number of vectors is not that of the texts.
abbrev pub miscounted : ℕ → ℕ → Err
miscounted vectors texts = plain (
    str (lit "embedding response returned ")
    ∷ num vectors
    ∷ str (lit " vectors for ")
    ∷ num texts
    ∷ str (lit " inputs")
    ∷ [])

abbrev pub undecoded : Err → Err
undecoded e = wrap (str (lit "decode embedding response: ") ∷ []) e []

-- http.NewRequestWithContext and the headers that are set on the request.
abbrev pub new_request : Options → Leg → Text → HttpRequest
new_request o l body = record {
  url = l.url;
  authorization = lit "Bearer " ++ l.key;
  headers = provider_headers o l.routing.provider.name;
  body = body;
}

abbrev pub new_leg : Routing → Text → ℕ → Text → Text → Text → Leg
new_leg r spec retries key url body = record {
  spec = spec;
  routing = r;
  key = key;
  url = resolve_endpoint_url url r.provider.name (lit "embeddings");
  retries = retries;
  tokens = estimate_tokens body;
}

-- Whether the loop of Client.Embed goes on behind a failed leg.
abbrev pub goes_on : Disposition → Bool
goes_on Disposition.retry = true
goes_on Disposition.advance = true
goes_on Disposition.abort = false

module _ (c : Setting) where
  abbrev pub call_hook : Attempt → State → State
  call_hook a s = if c.hooked then record s { hooks = s.hooks ++ (a ∷ []) } else s

  -- `fail` of embedOnce
  unfoldable pub fail : Leg → Err → State → Result EmbeddingResponse × State
  unfolding identity preview_api_key classify as_http
  fail l e s =
      let failure : LegError = record {
        info = record {
          provider = l.routing.provider.name;
          model = l.spec;
          model_name = l.routing.model_name;
          api_key_hint = preview_api_key l.key;
          retries = l.retries;
          status_code = elim (as_http e) [ none ↦ 0 | some h ↦ h.status_code ];
          disposition = classify c.rejection e;
        };
        cause = e;
      } in
      (err (as_err failure), call_hook (record (identity l) { failure = some failure }) s)

  -- embedOnce behind a decoded response
  unfoldable pub deliver : Leg → List Text → ApiResponse → State → Result EmbeddingResponse × State
  unfolding fail sort_items identity new_usage
  deliver l texts api s =
      if length api.items == length texts
      then (
        ok (response_of l api),
        call_hook (record (identity l) { usage = usage_of_reply l api.prompt_tokens }) s,
      )
      else fail l (miscounted (length api.items) (length texts)) s

  -- embedOnce behind the answer of the transport
  unfoldable pub receive :
      Leg → List Text → Result Response → State → Result EmbeddingResponse × State
  unfolding deliver fail http_error
  receive l texts (err e) s = fail l e s
  receive l texts (ok r) s =
      if is_failure r.status
      then fail l (http_error c.status_text r) s
      else elim (c.decode r) [ err e ↦ fail l (undecoded e) s | ok api ↦ deliver l texts api s ]

  -- embedOnce from http.NewRequest on
  unfoldable pub send : Meeting → Leg → List Text → Text → State → Result EmbeddingResponse × State
  unfolding fail receive provider_headers
  send w l texts body s = elim w.request_error [
    | some e ↦ fail l e s
    | none ↦ receive l texts (w.reply (new_request c.options l body)) s
  ]

  abbrev pub refuse : Text → ℕ → Err → State → Result EmbeddingResponse × State
  refuse model retries e s = (err (as_err (new_leg_error c.rejection none model retries e)), s)

  -- The request of embedOnce: its reasoning effort and its JSON.
  unfoldable pub encode_request : Routing → Text → List Text → Result (Result Text)
  unfolding normalize_reasoning_effort reasoning_effort_for
  encode_request r spec texts =
      normalize_reasoning_effort (reasoning_effort_for c.options spec) r.provider.name
      >>= (λ effort. ok (
          c.encode (record {
            model = r.model_name;
            input = input_payload texts;
            dimensions = c.options.dimensions;
            reasoning_effort = effort;
          })))

  -- embedOnce behind the encoded request
  abbrev pub send_encoded :
      Meeting
      → Routing
      → List Text
      → Text
      → ℕ
      → Text × Text
      → State
      → Result (Result Text)
      → Result EmbeddingResponse × State
  send_encoded w r texts model retries pair s (err e) = refuse model retries e s
  send_encoded w r texts model retries pair s (ok (err e)) =
      (err (wrap (str (lit "encode embedding request: ") ∷ []) e []), s)
  send_encoded w r texts model retries (key, url) s (ok (ok body)) =
      send w (new_leg r (trim_space model) retries key url body) texts body s

  -- embedOnce behind the choice of a pair
  abbrev pub request_pair :
      Meeting
      → Routing
      → List Text
      → Text
      → ℕ
      → State
      → Result (Text × Text)
      → Result EmbeddingResponse × State
  request_pair w r texts model retries s (err e) = refuse model retries e s
  request_pair w r texts model retries s (ok pair) =
      send_encoded w r texts model retries pair s (encode_request r (trim_space model) texts)

  -- embedOnce behind the resolution
  abbrev pub route :
      Meeting → List Text → Text → ℕ → State → Result Routing → Result EmbeddingResponse × State
  route w texts model retries s (err e) = refuse model retries e s
  route w texts model retries s (ok r) =
      let (chosen, b) = choose_pair s.balancer r.api_keys r.base_urls w.draw in
      request_pair w r texts model retries (record s { balancer = b }) chosen

  -- embedOnce
  unfoldable pub embed_once :
      Meeting → List Text → Text → ℕ → State → Result EmbeddingResponse × State
  unfolding send encode_request resolve_routing choose_pair new_leg_error resolve_endpoint_url
      estimate_tokens
  embed_once w texts model retries s =
      route w texts model retries s (resolve_routing c.env c.options (trim_space model))

  -- A model with its retries.
  unfoldable pub embed_model :
      ℕ → List Text → Text → State → List ℕ × Result (Option EmbeddingResponse) × State
  unfolding with_retry embed_once
  embed_model n texts model s =
      with_retry c.rejection (c.waited n)
        (λ retries t. embed_once (c.meets n retries) texts model retries t) c.options.max_retries 0
        none s

  -- The end of a turn of the loop: `errors` are those of the legs before, `rest` the turns to come.
  abbrev pub end_leg :
      Text
      → List Err
      → State
      → (List Err → Result (Option EmbeddingResponse) × State)
      → Result (Option EmbeddingResponse)
      → Result (Option EmbeddingResponse) × State
  end_leg model errors s rest (ok r) = (ok r, s)
  end_leg model errors s rest (err e) =
      let l = as_leg_error c.rejection model e in
      let failed = errors ++ (as_err l ∷ []) in
      if goes_on l.info.disposition then rest failed else (err (join_leg_errors failed), s)

  -- The loop of Client.Embed over the models, on the errors of the legs before.
  unfoldable pub embed_legs :
      ℕ → List Text → List Text → List Err → State → Result (Option EmbeddingResponse) × State
  unfolding embed_model as_leg_error join_leg_errors
  embed_legs n texts [] errors s = (err (join_leg_errors errors), s)
  embed_legs n texts (m ∷ ms) errors s =
      let (waits, result, t) = embed_model n texts m s in
      end_leg m errors t (λ failed. embed_legs (suc n) texts ms failed t) result

  -- Client.Embed, on what createSelector gives and its selector hands out. The response is a
  -- pointer, `none` where it is nil.
  unfoldable pub embed :
      List Text → Result (List Text) → State → Result (Option EmbeddingResponse) × State
  unfolding embed_legs
  embed [] models s = (err (plain (str (lit "input must not be empty") ∷ [])), s)
  embed (text ∷ texts) (err e) s = (err e, s)
  embed (text ∷ texts) (ok models) s = embed_legs 0 (text ∷ texts) models [] s
