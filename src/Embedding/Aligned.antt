-- ===== src/Embedding/Aligned.antt =====
-- What a response of Client.Embed of smolllm/embed.go holds.
use smolllm_go.Prelude.{
  ℕ, suc, ◌≡◌, sym, ap, ◌∙◌, ◌≢◌, ◌⊎◌, inl, inr, false, Option, none, some, List, [], ◌∷◌, ◌++◌,
  ◌==◌, ==_iff, Bool-cases, Option-cases, length, length-map, All,
}
use smolllm_go.Text.{Text, trim_space}
use smolllm_go.Errors.{Err, as_err, Result, ok, err, as_leg_error}
use smolllm_go.Retry.Rounds.{Result-cases}
use smolllm_go.Retry.Found.{with_retry-Gives}
use smolllm_go.Transport.{Routing, resolve_routing}
use smolllm_go.Balancer.{choose_pair}
use smolllm_go.Exchange.{Response, is_failure, http_error}
use smolllm_go.Embedding.{
  Item, ApiResponse, EmbeddingResponse, HttpRequest, Meeting, Setting, State, Leg, sort_items,
  vectors, fail, deliver, receive, send, send_encoded, route, end_leg, goes_on, encode_request,
  request_pair, embed_once, embed_model, embed_legs, embed, response_of, miscounted, undecoded,
  new_request, new_leg,
}
use smolllm_go.Embedding.Sorting.{IsNumbered, IsInPlace, length-sort, sort_items-IsInPlace}

-- The response was made from the transport's answer to a request: no HTTP failure, as many items as
-- there are texts, and the embeddings are theirs.
abbrev pub IsAnswer : Setting → Meeting → List Text → EmbeddingResponse → Type 0
IsAnswer c w texts a =
    (q : HttpRequest) × (r : Response) × (api : ApiResponse) × (w.reply q ≡ ok r)
    × (is_failure r.status ≡ false)
    × (c.decode r ≡ ok api)
    × (length api.items ≡ length texts)
    × (a.embeddings ≡ vectors (sort_items api.items))

module _ (c : Setting) (w : Meeting) (texts : List Text) (a : EmbeddingResponse) where
  fail-err : (l : Leg) (e : Err) (s : State) → (fail c l e s).0 ≢ ok a
  unfolding fail
  fail-err l e s h = cc

  deliver-ok :
      (l : Leg) (api : ApiResponse) (s : State)
      → (deliver c l texts api s).0 ≡ ok a
      → (length api.items ≡ length texts) × (a.embeddings ≡ vectors (sort_items api.items))
  unfolding deliver
  deliver-ok l api s h = elim (Bool-cases (length api.items == length texts)) [
    | inl e ↦
        let same : ok (response_of l api) ≡ ok a = rw e at h in
        let eq : response_of l api ≡ a = cc same in
        ((==_iff _ _).0 e, ap (λ (x : EmbeddingResponse). x.embeddings) (sym eq))
    | inr e ↦ absurd (fail-err l (miscounted (length api.items) (length texts)) s (rw e at h))
  ]

  receive-ok :
      (l : Leg) (q : HttpRequest) (s : State)
      → (receive c l texts (w.reply q) s).0 ≡ ok a
      → IsAnswer c w texts a
  unfolding receive
  receive-ok l q s h = elim (Result-cases (w.reply q)) [
    | inr (e, p) ↦ absurd (fail-err l e s (rw p at h))
    | inl (r, p) ↦ elim (Bool-cases (is_failure r.status)) [
      | inl f ↦ absurd (fail-err l (http_error c.status_text r) s (rw (p, f) at h))
      | inr f ↦ elim (Result-cases (c.decode r)) [
        | inr (e, d) ↦ absurd (fail-err l (undecoded e) s (rw (p, f, d) at h))
        | inl (api, d) ↦
            let (n, v) = deliver-ok l api s (rw (p, f, d) at h) in (q, r, api, p, f, d, n, v)
      ]
    ]
  ]

  send-ok :
      (l : Leg) (body : Text) (s : State)
      → (send c w l texts body s).0 ≡ ok a
      → IsAnswer c w texts a
  unfolding send
  send-ok l body s h = elim (Option-cases w.request_error) [
    | inl e ↦ receive-ok l (new_request c.options l body) s (rw e at h)
    | inr (x, e) ↦ absurd (fail-err l x s (rw e at h))
  ]

  send_encoded-ok :
      (r : Routing) (model : Text) (retries : ℕ) (pair : Text × Text) (s : State)
      (b : Result (Result Text))
      → (send_encoded c w r texts model retries pair s b).0 ≡ ok a
      → IsAnswer c w texts a
  send_encoded-ok r model retries pair s (err e) h = cc
  send_encoded-ok r model retries pair s (ok (err e)) h = cc
  send_encoded-ok r model retries (key, url) s (ok (ok body)) h =
      send-ok (new_leg r (trim_space model) retries key url body) body s h

  route-ok :
      (model : Text) (retries : ℕ) (s : State) (x : Result Routing)
      → (route c w texts model retries s x).0 ≡ ok a
      → IsAnswer c w texts a
  route-ok model retries s (err e) h = cc
  route-ok model retries s (ok r) h =
      let (chosen, b) = choose_pair s.balancer r.api_keys r.base_urls w.draw in
      paired r (record s { balancer = b }) chosen h
    where
      paired :
          (r : Routing) (t : State) (x : Result (Text × Text))
          → (request_pair c w r texts model retries t x).0 ≡ ok a
          → IsAnswer c w texts a
      paired r t (err e) k = cc
      paired r t (ok pair) k =
          send_encoded-ok r model retries pair t (encode_request c r (trim_space model) texts) k

  embed_once-ok :
      (model : Text) (retries : ℕ) (s : State)
      → (embed_once c w texts model retries s).0 ≡ ok a
      → IsAnswer c w texts a
  unfolding embed_once
  embed_once-ok model retries s h =
      route-ok model retries s (resolve_routing c.env c.options (trim_space model)) h

module _ (c : Setting) (texts : List Text) where
  -- The response comes from an attempt at a model of the call.
  abbrev pub FromAttempt : EmbeddingResponse → Type 0
  FromAttempt a = (leg i : ℕ) × IsAnswer c (c.meets leg i) texts a

  embed_model-ok :
      (n : ℕ) (model : Text) (s : State) (a : EmbeddingResponse)
      → (embed_model c n texts model s).1 ≡ ok (some a)
      → FromAttempt a
  unfolding embed_model
  embed_model-ok n model s a h =
      let (i, u, e) =
        with_retry-Gives c.rejection (c.waited n)
          (λ i t. embed_once c (c.meets n i) texts model i t) c.options.max_retries 0 none s a h in
      (n, i, embed_once-ok c (c.meets n i) texts a model i u e)

  end_leg-ok :
      (m : Text) (errors : List Err) (s : State) (a : EmbeddingResponse)
      (rest : List Err → Result (Option EmbeddingResponse) × State)
      (x : Result (Option EmbeddingResponse))
      → (end_leg c m errors s rest x).0 ≡ ok (some a)
      → (x ≡ ok (some a)) ⊎ ((failed : List Err) × ((rest failed).0 ≡ ok (some a)))
  end_leg-ok m errors s a rest (ok r) h = inl h
  end_leg-ok m errors s a rest (err e) h =
      let l = as_leg_error c.rejection m e in
      elim (Bool-cases (goes_on l.info.disposition)) [
        | inl q ↦ inr (errors ++ (as_err l ∷ []), rw q at h)
        | inr q ↦ cc (rw q at h)
      ]

  embed_legs-ok :
      (n : ℕ) (ms : List Text) (errors : List Err) (s : State) (a : EmbeddingResponse)
      → (embed_legs c n texts ms errors s).0 ≡ ok (some a)
      → FromAttempt a
  unfolding embed_legs
  embed_legs-ok n [] errors s a h = cc
  embed_legs-ok n (m ∷ ms) errors s a h =
      let (waits, x, t) = embed_model c n texts m s in
      elim (end_leg-ok m errors t a (λ f. embed_legs c (suc n) texts ms f t) x h) [
        | inl e ↦ embed_model-ok n m s a e
        | inr (f, e) ↦ embed_legs-ok (suc n) ms f t a e
      ]

-- Where the provider numbers the items of its answers from 0 on, each number once and in whatever
-- order, a response of Client.Embed has one embedding for each text, and each is the one that the
-- provider numbered with the text's place: the response was made from an answer that the transport
-- gave to a request of one of the call's attempts, below status 400 and decoded, and the embedding
-- of every item of that answer stands at the item's index.
pub embed-aligned :
    (c : Setting) (texts : List Text) (models : Result (List Text)) (s : State)
    (a : EmbeddingResponse)
    → ((r : Response) (api : ApiResponse) → c.decode r ≡ ok api → IsNumbered api.items)
    → (embed c texts models s).0 ≡ ok (some a)
    → (length a.embeddings ≡ length texts)
      × ((n i : ℕ) × (q : HttpRequest) × (r : Response) × (api : ApiResponse) × ((c.meets n i).reply
              q
            ≡ ok r)
          × (is_failure r.status ≡ false)
          × (c.decode r ≡ ok api)
          × All (IsInPlace a.embeddings) api.items)
unfolding embed
embed-aligned c [] models s a m h = cc
embed-aligned c (t ∷ ts) (err e) s a m h = cc
embed-aligned c (t ∷ ts) (ok models) s a m h =
    let (n₀, i, (q, r, api, x, y, z, n, v)) = embed_legs-ok c (t ∷ ts) 0 models [] s a h in
    (
      rw v (length-map (sort_items api.items) (λ (x : Item). x.embedding))
          ∙ (length-sort api.items ∙ n),
      (n₀, i, q, r, api, x, y, z, rw v (sort_items-IsInPlace api.items (m r api z))),
    )
