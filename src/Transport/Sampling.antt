-- ===== src/Transport/Sampling.antt =====
-- A request of sampling options that the setters took is built: buildRequestPayload of
-- smolllm/request.go.
use smolllm_go.Prelude.{◌<◌, ◌≡◌, refl, true, false, Option, none, some, List, [], ◌∷◌, All}
use smolllm_go.Prelude.Int.{ℤ}
use smolllm_go.Text.{Text}
use smolllm_go.Errors.{ok}
use smolllm_go.Float.{float_one, float_two, out_of_range, Float}
use smolllm_go.Options.{
  Options, Setter, apply_options, extra_body_for, default_options, reasoning_effort_for,
  not_positive,
}
use smolllm_go.Options.Sampling.{
  AllSome, IsSampling, IsSampling-Keeps, Keeps, apply_all-IsSendable, default-IsSendable,
}
use smolllm_go.Transport.{
  Payload, normalize_reasoning_effort, build_payload, some_out_of_range, some_not_positive,
}

some_out_of_range-false :
    (b : Float) (x : Option Float) → AllSome (out_of_range b) x → some_out_of_range b x ≡ false
some_out_of_range-false b none h = refl
some_out_of_range-false b (some a) h = h

some_not_positive-false : (x : Option ℤ) → AllSome not_positive x → some_not_positive x ≡ false
some_not_positive-false none h = refl
some_not_positive-false (some a) h = h

All-Keeps : (fs : List Setter) → All IsSampling fs → All Keeps fs
All-Keeps [] h = tt
All-Keeps (f ∷ fs) (h, hs) = (IsSampling-Keeps f h, All-Keeps fs hs)

-- Options that are made by any sequence of WithTemperature, WithTopP, WithMaxTokens, WithStop and
-- WithMaxRetries, none of which panicked, pass the checks of buildRequestPayload: the payload is
-- built wherever the leg's reasoning effort is one that the provider takes, and it carries what the
-- options hold. At least one attempt is made at each model.
pub sampling_options-sendable :
    (fs : List Setter) (o : Options) (spec name provider : Text) {effort : Option Text}
    → All IsSampling fs
    → apply_options fs ≡ some o
    → normalize_reasoning_effort (reasoning_effort_for o spec) provider ≡ ok effort
    → ((p : Payload) × (build_payload o spec name provider ≡ ok p)
        × (p.temperature ≡ o.temperature)
        × (p.top_p ≡ o.top_p)
        × (p.max_tokens ≡ o.max_tokens)
        × (p.stop ≡ o.stop)
        × (p.reasoning_effort ≡ effort))
      × (0 < o.max_retries)
unfolding build_payload apply_options
sampling_options-sendable fs o spec name provider {effort} h e n =
    let v = apply_all-IsSendable fs default_options o (All-Keeps fs h) default-IsSendable e in
    let a = some_out_of_range-false float_two o.temperature v.temperature_fits in
    let b = some_out_of_range-false float_one o.top_p v.top_p_fits in
    let c = some_not_positive-false o.max_tokens v.tokens_positive in
    let p : Payload = record {
      model = name;
      stream_usage = true;
      temperature = o.temperature;
      top_p = o.top_p;
      max_tokens = o.max_tokens;
      stop = o.stop;
      seed = o.seed;
      reasoning_effort = effort;
      extra_body = extra_body_for o provider;
    } in
    ((p, rw (a, b, c, v.stops_full, n) refl, refl, refl, refl, refl, refl), v.retries_positive)
