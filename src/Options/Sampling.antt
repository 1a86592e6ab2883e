-- ===== src/Options/Sampling.antt =====
-- The options that a caller can set are those that a request takes: smolllm/options.go beside the
-- checks of buildRequestPayload.
use mathlib.Core.Path.{subst}
use smolllm_go.Prelude.{
  ℕ, ◌<◌, ◌≡◌, refl, inl, inr, Bool, false, Option, none, some, List, [], ◌∷◌, arith, ◌==◌,
  Bool-cases, Option-cases, length, All,
}
use smolllm_go.Prelude.Int.{ℤ}
use smolllm_go.Text.{Text}
use smolllm_go.Float.{Float, float_one, float_two, out_of_range}
use smolllm_go.Options.{
  Options, default_options, Setter, apply_all, with_temperature, with_top_p, with_max_tokens,
  with_stop, with_max_retries, any_blank, not_positive,
}

abbrev pub AllSome {ℓ} : {A : Type ℓ} → (A → Bool) → Option A → Type 0
AllSome bad none = Unit
AllSome bad (some a) = bad a ≡ false

-- The sampling options are in range, the token cap is positive, no stop sequence is blank, and there
-- is at least one attempt.
pub record IsSendable (o : Options) : Type 0 where
  pub temperature_fits : AllSome (out_of_range float_two) o.temperature
  pub top_p_fits : AllSome (out_of_range float_one) o.top_p
  pub tokens_positive : AllSome not_positive o.max_tokens
  pub stops_full : any_blank o.stop ≡ false
  pub retries_positive : 0 < o.max_retries

-- A setter that keeps options sendable.
abbrev pub Keeps : Setter → Type 0
Keeps f = (o p : Options) → IsSendable o → f o ≡ some p → IsSendable p

pub default-IsSendable : IsSendable default_options
default-IsSendable = record {
  temperature_fits = tt;
  top_p_fits = tt;
  tokens_positive = tt;
  stops_full = refl;
  retries_positive = omega arith;
}

module _ (o p : Options) (v : IsSendable o) where
  with_temperature-IsSendable : (x : Float) → with_temperature x o ≡ some p → IsSendable p
  unfolding with_temperature
  with_temperature-IsSendable x h = elim (Bool-cases (out_of_range float_two x)) [
    | inl e ↦ cc (rw e at h)
    | inr e ↦
        let same : record o { temperature = some x } ≡ p = cc (rw e at h) in
        subst IsSendable same (record {
          temperature_fits = e;
          top_p_fits = v.top_p_fits;
          tokens_positive = v.tokens_positive;
          stops_full = v.stops_full;
          retries_positive = v.retries_positive;
        })
  ]

  with_top_p-IsSendable : (x : Float) → with_top_p x o ≡ some p → IsSendable p
  unfolding with_top_p
  with_top_p-IsSendable x h = elim (Bool-cases (out_of_range float_one x)) [
    | inl e ↦ cc (rw e at h)
    | inr e ↦
        let same : record o { top_p = some x } ≡ p = cc (rw e at h) in
        subst IsSendable same (record {
          temperature_fits = v.temperature_fits;
          top_p_fits = e;
          tokens_positive = v.tokens_positive;
          stops_full = v.stops_full;
          retries_positive = v.retries_positive;
        })
  ]

  with_max_tokens-IsSendable : (x : ℤ) → with_max_tokens x o ≡ some p → IsSendable p
  unfolding with_max_tokens
  with_max_tokens-IsSendable x h = elim (Bool-cases (not_positive x)) [
    | inl e ↦ cc (rw e at h)
    | inr e ↦
        let same : record o { max_tokens = some x } ≡ p = cc (rw e at h) in
        subst IsSendable same (record {
          temperature_fits = v.temperature_fits;
          top_p_fits = v.top_p_fits;
          tokens_positive = e;
          stops_full = v.stops_full;
          retries_positive = v.retries_positive;
        })
  ]

  with_stop-IsSendable : (x : List Text) → with_stop x o ≡ some p → IsSendable p
  unfolding with_stop
  with_stop-IsSendable x h = elim (Bool-cases (length x == 0)) [
    | inl e ↦ cc (rw e at h)
    | inr n ↦ elim (Bool-cases (any_blank x)) [
      | inl e ↦ cc (rw (n, e) at h)
      | inr e ↦
          let same : record o { stop = x } ≡ p = cc (rw (n, e) at h) in
          subst IsSendable same (record {
            temperature_fits = v.temperature_fits;
            top_p_fits = v.top_p_fits;
            tokens_positive = v.tokens_positive;
            stops_full = e;
            retries_positive = v.retries_positive;
          })
    ]
  ]

  with_max_retries-IsSendable : (x : ℕ) → with_max_retries x o ≡ some p → IsSendable p
  unfolding with_max_retries
  with_max_retries-IsSendable x h = elim (Bool-cases (x == 0)) [
    | inl e ↦ cc (rw e at h)
    | inr e ↦
        let same : record o { max_retries = x } ≡ p = cc (rw e at h) in
        subst IsSendable same (record {
          temperature_fits = v.temperature_fits;
          top_p_fits = v.top_p_fits;
          tokens_positive = v.tokens_positive;
          stops_full = v.stops_full;
          retries_positive = ground (arith, e);
        })
  ]

-- The setters of the options that IsSendable is about.
pub data IsSampling : Setter → Type 0 where
  temperature : (x : Float) → IsSampling (with_temperature x)
  top_p : (x : Float) → IsSampling (with_top_p x)
  max_tokens : (x : ℤ) → IsSampling (with_max_tokens x)
  stop : (x : List Text) → IsSampling (with_stop x)
  max_retries : (x : ℕ) → IsSampling (with_max_retries x)

pub IsSampling-Keeps : (f : Setter) → IsSampling f → Keeps f
IsSampling-Keeps f (temperature x) o p v h = with_temperature-IsSendable o p v x h
IsSampling-Keeps f (top_p x) o p v h = with_top_p-IsSendable o p v x h
IsSampling-Keeps f (max_tokens x) o p v h = with_max_tokens-IsSendable o p v x h
IsSampling-Keeps f (stop x) o p v h = with_stop-IsSendable o p v x h
IsSampling-Keeps f (max_retries x) o p v h = with_max_retries-IsSendable o p v x h

pub apply_all-IsSendable :
    (fs : List Setter) (o p : Options)
    → All Keeps fs
    → IsSendable o
    → apply_all fs o ≡ some p
    → IsSendable p
unfolding apply_all
apply_all-IsSendable [] o p k v h = let same : o ≡ p = cc h in subst IsSendable same v
apply_all-IsSendable (f ∷ fs) o p (k, ks) v h = elim (Option-cases (f o)) [
  | inl e ↦ cc (rw e at h)
  | inr (q, e) ↦ apply_all-IsSendable fs q p ks (k o q v e) (rw e at h)
]
