-- ===== src/Command/Accepted.antt =====
-- Which arguments make `smolllm` panic: askCmd.options of cmd/cli/main.go and the setters.
use mathlib.Core.Path.{subst}
use smolllm_go.Prelude.{
  ◌≡◌, refl, sym, ap, ◌∙◌, ◌≢◌, ◌↔◌, ◌⊎◌, inl, inr, Bool, true, false, not, ◌||◌, Option, none,
  some, List, ◌∷◌, ◌++◌, ltb, Bool-cases, length,
}
use smolllm_go.Text.{Text, is_empty, trim_space}
use smolllm_go.Errors.{ok}
use smolllm_go.Balancer.Pairs.{>>=-eq-ok}
use smolllm_go.Float.{Float, float_zero, float_one, float_two, float_lt, is_nan, out_of_range}
use smolllm_go.Options.{
  Options, Setter, apply_all, apply_options, default_options, normalized, with_timeout, with_model,
  with_temperature, with_top_p, with_reasoning_effort, with_image_paths, with_backtick_removal,
}
use smolllm_go.Options.Sampling.{AllSome}
use smolllm_go.Client.{client_of, new_client}
use smolllm_go.Command.{AskCommand, always, when, when_some, checked_sampling, tested, ask_options}

-- What the setters give on every options; `none` is a panic.
abbrev Gives : (Option Options → Type 0) → List Setter → Type 0
Gives R fs = (o : Options) → R (apply_all fs o)

abbrev Works : Option Options → Type 0
Works r = (o : Options) × (r ≡ some o)

abbrev Panics : Option Options → Type 0
Panics r = r ≡ none

module _ (R : Option Options → Type 0) where
  Gives-cons :
      (f : Setter) (fs : List Setter)
      → ((o : Options) → Works (f o))
      → Gives R fs
      → Gives R (f ∷ fs)
  unfolding apply_all
  Gives-cons f fs g h o = let (p, e) = g o in rw e (h p)

  Gives-when :
      (b : Bool) (f : Options → Options) (fs : List Setter)
      → Gives R fs
      → Gives R (when b (always f) ++ fs)
  Gives-when true f fs h = Gives-cons (always f) fs (λ o. (f o, refl)) h
  Gives-when false f fs h = h

  Gives-some :
      {A : Type 0} (x : Option A) (f : A → Setter) (fs : List Setter)
      → ((a : A) → x ≡ some a → (o : Options) → Works (f a o))
      → Gives R fs
      → Gives R (when_some x f ++ fs)
  Gives-some none f fs g h = h
  Gives-some (some a) f fs g h = Gives-cons (f a) fs (g a refl) h

  -- The setters of an ask in front of the reasoning effort work.
  Gives-front :
      (c : AskCommand) (temperature top_p : Option Float) (fs : List Setter)
      → AllSome (out_of_range float_two) temperature
      → AllSome (out_of_range float_one) top_p
      → Gives R fs
      → Gives R (
          always (with_timeout c.timeout)
          ∷ (when (not (is_empty (trim_space c.model))) (always (with_model (trim_space c.model)))
              ++ (when_some temperature with_temperature ++ (when_some top_p with_top_p ++ fs))))
  unfolding with_temperature with_top_p
  Gives-front c temperature top_p fs a b h =
      Gives-cons (always (with_timeout c.timeout)) _ (λ o. (with_timeout c.timeout o, refl))
        (Gives-when (not (is_empty (trim_space c.model))) (with_model (trim_space c.model)) _ (
          Gives-some temperature with_temperature _
            (λ x e o. (
              record o { temperature = some x },
              rw (subst (AllSome (out_of_range float_two)) e a) refl,
            ))
            (Gives-some top_p with_top_p fs
              (λ x e o. (
                record o { top_p = some x },
                rw (subst (AllSome (out_of_range float_one)) e b) refl,
              ))
              h)))

Gives-back :
    (c : AskCommand)
    → Gives Works (
        when (ltb 0 (length c.images)) (always (with_image_paths c.images))
        ++ when c.strip_backticks (always with_backtick_removal))
unfolding apply_all
Gives-back c =
    Gives-when Works (ltb 0 (length c.images)) (with_image_paths c.images) _
      (last c.strip_backticks)
  where
    last : (b : Bool) → Gives Works (when b (always with_backtick_removal))
    last true o = (with_backtick_removal o, refl)
    last false o = (o, refl)

or_false : (a b c : Bool) → a ≡ false → (b || c) ≡ false → (a || b || c) ≡ false
or_false false b c h k = k
or_false true b c h k = cc

tested-ok :
    (s t : Text) (x : Float) (y : Option Float) (a b : Bool)
    → tested s t x a b ≡ ok y
    → (a ≡ false) × (b ≡ false) × (some x ≡ y)
tested-ok s t x y true b h = cc
tested-ok s t x y false true h = cc
tested-ok s t x y false false h = (refl, refl, cc h)

checked_sampling-AllSome :
    (s t : Text) (bound : Float) (x y : Option Float)
    → checked_sampling s t bound x ≡ ok y
    → AllSome (out_of_range bound) y
unfolding checked_sampling out_of_range
checked_sampling-AllSome s t bound none none h = tt
checked_sampling-AllSome s t bound none (some y) h = cc
checked_sampling-AllSome s t bound (some x) y h =
    let (a, b, e) = tested-ok s t x y (is_nan x) (float_lt x float_zero || float_lt bound x) h in
    subst (AllSome (out_of_range bound)) e
      (or_false (is_nan x) (float_lt x float_zero) (float_lt bound x) a b)

new_client-none : (fs : List Setter) → Gives Panics fs → new_client fs ≡ none
unfolding new_client apply_options
new_client-none fs h = ap client_of (h default_options)

new_client-ne-none : (fs : List Setter) → Gives Works fs → new_client fs ≢ none
unfolding new_client apply_options
new_client-ne-none fs h e = let (o, q) = h default_options in cc (sym (ap client_of q) ∙ e)

abbrev IsBlankEffort : Option Text → Type 0
IsBlankEffort x = (effort : Text) × (x ≡ some effort) × (is_empty (normalized effort) ≡ true)

abbrev back : AskCommand → List Setter
back c =
    when (ltb 0 (length c.images)) (always (with_image_paths c.images))
    ++ when c.strip_backticks (always with_backtick_removal)

Panics-cons : (f : Setter) (fs : List Setter) → ((o : Options) → f o ≡ none) → Gives Panics (f ∷ fs)
unfolding apply_all
Panics-cons f fs g o = rw (g o) refl

-- The setters for the effort and those behind it panic exactly where the effort is blank.
effort-cases :
    (x : Option Text) (fs : List Setter)
    → Gives Works fs
    → (Gives Works (when_some x with_reasoning_effort ++ fs) × (IsBlankEffort x → ⊥))
      ⊎ (Gives Panics (when_some x with_reasoning_effort ++ fs) × IsBlankEffort x)
unfolding with_reasoning_effort
effort-cases none fs h = inl (h, λ (e, p, q). cc)
effort-cases (some e) fs h = elim (Bool-cases (is_empty (normalized e))) [
  | inl b ↦ inr (Panics-cons (with_reasoning_effort e) fs (λ o. rw b refl), (e, refl, b))
  | inr b ↦ inl (
    Gives-cons Works (with_reasoning_effort e) fs
        (λ o. (record o { reasoning_effort = some (normalized e) }, rw b refl)) h,
    λ (f, p, q). cc (p, q, b),
  )
]

-- The arguments that askCmd.options accepts make the tool panic exactly where the reasoning effort
-- is given and blank: New returns a client on all others.
pub ask_options-panics :
    (c : AskCommand) (setters : List Setter)
    → ask_options c ≡ ok setters
    → (new_client setters ≡ none) ↔ (
        (effort : Text) × (c.reasoning_effort ≡ some effort)
        × (is_empty (normalized effort) ≡ true))
unfolding ask_options
ask_options-panics c setters h =
    let (temperature, a, h₁) = >>=-eq-ok (checked_sampling _ _ float_two c.temperature) _ h in
    let (top_p, b, h₂) = >>=-eq-ok (checked_sampling _ _ float_one c.top_p) _ h₁ in
    let t = checked_sampling-AllSome _ _ float_two c.temperature temperature a in
    let u = checked_sampling-AllSome _ _ float_one c.top_p top_p b in
    let fs = when_some c.reasoning_effort with_reasoning_effort ++ back c in
    let all : List Setter =
      always (with_timeout c.timeout)
      ∷ (when (not (is_empty (trim_space c.model))) (always (with_model (trim_space c.model)))
          ++ (when_some temperature with_temperature ++ (when_some top_p with_top_p ++ fs))) in
    let same : all ≡ setters = cc h₂ in
    subst (λ l. (new_client l ≡ none) ↔ IsBlankEffort c.reasoning_effort) same
      (elim (effort-cases c.reasoning_effort (back c) (Gives-back c)) [
        | inl (w, n) ↦ (
          λ e. absurd (new_client-ne-none all (Gives-front Works c temperature top_p fs t u w) e),
          λ k. absurd (n k),
        )
        | inr (p, k) ↦
            (λ e. k, λ z. new_client-none all (Gives-front Panics c temperature top_p fs t u p))
      ])
