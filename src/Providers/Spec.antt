-- ===== src/Providers/Spec.antt =====
-- How parseModelString of smolllm/providers.go takes a model string apart.
use mathlib.Core.Path.{subst}
use smolllm_go.Prelude.{
  ℕ, ◌≡◌, refl, ap, ◌⊎◌, inl, inr, false, none, some, [], ◌∷◌, ◌++◌, ◌==◌, ==_iff, Bool-cases,
  Option-cases,
}
use smolllm_go.Text.{Text, trim_space, is_empty}
use smolllm_go.Call.{Provider}
use smolllm_go.Errors.{ok}
use smolllm_go.Options.{lookup}
use smolllm_go.Providers.{providers, cut_at, known_or, named_provider, parse_model_string}

-- The text before the first separator and the text behind it.
abbrev IsFirstCut : ℕ → Text → Text × Text → Type 0
IsFirstCut sep s (a, b) = (s ≡ a ++ (sep ∷ b)) × (cut_at sep a ≡ none)

cut_at-IsFirstCut :
    (sep : ℕ) (s : Text) (p : Text × Text) → cut_at sep s ≡ some p → IsFirstCut sep s p
unfolding cut_at
cut_at-IsFirstCut sep [] p h = cc
cut_at-IsFirstCut sep (c ∷ s) p h = elim (Bool-cases (c == sep)) [
  | inl e ↦
      let same : ([], s) ≡ p = cc (rw e at h) in
      let at_sep : c ≡ sep = (==_iff c sep).0 e in
      subst (IsFirstCut sep (c ∷ s)) same (ap (λ x. x ∷ s) at_sep, refl)
  | inr e ↦ elim (Option-cases (cut_at sep s)) [
    | inl n ↦ cc (rw (e, n) at h)
    | inr ((a, b), k) ↦
        let same : (c ∷ a, b) ≡ p = cc (rw (e, k) at h) in
        let (q, n) = cut_at-IsFirstCut sep s (a, b) k in
        subst (IsFirstCut sep (c ∷ s)) same (ap (λ x. c ∷ x) q, rw (e, n) refl)
  ]
]

-- A model string without a provider.
abbrev pub IsBare : Text → Provider × Text → Type 0
IsBare model (p, m) = (p.name ≡ []) × (p.base_url ≡ []) × (m ≡ model) × (cut_at b'/' model ≡ none)

-- A model string with a provider before its first slash, which the table completes.
abbrev pub IsNamed : Text → Provider × Text → Type 0
IsNamed model (p, m) =
    (name : Text) × (rest : Text) × (model ≡ name ++ (b'/' ∷ rest))
    × (cut_at b'/' name ≡ none)
    × (is_empty name ≡ false)
    × (p ≡ known_or name (lookup name providers))
    × (m ≡ trim_space rest)

named_provider-IsNamed :
    (model name rest : Text) (r : Provider × Text)
    → IsFirstCut b'/' model (name, rest)
    → named_provider model name rest ≡ ok r
    → IsNamed model r × (is_empty r.1 ≡ false)
unfolding named_provider
named_provider-IsNamed model name rest r (q, n) h = elim (Bool-cases (is_empty name)) [
  | inl e ↦ cc (rw e at h)
  | inr e ↦ elim (Bool-cases (is_empty (trim_space rest))) [
    | inl k ↦ cc (rw (e, k) at h)
    | inr k ↦
        let same : (known_or name (lookup name providers), trim_space rest) ≡ r =
          cc (rw (e, k) at h) in
        subst (λ (x : Provider × Text). IsNamed model x × (is_empty x.1 ≡ false)) same
          ((name, rest, q, n, e, refl, refl), k)
  ]
]

-- A model string that parseModelString accepts is, once trimmed, a bare model name without a slash,
-- or a provider and a model name on the two sides of the first slash: the provider is not empty and
-- is that of the table where the table has it, and the model name is trimmed. The model name is
-- never empty.
pub parse_model_string-parts :
    (raw : Text) (r : Provider × Text)
    → parse_model_string raw ≡ ok r
    → (IsBare (trim_space raw) r ⊎ IsNamed (trim_space raw) r) × (is_empty r.1 ≡ false)
unfolding parse_model_string
parse_model_string-parts raw r h = elim (Bool-cases (is_empty (trim_space raw))) [
  | inl e ↦ cc (rw e at h)
  | inr e ↦ elim (Option-cases (cut_at b'/' (trim_space raw))) [
    | inl n ↦
        let same : (record { name = []; base_url = [] }, trim_space raw) ≡ r =
          cc (rw (e, n) at h) in
        subst
          (λ (x : Provider × Text).
            (IsBare (trim_space raw) x ⊎ IsNamed (trim_space raw) x) × (is_empty x.1 ≡ false))
          same (inl (refl, refl, refl, n), e)
    | inr ((name, rest), k) ↦
        let (a, b) =
          named_provider-IsNamed (trim_space raw) name rest r
            (cut_at-IsFirstCut b'/' (trim_space raw) (name, rest) k) (rw (e, k) at h) in
        (inr a, b)
  ]
]
