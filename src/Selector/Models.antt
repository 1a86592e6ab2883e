-- ===== src/Selector/Models.antt =====
-- What createSelector gives, and what a sequential selector hands out.
use mathlib.Core.Path.{subst}
use smolllm_go.Prelude.{
  ℕ, zero, suc, ◌≡◌, refl, sym, ap, ◌∙◌, ◌⊎◌, inl, inr, false, Option, none, some, List, [], ◌∷◌,
  map, Bool-cases, get_elem?, take, drop, All,
}
use smolllm_go.Text.{Text, is_empty, trim_space, split}
use smolllm_go.Errors.{ok}
use smolllm_go.Balancer.Pairs.{>>=-eq-ok}
use smolllm_go.Options.{Options}
use smolllm_go.Transport.{Env}
use smolllm_go.Selector.{
  candidate, SequentialSelector, new_sequential_selector, next_model, checked_entries,
  string_selector,
}
use smolllm_go.Selector.Random.{ModelSelector, sequential, create_selector}

abbrev offered : Option Text → List Text → List Text
offered none rest = []
offered (some m) rest = m ∷ rest

-- What a loop of some rounds takes from a selector, until the selector has no more.
abbrev pub drain : ℕ → SequentialSelector → List Text
drain zero s = []
drain (suc rounds) s = offered (next_model s).0 (drain rounds (next_model s).1)

get-drop :
    {A : Type 0} (xs : List A) (i : ℕ)
    → ((get_elem? xs i ≡ none) × (drop i xs ≡ []))
      ⊎ ((x : A) × (get_elem? xs i ≡ some x) × (drop i xs ≡ x ∷ drop (suc i) xs))
get-drop [] zero = inl (refl, refl)
get-drop [] (suc i) = inl (refl, refl)
get-drop (x ∷ xs) zero = inr (x, refl, refl)
get-drop (x ∷ xs) (suc i) = get-drop xs i

module _ (s : SequentialSelector) where
  next_model-none : get_elem? s.models s.idx ≡ none → next_model s ≡ (none, s)
  unfolding next_model
  next_model-none e = rw (e, next_model) refl

  next_model-some :
      (m : Text)
      → get_elem? s.models s.idx ≡ some m
      → next_model s ≡ (some m, record s { idx = suc s.idx })
  unfolding next_model
  next_model-some m e = rw (e, next_model) refl

-- A sequential selector hands out its models in order from where it stands, each once, and then no
-- more.
pub drain-in_order : (n : ℕ) (s : SequentialSelector) → drain n s ≡ take n (drop s.idx s.models)
drain-in_order zero s = refl
drain-in_order (suc n) s = elim (get-drop s.models s.idx) [
  | inl (a, b) ↦ rw (next_model-none s a, b) refl
  | inr (x, a, b) ↦
      ap (λ (y : Option Text × SequentialSelector). offered y.0 (drain n y.1))
        (next_model-some s x a)
      ∙ ap (λ y. x ∷ y) (drain-in_order n (record s { idx = suc s.idx }))
      ∙ ap (take (suc n)) (sym b)
]

-- What the entries of a model string come to.
abbrev Entries : List Text → List Text → Type 0
Entries parts ms = (ms ≡ map trim_space parts) × All (λ (m : Text). is_empty m ≡ false) ms

checked_entries-Entries : (parts ms : List Text) → checked_entries parts ≡ ok ms → Entries parts ms
unfolding checked_entries
checked_entries-Entries [] ms e = let same : [] ≡ ms = cc e in subst (Entries []) same (refl, tt)
checked_entries-Entries (p ∷ ps) ms e = elim (Bool-cases (is_empty (trim_space p))) [
  | inl k ↦ cc (rw k at e)
  | inr k ↦
      let (rest, a, b) = >>=-eq-ok (checked_entries ps) _ (rw k at e) in
      let (q, n) = checked_entries-Entries ps rest a in
      let same : trim_space p ∷ rest ≡ ms = cc b in
      subst (Entries (p ∷ ps)) same (ap (λ x. trim_space p ∷ x) q, (k, n))
]

-- Where the model string is accepted, the call tries the entries of its model string in order, each
-- trimmed, none blank: any number of rounds takes that many of them.
string_selector-in_order :
    (env : Env) (o : Options) (s : SequentialSelector) (n : ℕ)
    → string_selector env o ≡ ok s
    → (drain n s ≡ take n (map trim_space (split b',' (candidate env o))))
      × All (λ (m : Text). is_empty m ≡ false) s.models
unfolding string_selector
string_selector-in_order env o s n e = elim (Bool-cases (is_empty (trim_space (candidate env o)))) [
  | inl k ↦ cc (rw k at e)
  | inr k ↦
      let (ms, a, b) = >>=-eq-ok (checked_entries (split b',' (candidate env o))) _ (rw k at e) in
      let same : new_sequential_selector ms ≡ s = cc b in
      let (q, r) = checked_entries-Entries (split b',' (candidate env o)) ms a in
      subst
        (λ (x : SequentialSelector).
          (drain n x ≡ take n (map trim_space (split b',' (candidate env o))))
          × All (λ (m : Text). is_empty m ≡ false) x.models)
        same (drain-in_order n (new_sequential_selector ms) ∙ ap (take n) q, r)
]

-- Where the options bring no selector of their own and createSelector succeeds, it gives a
-- sequential selector, which hands out the entries of the model string in order, each trimmed, none
-- blank: any number of rounds takes that many of them.
pub create_selector-in_order :
    (env : Env) (o : Options) (x : ModelSelector) (n : ℕ)
    → o.new_selector ≡ none
    → create_selector env o ≡ ok x
    → (s : SequentialSelector) × (x ≡ sequential s)
      × (drain n s ≡ take n (map trim_space (split b',' (candidate env o))))
      × All (λ (m : Text). is_empty m ≡ false) s.models
unfolding create_selector
create_selector-in_order env o x n h e =
    let (s, a, b) =
      >>=-eq-ok (string_selector env o) (λ s. ok (sequential s)) (rw (h, create_selector) at e) in
    let (c, d) = string_selector-in_order env o s n a in (s, cc b, c, d)
