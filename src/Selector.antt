-- ===== src/Selector.antt =====
-- smolllm/selector.go: which models a call tries, in order, by createSelector and the sequential
-- selector.
use smolllm_go.Prelude.{
  Elem, Elem-append, get_or, Elem-get_or, ℕ, zero, suc, ◌+◌, ◌-◌, ◌*◌, ◌/◌, ◌%◌, ◌^◌, ◌≤◌, ◌<◌, min,
  ◌≡◌, refl, sym, ap, ◌∙◌, ◌≢◌, ◌↔◌, ◌⊎◌, inl, inr, Bool, true, false, not, ◌&&◌, ◌||◌, Option,
  none, some, List, [], ◌∷◌, ◌++◌, map, append-nil, append_assoc, arith, ltb, leb, ◌==◌,
  if◌then◌else◌, ==_iff, ==_refl, Bool-cases, Option-cases, is_some, length, get_elem?, take, drop,
  length-append, take-append-drop, length-drop, drop-length, length-map, All, All-append,
}
use smolllm_go.Text.{
  Text, lit, text_eq, is_empty, has_prefix, has_suffix, trim_space, trim_left, trim_right,
  trim_suffix, split, join, index, lower_byte, upper_byte, itoa,
}
use smolllm_go.Errors.{Err, plain, str, Result, ok, err, ◌>>=◌}
use smolllm_go.Options.{Options}
use smolllm_go.Transport.{Env}
pub mod Models
pub mod Tests
pub mod Random
pub mod Draining

-- SequentialSelector
pub record SequentialSelector : Type 0 where
  pub models : List Text
  pub idx : ℕ

-- NewSequentialSelector
abbrev pub new_sequential_selector : List Text → SequentialSelector
new_sequential_selector ms = record { models = ms; idx = 0 }

-- SequentialSelector.NextModel
unfoldable pub next_model : SequentialSelector → Option Text × SequentialSelector
next_model s = elim (get_elem? s.models s.idx) [
  | none ↦ (none, s)
  | some m ↦ (some m, record s { idx = suc s.idx })
]

-- SequentialSelector.HasMore
unfoldable pub has_more : SequentialSelector → Bool
has_more s = ltb s.idx (length s.models)

-- The loop of createSelector over the parts.
unfoldable pub checked_entries : List Text → Result (List Text)
checked_entries [] = ok []
checked_entries (part ∷ parts) =
    let rest = checked_entries parts in
    if is_empty (trim_space part)
    then err (plain (str (lit "model string contains empty entry") ∷ []))
    else rest >>= (λ models. ok (trim_space part ∷ models))

-- The model string of a call: the options' own, else the environment's.
abbrev pub candidate : Env → Options → Text
candidate env o =
    let own = trim_space o.model in if is_empty own then env (lit "SMOLLLM_MODEL") else own

-- createSelector behind Options.NewSelector: the selector of the model string
unfoldable pub string_selector : Env → Options → Result SequentialSelector
unfolding checked_entries
string_selector env o =
    if is_empty (trim_space (candidate env o))
    then err
        (plain (str (lit "model string not provided. set SMOLLLM_MODEL or call WithModel") ∷ []))
    else checked_entries (split b',' (candidate env o))
      >>= (λ models. ok (new_sequential_selector models))
