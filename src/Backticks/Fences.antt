-- ===== src/Backticks/Fences.antt =====
-- What stripBackticks takes off.
use mathlib.Core.Path.{subst}
use smolllm_go.Prelude.{
  ℕ, ◌-◌, ◌≡◌, refl, ap, ◌∙◌, inl, inr, true, false, List, [], ◌∷◌, ◌++◌, append_assoc, arith, leb,
  ◌==◌, ==_refl, Bool-cases, length, drop, length-append, All,
}
use smolllm_go.Text.{Text, split, has_prefix, has_suffix}
use smolllm_go.Text.Laws.{split-cons, join-split, text_eq_refl}
use smolllm_go.Backticks.{fence, drop_closing, strip_backticks}

-- A text without the byte.
abbrev pub Lacks : ℕ → Text → Type 0
Lacks sep = All (λ (c : ℕ). (c == sep) ≡ false)

split-Lacks : (sep : ℕ) (s : Text) → Lacks sep s → split sep s ≡ s ∷ []
unfolding split
split-Lacks sep [] h = refl
split-Lacks sep (c ∷ s) (h, hs) = rw (h, split-Lacks sep s hs) refl

-- The first line of a text.
split-first : (sep : ℕ) (s t : Text) → Lacks sep s → split sep (s ++ (sep ∷ t)) ≡ s ∷ split sep t
unfolding split
split-first sep [] t h = rw (==_refl sep) refl
split-first sep (c ∷ s) t (h, hs) = rw (h, split-first sep s t hs) refl

-- The last line of a text.
split-last :
    (sep : ℕ) (s t : Text) → Lacks sep t → split sep (s ++ (sep ∷ t)) ≡ split sep s ++ (t ∷ [])
unfolding split
split-last sep [] t h = rw (==_refl sep, split-Lacks sep t h) refl
split-last sep (c ∷ s) t h = elim (Bool-cases (c == sep)) [
  | inl e ↦ rw (e, split-last sep s t h) refl
  | inr e ↦ let (w, ws, p) = split-cons sep s in rw (e, split-last sep s t h, p) refl
]

drop_closing-last : (ls : List Text) → drop_closing (ls ++ (fence ∷ [])) ≡ ls
unfolding drop_closing has_suffix
drop_closing-last [] = refl
drop_closing-last (l ∷ []) = refl
drop_closing-last (l ∷ k ∷ ls) = ap (λ x. l ∷ x) (drop_closing-last (k ∷ ls))

drop-append_length : (s t : Text) → drop (length s) (s ++ t) ≡ t
drop-append_length [] t = refl
drop-append_length (c ∷ s) t = drop-append_length s t

has_suffix-append : (s t : Text) → has_suffix t (s ++ t) ≡ true
unfolding has_suffix
has_suffix-append s t =
    let e : length (s ++ t) - length t ≡ length s = omega (arith, length-append s t) in
    let fits : leb (length t) (length (s ++ t)) ≡ true = ground (arith, length-append s t) in
    rw (fits, e, drop-append_length s t) (text_eq_refl t)

-- A fenced block comes out as its body: the line of the opening fence with its language, if that is
-- one line, and the line of the closing fence go, whatever the body is.
pub strip_backticks-body :
    (lang body : Text)
    → Lacks 10 lang
    → strip_backticks (fence ++ (lang ++ (10 ∷ (body ++ (10 ∷ fence))))) ≡ body
unfolding strip_backticks has_prefix
strip_backticks-body lang body h =
    let inner = body ++ (10 ∷ fence) in
    let whole = fence ++ (lang ++ (10 ∷ inner)) in
    let tail = 10 ∷ (body ++ (10 ∷ [])) in
    let same : (lang ++ tail) ++ fence ≡ lang ++ (10 ∷ inner) =
      append_assoc lang tail fence
      ∙ ap (λ x. lang ++ (10 ∷ x)) (append_assoc body (10 ∷ []) fence) in
    let ends : has_suffix fence whole ≡ true =
      subst (λ x. has_suffix fence x ≡ true) (ap (λ x. fence ++ x) same)
        (has_suffix-append (fence ++ (lang ++ tail)) fence) in
    let lines : split 10 whole ≡ (fence ++ lang) ∷ (split 10 body ++ (fence ∷ [])) =
      split-first 10 (fence ++ lang) inner (refl, (refl, (refl, h)))
      ∙ ap (λ x. (fence ++ lang) ∷ x) (split-last 10 body fence (refl, (refl, (refl, tt)))) in
    rw (ends, lines, drop_closing-last (split 10 body)) (join-split 10 body)
