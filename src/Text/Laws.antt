-- ===== src/Text/Laws.antt =====
-- Laws of the functions on strings.
use smolllm_go.Prelude.{
  ℕ, ◌≤◌, ◌≡◌, refl, ap, ◌∙◌, ◌≢◌, ◌↔◌, ◌⊎◌, inl, inr, true, false, List, [], ◌∷◌, ◌++◌, arith,
  ◌==◌, ==_iff, length, take, Bool-cases,
}
use smolllm_go.Text.{Text, text_eq, has_prefix, split, join, push_head}

pub text_eq_refl : (s : Text) → text_eq s s ≡ true
text_eq_refl [] = refl
text_eq_refl (c ∷ s) = ground (arith, text_eq_refl s)

pub text_eq→eq : (s t : Text) → text_eq s t ≡ true → s ≡ t
text_eq→eq [] [] h = refl
text_eq→eq [] (d ∷ t) h = cc
text_eq→eq (c ∷ s) [] h = cc
text_eq→eq (c ∷ s) (d ∷ t) h = ground (arith, text_eq→eq s t)

pub text_eq_iff : (s t : Text) → (text_eq s t ≡ true) ↔ (s ≡ t)
text_eq_iff s t = (text_eq→eq s t, λ e. rw e (text_eq_refl t))

pub text_eq-false : (s t : Text) → s ≢ t → text_eq s t ≡ false
text_eq-false s t h = elim (Bool-cases (text_eq s t)) [
  | inl e ↦ absurd (h (text_eq→eq s t e))
  | inr e ↦ e
]

pub text_eq-length : (s t : Text) → text_eq s t ≡ true → length s ≡ length t
text_eq-length s t h = ap (λ (u : Text). length u) (text_eq→eq s t h)

-- A prefix of `s` is one of everything that `s` begins.
pub has_prefix-append : (p s t : Text) → has_prefix p s ≡ true → has_prefix p (s ++ t) ≡ true
unfolding has_prefix
has_prefix-append [] s t h = refl
has_prefix-append (c ∷ p) [] t h = cc
has_prefix-append (c ∷ p) (d ∷ s) t h = ground (arith, has_prefix-append p s t)

-- Of two prefixes of one text, one begins the other.
pub has_prefix-append_cases :
    (p s t : Text)
    → has_prefix p (s ++ t) ≡ true
    → (has_prefix p s ≡ true) ⊎ (has_prefix s p ≡ true)
unfolding has_prefix
has_prefix-append_cases [] s t h = inl refl
has_prefix-append_cases (c ∷ p) [] t h = inr refl
has_prefix-append_cases (c ∷ p) (d ∷ s) t h = ground (arith, has_prefix-append_cases p s t)

-- What begins `p` after an extension begins it before.
pub has_prefix-append_left : (s t p : Text) → has_prefix (s ++ t) p ≡ true → has_prefix s p ≡ true
unfolding has_prefix
has_prefix-append_left [] t p h = refl
has_prefix-append_left (c ∷ s) t [] h = cc
has_prefix-append_left (c ∷ s) t (d ∷ p) h = ground (arith, has_prefix-append_left s t p)

pub has_prefix-le : (p s : Text) → has_prefix p s ≡ true → length p ≤ length s
unfolding has_prefix
has_prefix-le [] s h = omega arith
has_prefix-le (c ∷ p) [] h = cc
has_prefix-le (c ∷ p) (d ∷ s) h = ground (arith, has_prefix-le p s)

-- A text that begins another is what is cut from it at its own length.
pub has_prefix-text_eq :
    (s p : Text) → length s ≤ length p → has_prefix s p ≡ text_eq s (take (length s) p)
unfolding has_prefix
has_prefix-text_eq [] p h = refl
has_prefix-text_eq (c ∷ s) [] h = elim h [ ]
has_prefix-text_eq (c ∷ s) (d ∷ p) h = rw (has_prefix-text_eq s p (omega arith))

join-push_head :
    (sep c : ℕ) (w : Text) (ws : List Text)
    → join (sep ∷ []) (push_head c (w ∷ ws)) ≡ c ∷ join (sep ∷ []) (w ∷ ws)
unfolding join
join-push_head sep c w [] = refl
join-push_head sep c w (v ∷ ws) = refl

pub split-cons : (sep : ℕ) (s : Text) → (w : Text) × (ws : List Text) × (split sep s ≡ w ∷ ws)
unfolding split
split-cons sep [] = ([], [], refl)
split-cons sep (c ∷ s) =
    let (w, ws, e) = split-cons sep s in
    elim (Bool-cases (c == sep)) [
      | inl h ↦ ([], split sep s, rw h)
      | inr h ↦ (c ∷ w, ws, rw (h, e))
    ]

join-separator :
    (sep c : ℕ) (w : Text) (ws : List Text) {s : Text}
    → c ≡ sep
    → join (sep ∷ []) (w ∷ ws) ≡ s
    → join (sep ∷ []) ([] ∷ w ∷ ws) ≡ c ∷ s
unfolding join
join-separator sep c w ws e h = rw e (ap (λ (t : Text). sep ∷ t) h)

join-single : (sep : Text) → join sep ([] ∷ []) ≡ []
unfolding join
join-single sep = refl

-- Splitting at a separator loses nothing: joining with it gives the text back.
pub join-split : (sep : ℕ) (s : Text) → join (sep ∷ []) (split sep s) ≡ s
unfolding split
join-split sep [] = join-single (sep ∷ [])
join-split sep (c ∷ s) =
    let (w, ws, e) = split-cons sep s in
    let ih = join-split sep s in
    elim (Bool-cases (c == sep)) [
      | inl h ↦ rw h (rw e (join-separator sep c w ws ((==_iff c sep).0 h) (rw e at ih)))
      | inr h ↦ rw h (rw e (join-push_head sep c w ws ∙ ap (λ (t : Text). c ∷ t) (rw e at ih)))
    ]
