-- ===== src/Selector/Draining.antt =====
-- What a random selector hands out.
use mathlib.Core.List.{Perm, perm_middle}
use mathlib.Core.List.Perm
use mathlib.Core.Path.{subst}
use smolllm_go.Prelude.{
  ℕ, zero, suc, ◌+◌, ◌-◌, ◌<◌, min, ◌≡◌, refl, sym, ap, ◌∙◌, ◌⊎◌, inl, inr, true, false, Option,
  none, some, List, [], ◌∷◌, ◌++◌, arith, ltb, ◌==◌, Bool-cases, length, get_elem?, take, drop,
}
use smolllm_go.Text.{Text}
use smolllm_go.Transport.{Env}
use smolllm_go.Errors.{ok}
use smolllm_go.Options.{Options, with_model_set}
use smolllm_go.Float.{Float, float_zero, float_le}
use smolllm_go.Options.{with_model_set, random}
use smolllm_go.Selector.Random.{
  create_selector, build_selector, new_random_selector, weighted, Arithmetic, RandomSelector,
  chosen_index, weight_of, total_weight, next_random, has_more_random,
}

-- A round and the rounds behind it.
abbrev after_draw :
    (RandomSelector → List Text × RandomSelector)
    → Option Text × RandomSelector
    → List Text × RandomSelector
after_draw rest (none, s) = rest s
after_draw rest (some m, s) = (m ∷ (rest s).0, (rest s).1)

-- What some rounds take from a random selector, with the selector that they leave. `draws` gives the
-- random number of each round.
abbrev pub drain_random : Arithmetic → (ℕ → Float) → ℕ → RandomSelector → List Text × RandomSelector
drain_random ar draws zero r = ([], r)
drain_random ar draws (suc n) r = after_draw (drain_random ar draws n) (next_random ar (draws n) r)

module _ (ar : Arithmetic) (r : RandomSelector) where
  chosen_index-bound :
      (point cumulative : Float) (last i : ℕ) (ms : List Text)
      → (chosen_index ar r point cumulative last i ms ≡ last)
        ⊎ (chosen_index ar r point cumulative last i ms < i + length ms)
  unfolding chosen_index
  chosen_index-bound point cumulative last i [] = inl refl
  chosen_index-bound point cumulative last i (m ∷ ms) =
      let reached = ar.add cumulative (weight_of r m) in
      elim (Bool-cases (float_le point reached)) [
        | inl e ↦ inr (rw e (omega arith))
        | inr e ↦ elim (chosen_index-bound point reached last (suc i) ms) [
          | inl k ↦ inl (rw e k)
          | inr k ↦ inr (rw e (omega (arith, k)))
        ]
      ]

split_at :
    (xs : List Text) (i : ℕ)
    → i < length xs
    → (m : Text) × (get_elem? xs i ≡ some m)
      × (take i xs ++ (m ∷ drop (suc i) xs) ≡ xs)
      × (suc (length (take i xs ++ drop (suc i) xs)) ≡ length xs)
split_at [] i h = absurd (omega arith)
split_at (x ∷ xs) zero h = (x, refl, refl, refl)
split_at (x ∷ xs) (suc i) h =
    let (m, a, b, c) = split_at xs i (omega arith) in (m, a, ap (λ l. x ∷ l) b, ap suc c)

-- A pool that is not empty gives one of its models, which leaves it.
next_random-some :
    (ar : Arithmetic) (draw : Float) (r : RandomSelector)
    → 0 < length r.remaining
    → (m : Text) × (s : RandomSelector) × (next_random ar draw r ≡ (some m, s))
      × Perm (m ∷ s.remaining) r.remaining
      × (suc (length s.remaining) ≡ length r.remaining)
unfolding next_random
next_random-some ar draw r h =
    let point = ar.mul draw (total_weight ar r float_zero r.remaining) in
    let i = chosen_index ar r point float_zero (length r.remaining - 1) 0 r.remaining in
    let bound : i < length r.remaining =
      elim (chosen_index-bound ar r point float_zero (length r.remaining - 1) 0 r.remaining) [
        | inl e ↦ omega (arith, e, h)
        | inr k ↦ omega (arith, k)
      ] in
    let (m, a, b, c) = split_at r.remaining i bound in
    let s = record r { remaining = take i r.remaining ++ drop (suc i) r.remaining } in
    let e : (length r.remaining == 0) ≡ false = ground (arith, h) in
    (
      m,
      s,
      rw (e, a) refl,
      subst (λ l. Perm (m ∷ s.remaining) l) b
          (Perm.symm (perm_middle (take i r.remaining) (drop (suc i) r.remaining))),
      c,
    )

next_random-none :
    (ar : Arithmetic) (draw : Float) (r : RandomSelector)
    → length r.remaining ≡ 0
    → next_random ar draw r ≡ (none, r)
unfolding next_random
next_random-none ar draw r h =
    let e : (length r.remaining == 0) ≡ true = ground (arith, h) in rw e refl

-- The rounds took as many models as there were, up to their number, and what they took is with the
-- rest the pool; HasMore tells whether there is a rest.
abbrev pub IsShare : ℕ → RandomSelector → List Text × RandomSelector → Type 0
IsShare n r (taken, rest) =
    Perm (taken ++ rest.remaining) r.remaining
    × (length taken ≡ min n (length r.remaining))
    × (has_more_random rest ≡ ltb n (length r.remaining))

IsShare-suc :
    (n : ℕ) (r s : RandomSelector) (m : Text) (x : List Text × RandomSelector)
    → Perm (m ∷ s.remaining) r.remaining
    → suc (length s.remaining) ≡ length r.remaining
    → IsShare n s x
    → IsShare (suc n) r (m ∷ x.0, x.1)
IsShare-suc n r s m (taken, rest) p c (q, l, k) =
    (Perm.trans (Perm.cons m q) p, omega (arith, l, c), k ∙ ground (arith, c))

IsShare-none :
    (n : ℕ) (r : RandomSelector) (x : List Text × RandomSelector)
    → length r.remaining ≡ 0
    → IsShare n r x
    → IsShare (suc n) r x
IsShare-none n r (taken, rest) z (q, l, k) = (q, omega (arith, l, z), k ∙ ground (arith, z))

-- Whatever the weights, the draws and the rounding of the floats: each round takes exactly one model
-- until the pool is empty, what was handed out and what remains are together always the pool the
-- selector began with, and HasMore tells whether something remains.
pub drain_random-IsShare :
    (ar : Arithmetic) (draws : ℕ → Float) (n : ℕ) (r : RandomSelector)
    → IsShare n r (drain_random ar draws n r)
drain_random-IsShare ar draws zero r = (Perm.refl r.remaining, omega arith, refl)
drain_random-IsShare ar draws (suc n) r = elim (Bool-cases (ltb 0 (length r.remaining))) [
  | inl e ↦
      let (m, s, a, p, c) = next_random-some ar (draws n) r (ground (arith, e)) in
      subst (λ y. IsShare (suc n) r (after_draw (drain_random ar draws n) y)) (sym a)
        (IsShare-suc n r s m (drain_random ar draws n s) p c (drain_random-IsShare ar draws n s))
  | inr e ↦
      let z : length r.remaining ≡ 0 = ground (arith, e) in
      subst (λ y. IsShare (suc n) r (after_draw (drain_random ar draws n) y))
        (sym (next_random-none ar (draws n) r z))
        (IsShare-none n r (drain_random ar draws n r) z (drain_random-IsShare ar draws n r))
]

-- A call with the options of WithModelSet draws from a new random selector over the whole set,
-- which is not empty: whatever the draws and the rounding of the floats, each round takes exactly
-- one model until all were taken, what was taken and what remains are together always the set, and
-- HasMore tells whether something remains.
pub with_model_set-IsShare :
    (ar : Arithmetic) (draws : ℕ → Float) (env : Env) (models : List Text) (o o' : Options) (n : ℕ)
    → with_model_set models o ≡ some o'
    → (0 < length models)
      × ((r : RandomSelector) × (create_selector env o' ≡ ok (weighted r))
          × (r.remaining ≡ models)
          × IsShare n r (drain_random ar draws n r))
unfolding with_model_set create_selector build_selector new_random_selector
with_model_set-IsShare ar draws env models o o' n h = elim (Bool-cases (length models == 0)) [
  | inl e ↦ cc (rw e at h)
  | inr e ↦
      let same : some (record o { new_selector = some (random models none) }) ≡ some o' =
        rw e at h in
      let r = new_random_selector models none in
      let eq : record o { new_selector = some (random models none) } ≡ o' = cc same in
      let made : create_selector env o' ≡ ok (weighted r) =
        subst (λ (x : Options). create_selector env x ≡ ok (weighted r)) eq refl in
      (ground (arith, e), (r, made, refl, drain_random-IsShare ar draws n r))
]
