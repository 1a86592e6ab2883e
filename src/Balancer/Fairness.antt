-- ===== src/Balancer/Fairness.antt =====
-- Over many calls the balancer spreads the use of the pairs evenly.
use mathlib.Core.Path.{subst}
use smolllm_go.Prelude.{
  Elem, ℕ, ◌+◌, ◌≤◌, ◌<◌, ◌≡◌, refl, sym, ap, inl, inr, true, List, [], ◌∷◌, arith, Bool-cases,
  length,
}
use smolllm_go.Text.{Text}
use smolllm_go.Errors.{ok}
use smolllm_go.Balancer.{
  PairKey, pair_eq, Balancer, new_balancer, usage_of, build_pairs, choose_among, choose_pair,
}
use smolllm_go.Balancer.Choice.{IsFairChoice, choose_among-fair, pair_eq→eq}
use smolllm_go.Balancer.Pairs.{build_pairs-ArePairs}

-- Where the lists pair up, choosePair of a balancer that newBalancer made succeeds: the pair is one
-- of the configured with the fewest uses, and only its count goes up.
pub choose_pair-fair :
    (b : Balancer) (keys urls : Text) (v : ℕ) {ps : List PairKey}
    → build_pairs keys urls ≡ ok ps
    → b.configured ≡ true
    → (c : PairKey) × (b' : Balancer) × (choose_pair b keys urls v ≡ (ok (c.key, c.url), b'))
      × IsFairChoice ps b c b'
      × (b'.configured ≡ true)
unfolding choose_pair
choose_pair-fair b keys urls v {ps} h k =
    let (ks, us, p, q, are, l) = build_pairs-ArePairs keys urls h in rw h (nonempty ps l)
  where
    nonempty :
        (qs : List PairKey)
        → 0 < length qs
        → (c : PairKey) × (b' : Balancer) × (choose_among b v (ok qs) ≡ (ok (c.key, c.url), b'))
          × IsFairChoice qs b c b'
          × (b'.configured ≡ true)
    nonempty [] l = elim l [ ]
    nonempty (p ∷ qs) l = choose_among-fair b v p qs k

-- The same choice, one call for each value of the random source.
unfoldable pub rounds : Text → Text → Balancer → List ℕ → Balancer
rounds keys urls b [] = b
rounds keys urls b (v ∷ vs) = rounds keys urls (choose_pair b keys urls v).1 vs

-- No pair is ahead of another by more than one use.
abbrev pub IsBalanced : List PairKey → Balancer → Type 0
IsBalanced ps b =
    (p q : PairKey) → Elem p ps → Elem q ps → usage_of b.usage p ≤ usage_of b.usage q + 1

fair-IsBalanced :
    (ps : List PairKey) (b : Balancer) (c : PairKey) (b' : Balancer)
    → IsFairChoice ps b c b'
    → IsBalanced ps b
    → IsBalanced ps b'
fair-IsBalanced ps b c b' (i, low, add) bal p q ip iq = elim (Bool-cases (pair_eq c p)) [
  | inl e ↦
      ground
        (arith, add p, add q, low q iq, ap (λ (r : PairKey). usage_of b.usage r) (pair_eq→eq c p e))
  | inr e ↦ rw (add p, add q, e) (omega (arith, bal p q ip iq))
]

rounds-IsBalanced :
    (keys urls : Text) {ps : List PairKey} (b : Balancer) (vs : List ℕ)
    → build_pairs keys urls ≡ ok ps
    → b.configured ≡ true
    → IsBalanced ps b
    → IsBalanced ps (rounds keys urls b vs)
unfolding rounds
rounds-IsBalanced keys urls b [] h k bal = bal
rounds-IsBalanced keys urls {ps} b (v ∷ vs) h k bal =
    let (c, b', e, fair, k') = choose_pair-fair b keys urls v h k in
    let step : (choose_pair b keys urls v).1 ≡ b' = rw e in
    subst (λ r. IsBalanced ps (rounds keys urls r vs)) (sym step)
      (rounds-IsBalanced keys urls b' vs h k' (fair-IsBalanced ps b c b' fair bal))

-- From a new balancer, after any number of calls with the same lists and whatever the random
-- source gives, the uses of any two of the pairs differ by at most one.
pub rounds_even :
    (keys urls : Text) {ps : List PairKey} (vs : List ℕ) (p q : PairKey)
    → build_pairs keys urls ≡ ok ps
    → Elem p ps
    → Elem q ps
    → let b = rounds keys urls new_balancer vs in
      (usage_of b.usage p ≤ usage_of b.usage q + 1) × (usage_of b.usage q ≤ usage_of b.usage p + 1)
rounds_even keys urls vs p q h ip iq =
    let bal =
      rounds-IsBalanced keys urls new_balancer vs h refl
        (unfold usage_of in λ p q i j. omega arith) in
    (bal p q ip iq, bal q p iq ip)
