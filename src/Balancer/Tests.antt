-- ===== src/Balancer/Tests.antt =====
-- The theorems on the balancer at concrete lists.
use smolllm_go.Prelude.{
  ◌+◌, ◌≤◌, ◌<◌, ◌≡◌, refl, ◌≢◌, inl, inr, true, List, [], ◌∷◌, map, length, All,
}
use smolllm_go.Text.{Text, lit, trim_space, split}
use smolllm_go.Errors.{ok}
use smolllm_go.Balancer.{
  PairKey, Balancer, new_balancer, usage_of, parse_list, build_pairs, choose_pair,
}
use smolllm_go.Balancer.Choice.{IsFairChoice}
use smolllm_go.Balancer.Pairs.{ArePairs, parse_list-entries, build_pairs-ArePairs}
use smolllm_go.Balancer.Fairness.{choose_pair-fair, rounds, rounds_even}

abbrev first : PairKey
first = record { key = lit "k1"; url = lit "u" }

abbrev second : PairKey
second = record { key = lit "k2"; url = lit "u" }

two_pairs : build_pairs (lit "k1, k2") (lit "u") ≡ ok (first ∷ second ∷ [])
unfolding build_pairs
two_pairs = refl

parse_list-entries_example :
    (lit "k1" ∷ lit "k2" ∷ [] ≡ map trim_space (split b',' (lit "k1, k2")))
    × All (λ (w : Text). w ≢ []) (lit "k1" ∷ lit "k2" ∷ [])
    × ((w : Text) × (rest : List Text) × (lit "k1" ∷ lit "k2" ∷ [] ≡ w ∷ rest))
unfolding parse_list
parse_list-entries_example = parse_list-entries (lit "k1, k2") {ws = lit "k1" ∷ lit "k2" ∷ []} refl

build_pairs-ArePairs_example :
    (ks : List Text) × (us : List Text) × (parse_list (lit "k1, k2") ≡ ok ks)
    × (parse_list (lit "u") ≡ ok us)
    × ArePairs ks us (first ∷ second ∷ [])
    × (0 < length (first ∷ second ∷ []))
build_pairs-ArePairs_example = build_pairs-ArePairs (lit "k1, k2") (lit "u") two_pairs

choose_pair-fair_example :
    (c : PairKey) × (b' : Balancer) × (choose_pair new_balancer (lit "k1, k2") (lit "u") 5
      ≡ (ok (c.key, c.url), b'))
    × IsFairChoice (first ∷ second ∷ []) new_balancer c b'
    × (b'.configured ≡ true)
choose_pair-fair_example = choose_pair-fair new_balancer (lit "k1, k2") (lit "u") 5 two_pairs refl

rounds_even_example :
    let b = rounds (lit "k1, k2") (lit "u") new_balancer (4 ∷ 4 ∷ 4 ∷ []) in
    (usage_of b.usage first ≤ usage_of b.usage second + 1)
    × (usage_of b.usage second ≤ usage_of b.usage first + 1)
rounds_even_example =
    rounds_even (lit "k1, k2") (lit "u") (4 ∷ 4 ∷ 4 ∷ []) first second two_pairs (inl refl)
      (inr (inl refl))
