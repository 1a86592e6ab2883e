-- ===== src/Balancer/Choice.antt =====
-- What choosePair chooses.
use smolllm_go.Prelude.{
  Elem, Elem-append, get_or, Elem-get_or, ℕ, ◌+◌, ◌%◌, ◌≤◌, ◌≡◌, refl, ap, ◌∙◌, ◌≢◌, ◌⊎◌, inl, inr,
  true, false, none, some, List, [], ◌∷◌, ◌++◌, arith, ltb, ◌==◌, if◌then◌else◌, ==_iff, Bool-cases,
  length,
}
use smolllm_go.Text.Laws.{text_eq_refl, text_eq→eq}
use smolllm_go.Errors.{ok}
use smolllm_go.Balancer.{PairKey, pair_eq, Balancer, usage_of, bump, least_from, pick, choose_among}

only : (usage : PairKey → ℕ) (p x : PairKey) → Elem x (p ∷ []) → usage x ≡ usage p
only usage p x (inl e) = ap usage e
only usage p x (inr e) = absurd e

also :
    (usage : PairKey → ℕ) (m : ℕ) (least : List PairKey) (p : PairKey)
    → ((x : PairKey) → Elem x least → usage x ≡ m)
    → usage p ≡ m
    → (x : PairKey) → Elem x (least ++ (p ∷ []))
    → usage x ≡ m
also usage m least p h e x i = elim (Elem-append x least (p ∷ []) i) [
  | inl k ↦ h x k
  | inr k ↦ only usage p x k ∙ e
]

below_cons :
    (usage : PairKey → ℕ) (n : ℕ) (p : PairKey) (ps : List PairKey)
    → n ≤ usage p
    → ((x : PairKey) → Elem x ps → n ≤ usage x)
    → (x : PairKey) → Elem x (p ∷ ps)
    → n ≤ usage x
below_cons usage n p ps h k x (inl e) = rw e h
below_cons usage n p ps h k x (inr i) = k x i

module _ (q p : PairKey) (least ps : List PairKey) where
  from_new : Elem q (p ∷ []) ⊎ Elem q ps → Elem q least ⊎ Elem q (p ∷ ps)
  from_new (inl (inl e)) = inr (inl e)
  from_new (inl (inr a)) = absurd a
  from_new (inr k) = inr (inr k)

  from_old : Elem q least ⊎ Elem q ps → Elem q least ⊎ Elem q (p ∷ ps)
  from_old (inl k) = inl k
  from_old (inr k) = inr (inr k)

  from_both :
      (Elem q (least ++ (p ∷ [])) → Elem q least ⊎ Elem q (p ∷ []))
      → Elem q (least ++ (p ∷ [])) ⊎ Elem q ps
      → Elem q least ⊎ Elem q (p ∷ ps)
  from_both part (inr k) = inr (inr k)
  from_both part (inl k) = elim (part k) [
    | inl i ↦ inl i
    | inr (inl e) ↦ inr (inl e)
    | inr (inr a) ↦ absurd a
  ]

-- What the loop has kept is at most as used as all that it kept before and all that it sees.
least_from-le :
    (usage : PairKey → ℕ) (m : ℕ) (least ps : List PairKey) (q : PairKey)
    → ((x : PairKey) → Elem x least → usage x ≡ m)
    → Elem q (least_from usage (some m) least ps)
    → (usage q ≤ m) × ((x : PairKey) → Elem x ps → usage q ≤ usage x) × (Elem q least ⊎ Elem q ps)
unfolding least_from
least_from-le usage m least [] q h e = (omega (arith, h q e), λ x i. absurd i, inl e)
least_from-le usage m least (p ∷ ps) q h e = elim (Bool-cases (ltb (usage p) m)) [
  | inl lt ↦
      let (a, b, c) = least_from-le usage (usage p) (p ∷ []) ps q (only usage p) (rw lt at e) in
      (ground arith, below_cons usage (usage q) p ps a b, from_new q p least ps c)
  | inr ge ↦ elim (Bool-cases (usage p == m)) [
    | inl eq ↦
        let (a, b, c) =
          least_from-le usage m (least ++ (p ∷ [])) ps q
            (also usage m least p h ((==_iff _ _).0 eq)) (rw (ge, eq) at e) in
        (
          a,
          below_cons usage (usage q) p ps (omega (arith, (==_iff _ _).0 eq)) b,
          from_both q p least ps (Elem-append q least (p ∷ [])) c,
        )
    | inr gt ↦
        let (a, b, c) = least_from-le usage m least ps q h (rw (ge, gt) at e) in
        (a, below_cons usage (usage q) p ps (ground arith) b, from_old q p least ps c)
  ]
]

-- From the start, what the loop keeps is among the pairs, and none of them is used less.
pub least_from-least :
    (usage : PairKey → ℕ) (ps : List PairKey) (q : PairKey)
    → Elem q (least_from usage none [] ps)
    → Elem q ps × ((x : PairKey) → Elem x ps → usage q ≤ usage x)
unfolding least_from
least_from-least usage [] q e = absurd e
least_from-least usage (p ∷ ps) q e =
    let (a, b, c) = least_from-le usage (usage p) (p ∷ []) ps q (only usage p) e in
    (from_least c, below_cons usage (usage q) p ps a b)
  where
    from_least : Elem q (p ∷ []) ⊎ Elem q ps → Elem q (p ∷ ps)
    from_least (inl (inl i)) = inl i
    from_least (inl (inr i)) = absurd i
    from_least (inr k) = inr k

append-ne-nil : (l : List PairKey) (p : PairKey) → l ++ (p ∷ []) ≢ []
append-ne-nil [] p h = cc
append-ne-nil (x ∷ l) p h = cc

least_from-ne-nil :
    (usage : PairKey → ℕ) (m : ℕ) (least ps : List PairKey)
    → least ≢ []
    → least_from usage (some m) least ps ≢ []
unfolding least_from
least_from-ne-nil usage m least [] h = h
least_from-ne-nil usage m least (p ∷ ps) h = elim (Bool-cases (ltb (usage p) m)) [
  | inl lt ↦ rw lt (least_from-ne-nil usage (usage p) (p ∷ []) ps (λ e. cc))
  | inr ge ↦ elim (Bool-cases (usage p == m)) [
    | inl eq ↦
        rw (ge, eq) (least_from-ne-nil usage m (least ++ (p ∷ [])) ps (append-ne-nil least p))
    | inr gt ↦ rw (ge, gt) (least_from-ne-nil usage m least ps h)
  ]
]

pair_path : {p q : PairKey} → p.key ≡ q.key → p.url ≡ q.url → p ≡ q
pair_path k u = λ i. record { key = k i; url = u i }

pub pair_eq→eq : (p q : PairKey) → pair_eq p q ≡ true → p ≡ q
pair_eq→eq p q h =
    pair_path (text_eq→eq p.key q.key (ground arith)) (text_eq→eq p.url q.url (ground arith))

pub pair_eq_refl : (p : PairKey) → pair_eq p p ≡ true
pair_eq_refl p = rw (text_eq_refl p.key, text_eq_refl p.url)

-- A pair equals at most one of two different ones.
pair_eq_apart : (q p x : PairKey) → pair_eq q p ≡ false → pair_eq q x ≡ true → pair_eq p x ≡ false
pair_eq_apart q p x h k = elim (Bool-cases (pair_eq p x)) [
  | inl e ↦ cc (ap (λ (r : PairKey). pair_eq q r) (pair_eq→eq p x e))
  | inr e ↦ e
]

-- b.usage[p]++ adds one at `p` and changes nothing else.
pub usage_of-bump :
    (m : List (PairKey × ℕ)) (p x : PairKey)
    → usage_of (bump m p) x ≡ usage_of m x + (if pair_eq p x then 1 else 0)
unfolding usage_of bump
usage_of-bump [] p x = ground arith
usage_of-bump ((q, n) ∷ m) p x = elim (Bool-cases (pair_eq q p)) [
  | inl e ↦ rw e (bumped (ap (λ (r : PairKey). pair_eq r x) (pair_eq→eq q p e)))
  | inr e ↦ rw e (kept (usage_of-bump m p x) (pair_eq_apart q p x e))
]
  where
    bumped :
        pair_eq q x ≡ pair_eq p x
        → (if pair_eq q x then n + 1 else usage_of m x)
          ≡ (if pair_eq q x then n else usage_of m x) + (if pair_eq p x then 1 else 0)
    bumped h = rw h (ground arith)

    kept :
        usage_of (bump m p) x ≡ usage_of m x + (if pair_eq p x then 1 else 0)
        → (pair_eq q x ≡ true → pair_eq p x ≡ false)
        → (if pair_eq q x then n else usage_of (bump m p) x)
          ≡ (if pair_eq q x then n else usage_of m x) + (if pair_eq p x then 1 else 0)
    kept h k = elim (Bool-cases (pair_eq q x)) [
      | inl e ↦ rw (e, k e) (omega arith)
      | inr e ↦ rw e h
    ]

-- What a successful choice tells: the pair is one of the pairs, no pair was used less, and the
-- choice counts once, for that pair only.
abbrev pub IsFairChoice : List PairKey → Balancer → PairKey → Balancer → Type 0
IsFairChoice pairs b c b' =
    Elem c pairs
    × ((x : PairKey) → Elem x pairs → usage_of b.usage c ≤ usage_of b.usage x)
    × ((x : PairKey) → usage_of b'.usage x ≡ usage_of b.usage x + (if pair_eq c x then 1 else 0))

pick_cons :
    (b : Balancer) (least : List PairKey) (v : ℕ)
    → least ≢ []
    → b.configured ≡ true
    → (c : PairKey) × Elem c least
      × (pick b least v ≡ (ok (c.key, c.url), record b { usage = bump b.usage c }))
unfolding pick
pick_cons b [] v h k = absurd (h refl)
pick_cons b (p ∷ ps) v h k = (
  get_or (p ∷ ps) (v % length (p ∷ ps)) p,
  Elem-get_or (p ∷ ps) (v % length (p ∷ ps)) p (omega arith),
  rw k,
)

pub choose_among-fair :
    (b : Balancer) (v : ℕ) (p : PairKey) (ps : List PairKey)
    → b.configured ≡ true
    → (c : PairKey) × (b' : Balancer) × (choose_among b v (ok (p ∷ ps)) ≡ (ok (c.key, c.url), b'))
      × IsFairChoice (p ∷ ps) b c b'
      × (b'.configured ≡ true)
choose_among-fair b v p ps k =
    let least = least_from (usage_of b.usage) none [] (p ∷ ps) in
    let (c, i, e) =
      pick_cons b least v
        (unfold least_from in
          least_from-ne-nil (usage_of b.usage) (usage_of b.usage p) (p ∷ []) ps (λ e. cc))
        k in
    let (j, l) = least_from-least (usage_of b.usage) (p ∷ ps) c i in
    (c, record b { usage = bump b.usage c }, e, (j, l, usage_of-bump b.usage c), k)
