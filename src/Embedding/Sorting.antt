-- ===== src/Embedding/Sorting.antt =====
-- Sorting the items of a response by their index: sort.Slice in embedOnce of smolllm/embed.go.
use mathlib.Core.Path.{subst}
use smolllm_go.Prelude.{
  refl, Elem, ℕ, suc, ◌+◌, ◌≤◌, ◌<◌, ◌≡◌, refl, sym, ap, ◌∙◌, ◌≢◌, inl, inr, true, false, some,
  List, [], ◌∷◌, arith, ltb, Bool-cases, length, get_elem?, All,
}
use smolllm_go.Prelude.Int.{pos, pos_part, ltb_ℤ}
use smolllm_go.Embedding.{Float, Item, insert_item, sort_items, vectors}

-- The indices are different from each other.
abbrev pub Distinct : List Item → Type 0
Distinct [] = Unit
Distinct (x ∷ xs) = All (λ (y : Item). y.index ≢ x.index) xs × Distinct xs

-- The index is one of the first `n` numbers.
abbrev pub IsBelow : ℕ → Item → Type 0
IsBelow n x = (k : ℕ) × (x.index ≡ pos k) × (k < n)

-- The indices rise from `low` on.
abbrev Rising : ℕ → List Item → Type 0
Rising low [] = Unit
Rising low (x ∷ xs) = (k : ℕ) × (x.index ≡ pos k) × (low ≤ k) × Rising (suc k) xs

-- The indices are `low`, the number after it, and so on.
abbrev Counts : ℕ → List Item → Type 0
Counts low [] = Unit
Counts low (x ∷ xs) = (x.index ≡ pos low) × Counts (suc low) xs

module _ (P : Item → Type 0) where
  All-insert : (x : Item) (ys : List Item) → P x → All P ys → All P (insert_item x ys)
  unfolding insert_item
  All-insert x [] h hs = (h, tt)
  All-insert x (y ∷ ys) h (k, ks) = elim (Bool-cases (ltb_ℤ y.index x.index)) [
    | inl e ↦ rw e (k, All-insert x ys h ks)
    | inr e ↦ rw e (h, (k, ks))
  ]

  All-sort : (xs : List Item) → All P xs → All P (sort_items xs)
  unfolding sort_items
  All-sort [] hs = tt
  All-sort (x ∷ xs) (h, hs) = All-insert x (sort_items xs) h (All-sort xs hs)

length-insert : (x : Item) (ys : List Item) → length (insert_item x ys) ≡ suc (length ys)
unfolding insert_item
length-insert x [] = refl
length-insert x (y ∷ ys) = elim (Bool-cases (ltb_ℤ y.index x.index)) [
  | inl e ↦ rw e (ap suc (length-insert x ys))
  | inr e ↦ rw e refl
]

pub length-sort : (xs : List Item) → length (sort_items xs) ≡ length xs
unfolding sort_items
length-sort [] = refl
length-sort (x ∷ xs) = length-insert x (sort_items xs) ∙ ap suc (length-sort xs)

Elem-insert : (z x : Item) (ys : List Item) → Elem z (x ∷ ys) → Elem z (insert_item x ys)
unfolding insert_item
Elem-insert z x [] h = h
Elem-insert z x (y ∷ ys) h = elim (Bool-cases (ltb_ℤ y.index x.index)) [
  | inl e ↦ rw e (elim h [
    | inl a ↦ inr (Elem-insert z x ys (inl a))
    | inr (inl a) ↦ inl a
    | inr (inr a) ↦ inr (Elem-insert z x ys (inr a))
  ])
  | inr e ↦ rw e h
]

Elem-sort : (z : Item) (xs : List Item) → Elem z xs → Elem z (sort_items xs)
unfolding sort_items
Elem-sort z [] h = h
Elem-sort z (x ∷ xs) (inl a) = Elem-insert z x (sort_items xs) (inl a)
Elem-sort z (x ∷ xs) (inr h) = Elem-insert z x (sort_items xs) (inr (Elem-sort z xs h))

Rising-insert :
    (low j : ℕ) (x : Item) (ys : List Item)
    → x.index ≡ pos j
    → low ≤ j
    → All (λ (y : Item). y.index ≢ x.index) ys
    → Rising low ys
    → Rising low (insert_item x ys)
unfolding insert_item
Rising-insert low j x [] e l d r = (j, e, l, tt)
Rising-insert low j x (y ∷ ys) e l (n, ns) (k, f, m, r) = elim (Bool-cases (ltb k j)) [
  | inl b ↦
      let c : ltb_ℤ y.index x.index ≡ true = rw (e, f) (ground arith) in
      rw c (k, f, m, Rising-insert (suc k) j x ys e (ground arith) ns r)
  | inr b ↦
      let c : ltb_ℤ y.index x.index ≡ false = rw (e, f) (ground arith) in
      let apart : k ≢ j = λ s. n (f ∙ (ap pos s ∙ sym e)) in
      rw c (j, e, l, (k, f, ground (arith, apart, b), r))
]

Rising-sort : (n : ℕ) (xs : List Item) → All (IsBelow n) xs → Distinct xs → Rising 0 (sort_items xs)
unfolding sort_items
Rising-sort n [] h d = tt
Rising-sort n (x ∷ xs) ((j, e, l), hs) (a, d) =
    Rising-insert 0 j x (sort_items xs) e (omega arith)
      (All-sort (λ (y : Item). y.index ≢ x.index) xs a) (Rising-sort n xs hs d)

Rising-length :
    (low bound : ℕ) (xs : List Item)
    → low ≤ bound
    → Rising low xs
    → All (IsBelow bound) xs
    → low + length xs ≤ bound
Rising-length low bound [] l r h = omega arith
Rising-length low bound (x ∷ xs) l (k, e, m, r) ((j, f, b), hs) =
    let same : k ≡ j = ap pos_part (sym e ∙ f) in
    let rest = Rising-length (suc k) bound xs (omega (arith, same, b)) r hs in
    omega (arith, rest, m)

Rising-Counts :
    (low bound : ℕ) (xs : List Item)
    → bound ≡ low + length xs
    → Rising low xs
    → All (IsBelow bound) xs
    → Counts low xs
Rising-Counts low bound [] l r h = tt
Rising-Counts low bound (x ∷ xs) l (k, e, m, r) ((j, f, b), hs) =
    let same : k ≡ j = ap pos_part (sym e ∙ f) in
    let rest = Rising-length (suc k) bound xs (omega (arith, same, b)) r hs in
    let first : k ≡ low = omega (arith, rest, m, l) in
    (e ∙ ap pos first, Rising-Counts (suc low) bound xs (omega (arith, l)) (rw first at r) hs)

Counts-get_elem? :
    (low k : ℕ) (x : Item) (xs : List Item)
    → Counts low xs
    → Elem x xs
    → x.index ≡ pos k
    → (i : ℕ) × (k ≡ low + i) × (get_elem? (vectors xs) i ≡ some x.embedding)
Counts-get_elem? low k x [] c h e = absurd h
Counts-get_elem? low k x (y ∷ ys) (c, cs) (inl a) e =
    let same : pos k ≡ pos low = sym e ∙ (ap (λ (z : Item). z.index) a ∙ c) in
    (0, omega (arith, ap pos_part same), ap (λ (z : Item). some z.embedding) (sym a))
Counts-get_elem? low k x (y ∷ ys) (c, cs) (inr h) e =
    let (i, p, q) = Counts-get_elem? (suc low) k x ys cs h e in (suc i, omega (arith, p), q)

All-of : {P : Item → Type 0} (xs : List Item) → ((x : Item) → Elem x xs → P x) → All P xs
All-of {P} [] h = tt
All-of {P} (x ∷ xs) h = (h x (inl refl), All-of {P = P} xs (λ y i. h y (inr i)))

Elem-All : (P : Item → Type 0) (x : Item) (xs : List Item) → Elem x xs → All P xs → P x
Elem-All P x [] i h = absurd i
Elem-All P x (y ∷ ys) (inl e) (h, hs) = subst P (sym e) h
Elem-All P x (y ∷ ys) (inr i) (h, hs) = Elem-All P x ys i hs

-- The embedding of the item stands where its index says.
abbrev pub IsInPlace : List (List Float) → Item → Type 0
IsInPlace embeddings x = get_elem? embeddings (pos_part x.index) ≡ some x.embedding

-- The items are numbered from 0 on, each number once, in any order.
abbrev pub IsNumbered : List Item → Type 0
IsNumbered xs = All (IsBelow (length xs)) xs × Distinct xs

-- Sorting puts the embedding of every item at the place that its index says, where the items are
-- numbered.
pub sort_items-IsInPlace :
    (xs : List Item) → IsNumbered xs → All (IsInPlace (vectors (sort_items xs))) xs
sort_items-IsInPlace xs (b, d) =
    let n = length xs in
    let c =
      Rising-Counts 0 n (sort_items xs) (omega (arith, length-sort xs)) (Rising-sort n xs b d)
        (All-sort (IsBelow n) xs b) in
    All-of {P = IsInPlace (vectors (sort_items xs))} xs (λ x h.
      let (k, e, l) = Elem-All (IsBelow n) x xs h b in
      let (i, p, q) = Counts-get_elem? 0 k x (sort_items xs) c (Elem-sort x xs h) e in
      let same : i ≡ pos_part x.index = omega (arith, p, ap pos_part e) in rw same at q)
