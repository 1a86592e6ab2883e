-- ===== src/Balancer/Pairs.antt =====
-- What parseList and buildPairs accept.
use smolllm_go.Prelude.{
  get_or, ℕ, zero, suc, ◌%◌, ◌<◌, ◌≡◌, refl, ap, ◌∙◌, ◌≢◌, inl, inr, false, List, [], ◌∷◌, map,
  arith, ◌==◌, ==_iff, Bool-cases, length, length-map, All,
}
use Prim.Native.Nat.{max}
use mathlib.Core.Path.{subst}
use native.Mathlib.Nat.{mod-eq_of_lt}
use smolllm_go.Text.Laws.{split-cons}
use smolllm_go.Text.{Text, is_empty, trim_space, split}
use smolllm_go.Errors.{Message, Result, ok, err, ◌>>=◌, context}
use smolllm_go.Balancer.{
  PairKey, with_url, with_key, trimmed_entries, parse_list, zip_pairs, pair_up, build_pairs,
}

-- Inversion of a successful bind.
pub >>=-eq-ok {ℓ κ} :
    {A : Type ℓ} {B : Type κ} (first : Result A) (next : A → Result B) {last : B}
    → (first >>= next) ≡ ok last
    → (value : A) × (first ≡ ok value) × (next value ≡ ok last)
>>=-eq-ok (err _) next eq = cc
>>=-eq-ok (ok value) next eq = (value, refl, eq)

pub context-eq-ok {ℓ} :
    {A : Type ℓ} (m : Message) (r : Result A) {a : A} → context m r ≡ ok a → r ≡ ok a
context-eq-ok m (ok a) h = h
context-eq-ok m (err e) h = cc

-- Every entry is the trimmed item at its place, and none is blank.
trimmed_entries-map :
    (items : List Text) {ws : List Text}
    → trimmed_entries items ≡ ok ws
    → (ws ≡ map trim_space items) × All (λ w. w ≢ []) ws
unfolding trimmed_entries
trimmed_entries-map [] {ws} h = let e : ws ≡ [] = cc in rw e (refl, tt)
trimmed_entries-map (item ∷ items) {ws} h = elim (Bool-cases (is_empty (trim_space item))) [
  | inl e ↦ cc (rw e at h)
  | inr e ↦
      let (rest, r, k) =
        >>=-eq-ok (trimmed_entries items) (λ rest. ok (trim_space item ∷ rest)) (rw e at h) in
      let (m, all) = trimmed_entries-map items r in
      let w : ws ≡ trim_space item ∷ rest = cc k in
      rw (w, m) (refl, (not_empty (trim_space item) e, rw (← m) all))
]
  where
    not_empty : (t : Text) → is_empty t ≡ false → t ≢ []
    not_empty t h k = cc (rw k at h)

-- A list is accepted only where it has an entry, and then its entries are the items between the
-- commas, trimmed, none of them blank.
pub parse_list-entries :
    (items : Text) {ws : List Text}
    → parse_list items ≡ ok ws
    → (ws ≡ map trim_space (split b',' items))
      × All (λ w. w ≢ []) ws
      × ((w : Text) × (rest : List Text) × (ws ≡ w ∷ rest))
unfolding parse_list
parse_list-entries items {ws} h = elim (Bool-cases (is_empty (trim_space items))) [
  | inl e ↦ cc (rw e at h)
  | inr e ↦
      let (m, all) = trimmed_entries-map (split b',' items) (rw e at h) in
      let (w, rest, k) = split-cons b',' items in
      (m, all, (trim_space w, map trim_space rest, m ∙ ap (map trim_space) k))
]

-- The element that a list gives at a position of a longer one.
abbrev pub cyclic : List Text → ℕ → Text
cyclic l i = get_or l (i % length l) []

module _ (d : PairKey) where
  get_or-map :
      (f : Text → PairKey) (l : List Text) (i : ℕ)
      → i < length l
      → get_or (map f l) i d ≡ f (get_or l i [])
  get_or-map f [] i h = elim h [ ]
  get_or-map f (x ∷ l) zero h = refl
  get_or-map f (x ∷ l) (suc i) h = get_or-map f l i (omega arith)

  get_or-zip_pairs :
      (ks us : List Text) (i : ℕ)
      → length ks ≡ length us
      → i < length ks
      → get_or (zip_pairs ks us) i d ≡ record { key = get_or ks i []; url = get_or us i [] }
  unfolding zip_pairs
  get_or-zip_pairs [] us i h l = elim l [ ]
  get_or-zip_pairs (k ∷ ks) [] i h l = absurd (omega arith)
  get_or-zip_pairs (k ∷ ks) (u ∷ us) zero h l = refl
  get_or-zip_pairs (k ∷ ks) (u ∷ us) (suc i) h l =
      get_or-zip_pairs ks us i (omega arith) (omega arith)

length-zip_pairs :
    (ks us : List Text) → length ks ≡ length us → length (zip_pairs ks us) ≡ length ks
unfolding zip_pairs
length-zip_pairs [] us h = refl
length-zip_pairs (k ∷ ks) [] h = absurd (omega arith)
length-zip_pairs (k ∷ ks) (u ∷ us) h = ap suc (length-zip_pairs ks us (omega arith))

-- The pairs run through both lists, the shorter of which has one element or as many.
abbrev pub ArePairs : List Text → List Text → List PairKey → Type 0
ArePairs ks us ps =
    (length ps ≡ max (length ks) (length us))
    × ((d : PairKey) (i : ℕ)
        → i < length ps
        → get_or ps i d ≡ record { key = cyclic ks i; url = cyclic us i })

one_url : (k u : Text) (ks : List Text) → ArePairs (k ∷ ks) (u ∷ []) (map (with_url u) (k ∷ ks))
one_url k u ks = (
  omega (arith, length-map (k ∷ ks) (with_url u)),
  λ d i h.
      let l : i < length (k ∷ ks) = omega (arith, length-map (k ∷ ks) (with_url u)) in
      let z : i % 1 ≡ 0 = omega arith in
      rw (mod-eq_of_lt l, z) (get_or-map d (with_url u) (k ∷ ks) i l),
)

one_key : (k u : Text) (us : List Text) → ArePairs (k ∷ []) (u ∷ us) (map (with_key k) (u ∷ us))
one_key k u us = (
  omega (arith, length-map (u ∷ us) (with_key k)),
  λ d i h.
      let l : i < length (u ∷ us) = omega (arith, length-map (u ∷ us) (with_key k)) in
      let z : i % 1 ≡ 0 = omega arith in
      rw (mod-eq_of_lt l, z) (get_or-map d (with_key k) (u ∷ us) i l),
)

as_many : (ks us : List Text) → length ks ≡ length us → ArePairs ks us (zip_pairs ks us)
as_many ks us e = (
  omega (arith, length-zip_pairs ks us e),
  λ d i h.
      let l : i < length ks = omega (arith, length-zip_pairs ks us e) in
      let l' : i < length us = omega (arith, e) in
      rw (mod-eq_of_lt l, mod-eq_of_lt l') (get_or-zip_pairs d ks us i e l),
)

ok-injective {ℓ} : {A : Type ℓ} {a b : A} → ok a ≡ ok b → a ≡ b
ok-injective h = cc

pair_up-ArePairs :
    (k u : Text) (ks us : List Text) {ps : List PairKey}
    → pair_up (k ∷ ks) (u ∷ us) ≡ ok ps
    → ArePairs (k ∷ ks) (u ∷ us) ps
unfolding pair_up
pair_up-ArePairs k u ks [] {ps} h =
    subst (ArePairs (k ∷ ks) (u ∷ [])) (ok-injective h) (one_url k u ks)
pair_up-ArePairs k u [] (v ∷ us) {ps} h =
    subst (ArePairs (k ∷ []) (u ∷ v ∷ us)) (ok-injective h) (one_key k u (v ∷ us))
pair_up-ArePairs k u (l ∷ ks) (v ∷ us) {ps} h =
    elim (Bool-cases (length (k ∷ l ∷ ks) == length (u ∷ v ∷ us))) [
      | inl e ↦
          subst (ArePairs (k ∷ l ∷ ks) (u ∷ v ∷ us)) (ok-injective (rw e at h))
            (as_many (k ∷ l ∷ ks) (u ∷ v ∷ us) ((==_iff _ _).0 e))
      | inr e ↦ cc (rw e at h)
    ]

-- buildPairs succeeds only where both lists parse, and then pairs the keys with the URLs in order,
-- a single key or URL with all of the others; there is at least one pair.
pub build_pairs-ArePairs :
    (keys urls : Text) {ps : List PairKey}
    → build_pairs keys urls ≡ ok ps
    → (ks : List Text) × (us : List Text) × (parse_list keys ≡ ok ks)
      × (parse_list urls ≡ ok us)
      × ArePairs ks us ps
      × (0 < length ps)
unfolding build_pairs
build_pairs-ArePairs keys urls h =
    let (ks, a, h') = >>=-eq-ok (context _ (parse_list keys)) _ h in
    let (us, b, p) = >>=-eq-ok (context _ (parse_list urls)) _ h' in
    let pa = context-eq-ok _ (parse_list keys) a in
    let pb = context-eq-ok _ (parse_list urls) b in
    let (k, kr, ek) = (parse_list-entries keys pa).2 in
    let (u, ur, eu) = (parse_list-entries urls pb).2 in
    let are = pair_up-ArePairs k u kr ur (rw (ek, eu) at p) in
    (ks, us, pa, pb, rw (ek, eu) are, omega (arith, are.0))
