-- ===== src/ThinkFilter/Loop.antt =====
-- The loop of Feed, with its searches and slices, computes the one pass of Scan.
use smolllm_go.Prelude.{
  ℕ, zero, suc, ◌+◌, ◌-◌, ◌≤◌, ◌<◌, min, ◌≡◌, refl, sym, ap, ◌∙◌, inl, inr, Bool, true, false, not,
  none, some, List, [], ◌∷◌, ◌++◌, append-nil, arith, ltb, if◌then◌else◌, Bool-cases, Option-cases,
  length, take, drop, length-drop,
}
use native.Mathlib.Decide.{dec_lt}
use native.Mathlib.Nat.{sub_self}
use smolllm_go.Text.{Text, is_empty, has_prefix, join, index}
use smolllm_go.Text.Laws.{has_prefix-le, has_prefix-text_eq}
use smolllm_go.ThinkFilter.{
  partial_from, partial_suffix, Sorted, ended, add_reasoning, add_content, hold, feed_loop,
  open_tag, close_tag,
}
use smolllm_go.ThinkFilter.Scan.{
  tag_of, Scanned, stop, emit, scan, scan-tag, scan-held, scan-pass, scan-empty, length-tag_of,
}

-- The found position and the tag lie inside the text.
index-le : (tag t : Text) (i : ℕ) → index tag t ≡ some i → i + length tag ≤ length t
unfolding index
index-le [] [] i h = ground arith
index-le (d ∷ tag) [] i h = cc
index-le tag (c ∷ s) i h = elim (Bool-cases (has_prefix tag (c ∷ s))) [
  | inl p ↦ ground (arith, has_prefix-le tag (c ∷ s) p)
  | inr p ↦ elim (Option-cases (index tag s)) [
    | inl e ↦ cc (rw (p, e) at h)
    | inr (j, e) ↦ ground (arith, index-le tag s j e)
  ]
]

-- Skipped bytes are dropped.
scan-drop : (k : ℕ) (i : Bool) (s : Text) → scan k i s ≡ scan 0 i (drop k s)
unfolding scan
scan-drop zero i s = refl
scan-drop (suc k) i [] = refl
scan-drop (suc k) i (c ∷ s) = scan-drop k i s

emit-empty : (i : Bool) (r : Scanned) → emit i [] r ≡ r
emit-empty true r = refl
emit-empty false r = refl

emit-cons :
    (i : Bool) (c : ℕ) (t : Text) (r : Scanned) → emit i (c ∷ []) (emit i t r) ≡ emit i (c ∷ t) r
emit-cons true c t r = refl
emit-cons false c t r = refl

index_zero :
    (tag : Text) (c : ℕ) (s : Text) → has_prefix tag (c ∷ s) ≡ true → index tag (c ∷ s) ≡ some 0
unfolding index
index_zero tag c s p = rw p

index_later :
    (tag : Text) (c : ℕ) (s : Text)
    → has_prefix tag (c ∷ s) ≡ false
    → index tag (c ∷ s) ≡ (elim (index tag s) [ none ↦ none | some i ↦ some (suc i) ])
unfolding index
index_later tag c s p = rw p

index-tag_of_empty : (b : Bool) → index (tag_of b) [] ≡ none
unfolding index
index-tag_of_empty true = refl
index-tag_of_empty false = refl

scan-at_tag :
    (b : Bool) (c : ℕ) (s : Text)
    → has_prefix (tag_of b) (c ∷ s) ≡ true
    → scan 0 b (c ∷ s) ≡ scan 0 (not b) (drop (length (tag_of b)) (c ∷ s))
scan-at_tag true c s p = rw (scan-tag true c s p) (scan-drop 7 false s)
scan-at_tag false c s p = rw (scan-tag false c s p) (scan-drop 6 true s)

-- A found tag: the text before it is sorted, and the pass goes on behind it.
pub scan-found :
    (b : Bool) (t : Text) (i : ℕ)
    → index (tag_of b) t ≡ some i
    → scan 0 b t ≡ emit b (take i t) (scan 0 (not b) (drop (i + length (tag_of b)) t))
scan-found b [] i h = cc (index-tag_of_empty b)
scan-found b (c ∷ s) i h = elim (Bool-cases (has_prefix (tag_of b) (c ∷ s))) [
  | inl p ↦
      let z : i ≡ 0 = cc (index_zero (tag_of b) c s p) in
      let e : 0 + length (tag_of b) ≡ length (tag_of b) = omega arith in
      rw z (rw (e, scan-at_tag b c s p) (sym (emit-empty b _)))
  | inr p ↦ elim (Option-cases (index (tag_of b) s)) [
    | inl e ↦ cc (rw (e) at (sym (index_later (tag_of b) c s p) ∙ h))
    | inr (j, e) ↦
        let z : i ≡ suc j = cc (rw e at (sym (index_later (tag_of b) c s p) ∙ h)) in
        let q : has_prefix (c ∷ s) (tag_of b) ≡ false =
          ground (arith, has_prefix-le (c ∷ s) (tag_of b), index-le (tag_of b) s j e) in
        let a : suc j + length (tag_of b) ≡ suc (j + length (tag_of b)) = omega arith in
        rw z (rw (a, scan-pass b c s p q, scan-found b s j e) (emit-cons b c (take j s) _))
  ]
]

partial_from-le : (k : ℕ) (t tag : Text) → partial_from k t tag ≤ k
unfolding partial_from
partial_from-le zero t tag = omega arith
partial_from-le (suc k) t tag = ground (arith, partial_from-le k t tag)

pub partial_suffix-le : (t tag : Text) → partial_suffix t tag ≤ length t
unfolding partial_suffix
partial_suffix-le t tag =
    ground (arith, partial_from-le (length t) t tag, partial_from-le (length tag - 1) t tag)

-- Shorter suffixes do not see the first byte.
partial_from-pass :
    (k c : ℕ) (s tag : Text) → k ≤ length s → partial_from k (c ∷ s) tag ≡ partial_from k s tag
unfolding partial_from
partial_from-pass zero c s tag h = refl
partial_from-pass (suc k) c s tag h =
    let e : suc (length s) - suc k ≡ suc (length s - suc k) = omega arith in
    rw (e, partial_from-pass k c s tag (omega arith))

has_prefix_flip : (s p : Text) → has_prefix s p ≡ true → length p ≤ length s → has_prefix p s ≡ true
unfolding has_prefix
has_prefix_flip s [] h l = refl
has_prefix_flip [] (d ∷ p) h l = elim l [ ]
has_prefix_flip (c ∷ s) (d ∷ p) h l = ground (arith, has_prefix_flip s p)

held_length :
    (s tag : Text) → has_prefix tag s ≡ false → has_prefix s tag ≡ true → length s < length tag
held_length s tag p q = ground (arith, has_prefix_flip s tag, has_prefix-le s tag)

partial_from-whole :
    (c : ℕ) (s tag : Text)
    → length (c ∷ s) ≤ length tag
    → partial_from (suc (length s)) (c ∷ s) tag
      ≡ (if has_prefix (c ∷ s) tag then suc (length s) else partial_from (length s) s tag)
unfolding partial_from
partial_from-whole c s tag l = rw (
  sub_self (suc (length s)),
  has_prefix-text_eq (c ∷ s) tag l,
  partial_from-pass (length s) c s tag (omega arith),
)

partial_suffix_cap :
    (t tag : Text) (k : ℕ)
    → min (length t) (length tag - 1) ≡ k
    → partial_suffix t tag ≡ partial_from k t tag
unfolding partial_suffix
partial_suffix_cap t tag k h = ap (λ (n : ℕ). partial_from n t tag) (ground arith)

-- The whole of a text that begins the tag is its own partial suffix.
partial_suffix-held :
    (c : ℕ) (s tag : Text)
    → has_prefix tag (c ∷ s) ≡ false
    → has_prefix (c ∷ s) tag ≡ true
    → partial_suffix (c ∷ s) tag ≡ suc (length s)
partial_suffix-held c s tag p q =
    let lt = held_length (c ∷ s) tag p q in
    rw (
      partial_suffix_cap (c ∷ s) tag (suc (length s)) (omega arith),
      partial_from-whole c s tag (omega arith),
      q,
    )

-- A text that does not begin the tag has the partial suffix of its tail.
partial_suffix-pass :
    (c : ℕ) (s tag : Text)
    → has_prefix (c ∷ s) tag ≡ false
    → partial_suffix (c ∷ s) tag ≡ partial_suffix s tag
partial_suffix-pass c s tag q = elim (dec_lt (length s) (length tag - 1)) [
  | yes h ↦ rw (
    partial_suffix_cap (c ∷ s) tag (suc (length s)) (omega arith),
    partial_suffix_cap s tag (length s) (omega arith),
    partial_from-whole c s tag (omega arith),
    q,
  )
  | no h ↦
      rw
        (
          partial_suffix_cap (c ∷ s) tag (length tag - 1) (omega arith),
          partial_suffix_cap s tag (length tag - 1) (omega arith),
        )
        (partial_from-pass (length tag - 1) c s tag (omega arith))
]

scan-none_empty : (b : Bool) → scan 0 b [] ≡ emit b [] (stop b [])
scan-none_empty b = scan-empty 0 b ∙ sym (emit-empty b (stop b []))

-- No tag: all is sorted but the partial suffix, which is held.
pub scan-none :
    (b : Bool) (t : Text)
    → index (tag_of b) t ≡ none
    → let q = partial_suffix t (tag_of b) in
      scan 0 b t ≡ emit b (take (length t - q) t) (stop b (drop (length t - q) t))
scan-none b [] h =
    let e : 0 - partial_suffix [] (tag_of b) ≡ 0 = omega arith in rw e (scan-none_empty b)
scan-none b (c ∷ s) h = elim (Bool-cases (has_prefix (tag_of b) (c ∷ s))) [
  | inl p ↦ cc (index_zero (tag_of b) c s p)
  | inr p ↦ elim (Bool-cases (has_prefix (c ∷ s) (tag_of b))) [
    | inl q ↦
        rw (partial_suffix-held c s (tag_of b) p q, sub_self (suc (length s)), scan-held b c s p q)
          (sym (emit-empty b _))
    | inr q ↦ elim (Option-cases (index (tag_of b) s)) [
      | inl e ↦
          let u = partial_suffix-le s (tag_of b) in
          let k : suc (length s) - partial_suffix s (tag_of b)
              ≡ suc (length s - partial_suffix s (tag_of b)) =
            omega arith in
          rw (partial_suffix-pass c s (tag_of b) q, k, scan-pass b c s p q, scan-none b s e)
            (emit-cons b c _ _)
      | inr (j, e) ↦ cc (rw e at (sym (index_later (tag_of b) c s p) ∙ h))
    ]
  ]
]

join_empty-cons : (w : Text) (ws : List Text) → join [] (w ∷ ws) ≡ w ++ join [] ws
unfolding join
join_empty-cons w [] = sym (append-nil w)
join_empty-cons w (v ∷ ws) = refl

-- The parts that the loop collected, joined.
abbrev pub flat : Sorted → Scanned
flat r = record {
  inside = r.inside;
  held = r.held;
  reasoning = join [] r.reasoning_parts;
  content = join [] r.content_parts;
}

flat-ended : (b : Bool) (held : Text) → flat (ended b held) ≡ stop b held
unfolding join
flat-ended b held = refl

flat-add_reasoning : (w : Text) (r : Sorted) → flat (add_reasoning w r) ≡ emit true w (flat r)
flat-add_reasoning w r = rw (join_empty-cons w r.reasoning_parts)

flat-add_content : (w : Text) (r : Sorted) → flat (add_content w r) ≡ emit false w (flat r)
flat-add_content w r = rw (join_empty-cons w r.content_parts)

-- A part is left out only where it is empty.
flat-if_empty :
    (w : Text) (r : Sorted)
    → (flat (if is_empty w then r else add_reasoning w r) ≡ emit true w (flat r))
      × (flat (if is_empty w then r else add_content w r) ≡ emit false w (flat r))
flat-if_empty [] r = (refl, refl)
flat-if_empty (c ∷ w) r = (flat-add_reasoning (c ∷ w) r, flat-add_content (c ∷ w) r)

flat-hold :
    (b : Bool) (t : Text)
    → let q = partial_suffix t (tag_of b) in
      flat (hold b t) ≡ emit b (take (length t - q) t) (stop b (drop (length t - q) t))
unfolding hold
flat-hold true t =
    (flat-if_empty (take (length t - partial_suffix t close_tag) t) _).0
    ∙ ap (emit true _) (flat-ended true _)
flat-hold false t =
    (flat-if_empty (take (length t - partial_suffix t open_tag) t) _).1
    ∙ ap (emit false _) (flat-ended false _)

flat-add_content_pos :
    (i : ℕ) (t : Text) (r : Sorted)
    → flat (if ltb 0 i then add_content (take i t) r else r) ≡ emit false (take i t) (flat r)
flat-add_content_pos zero t r = refl
flat-add_content_pos (suc i) t r =
    let e : ltb 0 (suc i) ≡ true = ground arith in rw e (flat-add_content (take (suc i) t) r)

length-rest :
    (b : Bool) (t : Text) (i fuel : ℕ)
    → length t < suc fuel
    → i + length (tag_of b) ≤ length t
    → length (drop (i + length (tag_of b)) t) < fuel
length-rest b t i fuel h l =
    rw (length-drop (i + length (tag_of b)) t) (omega (arith, length-tag_of b))

-- With fuel above the length of the text the loop is the one pass.
pub feed_loop-scan :
    (fuel : ℕ) (b : Bool) (t : Text) → length t < fuel → flat (feed_loop fuel b t) ≡ scan 0 b t
unfolding feed_loop
feed_loop-scan zero b t h = elim h [ ]
feed_loop-scan (suc fuel) b [] h = flat-ended b [] ∙ sym (scan-empty 0 b)
feed_loop-scan (suc fuel) true (c ∷ s) h = elim (Option-cases (index close_tag (c ∷ s))) [
  | inl e ↦ rw (e, feed_loop) (flat-hold true (c ∷ s) ∙ sym (scan-none true (c ∷ s) e))
  | inr (i, e) ↦
      let l = length-rest true (c ∷ s) i fuel h (index-le close_tag (c ∷ s) i e) in
      let ih = feed_loop-scan fuel false (drop (i + length close_tag) (c ∷ s)) l in
      rw (e, feed_loop, scan-found true (c ∷ s) i e)
        (flat-add_reasoning (take i (c ∷ s)) _ ∙ ap (emit true (take i (c ∷ s))) ih)
]
feed_loop-scan (suc fuel) false (c ∷ s) h = elim (Option-cases (index open_tag (c ∷ s))) [
  | inl e ↦ rw (e, feed_loop) (flat-hold false (c ∷ s) ∙ sym (scan-none false (c ∷ s) e))
  | inr (i, e) ↦
      let l = length-rest false (c ∷ s) i fuel h (index-le open_tag (c ∷ s) i e) in
      let ih = feed_loop-scan fuel true (drop (i + length open_tag) (c ∷ s)) l in
      rw (e, feed_loop, scan-found false (c ∷ s) i e)
        (flat-add_content_pos i (c ∷ s) _ ∙ ap (emit false (take i (c ∷ s))) ih)
]
