-- ===== src/ThinkFilter/Scan.antt =====
-- The reference of the filter: one pass over the bytes, with no search and no fuel, and the law
-- that it may stop and go on anywhere.
use smolllm_go.Prelude.{
  ℕ, zero, suc, ◌-◌, ◌≤◌, ◌<◌, ◌≡◌, refl, inl, inr, Bool, true, false, not, [], ◌∷◌, ◌++◌, arith,
  if◌then◌else◌, Bool-cases, length,
}
use smolllm_go.Text.{Text, has_prefix}
use smolllm_go.Text.Laws.{
  has_prefix-append, has_prefix-append_cases, has_prefix-append_left, has_prefix-le,
}
use smolllm_go.ThinkFilter.{open_tag, close_tag}

-- The tag that the filter looks for.
abbrev pub tag_of : Bool → Text
tag_of true = close_tag
tag_of false = open_tag

-- What a pass has sorted so far, and what it holds back.
pub record Scanned : Type 0 where
  pub inside : Bool
  pub held : Text
  pub reasoning : Text
  pub content : Text

abbrev pub stop : Bool → Text → Scanned
stop inside held = record { inside = inside; held = held; reasoning = []; content = [] }

-- More text before what a pass sorted.
abbrev pub emit : Bool → Text → Scanned → Scanned
emit true t r = record r { reasoning = t ++ r.reasoning }
emit false t r = record r { content = t ++ r.content }

-- A byte is sorted by itself; a tag switches, and its other bytes are skipped; a rest that may
-- still become a tag is held.
unfoldable pub scan : ℕ → Bool → Text → Scanned
unfolding has_prefix
scan k inside [] = stop inside []
scan (suc k) inside (c ∷ s) = scan k inside s
scan zero inside (c ∷ s) =
    let switched = scan (length (tag_of inside) - 1) (not inside) s in
    let passed = emit inside (c ∷ []) (scan 0 inside s) in
    if has_prefix (tag_of inside) (c ∷ s)
    then switched
    else if has_prefix (c ∷ s) (tag_of inside)
    then stop inside (c ∷ s)
    else passed

-- The sorted texts of one pass before those of the next.
abbrev pub then_scanned : Scanned → Scanned → Scanned
then_scanned r t = record t {
  reasoning = r.reasoning ++ t.reasoning;
  content = r.content ++ t.content;
}

-- Text put before what a pass sorted, and the pass resumed.
emit-resume :
    (i : Bool) (c : ℕ) (r : Scanned) (b : Text)
    → emit i (c ∷ []) (then_scanned r (scan 0 r.inside (r.held ++ b)))
      ≡ then_scanned
          (emit i (c ∷ []) r)
          (scan 0 (emit i (c ∷ []) r).inside ((emit i (c ∷ []) r).held ++ b))
emit-resume true c r b = refl
emit-resume false c r b = refl

not_prefix-append :
    (tag s b : Text)
    → has_prefix tag s ≡ false
    → has_prefix s tag ≡ false
    → (has_prefix tag (s ++ b) ≡ false) × (has_prefix (s ++ b) tag ≡ false)
not_prefix-append tag s b h k = (
  ground (arith, has_prefix-append_cases tag s b),
  ground (arith, has_prefix-append_left s b tag),
)

-- The three cases of a pass that is at a byte.
module _ (inside : Bool) (c : ℕ) (s : Text) where
  pub scan-tag :
      has_prefix (tag_of inside) (c ∷ s) ≡ true
      → scan 0 inside (c ∷ s) ≡ scan (length (tag_of inside) - 1) (not inside) s
  unfolding scan
  scan-tag p = rw p

  pub scan-held :
      has_prefix (tag_of inside) (c ∷ s) ≡ false
      → has_prefix (c ∷ s) (tag_of inside) ≡ true
      → scan 0 inside (c ∷ s) ≡ stop inside (c ∷ s)
  unfolding scan
  scan-held p q = rw (p, q)

  pub scan-pass :
      has_prefix (tag_of inside) (c ∷ s) ≡ false
      → has_prefix (c ∷ s) (tag_of inside) ≡ false
      → scan 0 inside (c ∷ s) ≡ emit inside (c ∷ []) (scan 0 inside s)
  unfolding scan
  scan-pass p q = rw (p, q)

pub length-tag_of : (i : Bool) → 0 < length (tag_of i)
length-tag_of true = omega arith
length-tag_of false = omega arith

scan-skip : (k : ℕ) (i : Bool) (c : ℕ) (s : Text) → scan (suc k) i (c ∷ s) ≡ scan k i s
unfolding scan
scan-skip k i c s = refl

pub scan-empty : (k : ℕ) (i : Bool) → scan k i [] ≡ stop i []
unfolding scan
scan-empty k i = refl

-- A pass over `a ++ b` is a pass over `a` and one over what it held followed by `b`.
pub scan-append :
    (k : ℕ) (inside : Bool) (a b : Text)
    → k ≤ length a
    → scan k inside (a ++ b)
      ≡ then_scanned
          (scan k inside a)
          (scan 0 (scan k inside a).inside ((scan k inside a).held ++ b))
scan-append zero inside [] b h = rw (scan-empty 0 inside)
scan-append (suc k) inside [] b h = elim h [ ]
scan-append (suc k) inside (c ∷ s) b h =
    rw (scan-skip k inside c s, scan-skip k inside c (s ++ b))
      (scan-append k inside s b (omega arith))
scan-append zero inside (c ∷ s) b h = elim (Bool-cases (has_prefix (tag_of inside) (c ∷ s))) [
  | inl p ↦
      rw
        (
          scan-tag inside c s p,
          scan-tag inside c (s ++ b) (has_prefix-append (tag_of inside) (c ∷ s) b p),
        )
        (scan-append (length (tag_of inside) - 1) (not inside) s b
          (omega (arith, has_prefix-le (tag_of inside) (c ∷ s) p, length-tag_of inside)))
  | inr p ↦ elim (Bool-cases (has_prefix (c ∷ s) (tag_of inside))) [
    | inl q ↦ rw (scan-held inside c s p q)
    | inr q ↦
        let (p', q') = not_prefix-append (tag_of inside) (c ∷ s) b p q in
        let ih = scan-append zero inside s b (omega arith) in
        rw (scan-pass inside c s p q, scan-pass inside c (s ++ b) p' q', ih)
          (emit-resume inside c (scan 0 inside s) b)
  ]
]
