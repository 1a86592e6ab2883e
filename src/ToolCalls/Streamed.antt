-- ===== src/ToolCalls/Streamed.antt =====
-- The fragments that the accumulator reports are exactly what it builds.
use mathlib.Core.Path.{subst}
use smolllm_go.Prelude.{
  ℕ, ◌+◌, ◌≡◌, refl, sym, ap, ◌∙◌, inl, inr, Bool, true, false, not, ◌&&◌, ◌||◌, List, [], ◌∷◌,
  ◌++◌, append-nil, append_assoc, arith, if◌then◌else◌, Bool-cases, is_some,
}
use smolllm_go.Prelude.Int.{ℤ, eq_ℤ}
use smolllm_go.Text.{Text}
use smolllm_go.ToolCalls.{
  Slot, Accumulator, new_accumulator, ToolCallDelta, Fragment, slot_at, set_slot, slot_for, merge,
  merge_slot, feed, arguments_of, or_empty,
}
use smolllm_go.ToolCalls.Slots.{slot_at-set_slot, eq_ℤ→eq, eq_ℤ_refl}

-- The argument text that stands in slot `i`.
abbrev pub built : ℤ → Accumulator → Text
built i a = (or_empty (slot_at i a.slots)).arguments

-- The argument text of the fragments that name slot `i`, in order.
abbrev pub streamed : ℤ → List Fragment → Text
streamed i [] = []
streamed i (f ∷ fs) = (if eq_ℤ f.index i then f.arguments else []) ++ streamed i fs

-- How many fragments announce slot `i`.
abbrev pub announced : ℤ → List Fragment → ℕ
announced i [] = 0
announced i (f ∷ fs) = (if eq_ℤ f.index i && f.started then 1 else 0) + announced i fs

merge_slot-arguments :
    (d : ToolCallDelta) (s : Slot)
    → (merge_slot d s).arguments ≡ s.arguments ++ arguments_of d.function
unfolding merge_slot
merge_slot-arguments d s = refl

-- A write of the merged slot, seen at slot `i`.
abbrev Written : ToolCallDelta → List (ℤ × Slot) → ℤ → ℤ → Type 0
Written d m i k =
    let m' = set_slot k (merge_slot d (or_empty (slot_at k m))) m in
    ((or_empty (slot_at i m')).arguments
      ≡ (or_empty (slot_at i m)).arguments ++ (if eq_ℤ k i then arguments_of d.function else []))
    × (is_some (slot_at i m') ≡ eq_ℤ k i || is_some (slot_at i m))

Written-same : (d : ToolCallDelta) (m : List (ℤ × Slot)) (i : ℤ) → Written d m i i
Written-same d m i =
    rw (slot_at-set_slot i i (merge_slot d (or_empty (slot_at i m))) m, eq_ℤ_refl i)
      (merge_slot-arguments d (or_empty (slot_at i m)), refl)

written : (d : ToolCallDelta) (m : List (ℤ × Slot)) (i k : ℤ) → Written d m i k
written d m i k = elim (Bool-cases (eq_ℤ k i)) [
  | inl e ↦ subst (Written d m i) (sym (eq_ℤ→eq k i e)) (Written-same d m i)
  | inr e ↦
      rw (slot_at-set_slot k i (merge_slot d (or_empty (slot_at k m))) m, e)
        (sym (append-nil (or_empty (slot_at i m)).arguments), refl)
]

-- One fragment: it is reported with its slot and its text, and as a start exactly where the slot
-- is new; every other slot stays as it is.
merge_lem :
    (a : Accumulator) (d : ToolCallDelta) (i : ℤ)
    → let (b, f) = merge a d in
      (built i b ≡ built i a ++ (if eq_ℤ f.index i then f.arguments else []))
      × (is_some (slot_at i b.slots) ≡ eq_ℤ f.index i || is_some (slot_at i a.slots))
      × (f.started ≡ not (is_some (slot_at f.index a.slots)))
unfolding merge
merge_lem a d i = let (w, s) = written d a.slots i (slot_for a d) in (w, s, refl)

pub feed-cons :
    (a : Accumulator) (d : ToolCallDelta) (ds : List ToolCallDelta)
    → feed a (d ∷ ds) ≡ ((feed (merge a d).0 ds).0, (merge a d).1 ∷ (feed (merge a d).0 ds).1)
unfolding feed
feed-cons a d ds = refl

pub feed-nil : (a : Accumulator) → feed a [] ≡ (a, [])
unfolding feed
feed-nil a = refl

feed-built :
    (a : Accumulator) (ds : List ToolCallDelta) (i : ℤ)
    → built i (feed a ds).0 ≡ built i a ++ streamed i (feed a ds).1
feed-built a [] i = rw (feed-nil a) (sym (append-nil (built i a)))
feed-built a (d ∷ ds) i =
    let (w, s, t) = merge_lem a d i in
    let f = (merge a d).1 in
    rw (feed-cons a d ds) (
      feed-built (merge a d).0 ds i
      ∙ ap (λ (t : Text). t ++ streamed i (feed (merge a d).0 ds).1) w
      ∙ append_assoc (built i a) (if eq_ℤ f.index i then f.arguments else [])
          (streamed i (feed (merge a d).0 ds).1))

-- From the start of a leg, the arguments of every slot are the reported argument fragments that
-- name it, in order: the assembled calls and the streamed events cannot drift apart.
pub built-streamed :
    (ds : List ToolCallDelta) (i : ℤ)
    → let (a, fs) = feed new_accumulator ds in built i a ≡ streamed i fs
unfolding slot_at
built-streamed ds i = feed-built new_accumulator ds i

abbrev to_ℕ : Bool → ℕ
to_ℕ true = 1
to_ℕ false = 0

started_once :
    (a : Accumulator) (d : ToolCallDelta) (i : ℤ)
    → let (b, f) = merge a d in
      to_ℕ (is_some (slot_at i b.slots))
      ≡ to_ℕ (is_some (slot_at i a.slots)) + (if eq_ℤ f.index i && f.started then 1 else 0)
started_once a d i =
    let (w, s, t) = merge_lem a d i in
    let f = (merge a d).1 in
    elim (Bool-cases (eq_ℤ f.index i)) [
      | inl e ↦
          let u = ap (λ (j : ℤ). is_some (slot_at j a.slots)) (eq_ℤ→eq f.index i e) in
          rw (s, t, e, u) (ground arith)
      | inr e ↦ rw (s, e) (ground arith)
    ]

feed-announced :
    (a : Accumulator) (ds : List ToolCallDelta) (i : ℤ)
    → to_ℕ (is_some (slot_at i (feed a ds).0.slots))
      ≡ to_ℕ (is_some (slot_at i a.slots)) + announced i (feed a ds).1
feed-announced a [] i = rw (feed-nil a) (omega arith)
feed-announced a (d ∷ ds) i =
    rw (feed-cons a d ds) (omega (arith, feed-announced (merge a d).0 ds i, started_once a d i))

-- From the start of a leg, a slot that holds a call was announced exactly once, and a slot that
-- holds none never.
pub announced-slot_at :
    (ds : List ToolCallDelta) (i : ℤ)
    → let (a, fs) = feed new_accumulator ds in
      announced i fs ≡ (if is_some (slot_at i a.slots) then 1 else 0)
unfolding slot_at
announced-slot_at ds i =
    as_if (is_some (slot_at i (feed new_accumulator ds).0.slots))
      (feed-announced new_accumulator ds i)
  where
    as_if : (b : Bool) {n : ℕ} → to_ℕ b ≡ 0 + n → n ≡ (if b then 1 else 0)
    as_if true h = omega arith
    as_if false h = omega arith
