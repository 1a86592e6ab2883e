-- ===== src/ToolCalls/Slots.antt =====
-- The map of slots, and the slot that a fragment goes to.
use mathlib.Core.Path.{subst}
use smolllm_go.Prelude.{
  ◌≡◌, refl, sym, true, false, Option, none, some, List, [], ◌∷◌, arith, if◌then◌else◌,
}
use smolllm_go.Prelude.Int.{ℤ, pos, leb_ℤ, eq_ℤ, suc_int, ◌<ℤ◌, ◌≤ℤ◌, max_int, eq_of_parts}
use smolllm_go.Text.{is_empty}
use smolllm_go.ToolCalls.{Slot, Accumulator, ToolCallDelta, slot_at, set_slot, next_slot, slot_for}

pub eq_ℤ_refl : (i : ℤ) → eq_ℤ i i ≡ true
eq_ℤ_refl i = ground arith

pub eq_ℤ→eq : (i j : ℤ) → eq_ℤ i j ≡ true → i ≡ j
eq_ℤ→eq i j h = eq_of_parts i j (ground arith)

-- Reading a slot after a write.
pub slot_at-set_slot :
    (i j : ℤ) (s : Slot) (m : List (ℤ × Slot))
    → slot_at j (set_slot i s m) ≡ (if eq_ℤ i j then some s else slot_at j m)
unfolding slot_at set_slot
slot_at-set_slot i j s [] = refl
slot_at-set_slot i j s ((k, t) ∷ m) = ground (arith, slot_at-set_slot i j s m)

-- A slot number above all that are there.
abbrev pub Above : ℤ → List (ℤ × Slot) → Type 0
Above n [] = Unit
Above n ((j, s) ∷ m) = (j <ℤ n) × Above n m

pub Above-slot_at : (n : ℤ) (m : List (ℤ × Slot)) → Above n m → slot_at n m ≡ none
unfolding slot_at
Above-slot_at n [] h = refl
Above-slot_at n ((j, s) ∷ m) h = ground (arith, Above-slot_at n m h.1)

Above-weaken : (n k : ℤ) (m : List (ℤ × Slot)) → n ≤ℤ k → Above n m → Above k m
Above-weaken n k [] h a = tt
Above-weaken n k ((j, s) ∷ m) h a = (omega arith, Above-weaken n k m h a.1)

-- No slot has the largest `int`.
abbrev pub IsBounded : List (ℤ × Slot) → Type 0
IsBounded [] = Unit
IsBounded ((j, s) ∷ m) = (j <ℤ pos max_int) × IsBounded m

-- One round of the loop goes above the slot that it meets.
round_bounds :
    (n j : ℤ)
    → j <ℤ pos max_int
    → let next = if leb_ℤ n j then suc_int j else n in (n ≤ℤ next) × (j <ℤ next)
unfolding suc_int
round_bounds n j h = ground arith

≤ℤ_trans : (a b c : ℤ) → a ≤ℤ b → b ≤ℤ c → a ≤ℤ c
≤ℤ_trans a b c h k = omega arith

<ℤ_trans : (a b c : ℤ) → a <ℤ b → b ≤ℤ c → a <ℤ c
<ℤ_trans a b c h k = omega arith

next_slot-cons :
    (n j : ℤ) (s : Slot) (m : List (ℤ × Slot))
    → next_slot n ((j, s) ∷ m) ≡ next_slot (if leb_ℤ n j then suc_int j else n) m
unfolding next_slot
next_slot-cons n j s m = refl

next_slot-nil : (n : ℤ) → next_slot n [] ≡ n
unfolding next_slot
next_slot-nil n = refl

next_slot-ge : (n : ℤ) (m : List (ℤ × Slot)) → IsBounded m → n ≤ℤ next_slot n m
next_slot-ge n [] h = rw (next_slot-nil n) (omega arith)
next_slot-ge n ((j, s) ∷ m) h =
    let next = if leb_ℤ n j then suc_int j else n in
    rw (next_slot-cons n j s m)
      (≤ℤ_trans n next (next_slot next m) (round_bounds n j h.0).0 (next_slot-ge next m h.1))

pub next_slot-Above : (n : ℤ) (m : List (ℤ × Slot)) → IsBounded m → Above (next_slot n m) m
next_slot-Above n [] h = tt
next_slot-Above n ((j, s) ∷ m) h =
    let next = if leb_ℤ n j then suc_int j else n in
    subst (λ k. Above k ((j, s) ∷ m)) (sym (next_slot-cons n j s m))
      (
        <ℤ_trans j next (next_slot next m) (round_bounds n j h.0).1 (next_slot-ge next m h.1),
        next_slot-Above next m h.1,
      )

-- A fragment without a slot number and with a call id opens a slot of its own, above all that are
-- there, as long as no slot has the largest `int`.
pub slot_for_fresh :
    (a : Accumulator) (d : ToolCallDelta)
    → d.index ≡ none
    → is_empty d.id ≡ false
    → IsBounded a.slots
    → Above (slot_for a d) a.slots × (slot_at (slot_for a d) a.slots ≡ none)
slot_for_fresh a d h k b =
    let e : slot_for a d ≡ next_slot (pos 0) a.slots = fresh a.last_slot refl in
    let above = next_slot-Above (pos 0) a.slots b in
    rw e (above, Above-slot_at (next_slot (pos 0) a.slots) a.slots above)
  where
    fresh : (o : Option ℤ) → a.last_slot ≡ o → slot_for a d ≡ next_slot (pos 0) a.slots
    fresh none p = unfold slot_for in rw (h, p)
    fresh (some l) p = unfold slot_for in rw (h, p, k)

-- A fragment with neither goes to the slot of the fragment before it.
pub slot_for_same :
    (a : Accumulator) (d : ToolCallDelta) {i : ℤ}
    → d.index ≡ none
    → is_empty d.id ≡ true
    → a.last_slot ≡ some i
    → slot_for a d ≡ i
unfolding slot_for
slot_for_same a d h k l = rw (h, l, k)
