-- ===== src/ToolCalls/Order.antt =====
-- The assembled calls stand in the order of their slot numbers, one for each slot.
use mathlib.Core.Path.{subst}
use smolllm_go.Prelude.{
  Elem, ◌≡◌, refl, sym, ◌⊎◌, inl, inr, true, false, some, List, [], ◌∷◌, arith, Bool-cases, is_some,
}
use smolllm_go.Prelude.Int.{ℤ, leb_ℤ, eq_ℤ, ◌<ℤ◌}
use smolllm_go.ToolCalls.{
  ToolCall, Slot, Fragment, Accumulator, new_accumulator, ToolCallDelta, slot_at, set_slot,
  slot_for, merge, feed, insert_int, keys, sort_ints, sorted_indexes, resolve_all, result, resolve,
}
use smolllm_go.ToolCalls.Slots.{eq_ℤ→eq, eq_ℤ_refl}
use smolllm_go.ToolCalls.Streamed.{feed-cons, feed-nil, streamed}

-- Every number is below the next.
abbrev pub BelowAll : ℤ → List ℤ → Type 0
BelowAll i [] = Unit
BelowAll i (j ∷ l) = (i <ℤ j) × BelowAll i l

abbrev pub Increasing : List ℤ → Type 0
Increasing [] = Unit
Increasing (i ∷ l) = BelowAll i l × Increasing l

abbrev NotIn : ℤ → List ℤ → Type 0
NotIn i [] = Unit
NotIn i (j ∷ l) = (eq_ℤ i j ≡ false) × NotIn i l

-- No number stands twice.
abbrev pub Distinct : List ℤ → Type 0
Distinct [] = Unit
Distinct (i ∷ l) = NotIn i l × Distinct l

BelowAll-insert_int : (i j : ℤ) (l : List ℤ) → i <ℤ j → BelowAll i l → BelowAll i (insert_int j l)
unfolding insert_int
BelowAll-insert_int i j [] h b = (h, tt)
BelowAll-insert_int i j (k ∷ l) h b = elim (Bool-cases (leb_ℤ j k)) [
  | inl e ↦ rw e (h, b)
  | inr e ↦ rw e (b.0, BelowAll-insert_int i j l h b.1)
]

BelowAll-trans : (i j : ℤ) (l : List ℤ) → i <ℤ j → BelowAll j l → BelowAll i l
BelowAll-trans i j [] h b = tt
BelowAll-trans i j (k ∷ l) h b = (omega arith, BelowAll-trans i j l h b.1)

Increasing-insert_int :
    (i : ℤ) (l : List ℤ) → NotIn i l → Increasing l → Increasing (insert_int i l)
unfolding insert_int
Increasing-insert_int i [] n h = (tt, tt)
Increasing-insert_int i (j ∷ l) n h = elim (Bool-cases (leb_ℤ i j)) [
  | inl e ↦ let lt : i <ℤ j = ground (arith, n.0) in rw e ((lt, BelowAll-trans i j l lt h.0), h)
  | inr e ↦
      let gt : j <ℤ i = ground arith in
      rw e (BelowAll-insert_int j i l gt h.0, Increasing-insert_int i l n.1 h.1)
]

NotIn-insert_int : (i j : ℤ) (l : List ℤ) → eq_ℤ i j ≡ false → NotIn i l → NotIn i (insert_int j l)
unfolding insert_int
NotIn-insert_int i j [] h n = (h, tt)
NotIn-insert_int i j (k ∷ l) h n = elim (Bool-cases (leb_ℤ j k)) [
  | inl e ↦ rw e (h, n)
  | inr e ↦ rw e (n.0, NotIn-insert_int i j l h n.1)
]

NotIn-sort_ints : (i : ℤ) (l : List ℤ) → NotIn i l → NotIn i (sort_ints l)
unfolding sort_ints
NotIn-sort_ints i [] n = tt
NotIn-sort_ints i (j ∷ l) n = NotIn-insert_int i j (sort_ints l) n.0 (NotIn-sort_ints i l n.1)

sort_ints-Increasing : (l : List ℤ) → Distinct l → Increasing (sort_ints l)
unfolding sort_ints
sort_ints-Increasing [] d = tt
sort_ints-Increasing (i ∷ l) d =
    Increasing-insert_int i (sort_ints l) (NotIn-sort_ints i l d.0) (sort_ints-Increasing l d.1)

NotIn-set_slot :
    (i k : ℤ) (s : Slot) (m : List (ℤ × Slot))
    → eq_ℤ i k ≡ false
    → NotIn i (keys m)
    → NotIn i (keys (set_slot k s m))
unfolding set_slot
NotIn-set_slot i k s [] h n = (h, tt)
NotIn-set_slot i k s ((j, t) ∷ m) h n = elim (Bool-cases (eq_ℤ j k)) [
  | inl e ↦ rw e n
  | inr e ↦ rw e (n.0, NotIn-set_slot i k s m h n.1)
]

Distinct-set_slot :
    (k : ℤ) (s : Slot) (m : List (ℤ × Slot)) → Distinct (keys m) → Distinct (keys (set_slot k s m))
unfolding set_slot
Distinct-set_slot k s [] d = (tt, tt)
Distinct-set_slot k s ((j, t) ∷ m) d = elim (Bool-cases (eq_ℤ j k)) [
  | inl e ↦ rw e d
  | inr e ↦ rw e (NotIn-set_slot j k s m e d.0, Distinct-set_slot k s m d.1)
]

merge-Distinct :
    (a : Accumulator) (d : ToolCallDelta)
    → Distinct (keys a.slots)
    → Distinct (keys (merge a d).0.slots)
unfolding merge
merge-Distinct a d h = Distinct-set_slot (slot_for a d) _ a.slots h

feed-Distinct :
    (a : Accumulator) (ds : List ToolCallDelta)
    → Distinct (keys a.slots)
    → Distinct (keys (feed a ds).0.slots)
feed-Distinct a [] h = rw (feed-nil a) h
feed-Distinct a (d ∷ ds) h =
    rw (feed-cons a d ds) (feed-Distinct (merge a d).0 ds (merge-Distinct a d h))

-- The calls are what the slots of the numbers hold, in their order.
abbrev pub Reads : List (ℤ × Slot) → List ℤ → List ToolCall → Type 0
Reads m [] [] = Unit
Reads m [] (c ∷ cs) = ⊥
Reads m (i ∷ l) [] = ⊥
Reads m (i ∷ l) (c ∷ cs) = ((s : Slot) × (slot_at i m ≡ some s) × (c ≡ resolve s)) × Reads m l cs

abbrev Present : List (ℤ × Slot) → List ℤ → Type 0
Present m [] = Unit
Present m (i ∷ l) = ((s : Slot) × (slot_at i m ≡ some s)) × Present m l

resolve_all-some :
    (m : List (ℤ × Slot)) (i : ℤ) (l : List ℤ) {s : Slot}
    → slot_at i m ≡ some s
    → resolve_all m (i ∷ l) ≡ resolve s ∷ resolve_all m l
unfolding resolve_all
resolve_all-some m i l e = rw (e, resolve_all)

resolve_all-Reads : (m : List (ℤ × Slot)) (l : List ℤ) → Present m l → Reads m l (resolve_all m l)
unfolding resolve_all
resolve_all-Reads m [] h = tt
resolve_all-Reads m (i ∷ l) h =
    let (s, e) = h.0 in
    subst (λ cs. Reads m (i ∷ l) cs) (sym (resolve_all-some m i l e))
      ((s, e, refl), resolve_all-Reads m l h.1)

Present-insert_int :
    (m : List (ℤ × Slot)) (i : ℤ) (l : List ℤ)
    → (s : Slot) × (slot_at i m ≡ some s)
    → Present m l
    → Present m (insert_int i l)
unfolding insert_int
Present-insert_int m i [] h p = (h, tt)
Present-insert_int m i (j ∷ l) h p = elim (Bool-cases (leb_ℤ i j)) [
  | inl e ↦ rw e (h, p)
  | inr e ↦ rw e (p.0, Present-insert_int m i l h p.1)
]

Present-sort_ints : (m : List (ℤ × Slot)) (l : List ℤ) → Present m l → Present m (sort_ints l)
unfolding sort_ints
Present-sort_ints m [] p = tt
Present-sort_ints m (i ∷ l) p = Present-insert_int m i (sort_ints l) p.0 (Present-sort_ints m l p.1)

Present-cons :
    (j : ℤ) (t : Slot) (m : List (ℤ × Slot)) (l : List ℤ) → Present m l → Present ((j, t) ∷ m) l
unfolding slot_at
Present-cons j t m [] p = tt
Present-cons j t m (i ∷ l) p = elim (Bool-cases (eq_ℤ j i)) [
  | inl e ↦ ((t, rw e), Present-cons j t m l p.1)
  | inr e ↦ ((p.0.0, rw e p.0.1), Present-cons j t m l p.1)
]

Present-keys : (m : List (ℤ × Slot)) → Present m (keys m)
Present-keys [] = tt
Present-keys ((j, t) ∷ m) =
    ((t, unfold slot_at in rw (eq_ℤ_refl j)), Present-cons j t m (keys m) (Present-keys m))

Elem-cons_map :
    (i j k : ℤ) (l l' : List ℤ)
    → ((i ≡ j) ⊎ Elem i l → Elem i l')
    → (i ≡ j) ⊎ Elem i (k ∷ l)
    → Elem i (k ∷ l')
Elem-cons_map i j k l l' f (inl e) = inr (f (inl e))
Elem-cons_map i j k l l' f (inr (inl e)) = inl e
Elem-cons_map i j k l l' f (inr (inr h)) = inr (f (inr h))

Elem-insert_int : (i j : ℤ) (l : List ℤ) → (i ≡ j) ⊎ Elem i l → Elem i (insert_int j l)
unfolding insert_int
Elem-insert_int i j [] h = h
Elem-insert_int i j (k ∷ l) h = elim (Bool-cases (leb_ℤ j k)) [
  | inl e ↦ rw e h
  | inr e ↦ rw e (Elem-cons_map i j k l (insert_int j l) (Elem-insert_int i j l) h)
]

Elem-sort_ints : (i : ℤ) (l : List ℤ) → Elem i l → Elem i (sort_ints l)
unfolding sort_ints
Elem-sort_ints i [] h = h
Elem-sort_ints i (j ∷ l) (inl e) = Elem-insert_int i j (sort_ints l) (inl e)
Elem-sort_ints i (j ∷ l) (inr h) = Elem-insert_int i j (sort_ints l) (inr (Elem-sort_ints i l h))

Elem-keys : (i : ℤ) (m : List (ℤ × Slot)) → is_some (slot_at i m) ≡ true → Elem i (keys m)
unfolding slot_at
Elem-keys i [] h = cc
Elem-keys i ((j, t) ∷ m) h = elim (Bool-cases (eq_ℤ j i)) [
  | inl e ↦ inl (sym (eq_ℤ→eq j i e))
  | inr e ↦ inr (Elem-keys i m (rw e at h))
]

-- The calls that a turn gives stand in increasing order of their slot numbers, each is what its
-- slot holds, and every slot that holds a call is among them. `toolIndexes` are those numbers.
pub result-in_order :
    (ds : List ToolCallDelta)
    → let a = (feed new_accumulator ds).0 in
      Increasing (sorted_indexes a)
      × Reads a.slots (sorted_indexes a) (result a)
      × ((i : ℤ) → is_some (slot_at i a.slots) ≡ true → Elem i (sorted_indexes a))
unfolding result sorted_indexes
result-in_order ds =
    let a = (feed new_accumulator ds).0 in
    (
      sort_ints-Increasing (keys a.slots) (feed-Distinct new_accumulator ds tt),
      resolve_all-Reads a.slots (sort_ints (keys a.slots))
          (Present-sort_ints a.slots (keys a.slots) (Present-keys a.slots)),
      λ i h. Elem-sort_ints i (keys a.slots) (Elem-keys i a.slots h),
    )

-- Each call has, as its arguments, the streamed argument fragments of its slot.
abbrev pub Assembled : List Fragment → List ℤ → List ToolCall → Type 0
Assembled fs [] [] = Unit
Assembled fs [] (c ∷ cs) = ⊥
Assembled fs (i ∷ l) [] = ⊥
Assembled fs (i ∷ l) (c ∷ cs) = (c.arguments ≡ streamed i fs) × Assembled fs l cs
