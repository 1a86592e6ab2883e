-- ===== src/ToolCalls/Merging.antt =====
-- The maps of extras in smolllm/toolcall.go: what is in one after a copy and after deletions.
use smolllm_go.Prelude.{
  ◌≡◌, refl, sym, ap, ◌∙◌, inl, inr, Bool, true, false, ◌||◌, Option, none, some, [], ◌∷◌,
  if◌then◌else◌, Bool-cases, Option-cases,
}
use mathlib.Core.Path.{subst}
use smolllm_go.Text.{Text, lit, text_eq}
use smolllm_go.Text.Laws.{text_eq→eq, text_eq_refl}
use smolllm_go.Exchange.{same_fold}
use smolllm_go.ToolCalls.{Fields, put_field, field_of, copy_fields}
use smolllm_go.ToolCalls.Wire.{delete_field, delete_all, call_keys}

-- A key of the struct, and a key that encoding/json takes for one.
abbrev pub known : Text → Bool
known k = text_eq (lit "id") k || text_eq (lit "type") k || text_eq (lit "function") k

abbrev pub named_like : Text → Bool
named_like k = same_fold k (lit "id") || same_fold k (lit "type") || same_fold k (lit "function")

known-named_like : (k : Text) → known k ≡ true → named_like k ≡ true
known-named_like k h = elim (Bool-cases (text_eq (lit "id") k)) [
  | inl a ↦ subst (λ x. named_like x ≡ true) (text_eq→eq (lit "id") k a) refl
  | inr a ↦ elim (Bool-cases (text_eq (lit "type") k)) [
    | inl b ↦ subst (λ x. named_like x ≡ true) (text_eq→eq (lit "type") k b) refl
    | inr b ↦ elim (Bool-cases (text_eq (lit "function") k)) [
      | inl c ↦ subst (λ x. named_like x ≡ true) (text_eq→eq (lit "function") k c) refl
      | inr c ↦ cc (rw (a, b, c) at h)
    ]
  ]
]

abbrev pub or_else : Option Text → Option Text → Option Text
or_else none o = o
or_else (some v) o = some v

-- Each key stands once, as in a Go map.
abbrev pub Distinct : Fields → Type 0
Distinct [] = Unit
Distinct ((k, v) ∷ m) = (field_of k m ≡ none) × Distinct m

field-put_same : (k v : Text) (m : Fields) → field_of k (put_field k v m) ≡ some v
unfolding field_of put_field
field-put_same k v [] = rw (text_eq_refl k) refl
field-put_same k v ((i, w) ∷ m) = elim (Bool-cases (text_eq i k)) [
  | inl a ↦ rw (a, text_eq_refl k) refl
  | inr a ↦ rw (a, a) (field-put_same k v m)
]

field-put_other :
    (i k v : Text) (m : Fields) → text_eq i k ≡ false → field_of k (put_field i v m) ≡ field_of k m
unfolding field_of put_field
field-put_other i k v [] h = rw h refl
field-put_other i k v ((l, w) ∷ m) h = elim (Bool-cases (text_eq l i)) [
  | inl a ↦ let e = text_eq→eq l i a in rw (a, h, ap (λ x. text_eq x k) e, h) refl
  | inr a ↦ rw (a, field-put_other i k v m h) refl
]

pub field-copy :
    (k : Text) (m extra : Fields)
    → Distinct extra
    → field_of k (copy_fields m extra) ≡ or_else (field_of k extra) (field_of k m)
unfolding field_of copy_fields
field-copy k m [] d = refl
field-copy k m ((i, v) ∷ extra) (a, d) = elim (Bool-cases (text_eq i k)) [
  | inl b ↦
      let e = text_eq→eq i k b in
      field-copy k (put_field i v m) extra d ∙ rw (b, sym e, a, field-put_same i v m) refl
  | inr b ↦ field-copy k (put_field i v m) extra d ∙ rw (b, field-put_other i k v m b) refl
]

apart : (i k : Text) → text_eq k i ≡ false → text_eq i k ≡ false
apart i k h = elim (Bool-cases (text_eq i k)) [
  | inl a ↦ let e = text_eq→eq i k a in cc (rw (e, text_eq_refl k) at h)
  | inr a ↦ a
]

field-delete :
    (k i : Text) (m : Fields)
    → field_of k (delete_field i m) ≡ (if text_eq i k then none else field_of k m)
unfolding field_of delete_field
field-delete k i [] = elim (Bool-cases (text_eq i k)) [ inl a ↦ rw a refl | inr a ↦ rw a refl ]
field-delete k i ((l, v) ∷ m) = elim (Bool-cases (text_eq l i)) [
  | inl a ↦ elim (Bool-cases (text_eq i k)) [
    | inl b ↦ rw (a, field-delete k i m, b) refl
    | inr b ↦
        let e = text_eq→eq l i a in rw (a, field-delete k i m, b, ap (λ x. text_eq x k) e, b) refl
  ]
  | inr a ↦ elim (Bool-cases (text_eq l k)) [
    | inl b ↦
        let e = text_eq→eq l k b in rw (a, b, apart i k (ap (λ x. text_eq x i) (sym e) ∙ a)) refl
    | inr b ↦ rw (a, b) (field-delete k i m)
  ]
]

if-chain :
    (a b c : Bool) (o : Option Text)
    → (if c then none else if b then none else if a then none else o)
      ≡ (if a || b || c then none else o)
if-chain true true true o = refl
if-chain true true false o = refl
if-chain true false true o = refl
if-chain true false false o = refl
if-chain false true true o = refl
if-chain false true false o = refl
if-chain false false true o = refl
if-chain false false false o = refl

pub field-delete_all :
    (k : Text) (m : Fields)
    → field_of k (delete_all call_keys m) ≡ (if known k then none else field_of k m)
unfolding delete_all
field-delete_all k m =
    rw
      (
        field-delete k (lit "function") (delete_field (lit "type") (delete_field (lit "id") m)),
        field-delete k (lit "type") (delete_field (lit "id") m),
        field-delete k (lit "id") m,
      )
      (if-chain (text_eq (lit "id") k) (text_eq (lit "type") k) (text_eq (lit "function") k)
        (field_of k m))

-- Extras that encoding/json does not take for a field of the struct.
abbrev pub Foreign : Fields → Type 0
Foreign extra = (k v : Text) → field_of k extra ≡ some v → named_like k ≡ false

-- Fields of the struct only.
abbrev pub Own : Fields → Type 0
Own m = (k v : Text) → field_of k m ≡ some v → known k ≡ true

pub field_of-known :
    (extra : Fields) (k : Text) → Foreign extra → known k ≡ true → field_of k extra ≡ none
field_of-known extra k foreign h = elim (Option-cases (field_of k extra)) [
  | inl a ↦ a
  | inr (v, a) ↦ cc (sym (known-named_like k h) ∙ foreign k v a)
]

pub field_of-unknown : (m : Fields) (k : Text) → Own m → known k ≡ false → field_of k m ≡ none
field_of-unknown m k own h = elim (Option-cases (field_of k m)) [
  | inl a ↦ a
  | inr (v, a) ↦ cc (sym (own k v a) ∙ h)
]

pub or_else-none : (o : Option Text) → or_else o none ≡ o
or_else-none none = refl
or_else-none (some v) = refl
