-- ===== src/Request/Validation.antt =====
-- What Request.Validate accepts.
use smolllm_go.Prelude.{
  ℕ, suc, ◌≡◌, refl, ◌≢◌, ◌↔◌, inl, inr, Bool, true, false, ◌||◌, Option, none, some, List, [], ◌∷◌,
  arith, ltb, ◌==◌, if◌then◌else◌, ==_iff, Bool-cases, Option-cases, length, All,
}
use smolllm_go.Text.{Text, lit, text_eq}
use smolllm_go.Errors.{Err}
use smolllm_go.Request.{
  has_content, Message, Request, message_role, message_error, first_error, validate, is_tool,
}

-- A message has a role, not the unsupported one, and something to say.
abbrev pub Valid : Message → Type 0
Valid m =
    (r : Text) × (message_role m ≡ some r)
    × (text_eq r (lit "function") ≡ false)
    × ((has_content m || is_tool m.arm || ltb 0 m.tool_calls || m.function_call) ≡ true)

none-if {ℓ} :
    {A : Type ℓ} (f c : Bool) (x y : A)
    → ((if f then some x else if c then none else some y) ≡ none) ↔ ((f ≡ false) × (c ≡ true))
none-if true c x y = ((λ h. cc), λ (a, b). cc)
none-if false true x y = ((λ h. (refl, refl)), λ z. refl)
none-if false false x y = ((λ h. cc), λ (a, b). cc)

none-first {ℓ} :
    {A : Type ℓ} (o rest : Option A)
    → (elim o [ some e ↦ some e | none ↦ rest ] ≡ none) ↔ ((o ≡ none) × (rest ≡ none))
none-first none rest = ((λ h. (refl, h)), λ (a, b). b)
none-first (some x) rest = ((λ h. cc), λ (a, b). cc)

message_error-Valid : (i : ℕ) (m : Message) → (message_error i m ≡ none) ↔ Valid m
unfolding message_error
message_error-Valid i m = elim (Option-cases (message_role m)) [
  | inl e ↦ ((λ h. cc (rw (e, message_error) at h)), λ (r, p, q, k). cc (e, p))
  | inr (r, e) ↦
      let speaks = has_content m || is_tool m.arm || ltb 0 m.tool_calls || m.function_call in
      let test : (x y : Err)
          → ((if text_eq r (lit "function") then some x else if speaks then none else some y)
              ≡ none)
            ↔ ((text_eq r (lit "function") ≡ false) × (speaks ≡ true)) =
        none-if (text_eq r (lit "function")) speaks in
      (
        (λ h. let (a, b) = (test _ _).0 (rw (e, message_error) at h) in (r, e, a, b)),
        λ (s, p, q, k).
            let same : s ≡ r = cc (e, p) in
            rw (e, message_error) ((test _ _).1 ((rw same at q), k)),
      )
]

first_error-All : (i : ℕ) (ms : List Message) → (first_error i ms ≡ none) ↔ All Valid ms
unfolding first_error
first_error-All i [] = ((λ h. tt), λ h. refl)
first_error-All i (m ∷ ms) =
    let test = none-first (message_error i m) (first_error (suc i) ms) in
    let head = message_error-Valid i m in
    let tail = first_error-All (suc i) ms in
    ((λ h. let (a, b) = test.0 h in (head.0 a, tail.0 b)), λ (a, b). test.1 (head.1 a, tail.1 b))

messages-Valid :
    (e : Err) (ms : List Message)
    → ((if length ms == 0 then some e else first_error 0 ms) ≡ none) ↔ ((ms ≢ []) × All Valid ms)
messages-Valid e [] = ((λ h. cc), λ (a, b). absurd (a refl))
messages-Valid e (m ∷ ms) = elim (Bool-cases (length (m ∷ ms) == 0)) [
  | inl z ↦ absurd (omega (arith, (==_iff (length (m ∷ ms)) 0).0 z))
  | inr z ↦ let (f, g) = first_error-All 0 (m ∷ ms) in rw z ((λ h. ((λ q. cc), f h)), λ (a, b). g b)
]

-- Request.Validate accepts a request just where it has a message, and each message has a role other
-- than `function` and has content, tool calls, a function call or is a tool's.
pub validate-Valid :
    (r : Request) → (validate r ≡ none) ↔ ((r.messages ≢ []) × All Valid r.messages)
unfolding validate
validate-Valid r = messages-Valid _ r.messages
