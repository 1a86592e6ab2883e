-- ===== src/Compose/Shape.antt =====
-- What composeMessages of smolllm/request.go makes of a request.
use smolllm_go.Prelude.{
  ℕ, suc, ◌+◌, ◌≡◌, refl, sym, ap, ◌∙◌, ◌⊎◌, inl, inr, Bool, true, false, not, ◌&&◌, Option, none,
  some, List, [], ◌∷◌, ◌++◌, map, arith, ◌==◌, ==_iff, Bool-cases, is_some, All,
}
use mathlib.Core.Path.{subst}
use smolllm_go.Text.{is_empty, trim_space, Text, lit, lower_byte}
use smolllm_go.Text.Laws.{text_eq_iff}
use smolllm_go.Errors.{str, Err, ok, context}
use smolllm_go.Balancer.Pairs.{>>=-eq-ok, context-eq-ok}
use smolllm_go.Exchange.{same_fold}
use smolllm_go.Request.{
  Arm, developer, system, user, assistant, tool, function, unset, arm_role, system_message, Message,
  Request, Content, nothing, words, parts, message_role, ensure_role, validate,
}
use smolllm_go.Compose.{
  played, Files, image_urls, message_text_content, image_message, plays, user_count, with_images,
  image_turn, plain_turn, compose_turn, compose_loop, system_prefix, has_images, compose_valid,
  compose_checked, compose_messages,
}

message_text_content-ok : (c : Content) (t : Text) → message_text_content c ≡ ok t → c ≡ words t
message_text_content-ok nothing t h = cc
message_text_content-ok (words u) t h = let e : u ≡ t = cc h in ap words e
message_text_content-ok (parts ps) t h = cc

-- No message plays both roles.
same_fold-apart :
    (r : Text) → same_fold r (lit "system") ≡ true → same_fold r (lit "user") ≡ true → ⊥
same_fold-apart r h k =
    let a = (text_eq_iff (map lower_byte r) (map lower_byte (lit "system"))).0 h in
    let b = (text_eq_iff (map lower_byte r) (map lower_byte (lit "user"))).0 k in cc (sym a ∙ b)

played-apart : (r : Option Text) → played (lit "system") r ≡ true → played (lit "user") r ≡ false
played-apart none h = cc
played-apart (some r) h = elim (Bool-cases (same_fold r (lit "user"))) [
  | inl k ↦ absurd (same_fold-apart r h k)
  | inr k ↦ k
]

plays-apart : (m : Message) → plays (lit "system") m ≡ true → plays (lit "user") m ≡ false
plays-apart m h = played-apart (message_role m) h

-- A system message, which images leave as it is.
abbrev pub IsSystem : Message → Type 0
IsSystem m = plays (lit "system") m ≡ true

-- What the user message with its text and images becomes.
abbrev pub Illustrates : Files → List Text → Message → Message → Type 0
Illustrates f paths m out =
    (t : Text) × (urls : List Text) × (m.content ≡ words t)
    × (image_urls f paths ≡ ok urls)
    × (out ≡ image_message t urls)

with_images-Illustrates :
    (f : Files) (paths : List Text) (m out : Message)
    → with_images f paths (message_text_content m.content) ≡ ok out
    → Illustrates f paths m out
with_images-Illustrates f paths m out h =
    let (t, a, h₁) = >>=-eq-ok (context _ (message_text_content m.content)) _ h in
    let (urls, b, c) = >>=-eq-ok (image_urls f paths) _ h₁ in
    (
      t,
      urls,
      message_text_content-ok m.content t (
          context-eq-ok (str (lit "image paths require textual content: ") ∷ [])
            (message_text_content m.content) a),
      b,
      cc c,
    )

image_turn-cases :
    (f : Files) (paths : List Text) (i : ℕ) (m out : Message) (a b c : Bool)
    → image_turn f paths i m a b c ≡ ok out
    → ((b ≡ true) × (out ≡ ensure_role m)) ⊎ ((c ≡ true) × Illustrates f paths m out)
image_turn-cases f paths i m out false b c h = cc
image_turn-cases f paths i m out true true c h = inl (refl, cc h)
image_turn-cases f paths i m out true false true h =
    inr (refl, with_images-Illustrates f paths m out h)
image_turn-cases f paths i m out true false false h = cc

plain_turn-eq :
    (i : ℕ) (m out : Message) (a : Bool) → plain_turn i m a ≡ ok out → out ≡ ensure_role m
plain_turn-eq i m out false h = cc
plain_turn-eq i m out true h = cc

module _ (f : Files) where
  -- Without images every message stays, in order.
  compose_loop-plain :
      (i : ℕ) (ms out : List Message) → compose_loop f [] i ms ≡ ok out → out ≡ map ensure_role ms
  unfolding compose_loop compose_turn
  compose_loop-plain i [] out h = cc h
  compose_loop-plain i (m ∷ ms) out h =
      let (x, a, h₁) = >>=-eq-ok (plain_turn i m (is_some (message_role m))) _ h in
      let (xs, b, c) = >>=-eq-ok (compose_loop f [] (suc i) ms) _ h₁ in
      let same : x ∷ xs ≡ out = cc c in
      sym same
      ∙ (ap (λ y. y ∷ xs) (plain_turn-eq i m x (is_some (message_role m)) a)
          ∙ ap (λ ys. ensure_role m ∷ ys) (compose_loop-plain (suc i) ms xs b))

  module _ (p : Text) (ps : List Text) where
    turn-cases :
        (i : ℕ) (m out : Message)
        → compose_turn f (p ∷ ps) i m ≡ ok out
        → (IsSystem m × (out ≡ ensure_role m))
          ⊎ ((plays (lit "user") m ≡ true) × Illustrates f (p ∷ ps) m out)
    unfolding compose_turn
    turn-cases i m out h =
        image_turn-cases f (p ∷ ps) i m out (is_some (message_role m)) (plays (lit "system") m)
          (plays (lit "user") m) h

    loop-cons :
        (i : ℕ) (m : Message) (ms out : List Message)
        → compose_loop f (p ∷ ps) i (m ∷ ms) ≡ ok out
        → (x : Message) × (xs : List Message) × (compose_turn f (p ∷ ps) i m ≡ ok x)
          × (compose_loop f (p ∷ ps) (suc i) ms ≡ ok xs)
          × (x ∷ xs ≡ out)
    unfolding compose_loop
    loop-cons i m ms out h =
        let (x, a, h₁) = >>=-eq-ok (compose_turn f (p ∷ ps) i m) _ h in
        let (xs, b, c) = >>=-eq-ok (compose_loop f (p ∷ ps) (suc i) ms) _ h₁ in (x, xs, a, b, cc c)

    count-user :
        (m : Message) (ms : List Message)
        → plays (lit "user") m ≡ true
        → user_count (m ∷ ms) ≡ 1 + user_count ms
    unfolding user_count
    count-user m ms h = rw h refl

    count-other :
        (m : Message) (ms : List Message)
        → plays (lit "user") m ≡ false
        → user_count (m ∷ ms) ≡ user_count ms
    unfolding user_count
    count-other m ms h = rw h (omega arith)

    loop-none :
        (i : ℕ) (ms out : List Message)
        → user_count ms ≡ 0
        → compose_loop f (p ∷ ps) i ms ≡ ok out
        → (out ≡ map ensure_role ms) × All IsSystem ms
    unfolding compose_loop
    loop-none i [] out z h = (cc h, tt)
    loop-none i (m ∷ ms) out z h =
        let (x, xs, a, b, e) = loop-cons i m ms out h in
        elim (turn-cases i m x a) [
          | inr (u, k) ↦ absurd (omega (arith, z, count-user m ms u))
          | inl (s, q) ↦
              let c = count-other m ms (plays-apart m s) in
              let (r, t) = loop-none (suc i) ms xs (omega (arith, z, c)) b in
              (sym e ∙ (ap (λ y. y ∷ xs) q ∙ ap (λ ys. ensure_role m ∷ ys) r), (s, t))
        ]

    -- One message of the list is illustrated, and the others stay; they are all system messages.
    abbrev pub OneIllustrated : List Message → List Message → Type 0
    OneIllustrated ms out =
        (before after : List Message) × (m x : Message) × (ms ≡ before ++ (m ∷ after))
        × (plays (lit "user") m ≡ true)
        × (out ≡ map ensure_role before ++ (x ∷ map ensure_role after))
        × All IsSystem before
        × All IsSystem after
        × Illustrates f (p ∷ ps) m x

    loop-one :
        (i : ℕ) (ms out : List Message)
        → user_count ms ≡ 1
        → compose_loop f (p ∷ ps) i ms ≡ ok out
        → OneIllustrated ms out
    unfolding user_count
    loop-one i [] out z h = absurd (omega (arith, z))
    loop-one i (m ∷ ms) out z h =
        let (x, xs, a, b, e) = loop-cons i m ms out h in
        elim (turn-cases i m x a) [
          | inr (u, k) ↦
              let (r, t) = loop-none (suc i) ms xs (omega (arith, z, count-user m ms u)) b in
              ([], ms, m, x, refl, u, sym e ∙ ap (λ ys. x ∷ ys) r, tt, t, k)
          | inl (s, q) ↦
              let c = count-other m ms (plays-apart m s) in
              let (before, after, m', y, v, u, w, t, t', k) =
                loop-one (suc i) ms xs (omega (arith, z, c)) b in
              (
                m ∷ before,
                after,
                m',
                y,
                ap (λ l. m ∷ l) v,
                u,
                sym e ∙ (ap (λ g. g ∷ xs) q ∙ ap (λ l. ensure_role m ∷ l) w),
                (s, t),
                t',
                k,
              )
        ]

module _ (f : Files) (r : Request) (paths : List Text) (out : List Message) where
  compose_valid-ok :
      (b : Bool)
      → compose_valid f r paths b ≡ ok out
      → (b ≡ false)
        × ((ms : List Message) × (compose_loop f paths 0 r.messages ≡ ok ms)
            × (out ≡ system_prefix r ++ ms))
  compose_valid-ok true h = cc h
  compose_valid-ok false h =
      let (ms, a, b) = >>=-eq-ok (compose_loop f paths 0 r.messages) _ h in (refl, (ms, a, cc b))

  compose_checked-ok :
      (o : Option Err)
      → compose_checked f r paths o ≡ ok out
      → (o ≡ none)
        × ((has_images paths && not (user_count r.messages == 1)) ≡ false)
        × ((ms : List Message) × (compose_loop f paths 0 r.messages ≡ ok ms)
            × (out ≡ system_prefix r ++ ms))
  compose_checked-ok (some e) h = cc h
  compose_checked-ok none h =
      let (one, rest) = compose_valid-ok (has_images paths && not (user_count r.messages == 1)) h in
      (refl, one, rest)

not-true : (b : Bool) → not b ≡ false → b ≡ true
not-true true h = refl
not-true false h = cc h

-- The role that ensureRole sets: that of the arm, except for a function and for no arm at all.
abbrev pub RoleOf : Arm → Option Text → Option Text → Type 0
RoleOf developer old new = new ≡ some (lit "developer")
RoleOf system old new = new ≡ some (lit "system")
RoleOf user old new = new ≡ some (lit "user")
RoleOf assistant old new = new ≡ some (lit "assistant")
RoleOf tool old new = new ≡ some (lit "tool")
RoleOf function old new = new ≡ old
RoleOf unset old new = new ≡ old

-- The same message with its role set.
abbrev pub WithRole : Message → Message → Type 0
WithRole m x =
    RoleOf m.arm m.role x.role
    × (x.arm ≡ m.arm)
    × (x.content ≡ m.content)
    × (x.tool_calls ≡ m.tool_calls)
    × (x.function_call ≡ m.function_call)

abbrev pub AllWithRole : List Message → List Message → Type 0
AllWithRole [] [] = Unit
AllWithRole [] (x ∷ xs) = ⊥
AllWithRole (m ∷ ms) [] = ⊥
AllWithRole (m ∷ ms) (x ∷ xs) = WithRole m x × AllWithRole ms xs

-- The system prompt in front of the messages, unless it is blank.
abbrev pub Prompted : Text → List Message → List Message → Type 0
Prompted prompt xs out =
    ((is_empty (trim_space prompt) ≡ true) × (out ≡ xs))
    ⊎ ((is_empty (trim_space prompt) ≡ false)
        × ((s : Message) × (out ≡ s ∷ xs)
            × (s.arm ≡ system)
            × (s.role ≡ some (lit "system"))
            × (s.content ≡ words prompt)))

of_arm :
    (a : Arm) (m : Message)
    → m.arm ≡ a
    → WithRole
        (record m { arm = a })
        (elim a [ function ↦ m | unset ↦ m | arm ↦ record m { role = arm_role arm } ])
of_arm developer m h = (refl, h, refl, refl, refl)
of_arm system m h = (refl, h, refl, refl, refl)
of_arm user m h = (refl, h, refl, refl, refl)
of_arm assistant m h = (refl, h, refl, refl, refl)
of_arm tool m h = (refl, h, refl, refl, refl)
of_arm function m h = (refl, h, refl, refl, refl)
of_arm unset m h = (refl, h, refl, refl, refl)

ensure_role-WithRole : (m : Message) → WithRole m (ensure_role m)
unfolding ensure_role
ensure_role-WithRole m = of_arm m.arm m refl

ensure_roles-AllWithRole : (ms : List Message) → AllWithRole ms (map ensure_role ms)
ensure_roles-AllWithRole [] = tt
ensure_roles-AllWithRole (m ∷ ms) = (ensure_role-WithRole m, ensure_roles-AllWithRole ms)

system_prefix-Prompted :
    (r : Request) (xs : List Message) → Prompted r.system_prompt xs (system_prefix r ++ xs)
system_prefix-Prompted r xs = elim (Bool-cases (is_empty (trim_space r.system_prompt))) [
  | inl a ↦ inl (a, rw a refl)
  | inr a ↦ inr (a, (system_message r.system_prompt, rw a refl, refl, refl, refl))
]

-- Where composeMessages succeeds without images, the request is valid. The system prompt stands
-- first unless it is blank, and every message follows in order, the same but for its role, which is
-- the one of its kind; a message of the function kind or of none keeps its role.
pub compose_messages-plain :
    (f : Files) (r : Request) (out : List Message)
    → compose_messages f r [] ≡ ok out
    → (validate r ≡ none)
      × ((xs : List Message) × Prompted r.system_prompt xs out × AllWithRole r.messages xs)
unfolding compose_messages
compose_messages-plain f r out h =
    let (v, one, (ms, a, b)) = compose_checked-ok f r [] out (validate r) h in
    let xs = map ensure_role r.messages in
    let e = b ∙ ap (λ l. system_prefix r ++ l) (compose_loop-plain f 0 r.messages ms a) in
    (
      v,
      (
        xs,
        subst (λ l. Prompted r.system_prompt xs l) (sym e) (system_prefix-Prompted r xs),
        ensure_roles-AllWithRole r.messages,
      ),
    )

-- Where composeMessages succeeds with images, the request is valid and its system prompt stands
-- first unless it is blank. Exactly one message of the request is illustrated: it plays the user, says
-- a text, and
-- becomes a user message of that text and all the images, in order. The messages before and after
-- it are system messages, and follow in order with their roles set.
pub compose_messages-illustrated :
    (f : Files) (r : Request) (p : Text) (ps : List Text) (out : List Message)
    → compose_messages f r (p ∷ ps) ≡ ok out
    → (validate r ≡ none)
      × ((ms : List Message) × (out ≡ system_prefix r ++ ms) × OneIllustrated f p ps r.messages ms)
unfolding compose_messages
compose_messages-illustrated f r p ps out h =
    let (v, one, (ms, a, b)) = compose_checked-ok f r (p ∷ ps) out (validate r) h in
    let single = (==_iff _ _).0 (not-true (user_count r.messages == 1) one) in
    (v, (ms, b, loop-one f p ps 0 r.messages ms single a))
