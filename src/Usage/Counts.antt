-- ===== src/Usage/Counts.antt =====
-- What a usage frame is turned into.
use Prim.Native.Nat.{max}
use mathlib.Core.Path.{subst}
use smolllm_go.Prelude.{
  sym, ◌⊎◌, inl, inr, some, none, if◌then◌else◌, ap, ◌∙◌, false, refl, ℕ, ◌+◌, ◌-◌, ◌^◌, ◌<◌, ◌≡◌,
  Bool, arith,
}
use smolllm_go.Prelude.Int.{ℤ, ltb_ℤ, pos, negsuc, pos_part, neg_part}
use smolllm_go.Usage.{or_zero, cached_tokens, UsageChunk, parse_usage, new_usage, uncached_input}

-- A count below 2^61, from 0 up.
abbrev pub IsCount : ℤ → Type 0
IsCount z = (neg_part z ≡ 0) × (pos_part z < 2 ^ 61)

-- The total of counts is their sum.
new_usage-total :
    (a b c r : ℤ) (e : Bool)
    → IsCount a
    → IsCount b
    → IsCount c
    → (new_usage a b c r e).total ≡ pos (pos_part a + pos_part b + pos_part c)
unfolding new_usage
new_usage-total (pos a) (pos b) (pos c) r e h k l = ground arith
new_usage-total (negsuc a) b c r e h k l = absurd (omega arith)
new_usage-total (pos a) (negsuc b) c r e h k l = absurd (omega arith)
new_usage-total (pos a) (pos b) (negsuc c) r e h k l = absurd (omega arith)

uncached_input_lem :
    (p c : ℕ) → p < 2 ^ 61 → c < 2 ^ 61 → uncached_input (pos p) (pos c) ≡ pos (p - c)
unfolding uncached_input
uncached_input_lem p c h k = ground arith

pos_of_IsCount : (z : ℤ) → IsCount z → z ≡ pos (pos_part z)
pos_of_IsCount (pos n) h = refl
pos_of_IsCount (negsuc n) h = absurd (omega arith)

input_of_counts :
    (p c : ℤ) → IsCount p → IsCount c → uncached_input p c ≡ pos (pos_part p - pos_part c)
input_of_counts (pos p) (pos c) h k = uncached_input_lem p c h.1 k.1
input_of_counts (negsuc p) c h k = absurd (omega arith)
input_of_counts (pos p) (negsuc c) h k = absurd (omega arith)

IsCount-input : (p c : ℤ) → IsCount p → IsCount c → IsCount (uncached_input p c)
IsCount-input p c h k = rw (input_of_counts p c h k) (omega arith)

new_usage-parts :
    (a b c r : ℤ) (e : Bool)
    → ((new_usage a b c r e).input ≡ a) × ((new_usage a b c r e).cache_read ≡ c)
unfolding new_usage
new_usage-parts a b c r e = (refl, refl)

-- The cached tokens that a frame reports: its hit count where that is above zero, else the count of
-- the details, else none. The two spellings are never added.
abbrev pub Reports : UsageChunk → ℤ → Type 0
Reports u z =
    ((0 < pos_part u.prompt_cache_hit_tokens) × (z ≡ u.prompt_cache_hit_tokens))
    ⊎ ((pos_part u.prompt_cache_hit_tokens ≡ 0)
        × ((u.prompt_tokens_details ≡ some z) ⊎ ((u.prompt_tokens_details ≡ none) × (z ≡ pos 0))))

first_positive : (h d z : ℤ) → 0 < pos_part h → z ≡ h → (if ltb_ℤ (pos 0) h then h else d) ≡ z
first_positive (pos n) d z k e = ground arith
first_positive (negsuc n) d z k e = absurd (omega arith)

second_positive : (h d z : ℤ) → pos_part h ≡ 0 → d ≡ z → (if ltb_ℤ (pos 0) h then h else d) ≡ z
second_positive (pos n) d z k e = ground arith
second_positive (negsuc n) d z k e = ground arith

Reports-cached_tokens : (u : UsageChunk) (z : ℤ) → Reports u z → cached_tokens u ≡ z
unfolding cached_tokens
Reports-cached_tokens u z (inl (k, e)) =
    first_positive u.prompt_cache_hit_tokens (or_zero u.prompt_tokens_details) z k e
Reports-cached_tokens u z (inr (k, inl e)) =
    second_positive u.prompt_cache_hit_tokens (or_zero u.prompt_tokens_details) z k (ap or_zero e)
Reports-cached_tokens u z (inr (k, inr (e, q))) =
    second_positive u.prompt_cache_hit_tokens (or_zero u.prompt_tokens_details) z k
      (ap or_zero e ∙ sym q)

abbrev Accounts : UsageChunk → ℤ → Type 0
Accounts u z =
    let p = pos_part u.prompt_tokens in
    let c = pos_part z in
    ((parse_usage u).input ≡ pos (p - c))
    × ((parse_usage u).cache_read ≡ pos c)
    × ((parse_usage u).total ≡ pos (max p c + pos_part u.completion_tokens))

accounts :
    (u : UsageChunk)
    → IsCount u.prompt_tokens
    → IsCount u.completion_tokens
    → IsCount (cached_tokens u)
    → Accounts u (cached_tokens u)
unfolding parse_usage
accounts u h k l =
    let c = cached_tokens u in
    let i = uncached_input u.prompt_tokens c in
    let o = u.completion_tokens in
    let r = or_zero u.completion_tokens_details in
    let e = input_of_counts u.prompt_tokens c h l in
    let (pi, pc) = new_usage-parts i o c r false in
    (
      pi ∙ e,
      pc ∙ pos_of_IsCount c l,
      new_usage-total i o c r false (IsCount-input u.prompt_tokens c h l) k l
          ∙ ap pos (omega (arith, ap pos_part e)),
    )

-- A usage frame with counts from 0 up and below 2^61: the input leaves the cached tokens out,
-- which are those that the frame reports, by either spelling, and stand beside it, and the total is the larger of the prompt and the cached tokens,
-- and the completion. So where the provider counts the cached tokens in the prompt, the total is
-- the prompt and the completion.
pub parse_usage-accounts :
    (u : UsageChunk) (z : ℤ)
    → IsCount u.prompt_tokens
    → IsCount u.completion_tokens
    → IsCount z
    → Reports u z
    → let p = pos_part u.prompt_tokens in
      let c = pos_part z in
      ((parse_usage u).input ≡ pos (p - c))
      × ((parse_usage u).cache_read ≡ pos c)
      × ((parse_usage u).total ≡ pos (max p c + pos_part u.completion_tokens))
parse_usage-accounts u z h k l r =
    let e = Reports-cached_tokens u z r in
    subst (Accounts u) e (accounts u h k (subst IsCount (sym e) l))
