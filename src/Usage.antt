-- ===== src/Usage.antt =====
-- smolllm/usage.go and the record Usage of smolllm/message.go: token counts. A count is a Go
-- `int`, which a provider may send negative.
use smolllm_go.Prelude.{
  Elem, Elem-append, get_or, Elem-get_or, ℕ, zero, suc, ◌+◌, ◌-◌, ◌*◌, ◌/◌, ◌%◌, ◌^◌, ◌≤◌, ◌<◌, min,
  ◌≡◌, refl, sym, ap, ◌∙◌, ◌≢◌, ◌↔◌, ◌⊎◌, inl, inr, Bool, true, false, not, ◌&&◌, ◌||◌, Option,
  none, some, List, [], ◌∷◌, ◌++◌, map, append-nil, append_assoc, arith, ltb, leb, ◌==◌,
  if◌then◌else◌, ==_iff, ==_refl, Bool-cases, Option-cases, is_some, length, get_elem?, take, drop,
  length-append, take-append-drop, length-drop, drop-length, length-map, All, All-append,
}
use smolllm_go.Prelude.Int.{ℤ, pos, negsuc, ltb_ℤ, ◌+ℤ◌, ◌-ℤ◌, wrap_int}
use smolllm_go.Text.{
  Text, lit, text_eq, is_empty, has_prefix, has_suffix, trim_space, trim_left, trim_right,
  trim_suffix, split, join, index, lower_byte, upper_byte, itoa,
}
pub mod Counts
pub mod Tests

-- Usage
pub record Usage : Type 0 where
  pub input : ℤ
  pub output : ℤ
  pub cache_read : ℤ
  pub reasoning : ℤ
  pub total : ℤ
  pub estimated : Bool

-- newUsage
unfoldable pub new_usage : ℤ → ℤ → ℤ → ℤ → Bool → Usage
unfolding ◌+ℤ◌ wrap_int
new_usage input output cache_read reasoning estimated = record {
  input = input;
  output = output;
  cache_read = cache_read;
  reasoning = reasoning;
  total = wrap_int (wrap_int (input +ℤ output) +ℤ cache_read);
  estimated = estimated;
}

-- usageChunk, with CachedTokens and ReasoningTokens of its two detail structs
pub record UsageChunk : Type 0 where
  pub prompt_tokens : ℤ
  pub completion_tokens : ℤ
  pub prompt_cache_hit_tokens : ℤ
  pub prompt_tokens_details : Option ℤ
  pub completion_tokens_details : Option ℤ

-- reportedUsage
pub record ReportedUsage : Type 0 where
  pub usage : Usage
  pub reported : Bool

abbrev pub or_zero : Option ℤ → ℤ
or_zero none = pos 0
or_zero (some n) = n

-- cachedTokens
unfoldable pub cached_tokens : UsageChunk → ℤ
cached_tokens u =
    if ltb_ℤ (pos 0) u.prompt_cache_hit_tokens
    then u.prompt_cache_hit_tokens
    else or_zero u.prompt_tokens_details

-- reasoningTokens
abbrev pub reasoning_tokens : UsageChunk → ℤ
reasoning_tokens u = or_zero u.completion_tokens_details

-- The input of parseUsage, which is never negative.
unfoldable pub uncached_input : ℤ → ℤ → ℤ
unfolding ◌-ℤ◌ wrap_int
uncached_input prompt cached =
    let input = wrap_int (prompt -ℤ cached) in if ltb_ℤ input (pos 0) then pos 0 else input

-- parseUsage
unfoldable pub parse_usage : UsageChunk → Usage
parse_usage chunk =
    new_usage (uncached_input chunk.prompt_tokens (cached_tokens chunk)) chunk.completion_tokens
      (cached_tokens chunk) (reasoning_tokens chunk) false

-- estimateTokens of smolllm/utils.go
unfoldable pub estimate_tokens : Text → ℕ
estimate_tokens text = if length text == 0 then 0 else length text / 4

-- estimateUsage
unfoldable pub estimate_usage : ℕ → Text → Usage
unfolding new_usage estimate_tokens
estimate_usage input_tokens output_text =
    new_usage (pos input_tokens) (pos (estimate_tokens output_text)) (pos 0) (pos 0) true
