-- ===== src/Usage/Tests.antt =====
-- A usage frame, and the theorem about it.
use Prim.Native.Nat.{max}
use smolllm_go.Prelude.{inl, ◌+◌, ◌-◌, ◌≡◌, refl, none, some, arith}
use smolllm_go.Prelude.Int.{pos, pos_part}
use smolllm_go.Usage.{UsageChunk, parse_usage}
use smolllm_go.Usage.Counts.{parse_usage-accounts}

abbrev frame : UsageChunk
frame = record {
  prompt_tokens = pos 100;
  completion_tokens = pos 20;
  prompt_cache_hit_tokens = pos 30;
  prompt_tokens_details = none;
  completion_tokens_details = some (pos 5);
}

parse_usage-accounts_example :
    let p = pos_part frame.prompt_tokens in
    let c = pos_part (pos 30) in
    ((parse_usage frame).input ≡ pos (p - c))
    × ((parse_usage frame).cache_read ≡ pos c)
    × ((parse_usage frame).total ≡ pos (max p c + pos_part frame.completion_tokens))
parse_usage-accounts_example =
    parse_usage-accounts frame (pos 30) (refl, omega arith) (refl, omega arith) (refl, omega arith)
      (inl (omega arith, refl))
