-- ===== src/Chain/Guards.antt =====
-- The answers that guardResponse of smolllm/chain.go lets through.
use smolllm_go.Prelude.{
  ◌≡◌, ◌≢◌, Bool, true, false, not, ◌&&◌, none, some, arith, if◌then◌else◌, is_some,
}
use smolllm_go.Text.{lit, text_eq, is_empty, trim_space}
use smolllm_go.Text.Laws.{text_eq_refl}
use smolllm_go.Errors.{Err}
use smolllm_go.Call.{PreparedCall}
use smolllm_go.Usage.{Usage}
use smolllm_go.Options.{Options}
use smolllm_go.Sink.{ChainState}
use smolllm_go.Streaming.{LegOutcome}
use smolllm_go.Leg.{guard_response, is_empty_list}

-- The tests of the guards: blank content, blank reasoning, no calls, cut off, a declared cap, short.
guards-none :
    (t r n c m x : Bool) (a b d e : Err)
    → (if t && r && n
        then some a
        else if c && t && n
        then some b
        else if c && not n && not m
        then some d
        else if x
        then some e
        else none)
      ≡ none
    → (n ≡ true → t ≡ true → (r ≡ false) × (c ≡ false)) × (n ≡ false → c ≡ true → m ≡ true)
guards-none t r n c m x a b d e h = ground arith

-- An answer that passes the guards is usable: without tool calls and with blank content it has
-- reasoning and was not cut off by the output cap; tool calls that the cap cut off pass only where
-- the caller declared the cap.
pub guard_response-accepts :
    (s : ChainState) (o : Options) (call : PreparedCall) (out : LegOutcome) (u : Usage)
    → guard_response s o call out u ≡ none
    → (is_empty_list out.tool_calls ≡ true
        → is_empty (trim_space s.acc.content) ≡ true
        → (is_empty (trim_space s.acc.reasoning) ≡ false) × (out.finish_reason ≢ lit "length"))
      × (is_empty_list out.tool_calls ≡ false
          → out.finish_reason ≡ lit "length"
          → is_some o.max_tokens ≡ true)
unfolding guard_response
guard_response-accepts s o call out u h =
    let (f, g) =
      guards-none (is_empty (trim_space s.acc.content)) (is_empty (trim_space s.acc.reasoning))
        (is_empty_list out.tool_calls) (text_eq out.finish_reason (lit "length"))
        (is_some o.max_tokens) _ _ _ _ _ h in
    (
      (λ n t. let (r, c) = f n t in (r, λ e. cc (rw e at c, text_eq_refl (lit "length")))),
      λ n e. g n (rw e (text_eq_refl (lit "length"))),
    )
