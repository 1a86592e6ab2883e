-- ===== src/Message/Reasons.antt =====
-- The normalised stop reason of a turn.
use smolllm_go.Prelude.{◌≡◌, ◌≢◌, ◌↔◌, ◌⊎◌, true, List, [], ◌∷◌, arith}
use smolllm_go.Text.{Text, lit}
use smolllm_go.Text.Laws.{text_eq_iff}
use smolllm_go.ToolCalls.{ToolCall}
use smolllm_go.Message.{length_limit, tool_use, stop_reason_for, reason_is_terminal}

-- A turn that carries calls is tool use unless the output cap cut it off, whatever else the
-- provider called it; a turn is `length` exactly where the provider said so; the reason is always
-- terminal.
pub stop_reason_for-cases :
    (finish_reason : Text) (calls : List ToolCall)
    → ((stop_reason_for finish_reason calls ≡ length_limit) ↔ (finish_reason ≡ lit "length"))
      × ((stop_reason_for finish_reason calls ≡ tool_use)
          ↔ ((finish_reason ≢ lit "length") × ((finish_reason ≡ lit "tool_calls") ⊎ (calls ≢ []))))
      × (reason_is_terminal (stop_reason_for finish_reason calls) ≡ true)
unfolding stop_reason_for reason_is_terminal
stop_reason_for-cases r [] =
    ground (arith, text_eq_iff r (lit "length"), text_eq_iff r (lit "tool_calls"))
stop_reason_for-cases r (c ∷ cs) =
    ground (arith, text_eq_iff r (lit "length"), text_eq_iff r (lit "tool_calls"))
