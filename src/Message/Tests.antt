-- ===== src/Message/Tests.antt =====
-- Stop reasons, and the theorem about one.
use smolllm_go.Prelude.{◌≡◌, ◌≢◌, ◌↔◌, ◌⊎◌, true, List, []}
use smolllm_go.Text.{Text, lit}
use smolllm_go.ToolCalls.{ToolCall}
use smolllm_go.Message.{length_limit, tool_use, stop_reason_for, reason_is_terminal}
use smolllm_go.Message.Reasons.{stop_reason_for-cases}

abbrev calls_text : Text
calls_text = lit "tool_calls"

abbrev no_calls : List ToolCall
no_calls = []

stop_reason_for-cases_example :
    ((stop_reason_for calls_text no_calls ≡ length_limit) ↔ (calls_text ≡ lit "length"))
    × ((stop_reason_for calls_text no_calls ≡ tool_use)
        ↔ ((calls_text ≢ lit "length") × ((calls_text ≡ lit "tool_calls") ⊎ (no_calls ≢ []))))
    × (reason_is_terminal (stop_reason_for calls_text no_calls) ≡ true)
stop_reason_for-cases_example = stop_reason_for-cases calls_text no_calls
