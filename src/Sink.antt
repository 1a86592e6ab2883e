-- ===== src/Sink.antt =====
-- chainState of smolllm/chain.go: what a call has accumulated, and the methods by which the
-- parser writes into it, so that text and tool fragments become events as they arrive.
use smolllm_go.Prelude.{Bool, true, Option, none, List, [], ◌∷◌, ◌++◌, if◌then◌else◌}
use smolllm_go.Prelude.Int.{ℤ, pos}
use smolllm_go.Text.{Text, is_empty, index}
use smolllm_go.ThinkFilter.{Delta}
use smolllm_go.ToolCalls.{ToolCall, ToolCallDelta, Fragment, merge}
use smolllm_go.Message.{Attempt, MessageAccumulator, snapshot}
use smolllm_go.EventStream.{
  EventKind, text_delta, reasoning_delta, tool_call_start, tool_call_delta, EventStream, push,
}

-- chainState
pub record ChainState : Type 0 where
  pub acc : MessageAccumulator
  pub stream : EventStream
  pub commit_on_output : Bool
  pub emitted : Bool

-- emit: the event gets a fresh snapshot and is queued
unfoldable pub emit :
    EventKind → Text → ℤ → Option ToolCall → Option Attempt → ChainState → ChainState
emit kind delta index tool_call attempt s = record s {
  stream = push s.stream (record {
    kind = kind;
    delta = delta;
    index = index;
    tool_call = tool_call;
    attempt = attempt;
    message = snapshot s.acc;
  });
}

unfoldable pub write_content : Text → ChainState → ChainState
write_content t s =
    if is_empty t
    then s
    else emit text_delta t (pos 0) none none
        (record s { emitted = true; acc = record s.acc { content = s.acc.content ++ t } })

unfoldable pub write_reasoning : Text → ChainState → ChainState
write_reasoning t s =
    if is_empty t
    then s
    else emit reasoning_delta t (pos 0) none none
        (record s { acc = record s.acc { reasoning = s.acc.reasoning ++ t } })

-- chainState.text
unfoldable pub text : Delta → ChainState → ChainState
text d s = write_reasoning d.reasoning (write_content d.content s)

-- chainState.reasoningItems
unfoldable pub reasoning_items : List Text → ChainState → ChainState
reasoning_items items s = record s {
  acc = record s.acc { reasoning_items = s.acc.reasoning_items ++ items };
}

unfoldable pub announce : Fragment → ChainState → ChainState
announce f s =
    if f.started then emit tool_call_start [] f.index none none (record s { emitted = true }) else s

unfoldable pub stream_arguments : Fragment → ChainState → ChainState
stream_arguments f s =
    if is_empty f.arguments
    then s
    else emit tool_call_delta f.arguments f.index none none (record s { emitted = true })

-- chainState.toolFragment
unfoldable pub tool_fragment : Fragment → ChainState → ChainState
tool_fragment f s = stream_arguments f (announce f s)

-- tools.feed(deltas, sink.toolFragment), on the accumulator that the sink owns
unfoldable pub feed_tools : List ToolCallDelta → ChainState → ChainState
feed_tools [] s = s
feed_tools (d ∷ ds) s =
    let (tools, f) = merge s.acc.tools d in
    feed_tools ds (tool_fragment f (record s { acc = record s.acc { tools = tools } }))
