-- ===== src/Chain/Tests.antt =====
-- A call over two models on a provider that fails once and then answers, and the theorems about it.
use smolllm_go.Prelude.{
  is_some, ℕ, ◌≡◌, ◌≤◌, ◌+◌, ◌*◌, refl, true, false, Option, none, some, List, [], ◌∷◌, length,
  ◌==◌, if◌then◌else◌,
}
use smolllm_go.Text.{Text, lit, text_eq}
use smolllm_go.Errors.{ok}
use smolllm_go.Balancer.{new_balancer}
use smolllm_go.Message.{AssistantMessage, StopReason}
use smolllm_go.Options.{default_options}
use smolllm_go.Request.{Request, words, user}
use smolllm_go.Sink.{emit, ChainState}
use smolllm_go.Streaming.{StreamChunk}
use smolllm_go.Exchange.{Setting, Response}
use smolllm_go.Chain.{pos, is_some, Run, run_chain, run_models, run_leg, start_state}
use smolllm_go.Chain.Legs.{Ended, Ending}
use smolllm_go.Chain.Shown.{shown}
use smolllm_go.Chain.Answer.{run_chain-shown}
use smolllm_go.Chain.Ends.{run_chain-settles}
use smolllm_go.Leg.{guard_response, is_empty_list}
use smolllm_go.Chain.Guards.{guard_response-accepts}
use smolllm_go.Streaming.{LegOutcome}
use smolllm_go.Usage.{Usage}
use smolllm_go.Call.{PreparedCall}
use smolllm_go.Text.{is_empty, trim_space}
use smolllm_go.Prelude.{◌≢◌}
use smolllm_go.Chain.Bounds.{run_models-count}

abbrev pub busy : Response
busy = record {
  status = 503;
  should_retry = [];
  body = lit "busy";
  read_error = none;
  wire = record { lines = []; scan_error = none; context_error = none };
}

abbrev pub answers : Response
answers = record {
  status = 200;
  should_retry = [];
  body = [];
  read_error = none;
  wire = record {
    lines = (lit "data: hello", none) ∷ (lit "data: [DONE]", none) ∷ [];
    scan_error = none;
    context_error = none;
  };
}

-- A decoder that takes a payload for the content of a delta.
abbrev pub plain_chunk : Text → StreamChunk
plain_chunk t = record {
  choices =
      record {
        delta = some (record {
          content = some t;
          reasoning_content = none;
          reasoning = none;
          reasoning_items = [];
          tool_calls = [];
        });
        finish_reason = some (lit "stop");
      }
      ∷ [];
  usage = none;
  error = [];
}

abbrev pub setting : Setting
setting = record {
  env = λ k. if text_eq k (lit "OPENAI_API_KEY") then lit "key" else [];
  encode = λ p. ok (lit "body");
  decoders = record {
    chunk = λ t. ok (plain_chunk t);
    error_message = λ t. none;
    error_string = λ t. none;
  };
  rejection = λ t. none;
  without_usage = λ t. ok none;
  status_text = λ n. lit "status";
  quote = λ t. t;
  options = default_options;
  hooked = true;
  world = λ n. record {
    waited = true;
    budget_spent = false;
    draw = 0;
    request_error = none;
    first = ok (if n == 0 then busy else answers);
    second = ok answers;
    budget_fired = false;
    budget_is_cause = false;
  };
  ended = none;
}

abbrev pub request : Request
request = record {
  system_prompt = [];
  messages =
      record {
        arm = user;
        role = none;
        content = words (lit "hi");
        tool_calls = 0;
        function_call = false;
      }
      ∷ [];
}

abbrev pub models : List Text
models = lit "openai/gpt-4o" ∷ lit "openai/gpt-4o-mini" ∷ []

abbrev fresh_run : Run
fresh_run = record {
  state = start_state setting true;
  balancer = new_balancer;
  attempt_count = 0;
  leg_errors = [];
  hook_log = [];
}

-- What a test looks at of the result.
abbrev summary : Option AssistantMessage → Text × StopReason × ℕ
summary none = ([], StopReason.pending, 0)
summary (some m) = (m.content, m.stop_reason, length m.attempts)

-- The chain retries after the 503 and ends in the answer.
retried :
    summary (run_chain setting request (ok models) true new_balancer).stream.result
    ≡ (lit "hello", StopReason.stop, 2)
unfolding run_chain smolllm_go.Request.message_error emit smolllm_go.Sink.write_reasoning
    smolllm_go.Sink.write_content
retried = refl

run_chain-settles_example :
    let s = run_chain setting request (ok models) true new_balancer in
    (m : AssistantMessage) × Ended s.stream m × Ending true m
run_chain-settles_example = run_chain-settles setting request (ok models) true new_balancer

run_models-count_example :
    ((m : Text) (q : Run)
      → (run_leg setting setting.options.max_retries m 0 q).1.attempt_count
        ≤ q.attempt_count + setting.options.max_retries)
    × ((run_models setting models fresh_run).1.attempt_count
        ≤ fresh_run.attempt_count + length models * setting.options.max_retries)
run_models-count_example = run_models-count setting models fresh_run

-- A turn that says hello.
abbrev greeting : ChainState
greeting =
    let s = start_state setting true in record s { acc = record s.acc { content = lit "hello" } }

abbrev routed : PreparedCall
routed = record {
  url = [];
  body = [];
  provider = record { name = lit "openai"; base_url = [] };
  model = lit "openai/gpt-4o";
  model_name = lit "gpt-4o";
  api_key = lit "key";
  headers = [];
  input_tokens = 1;
}

abbrev no_usage : Usage
no_usage = record {
  input = pos 1;
  output = pos 1;
  cache_read = pos 0;
  reasoning = pos 0;
  total = pos 2;
  estimated = true;
}

abbrev stopped : LegOutcome
stopped = record {
  usage = record { usage = no_usage; reported = true };
  finish_reason = lit "stop";
  tool_calls = [];
  tool_indexes = [];
  failure = none;
}

guard_response-accepts_example :
    (is_empty_list stopped.tool_calls ≡ true
      → is_empty (trim_space greeting.acc.content) ≡ true
      → (is_empty (trim_space greeting.acc.reasoning) ≡ false)
        × (stopped.finish_reason ≢ lit "length"))
    × (is_empty_list stopped.tool_calls ≡ false
        → stopped.finish_reason ≡ lit "length"
        → is_some default_options.max_tokens ≡ true)
unfolding guard_response trim_space
guard_response-accepts_example =
    guard_response-accepts greeting default_options routed stopped no_usage refl

run_chain-shown_example :
    let s = run_chain setting request (ok models) true new_balancer in
    (m : AssistantMessage) × (s.stream.result ≡ some m) × (shown s.stream.queue ≡ m.content)
run_chain-shown_example = run_chain-shown setting request (ok models) new_balancer refl
