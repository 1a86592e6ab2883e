-- ===== src/EventStream/Tests.antt =====
-- A run of a stream, and the theorems about it.
use smolllm_go.Prelude.Int.{pos}
use smolllm_go.Prelude.{◌≡◌, refl, true, false, none, some, List, [], ◌∷◌, ◌++◌}
use smolllm_go.Message.{AssistantMessage, StopReason}
use smolllm_go.EventStream.{new_event_stream, Event, EventStream, new_event, push, finish, done}
use smolllm_go.EventStream.Pump.{
  new_system, logged_finish, System, finishes, takes, sends, returns, Reach, here, next,
}
use smolllm_go.EventStream.Delivery.{EndsWith, sent-prefix, finished_once, delivered_all}
use smolllm_go.EventStream.Refines.{Simulates, channel_of, Step-Simulates}

abbrev answer : AssistantMessage
answer = record {
  content = [];
  reasoning = [];
  tool_calls = [];
  reasoning_items = [];
  stop_reason = StopReason.stop;
  error_message = [];
  finish_reason = [];
  provider = [];
  model = [];
  model_name = [];
  usage = record {
    input = pos 0;
    output = pos 0;
    cache_read = pos 0;
    reasoning = pos 0;
    total = pos 0;
    estimated = true;
  };
  attempts = [];
}

abbrev final : Event
final = new_event done answer

abbrev over_stream : EventStream
over_stream = record {
  queue = [];
  input_closed = true;
  finished = true;
  ended = true;
  result = some answer;
  abandoned = false;
  cancelled = false;
}

abbrev drained : System
drained = record {
  stream = over_stream;
  hand = none;
  sent = final ∷ [];
  returned = true;
  log = final ∷ [];
}

drained-reached : Reach drained
unfolding finish
drained-reached =
    next
      (next (next (next here (finishes answer)) (takes final [] refl refl refl))
        (sends final refl refl))
      (returns refl refl refl refl)

delivered_all_example :
    (drained.sent ≡ drained.log)
    × ((m : AssistantMessage) × (drained.stream.result ≡ some m) × EndsWith drained.sent m)
delivered_all_example = delivered_all {s = drained} drained-reached refl refl

finished_once_example :
    (drained.stream.ended ≡ true)
    × EndsWith drained.log answer
    × ((m' : AssistantMessage) → finish drained.stream m' ≡ drained.stream)
    × ((e : Event) → push drained.stream e ≡ drained.stream)
finished_once_example = finished_once {s = drained} answer drained-reached refl

sent-prefix_example : (rest : List Event) × (drained.sent ++ rest ≡ drained.log)
sent-prefix_example = sent-prefix {s = drained} drained-reached

-- The call finishes before it emitted anything.
Step-Simulates_example :
    Simulates
      (channel_of new_event_stream new_system)
      (channel_of (finish new_event_stream answer) new_system)
Step-Simulates_example =
    Step-Simulates {s = new_system}
      {t = record new_system {
        stream = finish new_event_stream answer;
        log = logged_finish new_event_stream answer [];
      }}
      here (finishes answer)
