-- ===== src/EventStream/Pump.antt =====
-- The goroutine `pump` beside the producer and the consumer, as interleaved steps. `log` is the
-- history of the events that were queued, which no step reads. The pump is never held back here by
-- `notify` or by a consumer that does not receive, so these runs include those of the code and say
-- nothing of when it waits. A call of finish is one step.
use smolllm_go.Prelude.{
  ◌≡◌, Bool, true, false, Option, none, some, List, [], ◌∷◌, ◌++◌, if◌then◌else◌,
}
use smolllm_go.Message.{AssistantMessage}
use smolllm_go.EventStream.{
  Event, EventStream, new_event, new_event_stream, push, close, finish, terminal_kind,
  kind_is_terminal,
}

-- `hand` is the event that the pump has taken and not yet sent, `sent` what went over the channel,
-- `returned` whether the pump has returned and closed the channel.
pub record System : Type 0 where
  pub stream : EventStream
  pub hand : Option Event
  pub sent : List Event
  pub returned : Bool
  pub log : List Event

abbrev pub new_system : System
new_system = record {
  stream = new_event_stream;
  hand = none;
  sent = [];
  returned = false;
  log = [];
}

abbrev pub logged : EventStream → Event → List Event → List Event
logged s e log = if s.input_closed then log else log ++ (e ∷ [])

abbrev pub logged_finish : EventStream → AssistantMessage → List Event → List Event
logged_finish s m log =
    if s.finished then log else logged s (new_event (terminal_kind m.stop_reason) m) log

-- The steps: the call emits an event, the call finishes, the consumer closes, and those of the
-- loop of `pump`: it takes the head of the queue, sends what it took, returns on an empty queue
-- with closed input, or returns once the stream is abandoned.
pub data Step (s : System) : System → Type 0 where
  emits :
      (e : Event)
      → kind_is_terminal e.kind ≡ false
      → Step s (record s { stream = push s.stream e; log = logged s.stream e s.log })
  finishes :
      (m : AssistantMessage)
      → Step s (record s { stream = finish s.stream m; log = logged_finish s.stream m s.log })
  closes : Step s (record s { stream = close s.stream })
  takes :
      (e : Event) (rest : List Event)
      → s.returned ≡ false
      → s.hand ≡ none
      → s.stream.queue ≡ e ∷ rest
      → Step s (record s { stream = record s.stream { queue = rest }; hand = some e })
  sends :
      (e : Event)
      → s.returned ≡ false
      → s.hand ≡ some e
      → Step s (record s { hand = none; sent = s.sent ++ (e ∷ []) })
  returns :
      s.returned ≡ false
      → s.hand ≡ none
      → s.stream.queue ≡ []
      → s.stream.input_closed ≡ true
      → Step s (record s { returned = true })
  abandons : s.returned ≡ false → s.stream.abandoned ≡ true → Step s (record s { returned = true })

-- What runs to from a new stream.
pub data Reach : System → Type 0 where
  here : Reach new_system
  next : {s t : System} → Reach s → Step s t → Reach t
