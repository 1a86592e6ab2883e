-- ===== src/Client.antt =====
-- smolllm/client.go, and the entry points Stream and Ask of smolllm/chain.go. The goroutine of
-- `start` is the run of the chain; the stream that it leaves holds the events in the order in which
-- the pump delivers them.
use smolllm_go.Prelude.{Bool, true, false, Option, none, some, List}
use smolllm_go.Text.{Text}
use smolllm_go.Errors.{Result}
use smolllm_go.Options.{Options, Setter, apply_options, call_options}
use smolllm_go.Balancer.{Balancer, new_balancer}
use smolllm_go.Message.{AssistantMessage}
use smolllm_go.EventStream.{EventStream}
use smolllm_go.Request.{Request}
use smolllm_go.Exchange.{Setting}
use smolllm_go.Chain.{run_chain}

-- Client
pub record Client : Type 0 where
  pub opts : Options
  pub balancer : Balancer

abbrev pub client_of : Option Options → Option Client
client_of none = none
client_of (some o) = some (record { opts = o; balancer = new_balancer })

-- New; `none` is the panic of a setter
unfoldable pub new_client : List Setter → Option Client
unfolding apply_options
new_client setters = client_of (apply_options setters)

-- start, on what createSelector gives for the options of the call; `none` is the panic of a setter
unfoldable pub start_call :
    Setting
    → (Options → Result (List Text))
    → Client
    → Request
    → Bool
    → List Setter
    → Option EventStream
unfolding run_chain call_options
start_call c selected client req commit setters = elim (call_options client.opts setters) [
  | none ↦ none
  | some o ↦
      some (run_chain (record c { options = o }) req (selected o) commit client.balancer).stream
]

-- Client.Stream
abbrev pub stream_call :
    Setting → (Options → Result (List Text)) → Client → Request → List Setter → Option EventStream
stream_call c selected client req setters = start_call c selected client req true setters

-- Client.Ask
unfoldable pub ask :
    Setting
    → (Options → Result (List Text))
    → Client
    → Request
    → List Setter
    → Option (Option AssistantMessage)
unfolding start_call
ask c selected client req setters = elim (start_call c selected client req false setters) [
  | none ↦ none
  | some s ↦ some s.result
]
