-- ===== src/Command/Tests.antt =====
-- Runs of the command line tool, and the theorems about it.
use smolllm_go.Prelude.{◌≡◌, refl, ◌≢◌, ◌↔◌, true, false, none, some, List, [], ◌∷◌, ◌++◌}
use smolllm_go.Prelude.Int.{pos}
use smolllm_go.Text.{Text, lit, is_empty}
use smolllm_go.Errors.{ok}
use smolllm_go.Options.{Setter, default_options, normalized}
use smolllm_go.Balancer.{new_balancer}
use smolllm_go.Message.{AssistantMessage}
use smolllm_go.EventStream.{EventStream}
use smolllm_go.Chain.Tests.{setting, models}
use smolllm_go.Chain.Legs.{IsFailure}
use smolllm_go.Client.{Client, new_client, stream_call}
use smolllm_go.Command.{AskCommand, ask_options, Exit, newline, always}
use smolllm_go.Command.Run.{Machine, ask_checked, ask_request, prompt_text}
use smolllm_go.Command.Streaming.{ask_checked-prints}
use smolllm_go.Command.Accepted.{ask_options-panics}
use smolllm_go.Options.{with_timeout, with_reasoning_effort}

abbrev machine : Machine
machine = record { setting = setting; selected = λ o. ok models; fails = λ i. none }

-- smolllm --stream hi
abbrev hi : AskCommand
hi = record {
  model = [];
  system_prompt = [];
  images = [];
  temperature = none;
  top_p = none;
  reasoning_effort = none;
  timeout = pos 120;
  strip_backticks = false;
  streams = true;
  validates = false;
  prompt = lit "hi" ∷ [];
}

abbrev client : Client
client = record { opts = default_options; balancer = new_balancer }

has_prompt : is_empty (prompt_text hi) ≡ false
unfolding smolllm_go.Text.trim_space smolllm_go.Text.join
has_prompt = refl

ask_checked-prints_example :
    (x : Exit) × (s : EventStream) × (message : AssistantMessage) × (ask_checked machine hi client
      ≡ some x)
    × (stream_call machine.setting machine.selected client (ask_request hi (prompt_text hi)) []
        ≡ some s)
    × (s.result ≡ some message)
    × (x.out ≡ message.content ++ newline)
    × ((x.failure ≢ none) ↔ IsFailure message.stop_reason)
ask_checked-prints_example =
    ask_checked-prints machine hi client refl has_prompt refl refl (λ i. refl)

-- smolllm --reasoning-effort "" hi
abbrev blank : AskCommand
blank = record hi { reasoning_effort = some [] }

abbrev setters : List Setter
setters = always (with_timeout (pos 120)) ∷ with_reasoning_effort [] ∷ []

accepted : ask_options blank ≡ ok setters
unfolding ask_options smolllm_go.Text.trim_space
accepted = refl

ask_options-panics_example : (new_client setters ≡ none) ↔ (
    (effort : Text) × (blank.reasoning_effort ≡ some effort)
    × (is_empty (normalized effort) ≡ true))
ask_options-panics_example = ask_options-panics blank setters accepted
