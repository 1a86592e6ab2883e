-- ===== src/Command/Run.antt =====
-- The `Run` methods of the two commands of cmd/cli/main.go.
use smolllm_go.Prelude.{
  ℕ, zero, suc, Bool, not, Option, none, some, List, [], ◌∷◌, ◌++◌, map, if◌then◌else◌,
}
use smolllm_go.Prelude.Int.{ℤ, pos, negsuc}
use smolllm_go.Text.{Text, lit, is_empty, trim_space, join}
use smolllm_go.Errors.{str, Err, plain, Result, ok, err, ◌>>=◌, join_leg_errors}
use smolllm_go.Float.{Float}
use smolllm_go.Options.{
  Options, Setter, with_timeout, with_model, with_dimensions, with_reasoning_effort,
}
use smolllm_go.EventStream.{EventStream}
use smolllm_go.Request.{Request, request_from_string}
use smolllm_go.Exchange.{Setting}
use smolllm_go.Configuration.{validate_client}
use smolllm_go.Client.{Client, new_client, start_call, stream_call, ask}
use smolllm_go.Embedding.{EmbeddingResponse}
use smolllm_go.Embedding as Embedding
use smolllm_go.Command.{
  AssistantMessage, AskCommand, ask_options, always, when, when_some, Exit, exit_with, newline,
  stream_to_stdout, report_outcome, report_result,
}

-- What a run of the tool is given: the setting of its calls, what createSelector gives on some
-- options, what the writes to stdout give.
pub record Machine : Type 0 where
  pub setting : Setting
  pub selected : Options → Result (List Text)
  pub fails : ℕ → Option Err

-- The request of askCmd.Run.
abbrev pub ask_request : AskCommand → Text → Request
ask_request c prompt = record (request_from_string prompt) {
  system_prompt = trim_space c.system_prompt;
}

abbrev pub prompt_text : AskCommand → Text
prompt_text c = trim_space (join (lit " ") c.prompt)

abbrev pub either_error : Option Err → Option Err → Option Err
either_error none second = second
either_error (some e) second = some e

module _ (m : Machine) where
  -- What is left of a streamed call: its own failure comes before a failed write.
  abbrev pub stream_exit : EventStream → AssistantMessage → Exit
  stream_exit s message =
      let console = stream_to_stdout m.setting.quote m.fails s.queue in
      record {
        failure = either_error (report_outcome message).0 console.write_error;
        out = console.out;
        log = console.log ++ (report_outcome message).1;
      }

  abbrev pub report_message : EventStream → Option AssistantMessage → Option Exit
  report_message s none = none
  report_message s (some message) = some (stream_exit s message)

  -- The end of askCmd.Run with --stream; `none` where there is no stream or no result
  unfoldable pub report_stream : Option EventStream → Option Exit
  unfolding stream_to_stdout report_outcome
  report_stream none = none
  report_stream (some s) = report_message s s.result

  -- askCmd.Run behind the check of the configuration; `none` is a panic
  unfoldable pub ask_checked : AskCommand → Client → Option Exit
  unfolding report_stream report_result start_call ask
  ask_checked c client =
      if c.validates
      then some (record {
        failure = none;
        out = 226 ∷ 156 ∷ 147 ∷ (lit " API configuration is valid" ++ newline);
        log = [];
      })
      else if is_empty (prompt_text c)
      then some (exit_with (plain (str (lit "prompt text is required") ∷ [])))
      else if c.streams
      then report_stream
          (stream_call m.setting m.selected client (ask_request c (prompt_text c)) [])
      else elim (ask m.setting m.selected client (ask_request c (prompt_text c)) []) [
        | none ↦ none
        | some none ↦ none
        | some (some message) ↦ some (report_result message)
      ]

  -- askCmd.Run; `none` is a panic of a setter
  unfoldable pub ask_run : AskCommand → Option Exit
  unfolding ask_options new_client validate_client ask_checked join_leg_errors
  ask_run c = elim (ask_options c) [
    | err e ↦ some (exit_with e)
    | ok setters ↦ elim (new_client setters) [
      | none ↦ none
      | some client ↦ elim (validate_client m.setting.env client.opts (m.selected client.opts)) [
        | [] ↦ ask_checked c client
        | e ∷ es ↦ some (exit_with (join_leg_errors (e ∷ es)))
      ]
    ]
  ]

-- embedCmd
pub record EmbedCommand : Type 0 where
  pub model : Text
  pub timeout : ℤ
  pub tabs : Bool
  pub dimensions : ℤ
  pub reasoning_effort : Option Text
  pub inputs : List Text

-- The test of embedCmd.Run on its dimensions.
abbrev pub dimension_setters : ℤ → Result (List Setter)
dimension_setters (pos zero) = ok []
dimension_setters (pos (suc n)) = ok (with_dimensions (pos (suc n)) ∷ [])
dimension_setters (negsuc n) = err (plain (str (lit "dimensions must be positive") ∷ []))

-- The options of embedCmd.Run; the logger is left out
unfoldable pub embed_options : EmbedCommand → Result (List Setter)
unfolding with_timeout with_model with_dimensions with_reasoning_effort
embed_options c = do
  dimensions ← dimension_setters c.dimensions
  ok (
      always (with_timeout c.timeout)
      ∷ (when (not (is_empty (trim_space c.model))) (always (with_model (trim_space c.model)))
          ++ (dimensions ++ when_some c.reasoning_effort with_reasoning_effort)))

-- One line of tab-separated numbers for each vector; `show` is the verb %g.
unfoldable pub tab_lines : (Float → Text) → List (List Float) → Text
tab_lines show [] = []
tab_lines show (v ∷ vs) = join (9 ∷ []) (map show v) ++ (newline ++ tab_lines show vs)

-- embedCmd.Run, with json.Encoder as `encode`; the response is a pointer that may be
-- nil, on which --format tsv panics
unfoldable pub embed_run :
    Embedding.Setting
    → (Options → Result (List Text))
    → (Float → Text)
    → (Option EmbeddingResponse → Result Text)
    → EmbedCommand
    → Option Exit
unfolding embed_options new_client Embedding.embed tab_lines
embed_run c selected show encode command = elim (embed_options command) [
  | err e ↦ some (exit_with e)
  | ok setters ↦ elim (new_client setters) [
    | none ↦ none
    | some client ↦
        elim (Embedding.embed (record c { options = client.opts }) command.inputs
          (selected client.opts) (record { balancer = client.balancer; hooks = [] })).0 [
            | err e ↦ some (exit_with e)
            | ok r ↦
                if command.tabs
                then elim r [
                  | none ↦ none
                  | some a ↦
                      some (record { failure = none; out = tab_lines show a.embeddings; log = [] })
                ]
                else elim (encode r) [
                  | err e ↦ some (exit_with e)
                  | ok text ↦ some (record { failure = none; out = text; log = [] })
                ]
          ]
  ]
]
