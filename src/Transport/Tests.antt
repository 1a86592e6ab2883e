-- ===== src/Transport/Tests.antt =====
-- A payload, and the theorem about it.
use smolllm_go.Prelude.{◌<◌, ◌≡◌, refl, none, some, List, [], ◌∷◌}
use smolllm_go.Prelude.Int.{pos}
use smolllm_go.Text.{lit}
use smolllm_go.Errors.{ok}
use smolllm_go.Float.{float_one}
use smolllm_go.Options.{
  Options, Setter, apply_options, with_temperature, with_max_tokens, default_options,
  reasoning_effort_for,
}
use smolllm_go.Options.Sampling.{temperature, max_tokens}
use smolllm_go.Transport.{Payload, build_payload, normalize_reasoning_effort}
use smolllm_go.Transport.Sampling.{sampling_options-sendable}

abbrev setters : List Setter
setters = with_temperature float_one ∷ with_max_tokens (pos 100) ∷ []

abbrev chosen : Options
chosen = record default_options { temperature = some float_one; max_tokens = some (pos 100) }

applied : apply_options setters ≡ some chosen
unfolding apply_options with_temperature with_max_tokens
applied = refl

no_effort : normalize_reasoning_effort (reasoning_effort_for chosen (lit "m")) (lit "p") ≡ ok none
unfolding normalize_reasoning_effort reasoning_effort_for smolllm_go.Options.lookup
no_effort = refl

sampling_options-sendable_example :
    ((p : Payload) × (build_payload chosen (lit "m") (lit "n") (lit "p") ≡ ok p)
      × (p.temperature ≡ chosen.temperature)
      × (p.top_p ≡ chosen.top_p)
      × (p.max_tokens ≡ chosen.max_tokens)
      × (p.stop ≡ chosen.stop)
      × (p.reasoning_effort ≡ none))
    × (0 < chosen.max_retries)
sampling_options-sendable_example =
    sampling_options-sendable setters chosen (lit "m") (lit "n") (lit "p")
      (temperature float_one, (max_tokens (pos 100), tt)) applied no_effort
