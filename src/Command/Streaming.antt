-- ===== src/Command/Streaming.antt =====
-- What `smolllm --stream` prints: streamToStdout and askCmd.Run of cmd/cli/main.go.
use mathlib.Core.Path.{subst}
use smolllm_go.Prelude.{
  ℕ, ◌≡◌, refl, sym, ap, ◌∙◌, ◌≢◌, ◌↔◌, inl, inr, Bool, true, false, not, ◌&&◌, ◌||◌, Option, none,
  some, List, [], ◌∷◌, ◌++◌, append-nil, append_assoc,
}
use smolllm_go.Text.{lit, Text, is_empty}
use smolllm_go.Errors.{Err}
use smolllm_go.Message.{AssistantMessage, StopReason}
use smolllm_go.EventStream.{
  Event, EventKind, EventStream, start, text_delta, reasoning_delta, tool_call_start,
  tool_call_delta, tool_call_end, leg_failed, done, error,
}
use smolllm_go.Options.{call_options, apply_all}
use smolllm_go.Chain.{run_chain}
use smolllm_go.Chain.Emission.{Option_keeps, if_keeps}
use smolllm_go.Chain.Legs.{IsFailure}
use smolllm_go.Chain.Shown.{shown, text_of_event}
use smolllm_go.Chain.Answer.{run_chain-shown}
use smolllm_go.Client.{Client, start_call, stream_call}
use smolllm_go.Command.{
  thinking, answering, tool_call_line, failure_line, AskCommand, Console, new_console, newline,
  print_log, print_answer, switch_to, show_event, show_events, stream_to_stdout, report_outcome,
  Exit,
}
use smolllm_go.Command.Run.{
  Machine, ask_request, prompt_text, either_error, report_stream, report_message, stream_exit,
  ask_checked,
}

module _ (quote : Text → Text) (fails : ℕ → Option Err) (works : (i : ℕ) → fails i ≡ none) where
  -- The console has lost nothing, and stdout holds the text.
  abbrev Holds : Text → Console → Type 0
  Holds t s = (s.write_error ≡ none) × (s.out ≡ t)

  print_answer-Holds :
      (t u : Text) (s : Console) → Holds t s → Holds (t ++ u) (print_answer fails u s)
  unfolding print_answer
  print_answer-Holds t u s (e, o) = rw (e, works s.writes) (e, ap (λ x. x ++ u) o)

  switch_to-Holds :
      (b : Bool) (heading t : Text) (s : Console) → Holds t s → Holds t (switch_to b heading s)
  switch_to-Holds b heading t s h =
      if_keeps (Holds t) ((s.in_reasoning && b) || (not s.in_reasoning && not b)) h h

  silent : (t : Text) (s : Console) → Holds t s → Holds (t ++ []) s
  silent t s (e, o) = (e, o ∙ sym (append-nil t))

  show_event-Holds :
      (e : Event) (t : Text) (s : Console)
      → Holds t s
      → Holds (t ++ text_of_event e) (show_event quote fails e s)
  unfolding show_event
  show_event-Holds e t s h = by_kind e.kind refl
    where
      by_kind :
          (k : EventKind) → e.kind ≡ k → Holds (t ++ text_of_event e) (show_event quote fails e s)
      by_kind text_delta q = rw q (
          print_answer-Holds t e.delta (answering s)
            (switch_to-Holds false (newline ++ (lit "[Answer]" ++ newline)) t s h))
      by_kind reasoning_delta q = rw q (
          silent t (print_log e.delta (thinking s))
            (switch_to-Holds true (lit "[Thinking]" ++ newline) t s h))
      by_kind tool_call_end q = rw q (
          Option_keeps (Holds (t ++ [])) e.tool_call (silent t s h)
            (λ c. silent t (print_log (tool_call_line c) s) h))
      by_kind leg_failed q = rw q (
          Option_keeps (Holds (t ++ [])) e.attempt (silent t s h) (λ a.
            Option_keeps (Holds (t ++ [])) a.failure (silent t s h)
              (λ l. silent t (print_log (failure_line quote l) s) h)))
      by_kind start q = rw q (silent t s h)
      by_kind tool_call_start q = rw q (silent t s h)
      by_kind tool_call_delta q = rw q (silent t s h)
      by_kind done q = rw q (silent t s h)
      by_kind error q = rw q (silent t s h)

  show_events-Holds :
      (es : List Event) (t : Text) (s : Console)
      → Holds t s
      → Holds (t ++ shown es) (show_events quote fails es s)
  unfolding show_events shown
  show_events-Holds [] t s h = silent t s h
  show_events-Holds (e ∷ es) t s h =
      let (a, b) =
        show_events-Holds es (t ++ text_of_event e) (show_event quote fails e s)
          (show_event-Holds e t s h) in
      (a, b ∙ append_assoc t (text_of_event e) (shown es))

  stream_to_stdout-Holds :
      (es : List Event) → Holds (shown es ++ newline) (stream_to_stdout quote fails es)
  unfolding stream_to_stdout
  stream_to_stdout-Holds es =
      print_answer-Holds (shown es) newline (show_events quote fails es new_console)
        (show_events-Holds es [] new_console (refl, refl))

report_outcome-IsFailure :
    (m : AssistantMessage) → ((report_outcome m).0 ≢ none) ↔ IsFailure m.stop_reason
unfolding report_outcome
report_outcome-IsFailure m = by_reason m.stop_reason refl
  where
    by_reason :
        (r : StopReason)
        → m.stop_reason ≡ r
        → ((report_outcome m).0 ≢ none) ↔ IsFailure m.stop_reason
    by_reason StopReason.error q = rw q ((λ h. inl refl), (λ h e. cc))
    by_reason StopReason.aborted q = rw q ((λ h. inr refl), (λ h e. cc))
    by_reason StopReason.pending q =
        rw q ((λ h. absurd (h refl)), λ h e. elim h [ inl a ↦ cc | inr a ↦ cc ])
    by_reason StopReason.stop q =
        rw q ((λ h. absurd (h refl)), λ h e. elim h [ inl a ↦ cc | inr a ↦ cc ])
    by_reason StopReason.length_limit q =
        rw q ((λ h. absurd (h refl)), λ h e. elim h [ inl a ↦ cc | inr a ↦ cc ])
    by_reason StopReason.tool_use q =
        rw q ((λ h. absurd (h refl)), λ h e. elim h [ inl a ↦ cc | inr a ↦ cc ])

streamed :
    (m : Machine) (c : AskCommand) (client : Client)
    → stream_call m.setting m.selected client (ask_request c (prompt_text c)) []
      ≡ some
          (run_chain
            (record m.setting { options = client.opts })
            (ask_request c (prompt_text c))
            (m.selected client.opts)
            true
            client.balancer).stream
unfolding start_call call_options apply_all
streamed m c client = refl

ask_checked-streams :
    (m : Machine) (c : AskCommand) (client : Client)
    → c.validates ≡ false
    → is_empty (prompt_text c) ≡ false
    → c.streams ≡ true
    → ask_checked m c client
      ≡ report_stream m (stream_call m.setting m.selected client (ask_request c (prompt_text c)) [])
unfolding ask_checked
ask_checked-streams m c client v p t = rw (v, p, t) refl

reported :
    (m : Machine) (s : EventStream) (message : AssistantMessage)
    → s.result ≡ some message
    → report_stream m (some s) ≡ some (stream_exit m s message)
unfolding report_stream
reported m s message r = ap (report_message m s) r

either_none : (e : Option Err) → either_error e none ≡ e
either_none none = refl
either_none (some e) = refl

-- With --stream, a prompt, and stdout taking every write, the tool prints on stdout exactly the
-- answer of the terminal message and a newline, whichever models were tried, unless it strips
-- fences; and it exits with an error exactly where the call failed or was aborted.
pub ask_checked-prints :
    (m : Machine) (c : AskCommand) (client : Client)
    → c.validates ≡ false
    → is_empty (prompt_text c) ≡ false
    → c.streams ≡ true
    → client.opts.remove_backticks ≡ false
    → ((i : ℕ) → m.fails i ≡ none)
    → (x : Exit) × (s : EventStream) × (message : AssistantMessage) × (ask_checked m c client
        ≡ some x)
      × (stream_call m.setting m.selected client (ask_request c (prompt_text c)) [] ≡ some s)
      × (s.result ≡ some message)
      × (x.out ≡ message.content ++ newline)
      × ((x.failure ≢ none) ↔ IsFailure message.stop_reason)
ask_checked-prints m c client v p t k w =
    let req = ask_request c (prompt_text c) in
    let setting = record m.setting { options = client.opts } in
    let s = (run_chain setting req (m.selected client.opts) true client.balancer).stream in
    let (message, r, q) = run_chain-shown setting req (m.selected client.opts) client.balancer k in
    let (f, o) = stream_to_stdout-Holds m.setting.quote m.fails w s.queue in
    let failure = (report_outcome message).0 in
    let same : (stream_exit m s message).failure ≡ failure =
      ap (either_error failure) f ∙ either_none failure in
    (
      stream_exit m s message,
      s,
      message,
      ask_checked-streams m c client v p t
          ∙ (ap (report_stream m) (streamed m c client) ∙ reported m s message r),
      streamed m c client,
      r,
      o ∙ ap (λ u. u ++ newline) q,
      subst (λ e. (e ≢ none) ↔ IsFailure message.stop_reason) (sym same)
          (report_outcome-IsFailure message),
    )
