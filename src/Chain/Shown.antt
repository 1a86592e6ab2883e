-- ===== src/Chain/Shown.antt =====
-- What a call that commits on output shows its consumer: runLeg and runChain of smolllm/chain.go
-- under Stream.
use smolllm_go.Prelude.{
  ◌≡◌, refl, sym, ap, ◌∙◌, inl, inr, true, false, Option, none, some, List, [], ◌∷◌, ◌++◌,
  append-nil, append_assoc, if◌then◌else◌, Bool-cases,
}
use smolllm_go.Prelude.Int.{ℤ, pos}
use smolllm_go.Text.{Text, is_empty}
use smolllm_go.ToolCalls.{ToolCall}
use smolllm_go.Message.{Attempt, AssistantMessage, snapshot}
use smolllm_go.EventStream.{Event, EventKind, EventStream, push, text_delta}
use smolllm_go.EventStream.Delivery.{push_open}
use smolllm_go.Sink.{ChainState, emit, write_content}
use smolllm_go.Exchange.{Setting}
use smolllm_go.Chain.Emission.{is_text, Kept}

abbrev pub text_of_event : Event → Text
text_of_event e = if is_text e.kind then e.delta else []

-- The answer text that the events show.
unfoldable pub shown : List Event → Text
shown [] = []
shown (e ∷ es) = text_of_event e ++ shown es

pub shown_last :
    (es : List Event) (e : Event) → shown (es ++ (e ∷ [])) ≡ shown es ++ text_of_event e
unfolding shown
shown_last [] e = append-nil (text_of_event e)
shown_last (f ∷ es) e =
    ap (λ t. text_of_event f ++ t) (shown_last es e)
    ∙ sym (append_assoc (text_of_event f) (shown es) (text_of_event e))

-- The call runs and commits on output; what it has shown is what its turn holds, and it holds
-- nothing that it has not marked as emitted.
abbrev pub Shows : ChainState → Type 0
Shows s =
    (s.stream.finished ≡ false)
    × (s.stream.input_closed ≡ false)
    × (s.commit_on_output ≡ true)
    × (shown s.stream.queue ≡ s.acc.content)
    × (s.emitted ≡ false → s.acc.content ≡ [])

-- Nothing was shown so far.
abbrev pub Fresh : ChainState → Type 0
Fresh s = Shows s × (s.acc.content ≡ [])

-- The call is over, and has shown the content of its message.
abbrev pub Told : ChainState → Type 0
Told s =
    (s.stream.finished ≡ true)
    × ((m : AssistantMessage) × (s.stream.result ≡ some m) × (shown s.stream.queue ≡ m.content))

push-shown :
    (s : EventStream) (e : Event)
    → s.input_closed ≡ false
    → shown (push s e).queue ≡ shown s.queue ++ text_of_event e
push-shown s e c = ap (λ (x : EventStream). shown x.queue) (push_open s e c) ∙ shown_last s.queue e

push-open :
    (s : EventStream) (e : Event)
    → s.input_closed ≡ false
    → ((push s e).finished ≡ s.finished) × ((push s e).input_closed ≡ s.input_closed)
unfolding push
push-open s e c = rw c (refl, refl)

pub emit-Shows :
    (kind : EventKind) (d : Text) (i : ℤ) (t : Option ToolCall) (a : Option Attempt)
    (s : ChainState)
    → is_text kind ≡ false
    → Shows s
    → Shows (emit kind d i t a s)
unfolding emit
emit-Shows kind d i t a s z (f, c, m, h, n) =
    let e : Event = record {
      kind = kind;
      delta = d;
      index = i;
      tool_call = t;
      attempt = a;
      message = snapshot s.acc;
    } in
    let (x, y) = push-open s.stream e c in
    let silent : text_of_event e ≡ [] = rw z refl in
    (
      x ∙ f,
      y ∙ c,
      m,
      push-shown s.stream e c
          ∙ (ap (λ t. shown s.stream.queue ++ t) silent ∙ (append-nil (shown s.stream.queue) ∙ h)),
      n,
    )

write_content-Shows : (t : Text) (s : ChainState) → Shows s → Shows (write_content t s)
unfolding write_content emit
write_content-Shows t s (f, c, m, h, n) = elim (Bool-cases (is_empty t)) [
  | inl e ↦ rw e (f, c, m, h, n)
  | inr e ↦
      let acc = record s.acc { content = s.acc.content ++ t } in
      let v : Event = record {
        kind = text_delta;
        delta = t;
        index = pos 0;
        tool_call = none;
        attempt = none;
        message = snapshot acc;
      } in
      let (x, y) = push-open s.stream v c in
      rw e (x ∙ f, y ∙ c, m, push-shown s.stream v c ∙ ap (λ u. u ++ t) h, λ g. cc)
]

pub Shows-Kept : (c : Setting) → c.options.remove_backticks ≡ false → Kept c Shows
Shows-Kept c b = record {
  keeps_emit = λ kind d i t a s k z h. emit-Shows kind d i t a s z h;
  keeps_content = write_content-Shows;
  keeps_mark = λ s h. (h.0, h.1, h.2, h.3, λ g. cc);
  keeps_fields = λ s acc e f h. (h.0, h.1, h.2, h.3 ∙ sym e, λ g. e ∙ h.4 g);
  keeps_stripped = λ s t e h. cc (e, b);
}
