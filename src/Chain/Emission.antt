-- ===== src/Chain/Emission.antt =====
-- What a leg does to the stream while it is read: it only queues events that are not terminal, and
-- leaves the attempts and the mode of the call alone.
use mathlib.Core.Path.{subst}
use smolllm_go.Prelude.{
  Bool-cases, inl, inr, ℕ, ◌∙◌, not, arith, sym, ◌≡◌, refl, Bool, true, false, Option, none, some,
  List, [], ◌∷◌, All-append, if◌then◌else◌,
}
use smolllm_go.Prelude.Int.{ℤ}
use smolllm_go.Text.{Text, is_empty}
use smolllm_go.Errors.{Err, LegError, Result, ok, err}
use smolllm_go.ThinkFilter.{delta_is_empty, Delta, Filter, feed, new_filter}
use smolllm_go.ToolCalls.{ToolCall, ToolCallDelta, Fragment, merge}
use smolllm_go.Usage.{Usage, UsageChunk}
use smolllm_go.Call.{PreparedCall}
use smolllm_go.Balancer.{Balancer}
use smolllm_go.Transport.{prepare_llm_call}
use smolllm_go.Message.{Attempt, MessageAccumulator}
use smolllm_go.Backticks.{strip_backticks}
use smolllm_go.EventStream.{EventKind, text_delta, EventStream, Event, push, kind_is_terminal}
use smolllm_go.EventStream.Delivery.{NoTerminal, push_open}
use smolllm_go.Sink.{
  ChainState, emit, write_content, write_reasoning, text, reasoning_items, announce,
  stream_arguments, tool_fragment, feed_tools,
}
use smolllm_go.Streaming.{
  StreamDelta, StreamChunk, Decoders, LegOutcome, Parsed, apply_delta, apply_chunk,
  parse_chunk_line, Wire, write_delta, read_lines, consume_leg_stream, is_json_null, first_delta,
  payload_of, StreamChoice, note_finish, note_usage,
}
use smolllm_go.Exchange.{World, Setting, exchange, Exchange, refused, accepted}
use smolllm_go.Leg.{
  emit_calls, accept, read_leg, send_leg, attempt_leg, guard_response, fail_leg, judge,
  usage_of_leg, name_leg, prepared,
}

-- A stream of a call that has not finished.
abbrev pub Runs : EventStream → Type 0
Runs s = (s.finished ≡ false) × (s.input_closed ≡ false) × NoTerminal s.queue

push-Runs :
    (s : EventStream) (e : Event) → kind_is_terminal e.kind ≡ false → Runs s → Runs (push s e)
push-Runs s e k (f, c, n) =
    subst Runs (sym (push_open s e c))
      (f, c, All-append (λ (x : Event). kind_is_terminal x.kind ≡ false) s.queue _ n (k, tt))

-- A call that runs: `mode` is the state's commit_on_output, `trail` its attempts.
abbrev pub Open : Bool → List Attempt → ChainState → Type 0
Open mode trail s = Runs s.stream × (s.commit_on_output ≡ mode) × (s.acc.attempts ≡ trail)

pub if_keeps {ℓ κ} :
    {A : Type ℓ} (Keeps : A → Type κ) (test : Bool) {then_part else_part : A}
    → Keeps then_part
    → Keeps else_part
    → Keeps (if test then then_part else else_part)
if_keeps Keeps true p q = p
if_keeps Keeps false p q = q

pub Option_keeps {ℓ κ μ} :
    {A : Type ℓ} {B : Type μ} (P : B → Type κ) (o : Option A) {f : A → B} {y : B}
    → P y
    → ((a : A) → P (f a))
    → P (elim o [ none ↦ y | some a ↦ f a ])
Option_keeps P none p q = p
Option_keeps P (some a) p q = q a

pub Result_keeps {ℓ κ μ} :
    {A : Type ℓ} {B : Type μ} (P : B → Type κ) (r : Result A) {f : A → B} {g : Err → B}
    → ((e : Err) → P (g e))
    → ((a : A) → P (f a))
    → P (elim r [ err e ↦ g e | ok a ↦ f a ])
Result_keeps P (err e) p q = p e
Result_keeps P (ok a) p q = q a

pub emit-Open :
    (mode : Bool) (trail : List Attempt) (kind : EventKind) (d : Text) (i : ℤ) (t : Option ToolCall)
    (a : Option Attempt) (s : ChainState)
    → kind_is_terminal kind ≡ false
    → Open mode trail s
    → Open mode trail (emit kind d i t a s)
unfolding emit
emit-Open mode trail kind d i t a s k (r, m, h) = (push-Runs s.stream _ k r, m, h)

abbrev pub is_text : EventKind → Bool
is_text text_delta = true
is_text _ = false

-- What a predicate of the state needs so that an attempt keeps it: its events other than answer
-- text, answer text with its event, the mark that output was emitted, the other fields of the
-- message, and the fences that are stripped where the option says so.
pub record Kept (c : Setting) (P : ChainState → Type 0) : Type 0 where
  pub keeps_emit :
      (kind : EventKind) (d : Text) (i : ℤ) (t : Option ToolCall) (a : Option Attempt)
      (s : ChainState)
      → kind_is_terminal kind ≡ false
      → is_text kind ≡ false
      → P s
      → P (emit kind d i t a s)
  pub keeps_content : (t : Text) (s : ChainState) → P s → P (write_content t s)
  pub keeps_mark : (s : ChainState) → P s → P (record s { emitted = true })
  pub keeps_fields :
      (s : ChainState) (acc : MessageAccumulator)
      → acc.content ≡ s.acc.content
      → acc.attempts ≡ s.acc.attempts
      → P s
      → P (record s { acc = acc })
  pub keeps_stripped :
      (s : ChainState) (t : Text)
      → c.options.remove_backticks ≡ true
      → P s
      → P (record s { acc = record s.acc { content = t } })

pub Open-Kept : (c : Setting) (mode : Bool) (trail : List Attempt) → Kept c (Open mode trail)
unfolding write_content
Open-Kept c mode trail = record {
  keeps_emit = λ kind d i t a s k z h. emit-Open mode trail kind d i t a s k h;
  keeps_content = λ t s h.
      if_keeps (Open mode trail) (is_empty t) h
        (emit-Open mode trail _ _ _ _ _ (record s { emitted = true; acc = _ }) refl h);
  keeps_mark = λ s h. h;
  keeps_fields = λ s acc e f h. (h.0, h.1, f ∙ h.2);
  keeps_stripped = λ s t e h. h;
}

module _ (c : Setting) (P : ChainState → Type 0) (k : Kept c P) where
  write_reasoning-Kept : (t : Text) (s : ChainState) → P s → P (write_reasoning t s)
  unfolding write_reasoning
  write_reasoning-Kept t s h =
      if_keeps P (is_empty t) h
        (k.keeps_emit _ _ _ _ _ (record s { acc = _ }) refl refl (k.keeps_fields s _ refl refl h))

  write_delta-Kept : (d : Delta) (s : ChainState) → P s → P (write_delta d s)
  unfolding write_delta text
  write_delta-Kept d s h =
      if_keeps P (delta_is_empty d) h
        (write_reasoning-Kept d.reasoning _ (k.keeps_content d.content s h))

  tool_fragment-Kept : (f : Fragment) (s : ChainState) → P s → P (tool_fragment f s)
  unfolding tool_fragment announce stream_arguments
  tool_fragment-Kept f s h =
      let g : P (announce f s) =
        if_keeps P f.started
          (k.keeps_emit _ _ _ _ _ (record s { emitted = true }) refl refl (k.keeps_mark s h)) h in
      if_keeps P (is_empty f.arguments) g (
        k.keeps_emit _ _ _ _ _ (record (announce f s) { emitted = true }) refl refl
          (k.keeps_mark (announce f s) g))

  feed_tools-Kept : (ds : List ToolCallDelta) (s : ChainState) → P s → P (feed_tools ds s)
  unfolding feed_tools
  feed_tools-Kept [] s h = h
  feed_tools-Kept (d ∷ ds) s h =
      feed_tools-Kept ds _
        (tool_fragment-Kept (merge s.acc.tools d).1 _ (k.keeps_fields s _ refl refl h))

  -- The same of what the parser holds.
  abbrev Reads : Parsed → Type 0
  Reads p = P p.sink

  note_usage-sink : (u : Option UsageChunk) (p : Parsed) → (note_usage u p).sink ≡ p.sink
  note_usage-sink none p = refl
  note_usage-sink (some u) p = refl

  note_finish-sink : (cs : List StreamChoice) (p : Parsed) → (note_finish cs p).sink ≡ p.sink
  note_finish-sink [] p = refl
  note_finish-sink (c ∷ cs) p = ground arith

  apply_delta-Reads : (d : StreamDelta) (p : Parsed) → Reads p → Reads (apply_delta d p).1
  unfolding apply_delta reasoning_items
  apply_delta-Reads d p h =
      let t = feed_tools d.tool_calls p.sink in
      k.keeps_fields t (reasoning_items d.reasoning_items t).acc refl refl
        (feed_tools-Kept d.tool_calls p.sink h)

  apply_chunk-Reads :
      (dec : Decoders) (chunk : StreamChunk) (p : Parsed)
      → Reads p
      → Reads (apply_chunk dec chunk p).1
  unfolding apply_chunk
  apply_chunk-Reads dec chunk p h =
      if_keeps (λ (x : Result Delta × Parsed). Reads x.1) (not (is_json_null chunk.error)) h
        (let q = note_finish chunk.choices (note_usage chunk.usage p) in
          let z : Reads q =
            subst P
              (sym
                (note_finish-sink chunk.choices (note_usage chunk.usage p) ∙ note_usage-sink _ p))
              h in
          Option_keeps (λ (x : Result Delta × Parsed). Reads x.1) (first_delta chunk.choices) z
            (λ d. apply_delta-Reads d q z))

  parse_chunk_line-Reads :
      (dec : Decoders) (line : Text) (p : Parsed) → Reads p → Reads (parse_chunk_line dec line p).1
  unfolding parse_chunk_line
  parse_chunk_line-Reads dec line p h =
      Option_keeps (λ (x : Result Delta × Parsed). Reads x.1) (payload_of line) h
        (λ t.
          Result_keeps (λ (x : Result Delta × Parsed). Reads x.1) (dec.chunk t) (λ e. h)
            (λ chunk. apply_chunk-Reads dec chunk p h))

  read_lines-Reads :
      (dec : Decoders) (ls : List (Text × Option Err)) (f : Filter) (p : Parsed)
      → Reads p
      → Reads (read_lines dec ls f p).2
  unfolding read_lines
  read_lines-Reads dec [] f p h = h
  read_lines-Reads dec ((line, some e) ∷ rest) f p h = h
  read_lines-Reads dec ((line, none) ∷ rest) f p h =
      let x = parse_chunk_line dec line p in
      let z = parse_chunk_line-Reads dec line p h in
      Result_keeps (λ (x : Option Err × Filter × Parsed). Reads x.2) x.0 (λ e. z)
        (λ d. read_lines-Reads dec rest (feed f d).1 _ (write_delta-Kept (feed f d).0 x.1.sink z))

  consume_leg_stream-Kept :
      (dec : Decoders) (w : Wire) (s : ChainState) → P s → P (consume_leg_stream dec w s).1
  unfolding consume_leg_stream
  consume_leg_stream-Kept dec w s h =
      write_delta-Kept _ _ (read_lines-Reads dec w.lines new_filter _ h)

  emit_calls-Kept :
      (is : List ℤ) (cs : List ToolCall) (s : ChainState) → P s → P (emit_calls is cs s)
  unfolding emit_calls
  emit_calls-Kept [] cs s h = h
  emit_calls-Kept (i ∷ is) [] s h = h
  emit_calls-Kept (i ∷ is) (c ∷ cs) s h =
      emit_calls-Kept is cs _ (k.keeps_emit _ _ _ _ _ s refl refl h)

  -- The same of what an attempt gives.
  abbrev Gives : Attempt × Option LegError × ChainState → Type 0
  Gives x = P x.2

  accept-Kept :
      (call : PreparedCall) (n : ℕ) (out : LegOutcome) (u : Usage) (s : ChainState)
      → P s
      → P (accept c call n out u s).2
  unfolding accept
  accept-Kept call n out u s h =
      let t = emit_calls out.tool_indexes out.tool_calls s in
      let z = emit_calls-Kept out.tool_indexes out.tool_calls s h in
      elim (Bool-cases c.options.remove_backticks) [
        | inl e ↦ rw e (k.keeps_stripped t (strip_backticks t.acc.content) e z)
        | inr e ↦ rw e z
      ]

  judge-Kept :
      (call : PreparedCall) (m : Text) (n : ℕ) (out : LegOutcome) (s : ChainState)
      → P s
      → P (judge c call m n out s).2
  unfolding judge
  judge-Kept call m n out s h =
      let u = usage_of_leg c call out s in
      let t = record s { acc = record s.acc { usage = u } } in
      let z = k.keeps_fields s t.acc refl refl h in
      Option_keeps Gives (guard_response t c.options call out u) (accept-Kept call n out u t z)
        (λ e. z)

  read_leg-Kept :
      (call : PreparedCall) (m : Text) (n : ℕ) (w : Wire) (s : ChainState)
      → P s
      → P (read_leg c call m n w s).2
  unfolding read_leg
  read_leg-Kept call m n w s h =
      let x = consume_leg_stream c.decoders w s in
      let y = consume_leg_stream-Kept c.decoders w s h in
      let t = record x.1 { acc = record x.1.acc { finish_reason = x.0.finish_reason } } in
      let z = k.keeps_fields x.1 t.acc refl refl y in
      Option_keeps Gives x.0.failure (judge-Kept call m n x.0 t z) (λ e. z)

  settled-Kept :
      (x : Exchange) (m : Text) (n : ℕ) (s : ChainState)
      → P s
      → Gives (elim x [
        | refused call' e ↦ fail_leg c (some call') m n e none s
        | accepted call' wire ↦ read_leg c call' m n wire s
      ])
  settled-Kept (refused call e) m n s h = h
  settled-Kept (accepted call wire) m n s h = read_leg-Kept call m n wire s h

  send_leg-Kept :
      (w : World) (call : PreparedCall) (m : Text) (n : ℕ) (s : ChainState)
      → P s
      → P (send_leg c w call m n s).2
  unfolding send_leg
  send_leg-Kept w call m n s h =
      settled-Kept (exchange c w call) m n (name_leg c call s)
        (k.keeps_fields s (name_leg c call s).acc refl refl h)

  -- An attempt keeps the predicate.
  pub attempt_leg-Kept :
      (w : World) (b : Balancer) (m : Text) (n : ℕ) (s : ChainState)
      → P s
      → P (attempt_leg c w b m n s).0.2
  unfolding attempt_leg
  attempt_leg-Kept w b m n s h =
      Result_keeps Gives (prepared c w (prepare_llm_call c.env c.encode c.options m b w.draw).0)
        (λ e. h) (λ p. send_leg-Kept w p m n s h)
