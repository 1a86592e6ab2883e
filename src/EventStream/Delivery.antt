-- ===== src/EventStream/Delivery.antt =====
-- What the consumer of a stream sees.
use mathlib.Core.Path.{subst, subst₂}
use smolllm_go.Prelude.{
  ◌≡◌, refl, sym, ◌∙◌, ◌⊎◌, inl, inr, true, false, Option, none, some, List, [], ◌∷◌, ◌++◌,
  append-nil, append_assoc, arith, All, All-append,
}
use smolllm_go.Message.{AssistantMessage}
use smolllm_go.EventStream.{
  Event, EventStream, new_event, push, close, finish, terminal_kind, kind_is_terminal,
}
use smolllm_go.EventStream.Pump.{
  System, Step, emits, finishes, closes, takes, sends, returns, abandons, Reach, here, next, logged,
  logged_finish,
}

abbrev pub in_hand : Option Event → List Event
in_hand none = []
in_hand (some e) = e ∷ []

-- No event of the list is terminal.
abbrev pub NoTerminal : List Event → Type 0
NoTerminal = All (λ (e : Event). kind_is_terminal e.kind ≡ false)

-- The list ends in the terminal event of the message, and nothing before that is terminal.
pub record EndsWith (log : List Event) (m : AssistantMessage) : Type 0 where
  pub before : List Event
  pub splits : log ≡ before ++ (new_event (terminal_kind m.stop_reason) m ∷ [])
  pub clean : NoTerminal before

-- Whether the call has finished decides what was queued.
pub data Phase (s : EventStream) (log : List Event) : Type 0 where
  runs :
      s.finished ≡ false
      → s.input_closed ≡ false
      → s.ended ≡ false
      → s.result ≡ none
      → NoTerminal log
      → Phase s log
  over :
      (m : AssistantMessage)
      → s.finished ≡ true
      → s.input_closed ≡ true
      → s.ended ≡ true
      → s.result ≡ some m
      → EndsWith log m
      → Phase s log

pub push_open :
    (s : EventStream) (e : Event)
    → s.input_closed ≡ false
    → push s e ≡ record s { queue = s.queue ++ (e ∷ []) }
unfolding push
push_open s e h = rw h

pub push_shut : (s : EventStream) (e : Event) → s.input_closed ≡ true → push s e ≡ s
unfolding push
push_shut s e h = rw h

pub finish_again : (s : EventStream) (m : AssistantMessage) → s.finished ≡ true → finish s m ≡ s
unfolding finish
finish_again s m h = rw h

pub finish_first :
    (s : EventStream) (m : AssistantMessage)
    → s.finished ≡ false
    → s.input_closed ≡ false
    → finish s m ≡ record s {
      queue = s.queue ++ (new_event (terminal_kind m.stop_reason) m ∷ []);
      input_closed = true;
      finished = true;
      ended = true;
      result = some m;
    }
unfolding finish
finish_first s m h k = rw (h, k)

close_queue :
    (s : EventStream)
    → ((close s).queue ≡ s.queue)
      × ((close s).input_closed ≡ s.input_closed)
      × ((close s).finished ≡ s.finished)
      × ((close s).ended ≡ s.ended)
      × ((close s).result ≡ s.result)
      × ((close s).abandoned ≡ true)
unfolding close
close_queue s = ground arith

module _ (s : EventStream) (log : List Event) where
  logged_open : (e : Event) → s.input_closed ≡ false → logged s e log ≡ log ++ (e ∷ [])
  logged_open e h = rw h

  logged_shut : (e : Event) → s.input_closed ≡ true → logged s e log ≡ log
  logged_shut e h = rw h

  logged_first :
      (m : AssistantMessage)
      → s.finished ≡ false
      → logged_finish s m log ≡ logged s (new_event (terminal_kind m.stop_reason) m) log
  logged_first m h = rw h

  logged_again : (m : AssistantMessage) → s.finished ≡ true → logged_finish s m log ≡ log
  logged_again m h = rw h

-- An event at the end of the queue comes last.
queued_last :
    (sent q log : List Event) (h : Option Event) (e : Event)
    → sent ++ (in_hand h ++ q) ≡ log
    → sent ++ (in_hand h ++ (q ++ (e ∷ []))) ≡ log ++ (e ∷ [])
queued_last sent q log h e p =
    rw (← p, append_assoc sent (in_hand h ++ q) (e ∷ []), append_assoc (in_hand h) q (e ∷ []))

-- The parts of the invariant, with the stream apart.
abbrev pub Holds : EventStream → List Event → System → Type 0
Holds x log s =
    Phase x log
    × (s.sent ++ (in_hand s.hand ++ x.queue) ≡ log)
    × (s.returned ≡ true
        → (x.abandoned ≡ true) ⊎ ((s.hand ≡ none) × (x.queue ≡ []) × (x.input_closed ≡ true)))

module _ (s : System) where
  not_returned :
      s.stream.input_closed ≡ false
      → (s.returned ≡ true
          → (s.stream.abandoned ≡ true)
            ⊎ ((s.hand ≡ none) × (s.stream.queue ≡ []) × (s.stream.input_closed ≡ true)))
      → s.returned ≡ true
      → s.stream.abandoned ≡ true
  not_returned o c r = elim (c r) [ inl a ↦ a | inr (h, q, k) ↦ cc ]

  emits_Holds :
      (e : Event)
      → kind_is_terminal e.kind ≡ false
      → Holds s.stream s.log s
      → Holds (push s.stream e) (logged s.stream e s.log) s
  emits_Holds e k (runs f c d r n, o, z) =
      subst₂ (λ x l. Holds x l s) (sym (push_open s.stream e c))
        (sym (logged_open s.stream s.log e c))
        (
          runs f c d r (
              All-append (λ (x : Event). kind_is_terminal x.kind ≡ false) s.log (e ∷ []) n (k, tt)),
          queued_last s.sent s.stream.queue s.log s.hand e o,
          λ q. inl (not_returned c z q),
        )
  emits_Holds e k (over m f c d r n, o, z) =
      subst₂ (λ x l. Holds x l s) (sym (push_shut s.stream e c))
        (sym (logged_shut s.stream s.log e c)) (over m f c d r n, o, z)

  finishes_Holds :
      (m : AssistantMessage)
      → Holds s.stream s.log s
      → Holds (finish s.stream m) (logged_finish s.stream m s.log) s
  finishes_Holds m (runs f c d r n, o, z) =
      let e = new_event (terminal_kind m.stop_reason) m in
      subst₂ (λ x l. Holds x l s) (sym (finish_first s.stream m f c))
        (sym (logged_first s.stream s.log m f ∙ logged_open s.stream s.log e c))
        (
          over m refl refl refl refl (record { before = s.log; splits = refl; clean = n }),
          queued_last s.sent s.stream.queue s.log s.hand e o,
          λ q. inl (not_returned c z q),
        )
  finishes_Holds m (over m' f c d r n, o, z) =
      subst₂ (λ x l. Holds x l s) (sym (finish_again s.stream m f))
        (sym (logged_again s.stream s.log m f)) (over m' f c d r n, o, z)

  closes_Holds : Holds s.stream s.log s → Holds (close s.stream) s.log s
  closes_Holds (runs f c d r n, o, z) =
      let (q, ic, fi, en, re, ab) = close_queue s.stream in
      (runs (fi ∙ f) (ic ∙ c) (en ∙ d) (re ∙ r) n, rw q o, λ x. inl ab)
  closes_Holds (over m f c d r n, o, z) =
      let (q, ic, fi, en, re, ab) = close_queue s.stream in
      (over m (fi ∙ f) (ic ∙ c) (en ∙ d) (re ∙ r) n, rw q o, λ x. inl ab)

Phase-queue :
    (s : EventStream) (q : List Event) (log : List Event)
    → Phase s log
    → Phase (record s { queue = q }) log
Phase-queue s q log (runs f c d r n) = runs f c d r n
Phase-queue s q log (over m f c d r n) = over m f c d r n

abbrev pub Inv : System → Type 0
Inv s = Holds s.stream s.log s

Step-Inv : {s t : System} → Step s t → Inv s → Inv t
Step-Inv {s} (emits e k) i = emits_Holds s e k i
Step-Inv {s} (finishes m) i = finishes_Holds s m i
Step-Inv {s} closes i = closes_Holds s i
Step-Inv {s} (takes e rest b h q) (p, o, z) =
    (Phase-queue s.stream rest s.log p, rw (h, q) at o, λ r. cc)
Step-Inv {s} (sends e b h) (p, o, z) =
    (p, append_assoc s.sent (e ∷ []) s.stream.queue ∙ (rw h at o), λ r. cc)
Step-Inv {s} (returns b h q c) (p, o, z) = (p, o, λ r. inr (h, q, c))
Step-Inv {s} (abandons b a) (p, o, z) = (p, o, λ r. inl a)

pub Reach-Inv : {s : System} → Reach s → Inv s
Reach-Inv here = (runs refl refl refl refl tt, refl, λ r. cc)
Reach-Inv (next r st) = Step-Inv st (Reach-Inv r)

pub accounted : {s : System} → Reach s → s.sent ++ (in_hand s.hand ++ s.stream.queue) ≡ s.log
accounted r = (Reach-Inv r).1

-- At any time what the consumer has got is a beginning of what was queued, in order: nothing is
-- lost in between, repeated or put in another order.
pub sent-prefix : {s : System} → Reach s → (rest : List Event) × (s.sent ++ rest ≡ s.log)
sent-prefix {s} r = (in_hand s.hand ++ s.stream.queue, (Reach-Inv r).1)

-- Result never changes once it is there, and the channel `done` is closed exactly then; the events
-- that were queued end in its terminal event, and no other of them is terminal.
pub finished_once :
    {s : System} (m : AssistantMessage)
    → Reach s
    → s.stream.result ≡ some m
    → (s.stream.ended ≡ true)
      × EndsWith s.log m
      × ((m' : AssistantMessage) → finish s.stream m' ≡ s.stream)
      × ((e : Event) → push s.stream e ≡ s.stream)
finished_once {s} m r h = elim (Reach-Inv r).0 [
  | runs f c d n l ↦ cc
  | over m' f c d n l ↦ (
    d,
    subst (EndsWith s.log) (cc) l,
    λ k. finish_again s.stream k f,
    λ e. push_shut s.stream e c,
  )
]

-- Where the pump returned and the consumer did not close the stream, the consumer has got every
-- event that was queued, in order: the call has finished, and the last event is the only terminal
-- one and carries the result.
pub delivered_all :
    {s : System}
    → Reach s
    → s.returned ≡ true
    → s.stream.abandoned ≡ false
    → (s.sent ≡ s.log) × ((m : AssistantMessage) × (s.stream.result ≡ some m) × EndsWith s.sent m)
delivered_all {s} r b a = elim ((Reach-Inv r).2 b) [
  | inl k ↦ cc
  | inr (h, q, c) ↦
      let o = rw (h, q) at (Reach-Inv r).1 in
      let e : s.sent ≡ s.log = sym (append-nil s.sent) ∙ o in (e, terminal (Reach-Inv r).0 c e)
]
  where
    terminal :
        Phase s.stream s.log
        → s.stream.input_closed ≡ true
        → s.sent ≡ s.log
        → (m : AssistantMessage) × (s.stream.result ≡ some m) × EndsWith s.sent m
    terminal (runs f c d n l) k e = cc
    terminal (over m f c d n l) k e = (m, n, subst (λ x. EndsWith x m) (sym e) l)
