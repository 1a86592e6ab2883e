-- ===== src/EventStream/Refines.antt =====
-- The stream and its pump as a queue of events that closes once.
use mathlib.Core.Path.{subst}
use smolllm_go.Prelude.{
  ◌≡◌, refl, sym, ap, ◌∙◌, ◌⊎◌, inl, inr, true, false, Bool, Option, none, some, List, [], ◌∷◌,
  ◌++◌, append_assoc, if◌then◌else◌,
}
use smolllm_go.Message.{AssistantMessage}
use smolllm_go.EventStream.{Event, EventStream, new_event, push, close, finish, terminal_kind}
use smolllm_go.EventStream.Pump.{
  System, Step, emits, finishes, closes, takes, sends, returns, abandons, Reach,
}
use smolllm_go.EventStream.Delivery.{
  in_hand, Phase, runs, over, Reach-Inv, push_open, push_shut, finish_again, finish_first,
}

-- What a caller relies on: the events delivered, those still to come, and how the call ended.
pub record Channel : Type 0 where
  pub delivered : List Event
  pub pending : List Event
  pub outcome : Option AssistantMessage

-- An event goes in while the call runs; the call ends once, with its terminal event behind all
-- others; the first pending event is delivered.
pub data ChannelStep (c : Channel) : Channel → Type 0 where
  enqueue :
      (e : Event) → c.outcome ≡ none → ChannelStep c (record c { pending = c.pending ++ (e ∷ []) })
  shut :
      (m : AssistantMessage)
      → c.outcome ≡ none
      → ChannelStep c (record c {
        pending = c.pending ++ (new_event (terminal_kind m.stop_reason) m ∷ []);
        outcome = some m;
      })
  deliver :
      (e : Event) (rest : List Event)
      → c.pending ≡ e ∷ rest
      → ChannelStep c (record c { delivered = c.delivered ++ (e ∷ []); pending = rest })

-- The channel that a stream with its pump stands for; whether the pump holds an event is forgotten.
abbrev pub channel_of : EventStream → System → Channel
channel_of x s = record {
  delivered = s.sent;
  pending = in_hand s.hand ++ x.queue;
  outcome = x.result;
}

-- Nothing to be seen, or one step of the channel.
abbrev pub Simulates : Channel → Channel → Type 0
Simulates c d = (d ≡ c) ⊎ ChannelStep c d

module _ (s : System) where
  enqueue_last :
      (e : Event)
      → s.stream.result ≡ none
      → ChannelStep
          (channel_of s.stream s)
          (channel_of (record s.stream { queue = s.stream.queue ++ (e ∷ []) }) s)
  enqueue_last e r =
      subst
        (λ p. ChannelStep (channel_of s.stream s) (record (channel_of s.stream s) { pending = p }))
        (append_assoc (in_hand s.hand) s.stream.queue (e ∷ [])) (enqueue e r)

  shut_last :
      (m : AssistantMessage)
      → s.stream.result ≡ none
      → ChannelStep (channel_of s.stream s) (record (channel_of s.stream s) {
        pending =
            in_hand s.hand ++ (s.stream.queue ++ (new_event (terminal_kind m.stop_reason) m ∷ []));
        outcome = some m;
      })
  shut_last m r =
      subst
        (λ p.
          ChannelStep (channel_of s.stream s)
            (record (channel_of s.stream s) { pending = p; outcome = some m }))
        (append_assoc (in_hand s.hand) s.stream.queue
          (new_event (terminal_kind m.stop_reason) m ∷ []))
        (shut m r)

  emits_Simulates :
      (e : Event)
      → Phase s.stream s.log
      → Simulates (channel_of s.stream s) (channel_of (push s.stream e) s)
  emits_Simulates e (runs f c d r n) =
      subst (λ x. Simulates (channel_of s.stream s) (channel_of x s)) (sym (push_open s.stream e c))
        (inr (enqueue_last e r))
  emits_Simulates e (over m f c d r n) = inl (ap (λ x. channel_of x s) (push_shut s.stream e c))

  finishes_Simulates :
      (m : AssistantMessage)
      → Phase s.stream s.log
      → Simulates (channel_of s.stream s) (channel_of (finish s.stream m) s)
  finishes_Simulates m (runs f c d r n) =
      subst (λ x. Simulates (channel_of s.stream s) (channel_of x s))
        (sym (finish_first s.stream m f c)) (inr (shut_last m r))
  finishes_Simulates m (over k f c d r n) =
      inl (ap (λ x. channel_of x s) (finish_again s.stream m f))

  closes_channel : channel_of (close s.stream) s ≡ channel_of s.stream s
  unfolding close
  closes_channel = either s.stream.abandoned
    where
      either :
          (b : Bool)
          → channel_of
              (if b then s.stream else record s.stream { abandoned = true; cancelled = true })
              s
            ≡ channel_of s.stream s
      either true = refl
      either false = refl

-- The lock, the pump and its hand implement a queue that closes once: a step of a reachable system
-- shows nothing, or is one step of the channel, which delivers in the order of arrival and ends
-- with the terminal event of its outcome.
pub Step-Simulates :
    {s t : System} → Reach s → Step s t → Simulates (channel_of s.stream s) (channel_of t.stream t)
Step-Simulates {s} r (emits e k) = emits_Simulates s e (Reach-Inv r).0
Step-Simulates {s} r (finishes m) = finishes_Simulates s m (Reach-Inv r).0
Step-Simulates {s} r closes = inl (closes_channel s)
Step-Simulates {s} r (takes e rest b h q) = inl (
    ap (λ p. record (channel_of s.stream s) { pending = p })
      (sym (ap (λ x. in_hand x ++ s.stream.queue) h ∙ q)))
Step-Simulates {s} r (sends e b h) =
    inr (deliver e s.stream.queue (ap (λ x. in_hand x ++ s.stream.queue) h))
Step-Simulates {s} r (returns b h q c) = inl refl
Step-Simulates {s} r (abandons b a) = inl refl
