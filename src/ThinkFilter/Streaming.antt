-- ===== src/ThinkFilter/Streaming.antt =====
-- What Feed and Flush give for a whole stream does not depend on how the stream was cut up.
use smolllm_go.Prelude.{
  ◌≢◌, refl, true, append-nil, append_assoc, map, suc, ◌≡◌, ap, Bool, false, List, [], ◌∷◌, ◌++◌,
  arith, length,
}
use smolllm_go.Text.{Text}
use smolllm_go.ThinkFilter.{new_filter, flush, Delta, Filter, feed}
use smolllm_go.ThinkFilter.Scan.{scan-append, Scanned, scan}
use smolllm_go.ThinkFilter.Loop.{feed_loop-scan}

-- A fragment of answer text, with no reasoning of the provider's own.
abbrev pub text_chunk : Text → Delta
text_chunk s = record { content = s; reasoning = [] }

-- The texts of two fragments, one after the other.
infixl 65 ◌+Δ◌
abbrev pub ◌+Δ◌ : Delta → Delta → Delta
d +Δ e = record { content = d.content ++ e.content; reasoning = d.reasoning ++ e.reasoning }

-- Feeds the fragments in order and puts what comes out together.
unfoldable pub feed_all : Filter → List Delta → Delta × Filter
feed_all f [] = (record { content = []; reasoning = [] }, f)
feed_all f (d ∷ ds) = let (out, f') = feed f d in let (rest, g) = feed_all f' ds in (out +Δ rest, g)

-- The text of all fragments.
abbrev pub whole : List Text → Text
whole [] = []
whole (s ∷ ss) = s ++ whole ss

-- A filter that works: the state that a pass of Scan leaves.
abbrev pub running : Scanned → Filter
running r = record { inside_think = r.inside; buffer = r.held; disabled = false }

abbrev pub sorted_delta : Scanned → Delta
sorted_delta r = record { content = r.content; reasoning = r.reasoning }

-- Feed of answer text is one pass over the held text and the fragment.
pub feed-text_chunk :
    (b : Bool) (held s : Text)
    → feed (record { inside_think = b; buffer = held; disabled = false }) (text_chunk s)
      ≡ (sorted_delta (scan 0 b (held ++ s)), running (scan 0 b (held ++ s)))
unfolding feed
feed-text_chunk b held s =
    ap (λ (r : Scanned). (sorted_delta r, running r))
      (feed_loop-scan (suc (length (held ++ s))) b (held ++ s) (omega arith))

-- Feeding answer text in two fragments puts out what feeding it in one does, and leaves the same
-- filter.
pub feed-append :
    (b : Bool) (held s t : Text)
    → let f : Filter = record { inside_think = b; buffer = held; disabled = false } in
      let (out, f') = feed f (text_chunk s) in
      let (more, f'') = feed f' (text_chunk t) in feed f (text_chunk (s ++ t)) ≡ (out +Δ more, f'')
feed-append b held s t =
    rw
      (
        feed-text_chunk b held s,
        feed-text_chunk b held (s ++ t),
        feed-text_chunk (scan 0 b (held ++ s)).inside (scan 0 b (held ++ s)).held t,
      )
      (ap (λ (r : Scanned). (sorted_delta r, running r))
        (rw (← append_assoc held s t) (scan-append 0 b (held ++ s) t (omega arith))))

feed_all-cons :
    (f : Filter) (d : Delta) (ds : List Delta)
    → feed_all f (d ∷ ds)
      ≡ ((feed f d).0 +Δ (feed_all (feed f d).1 ds).0, (feed_all (feed f d).1 ds).1)
unfolding feed_all
feed_all-cons f d ds = refl

feed_all-nil : (f : Filter) → feed_all f [] ≡ (record { content = []; reasoning = [] }, f)
unfolding feed_all
feed_all-nil f = refl

-- Fragments of answer text, fed to the filter that a pass over `s` leaves, go on with that pass.
feed_all-running :
    (b : Bool) (s : Text) (ss : List Text)
    → let (out, f) = feed_all (running (scan 0 b s)) (map text_chunk ss) in
      let r = scan 0 b (s ++ whole ss) in
      ◌≡◌ {A = Delta × Filter} (sorted_delta (scan 0 b s) +Δ out, f) (sorted_delta r, running r)
feed_all-running b s [] =
    rw (feed_all-nil (running (scan 0 b s)), append-nil, append-nil, append-nil)
feed_all-running b s (t ∷ ss) =
    let r = scan 0 b s in
    let q = scan 0 r.inside (r.held ++ t) in
    let out = (feed_all (running q) (map text_chunk ss)).0 in
    let ih = rw (scan-append 0 b s t (omega arith)) at (feed_all-running b (s ++ t) ss) in
    rw
      (
        feed_all-cons (running r) (text_chunk t) (map text_chunk ss),
        feed-text_chunk r.inside r.held t,
        ← append_assoc s t (whole ss),
        ← append_assoc r.content q.content out.content,
        ← append_assoc r.reasoning q.reasoning out.reasoning,
      )
      ih

-- What a filter puts out for the fragments of a stream, the flush at its end included.
unfoldable pub drain : Filter → List Delta → Delta
unfolding feed_all flush
drain f ds = let (out, g) = feed_all f ds in out +Δ (flush g).0

-- The reference: one pass over the whole text; what it holds back at the end keeps its side.
unfoldable pub sort_text : Text → Delta
unfolding scan flush
sort_text t = let r = scan 0 false t in sorted_delta r +Δ (flush (running r)).0

-- However a stream of answer text is cut into fragments, the filter puts out, in all, what one
-- pass over the whole text sorts: no tag split between fragments is missed and no byte is lost.
pub drain-sort_text : (ss : List Text) → drain new_filter (map text_chunk ss) ≡ sort_text (whole ss)
unfolding drain sort_text
drain-sort_text ss =
    let h = feed_all-running false [] ss in ap (λ (p : Delta × Filter). p.0 +Δ (flush p.1).0) h

-- A filter that is switched off passes fragments on and keeps its state.
feed-disabled : (f : Filter) (d : Delta) → f.disabled ≡ true → feed f d ≡ (d, f)
unfolding feed
feed-disabled f d h = ground arith

-- The texts of all fragments.
abbrev pub total : List Delta → Delta
total [] = record { content = []; reasoning = [] }
total (d ∷ ds) = d +Δ total ds

pub feed_all-disabled :
    (f : Filter) (ds : List Delta) → f.disabled ≡ true → feed_all f ds ≡ (total ds, f)
feed_all-disabled f [] h = feed_all-nil f
feed_all-disabled f (d ∷ ds) h =
    rw (feed_all-cons f d ds, feed-disabled f d h, feed_all-disabled f ds h)

feed-reasoning :
    (f : Filter) (d : Delta) → d.reasoning ≢ [] → feed f d ≡ (d, record f { disabled = true })
unfolding feed
feed-reasoning f d h = ground arith

-- Once the provider sends reasoning of its own the fragments pass unchanged, and text that was
-- held back before comes out behind all of them, at the end of the stream.
pub drain-reasoning :
    (held : Text) (d : Delta) (ds : List Delta)
    → d.reasoning ≢ []
    → drain (record { inside_think = false; buffer = held; disabled = false }) (d ∷ ds)
      ≡ d +Δ total ds +Δ record { content = held; reasoning = [] }
unfolding drain
drain-reasoning held d ds h =
    let f : Filter = record { inside_think = false; buffer = held; disabled = false } in
    rw (feed-reasoning f d h, feed_all-disabled (record f { disabled = true }) ds refl)
      (ap (λ (e : Delta). d +Δ total ds +Δ e) (flush_held held))
  where
    flush_held :
        (s : Text)
        → (flush (record { inside_think = false; buffer = s; disabled = true })).0
          ≡ record { content = s; reasoning = [] }
    flush_held [] = refl
    flush_held (c ∷ s) = refl
