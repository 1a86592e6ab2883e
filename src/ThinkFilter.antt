-- ===== src/ThinkFilter.antt =====
-- The streaming filter of smolllm/utils.go that turns text inside <think> tags into reasoning:
-- thinkTagFilter with Feed and Flush, and partialSuffix. `feed_loop` is the `for text != ""` loop
-- of Feed, on fuel: a round consumes at least a tag, so the length of the text and one is enough.
use smolllm_go.Prelude.{
  ℕ, zero, suc, ◌+◌, ◌-◌, ◌*◌, ◌/◌, ◌%◌, ◌^◌, ◌≤◌, ◌<◌, min, ◌≡◌, refl, sym, ap, ◌∙◌, ◌≢◌, ◌↔◌, ◌⊎◌,
  inl, inr, Bool, true, false, not, ◌&&◌, ◌||◌, Option, none, some, List, [], ◌∷◌, ◌++◌, map,
  append-nil, append_assoc, arith, ltb, leb, ◌==◌, if◌then◌else◌, ==_iff, ==_refl, Bool-cases,
  Option-cases, is_some, length, get_elem?, take, drop, length-append, take-append-drop,
  length-drop, drop-length, length-map, All, All-append,
}
use smolllm_go.Text.{
  Text, lit, text_eq, is_empty, has_prefix, has_suffix, trim_space, trim_left, trim_right,
  trim_suffix, split, join, index, lower_byte, upper_byte, itoa,
}
pub mod Scan
pub mod Loop
pub mod Streaming
pub mod Tests

-- delta of smolllm/streaming.go
pub record Delta : Type 0 where
  pub content : Text
  pub reasoning : Text

-- delta.IsEmpty
abbrev pub delta_is_empty : Delta → Bool
delta_is_empty d = is_empty d.content && is_empty d.reasoning

-- thinkTagFilter
pub record Filter : Type 0 where
  pub inside_think : Bool
  pub buffer : Text
  pub disabled : Bool

abbrev pub new_filter : Filter
new_filter = record { inside_think = false; buffer = []; disabled = false }

abbrev pub open_tag : Text
open_tag = lit "<think>"

abbrev pub close_tag : Text
close_tag = lit "</think>"

-- The `for i := maxLen; i > 0; i--` loop of partialSuffix.
unfoldable pub partial_from : ℕ → Text → Text → ℕ
partial_from zero text tag = 0
partial_from (suc k) text tag =
    let rest = partial_from k text tag in
    if text_eq (drop (length text - suc k) text) (take (suc k) tag) then suc k else rest

-- partialSuffix
unfoldable pub partial_suffix : Text → Text → ℕ
unfolding partial_from
partial_suffix text tag =
    let max_len = length tag - 1 in
    partial_from (if ltb (length text) max_len then length text else max_len) text tag

-- What a run of the loop leaves: the fields of the filter, and the parts that it collected.
pub record Sorted : Type 0 where
  pub inside : Bool
  pub held : Text
  pub reasoning_parts : List Text
  pub content_parts : List Text

-- The parts of an ended loop.
abbrev pub ended : Bool → Text → Sorted
ended inside held = record {
  inside = inside;
  held = held;
  reasoning_parts = [];
  content_parts = [];
}

abbrev pub add_reasoning : Text → Sorted → Sorted
add_reasoning part r = record r { reasoning_parts = part ∷ r.reasoning_parts }

abbrev pub add_content : Text → Sorted → Sorted
add_content part r = record r { content_parts = part ∷ r.content_parts }

-- The branch without a tag: it holds back a partial tag at the end and breaks.
unfoldable pub hold : Bool → Text → Sorted
unfolding partial_suffix
hold true text =
    let buffered = partial_suffix text close_tag in
    let kept : Text = take (length text - buffered) text in
    let rest = ended true (drop (length text - buffered) text) in
    if is_empty kept then rest else add_reasoning kept rest
hold false text =
    let buffered = partial_suffix text open_tag in
    let kept : Text = take (length text - buffered) text in
    let rest = ended false (drop (length text - buffered) text) in
    if is_empty kept then rest else add_content kept rest

unfoldable pub feed_loop : ℕ → Bool → Text → Sorted
unfolding hold index
feed_loop zero inside text = ended inside []
feed_loop (suc fuel) inside [] = ended inside []
feed_loop (suc fuel) true (c ∷ s) = elim (index close_tag (c ∷ s)) [
  | none ↦ hold true (c ∷ s)
  | some end ↦
      add_reasoning (take end (c ∷ s))
        (feed_loop fuel false (drop (end + length close_tag) (c ∷ s)))
]
feed_loop (suc fuel) false (c ∷ s) = elim (index open_tag (c ∷ s)) [
  | none ↦ hold false (c ∷ s)
  | some start ↦
      let rest = feed_loop fuel true (drop (start + length open_tag) (c ∷ s)) in
      if ltb 0 start then add_content (take start (c ∷ s)) rest else rest
]

-- thinkTagFilter.Feed
unfoldable pub feed : Filter → Delta → Delta × Filter
unfolding feed_loop join
feed f chunk =
    let text : Text = f.buffer ++ chunk.content in
    let r = feed_loop (suc (length text)) f.inside_think text in
    if not (is_empty chunk.reasoning)
    then (chunk, record f { disabled = true })
    else if f.disabled
    then (chunk, f)
    else (
      record { content = join [] r.content_parts; reasoning = join [] r.reasoning_parts },
      record { inside_think = r.inside; buffer = r.held; disabled = false },
    )

-- thinkTagFilter.Flush
unfoldable pub flush : Filter → Delta × Filter
flush f =
    if is_empty f.buffer
    then (record { content = []; reasoning = [] }, f)
    else if f.inside_think
    then (record { content = []; reasoning = f.buffer }, record f { buffer = [] })
    else (record { content = f.buffer; reasoning = [] }, record f { buffer = [] })
