-- ===== src/Streaming.antt =====
-- smolllm/streaming.go: one leg's server-sent events, line by line. `Decoders` stands for
-- encoding/json; the time to the first token is left out.
use smolllm_go.Prelude.{
  Bool, true, false, not, ◌||◌, Option, none, some, List, [], ◌∷◌, if◌then◌else◌, drop,
}
use smolllm_go.Prelude.Int.{ℤ, pos}
use smolllm_go.Text.{Text, lit, text_eq, is_empty, has_prefix, trim_space}
use smolllm_go.Errors.{str, Err, plain, wrap, Result, ok, err}
use smolllm_go.ThinkFilter.{Delta, delta_is_empty, Filter, new_filter, feed, flush}
use smolllm_go.ToolCalls.{ToolCall, ToolCallDelta, result, sorted_indexes}
use smolllm_go.Usage.{UsageChunk, ReportedUsage, parse_usage, new_usage}
use smolllm_go.Sink.{ChainState, text, reasoning_items, feed_tools}

-- streamDelta
pub record StreamDelta : Type 0 where
  pub content : Option Text
  pub reasoning_content : Option Text
  pub reasoning : Option Text
  pub tool_calls : List ToolCallDelta
  pub reasoning_items : List Text

-- streamChoice
pub record StreamChoice : Type 0 where
  pub delta : Option StreamDelta
  pub finish_reason : Option Text

-- streamChunk, its error as raw JSON
pub record StreamChunk : Type 0 where
  pub choices : List StreamChoice
  pub usage : Option UsageChunk
  pub error : Text

-- json.Unmarshal into a streamChunk, into the message of an error object, and into a string.
pub record Decoders : Type 0 where
  pub chunk : Text → Result StreamChunk
  pub error_message : Text → Option Text
  pub error_string : Text → Option Text

-- legOutcome
pub record LegOutcome : Type 0 where
  pub usage : ReportedUsage
  pub finish_reason : Text
  pub tool_calls : List ToolCall
  pub tool_indexes : List ℤ
  pub failure : Option Err

-- isJSONNull
unfoldable pub is_json_null : Text → Bool
is_json_null raw = is_empty (trim_space raw) || text_eq (trim_space raw) (lit "null")

abbrev pub nonempty_or : Option Text → Text → Text
nonempty_or none d = d
nonempty_or (some []) d = d
nonempty_or (some (c ∷ s)) d = c ∷ s

-- streamErrorMessage
unfoldable pub stream_error_message : Decoders → Text → Text
stream_error_message dec raw =
    nonempty_or (dec.error_message raw) (nonempty_or (dec.error_string raw) raw)

-- extractReasoning
unfoldable pub extract_reasoning : StreamDelta → Text
extract_reasoning d = nonempty_or d.reasoning_content (nonempty_or d.reasoning [])

-- What the parser keeps of a leg: `usage`, `finishReason` and the sink.
pub record Parsed : Type 0 where
  pub usage : ReportedUsage
  pub finish_reason : Text
  pub sink : ChainState

abbrev pub empty_delta : Delta
empty_delta = record { content = []; reasoning = [] }

abbrev pub payload_of : Text → Option Text
payload_of line =
    let trimmed = trim_space line in
    if is_empty trimmed
      || text_eq trimmed (lit "data: [DONE]")
      || not (has_prefix (lit "data:") trimmed)
    then none
    else if is_empty (trim_space (drop 5 trimmed))
    then none
    else some (trim_space (drop 5 trimmed))

abbrev pub note_usage : Option UsageChunk → Parsed → Parsed
note_usage none p = p
note_usage (some u) p = record p { usage = record { usage = parse_usage u; reported = true } }

abbrev pub note_finish : List StreamChoice → Parsed → Parsed
note_finish [] p = p
note_finish (c ∷ cs) p = elim c.finish_reason [ none ↦ p | some r ↦ record p { finish_reason = r } ]

abbrev pub first_delta : List StreamChoice → Option StreamDelta
first_delta [] = none
first_delta (c ∷ cs) = c.delta

abbrev pub text_of : Option Text → Text
text_of none = []
text_of (some t) = t

-- The part of parseChunkLine behind the choice's delta.
unfoldable pub apply_delta : StreamDelta → Parsed → Delta × Parsed
unfolding feed_tools reasoning_items extract_reasoning
apply_delta d p = (
  record { content = text_of d.content; reasoning = extract_reasoning d },
  record p { sink = reasoning_items d.reasoning_items (feed_tools d.tool_calls p.sink) },
)

unfoldable pub apply_chunk : Decoders → StreamChunk → Parsed → Result Delta × Parsed
unfolding apply_delta stream_error_message is_json_null
apply_chunk dec chunk p =
    if not (is_json_null chunk.error)
    then (
      err (
          plain (
            str (lit "provider reported a stream error: ")
            ∷ str (stream_error_message dec chunk.error)
            ∷ [])),
      p,
    )
    else let q = note_finish chunk.choices (note_usage chunk.usage p) in
      elim (first_delta chunk.choices) [
        | none ↦ (ok empty_delta, q)
        | some d ↦ let (out, r) = apply_delta d q in (ok out, r)
      ]

-- parseChunkLine
unfoldable pub parse_chunk_line : Decoders → Text → Parsed → Result Delta × Parsed
unfolding apply_chunk
parse_chunk_line dec line p = elim (payload_of line) [
  | none ↦ (ok empty_delta, p)
  | some payload ↦ elim (dec.chunk payload) [
    | err e ↦ (err (wrap (str (lit "malformed streaming chunk: ") ∷ []) e []), p)
    | ok chunk ↦ apply_chunk dec chunk p
  ]
]

-- A body as the scanner gives it: each line with the error of the context at the time it is read,
-- the scanner's error at the end, and the context's.
pub record Wire : Type 0 where
  pub lines : List (Text × Option Err)
  pub scan_error : Option Err
  pub context_error : Option Err

unfoldable pub write_delta : Delta → ChainState → ChainState
unfolding text
write_delta d s = if delta_is_empty d then s else text d s

-- The loop over scanner.Scan.
unfoldable pub read_lines :
    Decoders → List (Text × Option Err) → Filter → Parsed → Option Err × Filter × Parsed
unfolding parse_chunk_line feed write_delta
read_lines dec [] f p = (none, f, p)
read_lines dec ((line, some e) ∷ rest) f p = (some e, f, p)
read_lines dec ((line, none) ∷ rest) f p =
    let (r, q) = parse_chunk_line dec line p in
    elim r [
      | err e ↦ (some e, f, q)
      | ok d ↦
          let (out, g) = feed f d in
          read_lines dec rest g (record q { sink = write_delta out q.sink })
    ]

abbrev pub first_failure : Option Err → Option Err → Option Err
first_failure none b = b
first_failure (some e) b = some e

-- consumeLegStream
unfoldable pub consume_leg_stream : Decoders → Wire → ChainState → LegOutcome × ChainState
unfolding read_lines flush write_delta result sorted_indexes
consume_leg_stream dec wire s =
    let start : Parsed = record {
      usage = record { usage = new_usage (pos 0) (pos 0) (pos 0) (pos 0) false; reported = false };
      finish_reason = [];
      sink = s;
    } in
    let (e, f, p) = read_lines dec wire.lines new_filter start in
    let sink = write_delta (flush f).0 p.sink in
    (
      record {
        usage = p.usage;
        finish_reason = p.finish_reason;
        tool_calls = result sink.acc.tools;
        tool_indexes = sorted_indexes sink.acc.tools;
        failure = first_failure e (first_failure wire.scan_error wire.context_error);
      },
      sink,
    )
