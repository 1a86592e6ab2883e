-- ===== src/Lib.antt =====
-- smolllm-go, a Go client for language models that streams an answer from one of several models with
-- retries and fallback.
--
-- A call runs a chain of legs (smolllm/chain.go): for each model it resolves a provider, a base URL
-- and a key (smolllm/transport.go, smolllm/providers.go), draws a key and URL from the balancer
-- (smolllm/balancer.go), sends a request and reads the stream of the answer (smolllm/streaming.go),
-- which passes a filter for think tags (smolllm/utils.go) and the accumulator of tool calls
-- (smolllm/toolcall.go). What arrives becomes events of an event stream (smolllm/eventstream.go)
-- and part of the message (smolllm/message.go). A failed leg is classified (smolllm/errors.go): the
-- chain retries it, advances to the next model, or ends.
--
-- Files and what they are about:
--   Prelude, Text: numbers, lists, 64-bit integers and texts. A Go string is the list of its bytes.
--   Call, Errors, Retry: the prepared call, error values with errors.Is and errors.As as walks over
--     the causes, Classify, and smolllm/retry.go.
--   ThinkFilter: thinkTagFilter. `feed` and `flush` are Feed and Flush; the loop of Feed runs on
--     fuel one above the length of the text, which is enough since each round drops a tag.
--   Balancer: simpleBalancer; the draw of the random source is an argument.
--   ToolCalls: toolCallAccumulator, its slots as an association list by slot number.
--     ToolCalls.Wire has the JSON of a call, encoding/json as an argument.
--   Usage, Message, Options: smolllm/usage.go, smolllm/message.go, smolllm/options.go and
--     smolllm/extra_body.go. Counts are 64-bit integers that wrap.
--   EventStream: its state and operations; EventStream.Pump has the pump goroutine, the call and
--     the consumer as steps of a system that interleave freely; `notify` and the wait for a receiver
--     are left out, so the pump is never held back, and finish is one step. EventStream.Refines has
--     the queue that a caller sees.
--   Providers, Transport, Request, Selector: what a leg resolves to, Request.Validate, and the
--     models a call tries.
--   Compose: composeMessages of smolllm/request.go and the images; the file system, the tables of
--     mime types and base64 are an argument.
--   Sink, Streaming, Backticks: chainState, consumeLegStream, stripBackticks.
--   Float: the bits of a float64 and the comparisons the options use.
--   Configuration: smolllm/validation.go. Validate is given what the selector hands out.
--   Exchange, Leg: the requests and responses of an attempt, and attemptLeg with guardResponse.
--   Embedding: smolllm/embed.go, with the sort of its items.
--   Client: smolllm/client.go, Stream and Ask. Command: cmd/cli/main.go, where a Go panic is `none`.
--   Chain: runChain, runLeg and the end of a call. What an attempt meets outside the program
--     is a `World`, one for each attempt: the draw, the responses, whether the timers fired. The
--     codecs of encoding/json are arguments. The retry loop counts down from MaxRetries, so it
--     needs no fuel.
--
-- Not modelled: encoding/json, net/http and the SDK's types (arguments, or left out where nothing
-- reads them), log lines, times and durations but the backoff, the arithmetic of floats,
-- the regular expression of extractThinkTags, mergeExtraBody and encodeTools (part of the encoder
-- of a request), AttachReasoning, and main and cliLogger of cmd/cli.
pub mod Prelude
pub mod Text
pub mod Float
pub mod Call
pub mod Errors
pub mod ThinkFilter
pub mod Balancer
pub mod ToolCalls
pub mod Usage
pub mod Message
pub mod Options
pub mod EventStream
pub mod Providers
pub mod Transport
pub mod Request
pub mod Compose
pub mod Sink
pub mod Streaming
pub mod Backticks
pub mod Exchange
pub mod Leg
pub mod Chain
pub mod Retry
pub mod Selector
pub mod Configuration
pub mod Client
pub mod Embedding
pub mod Command
