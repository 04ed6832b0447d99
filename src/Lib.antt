-- ===== src/Lib.antt =====
-- A verification library for xmc, the messaging command line of this repository.
--
-- The program reads and writes messages of many brokers through one interface. Its core is in
-- cmd (the commands, the shell's pipelines, the reconnecting adapters), broker/backends (messages,
-- options, errors, request/reply) and mcp (a server that offers the operations as tools). The
-- broker packages and the terminal interface call third-party libraries; what they answer is a
-- parameter here.
--
--   Prelude     Boolean tests, lists, texts (lists of character codes), the integers of flags.
--   Errors      Go errors: sentinels, wrapping, and isConnectionError of cmd/reconnect.go.
--   Values      the dynamic values of message properties.
--   Backends    broker/backends: Message, the options, Verbosity, TimeoutDuration; Naming is
--               naming.go, Request is request.go (EnsureCorrelationID, defaultRequest).
--   Reconnect   reconnectingAdapter of cmd/reconnect.go as a state with the history of calls:
--               ensure_connected, reconnect, close, retry_op. with_reconnect is the common body of
--               its methods, and Methods has each of them, of the queue and of the topic adapter.
--   Relay       the loops that move messages. Move is doMove of cmd/move.go, Forward is doForward
--               of cmd/forward.go, Bridge is doBridge of cmd/bridge.go, Reply is doReply of
--               cmd/reply.go. A loop is a function to the trace of its calls.
--   Consume     consumeMessages and outputMessage of cmd/consume.go.
--   Produce     the commands that write: Run is runProduce of cmd/produce.go with the loops of
--               cmd/ndjson.go and cmd/message_helpers.go, Records messageRecord of cmd/ndjson.go and
--               the pruning of cmd/message_schema.go, Targets resolveProduceTarget of cmd/send.go and
--               resolveConsumeTarget of cmd/receive.go.
--   Mcp         mcp/server.go: its data (Mcp.Message), the registry (add_tool), the dispatch (handle,
--               route, tools_call), the transports (Mcp.Transport: serve_stdio,
--               serve_http_message).
--               Mcp.Tools is mcp/tools.go: the handlers of the tools as functions to their reply
--               and the trace of broker calls (Wire has the arguments and calls, Serve the
--               dispatch run_call).
--   Tui         the AI terminal interface as one state (Ui) with the functions of cmd/aikeys.go,
--               cmd/aiproc.go and cmd/aitui.go on it: Prompt, Processes, and Events, where update
--               is the dispatch of keys and messages while no prompt is open and no command is
--               proposed or run. An index out of range sets the field panicked. Contexts has what
--               becomes of the processes' contexts. Capped is cappedBuffer and procWriter, Listing
--               the rows of the sidebar, Commands the classes of commands and trimHistory of
--               cmd/ai.go.
--   Shell       cmd/pipeline.go: Split (splitCommands, splitPipeline, splitOnDelim), Words
--               (shellSplit), Stage (classifyStage, coalesceStages), Framing (runOnePipeline's
--               choice of --ndjson, executeVerb, ensureFlag), Alias (expandAlias).
--   Examples    the theorems at concrete inputs, and tests.
--
-- The parts meet in the shell: a line is split into commands, commands into stages, stages are
-- classified and coalesced into blocks, and a block runs a verb such as forward on adapters that
-- reconnect. Errors decides for the adapters which errors mean a lost connection.
--
-- The environment of a loop is a function of all that has happened before, so it stands for any
-- broker, shell and clock. Loops that the source runs without a bound take fuel, one unit for each
-- round; a result that ran out of fuel is the trace so far, so a theorem on the trace holds at every
-- moment of an endless run. Where the source ends, a theorem gives the fuel that is enough. The
-- waits that the backoff library grants are a list, which bounds retryOp. expandAlias takes the
-- template's length as fuel.
--
-- An interface for AI (Tui) runs pipelines of the shell in the background, whose goroutines send
-- messages; all orders of keys and messages are the lists of events.
--
-- Not modelled: pure input and output, the rendering of the terminal interface and the states in
-- which it proposes, edits or runs a command, HTTP clients, third-party client libraries, and the
-- concurrent use of one adapter by several callers. Timeouts are milliseconds; numbers in
-- properties are natural.
pub mod Prelude
pub mod Errors
pub mod Values
pub mod Backends
pub mod Reconnect
pub mod Relay
pub mod Consume
pub mod Mcp
pub mod Produce
pub mod Tui
pub mod Shell
pub mod Examples
