-- ===== src/Mcp/Tools/Serve.antt =====
-- The tools request and ping and those of the management hooks, and NewServerFromDeps of
-- mcp/tools.go: a run of one tool, and which tools a broker is given.
use xmc.Prelude.{
  Bool, true, false, ◌||◌, Option, none, some, List, [], ◌∷◌, Text, codes, if◌then◌else◌,
}
use xmc.Errors.{
  GoError, sentinel, plain, foreign, wrapped, request_send, is_error, no_message_available,
  deadline_exceeded, reply_mismatch,
}
use xmc.Backends.{Read, RequestOptions}
use xmc.Backends.Request
use xmc.Mcp.Tools.{with_connection, send_tool, publish_tool, read_messages, consume_tool}
use xmc.Mcp.Tools.Wire.{
  Calls, connected, closed, sent, requested, purged, inspected, Broker, SendArgs, RequestArgs,
  ReadArgs, PublishArgs, ConsumeArgs, Failure, missing, refused_purge, no_reply, unreachable,
  request_not_sent, wrong_reply, request_failed, purge_failed, manage_failed, replied, pong, listed,
  purged_from, Reply, done, failed, Ran, json_result, or_default, given, note_calls,
}

abbrev pub request_tool_options : RequestArgs → RequestOptions
request_tool_options a = record {
  address = a.address;
  message = a.body;
  properties = a.properties;
  content_type = or_default a.content_type (codes "text/plain");
  message_id = [];
  correlation_id = a.correlation_id;
  reply_to = or_default a.reply_to Request.default_reply_queue;
  priority = given a.priority 4;
  persistent = false;
  timeout = given a.timeout Request.default_request_timeout;
}

-- defaultRequest of broker/backends/request.go at this broker
unfoldable pub default_request_call : Broker → RequestOptions → Calls → Read × Calls
unfolding Request.default_request Request.request_options
default_request_call b opts log =
    let o = Request.send_of (Request.request_options b.random.0 b.random.1 opts) in
    let r =
      Request.default_request
        (record { send = b.send log; receive = b.receive (sent o (b.send log o) ∷ log) }) b.random.0
        b.random.1 opts in
    (r.0, note_calls b log r.1)

-- backends.Request
unfoldable pub request_call :
    Option (Calls → RequestOptions → Read) → Broker → RequestOptions → Calls → Read × Calls
unfolding default_request_call
request_call (some native) b opts log = (native log opts, requested opts (native log opts) ∷ log)
request_call none b opts log = default_request_call b opts log

-- errors.AsType[*backends.RequestSendError](err)
abbrev pub as_send_error : GoError → Option GoError
as_send_error (request_send e) = some e
as_send_error (wrapped p e q) = as_send_error e
as_send_error (sentinel s) = none
as_send_error (plain t) = none
as_send_error (foreign net t) = none

unfoldable pub request_failure : Option GoError → GoError → Failure
unfolding is_error
request_failure (some s) e = request_not_sent s
request_failure none e =
    if is_error e deadline_exceeded || is_error e no_message_available
    then no_reply
    else if is_error e reply_mismatch
    then wrong_reply e
    else request_failed e

unfoldable pub request_reply : Broker → Read → Reply
unfolding request_failure json_result
request_reply b r = elim r.error [
  | some e ↦ failed (request_failure (as_send_error e) e)
  | none ↦ elim r.message [ none ↦ failed no_reply | some m ↦ json_result b (replied m) ]
]

unfoldable pub request_then : Broker → Read × Calls → Ran
unfolding request_reply
request_then b r = (request_reply b r.0, r.1)

abbrev pub named : Text → (Calls → Ran) → Calls → Ran
named [] run log = (failed missing, log)
named (c ∷ name) run log = run log

unfoldable pub request_once : Broker → RequestArgs → Calls → Ran
unfolding request_call request_then
request_once b a log = request_then b (request_call b.native_request b (request_tool_options a) log)

unfoldable pub request_connected : Broker → RequestArgs → Calls → Ran
unfolding with_connection request_once
request_connected b a log = with_connection (b.connect log) (request_once b a) log

-- The handler of registerRequest
unfoldable pub request_tool : Broker → RequestArgs → Calls → Ran
unfolding request_connected
request_tool b a log = named a.address (request_connected b a) log

-- The handler of registerPing
abbrev pub ping_then : Option GoError → Calls → Ran
ping_then (some e) log = (failed (unreachable e), connected (some e) ∷ log)
ping_then none log = (done pong, closed ∷ connected none ∷ log)

unfoldable pub ping_tool : Broker → Calls → Ran
ping_tool b log = ping_then (b.connect log) log

-- The handlers of registerListQueues and registerListTopics, and of registerQueueStats with a name
abbrev pub inspect_then : Option GoError → Calls → Ran
inspect_then (some e) log = (failed (manage_failed e), inspected (some e) ∷ log)
inspect_then none log = (done listed, inspected none ∷ log)

unfoldable pub list_tool : Broker → Calls → Ran
list_tool b log = inspect_then (b.inspect log) log

unfoldable pub stats_tool : Broker → Text → Calls → Ran
unfolding list_tool
stats_tool b queue log = named queue (list_tool b) log

-- The handler of registerPurgeQueue
abbrev pub purge_then : Option GoError → Text → Calls → Ran
purge_then (some e) queue log = (failed (purge_failed e), purged queue (some e) ∷ log)
purge_then none queue log = (done (purged_from queue), purged queue none ∷ log)

unfoldable pub purge_tool : Broker → Text → Bool → Calls → Ran
purge_tool b queue confirm log =
    named queue
      (λ before.
        if confirm
        then purge_then (b.purge before queue) queue before
        else (failed refused_purge, before))
      log

-- A call of a tool with its decoded arguments.
pub data ToolCall : Type 0 where
  send : SendArgs → ToolCall
  request : RequestArgs → ToolCall
  peek receive : ReadArgs → ToolCall
  publish : PublishArgs → ToolCall
  consume : ConsumeArgs → ToolCall
  ping list_queues list_topics : ToolCall
  queue_stats : Text → ToolCall
  purge_queue : Text → Bool → ToolCall

unfoldable pub run_call : Broker → ToolCall → Calls → Ran
unfolding send_tool request_tool read_messages publish_tool consume_tool ping_tool list_tool
    stats_tool purge_tool
run_call b (send a) log = send_tool b a log
run_call b (request a) log = request_tool b a log
run_call b (peek a) log = read_messages b a false log
run_call b (receive a) log = read_messages b a true log
run_call b (publish a) log = publish_tool b a log
run_call b (consume a) log = consume_tool b a log
run_call b ping log = ping_tool b log
run_call b list_queues log = list_tool b log
run_call b list_topics log = list_tool b log
run_call b (queue_stats queue) log = stats_tool b queue log
run_call b (purge_queue queue confirm) log = purge_tool b queue confirm log

-- The annotation readOnlyHint of the tool.
abbrev pub read_only_hint : ToolCall → Bool
read_only_hint (send a) = false
read_only_hint (request a) = false
read_only_hint (peek a) = true
read_only_hint (receive a) = false
read_only_hint (publish a) = false
read_only_hint (consume a) = false
read_only_hint ping = true
read_only_hint list_queues = true
read_only_hint list_topics = true
read_only_hint (queue_stats queue) = true
read_only_hint (purge_queue queue confirm) = false

-- Calls of tools one after the other.
unfoldable pub run_calls : Broker → List ToolCall → Calls → Calls
unfolding run_call
run_calls b [] log = log
run_calls b (t ∷ ts) log = run_calls b ts (run_call b t log).1
