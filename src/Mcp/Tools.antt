-- ===== src/Mcp/Tools.antt =====
-- mcp/tools.go: the tools that the MCP server offers. A tool is run with its decoded arguments; the
-- broker answers from the calls made so far, newest first, so it may answer each call differently.
-- Whether json.MarshalIndent encodes a value is a parameter; the text that it gives, the texts of the
-- failures and the deadline of the call's context are not part of the model. A timeout_seconds is in
-- milliseconds, and 0 when it is negative, which backends treats alike.
pub mod Wire
pub mod Serve
pub mod Phases
pub mod Sessions
pub mod ReadOnly
pub mod Counts
pub mod Reads
use xmc.Prelude.{
  ℕ, zero, suc, ◌+◌, ◌-◌, Bool, true, false, not, ◌&&◌, ◌||◌, Option, none, some, List, [], ◌∷◌,
  ◌++◌, Text, codes, length, is_empty, ℤ, pos, negsuc, if◌then◌else◌,
}
use xmc.Errors.{
  GoError, sentinel, plain, foreign, wrapped, request_send, is_error, no_message_available,
  deadline_exceeded, browse_unsupported, reply_mismatch,
}
use xmc.Backends.{
  Bytes, Message, Read, SendOptions, ReceiveOptions, PublishOptions, SubscribeOptions,
  RequestOptions, normal,
}
use xmc.Backends.Request.{default_reply_queue, default_request_timeout, default_request, Exchange}
use xmc.Mcp.Tools.Wire.{
  Call, Calls, connected, closed, sent, received, browsed, browser_read, browser_closed, published,
  subscribed, requested, purged, inspected, Broker, SendArgs, RequestArgs, ReadArgs, PublishArgs,
  ConsumeArgs, Failure, missing, bad_count, no_connection, send_failed, request_not_sent, no_reply,
  wrong_reply, request_failed, browse_failed, read_failed, publish_failed, consume_failed,
  unreachable, refused_purge, purge_failed, manage_failed, Answer, sent_to, replied, read_from,
  published_to, consumed_from, pong, purged_from, listed, Reply, done, failed, Ran, json_result,
  or_default, count_of, given,
}

-- withQueue and withTopic: the connection is closed when the function is through.
unfoldable pub with_connection : Option GoError → (Calls → Ran) → Calls → Ran
with_connection (some e) fn log = (failed (no_connection e), connected (some e) ∷ log)
with_connection none fn log = let r = fn (connected none ∷ log) in (r.0, closed ∷ r.1)

-- The loops of send and publish: `left` calls are to be made of `count`.
unfoldable pub produce_then :
    Option GoError → Failure → (Option GoError → Call) → (Calls → Ran) → Calls → Ran
produce_then (some e) failure call rest log = (failed failure, call (some e) ∷ log)
produce_then none failure call rest log = rest (call none ∷ log)

-- The error of a call, as the text of the failure is made of it.
abbrev pub error_or : Option GoError → GoError
error_or none = plain []
error_or (some e) = e

unfoldable pub send_loop : Broker → SendOptions → ℕ → ℕ → Calls → Ran
unfolding produce_then
send_loop b opts count zero log = (done (sent_to count opts.queue), log)
send_loop b opts count (suc left) log =
    produce_then (b.send log opts)
      (send_failed (count - suc left) count (error_or (b.send log opts))) (sent opts)
      (send_loop b opts count left) log

unfoldable pub publish_loop : Broker → PublishOptions → ℕ → ℕ → Calls → Ran
unfolding produce_then
publish_loop b opts count zero log = (done (published_to count opts.topic), log)
publish_loop b opts count (suc left) log =
    produce_then (b.publish log opts)
      (publish_failed (count - suc left) count (error_or (b.publish log opts))) (published opts)
      (publish_loop b opts count left) log

-- A read that ended the loop without a failure.
abbrev pub is_end : GoError → Bool
unfolding is_error
is_end e = is_error e no_message_available || is_error e deadline_exceeded

-- The loops of readMessages and consume; `got` are the messages so far.
unfoldable pub read_then :
    (ℕ → GoError → Failure)
    → (List Message → Reply)
    → Read
    → List Message
    → (List Message → Ran)
    → Calls
    → Ran
read_then fail finish r got rest log = elim r.error [
  | some e ↦ if is_end e then (finish got, log) else (failed (fail (length got) e), log)
  | none ↦ elim r.message [ none ↦ (finish got, log) | some m ↦ rest (got ++ m ∷ []) ]
]

unfoldable pub read_loop :
    (Calls → Read)
    → (Read → Call)
    → (ℕ → GoError → Failure)
    → (List Message → Reply)
    → ℕ
    → List Message
    → Calls
    → Ran
unfolding read_then
read_loop next call fail finish zero got log = (finish got, log)
read_loop next call fail finish (suc left) got log =
    read_then fail finish (next log) got
      (λ more. read_loop next call fail finish left more (call (next log) ∷ log))
      (call (next log) ∷ log)

abbrev pub send_tool_options : SendArgs → SendOptions
send_tool_options a = record {
  queue = a.address;
  message = a.body;
  properties = a.properties;
  message_id = a.message_id;
  correlation_id = a.correlation_id;
  reply_to = a.reply_to;
  content_type = or_default a.content_type (codes "text/plain");
  priority = given a.priority 4;
  persistent = a.persistent;
  key = [];
  ttl = a.ttl_ms;
  extra = [];
}

-- A handler's checks: a name that is empty, then a count that is below 1.
abbrev pub counted : Text → Option ℕ → (ℕ → Calls → Ran) → Calls → Ran
counted [] count run log = (failed missing, log)
counted (c ∷ name) none run log = (failed bad_count, log)
counted (c ∷ name) (some n) run log = run n log

-- The handler of registerSend
unfoldable pub send_tool : Broker → SendArgs → Calls → Ran
unfolding with_connection send_loop
send_tool b a log =
    counted a.address (count_of a.count)
      (λ n before.
        with_connection (b.connect before) (send_loop b (send_tool_options a) n n) before)
      log

abbrev pub publish_tool_options : PublishArgs → PublishOptions
publish_tool_options a = record {
  topic = a.topic;
  message = a.body;
  key = a.key;
  properties = a.properties;
  message_id = a.message_id;
  correlation_id = a.correlation_id;
  reply_to = a.reply_to;
  content_type = or_default a.content_type (codes "text/plain");
  priority = 0;
  persistent = false;
  ttl = a.ttl_ms;
  extra = [];
}

-- The handler of registerPublish
unfoldable pub publish_tool : Broker → PublishArgs → Calls → Ran
unfolding with_connection publish_loop
publish_tool b a log =
    counted a.topic (count_of a.count)
      (λ n before.
        with_connection (b.connect before) (publish_loop b (publish_tool_options a) n n) before)
      log

abbrev pub read_options : ReadArgs → Bool → ReceiveOptions
read_options a acknowledge = record {
  queue = a.queue;
  timeout = given a.timeout 2_000;
  wait = false;
  acknowledge = acknowledge;
  verbosity = normal;
  selector = a.selector;
  extra = [];
}

-- The loop of readMessages by Receive, and by the cursor of Browse.
unfoldable pub receive_loop : Broker → ReceiveOptions → ℕ → Calls → Ran
unfolding read_loop json_result
receive_loop b opts n log =
    read_loop (λ before. b.receive before opts) (received opts) read_failed
      (λ ms. json_result b (read_from opts.queue ms)) n [] log

unfoldable pub browser_loop : Broker → ReceiveOptions → ℕ → Calls → Ran
unfolding read_loop json_result
browser_loop b opts n log =
    let r : Ran =
      read_loop b.browser_next browser_read read_failed
        (λ ms. json_result b (read_from opts.queue ms)) n [] log in
    (r.0, browser_closed ∷ r.1)

-- What follows Browse.
unfoldable pub browse_then : Option GoError → Broker → ReceiveOptions → ℕ → Calls → Ran
unfolding browser_loop receive_loop is_error
browse_then none b opts n log = browser_loop b opts n (browsed opts none ∷ log)
browse_then (some e) b opts n log =
    if is_error e browse_unsupported
    then receive_loop b opts n (browsed opts (some e) ∷ log)
    else (failed (browse_failed e), browsed opts (some e) ∷ log)

unfoldable pub peek_loop :
    Option (Calls → ReceiveOptions → Option GoError) → Broker → ReceiveOptions → ℕ → Calls → Ran
unfolding browse_then receive_loop
peek_loop none b opts n log = receive_loop b opts n log
peek_loop (some browse) b opts n log = browse_then (browse log opts) b opts n log

unfoldable pub read_loops : Bool → Broker → ReceiveOptions → ℕ → Calls → Ran
unfolding receive_loop peek_loop
read_loops true b opts n log = receive_loop b opts n log
read_loops false b opts n log = peek_loop b.browse b opts n log

-- readMessages
unfoldable pub read_messages : Broker → ReadArgs → Bool → Calls → Ran
unfolding with_connection read_loops
read_messages b a acknowledge log =
    counted a.queue (count_of a.count)
      (λ n before.
        with_connection (b.connect before) (read_loops acknowledge b (read_options a acknowledge) n)
          before)
      log

abbrev pub consume_options : ConsumeArgs → SubscribeOptions
consume_options a = record {
  topic = a.topic;
  group_id = or_default a.group (codes "xmc-consumer-group");
  timeout = given a.timeout 2_000;
  wait = false;
  verbosity = normal;
  selector = [];
  durable = false;
  acknowledge = false;
  extra = [];
}

unfoldable pub subscribe_loop : Broker → ConsumeArgs → ℕ → Calls → Ran
unfolding read_loop json_result
subscribe_loop b a n log =
    read_loop (λ before. b.subscribe before (consume_options a)) (subscribed (consume_options a))
      consume_failed (λ ms. json_result b (consumed_from a.topic ms)) n [] log

-- The handler of registerConsume
unfoldable pub consume_tool : Broker → ConsumeArgs → Calls → Ran
unfolding with_connection subscribe_loop
consume_tool b a log =
    counted a.topic (count_of a.count)
      (λ n before. with_connection (b.connect before) (subscribe_loop b a n) before) log
