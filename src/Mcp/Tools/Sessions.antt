-- ===== src/Mcp/Tools/Sessions.antt =====
-- Every tool closes what it opened.
use xmc.Prelude.{ℕ, Bool, true, false, Option, none, some, List, [], ◌∷◌, ◌≡◌, refl, Text}
use xmc.Errors.{GoError}
use xmc.Backends.{Read, RequestOptions}
use xmc.Backends.Request
use xmc.Mcp.Tools.{
  send_tool_options, send_tool, publish_tool_options, publish_tool, read_options, read_messages,
  consume_options, subscribe_loop, consume_tool,
}
use xmc.Mcp.Tools.Serve.{
  request_tool_options, default_request_call, request_call, request_then, request_once,
  request_connected, request_tool, ping_then, ping_tool, inspect_then, list_tool, stats_tool,
  purge_then, purge_tool, ToolCall, send, request, peek, receive, publish, consume, ping,
  list_queues, list_topics, queue_stats, purge_queue, run_call, run_calls,
}
use xmc.Mcp.Tools.Wire.{
  json_result, Calls, sent, subscribed, Broker, ConsumeArgs, count_of, consume_failed,
  consumed_from, note_calls,
}
use xmc.Mcp.Tools.Phases.{
  if-keeps, read_loop-keeps, connection-idle, counted-idle, named-idle, send_loop-open,
  publish_loop-open, read_loops-open, idle, opened, phase,
}

request_call-open :
    (b : Broker) (o : RequestOptions) (log : Calls)
    → phase log ≡ opened
    → phase (request_call b.native_request b o log).1 ≡ opened
unfolding request_call default_request_call Request.default_request Request.exchange
request_call-open b o log h = go b.native_request
  where
    p : RequestOptions
    p = Request.request_options b.random.0 b.random.1 o

    qb : Request.Exchange
    qb = record {
      send = b.send log;
      receive = b.receive (sent (Request.send_of p) (b.send log (Request.send_of p)) ∷ log);
    }

    asked :
        (e : Option GoError)
        → b.send log (Request.send_of p) ≡ e
        → phase (note_calls b log (Request.exchange qb p).1) ≡ opened
    asked (some e) t = rw (t, h) refl
    asked none t = rw (t, h) refl

    go : (f : Option (Calls → RequestOptions → Read)) → phase (request_call f b o log).1 ≡ opened
    go (some native) = rw h refl
    go none = asked (b.send log (Request.send_of p)) refl

inspect-idle :
    (e : Option GoError) (log : Calls) → phase log ≡ idle → phase (inspect_then e log).1 ≡ idle
inspect-idle (some e) log h = rw h refl
inspect-idle none log h = rw h refl

purge_then-idle :
    (e : Option GoError) (queue : Text) (log : Calls)
    → phase log ≡ idle
    → phase (purge_then e queue log).1 ≡ idle
purge_then-idle (some e) queue log h = rw h refl
purge_then-idle none queue log h = rw h refl

purge-idle :
    (b : Broker) (queue : Text) (confirm : Bool) (log : Calls)
    → phase log ≡ idle
    → phase (purge_tool b queue confirm log).1 ≡ idle
unfolding purge_tool
purge-idle b [] confirm log h = h
purge-idle b (c ∷ queue) confirm log h =
    if-keeps (λ l. phase l ≡ idle) confirm _ _
      (purge_then-idle (b.purge log (c ∷ queue)) (c ∷ queue) log h) h

subscribe_loop-open :
    (b : Broker) (a : ConsumeArgs) (n : ℕ) (log : Calls)
    → phase log ≡ opened
    → phase (subscribe_loop b a n log).1 ≡ opened
unfolding subscribe_loop
subscribe_loop-open b a n log h =
    read_loop-keeps (λ l. phase l ≡ opened) _ (subscribed (consume_options a)) consume_failed
      (λ ms. json_result b (consumed_from a.topic ms)) (λ r l k. rw k refl) n [] log h

pub run_call-idle :
    (b : Broker) (t : ToolCall) (log : Calls) → phase log ≡ idle → phase (run_call b t log).1 ≡ idle
unfolding run_call send_tool publish_tool read_messages consume_tool request_tool request_connected
    request_once request_then ping_tool list_tool stats_tool purge_tool
run_call-idle b (send a) log h =
    counted-idle _ (count_of a.count) _ log
      (λ n. connection-idle (b.connect log) _ log (send_loop-open b (send_tool_options a) n n) h) h
run_call-idle b (publish a) log h =
    counted-idle _ (count_of a.count) _ log
      (λ n.
        connection-idle (b.connect log) _ log (publish_loop-open b (publish_tool_options a) n n) h)
      h
run_call-idle b (peek a) log h =
    counted-idle _ (count_of a.count) _ log
      (λ n.
        connection-idle (b.connect log) _ log (read_loops-open false b (read_options a false) n) h)
      h
run_call-idle b (receive a) log h =
    counted-idle _ (count_of a.count) _ log
      (λ n.
        connection-idle (b.connect log) _ log (read_loops-open true b (read_options a true) n) h)
      h
run_call-idle b (consume a) log h =
    counted-idle _ (count_of a.count) _ log
      (λ n. connection-idle (b.connect log) _ log (subscribe_loop-open b a n) h) h
run_call-idle b (request a) log h =
    named-idle a.address (request_connected b a) log
      (connection-idle (b.connect log) (request_once b a) log
        (request_call-open b (request_tool_options a)) h)
      h
run_call-idle b ping log h = go (b.connect log)
  where
    go : (e : Option GoError) → phase (ping_then e log).1 ≡ idle
    go (some e) = rw h refl
    go none = rw h refl
run_call-idle b list_queues log h = inspect-idle (b.inspect log) log h
run_call-idle b list_topics log h = inspect-idle (b.inspect log) log h
run_call-idle b (queue_stats queue) log h =
    named-idle queue (list_tool b) log (inspect-idle (b.inspect log) log h) h
run_call-idle b (purge_queue queue confirm) log h = purge-idle b queue confirm log h

-- After any calls of tools, whatever the broker answered, no connection and no cursor is open; each
-- was opened when none was, used only while it was open, and the cursor closed before its connection.
pub tools-idle :
    (b : Broker) (ts : List ToolCall) (log : Calls)
    → phase log ≡ idle
    → phase (run_calls b ts log) ≡ idle
unfolding run_calls
tools-idle b [] log h = h
tools-idle b (t ∷ ts) log h = tools-idle b ts _ (run_call-idle b t log h)
