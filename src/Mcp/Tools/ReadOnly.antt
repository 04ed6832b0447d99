-- ===== src/Mcp/Tools/ReadOnly.antt =====
-- The tools with a readOnlyHint change nothing, and a purge wants its confirmation.
use xmc.Prelude.{
  ℕ, Bool, true, false, not, ◌||◌, Option, none, some, List, [], ◌∷◌, ◌≡◌, refl, Text,
  if◌then◌else◌,
}
use xmc.Errors.{GoError, is_error, browse_unsupported}
use xmc.Backends.{ReceiveOptions}
use xmc.Mcp.Tools.{
  with_connection, counted, read_options, receive_loop, browser_loop, browse_then, peek_loop,
  read_loops, read_messages,
}
use xmc.Mcp.Tools.Serve.{
  named, ping_then, ping_tool, inspect_then, list_tool, stats_tool, purge_tool, ToolCall, send,
  request, peek, receive, publish, consume, ping, list_queues, list_topics, queue_stats,
  purge_queue, run_call, read_only_hint,
}
use xmc.Mcp.Tools.Wire.{
  json_result, Call, Calls, connected, closed, sent, received, browsed, browser_read,
  browser_closed, published, subscribed, requested, purged, inspected, Broker, Ran, count_of,
  read_failed, read_from,
}
use xmc.Mcp.Tools.Phases.{if-keeps, read_loop-keeps}

-- The calls that change what the broker holds; a read does when it acknowledges.
abbrev pub is_change : Call → Bool
is_change (connected e) = false
is_change closed = false
is_change (sent o e) = true
is_change (received o r) = o.acknowledge
is_change (browsed o e) = false
is_change (browser_read r) = false
is_change browser_closed = false
is_change (published o e) = true
is_change (subscribed o r) = true
is_change (requested o r) = true
is_change (purged q e) = true
is_change (inspected e) = false

-- The changes among some calls, newest first.
abbrev pub changes : Calls → List Call
changes [] = []
changes (c ∷ log) = let rest = changes log in if is_change c then c ∷ rest else rest

connection-Unchanged :
    (o : Option GoError) (fn : Calls → Ran) (log : Calls)
    → (changes (fn (connected none ∷ log)).1 ≡ changes log)
    → changes (with_connection o fn log).1 ≡ changes log
unfolding with_connection
connection-Unchanged (some e) fn log k = refl
connection-Unchanged none fn log k = k

receive_loop-Unchanged :
    (b : Broker) (o : ReceiveOptions) (n : ℕ) (log l : Calls)
    → o.acknowledge ≡ false
    → changes l ≡ changes log
    → changes (receive_loop b o n l).1 ≡ changes log
unfolding receive_loop
receive_loop-Unchanged b o n log l e h =
    read_loop-keeps (λ l. changes l ≡ changes log) _ (received o) read_failed
      (λ ms. json_result b (read_from o.queue ms)) (λ r l k. rw e k) n [] l h

browser_loop-Unchanged :
    (b : Broker) (o : ReceiveOptions) (n : ℕ) (log l : Calls)
    → changes l ≡ changes log
    → changes (browser_loop b o n l).1 ≡ changes log
unfolding browser_loop
browser_loop-Unchanged b o n log l h =
    read_loop-keeps (λ l. changes l ≡ changes log) _ browser_read read_failed
      (λ ms. json_result b (read_from o.queue ms)) (λ r l k. k) n [] l h

peek-Unchanged :
    (b : Broker) (o : ReceiveOptions) (n : ℕ) (log l : Calls)
    → o.acknowledge ≡ false
    → changes l ≡ changes log
    → changes (read_loops false b o n l).1 ≡ changes log
unfolding read_loops peek_loop browse_then
peek-Unchanged b o n log l e h = go b.browse
  where
    tried : (t : Option GoError) → changes (browse_then t b o n l).1 ≡ changes log
    tried none = browser_loop-Unchanged b o n log _ h
    tried (some t) =
        if-keeps (λ l. changes l ≡ changes log) (is_error t browse_unsupported) _ _
          (receive_loop-Unchanged b o n log _ e h) h

    go :
        (f : Option (Calls → ReceiveOptions → Option GoError))
        → changes (peek_loop f b o n l).1 ≡ changes log
    go none = receive_loop-Unchanged b o n log l e h
    go (some f) = tried (f l o)

counted-Unchanged :
    (name : Text) (count : Option ℕ) (run : ℕ → Calls → Ran) (log : Calls)
    → ((n : ℕ) → changes (run n log).1 ≡ changes log)
    → changes (counted name count run log).1 ≡ changes log
counted-Unchanged [] count run log k = refl
counted-Unchanged (c ∷ name) none run log k = refl
counted-Unchanged (c ∷ name) (some n) run log k = k n

inspect-Unchanged :
    (e : Option GoError) (log : Calls) → changes (inspect_then e log).1 ≡ changes log
inspect-Unchanged (some e) log = refl
inspect-Unchanged none log = refl

-- A purge without its confirmation.
abbrev pub unconfirmed : ToolCall → Bool
unconfirmed (purge_queue queue confirm) = not confirm
unconfirmed t = false

named-Unchanged :
    (name : Text) (run : Calls → Ran) (log : Calls)
    → changes (run log).1 ≡ changes log
    → changes (named name run log).1 ≡ changes log
named-Unchanged [] run log k = refl
named-Unchanged (c ∷ name) run log k = k

purge-Unchanged :
    (b : Broker) (queue : Text) (confirm : Bool) (log : Calls)
    → not confirm ≡ true
    → changes (purge_tool b queue confirm log).1 ≡ changes log
unfolding purge_tool
purge-Unchanged b [] confirm log h = refl
purge-Unchanged b (c ∷ queue) true log h = cc
purge-Unchanged b (c ∷ queue) false log h = refl

-- A call of a tool whose annotations say that it is read-only, and of a purge that is not confirmed,
-- makes no call that changes what the broker holds: no send, publish, request, subscribe or purge,
-- and no read that acknowledges.
pub read_only_lem :
    (b : Broker) (t : ToolCall) (log : Calls)
    → (read_only_hint t || unconfirmed t) ≡ true
    → changes (run_call b t log).1 ≡ changes log
unfolding run_call read_messages ping_tool list_tool stats_tool
read_only_lem b (send a) log h = cc
read_only_lem b (request a) log h = cc
read_only_lem b (receive a) log h = cc
read_only_lem b (publish a) log h = cc
read_only_lem b (consume a) log h = cc
read_only_lem b (peek a) log h = counted-Unchanged _ (count_of a.count) _ log (λ n.
    connection-Unchanged (b.connect log) _ log
      (peek-Unchanged b (read_options a false) n log (connected none ∷ log) refl refl))
read_only_lem b ping log h = go (b.connect log)
  where
    go : (e : Option GoError) → changes (ping_then e log).1 ≡ changes log
    go (some e) = refl
    go none = refl
read_only_lem b list_queues log h = inspect-Unchanged (b.inspect log) log
read_only_lem b list_topics log h = inspect-Unchanged (b.inspect log) log
read_only_lem b (queue_stats queue) log h =
    named-Unchanged queue (list_tool b) log (inspect-Unchanged (b.inspect log) log)
read_only_lem b (purge_queue queue confirm) log h = purge-Unchanged b queue confirm log h
