-- ===== src/Mcp/Tools/Counts.antt =====
-- What send and publish tell of the messages that the broker took.
use xmc.Prelude.{ℕ, zero, suc, ◌+◌, ◌-◌, ◌≤◌, Option, none, some, [], ◌∷◌, ◌≡◌, arith, Text}
use xmc.Errors.{GoError}
use xmc.Backends.{SendOptions, PublishOptions}
use xmc.Mcp.Tools.{
  with_connection, produce_then, error_or, send_loop, publish_loop, send_tool_options, counted,
  send_tool, publish_tool_options, publish_tool,
}
use xmc.Mcp.Tools.Serve.{}
use xmc.Mcp.Tools.Wire.{
  Call, Calls, connected, closed, sent, received, browsed, browser_read, browser_closed, published,
  subscribed, requested, purged, inspected, Broker, Ran, count_of, Reply, done, failed, sent_to,
  published_to, send_failed, publish_failed, SendArgs, PublishArgs,
}

-- The sends and publishes that succeeded.
abbrev pub took : Call → ℕ
took (connected e) = 0
took closed = 0
took (sent o none) = 1
took (sent o (some e)) = 0
took (received o r) = 0
took (browsed o e) = 0
took (browser_read r) = 0
took browser_closed = 0
took (published o none) = 1
took (published o (some e)) = 0
took (subscribed o r) = 0
took (requested o r) = 0
took (purged q e) = 0
took (inspected e) = 0

abbrev pub accepted : Calls → ℕ
accepted [] = 0
accepted (c ∷ log) = took c + accepted log

-- The number that the answer names.
abbrev pub told : Reply → ℕ
told (done (sent_to n name)) = n
told (done (published_to n name)) = n
told (done a) = 0
told (failed (send_failed i n e)) = i
told (failed (publish_failed i n e)) = i
told (failed f) = 0

send_loop-told :
    (b : Broker) (o : SendOptions) (count left : ℕ) (log : Calls)
    → left ≤ count
    → accepted (send_loop b o count left log).1 + (count - left)
      ≡ accepted log + told (send_loop b o count left log).0
unfolding send_loop produce_then
send_loop-told b o count zero log l = omega arith
send_loop-told b o count (suc left) log l =
    go (b.send log o) (error_or (b.send log o)) (send_loop-told b o count left)
  where
    go :
        (e : Option GoError) (f : GoError)
        → ((m : Calls)
            → left ≤ count
            → accepted (send_loop b o count left m).1 + (count - left)
              ≡ accepted m + told (send_loop b o count left m).0)
        → accepted
              (produce_then e
                (send_failed (count - suc left) count f)
                (sent o)
                (send_loop b o count left)
                log).1
            + (count - suc left)
          ≡ accepted log
            + told
                (produce_then e
                  (send_failed (count - suc left) count f)
                  (sent o)
                  (send_loop b o count left)
                  log).0
    go (some e) f k = omega arith
    go none f k = ground (arith, l, k (sent o none ∷ log) (omega (arith, l)))

publish_loop-told :
    (b : Broker) (o : PublishOptions) (count left : ℕ) (log : Calls)
    → left ≤ count
    → accepted (publish_loop b o count left log).1 + (count - left)
      ≡ accepted log + told (publish_loop b o count left log).0
unfolding publish_loop produce_then
publish_loop-told b o count zero log l = omega arith
publish_loop-told b o count (suc left) log l =
    go (b.publish log o) (error_or (b.publish log o)) (publish_loop-told b o count left)
  where
    go :
        (e : Option GoError) (f : GoError)
        → ((m : Calls)
            → left ≤ count
            → accepted (publish_loop b o count left m).1 + (count - left)
              ≡ accepted m + told (publish_loop b o count left m).0)
        → accepted
              (produce_then e
                (publish_failed (count - suc left) count f)
                (published o)
                (publish_loop b o count left)
                log).1
            + (count - suc left)
          ≡ accepted log
            + told
                (produce_then e
                  (publish_failed (count - suc left) count f)
                  (published o)
                  (publish_loop b o count left)
                  log).0
    go (some e) f k = omega arith
    go none f k = ground (arith, l, k (published o none ∷ log) (omega (arith, l)))

connection-told :
    (o : Option GoError) (fn : Calls → Ran) (log : Calls)
    → ((l : Calls) → accepted (fn l).1 ≡ accepted l + told (fn l).0)
    → accepted (with_connection o fn log).1 ≡ accepted log + told (with_connection o fn log).0
unfolding with_connection
connection-told (some e) fn log k = omega arith
connection-told none fn log k = omega (arith, k (connected none ∷ log))

counted-told :
    (name : Text) (count : Option ℕ) (run : ℕ → Calls → Ran) (log : Calls)
    → ((n : ℕ) → accepted (run n log).1 ≡ accepted log + told (run n log).0)
    → accepted (counted name count run log).1 ≡ accepted log + told (counted name count run log).0
counted-told [] count run log k = omega arith
counted-told (c ∷ name) none run log k = omega arith
counted-told (c ∷ name) (some n) run log k = k n

-- The answers of send and publish, also when they fail, name the number of messages that the broker
-- took in that call.
pub produce-told :
    (b : Broker) (s : SendArgs) (p : PublishArgs) (log : Calls)
    → (accepted (send_tool b s log).1 ≡ accepted log + told (send_tool b s log).0)
      × (accepted (publish_tool b p log).1 ≡ accepted log + told (publish_tool b p log).0)
unfolding send_tool publish_tool
produce-told b s p log = (
  counted-told s.address (count_of s.count)
      (λ n before.
        with_connection (b.connect before) (send_loop b (send_tool_options s) n n) before)
      log
      (λ n.
        connection-told (b.connect log) (send_loop b (send_tool_options s) n n) log
          (λ l. omega (arith, send_loop-told b (send_tool_options s) n n l (omega arith)))),
  counted-told p.topic (count_of p.count)
      (λ n before.
        with_connection (b.connect before) (publish_loop b (publish_tool_options p) n n) before)
      log
      (λ n.
        connection-told (b.connect log) (publish_loop b (publish_tool_options p) n n) log
          (λ l. omega (arith, publish_loop-told b (publish_tool_options p) n n l (omega arith)))),
)
