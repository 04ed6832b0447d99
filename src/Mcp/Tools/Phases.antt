-- ===== src/Mcp/Tools/Phases.antt =====
-- What is open between two calls of the tools, and the loops that keep a connection open.
use xmc.Prelude.{
  ℕ, zero, suc, Bool, true, false, Option, none, some, List, [], ◌∷◌, ◌≡◌, refl, Text,
  if◌then◌else◌,
}
use xmc.Errors.{GoError, is_error, browse_unsupported}
use xmc.Backends.{Message, Read, SendOptions, ReceiveOptions, PublishOptions}
use xmc.Mcp.Tools.{
  with_connection, produce_then, send_loop, publish_loop, is_end, read_then, read_loop, counted,
  receive_loop, browser_loop, browse_then, peek_loop, read_loops,
}
use xmc.Mcp.Tools.Serve.{named}
use xmc.Mcp.Tools.Wire.{
  json_result, Call, Calls, connected, closed, sent, received, browsed, browser_read,
  browser_closed, published, subscribed, requested, purged, inspected, Broker, Failure, Reply, Ran,
  read_failed, read_from,
}

-- What is open between two calls; `broken` is a call that was out of place.
pub data Phase : Type 0 where
  idle opened browsing broken : Phase

abbrev pub after_connect : Option GoError → Phase
after_connect none = opened
after_connect (some e) = idle

abbrev pub after_browse : Option GoError → Phase
after_browse none = browsing
after_browse (some e) = opened

-- A connection is opened when none is, and is used and closed only while it is open; a cursor is
-- read and closed only while it is open, and the connection stays open as long; the management
-- hooks connect by themselves.
abbrev pub next_phase : Phase → Call → Phase
next_phase idle (connected e) = after_connect e
next_phase idle (purged q e) = idle
next_phase idle (inspected e) = idle
next_phase opened closed = idle
next_phase opened (sent o e) = opened
next_phase opened (received o r) = opened
next_phase opened (browsed o e) = after_browse e
next_phase opened (published o e) = opened
next_phase opened (subscribed o r) = opened
next_phase opened (requested o r) = opened
next_phase browsing (browser_read r) = browsing
next_phase browsing browser_closed = opened
next_phase p c = broken

abbrev pub phase : Calls → Phase
phase [] = idle
phase (c ∷ log) = next_phase (phase log) c

pub if-keeps :
    (Q : Calls → Type 0) (b : Bool) (r s : Ran) → Q r.1 → Q s.1 → Q (if b then r else s).1
if-keeps Q true r s h k = h
if-keeps Q false r s h k = k

-- What each read keeps, the loop keeps.
pub read_loop-keeps :
    (Q : Calls → Type 0) (next : Calls → Read) (call : Read → Call) (fail : ℕ → GoError → Failure)
    (finish : List Message → Reply)
    → ((r : Read) (l : Calls) → Q l → Q (call r ∷ l))
    → (left : ℕ) (got : List Message) (log : Calls) → Q log
    → Q (read_loop next call fail finish left got log).1
unfolding read_loop read_then
read_loop-keeps Q next call fail finish k zero got log h = h
read_loop-keeps Q next call fail finish k (suc left) got log h =
    go (next log).error (next log).message (read_loop-keeps Q next call fail finish k left)
  where
    go :
        (e : Option GoError) (m : Option Message)
        → ((more : List Message) (l : Calls)
            → Q l
            → Q (read_loop next call fail finish left more l).1)
        → Q
            (read_then fail finish
              (record { message = m; error = e })
              got
              (λ more. read_loop next call fail finish left more (call (next log) ∷ log))
              (call (next log) ∷ log)).1
    go (some e) m rest = if-keeps Q (is_end e) _ _ (k (next log) log h) (k (next log) log h)
    go none none rest = k (next log) log h
    go none (some m) rest = rest _ _ (k (next log) log h)

-- A function that keeps a connection open is run within one.
pub connection-idle :
    (o : Option GoError) (fn : Calls → Ran) (log : Calls)
    → ((l : Calls) → phase l ≡ opened → phase (fn l).1 ≡ opened)
    → phase log ≡ idle
    → phase (with_connection o fn log).1 ≡ idle
unfolding with_connection
connection-idle (some e) fn log k h = rw h refl
connection-idle none fn log k h =
    let g : phase (connected none ∷ log) ≡ opened = rw h refl in
    rw (k (connected none ∷ log) g) refl

pub counted-idle :
    (name : Text) (count : Option ℕ) (run : ℕ → Calls → Ran) (log : Calls)
    → ((n : ℕ) → phase (run n log).1 ≡ idle)
    → phase log ≡ idle
    → phase (counted name count run log).1 ≡ idle
counted-idle [] count run log k h = h
counted-idle (c ∷ name) none run log k h = h
counted-idle (c ∷ name) (some n) run log k h = k n

pub named-idle :
    (name : Text) (run : Calls → Ran) (log : Calls)
    → phase (run log).1 ≡ idle
    → phase log ≡ idle
    → phase (named name run log).1 ≡ idle
named-idle [] run log k h = h
named-idle (c ∷ name) run log k h = k

pub send_loop-open :
    (b : Broker) (o : SendOptions) (count left : ℕ) (log : Calls)
    → phase log ≡ opened
    → phase (send_loop b o count left log).1 ≡ opened
unfolding send_loop produce_then
send_loop-open b o count zero log h = h
send_loop-open b o count (suc left) log h = go (b.send log o) _ (send_loop-open b o count left)
  where
    go :
        (e : Option GoError) (f : Failure)
        → ((l : Calls) → phase l ≡ opened → phase (send_loop b o count left l).1 ≡ opened)
        → phase (produce_then e f (sent o) (send_loop b o count left) log).1 ≡ opened
    go (some e) f k = rw h refl
    go none f k = k (sent o none ∷ log) (rw h refl)

pub publish_loop-open :
    (b : Broker) (o : PublishOptions) (count left : ℕ) (log : Calls)
    → phase log ≡ opened
    → phase (publish_loop b o count left log).1 ≡ opened
unfolding publish_loop produce_then
publish_loop-open b o count zero log h = h
publish_loop-open b o count (suc left) log h =
    go (b.publish log o) _ (publish_loop-open b o count left)
  where
    go :
        (e : Option GoError) (f : Failure)
        → ((l : Calls) → phase l ≡ opened → phase (publish_loop b o count left l).1 ≡ opened)
        → phase (produce_then e f (published o) (publish_loop b o count left) log).1 ≡ opened
    go (some e) f k = rw h refl
    go none f k = k (published o none ∷ log) (rw h refl)

pub receive_loop-open :
    (b : Broker) (o : ReceiveOptions) (n : ℕ) (log : Calls)
    → phase log ≡ opened
    → phase (receive_loop b o n log).1 ≡ opened
unfolding receive_loop
receive_loop-open b o n log h =
    read_loop-keeps (λ l. phase l ≡ opened) _ (received o) read_failed
      (λ ms. json_result b (read_from o.queue ms)) (λ r l k. rw k refl) n [] log h

pub browser_loop-open :
    (b : Broker) (o : ReceiveOptions) (n : ℕ) (log : Calls)
    → phase log ≡ browsing
    → phase (browser_loop b o n log).1 ≡ opened
unfolding browser_loop
browser_loop-open b o n log h =
    rw
      (read_loop-keeps (λ l. phase l ≡ browsing) _ browser_read read_failed
        (λ ms. json_result b (read_from o.queue ms)) (λ r l k. rw k refl) n [] log h)
      refl

pub read_loops-open :
    (acknowledge : Bool) (b : Broker) (o : ReceiveOptions) (n : ℕ) (log : Calls)
    → phase log ≡ opened
    → phase (read_loops acknowledge b o n log).1 ≡ opened
unfolding read_loops peek_loop browse_then
read_loops-open true b o n log h = receive_loop-open b o n log h
read_loops-open false b o n log h = go b.browse
  where
    tried : (e : Option GoError) → phase (browse_then e b o n log).1 ≡ opened
    tried none = browser_loop-open b o n _ (rw h refl)
    tried (some e) =
        if-keeps (λ l. phase l ≡ opened) (is_error e browse_unsupported) _ _
          (receive_loop-open b o n _ (rw h refl)) (rw h refl)

    go :
        (f : Option (Calls → ReceiveOptions → Option GoError))
        → phase (peek_loop f b o n log).1 ≡ opened
    go none = receive_loop-open b o n log h
    go (some f) = tried (f log o)
