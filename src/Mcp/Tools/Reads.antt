-- ===== src/Mcp/Tools/Reads.antt =====
-- What peek, receive and consume tell of the messages that they read.
use xmc.Prelude.{
  ℕ, zero, suc, ◌+◌, ◌≤◌, append_assoc, append-nil, length-append, Bool, true, false, Option, none,
  some, List, [], ◌∷◌, ◌++◌, ◌≡◌, refl, sym, ◌∙◌, arith, Text, length, if◌then◌else◌,
}
use xmc.Errors.{GoError, is_error, browse_unsupported}
use xmc.Backends.{Message, Read, ReceiveOptions}
use xmc.Mcp.Tools.{
  with_connection, is_end, read_then, read_loop, counted, read_options, receive_loop, browser_loop,
  browse_then, peek_loop, read_loops, read_messages, consume_options, subscribe_loop, consume_tool,
}
use xmc.Mcp.Tools.Serve.{}
use xmc.Mcp.Tools.Wire.{
  Call, Calls, connected, received, browser_read, subscribed, Broker, ReadArgs, ConsumeArgs,
  Failure, Answer, Ran, count_of, Reply, json_result, done, failed, read_failed, not_marshalled,
  read_from, consume_failed, consumed_from, given,
}

abbrev pub read_message : Read → List Message
read_message r = elim r.error [
  | some e ↦ []
  | none ↦ elim r.message [ none ↦ [] | some m ↦ m ∷ [] ]
]

abbrev pub call_message : Call → List Message
call_message (received o r) = read_message r
call_message (browser_read r) = read_message r
call_message (subscribed o r) = read_message r
call_message c = []

-- The messages that the reads brought, the first one first.
abbrev pub brought : Calls → List Message
brought [] = []
brought (c ∷ log) = brought log ++ call_message c

-- What a reply says of the messages of its reads: after a result they are those of the reply, at
-- most n; after a failed read their number is in its text, and they are gone; when the result could
-- not be encoded they are gone too, at most n; else there were none.
abbrev pub Says : List Message → List Message → ℕ → Reply → Type 0
Says before after n (done (read_from q ms)) = (after ≡ before ++ ms) × (length ms ≤ n)
Says before after n (done (consumed_from q ms)) = (after ≡ before ++ ms) × (length ms ≤ n)
Says before after n (failed (read_failed i e)) =
    (ms : List Message) × (after ≡ before ++ ms) × (length ms ≡ i)
Says before after n (failed (consume_failed i e)) =
    (ms : List Message) × (after ≡ before ++ ms) × (length ms ≡ i)
Says before after n (failed (not_marshalled e)) =
    (ms : List Message) × (after ≡ before ++ ms) × (length ms ≤ n)
Says before after n reply = after ≡ before

abbrev pub RanSays : List Message → ℕ → Ran → Type 0
RanSays before n r = Says before (brought r.1) n r.0

if-Says :
    (before : List Message) (n : ℕ) (b : Bool) (r s : Ran)
    → RanSays before n r
    → RanSays before n s
    → RanSays before n (if b then r else s)
if-Says before n true r s h k = h
if-Says before n false r s h k = k

no_message : (r : Read) (e : GoError) → r.error ≡ some e → read_message r ≡ []
no_message r e h = rw h refl

empty_message : (r : Read) → r.error ≡ none → r.message ≡ none → read_message r ≡ []
empty_message r h k = rw (h, k) refl

one_message :
    (r : Read) (m : Message) → r.error ≡ none → r.message ≡ some m → read_message r ≡ m ∷ []
one_message r m h k = rw (h, k) refl

module _ (next : Calls → Read) (call : Read → Call) (fail : ℕ → GoError → Failure)
    (finish : List Message → Reply) (before : List Message) (n : ℕ)
    (noted : (r : Read) → call_message (call r) ≡ read_message r)
    (finished : (after ms : List Message)
      → after ≡ before ++ ms
      → length ms ≤ n
      → Says before after n (finish ms))
    (lost : (after ms : List Message) (e : GoError)
      → after ≡ before ++ ms
      → Says before after n (failed (fail (length ms) e))) where
  read_then-Says :
      (e : Option GoError) (m : Option Message) (got : List Message) (log : Calls)
      (rest : List Message → Ran)
      → (next log).error ≡ e
      → (next log).message ≡ m
      → brought log ≡ before ++ got
      → length got ≤ n
      → ((x : Message)
          → brought (call (next log) ∷ log) ≡ before ++ (got ++ x ∷ [])
          → RanSays before n (rest (got ++ x ∷ [])))
      → RanSays before n (
          read_then fail finish
            (record { message = m; error = e })
            got
            rest
            (call (next log) ∷ log))
  unfolding read_then
  read_then-Says (some e) m got log rest s t h l k =
      if-Says before n (is_end e) _ _ (finished _ got same l) (lost _ got e same)
    where
      same : brought (call (next log) ∷ log) ≡ before ++ got
      same = rw (noted (next log), no_message (next log) e s) (append-nil (brought log) ∙ h)
  read_then-Says none none got log rest s t h l k =
      finished _ got
        (rw (noted (next log), empty_message (next log) s t) (append-nil (brought log) ∙ h)) l
  read_then-Says none (some x) got log rest s t h l k =
      k x
        (rw (noted (next log), one_message (next log) x s t, h) (append_assoc before got (x ∷ [])))

  read_loop-Says :
      (left : ℕ) (got : List Message) (log : Calls)
      → brought log ≡ before ++ got
      → length got + left ≤ n
      → RanSays before n (read_loop next call fail finish left got log)
  unfolding read_loop
  read_loop-Says zero got log h l = finished (brought log) got h (omega (arith, l))
  read_loop-Says (suc left) got log h l =
      read_then-Says (next log).error (next log).message got log
        (λ more. read_loop next call fail finish left more (call (next log) ∷ log)) refl refl h
        (omega (arith, l))
        (λ x e.
          read_loop-Says left (got ++ x ∷ []) (call (next log) ∷ log) e
            (ground (arith, l, length-append got (x ∷ []))))

result-Says :
    (b : Broker) (a : Answer) (before after ms : List Message) (n : ℕ)
    → ((e : GoError) → Says before after n (failed (not_marshalled e)))
    → Says before after n (done a)
    → Says before after n (json_result b a)
unfolding json_result
result-Says b a before after ms n k h = go (b.marshal a)
  where
    go :
        (o : Option GoError)
        → Says before after n (elim o [ none ↦ done a | some e ↦ failed (not_marshalled e) ])
    go none = h
    go (some e) = k e

receive_loop-Says :
    (b : Broker) (o : ReceiveOptions) (n : ℕ) (before : List Message) (log : Calls)
    → brought log ≡ before
    → RanSays before n (receive_loop b o n log)
unfolding receive_loop
receive_loop-Says b o n before log h =
    read_loop-Says (λ l. b.receive l o) (received o) read_failed
      (λ ms. json_result b (read_from o.queue ms)) before n (λ r. refl)
      (λ after ms e l. result-Says b _ before after ms n (λ x. (ms, e, l)) (e, l))
      (λ after ms e t. (ms, t, refl)) n [] log (h ∙ sym (append-nil before)) (omega arith)

browser_loop-Says :
    (b : Broker) (o : ReceiveOptions) (n : ℕ) (before : List Message) (log : Calls)
    → brought log ≡ before
    → RanSays before n (browser_loop b o n log)
unfolding browser_loop
browser_loop-Says b o n before log h =
    rw
      (append-nil (
        brought
          (read_loop b.browser_next browser_read read_failed
            (λ ms. json_result b (read_from o.queue ms)) n [] log).1))
      (read_loop-Says b.browser_next browser_read read_failed
        (λ ms. json_result b (read_from o.queue ms)) before n (λ r. refl)
        (λ after ms e l. result-Says b _ before after ms n (λ x. (ms, e, l)) (e, l))
        (λ after ms e t. (ms, t, refl)) n [] log (h ∙ sym (append-nil before)) (omega arith))

subscribe_loop-Says :
    (b : Broker) (a : ConsumeArgs) (n : ℕ) (before : List Message) (log : Calls)
    → brought log ≡ before
    → RanSays before n (subscribe_loop b a n log)
unfolding subscribe_loop
subscribe_loop-Says b a n before log h =
    read_loop-Says (λ l. b.subscribe l (consume_options a)) (subscribed (consume_options a))
      consume_failed (λ ms. json_result b (consumed_from a.topic ms)) before n (λ r. refl)
      (λ after ms e l. result-Says b _ before after ms n (λ x. (ms, e, l)) (e, l))
      (λ after ms e t. (ms, t, refl)) n [] log (h ∙ sym (append-nil before)) (omega arith)

-- A call that brings no message changes nothing of that.
quiet_call :
    (log : Calls) (before : List Message) → brought log ≡ before → brought log ++ [] ≡ before
quiet_call log before h = append-nil (brought log) ∙ h

read_loops-Says :
    (acknowledge : Bool) (b : Broker) (o : ReceiveOptions) (n : ℕ) (before : List Message)
    (log : Calls)
    → brought log ≡ before
    → RanSays before n (read_loops acknowledge b o n log)
unfolding read_loops peek_loop browse_then
read_loops-Says true b o n before log h = receive_loop-Says b o n before log h
read_loops-Says false b o n before log h = go b.browse
  where
    tried : (e : Option GoError) → RanSays before n (browse_then e b o n log)
    tried none = browser_loop-Says b o n before _ (quiet_call log before h)
    tried (some e) =
        if-Says before n (is_error e browse_unsupported) _ _
          (receive_loop-Says b o n before _ (quiet_call log before h)) (quiet_call log before h)

    go :
        (f : Option (Calls → ReceiveOptions → Option GoError))
        → RanSays before n (peek_loop f b o n log)
    go none = receive_loop-Says b o n before log h
    go (some f) = tried (f log o)

connection-Says :
    (o : Option GoError) (fn : Calls → Ran) (n : ℕ) (log : Calls)
    → ((l : Calls) → brought l ≡ brought log → RanSays (brought log) n (fn l))
    → RanSays (brought log) n (with_connection o fn log)
unfolding with_connection
connection-Says (some e) fn n log k = append-nil (brought log)
connection-Says none fn n log k =
    rw (append-nil (brought (fn (connected none ∷ log)).1))
      (k (connected none ∷ log) (append-nil (brought log)))

counted-Says :
    (name : Text) (count : Option ℕ) (run : ℕ → Calls → Ran) (log : Calls)
    → ((n : ℕ) → RanSays (brought log) n (run n log))
    → RanSays (brought log) (given count 0) (counted name count run log)
counted-Says [] count run log k = refl
counted-Says (c ∷ name) none run log k = refl
counted-Says (c ∷ name) (some n) run log k = k n

-- peek and receive: a result has the messages that the reads brought, in order, and no more than
-- the count; the text of a failed read has the number of messages that were read before it; when
-- the result cannot be encoded, no more than the count were read and they are in no answer; and any
-- other failure comes before the first message.
pub read_messages-Says :
    (b : Broker) (a : ReadArgs) (acknowledge : Bool) (log : Calls)
    → Says
        (brought log)
        (brought (read_messages b a acknowledge log).1)
        (given (count_of a.count) 0)
        (read_messages b a acknowledge log).0
unfolding read_messages
read_messages-Says b a acknowledge log =
    counted-Says a.queue (count_of a.count)
      (λ n before.
        with_connection (b.connect before) (read_loops acknowledge b (read_options a acknowledge) n)
          before)
      log
      (λ n.
        connection-Says (b.connect log) (read_loops acknowledge b (read_options a acknowledge) n) n
          log (read_loops-Says acknowledge b (read_options a acknowledge) n (brought log)))

-- consume tells the same of the messages of its subscription.
pub consume_tool-Says :
    (b : Broker) (a : ConsumeArgs) (log : Calls)
    → Says
        (brought log)
        (brought (consume_tool b a log).1)
        (given (count_of a.count) 0)
        (consume_tool b a log).0
unfolding consume_tool
consume_tool-Says b a log =
    counted-Says a.topic (count_of a.count)
      (λ n before. with_connection (b.connect before) (subscribe_loop b a n) before) log
      (λ n.
        connection-Says (b.connect log) (subscribe_loop b a n) n log
          (subscribe_loop-Says b a n (brought log)))
