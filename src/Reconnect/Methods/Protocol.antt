-- ===== src/Reconnect/Methods/Protocol.antt =====
-- The wrapped adapter holds at most one open adapter over all its methods.
use xmc.Prelude.{ℕ, Bool, Option, none, some, List, Option-cases, inl, inr}
use xmc.Errors.{GoError}
use xmc.Backends.{SendOptions, ReceiveOptions, RequestOptions, PublishOptions, SubscribeOptions}
use xmc.Reconnect.{History, Environment, Adapter, initial, ensure_connected, close}
use xmc.Reconnect.Steps.{at}
use xmc.Reconnect.Handles.{
  Holds, use_it, IsSound, with_reconnect-IsSound, ensure_connected-IsSound, close-IsSound,
}
use xmc.Reconnect.Methods.{
  Queues, Topics, queue_send, queue_receive, queue_request, browse_held, queue_browse,
  topic_publish, topic_subscribe,
}

-- The methods of a queue adapter and Close, each with its own environment and waits.
pub data QueueStep (q : Queues) : Adapter → Adapter → Type 0 where
  send :
      (env : Environment) (waits : List ℕ) (opts : SendOptions) (r : Adapter)
      → QueueStep q r (queue_send env q waits opts r).2
  receive :
      (env : Environment) (waits : List ℕ) (opts : ReceiveOptions) (r : Adapter)
      → QueueStep q r (queue_receive env q waits opts r).2
  request :
      (env : Environment) (waits : List ℕ) (opts : RequestOptions) (r : Adapter)
      → QueueStep q r (queue_request env q waits opts r).2
  browse :
      (env : Environment) (opts : ReceiveOptions) (r : Adapter)
      → QueueStep q r (queue_browse env q opts r).2
  shutting : (env : Environment) (r : Adapter) → QueueStep q r (close env r).1

pub data TopicStep (s : Topics) : Adapter → Adapter → Type 0 where
  publish :
      (env : Environment) (waits : List ℕ) (opts : PublishOptions) (r : Adapter)
      → TopicStep s r (topic_publish env s waits opts r).2
  subscribe :
      (env : Environment) (waits : List ℕ) (opts : SubscribeOptions) (r : Adapter)
      → TopicStep s r (topic_subscribe env s waits opts r).2
  shutting : (env : Environment) (r : Adapter) → TopicStep s r (close env r).1

-- What is reached from a fresh adapter by steps.
pub data Reach (Step : Adapter → Adapter → Type 0) : Adapter → Type 0 where
  here : Reach Step initial
  next : {r s : Adapter} → Reach Step r → Step r s → Reach Step s

browse_held-IsSound :
    (q : Queues) (opts : ReceiveOptions) (e : Option GoError) (a : Option ℕ) (c : Bool)
    (t : History)
    → Holds t a
    → IsSound (browse_held q opts (e, at a c t)).2
unfolding browse_held
browse_held-IsSound q opts (some e) a c t h = h
browse_held-IsSound q opts none none c t h = h
browse_held-IsSound q opts none (some k) c t h = elim (Option-cases (q.browse k)) [
  | inl none_there ↦ rw none_there h
  | inr (f, there) ↦ rw there (use_it k _ t h)
]

QueueStep-IsSound : {q : Queues} {r s : Adapter} → QueueStep q r s → IsSound r → IsSound s
unfolding queue_send queue_receive queue_request queue_browse
QueueStep-IsSound (send env waits opts r) h = with_reconnect-IsSound env _ waits _ tt r h
QueueStep-IsSound (receive env waits opts r) h = with_reconnect-IsSound env _ waits _ none r h
QueueStep-IsSound (request env waits opts r) h = with_reconnect-IsSound env _ waits _ none r h
QueueStep-IsSound {q = q} (browse env opts r) h =
    let p = ensure_connected env r in
    browse_held-IsSound q opts p.0 p.1.adapter p.1.closed p.1.history
      (ensure_connected-IsSound env r.adapter r.closed r.history h)
QueueStep-IsSound (shutting env r) h = close-IsSound env r.adapter r.closed r.history h

TopicStep-IsSound : {t : Topics} {r s : Adapter} → TopicStep t r s → IsSound r → IsSound s
unfolding topic_publish topic_subscribe
TopicStep-IsSound (publish env waits opts r) h = with_reconnect-IsSound env _ waits _ tt r h
TopicStep-IsSound (subscribe env waits opts r) h = with_reconnect-IsSound env _ waits _ none r h
TopicStep-IsSound (shutting env r) h = close-IsSound env r.adapter r.closed r.history h

-- After any calls of the methods of a queue adapter and of Close the history obeys the protocol: a
-- new adapter is made only when none is open, only the open one is called or shut, and it is the
-- one that is held.
pub queue_methods-Holds :
    (q : Queues) (r : Adapter) → Reach (QueueStep q) r → Holds r.history r.adapter
queue_methods-Holds q _ here = Holds.start
queue_methods-Holds q _ (next p s) = QueueStep-IsSound s (queue_methods-Holds q _ p)

-- After any calls of the methods of a topic adapter and of Close the history obeys the same
-- protocol, and the open adapter is the one that is held.
pub topic_methods-Holds :
    (s : Topics) (r : Adapter) → Reach (TopicStep s) r → Holds r.history r.adapter
topic_methods-Holds s _ here = Holds.start
topic_methods-Holds s _ (next p x) = TopicStep-IsSound x (topic_methods-Holds s _ p)
