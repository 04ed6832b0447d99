-- ===== src/Reconnect/Methods.antt =====
-- reconnectingQueue and reconnectingTopic of cmd/reconnect.go: the methods that the commands call.
-- What the adapters answer is an argument, by the adapter's number and what happened before.
pub mod Protocol
use xmc.Prelude.{Bool, true, false, ℕ, Option, none, some, List, ◌∷◌, ◌++◌, Text, codes}
use xmc.Errors.{GoError, sentinel, browse_unsupported}
use xmc.Backends.{
  Message, Read, SendOptions, ReceiveOptions, RequestOptions, PublishOptions, SubscribeOptions,
}
use xmc.Reconnect.{
  History, called, Environment, Adapter, Operation, Outcome, ensure_connected, with_reconnect,
}

-- The backends of a queue broker. `browse` is missing where an adapter is no BrowseBackend; a
-- browser is named by a number.
pub record Queues : Type 0 where
  pub send : SendOptions → ℕ → History → Option GoError
  pub receive : ReceiveOptions → ℕ → History → Read
  pub request : RequestOptions → ℕ → History → Read
  pub browse : ℕ → Option (ReceiveOptions → History → Option ℕ × Option GoError)

pub record Topics : Type 0 where
  pub publish : PublishOptions → ℕ → History → Option GoError
  pub subscribe : SubscribeOptions → ℕ → History → Read

-- A call without a result, and one with a message.
abbrev pub plain_call : (ℕ → History → Option GoError) → Operation Unit
plain_call f k h = (tt, f k h)

abbrev pub message_call : (ℕ → History → Read) → Operation (Option Message)
message_call f k h = let r = f k h in (r.message, r.error)

module _ (env : Environment) (q : Queues) (waits : List ℕ) where
  -- reconnectingQueue.Send
  unfoldable pub queue_send : SendOptions → Adapter → Outcome Unit
  unfolding with_reconnect
  queue_send opts r =
      with_reconnect env (plain_call (q.send opts)) waits (codes "send to " ++ opts.queue) tt r

  -- reconnectingQueue.Receive
  unfoldable pub queue_receive : ReceiveOptions → Adapter → Outcome (Option Message)
  unfolding with_reconnect
  queue_receive opts r =
      with_reconnect env (message_call (q.receive opts)) waits (codes "receive from " ++ opts.queue)
        none r

  -- reconnectingQueue.Request
  unfoldable pub queue_request : RequestOptions → Adapter → Outcome (Option Message)
  unfolding with_reconnect
  queue_request opts r =
      with_reconnect env (message_call (q.request opts)) waits (codes "request to " ++ opts.address)
        none r

-- reconnectingQueue.Browse, after ensureConnected: no retry.
unfoldable pub browse_held : Queues → ReceiveOptions → Option GoError × Adapter → Outcome (Option ℕ)
browse_held q opts (some e, r) = (none, some e, r)
browse_held q opts (none, r) = elim r.adapter [
  | none ↦ (none, some (sentinel browse_unsupported), r)
  | some k ↦ elim (q.browse k) [
    | none ↦ (none, some (sentinel browse_unsupported), r)
    | some f ↦
        let (browser, e) = f opts r.history in
        (browser, e, record r { history = called k e ∷ r.history })
  ]
]

unfoldable pub queue_browse : Environment → Queues → ReceiveOptions → Adapter → Outcome (Option ℕ)
unfolding browse_held ensure_connected
queue_browse env q opts r = browse_held q opts (ensure_connected env r)

module _ (env : Environment) (s : Topics) (waits : List ℕ) where
  -- reconnectingTopic.Publish
  unfoldable pub topic_publish : PublishOptions → Adapter → Outcome Unit
  unfolding with_reconnect
  topic_publish opts r =
      with_reconnect env (plain_call (s.publish opts)) waits (codes "publish to " ++ opts.topic) tt
        r

  -- reconnectingTopic.Subscribe
  unfoldable pub topic_subscribe : SubscribeOptions → Adapter → Outcome (Option Message)
  unfolding with_reconnect
  topic_subscribe opts r =
      with_reconnect env (message_call (s.subscribe opts)) waits
        (codes "subscribe on " ++ opts.topic) none r
