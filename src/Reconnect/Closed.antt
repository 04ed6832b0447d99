-- ===== src/Reconnect/Closed.antt =====
-- Close is final.
use xmc.Prelude.{ℕ, Bool, true, Option, none, some, List, ◌≡◌, refl}
use xmc.Backends.{SendOptions, ReceiveOptions, RequestOptions, PublishOptions, SubscribeOptions}
use xmc.Reconnect.{
  Environment, History, Adapter, Outcome, adapter_closed, close, close_result, drop_adapter,
  ensure_connected, after_ensure, with_reconnect,
}
use xmc.Reconnect.Methods.{
  Queues, Topics, queue_send, queue_receive, queue_request, queue_browse, browse_held,
  topic_publish, topic_subscribe,
}

-- The error "adapter closed", no result, and nothing made, called or shut.
abbrev pub Refuses : {R : Type 0} → Outcome R → R → Adapter → Type 0
Refuses o nil r = o ≡ (nil, some adapter_closed, r)

-- A closed adapter whatever it holds.
module _ (env : Environment) (waits : List ℕ) (a : Option ℕ) (h : History) where
  abbrev closed_at : Adapter
  closed_at = record { adapter = a; closed = true; history = h }

  queue_methods_refused :
      (q : Queues) (so : SendOptions) (ro : ReceiveOptions) (qo : RequestOptions)
      → Refuses (queue_send env q waits so closed_at) tt closed_at
        × Refuses (queue_receive env q waits ro closed_at) none closed_at
        × Refuses (queue_request env q waits qo closed_at) none closed_at
        × Refuses (queue_browse env q ro closed_at) none closed_at
  unfolding queue_send queue_receive queue_request queue_browse browse_held with_reconnect
      ensure_connected after_ensure
  queue_methods_refused q so ro qo = (refl, refl, refl, refl)

  topic_methods_refused :
      (t : Topics) (po : PublishOptions) (so : SubscribeOptions)
      → Refuses (topic_publish env t waits po closed_at) tt closed_at
        × Refuses (topic_subscribe env t waits so closed_at) none closed_at
  unfolding topic_publish topic_subscribe with_reconnect ensure_connected after_ensure
  topic_methods_refused t po so = (refl, refl)

close_again :
    (env : Environment) (a : Option ℕ) (c : Bool) (h : History) (env' : Environment)
    → close env' (close env (record { adapter = a; closed = c; history = h })).1
      ≡ (none, (close env (record { adapter = a; closed = c; history = h })).1)
unfolding close drop_adapter close_result
close_again env none c h env' = refl
close_again env (some k) c h env' = refl

-- After Close the methods send, receive, request and browse of a queue and publish and subscribe of
-- a topic return the error "adapter closed" without a result, whatever the environment says, and
-- make, call and shut nothing; and a second Close does nothing and has no error.
pub methods_closed :
    (env env' : Environment) (r : Adapter) (waits : List ℕ) (q : Queues) (t : Topics)
    (so : SendOptions) (ro : ReceiveOptions) (qo : RequestOptions) (po : PublishOptions)
    (bo : SubscribeOptions)
    → Refuses (queue_send env' q waits so (close env r).1) tt (close env r).1
      × Refuses (queue_receive env' q waits ro (close env r).1) none (close env r).1
      × Refuses (queue_request env' q waits qo (close env r).1) none (close env r).1
      × Refuses (queue_browse env' q ro (close env r).1) none (close env r).1
      × Refuses (topic_publish env' t waits po (close env r).1) tt (close env r).1
      × Refuses (topic_subscribe env' t waits bo (close env r).1) none (close env r).1
      × (close env' (close env r).1 ≡ (none, (close env r).1))
unfolding close
methods_closed env env' r waits q t so ro qo po bo =
    let d = drop_adapter r in
    let qs = queue_methods_refused env' waits d.adapter d.history q so ro qo in
    let ts = topic_methods_refused env' waits d.adapter d.history t po bo in
    (qs.0, qs.1, qs.2, qs.3, ts.0, ts.1, close_again env r.adapter r.closed r.history env')
