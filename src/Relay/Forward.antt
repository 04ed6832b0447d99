-- ===== src/Relay/Forward.antt =====
-- doForward, resolveForwardTopology and runCommandOrRecover of cmd/forward.go.
pub mod Topology
pub mod Protocol
pub mod Conserves
use xmc.Prelude.{
  ℕ, zero, suc, ◌+◌, Bool, true, false, not, ◌&&◌, ◌||◌, Option, none, some, List, [], ◌∷◌, ◌++◌,
  Text, codes, text_eq, is_empty, ℤ, is_le_zero, lt_int, if◌then◌else◌,
}
use xmc.Errors.{
  GoError, plain, wrapped, is_error, canceled, deadline_exceeded, no_message_available,
}
use xmc.Backends.{
  Bytes, Message, Read, ReceiveOptions, SubscribeOptions, SendOptions, PublishOptions, normal,
}
use xmc.Relay.{
  Event, received, subscribed, sent, published, ran, recovered, summary, Trace, Environment, Polled,
  stop, fail, got, again, Result, finished, running,
}

abbrev pub bool_eq : Bool → Bool → Bool
bool_eq true b = b
bool_eq false b = not b

-- resolveForwardTopology: what the broker can do, and the two flags.
unfoldable pub resolve_forward_topology : Bool → Bool → Bool → Bool → Bool × Bool
resolve_forward_topology queue_capable topic_capable from_flag to_flag =
    if topic_capable && not queue_capable
    then (true, true)
    else if queue_capable && not topic_capable
    then (false, false)
    else (from_flag, to_flag)

-- The flags of the command, the topology resolved.
pub record ForwardFlags : Type 0 where
  pub source : Text
  pub destination : Text
  pub from_topic : Bool
  pub to_topic : Bool
  pub group : Text
  pub command : Text
  pub timeout : ℕ
  pub count : ℤ
  pub selector : Text

module _ (c : ForwardFlags) where
  abbrev pub subscribe_options : SubscribeOptions
  subscribe_options = record {
    topic = c.source;
    group_id = c.group;
    timeout = c.timeout;
    wait = true;
    verbosity = normal;
    selector = c.selector;
    durable = false;
    acknowledge = true;
    extra = [];
  }

  abbrev pub receive_options : ReceiveOptions
  receive_options = record {
    queue = c.source;
    timeout = c.timeout;
    wait = false;
    acknowledge = true;
    verbosity = normal;
    selector = c.selector;
    extra = [];
  }

  abbrev pub publish_options : Bytes → Message → PublishOptions
  publish_options body src = record {
    topic = c.destination;
    message = body;
    key = src.key;
    properties = src.properties;
    message_id = src.message_id;
    correlation_id = src.correlation_id;
    reply_to = src.reply_to;
    content_type = src.content_type;
    priority = src.priority;
    persistent = src.persistent;
    ttl = 0;
    extra = [];
  }

  abbrev pub send_options : Bytes → Message → SendOptions
  send_options body src = record {
    queue = c.destination;
    message = body;
    properties = src.properties;
    message_id = src.message_id;
    correlation_id = src.correlation_id;
    reply_to = src.reply_to;
    content_type = src.content_type;
    priority = src.priority;
    persistent = src.persistent;
    key = src.key;
    ttl = 0;
    extra = [];
  }

  -- readFn and writeFn, as the calls that they make.
  abbrev pub read_event : Read → Event
  read_event r = if c.from_topic then subscribed subscribe_options r else received receive_options r

  abbrev pub write_event : Bytes → Message → Option GoError → Event
  write_event body src e =
      if c.to_topic then published (publish_options body src) e else sent (send_options body src) e

  abbrev pub forward_failed : GoError → GoError
  forward_failed e = wrapped (codes "forward to " ++ (c.destination ++ codes " failed: ")) e []

-- The switch on the read.
unfoldable pub forward_switch : Option GoError → Option Message → Polled
forward_switch (some e) m =
    if is_error e canceled
    then stop
    else if is_error e deadline_exceeded || is_error e no_message_available
    then again
    else fail e
forward_switch none none = again
forward_switch none (some m) = got m

module _ (env : Environment) (c : ForwardFlags) where
  unfoldable pub read_fn : Trace → Read
  read_fn t =
      if c.from_topic
      then env.subscribe (subscribe_options c) t
      else env.receive (receive_options c) t

  unfoldable pub write_fn : Bytes → Message → Trace → Option GoError
  write_fn body src t =
      if c.to_topic
      then env.publish (publish_options c body src) t
      else env.send (send_options c body src) t

  unfoldable pub summarize_forward : ℕ → Trace → Result
  summarize_forward forwarded t =
      finished none forwarded (summary forwarded c.source c.destination ∷ t)

  -- What follows the write.
  unfoldable pub forward_written :
      (ℕ → Trace → Result) → ℕ → Message → Option GoError → Trace → Result
  forward_written loop forwarded m (some e) t =
      finished (some (forward_failed c e)) forwarded (recovered m.payload ∷ t)
  forward_written loop forwarded m none t = loop (forwarded + 1) t

  unfoldable pub forward_body : (ℕ → Trace → Result) → ℕ → Message → Bytes → Trace → Result
  unfolding forward_written write_fn
  forward_body loop forwarded m body t =
      let e = write_fn body m t in forward_written loop forwarded m e (write_event c body m e ∷ t)

  -- A failed command leaves the payload on the output, and the loop goes on.
  unfoldable pub forward_ran : (ℕ → Trace → Result) → ℕ → Message → Option Bytes → Trace → Result
  unfolding forward_body
  forward_ran loop forwarded m none t = loop forwarded (recovered m.payload ∷ t)
  forward_ran loop forwarded m (some body) t = forward_body loop forwarded m body t

  -- runCommandOrRecover, and the rest of the round.
  unfoldable pub forward_got : (ℕ → Trace → Result) → ℕ → Message → Trace → Result
  unfolding forward_ran
  forward_got loop forwarded m t =
      if is_empty c.command
      then forward_body loop forwarded m m.payload t
      else (let out = env.run c.command m.payload t in
          forward_ran loop forwarded m out (ran c.command m.payload out ∷ t))

  unfoldable pub forward_polled : (ℕ → Trace → Result) → ℕ → Polled → Trace → Result
  unfolding summarize_forward forward_got
  forward_polled loop forwarded stop t = summarize_forward forwarded t
  forward_polled loop forwarded again t = loop forwarded t
  forward_polled loop forwarded (fail e) t = finished (some e) forwarded t
  forward_polled loop forwarded (got m) t = forward_got loop forwarded m t

  unfoldable pub forward_round : (ℕ → Trace → Result) → ℕ → Option GoError → Trace → Result
  unfolding forward_polled forward_switch read_fn
  forward_round loop forwarded (some e) t = summarize_forward forwarded t
  forward_round loop forwarded none t =
      let r = read_fn t in
      forward_polled loop forwarded (forward_switch r.error r.message) (read_event c r ∷ t)

  -- The loop, with fuel for its rounds.
  unfoldable pub forward_loop : ℕ → ℕ → Trace → Result
  unfolding forward_round summarize_forward
  forward_loop zero forwarded t = running forwarded t
  forward_loop (suc fuel) forwarded t =
      let round = forward_round (forward_loop fuel) forwarded (env.context_error t) t in
      if is_le_zero c.count || lt_int forwarded c.count
      then round
      else summarize_forward forwarded t

  -- The argument is the error of ParseStreamingFlags.
  unfoldable pub do_forward : Option GoError → ℕ → Result
  unfolding forward_loop
  do_forward flags_error fuel =
      if text_eq c.source c.destination && bool_eq c.from_topic c.to_topic
      then finished (some (plain (codes "source and destination must differ"))) 0 []
      else elim flags_error [ some e ↦ finished (some e) 0 [] | none ↦ forward_loop fuel 0 [] ]
