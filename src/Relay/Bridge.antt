-- ===== src/Relay/Bridge.antt =====
-- doBridge, resolveBridgeTopology and startTargetProcess of cmd/bridge.go. The target process is
-- the operating system's: what writing to its pipe returns is the environment's. When the loop ends
-- the pipe is closed and the process awaited, which is not modelled.
pub mod Conserves
use xmc.Prelude.{
  ℕ, zero, suc, ◌+◌, Bool, true, false, not, ◌&&◌, ◌||◌, Option, none, some, List, [], ◌∷◌, ◌++◌,
  Text, codes, contains, ℤ, is_zero, lt_int, if◌then◌else◌, is_some,
}
use xmc.Errors.{GoError, wrapped, is_error, deadline_exceeded, no_message_available}
use xmc.Backends.{Message, Read, ReceiveOptions, SubscribeOptions, quiet}
use xmc.Relay.{
  Event, received, subscribed, piped, recovered, summary, Trace, Environment, Result, finished,
  running,
}

-- resolveBridgeTopology: what the broker can do, and the flag.
unfoldable pub resolve_bridge_topology : Bool → Bool → Bool → Bool
resolve_bridge_topology queue_capable topic_capable topic_flag =
    if topic_capable && not queue_capable
    then true
    else if queue_capable && not topic_capable
    then false
    else topic_flag

-- The flags and the argument; `use_topic` is `topicBackend != nil`.
pub record BridgeFlags : Type 0 where
  pub source : Text
  pub target : Text
  pub group : Text
  pub use_topic : Bool
  pub timeout : ℕ
  pub count : ℤ
  pub selector : Text

-- How the loop ends; `crashed` is the nil dereference of a read without message and error.
pub data Bridged : Type 0 where
  ended : Result → Bridged
  crashed : ℕ → Trace → Bridged

-- The command line of startTargetProcess.
unfoldable pub target_command : Text → Text
target_command target =
    if contains target (codes "--ndjson") then target else target ++ codes " --ndjson"

module _ (c : BridgeFlags) where
  abbrev pub bridge_subscribe : SubscribeOptions
  bridge_subscribe = record {
    topic = c.source;
    group_id = c.group;
    timeout = c.timeout;
    wait = false;
    verbosity = quiet;
    selector = c.selector;
    durable = false;
    acknowledge = true;
    extra = [];
  }

  abbrev pub bridge_receive : ReceiveOptions
  bridge_receive = record {
    queue = c.source;
    timeout = c.timeout;
    wait = false;
    acknowledge = true;
    verbosity = quiet;
    selector = c.selector;
    extra = [];
  }

  abbrev pub bridge_event : Read → Event
  bridge_event r = if c.use_topic then subscribed bridge_subscribe r else received bridge_receive r

  abbrev pub read_label : Text
  read_label = if c.use_topic then codes "subscribe from" else codes "receive from"

  abbrev pub read_error : GoError → GoError
  read_error e = wrapped (read_label ++ (codes " " ++ (c.source ++ codes ": "))) e []

abbrev pub pipe_error : GoError → GoError
pipe_error e =
    wrapped (codes "write to target: ") (wrapped (codes "failed to marshal message record: ") e [])
      []

module _ (env : Environment) (c : BridgeFlags) where
  unfoldable pub bridge_read : Trace → Read
  bridge_read t =
      if c.use_topic then env.subscribe (bridge_subscribe c) t else env.receive (bridge_receive c) t

  unfoldable pub summarize_bridge : ℕ → Trace → Bridged
  summarize_bridge bridged t = ended (finished none bridged (summary bridged c.source c.target ∷ t))

  -- displayMessageNDJSON and what follows it, given the error of json.Marshal: the line is written
  -- to the pipe, and the error of this write is dropped.
  unfoldable pub bridge_piped :
      (ℕ → Trace → Bridged) → ℕ → Message → Option GoError → Trace → Bridged
  bridge_piped loop bridged m (some e) t =
      ended (finished (some (pipe_error e)) bridged (recovered m.payload ∷ t))
  bridge_piped loop bridged m none t = loop (bridged + 1) (piped m (env.pipe m t) ∷ t)

  -- A read error, with what the context says after it.
  unfoldable pub bridge_failed :
      (ℕ → Trace → Bridged) → ℕ → GoError → Option GoError → Trace → Bridged
  unfolding summarize_bridge
  bridge_failed loop bridged e (some x) t = summarize_bridge bridged t
  bridge_failed loop bridged e none t =
      if is_error e no_message_available || is_error e deadline_exceeded
      then loop bridged t
      else ended (finished (some (read_error c e)) bridged t)

  -- What follows the read.
  unfoldable pub bridge_got :
      (ℕ → Trace → Bridged) → ℕ → Option GoError → Option Message → Trace → Bridged
  unfolding bridge_failed bridge_piped
  bridge_got loop bridged (some e) o t = bridge_failed loop bridged e (env.context_error t) t
  bridge_got loop bridged none none t = crashed bridged t
  bridge_got loop bridged none (some m) t = bridge_piped loop bridged m (env.marshal m) t

  unfoldable pub bridge_round : (ℕ → Trace → Bridged) → ℕ → Option GoError → Trace → Bridged
  unfolding bridge_got bridge_read summarize_bridge
  bridge_round loop bridged (some e) t = summarize_bridge bridged t
  bridge_round loop bridged none t =
      let r = bridge_read t in bridge_got loop bridged r.error r.message (bridge_event c r ∷ t)

  -- The loop, with fuel for its rounds.
  unfoldable pub bridge_loop : ℕ → ℕ → Trace → Bridged
  unfolding bridge_round summarize_bridge
  bridge_loop zero bridged t = ended (running bridged t)
  bridge_loop (suc fuel) bridged t =
      let round = bridge_round (bridge_loop fuel) bridged (env.context_error t) t in
      if is_zero c.count || lt_int bridged c.count then round else summarize_bridge bridged t

  -- The arguments are the errors of ParseStreamingFlags and of the start of the target.
  unfoldable pub do_bridge : Option GoError → Option GoError → ℕ → Bridged
  unfolding bridge_loop
  do_bridge (some e) start_error fuel = ended (finished (some e) 0 [])
  do_bridge none (some e) fuel = ended (finished (some e) 0 [])
  do_bridge none none fuel = bridge_loop fuel 0 []
