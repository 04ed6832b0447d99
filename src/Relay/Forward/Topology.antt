-- ===== src/Relay/Forward/Topology.antt =====
-- WrapForwardCommand and doForward of cmd/forward.go resolve the topology twice: by what the broker
-- can do, and by which adapters were then opened.
use xmc.Prelude.{Bool, true, false, not, ◌&&◌, ◌||◌, ◌≡◌, refl}
use xmc.Relay.Forward.{resolve_forward_topology}

-- The tests of WrapForwardCommand.
unfoldable pub opens_queue : Bool × Bool → Bool
opens_queue (from_topic, to_topic) = not from_topic || not to_topic

unfoldable pub opens_topic : Bool × Bool → Bool
opens_topic (from_topic, to_topic) = from_topic || to_topic

abbrev again : Bool → Bool → Bool × Bool → Bool × Bool
again from_flag to_flag t =
    resolve_forward_topology (opens_queue t) (opens_topic t) from_flag to_flag

-- On a broker that can do queues, topics or both, the second resolution gives the first one's
-- topology, and no adapter is opened that the broker lacks.
pub resolve_forward_topology_twice :
    (queue topic from_flag to_flag : Bool)
    → queue || topic ≡ true
    → (again from_flag to_flag (resolve_forward_topology queue topic from_flag to_flag)
        ≡ resolve_forward_topology queue topic from_flag to_flag)
      × (opens_queue (resolve_forward_topology queue topic from_flag to_flag) && not queue ≡ false)
      × (opens_topic (resolve_forward_topology queue topic from_flag to_flag) && not topic ≡ false)
unfolding resolve_forward_topology opens_queue opens_topic
resolve_forward_topology_twice true true true true h = (refl, refl, refl)
resolve_forward_topology_twice true true true false h = (refl, refl, refl)
resolve_forward_topology_twice true true false true h = (refl, refl, refl)
resolve_forward_topology_twice true true false false h = (refl, refl, refl)
resolve_forward_topology_twice true false f t h = (refl, refl, refl)
resolve_forward_topology_twice false true f t h = (refl, refl, refl)
resolve_forward_topology_twice false false f t h = absurd (cc)
