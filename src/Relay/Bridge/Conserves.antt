-- ===== src/Relay/Bridge/Conserves.antt =====
-- What becomes of the messages that doBridge of cmd/bridge.go takes.
use xmc.Prelude.{ℕ, ◌∷◌, ◌≡◌}
use xmc.Backends.{Message}
use xmc.Relay.{Trace, Environment, trace_of, consumed, handed_over}
use xmc.Relay.Bridge.{BridgeFlags, Bridged, ended, crashed}

abbrev pub bridge_trace : Bridged → Trace
bridge_trace (ended r) = trace_of r
bridge_trace (crashed n t) = t

-- Everything taken was handed over.
abbrev Kept : Trace → Type 0
Kept t = consumed t ≡ handed_over t

module _ (env : Environment) (c : BridgeFlags) where
  abbrev Good : (ℕ → Trace → Bridged) → Type 0
  Good loop = (n : ℕ) (t : Trace) → Kept t → Kept (bridge_trace (loop n t))

  -- A message was read and nothing else done since.
  abbrev Holding : Message → Trace → Type 0
  Holding m t = consumed t ≡ m.payload ∷ handed_over t
