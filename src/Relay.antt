-- ===== src/Relay.antt =====
-- What the relay loops of cmd (move, forward, bridge, reply, receive) share: the calls that they
-- make, the environment that answers them, and the switch on what a read returned. An environment
-- answers from all that has happened before, newest first, so it can be any broker, shell and
-- clock. Log lines and diagnostics on stderr are not modelled.
pub mod Reads
pub mod Move
pub mod Forward
pub mod Reply
pub mod Bridge
use xmc.Prelude.{
  ℕ, Bool, true, false, ◌||◌, Option, none, some, List, [], ◌∷◌, ◌++◌, Text, text_eq, if◌then◌else◌,
}
use xmc.Errors.{GoError}
use xmc.Backends.{
  Bytes, Message, Read, ReceiveOptions, SubscribeOptions, SendOptions, PublishOptions,
}

pub data Event : Type 0 where
  received : ReceiveOptions → Read → Event
  subscribed : SubscribeOptions → Read → Event
  sent : SendOptions → Option GoError → Event
  published : PublishOptions → Option GoError → Event
  -- a shell command, its input, and its output unless it failed
  ran : Text → Bytes → Option Bytes → Event
  -- a message written to the target process of bridge, as an NDJSON record
  piped : Message → Option GoError → Event
  -- a payload written to the output for recovery
  recovered : Bytes → Event
  -- the final line: how many, from where, to where
  summary : ℕ → Text → Text → Event

abbrev pub Trace : Type 0
Trace = List Event

pub record Environment : Type 0 where
  pub context_error : Trace → Option GoError
  pub receive : ReceiveOptions → Trace → Read
  pub subscribe : SubscribeOptions → Trace → Read
  pub send : SendOptions → Trace → Option GoError
  pub publish : PublishOptions → Trace → Option GoError
  pub run : Text → Bytes → Trace → Option Bytes
  -- json.Marshal of the record of a message, and the write of its line to the target's pipe
  pub marshal : Message → Option GoError
  pub pipe : Message → Trace → Option GoError
  -- the write of the final line
  pub print : Trace → Option GoError

-- What a loop does next.
pub data Polled : Type 0 where
  stop : Polled
  again : Polled
  fail : GoError → Polled
  got : Message → Polled

-- How a loop ends: by returning an error or nil, or not within its fuel.
pub data Result : Type 0 where
  finished : Option GoError → ℕ → Trace → Result
  running : ℕ → Trace → Result

abbrev pub trace_of : Result → Trace
trace_of (finished e n t) = t
trace_of (running n t) = t

abbrev pub count_of : Result → ℕ
count_of (finished e n t) = n
count_of (running n t) = n

-- The payloads that were read without error, newest first.
abbrev pub read_payload : Read → List Bytes
read_payload r = elim r.error [
  | some e ↦ []
  | none ↦ elim r.message [ none ↦ [] | some m ↦ m.payload ∷ [] ]
]

unfoldable pub consumed : Trace → List Bytes
consumed [] = []
consumed (received o r ∷ t) = read_payload r ++ consumed t
consumed (subscribed o r ∷ t) = read_payload r ++ consumed t
consumed (_ ∷ t) = consumed t

abbrev pub if_named : Text → Text → Bytes → List Bytes
if_named name dest b = if text_eq name dest then b ∷ [] else []

-- The payloads that were sent or published to the destination without error, or written out, newest
-- first.
unfoldable pub settled_to : Text → Trace → List Bytes
settled_to dest [] = []
settled_to dest (sent o none ∷ t) = if_named o.queue dest o.message ++ settled_to dest t
settled_to dest (published o none ∷ t) = if_named o.topic dest o.message ++ settled_to dest t
settled_to dest (recovered p ∷ t) = p ∷ settled_to dest t
settled_to dest (_ ∷ t) = settled_to dest t

-- The payloads of the messages that were written to the target, whether the write succeeded, or
-- written out, newest first.
unfoldable pub handed_over : Trace → List Bytes
handed_over [] = []
handed_over (piped m e ∷ t) = m.payload ∷ handed_over t
handed_over (recovered p ∷ t) = p ∷ handed_over t
handed_over (_ ∷ t) = handed_over t
