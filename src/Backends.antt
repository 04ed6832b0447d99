-- ===== src/Backends.antt =====
-- broker/backends: messages, the options of the operations, verbosity, timeouts and names.
-- Timeouts are float32 seconds there and whole milliseconds here; the callers set them from
-- durations, which are never negative, so `timeout <= 0` is a test for 0.
pub mod Naming
pub mod Request
use xmc.Prelude.{
  ℕ, ◌*◌, Bool, true, false, Option, none, some, List, [], ◌∷◌, Text, leb, ◌==◌, if◌then◌else◌,
}
use xmc.Errors.{GoError}
use xmc.Values.{Fields}

-- []byte
abbrev pub Bytes : Type 0
Bytes = List ℕ

-- map[string]string
abbrev pub Extra : Type 0
Extra = List (Text × Text)

pub data Verbosity : Type 0 where
  quiet normal verbose : Verbosity

-- The ordering `>=` of the constants.
unfoldable pub at_least : Verbosity → Verbosity → Bool
at_least v quiet = true
at_least quiet normal = false
at_least normal normal = true
at_least verbose normal = true
at_least quiet verbose = false
at_least normal verbose = false
at_least verbose verbose = true

pub record Message : Type 0 where
  pub payload : Bytes
  pub properties : Fields
  pub message_id : Text
  pub correlation_id : Text
  pub reply_to : Text
  pub content_type : Text
  pub priority : ℕ
  pub persistent : Bool
  pub key : Text
  pub internal_metadata : Fields

pub record SendOptions : Type 0 where
  pub queue : Text
  pub message : Bytes
  pub properties : Fields
  pub message_id : Text
  pub correlation_id : Text
  pub reply_to : Text
  pub content_type : Text
  pub priority : ℕ
  pub persistent : Bool
  pub key : Text
  pub ttl : ℕ
  pub extra : Extra

pub record ReceiveOptions : Type 0 where
  pub queue : Text
  pub timeout : ℕ
  pub wait : Bool
  pub acknowledge : Bool
  pub verbosity : Verbosity
  pub selector : Text
  pub extra : Extra

pub record PublishOptions : Type 0 where
  pub topic : Text
  pub message : Bytes
  pub key : Text
  pub properties : Fields
  pub message_id : Text
  pub correlation_id : Text
  pub reply_to : Text
  pub content_type : Text
  pub priority : ℕ
  pub persistent : Bool
  pub ttl : ℕ
  pub extra : Extra

pub record SubscribeOptions : Type 0 where
  pub topic : Text
  pub group_id : Text
  pub timeout : ℕ
  pub wait : Bool
  pub verbosity : Verbosity
  pub selector : Text
  pub durable : Bool
  pub acknowledge : Bool
  pub extra : Extra

pub record RequestOptions : Type 0 where
  pub address : Text
  pub message : Bytes
  pub properties : Fields
  pub content_type : Text
  pub message_id : Text
  pub correlation_id : Text
  pub reply_to : Text
  pub priority : ℕ
  pub persistent : Bool
  pub timeout : ℕ

-- (*Message, error)
pub record Read : Type 0 where
  pub message : Option Message
  pub error : Option GoError

-- TimeoutDuration, in milliseconds.
unfoldable pub timeout_duration : ℕ → Bool → ℕ
timeout_duration timeout wait =
    if wait then 24 * 60 * 60 * 1000 else if leb timeout 0 then 5 * 1000 else timeout
