-- ===== src/Mcp/Tools/Wire.antt =====
-- The arguments of the tools of mcp/tools.go, the calls that they make of a broker, and what they
-- answer.
use xmc.Prelude.{ℕ, zero, suc, Bool, Option, none, some, List, [], ◌∷◌, Text, ℤ, pos, negsuc}
use xmc.Errors.{GoError}
use xmc.Values.{Fields}
use xmc.Backends.{
  Bytes, Message, Read, SendOptions, ReceiveOptions, PublishOptions, SubscribeOptions,
  RequestOptions,
}
use xmc.Backends.Request

-- A call of a queue or topic adapter, or of a management hook, with its result. The call of a
-- native request is `requested`; `inspected` is one of ListQueues, QueueStats and ListTopics.
pub data Call : Type 0 where
  connected : Option GoError → Call
  closed : Call
  sent : SendOptions → Option GoError → Call
  received : ReceiveOptions → Read → Call
  browsed : ReceiveOptions → Option GoError → Call
  browser_read : Read → Call
  browser_closed : Call
  published : PublishOptions → Option GoError → Call
  subscribed : SubscribeOptions → Read → Call
  requested : RequestOptions → Read → Call
  purged : Text → Option GoError → Call
  inspected : Option GoError → Call

abbrev pub Calls : Type 0
Calls = List Call

-- The errors that a handler returns, with what their texts are made of.
pub data Failure : Type 0 where
  missing bad_count refused_purge no_reply : Failure
  no_connection unreachable request_not_sent wrong_reply request_failed browse_failed purge_failed
        manage_failed not_marshalled :
      GoError → Failure
  send_failed publish_failed : ℕ → ℕ → GoError → Failure
  read_failed consume_failed : ℕ → GoError → Failure

-- The values that are given to jsonResult.
pub data Answer : Type 0 where
  sent_to published_to : ℕ → Text → Answer
  replied : Message → Answer
  read_from consumed_from : Text → List Message → Answer
  pong listed : Answer
  purged_from : Text → Answer

pub data Reply : Type 0 where
  done : Answer → Reply
  failed : Failure → Reply

-- What the broker answers after some calls. `native_request` and `browse` are none when the adapter
-- has no such method; `random` is what crypto/rand fills in for a correlation id.
pub record Broker : Type 0 where
  pub connect : Calls → Option GoError
  pub send : Calls → SendOptions → Option GoError
  pub receive : Calls → ReceiveOptions → Read
  pub browse : Option (Calls → ReceiveOptions → Option GoError)
  pub browser_next : Calls → Read
  pub publish : Calls → PublishOptions → Option GoError
  pub subscribe : Calls → SubscribeOptions → Read
  pub native_request : Option (Calls → RequestOptions → Read)
  pub purge : Calls → Text → Option GoError
  pub inspect : Calls → Option GoError
  pub random : Bytes × Bytes
  -- the error of json.MarshalIndent
  pub marshal : Answer → Option GoError

-- jsonResult of a value that has messages in it, whose properties may be of any type. The other
-- values have texts and numbers alone, which are always encoded.
unfoldable pub json_result : Broker → Answer → Reply
json_result b a = elim (b.marshal a) [ none ↦ done a | some e ↦ failed (not_marshalled e) ]

-- sendArgs
pub record SendArgs : Type 0 where
  pub address : Text
  pub body : Bytes
  pub properties : Fields
  pub content_type : Text
  pub correlation_id : Text
  pub message_id : Text
  pub reply_to : Text
  pub priority : Option ℕ
  pub persistent : Bool
  pub ttl_ms : ℕ
  pub count : Option ℤ

-- requestArgs
pub record RequestArgs : Type 0 where
  pub address : Text
  pub body : Bytes
  pub reply_to : Text
  pub timeout : Option ℕ
  pub properties : Fields
  pub content_type : Text
  pub correlation_id : Text
  pub priority : Option ℕ

-- readArgs
pub record ReadArgs : Type 0 where
  pub queue : Text
  pub count : Option ℤ
  pub timeout : Option ℕ
  pub selector : Text

-- publishArgs
pub record PublishArgs : Type 0 where
  pub topic : Text
  pub body : Bytes
  pub properties : Fields
  pub content_type : Text
  pub correlation_id : Text
  pub message_id : Text
  pub reply_to : Text
  pub key : Text
  pub ttl_ms : ℕ
  pub count : Option ℤ

-- consumeArgs
pub record ConsumeArgs : Type 0 where
  pub topic : Text
  pub group : Text
  pub count : Option ℤ
  pub timeout : Option ℕ

-- What a handler returned, and the calls up to then.
abbrev pub Ran : Type 0
Ran = Reply × Calls

-- orDefault
abbrev pub or_default : Text → Text → Text
or_default [] def = def
or_default (c ∷ v) def = c ∷ v

-- The count, 1 if it is not given; none when it is below 1.
abbrev pub count_of : Option ℤ → Option ℕ
count_of none = some 1
count_of (some (pos zero)) = none
count_of (some (pos (suc n))) = some (suc n)
count_of (some (negsuc n)) = none

abbrev pub given {ℓ} : {A : Type ℓ} → Option A → A → A
given none def = def
given (some a) def = a

-- A call that the exchange of broker/backends/request.go makes, as the broker answers it.
abbrev pub note_call : Broker → Calls → Request.Call → Calls
note_call b log (Request.sent o) = sent o (b.send log o) ∷ log
note_call b log (Request.received o) = received o (b.receive log o) ∷ log

abbrev pub note_calls : Broker → Calls → List Request.Call → Calls
note_calls b log [] = log
note_calls b log (c ∷ cs) = note_calls b (note_call b log c) cs
