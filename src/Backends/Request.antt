-- ===== src/Backends/Request.antt =====
-- broker/backends/request.go: the broker-neutral request/reply exchange.
pub mod Matching
use xmc.Prelude.{
  ℕ, Bool, true, false, not, ◌&&◌, Option, none, some, List, [], ◌∷◌, ◌++◌, Text, codes, text_eq,
  is_empty, leb, if◌then◌else◌,
}
use xmc.Errors.{GoError, sentinel, wrapped, request_send, no_message_available, reply_mismatch}
use xmc.Values.{Fields}
use xmc.Backends.{Bytes, Message, Read, SendOptions, ReceiveOptions, RequestOptions, normal}
use xmc.Backends.Naming.{random_suffix}

abbrev pub default_reply_queue : Text
default_reply_queue = codes "xmc.reply"

-- 30 seconds
abbrev pub default_request_timeout : ℕ
default_request_timeout = 30_000

-- newCorrelationID, from two draws of random bytes.
unfoldable pub new_correlation_id : Bytes → Bytes → Text
unfolding random_suffix
new_correlation_id r1 r2 = codes "xmc-" ++ (random_suffix r1 ++ random_suffix r2)

-- EnsureCorrelationID: the options with the id filled in. The id that is returned is theirs.
unfoldable pub ensure_correlation_id : Bytes → Bytes → RequestOptions → RequestOptions
unfolding new_correlation_id
ensure_correlation_id r1 r2 opts =
    if is_empty opts.correlation_id
    then (if is_empty opts.message_id
        then record opts { correlation_id = new_correlation_id r1 r2 }
        else record opts { correlation_id = opts.message_id })
    else opts

-- What the exchange asks of the queue backend: the two calls, in this order.
pub record Exchange : Type 0 where
  pub send : SendOptions → Option GoError
  pub receive : ReceiveOptions → Read

pub data Call : Type 0 where
  sent : SendOptions → Call
  received : ReceiveOptions → Call

unfoldable pub request_options : Bytes → Bytes → RequestOptions → RequestOptions
unfolding ensure_correlation_id
request_options r1 r2 opts =
    let o = ensure_correlation_id r1 r2 opts in
    let o' = if is_empty o.reply_to then record o { reply_to = default_reply_queue } else o in
    if leb o'.timeout 0 then record o' { timeout = default_request_timeout } else o'

abbrev pub send_of : RequestOptions → SendOptions
send_of o = record {
  queue = o.address;
  message = o.message;
  properties = o.properties;
  message_id = o.message_id;
  correlation_id = o.correlation_id;
  reply_to = o.reply_to;
  content_type = o.content_type;
  priority = o.priority;
  persistent = o.persistent;
  key = [];
  ttl = 0;
  extra = [];
}

abbrev pub receive_of : RequestOptions → ReceiveOptions
receive_of o = record {
  queue = o.reply_to;
  timeout = o.timeout;
  wait = false;
  acknowledge = true;
  verbosity = normal;
  selector = [];
  extra = [];
}

abbrev pub failed : GoError → Read
failed e = record { message = none; error = some e }

abbrev pub mismatch : Text → Text → GoError
mismatch expected got =
    wrapped [] (sentinel reply_mismatch)
      (codes " (expected \"" ++ (expected ++ (codes "\", got \"" ++ (got ++ codes "\")"))))

-- What follows the receive.
unfoldable pub check_reply : Text → Read → Read
check_reply id r = elim r.error [
  | some e ↦ failed e
  | none ↦ elim r.message [
    | none ↦ failed (sentinel no_message_available)
    | some m ↦
        if not (is_empty m.correlation_id) && not (text_eq m.correlation_id id)
        then failed (mismatch id m.correlation_id)
        else record { message = some m; error = none }
  ]
]

-- The two calls, with the options filled in: the result, and the calls that were made.
unfoldable pub exchange : Exchange → RequestOptions → Read × List Call
unfolding check_reply
exchange qb o = elim (qb.send (send_of o)) [
  | some e ↦ (failed (request_send e), sent (send_of o) ∷ [])
  | none ↦ (
    check_reply o.correlation_id (qb.receive (receive_of o)),
    sent (send_of o) ∷ received (receive_of o) ∷ [],
  )
]

-- defaultRequest
unfoldable pub default_request : Exchange → Bytes → Bytes → RequestOptions → Read × List Call
default_request qb r1 r2 opts = exchange qb (request_options r1 r2 opts)
