-- ===== src/Examples/Responder.antt =====
-- The theorem on the responder at a concrete broker.
use xmc.Prelude.{true, false, none, some, List, [], ◌∷◌, ◌≡◌, refl, codes, inr, pos}
use xmc.Errors.{sentinel, no_message_available, is_error}
use xmc.Values.{no_fields}
use xmc.Backends.{Bytes, Message, Read}
use xmc.Relay.{Environment, trace_of, consumed, settled_to}
use xmc.Relay.Reply.{ReplyFlags, Streaming, do_reply}

abbrev request : Message
request = record {
  payload = codes "ping";
  properties = no_fields;
  message_id = codes "m7";
  correlation_id = [];
  reply_to = codes "answers";
  content_type = [];
  priority = 4;
  persistent = false;
  key = [];
  internal_metadata = no_fields;
}

-- One request, then nothing.
abbrev next_read : List Bytes → Read
next_read [] = record { message = some request; error = none }
next_read (a ∷ rest) = record { message = none; error = some (sentinel no_message_available) }

abbrev broker : Environment
broker = record {
  context_error = λ t. none;
  receive = λ o t. next_read (consumed t);
  subscribe = λ o t. next_read (consumed t);
  send = λ o t. none;
  publish = λ o t. none;
  run = λ command input t. none;
  marshal = λ m. none;
  pipe = λ m t. none;
  print = λ t. none;
}

abbrev echo_flags : ReplyFlags
echo_flags = record {
  queue = codes "rpc";
  echo = true;
  command = [];
  reply_to = [];
  content_type = [];
  count = pos 2;
  count_changed = true;
  timeout = 500;
  selector = [];
}

abbrev once : Streaming
once = record { duration = 0; forever = false; follow = false }

echoed_back :
    settled_to
      (codes "answers")
      (trace_of (do_reply broker echo_flags (inr once) (inr no_fields) (inr []) 5))
    ≡ codes "ping" ∷ []
unfolding do_reply is_error consumed settled_to
echoed_back = refl
