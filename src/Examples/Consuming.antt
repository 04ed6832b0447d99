-- ===== src/Examples/Consuming.antt =====
-- The theorem on consumeMessages at a concrete source.
use xmc.Prelude.{true, false, none, some, List, [], ◌∷◌, ◌≡◌, refl, Text, codes, pos, map}
use xmc.Errors.{sentinel, no_message_available, is_error}
use xmc.Values.{no_fields}
use xmc.Backends.{Bytes, Message, Read, normal}
use xmc.Consume.{ConsumeConfig, Environment, consume_messages}
use xmc.Consume.Order.{steps_of, taken, displayed, Accounted, consume_messages-Accounted}

abbrev message_of : Text → Message
message_of body = record {
  payload = body;
  properties = no_fields;
  message_id = [];
  correlation_id = [];
  reply_to = [];
  content_type = [];
  priority = 4;
  persistent = false;
  key = [];
  internal_metadata = no_fields;
}

abbrev next_read : List Message → Read
next_read [] = record { message = some (message_of (codes "one")); error = none }
next_read (a ∷ []) = record { message = some (message_of (codes "two")); error = none }
next_read (a ∷ b ∷ rest) = record { message = none; error = some (sentinel no_message_available) }

abbrev source : Environment
source = record {
  context_error = λ t. none;
  receive = λ t. next_read (taken t);
  output = λ d m t. none;
}

abbrev skip_one : ConsumeConfig
skip_one = record {
  count = pos 0;
  json_output = false;
  verbosity = normal;
  format = [];
  ndjson = true;
  follow = false;
  omit = pos 1;
}

second_shown :
    map {B = Bytes}
      (λ (m : Message). m.payload)
      (displayed (steps_of (consume_messages source skip_one 5)))
    ≡ codes "two" ∷ []
unfolding consume_messages is_error
second_shown = refl

consume_messages-Accounted_example : Accounted skip_one.omit (consume_messages source skip_one 5)
consume_messages-Accounted_example = consume_messages-Accounted source skip_one 5
