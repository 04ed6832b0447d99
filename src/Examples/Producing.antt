-- ===== src/Examples/Producing.antt =====
-- The theorems on the commands that write messages, at concrete inputs.
use xmc.Prelude.{
  Bool, true, false, Option, none, some, List, [], ◌∷◌, ◌++◌, ◌≡◌, refl, Text, codes, pos, leb,
  length, ltb, if◌then◌else◌,
}
use xmc.Errors.{plain}
use xmc.Values.{string, null, field, no_fields}
use xmc.Backends.{Bytes, Message}
use xmc.Produce.Records.{MessageRecord, ImportFlags, new_message_record}
use xmc.Produce.Targets.{
  RoutingFlags, TargetSpec, Resolved, dest, resolve_produce_target, resolve_consume_target,
  without_args, writer_args, reader_args, targets_agree,
}
use xmc.Produce.Run.{Item, payload, Broker, Input, ProduceFlags, run_produce}
use xmc.Produce.Run.InOrder.{planned_items, is_readable, accepted, run_produce-plan}

-- ASCII stands for UTF-8, and a code behind a mark for base64.
abbrev valid : Bytes → Bool
valid [] = true
valid (c ∷ b) = let rest = valid b in if ltb c 128 then rest else false

abbrev encode : Bytes → Text
encode b = b'=' ∷ b

abbrev decode : Text → Option Bytes
decode [] = none
decode (c ∷ b) = some b

abbrev exported : Message
exported = record {
  payload = 200 ∷ 1 ∷ [];
  properties = field (codes "color") (string (codes "red")) (field (codes "note") null no_fields);
  message_id = codes "m1";
  correlation_id = [];
  reply_to = [];
  content_type = codes "text/plain";
  priority = 4;
  persistent = true;
  key = [];
  internal_metadata = no_fields;
}

abbrev import_flags : ImportFlags
import_flags = record { key = codes "k"; ttl = 0 }

-- A codec that knows the one line.
abbrev marshal : MessageRecord → Option Text
marshal r = some (codes "{}")

abbrev unmarshal : Text → Option MessageRecord
unmarshal line = some (new_message_record valid encode decode exported)

abbrev by_name : TargetSpec → Resolved
by_name s = dest (s.exchange ++ (codes "/" ++ s.to))

abbrev routing : RoutingFlags
routing = record { exchange = codes "e"; queue = []; routing_key = [] }

targets_agree_example :
    without_args (
      resolve_produce_target
        (some by_name)
        routing
        false
        (writer_args routing (codes "key") (codes "hello")))
    ≡ resolve_consume_target (some by_name) routing false (reader_args routing (codes "key"))
targets_agree_example = targets_agree by_name routing false (codes "key") (codes "hello")

-- The third item fails.
abbrev broker : Broker
broker = record {
  context_error = λ t. none;
  emit = λ t x. if leb 2 (length t) then some (plain (codes "full")) else none;
}

abbrev sent_lines : Input
sent_lines = record {
  message = [];
  message_error = none;
  input = codes "a" ∷ codes "b" ∷ codes "c" ∷ [];
  input_error = none;
  parse = λ l. none;
  parse_error = plain (codes "no record");
}

abbrev by_lines : ProduceFlags
by_lines = record { ndjson = false; lines = true; count = pos 1 }

run_produce-plan_example :
    (left : List Item) × (planned_items by_lines sent_lines
      ≡ accepted (run_produce broker by_lines sent_lines).1 ++ left)
    × ((run_produce broker by_lines sent_lines).0 ≡ none
        → (left ≡ []) × (is_readable by_lines sent_lines ≡ true))
run_produce-plan_example = run_produce-plan broker by_lines sent_lines

two_taken :
    accepted (run_produce broker by_lines sent_lines).1
    ≡ payload (codes "a") ∷ payload (codes "b") ∷ []
unfolding run_produce
two_taken = refl
