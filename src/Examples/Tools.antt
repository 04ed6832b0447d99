-- ===== src/Examples/Tools.antt =====
-- The theorems on mcp/tools.go at a concrete broker.
use xmc.Prelude.{
  ◌+◌, true, false, none, some, List, [], ◌∷◌, ◌≡◌, refl, codes, pos, length, ltb, if◌then◌else◌,
}
use xmc.Errors.{sentinel, plain, no_message_available}
use xmc.Values.{no_fields}
use xmc.Backends.{Message}
use xmc.Mcp.Tools.{send_tool, publish_tool, read_messages}
use xmc.Mcp.Tools.Wire.{Broker, SendArgs, PublishArgs, ReadArgs, given, count_of}
use xmc.Mcp.Tools.Serve.{ToolCall, send, peek, receive, ping, purge_queue, run_calls, run_call}
use xmc.Mcp.Tools.Phases.{phase, idle}
use xmc.Mcp.Tools.Sessions.{tools-idle}
use xmc.Mcp.Tools.ReadOnly.{changes, read_only_lem}
use xmc.Mcp.Tools.Counts.{accepted, told, produce-told}
use xmc.Mcp.Tools.Reads.{brought, Says, read_messages-Says}

abbrev order : Message
order = record {
  payload = codes "order";
  properties = no_fields;
  message_id = [];
  correlation_id = [];
  reply_to = [];
  content_type = [];
  priority = 4;
  persistent = false;
  key = [];
  internal_metadata = no_fields;
}

-- Two messages can be read of it, and the third send fails.
abbrev broker : Broker
broker = record {
  connect = λ log. none;
  send = λ log o. if ltb (length log) 3 then none else some (plain (codes "full"));
  receive = λ log o.
      if ltb (length log) 3
      then record { message = some order; error = none }
      else record { message = none; error = some (sentinel no_message_available) };
  browse = none;
  browser_next = λ log. record { message = none; error = none };
  publish = λ log o. none;
  subscribe = λ log o. record { message = none; error = none };
  native_request = none;
  purge = λ log queue. none;
  inspect = λ log. none;
  random = ([], []);
  marshal = λ a. none;
}

abbrev read_args : ReadArgs
read_args = record { queue = codes "orders"; count = some (pos 5); timeout = none; selector = [] }

abbrev send_args : SendArgs
send_args = record {
  address = codes "orders";
  body = codes "order";
  properties = no_fields;
  content_type = [];
  correlation_id = [];
  message_id = [];
  reply_to = [];
  priority = none;
  persistent = false;
  ttl_ms = 0;
  count = some (pos 3);
}

abbrev publish_args : PublishArgs
publish_args = record {
  topic = codes "news";
  body = codes "order";
  properties = no_fields;
  content_type = [];
  correlation_id = [];
  message_id = [];
  reply_to = [];
  key = [];
  ttl_ms = 0;
  count = none;
}

abbrev tool_calls : List ToolCall
tool_calls =
    ping
    ∷ send send_args
    ∷ receive read_args
    ∷ peek read_args
    ∷ purge_queue (codes "orders") true
    ∷ []

tools-idle_example : phase (run_calls broker tool_calls []) ≡ idle
tools-idle_example = tools-idle broker tool_calls [] refl

read_only_lem_example : changes (run_call broker (peek read_args) []).1 ≡ changes []
read_only_lem_example = read_only_lem broker (peek read_args) [] refl

produce-told_example :
    (accepted (send_tool broker send_args []).1
      ≡ accepted [] + told (send_tool broker send_args []).0)
    × (accepted (publish_tool broker publish_args []).1
        ≡ accepted [] + told (publish_tool broker publish_args []).0)
produce-told_example = produce-told broker send_args publish_args []

two_sent : told (send_tool broker send_args []).0 ≡ 2
unfolding send_tool
two_sent = refl

read_messages-Says_example :
    Says
      (brought [])
      (brought (read_messages broker read_args true []).1)
      (given (count_of read_args.count) 0)
      (read_messages broker read_args true []).0
read_messages-Says_example = read_messages-Says broker read_args true []

two_read : brought (read_messages broker read_args true []).1 ≡ order ∷ order ∷ []
unfolding read_messages
two_read = refl
