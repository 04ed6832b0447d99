-- ===== src/Examples/Exchange.antt =====
-- The theorems on errors, requests and the reconnecting adapter at concrete inputs.
use xmc.Prelude.{
  ℕ, zero, suc, ◌+◌, ◌≤◌, true, false, none, some, List, [], ◌∷◌, ◌≡◌, refl, codes, length,
}
use xmc.Errors.{
  GoError, sentinel, wrapped, request_send, eof, canceled, is_error, is_connection_error,
}
use xmc.Errors.Wrapping.{}
use xmc.Values.{no_fields}
use xmc.Backends.{Bytes, Message, RequestOptions, PublishOptions, SubscribeOptions, normal}
use xmc.Backends.Request.{
  Exchange, new_correlation_id, ensure_correlation_id, request_options, default_request, exchange,
  check_reply, send_of, receive_of,
}
use xmc.Backends.Request.Matching.{Answered, filled, default_request-Answered}
use xmc.Reconnect.{Environment, Adapter, Operation, Outcome, initial, close, with_reconnect}
use xmc.Reconnect.Handles.{Holds}
use xmc.Reconnect.Methods.{
  Queues, Topics, queue_send, queue_receive, queue_request, queue_browse, topic_publish,
  topic_subscribe,
}
use xmc.Reconnect.Methods.Protocol.{QueueStep, send, browse, here, next, queue_methods-Holds}
use xmc.Reconnect.Closed.{Refuses, methods_closed}
use xmc.Reconnect.Outcome.{calls, calls-with_reconnect}
use xmc.Reconnect.Delivered.{Delivered, with_reconnect-Delivered}

abbrev lost : GoError
lost = sentinel eof

lost_connection : is_connection_error lost ≡ true
unfolding is_connection_error
lost_connection = refl

abbrev cancelled_send : GoError
cancelled_send = wrapped (codes "broken pipe: ") (request_send (sentinel canceled)) []

cancelled_send_canceled : is_error cancelled_send canceled ≡ true
unfolding is_error
cancelled_send_canceled = refl

abbrev draws : Bytes
draws = 1 ∷ 2 ∷ 3 ∷ 4 ∷ 5 ∷ 255 ∷ []

abbrev question : RequestOptions
question = record {
  address = codes "rpc";
  message = codes "ping";
  properties = no_fields;
  content_type = [];
  message_id = codes "m1";
  correlation_id = [];
  reply_to = [];
  priority = 4;
  persistent = false;
  timeout = 0;
}

abbrev answer : Message
answer = record {
  payload = codes "pong";
  properties = no_fields;
  message_id = [];
  correlation_id = codes "m1";
  reply_to = [];
  content_type = [];
  priority = 0;
  persistent = false;
  key = [];
  internal_metadata = no_fields;
}

abbrev broker : Exchange
broker = record { send = λ o. none; receive = λ o. record { message = some answer; error = none } }

answer_returned : (default_request broker draws draws question).0.message ≡ some answer
unfolding default_request exchange check_reply request_options ensure_correlation_id
answer_returned = refl

default_request-Answered_example :
    Answered broker
      (filled (new_correlation_id draws draws) question)
      (default_request broker draws draws question).0
      (default_request broker draws draws question).1
      answer
default_request-Answered_example =
    default_request-Answered broker draws draws question answer answer_returned

-- A factory and a context without errors.
abbrev calm : Environment
calm = record {
  factory = λ h. none;
  close_error = λ k h. none;
  context_error = λ h. none;
  interrupted = λ k h. none;
}

-- The first adapter loses its connection, the next one answers with its number.
abbrev flaky : Operation ℕ
flaky zero h = (0, some lost)
flaky (suc n) h = (suc n, none)

abbrev waits : List ℕ
waits = 500 ∷ 750 ∷ []

abbrev outcome : Outcome ℕ
outcome = with_reconnect calm flaky waits (codes "receive from q") 0 initial

-- The second adapter answered.
outcome_value : outcome.0 ≡ 1
unfolding with_reconnect is_connection_error
outcome_value = refl

outcome_ok : outcome.1 ≡ none
unfolding with_reconnect is_connection_error
outcome_ok = refl

with_reconnect-Delivered_example : Delivered calm flaky outcome
with_reconnect-Delivered_example =
    with_reconnect-Delivered calm flaky waits (codes "receive from q") 0 initial outcome_ok

calls-with_reconnect_example : calls outcome.2.history ≤ 0 + suc (length waits)
calls-with_reconnect_example =
    calls-with_reconnect calm flaky waits (codes "receive from q") 0 initial

abbrev queues : Queues
queues = record {
  send = λ o k h. (flaky k h).1;
  receive = λ o k h. record { message = some answer; error = (flaky k h).1 };
  request = λ o k h. record { message = none; error = some lost };
  browse = λ k. some (λ o h. (some 7, none));
}

abbrev topics : Topics
topics = record {
  publish = λ o k h. (flaky k h).1;
  subscribe = λ o k h. record { message = some answer; error = (flaky k h).1 };
}

abbrev asked : Adapter
asked = (queue_send calm queues waits (send_of question) initial).2

queue_methods-Holds_example :
    Holds
      (close calm (queue_browse calm queues (receive_of question) asked).2).1.history
      (close calm (queue_browse calm queues (receive_of question) asked).2).1.adapter
queue_methods-Holds_example =
    queue_methods-Holds queues
      (close calm (queue_browse calm queues (receive_of question) asked).2).1
      (next
        (next (next here (send calm waits (send_of question) initial))
          (browse calm (receive_of question) asked))
        (QueueStep.shutting calm (queue_browse calm queues (receive_of question) asked).2))

abbrev news : SubscribeOptions
news = record {
  topic = codes "news";
  group_id = [];
  timeout = 0;
  wait = false;
  verbosity = normal;
  selector = [];
  durable = false;
  acknowledge = true;
  extra = [];
}

abbrev notice : PublishOptions
notice = record {
  topic = codes "news";
  message = codes "hello";
  key = [];
  properties = no_fields;
  message_id = [];
  correlation_id = [];
  reply_to = [];
  content_type = [];
  priority = 4;
  persistent = false;
  ttl = 0;
  extra = [];
}

-- `asked` holds an adapter, which Close shuts.
abbrev shut_down : Adapter
shut_down = (close calm asked).1

methods_closed_example :
    Refuses (queue_send calm queues waits (send_of question) shut_down) tt shut_down
    × Refuses (queue_receive calm queues waits (receive_of question) shut_down) none shut_down
    × Refuses (queue_request calm queues waits question shut_down) none shut_down
    × Refuses (queue_browse calm queues (receive_of question) shut_down) none shut_down
    × Refuses (topic_publish calm topics waits notice shut_down) tt shut_down
    × Refuses (topic_subscribe calm topics waits news shut_down) none shut_down
    × (close calm shut_down ≡ (none, shut_down))
methods_closed_example =
    methods_closed calm calm asked waits queues topics (send_of question) (receive_of question)
      question notice news
