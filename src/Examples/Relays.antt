-- ===== src/Examples/Relays.antt =====
-- The theorems on the relay loops at a concrete broker.
use xmc.Prelude.{
  ◌≤◌, true, false, Option, none, some, List, [], ◌∷◌, ◌++◌, ◌≡◌, refl, arith, Text, codes, length,
  pos,
}
use xmc.Errors.{GoError, plain, sentinel, no_message_available, is_error}
use xmc.Values.{no_fields}
use xmc.Backends.{Bytes, Message, Read}
use xmc.Relay.{Trace, Environment, trace_of, count_of, consumed, settled_to, handed_over, got}
use xmc.Relay.Move.{MoveFlags, move_read, move_switch, do_move}
use xmc.Relay.Move.Conserves.{do_move-Follows, do_move_conserves}
use xmc.Relay.Move.Conserves as Moves
use xmc.Relay.Move.Ends.{IsFinished, do_move-IsFinished_dry, do_move-IsFinished_count}
use xmc.Relay.Forward.{ForwardFlags, do_forward}
use xmc.Relay.Bridge.{BridgeFlags, do_bridge}
use xmc.Relay.Bridge.Conserves.{bridge_trace}
use xmc.Relay.Forward.Topology.{}
use xmc.Relay.Forward.Protocol.{Follows, do_forward-Follows}
use xmc.Relay.Forward.Conserves.{Pairwise, MadeOf, do_forward_settles}

abbrev message_of : Text → Message
message_of body = record {
  payload = body;
  properties = no_fields;
  message_id = codes "id";
  correlation_id = [];
  reply_to = [];
  content_type = [];
  priority = 4;
  persistent = true;
  key = [];
  internal_metadata = no_fields;
}

-- Two messages, then nothing.
abbrev next_read : List Bytes → Read
next_read [] = record { message = some (message_of (codes "one")); error = none }
next_read (a ∷ []) = record { message = some (message_of (codes "two")); error = none }
next_read (a ∷ b ∷ rest) = record { message = none; error = some (sentinel no_message_available) }

-- The second message cannot be sent.
abbrev refused : List Bytes → Option GoError
refused [] = none
refused (a ∷ rest) = some (plain (codes "queue full"))

abbrev broker : Environment
broker = record {
  context_error = λ t. none;
  receive = λ o t. next_read (consumed t);
  subscribe = λ o t. next_read (consumed t);
  send = λ o t. refused (settled_to (codes "orders") t);
  publish = λ o t. none;
  run = λ command input t. some (codes "made of " ++ input);
  marshal = λ m. none;
  pipe = λ m t. none;
  print = λ t. none;
}

abbrev drain : MoveFlags
drain = record {
  source = codes "dlq";
  destination = codes "orders";
  count = pos 0;
  selector = [];
  timeout = 1000;
}

moved_one : count_of (do_move broker drain 5) ≡ 1
unfolding do_move is_error consumed settled_to
moved_one = refl

both_settled :
    settled_to (codes "orders") (trace_of (do_move broker drain 5)) ≡ codes "two" ∷ codes "one" ∷ []
unfolding do_move is_error consumed settled_to
both_settled = refl

do_move-Follows_example : Moves.Follows broker drain (do_move broker drain 5)
do_move-Follows_example = do_move-Follows broker drain 5 refl

do_move_conserves_example :
    consumed (trace_of (do_move broker drain 5))
    ≡ settled_to (codes "orders") (trace_of (do_move broker drain 5))
do_move_conserves_example = do_move_conserves broker drain 5

dry_after_two :
    (t : Trace) (m : Message)
    → 2 ≤ length (consumed t)
    → move_switch
        (broker.receive (move_read drain) t).error
        (broker.receive (move_read drain) t).message
      ≡ got m
    → ⊥
unfolding move_switch is_error
dry_after_two t m h = of_list (consumed t) h
  where
    of_list :
        (l : List Bytes)
        → 2 ≤ length l
        → move_switch (next_read l).error (next_read l).message ≡ got m
        → ⊥
    of_list [] le e = absurd (omega arith)
    of_list (a ∷ []) le e = absurd (omega arith)
    of_list (a ∷ b ∷ l) le e = cc

do_move-IsFinished_dry_example : IsFinished (do_move broker drain 3)
do_move-IsFinished_dry_example = do_move-IsFinished_dry broker drain 2 dry_after_two

abbrev drain_one : MoveFlags
drain_one = record drain { count = pos 1 }

do_move-IsFinished_count_example : IsFinished (do_move broker drain_one 2)
do_move-IsFinished_count_example = do_move-IsFinished_count broker drain_one 0 refl

abbrev relay : ForwardFlags
relay = record {
  source = codes "orders";
  destination = codes "orders";
  from_topic = false;
  to_topic = true;
  group = [];
  command = [];
  timeout = 1000;
  count = pos 2;
  selector = [];
}

abbrev relay_through : ForwardFlags
relay_through = record relay { command = codes "jq ." }

forwarded_two :
    settled_to (codes "orders") (trace_of (do_forward broker relay_through none 4))
    ≡ codes "made of two" ∷ codes "made of one" ∷ []
unfolding do_forward consumed settled_to
forwarded_two = refl

do_forward-Follows_example : Follows broker relay_through (do_forward broker relay_through none 4)
do_forward-Follows_example = do_forward-Follows broker relay_through 4 refl

do_forward_settles_example :
    Pairwise
      (MadeOf broker relay_through)
      (consumed (trace_of (do_forward broker relay_through none 4)))
      (settled_to (codes "orders") (trace_of (do_forward broker relay_through none 4)))
do_forward_settles_example = do_forward_settles broker relay_through 4 refl

abbrev pipe_flags : BridgeFlags
pipe_flags = record {
  source = codes "orders";
  target = codes "kmc send orders";
  group = [];
  use_topic = false;
  timeout = 1000;
  count = pos 2;
  selector = [];
}

bridged_two :
    handed_over (bridge_trace (do_bridge broker pipe_flags none none 4))
    ≡ codes "two" ∷ codes "one" ∷ []
unfolding do_bridge consumed handed_over
bridged_two = refl
