-- ===== src/Relay/Move.antt =====
-- doMove of cmd/move.go.
pub mod Conserves
pub mod Ends
use xmc.Prelude.{
  ℕ, zero, suc, ◌+◌, Bool, true, false, not, ◌||◌, Option, none, some, List, [], ◌∷◌, ◌++◌, Text,
  codes, text_eq, ℤ, is_zero, lt_int, if◌then◌else◌,
}
use xmc.Errors.{
  GoError, plain, wrapped, is_error, canceled, deadline_exceeded, no_message_available,
}
use xmc.Backends.{Message, Read, ReceiveOptions, SendOptions, normal}
use xmc.Relay.{
  received, sent, recovered, summary, Trace, Environment, Polled, stop, fail, got, again, Result,
  finished, running,
}

pub record MoveFlags : Type 0 where
  pub source : Text
  pub destination : Text
  pub count : ℤ
  pub selector : Text
  pub timeout : ℕ

abbrev pub move_read : MoveFlags → ReceiveOptions
move_read c = record {
  queue = c.source;
  timeout = c.timeout;
  wait = false;
  acknowledge = true;
  verbosity = normal;
  selector = c.selector;
  extra = [];
}

abbrev pub move_write : MoveFlags → Message → SendOptions
move_write c m = record {
  queue = c.destination;
  message = m.payload;
  properties = m.properties;
  message_id = [];
  correlation_id = m.correlation_id;
  reply_to = m.reply_to;
  content_type = m.content_type;
  priority = m.priority;
  persistent = m.persistent;
  key = [];
  ttl = 0;
  extra = [];
}

-- The switch on the read.
unfoldable pub move_switch : Option GoError → Option Message → Polled
move_switch (some e) m =
    if is_error e canceled || is_error e deadline_exceeded || is_error e no_message_available
    then stop
    else fail e
move_switch none none = stop
move_switch none (some m) = got m

module _ (env : Environment) (c : MoveFlags) where
  -- summarizeMove
  unfoldable pub summarize_move : ℕ → Trace → Result
  summarize_move moved t = finished (env.print t) moved (summary moved c.source c.destination ∷ t)

  abbrev pub undelivered : GoError → GoError
  undelivered e = wrapped (codes "send to " ++ (c.destination ++ codes " failed: ")) e []

  -- What follows the send.
  unfoldable pub move_sent : (ℕ → Trace → Result) → ℕ → Message → Option GoError → Trace → Result
  move_sent loop moved m (some e) t =
      finished (some (undelivered e)) moved (recovered m.payload ∷ t)
  move_sent loop moved m none t = loop (moved + 1) t

  unfoldable pub move_polled : (ℕ → Trace → Result) → ℕ → Polled → Trace → Result
  unfolding summarize_move move_sent
  move_polled loop moved stop t = summarize_move moved t
  move_polled loop moved again t = loop moved t
  move_polled loop moved (fail e) t = finished (some e) moved t
  move_polled loop moved (got m) t =
      let e = env.send (move_write c m) t in move_sent loop moved m e (sent (move_write c m) e ∷ t)

  -- The loop, with fuel for its rounds.
  unfoldable pub move_loop : ℕ → ℕ → Trace → Result
  unfolding move_polled move_switch summarize_move
  move_loop zero moved t = running moved t
  move_loop (suc fuel) moved t =
      let round : Result =
        (let r = env.receive (move_read c) t in
          move_polled (move_loop fuel) moved (move_switch r.error r.message)
            (received (move_read c) r ∷ t)) in
      if is_zero c.count || lt_int moved c.count then round else summarize_move moved t

  unfoldable pub do_move : ℕ → Result
  unfolding move_loop
  do_move fuel =
      if text_eq c.source c.destination
      then finished (some (plain (codes "source and destination must differ"))) 0 []
      else move_loop fuel 0 []
