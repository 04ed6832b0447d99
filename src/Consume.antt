-- ===== src/Consume.antt =====
-- consumeMessages and outputMessage of cmd/consume.go, the loop of receive, peek and subscribe.
-- A step is a read or an output; the environment answers from the steps before, newest first. What
-- an output writes, and whether it fails, is the environment's; the statistics are output only.
pub mod Order
use xmc.Prelude.{
  ℕ, zero, suc, ◌+◌, Bool, true, false, not, ◌&&◌, ◌||◌, Option, none, some, List, [], ◌∷◌, Text,
  is_empty, ℤ, is_le_zero, lt_int, ◌==◌, if◌then◌else◌,
}
use xmc.Errors.{GoError, sentinel, is_error, canceled, deadline_exceeded, no_message_available}
use xmc.Backends.{Message, Read, Verbosity}

-- consumeConfig, less the writers and the statistics.
pub record ConsumeConfig : Type 0 where
  pub count : ℤ
  pub json_output : Bool
  pub verbosity : Verbosity
  pub format : Text
  pub ndjson : Bool
  pub follow : Bool
  pub omit : ℤ

-- How a message is shown.
pub data Display : Type 0 where
  as_ndjson : Display
  as_format : Text → Display
  as_json : Verbosity → Display
  as_text : Verbosity → Display

-- The switch of outputMessage.
unfoldable pub display_of : ConsumeConfig → Display
display_of cfg =
    if cfg.ndjson
    then as_ndjson
    else if not (is_empty cfg.format)
    then as_format cfg.format
    else if cfg.json_output
    then as_json cfg.verbosity
    else as_text cfg.verbosity

pub data Step : Type 0 where
  got : Read → Step
  shown : Display → Message → Option GoError → Step

abbrev pub Steps : Type 0
Steps = List Step

pub record Environment : Type 0 where
  pub context_error : Steps → Option GoError
  pub receive : Steps → Read
  pub output : Display → Message → Steps → Option GoError

-- The loop has returned, or needs more fuel, after these steps.
pub data Consumed : Type 0 where
  returned : Option GoError → Steps → Consumed
  running : Steps → Consumed

-- The counters `received` and `omitted`.
abbrev pub Loop : Type 0
Loop = ℕ → ℕ → Steps → Consumed

module _ (env : Environment) (cfg : ConsumeConfig) where
  abbrev pub unbounded : Bool
  unbounded = is_le_zero cfg.count

  -- A read without a message.
  unfoldable pub consume_empty : Loop → ℕ → ℕ → Steps → Consumed
  consume_empty loop received omitted t =
      if cfg.follow
      then loop received omitted t
      else if received == 0 && not unbounded
      then returned (some (sentinel no_message_available)) t
      else returned none t

  unfoldable pub consume_error : Loop → ℕ → ℕ → GoError → Steps → Consumed
  unfolding consume_empty
  consume_error loop received omitted e t =
      if is_error e canceled
      then returned none t
      else if is_error e deadline_exceeded
      then (if cfg.follow then loop received omitted t else returned none t)
      else if is_error e no_message_available
      then consume_empty loop received omitted t
      else returned (some e) t

  unfoldable pub consume_shown : Loop → ℕ → ℕ → Option GoError → Steps → Consumed
  consume_shown loop received omitted (some e) t = returned (some e) t
  consume_shown loop received omitted none t = loop (received + 1) omitted t

  -- A message, of which the first `omit` are skipped.
  unfoldable pub consume_message : Loop → ℕ → ℕ → Message → Steps → Consumed
  unfolding consume_shown display_of
  consume_message loop received omitted m t =
      let e = env.output (display_of cfg) m t in
      if lt_int omitted cfg.omit
      then loop received (omitted + 1) t
      else consume_shown loop received omitted e (shown (display_of cfg) m e ∷ t)

  unfoldable pub consume_got : Loop → ℕ → ℕ → Option GoError → Option Message → Steps → Consumed
  unfolding consume_error consume_empty consume_message
  consume_got loop received omitted (some e) o t = consume_error loop received omitted e t
  consume_got loop received omitted none none t = consume_empty loop received omitted t
  consume_got loop received omitted none (some m) t = consume_message loop received omitted m t

  unfoldable pub consume_round : Loop → ℕ → ℕ → Option GoError → Steps → Consumed
  unfolding consume_got
  consume_round loop received omitted (some e) t = returned none t
  consume_round loop received omitted none t =
      let r = env.receive t in consume_got loop received omitted r.error r.message (got r ∷ t)

  -- The loop, with fuel for its rounds.
  unfoldable pub consume_loop : ℕ → Loop
  unfolding consume_round
  consume_loop zero received omitted t = running t
  consume_loop (suc fuel) received omitted t =
      let round = consume_round (consume_loop fuel) received omitted (env.context_error t) t in
      if unbounded || lt_int received cfg.count then round else returned none t

  -- consumeMessages
  unfoldable pub consume_messages : ℕ → Consumed
  unfolding consume_loop
  consume_messages fuel = consume_loop fuel 0 0 []
