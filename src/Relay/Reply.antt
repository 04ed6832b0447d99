-- ===== src/Relay/Reply.antt =====
-- doReply, respondToRequest and replyBody of cmd/reply.go: the responder. The log lines and the
-- count of finishReply are diagnostics; the count is part of the result here.
pub mod Protocol
use xmc.Prelude.{
  ℕ, zero, suc, ◌+◌, Bool, true, false, not, ◌&&◌, ◌||◌, Option, none, some, List, [], ◌∷◌, Text,
  codes, is_empty, leb, ltb, ℤ, pos, is_zero, lt_int, if◌then◌else◌, ◌⊎◌, inl, inr,
}
use xmc.Errors.{GoError, plain, is_error, canceled, deadline_exceeded, no_message_available}
use xmc.Values.{Fields}
use xmc.Backends.{Bytes, Message, Read, ReceiveOptions, SendOptions, normal}
use xmc.Relay.{
  received, sent, ran, Trace, Environment, Polled, stop, fail, got, again, Result, finished,
  running,
}

-- The flags of the command and its first argument.
pub record ReplyFlags : Type 0 where
  pub queue : Text
  pub echo : Bool
  pub command : Text
  pub reply_to : Text
  pub content_type : Text
  pub count : ℤ
  pub count_changed : Bool
  pub timeout : ℕ
  pub selector : Text

-- What ParseStreamingFlags returns and doReply uses; the duration in milliseconds.
pub record Streaming : Type 0 where
  pub duration : ℕ
  pub forever : Bool
  pub follow : Bool

-- replyConfig
pub record ReplyConfig : Type 0 where
  pub echo : Bool
  pub command : Text
  pub static_body : Bytes
  pub reply_to : Text
  pub content_type : Text
  pub properties : Fields

unfoldable pub reply_address : ReplyConfig → Message → Text
reply_address cfg m = if is_empty m.reply_to then cfg.reply_to else m.reply_to

unfoldable pub reply_id : Message → Text
reply_id m = if is_empty m.correlation_id then m.message_id else m.correlation_id

abbrev pub reply_options : ReplyConfig → Message → Bytes → SendOptions
reply_options cfg m body = record {
  queue = reply_address cfg m;
  message = body;
  properties = cfg.properties;
  message_id = [];
  correlation_id = reply_id m;
  reply_to = [];
  content_type = cfg.content_type;
  priority = 0;
  persistent = false;
  key = [];
  ttl = 0;
  extra = [];
}

module _ (env : Environment) (cfg : ReplyConfig) where
  -- replyBody: the body, unless the command failed, and the trace with its run.
  unfoldable pub reply_body : Message → Trace → Option Bytes × Trace
  reply_body m t =
      if cfg.echo
      then (some m.payload, t)
      else if is_empty cfg.command
      then (some cfg.static_body, t)
      else (let out = env.run cfg.command m.payload t in (out, ran cfg.command m.payload out ∷ t))

  unfoldable pub send_reply : Message → Option Bytes × Trace → Option GoError × Trace
  send_reply m (none, t) = (none, t)
  send_reply m (some body, t) =
      let o = reply_options cfg m body in let e = env.send o t in (e, sent o e ∷ t)

  -- respondToRequest
  unfoldable pub respond_to_request : Message → Trace → Option GoError × Trace
  unfolding reply_address reply_body send_reply
  respond_to_request m t =
      if is_empty (reply_address cfg m) then (none, t) else send_reply m (reply_body m t)

-- The switch on the read; `keep` is `sf.Follow || count == 0`.
unfoldable pub reply_switch : Bool → Option GoError → Option Message → Polled
reply_switch keep (some e) m =
    if is_error e canceled
    then stop
    else if is_error e deadline_exceeded || is_error e no_message_available
    then (if keep then again else stop)
    else fail e
reply_switch keep none none = if keep then again else stop
reply_switch keep none (some m) = got m

abbrev pub reply_read : ReplyFlags → ReceiveOptions
reply_read c = record {
  queue = c.queue;
  timeout = c.timeout;
  wait = leb c.timeout 0;
  acknowledge = true;
  verbosity = normal;
  selector = c.selector;
  extra = [];
}

module _ (env : Environment) (c : ReplyFlags) (count : ℤ) (follow : Bool) (cfg : ReplyConfig) where
  abbrev pub keeps_waiting : Bool
  keeps_waiting = follow || is_zero count

  unfoldable pub reply_sent : (ℕ → Trace → Result) → ℕ → Option GoError × Trace → Result
  reply_sent loop served (some e, t) = finished (some e) served t
  reply_sent loop served (none, t) = loop served t

  unfoldable pub reply_polled : (ℕ → Trace → Result) → ℕ → Polled → Trace → Result
  unfolding respond_to_request reply_sent
  reply_polled loop served stop t = finished none served t
  reply_polled loop served again t = loop served t
  reply_polled loop served (fail e) t = finished (some e) served t
  reply_polled loop served (got m) t = reply_sent loop (served + 1) (respond_to_request env cfg m t)

  unfoldable pub reply_round : (ℕ → Trace → Result) → ℕ → Option GoError → Trace → Result
  unfolding reply_polled reply_switch
  reply_round loop served (some e) t = finished none served t
  reply_round loop served none t =
      let r = env.receive (reply_read c) t in
      reply_polled loop served (reply_switch keeps_waiting r.error r.message)
        (received (reply_read c) r ∷ t)

  -- The loop, with fuel for its rounds.
  unfoldable pub reply_loop : ℕ → ℕ → Trace → Result
  unfolding reply_round
  reply_loop zero served t = running served t
  reply_loop (suc fuel) served t =
      let round = reply_round (reply_loop fuel) served (env.context_error t) t in
      if is_zero count || lt_int served count then round else finished none served t

-- A bounded duration or --forever lifts a limit that was not asked for.
unfoldable pub reply_count : ReplyFlags → Streaming → ℤ
reply_count c sf =
    if (ltb 0 sf.duration || sf.forever) && not c.count_changed then pos 0 else c.count

abbrev pub reply_config : ReplyFlags → Fields → Bytes → ReplyConfig
reply_config c properties body = record {
  echo = c.echo;
  command = c.command;
  static_body = body;
  reply_to = c.reply_to;
  content_type = c.content_type;
  properties = properties;
}

module _ (env : Environment) (c : ReplyFlags) where
  -- readReplyBody is asked only for a fixed body.
  unfoldable pub reply_start : Streaming → Fields → GoError ⊎ Bytes → ℕ → Result
  unfolding reply_count reply_loop
  reply_start sf properties read_body fuel =
      if not c.echo && is_empty c.command
      then elim read_body [
        | inl e ↦ finished (some e) 0 []
        | inr body ↦
            reply_loop env c (reply_count c sf) sf.follow (reply_config c properties body) fuel 0 []
      ]
      else reply_loop env c (reply_count c sf) sf.follow (reply_config c properties []) fuel 0 []

  -- doReply, given what ParseStreamingFlags, parsePropertiesFlag and readReplyBody return.
  unfoldable pub do_reply : GoError ⊎ Streaming → GoError ⊎ Fields → GoError ⊎ Bytes → ℕ → Result
  unfolding reply_start
  do_reply (inl e) properties read_body fuel = finished (some e) 0 []
  do_reply (inr sf) (inl e) read_body fuel = finished (some e) 0 []
  do_reply (inr sf) (inr properties) read_body fuel =
      if c.echo && not (is_empty c.command)
      then finished (some (plain (codes "--echo and --command are mutually exclusive"))) 0 []
      else reply_start sf properties read_body fuel
