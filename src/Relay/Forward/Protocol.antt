-- ===== src/Relay/Forward/Protocol.antt =====
-- What doForward of cmd/forward.go does to the broker, as a protocol.
use xmc.Prelude.{
  ℕ, zero, suc, ◌+◌, true, false, ◌&&◌, ◌||◌, Option, none, some, [], ◌∷◌, ◌++◌, ◌≡◌, refl, codes,
  text_eq, is_empty, if◌then◌else◌, inl, inr, is_le_zero, lt_int, Bool-cases, add-one,
}
use xmc.Errors.{GoError, wrapped, is_error, canceled, deadline_exceeded, no_message_available}
use xmc.Backends.{Bytes, Message, Read, normal}
use xmc.Relay.{
  Event, received, subscribed, sent, published, ran, recovered, summary, Trace, Environment, Polled,
  stop, again, fail, got, Result, finished, running,
}
use xmc.Relay.Reads.{Gave, Cancelled, Idle, Broken}
use xmc.Relay.Forward.{
  ForwardFlags, read_event, write_event, forward_switch, read_fn, summarize_forward,
  forward_written, forward_body, forward_ran, forward_got, forward_polled, forward_round,
  forward_loop, bool_eq, do_forward,
}

-- What the switch says of the read.
abbrev Means : Polled → Read → Type 0
Means stop r = Cancelled r
Means again r = Idle r
Means (fail e) r = Broken r e
Means (got m) r = Gave r m

switch-Means :
    (e : Option GoError) (o : Option Message)
    → Means (forward_switch e o) (record { message = o; error = e })
unfolding forward_switch
switch-Means none none = inl (refl, refl)
switch-Means none (some m) = (refl, refl)
switch-Means (some e) o = elim (Bool-cases (is_error e canceled)) [
  | inl a ↦ rw a (e, refl, a)
  | inr a ↦ elim (Bool-cases (is_error e deadline_exceeded || is_error e no_message_available)) [
    | inl b ↦ rw (a, b) (inr (e, refl, a, b))
    | inr b ↦ rw (a, b) (refl, a, b)
  ]
]

module _ (env : Environment) (c : ForwardFlags) where
  -- A destructive read of the source, a topic or a queue.
  abbrev pub source_event : Read → Event
  source_event r =
      if c.from_topic
      then subscribed
          (record {
            topic = c.source;
            group_id = c.group;
            timeout = c.timeout;
            wait = true;
            verbosity = normal;
            selector = c.selector;
            durable = false;
            acknowledge = true;
            extra = [];
          })
          r
      else received
          (record {
            queue = c.source;
            timeout = c.timeout;
            wait = false;
            acknowledge = true;
            verbosity = normal;
            selector = c.selector;
            extra = [];
          })
          r

  -- The body sent to the destination, a topic or a queue, with the metadata of the message.
  abbrev pub sent_on : Bytes → Message → Option GoError → Event
  sent_on body m e =
      if c.to_topic
      then published
          (record {
            topic = c.destination;
            message = body;
            key = m.key;
            properties = m.properties;
            message_id = m.message_id;
            correlation_id = m.correlation_id;
            reply_to = m.reply_to;
            content_type = m.content_type;
            priority = m.priority;
            persistent = m.persistent;
            ttl = 0;
            extra = [];
          })
          e
      else sent
          (record {
            queue = c.destination;
            message = body;
            properties = m.properties;
            message_id = m.message_id;
            correlation_id = m.correlation_id;
            reply_to = m.reply_to;
            content_type = m.content_type;
            priority = m.priority;
            persistent = m.persistent;
            key = m.key;
            ttl = 0;
            extra = [];
          })
          e

  -- The body that is forwarded: the payload, or what the command makes of it; and the trace with
  -- the command's run.
  pub data Body (m : Message) (t : Trace) : Bytes → Trace → Type 0 where
    plain_body : is_empty c.command ≡ true → Body m t m.payload t
    command_body :
        (body : Bytes)
        → is_empty c.command ≡ false
        → env.run c.command m.payload t ≡ some body
        → Body m t body (ran c.command m.payload (some body) ∷ t)

  -- The trace of a loop that has forwarded so many messages: each round reads; a message that was
  -- read is written with its metadata, or its payload is written out when the command fails.
  pub data Forwarded : Trace → ℕ → Type 0 where
    start : Forwarded [] 0
    idle :
        {t : Trace} {n : ℕ} (r : Read) → Forwarded t n → Idle r → Forwarded (source_event r ∷ t) n
    skip :
        {t : Trace} {n : ℕ} (r : Read) (m : Message)
        → Forwarded t n
        → Gave r m
        → env.run c.command m.payload (source_event r ∷ t) ≡ none
        → Forwarded (recovered m.payload ∷ ran c.command m.payload none ∷ source_event r ∷ t) n
    forward :
        {t u : Trace} {n : ℕ} (r : Read) (m : Message) (body : Bytes)
        → Forwarded t n
        → Gave r m
        → Body m (source_event r ∷ t) body u
        → Forwarded (sent_on body m none ∷ u) (suc n)

  -- What may follow, with the error that is returned.
  pub data Tail (n : ℕ) (t : Trace) : Option GoError → Trace → Type 0 where
    limit :
        is_le_zero c.count || lt_int n c.count ≡ false
        → Tail n t none (summary n c.source c.destination ∷ t)
    interrupted :
        (e : GoError)
        → env.context_error t ≡ some e
        → Tail n t none (summary n c.source c.destination ∷ t)
    cancelled :
        (r : Read)
        → Cancelled r
        → Tail n t none (summary n c.source c.destination ∷ source_event r ∷ t)
    read_failed : (r : Read) (e : GoError) → Broken r e → Tail n t (some e) (source_event r ∷ t)
    write_failed :
        {u : Trace} (r : Read) (m : Message) (body : Bytes) (e : GoError)
        → Gave r m
        → Body m (source_event r ∷ t) body u
        → Tail n t
            (some (wrapped (codes "forward to " ++ (c.destination ++ codes " failed: ")) e []))
            (recovered m.payload ∷ sent_on body m (some e) ∷ u)

  abbrev pub Follows : Result → Type 0
  Follows (running n t) = Forwarded t n
  Follows (finished e n t) = (before : Trace) × Forwarded before n × Tail n before e t

  abbrev Loop : Type 0
  Loop = ℕ → Trace → Result

  abbrev Good : Loop → Type 0
  Good loop = (k : ℕ) (u : Trace) → Forwarded u k → Follows (loop k u)

  written-Follows :
      (loop : Loop) (n : ℕ) (t u : Trace) (r : Read) (m : Message) (body : Bytes)
      (e : Option GoError)
      → Good loop
      → Forwarded t n
      → Gave r m
      → Body m (read_event c r ∷ t) body u
      → Follows (forward_written env c loop n m e (write_event c body m e ∷ u))
  unfolding forward_written
  written-Follows loop n t u r m body (some e) k h s b = (t, h, write_failed r m body e s b)
  written-Follows loop n t u r m body none k h s b =
      k (n + 1) _ (rw add-one (forward r m body h s b))

  ran-Follows :
      (loop : Loop) (n : ℕ) (t : Trace) (r : Read) (m : Message) (out : Option Bytes)
      → Good loop
      → Forwarded t n
      → Gave r m
      → is_empty c.command ≡ false
      → env.run c.command m.payload (read_event c r ∷ t) ≡ out
      → Follows (forward_ran env c loop n m out (ran c.command m.payload out ∷ read_event c r ∷ t))
  unfolding forward_ran forward_body
  ran-Follows loop n t r m none k h s b o = k n _ (skip r m h s o)
  ran-Follows loop n t r m (some body) k h s b o =
      written-Follows loop n t _ r m body _ k h s (command_body body b o)

  got-Follows :
      (loop : Loop) (n : ℕ) (t : Trace) (r : Read) (m : Message)
      → Good loop
      → Forwarded t n
      → Gave r m
      → Follows (forward_got env c loop n m (read_event c r ∷ t))
  unfolding forward_got forward_body
  got-Follows loop n t r m k h s = elim (Bool-cases (is_empty c.command)) [
    | inl bare ↦ rw bare (written-Follows loop n t _ r m m.payload _ k h s (plain_body bare))
    | inr command ↦ rw command (ran-Follows loop n t r m _ k h s command refl)
  ]

  polled-Follows :
      (loop : Loop) (n : ℕ) (t : Trace) (r : Read) (p : Polled)
      → Good loop
      → Forwarded t n
      → Means p r
      → Follows (forward_polled env c loop n p (read_event c r ∷ t))
  unfolding forward_polled summarize_forward
  polled-Follows loop n t r stop k h s = (t, h, cancelled r s)
  polled-Follows loop n t r again k h s = k n _ (idle r h s)
  polled-Follows loop n t r (fail e) k h s = (t, h, read_failed r e s)
  polled-Follows loop n t r (got m) k h s = got-Follows loop n t r m k h s

  round-Follows :
      (loop : Loop) (n : ℕ) (x : Option GoError) (t : Trace)
      → Good loop
      → Forwarded t n
      → env.context_error t ≡ x
      → Follows (forward_round env c loop n x t)
  unfolding forward_round summarize_forward
  round-Follows loop n (some e) t k h x = (t, h, interrupted e x)
  round-Follows loop n none t k h x =
      polled-Follows loop n t (read_fn env c t) _ k h (switch-Means _ _)

  loop-Follows : (fuel : ℕ) → Good (forward_loop env c fuel)
  unfolding forward_loop summarize_forward
  loop-Follows zero n t h = h
  loop-Follows (suc fuel) n t h = elim (Bool-cases (is_le_zero c.count || lt_int n c.count)) [
    | inl go ↦ rw go (
        round-Follows (forward_loop env c fuel) n (env.context_error t) t (loop-Follows fuel) h
          refl)
    | inr end ↦ rw end (t, h, limit end)
  ]

  -- Whatever the broker and the commands do and however many rounds are run, forward's trace is a
  -- row of rounds. Each reads the source destructively, as a topic or a queue by the flag, and finds
  -- no message in time, or writes out the payload of a message whose command failed, or sends to the
  -- destination, as a topic or a queue by the flag, the payload or the command's output with the
  -- properties, ids, reply address, content type, priority, persistence and key of the message. Then
  -- comes at most one end: with the summary, a limit reached, a context that is done or an
  -- interrupted read; any other failed read, with its error; a failed write, the payload written
  -- out. The count is that of the messages sent.
  pub do_forward-Follows :
      (fuel : ℕ)
      → text_eq c.source c.destination && bool_eq c.from_topic c.to_topic ≡ false
      → Follows (do_forward env c none fuel)
  unfolding do_forward
  do_forward-Follows fuel h = rw h (loop-Follows fuel 0 [] start)
