-- ===== src/Relay/Move/Conserves.antt =====
-- What doMove of cmd/move.go does to the broker, as a protocol, and its messages.
use xmc.Prelude.{
  ℕ, zero, suc, ◌+◌, true, false, ◌||◌, Option, none, some, [], ◌∷◌, ◌++◌, codes, ◌≡◌, ◌⊎◌, refl,
  ap, arith, text_eq, is_zero, lt_int, Bool-cases, inl, inr, add-one,
}
use xmc.Errors.{GoError, wrapped, is_error, canceled, deadline_exceeded, no_message_available}
use xmc.Backends.{Message, Read, ReceiveOptions, SendOptions, normal}
use xmc.Relay.{
  received, sent, recovered, summary, Trace, Environment, Polled, stop, again, fail, got, Result,
  finished, running, trace_of, read_payload, consumed, settled_to,
}
use xmc.Relay.Reads.{
  Gave, Cancelled, Idle, Broken, read_payload-Gave, read_payload-Cancelled, read_payload-Idle,
  read_payload-Broken, if_named_refl,
}
use xmc.Relay.Move.{
  MoveFlags, move_read, move_write, move_switch, summarize_move, move_sent, move_polled, move_loop,
  do_move,
}

module _ (env : Environment) (c : MoveFlags) where
  -- A destructive read of the source.
  abbrev pub source_read : ReceiveOptions
  source_read = record {
    queue = c.source;
    timeout = c.timeout;
    wait = false;
    acknowledge = true;
    verbosity = normal;
    selector = c.selector;
    extra = [];
  }

  -- The message as the destination gets it: without its message id and its key.
  abbrev pub moved_on : Message → SendOptions
  moved_on m = record {
    queue = c.destination;
    message = m.payload;
    properties = m.properties;
    message_id = [];
    correlation_id = m.correlation_id;
    reply_to = m.reply_to;
    content_type = m.content_type;
    priority = m.priority;
    persistent = m.persistent;
    key = [];
    ttl = 0;
    extra = [];
  }

  -- The trace of so many moves: each reads a message and sends it on, with its metadata.
  pub data Moved : Trace → ℕ → Type 0 where
    start : Moved [] 0
    move :
        (t : Trace) (n : ℕ) (r : Read) (m : Message)
        → Moved t n
        → Gave r m
        → Moved (sent (moved_on m) none ∷ received source_read r ∷ t) (suc n)

  -- What may follow the last move, with the error that is returned.
  pub data Tail (n : ℕ) (t : Trace) : Option GoError → Trace → Type 0 where
    limit :
        (is_zero c.count ≡ false)
        → (lt_int n c.count ≡ false)
        → Tail n t (env.print t) (summary n c.source c.destination ∷ t)
    drained :
        (r : Read)
        → Cancelled r ⊎ Idle r
        → Tail n t
            (env.print (received source_read r ∷ t))
            (summary n c.source c.destination ∷ received source_read r ∷ t)
    read_failed :
        (r : Read) (e : GoError) → Broken r e → Tail n t (some e) (received source_read r ∷ t)
    send_failed :
        (r : Read) (m : Message) (e : GoError)
        → Gave r m
        → Tail n t
            (some (wrapped (codes "send to " ++ (c.destination ++ codes " failed: ")) e []))
            (recovered m.payload ∷ sent (moved_on m) (some e) ∷ received source_read r ∷ t)

  abbrev pub Follows : Result → Type 0
  Follows (running n t) = Moved t n
  Follows (finished e n t) = (before : Trace) × Moved before n × Tail n before e t

  pub switch-ne-again : (e : Option GoError) (m : Option Message) → move_switch e m ≡ again → ⊥
  unfolding move_switch
  switch-ne-again (some e) m h = ground arith
  switch-ne-again none none h = cc
  switch-ne-again none (some m) h = cc

  -- What the switch says of the read.
  abbrev Means : Polled → Read → Type 0
  Means stop r = Cancelled r ⊎ Idle r
  Means again r = ⊥
  Means (fail e) r = Broken r e
  Means (got m) r = Gave r m

  switch-Means :
      (e : Option GoError) (o : Option Message)
      → Means (move_switch e o) (record { message = o; error = e })
  unfolding move_switch
  switch-Means none none = inr (inl (refl, refl))
  switch-Means none (some m) = (refl, refl)
  switch-Means (some e) o = elim (Bool-cases (is_error e canceled)) [
    | inl a ↦ simp a (inl (e, refl, a))
    | inr a ↦ elim (Bool-cases (is_error e deadline_exceeded || is_error e no_message_available)) [
      | inl b ↦ rw (a, b) (inr (inr (e, refl, a, b)))
      | inr b ↦ rw (a, b) (refl, a, b)
    ]
  ]

  sent-Follows :
      (loop : ℕ → Trace → Result) (n : ℕ) (t : Trace) (r : Read) (m : Message) (e : Option GoError)
      → ((k : ℕ) (u : Trace) → Moved u k → Follows (loop k u))
      → Moved t n
      → Gave r m
      → Follows
          (move_sent env c loop n m e (sent (move_write c m) e ∷ received (move_read c) r ∷ t))
  unfolding move_sent
  sent-Follows loop n t r m (some e) k h s = (t, h, send_failed r m e s)
  sent-Follows loop n t r m none k h s = k (n + 1) _ (rw add-one (move t n r m h s))

  polled-Follows :
      (loop : ℕ → Trace → Result) (n : ℕ) (t : Trace) (r : Read) (p : Polled)
      → ((k : ℕ) (u : Trace) → Moved u k → Follows (loop k u))
      → Moved t n
      → Means p r
      → Follows (move_polled env c loop n p (received (move_read c) r ∷ t))
  unfolding move_polled summarize_move
  polled-Follows loop n t r stop k h s = (t, h, drained r s)
  polled-Follows loop n t r again k h s = absurd s
  polled-Follows loop n t r (fail e) k h s = (t, h, read_failed r e s)
  polled-Follows loop n t r (got m) k h s = sent-Follows loop n t r m _ k h s

  loop-Follows : (fuel n : ℕ) (t : Trace) → Moved t n → Follows (move_loop env c fuel n t)
  unfolding move_loop
  loop-Follows zero n t h = h
  loop-Follows (suc fuel) n t h = elim (Bool-cases (is_zero c.count || lt_int n c.count)) [
    | inl go ↦ rw go (
        polled-Follows (move_loop env c fuel) n t (env.receive (move_read c) t) _
          (loop-Follows fuel) h (switch-Means _ _))
    | inr end ↦ rw end (t, h, limit (ground (arith, end)) (ground (arith, end)))
  ]

  move_loop-Follows : (fuel : ℕ) → Follows (move_loop env c fuel 0 [])
  move_loop-Follows fuel = loop-Follows fuel 0 [] start

  -- When source and destination differ, whatever the broker answers and however long it runs, move's
  -- trace is a row of moves, each a destructive read of the source and a send to the destination of
  -- the message read, with its payload, properties, correlation id, reply address, content type,
  -- priority and persistence, but without its message id and key. Then comes at most one of four
  -- ends: a limit that was reached, or a read without a message, a deadline or an interrupt, with the
  -- summary and the error of its write; any other failed read, with its error; a failed send with
  -- its error, the payload written out.
  pub do_move-Follows :
      (fuel : ℕ) → text_eq c.source c.destination ≡ false → Follows (do_move env c fuel)
  unfolding do_move
  do_move-Follows fuel h = rw h (move_loop-Follows fuel)

  pub payload_got :
      (e : Option GoError) (o : Option Message) (m : Message)
      → move_switch e o ≡ got m
      → read_payload (record { message = o; error = e }) ≡ m.payload ∷ []
  unfolding move_switch
  payload_got (some e) o m h = ground arith
  payload_got none none m h = cc
  payload_got none (some k) m h = ground arith

  Moved-conserves : {t : Trace} {n : ℕ} → Moved t n → consumed t ≡ settled_to c.destination t
  unfolding consumed settled_to
  Moved-conserves start = refl
  Moved-conserves (move t n r m h s) =
      rw (read_payload-Gave r m s, if_named_refl) (ap (λ l. m.payload ∷ l) (Moved-conserves h))

  Tail-conserves :
      {n : ℕ} {t u : Trace} {e : Option GoError}
      → Tail n t e u
      → consumed t ≡ settled_to c.destination t
      → consumed u ≡ settled_to c.destination u
  unfolding consumed settled_to
  Tail-conserves (limit a b) h = h
  Tail-conserves (drained r (inl s)) h = rw (read_payload-Cancelled r s) h
  Tail-conserves (drained r (inr s)) h = rw (read_payload-Idle r s) h
  Tail-conserves (read_failed r e s) h = rw (read_payload-Broken r e s) h
  Tail-conserves (send_failed r m e s) h = rw (read_payload-Gave r m s) (ap (λ l. m.payload ∷ l) h)

  Follows-conserves :
      (r : Result) → Follows r → consumed (trace_of r) ≡ settled_to c.destination (trace_of r)
  Follows-conserves (running n t) h = Moved-conserves h
  Follows-conserves (finished e n t) h = Tail-conserves h.2 (Moved-conserves h.1)

  -- At every moment the payloads that move has taken from the source are, in the same order, those
  -- that it has sent to the destination queue without error or written out: none is lost and none is
  -- doubled.
  pub do_move_conserves :
      (fuel : ℕ)
      → consumed (trace_of (do_move env c fuel))
        ≡ settled_to c.destination (trace_of (do_move env c fuel))
  do_move_conserves fuel = elim (Bool-cases (text_eq c.source c.destination)) [
    | inl same ↦ unfold do_move consumed settled_to in rw same
    | inr differ ↦ Follows-conserves (do_move env c fuel) (do_move-Follows fuel differ)
  ]
