-- ===== src/Relay/Reply/Protocol.antt =====
-- What the responder of cmd/reply.go does to the broker.
use xmc.Prelude.{
  ℕ, suc, Bool, true, false, not, ◌&&◌, ◌||◌, Option, none, some, [], ◌∷◌, ◌≡◌, ◌≢◌, ◌⊎◌, Text,
  is_empty, leb, is_zero, lt_int, ℤ, if◌then◌else◌,
}
use xmc.Errors.{GoError}
use xmc.Backends.{Bytes, Message, Read, ReceiveOptions, SendOptions, normal}
use xmc.Relay.{
  received, sent, ran, Trace, Environment, Polled, stop, again, fail, got, Result, finished,
  running,
}
use xmc.Relay.Reads.{Gave, Cancelled, Idle, Broken}
use xmc.Relay.Reply.{ReplyFlags, ReplyConfig}

-- The first of two texts that is not empty, or empty.
abbrev pub first_given : Text → Text → Text
first_given [] b = b
first_given (c ∷ a) b = c ∷ a

-- A destructive read of the request queue, which waits when there is no timeout.
abbrev pub request_read : ReplyFlags → ReceiveOptions
request_read c = record {
  queue = c.queue;
  timeout = c.timeout;
  wait = leb c.timeout 0;
  acknowledge = true;
  verbosity = normal;
  selector = c.selector;
  extra = [];
}

module _ (env : Environment) (cfg : ReplyConfig) where
  -- The request's own reply address, else that of the flags.
  abbrev pub address : Message → Text
  address m = first_given m.reply_to cfg.reply_to

  -- A reply to that address with the request's correlation id, else its message id.
  abbrev pub reply_with : Message → Bytes → SendOptions
  reply_with m body = record {
    queue = address m;
    message = body;
    properties = cfg.properties;
    message_id = [];
    correlation_id = first_given m.correlation_id m.message_id;
    reply_to = [];
    content_type = cfg.content_type;
    priority = 0;
    persistent = false;
    key = [];
    ttl = 0;
    extra = [];
  }

  -- The body of a reply: the request's own, the fixed one, or what the command makes of it.
  pub data Body (m : Message) (t : Trace) : Bytes → Trace → Type 0 where
    echoed : cfg.echo ≡ true → Body m t m.payload t
    fixed : cfg.echo ≡ false → is_empty cfg.command ≡ true → Body m t cfg.static_body t
    commanded :
        (body : Bytes)
        → cfg.echo ≡ false
        → is_empty cfg.command ≡ false
        → env.run cfg.command m.payload t ≡ some body
        → Body m t body (ran cfg.command m.payload (some body) ∷ t)

  -- What one request leads to, with the error that ends the responder.
  pub data Response (m : Message) (t : Trace) : Option GoError → Trace → Type 0 where
    unaddressed : address m ≡ [] → Response m t none t
    command_failed :
        address m ≢ []
        → cfg.echo ≡ false
        → is_empty cfg.command ≡ false
        → env.run cfg.command m.payload t ≡ none
        → Response m t none (ran cfg.command m.payload none ∷ t)
    replied :
        (body : Bytes) (u : Trace) (e : Option GoError)
        → address m ≢ []
        → Body m t body u
        → env.send (reply_with m body) u ≡ e
        → Response m t e (sent (reply_with m body) e ∷ u)

  module _ (m : Message) (t : Trace) where
    abbrev output : Option Bytes
    output = env.run cfg.command m.payload t

-- What the switch says of the read.
abbrev Means : Bool → Polled → Read → Type 0
Means keep stop r = Cancelled r ⊎ ((keep ≡ false) × Idle r)
Means keep again r = (keep ≡ true) × Idle r
Means keep (fail e) r = Broken r e
Means keep (got m) r = Gave r m

module _ (env : Environment) (c : ReplyFlags) (count : ℤ) (keep : Bool) (cfg : ReplyConfig) where
  -- The trace of a responder that has served so many requests.
  pub data Served : Trace → ℕ → Type 0 where
    start : Served [] 0
    idle :
        {t : Trace} {n : ℕ} (r : Read)
        → Served t n
        → (keep ≡ true) × Idle r
        → Served (received (request_read c) r ∷ t) n
    serve :
        {t u : Trace} {n : ℕ} (r : Read) (m : Message)
        → Served t n
        → Gave r m
        → Response env cfg m (received (request_read c) r ∷ t) none u
        → Served u (suc n)

  -- How it ends, after having served so many requests.
  pub data Tail : ℕ → Trace → Option GoError → ℕ → Trace → Type 0 where
    limit : {n : ℕ} {t : Trace} → is_zero count ≡ false → lt_int n count ≡ false → Tail n t none n t
    interrupted :
        {n : ℕ} {t : Trace} (e : GoError) → env.context_error t ≡ some e → Tail n t none n t
    stopped :
        {n : ℕ} {t : Trace} (r : Read)
        → Cancelled r ⊎ ((keep ≡ false) × Idle r)
        → Tail n t none n (received (request_read c) r ∷ t)
    read_failed :
        {n : ℕ} {t : Trace} (r : Read) (e : GoError)
        → Broken r e
        → Tail n t (some e) n (received (request_read c) r ∷ t)
    reply_failed :
        {n : ℕ} {t u : Trace} (r : Read) (m : Message) (e : GoError)
        → Gave r m
        → Response env cfg m (received (request_read c) r ∷ t) (some e) u
        → Tail n t (some e) (suc n) u

  abbrev pub Follows : Result → Type 0
  Follows (running n t) = Served t n
  Follows (finished e n t) = (k : ℕ) × (before : Trace) × Served before k × Tail k before e n t

module _ (env : Environment) (c : ReplyFlags) (count : ℤ) (follow : Bool) (cfg : ReplyConfig) where
  abbrev keep : Bool
  keep = follow || is_zero count

  abbrev Good : (ℕ → Trace → Result) → Type 0
  Good loop =
      (k : ℕ) (u : Trace)
      → Served env c count keep cfg u k
      → Follows env c count keep cfg (loop k u)

-- The fixed body, which is read only where it is used.
abbrev pub fixed_body : ReplyFlags → Bytes → Bytes
fixed_body c body = if not c.echo && is_empty c.command then body else []
