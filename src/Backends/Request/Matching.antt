-- ===== src/Backends/Request/Matching.antt =====
-- What a requester may rely on: the ids of broker/backends/request.go.
use xmc.Prelude.{
  ℕ, zero, suc, false, true, Option, none, some, List, [], ◌∷◌, ◌≡◌, ◌≢◌, ◌⊎◌, refl, sym, ◌∙◌,
  arith, Text, codes, text_eq→eq, Option-cases, ap, inl, inr,
}
use mathlib.Core.Path.{subst}
use xmc.Errors.{GoError}
use xmc.Backends.{Bytes, Message, Read, SendOptions, ReceiveOptions, RequestOptions, normal}
use xmc.Backends.Request.{
  Exchange, Call, sent, received, new_correlation_id, ensure_correlation_id, request_options,
  send_of, receive_of, check_reply, exchange, default_request,
}

-- The id given, else the message id, else the fresh one.
abbrev pub effective_id : Text → Text → Text → Text
effective_id (c ∷ id) message_id fresh = c ∷ id
effective_id [] (c ∷ message_id) fresh = c ∷ message_id
effective_id [] [] fresh = fresh

-- The timeout given, else 30 seconds.
abbrev pub effective_timeout : ℕ → ℕ
effective_timeout zero = 30_000
effective_timeout (suc t) = suc t

effective_id-ne-nil :
    (id message_id fresh : Text) → fresh ≢ [] → effective_id id message_id fresh ≢ []
effective_id-ne-nil (c ∷ id) message_id fresh h e = cc
effective_id-ne-nil [] (c ∷ message_id) fresh h e = cc
effective_id-ne-nil [] [] fresh h e = h e

new_correlation_id-ne-nil : (r1 r2 : Bytes) → new_correlation_id r1 r2 ≢ []
unfolding new_correlation_id
new_correlation_id-ne-nil r1 r2 e = cc

-- A request's id is the one given, else its message id, else a fresh one, and it is never empty;
-- it is not changed by the defaults for the reply queue and the timeout.
pub request_options-id :
    (r1 r2 : Bytes) (opts : RequestOptions)
    → ((request_options r1 r2 opts).correlation_id
        ≡ effective_id opts.correlation_id opts.message_id (new_correlation_id r1 r2))
      × ((request_options r1 r2 opts).correlation_id ≢ [])
unfolding request_options ensure_correlation_id
request_options-id r1 r2 opts = (
  same,
  λ e.
      effective_id-ne-nil opts.correlation_id opts.message_id _ (new_correlation_id-ne-nil r1 r2)
        (sym same ∙ e),
)
  where
    same :
        (request_options r1 r2 opts).correlation_id
        ≡ effective_id opts.correlation_id opts.message_id (new_correlation_id r1 r2)
    same = ground arith

-- The request as it is sent: to its address, with the id, the reply queue and the metadata of the
-- options.
abbrev pub asks : RequestOptions → SendOptions
asks o = record {
  queue = o.address;
  message = o.message;
  properties = o.properties;
  message_id = o.message_id;
  correlation_id = o.correlation_id;
  reply_to = o.reply_to;
  content_type = o.content_type;
  priority = o.priority;
  persistent = o.persistent;
  key = [];
  ttl = 0;
  extra = [];
}

-- A destructive read of the reply queue.
abbrev pub awaits : RequestOptions → ReceiveOptions
awaits o = record {
  queue = o.reply_to;
  timeout = o.timeout;
  wait = false;
  acknowledge = true;
  verbosity = normal;
  selector = [];
  extra = [];
}

-- The id given, else the message id, else a fresh one; the reply queue and the timeout given, else
-- those of the defaults; the rest as given.
abbrev pub filled : Text → RequestOptions → RequestOptions
filled fresh o = record o {
  correlation_id = effective_id o.correlation_id o.message_id fresh;
  reply_to = effective_id o.reply_to (codes "xmc.reply") [];
  timeout = effective_timeout o.timeout;
}

request_options_lem :
    (r1 r2 : Bytes) (opts : RequestOptions)
    → request_options r1 r2 opts ≡ filled (new_correlation_id r1 r2) opts
unfolding request_options ensure_correlation_id
request_options_lem r1 r2 opts = of opts.correlation_id opts.message_id opts.reply_to opts.timeout
  where
    of :
        (c m p : Text) (t : ℕ)
        → request_options r1 r2
            (record opts { correlation_id = c; message_id = m; reply_to = p; timeout = t })
          ≡ filled
              (new_correlation_id r1 r2)
              (record opts { correlation_id = c; message_id = m; reply_to = p; timeout = t })
    of [] [] [] zero = refl
    of [] [] [] (suc t) = ground arith
    of [] [] (x ∷ p) zero = refl
    of [] [] (x ∷ p) (suc t) = ground arith
    of [] (x ∷ m) [] zero = refl
    of [] (x ∷ m) [] (suc t) = ground arith
    of [] (x ∷ m) (y ∷ p) zero = refl
    of [] (x ∷ m) (y ∷ p) (suc t) = ground arith
    of (x ∷ c) m [] zero = refl
    of (x ∷ c) m [] (suc t) = ground arith
    of (x ∷ c) m (y ∷ p) zero = refl
    of (x ∷ c) m (y ∷ p) (suc t) = ground arith

-- A reply that is handed back carries no id or the id that the request was sent with; and it is
-- what the one receive call on the reply queue returned, made after a send that succeeded.
pub record Answered (qb : Exchange) (o : RequestOptions) (r : Read) (calls : List Call)
    (m : Message) : Type 0 where
  pub matches : (m.correlation_id ≡ []) ⊎ (m.correlation_id ≡ o.correlation_id)
  pub no_error : r.error ≡ none
  pub was_sent : qb.send (asks o) ≡ none
  pub was_received : qb.receive (awaits o) ≡ record { message = some m; error = none }
  pub two_calls : calls ≡ sent (asks o) ∷ received (awaits o) ∷ []

abbrev got : Message → Read
got m = record { message = some m; error = none }

check_reply-got :
    (id : Text) (m m' : Message)
    → (check_reply id (got m)).message ≡ some m'
    → (((m'.correlation_id ≡ []) ⊎ (m'.correlation_id ≡ id))
        × ((check_reply id (got m)).error ≡ none)
        × (got m ≡ got m'))
unfolding check_reply
check_reply-got id m m' h =
    (ground (arith, text_eq→eq m.correlation_id id), ground arith, ground arith)

check_reply-some :
    (id : Text) (om : Option Message) (oe : Option GoError) (m : Message)
    → (check_reply id (record { message = om; error = oe })).message ≡ some m
    → (((m.correlation_id ≡ []) ⊎ (m.correlation_id ≡ id))
        × ((check_reply id (record { message = om; error = oe })).error ≡ none)
        × (om ≡ some m)
        × (oe ≡ none))
unfolding check_reply
check_reply-some id om (some e) m h = cc
check_reply-some id none none m h = cc
check_reply-some id (some m') none m h =
    let (a, b, c) = check_reply-got id m' m h in (a, b, ap (λ (r : Read). r.message) c, refl)

exchange_unsent :
    (qb : Exchange) (o : RequestOptions) (e : GoError)
    → qb.send (send_of o) ≡ some e
    → (m : Message) → (exchange qb o).0.message ≡ some m
    → ⊥
unfolding exchange
exchange_unsent qb o e f m h = cc (rw (f, exchange) at h)

exchange_sent :
    (qb : Exchange) (o : RequestOptions)
    → qb.send (send_of o) ≡ none
    → exchange qb o ≡ (
      check_reply o.correlation_id (qb.receive (receive_of o)),
      sent (send_of o) ∷ received (receive_of o) ∷ [],
    )
unfolding exchange
exchange_sent qb o f = rw (f, exchange)

exchange-Answered :
    (qb : Exchange) (o : RequestOptions) (m : Message)
    → (exchange qb o).0.message ≡ some m
    → Answered qb o (exchange qb o).0 (exchange qb o).1 m
exchange-Answered qb o m h = go (Option-cases (qb.send (send_of o)))
  where
    go :
        (qb.send (send_of o) ≡ none) ⊎ ((e : GoError) × (qb.send (send_of o) ≡ some e))
        → Answered qb o (exchange qb o).0 (exchange qb o).1 m
    go (inr (e, f)) = absurd (exchange_unsent qb o e f m h)
    go (inl f) =
        let done = exchange_sent qb o f in
        let (a, b, c, d) =
          check_reply-some o.correlation_id (qb.receive (receive_of o)).message
            (qb.receive (receive_of o)).error m (rw done at h) in
        record {
          matches = a;
          no_error = rw done b;
          was_sent = f;
          was_received = λ i. record { message = c i; error = d i };
          two_calls = rw done;
        }

-- When the exchange hands a message back, there is no error; exactly one send was made, to the
-- request's address with the reply queue and the correlation id given, or else its message id, or
-- else a fresh id, and it succeeded; then exactly one destructive read of the reply queue given, or
-- else of xmc.reply, with the timeout given, or else 30 seconds, and it returned the message. The
-- message carries no correlation id or that of the request.
pub default_request-Answered :
    (qb : Exchange) (r1 r2 : Bytes) (opts : RequestOptions) (m : Message)
    → (default_request qb r1 r2 opts).0.message ≡ some m
    → Answered qb
        (filled (new_correlation_id r1 r2) opts)
        (default_request qb r1 r2 opts).0
        (default_request qb r1 r2 opts).1
        m
unfolding default_request
default_request-Answered qb r1 r2 opts m h =
    of (request_options r1 r2 opts) (filled _ opts) (request_options_lem r1 r2 opts)
      (exchange-Answered qb (request_options r1 r2 opts) m h)
  where
    of :
        (o o' : RequestOptions)
        → o ≡ o'
        → Answered qb o (exchange qb o).0 (exchange qb o).1 m
        → Answered qb o' (exchange qb o).0 (exchange qb o).1 m
    of o o' e a = subst (λ x. Answered qb x (exchange qb o).0 (exchange qb o).1 m) e a
