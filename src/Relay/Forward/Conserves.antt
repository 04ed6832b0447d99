-- ===== src/Relay/Forward/Conserves.antt =====
-- What becomes of the messages that doForward of cmd/forward.go takes.
use xmc.Prelude.{
  ℕ, false, ◌&&◌, Option, none, some, List, [], ◌∷◌, ◌++◌, ◌≡◌, ◌⊎◌, refl, ap, Text, text_eq,
  text_eq_refl, is_empty, Bool-cases, inl, inr,
}
use xmc.Errors.{GoError}
use xmc.Backends.{Bytes, Message, Read}
use xmc.Relay.{
  ran, recovered, summary, Trace, Environment, Result, finished, running, trace_of, read_payload,
  consumed, settled_to,
}
use xmc.Relay.Reads.{
  read_payload-Gave, read_payload-Cancelled, read_payload-Idle, read_payload-Broken,
}
use xmc.Relay.Forward.{ForwardFlags, read_event, write_event, bool_eq, do_forward}
use xmc.Relay.Forward.Protocol.{
  Body, plain_body, command_body, Forwarded, start, idle, skip, forward, Tail, limit, interrupted,
  cancelled, read_failed, write_failed, Follows, do_forward-Follows,
}

-- The lists have the same length, and the items at each place are related.
abbrev pub Pairwise : (Bytes → Bytes → Type 0) → List Bytes → List Bytes → Type 0
Pairwise Q [] [] = Unit
Pairwise Q [] (b ∷ ys) = ⊥
Pairwise Q (a ∷ xs) [] = ⊥
Pairwise Q (a ∷ xs) (b ∷ ys) = Q a b × Pairwise Q xs ys

module _ (env : Environment) (c : ForwardFlags) where
  consumed_read :
      (r : Read) (t : Trace) → consumed (read_event c r ∷ t) ≡ read_payload r ++ consumed t
  unfolding consumed
  consumed_read r t = elim (Bool-cases c.from_topic) [ inl e ↦ simp e | inr e ↦ simp e ]

  settled_read :
      (r : Read) (t : Trace)
      → settled_to c.destination (read_event c r ∷ t) ≡ settled_to c.destination t
  unfolding settled_to
  settled_read r t = elim (Bool-cases c.from_topic) [ inl e ↦ simp e | inr e ↦ simp e ]

  consumed_write :
      (b : Bytes) (m : Message) (e : Option GoError) (t : Trace)
      → consumed (write_event c b m e ∷ t) ≡ consumed t
  unfolding consumed
  consumed_write b m e t = elim (Bool-cases c.to_topic) [ inl x ↦ simp x | inr x ↦ simp x ]

  settled_write :
      (b : Bytes) (m : Message) (t : Trace)
      → settled_to c.destination (write_event c b m none ∷ t) ≡ b ∷ settled_to c.destination t
  unfolding settled_to
  settled_write b m t = elim (Bool-cases c.to_topic) [
    | inl x ↦ simp (x, text_eq_refl c.destination)
    | inr x ↦ simp (x, text_eq_refl c.destination)
  ]

  settled_unwritten :
      (b : Bytes) (m : Message) (e : GoError) (t : Trace)
      → settled_to c.destination (write_event c b m (some e) ∷ t) ≡ settled_to c.destination t
  unfolding settled_to
  settled_unwritten b m e t = elim (Bool-cases c.to_topic) [ inl x ↦ simp x | inr x ↦ simp x ]

  consumed_skip :
      (m : Message) (t : Trace)
      → consumed (recovered m.payload ∷ ran c.command m.payload none ∷ t) ≡ consumed t
  unfolding consumed
  consumed_skip m t = refl

  settled_skip :
      (m : Message) (t : Trace)
      → settled_to c.destination (recovered m.payload ∷ ran c.command m.payload none ∷ t)
        ≡ m.payload ∷ settled_to c.destination t
  unfolding settled_to
  settled_skip m t = refl

  Body-neutral :
      {m : Message} {t u : Trace} {b : Bytes}
      → Body env c m t b u
      → (consumed u ≡ consumed t) × (settled_to c.destination u ≡ settled_to c.destination t)
  unfolding consumed settled_to
  Body-neutral (plain_body e) = (refl, refl)
  Body-neutral (command_body b e o) = (refl, refl)

  consumed_unwritten :
      (b : Bytes) (m : Message) (e : GoError) (t : Trace)
      → consumed (recovered m.payload ∷ write_event c b m (some e) ∷ t) ≡ consumed t
  unfolding consumed
  consumed_unwritten b m e t = consumed_write b m (some e) t

  settled_recovered :
      (b : Bytes) (m : Message) (e : GoError) (t : Trace)
      → settled_to c.destination (recovered m.payload ∷ write_event c b m (some e) ∷ t)
        ≡ m.payload ∷ settled_to c.destination t
  unfolding settled_to
  settled_recovered b m e t = ap (λ l. m.payload ∷ l) (settled_unwritten b m e t)

  consumed_summary : (n : ℕ) (x y : Text) (t : Trace) → consumed (summary n x y ∷ t) ≡ consumed t
  unfolding consumed
  consumed_summary n x y t = refl

  settled_summary :
      (n : ℕ) (x y : Text) (t : Trace)
      → settled_to c.destination (summary n x y ∷ t) ≡ settled_to c.destination t
  unfolding settled_to
  settled_summary n x y t = refl

  -- A relation between what was consumed and what was settled_to c.destination that holds of a payload and the body
  -- made of it, and of a payload and itself.
  module _ (P : List Bytes → List Bytes → Type 0) (Q : Bytes → Bytes → Type 0) (none_yet : P [] [])
      (one_more : (p q : Bytes) (a b : List Bytes) → Q p q → P a b → P (p ∷ a) (q ∷ b))
      (same : (p : Bytes) → Q p p)
      (made : (m : Message) (t u : Trace) (b : Bytes) → Body env c m t b u → Q m.payload b) where
    Kept : Trace → Type 0
    Kept t = P (consumed t) (settled_to c.destination t)

    Kept-start : Kept []
    unfolding Kept consumed settled_to
    Kept-start = none_yet

    Forwarded-Kept : {t : Trace} {n : ℕ} → Forwarded env c t n → Kept t
    unfolding Kept
    Forwarded-Kept start = Kept-start
    Forwarded-Kept (idle {t = t} r h s) =
        rw (consumed_read r t, settled_read r t, read_payload-Idle r s) (Forwarded-Kept h)
    Forwarded-Kept (skip {t = t} r m h s o) =
        rw
          (
            consumed_skip m (read_event c r ∷ t),
            settled_skip m (read_event c r ∷ t),
            consumed_read r t,
            settled_read r t,
            read_payload-Gave r m s,
          )
          (one_more m.payload m.payload _ _ (same m.payload) (Forwarded-Kept h))
    Forwarded-Kept (forward {t = t} {u = u} r m b h s body) =
        rw
          (
            consumed_write b m none u,
            settled_write b m u,
            (Body-neutral body).0,
            (Body-neutral body).1,
            consumed_read r t,
            settled_read r t,
            read_payload-Gave r m s,
          )
          (one_more m.payload b _ _ (made m _ u b body) (Forwarded-Kept h))

    Tail-Kept : {n : ℕ} {t u : Trace} {e : Option GoError} → Tail env c n t e u → Kept t → Kept u
    unfolding Kept
    Tail-Kept {n = n} {t = t} (limit x) h = rw (consumed_summary n _ _ t, settled_summary n _ _ t) h
    Tail-Kept {n = n} {t = t} (interrupted e x) h =
        rw (consumed_summary n _ _ t, settled_summary n _ _ t) h
    Tail-Kept {n = n} {t = t} (cancelled r s) h =
        rw
          (
            consumed_summary n _ _ (read_event c r ∷ t),
            settled_summary n _ _ (read_event c r ∷ t),
            consumed_read r t,
            settled_read r t,
            read_payload-Cancelled r s,
          )
          h
    Tail-Kept {t = t} (read_failed r e s) h =
        rw (consumed_read r t, settled_read r t, read_payload-Broken r e s) h
    Tail-Kept {t = t} (write_failed {u = u} r m b e s body) h =
        rw
          (
            consumed_unwritten b m e u,
            settled_recovered b m e u,
            (Body-neutral body).0,
            (Body-neutral body).1,
            consumed_read r t,
            settled_read r t,
            read_payload-Gave r m s,
          )
          (one_more m.payload m.payload _ _ (same m.payload) h)

    Follows-Kept : (r : Result) → Follows env c r → Kept (trace_of r)
    Follows-Kept (running n t) h = Forwarded-Kept h
    Follows-Kept (finished e n t) h = Tail-Kept h.2 (Forwarded-Kept h.1)

module _ (env : Environment) (c : ForwardFlags) where
  -- The payload itself, or what the command made of it.
  abbrev pub MadeOf : Bytes → Bytes → Type 0
  MadeOf p q =
      (p ≡ q) ⊎ ((is_empty c.command ≡ false) × (t : Trace) × (env.run c.command p t ≡ some q))

  Body-MadeOf : {m : Message} {t u : Trace} {b : Bytes} → Body env c m t b u → MadeOf m.payload b
  Body-MadeOf (plain_body e) = inl refl
  Body-MadeOf {t = t} (command_body b e o) = inr (e, t, o)

  -- At every moment the messages that forward has taken from the source and those that it has sent
  -- to the destination without error or written out are, in the same order, one to one: each of the
  -- latter is the payload of the message in its place, or an output of the command for this payload.
  pub do_forward_settles :
      (fuel : ℕ)
      → text_eq c.source c.destination && bool_eq c.from_topic c.to_topic ≡ false
      → Pairwise MadeOf
          (consumed (trace_of (do_forward env c none fuel)))
          (settled_to c.destination (trace_of (do_forward env c none fuel)))
  unfolding Kept
  do_forward_settles fuel h =
      Follows-Kept env c (Pairwise MadeOf) MadeOf tt (λ p q a b x e. (x, e)) (λ p. inl refl)
        (λ m t u b x. Body-MadeOf x) _ (do_forward-Follows env c fuel h)
