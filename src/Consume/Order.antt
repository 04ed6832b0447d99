-- ===== src/Consume/Order.antt =====
-- consumeMessages of cmd/consume.go shows what it reads, in order, after those it omits.
use xmc.Prelude.{
  ℕ, zero, suc, ◌+◌, true, false, not, ◌&&◌, ◌||◌, Option, none, some, List, [], ◌∷◌, ◌++◌, ◌≡◌,
  ◌⊎◌, refl, ap, sym, ◌∙◌, length, ℤ, lt_int, ◌==◌, Bool-cases, inl, inr, add-one,
}
use xmc.Errors.{GoError, is_error, canceled, deadline_exceeded, no_message_available}
use xmc.Backends.{Message, Read}
use xmc.Consume.{
  ConsumeConfig, Display, Steps, got, shown, Environment, Consumed, returned, running, Loop,
  display_of, unbounded, consume_empty, consume_error, consume_shown, consume_message, consume_got,
  consume_round, consume_loop, consume_messages,
}

abbrev pub steps_of : Consumed → Steps
steps_of (returned e t) = t
steps_of (running t) = t

abbrev pub message_of : Option GoError → Option Message → List Message
message_of none (some m) = m ∷ []
message_of none none = []
message_of (some e) o = []

-- The messages that were read, and those that were put out without error, newest first.
abbrev pub taken : Steps → List Message
taken [] = []
taken (got r ∷ t) = message_of r.error r.message ++ taken t
taken (shown d m e ∷ t) = taken t

abbrev pub displayed : Steps → List Message
displayed [] = []
displayed (got r ∷ t) = displayed t
displayed (shown d m none ∷ t) = m ∷ displayed t
displayed (shown d m (some e) ∷ t) = displayed t

-- The messages read are those displayed and, before them, the omitted ones; nothing is displayed
-- while there is one to omit.
pub record Ordered (omit : ℤ) (t : Steps) : Type 0 where
  pub omitted : List Message
  pub in_order : taken t ≡ displayed t ++ omitted
  pub omit_first : (displayed t ≡ []) ⊎ (lt_int (length omitted) omit ≡ false)
  pub at_most : (omitted ≡ []) ⊎ ((n : ℕ) × (length omitted ≡ suc n) × (lt_int n omit ≡ true))

-- What a run comes to: all that was read was put out or omitted; or else the last message read could
-- not be put out, after others of which all were, and the run returned this error.
pub data Accounted (omit : ℤ) : Consumed → Type 0 where
  all_out : (r : Consumed) → Ordered omit (steps_of r) → Accounted omit r
  output_failed :
      (t : Steps) (d : Display) (m : Message) (e : GoError) (o : Ordered omit t)
      → lt_int (length o.omitted) omit ≡ false
      → Accounted omit (
          returned
            (some e)
            (shown d m (some e) ∷ got (record { message = some m; error = none }) ∷ t))

module _ (env : Environment) (cfg : ConsumeConfig) where
  -- The invariant with the counter.
  abbrev Kept : ℕ → Steps → Type 0
  Kept n t = (o : Ordered cfg.omit t) × (length o.omitted ≡ n)

  abbrev Good : Loop → Type 0
  Good loop = (r n : ℕ) (t : Steps) → Kept n t → Accounted cfg.omit (loop r n t)

  -- A message in hand: it was read after all of that.
  abbrev Holding : ℕ → Message → Steps → Steps → Type 0
  Holding n m t u = Kept n t × (taken u ≡ m ∷ taken t) × (displayed u ≡ displayed t)

  empty-Ordered :
      (loop : Loop) (r n : ℕ) (t : Steps)
      → Good loop
      → Kept n t
      → Accounted cfg.omit (consume_empty env cfg loop r n t)
  unfolding consume_empty
  empty-Ordered loop r n t k h = elim (Bool-cases cfg.follow) [
    | inl e ↦ simp e (k r n t h)
    | inr e ↦ elim (Bool-cases (r == 0 && not (unbounded env cfg))) [
      | inl f ↦ simp (e, f) (all_out _ h.0)
      | inr f ↦ simp (e, f) (all_out _ h.0)
    ]
  ]

  error-Ordered :
      (loop : Loop) (r n : ℕ) (e : GoError) (t : Steps)
      → Good loop
      → Kept n t
      → Accounted cfg.omit (consume_error env cfg loop r n e t)
  unfolding consume_error
  error-Ordered loop r n e t k h = elim (Bool-cases (is_error e canceled)) [
    | inl a ↦ rw a (all_out _ h.0)
    | inr a ↦ elim (Bool-cases (is_error e deadline_exceeded)) [
      | inl b ↦ elim (Bool-cases cfg.follow) [
        | inl f ↦ simp (a, b, f) (k r n t h)
        | inr f ↦ simp (a, b, f) (all_out _ h.0)
      ]
      | inr b ↦ elim (Bool-cases (is_error e no_message_available)) [
        | inl d ↦ simp (a, b, d) (empty-Ordered loop r n t k h)
        | inr d ↦ simp (a, b, d) (all_out _ h.0)
      ]
    ]
  ]

  Kept-got_nothing :
      (n : ℕ) (r : Read) (t : Steps)
      → message_of r.error r.message ≡ []
      → Kept n t
      → Kept n (got r ∷ t)
  Kept-got_nothing n r t e (o, l) = (
    record {
      omitted = o.omitted;
      in_order = rw e o.in_order;
      omit_first = o.omit_first;
      at_most = o.at_most;
    },
    l,
  )

  Kept-omitted :
      (n : ℕ) (m : Message) (t : Steps)
      → lt_int n cfg.omit ≡ true
      → Kept n t
      → Kept (n + 1) (got (record { message = some m; error = none }) ∷ t)
  Kept-omitted n m t more (o, l) = elim o.omit_first [
    | inl none_yet ↦ (
      record {
        omitted = m ∷ o.omitted;
        in_order =
            ap (λ x. m ∷ x) (o.in_order ∙ ap (λ x. x ++ o.omitted) none_yet)
            ∙ ap (λ x. x ++ m ∷ o.omitted) (sym none_yet);
        omit_first = inl none_yet;
        at_most = inr (n, ap suc l, more);
      },
      rw add-one (ap suc l),
    )
    | inr full ↦ absurd (cc (more, full, l))
  ]

  Kept-shown :
      (n : ℕ) (m : Message) (t : Steps)
      → lt_int n cfg.omit ≡ false
      → Kept n t
      → Kept n (shown (display_of cfg) m none ∷ got (record { message = some m; error = none }) ∷ t)
  Kept-shown n m t full (o, l) = (
    record {
      omitted = o.omitted;
      in_order = ap (λ x. m ∷ x) o.in_order;
      omit_first = inr (rw l full);
      at_most = o.at_most;
    },
    l,
  )

  shown-Ordered :
      (loop : Loop) (r n : ℕ) (m : Message) (e : Option GoError) (t : Steps)
      → Good loop
      → lt_int n cfg.omit ≡ false
      → Kept n t
      → Accounted cfg.omit (
          consume_shown env cfg loop r n e
            (shown (display_of cfg) m e ∷ got (record { message = some m; error = none }) ∷ t))
  unfolding consume_shown
  shown-Ordered loop r n m (some e) t k full (o, l) = output_failed t _ m e o (rw l full)
  shown-Ordered loop r n m none t k full h = k (r + 1) n _ (Kept-shown n m t full h)

  got-Ordered :
      (loop : Loop) (r n : ℕ) (e : Option GoError) (o : Option Message) (t : Steps)
      → Good loop
      → Kept n t
      → Accounted cfg.omit
          (consume_got env cfg loop r n e o (got (record { message = o; error = e }) ∷ t))
  unfolding consume_got consume_message
  got-Ordered loop r n (some e) o t k h =
      error-Ordered loop r n e _ k
        (Kept-got_nothing n (record { message = o; error = some e }) t refl h)
  got-Ordered loop r n none none t k h =
      empty-Ordered loop r n _ k
        (Kept-got_nothing n (record { message = none; error = none }) t refl h)
  got-Ordered loop r n none (some m) t k h = elim (Bool-cases (lt_int n cfg.omit)) [
    | inl more ↦ simp more (k r (n + 1) _ (Kept-omitted n m t more h))
    | inr full ↦ simp full (shown-Ordered loop r n m _ t k full h)
  ]

  round-Ordered :
      (loop : Loop) (r n : ℕ) (x : Option GoError) (t : Steps)
      → Good loop
      → Kept n t
      → Accounted cfg.omit (consume_round env cfg loop r n x t)
  unfolding consume_round
  round-Ordered loop r n (some e) t k h = all_out _ h.0
  round-Ordered loop r n none t k h =
      got-Ordered loop r n (env.receive t).error (env.receive t).message t k h

  loop-Ordered : (fuel : ℕ) → Good (consume_loop env cfg fuel)
  unfolding consume_loop
  loop-Ordered zero r n t h = all_out _ h.0
  loop-Ordered (suc fuel) r n t h = elim (Bool-cases (unbounded env cfg || lt_int r cfg.count)) [
    | inl go ↦ rw go (
        round-Ordered (consume_loop env cfg fuel) r n (env.context_error t) t (loop-Ordered fuel) h)
    | inr end ↦ rw end (all_out _ h.0)
  ]

  -- At every moment the messages that were read are those that were put out without error, in order,
  -- after the omitted ones: none is put out while one is to be omitted, and no more are omitted than
  -- asked for. Only the last one may be missing: when it could not be put out, the run has ended with
  -- this error.
  pub consume_messages-Accounted : (fuel : ℕ) → Accounted cfg.omit (consume_messages env cfg fuel)
  unfolding consume_messages
  consume_messages-Accounted fuel =
      loop-Ordered fuel 0 0 []
        (record { omitted = []; in_order = refl; omit_first = inl refl; at_most = inl refl }, refl)
