-- ===== src/Relay/Move/Ends.antt =====
-- doMove of cmd/move.go ends: when its limit is reached, and when the source runs dry.
use xmc.Prelude.{
  ℕ, zero, suc, ◌+◌, ◌≤◌, ◌<◌, true, ◌||◌, Option, none, some, [], ◌∷◌, ◌++◌, ◌≡◌, refl, ap, ◌∙◌,
  arith, text_eq, is_zero, lt_int, pos, length, leb, Bool-cases, inl, inr,
}
use xmc.Errors.{GoError}
use xmc.Backends.{Message}
use xmc.Relay.{
  received, sent, Trace, Environment, Polled, stop, again, fail, got, Result, finished, running,
  consumed,
}
use xmc.Relay.Move.{
  MoveFlags, move_read, move_write, move_switch, summarize_move, move_sent, move_polled, move_loop,
  do_move,
}
use xmc.Relay.Move.Conserves.{payload_got, switch-ne-again}

abbrev pub IsFinished : Result → Type 0
IsFinished (running n t) = ⊥
IsFinished (finished e n t) = Unit

below_of_not : (k x u : ℕ) → (k ≤ x → ⊥) → u ≡ suc x → u ≤ k
below_of_not k x u h e = elim (Bool-cases (leb k x)) [
  | inl le ↦ absurd (h (ground arith))
  | inr gt ↦ ground arith
]

module _ (env : Environment) (c : MoveFlags) where
  sent-IsFinished :
      (loop : ℕ → Trace → Result) (n : ℕ) (m : Message) (e : Option GoError) (t : Trace)
      → IsFinished (loop (n + 1) t)
      → IsFinished (move_sent env c loop n m e t)
  unfolding move_sent
  sent-IsFinished loop n m (some e) t h = tt
  sent-IsFinished loop n m none t h = h

  -- A round that gets no message ends the loop; one that gets a message moves it.
  polled-IsFinished :
      (loop : ℕ → Trace → Result) (n : ℕ) (p : Polled) (t : Trace)
      → (p ≡ again → ⊥)
      → ((m : Message) (u : Trace)
          → p ≡ got m
          → consumed u ≡ consumed t
          → IsFinished (loop (n + 1) u))
      → IsFinished (move_polled env c loop n p t)
  unfolding move_polled summarize_move consumed
  polled-IsFinished loop n stop t a h = tt
  polled-IsFinished loop n again t a h = absurd (a refl)
  polled-IsFinished loop n (fail e) t a h = tt
  polled-IsFinished loop n (got m) t a h =
      let o = move_write c m in
      let e = env.send o t in
      sent-IsFinished loop n m e (sent o e ∷ t) (h m (sent o e ∷ t) refl refl)

  consumed_one :
      (t : Trace) (m : Message) (u : Trace)
      → move_switch (env.receive (move_read c) t).error (env.receive (move_read c) t).message
        ≡ got m
      → consumed u ≡ consumed (received (move_read c) (env.receive (move_read c) t) ∷ t)
      → length (consumed u) ≡ suc (length (consumed t))
  unfolding consumed
  consumed_one t m u s e =
      ap (λ l. length l) (e ∙ ap (λ l. l ++ consumed t) (payload_got env c _ _ m s))

  -- The reads that are left, by the messages that the source still gives.
  loop-IsFinished_dry :
      (k : ℕ)
      → ((t : Trace) (m : Message)
          → k ≤ length (consumed t)
          → move_switch (env.receive (move_read c) t).error (env.receive (move_read c) t).message
            ≡ got m
          → ⊥)
      → (fuel n : ℕ) (t : Trace) → length (consumed t) ≤ k
      → k < fuel + length (consumed t)
      → IsFinished (move_loop env c fuel n t)
  unfolding move_loop summarize_move
  loop-IsFinished_dry k dry zero n t h f = absurd (omega arith)
  loop-IsFinished_dry k dry (suc fuel) n t h f =
      elim (Bool-cases (is_zero c.count || lt_int n c.count)) [
        | inr end ↦ rw end tt
        | inl go ↦ rw go (
            polled-IsFinished (move_loop env c fuel) n _ _ (switch-ne-again env c _ _) (λ m u s e.
              loop-IsFinished_dry k dry fuel (n + 1) u
                (below_of_not k (length (consumed t)) _ (λ le. dry t m le s)
                  (consumed_one t m u s e))
                (omega (arith, consumed_one t m u s e))))
      ]

  -- A source that gives at most `k` messages is drained, or the limit is reached, within `k + 1`
  -- rounds: move returns.
  pub do_move-IsFinished_dry :
      (k : ℕ)
      → ((t : Trace) (m : Message)
          → k ≤ length (consumed t)
          → move_switch (env.receive (move_read c) t).error (env.receive (move_read c) t).message
            ≡ got m
          → ⊥)
      → IsFinished (do_move env c (k + 1))
  unfolding do_move
  do_move-IsFinished_dry k dry = elim (Bool-cases (text_eq c.source c.destination)) [
    | inl same ↦ rw same tt
    | inr differ ↦ rw differ (loop-IsFinished_dry k dry (k + 1) 0 [] (nothing k) (omega arith))
  ]
    where
      nothing : (j : ℕ) → length (consumed []) ≤ j
      nothing j = unfold consumed in omega arith

  loop-IsFinished_count :
      (k fuel n : ℕ) (t : Trace)
      → c.count ≡ pos (suc k)
      → n ≤ suc k
      → suc k < fuel + n
      → IsFinished (move_loop env c fuel n t)
  unfolding move_loop summarize_move
  loop-IsFinished_count k zero n t e h f = absurd (omega arith)
  loop-IsFinished_count k (suc fuel) n t e h f =
      elim (Bool-cases (is_zero c.count || lt_int n c.count)) [
        | inr end ↦ rw end tt
        | inl go ↦ rw go (
            polled-IsFinished (move_loop env c fuel) n _ _ (switch-ne-again env c _ _) (λ m u s _.
              loop-IsFinished_count k fuel (n + 1) u e (room k n (rw e at go)) (omega arith)))
      ]
    where
      room : (j i : ℕ) → (is_zero (pos (suc j)) || lt_int i (pos (suc j))) ≡ true → i + 1 ≤ suc j
      room j i p = ground arith

  -- With a positive limit move returns within one round more, whatever the broker does.
  pub do_move-IsFinished_count :
      (k : ℕ) → c.count ≡ pos (suc k) → IsFinished (do_move env c (suc (suc k)))
  unfolding do_move
  do_move-IsFinished_count k e = elim (Bool-cases (text_eq c.source c.destination)) [
    | inl same ↦ rw same tt
    | inr differ ↦
        rw differ (loop-IsFinished_count k (suc (suc k)) 0 [] e (omega arith) (omega arith))
  ]
