-- ===== src/Tui/Contexts/Delivered.antt =====
-- No context is lost, in whatever order keys and messages come.
use xmc.Prelude.{
  ℕ, Bool, true, false, ◌||◌, ◌==◌, ==_iff, ==_refl, Option, none, some, List, [], ◌∷◌, ◌≡◌, ◌⊎◌,
  inl, inr, refl, arith, Text, any,
}
use mathlib.Core.Option.{some-injective}
use mathlib.Core.Path.{subst}
use xmc.Errors.{}
use xmc.Tui.{Window, Ui}
use xmc.Tui.Prompt.{}
use xmc.Tui.Processes.{Key, has_id, keep_cancel, handle_proc_cancel_msg}
use xmc.Tui.Processes.Names.{}
use xmc.Tui.Events.{new_ui, Event, pressed, cancel_msg, done_msg, update, updates}
use xmc.Tui.Contexts.{holds, AllFinKnown, accounted, delivers, finishes}
use xmc.Tui.Contexts.Same.{}
use xmc.Tui.Contexts.Steps.{stored-holds}
use xmc.Tui.Contexts.Carried.{Carries, CarriesIf, Carries-trans, cancel-Carries, done-Carries}
use xmc.Tui.Contexts.Idle.{unchanged, idle-Carries}

module _ (fin : ℕ → Bool) where
  module _ (edit : Text → Key → Text) (complete : Text → Text)
      (selected : List Window → ℕ → Text) where
    update-Carries :
        (e : Event) (m : Ui)
        → ((k : ℕ) → finishes k e ≡ true → fin k ≡ true)
        → CarriesIf fin m (update edit complete selected e m)
    unfolding update
    update-Carries (pressed key) m f = idle-Carries fin edit complete selected key m
    update-Carries (cancel_msg i) m f = cancel-Carries fin i m
    update-Carries (done_msg i e) m f = done-Carries fin i e m (f i (==_refl i))

    then-Carries :
        (o : Option Ui) (es : List Event) (m n : Ui)
        → CarriesIf fin m o
        → elim o [ none ↦ none | some p ↦ updates edit complete selected es p ] ≡ some n
        → ((p : Ui) → updates edit complete selected es p ≡ some n → Carries fin p n)
        → Carries fin m n
    then-Carries none es m n c u k = cc
    then-Carries (some p) es m n c u k = Carries-trans fin m p n c (k p u)

    updates-Carries :
        (es : List Event) (m n : Ui)
        → ((k : ℕ) → any (finishes k) es ≡ true → fin k ≡ true)
        → updates edit complete selected es m ≡ some n
        → Carries fin m n
    unfolding updates
    updates-Carries [] m n f u =
        subst (Carries fin m) (some-injective m n u) (unchanged fin m m refl refl)
    updates-Carries (e ∷ es) m n f u =
        then-Carries (update edit complete selected e m) es m n
          (update-Carries e m (λ k h. f k (ground (arith, h)))) u
          (λ p. updates-Carries es p n (λ k h. f k (ground (arith, h))))

    -- The context that a message brings is held or cancelled at once.
    delivered_at :
        (i : ℕ) (m : Ui)
        → accounted fin i
            (handle_proc_cancel_msg i m).processes
            (handle_proc_cancel_msg i m).cancelled
          ≡ true
    unfolding handle_proc_cancel_msg keep_cancel
    delivered_at i m = go (any (has_id i) m.processes) refl
      where
        go :
            (b : Bool)
            → any (has_id i) m.processes ≡ b
            → accounted fin i (keep_cancel b i m).processes (keep_cancel b i m).cancelled ≡ true
        go true e = ground (arith, stored-holds i m.processes e)
        go false e = ground (arith, ==_refl i)

    AccountedIf : ℕ → Option Ui → Type 0
    AccountedIf k none = Unit
    AccountedIf k (some n) = accounted fin k n.processes n.cancelled ≡ true

    delivers-accounted :
        (k : ℕ) (e : Event) (m : Ui)
        → delivers k e ≡ true
        → AccountedIf k (update edit complete selected e m)
    unfolding update AccountedIf
    delivers-accounted k (pressed key) m h = cc
    delivers-accounted k (done_msg i e) m h = cc
    delivers-accounted k (cancel_msg i) m h =
        subst
          (λ j.
            accounted fin j (handle_proc_cancel_msg i m).processes
              (handle_proc_cancel_msg i m).cancelled
            ≡ true)
          ((==_iff i k).0 h) (delivered_at i m)

    then-accounted :
        (k : ℕ) (o : Option Ui) (es : List Event) (m n : Ui)
        → CarriesIf fin m o
        → AllFinKnown fin m.processes
        → elim o [ none ↦ none | some p ↦ updates edit complete selected es p ] ≡ some n
        → ((p : Ui) → updates edit complete selected es p ≡ some n → Carries fin p n)
        → ((p : Ui)
            → AllFinKnown fin p.processes
            → updates edit complete selected es p ≡ some n
            → any (delivers k) es ≡ true
            → accounted fin k n.processes n.cancelled ≡ true)
        → (AccountedIf k o ⊎ (any (delivers k) es ≡ true))
        → accounted fin k n.processes n.cancelled ≡ true
    unfolding AccountedIf
    then-accounted k none es m n c d u rest later h = cc
    then-accounted k (some p) es m n c d u rest later (inl a) = (rest p u).kept k (c.known d) a
    then-accounted k (some p) es m n c d u rest later (inr a) = later p (c.known d) u a

    updates-accounted :
        (es : List Event) (m n : Ui) (k : ℕ)
        → AllFinKnown fin m.processes
        → ((j : ℕ) → any (finishes j) es ≡ true → fin j ≡ true)
        → updates edit complete selected es m ≡ some n
        → any (delivers k) es ≡ true
        → accounted fin k n.processes n.cancelled ≡ true
    unfolding updates
    updates-accounted [] m n k d f u h = cc
    updates-accounted (e ∷ es) m n k d f u h =
        then-accounted k (update edit complete selected e m) es m n
          (update-Carries e m (λ j g. f j (ground (arith, g)))) d u
          (λ p. updates-Carries es p n (λ j g. f j (ground (arith, g))))
          (λ p d' u'. updates-accounted es p n k d' (λ j g. f j (ground (arith, g))) u')
          (here (delivers k e) refl)
      where
        here :
            (b : Bool)
            → delivers k e ≡ b
            → AccountedIf k (update edit complete selected e m) ⊎ (any (delivers k) es ≡ true)
        here true t = inl (delivers-accounted k e m t)
        here false t = inr (ground (arith, h, t))

-- Of an interface that starts without processes, after any keys and messages: the context that a
-- message brought for process k is held by a listed process of that id, or was cancelled, or the
-- message that k is done has come.
pub session-contexts :
    (edit : Text → Key → Text) (complete : Text → Text) (selected : List Window → ℕ → Text)
    (windows : List Window) (cmd ask : List Text) (es : List Event) (m : Ui) (k : ℕ)
    → updates edit complete selected es (new_ui windows cmd ask) ≡ some m
    → any (delivers k) es ≡ true
    → (any (holds k) m.processes || any (λ i. i == k) m.cancelled || any (finishes k) es) ≡ true
session-contexts edit complete selected windows cmd ask es m k u h =
    updates-accounted (λ j. any (finishes j) es) edit complete selected es (new_ui windows cmd ask)
      m k tt (λ j g. g) u h
