-- ===== src/Tui/Contexts.antt =====
-- What becomes of the contexts of the background processes. `fin` tells the processes that finish.
pub mod Same
pub mod Steps
pub mod Carried
pub mod Idle
pub mod Delivered
use xmc.Prelude.{ℕ, Bool, true, false, ◌&&◌, ◌||◌, ◌==◌, Option, none, some, List, ◌≡◌, any, All}
use xmc.Tui.{Process, Ui}
use xmc.Tui.Events.{Event, pressed, cancel_msg, done_msg}

abbrev pub is_context : ℕ → Option ℕ → Bool
is_context k none = false
is_context k (some i) = i == k

-- Whether the process k is listed and can be cancelled.
abbrev pub holds : ℕ → Process → Bool
holds k p = p.id == k && is_context k p.cancel

module _ (fin : ℕ → Bool) where
  abbrev pub FinKnown : Process → Type 0
  FinKnown p = p.done ≡ true → fin p.id ≡ true

  abbrev pub AllFinKnown : List Process → Type 0
  AllFinKnown ps = All FinKnown ps

  -- The context of process k is held, was cancelled, or its process finishes.
  abbrev pub accounted : ℕ → List Process → List ℕ → Bool
  accounted k ps cs = any (holds k) ps || any (λ i. i == k) cs || fin k

-- Whether the message is the context of process k, or its end.
abbrev pub delivers : ℕ → Event → Bool
delivers k (pressed key) = false
delivers k (cancel_msg i) = i == k
delivers k (done_msg i e) = false

abbrev pub finishes : ℕ → Event → Bool
finishes k (pressed key) = false
finishes k (cancel_msg i) = false
finishes k (done_msg i e) = i == k
