-- ===== src/Tui.antt =====
-- cmd/aiproc.go and the parts of cmd/aitui.go and cmd/aikeys.go that share its state: the windows of
-- the sidebar, the focus, the prompt with its history, and the background processes. One record is
-- the part of aiTUIModel that these operations read and write; `none` for procWinIdx and histIdx is
-- -1 there. Rendering, the transcript, the textarea's cursor and the layout are not modelled.
pub mod Capped
pub mod Listing
pub mod Commands
pub mod Prompt
pub mod Processes
pub mod Events
pub mod Contexts
use xmc.Prelude.{ℕ, zero, suc, Bool, true, false, Option, none, some, List, [], ◌∷◌, Text, codes}
use xmc.Errors.{GoError}

-- objWindowKind
pub data WindowKind : Type 0 where
  objects procs : WindowKind

pub record Window : Type 0 where
  pub kind : WindowKind
  pub label : Text
  pub collapsed : Bool

-- inputMode
pub data Mode : Type 0 where
  mode_ai mode_cmd : Mode

-- bgProcess. A context is named by the number of its process; `lines` and `out` are written by
-- the process's goroutine (Tui.Capped).
pub record Process : Type 0 where
  pub id : ℕ
  pub name : Text
  pub command : Text
  pub cancel : Option ℕ
  pub done : Bool
  pub error : Option GoError

pub record Ui : Type 0 where
  pub windows : List Window
  pub focus : ℕ
  pub filtering : Bool
  pub processes : List Process
  pub proc_next_id : ℕ
  pub proc_win_idx : Option ℕ
  pub proc_sel : ℕ
  pub in_proc_view : Bool
  pub mode : Mode
  pub input : Text
  pub hist_idx : Option ℕ
  pub hist_draft : Text
  pub saved_mode : Mode
  pub saved_input : Text
  pub saved_hist : Option ℕ
  pub cmd_history : List Text
  pub ask_history : List Text
  -- the contexts that were cancelled, newest first
  pub cancelled : List ℕ
  -- whether a slice was indexed or cut out of its range, which ends the program; the other fields
  -- then say nothing
  pub panicked : Bool

abbrev pub is_procs : WindowKind → Bool
is_procs objects = false
is_procs procs = true

-- Whether the window with that index is the process window.
abbrev pub proc_at : List Window → ℕ → Bool
proc_at [] i = false
proc_at (w ∷ ws) zero = is_procs w.kind
proc_at (w ∷ ws) (suc i) = proc_at ws i

-- The window that has the focus is number `focus - 1`; 0 is the chat.
abbrev pub on_proc : ℕ → List Window → Bool
on_proc zero ws = false
on_proc (suc i) ws = proc_at ws i
