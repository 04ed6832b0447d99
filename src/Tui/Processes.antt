-- ===== src/Tui/Processes.antt =====
-- The background processes of cmd/aiproc.go: the window, the messages of their goroutines and the
-- keys of the process window.
pub mod Names
use xmc.Prelude.{
  ℕ, zero, suc, ◌+◌, ◌-◌, Bool, true, false, not, ◌&&◌, ◌||◌, ◌==◌, Option, none, some, List, [],
  ◌∷◌, ◌++◌, Text, codes, length, get_elem?, take, leb, ltb, is_empty, any, if◌then◌else◌,
}
use xmc.Errors.{GoError}
use xmc.Tui.{Window, procs, Process, Ui}
use xmc.Tui.Prompt.{clamp_sel, update_proc_prompt, exit_process_view, cycle_focus}
use xmc.Tui.Processes.Names.{process_name}

abbrev pub process_window : Window
process_window = record { kind = procs; label = codes "Processes"; collapsed = false }

unfoldable pub ensure_window : Option ℕ → Ui → Ui
ensure_window (some i) m = m
ensure_window none m = record m {
  windows = m.windows ++ process_window ∷ [];
  proc_win_idx = some (length m.windows);
}

-- ensureProcWindow
unfoldable pub ensure_proc_window : Ui → Ui
unfolding ensure_window
ensure_proc_window m = ensure_window m.proc_win_idx m

abbrev pub all_but_last {ℓ} : {A : Type ℓ} → List A → List A
all_but_last [] = []
all_but_last (x ∷ []) = []
all_but_last (x ∷ y ∷ xs) = x ∷ all_but_last (y ∷ xs)

unfoldable pub leave_window : Bool → Ui → Ui
unfolding exit_process_view
leave_window false m = m
leave_window true m = record (exit_process_view m) { focus = 0 }

unfoldable pub remove_window : Option ℕ → Ui → Ui
unfolding leave_window
remove_window none m = m
remove_window (some i) m =
    let left = leave_window (m.focus == i + 1) m in
    record left {
      windows = all_but_last left.windows;
      proc_win_idx = none;
      panicked = left.panicked || is_empty left.windows;
    }

-- removeProcWindow
unfoldable pub remove_proc_window : Ui → Ui
unfolding remove_window
remove_proc_window m = remove_window m.proc_win_idx m

-- rebuildProcessNodes
unfoldable pub rebuild_process_nodes : Ui → Ui
rebuild_process_nodes m = record m {
  proc_sel = if is_empty m.processes then 0 else clamp_sel m.proc_sel (length m.processes);
}

-- startBackgroundProcess, as far as the interface goes.
unfoldable pub start_background_process : Text → Ui → Ui
unfolding ensure_proc_window rebuild_process_nodes process_name
start_background_process command m = rebuild_process_nodes (
    ensure_proc_window (record m {
      processes =
          m.processes
          ++ record {
            id = m.proc_next_id;
            name = process_name command;
            command = command;
            cancel = none;
            done = false;
            error = none;
          }
            ∷ [];
      proc_next_id = m.proc_next_id + 1;
    }))

abbrev pub has_id : ℕ → Process → Bool
has_id k p = p.id == k

-- The first process with the id.
abbrev pub update_id : ℕ → (Process → Process) → List Process → List Process
update_id k f [] = []
update_id k f (p ∷ ps) = if has_id k p then f p ∷ ps else p ∷ update_id k f ps

unfoldable pub keep_cancel : Bool → ℕ → Ui → Ui
keep_cancel true k m = record m {
  processes = update_id k (λ p. record p { cancel = some k }) m.processes;
}
keep_cancel false k m = record m { cancelled = k ∷ m.cancelled }

-- handleProcCancelMsg: the context is kept, or cancelled when its process is gone.
unfoldable pub handle_proc_cancel_msg : ℕ → Ui → Ui
unfolding keep_cancel
handle_proc_cancel_msg k m = keep_cancel (any (has_id k) m.processes) k m

unfoldable pub note_done : Bool → ℕ → Option GoError → Ui → Ui
unfolding rebuild_process_nodes
note_done false k e m = m
note_done true k e m =
    rebuild_process_nodes
      (record m { processes = update_id k (λ p. record p { done = true; error = e }) m.processes })

-- handleProcDoneMsg; the refresh of the sidebar that may follow is not part of this state.
unfoldable pub handle_proc_done_msg : ℕ → Option GoError → Ui → Ui
unfolding note_done
handle_proc_done_msg k e m = note_done (any (has_id k) m.processes) k e m

-- `if p.cancel != nil { p.cancel() }`
abbrev pub fire : Option ℕ → List ℕ → List ℕ
fire none l = l
fire (some k) l = k ∷ l

abbrev pub fire_all : List Process → List ℕ → List ℕ
fire_all [] l = l
fire_all (p ∷ ps) l = fire_all ps (fire p.cancel l)

-- killAllProcs
unfoldable pub kill_all_procs : Ui → Ui
kill_all_procs m = record m { cancelled = fire_all m.processes m.cancelled }

-- After a deletion: the window goes with the last process.
unfoldable pub settle_when : Bool → Ui → Ui
unfolding remove_proc_window update_proc_prompt
settle_when true m = remove_proc_window m
settle_when false m = update_proc_prompt m

unfoldable pub settle_window : Ui → Ui
unfolding rebuild_process_nodes settle_when
settle_window m = settle_when (is_empty m.processes) (rebuild_process_nodes m)

abbrev pub remove_at {ℓ} : {A : Type ℓ} → ℕ → List A → List A
remove_at i [] = []
remove_at zero (x ∷ xs) = xs
remove_at (suc i) (x ∷ xs) = x ∷ remove_at i xs

unfoldable pub delete_found : Option Process → Ui → Option Ui
unfolding settle_window
delete_found none m = none
delete_found (some p) m = some (
    settle_window (record m {
      processes = remove_at m.proc_sel m.processes;
      cancelled = fire p.cancel m.cancelled;
    }))

unfoldable pub delete_unless : Bool → Ui → Option Ui
unfolding delete_found
delete_unless true m = some m
delete_unless false m = delete_found (get_elem? m.processes m.proc_sel) m

-- Key d.
unfoldable pub delete_selected : Ui → Option Ui
unfolding delete_unless
delete_selected m = delete_unless (is_empty m.processes) m

-- Key k.
abbrev pub kill_found : Option Process → Ui → Ui
kill_found none m = m
kill_found (some p) m = record m { cancelled = fire p.cancel m.cancelled }

unfoldable pub kill_selected : Ui → Ui
kill_selected m = kill_found (get_elem? m.processes m.proc_sel) m

abbrev pub unfinished : List Process → List Process
unfinished [] = []
unfinished (p ∷ ps) = if p.done then unfinished ps else p ∷ unfinished ps

-- Key p.
unfoldable pub purge_finished : Ui → Ui
unfolding settle_window
purge_finished m = settle_window (record m { processes = unfinished m.processes })

-- Key D.
unfoldable pub delete_all : Ui → Ui
unfolding remove_proc_window
delete_all m =
    remove_proc_window (record m { processes = []; cancelled = fire_all m.processes m.cancelled })

abbrev pub collapse_at : ℕ → List Window → List Window
collapse_at i [] = []
collapse_at zero (w ∷ ws) = record w { collapsed = not w.collapsed } ∷ ws
collapse_at (suc i) (w ∷ ws) = w ∷ collapse_at i ws

-- The keys of the process window. Enter only writes the transcript.
pub data Key : Type 0 where
  up down enter space esc tab shift_tab : Key
  key_d key_k key_p key_capital_d slash ctrl_c other : Key

unfoldable pub select_when : Bool → ℕ → Ui → Ui
unfolding update_proc_prompt
select_when false i m = m
select_when true i m = update_proc_prompt (record m { proc_sel = i })

unfoldable pub select_up : Ui → Ui
unfolding select_when
select_up m = select_when (not (is_empty m.processes) && ltb 0 m.proc_sel) (m.proc_sel - 1) m

unfoldable pub select_down : Ui → Ui
unfolding select_when
select_down m = select_when (ltb (m.proc_sel + 1) (length m.processes)) (m.proc_sel + 1) m

abbrev pub toggle_window : Option ℕ → Ui → Ui
toggle_window none m = m
toggle_window (some i) m = record m {
  windows = collapse_at i m.windows;
  panicked = m.panicked || not (ltb i (length m.windows));
}

unfoldable pub toggle_collapsed : Ui → Ui
toggle_collapsed m = toggle_window m.proc_win_idx m

-- handleKeyProcessPane
unfoldable pub handle_key_process_pane : Key → Ui → Option Ui
unfolding select_up select_down toggle_collapsed exit_process_view cycle_focus delete_selected
    kill_selected purge_finished delete_all
handle_key_process_pane up m = some (select_up m)
handle_key_process_pane down m = some (select_down m)
handle_key_process_pane enter m = some m
handle_key_process_pane space m = some (toggle_collapsed m)
handle_key_process_pane esc m = some (record (exit_process_view m) { focus = 0 })
handle_key_process_pane tab m = some (cycle_focus true m)
handle_key_process_pane shift_tab m = some (cycle_focus false m)
handle_key_process_pane key_d m = delete_selected m
handle_key_process_pane key_k m = some (kill_selected m)
handle_key_process_pane key_p m = some (purge_finished m)
handle_key_process_pane key_capital_d m = some (delete_all m)
handle_key_process_pane slash m = some m
handle_key_process_pane ctrl_c m = some m
handle_key_process_pane other m = some m
