-- ===== src/Tui/Contexts/Same.antt =====
-- The operations that leave the processes and the cancelled contexts as they are.
use xmc.Prelude.{
  ℕ, ◌+◌, Bool, true, false, not, ◌||◌, ◌==◌, Option, none, some, ◌≡◌, refl, ◌∙◌, Text, length,
  get_elem?, is_empty, leb, ltb, if◌then◌else◌,
}
use xmc.Tui.{on_proc, Ui}
use xmc.Tui.Prompt.{
  is_absent, prompt_unless, update_proc_prompt, enter_unless, enter_process_view, exit_when,
  exit_process_view, next_focus, leave_when, arrive_when, arrive_pane, cycle_unless, cycle_focus,
  active_history, recall, step_back, history_prev, step_forward, history_next,
}
use xmc.Tui.Processes.{
  ensure_window, ensure_proc_window, leave_window, remove_window, remove_proc_window,
  rebuild_process_nodes, settle_when, settle_window, select_when, toggle_window,
}

abbrev pub Same : Ui → Ui → Type 0
Same m n = (n.processes ≡ m.processes) × (n.cancelled ≡ m.cancelled)

pub Same-trans : (m n o : Ui) → Same m n → Same n o → Same m o
Same-trans m n o h k = (k.0 ∙ h.0, k.1 ∙ h.1)

pub prompt-Same : (m : Ui) → Same m (update_proc_prompt m)
unfolding update_proc_prompt prompt_unless
prompt-Same m = go (not m.in_proc_view || is_absent m.proc_win_idx || is_empty m.processes)
  where
    go : (b : Bool) → Same m (prompt_unless b m)
    go true = (refl, refl)
    go false = (refl, refl)

enter-Same : (m : Ui) → Same m (enter_process_view m)
unfolding enter_process_view enter_unless
enter-Same m = go m.in_proc_view
  where
    go : (b : Bool) → Same m (enter_unless b m)
    go true = (refl, refl)
    go false = prompt-Same (record m {
      in_proc_view = true;
      saved_mode = m.mode;
      saved_input = m.input;
      saved_hist = m.hist_idx;
    })

pub exit-Same : (m : Ui) → Same m (exit_process_view m)
unfolding exit_process_view exit_when
exit-Same m = go m.in_proc_view
  where
    go : (b : Bool) → Same m (exit_when b m)
    go true = (refl, refl)
    go false = (refl, refl)

leave-Same : (b : Bool) (m : Ui) → Same m (leave_when b m)
unfolding leave_when
leave-Same true m = exit-Same m
leave-Same false m = (refl, refl)

arrive-Same : (b : Bool) (m : Ui) → Same m (arrive_when b m)
unfolding arrive_when
arrive-Same true m = enter-Same m
arrive-Same false m = (refl, refl)

pub cycle-Same : (forward : Bool) (m : Ui) → Same m (cycle_focus forward m)
unfolding cycle_focus cycle_unless arrive_pane
cycle-Same forward m = go (leb (length m.windows + 1) 1)
  where
    moved : Ui
    moved = record m { focus = next_focus forward m.focus (length m.windows + 1) }

    left : Ui
    left = leave_when (on_proc m.focus m.windows) moved

    go : (b : Bool) → Same m (cycle_unless b forward m)
    go true = (refl, refl)
    go false =
        Same-trans m left (arrive_pane left) (leave-Same (on_proc m.focus m.windows) moved)
          (arrive-Same (on_proc left.focus left.windows) left)

pub ensure-Same : (m : Ui) → Same m (ensure_proc_window m)
unfolding ensure_proc_window ensure_window
ensure-Same m = go m.proc_win_idx
  where
    go : (o : Option ℕ) → Same m (ensure_window o m)
    go none = (refl, refl)
    go (some i) = (refl, refl)

pub rebuild-Same : (m : Ui) → Same m (rebuild_process_nodes m)
unfolding rebuild_process_nodes
rebuild-Same m = (refl, refl)

left-Same : (b : Bool) (m : Ui) → Same m (leave_window b m)
unfolding leave_window
left-Same false m = (refl, refl)
left-Same true m = exit-Same m

pub remove-Same : (m : Ui) → Same m (remove_proc_window m)
unfolding remove_proc_window remove_window
remove-Same m = go m.proc_win_idx
  where
    go : (o : Option ℕ) → Same m (remove_window o m)
    go none = (refl, refl)
    go (some i) = left-Same (m.focus == i + 1) m

pub settle-Same : (m : Ui) → Same m (settle_window m)
unfolding settle_window settle_when rebuild_process_nodes
settle-Same m = go (is_empty m.processes)
  where
    go : (b : Bool) → Same m (settle_when b (rebuild_process_nodes m))
    go true = remove-Same (rebuild_process_nodes m)
    go false = prompt-Same (rebuild_process_nodes m)

pub select-Same : (b : Bool) (i : ℕ) (m : Ui) → Same m (select_when b i m)
unfolding select_when
select-Same true i m = prompt-Same (record m { proc_sel = i })
select-Same false i m = (refl, refl)

pub toggle-Same : (o : Option ℕ) (m : Ui) → Same m (toggle_window o m)
toggle-Same none m = (refl, refl)
toggle-Same (some i) m = (refl, refl)

-- A handler that returns leaves them as they are.
abbrev pub SameIf : Ui → Option Ui → Type 0
SameIf m none = Unit
SameIf m (some n) = Same m n

recall-Same : (o : Option Text) (i : ℕ) (m : Ui) → SameIf m (recall o i m)
recall-Same none i m = tt
recall-Same (some text) i m = (refl, refl)

pub history_prev-Same : (m : Ui) → SameIf m (history_prev m)
unfolding history_prev step_back
history_prev-Same m = go (is_empty (active_history m))
  where
    back : (o : Option ℕ) → SameIf m (step_back (active_history m) o m)
    back none = recall-Same _ _ (record m { hist_draft = m.input })
    back (some i) = recall-Same _ _ m

    go : (b : Bool) → SameIf m (if b then some m else step_back (active_history m) m.hist_idx m)
    go true = (refl, refl)
    go false = back m.hist_idx

pub history_next-Same : (m : Ui) → SameIf m (history_next m)
unfolding history_next step_forward
history_next-Same m = go m.hist_idx
  where
    next :
        (i : ℕ) (b : Bool)
        → SameIf m (
            if b
            then recall (get_elem? (active_history m) (i + 1)) (i + 1) m
            else some (record m { hist_idx = none; input = m.hist_draft }))
    next i true = recall-Same _ _ m
    next i false = (refl, refl)

    go : (o : Option ℕ) → SameIf m (step_forward (active_history m) o m)
    go none = (refl, refl)
    go (some i) = next i (ltb (i + 1) (length (active_history m)))
