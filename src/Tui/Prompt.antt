-- ===== src/Tui/Prompt.antt =====
-- The prompt of the terminal interface: cycleFocus, toggleInputMode, historyPrev, historyNext and
-- activeHistory of cmd/aikeys.go, enterProcessView, exitProcessView and updateProcPrompt of
-- cmd/aiproc.go. `none` is an index out of range, which panics.
use xmc.Prelude.{
  ℕ, zero, suc, ◌+◌, ◌-◌, ◌%◌, Bool, true, false, not, ◌||◌, Option, none, some, List, [], ◌∷◌,
  Text, length, get_elem?, leb, ltb, is_empty, if◌then◌else◌,
}
use xmc.Tui.{Mode, mode_ai, mode_cmd, Process, Ui, on_proc}

-- updateProcPrompt; the selection is in range after the clamp.
abbrev pub clamp_sel : ℕ → ℕ → ℕ
clamp_sel sel n = if leb n sel then n - 1 else sel

abbrev pub command_at : List Process → ℕ → Text → Text
command_at [] i old = old
command_at (p ∷ ps) zero old = p.command
command_at (p ∷ ps) (suc i) old = command_at ps i old

abbrev pub is_absent : Option ℕ → Bool
is_absent none = true
is_absent (some i) = false

unfoldable pub prompt_unless : Bool → Ui → Ui
prompt_unless true m = m
prompt_unless false m = record m {
  proc_sel = clamp_sel m.proc_sel (length m.processes);
  input = command_at m.processes (clamp_sel m.proc_sel (length m.processes)) m.input;
  panicked =
      m.panicked || not (ltb (clamp_sel m.proc_sel (length m.processes)) (length m.processes));
}

unfoldable pub update_proc_prompt : Ui → Ui
unfolding prompt_unless
update_proc_prompt m =
    prompt_unless (not m.in_proc_view || is_absent m.proc_win_idx || is_empty m.processes) m

-- The functions that follow are given the value of their test.
unfoldable pub enter_unless : Bool → Ui → Ui
unfolding update_proc_prompt
enter_unless true m = m
enter_unless false m = update_proc_prompt (record m {
  in_proc_view = true;
  saved_mode = m.mode;
  saved_input = m.input;
  saved_hist = m.hist_idx;
})

-- enterProcessView
unfoldable pub enter_process_view : Ui → Ui
unfolding enter_unless
enter_process_view m = enter_unless m.in_proc_view m

unfoldable pub exit_when : Bool → Ui → Ui
exit_when false m = m
exit_when true m = record m {
  in_proc_view = false;
  mode = m.saved_mode;
  input = m.saved_input;
  hist_idx = m.saved_hist;
}

-- exitProcessView
unfoldable pub exit_process_view : Ui → Ui
unfolding exit_when
exit_process_view m = exit_when m.in_proc_view m

-- The next focus of cycleFocus among `n` targets.
unfoldable pub next_focus : Bool → ℕ → ℕ → ℕ
next_focus true cur n = (cur + 1) % n
next_focus false cur n = (cur + n - 1) % n

-- What cycleFocus does on leaving the process window and on arriving there.
unfoldable pub leave_when : Bool → Ui → Ui
unfolding exit_process_view
leave_when true m = exit_process_view m
leave_when false m = m

unfoldable pub arrive_when : Bool → Ui → Ui
unfolding enter_process_view
arrive_when true m = enter_process_view m
arrive_when false m = m

unfoldable pub arrive_pane : Ui → Ui
unfolding arrive_when
arrive_pane m = arrive_when (on_proc m.focus m.windows) m

unfoldable pub cycle_unless : Bool → Bool → Ui → Ui
unfolding next_focus leave_when arrive_pane
cycle_unless true forward m = m
cycle_unless false forward m = arrive_pane (
    leave_when (on_proc m.focus m.windows)
      (record m { focus = next_focus forward m.focus (length m.windows + 1) }))

unfoldable pub cycle_focus : Bool → Ui → Ui
unfolding cycle_unless
cycle_focus forward m = cycle_unless (leb (length m.windows + 1) 1) forward m

unfoldable pub toggle_input_mode : Ui → Ui
toggle_input_mode m = record m {
  hist_idx = none;
  mode = elim m.mode [ mode_ai ↦ mode_cmd | mode_cmd ↦ mode_ai ];
}

abbrev pub history_of : Mode → List Text → List Text → List Text
history_of mode_ai cmd ask = ask
history_of mode_cmd cmd ask = cmd

abbrev pub active_history : Ui → List Text
active_history m = history_of m.mode m.cmd_history m.ask_history

-- `m.input.SetValue(hist[i])`
abbrev pub recall : Option Text → ℕ → Ui → Option Ui
recall none i m = none
recall (some entry) i m = some (record m { hist_idx = some i; input = entry })

-- The two branches on histIdx of historyPrev, for a history that is not empty.
unfoldable pub step_back : List Text → Option ℕ → Ui → Option Ui
step_back hist none m =
    recall (get_elem? hist (length hist - 1)) (length hist - 1) (record m { hist_draft = m.input })
step_back hist (some i) m = recall (get_elem? hist (i - 1)) (i - 1) m

unfoldable pub history_prev : Ui → Option Ui
unfolding step_back
history_prev m =
    if is_empty (active_history m) then some m else step_back (active_history m) m.hist_idx m

unfoldable pub step_forward : List Text → Option ℕ → Ui → Option Ui
step_forward hist none m = some m
step_forward hist (some i) m =
    if ltb (i + 1) (length hist)
    then recall (get_elem? hist (i + 1)) (i + 1) m
    else some (record m { hist_idx = none; input = m.hist_draft })

unfoldable pub history_next : Ui → Option Ui
unfolding step_forward
history_next m = step_forward (active_history m) m.hist_idx m
