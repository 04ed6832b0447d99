-- ===== src/Tui/Events.antt =====
-- The events of the terminal interface while it is idle, with no prompt open and no command proposed
-- or run: handleKeyIdle, the focus and the prompt in handleKeyPane and handleKeyFilter
-- (cmd/aikeys.go), Update with the messages of the background processes and the initial state
-- (cmd/aitui.go). A command that runs in the foreground, a question to the model, a slash command
-- other than /exit leave the state that is modelled as it is. The editing of the textarea, the
-- completer and the name that is selected in a window of objects are parameters.
use xmc.Prelude.{
  ℕ, zero, suc, Bool, true, false, not, ◌&&◌, ◌||◌, Option, none, some, List, [], ◌∷◌, ◌++◌, length,
  ltb, Text, codes, text_eq, trim_space, is_space, has_prefix, map, is_empty, if◌then◌else◌,
}
use xmc.Errors.{GoError, to_lower}
use xmc.Tui.{Window, Mode, mode_ai, mode_cmd, Ui, on_proc}
use xmc.Tui.Prompt.{cycle_focus, toggle_input_mode, history_prev, history_next}
use xmc.Tui.Processes.{
  slash, Key, up, down, enter, space, esc, tab, shift_tab, ctrl_c, start_background_process,
  handle_proc_cancel_msg, handle_proc_done_msg, kill_all_procs, collapse_at,
  handle_key_process_pane,
}
use xmc.Tui.Processes.Names.{command_has_for, command_well_formed}

-- newAITUIModel
abbrev pub new_ui : List Window → List Text → List Text → Ui
new_ui windows cmd_history ask_history = record {
  windows = windows;
  focus = 0;
  filtering = false;
  processes = [];
  proc_next_id = 0;
  proc_win_idx = none;
  proc_sel = 0;
  in_proc_view = false;
  mode = mode_ai;
  input = [];
  hist_idx = none;
  hist_draft = [];
  saved_mode = mode_ai;
  saved_input = [];
  saved_hist = none;
  cmd_history = cmd_history;
  ask_history = ask_history;
  cancelled = [];
  panicked = false;
}

-- strings.Fields(s)[0] of a text that does not start with a space
abbrev pub first_field : Text → Text
first_field [] = []
first_field (c ∷ s) = if is_space c then [] else c ∷ first_field s

-- handleSlashCommand
unfoldable pub handle_slash_command : Text → Ui → Ui
unfolding to_lower kill_all_procs
handle_slash_command line m =
    if text_eq (map to_lower (first_field line)) (codes "/exit") then kill_all_procs m else m

-- A command line in command mode.
unfoldable pub run_command : Text → Ui → Ui
unfolding start_background_process command_has_for kill_all_procs
run_command line m =
    if text_eq line (codes "exit") || text_eq line (codes "quit")
    then kill_all_procs m
    else if command_has_for line
    then start_background_process line (record m { cmd_history = m.cmd_history ++ line ∷ [] })
    else record m { cmd_history = m.cmd_history ++ line ∷ [] }

unfoldable pub run_line : Mode → Text → Ui → Ui
unfolding run_command
run_line mode_cmd line m = run_command line m
run_line mode_ai line m = record m { ask_history = m.ask_history ++ line ∷ [] }

-- commandWellFormed is asked only for a command.
abbrev pub refused_line : Mode → Text → Bool
unfolding command_well_formed
refused_line mode_ai line = false
refused_line mode_cmd line = not (has_prefix line (codes "/")) && not (command_well_formed line)

-- Enter in the chat.
unfoldable pub submit : Text → Ui → Ui
unfolding handle_slash_command run_line refused_line
submit line m =
    if is_empty line || refused_line m.mode line
    then m
    else if has_prefix line (codes "/")
    then handle_slash_command line (record m { input = []; hist_idx = none })
    else run_line m.mode line (record m { input = []; hist_idx = none })

-- The name that is selected goes into the prompt.
abbrev pub take_name : Text → Ui → Ui
take_name [] m = m
take_name (c ∷ name) m = record m { input = c ∷ name; focus = 0 }

abbrev pub is_shift_tab : Key → Bool
is_shift_tab shift_tab = true
is_shift_tab key = false

-- The messages of Update that change this state. A process is known by its id.
pub data Event : Type 0 where
  pressed : Key → Event
  cancel_msg : ℕ → Event
  done_msg : ℕ → Option GoError → Event

-- handleKeyFilter; the text of the filter is not part of this state.
unfoldable pub handle_key_filter : Key → Ui → Ui
handle_key_filter esc m = record m { filtering = false }
handle_key_filter enter m = record m { filtering = false }
handle_key_filter key m = m

-- A pane's keys go to the filter while it is typed.
unfoldable pub unless_filtering : Bool → Key → Ui → Option Ui → Option Ui
unfolding handle_key_filter
unless_filtering true key m handled = some (handle_key_filter key m)
unless_filtering false key m handled = handled

module _ (edit : Text → Key → Text) (complete : Text → Text)
    (selected : List Window → ℕ → Text) where
  -- Tab in the chat completes a command or moves the focus.
  unfoldable pub tab_chat : Mode → Ui → Ui
  unfolding cycle_focus
  tab_chat mode_cmd m = record m { input = complete m.input }
  tab_chat mode_ai m = cycle_focus true m

  -- The keys while the chat has the focus. That Ctrl-C and /exit quit is not part of this state.
  unfoldable pub handle_key_chat : Key → Ui → Option Ui
  unfolding toggle_input_mode tab_chat history_prev history_next submit
  handle_key_chat esc m = some (toggle_input_mode m)
  handle_key_chat tab m = some (tab_chat m.mode m)
  handle_key_chat up m = history_prev m
  handle_key_chat down m = history_next m
  handle_key_chat enter m = some (submit (trim_space m.input) m)
  handle_key_chat ctrl_c m = some (kill_all_procs m)
  handle_key_chat key m = some (record m { input = edit m.input key })

  -- handleKeyPane without the keys that open a prompt or an action (c, d, p, m, P, S and R), of
  -- which this state has nothing.
  unfoldable pub handle_key_pane : ℕ → Key → Ui → Ui
  unfolding cycle_focus
  handle_key_pane i esc m = record m { focus = 0 }
  handle_key_pane i enter m = take_name (selected m.windows i) m
  handle_key_pane i space m = record m {
    windows = collapse_at i m.windows;
    panicked = m.panicked || not (ltb i (length m.windows));
  }
  handle_key_pane i tab m = cycle_focus true m
  handle_key_pane i slash m = record m { filtering = true }
  handle_key_pane i key m = m

  -- The handler of the part that has the focus, given whether that is the process window.
  unfoldable pub handle_key_focused : Bool → ℕ → Key → Ui → Option Ui
  unfolding handle_key_chat handle_key_pane handle_key_process_pane unless_filtering
  handle_key_focused true f key m =
      unless_filtering m.filtering key m (handle_key_process_pane key m)
  handle_key_focused false zero key m = handle_key_chat key m
  handle_key_focused false (suc i) key m =
      unless_filtering m.filtering key m (some (handle_key_pane i key m))

  -- handleKeyIdle: handleKey while no prompt is open and no command is proposed or run.
  unfoldable pub handle_key_idle : Key → Ui → Option Ui
  unfolding handle_key_focused cycle_focus
  handle_key_idle key m =
      if is_shift_tab key
      then some (cycle_focus false m)
      else handle_key_focused (on_proc m.focus m.windows) m.focus key m

  -- Update while the interface is idle. A process that an accepted or edited proposal starts is not
  -- among the events.
  unfoldable pub update : Event → Ui → Option Ui
  unfolding handle_key_idle handle_proc_cancel_msg handle_proc_done_msg
  update (pressed key) m = handle_key_idle key m
  update (cancel_msg i) m = some (handle_proc_cancel_msg i m)
  update (done_msg i e) m = some (handle_proc_done_msg i e m)

  unfoldable pub updates : List Event → Ui → Option Ui
  unfolding update
  updates [] m = some m
  updates (e ∷ es) m = elim (update e m) [ none ↦ none | some next ↦ updates es next ]
