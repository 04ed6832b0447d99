-- ===== src/Tui/Contexts/Idle.antt =====
-- The keys lose no context.
use xmc.Prelude.{
  Option, ℕ, zero, suc, Bool, true, false, ◌||◌, none, some, List, [], ◌∷◌, ◌++◌, ◌≡◌, refl, Text,
  codes, has_prefix, trim_space, is_empty, if◌then◌else◌,
}
use mathlib.Core.Option.{}
use mathlib.Core.Path.{}
use xmc.Errors.{}
use xmc.Tui.{Window, on_proc, Mode, mode_ai, mode_cmd, Ui}
use xmc.Tui.Prompt.{cycle_focus, toggle_input_mode}
use xmc.Tui.Processes.{
  Key, up, down, enter, space, esc, tab, shift_tab, key_d, key_k, key_p, key_capital_d, slash,
  ctrl_c, other, start_background_process,
}
use xmc.Tui.Processes.Names.{command_has_for}
use xmc.Tui.Events.{
  handle_slash_command, run_command, run_line, refused_line, submit, tab_chat, handle_key_chat,
  take_name, handle_key_pane, is_shift_tab, handle_key_focused, handle_key_idle, handle_key_filter,
  unless_filtering,
}
use xmc.Tui.Contexts.{}
use xmc.Tui.Contexts.Same.{cycle-Same, history_prev-Same, history_next-Same}
use xmc.Tui.Contexts.Steps.{}
use xmc.Tui.Contexts.Carried.{
  Carries, CarriesIf, Carries-trans, Same-Carries, SameIf-CarriesIf, start-Carries,
  kill_all-Carries, process_pane-Carries,
}

module _ (fin : ℕ → Bool) where
  if-Carries :
      (b : Bool) (m n o : Ui)
      → Carries fin m n
      → Carries fin m o
      → Carries fin m (if b then n else o)
  if-Carries true m n o h k = h
  if-Carries false m n o h k = k

  pub unchanged :
      (m n : Ui) → n.processes ≡ m.processes → n.cancelled ≡ m.cancelled → Carries fin m n
  unchanged m n e e₁ = Same-Carries fin m n (e, e₁)

  run_command-Carries : (line : Text) (m : Ui) → Carries fin m (run_command line m)
  unfolding run_command
  run_command-Carries line m =
      if-Carries _ m _ _ (kill_all-Carries fin m)
        (if-Carries (command_has_for line) m _ _ started (unchanged m _ refl refl))
    where
      logged : Ui
      logged = record m { cmd_history = m.cmd_history ++ line ∷ [] }

      started : Carries fin m (start_background_process line logged)
      started =
          Carries-trans fin m logged _ (unchanged m logged refl refl)
            (start-Carries fin line logged)

  run_line-Carries : (mode : Mode) (line : Text) (m : Ui) → Carries fin m (run_line mode line m)
  unfolding run_line
  run_line-Carries mode_ai line m = unchanged m _ refl refl
  run_line-Carries mode_cmd line m = run_command-Carries line m

  submit-Carries : (line : Text) (m : Ui) → Carries fin m (submit line m)
  unfolding submit handle_slash_command
  submit-Carries line m =
      if-Carries (is_empty line || refused_line m.mode line) m _ _ (unchanged m m refl refl) (
        if-Carries (has_prefix line (codes "/")) m _ _
          (if-Carries _ m _ _ (after _ (kill_all-Carries fin cleared))
            (after _ (unchanged cleared cleared refl refl)))
          (after _ (run_line-Carries m.mode line cleared)))
    where
      cleared : Ui
      cleared = record m { input = []; hist_idx = none }

      after : (n : Ui) → Carries fin cleared n → Carries fin m n
      after n = Carries-trans fin m cleared n (unchanged m cleared refl refl)

  module _ (edit : Text → Key → Text) (complete : Text → Text)
      (selected : List Window → ℕ → Text) where
    tab-Carries : (mode : Mode) (m : Ui) → Carries fin m (tab_chat edit complete selected mode m)
    unfolding tab_chat
    tab-Carries mode_ai m = Same-Carries fin m _ (cycle-Same true m)
    tab-Carries mode_cmd m = unchanged m _ refl refl

    chat-Carries :
        (key : Key) (m : Ui) → CarriesIf fin m (handle_key_chat edit complete selected key m)
    unfolding handle_key_chat toggle_input_mode
    chat-Carries esc m = unchanged m _ refl refl
    chat-Carries tab m = tab-Carries m.mode m
    chat-Carries up m = SameIf-CarriesIf fin m _ (history_prev-Same m)
    chat-Carries down m = SameIf-CarriesIf fin m _ (history_next-Same m)
    chat-Carries enter m = submit-Carries (trim_space m.input) m
    chat-Carries slash m = unchanged m _ refl refl
    chat-Carries ctrl_c m = kill_all-Carries fin m
    chat-Carries space m = unchanged m _ refl refl
    chat-Carries shift_tab m = unchanged m _ refl refl
    chat-Carries key_d m = unchanged m _ refl refl
    chat-Carries key_k m = unchanged m _ refl refl
    chat-Carries key_p m = unchanged m _ refl refl
    chat-Carries key_capital_d m = unchanged m _ refl refl
    chat-Carries other m = unchanged m _ refl refl

    taken-Carries : (name : Text) (m : Ui) → Carries fin m (take_name name m)
    taken-Carries [] m = unchanged m m refl refl
    taken-Carries (c ∷ name) m = unchanged m _ refl refl

    pane-Carries :
        (i : ℕ) (key : Key) (m : Ui)
        → Carries fin m (handle_key_pane edit complete selected i key m)
    unfolding handle_key_pane
    pane-Carries i esc m = unchanged m _ refl refl
    pane-Carries i enter m = taken-Carries (selected m.windows i) m
    pane-Carries i space m = unchanged m _ refl refl
    pane-Carries i tab m = Same-Carries fin m _ (cycle-Same true m)
    pane-Carries i up m = unchanged m m refl refl
    pane-Carries i down m = unchanged m m refl refl
    pane-Carries i shift_tab m = unchanged m m refl refl
    pane-Carries i key_d m = unchanged m m refl refl
    pane-Carries i key_k m = unchanged m m refl refl
    pane-Carries i key_p m = unchanged m m refl refl
    pane-Carries i key_capital_d m = unchanged m m refl refl
    pane-Carries i slash m = unchanged m _ refl refl
    pane-Carries i ctrl_c m = unchanged m m refl refl
    pane-Carries i other m = unchanged m m refl refl

    filter-Carries : (key : Key) (m : Ui) → Carries fin m (handle_key_filter key m)
    unfolding handle_key_filter
    filter-Carries esc m = unchanged m _ refl refl
    filter-Carries enter m = unchanged m _ refl refl
    filter-Carries up m = unchanged m _ refl refl
    filter-Carries down m = unchanged m _ refl refl
    filter-Carries space m = unchanged m _ refl refl
    filter-Carries tab m = unchanged m _ refl refl
    filter-Carries shift_tab m = unchanged m _ refl refl
    filter-Carries key_d m = unchanged m _ refl refl
    filter-Carries key_k m = unchanged m _ refl refl
    filter-Carries key_p m = unchanged m _ refl refl
    filter-Carries key_capital_d m = unchanged m _ refl refl
    filter-Carries slash m = unchanged m _ refl refl
    filter-Carries ctrl_c m = unchanged m _ refl refl
    filter-Carries other m = unchanged m _ refl refl

    unless_filtering-Carries :
        (b : Bool) (key : Key) (m : Ui) (o : Option Ui)
        → CarriesIf fin m o
        → CarriesIf fin m (unless_filtering b key m o)
    unfolding unless_filtering
    unless_filtering-Carries true key m o c = filter-Carries key m
    unless_filtering-Carries false key m o c = c

    focused-Carries :
        (b : Bool) (f : ℕ) (key : Key) (m : Ui)
        → CarriesIf fin m (handle_key_focused edit complete selected b f key m)
    unfolding handle_key_focused
    focused-Carries true f key m =
        unless_filtering-Carries m.filtering key m _ (process_pane-Carries fin key m)
    focused-Carries false zero key m = chat-Carries key m
    focused-Carries false (suc i) key m =
        unless_filtering-Carries m.filtering key m _ (pane-Carries i key m)

    pub idle-Carries :
        (key : Key) (m : Ui) → CarriesIf fin m (handle_key_idle edit complete selected key m)
    unfolding handle_key_idle
    idle-Carries key m = go (is_shift_tab key)
      where
        go :
            (b : Bool)
            → CarriesIf fin m (
                if b
                then some (cycle_focus false m)
                else handle_key_focused edit complete selected
                    (on_proc m.focus m.windows)
                    m.focus
                    key
                    m)
        go true = Same-Carries fin m _ (cycle-Same false m)
        go false = focused-Carries (on_proc m.focus m.windows) m.focus key m
