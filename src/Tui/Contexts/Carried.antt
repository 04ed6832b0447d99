-- ===== src/Tui/Contexts/Carried.antt =====
-- The commands and keys of the processes lose no context.
use xmc.Prelude.{
  ℕ, ◌+◌, ◌-◌, Bool, true, false, Option, none, some, [], ◌∷◌, ◌++◌, ◌≡◌, refl, sym, arith, Text,
  get_elem?, is_empty, any, All-append,
}
use mathlib.Core.Option.{}
use mathlib.Core.Path.{subst}
use xmc.Errors.{GoError}
use xmc.Tui.{Process, Ui}
use xmc.Tui.Prompt.{}
use xmc.Tui.Processes.{
  Key, up, down, enter, space, esc, tab, shift_tab, key_d, key_k, key_p, key_capital_d, slash,
  ctrl_c, other, has_id, fire, fire_all, remove_at, unfinished, rebuild_process_nodes,
  start_background_process, keep_cancel, handle_proc_cancel_msg, note_done, handle_proc_done_msg,
  kill_all_procs, delete_found, delete_unless, delete_selected, kill_found, kill_selected,
  purge_finished, delete_all, select_up, select_down, toggle_collapsed, handle_key_process_pane,
}
use xmc.Tui.Processes.Names.{process_name}
use xmc.Tui.Events.{}
use xmc.Tui.Contexts.{holds, FinKnown, AllFinKnown, accounted}
use xmc.Tui.Contexts.Same.{
  Same, SameIf, exit-Same, cycle-Same, ensure-Same, remove-Same, settle-Same, select-Same,
  toggle-Same,
}
use xmc.Tui.Contexts.Steps.{
  any-append, holds-store, holds-finish, in_fired, holds-remove_at, fire_all-accounted,
  holds-unfinished, known-store, known-finish, known-remove_at, known-unfinished,
}

module _ (fin : ℕ → Bool) where
  -- Every context that was accounted for still is.
  pub record Carries (m n : Ui) : Type 0 where
    pub known : AllFinKnown fin m.processes → AllFinKnown fin n.processes
    pub kept :
        (k : ℕ)
        → AllFinKnown fin m.processes
        → accounted fin k m.processes m.cancelled ≡ true
        → accounted fin k n.processes n.cancelled ≡ true

  pub Same-Carries : (m n : Ui) → Same m n → Carries m n
  Same-Carries m n s = record {
    known = λ d. subst (AllFinKnown fin) (sym s.0) d;
    kept = λ k d a. rw (s.0, s.1) a;
  }

  pub Carries-trans : (m n o : Ui) → Carries m n → Carries n o → Carries m o
  Carries-trans m n o h g = record {
    known = λ d. g.known (h.known d);
    kept = λ k d a. g.kept k (h.known d) (h.kept k d a);
  }

  pub start-Carries : (line : Text) (m : Ui) → Carries m (start_background_process line m)
  unfolding start_background_process rebuild_process_nodes
  start-Carries line m = Carries-trans m added _ adds (Same-Carries added _ (ensure-Same added))
    where
      p : Process
      p = record {
        id = m.proc_next_id;
        name = process_name line;
        command = line;
        cancel = none;
        done = false;
        error = none;
      }

      added : Ui
      added = record m { processes = m.processes ++ p ∷ []; proc_next_id = m.proc_next_id + 1 }

      adds : Carries m added
      adds = record {
        known = λ d. All-append (FinKnown fin) m.processes (p ∷ []) d (λ e. cc, tt);
        kept = λ k d a. ground (arith, a, any-append (holds k) m.processes (p ∷ []));
      }

  fired-Carries : (m : Ui) (o : Option ℕ) → Carries m (record m { cancelled = fire o m.cancelled })
  fired-Carries m o = record {
    known = λ d. d;
    kept = λ k d a. ground (arith, a, in_fired k o m.cancelled);
  }

  pub kill_all-Carries : (m : Ui) → Carries m (kill_all_procs m)
  unfolding kill_all_procs
  kill_all-Carries m = record {
    known = λ d. d;
    kept = λ k d a. ground (arith, fire_all-accounted k m.processes m.cancelled (fin k) a);
  }

  pub cancel-Carries : (i : ℕ) (m : Ui) → Carries m (handle_proc_cancel_msg i m)
  unfolding handle_proc_cancel_msg keep_cancel
  cancel-Carries i m = go (any (has_id i) m.processes)
    where
      go : (b : Bool) → Carries m (keep_cancel b i m)
      go true = record {
        known = known-store fin i m.processes;
        kept = λ k d a. ground (arith, a, holds-store k i m.processes);
      }
      go false = fired-Carries m (some i)

  pub done-Carries :
      (i : ℕ) (e : Option GoError) (m : Ui) → fin i ≡ true → Carries m (handle_proc_done_msg i e m)
  unfolding handle_proc_done_msg note_done rebuild_process_nodes
  done-Carries i e m f = go (any (has_id i) m.processes)
    where
      go : (b : Bool) → Carries m (note_done b i e m)
      go false = Same-Carries m m (refl, refl)
      go true = record {
        known = known-finish fin i e m.processes f;
        kept = λ k d a. ground (arith, a, holds-finish k i e m.processes);
      }

  delete_all-Carries : (m : Ui) → Carries m (delete_all m)
  unfolding delete_all
  delete_all-Carries m =
      Carries-trans m emptied _ empties (Same-Carries emptied _ (remove-Same emptied))
    where
      emptied : Ui
      emptied = record m { processes = []; cancelled = fire_all m.processes m.cancelled }

      empties : Carries m emptied
      empties = record {
        known = λ d. tt;
        kept = λ k d a. fire_all-accounted k m.processes m.cancelled (fin k) a;
      }

  purge-Carries : (m : Ui) → Carries m (purge_finished m)
  unfolding purge_finished
  purge-Carries m = Carries-trans m purged _ purges (Same-Carries purged _ (settle-Same purged))
    where
      purged : Ui
      purged = record m { processes = unfinished m.processes }

      purges : Carries m purged
      purges = record {
        known = known-unfinished fin m.processes;
        kept = λ k d a. ground (arith, a, holds-unfinished fin k m.processes d);
      }

  kill-Carries : (m : Ui) → Carries m (kill_selected m)
  unfolding kill_selected
  kill-Carries m = go (get_elem? m.processes m.proc_sel)
    where
      go : (o : Option Process) → Carries m (kill_found o m)
      go none = Same-Carries m m (refl, refl)
      go (some q) = fired-Carries m q.cancel

  -- A handler that returns carries the contexts on.
  abbrev pub CarriesIf : Ui → Option Ui → Type 0
  CarriesIf m none = Unit
  CarriesIf m (some n) = Carries m n

  pub SameIf-CarriesIf : (m : Ui) (o : Option Ui) → SameIf m o → CarriesIf m o
  SameIf-CarriesIf m none s = tt
  SameIf-CarriesIf m (some n) s = Same-Carries m n s

  delete-Carries : (m : Ui) → CarriesIf m (delete_selected m)
  unfolding delete_selected delete_unless delete_found
  delete-Carries m = go (is_empty m.processes)
    where
      deletes :
          (q : Process)
          → get_elem? m.processes m.proc_sel ≡ some q
          → Carries m (record m {
            processes = remove_at m.proc_sel m.processes;
            cancelled = fire q.cancel m.cancelled;
          })
      deletes q e = record {
        known = known-remove_at fin m.proc_sel m.processes;
        kept = λ k d a. ground (
          arith,
          a,
          holds-remove_at k m.proc_sel q m.processes e,
          in_fired k q.cancel m.cancelled,
        );
      }

      found :
          (o : Option Process)
          → get_elem? m.processes m.proc_sel ≡ o
          → CarriesIf m (delete_found o m)
      found none e = tt
      found (some q) e = Carries-trans m _ _ (deletes q e) (
          Same-Carries _ _ (
            settle-Same (record m {
              processes = remove_at m.proc_sel m.processes;
              cancelled = fire q.cancel m.cancelled;
            })))

      go : (b : Bool) → CarriesIf m (delete_unless b m)
      go true = Same-Carries m m (refl, refl)
      go false = found (get_elem? m.processes m.proc_sel) refl

  pub process_pane-Carries : (key : Key) (m : Ui) → CarriesIf m (handle_key_process_pane key m)
  unfolding handle_key_process_pane toggle_collapsed select_up select_down
  process_pane-Carries up m = Same-Carries m _ (select-Same _ (m.proc_sel - 1) m)
  process_pane-Carries down m = Same-Carries m _ (select-Same _ (m.proc_sel + 1) m)
  process_pane-Carries enter m = Same-Carries m m (refl, refl)
  process_pane-Carries space m = Same-Carries m _ (toggle-Same m.proc_win_idx m)
  process_pane-Carries esc m = Same-Carries m _ (exit-Same m)
  process_pane-Carries tab m = Same-Carries m _ (cycle-Same true m)
  process_pane-Carries shift_tab m = Same-Carries m _ (cycle-Same false m)
  process_pane-Carries key_d m = delete-Carries m
  process_pane-Carries key_k m = kill-Carries m
  process_pane-Carries key_p m = purge-Carries m
  process_pane-Carries key_capital_d m = delete_all-Carries m
  process_pane-Carries slash m = Same-Carries m m (refl, refl)
  process_pane-Carries ctrl_c m = Same-Carries m m (refl, refl)
  process_pane-Carries other m = Same-Carries m m (refl, refl)
