-- ===== src/Examples/Interface.antt =====
-- The theorems on the terminal interface at concrete sessions.
use xmc.Prelude.{
  ℕ, true, false, Option, none, some, List, [], ◌∷◌, ◌++◌, ◌≡◌, ◌≤◌, ◌*◌, ◌||◌, ◌==◌, refl, arith,
  Text, codes, is_some, length, any, all, has_prefix,
}
use xmc.Backends.{}
use xmc.Tui.{Window, objects, Ui}
use xmc.Tui.Processes.{Key, key_d, key_k, other, shift_tab, esc, enter, up}
use xmc.Tui.Events.{Event, pressed, cancel_msg, new_ui, updates}
use xmc.Tui.Contexts.{holds, finishes}
use xmc.Tui.Contexts.Delivered.{session-contexts}
use xmc.Tui.Capped.{
  Chunk, new_output, proc_writes, OutputEvent, wrote, viewed, run_output, snapshot_text,
  count_newlines,
}
use xmc.Tui.Capped.Window.{written, shown_bytes, snapshot-writes, buffer-bound}
use xmc.Tui.Capped.Counters.{stderr_bytes, all_written, since_view, counters-run_output}
use xmc.Tui.Listing.{
  Node, node, sidebar_rows, selected_node, selected_top_level_node, index_of_row_named,
  longest_common_prefix,
}
use xmc.Tui.Listing.Rows.{longest_common_prefix_lem}
use xmc.Tui.Listing.Selected.{tree_view-selected}
use xmc.Tui.Commands.{Turn, trim_history, is_user}
use xmc.Tui.Commands.Trimmed.{trim_history_lem, StartsWithUser}
use xmc.Tui.Processes.Names.{}

-- The keys that are no other key type a command that runs in the background.
abbrev edit : Text → Key → Text
edit text key = codes "receive q --for 1h"

abbrev complete : Text → Text
complete text = text

abbrev selected : List Window → ℕ → Text
selected windows i = codes "orders"

abbrev queues : Window
queues = record { kind = objects; label = codes "Queues"; collapsed = false }

-- A process is started, its context comes, it is shown and deleted.
abbrev events : List Event
events =
    pressed esc
    ∷ pressed other
    ∷ pressed enter
    ∷ pressed up
    ∷ cancel_msg 0
    ∷ pressed shift_tab
    ∷ pressed key_k
    ∷ pressed key_d
    ∷ []

value_of : (o : Option Ui) → is_some o ≡ true → (m : Ui) × (o ≡ some m)
value_of none h = cc
value_of (some m) h = (m, refl)

-- The state that these events lead to.
abbrev ended :
    (m : Ui) × (updates edit complete selected events (new_ui (queues ∷ []) [] []) ≡ some m)
unfolding updates value_of
ended = value_of (updates edit complete selected events (new_ui (queues ∷ []) [] [])) refl

deleted : (ended.0.processes ≡ []) × (ended.0.cancelled ≡ 0 ∷ 0 ∷ [])
unfolding ended
deleted = (refl, refl)

session-contexts_example :
    (any (holds 0) ended.0.processes
      || any (λ i. i == 0) ended.0.cancelled
      || any (finishes 0) events)
    ≡ true
session-contexts_example =
    session-contexts edit complete selected (queues ∷ []) [] [] events ended.0 0 ended.1 refl

abbrev chunks : List Chunk
chunks =
    record { stderr = false; bytes = codes "one\n" }
    ∷ record { stderr = true; bytes = codes "two\n" }
    ∷ []

snapshot-writes_example :
    snapshot_text (proc_writes chunks (new_output 3)) ≡ shown_bytes 3 (written chunks)
snapshot-writes_example = snapshot-writes chunks 3

shown : shown_bytes 3 (written chunks) ≡ codes "wo\n"
shown = refl

buffer-bound_example : length (proc_writes chunks (new_output 3)).out.buf ≤ 2 * 3
buffer-bound_example = buffer-bound chunks 3 (omega arith)

abbrev output_events : List OutputEvent
output_events =
    wrote (record { stderr = true; bytes = codes "oops\n" })
    ∷ viewed
    ∷ wrote (record { stderr = false; bytes = codes "fine\n" })
    ∷ []

counters-run_output_example :
    ((run_output output_events (new_output 3)).lines ≡ count_newlines (all_written output_events))
    × ((run_output output_events (new_output 3)).stderr_seen
        ≡ any stderr_bytes (since_view [] output_events))
counters-run_output_example = counters-run_output output_events 3

longest_common_prefix_lem_example :
    has_prefix (longest_common_prefix (codes "receive" ∷ codes "reply" ∷ [])) (codes "re")
    ≡ all (λ d. has_prefix d (codes "re")) (codes "receive" ∷ codes "reply" ∷ [])
longest_common_prefix_lem_example =
    longest_common_prefix_lem (codes "receive") (codes "reply" ∷ []) (codes "re")

abbrev objects_shown : List Node
objects_shown = node (codes "a") (codes "a1" ∷ []) ∷ node (codes "b") [] ∷ []

tree_view-selected_example :
    selected_node
      (sidebar_rows false objects_shown)
      (index_of_row_named (sidebar_rows false objects_shown) (codes "b"))
    ≡ some (node (codes "b") [])
unfolding selected_top_level_node sidebar_rows
tree_view-selected_example =
    tree_view-selected true false objects_shown 2 98 [] [] refl
      (((λ e. cc), (refl, tt)), (((λ e. refl), tt), tt)) refl

-- A child of an earlier node that has the name is selected in its place.
child_selected :
    selected_node
      (sidebar_rows true
        (node (codes "a") (codes "b" ∷ []) ∷ node (codes "b") (codes "c" ∷ []) ∷ []))
      (index_of_row_named
        (sidebar_rows true
          (node (codes "a") (codes "b" ∷ []) ∷ node (codes "b") (codes "c" ∷ []) ∷ []))
        (codes "b"))
    ≡ some (node (codes "b") [])
unfolding selected_node sidebar_rows index_of_row_named
child_selected = refl

abbrev user : Turn
user = record { role = codes "user"; content = codes "peek q" }

abbrev assistant : Turn
assistant = record { role = codes "assistant"; content = codes "peek q" }

abbrev turns : List Turn
turns = user ∷ assistant ∷ user ∷ assistant ∷ []

trim_history_lem_example :
    (old skipped : List Turn) × (turns ≡ old ++ (skipped ++ trim_history turns 3))
    × (length (skipped ++ trim_history turns 3) ≡ 3)
    × (any is_user skipped ≡ false)
    × StartsWithUser (trim_history turns 3)
trim_history_lem_example = trim_history_lem turns 3 (omega arith)
