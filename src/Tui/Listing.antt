-- ===== src/Tui/Listing.antt =====
-- The lists that the terminal interface shows: computeWindow and clampInt of cmd/aituisidebar.go,
-- sidebarRows, indexOfRowNamed, moveSel and the functions of the selected row of cmd/aikeys.go,
-- copyIdxForLine, longestCommonPrefix there. Which nodes are shown and in which order
-- (getFilteredSortedNodes, which calls sort.Slice) is an argument.
pub mod Rows
pub mod Selected
use xmc.Prelude.{
  ℕ, zero, suc, ◌+◌, ◌-◌, ◌*◌, ◌/◌, Bool, true, false, not, ◌&&◌, ◌||◌, ◌==◌, Option, none, some,
  List, [], ◌∷◌, ◌++◌, Text, text_eq, length, get_elem?, take, ltb, leb, is_empty, if◌then◌else◌,
}

-- computeWindow; `selected - visible/2` below 0 is set to 0 next.
unfoldable pub compute_window : ℕ → ℕ → ℕ → ℕ × ℕ
compute_window total selected visible =
    if leb total visible
    then (0, total)
    else if ltb total (selected - visible / 2 + visible)
    then (total - visible, total)
    else (selected - visible / 2, selected - visible / 2 + visible)

-- backends.ObjectNode, as far as the rows go
pub data Node : Type 0 where
  node : (name : Text) (children : List Text) → Node

abbrev pub node_name : Node → Text
node_name (node name children) = name

-- sidebarRow; the parent's name is empty for a top-level row, and a child's own children are not
-- shown.
pub record Row : Type 0 where
  pub shown : Node
  pub parent_name : Text

abbrev pub child_rows : Text → List Text → List Row
child_rows parent [] = []
child_rows parent (c ∷ cs) =
    record { shown = node c []; parent_name = parent } ∷ child_rows parent cs

-- sidebarRows, given whether the window shows children
unfoldable pub sidebar_rows : Bool → List Node → List Row
sidebar_rows tree_view [] = []
sidebar_rows tree_view (node name children ∷ nodes) =
    record { shown = node name children; parent_name = [] }
      ∷ (if tree_view then child_rows name children else [])
    ++ sidebar_rows tree_view nodes

abbrev pub first_named : Text → List Row → Option ℕ
first_named name [] = none
first_named name (r ∷ rows) =
    let rest = first_named name rows in
    if text_eq (node_name r.shown) name
    then some 0
    else elim rest [ none ↦ none | some i ↦ some (suc i) ]

-- indexOfRowNamed
unfoldable pub index_of_row_named : List Row → Text → ℕ
index_of_row_named rows name =
    if is_empty name then 0 else elim (first_named name rows) [ none ↦ 0 | some i ↦ i ]

-- moveSel by -1 and by 1, with clampInt
abbrev pub clamp_int : ℕ → ℕ → ℕ → ℕ
clamp_int v lo hi = if ltb v lo then lo else if ltb hi v then hi else v

unfoldable pub move_sel_up : ℕ → List Row → ℕ
move_sel_up sel [] = sel
move_sel_up sel (r ∷ rows) = clamp_int (sel - 1) 0 (length rows)

unfoldable pub move_sel_down : ℕ → List Row → ℕ
move_sel_down sel [] = sel
move_sel_down sel (r ∷ rows) = clamp_int (sel + 1) 0 (length rows)

-- selectedNode, selectedTopLevelNode and selectedChildNode
unfoldable pub selected_node : List Row → ℕ → Option Node
selected_node rows sel = elim (get_elem? rows sel) [ none ↦ none | some r ↦ some r.shown ]

unfoldable pub selected_top_level_node : List Row → ℕ → Option Node
selected_top_level_node rows sel = elim (get_elem? rows sel) [
  | none ↦ none
  | some r ↦ if is_empty r.parent_name then some r.shown else none
]

unfoldable pub selected_child_node : List Row → ℕ → Option (Node × Text)
selected_child_node rows sel = elim (get_elem? rows sel) [
  | none ↦ none
  | some r ↦ if is_empty r.parent_name then none else some (r.shown, r.parent_name)
]

-- The prefix that longestCommonPrefix keeps of `prefix` against one candidate.
abbrev pub common : Text → Text → Text
common [] c = []
common (x ∷ prefix) [] = []
common (x ∷ prefix) (y ∷ c) = let rest = common prefix c in if x == y then x ∷ rest else []

abbrev pub narrow : Text → List Text → Text
narrow prefix [] = prefix
narrow [] (c ∷ cs) = []
narrow (x ∷ prefix) (c ∷ cs) = narrow (common (x ∷ prefix) c) cs

-- longestCommonPrefix
unfoldable pub longest_common_prefix : List Text → Text
longest_common_prefix [] = []
longest_common_prefix (c ∷ cs) = narrow c cs
