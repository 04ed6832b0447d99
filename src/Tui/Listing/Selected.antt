-- ===== src/Tui/Listing/Selected.antt =====
-- The row that is selected again by the name of its node: indexOfRowNamed of cmd/aikeys.go.
use xmc.Prelude.{
  ℕ, zero, suc, Bool, true, false, not, Option, none, some, List, [], ◌∷◌, ◌++◌, ◌≡◌, refl, sym, ap,
  ◌∙◌, arith, Text, text_eq, text_eq→eq, text_eq_refl, get_elem?, is_empty, all, any, All,
  All-append, if◌then◌else◌,
}
use mathlib.Core.Option.{some-injective}
use mathlib.Core.Path.{subst}
use xmc.Tui.Listing.{
  Node, node, node_name, Row, child_rows, sidebar_rows, first_named, index_of_row_named,
  selected_node, selected_top_level_node,
}

abbrev pub has_name : Text → Row → Bool
has_name name r = text_eq (node_name r.shown) name

record Found (name : Text) (rows : List Row) : Type 0 where
  at : ℕ
  row : Row
  first : first_named name rows ≡ some at
  there : get_elem? rows at ≡ some row
  named : node_name row.shown ≡ name

Found-tail :
    (name : Text) (r : Row) (rows : List Row)
    → text_eq (node_name r.shown) name ≡ false
    → Found name rows
    → Found name (r ∷ rows)
Found-tail name r rows e f = record {
  at = suc f.at;
  row = f.row;
  first = rw (e, f.first) refl;
  there = f.there;
  named = f.named;
}

Found-cons :
    (b : Bool) (name : Text) (r : Row) (rows : List Row)
    → text_eq (node_name r.shown) name ≡ b
    → (any (has_name name) rows ≡ true → Found name rows)
    → any (has_name name) (r ∷ rows) ≡ true
    → Found name (r ∷ rows)
Found-cons true name r rows e k h = record {
  at = 0;
  row = r;
  first = rw e refl;
  there = refl;
  named = text_eq→eq (node_name r.shown) name e;
}
Found-cons false name r rows e k h = Found-tail name r rows e (k (ground (arith, h, e)))

-- A row with a name that is there is found.
found : (name : Text) (rows : List Row) → any (has_name name) rows ≡ true → Found name rows
found name [] h = cc
found name (r ∷ rows) h =
    Found-cons (text_eq (node_name r.shown) name) name r rows refl (found name rows) h

any_append-name :
    (name : Text) (xs ys : List Row)
    → any (has_name name) ys ≡ true
    → any (has_name name) (xs ++ ys) ≡ true
any_append-name name [] ys h = h
any_append-name name (x ∷ xs) ys h = ground (arith, any_append-name name xs ys h)

abbrev pub has_node : Text → Node → Bool
has_node name n = text_eq (node_name n) name

abbrev pub node_children : Node → List Text
node_children (node name children) = children

abbrev pub all_named : List Node → Bool
all_named nodes = all (λ n. not (is_empty (node_name n))) nodes

IsTop : List Node → Row → Type 0
IsTop nodes r = is_empty r.parent_name ≡ true → any (has_node (node_name r.shown)) nodes ≡ true

All-weaken {ℓ κ} :
    {A : Type ℓ} {P Q : A → Type κ} (xs : List A) → ((x : A) → P x → Q x) → All P xs → All Q xs
All-weaken [] k h = tt
All-weaken (x ∷ xs) k h = (k x h.0, All-weaken xs k h.1)

All-get {ℓ κ} :
    {A : Type ℓ} (P : A → Type κ) (xs : List A) (i : ℕ) (x : A)
    → All P xs
    → get_elem? xs i ≡ some x
    → P x
All-get P [] i x h e = cc
All-get P (y ∷ xs) zero x h e = subst P (some-injective y x e) h.0
All-get P (y ∷ xs) (suc i) x h e = All-get P xs i x h.1 e

children-IsTop :
    (nodes : List Node) (parent : Text) (cs : List Text)
    → is_empty parent ≡ false
    → All (IsTop nodes) (child_rows parent cs)
unfolding IsTop
children-IsTop nodes parent [] e = tt
children-IsTop nodes parent (c ∷ cs) e = (λ t. cc (e, t), children-IsTop nodes parent cs e)

-- A row without a parent is a node's.
rows-IsTop :
    (tree_view : Bool) (nodes : List Node)
    → all_named nodes ≡ true
    → All (IsTop nodes) (sidebar_rows tree_view nodes)
unfolding sidebar_rows IsTop
rows-IsTop tree_view [] h = tt
rows-IsTop tree_view (node n cs ∷ nodes) h = (
  λ t. ground (arith, text_eq_refl n),
  All-append (IsTop (node n cs ∷ nodes)) (if tree_view then child_rows n cs else [])
      (sidebar_rows tree_view nodes) (inner tree_view)
      (All-weaken (sidebar_rows tree_view nodes) (λ r k t. ground (arith, k t))
        (rows-IsTop tree_view nodes (ground (arith, h)))),
)
  where
    inner : (b : Bool) → All (IsTop (node n cs ∷ nodes)) (if b then child_rows n cs else [])
    inner true = children-IsTop (node n cs ∷ nodes) n cs (ground (arith, h))
    inner false = tt

-- Every node has a row, with children or without.
row-node :
    (tree_view : Bool) (nodes : List Node) (name : Text)
    → any (has_node name) nodes ≡ true
    → any (has_name name) (sidebar_rows tree_view nodes) ≡ true
unfolding sidebar_rows
row-node tree_view [] name h = h
row-node tree_view (node n cs ∷ nodes) name h =
    go (text_eq n name) refl (row-node tree_view nodes name)
  where
    go :
        (b : Bool)
        → text_eq n name ≡ b
        → (any (has_node name) nodes ≡ true
            → any (has_name name) (sidebar_rows tree_view nodes) ≡ true)
        → any (has_name name) (sidebar_rows tree_view (node n cs ∷ nodes)) ≡ true
    go true e k = ground (arith, e)
    go false e k = ground (
      arith,
      e,
      any_append-name name (if tree_view then child_rows n cs else [])
          (sidebar_rows tree_view nodes) (k (ground (arith, h, e))),
    )

-- A row with this name shows this node.
abbrev ShowsOnly : Node → Row → Type 0
ShowsOnly n r = text_eq (node_name r.shown) (node_name n) ≡ true → r.shown ≡ n

-- No other node has the name of the node, and no child has it.
abbrev pub IsUnique : Node → List Node → Type 0
IsUnique n nodes =
    All
      (λ m.
        (text_eq (node_name m) (node_name n) ≡ true → m ≡ n)
        × All (λ child. text_eq child (node_name n) ≡ false) (node_children m))
      nodes

children-ShowsOnly :
    (n : Node) (parent : Text) (cs : List Text)
    → All (λ child. text_eq child (node_name n) ≡ false) cs
    → All (ShowsOnly n) (child_rows parent cs)
children-ShowsOnly n parent [] h = tt
children-ShowsOnly n parent (c ∷ cs) h =
    (λ t. absurd (cc (t, h.0)), children-ShowsOnly n parent cs h.1)

rows-ShowsOnly :
    (tree_view : Bool) (n : Node) (nodes : List Node)
    → IsUnique n nodes
    → All (ShowsOnly n) (sidebar_rows tree_view nodes)
unfolding sidebar_rows
rows-ShowsOnly tree_view n [] h = tt
rows-ShowsOnly tree_view n (node name cs ∷ nodes) h = (
  h.0.0,
  All-append (ShowsOnly n) (if tree_view then child_rows name cs else [])
      (sidebar_rows tree_view nodes) (inner tree_view) (rows-ShowsOnly tree_view n nodes h.1),
)
  where
    inner : (b : Bool) → All (ShowsOnly n) (if b then child_rows name cs else [])
    inner true = children-ShowsOnly n name cs h.0.1
    inner false = tt

-- The one row with a name is selected by it.
selected-index :
    (rows : List Row) (n : Node) (c : ℕ) (name : Text)
    → node_name n ≡ c ∷ name
    → All (ShowsOnly n) rows
    → any (has_name (c ∷ name)) rows ≡ true
    → selected_node rows (index_of_row_named rows (c ∷ name)) ≡ some n
unfolding selected_node index_of_row_named
selected-index rows n c name e only h =
    let f = found (c ∷ name) rows h in
    let same : f.row.shown ≡ n =
      All-get (ShowsOnly n) rows f.at f.row only f.there
        (ap (λ x. text_eq x (node_name n)) (f.named ∙ sym e) ∙ text_eq_refl (node_name n)) in
    rw (f.first, selected_node, f.there) (ap some same)

-- When every node has a name, and no other node and no child has the name of the selected top-level
-- node, this same node is selected again by its name after its window was switched between the rows
-- with and without children.
pub tree_view-selected :
    (tree_view other : Bool) (nodes : List Node) (sel c : ℕ) (name : Text) (children : List Text)
    → all_named nodes ≡ true
    → IsUnique (node (c ∷ name) children) nodes
    → selected_top_level_node (sidebar_rows tree_view nodes) sel ≡ some (node (c ∷ name) children)
    → selected_node
        (sidebar_rows other nodes)
        (index_of_row_named (sidebar_rows other nodes) (c ∷ name))
      ≡ some (node (c ∷ name) children)
unfolding selected_top_level_node IsTop
tree_view-selected tree_view other nodes sel c name children h u e =
    selected-index (sidebar_rows other nodes) (node (c ∷ name) children) c name refl
      (rows-ShowsOnly other (node (c ∷ name) children) nodes u)
      (row-node other nodes (c ∷ name)
        (top_level (get_elem? (sidebar_rows tree_view nodes) sel) refl e))
  where
    is_top :
        (r : Row)
        → get_elem? (sidebar_rows tree_view nodes) sel ≡ some r
        → (b : Bool) → is_empty r.parent_name ≡ b
        → (if b then some r.shown else none) ≡ some (node (c ∷ name) children)
        → any (has_node (c ∷ name)) nodes ≡ true
    is_top r g false t k = cc
    is_top r g true t k =
        subst (λ x. any (has_node (node_name x)) nodes ≡ true)
          (some-injective r.shown (node (c ∷ name) children) k)
          (All-get (IsTop nodes) _ sel r (rows-IsTop tree_view nodes h) g t)

    top_level :
        (o : Option Row)
        → get_elem? (sidebar_rows tree_view nodes) sel ≡ o
        → elim o [ none ↦ none | some r ↦ if is_empty r.parent_name then some r.shown else none ]
          ≡ some (node (c ∷ name) children)
        → any (has_node (c ∷ name)) nodes ≡ true
    top_level none g k = cc
    top_level (some r) g k = is_top r g (is_empty r.parent_name) refl k
