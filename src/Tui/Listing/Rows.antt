-- ===== src/Tui/Listing/Rows.antt =====
-- What the rows and the windows of the sidebar promise.
use xmc.Prelude.{
  ℕ, ◌+◌, ◌≤◌, ◌<◌, min, Bool, true, false, ◌&&◌, List, [], ◌∷◌, ◌≡◌, refl, sym, ap, ◌∙◌, arith,
  Text, has_prefix, all,
}
use mathlib.Core.Option.{}
use mathlib.Core.Path.{}
use xmc.Tui.Listing.{compute_window, common, narrow, longest_common_prefix}

-- For a selection in range and a height that is not 0, the window holds the selection, lies within
-- the list, and is as long as the height, or as the list if that is shorter.
pub compute_window_lem :
    (total selected visible : ℕ)
    → selected < total
    → 0 < visible
    → ((compute_window total selected visible).0 ≤ selected)
      × (selected < (compute_window total selected visible).1)
      × ((compute_window total selected visible).1 ≤ total)
      × ((compute_window total selected visible).1
          ≡ (compute_window total selected visible).0 + min total visible)
unfolding compute_window
compute_window_lem total selected visible l p = ground arith

common-prefix : (p c q : Text) → has_prefix (common p c) q ≡ (has_prefix p q && has_prefix c q)
common-prefix p c [] = refl
common-prefix [] c (z ∷ q) = refl
common-prefix (x ∷ p) [] (z ∷ q) = ground arith
common-prefix (x ∷ p) (y ∷ c) (z ∷ q) = ground (arith, common-prefix p c q)

narrow-prefix :
    (p : Text) (cs : List Text) (q : Text)
    → has_prefix (narrow p cs) q ≡ (has_prefix p q && all (λ c. has_prefix c q) cs)
narrow-prefix p [] q = go (has_prefix p q)
  where
    go : (b : Bool) → b ≡ (b && true)
    go true = refl
    go false = refl
narrow-prefix [] (c ∷ cs) [] = sym (none_longer cs)
  where
    none_longer : (ds : List Text) → all (λ d. has_prefix d []) ds ≡ true
    none_longer [] = refl
    none_longer (d ∷ ds) = none_longer ds
narrow-prefix [] (c ∷ cs) (z ∷ q) = refl
narrow-prefix (x ∷ p) (c ∷ cs) q =
    narrow-prefix (common (x ∷ p) c) cs q
    ∙ ap (λ b. b && all (λ d. has_prefix d q) cs) (common-prefix (x ∷ p) c q)
    ∙ go (has_prefix (x ∷ p) q) (has_prefix c q) (all (λ d. has_prefix d q) cs)
  where
    go : (a b d : Bool) → ((a && b) && d) ≡ (a && (b && d))
    go true b d = refl
    go false b d = refl

-- A text is a prefix of the longest common prefix of one or more candidates exactly when it is a
-- prefix of each of them.
pub longest_common_prefix_lem :
    (c : Text) (cs : List Text) (q : Text)
    → has_prefix (longest_common_prefix (c ∷ cs)) q ≡ all (λ d. has_prefix d q) (c ∷ cs)
unfolding longest_common_prefix
longest_common_prefix_lem c cs q = narrow-prefix c cs q
