-- ===== src/Shell/Split.antt =====
-- splitOnDelim, splitCommands and splitPipeline of cmd/pipeline.go: a line is cut at a delimiter
-- that stands outside quotes and is not escaped. Text is a list of runes.
pub mod Pieces
pub mod Joined
pub mod Stages
use xmc.Prelude.{
  ℕ, Bool, true, false, not, ◌&&◌, List, [], ◌∷◌, ◌++◌, Text, trim_space, ◌==◌, if◌then◌else◌,
}

-- The variables of the loop.
pub record SplitState : Type 0 where
  pub stages : List Text
  pub current : Text
  pub in_single : Bool
  pub in_double : Bool
  pub escaped : Bool

abbrev pub start : SplitState
start = record { stages = []; current = []; in_single = false; in_double = false; escaped = false }

-- current.WriteRune(r)
abbrev pub write_rune : SplitState → ℕ → SplitState
write_rune s r = record s { current = s.current ++ r ∷ [] }

-- The loop's body.
unfoldable pub split_step : ℕ → SplitState → ℕ → SplitState
split_step delim s r =
    if s.escaped
    then record s { current = s.current ++ r ∷ []; escaped = false }
    else if r == b'\\'
    then record s { current = s.current ++ r ∷ []; escaped = true }
    else if r == b'\'' && not s.in_double
    then record s { current = s.current ++ r ∷ []; in_single = not s.in_single }
    else if r == b'"' && not s.in_single
    then record s { current = s.current ++ r ∷ []; in_double = not s.in_double }
    else if r == delim && not s.in_single && not s.in_double
    then record s { stages = s.stages ++ trim_space s.current ∷ []; current = [] }
    else write_rune s r

unfoldable pub split_loop : ℕ → SplitState → Text → SplitState
split_loop delim s [] = s
split_loop delim s (r ∷ line) = split_loop delim (split_step delim s r) line

-- What follows the loop: the last stage is kept if it holds text.
abbrev pub append_text : List Text → Text → List Text
append_text stages [] = stages
append_text stages (c ∷ s) = stages ++ (c ∷ s) ∷ []

unfoldable pub split_on_delim : Text → ℕ → List Text
unfolding split_loop split_step
split_on_delim line delim =
    let s = split_loop delim start line in append_text s.stages (trim_space s.current)

-- `splitPipeline`
unfoldable pub split_pipeline : Text → List Text
unfolding split_on_delim
split_pipeline line = split_on_delim line b'|'

-- The filter of `splitCommands`.
unfoldable pub drop_empty : List Text → List Text
drop_empty [] = []
drop_empty ([] ∷ raw) = drop_empty raw
drop_empty ((c ∷ s) ∷ raw) = (c ∷ s) ∷ drop_empty raw

unfoldable pub split_commands : Text → List Text
unfolding split_on_delim drop_empty
split_commands line = drop_empty (split_on_delim line b';')
