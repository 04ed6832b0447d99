-- ===== src/Shell/Words.antt =====
-- shellSplit of cmd/pipeline.go: the quote-aware word splitter.
pub mod Quoted
use xmc.Prelude.{
  ℕ, Bool, true, false, not, ◌&&◌, List, [], ◌∷◌, ◌++◌, Text, is_space, ◌==◌, if◌then◌else◌, codes,
  ◌≡◌, refl,
}

-- The variables of the loop.
pub record WordState : Type 0 where
  pub words : List Text
  pub word : Text
  pub in_single : Bool
  pub in_double : Bool

abbrev pub start : WordState
start = record { words = []; word = []; in_single = false; in_double = false }

-- The word so far is kept if it has a character.
abbrev pub append_word : List Text → Text → List Text
append_word words [] = words
append_word words (c ∷ s) = words ++ (c ∷ s) ∷ []

-- The loop's body.
unfoldable pub word_step : WordState → ℕ → WordState
word_step s r =
    if r == b'\'' && not s.in_double
    then record s { in_single = not s.in_single }
    else if r == b'"' && not s.in_single
    then record s { in_double = not s.in_double }
    else if is_space r && not s.in_single && not s.in_double
    then record s { words = append_word s.words s.word; word = [] }
    else record s { word = s.word ++ r ∷ [] }

unfoldable pub word_loop : WordState → Text → WordState
word_loop s [] = s
word_loop s (r ∷ rest) = word_loop (word_step s r) rest

unfoldable pub shell_split : Text → List Text
unfolding word_loop word_step
shell_split s = let e = word_loop start s in append_word e.words e.word

quoted_words :
    shell_split (codes "send  'a b' \"it's\" c")
    ≡ codes "send" ∷ codes "a b" ∷ codes "it's" ∷ codes "c" ∷ []
unfolding shell_split
quoted_words = refl
