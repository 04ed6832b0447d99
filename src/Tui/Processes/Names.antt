-- ===== src/Tui/Processes/Names.antt =====
-- processName, segHasFor, commandHasFor and commandWellFormed of cmd/aiproc.go, anyCommand of
-- cmd/ai.go: which lines run in the background, and how a process is called.
use xmc.Prelude.{
  ℕ, Bool, true, false, not, ◌&&◌, ◌||◌, ◌==◌, ◌≡◌, refl, List, [], ◌∷◌, ◌++◌, Text, codes, text_eq,
  has_prefix, length, map, any, ltb, is_empty, if◌then◌else◌,
}
use xmc.Errors.{to_lower}
use xmc.Shell.Split.{split_commands}
use xmc.Shell.Words.{shell_split}

abbrev pub background_verbs : List Text
background_verbs =
    codes "receive"
    ∷ codes "subscribe"
    ∷ codes "peek"
    ∷ codes "forward"
    ∷ codes "bridge"
    ∷ codes "reply"
    ∷ []

abbrev pub first_positional : Text → List Text → Text
first_positional verb [] = verb
first_positional verb (a ∷ args) =
    if has_prefix a (codes "-") then first_positional verb args else verb ++ b' ' ∷ a

abbrev pub name_of_words : Text → List Text → Text
name_of_words command [] = command
name_of_words command (verb ∷ args) = first_positional verb args

-- processName
unfoldable pub process_name : Text → Text
unfolding shell_split
process_name command = name_of_words command (shell_split command)

-- The value that `--for` wants as the next word.
abbrev pub has_value : List Text → Bool
has_value [] = false
has_value (v ∷ rest) = not (is_empty v) && not (has_prefix v (codes "-"))

-- The cases of the switch for one word, given the words behind it.
unfoldable pub streams : Text → List Text → Bool
streams p rest =
    text_eq p (codes "--for") && has_value rest
    || has_prefix p (codes "--for=") && ltb 6 (length p)
    || text_eq p (codes "--forever")
    || has_prefix p (codes "--forever=") && ltb 10 (length p)

unfoldable pub any_streams : List Text → Bool
unfolding streams
any_streams [] = false
any_streams (p ∷ rest) = streams p rest || any_streams rest

abbrev pub words_have_for : List Text → Bool
words_have_for [] = false
words_have_for (verb ∷ args) =
    any (text_eq (map to_lower verb)) background_verbs && any_streams (verb ∷ args)

-- segHasFor
unfoldable pub seg_has_for : Text → Bool
unfolding shell_split any_streams to_lower
seg_has_for segment = words_have_for (shell_split segment)

-- anyCommand
unfoldable pub any_command : Text → (Text → Bool) → Bool
unfolding split_commands
any_command line predicate = any predicate (split_commands line)

unfoldable pub command_has_for : Text → Bool
unfolding any_command seg_has_for
command_has_for line = any_command line seg_has_for

-- The variables of commandWellFormed; `last` is 0 at first.
pub record Scan : Type 0 where
  pub last : ℕ
  pub in_single : Bool
  pub in_double : Bool
  pub escaped : Bool

unfoldable pub scan_step : Scan → ℕ → Scan
scan_step s r =
    if s.escaped
    then record s { escaped = false; last = r }
    else if r == b'\\' && not s.in_single
    then record s { escaped = true; last = r }
    else if r == b'\'' && not s.in_double
    then record s { in_single = not s.in_single; last = r }
    else if r == b'"' && not s.in_single
    then record s { in_double = not s.in_double; last = r }
    else if not s.in_single && not s.in_double && not (r == b' ') && not (r == b'\t')
    then record s { last = r }
    else s

unfoldable pub scan_loop : Scan → Text → Scan
unfolding scan_step
scan_loop s [] = s
scan_loop s (r ∷ rest) = scan_loop (scan_step s r) rest

-- commandWellFormed
unfoldable pub command_well_formed : Text → Bool
unfolding scan_loop
command_well_formed s = not (
    (scan_loop (record { last = 0; in_single = false; in_double = false; escaped = false }) s).last
    == b'&')

background : command_has_for (codes "peek q ; receive q --for 1h") ≡ true
unfolding command_has_for
background = refl

foreground : command_has_for (codes "send q --for 1h") ≡ false
unfolding command_has_for
foreground = refl
