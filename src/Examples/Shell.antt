-- ===== src/Examples/Shell.antt =====
-- The theorems on cmd/pipeline.go at concrete lines.
use xmc.Prelude.{
  Bool, true, false, none, some, List, [], ◌∷◌, ◌≡◌, refl, arith, Text, codes, join, map,
}
use xmc.Shell.Split.{split_on_delim, split_commands, split_pipeline}
use xmc.Shell.Split.Pieces.{outside, settle}
use xmc.Shell.Split.Joined.{AllCut, AllUncut}
use xmc.Shell.Split.Stages.{split_on_delim_exact}
use xmc.Shell.Words.{shell_split}
use xmc.Shell.Words.Quoted.{Style, bare, single, render_all, word_of, shell_split-render}
use xmc.Shell.Stage.{PipelineStage, PipelineBlock, coalesce_stages}
use xmc.Shell.Stage.Coalesce.{stages_of, IsCoalesced, coalesce_stages_exact}
use xmc.Shell.Framing.{plan, Job, jobs_of_line}
use xmc.Shell.Framing.Flags.{JobsMeet, plan_meet}
use xmc.Shell.Alias.{Aliases, expand_alias, find_alias}
use xmc.Shell.Alias.Template.{Piece, literal, all_args, position, fill, expand_alias-print}

abbrev line : Text
line = codes "receive dlq | grep 'a|b' ; peek q"

quoted_delimiter :
    split_pipeline (codes "receive dlq | grep 'a|b'")
    ≡ codes "receive dlq" ∷ codes "grep 'a|b'" ∷ []
unfolding split_pipeline
quoted_delimiter = refl

two_commands : split_commands (codes ";; a ; b\\;c ;") ≡ codes "a" ∷ codes "b\\;c" ∷ []
unfolding split_commands
two_commands = refl

split_on_delim_exact_example :
    (ps : List Text) × (join ps (b';' ∷ []) ≡ line)
    × AllCut b';' outside ps
    × AllUncut b';' outside ps
    × (split_on_delim line b';' ≡ settle ps)
split_on_delim_exact_example = split_on_delim_exact line b';'

abbrev words : List (Style × Text)
words = (bare, codes "send") ∷ (single, codes "say \"hi\"") ∷ []

shell_split-render_example : shell_split (render_all words) ≡ map word_of words
shell_split-render_example = shell_split-render words (ground arith)

abbrev stages : List PipelineStage
stages =
    record { is_verb = true; verb = codes "receive"; args = []; raw = codes "receive a" }
    ∷ record { is_verb = true; verb = codes "send"; args = []; raw = codes "send b" }
    ∷ record { is_verb = false; verb = []; args = []; raw = codes "cat" }
    ∷ record { is_verb = false; verb = []; args = []; raw = codes "wc" }
    ∷ []

coalesce_stages_exact_example :
    (stages_of (coalesce_stages stages) ≡ stages) × IsCoalesced (coalesce_stages stages)
coalesce_stages_exact_example = coalesce_stages_exact stages

abbrev verb_block : PipelineBlock
verb_block = record { is_verb = true; stages = [] }

abbrev external_block : PipelineBlock
external_block = record { is_verb = false; stages = [] }

-- `receive a | send b | cat`: the first writes NDJSON and the second is not told to read it.
plan_meet_example :
    JobsMeet
      (plan (verb_block ∷ verb_block ∷ external_block ∷ []))
      []
      verb_block
      verb_block
      (external_block ∷ [])
plan_meet_example = plan_meet [] verb_block verb_block (external_block ∷ [])

framing_of_three :
    map {B = Bool × Bool}
      (λ (j : Job). (j.verb_input, j.verb_output))
      (jobs_of_line (codes "receive a | send b | cat"))
    ≡ (false, true) ∷ (false, false) ∷ (false, false) ∷ []
unfolding jobs_of_line
framing_of_three = refl

abbrev aliases : Aliases
aliases = (codes "redrive", codes "move $1 orders $@") ∷ []

abbrev template : List Piece
template =
    literal (codes "move ") ∷ position (codes "1") ∷ literal (codes " orders ") ∷ all_args ∷ []

words_of_line :
    shell_split (codes "redrive dlq -q") ≡ codes "redrive" ∷ codes "dlq" ∷ codes "-q" ∷ []
unfolding shell_split
words_of_line = refl

found : find_alias (codes "redrive") aliases ≡ some (codes "move $1 orders $@")
unfolding find_alias
found = refl

not_found : find_alias (codes "peek") aliases ≡ none
unfolding find_alias
not_found = refl

words_of_peek : shell_split (codes "peek q") ≡ codes "peek" ∷ codes "q" ∷ []
unfolding shell_split
words_of_peek = refl

expand_alias-print_example :
    expand_alias (codes "redrive dlq -q") aliases
    ≡ some (fill (codes "dlq" ∷ codes "-q" ∷ []) template)
expand_alias-print_example =
    expand_alias-print (codes "redrive dlq -q") (codes "redrive") (codes "dlq" ∷ codes "-q" ∷ [])
      aliases template words_of_line found (ground arith)
