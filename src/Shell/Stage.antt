-- ===== src/Shell/Stage.antt =====
-- pipelineStage, pipelineBlock, classifyStage and coalesceStages of cmd/pipeline.go.
pub mod Coalesce
use xmc.Prelude.{
  ℕ, zero, suc, Bool, true, false, not, Option, none, some, List, [], ◌∷◌, ◌++◌, Text, codes,
  text_eq, trim_left, is_space, any, take, if◌then◌else◌,
}
use xmc.Shell.Words.{shell_split}

pub record PipelineStage : Type 0 where
  pub is_verb : Bool
  pub verb : Text
  pub args : List Text
  pub raw : Text

pub record PipelineBlock : Type 0 where
  pub is_verb : Bool
  pub stages : List PipelineStage

-- `xmcVerbs`
abbrev pub xmc_verbs : List Text
xmc_verbs =
    codes "send"
    ∷ codes "receive"
    ∷ codes "get"
    ∷ codes "peek"
    ∷ codes "request"
    ∷ codes "reply"
    ∷ codes "respond"
    ∷ codes "move"
    ∷ codes "forward"
    ∷ codes "bridge"
    ∷ codes "publish"
    ∷ codes "subscribe"
    ∷ codes "manage"
    ∷ codes "ping"
    ∷ codes "help"
    ∷ []

-- strings.IndexFunc(s, unicode.IsSpace), `none` for -1
abbrev pub index_space : Text → Option ℕ
index_space [] = none
index_space (c ∷ s) =
    let rest : Option ℕ = elim (index_space s) [ none ↦ none | some i ↦ some (suc i) ] in
    if is_space c then some zero else rest

-- `if idx > 0 { first = trimmed[:idx] }`
abbrev pub first_of_index : Text → Option ℕ → Text
first_of_index trimmed none = trimmed
first_of_index trimmed (some zero) = trimmed
first_of_index trimmed (some (suc i)) = take (suc i) trimmed

unfoldable pub classify_stage : Text → PipelineStage
unfolding shell_split
classify_stage text =
    let trimmed = trim_left text in
    let first = first_of_index trimmed (index_space trimmed) in
    if any (text_eq first) xmc_verbs
    then record { is_verb = true; verb = first; args = shell_split trimmed; raw = text }
    else record { is_verb = false; verb = []; args = []; raw = text }

-- An external stage joins the last block if that is external.
unfoldable pub append_external : List PipelineBlock → PipelineStage → List PipelineBlock
append_external [] s = record { is_verb = false; stages = s ∷ [] } ∷ []
append_external (b ∷ []) s =
    if not b.is_verb
    then record b { stages = b.stages ++ s ∷ [] } ∷ []
    else b ∷ record { is_verb = false; stages = s ∷ [] } ∷ []
append_external (b ∷ c ∷ blocks) s = b ∷ append_external (c ∷ blocks) s

-- The loop's body.
unfoldable pub coalesce_step : List PipelineBlock → PipelineStage → List PipelineBlock
unfolding append_external
coalesce_step blocks s =
    if s.is_verb
    then blocks ++ record { is_verb = true; stages = s ∷ [] } ∷ []
    else append_external blocks s

unfoldable pub coalesce_loop : List PipelineBlock → List PipelineStage → List PipelineBlock
coalesce_loop blocks [] = blocks
coalesce_loop blocks (s ∷ stages) = coalesce_loop (coalesce_step blocks s) stages

unfoldable pub coalesce_stages : List PipelineStage → List PipelineBlock
unfolding coalesce_loop coalesce_step
coalesce_stages stages = coalesce_loop [] stages
