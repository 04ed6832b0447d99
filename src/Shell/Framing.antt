-- ===== src/Shell/Framing.antt =====
-- runOnePipeline, executeVerb, isProducer, isConsumer and ensureFlag of cmd/pipeline.go: which
-- verbs of a pipeline are run with --ndjson. The processes and pipes themselves are the
-- operating system's and are not modelled: a `Job` is what executeBlock is called with.
pub mod Flags
use xmc.Prelude.{
  Bool, true, false, not, ◌&&◌, ◌||◌, List, [], ◌∷◌, ◌++◌, Text, codes, text_eq, map, any, drop,
  if◌then◌else◌,
}
use xmc.Shell.Split.{split_pipeline}
use xmc.Shell.Stage.{PipelineStage, PipelineBlock, classify_stage, coalesce_stages}

unfoldable pub is_producer : Text → Bool
is_producer verb = any (text_eq verb) (codes "send" ∷ codes "publish" ∷ [])

unfoldable pub is_consumer : Text → Bool
is_consumer verb =
    any (text_eq verb)
      (codes "receive" ∷ codes "get" ∷ codes "peek" ∷ codes "subscribe" ∷ codes "request" ∷ [])

abbrev pub ndjson_flag : Text
ndjson_flag = codes "--ndjson"

-- The loop over the arguments returns at the first that is the flag.
unfoldable pub ensure_flag : List Text → Text → List Text
ensure_flag args flag = if any (λ a. text_eq a flag) args then args else args ++ flag ∷ []

-- The arguments of executeBlock that the pipeline decides.
pub record Job : Type 0 where
  pub block : PipelineBlock
  pub verb_input : Bool
  pub verb_output : Bool

-- The loop over the blocks: `is_first` and `prev_is_verb` are `i == 0` and `blocks[i-1].isVerb`.
unfoldable pub plan_from : Bool → Bool → List PipelineBlock → List Job
plan_from is_first prev_is_verb [] = []
plan_from is_first prev_is_verb (b ∷ []) =
    record {
      block = b;
      verb_input = not is_first && b.is_verb && prev_is_verb;
      verb_output = false;
    }
    ∷ []
plan_from is_first prev_is_verb (b ∷ next ∷ blocks) =
    record { block = b; verb_input = false; verb_output = b.is_verb && next.is_verb }
    ∷ plan_from false b.is_verb (next ∷ blocks)

-- A single block is run as it is.
unfoldable pub plan : List PipelineBlock → List Job
unfolding plan_from
plan [] = []
plan (b ∷ []) = record { block = b; verb_input = false; verb_output = false } ∷ []
plan (b ∷ next ∷ blocks) = plan_from true false (b ∷ next ∷ blocks)

-- The blocks of one line, `rawStages` onwards.
unfoldable pub jobs_of_line : Text → List Job
unfolding split_pipeline classify_stage coalesce_stages plan
jobs_of_line line = plan (coalesce_stages (map classify_stage (split_pipeline line)))

-- executeVerb: the arguments with the framing flags, less the verb itself.
unfoldable pub verb_args : PipelineStage → Bool → Bool → List Text
unfolding is_producer is_consumer ensure_flag
verb_args stage verb_input verb_output =
    let args =
      if verb_input && is_producer stage.verb
      then ensure_flag stage.args ndjson_flag
      else stage.args in
    let args' =
      if verb_output && is_consumer stage.verb then ensure_flag args ndjson_flag else args in
    drop 1 args'
