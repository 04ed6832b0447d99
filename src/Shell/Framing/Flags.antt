-- ===== src/Shell/Framing/Flags.antt =====
-- The laws of ensureFlag, and who writes and who reads NDJSON in a pipeline.
use xmc.Prelude.{
  Bool, true, false, ◌&&◌, List, [], ◌∷◌, ◌++◌, ◌≡◌, ◌⊎◌, refl, arith, Text, text_eq, text_eq_refl,
  any, Bool-cases, inl, inr, ap, map,
}
use xmc.Prelude.{is_empty}
use xmc.Shell.Stage.{PipelineBlock}
use xmc.Shell.Framing.{Job, ensure_flag, plan_from, plan}

has_flag-append :
    (flag : Text) (args : List Text) → any (λ a. text_eq a flag) (args ++ flag ∷ []) ≡ true
has_flag-append flag [] = rw (text_eq_refl flag)
has_flag-append flag (a ∷ args) = ground (arith, has_flag-append flag args)

-- The flag is there afterwards, the arguments before it stay, and a second call changes nothing.
pub ensure_flag_exact :
    (args : List Text) (flag : Text)
    → (any (λ a. text_eq a flag) (ensure_flag args flag) ≡ true)
      × ((ensure_flag args flag ≡ args) ⊎ (ensure_flag args flag ≡ args ++ flag ∷ []))
      × (ensure_flag (ensure_flag args flag) flag ≡ ensure_flag args flag)
unfolding ensure_flag
ensure_flag_exact args flag = elim (Bool-cases (any (λ a. text_eq a flag) args)) [
  | inl old ↦ rw old (old, inl refl, rw old)
  | inr new ↦ rw new (has_flag-append flag args, inr refl, rw (has_flag-append flag args))
]

-- What the plan says of two neighbours `a` and `b`, with `ys` behind them.
pub record JobsMeet (jobs : List Job) (xs : List PipelineBlock) (a b : PipelineBlock)
    (ys : List PipelineBlock) : Type 0 where
  pub before : List Job
  pub after : List Job
  pub writer : Job
  pub reader : Job
  pub in_order : jobs ≡ before ++ writer ∷ reader ∷ after
  pub blocks_before : map (λ (i : Job). i.block) before ≡ xs
  pub blocks_after : map (λ (i : Job). i.block) after ≡ ys
  pub writes : writer.block ≡ a
  pub reads : reader.block ≡ b
  pub ndjson_out : writer.verb_output ≡ a.is_verb && b.is_verb
  pub ndjson_in : reader.verb_input ≡ a.is_verb && b.is_verb && is_empty ys

blocks-plan_from :
    (first prev : Bool) (bs : List PipelineBlock)
    → map (λ (i : Job). i.block) (plan_from first prev bs) ≡ bs
unfolding plan_from
blocks-plan_from first prev [] = refl
blocks-plan_from first prev (b ∷ []) = refl
blocks-plan_from first prev (b ∷ c ∷ bs) =
    ap (λ t. b ∷ t) (blocks-plan_from false b.is_verb (c ∷ bs))

behind_job :
    (i : Job) (jobs : List Job) (xs : List PipelineBlock) (a b : PipelineBlock)
    (ys : List PipelineBlock)
    → JobsMeet jobs xs a b ys
    → JobsMeet (i ∷ jobs) (i.block ∷ xs) a b ys
behind_job i jobs xs a b ys m = record {
  before = i ∷ m.before;
  after = m.after;
  writer = m.writer;
  reader = m.reader;
  in_order = ap (λ t. i ∷ t) m.in_order;
  blocks_before = ap (λ t. i.block ∷ t) m.blocks_before;
  blocks_after = m.blocks_after;
  writes = m.writes;
  reads = m.reads;
  ndjson_out = m.ndjson_out;
  ndjson_in = m.ndjson_in;
}

plan_from-JobsMeet :
    (first prev : Bool) (xs : List PipelineBlock) (a b : PipelineBlock) (ys : List PipelineBlock)
    → JobsMeet (plan_from first prev (xs ++ a ∷ b ∷ ys)) xs a b ys
unfolding plan_from
plan_from-JobsMeet first prev [] a b [] = record {
  before = [];
  after = [];
  writer = record { block = a; verb_input = false; verb_output = a.is_verb && b.is_verb };
  reader = record { block = b; verb_input = b.is_verb && a.is_verb; verb_output = false };
  in_order = refl;
  blocks_before = refl;
  blocks_after = refl;
  writes = refl;
  reads = refl;
  ndjson_out = refl;
  ndjson_in = ground arith;
}
plan_from-JobsMeet first prev [] a b (c ∷ ys) = record {
  before = [];
  after = plan_from false b.is_verb (c ∷ ys);
  writer = record { block = a; verb_input = false; verb_output = a.is_verb && b.is_verb };
  reader = record { block = b; verb_input = false; verb_output = b.is_verb && c.is_verb };
  in_order = refl;
  blocks_before = refl;
  blocks_after = blocks-plan_from false b.is_verb (c ∷ ys);
  writes = refl;
  reads = refl;
  ndjson_out = refl;
  ndjson_in = ground arith;
}
plan_from-JobsMeet first prev (x ∷ []) a b ys =
    behind_job _ _ [] a b ys (plan_from-JobsMeet false x.is_verb [] a b ys)
plan_from-JobsMeet first prev (x ∷ y ∷ xs) a b ys =
    behind_job _ _ (y ∷ xs) a b ys (plan_from-JobsMeet false x.is_verb (y ∷ xs) a b ys)

-- Of two neighbouring blocks the first is told to write NDJSON exactly when both are verbs; the
-- second is told to read it exactly when both are verbs and it is the last block.
pub plan_meet :
    (xs : List PipelineBlock) (a b : PipelineBlock) (ys : List PipelineBlock)
    → JobsMeet (plan (xs ++ a ∷ b ∷ ys)) xs a b ys
unfolding plan
plan_meet [] a b ys = plan_from-JobsMeet true false [] a b ys
plan_meet (x ∷ []) a b ys = plan_from-JobsMeet true false (x ∷ []) a b ys
plan_meet (x ∷ y ∷ xs) a b ys = plan_from-JobsMeet true false (x ∷ y ∷ xs) a b ys
