-- ===== src/Shell/Stage/Coalesce.antt =====
-- coalesceStages of cmd/pipeline.go keeps every stage in order, and its blocks are maximal.
use xmc.Prelude.{
  Bool, true, false, ◌||◌, List, [], ◌∷◌, ◌++◌, append_assoc, append-nil, ◌≡◌, refl, sym, ap, ◌∙◌,
  arith, All, All-append, Bool-cases, inl, inr,
}
use xmc.Shell.Stage.{
  PipelineStage, PipelineBlock, append_external, coalesce_step, coalesce_loop, coalesce_stages,
}

-- The stages of the blocks, in order.
abbrev pub stages_of : List PipelineBlock → List PipelineStage
stages_of [] = []
stages_of (b ∷ blocks) = b.stages ++ stages_of blocks

-- One verb stage, or one or more external stages.
abbrev pub HoldsStages : Bool → List PipelineStage → Type 0
HoldsStages v [] = ⊥
HoldsStages true (s ∷ ss) = (s.is_verb ≡ true) × (ss ≡ [])
HoldsStages false (s ∷ ss) = All (λ t. t.is_verb ≡ false) (s ∷ ss)

abbrev head_is_verb : List PipelineBlock → Bool
head_is_verb [] = true
head_is_verb (b ∷ blocks) = b.is_verb

-- Of two neighbours one is a verb block.
abbrev pub IsCoalesced : List PipelineBlock → Type 0
IsCoalesced [] = Unit
IsCoalesced (b ∷ blocks) =
    HoldsStages b.is_verb b.stages × (b.is_verb || head_is_verb blocks ≡ true) × IsCoalesced blocks

abbrev verb_block : PipelineStage → PipelineBlock
verb_block s = record { is_verb = true; stages = s ∷ [] }

head_is_verb-append :
    (blocks : List PipelineBlock) (s : PipelineStage)
    → head_is_verb (blocks ++ verb_block s ∷ []) ≡ head_is_verb blocks
head_is_verb-append [] s = refl
head_is_verb-append (b ∷ blocks) s = refl

append_verb-IsCoalesced :
    (blocks : List PipelineBlock) (s : PipelineStage)
    → s.is_verb ≡ true
    → IsCoalesced blocks
    → IsCoalesced (blocks ++ verb_block s ∷ [])
append_verb-IsCoalesced [] s v h = ((v, refl), refl, tt)
append_verb-IsCoalesced (b ∷ blocks) s v h =
    (h.0, rw head_is_verb-append h.1, append_verb-IsCoalesced blocks s v h.2)

HoldsStages-append :
    (v : Bool) (ss : List PipelineStage) (s : PipelineStage)
    → v ≡ false
    → s.is_verb ≡ false
    → HoldsStages v ss
    → HoldsStages v (ss ++ s ∷ [])
HoldsStages-append v [] s e f h = absurd h
HoldsStages-append true (t ∷ ss) s e f h = cc
HoldsStages-append false (t ∷ ss) s e f h = All-append _ (t ∷ ss) (s ∷ []) h (f, tt)

head_is_verb-append_external :
    (b : PipelineBlock) (blocks : List PipelineBlock) (s : PipelineStage)
    → head_is_verb (append_external (b ∷ blocks) s) ≡ b.is_verb
unfolding append_external
head_is_verb-append_external b [] s = ground arith
head_is_verb-append_external b (c ∷ blocks) s = refl

append_external-one :
    (v : Bool) (ss : List PipelineStage) (s : PipelineStage)
    → s.is_verb ≡ false
    → HoldsStages v ss
    → IsCoalesced (append_external (record { is_verb = v; stages = ss } ∷ []) s)
unfolding append_external
append_external-one true ss s e h = (h, refl, ((e, tt), refl, tt))
append_external-one false ss s e h = (HoldsStages-append false ss s refl e h, refl, tt)

append_external-IsCoalesced :
    (blocks : List PipelineBlock) (s : PipelineStage)
    → s.is_verb ≡ false
    → IsCoalesced blocks
    → IsCoalesced (append_external blocks s)
unfolding append_external
append_external-IsCoalesced [] s e h = ((e, tt), refl, tt)
append_external-IsCoalesced (b ∷ []) s e h = append_external-one b.is_verb b.stages s e h.0
append_external-IsCoalesced (b ∷ c ∷ blocks) s e h = (
  h.0,
  rw (head_is_verb-append_external c blocks s) h.1,
  append_external-IsCoalesced (c ∷ blocks) s e h.2,
)

coalesce_step-IsCoalesced :
    (blocks : List PipelineBlock) (s : PipelineStage)
    → IsCoalesced blocks
    → IsCoalesced (coalesce_step blocks s)
unfolding coalesce_step
coalesce_step-IsCoalesced blocks s h = elim (Bool-cases s.is_verb) [
  | inl v ↦ simp v (append_verb-IsCoalesced blocks s v h)
  | inr v ↦ simp v (append_external-IsCoalesced blocks s v h)
]

stages_of-append :
    (bs cs : List PipelineBlock) → stages_of (bs ++ cs) ≡ stages_of bs ++ stages_of cs
stages_of-append [] cs = refl
stages_of-append (b ∷ bs) cs = rw (stages_of-append bs cs, append_assoc)

stages_of-append_external :
    (blocks : List PipelineBlock) (s : PipelineStage)
    → stages_of (append_external blocks s) ≡ stages_of blocks ++ s ∷ []
unfolding append_external
stages_of-append_external [] s = refl
stages_of-append_external (b ∷ []) s = elim (Bool-cases b.is_verb) [
  | inl v ↦ simp (v, append-nil)
  | inr v ↦ simp (v, append-nil)
]
stages_of-append_external (b ∷ c ∷ blocks) s =
    ap (λ ss. b.stages ++ ss) (stages_of-append_external (c ∷ blocks) s)
    ∙ sym (append_assoc b.stages (stages_of (c ∷ blocks)) (s ∷ []))

stages_of-coalesce_step :
    (blocks : List PipelineBlock) (s : PipelineStage)
    → stages_of (coalesce_step blocks s) ≡ stages_of blocks ++ s ∷ []
unfolding coalesce_step
stages_of-coalesce_step blocks s = elim (Bool-cases s.is_verb) [
  | inl v ↦ simp v (stages_of-append blocks (verb_block s ∷ []))
  | inr v ↦ simp v (stages_of-append_external blocks s)
]

coalesce_loop_correct :
    (blocks : List PipelineBlock) (stages : List PipelineStage)
    → IsCoalesced blocks
    → (stages_of (coalesce_loop blocks stages) ≡ stages_of blocks ++ stages)
      × IsCoalesced (coalesce_loop blocks stages)
unfolding coalesce_loop
coalesce_loop_correct blocks [] h = (sym (append-nil _), h)
coalesce_loop_correct blocks (s ∷ stages) h =
    let (kept, good) =
      coalesce_loop_correct (coalesce_step blocks s) stages
        (coalesce_step-IsCoalesced blocks s h) in
    (rw (kept, stages_of-coalesce_step, append_assoc), good)

-- The blocks hold the stages of the line in order, every verb stage alone in a verb block, external
-- stages in external blocks, and no two external blocks are neighbours.
pub coalesce_stages_exact :
    (stages : List PipelineStage)
    → (stages_of (coalesce_stages stages) ≡ stages) × IsCoalesced (coalesce_stages stages)
unfolding coalesce_stages
coalesce_stages_exact stages = coalesce_loop_correct [] stages tt
