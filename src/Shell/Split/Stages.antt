-- ===== src/Shell/Split/Stages.antt =====
-- What a caller of splitOnDelim of cmd/pipeline.go may rely on.
use xmc.Prelude.{
  ℕ, Bool, true, false, not, ◌&&◌, List, [], ◌∷◌, ◌≡◌, ◌⊎◌, refl, arith, Text, join, trim_space,
  trim_left, trim_right, keep_if_text, is_space, trim_space_idem, Bool-cases, inl, inr, All,
}
use xmc.Shell.Split.{append_text, split_on_delim, split_commands, drop_empty}
use xmc.Shell.Split.Pieces.{
  Quoting, outside, advance, is_cut, pieces, settle, split_on_delim-pieces,
}
use xmc.Shell.Split.Joined.{
  AllCut, AllCut-pieces, uncut, AllUncut, join-pieces, pieces_of_uncut, AllUncut-pieces,
}

-- A line is cut into pieces that joined with the delimiter give the line back: exactly at the
-- delimiters that stand outside quotes and are not escaped, since each cut is at such a one and no
-- piece holds another. The stages are these pieces trimmed, less a blank last one.
pub split_on_delim_exact :
    (line : Text) (delim : ℕ)
    → (ps : List Text) × (join ps (delim ∷ []) ≡ line)
      × AllCut delim outside ps
      × AllUncut delim outside ps
      × (split_on_delim line delim ≡ settle ps)
split_on_delim_exact line delim = (
  pieces delim outside line,
  join-pieces delim outside line,
  AllCut-pieces delim outside line,
  AllUncut-pieces delim outside line,
  split_on_delim-pieces line delim,
)

-- Trimming brings no delimiter out of its quotes.
advance_space : (c : ℕ) → is_space c ≡ true → advance outside c ≡ outside
unfolding advance
advance_space c h = ground arith

uncut-trim_left :
    (delim : ℕ) (s : Text) → uncut delim outside s ≡ true → uncut delim outside (trim_left s) ≡ true
unfolding uncut
uncut-trim_left delim [] h = refl
uncut-trim_left delim (c ∷ s) h = elim (Bool-cases (is_space c)) [
  | inl e ↦ rw e (uncut-trim_left delim s (rest (is_cut delim outside c) e h))
  | inr e ↦ rw e h
]
  where
    rest :
        (b : Bool)
        → is_space c ≡ true
        → (not b && uncut delim (advance outside c) s) ≡ true
        → uncut delim outside s ≡ true
    rest true e k = cc
    rest false e k = rw (advance_space c e) at k

uncut-keep :
    (delim : ℕ) (q : Quoting) (c : ℕ) (t : Text)
    → is_cut delim q c ≡ false
    → uncut delim (advance q c) t ≡ true
    → uncut delim q (keep_if_text c t) ≡ true
unfolding uncut
uncut-keep delim q c [] h k = elim (Bool-cases (is_space c)) [ inl e ↦ rw e | inr e ↦ rw (e, h) ]
uncut-keep delim q c (d ∷ t) h k = rw h k

uncut-trim_right :
    (delim : ℕ) (q : Quoting) (s : Text)
    → uncut delim q s ≡ true
    → uncut delim q (trim_right s) ≡ true
unfolding uncut
uncut-trim_right delim q [] h = refl
uncut-trim_right delim q (c ∷ s) h =
    uncut-keep delim q c (trim_right s) (ground arith)
      (uncut-trim_right delim (advance q c) s (ground arith))

uncut-trim_space :
    (delim : ℕ) (s : Text)
    → uncut delim outside s ≡ true
    → uncut delim outside (trim_space s) ≡ true
uncut-trim_space delim s h =
    uncut-trim_right delim outside (trim_left s) (uncut-trim_left delim s h)

-- A stage is blank or stays one stage.
abbrev pub IsStage : ℕ → Text → Type 0
IsStage delim s = (s ≡ []) ⊎ (split_on_delim s delim ≡ s ∷ [])

IsStage-of_trimmed :
    (delim : ℕ) (t : Text) → uncut delim outside t ≡ true → trim_space t ≡ t → IsStage delim t
IsStage-of_trimmed delim [] h e = inl refl
IsStage-of_trimmed delim (c ∷ t) h e =
    inr (rw (split_on_delim-pieces, pieces_of_uncut delim outside (c ∷ t) h, e))

IsStage-trim_space :
    (delim : ℕ) (p : Text) → uncut delim outside p ≡ true → IsStage delim (trim_space p)
IsStage-trim_space delim p h =
    IsStage-of_trimmed delim (trim_space p) (uncut-trim_space delim p h) (trim_space_idem p)

stages-append_text :
    (delim : ℕ) (t : Text) → IsStage delim t → All (IsStage delim) (append_text [] t)
stages-append_text delim [] h = tt
stages-append_text delim (c ∷ t) h = (h, tt)

stages-settle :
    (delim : ℕ) (ps : List Text) → AllUncut delim outside ps → All (IsStage delim) (settle ps)
stages-settle delim [] h = tt
stages-settle delim (p ∷ []) h =
    stages-append_text delim (trim_space p) (IsStage-trim_space delim p h.0)
stages-settle delim (p ∷ q ∷ ps) h =
    (IsStage-trim_space delim p h.0, stages-settle delim (q ∷ ps) h.1)

-- Every stage of a line, split again, is blank or comes back whole: no delimiter is left in it.
pub split_on_delim_again :
    (line : Text) (delim : ℕ) → All (IsStage delim) (split_on_delim line delim)
split_on_delim_again line delim =
    rw (split_on_delim-pieces line delim)
      (stages-settle delim _ (AllUncut-pieces delim outside line))

abbrev pub IsNonempty : Text → Type 0
IsNonempty [] = ⊥
IsNonempty (c ∷ s) = Unit

abbrev pub IsCommand : Text → Type 0
IsCommand s = IsNonempty s × (split_on_delim s b';' ≡ s ∷ [])

commands-drop_empty : (raw : List Text) → All (IsStage b';') raw → All IsCommand (drop_empty raw)
unfolding drop_empty
commands-drop_empty [] h = tt
commands-drop_empty ([] ∷ raw) h = commands-drop_empty raw h.1
commands-drop_empty ((c ∷ s) ∷ raw) h = ((tt, whole h.0), commands-drop_empty raw h.1)
  where
    whole : IsStage b';' (c ∷ s) → split_on_delim (c ∷ s) b';' ≡ (c ∷ s) ∷ []
    whole (inl e) = cc
    whole (inr e) = e

-- Every command of a line is not empty and holds no further `;` outside quotes.
pub split_commands_whole : (line : Text) → All IsCommand (split_commands line)
unfolding split_commands
split_commands_whole line = commands-drop_empty _ (split_on_delim_again line b';')
