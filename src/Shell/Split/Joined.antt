-- ===== src/Shell/Split/Joined.antt =====
-- The pieces of a line joined give it back, and none holds a delimiter outside quotes.
use xmc.Prelude.{
  ℕ, Bool, true, false, not, ◌&&◌, List, [], ◌∷◌, ◌++◌, ◌≡◌, refl, arith, Text, join, Bool-cases,
  inl, inr,
}
use xmc.Shell.Split.Pieces.{
  Quoting, outside, advance, is_cut, prepend, IsCons, pieces, pieces-IsCons, pieces_nil, pieces_cut,
  pieces_keep,
}

join-nil-cons : (ps : List Text) (sep : Text) → IsCons ps → join ([] ∷ ps) sep ≡ sep ++ join ps sep
join-nil-cons [] sep h = absurd h
join-nil-cons (p ∷ ps) sep h = refl

join-prepend : (r : ℕ) (ps : List Text) (sep : Text) → join (prepend r ps) sep ≡ r ∷ join ps sep
join-prepend r [] sep = refl
join-prepend r (p ∷ []) sep = refl
join-prepend r (p ∷ q ∷ ps) sep = refl

cut_is_delim : (delim : ℕ) (q : Quoting) (r : ℕ) → is_cut delim q r ≡ true → r ≡ delim
unfolding is_cut
cut_is_delim delim q r h = ground arith

pub join-pieces :
    (delim : ℕ) (q : Quoting) (line : Text) → join (pieces delim q line) (delim ∷ []) ≡ line
join-pieces delim q [] = rw pieces_nil
join-pieces delim q (r ∷ line) = elim (Bool-cases (is_cut delim q r)) [
  | inl cut ↦ rw (
    pieces_cut delim q r line cut,
    join-nil-cons _ _ (pieces-IsCons delim outside line),
    join-pieces delim outside line,
    cut_is_delim delim q r cut,
  )
  | inr keep ↦
      rw (pieces_keep delim q r line keep, join-prepend, join-pieces delim (advance q r) line)
]

-- No rune of the text is a delimiter that counts.
unfoldable pub uncut : ℕ → Quoting → Text → Bool
unfolding is_cut advance
uncut delim q [] = true
uncut delim q (r ∷ p) = not (is_cut delim q r) && uncut delim (advance q r) p

pub pieces_of_uncut :
    (delim : ℕ) (q : Quoting) (p : Text) → uncut delim q p ≡ true → pieces delim q p ≡ p ∷ []
unfolding uncut
pieces_of_uncut delim q [] h = pieces_nil delim q
pieces_of_uncut delim q (r ∷ p) h =
    rw
      (pieces_keep delim q r p (ground arith), pieces_of_uncut delim (advance q r) p (ground arith))

-- The first piece is uncut from `q` on, the others from outside quotes.
abbrev pub AllUncut : ℕ → Quoting → List Text → Type 0
AllUncut delim q [] = Unit
AllUncut delim q (p ∷ ps) = (uncut delim q p ≡ true) × AllUncut delim outside ps

AllUncut-prepend :
    (delim : ℕ) (q : Quoting) (r : ℕ) (ps : List Text)
    → is_cut delim q r ≡ false
    → AllUncut delim (advance q r) ps
    → AllUncut delim q (prepend r ps)
unfolding uncut
AllUncut-prepend delim q r [] h a = (ground arith, tt)
AllUncut-prepend delim q r (p ∷ ps) h a = (ground arith, a.1)

pub AllUncut-pieces :
    (delim : ℕ) (q : Quoting) (line : Text) → AllUncut delim q (pieces delim q line)
unfolding uncut
AllUncut-pieces delim q [] = rw pieces_nil (refl, tt)
AllUncut-pieces delim q (r ∷ line) = elim (Bool-cases (is_cut delim q r)) [
  | inl cut ↦ rw (pieces_cut delim q r line cut) (refl, AllUncut-pieces delim outside line)
  | inr keep ↦
      rw (pieces_keep delim q r line keep)
        (AllUncut-prepend delim q r _ keep (AllUncut-pieces delim (advance q r) line))
]

-- The quoting behind a text.
abbrev pub advance_text : Quoting → Text → Quoting
advance_text q [] = q
advance_text q (r ∷ p) = advance_text (advance q r) p

-- Behind each piece but the last one a delimiter counts: it is outside quotes and not escaped.
abbrev pub AllCut : ℕ → Quoting → List Text → Type 0
AllCut delim q [] = Unit
AllCut delim q (p ∷ []) = Unit
AllCut delim q (p ∷ p' ∷ ps) =
    (is_cut delim (advance_text q p) delim ≡ true) × AllCut delim outside (p' ∷ ps)

AllCut-cons :
    (delim : ℕ) (q : Quoting) (ps : List Text)
    → IsCons ps
    → is_cut delim q delim ≡ true
    → AllCut delim outside ps
    → AllCut delim q ([] ∷ ps)
AllCut-cons delim q [] i h a = tt
AllCut-cons delim q (p ∷ ps) i h a = (h, a)

AllCut-prepend :
    (delim : ℕ) (q : Quoting) (r : ℕ) (ps : List Text)
    → AllCut delim (advance q r) ps
    → AllCut delim q (prepend r ps)
AllCut-prepend delim q r [] a = tt
AllCut-prepend delim q r (p ∷ []) a = tt
AllCut-prepend delim q r (p ∷ p' ∷ ps) a = a

pub AllCut-pieces : (delim : ℕ) (q : Quoting) (line : Text) → AllCut delim q (pieces delim q line)
AllCut-pieces delim q [] = rw pieces_nil tt
AllCut-pieces delim q (r ∷ line) = elim (Bool-cases (is_cut delim q r)) [
  | inl cut ↦ rw (pieces_cut delim q r line cut) (
      AllCut-cons delim q _ (pieces-IsCons delim outside line)
        (rw (cut_is_delim delim q r cut) at cut) (AllCut-pieces delim outside line))
  | inr keep ↦
      rw (pieces_keep delim q r line keep)
        (AllCut-prepend delim q r _ (AllCut-pieces delim (advance q r) line))
]
