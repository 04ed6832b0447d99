-- ===== src/Shell/Split/Pieces.antt =====
-- What `split_on_delim` computes, against a recursive description of the pieces between delimiters.
use xmc.Prelude.{
  ℕ, Bool, true, false, not, ◌&&◌, ◌||◌, List, [], ◌∷◌, ◌++◌, append-nil, append_assoc, ◌≡◌, refl,
  sym, arith, Text, trim_space, ◌==◌, if◌then◌else◌, Bool-cases, inl, inr,
}
use xmc.Shell.Split.{SplitState, start, split_step, split_loop, append_text, split_on_delim}

-- Where a rune stands: inside single quotes, inside double quotes, behind a backslash.
pub record Quoting : Type 0 where
  pub single : Bool
  pub double : Bool
  pub escape : Bool

abbrev pub outside : Quoting
outside = record { single = false; double = false; escape = false }

-- The quoting behind a rune.
unfoldable pub advance : Quoting → ℕ → Quoting
advance q r =
    if q.escape
    then record q { escape = false }
    else if r == b'\\'
    then record q { escape = true }
    else if r == b'\'' && not q.double
    then record q { single = not q.single }
    else if r == b'"' && not q.single
    then record q { double = not q.double }
    else q

-- A delimiter counts outside quotes, not escaped, and if it is no quoting rune itself.
unfoldable pub is_cut : ℕ → Quoting → ℕ → Bool
is_cut delim q r =
    r == delim
    && not q.escape
    && not q.single
    && not q.double
    && not (r == b'\\' || r == b'\'' || r == b'"')

abbrev pub prepend : ℕ → List Text → List Text
prepend r [] = (r ∷ []) ∷ []
prepend r (p ∷ ps) = (r ∷ p) ∷ ps

-- The pieces between the delimiters that count.
unfoldable pub pieces : ℕ → Quoting → Text → List Text
unfolding is_cut advance
pieces delim q [] = [] ∷ []
pieces delim q (r ∷ line) = elim (is_cut delim q r) [
  | true ↦ [] ∷ pieces delim outside line
  | false ↦ prepend r (pieces delim (advance q r) line)
]

-- All pieces are trimmed, and the last one is dropped if it is blank.
abbrev pub settle : List Text → List Text
settle [] = []
settle (p ∷ []) = append_text [] (trim_space p)
settle (p ∷ q ∷ ps) = trim_space p ∷ settle (q ∷ ps)

-- The pieces when the first of them began with `current`.
abbrev behind : Text → List Text → List Text
behind current [] = current ∷ []
behind current (p ∷ ps) = (current ++ p) ∷ ps

abbrev quoting : SplitState → Quoting
quoting s = record { single = s.in_single; double = s.in_double; escape = s.escaped }

abbrev finish : SplitState → List Text
finish s = append_text s.stages (trim_space s.current)

behind-prepend :
    (current : Text) (r : ℕ) (ps : List Text)
    → behind (current ++ r ∷ []) ps ≡ behind current (prepend r ps)
behind-prepend current r [] = refl
behind-prepend current r (p ∷ ps) = rw append_assoc

step_cut :
    (delim : ℕ) (s : SplitState) (r : ℕ)
    → is_cut delim (quoting s) r ≡ true
    → split_step delim s r ≡ record {
      stages = s.stages ++ trim_space s.current ∷ [];
      current = [];
      in_single = false;
      in_double = false;
      escaped = false;
    }
unfolding split_step is_cut
step_cut delim s r h = ground arith

step_keep :
    (delim : ℕ) (s : SplitState) (r : ℕ)
    → is_cut delim (quoting s) r ≡ false
    → (quoting (split_step delim s r) ≡ advance (quoting s) r)
      × ((split_step delim s r).stages ≡ s.stages)
      × ((split_step delim s r).current ≡ s.current ++ r ∷ [])
unfolding split_step is_cut advance
step_keep delim s r h = (ground arith, ground arith, ground arith)

abbrev pub IsCons : List Text → Type 0
IsCons [] = ⊥
IsCons (p ∷ ps) = Unit {0}

prepend-IsCons : (r : ℕ) (ps : List Text) → IsCons (prepend r ps)
prepend-IsCons r [] = tt
prepend-IsCons r (p ∷ ps) = tt

pub pieces-IsCons : (delim : ℕ) (q : Quoting) (line : Text) → IsCons (pieces delim q line)
unfolding pieces
pieces-IsCons delim q [] = tt
pieces-IsCons delim q (r ∷ line) =
    elim (is_cut delim q r)
      as (λ b. IsCons (elim b [
        | true ↦ [] ∷ pieces delim outside line
        | false ↦ prepend r (pieces delim (advance q r) line)
      ])) [ true ↦ tt | false ↦ prepend-IsCons r (pieces delim (advance q r) line) ]

settle-behind-nil :
    (current : Text) (ps : List Text)
    → IsCons ps
    → settle (behind current ([] ∷ ps)) ≡ trim_space current ∷ settle ps
settle-behind-nil current [] h = absurd h
settle-behind-nil current (p ∷ ps) h = rw append-nil

settle-last :
    (stages : List Text) (current : Text)
    → append_text stages (trim_space current) ≡ stages ++ settle (behind current ([] ∷ []))
settle-last stages current = rw append-nil (go (trim_space current))
  where
    go : (t : Text) → append_text stages t ≡ stages ++ append_text [] t
    go [] = sym (append-nil stages)
    go (c ∷ t) = refl

behind-nil : (ps : List Text) → IsCons ps → behind [] ps ≡ ps
behind-nil [] h = absurd h
behind-nil (p ∷ ps) h = refl

pub pieces_cut :
    (delim : ℕ) (q : Quoting) (r : ℕ) (line : Text)
    → is_cut delim q r ≡ true
    → pieces delim q (r ∷ line) ≡ [] ∷ pieces delim outside line
unfolding pieces
pieces_cut delim q r line h = rw (h, pieces)

pub pieces_keep :
    (delim : ℕ) (q : Quoting) (r : ℕ) (line : Text)
    → is_cut delim q r ≡ false
    → pieces delim q (r ∷ line) ≡ prepend r (pieces delim (advance q r) line)
unfolding pieces
pieces_keep delim q r line h = rw (h, pieces)

pub pieces_nil : (delim : ℕ) (q : Quoting) → pieces delim q [] ≡ [] ∷ []
unfolding pieces
pieces_nil delim q = refl

loop_nil : (delim : ℕ) (s : SplitState) → split_loop delim s [] ≡ s
unfolding split_loop
loop_nil delim s = refl

loop_cons :
    (delim : ℕ) (s : SplitState) (r : ℕ) (line : Text)
    → split_loop delim s (r ∷ line) ≡ split_loop delim (split_step delim s r) line
unfolding split_loop
loop_cons delim s r line = refl

-- The loop from any state: the stages so far, then the pieces of the rest behind `current`.
finish-split_loop :
    (delim : ℕ) (s : SplitState) (line : Text)
    → finish (split_loop delim s line)
      ≡ s.stages ++ settle (behind s.current (pieces delim (quoting s) line))
finish-split_loop delim s [] = rw (pieces_nil, loop_nil) (settle-last s.stages s.current)
finish-split_loop delim s (r ∷ line) = elim (Bool-cases (is_cut delim (quoting s) r)) [
  | inl cut ↦
      rw (pieces_cut delim (quoting s) r line cut, loop_cons, step_cut delim s r cut)
        (rw (settle-behind-nil s.current _ (pieces-IsCons delim outside line)) (
          rw (
            finish-split_loop delim
                (record {
                  stages = s.stages ++ trim_space s.current ∷ [];
                  current = [];
                  in_single = false;
                  in_double = false;
                  escaped = false;
                })
                line,
            behind-nil _ (pieces-IsCons delim outside line),
            append_assoc,
          )))
  | inr keep ↦
      let k = step_keep delim s r keep in
      rw (pieces_keep delim (quoting s) r line keep) (
        rw (
          loop_cons,
          finish-split_loop delim (split_step delim s r) line,
          k.0,
          k.1,
          k.2,
          behind-prepend,
        ))
]

pub split_on_delim-pieces :
    (line : Text) (delim : ℕ) → split_on_delim line delim ≡ settle (pieces delim outside line)
unfolding split_on_delim
split_on_delim-pieces line delim =
    rw (finish-split_loop delim start line, behind-nil _ (pieces-IsCons delim outside line))
