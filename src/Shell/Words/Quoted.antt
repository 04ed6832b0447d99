-- ===== src/Shell/Words/Quoted.antt =====
-- Words written with or without quotes are read back.
use xmc.Prelude.{
  ℕ, false, true, List, [], ◌∷◌, ◌++◌, append_assoc, append-nil, ◌≡◌, ◌≢◌, refl, ap, ◌∙◌, map,
  arith, Text, All, is_space,
}
use xmc.Shell.Words.{WordState, word_step, word_loop, shell_split}

-- How a word is written.
pub data Style : Type 0 where
  bare single double : Style

-- What stands in a word of that style.
abbrev pub Fits : Style → ℕ → Type 0
Fits bare c = (is_space c ≡ false) × (c ≢ b'\'') × (c ≢ b'"')
Fits single c = c ≢ b'\''
Fits double c = c ≢ b'"'

abbrev pub IsWord : Style × Text → Type 0
IsWord (style, []) = ⊥
IsWord (style, c ∷ w) = All (Fits style) (c ∷ w)

abbrev pub render : Style × Text → Text
render (bare, w) = w
render (single, w) = b'\'' ∷ (w ++ b'\'' ∷ [])
render (double, w) = b'"' ∷ (w ++ b'"' ∷ [])

-- Every word followed by a space.
abbrev pub render_all : List (Style × Text) → Text
render_all [] = []
render_all (w ∷ ws) = render w ++ b' ' ∷ render_all ws

abbrev pub word_of : Style × Text → Text
word_of (style, w) = w

-- The state inside a word of that style.
abbrev inside : Style → List Text → Text → WordState
inside bare ws w = record { words = ws; word = w; in_single = false; in_double = false }
inside single ws w = record { words = ws; word = w; in_single = true; in_double = false }
inside double ws w = record { words = ws; word = w; in_single = false; in_double = true }

step_inside :
    (style : Style) (ws : List Text) (w : Text) (c : ℕ)
    → Fits style c
    → word_step (inside style ws w) c ≡ inside style ws (w ++ c ∷ [])
unfolding word_step
step_inside bare ws w c h = ground arith
step_inside single ws w c h = ground arith
step_inside double ws w c h = ground arith

loop_inside :
    (style : Style) (ws : List Text) (w v rest : Text)
    → All (Fits style) v
    → word_loop (inside style ws w) (v ++ rest) ≡ word_loop (inside style ws (w ++ v)) rest
unfolding word_loop
loop_inside style ws w [] rest h = rw append-nil
loop_inside style ws w (c ∷ v) rest h =
    ap (λ s. word_loop s (v ++ rest)) (step_inside style ws w c h.0)
    ∙ (loop_inside style ws (w ++ c ∷ []) v rest h.1
        ∙ ap (λ x. word_loop (inside style ws x) rest) (append_assoc w (c ∷ []) v))

-- A space behind a word that has a character ends the word.
step_space :
    (ws : List Text) (c : ℕ) (w : Text)
    → word_step (inside bare ws (c ∷ w)) b' ' ≡ inside bare (ws ++ (c ∷ w) ∷ []) []
unfolding word_step
step_space ws c w = refl

close_quote :
    (style : Style) (ws : List Text) (w rest : Text)
    → word_loop
        (inside style ws w)
        (elim style [ bare ↦ [] | single ↦ b'\'' ∷ [] | double ↦ b'"' ∷ [] ] ++ rest)
      ≡ word_loop (inside bare ws w) rest
unfolding word_loop word_step
close_quote bare ws w rest = refl
close_quote single ws w rest = refl
close_quote double ws w rest = refl

loop_word :
    (w : Style × Text) (ws : List Text) (rest : Text)
    → IsWord w
    → word_loop (inside bare ws []) (render w ++ b' ' ∷ rest)
      ≡ word_loop (inside bare (ws ++ word_of w ∷ []) []) rest
unfolding word_loop word_step
loop_word (style, []) ws rest h = absurd h
loop_word (bare, c ∷ w) ws rest h =
    loop_inside bare ws [] (c ∷ w) (b' ' ∷ rest) h ∙ ap (λ s. word_loop s rest) (step_space ws c w)
loop_word (single, c ∷ w) ws rest h = rw append_assoc (
    loop_inside single ws [] (c ∷ w) (b'\'' ∷ b' ' ∷ rest) h
    ∙ (close_quote single ws (c ∷ w) (b' ' ∷ rest)
        ∙ ap (λ s. word_loop s rest) (step_space ws c w)))
loop_word (double, c ∷ w) ws rest h = rw append_assoc (
    loop_inside double ws [] (c ∷ w) (b'"' ∷ b' ' ∷ rest) h
    ∙ (close_quote double ws (c ∷ w) (b' ' ∷ rest)
        ∙ ap (λ s. word_loop s rest) (step_space ws c w)))

loop_words :
    (ws : List (Style × Text)) (words : List Text)
    → All IsWord ws
    → word_loop (inside bare words []) (render_all ws) ≡ inside bare (words ++ map word_of ws) []
unfolding word_loop
loop_words [] words h = rw append-nil
loop_words (w ∷ ws) words h =
    loop_word w words (render_all ws) h.0
    ∙ (loop_words ws (words ++ word_of w ∷ []) h.1
        ∙ ap (λ x. inside bare x []) (append_assoc words (word_of w ∷ []) (map word_of ws)))

-- Words that are not empty, each written bare, in single or in double quotes around characters
-- that fit the style, are read back as they are.
pub shell_split-render :
    (ws : List (Style × Text)) → All IsWord ws → shell_split (render_all ws) ≡ map word_of ws
unfolding shell_split
shell_split-render ws h = rw (loop_words ws [] h)
