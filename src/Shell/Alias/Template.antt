-- ===== src/Shell/Alias/Template.antt =====
-- What a template expands to, piece by piece; the fuel is enough.
use xmc.Prelude.{
  ℕ, zero, suc, ◌≤◌, Bool, true, false, Option, none, some, List, [], ◌∷◌, ◌++◌, append_assoc,
  append-nil, ◌≡◌, ◌≢◌, refl, ap, ◌∙◌, arith, Text, join, length, All,
}
use xmc.Shell.Alias.{
  Aliases, find_alias, is_digit, span_digits, atoi, argument, expand_dollar, expand_step,
  expand_loop, expand_template, expand_tokens, expand_alias,
}
use xmc.Shell.Words.{shell_split}

length-span_digits : (s : Text) → length (span_digits s).1 ≤ length s
unfolding span_digits
length-span_digits [] = omega arith
length-span_digits (c ∷ s) = ground (arith, length-span_digits s)

length-expand_dollar : (args : List Text) (s : Text) → length (expand_dollar args s).1 ≤ length s
unfolding expand_dollar
length-expand_dollar args [] = omega arith
length-expand_dollar args (c ∷ s) = ground (arith, length-span_digits (c ∷ s))

length-expand_step :
    (args : List Text) (c : ℕ) (s : Text) → length (expand_step args c s).1 ≤ length s
unfolding expand_step
length-expand_step args c s = ground (arith, length-expand_dollar args s)

-- The fuel does not matter once it covers the template.
expand_loop-fuel :
    (f g : ℕ) (args : List Text) (tmpl result : Text)
    → length tmpl ≤ f
    → length tmpl ≤ g
    → expand_loop f args tmpl result ≡ expand_loop g args tmpl result
unfolding expand_loop
expand_loop-fuel f g args [] result h k = refl
expand_loop-fuel zero g args (c ∷ tmpl) result h k = absurd (omega arith)
expand_loop-fuel (suc f) zero args (c ∷ tmpl) result h k = absurd (omega arith)
expand_loop-fuel (suc f) (suc g) args (c ∷ tmpl) result h k =
    expand_loop-fuel f g args (expand_step args c tmpl).1 _
      (omega (arith, length-expand_step args c tmpl))
      (omega (arith, length-expand_step args c tmpl))

expand_loop_total :
    (f : ℕ) (args : List Text) (tmpl result : Text)
    → length tmpl ≤ f
    → (r : Text) × (expand_loop f args tmpl result ≡ some r)
unfolding expand_loop
expand_loop_total f args [] result h = (result, refl)
expand_loop_total zero args (c ∷ tmpl) result h = absurd (omega arith)
expand_loop_total (suc f) args (c ∷ tmpl) result h =
    expand_loop_total f args (expand_step args c tmpl).1 _
      (omega (arith, length-expand_step args c tmpl))

expand_tokens_total :
    (line : Text) (aliases : Aliases) (tokens : List Text)
    → (r : Text) × (expand_tokens line aliases tokens ≡ some r)
unfolding expand_tokens expand_template
expand_tokens_total line aliases [] = (line, refl)
expand_tokens_total line aliases (name ∷ args) = go (find_alias name aliases)
  where
    go :
        (o : Option Text)
        → (r : Text) × (◌≡◌ {A = Option Text}
            (elim o [ none ↦ some line | some tmpl ↦ expand_loop (length tmpl) args tmpl [] ])
            (some r))
    go none = (line, refl)
    go (some tmpl) = expand_loop_total (length tmpl) args tmpl [] (omega arith)

-- The loop ends for every line and every set of aliases.
pub expand_alias_total :
    (line : Text) (aliases : Aliases) → (r : Text) × (expand_alias line aliases ≡ some r)
unfolding expand_alias
expand_alias_total line [] = (line, refl)
expand_alias_total line (a ∷ aliases) = expand_tokens_total line (a ∷ aliases) (shell_split line)

-- A template by its parts: text without a `$`, `$@`, and `$` with digits.
pub data Piece : Type 0 where
  literal : Text → Piece
  all_args : Piece
  position : Text → Piece

abbrev pub print : List Piece → Text
print [] = []
print (literal s ∷ ps) = s ++ print ps
print (all_args ∷ ps) = b'$' ∷ b'@' ∷ print ps
print (position ds ∷ ps) = b'$' ∷ (ds ++ print ps)

abbrev pub starts_with_digit : Text → Bool
starts_with_digit [] = false
starts_with_digit (c ∷ s) = is_digit c

-- The digits of a position end where the next part begins.
abbrev pub IsTemplate : List Piece → Type 0
IsTemplate [] = Unit
IsTemplate (literal s ∷ ps) = All (λ c. c ≢ b'$') s × IsTemplate ps
IsTemplate (all_args ∷ ps) = IsTemplate ps
IsTemplate (position ds ∷ ps) =
    (ds ≢ [])
    × All (λ c. is_digit c ≡ true) ds
    × (starts_with_digit (print ps) ≡ false)
    × IsTemplate ps

-- The argument at a place, counted from 1; nothing at 0 and behind the last one.
abbrev pub argument_at : ℕ → List Text → Text
argument_at zero args = []
argument_at (suc n) [] = []
argument_at (suc zero) (a ∷ args) = a
argument_at (suc (suc n)) (a ∷ args) = argument_at (suc n) args

argument-append :
    (a : Text) (args : List Text) (n : ℕ)
    → argument (a ∷ args) (suc (suc n)) ≡ argument args (suc n)
unfolding argument
argument-append a args n = ground arith

argument_nothing : (n : ℕ) → argument [] (suc n) ≡ []
unfolding argument
argument_nothing n = ground arith

argument_first : (a : Text) (args : List Text) → argument (a ∷ args) 1 ≡ a
unfolding argument
argument_first a args = ground arith

argument_lem : (args : List Text) (n : ℕ) → argument args n ≡ argument_at n args
argument_lem args zero = unfold argument in refl
argument_lem [] (suc n) = argument_nothing n
argument_lem (a ∷ args) (suc zero) = argument_first a args
argument_lem (a ∷ args) (suc (suc n)) = argument-append a args n ∙ argument_lem args (suc n)

abbrev pub fill : List Text → List Piece → Text
fill args [] = []
fill args (literal s ∷ ps) = s ++ fill args ps
fill args (all_args ∷ ps) = join args (b' ' ∷ []) ++ fill args ps
fill args (position ds ∷ ps) = argument_at (atoi ds) args ++ fill args ps

span_digits_stop : (s : Text) → starts_with_digit s ≡ false → span_digits s ≡ ([], s)
unfolding span_digits
span_digits_stop [] h = refl
span_digits_stop (c ∷ s) h = rw h

span_digits-append :
    (ds rest : Text)
    → All (λ c. is_digit c ≡ true) ds
    → starts_with_digit rest ≡ false
    → span_digits (ds ++ rest) ≡ (ds, rest)
unfolding span_digits
span_digits-append [] rest h e = span_digits_stop rest e
span_digits-append (c ∷ ds) rest h e = rw (span_digits-append ds rest h.1 e, h.0)

dollar_position :
    (args : List Text) (ds rest : Text)
    → ds ≢ []
    → All (λ c. is_digit c ≡ true) ds
    → starts_with_digit rest ≡ false
    → expand_dollar args (ds ++ rest) ≡ (argument args (atoi ds), rest)
unfolding expand_dollar
dollar_position args [] rest n h e = absurd (n refl)
dollar_position args (c ∷ ds) rest n h e = ground (arith, span_digits-append (c ∷ ds) rest h e)

-- One round of the loop, whatever fuel is left.
abbrev run : List Text → Text → Text → Option Text
run args tmpl result = expand_loop (length tmpl) args tmpl result

run_round :
    (args : List Text) (c : ℕ) (tmpl result written rest : Text)
    → expand_step args c tmpl ≡ (written, rest)
    → run args (c ∷ tmpl) result ≡ run args rest (result ++ written)
unfolding expand_loop
run_round args c tmpl result written rest e =
    ap (λ (p : Text × Text). expand_loop (length tmpl) args p.1 (result ++ p.0)) e
    ∙ expand_loop-fuel (length tmpl) (length rest) args rest (result ++ written)
        (omega (arith, length-expand_step args c tmpl, ap (λ (p : Text × Text). length p.1) e))
        (omega arith)

step_dollar :
    (args : List Text) (tmpl : Text) → expand_step args b'$' tmpl ≡ expand_dollar args tmpl
unfolding expand_step
step_dollar args tmpl = refl

step_literal :
    (args : List Text) (c : ℕ) (tmpl : Text) → c ≢ b'$' → expand_step args c tmpl ≡ (c ∷ [], tmpl)
unfolding expand_step
step_literal args c tmpl h = ground arith

dollar_all :
    (args : List Text) (tmpl : Text)
    → expand_dollar args (b'@' ∷ tmpl) ≡ (join args (b' ' ∷ []), tmpl)
unfolding expand_dollar
dollar_all args tmpl = refl

run_literal :
    (args : List Text) (s tmpl result : Text)
    → All (λ c. c ≢ b'$') s
    → run args (s ++ tmpl) result ≡ run args tmpl (result ++ s)
run_literal args [] tmpl result h = rw append-nil
run_literal args (c ∷ s) tmpl result h =
    run_round args c (s ++ tmpl) result (c ∷ []) (s ++ tmpl) (step_literal args c (s ++ tmpl) h.0)
    ∙ (run_literal args s tmpl (result ++ c ∷ []) h.1
        ∙ ap (λ r. run args tmpl r) (append_assoc result (c ∷ []) s))

run_print :
    (args : List Text) (ps : List Piece) (result : Text)
    → IsTemplate ps
    → run args (print ps) result ≡ some (result ++ fill args ps)
run_print args [] result h = unfold expand_loop in rw append-nil
run_print args (literal s ∷ ps) result h =
    run_literal args s (print ps) result h.0
    ∙ (run_print args ps (result ++ s) h.1 ∙ ap some (append_assoc result s (fill args ps)))
run_print args (all_args ∷ ps) result h =
    let w = join args (b' ' ∷ []) in
    run_round args b'$' (b'@' ∷ print ps) result w (print ps)
      (step_dollar args (b'@' ∷ print ps) ∙ dollar_all args (print ps))
    ∙ (run_print args ps (result ++ w) h ∙ ap some (append_assoc result w (fill args ps)))
run_print args (position ds ∷ ps) result h =
    let w = argument_at (atoi ds) args in
    run_round args b'$' (ds ++ print ps) result w (print ps) (
      step_dollar args (ds ++ print ps)
      ∙ (dollar_position args ds (print ps) h.0 h.1 h.2
          ∙ ap (λ x. (x, print ps)) (argument_lem args (atoi ds))))
    ∙ (run_print args ps (result ++ w) h.3 ∙ ap some (append_assoc result w (fill args ps)))

-- A line whose first word is an alias expands to the template of that alias, part by part: text
-- stays, `$@` is all arguments joined by spaces, `$n` the n-th argument, counted from 1, or nothing
-- when there is no such argument.
pub expand_alias-print :
    (line name : Text) (args : List Text) (aliases : Aliases) (ps : List Piece)
    → shell_split line ≡ name ∷ args
    → find_alias name aliases ≡ some (print ps)
    → IsTemplate ps
    → expand_alias line aliases ≡ some (fill args ps)
unfolding expand_alias expand_tokens expand_template
expand_alias-print line name args [] ps e f t = unfold find_alias in cc f
expand_alias-print line name args (a ∷ aliases) ps e f t =
    rw (e, expand_tokens) (rw (f) (run_print args ps [] t))

-- A line whose first word is no alias stays as it is.
pub expand_alias_other :
    (line name : Text) (args : List Text) (aliases : Aliases)
    → shell_split line ≡ name ∷ args
    → find_alias name aliases ≡ none
    → expand_alias line aliases ≡ some line
unfolding expand_alias expand_tokens
expand_alias_other line name args [] e f = refl
expand_alias_other line name args (a ∷ aliases) e f = rw (e, expand_tokens) (rw (f))
