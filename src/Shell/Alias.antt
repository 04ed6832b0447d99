-- ===== src/Shell/Alias.antt =====
-- expandAlias and isAlias of cmd/pipeline.go. The expansion indexes bytes; all it looks for is
-- ASCII, so over the runes of the same text it does the same.
pub mod Template
use xmc.Prelude.{
  ℕ, zero, suc, ◌+◌, ◌-◌, ◌*◌, ◌^◌, min, Bool, true, false, ◌&&◌, ◌||◌, Option, none, some, List,
  [], ◌∷◌, ◌++◌, Text, codes, text_eq, join, length, get_elem?, leb, ◌==◌, if◌then◌else◌, ◌≡◌, refl,
}
use xmc.Shell.Words.{shell_split}

-- map[string]string
abbrev pub Aliases : Type 0
Aliases = List (Text × Text)

unfoldable pub find_alias : Text → Aliases → Option Text
find_alias name [] = none
find_alias name ((key, tmpl) ∷ aliases) =
    if text_eq key name then some tmpl else find_alias name aliases

abbrev pub is_digit : ℕ → Bool
is_digit c = leb b'0' c && leb c b'9'

-- The digits at the front, and what follows them: the inner loop over `j`.
unfoldable pub span_digits : Text → Text × Text
span_digits [] = ([], [])
span_digits (c ∷ s) =
    let (ds, rest) = span_digits s in if is_digit c then (c ∷ ds, rest) else ([], c ∷ s)

abbrev pub max_int : ℕ
max_int = 2 ^ 63 - 1

abbrev pub digits_value : ℕ → Text → ℕ
digits_value n [] = n
digits_value n (c ∷ s) = digits_value (n * 10 + (c - b'0')) s

-- strconv.Atoi of digits with its error ignored: out of range it returns the largest int.
abbrev pub atoi : Text → ℕ
atoi s = min (digits_value 0 s) max_int

abbrev pub or_empty : Option Text → Text
or_empty none = []
or_empty (some s) = s

-- `if n >= 1 && n <= len(args) { WriteString(args[n-1]) }`
unfoldable pub argument : List Text → ℕ → Text
argument args n = if leb 1 n && leb n (length args) then or_empty (get_elem? args (n - 1)) else []

-- What one round writes for a `$` and the text behind it, and what is left.
unfoldable pub expand_dollar : List Text → Text → Text × Text
unfolding span_digits argument
expand_dollar args [] = (b'$' ∷ [], [])
expand_dollar args (c ∷ rest) =
    if c == b'@' || c == b'*'
    then (join args (b' ' ∷ []), rest)
    else (let ds = (span_digits (c ∷ rest)).0 in
        let behind = (span_digits (c ∷ rest)).1 in
        if leb 1 (length ds) then (argument args (atoi ds), behind) else (b'$' ∷ [], c ∷ rest))

unfoldable pub expand_step : List Text → ℕ → Text → Text × Text
unfolding expand_dollar
expand_step args c rest = if c == b'$' then expand_dollar args rest else (c ∷ [], rest)

-- The loop over the template; `none` when the fuel runs out.
unfoldable pub expand_loop : ℕ → List Text → Text → Text → Option Text
expand_loop fuel args [] result = some result
expand_loop zero args (c ∷ tmpl) result = none
expand_loop (suc fuel) args (c ∷ tmpl) result =
    let (written, rest) = expand_step args c tmpl in expand_loop fuel args rest (result ++ written)

-- Every round reads a rune, so the template's length is fuel enough.
unfoldable pub expand_template : List Text → Text → Option Text
unfolding expand_loop expand_step
expand_template args tmpl = expand_loop (length tmpl) args tmpl []

unfoldable pub expand_tokens : Text → Aliases → List Text → Option Text
unfolding find_alias expand_template
expand_tokens line aliases [] = some line
expand_tokens line aliases (name ∷ args) = elim (find_alias name aliases) [
  | none ↦ some line
  | some tmpl ↦ expand_template args tmpl
]

unfoldable pub expand_alias : Text → Aliases → Option Text
unfolding shell_split expand_tokens
expand_alias line [] = some line
expand_alias line (a ∷ aliases) = expand_tokens line (a ∷ aliases) (shell_split line)

expand_two :
    expand_alias (codes "mv dlq q2") ((codes "mv", codes "move $1 $2 $9 $@$") ∷ [])
    ≡ some (codes "move dlq q2  dlq q2$")
unfolding expand_alias
expand_two = refl
