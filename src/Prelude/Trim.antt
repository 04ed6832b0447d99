-- ===== src/Prelude/Trim.antt =====
-- Laws of `trim_space`.
use xmc.Prelude.Tests.{Bool-cases}
use xmc.Prelude.Texts.{Text, is_space, trim_left, trim_right, trim_space, keep_if_text}
use Prim.Native.Nat.{ℕ}
use mathlib.Core.Path.{◌≡◌, refl}
use mathlib.Core.Bool.{false}
use mathlib.Core.List.{[], ◌∷◌}
use mathlib.Core.Logic.{inl, inr}
use native.Mathlib.Omega.{}

-- Empty, or with a first character that is no space.
abbrev pub StartsWithText : Text → Type 0
StartsWithText [] = Unit
StartsWithText (c ∷ s) = is_space c ≡ false

abbrev EndsWithText : Text → Type 0
EndsWithText [] = Unit
EndsWithText (c ∷ []) = is_space c ≡ false
EndsWithText (c ∷ d ∷ s) = EndsWithText (d ∷ s)

StartsWithText-trim_left : (s : Text) → StartsWithText (trim_left s)
StartsWithText-trim_left [] = tt
StartsWithText-trim_left (c ∷ s) = elim (Bool-cases (is_space c)) [
  | inl e ↦ rw e (StartsWithText-trim_left s)
  | inr e ↦ rw e e
]

trim_left_of : (s : Text) → StartsWithText s → trim_left s ≡ s
trim_left_of [] h = refl
trim_left_of (c ∷ s) h = rw h

StartsWithText-keep : (c : ℕ) (t : Text) → is_space c ≡ false → StartsWithText (keep_if_text c t)
StartsWithText-keep c [] h = rw h h
StartsWithText-keep c (d ∷ t) h = h

StartsWithText-trim_right : (s : Text) → StartsWithText s → StartsWithText (trim_right s)
StartsWithText-trim_right [] h = tt
StartsWithText-trim_right (c ∷ s) h = StartsWithText-keep c (trim_right s) h

trim_right-keep :
    (c : ℕ) (t : Text) → trim_right t ≡ t → trim_right (keep_if_text c t) ≡ keep_if_text c t
trim_right-keep c [] h = elim (Bool-cases (is_space c)) [ inl e ↦ rw e | inr e ↦ rw (e, e) ]
trim_right-keep c (d ∷ t) h = rw h

trim_right_idem : (s : Text) → trim_right (trim_right s) ≡ trim_right s
trim_right_idem [] = refl
trim_right_idem (c ∷ s) = trim_right-keep c (trim_right s) (trim_right_idem s)

pub trim_space_idem : (s : Text) → trim_space (trim_space s) ≡ trim_space s
trim_space_idem s =
    rw
      (trim_left_of (trim_space s)
        (StartsWithText-trim_right (trim_left s) (StartsWithText-trim_left s)))
      (trim_right_idem (trim_left s))
