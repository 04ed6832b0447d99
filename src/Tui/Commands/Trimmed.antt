-- ===== src/Tui/Commands/Trimmed.antt =====
-- Which commands change the broker, and what is kept of a conversation.
use xmc.Prelude.{
  ℕ, zero, suc, ◌-◌, ◌<◌, Bool, true, false, ◌||◌, List, [], ◌∷◌, ◌++◌, ◌≡◌, refl, sym, ap, ◌∙◌,
  arith, Text, has_prefix, map, length, any, drop, leb, trim_space, if◌then◌else◌,
}
use xmc.Errors.{to_lower}
use xmc.Tui.Processes.Names.{any_command}
use xmc.Shell.Split.{split_commands}
use xmc.Tui.Commands.{
  destructive_prefixes, object_prefixes, message_prefixes, matches_prefix, is_destructive,
  mutates_objects, mutates_messages, Turn, is_user, leading_user_history, trim_history,
}

-- Every prefix of the one list is in one of the others.
covered :
    (h : Text → Bool)
    → any h destructive_prefixes ≡ true
    → (any h object_prefixes || any h message_prefixes) ≡ true
covered h e = ground arith

any-segments :
    (segments : List Text)
    → any is_destructive segments ≡ true
    → (any mutates_objects segments || any mutates_messages segments) ≡ true
unfolding is_destructive mutates_objects mutates_messages matches_prefix
any-segments [] e = cc
any-segments (s ∷ segments) e =
    go (any (has_prefix (map to_lower (trim_space s))) destructive_prefixes)
      (any (has_prefix (map to_lower (trim_space s))) object_prefixes)
      (any (has_prefix (map to_lower (trim_space s))) message_prefixes)
      (any is_destructive segments) (any mutates_objects segments) (any mutates_messages segments)
      (covered (has_prefix (map to_lower (trim_space s)))) (any-segments segments) e
  where
    go :
        (a b c d o m : Bool)
        → (a ≡ true → (b || c) ≡ true)
        → (d ≡ true → (o || m) ≡ true)
        → (a || d) ≡ true
        → ((b || o) || (c || m)) ≡ true
    go true true c d o m f k e = refl
    go true false true d true m f k e = refl
    go true false true d false m f k e = refl
    go true false false d o m f k e = cc (f refl)
    go false true c d o m f k e = refl
    go false false true true true m f k e = refl
    go false false true true false m f k e = refl
    go false false false true o m f k e = k refl
    go false false c false o m f k e = cc

-- A line with a destructive command also has a command after which the objects or the messages are
-- read again.
pub destructive-mutates :
    (line : Text)
    → any_command line is_destructive ≡ true
    → (any_command line mutates_objects || any_command line mutates_messages) ≡ true
unfolding any_command
destructive-mutates line e = any-segments (split_commands line) e

-- The conversation sent starts with a turn of the user, or is empty.
abbrev pub StartsWithUser : List Turn → Type 0
StartsWithUser [] = Unit
StartsWithUser (t ∷ ts) = is_user t ≡ true

-- The turns of the user are behind what is skipped.
record Skipped (ts kept : List Turn) : Type 0 where
  skipped : List Turn
  parts : ts ≡ skipped ++ kept
  without_user : any is_user skipped ≡ false
  starts : StartsWithUser kept

leading-Skipped : (ts : List Turn) → Skipped ts (leading_user_history ts)
unfolding leading_user_history
leading-Skipped [] = record { skipped = []; parts = refl; without_user = refl; starts = tt }
leading-Skipped (t ∷ ts) = go (is_user t) refl (leading-Skipped ts)
  where
    go :
        (b : Bool)
        → is_user t ≡ b
        → Skipped ts (leading_user_history ts)
        → Skipped (t ∷ ts) (if b then t ∷ ts else leading_user_history ts)
    go true e s = record { skipped = []; parts = refl; without_user = refl; starts = e }
    go false e s = record {
      skipped = t ∷ s.skipped;
      parts = ap (t ∷◌) s.parts;
      without_user = ground (arith, e, s.without_user);
      starts = s.starts;
    }

drop-split {ℓ} :
    {A : Type ℓ} (i : ℕ) (xs : List A)
    → (ys : List A) × (xs ≡ ys ++ drop i xs) × (length (drop i xs) ≡ length xs - i)
drop-split zero xs = ([], refl, omega arith)
drop-split (suc i) [] = ([], refl, omega arith)
drop-split (suc i) (x ∷ xs) =
    let r = drop-split i xs in (x ∷ r.0, ap (x ∷◌) r.1, omega (arith, r.2))

-- A history is cut into an old part and its last `max_len` turns; of those the turns before the
-- first one of the user are skipped, and the others are kept.
pub trim_history_lem :
    (history : List Turn) (max_len : ℕ)
    → max_len < length history
    → (old skipped : List Turn) × (history ≡ old ++ (skipped ++ trim_history history max_len))
      × (length (skipped ++ trim_history history max_len) ≡ max_len)
      × (any is_user skipped ≡ false)
      × StartsWithUser (trim_history history max_len)
unfolding trim_history
trim_history_lem history max_len l =
    rw longer (cut (drop-split (length history - max_len) history) (leading-Skipped last))
  where
    last : List Turn
    last = drop (length history - max_len) history

    longer : leb (length history) max_len ≡ false
    longer = ground (arith, l)

    cut :
        ((old : List Turn) × (history ≡ old ++ last)
          × (length last ≡ length history - (length history - max_len)))
        → Skipped last (leading_user_history last)
        → (old skipped : List Turn) × (history ≡ old ++ (skipped ++ leading_user_history last))
          × (length (skipped ++ leading_user_history last) ≡ max_len)
          × (any is_user skipped ≡ false)
          × StartsWithUser (leading_user_history last)
    cut r s = (
      r.0,
      s.skipped,
      r.1 ∙ ap (r.0 ++◌) s.parts,
      ap length (sym s.parts) ∙ r.2 ∙ omega (arith, l),
      s.without_user,
      s.starts,
    )
