-- ===== src/Tui/Commands.antt =====
-- What the terminal interface does with a proposed command and with the conversation, in cmd/ai.go:
-- isDestructive, mutatesObjects, mutatesMessages, isManageList, matchesPrefix, trimHistory,
-- leadingUserHistory and buildFeedback. The decimal print of a number is an argument.
pub mod Trimmed
use xmc.Prelude.{
  ℕ, zero, suc, ◌+◌, ◌-◌, Bool, true, false, ◌&&◌, ◌||◌, Option, none, some, List, [], ◌∷◌, ◌++◌,
  ◌≡◌, refl, Text, codes, text_eq, trim_space, has_prefix, map, length, any, drop, leb, is_empty,
  if◌then◌else◌,
}
use xmc.Errors.{to_lower}

abbrev pub destructive_prefixes : List Text
destructive_prefixes =
    codes "manage delete-queue"
    ∷ codes "manage delete-topic"
    ∷ codes "manage delete-exchange"
    ∷ codes "manage unbind-queue"
    ∷ codes "manage purge"
    ∷ []

abbrev pub object_prefixes : List Text
object_prefixes =
    codes "manage create-queue"
    ∷ codes "manage delete-queue"
    ∷ codes "manage create-topic"
    ∷ codes "manage delete-topic"
    ∷ codes "manage create-exchange"
    ∷ codes "manage delete-exchange"
    ∷ codes "manage bind-queue"
    ∷ codes "manage unbind-queue"
    ∷ []

abbrev pub message_prefixes : List Text
message_prefixes =
    codes "manage purge"
    ∷ codes "move "
    ∷ codes "send "
    ∷ codes "publish "
    ∷ codes "receive "
    ∷ codes "peek "
    ∷ codes "request "
    ∷ codes "reply "
    ∷ codes "forward "
    ∷ codes "subscribe "
    ∷ []

-- matchesPrefix
unfoldable pub matches_prefix : Text → List Text → Bool
unfolding to_lower
matches_prefix command prefixes = any (has_prefix (map to_lower (trim_space command))) prefixes

unfoldable pub is_destructive : Text → Bool
unfolding matches_prefix
is_destructive command = matches_prefix command destructive_prefixes

unfoldable pub mutates_objects : Text → Bool
unfolding matches_prefix
mutates_objects command = matches_prefix command object_prefixes

unfoldable pub mutates_messages : Text → Bool
unfolding matches_prefix
mutates_messages command = matches_prefix command message_prefixes

unfoldable pub is_manage_list : Text → Bool
unfolding matches_prefix
is_manage_list command = matches_prefix command (codes "manage list" ∷ [])

-- Two spaces between the words hide a purge.
purge_shown : is_destructive (codes " Manage Purge q") ≡ true
unfolding is_destructive
purge_shown = refl

purge_hidden : is_destructive (codes "manage  purge q") ≡ false
unfolding is_destructive
purge_hidden = refl

-- aiMessage
pub record Turn : Type 0 where
  pub role : Text
  pub content : Text

abbrev pub is_user : Turn → Bool
is_user t = text_eq t.role (codes "user")

-- leadingUserHistory
unfoldable pub leading_user_history : List Turn → List Turn
leading_user_history [] = []
leading_user_history (t ∷ ts) =
    let rest = leading_user_history ts in if is_user t then t ∷ ts else rest

-- trimHistory
unfoldable pub trim_history : List Turn → ℕ → List Turn
unfolding leading_user_history
trim_history history max_len =
    if leb (length history) max_len
    then history
    else leading_user_history (drop (length history - max_len) history)

abbrev pub feedback_status : Option Text → Text
feedback_status none = codes "ok"
feedback_status (some e) = codes "error: " ++ e

module _ (decimal : ℕ → Text) where
  abbrev pub feedback_out : Text → Text
  feedback_out out =
      if is_empty out
      then []
      else codes "\nstdout (last " ++ (decimal (length out) ++ (codes " bytes):\n" ++ out))

  abbrev pub feedback_err : Text → Text
  feedback_err err = if is_empty err then [] else codes "\nstderr:\n" ++ err

  -- buildFeedback; the length is in bytes.
  unfoldable pub build_feedback : Option Text → Text → Text → Text
  build_feedback err stdout stderr =
      codes "[execution result] "
      ++ (feedback_status err
          ++ (feedback_out (trim_space stdout) ++ feedback_err (trim_space stderr)))
