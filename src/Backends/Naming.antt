-- ===== src/Backends/Naming.antt =====
-- broker/backends/naming.go. The bytes that crypto/rand fills in are an argument.
pub mod Unique
use xmc.Prelude.{
  ℕ, ◌+◌, ◌-◌, ◌/◌, ◌%◌, Bool, true, false, [], ◌∷◌, ◌++◌, Text, codes, ltb, if◌then◌else◌,
  is_empty,
}
use xmc.Backends.{Bytes, SubscribeOptions}

-- encoding/hex: two lower-case digits for each byte.
unfoldable pub hex_digit : ℕ → ℕ
hex_digit n = if ltb n 10 then b'0' + n else b'a' + (n - 10)

unfoldable pub hex : Bytes → Text
unfolding hex_digit
hex [] = []
hex (b ∷ bs) = hex_digit (b / 16) ∷ hex_digit (b % 16) ∷ hex bs

-- RandomSuffix, from the six random bytes.
unfoldable pub random_suffix : Bytes → Text
unfolding hex
random_suffix bytes = hex bytes

-- The tests `opts.GroupID != ""` and `opts.Durable` in order.
unfoldable pub subscription_name : Bytes → SubscribeOptions → Text × Bool
unfolding random_suffix
subscription_name random opts =
    if is_empty opts.group_id
    then (if opts.durable
        then (codes "xmc-durable-" ++ opts.topic, false)
        else (codes "xmc-sub-" ++ random_suffix random, true))
    else (opts.group_id, false)

unfoldable pub scoped_subscription_name : Bytes → SubscribeOptions → Text → Text × Bool
unfolding subscription_name
scoped_subscription_name random opts sep =
    if is_empty opts.group_id
    then subscription_name random opts
    else (opts.group_id ++ (sep ++ opts.topic), false)
