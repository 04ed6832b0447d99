-- ===== src/Backends/Naming/Unique.antt =====
-- Names of broker/backends/naming.go do not collide.
use xmc.Prelude.{
  ℕ, ◌/◌, ◌%◌, ◌<◌, true, false, [], ◌∷◌, ◌++◌, ◌≡◌, refl, sym, ◌∙◌, ap, ap₂, arith, Text, codes,
  All, is_empty,
}
use xmc.Backends.{Bytes, SubscribeOptions}
use xmc.Backends.Naming.{hex_digit, hex, random_suffix, subscription_name, scoped_subscription_name}

hex_digit-injective : (m n : ℕ) → m < 16 → n < 16 → hex_digit m ≡ hex_digit n → m ≡ n
unfolding hex_digit
hex_digit-injective m n a b e = ground arith

byte_of_digits : (b c : ℕ) → b / 16 ≡ c / 16 → b % 16 ≡ c % 16 → b ≡ c
byte_of_digits b c e f = omega arith

head_eq : (c d : ℕ) (s t : Text) → c ∷ s ≡ d ∷ t → c ≡ d
head_eq c d s t e = cc

tail_eq : (c d : ℕ) (s t : Text) → c ∷ s ≡ d ∷ t → s ≡ t
tail_eq c d s t e = cc

hex-injective : (a b : Bytes) → All (λ x. x < 256) a → All (λ x. x < 256) b → hex a ≡ hex b → a ≡ b
unfolding hex
hex-injective [] [] h k e = refl
hex-injective [] (y ∷ b) h k e = cc
hex-injective (x ∷ a) [] h k e = cc
hex-injective (x ∷ a) (y ∷ b) (hx, h) (hy, k) e =
    let rest = tail_eq _ _ _ _ e in
    ap₂ (λ u v. u ∷ v)
      (byte_of_digits x y
        (hex_digit-injective (x / 16) (y / 16) (omega arith) (omega arith) (head_eq _ _ _ _ e))
        (hex_digit-injective (x % 16) (y % 16) (omega arith) (omega arith) (head_eq _ _ _ _ rest)))
      (hex-injective a b h k (tail_eq _ _ _ _ rest))

prefix_eq : (p s t : Text) → p ++ s ≡ p ++ t → s ≡ t
prefix_eq [] s t e = e
prefix_eq (c ∷ p) s t e = prefix_eq p s t (tail_eq c c _ _ e)

ephemeral_name :
    (a : Bytes) (o : SubscribeOptions)
    → is_empty o.group_id ≡ true
    → o.durable ≡ false
    → subscription_name a o ≡ (codes "xmc-sub-" ++ hex a, true)
unfolding subscription_name random_suffix
ephemeral_name a o g d = simp (g, d)

scoped_name :
    (a : Bytes) (sep : Text) (o : SubscribeOptions)
    → is_empty o.group_id ≡ false
    → scoped_subscription_name a o sep ≡ (o.group_id ++ (sep ++ o.topic), false)
unfolding scoped_subscription_name
scoped_name a sep o g = simp g

-- Two subscriptions without a group, not durable, that have the same name drew the same random
-- bytes.
pub subscription_name-injective :
    (a b : Bytes) (o o' : SubscribeOptions)
    → is_empty o.group_id ≡ true
    → is_empty o'.group_id ≡ true
    → o.durable ≡ false
    → o'.durable ≡ false
    → All (λ x. x < 256) a
    → All (λ x. x < 256) b
    → (subscription_name a o).0 ≡ (subscription_name b o').0
    → a ≡ b
subscription_name-injective a b o o' g g' d d' h k e = hex-injective a b h k (
    prefix_eq (codes "xmc-sub-") (hex a) (hex b) (
      sym (ap (λ p. p.0) (ephemeral_name a o g d))
      ∙ (e ∙ ap (λ p. p.0) (ephemeral_name b o' g' d'))))

-- Under one group and separator, subscriptions with the same scoped name are on the same topic, and
-- the name is not ephemeral.
pub scoped_subscription_name-injective :
    (a b : Bytes) (sep : Text) (o o' : SubscribeOptions)
    → is_empty o.group_id ≡ false
    → o'.group_id ≡ o.group_id
    → (scoped_subscription_name a o sep).0 ≡ (scoped_subscription_name b o' sep).0
    → (o.topic ≡ o'.topic) × ((scoped_subscription_name a o sep).1 ≡ false)
scoped_subscription_name-injective a b sep o o' g same e =
    let mine = scoped_name a sep o g in
    let other = scoped_name b sep o' (ap (λ x. is_empty x) same ∙ g) in
    (
      prefix_eq sep o.topic o'.topic (
          prefix_eq o.group_id (sep ++ o.topic) (sep ++ o'.topic) (
            sym (ap (λ p. p.0) mine)
            ∙ (e ∙ (ap (λ p. p.0) other ∙ ap (λ x. x ++ (sep ++ o'.topic)) same)))),
      ap (λ p. p.1) mine,
    )
