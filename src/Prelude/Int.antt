-- ===== src/Prelude/Int.antt =====
-- Go's int where the program compares one with a counter; `negsuc n` is -(n + 1).
use Prim.Native.Nat.{ℕ}
use mathlib.Core.Bool.{Bool, true, false}
use xmc.Prelude.Tests.{ltb, leb, ◌==◌}

pub data ℤ : Type 0 where
  pos : ℕ → ℤ
  negsuc : ℕ → ℤ

-- count == 0
abbrev pub is_zero : ℤ → Bool
is_zero (pos n) = n == 0
is_zero (negsuc n) = false

-- count <= 0
abbrev pub is_le_zero : ℤ → Bool
is_le_zero (pos n) = leb n 0
is_le_zero (negsuc n) = true

-- k < count
abbrev pub lt_int : ℕ → ℤ → Bool
lt_int k (pos n) = ltb k n
lt_int k (negsuc n) = false
