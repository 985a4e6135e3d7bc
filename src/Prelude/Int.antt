-- ===== src/Prelude/Int.antt =====
-- Signed integers over the native numbers, and the wrap-around of Go's int64.
use Prim.Native.Nat.{ℕ, suc, ◌+◌, ◌-◌, ◌*◌, ◌%◌, ◌≤◌}
use mathlib.Core.Path.{◌≡◌}
use mathlib.Core.Bool.{Bool}
use native.Mathlib.Omega.{arith}
use gearshare.Prelude.Tests.{ltb, leb, if◌then◌else◌}

-- `negsuc n` is -(n + 1).
pub data ℤ : Type 0 where
  pos : ℕ → ℤ
  negsuc : ℕ → ℤ

abbrev pub pos_part : ℤ → ℕ
pos_part (pos n) = n
pos_part (negsuc n) = 0

abbrev pub neg_part : ℤ → ℕ
neg_part (pos n) = 0
neg_part (negsuc n) = suc n

abbrev pub ltb_ℤ : ℤ → ℤ → Bool
ltb_ℤ a b = ltb (pos_part a + neg_part b) (pos_part b + neg_part a)

abbrev pub leb_ℤ : ℤ → ℤ → Bool
leb_ℤ a b = leb (pos_part a + neg_part b) (pos_part b + neg_part a)

abbrev pub int64_max : ℕ
int64_max = 9223372036854775807

abbrev pub int64_mod : ℕ
int64_mod = 18446744073709551616

-- The bit pattern of an integer, and the int64 that a bit pattern stands for.
unfoldable pub to_word : ℤ → ℕ
to_word (pos n) = n % int64_mod
to_word (negsuc n) = int64_mod - 1 - n % int64_mod

unfoldable pub of_word : ℕ → ℤ
of_word n = if leb n int64_max then pos n else negsuc (int64_mod - 1 - n)

-- int64 multiplication: the product of the bit patterns, modulo 2^64.
infixl 70 ◌*ℤ◌
unfoldable pub ◌*ℤ◌ : ℤ → ℤ → ℤ
unfolding to_word of_word
a *ℤ b = of_word (to_word a * to_word b % int64_mod)

-- A product that fits is exact.
pub *ℤ-pos :
    (a b : ℕ) → a * b ≤ int64_max → a ≤ int64_max → b ≤ int64_max → pos a *ℤ pos b ≡ pos (a * b)
unfolding ◌*ℤ◌
*ℤ-pos a b h p q =
    let left : a % int64_mod ≡ a = omega arith in
    let right : b % int64_mod ≡ b = omega arith in
    let both : a * b % int64_mod ≡ a * b = omega arith in rw (left, right, both) (ground arith)
