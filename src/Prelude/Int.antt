-- ===== src/Prelude/Int.antt =====
-- Signed integers, and their conversion to `short`.
use Prim.Native.Nat.{ℕ, suc, ◌+◌, ◌-◌, ◌%◌, ◌^◌, ◌<◌}
use mathlib.Core.Path.{◌≡◌}
use native.Mathlib.Omega.{arith}
use mathlib.Core.Bool.{Bool, false}
use linux_summer.Prelude.Tests.{ltb, leb, ◌==◌, if◌then◌else◌}

-- `negsuc n` is -(n + 1).
pub data ℤ : Type 0 where
  pos : ℕ → ℤ
  negsuc : ℕ → ℤ

abbrev pub pos_part : ℤ → ℕ
pos_part (pos n) = n
pos_part (negsuc n) = 0

abbrev pub neg_part : ℤ → ℕ
neg_part (pos n) = 0
neg_part (negsuc n) = suc n

-- a - b, as an integer
abbrev pub sub_ℕ : ℕ → ℕ → ℤ
sub_ℕ a b = if leb b a then pos (a - b) else negsuc (b - a - 1)

infixl 65 ◌+ℤ◌ ◌-ℤ◌
abbrev pub ◌+ℤ◌ : ℤ → ℤ → ℤ
a +ℤ b = sub_ℕ (pos_part a + pos_part b) (neg_part a + neg_part b)

abbrev pub ◌-ℤ◌ : ℤ → ℤ → ℤ
a -ℤ b = sub_ℕ (pos_part a + neg_part b) (neg_part a + pos_part b)

-- a < b
abbrev pub lt_ℤ : ℤ → ℤ → Bool
lt_ℤ a b = ltb (pos_part a + neg_part b) (pos_part b + neg_part a)

-- the 16 bits of an integer in two's complement, and the `short` that they stand for
abbrev low_16 : ℤ → ℕ
low_16 (pos n) = n % 2 ^ 16
low_16 (negsuc n) = 2 ^ 16 - 1 - n % 2 ^ 16

unfoldable pub to_short : ℤ → ℤ
to_short x =
    let bits = low_16 x in if ltb bits (2 ^ 15) then pos bits else negsuc (2 ^ 16 - 1 - bits)

pub to_short-small : (k : ℕ) → k < 2 ^ 15 → to_short (pos k) ≡ pos k
unfolding to_short
to_short-small k h = ground arith

-- signs
abbrev pub is_neg : ℤ → Bool
is_neg z = lt_ℤ z (pos 0)

abbrev pub is_pos : ℤ → Bool
is_pos z = lt_ℤ (pos 0) z

abbrev pub is_zero : ℤ → Bool
is_zero (pos n) = n == 0
is_zero (negsuc n) = false

-- the 32 bits of an integer in two's complement, and the `int` that they stand for
abbrev low_32 : ℤ → ℕ
low_32 (pos n) = n % 2 ^ 32
low_32 (negsuc n) = 2 ^ 32 - 1 - n % 2 ^ 32

unfoldable pub to_int : ℤ → ℤ
to_int x = let bits = low_32 x in if ltb bits (2 ^ 31) then pos bits else negsuc (2 ^ 32 - 1 - bits)

pub to_int-small : (x : ℤ) → pos_part x + neg_part x < 2 ^ 31 → to_int x ≡ x
unfolding to_int
to_int-small (pos n) h = ground arith
to_int-small (negsuc n) h = ground arith

abbrev pub eq_ℤ : ℤ → ℤ → Bool
eq_ℤ a b = pos_part a + neg_part b == pos_part b + neg_part a
