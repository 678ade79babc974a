-- ===== src/Prelude/Int.antt =====
-- The `int` of C. The values that a caller gives are integers, which the program only compares. A
-- counter that the program changes is the number of its 32 bits: it wraps, as on a machine.
use Prim.Native.Nat.{ℕ, suc, ◌+◌, ◌-◌, ◌%◌, ◌^◌, ◌<◌}
use mathlib.Core.Path.{◌≡◌}
use mathlib.Core.Bool.{Bool, false}
use native.Mathlib.Omega.{arith}
use simpyc.Prelude.Tests.{ltb, if◌then◌else◌, u32_mod, inc32}

-- `negsuc n` is -(n + 1).
pub data ℤ : Type 0 where
  pos : ℕ → ℤ
  negsuc : ℕ → ℤ

abbrev pub pos_part : ℤ → ℕ
pos_part (pos n) = n
pos_part (negsuc n) = 0

abbrev pub neg_part : ℤ → ℕ
neg_part (pos n) = 0
neg_part (negsuc n) = suc n

-- `a < b` and `a <= b`.
abbrev pub ltb_ℤ : ℤ → ℤ → Bool
ltb_ℤ a b = ltb (pos_part a + neg_part b) (pos_part b + neg_part a)

-- Neither of two equal integers is less than the other, and no other two are so.
pub ltb_ℤ-eq : (a b : ℤ) → ltb_ℤ a b ≡ false → ltb_ℤ b a ≡ false → a ≡ b
ltb_ℤ-eq a b h k = ground arith

-- `n--` on an `int`, by its bits; inc32 is `n++`.
abbrev pub dec32 : ℕ → ℕ
dec32 n = (n + (u32_mod - 1)) % u32_mod

-- The value of an `int` with these bits.
abbrev pub int_of : ℕ → ℤ
int_of n = if ltb n (2 ^ 31) then pos n else negsuc (u32_mod - 1 - n)

-- An `int` counter that does not overflow counts.
pub inc32-small : (n : ℕ) → n + 1 < 2 ^ 31 → inc32 n ≡ n + 1
inc32-small n h = omega (arith, h)

pub dec32-small : (n : ℕ) → 0 < n → n < 2 ^ 31 → dec32 n ≡ n - 1
dec32-small n above h = omega (arith, above, h)

pub int_of-small : (n : ℕ) → n < 2 ^ 31 → int_of n ≡ pos n
int_of-small n h = ground (arith, h)
