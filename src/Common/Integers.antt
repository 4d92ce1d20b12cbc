-- ===== src/Common/Integers.antt =====
-- Signed integers over the native numbers, under the library's names, and the wrap-around of Go's
-- 64-bit `int`, `int64` and `time.Duration`.
use Prim.Native.Nat.{ℕ, suc, ◌+◌, ◌-◌, ◌*◌, ◌^◌, ◌%◌, ◌≤◌, ◌<◌}
use mathlib.Core.Path.{◌≡◌}
use mathlib.Core.Bool.{Bool}
use native.Mathlib.Omega.{arith}
use kubebox.Common.Tests.{ltb, leb, if◌then◌else◌}

-- `negsuc n` is -(n + 1).
pub data ℤ : Type 0 where
  pos : ℕ → ℤ
  negsuc : ℕ → ℤ

abbrev pub pos_part : ℤ → ℕ
pos_part (pos n) = n
pos_part (negsuc n) = 0

abbrev pub neg_part : ℤ → ℕ
neg_part (pos n) = 0
neg_part (negsuc n) = suc n

abbrev pub sub_ℕ : ℕ → ℕ → ℤ
sub_ℕ a b = if leb b a then pos (a - b) else negsuc (b - a - 1)

infixl 65 ◌+ℤ◌ ◌-ℤ◌
unfoldable pub ◌+ℤ◌ : ℤ → ℤ → ℤ
a +ℤ b = sub_ℕ (pos_part a + pos_part b) (neg_part a + neg_part b)

unfoldable pub ◌-ℤ◌ : ℤ → ℤ → ℤ
a -ℤ b = sub_ℕ (pos_part a + neg_part b) (neg_part a + pos_part b)

infixl 70 ◌*ℤ◌
unfoldable pub ◌*ℤ◌ : ℤ → ℤ → ℤ
a *ℤ b =
    sub_ℕ (pos_part a * pos_part b + neg_part a * neg_part b)
      (pos_part a * neg_part b + neg_part a * pos_part b)

abbrev pub ltb_ℤ : ℤ → ℤ → Bool
ltb_ℤ a b = ltb (pos_part a + neg_part b) (pos_part b + neg_part a)

abbrev pub leb_ℤ : ℤ → ℤ → Bool
leb_ℤ a b = leb (pos_part a + neg_part b) (pos_part b + neg_part a)

infix 50 ◌≤ℤ◌
abbrev pub ◌≤ℤ◌ : ℤ → ℤ → Type 0
a ≤ℤ b = pos_part a + neg_part b ≤ pos_part b + neg_part a

-- The bit pattern of a 64-bit integer, and the integer that a bit pattern stands for.
abbrev pub to_bits : ℤ → ℕ
to_bits (pos n) = n % 2 ^ 64
to_bits (negsuc n) = 2 ^ 64 - 1 - n % 2 ^ 64

abbrev pub of_bits : ℕ → ℤ
of_bits u = if ltb u (2 ^ 63) then pos u else negsuc (2 ^ 64 - 1 - u)

unfoldable pub wrap64 : ℤ → ℤ
wrap64 z = of_bits (to_bits z)

-- The conversion to a 32-bit integer.
unfoldable pub wrap32 : ℤ → ℤ
wrap32 z = let u = to_bits z % 2 ^ 32 in if ltb u (2 ^ 31) then pos u else negsuc (2 ^ 32 - 1 - u)

pub wrap64-pos : (n : ℕ) → n < 2 ^ 63 → wrap64 (pos n) ≡ pos n
unfolding wrap64
wrap64-pos n h = ground arith

-- `x++` and `x--` on an `int`.
unfoldable pub inc64 : ℤ → ℤ
inc64 z = wrap64 (z +ℤ pos 1)

unfoldable pub dec64 : ℤ → ℤ
dec64 z = wrap64 (z -ℤ pos 1)

pub inc64-pos : (n : ℕ) → n + 1 < 2 ^ 63 → inc64 (pos n) ≡ pos (n + 1)
unfolding inc64 wrap64 ◌+ℤ◌
inc64-pos n h = ground arith

pub dec64-pos : (n : ℕ) → n + 1 < 2 ^ 63 → dec64 (pos (n + 1)) ≡ pos n
unfolding dec64 wrap64 ◌-ℤ◌
dec64-pos n h = ground arith

pub dec64-pred : (n : ℕ) → 0 < n → n < 2 ^ 63 → dec64 (pos n) ≡ pos (n - 1)
unfolding dec64 wrap64 ◌-ℤ◌
dec64-pred n h k = ground arith
