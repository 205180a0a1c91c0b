-- ===== src/Common/Int.antt =====
-- Signed integers over the native numbers, and the error codes of errno.h.
use Prim.Native.Nat.{ℕ, zero, suc, ◌+◌, ◌-◌}
use mathlib.Core.Path.{◌≡◌}
use mathlib.Core.Bool.{Bool, true, false}
use native.Mathlib.Omega.{arith}
use step.Common.Test.{leb, if◌then◌else◌}

-- `negsuc n` is -(n + 1).
pub data ℤ : Type 0 where
  pos : ℕ → ℤ
  negsuc : ℕ → ℤ

abbrev pub pos_part : ℤ → ℕ
pos_part (pos n) = n
pos_part (negsuc n) = 0

abbrev pub neg_part : ℤ → ℕ
neg_part (pos n) = 0
neg_part (negsuc n) = suc n

abbrev pub sub_ℕ : ℕ → ℕ → ℤ
sub_ℕ a b = if leb b a then pos (a - b) else negsuc (b - a - 1)

infixl 65 ◌+ℤ◌ ◌-ℤ◌
unfoldable pub ◌+ℤ◌ : ℤ → ℤ → ℤ
a +ℤ b = sub_ℕ (pos_part a + pos_part b) (neg_part a + neg_part b)

unfoldable pub ◌-ℤ◌ : ℤ → ℤ → ℤ
a -ℤ b = sub_ℕ (pos_part a + neg_part b) (neg_part a + pos_part b)

pub add-pos : (a b : ℕ) → pos a +ℤ pos b ≡ pos (b + a)
unfolding ◌+ℤ◌
add-pos a b = ground arith

pub sub-pos : (a b : ℕ) → pos (a + b) -ℤ pos b ≡ pos a
unfolding ◌-ℤ◌
sub-pos a b = ground arith

-- The test `rc != 0` of an `int`.
abbrev pub is_zero : ℤ → Bool
is_zero (pos zero) = true
is_zero (pos (suc n)) = false
is_zero (negsuc n) = false

-- Return codes: success, and the negated error numbers.
abbrev pub ok : ℤ
ok = pos 0

-- -EINVAL
abbrev pub einval : ℤ
einval = negsuc 21

-- -ENOMEM
abbrev pub enomem : ℤ
enomem = negsuc 11

-- -ENOSPC
abbrev pub enospc : ℤ
enospc = negsuc 27
