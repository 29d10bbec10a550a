-- ===== src/Common/Int.antt =====
-- Signed integers, for Go's `int` and `int64` where a negative value is tested for.
use Prim.Native.Nat.{ℕ}
use mathlib.Core.Bool.{Bool, true}
use lanos.Common.Tests.{nat_beq}

-- `negsuc n` is -(n + 1).
pub data ℤ : Type 0 where
  pos : ℕ → ℤ
  negsuc : ℕ → ℤ

abbrev pub pos_part : ℤ → ℕ
pos_part (pos n) = n
pos_part (negsuc n) = 0

-- `n <= 0`.
abbrev pub is_nonpos : ℤ → Bool
is_nonpos (pos n) = nat_beq n 0
is_nonpos (negsuc n) = true
