-- ===== src/Base/Int.antt =====
-- The signed integers that a bit pattern stands for, and their order.
use py_pointless.Base.Tests.{ltb, if◌then◌else◌}
use Prim.Native.Nat.{ℕ, ◌+◌, ◌-◌, ◌^◌}
use mathlib.Core.Bool.{Bool, true, false}

-- `negsuc n` is -(n + 1).
pub data ℤ : Type 0 where
  pos negsuc : ℕ → ℤ

-- The integer of a `w`-bit pattern in two's complement
abbrev pub signed : ℕ → ℕ → ℤ
signed w v = if ltb (v + v) (2 ^ w) then pos v else negsuc (2 ^ w - 1 - v)

-- The `w`-bit pattern of an integer
abbrev pub pattern_of : ℕ → ℤ → ℕ
pattern_of w (pos n) = n
pattern_of w (negsuc n) = 2 ^ w - 1 - n

abbrev pub is_negative : ℤ → Bool
is_negative (pos n) = false
is_negative (negsuc n) = true
