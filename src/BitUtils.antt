-- ===== src/BitUtils.antt =====
-- src/bitutils.c: single bits of a byte array. Memory is a function from offsets to bytes; its
-- bounds are the callers' concern.
pub mod Laws
use py_pointless.Base.{
  ℕ, ◌+◌, ◌-◌, ◌/◌, ◌%◌, ◌^◌, Bool, not, bit_and, bit_or, u8, ◌==◌, if◌then◌else◌,
}

abbrev pub Bytes : Type 0
Bytes = ℕ → ℕ

abbrev pub write : Bytes → ℕ → ℕ → Bytes
write mem i byte j = if i == j then byte else mem j

unfoldable pub bm_set : Bytes → ℕ → Bytes
bm_set mem bit = write mem (bit / 8) (u8 (bit_or (mem (bit / 8)) (2 ^ (bit % 8))))

-- `~` on `int` is the complement to 2 ^ 32 - 1 on its bit pattern.
pub bm_reset : Bytes → ℕ → Bytes
bm_reset mem bit = write mem (bit / 8) (u8 (bit_and (mem (bit / 8)) (2 ^ 32 - 1 - 2 ^ (bit % 8))))

pub bm_is_set : Bytes → ℕ → ℕ
bm_is_set mem bit = bit_and (mem (bit / 8)) (2 ^ (bit % 8))

-- `bm_is_set_(mem, bit) != 0`
unfoldable pub is_set : Bytes → ℕ → Bool
unfolding bm_is_set
is_set mem bit = not (bm_is_set mem bit == 0)
