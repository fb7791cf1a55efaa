-- ===== src/BitVector.antt =====
-- src/pointless_bitvector.c: bitvectors, most of them compressed into the 32 bits of their value.
-- A buffer is the length in four bytes, little-endian, and the bits. Where the source asserts that
-- a type is one of a bitvector, the model has the value that is returned after the assertion.
pub mod Hashing
pub mod Compare
pub mod Agreement
pub mod AnySet
use py_pointless.Base.{
  ℕ, zero, suc, ◌+◌, ◌-◌, ◌*◌, ◌/◌, ◌%◌, ◌^◌, Bool, true, false, not, Option, some, none, ltb, leb,
  ◌==◌, if◌then◌else◌, u8, u32, bit_or,
}
use py_pointless.BitUtils.{Bytes, is_set}
use py_pointless.Value.{
  Tag, bitvector, bitvector_0, bitvector_1, bitvector_01, bitvector_10, bitvector_packed, n_bits_a,
  n_bits_b, packed_n_bits,
}

-- The bytes of a `uint32_t` in memory
unfoldable pub word_bytes : ℕ → Bytes
word_bytes v j = v / 256 ^ j % 256

unfoldable pub is_set_bits : Tag → ℕ → Bytes → ℕ → Bool
unfolding is_set
is_set_bits bitvector v bits bit = is_set bits bit
is_set_bits bitvector_0 v bits bit = false
is_set_bits bitvector_1 v bits bit = true
is_set_bits bitvector_01 v bits bit = leb (n_bits_a v) bit
is_set_bits bitvector_10 v bits bit = ltb bit (n_bits_a v)
is_set_bits bitvector_packed v bits bit = is_set (word_bytes v) (bit + 5)
is_set_bits _ v bits bit = false

unfoldable pub n_bits : Tag → ℕ → Bytes → ℕ
n_bits bitvector v buffer = buffer 0 + 256 * buffer 1 + 65536 * buffer 2 + 16777216 * buffer 3
n_bits bitvector_0 v buffer = v
n_bits bitvector_1 v buffer = v
n_bits bitvector_01 v buffer = n_bits_a v + n_bits_b v
n_bits bitvector_10 v buffer = n_bits_a v + n_bits_b v
n_bits bitvector_packed v buffer = packed_n_bits v
n_bits _ v buffer = 0

-- `pointless_bitvector_bits`: behind the length
abbrev pub bits_of : Bytes → Bytes
bits_of buffer j = buffer (j + 4)

abbrev pub bits_at : Tag → Bytes → Bytes
bits_at bitvector buffer = bits_of buffer
bits_at _ buffer = buffer

unfoldable pub bit_is_set : Tag → ℕ → Bytes → ℕ → Bool
unfolding is_set_bits
bit_is_set t v buffer bit = is_set_bits t v (bits_at t buffer) bit

any_below : (ℕ → Bool) → ℕ → ℕ → Bool
any_below test zero i = false
any_below test (suc left) i = elim (test i) [ true ↦ true | false ↦ any_below test left (i + 1) ]

-- The loop tests `bits`, which is also where the length is read.
pub is_any_set : Tag → ℕ → Bytes → Bool
unfolding any_below
is_any_set bitvector_0 v bits = false
is_any_set bitvector_1 v bits = ltb 0 v
is_any_set bitvector_01 v bits = ltb 0 (n_bits_b v)
is_any_set bitvector_10 v bits = ltb 0 (n_bits_a v)
is_any_set t v bits = any_below (is_set_bits t v bits) (n_bits t v bits) 0

-- The inner loop of the hashes: up to eight bits, from bit `i` on, into `b` from digit `j` on
pub gather : (ℕ → Bool) → ℕ → ℕ → ℕ → ℕ → ℕ → ℕ × ℕ
gather test n zero j i b = (b, i)
gather test n (suc left) j i b = elim (ltb i n) [
  | true ↦ gather test n left (j + 1) (i + 1) (if test i then bit_or b (2 ^ j) else b)
  | false ↦ (b, i)
]

-- The outer loop, on words of `2 ^ w`. `none`: the fuel ran out.
pub hash_loop : ℕ → (ℕ → Bool) → ℕ → ℕ → ℕ → ℕ → Option ℕ
hash_loop w test n zero i h = none
hash_loop w test n (suc fuel) i h = elim (ltb i n) [
  | false ↦ some h
  | true ↦
      let (b, i') = gather test n 8 0 i 0 in
      hash_loop w test n fuel i' ((h * 1000000001 + b) % 2 ^ w)
]

pub hash_32_priv : Tag → ℕ → ℕ → Bytes → Option ℕ
hash_32_priv t v n bits = hash_loop 32 (is_set_bits t v bits) n (n + 1) 0 1

pub hash_64_priv : Tag → ℕ → ℕ → Bytes → Option ℕ
hash_64_priv t v n bits = hash_loop 64 (is_set_bits t v bits) n (n + 1) 0 1

pub hash_32 : Tag → ℕ → Bytes → Option ℕ
unfolding hash_32_priv
hash_32 t v buffer = hash_32_priv t v (n_bits t v buffer) (bits_at t buffer)

pub hash_64 : Tag → ℕ → Bytes → Option ℕ
unfolding hash_64_priv
hash_64 t v buffer = hash_64_priv t v (n_bits t v buffer) (bits_at t buffer)

-- What `SIMPLE_CMP` gives: -1, 0 or 1
pub data Sign : Type 0 where
  less same more : Sign

unfoldable pub simple_cmp : ℕ → ℕ → Sign
simple_cmp a b = if a == b then same else if ltb a b then less else more

abbrev pub to_nat : Bool → ℕ
to_nat true = 1
to_nat false = 0

-- The three comparisons have this loop, over the bits of each side.
pub cmp_loop : (ℕ → Bool) → (ℕ → Bool) → ℕ → ℕ → Sign → Sign
unfolding simple_cmp
cmp_loop ba bb zero i rest = rest
cmp_loop ba bb (suc left) i rest =
    if to_nat (ba i) == to_nat (bb i)
    then cmp_loop ba bb left (i + 1) rest
    else simple_cmp (to_nat (ba i)) (to_nat (bb i))

pub cmp_bits : (ℕ → Bool) → ℕ → (ℕ → Bool) → ℕ → Sign
unfolding cmp_loop
cmp_bits ba na bb nb = cmp_loop ba bb (if ltb na nb then na else nb) 0 (simple_cmp na nb)

-- The bits of `b` are read under the type of `a`.
unfoldable pub cmp_buffer_buffer : Tag → ℕ → Bytes → Tag → ℕ → Bytes → Sign
unfolding cmp_bits
cmp_buffer_buffer t_a v_a buffer_a t_b v_b buffer_b =
    cmp_bits (bit_is_set t_a v_a buffer_a) (n_bits t_a v_a buffer_a) (bit_is_set t_a v_b buffer_b)
      (n_bits t_b v_b buffer_b)

pub cmp_bits_buffer : ℕ → Bytes → Tag → ℕ → Bytes → Sign
unfolding cmp_bits
cmp_bits_buffer n_bits_a bits_a t_b v_b buffer_b =
    cmp_bits (is_set bits_a) n_bits_a (bit_is_set t_b v_b buffer_b) (n_bits t_b v_b buffer_b)

unfoldable pub cmp_buffer_bits : Tag → ℕ → Bytes → ℕ → Bytes → Sign
unfolding cmp_bits
cmp_buffer_bits t_a v_a buffer_a n_bits_b bits_b =
    cmp_bits (bit_is_set t_a v_a buffer_a) (n_bits t_a v_a buffer_a) (is_set bits_b) n_bits_b

pub cmp_buffer : Bytes → Bytes → Sign
unfolding cmp_buffer_buffer
cmp_buffer a b = cmp_buffer_buffer bitvector 0 a bitvector 0 b

pub hash_buffer_32 : Bytes → Option ℕ
unfolding hash_32_priv
hash_buffer_32 buffer = hash_32_priv bitvector 0 (n_bits bitvector 0 buffer) (bits_of buffer)

pub hash_buffer_64 : Bytes → Option ℕ
unfolding hash_64_priv
hash_buffer_64 buffer = hash_64_priv bitvector 0 (n_bits bitvector 0 buffer) (bits_of buffer)

pub hash_n_bits_bits_32 : ℕ → Bytes → Option ℕ
unfolding hash_32_priv
hash_n_bits_bits_32 n bits = hash_32_priv bitvector 0 n bits

pub hash_n_bits_bits_64 : ℕ → Bytes → Option ℕ
unfolding hash_64_priv
hash_n_bits_bits_64 n bits = hash_64_priv bitvector 0 n bits
