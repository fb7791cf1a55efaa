-- ===== src/Tests/BitVectors.antt =====
-- Bits in memory and bitvectors at concrete inputs.
use py_pointless.Base.{
  ℕ, ◌+◌, ◌*◌, ◌<◌, ◌≤◌, ◌≡◌, ◌≢◌, refl, none, some, arith, ◌==◌, if◌then◌else◌, zero, suc,
}
use py_pointless.BitUtils.{Bytes, is_set, bm_set}
use py_pointless.Value.{bitvector, bitvector_0, bitvector_packed}
use py_pointless.BitVector.{
  n_bits, bit_is_set, is_set_bits, hash_32, hash_64, hash_n_bits_bits_32, hash_n_bits_bits_64,
  cmp_buffer_bits, word_bytes,
}
use py_pointless.BitVector.Agreement.{cmp_buffer_bits-hash}
use py_pointless.Create.{compress}
use py_pointless.Create.Compression.{Holds, Maybe, compress-Holds}

-- The bits 1, 0, 1 and zeros behind them
abbrev five : Bytes
five j = if j == 0 then 5 else 0

-- A buffer with three bits, all zero
abbrev zeros : Bytes
zeros j = if j == 0 then 3 else 0

compress-Holds_example : Maybe (Holds five 3) (compress five 3) × (3 ≤ 27 → compress five 3 ≢ none)
compress-Holds_example = compress-Holds five 3

packed_word : compress five 3 ≡ some (record { tag = bitvector_packed; data_u32 = 3 + 32 * 5 })
unfolding compress is_set bm_set word_bytes
packed_word = refl

zeros_read : (i : ℕ) → i < 3 → bit_is_set bitvector_0 3 five i ≡ bit_is_set bitvector 0 zeros i
unfolding bit_is_set is_set_bits is_set
zeros_read zero h = refl
zeros_read (suc zero) h = refl
zeros_read (suc (suc zero)) h = refl
zeros_read (suc (suc (suc i))) h = absurd (omega arith)

cmp_buffer_bits-hash_example :
    ((h : ℕ) × (hash_32 bitvector_packed (3 + 32 * 5) zeros ≡ some h)
      × (hash_n_bits_bits_32 3 five ≡ some h))
    × ((h : ℕ) × (hash_64 bitvector_packed (3 + 32 * 5) zeros ≡ some h)
        × (hash_n_bits_bits_64 3 five ≡ some h))
unfolding n_bits bit_is_set is_set_bits is_set word_bytes cmp_buffer_bits
cmp_buffer_bits-hash_example = cmp_buffer_bits-hash bitvector_packed (3 + 32 * 5) zeros 3 five refl
