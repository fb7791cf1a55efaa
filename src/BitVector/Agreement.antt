-- ===== src/BitVector/Agreement.antt =====
-- Comparison and hashing agree: what compares as the same has the same hash.
use mathlib.Core.Path.{subst}
use py_pointless.Base.{ℕ, ◌<◌, ◌≡◌, sym, ◌∙◌, arith, some}
use py_pointless.BitUtils.{Bytes, is_set}
use py_pointless.Value.{Tag}
use py_pointless.BitVector.{
  same, cmp_buffer_bits, n_bits, bit_is_set, is_set_bits, hash_32, hash_64, hash_32_priv,
  hash_64_priv, hash_n_bits_bits_32, hash_n_bits_bits_64,
}
use py_pointless.BitVector.Compare.{
  cmp_buffer_bits-lexicographic, lexicographic-same, length_of, bits_of_equal, bits_in, raw_bits,
}
use py_pointless.BitVector.Hashing.{same_hash_loop}

module _ (t : Tag) (v : ℕ) (buffer : Bytes) (n : ℕ) (bits : Bytes) where
  same_as_raw :
      cmp_buffer_bits t v buffer n bits ≡ same
      → (n_bits t v buffer ≡ n)
        × ((i : ℕ) → i < n_bits t v buffer → bit_is_set t v buffer i ≡ is_set bits i)
  same_as_raw e =
      let alike : bits_in t v buffer ≡ raw_bits n bits =
        lexicographic-same _ _ (sym (cmp_buffer_bits-lexicographic t v buffer n bits) ∙ e) in
      let lengths : n_bits t v buffer ≡ n = length_of _ _ _ _ 0 0 alike in
      (
        lengths,
        λ i. λ h.
            bits_of_equal (bit_is_set t v buffer) (is_set bits) (n_bits t v buffer) 0 i
              (subst (λ m. bits_in t v buffer ≡ raw_bits m bits) (sym lengths) alike) (omega arith)
              (omega arith),
      )

  -- If a bitvector, in any representation, compares as the same as the bits of a buffer in
  -- memory, then both have the same hash, of 32 and of 64 bits.
  pub cmp_buffer_bits-hash :
      cmp_buffer_bits t v buffer n bits ≡ same
      → ((h : ℕ) × (hash_32 t v buffer ≡ some h) × (hash_n_bits_bits_32 n bits ≡ some h))
        × ((h : ℕ) × (hash_64 t v buffer ≡ some h) × (hash_n_bits_bits_64 n bits ≡ some h))
  unfolding hash_32 hash_32_priv hash_64 hash_64_priv hash_n_bits_bits_32 hash_n_bits_bits_64
      is_set_bits bit_is_set
  cmp_buffer_bits-hash e =
      let (lengths, alike) = same_as_raw e in
      (same_hash_loop 32 _ _ _ n lengths alike, same_hash_loop 64 _ _ _ n lengths alike)
