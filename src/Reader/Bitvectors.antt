-- ===== src/Reader/Bitvectors.antt =====
-- src/pointless_reader.c, the reads of bitvectors from an open file. A failed assertion and a read
-- past the end of the file are `none`.
use py_pointless.Base.{ℕ, ◌+◌, ◌/◌, Bool, Option, some, ltb, leb}
use py_pointless.BitUtils.{Bytes}
use py_pointless.BitVector.{n_bits, bit_is_set}
use py_pointless.Reader.{Pointless}
use py_pointless.Reader.Items.{after, aligned, heap_entry}
use py_pointless.Reader.Tables.{require}
use py_pointless.Value.{Tag, bitvector}

-- The bytes of a buffer, which is a null pointer where the bitvector is compressed, if `size` of
-- them are in the file
unfoldable pub buffer_within : Pointless → Tag → ℕ → ℕ → Option Bytes
unfolding heap_entry
buffer_within p bitvector v size =
    after (aligned (heap_entry p p.n_bitvector p.bitvector_offsets v))
      (λ a. require (leb (a + size) p.buflen) (some (λ j. p.buf (a + j))))
buffer_within p _ v size = some (λ _. 0)

-- `pointless_reader_bitvector_n_bits`
unfoldable pub bitvector_n_bits : Pointless → Tag → ℕ → Option ℕ
unfolding buffer_within n_bits
bitvector_n_bits p t v = after (buffer_within p t v 4) (λ buffer. some (n_bits t v buffer))

-- `pointless_reader_bitvector_is_set`
unfoldable pub bitvector_is_set : Pointless → Tag → ℕ → ℕ → Option Bool
unfolding bitvector_n_bits buffer_within bit_is_set
bitvector_is_set p t v bit = after (bitvector_n_bits p t v) (λ n.
    require (ltb bit n)
      (after (buffer_within p t v (5 + bit / 8)) (λ buffer. some (bit_is_set t v buffer bit))))
