-- ===== src/Create.antt =====
-- src/pointless_create.c: how the bits of a bitvector become a value. Those that fit into the 32
-- bits of a value are compressed into it; for the others the heap is used, which is not modelled.
pub mod Cache
pub mod Packing
pub mod Compression
pub mod Vectors
use py_pointless.Base.{
  ℕ, zero, suc, ◌+◌, ◌*◌, ◌^◌, Bool, true, false, Option, some, none, ltb, leb, if◌then◌else◌,
}
use py_pointless.BitUtils.{Bytes, is_set, bm_set}
use py_pointless.Value.{
  Value, Tag, bitvector_0, bitvector_1, bitvector_01, bitvector_10, bitvector_packed,
}
use py_pointless.BitVector.{word_bytes}

-- `uint32_t` in memory, little-endian
abbrev pub read_u32 : Bytes → ℕ
read_u32 mem = mem 0 + 256 * mem 1 + 65536 * mem 2 + 16777216 * mem 3

pub all_from : (ℕ → Bool) → ℕ → ℕ → Bool
all_from test zero i = true
all_from test (suc left) i = elim (test i) [ true ↦ all_from test left (i + 1) | false ↦ false ]

pub none_from : (ℕ → Bool) → ℕ → ℕ → Bool
none_from test zero i = true
none_from test (suc left) i = elim (test i) [ true ↦ false | false ↦ none_from test left (i + 1) ]

pub is_all_1 : Bytes → ℕ → Bool
unfolding all_from
is_all_1 v n_bits = all_from (is_set v) n_bits 0

pub is_all_0 : Bytes → ℕ → Bool
unfolding none_from
is_all_0 v n_bits = none_from (is_set v) n_bits 0

-- The runs of two values: the counts `n_a` of bits for which `first` holds, and `n_b` of the
-- others, which come behind.
pub runs : (ℕ → Bool) → ℕ → ℕ → ℕ → ℕ → Option (ℕ × ℕ)
runs first zero i n_a n_b = some (n_a, n_b)
runs first (suc left) i n_a n_b = elim (first i) [
  | false ↦ runs first left (i + 1) n_a (n_b + 1)
  | true ↦ elim (ltb 0 n_b) [ true ↦ none | false ↦ runs first left (i + 1) (n_a + 1) n_b ]
]

abbrev pub negated : (ℕ → Bool) → ℕ → Bool
negated test i = if test i then false else true

pub is_01 : Bytes → ℕ → Option (ℕ × ℕ)
unfolding runs
is_01 v n_bits = runs (negated (is_set v)) n_bits 0 0 0

pub is_10 : Bytes → ℕ → Option (ℕ × ℕ)
unfolding runs
is_10 v n_bits = runs (is_set v) n_bits 0 0 0

-- The bits are set behind the length, which takes the five lowest bits of the value.
pub pack : (ℕ → Bool) → ℕ → ℕ → Bytes → Bytes
pack test zero i mem = mem
pack test (suc left) i mem = pack test left (i + 1) (if test i then bm_set mem (i + 5) else mem)

pub packed : Bytes → ℕ → ℕ
unfolding pack
packed v n_bits = read_u32 (pack (is_set v) n_bits 0 (word_bytes n_bits))

-- Both counts have to fit into 16 bits.
pub two_runs : ℕ × ℕ → Option ℕ
two_runs (n_bits_a, n_bits_b) =
    if ltb n_bits_a (2 ^ 16)
    then if ltb n_bits_b (2 ^ 16) then some (n_bits_a + 2 ^ 16 * n_bits_b) else none
    else none

pub as_value : Tag → Option ℕ → Option Value
as_value t none = none
as_value t (some bits) = some (record { tag = t; data_u32 = bits })

pub either_runs : Option (ℕ × ℕ) → Option (ℕ × ℕ) → Option Value
unfolding two_runs as_value
either_runs (some counts) _ = as_value bitvector_01 (two_runs counts)
either_runs none (some counts) = as_value bitvector_10 (two_runs counts)
either_runs none none = none

-- The value that holds the bits. `none`: they go to the heap.
unfoldable pub compress : Bytes → ℕ → Option Value
unfolding is_all_0 is_all_1 is_01 is_10 packed either_runs
compress v n_bits =
    if is_all_0 v n_bits
    then some (record { tag = bitvector_0; data_u32 = n_bits })
    else if is_all_1 v n_bits
    then some (record { tag = bitvector_1; data_u32 = n_bits })
    else if leb n_bits 27
    then some (record { tag = bitvector_packed; data_u32 = packed v n_bits })
    else either_runs (is_01 v n_bits) (is_10 v n_bits)
