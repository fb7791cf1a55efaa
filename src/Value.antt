-- ===== src/Value.antt =====
-- include/pointless/pointless_defs.h and src/pointless_value.c: the tags of values and their 32-bit
-- data. A union is its bit pattern, read little-endian, and a bit field is a part of the number.
pub mod Complete
pub mod Accessors
use py_pointless.Base.{
  ℕ, ◌+◌, ◌-◌, ◌*◌, ◌/◌, ◌%◌, ◌^◌, Bool, true, false, Option, some, none, ◌==◌, if◌then◌else◌,
}

-- The `POINTLESS_*` type codes; any other number is `unknown`.
pub data Tag : Type 0 where
  vector_value vector_value_hashable vector_i8 vector_u8 vector_i16 vector_u16 vector_i32 : Tag
  vector_u32 vector_i64 vector_u64 vector_float vector_empty : Tag
  unicode string : Tag
  bitvector bitvector_0 bitvector_1 bitvector_01 bitvector_10 bitvector_packed : Tag
  set_value map_value_value empty_slot : Tag
  i32 u32 float boolean null i64 u64 : Tag
  unknown : ℕ → Tag

-- `pointless_value_t`
pub record Value : Type 0 where
  pub tag : Tag
  pub data_u32 : ℕ

-- `pointless_complete_value_t`, with 64 bits of data
pub record CompleteValue : Type 0 where
  pub tag : Tag
  pub data_u64 : ℕ

-- `bitvector_01_or_10` and `bitvector_packed`
abbrev pub n_bits_a : ℕ → ℕ
n_bits_a v = v % 2 ^ 16

abbrev pub n_bits_b : ℕ → ℕ
n_bits_b v = v / 2 ^ 16

abbrev pub packed_n_bits : ℕ → ℕ
packed_n_bits v = v % 2 ^ 5

abbrev pub packed_bits : ℕ → ℕ
packed_bits v = v / 2 ^ 5

unfoldable pub is_vector_type : Tag → Bool
is_vector_type vector_value = true
is_vector_type vector_value_hashable = true
is_vector_type vector_i8 = true
is_vector_type vector_u8 = true
is_vector_type vector_i16 = true
is_vector_type vector_u16 = true
is_vector_type vector_i32 = true
is_vector_type vector_u32 = true
is_vector_type vector_i64 = true
is_vector_type vector_u64 = true
is_vector_type vector_float = true
is_vector_type vector_empty = true
is_vector_type _ = false

unfoldable pub is_integer_type : Tag → Bool
is_integer_type i32 = true
is_integer_type u32 = true
is_integer_type i64 = true
is_integer_type u64 = true
is_integer_type _ = false

unfoldable pub is_bitvector_type : Tag → Bool
is_bitvector_type bitvector = true
is_bitvector_type bitvector_0 = true
is_bitvector_type bitvector_1 = true
is_bitvector_type bitvector_01 = true
is_bitvector_type bitvector_10 = true
is_bitvector_type bitvector_packed = true
is_bitvector_type _ = false

-- `assert(a->type != POINTLESS_I64 && a->type != POINTLESS_U64)` fails: `none`
unfoldable pub value_from_complete : CompleteValue → Option Value
value_from_complete a = convert a.tag a
  where
    shrink : CompleteValue → Option Value
    shrink c = some (record { tag = c.tag; data_u32 = c.data_u64 % 2 ^ 32 })

    convert : Tag → CompleteValue → Option Value
    convert i64 c = none
    convert u64 c = none
    convert _ c = shrink c

unfoldable pub value_to_complete : Value → CompleteValue
value_to_complete a = record { tag = a.tag; data_u64 = a.data_u32 }
