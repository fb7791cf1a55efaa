-- ===== src/Hash.antt =====
-- src/pointless_hash.c: the 32-bit hashes of strings, integers, vectors and values. The hash of a
-- float is a parameter, and so is what the reader finds on the heap under a value's data.
pub mod Text
pub mod Numbers
use py_pointless.Base.{
  ℕ, zero, suc, ◌+◌, ◌-◌, ◌*◌, ◌%◌, ◌^◌, Bool, true, false, Option, none, some, List, [], ◌∷◌, ltb,
  ◌==◌, if◌then◌else◌, u32 as to_u32, uint32_max, bit_xor, shl, length,
}
use py_pointless.BitUtils.{Bytes}
use py_pointless.BitVector.{hash_32}
use py_pointless.Value.{
  Tag, Value, vector_value, vector_value_hashable, vector_i8, vector_u8, vector_i16, vector_u16,
  vector_i32, vector_u32, vector_i64, vector_u64, vector_float, set_value, map_value_value,
  empty_slot, unknown, i32, u32, i64, u64, float, boolean, null, unicode, string, bitvector,
  bitvector_0, bitvector_1, bitvector_01, bitvector_10, bitvector_packed,
}

-- One unit of `PYTHON_STRING_HASH_32`
abbrev pub mix : ℕ → ℕ → ℕ
mix x c = bit_xor (to_u32 (1000003 * x)) (to_u32 c)

-- The loop up to the zero; `none` is a read past the end of the memory.
unfoldable pub hash_units : List ℕ → ℕ → ℕ → Option ℕ
hash_units [] x n = none
hash_units (c ∷ s) x n = elim (c == 0) [
  | true ↦ some (to_u32 (bit_xor x n))
  | false ↦ hash_units s (mix x c) (n + 1)
]

-- `PYTHON_STRING_HASH_32`, for every width of a unit
unfoldable pub hash_string : List ℕ → Option ℕ
unfolding hash_units
hash_string [] = none
hash_string (c ∷ s) = hash_units (c ∷ s) (to_u32 (shl (to_u32 c) 7)) 0

-- The loop over `left` units
pub hash_n_units : List ℕ → ℕ → ℕ → ℕ → Option ℕ
hash_n_units s zero x n = some (to_u32 (bit_xor x n))
hash_n_units [] (suc left) x n = none
hash_n_units (c ∷ s) (suc left) x n = hash_n_units s left (mix x c) (n + 1)

-- `PYTHON_STRING_HASH_32_`
unfoldable pub hash_string_n : List ℕ → ℕ → Option ℕ
unfolding hash_n_units
hash_string_n [] n = none
hash_string_n (c ∷ s) n = hash_n_units (c ∷ s) n (to_u32 (shl (to_u32 c) 7)) 0

-- The bit pattern of an integer of `w` bits, cast to `int32_t` and `uint32_t`
abbrev pub as_i32 : ℕ → ℕ → ℕ
as_i32 w v = if ltb (v + v) (2 ^ w) then v else v + 2 ^ 32 - 2 ^ w

-- Integers are their bit patterns.
pub hash_i32 : ℕ → ℕ
hash_i32 v = v

pub hash_u32 : ℕ → ℕ
hash_u32 v = v

unfoldable pub hash_i64 : ℕ → ℕ
hash_i64 v = v % uint32_max

pub hash_u64 : ℕ → ℕ
hash_u64 v = v % uint32_max

-- `pointless_vector_hash_state_32_t`
pub record VectorHash : Type 0 where
  pub mult : ℕ
  pub x : ℕ
  pub len : ℕ

pub vector_hash_init : ℕ → VectorHash
vector_hash_init len = record { mult = 1000003; x = 0x345678; len = len }

pub vector_hash_next : VectorHash → ℕ → VectorHash
vector_hash_next state hash = record state {
  x = to_u32 (bit_xor state.x hash * state.mult);
  mult = to_u32 (state.mult + (82520 + state.len + state.len));
}

pub vector_hash_end : VectorHash → ℕ
vector_hash_end state = to_u32 (state.x + 97531)

-- An item of a vector: a value, or the bit pattern of a number of the vector's width
pub data Element : Type 0 where
  value_item : Value → Element
  raw_item : ℕ → Element

module _ (hash_value : Value → Option ℕ) (hash_float : ℕ → ℕ) where
  -- `none`: the assertion on the type fails, or the item is not of the vector's type.
  pub element_hash : Tag → Element → Option ℕ
  unfolding hash_i32 hash_u32
  element_hash vector_value_hashable (value_item v) = hash_value v
  element_hash vector_i8 (raw_item v) = some (hash_i32 (as_i32 8 v))
  element_hash vector_u8 (raw_item v) = some (hash_u32 v)
  element_hash vector_i16 (raw_item v) = some (hash_i32 (as_i32 16 v))
  element_hash vector_u16 (raw_item v) = some (hash_u32 v)
  element_hash vector_i32 (raw_item v) = some (hash_i32 v)
  element_hash vector_u32 (raw_item v) = some (hash_u32 v)
  element_hash vector_i64 (raw_item v) = some (hash_i32 (to_u32 v))
  element_hash vector_u64 (raw_item v) = some (hash_u32 (to_u32 v))
  element_hash vector_float (raw_item v) = some (hash_float v)
  element_hash _ _ = none

  -- The loop over the items
  pub hash_items : Tag → List Element → VectorHash → Option ℕ
  unfolding element_hash vector_hash_next vector_hash_end
  hash_items t [] state = some (vector_hash_end state)
  hash_items t (e ∷ items) state = elim (element_hash t e) [
    | none ↦ none
    | some h ↦ hash_items t items (vector_hash_next state h)
  ]

  -- `pointless_hash_reader_vector_32_priv`
  pub hash_vector : Tag → List Element → Option ℕ
  unfolding hash_items vector_hash_init
  hash_vector t items = hash_items t items (vector_hash_init (length items))

-- Which types have a hash function
unfoldable pub is_hashable : Tag → Bool
is_hashable vector_value = false
is_hashable set_value = false
is_hashable map_value_value = false
is_hashable i64 = false
is_hashable u64 = false
is_hashable (unknown _) = false
is_hashable _ = true

-- `pointless_hash_int_32`. `none`: the assertion on the type fails.
pub hash_int : Tag → ℕ → Option ℕ
unfolding hash_i32 hash_u32
hash_int i32 v = some (hash_i32 v)
hash_int u32 v = some (hash_u32 v)
hash_int boolean v = some (hash_u32 v)
hash_int _ v = none

-- What the reader returns for the data of a value: the memory of a string, the buffer of a
-- bitvector, the items of a vector
pub record Contents : Type 0 where
  pub string_at : ℕ → List ℕ
  pub bitvector_at : ℕ → Bytes
  pub items_at : Tag → ℕ → List Element

module _ (p : Contents) (hash_float : ℕ → ℕ) where
  -- The functions that `pointless_hash_reader_func_32` selects, with the hash of the items of a
  -- vector in `hash_inner`
  pub hash_by_type : (Value → Option ℕ) → Tag → ℕ → Option ℕ
  unfolding hash_string hash_int hash_vector
  hash_by_type hash_inner unicode v = hash_string (p.string_at v)
  hash_by_type hash_inner string v = hash_string (p.string_at v)
  hash_by_type hash_inner i32 v = hash_int i32 v
  hash_by_type hash_inner u32 v = hash_int u32 v
  hash_by_type hash_inner boolean v = hash_int boolean v
  hash_by_type hash_inner float v = some (hash_float v)
  hash_by_type hash_inner bitvector v = hash_32 bitvector v (p.bitvector_at v)
  hash_by_type hash_inner bitvector_0 v = hash_32 bitvector_0 v (p.bitvector_at v)
  hash_by_type hash_inner bitvector_1 v = hash_32 bitvector_1 v (p.bitvector_at v)
  hash_by_type hash_inner bitvector_01 v = hash_32 bitvector_01 v (p.bitvector_at v)
  hash_by_type hash_inner bitvector_10 v = hash_32 bitvector_10 v (p.bitvector_at v)
  hash_by_type hash_inner bitvector_packed v = hash_32 bitvector_packed v (p.bitvector_at v)
  hash_by_type hash_inner null v = some 0
  hash_by_type hash_inner empty_slot v = some 0
  hash_by_type hash_inner vector_value v = none
  hash_by_type hash_inner set_value v = none
  hash_by_type hash_inner map_value_value v = none
  hash_by_type hash_inner i64 v = none
  hash_by_type hash_inner u64 v = none
  hash_by_type hash_inner (unknown _) v = none
  hash_by_type hash_inner t v = hash_vector hash_inner hash_float t (p.items_at t v)

  -- `pointless_hash_reader_32`, with fuel for the depth of the value. `none`: the assertion that
  -- the type is hashable fails, or the fuel ran out.
  pub hash_value : ℕ → Value → Option ℕ
  unfolding hash_by_type
  hash_value zero v = none
  hash_value (suc fuel) v = hash_by_type (hash_value fuel) v.tag v.data_u32
