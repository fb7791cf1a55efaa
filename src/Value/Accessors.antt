-- ===== src/Value/Accessors.antt =====
-- src/pointless_value.c: the constructors of values and the reads of their numbers. A float is its
-- bit pattern, a signed integer its pattern in two's complement; a failed assertion is `none`.
pub mod Laws
use py_pointless.Base.{ℕ, ◌+◌, ◌%◌, ◌^◌, Bool, true, false, Option, some, none}
use py_pointless.Base.Int.{ℤ, pos, signed, pattern_of}
use py_pointless.Value.{
  Tag, Value, CompleteValue, i32, u32, i64, u64, float, boolean, null, empty_slot,
  value_to_complete,
}

-- `pointless_create_value_header_t`
pub record Header : Type 0 where
  pub type_29 : Tag
  pub is_compressed_vector : Bool
  pub is_set_map_vector : Bool
  pub is_outside_vector : Bool

-- `pointless_create_value_t`
pub record CreateValue : Type 0 where
  pub header : Header
  pub data_u32 : ℕ

-- `pointless_complete_create_value_t`
pub record CompleteCreateValue : Type 0 where
  pub header : Header
  pub data_u64 : ℕ

-- The header that every constructor writes
pub plain_header : Tag → Header
plain_header t = record {
  type_29 = t;
  is_compressed_vector = false;
  is_set_map_vector = false;
  is_outside_vector = false;
}

pub create_value : Tag → ℕ → CreateValue
unfolding plain_header
create_value t v = record { header = plain_header t; data_u32 = v }

pub create_i32 : ℤ → CreateValue
unfolding create_value
create_i32 v = create_value i32 (pattern_of 32 v)

pub create_u32 : ℕ → CreateValue
unfolding create_value
create_u32 v = create_value u32 v

pub create_float : ℕ → CreateValue
unfolding create_value
create_float v = create_value float v

pub create_bool_false : CreateValue
unfolding create_value
create_bool_false = create_value boolean 0

pub create_bool_true : CreateValue
unfolding create_value
create_bool_true = create_value boolean 1

pub create_null : CreateValue
unfolding create_value
create_null = create_value null 0

pub create_empty_slot : CreateValue
unfolding create_value
create_empty_slot = create_value empty_slot 0

unfoldable pub create_as_read_i32 : ℤ → Value
create_as_read_i32 v = record { tag = i32; data_u32 = pattern_of 32 v }

unfoldable pub create_as_read_u32 : ℕ → Value
create_as_read_u32 v = record { tag = u32; data_u32 = v }

unfoldable pub create_as_read_float : ℕ → Value
create_as_read_float v = record { tag = float; data_u32 = v }

unfoldable pub create_as_read_bool_false : Value
create_as_read_bool_false = record { tag = boolean; data_u32 = 0 }

unfoldable pub create_as_read_bool_true : Value
create_as_read_bool_true = record { tag = boolean; data_u32 = 1 }

pub create_as_read_null : Value
create_as_read_null = record { tag = null; data_u32 = 0 }

pub create_as_read_empty_slot : Value
create_as_read_empty_slot = record { tag = empty_slot; data_u32 = 0 }

-- `pointless_create_value_from_complete`
pub create_value_from_complete : CompleteCreateValue → Option CreateValue
create_value_from_complete a = shrunk a.header.type_29
  where
    shrunk : Tag → Option CreateValue
    shrunk i64 = none
    shrunk u64 = none
    shrunk _ = some (record { header = a.header; data_u32 = a.data_u64 % 2 ^ 32 })

pub create_value_to_complete : CreateValue → CompleteCreateValue
create_value_to_complete a = record { header = a.header; data_u64 = a.data_u32 }

pub complete_create_i32 : ℤ → CompleteCreateValue
unfolding create_value_to_complete create_i32
complete_create_i32 v = create_value_to_complete (create_i32 v)

pub complete_create_u32 : ℕ → CompleteCreateValue
unfolding create_value_to_complete create_u32
complete_create_u32 v = create_value_to_complete (create_u32 v)

pub complete_create_i64 : ℤ → CompleteCreateValue
unfolding plain_header
complete_create_i64 v = record { header = plain_header i64; data_u64 = pattern_of 64 v }

pub complete_create_u64 : ℕ → CompleteCreateValue
unfolding plain_header
complete_create_u64 v = record { header = plain_header u64; data_u64 = v }

pub complete_create_float : ℕ → CompleteCreateValue
unfolding create_value_to_complete create_float
complete_create_float v = create_value_to_complete (create_float v)

unfoldable pub complete_i32 : ℤ → CompleteValue
unfolding value_to_complete create_as_read_i32
complete_i32 v = value_to_complete (create_as_read_i32 v)

unfoldable pub complete_u32 : ℕ → CompleteValue
unfolding value_to_complete create_as_read_u32
complete_u32 v = value_to_complete (create_as_read_u32 v)

unfoldable pub complete_i64 : ℤ → CompleteValue
complete_i64 v = record { tag = i64; data_u64 = pattern_of 64 v }

unfoldable pub complete_u64 : ℕ → CompleteValue
complete_u64 v = record { tag = u64; data_u64 = v }

unfoldable pub complete_float : ℕ → CompleteValue
unfolding value_to_complete create_as_read_float
complete_float v = value_to_complete (create_as_read_float v)

pub complete_null : CompleteValue
unfolding value_to_complete create_as_read_null
complete_null = value_to_complete create_as_read_null

pub get_i32 : Tag → ℕ → Option ℤ
get_i32 i32 v = some (signed 32 v)
get_i32 _ v = none

unfoldable pub get_u32 : Tag → ℕ → Option ℕ
get_u32 u32 v = some v
get_u32 _ v = none

unfoldable pub get_float : Tag → ℕ → Option ℕ
get_float float v = some v
get_float _ v = none

unfoldable pub get_bool : Tag → ℕ → Option ℕ
get_bool boolean v = some v
get_bool _ v = none

-- `pointless_get_int_as_int64` and `pointless_create_get_int_as_int64`
unfoldable pub get_int_as_int64 : Tag → ℕ → Option ℤ
get_int_as_int64 i32 v = some (signed 32 v)
get_int_as_int64 u32 v = some (pos v)
get_int_as_int64 _ v = none

-- The reads of a complete value, of its 64 bits of data
pub complete_get_as_i64 : Tag → ℕ → Option ℤ
complete_get_as_i64 i32 v = some (signed 32 (v % 2 ^ 32))
complete_get_as_i64 boolean v = some (pos (v % 2 ^ 32))
complete_get_as_i64 i64 v = some (signed 64 v)
complete_get_as_i64 _ v = none

pub complete_get_as_u64 : Tag → ℕ → Option ℕ
complete_get_as_u64 u32 v = some (v % 2 ^ 32)
complete_get_as_u64 boolean v = some (v % 2 ^ 32)
complete_get_as_u64 u64 v = some v
complete_get_as_u64 _ v = none

pub complete_get_float : Tag → ℕ → Option ℕ
complete_get_float float v = some (v % 2 ^ 32)
complete_get_float _ v = none
