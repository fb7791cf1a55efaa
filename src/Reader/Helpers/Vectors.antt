-- ===== src/Reader/Helpers/Vectors.antt =====
-- src/pointless_reader_helpers.c: the lookups of a string whose value must have a given type. A
-- vector is returned as the address of its items, 0 where it is empty, and their number.
use py_pointless.Base.{ℕ, Bool, true, false, ◌&&◌, ◌||◌, List, ◌==◌, if◌then◌else◌}
use py_pointless.Cmp.Reader.{type_code}
use py_pointless.Reader.{Pointless}
use py_pointless.Reader.Items.{vector_n_items, items_ptr}
use py_pointless.Reader.Tables.{
  Found, found, missing, not_hashable, cmp_error, bad_access, endless, given, is_map_values,
}
use py_pointless.Reader.Helpers.{get_mapping_string_to_value}
use py_pointless.Value.{
  Tag, Value, vector_i8, vector_u8, vector_i16, vector_u16, vector_i32, vector_u32, vector_i64,
  vector_u64, vector_float, vector_empty, set_value, map_value_value,
}

-- What is done with a value where the lookup returned 1
abbrev pub with_found : {A B : Type 0} → Found A → (A → Found B) → Found B
with_found (found a) k = k a
with_found missing k = missing
with_found not_hashable k = not_hashable
with_found cmp_error k = cmp_error
with_found bad_access k = bad_access
with_found endless k = endless

abbrev pub is_empty_vector : Tag → Bool
is_empty_vector vector_empty = true
is_empty_vector _ = false

-- The vectors of numbers, without the empty one
abbrev pub is_raw_vector : Tag → Bool
is_raw_vector vector_i8 = true
is_raw_vector vector_u8 = true
is_raw_vector vector_i16 = true
is_raw_vector vector_u16 = true
is_raw_vector vector_i32 = true
is_raw_vector vector_u32 = true
is_raw_vector vector_i64 = true
is_raw_vector vector_u64 = true
is_raw_vector vector_float = true
is_raw_vector _ = false

unfoldable pub has_type : Tag → Tag → Bool
unfolding type_code
has_type t u = type_code t == type_code u

-- The address of the items of a vector and their number
unfoldable pub items_of : Pointless → Tag → ℕ → Found (ℕ × ℕ)
unfolding items_ptr vector_n_items
items_of p t v = given (items_ptr p t v) (λ a. given (vector_n_items p t v) (λ n. found (a, n)))

-- `pointless_get_mapping_string_to_vector_`, on the value of the key
unfoldable pub vector_of_type : Pointless → Tag → Value → Found (ℕ × ℕ)
unfolding items_of has_type
vector_of_type p t v =
    if is_empty_vector v.tag
    then found (0, 0)
    else if has_type v.tag t && is_raw_vector v.tag
    then items_of p v.tag v.data_u32
    else missing

-- `pointless_get_mapping_string_to_vector`, on the value of the key: the value and its number of
-- items
unfoldable pub any_raw_vector : Pointless → Value → Found (Value × ℕ)
unfolding vector_n_items
any_raw_vector p v =
    if is_empty_vector v.tag || is_raw_vector v.tag
    then given (vector_n_items p v.tag v.data_u32) (λ n. found (v, n))
    else missing

unfoldable pub value_vector : Pointless → Value → Found (ℕ × ℕ)
unfolding items_of
value_vector p v =
    if is_empty_vector v.tag
    then found (0, 0)
    else if is_map_values v.tag
    then items_of p v.tag v.data_u32
    else missing

unfoldable pub value_of_type : Tag → Value → Found Value
unfolding has_type
value_of_type t v = if has_type v.tag t then found v else missing

-- The lookups in the map with tag `t` and data `v`
module _ (p : Pointless) (t : Tag) (v : ℕ) where
  -- `pointless_get_mapping_string_to_vector_`
  pub get_mapping_string_to_vector_of : List ℕ → Tag → Found (ℕ × ℕ)
  unfolding get_mapping_string_to_value vector_of_type
  get_mapping_string_to_vector_of key u =
      with_found (get_mapping_string_to_value p t v key) (vector_of_type p u)

  pub get_mapping_string_to_vector : List ℕ → Found (Value × ℕ)
  unfolding get_mapping_string_to_value any_raw_vector
  get_mapping_string_to_vector key =
      with_found (get_mapping_string_to_value p t v key) (any_raw_vector p)

  pub get_mapping_string_to_vector_i8 : List ℕ → Found (ℕ × ℕ)
  unfolding get_mapping_string_to_vector_of
  get_mapping_string_to_vector_i8 key = get_mapping_string_to_vector_of key vector_i8

  pub get_mapping_string_to_vector_u8 : List ℕ → Found (ℕ × ℕ)
  unfolding get_mapping_string_to_vector_of
  get_mapping_string_to_vector_u8 key = get_mapping_string_to_vector_of key vector_u8

  pub get_mapping_string_to_vector_i16 : List ℕ → Found (ℕ × ℕ)
  unfolding get_mapping_string_to_vector_of
  get_mapping_string_to_vector_i16 key = get_mapping_string_to_vector_of key vector_i16

  pub get_mapping_string_to_vector_u16 : List ℕ → Found (ℕ × ℕ)
  unfolding get_mapping_string_to_vector_of
  get_mapping_string_to_vector_u16 key = get_mapping_string_to_vector_of key vector_u16

  pub get_mapping_string_to_vector_i32 : List ℕ → Found (ℕ × ℕ)
  unfolding get_mapping_string_to_vector_of
  get_mapping_string_to_vector_i32 key = get_mapping_string_to_vector_of key vector_i32

  pub get_mapping_string_to_vector_u32 : List ℕ → Found (ℕ × ℕ)
  unfolding get_mapping_string_to_vector_of
  get_mapping_string_to_vector_u32 key = get_mapping_string_to_vector_of key vector_u32

  pub get_mapping_string_to_vector_i64 : List ℕ → Found (ℕ × ℕ)
  unfolding get_mapping_string_to_vector_of
  get_mapping_string_to_vector_i64 key = get_mapping_string_to_vector_of key vector_i64

  pub get_mapping_string_to_vector_u64 : List ℕ → Found (ℕ × ℕ)
  unfolding get_mapping_string_to_vector_of
  get_mapping_string_to_vector_u64 key = get_mapping_string_to_vector_of key vector_u64

  pub get_mapping_string_to_vector_float : List ℕ → Found (ℕ × ℕ)
  unfolding get_mapping_string_to_vector_of
  get_mapping_string_to_vector_float key = get_mapping_string_to_vector_of key vector_float

  pub get_mapping_string_to_vector_value : List ℕ → Found (ℕ × ℕ)
  unfolding get_mapping_string_to_value value_vector
  get_mapping_string_to_vector_value key =
      with_found (get_mapping_string_to_value p t v key) (value_vector p)

  pub get_mapping_string_to_value_type : List ℕ → Tag → Found Value
  unfolding get_mapping_string_to_value value_of_type
  get_mapping_string_to_value_type key u =
      with_found (get_mapping_string_to_value p t v key) (value_of_type u)

  pub get_mapping_string_to_set : List ℕ → Found Value
  unfolding get_mapping_string_to_value_type
  get_mapping_string_to_set key = get_mapping_string_to_value_type key set_value

  pub get_mapping_string_to_map : List ℕ → Found Value
  unfolding get_mapping_string_to_value_type
  get_mapping_string_to_map key = get_mapping_string_to_value_type key map_value_value
