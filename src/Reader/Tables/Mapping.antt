-- ===== src/Reader/Tables/Mapping.antt =====
-- src/pointless_reader_helpers.c: the search of an integer in the sets and maps of an open file.
use py_pointless.Base.{ℕ, Bool, false, ◌&&◌, ◌==◌, Option, none, some}
use py_pointless.Base.Int.{ℤ, pos, negsuc, pattern_of}
use py_pointless.Hash.{hash_i64}
use py_pointless.HashTable.{Table}
use py_pointless.HashTable.Search.{
  Searched, present, absent, bad_access as bad_search, out_of_rounds, search,
}
use py_pointless.Reader.{Pointless}
use py_pointless.Reader.Items.{
  after, value_item, items_ptr, vector_n_items, set_hash_vector, set_key_vector, map_hash_vector,
  map_key_vector, map_value_vector,
}
use py_pointless.Reader.Tables.{
  require, is_u32, is_hashable_values, is_map_values, keys_read, hashes_read, Found, missing,
  bad_access, endless, at_bucket, given,
}
use py_pointless.Validate.Pass.{is_empty_slot}
use py_pointless.Value.{Tag, Value, is_integer_type}
use py_pointless.Value.Accessors.{get_int_as_int64}

abbrev equal : ℤ → ℤ → Bool
equal (pos a) (pos b) = a == b
equal (negsuc a) (negsuc b) = a == b
equal _ _ = false

abbrev is_some_equal : ℤ → Option ℤ → Bool
is_some_equal i none = false
is_some_equal i (some j) = equal i j

-- A value of a file has no type of 64-bit integers.
unfoldable pub check_i64 : ℤ → Value → Bool
unfolding is_integer_type get_int_as_int64
check_i64 i v = is_integer_type v.tag && is_some_equal i (get_int_as_int64 v.tag v.data_u32)

-- The table that is iterated over, behind the assertions on its vectors and their pointers
unfoldable pub iter_table : Pointless → Value → Value → Option (Table Value)
unfolding keys_read hashes_read vector_n_items items_ptr
iter_table p hashes keys = require (is_u32 hashes.tag && is_hashable_values keys.tag) (
    after (vector_n_items p hashes.tag hashes.data_u32) (λ n_buckets.
      after (items_ptr p hashes.tag hashes.data_u32) (λ _.
        after (items_ptr p keys.tag keys.data_u32) (λ _. some (record {
          is_empty = is_empty_slot;
          n_buckets = n_buckets;
          hashes = hashes_read p hashes.data_u32 n_buckets 0;
          keys = keys_read p keys.tag keys.data_u32 n_buckets 0;
        })))))

-- The pointer to the values of a map, behind the assertions on their vector
unfoldable pub map_values : Pointless → Value → Option ℕ
unfolding items_ptr
map_values p values = require (is_map_values values.tag) (items_ptr p values.tag values.data_u32)

unfoldable pub searched : {A : Type 0} → Searched → (ℕ → Option A) → Found A
unfolding at_bucket
searched (present b) at = at_bucket (at b)
searched absent at = missing
searched bad_search at = bad_access
searched out_of_rounds at = endless

-- `pointless_is_int_in_set`; what is found is the bucket.
pub is_int_in_set : Pointless → Tag → ℕ → ℤ → Found ℕ
unfolding set_hash_vector set_key_vector iter_table check_i64 search searched hash_i64
is_int_in_set p t v i = given (set_hash_vector p t v) (λ hashes.
    given (set_key_vector p t v) (λ keys.
      given (iter_table p hashes keys) (λ table.
        searched (search table (hash_i64 (pattern_of 64 i)) (check_i64 i)) (λ b. some b))))

-- `pointless_get_mapping_int_to_value`
unfoldable pub get_mapping_int_to_value : Pointless → Tag → ℕ → ℤ → Found Value
unfolding map_hash_vector map_key_vector map_value_vector iter_table map_values check_i64 search
    searched hash_i64 value_item
get_mapping_int_to_value p t v i = given (map_hash_vector p t v) (λ hashes.
    given (map_key_vector p t v) (λ keys. given (map_value_vector p t v) (λ values.
      given (iter_table p hashes keys) (λ table. given (map_values p values) (λ a.
        searched (search table (hash_i64 (pattern_of 64 i)) (check_i64 i))
          (λ b. value_item p values.tag values.data_u32 b))))))
