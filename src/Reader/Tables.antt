-- ===== src/Reader/Tables.antt =====
-- src/pointless_reader.c, the sets and maps of an open file: their buckets, the iteration over
-- them, and the lookup of a key. Hashing and comparing keys are parameters. A failed assertion
-- and a read past the end of the file are `bad_access`, and a probing that does not end is `endless`.
pub mod Reads
pub mod Iteration
pub mod Lookup
pub mod Mapping
use py_pointless.Base.{
  ℕ, zero, suc, ◌+◌, ◌-◌, ◌*◌, Bool, true, false, not, ◌&&◌, Option, none, some, List, [], ◌∷◌,
  get_elem?, ◌==◌, if◌then◌else◌,
}
use py_pointless.Hash.{is_hashable}
use py_pointless.HashTable.{Table, Probed, hit, miss, error, fault, out_of_fuel, probe}
use py_pointless.Reader.{Pointless}
use py_pointless.Reader.Items.{
  after, item, value_item, vector_n_items, items_ptr, value_read, set_hash_vector, set_key_vector,
  map_hash_vector, map_key_vector, map_value_vector,
}
use py_pointless.Validate.Pass.{is_empty_slot}
use py_pointless.Value.{Tag, Value, vector_value, vector_value_hashable, vector_u32, vector_empty}

-- The assertions on the types of the vectors
abbrev pub is_values : Tag → Bool
is_values vector_value = true
is_values vector_value_hashable = true
is_values vector_empty = true
is_values _ = false

abbrev pub is_hashable_values : Tag → Bool
is_hashable_values vector_value_hashable = true
is_hashable_values _ = false

abbrev pub is_u32 : Tag → Bool
is_u32 vector_u32 = true
is_u32 _ = false

abbrev pub require : {A : Type 0} → Bool → Option A → Option A
require true o = o
require false o = none

-- `left` items of a vector from item `i` on, up to the end of the file
unfoldable pub keys_read : Pointless → Tag → ℕ → ℕ → ℕ → List Value
unfolding value_item
keys_read p t v zero i = []
keys_read p t v (suc left) i = elim (value_item p t v i) [
  | none ↦ []
  | some x ↦ x ∷ keys_read p t v left (i + 1)
]

pub hashes_read : Pointless → ℕ → ℕ → ℕ → List ℕ
unfolding item
hashes_read p v zero i = []
hashes_read p v (suc left) i = elim (item 4 p vector_u32 v i) [
  | none ↦ []
  | some x ↦ x ∷ hashes_read p v left (i + 1)
]

-- The vectors of hashes and keys of a set or map, behind the assertions on their types
pub table_of : Pointless → Value → Value → Option (Table Value)
unfolding keys_read hashes_read vector_n_items
table_of p hashes keys = require (is_u32 hashes.tag) (
    require (is_values keys.tag) (
      after (vector_n_items p keys.tag keys.data_u32) (λ n_buckets. some (record {
        is_empty = is_empty_slot;
        n_buckets = n_buckets;
        hashes = hashes_read p hashes.data_u32 n_buckets 0;
        keys = keys_read p keys.tag keys.data_u32 n_buckets 0;
      }))))

-- `*kk`, a null pointer, an error, or a call that does not return
pub data Found (A : Type 0) : Type 0 where
  found : A → Found A
  missing not_hashable cmp_error bad_access endless : Found A

-- What is done with the bucket of a key
unfoldable pub at_bucket : {A : Type 0} → Option A → Found A
at_bucket none = bad_access
at_bucket (some k) = found k

pub probed : {A : Type 0} → Probed → (ℕ → Option A) → Found A
unfolding at_bucket
probed (hit b) at = at_bucket (at b)
probed miss at = missing
probed error at = cmp_error
probed fault at = bad_access
probed out_of_fuel at = endless

abbrev pub given : {A B : Type 0} → Option A → (A → Found B) → Found B
given none k = bad_access
given (some a) k = k a

-- `pointless_reader_set_lookup_ext`
pub set_lookup_ext : Pointless → Tag → ℕ → ℕ → (Value → Option Bool) → Found Value
unfolding table_of probed set_hash_vector set_key_vector
set_lookup_ext p t v hash is_equal = given (set_hash_vector p t v) (λ hashes.
    given (set_key_vector p t v) (λ keys.
      given (table_of p hashes keys)
        (λ table. probed (probe table hash is_equal) (λ b. get_elem? table.keys b))))

abbrev pair_at : Pointless → Table Value → Value → ℕ → Option (Value × Value)
pair_at p table values b = after (get_elem? table.keys b) (λ k.
    require (is_values values.tag)
      (after (value_item p values.tag values.data_u32 b) (λ x. some (k, x))))

-- `pointless_reader_map_lookup_ext`, with the value of the key
pub map_lookup_ext : Pointless → Tag → ℕ → ℕ → (Value → Option Bool) → Found (Value × Value)
unfolding table_of probed map_hash_vector map_key_vector map_value_vector value_item
map_lookup_ext p t v hash is_equal = given (map_hash_vector p t v) (λ hashes.
    given (map_key_vector p t v) (λ keys. given (map_value_vector p t v) (λ values.
      given (table_of p hashes keys)
        (λ table. probed (probe table hash is_equal) (pair_at p table values)))))

module _ (hash_of : Value → ℕ) (cmp : Value → Value → Option Bool) where
  -- `pointless_reader_set_lookup`
  pub set_lookup : Pointless → Tag → ℕ → Value → Found Value
  unfolding set_lookup_ext
  set_lookup p t v k =
      if not (is_hashable k.tag)
      then not_hashable
      else set_lookup_ext p t v (hash_of k) (λ other. cmp other k)

  -- `pointless_reader_map_lookup`
  pub map_lookup : Pointless → Tag → ℕ → Value → Found (Value × Value)
  unfolding map_lookup_ext
  map_lookup p t v k =
      if not (is_hashable k.tag)
      then not_hashable
      else map_lookup_ext p t v (hash_of k) (λ other. cmp other k)

-- What an iteration returns: 1 with a key, or a key and a value, and the next state; or 0
pub data Iterated (A : Type 0) : Type 0 where
  item_at : A → ℕ → Iterated A
  finished bad_read : Iterated A

abbrev pub iterate : {A B : Type 0} → Option A → (A → Iterated B) → Iterated B
iterate none k = bad_read
iterate (some a) k = k a

-- The loop of `pointless_reader_set_iter`, with `left` buckets to look at and the state at `i`
pub set_iter_loop : Pointless → Value → ℕ → ℕ → Iterated Value
unfolding value_item
set_iter_loop p keys zero i = finished
set_iter_loop p keys (suc left) i =
    iterate (value_item p keys.tag keys.data_u32 i)
      (λ k. if is_empty_slot k then set_iter_loop p keys left (i + 1) else item_at k (i + 1))

unfoldable pub set_iter : Pointless → Tag → ℕ → ℕ → Iterated Value
unfolding set_iter_loop set_key_vector vector_n_items
set_iter p t v i = iterate (set_key_vector p t v) (λ keys.
    iterate (require (is_hashable_values keys.tag) (vector_n_items p keys.tag keys.data_u32))
      (λ n_buckets. set_iter_loop p keys (n_buckets - i) i))

-- The loop of `pointless_reader_map_iter`
pub map_iter_loop : Pointless → Value → Value → ℕ → ℕ → Iterated (Value × Value)
unfolding value_item
map_iter_loop p keys values zero i = finished
map_iter_loop p keys values (suc left) i = iterate (value_item p keys.tag keys.data_u32 i) (λ k.
    iterate (value_item p values.tag values.data_u32 i) (λ x.
      if is_empty_slot k then map_iter_loop p keys values left (i + 1) else item_at (k, x) (i + 1)))

abbrev pub is_map_values : Tag → Bool
is_map_values vector_value = true
is_map_values vector_value_hashable = true
is_map_values _ = false

unfoldable pub map_iter : Pointless → Tag → ℕ → ℕ → Iterated (Value × Value)
unfolding map_iter_loop map_key_vector map_value_vector vector_n_items
map_iter p t v i = iterate (map_key_vector p t v) (λ keys.
    iterate (map_value_vector p t v) (λ values.
      iterate
        (require (is_hashable_values keys.tag && is_map_values values.tag)
          (vector_n_items p keys.tag keys.data_u32))
        (λ n_buckets. map_iter_loop p keys values (n_buckets - i) i)))
