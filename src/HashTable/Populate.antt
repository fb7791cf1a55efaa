-- ===== src/HashTable/Populate.antt =====
-- `pointless_hash_table_populate`: the keys of a set or a map are put into the vectors that are
-- written to the file. Keys and values are handles; `cmp a b` is whether `pointless_cmp_create`
-- finds the two equal, or `none` where it sets an error.
pub mod Insert
pub mod RoundTrip
pub mod Checks
pub mod Result
use py_pointless.Base.{
  ℕ, zero, suc, ◌+◌, Bool, true, false, not, ◌&&◌, Option, some, none, List, [], ◌∷◌, length,
  get_elem?, set, bit_and, shr, ◌-◌, ltb, ◌==◌, if◌then◌else◌,
}
use py_pointless.HashTable.{Probed, hit, miss, error, fault, out_of_fuel, Table, inspect, recur}

pub data PopulateError : Type 0 where
  values_mismatch invariant_a invariant_b invariant_c invariant_d duplicate_keys compare_error :
      PopulateError

-- `hash_serialize`, `keys_serialize` and `values_serialize`, which is missing for a set
pub record Serialized : Type 0 where
  pub hashes : List ℕ
  pub keys : List ℕ
  pub values : Option (List ℕ)

-- `bad_access` is a read outside of a vector or a failed assertion.
pub data Populated : Type 0 where
  done : Serialized → Populated
  failed : PopulateError → Populated
  bad_access no_end : Populated

pub data Slot : Type 0 where
  free : ℕ → Slot
  stop : Populated → Slot

-- `hash_vector[j]`, `keys_vector[j]` and `values_vector[j]`; the value of a set's item is not read.
pub record Item : Type 0 where
  pub hash : ℕ
  pub key : ℕ
  pub value : ℕ

-- The vectors as a table to be probed
unfoldable pub as_table : ℕ → ℕ → Serialized → Table ℕ
as_table n_buckets empty_slot_handle s = record {
  is_empty = λ k. k == empty_slot_handle;
  n_buckets = n_buckets;
  hashes = s.hashes;
  keys = s.keys;
}

-- `if (values_serialize) values_serialize[bucket] = values_vector[j]`
pub store_value : Option (List ℕ) → ℕ → ℕ → Option (List ℕ)
store_value none b v = none
store_value (some vs) b v = some (set vs b v)

-- What is written to an empty bucket
pub store : Serialized → ℕ → Item → Serialized
store s b item = record {
  hashes = set s.hashes b item.hash;
  keys = set s.keys b item.key;
  values = store_value s.values b item.value;
}

is_some {ℓ} : {A : Type ℓ} → Option A → Bool
is_some none = false
is_some (some a) = true

same : Bool → Bool → Bool
same true b = b
same false b = not b

module _ (cmp : ℕ → ℕ → Option Bool) (n_buckets empty_slot_handle : ℕ) where
  -- The inner loop up to the empty bucket. Its looks at buckets are those of the probing.
  pub find_slot : Serialized → ℕ → ℕ → ℕ → ℕ → ℕ → Slot
  find_slot s hash key zero perturb i = stop no_end
  find_slot s hash key (suc fuel) perturb i =
      let bucket = bit_and i (n_buckets - 1) in
      elim (inspect (as_table n_buckets empty_slot_handle s) hash (λ k. cmp k key) bucket) [
        | none ↦ find_slot s hash key fuel (shr perturb 5) (recur perturb i)
        | some miss ↦ free bucket
        | some (hit b) ↦ stop (failed duplicate_keys)
        | some error ↦ stop (failed compare_error)
        | some fault ↦ stop bad_access
        | some out_of_fuel ↦ stop no_end
      ]

  -- The outer loop
  pub insert_all : Serialized → List Item → Populated
  insert_all s [] = done s
  insert_all s (item ∷ items) =
      elim (find_slot s item.hash item.key (n_buckets + 8) item.hash item.hash) [
        | free b ↦ insert_all (store s b item) items
        | stop r ↦ r
      ]

  pub check_keys : List Item → Option PopulateError
  check_keys [] = none
  check_keys (item ∷ items) =
      if item.key == empty_slot_handle then some invariant_a else check_keys items

  pub check_value : Option (List ℕ) → ℕ → Option Populated
  check_value none j = none
  check_value (some vs) j = elim (get_elem? vs j) [
    | none ↦ some bad_access
    | some v ↦ if v == empty_slot_handle then none else some (failed invariant_d)
  ]

  -- What is wrong with slot `j`, before anything is put in
  pub check_slot : Serialized → ℕ → Option Populated
  unfolding check_value
  check_slot s j = elim (get_elem? s.hashes j) [
    | none ↦ some bad_access
    | some h ↦
        if h == 0
        then elim (get_elem? s.keys j) [
          | none ↦ some bad_access
          | some k ↦
              if k == empty_slot_handle then check_value s.values j else some (failed invariant_c)
        ]
        else some (failed invariant_b)
  ]

  pub check_slots : Serialized → ℕ → ℕ → Option Populated
  check_slots s zero j = none
  check_slots s (suc left) j = elim (check_slot s j) [
    | some r ↦ some r
    | none ↦ check_slots s left (j + 1)
  ]

  -- `has_values`: `values_vector` is there.
  pub populate : Bool → List Item → Serialized → Populated
  unfolding is_some same
  populate has_values items s =
      let n_keys = length items in
      if ltb 0 n_keys && not (same has_values (is_some s.values))
      then failed values_mismatch
      else elim (check_keys items) [
        | some e ↦ failed e
        | none ↦ elim (check_slots s n_buckets 0) [
          | some r ↦ r
          | none ↦ if ltb n_keys n_buckets then insert_all s items else bad_access
        ]
      ]
