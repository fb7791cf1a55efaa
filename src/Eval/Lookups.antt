-- ===== src/Eval/Lookups.antt =====
-- Where the value under an index is looked up without an end, a map of the file has no free bucket.
use py_pointless.Base.{
  ℕ, ◌^◌, ◌<◌, ◌≡◌, ◌≢◌, refl, arith, Bool, true, false, Option, none, some, get_elem?, leb, ltb,
  if◌then◌else◌,
}
use py_pointless.Base.Int.{ℤ, pos, negsuc, pattern_of}
use mathlib.Core.Path.{subst}
use py_pointless.Eval.{
  Index, unsigned_index, signed_index, string_key, vector_item, bit_item, in_bounds, map_item,
  is_map, select,
}
use py_pointless.Hash.{hash_i64, hash_string_n}
use py_pointless.Hash.Text.{hash_string_n-small}
use py_pointless.HashTable.{Table}
use py_pointless.HashTable.Probe.{IsSized, IsFree}
use py_pointless.HashTable.Search.{
  Searched, present, absent, bad_access as bad_search, out_of_rounds, search,
}
use py_pointless.HashTable.Search.Ends.{search-Finds, Finds}
use py_pointless.Reader.{Pointless}
use py_pointless.Reader.Items.{
  value_item, vector_n_items, vector_value_case, map_hash_vector, map_key_vector, map_value_vector,
}
use py_pointless.Reader.Bitvectors.{bitvector_n_bits, bitvector_is_set}
use py_pointless.Reader.Tables.{
  Found, found, missing, not_hashable, cmp_error, bad_access, endless, given, at_bucket,
}
use py_pointless.Reader.Tables.Mapping.{
  iter_table, map_values, check_i64, searched, get_mapping_int_to_value,
}
use py_pointless.Reader.Helpers.{
  Check, accepted, refused, failed, at_value, at_pair, get_map, check_string_n, get_value,
  get_mapping_string_n_to_value,
}
use py_pointless.Reader.Helpers.Ends.{visit_buckets-Good}
use py_pointless.Value.{Value, is_vector_type, is_bitvector_type, value_from_complete}

-- The table of the map `m`, as a lookup reads it
pub record IsTableOf (p : Pointless) (m : Value) (t : Table Value) : Type 0 where
  pub hashes : Value
  pub keys : Value
  pub hashes_at : map_hash_vector p m.tag m.data_u32 ≡ some hashes
  pub keys_at : map_key_vector p m.tag m.data_u32 ≡ some keys
  pub table_at : iter_table p hashes keys ≡ some t

-- A map of the file whose number of buckets is no power of two, is above 2 ^ 32 or is not that of
-- its hashes and keys, or which has no free bucket
abbrev pub HasFullMap : Pointless → Type 0
HasFullMap p =
    (m : Value) × (t : Table Value) × IsTableOf p m t × ((k e : ℕ) → IsSized k t → IsFree t e → ⊥)

-- What a lookup without an end says of the file
abbrev pub Returns : {A : Type 0} → Pointless → Found A → Type 0
Returns p endless = HasFullMap p
Returns p _ = Unit

given-Returns :
    {A B : Type 0} (p : Pointless) (o : Option A) (k : A → Found B)
    → ((a : A) → o ≡ some a → Returns p (k a))
    → Returns p (given o k)
given-Returns p none k h = tt
given-Returns p (some a) k h = h a refl

if-Returns :
    {A : Type 0} (p : Pointless) (b : Bool) (r s : Found A)
    → Returns p r
    → Returns p s
    → Returns p (if b then r else s)
if-Returns p true r s h h' = h
if-Returns p false r s h h' = h'

-- A result is not `endless`, unless the file has such a map.
full-Returns :
    {A : Type 0} (p : Pointless) (r : Found A) → (r ≡ endless → HasFullMap p) → Returns p r
full-Returns p (found a) h = tt
full-Returns p missing h = tt
full-Returns p not_hashable h = tt
full-Returns p cmp_error h = tt
full-Returns p bad_access h = tt
full-Returns p endless h = h refl

module _ {A : Type 0} (cb_k : Value → Option Bool) (cb_v : Value → Check A) where
  at_value-returns : (c : Check A) (rest : Found A) → rest ≢ endless → at_value c rest ≢ endless
  at_value-returns (accepted a) rest h = λ e. cc
  at_value-returns refused rest h = h
  at_value-returns failed rest h = λ e. cc

  at_pair-returns :
      (k x : Option Value) (rest : Found A) → rest ≢ endless → at_pair cb_k cb_v k x rest ≢ endless
  at_pair-returns none x rest h = λ e. cc
  at_pair-returns (some key) x rest h = tested (cb_k key) x
    where
      tested :
          (passes : Option Bool) (x' : Option Value)
          → given passes (λ b. if b then given x' (λ v. at_value (cb_v v) rest) else rest) ≢ endless
      tested none x' = λ e. cc
      tested (some false) x' = h
      tested (some true) none = λ e. cc
      tested (some true) (some v) = at_value-returns (cb_v v) rest h

  -- `pointless_get_map_` under a hash of 32 bits
  get_map-Returns :
      (p : Pointless) (m : Value) (hash : Option ℕ)
      → ((h : ℕ) → hash ≡ some h → h < 2 ^ 32)
      → Returns p (get_map p m.tag m.data_u32 hash cb_k cb_v)
  unfolding get_map
  get_map-Returns p m hash small = given-Returns p hash _ λ h is_hash.
      given-Returns p (map_hash_vector p m.tag m.data_u32) _ λ hashes hashes_at.
        given-Returns p (map_key_vector p m.tag m.data_u32) _ λ keys keys_at.
          given-Returns p (map_value_vector p m.tag m.data_u32) _ λ values _.
            given-Returns p (iter_table p hashes keys) _ λ t table_at.
              given-Returns p (map_values p values) _ λ _ _. full-Returns p _ λ e. (
                m,
                t,
                record {
                  hashes = hashes;
                  keys = keys;
                  hashes_at = hashes_at;
                  keys_at = keys_at;
                  table_at = table_at;
                },
                λ k b sized free.
                    visit_buckets-Good t h k sized _ (λ r. r ≢ endless) (λ q. cc)
                      (λ i key rest _ good.
                        at_pair-returns (get_elem? t.keys i)
                          (value_item p values.tag values.data_u32 i) rest good)
                      b free (small h is_hash) e,
              )

at_bucket-returns : {A : Type 0} (o : Option A) → at_bucket o ≢ endless
unfolding at_bucket
at_bucket-returns none = λ e. cc
at_bucket-returns (some k) = λ e. cc

searched-returns :
    {A : Type 0} (s : Searched) (at : ℕ → Option A) → s ≢ out_of_rounds → searched s at ≢ endless
unfolding searched
searched-returns (present b) at h = at_bucket-returns (at b)
searched-returns absent at h = λ e. cc
searched-returns bad_search at h = λ e. cc
searched-returns out_of_rounds at h = λ e. h refl

search-returns :
    (t : Table Value) (h k b : ℕ) (check : Value → Bool)
    → IsSized k t
    → IsFree t b
    → h < 2 ^ 32
    → search t h check ≢ out_of_rounds
search-returns t h k b check sized free small e =
    subst (λ s. Finds t h k sized check s) e (search-Finds t h k b check sized free small)

hash_i64-small : (v : ℕ) → hash_i64 v < 2 ^ 32
unfolding hash_i64
hash_i64-small v = omega arith

get_mapping_int-Returns :
    (p : Pointless) (m : Value) (i : ℤ) → Returns p (get_mapping_int_to_value p m.tag m.data_u32 i)
unfolding get_mapping_int_to_value
get_mapping_int-Returns p m i =
    given-Returns p (map_hash_vector p m.tag m.data_u32) _ λ hashes hashes_at.
      given-Returns p (map_key_vector p m.tag m.data_u32) _ λ keys keys_at.
        given-Returns p (map_value_vector p m.tag m.data_u32) _ λ values _.
          given-Returns p (iter_table p hashes keys) _ λ t table_at.
            given-Returns p (map_values p values) _ λ _ _. full-Returns p _ λ e. (
              m,
              t,
              record {
                hashes = hashes;
                keys = keys;
                hashes_at = hashes_at;
                keys_at = keys_at;
                table_at = table_at;
              },
              λ k b sized free.
                  searched-returns _ _
                    (search-returns t (hash_i64 (pattern_of 64 i)) k b (check_i64 i) sized free
                      (hash_i64-small (pattern_of 64 i)))
                    e,
            )

module _ (p : Pointless) where
  map_item-Returns : (root : Value) (i : Index) → Returns p (map_item p root i)
  unfolding map_item get_mapping_string_n_to_value
  map_item-Returns root (string_key s n) =
      get_map-Returns (check_string_n s n p) get_value p root (hash_string_n s n)
        (hash_string_n-small s n)
  map_item-Returns root (signed_index i) = get_mapping_int-Returns p root i
  map_item-Returns root (unsigned_index n) =
      if-Returns p (ltb n (2 ^ 63)) _ missing (get_mapping_int-Returns p root (pos n)) tt

  in_bounds-Returns :
      (i : Index) (n : Option ℕ) (item : ℕ → Found Value)
      → ((j : ℕ) → Returns p (item j))
      → Returns p (in_bounds p i n item)
  in_bounds-Returns (string_key s k) n item h = tt
  in_bounds-Returns (signed_index (negsuc j)) n item h = tt
  in_bounds-Returns (signed_index (pos j)) n item h =
      given-Returns p n _ λ m _. if-Returns p (leb m j) missing (item j) tt (h j)
  in_bounds-Returns (unsigned_index j) n item h =
      given-Returns p n _ λ m _. if-Returns p (leb m j) missing (item j) tt (h j)

  vector_item-Returns : (root : Value) (j : ℕ) → Returns p (vector_item p root j)
  unfolding vector_item
  vector_item-Returns root j =
      given-Returns p (vector_value_case p root.tag root.data_u32 j) _
        λ c _. given-Returns p (value_from_complete c) _ λ v _. tt

  bit_item-Returns : (root : Value) (j : ℕ) → Returns p (bit_item p root j)
  unfolding bit_item
  bit_item-Returns root j =
      given-Returns p (bitvector_is_set p root.tag root.data_u32 j) _ λ b _. tt

  pub select-Returns : (root : Value) (i : Index) → Returns p (select p root i)
  unfolding select
  select-Returns root i =
      if-Returns p (is_vector_type root.tag) _ _
        (in_bounds-Returns i (vector_n_items p root.tag root.data_u32) (vector_item p root)
          (vector_item-Returns root))
        (if-Returns p (is_bitvector_type root.tag) _ _
          (in_bounds-Returns i (bitvector_n_bits p root.tag root.data_u32) (bit_item p root)
            (bit_item-Returns root))
          (if-Returns p (is_map p root.tag) _ missing (map_item-Returns root i) tt))
