-- ===== src/Reader/Helpers.antt =====
-- src/pointless_reader_helpers.c: the lookups of strings in the maps of an open file, and whether
-- sets and maps have the same keys. A string is the list of its units from the pointer to the end
-- of its memory. A failed assertion and a read past the end of memory are `bad_access`, a loop that
-- does not end is `endless`; a return of 0 is `missing`.
pub mod Ends
pub mod Keys
pub mod Vectors
pub mod SameKeys
use py_pointless.Base.{
  ℕ, zero, suc, ◌+◌, ◌*◌, ◌/◌, ◌%◌, ◌^◌, Bool, true, false, not, ◌||◌, Option, none, some, List, [],
  ◌∷◌, ltb, ◌==◌, if◌then◌else◌, get_elem?,
}
use py_pointless.Base.Int.{ℤ, pos, negsuc}
use py_pointless.BitVector.{Sign, less, same, more}
use py_pointless.Cmp.{cmp_string, cmp_string_n}
use py_pointless.Cmp.Reader.{text_of, type_code}
use py_pointless.Hash.{hash_string, hash_string_n}
use py_pointless.HashTable.{Table, IterState, probe_hash_init}
use py_pointless.HashTable.Search.{Step, bucket_at, ended, bad_read, no_end, iter_hash}
use py_pointless.Reader.{Pointless}
use py_pointless.Reader.Items.{
  after, value_item, vector_n_items, items_ptr, set_hash_vector, set_key_vector, set_n_items,
  map_hash_vector, map_key_vector, map_value_vector, map_n_items,
}
use py_pointless.Reader.Tables.{
  Found, found, missing, not_hashable, cmp_error, bad_access, endless, given, Iterated, item_at,
  finished, bad_read as bad_item, set_iter, map_iter,
}
use py_pointless.Reader.Tables.Mapping.{iter_table, map_values}
use py_pointless.Value.{
  Tag, Value, is_integer_type, unicode, string, vector_value, vector_value_hashable, vector_i8,
  vector_u8, vector_i16, vector_u16, vector_i32, vector_u32, vector_i64, vector_u64, vector_float,
  vector_empty, set_value, map_value_value,
}
use py_pointless.Value.Accessors.{get_int_as_int64}

-- What a check of a value returns: 1 and what it writes out, 0, or a failed assertion
pub data Check (A : Type 0) : Type 0 where
  accepted : A → Check A
  refused failed : Check A

abbrev pub is_text : Tag → Bool
is_text unicode = true
is_text string = true
is_text _ = false

abbrev pub is_same : Sign → Bool
is_same same = true
is_same _ = false

-- The test of a key of a file, with the comparison of its text
unfoldable pub check_text : (List ℕ → Option Sign) → Pointless → Value → Option Bool
unfolding text_of
check_text cmp p v =
    if is_text v.tag
    then after (text_of p v.tag v.data_u32) (λ s. after (cmp s) (λ r. some (is_same r)))
    else some false

pub check_string : List ℕ → Pointless → Value → Option Bool
unfolding check_text cmp_string
check_string key = check_text (λ s. cmp_string s key)

pub check_string_n : List ℕ → ℕ → Pointless → Value → Option Bool
unfolding check_text cmp_string_n
check_string_n key n = check_text (λ s. cmp_string_n s key n)

pub check_unicode : List ℕ → Pointless → Value → Option Bool
unfolding check_text cmp_string
check_unicode key = check_text (λ s. cmp_string s key)

abbrev checked : {A : Type 0} → Option A → (A → Check A) → Check A
checked none k = failed
checked (some a) k = k a

abbrev pub fits_u32 : ℤ → Option ℕ
fits_u32 (pos n) = if ltb n (2 ^ 32) then some n else none
fits_u32 (negsuc n) = none

abbrev pub u32_check : Option ℤ → Check ℕ
u32_check none = failed
u32_check (some i) = elim (fits_u32 i) [ none ↦ refused | some n ↦ accepted n ]

abbrev pub i64_check : Option ℤ → Check ℤ
i64_check none = failed
i64_check (some i) = accepted i

pub check_and_get_u32 : Value → Check ℕ
unfolding is_integer_type get_int_as_int64
check_and_get_u32 v =
    if is_integer_type v.tag then u32_check (get_int_as_int64 v.tag v.data_u32) else refused

pub check_and_get_i64 : Value → Check ℤ
unfolding is_integer_type get_int_as_int64
check_and_get_i64 v =
    if is_integer_type v.tag then i64_check (get_int_as_int64 v.tag v.data_u32) else refused

abbrev pub get_value : Value → Check Value
get_value v = accepted v

-- The loops over the buckets of a hash: `act` is what is done at a bucket, with the rest of the
-- loop.
module _ {A : Type 0} (t : Table Value) (hash : ℕ) (act : ℕ → Found A → Found A) where
  abbrev pub at_step : Step → (IterState → Found A) → Found A
  at_step (bucket_at b state) k = act b (k state)
  at_step ended k = missing
  at_step bad_read k = bad_access
  at_step no_end k = endless

  pub visit_loop : ℕ → IterState → Found A
  unfolding iter_hash
  visit_loop zero state = endless
  visit_loop (suc fuel) state =
      at_step (iter_hash t hash (t.n_buckets + 8) state) (λ next. visit_loop fuel next)

  pub visit_buckets : Found A
  unfolding visit_loop probe_hash_init
  visit_buckets = visit_loop (t.n_buckets + 8) (probe_hash_init hash t.n_buckets)

-- What is done at a bucket of a map: its key is tested, and then its value.
abbrev pub at_value : {A : Type 0} → Check A → Found A → Found A
at_value (accepted a) rest = found a
at_value refused rest = rest
at_value failed rest = bad_access

abbrev pub at_pair :
    {A : Type 0}
    → (Value → Option Bool)
    → (Value → Check A)
    → Option Value
    → Option Value
    → Found A
    → Found A
at_pair cb_k cb_v k v rest = given k (λ kk.
    given (cb_k kk) (λ passes. if passes then given v (λ vv. at_value (cb_v vv) rest) else rest))

-- What is done at a bucket of a set; what is found is the bucket.
abbrev pub at_key : (Value → Option Bool) → Option Value → ℕ → Found ℕ → Found ℕ
at_key cb_k k b rest = given k (λ kk. given (cb_k kk) (λ passes. if passes then found b else rest))

-- `pointless_get_map_`
unfoldable pub get_map :
    {A : Type 0}
    → Pointless
    → Tag
    → ℕ
    → Option ℕ
    → (Value → Option Bool)
    → (Value → Check A)
    → Found A
unfolding map_hash_vector map_key_vector map_value_vector iter_table map_values visit_buckets
    value_item
get_map p t v hash cb_k cb_v = given hash (λ h. given (map_hash_vector p t v) (λ hashes.
    given (map_key_vector p t v) (λ keys. given (map_value_vector p t v) (λ values.
      given (iter_table p hashes keys) (λ table. given (map_values p values) (λ a.
        visit_buckets table h (λ b rest.
          at_pair cb_k cb_v (get_elem? table.keys b) (value_item p values.tag values.data_u32 b)
            rest)))))))

-- `pointless_get_set_`
pub get_set : Pointless → Tag → ℕ → Option ℕ → (Value → Option Bool) → Found ℕ
unfolding set_hash_vector set_key_vector iter_table visit_buckets
get_set p t v hash cb_k = given hash (λ h. given (set_hash_vector p t v) (λ hashes.
    given (set_key_vector p t v) (λ keys.
      given (iter_table p hashes keys)
        (λ table. visit_buckets table h (λ b rest. at_key cb_k (get_elem? table.keys b) b rest)))))

-- The bytes of a string of four bytes to a unit
pub ucs4_bytes : List ℕ → List ℕ
ucs4_bytes [] = []
ucs4_bytes (c ∷ s) = c % 256 ∷ c / 256 % 256 ∷ c / 65536 % 256 ∷ c / 16777216 % 256 ∷ ucs4_bytes s

-- The lookups in the map with tag `t` and data `v`
module _ (p : Pointless) (t : Tag) (v : ℕ) where
  pub get_mapping_string_to_u32 : List ℕ → Found ℕ
  unfolding get_map hash_string check_string check_and_get_u32
  get_mapping_string_to_u32 key =
      get_map p t v (hash_string key) (check_string key p) check_and_get_u32

  pub get_mapping_string_to_i64 : List ℕ → Found ℤ
  unfolding get_map hash_string check_string check_and_get_i64
  get_mapping_string_to_i64 key =
      get_map p t v (hash_string key) (check_string key p) check_and_get_i64

  pub get_mapping_string_to_value : List ℕ → Found Value
  unfolding get_map hash_string check_string
  get_mapping_string_to_value key = get_map p t v (hash_string key) (check_string key p) get_value

  unfoldable pub get_mapping_string_n_to_value : List ℕ → ℕ → Found Value
  unfolding get_map hash_string_n check_string_n
  get_mapping_string_n_to_value key n =
      get_map p t v (hash_string_n key n) (check_string_n key n p) get_value

  -- The hash is that of the bytes of the units.
  pub get_mapping_unicode_to_value : List ℕ → Found Value
  unfolding get_map hash_string ucs4_bytes check_unicode
  get_mapping_unicode_to_value key =
      get_map p t v (hash_string (ucs4_bytes key)) (check_unicode key p) get_value

  pub get_mapping_unicode_to_u32 : List ℕ → Found ℕ
  unfolding get_map hash_string ucs4_bytes check_unicode check_and_get_u32
  get_mapping_unicode_to_u32 key =
      get_map p t v (hash_string (ucs4_bytes key)) (check_unicode key p) check_and_get_u32
