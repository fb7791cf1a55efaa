-- ===== src/Tests/Maps.antt =====
-- Lookups in a file with a set and a map of the same keys.
use py_pointless.Base.{
  ℕ, zero, suc, ◌≡◌, ◌≢◌, ◌↔◌, ◌⊎◌, refl, arith, Bool, true, Option, none, some, List, [], ◌∷◌,
  get_elem?, ◌==◌, if◌then◌else◌,
}
use py_pointless.Base.Int.{pos}
use py_pointless.BitUtils.{Bytes}
use py_pointless.Cmp.Reader.{text_of}
use py_pointless.Eval.{eval_get, refused, never_ends}
use py_pointless.Eval.Progress.{Concludes, eval_get-ends}
use py_pointless.Hash.{hash_string, hash_string_n}
use py_pointless.Hash.Text.{hash_string_n_iff}
use py_pointless.HashTable.{Table, recur}
use py_pointless.HashTable.Probe.{IsSized, IsFree}
use py_pointless.Reader.{Pointless, layout}
use py_pointless.Reader.Items.{
  value_item, set_n_items, map_n_items, map_hash_vector, map_key_vector, map_value_vector,
}
use py_pointless.Reader.Tables.{set_iter, map_iter}
use py_pointless.Reader.Tables.Iteration.{collect}
use py_pointless.Reader.Tables.Mapping.{check_i64, iter_table, map_values}
use py_pointless.Reader.Helpers.{get_value, get_map, check_unicode, get_mapping_unicode_to_value}
use py_pointless.Reader.Helpers.Ends.{IsOpenMap, Answers, FindsValue, values_of, get_map-FindsValue}
use py_pointless.Reader.Helpers.Keys.{get_mapping_unicode_to_value-first}
use py_pointless.Reader.Helpers.SameKeys.{in_set, in_map, key_of, has_same_keys_set_map}
use py_pointless.Reader.Helpers.SameKeys.Loops.{Passes, has_same_keys_set_map_iff}
use py_pointless.Strings.Laws.{ended}
use py_pointless.Validate.Pass.{is_empty_slot}
use py_pointless.Value.{
  Value, u32, string, empty_slot, set_value, map_value_value, vector_u32, vector_value_hashable,
}

-- The hashes 4 and 0, the key 4 and an empty slot, and the headers of the set and of the map, whose
-- values are its keys
abbrev contents : Bytes
contents a =
    if a == 12
    then 2
    else if a == 20
    then 1
    else if a == 24
    then 1
    else if a == 28
    then 2
    else if a == 40
    then 12
    else if a == 48
    then 32
    else if a == 56
    then 56
    else if a == 64
    then 2
    else if a == 68
    then 4
    else if a == 76
    then 2
    else if a == 80
    then 21
    else if a == 84
    then 4
    else if a == 88
    then 19
    else if a == 96
    then 1
    else if a == 104
    then 7
    else if a == 112
    then 1
    else if a == 116
    then 1
    else if a == 120
    then 1
    else if a == 128
    then 7
    else if a == 136
    then 1
    else if a == 140
    then 1
    else if a == 144
    then 1
    else if a == 148
    then 1
    else 0

abbrev map_file : Pointless
map_file = layout contents 152

abbrev four : Value
four = record { tag = u32; data_u32 = 4 }

abbrev an_empty_slot : Value
an_empty_slot = record { tag = empty_slot; data_u32 = 0 }

abbrev hashes_value : Value
hashes_value = record { tag = vector_u32; data_u32 = 0 }

abbrev key_vector : Value
key_vector = record { tag = vector_value_hashable; data_u32 = 1 }

abbrev table : Table Value
table = record {
  is_empty = is_empty_slot;
  n_buckets = 2;
  hashes = 4 ∷ 0 ∷ [];
  keys = four ∷ an_empty_slot ∷ [];
}

table-IsSized : IsSized 1 table
table-IsSized = record {
  bits = omega arith;
  count = refl;
  hashes_length = refl;
  keys_length = refl;
}

table-IsFree : IsFree table 1
table-IsFree = record { key = an_empty_slot; at = refl; empty = refl }

-- The file with a second key, 0, in place of the empty slot
abbrev full_file : Pointless
full_file = layout (λ a. if a == 88 then 21 else contents a) 152

abbrev map_root : Value
map_root = record { tag = map_value_value; data_u32 = 0 }

-- [5]
abbrev five : List ℕ
five = 91 ∷ 53 ∷ 93 ∷ []

-- A lookup under a hash that is not in a full map does not end.
full_map : eval_get full_file map_root five [] ≡ never_ends
unfolding layout eval_get recur
full_map = refl

eval_get-ends_example : Concludes full_file (eval_get full_file map_root five [])
eval_get-ends_example = eval_get-ends full_file map_root five []

-- With the empty slot it does.
open_map : eval_get map_file map_root five [] ≡ refused
unfolding layout eval_get
open_map = refl

map-IsOpenMap : IsOpenMap map_file 0 table key_vector
unfolding layout iter_table map_values map_hash_vector map_key_vector map_value_vector
map-IsOpenMap = record {
  hashes = hashes_value;
  keys = key_vector;
  hashes_at = refl;
  keys_at = refl;
  values_at = refl;
  table_at = refl;
  pointer = 80;
  pointer_at = refl;
}

abbrev is_four : Value → Option Bool
is_four k = some (check_i64 (pos 4) k)

four_value : values_of map_file key_vector 0 ≡ some four
unfolding layout value_item
four_value = refl

all_values_read :
    (b : ℕ) (key : Value)
    → get_elem? table.keys b ≡ some key
    → (x : Value) × (values_of map_file key_vector b ≡ some x)
unfolding layout value_item
all_values_read zero key at = (four, refl)
all_values_read (suc zero) key at = (an_empty_slot, refl)
all_values_read (suc (suc b)) key at = absurd (beyond at)
  where
    beyond : none ≡ some key → ⊥
    beyond e = cc

map-Answers : Answers table 4 (values_of map_file key_vector) is_four get_value
map-Answers = record {
  tests = λ b key holds. (check_i64 (pos 4) key, refl);
  reads = λ b key holds. all_values_read b key holds.at;
  checks = λ x h. cc;
}

get_map-FindsValue_example :
    FindsValue table 4
      (values_of map_file key_vector)
      is_four
      get_value
      (get_map map_file map_value_value 0 (some 4) is_four get_value)
get_map-FindsValue_example =
    get_map-FindsValue map_file 0 table key_vector 4 1 1 is_four get_value map-IsOpenMap
      table-IsSized table-IsFree (omega arith) map-Answers

abbrev data_hash : Value → Option ℕ
data_hash v = some v.data_u32

abbrev same_data : Value → Value → Option Bool
same_data a b = some (a.data_u32 == b.data_u32)

one_of_set : set_n_items map_file set_value 0 ≡ some 1
unfolding layout set_n_items
one_of_set = refl

one_of_map : map_n_items map_file map_value_value 0 ≡ some 1
unfolding layout map_n_items
one_of_map = refl

keys_of_set : collect (set_iter map_file set_value 0) 3 0 ≡ some (four ∷ [])
unfolding layout collect set_iter
keys_of_set = refl

pairs_of_map : collect (map_iter map_file map_value_value 0) 3 0 ≡ some ((four, four) ∷ [])
unfolding layout collect map_iter
pairs_of_map = refl

abbrev n_items : ℕ
n_items = 1

abbrev hi_units : List ℕ
hi_units = 104 ∷ 105 ∷ []

abbrev quote : ℕ
quote = 39

has_same_keys_set_map_iff_example :
    (has_same_keys_set_map data_hash same_data map_file set_value 0 map_value_value 0 ≡ some true)
    ↔ ((n_items ≡ n_items)
        × Passes (in_map data_hash same_data map_file map_value_value 0) (four ∷ [])
        × Passes
            (λ pair. in_set data_hash same_data map_file set_value 0 (key_of pair))
            ((four, four) ∷ []))
unfolding layout
has_same_keys_set_map_iff_example =
    has_same_keys_set_map_iff data_hash same_data map_file set_value 0 map_value_value 0 1 1 3 3
      (four ∷ []) ((four, four) ∷ []) one_of_set one_of_map keys_of_set pairs_of_map (omega arith)
      (omega arith)

get_mapping_unicode_to_value-first_example :
    get_mapping_unicode_to_value map_file map_value_value 0 (104 ∷ 105 ∷ 0 ∷ [])
    ≡ get_map map_file map_value_value 0
        (hash_string (104 ∷ 0 ∷ []))
        (check_unicode (104 ∷ 105 ∷ 0 ∷ []) map_file)
        get_value
get_mapping_unicode_to_value-first_example =
    get_mapping_unicode_to_value-first map_file map_value_value 0 104 (105 ∷ 0 ∷ []) (omega arith)
      (omega arith)

hash_string_n_iff_example :
    (hash_string_n (104 ∷ 105 ∷ 39 ∷ []) 2 ≡ hash_string (ended (104 ∷ 105 ∷ []) []))
    ↔ ((hi_units ≢ []) ⊎ (quote ≡ 0))
hash_string_n_iff_example = hash_string_n_iff (104 ∷ 105 ∷ []) 39 [] [] (omega arith) (omega arith)

-- One string "hi" at the start of the heap
abbrev text_file : Pointless
text_file =
    layout
      (λ a.
        if a == 8
        then 1
        else if a == 28
        then 2
        else if a == 40
        then 2
        else if a == 44
        then 104
        else if a == 45
        then 105
        else 0)
      47

abbrev hi : Value
hi = record { tag = string; data_u32 = 0 }

hi_text : text_of text_file string 0 ≡ some (ended (104 ∷ 105 ∷ []) [])
unfolding layout text_of
hi_text = refl
