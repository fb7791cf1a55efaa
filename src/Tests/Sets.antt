-- ===== src/Tests/Sets.antt =====
-- A file with one set at concrete inputs.
use py_pointless.Base.{
  ℕ, ◌≡◌, refl, Bool, Option, none, some, [], ◌∷◌, get_elem?, arith, ◌==◌, if◌then◌else◌,
}
use py_pointless.BitUtils.{Bytes}
use py_pointless.Hash.{is_hashable}
use py_pointless.HashTable.{compute_n_buckets, probe, probe_loop, inspect, recur}
use py_pointless.HashTable.Validation.{validate, placed, first_of, all_buckets}
use py_pointless.Reader.{Pointless, layout}
use py_pointless.Reader.Words.{HasBytes}
use py_pointless.Reader.Items.{set_key_vector, vector_n_items}
use py_pointless.Reader.Tables.{keys_read, found, set_lookup, set_iter}
use py_pointless.Reader.Tables.Iteration.{collect, used_keys, set_iter-used_keys}
use py_pointless.Reader.Tables.Lookup.{set_lookup-found}
use py_pointless.Validate.Pass.{set_complicated, table_error, values_from}
use py_pointless.Value.{Value, u32, empty_slot, set_value, vector_value_hashable}

-- The hashes 4 and 0, the key 4 and an empty slot, and the header of the set
abbrev contents : Bytes
contents a =
    if a == 12
    then 2
    else if a == 20
    then 1
    else if a == 28
    then 2
    else if a == 40
    then 12
    else if a == 48
    then 32
    else if a == 56
    then 2
    else if a == 60
    then 4
    else if a == 68
    then 2
    else if a == 72
    then 21
    else if a == 76
    then 4
    else if a == 80
    then 19
    else if a == 88
    then 1
    else if a == 96
    then 7
    else if a == 104
    then 1
    else if a == 108
    then 1
    else 0

contents-HasBytes : HasBytes contents
contents-HasBytes a = ground arith

abbrev set_file : Pointless
set_file = layout contents 112

abbrev by_data : Value → ℕ
by_data v = v.data_u32

abbrev same_data : Value → Value → Option Bool
same_data a b = some (a.data_u32 == b.data_u32)

abbrev key_vector : Value
key_vector = record { tag = vector_value_hashable; data_u32 = 1 }

abbrev four : Value
four = record { tag = u32; data_u32 = 4 }

key_vector_at : set_key_vector set_file set_value 0 ≡ some key_vector
unfolding set_key_vector layout
key_vector_at = refl

two_keys : vector_n_items set_file vector_value_hashable 1 ≡ some 2
unfolding vector_n_items layout
two_keys = refl

first_key : get_elem? (keys_read set_file vector_value_hashable 1 2 0) 0 ≡ some four
unfolding keys_read layout
first_key = refl

is_valid : set_complicated set_file by_data same_data set_value 0 ≡ some none
unfolding set_complicated layout table_error validate compute_n_buckets is_hashable probe probe_loop
    placed first_of all_buckets inspect recur
is_valid = refl

set_lookup-found_example : set_lookup by_data same_data set_file set_value 0 four ≡ found four
unfolding layout
set_lookup-found_example =
    set_lookup-found set_file by_data same_data 0 key_vector 2 contents-HasBytes is_valid
      key_vector_at refl two_keys 0 four first_key refl

abbrev an_empty_slot : Value
an_empty_slot = record { tag = empty_slot; data_u32 = 0 }

all_keys : values_from set_file vector_value_hashable 1 2 0 ≡ some (four ∷ an_empty_slot ∷ [])
unfolding values_from layout
all_keys = refl

set_iter-used_keys_example :
    collect (λ i. set_iter set_file set_value 0 i) 3 0
    ≡ some (used_keys (four ∷ an_empty_slot ∷ []))
set_iter-used_keys_example =
    set_iter-used_keys set_file 0 key_vector 2 (four ∷ an_empty_slot ∷ []) key_vector_at refl
      two_keys all_keys
