-- ===== src/Validate.antt =====
-- src/pointless_validate_heap_ref.c and src/pointless_validate_heap.c: the checks on one value of a
-- file, without its children. `fault` is a failed assertion or a read past the end of the file.
pub mod Bounds
pub mod Safety
pub mod Text
pub mod Vectors
pub mod Reading
pub mod Pass
use py_pointless.Base.{
  ℕ, zero, suc, ◌+◌, ◌*◌, ◌/◌, ◌%◌, ◌^◌, Bool, true, false, not, ◌&&◌, ◌||◌, Option, none, some,
  ltb, leb, ◌==◌, if◌then◌else◌,
}
use py_pointless.IntOps.Checked.{Checked, init, u64_add, u64_mult}
use py_pointless.Value.{
  Tag, Value, packed_n_bits, vector_value, vector_value_hashable, vector_i8, vector_u8, vector_i16,
  vector_u16, vector_i32, vector_u32, vector_i64, vector_u64, vector_float, vector_empty, unicode,
  string, bitvector, bitvector_0, bitvector_1, bitvector_01, bitvector_10, bitvector_packed,
  set_value, map_value_value, empty_slot, i32, u32, float, boolean, null, i64, u64, unknown,
}
use py_pointless.Reader.{Pointless, read, pc_offset}

-- The messages of the checks
pub data ValidateError : Type 0 where
  packed_bits empty_vector_data boolean_data null_data empty_slot_data unknown_type : ValidateError
  string_unicode_reference vector_reference bitvector_reference set_reference : ValidateError
  map_reference : ValidateError
  vector_header vector_body bitvector_size unicode_size string_size : ValidateError
  premature_end missing_end : ValidateError
  set_header set_hash_type set_key_type : ValidateError
  map_header map_hash_type map_key_type map_value_type : ValidateError

pub data Verdict : Type 0 where
  valid fault : Verdict
  invalid : ValidateError → Verdict

abbrev pub check : Bool → ValidateError → Verdict
check ok e = if ok then valid else invalid e

-- `pointless_validate_inline_invariants`, on the type and the data
pub inline_invariants : Tag → ℕ → Verdict
inline_invariants bitvector_packed v = check (leb (packed_n_bits v) 27) packed_bits
inline_invariants vector_empty v = check (v == 0) empty_vector_data
inline_invariants boolean v = check (v == 0 || v == 1) boolean_data
inline_invariants null v = check (v == 0) null_data
inline_invariants empty_slot v = check (v == 0) empty_slot_data
inline_invariants i64 v = invalid unknown_type
inline_invariants u64 v = invalid unknown_type
inline_invariants (unknown _) v = invalid unknown_type
inline_invariants _ v = valid

-- Where a type has its data on the heap: the number of entries of its offset vector, and the error
-- for a reference past them
unfoldable pub heap_entries : Pointless → Tag → Option (ℕ × ValidateError)
heap_entries p unicode = some (p.n_string_unicode, string_unicode_reference)
heap_entries p string = some (p.n_string_unicode, string_unicode_reference)
heap_entries p vector_value = some (p.n_vector, vector_reference)
heap_entries p vector_value_hashable = some (p.n_vector, vector_reference)
heap_entries p vector_i8 = some (p.n_vector, vector_reference)
heap_entries p vector_u8 = some (p.n_vector, vector_reference)
heap_entries p vector_i16 = some (p.n_vector, vector_reference)
heap_entries p vector_u16 = some (p.n_vector, vector_reference)
heap_entries p vector_i32 = some (p.n_vector, vector_reference)
heap_entries p vector_u32 = some (p.n_vector, vector_reference)
heap_entries p vector_i64 = some (p.n_vector, vector_reference)
heap_entries p vector_u64 = some (p.n_vector, vector_reference)
heap_entries p vector_float = some (p.n_vector, vector_reference)
heap_entries p bitvector = some (p.n_bitvector, bitvector_reference)
heap_entries p set_value = some (p.n_set, set_reference)
heap_entries p map_value_value = some (p.n_map, map_reference)
heap_entries p _ = none

unfoldable pub is_known : Tag → Bool
is_known i64 = false
is_known u64 = false
is_known (unknown _) = false
is_known _ = true

unfoldable pub ref_within : Option (ℕ × ValidateError) → Bool → ℕ → Verdict
ref_within (some (n, e)) known v = check (ltb v n) e
ref_within none known v = check known unknown_type

-- `pointless_validate_heap_ref`
unfoldable pub heap_ref : Pointless → Tag → ℕ → Verdict
unfolding heap_entries ref_within is_known
heap_ref p t v = ref_within (heap_entries p t) (is_known t) v

-- `pointless_require_heap`
unfoldable pub require_heap : Pointless → ℕ → ℕ → Bool
unfolding u64_add init
require_heap p offset n_bytes =
    let past_last_byte = u64_add (init offset) (init n_bytes) in
    not past_last_byte.is_overflow && leb past_last_byte.value p.heap_len

-- What is done with a number that is read
abbrev pub with_read : Option ℕ → (ℕ → Verdict) → Verdict
with_read none k = fault
with_read (some x) k = k x

-- `w` bytes of the heap
abbrev pub heap_read : ℕ → Pointless → ℕ → Option ℕ
heap_read w p offset = read w p (p.heap_ptr + offset)

-- A size in checked integers, and the heap that it takes
abbrev pub require_size : Pointless → ℕ → Checked → Bool
require_size p offset n_bytes = not n_bytes.is_overflow && require_heap p offset n_bytes.value

-- `none`: the assertion on the type fails.
unfoldable pub item_len : Tag → Option ℕ
item_len vector_value = some 8
item_len vector_value_hashable = some 8
item_len vector_i8 = some 1
item_len vector_u8 = some 1
item_len vector_i16 = some 2
item_len vector_u16 = some 2
item_len vector_i32 = some 4
item_len vector_u32 = some 4
item_len vector_i64 = some 8
item_len vector_u64 = some 8
item_len vector_float = some 4
item_len _ = none

unfoldable pub vector_bytes : ℕ → ℕ → Checked
unfolding u64_add u64_mult init
vector_bytes len n_items = u64_add (init 4) (u64_mult (init len) (init n_items))

unfoldable pub vector_at : Pointless → Option ℕ → ℕ → Verdict
unfolding require_heap vector_bytes
vector_at p none offset = fault
vector_at p (some len) offset =
    if require_heap p offset 4
    then with_read (heap_read 4 p offset)
        (λ n_items. check (require_size p offset (vector_bytes len n_items)) vector_body)
    else invalid vector_header

-- `ICEIL(a, 8)`
abbrev pub iceil8 : ℕ → ℕ
iceil8 a = if a % 8 == 0 then a / 8 else a / 8 + 1

pub bitvector_at : Pointless → ℕ → Verdict
unfolding require_heap
bitvector_at p offset =
    if require_heap p offset 4
    then with_read (heap_read 4 p offset)
        (λ n_bits. check (require_heap p offset (4 + iceil8 n_bits)) bitvector_size)
    else invalid bitvector_size

-- The loop over the units of a string, and the test of the unit behind them
pub check_units : ℕ → Pointless → ℕ → ℕ → ℕ → Verdict
check_units w p offset zero i =
    with_read (heap_read w p (offset + 4 + w * i)) (λ c. check (c == 0) missing_end)
check_units w p offset (suc left) i = with_read (heap_read w p (offset + 4 + w * i)) (λ c.
    elim (c == 0) [ true ↦ invalid premature_end | false ↦ check_units w p offset left (i + 1) ])

pub text_bytes : ℕ → ℕ → Checked
unfolding u64_add u64_mult init
text_bytes w s_len = u64_add (init 4) (u64_mult (init (s_len + 1)) (init w))

-- Strings of units of `w` bytes
pub text_at : ℕ → Pointless → ValidateError → ℕ → Verdict
unfolding require_heap text_bytes check_units
text_at w p too_large offset =
    if require_heap p offset 4
    then with_read (heap_read 4 p offset) (λ s_len.
      if require_size p offset (text_bytes w s_len)
      then check_units w p offset s_len 0
      else invalid unicode_size)
    else invalid too_large

-- The types of the vectors of a set, of its header's 24 bytes
pub set_at : Pointless → ℕ → Verdict
unfolding require_heap
set_at p offset =
    if require_heap p offset 24
    then with_read (heap_read 4 p (offset + 8)) (λ hash_type.
      if not (hash_type == 7)
      then invalid set_hash_type
      else with_read (heap_read 4 p (offset + 16)) (λ key_type. check (key_type == 1) set_key_type))
    else invalid set_header

-- The types of the vectors of a map, of its header's 32 bytes
pub map_at : Pointless → ℕ → Verdict
unfolding require_heap
map_at p offset =
    if require_heap p offset 32
    then with_read (heap_read 4 p (offset + 8)) (λ hash_type.
      if not (hash_type == 7)
      then invalid map_hash_type
      else with_read (heap_read 4 p (offset + 16)) (λ key_type.
        if not (key_type == 1)
        then invalid map_key_type
        else with_read (heap_read 4 p (offset + 24))
            (λ value_type. check (value_type == 1 || value_type == 0) map_value_type)))
    else invalid map_header

-- The assertion on the reference, and the offset of the data
abbrev pub at_entry : Pointless → ℕ → ℕ → ℕ → (ℕ → Verdict) → Verdict
at_entry p n offsets v k = if ltb v n then with_read (pc_offset p offsets v) k else fault

unfoldable pub vector_heap : Pointless → Tag → ℕ → Verdict
unfolding vector_at item_len
vector_heap p t v = at_entry p p.n_vector p.vector_offsets v (vector_at p (item_len t))

-- `pointless_validate_heap_value`
unfoldable pub heap_value : Pointless → Tag → ℕ → Verdict
unfolding vector_heap text_at bitvector_at set_at map_at
heap_value p vector_value v = vector_heap p vector_value v
heap_value p vector_value_hashable v = vector_heap p vector_value_hashable v
heap_value p vector_i8 v = vector_heap p vector_i8 v
heap_value p vector_u8 v = vector_heap p vector_u8 v
heap_value p vector_i16 v = vector_heap p vector_i16 v
heap_value p vector_u16 v = vector_heap p vector_u16 v
heap_value p vector_i32 v = vector_heap p vector_i32 v
heap_value p vector_u32 v = vector_heap p vector_u32 v
heap_value p vector_i64 v = vector_heap p vector_i64 v
heap_value p vector_u64 v = vector_heap p vector_u64 v
heap_value p vector_float v = vector_heap p vector_float v
heap_value p unicode v =
    at_entry p p.n_string_unicode p.string_unicode_offsets v (text_at 4 p unicode_size)
heap_value p string v =
    at_entry p p.n_string_unicode p.string_unicode_offsets v (text_at 1 p string_size)
heap_value p bitvector v = at_entry p p.n_bitvector p.bitvector_offsets v (bitvector_at p)
heap_value p set_value v = at_entry p p.n_set p.set_offsets v (set_at p)
heap_value p map_value_value v = at_entry p p.n_map p.map_offsets v (map_at p)
heap_value p i64 v = invalid unknown_type
heap_value p u64 v = invalid unknown_type
heap_value p (unknown _) v = invalid unknown_type
heap_value p _ v = valid

-- A check behind another one
abbrev pub then_check : Verdict → Verdict → Verdict
then_check valid next = next
then_check fault next = fault
then_check (invalid e) next = invalid e

-- The checks of the first pass of `pointless_validate_pass_cb` on a value
pub value_checks : Pointless → Tag → ℕ → Verdict
unfolding heap_ref inline_invariants heap_value
value_checks p t v =
    then_check (heap_ref p t v) (then_check (inline_invariants t v) (heap_value p t v))
