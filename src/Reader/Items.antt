-- ===== src/Reader/Items.antt =====
-- src/pointless_reader.c, the reads of vectors, strings and the headers of sets and maps from an
-- open file. A failed assertion and a read past the end of the file are `none`; a pointer is an
-- address of the file, whose memory is aligned.
use mathlib.Core.Option.{map}
use py_pointless.Base.{ℕ, ◌+◌, ◌*◌, ◌%◌, Option, none, some, ltb, leb, ◌==◌, if◌then◌else◌}
use py_pointless.Base.Int.{signed}
use py_pointless.Value.{
  Tag, Value, CompleteValue, value_to_complete, vector_value, vector_value_hashable, vector_i8,
  vector_u8, vector_i16, vector_u16, vector_i32, vector_u32, vector_i64, vector_u64, vector_float,
  vector_empty, set_value, map_value_value,
}
use py_pointless.Value.Accessors.{
  complete_i32, complete_u32, complete_i64, complete_u64, complete_float,
}
use py_pointless.Reader.{Pointless, read, value_at, pc_offset}

-- What is done with a pointer or a number, where it is there
abbrev pub after : {A B : Type 0} → Option A → (A → Option B) → Option B
after none k = none
after (some a) k = k a

-- `PC_HEAP_OFFSET`, behind the assertion on the reference
unfoldable pub heap_entry : Pointless → ℕ → ℕ → ℕ → Option ℕ
unfolding pc_offset
heap_entry p n offsets v =
    if ltb v n then after (pc_offset p offsets v) (λ o. some (p.heap_ptr + o)) else none

-- `assert((size_t)ptr % 4 == 0)`
abbrev pub aligned : Option ℕ → Option ℕ
aligned none = none
aligned (some a) = if a % 4 == 0 then some a else none

-- A `pointless_value_t` of the file
unfoldable pub value_read : Pointless → ℕ → Option Value
unfolding value_at
value_read p a = if leb (a + 8) p.buflen then some (value_at p.buf a) else none

pub unicode_len : Pointless → ℕ → Option ℕ
unfolding heap_entry read
unicode_len p v = after (heap_entry p p.n_string_unicode p.string_unicode_offsets v) (read 4 p)

pub unicode_value : Pointless → ℕ → Option ℕ
unfolding heap_entry
unicode_value p v =
    after (heap_entry p p.n_string_unicode p.string_unicode_offsets v) (λ a. some (a + 4))

unfoldable pub unicode_value_ucs4 : Pointless → ℕ → Option ℕ
unfolding unicode_value
unicode_value_ucs4 p v = aligned (unicode_value p v)

pub string_value_len : Pointless → ℕ → Option ℕ
unfolding heap_entry read
string_value_len p v = after (heap_entry p p.n_string_unicode p.string_unicode_offsets v) (read 4 p)

unfoldable pub string_value_ascii : Pointless → ℕ → Option ℕ
unfolding heap_entry
string_value_ascii p v =
    after (heap_entry p p.n_string_unicode p.string_unicode_offsets v) (λ a. some (a + 4))

unfoldable pub vector_n_items : Pointless → Tag → ℕ → Option ℕ
unfolding heap_entry read
vector_n_items p vector_empty v = some 0
vector_n_items p t v = after (heap_entry p p.n_vector p.vector_offsets v) (read 4 p)

-- The base of an empty vector is a null pointer, 0 here, and is not read.
unfoldable pub vector_base_ptr : Pointless → Tag → ℕ → Option ℕ
unfolding heap_entry
vector_base_ptr p vector_empty v = some 0
vector_base_ptr p t v = after (heap_entry p p.n_vector p.vector_offsets v) (λ a. some (a + 4))

-- The pointers to the items of the types of vectors, behind the assertion on the type
unfoldable pub items_ptr : Pointless → Tag → ℕ → Option ℕ
unfolding vector_base_ptr
items_ptr p t v = aligned (vector_base_ptr p t v)

-- An item of `w` bytes
unfoldable pub item : ℕ → Pointless → Tag → ℕ → ℕ → Option ℕ
unfolding items_ptr read
item w p t v i = after (items_ptr p t v) (λ a. read w p (a + w * i))

unfoldable pub value_item : Pointless → Tag → ℕ → ℕ → Option Value
unfolding items_ptr value_read
value_item p t v i = after (items_ptr p t v) (λ a. value_read p (a + 8 * i))

-- `pointless_reader_vector_value_case`
unfoldable pub vector_value_case : Pointless → Tag → ℕ → ℕ → Option CompleteValue
unfolding item value_item value_to_complete complete_i32 complete_u32 complete_i64 complete_u64
    complete_float
vector_value_case p vector_value v i = map value_to_complete (value_item p vector_value v i)
vector_value_case p vector_value_hashable v i =
    map value_to_complete (value_item p vector_value_hashable v i)
vector_value_case p vector_i8 v i = map (λ x. complete_i32 (signed 8 x)) (item 1 p vector_i8 v i)
vector_value_case p vector_u8 v i = map complete_u32 (item 1 p vector_u8 v i)
vector_value_case p vector_i16 v i = map (λ x. complete_i32 (signed 16 x)) (item 2 p vector_i16 v i)
vector_value_case p vector_u16 v i = map complete_u32 (item 2 p vector_u16 v i)
vector_value_case p vector_i32 v i = map (λ x. complete_i32 (signed 32 x)) (item 4 p vector_i32 v i)
vector_value_case p vector_u32 v i = map complete_u32 (item 4 p vector_u32 v i)
vector_value_case p vector_i64 v i = map (λ x. complete_i64 (signed 64 x)) (item 8 p vector_i64 v i)
vector_value_case p vector_u64 v i = map complete_u64 (item 8 p vector_u64 v i)
vector_value_case p vector_float v i = map complete_float (item 4 p vector_float v i)
vector_value_case p _ v i = none

-- The header of a set, behind the assertions on the type and the alignment
unfoldable pub set_header : Pointless → Tag → ℕ → Option ℕ
unfolding pc_offset
set_header p set_value v =
    aligned (after (pc_offset p p.set_offsets v) (λ o. some (p.heap_ptr + o)))
set_header p _ v = none

unfoldable pub set_n_items : Pointless → Tag → ℕ → Option ℕ
unfolding set_header read
set_n_items p t v = after (set_header p t v) (read 4 p)

unfoldable pub set_hash_vector : Pointless → Tag → ℕ → Option Value
unfolding set_header value_read
set_hash_vector p t v = after (set_header p t v) (λ a. value_read p (a + 8))

unfoldable pub set_key_vector : Pointless → Tag → ℕ → Option Value
unfolding set_header value_read
set_key_vector p t v = after (set_header p t v) (λ a. value_read p (a + 16))

-- The header of a map
unfoldable pub map_header : Pointless → Tag → ℕ → Option ℕ
unfolding pc_offset
map_header p map_value_value v =
    aligned (after (pc_offset p p.map_offsets v) (λ o. some (p.heap_ptr + o)))
map_header p _ v = none

unfoldable pub map_n_items : Pointless → Tag → ℕ → Option ℕ
unfolding map_header read
map_n_items p t v = after (map_header p t v) (read 4 p)

unfoldable pub map_hash_vector : Pointless → Tag → ℕ → Option Value
unfolding map_header value_read
map_hash_vector p t v = after (map_header p t v) (λ a. value_read p (a + 8))

unfoldable pub map_key_vector : Pointless → Tag → ℕ → Option Value
unfolding map_header value_read
map_key_vector p t v = after (map_header p t v) (λ a. value_read p (a + 16))

unfoldable pub map_value_vector : Pointless → Tag → ℕ → Option Value
unfolding map_header value_read
map_value_vector p t v = after (map_header p t v) (λ a. value_read p (a + 24))
