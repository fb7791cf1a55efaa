-- ===== src/Reader.antt =====
-- src/pointless_reader.c: a file in memory, from which values are read in place. Addresses count
-- from the start of the file, whose memory is aligned; a read past its end is `none`.
pub mod Layout
pub mod Words
pub mod Items
pub mod Tables
pub mod Bitvectors
pub mod Helpers
use py_pointless.Base.{
  ℕ, zero, suc, ◌+◌, ◌-◌, ◌*◌, not, ◌&&◌, Option, none, some, ltb, leb, ◌==◌, if◌then◌else◌,
}
use py_pointless.BitUtils.{Bytes}
use py_pointless.Value.{
  Tag, Value, vector_value, vector_value_hashable, vector_i8, vector_u8, vector_i16, vector_u16,
  vector_i32, vector_u32, vector_i64, vector_u64, vector_float, vector_empty, unicode, string,
  bitvector, bitvector_0, bitvector_1, bitvector_01, bitvector_10, bitvector_packed, set_value,
  map_value_value, empty_slot, i32, u32, float, boolean, null, i64, u64, unknown,
}

-- `w` bytes at an address, little-endian
unfoldable pub little_endian : ℕ → Bytes → ℕ → ℕ
little_endian zero mem a = 0
little_endian (suc w) mem a = mem a + 256 * little_endian w mem (a + 1)

-- The tag that a type code stands for
pub tag_of : ℕ → Tag
tag_of code =
    if code == 0
    then vector_value
    else if code == 1
    then vector_value_hashable
    else if code == 2
    then vector_i8
    else if code == 3
    then vector_u8
    else if code == 4
    then vector_i16
    else if code == 5
    then vector_u16
    else if code == 6
    then vector_i32
    else if code == 7
    then vector_u32
    else if code == 8
    then vector_float
    else if code == 9
    then vector_empty
    else if code == 10
    then unicode
    else if code == 11
    then bitvector
    else if code == 12
    then bitvector_0
    else if code == 13
    then bitvector_1
    else if code == 14
    then bitvector_01
    else if code == 15
    then bitvector_10
    else if code == 16
    then bitvector_packed
    else if code == 17
    then set_value
    else if code == 18
    then map_value_value
    else if code == 19
    then empty_slot
    else if code == 20
    then i32
    else if code == 21
    then u32
    else if code == 22
    then float
    else if code == 23
    then boolean
    else if code == 24
    then null
    else if code == 25
    then vector_i64
    else if code == 26
    then vector_u64
    else if code == 27
    then i64
    else if code == 28
    then u64
    else if code == 29
    then string
    else unknown code

-- `pointless_value_t` in memory: the type and the data
pub value_at : Bytes → ℕ → Value
unfolding tag_of little_endian
value_at mem a = record {
  tag = tag_of (little_endian 4 mem a);
  data_u32 = little_endian 4 mem (a + 4);
}

-- `pointless_t`, behind `pointless_init`; the offset vectors and the heap are addresses.
pub record Pointless : Type 0 where
  pub buf : Bytes
  pub buflen : ℕ
  pub root : Value
  pub n_string_unicode : ℕ
  pub n_vector : ℕ
  pub n_bitvector : ℕ
  pub n_set : ℕ
  pub n_map : ℕ
  pub string_unicode_offsets : ℕ
  pub vector_offsets : ℕ
  pub bitvector_offsets : ℕ
  pub set_offsets : ℕ
  pub map_offsets : ℕ
  pub heap_ptr : ℕ
  pub heap_len : ℕ

pub data InitError : Type 0 where
  header_missing old_hash_version unsupported_version too_small : InitError

pub data Opened : Type 0 where
  opened : Pointless → Opened
  rejected : InitError → Opened

-- The versions of the format
abbrev pub version_32_oldhash : ℕ
version_32_oldhash = 0

abbrev pub version_32_newhash : ℕ
version_32_newhash = 1

abbrev pub version_64_newhash : ℕ
version_64_newhash = 2

unfoldable pub mandatory_size : Bytes → ℕ
unfolding little_endian
mandatory_size buf =
    32
    + little_endian 4 buf 8 * 8
    + little_endian 4 buf 12 * 8
    + little_endian 4 buf 16 * 8
    + little_endian 4 buf 20 * 8
    + little_endian 4 buf 24 * 8

-- The offset vectors stand behind the header, one behind another, and then the heap.
unfoldable pub layout : Bytes → ℕ → Pointless
unfolding value_at little_endian mandatory_size
layout buf buflen =
    let n_string_unicode = little_endian 4 buf 8 in
    let n_vector = little_endian 4 buf 12 in
    let n_bitvector = little_endian 4 buf 16 in
    let n_set = little_endian 4 buf 20 in
    let n_map = little_endian 4 buf 24 in
    let string_unicode_offsets : ℕ = 32 in
    let vector_offsets = string_unicode_offsets + 8 * n_string_unicode in
    let bitvector_offsets = vector_offsets + 8 * n_vector in
    let set_offsets = bitvector_offsets + 8 * n_bitvector in
    let map_offsets = set_offsets + 8 * n_set in
    record {
      buf = buf;
      buflen = buflen;
      root = value_at buf 0;
      n_string_unicode = n_string_unicode;
      n_vector = n_vector;
      n_bitvector = n_bitvector;
      n_set = n_set;
      n_map = n_map;
      string_unicode_offsets = string_unicode_offsets;
      vector_offsets = vector_offsets;
      bitvector_offsets = bitvector_offsets;
      set_offsets = set_offsets;
      map_offsets = map_offsets;
      heap_ptr = map_offsets + 8 * n_map;
      heap_len = buflen - mandatory_size buf;
    }

-- The checks of `pointless_init`. A file of the second version sets an error, and is opened all
-- the same.
pub header_error : ℕ → ℕ → ℕ → Option InitError
header_error buflen version mandatory =
    if ltb buflen 32
    then some header_missing
    else if version == version_32_oldhash
    then some old_hash_version
    else if not (version == version_32_newhash) && not (version == version_64_newhash)
    then some unsupported_version
    else if ltb buflen mandatory
    then some too_small
    else none

pub finish_init : Option InitError → Pointless → Opened
finish_init (some e) p = rejected e
finish_init none p = opened p

-- `pointless_init` without the validation
unfoldable pub init : Bytes → ℕ → Opened
unfolding header_error finish_init little_endian mandatory_size layout
init buf buflen =
    finish_init (header_error buflen (little_endian 4 buf 28) (mandatory_size buf))
      (layout buf buflen)

-- `w` bytes of the file
unfoldable pub read : ℕ → Pointless → ℕ → Option ℕ
unfolding little_endian
read w p a = if leb (a + w) p.buflen then some (little_endian w p.buf a) else none

-- `PC_OFFSET`: an entry of an offset vector
unfoldable pub pc_offset : Pointless → ℕ → ℕ → Option ℕ
unfolding read
pc_offset p offsets i = read 8 p (offsets + 8 * i)
