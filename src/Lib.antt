-- ===== src/Lib.antt =====
-- A model of the C core of py-pointless: a library that writes JSON-like values to a read-only,
-- relocatable file and reads them back in place.
--
-- The program's parts. Values are built with the create functions (src/pointless_create.c) over
-- growing arrays (src/pointless_dynarray.c) whose sizes are computed with checked integers
-- (src/pointless_int_ops.c). Sets and maps are written as open-addressing hash tables
-- (src/pointless_hash_table.c). A reader validates a file (src/pointless_validate*.c) before it
-- looks anything up.
--
-- How it is modelled. Unsigned integers are natural numbers with the wrap written out (`u32`, `%`);
-- `size_t` has 64 bits. Arrays are lists, and an access out of range is a result of its own
-- (`fault`, `bad_access`), as is a loop that runs out of fuel.
--
-- - Base: the shared names, C's comparisons and casts, lists as arrays, and the digits of `&`, `|`.
-- - IntOps: src/pointless_int_ops.c. IntOps.Checked has `intop_*_mult`, `intop_*_add` and
--   `intop_*_init`, over the modulus of the width. IntOps.Eval has the recursive descent of the
--   expressions, with fuel for the depth of its calls, IntOps.Eval.Tokens the reading of tokens
--   from a string, with one round of fuel more than it has characters, and IntOps.Eval.Run the
--   run of what the descent leaves.
-- - DynArray: src/pointless_dynarray.c, on items in place of bytes. The allocator is a parameter
--   that says which sizes it finds. The fuel of the growing loop is the number of items wanted.
-- - Strings: src/pointless_unicode_utils.c. A string is the list of units from the pointer to the
--   end of its memory; the allocator is a parameter.
-- - BitUtils: src/bitutils.c. Memory is a function from offsets to bytes.
-- - Value: include/pointless/pointless_defs.h and src/pointless_value.c. The data of a value is the
--   bit pattern of its union; a signed integer is a `ℤ` of Base.Int, and its pattern in memory.
-- - BitVector: src/pointless_bitvector.c, the reads, hashes and comparisons over the tag, the data
--   and the buffer. The loops of the hashes have one round of fuel more than there are bits.
-- - Hash: src/pointless_hash.c, the hashes of read values, with fuel for the depth of a value. The
--   hash of a float is a parameter, and so is what the reader finds under a value's data.
-- - Cmp: of src/pointless_cmp.c, the order of strings and of integers.
--   Cmp.Reader has the order of the values of files, with fuel for the depth, which is 257 where an
--   error can be set: each call takes two of the 512 levels.
-- - Sort: src/custom_sort.c, over any comparison, with a round of fuel for each item.
-- - CycleMarker: src/pointless_cycle_marker.c. The callbacks over the containers are a record, and a
--   Judy array is a parameter with its laws. The fuel is 257, as in Cmp.Reader.
-- - Reader: of src/pointless_reader.c, how a buffer is opened and, in Reader.Items, strings, vectors
--   and the headers of sets and maps are read from it. The addresses of the offset vectors and of
--   the heap count from the start of the file. Reader.Tables has the iteration over a set or map
--   and the lookup of a key, over any hashes and comparison of keys;
--   Reader.Tables.Mapping has the search of an integer (src/pointless_reader_helpers.c), and
--   Reader.Bitvectors the read of the bits of a bitvector.
-- - Reader.Helpers: the other lookups of src/pointless_reader_helpers.c. The search along the hashes
--   of a key has the fuel of a probing. Reader.Helpers.SameKeys has the test that a map has the
--   keys of a set; each round of it reads a key, so the fuel is one more than the buffer's bytes.
-- - Eval: src/pointless_eval.c. A path is the list of its bytes, and the fuel of the loop is
--   one more than its length, since each step takes a byte at least. The arguments of a
--   placeholder are a list that the steps advance. A lookup that does not end, in a map without
--   a free bucket, is a result of its own (`endless`, `never_ends`). Eval.Typed has the paths
--   whose value must have a type.
-- - Walk: src/pointless_walk.c, over any callback. The fuel is the depth that it can reach.
-- - Validate: src/pointless_validate_heap_ref.c and src/pointless_validate_heap.c, the checks of a
--   value of a file. A failed assertion and a read past the end of the file are `fault`.
--   Validate.Pass has the three passes (src/pointless_validate.c); the fuel of their walks is 513,
--   for the depths from 0 to 512. The hashes of keys, their comparison and the cycle marker
--   are parameters.
-- - Create: of src/pointless_create.c, how a bitvector is compressed into a value;
--   Create.Vectors is the compression of a vector of values into one of numbers and what is
--   written of its items; Create.Cache is the cache of created values
--   (src/pointless_create_cache.c).
-- - HashTable: src/pointless_hash_table.c. Keys are of any type, and the comparison (a callback,
--   `pointless_cmp_reader` or `pointless_cmp_create`) is a parameter that may fail. The fuel of a
--   probing is `n_buckets + 8`: `perturb` is 0 after seven rounds, and `5 * i + 1`, which the
--   rounds follow from there, has a full cycle in HashTable.Cycle. HashTable.Search is the search
--   along the buckets of a hash, with the fuel of a probing for both of its loops.
--   HashTable.Populate is the filling of a table that is to be written, HashTable.Validation the
--   check of a table that was read (src/pointless_validate_hash_table.c).
--
-- Not modelled: the Judy arrays (judy-1.0.5, another project's library), the CPython binding
-- (python/, pointless_ext.c), printing (src/pointless_debug.c), the allocator
-- (src/pointless_malloc.c) and the arithmetic of floats; of the C core, recreation
-- (src/pointless_recreate.c), the wrappers of the cycle marker
-- (src/pointless_cycle_marker_wrappers.c), the arrays in which created values are kept and the
-- order in which a file is written from them, and the comparison and the hashing of values that are
-- being created.
mod Base
pub mod IntOps
pub mod DynArray
pub mod Eval
pub mod BitUtils
pub mod Sort
pub mod Strings
pub mod Value
pub mod BitVector
pub mod Hash
pub mod Cmp
pub mod Reader
pub mod CycleMarker
pub mod Walk
pub mod Validate
pub mod Create
pub mod HashTable
mod Tests
