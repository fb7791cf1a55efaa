-- ===== src/Validate/Vectors.antt =====
-- Vectors and bitvectors that pass their checks lie on the heap.
use py_pointless.Base.{ℕ, ◌+◌, ◌*◌, ◌/◌, ◌^◌, ◌<◌, ◌≤◌, ◌≡◌, ◌↔◌, sym, some, arith}
use py_pointless.Reader.{Pointless}
use py_pointless.Reader.Layout.{IsFile}
use py_pointless.Reader.Words.{little_endian_bound, read_within}
use py_pointless.Validate.{
  valid, require_heap, require_size, vector_bytes, vector_header, vector_body, bitvector_size,
  vector_at, bitvector_at, iceil8,
}
use py_pointless.Validate.Bounds.{count_at, guard_iff, check_iff, require_heap_iff, vector_room}

-- A vector passes its check if and only if the heap has room for the count of its items, and for
-- the items behind it.
pub vector_at_iff :
    (p : Pointless) (len offset : ℕ)
    → IsFile p
    → len ≤ 8
    → offset < 2 ^ 64
    → (vector_at p (some len) offset ≡ valid)
      ↔ ((offset + 4 ≤ p.heap_len) × (offset + (4 + len * count_at p offset) ≤ p.heap_len))
unfolding vector_at
vector_at_iff p len offset file hl ho =
    let a = p.heap_ptr + offset in
    let fits : p.heap_len < 2 ^ 64 = omega (arith, file.fits, file.laid.heap_within) in
    let header = require_heap_iff p offset 4 fits ho (omega arith) in
    guard_iff (require_heap p offset 4) _ vector_header header λ found.
      rw (read_within 4 p a (omega (arith, header.0 found, file.laid.heap_within))) (
        check_iff (require_size p offset (vector_bytes len (count_at p offset))) vector_body (
          vector_room p fits offset ho len (count_at p offset) hl
            (little_endian_bound 4 p.buf a file.bytes)))

iceil8_bound : (n : ℕ) → iceil8 n ≤ n / 8 + 1
iceil8_bound n = ground arith

-- A bitvector passes its check if and only if the heap has room for the count of its bits, and
-- for the bytes that hold them.
pub bitvector_at_iff :
    (p : Pointless) (offset : ℕ)
    → IsFile p
    → offset < 2 ^ 64
    → (bitvector_at p offset ≡ valid)
      ↔ ((offset + 4 ≤ p.heap_len) × (offset + (4 + (count_at p offset + 7) / 8) ≤ p.heap_len))
unfolding bitvector_at
bitvector_at_iff p offset file ho =
    let a = p.heap_ptr + offset in
    let n_bits = count_at p offset in
    let short : n_bits < 2 ^ 32 = little_endian_bound 4 p.buf a file.bytes in
    let bytes : iceil8 n_bits ≡ (n_bits + 7) / 8 = ground arith in
    let fits : p.heap_len < 2 ^ 64 = omega (arith, file.fits, file.laid.heap_within) in
    let header = require_heap_iff p offset 4 fits ho (omega arith) in
    guard_iff (require_heap p offset 4) _ bitvector_size header λ found.
      rw (read_within 4 p a (omega (arith, header.0 found, file.laid.heap_within))) (
        rw (sym bytes) (
          check_iff (require_heap p offset (4 + iceil8 n_bits)) bitvector_size (
            require_heap_iff p offset (4 + iceil8 n_bits) fits ho
              (omega (arith, iceil8_bound n_bits)))))
