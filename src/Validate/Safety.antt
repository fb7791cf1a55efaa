-- ===== src/Validate/Safety.antt =====
-- The checks on a value read nothing outside the file.
use py_pointless.Base.{
  ℕ, zero, suc, ◌+◌, ◌*◌, ◌^◌, ◌<◌, ◌≤◌, ◌≡◌, ◌≢◌, refl, Bool, true, false, not, some, ltb, ◌==◌,
  arith, if◌then◌else◌, Option-cases, inl, inr, lt→ltb,
}
use py_pointless.BitUtils.{Bytes}
use py_pointless.Reader.{Pointless, little_endian, init}
use py_pointless.Reader.Layout.{IsFile, WhenOpened, WhenOpened-map, init-IsFile}
use py_pointless.Reader.Words.{HasBytes, little_endian_bound, read_within, pc_offset_within}
use py_pointless.Value.{
  Tag, vector_value, vector_value_hashable, vector_i8, vector_u8, vector_i16, vector_u16,
  vector_i32, vector_u32, vector_i64, vector_u64, vector_float, vector_empty, unicode, string,
  bitvector, bitvector_packed, set_value, map_value_value, empty_slot, boolean, null,
}
use py_pointless.Validate.{
  ValidateError, premature_end, Verdict, valid, fault, invalid, check, with_read, heap_read,
  require_heap, require_size, text_bytes, check_units, text_at, vector_at, bitvector_at, set_at,
  map_at, at_entry, vector_heap, item_len, heap_value, heap_ref, ref_within, heap_entries, is_known,
  inline_invariants, then_check, value_checks,
}
use py_pointless.Validate.Bounds.{require_heap_iff, text_room}

-- The check ends in a verdict on the file: no assertion failed and nothing was read out of range.
abbrev pub IsSafe : Verdict → Type 0
IsSafe r = r ≢ fault

check-IsSafe : (ok : Bool) (e : ValidateError) → IsSafe (check ok e)
check-IsSafe true e = λ h. cc
check-IsSafe false e = λ h. cc

-- A branch that is safe under its test
guarded :
    (b : Bool) {x : Verdict} (e : ValidateError)
    → (b ≡ true → IsSafe x)
    → IsSafe (if b then x else invalid e)
guarded true e h = h refl
guarded false e h = λ q. cc

unless :
    (b : Bool) {x : Verdict} (e : ValidateError)
    → IsSafe x
    → IsSafe (if not b then invalid e else x)
unless true e h = h
unless false e h = λ q. cc

unless_true :
    (b : Bool) {x : Verdict} (e : ValidateError)
    → IsSafe x
    → IsSafe (elim b [ true ↦ invalid e | false ↦ x ])
unless_true true e h = λ q. cc
unless_true false e h = h

-- What is done behind a check that is safe
behind : (r next : Verdict) → IsSafe r → (r ≡ valid → IsSafe next) → IsSafe (then_check r next)
behind valid next h g = g refl
behind fault next h g = h
behind (invalid e) next h g = h

pub inline_invariants-IsSafe : (t : Tag) (v : ℕ) → IsSafe (inline_invariants t v)
unfolding inline_invariants
inline_invariants-IsSafe bitvector_packed v = check-IsSafe _ _
inline_invariants-IsSafe vector_empty v = check-IsSafe _ _
inline_invariants-IsSafe boolean v = check-IsSafe _ _
inline_invariants-IsSafe null v = check-IsSafe _ _
inline_invariants-IsSafe empty_slot v = check-IsSafe _ _
inline_invariants-IsSafe _ v = λ q. cc

pub heap_ref-IsSafe : (p : Pointless) (t : Tag) (v : ℕ) → IsSafe (heap_ref p t v)
unfolding heap_ref ref_within
heap_ref-IsSafe p t v = elim (Option-cases (heap_entries p t)) [
  | inl found ↦ rw found (check-IsSafe _ _)
  | inr ((n, e), found) ↦ rw found (check-IsSafe _ _)
]

-- A reference that `heap_ref` lets pass is below the number of entries.
check_valid : {v n : ℕ} (e : ValidateError) → check (ltb v n) e ≡ valid → v < n
check_valid e h = ground arith

module _ (p : Pointless) (file : IsFile p) where
  pub heap_fits : p.heap_len < 2 ^ 64
  heap_fits = omega (arith, file.fits, file.laid.heap_within)

  heap_read-IsSafe :
      (w o : ℕ) {k : ℕ → Verdict}
      → o + w ≤ p.heap_len
      → ((x : ℕ) → x < 256 ^ w → IsSafe (k x))
      → IsSafe (with_read (heap_read w p o) k)
  heap_read-IsSafe w o within h =
      rw (read_within w p (p.heap_ptr + o) (omega (arith, within, file.laid.heap_within))) (
        h (little_endian w p.buf (p.heap_ptr + o))
          (little_endian_bound w p.buf (p.heap_ptr + o) file.bytes))

  entry-IsSafe :
      (n offsets v : ℕ) {k : ℕ → Verdict}
      → offsets + 8 * n ≤ p.buflen
      → v < n
      → ((o : ℕ) → o < 2 ^ 64 → IsSafe (k o))
      → IsSafe (at_entry p n offsets v k)
  entry-IsSafe n offsets v within hv h =
      rw (lt→ltb v n hv, pc_offset_within p offsets n v within hv)
        (h (little_endian 8 p.buf (offsets + 8 * v))
          (little_endian_bound 8 p.buf (offsets + 8 * v) file.bytes))

  module _ (offset : ℕ) (ho : offset < 2 ^ 64) where
    room : (n : ℕ) → n < 2 ^ 64 → require_heap p offset n ≡ true → offset + n ≤ p.heap_len
    room n hn = (require_heap_iff p offset n heap_fits ho hn).0

    vector_at-IsSafe : (len : ℕ) → IsSafe (vector_at p (some len) offset)
    unfolding vector_at
    vector_at-IsSafe len =
        guarded (require_heap p offset 4) _
          λ h. heap_read-IsSafe 4 offset (room 4 (omega arith) h) (λ n_items hn. check-IsSafe _ _)

    bitvector_at-IsSafe : IsSafe (bitvector_at p offset)
    unfolding bitvector_at
    bitvector_at-IsSafe =
        guarded (require_heap p offset 4) _
          λ h. heap_read-IsSafe 4 offset (room 4 (omega arith) h) (λ n_bits hn. check-IsSafe _ _)

    set_at-IsSafe : IsSafe (set_at p offset)
    unfolding set_at
    set_at-IsSafe = guarded (require_heap p offset 24) _ λ h.
        let all : offset + 24 ≤ p.heap_len = room 24 (omega arith) h in
        heap_read-IsSafe 4 (offset + 8) (omega arith) λ hash_type _.
          unless (hash_type == 7) _
            (heap_read-IsSafe 4 (offset + 16) (omega arith) (λ key_type _. check-IsSafe _ _))

    map_at-IsSafe : IsSafe (map_at p offset)
    unfolding map_at
    map_at-IsSafe = guarded (require_heap p offset 32) _ λ h.
        let all : offset + 32 ≤ p.heap_len = room 32 (omega arith) h in
        heap_read-IsSafe 4 (offset + 8) (omega arith) λ hash_type _. unless (hash_type == 7) _ (
          heap_read-IsSafe 4 (offset + 16) (omega arith) λ key_type _.
            unless (key_type == 1) _
              (heap_read-IsSafe 4 (offset + 24) (omega arith) (λ value_type _. check-IsSafe _ _)))

    check_units-IsSafe :
        (w left i : ℕ)
        → offset + 4 + w * i + w * (left + 1) ≤ p.heap_len
        → IsSafe (check_units w p offset left i)
    unfolding check_units
    check_units-IsSafe w zero i within =
        heap_read-IsSafe w (offset + 4 + w * i) (omega arith) (λ c _. check-IsSafe _ _)
    check_units-IsSafe w (suc left) i within =
        heap_read-IsSafe w (offset + 4 + w * i) (omega arith) λ c _.
          unless_true (c == 0) premature_end (check_units-IsSafe w left (i + 1) (omega arith))

    text_at-IsSafe : (w : ℕ) (e : ValidateError) → w ≤ 4 → IsSafe (text_at w p e offset)
    unfolding text_at
    text_at-IsSafe w e hw = guarded (require_heap p offset 4) _ λ h.
        heap_read-IsSafe 4 offset (room 4 (omega arith) h) λ s_len hs.
          guarded (require_size p offset (text_bytes w s_len)) _ λ g.
            let all : offset + (4 + (s_len + 1) * w) ≤ p.heap_len =
              (text_room p heap_fits offset ho w s_len hw (omega (arith, hs))).0 g in
            check_units-IsSafe w s_len 0 (omega (arith, all))

  vector_heap-IsSafe :
      (t : Tag) (len v : ℕ) → item_len t ≡ some len → v < p.n_vector → IsSafe (vector_heap p t v)
  unfolding vector_heap
  vector_heap-IsSafe t len v sized h = rw sized (
      entry-IsSafe p.n_vector p.vector_offsets v file.laid.vector_within h
        (λ o ho. vector_at-IsSafe o ho len))

  -- The data of a value whose reference is valid is checked within the file.
  pub heap_value-IsSafe : (t : Tag) (v : ℕ) → heap_ref p t v ≡ valid → IsSafe (heap_value p t v)
  unfolding heap_ref heap_entries ref_within is_known heap_value item_len
  heap_value-IsSafe vector_value v h = vector_heap-IsSafe vector_value 8 v refl (check_valid _ h)
  heap_value-IsSafe vector_value_hashable v h =
      vector_heap-IsSafe vector_value_hashable 8 v refl (check_valid _ h)
  heap_value-IsSafe vector_i8 v h = vector_heap-IsSafe vector_i8 1 v refl (check_valid _ h)
  heap_value-IsSafe vector_u8 v h = vector_heap-IsSafe vector_u8 1 v refl (check_valid _ h)
  heap_value-IsSafe vector_i16 v h = vector_heap-IsSafe vector_i16 2 v refl (check_valid _ h)
  heap_value-IsSafe vector_u16 v h = vector_heap-IsSafe vector_u16 2 v refl (check_valid _ h)
  heap_value-IsSafe vector_i32 v h = vector_heap-IsSafe vector_i32 4 v refl (check_valid _ h)
  heap_value-IsSafe vector_u32 v h = vector_heap-IsSafe vector_u32 4 v refl (check_valid _ h)
  heap_value-IsSafe vector_i64 v h = vector_heap-IsSafe vector_i64 8 v refl (check_valid _ h)
  heap_value-IsSafe vector_u64 v h = vector_heap-IsSafe vector_u64 8 v refl (check_valid _ h)
  heap_value-IsSafe vector_float v h = vector_heap-IsSafe vector_float 4 v refl (check_valid _ h)
  heap_value-IsSafe unicode v h =
      entry-IsSafe p.n_string_unicode p.string_unicode_offsets v file.laid.string_unicode_within
        (check_valid _ h) (λ o ho. text_at-IsSafe o ho 4 _ (omega arith))
  heap_value-IsSafe string v h =
      entry-IsSafe p.n_string_unicode p.string_unicode_offsets v file.laid.string_unicode_within
        (check_valid _ h) (λ o ho. text_at-IsSafe o ho 1 _ (omega arith))
  heap_value-IsSafe bitvector v h =
      entry-IsSafe p.n_bitvector p.bitvector_offsets v file.laid.bitvector_within (check_valid _ h)
        (λ o ho. bitvector_at-IsSafe o ho)
  heap_value-IsSafe set_value v h =
      entry-IsSafe p.n_set p.set_offsets v file.laid.set_within (check_valid _ h)
        (λ o ho. set_at-IsSafe o ho)
  heap_value-IsSafe map_value_value v h =
      entry-IsSafe p.n_map p.map_offsets v file.laid.map_within (check_valid _ h)
        (λ o ho. map_at-IsSafe o ho)
  heap_value-IsSafe _ v h = λ q. cc

  checks-IsSafe : (t : Tag) (v : ℕ) → IsSafe (value_checks p t v)
  unfolding value_checks
  checks-IsSafe t v = behind (heap_ref p t v) _ (heap_ref-IsSafe p t v) λ h.
      behind (inline_invariants t v) _ (inline_invariants-IsSafe t v) λ _. heap_value-IsSafe t v h

-- In a file that opens, the checks of a value, whatever its type and its data are, end in a
-- verdict: every assertion holds, and every read lies within the file.
pub value_checks-IsSafe :
    (buf : Bytes) (buflen : ℕ)
    → HasBytes buf
    → buflen < 2 ^ 64
    → (t : Tag) (v : ℕ) → WhenOpened (λ p. IsSafe (value_checks p t v)) (init buf buflen)
value_checks-IsSafe buf buflen bytes fits t v =
    WhenOpened-map (init buf buflen) (λ p file. checks-IsSafe p file t v)
      (init-IsFile buf buflen bytes fits)
