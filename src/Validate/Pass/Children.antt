-- ===== src/Validate/Pass/Children.antt =====
-- The children of a value that has passed its checks can be read, where the offsets of the file are
-- multiples of four.
use py_pointless.Base.{
  ℕ, ◌+◌, ◌*◌, ◌%◌, ◌^◌, ◌<◌, ◌≤◌, ◌≡◌, refl, Bool, true, false, some, leb, ltb, ◌==◌, lt→ltb,
  arith, if◌then◌else◌,
}
use py_pointless.Value.{Tag, vector_value, vector_value_hashable, set_value, map_value_value}
use py_pointless.Reader.{Pointless, little_endian, value_at, read}
use py_pointless.Reader.Layout.{IsFile}
use py_pointless.Reader.Words.{little_endian_bound, read_within, pc_offset_within}
use py_pointless.Reader.Items.{
  heap_entry, after, value_read, vector_n_items, vector_base_ptr, items_ptr, set_header,
  set_hash_vector, set_key_vector, map_header, map_hash_vector, map_key_vector, map_value_vector,
}
use py_pointless.Walk.Calm.{IsThere, HasItems, HasChildren}
use py_pointless.Validate.{
  ValidateError, Verdict, valid, invalid, check, item_len, require_heap, set_at, map_at, at_entry,
  vector_heap, heap_ref, ref_within, heap_entries, heap_value,
}
use py_pointless.Validate.Bounds.{count_at, require_heap_iff}
use py_pointless.Validate.Safety.{heap_fits}
use py_pointless.Validate.Reading.{vector_offset, behind_count, heap_entry_lem, vector_room, below}

abbrev pub offset_at : Pointless → ℕ → ℕ → ℕ
offset_at p offsets v = little_endian 8 p.buf (offsets + 8 * v)

-- Vectors, sets and maps stand at multiples of four.
pub record IsAligned (p : Pointless) : Type 0 where
  pub vectors : (v : ℕ) → v < p.n_vector → offset_at p p.vector_offsets v % 4 ≡ 0
  pub sets : (v : ℕ) → v < p.n_set → offset_at p p.set_offsets v % 4 ≡ 0
  pub maps : (v : ℕ) → v < p.n_map → offset_at p p.map_offsets v % 4 ≡ 0

check_true : {v n : ℕ} (e : ValidateError) → check (ltb v n) e ≡ valid → v < n
check_true e h = ground arith

guard_true :
    (b : Bool) (r : Verdict) (e : ValidateError) → (if b then r else invalid e) ≡ valid → b ≡ true
guard_true true r e h = refl
guard_true false r e h = cc

module _ (p : Pointless) (file : IsFile p) where
  header_room :
      (n offsets v size : ℕ)
      → offsets + 8 * n ≤ p.buflen
      → v < n
      → size < 2 ^ 64
      → require_heap p (offset_at p offsets v) size ≡ true
      → offset_at p offsets v + size ≤ p.heap_len
  header_room n offsets v size within hv small =
      (require_heap_iff p (offset_at p offsets v) size (heap_fits p file)
        (little_endian_bound 8 p.buf (offsets + 8 * v) file.bytes) small).0

  set_room :
      (v : ℕ)
      → v < p.n_set
      → at_entry p p.n_set p.set_offsets v (set_at p) ≡ valid
      → offset_at p p.set_offsets v + 24 ≤ p.heap_len
  unfolding set_at
  set_room v hv h = header_room p.n_set p.set_offsets v 24 file.laid.set_within hv (omega arith) (
      guard_true _ _ _ (
        rw (lt→ltb v p.n_set hv, pc_offset_within p p.set_offsets p.n_set v file.laid.set_within hv)
          at h))

  map_room :
      (v : ℕ)
      → v < p.n_map
      → at_entry p p.n_map p.map_offsets v (map_at p) ≡ valid
      → offset_at p p.map_offsets v + 32 ≤ p.heap_len
  unfolding map_at
  map_room v hv h = header_room p.n_map p.map_offsets v 32 file.laid.map_within hv (omega arith) (
      guard_true _ _ _ (
        rw (lt→ltb v p.n_map hv, pc_offset_within p p.map_offsets p.n_map v file.laid.map_within hv)
          at h))

module _ (p : Pointless) (file : IsFile p) (even : IsAligned p) where
  value_read-IsThere : (a : ℕ) → a + 8 ≤ p.buflen → IsThere (value_read p a)
  unfolding value_read
  value_read-IsThere a within =
      let fits : leb (a + 8) p.buflen ≡ true = ground arith in rw fits (value_at p.buf a, refl)

  has_items :
      (t : Tag) (v : ℕ)
      → item_len t ≡ some 8
      → v < p.n_vector
      → vector_n_items p t v ≡ after (heap_entry p p.n_vector p.vector_offsets v) (read 4 p)
      → vector_base_ptr p t v ≡ behind_count p v
      → vector_heap p t v ≡ valid
      → HasItems p t v
  unfolding items_ptr
  has_items t v sized hv count base h =
      let o = vector_offset p v in
      let a = p.heap_ptr + o + 4 in
      let room : o + (4 + 8 * count_at p o) ≤ p.heap_len =
        vector_room p file v hv t 8 sized (omega arith) h in
      let on_four : (a % 4 == 0) ≡ true =
        ground (arith, file.laid.heap_aligned, even.vectors v hv) in
      (
        count_at p o,
        a,
        rw (count, heap_entry_lem p file v hv)
            (read_within 4 p (p.heap_ptr + o) (omega (arith, room, file.laid.heap_within))),
        rw (base, heap_entry_lem p file v hv, on_four) refl,
        λ i hi. value_read-IsThere (a + 8 * i) (omega (arith, room, file.laid.heap_within)),
      )

  -- A value in the header of a set, or of a map
  set_child :
      (v d : ℕ)
      → v < p.n_set
      → at_entry p p.n_set p.set_offsets v (set_at p) ≡ valid
      → d + 8 ≤ 24
      → IsThere (after (set_header p set_value v) (λ a. value_read p (a + d)))
  unfolding set_header
  set_child v d hv h within =
      let o = offset_at p p.set_offsets v in
      let on_four : ((p.heap_ptr + o) % 4 == 0) ≡ true =
        ground (arith, file.laid.heap_aligned, even.sets v hv) in
      rw (pc_offset_within p p.set_offsets p.n_set v file.laid.set_within hv, on_four)
        (value_read-IsThere (p.heap_ptr + o + d)
          (omega (arith, set_room p file v hv h, file.laid.heap_within)))

  map_child :
      (v d : ℕ)
      → v < p.n_map
      → at_entry p p.n_map p.map_offsets v (map_at p) ≡ valid
      → d + 8 ≤ 32
      → IsThere (after (map_header p map_value_value v) (λ a. value_read p (a + d)))
  unfolding map_header
  map_child v d hv h within =
      let o = offset_at p p.map_offsets v in
      let on_four : ((p.heap_ptr + o) % 4 == 0) ≡ true =
        ground (arith, file.laid.heap_aligned, even.maps v hv) in
      rw (pc_offset_within p p.map_offsets p.n_map v file.laid.map_within hv, on_four)
        (value_read-IsThere (p.heap_ptr + o + d)
          (omega (arith, map_room p file v hv h, file.laid.heap_within)))

  -- The children of a value that has passed its checks can be read.
  pub children-HasChildren :
      (t : Tag) (v : ℕ) → heap_ref p t v ≡ valid → heap_value p t v ≡ valid → HasChildren p t v
  unfolding heap_ref heap_entries ref_within heap_value item_len vector_n_items vector_base_ptr
      set_hash_vector set_key_vector map_hash_vector map_key_vector map_value_vector
  children-HasChildren vector_value v h g = has_items vector_value v refl (below h) refl refl g
  children-HasChildren vector_value_hashable v h g =
      has_items vector_value_hashable v refl (below h) refl refl g
  children-HasChildren set_value v h g =
      let hv : v < p.n_set = check_true _ h in
      (set_child v 8 hv g (omega arith), set_child v 16 hv g (omega arith))
  children-HasChildren map_value_value v h g =
      let hv : v < p.n_map = check_true _ h in
      (
        map_child v 8 hv g (omega arith),
        map_child v 16 hv g (omega arith),
        map_child v 24 hv g (omega arith),
      )
  children-HasChildren _ v h g = tt
