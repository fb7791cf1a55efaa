-- ===== src/Validate/Reading.antt =====
-- The reads of a vector whose checks have passed.
use mathlib.Core.Bool.{false≢true}
use mathlib.Core.Option.{map}
use native.Mathlib.Nat.{mul-le-mul_left}
use py_pointless.Base.{
  ℕ, ◌+◌, ◌*◌, ◌%◌, ◌^◌, ◌<◌, ◌≤◌, ◌≡◌, ◌↔◌, refl, Bool, true, false, Option, none, some, ltb, leb,
  ◌==◌, Bool-cases, inl, inr, lt→ltb, arith, if◌then◌else◌,
}
use py_pointless.Value.{
  Tag, CompleteValue, value_to_complete, vector_value, vector_value_hashable, vector_i8, vector_u8,
  vector_i16, vector_u16, vector_i32, vector_u32, vector_i64, vector_u64, vector_float,
}
use py_pointless.Reader.{Pointless, little_endian, value_at, read}
use py_pointless.Reader.Layout.{IsFile}
use py_pointless.Reader.Words.{little_endian_bound, read_within, pc_offset_within}
use py_pointless.Reader.Items.{
  heap_entry, aligned, after, value_read, vector_base_ptr, items_ptr, item, value_item,
  vector_value_case,
}
use py_pointless.Value.Accessors.{
  complete_i32, complete_u32, complete_i64, complete_u64, complete_float,
}
use py_pointless.Base.Int.{signed}
use py_pointless.Validate.{
  vector_reference, heap_entries, ref_within, valid, check, item_len, vector_heap, heap_ref,
  heap_value,
}
use py_pointless.Validate.Bounds.{count_at}
use py_pointless.Validate.Vectors.{vector_at_iff}

abbrev pub IsRead : {A : Type 0} → Option A → Type 0
IsRead {A} o = (x : A) × (o ≡ some x)

-- Where a vector stands on the heap
abbrev pub vector_offset : Pointless → ℕ → ℕ
vector_offset p v = little_endian 8 p.buf (p.vector_offsets + 8 * v)

if_iff :
    {A : Type 0} (f : A → CompleteValue) (x : A) (b : Bool) {P : Type 0}
    → ((b ≡ true) ↔ P)
    → IsRead (map f (if b then some x else none)) ↔ P
if_iff f x true (to, from) = (λ _. to refl, λ _. (f x, refl))
if_iff f x false (to, from) = (λ (y, e). cc, λ q. absurd (false≢true (from q)))

pub below : {v n : ℕ} → check (ltb v n) vector_reference ≡ valid → v < n
below h = ground arith

-- The items of a vector stand behind their number.
abbrev pub behind_count : Pointless → ℕ → Option ℕ
behind_count p v = after (heap_entry p p.n_vector p.vector_offsets v) (λ a. some (a + 4))

module _ (p : Pointless) (file : IsFile p) (v : ℕ) (hv : v < p.n_vector) where
  pub heap_entry_lem :
      heap_entry p p.n_vector p.vector_offsets v ≡ some (p.heap_ptr + vector_offset p v)
  unfolding heap_entry
  heap_entry_lem =
      rw
        (
          lt→ltb v p.n_vector hv,
          pc_offset_within p p.vector_offsets p.n_vector v file.laid.vector_within hv,
        )
        refl

  pub vector_room :
      (t : Tag) (len : ℕ)
      → item_len t ≡ some len
      → len ≤ 8
      → vector_heap p t v ≡ valid
      → vector_offset p v + (4 + len * count_at p (vector_offset p v)) ≤ p.heap_len
  unfolding vector_heap
  vector_room t len sized hl h =
      let offset_lt : vector_offset p v < 2 ^ 64 =
        little_endian_bound 8 p.buf (p.vector_offsets + 8 * v) file.bytes in
      ((vector_at_iff p len (vector_offset p v) file hl offset_lt).0 (
        rw
          (
            lt→ltb v p.n_vector hv,
            pc_offset_within p p.vector_offsets p.n_vector v file.laid.vector_within hv,
            sized,
          )
          at h)).1

  aligned_iff : ((p.heap_ptr + vector_offset p v + 4) % 4 == 0) ≡ true ↔ (vector_offset p v % 4 ≡ 0)
  aligned_iff = ground (arith, file.laid.heap_aligned)

  read-aligned :
      (w a i : ℕ)
      → a + w * i + w ≤ p.buflen
      → after (aligned (some a)) (λ b. read w p (b + w * i))
        ≡ (if a % 4 == 0 then some (little_endian w p.buf (a + w * i)) else none)
  read-aligned w a i within = elim (Bool-cases (a % 4 == 0)) [
    | inl y ↦ rw y (read_within w p (a + w * i) within)
    | inr n ↦ rw n refl
  ]

  value_read-aligned :
      (a i : ℕ)
      → a + 8 * i + 8 ≤ p.buflen
      → after (aligned (some a)) (λ b. value_read p (b + 8 * i))
        ≡ (if a % 4 == 0 then some (value_at p.buf (a + 8 * i)) else none)
  unfolding value_read
  value_read-aligned a i within =
      let fits : leb (a + 8 * i + 8) p.buflen ≡ true = ground arith in
      elim (Bool-cases (a % 4 == 0)) [ inl y ↦ rw (y, fits) refl | inr n ↦ rw n refl ]

  module _ (i : ℕ) (hi : i < count_at p (vector_offset p v)) where
    item_iff :
        (w : ℕ) (t : Tag) (f : ℕ → CompleteValue)
        → vector_base_ptr p t v ≡ behind_count p v
        → vector_offset p v + (4 + w * count_at p (vector_offset p v)) ≤ p.heap_len
        → IsRead (map f (item w p t v i)) ↔ (vector_offset p v % 4 ≡ 0)
    unfolding item items_ptr
    item_iff w t f base room =
        let a = p.heap_ptr + vector_offset p v + 4 in
        let fits : w * (i + 1) ≤ w * count_at p (vector_offset p v) =
          mul-le-mul_left w (omega arith) in
        rw
          (
            base,
            heap_entry_lem,
            read-aligned w a i (omega (arith, fits, room, file.laid.heap_within)),
          )
          (if_iff f (little_endian w p.buf (a + w * i)) (a % 4 == 0) aligned_iff)

    value_item_iff :
        (t : Tag)
        → vector_base_ptr p t v ≡ behind_count p v
        → vector_offset p v + (4 + 8 * count_at p (vector_offset p v)) ≤ p.heap_len
        → IsRead (map value_to_complete (value_item p t v i)) ↔ (vector_offset p v % 4 ≡ 0)
    unfolding value_item items_ptr
    value_item_iff t base room =
        let a = p.heap_ptr + vector_offset p v + 4 in
        rw
          (
            base,
            heap_entry_lem,
            value_read-aligned a i (omega (arith, room, file.laid.heap_within)),
          )
          (if_iff value_to_complete (value_at p.buf (a + 8 * i)) (a % 4 == 0) aligned_iff)

-- An item of a vector that has passed its checks is read, at every index below the number of
-- items, if and only if the offset of the vector is a multiple of four, which is not checked.
pub vector_value_case_iff :
    (p : Pointless) (t : Tag) (v i len : ℕ)
    → IsFile p
    → item_len t ≡ some len
    → heap_ref p t v ≡ valid
    → heap_value p t v ≡ valid
    → i < count_at p (vector_offset p v)
    → IsRead (vector_value_case p t v i) ↔ (vector_offset p v % 4 ≡ 0)
unfolding vector_value_case heap_ref heap_entries ref_within heap_value item_len vector_base_ptr
vector_value_case_iff p vector_value v i len file sized h g hi =
    value_item_iff p file v (below h) i hi vector_value refl
      (vector_room p file v (below h) vector_value 8 refl (omega arith) g)
vector_value_case_iff p vector_value_hashable v i len file sized h g hi =
    value_item_iff p file v (below h) i hi vector_value_hashable refl
      (vector_room p file v (below h) vector_value_hashable 8 refl (omega arith) g)
vector_value_case_iff p vector_i8 v i len file sized h g hi =
    item_iff p file v (below h) i hi 1 vector_i8 (λ x. complete_i32 (signed 8 x)) refl
      (vector_room p file v (below h) vector_i8 1 refl (omega arith) g)
vector_value_case_iff p vector_u8 v i len file sized h g hi =
    item_iff p file v (below h) i hi 1 vector_u8 complete_u32 refl
      (vector_room p file v (below h) vector_u8 1 refl (omega arith) g)
vector_value_case_iff p vector_i16 v i len file sized h g hi =
    item_iff p file v (below h) i hi 2 vector_i16 (λ x. complete_i32 (signed 16 x)) refl
      (vector_room p file v (below h) vector_i16 2 refl (omega arith) g)
vector_value_case_iff p vector_u16 v i len file sized h g hi =
    item_iff p file v (below h) i hi 2 vector_u16 complete_u32 refl
      (vector_room p file v (below h) vector_u16 2 refl (omega arith) g)
vector_value_case_iff p vector_i32 v i len file sized h g hi =
    item_iff p file v (below h) i hi 4 vector_i32 (λ x. complete_i32 (signed 32 x)) refl
      (vector_room p file v (below h) vector_i32 4 refl (omega arith) g)
vector_value_case_iff p vector_u32 v i len file sized h g hi =
    item_iff p file v (below h) i hi 4 vector_u32 complete_u32 refl
      (vector_room p file v (below h) vector_u32 4 refl (omega arith) g)
vector_value_case_iff p vector_i64 v i len file sized h g hi =
    item_iff p file v (below h) i hi 8 vector_i64 (λ x. complete_i64 (signed 64 x)) refl
      (vector_room p file v (below h) vector_i64 8 refl (omega arith) g)
vector_value_case_iff p vector_u64 v i len file sized h g hi =
    item_iff p file v (below h) i hi 8 vector_u64 complete_u64 refl
      (vector_room p file v (below h) vector_u64 8 refl (omega arith) g)
vector_value_case_iff p vector_float v i len file sized h g hi =
    item_iff p file v (below h) i hi 4 vector_float complete_float refl
      (vector_room p file v (below h) vector_float 4 refl (omega arith) g)
vector_value_case_iff p _ v i len file sized h g hi = cc
