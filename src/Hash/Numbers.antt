-- ===== src/Hash/Numbers.antt =====
-- The hashes of integers and of vectors of integers.
use py_pointless.Base.{
  ℕ, zero, suc, ◌≢◌, Bool, true, false, sym, ◌^◌, ◌<◌, ◌≡◌, ◌↔◌, refl, ap, Option, some, List, [],
  ◌∷◌, arith, length, All, uint32_max,
}
use mathlib.Core.Bool.{false≢true}
use py_pointless.Base.Int.{ℤ, pos, negsuc, pattern_of}
use py_pointless.Value.{
  Tag, vector_value_hashable, vector_u8, vector_u16, vector_u32, vector_u64, u32,
}
use py_pointless.Hash.{
  hash_i32, hash_i64, hash_u32, hash_u64, Element, value_item, raw_item, element_hash, hash_items,
  hash_vector, VectorHash, vector_hash_next, hash_int, Contents, hash_by_type, hash_value,
}

-- The 64-bit hash of an unsigned integer is its 32-bit one if and only if it is below the largest
-- 32-bit integer: the remainder is taken by `UINT32_MAX`.
pub hash_u64-hash_u32 : (v : ℕ) → v < 2 ^ 64 → (hash_u64 v ≡ hash_u32 v) ↔ (v < uint32_max)
unfolding hash_u64 hash_u32
hash_u64-hash_u32 v h = (λ e. omega arith, λ small. omega arith)

abbrev pub magnitude : ℤ → ℕ
magnitude (pos n) = n
magnitude (negsuc n) = n

abbrev is_pos : ℤ → Bool
is_pos (pos n) = true
is_pos (negsuc n) = false

-- A signed integer of 32 bits hashes as a 64-bit one, which is how it is looked up, to the hash that
-- it has in a table, if and only if it is not -1.
pub hash_i64-hash_i32 :
    (z : ℤ)
    → magnitude z < 2 ^ 31
    → (hash_i64 (pattern_of 64 z) ≡ hash_i32 (pattern_of 32 z)) ↔ (z ≢ negsuc 0)
unfolding hash_i64 hash_i32
hash_i64-hash_i32 (pos n) h = (λ _ e. false≢true (sym (ap is_pos e)), λ _. omega arith)
hash_i64-hash_i32 (negsuc zero) h = (λ e _. absurd (omega (arith, e)), λ ne. absurd (ne refl))
hash_i64-hash_i32 (negsuc (suc n)) h =
    (λ _ e. absurd (omega (arith, ap magnitude e)), λ _. omega arith)

-- Vectors of numbers, in the widths of the vectors
abbrev pub raw_items : List ℕ → List Element
raw_items [] = []
raw_items (n ∷ ns) = raw_item n ∷ raw_items ns

abbrev pub value_items : List ℕ → List Element
value_items [] = []
value_items (n ∷ ns) = value_item (record { tag = u32; data_u32 = n }) ∷ value_items ns

module _ (p : Contents) (hash_float : ℕ → ℕ) (fuel : ℕ) where
  items_as_values :
      (t : Tag) (ns : List ℕ) (state : VectorHash)
      → ((n : ℕ)
          → n < 2 ^ 32
          → element_hash (hash_value p hash_float (suc fuel)) hash_float t (raw_item n) ≡ some n)
      → All (λ n. n < 2 ^ 32) ns
      → hash_items (hash_value p hash_float (suc fuel)) hash_float t (raw_items ns) state
        ≡ hash_items
            (hash_value p hash_float (suc fuel))
            hash_float
            vector_value_hashable
            (value_items ns)
            state
  unfolding hash_items element_hash hash_value hash_by_type hash_int hash_u32
  items_as_values t [] state own h = refl
  items_as_values t (n ∷ ns) state own (hn, hns) =
      rw (own n hn, hash_items) (items_as_values t ns (vector_hash_next state n) own hns)

  same_length : (ns : List ℕ) → length (raw_items ns) ≡ length (value_items ns)
  same_length [] = refl
  same_length (n ∷ ns) = ap suc (same_length ns)

  -- Unsigned integers of at most 32 bits have one hash, whether they stand in a vector of their
  -- values or in one of 8, 16, 32 or 64 bits.
  pub hash_vector-width :
      (ns : List ℕ)
      → All (λ n. n < 2 ^ 32) ns
      → let values : Option ℕ =
          hash_vector
            (hash_value p hash_float (suc fuel))
            hash_float
            vector_value_hashable
            (value_items ns) in
        (hash_vector (hash_value p hash_float (suc fuel)) hash_float vector_u8 (raw_items ns)
          ≡ values)
        × (hash_vector (hash_value p hash_float (suc fuel)) hash_float vector_u16 (raw_items ns)
            ≡ values)
        × (hash_vector (hash_value p hash_float (suc fuel)) hash_float vector_u32 (raw_items ns)
            ≡ values)
        × (hash_vector (hash_value p hash_float (suc fuel)) hash_float vector_u64 (raw_items ns)
            ≡ values)
  unfolding hash_vector element_hash hash_u32
  hash_vector-width ns h = (
    rw (same_length ns) (items_as_values vector_u8 ns _ (λ n _. refl) h),
    rw (same_length ns) (items_as_values vector_u16 ns _ (λ n _. refl) h),
    rw (same_length ns) (items_as_values vector_u32 ns _ (λ n _. refl) h),
    rw (same_length ns) (items_as_values vector_u64 ns _ (λ n small. ap some (omega arith)) h),
  )
