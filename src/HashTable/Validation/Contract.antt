-- ===== src/HashTable/Validation/Contract.antt =====
-- A table that passes is one in which lookups end, and in which every key is found in its place.
use py_pointless.Base.{
  ℕ, ◌+◌, ◌^◌, ◌<◌, ◌≡◌, ◌∙◌, sym, Bool, true, false, Option, some, none, List, length, get_elem?,
  get_elem?-lt, ◌==◌, ==_iff, arith, inl, inr, Bool-cases, Option-cases,
}
use py_pointless.HashTable.{Table, hit, probe, compute_n_buckets}
use py_pointless.HashTable.Probe.{IsSized, IsFree, Answers, probe-Answers}
use py_pointless.HashTable.Buckets.{compute_n_buckets-power}
use py_pointless.HashTable.Validation.Checks.{
  passed, ended_at, hash_at-hashed, place_at-found, IsRefusal, IsCounted, count_slots-IsCounted,
  hash_at-IsRefusal, place_at-IsRefusal,
}
use py_pointless.HashTable.Validation.{
  TableVerdict, table_valid, bad_access, diverges, refused, Counted, counted, stopped, all_buckets,
  first_of, hash_at, place_at, after_count, sized_validate, validate,
}

module _ {K : Type 0} (t : Table K) (hashable : K → Bool) (hash_of : K → ℕ)
    (cmp : K → K → Option Bool) where
  -- A validated table: 2 ^ k buckets, of which one is empty; the key of every bucket is hashable
  -- and stands with its hash, and a probing for it returns its bucket; and every probing ends with
  -- an answer.
  pub record IsLookup : Type 0 where
    pub k : ℕ
    pub sized : IsSized k t
    pub free : ℕ
    pub free_slot : IsFree t free
    pub hashed :
        (b : ℕ) (key : K)
        → get_elem? t.keys b ≡ some key
        → (hashable key ≡ true) × (get_elem? t.hashes b ≡ some (hash_of key))
    pub found :
        (b : ℕ) (key : K)
        → get_elem? t.keys b ≡ some key
        → t.is_empty key ≡ false
        → probe t (hash_of key) (λ other. cmp other key) ≡ hit b
    pub answered :
        (h : ℕ) (is_equal : K → Option Bool)
        → h < 2 ^ 32
        → Answers t h is_equal (probe t h is_equal)

  -- What each verdict says
  abbrev pub Judges : ℕ → TableVerdict → Type 0
  Judges n_items table_valid = IsLookup
  Judges n_items (refused e) = Unit
  Judges n_items bad_access = ⊥
  Judges n_items diverges = compute_n_buckets n_items ≡ none

  IsRefusal-Judges :
      (n_items : ℕ) (v : TableVerdict) → IsRefusal t hashable hash_of cmp v → Judges n_items v
  IsRefusal-Judges n_items (refused e) h = tt
  IsRefusal-Judges n_items table_valid h = absurd h
  IsRefusal-Judges n_items bad_access h = h
  IsRefusal-Judges n_items diverges h = absurd h

  module _ (k : ℕ) (table : IsSized k t) (keys_sized : length t.keys ≡ t.n_buckets)
      (hashes_sized : length t.hashes ≡ t.n_buckets)
      (words : (b h : ℕ) → get_elem? t.hashes b ≡ some h → h < 2 ^ 32) where
    -- Both loops behind the counting have passed every bucket.
    passed-IsLookup :
        (free : ℕ)
        → IsFree t free
        → all_buckets (hash_at t hashable hash_of cmp) t.n_buckets 0 ≡ none
        → all_buckets (place_at t hashable hash_of cmp) t.n_buckets 0 ≡ none
        → IsLookup
    passed-IsLookup free slot hashes places = record {
      k = k;
      sized = table;
      free = free;
      free_slot = slot;
      hashed = λ b key at. hash_at-hashed t hashable hash_of cmp b key at (
          passed (hash_at t hashable hash_of cmp) t.n_buckets 0 b hashes (omega arith)
            (omega (arith, keys_sized, get_elem?-lt t.keys b at)));
      found = λ b key at used.
          let lt : b < 0 + t.n_buckets = omega (arith, keys_sized, get_elem?-lt t.keys b at) in
          place_at-found t hashable hash_of cmp b key at used
            (hash_at-hashed t hashable hash_of cmp b key at
              (passed (hash_at t hashable hash_of cmp) t.n_buckets 0 b hashes (omega arith) lt)).1
            (passed (place_at t hashable hash_of cmp) t.n_buckets 0 b places (omega arith) lt);
      answered = λ h is_equal small. probe-Answers t h is_equal k free table slot small;
    }

    loops-Judges :
        (n_items free : ℕ)
        → IsFree t free
        → Judges n_items (
            first_of
              (all_buckets (hash_at t hashable hash_of cmp) t.n_buckets 0)
              (first_of (all_buckets (place_at t hashable hash_of cmp) t.n_buckets 0) table_valid))
    unfolding first_of
    loops-Judges n_items free slot =
        elim (Option-cases (all_buckets (hash_at t hashable hash_of cmp) t.n_buckets 0)) [
          | inr (v, stop) ↦
              let (b, le, lt, at) =
                ended_at (hash_at t hashable hash_of cmp) t.n_buckets 0 v stop in
              rw stop (
                IsRefusal-Judges n_items v (
                  hash_at-IsRefusal t hashable hash_of cmp t.n_buckets keys_sized hashes_sized b v
                    (omega (arith, lt)) at))
          | inl hashes ↦
              rw hashes
                (elim (Option-cases (all_buckets (place_at t hashable hash_of cmp) t.n_buckets 0)) [
                  | inr (v, stop) ↦
                      let (b, le, lt, at) =
                        ended_at (place_at t hashable hash_of cmp) t.n_buckets 0 v stop in
                      rw stop (
                        IsRefusal-Judges n_items v (
                          place_at-IsRefusal t hashable hash_of cmp t.n_buckets keys_sized
                            hashes_sized k free table slot words b v (omega (arith, lt)) at))
                  | inl places ↦ rw places (passed-IsLookup free slot hashes places)
                ])
        ]

    after_count-Judges :
        (n_items : ℕ) (r : Counted)
        → IsCounted t hashable hash_of cmp 0 r
        → Judges n_items (after_count t hashable hash_of cmp n_items r)
    unfolding after_count
    after_count-Judges n_items (stopped v) h = IsRefusal-Judges n_items v h
    after_count-Judges n_items (counted n_used n_empty) (inl zero_empty) = rw zero_empty tt
    after_count-Judges n_items (counted n_used n_empty) (inr (free, slot)) =
        elim (Bool-cases (n_empty == 0)) [
          | inl full ↦ rw full tt
          | inr some_empty ↦ elim (Bool-cases (n_used == n_items)) [
            | inr other ↦ rw (some_empty, other) tt
            | inl same ↦ rw (some_empty, same) (loops-Judges n_items free slot)
          ]
        ]

  -- Where the vectors have as many items as there are buckets and the hashes have 32 bits, the
  -- validation reads nothing outside of them and its probings end: it loops only in the
  -- computation of the number of buckets. If the table is valid, lookups in it end, and the key of
  -- every bucket is hashable, stands with its hash and is found in its bucket.
  pub validate-Judges :
      (values : Option (List K)) (n_items : ℕ)
      → length t.keys ≡ t.n_buckets
      → length t.hashes ≡ t.n_buckets
      → ((vs : List K) → values ≡ some vs → length vs ≡ t.n_buckets)
      → ((b h : ℕ) → get_elem? t.hashes b ≡ some h → h < 2 ^ 32)
      → Judges n_items (validate t hashable hash_of cmp values n_items)
  unfolding validate sized_validate
  validate-Judges values n_items keys_sized hashes_sized values_sized words =
      elim (Option-cases (compute_n_buckets n_items)) [
        | inl loops ↦ rw loops loops
        | inr (n, ended) ↦ elim (Bool-cases (n == t.n_buckets)) [
          | inr other ↦ rw (ended, other) tt
          | inl same ↦
              let (k, bits, power) = compute_n_buckets-power n_items n ended in
              let count : t.n_buckets ≡ 2 ^ k = sym ((==_iff n t.n_buckets).0 same) ∙ power in
              let table : IsSized k t = record {
                bits = omega arith;
                count = count;
                hashes_length = hashes_sized ∙ count;
                keys_length = keys_sized ∙ count;
              } in
              rw (ended, same)
                (after_count-Judges k table keys_sized hashes_sized words n_items _ (
                  count_slots-IsCounted t hashable hash_of cmp t.n_buckets keys_sized hashes_sized
                    values values_sized t.n_buckets 0 0 0 (omega arith)))
        ]
      ]
