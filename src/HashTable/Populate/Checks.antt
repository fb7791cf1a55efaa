-- ===== src/HashTable/Populate/Checks.antt =====
-- The checks that `populate` makes before it puts anything in: when they pass the table is blank.
use py_pointless.Base.{
  ℕ, zero, suc, ◌+◌, ◌<◌, ◌^◌, ◌≤◌, ◌≡◌, refl, arith, Bool, true, false, Option, some, none, List,
  [], ◌∷◌, length, All, get_elem?, get_elem?-in_range, ◌==◌, Bool-cases, Option-cases, inl, inr,
  ==_iff,
}
use py_pointless.HashTable.Populate.{
  Serialized, Populated, done, failed, bad_access, no_end, Item, check_keys, as_table, check_value,
  check_slot, check_slots,
}
use py_pointless.HashTable.Populate.RoundTrip.{used_count, ValuesSized, IsReady}

module _ (cmp : ℕ → ℕ → Option Bool) (n_buckets empty : ℕ) where
  abbrev pub IsUsed : Item → Type 0
  IsUsed item = (item.key == empty) ≡ false

  pub check_keys-IsUsed :
      (items : List Item) → check_keys cmp n_buckets empty items ≡ none → All IsUsed items
  unfolding check_keys
  check_keys-IsUsed [] e = tt
  check_keys-IsUsed (item ∷ items) e = elim (Bool-cases (item.key == empty)) [
    | inl bad ↦ ground arith
    | inr fine ↦ (fine, check_keys-IsUsed items (rw fine at e))
  ]

  -- A key of the table is the empty slot.
  abbrev IsBlank : Serialized → ℕ → Type 0
  IsBlank s j = (k : ℕ) × (get_elem? s.keys j ≡ some k) × ((k == empty) ≡ true)

  check_slot-IsBlank :
      (s : Serialized) (j : ℕ) → check_slot cmp n_buckets empty s j ≡ none → IsBlank s j
  unfolding check_slot
  check_slot-IsBlank s j e = ground arith

  check_slots-IsBlank :
      (s : Serialized) (left j i : ℕ)
      → check_slots cmp n_buckets empty s left j ≡ none
      → j ≤ i
      → i < j + left
      → IsBlank s i
  unfolding check_slots
  check_slots-IsBlank s zero j i e lo hi = absurd (omega arith)
  check_slots-IsBlank s (suc left) j i e lo hi =
      elim (Option-cases (check_slot cmp n_buckets empty s j)) [
        | inr (r, bad) ↦ absurd (some-ne-none (rw (bad, check_slots) at e))
        | inl fine ↦ elim (Bool-cases (j == i)) [
          | inl same ↦ rw (← (==_iff j i).0 same) (check_slot-IsBlank s j fine)
          | inr later ↦
              check_slots-IsBlank s left (j + 1) i (rw (fine, check_slots) at e) (ground arith)
                (omega arith)
        ]
      ]
    where
      some-ne-none : {r : Populated} → some r ≡ none → ⊥
      some-ne-none h = cc

  used_count_blank :
      (ks : List ℕ)
      → ((i : ℕ) → i < length ks → (k : ℕ) × (get_elem? ks i ≡ some k) × ((k == empty) ≡ true))
      → used_count empty ks ≡ 0
  unfolding used_count
  used_count_blank [] h = refl
  used_count_blank (k ∷ ks) h =
      let (k', at, e) = h 0 (omega arith) in
      ground (arith, used_count_blank ks (λ i p. h (suc i) (omega arith)))

  -- The checks fail with an error, and read nothing out of range.
  abbrev pub IsClean : Option Populated → Type 0
  IsClean none = Unit
  IsClean (some (done s)) = ⊥
  IsClean (some (failed e)) = Unit
  IsClean (some bad_access) = ⊥
  IsClean (some no_end) = ⊥

  check_value-IsClean :
      (vs : Option (List ℕ)) (n j : ℕ)
      → ValuesSized vs n
      → j < n
      → IsClean (check_value cmp n_buckets empty vs j)
  unfolding check_value
  check_value-IsClean none n j sized h = tt
  check_value-IsClean (some vs) n j sized h =
      let (v, at) = get_elem?-in_range vs j (omega arith) in
      elim (Bool-cases (v == empty)) [
        | inl e ↦ rw (at, e, check_value) tt
        | inr e ↦ rw (at, e, check_value) tt
      ]

  check_slot-IsClean :
      (k : ℕ) (s : Serialized) (j : ℕ)
      → IsReady cmp n_buckets empty k s
      → j < 2 ^ k
      → IsClean (check_slot cmp n_buckets empty s j)
  unfolding check_slot as_table
  check_slot-IsClean k s j r h =
      let (g, hash_at) = get_elem?-in_range s.hashes j (omega (arith, r.sized.hashes_length)) in
      let (key, key_at) = get_elem?-in_range s.keys j (omega (arith, r.sized.keys_length)) in
      elim (Bool-cases (g == 0)) [
        | inr e ↦ rw (hash_at, e, check_slot) tt
        | inl e ↦ elim (Bool-cases (key == empty)) [
          | inr u ↦ rw (hash_at, e, key_at, u, check_slot) tt
          | inl u ↦
              rw (hash_at, e, key_at, u, check_slot)
                (check_value-IsClean s.values (2 ^ k) j r.values h)
        ]
      ]

  pub check_slots-IsClean :
      (k : ℕ) (s : Serialized) (left j : ℕ)
      → IsReady cmp n_buckets empty k s
      → j + left ≤ 2 ^ k
      → IsClean (check_slots cmp n_buckets empty s left j)
  unfolding check_slots
  check_slots-IsClean k s zero j r h = tt
  check_slots-IsClean k s (suc left) j r h =
      go (check_slot cmp n_buckets empty s j) (check_slot-IsClean k s j r (omega arith))
        (check_slots-IsClean k s left (j + 1) r (omega arith))
    where
      go :
          (o : Option Populated)
          → IsClean o
          → IsClean (check_slots cmp n_buckets empty s left (j + 1))
          → IsClean
              (elim o [ some x ↦ some x | none ↦ check_slots cmp n_buckets empty s left (j + 1) ])
      go none a b = b
      go (some x) a b = a

  -- When the slots pass, no bucket is in use.
  pub check_slots-used_count :
      (k : ℕ) (s : Serialized)
      → IsReady cmp n_buckets empty k s
      → check_slots cmp n_buckets empty s n_buckets 0 ≡ none
      → used_count empty s.keys ≡ 0
  unfolding as_table
  check_slots-used_count k s r e = used_count_blank s.keys λ i h.
      check_slots-IsBlank s n_buckets 0 i e (omega arith)
        (omega (arith, r.sized.keys_length, r.sized.count))
