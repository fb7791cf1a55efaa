-- ===== src/HashTable/Populate/Result.antt =====
-- The contract of `pointless_hash_table_populate`.
use mathlib.Core.Path.{subst}
use py_pointless.Base.{
  ℕ, ◌^◌, ◌<◌, ◌≡◌, ◌∙◌, arith, Bool, not, ◌&&◌, Option, some, none, List, [], ◌∷◌, length, All,
  ltb, lt→ltb, get_elem?, if◌then◌else◌, Bool-cases, Option-cases, inl, inr,
}
use py_pointless.HashTable.{hit, probe}
use py_pointless.HashTable.Probe.{probe-Lands}
use py_pointless.HashTable.Populate.{
  Serialized, Populated, done, failed, bad_access, no_end, Item, as_table, insert_all, check_keys,
  check_slots, populate, same, is_some,
}
use py_pointless.HashTable.Populate.RoundTrip.{
  used_count, ValueAt, IsItem, IsReady, Placed, Inserted, insert_all-Inserted, IsFree-used_count,
}
use py_pointless.HashTable.Populate.Checks.{
  IsUsed, check_keys-IsUsed, IsClean, check_slots-IsClean, check_slots-used_count,
}

module _ (cmp : ℕ → ℕ → Option Bool) (n_buckets empty : ℕ) where
  -- Probing for the key of the item returns a bucket that holds the key and its value.
  pub record Retrieved (s : Serialized) (item : Item) : Type 0 where
    pub bucket : ℕ
    pub found : probe (as_table n_buckets empty s) item.hash (λ k. cmp k item.key) ≡ hit bucket
    pub key_at : get_elem? s.keys bucket ≡ some item.key
    pub value_at : ValueAt s.values bucket item.value

  -- What each return says: a table of the right size in which every item is retrieved and which
  -- has as many keys as there are items.
  abbrev pub Fills : ℕ → List Item → Populated → Type 0
  Fills k items (done s) =
      IsReady cmp n_buckets empty k s
      × (used_count empty s.keys ≡ length items)
      × All (Retrieved s) items
  Fills k items (failed e) = Unit
  Fills k items bad_access = ⊥
  Fills k items no_end = ⊥

  Placed-Retrieved :
      (k : ℕ) (s : Serialized) (item : Item)
      → IsReady cmp n_buckets empty k s
      → used_count empty s.keys < n_buckets
      → item.hash < 2 ^ 32
      → Placed cmp n_buckets empty s item
      → Retrieved s item
  Placed-Retrieved k s item r few word p =
      let (e, open_slot) = IsFree-used_count cmp n_buckets empty k s r few in
      record {
        bucket = p.bucket;
        found =
            probe-Lands (as_table n_buckets empty s) item.hash (λ j. cmp j item.key) p.bucket
              (hit p.bucket) k e r.sized open_slot word p.path;
        key_at = p.key_at;
        value_at = p.value_at;
      }

  All-Retrieved :
      (k : ℕ) (s : Serialized) (items : List Item)
      → IsReady cmp n_buckets empty k s
      → used_count empty s.keys < n_buckets
      → All (IsItem cmp n_buckets empty) items
      → All (Placed cmp n_buckets empty s) items
      → All (Retrieved s) items
  All-Retrieved k s [] r few ok p = tt
  All-Retrieved k s (item ∷ items) r few ok p =
      (Placed-Retrieved k s item r few ok.0.word p.0, All-Retrieved k s items r few ok.1 p.1)

  Inserted-Fills :
      (k n : ℕ) (items : List Item) (x : Populated)
      → n ≡ length items
      → n < n_buckets
      → All (IsItem cmp n_buckets empty) items
      → Inserted cmp n_buckets empty k n [] items x
      → Fills k items x
  Inserted-Fills k n items (done s) e few ok (r, count, before, placed) =
      (r, count ∙ e, All-Retrieved k s items r (omega (arith, count)) ok placed)
  Inserted-Fills k n items (failed x) e few ok h = tt
  Inserted-Fills k n items bad_access e few ok h = h
  Inserted-Fills k n items no_end e few ok h = h

  clean :
      (k : ℕ) (items : List Item) (x : Populated)
      → IsClean cmp n_buckets empty (some x)
      → Fills k items x
  clean k items (done s) h = absurd h
  clean k items (failed e) h = tt
  clean k items bad_access h = h
  clean k items no_end h = h

  -- Vectors of 2 ^ k buckets, more than there are items, 32-bit hashes and keys that compare equal
  -- to themselves: then `populate` ends with no access out of range. If it reports no error, the
  -- vectors keep their sizes, as many buckets are in use as there are items, and probing for the
  -- key of each item returns a bucket that holds that key, with the item's value if it is a map.
  pub populate-Fills :
      (k : ℕ) (has_values : Bool) (items : List Item) (s : Serialized)
      → IsReady cmp n_buckets empty k s
      → All (IsItem cmp n_buckets empty) items
      → length items < n_buckets
      → Fills k items (populate cmp n_buckets empty has_values items s)
  unfolding populate
  populate-Fills k has_values items s r ok few =
      elim (Bool-cases (ltb 0 (length items) && not (same has_values (is_some s.values)))) [
        | inl bad ↦ rw bad tt
        | inr fine ↦ rw fine (elim (Option-cases (check_keys cmp n_buckets empty items)) [
          | inr (e, bad) ↦ rw bad tt
          | inl used ↦ rw used (slots (check_keys-IsUsed cmp n_buckets empty items used))
        ])
      ]
    where
      slots :
          All (IsUsed cmp n_buckets empty) items
          → Fills k items (elim (check_slots cmp n_buckets empty s n_buckets 0) [
            | some x ↦ x
            | none ↦
                if ltb (length items) n_buckets
                then insert_all cmp n_buckets empty s items
                else bad_access
          ])
      slots used = elim (Option-cases (check_slots cmp n_buckets empty s n_buckets 0)) [
        | inr (x, stopped) ↦ rw stopped (
            clean k items x (
              subst (IsClean cmp n_buckets empty) stopped (
                check_slots-IsClean cmp n_buckets empty k s n_buckets 0 r
                  (unfold as_table in omega (arith, r.sized.count)))))
        | inl blank ↦
            let none_used = check_slots-used_count cmp n_buckets empty k s r blank in
            rw (blank, lt→ltb _ _ few)
              (Inserted-Fills k _ items (insert_all cmp n_buckets empty s items)
                (omega (arith, none_used)) (omega (arith, none_used)) ok
                (insert_all-Inserted cmp n_buckets empty k items [] s r tt ok used
                  (omega (arith, none_used))))
      ]
