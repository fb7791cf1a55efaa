-- ===== src/HashTable/Populate/Insert.antt =====
-- One insertion: the probe path of the new key ends at its bucket, and those of the keys before it
-- stay as they were.
use mathlib.Core.Path.{subst}
use py_pointless.Base.{
  ℕ, zero, suc, ◌-◌, ◌<◌, ◌≡◌, refl, sym, ◌∙◌, Bool, true, Option, some, none, length, get_elem?-lt,
  get_elem?-set_self, get_elem?-set_ne, bit_and, shr, ◌≢◌, ne→==, ==_refl,
}
use py_pointless.HashTable.{
  recur, Probed, hit, miss, error, fault, out_of_fuel, Table, inspect, verdict, probe_loop,
}
use py_pointless.HashTable.Probe.{IsFree, Lands, here, later, inspect-IsFree, miss-IsFree}
use py_pointless.HashTable.Populate.{
  duplicate_keys, compare_error, Serialized, Populated, failed, bad_access, no_end, Slot, free,
  stop, Item, as_table, find_slot, store,
}

miss-ne-hit : (b : ℕ) → miss ≢ hit b
miss-ne-hit b e = cc

module _ (n_buckets empty : ℕ) where
  abbrev pub table : Serialized → Table ℕ
  table = as_table n_buckets empty

  module _ (s : Serialized) (f : ℕ) (item : Item) (open_slot : IsFree (table s) f) where
    -- A bucket that the probing passes, or where it finds a key, is not the one that is filled.
    occupied :
        (h : ℕ) (eq : ℕ → Option Bool) (c : ℕ)
        → (o : Option Probed) → o ≢ some miss
        → inspect (table s) h eq c ≡ o
        → f ≢ c
    occupied h eq c o ne e same = ne (
        sym e
        ∙ subst (λ x. inspect (table s) h eq x ≡ some miss) same
            (inspect-IsFree (table s) h eq f open_slot))

    inspect-store :
        (h : ℕ) (eq : ℕ → Option Bool) (c : ℕ)
        → f ≢ c
        → inspect (table (store s f item)) h eq c ≡ inspect (table s) h eq c
    unfolding inspect as_table store
    inspect-store h eq c ne = rw (
      get_elem?-set_ne s.keys f c item.key ne,
      get_elem?-set_ne s.hashes f c item.hash ne,
      inspect,
    )

    pub Lands-store :
        (h : ℕ) (eq : ℕ → Option Bool) (b : ℕ) {p i : ℕ}
        → Lands (table s) h eq b (hit b) p i
        → Lands (table (store s f item)) h eq b (hit b) p i
    unfolding as_table
    Lands-store h eq b (here e found) =
        here e (inspect-store h eq b (occupied h eq b _ (λ q. cc q) found) ∙ found)
    Lands-store h eq b (later passed rest) =
        later (inspect-store h eq _ (occupied h eq _ _ (λ q. cc q) passed) ∙ passed)
          (Lands-store h eq b rest)

    inspect-store_self :
        (h : ℕ) (eq : ℕ → Option Bool)
        → f < length s.hashes
        → item.hash ≡ h
        → item.key ≢ empty
        → eq item.key ≡ some true
        → inspect (table (store s f item)) h eq f ≡ some (hit f)
    unfolding inspect as_table store verdict
    inspect-store_self h eq in_hashes same_hash used equal =
        rw
          (
            get_elem?-set_self s.keys f item.key (get_elem?-lt s.keys f open_slot.at),
            get_elem?-set_self s.hashes f item.hash in_hashes,
            ne→== item.key empty used,
            same_hash,
            ==_refl h,
            equal,
            inspect,
          )
          refl

    -- The path that ended at the empty bucket finds the key that is put there.
    pub Lands-fill :
        (h : ℕ) (eq : ℕ → Option Bool) {p i : ℕ}
        → f < length s.hashes
        → item.hash ≡ h
        → item.key ≢ empty
        → eq item.key ≡ some true
        → Lands (table s) h eq f miss p i
        → Lands (table (store s f item)) h eq f (hit f) p i
    unfolding as_table
    Lands-fill h eq in_hashes same_hash used equal (here e found) =
        here e (inspect-store_self h eq in_hashes same_hash used equal)
    Lands-fill h eq in_hashes same_hash used equal (later passed rest) =
        later (inspect-store h eq _ (occupied h eq _ _ (λ q. cc q) passed) ∙ passed)
          (Lands-fill h eq in_hashes same_hash used equal rest)

  -- `find_slot` does what the probing does, and goes on where that misses.
  module _ (cmp : ℕ → ℕ → Option Bool) (s : Serialized) (hash key : ℕ) where
    abbrev pub eq_key : ℕ → Option Bool
    eq_key k = cmp k key

    abbrev pub Stops : Populated → Probed → Type 0
    Stops x (hit b) = x ≡ failed duplicate_keys
    Stops x miss = ⊥
    Stops x error = x ≡ failed compare_error
    Stops x fault = x ≡ bad_access
    Stops x out_of_fuel = x ≡ no_end

    abbrev pub Seen : ℕ → ℕ → ℕ → Slot → Type 0
    Seen fuel p i (free b) = IsFree (table s) b × Lands (table s) hash eq_key b miss p i
    Seen fuel p i (stop x) = Stops x (probe_loop (table s) hash eq_key fuel p i)

    inspect_miss : (b : ℕ) → inspect (table s) hash eq_key b ≡ some miss → IsFree (table s) b
    inspect_miss b e = miss-IsFree (table s) hash eq_key b e

    pub find_slot-Seen :
        (fuel p i : ℕ) → Seen fuel p i (find_slot cmp n_buckets empty s hash key fuel p i)
    unfolding find_slot probe_loop as_table
    find_slot-Seen zero p i = refl
    find_slot-Seen (suc fuel) p i =
        go (inspect (table s) hash eq_key bucket) refl (find_slot-Seen fuel (shr p 5) (recur p i))
      where
        bucket : ℕ
        bucket = bit_and i (n_buckets - 1)

        further : Slot
        further = find_slot cmp n_buckets empty s hash key fuel (shr p 5) (recur p i)

        push :
            (x : Slot)
            → inspect (table s) hash eq_key bucket ≡ none
            → Seen fuel (shr p 5) (recur p i) x
            → Seen (suc fuel) p i x
        push (free b) e (f, l) = (f, later e l)
        push (stop x) e h = rw (e, probe_loop) h

        go :
            (o : Option Probed)
            → inspect (table s) hash eq_key bucket ≡ o
            → Seen fuel (shr p 5) (recur p i) further
            → Seen (suc fuel) p i (elim o [
              | none ↦ further
              | some miss ↦ free bucket
              | some (hit b) ↦ stop (failed duplicate_keys)
              | some error ↦ stop (failed compare_error)
              | some fault ↦ stop bad_access
              | some out_of_fuel ↦ stop no_end
            ])
        go none e h = push further e h
        go (some miss) e h = (inspect_miss bucket e, here refl e)
        go (some (hit b)) e h = rw (e, probe_loop)
        go (some error) e h = rw (e, probe_loop)
        go (some fault) e h = rw (e, probe_loop)
        go (some out_of_fuel) e h = rw (e, probe_loop)
