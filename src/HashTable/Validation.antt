-- ===== src/HashTable/Validation.antt =====
-- src/pointless_validate_hash_table.c: the checks on a table that stands in a file. Which keys are
-- hashable, their hashes and their comparison are parameters.
pub mod Checks
pub mod Contract
use py_pointless.Base.{
  ℕ, zero, suc, ◌+◌, Bool, true, false, not, Option, some, none, List, get_elem?, u32, ◌==◌,
  if◌then◌else◌,
}
use py_pointless.HashTable.{
  Table, Probed, hit, miss, error, fault, out_of_fuel, probe, compute_n_buckets,
}

pub data TableError : Type 0 where
  wrong_n_buckets value_not_empty no_empty_slot wrong_n_items not_hashable wrong_hash : TableError
  probe_error wrong_place : TableError

-- `bad_access` is a read outside of a vector, and `diverges` a loop that does not end.
pub data TableVerdict : Type 0 where
  table_valid bad_access diverges : TableVerdict
  refused : TableError → TableVerdict

-- What the first loop comes to: the used and the empty slots, or a return
pub data Counted : Type 0 where
  counted : ℕ → ℕ → Counted
  stopped : TableVerdict → Counted

-- A loop over the buckets, of which each is passed, with `none`, or ends the validation
unfoldable pub all_buckets : (ℕ → Option TableVerdict) → ℕ → ℕ → Option TableVerdict
all_buckets look zero i = none
all_buckets look (suc left) i = elim (look i) [
  | some v ↦ some v
  | none ↦ all_buckets look left (i + 1)
]

-- What the probing for the key of bucket `i` must return: `i`
unfoldable pub placed : ℕ → Probed → Option TableVerdict
placed i (hit b) = if b == i then none else some (refused wrong_place)
placed i miss = some (refused wrong_place)
placed i error = some (refused probe_error)
placed i fault = some bad_access
placed i out_of_fuel = some diverges

unfoldable pub first_of : Option TableVerdict → TableVerdict → TableVerdict
first_of (some v) next = v
first_of none next = next

module _ {K : Type 0} (t : Table K) (hashable : K → Bool) (hash_of : K → ℕ)
    (cmp : K → K → Option Bool) where
  -- Whether the value of an empty slot is not empty, in a map; `none` is a read out of range.
  pub value_mismatch : Option (List K) → Bool → ℕ → Option Bool
  value_mismatch none is_empty i = some false
  value_mismatch (some values) false i = some false
  value_mismatch (some values) true i = elim (get_elem? values i) [
    | none ↦ none
    | some v ↦ some (not (t.is_empty v))
  ]

  -- The loop that counts
  pub count_slots : Option (List K) → ℕ → ℕ → ℕ → ℕ → Counted
  unfolding value_mismatch
  count_slots values zero i n_used n_empty = counted n_used n_empty
  count_slots values (suc left) i n_used n_empty = elim (get_elem? t.keys i) [
    | none ↦ stopped bad_access
    | some key ↦ elim (value_mismatch values (t.is_empty key) i) [
      | none ↦ stopped bad_access
      | some true ↦ stopped (refused value_not_empty)
      | some false ↦
          count_slots values left (i + 1) (if t.is_empty key then n_used else u32 (n_used + 1))
            (if t.is_empty key then u32 (n_empty + 1) else n_empty)
    ]
  ]

  pub match_hash : K → Option ℕ → Option TableVerdict
  match_hash key none = some bad_access
  match_hash key (some h) = if hash_of key == h then none else some (refused wrong_hash)

  -- The loop over the hashes, on one bucket
  pub hash_at : ℕ → Option TableVerdict
  unfolding match_hash
  hash_at i = elim (get_elem? t.keys i) [
    | none ↦ some bad_access
    | some key ↦
        if not (hashable key)
        then some (refused not_hashable)
        else match_hash key (get_elem? t.hashes i)
  ]

  pub probe_for : K → Option ℕ → ℕ → Option TableVerdict
  unfolding placed
  probe_for key none i = some bad_access
  probe_for key (some h) i = placed i (probe t h (λ other. cmp other key))

  -- The loop over the places, on one bucket
  pub place_at : ℕ → Option TableVerdict
  unfolding probe_for
  place_at i = elim (get_elem? t.keys i) [
    | none ↦ some bad_access
    | some key ↦ if t.is_empty key then none else probe_for key (get_elem? t.hashes i) i
  ]

  -- What follows on the counting
  pub after_count : ℕ → Counted → TableVerdict
  unfolding all_buckets hash_at place_at first_of
  after_count n_items (stopped v) = v
  after_count n_items (counted n_used n_empty) =
      if n_empty == 0
      then refused no_empty_slot
      else if not (n_used == n_items)
      then refused wrong_n_items
      else first_of (all_buckets hash_at t.n_buckets 0)
          (first_of (all_buckets place_at t.n_buckets 0) table_valid)

  pub sized_validate : Option ℕ → Option (List K) → ℕ → TableVerdict
  unfolding count_slots after_count
  sized_validate none values n_items = diverges
  sized_validate (some n) values n_items =
      if not (n == t.n_buckets)
      then refused wrong_n_buckets
      else after_count n_items (count_slots values t.n_buckets 0 0 0)

  -- `pointless_hash_table_validate`
  unfoldable pub validate : Option (List K) → ℕ → TableVerdict
  unfolding sized_validate
  validate values n_items = sized_validate (compute_n_buckets n_items) values n_items
