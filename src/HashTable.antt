-- ===== src/HashTable.antt =====
-- src/pointless_hash_table.c and src/pointless_validate_hash_table.c: the open-addressing table in
-- which sets and maps are stored. This file has the number of buckets and the probing; a table is
-- its vector of hashes and its vector of keys, and a read outside of them is a `fault`.
pub mod Buckets
pub mod Cycle
pub mod Walk
pub mod Probe
pub mod Search
pub mod Populate
pub mod Validation
use py_pointless.Base.{
  ℕ, zero, suc, ◌+◌, ◌-◌, ◌*◌, ◌/◌, ◌^◌, Bool, true, false, Option, some, none, List, get_elem?,
  bit_and, u32, shl, shr, ltb, ◌==◌, if◌then◌else◌,
}

-- `while (p < n) p <<= 1;` on 32 bits. `none`: the fuel ran out.
unfoldable pub double_until : ℕ → ℕ → ℕ → Option ℕ
double_until zero n p = none
double_until (suc fuel) n p = elim (ltb p n) [
  | true ↦ double_until fuel n (u32 (shl p 1))
  | false ↦ some p
]

pub next_power_of_2 : ℕ → ℕ → Option ℕ
next_power_of_2 fuel n = double_until fuel n 1

unfoldable pub compute_n_buckets : ℕ → Option ℕ
unfolding next_power_of_2
compute_n_buckets n_items =
    if n_items == 1 then some 2 else next_power_of_2 33 (u32 (n_items + n_items / 2))

-- `i = (i << 2) + i + perturb + 1`
unfoldable pub recur : ℕ → ℕ → ℕ
recur perturb i = u32 (shl i 2 + i + perturb + 1)

-- What a probe returns: the bucket, PROBE_MISS or PROBE_ERROR.
pub data Probed : Type 0 where
  hit : ℕ → Probed
  miss error fault out_of_fuel : Probed

-- What a comparison with the key of a bucket comes to; `none` goes on with the next bucket.
unfoldable pub verdict : ℕ → Option Bool → Option Probed
verdict bucket none = some error
verdict bucket (some true) = some (hit bucket)
verdict bucket (some false) = none

-- A table of keys in `K`: which keys are `POINTLESS_EMPTY_SLOT`, and the two vectors.
pub record Table {ℓ} (K : Type ℓ) : Type ℓ where
  pub is_empty : K → Bool
  pub n_buckets : ℕ
  pub hashes : List ℕ
  pub keys : List K

module _ {ℓ} {K : Type ℓ} (t : Table K) (value_hash : ℕ) (is_equal : K → Option Bool) where
  pub look_hash : K → Option ℕ → ℕ → Option Probed
  look_hash key none bucket = some fault
  look_hash key (some h) bucket = if value_hash == h then verdict bucket (is_equal key) else none

  pub look_key : Option K → Option ℕ → ℕ → Option Probed
  look_key none h bucket = some fault
  look_key (some key) h bucket = if t.is_empty key then some miss else look_hash key h bucket

  -- One look at a bucket: `none` goes on with the recurrence. `is_equal` is the callback or
  -- `pointless_cmp_reader`, with `none` where that sets an error.
  unfoldable pub inspect : ℕ → Option Probed
  unfolding verdict look_hash look_key
  inspect bucket = look_key (get_elem? t.keys bucket) (get_elem? t.hashes bucket) bucket

  -- The loop of `pointless_hash_table_probe_priv`
  unfoldable pub probe_loop : ℕ → ℕ → ℕ → Probed
  probe_loop zero perturb i = out_of_fuel
  probe_loop (suc fuel) perturb i = elim (inspect (bit_and i (t.n_buckets - 1))) [
    | some r ↦ r
    | none ↦ probe_loop fuel (shr perturb 5) (recur perturb i)
  ]

  -- The fuel is enough where a bucket is empty: 7 rounds shift `perturb` out, and the rounds after
  -- that visit every bucket.
  unfoldable pub probe : Probed
  probe = probe_loop (t.n_buckets + 8) value_hash value_hash

-- `pointless_hash_iter_state_t`, and an iteration over the buckets where a hash may stand
pub record IterState : Type 0 where
  pub perturb : ℕ
  pub i : ℕ
  pub mask : ℕ

unfoldable pub probe_hash_init : ℕ → ℕ → IterState
probe_hash_init value_hash n_buckets = record {
  perturb = value_hash;
  i = value_hash;
  mask = n_buckets - 1;
}

-- `none` is a return of 0, at an empty bucket, and `some none` a read out of range.
unfoldable pub probe_hash {ℓ} : {K : Type ℓ} → Table K → IterState → Option (Option (ℕ × IterState))
probe_hash t state =
    let bucket = bit_and state.i state.mask in
    elim (get_elem? t.keys bucket) [
      | none ↦ some none
      | some key ↦
          if t.is_empty key
          then none
          else some (
              some (
                bucket,
                record state { i = recur state.perturb state.i; perturb = shr state.perturb 5 },
              ))
    ]
