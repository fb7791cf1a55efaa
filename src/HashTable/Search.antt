-- ===== src/HashTable/Search.antt =====
-- src/pointless_reader.c and src/pointless_reader_helpers.c: the iteration over the buckets where a
-- hash may stand, and the search of a key that passes a test among them.
pub mod Ends
use native.Mathlib.Nat.{mod-lt, one-le-pow}
use py_pointless.Base.{
  ℕ, zero, suc, ◌+◌, ◌-◌, ◌^◌, ◌%◌, ◌<◌, ◌≡◌, refl, sym, ◌∙◌, arith, Bool, true, false, Option,
  some, none, length, get_elem?, get_elem?-in_range, get_elem?-lt, bit_and, shr, ◌==◌, Bool-cases,
  inl, inr, ==_iff, if◌then◌else◌,
}
use py_pointless.Base.Bits.{bit_and_mask}
use mathlib.Core.Path.{subst}
use mathlib.Core.Bool.{false≢true}
use mathlib.Core.Option.{some-injective}
use py_pointless.HashTable.{recur, Table, IterState, probe_hash, probe_hash_init}
use py_pointless.HashTable.Probe.{IsSized, IsFree, HoldsKey}
use py_pointless.HashTable.Walk.{walk, walk-reaches}

-- A bucket and the next state, a return of 0, a read out of range, or the end of the fuel
pub data Step : Type 0 where
  bucket_at : ℕ → IterState → Step
  ended bad_read no_end : Step

pub data Searched : Type 0 where
  present : ℕ → Searched
  absent bad_access out_of_rounds : Searched

module _ {K : Type 0} (t : Table K) (hash : ℕ) where
  -- What is done with a bucket: it is returned if the hash stands there.
  abbrev pub at_hash : Option ℕ → ℕ → IterState → Step → Step
  at_hash none b state rest = bad_read
  at_hash (some h) b state rest = if h == hash then bucket_at b state else rest

  abbrev pub on_bucket : Option (Option (ℕ × IterState)) → (ℕ → IterState → Step) → Step
  on_bucket none k = ended
  on_bucket (some none) k = bad_read
  on_bucket (some (some (b, state))) k = k b state

  -- The loop of `pointless_reader_set_iter_hash` and `pointless_reader_map_iter_hash`
  unfoldable pub iter_hash : ℕ → IterState → Step
  unfolding probe_hash
  iter_hash zero state = no_end
  iter_hash (suc fuel) state =
      on_bucket (probe_hash t state)
        (λ b next. at_hash (get_elem? t.hashes b) b next (iter_hash fuel next))

  module _ (check : K → Bool) where
    abbrev pub on_key : Option K → ℕ → Searched → Searched
    on_key none b rest = bad_access
    on_key (some key) b rest = if check key then present b else rest

    abbrev pub on_step : Step → (IterState → Searched) → Searched
    on_step (bucket_at b state) k = on_key (get_elem? t.keys b) b (k state)
    on_step ended k = absent
    on_step bad_read k = bad_access
    on_step no_end k = out_of_rounds

    -- The loop of `pointless_get_set_` and, on the keys, of `pointless_get_map_`
    pub search_loop : ℕ → IterState → Searched
    unfolding iter_hash
    search_loop zero state = out_of_rounds
    search_loop (suc fuel) state =
        on_step (iter_hash (t.n_buckets + 8) state) (λ next. search_loop fuel next)

    unfoldable pub search : Searched
    unfolding search_loop probe_hash_init
    search = search_loop (t.n_buckets + 8) (probe_hash_init hash t.n_buckets)
