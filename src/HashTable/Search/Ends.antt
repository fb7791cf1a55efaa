-- ===== src/HashTable/Search/Ends.antt =====
-- The iteration and the search come to an end in every table that has an empty bucket.
use native.Mathlib.Nat.{mod-lt, one-le-pow}
use py_pointless.Base.{
  ℕ, zero, suc, ◌+◌, ◌-◌, ◌^◌, ◌%◌, ◌<◌, ◌≡◌, refl, sym, ◌∙◌, arith, Bool, true, false, some, none,
  get_elem?, get_elem?-in_range, get_elem?-lt, bit_and, shr, ◌==◌, Bool-cases, inl, inr, ==_iff,
  if◌then◌else◌,
}
use py_pointless.Base.Bits.{bit_and_mask}
use mathlib.Core.Path.{subst}
use mathlib.Core.Bool.{false≢true}
use mathlib.Core.Option.{some-injective}
use py_pointless.HashTable.{recur, Table, IterState, probe_hash, probe_hash_init}
use py_pointless.HashTable.Probe.{IsSized, IsFree, HoldsKey}
use py_pointless.HashTable.Walk.{walk, walk-reaches}
use py_pointless.HashTable.Search.{
  Step, bucket_at, ended, bad_read, no_end, Searched, present, absent, bad_access, out_of_rounds,
  on_step, iter_hash, search_loop, search,
}

module _ {K : Type 0} (t : Table K) (hash k : ℕ) (sized : IsSized k t) where
  -- An empty bucket is reached in `n` rounds.
  unfoldable pub Reaches : ℕ → IterState → Type 0
  Reaches n state = (state.mask ≡ t.n_buckets - 1) × IsFree t (walk n state.perturb state.i % 2 ^ k)

  abbrev pub Steps : ℕ → Step → Type 0
  Steps n (bucket_at b state) =
      (key : K) × HoldsKey t b hash key × (m : ℕ) × (m < n) × Reaches m state
  Steps n ended = Unit
  Steps n bad_read = ⊥
  Steps n no_end = ⊥

  Steps-more : (n : ℕ) (s : Step) → Steps n s → Steps (suc n) s
  Steps-more n (bucket_at b state) (key, holds, m, lt, r) = (key, holds, m, omega (arith, lt), r)
  Steps-more n ended h = h
  Steps-more n bad_read h = h
  Steps-more n no_end h = h

  bucket_of :
      (state : IterState)
      → state.mask ≡ t.n_buckets - 1
      → bit_and state.i state.mask ≡ state.i % 2 ^ k
  bucket_of state e = rw (e, sized.count) (bit_and_mask k state.i)

  at_used :
      (n : ℕ) (b h : ℕ) (key : K) (state : IterState) (rest : Step)
      → get_elem? t.keys b ≡ some key
      → t.is_empty key ≡ false
      → get_elem? t.hashes b ≡ some h
      → Reaches n state
      → Steps n rest
      → Steps (suc n) (if h == hash then bucket_at b state else rest)
  at_used n b h key state rest at used hash_at reaches steps = elim (Bool-cases (h == hash)) [
    | inl same ↦ rw same (
        (
          key,
          record {
            at = at;
            used = used;
            hash_at = subst (λ g. get_elem? t.hashes b ≡ some g) ((==_iff h hash).0 same) hash_at;
          },
          n,
          omega arith,
          reaches,
        ))
    | inr differ ↦ rw differ (Steps-more n rest steps)
  ]

  next_state : IterState → IterState
  next_state state = record state { i = recur state.perturb state.i; perturb = shr state.perturb 5 }

  probe_hash-empty :
      (state : IterState) (key : K)
      → get_elem? t.keys (bit_and state.i state.mask) ≡ some key
      → t.is_empty key ≡ true
      → probe_hash t state ≡ none
  unfolding probe_hash
  probe_hash-empty state key at empty = rw (at, empty, probe_hash) refl

  probe_hash-used :
      (state : IterState) (key : K)
      → get_elem? t.keys (bit_and state.i state.mask) ≡ some key
      → t.is_empty key ≡ false
      → probe_hash t state ≡ some (some (bit_and state.i state.mask, next_state state))
  unfolding probe_hash next_state
  probe_hash-used state key at used = rw (at, used, probe_hash) refl

  not_free :
      (state : IterState) (key : K)
      → state.mask ≡ t.n_buckets - 1
      → IsFree t (state.i % 2 ^ k)
      → get_elem? t.keys (bit_and state.i state.mask) ≡ some key
      → t.is_empty key ≡ false
      → ⊥
  not_free state key mask free at used =
      let here : get_elem? t.keys (bit_and state.i state.mask) ≡ some free.key =
        subst (λ b. get_elem? t.keys b ≡ some free.key) (sym (bucket_of state mask)) free.at in
      let same : free.key ≡ key = some-injective free.key key (sym here ∙ at) in
      false≢true (sym used ∙ subst (λ q. t.is_empty q ≡ true) same free.empty)

  pub iter_hash-Steps :
      (n fuel : ℕ) (state : IterState)
      → n < fuel
      → Reaches n state
      → Steps n (iter_hash t hash fuel state)
  unfolding iter_hash Reaches walk next_state
  iter_hash-Steps n zero state lt r = absurd (omega arith)
  iter_hash-Steps zero (suc fuel) state lt (mask, free) =
      let b_lt : state.i % 2 ^ k < 2 ^ k = mod-lt state.i (one-le-pow k 2 (omega arith)) in
      let (key, at) =
        get_elem?-in_range t.keys (bit_and state.i state.mask)
          (omega (arith, b_lt, bucket_of state mask, sized.keys_length)) in
      elim (Bool-cases (t.is_empty key)) [
        | inl empty ↦ rw (probe_hash-empty state key at empty) tt
        | inr used ↦ absurd (not_free state key mask free at used)
      ]
  iter_hash-Steps (suc n) (suc fuel) state lt (mask, free) =
      let b_lt : state.i % 2 ^ k < 2 ^ k = mod-lt state.i (one-le-pow k 2 (omega arith)) in
      let (key, at) =
        get_elem?-in_range t.keys (bit_and state.i state.mask)
          (omega (arith, b_lt, bucket_of state mask, sized.keys_length)) in
      let (h, hash_at) =
        get_elem?-in_range t.hashes (bit_and state.i state.mask)
          (omega (arith, b_lt, bucket_of state mask, sized.hashes_length)) in
      elim (Bool-cases (t.is_empty key)) [
        | inl empty ↦ rw (probe_hash-empty state key at empty) tt
        | inr used ↦
            rw (probe_hash-used state key at used, hash_at)
              (at_used n (bit_and state.i state.mask) h key (next_state state)
                (iter_hash t hash fuel (next_state state)) at used hash_at (mask, free)
                (iter_hash-Steps n fuel (next_state state) (omega arith) (mask, free)))
      ]

  module _ (check : K → Bool) where
    -- What the search says of the table
    abbrev pub Finds : Searched → Type 0
    Finds (present b) = (key : K) × HoldsKey t b hash key × (check key ≡ true)
    Finds absent = Unit
    Finds bad_access = ⊥
    Finds out_of_rounds = ⊥

    search_loop-Finds :
        (n fuel : ℕ) (state : IterState)
        → n < t.n_buckets + 8
        → n < fuel
        → Reaches n state
        → Finds (search_loop t hash check fuel state)
    unfolding search_loop
    search_loop-Finds n zero state small lt r = absurd (omega arith)
    search_loop-Finds n (suc fuel) state small lt r =
        go (iter_hash t hash (t.n_buckets + 8) state)
          (iter_hash-Steps n (t.n_buckets + 8) state small r)
          (λ m state' less r'. search_loop-Finds m fuel state' (omega arith) (omega arith) r')
      where
        go :
            (s : Step)
            → Steps n s
            → ((m : ℕ) (state' : IterState)
                → m < n
                → Reaches m state'
                → Finds (search_loop t hash check fuel state'))
            → Finds (on_step t hash check s (λ next. search_loop t hash check fuel next))
        go (bucket_at b state') (key, holds, m, less, r') rest = elim (Bool-cases (check key)) [
          | inl passes ↦ rw (holds.at, passes) ((key, holds, passes))
          | inr fails ↦ rw (holds.at, fails) (rest m state' less r')
        ]
        go ended h rest = tt
        go bad_read h rest = h
        go no_end h rest = h

-- In a table of 2 ^ k buckets, at most 2 ^ 32, of which one is empty, the search for a key that
-- passes a test under any 32-bit hash ends without a read outside of the table; a bucket that it
-- finds holds a key under the hash that passes.
pub search-Finds :
    {K : Type 0} (t : Table K) (hash k e : ℕ) (check : K → Bool) (sized : IsSized k t)
    → IsFree t e
    → hash < 2 ^ 32
    → Finds t hash k sized check (search t hash check)
unfolding search probe_hash_init Reaches
search-Finds t hash k e check sized free small =
    let lt = get_elem?-lt t.keys e free.at in
    let (n, within, there) =
      walk-reaches k hash hash e sized.bits small (omega (arith, lt, sized.keys_length)) in
    search_loop-Finds t hash k sized check n (t.n_buckets + 8)
      (record { perturb = hash; i = hash; mask = t.n_buckets - 1 })
      (omega (arith, within, sized.count)) (omega (arith, within, sized.count))
      (refl, subst (λ b. IsFree t b) (sym there) free)
