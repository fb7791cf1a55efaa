-- ===== src/HashTable/Probe.antt =====
-- Probing ends, within `n_buckets + 8` rounds, in every table that has an empty bucket, and what it
-- returns is true of the table.
use native.Mathlib.Nat.{mod-lt, one-le-pow}
use mathlib.Core.Path.{subst}
use py_pointless.Base.{
  ℕ, zero, suc, ◌+◌, ◌-◌, ◌^◌, ◌%◌, ◌<◌, ◌≤◌, ◌≡◌, refl, arith, Bool, true, false, Option, some,
  none, length, get_elem?, get_elem?-in_range, get_elem?-lt, bit_and, shr, ◌==◌, Bool-cases, inl,
  inr, ◌⊎◌, ◌≢◌, ==_iff,
}
use py_pointless.Base.Bits.{bit_and_mask}
use py_pointless.HashTable.{
  recur, Probed, hit, miss, error, fault, out_of_fuel, Table, inspect, verdict, look_hash, look_key,
  probe_loop, probe,
}
use py_pointless.HashTable.Walk.{walk, walk-reaches}

-- `2 ^ k` buckets in both vectors
pub record IsSized {K : Type 0} (k : ℕ) (t : Table K) : Type 0 where
  pub bits : k ≤ 32
  pub count : t.n_buckets ≡ 2 ^ k
  pub hashes_length : length t.hashes ≡ 2 ^ k
  pub keys_length : length t.keys ≡ 2 ^ k

-- Bucket `b` is one of the table and is empty.
pub record IsFree {K : Type 0} (t : Table K) (b : ℕ) : Type 0 where
  pub key : K
  pub at : get_elem? t.keys b ≡ some key
  pub empty : t.is_empty key ≡ true

-- Bucket `b` holds `key` under the hash `h`.
pub record HoldsKey {K : Type 0} (t : Table K) (b h : ℕ) (key : K) : Type 0 where
  pub at : get_elem? t.keys b ≡ some key
  pub used : t.is_empty key ≡ false
  pub hash_at : get_elem? t.hashes b ≡ some h

module _ {K : Type 0} (t : Table K) (value_hash : ℕ) (is_equal : K → Option Bool) where
  -- What a return value says of the table. Nothing is said of a miss.
  abbrev pub Answers : Probed → Type 0
  Answers (hit b) = (key : K) × HoldsKey t b value_hash key × (is_equal key ≡ some true)
  Answers miss = Unit
  Answers error = (b : ℕ) × (key : K) × HoldsKey t b value_hash key × (is_equal key ≡ none)
  Answers fault = ⊥
  Answers out_of_fuel = ⊥

  abbrev AnswersOption : Option Probed → Type 0
  AnswersOption none = Unit
  AnswersOption (some r) = Answers r

  verdict-Answers :
      (b h : ℕ) (key : K)
      → HoldsKey t b h key
      → (value_hash == h) ≡ true
      → (o : Option Bool) → is_equal key ≡ o
      → AnswersOption (verdict b o)
  unfolding verdict
  verdict-Answers b h key holds same none e = (b, key, holds_at, e)
    where
      holds_at : HoldsKey t b value_hash key
      holds_at = rw ((==_iff value_hash h).0 same) holds
  verdict-Answers b h key holds same (some true) e = (key, holds_at, e)
    where
      holds_at : HoldsKey t b value_hash key
      holds_at = rw ((==_iff value_hash h).0 same) holds
  verdict-Answers b h key holds same (some false) e = tt

  inspect-Answers :
      (b : ℕ) (k : ℕ) → IsSized k t → b < 2 ^ k → AnswersOption (inspect t value_hash is_equal b)
  unfolding inspect
  inspect-Answers b k sized h =
      let (key, at) = get_elem?-in_range t.keys b (omega (arith, sized.keys_length)) in
      let (g, hash_at) = get_elem?-in_range t.hashes b (omega (arith, sized.hashes_length)) in
      elim (Bool-cases (t.is_empty key)) [
        | inl empty ↦ rw (at, empty, inspect) tt
        | inr used ↦ elim (Bool-cases (value_hash == g)) [
          | inr differ ↦ rw (at, used, hash_at, differ, inspect) tt
          | inl same ↦
              rw (at, used, hash_at, same, inspect)
                (verdict-Answers b g key (record { at = at; used = used; hash_at = hash_at }) same
                  (is_equal key) refl)
        ]
      ]

  -- An empty bucket stops the probing.
  pub inspect-IsFree : (b : ℕ) → IsFree t b → inspect t value_hash is_equal b ≡ some miss
  unfolding inspect
  inspect-IsFree b f = rw (f.at, f.empty)

  verdict-ne-miss : (b : ℕ) (o : Option Bool) → verdict b o ≢ some miss
  unfolding verdict
  verdict-ne-miss b none e = cc
  verdict-ne-miss b (some true) e = cc
  verdict-ne-miss b (some false) e = cc

  look_hash-ne-miss :
      (key : K) (g : Option ℕ) (b : ℕ) → look_hash t value_hash is_equal key g b ≢ some miss
  unfolding look_hash
  look_hash-ne-miss key none b = λ e. cc
  look_hash-ne-miss key (some h) b = elim (Bool-cases (value_hash == h)) [
    | inl same ↦ rw same (verdict-ne-miss b (is_equal key))
    | inr differ ↦ rw differ (λ e. cc)
  ]

  -- Nothing else is a miss.
  pub miss-IsFree : (b : ℕ) → inspect t value_hash is_equal b ≡ some miss → IsFree t b
  unfolding inspect
  miss-IsFree b = go (get_elem? t.keys b) refl
    where
      go :
          (o : Option K)
          → get_elem? t.keys b ≡ o
          → look_key t value_hash is_equal o (get_elem? t.hashes b) b ≡ some miss
          → IsFree t b
      go none at e = cc e
      go (some key) at e = elim (Bool-cases (t.is_empty key)) [
        | inl empty ↦ record { key = key; at = at; empty = empty }
        | inr used ↦ absurd (look_hash-ne-miss key (get_elem? t.hashes b) b (rw used at e))
      ]

  -- The bucket of a round, by its number
  bucket_lem : (k i : ℕ) → IsSized k t → bit_and i (t.n_buckets - 1) ≡ i % 2 ^ k
  bucket_lem k i sized = rw sized.count (bit_and_mask k i)

  round :
      (k fuel p i : ℕ)
      → IsSized k t
      → (inspect t value_hash is_equal (i % 2 ^ k) ≡ none
          → Answers (probe_loop t value_hash is_equal fuel (shr p 5) (recur p i)))
      → Answers (probe_loop t value_hash is_equal (suc fuel) p i)
  unfolding probe_loop
  round k fuel p i sized rest =
      rw (bucket_lem k i sized, probe_loop)
        (go (inspect t value_hash is_equal (i % 2 ^ k))
          (inspect-Answers (i % 2 ^ k) k sized (mod-lt i (one-le-pow k 2 (omega arith)))) rest)
    where
      go :
          (o : Option Probed)
          → AnswersOption o
          → (o ≡ none → Answers (probe_loop t value_hash is_equal fuel (shr p 5) (recur p i)))
          → Answers (elim o [
            | some r ↦ r
            | none ↦ probe_loop t value_hash is_equal fuel (shr p 5) (recur p i)
          ])
      go none a rest = rest refl
      go (some r) a rest = a

  loop-Answers :
      (k n fuel p i : ℕ)
      → IsSized k t
      → n < fuel
      → IsFree t (walk n p i % 2 ^ k)
      → Answers (probe_loop t value_hash is_equal fuel p i)
  unfolding walk
  loop-Answers k n zero p i sized h f = absurd (omega arith)
  loop-Answers k zero (suc fuel) p i sized h f =
      round k fuel p i sized (λ e. cc (inspect-IsFree (i % 2 ^ k) f))
  loop-Answers k (suc n) (suc fuel) p i sized h f =
      round k fuel p i sized
        (λ _. loop-Answers k n fuel (shr p 5) (recur p i) sized (omega arith) f)

  -- In a table of 2 ^ k buckets, at most 2 ^ 32, of which one is empty, the probing of any 32-bit
  -- hash ends without a fault. A bucket that it returns holds an equal key under the hash, and an
  -- error comes from a comparison with such a key.
  pub probe-Answers :
      (k e : ℕ)
      → IsSized k t
      → IsFree t e
      → value_hash < 2 ^ 32
      → Answers (probe t value_hash is_equal)
  unfolding probe
  probe-Answers k e sized f small =
      let lt = get_elem?-lt t.keys e f.at in
      let (n, within, there) =
        walk-reaches k value_hash value_hash e sized.bits small (rw (← sized.keys_length) lt) in
      loop-Answers k n (t.n_buckets + 8) value_hash value_hash sized (omega (arith, sized.count))
        (rw there f)

-- The probing from `p` and `i` comes to bucket `b`, past buckets that hold other keys, and ends
-- there with `r`.
pub data Lands {K : Type 0} (t : Table K) (value_hash : ℕ) (is_equal : K → Option Bool) (b : ℕ)
    (r : Probed) : ℕ → ℕ → Type 0 where
  here :
      {p i : ℕ}
      → bit_and i (t.n_buckets - 1) ≡ b
      → inspect t value_hash is_equal b ≡ some r
      → Lands t value_hash is_equal b r p i
  later :
      {p i : ℕ}
      → inspect t value_hash is_equal (bit_and i (t.n_buckets - 1)) ≡ none
      → Lands t value_hash is_equal b r (shr p 5) (recur p i)
      → Lands t value_hash is_equal b r p i

module _ {K : Type 0} (t : Table K) (value_hash : ℕ) (is_equal : K → Option Bool) (b : ℕ)
    (r : Probed) where
  loop-Lands :
      (fuel : ℕ) {p i : ℕ}
      → Lands t value_hash is_equal b r p i
      → (probe_loop t value_hash is_equal fuel p i ≡ out_of_fuel)
        ⊎ (probe_loop t value_hash is_equal fuel p i ≡ r)
  unfolding probe_loop
  loop-Lands zero f = inl refl
  loop-Lands (suc fuel) (here e h) = inr (rw (e, h, probe_loop))
  loop-Lands (suc fuel) (later h f) = rw (h, probe_loop) (loop-Lands fuel f)

  -- A probe path says what the probe returns.
  pub probe-Lands :
      (k e : ℕ)
      → IsSized k t
      → IsFree t e
      → value_hash < 2 ^ 32
      → Lands t value_hash is_equal b r value_hash value_hash
      → probe t value_hash is_equal ≡ r
  unfolding probe
  probe-Lands k e sized f small path = elim (loop-Lands (t.n_buckets + 8) path) [
    | inr done ↦ done
    | inl stuck ↦ absurd (
        subst (Answers t value_hash is_equal) stuck
          (probe-Answers t value_hash is_equal k e sized f small))
  ]
