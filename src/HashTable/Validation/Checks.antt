-- ===== src/HashTable/Validation/Checks.antt =====
-- What each of the loops over the buckets has shown where it ends.
use mathlib.Core.Path.{subst}
use mathlib.Core.Option.{some-injective}
use py_pointless.Base.{
  ℕ, zero, suc, ◌+◌, ◌^◌, ◌<◌, ◌≤◌, ◌≡◌, ◌≢◌, ◌⊎◌, refl, ap, ◌∙◌, sym, Bool, true, false, Option,
  some, none, List, length, get_elem?, get_elem?-in_range, u32, ◌==◌, ==_iff, ==→ne, arith, inl,
  inr, Bool-cases, Option-cases,
}
use py_pointless.HashTable.{Table, Probed, hit, miss, error, fault, out_of_fuel, probe}
use py_pointless.HashTable.Probe.{IsSized, IsFree, Answers, probe-Answers}
use py_pointless.HashTable.Validation.{
  TableError, TableVerdict, refused, Counted, counted, stopped, all_buckets, placed, value_mismatch,
  count_slots, match_hash, hash_at, probe_for, place_at,
}

-- A loop over all buckets that ends nowhere has passed each.
pub passed :
    (look : ℕ → Option TableVerdict) (left i b : ℕ)
    → all_buckets look left i ≡ none
    → i ≤ b
    → b < i + left
    → look b ≡ none
unfolding all_buckets
passed look zero i b e le lt = absurd (omega arith)
passed look (suc left) i b e le lt = elim (Option-cases (look i)) [
  | inr (v, found) ↦ cc (rw (found, all_buckets) at e)
  | inl none_found ↦ elim (Bool-cases (i == b)) [
    | inl eq ↦ rw ((==_iff i b).0 eq) at none_found
    | inr ne ↦
        passed look left (i + 1) b (rw (none_found, all_buckets) at e) (omega (arith, ==→ne i b ne))
          (omega arith)
  ]
]

-- What a loop ends with is what it finds at a bucket.
pub ended_at :
    (look : ℕ → Option TableVerdict) (left i : ℕ) (v : TableVerdict)
    → all_buckets look left i ≡ some v
    → (b : ℕ) × (i ≤ b) × (b < i + left) × (look b ≡ some v)
unfolding all_buckets
ended_at look zero i v e = cc
ended_at look (suc left) i v e = elim (Option-cases (look i)) [
  | inr (x, found) ↦ (i, omega arith, omega arith, found ∙ (rw (found, all_buckets) at e))
  | inl none_found ↦
      let (b, le, lt, at) = ended_at look left (i + 1) v (rw (none_found, all_buckets) at e) in
      (b, omega arith, omega arith, at)
]

placed-hit : (b : ℕ) (r : Probed) → placed b r ≡ none → r ≡ hit b
unfolding placed
placed-hit b (hit c) e = elim (Bool-cases (c == b)) [
  | inl same ↦ ap hit ((==_iff c b).0 same)
  | inr other ↦ cc (rw other at e)
]
placed-hit b miss e = cc
placed-hit b error e = cc
placed-hit b fault e = cc
placed-hit b out_of_fuel e = cc

module _ {K : Type 0} (t : Table K) (hashable : K → Bool) (hash_of : K → ℕ)
    (cmp : K → K → Option Bool) where
  pub hash_at-hashed :
      (b : ℕ) (key : K)
      → get_elem? t.keys b ≡ some key
      → hash_at t hashable hash_of cmp b ≡ none
      → (hashable key ≡ true) × (get_elem? t.hashes b ≡ some (hash_of key))
  unfolding hash_at match_hash
  hash_at-hashed b key at e = elim (Bool-cases (hashable key)) [
    | inr no_hash ↦ cc (rw (at, no_hash, hash_at) at e)
    | inl has_hash ↦ elim (Option-cases (get_elem? t.hashes b)) [
      | inl past ↦ cc (rw (at, has_hash, past, hash_at, match_hash) at e)
      | inr (h, stored) ↦ elim (Bool-cases (hash_of key == h)) [
        | inl same ↦ (has_hash, stored ∙ ap some (sym ((==_iff (hash_of key) h).0 same)))
        | inr other ↦ cc (rw (at, has_hash, stored, other, hash_at, match_hash) at e)
      ]
    ]
  ]

  pub place_at-found :
      (b : ℕ) (key : K)
      → get_elem? t.keys b ≡ some key
      → t.is_empty key ≡ false
      → get_elem? t.hashes b ≡ some (hash_of key)
      → place_at t hashable hash_of cmp b ≡ none
      → probe t (hash_of key) (λ other. cmp other key) ≡ hit b
  unfolding place_at probe_for
  place_at-found b key at used stored e =
      placed-hit b (probe t (hash_of key) (λ other. cmp other key))
        (rw (at, used, stored, place_at, probe_for) at e)

  abbrev pub IsRefusal : TableVerdict → Type 0
  IsRefusal (refused e) = Unit
  IsRefusal _ = ⊥

  -- What the counting shows: it counts empty slots from `a` only where one is empty.
  abbrev pub IsCounted : ℕ → Counted → Type 0
  IsCounted a (counted n_used n_empty) = (n_empty ≡ a) ⊎ ((b : ℕ) × IsFree t b)
  IsCounted a (stopped v) = IsRefusal v

  counted_free : (a c : ℕ) (r : Counted) → (b : ℕ) × IsFree t b → IsCounted c r → IsCounted a r
  counted_free a c (counted n_used n_empty) free h = inr free
  counted_free a c (stopped v) free h = h

  refusal : {e : TableError} (v : TableVerdict) → some (refused e) ≡ some v → IsRefusal v
  refusal {e} v q = subst IsRefusal (some-injective (refused e) v q) tt

  mismatch_used :
      (values : Option (List K)) (i : ℕ)
      → value_mismatch t hashable hash_of cmp values false i ≡ some false
  unfolding value_mismatch
  mismatch_used none i = refl
  mismatch_used (some vs) i = refl

  module _ (n : ℕ) (keys_sized : length t.keys ≡ n) (hashes_sized : length t.hashes ≡ n) where
    mismatch_within :
        (values : Option (List K))
        → ((vs : List K) → values ≡ some vs → length vs ≡ n)
        → (i : ℕ) → i < n
        → value_mismatch t hashable hash_of cmp values true i ≢ none
    unfolding value_mismatch
    mismatch_within none sized i lt = λ e. cc
    mismatch_within (some vs) sized i lt =
        let (v, at) = get_elem?-in_range vs i (omega (arith, sized vs refl)) in
        rw (at, value_mismatch) (λ e. cc)

    pub count_slots-IsCounted :
        (values : Option (List K))
        → ((vs : List K) → values ≡ some vs → length vs ≡ n)
        → (left i n_used n_empty : ℕ) → i + left ≡ n
        → IsCounted n_empty (count_slots t hashable hash_of cmp values left i n_used n_empty)
    unfolding count_slots value_mismatch
    count_slots-IsCounted values sized zero i n_used n_empty e = inl refl
    count_slots-IsCounted values sized (suc left) i n_used n_empty e =
        let (key, at) = get_elem?-in_range t.keys i (omega (arith, keys_sized)) in
        let free : t.is_empty key ≡ true → IsFree t i =
          λ empty. record { key = key; at = at; empty = empty } in
        elim (Bool-cases (t.is_empty key)) [
          | inr used ↦
              rw (at, used, mismatch_used values i, count_slots, used)
                (count_slots-IsCounted values sized left (i + 1) (u32 (n_used + 1)) n_empty
                  (omega arith))
          | inl empty ↦ elim (Option-cases (value_mismatch t hashable hash_of cmp values true i)) [
            | inl past ↦ absurd (mismatch_within values sized i (omega arith) past)
            | inr (true, bad) ↦ rw (at, empty, bad, count_slots) tt
            | inr (false, fine) ↦
                rw (at, empty, fine, count_slots, empty)
                  (counted_free n_empty (u32 (n_empty + 1)) _ (i, free empty)
                    (count_slots-IsCounted values sized left (i + 1) n_used (u32 (n_empty + 1))
                      (omega arith)))
          ]
        ]

    pub hash_at-IsRefusal :
        (b : ℕ) (v : TableVerdict) → b < n → hash_at t hashable hash_of cmp b ≡ some v → IsRefusal v
    unfolding hash_at match_hash
    hash_at-IsRefusal b v lt e =
        let (key, at) = get_elem?-in_range t.keys b (omega (arith, keys_sized)) in
        let (h, stored) = get_elem?-in_range t.hashes b (omega (arith, hashes_sized)) in
        elim (Bool-cases (hashable key)) [
          | inr no_hash ↦ refusal v (rw (at, no_hash, hash_at) at e)
          | inl has_hash ↦ elim (Bool-cases (hash_of key == h)) [
            | inl same ↦ cc (rw (at, has_hash, stored, same, hash_at, match_hash) at e)
            | inr other ↦ refusal v (rw (at, has_hash, stored, other, hash_at, match_hash) at e)
          ]
        ]

    module _ (k free : ℕ) (table : IsSized k t) (slot : IsFree t free)
        (words : (b h : ℕ) → get_elem? t.hashes b ≡ some h → h < 2 ^ 32) where
      placed-IsRefusal :
          (b h : ℕ) (is_equal : K → Option Bool) (v : TableVerdict) (r : Probed)
          → Answers t h is_equal r
          → placed b r ≡ some v
          → IsRefusal v
      unfolding placed
      placed-IsRefusal b h is_equal v (hit c) answer e = elim (Bool-cases (c == b)) [
        | inl same ↦ cc (rw same at e)
        | inr other ↦ refusal v (rw other at e)
      ]
      placed-IsRefusal b h is_equal v miss answer e = refusal v e
      placed-IsRefusal b h is_equal v error answer e = refusal v e
      placed-IsRefusal b h is_equal v fault answer e = absurd answer
      placed-IsRefusal b h is_equal v out_of_fuel answer e = absurd answer

      pub place_at-IsRefusal :
          (b : ℕ) (v : TableVerdict)
          → b < n
          → place_at t hashable hash_of cmp b ≡ some v
          → IsRefusal v
      unfolding place_at probe_for
      place_at-IsRefusal b v lt e =
          let (key, at) = get_elem?-in_range t.keys b (omega (arith, keys_sized)) in
          let (h, stored) = get_elem?-in_range t.hashes b (omega (arith, hashes_sized)) in
          let is_equal : K → Option Bool = λ other. cmp other key in
          elim (Bool-cases (t.is_empty key)) [
            | inl empty ↦ cc (rw (at, empty, place_at) at e)
            | inr used ↦
                placed-IsRefusal b h is_equal v (probe t h is_equal)
                  (probe-Answers t h is_equal k free table slot (words b h stored))
                  (rw (at, used, stored, place_at, probe_for) at e)
          ]
