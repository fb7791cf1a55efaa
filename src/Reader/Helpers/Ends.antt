-- ===== src/Reader/Helpers/Ends.antt =====
-- The loops over the buckets of a hash come to an end in every table that has an empty bucket.
use py_pointless.Base.{
  ℕ, zero, suc, ◌+◌, ◌-◌, ◌^◌, ◌<◌, ◌≡◌, refl, sym, ◌∙◌, ◌≢◌, ap, arith, Bool, true, false, Option,
  some, get_elem?, get_elem?-lt, Bool-cases, inl, inr,
}
use mathlib.Core.Path.{subst}
use py_pointless.HashTable.{Table, IterState, probe_hash_init}
use py_pointless.HashTable.Probe.{IsSized, IsFree, HoldsKey}
use py_pointless.HashTable.Walk.{walk-reaches}
use py_pointless.HashTable.Search.{Step, bucket_at, ended, bad_read, no_end, iter_hash}
use py_pointless.HashTable.Search.Ends.{Reaches, Steps, iter_hash-Steps}
use py_pointless.Reader.Tables.{Found, found, missing}
use py_pointless.Reader.{Pointless}
use py_pointless.Reader.Items.{value_item, map_hash_vector, map_key_vector, map_value_vector}
use py_pointless.Reader.Tables.Mapping.{iter_table, map_values}
use py_pointless.Reader.Helpers.{
  get_map, Check, accepted, refused, failed, at_step, visit_loop, visit_buckets, at_value, at_pair,
}
use py_pointless.Value.{Value, map_value_value}

-- A property of the results that holds where the loop ends without a key, and that what is done at
-- a bucket under the hash keeps, holds of the result of the loop.
module _ {A : Type 0} (t : Table Value) (hash k : ℕ) (sized : IsSized k t)
    (act : ℕ → Found A → Found A) (Good : Found A → Type 0) (none_good : Good missing)
    (kept : (b : ℕ) (key : Value) (rest : Found A)
      → HoldsKey t b hash key
      → Good rest
      → Good (act b rest)) where
  visit_loop-Good :
      (n fuel : ℕ) (state : IterState)
      → n < t.n_buckets + 8
      → n < fuel
      → Reaches t hash k sized n state
      → Good (visit_loop t hash act fuel state)
  unfolding visit_loop
  visit_loop-Good n zero state small lt r = absurd (omega arith)
  visit_loop-Good n (suc fuel) state small lt r =
      go (iter_hash t hash (t.n_buckets + 8) state)
        (iter_hash-Steps t hash k sized n (t.n_buckets + 8) state small r)
        (λ m state' less r'. visit_loop-Good m fuel state' (omega arith) (omega arith) r')
    where
      go :
          (s : Step)
          → Steps t hash k sized n s
          → ((m : ℕ) (state' : IterState)
              → m < n
              → Reaches t hash k sized m state'
              → Good (visit_loop t hash act fuel state'))
          → Good (at_step t hash act s (λ next. visit_loop t hash act fuel next))
      go (bucket_at b state') (key, holds, m, less, r') rest =
          kept b key (visit_loop t hash act fuel state') holds (rest m state' less r')
      go ended h rest = none_good
      go bad_read h rest = absurd h
      go no_end h rest = absurd h

  pub visit_buckets-Good : (e : ℕ) → IsFree t e → hash < 2 ^ 32 → Good (visit_buckets t hash act)
  unfolding visit_buckets probe_hash_init Reaches
  visit_buckets-Good e free small =
      let lt = get_elem?-lt t.keys e free.at in
      let (n, within, there) =
        walk-reaches k hash hash e sized.bits small (omega (arith, lt, sized.keys_length)) in
      visit_loop-Good n (t.n_buckets + 8)
        (record { perturb = hash; i = hash; mask = t.n_buckets - 1 })
        (omega (arith, within, sized.count)) (omega (arith, within, sized.count))
        (refl, subst (λ b. IsFree t b) (sym there) free)

-- The loop of `pointless_get_map_`, over a table and the values beside its keys
module _ {A : Type 0} (t : Table Value) (hash : ℕ) (values : ℕ → Option Value)
    (cb_k : Value → Option Bool) (cb_v : Value → Check A) where
  -- What a result says of the table
  abbrev pub FindsValue : Found A → Type 0
  FindsValue (found a) =
      (b : ℕ) × (key : Value) × (x : Value) × HoldsKey t b hash key
      × (cb_k key ≡ some true)
      × (values b ≡ some x)
      × (cb_v x ≡ accepted a)
  FindsValue missing = Unit
  FindsValue _ = ⊥

  -- The callbacks return, and the values can be read.
  pub record Answers : Type 0 where
    pub tests : (b : ℕ) (key : Value) → HoldsKey t b hash key → (r : Bool) × (cb_k key ≡ some r)
    pub reads : (b : ℕ) (key : Value) → HoldsKey t b hash key → (x : Value) × (values b ≡ some x)
    pub checks : (x : Value) → cb_v x ≢ failed

  at_value-FindsValue :
      (b : ℕ) (key x : Value) (rest : Found A) (c : Check A)
      → cb_v x ≡ c
      → c ≢ failed
      → HoldsKey t b hash key
      → cb_k key ≡ some true
      → values b ≡ some x
      → FindsValue rest
      → FindsValue (at_value c rest)
  at_value-FindsValue b key x rest (accepted a) ec _ holds passes at good =
      (b, key, x, holds, passes, at, ec)
  at_value-FindsValue b key x rest refused ec _ holds passes at good = good
  at_value-FindsValue b key x rest failed ec ok holds passes at good = absurd (ok refl)

  map_act : ℕ → Found A → Found A
  map_act b rest = at_pair cb_k cb_v (get_elem? t.keys b) (values b) rest

  map_act-FindsValue :
      Answers
      → (b : ℕ) (key : Value) (rest : Found A) → HoldsKey t b hash key
      → FindsValue rest
      → FindsValue (map_act b rest)
  unfolding map_act
  map_act-FindsValue answers b key rest holds good =
      let (r, tested) = answers.tests b key holds in
      let (x, at) = answers.reads b key holds in
      elim (Bool-cases r) [
        | inl e ↦
            let passes : cb_k key ≡ some true = tested ∙ ap some e in
            rw (holds.at, passes, at)
              (at_value-FindsValue b key x rest (cb_v x) refl (answers.checks x) holds passes at
                good)
        | inr e ↦
            let fails : cb_k key ≡ some false = tested ∙ ap some e in rw (holds.at, fails) good
      ]

-- A map of a file whose vectors are read
pub record IsOpenMap (p : Pointless) (v : ℕ) (t : Table Value) (xs : Value) : Type 0 where
  pub hashes : Value
  pub keys : Value
  pub hashes_at : map_hash_vector p map_value_value v ≡ some hashes
  pub keys_at : map_key_vector p map_value_value v ≡ some keys
  pub values_at : map_value_vector p map_value_value v ≡ some xs
  pub table_at : iter_table p hashes keys ≡ some t
  pub pointer : ℕ
  pub pointer_at : map_values p xs ≡ some pointer

-- The values of a map
abbrev pub values_of : Pointless → Value → ℕ → Option Value
values_of p xs b = value_item p xs.tag xs.data_u32 b

-- In a map of a file with 2 ^ k buckets, at most 2 ^ 32, of which one is empty, the search under
-- any 32-bit hash comes to an end, where the tests of keys and values return and the values can be
-- read: what it writes out comes from the value of a key that stands under the hash and passes the
-- test of keys.
pub get_map-FindsValue :
    {A : Type 0} (p : Pointless) (v : ℕ) (t : Table Value) (xs : Value) (hash k e : ℕ)
    (cb_k : Value → Option Bool) (cb_v : Value → Check A)
    → IsOpenMap p v t xs
    → IsSized k t
    → IsFree t e
    → hash < 2 ^ 32
    → Answers t hash (values_of p xs) cb_k cb_v
    → FindsValue t hash
        (values_of p xs)
        cb_k
        cb_v
        (get_map p map_value_value v (some hash) cb_k cb_v)
unfolding get_map map_act
get_map-FindsValue p v t xs hash k e cb_k cb_v map sized free small answers =
    rw (map.hashes_at, map.keys_at, map.values_at, map.table_at, map.pointer_at)
      (visit_buckets-Good t hash k sized (map_act t hash (values_of p xs) cb_k cb_v)
        (FindsValue t hash (values_of p xs) cb_k cb_v) tt
        (map_act-FindsValue t hash (values_of p xs) cb_k cb_v answers) e free small)
