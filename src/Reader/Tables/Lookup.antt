-- ===== src/Reader/Tables/Lookup.antt =====
-- In a set that passed the validation every key is found.
use py_pointless.Base.{
  ℕ, ◌<◌, ◌^◌, ◌≡◌, refl, sym, ◌∙◌, Bool, true, false, not, Option, none, some, List, length,
  get_elem?, ◌==◌, if◌then◌else◌,
}
use mathlib.Core.Path.{subst}
use mathlib.Core.Option.{some-injective}
use py_pointless.Hash.{is_hashable}
use py_pointless.HashTable.{Table, probe}
use py_pointless.HashTable.Validation.{
  TableVerdict, table_valid, refused, bad_access, diverges, validate,
}
use py_pointless.HashTable.Validation.Contract.{IsLookup, Judges, validate-Judges}
use py_pointless.Reader.{Pointless}
use py_pointless.Reader.Words.{HasBytes}
use py_pointless.Reader.Items.{vector_n_items, set_n_items, set_hash_vector, set_key_vector}
use py_pointless.Reader.Tables.{
  is_values, is_u32, keys_read, hashes_read, table_of, found, probed, at_bucket, set_lookup,
  set_lookup_ext,
}
use py_pointless.Validate.Pass.{
  set_sizes, values_from, hashes_from, table_error, check_table, set_complicated, is_empty_slot,
  PassError,
}
use py_pointless.Value.{set_value, Value}
use py_pointless.Reader.Tables.Reads.{
  after-some, keys_read-values_from, hashes_read-hashes_from, hashes_read-words,
}

valid_table : (v : TableVerdict) → table_error v ≡ some none → v ≡ table_valid
unfolding table_error
valid_table table_valid e = refl
valid_table (refused r) e = cc
valid_table bad_access e = cc
valid_table diverges e = cc

sizes_agree :
    (b : Bool) (e : PassError) (o : Option (Option PassError))
    → (if not b then some (some e) else o) ≡ some none
    → o ≡ some none
sizes_agree true e o h = h
sizes_agree false e o h = cc

module _ (p : Pointless) (hash_of : Value → ℕ) (cmp : Value → Value → Option Bool) where
  abbrev table : ℕ → List ℕ → List Value → Table Value
  table n hs ks = record { is_empty = is_empty_slot; n_buckets = n; hashes = hs; keys = ks }

  abbrev IsGood : Table Value → Type 0
  IsGood t = IsLookup t (λ k. is_hashable k.tag) hash_of cmp

  valid-IsGood :
      (n n_items : ℕ) (hs : List ℕ) (ks : List Value)
      → length hs ≡ n
      → length ks ≡ n
      → ((b h : ℕ) → get_elem? hs b ≡ some h → h < 2 ^ 32)
      → validate (table n hs ks) (λ k. is_hashable k.tag) hash_of cmp none n_items ≡ table_valid
      → IsGood (table n hs ks)
  valid-IsGood n n_items hs ks long_hs long_ks words e =
      let t = table n hs ks in
      subst (λ v. Judges t (λ k. is_hashable k.tag) hash_of cmp n_items v) e
        (validate-Judges t (λ k. is_hashable k.tag) hash_of cmp none n_items long_ks long_hs
          (λ vs e'. absurd (not_some vs e')) words)
    where
      not_some : (vs : List Value) → none ≡ some vs → ⊥
      not_some vs e' = cc

  -- A table that passes, as the lookup reads it
  check_table-IsGood :
      (n n_items : ℕ) (hashes keys : Value)
      → HasBytes p.buf
      → check_table p hash_of cmp n hashes keys none n_items ≡ some none
      → (is_u32 hashes.tag ≡ true)
        × IsGood
            (table n (hashes_read p hashes.data_u32 n 0) (keys_read p keys.tag keys.data_u32 n 0))
  unfolding check_table
  check_table-IsGood n n_items hashes keys bytes e =
      let (hs, eh, e1) = after-some (hashes_from p hashes.tag hashes.data_u32 n 0) _ _ e in
      let (ks, ek, e2) = after-some (values_from p keys.tag keys.data_u32 n 0) _ _ e1 in
      let (u32_tag, same_hashes, n_hashes) =
        hashes_read-hashes_from p hashes.tag hashes.data_u32 n 0 hs eh in
      let (same_keys, n_keys) = keys_read-values_from p keys.tag keys.data_u32 n 0 ks ek in
      let words : (b h : ℕ) → get_elem? hs b ≡ some h → h < 2 ^ 32 = λ b h at.
        hashes_read-words p hashes.data_u32 n 0 b h bytes
          (subst (λ l. get_elem? l b ≡ some h) (sym same_hashes) at) in
      (
        u32_tag,
        subst (λ l. IsGood (table n l (keys_read p keys.tag keys.data_u32 n 0))) (sym same_hashes)
            (subst (λ l. IsGood (table n hs l)) (sym same_keys)
              (valid-IsGood n n_items hs ks n_hashes n_keys words (valid_table _ e2))),
      )

  -- The set of a file, as the validation leaves it
  record IsValidSet (v : ℕ) (keys : Value) (n : ℕ) : Type 0 where
    hashes : Value
    hashes_at : set_hash_vector p set_value v ≡ some hashes
    keys_at : set_key_vector p set_value v ≡ some keys
    n_buckets_at : vector_n_items p keys.tag keys.data_u32 ≡ some n
    hashes_u32 : is_u32 hashes.tag ≡ true
    good :
        IsGood
          (table n (hashes_read p hashes.data_u32 n 0) (keys_read p keys.tag keys.data_u32 n 0))

  set_complicated-IsValidSet :
      (v : ℕ)
      → HasBytes p.buf
      → set_complicated p hash_of cmp set_value v ≡ some none
      → (keys : Value) × (n : ℕ) × IsValidSet v keys n
  unfolding set_complicated
  set_complicated-IsValidSet v bytes e =
      let (hashes, eh, e1) = after-some (set_hash_vector p set_value v) _ _ e in
      let (keys, ek, e2) = after-some (set_key_vector p set_value v) _ _ e1 in
      let (n_hash, _, e3) = after-some (vector_n_items p hashes.tag hashes.data_u32) _ _ e2 in
      let (n_keys, en, e4) = after-some (vector_n_items p keys.tag keys.data_u32) _ _ e3 in
      let e5 = sizes_agree (n_hash == n_keys) set_sizes _ e4 in
      let (n_items, _, e6) = after-some (set_n_items p set_value v) _ _ e5 in
      let (u32_tag, good) = check_table-IsGood n_keys n_items hashes keys bytes e6 in
      (
        keys,
        n_keys,
        record {
          hashes = hashes;
          hashes_at = eh;
          keys_at = ek;
          n_buckets_at = en;
          hashes_u32 = u32_tag;
          good = good;
        },
      )

  -- A lookup in such a set is a probing of its table.
  set_lookup_ext-probe :
      (v : ℕ) (keys : Value) (n h : ℕ) (is_equal : Value → Option Bool)
      → (set : IsValidSet v keys n) → is_values keys.tag ≡ true
      → set_lookup_ext p set_value v h is_equal ≡ (
          let ks = keys_read p keys.tag keys.data_u32 n 0 in
          probed
            (probe (table n (hashes_read p set.hashes.data_u32 n 0) ks) h is_equal)
            (λ b. get_elem? ks b))
  unfolding set_lookup_ext table_of
  set_lookup_ext-probe v keys n h is_equal set tag =
      rw (set.hashes_at, set.keys_at, set.hashes_u32, tag, set.n_buckets_at) refl

  found_in :
      (v : ℕ) (keys : Value) (n b : ℕ) (key : Value)
      → IsValidSet v keys n
      → is_values keys.tag ≡ true
      → get_elem? (keys_read p keys.tag keys.data_u32 n 0) b ≡ some key
      → is_empty_slot key ≡ false
      → set_lookup hash_of cmp p set_value v key ≡ found key
  unfolding set_lookup probed at_bucket
  found_in v keys n b key set tag at used =
      let hashable = (set.good.hashed b key at).0 in
      let probe_at = set.good.found b key at used in
      rw hashable (
        set_lookup_ext-probe v keys n (hash_of key) (λ other. cmp other key) set tag
        ∙ rw (probe_at, at) refl)

-- In a set of a file that passed the third validation pass, every key is found: the lookup of the
-- key of a used bucket returns that key. The vector of the keys has a type of vectors of values.
pub set_lookup-found :
    (p : Pointless) (hash_of : Value → ℕ) (cmp : Value → Value → Option Bool) (v : ℕ) (keys : Value)
    (n : ℕ)
    → HasBytes p.buf
    → set_complicated p hash_of cmp set_value v ≡ some none
    → set_key_vector p set_value v ≡ some keys
    → is_values keys.tag ≡ true
    → vector_n_items p keys.tag keys.data_u32 ≡ some n
    → (b : ℕ) (key : Value) → get_elem? (keys_read p keys.tag keys.data_u32 n 0) b ≡ some key
    → is_empty_slot key ≡ false
    → set_lookup hash_of cmp p set_value v key ≡ found key
set_lookup-found p hash_of cmp v keys n bytes valid keys_at tag n_at b key at used =
    let (keys', n', set) = set_complicated-IsValidSet p hash_of cmp v bytes valid in
    let same_keys : keys' ≡ keys = some-injective keys' keys (sym set.keys_at ∙ keys_at) in
    let set1 : IsValidSet p hash_of cmp v keys n' =
      subst (λ k. IsValidSet p hash_of cmp v k n') same_keys set in
    let same_n : n' ≡ n = some-injective n' n (sym set1.n_buckets_at ∙ n_at) in
    found_in p hash_of cmp v keys n b key
      (subst (λ m. IsValidSet p hash_of cmp v keys m) same_n set1) tag at used
