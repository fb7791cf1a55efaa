-- ===== src/HashTable/Populate/RoundTrip.antt =====
-- What `populate` has put in is found by probing.
use mathlib.Core.Bool.{false≢true}
use py_pointless.Base.{
  ℕ, zero, suc, ◌+◌, ◌^◌, ◌<◌, ◌≡◌, refl, sym, ◌∙◌, arith, Bool, true, false, Option, some, none,
  List, [], ◌∷◌, length, All, All-map, get_elem?, set, get_elem?-lt, get_elem?-set_self,
  get_elem?-set_ne, length-set, ◌==◌, if◌then◌else◌, Bool-cases, inl, inr, ◌≢◌, ==_iff, ==→ne,
}
use py_pointless.HashTable.{Probed, hit, miss, error, fault, out_of_fuel, probe_loop, probe}
use py_pointless.HashTable.Probe.{IsSized, IsFree, Lands, Answers, probe-Answers}
use py_pointless.HashTable.Populate.{
  Serialized, Populated, done, failed, bad_access, no_end, Slot, free, stop, Item, as_table,
  find_slot, store, store_value, insert_all,
}
use py_pointless.HashTable.Populate.Insert.{
  table, Lands-store, Lands-fill, Seen, find_slot-Seen, Stops,
}

-- The buckets in use
unfoldable pub used_count : ℕ → List ℕ → ℕ
used_count empty [] = 0
used_count empty (k ∷ ks) = (if k == empty then 0 else 1) + used_count empty ks

used_count-set :
    (empty k old : ℕ) (ks : List ℕ) (b : ℕ)
    → get_elem? ks b ≡ some old
    → (old == empty) ≡ true
    → (k == empty) ≡ false
    → used_count empty (set ks b k) ≡ used_count empty ks + 1
unfolding used_count
used_count-set empty k old [] b at e u = cc
used_count-set empty k old (x ∷ ks) zero at e u = ground arith
used_count-set empty k old (x ∷ ks) (suc b) at e u =
    omega (arith, used_count-set empty k old ks b at e u)

free_bucket :
    (empty : ℕ) (ks : List ℕ)
    → used_count empty ks < length ks
    → (b : ℕ) × (k : ℕ) × (get_elem? ks b ≡ some k) × ((k == empty) ≡ true)
unfolding used_count
free_bucket empty [] h = absurd (omega arith)
free_bucket empty (k ∷ ks) h = elim (Bool-cases (k == empty)) [
  | inl e ↦ (0, k, refl, e)
  | inr u ↦
      let few : used_count empty ks < length ks = ground arith in
      let (b, j, at, e) = free_bucket empty ks few in (suc b, j, at, e)
]

-- The value vector has the value of an item at its bucket, if there is one.
abbrev pub ValueAt : Option (List ℕ) → ℕ → ℕ → Type 0
ValueAt none b v = Unit
ValueAt (some vs) b v = get_elem? vs b ≡ some v

abbrev pub ValuesSized : Option (List ℕ) → ℕ → Type 0
ValuesSized none n = Unit
ValuesSized (some vs) n = length vs ≡ n

module _ (cmp : ℕ → ℕ → Option Bool) (n_buckets empty : ℕ) where
  -- What the caller owes of an item: a 32-bit hash, and a key that is equal to itself.
  pub record IsItem (item : Item) : Type 0 where
    pub word : item.hash < 2 ^ 32
    pub equal : cmp item.key item.key ≡ some true

  -- An item stands at the end of its probe path.
  pub record Placed (s : Serialized) (item : Item) : Type 0 where
    pub bucket : ℕ
    pub path :
        Lands
          (table n_buckets empty s)
          item.hash
          (λ k. cmp k item.key)
          bucket
          (hit bucket)
          item.hash
          item.hash
    pub key_at : get_elem? s.keys bucket ≡ some item.key
    pub key_used : (item.key == empty) ≡ false
    pub value_at : ValueAt s.values bucket item.value

  pub record IsReady (k : ℕ) (s : Serialized) : Type 0 where
    pub sized : IsSized k (table n_buckets empty s)
    pub values : ValuesSized s.values (2 ^ k)

  pub IsFree-used_count :
      (k : ℕ) (s : Serialized)
      → IsReady k s
      → used_count empty s.keys < n_buckets
      → (b : ℕ) × IsFree (table n_buckets empty s) b
  unfolding as_table
  IsFree-used_count k s ready few =
      let (b, key, at, e) =
        free_bucket empty s.keys (omega (arith, ready.sized.count, ready.sized.keys_length)) in
      (b, record { key = key; at = at; empty = e })

  ValueAt-store :
      (vs : Option (List ℕ)) (n f b v w : ℕ)
      → ValuesSized vs n
      → f < n
      → (f ≡ b → v ≡ w)
      → (f ≢ b → ValueAt vs b w)
      → ValueAt (store_value vs f v) b w
  unfolding store_value
  ValueAt-store none n f b v w sized h same other = tt
  ValueAt-store (some vs) n f b v w sized h same other = elim (Bool-cases (f == b)) [
    | inl e ↦
        let e' = (==_iff f b).0 e in rw (← e', ← same e') (get_elem?-set_self vs f v (omega arith))
    | inr ne ↦ get_elem?-set_ne vs f b v (==→ne f b ne) ∙ other (==→ne f b ne)
  ]

  ValuesSized-store :
      (vs : Option (List ℕ)) (n f v : ℕ) → ValuesSized vs n → ValuesSized (store_value vs f v) n
  unfolding store_value
  ValuesSized-store none n f v h = tt
  ValuesSized-store (some vs) n f v h = length-set vs f v ∙ h

  store-IsReady :
      (k : ℕ) (s : Serialized) (f : ℕ) (item : Item) → IsReady k s → IsReady k (store s f item)
  unfolding store as_table
  store-IsReady k s f item r = record {
    sized = record {
      bits = r.sized.bits;
      count = r.sized.count;
      hashes_length = length-set s.hashes f item.hash ∙ r.sized.hashes_length;
      keys_length = length-set s.keys f item.key ∙ r.sized.keys_length;
    };
    values = ValuesSized-store s.values (2 ^ k) f item.value r.values;
  }

  key_at_ne :
      (s : Serialized) (f : ℕ) (old : Item) (placed : Placed s old)
      → IsFree (table n_buckets empty s) f
      → f ≢ placed.bucket
  unfolding as_table
  key_at_ne s f old placed open_slot same =
      let at : get_elem? s.keys f ≡ some old.key = rw same placed.key_at in
      let key : open_slot.key ≡ old.key = cc (open_slot.at) in
      false≢true (sym placed.key_used ∙ rw (← key) open_slot.empty)

  Placed-store :
      (k : ℕ) (s : Serialized) (f : ℕ) (item old : Item)
      → IsReady k s
      → IsFree (table n_buckets empty s) f
      → Placed s old
      → Placed (store s f item) old
  unfolding store as_table
  Placed-store k s f item old r open_slot placed =
      let ne = key_at_ne s f old placed open_slot in
      let lt : f < 2 ^ k = rw (← r.sized.keys_length) (get_elem?-lt s.keys f open_slot.at) in
      record {
        bucket = placed.bucket;
        path = Lands-store n_buckets empty s f item open_slot old.hash _ placed.bucket placed.path;
        key_at = get_elem?-set_ne s.keys f placed.bucket item.key ne ∙ placed.key_at;
        key_used = placed.key_used;
        value_at =
            ValueAt-store s.values (2 ^ k) f placed.bucket item.value old.value r.values lt
              (λ e. absurd (ne e)) (λ _. placed.value_at);
      }

  Placed-fill :
      (k : ℕ) (s : Serialized) (f : ℕ) (item : Item)
      → IsReady k s
      → IsItem item
      → (item.key == empty) ≡ false
      → IsFree (table n_buckets empty s) f
      → Lands (table n_buckets empty s) item.hash (λ j. cmp j item.key) f miss item.hash item.hash
      → Placed (store s f item) item
  unfolding store as_table
  Placed-fill k s f item r ok used open_slot path =
      let in_keys = get_elem?-lt s.keys f open_slot.at in
      let in_hashes : f < length s.hashes =
        omega (arith, r.sized.keys_length, r.sized.hashes_length, in_keys) in
      record {
        bucket = f;
        path =
            Lands-fill n_buckets empty s f item open_slot item.hash _ in_hashes refl
              (==→ne _ _ used) ok.equal path;
        key_at = get_elem?-set_self s.keys f item.key in_keys;
        key_used = used;
        value_at =
            ValueAt-store s.values (2 ^ k) f f item.value item.value r.values
              (omega (arith, r.sized.keys_length, in_keys)) (λ _. refl) (λ ne. absurd (ne refl));
      }

  -- What holds after the items are put in, besides those that were in before.
  abbrev pub Inserted : ℕ → ℕ → List Item → List Item → Populated → Type 0
  Inserted k n before items (done s) =
      IsReady k s × (used_count empty s.keys ≡ n) × All (Placed s) before × All (Placed s) items
  Inserted k n before items (failed e) = Unit
  Inserted k n before items bad_access = ⊥
  Inserted k n before items no_end = ⊥

  abbrev pub IsUsed : Item → Type 0
  IsUsed item = (item.key == empty) ≡ false

  reorder :
      (k n m : ℕ) (item : Item) (before items : List Item)
      → n ≡ m
      → (r : Populated) → Inserted k n (item ∷ before) items r
      → Inserted k m before (item ∷ items) r
  reorder k n m item before items e (done s) (ready, count, (p, ps), qs) =
      (ready, count ∙ e, ps, (p, qs))
  reorder k n m item before items e (failed x) h = tt
  reorder k n m item before items e bad_access h = h
  reorder k n m item before items e no_end h = h

  used-store :
      (s : Serialized) (f : ℕ) (item : Item)
      → IsFree (table n_buckets empty s) f
      → IsUsed item
      → used_count empty (store s f item).keys ≡ used_count empty s.keys + 1
  unfolding store as_table
  used-store s f item open_slot used =
      used_count-set empty item.key open_slot.key s.keys f open_slot.at open_slot.empty used

  -- The outer loop is left early only by one of the two errors.
  stop_safe :
      (k n : ℕ) (before items : List Item) (x : Populated) (r : Probed) (s : Serialized)
      (item : Item)
      → Stops n_buckets empty cmp s item.hash item.key x r
      → Answers (table n_buckets empty s) item.hash (λ j. cmp j item.key) r
      → Inserted k n before items x
  stop_safe k n before items x (hit b) s item h a = rw h tt
  stop_safe k n before items x miss s item h a = absurd h
  stop_safe k n before items x error s item h a = rw h tt
  stop_safe k n before items x fault s item h a = absurd a
  stop_safe k n before items x out_of_fuel s item h a = absurd a

  pub insert_all-Inserted :
      (k : ℕ) (items before : List Item) (s : Serialized)
      → IsReady k s
      → All (Placed s) before
      → All IsItem items
      → All IsUsed items
      → used_count empty s.keys + length items < n_buckets
      → Inserted k
          (used_count empty s.keys + length items)
          before
          items
          (insert_all cmp n_buckets empty s items)
  unfolding insert_all as_table probe
  insert_all-Inserted k [] before s r placed ok used room = (r, omega arith, placed, tt)
  insert_all-Inserted k (item ∷ items) before s r placed ok used room =
      go (λ s'. insert_all-Inserted k items (item ∷ before) s')
        (find_slot cmp n_buckets empty s item.hash item.key (n_buckets + 8) item.hash item.hash)
        (find_slot-Seen n_buckets empty cmp s item.hash item.key (n_buckets + 8) item.hash
          item.hash)
    where
      go :
          ((s' : Serialized)
            → IsReady k s'
            → All (Placed s') (item ∷ before)
            → All IsItem items
            → All IsUsed items
            → used_count empty s'.keys + length items < n_buckets
            → Inserted k
                (used_count empty s'.keys + length items)
                (item ∷ before)
                items
                (insert_all cmp n_buckets empty s' items))
          → (x : Slot)
          → Seen n_buckets empty cmp s item.hash item.key (n_buckets + 8) item.hash item.hash x
          → Inserted k
              (used_count empty s.keys + length (item ∷ items))
              before
              (item ∷ items)
              (elim x [
                | free b ↦ insert_all cmp n_buckets empty (store s b item) items
                | stop r ↦ r
              ])
      go again (free f) (open_slot, path) =
          let s' = store s f item in
          let count = used-store s f item open_slot used.0 in
          reorder k (used_count empty s'.keys + length items) _ item before items
            (omega (arith, count)) (insert_all cmp n_buckets empty s' items)
            (again s' (store-IsReady k s f item r)
              (
                Placed-fill k s f item r ok.0 used.0 open_slot path,
                All-map _ _ (λ old. Placed-store k s f item old r open_slot) before placed,
              )
              ok.1 used.1 (omega (arith, count)))
      go again (stop x) h =
          let (e, open_slot) = IsFree-used_count k s r (omega arith) in
          stop_safe k _ before (item ∷ items) x
            (probe_loop (table n_buckets empty s) item.hash (λ j. cmp j item.key) (n_buckets + 8)
              item.hash item.hash)
            s item h
            (probe-Answers (table n_buckets empty s) item.hash (λ j. cmp j item.key) k e r.sized
              open_slot ok.0.word)
