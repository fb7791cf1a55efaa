-- ===== src/Create/Cache/Laws.antt =====
-- A handle that is put into the cache is found under its value, and under no other one.
use mathlib.Core.Option.{some-injective}
use py_pointless.Base.{
  ℕ, ◌+◌, ◌-◌, ◌<◌, ◌≤◌, ◌≡◌, ◌≢◌, refl, ap, ◌∙◌, sym, none, some, length, get_elem?-set_self,
  get_elem?-set_ne, length-replicate, ltb, leb, arith, Bool-cases, Option-cases, inl, inr,
}
use py_pointless.Base.Int.{ℤ, pos, negsuc}
use py_pointless.Create.Cache.{
  Cache, n_u32, n_i32, cache_init, cache_get_u32, cache_set_u32, i32_index, cache_get_i32,
  cache_set_i32,
}

-- Both arrays have all of their entries.
pub record IsCache (cache : Cache) : Type 0 where
  pub u32_sized : length cache.u32_cache ≡ n_u32
  pub i32_sized : length cache.i32_cache ≡ n_i32

pub cache_init-IsCache : (init_value : ℕ) → IsCache (cache_init init_value)
unfolding cache_init
cache_init-IsCache init_value = record {
  u32_sized = length-replicate n_u32 init_value;
  i32_sized = length-replicate n_i32 init_value;
}

index_pos : (n i : ℕ) → i32_index (pos n) ≡ some i → (n ≤ 10000) × (i ≡ n + 10000)
unfolding i32_index
index_pos n i e = elim (Bool-cases (leb n 10000)) [
  | inl y ↦ (ground arith, sym (some-injective (n + 10000) i (rw y at e)))
  | inr m ↦ cc (rw m at e)
]

index_negsuc : (n i : ℕ) → i32_index (negsuc n) ≡ some i → (n + 1 ≤ 10000) × (i ≡ 10000 - (n + 1))
unfolding i32_index
index_negsuc n i e = elim (Bool-cases (leb (n + 1) 10000)) [
  | inl y ↦ (ground arith, sym (some-injective (10000 - (n + 1)) i (rw y at e)))
  | inr m ↦ cc (rw m at e)
]

index_bound : (v : ℤ) (i : ℕ) → i32_index v ≡ some i → i < n_i32
index_bound (pos n) i e = omega (arith, index_pos n i e)
index_bound (negsuc n) i e = omega (arith, index_negsuc n i e)

-- The integers from -10000 to 10000
abbrev pub IsSmall : ℤ → Type 0
IsSmall (pos n) = n ≤ 10000
IsSmall (negsuc n) = n < 10000

index_small : (v : ℤ) → IsSmall v → i32_index v ≢ none
unfolding i32_index
index_small (pos n) h e = elim (Bool-cases (leb n 10000)) [
  | inl y ↦ cc (rw y at e)
  | inr m ↦ absurd (ground arith)
]
index_small (negsuc n) h e = elim (Bool-cases (leb (n + 1) 10000)) [
  | inl y ↦ cc (rw y at e)
  | inr m ↦ absurd (ground arith)
]

index_beyond : (v : ℤ) → ¬ IsSmall v → i32_index v ≡ none
unfolding i32_index
index_beyond (pos n) h = elim (Bool-cases (leb n 10000)) [
  | inl y ↦ absurd (h (ground arith))
  | inr m ↦ rw m refl
]
index_beyond (negsuc n) h = elim (Bool-cases (leb (n + 1) 10000)) [
  | inl y ↦ absurd (h (ground arith))
  | inr m ↦ rw m refl
]

-- Different integers have different places.
index_unique : (v w : ℤ) (i : ℕ) → i32_index v ≡ some i → i32_index w ≡ some i → v ≡ w
index_unique (pos n) (pos m) i e f = ap pos (omega (arith, index_pos n i e, index_pos m i f))
index_unique (pos n) (negsuc m) i e f = absurd (omega (arith, index_pos n i e, index_negsuc m i f))
index_unique (negsuc n) (pos m) i e f = absurd (omega (arith, index_negsuc n i e, index_pos m i f))
index_unique (negsuc n) (negsuc m) i e f =
    ap negsuc (omega (arith, index_negsuc n i e, index_negsuc m i f))

module _ (cache : Cache) (sized : IsCache cache) (handle : ℕ) where
  get-set_u32_self :
      (a : ℕ) → a < n_u32 → cache_get_u32 (cache_set_u32 cache a handle) a ≡ some handle
  unfolding cache_get_u32 cache_set_u32
  get-set_u32_self a h = elim (Bool-cases (ltb a n_u32)) [
    | inl y ↦ rw y (get_elem?-set_self cache.u32_cache a handle (omega (arith, sized.u32_sized)))
    | inr n ↦ absurd (ground arith)
  ]

  get-set_u32_ne :
      (a b : ℕ) → a ≢ b → cache_get_u32 (cache_set_u32 cache a handle) b ≡ cache_get_u32 cache b
  unfolding cache_get_u32 cache_set_u32
  get-set_u32_ne a b ne = elim (Bool-cases (ltb a n_u32)) [
    | inl y ↦ rw (y, get_elem?-set_ne cache.u32_cache a b handle ne) refl
    | inr n ↦ rw n refl
  ]

  get-set_i32_self :
      (v : ℤ) → IsSmall v → cache_get_i32 (cache_set_i32 cache v handle) v ≡ some handle
  unfolding cache_get_i32 cache_set_i32
  get-set_i32_self v h = elim (Option-cases (i32_index v)) [
    | inl e ↦ absurd (index_small v h e)
    | inr (i, e) ↦ rw e (
        get_elem?-set_self cache.i32_cache i handle
          (omega (arith, sized.i32_sized, index_bound v i e)))
  ]

  beyond_u32 :
      (a : ℕ)
      → 10000 ≤ a
      → (cache_set_u32 cache a handle ≡ cache) × (cache_get_u32 cache a ≡ some cache.init)
  unfolding cache_get_u32 cache_set_u32
  beyond_u32 a h = elim (Bool-cases (ltb a n_u32)) [
    | inl y ↦ absurd (ground arith)
    | inr n ↦ rw n (refl, refl)
  ]

  beyond_i32 :
      (v : ℤ)
      → ¬ IsSmall v
      → (cache_set_i32 cache v handle ≡ cache) × (cache_get_i32 cache v ≡ some cache.init)
  unfolding cache_get_i32 cache_set_i32
  beyond_i32 v h = rw (index_beyond v h) (refl, refl)

  get-set_i32_ne :
      (v w : ℤ) → v ≢ w → cache_get_i32 (cache_set_i32 cache v handle) w ≡ cache_get_i32 cache w
  unfolding cache_get_i32 cache_set_i32
  get-set_i32_ne v w ne = elim (Option-cases (i32_index v)) [
    | inl e ↦ rw e refl
    | inr (i, e) ↦ elim (Option-cases (i32_index w)) [
      | inl f ↦ rw (e, f) refl
      | inr (j, f) ↦
          rw (e, f)
            (get_elem?-set_ne cache.i32_cache i j handle
              (λ same. ne (index_unique v w i e (f ∙ ap some (sym same)))))
    ]
  ]

  -- A handle that is put under an unsigned integer below 10000 or a signed one from -10000 to 10000
  -- is found under it, and under every other integer nothing changes; a handle that is put under an
  -- integer outside of these ranges leaves the cache as it is, and none is found there.
  pub cache_get-set :
      (a b : ℕ) (v w : ℤ)
      → (a < 10000 → cache_get_u32 (cache_set_u32 cache a handle) a ≡ some handle)
        × (a ≢ b → cache_get_u32 (cache_set_u32 cache a handle) b ≡ cache_get_u32 cache b)
        × (10000 ≤ a
            → (cache_set_u32 cache a handle ≡ cache) × (cache_get_u32 cache a ≡ some cache.init))
        × (IsSmall v → cache_get_i32 (cache_set_i32 cache v handle) v ≡ some handle)
        × (v ≢ w → cache_get_i32 (cache_set_i32 cache v handle) w ≡ cache_get_i32 cache w)
        × (¬ IsSmall v
            → (cache_set_i32 cache v handle ≡ cache) × (cache_get_i32 cache v ≡ some cache.init))
  cache_get-set a b v w = (
    get-set_u32_self a,
    get-set_u32_ne a b,
    beyond_u32 a,
    get-set_i32_self v,
    get-set_i32_ne v w,
    beyond_i32 v,
  )
