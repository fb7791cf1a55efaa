-- ===== src/Create/Cache.antt =====
-- src/pointless_create_cache.c: the handles of values that were created before, so that a value is
-- written once. `none` from a read is one outside of its array.
pub mod Laws
use py_pointless.Base.{
  ℕ, zero, suc, ◌+◌, ◌-◌, ◌<◌, ◌≤◌, ◌≡◌, ◌≢◌, refl, ap, Bool-cases, ◌⊎◌, inl, inr, Bool, true,
  false, ◌&&◌, Option, none, some, List, get_elem?, set, length, replicate, ltb, leb, arith,
  if◌then◌else◌,
}
use py_pointless.Base.Int.{ℤ, pos, negsuc}

-- `POINTLESS_CREATE_CACHE_N_U32`, and the number of 32-bit integers from -10000 to 10000
abbrev pub n_u32 : ℕ
n_u32 = 10000

abbrev pub n_i32 : ℕ
n_i32 = 20001

-- `pointless_create_cache_t`
pub record Cache : Type 0 where
  pub init : ℕ
  pub u32_cache : List ℕ
  pub i32_cache : List ℕ
  pub null_handle : ℕ
  pub empty_slot_handle : ℕ
  pub true_handle : ℕ
  pub false_handle : ℕ

-- `pointless_create_cache_init`
pub cache_init : ℕ → Cache
cache_init init_value = record {
  init = init_value;
  u32_cache = replicate n_u32 init_value;
  i32_cache = replicate n_i32 init_value;
  null_handle = init_value;
  empty_slot_handle = init_value;
  true_handle = init_value;
  false_handle = init_value;
}

pub cache_get_u32 : Cache → ℕ → Option ℕ
cache_get_u32 cache v = if ltb v n_u32 then get_elem? cache.u32_cache v else some cache.init

pub cache_set_u32 : Cache → ℕ → ℕ → Cache
cache_set_u32 cache v handle =
    if ltb v n_u32 then record cache { u32_cache = set cache.u32_cache v handle } else cache

-- `i32 - POINTLESS_CREATE_CACHE_MIN_I32`, where the integer is in range
pub i32_index : ℤ → Option ℕ
i32_index (pos n) = if leb n 10000 then some (n + 10000) else none
i32_index (negsuc n) = if leb (n + 1) 10000 then some (10000 - (n + 1)) else none

abbrev pub handle_at : Cache → Option ℕ → Option ℕ
handle_at cache none = some cache.init
handle_at cache (some i) = get_elem? cache.i32_cache i

pub cache_get_i32 : Cache → ℤ → Option ℕ
unfolding i32_index
cache_get_i32 cache v = handle_at cache (i32_index v)

abbrev pub put_at : Cache → Option ℕ → ℕ → Cache
put_at cache none handle = cache
put_at cache (some i) handle = record cache { i32_cache = set cache.i32_cache i handle }

pub cache_set_i32 : Cache → ℤ → ℕ → Cache
unfolding i32_index
cache_set_i32 cache v handle = put_at cache (i32_index v) handle

pub cache_get_null : Cache → ℕ
cache_get_null cache = cache.null_handle

pub cache_set_null : Cache → ℕ → Cache
cache_set_null cache handle = record cache { null_handle = handle }

pub cache_get_empty_slot : Cache → ℕ
cache_get_empty_slot cache = cache.empty_slot_handle

pub cache_set_empty_slot : Cache → ℕ → Cache
cache_set_empty_slot cache handle = record cache { empty_slot_handle = handle }

pub cache_get_true : Cache → ℕ
cache_get_true cache = cache.true_handle

pub cache_set_true : Cache → ℕ → Cache
cache_set_true cache handle = record cache { true_handle = handle }

pub cache_get_false : Cache → ℕ
cache_get_false cache = cache.false_handle

pub cache_set_false : Cache → ℕ → Cache
cache_set_false cache handle = record cache { false_handle = handle }
