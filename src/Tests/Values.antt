-- ===== src/Tests/Values.antt =====
-- Strings, numbers and their hashes and order at concrete inputs.
use py_pointless.Base.{ℕ, ◌-◌, ◌^◌, ◌<◌, ◌≤◌, ◌≡◌, ◌↔◌, some, List, [], ◌∷◌, arith, leb}
use py_pointless.Base.Int.{pos, negsuc, pattern_of}
use py_pointless.Strings.{ascii_to_ucs4, ucs2_to_ucs4, ucs4_to_ascii, ucs2_to_ascii}
use py_pointless.Strings.Laws.{Units, ended, Conversion, conversions_lem}
use mathlib.Core.Logic.{◌≢◌}
use py_pointless.Create.Cache.{
  cache_init, cache_get_u32, cache_set_u32, cache_get_i32, cache_set_i32,
}
use py_pointless.Create.Cache.Laws.{cache_init-IsCache, IsSmall, cache_get-set}
use py_pointless.Hash.{hash_i32, hash_i64, Contents}
use py_pointless.Hash.Numbers.{hash_i64-hash_i32}
use py_pointless.Cmp.{cmp_string, cmp_int}
use py_pointless.BitVector.{Sign, less}
use py_pointless.Cmp.Text.{order, cmp_string-order}
use py_pointless.Cmp.Order.{rank, IsUnsigned, IsInteger, Orders, cmp_int-rank}
use py_pointless.Value.{i32, u32}

abbrev hi : List ℕ
hi = 104 ∷ 105 ∷ []

hi-Units : Units 256 hi
hi-Units = ((omega arith, omega arith), ((omega arith, omega arith), tt))

conversions_lem_example :
    (ascii_to_ucs4 (λ n. leb n 64) (ended hi []) ≡ Conversion (λ n. leb n 64) hi [] 12)
    × (ucs2_to_ucs4 (λ n. leb n 64) (ended hi []) ≡ Conversion (λ n. leb n 64) hi [] 12)
    × (ucs4_to_ascii (λ n. leb n 64) (ended hi []) ≡ Conversion (λ n. leb n 64) hi [] 3)
    × (ucs2_to_ascii (λ n. leb n 64) (ended hi []) ≡ Conversion (λ n. leb n 64) hi [] 3)
conversions_lem_example = conversions_lem (λ n. leb n 64) hi [] hi-Units (omega arith)

cmp_string-order_example :
    cmp_string (ended hi []) (ended (104 ∷ 300 ∷ []) (7 ∷ [])) ≡ some (order hi (104 ∷ 300 ∷ []))
cmp_string-order_example =
    cmp_string-order 256 512 hi (104 ∷ 300 ∷ []) [] (7 ∷ []) hi-Units
      ((omega arith, omega arith), ((omega arith, omega arith), tt))

cmp_int-rank_example :
    (s : Sign) × (cmp_int i32 (2 ^ 32 - 1) u32 5 ≡ some s)
    × ((IsUnsigned i32 → 2 ^ 63 ≤ rank u32 5) → Orders s (rank i32 (2 ^ 32 - 1)) (rank u32 5))
    × (IsUnsigned i32 → rank u32 5 < 2 ^ 63 → s ≡ less)
unfolding IsInteger
cmp_int-rank_example = cmp_int-rank i32 (2 ^ 32 - 1) u32 5 tt tt (omega arith) (omega arith)

abbrev empty_heap : Contents
empty_heap = record { string_at = λ v. 0 ∷ []; bitvector_at = λ v a. 0; items_at = λ t v. [] }

cache_get-set_example :
    (5 < 10000 → cache_get_u32 (cache_set_u32 (cache_init 7) 5 3) 5 ≡ some 3)
    × (◌≢◌ {A = ℕ} 5 6
        → cache_get_u32 (cache_set_u32 (cache_init 7) 5 3) 6 ≡ cache_get_u32 (cache_init 7) 6)
    × (10000 ≤ 5
        → (cache_set_u32 (cache_init 7) 5 3 ≡ cache_init 7)
          × (cache_get_u32 (cache_init 7) 5 ≡ some (cache_init 7).init))
    × (IsSmall (negsuc 4)
        → cache_get_i32 (cache_set_i32 (cache_init 7) (negsuc 4) 3) (negsuc 4) ≡ some 3)
    × (negsuc 4 ≢ pos 4
        → cache_get_i32 (cache_set_i32 (cache_init 7) (negsuc 4) 3) (pos 4)
          ≡ cache_get_i32 (cache_init 7) (pos 4))
    × (¬ IsSmall (negsuc 4)
        → (cache_set_i32 (cache_init 7) (negsuc 4) 3 ≡ cache_init 7)
          × (cache_get_i32 (cache_init 7) (negsuc 4) ≡ some (cache_init 7).init))
cache_get-set_example = cache_get-set (cache_init 7) (cache_init-IsCache 7) 3 5 6 (negsuc 4) (pos 4)

hash_i64-hash_i32_example :
    (hash_i64 (pattern_of 64 (negsuc 0)) ≡ hash_i32 (pattern_of 32 (negsuc 0)))
    ↔ (negsuc 0 ≢ negsuc 0)
hash_i64-hash_i32_example = hash_i64-hash_i32 (negsuc 0) (omega arith)
