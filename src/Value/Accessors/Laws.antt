-- ===== src/Value/Accessors/Laws.antt =====
-- What is read of a value is what it was made from.
use py_pointless.Base.{ℕ, ◌+◌, ◌-◌, ◌%◌, ◌^◌, ◌<◌, ◌≤◌, ◌≡◌, refl, ap, some, arith, lt→ltb, le→ltb}
use py_pointless.Base.Int.{ℤ, pos, negsuc, signed, pattern_of}
use py_pointless.Value.Accessors.{
  create_i32, create_as_read_i32, complete_i32, complete_i64, get_i32, get_int_as_int64,
  complete_get_as_i64,
}

-- The integers of `int32_t` and of `int64_t`
abbrev pub FitsSigned : ℕ → ℤ → Type 0
FitsSigned half (pos n) = n < half
FitsSigned half (negsuc n) = n < half

signed-pattern_of : (v : ℤ) → FitsSigned (2 ^ 31) v → signed 32 (pattern_of 32 v) ≡ v
signed-pattern_of (pos n) h = rw (lt→ltb (n + n) (2 ^ 32) (omega arith)) refl
signed-pattern_of (negsuc n) h =
    let top : 2 ^ 32 ≤ (2 ^ 32 - 1 - n) + (2 ^ 32 - 1 - n) = omega arith in
    rw (le→ltb _ _ top) (ap negsuc (omega arith))

signed-pattern_of_64 : (v : ℤ) → FitsSigned (2 ^ 63) v → signed 64 (pattern_of 64 v) ≡ v
signed-pattern_of_64 (pos n) h = rw (lt→ltb (n + n) (2 ^ 64) (omega arith)) refl
signed-pattern_of_64 (negsuc n) h =
    let top : 2 ^ 64 ≤ (2 ^ 64 - 1 - n) + (2 ^ 64 - 1 - n) = omega arith in
    rw (le→ltb _ _ top) (ap negsuc (omega arith))

pattern_of-small : (v : ℤ) → FitsSigned (2 ^ 31) v → pattern_of 32 v % 2 ^ 32 ≡ pattern_of 32 v
pattern_of-small (pos n) h = omega arith
pattern_of-small (negsuc n) h = omega arith

-- An `int32_t` reads back from a value, from its 64-bit reading and from a complete value.
pub get-create_i32 :
    (v : ℤ)
    → FitsSigned (2 ^ 31) v
    → (let a = create_as_read_i32 v in get_i32 a.tag a.data_u32 ≡ some v)
      × (let a = create_i32 v in get_int_as_int64 a.header.type_29 a.data_u32 ≡ some v)
      × (let a = complete_i32 v in complete_get_as_i64 a.tag a.data_u64 ≡ some v)
unfolding create_as_read_i32 create_i32 complete_i32 get_i32 get_int_as_int64 complete_get_as_i64
get-create_i32 v h = (
  ap some (signed-pattern_of v h),
  ap some (signed-pattern_of v h),
  rw (pattern_of-small v h) (ap some (signed-pattern_of v h)),
)

-- An `int64_t` reads back from a complete value.
pub get-complete_i64 :
    (v : ℤ)
    → FitsSigned (2 ^ 63) v
    → (let a = complete_i64 v in complete_get_as_i64 a.tag a.data_u64 ≡ some v)
unfolding complete_i64 complete_get_as_i64
get-complete_i64 v h = ap some (signed-pattern_of_64 v h)
