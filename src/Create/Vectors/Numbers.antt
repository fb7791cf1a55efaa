-- ===== src/Create/Vectors/Numbers.antt =====
-- The numbers of items, cast to a number of bits and read as complete values.
use py_pointless.Base.{
  ℕ, ◌+◌, ◌-◌, ◌%◌, ◌^◌, ◌<◌, ◌≤◌, ◌≡◌, refl, sym, ◌∙◌, ap, true, none, some, leb, arith, lt→ltb,
  le→ltb,
}
use py_pointless.Base.Int.{ℤ, pos, negsuc, signed, pattern_of}
use py_pointless.Create.Vectors.{leb_ℤ, integer, real, kind_of}
use py_pointless.Create.Vectors.Fitting.{InRange}
use py_pointless.Value.{Tag, Value, CompleteValue, value_from_complete, i32, u32, float}
use py_pointless.Value.Accessors.{
  CreateValue, get_int_as_int64, get_float, complete_i32, complete_u32,
}

-- A value that is read has the number of an item.
pub record SameNumber (x : CreateValue) (c : CompleteValue) : Type 0 where
  pub back : Value
  pub converted : value_from_complete c ≡ some back
  pub same_int :
      get_int_as_int64 back.tag back.data_u32 ≡ get_int_as_int64 x.header.type_29 x.data_u32
  pub same_float : get_float back.tag back.data_u32 ≡ get_float x.header.type_29 x.data_u32

-- An item that is an integer
abbrev pub HasInt : Tag → ℕ → ℤ → Type 0
HasInt t v i = (get_int_as_int64 t v ≡ some i) × (get_float t v ≡ none)

pub kind_of-HasInt : (t : Tag) (v : ℕ) (i : ℤ) → kind_of t v ≡ integer i → HasInt t v i
unfolding kind_of get_int_as_int64 get_float
kind_of-HasInt i32 v i h = (ap some (cc), refl)
kind_of-HasInt u32 v i h = (ap some (cc), refl)
kind_of-HasInt _ v i h = cc

pub kind_of-float : (t : Tag) (v : ℕ) → kind_of t v ≡ real → t ≡ float
unfolding kind_of
kind_of-float float v h = refl
kind_of-float _ v h = cc

-- The integers of the halves of the patterns of `w` bits
signed_low : (w n : ℕ) → n + n < 2 ^ w → signed w n ≡ pos n
signed_low w n h = rw (lt→ltb (n + n) (2 ^ w) h) refl

signed_high : (w n : ℕ) → n + n + 2 ≤ 2 ^ w → signed w (2 ^ w - 1 - n) ≡ negsuc n
signed_high w n h =
    rw (le→ltb ((2 ^ w - 1 - n) + (2 ^ w - 1 - n)) (2 ^ w) (omega arith)) (ap negsuc (omega arith))

pub small : (n m : ℕ) → leb n m ≡ true → n ≤ m
small n m h = ground arith

-- Casting to a number of bits and back
pub signed_cast_8 :
    (i : ℤ) → InRange (negsuc 0x7f) (pos 0x7f) i → signed 8 (pattern_of 64 i % 2 ^ 8) ≡ i
unfolding leb_ℤ
signed_cast_8 (pos n) (_, h) =
    let le = small n 0x7f h in
    let same : n % 2 ^ 8 ≡ n = omega (arith, le) in rw same (signed_low 8 n (omega (arith, le)))
signed_cast_8 (negsuc n) (h, _) =
    let le = small n 0x7f h in
    let same : (2 ^ 64 - 1 - n) % 2 ^ 8 ≡ 2 ^ 8 - 1 - n = omega (arith, le) in
    rw same (signed_high 8 n (omega (arith, le)))

pub signed_cast_16 :
    (i : ℤ) → InRange (negsuc 0x7fff) (pos 0x7fff) i → signed 16 (pattern_of 64 i % 2 ^ 16) ≡ i
unfolding leb_ℤ
signed_cast_16 (pos n) (_, h) =
    let le = small n 0x7fff h in
    let same : n % 2 ^ 16 ≡ n = omega (arith, le) in rw same (signed_low 16 n (omega (arith, le)))
signed_cast_16 (negsuc n) (h, _) =
    let le = small n 0x7fff h in
    let same : (2 ^ 64 - 1 - n) % 2 ^ 16 ≡ 2 ^ 16 - 1 - n = omega (arith, le) in
    rw same (signed_high 16 n (omega (arith, le)))

pub signed_cast_32 :
    (i : ℤ)
    → InRange (negsuc 0x7fff_ffff) (pos 0x7fff_ffff) i
    → signed 32 (pattern_of 64 i % 2 ^ 32) ≡ i
unfolding leb_ℤ
signed_cast_32 (pos n) (_, h) =
    let le = small n 0x7fff_ffff h in
    let same : n % 2 ^ 32 ≡ n = omega (arith, le) in rw same (signed_low 32 n (omega (arith, le)))
signed_cast_32 (negsuc n) (h, _) =
    let le = small n 0x7fff_ffff h in
    let same : (2 ^ 64 - 1 - n) % 2 ^ 32 ≡ 2 ^ 32 - 1 - n = omega (arith, le) in
    rw same (signed_high 32 n (omega (arith, le)))

-- A 32-bit integer through `int32_t` and a complete value
signed_32_pattern :
    (i : ℤ)
    → InRange (negsuc 0x7fff_ffff) (pos 0x7fff_ffff) i
    → signed 32 (pattern_of 32 i % 2 ^ 32) ≡ i
unfolding leb_ℤ
signed_32_pattern (pos n) (_, h) =
    let le = small n 0x7fff_ffff h in
    let same : n % 2 ^ 32 ≡ n = omega (arith, le) in rw same (signed_low 32 n (omega (arith, le)))
signed_32_pattern (negsuc n) (h, _) =
    let le = small n 0x7fff_ffff h in
    let same : (2 ^ 32 - 1 - n) % 2 ^ 32 ≡ 2 ^ 32 - 1 - n = omega (arith, le) in
    rw same (signed_high 32 n (omega (arith, le)))

pub complete_i32-SameNumber :
    (x : CreateValue) (i : ℤ)
    → HasInt x.header.type_29 x.data_u32 i
    → InRange (negsuc 0x7fff_ffff) (pos 0x7fff_ffff) i
    → SameNumber x (complete_i32 i)
unfolding complete_i32 value_from_complete get_int_as_int64 get_float
complete_i32-SameNumber x i (int_is, no_float) within = record {
  back = record { tag = i32; data_u32 = pattern_of 32 i % 2 ^ 32 };
  converted = refl;
  same_int = ap some (signed_32_pattern i within) ∙ sym int_is;
  same_float = sym no_float;
}

pub complete_u32-SameNumber :
    (x : CreateValue) (n : ℕ)
    → HasInt x.header.type_29 x.data_u32 (pos n)
    → n < 2 ^ 32
    → SameNumber x (complete_u32 n)
unfolding complete_u32 value_from_complete get_int_as_int64 get_float
complete_u32-SameNumber x n (int_is, no_float) lt = record {
  back = record { tag = u32; data_u32 = n % 2 ^ 32 };
  converted = refl;
  same_int = ap (λ m. some (pos m)) (let same : n % 2 ^ 32 ≡ n = omega arith in same) ∙ sym int_is;
  same_float = sym no_float;
}
