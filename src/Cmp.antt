-- ===== src/Cmp.antt =====
-- src/pointless_cmp.c: the order of strings, numbers and read values. Floats are a parameter.
pub mod Reader
pub mod Text
pub mod Order
use py_pointless.Base.{
  ℕ, zero, suc, ◌+◌, ◌-◌, ◌*◌, ◌%◌, ◌^◌, Bool, true, false, not, ◌&&◌, Option, none, some, List, [],
  ◌∷◌, ltb, leb, ◌==◌, if◌then◌else◌, length, u32 as to_u32,
}
use py_pointless.Base.Int.{ℤ, pos, negsuc, signed, is_negative}
use py_pointless.BitVector.{Sign, less, same, more, simple_cmp, cmp_buffer_buffer}
use py_pointless.Value.{Tag, i32, u32, i64, u64, float, boolean}

-- `POINTLESS_CMP_STRING`, for units of any widths; `none` is a read past the end of a string.
unfoldable pub cmp_string : List ℕ → List ℕ → Option Sign
unfolding simple_cmp
cmp_string [] b = none
cmp_string (x ∷ a) [] = none
cmp_string (x ∷ a) (y ∷ b) = elim (x == y) [
  | true ↦ elim (x == 0) [ true ↦ some same | false ↦ cmp_string a b ]
  | false ↦ some (simple_cmp x y)
]

-- What stands behind the loop of `POINTLESS_CMP_STRING__N`, with `left` units of `b` not compared
pub cmp_rest : ℕ → ℕ → List ℕ → Option Sign
unfolding simple_cmp
cmp_rest x zero b = some (if x == 0 then same else more)
cmp_rest x (suc left) [] = if x == 0 then some less else none
cmp_rest x (suc left) (y ∷ b) = some (if x == 0 then less else simple_cmp x y)

-- `POINTLESS_CMP_STRING__N`, where `b` has `left` units
unfoldable pub cmp_string_n : List ℕ → List ℕ → ℕ → Option Sign
unfolding cmp_rest
cmp_string_n [] b left = none
cmp_string_n (x ∷ a) b zero = cmp_rest x zero b
cmp_string_n (x ∷ a) [] (suc left) = cmp_rest x (suc left) []
cmp_string_n (x ∷ a) (y ∷ b) (suc left) = elim (not (x == 0) && x == y) [
  | true ↦ cmp_string_n a b left
  | false ↦ cmp_rest x (suc left) (y ∷ b)
]

unfoldable pub is_signed : Tag → Bool
is_signed i32 = true
is_signed i64 = true
is_signed boolean = true
is_signed _ = false

-- `pointless_int_value_signed`, on the 64 bits of data; `none`: the assertion on the type fails.
unfoldable pub int_value_signed : Tag → ℕ → Option ℤ
int_value_signed i32 v = some (signed 32 (to_u32 v))
int_value_signed boolean v = some (pos (to_u32 v))
int_value_signed i64 v = some (signed 64 v)
int_value_signed _ v = none

-- `pointless_int_value_unsigned`
unfoldable pub int_value_unsigned : Tag → ℕ → Option ℕ
int_value_unsigned u32 v = some (to_u32 v)
int_value_unsigned boolean v = some (to_u32 v)
int_value_unsigned u64 v = some v
int_value_unsigned _ v = none

-- `SIMPLE_CMP` on `int64_t`
unfoldable pub simple_cmp_ℤ : ℤ → ℤ → Sign
unfolding simple_cmp
simple_cmp_ℤ (pos a) (pos b) = simple_cmp a b
simple_cmp_ℤ (pos a) (negsuc b) = more
simple_cmp_ℤ (negsuc a) (pos b) = less
simple_cmp_ℤ (negsuc a) (negsuc b) = simple_cmp b a

-- Signed and unsigned: a negative integer is less.
pub cmp_signed_unsigned : ℤ → ℕ → Sign
unfolding simple_cmp
cmp_signed_unsigned (negsuc a) b = less
cmp_signed_unsigned (pos a) b = simple_cmp a b

-- Unsigned and signed: here, too, -1 is returned for a negative integer.
pub cmp_unsigned_signed : ℕ → ℤ → Sign
unfolding simple_cmp
cmp_unsigned_signed a (negsuc b) = less
cmp_unsigned_signed a (pos b) = simple_cmp a b

abbrev pub on_both : {A B : Type 0} → Option A → Option B → (A → B → Sign) → Option Sign
on_both none b cmp = none
on_both (some a) none cmp = none
on_both (some a) (some b) cmp = some (cmp a b)

-- The case of two integers in `pointless_cmp_int_float`
pub cmp_int : Tag → ℕ → Tag → ℕ → Option Sign
unfolding simple_cmp_ℤ cmp_signed_unsigned cmp_unsigned_signed int_value_signed int_value_unsigned
    is_signed
cmp_int t_a v_a t_b v_b =
    if is_signed t_a && is_signed t_b
    then on_both (int_value_signed t_a v_a) (int_value_signed t_b v_b) (λ a b. simple_cmp_ℤ a b)
    else if not (is_signed t_a) && not (is_signed t_b)
    then on_both (int_value_unsigned t_a v_a) (int_value_unsigned t_b v_b) (λ a b. simple_cmp a b)
    else if is_signed t_a && not (is_signed t_b)
    then on_both (int_value_signed t_a v_a) (int_value_unsigned t_b v_b)
        (λ a b. cmp_signed_unsigned a b)
    else on_both (int_value_unsigned t_a v_a) (int_value_signed t_b v_b)
        (λ a b. cmp_unsigned_signed a b)
