-- ===== src/Cmp/Order.antt =====
-- The comparison of integers, against the order of the integers that they stand for.
use py_pointless.Base.{
  ℕ, ◌+◌, ◌-◌, ◌%◌, ◌^◌, ◌<◌, ◌≤◌, ◌≡◌, refl, sym, ap, ==_refl, arith, true, false, some, ltb, ◌==◌,
  ◌⊎◌, inl, inr, ◌↔◌, ◌∙◌, Option-cases, Bool-cases,
}
use py_pointless.Base.Int.{ℤ, pos, negsuc, signed}
use mathlib.Core.Option.{some-injective}
use py_pointless.BitVector.{Sign, less, same, more, simple_cmp}
use py_pointless.Value.{Tag, i32, u32, i64, u64, boolean}
use py_pointless.Cmp.{
  is_signed, int_value_signed, int_value_unsigned, simple_cmp_ℤ, cmp_signed_unsigned,
  cmp_unsigned_signed, cmp_int,
}

-- The integer that the data of a value of an integer type stand for, plus 2 ^ 63: `i32` and `i64`
-- are in two's complement.
pub rank : Tag → ℕ → ℕ
rank i32 v = (v + 2 ^ 31) % 2 ^ 32 + (2 ^ 63 - 2 ^ 31)
rank u32 v = v % 2 ^ 32 + 2 ^ 63
rank boolean v = v % 2 ^ 32 + 2 ^ 63
rank i64 v = (v + 2 ^ 63) % 2 ^ 64
rank u64 v = v + 2 ^ 63
rank _ v = 0

pub IsUnsigned : Tag → Type 0
IsUnsigned u32 = Unit
IsUnsigned u64 = Unit
IsUnsigned _ = ⊥

unfoldable pub IsInteger : Tag → Type 0
IsInteger i32 = Unit
IsInteger u32 = Unit
IsInteger i64 = Unit
IsInteger u64 = Unit
IsInteger boolean = Unit
IsInteger _ = ⊥

-- What a sign says of two numbers
pub Orders : Sign → ℕ → ℕ → Type 0
Orders less a b = a < b
Orders same a b = a ≡ b
Orders more a b = b < a

-- The integer of a rank
Stands : ℤ → ℕ → Type 0
Stands (pos n) r = r ≡ n + 2 ^ 63
Stands (negsuc n) r = r + n + 1 ≡ 2 ^ 63

record IsSignedNumber (t : Tag) (v : ℕ) : Type 0 where
  z : ℤ
  is_signed_type : is_signed t ≡ true
  is_value : int_value_signed t v ≡ some z
  stands : Stands z (rank t v)
  not_unsigned : IsUnsigned t → ⊥

record IsUnsignedNumber (t : Tag) (v : ℕ) : Type 0 where
  n : ℕ
  is_unsigned_type : is_signed t ≡ false
  is_value : int_value_unsigned t v ≡ some n
  stands : rank t v ≡ n + 2 ^ 63
  is_unsigned : IsUnsigned t

signed_32 : (v : ℕ) → Stands (signed 32 (v % 2 ^ 32)) ((v + 2 ^ 31) % 2 ^ 32 + (2 ^ 63 - 2 ^ 31))
unfolding Stands
signed_32 v = elim (Bool-cases (ltb (v % 2 ^ 32 + v % 2 ^ 32) (2 ^ 32))) [
  | inl y ↦ rw y (ground arith)
  | inr n ↦ rw n (ground arith)
]

signed_64 : (v : ℕ) → v < 2 ^ 64 → Stands (signed 64 v) ((v + 2 ^ 63) % 2 ^ 64)
unfolding Stands
signed_64 v h = elim (Bool-cases (ltb (v + v) (2 ^ 64))) [
  | inl y ↦ rw y (ground arith)
  | inr n ↦ rw n (ground arith)
]

-- Which of the two functions reads a value, and what it reads
number : (t : Tag) (v : ℕ) → IsInteger t → v < 2 ^ 64 → IsSignedNumber t v ⊎ IsUnsignedNumber t v
unfolding is_signed int_value_signed int_value_unsigned rank IsUnsigned IsInteger Stands
number i32 v i h = inl (record {
  z = signed 32 (v % 2 ^ 32);
  is_signed_type = refl;
  is_value = refl;
  stands = signed_32 v;
  not_unsigned = λ u. u;
})
number u32 v i h = inr (record {
  n = v % 2 ^ 32;
  is_unsigned_type = refl;
  is_value = refl;
  stands = refl;
  is_unsigned = tt;
})
number boolean v i h = inl (record {
  z = pos (v % 2 ^ 32);
  is_signed_type = refl;
  is_value = refl;
  stands = refl;
  not_unsigned = λ u. u;
})
number i64 v i h = inl (record {
  z = signed 64 v;
  is_signed_type = refl;
  is_value = refl;
  stands = signed_64 v h;
  not_unsigned = λ u. u;
})
number u64 v i h =
    inr
      (record { n = v; is_unsigned_type = refl; is_value = refl; stands = refl; is_unsigned = tt })
number _ v i h = absurd i

simple_cmp-Orders :
    (a b c d : ℕ)
    → (a < b ↔ c < d)
    → (a ≡ b ↔ c ≡ d)
    → (b < a ↔ d < c)
    → Orders (simple_cmp a b) c d
unfolding simple_cmp Orders
simple_cmp-Orders a b c d l e m = elim (Bool-cases (a == b)) [
  | inl y ↦ rw y (e.0 (ground arith))
  | inr n ↦ elim (Bool-cases (ltb a b)) [
    | inl y ↦ rw (n, y) (l.0 (ground arith))
    | inr n' ↦ rw (n, n') (m.0 (ground arith))
  ]
]

simple_cmp_ℤ-Orders : (x y : ℤ) (r q : ℕ) → Stands x r → Stands y q → Orders (simple_cmp_ℤ x y) r q
unfolding simple_cmp_ℤ Stands Orders
simple_cmp_ℤ-Orders (pos a) (pos b) r q hr hq =
    simple_cmp-Orders a b r q (λ h. omega (arith, h), λ h. omega (arith, h))
      (λ h. omega (arith, h), λ h. omega (arith, h)) (λ h. omega (arith, h), λ h. omega (arith, h))
simple_cmp_ℤ-Orders (pos a) (negsuc b) r q hr hq = omega arith
simple_cmp_ℤ-Orders (negsuc a) (pos b) r q hr hq = omega arith
simple_cmp_ℤ-Orders (negsuc a) (negsuc b) r q hr hq =
    simple_cmp-Orders b a r q (λ h. omega (arith, h), λ h. omega (arith, h))
      (λ h. omega (arith, h), λ h. omega (arith, h)) (λ h. omega (arith, h), λ h. omega (arith, h))

cmp_signed_unsigned_lem : (a : ℤ) (b : ℕ) → cmp_signed_unsigned a b ≡ simple_cmp_ℤ a (pos b)
unfolding cmp_signed_unsigned simple_cmp_ℤ
cmp_signed_unsigned_lem (pos a) b = refl
cmp_signed_unsigned_lem (negsuc a) b = refl

-- The comparison of an unsigned integer with a signed one
cmp_unsigned_signed-Orders :
    (n : ℕ) (z : ℤ) (r q : ℕ)
    → r ≡ n + 2 ^ 63
    → Stands z q
    → (2 ^ 63 ≤ q → Orders (cmp_unsigned_signed n z) r q)
      × (q < 2 ^ 63 → cmp_unsigned_signed n z ≡ less)
unfolding cmp_unsigned_signed Stands
cmp_unsigned_signed-Orders n (pos b) r q hr hq = (
  λ _.
      simple_cmp-Orders n b r q (λ h. omega (arith, h), λ h. omega (arith, h))
        (λ h. omega (arith, h), λ h. omega (arith, h))
        (λ h. omega (arith, h), λ h. omega (arith, h)),
  λ small. absurd (omega arith),
)
cmp_unsigned_signed-Orders n (negsuc b) r q hr hq = (λ big. absurd (omega arith), λ _. refl)

-- Any two integers are compared, and the sign is their order: it is -1, 0 or 1 where the integer on
-- the left is less than, the same as or greater than the one on the right. Where the left type is
-- unsigned and the right integer is negative, the sign is -1 instead.
pub cmp_int-rank :
    (t_a : Tag) (v_a : ℕ) (t_b : Tag) (v_b : ℕ)
    → IsInteger t_a
    → IsInteger t_b
    → v_a < 2 ^ 64
    → v_b < 2 ^ 64
    → (s : Sign) × (cmp_int t_a v_a t_b v_b ≡ some s)
      × ((IsUnsigned t_a → 2 ^ 63 ≤ rank t_b v_b) → Orders s (rank t_a v_a) (rank t_b v_b))
      × (IsUnsigned t_a → rank t_b v_b < 2 ^ 63 → s ≡ less)
unfolding cmp_int
cmp_int-rank t_a v_a t_b v_b i_a i_b small_a small_b = elim (number t_a v_a i_a small_a) [
  | inl a ↦ elim (number t_b v_b i_b small_b) [
    | inl b ↦ (
      simple_cmp_ℤ a.z b.z,
      rw (a.is_signed_type, b.is_signed_type, a.is_value, b.is_value) refl,
      λ _. simple_cmp_ℤ-Orders a.z b.z _ _ a.stands b.stands,
      λ u. absurd (a.not_unsigned u),
    )
    | inr b ↦ (
      simple_cmp_ℤ a.z (pos b.n),
      rw (a.is_signed_type, b.is_unsigned_type, a.is_value, b.is_value)
          (ap some (cmp_signed_unsigned_lem a.z b.n)),
      λ _. simple_cmp_ℤ-Orders a.z (pos b.n) _ _ a.stands (unfold Stands in b.stands),
      λ u. absurd (a.not_unsigned u),
    )
  ]
  | inr a ↦ elim (number t_b v_b i_b small_b) [
    | inl b ↦
        let both_ways = cmp_unsigned_signed-Orders a.n b.z _ _ a.stands b.stands in
        (
          cmp_unsigned_signed a.n b.z,
          rw (a.is_unsigned_type, b.is_signed_type, a.is_value, b.is_value) refl,
          λ big. both_ways.0 (big a.is_unsigned),
          λ _. both_ways.1,
        )
    | inr b ↦ (
      simple_cmp a.n b.n,
      rw (a.is_unsigned_type, b.is_unsigned_type, a.is_value, b.is_value) refl,
      λ _.
          simple_cmp_ℤ-Orders (pos a.n) (pos b.n) _ _ (unfold Stands in a.stands)
            (unfold Stands in b.stands),
      λ u small. absurd (omega (arith, small, b.stands)),
    )
  ]
]

pub simple_cmp_refl : (n : ℕ) → simple_cmp n n ≡ same
unfolding simple_cmp
simple_cmp_refl n = rw (==_refl n) refl

simple_cmp_ℤ-refl : (z : ℤ) → simple_cmp_ℤ z z ≡ same
unfolding simple_cmp_ℤ
simple_cmp_ℤ-refl (pos a) = simple_cmp_refl a
simple_cmp_ℤ-refl (negsuc a) = simple_cmp_refl a

-- An integer is the same as itself, where the assertion on its type holds.
pub cmp_int_refl : (t : Tag) (v : ℕ) (s : Sign) → cmp_int t v t v ≡ some s → s ≡ same
unfolding cmp_int
cmp_int_refl t v s e = elim (Bool-cases (is_signed t)) [
  | inl h ↦ elim (Option-cases (int_value_signed t v)) [
    | inl n ↦ cc (rw (h, n) at e)
    | inr (z, at) ↦
        sym (some-injective (simple_cmp_ℤ z z) s (rw (h, at) at e)) ∙ simple_cmp_ℤ-refl z
  ]
  | inr h ↦ elim (Option-cases (int_value_unsigned t v)) [
    | inl n ↦ cc (rw (h, n) at e)
    | inr (k, at) ↦ sym (some-injective (simple_cmp k k) s (rw (h, at) at e)) ∙ simple_cmp_refl k
  ]
]
