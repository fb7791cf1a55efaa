-- ===== src/IntOps/Checked.antt =====
-- src/pointless_int_ops.c, the checked integers: `intop_sizet_*`, `intop_u32_*` and `intop_u64_*`.
-- The three widths have the same code, so it is written once over the modulus `m`, which is
-- `UINT64_MAX + 1` and so on; `size_t` has 64 bits.
use native.Mathlib.Nat.{mod-eq_of_lt, div-lt_iff_lt-mul, mul_comm}
use py_pointless.Base.{
  ltb→lt, ltb→le, lt→ltb, le→ltb, ap, zero, suc, ℕ, ◌+◌, ◌-◌, ◌*◌, ◌/◌, ◌%◌, ◌^◌, ◌<◌, ◌≤◌, ◌≡◌,
  refl, ◌↔◌, Bool, true, false, not, ◌&&◌, ◌||◌, Option, some, none, arith, ltb, ◌==◌,
  if◌then◌else◌, Bool-cases, inl, inr,
}

-- `intop_u64_t` and its two kin: a value, and whether computing it overflowed.
pub record Checked : Type 0 where
  pub is_overflow : Bool
  pub value : ℕ

abbrev pub overflowed : Checked
overflowed = record { is_overflow = true; value = 1 }

unfoldable pub init : ℕ → Checked
init v = record { is_overflow = false; value = v }

-- `b > UINT_MAX / a`, unless `a` is 0
unfoldable pub exceeds : ℕ → ℕ → ℕ → Bool
exceeds m a b = not (a == 0) && ltb ((m - 1) / a) b

unfoldable pub mult : ℕ → Checked → Checked → Checked
mult m a b =
    if a.is_overflow || b.is_overflow || exceeds m a.value b.value || exceeds m b.value a.value
    then overflowed
    else record { is_overflow = false; value = a.value * b.value % m }

unfoldable pub add : ℕ → Checked → Checked → Checked
add m a b =
    if a.is_overflow || b.is_overflow
    then overflowed
    else let c = (a.value + b.value) % m in
      record { is_overflow = ltb c a.value && ltb c b.value; value = c }

unfoldable pub sizet_mult : Checked → Checked → Checked
unfolding mult exceeds
sizet_mult = mult (2 ^ 64)

unfoldable pub u64_mult : Checked → Checked → Checked
unfolding mult exceeds
u64_mult = mult (2 ^ 64)

unfoldable pub u32_mult : Checked → Checked → Checked
unfolding mult exceeds
u32_mult = mult (2 ^ 32)

unfoldable pub sizet_add : Checked → Checked → Checked
unfolding add
sizet_add = add (2 ^ 64)

unfoldable pub u32_add : Checked → Checked → Checked
unfolding add
u32_add = add (2 ^ 32)

unfoldable pub u64_add : Checked → Checked → Checked
unfolding add
u64_add = add (2 ^ 64)

-- The number that a checked integer stands for.
abbrev pub meaning : Checked → Option ℕ
meaning c = if c.is_overflow then none else some c.value

abbrev pub Fits : ℕ → Checked → Type 0
Fits m c = c.value < m

-- An operation on numbers, done where both are there and the result is below `m`.
unfoldable pub exact : ℕ → (ℕ → ℕ → ℕ) → Option ℕ → Option ℕ → Option ℕ
exact m op none y = none
exact m op (some a) none = none
exact m op (some a) (some b) = if ltb (op a b) m then some (op a b) else none

exceeds_zero : (m b : ℕ) → 0 < m → exceeds m 0 b ≡ not (ltb (0 * b) m)
unfolding exceeds
exceeds_zero m b h = ground arith

-- The test by division is the exact test on the product.
exceeds_lem : (m a b : ℕ) → 0 < m → exceeds m a b ≡ not (ltb (a * b) m)
unfolding exceeds
exceeds_lem m zero b h = exceeds_zero m b h
exceeds_lem m (suc a) b h =
    let by_division : ((m - 1) / suc a < b) ↔ (m - 1 < b * suc a) =
      div-lt_iff_lt-mul (omega arith) in
    ground (arith, by_division, mul_comm (suc a) b)

mod_wrapped : (a b m : ℕ) → a < m → b < m → m ≤ a + b → (a + b) % m ≡ a + b - m
mod_wrapped a b m ha hb h = grind arith

mod_unwrapped : (a b m : ℕ) → a + b < m → (a + b) % m ≡ a + b
mod_unwrapped a b m h = grind arith

module _ (m : ℕ) (pos : 0 < m) (a b : Checked) (ha : Fits m a) (hb : Fits m b) where
  mult_value :
      meaning (
        if exceeds m a.value b.value || exceeds m b.value a.value
        then overflowed
        else record { is_overflow = false; value = a.value * b.value % m })
      ≡ exact m ◌*◌ (some a.value) (some b.value)
  unfolding exact
  mult_value =
      rw
        (
          exceeds_lem m a.value b.value pos,
          exceeds_lem m b.value a.value pos,
          mul_comm b.value a.value,
        )
        (elim (Bool-cases (ltb (a.value * b.value) m)) [
          | inl e ↦ rw e (ap some (mod-eq_of_lt (ltb→lt _ _ e)))
          | inr e ↦ rw e
        ])

  add_value :
      let c = (a.value + b.value) % m in
      meaning (record { is_overflow = ltb c a.value && ltb c b.value; value = c })
      ≡ exact m ◌+◌ (some a.value) (some b.value)
  unfolding exact
  add_value = elim (Bool-cases (ltb (a.value + b.value) m)) [
    | inl e ↦ rw (e, mod_unwrapped a.value b.value m (ltb→lt _ _ e)) (ground arith)
    | inr e ↦ rw (e, mod_wrapped a.value b.value m ha hb (ltb→le _ _ e)) (ground arith)
  ]

-- The product of two checked integers of a width is the exact product where it fits the width,
-- and an overflow exactly where it does not or a factor had overflowed.
pub mult-exact :
    (m : ℕ) (a b : Checked)
    → Fits m a
    → Fits m b
    → meaning (mult m a b) ≡ exact m ◌*◌ (meaning a) (meaning b)
unfolding mult exact
mult-exact m a b ha hb = elim (Bool-cases a.is_overflow) [
  | inl e ↦ rw e
  | inr e ↦ elim (Bool-cases b.is_overflow) [
    | inl f ↦ rw (e, f)
    | inr f ↦ rw (e, f) (mult_value m (omega arith) a b ha hb)
  ]
]

-- The sum of two checked integers of a width is the exact sum where it fits the width, and an
-- overflow exactly where it does not or a term had overflowed.
pub add-exact :
    (m : ℕ) (a b : Checked)
    → Fits m a
    → Fits m b
    → meaning (add m a b) ≡ exact m ◌+◌ (meaning a) (meaning b)
unfolding add exact
add-exact m a b ha hb = elim (Bool-cases a.is_overflow) [
  | inl e ↦ rw e
  | inr e ↦ elim (Bool-cases b.is_overflow) [
    | inl f ↦ rw (e, f)
    | inr f ↦ rw (e, f) (add_value m (omega arith) a b ha hb)
  ]
]

pub add-Fits : (m : ℕ) (a b : Checked) → 1 < m → Fits m (add m a b)
unfolding add
add-Fits m a b h = grind arith

pub mult-Fits : (m : ℕ) (a b : Checked) → 1 < m → Fits m (mult m a b)
unfolding mult
mult-Fits m a b h = grind arith

-- A sum that is not marked is exact, and so are its terms.
pub add_inv :
    (m : ℕ) (a b : Checked)
    → Fits m a
    → Fits m b
    → (add m a b).is_overflow ≡ false
    → (a.is_overflow ≡ false)
      × (b.is_overflow ≡ false)
      × ((add m a b).value ≡ a.value + b.value)
      × (a.value + b.value < m)
unfolding add
add_inv m a b ha hb h = elim (Bool-cases (ltb (a.value + b.value) m)) [
  | inl e ↦ ground (arith, mod_unwrapped a.value b.value m)
  | inr e ↦ ground (arith, mod_wrapped a.value b.value m)
]

pub mult_inv :
    (m : ℕ) (a b : Checked)
    → 0 < m
    → (mult m a b).is_overflow ≡ false
    → (a.is_overflow ≡ false)
      × (b.is_overflow ≡ false)
      × ((mult m a b).value ≡ a.value * b.value)
      × (a.value * b.value < m)
unfolding mult
mult_inv m a b pos h =
    let p = exceeds_lem m a.value b.value pos in
    elim (Bool-cases (ltb (a.value * b.value) m)) [
      | inl e ↦ ground (arith, p, mod-eq_of_lt (ltb→lt _ _ e))
      | inr e ↦ ground (arith, p)
    ]

pub mult_within :
    (m a b : ℕ)
    → 0 < m
    → a * b < m
    → mult m (init a) (init b) ≡ record { is_overflow = false; value = a * b }
unfolding mult init
mult_within m a b pos fits =
    rw
      (
        exceeds_lem m a b pos,
        exceeds_lem m b a pos,
        mul_comm b a,
        lt→ltb (a * b) m fits,
        mod-eq_of_lt fits,
      )
      refl

pub add_within :
    (m a b : ℕ)
    → a + b < m
    → add m (init a) (init b) ≡ record { is_overflow = false; value = a + b }
unfolding add init
add_within m a b fits =
    let sum : (a + b) % m ≡ a + b = mod-eq_of_lt fits in
    rw (sum, le→ltb (a + b) a (omega arith)) refl
