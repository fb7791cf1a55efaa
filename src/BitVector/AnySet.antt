-- ===== src/BitVector/AnySet.antt =====
-- The test for a set bit.
use native.Mathlib.Nat.{pow-suc, one-le-pow, pow-le-pow_right}
use py_pointless.Base.{
  ℕ, zero, suc, ◌+◌, ◌*◌, ◌/◌, ◌%◌, ◌^◌, ◌≤◌, ◌<◌, ◌≡◌, ◌≢◌, ◌↔◌, refl, ◌∙◌, Bool, true, ltb,
  ltb→lt, ltb→le, lt→ltb, ◌==◌, ==→ne, arith, inl, inr, Bool-cases,
}
use py_pointless.Base.Bits.{test_bit}
use py_pointless.BitUtils.{Bytes}
use py_pointless.BitUtils.Laws.{is_set-digit}
use py_pointless.Value.{
  Tag, bitvector, bitvector_0, bitvector_1, bitvector_01, bitvector_10, bitvector_packed,
  packed_n_bits, is_bitvector_type, n_bits_a, n_bits_b,
}
use py_pointless.BitVector.{is_set_bits, n_bits, any_below, bit_is_set, is_any_set}

module _ (test : ℕ → Bool) where
  any_below_sound :
      (n i : ℕ) → any_below test n i ≡ true → (k : ℕ) × (i ≤ k) × (k < i + n) × (test k ≡ true)
  unfolding any_below
  any_below_sound zero i e = cc
  any_below_sound (suc n) i e = elim (Bool-cases (test i)) [
    | inl set ↦ (i, omega arith, omega arith, set)
    | inr clear ↦
        let (k, from, to, set) = any_below_sound n (i + 1) (rw (clear, any_below) at e) in
        (k, omega arith, omega arith, set)
  ]

  any_below_complete : (n i k : ℕ) → i ≤ k → k < i + n → test k ≡ true → any_below test n i ≡ true
  unfolding any_below
  any_below_complete zero i k from to set = absurd (omega arith)
  any_below_complete (suc n) i k from to set = elim (Bool-cases (test i)) [
    | inl first ↦ rw (first, any_below) refl
    | inr clear ↦
        let later : i ≢ k = λ e. cc in
        rw (clear, any_below) (any_below_complete n (i + 1) k (omega arith) (omega arith) set)
  ]

-- Of a compressed bitvector the test finds a set bit if and only if there is one below the length.
pub is_any_set_iff :
    (t : Tag) (v : ℕ) (buffer : Bytes)
    → is_bitvector_type t ≡ true
    → t ≢ bitvector
    → (is_any_set t v buffer ≡ true)
      ↔ ((k : ℕ) × (k < n_bits t v buffer) × (bit_is_set t v buffer k ≡ true))
unfolding is_bitvector_type is_any_set n_bits bit_is_set is_set_bits
is_any_set_iff bitvector v buffer kind other = absurd (other refl)
is_any_set_iff bitvector_0 v buffer kind other = (λ e. cc, λ (k, h, set). cc)
is_any_set_iff bitvector_1 v buffer kind other =
    (λ e. (0, ltb→lt 0 v e, refl), λ (k, h, set). lt→ltb 0 v (omega arith))
is_any_set_iff bitvector_01 v buffer kind other = (
  λ e. (n_bits_a v, omega (arith, ltb→lt 0 (n_bits_b v) e), ground arith),
  λ (k, h, set). ground arith,
)
is_any_set_iff bitvector_10 v buffer kind other =
    (λ e. (0, omega (arith, ltb→lt 0 (n_bits_a v) e), e), λ (k, h, set). ground arith)
is_any_set_iff bitvector_packed v buffer kind other = (
  λ e.
      let (k, from, to, set) =
        any_below_sound (is_set_bits bitvector_packed v buffer) (packed_n_bits v) 0 e in
      (k, omega arith, set),
  λ (k, h, set).
      any_below_complete (is_set_bits bitvector_packed v buffer) (packed_n_bits v) 0 k (omega arith)
        (omega arith) set,
)
is_any_set_iff _ v buffer kind other = cc

-- The lowest digit that is set stands below the number.
low_digit : (bound a : ℕ) → a ≤ bound → 0 < a → (k : ℕ) × (2 ^ k ≤ a) × (test_bit a k ≡ true)
unfolding test_bit
low_digit zero a h pos = absurd (omega arith)
low_digit (suc bound) a h pos = elim (Bool-cases (a % 2 == 1)) [
  | inl odd ↦ (0, omega arith, odd)
  | inr even ↦
      let (k, small, set) =
        low_digit bound (a / 2) (omega arith) (omega (arith, ==→ne (a % 2) 1 even)) in
      (suc k, omega (arith, pow-suc 2 k), set)
]

power_above : (k : ℕ) → k < 2 ^ k
power_above zero = omega arith
power_above (suc k) = omega (arith, power_above k, pow-suc 2 k)

power_small : (b : ℕ) → 2 ^ b < 256 → b < 8
power_small b h = elim (Bool-cases (ltb b 8)) [
  | inl small ↦ ltb→lt b 8 small
  | inr large ↦
      absurd
        (omega (arith, pow-le-pow_right {n = 2} (omega arith) {i = 8} {j = b} (ltb→le b 8 large)))
]

module _ (v : ℕ) (buffer : Bytes) (bytes : (j : ℕ) → buffer j < 256) where
  -- A byte of the length that is not zero has a digit that the loop meets.
  byte_found :
      (j : ℕ)
      → j < 4
      → 0 < buffer j
      → ((b : ℕ) → b < 8 → 2 ^ b ≤ buffer j → 8 * j + b < n_bits bitvector v buffer)
      → is_any_set bitvector v buffer ≡ true
  unfolding is_any_set is_set_bits
  byte_found j h pos within =
      let (b, small, set) = low_digit (buffer j) (buffer j) (omega arith) pos in
      let b_small = power_small b (omega (arith, bytes j)) in
      let byte : (8 * j + b) / 8 ≡ j = omega arith in
      let digit : (8 * j + b) % 8 ≡ b = omega arith in
      any_below_complete (is_set_bits bitvector v buffer) (n_bits bitvector v buffer) 0 (8 * j + b)
        (omega arith) (omega (arith, within b b_small small))
        (is_set-digit buffer (8 * j + b) ∙ rw (byte, digit) set)

  -- Of a bitvector with a buffer of bytes the test reads the length as bits, so it gives true for every
  -- length but 0, whatever the bits are.
  pub is_any_set-plain : n_bits bitvector v buffer ≢ 0 → is_any_set bitvector v buffer ≡ true
  unfolding n_bits
  is_any_set-plain nonempty = elim (Bool-cases (ltb 0 (buffer 0))) [
    | inl pos ↦
        byte_found 0 (omega arith) (ltb→lt _ _ pos)
          (λ b. λ h. λ small. omega (arith, power_above b))
    | inr none0 ↦ elim (Bool-cases (ltb 0 (buffer 1))) [
      | inl pos ↦
          byte_found 1 (omega arith) (ltb→lt _ _ pos)
            (λ b. λ h. λ small. omega (arith, one-le-pow b 2 (omega arith)))
      | inr none1 ↦ elim (Bool-cases (ltb 0 (buffer 2))) [
        | inl pos ↦
            byte_found 2 (omega arith) (ltb→lt _ _ pos)
              (λ b. λ h. λ small. omega (arith, one-le-pow b 2 (omega arith)))
        | inr none2 ↦
            byte_found 3 (omega arith)
              (omega (arith, nonempty, ltb→le _ _ none0, ltb→le _ _ none1, ltb→le _ _ none2))
              (λ b. λ h. λ small. omega (arith, one-le-pow b 2 (omega arith)))
      ]
    ]
  ]
