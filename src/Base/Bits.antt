-- ===== src/Base/Bits.antt =====
-- What `&` and `|` do to the digits of a number, at every width.
use Prim.Native.Nat.{
  ℕ, zero, suc, ◌+◌, ◌-◌, ◌*◌, ◌/◌, ◌%◌, ◌^◌, ◌≤◌, ◌<◌, min, max, bit_and, bit_or,
}
use Prim.Native.Nat.add
use Prim.Native.Nat.{
  bit_xor, differ, digits, bitwise, bit_and-bitwise, bit_or-bitwise, bit_xor-bitwise,
}
use mathlib.Core.Path.{◌≡◌, refl, ap, ◌∙◌}
use mathlib.Core.Bool.{Bool, false, not, ◌&&◌, ◌||◌}
use native.Mathlib.Nat.{pow-suc, one-le-pow}
use native.Mathlib.Omega.{arith}
use py_pointless.Base.{◌==◌}

-- The native operations recur on binary digits, `a` bounding the rounds that are left. `at_zero` is
-- what they give once the first number is 0, and `at_digit` is taken at each pair of digits.
module _ (at_zero : ℕ → ℕ) (at_digit : ℕ → ℕ → ℕ) where
  abbrev rounds : ℕ → ℕ → ℕ → ℕ
  rounds = digits at_zero at_digit

  one_round_more : (n : ℕ) (a b : ℕ) → a ≤ n → rounds (suc n) a b ≡ rounds n a b
  one_round_more zero (suc a) b small = absurd (omega arith)
  one_round_more zero zero b small = refl
  one_round_more (suc n) zero b small = refl
  one_round_more (suc n) (suc a) b small =
      ap (λ t. t * 2 + at_digit (suc a % 2) (b % 2))
        (one_round_more n (suc a / 2) (b / 2) (omega arith))

  more_rounds : (spare n a b : ℕ) → a ≤ n → rounds (spare + n) a b ≡ rounds n a b
  more_rounds zero n a b small = rw add.zero
  more_rounds (suc spare) n a b small =
      rw add.suc (one_round_more (spare + n) a b (omega arith) ∙ more_rounds spare n a b small)

  low_digit :
      (a b : ℕ)
      → bitwise at_zero at_digit (suc a) b
        ≡ bitwise at_zero at_digit (suc a / 2) (b / 2) * 2 + at_digit (suc a % 2) (b % 2)
  low_digit a b =
      let half = suc a / 2 in
      let whole : a ≡ a - half + half = omega arith in
      ap (λ t. t * 2 + at_digit (suc a % 2) (b % 2))
        (ap (λ n. rounds n half (b / 2)) whole
          ∙ more_rounds (a - half) half half (b / 2) (omega arith))

pub bit_or_step : (a b : ℕ) → bit_or a b ≡ bit_or (a / 2) (b / 2) * 2 + max (a % 2) (b % 2)
bit_or_step (suc a) b = simp bit_or-bitwise (low_digit (λ b'. b') max a b)
bit_or_step zero b = simp bit_or-bitwise (omega arith)

pub bit_and_step : (a b : ℕ) → bit_and a b ≡ bit_and (a / 2) (b / 2) * 2 + min (a % 2) (b % 2)
bit_and_step (suc a) b = simp bit_and-bitwise (low_digit (λ b'. 0) min a b)
bit_and_step zero b = simp bit_and-bitwise (omega arith)

-- Digit `k` of `a`.
unfoldable pub test_bit : ℕ → ℕ → Bool
test_bit a zero = a % 2 == 1
test_bit a (suc k) = test_bit (a / 2) k

pub test_bit-or : (a b k : ℕ) → test_bit (bit_or a b) k ≡ test_bit a k || test_bit b k
unfolding test_bit
test_bit-or a b zero = ground (arith, bit_or_step a b)
test_bit-or a b (suc k) =
    let e : bit_or a b / 2 ≡ bit_or (a / 2) (b / 2) = omega (arith, bit_or_step a b) in
    rw e (test_bit-or (a / 2) (b / 2) k)

pub test_bit-and : (a b k : ℕ) → test_bit (bit_and a b) k ≡ test_bit a k && test_bit b k
unfolding test_bit
test_bit-and a b zero = ground (arith, bit_and_step a b)
test_bit-and a b (suc k) =
    let e : bit_and a b / 2 ≡ bit_and (a / 2) (b / 2) = omega (arith, bit_and_step a b) in
    rw e (test_bit-and (a / 2) (b / 2) k)

-- Without a digit in common with `a` nothing is left.
bit_and-zero_below : (bound a : ℕ) → a < bound → bit_and a 0 ≡ 0
bit_and-zero_below zero a small = absurd (omega arith)
bit_and-zero_below (suc bound) zero small = refl
bit_and-zero_below (suc bound) (suc a) small =
    bit_and_step (suc a) 0 ∙ rw (bit_and-zero_below bound (suc a / 2) (omega arith)) (omega arith)

pub bit_and-zero : (a : ℕ) → bit_and a 0 ≡ 0
bit_and-zero a = bit_and-zero_below (a + 1) a (omega arith)

pub mod_double : (a m : ℕ) → 0 < m → a % (2 * m) ≡ 2 * (a / 2 % m) + a % 2
mod_double a m h = grind arith

-- A mask of `k` low bits is the remainder by `2 ^ k`.
pub bit_and_mask : (k a : ℕ) → bit_and a (2 ^ k - 1) ≡ a % 2 ^ k
bit_and_mask zero a = omega (arith, bit_and-zero a)
bit_and_mask (suc k) a =
    let e : bit_and (a / 2) ((2 ^ suc k - 1) / 2) ≡ a / 2 % 2 ^ k =
      let m : (2 ^ suc k - 1) / 2 ≡ 2 ^ k - 1 = omega (arith, pow-suc 2 k, one-le-pow k 2) in
      rw m (bit_and_mask k (a / 2)) in
    let two : 2 ^ suc k ≡ 2 * 2 ^ k = omega (arith, pow-suc 2 k) in
    let f : a % 2 ^ suc k ≡ 2 * (a / 2 % 2 ^ k) + a % 2 =
      rw two (mod_double a (2 ^ k) (one-le-pow k 2 (omega arith))) in
    omega (arith, bit_and_step a (2 ^ suc k - 1), two, e, f, one-le-pow k 2)

test_bit-zero_digits : (j : ℕ) → test_bit 0 j ≡ false
unfolding test_bit
test_bit-zero_digits zero = refl
test_bit-zero_digits (suc j) = test_bit-zero_digits j

-- The only digit of `2 ^ k` is digit `k`.
pub test_bit-pow : (k j : ℕ) → test_bit (2 ^ k) j ≡ (k == j)
unfolding test_bit
test_bit-pow zero zero = refl
test_bit-pow zero (suc j) = test_bit-zero_digits j ∙ ground arith
test_bit-pow (suc k) zero = ground (arith, pow-suc 2 k)
test_bit-pow (suc k) (suc j) =
    let half : 2 ^ suc k / 2 ≡ 2 ^ k = omega (arith, pow-suc 2 k) in
    rw half (test_bit-pow k j ∙ ground arith)

-- `a & (1 << k)` is not 0 exactly if digit `k` of `a` is set.
pub bit_and-pow : (a k : ℕ) → not (bit_and a (2 ^ k) == 0) ≡ test_bit a k
unfolding test_bit
bit_and-pow a zero = ground (arith, bit_and_step a 1, bit_and-zero (a / 2))
bit_and-pow a (suc k) =
    let half : 2 ^ suc k / 2 ≡ 2 ^ k = omega (arith, pow-suc 2 k) in
    let step : bit_and a (2 ^ suc k) ≡ bit_and (a / 2) (2 ^ k) * 2 =
      omega (arith, rw half at (bit_and_step a (2 ^ suc k)), pow-suc 2 k) in
    rw step (ground (arith, bit_and-pow (a / 2) k))

differ_zero : (a : ℕ) → differ a 0 ≡ a
differ_zero zero = refl
differ_zero (suc a) = refl

-- Without digits in the other number nothing changes.
xor_rounds : (n a : ℕ) → a ≤ n → digits (λ b. b) differ n a 0 ≡ a
xor_rounds zero zero small = refl
xor_rounds zero (suc a) small = absurd (omega arith)
xor_rounds (suc n) zero small = refl
xor_rounds (suc n) (suc a) small =
    let half : digits (λ b. b) differ n (suc a / 2) 0 ≡ suc a / 2 =
      xor_rounds n (suc a / 2) (omega arith) in
    let low : differ (suc a % 2) 0 ≡ suc a % 2 = differ_zero (suc a % 2) in
    rw (half, low) (omega arith)

pub bit_xor_zero : (a : ℕ) → bit_xor a 0 ≡ a
bit_xor_zero a = simp bit_xor-bitwise (xor_rounds a a (omega arith))
