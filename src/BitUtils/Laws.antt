-- ===== src/BitUtils/Laws.antt =====
-- What a bit reads as after a write.
use native.Mathlib.Nat.{pow-suc, one-le-pow, pow-le-pow_right}
use py_pointless.Base.{
  ℕ, zero, suc, ◌-◌, ◌*◌, ◌/◌, ◌%◌, ◌^◌, ◌<◌, ◌≡◌, sym, ap, ◌∙◌, Bool, true, false, not, ◌&&◌, ◌||◌,
  bit_and, bit_or, ◌==◌, arith, Bool-cases, inl, inr, ==_iff, ==→ne, ne→==, ◌≢◌,
}
use py_pointless.Base.Bits.{
  test_bit, test_bit-or, test_bit-and, test_bit-pow, bit_and-pow, mod_double,
}
use py_pointless.BitUtils.{Bytes, bm_set, bm_reset, is_set}

pub test_bit-mod : (n a k : ℕ) → k < n → test_bit (a % 2 ^ n) k ≡ test_bit a k
unfolding test_bit
test_bit-mod zero a k h = absurd (omega arith)
test_bit-mod (suc n) a zero h =
    let two : 2 ^ suc n ≡ 2 * 2 ^ n = omega (arith, pow-suc 2 n) in
    let split = mod_double a (2 ^ n) (one-le-pow n 2 (omega arith)) in
    ap (λ t. t == 1) (rw (two, split) (omega arith))
test_bit-mod (suc n) a (suc k) h =
    let two : 2 ^ suc n ≡ 2 * 2 ^ n = omega (arith, pow-suc 2 n) in
    let split = mod_double a (2 ^ n) (one-le-pow n 2 (omega arith)) in
    let half : a % 2 ^ suc n / 2 ≡ a / 2 % 2 ^ n = rw (two, split) (omega arith) in
    rw half (test_bit-mod n (a / 2) k (omega arith))

test_bit-ones : (n j : ℕ) → j < n → test_bit (2 ^ n - 1) j ≡ true
unfolding test_bit
test_bit-ones zero j h = absurd (omega arith)
test_bit-ones (suc n) zero h = ground (arith, pow-suc 2 n, one-le-pow n 2)
test_bit-ones (suc n) (suc j) h =
    let half : (2 ^ suc n - 1) / 2 ≡ 2 ^ n - 1 =
      omega (arith, pow-suc 2 n, one-le-pow n 2 (omega arith)) in
    rw half (test_bit-ones n j (omega arith))

pow_lt : (k n : ℕ) → k < n → 2 ^ k < 2 ^ n
pow_lt k n h = omega (
  arith,
  pow-le-pow_right {n = 2} (omega arith) {i = suc k} {j = n} h,
  pow-suc 2 k,
  one-le-pow k 2 (omega arith),
)

-- The digits of the mask with which a bit is cleared
test_bit-mask : (n k j : ℕ) → k < n → j < n → test_bit (2 ^ n - 1 - 2 ^ k) j ≡ not (k == j)
unfolding test_bit
test_bit-mask zero k j hk hj = absurd (omega arith)
test_bit-mask (suc n) zero zero hk hj = ground (arith, pow-suc 2 n, one-le-pow n 2)
test_bit-mask (suc n) zero (suc j) hk hj =
    let half : (2 ^ suc n - 1 - 1) / 2 ≡ 2 ^ n - 1 =
      omega (arith, pow-suc 2 n, one-le-pow n 2 (omega arith)) in
    rw half (test_bit-ones n j (omega arith) ∙ ground arith)
test_bit-mask (suc n) (suc k) zero hk hj = ground (arith, pow-suc 2 n, pow-suc 2 k, pow_lt k n)
test_bit-mask (suc n) (suc k) (suc j) hk hj =
    let half : (2 ^ suc n - 1 - 2 ^ suc k) / 2 ≡ 2 ^ n - 1 - 2 ^ k =
      omega (arith, pow-suc 2 n, pow-suc 2 k, pow_lt k n (omega arith)) in
    rw half (test_bit-mask n k j (omega arith) (omega arith) ∙ ground arith)

pub is_set-digit : (mem : Bytes) (bit : ℕ) → is_set mem bit ≡ test_bit (mem (bit / 8)) (bit % 8)
unfolding is_set
is_set-digit mem bit = bit_and-pow (mem (bit / 8)) (bit % 8)

same_bit : (i j : ℕ) → i / 8 ≡ j / 8 → (i % 8 == j % 8) ≡ (i == j)
same_bit i j e = ground arith

other_bit : (i j : ℕ) → i / 8 ≢ j / 8 → (i == j) ≡ false
other_bit i j ne = ne→== i j (λ e. ne (ap (λ t. t / 8) e))

-- A bit that is set reads as set, and no other bit changes.
pub is_set-bm_set : (mem : Bytes) (i j : ℕ) → is_set (bm_set mem i) j ≡ (i == j) || is_set mem j
unfolding bm_set
is_set-bm_set mem i j = is_set-digit (bm_set mem i) j ∙ elim (Bool-cases (i / 8 == j / 8)) [
  | inl same ↦
      let e = (==_iff (i / 8) (j / 8)).0 same in
      rw
        (
          same,
          is_set-digit mem j,
          test_bit-mod 8 (bit_or (mem (i / 8)) (2 ^ (i % 8))) (j % 8) (omega arith),
          test_bit-or (mem (i / 8)) (2 ^ (i % 8)) (j % 8),
          test_bit-pow (i % 8) (j % 8),
          same_bit i j e,
          e,
        )
        (or_comm (test_bit (mem (j / 8)) (j % 8)) (i == j))
  | inr other ↦ rw (other, other_bit i j (==→ne _ _ other)) (sym (is_set-digit mem j))
]
  where
    or_comm : (a b : Bool) → (a || b) ≡ b || a
    or_comm a b = ground arith

-- A bit that is reset reads as not set, and no other bit changes.
pub is_set-bm_reset :
    (mem : Bytes) (i j : ℕ) → is_set (bm_reset mem i) j ≡ not (i == j) && is_set mem j
unfolding bm_reset
is_set-bm_reset mem i j = is_set-digit (bm_reset mem i) j ∙ elim (Bool-cases (i / 8 == j / 8)) [
  | inl same ↦
      let e = (==_iff (i / 8) (j / 8)).0 same in
      rw
        (
          same,
          is_set-digit mem j,
          test_bit-mod 8 (bit_and (mem (i / 8)) (2 ^ 32 - 1 - 2 ^ (i % 8))) (j % 8) (omega arith),
          test_bit-and (mem (i / 8)) (2 ^ 32 - 1 - 2 ^ (i % 8)) (j % 8),
          test_bit-mask 32 (i % 8) (j % 8) (omega arith) (omega arith),
          same_bit i j e,
          e,
        )
        (and_comm (test_bit (mem (j / 8)) (j % 8)) (not (i == j)))
  | inr other ↦ rw (other, other_bit i j (==→ne _ _ other)) (sym (is_set-digit mem j))
]
  where
    and_comm : (a b : Bool) → (a && b) ≡ b && a
    and_comm a b = ground arith

-- Bytes stay bytes.
pub bm_set-bytes :
    (mem : Bytes) (bit : ℕ) → ((i : ℕ) → mem i < 256) → (i : ℕ) → bm_set mem bit i < 256
unfolding bm_set
bm_set-bytes mem bit bytes i = elim (Bool-cases (bit / 8 == i)) [
  | inl written ↦ rw written (omega arith)
  | inr kept ↦ rw kept (bytes i)
]
