-- ===== src/Create/Packing.antt =====
-- The bits that are packed behind a length of five bits.
use native.Mathlib.Nat.{pow-suc, one-le-pow, pow-le-pow_right, div-eq_of_lt}
use mathlib.Core.Path.{subst}
use py_pointless.Base.{
  ℕ, zero, suc, ◌+◌, ◌*◌, ◌/◌, ◌%◌, ◌^◌, ◌≤◌, ◌<◌, ◌≡◌, ◌≢◌, refl, sym, ◌∙◌, Bool, false, ◌==◌,
  ==→ne, ne→==, ==_iff, ==_refl, if◌then◌else◌, arith, inl, inr, Bool-cases,
}
use py_pointless.Base.Bits.{test_bit, mod_double}
use py_pointless.BitUtils.{Bytes, is_set, bm_set}
use py_pointless.BitUtils.Laws.{is_set-digit, is_set-bm_set, bm_set-bytes}
use py_pointless.BitVector.{word_bytes}
use py_pointless.Create.{read_u32, pack, packed}

-- Numbers with the same low digits have the same remainder.
digits_determine :
    (n a b : ℕ) → ((k : ℕ) → k < n → test_bit a k ≡ test_bit b k) → a % 2 ^ n ≡ b % 2 ^ n
unfolding test_bit
digits_determine zero a b same = omega arith
digits_determine (suc n) a b same =
    let halves : a / 2 % 2 ^ n ≡ b / 2 % 2 ^ n =
      digits_determine n (a / 2) (b / 2) (λ k. λ h. same (suc k) (omega arith)) in
    let low : a % 2 ≡ b % 2 = grind (arith, same 0 (omega arith)) in
    let two : 2 ^ suc n ≡ 2 * 2 ^ n = omega (arith, pow-suc 2 n) in
    let pos = one-le-pow n 2 (omega arith) in
    rw (two, mod_double a (2 ^ n) pos, mod_double b (2 ^ n) pos) (omega arith)

test_bit-small : (k j a : ℕ) → a < 2 ^ k → k ≤ j → test_bit a j ≡ false
unfolding test_bit
test_bit-small zero zero a h le = ground arith
test_bit-small (suc k) zero a h le = absurd (omega arith)
test_bit-small zero (suc j) a h le = test_bit-small zero j (a / 2) (omega arith) (omega arith)
test_bit-small (suc k) (suc j) a h le =
    test_bit-small k j (a / 2) (omega (arith, pow-suc 2 k)) (omega arith)

-- A length below 32 has no digits behind the first five.
word_bytes-clear : (n k : ℕ) → n < 32 → is_set (word_bytes n) (k + 5) ≡ false
unfolding word_bytes
word_bytes-clear n k h =
    is_set-digit (word_bytes n) (k + 5) ∙ elim (Bool-cases ((k + 5) / 8 == 0)) [
      | inl first ↦
          let e : (k + 5) / 8 ≡ 0 = (==_iff _ _).0 first in
          rw e (test_bit-small 5 ((k + 5) % 8) _ (omega arith) (omega arith))
      | inr later ↦
          let big =
            pow-le-pow_right {n = 256} (omega arith) {i = 1} {j = (k + 5) / 8}
              (omega (arith, ==→ne _ _ later)) in
          let gone = div-eq_of_lt {n = n} {m = 256 ^ ((k + 5) / 8)} (omega arith) in
          test_bit-small 0 ((k + 5) % 8) _ (omega arith) (omega arith)
    ]

word_bytes-read_u32 :
    (mem : Bytes) (j : ℕ) → ((i : ℕ) → mem i < 256) → j < 4 → word_bytes (read_u32 mem) j ≡ mem j
unfolding word_bytes
word_bytes-read_u32 mem zero bytes h = omega (arith, bytes 0)
word_bytes-read_u32 mem (suc zero) bytes h = omega (arith, bytes 0, bytes 1)
word_bytes-read_u32 mem (suc (suc zero)) bytes h = omega (arith, bytes 0, bytes 1, bytes 2)
word_bytes-read_u32 mem (suc (suc (suc zero))) bytes h =
    omega (arith, bytes 0, bytes 1, bytes 2, bytes 3)
word_bytes-read_u32 mem (suc (suc (suc (suc j)))) bytes h = absurd (omega arith)

module _ (test : ℕ → Bool) where
  -- One round of the loop
  abbrev round : ℕ → Bytes → Bytes
  round i mem = if test i then bm_set mem (i + 5) else mem

  round-bit : (i j : ℕ) (mem : Bytes) → i + 5 ≢ j → is_set (round i mem) j ≡ is_set mem j
  round-bit i j mem other = elim (Bool-cases (test i)) [
    | inl set ↦ rw set (is_set-bm_set mem (i + 5) j ∙ rw (ne→== (i + 5) j other) refl)
    | inr clear ↦ rw clear refl
  ]

  round-here :
      (i : ℕ) (mem : Bytes) → is_set mem (i + 5) ≡ false → is_set (round i mem) (i + 5) ≡ test i
  round-here i mem free = elim (Bool-cases (test i)) [
    | inl set ↦ rw set (is_set-bm_set mem (i + 5) (i + 5) ∙ rw (==_refl (i + 5)) refl)
    | inr clear ↦ rw clear free
  ]

  round-bytes : (i : ℕ) (mem : Bytes) → ((j : ℕ) → mem j < 256) → (j : ℕ) → round i mem j < 256
  round-bytes i mem bytes j = elim (Bool-cases (test i)) [
    | inl set ↦ rw set (bm_set-bytes mem (i + 5) bytes j)
    | inr clear ↦ rw clear (bytes j)
  ]

  pub pack-bytes :
      (n i : ℕ) (mem : Bytes) → ((j : ℕ) → mem j < 256) → (j : ℕ) → pack test n i mem j < 256
  unfolding pack
  pack-bytes zero i mem bytes j = bytes j
  pack-bytes (suc n) i mem bytes j = pack-bytes n (i + 1) (round i mem) (round-bytes i mem bytes) j

  pack-before : (n i j : ℕ) (mem : Bytes) → j < i + 5 → is_set (pack test n i mem) j ≡ is_set mem j
  unfolding pack
  pack-before zero i j mem h = refl
  pack-before (suc n) i j mem h =
      pack-before n (i + 1) j (round i mem) (omega arith) ∙ round-bit i j mem (omega arith)

  -- Every bit that is packed reads as it was, where the memory had none before.
  pack-reads :
      (n i k : ℕ) (mem : Bytes)
      → i ≤ k
      → k < i + n
      → is_set mem (k + 5) ≡ false
      → is_set (pack test n i mem) (k + 5) ≡ test k
  unfolding pack
  pack-reads zero i k mem from to free = absurd (omega arith)
  pack-reads (suc n) i k mem from to free = elim (Bool-cases (i == k)) [
    | inl here ↦
        subst
          (λ m.
            is_set mem (m + 5) ≡ false
            → is_set (pack test n (i + 1) (round i mem)) (m + 5) ≡ test m)
          ((==_iff i k).0 here)
          (λ clear.
            pack-before n (i + 1) (i + 5) (round i mem) (omega arith) ∙ round-here i mem clear)
          free
    | inr later ↦
        let ne = ==→ne i k later in
        pack-reads n (i + 1) k (round i mem) (omega arith) (omega arith)
          (round-bit i (k + 5) mem (omega arith) ∙ free)
  ]

byte_small : (n j : ℕ) → word_bytes n j < 256
unfolding word_bytes
byte_small n j = omega arith

module _ (v : Bytes) (n : ℕ) (short : n ≤ 27) where
  memory : Bytes
  unfolding packed
  memory = pack (is_set v) n 0 (word_bytes n)

  memory-bytes : (j : ℕ) → memory j < 256
  unfolding memory
  memory-bytes = pack-bytes (is_set v) n 0 (word_bytes n) (byte_small n)

  -- The packed word has the bits behind its length,
  pub packed-reads : (k : ℕ) → k < n → is_set (word_bytes (packed v n)) (k + 5) ≡ is_set v k
  unfolding packed memory
  packed-reads k h =
      is_set-digit (word_bytes (packed v n)) (k + 5)
      ∙ rw (word_bytes-read_u32 memory ((k + 5) / 8) memory-bytes (omega arith)) (
          sym (is_set-digit memory (k + 5))
          ∙ pack-reads (is_set v) n 0 k (word_bytes n) (omega arith) (omega arith)
              (word_bytes-clear n k (omega arith)))

  memory-length : (k : ℕ) → k < 5 → test_bit (memory 0) k ≡ test_bit (word_bytes n 0) k
  unfolding memory
  memory-length k h =
      let byte : k / 8 ≡ 0 = omega arith in
      let digit : k % 8 ≡ k = omega arith in
      let reads = pack-before (is_set v) n 0 k (word_bytes n) (omega arith) in
      rw (byte, digit) at (sym (is_set-digit memory k) ∙ reads ∙ is_set-digit (word_bytes n) k)

  -- and its length in the first five.
  pub packed-length : packed v n % 2 ^ 5 ≡ n
  unfolding packed memory word_bytes
  packed-length =
      let digits : memory 0 % 2 ^ 5 ≡ word_bytes n 0 % 2 ^ 5 =
        digits_determine 5 _ _ memory-length in
      omega arith
