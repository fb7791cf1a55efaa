-- ===== src/HashTable/Walk.antt =====
-- The recurrence of the probing on 32-bit words, and that it visits every bucket.
use native.Mathlib.Nat.{
  add-zero, mul_assoc, div-add-mod, add-mul-mod_self_left, mod-mod_of_dvd, pow-suc, mul-mod_right,
  dvd_of_mod-eq-zero,
}
use py_pointless.Base.{
  ℕ, zero, suc, ◌+◌, ◌-◌, ◌*◌, ◌/◌, ◌^◌, ◌%◌, ◌<◌, ◌≤◌, ◌≡◌, refl, ap, sym, ◌∙◌, arith, u32, shl,
  shr,
}
use py_pointless.HashTable.{recur}
use py_pointless.HashTable.Cycle.{lin, lin-reaches}

-- `i` after `n` rounds
unfoldable pub walk : ℕ → ℕ → ℕ → ℕ
walk zero p i = i
walk (suc n) p i = walk n (shr p 5) (recur p i)

pow_add : (k d : ℕ) → 2 ^ (k + d) ≡ 2 ^ k * 2 ^ d
pow_add k zero = simp add-zero (omega arith)
pow_add k (suc d) =
    let e : k + suc d ≡ suc (k + d) = omega arith in
    rw (e, pow-suc 2 (k + d), pow_add k d, pow-suc 2 d) (mul_assoc (2 ^ k) (2 ^ d) 2)

-- A wrap at 32 bits does not change the low `k` bits.
u32_low : (k x : ℕ) → k ≤ 32 → u32 x % 2 ^ k ≡ x % 2 ^ k
u32_low k x h =
    let whole : k + (32 - k) ≡ 32 = omega arith in
    let split : 2 ^ 32 ≡ 2 ^ k * 2 ^ (32 - k) = ap (λ t. 2 ^ t) (sym whole) ∙ pow_add k (32 - k) in
    let none_left : 2 ^ 32 % 2 ^ k ≡ 0 =
      ap (λ t. t % 2 ^ k) split ∙ mul-mod_right (2 ^ k) (2 ^ (32 - k)) in
    mod-mod_of_dvd (2 ^ k) {b = 2 ^ 32} x (dvd_of_mod-eq-zero (2 ^ k) none_left)

scale_mod : (P i : ℕ) → (5 * i + 1) % P ≡ (5 * (i % P) + 1) % P
scale_mod P i =
    let whole : 5 * i + 1 ≡ 5 * (i % P) + 1 + P * (5 * (i / P)) = omega (arith, div-add-mod i P) in
    ap (λ t. t % P) whole ∙ add-mul-mod_self_left (5 * (i % P) + 1) P (5 * (i / P))

recur-lin : (k i z : ℕ) → k ≤ 32 → i % 2 ^ k ≡ z % 2 ^ k → recur 0 i % 2 ^ k ≡ (5 * z + 1) % 2 ^ k
unfolding recur
recur-lin k i z h e =
    let sum : shl i 2 + i + 0 + 1 ≡ 5 * i + 1 = omega arith in
    u32_low k (shl i 2 + i + 0 + 1) h
    ∙ ap (λ t. t % 2 ^ k) sum
    ∙ scale_mod (2 ^ k) i
    ∙ ap (λ t. (5 * t + 1) % 2 ^ k) e
    ∙ sym (scale_mod (2 ^ k) z)

walk-lin : (n k i z : ℕ) → k ≤ 32 → i % 2 ^ k ≡ z % 2 ^ k → walk n 0 i % 2 ^ k ≡ lin n z % 2 ^ k
unfolding walk lin
walk-lin zero k i z h e = e
walk-lin (suc n) k i z h e = walk-lin n k (recur 0 i) (5 * z + 1) h (recur-lin k i z h e)

shifted_out : (p : ℕ) → p < 2 ^ 32 → shr (shr (shr (shr (shr (shr (shr p 5) 5) 5) 5) 5) 5) 5 ≡ 0
shifted_out p h = omega arith

-- `i` after the seven rounds in which `perturb` can be other than 0
after_seven : ℕ → ℕ → ℕ
unfolding walk
after_seven p i = walk 7 p i

-- The probe sequence of any hash visits each of `2 ^ k` buckets.
pub walk-reaches :
    (k p i y : ℕ)
    → k ≤ 32
    → p < 2 ^ 32
    → y < 2 ^ k
    → (n : ℕ) × (n < 2 ^ k + 7) × (walk n p i % 2 ^ k ≡ y)
unfolding walk after_seven
walk-reaches k p i y h hp hy =
    let late = λ (m p' i' : ℕ) (e : p' ≡ 0). ap (λ q. walk m q i' % 2 ^ k) e in
    let (n, small, e) = lin-reaches k (after_seven p i) y hy in
    (
      suc (suc (suc (suc (suc (suc (suc n)))))),
      omega arith,
      late n _ _ (shifted_out p hp) ∙ walk-lin n k (after_seven p i) (after_seven p i) h refl ∙ e,
    )
