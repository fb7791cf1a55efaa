-- ===== src/HashTable/Cycle.antt =====
-- Once `perturb` is 0 the recurrence is `5 * i + 1`, and it visits all of `2 ^ k` buckets.
use Prim.Native.Nat.add
use native.Mathlib.Nat.{
  pow-suc, one-le-pow, mod-lt, mod-eq_of_lt, div-add-mod, mul-le-mul_left, add-mul-mod_self_left,
  add-mul-div_left,
}
use py_pointless.Base.{
  ℕ, zero, suc, ◌+◌, ◌*◌, ◌/◌, ◌^◌, ◌%◌, ◌<◌, ◌≤◌, ◌≡◌, refl, ap, sym, ◌∙◌, arith, ◌==◌, Bool-cases,
  inl, inr, ==_iff, ==→ne, ◌≢◌,
}

-- `n` rounds of the recurrence, with no width
unfoldable pub lin : ℕ → ℕ → ℕ
lin zero z = z
lin (suc n) z = lin n (5 * z + 1)

lin-add : (a b z : ℕ) → lin (a + b) z ≡ lin b (lin a z)
unfolding lin
lin-add zero b z = rw add.zero
lin-add (suc a) b z = rw add.suc (lin-add a b (5 * z + 1))

-- `2 ^ k` rounds take `z` to `(1 + 4 * gain k) * z + gain k`.
gain : ℕ → ℕ
gain zero = 1
gain (suc k) = 2 * gain k * (1 + 2 * gain k)

lin-pow : (k z : ℕ) → lin (2 ^ k) z ≡ (1 + 4 * gain k) * z + gain k
unfolding lin gain
lin-pow zero z = omega arith
lin-pow (suc k) z =
    let two : 2 ^ suc k ≡ 2 ^ k + 2 ^ k = omega (arith, pow-suc 2 k) in
    rw (two, lin-add (2 ^ k) (2 ^ k) z, lin-pow k (lin (2 ^ k) z), lin-pow k z) (grind arith)

-- `gain k` is an odd multiple of `2 ^ k`.
gain_odd : (k : ℕ) → (c : ℕ) × (gain k ≡ 2 ^ k * (2 * c + 1))
unfolding gain
gain_odd zero = (0, refl)
gain_odd (suc k) =
    let (c, e) = gain_odd k in
    (c + gain k * (2 * c + 1), rw pow-suc (omega (arith, e, ap (λ (t : ℕ). gain k * t) e)))

jump : (k z : ℕ) → (m : ℕ) × (lin (2 ^ k) z ≡ z + 2 ^ k * (2 * m + 1))
jump k z =
    let (c, e) = gain_odd k in
    (c * (4 * z + 1) + 2 * z, lin-pow k z ∙ omega (arith, e, ap (λ (t : ℕ). t * z) e))

mod_two_mul : (w P : ℕ) → 0 < P → w % (2 * P) ≡ P * (w / P % 2) + w % P
mod_two_mul w P pos =
    let h = w / P / 2 in
    let b = w / P % 2 in
    let whole : w ≡ P * b + w % P + 2 * P * h =
      omega (arith, div-add-mod w P, ap (λ (t : ℕ). P * t) (halves (w / P))) in
    let low : P * b + w % P < 2 * P =
      omega (arith, mul-le-mul_left P (bit_bound (w / P)), mod-lt w pos) in
    ap (λ t. t % (2 * P)) whole ∙ add-mul-mod_self_left (P * b + w % P) (2 * P) h ∙ mod-eq_of_lt low
  where
    halves : (q : ℕ) → q ≡ 2 * (q / 2) + q % 2
    halves q = omega arith

    bit_bound : (q : ℕ) → q % 2 ≤ 1
    bit_bound q = omega arith

-- An odd multiple of `P` moves a number to the other half of the residues modulo `2 * P`.
flip :
    (P w y m : ℕ)
    → 0 < P
    → w % P ≡ y % P
    → y < 2 * P
    → w % (2 * P) ≢ y
    → (w + P * (2 * m + 1)) % (2 * P) ≡ y
flip P w y m pos e lt ne =
    let w' = w + P * (2 * m + 1) in
    let low : w' % P ≡ w % P = add-mul-mod_self_left w P (2 * m + 1) in
    let high : w' / P ≡ w / P + (2 * m + 1) = add-mul-div_left w (2 * m + 1) pos in
    let both : y ≡ P * (y / P % 2) + y % P = sym (mod-eq_of_lt lt) ∙ mod_two_mul y P pos in
    let parity : w / P % 2 ≢ y / P % 2 = λ s. ne (mod_two_mul w P pos ∙ rw (s, e) (sym both)) in
    let turned : w' / P % 2 ≡ y / P % 2 = rw high (omega arith) in
    mod_two_mul w' P pos ∙ rw (turned, low, e) (sym both)

flip_at :
    (P Q w y m : ℕ)
    → 0 < P
    → Q ≡ 2 * P
    → w % P ≡ y % P
    → y < Q
    → w % Q ≢ y
    → (w + P * (2 * m + 1)) % Q ≡ y
flip_at P Q w y m pos two e lt ne = rw two (flip P w y m pos e (omega arith) (rw two at ne))

-- From any start each residue below `2 ^ k` is met within `2 ^ k` rounds.
pub lin-reaches : (k z y : ℕ) → y < 2 ^ k → (n : ℕ) × (n < 2 ^ k) × (lin n z % 2 ^ k ≡ y)
unfolding lin
lin-reaches zero z y h = (0, omega arith, omega arith)
lin-reaches (suc k) z y h =
    let pos : 0 < 2 ^ k = one-le-pow k 2 (omega arith) in
    let two : 2 ^ suc k ≡ 2 * 2 ^ k = omega (arith, pow-suc 2 k) in
    let (n, small, e) = lin-reaches k z (y % 2 ^ k) (mod-lt y pos) in
    let (m, j) = jump k (lin n z) in
    elim (Bool-cases (lin n z % 2 ^ suc k == y)) [
      | inl same ↦ (n, omega arith, (==_iff _ y).0 same)
      | inr other ↦ (
        n + 2 ^ k,
        omega arith,
        rw (lin-add n (2 ^ k) z, j)
            (flip_at (2 ^ k) (2 ^ suc k) (lin n z) y m pos two e h (==→ne _ y other)),
      )
    ]
