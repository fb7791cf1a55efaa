-- ===== src/HashTable/Buckets.antt =====
-- The number of buckets: a power of two that leaves a bucket empty.
use native.Mathlib.Nat.{pow-suc, pow-le-pow_right, mod-eq_of_lt, one-le-pow}
use native.Mathlib.Decide.{dec_lt}
use mathlib.Core.Option.{some-injective}
use py_pointless.Base.{
  ℕ, zero, suc, ◌+◌, ◌*◌, ◌/◌, ◌^◌, ◌<◌, ◌≤◌, ◌≡◌, refl, sym, true, none, some, ltb, lt→ltb, ◌==◌,
  arith, Bool-cases, inl, inr, ltb→lt, ltb→le, u32, ==_iff, ==→ne, shl,
}
use py_pointless.HashTable.{double_until, compute_n_buckets}

pow_below : (j : ℕ) → 2 ^ j < 2 ^ 31 → 2 ^ suc j ≤ 2 ^ 31
pow_below j h = elim (dec_lt j 31) [
  | yes p ↦ pow-le-pow_right {n = 2} (omega arith) {i = suc j} {j = 31} p
  | no p ↦
      absurd (omega (arith, pow-le-pow_right {n = 2} (omega arith) {i = 31} {j = j} (omega arith)))
]

double_until_lem :
    (fuel j n : ℕ)
    → n ≤ 2 ^ 31
    → 2 ^ j ≤ 2 ^ 31
    → 2 ^ j < 2 * n + 2
    → 31 < fuel + j
    → (k : ℕ) × (double_until fuel n (2 ^ j) ≡ some (2 ^ k))
      × (n ≤ 2 ^ k)
      × (2 ^ k < 2 * n + 2)
      × (2 ^ k ≤ 2 ^ 31)
unfolding double_until
double_until_lem zero j n small low tight enough =
    absurd (omega (arith, pow-le-pow_right {n = 2} (omega arith) {i = 32} {j = j} (omega arith)))
double_until_lem (suc fuel) j n small low tight enough = elim (Bool-cases (ltb (2 ^ j) n)) [
  | inr done ↦ (j, rw (done, double_until), ltb→le _ _ done, tight, low)
  | inl more ↦
      let lt = ltb→lt _ _ more in
      let two : 2 ^ suc j ≡ 2 * 2 ^ j = omega (arith, pow-suc 2 j) in
      let below : 2 ^ suc j ≤ 2 ^ 31 = pow_below j (omega arith) in
      let shifted : u32 (shl (2 ^ j) 1) ≡ 2 ^ suc j = omega arith in
      let (k, run, a, b, c) =
        double_until_lem fuel (suc j) n small below (omega arith) (omega arith) in
      (k, rw (more, shifted, double_until) run, a, b, c)
]

-- Short of 2 ^ 31 the number of buckets is a power of two, more than the items and at most three
-- times as many, but for the empty table.
pub compute_n_buckets_lem :
    (n : ℕ)
    → n + n / 2 ≤ 2 ^ 31
    → (k : ℕ) × (compute_n_buckets n ≡ some (2 ^ k))
      × (n < 2 ^ k)
      × (2 ^ k ≤ 3 * n + 1)
      × (2 ^ k ≤ 2 ^ 31)
unfolding compute_n_buckets
compute_n_buckets_lem n h = elim (Bool-cases (n == 1)) [
  | inl one ↦ let e = (==_iff n 1).0 one in (1, rw one, omega arith, omega arith, omega arith)
  | inr more ↦
      let ne = ==→ne n 1 more in
      let fits : n + n / 2 < 2 ^ 32 = omega arith in
      let (k, run, a, b, c) =
        double_until_lem 33 0 (n + n / 2) h (omega arith) (omega arith) (omega arith) in
      (k, rw more (rw (mod-eq_of_lt fits) run), omega (arith, one-le-pow k 2), omega arith, c)
]

-- The shift has lost the one bit: 0 stays below `n`.
stuck_at_zero : (fuel n : ℕ) → 0 < n → double_until fuel n 0 ≡ none
unfolding double_until
stuck_at_zero zero n pos = refl
stuck_at_zero (suc fuel) n pos =
    let shifted : u32 (shl 0 1) ≡ 0 = refl in
    rw (lt→ltb 0 n pos, shifted, double_until) (stuck_at_zero fuel n pos)

-- From any power of two up to 2 ^ 31, the loop for a number above 2 ^ 31 and below 2 ^ 32 finds no
-- power of two, on any fuel.
pub double_until_diverges :
    (fuel j n : ℕ) → j ≤ 31 → 2 ^ 31 < n → n < 2 ^ 32 → double_until fuel n (2 ^ j) ≡ none
unfolding double_until
double_until_diverges zero j n le large fits = refl
double_until_diverges (suc fuel) j n le large fits =
    let two : 2 ^ suc j ≡ 2 * 2 ^ j = omega (arith, pow-suc 2 j) in
    let low = pow-le-pow_right {n = 2} (omega arith) {i = j} {j = 31} le in
    let below : ltb (2 ^ j) n ≡ true = lt→ltb (2 ^ j) n (omega arith) in
    elim (dec_lt j 31) [
      | yes more ↦
          let low' = pow-le-pow_right {n = 2} (omega arith) {i = suc j} {j = 31} more in
          let shifted : u32 (shl (2 ^ j) 1) ≡ 2 ^ suc j = omega arith in
          rw (below, shifted, double_until) (double_until_diverges fuel (suc j) n more large fits)
      | no last ↦
          let end : 2 ^ 31 ≤ 2 ^ j =
            pow-le-pow_right {n = 2} (omega arith) {i = 31} {j = j} (omega arith) in
          let lost : u32 (shl (2 ^ j) 1) ≡ 0 = omega arith in
          rw (below, lost, double_until) (stuck_at_zero fuel n (omega arith))
    ]

-- Where the loop ends, it is at a power of two.
double_until-power :
    (fuel j n r : ℕ)
    → j ≤ 31
    → double_until fuel n (2 ^ j) ≡ some r
    → (k : ℕ) × (k ≤ 31) × (r ≡ 2 ^ k)
unfolding double_until
double_until-power zero j n r le e = cc
double_until-power (suc fuel) j n r le e = elim (Bool-cases (ltb (2 ^ j) n)) [
  | inr done ↦ (j, le, sym (some-injective (2 ^ j) r (rw (done, double_until) at e)))
  | inl more ↦
      let two : 2 ^ suc j ≡ 2 * 2 ^ j = omega (arith, pow-suc 2 j) in
      elim (dec_lt j 31) [
        | yes lt ↦
            let low = pow-le-pow_right {n = 2} (omega arith) {i = suc j} {j = 31} lt in
            let shifted : u32 (shl (2 ^ j) 1) ≡ 2 ^ suc j = omega arith in
            double_until-power fuel (suc j) n r lt (rw (more, shifted, double_until) at e)
        | no last ↦
            let end : 2 ^ 31 ≤ 2 ^ j =
              pow-le-pow_right {n = 2} (omega arith) {i = 31} {j = j} (omega arith) in
            let low = pow-le-pow_right {n = 2} (omega arith) {i = j} {j = 31} le in
            let lost : u32 (shl (2 ^ j) 1) ≡ 0 = omega arith in
            let never = stuck_at_zero fuel n (omega (arith, ltb→lt (2 ^ j) n more)) in
            cc (rw (more, lost, double_until, never) at e)
      ]
]

pub compute_n_buckets-power :
    (n r : ℕ) → compute_n_buckets n ≡ some r → (k : ℕ) × (k ≤ 31) × (r ≡ 2 ^ k)
unfolding compute_n_buckets
compute_n_buckets-power n r e = elim (Bool-cases (n == 1)) [
  | inl one ↦ (1, omega arith, sym (some-injective 2 r (rw one at e)))
  | inr more ↦ double_until-power 33 0 (u32 (n + n / 2)) r (omega arith) (rw more at e)
]
