-- ===== src/Sort/Ending.antt =====
-- The sort itself is safe, with a round of fuel for each item: every part that it goes on with is
-- shorter.
use py_pointless.Base.{
  ℕ, zero, suc, ◌+◌, ◌-◌, ◌<◌, ◌≤◌, ◌≡◌, refl, true, false, List, length, ltb, arith, Bool,
}
use mathlib.Core.Path.{subst, sym}
use Prim.Native.Nat.{min}
use mathlib.Core.List.Perm
use py_pointless.Sort.{
  Compared, State, Result, insertion, vecswap, split_at, when, bentley_qsort_priv, bentley_sort,
}
use py_pointless.Sort.Partition.{Bounds, Parted, partition-Safe}
use py_pointless.Sort.Safety.{
  Safe, Safe->>=, Safe-if, swap-Safe, insertion-Safe, is_presorted-Safe, middle-Safe,
}

module _ {A : Type 0} (cmp : A → A → Compared) where
  vecswap-Safe :
      (i j r : ℕ) (s : State A)
      → i + r ≤ length s.items
      → j + r ≤ length s.items
      → Safe s.items (λ _. Unit) (vecswap i j r s)
  unfolding vecswap
  vecswap-Safe i j zero s hi hj = (Perm.refl _, tt)
  vecswap-Safe i j (suc r) s hi hj =
      Safe->>= s.items (λ _. Unit) (λ _. Unit) _ _ (swap-Safe i j s (omega arith) (omega arith))
        (λ _ s1 e _. vecswap-Safe (i + 1) (j + 1) r s1 (omega (arith, e)) (omega (arith, e)))

  Shorter : ℕ → ℕ × ℕ → Type 0
  Shorter n q = (q.0 < n) × (q.1 < n)

  start : (a n : ℕ) → 0 < n → Bounds a n (a + 1) (a + 1) (a + (n - 1)) (a + (n - 1))
  start a n h = record {
    a_pa = omega arith;
    pa_pb = omega arith;
    pb_pc = omega arith;
    pb_end = omega arith;
    a_pc = omega arith;
    pc_pd = omega arith;
    pd_end = omega arith;
  }

  insertion_all :
      (a n : ℕ) (s : State A)
      → a + n ≤ length s.items
      → Safe s.items
          (λ _. Unit)
          (insertion cmp a 1 (n - 1) (record { items = s.items; is_error = false }))
  unfolding insertion
  insertion_all a zero s h = (Perm.refl _, tt)
  insertion_all a (suc n) s h =
      let s0 : State A = record { items = s.items; is_error = false } in
      let e : suc n - 1 ≡ n = omega arith in
      subst (λ left. Safe s.items (λ _. Unit) (insertion cmp a 1 left s0)) (sym e)
        (insertion-Safe cmp a 1 n s0 (omega arith))

  split_at-Safe :
      (a n pm : ℕ) (s : State A)
      → 0 < n
      → a + n ≤ length s.items
      → pm < length s.items
      → Safe s.items (Shorter n) (split_at cmp a n pm s)
  unfolding split_at Shorter
  split_at-Safe a n pm s some fits hm =
      let Q = Shorter n in
      Safe->>= s.items (λ _. Unit) Q _ _ (swap-Safe a pm s (omega arith) hm)
        (λ _ s1 e1 _.
          Safe->>= s1.items (Parted a n) Q _ _
            (partition-Safe cmp n a n (a + 1) (a + 1) (a + (n - 1)) (a + (n - 1)) s1
              (start a n some) (omega arith) (omega (arith, e1)))
            (λ q s2 e2 b.
              let h1 = b.a_pa in
              let h2 = b.pa_pb in
              let h3 = b.pb_pc in
              let h4 = b.pb_end in
              let h5 = b.a_pc in
              let h6 = b.pc_pd in
              let h7 = b.pd_end in
              let low = min (q.0 - a) (q.1 - q.0) in
              let high = min (q.3 - q.2) (a + n - q.3 - 1) in
              Safe->>= s2.items (λ _. Unit) Q _ _
                (vecswap-Safe a (q.1 - low) low s2 (omega (arith, e1, e2)) (omega (arith, e1, e2)))
                (λ _ s3 e3 _.
                  Safe->>= s3.items (λ _. Unit) Q _ _
                    (vecswap-Safe q.1 (a + n - high) high s3 (omega (arith, e1, e2, e3))
                      (omega (arith, e1, e2, e3)))
                    (λ _ s4 e4 _. (Perm.refl _, (omega arith, omega arith))))))

  when-Safe :
      (b : Bool) (run : State A → Result A Unit) (s : State A)
      → (b ≡ true → Safe s.items (λ _. Unit) (run s))
      → Safe s.items (λ _. Unit) (when b run s)
  when-Safe true run s h = h refl
  when-Safe false run s h = (Perm.refl _, tt)

  qsort-Safe :
      (fuel a n : ℕ) (s : State A)
      → n < fuel
      → a + n ≤ length s.items
      → Safe s.items (λ _. Unit) (bentley_qsort_priv cmp fuel a n s)
  unfolding bentley_qsort_priv Shorter
  qsort-Safe zero a n s enough fits = absurd (omega arith)
  qsort-Safe (suc fuel) a n s enough fits =
      let Q : Unit → Type 0 = λ _. Unit in
      Safe-if s.items Q (ltb n 7) _ _ (λ small. insertion_all a n s fits)
        (λ big.
          Safe->>= s.items (λ _. Unit) Q _ _
            (is_presorted-Safe cmp a (n - 1) (record { items = s.items; is_error = false })
              (ground arith))
            (λ presorted s1 e1 _.
              Safe-if s1.items Q presorted _ _ (λ _. (Perm.refl _, tt))
                (λ _.
                  Safe->>= s1.items (λ u. u < length s.items) Q _ _
                    (middle-Safe cmp (length s.items) a n s1 e1 (ground arith) fits)
                    (λ pm s2 e2 hm.
                      Safe->>= s2.items (Shorter n) Q _ _
                        (split_at-Safe a n pm s2 (ground arith) (omega (arith, e1, e2))
                          (omega (arith, e1, e2)))
                        (λ q s3 e3 shorter.
                          Safe->>= s3.items (λ _. Unit) Q _ _
                            (when-Safe (ltb 1 q.0) _ s3 (λ _.
                              qsort-Safe fuel a q.0 s3 (omega (arith, shorter.0))
                                (omega (arith, e1, e2, e3, shorter.0))))
                            (λ _ s4 e4 _. when-Safe (ltb 1 q.1) _ s4 (λ _.
                              qsort-Safe fuel (a + n - q.1) q.1 s4 (omega (arith, shorter.1))
                                (omega (arith, e1, e2, e3, e4, shorter.1)))))))))

-- For every comparison, one that is no order or that fails included, the sort comes to its end with
-- the fuel that it starts with, and no comparison and no exchange has an index out of range; the
-- items that it leaves, whether it returns 1 or 0, are those it was given, in some order.
pub bentley_sort-Safe :
    {A : Type 0} (cmp : A → A → Compared) (items : List A)
    → Safe items (λ _. Unit) (bentley_sort cmp items)
unfolding bentley_sort
bentley_sort-Safe cmp items =
    qsort-Safe cmp (length items + 1) 0 (length items) (record { items = items; is_error = false })
      (omega arith) (omega arith)
