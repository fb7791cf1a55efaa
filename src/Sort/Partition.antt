-- ===== src/Sort/Partition.antt =====
-- The two inner loops and the loop around them keep every index between the ends of the part that is
-- split, and come to an end.
use py_pointless.Base.{ℕ, zero, suc, ◌+◌, ◌-◌, ◌<◌, ◌≤◌, length, ltb, arith}
use py_pointless.Base.Int.{is_negative}
use mathlib.Core.List.Perm
use py_pointless.Sort.{Compared, State, is_positive, is_zero, scan_up, scan_down, partition}
use py_pointless.Sort.Safety.{Safe, Safe->>=, Safe-if, Safe-weaken, swap-Safe, cmp_adapter-Safe}

-- Where the four indices may stand while the items from `a` to `a + n` are split
pub record Bounds (a n pa pb pc pd : ℕ) : Type 0 where
  pub a_pa : a < pa
  pub pa_pb : pa ≤ pb
  pub pb_pc : pb ≤ pc + 2
  pub pb_end : pb ≤ a + n
  pub a_pc : a ≤ pc
  pub pc_pd : pc ≤ pd
  pub pd_end : pd < a + n

Up : ℕ → ℕ → ℕ → ℕ × ℕ → Type 0
Up left pa pb q = (pa ≤ q.0) × (q.0 ≤ q.1) × (pb ≤ q.1) × (q.1 ≤ pb + left)

Down : ℕ → ℕ → ℕ → ℕ × ℕ → Type 0
Down left pc pd q = (q.0 ≤ pc) × (pc ≤ q.0 + left) × (q.0 ≤ q.1) × (q.1 ≤ pd)

abbrev pub Parted : ℕ → ℕ → ℕ × ℕ × ℕ × ℕ → Type 0
Parted a n q = Bounds a n q.0 q.1 q.2 q.3

module _ {A : Type 0} (cmp : A → A → Compared) where
  scan_up-Safe :
      (a left pa pb : ℕ) (s : State A)
      → a < pa
      → pa ≤ pb
      → pb + left ≤ length s.items
      → Safe s.items (Up left pa pb) (scan_up cmp a left pa pb s)
  unfolding scan_up Up
  scan_up-Safe a zero pa pb s h1 h2 h3 = (Perm.refl _, (omega arith, h2, omega arith, omega arith))
  scan_up-Safe a (suc left) pa pb s h1 h2 h3 =
      let Q = Up (suc left) pa pb in
      Safe->>= s.items (λ _. Unit) Q _ _ (cmp_adapter-Safe cmp pb a s (omega arith) (omega arith))
        (λ r s1 e _.
          Safe-if s1.items Q (is_positive r) _ _
            (λ _. (Perm.refl _, (omega arith, h2, omega arith, omega arith)))
            (λ _.
              Safe-if s1.items Q s1.is_error _ _ (λ _. Perm.refl _)
                (λ _.
                  Safe-if s1.items Q (is_zero r) _ _
                    (λ _.
                      Safe->>= s1.items (λ _. Unit) Q _ _
                        (swap-Safe pa pb s1 (omega (arith, e)) (omega (arith, e)))
                        (λ _ s2 e2 _.
                          Safe-weaken s2.items _ Q _
                            (λ q h.
                              (omega (arith, h.0), h.1, omega (arith, h.2), omega (arith, h.3)))
                            (scan_up-Safe a left (pa + 1) (pb + 1) s2 (omega arith) (omega arith)
                              (omega (arith, e, e2)))))
                    (λ _.
                      Safe-weaken s1.items _ Q _
                        (λ q h. (h.0, h.1, omega (arith, h.2), omega (arith, h.3)))
                        (scan_up-Safe a left pa (pb + 1) s1 h1 (omega arith) (omega (arith, e)))))))

  scan_down-Safe :
      (a left pc pd : ℕ) (s : State A)
      → left ≤ pc
      → pc ≤ pd
      → pd < length s.items
      → a < length s.items
      → Safe s.items (Down left pc pd) (scan_down cmp a left pc pd s)
  unfolding scan_down Down
  scan_down-Safe a zero pc pd s h1 h2 h3 h4 =
      (Perm.refl _, (omega arith, omega arith, h2, omega arith))
  scan_down-Safe a (suc left) pc pd s h1 h2 h3 h4 =
      let Q = Down (suc left) pc pd in
      Safe->>= s.items (λ _. Unit) Q _ _ (cmp_adapter-Safe cmp pc a s (omega arith) (omega arith))
        (λ r s1 e _.
          Safe-if s1.items Q (is_negative r) _ _
            (λ _. (Perm.refl _, (omega arith, omega arith, h2, omega arith)))
            (λ _.
              Safe-if s1.items Q s1.is_error _ _ (λ _. Perm.refl _)
                (λ _.
                  Safe-if s1.items Q (is_zero r) _ _
                    (λ _.
                      Safe->>= s1.items (λ _. Unit) Q _ _
                        (swap-Safe pc pd s1 (omega (arith, e)) (omega (arith, e)))
                        (λ _ s2 e2 _.
                          Safe-weaken s2.items _ Q _
                            (λ q h.
                              (omega (arith, h.0), omega (arith, h.1), h.2, omega (arith, h.3)))
                            (scan_down-Safe a left (pc - 1) (pd - 1) s2 (omega arith) (omega arith)
                              (omega (arith, e, e2)) (omega (arith, e, e2)))))
                    (λ _.
                      Safe-weaken s1.items _ Q _
                        (λ q h. (omega (arith, h.0), omega (arith, h.1), h.2, omega (arith, h.3)))
                        (scan_down-Safe a left (pc - 1) pd s1 (omega arith) (omega arith)
                          (omega (arith, e)) (omega (arith, e)))))))

  pub partition-Safe :
      (fuel a n pa pb pc pd : ℕ) (s : State A)
      → Bounds a n pa pb pc pd
      → pc + 1 - pb < fuel
      → a + n ≤ length s.items
      → Safe s.items (Parted a n) (partition cmp fuel a pa pb pc pd s)
  unfolding partition Up Down
  partition-Safe zero a n pa pb pc pd s b enough fits = absurd (omega arith)
  partition-Safe (suc fuel) a n pa pb pc pd s b enough fits =
      let h1 = b.a_pa in
      let h2 = b.pa_pb in
      let h3 = b.pb_pc in
      let h4 = b.pb_end in
      let h5 = b.a_pc in
      let h6 = b.pc_pd in
      let h7 = b.pd_end in
      Safe->>= s.items _ (Parted a n) _ _ (scan_up-Safe a (pc + 1 - pb) pa pb s h1 h2 (omega arith))
        (λ up s1 e1 (u1, u2, u3, u4).
          Safe->>= s1.items _ (Parted a n) _ _
            (scan_down-Safe a (pc + 1 - up.1) pc pd s1 (omega arith) h6 (omega (arith, e1))
              (omega (arith, e1)))
            (λ down s2 e2 (d1, d2, d3, d4).
              Safe-if s2.items (Parted a n) (ltb down.0 up.1) _ _
                (λ _. (
                  Perm.refl _,
                  record {
                    a_pa = omega arith;
                    pa_pb = u2;
                    pb_pc = omega arith;
                    pb_end = omega arith;
                    a_pc = omega arith;
                    pc_pd = d3;
                    pd_end = omega arith;
                  },
                ))
                (λ le.
                  let le' : up.1 ≤ down.0 = ground arith in
                  Safe->>= s2.items (λ _. Unit) (Parted a n) _ _
                    (swap-Safe up.1 down.0 s2 (omega (arith, e1, e2)) (omega (arith, e1, e2)))
                    (λ _ s3 e3 _.
                      partition-Safe fuel a n up.0 (up.1 + 1) (down.0 - 1) down.1 s3
                        (record {
                          a_pa = omega arith;
                          pa_pb = omega arith;
                          pb_pc = omega arith;
                          pb_end = omega arith;
                          a_pc = omega arith;
                          pc_pd = omega arith;
                          pd_end = omega arith;
                        })
                        (omega arith) (omega (arith, e1, e2, e3))))))
