-- ===== src/Sort/Safety.antt =====
-- What a sort promises for every comparison: it comes to its end, no index is out of range, and the
-- items are still the same ones.
use py_pointless.Base.{
  ℕ, zero, suc, ◌+◌, ◌<◌, ◌≤◌, ◌≡◌, refl, ◌∙◌, Bool, true, false, List, length, get_elem?-in_range,
  ltb, if◌then◌else◌, arith, Option, some, sym,
}
use mathlib.Core.Path.{subst}
use mathlib.Core.List.{Perm}
use mathlib.Core.List.Perm
use py_pointless.Base.Int.{is_negative}
use py_pointless.Sort.{
  Compared, State, Result, next, failed, fault, given, out_of_fuel, ◌>>=◌, swap, cmp_adapter,
  with_error, is_positive, pick, med3, insert_down, insertion, is_presorted, middle,
}
use py_pointless.Sort.Permutation.{length-perm, swap-perm}

module _ {A : Type 0} where
  -- A run that begins with the items `xs` ends with them in some order; if it goes on, with a value
  -- that has `Q`.
  abbrev pub Safe : {X : Type 0} → List A → (X → Type 0) → Result A X → Type 0
  Safe xs Q (next x s) = Perm xs s.items × Q x
  Safe xs Q (failed s) = Perm xs s.items
  Safe xs Q fault = ⊥
  Safe xs Q out_of_fuel = ⊥

  pub Safe-from :
      {X : Type 0} (xs ys : List A) (Q : X → Type 0) (r : Result A X)
      → Perm xs ys
      → Safe ys Q r
      → Safe xs Q r
  Safe-from xs ys Q (next x s) p h = (Perm.trans p h.0, h.1)
  Safe-from xs ys Q (failed s) p h = Perm.trans p h
  Safe-from xs ys Q fault p h = h
  Safe-from xs ys Q out_of_fuel p h = h

  pub Safe-weaken :
      {X : Type 0} (xs : List A) (Q R : X → Type 0) (r : Result A X)
      → ((x : X) → Q x → R x)
      → Safe xs Q r
      → Safe xs R r
  Safe-weaken xs Q R (next x s) f h = (h.0, f x h.1)
  Safe-weaken xs Q R (failed s) f h = h
  Safe-weaken xs Q R fault f h = h
  Safe-weaken xs Q R out_of_fuel f h = h

  -- A safe run, followed by one that is safe from where it ends.
  pub Safe->>= :
      {X Y : Type 0} (xs : List A) (Q : X → Type 0) (R : Y → Type 0) (r : Result A X)
      (k : X → State A → Result A Y)
      → Safe xs Q r
      → ((x : X) (s : State A) → length s.items ≡ length xs → Q x → Safe s.items R (k x s))
      → Safe xs R (r >>= k)
  Safe->>= xs Q R (next x s) k h g =
      Safe-from xs s.items R (k x s) h.0 (g x s (length-perm (Perm.symm h.0)) h.1)
  Safe->>= xs Q R (failed s) k h g = h
  Safe->>= xs Q R fault k h g = h
  Safe->>= xs Q R out_of_fuel k h g = h

  pub Safe-if :
      {X : Type 0} (xs : List A) (Q : X → Type 0) (b : Bool) (r r' : Result A X)
      → (b ≡ true → Safe xs Q r)
      → (b ≡ false → Safe xs Q r')
      → Safe xs Q (if b then r else r')
  Safe-if xs Q true r r' h h' = h refl
  Safe-if xs Q false r r' h h' = h' refl

  Safe-given :
      {X Y : Type 0} (xs : List A) (Q : Y → Type 0) (o : Option X) (x : X) (k : X → Result A Y)
      → o ≡ some x
      → Safe xs Q (k x)
      → Safe xs Q (given o k)
  Safe-given xs Q o x k e h = subst (λ o'. Safe xs Q (given o' k)) (sym e) h

  pub swap-Safe :
      (i j : ℕ) (s : State A)
      → i < length s.items
      → j < length s.items
      → Safe s.items (λ _. Unit) (swap i j s)
  unfolding swap
  swap-Safe i j s hi hj =
      let (x, ex) = get_elem?-in_range s.items i hi in
      let (y, ey) = get_elem?-in_range s.items j hj in
      Safe-given s.items _ _ x _ ex
        (Safe-given s.items _ _ y _ ey (swap-perm s.items i j x y ex ey, tt))

module _ {A : Type 0} (cmp : A → A → Compared) where
  pub cmp_adapter-Safe :
      (i j : ℕ) (s : State A)
      → i < length s.items
      → j < length s.items
      → Safe s.items (λ _. Unit) (cmp_adapter cmp i j s)
  unfolding cmp_adapter
  cmp_adapter-Safe i j s hi hj =
      let (x, ex) = get_elem?-in_range s.items i hi in
      let (y, ey) = get_elem?-in_range s.items j hj in rw (ex, ey) ((Perm.refl _, tt))

  insert_down-Safe :
      (a k : ℕ) (s : State A)
      → a + k < length s.items
      → Safe s.items (λ _. Unit) (insert_down cmp a k s)
  unfolding insert_down
  insert_down-Safe a zero s h = (Perm.refl _, tt)
  insert_down-Safe a (suc k) s h =
      Safe->>= s.items (λ _. Unit) _ _ _ (cmp_adapter-Safe (a + k) (a + suc k) s (omega arith) h)
        (λ c s1 e _.
          Safe-if s1.items _ (is_positive c) _ _
            (λ _.
              Safe-if s1.items _ s1.is_error _ _ (λ _. Perm.refl _)
                (λ _.
                  Safe->>= s1.items (λ _. Unit) _ _ _
                    (swap-Safe (a + suc k) (a + k) s1 (omega (arith, e)) (omega (arith, e)))
                    (λ _ s2 e2 _. insert_down-Safe a k s2 (omega (arith, e, e2)))))
            (λ _. (Perm.refl _, tt)))

  pub insertion-Safe :
      (a j left : ℕ) (s : State A)
      → a + j + left ≤ length s.items
      → Safe s.items (λ _. Unit) (insertion cmp a j left s)
  unfolding insertion
  insertion-Safe a j zero s h = (Perm.refl _, tt)
  insertion-Safe a j (suc left) s h =
      Safe->>= s.items (λ _. Unit) _ _ _ (insert_down-Safe a j s (omega arith))
        (λ _ s1 e _. insertion-Safe a (suc j) left s1 (omega (arith, e)))

  pub is_presorted-Safe :
      (i left : ℕ) (s : State A)
      → i + left < length s.items
      → Safe s.items (λ _. Unit) (is_presorted cmp i left s)
  unfolding is_presorted
  is_presorted-Safe i zero s h = (Perm.refl _, tt)
  is_presorted-Safe i (suc left) s h =
      Safe->>= s.items (λ _. Unit) _ _ _ (cmp_adapter-Safe i (i + 1) s (omega arith) (omega arith))
        (λ c s1 e _.
          Safe-if s1.items _ (is_positive c) _ _
            (λ _. Safe-if s1.items _ s1.is_error _ _ (λ _. Perm.refl _) (λ _. (Perm.refl _, tt)))
            (λ _. is_presorted-Safe (i + 1) left s1 (omega (arith, e))))

  pick-Safe :
      (m v : ℕ) (b : Bool) (s : State A) → v < m → Safe s.items (λ u. u < m) (pick cmp b v s)
  unfolding pick
  pick-Safe m v b s h = Safe-if s.items _ s.is_error _ _ (λ _. Perm.refl _) (λ _. (Perm.refl _, h))

  if_lt : (m i j : ℕ) (b : Bool) → i < m → j < m → (if b then i else j) < m
  if_lt m i j true hi hj = hi
  if_lt m i j false hi hj = hj

  -- The index that the last comparison of `med3` picks
  last_pick-Safe :
      (m a c i j : ℕ) (b : Bool) (s : State A)
      → length s.items ≡ m
      → a < m
      → c < m
      → i < m
      → j < m
      → Safe s.items
          (λ u. u < m)
          (cmp_adapter cmp a c s >>= λ ac s3. pick cmp b (if is_negative ac then i else j) s3)
  last_pick-Safe m a c i j b s e ha hc hi hj =
      Safe->>= s.items (λ _. Unit) (λ u. u < m) _ _
        (cmp_adapter-Safe a c s (omega (arith, e)) (omega (arith, e)))
        (λ ac s3 _ _. pick-Safe m _ b s3 (if_lt m i j (is_negative ac) hi hj))

  med3-Safe :
      (m a b c : ℕ) (s : State A)
      → length s.items ≡ m
      → a < m
      → b < m
      → c < m
      → Safe s.items (λ u. u < m) (med3 cmp a b c s)
  unfolding med3
  med3-Safe m a b c s e ha hb hc =
      Safe->>= s.items (λ _. Unit) (λ u. u < m) _ _
        (cmp_adapter-Safe a b (with_error false s) (omega (arith, e)) (omega (arith, e)))
        (λ ab s1 e1 _.
          Safe->>= s1.items (λ _. Unit) (λ u. u < m) _ _
            (cmp_adapter-Safe b c s1 (omega (arith, e, e1)) (omega (arith, e, e1)))
            (λ bc s2 e2 _.
              Safe-if s2.items _ (is_negative ab) _ _
                (λ _.
                  Safe-if s2.items _ (is_negative bc) _ _ (λ _. pick-Safe m b _ s2 hb)
                    (λ _. last_pick-Safe m a c c a _ s2 (omega (arith, e, e1, e2)) ha hc hc ha))
                (λ _.
                  Safe-if s2.items _ (is_positive bc) _ _ (λ _. pick-Safe m b _ s2 hb)
                    (λ _. last_pick-Safe m a c a c _ s2 (omega (arith, e, e1, e2)) ha hc ha hc))))

  pub middle-Safe :
      (m a n : ℕ) (s : State A)
      → length s.items ≡ m
      → 7 ≤ n
      → a + n ≤ m
      → Safe s.items (λ u. u < m) (middle cmp a n s)
  unfolding middle
  middle-Safe m a n s e big fits =
      let Q : ℕ → Type 0 = λ u. u < m in
      Safe-if s.items Q (ltb 7 n) _ _
        (λ _.
          Safe-if s.items Q (ltb 40 n) _ _
            (λ _.
              Safe->>= s.items Q Q _ _
                (med3-Safe m _ _ _ s e (omega arith) (omega arith) (omega arith))
                (λ l s1 e1 hl.
                  Safe->>= s1.items Q Q _ _
                    (med3-Safe m _ _ _ s1 (e1 ∙ e) (omega arith) (omega arith) (omega arith))
                    (λ k s2 e2 hk.
                      Safe->>= s2.items Q Q _ _
                        (med3-Safe m _ _ _ s2 (e2 ∙ e1 ∙ e) (omega arith) (omega arith)
                          (omega arith))
                        (λ h s3 e3 hh. med3-Safe m l k h s3 (e3 ∙ e2 ∙ e1 ∙ e) hl hk hh))))
            (λ _. med3-Safe m _ _ _ s e (omega arith) (omega arith) (omega arith)))
        (λ _. (Perm.refl _, omega arith))
