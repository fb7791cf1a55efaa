-- ===== src/Sort.antt =====
-- src/custom_sort.c: Bentley and McIlroy's quicksort over two callbacks. The items that the
-- callbacks reach by index are a list, and a comparison gives what it returns and what it leaves
-- in `c`.
pub mod Permutation
pub mod Safety
pub mod Partition
pub mod Ending
use py_pointless.Base.{
  ℕ, zero, suc, ◌+◌, ◌-◌, ◌*◌, ◌/◌, Bool, true, false, not, ◌||◌, Option, some, none, List,
  get_elem?, length, set, ltb, if◌then◌else◌,
}
use py_pointless.Base.Int.{ℤ, pos, negsuc, is_negative}
use Prim.Native.Nat.{min}

abbrev pub is_positive : ℤ → Bool
is_positive (pos zero) = false
is_positive (pos (suc n)) = true
is_positive (negsuc n) = false

abbrev pub is_zero : ℤ → Bool
is_zero (pos zero) = true
is_zero (pos (suc n)) = false
is_zero (negsuc n) = false

-- What `qsort_cmp_` returns and what it leaves in `c`
pub record Compared : Type 0 where
  pub ok : Bool
  pub c : ℤ

-- The items and the local variable `is_error`
pub record State (A : Type 0) : Type 0 where
  pub items : List A
  pub is_error : Bool

-- A value, `return 0`, an index that is out of range, or a loop that takes longer than its fuel
pub data Result (A X : Type 0) : Type 0 where
  next : X → State A → Result A X
  failed : State A → Result A X
  fault out_of_fuel : Result A X

infix 20 ◌>>=◌
abbrev pub ◌>>=◌ : {A X Y : Type 0} → Result A X → (X → State A → Result A Y) → Result A Y
next x s >>= k = k x s
failed s >>= k = failed s
fault >>= k = fault
out_of_fuel >>= k = out_of_fuel

module _ {A : Type 0} where
  abbrev pub with_error : Bool → State A → State A
  with_error b s = record { items = s.items; is_error = b }

  abbrev pub given : {X Y : Type 0} → Option X → (X → Result A Y) → Result A Y
  given none k = fault
  given (some x) k = k x

  abbrev pub at_index : {X : Type 0} → State A → ℕ → (A → Result A X) → Result A X
  at_index s i k = given (get_elem? s.items i) k

  -- `(*swap)(i, j, user)`
  pub swap : ℕ → ℕ → State A → Result A Unit
  swap i j s = at_index s i (λ x.
      at_index s j
        (λ y. next tt (record { items = set (set s.items i y) j x; is_error = s.is_error })))

  -- `vecswap`
  pub vecswap : ℕ → ℕ → ℕ → State A → Result A Unit
  vecswap i j zero s = next tt s
  vecswap i j (suc r) s = swap i j s >>= λ _ s'. vecswap (i + 1) (j + 1) r s'

  abbrev pub when : Bool → (State A → Result A Unit) → State A → Result A Unit
  when true run s = run s
  when false run s = next tt s

module _ {A : Type 0} (cmp : A → A → Compared) where
  pub cmp_adapter : ℕ → ℕ → State A → Result A ℤ
  cmp_adapter i j s =
      at_index s i (λ x.
        at_index s j (λ y. let r = cmp x y in next r.c (with_error (s.is_error || not r.ok) s)))

  -- The end of `med3`, whose `is_error` is its own
  pub pick : Bool → ℕ → State A → Result A ℕ
  pick outer v s = if s.is_error then failed s else next v (with_error outer s)

  -- The result -1 is `failed` at once, as each caller returns 0 on it.
  pub med3 : ℕ → ℕ → ℕ → State A → Result A ℕ
  unfolding cmp_adapter pick
  med3 a b c s = cmp_adapter a b (with_error false s) >>= λ ab s1. cmp_adapter b c s1 >>= λ bc s2.
      if is_negative ab
      then (if is_negative bc
          then pick s.is_error b s2
          else cmp_adapter a c s2 >>= λ ac s3. pick s.is_error (if is_negative ac then c else a) s3)
      else (if is_positive bc
          then pick s.is_error b s2
          else cmp_adapter a c s2 >>= λ ac s3. pick s.is_error (if is_negative ac then a else c) s3)

  -- The inner loop of the insertion sort, with `pl` at `a + k`
  pub insert_down : ℕ → ℕ → State A → Result A Unit
  unfolding cmp_adapter swap
  insert_down a zero s = next tt s
  insert_down a (suc k) s = cmp_adapter (a + k) (a + suc k) s >>= λ c s1.
      if is_positive c
      then (if s1.is_error
          then failed s1
          else swap (a + suc k) (a + k) s1 >>= λ _ s2. insert_down a k s2)
      else next tt s1

  -- Its outer loop, with `pm` at `a + j`
  pub insertion : ℕ → ℕ → ℕ → State A → Result A Unit
  unfolding insert_down
  insertion a j zero s = next tt s
  insertion a j (suc left) s = insert_down a j s >>= λ _ s1. insertion a (suc j) left s1

  -- The scan for items that are in order already, with `pm - 1` at `i`
  pub is_presorted : ℕ → ℕ → State A → Result A Bool
  unfolding cmp_adapter
  is_presorted i zero s = next true s
  is_presorted i (suc left) s = cmp_adapter i (i + 1) s >>= λ c s1.
      if is_positive c
      then (if s1.is_error then failed s1 else next false s1)
      else is_presorted (i + 1) left s1

  -- The index of the item to split at
  pub middle : ℕ → ℕ → State A → Result A ℕ
  unfolding med3
  middle a n s =
      let pm = a + n / 2 in
      let pn = a + (n - 1) in
      let d = n / 8 in
      if ltb 7 n
      then (if ltb 40 n
          then (med3 a (a + d) (a + 2 * d) s >>= λ l s1. med3 (pm - d) pm (pm + d) s1 >>= λ m s2.
              med3 (pn - 2 * d) (pn - d) pn s2 >>= λ h s3. med3 l m h s3)
          else med3 a pm pn s)
      else next pm s

  -- The first inner loop, over the `left` items from `pb` to `pc`; it gives `pa` and `pb`.
  pub scan_up : ℕ → ℕ → ℕ → ℕ → State A → Result A (ℕ × ℕ)
  unfolding cmp_adapter swap
  scan_up a zero pa pb s = next (pa, pb) s
  scan_up a (suc left) pa pb s = cmp_adapter pb a s >>= λ r s1.
      if is_positive r
      then next (pa, pb) s1
      else if s1.is_error
      then failed s1
      else if is_zero r
      then (swap pa pb s1 >>= λ _ s2. scan_up a left (pa + 1) (pb + 1) s2)
      else scan_up a left pa (pb + 1) s1

  -- The second one, over the `left` items from `pc` down to `pb`; it gives `pc` and `pd`.
  pub scan_down : ℕ → ℕ → ℕ → ℕ → State A → Result A (ℕ × ℕ)
  unfolding cmp_adapter swap
  scan_down a zero pc pd s = next (pc, pd) s
  scan_down a (suc left) pc pd s = cmp_adapter pc a s >>= λ r s1.
      if is_negative r
      then next (pc, pd) s1
      else if s1.is_error
      then failed s1
      else if is_zero r
      then (swap pc pd s1 >>= λ _ s2. scan_down a left (pc - 1) (pd - 1) s2)
      else scan_down a left (pc - 1) pd s1

  -- `for (;;)`; it gives `pa`, `pb`, `pc` and `pd`.
  pub partition : ℕ → ℕ → ℕ → ℕ → ℕ → ℕ → State A → Result A (ℕ × ℕ × ℕ × ℕ)
  unfolding scan_up scan_down swap
  partition zero a pa pb pc pd s = out_of_fuel
  partition (suc fuel) a pa pb pc pd s = scan_up a (pc + 1 - pb) pa pb s >>= λ up s1.
      scan_down a (pc + 1 - up.1) pc pd s1 >>= λ down s2.
      if ltb down.0 up.1
      then next (up.0, up.1, down.0, down.1) s2
      else swap up.1 down.0 s2 >>= λ _ s3. partition fuel a up.0 (up.1 + 1) (down.0 - 1) down.1 s3

  -- From `(*swap)(a, pm, user)` to the second `vecswap`; it gives `pb - pa` and `pd - pc`.
  pub split_at : ℕ → ℕ → ℕ → State A → Result A (ℕ × ℕ)
  unfolding partition vecswap swap
  split_at a n pm s = swap a pm s >>= λ _ s1.
      partition n a (a + 1) (a + 1) (a + (n - 1)) (a + (n - 1)) s1 >>= λ (pa, pb, pc, pd) s2.
      let low = min (pa - a) (pb - pa) in
      let high = min (pd - pc) (a + n - pd - 1) in
      vecswap a (pb - low) low s2 >>= λ _ s3.
      vecswap pb (a + n - high) high s3 >>= λ _ s4. next (pb - pa, pd - pc) s4

  -- Both the recursive call and `goto loop` take from the fuel.
  pub bentley_qsort_priv : ℕ → ℕ → ℕ → State A → Result A Unit
  unfolding insertion is_presorted middle split_at
  bentley_qsort_priv zero a n s = out_of_fuel
  bentley_qsort_priv (suc fuel) a n s =
      if ltb n 7
      then insertion a 1 (n - 1) (with_error false s)
      else is_presorted a (n - 1) (with_error false s) >>= λ presorted s1.
          if presorted
          then next tt s1
          else middle a n s1 >>= λ pm s2. split_at a n pm s2 >>= λ (low, high) s3.
              when (ltb 1 low) (λ s'. bentley_qsort_priv fuel a low s') s3 >>= λ _ s4.
              when (ltb 1 high) (λ s'. bentley_qsort_priv fuel (a + n - high) high s') s4

  unfoldable pub bentley_sort : List A → Result A Unit
  unfolding bentley_qsort_priv
  bentley_sort items =
      let n = length items in
      bentley_qsort_priv (n + 1) 0 n (record { items = items; is_error = false })
