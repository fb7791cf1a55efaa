-- ===== src/Create/Compression.antt =====
-- What a compressed bitvector reads as.
use mathlib.Core.Path.{subst}
use py_pointless.Create.Packing.{packed-reads, packed-length}
use py_pointless.Base.{
  ℕ, zero, suc, ◌+◌, ◌*◌, ◌%◌, ◌^◌, ◌≤◌, ◌<◌, ◌≡◌, ◌≢◌, refl, sym, ap, ◌∙◌, Bool, true, false,
  Option, some, none, ltb, ltb→lt, lt→ltb, ltb→le, le→ltb, leb, ◌==◌, ==→ne, ==_iff, if◌then◌else◌,
  arith, inl, inr, Bool-cases,
}
use py_pointless.BitUtils.{Bytes, is_set}
use py_pointless.Value.{
  Value, bitvector, bitvector_0, bitvector_1, bitvector_01, bitvector_10, bitvector_packed,
}
use py_pointless.BitVector.{is_set_bits, n_bits, bit_is_set}
use py_pointless.Create.{
  all_from, none_from, is_all_0, is_all_1, runs, negated, is_01, is_10, packed, two_runs, as_value,
  either_runs, compress,
}

module _ (test : ℕ → Bool) where
  all_from_sound : (n i k : ℕ) → all_from test n i ≡ true → i ≤ k → k < i + n → test k ≡ true
  unfolding all_from
  all_from_sound zero i k e from to = absurd (omega arith)
  all_from_sound (suc n) i k e from to = elim (Bool-cases (test i)) [
    | inl set ↦ elim (Bool-cases (i == k)) [
      | inl here ↦ ap test (sym ((==_iff i k).0 here)) ∙ set
      | inr later ↦
          all_from_sound n (i + 1) k (rw (set, all_from) at e) (omega (arith, ==→ne i k later))
            (omega arith)
    ]
    | inr clear ↦ absurd (let no = rw (clear, all_from) at e in cc)
  ]

  none_from_sound : (n i k : ℕ) → none_from test n i ≡ true → i ≤ k → k < i + n → test k ≡ false
  unfolding none_from
  none_from_sound zero i k e from to = absurd (omega arith)
  none_from_sound (suc n) i k e from to = elim (Bool-cases (test i)) [
    | inr clear ↦ elim (Bool-cases (i == k)) [
      | inl here ↦ ap test (sym ((==_iff i k).0 here)) ∙ clear
      | inr later ↦
          none_from_sound n (i + 1) k (rw (clear, none_from) at e) (omega (arith, ==→ne i k later))
            (omega arith)
    ]
    | inl set ↦ absurd (let no = rw (set, none_from) at e in cc)
  ]

  -- A prefix of the bits, grown by one
  grown_clear :
      (i n_a : ℕ)
      → ((k : ℕ) → k < i → test k ≡ ltb k n_a)
      → test i ≡ false
      → n_a ≤ i
      → (k : ℕ) → k < i + 1
      → test k ≡ ltb k n_a
  grown_clear i n_a prefix clear past k h = elim (Bool-cases (i == k)) [
    | inl here ↦
        ap test (sym ((==_iff i k).0 here))
        ∙ clear
        ∙ sym (le→ltb k n_a (omega (arith, (==_iff i k).0 here)))
    | inr other ↦ prefix k (omega (arith, ==→ne i k other))
  ]

  grown_set :
      (i : ℕ)
      → ((k : ℕ) → k < i → test k ≡ ltb k i)
      → test i ≡ true
      → (k : ℕ) → k < i + 1
      → test k ≡ ltb k (i + 1)
  grown_set i prefix set k h = elim (Bool-cases (i == k)) [
    | inl here ↦ ap test (sym ((==_iff i k).0 here)) ∙ set ∙ sym (lt→ltb k (i + 1) h)
    | inr other ↦
        let before : k < i = omega (arith, ==→ne i k other) in
        prefix k before ∙ lt→ltb k i before ∙ sym (lt→ltb k (i + 1) h)
  ]

  -- The counts of a prefix of `i` bits are `n_a` and `n_b`, and the first `n_a` of them are set.
  runs_sound :
      (n i n_a n_b a b : ℕ)
      → runs test n i n_a n_b ≡ some (a, b)
      → i ≡ n_a + n_b
      → ((k : ℕ) → k < i → test k ≡ ltb k n_a)
      → (a + b ≡ i + n) × ((k : ℕ) → k < i + n → test k ≡ ltb k a)
  unfolding runs
  runs_sound zero i n_a n_b a b e at prefix =
      let first : n_a ≡ a = cc in
      let second : n_b ≡ b = cc in
      (omega arith, λ k. λ h. prefix k (omega arith) ∙ ap (ltb k) first)
  runs_sound (suc n) i n_a n_b a b e at prefix = elim (Bool-cases (test i)) [
    | inr clear ↦ shifted (
        runs_sound n (i + 1) n_a (n_b + 1) a b (rw (clear, runs) at e) (omega arith)
          (grown_clear i n_a prefix clear (omega arith)))
    | inl set ↦ elim (Bool-cases (ltb 0 n_b)) [
      | inl late ↦ absurd (let no = rw (set, late, runs) at e in cc)
      | inr early ↦
          let all : i ≡ n_a = omega (arith, ltb→le 0 n_b early) in
          shifted (
            runs_sound n (i + 1) (n_a + 1) n_b a b (rw (set, early, runs) at e) (omega arith) (
              subst (λ m. (k : ℕ) → k < i + 1 → test k ≡ ltb k (m + 1)) all
                (grown_set i (subst (λ m. (k : ℕ) → k < i → test k ≡ ltb k m) (sym all) prefix)
                  set)))
    ]
  ]
    where
      shifted :
          {A : ℕ → Type 0}
          → (a + b ≡ i + 1 + n) × ((k : ℕ) → k < i + 1 + n → A k)
          → (a + b ≡ i + suc n) × ((k : ℕ) → k < i + suc n → A k)
      shifted (total, reads) = (omega arith, λ k. λ h. reads k (omega arith))

-- The value has the `n` bits, wherever the buffer points.
pub record Holds (v : Bytes) (n : ℕ) (a : Value) : Type 0 where
  pub compressed : a.tag ≢ bitvector
  pub length : (buffer : Bytes) → n_bits a.tag a.data_u32 buffer ≡ n
  pub reads : (buffer : Bytes) (k : ℕ) → k < n → bit_is_set a.tag a.data_u32 buffer k ≡ is_set v k

-- What holds of a value, if there is one
abbrev pub Maybe : (Value → Type 0) → Option Value → Type 0
Maybe P none = Unit
Maybe P (some a) = P a

lower_half : (a b : ℕ) → a < 2 ^ 16 → (a + 2 ^ 16 * b) % 2 ^ 16 ≡ a
lower_half a b h = omega arith

module _ (v : Bytes) (n : ℕ) where
  all_0-Holds : is_all_0 v n ≡ true → Holds v n (record { tag = bitvector_0; data_u32 = n })
  unfolding is_all_0 n_bits bit_is_set is_set_bits
  all_0-Holds e = record {
    compressed = λ no. cc;
    length = λ buffer. refl;
    reads =
        λ buffer. λ k. λ h. sym (none_from_sound (is_set v) n 0 k e (omega arith) (omega arith));
  }

  all_1-Holds : is_all_1 v n ≡ true → Holds v n (record { tag = bitvector_1; data_u32 = n })
  unfolding is_all_1 n_bits bit_is_set is_set_bits
  all_1-Holds e = record {
    compressed = λ no. cc;
    length = λ buffer. refl;
    reads = λ buffer. λ k. λ h. sym (all_from_sound (is_set v) n 0 k e (omega arith) (omega arith));
  }

  packed-Holds : n ≤ 27 → Holds v n (record { tag = bitvector_packed; data_u32 = packed v n })
  unfolding n_bits bit_is_set is_set_bits
  packed-Holds short = record {
    compressed = λ no. cc;
    length = λ buffer. packed-length v n short;
    reads = λ buffer. packed-reads v n short;
  }

  negated_ltb : (k a : ℕ) (x : Bool) → (if x then false else true) ≡ ltb k a → leb a k ≡ x
  negated_ltb k a true e = ground arith
  negated_ltb k a false e = ground arith

  is_01-Holds :
      (a b : ℕ)
      → is_01 v n ≡ some (a, b)
      → Maybe (Holds v n) (as_value bitvector_01 (two_runs (a, b)))
  unfolding is_01 as_value two_runs n_bits bit_is_set is_set_bits
  is_01-Holds a b e = elim (Bool-cases (ltb a (2 ^ 16))) [
    | inr large ↦ rw large tt
    | inl small ↦ elim (Bool-cases (ltb b (2 ^ 16))) [
      | inr large ↦ rw (small, large) tt
      | inl small' ↦
          let (total, reads) =
            runs_sound (negated (is_set v)) n 0 0 0 a b e refl (λ k. λ h. absurd (omega arith)) in
          rw (small, small')
            record {
              compressed = λ no. cc;
              length = λ buffer. omega (arith, ltb→lt a _ small);
              reads = λ buffer. λ k. λ h.
                  rw (lower_half a b (ltb→lt a _ small))
                    (negated_ltb k a (is_set v k) (reads k (omega arith)));
            }
    ]
  ]

  is_10-Holds :
      (a b : ℕ)
      → is_10 v n ≡ some (a, b)
      → Maybe (Holds v n) (as_value bitvector_10 (two_runs (a, b)))
  unfolding is_10 as_value two_runs n_bits bit_is_set is_set_bits
  is_10-Holds a b e = elim (Bool-cases (ltb a (2 ^ 16))) [
    | inr large ↦ rw large tt
    | inl small ↦ elim (Bool-cases (ltb b (2 ^ 16))) [
      | inr large ↦ rw (small, large) tt
      | inl small' ↦
          let (total, reads) =
            runs_sound (is_set v) n 0 0 0 a b e refl (λ k. λ h. absurd (omega arith)) in
          rw (small, small')
            record {
              compressed = λ no. cc;
              length = λ buffer. omega (arith, ltb→lt a _ small);
              reads = λ buffer.
                  λ k. λ h. rw (lower_half a b (ltb→lt a _ small)) (sym (reads k (omega arith)));
            }
    ]
  ]

  either-Holds :
      (l r : Option (ℕ × ℕ)) → is_01 v n ≡ l → is_10 v n ≡ r → Maybe (Holds v n) (either_runs l r)
  unfolding either_runs
  either-Holds (some (a, b)) r e e' = is_01-Holds a b e
  either-Holds none (some (a, b)) e e' = is_10-Holds a b e'
  either-Holds none none e e' = tt

  -- If a bitvector is compressed, the value reads as a bitvector of its length with its bits; and
  -- it is compressed if it has at most 27 bits.
  pub compress-Holds : Maybe (Holds v n) (compress v n) × (n ≤ 27 → compress v n ≢ none)
  unfolding compress
  compress-Holds = elim (Bool-cases (is_all_0 v n)) [
    | inl zeros ↦ rw zeros (all_0-Holds zeros, λ short. λ e. cc)
    | inr mixed ↦ elim (Bool-cases (is_all_1 v n)) [
      | inl ones ↦ rw (mixed, ones) (all_1-Holds ones, λ short. λ e. cc)
      | inr both ↦ elim (Bool-cases (leb n 27)) [
        | inl short ↦ rw (mixed, both, short) (packed-Holds (ground arith), λ _. λ e. cc)
        | inr long ↦
            rw (mixed, both, long) (either-Holds _ _ refl refl, λ short. absurd (ground arith))
      ]
    ]
  ]
