-- ===== src/BitVector/Hashing.antt =====
-- The hashes of bitvectors.
use mathlib.Core.Path.{subst}
use py_pointless.Base.{
  ℕ, zero, suc, ◌+◌, ◌*◌, ◌%◌, ◌^◌, ◌≤◌, ◌<◌, ◌≡◌, refl, sym, ◌∙◌, Bool, some, ltb, ltb→lt, lt→ltb,
  if◌then◌else◌, bit_or, arith, inl, inr, Bool-cases,
}
use py_pointless.BitUtils.{Bytes}
use py_pointless.Value.{Tag}
use py_pointless.BitVector.{
  n_bits, bit_is_set, gather, hash_loop, hash_32_priv, hash_64_priv, hash_32, hash_64,
}

module _ (test test' : ℕ → Bool) (n : ℕ) (agree : (i : ℕ) → i < n → test i ≡ test' i) where
  gather_congr : (left j i b : ℕ) → gather test n left j i b ≡ gather test' n left j i b
  unfolding gather
  gather_congr zero j i b = refl
  gather_congr (suc left) j i b = elim (Bool-cases (ltb i n)) [
    | inl below ↦
        rw (below, agree i (ltb→lt i n below), gather)
          (gather_congr left (j + 1) (i + 1) (if test' i then bit_or b (2 ^ j) else b))
    | inr past ↦ rw (past, gather) refl
  ]

  hash_loop_congr : (w fuel i h : ℕ) → hash_loop w test n fuel i h ≡ hash_loop w test' n fuel i h
  unfolding hash_loop
  hash_loop_congr w zero i h = refl
  hash_loop_congr w (suc fuel) i h = elim (Bool-cases (ltb i n)) [
    | inl below ↦
        rw (below, gather_congr 8 0 i 0, hash_loop)
          (hash_loop_congr w fuel (gather test' n 8 0 i 0).1
            ((h * 1000000001 + (gather test' n 8 0 i 0).0) % 2 ^ w))
    | inr past ↦ rw (past, hash_loop) refl
  ]

module _ (test : ℕ → Bool) (n : ℕ) where
  gather-monotone : (left j i b : ℕ) → i ≤ (gather test n left j i b).1
  unfolding gather
  gather-monotone zero j i b = omega arith
  gather-monotone (suc left) j i b = elim (Bool-cases (ltb i n)) [
    | inl below ↦
        rw (below, gather)
          (omega
            (arith, gather-monotone left (j + 1) (i + 1) (if test i then bit_or b (2 ^ j) else b)))
    | inr past ↦ rw (past, gather) (omega arith)
  ]

  gather-advances : (i : ℕ) → i < n → i < (gather test n 8 0 i 0).1
  unfolding gather
  gather-advances i below =
      rw (lt→ltb i n below, gather)
        (omega (arith, gather-monotone 7 1 (i + 1) (if test i then bit_or 0 1 else 0)))

  hash_loop-total :
      (w fuel i h : ℕ) → n < i + fuel → 0 < fuel → (r : ℕ) × (hash_loop w test n fuel i h ≡ some r)
  unfolding hash_loop
  hash_loop-total w zero i h enough left = absurd (omega arith)
  hash_loop-total w (suc fuel) i h enough left = elim (Bool-cases (ltb i n)) [
    | inl below ↦
        rw (below, hash_loop)
          (hash_loop-total w fuel (gather test n 8 0 i 0).1
            ((h * 1000000001 + (gather test n 8 0 i 0).0) % 2 ^ w)
            (omega (arith, gather-advances i (ltb→lt i n below), ltb→lt i n below))
            (omega (arith, ltb→lt i n below)))
    | inr past ↦ rw (past, hash_loop) (h, refl)
  ]

-- Two tests that agree below the length give one result of the loop, on the fuel of the source's
-- callers.
pub same_hash_loop :
    (w : ℕ) (test : ℕ → Bool) (n : ℕ) (test' : ℕ → Bool) (n' : ℕ)
    → n ≡ n'
    → ((i : ℕ) → i < n → test i ≡ test' i)
    → (h : ℕ) × (hash_loop w test n (n + 1) 0 1 ≡ some h)
      × (hash_loop w test' n' (n' + 1) 0 1 ≡ some h)
same_hash_loop w test n test' n' lengths alike =
    let (h, total) = hash_loop-total test n w (n + 1) 0 1 (omega arith) (omega arith) in
    let agree = hash_loop_congr test test' n alike w (n + 1) 0 1 in
    (h, total, subst (λ m. hash_loop w test' m (m + 1) 0 1 ≡ some h) lengths (sym agree ∙ total))

-- Bitvectors with the same length and the same bits have the same hashes, of 32 and of 64 bits,
-- whatever their representations, and the loops end.
pub hash-extensional :
    (t : Tag) (v : ℕ) (buffer : Bytes) (t' : Tag) (v' : ℕ) (buffer' : Bytes)
    → n_bits t v buffer ≡ n_bits t' v' buffer'
    → ((i : ℕ) → i < n_bits t v buffer → bit_is_set t v buffer i ≡ bit_is_set t' v' buffer' i)
    → ((h : ℕ) × (hash_32 t v buffer ≡ some h) × (hash_32 t' v' buffer' ≡ some h))
      × ((h : ℕ) × (hash_64 t v buffer ≡ some h) × (hash_64 t' v' buffer' ≡ some h))
unfolding hash_32 hash_32_priv hash_64 hash_64_priv bit_is_set
hash-extensional t v buffer t' v' buffer' lengths alike =
    (same_hash_loop 32 _ _ _ _ lengths alike, same_hash_loop 64 _ _ _ _ lengths alike)
