-- ===== src/BitVector/Compare.antt =====
-- The comparisons of bitvectors, against the lexicographic order of their bits.
use mathlib.Core.Path.{subst}
use py_pointless.Base.{
  ℕ, zero, suc, ◌+◌, ◌≤◌, ◌<◌, ◌≡◌, ◌≢◌, refl, ap, ◌∙◌, Bool, true, false, ltb, ==_refl, ==_iff,
  ==→ne, ◌==◌, if◌then◌else◌, arith, inl, inr, Bool-cases, List, [], ◌∷◌,
}
use py_pointless.BitUtils.{Bytes, is_set}
use py_pointless.Value.{Tag, bitvector_0, bitvector_1}
use py_pointless.BitVector.{
  Sign, less, same, more, simple_cmp, to_nat, cmp_loop, cmp_bits, cmp_buffer_buffer,
  cmp_bits_buffer, cmp_buffer_bits, n_bits, bit_is_set, is_set_bits,
}

-- The `n` bits from `i` on
unfoldable pub bits_from : (ℕ → Bool) → ℕ → ℕ → List Bool
bits_from test zero i = []
bits_from test (suc n) i = test i ∷ bits_from test n (i + 1)

-- The lexicographic order, where a proper prefix is less
unfoldable pub lexicographic : List Bool → List Bool → Sign
lexicographic [] [] = same
lexicographic [] (_ ∷ _) = less
lexicographic (_ ∷ _) [] = more
lexicographic (false ∷ us) (false ∷ vs) = lexicographic us vs
lexicographic (true ∷ us) (true ∷ vs) = lexicographic us vs
lexicographic (false ∷ _) (true ∷ _) = less
lexicographic (true ∷ _) (false ∷ _) = more

ltb-suc : (a b : ℕ) → ltb (suc a) (suc b) ≡ ltb a b
ltb-suc a b = ground arith

==_suc : (a b : ℕ) → (suc a == suc b) ≡ (a == b)
==_suc a b = ground arith

simple_cmp-suc : (a b : ℕ) → simple_cmp (suc a) (suc b) ≡ simple_cmp a b
unfolding simple_cmp
simple_cmp-suc a b = rw (==_suc a b, ltb-suc a b) refl

min_suc :
    (a b : ℕ) → (if ltb (suc a) (suc b) then suc a else suc b) ≡ suc (if ltb a b then a else b)
min_suc a b = rw (ltb-suc a b) (go (ltb a b))
  where
    go : (t : Bool) → (if t then suc a else suc b) ≡ suc (if t then a else b)
    go true = refl
    go false = refl

min_zero : (b : ℕ) → (if ltb (suc b) 0 then suc b else 0) ≡ 0
min_zero b = ground arith

min_zero' : (b : ℕ) → (if ltb 0 (suc b) then 0 else suc b) ≡ 0
min_zero' b = ground arith

module _ (ba bb : ℕ → Bool) where
  -- The loop, as it meets the bits at `i`
  step :
      (x y : Bool) (us vs : List Bool) (rest : Sign)
      → rest ≡ lexicographic us vs
      → (if to_nat x == to_nat y then rest else simple_cmp (to_nat x) (to_nat y))
        ≡ lexicographic (x ∷ us) (y ∷ vs)
  unfolding lexicographic simple_cmp
  step false false us vs rest e = e
  step true true us vs rest e = e
  step false true us vs rest e = refl
  step true false us vs rest e = refl

  cmp_loop-lexicographic :
      (na nb i : ℕ)
      → cmp_loop ba bb (if ltb na nb then na else nb) i (simple_cmp na nb)
        ≡ lexicographic (bits_from ba na i) (bits_from bb nb i)
  unfolding cmp_loop lexicographic bits_from
  cmp_loop-lexicographic zero zero i = unfold simple_cmp in refl
  cmp_loop-lexicographic zero (suc nb) i = rw (min_zero' nb) (unfold simple_cmp in ground arith)
  cmp_loop-lexicographic (suc na) zero i = rw (min_zero na) (unfold simple_cmp in ground arith)
  cmp_loop-lexicographic (suc na) (suc nb) i =
      rw (min_suc na nb, simple_cmp-suc na nb)
        (step (ba i) (bb i) (bits_from ba na (i + 1)) (bits_from bb nb (i + 1)) _
          (cmp_loop-lexicographic na nb (i + 1)))

-- The bits of a value, and of `n` bits in memory
abbrev pub bits_in : Tag → ℕ → Bytes → List Bool
bits_in t v buffer = bits_from (bit_is_set t v buffer) (n_bits t v buffer) 0

abbrev pub raw_bits : ℕ → Bytes → List Bool
raw_bits n bits = bits_from (is_set bits) n 0

-- A bitvector, in any representation, and the bits of a buffer in memory are compared
-- lexicographically.
pub cmp_buffer_bits-lexicographic :
    (t : Tag) (v : ℕ) (buffer : Bytes) (n : ℕ) (bits : Bytes)
    → cmp_buffer_bits t v buffer n bits ≡ lexicographic (bits_in t v buffer) (raw_bits n bits)
unfolding cmp_buffer_bits cmp_bits
cmp_buffer_bits-lexicographic t v buffer n bits =
    cmp_loop-lexicographic (bit_is_set t v buffer) (is_set bits) (n_bits t v buffer) n 0

-- The bits of a buffer in memory and a bitvector, in any representation, are compared
-- lexicographically.
pub cmp_bits_buffer-lexicographic :
    (n : ℕ) (bits : Bytes) (t : Tag) (v : ℕ) (buffer : Bytes)
    → cmp_bits_buffer n bits t v buffer ≡ lexicographic (raw_bits n bits) (bits_in t v buffer)
unfolding cmp_bits_buffer cmp_bits
cmp_bits_buffer-lexicographic n bits t v buffer =
    cmp_loop-lexicographic (is_set bits) (bit_is_set t v buffer) n (n_bits t v buffer) 0

-- Two bitvectors of one representation are compared lexicographically.
pub cmp_buffer_buffer-lexicographic :
    (t : Tag) (v : ℕ) (buffer : Bytes) (v' : ℕ) (buffer' : Bytes)
    → cmp_buffer_buffer t v buffer t v' buffer'
      ≡ lexicographic (bits_in t v buffer) (bits_in t v' buffer')
unfolding cmp_buffer_buffer cmp_bits
cmp_buffer_buffer-lexicographic t v buffer v' buffer' =
    cmp_loop-lexicographic (bit_is_set t v buffer) (bit_is_set t v' buffer') (n_bits t v buffer)
      (n_bits t v' buffer') 0

simple_cmp_refl : (n : ℕ) → simple_cmp n n ≡ same
unfolding simple_cmp
simple_cmp_refl n = rw (==_refl n) refl

cmp_loop-same : (test : ℕ → Bool) (n i : ℕ) (rest : Sign) → cmp_loop test test n i rest ≡ rest
unfolding cmp_loop
cmp_loop-same test zero i rest = refl
cmp_loop-same test (suc n) i rest =
    rw (==_refl (to_nat (test i))) (cmp_loop-same test n (i + 1) rest)

-- Between the representations of all zeros and of all ones the comparison sees lengths only: of
-- `n` bits each, they compare as the same, although all of their bits differ.
pub cmp_buffer_buffer-mixed :
    (n : ℕ) (buffer buffer' : Bytes)
    → (cmp_buffer_buffer bitvector_0 n buffer bitvector_1 n buffer' ≡ same)
      × ((i : ℕ) → bit_is_set bitvector_0 n buffer i ≢ bit_is_set bitvector_1 n buffer' i)
unfolding cmp_buffer_buffer cmp_bits n_bits bit_is_set is_set_bits
cmp_buffer_buffer-mixed n buffer buffer' = (
  cmp_loop-same (λ _. false) (if ltb n n then n else n) 0 (simple_cmp n n) ∙ simple_cmp_refl n,
  λ i. λ e. cc,
)

-- Lists of bits that compare as the same are the same.
pub lexicographic-same : (us vs : List Bool) → lexicographic us vs ≡ same → us ≡ vs
unfolding lexicographic
lexicographic-same [] [] e = refl
lexicographic-same [] (_ ∷ _) e = cc
lexicographic-same (_ ∷ _) [] e = cc
lexicographic-same (false ∷ us) (false ∷ vs) e = ap (false ∷◌) (lexicographic-same us vs e)
lexicographic-same (true ∷ us) (true ∷ vs) e = ap (true ∷◌) (lexicographic-same us vs e)
lexicographic-same (false ∷ _) (true ∷ _) e = cc
lexicographic-same (true ∷ _) (false ∷ _) e = cc

pub length_of : (f g : ℕ → Bool) (n m i j : ℕ) → bits_from f n i ≡ bits_from g m j → n ≡ m
unfolding bits_from
length_of f g zero zero i j e = refl
length_of f g zero (suc m) i j e = cc
length_of f g (suc n) zero i j e = cc
length_of f g (suc n) (suc m) i j e = ap suc (length_of f g n m (i + 1) (j + 1) cc)

tails : (x y : Bool) {us vs : List Bool} → x ∷ us ≡ y ∷ vs → us ≡ vs
tails x y e = cc

pub bits_of_equal :
    (f g : ℕ → Bool) (n i m : ℕ) → bits_from f n i ≡ bits_from g n i → i ≤ m → m < i + n → f m ≡ g m
unfolding bits_from
bits_of_equal f g zero i m e from to = absurd (omega arith)
bits_of_equal f g (suc n) i m e from to = elim (Bool-cases (i == m)) [
  | inl here ↦ subst (λ k. f k ≡ g k) ((==_iff i m).0 here) cc
  | inr later ↦
      bits_of_equal f g n (i + 1) m (tails (f i) (g i) e) (omega (arith, ==→ne i m later))
        (omega arith)
]

cmp_loop_refl :
    (test : ℕ → Bool) (left i : ℕ) (rest : Sign)
    → rest ≡ same
    → cmp_loop test test left i rest ≡ same
unfolding cmp_loop
cmp_loop_refl test zero i rest e = e
cmp_loop_refl test (suc left) i rest e =
    rw (==_refl (to_nat (test i))) (cmp_loop_refl test left (i + 1) rest e)

pub cmp_buffer_buffer_refl :
    (t : Tag) (v : ℕ) (buffer : Bytes) → cmp_buffer_buffer t v buffer t v buffer ≡ same
unfolding cmp_buffer_buffer cmp_bits
cmp_buffer_buffer_refl t v buffer =
    cmp_loop_refl (bit_is_set t v buffer) _ 0 _ (simple_cmp_refl (n_bits t v buffer))
