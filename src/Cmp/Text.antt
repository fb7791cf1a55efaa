-- ===== src/Cmp/Text.antt =====
-- Strings that end in a zero are compared lexicographically.
use py_pointless.Base.{
  ℕ, ◌≡◌, refl, true, false, some, List, [], ◌∷◌, ◌++◌, ne→==, ==_iff, ◌==◌, arith, length, inl,
  inr, Bool-cases,
}
use py_pointless.Strings.Laws.{Units, ended}
use py_pointless.BitVector.{Sign, less, same, more, simple_cmp}
use py_pointless.Cmp.{cmp_string, cmp_rest, cmp_string_n}

-- The lexicographic order of lists of units, where a proper prefix is less
unfoldable pub order : List ℕ → List ℕ → Sign
unfolding simple_cmp
order [] [] = same
order [] (_ ∷ _) = less
order (_ ∷ _) [] = more
order (x ∷ us) (y ∷ vs) = elim (x == y) [ true ↦ order us vs | false ↦ simple_cmp x y ]

-- Two strings of units of any widths, each ended by a zero, are compared lexicographically, and
-- nothing behind the ends is read.
pub cmp_string-order :
    (m k : ℕ) (us vs rest rest' : List ℕ)
    → Units m us
    → Units k vs
    → cmp_string (ended us rest) (ended vs rest') ≡ some (order us vs)
unfolding cmp_string order simple_cmp
cmp_string-order m k [] [] rest rest' hu hv = refl
cmp_string-order m k [] (y ∷ vs) rest rest' hu (hy, hv) = ground arith
cmp_string-order m k (x ∷ us) [] rest rest' (hx, hu) hv = ground arith
cmp_string-order m k (x ∷ us) (y ∷ vs) rest rest' (hx, hu) (hy, hv) = elim (Bool-cases (x == y)) [
  | inl e ↦
      rw (e, ne→== x 0 (omega arith), cmp_string, order)
        (cmp_string-order m k us vs rest rest' hu hv)
  | inr ne ↦ rw (ne, cmp_string, order) refl
]

-- A string that ends in a zero and a number of units that are given without one are compared
-- lexicographically.
pub cmp_string_n-order :
    (m : ℕ) (us vs rest rest' : List ℕ)
    → Units m us
    → cmp_string_n (ended us rest) (vs ++ rest') (length vs) ≡ some (order us vs)
unfolding cmp_string_n cmp_rest order simple_cmp
cmp_string_n-order m [] [] rest rest' hu = refl
cmp_string_n-order m [] (y ∷ vs) rest rest' hu = refl
cmp_string_n-order m (x ∷ us) [] rest rest' (hx, hu) = ground arith
cmp_string_n-order m (x ∷ us) (y ∷ vs) rest rest' (hx, hu) = elim (Bool-cases (x == y)) [
  | inl e ↦
      rw (e, ne→== x 0 (omega arith), cmp_string_n, order)
        (cmp_string_n-order m us vs rest rest' hu)
  | inr ne ↦
      let nonzero : (x == 0) ≡ false = ne→== x 0 (omega arith) in
      rw (ne, nonzero, cmp_string_n, order) (unfold cmp_rest in rw (nonzero, ne) refl)
]

-- Only equal lists of units compare as the same.
pub order-same : (us vs : List ℕ) → order us vs ≡ same → us ≡ vs
unfolding order simple_cmp
order-same [] [] e = refl
order-same [] (y ∷ vs) e = cc
order-same (x ∷ us) [] e = cc
order-same (x ∷ us) (y ∷ vs) e = elim (Bool-cases (x == y)) [
  | inl eq ↦
      let heads : x ≡ y = (==_iff x y).0 eq in
      let tails : us ≡ vs = order-same us vs (rw (eq, order) at e) in cc
  | inr ne ↦ absurd (ground arith)
]
