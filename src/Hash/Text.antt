-- ===== src/Hash/Text.antt =====
-- The hashes of strings.
use py_pointless.Base.{
  ℕ, zero, suc, ◌+◌, ◌*◌, ◌^◌, ◌<◌, ◌≡◌, ◌≢◌, ◌↔◌, ◌⊎◌, inl, inr, sym, ap, ◌++◌, ◌∙◌, refl, some,
  List, [], ◌∷◌, ne→==, arith, length, bit_xor, u32, shl,
}
use py_pointless.Base.Bits.{bit_xor_zero}
use mathlib.Core.List.{cons-ne-nil}
use mathlib.Core.Option.{some-injective}
use py_pointless.Strings.Laws.{Units, ended}
use py_pointless.Hash.{mix, hash_units, hash_string, hash_n_units, hash_string_n}

-- The hash of units without their end
pub hash_of : List ℕ → ℕ → ℕ → ℕ
hash_of [] x n = u32 (bit_xor x n)
hash_of (c ∷ s) x n = hash_of s (mix x c) (n + 1)

hash_units-ended :
    (m : ℕ) (s rest : List ℕ) (x n : ℕ)
    → Units m s
    → hash_units (ended s rest) x n ≡ some (hash_of s x n)
unfolding hash_units hash_of
hash_units-ended m [] rest x n h = refl
hash_units-ended m (c ∷ s) rest x n (hc, hs) =
    rw (ne→== c 0 (omega arith), hash_units) (hash_units-ended m s rest (mix x c) (n + 1) hs)

hash_n_units-ended :
    (s rest : List ℕ) (x n : ℕ) → hash_n_units (ended s rest) (length s) x n ≡ some (hash_of s x n)
unfolding hash_n_units hash_of
hash_n_units-ended [] rest x n = refl
hash_n_units-ended (c ∷ s) rest x n = hash_n_units-ended s rest (mix x c) (n + 1)

-- The hash starts from the first unit, which is the zero of an empty string.
first : List ℕ → ℕ
first [] = 0
first (c ∷ s) = c

-- A string that ends in a zero has a hash, and it is the one of its length many units. It depends
-- on the units alone, and not on what stands behind the end.
pub hash_string-hash_string_n :
    (m : ℕ) (s rest rest' : List ℕ)
    → Units m s
    → (h : ℕ) × (hash_string (ended s rest) ≡ some h)
      × (hash_string_n (ended s rest') (length s) ≡ some h)
unfolding hash_string hash_string_n first
hash_string-hash_string_n m [] rest rest' h = (
  hash_of [] (u32 (shl (u32 0) 7)) 0,
  hash_units-ended m [] rest _ 0 h,
  hash_n_units-ended [] rest' _ 0,
)
hash_string-hash_string_n m (c ∷ s) rest rest' h = (
  hash_of (c ∷ s) (u32 (shl (u32 c) 7)) 0,
  hash_units-ended m (c ∷ s) rest _ 0 h,
  hash_n_units-ended (c ∷ s) rest' _ 0,
)

-- A hash has 32 bits.
hash_n_units-small : (s : List ℕ) (left x n h : ℕ) → hash_n_units s left x n ≡ some h → h < 2 ^ 32
unfolding hash_n_units
hash_n_units-small s zero x n h e = omega (arith, some-injective (u32 (bit_xor x n)) h e)
hash_n_units-small [] (suc left) x n h e = cc
hash_n_units-small (c ∷ s) (suc left) x n h e = hash_n_units-small s left (mix x c) (n + 1) h e

pub hash_string_n-small : (s : List ℕ) (n h : ℕ) → hash_string_n s n ≡ some h → h < 2 ^ 32
unfolding hash_string_n
hash_string_n-small [] n h e = cc
hash_string_n-small (c ∷ s) n h e = hash_n_units-small (c ∷ s) n _ 0 h e

hash_string-empty : (rest : List ℕ) → hash_string (ended [] rest) ≡ some 0
unfolding hash_string hash_units
hash_string-empty rest = refl

-- No units: the hash is 128 times the unit at the pointer.
hash_string_n-empty :
    (c : ℕ) (rest : List ℕ) → c < 256 → hash_string_n (c ∷ rest) 0 ≡ some (c * 128)
unfolding hash_string_n hash_n_units
hash_string_n-empty c rest small =
    let shifted : u32 (shl (u32 c) 7) ≡ c * 128 = omega arith in
    rw (shifted, bit_xor_zero (c * 128))
      (ap some (let whole : u32 (c * 128) ≡ c * 128 = omega arith in whole))

hash_n_units-prefix :
    (s r r' : List ℕ) (x n : ℕ)
    → hash_n_units (s ++ r) (length s) x n ≡ hash_n_units (s ++ r') (length s) x n
unfolding hash_n_units
hash_n_units-prefix [] r r' x n = refl
hash_n_units-prefix (c ∷ s) r r' x n = hash_n_units-prefix s r r' (mix x c) (n + 1)

-- The hash of the bytes of a key that is given with their number, with the byte `c` behind them, is
-- the one of the string of these bytes, ended by a zero, if and only if there is one, or `c` is 0.
pub hash_string_n_iff :
    (s : List ℕ) (c : ℕ) (rest rest' : List ℕ)
    → Units 256 s
    → c < 256
    → (hash_string_n (s ++ c ∷ rest) (length s) ≡ hash_string (ended s rest'))
      ↔ ((s ≢ []) ⊎ (c ≡ 0))
unfolding hash_string_n
hash_string_n_iff [] c rest rest' h small =
    rw (hash_string_n-empty c rest small, hash_string-empty rest')
      (
        (λ e. inr (let zero : c * 128 ≡ 0 = some-injective _ _ e in omega (arith, zero))),
        (λ r. elim r [ inl ne ↦ absurd (ne refl) | inr e ↦ rw e refl ]),
      )
hash_string_n_iff (d ∷ s) c rest rest' h small =
    let (x, there, same) = hash_string-hash_string_n 256 (d ∷ s) rest' (c ∷ rest) h in
    (
      (λ e. inl (cons-ne-nil d s)),
      (λ r.
          hash_n_units-prefix (d ∷ s) (c ∷ rest) (0 ∷ c ∷ rest) (u32 (shl (u32 d) 7)) 0
          ∙ same
          ∙ sym there),
    )
