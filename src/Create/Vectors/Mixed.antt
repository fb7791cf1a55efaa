-- ===== src/Create/Vectors/Mixed.antt =====
-- Integers that no type of vectors has room for together.
use py_pointless.Base.{
  ℕ, ◌^◌, ◌<◌, ◌≤◌, ◌≡◌, refl, ◌∙◌, ap, Bool, true, false, ◌&&◌, ◌⊎◌, All, arith, some, none, List,
  [], ◌∷◌, Bool-cases, inl, inr, if◌then◌else◌,
}
use mathlib.Core.Path.{subst}
use py_pointless.Base.Int.{ℤ, pos, negsuc, is_negative}
use py_pointless.Create.Vectors.{
  leb_ℤ, integer, Range, no_range, expanded, range_step, range_after, scan, fault, signed_type,
  range_type, scanned, vector_compression,
}
use py_pointless.Create.Vectors.Covering.{Covers, kind, scan-Covers}
use py_pointless.Value.Accessors.{CreateValue}

-- An item of the list has the property.
abbrev pub Any : {A : Type 0} → (A → Type 0) → List A → Type 0
Any P [] = ⊥
Any P (x ∷ xs) = P x ⊎ Any P xs

abbrev pub IsInteger : CreateValue → Type 0
IsInteger x = (i : ℤ) × (kind x ≡ integer i)

-- A negative integer, and one above the signed ones of 32 bits
abbrev pub IsNegative : CreateValue → Type 0
IsNegative x = (n : ℕ) × (kind x ≡ integer (negsuc n))

abbrev pub IsLarge : CreateValue → Type 0
IsLarge x = (n : ℕ) × (2 ^ 31 ≤ n) × (kind x ≡ integer (pos n))

all-any : {A : Type 0} (P Q : A → Type 0) (xs : List A) → All P xs → Any Q xs → (x : A) × P x × Q x
all-any P Q (x ∷ xs) (p, ps) (inl q) = (x, p, q)
all-any P Q (x ∷ xs) (p, ps) (inr qs) = all-any P Q xs ps qs
all-any P Q [] ps qs = absurd qs

if_false : (b : Bool) (q : Range) → b ≡ false → (if b then none else some q) ≡ some q
if_false false q e = refl
if_false true q e = cc

-- The loop leaves with a range where all items are integers.
scan_integers :
    (items : List CreateValue) (r : Range)
    → r.init_float ≡ false
    → All IsInteger items
    → (r' : Range) × (scan items r ≡ some r')
unfolding scan
scan_integers [] r e ints = (r, refl)
scan_integers (x ∷ items) r e ((i, is_int), ints) =
    let no_float : (expanded i r).init_float ≡ false = elim (Bool-cases r.init_int) [
      | inl h ↦ rw h e
      | inr h ↦ rw h e
    ] in
    let (r', h) = scan_integers items (expanded i r) no_float ints in
    (
      r',
      ap (λ k. range_after (range_step k r) (λ q. scan items q)) is_int
          ∙ ap (λ o. range_after o (λ q. scan items q)) (if_false r.init_float (expanded i r) e)
          ∙ h,
    )

negative_min : (m : ℤ) (n : ℕ) → leb_ℤ m (negsuc n) ≡ true → is_negative m ≡ true
unfolding leb_ℤ
negative_min (pos m) n h = cc
negative_min (negsuc m) n h = refl

too_large : (m : ℤ) (n k : ℕ) → leb_ℤ (pos n) m ≡ true → k < n → leb_ℤ m (pos k) ≡ false
unfolding leb_ℤ
too_large (pos m) n k h lt = ground arith
too_large (negsuc m) n k h lt = cc

and_false : (a b : Bool) → b ≡ false → a && b ≡ false
and_false true b e = e
and_false false b e = refl

range_type-fault :
    (r : Range) (n k : ℕ)
    → Covers r (integer (negsuc n))
    → Covers r (integer (pos k))
    → 2 ^ 31 ≤ k
    → range_type r ≡ fault
unfolding range_type signed_type
range_type-fault r n k (_, no_float, low, _) (_, _, _, high) large =
    rw
      (
        no_float,
        negative_min r.min_int n low,
        and_false (leb_ℤ (negsuc 0x7f) r.min_int) (leb_ℤ r.max_int (pos 0x7f))
            (too_large r.max_int k 0x7f high (omega (arith, large))),
        and_false (leb_ℤ (negsuc 0x7fff) r.min_int) (leb_ℤ r.max_int (pos 0x7fff))
            (too_large r.max_int k 0x7fff high (omega (arith, large))),
        and_false (leb_ℤ (negsuc 0x7fff_ffff) r.min_int) (leb_ℤ r.max_int (pos 0x7fff_ffff))
            (too_large r.max_int k 0x7fff_ffff high (omega (arith, large))),
      )
      refl

-- Where all items are integers, one of them is negative and another one is at least 2 ^ 31, no type
-- is found, and the assertion behind the tests fails.
pub vector_compression-mixed :
    (items : List CreateValue)
    → All IsInteger items
    → Any IsNegative items
    → Any IsLarge items
    → vector_compression items ≡ fault
unfolding vector_compression
vector_compression-mixed [] ints neg large = refl
vector_compression-mixed (x ∷ items) ints neg large =
    let (r, found) = scan_integers (x ∷ items) no_range refl ints in
    let covers = (scan-Covers (x ∷ items) no_range r found).0 in
    let (y, covers_y, (n, is_n)) =
      all-any (λ z. Covers r (kind z)) IsNegative (x ∷ items) covers neg in
    let (z, covers_z, (k, big, is_k)) =
      all-any (λ z. Covers r (kind z)) IsLarge (x ∷ items) covers large in
    ap scanned found
    ∙ range_type-fault r n k (subst (Covers r) is_n covers_y) (subst (Covers r) is_k covers_z) big
