-- ===== src/Create/Vectors/Fitting.antt =====
-- A compressed vector has room for each of its items.
use py_pointless.Base.{
  ◌≡◌, refl, Bool, true, false, ◌&&◌, Bool-cases, arith, ◌⊎◌, inl, inr, if◌then◌else◌,
}
use mathlib.Core.Path.{subst}
use py_pointless.Base.Int.{ℤ, pos, negsuc, is_negative}
use py_pointless.Create.Vectors.{
  leb_ℤ, Kind, integer, real, incompressible, Range, Compressed, compressed, fault, unsigned_type,
  signed_type, range_type,
}
use py_pointless.Create.Vectors.Covering.{leb_ℤ_trans, Covers}
use py_pointless.Value.{
  Tag, vector_i8, vector_u8, vector_i16, vector_u16, vector_i32, vector_u32, vector_float,
}

abbrev pub InRange : ℤ → ℤ → ℤ → Type 0
InRange lo hi i = (leb_ℤ lo i ≡ true) × (leb_ℤ i hi ≡ true)

-- The items that a vector of numbers has room for
abbrev pub Fits : Tag → Kind → Type 0
Fits vector_i8 (integer i) = InRange (negsuc 0x7f) (pos 0x7f) i
Fits vector_u8 (integer i) = InRange (pos 0) (pos 0xff) i
Fits vector_i16 (integer i) = InRange (negsuc 0x7fff) (pos 0x7fff) i
Fits vector_u16 (integer i) = InRange (pos 0) (pos 0xffff) i
Fits vector_i32 (integer i) = InRange (negsuc 0x7fff_ffff) (pos 0x7fff_ffff) i
Fits vector_u32 (integer i) = InRange (pos 0) (pos 0xffff_ffff) i
Fits vector_float real = Unit
Fits _ _ = ⊥

type_is :
    (b : Bool) (u t : Tag) (rest : Compressed)
    → (if b then compressed u else rest) ≡ compressed t
    → ((b ≡ true) × (u ≡ t)) ⊎ ((b ≡ false) × (rest ≡ compressed t))
type_is true u t rest h = inl (refl, cc)
type_is false u t rest h = inr (refl, h)

no_type : (t : Tag) → fault ≡ compressed t → ⊥
no_type t h = cc

both : (a b : Bool) → a && b ≡ true → (a ≡ true) × (b ≡ true)
both true true h = (refl, refl)
both true false h = cc
both false b h = cc

-- The range of a type that was found
narrowed :
    (lo hi min max i : ℤ)
    → leb_ℤ lo min && leb_ℤ max hi ≡ true
    → leb_ℤ min i ≡ true
    → leb_ℤ i max ≡ true
    → InRange lo hi i
narrowed lo hi min max i within above below =
    let (from, to) = both (leb_ℤ lo min) (leb_ℤ max hi) within in
    (leb_ℤ_trans lo min i from above, leb_ℤ_trans i max hi below to)

unsigned_type-Fits :
    (max i : ℤ) (t : Tag)
    → unsigned_type max ≡ compressed t
    → leb_ℤ (pos 0) i ≡ true
    → leb_ℤ i max ≡ true
    → Fits t (integer i)
unfolding unsigned_type
unsigned_type-Fits max i t h above below = elim (type_is (leb_ℤ max (pos 0xff)) vector_u8 t _ h) [
  | inl (e, same) ↦
      subst (λ u. Fits u (integer i)) same (above, leb_ℤ_trans i max (pos 0xff) below e)
  | inr (_, h1) ↦ elim (type_is (leb_ℤ max (pos 0xffff)) vector_u16 t _ h1) [
    | inl (e, same) ↦
        subst (λ u. Fits u (integer i)) same (above, leb_ℤ_trans i max (pos 0xffff) below e)
    | inr (_, h2) ↦ elim (type_is (leb_ℤ max (pos 0xffff_ffff)) vector_u32 t _ h2) [
      | inl (e, same) ↦
          subst (λ u. Fits u (integer i)) same (above, leb_ℤ_trans i max (pos 0xffff_ffff) below e)
      | inr (_, h3) ↦ absurd (no_type t h3)
    ]
  ]
]

signed_type-Fits :
    (min max i : ℤ) (t : Tag)
    → signed_type min max ≡ compressed t
    → leb_ℤ min i ≡ true
    → leb_ℤ i max ≡ true
    → Fits t (integer i)
unfolding signed_type
signed_type-Fits min max i t h above below =
    elim (type_is (leb_ℤ (negsuc 0x7f) min && leb_ℤ max (pos 0x7f)) vector_i8 t _ h) [
      | inl (e, same) ↦
          subst (λ u. Fits u (integer i)) same
            (narrowed (negsuc 0x7f) (pos 0x7f) min max i e above below)
      | inr (_, h1) ↦
          elim (type_is (leb_ℤ (negsuc 0x7fff) min && leb_ℤ max (pos 0x7fff)) vector_i16 t _ h1) [
            | inl (e, same) ↦
                subst (λ u. Fits u (integer i)) same
                  (narrowed (negsuc 0x7fff) (pos 0x7fff) min max i e above below)
            | inr (_, h2) ↦
                elim (type_is (leb_ℤ (negsuc 0x7fff_ffff) min && leb_ℤ max (pos 0x7fff_ffff))
                  vector_i32 t _ h2) [
                    | inl (e, same) ↦
                        subst (λ u. Fits u (integer i)) same
                          (narrowed (negsuc 0x7fff_ffff) (pos 0x7fff_ffff) min max i e above below)
                    | inr (_, h3) ↦ absurd (no_type t h3)
                  ]
          ]
    ]

not_negative : (m i : ℤ) → is_negative m ≡ false → leb_ℤ m i ≡ true → leb_ℤ (pos 0) i ≡ true
unfolding leb_ℤ
not_negative (pos m) (pos i) h h' = ground arith
not_negative (pos m) (negsuc i) h h' = cc
not_negative (negsuc m) i h h' = cc

float_type : (t : Tag) → compressed vector_float ≡ compressed t → vector_float ≡ t
float_type t h = cc

pub range_type-Fits :
    (r : Range) (k : Kind) (t : Tag) → range_type r ≡ compressed t → Covers r k → Fits t k
unfolding range_type
range_type-Fits r real t h (e, _) = subst (λ u. Fits u real) (float_type t (rw e at h)) tt
range_type-Fits r (integer i) t h (_, e, above, below) = elim (Bool-cases (is_negative r.min_int)) [
  | inl neg ↦ signed_type-Fits r.min_int r.max_int i t (rw neg at (rw e at h)) above below
  | inr nonneg ↦
      unsigned_type-Fits r.max_int i t (rw nonneg at (rw e at h))
        (not_negative r.min_int i nonneg above) below
]
range_type-Fits r incompressible t h covers = absurd covers
