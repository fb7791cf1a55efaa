-- ===== src/Create/Vectors/RoundTrip.antt =====
-- What is written of the items of a compressed vector is read back as the same numbers.
use py_pointless.Base.{
  ℕ, ◌%◌, ◌^◌, ◌<◌, ◌≡◌, refl, sym, ◌∙◌, ap, true, Option, none, some, List, [], ◌∷◌, All, arith,
}
use mathlib.Core.Path.{subst}
use py_pointless.Base.Int.{ℤ, pos, negsuc, signed, pattern_of}
use py_pointless.Create.Vectors.{
  leb_ℤ, Kind, integer, real, incompressible, Range, no_range, scan, compressed, range_type,
  scanned, vector_compression, item_width, cast_item, write_item,
}
use py_pointless.Create.Vectors.Covering.{Covers, kind, scan-Covers}
use py_pointless.Create.Vectors.Fitting.{InRange, Fits, range_type-Fits}
use py_pointless.Reader.{Pointless}
use py_pointless.Reader.Items.{item, vector_value_case}
use py_pointless.Value.{
  Tag, CompleteValue, value_from_complete, float, vector_i8, vector_u8, vector_i16, vector_u16,
  vector_i32, vector_u32, vector_float,
}
use py_pointless.Value.Accessors.{
  CreateValue, get_int_as_int64, get_float, complete_i32, complete_u32, complete_float,
}
use py_pointless.Create.Vectors.Numbers.{
  SameNumber, HasInt, kind_of-HasInt, kind_of-float, small, signed_cast_8, signed_cast_16,
  signed_cast_32, complete_i32-SameNumber, complete_u32-SameNumber,
}
use py_pointless.Create.Vectors.Covering.{leb_ℤ_trans}
use mathlib.Core.Option.{map}

-- An item is written, and where its bytes stand as item `i` of a vector of a file, it is read as
-- the same number.
abbrev pub ReadsBack : Tag → CreateValue → Type 0
ReadsBack t x =
    (w : ℕ) × (write_item t x ≡ some w)
    × ((p : Pointless) (v i : ℕ)
        → item (item_width t) p t v i ≡ some w
        → (c : CompleteValue) × (vector_value_case p t v i ≡ some c) × SameNumber x c)

-- An integer that is written with `bits` bits, and read with `f`
integer_reads :
    (t : Tag) (x : CreateValue) (i : ℤ) (bits : ℕ) (f : ℕ → CompleteValue)
    → write_item t x ≡ cast_item bits x
    → ((p : Pointless) (v j : ℕ) → vector_value_case p t v j ≡ map f (item (item_width t) p t v j))
    → HasInt x.header.type_29 x.data_u32 i
    → SameNumber x (f (pattern_of 64 i % 2 ^ bits))
    → ReadsBack t x
integer_reads t x i bits f written read (int_is, no_float) same = (
  pattern_of 64 i % 2 ^ bits,
  written ∙ ap (λ o. map (λ k. pattern_of 64 k % 2 ^ bits) o) int_is,
  λ p v j at. (f (pattern_of 64 i % 2 ^ bits), read p v j ∙ ap (λ o. map f o) at, same),
)

-- The bounds of a narrower type are among those of 32 bits.
widened :
    (lo hi i : ℤ)
    → leb_ℤ (negsuc 0x7fff_ffff) lo ≡ true
    → leb_ℤ hi (pos 0x7fff_ffff) ≡ true
    → InRange lo hi i
    → InRange (negsuc 0x7fff_ffff) (pos 0x7fff_ffff) i
widened lo hi i from to (above, below) =
    (leb_ℤ_trans (negsuc 0x7fff_ffff) lo i from above, leb_ℤ_trans i hi (pos 0x7fff_ffff) below to)

module _ (x : CreateValue) where
  abbrev IsInt : ℤ → Type 0
  IsInt i = HasInt x.header.type_29 x.data_u32 i

  signed_same :
      (i : ℤ) (m : ℤ)
      → IsInt i
      → m ≡ i
      → InRange (negsuc 0x7fff_ffff) (pos 0x7fff_ffff) i
      → SameNumber x (complete_i32 m)
  signed_same i m int e within =
      subst (λ k. SameNumber x (complete_i32 k)) (sym e) (complete_i32-SameNumber x i int within)

  unsigned_same : (n m : ℕ) → IsInt (pos n) → m ≡ n → n < 2 ^ 32 → SameNumber x (complete_u32 m)
  unsigned_same n m int e lt =
      subst (λ k. SameNumber x (complete_u32 k)) (sym e) (complete_u32-SameNumber x n int lt)

  integer-ReadsBack : (t : Tag) (i : ℤ) → IsInt i → Fits t (integer i) → ReadsBack t x
  unfolding write_item vector_value_case leb_ℤ
  integer-ReadsBack vector_i8 i int fits =
      integer_reads vector_i8 x i 8 (λ w. complete_i32 (signed 8 w)) refl (λ p v j. refl) int
        (signed_same i (signed 8 (pattern_of 64 i % 2 ^ 8)) int (signed_cast_8 i fits)
          (widened (negsuc 0x7f) (pos 0x7f) i refl refl fits))
  integer-ReadsBack vector_i16 i int fits =
      integer_reads vector_i16 x i 16 (λ w. complete_i32 (signed 16 w)) refl (λ p v j. refl) int
        (signed_same i (signed 16 (pattern_of 64 i % 2 ^ 16)) int (signed_cast_16 i fits)
          (widened (negsuc 0x7fff) (pos 0x7fff) i refl refl fits))
  integer-ReadsBack vector_i32 i int fits =
      integer_reads vector_i32 x i 32 (λ w. complete_i32 (signed 32 w)) refl (λ p v j. refl) int
        (signed_same i (signed 32 (pattern_of 64 i % 2 ^ 32)) int (signed_cast_32 i fits) fits)
  integer-ReadsBack vector_u8 (pos n) int (_, h) =
      let le = small n 0xff h in
      integer_reads vector_u8 x (pos n) 8 complete_u32 refl (λ p v j. refl) int
        (unsigned_same n (n % 2 ^ 8) int (omega (arith, le)) (omega (arith, le)))
  integer-ReadsBack vector_u16 (pos n) int (_, h) =
      let le = small n 0xffff h in
      integer_reads vector_u16 x (pos n) 16 complete_u32 refl (λ p v j. refl) int
        (unsigned_same n (n % 2 ^ 16) int (omega (arith, le)) (omega (arith, le)))
  integer-ReadsBack vector_u32 (pos n) int (_, h) =
      let le = small n 0xffff_ffff h in
      integer_reads vector_u32 x (pos n) 32 complete_u32 refl (λ p v j. refl) int
        (unsigned_same n (n % 2 ^ 32) int (omega (arith, le)) (omega (arith, le)))
  integer-ReadsBack vector_u8 (negsuc n) int (h, _) = cc
  integer-ReadsBack vector_u16 (negsuc n) int (h, _) = cc
  integer-ReadsBack vector_u32 (negsuc n) int (h, _) = cc
  integer-ReadsBack _ i int fits = absurd fits

  float-ReadsBack :
      (t : Tag) → x.header.type_29 ≡ float → x.data_u32 < 2 ^ 32 → Fits t real → ReadsBack t x
  unfolding write_item vector_value_case get_int_as_int64 get_float value_from_complete
      complete_float
  float-ReadsBack vector_float is_float lt fits = (
    x.data_u32,
    ap (λ u. get_float u x.data_u32) is_float,
    λ p v j at. (
      complete_float x.data_u32,
      ap (λ o. map complete_float o) at,
      record {
        back = record { tag = float; data_u32 = x.data_u32 % 2 ^ 32 };
        converted = refl;
        same_int = sym (ap (λ u. get_int_as_int64 u x.data_u32) is_float);
        same_float =
            ap some (let same : x.data_u32 % 2 ^ 32 ≡ x.data_u32 = omega (arith, lt) in same)
            ∙ sym (ap (λ u. get_float u x.data_u32) is_float);
      },
    ),
  )
  float-ReadsBack _ is_float lt fits = absurd fits

  item-ReadsBack :
      (t : Tag) (k : Kind) → kind x ≡ k → x.data_u32 < 2 ^ 32 → Fits t k → ReadsBack t x
  item-ReadsBack t (integer i) e lt fits =
      integer-ReadsBack t i (kind_of-HasInt x.header.type_29 x.data_u32 i e) fits
  item-ReadsBack t real e lt fits =
      float-ReadsBack t (kind_of-float x.header.type_29 x.data_u32 e) lt fits
  item-ReadsBack t incompressible e lt fits = absurd (no_room t fits)
    where
      no_room : (u : Tag) → Fits u incompressible → ⊥
      no_room vector_float h = h
      no_room _ h = h

-- The data of the items are 32 bits.
abbrev pub AreWords : List CreateValue → Type 0
AreWords = All (λ x. x.data_u32 < 2 ^ 32)

items-ReadsBack :
    (items : List CreateValue) (r : Range) (t : Tag)
    → AreWords items
    → range_type r ≡ compressed t
    → All (λ x. Covers r (kind x)) items
    → All (ReadsBack t) items
items-ReadsBack [] r t words h covers = tt
items-ReadsBack (x ∷ items) r t (lt, words) h (here, covers) = (
  item-ReadsBack x t (kind x) refl lt (range_type-Fits r (kind x) t h here),
  items-ReadsBack items r t words h covers,
)

scanned-ReadsBack :
    (items : List CreateValue) (t : Tag) (o : Option Range)
    → scan items no_range ≡ o
    → AreWords items
    → scanned o ≡ compressed t
    → All (ReadsBack t) items
scanned-ReadsBack items t none e words h = cc
scanned-ReadsBack items t (some r) e words h =
    items-ReadsBack items r t words h (scan-Covers items no_range r e).0

-- Where a vector of values is compressed into one of numbers, every item is written, and where its
-- bytes stand in a vector of that type in a file, the reader finds a value with the same integer,
-- or the same float.
pub vector_compression-ReadsBack :
    (items : List CreateValue) (t : Tag)
    → AreWords items
    → vector_compression items ≡ compressed t
    → All (ReadsBack t) items
unfolding vector_compression
vector_compression-ReadsBack [] t words h = tt
vector_compression-ReadsBack (x ∷ items) t words h =
    scanned-ReadsBack (x ∷ items) t (scan (x ∷ items) no_range) refl words h
