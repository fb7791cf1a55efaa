-- ===== src/Create/Vectors.antt =====
-- src/pointless_create.c: how a vector of values is compressed into one of numbers, and how its
-- items are written. The items are the values that the vector refers to; a failed assertion is
-- `fault` or `none`.
pub mod Covering
pub mod Fitting
pub mod Numbers
pub mod RoundTrip
pub mod Mixed
use mathlib.Core.Option.{map}
use py_pointless.Base.{
  ℕ, ◌%◌, ◌^◌, Bool, true, false, not, ◌&&◌, Option, none, some, List, [], ◌∷◌, ltb, leb,
  if◌then◌else◌,
}
use py_pointless.Base.Int.{ℤ, pos, negsuc, signed, pattern_of, is_negative}
use py_pointless.Value.{
  Tag, i32, u32, float, vector_i8, vector_u8, vector_i16, vector_u16, vector_i32, vector_u32,
  vector_float,
}
use py_pointless.Value.Accessors.{CreateValue, get_int_as_int64, get_float}

-- `int64_t`
unfoldable pub leb_ℤ : ℤ → ℤ → Bool
leb_ℤ (pos a) (pos b) = leb a b
leb_ℤ (pos a) (negsuc b) = false
leb_ℤ (negsuc a) (pos b) = true
leb_ℤ (negsuc a) (negsuc b) = leb b a

-- `SIMPLE_MIN` and `SIMPLE_MAX`
abbrev pub min_ℤ : ℤ → ℤ → ℤ
min_ℤ a b = if leb_ℤ b a then b else a

abbrev pub max_ℤ : ℤ → ℤ → ℤ
max_ℤ a b = if leb_ℤ a b then b else a

-- What the `switch` of the compression does with an item: an integer, a float, or neither
pub data Kind : Type 0 where
  integer : ℤ → Kind
  real incompressible : Kind

unfoldable pub kind_of : Tag → ℕ → Kind
kind_of i32 v = integer (signed 32 v)
kind_of u32 v = integer (pos v)
kind_of float v = real
kind_of _ v = incompressible

-- The variables of the loop
pub record Range : Type 0 where
  pub min_int : ℤ
  pub max_int : ℤ
  pub init_int : Bool
  pub init_float : Bool

abbrev pub no_range : Range
no_range = record { min_int = pos 0; max_int = pos 0; init_int = false; init_float = false }

abbrev pub expanded : ℤ → Range → Range
expanded i r =
    if r.init_int
    then record r { min_int = min_ℤ r.min_int i; max_int = max_ℤ r.max_int i }
    else record r { min_int = i; max_int = i; init_int = true }

-- `none` is a return in the loop: the vector stays as it is.
abbrev pub range_step : Kind → Range → Option Range
range_step (integer i) r = if r.init_float then none else some (expanded i r)
range_step real r = if r.init_int then none else some (record r { init_float = true })
range_step incompressible r = none

abbrev pub range_after : Option Range → (Range → Option Range) → Option Range
range_after none k = none
range_after (some r) k = k r

unfoldable pub scan : List CreateValue → Range → Option Range
unfolding kind_of
scan [] r = some r
scan (x ∷ items) r =
    range_after (range_step (kind_of x.header.type_29 x.data_u32) r) (λ r'. scan items r')

pub data Compressed : Type 0 where
  compressed : Tag → Compressed
  unchanged fault : Compressed

-- Behind the loop: the type of the range, first for integers that are not negative
unfoldable pub unsigned_type : ℤ → Compressed
unfolding leb_ℤ
unsigned_type max_int =
    if leb_ℤ max_int (pos 0xff)
    then compressed vector_u8
    else if leb_ℤ max_int (pos 0xffff)
    then compressed vector_u16
    else if leb_ℤ max_int (pos 0xffff_ffff)
    then compressed vector_u32
    else fault

unfoldable pub signed_type : ℤ → ℤ → Compressed
unfolding leb_ℤ
signed_type min_int max_int =
    if leb_ℤ (negsuc 0x7f) min_int && leb_ℤ max_int (pos 0x7f)
    then compressed vector_i8
    else if leb_ℤ (negsuc 0x7fff) min_int && leb_ℤ max_int (pos 0x7fff)
    then compressed vector_i16
    else if leb_ℤ (negsuc 0x7fff_ffff) min_int && leb_ℤ max_int (pos 0x7fff_ffff)
    then compressed vector_i32
    else fault

unfoldable pub range_type : Range → Compressed
unfolding unsigned_type signed_type
range_type r =
    if r.init_float
    then compressed vector_float
    else if not (is_negative r.min_int)
    then unsigned_type r.max_int
    else signed_type r.min_int r.max_int

abbrev pub scanned : Option Range → Compressed
scanned none = unchanged
scanned (some r) = range_type r

-- `pointless_create_vector_compression`, behind the assertion that there are items
unfoldable pub vector_compression : List CreateValue → Compressed
unfolding scan range_type
vector_compression [] = fault
vector_compression (x ∷ items) = scanned (scan (x ∷ items) no_range)

-- The bytes of an item of a vector of numbers
abbrev pub item_width : Tag → ℕ
item_width vector_i8 = 1
item_width vector_u8 = 1
item_width vector_i16 = 2
item_width vector_u16 = 2
item_width _ = 4

-- The integer of an item, cast to `w` bits
abbrev pub cast_item : ℕ → CreateValue → Option ℕ
cast_item w x = map (λ i. pattern_of 64 i % 2 ^ w) (get_int_as_int64 x.header.type_29 x.data_u32)

-- What is written of an item of a compressed vector, in `pointless_serialize_vector_priv`
unfoldable pub write_item : Tag → CreateValue → Option ℕ
unfolding get_int_as_int64 get_float
write_item vector_i8 x = cast_item 8 x
write_item vector_u8 x = cast_item 8 x
write_item vector_i16 x = cast_item 16 x
write_item vector_u16 x = cast_item 16 x
write_item vector_i32 x = cast_item 32 x
write_item vector_u32 x = cast_item 32 x
write_item vector_float x = get_float x.header.type_29 x.data_u32
write_item _ x = none
