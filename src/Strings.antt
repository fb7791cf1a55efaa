-- ===== src/Strings.antt =====
-- src/pointless_unicode_utils.c: strings of one, two and four bytes to a unit, ended by a zero. A
-- string is the list of units from the pointer to the end of its memory; `none` is a read or a
-- write past that end.
pub mod Laws
use py_pointless.Base.{
  ℕ, suc, ◌+◌, ◌*◌, ◌%◌, ◌^◌, Bool, true, false, Option, none, some, List, [], ◌∷◌, ◌++◌, leb, ◌==◌,
  if◌then◌else◌, u8, length, replicate,
}
use py_pointless.IntOps.Checked.{init, sizet_mult}

-- `POINTLESS_BELOW_RANGE`
below_range : List ℕ → ℕ → Option Bool
below_range [] i_max = none
below_range (c ∷ s) i_max = elim (c == 0) [
  | true ↦ some true
  | false ↦ elim (leb c i_max) [ true ↦ below_range s i_max | false ↦ some false ]
]

pub is_ucs4_ascii : List ℕ → Option Bool
unfolding below_range
is_ucs4_ascii s = below_range s 255

pub is_ucs2_ascii : List ℕ → Option Bool
unfolding below_range
is_ucs2_ascii s = below_range s 255

-- `POINTLESS_STRING_LEN`, for every width
unfoldable pub string_len : List ℕ → Option ℕ
string_len [] = none
string_len (c ∷ s) = elim (c == 0) [
  | true ↦ some 0
  | false ↦ elim (string_len s) [ none ↦ none | some n ↦ some (suc n) ]
]

-- `POINTLESS_STRING_CPY`, for every width
pub string_cpy : List ℕ → List ℕ → Option (List ℕ)
string_cpy [] src = none
string_cpy (d ∷ dst) [] = none
string_cpy (d ∷ dst) (c ∷ src) = elim (c == 0) [
  | true ↦ some (0 ∷ dst)
  | false ↦ elim (string_cpy dst src) [ none ↦ none | some rest ↦ some (c ∷ rest) ]
]

-- The loop of a conversion, with the cast of a unit, into fresh memory
convert_units : (ℕ → ℕ) → List ℕ → List ℕ → Option (List ℕ)
convert_units cast [] src = none
convert_units cast (d ∷ dst) [] = none
convert_units cast (d ∷ dst) (c ∷ src) = elim (c == 0) [
  | true ↦ some (0 ∷ dst)
  | false ↦ elim (convert_units cast dst src) [ none ↦ none | some rest ↦ some (cast c ∷ rest) ]
]

-- A conversion's result: the new string, a null, or an access out of range
pub data Converted : Type 0 where
  converted : List ℕ → Converted
  null fault : Converted

as_converted : Option (List ℕ) → Converted
as_converted none = fault
as_converted (some s) = converted s

module _ (allocates : ℕ → Bool) where
  -- Memory for `units` units, of which `size` bytes are asked for
  into_memory : (ℕ → ℕ) → ℕ → ℕ → List ℕ → Converted
  unfolding convert_units as_converted
  into_memory cast size units s =
      if allocates size then as_converted (convert_units cast (replicate units 0) s) else null

  -- `sizeof(uint8_t) * (n + 1)`
  to_ascii : Option ℕ → List ℕ → Converted
  unfolding into_memory
  to_ascii none s = fault
  to_ascii (some n) s = into_memory u8 ((n + 1) % 2 ^ 64) (n + 1) s

  -- Watches out for overflow
  to_ucs4 : Option ℕ → List ℕ → Converted
  unfolding into_memory sizet_mult init
  to_ucs4 none s = fault
  to_ucs4 (some n) s =
      let c = sizet_mult (init (n + 1)) (init 4) in
      if c.is_overflow then null else into_memory (λ u. u) c.value (n + 1) s

  -- The assertion holds, or the program stops: `fault`.
  asserted : Option Bool → Converted → Converted
  asserted (some true) r = r
  asserted (some false) r = fault
  asserted none r = fault

  pub ucs4_to_ascii : List ℕ → Converted
  unfolding asserted to_ascii is_ucs4_ascii
  ucs4_to_ascii ucs4 = asserted (is_ucs4_ascii ucs4) (to_ascii (string_len ucs4) ucs4)

  pub ucs2_to_ascii : List ℕ → Converted
  unfolding asserted to_ascii is_ucs2_ascii
  ucs2_to_ascii ucs2 = asserted (is_ucs2_ascii ucs2) (to_ascii (string_len ucs2) ucs2)

  pub ucs2_to_ucs4 : List ℕ → Converted
  unfolding to_ucs4
  ucs2_to_ucs4 ucs2 = to_ucs4 (string_len ucs2) ucs2

  pub ascii_to_ucs4 : List ℕ → Converted
  unfolding to_ucs4
  ascii_to_ucs4 ascii = to_ucs4 (string_len ascii) ascii
