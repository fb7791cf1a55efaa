-- ===== src/Strings/Laws.antt =====
-- Lengths, copies and conversions of strings that end in a zero.
use py_pointless.Base.{
  ℕ, suc, ◌+◌, ◌*◌, ◌%◌, ◌^◌, ◌<◌, ◌≡◌, refl, ap, ◌∙◌, Bool, true, false, some, List, [], ◌∷◌, ◌++◌,
  leb, ne→==, arith, if◌then◌else◌, u8, length, replicate, All,
}
use py_pointless.IntOps.Checked.{init, sizet_mult, mult_within}
use py_pointless.Strings.{
  below_range, is_ucs4_ascii, is_ucs2_ascii, string_len, string_cpy, convert_units, Converted,
  converted, null, as_converted, into_memory, to_ascii, to_ucs4, asserted, ucs4_to_ascii,
  ucs2_to_ascii, ucs2_to_ucs4, ascii_to_ucs4,
}

-- Units of a string: none of them is the zero that ends it, and all are below `m`.
abbrev pub Units : ℕ → List ℕ → Type 0
Units m = All (λ c. (0 < c) × (c < m))

-- The memory of a string, with `rest` behind its end
abbrev pub ended : List ℕ → List ℕ → List ℕ
ended s rest = s ++ 0 ∷ rest

pub string_len-ended :
    (m : ℕ) (s rest : List ℕ) → Units m s → string_len (ended s rest) ≡ some (length s)
unfolding string_len
string_len-ended m [] rest h = refl
string_len-ended m (c ∷ s) rest (hc, hs) =
    rw (ne→== c 0 (omega arith), string_len-ended m s rest hs, string_len) refl

below_range-ended :
    (m : ℕ) (s rest : List ℕ) → Units (suc m) s → below_range (ended s rest) m ≡ some true
unfolding below_range
below_range-ended m [] rest h = refl
below_range-ended m (c ∷ s) rest (hc, hs) =
    let small : leb c m ≡ true = ground arith in
    rw (ne→== c 0 (omega arith), small, below_range) (below_range-ended m s rest hs)

convert_units-ended :
    (cast : ℕ → ℕ) (m : ℕ) (s rest : List ℕ)
    → Units m s
    → ((c : ℕ) → c < m → cast c ≡ c)
    → convert_units cast (replicate (length s + 1) 0) (ended s rest) ≡ some (ended s [])
unfolding convert_units
convert_units-ended cast m [] rest h kept = refl
convert_units-ended cast m (c ∷ s) rest (hc, hs) kept =
    let room : suc (length s) + 1 ≡ suc (length s + 1) = omega arith in
    rw
      (
        room,
        ne→== c 0 (omega arith),
        convert_units-ended cast m s rest hs kept,
        kept c (omega arith),
        convert_units,
      )
      refl

-- The copy of a string, into memory that is long enough: the units, the zero, and what the memory
-- held behind them.
pub string_cpy-ended :
    (m : ℕ) (s rest old behind : List ℕ)
    → Units m s
    → length old ≡ length s + 1
    → string_cpy (old ++ behind) (ended s rest) ≡ some (ended s behind)
unfolding string_cpy
string_cpy-ended m s rest [] behind h e = absurd (omega arith)
string_cpy-ended m [] rest (d ∷ old) behind h e = go old (omega arith)
  where
    go : (old : List ℕ) → length old ≡ 0 → some (0 ∷ (old ++ behind)) ≡ some (0 ∷ behind)
    go [] e = refl
    go (x ∷ old) e = absurd (omega arith)
string_cpy-ended m (c ∷ s) rest (d ∷ old) behind (hc, hs) e =
    rw (ne→== c 0 (omega arith), string_cpy-ended m s rest old behind hs (omega arith), string_cpy)
      refl

module _ (allocates : ℕ → Bool) (s rest : List ℕ) where
  -- What a conversion gives: the string in memory of its own, or a null
  abbrev pub Conversion : ℕ → Converted
  Conversion size = if allocates size then converted (ended s []) else null

  into_memory-ended :
      (cast : ℕ → ℕ) (m size : ℕ)
      → Units m s
      → ((c : ℕ) → c < m → cast c ≡ c)
      → into_memory allocates cast size (length s + 1) (ended s rest) ≡ Conversion size
  unfolding into_memory as_converted
  into_memory-ended cast m size h kept = rw (convert_units-ended cast m s rest h kept) refl

  sizet_mult-fits :
      length s + 1 < 2 ^ 62
      → sizet_mult (init (length s + 1)) (init 4)
        ≡ record { is_overflow = false; value = 4 * (length s + 1) }
  unfolding sizet_mult
  sizet_mult-fits h =
      mult_within (2 ^ 64) (length s + 1) 4 (omega arith) (omega arith)
      ∙ ap (λ n. record { is_overflow = false; value = n }) (omega arith)

  to_ascii-ended :
      Units 256 s
      → length s + 1 < 2 ^ 62
      → to_ascii allocates (some (length s)) (ended s rest) ≡ Conversion (length s + 1)
  unfolding to_ascii
  to_ascii-ended h short =
      let size : (length s + 1) % 2 ^ 64 ≡ length s + 1 = omega arith in
      rw size (into_memory-ended u8 256 (length s + 1) h (λ c. λ small. omega arith))

  to_ucs4-ended :
      (m : ℕ)
      → Units m s
      → length s + 1 < 2 ^ 62
      → to_ucs4 allocates (some (length s)) (ended s rest) ≡ Conversion (4 * (length s + 1))
  unfolding to_ucs4
  to_ucs4-ended m h short =
      rw (sizet_mult-fits short)
        (into_memory-ended (λ u. u) m (4 * (length s + 1)) h (λ c. λ small. refl))

  -- A string of units below 256, of which there are less than 2 ^ 62 - 1, converts from one byte to
  -- four, from four to one, from two to one and from two to four, each to the same units with a zero
  -- behind them; the result is null only where the allocator refuses the bytes of the new string.
  pub conversions_lem :
      Units 256 s
      → length s + 1 < 2 ^ 62
      → (ascii_to_ucs4 allocates (ended s rest) ≡ Conversion (4 * (length s + 1)))
        × (ucs2_to_ucs4 allocates (ended s rest) ≡ Conversion (4 * (length s + 1)))
        × (ucs4_to_ascii allocates (ended s rest) ≡ Conversion (length s + 1))
        × (ucs2_to_ascii allocates (ended s rest) ≡ Conversion (length s + 1))
  unfolding ascii_to_ucs4 ucs2_to_ucs4 ucs4_to_ascii ucs2_to_ascii is_ucs4_ascii is_ucs2_ascii
      asserted
  conversions_lem h short =
      let len = string_len-ended 256 s rest h in
      let range = below_range-ended 255 s rest h in
      (
        rw len (to_ucs4-ended 256 h short),
        rw len (to_ucs4-ended 256 h short),
        rw (range, len) (to_ascii-ended h short),
        rw (range, len) (to_ascii-ended h short),
      )
