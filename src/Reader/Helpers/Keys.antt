-- ===== src/Reader/Helpers/Keys.antt =====
-- The tests of a key, and the hashes under which it is searched.
use py_pointless.Base.{
  ℕ, ◌%◌, ◌/◌, ◌<◌, ◌≡◌, ◌↔◌, refl, ap, arith, true, false, some, List, [], ◌∷◌, ◌++◌, length,
  ==_refl, ◌==◌, ne→==,
}
use mathlib.Core.Path.{subst}
use py_pointless.BitVector.{Sign, less, same, more}
use py_pointless.Cmp.Reader.{text_of}
use py_pointless.Cmp.Text.{order, order-same, cmp_string-order, cmp_string_n-order}
use py_pointless.Hash.{hash_string, hash_units}
use py_pointless.Reader.{Pointless}
use py_pointless.Reader.Helpers.{
  is_text, is_same, check_text, check_string, check_string_n, check_unicode, get_map, get_value,
  ucs4_bytes, get_mapping_unicode_to_value,
}
use py_pointless.Strings.Laws.{Units, ended}
use py_pointless.Value.{Tag, Value}

order_refl : (us : List ℕ) → order us us ≡ same
unfolding order
order_refl [] = refl
order_refl (u ∷ us) = rw (==_refl u, order) (order_refl us)

same_sign : (s : Sign) → is_same s ≡ true → s ≡ same
same_sign same e = refl
same_sign less e = cc
same_sign more e = cc

-- A test that compares the text of a key lexicographically passes for one text.
order_iff : (us key : List ℕ) → (some (is_same (order us key)) ≡ some true) ↔ (us ≡ key)
order_iff us key = (
  (λ e. order-same us key (same_sign (order us key) (cc))),
  (λ e. subst (λ w. some (is_same (order us w)) ≡ some true) e (rw (order_refl us) refl)),
)

module _ (p : Pointless) (v : Value) (m : ℕ) (us rest : List ℕ) (tag : is_text v.tag ≡ true)
    (text : text_of p v.tag v.data_u32 ≡ some (ended us rest)) (units : Units m us) where
  -- A key of a file whose text ends in a zero passes the test of a string that ends in a zero if
  -- and only if it has the same units.
  pub check_string_iff :
      (k : ℕ) (key rest' : List ℕ)
      → Units k key
      → (check_string (ended key rest') p v ≡ some true) ↔ (us ≡ key)
  unfolding check_string check_text
  check_string_iff k key rest' key_units =
      rw (tag, text, cmp_string-order m k us key rest rest' units key_units) (order_iff us key)

  -- The same, for a string that is given with the number of its units.
  pub check_string_n_iff :
      (key rest' : List ℕ)
      → (check_string_n (key ++ rest') (length key) p v ≡ some true) ↔ (us ≡ key)
  unfolding check_string_n check_text
  check_string_n_iff key rest' =
      rw (tag, text, cmp_string_n-order m us key rest rest' units) (order_iff us key)

-- The bytes of a unit below 256, with what follows, hash as the unit alone.
hash_first :
    (c : ℕ) (s : List ℕ)
    → 0 < c
    → c < 256
    → hash_string (ucs4_bytes (c ∷ s)) ≡ hash_string (c ∷ 0 ∷ [])
unfolding hash_string hash_units ucs4_bytes
hash_first c s positive small =
    let first : c % 256 ≡ c = omega arith in
    let second : c / 256 % 256 ≡ 0 = omega arith in
    let used : (c == 0) ≡ false = ne→== c 0 (omega arith) in
    rw (first, second) (rw (used, hash_units) refl)

-- A unicode key whose first unit is not zero and below 256 is searched under the hash of the
-- string of that unit alone, whatever the others are.
pub get_mapping_unicode_to_value-first :
    (p : Pointless) (t : Tag) (v c : ℕ) (s : List ℕ)
    → 0 < c
    → c < 256
    → get_mapping_unicode_to_value p t v (c ∷ s)
      ≡ get_map p t v (hash_string (c ∷ 0 ∷ [])) (check_unicode (c ∷ s) p) get_value
unfolding get_mapping_unicode_to_value
get_mapping_unicode_to_value-first p t v c s positive small =
    ap (λ h. get_map p t v h (check_unicode (c ∷ s) p) get_value) (hash_first c s positive small)
