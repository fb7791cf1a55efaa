-- ===== src/Validate/Text.antt =====
-- A text that is valid is a string in memory, ended by a zero, of the length that stands before it.
use mathlib.Core.Option.{some-injective}
use py_pointless.Base.{
  ℕ, zero, suc, ◌+◌, ◌*◌, ◌^◌, ◌<◌, ◌≤◌, ◌≡◌, ◌↔◌, refl, ap, Bool, true, false, Option, some, none,
  List, [], ◌∷◌, ◌==◌, arith, Bool-cases, Option-cases, inl, inr,
}
use py_pointless.BitUtils.{Bytes}
use py_pointless.Strings.{string_len}
use py_pointless.Reader.{Pointless, little_endian}
use py_pointless.Reader.Layout.{IsFile}
use py_pointless.Reader.Words.{little_endian_bound, read_within}
use py_pointless.Validate.{
  ValidateError, unicode_size, premature_end, missing_end, Verdict, valid, invalid, check,
  require_heap, require_size, text_bytes, check_units, text_at,
}
use py_pointless.Validate.Bounds.{count_at, guard_iff, require_heap_iff, text_room}

-- `n` units of `w` bytes
unfoldable pub units : ℕ → Bytes → ℕ → ℕ → List ℕ
units w mem a zero = []
units w mem a (suc n) = little_endian w mem a ∷ units w mem (a + w) n

-- What `string_len` makes of the first unit and of the rest
abbrev length_from : Bool → Option ℕ → Option ℕ
length_from true rest = some 0
length_from false none = none
length_from false (some n) = some (suc n)

end_iff : (b : Bool) → (check b missing_end ≡ valid) ↔ (length_from b (string_len []) ≡ some 0)
unfolding string_len
end_iff true = (λ h. refl, λ h. refl)
end_iff false = (λ h. cc, λ h. cc)

unit_iff :
    (b : Bool) (r : Verdict) (rest : Option ℕ) (left : ℕ)
    → ((r ≡ valid) ↔ (rest ≡ some left))
    → (elim b [ true ↦ invalid premature_end | false ↦ r ] ≡ valid)
      ↔ (length_from b rest ≡ some (suc left))
unit_iff true r rest left h = (λ e. cc, λ e. cc)
unit_iff false r none left (to, from) = (λ e. let q = to e in cc, λ e. cc)
unit_iff false r (some n) left (to, from) = (
  λ e. ap (length_from false) (to e),
  λ e. from (
      let q : suc n ≡ suc left = some-injective (suc n) (suc left) e in ap some (omega (arith, q))),
)

string_len_step : (c : ℕ) (s : List ℕ) → string_len (c ∷ s) ≡ length_from (c == 0) (string_len s)
unfolding string_len
string_len_step c s = elim (Bool-cases (c == 0)) [
  | inl e ↦ rw (e, string_len) refl
  | inr e ↦ elim (Option-cases (string_len s)) [
    | inl f ↦ rw (e, f, string_len) refl
    | inr (n, f) ↦ rw (e, f, string_len) refl
  ]
]

-- There is room for the units and the zero, which is the first zero.
abbrev pub HasUnits : ℕ → Pointless → ℕ → Type 0
HasUnits w p offset =
    (offset + (4 + (count_at p offset + 1) * w) ≤ p.heap_len)
    × (string_len (units w p.buf (p.heap_ptr + (offset + 4)) (suc (count_at p offset)))
        ≡ some (count_at p offset))

module _ (p : Pointless) (file : IsFile p) (w offset : ℕ) where
  check_units_iff :
      (left i : ℕ)
      → offset + 4 + w * i + w * (left + 1) ≤ p.heap_len
      → (check_units w p offset left i ≡ valid)
        ↔ (string_len (units w p.buf (p.heap_ptr + (offset + 4 + w * i)) (suc left)) ≡ some left)
  unfolding check_units units
  check_units_iff zero i within =
      let a = p.heap_ptr + (offset + 4 + w * i) in
      rw
        (
          read_within w p a (omega (arith, file.laid.heap_within)),
          string_len_step (little_endian w p.buf a) [],
        )
        (end_iff (little_endian w p.buf a == 0))
  check_units_iff (suc left) i within =
      let a = p.heap_ptr + (offset + 4 + w * i) in
      let next : a + w ≡ p.heap_ptr + (offset + 4 + w * (i + 1)) = omega arith in
      rw
        (
          read_within w p a (omega (arith, file.laid.heap_within)),
          string_len_step (little_endian w p.buf a) (units w p.buf (a + w) (suc left)),
          next,
        )
        (unit_iff (little_endian w p.buf a == 0) _ _ left
          (check_units_iff left (i + 1) (omega arith)))

-- A text passes its check if and only if the heap has room for its length and for its units with
-- the zero behind them, and the string in memory is as long as its length says.
pub text_at_iff :
    (p : Pointless) (w offset : ℕ) (e : ValidateError)
    → IsFile p
    → w ≤ 4
    → offset < 2 ^ 64
    → (text_at w p e offset ≡ valid) ↔ ((offset + 4 ≤ p.heap_len) × HasUnits w p offset)
unfolding text_at
text_at_iff p w offset e file hw ho =
    let a = p.heap_ptr + offset in
    let s_len = count_at p offset in
    let short : s_len < 2 ^ 32 = little_endian_bound 4 p.buf a file.bytes in
    let fits : p.heap_len < 2 ^ 64 = omega (arith, file.fits, file.laid.heap_within) in
    let start : offset + 4 + w * 0 ≡ offset + 4 = omega arith in
    let header = require_heap_iff p offset 4 fits ho (omega arith) in
    guard_iff (require_heap p offset 4) _ e {Q = HasUnits w p offset} header λ found.
      rw (read_within 4 p a (omega (arith, header.0 found, file.laid.heap_within))) (
        guard_iff (require_size p offset (text_bytes w s_len)) _ unicode_size
          (text_room p fits offset ho w s_len hw short)
          λ room. rw start at (
            check_units_iff p file w offset s_len 0
              (omega (arith, (text_room p fits offset ho w s_len hw short).0 room))))
