-- ===== src/Eval/Extension.antt =====
-- What an index and a step of a path read does not change where the path goes on.
use py_pointless.Base.{
  ℕ, ◌^◌, ◌≡◌, refl, ap, ◌&&◌, Option, some, none, List, [], ◌∷◌, ◌++◌, length, ltb, ◌==◌,
  Bool-cases, inl, inr,
}
use py_pointless.IntOps.Eval.Tokens.{is_digit, decimal}
use py_pointless.Eval.{
  Argument, Index, string_key, Parsed, parsed, malformed, bad_argument, is_space, skip_whitespace,
  digits, parse_number, quoted, with_char, parse_key, behind_two, u64_taken, u32_taken, i64_taken,
  i32_taken, string_taken, with_argument, take_argument, width, parse_placeholder, parse_plus,
  parse_index,
}

-- What is left behind blanks, where the path goes on with `t`
abbrev pub join : List ℕ → List ℕ → List ℕ
join [] t = skip_whitespace t
join (c ∷ e) t = c ∷ e ++ t

pub skip_whitespace-append : (e t : List ℕ) → skip_whitespace (e ++ t) ≡ join (skip_whitespace e) t
unfolding skip_whitespace
skip_whitespace-append [] t = refl
skip_whitespace-append (c ∷ e) t = elim (Bool-cases (is_space c)) [
  | inl blank ↦ rw blank (skip_whitespace-append e t)
  | inr other ↦ rw other refl
]

-- A reading that leaves something of the path leaves `t` behind it where the path goes on with `t`.
abbrev pub Extends : List ℕ → Parsed → Parsed → Type 0
Extends t (parsed i (c ∷ e) args) q = q ≡ parsed i (c ∷ e ++ t) args
Extends t (parsed i [] args) q = Unit
Extends t malformed q = Unit
Extends t bad_argument q = Unit

abbrev DigitsExtend : List ℕ → List ℕ × List ℕ → List ℕ × List ℕ → Type 0
DigitsExtend t (ds, []) q = Unit
DigitsExtend t (ds, c ∷ e) q = q ≡ (ds, c ∷ e ++ t)

abbrev with_digit : ℕ → List ℕ × List ℕ → List ℕ × List ℕ
with_digit c r = (c ∷ r.0, r.1)

with_digit-DigitsExtend :
    (t : List ℕ) (c : ℕ) (r q : List ℕ × List ℕ)
    → DigitsExtend t r q
    → DigitsExtend t (with_digit c r) (with_digit c q)
with_digit-DigitsExtend t c (ds, []) q h = tt
with_digit-DigitsExtend t c (ds, d ∷ e) q h = ap (with_digit c) h

digits-DigitsExtend : (t e : List ℕ) → DigitsExtend t (digits e) (digits (e ++ t))
unfolding digits
digits-DigitsExtend t [] = tt
digits-DigitsExtend t (c ∷ e) = elim (Bool-cases (is_digit c)) [
  | inl digit ↦
      rw (digit, digits)
        (with_digit-DigitsExtend t c (digits e) (digits (e ++ t)) (digits-DigitsExtend t e))
  | inr other ↦ rw (other, digits) refl
]

parse_number-Extends :
    (t : List ℕ) (r q : List ℕ × List ℕ) (args : List Argument)
    → DigitsExtend t r q
    → Extends t (parse_number r args) (parse_number q args)
unfolding parse_number
parse_number-Extends t (ds, []) q args h = elim (Bool-cases (ltb (decimal 0 ds) (2 ^ 64))) [
  | inl fits ↦ rw fits tt
  | inr too_big ↦ rw too_big tt
]
parse_number-Extends t (ds, c ∷ e) q args h = elim (Bool-cases (ltb (decimal 0 ds) (2 ^ 64))) [
  | inl fits ↦ rw (h, fits) refl
  | inr too_big ↦ rw too_big tt
]

abbrev KeyExtends : List ℕ → Option (List ℕ × List ℕ) → Option (List ℕ × List ℕ) → Type 0
KeyExtends t none q = Unit
KeyExtends t (some (s, e)) q = q ≡ some (s, e ++ t)

with_char-KeyExtends :
    (t : List ℕ) (c : ℕ) (r q : Option (List ℕ × List ℕ))
    → KeyExtends t r q
    → KeyExtends t (with_char c r) (with_char c q)
with_char-KeyExtends t c none q h = tt
with_char-KeyExtends t c (some (s, e)) q h = ap (with_char c) h

quoted-KeyExtends : (t e : List ℕ) → KeyExtends t (quoted e) (quoted (e ++ t))
unfolding quoted
quoted-KeyExtends t [] = tt
quoted-KeyExtends t (c ∷ e) = elim (Bool-cases (c == 39)) [
  | inl quote ↦ rw (quote, quoted) refl
  | inr other ↦
      rw (other, quoted)
        (with_char-KeyExtends t c (quoted e) (quoted (e ++ t)) (quoted-KeyExtends t e))
]

parsed-Extends :
    (t : List ℕ) (i : Index) (e : List ℕ) (args : List Argument)
    → Extends t (parsed i e args) (parsed i (e ++ t) args)
parsed-Extends t i [] args = tt
parsed-Extends t i (c ∷ e) args = refl

parse_key-Extends :
    (t : List ℕ) (r q : Option (List ℕ × List ℕ)) (args : List Argument)
    → KeyExtends t r q
    → Extends t (parse_key r args) (parse_key q args)
parse_key-Extends t none q args h = tt
parse_key-Extends t (some (s, e)) q args h =
    rw h (parsed-Extends t (string_key (s ++ 39 ∷ []) (length s)) e args)

with_argument-Extends :
    (t : List ℕ) (o : Option Index) (e : List ℕ) (args : List Argument)
    → Extends t (with_argument o e args) (with_argument o (e ++ t) args)
with_argument-Extends t none e args = tt
with_argument-Extends t (some i) e args = parsed-Extends t i e args

take_argument-Extends :
    (t : List ℕ) (convert : Argument → Option Index) (args : List Argument) (e : List ℕ)
    → Extends t (take_argument convert args e) (take_argument convert args (e ++ t))
take_argument-Extends t convert [] e = tt
take_argument-Extends t convert (a ∷ args) e = with_argument-Extends t (convert a) e args

width-Extends :
    (t e : List ℕ) (args : List Argument) (f g : Argument → Option Index)
    → Extends t
        (width
          (behind_two 54 52 e)
          (behind_two 51 50 e)
          (take_argument f args)
          (take_argument g args))
        (width
          (behind_two 54 52 (e ++ t))
          (behind_two 51 50 (e ++ t))
          (take_argument f args)
          (take_argument g args))
unfolding behind_two
width-Extends t [] args f g = tt
width-Extends t (c ∷ []) args f g = tt
width-Extends t (c ∷ d ∷ e) args f g = elim (Bool-cases ((c == 54) && (d == 52))) [
  | inl long ↦ rw long (take_argument-Extends t f args e)
  | inr not_long ↦ rw not_long (elim (Bool-cases ((c == 51) && (d == 50))) [
    | inl short ↦ rw short (take_argument-Extends t g args e)
    | inr other ↦ rw other tt
  ])
]

parse_placeholder-Extends :
    (t e : List ℕ) (args : List Argument)
    → Extends t (parse_placeholder e args) (parse_placeholder (e ++ t) args)
unfolding parse_placeholder
parse_placeholder-Extends t [] args = tt
parse_placeholder-Extends t (c ∷ e) args = elim (Bool-cases (c == 117)) [
  | inl u ↦ rw u (width-Extends t e args u64_taken u32_taken)
  | inr not_u ↦ rw not_u (elim (Bool-cases (c == 105)) [
    | inl i ↦ rw i (width-Extends t e args i64_taken i32_taken)
    | inr not_i ↦ rw not_i (elim (Bool-cases (c == 115)) [
      | inl s ↦ rw s (take_argument-Extends t string_taken args e)
      | inr not_s ↦ rw not_s tt
    ])
  ])
]

parse_plus-Extends :
    (t e : List ℕ) (args : List Argument) → Extends t (parse_plus e args) (parse_plus (e ++ t) args)
parse_plus-Extends t [] args = tt
parse_plus-Extends t (c ∷ e) args = elim (Bool-cases (is_digit c)) [
  | inl digit ↦ rw digit refl
  | inr other ↦ rw other tt
]

pub parse_index-Extends :
    (t e : List ℕ) (args : List Argument)
    → Extends t (parse_index e args) (parse_index (e ++ t) args)
unfolding parse_index
parse_index-Extends t [] args = tt
parse_index-Extends t (c ∷ e) args = elim (Bool-cases (c == 39)) [
  | inl quote ↦
      rw quote (parse_key-Extends t (quoted e) (quoted (e ++ t)) args (quoted-KeyExtends t e))
  | inr not_quote ↦ rw not_quote (elim (Bool-cases (c == 45)) [
    | inl minus ↦ rw minus refl
    | inr not_minus ↦ rw not_minus (elim (Bool-cases (c == 43)) [
      | inl plus ↦ rw plus (parse_plus-Extends t e args)
      | inr not_plus ↦ rw not_plus (elim (Bool-cases (is_digit c)) [
        | inl digit ↦ rw digit (
            parse_number-Extends t (digits (c ∷ e)) (digits (c ∷ e ++ t)) args
              (digits-DigitsExtend t (c ∷ e)))
        | inr not_digit ↦ rw not_digit (elim (Bool-cases (c == 37)) [
          | inl percent ↦ rw percent (parse_placeholder-Extends t e args)
          | inr other ↦ rw other tt
        ])
      ])
    ])
  ])
]
