-- ===== src/Eval/Remainder.antt =====
-- What an index of a path leaves of it.
use py_pointless.Base.{
  ℕ, suc, ◌^◌, ◌≤◌, arith, ◌&&◌, Option, some, none, List, [], ◌∷◌, length, ltb, ◌==◌, Bool-cases,
  inl, inr,
}
use py_pointless.IntOps.Eval.Tokens.{is_digit, decimal}
use py_pointless.Eval.{
  Argument, Index, Parsed, parsed, malformed, bad_argument, is_space, skip_whitespace, digits,
  parse_number, quoted, with_char, parse_key, behind_two, u64_taken, u32_taken, i64_taken,
  i32_taken, string_taken, with_argument, take_argument, width, parse_placeholder, parse_plus,
  parse_index,
}

pub skip_whitespace-length : (e : List ℕ) → length (skip_whitespace e) ≤ length e
unfolding skip_whitespace
skip_whitespace-length [] = omega arith
skip_whitespace-length (c ∷ e) = elim (Bool-cases (is_space c)) [
  | inl blank ↦ rw blank (let shorter = skip_whitespace-length e in omega (arith, shorter))
  | inr other ↦ rw other (omega arith)
]

-- What follows an index is at most `n` long.
abbrev pub Within : ℕ → Parsed → Type 0
Within n (parsed i e args) = length e ≤ n
Within n malformed = Unit
Within n bad_argument = Unit

-- What follows a key or a width is at most `n` long.
abbrev KeyWithin : ℕ → Option (List ℕ × List ℕ) → Type 0
KeyWithin n none = Unit
KeyWithin n (some (s, e)) = length e ≤ n

abbrev RestWithin : ℕ → Option (List ℕ) → Type 0
RestWithin n none = Unit
RestWithin n (some e) = length e ≤ n

digits-length : (e : List ℕ) → length (digits e).1 ≤ length e
unfolding digits
digits-length [] = omega arith
digits-length (c ∷ e) = elim (Bool-cases (is_digit c)) [
  | inl digit ↦ rw (digit, digits) (let shorter = digits-length e in omega (arith, shorter))
  | inr other ↦ rw (other, digits) (omega arith)
]

parse_number-Within :
    (n : ℕ) (r : List ℕ × List ℕ) (args : List Argument)
    → length r.1 ≤ n
    → Within n (parse_number r args)
unfolding parse_number
parse_number-Within n r args le = elim (Bool-cases (ltb (decimal 0 r.0) (2 ^ 64))) [
  | inl fits ↦ rw fits le
  | inr too_big ↦ rw too_big tt
]

with_char-KeyWithin :
    (n c : ℕ) (o : Option (List ℕ × List ℕ)) → KeyWithin n o → KeyWithin (suc n) (with_char c o)
with_char-KeyWithin n c none h = tt
with_char-KeyWithin n c (some (s, e)) h = omega (arith, h)

quoted-KeyWithin : (e : List ℕ) → KeyWithin (length e) (quoted e)
unfolding quoted
quoted-KeyWithin [] = tt
quoted-KeyWithin (c ∷ e) = elim (Bool-cases (c == 39)) [
  | inl quote ↦ rw (quote, quoted) (omega arith)
  | inr other ↦
      rw (other, quoted) (with_char-KeyWithin (length e) c (quoted e) (quoted-KeyWithin e))
]

parse_key-Within :
    (n : ℕ) (o : Option (List ℕ × List ℕ)) (args : List Argument)
    → KeyWithin n o
    → Within (suc n) (parse_key o args)
parse_key-Within n none args h = tt
parse_key-Within n (some (s, e)) args h = omega (arith, h)

behind_two-RestWithin : (a b : ℕ) (e : List ℕ) → RestWithin (length e) (behind_two a b e)
unfolding behind_two
behind_two-RestWithin a b [] = tt
behind_two-RestWithin a b (c ∷ []) = tt
behind_two-RestWithin a b (c ∷ d ∷ e) = elim (Bool-cases ((c == a) && (d == b))) [
  | inl here ↦ rw here (omega arith)
  | inr other ↦ rw other tt
]

with_argument-Within :
    (n : ℕ) (o : Option Index) (e : List ℕ) (args : List Argument)
    → length e ≤ n
    → Within n (with_argument o e args)
with_argument-Within n none e args le = tt
with_argument-Within n (some i) e args le = le

take_argument-Within :
    (n : ℕ) (convert : Argument → Option Index) (args : List Argument) (e : List ℕ)
    → length e ≤ n
    → Within n (take_argument convert args e)
take_argument-Within n convert [] e le = tt
take_argument-Within n convert (a ∷ args) e le = with_argument-Within n (convert a) e args le

width-Within :
    (n : ℕ) (o r : Option (List ℕ)) (f g : List ℕ → Parsed)
    → RestWithin n o
    → RestWithin n r
    → ((e : List ℕ) → length e ≤ n → Within n (f e))
    → ((e : List ℕ) → length e ≤ n → Within n (g e))
    → Within n (width o r f g)
width-Within n (some e) r f g ho hr hf hg = hf e ho
width-Within n none (some e) f g ho hr hf hg = hg e hr
width-Within n none none f g ho hr hf hg = tt

Within-suc : (n : ℕ) (r : Parsed) → Within n r → Within (suc n) r
Within-suc n (parsed i e args) le = omega (arith, le)
Within-suc n malformed h = tt
Within-suc n bad_argument h = tt

parse_placeholder-Within :
    (e : List ℕ) (args : List Argument) → Within (length e) (parse_placeholder e args)
unfolding parse_placeholder
parse_placeholder-Within [] args = tt
parse_placeholder-Within (c ∷ e) args = elim (Bool-cases (c == 117)) [
  | inl u ↦ rw u (widths u64_taken u32_taken)
  | inr not_u ↦ rw not_u (elim (Bool-cases (c == 105)) [
    | inl i ↦ rw i (widths i64_taken i32_taken)
    | inr not_i ↦ rw not_i (elim (Bool-cases (c == 115)) [
      | inl s ↦ rw s (take_argument-Within (suc n) string_taken args e (omega arith))
      | inr not_s ↦ rw not_s tt
    ])
  ])
]
  where
    n : ℕ
    n = length e

    widths :
        (f g : Argument → Option Index)
        → Within (suc n) (
            width
              (behind_two 54 52 e)
              (behind_two 51 50 e)
              (take_argument f args)
              (take_argument g args))
    widths f g =
        Within-suc n
          (width (behind_two 54 52 e) (behind_two 51 50 e) (take_argument f args)
            (take_argument g args))
          (width-Within n (behind_two 54 52 e) (behind_two 51 50 e) (take_argument f args)
            (take_argument g args) (behind_two-RestWithin 54 52 e) (behind_two-RestWithin 51 50 e)
            (λ r. take_argument-Within n f args r) (λ r. take_argument-Within n g args r))

parse_plus-Within : (e : List ℕ) (args : List Argument) → Within (length e) (parse_plus e args)
parse_plus-Within [] args = tt
parse_plus-Within (c ∷ e) args = elim (Bool-cases (is_digit c)) [
  | inl digit ↦ rw digit (omega arith)
  | inr other ↦ rw other tt
]

pub parse_index-Within :
    (e : List ℕ) (args : List Argument) → Within (length e) (parse_index e args)
unfolding parse_index
parse_index-Within [] args = tt
parse_index-Within (c ∷ e) args = elim (Bool-cases (c == 39)) [
  | inl quote ↦ rw quote (parse_key-Within (length e) (quoted e) args (quoted-KeyWithin e))
  | inr not_quote ↦ rw not_quote (elim (Bool-cases (c == 45)) [
    | inl minus ↦ rw minus (omega arith)
    | inr not_minus ↦ rw not_minus (elim (Bool-cases (c == 43)) [
      | inl plus ↦ rw plus (Within-suc (length e) (parse_plus e args) (parse_plus-Within e args))
      | inr not_plus ↦ rw not_plus (elim (Bool-cases (is_digit c)) [
        | inl digit ↦
            rw digit
              (parse_number-Within (suc (length e)) (digits (c ∷ e)) args (digits-length (c ∷ e)))
        | inr not_digit ↦ rw not_digit (elim (Bool-cases (c == 37)) [
          | inl percent ↦
              rw percent
                (Within-suc (length e) (parse_placeholder e args) (parse_placeholder-Within e args))
          | inr other ↦ rw other tt
        ])
      ])
    ])
  ])
]
