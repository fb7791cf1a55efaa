-- ===== src/Eval/Indices.antt =====
-- What the indices of a path mean: numbers, signs and the items of vectors.
use py_pointless.Base.{
  ℕ, ◌^◌, ◌≡◌, ◌≢◌, ◌⊎◌, All, refl, sym, ◌∙◌, ap, arith, true, false, List, [], ◌∷◌, ◌++◌, ltb,
  ◌==◌, if◌then◌else◌, Bool-cases, inl, inr,
}
use py_pointless.Base.Int.{pos}
use py_pointless.IntOps.Eval.Tokens.{is_digit, decimal}
use py_pointless.Eval.{
  Argument, u64_argument, unsigned_index, signed_index, Parsed, parsed, malformed, is_space,
  skip_whitespace, digits, parse_number, parse_plus, parse_index, select, Single, advanced,
  no_value, step_fault, step_endless, Evaluated, reached, refused, with_value, with_index,
  eval_get_single, on_single, eval_get,
}
use py_pointless.Eval.Progress.{eval_get-step}
use py_pointless.Reader.{Pointless}
use py_pointless.Reader.Tables.{Found, found, missing, not_hashable, cmp_error, bad_access, endless}
use py_pointless.Value.{Value}

digits-append :
    (ds e : List ℕ) → All (λ d. is_digit d ≡ true) ds → digits (ds ++ 93 ∷ e) ≡ (ds, 93 ∷ e)
unfolding digits
digits-append [] e h = refl
digits-append (d ∷ ds) e (hd, h) = rw (hd, digits) (ap (λ r. (d ∷ r.0, r.1)) (digits-append ds e h))

-- A digit is none of the other characters that an index may begin with.
parse_index-digit :
    (d : ℕ) (e : List ℕ) (args : List Argument)
    → is_digit d ≡ true
    → parse_index (d ∷ e) args ≡ parse_number (digits (d ∷ e)) args
unfolding parse_index
parse_index-digit d e args digit =
    let quote : (d == 39) ≡ false = ground (arith, digit) in
    let minus : (d == 45) ≡ false = ground (arith, digit) in
    let plus : (d == 43) ≡ false = ground (arith, digit) in rw (quote, minus, plus, digit) refl

u64_placeholder :
    (n : ℕ) (e : List ℕ) (args : List Argument)
    → parse_index (37 ∷ 117 ∷ 54 ∷ 52 ∷ 93 ∷ e) (u64_argument n ∷ args)
      ≡ parsed (unsigned_index n) (93 ∷ e) args
unfolding parse_index
u64_placeholder n e args = refl

-- What follows a step
abbrev next : (p : Pointless) → List ℕ → Value → List Argument → Evaluated
next p r v left = eval_get p v r left

-- A path that begins with a bracket
eval_get-index :
    (p : Pointless) (root : Value) (e : List ℕ) (args : List Argument) (r : Parsed)
    → parse_index e args ≡ r
    → eval_get p root (91 ∷ e) args ≡ on_single p (with_index p r root) (next p)
unfolding eval_get_single skip_whitespace
eval_get-index p root e args r h =
    eval_get-step p 91 e root args ∙ ap (λ x. on_single p (with_index p x root) (next p)) h

-- Where an index is written in decimal digits, the path means the same as with the placeholder
-- %u64 and that number as an argument, if it is below 2 ^ 64; otherwise the path is refused.
pub eval_get-digits :
    (p : Pointless) (root : Value) (d : ℕ) (ds e : List ℕ) (args : List Argument)
    → All (λ c. is_digit c ≡ true) (d ∷ ds)
    → eval_get p root (91 ∷ d ∷ ds ++ 93 ∷ e) args ≡ (
        if ltb (decimal 0 (d ∷ ds)) (2 ^ 64)
        then eval_get p root
            (91 ∷ 37 ∷ 117 ∷ 54 ∷ 52 ∷ 93 ∷ e)
            (u64_argument (decimal 0 (d ∷ ds)) ∷ args)
        else refused)
unfolding parse_number
eval_get-digits p root d ds e args (hd, h) =
    let read : parse_index (d ∷ ds ++ 93 ∷ e) args ≡ parse_number (d ∷ ds, 93 ∷ e) args =
      parse_index-digit d (ds ++ 93 ∷ e) args hd
      ∙ ap (λ r. parse_number r args) (digits-append (d ∷ ds) e (hd, h)) in
    elim (Bool-cases (ltb (decimal 0 (d ∷ ds)) (2 ^ 64))) [
      | inl fits ↦
          let number : parse_index (d ∷ ds ++ 93 ∷ e) args
              ≡ parsed (unsigned_index (decimal 0 (d ∷ ds))) (93 ∷ e) args =
            read ∙ rw fits refl in
          rw fits (
            eval_get-index p root (d ∷ ds ++ 93 ∷ e) args
              (parsed (unsigned_index (decimal 0 (d ∷ ds))) (93 ∷ e) args) number
            ∙ sym (
                eval_get-index p root (37 ∷ 117 ∷ 54 ∷ 52 ∷ 93 ∷ e)
                  (u64_argument (decimal 0 (d ∷ ds)) ∷ args)
                  (parsed (unsigned_index (decimal 0 (d ∷ ds))) (93 ∷ e) args)
                  (u64_placeholder (decimal 0 (d ∷ ds)) e args)))
      | inr too_big ↦
          let number : parse_index (d ∷ ds ++ 93 ∷ e) args ≡ malformed = read ∙ rw too_big refl in
          rw too_big (eval_get-index p root (d ∷ ds ++ 93 ∷ e) args malformed number)
    ]

-- A step that stops
abbrev Stops : Single → Type 0
Stops (advanced e v left) = ⊥
Stops no_value = Unit
Stops step_fault = Unit
Stops step_endless = Unit

module _ (p : Pointless) where
  stopped :
      (s : Single) (v : Value) (left : List Argument)
      → Stops s
      → on_single p s (next p) ≢ reached v left
  stopped (advanced e w l) v left h = absurd h
  stopped no_value v left h = λ e. cc
  stopped step_fault v left h = λ e. cc
  stopped step_endless v left h = λ e. cc

  not_closed :
      (c : ℕ) (e : List ℕ) (f : Found Value) (args : List Argument)
      → is_space c ≡ false
      → (c == 93) ≡ false
      → Stops (with_value p f (c ∷ e) args)
  unfolding skip_whitespace
  not_closed c e (found v) args space bracket' = rw space (rw bracket' tt)
  not_closed c e missing args space bracket' = tt
  not_closed c e not_hashable args space bracket' = tt
  not_closed c e cmp_error args space bracket' = tt
  not_closed c e bad_access args space bracket' = tt
  not_closed c e endless args space bracket' = tt

  -- What follows a plus is a digit, or the index is refused.
  plus-Stops :
      (root : Value) (e : List ℕ) (args : List Argument)
      → Stops (with_index p (parse_plus e args) root)
  plus-Stops root [] args = tt
  plus-Stops root (c ∷ e) args = elim (Bool-cases (is_digit c)) [
    | inl digit ↦ rw digit (
        not_closed c e (select p root (signed_index (pos 0))) args (ground (arith, digit))
          (ground (arith, digit)))
    | inr other ↦ rw other tt
  ]

  sign-Stops :
      (root : Value) (c : ℕ) (e : List ℕ) (args : List Argument)
      → (c ≡ 45) ⊎ (c ≡ 43)
      → Stops (with_index p (parse_index (c ∷ e) args) root)
  unfolding parse_index
  sign-Stops root c e args (inl minus) =
      rw minus (not_closed 45 e (select p root (signed_index (pos 0))) args refl refl)
  sign-Stops root c e args (inr plus) = rw plus (plus-Stops root e args)

  -- A path whose first index begins with a sign leads nowhere, whatever follows and whatever it is
  -- evaluated on.
  pub eval_get_sign :
      (root : Value) (c : ℕ) (e : List ℕ) (args : List Argument) (v : Value) (left : List Argument)
      → (c ≡ 45) ⊎ (c ≡ 43)
      → eval_get p root (91 ∷ c ∷ e) args ≢ reached v left
  eval_get_sign root c e args v left sign h =
      stopped (with_index p (parse_index (c ∷ e) args) root) v left (sign-Stops root c e args sign)
        (sym (eval_get-index p root (c ∷ e) args (parse_index (c ∷ e) args) refl) ∙ h)
