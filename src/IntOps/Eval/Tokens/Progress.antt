-- ===== src/IntOps/Eval/Tokens/Progress.antt =====
-- The loop over the string ends, within the array of tokens.
use py_pointless.Base.{
  ℕ, zero, suc, ◌^◌, ◌≤◌, ◌<◌, ◌≡◌, ◌≢◌, refl, Bool, true, false, ◌||◌, List, [], ◌∷◌, ◌++◌, ltb,
  ltb→lt, ◌==◌, if◌then◌else◌, ◌⊎◌, inl, inr, arith, Bool-cases, length, length-append,
}
use py_pointless.IntOps.Eval.{Token, EvalError, out_of_fuel, max_n}
use py_pointless.IntOps.Eval.Tokens.{
  Read, is_digit, span_digits, decimal, read_number, read_token, tokenize,
}

span_digits-shorter : (room : ℕ) (s : List ℕ) → length (span_digits room s).1 ≤ length s
unfolding span_digits
span_digits-shorter zero s = omega arith
span_digits-shorter (suc room) [] = omega arith
span_digits-shorter (suc room) (ch ∷ s) = elim (Bool-cases (is_digit ch)) [
  | inl digit ↦ rw (digit, span_digits) (omega (arith, span_digits-shorter room s))
  | inr other ↦ rw (other, span_digits) (omega arith)
]

span_digits-taken :
    (room ch : ℕ) (s : List ℕ)
    → is_digit ch ≡ true
    → length (span_digits (suc room) (ch ∷ s)).1 ≤ length s
unfolding span_digits
span_digits-taken room ch s digit = rw (digit, span_digits) (span_digits-shorter room s)

-- What is read leaves no more than `s` and is at most one token.
abbrev Progresses : List ℕ → EvalError ⊎ Read → Type 0
Progresses s (inl e) = e ≢ out_of_fuel
Progresses s (inr r) = (length r.rest ≤ length s) × (length r.emitted ≤ 1)

if-cases {ℓ κ} :
    {A : Type ℓ} (P : A → Type κ) (b : Bool) {x y : A}
    → (b ≡ true → P x)
    → (b ≡ false → P y)
    → P (if b then x else y)
if-cases P true then_case else_case = then_case refl
if-cases P false then_case else_case = else_case refl

read_number-Progresses :
    (s : List ℕ) (taken : List ℕ × List ℕ) (k : ℕ)
    → length taken.1 ≤ length s
    → Progresses s (read_number taken k)
unfolding read_number
read_number-Progresses s (digits, rest) k h =
    if-cases (Progresses s) (length digits == 31) (λ _. λ e. cc)
      (λ _.
        if-cases (Progresses s) (ltb (decimal 0 digits) (2 ^ 64)) (λ _. (h, omega arith))
          (λ _. λ e. cc))

read_token-Progresses : (ch : ℕ) (s : List ℕ) (k : ℕ) → Progresses s (read_token ch s k)
unfolding read_token
read_token-Progresses ch s k = if-cases P (ch == 40) one (λ _. if-cases P (ch == 41) one (λ _.
    if-cases P (ch == 32 || ch == 9) (λ _. (omega arith, omega arith))
      (λ _. if-cases P (ch == 45) one (λ _. if-cases P (ch == 43) one (λ _.
        if-cases P (ch == 47) one (λ _. if-cases P (ch == 42) one (λ _.
          if-cases P (ch == 120) one (λ _.
            if-cases P (is_digit ch)
              (λ digit.
                read_number-Progresses s (span_digits 31 (ch ∷ s)) k
                  (span_digits-taken 30 ch s digit))
              (λ _. λ e. cc)))))))))
  where
    P : EvalError ⊎ Read → Type 0
    P = Progresses s

    one : {b : Bool} → b ≡ true → (length s ≤ length s) × (1 ≤ 1)
    one e = (omega arith, omega arith)

-- The loop gives an error of the source, or tokens that fit the array.
abbrev pub FitsArray : EvalError ⊎ List Token → Type 0
FitsArray (inl e) = e ≢ out_of_fuel
FitsArray (inr ts) = length ts ≤ max_n

-- With more fuel than the string is long, from tokens that fit the array, the reading of tokens
-- ends in an error of the source or in tokens that fit the array.
pub tokenize-FitsArray :
    (fuel : ℕ) (s : List ℕ) (ts : List Token) (k : ℕ)
    → length s < fuel
    → length ts ≤ max_n
    → FitsArray (tokenize fuel s ts k)
unfolding tokenize
tokenize-FitsArray zero s ts k enough fits = absurd (omega arith)
tokenize-FitsArray (suc fuel) [] ts k enough fits = fits
tokenize-FitsArray (suc fuel) (ch ∷ s) ts k enough fits =
    elim (Bool-cases (ltb (length ts) max_n)) [
      | inr full ↦ rw (full, tokenize) (λ e. cc)
      | inl free ↦
          rw (free, tokenize)
            (go (read_token ch s k) (read_token-Progresses ch s k) (λ r. λ shorter. λ few.
              tokenize-FitsArray fuel r.rest (ts ++ r.emitted) r.n_variables (omega arith)
                (omega (arith, length-append ts r.emitted, ltb→lt (length ts) max_n free))))
    ]
  where
    go :
        (x : EvalError ⊎ Read)
        → Progresses s x
        → ((r : Read)
            → length r.rest ≤ length s
            → length r.emitted ≤ 1
            → FitsArray (tokenize fuel r.rest (ts ++ r.emitted) r.n_variables))
        → FitsArray (elim x [
          | inl e ↦ inl e
          | inr r ↦ tokenize fuel r.rest (ts ++ r.emitted) r.n_variables
        ])
    go (inl e) kept next = kept
    go (inr r) (shorter, few) next = next r shorter few
