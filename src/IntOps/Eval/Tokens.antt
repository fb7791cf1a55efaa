-- ===== src/IntOps/Eval/Tokens.antt =====
-- src/pointless_int_ops.c, `intop_eval_compile`: the tokens of a string, and compiling.
pub mod Progress
use py_pointless.Base.{
  ℕ, zero, suc, ◌+◌, ◌-◌, ◌*◌, ◌^◌, ◌≤◌, ◌<◌, ◌≡◌, ◌≢◌, refl, Bool, true, false, ◌&&◌, ◌||◌, Option,
  some, none, List, [], ◌∷◌, ◌++◌, ltb, ltb→lt, leb, ◌==◌, if◌then◌else◌, ◌⊎◌, inl, inr, arith,
  Bool-cases, length, length-append, get_or,
}
use py_pointless.IntOps.Checked.{Checked}
use py_pointless.IntOps.Eval.{
  Op, op_add, op_sub, op_mul, op_div, Token, number, op, lparen, rparen, variable, EvalError,
  out_of_fuel, too_many_tokens, too_big_number, invalid_number, invalid_token, no_tokens,
  parsing_error, Context, rule_E, descend, max_n,
}

-- What the `switch` does at a character
pub record Read : Type 0 where
  pub emitted : List Token
  pub rest : List ℕ
  pub n_variables : ℕ

abbrev pub is_digit : ℕ → Bool
is_digit ch = leb 48 ch && leb ch 57

-- At most `room` digits, and what follows
pub span_digits : ℕ → List ℕ → List ℕ × List ℕ
span_digits zero s = ([], s)
span_digits (suc room) [] = ([], [])
span_digits (suc room) (ch ∷ s) = elim (is_digit ch) [
  | true ↦ let (digits, rest) = span_digits room s in (ch ∷ digits, rest)
  | false ↦ ([], ch ∷ s)
]

unfoldable pub decimal : ℕ → List ℕ → ℕ
decimal acc [] = acc
decimal acc (ch ∷ s) = decimal (acc * 10 + (ch - 48)) s

-- `parse_number`: `strtoull` fails where the number does not fit into 64 bits.
pub read_number : List ℕ × List ℕ → ℕ → EvalError ⊎ Read
unfolding decimal
read_number (digits, rest) k =
    if length digits == 31
    then inl too_big_number
    else if ltb (decimal 0 digits) (2 ^ 64)
    then inr (record {
      emitted = number (record { is_overflow = false; value = decimal 0 digits }) ∷ [];
      rest = rest;
      n_variables = k;
    })
    else inl invalid_number

abbrev pub single : Token → List ℕ → ℕ → EvalError ⊎ Read
single t s k = inr (record { emitted = t ∷ []; rest = s; n_variables = k })

pub read_token : ℕ → List ℕ → ℕ → EvalError ⊎ Read
unfolding span_digits read_number
read_token ch s k =
    if ch == 40
    then single lparen s k
    else if ch == 41
    then single rparen s k
    else if ch == 32 || ch == 9
    then inr (record { emitted = []; rest = s; n_variables = k })
    else if ch == 45
    then single (op op_sub) s k
    else if ch == 43
    then single (op op_add) s k
    else if ch == 47
    then single (op op_div) s k
    else if ch == 42
    then single (op op_mul) s k
    else if ch == 120
    then single (variable k) s (k + 1)
    else if is_digit ch
    then read_number (span_digits 31 (ch ∷ s)) k
    else inl invalid_token

-- The loop over the string. The fuel is enough where it is larger than the string is long.
pub tokenize : ℕ → List ℕ → List Token → ℕ → EvalError ⊎ List Token
unfolding read_token
tokenize zero s ts k = inl out_of_fuel
tokenize (suc fuel) [] ts k = inr ts
tokenize (suc fuel) (ch ∷ s) ts k = elim (ltb (length ts) max_n) [
  | false ↦ inl too_many_tokens
  | true ↦ elim (read_token ch s k) [
    | inl e ↦ inl e
    | inr r ↦ tokenize fuel r.rest (ts ++ r.emitted) r.n_variables
  ]
]

-- The context behind a descent: `stale` is what the array had before.
pub finish_compile : ℕ → Context → EvalError ⊎ List Token
finish_compile n c = elim c.s_error [
  | some e ↦ inl e
  | none ↦ if c.i == n then inr c.stack else inl parsing_error
]

unfoldable pub compile_tokens : (ℕ → Token) → List Token → EvalError ⊎ List Token
unfolding finish_compile descend
compile_tokens stale [] = inl no_tokens
compile_tokens stale (t ∷ ts) = finish_compile (length (t ∷ ts)) (
    descend 2048 rule_E (record {
      i = 0;
      tokens = λ k. if ltb k (length (t ∷ ts)) then get_or (t ∷ ts) k (stale k) else stale k;
      stack = [];
      s_error = none;
    }))

unfoldable pub compile : (ℕ → Token) → List ℕ → EvalError ⊎ List Token
unfolding tokenize compile_tokens
compile stale s = elim (tokenize (length s + 1) s [] 0) [
  | inl e ↦ inl e
  | inr ts ↦ compile_tokens stale ts
]
