-- ===== src/IntOps/Eval/Run.antt =====
-- src/pointless_int_ops.c, `intop_eval_eval`: the run of a compiled expression.
use py_pointless.Base.{
  ℕ, zero, suc, ◌-◌, ◌/◌, ◌≡◌, refl, ap, ◌∙◌, false, ◌||◌, none, List, [], ◌∷◌, ltb, ◌==◌,
  if◌then◌else◌, ◌⊎◌, inl, inr, Bool-cases,
}
use py_pointless.IntOps.Checked.{Checked, u64_add, u64_mult}
use py_pointless.IntOps.Eval.{
  Op, op_add, op_sub, op_mul, op_div, Token, number, op, lparen, rparen, variable, EvalError,
  not_supported, underflow, division_by_zero, compile_eval_error, eval_overflow, assertion,
  invalid_token, Context, rule_E, descend,
}

-- `a` is the top of the stack, `b` what is below it.
pub apply : Op → Checked → Checked → EvalError ⊎ Checked
unfolding u64_add u64_mult
apply op_sub a b =
    if ltb a.value b.value
    then inl underflow
    else inr (record { is_overflow = a.is_overflow || b.is_overflow; value = a.value - b.value })
apply op_add a b = inr (u64_add a b)
apply op_div a b =
    if b.value == 0
    then inl division_by_zero
    else inr (record { is_overflow = a.is_overflow || b.is_overflow; value = a.value / b.value })
apply op_mul a b = inr (u64_mult a b)

-- The loop, with the top of the stack first
pub run_stack : List Token → List Checked → EvalError ⊎ List Checked
unfolding apply
run_stack [] s = inr s
run_stack (number v ∷ rest) s = run_stack rest (v ∷ s)
run_stack (variable k ∷ rest) s = inl not_supported
run_stack (op o ∷ rest) (a ∷ b ∷ s) = elim (apply o a b) [
  | inl e ↦ inl e
  | inr r ↦ run_stack rest (r ∷ s)
]
run_stack (op o ∷ rest) (a ∷ []) = inl assertion
run_stack (op o ∷ rest) [] = inl assertion
run_stack (lparen ∷ rest) s = inl invalid_token
run_stack (rparen ∷ rest) s = inl invalid_token

pub outcome : EvalError ⊎ List Checked → EvalError ⊎ ℕ
outcome (inl e) = inl e
outcome (inr (r ∷ [])) = if r.is_overflow then inl eval_overflow else inr r.value
outcome (inr []) = inl compile_eval_error
outcome (inr (r ∷ q ∷ s)) = inl compile_eval_error

pub eval : List Token → EvalError ⊎ ℕ
unfolding run_stack outcome
eval stack = outcome (run_stack stack [])

abbrev pub plain : ℕ → Checked
plain v = record { is_overflow = false; value = v }

-- The tokens of `n o m`, in an array of parentheses
abbrev pub binary : ℕ → Op → ℕ → ℕ → Token
binary n o m zero = number (plain n)
binary n o m (suc zero) = op o
binary n o m (suc (suc zero)) = number (plain m)
binary n o m (suc (suc (suc k))) = rparen

abbrev pub start : (ℕ → Token) → Context
start tokens = record { i = 0; tokens = tokens; stack = []; s_error = none }

compiled :
    (n m : ℕ) (o : Op)
    → (descend 9 rule_E (start (binary n o m))).stack
      ≡ number (plain n) ∷ number (plain m) ∷ op o ∷ []
unfolding descend
compiled n m op_sub = refl
compiled n m op_div = refl
compiled n m op_add = refl
compiled n m op_mul = refl

-- A binary expression runs as its operator, on the right operand and the left one.
finish : EvalError ⊎ Checked → EvalError ⊎ ℕ
unfolding outcome
finish (inl e) = inl e
finish (inr r) = outcome (inr (r ∷ []))

run_binary :
    (n m : ℕ) (o : Op)
    → eval (number (plain n) ∷ number (plain m) ∷ op o ∷ []) ≡ finish (apply o (plain m) (plain n))
unfolding eval run_stack outcome finish
run_binary n m o = go (apply o (plain m) (plain n))
  where
    go :
        (x : EvalError ⊎ Checked)
        → outcome (elim x [ inl e ↦ inl e | inr r ↦ run_stack [] (r ∷ []) ]) ≡ finish x
    go (inl e) = refl
    go (inr r) = refl

-- The compiled difference of `n` and `m` runs as that of `m` and `n`: it is `m - n`, or an
-- underflow where `n` is larger. The quotient is reversed as well: it is `m / n`, or a division by
-- zero where `n` is 0.
pub eval-reversed :
    (n m : ℕ)
    → (eval (descend 9 rule_E (start (binary n op_sub m))).stack
        ≡ (if ltb m n then inl underflow else inr (m - n)))
      × (eval (descend 9 rule_E (start (binary n op_div m))).stack
          ≡ (if n == 0 then inl division_by_zero else inr (m / n)))
unfolding apply finish outcome
eval-reversed n m = (
  ap eval (compiled n m op_sub) ∙ run_binary n m op_sub ∙ difference,
  ap eval (compiled n m op_div) ∙ run_binary n m op_div ∙ quotient,
)
  where
    difference :
        finish (apply op_sub (plain m) (plain n)) ≡ (if ltb m n then inl underflow else inr (m - n))
    difference = elim (Bool-cases (ltb m n)) [
      | inl under ↦ rw (under, apply, finish) refl
      | inr over ↦ rw (over, apply, finish) refl
    ]

    quotient :
        finish (apply op_div (plain m) (plain n))
        ≡ (if n == 0 then inl division_by_zero else inr (m / n))
    quotient = elim (Bool-cases (n == 0)) [
      | inl null ↦ rw (null, apply, finish) refl
      | inr other ↦ rw (other, apply, finish) refl
    ]
