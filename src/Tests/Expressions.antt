-- ===== src/Tests/Expressions.antt =====
-- The evaluator of expressions at concrete inputs.
use py_pointless.Base.{ℕ, ◌≡◌, refl, List, [], ◌∷◌, arith, ◌==◌, if◌then◌else◌, inl, inr}
use py_pointless.IntOps.Eval.{
  Token, number, op, rparen, op_sub, op_div, op_mul, op_add, rule_E, descend, underflow,
  parsing_error,
}
use py_pointless.IntOps.Eval.Bounds.{IsBounded, descend-IsBounded}
use py_pointless.IntOps.Eval.Run.{eval, start, binary, plain, eval-reversed}
use py_pointless.IntOps.Eval.Tokens.{compile}

descend-IsBounded_example : IsBounded (descend 9 rule_E (start (binary 5 op_sub 3)))
descend-IsBounded_example =
    descend-IsBounded 9 rule_E (start (binary 5 op_sub 3))
      record { token_within = omega arith; stack_within = omega arith }

eval-reversed_example :
    (eval (descend 9 rule_E (start (binary 5 op_sub 3))).stack ≡ inl underflow)
    × (eval (descend 9 rule_E (start (binary 5 op_div 3))).stack ≡ inr 0)
eval-reversed_example = eval-reversed 5 3

-- 3*4
abbrev three_times_four : List ℕ
three_times_four = 51 ∷ 42 ∷ 52 ∷ []

compiled_product :
    compile (λ k. rparen) three_times_four
    ≡ inr (number (plain 3) ∷ number (plain 4) ∷ op op_mul ∷ [])
unfolding compile
compiled_product = refl

-- What the array had before: `+ 4`
abbrev stale_sum : ℕ → Token
stale_sum k = if k == 1 then op op_add else number (plain 4)

-- One number does not compile where the array had an operator behind it.
stale_rejected : compile stale_sum (51 ∷ []) ≡ inl parsing_error
unfolding compile
stale_rejected = refl
