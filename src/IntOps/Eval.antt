-- ===== src/IntOps/Eval.antt =====
-- src/pointless_int_ops.c: the evaluator of expressions over checked 64-bit integers. A string is
-- the list of its characters' codes. `tokens` has arbitrary contents from `n` on, since compiling
-- writes the first `n` only; the parser's bound is the size of the array.
pub mod Bounds
pub mod Run
pub mod Tokens
use py_pointless.Base.{
  ℕ, zero, suc, ◌+◌, ◌-◌, ◌*◌, ◌/◌, ◌^◌, Bool, true, false, ◌&&◌, ◌||◌, Option, some, none, List,
  [], ◌∷◌, ◌++◌, ltb, leb, ◌==◌, if◌then◌else◌, length,
}
use py_pointless.IntOps.Checked
use py_pointless.IntOps.Checked.{Checked}

pub data Op : Type 0 where
  op_add op_sub op_mul op_div : Op

-- `intop_eval_token_t`
pub data Token : Type 0 where
  number : Checked → Token
  op : Op → Token
  lparen rparen : Token
  variable : ℕ → Token

-- The messages, and the model's own `out_of_fuel` and `assertion`
pub data EvalError : Type 0 where
  result_stack_overflow expected_rparen expected_operand too_many_tokens too_big_number : EvalError
  invalid_number invalid_token no_tokens parsing_error not_supported underflow : EvalError
  division_by_zero compile_eval_error eval_overflow : EvalError
  out_of_fuel assertion : EvalError

-- `intop_eval_context_t`, while it is compiled; `s_n` is the length of `stack`.
pub record Context : Type 0 where
  pub i : ℕ
  pub tokens : ℕ → Token
  pub stack : List Token
  pub s_error : Option EvalError

abbrev pub max_n : ℕ
max_n = 512

pub fail : EvalError → Context → Context
fail e c = record c { s_error = some e }

abbrev pub advance : Context → Context
advance c = record c { i = c.i + 1 }

pub has_error : Context → Bool
has_error c = elim c.s_error [ some _ ↦ true | none ↦ false ]

pub push : Token → Context → Context
unfolding fail
push t c =
    if length c.stack == max_n
    then fail result_stack_overflow c
    else record c { stack = c.stack ++ (t ∷ []) }

pub is_sum : Token → Bool
is_sum (op op_add) = true
is_sum (op op_sub) = true
is_sum _ = false

pub is_product : Token → Bool
is_product (op op_mul) = true
is_product (op op_div) = true
is_product _ = false

pub is_operand : Token → Bool
is_operand (number _) = true
is_operand (variable _) = true
is_operand _ = false

pub is_lparen : Token → Bool
is_lparen lparen = true
is_lparen _ = false

-- Whether the token at `i` is one of the kind, with the check of the bounds
pub at_token : (Token → Bool) → Context → Bool
at_token kind c = ltb c.i max_n && kind (c.tokens c.i)

pub is_rparen : Token → Bool
is_rparen rparen = true
is_rparen _ = false

-- Behind the expression in parentheses
pub close : Context → Context
unfolding fail has_error is_rparen at_token
close c =
    if has_error c then c else if at_token is_rparen c then advance c else fail expected_rparen c

-- The five functions of the descent
pub data Rule : Type 0 where
  rule_E rule_Em rule_T rule_Tm rule_F : Rule

pub descend : ℕ → Rule → Context → Context
unfolding fail has_error push is_sum is_product is_operand is_lparen at_token close
descend zero r c = fail out_of_fuel c
descend (suc fuel) rule_E c = elim (has_error c) [
  | true ↦ c
  | false ↦ descend fuel rule_Em (descend fuel rule_T c)
]
descend (suc fuel) rule_Em c = elim (has_error c) [
  | true ↦ c
  | false ↦ elim (at_token is_sum c) [
    | true ↦ push (c.tokens c.i) (descend fuel rule_Em (descend fuel rule_T (advance c)))
    | false ↦ c
  ]
]
descend (suc fuel) rule_T c = elim (has_error c) [
  | true ↦ c
  | false ↦ descend fuel rule_Tm (descend fuel rule_F c)
]
descend (suc fuel) rule_Tm c = elim (has_error c) [
  | true ↦ c
  | false ↦ elim (at_token is_product c) [
    | true ↦ push (c.tokens c.i) (descend fuel rule_Tm (descend fuel rule_F (advance c)))
    | false ↦ c
  ]
]
descend (suc fuel) rule_F c = elim (has_error c) [
  | true ↦ c
  | false ↦ elim (at_token is_operand c) [
    | true ↦ advance (push (c.tokens c.i) c)
    | false ↦ elim (at_token is_lparen c) [
      | true ↦ close (descend fuel rule_E (advance c))
      | false ↦ fail expected_operand c
    ]
  ]
]
