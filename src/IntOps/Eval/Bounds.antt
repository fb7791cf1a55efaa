-- ===== src/IntOps/Eval/Bounds.antt =====
-- src/pointless_int_ops.c: the parser stays within its arrays.
use py_pointless.Base.{
  ℕ, zero, suc, ◌≤◌, ◌<◌, ◌≡◌, refl, Bool, true, [], ◌∷◌, ltb, ltb→lt, ◌==◌, ==→ne, arith,
  Bool-cases, inl, inr, length, length-append,
}
use py_pointless.IntOps.Eval.{
  Token, EvalError, Context, fail, advance, has_error, push, at_token, is_sum, is_product,
  is_operand, is_lparen, is_rparen, close, Rule, rule_E, rule_Em, rule_T, rule_Tm, rule_F, descend,
  max_n,
}

-- The current token is at most one past the array, and the result stack fits its array.
pub record IsBounded (c : Context) : Type 0 where
  pub token_within : c.i ≤ max_n
  pub stack_within : length c.stack ≤ max_n

fail-IsBounded : (e : EvalError) (c : Context) → IsBounded c → IsBounded (fail e c)
unfolding fail
fail-IsBounded e c h = record { token_within = h.token_within; stack_within = h.stack_within }

advance-IsBounded : (c : Context) → c.i < max_n → IsBounded c → IsBounded (advance c)
advance-IsBounded c below h = record { token_within = omega arith; stack_within = h.stack_within }

push-IsBounded : (t : Token) (c : Context) → IsBounded c → IsBounded (push t c)
unfolding push
push-IsBounded t c h = elim (Bool-cases (length c.stack == max_n)) [
  | inl full ↦ rw full (fail-IsBounded _ c h)
  | inr free ↦ rw free record {
    token_within = h.token_within;
    stack_within = omega (arith, length-append c.stack (t ∷ []), ==→ne _ _ free, h.stack_within);
  }
]

push-i : (t : Token) (c : Context) → (push t c).i ≡ c.i
unfolding push fail
push-i t c = elim (Bool-cases (length c.stack == max_n)) [
  | inl full ↦ rw full refl
  | inr free ↦ rw free refl
]

emit-IsBounded :
    (t : Token) (c : Context) → c.i < max_n → IsBounded c → IsBounded (advance (push t c))
emit-IsBounded t c below h =
    advance-IsBounded (push t c) (omega (arith, push-i t c)) (push-IsBounded t c h)

at_token-below : (kind : Token → Bool) (c : Context) → at_token kind c ≡ true → c.i < max_n
unfolding at_token
at_token-below kind c e = elim (Bool-cases (ltb c.i max_n)) [
  | inl below ↦ ltb→lt _ _ below
  | inr past ↦ absurd (let no = rw past at e in cc)
]

close-IsBounded : (c : Context) → IsBounded c → IsBounded (close c)
unfolding close
close-IsBounded c h = elim (Bool-cases (has_error c)) [
  | inl bad ↦ rw bad h
  | inr good ↦ elim (Bool-cases (at_token is_rparen c)) [
    | inl closed ↦ rw (good, closed) (advance-IsBounded c (at_token-below is_rparen c closed) h)
    | inr other ↦ rw (good, other) (fail-IsBounded _ c h)
  ]
]

-- From bounds that hold, every rule of the descent ends in bounds that hold, whatever the tokens.
pub descend-IsBounded :
    (fuel : ℕ) (r : Rule) (c : Context) → IsBounded c → IsBounded (descend fuel r c)
unfolding descend
descend-IsBounded zero r c h = fail-IsBounded _ c h
descend-IsBounded (suc fuel) rule_E c h = elim (Bool-cases (has_error c)) [
  | inl bad ↦ rw (bad, descend) h
  | inr good ↦
      rw (good, descend) (descend-IsBounded fuel rule_Em _ (descend-IsBounded fuel rule_T c h))
]
descend-IsBounded (suc fuel) rule_T c h = elim (Bool-cases (has_error c)) [
  | inl bad ↦ rw (bad, descend) h
  | inr good ↦
      rw (good, descend) (descend-IsBounded fuel rule_Tm _ (descend-IsBounded fuel rule_F c h))
]
descend-IsBounded (suc fuel) rule_Em c h = elim (Bool-cases (has_error c)) [
  | inl bad ↦ rw (bad, descend) h
  | inr good ↦ elim (Bool-cases (at_token is_sum c)) [
    | inr other ↦ rw (good, other, descend) h
    | inl sum ↦
        rw (good, sum, descend)
          (push-IsBounded (c.tokens c.i) _ (
            descend-IsBounded fuel rule_Em _ (
              descend-IsBounded fuel rule_T (advance c)
                (advance-IsBounded c (at_token-below is_sum c sum) h))))
  ]
]
descend-IsBounded (suc fuel) rule_Tm c h = elim (Bool-cases (has_error c)) [
  | inl bad ↦ rw (bad, descend) h
  | inr good ↦ elim (Bool-cases (at_token is_product c)) [
    | inr other ↦ rw (good, other, descend) h
    | inl product ↦
        rw (good, product, descend)
          (push-IsBounded (c.tokens c.i) _ (
            descend-IsBounded fuel rule_Tm _ (
              descend-IsBounded fuel rule_F (advance c)
                (advance-IsBounded c (at_token-below is_product c product) h))))
  ]
]
descend-IsBounded (suc fuel) rule_F c h = elim (Bool-cases (has_error c)) [
  | inl bad ↦ rw (bad, descend) h
  | inr good ↦ elim (Bool-cases (at_token is_operand c)) [
    | inl operand ↦
        rw (good, operand, descend)
          (emit-IsBounded (c.tokens c.i) c (at_token-below is_operand c operand) h)
    | inr neither ↦ elim (Bool-cases (at_token is_lparen c)) [
      | inr other ↦ rw (good, neither, other, descend) (fail-IsBounded _ c h)
      | inl opened ↦
          rw (good, neither, opened, descend)
            (close-IsBounded _ (
              descend-IsBounded fuel rule_E (advance c)
                (advance-IsBounded c (at_token-below is_lparen c opened) h)))
    ]
  ]
]
