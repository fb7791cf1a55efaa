-- ===== src/Eval/Paths.antt =====
-- The evaluation of a path that is put together from two is the evaluation of one behind the other.
use py_pointless.Base.{
  ℕ, zero, suc, ◌≤◌, ◌<◌, ◌≡◌, refl, sym, ◌∙◌, ap, arith, List, [], ◌∷◌, ◌++◌, length, ◌==◌,
  Bool-cases, inl, inr,
}
use mathlib.Core.Path.{subst}
use py_pointless.Eval.{
  Argument, Parsed, parsed, malformed, bad_argument, is_space, skip_whitespace, parse_index, select,
  Single, advanced, no_value, step_fault, step_endless, Evaluated, reached, close_bracket,
  with_value, with_index, bracket, eval_get_single, on_single, eval_loop, eval_get,
}
use py_pointless.Eval.Progress.{Shorter, bracket-Shorter, eval_get-step}
use py_pointless.Eval.Extension.{join, skip_whitespace-append, Extends, parse_index-Extends}
use py_pointless.Eval.Remainder.{skip_whitespace-length}
use py_pointless.Reader.{Pointless}
use py_pointless.Reader.Tables.{Found, found, missing, not_hashable, cmp_error, bad_access, endless}
use py_pointless.Value.{Value}

skip_whitespace_twice : (e : List ℕ) → skip_whitespace (skip_whitespace e) ≡ skip_whitespace e
unfolding skip_whitespace
skip_whitespace_twice [] = refl
skip_whitespace_twice (c ∷ e) = elim (Bool-cases (is_space c)) [
  | inl blank ↦ rw blank (skip_whitespace_twice e)
  | inr other ↦ rw other (rw other refl)
]

-- A step that leaves something of the path leaves `t` behind it where the path goes on with `t`.
abbrev SingleExtends : List ℕ → Single → Single → Type 0
SingleExtends t (advanced e v left) q = q ≡ advanced (join e t) v left
SingleExtends t no_value q = Unit
SingleExtends t step_fault q = Unit
SingleExtends t step_endless q = Unit

module _ (p : Pointless) (t : List ℕ) where
  close_bracket-SingleExtends :
      (e : List ℕ) (v : Value) (left : List Argument)
      → SingleExtends t (close_bracket p e v left) (close_bracket p (join e t) v left)
  close_bracket-SingleExtends [] v left = tt
  close_bracket-SingleExtends (c ∷ e) v left = elim (Bool-cases (c == 93)) [
    | inl here ↦ rw here (ap (λ r. advanced r v left) (skip_whitespace-append e t))
    | inr other ↦ rw other tt
  ]

  with_value-SingleExtends :
      (f : Found Value) (e : List ℕ) (left : List Argument)
      → SingleExtends t (with_value p f e left) (with_value p f (e ++ t) left)
  with_value-SingleExtends (found v) e left =
      rw (skip_whitespace-append e t) (close_bracket-SingleExtends (skip_whitespace e) v left)
  with_value-SingleExtends missing e left = tt
  with_value-SingleExtends not_hashable e left = tt
  with_value-SingleExtends cmp_error e left = tt
  with_value-SingleExtends bad_access e left = tt
  with_value-SingleExtends endless e left = tt

  -- A path that ends behind an index has no bracket that closes it.
  unclosed :
      (f : Found Value) (left : List Argument) (q : Single)
      → SingleExtends t (with_value p f [] left) q
  unfolding skip_whitespace
  unclosed (found v) left q = tt
  unclosed missing left q = tt
  unclosed not_hashable left q = tt
  unclosed cmp_error left q = tt
  unclosed bad_access left q = tt
  unclosed endless left q = tt

  with_index-SingleExtends :
      (r q : Parsed) (root : Value)
      → Extends t r q
      → SingleExtends t (with_index p r root) (with_index p q root)
  with_index-SingleExtends (parsed i [] left) q root h =
      unclosed (select p root i) left (with_index p q root)
  with_index-SingleExtends (parsed i (c ∷ e) left) q root h =
      subst
        (λ x. SingleExtends t (with_value p (select p root i) (c ∷ e) left) (with_index p x root))
        (sym h) (with_value-SingleExtends (select p root i) (c ∷ e) left)
  with_index-SingleExtends malformed q root h = tt
  with_index-SingleExtends bad_argument q root h = tt

  bracket-SingleExtends :
      (c : ℕ) (e : List ℕ) (root : Value) (args : List Argument)
      → SingleExtends t (bracket p (c ∷ e) root args) (bracket p (c ∷ e ++ t) root args)
  bracket-SingleExtends c e root args = elim (Bool-cases (c == 91)) [
    | inl here ↦ rw here (
        with_index-SingleExtends (parse_index e args) (parse_index (e ++ t) args) root
          (parse_index-Extends t e args))
    | inr other ↦ rw other tt
  ]

module _ (p : Pointless) where
  -- What follows a step
  abbrev next : List ℕ → Value → List Argument → Evaluated
  next r v left = eval_get p v r left

  eval_get-nil : (root : Value) (args : List Argument) → eval_get p root [] args ≡ reached root args
  unfolding eval_get eval_loop
  eval_get-nil root args = refl

  -- A path with its blanks skipped
  eval_get-bracket :
      (c : ℕ) (e w : List ℕ) (root : Value) (args : List Argument)
      → skip_whitespace (c ∷ e) ≡ w
      → eval_get p root (c ∷ e) args ≡ on_single p (bracket p w root args) next
  unfolding eval_get_single
  eval_get-bracket c e w root args h =
      eval_get-step p c e root args ∙ ap (λ x. on_single p (bracket p x root args) next) h

  eval_get-skip_whitespace :
      (e : List ℕ) (root : Value) (args : List Argument)
      → eval_get p root (skip_whitespace e) args ≡ eval_get p root e args
  unfolding skip_whitespace
  eval_get-skip_whitespace [] root args = refl
  eval_get-skip_whitespace (c ∷ e) root args = go (skip_whitespace (c ∷ e)) refl
    where
      go :
          (w : List ℕ)
          → skip_whitespace (c ∷ e) ≡ w
          → eval_get p root w args ≡ eval_get p root (c ∷ e) args
      go [] h = sym (eval_get-bracket c e [] root args h)
      go (d ∷ w) h =
          let twice : skip_whitespace (d ∷ w) ≡ d ∷ w =
            ap skip_whitespace (sym h) ∙ skip_whitespace_twice (c ∷ e) ∙ h in
          eval_get-bracket d w (d ∷ w) root args twice
          ∙ sym (eval_get-bracket c e (d ∷ w) root args h)

  eval_get-join :
      (e t : List ℕ) (root : Value) (args : List Argument)
      → eval_get p root (join e t) args ≡ eval_get p root (e ++ t) args
  eval_get-join [] t root args = eval_get-skip_whitespace t root args
  eval_get-join (c ∷ e) t root args = refl

  -- What the path `e` says of the one that goes on with `t`
  Continues : List ℕ → ℕ → List ℕ → Value → List Argument → Type 0
  Continues t n e root args =
      (v : Value) (left : List Argument)
      → length e < n
      → eval_get p root e args ≡ reached v left
      → eval_get p root (e ++ t) args ≡ eval_get p v t left

  continue_single :
      (t : List ℕ) (n : ℕ) (s q : Single) (v : Value) (left : List Argument)
      → SingleExtends t s q
      → Shorter n s
      → ((e : List ℕ) (root : Value) (args : List Argument) → Continues t n e root args)
      → on_single p s next ≡ reached v left
      → on_single p q next ≡ eval_get p v t left
  unfolding Continues
  continue_single t n (advanced r v1 l1) q v left extends shorter ih h =
      ap (λ x. on_single p x next) extends ∙ eval_get-join r t v1 l1 ∙ ih r v1 l1 v left shorter h
  continue_single t n no_value q v left extends shorter ih h = cc
  continue_single t n step_fault q v left extends shorter ih h = cc
  continue_single t n step_endless q v left extends shorter ih h = cc

  from_skipped :
      (t : List ℕ) (n c : ℕ) (e w : List ℕ) (root : Value) (args : List Argument) (v : Value)
      (left : List Argument)
      → skip_whitespace (c ∷ e) ≡ w
      → length e ≤ n
      → ((e : List ℕ) (root : Value) (args : List Argument) → Continues t (suc n) e root args)
      → eval_get p root (c ∷ e) args ≡ reached v left
      → eval_get p root (c ∷ e ++ t) args ≡ eval_get p v t left
  from_skipped t n c e [] root args v left hw le ih h =
      let done : reached root args ≡ reached v left =
        ended (eval_get-bracket c e [] root args hw) in
      let same_v : root ≡ v = cc in
      let same_left : args ≡ left = cc in
      let skipped : skip_whitespace (c ∷ e ++ t) ≡ skip_whitespace t =
        skip_whitespace-append (c ∷ e) t ∙ ap (λ x. join x t) hw in
      sym (eval_get-skip_whitespace (c ∷ e ++ t) root args)
      ∙ ap (λ x. eval_get p root x args) skipped
      ∙ eval_get-skip_whitespace t root args
      ∙ rw (same_v, same_left) refl
    where
      ended :
          eval_get p root (c ∷ e) args ≡ on_single p (bracket p [] root args) next
          → reached root args ≡ reached v left
      ended step = sym (step ∙ eval_get-nil root args) ∙ h
  from_skipped t n c e (d ∷ w) root args v left hw le ih h =
      let skipped : skip_whitespace (c ∷ e ++ t) ≡ d ∷ w ++ t =
        skip_whitespace-append (c ∷ e) t ∙ ap (λ x. join x t) hw in
      let short : length (d ∷ w) ≤ suc n =
        let shorter = skip_whitespace-length (c ∷ e) in
        let same = ap length hw in omega (arith, shorter, same, le) in
      eval_get-bracket c (e ++ t) (d ∷ w ++ t) root args skipped
      ∙ continue_single t (suc n) (bracket p (d ∷ w) root args) (bracket p (d ∷ w ++ t) root args) v
          left (bracket-SingleExtends p t d w root args)
          (bracket-Shorter p n (d ∷ w) root args short) ih
          (sym (eval_get-bracket c e (d ∷ w) root args hw) ∙ h)

  eval_get-Continues :
      (t : List ℕ) (n : ℕ) (e : List ℕ) (root : Value) (args : List Argument)
      → Continues t n e root args
  unfolding Continues eval_get eval_loop
  eval_get-Continues t zero e root args v left lt h = absurd (omega (arith, lt))
  eval_get-Continues t (suc n) [] root args v left lt h =
      let same_v : root ≡ v = cc in let same_left : args ≡ left = cc in rw (same_v, same_left) refl
  eval_get-Continues t (suc zero) (c ∷ e) root args v left lt h = absurd (omega (arith, lt))
  eval_get-Continues t (suc (suc n)) (c ∷ e) root args v left lt h =
      from_skipped t n c e (skip_whitespace (c ∷ e)) root args v left refl (omega (arith, lt))
        (λ e' root' args'. eval_get-Continues t (suc n) e' root' args') h

-- Where a path leads from a value to another one, the path that goes on with `t` leads from the
-- first value to where `t` leads from the second, with the arguments that are left.
pub eval_get-append :
    (p : Pointless) (root : Value) (e t : List ℕ) (args : List Argument) (v : Value)
    (left : List Argument)
    → eval_get p root e args ≡ reached v left
    → eval_get p root (e ++ t) args ≡ eval_get p v t left
unfolding Continues
eval_get-append p root e t args v left h =
    eval_get-Continues p t (suc (length e)) e root args v left (omega arith) h
