-- ===== src/Eval/Progress.antt =====
-- Every step of a path leaves less of it.
use py_pointless.Base.{
  ℕ, zero, suc, ◌≤◌, ◌<◌, ◌≡◌, refl, arith, List, [], ◌∷◌, length, ◌==◌, Bool-cases, inl, inr,
}
use py_pointless.Eval.{
  Argument, Parsed, parsed, malformed, bad_argument, skip_whitespace, parse_index, select, Single,
  advanced, no_value, step_fault, step_endless, Evaluated, never_ends, out_of_fuel, close_bracket,
  with_value, with_index, bracket, eval_get_single, on_single, eval_loop, eval_get,
}
use py_pointless.Eval.Lookups.{HasFullMap, Returns, select-Returns}
use py_pointless.Eval.Remainder.{skip_whitespace-length, Within, parse_index-Within}
use py_pointless.Reader.{Pointless}
use py_pointless.Reader.Tables.{Found, found, missing, not_hashable, cmp_error, bad_access, endless}
use py_pointless.Value.{Value}

-- What the result of an evaluation says: its steps did not run out, and a run without an end is one
-- over a map whose table is full, or is no table of 2 ^ k buckets.
abbrev pub Concludes : Pointless → Evaluated → Type 0
Concludes p out_of_fuel = ⊥
Concludes p never_ends = HasFullMap p
Concludes p _ = Unit

-- What a step leaves of the path is less than `n` long.
abbrev pub Shorter : ℕ → Single → Type 0
Shorter n (advanced e root args) = length e < n
Shorter n no_value = Unit
Shorter n step_fault = Unit
Shorter n step_endless = Unit

module _ (p : Pointless) where
  close_bracket-Shorter :
      (n : ℕ) (e : List ℕ) (root : Value) (args : List Argument)
      → length e ≤ n
      → Shorter (suc n) (close_bracket p e root args)
  close_bracket-Shorter n [] root args le = tt
  close_bracket-Shorter n (c ∷ e) root args le = elim (Bool-cases (c == 93)) [
    | inl here ↦ rw here (let shorter = skip_whitespace-length e in omega (arith, shorter, le))
    | inr other ↦ rw other tt
  ]

  with_value-Shorter :
      (n : ℕ) (f : Found Value) (e : List ℕ) (args : List Argument)
      → length e ≤ n
      → Shorter (suc n) (with_value p f e args)
  with_value-Shorter n (found v) e args le =
      close_bracket-Shorter n (skip_whitespace e) v args
        (let shorter = skip_whitespace-length e in omega (arith, shorter, le))
  with_value-Shorter n missing e args le = tt
  with_value-Shorter n not_hashable e args le = tt
  with_value-Shorter n cmp_error e args le = tt
  with_value-Shorter n bad_access e args le = tt
  with_value-Shorter n endless e args le = tt

  with_index-Shorter :
      (n : ℕ) (r : Parsed) (root : Value) → Within n r → Shorter (suc n) (with_index p r root)
  with_index-Shorter n (parsed i e args) root le = with_value-Shorter n (select p root i) e args le
  with_index-Shorter n malformed root le = tt
  with_index-Shorter n bad_argument root le = tt

  pub bracket-Shorter :
      (n : ℕ) (e : List ℕ) (root : Value) (args : List Argument)
      → length e ≤ suc n
      → Shorter (suc n) (bracket p e root args)
  bracket-Shorter n [] root args le = omega arith
  bracket-Shorter n (c ∷ e) root args le = elim (Bool-cases (c == 91)) [
    | inl here ↦ rw here (
        with_index-Shorter n (parse_index e args) root (
          Within-≤ (length e) n (parse_index e args) (omega (arith, le))
            (parse_index-Within e args)))
    | inr other ↦ rw other tt
  ]
    where
      Within-≤ : (a b : ℕ) (r : Parsed) → a ≤ b → Within a r → Within b r
      Within-≤ a b (parsed i e args) le h = omega (arith, le, h)
      Within-≤ a b malformed le h = tt
      Within-≤ a b bad_argument le h = tt

  eval_get_single-Shorter :
      (c : ℕ) (e : List ℕ) (root : Value) (args : List Argument)
      → Shorter (suc (length e)) (eval_get_single p root (c ∷ e) args)
  unfolding eval_get_single
  eval_get_single-Shorter c e root args =
      bracket-Shorter (length e) (skip_whitespace (c ∷ e)) root args
        (skip_whitespace-length (c ∷ e))

  on_single-cong :
      (n : ℕ) (s : Single) (f g : List ℕ → Value → List Argument → Evaluated)
      → Shorter n s
      → ((e : List ℕ) (v : Value) (left : List Argument) → length e < n → f e v left ≡ g e v left)
      → on_single p s f ≡ on_single p s g
  on_single-cong n (advanced e v left) f g shorter same = same e v left shorter
  on_single-cong n no_value f g shorter same = refl
  on_single-cong n step_fault f g shorter same = refl
  on_single-cong n step_endless f g shorter same = refl

  -- More fuel than the path is long changes nothing.
  eval_loop-fuel :
      (f g : ℕ) (e : List ℕ) (root : Value) (args : List Argument)
      → length e < f
      → length e < g
      → eval_loop p f e root args ≡ eval_loop p g e root args
  unfolding eval_loop
  eval_loop-fuel zero g e root args lt lt' = absurd (omega (arith, lt))
  eval_loop-fuel (suc f) zero e root args lt lt' = absurd (omega (arith, lt'))
  eval_loop-fuel (suc f) (suc g) [] root args lt lt' = refl
  eval_loop-fuel (suc f) (suc g) (c ∷ e) root args lt lt' =
      on_single-cong (suc (length e)) (eval_get_single p root (c ∷ e) args)
        (λ r v left. eval_loop p f r v left) (λ r v left. eval_loop p g r v left)
        (eval_get_single-Shorter c e root args)
        (λ r v left less.
          eval_loop-fuel f g r v left (omega (arith, less, lt)) (omega (arith, less, lt')))

  -- The loop, without its fuel
  pub eval_get-step :
      (c : ℕ) (e : List ℕ) (root : Value) (args : List Argument)
      → eval_get p root (c ∷ e) args
        ≡ on_single p (eval_get_single p root (c ∷ e) args) (λ r v left. eval_get p v r left)
  unfolding eval_get eval_loop
  eval_get-step c e root args =
      on_single-cong (suc (length e)) (eval_get_single p root (c ∷ e) args)
        (λ r v left. eval_loop p (suc (length e)) r v left) (λ r v left. eval_get p v r left)
        (eval_get_single-Shorter c e root args)
        (λ r v left less.
          eval_loop-fuel (suc (length e)) (suc (length r)) r v left (omega (arith, less))
            (omega arith))

  -- What a step without an end says of the file
  StepReturns : Single → Type 0
  StepReturns step_endless = HasFullMap p
  StepReturns _ = Unit

  close_bracket-StepReturns :
      (e : List ℕ) (root : Value) (args : List Argument) → StepReturns (close_bracket p e root args)
  unfolding StepReturns
  close_bracket-StepReturns [] root args = tt
  close_bracket-StepReturns (c ∷ e) root args = elim (Bool-cases (c == 93)) [
    | inl here ↦ rw here tt
    | inr other ↦ rw other tt
  ]

  with_value-StepReturns :
      (f : Found Value) (e : List ℕ) (args : List Argument)
      → Returns p f
      → StepReturns (with_value p f e args)
  unfolding StepReturns
  with_value-StepReturns (found v) e args h = close_bracket-StepReturns (skip_whitespace e) v args
  with_value-StepReturns missing e args h = tt
  with_value-StepReturns not_hashable e args h = tt
  with_value-StepReturns cmp_error e args h = tt
  with_value-StepReturns bad_access e args h = tt
  with_value-StepReturns endless e args h = h

  bracket-StepReturns :
      (e : List ℕ) (root : Value) (args : List Argument) → StepReturns (bracket p e root args)
  unfolding StepReturns
  bracket-StepReturns [] root args = tt
  bracket-StepReturns (c ∷ e) root args = elim (Bool-cases (c == 91)) [
    | inl here ↦ rw here (at_index (parse_index e args))
    | inr other ↦ rw other tt
  ]
    where
      at_index : (r : Parsed) → StepReturns (with_index p r root)
      at_index (parsed i rest left) =
          with_value-StepReturns (select p root i) rest left (select-Returns p root i)
      at_index malformed = tt
      at_index bad_argument = tt

  ends_at :
      (n : ℕ) (s : Single) (k : List ℕ → Value → List Argument → Evaluated)
      → Shorter n s
      → StepReturns s
      → ((e : List ℕ) (v : Value) (left : List Argument) → length e < n → Concludes p (k e v left))
      → Concludes p (on_single p s k)
  unfolding StepReturns
  ends_at n (advanced e v left) k shorter returns ends = ends e v left shorter
  ends_at n no_value k shorter returns ends = tt
  ends_at n step_fault k shorter returns ends = tt
  ends_at n step_endless k shorter returns ends = returns

  eval_loop-Concludes :
      (f : ℕ) (e : List ℕ) (root : Value) (args : List Argument)
      → length e < f
      → Concludes p (eval_loop p f e root args)
  unfolding eval_loop eval_get_single
  eval_loop-Concludes zero e root args lt = absurd (omega (arith, lt))
  eval_loop-Concludes (suc f) [] root args lt = tt
  eval_loop-Concludes (suc f) (c ∷ e) root args lt =
      ends_at (suc (length e)) (eval_get_single p root (c ∷ e) args)
        (λ r v left. eval_loop p f r v left) (eval_get_single-Shorter c e root args)
        (bracket-StepReturns (skip_whitespace (c ∷ e)) root args)
        (λ r v left less. eval_loop-Concludes f r v left (omega (arith, less, lt)))

-- The evaluation of every path, from every value of a file and with any arguments, has no more steps
-- than the path has characters. Where it does not come to an end all the same, it is a lookup that
-- does not, and the file has a map without a free bucket, or with a table that is not of 2 ^ k
-- buckets, at most 2 ^ 32, with as many hashes and keys.
pub eval_get-ends :
    (p : Pointless) (root : Value) (e : List ℕ) (args : List Argument)
    → Concludes p (eval_get p root e args)
unfolding eval_get
eval_get-ends p root e args = eval_loop-Concludes p (suc (length e)) e root args (omega arith)
