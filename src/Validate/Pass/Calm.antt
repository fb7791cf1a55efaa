-- ===== src/Validate/Pass/Calm.antt =====
-- The first pass reads nothing outside the file.
use mathlib.Core.Path.{subst}
use py_pointless.Base.{
  ℕ, suc, ◌≡◌, refl, sym, Bool, true, false, Option, none, some, leb, if◌then◌else◌, Bool-cases,
  inl, inr,
}
use py_pointless.BitUtils.{Bytes, is_set}
use py_pointless.Value.{Tag, Value, vector_value, vector_value_hashable, set_value, map_value_value}
use py_pointless.Reader.{Pointless}
use py_pointless.Reader.Layout.{IsFile}
use py_pointless.Walk.{Action}
use py_pointless.Walk.Calm.{IsCalm, IsFine, walk-IsCalm}
use py_pointless.Validate.{Verdict, valid, invalid, heap_ref, inline_invariants, heap_value}
use py_pointless.Validate.Safety.{
  IsSafe, heap_ref-IsSafe, inline_invariants-IsSafe, heap_value-IsSafe,
}
use py_pointless.Validate.Pass.{
  State, first, max_depth, mark_visited, judged, ref_checked, pass_checks, visited, pass_cb,
  run_pass,
}
use py_pointless.Validate.Pass.Children.{IsAligned, children-HasChildren}

-- The state is one of the first pass.
abbrev pub InFirst : State → Type 0
InFirst s = s.pass ≡ first

-- Whatever the test finds, a container that is marked leaves the pass as it is.
abbrev KeepsFirst : Option State → Type 0
KeepsFirst none = Unit
KeepsFirst (some s) = InFirst s

marked-KeepsFirst : (b : Bool) (s' : State) → InFirst s' → KeepsFirst (if b then none else some s')
marked-KeepsFirst true s' h = tt
marked-KeepsFirst false s' h = h

mark_visited-KeepsFirst :
    (t : Tag) (v : ℕ) (s : State) → InFirst s → KeepsFirst (mark_visited t v s)
unfolding mark_visited
mark_visited-KeepsFirst vector_value v s h = marked-KeepsFirst (is_set s.vector v) _ h
mark_visited-KeepsFirst vector_value_hashable v s h = marked-KeepsFirst (is_set s.vector v) _ h
mark_visited-KeepsFirst set_value v s h = marked-KeepsFirst (is_set s.set v) _ h
mark_visited-KeepsFirst map_value_value v s h = marked-KeepsFirst (is_set s.map v) _ h
mark_visited-KeepsFirst _ v s h = h

module _ (p : Pointless) (file : IsFile p) (even : IsAligned p) (hash_of : Value → ℕ)
    (cmp : Value → Value → Option Bool) (marker : Bytes) where
  judged-IsFine :
      (t : Tag) (v : ℕ) (r : Verdict) (s : State) (k : Option (Action × State))
      → IsSafe r
      → InFirst s
      → (r ≡ valid → IsFine p InFirst t v k)
      → IsFine p InFirst t v (judged r s k)
  unfolding judged
  judged-IsFine t v valid s k safe h g = g refl
  judged-IsFine t v Verdict.fault s k safe h g = safe refl
  judged-IsFine t v (invalid e) s k safe h g = h

  visited-IsFine :
      (v : Value) (o : Option State) (s : State)
      → InFirst s
      → KeepsFirst o
      → heap_ref p v.tag v.data_u32 ≡ valid
      → IsFine p InFirst v.tag v.data_u32 (visited p hash_of cmp marker v o s)
  unfolding visited pass_checks
  visited-IsFine v none s h kept ok = h
  visited-IsFine v (some s') s h kept ok =
      subst (λ q. IsFine p InFirst v.tag v.data_u32 (pass_checks p hash_of cmp marker q v s'))
        (sym kept)
        (judged-IsFine v.tag v.data_u32 (inline_invariants v.tag v.data_u32) s' _
          (inline_invariants-IsSafe v.tag v.data_u32) kept
          λ _.
            judged-IsFine v.tag v.data_u32 (heap_value p v.tag v.data_u32) s' _
              (heap_value-IsSafe p file v.tag v.data_u32 ok) kept
              λ fine. (kept, children-HasChildren p file even v.tag v.data_u32 ok fine))

  pass_cb-IsFine :
      (v : Value) (depth : ℕ) (s : State)
      → InFirst s
      → IsFine p InFirst v.tag v.data_u32 (pass_cb p hash_of cmp marker v depth s)
  unfolding pass_cb ref_checked
  pass_cb-IsFine v depth s h = elim (Bool-cases (leb max_depth depth)) [
    | inl deep ↦ rw deep h
    | inr shallow ↦ rw shallow (
        subst
          (λ q. IsFine p InFirst v.tag v.data_u32 (
            ref_checked p hash_of cmp marker q v s
              (visited p hash_of cmp marker v (mark_visited v.tag v.data_u32 s) s)))
          (sym h)
          (judged-IsFine v.tag v.data_u32 (heap_ref p v.tag v.data_u32) s _
            (heap_ref-IsSafe p v.tag v.data_u32) h
            (visited-IsFine v (mark_visited v.tag v.data_u32 s) s h
              (mark_visited-KeepsFirst v.tag v.data_u32 s h))))
  ]

  -- In an open file whose vectors, sets and maps stand at multiples of four, the first pass reads
  -- nothing outside the file and fails no assertion, whatever its values are and refer to.
  pub run_pass-IsCalm : IsCalm p InFirst (run_pass p hash_of cmp marker first)
  unfolding run_pass
  run_pass-IsCalm =
      walk-IsCalm p InFirst (pass_cb p hash_of cmp marker) pass_cb-IsFine (suc max_depth) _ refl
