-- ===== src/Sort/Permutation.antt =====
-- An exchange of two items permutes them.
use py_pointless.Base.{
  ℕ, zero, suc, ◌<◌, ◌≡◌, ◌∙◌, List, [], ◌∷◌, some, get_elem?, length, set, arith,
}
use mathlib.Core.Logic.{∥∥₁_elim, inl, inr}
use mathlib.Core.Path.{subst, sym}
use native.Mathlib.Nat.{ℕ_set}
use mathlib.Core.List.{Perm, Permᴰ}
use mathlib.Core.List.Perm
use mathlib.Core.Option.{some-injective}
use py_pointless.Base.{
  get_elem?-set_self, get_elem?-set_ne, get_elem?-lt, ==→ne, Bool-cases, ==_iff, ◌==◌,
}

module _ {A : Type 0} where
  -- As many items, by the steps of a permutation
  counted : {us vs : List A} → Permᴰ us vs → length vs ≡ length us
  counted (Permᴰ.trans first second) = omega (arith, counted first, counted second)
  counted (Permᴰ.swap u v) = omega arith
  counted (Permᴰ.cons u rest) = omega (arith, counted rest)
  counted Permᴰ.nil = omega arith

  pub length-perm : {us vs : List A} → Perm us vs → length us ≡ length vs
  length-perm same_items = sym (∥∥₁_elim same_items (ℕ_set _ _) counted)

  -- A new item in the place of an old one
  put-perm :
      (us : List A) (k : ℕ) (old new : A)
      → get_elem? us k ≡ some old
      → Perm (new ∷ us) (old ∷ set us k new)
  put-perm [] k old new found = cc
  put-perm (u ∷ us) zero old new found =
      subst (λ w. Perm (new ∷ w ∷ us) (old ∷ new ∷ us)) (some-injective old u (sym found))
        (Perm.swap old new us)
  put-perm (u ∷ us) (suc k) old new found =
      let behind = put-perm us k old new found in
      Perm.trans (Perm.swap u new us)
        (Perm.trans (Perm.cons u behind) (Perm.swap old u (set us k new)))

  pub swap-perm :
      (xs : List A) (i j : ℕ) (x y : A)
      → get_elem? xs i ≡ some x
      → get_elem? xs j ≡ some y
      → Perm xs (set (set xs i y) j x)
  swap-perm xs i j x y ex ey =
      let lt : i < length xs = get_elem?-lt xs i ex in
      let kept : get_elem? (set xs i y) j ≡ some y = elim (Bool-cases (i == j)) [
        | inl e ↦
            let ij : i ≡ j = (==_iff i j).0 e in
            subst (λ k. get_elem? (set xs i y) k ≡ some y) ij (get_elem?-set_self xs i y lt)
        | inr e ↦ get_elem?-set_ne xs i j y (==→ne i j e) ∙ ey
      ] in
      Perm.cons_inv (Perm.trans (put-perm xs i x y ex) (put-perm (set xs i y) j y x kept))
