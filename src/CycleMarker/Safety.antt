-- ===== src/CycleMarker/Safety.antt =====
-- The search for cycles comes to an end, and what it takes for granted holds.
use mathlib.Core.Path.{subst}
use mathlib.Core.List.{append_assoc}
use py_pointless.Base.{
  ℕ, ◌≡◌, refl, sym, ap, ◌∙◌, Bool, Bool-cases, true, false, Option, none, some, List, [], ◌++◌,
  ◌==◌, ==_iff, ==→ne, if◌then◌else◌, inl, inr,
}
use py_pointless.CycleMarker.{
  JudyL, MarkError, root_missing, visited_missing, State, Marked, marked, failed, assertion,
  out_of_fuel, ◌>>=◌, given,
}

-- No internal error
abbrev pub Benign : MarkError → Type 0
Benign root_missing = ⊥
Benign visited_missing = ⊥
Benign _ = Unit

-- `stack` still has the items of `before` at its end.
unfoldable pub Above : List ℕ → List ℕ → Type 0
Above before stack = (extra : List ℕ) × (stack ≡ extra ++ before)

pub Above-same : (before stack : List ℕ) → stack ≡ before → Above before stack
unfolding Above
Above-same before stack e = ([], e)

pub Above-trans : (a b c : List ℕ) → Above a b → Above b c → Above a c
unfolding Above
Above-trans a b c (x, e) (y, f) = (y ++ x, f ∙ ap (λ t. y ++ t) e ∙ sym (append_assoc y x a))

-- The outcomes of a search that went well
abbrev pub IsMarked : (judy : JudyL) → Marked judy → Type 0
IsMarked judy (marked s) = Unit
IsMarked judy (failed e) = Benign e
IsMarked judy assertion = ⊥
IsMarked judy out_of_fuel = ⊥

module _ (judy : JudyL) where
  unfoldable pub At : judy.Array → ℕ → Type 0
  At a k = (n : ℕ) × (judy.get a k ≡ some n)

  pub insert-At : (a b : judy.Array) (k v j : ℕ) → judy.insert a k v ≡ some b → At a j → At b j
  unfolding At
  insert-At a b k v j e (n, h) = elim (Bool-cases (k == j)) [
    | inl kj ↦
        (v, subst (λ i. judy.get b i ≡ some v) ((==_iff k j).0 kj) (judy.get-insert a b k v e))
    | inr ne ↦ (n, judy.get-insert_ne a b k v j e (==→ne k j ne) ∙ h)
  ]

  -- Whatever is visited has a root.
  unfoldable pub IsState : State judy → Type 0
  IsState s = (k : ℕ) → At s.visited k → At s.root k

  pub record Later (s s' : State judy) : Type 0 where
    pub root_at : (k : ℕ) → At s.root k → At s'.root k
    pub visited_at : (k : ℕ) → At s.visited k → At s'.visited k

  Later-trans : (s1 s2 s3 : State judy) → Later s1 s2 → Later s2 s3 → Later s1 s3
  Later-trans s1 s2 s3 p q = record {
    root_at = λ k h. q.root_at k (p.root_at k h);
    visited_at = λ k h. q.visited_at k (p.visited_at k h);
  }

  abbrev pub Safe : State judy → (State judy → Type 0) → Marked judy → Type 0
  Safe s Q (marked s') = IsState s' × Later s s' × Q s'
  Safe s Q (failed e) = Benign e
  Safe s Q assertion = ⊥
  Safe s Q out_of_fuel = ⊥

  pub Safe-from :
      (s s' : State judy) (Q R : State judy → Type 0) (r : Marked judy)
      → Later s s'
      → ((x : State judy) → Q x → R x)
      → Safe s' Q r
      → Safe s R r
  Safe-from s s' Q R (marked x) l f h = (h.0, Later-trans s s' x l h.1, f x h.2)
  Safe-from s s' Q R (failed e) l f h = h
  Safe-from s s' Q R assertion l f h = h
  Safe-from s s' Q R out_of_fuel l f h = h

  pub Safe->>= :
      (s : State judy) (Q R : State judy → Type 0) (r : Marked judy) (k : State judy → Marked judy)
      → Safe s Q r
      → ((s' : State judy) → IsState s' → Later s s' → Q s' → Safe s' R (k s'))
      → Safe s R (◌>>=◌ judy r k)
  Safe->>= s Q R (marked s') k h g = Safe-from s s' R R (k s') h.1 (λ x q. q) (g s' h.0 h.1 h.2)
  Safe->>= s Q R (failed e) k h g = h
  Safe->>= s Q R assertion k h g = h
  Safe->>= s Q R out_of_fuel k h g = h

  pub Safe-given :
      {A : Type 0} (s : State judy) (Q : State judy → Type 0) (o : Option A) (e : MarkError)
      (k : A → Marked judy)
      → (o ≡ none → Benign e)
      → ((a : A) → o ≡ some a → Safe s Q (k a))
      → Safe s Q (given judy o e k)
  Safe-given s Q none e k b h = b refl
  Safe-given s Q (some a) e k b h = h a refl

  pub Safe-if :
      (s : State judy) (Q : State judy → Type 0) (b : Bool) (r r' : Marked judy)
      → (b ≡ true → Safe s Q r)
      → (b ≡ false → Safe s Q r')
      → Safe s Q (if b then r else r')
  Safe-if s Q true r r' h h' = h refl
  Safe-if s Q false r r' h h' = h' refl

  pub present : (o : Option ℕ) (n : ℕ) (e : MarkError) → o ≡ some n → o ≡ none → Benign e
  present o n e h h' = cc

  pub same_keys : (s : State judy) → Later s s
  same_keys s = record { root_at = λ k h. h; visited_at = λ k h. h }
