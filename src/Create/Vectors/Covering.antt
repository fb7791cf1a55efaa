-- ===== src/Create/Vectors/Covering.antt =====
-- The range that the compression finds holds all of the items.
use py_pointless.Base.{
  ◌≡◌, refl, sym, ◌∙◌, Bool, true, false, Bool-cases, Option, none, some, List, [], ◌∷◌, All, arith,
  inl, inr, if◌then◌else◌,
}
use mathlib.Core.Path.{subst}
use mathlib.Core.Option.{some-injective}
use mathlib.Core.Bool.{false≢true}
use py_pointless.Base.Int.{ℤ, pos, negsuc}
use py_pointless.Create.Vectors.{
  leb_ℤ, min_ℤ, max_ℤ, Kind, integer, real, incompressible, kind_of, Range, expanded, range_step,
  range_after, scan,
}
use py_pointless.Value.Accessors.{CreateValue}

pub leb_ℤ_trans : (a b c : ℤ) → leb_ℤ a b ≡ true → leb_ℤ b c ≡ true → leb_ℤ a c ≡ true
unfolding leb_ℤ
leb_ℤ_trans (pos a) (pos b) (pos c) h h' = ground arith
leb_ℤ_trans (pos a) (pos b) (negsuc c) h h' = cc
leb_ℤ_trans (pos a) (negsuc b) c h h' = cc
leb_ℤ_trans (negsuc a) (pos b) (pos c) h h' = refl
leb_ℤ_trans (negsuc a) (pos b) (negsuc c) h h' = cc
leb_ℤ_trans (negsuc a) (negsuc b) (pos c) h h' = refl
leb_ℤ_trans (negsuc a) (negsuc b) (negsuc c) h h' = ground arith

leb_ℤ_refl : (a : ℤ) → leb_ℤ a a ≡ true
unfolding leb_ℤ
leb_ℤ_refl (pos a) = ground arith
leb_ℤ_refl (negsuc a) = ground arith

leb_ℤ_total : (a b : ℤ) → leb_ℤ a b ≡ false → leb_ℤ b a ≡ true
unfolding leb_ℤ
leb_ℤ_total (pos a) (pos b) h = ground arith
leb_ℤ_total (pos a) (negsuc b) h = refl
leb_ℤ_total (negsuc a) (pos b) h = cc
leb_ℤ_total (negsuc a) (negsuc b) h = ground arith

-- The smaller one is at most either, and the larger one at least.
min_ℤ_left : (a b : ℤ) → leb_ℤ (min_ℤ a b) a ≡ true
min_ℤ_left a b = elim (Bool-cases (leb_ℤ b a)) [ inl e ↦ rw e e | inr e ↦ rw e (leb_ℤ_refl a) ]

min_ℤ_right : (a b : ℤ) → leb_ℤ (min_ℤ a b) b ≡ true
min_ℤ_right a b = elim (Bool-cases (leb_ℤ b a)) [
  | inl e ↦ rw e (leb_ℤ_refl b)
  | inr e ↦ rw e (leb_ℤ_total b a e)
]

max_ℤ_left : (a b : ℤ) → leb_ℤ a (max_ℤ a b) ≡ true
max_ℤ_left a b = elim (Bool-cases (leb_ℤ a b)) [ inl e ↦ rw e e | inr e ↦ rw e (leb_ℤ_refl a) ]

max_ℤ_right : (a b : ℤ) → leb_ℤ b (max_ℤ a b) ≡ true
max_ℤ_right a b = elim (Bool-cases (leb_ℤ a b)) [
  | inl e ↦ rw e (leb_ℤ_refl b)
  | inr e ↦ rw e (leb_ℤ_total a b e)
]

-- The variables of the loop hold an item. Where there were floats there were no integers.
abbrev pub Covers : Range → Kind → Type 0
Covers r (integer i) =
    (r.init_int ≡ true)
    × (r.init_float ≡ false)
    × (leb_ℤ r.min_int i ≡ true)
    × (leb_ℤ i r.max_int ≡ true)
Covers r real = (r.init_float ≡ true) × (r.init_int ≡ false)
Covers r incompressible = ⊥

expanded-Covers : (r : Range) (i : ℤ) → r.init_float ≡ false → Covers (expanded i r) (integer i)
expanded-Covers r i no_float = elim (Bool-cases r.init_int) [
  | inl e ↦ rw e ((refl, no_float, min_ℤ_right r.min_int i, max_ℤ_right r.max_int i))
  | inr e ↦ rw e ((refl, no_float, leb_ℤ_refl i, leb_ℤ_refl i))
]

expanded-keeps :
    (r : Range) (i : ℤ) (k : Kind) → r.init_float ≡ false → Covers r k → Covers (expanded i r) k
expanded-keeps r i (integer j) no_float (e, _, lo, hi) = rw e (
    (
      refl,
      no_float,
      leb_ℤ_trans (min_ℤ r.min_int i) r.min_int j (min_ℤ_left r.min_int i) lo,
      leb_ℤ_trans j r.max_int (max_ℤ r.max_int i) hi (max_ℤ_left r.max_int i),
    ))
expanded-keeps r i real no_float (e, _) = absurd (false≢true (sym no_float ∙ e))
expanded-keeps r i incompressible no_float h = h

if_none-some :
    (b : Bool) (q r : Range) → (if b then none else some q) ≡ some r → (b ≡ false) × (q ≡ r)
if_none-some true q r e = absurd (none_is e)
  where
    none_is : none ≡ some r → ⊥
    none_is e = cc
if_none-some false q r e = (refl, some-injective q r e)

range_step-Covers : (k : Kind) (r r' : Range) → range_step k r ≡ some r' → Covers r' k
range_step-Covers (integer i) r r' h =
    let (no_float, e) = if_none-some r.init_float (expanded i r) r' h in
    subst (λ q. Covers q (integer i)) e (expanded-Covers r i no_float)
range_step-Covers real r r' h =
    let (no_int, e) = if_none-some r.init_int (record r { init_float = true }) r' h in
    subst (λ q. Covers q real) e (refl, no_int)
range_step-Covers incompressible r r' h = cc

floats_keep :
    (r : Range) (j : Kind)
    → r.init_int ≡ false
    → Covers r j
    → Covers (record r { init_float = true }) j
floats_keep r (integer i) e (e', _, _, _) = absurd (false≢true (sym e ∙ e'))
floats_keep r real e (_, e') = (refl, e')
floats_keep r incompressible e h = h

range_step-keeps : (k j : Kind) (r r' : Range) → range_step k r ≡ some r' → Covers r j → Covers r' j
range_step-keeps (integer i) j r r' h covers =
    let (no_float, e) = if_none-some r.init_float (expanded i r) r' h in
    subst (λ q. Covers q j) e (expanded-keeps r i j no_float covers)
range_step-keeps real j r r' h covers =
    let (no_int, e) = if_none-some r.init_int (record r { init_float = true }) r' h in
    subst (λ q. Covers q j) e (floats_keep r j no_int covers)
range_step-keeps incompressible j r r' h covers = cc

range_after-some :
    (o : Option Range) (k : Range → Option Range) (r : Range)
    → range_after o k ≡ some r
    → (q : Range) × (o ≡ some q) × (k q ≡ some r)
range_after-some none k r e = cc
range_after-some (some q) k r e = (q, refl, e)

-- What the item is to the loop
abbrev pub kind : CreateValue → Kind
kind x = kind_of x.header.type_29 x.data_u32

pub scan-Covers :
    (items : List CreateValue) (r r' : Range)
    → scan items r ≡ some r'
    → All (λ x. Covers r' (kind x)) items × ((k : Kind) → Covers r k → Covers r' k)
unfolding scan
scan-Covers [] r r' h = (tt, λ k covers. subst (λ q. Covers q k) (some-injective r r' h) covers)
scan-Covers (x ∷ items) r r' h =
    let (q, e, h') = range_after-some (range_step (kind x) r) (λ q. scan items q) r' h in
    let (rest, keeps) = scan-Covers items q r' h' in
    (
      (keeps (kind x) (range_step-Covers (kind x) r q e), rest),
      λ k covers. keeps k (range_step-keeps (kind x) k r q e covers),
    )
