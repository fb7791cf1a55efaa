-- ===== src/Cmp/Reader/Reflexive.antt =====
-- A value of a file never differs from itself.
use py_pointless.Base.{
  ℕ, zero, suc, ◌+◌, ◌≡◌, refl, sym, ◌∙◌, Option, none, some, Bool, Bool-cases, true, false, ◌&&◌,
  List, [], ◌∷◌, ltb, leb, ◌==◌, ==_refl, if◌then◌else◌, u32 as to_u32,
}
use mathlib.Core.Logic.{inl, inr}
use mathlib.Core.Option.{some-injective}
use py_pointless.BitVector.{Sign, same, less, more, simple_cmp, cmp_buffer_buffer}
use py_pointless.BitVector.Compare.{cmp_buffer_buffer_refl}
use py_pointless.Cmp.{cmp_string}
use py_pointless.Cmp.Order.{cmp_int_refl, simple_cmp_refl}
use py_pointless.Reader.{Pointless}
use py_pointless.Reader.Items.{vector_n_items, vector_value_case}
use py_pointless.Value.{Tag, CompleteValue}
use py_pointless.Cmp.Reader.{
  max_depth, Outcome, ordered, failed, fault, out_of_fuel, Group, text, number, bits, null_value,
  vector, set, map, slot, given, unless_same, cmp_reader_func, sign_or_fault, cmp_items,
  cmp_reader_vector, cmp_group, cmp_types, cmp_reader_rec, cmp_reader, cmp_reader_string_unicode,
  cmp_reader_bitvector, text_of, bitvector_buffer, group_id, type_code, cmp_int_float, is_float,
}

-- Neither -1 nor 1 is returned.
abbrev pub NotDifferent : Outcome → Type 0
NotDifferent (ordered less) = ⊥
NotDifferent (ordered more) = ⊥
NotDifferent _ = Unit

twice :
    {A : Type 0} (o : Option A) (k : A → A → Outcome)
    → ((a : A) → o ≡ some a → NotDifferent (k a a))
    → NotDifferent (given o (λ a. given o (λ b. k a b)))
twice none k h = tt
twice (some a) k h = h a refl

if_true :
    (b : Bool) (r r' : Outcome) → b ≡ true → NotDifferent r → NotDifferent (if b then r else r')
if_true true r r' e h = h
if_true false r r' e h = cc

either :
    (b : Bool) (r r' : Outcome)
    → NotDifferent r
    → NotDifferent r'
    → NotDifferent (if b then r else r')
either true r r' h h' = h
either false r r' h h' = h'

all_same : (o : Option Sign) → ((s : Sign) → o ≡ some s → s ≡ same) → NotDifferent (sign_or_fault o)
all_same none h = tt
all_same (some same) h = tt
all_same (some less) h = cc (h less refl)
all_same (some more) h = cc (h more refl)

same_sign : (s : Sign) → s ≡ same → NotDifferent (ordered s)
same_sign same e = tt
same_sign less e = cc
same_sign more e = cc

string_refl : (a : List ℕ) → NotDifferent (sign_or_fault (cmp_string a a))
unfolding cmp_string
string_refl [] = tt
string_refl (x ∷ a) = elim (Bool-cases (x == 0)) [
  | inl e ↦ rw (==_refl x, e, cmp_string) tt
  | inr e ↦ rw (==_refl x, e, cmp_string) (string_refl a)
]

-- `x` is `a`, or an item, at any depth, of the vector `a`.
pub data Inside (p : Pointless) : CompleteValue → CompleteValue → Type 0 where
  here : {a : CompleteValue} → Inside p a a
  item_of :
      {a c x : CompleteValue} (i : ℕ)
      → vector_value_case p a.tag (to_u32 a.data_u64) i ≡ some c
      → Inside p c x
      → Inside p a x

module _ (cmp_float : Tag → ℕ → Tag → ℕ → Sign) (p : Pointless) (has_error : Bool) where
  -- A float that is the same as itself, which a NaN is not; or not a float
  abbrev pub FloatSame : Tag → ℕ → Type 0
  FloatSame t v = is_float t ≡ true → cmp_float t v t v ≡ same

  -- No NaN is inside of the value.
  abbrev pub FloatsSame : CompleteValue → Type 0
  FloatsSame a = (x : CompleteValue) → Inside p a x → FloatSame x.tag x.data_u64

  unless_same-NotDifferent :
      (r rest : Outcome)
      → NotDifferent r
      → NotDifferent rest
      → NotDifferent (unless_same cmp_float p p has_error r rest)
  unless_same-NotDifferent (ordered same) rest h h' = either has_error rest fault h' tt
  unless_same-NotDifferent (ordered less) rest h h' = h
  unless_same-NotDifferent (ordered more) rest h h' = h
  unless_same-NotDifferent (failed e) rest h h' = tt
  unless_same-NotDifferent fault rest h h' = tt
  unless_same-NotDifferent out_of_fuel rest h h' = tt

  set_error-NotDifferent : (b : Bool) (e : _) → NotDifferent (if b then failed e else fault)
  set_error-NotDifferent true e = tt
  set_error-NotDifferent false e = tt

  cmp_int_float_refl :
      (t : Tag) (v : ℕ) (s : Sign)
      → FloatSame t v
      → cmp_int_float cmp_float p p has_error t v t v ≡ some s
      → s ≡ same
  unfolding cmp_int_float
  cmp_int_float_refl t v s h e = elim (Bool-cases (is_float t)) [
    | inl y ↦ sym (some-injective (cmp_float t v t v) s (rw y at e)) ∙ h y
    | inr n ↦ cmp_int_refl t v s (rw n at e)
  ]

  module _ (cmp : CompleteValue → CompleteValue → Outcome) where
    -- The items of a vector compare with themselves.
    abbrev ItemsAgree : Tag → ℕ → Type 0
    ItemsAgree t v =
        (i : ℕ) (c : CompleteValue) → vector_value_case p t v i ≡ some c → NotDifferent (cmp c c)

    cmp_items-NotDifferent :
        (t : Tag) (v : ℕ) (rest : Outcome) (left i : ℕ)
        → ItemsAgree t v
        → NotDifferent rest
        → NotDifferent (cmp_items cmp_float p p has_error cmp t v t v rest left i)
    unfolding cmp_items
    cmp_items-NotDifferent t v rest zero i agree h = h
    cmp_items-NotDifferent t v rest (suc left) i agree h =
        twice (vector_value_case p t v i)
          (λ c_a c_b.
            unless_same cmp_float p p has_error (cmp c_a c_b)
              (cmp_items cmp_float p p has_error cmp t v t v rest left (i + 1)))
          (λ c at.
            unless_same-NotDifferent (cmp c c) _ (agree i c at)
              (cmp_items-NotDifferent t v rest left (i + 1) agree h))

    cmp_group-NotDifferent :
        (g : Group) (t : Tag) (v : ℕ)
        → FloatSame t v
        → ItemsAgree t (to_u32 v)
        → NotDifferent (cmp_group cmp_float p p has_error cmp g t v t v)
    unfolding cmp_group cmp_reader_vector cmp_reader_string_unicode cmp_reader_bitvector
    cmp_group-NotDifferent text t v float agree =
        twice (text_of p t (to_u32 v)) (λ a b. sign_or_fault (cmp_string a b))
          (λ a _. string_refl a)
    cmp_group-NotDifferent number t v float agree =
        all_same (cmp_int_float cmp_float p p has_error t v t v)
          (λ s e. cmp_int_float_refl t v s float e)
    cmp_group-NotDifferent bits t v float agree =
        twice (bitvector_buffer p t (to_u32 v))
          (λ a b. ordered (cmp_buffer_buffer t (to_u32 v) a t (to_u32 v) b))
          (λ a _.
            same_sign (cmp_buffer_buffer t (to_u32 v) a t (to_u32 v) a)
              (cmp_buffer_buffer_refl t (to_u32 v) a))
    cmp_group-NotDifferent null_value t v float agree = tt
    cmp_group-NotDifferent vector t v float agree =
        twice (vector_n_items p t (to_u32 v))
          (λ n m.
            cmp_items cmp_float p p has_error cmp t (to_u32 v) t (to_u32 v)
              (ordered (simple_cmp n m)) (if ltb n m then n else m) 0)
          (λ n _.
            cmp_items-NotDifferent t (to_u32 v) (ordered (simple_cmp n n))
              (if ltb n n then n else n) 0 agree (same_sign (simple_cmp n n) (simple_cmp_refl n)))
    cmp_group-NotDifferent set t v float agree = set_error-NotDifferent has_error _
    cmp_group-NotDifferent map t v float agree = set_error-NotDifferent has_error _
    cmp_group-NotDifferent slot t v float agree = tt

    cmp_types-NotDifferent :
        (a : CompleteValue)
        → FloatSame a.tag a.data_u64
        → ItemsAgree a.tag (to_u32 a.data_u64)
        → NotDifferent (cmp_types cmp_float p p has_error cmp a a)
    unfolding cmp_types
    cmp_types-NotDifferent a float agree =
        twice (cmp_reader_func a.tag)
          (λ g g'.
            if group_id g == group_id g'
            then cmp_group cmp_float p p has_error cmp g a.tag a.data_u64 a.tag a.data_u64
            else ordered (simple_cmp (type_code a.tag) (type_code a.tag)))
          (λ g _.
            if_true (group_id g == group_id g) _ _ (==_refl (group_id g))
              (cmp_group-NotDifferent g a.tag a.data_u64 float agree))

  cmp_reader_rec-NotDifferent :
      (fuel depth : ℕ) (a : CompleteValue)
      → FloatsSame a
      → NotDifferent (cmp_reader_rec cmp_float p p has_error fuel depth a a)
  unfolding cmp_reader_rec
  cmp_reader_rec-NotDifferent zero depth a floats = tt
  cmp_reader_rec-NotDifferent (suc fuel) depth a floats =
      either (has_error && leb max_depth depth) (failed _)
        (cmp_types cmp_float p p has_error
          (λ c_a c_b. cmp_reader_rec cmp_float p p has_error fuel (depth + 2) c_a c_b) a a)
        tt
        (cmp_types-NotDifferent
          (λ c_a c_b. cmp_reader_rec cmp_float p p has_error fuel (depth + 2) c_a c_b) a
          (floats a here)
          (λ i c at.
            cmp_reader_rec-NotDifferent fuel (depth + 2) c
              (λ x inside. floats x (item_of i at inside))))

-- A value of a file that is no NaN, and a vector that holds none at any depth, compared with itself
-- is the same, or the comparison fails; it is never less or more. The comparison of floats is only
-- asked about the floats inside of the value, which it says are the same as themselves.
pub cmp_reader-NotDifferent :
    (cmp_float : Tag → ℕ → Tag → ℕ → Sign) (p : Pointless) (a : CompleteValue)
    → FloatsSame cmp_float p true a
    → NotDifferent (cmp_reader cmp_float p a p a)
unfolding cmp_reader
cmp_reader-NotDifferent cmp_float p a floats =
    cmp_reader_rec-NotDifferent cmp_float p true 257 0 a floats
