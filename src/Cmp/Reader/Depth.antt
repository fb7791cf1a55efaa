-- ===== src/Cmp/Reader/Depth.antt =====
-- A comparison in which an error can be set goes no deeper than `POINTLESS_MAX_DEPTH`.
use py_pointless.Base.{
  ℕ, zero, suc, ◌+◌, ◌*◌, ◌≤◌, ◌≡◌, Option, none, some, Bool, true, false, leb, if◌then◌else◌,
  arith, ◌==◌, ltb, refl, u32 as to_u32,
}
use py_pointless.BitVector.{Sign, same, less, more, simple_cmp}
use py_pointless.Reader.{Pointless}
use py_pointless.Reader.Items.{vector_n_items, vector_value_case}
use py_pointless.Value.{Tag, CompleteValue}
use py_pointless.Cmp.{cmp_string}
use py_pointless.Cmp.Reader.{
  max_depth, Outcome, ordered, failed, fault, out_of_fuel, Group, text, number, bits, null_value,
  vector, set, map, slot, given, unless_same, cmp_reader_func, sign_or_fault, text_of,
  bitvector_buffer, group_id, type_code, cmp_items, cmp_reader_vector, cmp_group, cmp_types,
  cmp_reader_rec, cmp_reader, cmp_reader_string_unicode, cmp_reader_bitvector, cmp_int_float,
}

-- The fuel was enough.
abbrev pub Ends : Outcome → Type 0
Ends out_of_fuel = ⊥
Ends _ = Unit

Ends-given :
    {A : Type 0} (o : Option A) (k : A → Outcome) → ((a : A) → Ends (k a)) → Ends (given o k)
Ends-given none k h = tt
Ends-given (some a) k h = h a

Ends-if :
    (b : Bool) (r r' : Outcome)
    → (b ≡ true → Ends r)
    → (b ≡ false → Ends r')
    → Ends (if b then r else r')
Ends-if true r r' h h' = h refl
Ends-if false r r' h h' = h' refl

Ends-sign : (o : Option Sign) → Ends (sign_or_fault o)
Ends-sign none = tt
Ends-sign (some s) = tt

module _ (cmp_float : Tag → ℕ → Tag → ℕ → Sign) (p_a p_b : Pointless) where
  Ends-unless_same :
      (r rest : Outcome) → Ends r → Ends rest → Ends (unless_same cmp_float p_a p_b true r rest)
  Ends-unless_same (ordered same) rest h h' = h'
  Ends-unless_same (ordered less) rest h h' = tt
  Ends-unless_same (ordered more) rest h h' = tt
  Ends-unless_same (failed e) rest h h' = tt
  Ends-unless_same fault rest h h' = tt
  Ends-unless_same out_of_fuel rest h h' = h

  module _ (cmp : CompleteValue → CompleteValue → Outcome)
      (ends : (a b : CompleteValue) → Ends (cmp a b)) where
    cmp_items-Ends :
        (t_a : Tag) (v_a : ℕ) (t_b : Tag) (v_b : ℕ) (rest : Outcome) (left i : ℕ)
        → Ends rest
        → Ends (cmp_items cmp_float p_a p_b true cmp t_a v_a t_b v_b rest left i)
    unfolding cmp_items
    cmp_items-Ends t_a v_a t_b v_b rest zero i h = h
    cmp_items-Ends t_a v_a t_b v_b rest (suc left) i h =
        Ends-given (vector_value_case p_a t_a v_a i) _ (λ c_a.
          Ends-given (vector_value_case p_b t_b v_b i) _ (λ c_b.
            Ends-unless_same (cmp c_a c_b) _ (ends c_a c_b)
              (cmp_items-Ends t_a v_a t_b v_b rest left (i + 1) h)))

    cmp_group-Ends :
        (g : Group) (t_a : Tag) (v_a : ℕ) (t_b : Tag) (v_b : ℕ)
        → Ends (cmp_group cmp_float p_a p_b true cmp g t_a v_a t_b v_b)
    unfolding cmp_group cmp_reader_vector cmp_reader_string_unicode cmp_reader_bitvector
    cmp_group-Ends text t_a v_a t_b v_b =
        Ends-given (text_of p_a t_a (to_u32 v_a)) _
          (λ a. Ends-given (text_of p_b t_b (to_u32 v_b)) _ (λ b. Ends-sign (cmp_string a b)))
    cmp_group-Ends number t_a v_a t_b v_b =
        Ends-sign (cmp_int_float cmp_float p_a p_b true t_a v_a t_b v_b)
    cmp_group-Ends bits t_a v_a t_b v_b =
        Ends-given (bitvector_buffer p_a t_a (to_u32 v_a)) _
          (λ a. Ends-given (bitvector_buffer p_b t_b (to_u32 v_b)) _ (λ b. tt))
    cmp_group-Ends null_value t_a v_a t_b v_b = tt
    cmp_group-Ends vector t_a v_a t_b v_b = Ends-given (vector_n_items p_a t_a (to_u32 v_a)) _ (λ a.
        Ends-given (vector_n_items p_b t_b (to_u32 v_b)) _ (λ b.
          cmp_items-Ends t_a (to_u32 v_a) t_b (to_u32 v_b) (ordered (simple_cmp a b))
            (if ltb a b then a else b) 0 tt))
    cmp_group-Ends set t_a v_a t_b v_b = tt
    cmp_group-Ends map t_a v_a t_b v_b = tt
    cmp_group-Ends slot t_a v_a t_b v_b = tt

    cmp_types-Ends : (a b : CompleteValue) → Ends (cmp_types cmp_float p_a p_b true cmp a b)
    unfolding cmp_types
    cmp_types-Ends a b = Ends-given (cmp_reader_func a.tag) _ (λ g_a.
        Ends-given (cmp_reader_func b.tag) _ (λ g_b.
          Ends-if (group_id g_a == group_id g_b)
            (cmp_group cmp_float p_a p_b true cmp g_a a.tag a.data_u64 b.tag b.data_u64)
            (ordered (simple_cmp (type_code a.tag) (type_code b.tag)))
            (λ _. cmp_group-Ends g_a a.tag a.data_u64 b.tag b.data_u64) (λ _. tt)))

  cmp_reader_rec-Ends :
      (fuel depth : ℕ) (a b : CompleteValue)
      → max_depth + 2 ≤ depth + 2 * fuel
      → depth ≤ max_depth + 1
      → Ends (cmp_reader_rec cmp_float p_a p_b true fuel depth a b)
  unfolding cmp_reader_rec
  cmp_reader_rec-Ends zero depth a b h low = absurd (omega arith)
  cmp_reader_rec-Ends (suc fuel) depth a b h low =
      Ends-if (leb max_depth depth) _ _ (λ _. tt)
        (λ shallow.
          cmp_types-Ends _
            (λ c_a c_b. cmp_reader_rec-Ends fuel (depth + 2) c_a c_b (omega arith) (ground arith)) a
            b)

-- Two values of files, cyclic ones too, are compared with an answer, an error, or a failed
-- assertion or read: the comparison always comes to an end, at the latest 512 calls deep.
pub cmp_reader-Ends :
    (cmp_float : Tag → ℕ → Tag → ℕ → Sign) (p_a p_b : Pointless) (a b : CompleteValue)
    → Ends (cmp_reader cmp_float p_a a p_b b)
unfolding cmp_reader
cmp_reader-Ends cmp_float p_a p_b a b =
    cmp_reader_rec-Ends cmp_float p_a p_b 257 0 a b (omega arith) (omega arith)
