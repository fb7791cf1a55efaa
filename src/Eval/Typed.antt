-- ===== src/Eval/Typed.antt =====
-- src/pointless_eval.c: the paths whose value must have a given type. Where the type is another one,
-- 0 is returned, as where there is no value. A vector is the address of its items, 0 where it is
-- empty, and their number.
use py_pointless.Base.{ℕ, Bool, Option, some, List, if◌then◌else◌}
use py_pointless.Eval.{
  Argument, Evaluated, reached, refused, fault, never_ends, out_of_fuel, eval_get,
}
use py_pointless.Reader.{Pointless}
use py_pointless.Reader.Items.{string_value_ascii}
use py_pointless.Reader.Bitvectors.{bitvector_n_bits}
use py_pointless.Reader.Tables.{Found, found, missing, bad_access, endless, given, is_map_values}
use py_pointless.Reader.Helpers.Vectors.{is_empty_vector, has_type, items_of}
use py_pointless.Value.{
  Tag, Value, is_bitvector_type, vector_u8, vector_u16, vector_u32, vector_u64, vector_float,
  string, u32, boolean, map_value_value,
}
use py_pointless.Value.Accessors.{get_u32, get_bool}

-- What is done with the value of a path
abbrev pub with_reached : {A : Type 0} → Evaluated → (Value → Found A) → Found A
with_reached (reached v args) k = k v
with_reached refused k = missing
with_reached fault k = bad_access
with_reached never_ends k = endless
with_reached out_of_fuel k = endless

module _ (p : Pointless) (root : Value) (e : List ℕ) (args : List Argument) where
  abbrev pub evaluated : {A : Type 0} → (Value → Found A) → Found A
  evaluated k = with_reached (eval_get p root e args) k

  -- A value of one type
  abbrev pub typed : {A : Type 0} → Tag → (Value → Option A) → Found A
  typed t get = evaluated (λ v. if has_type v.tag t then given (get v) (λ a. found a) else missing)

  -- The address of the units
  pub eval_get_as_string : Found ℕ
  unfolding eval_get has_type string_value_ascii
  eval_get_as_string = typed string (λ v. string_value_ascii p v.data_u32)

  pub eval_get_as_u32 : Found ℕ
  unfolding eval_get has_type get_u32
  eval_get_as_u32 = typed u32 (λ v. get_u32 v.tag v.data_u32)

  pub eval_get_as_boolean : Found ℕ
  unfolding eval_get has_type get_bool
  eval_get_as_boolean = typed boolean (λ v. get_bool v.tag v.data_u32)

  pub eval_get_as_map : Found Value
  unfolding eval_get has_type
  eval_get_as_map = typed map_value_value (λ v. some v)

  abbrev pub vector : (Tag → Bool) → Found (ℕ × ℕ)
  vector is_type = evaluated (λ v.
      if is_empty_vector v.tag
      then found (0, 0)
      else if is_type v.tag
      then items_of p v.tag v.data_u32
      else missing)

  pub eval_get_as_vector_u8 : Found (ℕ × ℕ)
  unfolding eval_get has_type items_of
  eval_get_as_vector_u8 = vector (λ t. has_type t vector_u8)

  pub eval_get_as_vector_u16 : Found (ℕ × ℕ)
  unfolding eval_get has_type items_of
  eval_get_as_vector_u16 = vector (λ t. has_type t vector_u16)

  pub eval_get_as_vector_u32 : Found (ℕ × ℕ)
  unfolding eval_get has_type items_of
  eval_get_as_vector_u32 = vector (λ t. has_type t vector_u32)

  pub eval_get_as_vector_u64 : Found (ℕ × ℕ)
  unfolding eval_get has_type items_of
  eval_get_as_vector_u64 = vector (λ t. has_type t vector_u64)

  pub eval_get_as_vector_f : Found (ℕ × ℕ)
  unfolding eval_get has_type items_of
  eval_get_as_vector_f = vector (λ t. has_type t vector_float)

  pub eval_get_as_vector_value : Found (ℕ × ℕ)
  unfolding eval_get items_of
  eval_get_as_vector_value = vector is_map_values

  -- The bitvector and its number of bits
  pub eval_get_as_bitvector : Found (Value × ℕ)
  unfolding eval_get is_bitvector_type bitvector_n_bits
  eval_get_as_bitvector = evaluated (λ v.
      if is_bitvector_type v.tag
      then given (bitvector_n_bits p v.tag v.data_u32) (λ n. found (v, n))
      else missing)
