-- ===== src/Eval/Types.antt =====
-- The types of the values that the indices of a path find.
use py_pointless.Base.{
  ℕ, ◌≡◌, refl, sym, Bool, Bool-cases, true, false, Option, some, none, inl, inr, leb,
  if◌then◌else◌,
}
use mathlib.Core.Option.{map}
use mathlib.Core.Path.{subst}
use py_pointless.Base.Int.{pos, negsuc, signed as signed_of}
use py_pointless.Eval.{
  Index, unsigned_index, signed_index, string_key, in_bounds, vector_item, bit_item, map_item,
  is_map, select,
}
use py_pointless.Reader.{Pointless}
use py_pointless.Reader.Bitvectors.{bitvector_n_bits, bitvector_is_set}
use py_pointless.Reader.Items.{item, vector_n_items, vector_value_case}
use py_pointless.Reader.Tables.{
  Found, found, missing, not_hashable, cmp_error, bad_access, endless, given,
}
use py_pointless.Value.{
  Tag, Value, CompleteValue, value_from_complete, is_vector_type, is_bitvector_type, vector_value,
  vector_value_hashable, vector_i8, vector_u8, vector_i16, vector_u16, vector_i32, vector_u32,
  vector_i64, vector_u64, vector_float, vector_empty, bitvector, bitvector_0, bitvector_1,
  bitvector_01, bitvector_10, bitvector_packed, map_value_value, i32, u32, float, boolean,
}
use py_pointless.Value.Accessors.{
  complete_i32, complete_u32, complete_i64, complete_u64, complete_float, create_as_read_bool_false,
  create_as_read_bool_true,
}

-- The types that a value found in a value of type `t` may have
abbrev pub ItemType : Tag → Tag → Type 0
ItemType vector_value u = Unit
ItemType vector_value_hashable u = Unit
ItemType vector_i8 u = u ≡ i32
ItemType vector_u8 u = u ≡ u32
ItemType vector_i16 u = u ≡ i32
ItemType vector_u16 u = u ≡ u32
ItemType vector_i32 u = u ≡ i32
ItemType vector_u32 u = u ≡ u32
ItemType vector_float u = u ≡ float
ItemType bitvector u = u ≡ boolean
ItemType bitvector_0 u = u ≡ boolean
ItemType bitvector_1 u = u ≡ boolean
ItemType bitvector_01 u = u ≡ boolean
ItemType bitvector_10 u = u ≡ boolean
ItemType bitvector_packed u = u ≡ boolean
ItemType map_value_value u = Unit
ItemType _ u = ⊥

-- A value that is found has a type that `P` allows.
abbrev Has : (Tag → Type 0) → Found Value → Type 0
Has P (found v) = P v.tag
Has P _ = Unit

abbrev HasSome : (Tag → Type 0) → Option Value → Type 0
HasSome P none = Unit
HasSome P (some v) = P v.tag

module _ (P : Tag → Type 0) where
  in_bounds-Has :
      (p : Pointless) (i : Index) (n : Option ℕ) (at : ℕ → Found Value)
      → ((k : ℕ) → Has P (at k))
      → Has P (in_bounds p i n at)
  in_bounds-Has p (string_key s k) n at has = tt
  in_bounds-Has p (signed_index (negsuc k)) n at has = tt
  in_bounds-Has p (signed_index (pos k)) none at has = tt
  in_bounds-Has p (signed_index (pos k)) (some n) at has = elim (Bool-cases (leb n k)) [
    | inl beyond ↦ rw beyond tt
    | inr within ↦ rw within (has k)
  ]
  in_bounds-Has p (unsigned_index k) none at has = tt
  in_bounds-Has p (unsigned_index k) (some n) at has = elim (Bool-cases (leb n k)) [
    | inl beyond ↦ rw beyond tt
    | inr within ↦ rw within (has k)
  ]

  converted-Has : (o : Option Value) → HasSome P o → Has P (given o (λ v. found v))
  converted-Has none h = tt
  converted-Has (some v) h = h

  -- An item that is read as a complete value and converted
  item-Has :
      {A : Type 0} (o : Option A) (f : A → CompleteValue)
      → ((x : A) → HasSome P (value_from_complete (f x)))
      → Has P (given (map f o) (λ c. given (value_from_complete c) (λ v. found v)))
  item-Has none f h = tt
  item-Has (some x) f h = converted-Has (value_from_complete (f x)) (h x)

  all-Has : ((u : Tag) → P u) → (r : Found Value) → Has P r
  all-Has h (found v) = h v.tag
  all-Has h missing = tt
  all-Has h not_hashable = tt
  all-Has h cmp_error = tt
  all-Has h bad_access = tt
  all-Has h endless = tt

bit-Has :
    (o : Option Bool)
    → Has
        (λ u. u ≡ boolean)
        (given o (λ b. found (if b then create_as_read_bool_true else create_as_read_bool_false)))
unfolding create_as_read_bool_true create_as_read_bool_false
bit-Has none = tt
bit-Has (some true) = refl
bit-Has (some false) = refl

module _ (p : Pointless) (d : ℕ) where
  abbrev of_type : Tag → Value
  of_type t = record { tag = t; data_u32 = d }

  -- An item of a vector of numbers, of `w` bytes
  number-Has :
      (t : Tag) (k w : ℕ) (f : ℕ → CompleteValue)
      → vector_value_case p t d k ≡ map f (item w p t d k)
      → ((x : ℕ) → HasSome (ItemType t) (value_from_complete (f x)))
      → Has (ItemType t) (vector_item p (of_type t) k)
  unfolding vector_item
  number-Has t k w f e h =
      subst (λ o. Has (ItemType t) (given o (λ c. given (value_from_complete c) (λ v. found v))))
        (sym e) (item-Has (ItemType t) (item w p t d k) f h)

  vector_item-Has :
      (t : Tag) (k : ℕ) → is_vector_type t ≡ true → Has (ItemType t) (vector_item p (of_type t) k)
  unfolding vector_value_case value_from_complete is_vector_type vector_item
  vector_item-Has vector_value k h =
      all-Has (ItemType vector_value) (λ u. tt) (vector_item p (of_type vector_value) k)
  vector_item-Has vector_value_hashable k h =
      all-Has (ItemType vector_value_hashable) (λ u. tt)
        (vector_item p (of_type vector_value_hashable) k)
  vector_item-Has vector_i8 k h =
      number-Has vector_i8 k 1 (λ x. complete_i32 (signed_of 8 x)) refl (λ x. refl)
  vector_item-Has vector_u8 k h = number-Has vector_u8 k 1 (λ x. complete_u32 x) refl (λ x. refl)
  vector_item-Has vector_i16 k h =
      number-Has vector_i16 k 2 (λ x. complete_i32 (signed_of 16 x)) refl (λ x. refl)
  vector_item-Has vector_u16 k h = number-Has vector_u16 k 2 (λ x. complete_u32 x) refl (λ x. refl)
  vector_item-Has vector_i32 k h =
      number-Has vector_i32 k 4 (λ x. complete_i32 (signed_of 32 x)) refl (λ x. refl)
  vector_item-Has vector_u32 k h = number-Has vector_u32 k 4 (λ x. complete_u32 x) refl (λ x. refl)
  vector_item-Has vector_i64 k h =
      number-Has vector_i64 k 8 (λ x. complete_i64 (signed_of 64 x)) refl (λ x. tt)
  vector_item-Has vector_u64 k h = number-Has vector_u64 k 8 (λ x. complete_u64 x) refl (λ x. tt)
  vector_item-Has vector_float k h =
      number-Has vector_float k 4 (λ x. complete_float x) refl (λ x. refl)
  vector_item-Has vector_empty k h = tt
  vector_item-Has _ k h = cc

  bit_item-Has :
      (t : Tag) (k : ℕ)
      → ItemType t ≡ (λ u. u ≡ boolean)
      → Has (ItemType t) (bit_item p (of_type t) k)
  unfolding bit_item
  bit_item-Has t k e =
      subst (λ P. Has P (bit_item p (of_type t) k)) (sym e) (bit-Has (bitvector_is_set p t d k))

  bitvector_types : (t : Tag) → is_bitvector_type t ≡ true → ItemType t ≡ (λ u. u ≡ boolean)
  unfolding is_bitvector_type
  bitvector_types bitvector h = refl
  bitvector_types bitvector_0 h = refl
  bitvector_types bitvector_1 h = refl
  bitvector_types bitvector_01 h = refl
  bitvector_types bitvector_10 h = refl
  bitvector_types bitvector_packed h = refl
  bitvector_types _ h = cc

  others-Has :
      (t : Tag) (i : Index)
      → is_vector_type t ≡ false
      → is_bitvector_type t ≡ false
      → Has (ItemType t) (if is_map p t then map_item p (of_type t) i else missing)
  unfolding is_vector_type is_bitvector_type
  others-Has map_value_value i h h' =
      all-Has (ItemType map_value_value) (λ u. tt) (map_item p (of_type map_value_value) i)
  others-Has _ i h h' = tt

  select-Has : (t : Tag) (i : Index) → Has (ItemType t) (select p (of_type t) i)
  unfolding select
  select-Has t i = elim (Bool-cases (is_vector_type t)) [
    | inl vector ↦ rw vector (
        in_bounds-Has (ItemType t) p i (vector_n_items p t d) (vector_item p (of_type t))
          (λ k. vector_item-Has t k vector))
    | inr no_vector ↦ rw no_vector (elim (Bool-cases (is_bitvector_type t)) [
      | inl bits ↦ rw bits (
          in_bounds-Has (ItemType t) p i (bitvector_n_bits p t d) (bit_item p (of_type t))
            (λ k. bit_item-Has t k (bitvector_types t bits)))
      | inr no_bits ↦ rw no_bits (others-Has t i no_vector no_bits)
    ])
  ]

-- Where an index of a path finds a value, its type is the one that the type of the container asks
-- for: a number of 32 bits or a float in a vector of such, a boolean in a bitvector, any type in a
-- map or a vector of values. In a vector of 64-bit integers, and in anything that is not a
-- container, no value is found.
pub select-ItemType :
    (p : Pointless) (root : Value) (i : Index) (v : Value)
    → select p root i ≡ found v
    → ItemType root.tag v.tag
select-ItemType p root i v h =
    subst (Has (ItemType root.tag)) h (select-Has p root.data_u32 root.tag i)
