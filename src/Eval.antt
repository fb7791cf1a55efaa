-- ===== src/Eval.antt =====
-- src/pointless_eval.c: paths such as ['key'][10][%u32] into a value of an open file. A path is the
-- list of its characters, without the zero that ends it. The arguments of the placeholders are a
-- list that the steps take from; a `va_list` is passed to the steps as an array, by reference.
mod Remainder
pub mod Lookups
pub mod Progress
mod Extension
pub mod Paths
pub mod Indices
pub mod Types
pub mod Typed
use mathlib.Core.Option.{map}
use py_pointless.Base.{
  ℕ, zero, suc, ◌+◌, ◌^◌, ◌<◌, Bool, true, false, ◌&&◌, ◌||◌, Option, some, none, List, [], ◌∷◌,
  ◌++◌, ltb, leb, ◌==◌, if◌then◌else◌, length,
}
use py_pointless.Base.Int.{ℤ, pos, negsuc}
use py_pointless.IntOps.Eval.Tokens.{is_digit, decimal}
use py_pointless.Reader.{Pointless}
use py_pointless.Reader.Items.{vector_n_items, vector_value_case}
use py_pointless.Reader.Bitvectors.{bitvector_n_bits, bitvector_is_set}
use py_pointless.Reader.Tables.{
  Found, found, missing, not_hashable, cmp_error, bad_access, endless, given,
}
use py_pointless.Reader.Tables.Mapping.{get_mapping_int_to_value}
use py_pointless.Reader.Helpers.{get_mapping_string_n_to_value}
use py_pointless.Strings.{string_len}
use py_pointless.Value.{
  Tag, Value, is_vector_type, is_bitvector_type, value_from_complete, map_value_value,
}
use py_pointless.Value.Accessors.{create_as_read_bool_false, create_as_read_bool_true}

-- What the caller passes for a placeholder. A string is the list of its units to the end of its
-- memory.
pub data Argument : Type 0 where
  u64_argument u32_argument : ℕ → Argument
  i64_argument i32_argument : ℤ → Argument
  string_argument : List ℕ → Argument

-- `v_u`, `v_i`, or `s` and `s_n`
pub data Index : Type 0 where
  unsigned_index : ℕ → Index
  signed_index : ℤ → Index
  string_key : List ℕ → ℕ → Index

-- An index, what follows it and the arguments that are left; a return of 0; or an argument that is
-- not there, not of the type that is asked for, or not ended by a zero
pub data Parsed : Type 0 where
  parsed : Index → List ℕ → List Argument → Parsed
  malformed bad_argument : Parsed

-- `isspace`, for ASCII
abbrev pub is_space : ℕ → Bool
is_space c = (c == 32) || (leb 9 c && leb c 13)

unfoldable pub skip_whitespace : List ℕ → List ℕ
skip_whitespace [] = []
skip_whitespace (c ∷ e) = if is_space c then skip_whitespace e else c ∷ e

-- The digits that `strtoull` reads, and what follows
unfoldable pub digits : List ℕ → List ℕ × List ℕ
digits [] = ([], [])
digits (c ∷ e) = elim (is_digit c) [ true ↦ (c ∷ (digits e).0, (digits e).1) | false ↦ ([], c ∷ e) ]

-- `parse_number`: a number that does not fit into 64 bits is refused.
unfoldable pub parse_number : List ℕ × List ℕ → List Argument → Parsed
unfolding decimal
parse_number (ds, e) args =
    if ltb (decimal 0 ds) (2 ^ 64) then parsed (unsigned_index (decimal 0 ds)) e args else malformed

abbrev pub with_char : ℕ → Option (List ℕ × List ℕ) → Option (List ℕ × List ℕ)
with_char c none = none
with_char c (some (s, e)) = some (c ∷ s, e)

-- The characters up to the quote, and what follows it
unfoldable pub quoted : List ℕ → Option (List ℕ × List ℕ)
quoted [] = none
quoted (c ∷ e) = elim (c == 39) [ true ↦ some ([], e) | false ↦ with_char c (quoted e) ]

-- The key stands in the path, before the quote.
abbrev pub parse_key : Option (List ℕ × List ℕ) → List Argument → Parsed
parse_key none args = malformed
parse_key (some (s, e)) args = parsed (string_key (s ++ 39 ∷ []) (length s)) e args

-- What follows two characters, for `strncmp`
unfoldable pub behind_two : ℕ → ℕ → List ℕ → Option (List ℕ)
behind_two a b (c ∷ d ∷ e) = if (c == a) && (d == b) then some e else none
behind_two a b _ = none

-- `va_arg` of each type. The key has as many units as `strlen` says.
abbrev pub u64_taken : Argument → Option Index
u64_taken (u64_argument n) = some (unsigned_index n)
u64_taken _ = none

abbrev pub u32_taken : Argument → Option Index
u32_taken (u32_argument n) = some (unsigned_index n)
u32_taken _ = none

abbrev pub i64_taken : Argument → Option Index
i64_taken (i64_argument i) = some (signed_index i)
i64_taken _ = none

abbrev pub i32_taken : Argument → Option Index
i32_taken (i32_argument i) = some (signed_index i)
i32_taken _ = none

unfoldable pub string_taken : Argument → Option Index
unfolding string_len
string_taken (string_argument s) = map (λ n. string_key s n) (string_len s)
string_taken _ = none

abbrev pub with_argument : Option Index → List ℕ → List Argument → Parsed
with_argument none e args = bad_argument
with_argument (some i) e args = parsed i e args

abbrev pub take_argument : (Argument → Option Index) → List Argument → List ℕ → Parsed
take_argument convert [] e = bad_argument
take_argument convert (a ∷ args) e = with_argument (convert a) e args

-- The width behind `u` or `i`: "64" or "32"
abbrev pub width :
    Option (List ℕ) → Option (List ℕ) → (List ℕ → Parsed) → (List ℕ → Parsed) → Parsed
width (some e) r f g = f e
width none (some e) f g = g e
width none none f g = malformed

-- Behind the `%`
unfoldable pub parse_placeholder : List ℕ → List Argument → Parsed
unfolding behind_two string_taken
parse_placeholder [] args = malformed
parse_placeholder (c ∷ e) args =
    if c == 117
    then width (behind_two 54 52 e) (behind_two 51 50 e) (take_argument u64_taken args)
        (take_argument u32_taken args)
    else if c == 105
    then width (behind_two 54 52 e) (behind_two 51 50 e) (take_argument i64_taken args)
        (take_argument i32_taken args)
    else if c == 115
    then take_argument string_taken args e
    else malformed

-- Behind a `+`, which is followed by a digit that is not read
abbrev pub parse_plus : List ℕ → List Argument → Parsed
parse_plus [] args = malformed
parse_plus (c ∷ e) args =
    if is_digit c then parsed (signed_index (pos 0)) (c ∷ e) args else malformed

-- The `switch` behind the bracket. A `-` is not read, and `is_neg` is not used where digits are.
unfoldable pub parse_index : List ℕ → List Argument → Parsed
unfolding quoted digits parse_number parse_placeholder
parse_index [] args = malformed
parse_index (c ∷ e) args =
    if c == 39
    then parse_key (quoted e) args
    else if c == 45
    then parsed (signed_index (pos 0)) (c ∷ e) args
    else if c == 43
    then parse_plus e args
    else if is_digit c
    then parse_number (digits (c ∷ e)) args
    else if c == 37
    then parse_placeholder e args
    else malformed

-- What is left of the path, the value that it starts from and the arguments; a return of 0;
-- what stops the program; or a lookup that does not end
pub data Single : Type 0 where
  advanced : List ℕ → Value → List Argument → Single
  no_value step_fault step_endless : Single

-- What `pointless_eval_get` returns: 1 with the value, or 0; a stop of the program; a run that does
-- not end in a lookup, `never_ends`; or one whose steps are more than the fuel
pub data Evaluated : Type 0 where
  reached : Value → List Argument → Evaluated
  refused fault never_ends out_of_fuel : Evaluated

module _ (p : Pointless) where
  unfoldable pub vector_item : Value → ℕ → Found Value
  unfolding vector_value_case value_from_complete
  vector_item root i =
      given (vector_value_case p root.tag root.data_u32 i)
        (λ c. given (value_from_complete c) (λ v. found v))

  unfoldable pub bit_item : Value → ℕ → Found Value
  unfolding bitvector_is_set create_as_read_bool_true create_as_read_bool_false
  bit_item root i =
      given (bitvector_is_set p root.tag root.data_u32 i)
        (λ b. found (if b then create_as_read_bool_true else create_as_read_bool_false))

  -- An index of a vector or bitvector, behind the tests of strings and bounds
  abbrev pub in_bounds : Index → Option ℕ → (ℕ → Found Value) → Found Value
  in_bounds (string_key s n) n_items item = missing
  in_bounds (signed_index (negsuc i)) n_items item = missing
  in_bounds (signed_index (pos i)) n_items item =
      given n_items (λ n. if leb n i then missing else item i)
  in_bounds (unsigned_index i) n_items item =
      given n_items (λ n. if leb n i then missing else item i)

  unfoldable pub map_item : Value → Index → Found Value
  unfolding get_mapping_string_n_to_value get_mapping_int_to_value
  map_item root (string_key s n) = get_mapping_string_n_to_value p root.tag root.data_u32 s n
  map_item root (signed_index i) = get_mapping_int_to_value p root.tag root.data_u32 i
  map_item root (unsigned_index n) =
      if ltb n (2 ^ 63) then get_mapping_int_to_value p root.tag root.data_u32 (pos n) else missing

  abbrev pub is_map : Tag → Bool
  is_map map_value_value = true
  is_map _ = false

  -- The value under an index of a vector, bitvector or map
  unfoldable pub select : Value → Index → Found Value
  unfolding is_vector_type is_bitvector_type vector_n_items bitvector_n_bits vector_item bit_item
      map_item
  select root i =
      if is_vector_type root.tag
      then in_bounds i (vector_n_items p root.tag root.data_u32) (vector_item root)
      else if is_bitvector_type root.tag
      then in_bounds i (bitvector_n_bits p root.tag root.data_u32) (bit_item root)
      else if is_map root.tag
      then map_item root i
      else missing

  -- The bracket behind an index
  abbrev pub close_bracket : List ℕ → Value → List Argument → Single
  close_bracket [] root args = no_value
  close_bracket (c ∷ e) root args =
      if c == 93 then advanced (skip_whitespace e) root args else no_value

  abbrev pub with_value : Found Value → List ℕ → List Argument → Single
  with_value (found v) e args = close_bracket (skip_whitespace e) v args
  with_value missing e args = no_value
  with_value not_hashable e args = step_fault
  with_value cmp_error e args = step_fault
  with_value bad_access e args = step_fault
  with_value endless e args = step_endless

  abbrev pub with_index : Parsed → Value → Single
  with_index (parsed i e args) root = with_value (select root i) e args
  with_index malformed root = no_value
  with_index bad_argument root = step_fault

  abbrev pub bracket : List ℕ → Value → List Argument → Single
  bracket [] root args = advanced [] root args
  bracket (c ∷ e) root args = if c == 91 then with_index (parse_index e args) root else no_value

  unfoldable pub eval_get_single : Value → List ℕ → List Argument → Single
  unfolding skip_whitespace parse_index select
  eval_get_single root e args = bracket (skip_whitespace e) root args

  abbrev pub on_single : Single → (List ℕ → Value → List Argument → Evaluated) → Evaluated
  on_single (advanced e root args) k = k e root args
  on_single no_value k = refused
  on_single step_fault k = fault
  on_single step_endless k = never_ends

  -- The loop of `pointless_eval_get_`
  unfoldable pub eval_loop : ℕ → List ℕ → Value → List Argument → Evaluated
  unfolding eval_get_single
  eval_loop zero e root args = out_of_fuel
  eval_loop (suc fuel) [] root args = reached root args
  eval_loop (suc fuel) (c ∷ e) root args =
      on_single (eval_get_single root (c ∷ e) args) (λ rest v left. eval_loop fuel rest v left)

  -- `pointless_eval_get`. A step reads a bracket or comes to the end, so the fuel is enough.
  unfoldable pub eval_get : Value → List ℕ → List Argument → Evaluated
  unfolding eval_loop
  eval_get root e args = eval_loop (suc (length e)) e root args
