-- ===== src/Validate/Pass.antt =====
-- src/pointless_validate.c: the three passes over the values of a file. Hashing and comparing keys,
-- and the cycle marker, are parameters; `none` is a failed assertion, a read past the end of the
-- file or, in the check of a table, a loop that does not end.
pub mod Ends
pub mod Children
pub mod Calm
use py_pointless.Base.{
  ℕ, zero, suc, ◌+◌, ◌*◌, Bool, true, false, not, ◌&&◌, ◌||◌, Option, none, some, List, [], ◌∷◌,
  leb, u32 as to_u32, ◌==◌, if◌then◌else◌,
}
use py_pointless.BitUtils.{Bytes, bm_set, is_set}
use py_pointless.Value.{
  Tag, Value, vector_value, vector_value_hashable, set_value, map_value_value, empty_slot,
  vector_u32, vector_empty, is_vector_type,
}
use py_pointless.HashTable.{Table}
use py_pointless.HashTable.Validation.{
  TableError, TableVerdict, table_valid, bad_access, diverges, refused, validate,
}
use py_pointless.Hash.{is_hashable}
use py_pointless.Reader.{Pointless}
use py_pointless.Reader.Items.{
  after, item, value_item, vector_n_items, set_n_items, set_hash_vector, set_key_vector,
  map_n_items, map_hash_vector, map_key_vector, map_value_vector,
}
use py_pointless.Walk.{
  Action, move_up, stop, visit_children, Walked, finished, halted, fault, out_of_fuel, walk,
}
use py_pointless.Validate.{
  ValidateError, Verdict, valid, fault as read_fault, invalid, heap_ref, inline_invariants,
  heap_value,
}

pub data PassError : Type 0 where
  too_deep in_cycle set_sizes map_sizes : PassError
  of_value : ValidateError → PassError
  of_table : TableError → PassError

pub data Pass : Type 0 where
  first second third : Pass

-- `pointless_validate_state_t`: the pass, the error and the bits of the containers visited
pub record State : Type 0 where
  pub pass : Pass
  pub error : Option PassError
  pub vector : Bytes
  pub set : Bytes
  pub map : Bytes

-- `POINTLESS_MAX_DEPTH`
abbrev pub max_depth : ℕ
max_depth = 512

-- Stops with an error
abbrev pub refuse : State → PassError → Option (Action × State)
refuse s e = some (stop, record s { error = some e })

-- A container that was visited is `none`; another one is marked as visited.
pub mark_visited : Tag → ℕ → State → Option State
unfolding bm_set is_set
mark_visited vector_value v s =
    if is_set s.vector v then none else some (record s { vector = bm_set s.vector v })
mark_visited vector_value_hashable v s =
    if is_set s.vector v then none else some (record s { vector = bm_set s.vector v })
mark_visited set_value v s =
    if is_set s.set v then none else some (record s { set = bm_set s.set v })
mark_visited map_value_value v s =
    if is_set s.map v then none else some (record s { map = bm_set s.map v })
mark_visited _ v s = some s

-- The items of a vector of values and of one of 32-bit integers
unfoldable pub values_from : Pointless → Tag → ℕ → ℕ → ℕ → Option (List Value)
unfolding value_item
values_from p t v zero i = some []
values_from p t v (suc left) i =
    after (value_item p t v i) (λ x. after (values_from p t v left (i + 1)) (λ xs. some (x ∷ xs)))

unfoldable pub hashes_from : Pointless → Tag → ℕ → ℕ → ℕ → Option (List ℕ)
unfolding item
hashes_from p vector_u32 v zero i = some []
hashes_from p vector_u32 v (suc left) i =
    after (item 4 p vector_u32 v i)
      (λ x. after (hashes_from p vector_u32 v left (i + 1)) (λ xs. some (x ∷ xs)))
hashes_from p _ v left i = none

abbrev pub is_empty_slot : Value → Bool
is_empty_slot x = elim x.tag [ empty_slot ↦ true | _ ↦ false ]

-- What the check of a table comes to; `some none` is no error.
unfoldable pub table_error : TableVerdict → Option (Option PassError)
table_error table_valid = some none
table_error (refused e) = some (some (of_table e))
table_error bad_access = none
table_error diverges = none

module _ (p : Pointless) (hash_of : Value → ℕ) (cmp : Value → Value → Option Bool) where
  -- The table of a vector of hashes and a vector of keys, checked for `n_items` items
  unfoldable pub check_table :
      ℕ → Value → Value → Option (List Value) → ℕ → Option (Option PassError)
  unfolding hashes_from values_from table_error
  check_table n_buckets hashes keys values n_items =
      after (hashes_from p hashes.tag hashes.data_u32 n_buckets 0) (λ hash_vector.
        after (values_from p keys.tag keys.data_u32 n_buckets 0) (λ key_vector. table_error (
          validate
            (record {
              is_empty = is_empty_slot;
              n_buckets = n_buckets;
              hashes = hash_vector;
              keys = key_vector;
            })
            (λ k. is_hashable k.tag) hash_of cmp values n_items)))

  -- `pointless_validate_set_complicated`
  unfoldable pub set_complicated : Tag → ℕ → Option (Option PassError)
  unfolding check_table set_hash_vector set_key_vector set_n_items vector_n_items
  set_complicated t v = after (set_hash_vector p t v) (λ hashes.
      after (set_key_vector p t v) (λ keys.
        after (vector_n_items p hashes.tag hashes.data_u32) (λ n_hash.
          after (vector_n_items p keys.tag keys.data_u32) (λ n_keys.
            if not (n_hash == n_keys)
            then some (some set_sizes)
            else after (set_n_items p t v) (check_table n_keys hashes keys none)))))

  -- `pointless_validate_map_complicated`
  pub map_complicated : Tag → ℕ → Option (Option PassError)
  unfolding check_table map_hash_vector map_key_vector map_value_vector map_n_items vector_n_items
      values_from
  map_complicated t v = after (map_hash_vector p t v) (λ hashes.
      after (map_key_vector p t v) (λ keys. after (map_value_vector p t v) (λ values.
        after (vector_n_items p hashes.tag hashes.data_u32) (λ n_hash.
          after (vector_n_items p keys.tag keys.data_u32) (λ n_keys.
            after (vector_n_items p values.tag values.data_u32) (λ n_values.
              if not (n_hash == n_keys) || not (n_hash == n_values)
              then some (some map_sizes)
              else after (values_from p values.tag values.data_u32 n_values 0) (λ value_vector.
                after (map_n_items p t v)
                  (check_table n_keys hashes keys (some value_vector)))))))))

  -- The third pass on a value
  pub table_checks : Tag → ℕ → Option (Option PassError)
  unfolding set_complicated map_complicated
  table_checks map_value_value v = map_complicated map_value_value v
  table_checks set_value v = set_complicated set_value v
  table_checks _ v = some none

-- `pointless_container_id`; `none`: the assertion on the type fails.
pub container_id : Pointless → Tag → ℕ → Option ℕ
container_id p vector_empty v = some 0
container_id p set_value v = some (to_u32 (1 + v + p.n_vector))
container_id p map_value_value v = some (to_u32 (1 + v + p.n_vector + p.n_set))
container_id p t v = if is_vector_type t then some (to_u32 (1 + v)) else none

-- What follows on a check of a value
pub judged : Verdict → State → Option (Action × State) → Option (Action × State)
judged valid s k = k
judged read_fault s k = none
judged (invalid e) s k = refuse s (of_value e)

module _ (p : Pointless) (hash_of : Value → ℕ) (cmp : Value → Value → Option Bool)
    (marker : Bytes) where
  -- The first pass checks the reference before the container is marked.
  pub ref_checked : Pass → Value → State → Option (Action × State) → Option (Action × State)
  unfolding judged heap_ref
  ref_checked first v s k = judged (heap_ref p v.tag v.data_u32) s k
  ref_checked second v s k = k
  ref_checked third v s k = k

  pub cycle_checked : Option ℕ → State → Option (Action × State)
  unfolding is_set
  cycle_checked none s = none
  cycle_checked (some id) s =
      if is_set marker id then refuse s in_cycle else some (visit_children, s)

  -- The second pass: no hashable vector is in a cycle.
  pub cycle_checks : Tag → ℕ → State → Option (Action × State)
  unfolding cycle_checked container_id
  cycle_checks vector_value_hashable v s = cycle_checked (container_id p vector_value_hashable v) s
  cycle_checks _ v s = some (visit_children, s)

  pub table_checked : Option (Option PassError) → State → Option (Action × State)
  table_checked none s = none
  table_checked (some none) s = some (visit_children, s)
  table_checked (some (some e)) s = refuse s e

  pub pass_checks : Pass → Value → State → Option (Action × State)
  unfolding judged cycle_checks table_checked inline_invariants heap_value table_checks
  pass_checks first v s =
      judged (inline_invariants v.tag v.data_u32) s
        (judged (heap_value p v.tag v.data_u32) s (some (visit_children, s)))
  pass_checks second v s = cycle_checks v.tag v.data_u32 s
  pass_checks third v s = table_checked (table_checks p hash_of cmp v.tag v.data_u32) s

  pub visited : Value → Option State → State → Option (Action × State)
  unfolding pass_checks
  visited v none s = some (move_up, s)
  visited v (some s') s = pass_checks s'.pass v s'

  -- `pointless_validate_pass_cb`
  pub pass_cb : Value → ℕ → State → Option (Action × State)
  unfolding ref_checked visited mark_visited
  pass_cb v depth s =
      if leb max_depth depth
      then refuse s too_deep
      else ref_checked s.pass v s (visited v (mark_visited v.tag v.data_u32 s) s)

  -- A pass, with nothing marked
  pub run_pass : Pass → Walked State
  unfolding pass_cb walk
  run_pass pass =
      walk p pass_cb (suc max_depth)
        (record { pass = pass; error = none; vector = λ a. 0; set = λ a. 0; map = λ a. 0 })

-- What a validation comes to; `unfinished` is a walk that is deeper than its fuel.
pub data Validated : Type 0 where
  accepted out_of_memory no_marker crashed unfinished : Validated
  rejected : PassError → Validated

pub unless_error : Option PassError → Validated → Validated
unless_error (some e) k = rejected e
unless_error none k = k

pub after_pass : Walked State → Validated → Validated
unfolding unless_error
after_pass (finished s) k = unless_error s.error k
after_pass (halted s) k = unless_error s.error k
after_pass fault k = crashed
after_pass out_of_fuel k = unfinished

module _ (p : Pointless) (hash_of : Value → ℕ) (cmp : Value → Value → Option Bool) where
  pub later_passes : Option Bytes → Validated
  unfolding after_pass run_pass
  later_passes none = no_marker
  later_passes (some marker) =
      after_pass (run_pass p hash_of cmp marker second)
        (after_pass (run_pass p hash_of cmp marker third) accepted)

  -- `pointless_validate`, with whether there is memory for the bits and with what the cycle marker
  -- returns
  pub validate_file : Bool → Option Bytes → Validated
  unfolding after_pass run_pass later_passes
  validate_file memory marker =
      if not memory
      then out_of_memory
      else after_pass (run_pass p hash_of cmp (λ a. 0) first) (later_passes marker)
