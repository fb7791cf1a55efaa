-- ===== src/Reader/Helpers/SameKeys.antt =====
-- src/pointless_reader_helpers.c: whether a set and a map, or two maps, have the same keys. The
-- hash of a value and its comparison, which hold for values without cycles, are parameters.
pub mod Loops
use py_pointless.Base.{
  ℕ, zero, suc, ◌+◌, Bool, true, false, not, Option, some, none, get_elem?, ◌==◌, if◌then◌else◌,
}
use py_pointless.Base.Int.{ℤ, pattern_of}
use py_pointless.Hash.{hash_i64}
use py_pointless.Reader.{Pointless}
use py_pointless.Reader.Items.{after, set_n_items, map_n_items}
use py_pointless.Reader.Tables.{
  Found, found, missing, not_hashable, cmp_error, bad_access, Iterated, item_at, finished, bad_read,
  set_iter, map_iter,
}
use py_pointless.Reader.Tables.Mapping.{check_i64}
use py_pointless.Reader.Helpers.{Check, accepted, get_map, get_set, get_value}
use py_pointless.Value.{Tag, Value}

-- `pointless_is_int_in_map`; what is found is the value.
pub is_int_in_map : Pointless → Tag → ℕ → ℤ → Found Value
unfolding get_map check_i64 hash_i64
is_int_in_map p t v i =
    get_map p t v (some (hash_i64 (pattern_of 64 i))) (λ k. some (check_i64 i k)) get_value

-- The result 1 or 0 of a lookup; `none`: it does not return one.
abbrev pub as_bool : {A : Type 0} → Found A → Option Bool
as_bool (found _) = some true
as_bool missing = some false
as_bool _ = none

-- A loop that leaves where a test fails; `rest` is what follows where it holds.
abbrev pub unless_fails : Option Bool → Option Bool → Option Bool
unless_fails none rest = none
unless_fails (some false) rest = some false
unless_fails (some true) rest = rest

-- `while (iter(&kk, &state)) { if (!is_in(kk)) return 0; }`, with `rest` behind the loop
module _ {A : Type 0} (iter : ℕ → Iterated A) (is_in : A → Option Bool) (rest : Option Bool) where
  abbrev pub at_item : Iterated A → (ℕ → Option Bool) → Option Bool
  at_item (item_at a i) k = unless_fails (is_in a) (k i)
  at_item finished k = rest
  at_item bad_read k = none

  unfoldable pub all_in : ℕ → ℕ → Option Bool
  all_in zero i = none
  all_in (suc fuel) i = at_item (iter i) (λ next. all_in fuel next)

abbrev pub key_of : Value × Value → Value
key_of (k, x) = k

module _ (hash_of : Value → Option ℕ) (is_equal : Value → Value → Option Bool) (p : Pointless) where
  pub is_in_set_acyclic : Tag → ℕ → Value → Found ℕ
  unfolding get_set
  is_in_set_acyclic t v k = get_set p t v (hash_of k) (λ kk. is_equal kk k)

  pub is_in_map_acyclic : Tag → ℕ → Value → Found Value
  unfolding get_map
  is_in_map_acyclic t v k = get_map p t v (hash_of k) (λ kk. is_equal kk k) get_value

  abbrev pub in_set : Tag → ℕ → Value → Option Bool
  in_set t v k = as_bool (is_in_set_acyclic t v k)

  abbrev pub in_map : Tag → ℕ → Value → Option Bool
  in_map t v k = as_bool (is_in_map_acyclic t v k)

  -- The fuel of a loop: an iteration reads a key of eight bytes and goes on behind it.
  abbrev pub rounds : ℕ
  rounds = suc p.buflen

  -- `none` is a failed assertion or a read past the end of the file.
  pub has_same_keys_set_map : Tag → ℕ → Tag → ℕ → Option Bool
  unfolding set_n_items map_n_items set_iter map_iter all_in is_in_map_acyclic is_in_set_acyclic
  has_same_keys_set_map t_s s t_m m = after (set_n_items p t_s s) (λ n_s.
      after (map_n_items p t_m m) (λ n_m.
        if not (n_s == n_m)
        then some false
        else all_in (set_iter p t_s s) (in_map t_m m)
            (all_in (map_iter p t_m m) (λ pair. in_set t_s s (key_of pair)) (some true) rounds 0)
            rounds 0))

  pub has_same_keys_map_map : Tag → ℕ → Tag → ℕ → Option Bool
  unfolding map_n_items map_iter all_in is_in_map_acyclic
  has_same_keys_map_map t_a a t_b b = after (map_n_items p t_a a) (λ n_a.
      after (map_n_items p t_b b) (λ n_b.
        if not (n_a == n_b)
        then some false
        else all_in (map_iter p t_a a) (λ pair. in_map t_b b (key_of pair))
            (all_in (map_iter p t_b b) (λ pair. in_map t_a a (key_of pair)) (some true) rounds 0)
            rounds 0))
