-- ===== src/Walk.antt =====
-- src/pointless_walk.c: a callback on the values of a file, parents before children. The fuel is
-- the depth that the walk can reach; `none` from the callback is a failed assertion in it.
pub mod Depth
pub mod Calm
use py_pointless.Base.{ℕ, zero, suc, ◌+◌, ◌*◌, Option, none, some}
use py_pointless.Value.{Tag, Value, vector_value, vector_value_hashable, set_value, map_value_value}
use py_pointless.Reader.{Pointless}
use py_pointless.Reader.Items.{
  after, value_read, vector_n_items, items_ptr, set_hash_vector, set_key_vector, map_hash_vector,
  map_key_vector, map_value_vector,
}

-- What a callback returns
pub data Action : Type 0 where
  move_up stop visit_children : Action

-- A walk that has gone through the value, one that the callback has stopped, an assertion or a
-- read that failed, or a value that is deeper than the fuel
pub data Walked (S : Type 0) : Type 0 where
  finished : S → Walked S
  halted : S → Walked S
  fault out_of_fuel : Walked S

-- A step behind a walk that was not stopped
abbrev pub next : {S : Type 0} → Walked S → (S → Walked S) → Walked S
next (finished s) k = k s
next (halted s) k = halted s
next fault k = fault
next out_of_fuel k = out_of_fuel

-- A step that needs a pointer or a number
abbrev pub given : {A S : Type 0} → Option A → (A → Walked S) → Walked S
given none k = fault
given (some a) k = k a

module _ {S : Type 0} (p : Pointless) (visit : Value → S → Walked S) where
  -- The loop over the items of a vector, which stand at `a`
  pub walk_items : ℕ → ℕ → ℕ → S → Walked S
  unfolding value_read
  walk_items a zero i s = finished s
  walk_items a (suc left) i s =
      given (value_read p (a + 8 * i)) (λ x. next (visit x s) (walk_items a left (i + 1)))

  pub walk_vector : Tag → ℕ → S → Walked S
  unfolding walk_items vector_n_items items_ptr
  walk_vector t v s =
      given (vector_n_items p t v) (λ n. given (items_ptr p t v) (λ a. walk_items a n 0 s))

  -- The children of a value
  pub walk_children : Tag → ℕ → S → Walked S
  unfolding walk_vector set_hash_vector set_key_vector map_hash_vector map_key_vector
      map_value_vector
  walk_children vector_value v s = walk_vector vector_value v s
  walk_children vector_value_hashable v s = walk_vector vector_value_hashable v s
  walk_children set_value v s =
      given (set_hash_vector p set_value v) (λ hashes.
        given (set_key_vector p set_value v) (λ keys. next (visit hashes s) (visit keys)))
  walk_children map_value_value v s = given (map_hash_vector p map_value_value v) (λ hashes.
      given (map_key_vector p map_value_value v) (λ keys.
        given (map_value_vector p map_value_value v)
          (λ values. next (visit hashes s) (λ s'. next (visit keys s') (visit values)))))
  walk_children _ v s = finished s

module _ {S : Type 0} (p : Pointless) (cb : Value → ℕ → S → Option (Action × S)) where
  -- What is done with what the callback returns
  pub proceed : (S → Walked S) → Option (Action × S) → Walked S
  proceed into none = fault
  proceed into (some (move_up, s)) = finished s
  proceed into (some (stop, s)) = halted s
  proceed into (some (visit_children, s)) = into s

  -- `pointless_walk_priv`
  pub walk_priv : ℕ → ℕ → Value → S → Walked S
  unfolding proceed walk_children
  walk_priv zero depth v s = out_of_fuel
  walk_priv (suc fuel) depth v s =
      proceed (walk_children p (walk_priv fuel (depth + 1)) v.tag v.data_u32) (cb v depth s)

  -- `pointless_walk`
  unfoldable pub walk : ℕ → S → Walked S
  unfolding walk_priv
  walk fuel s = walk_priv fuel 0 p.root s
