-- ===== src/Walk/Calm.antt =====
-- A walk over values whose children can be read fails no assertion and reads nothing outside the
-- file.
use py_pointless.Base.{ℕ, zero, suc, ◌+◌, ◌*◌, ◌<◌, ◌≡◌, Option, none, some, arith}
use py_pointless.Value.{Tag, Value, vector_value, vector_value_hashable, set_value, map_value_value}
use py_pointless.Reader.{Pointless}
use py_pointless.Reader.Items.{
  value_read, vector_n_items, items_ptr, set_hash_vector, set_key_vector, map_hash_vector,
  map_key_vector, map_value_vector,
}
use py_pointless.Walk.{
  Action, stop, move_up, visit_children, Walked, finished, halted, fault, out_of_fuel, next, given,
  walk_items, walk_vector, walk_children, proceed, walk_priv, walk,
}

abbrev pub IsThere : {A : Type 0} → Option A → Type 0
IsThere {A} o = (x : A) × (o ≡ some x)

-- The items of a vector can be read.
abbrev pub HasItems : Pointless → Tag → ℕ → Type 0
HasItems p t v =
    (n : ℕ) × (a : ℕ) × (vector_n_items p t v ≡ some n)
    × (items_ptr p t v ≡ some a)
    × ((i : ℕ) → i < n → IsThere (value_read p (a + 8 * i)))

-- The children of a value can be read.
abbrev pub HasChildren : Pointless → Tag → ℕ → Type 0
HasChildren p vector_value v = HasItems p vector_value v
HasChildren p vector_value_hashable v = HasItems p vector_value_hashable v
HasChildren p set_value v =
    IsThere (set_hash_vector p set_value v) × IsThere (set_key_vector p set_value v)
HasChildren p map_value_value v =
    IsThere (map_hash_vector p map_value_value v)
    × IsThere (map_key_vector p map_value_value v)
    × IsThere (map_value_vector p map_value_value v)
HasChildren p _ v = Unit

module _ {S : Type 0} (p : Pointless) (Holds : S → Type 0) where
  -- A walk that has failed nothing and keeps an invariant of the state
  abbrev pub IsCalm : Walked S → Type 0
  IsCalm (finished s) = Holds s
  IsCalm (halted s) = Unit
  IsCalm fault = ⊥
  IsCalm out_of_fuel = Unit

  -- What a callback may return for a value
  abbrev pub IsFine : Tag → ℕ → Option (Action × S) → Type 0
  IsFine t v none = ⊥
  IsFine t v (some (move_up, s)) = Holds s
  IsFine t v (some (stop, s)) = Holds s
  IsFine t v (some (visit_children, s)) = Holds s × HasChildren p t v

  next-IsCalm :
      (r : Walked S) (k : S → Walked S)
      → IsCalm r
      → ((s : S) → Holds s → IsCalm (k s))
      → IsCalm (next r k)
  next-IsCalm (finished s) k h g = g s h
  next-IsCalm (halted s) k h g = h
  next-IsCalm fault k h g = h
  next-IsCalm out_of_fuel k h g = h

  given-IsCalm :
      {A : Type 0} (o : Option A) (k : A → Walked S)
      → IsThere o
      → ((x : A) → IsCalm (k x))
      → IsCalm (given o k)
  given-IsCalm none k (x, e) h = cc
  given-IsCalm (some a) k e h = h a

  module _ (visit : Value → S → Walked S)
      (calm : (x : Value) (s : S) → Holds s → IsCalm (visit x s)) where
    walk_items-IsCalm :
        (a left i n : ℕ) (s : S)
        → i + left ≡ n
        → ((j : ℕ) → j < n → IsThere (value_read p (a + 8 * j)))
        → Holds s
        → IsCalm (walk_items p visit a left i s)
    unfolding walk_items
    walk_items-IsCalm a zero i n s e items h = h
    walk_items-IsCalm a (suc left) i n s e items h =
        given-IsCalm (value_read p (a + 8 * i)) _ (items i (omega arith)) λ x.
          next-IsCalm (visit x s) _ (calm x s h)
            λ s' h'. walk_items-IsCalm a left (i + 1) n s' (omega arith) items h'

    walk_vector-IsCalm :
        (t : Tag) (v : ℕ) (s : S) → HasItems p t v → Holds s → IsCalm (walk_vector p visit t v s)
    unfolding walk_vector
    walk_vector-IsCalm t v s (n, a, count, items, there) h =
        rw (count, items) (walk_items-IsCalm a n 0 n s (omega arith) there h)

    walk_children-IsCalm :
        (t : Tag) (v : ℕ) (s : S)
        → HasChildren p t v
        → Holds s
        → IsCalm (walk_children p visit t v s)
    unfolding walk_children
    walk_children-IsCalm vector_value v s c h = walk_vector-IsCalm vector_value v s c h
    walk_children-IsCalm vector_value_hashable v s c h =
        walk_vector-IsCalm vector_value_hashable v s c h
    walk_children-IsCalm set_value v s (hashes, keys) h =
        given-IsCalm (set_hash_vector p set_value v) _ hashes λ x.
          given-IsCalm (set_key_vector p set_value v) _ keys
            λ y. next-IsCalm (visit x s) _ (calm x s h) (calm y)
    walk_children-IsCalm map_value_value v s (hashes, keys, values) h =
        given-IsCalm (map_hash_vector p map_value_value v) _ hashes λ x.
          given-IsCalm (map_key_vector p map_value_value v) _ keys λ y.
            given-IsCalm (map_value_vector p map_value_value v) _ values λ z.
              next-IsCalm (visit x s) _ (calm x s h)
                λ s' h'. next-IsCalm (visit y s') _ (calm y s' h') (calm z)
    walk_children-IsCalm _ v s c h = h

  module _ (cb : Value → ℕ → S → Option (Action × S))
      (fine : (v : Value) (depth : ℕ) (s : S)
        → Holds s
        → IsFine v.tag v.data_u32 (cb v depth s)) where
    proceed-IsCalm :
        (t : Tag) (v : ℕ) (into : S → Walked S) (r : Option (Action × S))
        → IsFine t v r
        → ((s : S) → HasChildren p t v → Holds s → IsCalm (into s))
        → IsCalm (proceed p cb into r)
    unfolding proceed
    proceed-IsCalm t v into none h g = h
    proceed-IsCalm t v into (some (move_up, s)) h g = h
    proceed-IsCalm t v into (some (stop, s)) h g = tt
    proceed-IsCalm t v into (some (visit_children, s)) (h, c) g = g s c h

    walk_priv-IsCalm :
        (fuel depth : ℕ) (v : Value) (s : S) → Holds s → IsCalm (walk_priv p cb fuel depth v s)
    unfolding walk_priv
    walk_priv-IsCalm zero depth v s h = tt
    walk_priv-IsCalm (suc fuel) depth v s h =
        proceed-IsCalm v.tag v.data_u32 _ (cb v depth s) (fine v depth s h) λ s' c h'.
          walk_children-IsCalm (walk_priv p cb fuel (depth + 1)) (walk_priv-IsCalm fuel (depth + 1))
            v.tag v.data_u32 s' c h'

    -- A callback that visits the children of a value only where they can be read keeps the walk
    -- from failing.
    pub walk-IsCalm : (fuel : ℕ) (s : S) → Holds s → IsCalm (walk p cb fuel s)
    unfolding walk
    walk-IsCalm fuel s h = walk_priv-IsCalm fuel 0 p.root s h
