-- ===== src/Walk/Depth.antt =====
-- A callback that stops at a depth bounds the walk.
use py_pointless.Base.{ℕ, zero, suc, ◌+◌, ◌*◌, ◌≤◌, ◌≡◌, ◌≢◌, refl, Option, none, some, arith}
use py_pointless.Value.{Tag, Value, vector_value, vector_value_hashable, set_value, map_value_value}
use py_pointless.Reader.{Pointless}
use py_pointless.Reader.Items.{
  value_read, vector_n_items, items_ptr, set_hash_vector, set_key_vector, map_hash_vector,
  map_key_vector, map_value_vector,
}
use py_pointless.Walk.{
  Action, stop, move_up, visit_children, Walked, finished, halted, fault, out_of_fuel, next, given,
  walk_items, walk_vector, walk_children, proceed, walk_priv, walk,
}

-- The fuel was enough.
abbrev pub Ends : {S : Type 0} → Walked S → Type 0
Ends r = r ≢ out_of_fuel

next-Ends :
    {S : Type 0} (r : Walked S) {k : S → Walked S}
    → Ends r
    → ((s : S) → Ends (k s))
    → Ends (next r k)
next-Ends (finished s) h g = g s
next-Ends (halted s) h g = λ q. cc
next-Ends fault h g = λ q. cc
next-Ends out_of_fuel h g = λ q. h refl

given-Ends :
    {A S : Type 0} (o : Option A) {k : A → Walked S} → ((a : A) → Ends (k a)) → Ends (given o k)
given-Ends none h = λ q. cc
given-Ends (some a) h = h a

module _ {S : Type 0} (p : Pointless) (visit : Value → S → Walked S)
    (ends : (x : Value) (s : S) → Ends (visit x s)) where
  walk_items-Ends : (a left i : ℕ) (s : S) → Ends (walk_items p visit a left i s)
  unfolding walk_items
  walk_items-Ends a zero i s = λ q. cc
  walk_items-Ends a (suc left) i s =
      given-Ends (value_read p (a + 8 * i))
        λ x. next-Ends (visit x s) (ends x s) (walk_items-Ends a left (i + 1))

  walk_vector-Ends : (t : Tag) (v : ℕ) (s : S) → Ends (walk_vector p visit t v s)
  unfolding walk_vector
  walk_vector-Ends t v s =
      given-Ends (vector_n_items p t v)
        λ n. given-Ends (items_ptr p t v) λ a. walk_items-Ends a n 0 s

  walk_children-Ends : (t : Tag) (v : ℕ) (s : S) → Ends (walk_children p visit t v s)
  unfolding walk_children
  walk_children-Ends vector_value v s = walk_vector-Ends vector_value v s
  walk_children-Ends vector_value_hashable v s = walk_vector-Ends vector_value_hashable v s
  walk_children-Ends set_value v s = given-Ends (set_hash_vector p set_value v) λ hashes.
      given-Ends (set_key_vector p set_value v)
        λ keys. next-Ends (visit hashes s) (ends hashes s) (ends keys)
  walk_children-Ends map_value_value v s =
      given-Ends (map_hash_vector p map_value_value v) λ hashes.
        given-Ends (map_key_vector p map_value_value v) λ keys.
          given-Ends (map_value_vector p map_value_value v) λ values.
            next-Ends (visit hashes s) (ends hashes s)
              λ s'. next-Ends (visit keys s') (ends keys s') (ends values)
  walk_children-Ends _ v s = λ q. cc

module _ {S : Type 0} (p : Pointless) (cb : Value → ℕ → S → Option (Action × S)) (limit : ℕ) where
  -- From the depth `limit` on, the callback stops the walk.
  abbrev pub StopsAt : Type 0
  StopsAt =
      (v : Value) (depth : ℕ) (s : S) → limit ≤ depth → (s' : S) × (cb v depth s ≡ some (stop, s'))

  proceed-Ends :
      (into : S → Walked S) (r : Option (Action × S))
      → ((s : S) → Ends (into s))
      → Ends (proceed p cb into r)
  unfolding proceed
  proceed-Ends into none h = λ q. cc
  proceed-Ends into (some (move_up, s)) h = λ q. cc
  proceed-Ends into (some (stop, s)) h = λ q. cc
  proceed-Ends into (some (visit_children, s)) h = h s

  walk_priv-Ends :
      (fuel depth : ℕ) (v : Value) (s : S)
      → StopsAt
      → limit ≤ fuel + depth
      → Ends (walk_priv p cb (suc fuel) depth v s)
  unfolding walk_priv proceed
  walk_priv-Ends zero depth v s stops deep =
      let (s', e) = stops v depth s (omega arith) in rw e (λ q. cc)
  walk_priv-Ends (suc fuel) depth v s stops deep = proceed-Ends _ (cb v depth s) (λ s'.
      walk_children-Ends p (walk_priv p cb (suc fuel) (depth + 1))
        (λ x s''. walk_priv-Ends fuel (depth + 1) x s'' stops (omega arith)) v.tag v.data_u32 s')

  -- A walk whose callback stops it at a depth ends, whatever the values of the file refer to, with
  -- one more fuel than that depth: no value is visited that is deeper.
  pub walk-Ends : (s : S) → StopsAt → Ends (walk p cb (suc limit) s)
  unfolding walk
  walk-Ends s stops = walk_priv-Ends limit 0 p.root s stops (omega arith)
