-- ===== src/CycleMarker.antt =====
-- src/pointless_cycle_marker.c: the marks on the containers that stand in a cycle. The callbacks
-- over the containers are a record; a Judy array is a parameter with what is relied on.
pub mod Safety
pub mod Components
pub mod Visit
use py_pointless.Base.{
  ℕ, zero, suc, ◌+◌, ◌≡◌, ◌≢◌, Bool, true, false, Option, none, some, List, [], ◌∷◌, ltb, leb, ◌==◌,
  if◌then◌else◌,
}
use py_pointless.BitUtils.{Bytes, bm_set}
use py_pointless.Cmp.Reader.{max_depth}

-- `cycle_marker_info_t`, whose values are 64-bit numbers
pub record CycleMarkerInfo : Type 0 where
  pub n_nodes : ℕ
  pub root : ℕ
  pub is_container : ℕ → Bool
  pub container_id : ℕ → ℕ
  pub n_children : ℕ → ℕ
  pub child_at : ℕ → ℕ → ℕ

-- `JudyLGet`, and `JudyLIns` with the write through the pointer that it returns, or `none` where
-- there is no memory
pub record JudyL : Type 1 where
  pub Array : Type 0
  pub empty : Array
  pub get : Array → ℕ → Option ℕ
  pub insert : Array → ℕ → ℕ → Option Array
  pub get-empty : (k : ℕ) → get empty k ≡ none
  pub get-insert : (a b : Array) (k v : ℕ) → insert a k v ≡ some b → get b k ≡ some v
  pub get-insert_ne : (a b : Array) (k v j : ℕ) → insert a k v ≡ some b → k ≢ j → get b j ≡ get a j

pub data MarkError : Type 0 where
  depth_reached count_exceeds out_of_memory root_missing visited_missing : MarkError

module _ (judy : JudyL) where
  -- `pointless_cycle_marker_state_t`, with the top of the stack in front
  pub record State : Type 0 where
    pub cycle_marker : Bytes
    pub visited : judy.Array
    pub component : judy.Array
    pub root : judy.Array
    pub stack : List ℕ

  abbrev pub start : State
  start = record {
    cycle_marker = λ _. 0;
    visited = judy.empty;
    component = judy.empty;
    root = judy.empty;
    stack = [];
  }

  -- `state->error`, a failed assertion, or a call that is deeper than the fuel
  pub data Marked : Type 0 where
    marked : State → Marked
    failed : MarkError → Marked
    assertion out_of_fuel : Marked

  infix 20 ◌>>=◌
  abbrev pub ◌>>=◌ : Marked → (State → Marked) → Marked
  marked s >>= k = k s
  failed e >>= k = failed e
  assertion >>= k = assertion
  out_of_fuel >>= k = out_of_fuel

  abbrev pub given : {A : Type 0} → Option A → MarkError → (A → Marked) → Marked
  given none e k = failed e
  given (some a) e k = k a

  pub set_root : ℕ → ℕ → State → Marked
  set_root id n s =
      given (judy.insert s.root id n) out_of_memory (λ a. marked (record s { root = a }))

  pub set_visited : ℕ → ℕ → State → Marked
  set_visited id n s =
      given (judy.insert s.visited id n) out_of_memory (λ a. marked (record s { visited = a }))

  pub set_component : ℕ → ℕ → State → Marked
  set_component id n s =
      given (judy.insert s.component id n) out_of_memory (λ a. marked (record s { component = a }))

  -- `while (1)` and the pop behind it, on the `stack` that is left
  pub pop_until : ℕ → ℕ → List ℕ → State → Marked
  unfolding set_component
  pop_until v_id root_v [] s = assertion
  pop_until v_id root_v (last ∷ rest) s =
      if last == v_id
      then marked (record s { stack = rest })
      else (set_component last root_v (record s { cycle_marker = bm_set s.cycle_marker last })
          >>= λ s'. pop_until v_id root_v rest s')

  -- From `root[v] == visited[v]` on
  pub close_component : ℕ → State → Marked
  unfolding pop_until set_component
  close_component v_id s = given (judy.get s.root v_id) visited_missing (λ root_v.
      given (judy.get s.visited v_id) visited_missing (λ visited_v.
        if root_v == visited_v
        then (set_component v_id root_v s >>= λ s'. pop_until v_id root_v s'.stack s')
        else marked s))

  -- `root[v] = min(root[v], root[w])`
  pub lower_root : ℕ → ℕ → State → Marked
  unfolding set_root
  lower_root v_id w_id s = given (judy.get s.root v_id) root_missing (λ root_v.
      given (judy.get s.root w_id) root_missing
        (λ root_w. if ltb root_w root_v then set_root v_id root_w s else marked s))

  module _ (info : CycleMarkerInfo) (has_room : List ℕ → Bool) where
    -- `pointless_dynarray_push`
    pub push : ℕ → State → Marked
    push id s =
        if has_room s.stack
        then marked (record s { stack = id ∷ s.stack })
        else failed out_of_memory

    abbrev pub unless_visited : Option ℕ → (State → Marked) → State → Marked
    unless_visited none visit s = visit s
    unless_visited (some n) visit s = marked s

    abbrev pub unless_component : Option ℕ → (State → Marked) → State → Marked
    unless_component none lower s = lower s
    unless_component (some n) lower s = marked s

    -- `visit w` is the recursive call.
    pub process_child : (ℕ → State → Marked) → ℕ → ℕ → State → Marked
    unfolding lower_root
    process_child visit v_id w s =
        if info.is_container w
        then (let w_id = info.container_id w in
            unless_visited (judy.get s.visited w_id) (visit w) s >>= λ s'.
            unless_component (judy.get s'.component w_id) (lower_root v_id w_id) s')
        else marked s

    -- The body of the loop over the children: a container that holds itself is marked at once.
    pub visit_child : (ℕ → State → Marked) → ℕ → ℕ → State → Marked
    unfolding process_child
    visit_child visit v w s =
        if info.is_container w
        then (if info.container_id v == info.container_id w
            then marked (record s { cycle_marker = bm_set s.cycle_marker (info.container_id v) })
            else process_child visit (info.container_id v) w s)
        else process_child visit (info.container_id v) w s

    pub visit_children : (ℕ → State → Marked) → ℕ → ℕ → ℕ → State → Marked
    unfolding visit_child
    visit_children visit v zero i s = marked s
    visit_children visit v (suc left) i s =
        visit_child visit v (info.child_at v i) s >>= λ s'. visit_children visit v left (i + 1) s'

    -- What is behind the two tests, with the call for a child in `visit`
    pub visit_new : (ℕ → State → Marked) → ℕ → ℕ → State → Marked
    unfolding set_root set_visited push visit_children close_component
    visit_new visit v count s =
        let v_id = info.container_id v in
        set_root v_id count s >>= λ s1. set_visited v_id count s1 >>= λ s2. push v_id s2 >>= λ s3.
        visit_children visit v (info.n_children v) 0 s3 >>= λ s4. close_component v_id s4

    -- `count` is passed by value, so it is the number of containers above `v`.
    pub visit : ℕ → ℕ → ℕ → ℕ → State → Marked
    unfolding visit_new
    visit zero v count depth s = out_of_fuel
    visit (suc fuel) v count depth s =
        if info.is_container v
        then (if leb max_depth depth
            then failed depth_reached
            else if leb info.n_nodes count
            then failed count_exceeds
            else visit_new (λ w s'. visit fuel w (count + 1) (depth + 2) s') v count s)
        else assertion

    -- `has_memory` is whether `pointless_calloc` finds the bytes of the marks.
    unfoldable pub cycle_marker : Bool → Marked
    unfolding visit
    cycle_marker has_memory =
        if has_memory
        then (if info.is_container info.root then visit 257 info.root 0 0 start else marked start)
        else failed out_of_memory
