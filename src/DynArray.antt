-- ===== src/DynArray.antt =====
-- src/pointless_dynarray.c. A cell of the buffer is `none` until something is written to it. Cells
-- are items, not bytes, so `item_size` only enters the sizes that are asked of the allocator.
pub mod Growth
pub mod Contents
use py_pointless.Base.{
  ℕ, zero, suc, ◌+◌, ◌-◌, ◌*◌, ◌/◌, ◌%◌, ◌^◌, Bool, true, false, ◌&&◌, Option, some, none, List, [],
  ◌∷◌, ◌++◌, length, get_or, set, replicate, ltb, if◌then◌else◌,
}
use py_pointless.IntOps.Checked.{Checked, init, sizet_add, sizet_mult}

pub record DynArray {ℓ} (A : Type ℓ) : Type ℓ where
  pub cells : List (Option A)
  pub n_items : ℕ
  pub n_alloc : ℕ
  pub item_size : ℕ

-- What a call leaves behind: `fault` is an access that C leaves undefined or a failed assertion,
-- and `out_of_fuel` a loop that did not end.
pub data Outcome {ℓ} (S : Type ℓ) : Type ℓ where
  ok : S → Outcome S
  refused : S → Outcome S
  fault out_of_fuel : Outcome S

abbrev small_add : List ℕ
small_add = 1 ∷ 1 ∷ 2 ∷ 2 ∷ 4 ∷ 4 ∷ 4 ∷ 8 ∷ 8 ∷ 10 ∷ 11 ∷ 12 ∷ 13 ∷ 14 ∷ 15 ∷ 16 ∷ []

-- The local `c` of `next_size`
unfoldable pub extra : ℕ → ℕ
extra n_alloc = if ltb n_alloc 16 then get_or small_add n_alloc 0 else 0

unfoldable pub next_size : ℕ → Checked
next_size n_alloc =
    sizet_add (sizet_add (init (n_alloc / 16)) (init n_alloc)) (init (extra n_alloc))

-- `memcpy` of `xs` to the cells from `i` on
pub store_at {ℓ} : {A : Type ℓ} → List (Option A) → ℕ → List A → List (Option A)
store_at cells i [] = cells
store_at cells i (x ∷ xs) = store_at (set cells i (some x)) (i + 1) xs

pub new {ℓ} : {A : Type ℓ} → ℕ → DynArray A
new size = record { cells = []; n_items = 0; n_alloc = 0; item_size = size }

-- What a successful `pointless_realloc` leaves: the old items and fresh cells.
pub enlarged {ℓ} : {A : Type ℓ} → DynArray A → ℕ → DynArray A
enlarged a n = record a { cells = a.cells ++ replicate (n - a.n_alloc) none; n_alloc = n }

-- The bytes that the next capacity takes
pub next_bytes {ℓ} : {A : Type ℓ} → DynArray A → Checked
next_bytes a = sizet_mult (next_size a.n_alloc) (init a.item_size)

-- `allocates n` says whether `pointless_realloc` finds `n` bytes.
module _ {ℓ} {A : Type ℓ} (allocates : ℕ → Bool) where
  pub grow : DynArray A → Option (DynArray A)
  grow a =
      let bytes = next_bytes a in
      if bytes.is_overflow
      then none
      else if allocates bytes.value
      then some (enlarged a (next_size a.n_alloc).value)
      else none

  -- `while (a->n_items + n_items > a->n_alloc)`
  pub reserve : ℕ → ℕ → DynArray A → Outcome (DynArray A)
  reserve zero n a = out_of_fuel
  reserve (suc fuel) n a = elim (ltb a.n_alloc ((a.n_items + n) % 2 ^ 64)) [
    | false ↦ ok a
    | true ↦ elim (grow a) [ none ↦ refused a | some a' ↦ reserve fuel n a' ]
  ]

  pub push_bulk : DynArray A → List A → Outcome (DynArray A)
  push_bulk a xs =
      let n = length xs in
      elim (reserve (a.n_items + n + 1) n a) [
        | ok a' ↦
            if ltb a'.n_alloc (a'.n_items + n)
            then fault
            else ok
                (record a' { cells = store_at a'.cells a'.n_items xs; n_items = a'.n_items + n })
        | refused a' ↦ refused a'
        | fault ↦ fault
        | out_of_fuel ↦ out_of_fuel
      ]

  pub push : DynArray A → A → Outcome (DynArray A)
  push a x = push_bulk a (x ∷ [])

module _ {ℓ} {A : Type ℓ} where
  pub n_heap_bytes : DynArray A → ℕ
  n_heap_bytes a = a.n_alloc * a.item_size % 2 ^ 64

  pub pop : DynArray A → Outcome (DynArray A)
  pop a = if ltb 0 a.n_items then ok (record a { n_items = a.n_items - 1 }) else fault

  pub destroy : DynArray A → DynArray A
  destroy a = record a { cells = []; n_items = 0; n_alloc = 0 }

  pub clear : DynArray A → DynArray A
  clear a = new (destroy a).item_size

  -- `none` is a failed assertion.
  pub item_at : DynArray A → ℕ → Option (Option A)
  item_at a i = if ltb i a.n_items then some (get_or a.cells i none) else none

  pub swap : DynArray A → ℕ → ℕ → Outcome (DynArray A)
  swap a i j =
      let t = get_or a.cells i none in
      if ltb i a.n_items && ltb j a.n_items
      then ok (record a { cells = set (set a.cells i (get_or a.cells j none)) j t })
      else fault

  pub give_data : DynArray A → List A → Outcome (DynArray A)
  give_data a xs =
      if ltb 0 a.n_items
      then fault
      else ok (record a {
        cells = store_at (replicate (length xs) none) 0 xs;
        n_items = length xs;
        n_alloc = length xs;
      })
