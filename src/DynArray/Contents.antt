-- ===== src/DynArray/Contents.antt =====
-- The array as the sequence of its items, and what the operations do to it.
use mathlib.Core.List.{map}
use py_pointless.Base.{
  ℕ, ◌+◌, ◌^◌, ◌<◌, ◌≤◌, ◌≡◌, Bool, Option, some, List, ◌++◌, length, take, ltb, if◌then◌else◌,
}
use py_pointless.DynArray.{DynArray, Outcome, ok, refused, fault, out_of_fuel, store_at}

module _ {A : Type 0} where
  pub record IsValid (a : DynArray A) : Type 0 where
    pub full_length : length a.cells ≡ a.n_alloc
    pub within : a.n_items ≤ a.n_alloc
    pub sized : a.n_alloc < 2 ^ 64

  unfoldable pub contents : DynArray A → List (Option A)
  contents a = take a.n_items a.cells

  -- `b` holds what `a` held, in at least as many cells.
  pub record Extends (a b : DynArray A) : Type 0 where
    pub valid : IsValid b
    pub items : contents b ≡ contents a
    pub count : b.n_items ≡ a.n_items
    pub size : b.item_size ≡ a.item_size
    pub larger : a.n_alloc ≤ b.n_alloc

  module _ (allocates : ℕ → Bool) where
    -- What holds of `a` when the loop has ended with an array.
    abbrev Reserved : DynArray A → ℕ → Outcome (DynArray A) → Type 0
    Reserved a n (ok b) = Extends a b × (a.n_items + n ≤ b.n_alloc)
    Reserved a n (refused b) = Extends a b × Unit {0}
    Reserved a n fault = ⊥
    Reserved a n out_of_fuel = ⊥

    -- What a bulk push leaves: the old items and the new ones, or the old items only.
    abbrev pub Pushed : DynArray A → List A → Outcome (DynArray A) → Type 0
    Pushed a xs (ok b) =
        IsValid b × (contents b ≡ contents a ++ map some xs) × (b.item_size ≡ a.item_size)
    Pushed a xs (refused b) = IsValid b × (contents b ≡ contents a) × (b.item_size ≡ a.item_size)
    Pushed a xs fault = ⊥
    Pushed a xs out_of_fuel = ⊥

    stored : (a b : DynArray A) (xs : List A) → Outcome (DynArray A)
    stored a b xs =
        if ltb b.n_alloc (b.n_items + length xs)
        then fault
        else ok
            (record b { cells = store_at b.cells b.n_items xs; n_items = b.n_items + length xs })
