-- ===== src/DynArray/Growth.antt =====
-- How far `next_size` grows, and that the loop of `pointless_dynarray_push_bulk` ends.
use py_pointless.Base.{ℕ, ◌+◌, ◌/◌, ◌^◌, ◌<◌, ◌≤◌, ◌≡◌, false, arith}
use py_pointless.IntOps.Checked.{init, sizet_add, add_inv, add-Fits, add}
use py_pointless.DynArray.{next_size, extra}

extra_bounds : (n : ℕ) → (0 < extra n + n / 16) × (extra n ≤ 16)
unfolding extra
extra_bounds n = grind arith

-- Short of an overflow the next capacity is larger, at most by a sixteenth and 16.
pub next_size_bounds :
    (n : ℕ)
    → n < 2 ^ 64
    → (next_size n).is_overflow ≡ false
    → (n < (next_size n).value)
      × ((next_size n).value ≤ n + n / 16 + 16)
      × ((next_size n).value < 2 ^ 64)
unfolding next_size sizet_add init
next_size_bounds n h ok =
    let inner = add (2 ^ 64) (init (n / 16)) (init n) in
    let small = extra_bounds n in
    let outer =
      add_inv (2 ^ 64) inner (init (extra n))
        (add-Fits (2 ^ 64) (init (n / 16)) (init n) (omega arith)) (omega arith) ok in
    let first = add_inv (2 ^ 64) (init (n / 16)) (init n) (omega arith) h outer.0 in omega arith
