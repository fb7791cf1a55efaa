-- ===== src/Tests/Numbers.antt =====
-- Checked arithmetic and the growing array at concrete inputs.
use py_pointless.Base.{ℕ, ◌^◌, ◌≡◌, refl, false, [], none}
use py_pointless.IntOps.Checked.{Checked, meaning, u64_mult}
use py_pointless.DynArray.{DynArray}

abbrev big : Checked
big = record { is_overflow = false; value = 2 ^ 63 }

abbrev two : Checked
two = record { is_overflow = false; value = 2 }

mult_overflows : meaning (u64_mult big two) ≡ none
unfolding u64_mult
mult_overflows = refl

abbrev nothing : DynArray ℕ
nothing = record { cells = []; n_items = 0; n_alloc = 0; item_size = 4 }
