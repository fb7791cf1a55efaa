-- ===== src/Tests/Orders.antt =====
-- The sort at concrete inputs.
use py_pointless.Base.{ℕ, ◌≡◌, refl, true, false, List, [], ◌∷◌, ltb, if◌then◌else◌}
use py_pointless.Base.Int.{pos, negsuc}
use py_pointless.Sort.{Compared, next, bentley_sort}
use py_pointless.Sort.Ending.{bentley_sort-Safe}
use py_pointless.Sort.Safety.{Safe}

abbrev by_number : ℕ → ℕ → Compared
by_number x y = record {
  ok = true;
  c = if ltb x y then negsuc 0 else if ltb y x then pos 1 else pos 0;
}

-- A comparison that always fails, and leaves 0
abbrev failing : ℕ → ℕ → Compared
failing x y = record { ok = false; c = pos 0 }

abbrev ten : List ℕ
ten = 5 ∷ 3 ∷ 9 ∷ 1 ∷ 5 ∷ 7 ∷ 0 ∷ 8 ∷ 2 ∷ 5 ∷ []

bentley_sort-ten :
    bentley_sort by_number ten
    ≡ next tt (record { items = 0 ∷ 1 ∷ 2 ∷ 3 ∷ 5 ∷ 5 ∷ 5 ∷ 7 ∷ 8 ∷ 9 ∷ []; is_error = false })
unfolding bentley_sort
bentley_sort-ten = refl

-- The error is left in `is_error`, and the sort returns 1.
bentley_sort-failing :
    bentley_sort failing (2 ∷ 1 ∷ []) ≡ next tt (record { items = 2 ∷ 1 ∷ []; is_error = true })
unfolding bentley_sort
bentley_sort-failing = refl

bentley_sort-Safe_example : Safe ten (λ _. Unit) (bentley_sort by_number ten)
bentley_sort-Safe_example = bentley_sort-Safe by_number ten
