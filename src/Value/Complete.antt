-- ===== src/Value/Complete.antt =====
-- Values and complete values.
use py_pointless.Base.{ℕ, ◌%◌, ◌^◌, ◌<◌, ◌≡◌, ◌≢◌, refl, ap, some, arith}
use py_pointless.Value.{Tag, i64, u64, value_from_complete, value_to_complete}

-- A value of a type other than I64 and U64 that is made complete and is converted back is the same,
-- if its data is below 2 ^ 32.
pub value_from_complete-to_complete :
    (t : Tag) (d : ℕ)
    → t ≢ i64
    → t ≢ u64
    → d < 2 ^ 32
    → value_from_complete (value_to_complete (record { tag = t; data_u32 = d }))
      ≡ some (record { tag = t; data_u32 = d })
unfolding value_from_complete value_to_complete
value_from_complete-to_complete i64 d no_i no_u h = absurd (no_i refl)
value_from_complete-to_complete u64 d no_i no_u h = absurd (no_u refl)
value_from_complete-to_complete t d no_i no_u h =
    let same : d % 2 ^ 32 ≡ d = omega arith in
    ap (λ m. some (record { tag = t; data_u32 = m })) same
