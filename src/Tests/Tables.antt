-- ===== src/Tests/Tables.antt =====
-- The hash table at concrete inputs.
use mathlib.Core.Option.{some-injective}
use py_pointless.HashTable.Validation.{validate}
use py_pointless.HashTable.Validation.Contract.{Judges, validate-Judges}
use py_pointless.Base.{
  ℕ, ◌+◌, ◌*◌, ◌^◌, ◌%◌, ◌<◌, ◌≤◌, ◌≡◌, refl, Bool, true, List, [], ◌∷◌, Option, none, some, arith,
  ◌==◌, zero, suc, get_elem?, if◌then◌else◌,
}
use py_pointless.HashTable.{Table, double_until, compute_n_buckets, probe}
use py_pointless.HashTable.Buckets.{compute_n_buckets_lem, double_until_diverges}
use py_pointless.HashTable.Walk.{walk, walk-reaches}
use py_pointless.HashTable.Probe.{IsSized, IsFree, Answers, probe-Answers}
use py_pointless.HashTable.Populate.{Serialized, Item, populate, as_table}
use py_pointless.HashTable.Populate.RoundTrip.{IsReady}
use py_pointless.HashTable.Populate.Result.{Fills, populate-Fills}

compute_n_buckets_lem_example :
    (k : ℕ) × (compute_n_buckets 10 ≡ some (2 ^ k))
    × (10 < 2 ^ k)
    × (2 ^ k ≤ 3 * 10 + 1)
    × (2 ^ k ≤ 2 ^ 31)
compute_n_buckets_lem_example = compute_n_buckets_lem 10 (omega arith)

double_until_diverges_example : double_until 100 (2 ^ 31 + 1) (2 ^ 0) ≡ none
double_until_diverges_example =
    double_until_diverges 100 0 (2 ^ 31 + 1) (omega arith) (omega arith) (omega arith)

walk-reaches_example : (n : ℕ) × (n < 2 ^ 3 + 7) × (walk n 77 77 % 2 ^ 3 ≡ 6)
walk-reaches_example = walk-reaches 3 77 77 6 (omega arith) (omega arith) (omega arith)

-- Two keys with one hash, in four buckets; 99 is the empty slot.
abbrev cmp : ℕ → ℕ → Option Bool
cmp a b = some (a == b)

abbrev blank : Serialized
blank = record {
  hashes = 0 ∷ 0 ∷ 0 ∷ 0 ∷ [];
  keys = 99 ∷ 99 ∷ 99 ∷ 99 ∷ [];
  values = some (99 ∷ 99 ∷ 99 ∷ 99 ∷ []);
}

abbrev two_items : List Item
two_items = record { hash = 6; key = 1; value = 11 } ∷ record { hash = 6; key = 2; value = 12 } ∷ []

blank-IsReady : IsReady cmp 4 99 2 blank
unfolding as_table
blank-IsReady = record {
  sized = record { bits = omega arith; count = refl; hashes_length = refl; keys_length = refl };
  values = refl;
}

populate-Fills_example : Fills cmp 4 99 2 two_items (populate cmp 4 99 true two_items blank)
populate-Fills_example =
    populate-Fills cmp 4 99 2 true two_items blank blank-IsReady
      (
        record { word = omega arith; equal = refl },
        (record { word = omega arith; equal = refl }, tt),
      )
      (omega arith)

abbrev four : Table ℕ
four = record {
  is_empty = λ k. k == 99;
  n_buckets = 4;
  hashes = 0 ∷ 0 ∷ 6 ∷ 0 ∷ [];
  keys = 99 ∷ 99 ∷ 1 ∷ 99 ∷ [];
}

four-IsSized : IsSized 2 four
four-IsSized = record { bits = omega arith; count = refl; hashes_length = refl; keys_length = refl }

four-IsFree : IsFree four 1
four-IsFree = record { key = 99; at = refl; empty = refl }

probe-Answers_example : Answers four 6 (λ k. some (k == 1)) (probe four 6 (λ k. some (k == 1)))
probe-Answers_example =
    probe-Answers four 6 (λ k. some (k == 1)) 2 1 four-IsSized four-IsFree (omega arith)

abbrev full_enough : Table ℕ
full_enough = record {
  is_empty = λ k. k == 99;
  n_buckets = 4;
  hashes = 5 ∷ 5 ∷ 6 ∷ 7 ∷ [];
  keys = 99 ∷ 99 ∷ 1 ∷ 2 ∷ [];
}

abbrev plus_five : ℕ → ℕ
plus_five k = if k == 99 then 5 else k + 5

words : (b h : ℕ) → get_elem? full_enough.hashes b ≡ some h → h < 2 ^ 32
words zero h e = omega (arith, some-injective 5 h e)
words (suc zero) h e = omega (arith, some-injective 5 h e)
words (suc (suc zero)) h e = omega (arith, some-injective 6 h e)
words (suc (suc (suc zero))) h e = omega (arith, some-injective 7 h e)
words (suc (suc (suc (suc b)))) h e = cc

validate-Judges_example :
    Judges full_enough
      (λ k. true)
      plus_five
      (λ j k. some (j == k))
      2
      (validate full_enough (λ k. true) plus_five (λ j k. some (j == k)) none 2)
validate-Judges_example =
    validate-Judges full_enough (λ k. true) plus_five (λ j k. some (j == k)) none 2 refl refl
      (λ vs e. cc) words
