-- ===== src/Tests/Cycles.antt =====
-- The search for cycles at a concrete graph.
use mathlib.Core.Option.{some-injective}
use py_pointless.Base.{
  ℕ, ◌≡◌, ◌≢◌, refl, ap, sym, ◌∙◌, Bool, true, false, Option, some, none, List, [], ◌∷◌, get_or,
  length, ◌==◌, ==_refl, ne→==, if◌then◌else◌,
}
use py_pointless.BitUtils.{is_set, bm_set}
use py_pointless.CycleMarker.{JudyL, CycleMarkerInfo, Marked, marked, cycle_marker}

abbrev put : (ℕ → Option ℕ) → ℕ → ℕ → ℕ → Option ℕ
put a k v j = if k == j then some v else a j

put_self : (a : ℕ → Option ℕ) (k v : ℕ) → put a k v k ≡ some v
put_self a k v = rw (==_refl k) refl

put_ne : (a : ℕ → Option ℕ) (k v j : ℕ) → k ≢ j → put a k v j ≡ a j
put_ne a k v j ne = rw (ne→== k j ne) refl

abbrev as_functions : JudyL
as_functions = record {
  Array = ℕ → Option ℕ;
  empty = λ _. none;
  get = λ a k. a k;
  insert = λ a k v. some (put a k v);
  get-empty = λ k. refl;
  get-insert = λ a b k v e. ap (λ f. f k) (sym (some-injective _ b e)) ∙ put_self a k v;
  get-insert_ne = λ a b k v j e ne. ap (λ f. f j) (sym (some-injective _ b e)) ∙ put_ne a k v j ne;
}

-- 0 holds 1 and 4, 1 holds 2, 2 holds 3 and 0, 3 holds 2, and 4 holds 3.
abbrev children : ℕ → List ℕ
children v = get_or ((1 ∷ 4 ∷ []) ∷ (2 ∷ []) ∷ (3 ∷ 0 ∷ []) ∷ (2 ∷ []) ∷ (3 ∷ []) ∷ []) v []

abbrev five_vectors : CycleMarkerInfo
five_vectors = record {
  n_nodes = 5;
  root = 0;
  is_container = λ v. true;
  container_id = λ v. v;
  n_children = λ v. length (children v);
  child_at = λ v i. get_or (children v) i 0;
}

abbrev marks : Marked as_functions → List Bool
marks (marked s) =
    is_set s.cycle_marker 0
    ∷ is_set s.cycle_marker 1
    ∷ is_set s.cycle_marker 2
    ∷ is_set s.cycle_marker 3
    ∷ is_set s.cycle_marker 4
    ∷ []
marks _ = []

-- All five stand in a cycle. 0 is where the search meets the cycle first; 4 is left out since its
-- number in `visited` is its depth.
cycle_marker-marks :
    marks (cycle_marker as_functions five_vectors (λ _. true) true)
    ≡ false ∷ true ∷ true ∷ true ∷ false ∷ []
unfolding cycle_marker is_set bm_set
cycle_marker-marks = refl
