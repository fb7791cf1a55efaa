-- ===== src/Reader/Helpers/SameKeys/Loops.antt =====
-- Two containers have the same keys where they have as many items and each key of one is found in
-- the other.
use py_pointless.Base.{
  ℕ, All, zero, suc, ◌≤◌, ◌≡◌, ◌↔◌, refl, arith, Bool, true, false, not, Option, some, none, List,
  ◌∷◌, ◌==◌, Bool-cases, inl, inr, ==_iff, if◌then◌else◌,
}
use mathlib.Core.Path.{subst}
use mathlib.Core.Option.{some-injective}
use py_pointless.Reader.{Pointless}
use py_pointless.Reader.Items.{set_n_items, map_n_items}
use py_pointless.Reader.Tables.{Iterated, item_at, finished, bad_read, set_iter, map_iter}
use py_pointless.Reader.Tables.Reads.{after-some}
use py_pointless.Reader.Tables.Iteration.{follow, collect}
use py_pointless.Reader.Helpers.SameKeys.{
  unless_fails, at_item, all_in, in_set, in_map, key_of, has_same_keys_set_map,
  has_same_keys_map_map,
}
use py_pointless.Value.{Tag, Value}

-- Every item passes the test.
abbrev pub Passes : {A : Type 0} → (A → Option Bool) → List A → Type 0
Passes is_in = All (λ a. is_in a ≡ some true)

module _ {A : Type 0} (iter : ℕ → Iterated A) (is_in : A → Option Bool) (rest : Option Bool) where
  unless_fails_iff :
      (o r : Option Bool) → (unless_fails o r ≡ some true) ↔ ((o ≡ some true) × (r ≡ some true))
  unless_fails_iff none r = ((λ e. absurd (none_is e)), (λ (e, _). e))
    where
      none_is : none ≡ some true → ⊥
      none_is e = cc
  unless_fails_iff (some false) r = ((λ e. (e, absurd (false_is e))), (λ (e, _). e))
    where
      false_is : some false ≡ some true → ⊥
      false_is e = cc
  unless_fails_iff (some true) r = ((λ e. (refl, e)), (λ (_, e). e))

  item_at_iff :
      (a : A) (ys : List A) (r : Option Bool)
      → (r ≡ some true) ↔ (Passes is_in ys × (rest ≡ some true))
      → (unless_fails (is_in a) r ≡ some true) ↔ (Passes is_in (a ∷ ys) × (rest ≡ some true))
  item_at_iff a ys r (there, back) =
      let (out, into) = unless_fails_iff (is_in a) r in
      (
        (λ e. let (here, e') = out e in let (others, end) = there e' in ((here, others), end)),
        (λ ((here, others), end). into (here, back (others, end))),
      )

  TestsItems : ℕ → ℕ → List A → Type 0
  TestsItems g i items =
      (all_in iter is_in rest g i ≡ some true) ↔ (Passes is_in items × (rest ≡ some true))

  at_item_iff :
      (f g : ℕ) (s : Iterated A) (items : List A)
      → ((j : ℕ) (ys : List A) → collect iter f j ≡ some ys → TestsItems g j ys)
      → follow s (λ j. collect iter f j) ≡ some items
      → (at_item iter is_in rest s (λ j. all_in iter is_in rest g j) ≡ some true)
        ↔ (Passes is_in items × (rest ≡ some true))
  unfolding TestsItems follow
  at_item_iff f g (item_at a j) items ih h =
      let (ys, ey, whole) = after-some (collect iter f j) _ items h in
      subst
        (λ l.
          (unless_fails (is_in a) (all_in iter is_in rest g j) ≡ some true)
          ↔ (Passes is_in l × (rest ≡ some true)))
        (some-injective _ items whole) (item_at_iff a ys (all_in iter is_in rest g j) (ih j ys ey))
  at_item_iff f g finished items ih h =
      subst (λ l. (rest ≡ some true) ↔ (Passes is_in l × (rest ≡ some true)))
        (some-injective _ items h) ((λ e. (tt, e)), (λ (_, e). e))
  at_item_iff f g bad_read items ih h = absurd (none_is h)
    where
      none_is : none ≡ some items → ⊥
      none_is e = cc

  -- A loop over the items that an iteration gives
  all_in_iff :
      (f g i : ℕ) (items : List A) → collect iter f i ≡ some items → f ≤ g → TestsItems g i items
  unfolding collect all_in TestsItems
  all_in_iff zero g i items e le = absurd (none_is e)
    where
      none_is : none ≡ some items → ⊥
      none_is e = cc
  all_in_iff (suc f) zero i items e le = absurd (omega arith)
  all_in_iff (suc f) (suc g) i items e le =
      at_item_iff f g (iter i) items (λ j ys e'. all_in_iff f g j ys e' (omega arith)) e

-- The loops over two containers, behind the test that they have as many items
both_loops_iff :
    {A B : Type 0} (iter_a : ℕ → Iterated A) (iter_b : ℕ → Iterated B) (is_a : A → Option Bool)
    (is_b : B → Option Bool) (n m f g fuel : ℕ) (xs : List A) (ys : List B)
    → collect iter_a f 0 ≡ some xs
    → collect iter_b g 0 ≡ some ys
    → f ≤ fuel
    → g ≤ fuel
    → ((if not (n == m)
          then some false
          else all_in iter_a is_a (all_in iter_b is_b (some true) fuel 0) fuel 0)
        ≡ some true)
      ↔ ((n ≡ m) × Passes is_a xs × Passes is_b ys)
unfolding TestsItems
both_loops_iff iter_a iter_b is_a is_b n m f g fuel xs ys ex ey le le' =
    let second = all_in_iff iter_b is_b (some true) g fuel 0 ys ey le' in
    let first = all_in_iff iter_a is_a (all_in iter_b is_b (some true) fuel 0) f fuel 0 xs ex le in
    elim (Bool-cases (n == m)) [
      | inl equal ↦ rw equal (
        (λ e. let (in_b, e') = first.0 e in ((==_iff n m).0 equal, in_b, (second.0 e').0)),
        (λ (_, in_b, in_a). first.1 (in_b, second.1 (in_a, refl))),
      )
      | inr differ ↦ rw differ ((λ e. absurd (false_is e)), (λ (same, _, _). absurd (ground arith)))
    ]
  where
    false_is : some false ≡ some true → ⊥
    false_is e = cc

module _ (hash_of : Value → Option ℕ) (is_equal : Value → Value → Option Bool) (p : Pointless) where
  -- Where the keys of a set and the pairs of a map of a file can be read, the two have the same
  -- keys, as the code says, if and only if they have as many items, each key of the set is found in
  -- the map, and each key of the map is found in the set.
  pub has_same_keys_set_map_iff :
      (t_s : Tag) (s : ℕ) (t_m : Tag) (m n_s n_m f g : ℕ) (ks : List Value)
      (pairs : List (Value × Value))
      → set_n_items p t_s s ≡ some n_s
      → map_n_items p t_m m ≡ some n_m
      → collect (set_iter p t_s s) f 0 ≡ some ks
      → collect (map_iter p t_m m) g 0 ≡ some pairs
      → f ≤ suc p.buflen
      → g ≤ suc p.buflen
      → (has_same_keys_set_map hash_of is_equal p t_s s t_m m ≡ some true) ↔ (
          (n_s ≡ n_m)
          × Passes (in_map hash_of is_equal p t_m m) ks
          × Passes (λ pair. in_set hash_of is_equal p t_s s (key_of pair)) pairs)
  unfolding has_same_keys_set_map
  has_same_keys_set_map_iff t_s s t_m m n_s n_m f g ks pairs es em ek ep le le' =
      rw (es, em)
        (both_loops_iff (set_iter p t_s s) (map_iter p t_m m) (in_map hash_of is_equal p t_m m)
          (λ pair. in_set hash_of is_equal p t_s s (key_of pair)) n_s n_m f g (suc p.buflen) ks
          pairs ek ep le le')

  -- The same, for two maps.
  pub has_same_keys_map_map_iff :
      (t_a : Tag) (a : ℕ) (t_b : Tag) (b n_a n_b f g : ℕ) (xs ys : List (Value × Value))
      → map_n_items p t_a a ≡ some n_a
      → map_n_items p t_b b ≡ some n_b
      → collect (map_iter p t_a a) f 0 ≡ some xs
      → collect (map_iter p t_b b) g 0 ≡ some ys
      → f ≤ suc p.buflen
      → g ≤ suc p.buflen
      → (has_same_keys_map_map hash_of is_equal p t_a a t_b b ≡ some true) ↔ (
          (n_a ≡ n_b)
          × Passes (λ pair. in_map hash_of is_equal p t_b b (key_of pair)) xs
          × Passes (λ pair. in_map hash_of is_equal p t_a a (key_of pair)) ys)
  unfolding has_same_keys_map_map
  has_same_keys_map_map_iff t_a a t_b b n_a n_b f g xs ys ea eb ex ey le le' =
      rw (ea, eb)
        (both_loops_iff (map_iter p t_a a) (map_iter p t_b b)
          (λ pair. in_map hash_of is_equal p t_b b (key_of pair))
          (λ pair. in_map hash_of is_equal p t_a a (key_of pair)) n_a n_b f g (suc p.buflen) xs ys
          ex ey le le')
