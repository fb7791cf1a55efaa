-- ===== src/Reader/Tables/Iteration.antt =====
-- The iteration over a set gives its keys, each once and in the order of the buckets.
use mathlib.Core.Path.{subst}
use mathlib.Core.Option.{some-injective}
use py_pointless.Base.{
  ℕ, zero, suc, ◌+◌, ◌-◌, ◌<◌, ◌≡◌, refl, ap, sym, ◌∙◌, Bool-cases, true, Option, none, some, List,
  [], ◌∷◌, inl, inr, arith, if◌then◌else◌,
}
use py_pointless.Reader.{Pointless}
use py_pointless.Reader.Items.{after, value_item, vector_n_items, set_key_vector}
use py_pointless.Reader.Tables.{
  is_hashable_values, Iterated, item_at, finished, bad_read, set_iter_loop, set_iter,
}
use py_pointless.Reader.Tables.Reads.{after-some}
use py_pointless.Validate.Pass.{values_from, is_empty_slot}
use py_pointless.Value.{Value, set_value}

-- `while (pointless_reader_set_iter(...))`, with the keys it meets; `none` is a failed read or the
-- end of the fuel.
unfoldable pub follow : {A : Type 0} → Iterated A → (ℕ → Option (List A)) → Option (List A)
follow (item_at k j) rest = after (rest j) (λ ks. some (k ∷ ks))
follow finished rest = some []
follow bad_read rest = none

unfoldable pub collect : {A : Type 0} → (ℕ → Iterated A) → ℕ → ℕ → Option (List A)
unfolding follow
collect step zero i = none
collect step (suc fuel) i = follow (step i) (λ j. collect step fuel j)

-- The keys of the buckets that are not empty
pub used_keys : List Value → List Value
used_keys [] = []
used_keys (k ∷ ks) = if is_empty_slot k then used_keys ks else k ∷ used_keys ks

module _ (p : Pointless) (keys : Value) (n : ℕ) (step : ℕ → Iterated Value)
    (steps : (i : ℕ) → step i ≡ set_iter_loop p keys (n - i) i) where
  step_at : (i left : ℕ) → i + left ≡ n → step i ≡ set_iter_loop p keys left i
  step_at i left e =
      subst (λ m. step i ≡ set_iter_loop p keys m i) (let d : n - i ≡ left = omega arith in d)
        (steps i)

  collect-used_keys :
      (left i fuel : ℕ) (ks : List Value)
      → i + left ≡ n
      → left < fuel
      → values_from p keys.tag keys.data_u32 left i ≡ some ks
      → collect step fuel i ≡ some (used_keys ks)
  unfolding collect used_keys set_iter_loop values_from follow
  collect-used_keys left i zero ks e enough h = absurd (omega arith)
  collect-used_keys zero i (suc fuel) ks e enough h =
      rw (step_at i zero e) (subst (λ l. some [] ≡ some (used_keys l)) (some-injective _ ks h) refl)
  collect-used_keys (suc left) i (suc fuel) ks e enough h =
      let (x, ex, rest) = after-some (value_item p keys.tag keys.data_u32 i) _ ks h in
      let (ys, ey, whole) =
        after-some (values_from p keys.tag keys.data_u32 left (i + 1)) _ ks rest in
      let same : x ∷ ys ≡ ks = some-injective _ ks whole in
      let behind : i + 1 + left ≡ n = omega arith in
      subst (λ l. collect step (suc fuel) i ≡ some (used_keys l)) same
        (elim (Bool-cases (is_empty_slot x)) [
          | inl empty ↦
              let here : step i ≡ step (i + 1) =
                step_at i (suc left) e
                ∙ rw (ex, empty, set_iter_loop) (sym (step_at (i + 1) left behind)) in
              rw empty (
                ap (λ s. follow s (λ j. collect step fuel j)) here
                ∙ collect-used_keys left (i + 1) (suc fuel) ys behind (omega arith) ey)
          | inr used ↦
              let here : step i ≡ item_at x (i + 1) =
                step_at i (suc left) e ∙ rw (ex, used, set_iter_loop) refl in
              rw (used, here, collect-used_keys left (i + 1) fuel ys behind (omega arith) ey) refl
        ])

-- A set whose key vector is one of hashable values that can be read: the iteration from the state 0
-- gives the keys that are not empty slots, in the order of their buckets, and then ends.
pub set_iter-used_keys :
    (p : Pointless) (v : ℕ) (keys : Value) (n : ℕ) (ks : List Value)
    → set_key_vector p set_value v ≡ some keys
    → is_hashable_values keys.tag ≡ true
    → vector_n_items p keys.tag keys.data_u32 ≡ some n
    → values_from p keys.tag keys.data_u32 n 0 ≡ some ks
    → collect (λ i. set_iter p set_value v i) (n + 1) 0 ≡ some (used_keys ks)
unfolding set_iter
set_iter-used_keys p v keys n ks keys_at tag n_at values_at =
    collect-used_keys p keys n (λ i. set_iter p set_value v i) (λ i. rw (keys_at, tag, n_at) refl) n
      0 (n + 1) ks (omega arith) (omega arith) values_at
