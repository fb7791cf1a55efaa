-- ===== src/Reader/Tables/Reads.antt =====
-- What the validation reads of the vectors of a table is what iteration and lookup read.
use py_pointless.Base.{
  ℕ, zero, suc, ◌+◌, ◌*◌, ◌<◌, ◌^◌, ◌≡◌, refl, ap, ◌∙◌, Bool-cases, true, Option, Option-cases,
  none, some, List, [], ◌∷◌, length, get_elem?, leb, inl, inr,
}
use mathlib.Core.Path.{subst}
use mathlib.Core.Option.{some-injective}
use py_pointless.Reader.{Pointless, read}
use py_pointless.Reader.Words.{HasBytes, little_endian_bound}
use py_pointless.Reader.Items.{after, item, items_ptr, value_item}
use py_pointless.Reader.Tables.{is_u32, keys_read, hashes_read}
use py_pointless.Validate.Pass.{values_from, hashes_from}
use py_pointless.Value.{Tag, Value, vector_u32}

-- An `Option` chain that ends well begins well.
pub after-some :
    {A B : Type 0} (o : Option A) (k : A → Option B) (b : B)
    → after o k ≡ some b
    → (a : A) × (o ≡ some a) × (k a ≡ some b)
after-some none k b e = cc
after-some (some a) k b e = (a, refl, e)

-- What the validation reads of the keys is what the lookup reads.
pub keys_read-values_from :
    (p : Pointless) (t : Tag) (v left i : ℕ) (xs : List Value)
    → values_from p t v left i ≡ some xs
    → (keys_read p t v left i ≡ xs) × (length xs ≡ left)
unfolding values_from keys_read
keys_read-values_from p t v zero i xs e =
    let same = some-injective _ xs e in (same, subst (λ l. length l ≡ 0) same refl)
keys_read-values_from p t v (suc left) i xs e =
    let (x, ex, rest) = after-some (value_item p t v i) _ xs e in
    let (ys, ey, whole) = after-some (values_from p t v left (i + 1)) _ xs rest in
    let (read', long) = keys_read-values_from p t v left (i + 1) ys ey in
    let same : x ∷ ys ≡ xs = some-injective _ xs whole in
    (
      rw (ex, keys_read) (ap (λ l. x ∷ l) read' ∙ same),
      subst (λ l. length l ≡ suc left) same (ap suc long),
    )

read-word : (p : Pointless) (a x : ℕ) → HasBytes p.buf → read 4 p a ≡ some x → x < 2 ^ 32
unfolding read
read-word p a x bytes e = elim (Bool-cases (leb (a + 4) p.buflen)) [
  | inl fits ↦
      subst (λ w. w < 2 ^ 32) (some-injective _ x (rw fits at e))
        (little_endian_bound 4 p.buf a bytes)
  | inr short ↦ absurd (none_is (rw short at e))
]
  where
    none_is : {y : ℕ} → none ≡ some y → ⊥
    none_is e = cc

item-word :
    (p : Pointless) (v i x : ℕ) → HasBytes p.buf → item 4 p vector_u32 v i ≡ some x → x < 2 ^ 32
unfolding item read
item-word p v i x bytes e =
    let (a, ea, er) = after-some (items_ptr p vector_u32 v) _ x e in
    read-word p (a + 4 * i) x bytes er

pub hashes_read-hashes_from :
    (p : Pointless) (t : Tag) (v left i : ℕ) (xs : List ℕ)
    → hashes_from p t v left i ≡ some xs
    → (is_u32 t ≡ true) × (hashes_read p v left i ≡ xs) × (length xs ≡ left)
unfolding hashes_from hashes_read
hashes_read-hashes_from p vector_u32 v zero i xs e =
    let same = some-injective _ xs e in (refl, same, subst (λ l. length l ≡ 0) same refl)
hashes_read-hashes_from p vector_u32 v (suc left) i xs e =
    let (x, ex, rest) = after-some (item 4 p vector_u32 v i) _ xs e in
    let (ys, ey, whole) = after-some (hashes_from p vector_u32 v left (i + 1)) _ xs rest in
    let (_, read', long) = hashes_read-hashes_from p vector_u32 v left (i + 1) ys ey in
    let same : x ∷ ys ≡ xs = some-injective _ xs whole in
    (
      refl,
      rw (ex, hashes_read) (ap (λ l. x ∷ l) read' ∙ same),
      subst (λ l. length l ≡ suc left) same (ap suc long),
    )
hashes_read-hashes_from p _ v left i xs e = cc

nothing : (b h : ℕ) → get_elem? {A = ℕ} [] b ≡ some h → ⊥
nothing b h e = cc

first_or_rest :
    (P : ℕ → Type 0) (x : ℕ) (xs : List ℕ) (b h : ℕ)
    → P x
    → ((c : ℕ) → get_elem? xs c ≡ some h → P h)
    → get_elem? (x ∷ xs) b ≡ some h
    → P h
first_or_rest P x xs zero h first rest e = subst P (some-injective x h e) first
first_or_rest P x xs (suc b) h first rest e = rest b e

pub hashes_read-words :
    (p : Pointless) (v left i b h : ℕ)
    → HasBytes p.buf
    → get_elem? (hashes_read p v left i) b ≡ some h
    → h < 2 ^ 32
unfolding hashes_read
hashes_read-words p v zero i b h bytes e = absurd (nothing b h e)
hashes_read-words p v (suc left) i b h bytes e = elim (Option-cases (item 4 p vector_u32 v i)) [
  | inl n ↦ absurd (nothing b h (rw (n, hashes_read) at e))
  | inr (x, ex) ↦
      first_or_rest (λ w. w < 2 ^ 32) x (hashes_read p v left (i + 1)) b h
        (item-word p v i x bytes ex) (λ c e'. hashes_read-words p v left (i + 1) c h bytes e')
        (rw (ex, hashes_read) at e)
]
