-- ===== src/Validate/Bounds.antt =====
-- What the tests for room on the heap mean.
use mathlib.Core.Bool.{false≢true}
use native.Mathlib.Nat.{mul-le-mul_left, mul-le-mul_right}
use py_pointless.Base.{
  ℕ, ◌+◌, ◌-◌, ◌*◌, ◌^◌, ◌<◌, ◌≤◌, ◌≡◌, ◌↔◌, refl, Bool, true, false, arith, if◌then◌else◌,
}
use py_pointless.IntOps.Checked.{init, u64_add, u64_mult, add_within, mult_within}
use py_pointless.Reader.{Pointless, little_endian}
use py_pointless.Validate.{
  ValidateError, Verdict, valid, invalid, check, require_heap, require_size, vector_bytes,
  text_bytes,
}

-- The number of items or units in front of the data of a value
abbrev pub count_at : Pointless → ℕ → ℕ
count_at p offset = little_endian 4 p.buf (p.heap_ptr + offset)

-- A check behind a test passes where the test holds and the check passes.
pub guard_iff :
    (b : Bool) (r : Verdict) (e : ValidateError) {P Q : Type 0}
    → ((b ≡ true) ↔ P)
    → (b ≡ true → (r ≡ valid) ↔ Q)
    → ((if b then r else invalid e) ≡ valid) ↔ (P × Q)
guard_iff true r e (to, from) h = (λ q. (to refl, (h refl).0 q), λ (_, q). (h refl).1 q)
guard_iff false r e (to, from) h = (λ q. cc, λ (q, _). absurd (false≢true (from q)))

pub check_iff :
    (b : Bool) (e : ValidateError) {P : Type 0} → ((b ≡ true) ↔ P) → (check b e ≡ valid) ↔ P
check_iff true e (to, from) = (λ q. to refl, λ q. refl)
check_iff false e (to, from) = (λ q. cc, λ q. absurd (false≢true (from q)))

-- The room on the heap is there, in unbounded numbers, exactly where the test in 64 bits says so.
pub require_heap_iff :
    (p : Pointless) (offset n_bytes : ℕ)
    → p.heap_len < 2 ^ 64
    → offset < 2 ^ 64
    → n_bytes < 2 ^ 64
    → (require_heap p offset n_bytes ≡ true) ↔ (offset + n_bytes ≤ p.heap_len)
unfolding require_heap u64_add init
require_heap_iff p offset n_bytes fits ho hn = (λ h. ground arith, λ h. ground arith)

vector_bytes_exact :
    (len n_items : ℕ)
    → len ≤ 8
    → n_items < 2 ^ 32
    → vector_bytes len n_items ≡ record { is_overflow = false; value = 4 + len * n_items }
unfolding vector_bytes u64_add u64_mult
vector_bytes_exact len n_items hl hn =
    let small : len * n_items < 2 ^ 64 - 4 = omega (arith, mul-le-mul_right n_items hl) in
    rw (mult_within (2 ^ 64) len n_items (omega arith) (omega arith))
      (add_within (2 ^ 64) 4 (len * n_items) (omega arith))

text_bytes_exact :
    (w s_len : ℕ)
    → w ≤ 4
    → s_len < 2 ^ 32
    → text_bytes w s_len ≡ record { is_overflow = false; value = 4 + (s_len + 1) * w }
unfolding text_bytes u64_add u64_mult
text_bytes_exact w s_len hw hs =
    let small : (s_len + 1) * w < 2 ^ 64 - 4 = omega (arith, mul-le-mul_left (s_len + 1) hw) in
    rw (mult_within (2 ^ 64) (s_len + 1) w (omega arith) (omega arith))
      (add_within (2 ^ 64) 4 ((s_len + 1) * w) (omega arith))

module _ (p : Pointless) (fits : p.heap_len < 2 ^ 64) (offset : ℕ) (ho : offset < 2 ^ 64) where
  pub vector_room :
      (len n_items : ℕ)
      → len ≤ 8
      → n_items < 2 ^ 32
      → (require_size p offset (vector_bytes len n_items) ≡ true)
        ↔ (offset + (4 + len * n_items) ≤ p.heap_len)
  vector_room len n_items hl hn = rw (vector_bytes_exact len n_items hl hn) (
      require_heap_iff p offset (4 + len * n_items) fits ho
        (omega (arith, mul-le-mul_right n_items hl)))

  pub text_room :
      (w s_len : ℕ)
      → w ≤ 4
      → s_len < 2 ^ 32
      → (require_size p offset (text_bytes w s_len) ≡ true)
        ↔ (offset + (4 + (s_len + 1) * w) ≤ p.heap_len)
  text_room w s_len hw hs = rw (text_bytes_exact w s_len hw hs) (
      require_heap_iff p offset (4 + (s_len + 1) * w) fits ho
        (omega (arith, mul-le-mul_left (s_len + 1) hw)))
