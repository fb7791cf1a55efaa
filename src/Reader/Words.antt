-- ===== src/Reader/Words.antt =====
-- Reads of little-endian words from the memory of a file.
use native.Mathlib.Nat.{pow-suc}
use py_pointless.Base.{ℕ, zero, suc, ◌+◌, ◌*◌, ◌^◌, ◌<◌, ◌≤◌, ◌≡◌, some, arith}
use py_pointless.BitUtils.{Bytes}
use py_pointless.Reader.{Pointless, little_endian, read, pc_offset}

abbrev pub HasBytes : Bytes → Type 0
HasBytes buf = (a : ℕ) → buf a < 256

pub little_endian_bound :
    (w : ℕ) (buf : Bytes) (a : ℕ) → HasBytes buf → little_endian w buf a < 256 ^ w
unfolding little_endian
little_endian_bound zero buf a bytes = omega arith
little_endian_bound (suc w) buf a bytes =
    omega (arith, bytes a, little_endian_bound w buf (a + 1) bytes, pow-suc 256 w)

pub read_within :
    (w : ℕ) (p : Pointless) (a : ℕ) → a + w ≤ p.buflen → read w p a ≡ some (little_endian w p.buf a)
unfolding read
read_within w p a within = ground arith

pub pc_offset_within :
    (p : Pointless) (offsets n i : ℕ)
    → offsets + 8 * n ≤ p.buflen
    → i < n
    → pc_offset p offsets i ≡ some (little_endian 8 p.buf (offsets + 8 * i))
unfolding pc_offset
pc_offset_within p offsets n i within h = read_within 8 p (offsets + 8 * i) (omega arith)
