-- ===== src/Reader/Layout.antt =====
-- A file that opens: the offset vectors and the heap lie in its memory.
use py_pointless.Base.{
  ℕ, ◌+◌, ◌*◌, ◌%◌, ◌^◌, ◌<◌, ◌≤◌, ◌≡◌, ◌↔◌, ◌⊎◌, refl, Option, none, some, arith, inl, inr,
  Option-cases,
}
use py_pointless.BitUtils.{Bytes}
use py_pointless.Reader.Words.{HasBytes}
use py_pointless.Reader.{
  Pointless, Opened, opened, rejected, little_endian, mandatory_size, layout, InitError,
  header_error, finish_init, init, version_32_newhash, version_64_newhash,
}

-- Where the parts of an open file lie
pub record IsLaidOut (p : Pointless) : Type 0 where
  pub string_unicode_within : p.string_unicode_offsets + 8 * p.n_string_unicode ≤ p.buflen
  pub vector_within : p.vector_offsets + 8 * p.n_vector ≤ p.buflen
  pub bitvector_within : p.bitvector_offsets + 8 * p.n_bitvector ≤ p.buflen
  pub set_within : p.set_offsets + 8 * p.n_set ≤ p.buflen
  pub map_within : p.map_offsets + 8 * p.n_map ≤ p.buflen
  pub heap_within : p.heap_ptr + p.heap_len ≡ p.buflen
  pub heap_aligned : p.heap_ptr % 8 ≡ 0

-- What holds of a file that is opened
abbrev pub WhenOpened : (Pointless → Type 0) → Opened → Type 0
WhenOpened P (opened p) = P p
WhenOpened P (rejected e) = Unit

layout-IsLaidOut :
    (buf : Bytes) (buflen : ℕ) → mandatory_size buf ≤ buflen → IsLaidOut (layout buf buflen)
unfolding layout mandatory_size
layout-IsLaidOut buf buflen h = record {
  string_unicode_within = omega arith;
  vector_within = omega arith;
  bitvector_within = omega arith;
  set_within = omega arith;
  map_within = omega arith;
  heap_within = omega arith;
  heap_aligned = omega arith;
}

header_error_iff :
    (buflen version mandatory : ℕ)
    → (header_error buflen version mandatory ≡ none) ↔ (
        (32 ≤ buflen)
        × ((version ≡ version_32_newhash) ⊎ (version ≡ version_64_newhash))
        × (mandatory ≤ buflen))
unfolding header_error
header_error_iff buflen version mandatory = (λ e. ground arith, λ (big, known, room). ground arith)

finish_init_iff : (e : Option InitError) (p : Pointless) → (finish_init e p ≡ opened p) ↔ (e ≡ none)
unfolding finish_init
finish_init_iff (some e) p = (λ h. cc, λ h. cc)
finish_init_iff none p = (λ h. refl, λ h. refl)

-- A file is opened if and only if it has a header, the second or the third version and room for
-- its offset vectors.
pub init_iff :
    (buf : Bytes) (buflen : ℕ)
    → (init buf buflen ≡ opened (layout buf buflen)) ↔ (
        (32 ≤ buflen)
        × ((little_endian 4 buf 28 ≡ version_32_newhash)
            ⊎ (little_endian 4 buf 28 ≡ version_64_newhash))
        × (mandatory_size buf ≤ buflen))
unfolding init
init_iff buf buflen =
    let checks = header_error buflen (little_endian 4 buf 28) (mandatory_size buf) in
    let (to, from) = finish_init_iff checks (layout buf buflen) in
    let (sound, complete) = header_error_iff buflen (little_endian 4 buf 28) (mandatory_size buf) in
    (λ h. sound (to h), λ h. from (complete h))

-- The offset vectors and the heap of a file that is opened lie in its memory, and the heap starts
-- at a multiple of eight.
pub init-IsLaidOut : (buf : Bytes) (buflen : ℕ) → WhenOpened IsLaidOut (init buf buflen)
unfolding init finish_init
init-IsLaidOut buf buflen =
    elim (Option-cases (header_error buflen (little_endian 4 buf 28) (mandatory_size buf))) [
      | inl none_found ↦
          let (big, known, room) =
            (header_error_iff buflen (little_endian 4 buf 28) (mandatory_size buf)).0 none_found in
          rw none_found (layout-IsLaidOut buf buflen room)
      | inr (e, found) ↦ rw found tt
    ]

-- A file in memory, as `init` leaves it
pub record IsFile (p : Pointless) : Type 0 where
  pub laid : IsLaidOut p
  pub bytes : HasBytes p.buf
  pub fits : p.buflen < 2 ^ 64

pub WhenOpened-map :
    {P Q : Pointless → Type 0} (o : Opened)
    → ((p : Pointless) → P p → Q p)
    → WhenOpened P o
    → WhenOpened Q o
WhenOpened-map (opened p) f h = f p h
WhenOpened-map (rejected e) f h = tt

pub layout-IsFile :
    (buf : Bytes) (buflen : ℕ)
    → HasBytes buf
    → buflen < 2 ^ 64
    → mandatory_size buf ≤ buflen
    → IsFile (layout buf buflen)
unfolding layout
layout-IsFile buf buflen bytes fits room = record {
  laid = layout-IsLaidOut buf buflen room;
  bytes = bytes;
  fits = fits;
}

pub init-IsFile :
    (buf : Bytes) (buflen : ℕ)
    → HasBytes buf
    → buflen < 2 ^ 64
    → WhenOpened IsFile (init buf buflen)
unfolding init finish_init
init-IsFile buf buflen bytes fits =
    elim (Option-cases (header_error buflen (little_endian 4 buf 28) (mandatory_size buf))) [
      | inl none_found ↦
          let (big, known, room) =
            (header_error_iff buflen (little_endian 4 buf 28) (mandatory_size buf)).0 none_found in
          rw none_found (layout-IsFile buf buflen bytes fits room)
      | inr (e, found) ↦ rw found tt
    ]
