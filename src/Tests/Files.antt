-- ===== src/Tests/Files.antt =====
-- A file with one string and one vector at concrete inputs.
use py_pointless.Base.{ℕ, ◌%◌, ◌≤◌, ◌≡◌, ◌↔◌, ◌⊎◌, refl, true, some, arith, ◌==◌, if◌then◌else◌}
use py_pointless.BitUtils.{Bytes}
use py_pointless.BitVector.{Sign, same, less, more}
use py_pointless.Cmp.{is_signed, int_value_unsigned}
use py_pointless.Cmp.Reader.{Outcome, ordered, cmp_reader_func, cmp_reader, cmp_reader_acyclic}
use py_pointless.Cmp.Reader.Depth.{Ends, cmp_reader-Ends}
use py_pointless.Cmp.Reader.Reflexive.{
  NotDifferent, FloatsSame, here, item_of, cmp_reader-NotDifferent,
}
use py_pointless.Value.{Tag, CompleteValue, string, float, vector_u8}
use py_pointless.IntOps.Checked.{u64_add, u64_mult, add, mult, exceeds, init}
use py_pointless.Reader.{
  Pointless, opened, init as open_file, read, pc_offset, layout, little_endian, mandatory_size,
  version_32_newhash, version_64_newhash,
}
use py_pointless.Reader.Layout.{
  IsFile, IsLaidOut, WhenOpened, layout-IsFile, init_iff, init-IsLaidOut,
}
use py_pointless.Reader.Words.{HasBytes}
use py_pointless.Validate.{
  heap_ref, heap_entries, ref_within, is_known, heap_value, vector_heap, item_len, require_heap,
  vector_bytes, valid, string_size, text_at, vector_at, value_checks,
}
use py_pointless.Validate.Bounds.{count_at}
use py_pointless.Validate.Safety.{IsSafe, value_checks-IsSafe}
use py_pointless.Validate.Text.{HasUnits, text_at_iff}
use py_pointless.Validate.Reading.{IsRead, vector_offset, vector_value_case_iff}
use py_pointless.Reader.Items.{vector_value_case}
use py_pointless.Walk.Calm.{IsCalm}
use py_pointless.Validate.Pass.{first, run_pass}
use py_pointless.Validate.Pass.Children.{offset_at, IsAligned}
use py_pointless.Validate.Pass.Calm.{InFirst, run_pass-IsCalm}

-- One string "hi", at the start of the heap, and one vector of the bytes 1 and 2 behind it
abbrev contents : Bytes
contents a =
    if a == 8
    then 1
    else if a == 12
    then 1
    else if a == 28
    then 2
    else if a == 40
    then 8
    else if a == 48
    then 2
    else if a == 52
    then 104
    else if a == 53
    then 105
    else if a == 56
    then 2
    else if a == 60
    then 1
    else if a == 61
    then 2
    else 0

contents-HasBytes : HasBytes contents
contents-HasBytes a = ground arith

contents_size : mandatory_size contents ≡ 48
unfolding mandatory_size little_endian
contents_size = refl

abbrev file : Pointless
file = layout contents 62

file-IsFile : IsFile file
file-IsFile =
    layout-IsFile contents 62 contents-HasBytes (omega arith) (rw contents_size (omega arith))

init_iff_example : (open_file contents 62 ≡ opened (layout contents 62)) ↔ (
    (32 ≤ 62)
    × ((little_endian 4 contents 28 ≡ version_32_newhash)
        ⊎ (little_endian 4 contents 28 ≡ version_64_newhash))
    × (mandatory_size contents ≤ 62))
init_iff_example = init_iff contents 62

init-IsLaidOut_example : WhenOpened IsLaidOut (open_file contents 62)
init-IsLaidOut_example = init-IsLaidOut contents 62

value_checks-IsSafe_example :
    WhenOpened (λ p. IsSafe (value_checks p string 0)) (open_file contents 62)
value_checks-IsSafe_example =
    value_checks-IsSafe contents 62 contents-HasBytes (omega arith) string 0

text_at_iff_example :
    (text_at 1 file string_size 0 ≡ valid) ↔ ((4 ≤ file.heap_len) × HasUnits 1 file 0)
text_at_iff_example = text_at_iff file 1 0 string_size file-IsFile (omega arith) (omega arith)

one_vector : file.n_vector ≡ 1
unfolding layout little_endian
one_vector = refl

no_sets : file.n_set ≡ 0
unfolding layout little_endian
no_sets = refl

no_maps : file.n_map ≡ 0
unfolding layout little_endian
no_maps = refl

vector_at_eight : offset_at file file.vector_offsets 0 ≡ 8
unfolding layout little_endian
vector_at_eight = refl

file-IsAligned : IsAligned file
file-IsAligned = record {
  vectors =
      λ v h. let first : v ≡ 0 = omega (arith, one_vector) in rw (first, vector_at_eight) refl;
  sets = λ v h. absurd (omega (arith, no_sets));
  maps = λ v h. absurd (omega (arith, no_maps));
}

run_pass-IsCalm_example :
    IsCalm file InFirst (run_pass file (λ x. 0) (λ x y. some true) (λ a. 0) first)
run_pass-IsCalm_example =
    run_pass-IsCalm file file-IsFile file-IsAligned (λ x. 0) (λ x y. some true) (λ a. 0)

ref_passes : heap_ref file vector_u8 0 ≡ valid
unfolding layout little_endian heap_ref heap_entries ref_within is_known
ref_passes = refl

value_passes : heap_value file vector_u8 0 ≡ valid
unfolding layout little_endian mandatory_size heap_value vector_heap vector_at item_len require_heap
    vector_bytes read pc_offset u64_add u64_mult add mult exceeds init
value_passes = refl

two_items : count_at file (vector_offset file 0) ≡ 2
unfolding layout little_endian
two_items = refl

vector_value_case_iff_example :
    IsRead (vector_value_case file vector_u8 0 1) ↔ (vector_offset file 0 % 4 ≡ 0)
vector_value_case_iff_example =
    vector_value_case_iff file vector_u8 0 1 1 file-IsFile (unfold item_len in refl) ref_passes
      value_passes (omega (arith, two_items))

abbrev two_bytes : CompleteValue
two_bytes = record { tag = vector_u8; data_u64 = 0 }

-- A comparison of floats that are bit patterns
abbrev by_bits : Tag → ℕ → Tag → ℕ → Sign
by_bits t_a v_a t_b v_b = if v_a == v_b then same else less

cmp_reader-two_bytes : cmp_reader by_bits file two_bytes file two_bytes ≡ ordered same
unfolding cmp_reader cmp_reader_func layout is_signed int_value_unsigned
cmp_reader-two_bytes = refl

-- Behind items that are the same, the null pointer to the error is followed.
cmp_reader_acyclic-two_bytes :
    cmp_reader_acyclic by_bits 2 file two_bytes file two_bytes ≡ Outcome.fault
unfolding cmp_reader_acyclic cmp_reader_func layout is_signed int_value_unsigned
cmp_reader_acyclic-two_bytes = refl

cmp_reader-Ends_example : Ends (cmp_reader by_bits file two_bytes file two_bytes)
cmp_reader-Ends_example = cmp_reader-Ends by_bits file file two_bytes two_bytes

-- A comparison in which a NaN is more than everything, itself included
abbrev nan : ℕ
nan = 0x7fc00000

abbrev by_float : Tag → ℕ → Tag → ℕ → Sign
by_float t_a v_a t_b v_b =
    if v_a == nan then more else if v_b == nan then more else if v_a == v_b then same else less

abbrev one : CompleteValue
one = record { tag = float; data_u64 = 0x3f800000 }

floats_same : FloatsSame by_float file true one
unfolding vector_value_case
floats_same x here e = refl
floats_same x (item_of i at inside) e = cc at

cmp_reader-NotDifferent_example : NotDifferent (cmp_reader by_float file one file one)
cmp_reader-NotDifferent_example = cmp_reader-NotDifferent by_float file one floats_same
