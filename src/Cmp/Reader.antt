-- ===== src/Cmp/Reader.antt =====
-- src/pointless_cmp.c: the order of the values of files. The comparison of numbers is a parameter
-- where one of them is a float; otherwise it is `cmp_int`. A failed assertion, a read past the end
-- of the file and a null pointer that is followed are `fault`.
pub mod Depth
pub mod Reflexive
use py_pointless.Base.{
  ℕ, zero, suc, ◌+◌, ◌-◌, ◌*◌, ◌/◌, Bool, true, false, not, ◌&&◌, ◌||◌, Option, none, some, List,
  [], ◌∷◌, leb, ltb, ◌==◌, if◌then◌else◌, u32 as to_u32,
}
use py_pointless.BitUtils.{Bytes}
use py_pointless.BitVector.{Sign, less, same, more, simple_cmp, cmp_buffer_buffer}
use py_pointless.Cmp.{cmp_string, cmp_int}
use py_pointless.Reader.{Pointless, read, pc_offset}
use py_pointless.Reader.Items.{
  vector_n_items, vector_value_case, string_value_ascii, unicode_value_ucs4,
}
use py_pointless.Value.{
  Tag, Value, CompleteValue, vector_value, vector_value_hashable, vector_i8, vector_u8, vector_i16,
  vector_u16, vector_i32, vector_u32, vector_i64, vector_u64, vector_float, vector_empty, unicode,
  string, bitvector, bitvector_0, bitvector_1, bitvector_01, bitvector_10, bitvector_packed,
  set_value, map_value_value, empty_slot, i32, u32, float, boolean, null, i64, u64, unknown,
}

-- `POINTLESS_MAX_DEPTH`
abbrev pub max_depth : ℕ
max_depth = 512

pub data CmpError : Type 0 where
  depth_reached set_not_implemented map_not_implemented : CmpError

-- A sign, or 0 with an error
pub data Outcome : Type 0 where
  ordered : Sign → Outcome
  failed : CmpError → Outcome
  fault out_of_fuel : Outcome

abbrev pub given : {A : Type 0} → Option A → (A → Outcome) → Outcome
given none k = fault
given (some a) k = k a

-- The functions that `pointless_cmp_reader_func` selects among
pub data Group : Type 0 where
  text number bits null_value vector set map slot : Group

-- `none`: the assertion on the type fails.
unfoldable pub cmp_reader_func : Tag → Option Group
cmp_reader_func unicode = some text
cmp_reader_func string = some text
cmp_reader_func i32 = some number
cmp_reader_func u32 = some number
cmp_reader_func i64 = some number
cmp_reader_func u64 = some number
cmp_reader_func boolean = some number
cmp_reader_func float = some number
cmp_reader_func bitvector = some bits
cmp_reader_func bitvector_0 = some bits
cmp_reader_func bitvector_1 = some bits
cmp_reader_func bitvector_01 = some bits
cmp_reader_func bitvector_10 = some bits
cmp_reader_func bitvector_packed = some bits
cmp_reader_func null = some null_value
cmp_reader_func set_value = some set
cmp_reader_func map_value_value = some map
cmp_reader_func empty_slot = some slot
cmp_reader_func (unknown _) = none
cmp_reader_func _ = some vector

-- `cmp_a != cmp_b` compares addresses of functions.
abbrev pub group_id : Group → ℕ
group_id text = 0
group_id number = 1
group_id bits = 2
group_id null_value = 3
group_id vector = 4
group_id set = 5
group_id map = 6
group_id slot = 7

-- The `POINTLESS_*` type codes
unfoldable pub type_code : Tag → ℕ
type_code vector_value = 0
type_code vector_value_hashable = 1
type_code vector_i8 = 2
type_code vector_u8 = 3
type_code vector_i16 = 4
type_code vector_u16 = 5
type_code vector_i32 = 6
type_code vector_u32 = 7
type_code vector_float = 8
type_code vector_empty = 9
type_code unicode = 10
type_code bitvector = 11
type_code bitvector_0 = 12
type_code bitvector_1 = 13
type_code bitvector_01 = 14
type_code bitvector_10 = 15
type_code bitvector_packed = 16
type_code set_value = 17
type_code map_value_value = 18
type_code empty_slot = 19
type_code i32 = 20
type_code u32 = 21
type_code float = 22
type_code boolean = 23
type_code null = 24
type_code vector_i64 = 25
type_code vector_u64 = 26
type_code i64 = 27
type_code u64 = 28
type_code string = 29
type_code (unknown code) = code

-- The units of `w` bytes from an address to the end of the file
pub units : ℕ → Pointless → ℕ → ℕ → List ℕ
unfolding read
units w p zero a = []
units w p (suc left) a = elim (read w p a) [ none ↦ [] | some c ↦ c ∷ units w p left (a + w) ]

-- The units of a string or unicode value. `none`: the pointer is not there, or not aligned.
unfoldable pub text_of : Pointless → Tag → ℕ → Option (List ℕ)
unfolding units unicode_value_ucs4 string_value_ascii
text_of p unicode v = elim (unicode_value_ucs4 p v) [
  | none ↦ none
  | some a ↦ some (units 4 p p.buflen a)
]
text_of p string v = elim (string_value_ascii p v) [
  | none ↦ none
  | some a ↦ some (units 1 p p.buflen a)
]
text_of p _ v = none

abbrev pub sign_or_fault : Option Sign → Outcome
sign_or_fault none = fault
sign_or_fault (some s) = ordered s

pub cmp_reader_string_unicode : Pointless → Tag → ℕ → Pointless → Tag → ℕ → Outcome
unfolding text_of cmp_string
cmp_reader_string_unicode p_a t_a v_a p_b t_b v_b =
    given (text_of p_a t_a v_a)
      (λ a. given (text_of p_b t_b v_b) (λ b. sign_or_fault (cmp_string a b)))

-- `pointless_reader_bitvector_buffer`; the buffer of a compressed bitvector is a null pointer.
pub bitvector_buffer : Pointless → Tag → ℕ → Option Bytes
unfolding pc_offset
bitvector_buffer p bitvector v = elim (pc_offset p p.bitvector_offsets v) [
  | none ↦ none
  | some o ↦ some (λ j. p.buf (p.heap_ptr + o + j))
]
bitvector_buffer p _ v = some (λ _. 0)

pub cmp_reader_bitvector : Pointless → Tag → ℕ → Pointless → Tag → ℕ → Outcome
unfolding bitvector_buffer cmp_buffer_buffer
cmp_reader_bitvector p_a t_a v_a p_b t_b v_b = given (bitvector_buffer p_a t_a v_a) (λ buffer_a.
    given (bitvector_buffer p_b t_b v_b)
      (λ buffer_b. ordered (cmp_buffer_buffer t_a v_a buffer_a t_b v_b buffer_b)))

abbrev pub is_float : Tag → Bool
is_float float = true
is_float _ = false

module _ (cmp_float : Tag → ℕ → Tag → ℕ → Sign) (p_a p_b : Pointless) (has_error : Bool) where
  pub cmp_int_float : Tag → ℕ → Tag → ℕ → Option Sign
  unfolding cmp_int
  cmp_int_float t_a v_a t_b v_b =
      if is_float t_a || is_float t_b
      then some (cmp_float t_a v_a t_b v_b)
      else cmp_int t_a v_a t_b v_b

  -- `*error = ...; return 0`, where `error` may be a null pointer
  abbrev pub set_error : CmpError → Outcome
  set_error e = if has_error then failed e else fault

  -- `if (cc != 0 || *error != 0) return cc`
  abbrev pub unless_same : Outcome → Outcome → Outcome
  unless_same (ordered same) rest = if has_error then rest else fault
  unless_same r rest = r

  -- The loop over the items, with the comparison of two of them in `cmp`
  pub cmp_items :
      (CompleteValue → CompleteValue → Outcome) → Tag → ℕ → Tag → ℕ → Outcome → ℕ → ℕ → Outcome
  unfolding vector_value_case
  cmp_items cmp t_a v_a t_b v_b rest zero i = rest
  cmp_items cmp t_a v_a t_b v_b rest (suc left) i = given (vector_value_case p_a t_a v_a i) (λ c_a.
      given (vector_value_case p_b t_b v_b i)
        (λ c_b. unless_same (cmp c_a c_b) (cmp_items cmp t_a v_a t_b v_b rest left (i + 1))))

  pub cmp_reader_vector : (CompleteValue → CompleteValue → Outcome) → Tag → ℕ → Tag → ℕ → Outcome
  unfolding cmp_items vector_n_items simple_cmp
  cmp_reader_vector cmp t_a v_a t_b v_b = given (vector_n_items p_a t_a v_a) (λ n_a.
      given (vector_n_items p_b t_b v_b) (λ n_b.
        cmp_items cmp t_a v_a t_b v_b (ordered (simple_cmp n_a n_b))
          (if ltb n_a n_b then n_a else n_b) 0))

  -- The function of a group. Where the values are not numbers, `pointless_value_from_complete`
  -- takes 32 bits of the data.
  pub cmp_group : (CompleteValue → CompleteValue → Outcome) → Group → Tag → ℕ → Tag → ℕ → Outcome
  unfolding cmp_reader_string_unicode cmp_int_float cmp_reader_bitvector cmp_reader_vector
  cmp_group cmp text t_a v_a t_b v_b =
      cmp_reader_string_unicode p_a t_a (to_u32 v_a) p_b t_b (to_u32 v_b)
  cmp_group cmp number t_a v_a t_b v_b = sign_or_fault (cmp_int_float t_a v_a t_b v_b)
  cmp_group cmp bits t_a v_a t_b v_b =
      cmp_reader_bitvector p_a t_a (to_u32 v_a) p_b t_b (to_u32 v_b)
  cmp_group cmp null_value t_a v_a t_b v_b = ordered same
  cmp_group cmp vector t_a v_a t_b v_b = cmp_reader_vector cmp t_a (to_u32 v_a) t_b (to_u32 v_b)
  cmp_group cmp set t_a v_a t_b v_b = set_error set_not_implemented
  cmp_group cmp map t_a v_a t_b v_b = set_error map_not_implemented
  cmp_group cmp slot t_a v_a t_b v_b = ordered same

  -- Both functions of the types, or an assertion that fails
  pub cmp_types :
      (CompleteValue → CompleteValue → Outcome) → CompleteValue → CompleteValue → Outcome
  unfolding cmp_group simple_cmp type_code
  cmp_types cmp a b = given (cmp_reader_func a.tag) (λ g_a. given (cmp_reader_func b.tag) (λ g_b.
      if group_id g_a == group_id g_b
      then cmp_group cmp g_a a.tag a.data_u64 b.tag b.data_u64
      else ordered (simple_cmp (type_code a.tag) (type_code b.tag))))

  -- Two levels of depth for each call: one for this function and one for that of the vectors.
  pub cmp_reader_rec : ℕ → ℕ → CompleteValue → CompleteValue → Outcome
  unfolding cmp_types
  cmp_reader_rec zero depth a b = out_of_fuel
  cmp_reader_rec (suc fuel) depth a b =
      if has_error && leb max_depth depth
      then failed depth_reached
      else cmp_types (λ c_a c_b. cmp_reader_rec fuel (depth + 2) c_a c_b) a b

-- `pointless_cmp_reader`, with fuel for the greatest depth
unfoldable pub cmp_reader :
    (Tag → ℕ → Tag → ℕ → Sign) → Pointless → CompleteValue → Pointless → CompleteValue → Outcome
unfolding cmp_reader_rec
cmp_reader cmp_float p_a a p_b b = cmp_reader_rec cmp_float p_a p_b true 257 0 a b

-- `pointless_cmp_reader_acyclic`, without a limit on the depth
unfoldable pub cmp_reader_acyclic :
    (Tag → ℕ → Tag → ℕ → Sign) → ℕ → Pointless → CompleteValue → Pointless → CompleteValue → Outcome
unfolding cmp_reader_rec
cmp_reader_acyclic cmp_float fuel p_a a p_b b = cmp_reader_rec cmp_float p_a p_b false fuel 0 a b
