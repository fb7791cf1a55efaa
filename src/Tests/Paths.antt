-- ===== src/Tests/Paths.antt =====
-- Paths into a file of two vectors, one of which holds the other.
use py_pointless.Base.{
  ℕ, ◌^◌, ◌≡◌, ◌≢◌, inl, refl, List, [], ◌∷◌, ◌++◌, ltb, some, ◌==◌, if◌then◌else◌,
}
use py_pointless.Base.Int.{pos}
use py_pointless.BitUtils.{Bytes}
use py_pointless.IntOps.Eval.Tokens.{decimal}
use py_pointless.Eval.{
  u64_argument, i32_argument, unsigned_index, reached, refused, select, eval_get,
}
use py_pointless.Eval.Indices.{eval_get-digits, eval_get_sign}
use py_pointless.Eval.Paths.{eval_get-append}
use py_pointless.Eval.Types.{ItemType, select-ItemType}
use py_pointless.Reader.{Pointless, layout}
use py_pointless.Reader.Items.{vector_value_case}
use py_pointless.Reader.Tables.{found, bad_access}
use py_pointless.Value.Accessors.{complete_i64}
use py_pointless.Value.{Value, vector_value, vector_u8, vector_i64, u32}

-- A vector of one value, the other vector, and that vector, of the byte 7
abbrev contents : Bytes
contents a =
    if a == 12
    then 2
    else if a == 28
    then 2
    else if a == 40
    then 12
    else if a == 48
    then 1
    else if a == 52
    then 3
    else if a == 56
    then 1
    else if a == 60
    then 1
    else if a == 64
    then 7
    else 0

abbrev nested : Pointless
nested = layout contents 72

abbrev outer : Value
outer = record { tag = vector_value; data_u32 = 0 }

abbrev inner : Value
inner = record { tag = vector_u8; data_u32 = 1 }

abbrev wide : Value
wide = record { tag = vector_i64; data_u32 = 1 }

abbrev seven : Value
seven = record { tag = u32; data_u32 = 7 }

-- [0]
abbrev first_item : List ℕ
first_item = 91 ∷ 48 ∷ 93 ∷ []

-- [%i32]
abbrev given_item : List ℕ
given_item = 91 ∷ 37 ∷ 105 ∷ 51 ∷ 50 ∷ 93 ∷ []

outer_item :
    eval_get nested outer first_item (i32_argument (pos 0) ∷ [])
    ≡ reached inner (i32_argument (pos 0) ∷ [])
unfolding eval_get layout
outer_item = refl

inner_item : eval_get nested inner given_item (i32_argument (pos 0) ∷ []) ≡ reached seven []
unfolding eval_get layout
inner_item = refl

eval_get-append_example :
    eval_get nested outer (first_item ++ given_item) (i32_argument (pos 0) ∷ [])
    ≡ eval_get nested inner given_item (i32_argument (pos 0) ∷ [])
eval_get-append_example =
    eval_get-append nested outer first_item given_item (i32_argument (pos 0) ∷ []) inner
      (i32_argument (pos 0) ∷ []) outer_item

eval_get-digits_example : eval_get nested outer first_item [] ≡ (
    if ltb (decimal 0 (48 ∷ [])) (2 ^ 64)
    then eval_get nested outer
        (91 ∷ 37 ∷ 117 ∷ 54 ∷ 52 ∷ 93 ∷ [])
        (u64_argument (decimal 0 (48 ∷ [])) ∷ [])
    else refused)
eval_get-digits_example = eval_get-digits nested outer 48 [] [] [] (refl, tt)

eval_get_sign_example : eval_get nested outer (91 ∷ 45 ∷ 48 ∷ 93 ∷ []) [] ≢ reached inner []
eval_get_sign_example = eval_get_sign nested outer 45 (48 ∷ 93 ∷ []) [] inner [] (inl refl)

first_of_inner : select nested inner (unsigned_index 0) ≡ found seven
unfolding select layout
first_of_inner = refl

select-ItemType_example : ItemType vector_u8 u32
select-ItemType_example = select-ItemType nested inner (unsigned_index 0) seven first_of_inner

wide_read : vector_value_case nested vector_i64 1 0 ≡ some (complete_i64 (pos 7))
unfolding vector_value_case layout
wide_read = refl

-- An item of 64 bits is in range and can be read, and stops the program.
wide_item : select nested wide (unsigned_index 0) ≡ bad_access
unfolding select layout
wide_item = refl
