-- ===== src/Tests/Compression.antt =====
-- The compression of vectors at concrete inputs.
use py_pointless.Base.{◌-◌, ◌^◌, ◌≡◌, refl, All, arith, List, [], ◌∷◌, inl, inr, false}
use py_pointless.Base.Int.{pos, negsuc}
use py_pointless.Create.Vectors.{compressed, fault, unchanged, vector_compression, kind_of}
use py_pointless.Create.Vectors.Mixed.{vector_compression-mixed}
use py_pointless.Create.Vectors.RoundTrip.{ReadsBack, vector_compression-ReadsBack}
use py_pointless.Value.{Tag, i32, u32, null, vector_i8}
use py_pointless.Value.Accessors.{CreateValue, Header}

abbrev header : Tag → Header
header t = record {
  type_29 = t;
  is_compressed_vector = false;
  is_set_map_vector = false;
  is_outside_vector = false;
}

-- -3, 100
abbrev bytes : List CreateValue
bytes =
    record { header = header i32; data_u32 = 2 ^ 32 - 3 }
    ∷ record { header = header u32; data_u32 = 100 }
    ∷ []

-- -3, 3000000000
abbrev mixed : List CreateValue
mixed =
    record { header = header i32; data_u32 = 2 ^ 32 - 3 }
    ∷ record { header = header u32; data_u32 = 3_000_000_000 }
    ∷ []

bytes_type : vector_compression bytes ≡ compressed vector_i8
unfolding vector_compression
bytes_type = refl

-- A null is no number.
kept : vector_compression (record { header = header null; data_u32 = 0 } ∷ bytes) ≡ unchanged
unfolding vector_compression
kept = refl

vector_compression-ReadsBack_example : All (ReadsBack vector_i8) bytes
vector_compression-ReadsBack_example =
    vector_compression-ReadsBack bytes vector_i8 (omega arith) bytes_type

vector_compression-mixed_example : vector_compression mixed ≡ fault
unfolding kind_of
vector_compression-mixed_example =
    vector_compression-mixed mixed ((negsuc 2, refl), ((pos 3_000_000_000, refl), tt))
      (inl (2, refl)) (inr (inl (3_000_000_000, omega arith, refl)))
