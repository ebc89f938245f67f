-- ===== src/Tests/Aads.antt =====
-- The additional data of one record, and what another object would have to be to share it.
use s3_encryption_gateway.Prelude.{ℕ, ◌≡◌, refl, List, [], ◌∷◌, Bytes, replicate, ok, arith}
use s3_encryption_gateway.Aad.{
  ObjectContext, chunked_v2_data, validate, domain_bytes, build_object_aad, write_length_prefixed,
  write_fields,
}
use s3_encryption_gateway.Aad.Encoding.{big_endian}
use s3_encryption_gateway.Aad.Injective.{build_object_aad-injective}

abbrev photo : ObjectContext
photo = record { bucket = b'p' ∷ b'i' ∷ b'c' ∷ []; key = b'a' ∷ [] }

abbrev nines : Bytes
nines = replicate 16 9

abbrev counts : List ℕ
counts = 3 ∷ []

abbrev photo_aad : Bytes
photo_aad =
    83 ∷ 51 ∷ 69 ∷ 71 ∷ 65 ∷ 65 ∷ 68 ∷ 0 ∷ 0 ∷ 1 ∷ 0 ∷ 0 ∷ 0 ∷ 20 ∷ 115 ∷ 51 ∷ 101 ∷ 103 ∷ 47 ∷ 99
    ∷ 104 ∷ 117 ∷ 110 ∷ 107 ∷ 101 ∷ 100 ∷ 47 ∷ 118 ∷ 50 ∷ 47 ∷ 100 ∷ 97 ∷ 116 ∷ 97 ∷ 0 ∷ 0 ∷ 0 ∷ 3
    ∷ 112 ∷ 105 ∷ 99 ∷ 0 ∷ 0 ∷ 0 ∷ 1 ∷ 97 ∷ 0 ∷ 0 ∷ 0 ∷ 16 ∷ 9 ∷ 9 ∷ 9 ∷ 9 ∷ 9 ∷ 9 ∷ 9 ∷ 9 ∷ 9 ∷ 9
    ∷ 9 ∷ 9 ∷ 9 ∷ 9 ∷ 9 ∷ 9 ∷ 0 ∷ 1 ∷ 0 ∷ 0 ∷ 0 ∷ 0 ∷ 0 ∷ 0 ∷ 0 ∷ 3 ∷ []

photo_run : build_object_aad chunked_v2_data photo nines counts ≡ ok photo_aad
unfolding build_object_aad validate write_length_prefixed domain_bytes big_endian write_fields
photo_run = refl

build_object_aad-injective_example :
    (chunked_v2_data ≡ chunked_v2_data) × (photo ≡ photo) × (nines ≡ nines) × (counts ≡ counts)
build_object_aad-injective_example =
    build_object_aad-injective chunked_v2_data chunked_v2_data photo photo nines nines counts counts
      photo_aad (omega arith, tt) (omega arith, tt) photo_run photo_run
