-- ===== src/Tests/Parts.antt =====
-- A manifest with two parts of 70000 and 10 bytes in records of 65536.
use s3_encryption_gateway.Prelude.{length, ◌≤◌, Bytes, some, equal_bytes}
use s3_encryption_gateway.Aad.{ObjectContext, validate}
use s3_encryption_gateway.Manifest.Owner.{
  is_related, has_binding, check_owner, validate_for, validate_for_unique,
}
use s3_encryption_gateway.Prelude.{◌≡◌, refl, [], ◌∷◌, pos, pos_part, ok, ◌⊎◌, arith}
use s3_encryption_gateway.Manifest.{
  MultipartManifest, PartChunk, validate_layout, check_layout, check_parts, check_part, check_sizes,
  check_sums, part_chunks, plain_offset_to_part_chunk, enc_offset_for_part_chunk, chunk_offset,
  enc_before,
}
use s3_encryption_gateway.Prelude.{◌+◌, ◌*◌, ◌<◌}
use s3_encryption_gateway.Manifest.Layout.{sum_enc, IsLayout, validate_layout-IsLayout}
use s3_encryption_gateway.Manifest.Offsets.{
  IsAt, plain_offset_to_part_chunk-IsAt, plain_before, chunks_before, enc_offset_for_part_chunk_lem,
}

abbrev two_parts : MultipartManifest
two_parts = record {
  version = pos 2;
  parent_bucket = [];
  parent_key = [];
  companion_bucket = [];
  companion_key = [];
  binding_id = [];
  algorithm = [];
  chunk_size = pos 65536;
  iv_prefix = [];
  upload_id_hash = [];
  wrapped_dek = [];
  kms_key_id = [];
  kms_provider = [];
  kms_key_version = pos 1;
  parts =
      record {
        part_number = pos 1;
        etag = [];
        plain_len = pos 70000;
        enc_len = pos 70032;
        chunk_count = pos 2;
      }
      ∷ record {
        part_number = pos 4;
        etag = [];
        plain_len = pos 10;
        enc_len = pos 26;
        chunk_count = pos 1;
      }
      ∷ [];
  original_etag = [];
  total_plain_size = pos 70010;
}

two_parts_run : validate_layout two_parts ≡ ok tt
unfolding validate_layout check_layout check_parts check_part check_sizes check_sums part_chunks
two_parts_run = refl

validate_layout-IsLayout_example :
    (length two_parts.parts ≤ 10000)
    × (two_parts.total_plain_size ≡ pos 70010)
    × (((two_parts.parts ≡ []) × (pos_part two_parts.total_plain_size ≡ 0)) ⊎ IsLayout two_parts)
validate_layout-IsLayout_example = validate_layout-IsLayout two_parts two_parts_run

plain_offset_to_part_chunk-IsAt_example :
    (x : PartChunk) × (plain_offset_to_part_chunk two_parts (pos 70003) ≡ ok x)
    × IsAt 65536 70003 0 0 two_parts.parts x
plain_offset_to_part_chunk-IsAt_example =
    plain_offset_to_part_chunk-IsAt two_parts 70003 two_parts_run (omega arith)

-- The first chunk of the second part, after two chunks.
offset_run : enc_offset_for_part_chunk two_parts (pos 1) (pos 0) ≡ ok 70032
unfolding enc_offset_for_part_chunk chunk_offset enc_before validate_layout check_layout check_parts
    check_part check_sizes check_sums part_chunks
offset_run = refl

enc_offset_for_part_chunk_lem_example :
    (70032
      ≡ plain_before 1 two_parts.parts + 0 * 65536 + (chunks_before 1 two_parts.parts + 0) * 16)
    × (70032 + 16 < sum_enc two_parts.parts)
enc_offset_for_part_chunk_lem_example =
    enc_offset_for_part_chunk_lem two_parts (pos 1) (pos 0) 70032 offset_run

abbrev parent : ObjectContext
parent = record { bucket = b'b' ∷ []; key = b'k' ∷ [] }

abbrev companion : ObjectContext
companion = record { bucket = b'b' ∷ []; key = b'k' ∷ b'm' ∷ [] }

abbrev sixteen : Bytes
sixteen = 1 ∷ 2 ∷ 3 ∷ 4 ∷ 5 ∷ 6 ∷ 7 ∷ 8 ∷ 9 ∷ 10 ∷ 11 ∷ 12 ∷ 13 ∷ 14 ∷ 15 ∷ 16 ∷ []

abbrev owned : MultipartManifest
owned = record two_parts {
  parent_bucket = parent.bucket;
  parent_key = parent.key;
  companion_bucket = companion.bucket;
  companion_key = companion.key;
  binding_id = sixteen;
}

owned_run : validate_for (λ bs. some bs) owned parent companion sixteen ≡ ok tt
unfolding validate_for check_owner is_related has_binding validate equal_bytes validate_layout
    check_layout check_parts check_part check_sizes check_sums part_chunks
owned_run = refl

validate_for_unique_example : (parent ≡ parent) × (companion ≡ companion) × (sixteen ≡ sixteen)
validate_for_unique_example =
    validate_for_unique (λ bs. some bs) owned parent parent companion companion sixteen sixteen refl
      owned_run owned_run
