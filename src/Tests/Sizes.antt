-- ===== src/Tests/Sizes.antt =====
-- The size equations of the chunked format at 64 KiB records.
use s3_encryption_gateway.Prelude.{◌≡◌, refl, arith, pos, ok, ◌*◌, ◌+◌, ◌<◌, ◌≤◌, min}
use s3_encryption_gateway.Chunk.{
  v2, chunked_ciphertext_size, chunked_plaintext_size, chunked_data_chunk_count, plaintext_of_data,
  try_count, or_else, validate_chunk_size, validate_chunked_version,
  calculate_chunk_range_from_plaintext, chunked_encrypted_data_range,
  chunked_encrypted_data_range_for_plaintext_size,
}
use s3_encryption_gateway.Chunk.Count.{IsChunkSize, record_count}
use s3_encryption_gateway.Chunk.Sizes.{
  plaintext_size-ciphertext_size, ciphertext_size-plaintext_size,
}
use s3_encryption_gateway.Chunk.Ranges.{chunk_range_lem, data_range_bounds}

default_IsChunkSize : IsChunkSize 65536
default_IsChunkSize = omega arith

-- 100000 bytes take two records and the terminal.
ciphertext_run : chunked_ciphertext_size (pos 100000) (pos 65536) v2 ≡ ok 100064
unfolding chunked_ciphertext_size validate_chunked_version validate_chunk_size
    chunked_data_chunk_count
ciphertext_run = refl

plaintext_run : chunked_plaintext_size (pos 100064) (pos 65536) v2 ≡ ok (100000, 2)
unfolding chunked_plaintext_size plaintext_of_data try_count or_else validate_chunked_version
    validate_chunk_size chunked_data_chunk_count
plaintext_run = refl

plaintext_size-ciphertext_size_example :
    chunked_plaintext_size (pos 100064) (pos 65536) v2 ≡ ok (100000, record_count 100000 65536)
plaintext_size-ciphertext_size_example =
    plaintext_size-ciphertext_size 100000 65536 v2 100064 default_IsChunkSize (omega arith)
      ciphertext_run

ciphertext_size-plaintext_size_example :
    (chunked_ciphertext_size (pos 100000) (pos 65536) v2 ≡ ok 100064)
    × (2 ≡ record_count 100000 65536)
ciphertext_size-plaintext_size_example =
    ciphertext_size-plaintext_size 100064 65536 v2 (100000, 2) default_IsChunkSize (omega arith)
      plaintext_run

chunk_range_lem_example :
    let r =
      calculate_chunk_range_from_plaintext
        (pos 70000)
        (pos 99999)
        (pos 65536)
        (record_count 100000 65536) in
    (r.start_chunk * 65536 + r.start_offset ≡ 70000)
    × (r.start_offset < 65536)
    × (r.end_chunk * 65536 + r.end_offset ≡ 99999)
    × (r.end_offset < 65536)
    × (r.start_chunk ≤ r.end_chunk)
    × (r.end_chunk < record_count 100000 65536)
chunk_range_lem_example =
    chunk_range_lem 70000 99999 100000 65536 (omega arith) (omega arith) (omega arith)

range_run :
    chunked_encrypted_data_range_for_plaintext_size 1 1 (pos 100000) (pos 65536) v2
    ≡ ok (65552, 100031)
unfolding chunked_encrypted_data_range_for_plaintext_size chunked_encrypted_data_range
    chunked_ciphertext_size validate_chunked_version validate_chunk_size chunked_data_chunk_count
range_run = refl

data_range_bounds_example :
    (65552 ≡ 1 * (65536 + 16))
    × (100031 + 1 ≡ min ((1 + 1) * (65536 + 16)) (100000 + record_count 100000 65536 * 16))
    × (65552 ≤ 100031)
    × (1 ≤ 1)
    × (1 < record_count 100000 65536)
data_range_bounds_example =
    data_range_bounds 1 1 100000 65536 v2 (65552, 100031) default_IsChunkSize (omega arith)
      range_run
