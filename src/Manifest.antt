-- ===== src/Manifest.antt =====
-- internal/crypto/mpu_manifest.go: the manifest of a completed multipart upload, the check of its
-- layout and the translation of plaintext offsets into backend offsets. The JSON and base64 forms
-- of a manifest are library code and are not modelled.
pub mod Layout
pub mod Offsets
pub mod Owner
use s3_encryption_gateway.Prelude.{
  ℕ, zero, suc, ◌+◌, ◌-◌, ◌*◌, ◌/◌, ◌%◌, ◌^◌, Bool, true, false, not, ◌&&◌, ◌||◌, List, [], ◌∷◌,
  Option, none, some, ltb, leb, ◌==◌, if◌then◌else◌, Bytes, length, get_elem?, ℤ, pos, negsuc,
  pos_part, ltb_ℤ, max_int64, Result, ok, err, ◌>>=◌, ◌>>◌, reject,
}
use s3_encryption_gateway.Chunk.{max_chunk_size}

pub data ManifestError : Type 0 where
  invalid_total invalid_chunk_size invalid_part invalid_count inconsistent_sizes total_mismatch :
      ManifestError
  offset_out_of_range chunk_index_overflow part_out_of_range chunk_out_of_range range_out_of_range :
      ManifestError
  invalid_object unsupported_version relationship_mismatch binding_mismatch : ManifestError

pub record MpuPartRecord : Type 0 where
  pub part_number : ℤ
  pub etag : Bytes
  pub plain_len : ℤ
  pub enc_len : ℤ
  pub chunk_count : ℤ

pub record MultipartManifest : Type 0 where
  pub version : ℤ
  pub parent_bucket : Bytes
  pub parent_key : Bytes
  pub companion_bucket : Bytes
  pub companion_key : Bytes
  pub binding_id : Bytes
  pub algorithm : Bytes
  pub chunk_size : ℤ
  pub iv_prefix : Bytes
  pub upload_id_hash : Bytes
  pub wrapped_dek : Bytes
  pub kms_key_id : Bytes
  pub kms_provider : Bytes
  pub kms_key_version : ℤ
  pub parts : List MpuPartRecord
  pub original_etag : Bytes
  pub total_plain_size : ℤ

abbrev pub mpu_aead_tag_size : ℕ
mpu_aead_tag_size = 16

abbrev pub max_int32 : ℕ
max_int32 = 2 ^ 31 - 1

-- `count`: the chunks of a part.
unfoldable pub part_chunks : ℕ → ℕ → ℕ
part_chunks chunk_size plain = plain / chunk_size + (if plain % chunk_size == 0 then 0 else 1)

-- The variables of the loop over the parts.
pub record Tally : Type 0 where
  pub previous : ℤ
  pub total_plain : ℕ
  pub total_enc : ℕ

-- The third test of the loop's body, and the sums.
unfoldable pub check_sums : ℕ → Tally → MpuPartRecord → Result ManifestError Tally
check_sums count t part = do
  reject
      (not (pos_part part.enc_len == pos_part part.plain_len + count * mpu_aead_tag_size)
        || (ltb (max_int64 - t.total_plain) (pos_part part.plain_len)
            || ltb (max_int64 - t.total_enc) (pos_part part.enc_len)))
      inconsistent_sizes
  ok (record {
    previous = part.part_number;
    total_plain = t.total_plain + pos_part part.plain_len;
    total_enc = t.total_enc + pos_part part.enc_len;
  })

-- The second test.
unfoldable pub check_sizes : ℕ → Tally → MpuPartRecord → Result ManifestError Tally
check_sizes count t part = do
  reject
      (ltb max_int32 count
        || (not (count == pos_part part.chunk_count)
            || ltb ((max_int64 - pos_part part.plain_len) / mpu_aead_tag_size) count))
      invalid_count
  check_sums count t part

unfoldable pub check_part : ℕ → Tally → MpuPartRecord → Result ManifestError Tally
check_part chunk_size t part = do
  reject
      (not (ltb_ℤ t.previous part.part_number)
        || (ltb_ℤ (pos 10000) part.part_number
            || (ltb_ℤ part.plain_len (pos 0)
                || (ltb_ℤ part.enc_len (pos 0) || ltb_ℤ part.chunk_count (pos 0)))))
      invalid_part
  check_sizes (part_chunks chunk_size (pos_part part.plain_len)) t part

unfoldable pub check_parts : ℕ → Tally → List MpuPartRecord → Result ManifestError Tally
check_parts chunk_size t [] = ok t
check_parts chunk_size t (p ∷ ps) = check_part chunk_size t p >>= λ u. check_parts chunk_size u ps

abbrev pub no_parts : Tally
no_parts = record { previous = pos 0; total_plain = 0; total_enc = 0 }

-- From the test of the chunk size on.
unfoldable pub check_layout : MultipartManifest → Result ManifestError (Unit {0})
check_layout m = do
  reject (not (ltb_ℤ (pos 0) m.chunk_size) || ltb_ℤ (pos max_chunk_size) m.chunk_size)
      invalid_chunk_size
  t ← check_parts (pos_part m.chunk_size) no_parts m.parts
  reject (not (t.total_plain == pos_part m.total_plain_size)) total_mismatch

unfoldable pub validate_layout : MultipartManifest → Result ManifestError (Unit {0})
validate_layout m = do
  reject (ltb_ℤ m.total_plain_size (pos 0) || ltb 10000 (length m.parts)) invalid_total
  if length m.parts == 0 && pos_part m.total_plain_size == 0 then ok tt else check_layout m

pub record PartChunk : Type 0 where
  pub part_idx : ℕ
  pub chunk_idx : ℕ
  pub intra_chunk : ℕ

-- The loop of PlainOffsetToPartChunk, from part `i` on, with `cum` bytes in the parts before it.
unfoldable pub locate : ℕ → ℕ → ℕ → ℕ → List MpuPartRecord → Result ManifestError PartChunk
locate chunk_size offset cum i [] = err offset_out_of_range
locate chunk_size offset cum i (p ∷ ps) =
    let rest = locate chunk_size offset (cum + pos_part p.plain_len) (i + 1) ps in
    let rel = offset - cum in
    if ltb offset (cum + pos_part p.plain_len)
    then (do
      reject (ltb max_int32 (rel / chunk_size)) chunk_index_overflow
      ok (record { part_idx = i; chunk_idx = rel / chunk_size; intra_chunk = rel % chunk_size }))
    else rest

unfoldable pub plain_offset_to_part_chunk : MultipartManifest → ℤ → Result ManifestError PartChunk
plain_offset_to_part_chunk m offset = do
  validate_layout m
  reject (ltb_ℤ offset (pos 0) || not (ltb_ℤ offset m.total_plain_size)) offset_out_of_range
  locate (pos_part m.chunk_size) (pos_part offset) 0 0 m.parts

-- The backend bytes of the first parts.
unfoldable pub enc_before : ℕ → List MpuPartRecord → ℕ
enc_before zero ps = 0
enc_before (suc n) [] = 0
enc_before (suc n) (p ∷ ps) = pos_part p.enc_len + enc_before n ps

unfoldable pub chunk_offset :
    MultipartManifest → ℕ → ℕ → Option MpuPartRecord → Result ManifestError ℕ
chunk_offset m part_idx chunk_idx none = err part_out_of_range
chunk_offset m part_idx chunk_idx (some p) = do
  reject (not (ltb_ℤ (pos chunk_idx) p.chunk_count)) chunk_out_of_range
  ok (enc_before part_idx m.parts + chunk_idx * (pos_part m.chunk_size + mpu_aead_tag_size))

unfoldable pub enc_offset_for_part_chunk : MultipartManifest → ℤ → ℤ → Result ManifestError ℕ
unfolding chunk_offset
enc_offset_for_part_chunk m part_idx chunk_idx = do
  validate_layout m
  reject (ltb_ℤ part_idx (pos 0) || leb (length m.parts) (pos_part part_idx)) part_out_of_range
  reject (ltb_ℤ chunk_idx (pos 0)) chunk_out_of_range
  chunk_offset m (pos_part part_idx) (pos_part chunk_idx) (get_elem? m.parts (pos_part part_idx))

pub record MpuRangeResult : Type 0 where
  pub enc_start : ℕ
  pub enc_end : ℕ
  pub part_start_idx : ℕ
  pub chunk_start : ℕ
  pub part_end_idx : ℕ
  pub chunk_end : ℕ

-- The last byte of chunk `chunk_idx` of a part that starts at `off`.
end_in_part : ℕ → ℕ → ℕ → Option MpuPartRecord → ℕ
end_in_part chunk_size off chunk_idx none = 0
end_in_part chunk_size off chunk_idx (some p) =
    if chunk_idx + 1 == pos_part p.chunk_count
    then off + pos_part p.enc_len - 1
    else off + (chunk_idx + 1) * (chunk_size + mpu_aead_tag_size) - 1

unfoldable pub enc_range_for_plaintext_range :
    MultipartManifest → ℤ → ℤ → Result ManifestError MpuRangeResult
unfolding end_in_part
enc_range_for_plaintext_range m p_start p_end = do
  validate_layout m
  reject (ltb_ℤ p_start (pos 0) || (ltb_ℤ p_end p_start || not (ltb_ℤ p_end m.total_plain_size)))
      range_out_of_range
  a ← plain_offset_to_part_chunk m p_start
  b ← plain_offset_to_part_chunk m p_end
  let cs = pos_part m.chunk_size
  ok (record {
    enc_start = enc_before a.part_idx m.parts + a.chunk_idx * (cs + mpu_aead_tag_size);
    enc_end =
        end_in_part cs (enc_before b.part_idx m.parts) b.chunk_idx (get_elem? m.parts b.part_idx);
    part_start_idx = a.part_idx;
    chunk_start = a.chunk_idx;
    part_end_idx = b.part_idx;
    chunk_end = b.chunk_idx;
  })
