-- ===== src/Tests/Uploads.antt =====
-- A part of ten bytes in chunks of four, with the toy cipher, bound to an object.
use s3_encryption_gateway.Prelude.{
  ℕ, ◌+◌, ◌*◌, ◌≡◌, refl, true, List, [], ◌∷◌, ◌++◌, none, some, replicate, length,
  length-replicate, take, drop, ok, pos, arith, inr,
}
use s3_encryption_gateway.Prelude.{Bytes, Result, err}
use s3_encryption_gateway.Part.{chunk_aad}
use s3_encryption_gateway.Part.Identity.{chunk_aad-identity}
use s3_encryption_gateway.Aad.{
  AadError, build_object_aad, validate, write_length_prefixed, domain_bytes,
}
use s3_encryption_gateway.Aad.Encoding.{AreBytes}
use s3_encryption_gateway.Manifest.{part_chunks}
use s3_encryption_gateway.Stream.Source.{Source}
use s3_encryption_gateway.Stream.Loop.{eof}
use s3_encryption_gateway.Stream.Loop.Drain.{drain, ArePositive-replicate}
use s3_encryption_gateway.Part.{
  PartConfig, part_read, new_part_reader, part_enc_len, decrypt_mpu_part_range,
}
use s3_encryption_gateway.Part.Format.{IsPart}
use s3_encryption_gateway.Part.Runs.{decrypt_mpu_part_range_inv}
use s3_encryption_gateway.Part.RoundTrip.{decrypt_mpu_part_range-part_drain}
use s3_encryption_gateway.Part.Declared.{drain-IsPart}
use s3_encryption_gateway.Tests.Toy.{toy, toy-IsAead}

abbrev toy_part : PartConfig
toy_part = record {
  aead = toy;
  derive = λ key salt info n. take n (info ++ (key ++ salt));
  dek = replicate 32 5;
  upload_id_hash = replicate 32 9;
  iv_prefix = replicate 12 1;
  part_number = 3;
  chunk_size = 4;
  object = record { bucket = b'b' ∷ b'u' ∷ b'c' ∷ []; key = b'k' ∷ [] };
  binding_id = replicate 16 2;
  is_bound = true;
}

abbrev upload : Source
upload = record { bytes = 1 ∷ 2 ∷ 3 ∷ 4 ∷ 5 ∷ 6 ∷ 7 ∷ 8 ∷ 9 ∷ 10 ∷ []; fault = none; polls = [] }

upload-AreBytes : AreBytes upload.bytes
upload-AreBytes = (
  omega arith,
  (
    omega arith,
    (
      omega arith,
      (
        omega arith,
        (
          omega arith,
          (omega arith, (omega arith, (omega arith, (omega arith, (omega arith, tt))))),
        ),
      ),
    ),
  ),
)

enc_len : part_enc_len toy_part.object (pos 3) (pos 4) (pos 10) (some toy) ≡ ok 58
unfolding part_enc_len validate part_chunks
enc_len = refl

-- The second chunk alone.
decrypt_mpu_part_range-part_drain_example :
    let stored = drain (part_read toy_part) (replicate 59 7) (new_part_reader upload 10) in
    (stored.1 ≡ eof)
    × (length stored.0 ≡ 58)
    × (decrypt_mpu_part_range toy_part
          (take (1 * (4 + 16)) (drop (1 * (4 + 16)) stored.0))
          (pos 3)
          (pos 4)
          (pos 1)
          (some toy)
        ≡ ok (take (1 * 4) (drop (1 * 4) upload.bytes)))
decrypt_mpu_part_range-part_drain_example =
    decrypt_mpu_part_range-part_drain toy_part (omega arith) toy-IsAead (inr refl) upload 58 1 1
      (replicate 59 7) enc_len refl upload-AreBytes (ArePositive-replicate 59 7 (omega arith))
      (omega (arith, length-replicate {A = ℕ} 59 7))

abbrev stored : List ℕ
stored = (drain (part_read toy_part) (replicate 59 7) (new_part_reader upload 10)).0

valid : validate toy_part.object ≡ ok tt
unfolding validate
valid = refl

decrypt_mpu_part_range_inv_example :
    IsPart toy_part 0 1
      (take (1 * 4) (drop (1 * 4) upload.bytes))
      (take (1 * (4 + 16)) (drop (1 * (4 + 16)) stored))
decrypt_mpu_part_range_inv_example =
    decrypt_mpu_part_range_inv toy_part toy-IsAead valid (omega arith) (omega arith) (omega arith)
      (omega arith) 1 (take (1 * (4 + 16)) (drop (1 * (4 + 16)) stored))
      (take (1 * 4) (drop (1 * 4) upload.bytes)) decrypt_mpu_part_range-part_drain_example.2

drain-IsPart_example : (10 ≡ length upload.bytes) × IsPart toy_part 1 0 upload.bytes stored
drain-IsPart_example =
    drain-IsPart toy_part (omega arith) (replicate 59 7) upload 10
      (ArePositive-replicate 59 7 (omega arith)) decrypt_mpu_part_range-part_drain_example.0

abbrev bytes_of : Result AadError Bytes → Bytes
bytes_of (ok bs) = bs
bytes_of (err e) = []

abbrev aad : Bytes
aad = bytes_of (chunk_aad toy_part 1)

aad_run : chunk_aad toy_part 1 ≡ ok aad
unfolding chunk_aad build_object_aad validate write_length_prefixed domain_bytes
aad_run = refl

chunk_aad-identity_example :
    (toy_part.object ≡ toy_part.object)
    × (toy_part.binding_id ≡ toy_part.binding_id)
    × (toy_part.part_number ≡ 3)
    × (◌≡◌ {A = ℕ} 1 1)
chunk_aad-identity_example =
    chunk_aad-identity toy_part toy_part 1 1 aad refl refl (omega arith) (omega arith) (omega arith)
      (omega arith) aad_run aad_run
