-- ===== src/Part/Format.antt =====
-- The ciphertext of a part: its chunks in order, each sealed under its own index.
use s3_encryption_gateway.Prelude.{
  ℕ, ◌+◌, ◌*◌, ◌≤◌, ◌<◌, [], ◌∷◌, if◌then◌else◌, ◌++◌, Bytes, length, ok, ◌≡◌, ap, ◌∙◌, arith,
  length-append,
}
use native.Mathlib.Nat.{div-add-mod', mod-lt}
use s3_encryption_gateway.Chunk.{tag_size}
use s3_encryption_gateway.Chunk.Count.{IsCount, IsCount-unique}
use s3_encryption_gateway.Manifest.{max_int32, part_chunks}
use s3_encryption_gateway.Stream.Config.{IsAead}
use s3_encryption_gateway.Part.{PartConfig, derive_multipart_iv}
use s3_encryption_gateway.Aad.{mpu_v2_chunk, build_object_aad}
use s3_encryption_gateway.Aad.Encoding.{big_endian}

-- Sealed under a nonce from the prefix, the part number and the chunk's index, and, for a bound part,
-- with the object, the binding, the part number and the index as additional data.
pub record IsChunk (cfg : PartConfig) (chunk_index : ℕ) (text sealed : Bytes) : Type 0 where
  pub aad : Bytes
  pub aad_is :
      (if cfg.is_bound
        then build_object_aad mpu_v2_chunk cfg.object cfg.binding_id
            (cfg.part_number ∷ chunk_index ∷ [])
        else ok [])
      ≡ ok aad
  pub sealed_is :
      sealed
      ≡ cfg.aead.seal
          (cfg.derive cfg.dek cfg.upload_id_hash
            (cfg.iv_prefix ++ (big_endian 4 cfg.part_number ++ big_endian 4 chunk_index))
            12)
          text
          aad
  pub in_range : chunk_index < max_int32

-- From chunk `chunk_index` on: every chunk but the last holds `chunk_size` bytes, and the last at
-- least `least`.
pub data IsPart (cfg : PartConfig) (least : ℕ) : ℕ → Bytes → Bytes → Type 0 where
  no_more :
      {chunk_index : ℕ} {text sealed : Bytes}
      → text ≡ []
      → sealed ≡ []
      → IsPart cfg least chunk_index text sealed
  last :
      {chunk_index : ℕ} {text sealed : Bytes}
      → IsChunk cfg chunk_index text sealed
      → least ≤ length text
      → length text ≤ cfg.chunk_size
      → IsPart cfg least chunk_index text sealed
  chunk :
      {chunk_index : ℕ} {text sealed : Bytes} (part piece text_rest sealed_rest : Bytes)
      → IsChunk cfg chunk_index part piece
      → length part ≡ cfg.chunk_size
      → IsPart cfg least (chunk_index + 1) text_rest sealed_rest
      → text ≡ part ++ text_rest
      → sealed ≡ piece ++ sealed_rest
      → IsPart cfg least chunk_index text sealed

pub part_chunks-IsCount : (s p : ℕ) → 0 < s → IsCount p s (part_chunks s p)
unfolding part_chunks
part_chunks-IsCount s p h = grind (arith, div-add-mod' p s, mod-lt p {m = s} h)

module _ (cfg : PartConfig) (laws : IsAead cfg.aead) where
  pub length-chunk :
      {index : ℕ} {text sealed : Bytes}
      → IsChunk cfg index text sealed
      → length sealed ≡ length text + tag_size
  unfolding derive_multipart_iv
  length-chunk {index} {text} i =
      ap (length {A = ℕ}) i.sealed_is ∙ laws.length-seal (derive_multipart_iv cfg index) text i.aad

  record Amount (text sealed : Bytes) : Type 0 where
    chunks : ℕ
    is_count : IsCount (length text) cfg.chunk_size chunks
    total : length sealed ≡ length text + chunks * tag_size

  step-IsCount :
      (p r k : ℕ)
      → IsCount r cfg.chunk_size k
      → p ≡ cfg.chunk_size + r
      → IsCount p cfg.chunk_size (k + 1)
  step-IsCount p r k c e =
      let m : (k + 1) * cfg.chunk_size ≡ k * cfg.chunk_size + cfg.chunk_size = grind arith in
      record { enough = omega (arith, c.enough, m); no_more = omega (arith, c.no_more, m) }

  IsPart-Amount :
      {index : ℕ} {text sealed : Bytes}
      → 0 < cfg.chunk_size
      → IsPart cfg 1 index text sealed
      → Amount text sealed
  IsPart-Amount pos (no_more e f) = record {
    chunks = 0;
    is_count = record { enough = omega (arith, ap (length {A = ℕ}) e); no_more = omega arith };
    total = omega (arith, ap (length {A = ℕ}) e, ap (length {A = ℕ}) f);
  }
  IsPart-Amount pos (last i s m) = record {
    chunks = 1;
    is_count = record { enough = omega arith; no_more = omega arith };
    total = omega (arith, length-chunk i);
  }
  IsPart-Amount {text} pos (chunk part piece text_rest sealed_rest i l s e f) =
      let a = IsPart-Amount pos s in
      let p : length text ≡ cfg.chunk_size + length text_rest =
        omega (arith, ap (length {A = ℕ}) e, length-append part text_rest) in
      record {
        chunks = a.chunks + 1;
        is_count = step-IsCount (length text) (length text_rest) a.chunks a.is_count p;
        total = omega (
          arith,
          a.total,
          ap (length {A = ℕ}) f,
          length-append piece sealed_rest,
          length-chunk i,
        );
      }

  -- The ciphertext is as long as the encrypting reader announces.
  pub length-IsPart :
      {index : ℕ} {text sealed : Bytes}
      → 0 < cfg.chunk_size
      → IsPart cfg 1 index text sealed
      → length sealed ≡ length text + part_chunks cfg.chunk_size (length text) * tag_size
  length-IsPart {text} pos s =
      let a = IsPart-Amount pos s in
      a.total
      ∙ ap (λ k. length text + k * tag_size)
          (IsCount-unique (length text) cfg.chunk_size a.chunks
            (part_chunks cfg.chunk_size (length text)) a.is_count
            (part_chunks-IsCount cfg.chunk_size (length text) pos))
