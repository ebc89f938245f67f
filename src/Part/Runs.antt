-- ===== src/Part/Runs.antt =====
-- A run of chunks out of the middle of a part.
use mathlib.Core.Path.{subst}
use s3_encryption_gateway.Prelude.{
  ℕ, zero, suc, ◌+◌, ◌*◌, ◌≤◌, ◌<◌, [], some, Bytes, length, take, drop, ok, ◌≡◌, refl, sym, ap,
  ◌∙◌, arith, take_all, drop_all, take_past, drop_past, pos, take-append-drop,
}
use s3_encryption_gateway.Aad.{validate}
use s3_encryption_gateway.Aad.Encoding.{AreBytes}
use s3_encryption_gateway.Chunk.{tag_size, max_chunk_size}
use s3_encryption_gateway.Stream.Config.{IsAead}
use s3_encryption_gateway.Stream.Decrypt.Total.{AreBytes_front}
use s3_encryption_gateway.Part.{PartConfig, open_chunks, decrypt_mpu_part_range}
use s3_encryption_gateway.Part.Format.{IsPart, no_more, last, chunk, length-chunk}
use s3_encryption_gateway.Part.Opened.{open_chunks_total, open_chunks-IsPart}

take_nil : (n : ℕ) → take {A = ℕ} n [] ≡ []
take_nil n = take_all n [] (omega arith)

drop_nil : (n : ℕ) → drop {A = ℕ} n [] ≡ []
drop_nil n = drop_all n [] (omega arith)

times_zero : (s : ℕ) → 0 * s ≡ 0
times_zero s = omega arith

times_suc : (n s : ℕ) → suc n * s ≡ s + n * s
times_suc n s = grind arith

module _ (cfg : PartConfig) (laws : IsAead cfg.aead) where
  -- The first chunks.
  first_chunks :
      (n : ℕ) {index : ℕ} {text sealed : Bytes}
      → IsPart cfg 1 index text sealed
      → IsPart cfg 1 index
          (take (n * cfg.chunk_size) text)
          (take (n * (cfg.chunk_size + tag_size)) sealed)
  first_chunks zero s =
      rw (times_zero cfg.chunk_size, times_zero (cfg.chunk_size + tag_size)) (no_more refl refl)
  first_chunks (suc n) (no_more e f) = rw (e, f) (no_more (take_nil _) (take_nil _))
  first_chunks (suc n) {index} {text} {sealed} (last i s m) =
      let a = times_suc n cfg.chunk_size in
      let b = times_suc n (cfg.chunk_size + tag_size) in
      rw
        (
          take_all (suc n * cfg.chunk_size) text (omega (arith, a)),
          take_all (suc n * (cfg.chunk_size + tag_size)) sealed
              (omega (arith, b, length-chunk cfg laws i)),
        )
        (last i s m)
  first_chunks (suc n) {index} {text} {sealed} (chunk part piece text_rest sealed_rest i l s e f) =
      chunk part piece (take (n * cfg.chunk_size) text_rest)
        (take (n * (cfg.chunk_size + tag_size)) sealed_rest) i l (first_chunks n s)
        (ap (take (suc n * cfg.chunk_size)) e
          ∙ take_past (suc n * cfg.chunk_size) (n * cfg.chunk_size) part text_rest
              (times_suc n cfg.chunk_size ∙ ap (λ k. k + n * cfg.chunk_size) (sym l)))
        (ap (take (suc n * (cfg.chunk_size + tag_size))) f
          ∙ take_past (suc n * (cfg.chunk_size + tag_size)) (n * (cfg.chunk_size + tag_size)) piece
              sealed_rest
              (omega (arith, times_suc n (cfg.chunk_size + tag_size), length-chunk cfg laws i)))

  -- The chunks from the `n`th on.
  later_chunks :
      (n : ℕ) {index : ℕ} {text sealed : Bytes}
      → IsPart cfg 1 index text sealed
      → IsPart cfg 1
          (index + n)
          (drop (n * cfg.chunk_size) text)
          (drop (n * (cfg.chunk_size + tag_size)) sealed)
  later_chunks zero {index} s =
      let e : index + 0 ≡ index = omega arith in
      rw (times_zero cfg.chunk_size, times_zero (cfg.chunk_size + tag_size), e) s
  later_chunks (suc n) (no_more e f) = rw (e, f) (no_more (drop_nil _) (drop_nil _))
  later_chunks (suc n) {index} {text} {sealed} (last i s m) =
      let a = times_suc n cfg.chunk_size in
      let b = times_suc n (cfg.chunk_size + tag_size) in
      no_more (drop_all (suc n * cfg.chunk_size) text (omega (arith, a))) (
        drop_all (suc n * (cfg.chunk_size + tag_size)) sealed
          (omega (arith, b, length-chunk cfg laws i)))
  later_chunks (suc n) {index} {text} {sealed} (chunk part piece text_rest sealed_rest i l s e f) =
      let j : index + 1 + n ≡ index + suc n = omega arith in
      let t : drop (n * cfg.chunk_size) text_rest ≡ drop (suc n * cfg.chunk_size) text = sym (
        ap (drop (suc n * cfg.chunk_size)) e
        ∙ drop_past (suc n * cfg.chunk_size) (n * cfg.chunk_size) part text_rest
            (times_suc n cfg.chunk_size ∙ ap (λ k. k + n * cfg.chunk_size) (sym l))) in
      let c : drop (n * (cfg.chunk_size + tag_size)) sealed_rest
          ≡ drop (suc n * (cfg.chunk_size + tag_size)) sealed =
        sym (
          ap (drop (suc n * (cfg.chunk_size + tag_size))) f
          ∙ drop_past (suc n * (cfg.chunk_size + tag_size)) (n * (cfg.chunk_size + tag_size)) piece
              sealed_rest
              (omega (arith, times_suc n (cfg.chunk_size + tag_size), length-chunk cfg laws i))) in
      subst
        (λ k.
          IsPart cfg 1 k (drop (suc n * cfg.chunk_size) text)
            (drop (suc n * (cfg.chunk_size + tag_size)) sealed))
        j
        (subst
          (λ x. IsPart cfg 1 (index + 1 + n) x (drop (suc n * (cfg.chunk_size + tag_size)) sealed))
          t
          (subst (λ x. IsPart cfg 1 (index + 1 + n) (drop (n * cfg.chunk_size) text_rest) x) c
            (later_chunks n s)))

  AreBytes_slice : (m n : ℕ) (bs : Bytes) → AreBytes bs → AreBytes (take m (drop n bs))
  AreBytes_slice m n bs h =
      let a = AreBytes_front (take n bs) (drop n bs) (rw (take-append-drop n bs) h) in
      (AreBytes_front (take m (drop n bs)) (drop m (drop n bs))
        (rw (take-append-drop m (drop n bs)) a.1)).0

  module _ (valid : validate cfg.object ≡ ok tt) (first_part : 0 < cfg.part_number)
      (last_part : cfg.part_number ≤ 10000) (some_size : 0 < cfg.chunk_size)
      (at_most : cfg.chunk_size ≤ max_chunk_size) where
    decrypt_mpu_part_range-eq :
        (k : ℕ) (sealed : Bytes)
        → decrypt_mpu_part_range cfg sealed
            (pos cfg.part_number)
            (pos cfg.chunk_size)
            (pos k)
            (some cfg.aead)
          ≡ open_chunks (length sealed) cfg k sealed
    unfolding decrypt_mpu_part_range
    decrypt_mpu_part_range-eq k sealed = rw valid (ground arith)

    -- Of the ciphertext of a part, `n` chunks from chunk `k` on (fewer where the part ends before)
    -- are decrypted to just the plaintext of those chunks. The object and the part number are
    -- valid, the chunk size is positive and allowed, and the cipher keeps its documented laws.
    pub decrypt_mpu_part_range-IsPart :
        (k n : ℕ) (text sealed : Bytes)
        → IsPart cfg 1 0 text sealed
        → AreBytes text
        → decrypt_mpu_part_range cfg
            (take (n * (cfg.chunk_size + tag_size)) (drop (k * (cfg.chunk_size + tag_size)) sealed))
            (pos cfg.part_number)
            (pos cfg.chunk_size)
            (pos k)
            (some cfg.aead)
          ≡ ok (take (n * cfg.chunk_size) (drop (k * cfg.chunk_size) text))
    decrypt_mpu_part_range-IsPart k n text sealed s b =
        let e : 0 + k ≡ k = omega arith in
        let from_k : IsPart cfg 1 k (drop (k * cfg.chunk_size) text)
            (drop (k * (cfg.chunk_size + tag_size)) sealed) =
          rw e at (later_chunks k s) in
        decrypt_mpu_part_range-eq k _
        ∙ open_chunks_total cfg laws _ (first_chunks n from_k) some_size
            (AreBytes_slice (n * cfg.chunk_size) (k * cfg.chunk_size) text b) (omega arith)

    -- Whatever ciphertext is decrypted from chunk `k` on with no error: it is what sealing the
    -- returned plaintext gives, each chunk under the nonce and the additional data of its own index, of
    -- the part and, for a bound part, of the object.
    pub decrypt_mpu_part_range_inv :
        (k : ℕ) (sealed text : Bytes)
        → decrypt_mpu_part_range cfg sealed
            (pos cfg.part_number)
            (pos cfg.chunk_size)
            (pos k)
            (some cfg.aead)
          ≡ ok text
        → IsPart cfg 0 k text sealed
    decrypt_mpu_part_range_inv k sealed text e =
        open_chunks-IsPart cfg laws (length sealed) k sealed text (omega arith)
          (sym (decrypt_mpu_part_range-eq k sealed) ∙ e)
