-- ===== src/Part/Opened.antt =====
-- The decryption of a run of chunks: it returns what was sealed, and only that.
use mathlib.Core.List.{append-nil}
use s3_encryption_gateway.Prelude.{
  ℕ, zero, suc, ◌+◌, ◌≤◌, ◌<◌, false, [], ◌∷◌, ◌++◌, leb, ◌==◌, Bytes, length, take, drop, ok, ◌≡◌,
  refl, sym, ap, ◌∙◌, inl, inr, arith, Bool-cases, Option-cases, Result-cases, length-append,
  length-take, length-drop, take-append-drop, take_append, drop_append, take_all, drop_all,
  reject_passed, bind_passed, ok-injective, ==→≡,
}
use s3_encryption_gateway.Aad.Encoding.{AreBytes}
use s3_encryption_gateway.Chunk.{tag_size}
use s3_encryption_gateway.Manifest.{max_int32}
use s3_encryption_gateway.Stream.Config.{IsAead}
use s3_encryption_gateway.Stream.Decrypt.Total.{AreBytes_front}
use s3_encryption_gateway.Part.{
  PartConfig, overflow, derive_multipart_iv, chunk_aad, open_chunk, open_chunks,
}
use s3_encryption_gateway.Part.Format.{IsChunk, IsPart, no_more, last, chunk, length-chunk}

pub nil_of_length : (xs : Bytes) → length xs ≡ 0 → xs ≡ []
nil_of_length [] h = refl
nil_of_length (x ∷ xs) h = absurd (omega arith)

module _ (cfg : PartConfig) (laws : IsAead cfg.aead) where
  open_chunk_total :
      (index : ℕ) (text sealed : Bytes)
      → IsChunk cfg index text sealed
      → AreBytes text
      → open_chunk cfg index sealed ≡ ok text
  unfolding open_chunk chunk_aad derive_multipart_iv
  open_chunk_total index text sealed i b =
      rw (i.aad_is, i.sealed_is, laws.unseal-seal (derive_multipart_iv cfg index) text i.aad b) refl

  open_chunk_inv :
      (index : ℕ) (text sealed : Bytes)
      → index < max_int32
      → open_chunk cfg index sealed ≡ ok text
      → IsChunk cfg index text sealed
  unfolding open_chunk chunk_aad derive_multipart_iv
  open_chunk_inv index text sealed r e = elim (Result-cases (chunk_aad cfg index)) [
    | inl (aad, a) ↦
        elim (Option-cases (cfg.aead.unseal (derive_multipart_iv cfg index) sealed aad)) [
          | inl f ↦ absurd (ground arith)
          | inr (plain, f) ↦
              let same : plain ≡ text = ok-injective (rw (a, f) at e) in
              record {
                aad = aad;
                aad_is = a;
                sealed_is =
                    rw (sym same)
                      (laws.seal_of_unseal (derive_multipart_iv cfg index) sealed aad plain f);
                in_range = r;
              }
        ]
    | inr (x, a) ↦ absurd (ground arith)
  ]

  open_chunks-nil : (fuel index : ℕ) → open_chunks fuel cfg index [] ≡ ok []
  unfolding open_chunks
  open_chunks-nil zero index = refl
  open_chunks-nil (suc fuel) index = refl

  -- One round on a chunk and what follows it.
  open_chunks_round :
      (fuel index : ℕ) (sealed text out : Bytes)
      → 0 < length sealed
      → index < max_int32
      → open_chunk cfg index (take (cfg.chunk_size + tag_size) sealed) ≡ ok text
      → open_chunks fuel cfg (index + 1) (drop (cfg.chunk_size + tag_size) sealed) ≡ ok out
      → open_chunks (suc fuel) cfg index sealed ≡ ok (text ++ out)
  unfolding open_chunks
  open_chunks_round fuel index sealed text out h r e f =
      let some_left : (length sealed == 0) ≡ false = ground arith in
      let below : leb max_int32 index ≡ false = ground arith in rw (some_left, below, e, f) refl

  pub open_chunks_total :
      (fuel : ℕ) {index : ℕ} {text sealed : Bytes}
      → IsPart cfg 1 index text sealed
      → 0 < cfg.chunk_size
      → AreBytes text
      → length sealed ≤ fuel
      → open_chunks fuel cfg index sealed ≡ ok text
  open_chunks_total fuel {index} (no_more e f) pos b h = rw (e, f) (open_chunks-nil fuel index)
  open_chunks_total zero (last i s m) pos b h = absurd (omega (arith, length-chunk cfg laws i))
  open_chunks_total (suc fuel) {index} {text} {sealed} (last i s m) pos b h =
      let l = length-chunk cfg laws i in
      rw (sym (append-nil text)) (
        open_chunks_round fuel index sealed text [] (omega arith) i.in_range
          (rw (take_all (cfg.chunk_size + tag_size) sealed (omega arith))
            (open_chunk_total index text sealed i b))
          (rw (drop_all (cfg.chunk_size + tag_size) sealed (omega arith))
            (open_chunks-nil fuel (index + 1))))
  open_chunks_total zero (chunk part piece text_rest sealed_rest i l s e f) pos b h = absurd (
      omega
        (arith, length-chunk cfg laws i, ap (length {A = ℕ}) f, length-append piece sealed_rest))
  open_chunks_total (suc fuel) {index} {text} {sealed}
        (chunk part piece text_rest sealed_rest i l s e f) pos b h =
      let n = length-chunk cfg laws i in
      let c = AreBytes_front part text_rest (rw (sym e) b) in
      let k = length-append piece sealed_rest in
      rw (e, f)
        (open_chunks_round fuel index (piece ++ sealed_rest) part text_rest (omega arith) i.in_range
          (rw (take_append (cfg.chunk_size + tag_size) piece sealed_rest (omega arith))
            (open_chunk_total index part piece i c.0))
          (rw (drop_append (cfg.chunk_size + tag_size) piece sealed_rest (omega arith))
            (open_chunks_total fuel s pos c.1 (omega (arith, ap (length {A = ℕ}) f)))))

  -- What is returned is what the ciphertext seals, whatever it is.
  pub open_chunks-IsPart :
      (fuel index : ℕ) (sealed text : Bytes)
      → length sealed ≤ fuel
      → open_chunks fuel cfg index sealed ≡ ok text
      → IsPart cfg 0 index text sealed
  unfolding open_chunks
  open_chunks-IsPart zero index sealed text h e =
      no_more (sym (ok-injective e)) (nil_of_length sealed (omega arith))
  open_chunks-IsPart (suc fuel) index sealed text h e = elim (Bool-cases (length sealed == 0)) [
    | inl none_left ↦
        no_more (sym (ok-injective (rw none_left at e))) (nil_of_length sealed (==→≡ _ _ none_left))
    | inr some_left ↦
        let n = cfg.chunk_size + tag_size in
        let (below, e₁) = reject_passed (leb max_int32 index) overflow _ (rw some_left at e) in
        let (plain, p, e₂) = bind_passed (open_chunk cfg index (take n sealed)) _ e₁ in
        let (out, q, e₃) = bind_passed (open_chunks fuel cfg (index + 1) (drop n sealed)) _ e₂ in
        let i = open_chunk_inv index plain (take n sealed) (ground arith) p in
        let l = length-chunk cfg laws i in
        let k = length-take n sealed in
        let t : plain ++ out ≡ text = ok-injective e₃ in
        elim (Bool-cases (leb (length sealed) n)) [
          | inl all ↦
              let nothing : out ≡ [] = ok-injective (
                sym q
                ∙ ap (open_chunks fuel cfg (index + 1)) (drop_all n sealed (ground arith))
                ∙ open_chunks-nil fuel (index + 1)) in
              rw (sym t, nothing, append-nil plain)
                (last (rw (take_all n sealed (ground arith)) at i) (omega arith) (omega arith))
          | inr more ↦
              chunk plain (take n sealed) out (drop n sealed) i (ground arith)
                (open_chunks-IsPart fuel (index + 1) (drop n sealed) out
                  (omega (arith, length-drop n sealed)) q)
                (sym t) (sym (take-append-drop n sealed))
        ]
  ]
