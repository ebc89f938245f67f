-- ===== src/Part/Sealed.antt =====
-- The encrypting reader of a part, over a source with the declared number of bytes.
use mathlib.Core.List.{append-nil}
use s3_encryption_gateway.Prelude.{
  ℕ, ◌+◌, ◌<◌, false, [], ◌++◌, none, leb, ◌==◌, min, Bytes, length, ◌≡◌, refl, sym, ap, ◌∙◌, inl,
  inr, arith, Bool-cases, length-append,
}
use s3_encryption_gateway.Aad.Encoding.{append_split}
use s3_encryption_gateway.Manifest.{max_int32}
use s3_encryption_gateway.Stream.Source.{Source, full, read_full, read_full-parts}
use s3_encryption_gateway.Stream.Loop.Total.{Owes}
use s3_encryption_gateway.Part.{
  PartConfig, PartState, PartReader, take_text, extra_byte, part_fill, derive_multipart_iv,
  chunk_aad,
}
use s3_encryption_gateway.Part.Opened.{nil_of_length}
use s3_encryption_gateway.Part.Format.{IsChunk, IsPart, no_more, last, chunk}

module _ (cfg : PartConfig) where
  -- The chunk in front of a text that is not empty.
  record Front (index : ℕ) (text sealed : Bytes) : Type 0 where
    part : Bytes
    piece : Bytes
    text_rest : Bytes
    sealed_rest : Bytes
    is_chunk : IsChunk cfg index part piece
    amount : length part ≡ min cfg.chunk_size (length text)
    goes_on : IsPart cfg 1 (index + 1) text_rest sealed_rest
    text_is : text ≡ part ++ text_rest
    sealed_is : sealed ≡ piece ++ sealed_rest

  Front-of :
      {index : ℕ} {text sealed : Bytes}
      → 0 < length text
      → IsPart cfg 1 index text sealed
      → Front index text sealed
  Front-of h (no_more e f) = absurd (omega (arith, ap (length {A = ℕ}) e))
  Front-of {text} {sealed} h (last i s m) = record {
    part = text;
    piece = sealed;
    text_rest = [];
    sealed_rest = [];
    is_chunk = i;
    amount = omega arith;
    goes_on = no_more refl refl;
    text_is = sym (append-nil text);
    sealed_is = sym (append-nil sealed);
  }
  Front-of h (chunk front piece text_rest sealed_rest i l s e f) = record {
    part = front;
    piece = piece;
    text_rest = text_rest;
    sealed_rest = sealed_rest;
    is_chunk = i;
    amount = omega (arith, ap (length {A = ℕ}) e, length-append front text_rest);
    goes_on = s;
    text_is = e;
    sealed_is = f;
  }

  pub nothing_sealed :
      {index : ℕ} {text sealed : Bytes}
      → 0 < cfg.chunk_size
      → length text ≡ 0
      → IsPart cfg 1 index text sealed
      → sealed ≡ []
  nothing_sealed pos h (no_more e f) = f
  nothing_sealed pos h (last i s m) = absurd (omega arith)
  nothing_sealed pos h (chunk front piece text_rest sealed_rest i l s e f) =
      absurd (omega (arith, ap (length {A = ℕ}) e, length-append front text_rest))

  -- The source has exactly the bytes that are still required, and their ciphertext is `t`.
  pub record Ready (s : PartState) (t : Bytes) : Type 0 where
    pub no_fault : s.source.fault ≡ none
    pub exact : s.remaining ≡ length s.source.bytes
    pub seals : IsPart cfg 1 s.chunk_idx s.source.bytes t

  ended :
      (r : PartReader) (t : Bytes)
      → r.pending ≡ []
      → r.error ≡ none
      → r.inner.source.fault ≡ none
      → r.inner.source.bytes ≡ []
      → t ≡ []
      → let got = read_full 1 r.inner.source in
        Owes Ready
          (extra_byte
            (record r { inner = record r.inner { source = got.source } })
            got.bytes
            got.result)
          t
  unfolding extra_byte read_full
  ended r t empty fine f e n =
      rw (e, f)
        (record {
          fine = fine;
          later = [];
          splits = rw (n, empty) refl;
          at_end = λ d. refl;
          before_end = λ d. absurd (ground arith);
        })

  taken :
      (r : PartReader) (t text rest : Bytes) (s : Source)
      → r.done ≡ false
      → r.error ≡ none
      → s.fault ≡ none
      → (f : Front r.inner.chunk_idx (text ++ rest) t) → text ≡ f.part
      → rest ≡ f.text_rest
      → s.bytes ≡ rest
      → r.inner.remaining ≡ length (text ++ rest)
      → Owes Ready (take_text cfg (record r { inner = record r.inner { source = s } }) text full) t
  unfolding take_text chunk_aad derive_multipart_iv
  taken r t text rest s going fine h f e g b k = rw (f.is_chunk.aad_is) (record {
    fine = fine;
    later = f.sealed_rest;
    splits =
        f.sealed_is
        ∙ ap (λ x. x ++ f.sealed_rest)
            (f.is_chunk.sealed_is
              ∙ ap (λ x. cfg.aead.seal (derive_multipart_iv cfg r.inner.chunk_idx) x f.is_chunk.aad)
                  (sym e));
    at_end = λ d. cc;
    before_end = λ d. record {
      no_fault = h;
      exact = omega (arith, k, length-append text rest, ap (length {A = ℕ}) b);
      seals = rw (b, g) f.goes_on;
    };
  })

  module _ (pos : 0 < cfg.chunk_size) where
    pub part_total_step :
        (r : PartReader) (t : Bytes)
        → r.pending ≡ []
        → r.done ≡ false
        → r.error ≡ none
        → Ready r.inner t
        → Owes Ready (part_fill cfg r) t
    unfolding part_fill
    part_total_step r t empty going fine w = elim (Bool-cases (r.inner.remaining == 0)) [
      | inl z ↦
          let none_left : length r.inner.source.bytes ≡ 0 = ground (arith, w.exact) in
          rw z (
            ended r t empty fine w.no_fault (nil_of_length r.inner.source.bytes none_left)
              (nothing_sealed pos none_left w.seals))
      | inr z ↦
          let f = Front-of (ground (arith, w.exact)) w.seals in
          let below : leb max_int32 r.inner.chunk_idx ≡ false =
            ground (arith, f.is_chunk.in_range) in
          let size = min cfg.chunk_size r.inner.remaining in
          let got = read_full size r.inner.source in
          let parts = read_full-parts size r.inner.source in
          let whole : (length got.bytes ≡ size) × (got.result ≡ full) = elim parts.amount [
            | inl a ↦ a
            | inr a ↦ absurd (
                omega (
                  arith,
                  w.exact,
                  ap (length {A = ℕ}) parts.splits,
                  length-append got.bytes got.source.bytes,
                  ap (length {A = ℕ}) a.1,
                ))
          ] in
          let cut =
            append_split got.bytes f.part (whole.0 ∙ ap (min cfg.chunk_size) w.exact ∙ sym f.amount)
              (parts.splits ∙ f.text_is) in
          rw (z, below, whole.1)
            (taken r t got.bytes got.source.bytes got.source going fine
              (parts.same_fault ∙ w.no_fault)
              (record {
                part = f.part;
                piece = f.piece;
                text_rest = f.text_rest;
                sealed_rest = f.sealed_rest;
                is_chunk = f.is_chunk;
                amount = f.amount ∙ ap (λ x. min cfg.chunk_size (length x)) (sym parts.splits);
                goes_on = f.goes_on;
                text_is = parts.splits ∙ f.text_is;
                sealed_is = f.sealed_is;
              })
              cut.0 cut.1 refl (w.exact ∙ ap (length {A = ℕ}) (sym parts.splits)))
    ]
