-- ===== src/Stream/RoundTrip.antt =====
-- The two readers one after the other.
use s3_encryption_gateway.Prelude.{
  ℕ, zero, suc, ◌+◌, ◌*◌, ◌≤◌, ◌<◌, Bool, List, [], ◌∷◌, ◌++◌, none, some, ltb, Bytes, length, take,
  drop, wrap64, max_uint64, ◌≡◌, refl, sym, ap, ◌∙◌, inl, inr, arith, Bool-cases, length-append,
  length-take, length-drop, take-append-drop, ltb→lt, ltb→le,
}
use s3_encryption_gateway.Aad.Encoding.{AreBytes}
use s3_encryption_gateway.Chunk.{v2}
use s3_encryption_gateway.Chunk.Count.{IsCount, IsCount-unique, record_count, record_count-IsCount}
use s3_encryption_gateway.Chunk.Sizes.{ciphertext_size}
use s3_encryption_gateway.Stream.Config.{Aead, ReaderConfig, encode_chunked_terminal}
use s3_encryption_gateway.Stream.Params.{IsBound, record_params_total, terminal_params_total}
use s3_encryption_gateway.Stream.Format.{IsRecord, IsTerminal, present, Seals, finish, last, chunk}
use s3_encryption_gateway.Stream.Format.Amounts.{length-record, length-terminal}
use s3_encryption_gateway.Stream.Source.{Source}
use s3_encryption_gateway.Stream.Source.Healthy.{IsHealthy, IsCalm}
use s3_encryption_gateway.Stream.Loop.{eof}
use s3_encryption_gateway.Stream.Loop.Drain.{drain, ArePositive}
use s3_encryption_gateway.Stream.Encrypt.{encrypt_read, new_encrypt_reader}
use s3_encryption_gateway.Stream.Encrypt.Total.{encrypt_drain_total}
use s3_encryption_gateway.Stream.Decrypt.{decrypt_read, new_decrypt_reader}
use s3_encryption_gateway.Stream.Decrypt.Sound.{AreAeads}
use s3_encryption_gateway.Stream.Decrypt.Total.Read.{decrypt_drain_total}

module _ (cfg : ReaderConfig) (laws : AreAeads cfg) (v : cfg.version ≡ v2)
    (pos : 0 < cfg.chunk_size) where
  -- The records of a text and the length of its ciphertext.
  record Amount (text sealed : Bytes) : Type 0 where
    records : ℕ
    is_count : IsCount (length text) cfg.chunk_size records
    total : length sealed ≡ length text + records * 16 + 32

  step-IsCount :
      (p r k : ℕ)
      → IsCount r cfg.chunk_size k
      → p ≡ cfg.chunk_size + r
      → IsCount p cfg.chunk_size (suc k)
  step-IsCount p r k c e =
      let m : suc k * cfg.chunk_size ≡ k * cfg.chunk_size + cfg.chunk_size = grind arith in
      record { enough = omega (arith, c.enough, m); no_more = omega (arith, c.no_more, m) }

  Seals-Amount :
      {index size : ℕ} {text sealed : Bytes}
      → Seals cfg 1 index size text sealed
      → Amount text sealed
  Seals-Amount (finish t) = record {
    records = 0;
    is_count = record { enough = omega arith; no_more = omega arith };
    total = omega (arith, length-terminal cfg laws.data_laws laws.terminal_laws v pos t);
  }
  Seals-Amount (last piece terminal i s m t e) = record {
    records = 1;
    is_count = record { enough = omega arith; no_more = omega arith };
    total = omega (
      arith,
      ap (length {A = ℕ}) e,
      length-append piece terminal,
      length-record cfg laws.data_laws laws.terminal_laws v pos i,
      length-terminal cfg laws.data_laws laws.terminal_laws v pos t,
    );
  }
  Seals-Amount (chunk {text} part piece text_rest sealed_rest i l s e f) =
      let a = Seals-Amount s in
      let p : length text ≡ cfg.chunk_size + length text_rest =
        omega (arith, ap (length {A = ℕ}) e, length-append part text_rest) in
      record {
        records = suc a.records;
        is_count = step-IsCount (length text) (length text_rest) a.records a.is_count p;
        total = omega (
          arith,
          a.total,
          ap (length {A = ℕ}) f,
          length-append piece sealed_rest,
          length-record cfg laws.data_laws laws.terminal_laws v pos i,
        );
      }

  -- A ciphertext has the size that the size equation gives for its plaintext.
  pub Seals-ciphertext_size :
      {text sealed : Bytes}
      → Seals cfg 1 0 0 text sealed
      → length sealed ≡ ciphertext_size (length text) cfg.chunk_size v2
  unfolding ciphertext_size
  Seals-ciphertext_size {text} s =
      let a = Seals-Amount s in
      a.total
      ∙ rw
          (IsCount-unique (length text) cfg.chunk_size a.records
            (record_count (length text) cfg.chunk_size) a.is_count
            (record_count-IsCount (length text) cfg.chunk_size pos))
          refl

  module _ (a : Aead) (has_terminal : cfg.terminal_aead ≡ some a)
      (bound : IsBound cfg.binding) where
    some-IsRecord : (index : ℕ) (text : Bytes) → (piece : Bytes) × IsRecord cfg index text piece
    some-IsRecord index text =
        let (p, e) = record_params_total cfg index v bound in
        (
          cfg.aead.seal p.0 text p.1,
          record { nonce = p.0; aad = p.1; params = e; sealed_is = refl },
        )

    some-IsTerminal : (index size : ℕ) → (sealed : Bytes) × IsTerminal cfg index size sealed
    some-IsTerminal index size =
        let (p, e) = terminal_params_total cfg index size v bound in
        (
          a.seal p.0 (encode_chunked_terminal index size) p.1,
          present a p.0 p.1 v has_terminal e refl,
        )

    -- Every text has a ciphertext.
    pub some_sealed :
        (fuel index size : ℕ) (text : Bytes)
        → length text < fuel
        → (sealed : Bytes) × Seals cfg 1 index size text sealed
    some_sealed zero index size text h = absurd (omega arith)
    some_sealed (suc fuel) index size [] h =
        let (t, i) = some-IsTerminal index size in (t, finish i)
    some_sealed (suc fuel) index size (b ∷ bs) h =
        let text = b ∷ bs in
        elim (Bool-cases (ltb cfg.chunk_size (length text))) [
          | inl more ↦
              let front = take cfg.chunk_size text in
              let back = drop cfg.chunk_size text in
              let l : length front ≡ cfg.chunk_size =
                omega (arith, length-take cfg.chunk_size text, ltb→lt _ _ more) in
              let (piece, i) = some-IsRecord index front in
              let (sealed, s) =
                some_sealed fuel (wrap64 (index + 1)) (size + length front) back
                  (omega (arith, length-drop cfg.chunk_size text, length-append front back)) in
              (
                piece ++ sealed,
                chunk front piece back sealed i l s (sym (take-append-drop cfg.chunk_size text))
                    refl,
              )
          | inr all ↦
              let (piece, i) = some-IsRecord index text in
              let (terminal, t) = some-IsTerminal (wrap64 (index + 1)) (size + length text) in
              (
                piece ++ terminal,
                last piece terminal i (omega arith) (ltb→le cfg.chunk_size (length text) all) t
                    refl,
              )
        ]

    abbrev Stored : List ℕ → Source → Bytes
    Stored ws s = (drain (encrypt_read cfg) ws (new_encrypt_reader s)).0

    abbrev fetched : Bytes → List Bool → Source
    fetched sealed polls = record { bytes = sealed; fault = none; polls = polls }

    -- Version 2 with its two ciphers, both of which keep their documented laws, a positive chunk
    -- size, and no binding or one that is valid. The plaintext source gives its bytes, fewer than
    -- 2^64, and then its end, and no poll of either reader finds the context cancelled. A client that
    -- reads the encrypting reader with more positive buffers than the size equation counts bytes
    -- receives a ciphertext of just that size, with the end of the file; and one that reads that
    -- ciphertext back through the decrypting reader, with any positive buffers, more than there are
    -- bytes, receives exactly the plaintext, and the end of the file.
    pub decrypt_drain-encrypt_drain :
        (ws us : List ℕ) (s : Source) (polls : List Bool)
        → IsHealthy s
        → AreBytes s.bytes
        → length s.bytes ≤ max_uint64
        → ArePositive ws
        → ciphertext_size (length s.bytes) cfg.chunk_size v2 < length ws
        → IsCalm polls
        → ArePositive us
        → length s.bytes < length us
        → ((drain (encrypt_read cfg) ws (new_encrypt_reader s)).1 ≡ eof)
          × (length (Stored ws s) ≡ ciphertext_size (length s.bytes) cfg.chunk_size v2)
          × (drain (decrypt_read cfg) us (new_decrypt_reader (fetched (Stored ws s) polls))
              ≡ (s.bytes, eof))
    decrypt_drain-encrypt_drain ws us s polls h b m p l c q k =
        let (sealed, seals) = some_sealed (suc (length s.bytes)) 0 0 s.bytes (omega arith) in
        let size = Seals-ciphertext_size seals in
        let e = encrypt_drain_total cfg pos ws s sealed h seals m p (omega (arith, size)) in
        let d =
          decrypt_drain_total cfg laws v pos us (fetched sealed polls) s.bytes
            (record { no_fault = refl; calm = c }) seals b m q k in
        (
          ap (λ x. x.1) e,
          ap (λ x. length x.0) e ∙ size,
          ap (λ x. drain (decrypt_read cfg) us (new_decrypt_reader (fetched x.0 polls))) e ∙ d,
        )
