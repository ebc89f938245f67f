-- ===== src/Part/RoundTrip.antt =====
-- A part that is encrypted to the end, and runs of its chunks that are decrypted.
use s3_encryption_gateway.Prelude.{
  ℕ, zero, suc, ◌+◌, ◌*◌, ◌≤◌, ◌<◌, true, false, List, [], ◌∷◌, ◌++◌, none, some, ltb, ◌==◌, Bytes,
  length, take, drop, ok, ◌≡◌, refl, sym, ap, ◌∙◌, ◌⊎◌, inl, inr, arith, Bool-cases, Result-cases,
  length-take, length-drop, take-append-drop, ltb→lt, ltb→le, pos,
}
use s3_encryption_gateway.Aad.{validate}
use s3_encryption_gateway.Aad.{mpu_v2_chunk}
use s3_encryption_gateway.Aad.Encoding.{AreBytes}
use s3_encryption_gateway.Chunk.{tag_size, max_chunk_size}
use s3_encryption_gateway.Chunk.Count.{IsCount}
use s3_encryption_gateway.Manifest.{max_int32, part_chunks}
use s3_encryption_gateway.Stream.Config.{IsAead}
use s3_encryption_gateway.Stream.Source.{Source}
use s3_encryption_gateway.Stream.Params.{build_object_aad_total}
use s3_encryption_gateway.Stream.Loop.{eof, read_loop}
use s3_encryption_gateway.Stream.Loop.Laws.{read_loop-Ends}
use s3_encryption_gateway.Stream.Loop.Drain.{drain, ArePositive}
use s3_encryption_gateway.Stream.Loop.Total.{
  Leaves, Delivers, part, end, read_loop-Owes, read_loop_keeps, drain_total,
}
use s3_encryption_gateway.Stream.Encrypt.{encrypt_outcome}
use s3_encryption_gateway.Part.{
  PartConfig, PartReader, part_fill, part_open, part_read, mark_eof, new_part_reader, chunk_aad,
  derive_multipart_iv, part_enc_len, decrypt_mpu_part_range,
}
use s3_encryption_gateway.Part.Format.{
  IsChunk, IsPart, no_more, last, chunk, part_chunks-IsCount, length-IsPart,
}
use s3_encryption_gateway.Part.Opened.{nil_of_length}
use s3_encryption_gateway.Part.Sealed.{Ready, part_total_step}
use s3_encryption_gateway.Part.Stored.{unread, part_fill_keeps, part_falls, Kept, marked}
use s3_encryption_gateway.Part.Runs.{decrypt_mpu_part_range-IsPart}

module _ (cfg : PartConfig) (some_size : 0 < cfg.chunk_size) where
  delivered :
      (x : PartReader) (want : ℕ) (t out : Bytes)
      → 0 < want
      → Leaves (Ready cfg) t out x
      → x.inner.at_eof ≡ false
      → ((length out ≡ want) ⊎ ((x.done ≡ true) × (x.pending ≡ [])))
      → Delivers (Kept cfg some_size) t (record {
        out = out;
        outcome = encrypt_outcome x.error out x.done;
        reader = mark_eof want out x;
      })
  delivered x want t [] h l a (inl e) = absurd (omega arith)
  delivered x want t [] h l a (inr (d, p)) =
      end (rw (l.owes.fine, d) refl) (rw (l.adds_up, l.owes.splits, p, l.owes.at_end d) refl) refl
  delivered x want t (b ∷ bs) h l a e =
      let m = marked cfg some_size x want (b ∷ bs) t l a e in
      part m.0 (rw l.owes.fine refl) m.1 (omega arith) m.2

  part-Delivers :
      (r : PartReader) (want : ℕ) (t : Bytes)
      → 0 < want
      → Kept cfg some_size r t
      → Delivers (Kept cfg some_size) t (part_read cfg r want)
  unfolding part_read part_open
  part-Delivers r want t h (w, a) = simp w.fine (elim (Bool-cases r.inner.at_eof) [
    | inl e ↦ simp e (end refl (a e) refl)
    | inr e ↦
        let some_room : (want == 0) ≡ false = ground arith in
        let fuel = want + length r.inner.source.bytes + 2 in
        let x = read_loop (part_fill cfg) fuel r want in
        let l =
          read_loop-Owes (part_fill cfg) (Ready cfg) (part_total_step cfg some_size) fuel r want t
            w in
        let k = read_loop_keeps (part_fill cfg) (λ s. s.at_eof) (part_fill_keeps cfg) fuel r want in
        let way =
          read_loop-Ends (part_fill cfg) (unread cfg) (part_falls cfg some_size) (λ q p. refl) fuel
            r want (ground arith) in
        simp (e, some_room)
          (delivered x.1 want t x.0 h l (k ∙ e)
            (elim way [ inl f ↦ absurd (ground (arith, l.owes.fine)) | inr f ↦ f ]))
  ])

  part_drain_total :
      (ws : List ℕ) (s : Source) (sealed : Bytes)
      → s.fault ≡ none
      → IsPart cfg 1 0 s.bytes sealed
      → ArePositive ws
      → length sealed < length ws
      → drain (part_read cfg) ws (new_part_reader s (length s.bytes)) ≡ (sealed, eof)
  part_drain_total ws s sealed f i p l =
      drain_total (part_read cfg) (Kept cfg some_size) part-Delivers ws
        (new_part_reader s (length s.bytes)) sealed p l
        (
          record {
            fine = refl;
            later = sealed;
            splits = refl;
            at_end = λ d. absurd (ground arith);
            before_end = λ d. record { no_fault = f; exact = refl; seals = i };
          },
          λ e. absurd (ground arith),
        )

  -- The additional data of a chunk can be built: there are none, or the object is valid and the
  -- binding has 16 bytes.
  abbrev pub HasAad : Type 0
  HasAad = (cfg.is_bound ≡ false) ⊎ (length cfg.binding_id ≡ 16)

  chunk_aad_total :
      (index : ℕ)
      → validate cfg.object ≡ ok tt
      → HasAad
      → (aad : Bytes) × (chunk_aad cfg index ≡ ok aad)
  unfolding chunk_aad
  chunk_aad_total index v h = elim (Bool-cases cfg.is_bound) [
    | inl b ↦ elim h [
      | inl n ↦ absurd (ground arith)
      | inr n ↦
          let (aad, e) =
            build_object_aad_total mpu_v2_chunk cfg.object cfg.binding_id
              (cfg.part_number ∷ index ∷ []) v n (omega arith) in
          (aad, rw b e)
    ]
    | inr b ↦ ([], rw b refl)
  ]

  some_chunk :
      (index : ℕ) (text : Bytes)
      → validate cfg.object ≡ ok tt
      → HasAad
      → index < max_int32
      → (piece : Bytes) × IsChunk cfg index text piece
  unfolding chunk_aad derive_multipart_iv
  some_chunk index text v h r =
      let (aad, e) = chunk_aad_total index v h in
      (
        cfg.aead.seal (derive_multipart_iv cfg index) text aad,
        record { aad = aad; aad_is = e; sealed_is = refl; in_range = r },
      )

  -- A text of no more than 2^31 - 1 chunks has a ciphertext.
  some-IsPart :
      (count index : ℕ) (text : Bytes)
      → validate cfg.object ≡ ok tt
      → HasAad
      → IsCount (length text) cfg.chunk_size count
      → index + count ≤ max_int32
      → (sealed : Bytes) × IsPart cfg 1 index text sealed
  some-IsPart zero index text v h c r =
      let z : 0 * cfg.chunk_size ≡ 0 = omega arith in
      ([], no_more (nil_of_length text (omega (arith, c.enough, z))) refl)
  some-IsPart (suc count) index text v h c r =
      let m : suc count * cfg.chunk_size ≡ count * cfg.chunk_size + cfg.chunk_size = grind arith in
      elim (Bool-cases (ltb cfg.chunk_size (length text))) [
        | inl many ↦
            let front = take cfg.chunk_size text in
            let back = drop cfg.chunk_size text in
            let lf : length front ≡ cfg.chunk_size =
              omega (arith, length-take cfg.chunk_size text, ltb→lt _ _ many) in
            let lb = length-drop cfg.chunk_size text in
            let (piece, i) = some_chunk index front v h (omega arith) in
            let (sealed, s) =
              some-IsPart count (index + 1) back v h
                (record {
                  enough = omega (arith, c.enough, m, lb);
                  no_more = omega (arith, c.no_more, m, lb, ltb→lt _ _ many);
                })
                (omega arith) in
            (
              piece ++ sealed,
              chunk front piece back sealed i lf s (sym (take-append-drop cfg.chunk_size text))
                  refl,
            )
        | inr all ↦
            let (piece, i) = some_chunk index text v h (omega arith) in
            (piece, last i (omega (arith, c.no_more, m)) (ltb→le cfg.chunk_size (length text) all))
      ]

  part_enc_len_inv :
      (plain n : ℕ)
      → part_enc_len cfg.object
          (pos cfg.part_number)
          (pos cfg.chunk_size)
          (pos plain)
          (some cfg.aead)
        ≡ ok n
      → (validate cfg.object ≡ ok tt)
        × (0 < cfg.part_number)
        × (cfg.part_number ≤ 10000)
        × (cfg.chunk_size ≤ max_chunk_size)
        × (part_chunks cfg.chunk_size plain ≤ max_int32)
        × (n ≡ plain + part_chunks cfg.chunk_size plain * tag_size)
  unfolding part_enc_len
  part_enc_len_inv plain n e = elim (Result-cases (validate cfg.object)) [
    | inl (tt, v) ↦
        let d : (ltb 0 cfg.chunk_size) ≡ true = ground arith in
        (
          v,
          ground (arith, v, d),
          ground (arith, v, d),
          ground (arith, v, d),
          ground (arith, v, d),
          ground (arith, v, d),
        )
    | inr (x, v) ↦ absurd (ground (arith, v))
  ]

  -- The constructor of the encrypting reader accepts the arguments and announces the length `n`, the
  -- chunk size is positive, the cipher keeps its documented laws, version 2 has its binding of 16
  -- bytes, and the source gives just the declared bytes and then its end. Then a client that reads
  -- with more positive buffers than `n` receives `n` bytes and the end of the file, with no error;
  -- and any `m` chunks of them, from any chunk `k` on (fewer at the end of the part), are decrypted
  -- by their index to just the plaintext of these chunks.
  pub decrypt_mpu_part_range-part_drain :
      IsAead cfg.aead
      → HasAad
      → (s : Source) (n k m : ℕ) (ws : List ℕ)
      → part_enc_len cfg.object
          (pos cfg.part_number)
          (pos cfg.chunk_size)
          (pos (length s.bytes))
          (some cfg.aead)
        ≡ ok n
      → s.fault ≡ none
      → AreBytes s.bytes
      → ArePositive ws
      → n < length ws
      → let stored = drain (part_read cfg) ws (new_part_reader s (length s.bytes)) in
        (stored.1 ≡ eof)
        × (length stored.0 ≡ n)
        × (decrypt_mpu_part_range cfg
              (take
                (m * (cfg.chunk_size + tag_size))
                (drop (k * (cfg.chunk_size + tag_size)) stored.0))
              (pos cfg.part_number)
              (pos cfg.chunk_size)
              (pos k)
              (some cfg.aead)
            ≡ ok (take (m * cfg.chunk_size) (drop (k * cfg.chunk_size) s.bytes)))
  decrypt_mpu_part_range-part_drain laws aads s n k m ws accepted f b p l =
      let (v, first, final, size, count, n_is) = part_enc_len_inv (length s.bytes) n accepted in
      let (sealed, i) =
        some-IsPart (part_chunks cfg.chunk_size (length s.bytes)) 0 s.bytes v aads
          (part_chunks-IsCount cfg.chunk_size (length s.bytes) some_size) (omega (arith, count)) in
      let amount = length-IsPart cfg laws some_size i in
      let d = part_drain_total ws s sealed f i p (omega (arith, amount, n_is)) in
      let same = ap (λ x. x.0) d in
      (
        ap (λ x. x.1) d,
        ap (length {A = ℕ}) same ∙ amount ∙ sym n_is,
        ap
              (λ x.
                decrypt_mpu_part_range cfg
                  (take (m * (cfg.chunk_size + tag_size))
                    (drop (k * (cfg.chunk_size + tag_size)) x))
                  (pos cfg.part_number) (pos cfg.chunk_size) (pos k) (some cfg.aead))
              same
            ∙ decrypt_mpu_part_range-IsPart cfg laws v first final some_size size k m s.bytes sealed
                i b,
      )
