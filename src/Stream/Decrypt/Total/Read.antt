-- ===== src/Stream/Decrypt/Total/Read.antt =====
-- What a client receives from a version 2 decrypting reader over a ciphertext.
use s3_encryption_gateway.Prelude.{
  ℕ, ◌+◌, ◌≤◌, ◌<◌, true, false, List, [], ◌∷◌, ◌==◌, Bytes, length, max_uint64, ◌≡◌, refl, ◌⊎◌,
  inl, inr, arith,
}
use s3_encryption_gateway.Aad.Encoding.{AreBytes}
use s3_encryption_gateway.Chunk.{v2}
use s3_encryption_gateway.Stream.Config.{ReaderConfig}
use s3_encryption_gateway.Stream.Format.{Seals}
use s3_encryption_gateway.Stream.Source.{Source}
use s3_encryption_gateway.Stream.Source.Healthy.{IsHealthy}
use s3_encryption_gateway.Stream.Loop.{eof, read_loop}
use s3_encryption_gateway.Stream.Loop.Laws.{read_loop-Ends}
use s3_encryption_gateway.Stream.Loop.Drain.{drain, ArePositive}
use s3_encryption_gateway.Stream.Loop.Total.{
  Owes, Leaves, Delivers, part, end, read_loop-Owes, drain_total,
}
use s3_encryption_gateway.Stream.Decrypt.{
  DecryptReader, decrypt_fill, decrypt_open, decrypt_read, decrypt_outcome, new_decrypt_reader,
}
use s3_encryption_gateway.Stream.Decrypt.Drain.{unread, decrypt_falls}
use s3_encryption_gateway.Stream.Decrypt.Sound.{AreAeads}
use s3_encryption_gateway.Stream.Decrypt.Total.{Ready}
use s3_encryption_gateway.Stream.Decrypt.Total.Step.{decrypt_total_step}

module _ (cfg : ReaderConfig) (laws : AreAeads cfg) (v : cfg.version ≡ v2)
    (pos : 0 < cfg.chunk_size) where
  abbrev Kept : DecryptReader → Bytes → Type 0
  Kept = Owes (Ready cfg laws v pos)

  abbrev looped : DecryptReader → ℕ → Bytes × DecryptReader
  looped r want = read_loop (decrypt_fill cfg) (want + length r.inner.source.bytes + 2) r want

  looped-Delivers :
      (x : DecryptReader) (want : ℕ) (t out : Bytes)
      → 0 < want
      → Leaves (Ready cfg laws v pos) t out x
      → ((length out ≡ want) ⊎ ((x.done ≡ true) × (x.pending ≡ [])))
      → Delivers Kept t (record { out = out; outcome = decrypt_outcome x.error out; reader = x })
  looped-Delivers x want t [] h l (inl e) = absurd (omega arith)
  looped-Delivers x want t [] h l (inr (d, p)) =
      end (rw l.owes.fine refl) (rw (l.adds_up, l.owes.splits, p, l.owes.at_end d) refl) refl
  looped-Delivers x want t (b ∷ bs) h l e =
      part l.rest (rw l.owes.fine refl) l.adds_up (omega arith) l.owes

  decrypt-Delivers :
      (r : DecryptReader) (want : ℕ) (t : Bytes)
      → 0 < want
      → Kept r t
      → Delivers Kept t (decrypt_read cfg r want)
  unfolding decrypt_read decrypt_open
  decrypt-Delivers r want t h w =
      let some_room : (want == 0) ≡ false = ground arith in
      let l =
        read_loop-Owes (decrypt_fill cfg) (Ready cfg laws v pos) (decrypt_total_step cfg laws v pos)
          (want + length r.inner.source.bytes + 2) r want t w in
      let way =
        read_loop-Ends (decrypt_fill cfg) (unread cfg laws) (decrypt_falls cfg laws) (λ q p. refl)
          (want + length r.inner.source.bytes + 2) r want (ground arith) in
      simp w.fine (
        rw some_room (
          looped-Delivers (looped r want).1 want t (looped r want).0 h l
            (elim way [ inl e ↦ absurd (ground (arith, l.owes.fine)) | inr e ↦ e ])))

  -- Version 2, a positive chunk size, ciphers that keep their documented laws, a source that gives
  -- its bytes and then its end, and no poll that finds the context cancelled. If those bytes are the
  -- wire format of `text` and its length fits in 64 bits, then a client that reads with more buffers,
  -- all of positive size, than `text` has bytes receives exactly `text`, and then the end of the file.
  pub decrypt_drain_total :
      (ws : List ℕ) (s : Source) (text : Bytes)
      → IsHealthy s
      → Seals cfg 1 0 0 text s.bytes
      → AreBytes text
      → length text ≤ max_uint64
      → ArePositive ws
      → length text < length ws
      → drain (decrypt_read cfg) ws (new_decrypt_reader s) ≡ (text, eof)
  decrypt_drain_total ws s text h c b m p l =
      drain_total (decrypt_read cfg) Kept decrypt-Delivers ws (new_decrypt_reader s) text p l
        (record {
          fine = refl;
          later = text;
          splits = refl;
          at_end = λ d. absurd (ground arith);
          before_end = λ d. record {
            healthy = h;
            seals = c;
            are_bytes = b;
            size_fits = omega (arith, m);
            index_fits = omega arith;
          };
        })
