-- ===== src/Stream/Size.antt =====
-- The announced size of a ciphertext and the bytes that the encrypting reader gives.
use s3_encryption_gateway.Prelude.{
  ℕ, ◌≤◌, ◌<◌, List, length, ok, inr, refl, pos, max_int64, ◌≡◌, sym, ap, ◌∙◌, arith,
}
use s3_encryption_gateway.Chunk.{v2, chunked_ciphertext_size}
use s3_encryption_gateway.Chunk.Sizes.{chunked_ciphertext_size_lem}
use s3_encryption_gateway.Chunk.Count.{IsChunkSize}
use s3_encryption_gateway.Stream.Config.{ReaderConfig}
use s3_encryption_gateway.Stream.Source.{Source}
use s3_encryption_gateway.Stream.Loop.{eof}
use s3_encryption_gateway.Stream.Loop.Drain.{drain, ArePositive}
use s3_encryption_gateway.Stream.Encrypt.{encrypt_read, new_encrypt_reader}
use s3_encryption_gateway.Stream.Encrypt.Drain.{encrypt_drain-Seals}
use s3_encryption_gateway.Stream.Decrypt.Sound.{AreAeads}
use s3_encryption_gateway.Stream.RoundTrip.{Seals-ciphertext_size}

-- Version 2, a chunk size that is allowed, and ciphers that keep their laws. When a client has read
-- the encrypting reader to the end of the file with positive buffers, and received at most 2^63 - 1
-- bytes: ChunkedCiphertextSize, for the number of bytes in the source, gives just the number of bytes
-- received.
pub encrypt_drain-chunked_ciphertext_size :
    (cfg : ReaderConfig) (ws : List ℕ) (s : Source)
    → AreAeads cfg
    → cfg.version ≡ v2
    → IsChunkSize cfg.chunk_size
    → ArePositive ws
    → (drain (encrypt_read cfg) ws (new_encrypt_reader s)).1 ≡ eof
    → length (drain (encrypt_read cfg) ws (new_encrypt_reader s)).0 ≤ max_int64
    → chunked_ciphertext_size (pos (length s.bytes)) (pos cfg.chunk_size) v2
      ≡ ok (length (drain (encrypt_read cfg) ws (new_encrypt_reader s)).0)
encrypt_drain-chunked_ciphertext_size cfg ws s laws v hs p e l =
    let some_size : 0 < cfg.chunk_size = omega (arith, hs) in
    let size =
      Seals-ciphertext_size cfg laws v some_size (encrypt_drain-Seals cfg some_size ws s p e) in
    chunked_ciphertext_size_lem (length s.bytes) cfg.chunk_size v2 hs (inr refl)
      (omega (arith, size, l))
    ∙ ap ok (sym size)
