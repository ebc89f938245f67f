-- ===== src/Stream/Format.antt =====
-- The wire format: which ciphertext stands for which plaintext. It is described by the records
-- alone, with no reader and no buffer.
pub mod Next
pub mod Amounts
use s3_encryption_gateway.Prelude.{ℕ, ◌+◌, wrap64, ◌≤◌, ◌≡◌, [], ◌++◌, Bytes, length, ok, some}
use s3_encryption_gateway.Chunk.{v2}
use s3_encryption_gateway.Stream.Config.{
  Aead, ReaderConfig, record_params, terminal_params, encode_chunked_terminal,
}

-- The bytes of record `index`.
pub record IsRecord (cfg : ReaderConfig) (index : ℕ) (text sealed : Bytes) : Type 0 where
  pub nonce : Bytes
  pub aad : Bytes
  pub params : record_params cfg index ≡ ok (nonce, aad)
  pub sealed_is : sealed ≡ cfg.aead.seal nonce text aad

-- What follows the last record: nothing for version 1, the sealed counts for version 2.
pub data IsTerminal (cfg : ReaderConfig) (index size : ℕ) (sealed : Bytes) : Type 0 where
  absent : (cfg.version ≡ v2 → ⊥) → sealed ≡ [] → IsTerminal cfg index size sealed
  present :
      (a : Aead) (nonce aad : Bytes)
      → cfg.version ≡ v2
      → cfg.terminal_aead ≡ some a
      → terminal_params cfg index size ≡ ok (nonce, aad)
      → sealed ≡ a.seal nonce (encode_chunked_terminal index size) aad
      → IsTerminal cfg index size sealed

-- From record `index` on, with `size` bytes before it: every record but the last holds exactly
-- `chunk_size` bytes, and the last at least `least`.
pub data Seals (cfg : ReaderConfig) (least : ℕ) : ℕ → ℕ → Bytes → Bytes → Type 0 where
  finish :
      {index size : ℕ} {sealed : Bytes}
      → IsTerminal cfg index size sealed
      → Seals cfg least index size [] sealed
  last :
      {index size : ℕ} {text sealed : Bytes} (piece terminal : Bytes)
      → IsRecord cfg index text piece
      → least ≤ length text
      → length text ≤ cfg.chunk_size
      → IsTerminal cfg (wrap64 (index + 1)) (size + length text) terminal
      → sealed ≡ piece ++ terminal
      → Seals cfg least index size text sealed
  chunk :
      {index size : ℕ} {text sealed : Bytes} (part piece text_rest sealed_rest : Bytes)
      → IsRecord cfg index part piece
      → length part ≡ cfg.chunk_size
      → Seals cfg least (wrap64 (index + 1)) (size + length part) text_rest sealed_rest
      → text ≡ part ++ text_rest
      → sealed ≡ piece ++ sealed_rest
      → Seals cfg least index size text sealed
