-- ===== src/Lib.antt =====
-- The S3 encryption gateway (Go): an S3 proxy that encrypts objects before they reach the backend.
-- The development models the parts of the program that must be right for no byte to be lost, mixed
-- up or accepted unauthenticated, and proves what they promise.
--
-- The parts and their files:
--   * Chunk (Chunk/Count, Chunk/Sizes, Chunk/Ranges): internal/crypto/range_optimization.go. The
--     sizes of a chunked object in both directions (ChunkedCiphertextSize, ChunkedPlaintextSize)
--     and the records that a plaintext range needs.
--   * Aad (Aad/Encoding, Aad/Injective): internal/crypto/engine.go, buildObjectAAD, and the nonce
--     and data labels of internal/crypto/chunked.go.
--   * Stream: internal/crypto/chunked.go, the two readers. Stream/Config holds what a reader is
--     built with and the parameters of each record; Stream/Source is the io.Reader below and the
--     context; Stream/Loop is the loop of Read that both share, with a client that reads to the
--     end; Stream/Encrypt and Stream/Decrypt are the two Read methods (Drain: what was read is
--     right, Total: it is read with no error); Stream/Format describes the wire format with no
--     reader at all; Stream/Params says when a reader derives its nonces with no error,
--     Stream/RoundTrip puts the two readers together, and Stream/Size compares with the announced size.
--   * Range (Range/Sizes, Range/Round, Range/Records, Range/Total): internal/crypto/range_decrypt.go,
--     the reader that opens the records of a plaintext range.
--   * Manifest (Manifest/Layout, Manifest/Offsets, Manifest/Owner): internal/crypto/mpu_manifest.go,
--     validateLayout, the translation of offsets and ValidateFor.
--   * Part (Part/Format, Part/Opened, Part/Runs, Part/Sealed, Part/Stored, Part/RoundTrip,
--     Part/Declared, Part/Identity): internal/crypto/mpu_encrypter.go and mpu_iv.go, the encryption of one part of a
--     multipart upload and the decryption of a run of its chunks.
--   * KeyWrap (KeyWrap/Xor, KeyWrap/Rows, KeyWrap/Inverse) and KeyManager (KeyManager/Versions):
--     internal/crypto/keymanager_memory.go, the RFC 3394 key wrap and the versions of master keys.
--   * Breaker (Breaker/Reach, Breaker/Rows): internal/crypto/keymanager_circuitbreaker.go.
--   * Rotation (Rotation/Reach, Rotation/Moves): internal/crypto/rotation_state.go.
--   * MemoryCache (MemoryCache/Limits): internal/cache/cache.go.
--   * RangeHeader (RangeHeader/Bounds): internal/crypto/range_optimization.go, ParseHTTPRangeHeader.
--   * DekCache (DekCache/Laws, DekCache/Sound, DekCache/Runs): internal/crypto/keymanager_cache.go.
--   * BucketName (BucketName/Accepted): internal/api/bucket_name.go.
--   * Fallback (Fallback/Branches): internal/crypto/keymanager_fallback.go.
--   * Prelude: shared lists, integers, results and Boolean tests. Tests: runs at concrete inputs.
--
-- How they interact: the readers call Aad for the data of each record, and the geometry of Chunk
-- is that of the records they write. A range request goes from the plaintext range to the records
-- (Chunk), to the bytes that the backend is asked for (Chunk) and to the reader over them (Range).
-- The parts of an upload share the loop of Read with the readers of Stream. The key manager seals
-- the keys with KeyWrap; a rotation drains the callers that wrap before the key manager promotes a
-- version, and the breaker stands between the callers and a key manager.
--
-- Conventions: a method is a function from the state to the state and its result. A critical
-- section of a mutex is one step, and interleavings are lists of such steps. Time, contexts, the
-- order of a `range` over a map, and library code (AEAD, HKDF, block ciphers) are arguments; what
-- is assumed of the ciphers is in the records IsAead and IsBlock. Numbers that the code keeps below
-- a bound by its own tests are natural numbers; a wrap-around that can happen is written out
-- (wrap64). The loop of Read runs on fuel: `want + length bytes + 2` rounds, enough because every
-- round hands out a byte, takes one from the source, or ends the reader (Loop/Laws,
-- read_loop-Ends). The loop over the look-behind buffer has the buffer's length as fuel, as has the
-- loop over the chunks of a run. The reader of a range has `want + length bytes + 1` rounds, since a
-- round copies a byte or reads one.
--
-- Not modelled: the constructors of the streaming readers, the zeroing of buffers, JSON and base64
-- forms, metrics and logging, the engine's treatment of metadata, the HTTP handlers, the S3 client
-- and the external key services. A source fails only at the end of its bytes, and for good; Set of the
-- cache and its eviction read one time.
mod Prelude
pub mod Chunk
pub mod Aad
pub mod Stream
pub mod Manifest
pub mod Part
pub mod Range
pub mod RangeHeader
pub mod Breaker
pub mod KeyWrap
pub mod KeyManager
pub mod Rotation
pub mod MemoryCache
pub mod DekCache
pub mod BucketName
pub mod Fallback
mod Tests
