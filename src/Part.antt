-- ===== src/Part.antt =====
-- internal/crypto/mpu_encrypter.go and mpu_iv.go: the encryption of one part of a multipart upload,
-- chunk by chunk, and the decryption of a run of its chunks.
pub mod Format
pub mod Identity
pub mod Sealed
pub mod Opened
pub mod Runs
pub mod Stored
pub mod RoundTrip
pub mod Declared
use s3_encryption_gateway.Prelude.{
  ℕ, zero, suc, ◌+◌, ◌-◌, ◌*◌, ◌/◌, ◌%◌, ◌^◌, Bool, true, false, not, ◌&&◌, ◌||◌, List, [], ◌∷◌,
  ◌++◌, Option, none, some, ltb, leb, ◌==◌, min, if◌then◌else◌, Bytes, equal_bytes, length, take,
  drop, Result, ok, err, ◌>>=◌, ◌>>◌, reject, ℤ, pos, negsuc, pos_part, ltb_ℤ, max_int64, replicate,
}
use s3_encryption_gateway.Aad.{AadError, ObjectContext, mpu_v2_chunk, build_object_aad, validate}
use s3_encryption_gateway.Aad.Encoding.{big_endian}
use s3_encryption_gateway.Chunk.{max_chunk_size, tag_size}
use s3_encryption_gateway.Manifest.{max_int32, part_chunks}
use s3_encryption_gateway.Stream.Config.{Aead}
use s3_encryption_gateway.Stream.Source.{
  StreamError, derivation, exceeds_declared, short_source, index_overflow, open_failed, Source,
  ReadEnd, full, at_end, read_full,
}
use s3_encryption_gateway.Stream.Source
use s3_encryption_gateway.Stream.Loop.{Reader, ReadResult, Outcome, more, eof, read_loop, is_some}
use s3_encryption_gateway.Stream.Loop
use s3_encryption_gateway.Stream.Encrypt.{encrypt_outcome}

-- What the readers and the range decryption of a part are given. `derive` is golang.org/x/crypto/hkdf
-- over SHA-256: key, salt, info and the number of bytes read.
pub record PartConfig : Type 0 where
  pub aead : Aead
  pub derive : Bytes → Bytes → Bytes → ℕ → Bytes
  pub dek : Bytes
  pub upload_id_hash : Bytes
  pub iv_prefix : Bytes
  pub part_number : ℕ
  pub chunk_size : ℕ
  pub object : ObjectContext
  pub binding_id : Bytes
  pub is_bound : Bool

abbrev pub default_chunk_size : ℕ
default_chunk_size = 64 * 1024

-- Both indices are uint32.
unfoldable pub derive_multipart_iv : PartConfig → ℕ → Bytes
derive_multipart_iv cfg chunk_index =
    cfg.derive cfg.dek cfg.upload_id_hash
      (cfg.iv_prefix ++ (big_endian 4 cfg.part_number ++ big_endian 4 chunk_index)) 12

unfoldable pub chunk_aad : PartConfig → ℕ → Result AadError Bytes
chunk_aad cfg chunk_index =
    if cfg.is_bound
    then build_object_aad mpu_v2_chunk cfg.object cfg.binding_id
        (cfg.part_number ∷ chunk_index ∷ [])
    else ok []

pub record PartState : Type 0 where
  pub source : Source
  pub remaining : ℕ
  pub chunk_idx : ℕ
  pub at_eof : Bool

abbrev pub PartReader : Type 0
PartReader = Reader PartState

abbrev pub set_error : StreamError → PartReader → PartReader
set_error e r = record r { error = some e }

-- `r.remaining == 0`: the source must be at its end.
extra_byte : PartReader → Bytes → ReadEnd → PartReader
extra_byte r [] at_end = record r { done = true }
extra_byte r got result = set_error exceeds_declared r

seal_chunk : PartConfig → PartReader → Bytes → Result AadError Bytes → PartReader
seal_chunk cfg r text (err e) = set_error (derivation e) r
seal_chunk cfg r text (ok aad) = record r {
  pending = cfg.aead.seal (derive_multipart_iv cfg r.inner.chunk_idx) text aad;
  inner = record r.inner { chunk_idx = r.inner.chunk_idx + 1 };
}

unfoldable pub take_text : PartConfig → PartReader → Bytes → ReadEnd → PartReader
unfolding seal_chunk
take_text cfg r text full =
    let s = r.inner in
    seal_chunk cfg (record r { inner = record s { remaining = s.remaining - length text } }) text
      (chunk_aad cfg s.chunk_idx)
take_text cfg r text result = set_error short_source r

-- A round of the loop with nothing pending.
unfoldable pub part_fill : PartConfig → PartReader → PartReader
unfolding take_text extra_byte
part_fill cfg r =
    let extra = read_full 1 r.inner.source in
    let got = read_full (min cfg.chunk_size r.inner.remaining) r.inner.source in
    if r.inner.remaining == 0
    then extra_byte (record r { inner = record r.inner { source = extra.source } }) extra.bytes
        extra.result
    else if leb max_int32 r.inner.chunk_idx
    then set_error index_overflow r
    else take_text cfg (record r { inner = record r.inner { source = got.source } }) got.bytes
        got.result

-- `r.eof` is set where the loop ends with room left in the buffer and no error.
unfoldable pub mark_eof : ℕ → Bytes → PartReader → PartReader
mark_eof want out r =
    if ltb (length out) want && not (is_some r.error)
    then record r { inner = record r.inner { at_eof = true } }
    else r

-- `Read(p)` of a reader with no error, `want` bytes of room in `p`.
unfoldable pub part_open : PartConfig → PartReader → ℕ → ReadResult PartState
unfolding mark_eof
part_open cfg r want =
    let x = read_loop (part_fill cfg) (want + length r.inner.source.bytes + 2) r want in
    if r.inner.at_eof
    then record { out = []; outcome = eof; reader = r }
    else if want == 0
    then record { out = []; outcome = more; reader = r }
    else record {
      out = x.0;
      outcome = encrypt_outcome x.1.error x.0 x.1.done;
      reader = mark_eof want x.0 x.1;
    }

read_unless : PartConfig → PartReader → ℕ → Option StreamError → ReadResult PartState
unfolding part_open
read_unless cfg r want (some e) = record { out = []; outcome = Loop.failed e; reader = r }
read_unless cfg r want none = part_open cfg r want

unfoldable pub part_read : PartConfig → PartReader → ℕ → ReadResult PartState
unfolding read_unless
part_read cfg r want = read_unless cfg r want r.error

abbrev pub new_part_reader : Source → ℕ → PartReader
new_part_reader source plain_len = record {
  pending = [];
  done = false;
  error = none;
  inner = record { source = source; remaining = plain_len; chunk_idx = 0; at_eof = false };
}

pub data PartError : Type 0 where
  invalid_context : AadError → PartError
  no_binding invalid_part no_cipher overflow chunk_failed : PartError

-- The chunk size that is used for the one that was asked for.
abbrev pub chunk_size_or_default : ℤ → ℤ
chunk_size_or_default chunk_size =
    if ltb_ℤ (pos 0) chunk_size then chunk_size else pos default_chunk_size

checked : {A : Type 0} → Result AadError A → Result PartError A
checked (ok a) = ok a
checked (err e) = err (invalid_context e)

cipher : Option Aead → Result PartError Aead
cipher none = err no_cipher
cipher (some a) = ok a

-- What newMPUPartEncryptReader checks, and the ciphertext length that it returns. `aead` is what
-- the creation of the cipher gives.
unfoldable pub part_enc_len : ObjectContext → ℤ → ℤ → ℤ → Option Aead → Result PartError ℕ
unfolding checked cipher
part_enc_len object part_number chunk_size plain_len aead = do
  checked (validate object)
  reject
      (ltb_ℤ part_number (pos 1)
        || (ltb_ℤ (pos 10000) part_number
            || (ltb_ℤ plain_len (pos 0)
                || ltb_ℤ (pos max_chunk_size) (chunk_size_or_default chunk_size))))
      invalid_part
  a ← cipher aead
  let count = part_chunks (pos_part (chunk_size_or_default chunk_size)) (pos_part plain_len)
  reject (ltb max_int32 count || ltb ((max_int64 - pos_part plain_len) / tag_size) count) overflow
  ok (pos_part plain_len + count * tag_size)

opened : Option Bytes → Result PartError Bytes
opened none = err chunk_failed
opened (some text) = ok text

open_chunk : PartConfig → ℕ → Bytes → Result PartError Bytes
unfolding opened checked
open_chunk cfg chunk_index sealed = do
  aad ← checked (chunk_aad cfg chunk_index)
  opened (cfg.aead.unseal (derive_multipart_iv cfg chunk_index) sealed aad)

-- The loop of decryptMPUPartRange over what is left of the ciphertext. As each round takes at least
-- one byte, its length is fuel enough.
unfoldable pub open_chunks : ℕ → PartConfig → ℕ → Bytes → Result PartError Bytes
unfolding open_chunk
open_chunks zero cfg chunk_index sealed = ok []
open_chunks (suc fuel) cfg chunk_index sealed =
    let rest = open_chunks fuel cfg (chunk_index + 1) (drop (cfg.chunk_size + tag_size) sealed) in
    if length sealed == 0 then ok [] else (do
      reject (leb max_int32 chunk_index) overflow
      plain ← open_chunk cfg chunk_index (take (cfg.chunk_size + tag_size) sealed)
      out ← rest
      ok (plain ++ out))

-- decryptMPUPartRange, for a chunk size that is an `int` and a part and chunk that are `int32`.
unfoldable pub decrypt_mpu_part_range :
    PartConfig → Bytes → ℤ → ℤ → ℤ → Option Aead → Result PartError Bytes
unfolding checked cipher
decrypt_mpu_part_range cfg sealed part_number chunk_size start_chunk_idx aead = do
  checked (validate cfg.object)
  reject
      (ltb_ℤ part_number (pos 1)
        || (ltb_ℤ (pos 10000) part_number
            || (ltb_ℤ start_chunk_idx (pos 0)
                || ltb_ℤ (pos max_chunk_size) (chunk_size_or_default chunk_size))))
      invalid_part
  a ← cipher aead
  open_chunks (length sealed)
      (record cfg {
        aead = a;
        part_number = pos_part part_number;
        chunk_size = pos_part (chunk_size_or_default chunk_size);
      })
      (pos_part start_chunk_idx) sealed

-- DecryptMPUPartRange: version 2 requires a binding.
unfoldable pub decrypt_bound_part_range :
    PartConfig → Bytes → ℤ → ℤ → ℤ → Option Aead → Result PartError Bytes
unfolding checked
decrypt_bound_part_range cfg sealed part_number chunk_size start_chunk_idx aead = do
  checked (validate cfg.object)
  reject (equal_bytes cfg.binding_id (replicate 16 0)) no_binding
  decrypt_mpu_part_range (record cfg { is_bound = true }) sealed part_number chunk_size
      start_chunk_idx aead

-- DecryptMPUPart: a whole part with no binding.
unfoldable pub decrypt_mpu_part : PartConfig → Bytes → ℤ → ℤ → Option Aead → Result PartError Bytes
unfolding cipher
decrypt_mpu_part cfg sealed part_number chunk_size aead = do
  reject
      (ltb_ℤ part_number (pos 1)
        || (ltb_ℤ (pos 10000) part_number
            || ltb_ℤ (pos max_chunk_size) (chunk_size_or_default chunk_size)))
      invalid_part
  a ← cipher aead
  open_chunks (length sealed)
      (record cfg {
        aead = a;
        part_number = pos_part part_number;
        chunk_size = pos_part (chunk_size_or_default chunk_size);
        is_bound = false;
      })
      0 sealed
