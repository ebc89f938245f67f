-- ===== src/Range.antt =====
-- internal/crypto/range_decrypt.go: the reader that decrypts the records of a plaintext range.
pub mod Sizes
pub mod Round
pub mod Records
pub mod Total
use s3_encryption_gateway.Prelude.{
  ℕ, zero, suc, ◌+◌, ◌-◌, ◌*◌, ◌/◌, Bool, true, false, not, ◌&&◌, ◌||◌, List, [], ◌∷◌, ◌++◌, Option,
  none, some, ltb, leb, ◌==◌, min, if◌then◌else◌, Bytes, length, take, drop, Result, ok, err, ◌>>=◌,
  ◌>>◌, reject, ℤ, pos, max_int64,
}
use s3_encryption_gateway.Aad.{AadError, ObjectContext, validate}
use s3_encryption_gateway.Chunk.{
  v1, v2, tag_size, validate_chunk_size, calculate_chunk_range_from_plaintext, ChunkRange,
}
use s3_encryption_gateway.Stream.Config.{Aead, ReaderConfig, Binding, record_params}
use s3_encryption_gateway.Stream.Source.{
  StreamError, io_fault, derivation, open_failed, missing_size, offset_overflow, bad_start,
  skip_failed, Source, Got, ReadEnd, full, at_end, read_full,
}
use s3_encryption_gateway.Stream.Source
use s3_encryption_gateway.Stream.Loop.{Reader, ReadResult, Outcome, more, eof}
use s3_encryption_gateway.Stream.Loop

-- The fields that never change. The range is one that the caller has checked to lie in the object
-- (decryptRange in internal/crypto/engine.go), so its ends are not negative; `plain_size` is
-- `none` for a negative plaintextSize, and `chunk_count` is manifest.ChunkCount.
pub record RangeConfig : Type 0 where
  pub reader : ReaderConfig
  pub plain_start : ℕ
  pub plain_end : ℕ
  pub chunk_count : ℕ
  pub plain_size : Option ℕ
  pub range : ChunkRange

pub record RangeState : Type 0 where
  pub source : Source
  pub chunk_index : ℕ
  pub returned : ℕ

-- `pending` is currentChunk and `done` is closed.
abbrev pub RangeReader : Type 0
RangeReader = Reader RangeState

abbrev pub max_bytes : RangeConfig → ℕ
max_bytes cfg = cfg.plain_end + 1 - cfg.plain_start

abbrev is_bound : Option Binding → Bool
is_bound none = false
is_bound (some b) = true

-- The size of the final record, which the backend has whole.
final_size : RangeConfig → ℕ → Option ℕ → Result StreamError ℕ
final_size cfg index none =
    if is_bound cfg.reader.binding then err missing_size else ok (cfg.reader.chunk_size + tag_size)
final_size cfg index (some size) = do
  reject (cfg.reader.chunk_size == 0 || ltb (max_int64 / cfg.reader.chunk_size) index)
      offset_overflow
  let left = size - index * cfg.reader.chunk_size
  ok (
      if ltb 0 left && ltb left cfg.reader.chunk_size
      then left + tag_size
      else cfg.reader.chunk_size + tag_size)

unfoldable pub expected_size : RangeConfig → ℕ → Result StreamError ℕ
unfolding final_size
expected_size cfg index =
    if (cfg.reader.version == v2) && (index == cfg.chunk_count - 1)
    then final_size cfg index cfg.plain_size
    else ok (cfg.reader.chunk_size + tag_size)

-- The end of the range is cut off in its last record.
unfoldable pub cut_end : RangeConfig → ℕ → Bytes → Bytes
cut_end cfg index text =
    if (index == cfg.range.end_chunk) && ltb cfg.range.end_offset (length text)
    then take (cfg.range.end_offset + 1) text
    else text

-- The part of a record that lies in the range.
unfoldable pub extract : RangeConfig → ℕ → Bytes → Result StreamError Bytes
unfolding cut_end
extract cfg index text =
    if index == cfg.range.start_chunk
    then (do
      reject (leb (length text) cfg.range.start_offset) bad_start
      ok (cut_end cfg index (drop cfg.range.start_offset text)))
    else ok (cut_end cfg index text)

opened : Option Bytes → Result StreamError Bytes
opened none = err open_failed
opened (some text) = ok text

derived : Result AadError (Bytes × Bytes) → Result StreamError (Bytes × Bytes)
derived (err e) = err (derivation e)
derived (ok p) = ok p

unfoldable pub open_record : RangeConfig → ℕ → Bytes → Result StreamError Bytes
unfolding opened derived
open_record cfg index sealed = do
  p ← derived (record_params cfg.reader index)
  text ← opened (cfg.reader.aead.unseal p.0 sealed p.1)
  extract cfg index text

-- What reading the next record does: there is one, the source is at its end, or an error.
pub data Filled : Type 0 where
  next drained : RangeReader → Filled
  broken : StreamError → RangeReader → Filled

unfoldable pub take_record : RangeReader → Result StreamError Bytes → Filled
take_record r (err e) = broken e r
take_record r (ok text) = next (record r {
  pending = r.pending ++ text;
  inner = record r.inner { chunk_index = r.inner.chunk_index + 1 };
})

after_read : RangeConfig → RangeReader → Bytes → ReadEnd → Filled
unfolding take_record
after_read cfg r [] at_end = drained r
after_read cfg r sealed (Source.failed e) = broken (io_fault e) r
after_read cfg r sealed result = take_record r (open_record cfg r.inner.chunk_index sealed)

read_sized : RangeConfig → RangeReader → Result StreamError ℕ → Filled
unfolding after_read
read_sized cfg r (err e) = broken e r
read_sized cfg r (ok size) =
    let got = read_full size r.inner.source in
    after_read cfg (record r { inner = record r.inner { source = got.source } }) got.bytes
      got.result

unfoldable pub range_fill : RangeConfig → RangeReader → Filled
unfolding read_sized
range_fill cfg r = read_sized cfg r (expected_size cfg r.inner.chunk_index)

-- The reader that the loop goes on with.
abbrev pub filled_reader : Filled → RangeReader
filled_reader (next r) = r
filled_reader (drained r) = r
filled_reader (broken e r) = r

-- `total` bytes were returned when the records ran out.
abbrev pub close_at : ℕ → RangeReader → ReadResult RangeState
close_at total r = record {
  out = [];
  outcome = if total == 0 then eof else more;
  reader = record r { done = true };
}

unfoldable pub after_fill : ℕ → Filled → ReadResult RangeState → ReadResult RangeState
after_fill total (next r) again = again
after_fill total (drained r) again = close_at total r
after_fill total (broken e r) again = record {
  out = [];
  outcome = Loop.failed e;
  reader = record r { error = some e };
}

abbrev pub prepend : Bytes → ReadResult RangeState → ReadResult RangeState
prepend out x = record { out = out ++ x.out; outcome = x.outcome; reader = x.reader }

-- The loop of `Read`, with `want` bytes of room left and `total` bytes copied.
unfoldable pub range_loop : ℕ → RangeConfig → RangeReader → ℕ → ℕ → ReadResult RangeState
range_loop zero cfg r want total = record { out = []; outcome = more; reader = r }
range_loop (suc fuel) cfg r want total =
    let n = min (min (length r.pending) (max_bytes cfg - r.inner.returned)) want in
    let copied : RangeReader = record r {
      pending = drop n r.pending;
      inner = record r.inner { returned = r.inner.returned + n };
    } in
    let rest = range_loop fuel cfg copied (want - n) (total + n) in
    let filled = range_fill cfg r in
    let again = range_loop fuel cfg (filled_reader filled) want total in
    if (want == 0) || leb (max_bytes cfg) r.inner.returned
    then record { out = []; outcome = more; reader = r }
    else if ltb 0 (length r.pending)
    then (if leb (max_bytes cfg) copied.inner.returned
        then record {
          out = take n r.pending;
          outcome = eof;
          reader = record copied { done = true };
        }
        else prepend (take n r.pending) rest)
    else if ltb cfg.range.end_chunk r.inner.chunk_index
    then close_at total r
    else after_fill total filled again

read_unless : RangeConfig → RangeReader → ℕ → Option StreamError → ReadResult RangeState
read_unless cfg r want (some e) = record { out = []; outcome = Loop.failed e; reader = r }
read_unless cfg r want none = range_loop (want + length r.inner.source.bytes + 1) cfg r want 0

-- `Read(p)` with `want` bytes of room in `p`. A round of the loop copies a byte or reads one.
unfoldable pub range_read : RangeConfig → RangeReader → ℕ → ReadResult RangeState
unfolding read_unless
range_read cfg r want =
    if r.done
    then record { out = []; outcome = eof; reader = r }
    else read_unless cfg r want r.error

pub data RangeError : Type 0 where
  invalid_object bad_binding unsupported_version bad_chunk_size invalid_range range_too_far
        source_too_short :
      RangeError
  source_failed : ℕ → RangeError

skipped : RangeReader → ReadEnd → Result RangeError RangeReader
skipped r full = ok r
skipped r at_end = err source_too_short
skipped r (Source.failed e) = err (source_failed e)

abbrev checked : {E : Type 0} → Result E (Unit {0}) → RangeError → Result RangeError (Unit {0})
checked (ok u) e = ok u
checked (err x) e = err e

-- newRangeDecryptReader: the configuration and the reader. A source that the caller has not
-- positioned is read from its first byte, so the records before the range are discarded.
unfoldable pub new_range_reader :
    ReaderConfig
    → Source
    → ℕ
    → ℕ
    → ℕ
    → Bool
    → Option ℕ
    → Result RangeError (RangeConfig × RangeReader)
unfolding skipped
new_range_reader cfg source plain_start plain_end chunk_count is_optimized plain_size = do
  reject (not (cfg.version == v1) && not (cfg.version == v2)) unsupported_version
  checked (validate_chunk_size (pos cfg.chunk_size)) bad_chunk_size
  let range =
      calculate_chunk_range_from_plaintext (pos plain_start) (pos plain_end) (pos cfg.chunk_size)
        chunk_count
  reject (leb chunk_count range.end_chunk || ltb range.end_chunk range.start_chunk) invalid_range
  let skip = if is_optimized then 0 else range.start_chunk * (cfg.chunk_size + tag_size)
  reject (not is_optimized && ltb (max_int64 / (cfg.chunk_size + tag_size)) range.start_chunk)
      range_too_far
  let got = read_full skip source
  r ←
      skipped
        (record {
          pending = [];
          done = false;
          error = none;
          inner = record { source = got.source; chunk_index = range.start_chunk; returned = 0 };
        })
        got.result
  ok (
    record {
      reader = cfg;
      plain_start = plain_start;
      plain_end = plain_end;
      chunk_count = chunk_count;
      plain_size = plain_size;
      range = range;
    },
    r,
  )

-- newRangeDecryptReaderBound
unfoldable pub new_bound_range_reader :
    ReaderConfig
    → Binding
    → Source
    → ℕ
    → ℕ
    → ℕ
    → Bool
    → Option ℕ
    → Result RangeError (RangeConfig × RangeReader)
new_bound_range_reader cfg binding source plain_start plain_end chunk_count is_optimized
      plain_size =
    do
      checked (validate binding.object) invalid_object
      reject (not (length binding.binding_id == 16)) bad_binding
      new_range_reader (record cfg { binding = some binding }) source plain_start plain_end
          chunk_count is_optimized plain_size
