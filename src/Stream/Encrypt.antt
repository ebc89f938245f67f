-- ===== src/Stream/Encrypt.antt =====
-- chunkedEncryptReader: the state, the filling step of its loop and `Read`.
pub mod Sound
pub mod Drain
pub mod Total
use s3_encryption_gateway.Prelude.{
  ℕ, zero, suc, ◌+◌, ◌-◌, Bool, true, false, List, [], ◌∷◌, ◌++◌, Option, none, some, ltb, ◌==◌,
  if◌then◌else◌, Bytes, length, Result, ok, err, max_uint64, wrap64, ◌&&◌, ◌≡◌,
}
use s3_encryption_gateway.Aad.{AadError}
use s3_encryption_gateway.Chunk.{v2}
use s3_encryption_gateway.Stream.Config.{
  Aead, ReaderConfig, record_params, terminal_params, encode_chunked_terminal,
}
use s3_encryption_gateway.Stream.Source.{
  StreamError, io_fault, cancelled, size_overflow, count_overflow, no_terminal_aead, derivation,
  Source, Got, ReadEnd, full, at_end, read_full, poll,
}
use s3_encryption_gateway.Stream.Source
use s3_encryption_gateway.Stream.Loop.{Reader, Outcome, more, eof, ReadResult, read_loop, is_some}
use s3_encryption_gateway.Stream.Loop

pub record EncryptState : Type 0 where
  pub source : Source
  pub index : ℕ
  pub plain_size : ℕ
  pub chunk_count : ℕ  -- manifest.ChunkCount

abbrev pub EncryptReader : Type 0
EncryptReader = Reader EncryptState

abbrev pub set_error : StreamError → EncryptReader → EncryptReader
set_error e r = record r { error = some e }

-- `n > 0`: the record is sealed before the two overflow tests.
count_record : ℕ → EncryptReader → EncryptReader
count_record n r =
    let s = r.inner in
    let sized : EncryptReader = record r { inner = record s { plain_size = s.plain_size + n } } in
    if ltb (max_uint64 - s.plain_size) n
    then set_error size_overflow r
    else if s.index == max_uint64
    then set_error count_overflow sized
    else record r {
      inner = record s {
        plain_size = s.plain_size + n;
        index = wrap64 (s.index + 1);
        chunk_count = wrap64 (s.index + 1);
      };
    }

seal_with : ReaderConfig → EncryptReader → Bytes → Result AadError (Bytes × Bytes) → EncryptReader
unfolding count_record
seal_with cfg r text (err e) = set_error (derivation e) r
seal_with cfg r text (ok (nonce, aad)) =
    count_record (length text) (record r { pending = cfg.aead.seal nonce text aad })

unfoldable pub seal_record : ReaderConfig → EncryptReader → Bytes → EncryptReader
unfolding seal_with
seal_record cfg r text = seal_with cfg r text (record_params cfg r.inner.index)

terminal_with : Option Aead → EncryptReader → Result AadError (Bytes × Bytes) → EncryptReader
terminal_with none r params = set_error no_terminal_aead r
terminal_with (some a) r (err e) = set_error (derivation e) r
terminal_with (some a) r (ok (nonce, aad)) = record r {
  pending = a.seal nonce (encode_chunked_terminal r.inner.index r.inner.plain_size) aad;
}

-- The end of the source: version 2 appends the terminal.
unfoldable pub seal_terminal : ReaderConfig → EncryptReader → EncryptReader
unfolding terminal_with
seal_terminal cfg r =
    if cfg.version == v2
    then terminal_with cfg.terminal_aead r (terminal_params cfg r.inner.index r.inner.plain_size)
    else r

at_source_end : ReaderConfig → EncryptReader → ReadEnd → EncryptReader
unfolding seal_terminal
at_source_end cfg r (Source.failed e) = set_error (io_fault e) r
at_source_end cfg r _ = seal_terminal cfg (record r { done = true })

take_chunk : ReaderConfig → EncryptReader → Bytes → ReadEnd → EncryptReader
unfolding at_source_end seal_record
take_chunk cfg r [] result = at_source_end cfg r result
take_chunk cfg r (b ∷ bs) result = seal_record cfg r (b ∷ bs)

-- What a round of the loop does when nothing is pending.
unfoldable pub encrypt_fill : ReaderConfig → EncryptReader → EncryptReader
unfolding take_chunk
encrypt_fill cfg r =
    let p = poll r.inner.source in
    let got = read_full cfg.chunk_size p.source in
    let polled : EncryptReader = record r { inner = record r.inner { source = p.source } } in
    let after : EncryptReader = record r { inner = record r.inner { source = got.source } } in
    if p.cancelled then set_error cancelled polled else take_chunk cfg after got.bytes got.result

abbrev pub encrypt_outcome : Option StreamError → Bytes → Bool → Outcome
encrypt_outcome (some e) out done = Loop.failed e
encrypt_outcome none (b ∷ bs) done = more
encrypt_outcome none [] true = eof
encrypt_outcome none [] false = more

-- `Read(p)` with `want` bytes of room in `p`. The fuel is one more than the loop can use.
unfoldable pub encrypt_open : ReaderConfig → EncryptReader → ℕ → ReadResult EncryptState
encrypt_open cfg r want =
    let x = read_loop (encrypt_fill cfg) (want + length r.inner.source.bytes + 2) r want in
    if r.done && (length r.pending == 0)
    then record { out = []; outcome = eof; reader = r }
    else record { out = x.0; outcome = encrypt_outcome x.1.error x.0 x.1.done; reader = x.1 }

read_unless : ReaderConfig → EncryptReader → ℕ → Option StreamError → ReadResult EncryptState
unfolding encrypt_open
read_unless cfg r want (some e) = record { out = []; outcome = Loop.failed e; reader = r }
read_unless cfg r want none = encrypt_open cfg r want

unfoldable pub encrypt_read : ReaderConfig → EncryptReader → ℕ → ReadResult EncryptState
unfolding read_unless
encrypt_read cfg r want = read_unless cfg r want r.error

-- A new reader over a source.
abbrev pub new_encrypt_reader : Source → EncryptReader
new_encrypt_reader source = record {
  pending = [];
  done = false;
  error = none;
  inner = record { source = source; index = 0; plain_size = 0; chunk_count = 0 };
}

-- `Close`
abbrev pub close {ℓ} : {S : Type ℓ} → Reader S → Reader S
close r = record r { done = true }
