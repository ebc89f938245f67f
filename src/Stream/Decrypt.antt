-- ===== src/Stream/Decrypt.antt =====
-- chunkedDecryptReader: the state, the filling step of its loop and `Read`.
pub mod Records
pub mod Sound
pub mod Step
pub mod Drain
pub mod Total
use s3_encryption_gateway.Prelude.{
  ℕ, zero, suc, ◌+◌, ◌-◌, Bool, true, false, List, [], ◌∷◌, ◌++◌, Option, none, some, ltb, ◌==◌,
  not, ◌&&◌, ◌||◌, if◌then◌else◌, Bytes, length, take, drop, Result, ok, err, max_uint64, wrap64,
  ◌≡◌,
}
use s3_encryption_gateway.Aad.{AadError}
use s3_encryption_gateway.Aad.Encoding.{from_big_endian}
use s3_encryption_gateway.Chunk.{v2, tag_size, chunked_terminal_size}
use s3_encryption_gateway.Stream.Config.{Aead, ReaderConfig, record_params, terminal_params}
use s3_encryption_gateway.Stream.Source.{
  StreamError, io_fault, cancelled, size_overflow, incomplete, open_failed, derivation, Source, Got,
  ReadEnd, full, at_end, read_full, poll,
}
use s3_encryption_gateway.Stream.Source
use s3_encryption_gateway.Stream.Loop.{Reader, Outcome, more, eof, ReadResult, read_loop, is_some}
use s3_encryption_gateway.Stream.Loop

pub record DecryptState : Type 0 where
  pub source : Source
  pub index : ℕ
  pub plain_size : ℕ
  pub lookbehind : Bytes

abbrev pub DecryptReader : Type 0
DecryptReader = Reader DecryptState

abbrev pub set_error : StreamError → DecryptReader → DecryptReader
set_error e r = record r { error = some e }

-- The bytes of a full record.
abbrev pub unit_size : ReaderConfig → ℕ
unit_size cfg = cfg.chunk_size + tag_size

-- The errors of `decryptData` reach the caller as they are for version 1, and as the completeness
-- error for version 2.
abbrev pub report : ReaderConfig → StreamError → StreamError
report cfg e = if cfg.version == v2 then incomplete else e

append_text : ReaderConfig → DecryptReader → Option Bytes → DecryptReader
append_text cfg r none = set_error (report cfg open_failed) r
append_text cfg r (some text) =
    let s = r.inner in
    let next : DecryptReader = record r {
      pending = r.pending ++ text;
      inner = record s { index = wrap64 (s.index + 1) };
    } in
    if ltb (max_uint64 - s.plain_size) (length text)
    then set_error (report cfg size_overflow) next
    else record next { inner = record next.inner { plain_size = s.plain_size + length text } }

open_with : ReaderConfig → DecryptReader → Bytes → Result AadError (Bytes × Bytes) → DecryptReader
unfolding append_text
open_with cfg r sealed (err e) = set_error (report cfg (derivation e)) r
open_with cfg r sealed (ok (nonce, aad)) = append_text cfg r (cfg.aead.unseal nonce sealed aad)

unfoldable pub decrypt_data : ReaderConfig → DecryptReader → Bytes → DecryptReader
unfolding open_with
decrypt_data cfg r sealed = open_with cfg r sealed (record_params cfg r.inner.index)

abbrev pub set_lookbehind : Bytes → DecryptReader → DecryptReader
set_lookbehind bytes r = record r { inner = record r.inner { lookbehind = bytes } }

-- `for len(r.lookbehind) > ChunkedTerminalSize+unit { … }`
unfoldable pub decrypt_records : ℕ → ReaderConfig → DecryptReader → DecryptReader
decrypt_records zero cfg r = r
decrypt_records (suc fuel) cfg r =
    let held = r.inner.lookbehind in
    let next = decrypt_data cfg r (take (unit_size cfg) held) in
    let rest = decrypt_records fuel cfg (set_lookbehind (drop (unit_size cfg) held) next) in
    if ltb (chunked_terminal_size + unit_size cfg) (length held)
    then (if is_some next.error then next else rest)
    else r

decode_chunked_terminal : Bytes → Result StreamError (ℕ × ℕ)
decode_chunked_terminal plain =
    if length plain == 16
    then ok (from_big_endian (take 8 plain), from_big_endian (drop 8 plain))
    else err incomplete

compare_counts : DecryptState → Result StreamError (ℕ × ℕ) → Option StreamError
compare_counts s (err e) = some e
compare_counts s (ok (count, size)) =
    if not (count == s.index) || not (size == s.plain_size) then some incomplete else none

check_plain : DecryptState → Option Bytes → Option StreamError
unfolding decode_chunked_terminal compare_counts
check_plain s none = some incomplete
check_plain s (some plain) = compare_counts s (decode_chunked_terminal plain)

check_terminal :
    DecryptState → Bytes → Option Aead → Result AadError (Bytes × Bytes) → Option StreamError
unfolding check_plain
check_terminal s terminal none params = some incomplete
check_terminal s terminal (some a) (err e) = some (derivation e)
check_terminal s terminal (some a) (ok (nonce, aad)) = check_plain s (a.unseal nonce terminal aad)

-- `verifyTerminal`: the error, if any.
unfoldable pub verify_terminal : ReaderConfig → DecryptState → Bytes → Option StreamError
unfolding check_terminal
verify_terminal cfg s terminal =
    if length terminal == chunked_terminal_size
    then check_terminal s terminal cfg.terminal_aead (terminal_params cfg s.index s.plain_size)
    else some incomplete

unfoldable pub conclude : DecryptReader → Option StreamError → DecryptReader
conclude r (some e) = set_error e r
conclude r none = record r { done = true; inner = record r.inner { lookbehind = [] } }

-- The end of the source: the last record, if any, and the terminal.
unfoldable pub decrypt_end : ReaderConfig → DecryptReader → DecryptReader
unfolding conclude
decrypt_end cfg r =
    let held = r.inner.lookbehind in
    let body = length held - chunked_terminal_size in
    let opened = if body == 0 then r else decrypt_data cfg r (take body held) in
    if ltb (length held) chunked_terminal_size
    then set_error incomplete r
    else if is_some opened.error
    then opened
    else conclude opened (verify_terminal cfg opened.inner (drop body held))

unfoldable pub after_read : ReaderConfig → DecryptReader → ReadEnd → DecryptReader
after_read cfg r full = r
after_read cfg r at_end = decrypt_end cfg r
after_read cfg r (Source.failed e) = set_error (io_fault e) r

-- A round for version 2, with `got` read.
unfoldable pub fill_v2 : ReaderConfig → DecryptReader → Bytes → ReadEnd → DecryptReader
unfolding after_read
fill_v2 cfg r got result =
    let held = r.inner.lookbehind ++ got in
    let opened = decrypt_records (length held) cfg (set_lookbehind held r) in
    if is_some opened.error then opened else after_read cfg opened result

-- A round for version 1.
unfoldable pub fill_v1 : ReaderConfig → DecryptReader → Bytes → ReadEnd → DecryptReader
fill_v1 cfg r (b ∷ bs) result = decrypt_data cfg r (b ∷ bs)
fill_v1 cfg r [] (Source.failed e) = set_error (io_fault e) r
fill_v1 cfg r [] _ = record r { done = true }

unfoldable pub decrypt_fill : ReaderConfig → DecryptReader → DecryptReader
decrypt_fill cfg r =
    let p = poll r.inner.source in
    let got = read_full (unit_size cfg) p.source in
    let polled : DecryptReader = record r { inner = record r.inner { source = p.source } } in
    let after : DecryptReader = record r { inner = record r.inner { source = got.source } } in
    if p.cancelled
    then set_error cancelled polled
    else if cfg.version == v2
    then fill_v2 cfg after got.bytes got.result
    else fill_v1 cfg after got.bytes got.result

abbrev pub decrypt_outcome : Option StreamError → Bytes → Outcome
decrypt_outcome (some e) out = Loop.failed e
decrypt_outcome none (b ∷ bs) = more
decrypt_outcome none [] = eof

unfoldable pub decrypt_open : ReaderConfig → DecryptReader → ℕ → ReadResult DecryptState
decrypt_open cfg r want =
    let x = read_loop (decrypt_fill cfg) (want + length r.inner.source.bytes + 2) r want in
    if want == 0
    then record { out = []; outcome = more; reader = r }
    else record { out = x.0; outcome = decrypt_outcome x.1.error x.0; reader = x.1 }

read_unless : ReaderConfig → DecryptReader → ℕ → Option StreamError → ReadResult DecryptState
unfolding decrypt_open
read_unless cfg r want (some e) = record { out = []; outcome = Loop.failed e; reader = r }
read_unless cfg r want none = decrypt_open cfg r want

-- `Read(p)` with `want` bytes of room in `p`.
unfoldable pub decrypt_read : ReaderConfig → DecryptReader → ℕ → ReadResult DecryptState
unfolding read_unless
decrypt_read cfg r want = read_unless cfg r want r.error

abbrev pub new_decrypt_reader : Source → DecryptReader
new_decrypt_reader source = record {
  pending = [];
  done = false;
  error = none;
  inner = record { source = source; index = 0; plain_size = 0; lookbehind = [] };
}
