-- ===== src/Range/Total/Read/Sliced.antt =====
-- A range of an object, from the backend's bytes to the client.
use mathlib.Core.List.{append-nil}
use s3_encryption_gateway.Prelude.{
  ℕ, ◌+◌, ◌-◌, ◌*◌, ◌/◌, ◌≤◌, ◌<◌, true, false, ◌||◌, List, [], ◌++◌, none, some, ltb, leb, ◌==◌,
  min, Bytes, length, take, drop, ok, max_int64, pos, ◌≡◌, refl, sym, ap, ◌∙◌, ◌⊎◌, inl, inr, arith,
  Bool-cases, length-take, length-drop, take-append-drop, le→ltb,
}
use native.Mathlib.Nat.{le-div_iff_mul-le}
use s3_encryption_gateway.Aad.Encoding.{AreBytes}
use s3_encryption_gateway.Chunk.{
  v2, tag_size, ChunkRange, calculate_chunk_range_from_plaintext,
  chunked_encrypted_data_range_for_plaintext_size,
}
use s3_encryption_gateway.Chunk.Count.{
  IsChunkSize, record_count, record_count-IsCount, validate_chunk_size_lem,
}
use s3_encryption_gateway.Chunk.Sizes.{ciphertext_size}
use s3_encryption_gateway.Chunk.Ranges.{chunk_range_lem, data_range_bounds}
use s3_encryption_gateway.Stream.Config.{ReaderConfig}
use s3_encryption_gateway.Stream.Format.{Seals}
use s3_encryption_gateway.Stream.Decrypt.Sound.{AreAeads}
use s3_encryption_gateway.Stream.Decrypt.Total.{AreBytes_front}
use s3_encryption_gateway.Stream.RoundTrip.{Seals-ciphertext_size}
use s3_encryption_gateway.Stream.Source.{Source, read_full}
use s3_encryption_gateway.Stream.Loop.{eof}
use s3_encryption_gateway.Stream.Loop.Drain.{drain, ArePositive}
use s3_encryption_gateway.Range.{RangeConfig, RangeReader, range_read, new_range_reader}
use s3_encryption_gateway.Range.Sizes.{IsRange, skip}
use s3_encryption_gateway.Range.Total.{Promise}
use s3_encryption_gateway.Range.Total.Read.{range_drain_total}
use s3_encryption_gateway.Range.Records.{drop-drop, read_nothing, Seals_eq, later_records, add_mul}

module _ (cfg : ReaderConfig) (laws : AreAeads cfg) (v : cfg.version ≡ v2)
    (some_chunk : 0 < cfg.chunk_size) where
  abbrev unit : ℕ
  unit = cfg.chunk_size + tag_size

  module _ (allowed : IsChunkSize cfg.chunk_size) (text sealed : Bytes)
      (seals : Seals cfg 1 0 0 text sealed) (are_bytes : AreBytes text)
      (fits : length text ≤ max_int64) (a b : ℕ) (ordered : a ≤ b) (inside : b < length text) where
    abbrev pub cut : ChunkRange
    cut =
        calculate_chunk_range_from_plaintext (pos a) (pos b) (pos cfg.chunk_size)
          (record_count (length text) cfg.chunk_size)

    abbrev pub range_config : RangeConfig
    range_config = record {
      reader = cfg;
      plain_start = a;
      plain_end = b;
      chunk_count = record_count (length text) cfg.chunk_size;
      plain_size = some (length text);
      range = cut;
    }

    cut_lem : IsRange range_config (length text)
    cut_lem =
        let (s, t, e, f, o, h) =
          chunk_range_lem a b (length text) cfg.chunk_size some_chunk ordered inside in
        record {
          start_is = s;
          start_in = t;
          end_is = e;
          end_in = f;
          ordered = ordered;
          inside = inside;
          is_count = record_count-IsCount (length text) cfg.chunk_size some_chunk;
          size_is = refl;
          fits = fits;
        }

    abbrev pub start_reader : Source → RangeReader
    start_reader s = record {
      pending = [];
      done = false;
      error = none;
      inner = record { source = s; chunk_index = cut.start_chunk; returned = 0 };
    }

    skip_start : skip range_config cut.start_chunk ≡ cut.start_offset
    unfolding skip
    skip_start =
        let same : (cut.start_chunk == cut.start_chunk) ≡ true = ground arith in rw same refl

    -- A reader in front of the first record of the range promises the range.
    start_Promise :
        (s : Source) (tail : Bytes)
        → s.bytes ++ tail ≡ drop (cut.start_chunk * unit) sealed
        → (((cut.end_chunk + 1 - cut.start_chunk) * unit ≤ length s.bytes) ⊎ (length tail ≤ 32))
        → Promise range_config laws v some_chunk
            (length text)
            cut_lem
            (start_reader s)
            (take (b + 1 - a) (drop a text))
    start_Promise s tail e covered =
        let i = cut_lem in
        let order =
          (chunk_range_lem a b (length text) cfg.chunk_size some_chunk ordered inside).4 in
        let before : cut.start_chunk * cfg.chunk_size < length text =
          omega (arith, i.start_is, ordered, inside) in
        let amount : length (take (b + 1 - a) (drop a text)) ≡ b + 1 - a =
          omega (arith, length-take (b + 1 - a) (drop a text), length-drop a text, inside) in
        let from : drop cut.start_offset (drop (cut.start_chunk * cfg.chunk_size) text)
            ≡ drop a text =
          drop-drop cut.start_offset (cut.start_chunk * cfg.chunk_size) text
          ∙ ap (λ k. drop k text) i.start_is in
        record {
          going = refl;
          fine = refl;
          some_left = omega (arith, amount, ordered);
          amount = omega (arith, amount);
          future = drop a text;
          prefix = ap (λ k. take k (drop a text)) (sym amount);
          enough = omega (arith, amount, length-drop a text, inside);
          ahead = inr (
            record {
              rest = drop (cut.start_chunk * cfg.chunk_size) text;
              tail = tail;
              seals = Seals_eq cfg laws v some_chunk (omega arith) (omega arith) refl (sym e) (
                  later_records cfg laws v some_chunk cut.start_chunk 0 0 text sealed seals before
                    (omega (arith, fits)));
              are_bytes =
                  (AreBytes_front (take (cut.start_chunk * cfg.chunk_size) text)
                    (drop (cut.start_chunk * cfg.chunk_size) text)
                    (rw (take-append-drop (cut.start_chunk * cfg.chunk_size) text) are_bytes)).1;
              position = omega (arith, length-drop (cut.start_chunk * cfg.chunk_size) text, before);
              from_start = omega arith;
              within = order;
              future_is =
                  sym from
                  ∙ ap (λ k. drop k (drop (cut.start_chunk * cfg.chunk_size) text))
                      (sym skip_start);
              covered = covered;
            },
            omega (arith, amount, skip_start, i.start_is, ordered),
          );
        }

    sizes : length sealed ≡ length text + record_count (length text) cfg.chunk_size * 16 + 32
    unfolding ciphertext_size
    sizes = Seals-ciphertext_size cfg laws v some_chunk seals

    spread : (k : ℕ) → k * unit ≡ k * cfg.chunk_size + k * 16
    spread k = grind arith

    slice_length : length (take (b + 1 - a) (drop a text)) ≡ b + 1 - a
    slice_length = omega (arith, length-take (b + 1 - a) (drop a text), length-drop a text, inside)

    accepted :
        (leb (record_count (length text) cfg.chunk_size) cut.end_chunk
          || ltb cut.end_chunk cut.start_chunk)
        ≡ false
    accepted =
        let (s, t, e, f, o, h) =
          chunk_range_lem a b (length text) cfg.chunk_size some_chunk ordered inside in
        ground (arith, o, h)

    -- The backend is asked for the range of bytes that ChunkedEncryptedDataRangeForPlaintextSize gives
    -- for the records of plaintext bytes `a` to `b`, and the source holds just those bytes of a version
    -- 2 ciphertext. The reader of the range is then built, and a client that reads it with at least as
    -- many positive buffers as the range has bytes receives exactly bytes `a` to `b` of the plaintext,
    -- and the end of the file. The chunk size is one that the format allows, the range lies in the
    -- object, and the ciphers keep their documented laws.
    pub range_drain-slice :
        (ws : List ℕ) (s : Source) (r : ℕ × ℕ)
        → chunked_encrypted_data_range_for_plaintext_size cut.start_chunk cut.end_chunk
            (pos (length text))
            (pos cfg.chunk_size)
            v2
          ≡ ok r
        → s.bytes ≡ take (r.1 + 1 - r.0) (drop r.0 sealed)
        → ArePositive ws
        → b + 1 - a ≤ length ws
        → (new_range_reader cfg s a b
              (record_count (length text) cfg.chunk_size)
              true
              (some (length text))
            ≡ ok (range_config, start_reader s))
          × (drain (range_read range_config) ws (start_reader s)
              ≡ (take (b + 1 - a) (drop a text), eof))
    unfolding new_range_reader
    range_drain-slice ws s r e bytes p l =
        let (first, final, some_bytes, order, last_in) =
          data_range_bounds cut.start_chunk cut.end_chunk (length text) cfg.chunk_size v2 r allowed
            fits e in
        let tail = drop (r.1 + 1 - r.0) (drop r.0 sealed) in
        let whole : s.bytes ++ tail ≡ drop (cut.start_chunk * unit) sealed =
          ap (λ x. x ++ tail) bytes
          ∙ take-append-drop (r.1 + 1 - r.0) (drop r.0 sealed)
          ∙ ap (λ k. drop k sealed) first in
        let held : length s.bytes ≡ min (r.1 + 1 - r.0) (length sealed - r.0) =
          ap (length {A = ℕ}) bytes
          ∙ length-take (r.1 + 1 - r.0) (drop r.0 sealed)
          ∙ ap (min (r.1 + 1 - r.0)) (length-drop r.0 sealed) in
        let rest : length tail ≡ length sealed - r.0 - (r.1 + 1 - r.0) =
          length-drop (r.1 + 1 - r.0) (drop r.0 sealed)
          ∙ ap (λ k. k - (r.1 + 1 - r.0)) (length-drop r.0 sealed) in
        let run : (cut.end_chunk + 1 - cut.start_chunk) * unit + cut.start_chunk * unit
            ≡ (cut.end_chunk + 1) * unit =
          run_of cut.start_chunk cut.end_chunk unit order in
        let covered : ((cut.end_chunk + 1 - cut.start_chunk) * unit ≤ length s.bytes)
            ⊎ (length tail ≤ 32) =
          elim (Bool-cases (
            leb ((cut.end_chunk + 1) * unit)
              (length text + record_count (length text) cfg.chunk_size * 16))) [
                | inl c ↦ inl (ground (arith, c, first, final, held, run, sizes, some_bytes))
                | inr c ↦ inr (ground (arith, c, first, final, rest, sizes, some_bytes))
              ] in
        (
          simp (v, validate_chunk_size_lem cfg.chunk_size allowed, accepted)
              (rw (read_nothing s) refl),
          range_drain_total range_config laws v some_chunk (length text) cut_lem ws (start_reader s)
              (take (b + 1 - a) (drop a text)) p (omega (arith, slice_length, l))
              (start_Promise s tail whole covered),
        )
      where
        run_of : (j k u : ℕ) → j ≤ k → (k + 1 - j) * u + j * u ≡ (k + 1) * u
        run_of j k u h =
            let e : k + 1 ≡ k + 1 - j + j = omega arith in
            add_mul (k + 1 - j) j u ∙ ap (λ x. x * u) (sym e)

    -- The same range out of a source that holds the whole ciphertext, of no more than an int64 of
    -- bytes: the reader discards the records before the range and gives the same bytes.
    pub range_drain-skipped :
        (ws : List ℕ) (s : Source)
        → s.bytes ≡ sealed
        → length sealed ≤ max_int64
        → ArePositive ws
        → b + 1 - a ≤ length ws
        → let skipped : Source = record s { bytes = drop (cut.start_chunk * unit) s.bytes } in
          (new_range_reader cfg s a b
              (record_count (length text) cfg.chunk_size)
              false
              (some (length text))
            ≡ ok (range_config, start_reader skipped))
          × (drain (range_read range_config) ws (start_reader skipped)
              ≡ (take (b + 1 - a) (drop a text), eof))
    unfolding new_range_reader read_full
    range_drain-skipped ws s bytes small p l =
        let (starts, t, e, f, o, h) =
          chunk_range_lem a b (length text) cfg.chunk_size some_chunk ordered inside in
        let past : cut.start_chunk * unit ≤ length s.bytes = omega (
          arith,
          spread cut.start_chunk,
          sizes,
          starts,
          ordered,
          inside,
          o,
          h,
          ap (length {A = ℕ}) bytes,
        ) in
        let near : cut.start_chunk ≤ max_int64 / unit =
          (le-div_iff_mul-le {k = unit} {x = cut.start_chunk} {y = max_int64} (omega arith)).1
            (omega (arith, past, small, ap (length {A = ℕ}) bytes)) in
        let reads : leb (cut.start_chunk * unit) (length s.bytes) ≡ true = ground (arith, past) in
        (
          simp
              (
                v,
                validate_chunk_size_lem cfg.chunk_size allowed,
                accepted,
                le→ltb (max_int64 / unit) cut.start_chunk near,
                reads,
              )
              refl,
          range_drain_total range_config laws v some_chunk (length text) cut_lem ws
              (start_reader (record s { bytes = drop (cut.start_chunk * unit) s.bytes }))
              (take (b + 1 - a) (drop a text)) p (omega (arith, slice_length, l))
              (start_Promise (record s { bytes = drop (cut.start_chunk * unit) s.bytes }) []
                (append-nil (drop (cut.start_chunk * unit) s.bytes)
                  ∙ ap (drop (cut.start_chunk * unit)) bytes)
                (inr (omega arith))),
        )
