-- ===== src/Tests/Slices.antt =====
-- A range of an object of ten bytes, in records of the smallest size that the format allows.
use mathlib.Core.Path.{subst}
use s3_encryption_gateway.Prelude.{
  ℕ, ◌+◌, ◌-◌, ◌*◌, ◌≡◌, refl, true, false, [], ◌∷◌, none, some, replicate, length,
  length-replicate, take, drop, ok, pos, arith, Bytes,
}
use s3_encryption_gateway.Aad.Encoding.{AreBytes}
use s3_encryption_gateway.Chunk.{
  v2, calculate_chunk_range_from_plaintext, chunked_encrypted_data_range_for_plaintext_size,
  chunked_data_chunk_count, chunked_encrypted_data_range, chunked_ciphertext_size,
  validate_chunk_size, validate_chunked_version,
}
use s3_encryption_gateway.Chunk.Count.{IsChunkSize, record_count}
use s3_encryption_gateway.Chunk.Sizes.{ciphertext_size}
use s3_encryption_gateway.Stream.Config.{ReaderConfig, IsAead}
use s3_encryption_gateway.Stream.Format.{Seals}
use s3_encryption_gateway.Stream.Source.{Source}
use s3_encryption_gateway.Stream.Loop.{eof}
use s3_encryption_gateway.Stream.Loop.Drain.{drain, ArePositive-replicate}
use s3_encryption_gateway.Stream.Decrypt.Sound.{AreAeads}
use s3_encryption_gateway.Stream.RoundTrip.{some_sealed, Seals-ciphertext_size}
use s3_encryption_gateway.Range.{RangeConfig, RangeReader, range_read, new_range_reader}
use s3_encryption_gateway.Range.Total.Read.Sliced.{
  range_config, start_reader, range_drain-slice, range_drain-skipped,
}
use s3_encryption_gateway.Tests.Toy.{toy, toy-IsAead, toy_config, some-injective}

abbrev wide : ReaderConfig
wide = record toy_config { chunk_size = 16384 }

wide-AreAeads : AreAeads wide
wide-AreAeads = record {
  data_laws = toy-IsAead;
  terminal_laws = λ a h. subst IsAead (some-injective toy a h) toy-IsAead;
}

wide-IsChunkSize : IsChunkSize 16384
wide-IsChunkSize = record { at_least = omega arith; at_most = omega arith }

abbrev text : Bytes
text = 1 ∷ 2 ∷ 3 ∷ 4 ∷ 5 ∷ 6 ∷ 7 ∷ 8 ∷ 9 ∷ 10 ∷ []

text-AreBytes : AreBytes text
text-AreBytes = (
  omega arith,
  (
    omega arith,
    (
      omega arith,
      (
        omega arith,
        (
          omega arith,
          (omega arith, (omega arith, (omega arith, (omega arith, (omega arith, tt))))),
        ),
      ),
    ),
  ),
)

some_ciphertext : (sealed : Bytes) × Seals wide 1 0 0 text sealed
some_ciphertext =
    some_sealed wide wide-AreAeads refl (omega arith) toy refl tt 11 0 0 text (omega arith)

abbrev config : RangeConfig
config =
    range_config wide wide-AreAeads refl (omega arith) wide-IsChunkSize text some_ciphertext.0
      some_ciphertext.1 text-AreBytes (omega arith) 2 5 (omega arith) (omega arith)

abbrev start : Source → RangeReader
start =
    start_reader wide wide-AreAeads refl (omega arith) wide-IsChunkSize text some_ciphertext.0
      some_ciphertext.1 text-AreBytes (omega arith) 2 5 (omega arith) (omega arith)

data_range :
    chunked_encrypted_data_range_for_plaintext_size config.range.start_chunk config.range.end_chunk
      (pos 10)
      (pos 16384)
      v2
    ≡ ok (0, 25)
unfolding chunked_encrypted_data_range_for_plaintext_size chunked_data_chunk_count
    chunked_encrypted_data_range chunked_ciphertext_size validate_chunk_size
    validate_chunked_version calculate_chunk_range_from_plaintext record_count
data_range = refl

abbrev fetched : Source
fetched = record { bytes = take (25 + 1 - 0) (drop 0 some_ciphertext.0); fault = none; polls = [] }

range_drain-slice_example :
    (new_range_reader wide fetched 2 5 (record_count 10 16384) true (some 10)
      ≡ ok (config, start fetched))
    × (drain (range_read config) (replicate 4 3) (start fetched)
        ≡ (take (5 + 1 - 2) (drop 2 text), eof))
range_drain-slice_example =
    range_drain-slice wide wide-AreAeads refl (omega arith) wide-IsChunkSize text some_ciphertext.0
      some_ciphertext.1 text-AreBytes (omega arith) 2 5 (omega arith) (omega arith) (replicate 4 3)
      fetched (0, 25) data_range refl (ArePositive-replicate 4 3 (omega arith))
      (omega (arith, length-replicate {A = ℕ} 4 3))

abbrev whole : Source
whole = record { bytes = some_ciphertext.0; fault = none; polls = [] }

sealed_size : length some_ciphertext.0 ≡ 58
unfolding ciphertext_size record_count
sealed_size = Seals-ciphertext_size wide wide-AreAeads refl (omega arith) some_ciphertext.1

range_drain-skipped_example :
    (new_range_reader wide whole 2 5 (record_count 10 16384) false (some 10)
      ≡ ok (
        config,
        start (record whole { bytes = drop (config.range.start_chunk * (16384 + 16)) whole.bytes }),
      ))
    × (drain (range_read config) (replicate 4 3) (
          start
            (record whole { bytes = drop (config.range.start_chunk * (16384 + 16)) whole.bytes }))
        ≡ (take (5 + 1 - 2) (drop 2 text), eof))
range_drain-skipped_example =
    range_drain-skipped wide wide-AreAeads refl (omega arith) wide-IsChunkSize text
      some_ciphertext.0 some_ciphertext.1 text-AreBytes (omega arith) 2 5 (omega arith)
      (omega arith) (replicate 4 3) whole refl (omega (arith, sealed_size))
      (ArePositive-replicate 4 3 (omega arith)) (omega (arith, length-replicate {A = ℕ} 4 3))
