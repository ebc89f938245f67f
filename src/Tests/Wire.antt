-- ===== src/Tests/Wire.antt =====
-- The two readers to the end of the file, on the ten bytes of Tests/Streams and with the toy cipher.
use s3_encryption_gateway.Prelude.{
  ℕ, ◌≡◌, refl, false, List, [], ◌∷◌, none, replicate, length, length-replicate, arith,
}
use s3_encryption_gateway.Aad.Encoding.{AreBytes}
use s3_encryption_gateway.Chunk.Count.{record_count}
use s3_encryption_gateway.Chunk.Sizes.{ciphertext_size}
use s3_encryption_gateway.Stream.Source.{Source}
use s3_encryption_gateway.Stream.Source.Healthy.{IsHealthy}
use s3_encryption_gateway.Stream.Format.{Seals}
use s3_encryption_gateway.Stream.Loop.{eof}
use s3_encryption_gateway.Stream.Loop.Drain.{drain, ArePositive-replicate}
use s3_encryption_gateway.Stream.Encrypt.{encrypt_read, new_encrypt_reader}
use s3_encryption_gateway.Stream.Encrypt.Total.{encrypt_drain_total}
use s3_encryption_gateway.Stream.Decrypt.{decrypt_read, new_decrypt_reader}
use s3_encryption_gateway.Stream.Decrypt.Total.Read.{decrypt_drain_total}
use s3_encryption_gateway.Stream.RoundTrip.{
  some_sealed, Seals-ciphertext_size, decrypt_drain-encrypt_drain,
}
use s3_encryption_gateway.Prelude.{pos, ok}
use s3_encryption_gateway.Chunk.{chunked_ciphertext_size}
use s3_encryption_gateway.Stream.Config.{ReaderConfig}
use s3_encryption_gateway.Stream.Decrypt.Sound.{AreAeads}
use s3_encryption_gateway.Chunk.Count.{IsChunkSize}
use s3_encryption_gateway.Stream.Size.{encrypt_drain-chunked_ciphertext_size}
use s3_encryption_gateway.Tests.Toy.{toy, toy_config, toy_config-AreAeads}

abbrev plain : Source
plain = record {
  bytes = 1 ∷ 2 ∷ 3 ∷ 4 ∷ 5 ∷ 6 ∷ 7 ∷ 8 ∷ 9 ∷ 10 ∷ [];
  fault = none;
  polls = false ∷ false ∷ [];
}

plain-IsHealthy : IsHealthy plain
plain-IsHealthy = record { no_fault = refl; calm = (refl, (refl, tt)) }

plain-AreBytes : AreBytes plain.bytes
plain-AreBytes = (
  omega arith,
  (
    omega arith,
    (
      omega arith,
      (
        omega arith,
        (
          omega arith,
          (omega arith, (omega arith, (omega arith, (omega arith, (omega arith, tt))))),
        ),
      ),
    ),
  ),
)

plain_size : ciphertext_size 10 4 2 ≡ 90
unfolding ciphertext_size record_count
plain_size = refl

some_ciphertext : (sealed : List ℕ) × Seals toy_config 1 0 0 plain.bytes sealed
some_ciphertext =
    some_sealed toy_config toy_config-AreAeads refl (omega arith) toy refl tt 11 0 0 plain.bytes
      (omega arith)

cipher_size : length some_ciphertext.0 ≡ ciphertext_size 10 4 2
cipher_size =
    Seals-ciphertext_size toy_config toy_config-AreAeads refl (omega arith) some_ciphertext.1

encrypt_drain_total_example :
    drain (encrypt_read toy_config) (replicate 91 7) (new_encrypt_reader plain)
    ≡ (some_ciphertext.0, eof)
encrypt_drain_total_example =
    encrypt_drain_total toy_config (omega arith) (replicate 91 7) plain some_ciphertext.0
      plain-IsHealthy some_ciphertext.1 (omega arith) (ArePositive-replicate 91 7 (omega arith))
      (omega (arith, plain_size, cipher_size, length-replicate {A = ℕ} 91 7))

abbrev stored : Source
stored = record { bytes = some_ciphertext.0; fault = none; polls = [] }

decrypt_drain_total_example :
    drain (decrypt_read toy_config) (replicate 11 7) (new_decrypt_reader stored)
    ≡ (plain.bytes, eof)
decrypt_drain_total_example =
    decrypt_drain_total toy_config toy_config-AreAeads refl (omega arith) (replicate 11 7) stored
      plain.bytes (record { no_fault = refl; calm = tt }) some_ciphertext.1 plain-AreBytes
      (omega arith) (ArePositive-replicate 11 7 (omega arith))
      (omega (arith, length-replicate {A = ℕ} 11 7))

decrypt_drain-encrypt_drain_example :
    let c = drain (encrypt_read toy_config) (replicate 91 7) (new_encrypt_reader plain) in
    (c.1 ≡ eof)
    × (length c.0 ≡ ciphertext_size 10 4 2)
    × (drain
          (decrypt_read toy_config)
          (replicate 11 3)
          (new_decrypt_reader (record { bytes = c.0; fault = none; polls = false ∷ [] }))
        ≡ (plain.bytes, eof))
decrypt_drain-encrypt_drain_example =
    decrypt_drain-encrypt_drain toy_config toy_config-AreAeads refl (omega arith) toy refl tt
      (replicate 91 7) (replicate 11 3) plain (false ∷ []) plain-IsHealthy plain-AreBytes
      (omega arith) (ArePositive-replicate 91 7 (omega arith))
      (omega (arith, plain_size, length-replicate {A = ℕ} 91 7)) (refl, tt)
      (ArePositive-replicate 11 3 (omega arith)) (omega (arith, length-replicate {A = ℕ} 11 3))

-- The same plaintext in records of 64 KiB.
abbrev wide_config : ReaderConfig
wide_config = record toy_config { chunk_size = 65536 }

wide_config-AreAeads : AreAeads wide_config
wide_config-AreAeads = record {
  data_laws = toy_config-AreAeads.data_laws;
  terminal_laws = toy_config-AreAeads.terminal_laws;
}

wide_size : ciphertext_size 10 65536 2 ≡ 58
unfolding ciphertext_size record_count
wide_size = refl

wide_run :
    let out = drain (encrypt_read wide_config) (replicate 59 7) (new_encrypt_reader plain) in
    (out.1 ≡ eof)
    × (length out.0 ≡ ciphertext_size 10 65536 2)
    × (drain
          (decrypt_read wide_config)
          (replicate 11 7)
          (new_decrypt_reader (record { bytes = out.0; fault = none; polls = [] }))
        ≡ (plain.bytes, eof))
wide_run =
    decrypt_drain-encrypt_drain wide_config wide_config-AreAeads refl (omega arith) toy refl tt
      (replicate 59 7) (replicate 11 7) plain [] plain-IsHealthy plain-AreBytes (omega arith)
      (ArePositive-replicate 59 7 (omega arith))
      (omega (arith, wide_size, length-replicate {A = ℕ} 59 7)) tt
      (ArePositive-replicate 11 7 (omega arith)) (omega (arith, length-replicate {A = ℕ} 11 7))

wide_config-IsChunkSize : IsChunkSize 65536
wide_config-IsChunkSize = omega arith

encrypt_drain-chunked_ciphertext_size_example :
    chunked_ciphertext_size (pos 10) (pos 65536) 2
    ≡ ok (length (drain (encrypt_read wide_config) (replicate 59 7) (new_encrypt_reader plain)).0)
encrypt_drain-chunked_ciphertext_size_example =
    encrypt_drain-chunked_ciphertext_size wide_config (replicate 59 7) plain wide_config-AreAeads
      refl wide_config-IsChunkSize (ArePositive-replicate 59 7 (omega arith)) wide_run.0
      (omega (arith, wide_size, wide_run.1))
