-- ===== src/Tests/Streams.antt =====
-- The readers on ten bytes, in records of four, with the toy cipher.
use s3_encryption_gateway.Prelude.{ℕ, ◌≡◌, refl, ap, List, [], ◌∷◌, none, equal_bytes, arith}
use s3_encryption_gateway.Stream.Config.{
  record_params, derive_chunk_nonce_hkdf, terminal_params, derive_terminal_nonce_hkdf,
  encode_chunked_terminal,
}
use s3_encryption_gateway.Aad.Encoding.{big_endian, from_big_endian}
use s3_encryption_gateway.Stream.Source.{Source, poll, read_full}
use s3_encryption_gateway.Stream.Loop.{eof, read_loop}
use s3_encryption_gateway.Stream.Loop.Drain.{drain}
use s3_encryption_gateway.Stream.Format.{Seals}
use s3_encryption_gateway.Stream.Encrypt.{encrypt_fill, encrypt_read, new_encrypt_reader}
use s3_encryption_gateway.Stream.Encrypt.Drain.{encrypt_drain-Seals}
use s3_encryption_gateway.Stream.Decrypt.{
  decrypt_fill, fill_v2, decrypt_records, decrypt_data, decrypt_end, verify_terminal, decrypt_read,
  new_decrypt_reader,
}
use s3_encryption_gateway.Stream.Decrypt.Drain.{decrypt_drain-Seals}
use s3_encryption_gateway.Tests.Toy.{toy_config, toy_config-AreAeads}

abbrev plain : Source
plain = record { bytes = 1 ∷ 2 ∷ 3 ∷ 4 ∷ 5 ∷ 6 ∷ 7 ∷ 8 ∷ 9 ∷ 10 ∷ []; fault = none; polls = [] }

abbrev buffers : List ℕ
buffers = 7 ∷ 100 ∷ 5 ∷ []

encrypt_run : (drain (encrypt_read toy_config) buffers (new_encrypt_reader plain)).1 ≡ eof
unfolding drain encrypt_read encrypt_fill read_loop poll read_full record_params
    derive_chunk_nonce_hkdf terminal_params derive_terminal_nonce_hkdf encode_chunked_terminal
    big_endian
encrypt_run = refl

encrypt_drain-Seals_example :
    Seals toy_config 1 0 0
      (1 ∷ 2 ∷ 3 ∷ 4 ∷ 5 ∷ 6 ∷ 7 ∷ 8 ∷ 9 ∷ 10 ∷ [])
      (drain (encrypt_read toy_config) buffers (new_encrypt_reader plain)).0
encrypt_drain-Seals_example =
    encrypt_drain-Seals toy_config (omega arith) buffers plain
      (omega arith, (omega arith, (omega arith, tt))) encrypt_run

abbrev sealed : Source
sealed = record {
  bytes = (drain (encrypt_read toy_config) buffers (new_encrypt_reader plain)).0;
  fault = none;
  polls = [];
}

decrypt_run :
    drain (decrypt_read toy_config) buffers (new_decrypt_reader sealed)
    ≡ (1 ∷ 2 ∷ 3 ∷ 4 ∷ 5 ∷ 6 ∷ 7 ∷ 8 ∷ 9 ∷ 10 ∷ [], eof)
unfolding drain encrypt_read encrypt_fill decrypt_read decrypt_fill fill_v2 decrypt_records
    decrypt_data equal_bytes decrypt_end verify_terminal from_big_endian read_loop poll read_full
    record_params derive_chunk_nonce_hkdf terminal_params derive_terminal_nonce_hkdf
    encode_chunked_terminal big_endian
decrypt_run = refl

decrypt_drain-Seals_example :
    Seals toy_config 0 0 0
      (drain (decrypt_read toy_config) buffers (new_decrypt_reader sealed)).0
      sealed.bytes
decrypt_drain-Seals_example =
    decrypt_drain-Seals toy_config toy_config-AreAeads buffers sealed
      (omega arith, (omega arith, (omega arith, tt))) (ap (λ x. x.1) decrypt_run)
