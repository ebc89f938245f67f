-- ===== src/Stream/Format/Amounts.antt =====
-- The lengths of the parts of the version 2 wire format.
use s3_encryption_gateway.Prelude.{
  ℕ, ◌+◌, ◌≤◌, ◌<◌, [], Bytes, length, some, ◌≡◌, ap, ◌∙◌, ◌⊎◌, inl, inr, arith, length-append,
}
use s3_encryption_gateway.Aad.Encoding.{big_endian, length-big_endian}
use s3_encryption_gateway.Chunk.{v2, tag_size}
use s3_encryption_gateway.Stream.Config.{ReaderConfig, Aead, IsAead, encode_chunked_terminal}
use s3_encryption_gateway.Stream.Format.{
  IsRecord, IsTerminal, absent, present, Seals, finish, last, chunk,
}
use s3_encryption_gateway.Stream.Format.Next.{Next, Seals-cases}

pub length-encode_chunked_terminal :
    (count size : ℕ) → length (encode_chunked_terminal count size) ≡ 16
unfolding encode_chunked_terminal
length-encode_chunked_terminal count size = omega (
  arith,
  length-append (big_endian 8 count) (big_endian 8 size),
  length-big_endian 8 count,
  length-big_endian 8 size,
)

module _ (cfg : ReaderConfig) (data_laws : IsAead cfg.aead)
    (terminal_laws : (a : Aead) → cfg.terminal_aead ≡ some a → IsAead a) (v : cfg.version ≡ v2)
    (pos : 0 < cfg.chunk_size) where
  pub length-record :
      {index : ℕ} {text sealed : Bytes}
      → IsRecord cfg index text sealed
      → length sealed ≡ length text + tag_size
  length-record {text} i =
      ap (length {A = ℕ}) i.sealed_is ∙ data_laws.length-seal i.nonce text i.aad

  pub length-terminal :
      {index size : ℕ} {sealed : Bytes} → IsTerminal cfg index size sealed → length sealed ≡ 32
  length-terminal (absent n e) = absurd (n v)
  length-terminal {index} {size} (present a nonce aad w ea p e) = omega (
    arith,
    ap (length {A = ℕ}) e,
    (terminal_laws a ea).length-seal nonce (encode_chunked_terminal index size) aad,
    length-encode_chunked_terminal index size,
  )

  -- A ciphertext has at least its terminal.
  pub Seals_least :
      {index size : ℕ} {text sealed : Bytes}
      → Seals cfg 1 index size text sealed
      → 32 ≤ length sealed
  Seals_least (finish t) = omega (arith, length-terminal t)
  Seals_least (last piece terminal i s m t e) =
      omega (arith, ap (length {A = ℕ}) e, length-append piece terminal, length-terminal t)
  Seals_least (chunk part piece text_rest sealed_rest i l s e f) =
      omega (arith, ap (length {A = ℕ}) f, length-append piece sealed_rest, Seals_least s)

  pub length-Next :
      {index size : ℕ} {text sealed : Bytes} (n : Next cfg index size text sealed)
      → length sealed ≡ length n.part + tag_size + length n.sealed_rest
  length-Next n = omega (
    arith,
    ap (length {A = ℕ}) n.sealed_is,
    length-append n.piece n.sealed_rest,
    length-record n.is_record,
  )

  -- A ciphertext no longer than a terminal is one.
  pub only-IsTerminal :
      {index size : ℕ} {text sealed : Bytes}
      → Seals cfg 1 index size text sealed
      → length sealed ≤ 32
      → (text ≡ []) × IsTerminal cfg index size sealed
  only-IsTerminal s h = elim (Seals-cases cfg pos s) [
    | inl x ↦ x
    | inr n ↦ absurd (omega (arith, length-Next n, Seals_least n.goes_on))
  ]

  no_text :
      {index size : ℕ} {text sealed : Bytes}
      → Seals cfg 1 index size text sealed
      → text ≡ []
      → length sealed ≡ 32
  no_text s e = elim (Seals-cases cfg pos s) [
    | inl x ↦ length-terminal x.1
    | inr n ↦ absurd (
        omega (
          arith,
          ap (length {A = ℕ}) (n.text_is),
          ap (length {A = ℕ}) e,
          length-append n.part n.text_rest,
          n.some_text,
        ))
  ]

  -- What is left after a record that is not full is the terminal.
  pub last_or_full :
      {index size : ℕ} {text sealed : Bytes} (n : Next cfg index size text sealed)
      → (length n.part ≡ cfg.chunk_size) ⊎ (length n.sealed_rest ≡ 32)
  last_or_full n = elim n.fills [ inl e ↦ inl e | inr e ↦ inr (no_text n.goes_on e) ]
