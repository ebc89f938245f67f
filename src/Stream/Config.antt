-- ===== src/Stream/Config.antt =====
-- What a reader is built with: the ciphers and the key derivation, which are library code and
-- enter as values, and the nonce and additional data of each record.
use Prim.Native.Nat.{bit_xor}
use mathlib.Core.List.{reverse}
use s3_encryption_gateway.Prelude.{
  ℕ, ◌+◌, ◌-◌, ◌*◌, ◌^◌, Bool, [], ◌∷◌, ◌++◌, Option, none, some, ltb, ◌==◌, if◌then◌else◌, not,
  Bytes, length, Result, ok, ◌>>=◌, ◌>>◌, reject, ◌≡◌,
}
use s3_encryption_gateway.Aad.{
  AadError, ObjectContext, chunked_v2_data, chunked_v2_trailer, build_object_aad, build_chunk_aad,
  build_terminal_aad, data_nonce_info, terminal_nonce_label, chunk_iv_info, unsupported_version,
  index_limit, derivation_failed,
}
use s3_encryption_gateway.Aad.Encoding.{big_endian, AreBytes}
use s3_encryption_gateway.Chunk.{v2, tag_size}

-- cipher.AEAD: nonce, text, additional data.
pub record Aead : Type 0 where
  pub seal : Bytes → Bytes → Bytes → Bytes
  pub unseal : Bytes → Bytes → Bytes → Option Bytes

-- What AES-GCM and ChaCha20-Poly1305 document: opening undoes sealing, a text that opens is the
-- sealed form of what it opens to, and sealing adds the tag.
pub record IsAead (a : Aead) : Type 0 where
  pub unseal-seal :
      (nonce text aad : Bytes)
      → AreBytes text
      → a.unseal nonce (a.seal nonce text aad) aad ≡ some text
  pub seal_of_unseal :
      (nonce sealed aad text : Bytes)
      → a.unseal nonce sealed aad ≡ some text
      → sealed ≡ a.seal nonce text aad
  pub AreBytes-unseal :
      (nonce sealed aad text : Bytes) → a.unseal nonce sealed aad ≡ some text → AreBytes text
  pub length-seal :
      (nonce text aad : Bytes) → length (a.seal nonce text aad) ≡ length text + tag_size

-- golang.org/x/crypto/hkdf over SHA-256: key, info and the number of bytes read. `expand` is
-- hkdf.Expand and `extract_expand` is hkdf.New with no salt.
pub record Hkdf : Type 0 where
  pub expand : Bytes → Bytes → ℕ → Bytes
  pub extract_expand : Bytes → Bytes → ℕ → Bytes

-- The object and the binding ID of a reader with `boundV2`.
pub record Binding : Type 0 where
  pub object : ObjectContext
  pub binding_id : Bytes

-- The fields of the two readers that never change.
pub record ReaderConfig : Type 0 where
  pub aead : Aead
  pub terminal_aead : Option Aead
  pub hkdf : Hkdf
  pub base_iv : Bytes
  pub chunk_size : ℕ
  pub version : ℕ
  pub binding : Option Binding
  pub hkdf_iv : Bool  -- manifest.IVDerivation == "hkdf-sha256"; an encrypting reader always has it

abbrev pub nonce_size : ℕ
nonce_size = 12

-- The HKDF reader fails past 255 blocks of 32 bytes.
read_hkdf : (Bytes → Bytes → ℕ → Bytes) → Bytes → Bytes → ℕ → Result AadError Bytes
read_hkdf derive key info n = do reject (ltb (255 * 32) n) derivation_failed; ok (derive key info n)

unfoldable pub derive_chunk_iv_hkdf_index : Hkdf → Bytes → ℕ → Result AadError Bytes
unfolding read_hkdf
derive_chunk_iv_hkdf_index hkdf base_iv index = do
  reject (ltb (2 ^ 32 - 1) index) index_limit
  read_hkdf hkdf.expand base_iv (chunk_iv_info index) (length base_iv)

-- XOR from the first byte on, as far as both go.
xor_front : Bytes → Bytes → Bytes
xor_front [] index = []
xor_front (b ∷ bs) [] = b ∷ bs
xor_front (b ∷ bs) (i ∷ is) = bit_xor b i ∷ xor_front bs is

unfoldable pub derive_legacy_chunk_iv_index : Bytes → ℕ → Result AadError Bytes
unfolding xor_front
derive_legacy_chunk_iv_index base_iv index = do
  reject (ltb (2 ^ 32 - 1) index) index_limit
  ok (reverse (xor_front (reverse base_iv) (reverse (big_endian 4 index))))

unfoldable pub derive_chunk_nonce_hkdf : Hkdf → Bytes → ℕ → ℕ → Result AadError Bytes
unfolding read_hkdf
derive_chunk_nonce_hkdf hkdf base_iv version index = do
  reject (not (version == v2)) unsupported_version
  read_hkdf hkdf.extract_expand base_iv (data_nonce_info index) nonce_size

unfoldable pub derive_terminal_nonce_hkdf : Hkdf → Bytes → ℕ → Result AadError Bytes
unfolding read_hkdf
derive_terminal_nonce_hkdf hkdf base_iv version = do
  reject (not (version == v2)) unsupported_version
  read_hkdf hkdf.extract_expand base_iv terminal_nonce_label nonce_size

abbrev pub data_aad : ReaderConfig → Option Binding → ℕ → Result AadError Bytes
data_aad cfg none index = ok (build_chunk_aad cfg.version index)
data_aad cfg (some b) index = build_object_aad chunked_v2_data b.object b.binding_id (index ∷ [])

abbrev pub trailer_aad : ReaderConfig → Option Binding → ℕ → ℕ → Result AadError Bytes
trailer_aad cfg none index size = ok (build_terminal_aad cfg.version)
trailer_aad cfg (some b) index size =
    build_object_aad chunked_v2_trailer b.object b.binding_id (index ∷ size ∷ [])

-- The nonce and the additional data of record `index`. The source keeps the last of two errors in
-- one variable; for version 2 the first step cannot fail.
unfoldable pub record_params : ReaderConfig → ℕ → Result AadError (Bytes × Bytes)
record_params cfg index =
    if cfg.version == v2
    then (do
      nonce ← derive_chunk_nonce_hkdf cfg.hkdf cfg.base_iv cfg.version index
      aad ← data_aad cfg cfg.binding index
      ok (nonce, aad))
    else if cfg.hkdf_iv
    then (do nonce ← derive_chunk_iv_hkdf_index cfg.hkdf cfg.base_iv index; ok (nonce, []))
    else (do nonce ← derive_legacy_chunk_iv_index cfg.base_iv index; ok (nonce, []))

unfoldable pub terminal_params : ReaderConfig → ℕ → ℕ → Result AadError (Bytes × Bytes)
terminal_params cfg index size = do
  nonce ← derive_terminal_nonce_hkdf cfg.hkdf cfg.base_iv cfg.version
  aad ← trailer_aad cfg cfg.binding index size
  ok (nonce, aad)

-- The plaintext of the terminal record: the counts of records and of plaintext bytes.
unfoldable pub encode_chunked_terminal : ℕ → ℕ → Bytes
encode_chunked_terminal count size = big_endian 8 count ++ big_endian 8 size
