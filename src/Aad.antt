-- ===== src/Aad.antt =====
-- internal/crypto/engine.go: the trusted identity of an object and the additional authenticated
-- data that binds a record to it. internal/crypto/chunked.go: the inputs of the nonces.
pub mod Encoding
pub mod Injective
use s3_encryption_gateway.Prelude.{
  ◌-◌, ℕ, zero, suc, ◌+◌, ◌*◌, ◌/◌, ◌%◌, ◌^◌, Bool, true, false, not, ◌&&◌, ◌||◌, List, [], ◌∷◌,
  ◌++◌, Option, none, some, ltb, leb, ◌==◌, if◌then◌else◌, Bytes, length, Result, ok, err, ◌>>=◌,
  ◌>>◌, reject, ◌≡◌, arith, refl, max_uint64,
}
use s3_encryption_gateway.Aad.Encoding.{big_endian}

pub data AadError : Type 0 where
  invalid_bucket invalid_key unsupported_domain bad_binding_id too_many_fields too_long : AadError
  unsupported_version index_limit derivation_failed : AadError

pub record ObjectContext : Type 0 where
  pub bucket : Bytes
  pub key : Bytes

unfoldable pub validate : ObjectContext → Result AadError (Unit {0})
validate o = do
  reject (length o.bucket == 0 || ltb 63 (length o.bucket)) invalid_bucket
  reject (length o.key == 0 || ltb 1024 (length o.key)) invalid_key

pub data AadDomain : Type 0 where
  buffered_v2 chunked_v2_data chunked_v2_trailer mpu_v2_chunk mpu_v2_manifest : AadDomain

-- The constants are the bytes of the source's string literals.
unfoldable pub domain_bytes : AadDomain → Bytes
domain_bytes buffered_v2 =
    b's' ∷ b'3' ∷ b'e' ∷ b'g' ∷ b'/' ∷ b'b' ∷ b'u' ∷ b'f' ∷ b'f' ∷ b'e' ∷ b'r' ∷ b'e' ∷ b'd' ∷ b'/'
    ∷ b'v' ∷ b'2' ∷ []
domain_bytes chunked_v2_data =
    b's' ∷ b'3' ∷ b'e' ∷ b'g' ∷ b'/' ∷ b'c' ∷ b'h' ∷ b'u' ∷ b'n' ∷ b'k' ∷ b'e' ∷ b'd' ∷ b'/' ∷ b'v'
    ∷ b'2' ∷ b'/' ∷ b'd' ∷ b'a' ∷ b't' ∷ b'a' ∷ []
domain_bytes chunked_v2_trailer =
    b's' ∷ b'3' ∷ b'e' ∷ b'g' ∷ b'/' ∷ b'c' ∷ b'h' ∷ b'u' ∷ b'n' ∷ b'k' ∷ b'e' ∷ b'd' ∷ b'/' ∷ b'v'
    ∷ b'2' ∷ b'/' ∷ b't' ∷ b'r' ∷ b'a' ∷ b'i' ∷ b'l' ∷ b'e' ∷ b'r' ∷ []
domain_bytes mpu_v2_chunk =
    b's' ∷ b'3' ∷ b'e' ∷ b'g' ∷ b'/' ∷ b'm' ∷ b'p' ∷ b'u' ∷ b'/' ∷ b'v' ∷ b'2' ∷ b'/' ∷ b'c' ∷ b'h'
    ∷ b'u' ∷ b'n' ∷ b'k' ∷ []
domain_bytes mpu_v2_manifest =
    b's' ∷ b'3' ∷ b'e' ∷ b'g' ∷ b'/' ∷ b'm' ∷ b'p' ∷ b'u' ∷ b'/' ∷ b'v' ∷ b'2' ∷ b'/' ∷ b'm' ∷ b'a'
    ∷ b'n' ∷ b'i' ∷ b'f' ∷ b'e' ∷ b's' ∷ b't' ∷ []

abbrev pub aad_magic : Bytes
aad_magic = b'S' ∷ b'3' ∷ b'E' ∷ b'G' ∷ b'A' ∷ b'A' ∷ b'D' ∷ 0 ∷ []

-- writeLengthPrefixed, with the refusal of checkedLengthPrefix
unfoldable pub write_length_prefixed : Bytes → Result AadError Bytes
write_length_prefixed value = do
  reject (ltb (2 ^ 32 - 1) (length value)) too_long
  ok (big_endian 4 (length value) ++ value)

unfoldable pub write_fields : List ℕ → Bytes
write_fields [] = []
write_fields (f ∷ fs) = big_endian 8 f ++ write_fields fs

-- The switch on the domain has no default case here: the type holds the five domains.
unfoldable pub build_object_aad : AadDomain → ObjectContext → Bytes → List ℕ → Result AadError Bytes
build_object_aad domain object binding_id fields = do
  validate object
  reject (not (length binding_id == 16)) bad_binding_id
  reject (ltb 65535 (length fields)) too_many_fields
  d ← write_length_prefixed (domain_bytes domain)
  b ← write_length_prefixed object.bucket
  k ← write_length_prefixed object.key
  i ← write_length_prefixed binding_id
  ok (
      aad_magic
      ++ (big_endian 2 1
          ++ (d ++ (b ++ (k ++ (i ++ (big_endian 2 (length fields) ++ write_fields fields)))))))

abbrev pub data_nonce_label : Bytes
data_nonce_label =
    b'c' ∷ b'h' ∷ b'u' ∷ b'n' ∷ b'k' ∷ b'e' ∷ b'd' ∷ b'-' ∷ b'v' ∷ b'2' ∷ b'/' ∷ b'd' ∷ b'a' ∷ b't'
    ∷ b'a' ∷ b'-' ∷ b'n' ∷ b'o' ∷ b'n' ∷ b'c' ∷ b'e' ∷ 0 ∷ []

abbrev pub terminal_nonce_label : Bytes
terminal_nonce_label =
    b'c' ∷ b'h' ∷ b'u' ∷ b'n' ∷ b'k' ∷ b'e' ∷ b'd' ∷ b'-' ∷ b'v' ∷ b'2' ∷ b'/' ∷ b't' ∷ b'e' ∷ b'r'
    ∷ b'm' ∷ b'i' ∷ b'n' ∷ b'a' ∷ b'l' ∷ b'-' ∷ b'n' ∷ b'o' ∷ b'n' ∷ b'c' ∷ b'e' ∷ 0 ∷ []

abbrev pub data_aad_label : Bytes
data_aad_label =
    b'c' ∷ b'h' ∷ b'u' ∷ b'n' ∷ b'k' ∷ b'e' ∷ b'd' ∷ b'-' ∷ b'v' ∷ b'2' ∷ b'/' ∷ b'd' ∷ b'a' ∷ b't'
    ∷ b'a' ∷ 0 ∷ []

abbrev pub terminal_aad_label : Bytes
terminal_aad_label =
    b'c' ∷ b'h' ∷ b'u' ∷ b'n' ∷ b'k' ∷ b'e' ∷ b'd' ∷ b'-' ∷ b'v' ∷ b'2' ∷ b'/' ∷ b't' ∷ b'e' ∷ b'r'
    ∷ b'm' ∷ b'i' ∷ b'n' ∷ b'a' ∷ b'l' ∷ 0 ∷ []

abbrev pub chunk_iv_label : Bytes
chunk_iv_label = b'c' ∷ b'h' ∷ b'u' ∷ b'n' ∷ b'k' ∷ b'-' ∷ b'i' ∷ b'v' ∷ []

unfoldable pub build_chunk_aad : ℕ → ℕ → Bytes
build_chunk_aad version index = if version == 2 then data_aad_label ++ big_endian 8 index else []

unfoldable pub build_terminal_aad : ℕ → Bytes
build_terminal_aad version = if version == 2 then terminal_aad_label else []

-- The `info` inputs of the key derivation.
unfoldable pub data_nonce_info : ℕ → Bytes
data_nonce_info index = data_nonce_label ++ big_endian 8 index

unfoldable pub chunk_iv_info : ℕ → Bytes
chunk_iv_info index = chunk_iv_label ++ big_endian 4 index
