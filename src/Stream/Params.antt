-- ===== src/Stream/Params.antt =====
-- When a version 2 reader derives its nonces and additional data without an error.
use s3_encryption_gateway.Prelude.{
  ℕ, ◌-◌, ◌^◌, ◌≤◌, true, List, [], ◌∷◌, ◌++◌, Option, none, some, ◌==◌, Bytes, length, ok, ◌≡◌,
  refl, arith, le→ltb,
}
use s3_encryption_gateway.Aad.{
  AadDomain, buffered_v2, chunked_v2_data, chunked_v2_trailer, mpu_v2_chunk, mpu_v2_manifest,
  ObjectContext, validate, domain_bytes, write_length_prefixed, build_object_aad, aad_magic,
  write_fields, data_nonce_info, terminal_nonce_label,
}
use s3_encryption_gateway.Aad.Encoding.{big_endian}
use s3_encryption_gateway.Chunk.{v2}
use s3_encryption_gateway.Stream.Config.{
  Binding, ReaderConfig, record_params, terminal_params, derive_chunk_nonce_hkdf,
  derive_terminal_nonce_hkdf, data_aad, trailer_aad, nonce_size,
}

write_short :
    (value : Bytes)
    → length value ≤ 65535
    → write_length_prefixed value ≡ ok (big_endian 4 (length value) ++ value)
unfolding write_length_prefixed
write_short value h = rw (le→ltb (2 ^ 32 - 1) (length value) (omega arith)) refl

domain_short : (d : AadDomain) → length (domain_bytes d) ≤ 65535
unfolding domain_bytes
domain_short buffered_v2 = omega arith
domain_short chunked_v2_data = omega arith
domain_short chunked_v2_trailer = omega arith
domain_short mpu_v2_chunk = omega arith
domain_short mpu_v2_manifest = omega arith

validate_bounds :
    (o : ObjectContext) → validate o ≡ ok tt → (length o.bucket ≤ 63) × (length o.key ≤ 1024)
unfolding validate
validate_bounds o h = ground arith

pub build_object_aad_total :
    (d : AadDomain) (o : ObjectContext) (id : Bytes) (fields : List ℕ)
    → validate o ≡ ok tt
    → length id ≡ 16
    → length fields ≤ 65535
    → (aad : Bytes) × (build_object_aad d o id fields ≡ ok aad)
unfolding build_object_aad
build_object_aad_total d o id fields v i f =
    let b = validate_bounds o v in
    let exact : (length id == 16) ≡ true = ground (arith, i) in
    (
      aad_magic
          ++ (big_endian 2 1
              ++ ((big_endian 4 (length (domain_bytes d)) ++ domain_bytes d)
                  ++ ((big_endian 4 (length o.bucket) ++ o.bucket)
                      ++ ((big_endian 4 (length o.key) ++ o.key)
                          ++ ((big_endian 4 (length id) ++ id)
                              ++ (big_endian 2 (length fields) ++ write_fields fields)))))),
      rw
          (
            v,
            exact,
            le→ltb 65535 (length fields) f,
            write_short (domain_bytes d) (domain_short d),
            write_short o.bucket (omega (arith, b.0)),
            write_short o.key (omega (arith, b.1)),
            write_short id (omega arith),
          )
          refl,
    )

-- A reader is bound to no object, or to a valid one by an identifier of 16 bytes.
abbrev pub IsBound : Option Binding → Type 0
IsBound none = Unit
IsBound (some b) = (validate b.object ≡ ok tt) × (length b.binding_id ≡ 16)

data_aad_total :
    (cfg : ReaderConfig) (b : Option Binding) (index : ℕ)
    → IsBound b
    → (aad : Bytes) × (data_aad cfg b index ≡ ok aad)
data_aad_total cfg none index h = (_, refl)
data_aad_total cfg (some b) index h =
    build_object_aad_total chunked_v2_data b.object b.binding_id (index ∷ []) h.0 h.1 (omega arith)

trailer_aad_total :
    (cfg : ReaderConfig) (b : Option Binding) (index size : ℕ)
    → IsBound b
    → (aad : Bytes) × (trailer_aad cfg b index size ≡ ok aad)
trailer_aad_total cfg none index size h = (_, refl)
trailer_aad_total cfg (some b) index size h =
    build_object_aad_total chunked_v2_trailer b.object b.binding_id (index ∷ size ∷ []) h.0 h.1
      (omega arith)

pub record_params_total :
    (cfg : ReaderConfig) (index : ℕ)
    → cfg.version ≡ v2
    → IsBound cfg.binding
    → (p : Bytes × Bytes) × (record_params cfg index ≡ ok p)
unfolding record_params derive_chunk_nonce_hkdf
record_params_total cfg index v h =
    let (aad, e) = data_aad_total cfg cfg.binding index h in
    (
      (cfg.hkdf.extract_expand cfg.base_iv (data_nonce_info index) nonce_size, aad),
      simp (v, e) refl,
    )

pub terminal_params_total :
    (cfg : ReaderConfig) (index size : ℕ)
    → cfg.version ≡ v2
    → IsBound cfg.binding
    → (p : Bytes × Bytes) × (terminal_params cfg index size ≡ ok p)
unfolding terminal_params derive_terminal_nonce_hkdf
terminal_params_total cfg index size v h =
    let (aad, e) = trailer_aad_total cfg cfg.binding index size h in
    ((cfg.hkdf.extract_expand cfg.base_iv terminal_nonce_label nonce_size, aad), simp (v, e) refl)
