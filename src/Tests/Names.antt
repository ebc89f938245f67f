-- ===== src/Tests/Names.antt =====
-- The bucket "a-b.c9", and a key manager whose primary rejects an old envelope.
use s3_encryption_gateway.Prelude.{
  ◌≡◌, refl, ◌≤◌, [], ◌∷◌, Option, some, Bytes, ok, err, Bool, false, pos, ◌⊎◌,
}
use s3_encryption_gateway.BucketName.{
  validate_bucket_name, split_dots, all_numeric, check_ends, is_alpha_num, last_byte, check_bytes,
  is_allowed,
}
use s3_encryption_gateway.BucketName.Accepted.{
  IsNameFrom, validate_bucket_name-IsNameFrom, cache_key-validate_bucket_name,
}
use s3_encryption_gateway.KeyManager.{KeyEnvelope}
use s3_encryption_gateway.Fallback.{
  invalid_envelope, FallbackKeyManager, password_km_provider, fallback_unwrap_key,
}
use s3_encryption_gateway.Fallback.Branches.{Rejects, IsPassword, fallback_unwrap_key_iff}
use s3_encryption_gateway.Prelude.{◌↔◌}

abbrev abc9 : Bytes
abc9 = b'a' ∷ b'-' ∷ b'b' ∷ b'.' ∷ b'c' ∷ b'9' ∷ []

abbrev never : Bytes → Bool
never = λ name. false

abc9_run : validate_bucket_name never abc9 ≡ ok tt
unfolding validate_bucket_name split_dots all_numeric check_ends is_alpha_num last_byte check_bytes
    is_allowed
abc9_run = refl

validate_bucket_name-IsNameFrom_example :
    (3 ≤ 6) × (6 ≤ 63) × (never abc9 ≡ false) × IsNameFrom 0 abc9
validate_bucket_name-IsNameFrom_example = validate_bucket_name-IsNameFrom never abc9 abc9_run

abbrev photo_key : Bytes
photo_key = b':' ∷ []

cache_key-validate_bucket_name_example : (abc9 ≡ abc9) × (photo_key ≡ photo_key)
cache_key-validate_bucket_name_example =
    cache_key-validate_bucket_name never abc9 photo_key abc9 photo_key abc9_run abc9_run refl

abbrev upgraded : FallbackKeyManager
upgraded = record { primary = λ e. err invalid_envelope; fallback = λ e. ok (4 ∷ []) }

abbrev old_envelope : Option KeyEnvelope
old_envelope =
    some (record { key_version = pos 0; provider = password_km_provider; ciphertext = 1 ∷ [] })

fallback_unwrap_key_iff_example : (fallback_unwrap_key upgraded old_envelope ≡ ok (4 ∷ [])) ↔ (
    (upgraded.primary old_envelope ≡ ok (4 ∷ []))
    ⊎ (Rejects upgraded old_envelope
        × IsPassword old_envelope
        × (upgraded.fallback old_envelope ≡ ok (4 ∷ []))))
fallback_unwrap_key_iff_example = fallback_unwrap_key_iff upgraded old_envelope (4 ∷ [])
