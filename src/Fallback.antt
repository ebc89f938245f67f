-- ===== src/Fallback.antt =====
-- internal/crypto/keymanager_fallback.go: a key manager with a password-based one behind it. The
-- two are values: what they answer to an envelope, and to Close. An error keeps what errors.Is
-- tells of it.
pub mod Branches
use s3_encryption_gateway.Prelude.{
  Bool, true, false, ◌&&◌, ◌||◌, Option, none, some, if◌then◌else◌, Bytes, equal_bytes, Result, ok,
  err, List, [], ◌∷◌,
}
use s3_encryption_gateway.KeyManager.{KeyEnvelope}

pub data UnwrapError : Type 0 where
  unwrap_failed invalid_envelope other_error : UnwrapError

pub record FallbackKeyManager : Type 0 where
  pub primary : Option KeyEnvelope → Result UnwrapError Bytes
  pub fallback : Option KeyEnvelope → Result UnwrapError Bytes

-- passwordKMProvider
abbrev pub password_km_provider : Bytes
password_km_provider = b'p' ∷ b'a' ∷ b's' ∷ b's' ∷ b'w' ∷ b'o' ∷ b'r' ∷ b'd' ∷ []

unfoldable pub is_rejection : UnwrapError → Bool
is_rejection unwrap_failed = true
is_rejection invalid_envelope = true
is_rejection other_error = false

unfoldable pub is_password : Option KeyEnvelope → Bool
is_password none = false
is_password (some e) = equal_bytes e.provider password_km_provider

-- Both failed: the combined error is an ErrUnwrapFailed.
unfoldable pub combine : Result UnwrapError Bytes → Result UnwrapError Bytes
combine (ok text) = ok text
combine (err e) = err unwrap_failed

after_primary :
    FallbackKeyManager → Option KeyEnvelope → Result UnwrapError Bytes → Result UnwrapError Bytes
after_primary f envelope (ok text) = ok text
after_primary f envelope (err e) =
    if is_rejection e && is_password envelope then combine (f.fallback envelope) else err e

unfoldable pub fallback_unwrap_key :
    FallbackKeyManager → Option KeyEnvelope → Result UnwrapError Bytes
unfolding after_primary
fallback_unwrap_key f envelope = after_primary f envelope (f.primary envelope)

-- Both are closed; `none` is no error, and the primary's error comes first.
unfoldable pub fallback_close {ℓ} : {E : Type ℓ} → Option E → Option E → Option E
fallback_close none fallback_err = fallback_err
fallback_close (some e) fallback_err = some e
