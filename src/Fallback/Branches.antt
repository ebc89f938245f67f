-- ===== src/Fallback/Branches.antt =====
-- When the fallback opens an envelope, and that it never changes a key of the primary.
use s3_encryption_gateway.Prelude.{
  true, ◌&&◌, Option, none, some, Bytes, ok, err, Result-cases, ◌≡◌, ◌↔◌, refl, ap, ◌∙◌, ◌⊎◌, inl,
  inr, Bool-cases, equal_bytes, equal_bytes→≡, equal_bytes_refl, and_passed, arith,
}
use s3_encryption_gateway.KeyManager.{KeyEnvelope}
use s3_encryption_gateway.Fallback.{
  UnwrapError, unwrap_failed, invalid_envelope, other_error, FallbackKeyManager, is_rejection,
  is_password, combine, password_km_provider, after_primary, fallback_unwrap_key,
}

-- An envelope of the password key manager.
pub record IsPassword (envelope : Option KeyEnvelope) : Type 0 where
  pub sealed : KeyEnvelope
  pub present : envelope ≡ some sealed
  pub provider_is : sealed.provider ≡ password_km_provider

-- The primary says that it cannot unwrap the key, or that the envelope is none of its own.
abbrev pub Rejects : FallbackKeyManager → Option KeyEnvelope → Type 0
Rejects f envelope =
    (f.primary envelope ≡ err unwrap_failed) ⊎ (f.primary envelope ≡ err invalid_envelope)

is_password-IsPassword :
    (envelope : Option KeyEnvelope) → is_password envelope ≡ true → IsPassword envelope
unfolding is_password
is_password-IsPassword none h = absurd (ground (arith, h))
is_password-IsPassword (some e) h = record {
  sealed = e;
  present = refl;
  provider_is = equal_bytes→≡ e.provider password_km_provider h;
}

IsPassword-is_password :
    (envelope : Option KeyEnvelope) → IsPassword envelope → is_password envelope ≡ true
unfolding is_password
IsPassword-is_password envelope k = rw k.present (
    ap (λ p. equal_bytes p password_km_provider) k.provider_is
    ∙ equal_bytes_refl password_km_provider)

rejected :
    (f : FallbackKeyManager) (envelope : Option KeyEnvelope) (e : UnwrapError)
    → f.primary envelope ≡ err e
    → is_rejection e ≡ true
    → Rejects f envelope
unfolding is_rejection
rejected f envelope unwrap_failed p h = inl p
rejected f envelope invalid_envelope p h = inr p
rejected f envelope other_error p h = absurd (ground (arith, h))

opened :
    (f : FallbackKeyManager) (envelope : Option KeyEnvelope) (e : UnwrapError) (text : Bytes)
    → f.primary envelope ≡ err e
    → after_primary f envelope (err e) ≡ ok text
    → Rejects f envelope × IsPassword envelope × (f.fallback envelope ≡ ok text)
unfolding after_primary combine
opened f envelope e text p h = elim (Bool-cases (is_rejection e && is_password envelope)) [
  | inr b ↦ absurd (ground (arith, h, b))
  | inl b ↦
      let (r, w) = and_passed _ _ b in
      (
        rejected f envelope e p r,
        is_password-IsPassword envelope w,
        elim (Result-cases (f.fallback envelope)) [
          | inl (x, y) ↦ y ∙ ground (arith, h, b, y)
          | inr (x, y) ↦ absurd (ground (arith, h, b, y))
        ],
      )
]

-- A caller receives a key just in two cases: it is the primary's, or the envelope is the password
-- key manager's, the primary rejected it in one of the two ways, and the key is the fallback's. In all
-- other cases the caller receives an error.
pub fallback_unwrap_key_iff :
    (f : FallbackKeyManager) (envelope : Option KeyEnvelope) (text : Bytes)
    → (fallback_unwrap_key f envelope ≡ ok text) ↔ (
        (f.primary envelope ≡ ok text)
        ⊎ (Rejects f envelope × IsPassword envelope × (f.fallback envelope ≡ ok text)))
unfolding fallback_unwrap_key after_primary combine is_rejection
fallback_unwrap_key_iff f envelope text = (
  λ h. elim (Result-cases (f.primary envelope)) [
    | inl (x, p) ↦ inl (p ∙ (rw p at h))
    | inr (e, p) ↦ inr (opened f envelope e text p (rw p at h))
  ],
  λ h. elim h [
    | inl p ↦ rw p refl
    | inr (inl p, w, t) ↦ rw (p, IsPassword-is_password envelope w, t) refl
    | inr (inr p, w, t) ↦ rw (p, IsPassword-is_password envelope w, t) refl
  ],
)
