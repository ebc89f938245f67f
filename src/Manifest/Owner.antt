-- ===== src/Manifest/Owner.antt =====
-- internal/crypto/mpu_manifest.go, ValidateFor: the objects and the upload that a manifest belongs to.
use s3_encryption_gateway.Prelude.{
  ℕ, Bool, true, false, not, ◌&&◌, Option, none, some, ◌==◌, if◌then◌else◌, Bytes, equal_bytes,
  equal_bytes→≡, length, ℤ, pos, negsuc, Result, ok, err, ◌>>◌, reject, reject_passed, and_passed,
  not_passed, bind_passed, ◌≡◌, refl, sym, ap, ◌∙◌, arith,
}
use s3_encryption_gateway.Aad.{ObjectContext, AadError, validate}
use s3_encryption_gateway.Manifest.{
  ManifestError, invalid_object, unsupported_version, relationship_mismatch, binding_mismatch,
  MultipartManifest, validate_layout,
}

is_number : ℕ → ℤ → Bool
is_number n (pos m) = m == n
is_number n (negsuc m) = false

object_error : Result AadError (Unit {0}) → Result ManifestError (Unit {0})
object_error (ok u) = ok u
object_error (err e) = err invalid_object

unfoldable pub is_related : MultipartManifest → ObjectContext → ObjectContext → Bool
is_related m parent companion =
    (equal_bytes m.parent_bucket parent.bucket && equal_bytes m.parent_key parent.key)
    && (equal_bytes m.companion_bucket companion.bucket
        && equal_bytes m.companion_key companion.key)

unfoldable pub has_binding : Option Bytes → Bytes → Bool
has_binding none id = false
has_binding (some b) id = (length b == 16) && equal_bytes b id

accepted : (e : ManifestError) (t : Bool) → reject t e ≡ ok tt → t ≡ false
accepted e true h = ground (arith, h)
accepted e false h = refl

-- `decode` is base64.RawURLEncoding.DecodeString.
module _ (decode : Bytes → Option Bytes) where
  unfoldable pub check_owner :
      MultipartManifest → ObjectContext → ObjectContext → Bytes → Result ManifestError (Unit {0})
  unfolding is_number
  check_owner m parent companion id = do
    reject (not (is_number 2 m.version)) unsupported_version
    reject (not (is_related m parent companion)) relationship_mismatch
    reject (not (has_binding (decode m.binding_id) id)) binding_mismatch

  unfoldable pub validate_for :
      MultipartManifest → ObjectContext → ObjectContext → Bytes → Result ManifestError (Unit {0})
  unfolding object_error is_number
  validate_for m parent companion id = do
    validate_layout m
    object_error (validate parent)
    object_error (validate companion)
    if is_number 1 m.version then ok tt else check_owner m parent companion id

  Owns : MultipartManifest → ObjectContext → ObjectContext → Bytes → Type 0
  Owns m parent companion id =
      (parent ≡ record { bucket = m.parent_bucket; key = m.parent_key })
      × (companion ≡ record { bucket = m.companion_bucket; key = m.companion_key })
      × (decode m.binding_id ≡ some id)

  same_object :
      {b k : Bytes} {o : ObjectContext}
      → equal_bytes b o.bucket ≡ true
      → equal_bytes k o.key ≡ true
      → o ≡ record { bucket = b; key = k }
  same_object {b} {k} {o} h j = simp (equal_bytes→≡ b o.bucket h, equal_bytes→≡ k o.key j)

  is_related-≡ :
      (m : MultipartManifest) (parent companion : ObjectContext)
      → is_related m parent companion ≡ true
      → (parent ≡ record { bucket = m.parent_bucket; key = m.parent_key })
        × (companion ≡ record { bucket = m.companion_bucket; key = m.companion_key })
  unfolding is_related
  is_related-≡ m parent companion h =
      let (a, b) = and_passed _ _ h in
      let (pb, pk) = and_passed _ _ a in
      let (cb, ck) = and_passed _ _ b in (same_object pb pk, same_object cb ck)

  has_binding-≡ : (b : Option Bytes) (id : Bytes) → has_binding b id ≡ true → b ≡ some id
  unfolding has_binding
  has_binding-≡ none id h = ground (arith, h)
  has_binding-≡ (some b) id h =
      let (l, e) = and_passed (length b == 16) (equal_bytes b id) h in
      ap some (equal_bytes→≡ b id e)

  check_owner-Owns :
      (m : MultipartManifest) (parent companion : ObjectContext) (id : Bytes)
      → check_owner m parent companion id ≡ ok tt
      → Owns m parent companion id
  unfolding check_owner Owns
  check_owner-Owns m parent companion id h =
      let (v, h₁) = reject_passed (not (is_number 2 m.version)) unsupported_version _ h in
      let (r, h₂) =
        reject_passed (not (is_related m parent companion)) relationship_mismatch _ h₁ in
      let (p, c) = is_related-≡ m parent companion (not_passed _ r) in
      (p, c, has_binding-≡ (decode m.binding_id) id (not_passed _ (accepted binding_mismatch _ h₂)))

  validate_for-Owns :
      (m : MultipartManifest) (parent companion : ObjectContext) (id : Bytes)
      → m.version ≡ pos 2
      → validate_for m parent companion id ≡ ok tt
      → Owns m parent companion id
  unfolding validate_for is_number
  validate_for-Owns m parent companion id two h =
      let (u, l, h₁) = bind_passed (validate_layout m) _ h in
      let (v, p, h₂) = bind_passed (object_error (validate parent)) _ h₁ in
      let (w, c, h₃) = bind_passed (object_error (validate companion)) _ h₂ in
      check_owner-Owns m parent companion id (
        sym (ap (λ z. if is_number 1 z then ok tt else check_owner m parent companion id) two) ∙ h₃)

  -- A manifest of version 2 is accepted for one object, one companion and one upload: whoever it is
  -- accepted for twice is the same.
  pub validate_for_unique :
      (m : MultipartManifest) (parent parent' companion companion' : ObjectContext) (id id' : Bytes)
      → m.version ≡ pos 2
      → validate_for m parent companion id ≡ ok tt
      → validate_for m parent' companion' id' ≡ ok tt
      → (parent ≡ parent') × (companion ≡ companion') × (id ≡ id')
  unfolding Owns
  validate_for_unique m parent parent' companion companion' id id' two h j =
      let (p, c, b) = validate_for-Owns m parent companion id two h in
      let (p', c', b') = validate_for-Owns m parent' companion' id' two j in
      (p ∙ sym p', c ∙ sym c', cc)
