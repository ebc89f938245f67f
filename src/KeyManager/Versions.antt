-- ===== src/KeyManager/Versions.antt =====
-- Keys wrapped before a rotation are unwrapped after it.
use s3_encryption_gateway.Prelude.{
  ℕ, ◌==◌, ◌<◌, true, false, List, [], ◌∷◌, Option, some, Bytes, length, ℤ, pos, negsuc, ltb_ℤ,
  Result, ok, err, ◌≡◌, refl, sym, arith, Bool-cases, inl, inr,
}
use s3_encryption_gateway.KeyWrap.{Block, aes_key_unwrap, pad_key}
use s3_encryption_gateway.KeyWrap.Rows.{IsBlock}
use s3_encryption_gateway.KeyWrap.Inverse.{aes_key_unwrap-wrap}
use s3_encryption_gateway.Aad.Encoding.{AreBytes}
use s3_encryption_gateway.KeyManager.{
  KeyManagerError, KeyEnvelope, RotationPlan, InMemoryKeyManager, same_version, find_key, wrap_key,
  unwrap_key, candidate_versions, try_versions, or_next, found_key, wrapped, try_version, opened,
  is_some, add_version, promote_active_version,
}

-- What an operator does to rotate. A step that is refused leaves the manager as it is.
pub data RotationStep : Type 0 where
  adds : ℤ → Bytes → RotationStep
  promotes : RotationPlan → RotationStep

result_or : InMemoryKeyManager → Result KeyManagerError InMemoryKeyManager → InMemoryKeyManager
result_or m (ok n) = n
result_or m (err e) = m

unfoldable pub rotation_step : InMemoryKeyManager → RotationStep → InMemoryKeyManager
unfolding result_or
rotation_step m (adds v material) = result_or m (add_version v material m)
rotation_step m (promotes plan) = result_or m (promote_active_version plan m)

unfoldable pub rotation_steps : InMemoryKeyManager → List RotationStep → InMemoryKeyManager
rotation_steps m [] = m
rotation_steps m (s ∷ ss) = rotation_steps (rotation_step m s) ss

-- The key of a version is still there, and the manager is open.
abbrev Keeps : ℤ → Bytes → InMemoryKeyManager → Type 0
Keeps v k m = (find_key v m.keys ≡ some k) × (m.closed ≡ false)

same_version→≡ : (a b : ℤ) → same_version a b ≡ true → a ≡ b
same_version→≡ (pos a) (pos b) h = ground (arith, h)
same_version→≡ (pos a) (negsuc b) h = ground (arith, h)
same_version→≡ (negsuc a) (pos b) h = ground (arith, h)
same_version→≡ (negsuc a) (negsuc b) h = ground (arith, h)

rotation_step-Keeps :
    (v : ℤ) (k : Bytes) (m : InMemoryKeyManager) (s : RotationStep)
    → Keeps v k m
    → Keeps v k (rotation_step m s)
unfolding rotation_step result_or is_some add_version promote_active_version find_key
rotation_step-Keeps v k m (adds w material) h = elim (Bool-cases (same_version v w)) [
  | inl e ↦
      let f : find_key w m.keys ≡ some k = rw (sym (same_version→≡ v w e)) h.0 in
      ground (arith, f, h)
  | inr e ↦ ground (arith, e, h)
]
rotation_step-Keeps v k m (promotes plan) h = ground (arith, h)

rotation_steps-Keeps :
    (v : ℤ) (k : Bytes) (m : InMemoryKeyManager) (ss : List RotationStep)
    → Keeps v k m
    → Keeps v k (rotation_steps m ss)
unfolding rotation_steps
rotation_steps-Keeps v k m [] h = h
rotation_steps-Keeps v k m (s ∷ ss) h =
    rotation_steps-Keeps v k (rotation_step m s) ss (rotation_step-Keeps v k m s h)

long_enough :
    (new_cipher : Bytes → Option Block) (k sealed text : Bytes)
    → aes_key_unwrap new_cipher k sealed ≡ ok text
    → (length sealed == 0) ≡ false
unfolding aes_key_unwrap
long_enough new_cipher k sealed text h = ground (arith, h)

not_empty : (n : ℕ) → 0 < n → (n == 0) ≡ false
not_empty n h = ground (arith, h)

-- A key that the manager wraps under a positive version is unwrapped after any sequence of added
-- and promoted versions, the refused ones included: the same key, or its zero-padded form.
pub unwrap_key-wrap_key :
    (new_cipher : Bytes → Option Block) (text k : Bytes) (c : Block) (m : InMemoryKeyManager)
    (ss : List RotationStep)
    → find_key m.active_version m.keys ≡ some k
    → ltb_ℤ (pos 0) m.active_version ≡ true
    → m.closed ≡ false
    → 0 < length text
    → new_cipher k ≡ some c
    → IsBlock c
    → AreBytes text
    → (e : KeyEnvelope) × (wrap_key new_cipher false text m ≡ ok e)
      × (unwrap_key new_cipher false (some e) (rotation_steps m ss) ≡ ok (pad_key text))
unfolding wrap_key unwrap_key candidate_versions try_versions or_next found_key wrapped try_version
    opened
unwrap_key-wrap_key new_cipher text k c m ss f p o l n b h =
    let (sealed, w, u, _) = aes_key_unwrap-wrap new_cipher k text c n b h in
    let (f2, o2) = rotation_steps-Keeps m.active_version k m ss (f, o) in
    (
      record { key_version = m.active_version; provider = m.provider_name; ciphertext = sealed },
      rw (not_empty (length text) l, o, f, w) refl,
      rw (long_enough new_cipher k sealed (pad_key text) u, o2, p, f2, u) refl,
    )
