-- ===== src/KeyManager.antt =====
-- internal/crypto/keymanager_memory.go: the key manager in memory and its key versions. The map of
-- keys is a list in the order in which a `range` over it comes past them. A context is the
-- Boolean `cancelled`; the time and the name of an envelope are not modelled.
pub mod Versions
use s3_encryption_gateway.Prelude.{
  ℕ, ◌==◌, Bool, true, false, not, ◌&&◌, ◌||◌, List, [], ◌∷◌, Option, none, some, if◌then◌else◌,
  Bytes, length, ℤ, pos, negsuc, pos_part, neg_part, ltb_ℤ, Result, ok, err, ◌>>=◌, ◌>>◌, guard,
  reject,
}
use s3_encryption_gateway.KeyWrap.{Block, KeyWrapError, aes_key_wrap, aes_key_unwrap}

pub data KeyManagerError : Type 0 where
  context_error plaintext_is_empty provider_unavailable key_not_found wrap_failed : KeyManagerError
  envelope_is_nil wrapped_key_is_empty unwrap_failed invalid_master_key : KeyManagerError
  all_zero_material version_exists already_active rotation_ambiguous rotation_conflict :
      KeyManagerError

pub record KeyEnvelope : Type 0 where
  pub key_version : ℤ
  pub provider : Bytes
  pub ciphertext : Bytes

pub record RotationPlan : Type 0 where
  pub current_version : ℤ
  pub target_version : ℤ

abbrev pub Keys : Type 0
Keys = List (ℤ × Bytes)

pub record InMemoryKeyManager : Type 0 where
  pub provider_name : Bytes
  pub keys : Keys
  pub active_version : ℤ
  pub closed : Bool

abbrev pub same_version : ℤ → ℤ → Bool
same_version a b = (pos_part a == pos_part b) && (neg_part a == neg_part b)

unfoldable pub find_key : ℤ → Keys → Option Bytes
find_key v [] = none
find_key v (k ∷ ks) = if same_version v k.0 then some k.1 else find_key v ks

unfoldable pub remove_key : ℤ → Keys → Keys
remove_key v [] = []
remove_key v (k ∷ ks) = if same_version v k.0 then remove_key v ks else k ∷ remove_key v ks

-- WithMemoryVersions: the highest version becomes the active one.
unfoldable pub with_memory_versions : Keys → InMemoryKeyManager → InMemoryKeyManager
with_memory_versions [] m = m
with_memory_versions (k ∷ ks) m = with_memory_versions ks (record m {
  keys = k ∷ remove_key k.0 m.keys;
  active_version = if ltb_ℤ m.active_version k.0 then k.0 else m.active_version;
})

-- A caller's key; with none, the source draws 32 random bytes and goes on with them.
unfoldable pub new_in_memory_key_manager :
    Bytes → Bytes → Keys → Result KeyManagerError InMemoryKeyManager
new_in_memory_key_manager name master_key versions = do
  guard (length master_key == 16 || (length master_key == 24 || length master_key == 32))
      invalid_master_key
  ok (
      with_memory_versions versions (record {
        provider_name = name;
        keys = (pos 1, master_key) ∷ [];
        active_version = pos 1;
        closed = false;
      }))

unfoldable pub found_key : Option Bytes → Result KeyManagerError Bytes
found_key none = err key_not_found
found_key (some k) = ok k

unfoldable pub wrapped : Result KeyWrapError Bytes → Result KeyManagerError Bytes
wrapped (ok c) = ok c
wrapped (err e) = err wrap_failed

unfoldable pub wrap_key :
    (Bytes → Option Block) → Bool → Bytes → InMemoryKeyManager → Result KeyManagerError KeyEnvelope
unfolding found_key wrapped
wrap_key new_cipher cancelled plaintext m = do
  reject cancelled context_error
  reject (length plaintext == 0) plaintext_is_empty
  reject m.closed provider_unavailable
  master_key ← found_key (find_key m.active_version m.keys)
  ciphertext ← wrapped (aes_key_wrap new_cipher master_key plaintext)
  ok (record {
    key_version = m.active_version;
    provider = m.provider_name;
    ciphertext = ciphertext;
  })

unfoldable pub other_versions : ℤ → Keys → List ℤ
other_versions preferred [] = []
other_versions preferred (k ∷ ks) =
    if same_version preferred k.0
    then other_versions preferred ks
    else k.0 ∷ other_versions preferred ks

unfoldable pub all_versions : Keys → List ℤ
all_versions [] = []
all_versions (k ∷ ks) = k.0 ∷ all_versions ks

unfoldable pub candidate_versions : ℤ → Keys → List ℤ
candidate_versions preferred ks =
    if ltb_ℤ (pos 0) preferred then preferred ∷ other_versions preferred ks else all_versions ks

unfoldable pub opened : Result KeyWrapError Bytes → Option Bytes
opened (ok text) = some text
opened (err e) = none

-- One candidate: its key, if it has one, opens the text or not.
unfoldable pub try_version : (Bytes → Option Block) → Bytes → Option Bytes → Option Bytes
unfolding opened
try_version new_cipher ciphertext none = none
try_version new_cipher ciphertext (some k) = opened (aes_key_unwrap new_cipher k ciphertext)

unfoldable pub or_next : Option Bytes → Result KeyManagerError Bytes → Result KeyManagerError Bytes
or_next none next = next
or_next (some text) next = ok text

unfoldable pub try_versions :
    (Bytes → Option Block) → Bytes → Keys → List ℤ → Result KeyManagerError Bytes
unfolding try_version
try_versions new_cipher ciphertext ks [] = err unwrap_failed
try_versions new_cipher ciphertext ks (v ∷ vs) =
    or_next (try_version new_cipher ciphertext (find_key v ks))
      (try_versions new_cipher ciphertext ks vs)

unfoldable pub unwrap_key :
    (Bytes → Option Block)
    → Bool
    → Option KeyEnvelope
    → InMemoryKeyManager
    → Result KeyManagerError Bytes
unwrap_key new_cipher cancelled none m = do reject cancelled context_error; err envelope_is_nil
unwrap_key new_cipher cancelled (some envelope) m = do
  reject cancelled context_error
  reject (length envelope.ciphertext == 0) wrapped_key_is_empty
  reject m.closed provider_unavailable
  try_versions new_cipher envelope.ciphertext m.keys
      (candidate_versions envelope.key_version m.keys)

unfoldable pub active_key_version : InMemoryKeyManager → Result KeyManagerError ℤ
active_key_version m = do reject m.closed provider_unavailable; ok m.active_version

unfoldable pub health_check : InMemoryKeyManager → Result KeyManagerError (Unit {0})
health_check m = reject m.closed provider_unavailable

unfoldable pub close : InMemoryKeyManager → InMemoryKeyManager
close m = if m.closed then m else record m { closed = true; keys = [] }

unfoldable pub all_zero : Bytes → Bool
all_zero [] = true
all_zero (b ∷ bs) = (b == 0) && all_zero bs

unfoldable pub is_some : Option Bytes → Bool
is_some none = false
is_some (some k) = true

unfoldable pub add_version :
    ℤ → Bytes → InMemoryKeyManager → Result KeyManagerError InMemoryKeyManager
unfolding is_some
add_version version material m = do
  guard (length material == 32) invalid_master_key
  reject (all_zero material) all_zero_material
  reject m.closed provider_unavailable
  reject (is_some (find_key version m.keys)) version_exists
  ok (record m { keys = (version, material) ∷ m.keys })

-- The highest version that is not the current one, from `best` on.
unfoldable pub best_version : ℤ → ℤ → Keys → ℤ
best_version current best [] = best
best_version current best (k ∷ ks) =
    best_version current (if not (same_version k.0 current) && ltb_ℤ best k.0 then k.0 else best) ks

unfoldable pub prepare_rotation :
    Option ℤ → InMemoryKeyManager → Result KeyManagerError RotationPlan
unfolding is_some
prepare_rotation none m = do
  reject m.closed provider_unavailable
  let best = best_version m.active_version (negsuc 0) m.keys
  reject (ltb_ℤ best (pos 0)) rotation_ambiguous
  ok (record { current_version = m.active_version; target_version = best })
prepare_rotation (some target) m = do
  reject m.closed provider_unavailable
  guard (is_some (find_key target m.keys)) key_not_found
  reject (same_version target m.active_version) already_active
  ok (record { current_version = m.active_version; target_version = target })

unfoldable pub promote_active_version :
    RotationPlan → InMemoryKeyManager → Result KeyManagerError InMemoryKeyManager
unfolding is_some
promote_active_version plan m = do
  reject m.closed provider_unavailable
  guard (same_version m.active_version plan.current_version) rotation_conflict
  guard (is_some (find_key plan.target_version m.keys)) key_not_found
  ok (record m { active_version = plan.target_version })
