-- ===== src/DekCache/Runs.antt =====
-- Runs of the cache of unwrapped keys: the critical sections of any number of callers, of the cleanup
-- and of Close, in any order.
use s3_encryption_gateway.Prelude.{ℕ, ◌≤◌, List, [], ◌∷◌, Bytes, length, Result, ok, err, pos_part}
use s3_encryption_gateway.DekCache.{
  CachingKeyManager, DekCacheConfig, empty_cache, evict_expired, promote_to_front, store,
  after_inner, mark_closed, clear_entries,
}
use s3_encryption_gateway.DekCache.Sound.{
  IsSound, promote-IsSound, store-IsSound, evict-IsSound, mark-IsSound, clear-IsSound, start,
}

-- A critical section: the promotion of a key after a hit, the store after a miss (with the
-- ciphertext that was unwrapped and what the inner key manager answered to that call), a round of the
-- cleanup, or one of the two sections of Close.
pub data Section (E : Type 0) : Type 0 where
  promoted : Bytes → Section E
  stored : ℕ → Bytes → Result E Bytes → Section E
  cleaned : ℕ → Section E
  marked cleared : Section E

-- Every key that the inner key manager gives in the run has the property `Q` of its ciphertext.
abbrev pub Gives : {E : Type 0} → (Bytes → Bytes → Type 0) → List (Section E) → Type 0
Gives Q [] = Unit
Gives Q (stored now ciphertext (ok plaintext) ∷ ss) = Q ciphertext plaintext × Gives Q ss
Gives Q (stored now ciphertext (err e) ∷ ss) = Gives Q ss
Gives Q (promoted fp ∷ ss) = Gives Q ss
Gives Q (cleaned now ∷ ss) = Gives Q ss
Gives Q (marked ∷ ss) = Gives Q ss
Gives Q (cleared ∷ ss) = Gives Q ss

Gives-any : {E : Type 0} (ss : List (Section E)) → Gives (λ ciphertext plaintext. Unit) ss
Gives-any [] = tt
Gives-any (promoted fp ∷ ss) = Gives-any ss
Gives-any (stored now ct (ok plaintext) ∷ ss) = (tt, Gives-any ss)
Gives-any (stored now ct (err e) ∷ ss) = Gives-any ss
Gives-any (cleaned now ∷ ss) = Gives-any ss
Gives-any (marked ∷ ss) = Gives-any ss
Gives-any (cleared ∷ ss) = Gives-any ss

module _ {E : Type 0} (cfg : DekCacheConfig) (fingerprint : Bytes → Bytes) where
  unfoldable pub section : Section E → CachingKeyManager → CachingKeyManager
  section (promoted fp) c = promote_to_front fp c
  section (stored now ciphertext answer) c =
      (after_inner cfg now (fingerprint ciphertext) c answer).1
  section (cleaned now) c = evict_expired now c
  section marked c = (mark_closed c).0
  section cleared c = clear_entries c

  unfoldable pub sections : List (Section E) → CachingKeyManager → CachingKeyManager
  sections [] c = c
  sections (s ∷ ss) c = sections ss (section s c)

  sections-IsSound :
      (Q : Bytes → Bytes → Type 0) (ss : List (Section E)) (c : CachingKeyManager)
      → Gives Q ss
      → IsSound cfg fingerprint Q c
      → IsSound cfg fingerprint Q (sections ss c)
  unfolding sections section after_inner
  sections-IsSound Q [] c g k = k
  sections-IsSound Q (promoted fp ∷ ss) c g k =
      sections-IsSound Q ss (promote_to_front fp c) g (promote-IsSound cfg fingerprint Q fp c k)
  sections-IsSound Q (stored now ct (err e) ∷ ss) c g k = sections-IsSound Q ss c g k
  sections-IsSound Q (stored now ct (ok plaintext) ∷ ss) c g k =
      sections-IsSound Q ss (store cfg now (fingerprint ct) plaintext c).1 g.1
        (store-IsSound cfg fingerprint Q now ct plaintext c g.0 k)
  sections-IsSound Q (cleaned now ∷ ss) c g k =
      sections-IsSound Q ss (evict_expired now c) g (evict-IsSound cfg fingerprint Q now c k)
  sections-IsSound Q (marked ∷ ss) c g k =
      sections-IsSound Q ss (mark_closed c).0 g (mark-IsSound cfg fingerprint Q c k)
  sections-IsSound Q (cleared ∷ ss) c g k =
      sections-IsSound Q ss (clear_entries c) g (clear-IsSound cfg fingerprint Q c)

  -- However callers, the cleanup and Close interleave, and whatever the inner key manager answers,
  -- the cache never holds more entries than configured.
  pub sections-max_entries :
      (ss : List (Section E)) → length (sections ss empty_cache).entries ≤ pos_part cfg.max_entries
  sections-max_entries ss =
      let Q : Bytes → Bytes → Type 0 = λ ciphertext plaintext. Unit in
      (sections-IsSound Q ss empty_cache (Gives-any ss) (start cfg fingerprint Q)).few
