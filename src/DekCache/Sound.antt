-- ===== src/DekCache/Sound.antt =====
-- The cache of unwrapped keys holds what it was given, and no more entries than configured: every
-- critical section keeps that.
use mathlib.Core.Path.{subst}
use s3_encryption_gateway.Prelude.{
  ℕ, ◌+◌, List, [], ◌∷◌, ◌++◌, Option, none, some, Bytes, equal_bytes, equal_bytes→≡, pos_part, ◌≡◌,
  refl, ap, ◌∙◌, ◌⊎◌, inl, inr, arith, Bool-cases, Option-cases,
}
use s3_encryption_gateway.DekCache.{
  CacheEntry, CachingKeyManager, DekCacheConfig, empty_cache, find_entry, delete_entry, is_expired,
  evict_expired, remove_first, behind, promote_in, promote_to_front, fresh_copy, lookup, add_entry,
  store_over, store, mark_closed, clear_entries,
}
use s3_encryption_gateway.DekCache.Laws.{
  Entry, IsIn, IsIn-front, IsIn-end, Holds-impl, Holds-delete_entry, Holds-find_entry, Kept,
  evict_lru-Kept, evict_order-Kept,
}

IsIn-behind :
    (g fp f : Bytes) (fs : List Bytes) (o : Option (List Bytes)) (order : List Bytes)
    → IsIn g (f ∷ promote_in fs fp o)
    → (o ≡ none → fs ≡ order)
    → IsIn g (promote_in (f ∷ order) fp (behind f o))
unfolding promote_in behind
IsIn-behind g fp f fs none order i e = subst (λ x. IsIn g (f ∷ x)) (e refl) i
IsIn-behind g fp f fs (some others) order i e = i

-- A promotion loses no key.
IsIn-promote :
    (g fp : Bytes) (order : List Bytes)
    → IsIn g order
    → IsIn g (promote_in order fp (remove_first fp order))
unfolding remove_first promote_in
IsIn-promote g fp [] i = absurd i
IsIn-promote g fp (f ∷ fs) (inl e) = elim (Bool-cases (equal_bytes f fp)) [
  | inl b ↦ rw b (IsIn-end g fp fs (e ∙ equal_bytes→≡ f fp b))
  | inr b ↦ rw b (IsIn-behind g fp f fs (remove_first fp fs) fs (inl e) (λ n. refl))
]
IsIn-promote g fp (f ∷ fs) (inr i) = elim (Bool-cases (equal_bytes f fp)) [
  | inl b ↦ rw b (IsIn-front g fs (fp ∷ []) i)
  | inr b ↦
      rw b
        (IsIn-behind g fp f fs (remove_first fp fs) fs (inr (IsIn-promote g fp fs i)) (λ n. refl))
]

-- `Q` relates a ciphertext to the keys that were given for it.
module _ (cfg : DekCacheConfig) (fingerprint : Bytes → Bytes) (Q : Bytes → Bytes → Type 0) where
  -- The entry is a key that was given for a ciphertext with that fingerprint.
  abbrev pub IsHonest : Entry → Type 0
  IsHonest e = (ciphertext : Bytes) × (fingerprint ciphertext ≡ e.0) × Q ciphertext e.1.plaintext

  abbrev pub IsSound : CachingKeyManager → Type 0
  IsSound c = Kept IsHonest (pos_part cfg.max_entries) (c.entries, c.lru_order)

  pub promote-IsSound :
      (fp : Bytes) (c : CachingKeyManager) → IsSound c → IsSound (promote_to_front fp c)
  unfolding promote_to_front
  promote-IsSound fp c k = record {
    few = k.few;
    honest = k.honest;
    ordered =
        Holds-impl (λ e. IsIn e.0 c.lru_order)
          (λ e. IsIn e.0 (promote_in c.lru_order fp (remove_first fp c.lru_order))) c.entries
          (λ e i. IsIn-promote e.0 fp c.lru_order i) k.ordered;
  }

  add_entry-IsSound :
      (now : ℕ) (ciphertext plaintext : Bytes) (c : CachingKeyManager)
      → Q ciphertext plaintext
      → IsSound c
      → IsSound (add_entry cfg now (fingerprint ciphertext) plaintext c)
  unfolding add_entry
  add_entry-IsSound now ciphertext plaintext c q k =
      let fp = fingerprint ciphertext in
      let entry : CacheEntry = record {
        plaintext = plaintext;
        expires_at = now + pos_part cfg.ttl;
      } in
      evict_lru-Kept (IsHonest) (pos_part cfg.max_entries) (c.lru_order ++ fp ∷ [])
        ((fp, entry) ∷ delete_entry fp c.entries)
        (
          (ciphertext, refl, q),
          Holds-delete_entry (IsHonest) (IsHonest) fp c.entries (λ x n h. h) k.honest,
        )
        (
          IsIn-end fp fp c.lru_order refl,
          Holds-delete_entry (λ x. IsIn x.0 c.lru_order) (λ x. IsIn x.0 (c.lru_order ++ fp ∷ [])) fp
              c.entries (λ x n i. IsIn-front x.0 c.lru_order (fp ∷ []) i) k.ordered,
        )

  pub store-IsSound :
      (now : ℕ) (ciphertext plaintext : Bytes) (c : CachingKeyManager)
      → Q ciphertext plaintext
      → IsSound c
      → IsSound (store cfg now (fingerprint ciphertext) plaintext c).1
  unfolding store store_over
  store-IsSound now ciphertext plaintext c q k =
      elim (Option-cases (lookup now (fingerprint ciphertext) c)) [
        | inl n ↦ rw n (add_entry-IsSound now ciphertext plaintext c q k)
        | inr (hit, n) ↦ rw n (promote-IsSound (fingerprint ciphertext) c k)
      ]

  pub evict-IsSound : (now : ℕ) (c : CachingKeyManager) → IsSound c → IsSound (evict_expired now c)
  unfolding evict_expired
  evict-IsSound now c k =
      evict_order-Kept (IsHonest) now (pos_part cfg.max_entries) c.lru_order [] c.entries k.few
        k.honest
        (Holds-impl (λ e. IsIn e.0 c.lru_order) (λ e. IsIn e.0 [] ⊎ IsIn e.0 c.lru_order) c.entries
          (λ e i. inr i) k.ordered)

  pub mark-IsSound : (c : CachingKeyManager) → IsSound c → IsSound (mark_closed c).0
  unfolding mark_closed
  mark-IsSound c k = elim (Bool-cases c.is_closed) [ inl b ↦ rw b k | inr b ↦ rw b k ]

  pub clear-IsSound : (c : CachingKeyManager) → IsSound (clear_entries c)
  unfolding clear_entries
  clear-IsSound c = record { few = omega arith; honest = tt; ordered = tt }

  pub start : IsSound empty_cache
  start = record { few = omega arith; honest = tt; ordered = tt }

  pub lookup_inv :
      (now : ℕ) (fp plaintext : Bytes) (c : CachingKeyManager)
      → IsSound c
      → lookup now fp c ≡ some plaintext
      → (other : Bytes) × (fingerprint other ≡ fp) × Q other plaintext
  unfolding lookup fresh_copy
  lookup_inv now fp plaintext c k h = elim (Option-cases (find_entry fp c.entries)) [
    | inl n ↦ absurd (ground (arith, n))
    | inr (entry, s) ↦
        let (other, f, q) = Holds-find_entry IsHonest fp c.entries entry k.honest s in
        let same : entry.plaintext ≡ plaintext = elim (Bool-cases (is_expired now entry)) [
          | inl x ↦ absurd (ground (arith, s, x))
          | inr x ↦ ground (arith, s, x)
        ] in
        (other, f, subst (Q other) same q)
  ]

-- `plaintext` is the key in `other`, and `other` is no collision with `ciphertext`.
abbrev pub IsKeyOf : (Bytes → Bytes) → (Bytes → Bytes) → Bytes → Bytes → Bytes → Type 0
IsKeyOf fingerprint key ciphertext other plaintext =
    (plaintext ≡ key other) × (fingerprint other ≡ fingerprint ciphertext → other ≡ ciphertext)

pub hit_key :
    (cfg : DekCacheConfig) (fingerprint key : Bytes → Bytes) (ciphertext : Bytes) (now : ℕ)
    (plaintext : Bytes) (c : CachingKeyManager)
    → IsSound cfg fingerprint (IsKeyOf fingerprint key ciphertext) c
    → lookup now (fingerprint ciphertext) c ≡ some plaintext
    → plaintext ≡ key ciphertext
hit_key cfg fingerprint key ciphertext now plaintext c k h =
    let (other, f, (e, same)) =
      lookup_inv cfg fingerprint (IsKeyOf fingerprint key ciphertext) now (fingerprint ciphertext)
        plaintext c k h in
    e ∙ ap key (same f)
