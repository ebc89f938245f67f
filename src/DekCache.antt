-- ===== src/DekCache.antt =====
-- internal/crypto/keymanager_cache.go: the cache of unwrapped keys in front of a key manager. A
-- critical section of the mutex is one function; the times are those that time.Now() gives in it.
pub mod Laws
pub mod Sound
pub mod Runs
use s3_encryption_gateway.Prelude.{
  ℕ, zero, suc, ◌+◌, ◌-◌, ◌*◌, ◌/◌, Bool, true, false, not, ◌&&◌, ◌||◌, List, [], ◌∷◌, ◌++◌, Option,
  none, some, ltb, leb, ◌==◌, if◌then◌else◌, Bytes, equal_bytes, length, Result, ok, err, ℤ, pos,
  negsuc, pos_part, ltb_ℤ,
}

pub record CacheEntry : Type 0 where
  pub plaintext : Bytes
  pub expires_at : ℕ

-- `entries` is the map from fingerprints, `lru_order` has the least recently used one first.
pub record CachingKeyManager : Type 0 where
  pub entries : List (Bytes × CacheEntry)
  pub lru_order : List Bytes
  pub is_closed : Bool

pub record DekCacheConfig : Type 0 where
  pub is_enabled : Bool
  pub ttl : ℤ
  pub max_entries : ℤ

abbrev pub empty_cache : CachingKeyManager
empty_cache = record { entries = []; lru_order = []; is_closed = false }

-- The configuration that NewCachingKeyManager goes on with; times are in nanoseconds.
unfoldable pub with_defaults : DekCacheConfig → DekCacheConfig
with_defaults cfg = record cfg {
  ttl = if ltb_ℤ (pos 0) cfg.ttl then cfg.ttl else pos (60 * 1000000000);
  max_entries = if ltb_ℤ (pos 0) cfg.max_entries then cfg.max_entries else pos 1000;
}

-- The interval of the cleanup ticker, for a configuration with defaults.
unfoldable pub cleanup_interval : DekCacheConfig → ℤ → ℤ
cleanup_interval cfg asked =
    let half = pos (pos_part cfg.ttl / 2) in
    if ltb_ℤ (pos 0) asked
    then asked
    else if ltb_ℤ half (pos (5 * 1000000000))
    then pos (5 * 1000000000)
    else half

unfoldable pub find_entry : Bytes → List (Bytes × CacheEntry) → Option CacheEntry
find_entry fp [] = none
find_entry fp (e ∷ es) =
    let rest = find_entry fp es in if equal_bytes fp e.0 then some e.1 else rest

unfoldable pub delete_entry : Bytes → List (Bytes × CacheEntry) → List (Bytes × CacheEntry)
delete_entry fp [] = []
delete_entry fp (e ∷ es) =
    let rest = delete_entry fp es in if equal_bytes fp e.0 then rest else e ∷ rest

abbrev pub is_expired : ℕ → CacheEntry → Bool
is_expired now e = ltb e.expires_at now

evict_step :
    ℕ
    → Bytes
    → Option CacheEntry
    → List (Bytes × CacheEntry) × List Bytes
    → List (Bytes × CacheEntry) × List Bytes
evict_step now fp none (es, order) = (es, order)
evict_step now fp (some e) (es, order) =
    if is_expired now e then (delete_entry fp es, order) else (es, order ++ fp ∷ [])

-- The loop of evictExpired, with the order that was kept so far.
unfoldable pub evict_order :
    ℕ → List Bytes → List (Bytes × CacheEntry) × List Bytes → List (Bytes × CacheEntry) × List Bytes
unfolding evict_step
evict_order now [] x = x
evict_order now (fp ∷ fps) x = evict_order now fps (evict_step now fp (find_entry fp x.0) x)

unfoldable pub evict_expired : ℕ → CachingKeyManager → CachingKeyManager
evict_expired now c =
    let x = evict_order now c.lru_order (c.entries, []) in
    record c { entries = x.0; lru_order = x.1 }

behind : Bytes → Option (List Bytes) → Option (List Bytes)
behind f none = none
behind f (some fs) = some (f ∷ fs)

-- The order without the first occurrence of a fingerprint, if it occurs.
remove_first : Bytes → List Bytes → Option (List Bytes)
remove_first fp [] = none
remove_first fp (f ∷ fs) =
    let rest = behind f (remove_first fp fs) in if equal_bytes f fp then some fs else rest

promote_in : List Bytes → Bytes → Option (List Bytes) → List Bytes
promote_in order fp none = order
promote_in order fp (some others) = others ++ fp ∷ []

unfoldable pub promote_to_front : Bytes → CachingKeyManager → CachingKeyManager
unfolding promote_in remove_first behind
promote_to_front fp c = record c {
  lru_order = promote_in c.lru_order fp (remove_first fp c.lru_order);
}

-- The section under the read lock: the copy of a key that is cached and fresh.
fresh_copy : ℕ → Option CacheEntry → Option Bytes
fresh_copy now none = none
fresh_copy now (some e) = if is_expired now e then none else some e.plaintext

unfoldable pub lookup : ℕ → Bytes → CachingKeyManager → Option Bytes
unfolding fresh_copy
lookup now fp c = fresh_copy now (find_entry fp c.entries)

-- evictLRU: its loop ends when the order is empty.
unfoldable pub evict_lru :
    ℕ → List Bytes → List (Bytes × CacheEntry) → List (Bytes × CacheEntry) × List Bytes
evict_lru max_entries [] es = (es, [])
evict_lru max_entries (fp ∷ fps) es =
    let rest = evict_lru max_entries fps (delete_entry fp es) in
    if ltb max_entries (length es) then rest else (es, fp ∷ fps)

-- A new entry is stored, and the oldest ones are evicted if there are too many.
add_entry : DekCacheConfig → ℕ → Bytes → Bytes → CachingKeyManager → CachingKeyManager
add_entry cfg now fp plaintext c =
    let entry : CacheEntry = record {
      plaintext = plaintext;
      expires_at = now + pos_part cfg.ttl;
    } in
    let x =
      evict_lru (pos_part cfg.max_entries) (c.lru_order ++ fp ∷ [])
        ((fp, entry) ∷ delete_entry fp c.entries) in
    record c { entries = x.0; lru_order = x.1 }

store_over :
    DekCacheConfig
    → ℕ
    → Bytes
    → Bytes
    → CachingKeyManager
    → Option Bytes
    → Bytes × CachingKeyManager
unfolding add_entry
store_over cfg now fp plaintext c (some hit) = (hit, promote_to_front fp c)
store_over cfg now fp plaintext c none = (plaintext, add_entry cfg now fp plaintext c)

-- The section under the write lock after a miss: the key that is returned, and the cache.
unfoldable pub store :
    DekCacheConfig → ℕ → Bytes → Bytes → CachingKeyManager → Bytes × CachingKeyManager
unfolding store_over
store cfg now fp plaintext c = store_over cfg now fp plaintext c (lookup now fp c)

unfoldable pub after_inner :
    {E : Type 0}
    → DekCacheConfig
    → ℕ
    → Bytes
    → CachingKeyManager
    → Result E Bytes
    → Result E Bytes × CachingKeyManager
after_inner cfg now fp c (err e) = (err e, c)
after_inner cfg now fp c (ok plaintext) = let x = store cfg now fp plaintext c in (ok x.0, x.1)

after_lookup :
    {E : Type 0}
    → DekCacheConfig
    → ℕ
    → Bytes
    → CachingKeyManager
    → Result E Bytes
    → Option Bytes
    → Result E Bytes × CachingKeyManager
unfolding after_inner
after_lookup cfg now fp c inner (some hit) = (ok hit, promote_to_front fp c)
after_lookup cfg now fp c inner none = after_inner cfg now fp c inner

-- UnwrapKey with no other caller in between: what the inner key manager returns, the ciphertext's
-- fingerprint (crypto/sha256), and the times of the lookup and of the store.
unfoldable pub unwrap_key :
    {E : Type 0}
    → DekCacheConfig
    → ℕ
    → ℕ
    → Bytes
    → Result E Bytes
    → CachingKeyManager
    → Result E Bytes × CachingKeyManager
unfolding after_lookup
unwrap_key cfg looked stored fp inner c =
    let cached = after_lookup cfg stored fp c inner (lookup looked fp c) in
    if cfg.is_enabled then cached else (inner, c)

-- Close: its first section, with whether this call goes on (a second one does nothing), and the last
-- one, after the cleanup has stopped.
unfoldable pub mark_closed : CachingKeyManager → CachingKeyManager × Bool
mark_closed c = if c.is_closed then (c, false) else (record c { is_closed = true }, true)

unfoldable pub clear_entries : CachingKeyManager → CachingKeyManager
clear_entries c = record c { entries = []; lru_order = [] }
