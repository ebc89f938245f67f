-- ===== src/Tests/Caches.antt =====
-- A cache of 10 bytes and 2 entries that holds one entry of 8 bytes.
use s3_encryption_gateway.Prelude.{◌≡◌, ◌≤◌, [], ◌∷◌, some, length, ok, arith}
use s3_encryption_gateway.MemoryCache.{CacheEntry, MemoryCache, new_memory_cache, get, set_entry}
use s3_encryption_gateway.MemoryCache.Limits.{held, set_entry-limits, get-set_entry}

abbrev five : CacheEntry
five = record {
  data_bytes = 1 ∷ 2 ∷ 3 ∷ 4 ∷ 5 ∷ [];
  metadata = [];
  backend_etag = [];
  source = [];
  expires_at = 0;
}

abbrev eight : CacheEntry
eight = record five { data_bytes = 1 ∷ 2 ∷ 3 ∷ 4 ∷ 5 ∷ 6 ∷ 7 ∷ 8 ∷ []; expires_at = 1000 }

abbrev one_entry : MemoryCache
one_entry = record (new_memory_cache 10 2 60) { entries = (9 ∷ [], eight) ∷ [] }

set_entry-limits_example :
    ((set_entry 100 (1 ∷ []) (2 ∷ []) (some five) 0 one_entry).1 ≡ ok tt)
    × (held (set_entry 100 (1 ∷ []) (2 ∷ []) (some five) 0 one_entry).0.entries ≤ 10)
    × (length (set_entry 100 (1 ∷ []) (2 ∷ []) (some five) 0 one_entry).0.entries ≤ 2)
set_entry-limits_example =
    set_entry-limits 100 0 (1 ∷ []) (2 ∷ []) five one_entry (omega arith) (omega arith)

get-set_entry_example :
    (get 130 (1 ∷ []) (2 ∷ []) (set_entry 100 (1 ∷ []) (2 ∷ []) (some five) 30 one_entry).0).1
    ≡ some (record five { expires_at = 130 })
get-set_entry_example = get-set_entry 100 130 30 (1 ∷ []) (2 ∷ []) five one_entry (omega arith)
