-- ===== src/MemoryCache.antt =====
-- internal/cache/cache.go: the object cache in memory. The clock is an argument of each operation.
-- The map is a list of keys and entries, in the order in which a `range` over it comes past them;
-- the theorems hold for every order. Sizes are natural numbers.
pub mod Limits
use s3_encryption_gateway.Prelude.{
  ℕ, ◌+◌, ◌-◌, Bool, true, false, not, ◌&&◌, ◌||◌, List, [], ◌∷◌, ◌++◌, Option, none, some, ltb,
  leb, ◌==◌, if◌then◌else◌, Bytes, equal_bytes, length, Result, ok, err,
}

pub record CacheEntry : Type 0 where
  pub data_bytes : Bytes
  pub metadata : List (Bytes × Bytes)
  pub backend_etag : Bytes
  pub source : Bytes
  pub expires_at : ℕ

unfoldable pub is_expired : ℕ → CacheEntry → Bool
is_expired now e = ltb e.expires_at now

pub record CacheStats : Type 0 where
  pub size : ℕ
  pub items : ℕ
  pub hits : ℕ
  pub misses : ℕ
  pub evictions : ℕ

abbrev pub no_stats : CacheStats
no_stats = record { size = 0; items = 0; hits = 0; misses = 0; evictions = 0 }

abbrev pub Entries : Type 0
Entries = List (Bytes × CacheEntry)

pub record MemoryCache : Type 0 where
  pub entries : Entries
  pub max_size : ℕ
  pub max_items : ℕ
  pub stats : CacheStats
  pub ttl : ℕ

abbrev pub new_memory_cache : ℕ → ℕ → ℕ → MemoryCache
new_memory_cache max_size max_items default_ttl = record {
  entries = [];
  max_size = max_size;
  max_items = max_items;
  stats = no_stats;
  ttl = default_ttl;
}

-- The two names with a colon between.
unfoldable pub cache_key : Bytes → Bytes → Bytes
cache_key bucket key = bucket ++ 58 ∷ key

-- A read, a removal and a write of the map.
unfoldable pub find : Bytes → Entries → Option CacheEntry
find k [] = none
find k (e ∷ es) = if equal_bytes k e.0 then some e.1 else find k es

unfoldable pub remove : Bytes → Entries → Entries
remove k [] = []
remove k (e ∷ es) = if equal_bytes k e.0 then remove k es else e ∷ remove k es

unfoldable pub put : Bytes → CacheEntry → Entries → Entries
put k v es = (k, v) ∷ remove k es

get_found : ℕ → MemoryCache → Option CacheEntry → MemoryCache × Option CacheEntry
get_found now c none = (record c { stats = record c.stats { misses = c.stats.misses + 1 } }, none)
get_found now c (some e) =
    if is_expired now e
    then (record c { stats = record c.stats { misses = c.stats.misses + 1 } }, none)
    else (record c { stats = record c.stats { hits = c.stats.hits + 1 } }, some e)

unfoldable pub get : ℕ → Bytes → Bytes → MemoryCache → MemoryCache × Option CacheEntry
unfolding get_found
get now bucket key c = get_found now c (find (cache_key bucket key) c.entries)

unfoldable pub get_current_size : ℕ → Entries → ℕ
get_current_size now [] = 0
get_current_size now (e ∷ es) =
    (if is_expired now e.1 then 0 else length e.1.data_bytes) + get_current_size now es

-- The entries that stay, and the number of evictions.
unfoldable pub evict_expired : ℕ → Entries → Entries × ℕ
evict_expired now [] = ([], 0)
evict_expired now (e ∷ es) =
    let (kept, evicted) = evict_expired now es in
    if is_expired now e.1 then (kept, evicted + 1) else (e ∷ kept, evicted)

-- The loop that removes entries: `max_size - needed` is negative if the entry is larger than the cache.
unfoldable pub evict_loop : ℕ → ℕ → ℕ → ℕ → Entries → Entries × ℕ
evict_loop max_size max_items needed current [] = ([], 0)
evict_loop max_size max_items needed current (e ∷ es) =
    let (kept, evicted) =
      evict_loop max_size max_items needed (current - length e.1.data_bytes) es in
    if leb (current + needed) max_size && ltb (length (e ∷ es)) max_items
    then (e ∷ es, 0)
    else (kept, evicted + 1)

-- It always reports success.
unfoldable pub evict_for_space : ℕ → ℕ → MemoryCache → MemoryCache × Bool
evict_for_space now needed c =
    let (live, expired) = evict_expired now c.entries in
    let current = get_current_size now live in
    let (kept, evicted) = evict_loop c.max_size c.max_items needed current live in
    if leb (current + needed) c.max_size && ltb (length live) c.max_items
    then (
      record c {
        entries = live;
        stats = record c.stats { evictions = c.stats.evictions + expired };
      },
      true,
    )
    else (
      record c {
        entries = kept;
        stats = record c.stats { evictions = c.stats.evictions + expired + evicted };
      },
      true,
    )

pub data CacheError : Type 0 where
  cache_entry_is_nil cache_full : CacheError

-- The size is taken before the expired entries go, as in the source.
unfoldable set_value :
    ℕ → Bytes → CacheEntry → MemoryCache → MemoryCache × Result CacheError (Unit {0})
set_value now key value c =
    let current = get_current_size now c.entries in
    let (live, expired) = evict_expired now c.entries in
    let c1 = record c {
      entries = live;
      stats = record c.stats { evictions = c.stats.evictions + expired };
    } in
    let (c2, room) = evict_for_space now (length value.data_bytes) c1 in
    if ltb c.max_size (current + length value.data_bytes) || leb c.max_items (length live)
    then (if room
        then (record c2 { entries = put key value c2.entries }, ok tt)
        else (c2, err cache_full))
    else (record c1 { entries = put key value c1.entries }, ok tt)

unfoldable pub set_entry :
    ℕ
    → Bytes
    → Bytes
    → Option CacheEntry
    → ℕ
    → MemoryCache
    → MemoryCache × Result CacheError (Unit {0})
unfolding set_value
set_entry now bucket key none ttl c = (c, err cache_entry_is_nil)
set_entry now bucket key (some value) ttl c =
    set_value now (cache_key bucket key)
      (record value { expires_at = now + (if ttl == 0 then c.ttl else ttl) }) c

unfoldable pub set :
    ℕ
    → Bytes
    → Bytes
    → Bytes
    → List (Bytes × Bytes)
    → ℕ
    → MemoryCache
    → MemoryCache × Result CacheError (Unit {0})
set now bucket key data_bytes metadata ttl c =
    set_entry now bucket key
      (some (record {
        data_bytes = data_bytes;
        metadata = metadata;
        backend_etag = [];
        source = [];
        expires_at = 0;
      }))
      ttl c

unfoldable pub delete : Bytes → Bytes → MemoryCache → MemoryCache
delete bucket key c = record c { entries = remove (cache_key bucket key) c.entries }

unfoldable pub clear : MemoryCache → MemoryCache
clear c = record c { entries = []; stats = no_stats }

unfoldable pub get_stats : ℕ → MemoryCache → CacheStats
get_stats now c = record c.stats { size = get_current_size now c.entries; items = length c.entries }
