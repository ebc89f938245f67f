-- ===== src/MemoryCache/Limits.antt =====
-- What the cache keeps to: its limits, the values stored, and the separation of the keys.
use s3_encryption_gateway.Prelude.{
  ℕ, ◌+◌, ◌-◌, ◌≤◌, ◌<◌, true, ◌&&◌, ◌||◌, [], ◌∷◌, none, some, ltb, leb, ◌==◌, if◌then◌else◌,
  Bytes, equal_bytes_refl, length, ◌≢◌, ok, ◌≡◌, refl, arith, Bool-cases, inl, inr,
}
use s3_encryption_gateway.MemoryCache.{
  CacheEntry, Entries, MemoryCache, is_expired, cache_key, find, remove, put, get, get_current_size,
  evict_expired, evict_loop, evict_for_space, set_value, set_entry,
}

-- All the bytes that are held, expired or not.
unfoldable pub held : Entries → ℕ
held [] = 0
held (e ∷ es) = length e.1.data_bytes + held es

remove-held :
    (k : Bytes) (es : Entries) → (held (remove k es) ≤ held es) × (length (remove k es) ≤ length es)
unfolding remove held
remove-held k [] = ground arith
remove-held k (e ∷ es) = ground (arith, remove-held k es)

evict_expired-held :
    (now : ℕ) (es : Entries)
    → (get_current_size now (evict_expired now es).0 ≡ held (evict_expired now es).0)
      × (get_current_size now es ≡ held (evict_expired now es).0)
unfolding evict_expired held get_current_size
evict_expired-held now [] = (refl, refl)
evict_expired-held now (e ∷ es) = elim (Bool-cases (is_expired now e.1)) [
  | inl x ↦ rw x (let k = evict_expired-held now es in ground (arith, k))
  | inr x ↦ rw x (let k = evict_expired-held now es in ground (arith, k))
]

held_tail : (m n : ℕ) → m + n - m ≡ n
held_tail m n = ground arith

evict_loop-held :
    (max_size max_items needed : ℕ) (es : Entries)
    → needed ≤ max_size
    → 0 < max_items
    → (held (evict_loop max_size max_items needed (held es) es).0 + needed ≤ max_size)
      × (length (evict_loop max_size max_items needed (held es) es).0 < max_items)
unfolding evict_loop held
evict_loop-held max_size max_items needed [] h i = ground (arith, h, i)
evict_loop-held max_size max_items needed (e ∷ es) h i =
    let k = evict_loop-held max_size max_items needed es h i in
    let d = held_tail (length e.1.data_bytes) (held es) in rw d (ground (arith, k))

Room : ℕ → ℕ → ℕ → Entries → Type 0
Room max_size max_items needed es =
    needed ≤ max_size → 0 < max_items → (held es + needed ≤ max_size) × (length es < max_items)

evict_for_space-Room :
    (now needed : ℕ) (c : MemoryCache)
    → ((evict_for_space now needed c).1 ≡ true)
      × Room c.max_size c.max_items needed (evict_for_space now needed c).0.entries
unfolding evict_for_space Room
evict_for_space-Room now needed c =
    let live = (evict_expired now c.entries).0 in
    let d = evict_expired-held now c.entries in
    let current = get_current_size now live in
    elim (Bool-cases (leb (current + needed) c.max_size && ltb (length live) c.max_items)) [
      | inl e ↦ (rw e refl, rw e (λ h i. ground (arith, d, e)))
      | inr e ↦
          (rw e refl, rw e (λ h i. rw d.0 (evict_loop-held c.max_size c.max_items needed live h i)))
    ]

-- Every branch of the insertion ends with the entry put among some of those that were held.
set_value-put :
    (now : ℕ) (key : Bytes) (v : CacheEntry) (c : MemoryCache)
    → (es : Entries) × ((set_value now key v c).0.entries ≡ put key v es)
      × ((set_value now key v c).1 ≡ ok tt)
      × Room c.max_size c.max_items (length v.data_bytes) es
unfolding set_value Room
set_value-put now key v c =
    let live = (evict_expired now c.entries).0 in
    let c1 = record c {
      entries = live;
      stats = record c.stats { evictions = c.stats.evictions + (evict_expired now c.entries).1 };
    } in
    let d = evict_expired-held now c.entries in
    elim (Bool-cases (
      ltb c.max_size (get_current_size now c.entries + length v.data_bytes)
      || leb c.max_items (length live))) [
        | inl e ↦
            let (x, y) = evict_for_space-Room now (length v.data_bytes) c1 in
            (
              (evict_for_space now (length v.data_bytes) c1).0.entries,
              rw (e, x) refl,
              rw (e, x) refl,
              y,
            )
        | inr e ↦ (live, rw e refl, rw e refl, λ h i. ground (arith, d, e))
      ]

-- Storing an entry that fits in the cache succeeds, and then the bytes held and the number of
-- entries are within the limits, whatever the cache held before.
pub set_entry-limits :
    (now ttl : ℕ) (bucket key : Bytes) (v : CacheEntry) (c : MemoryCache)
    → length v.data_bytes ≤ c.max_size
    → 0 < c.max_items
    → ((set_entry now bucket key (some v) ttl c).1 ≡ ok tt)
      × (held (set_entry now bucket key (some v) ttl c).0.entries ≤ c.max_size)
      × (length (set_entry now bucket key (some v) ttl c).0.entries ≤ c.max_items)
unfolding set_entry put held Room
set_entry-limits now ttl bucket key v c h i =
    let k = cache_key bucket key in
    let (es, x, y, z) =
      set_value-put now k (record v { expires_at = now + (if ttl == 0 then c.ttl else ttl) }) c in
    let (l, n) = z h i in
    let (r, q) = remove-held k es in (y, rw x (ground (arith, l, r)), rw x (ground (arith, n, q)))

ttl_kept : (ttl default : ℕ) → 0 < ttl → (if ttl == 0 then default else ttl) ≡ ttl
ttl_kept ttl default h = ground arith

find-put : (k : Bytes) (v : CacheEntry) (es : Entries) → find k (put k v es) ≡ some v
unfolding find put
find-put k v es = rw (equal_bytes_refl k) refl

-- What was stored is what the next read of the same name returns, up to and including the time at
-- which it expires; after that time the read finds nothing. The entry's bytes and metadata are kept.
pub get-set_entry :
    (now later ttl : ℕ) (bucket key : Bytes) (v : CacheEntry) (c : MemoryCache)
    → 0 < ttl
    → (get later bucket key (set_entry now bucket key (some v) ttl c).0).1
      ≡ (if ltb (now + ttl) later then none else some (record v { expires_at = now + ttl }))
unfolding get set_entry is_expired
get-set_entry now later ttl bucket key v c h =
    let k = cache_key bucket key in
    let (es, x, y, z) = set_value-put now k (record v { expires_at = now + ttl }) c in
    rw (ttl_kept ttl c.ttl h)
      (rw x (rw (find-put k (record v { expires_at = now + ttl }) es) (ground arith)))

-- No byte is a colon, as in the name of a bucket.
abbrev pub IsColonFree : Bytes → Type 0
IsColonFree [] = Unit
IsColonFree (x ∷ xs) = (x ≢ 58) × IsColonFree xs

-- Two names in buckets without a colon have the same key only if they are the same.
pub cache_key-injective :
    (b1 k1 b2 k2 : Bytes)
    → IsColonFree b1
    → IsColonFree b2
    → cache_key b1 k1 ≡ cache_key b2 k2
    → (b1 ≡ b2) × (k1 ≡ k2)
unfolding cache_key
cache_key-injective [] k1 [] k2 h1 h2 e = ground (arith, e)
cache_key-injective [] k1 (x ∷ b2) k2 h1 h2 e = ground (arith, e, h2)
cache_key-injective (x ∷ b1) k1 [] k2 h1 h2 e = ground (arith, e, h1)
cache_key-injective (x ∷ b1) k1 (y ∷ b2) k2 h1 h2 e =
    ground (arith, e, cache_key-injective b1 k1 b2 k2 h1.1 h2.1)
