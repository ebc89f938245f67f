-- ===== src/Tests/Deks.antt =====
-- The cache of unwrapped keys, with room for two keys that are valid for ten units of time.
use s3_encryption_gateway.Prelude.{
  ℕ, ◌≤◌, ◌≡◌, refl, true, none, List, [], ◌∷◌, Bytes, Result, ok, err, length, pos, equal_bytes,
}
use s3_encryption_gateway.DekCache.{
  DekCacheConfig, empty_cache, find_entry, delete_entry, lookup, evict_lru, store, after_inner,
}
use s3_encryption_gateway.DekCache.Runs.{
  Section, promoted, stored, cleaned, marked, cleared, section, sections, sections-max_entries,
}

abbrev two_keys : DekCacheConfig
two_keys = record { is_enabled = true; ttl = pos 10; max_entries = pos 2 }

-- An inner key manager that unwraps a ciphertext by adding a byte.
abbrev inner : Bytes → Result ℕ Bytes
inner ciphertext = ok (7 ∷ ciphertext)

abbrev key_a : Bytes
key_a = 1 ∷ []

abbrev key_b : Bytes
key_b = 2 ∷ []

abbrev key_c : Bytes
key_c = 3 ∷ []

-- The inner key manager fails once, and after Close.
abbrev run : List (Section ℕ)
run =
    stored 0 key_a (inner key_a)
    ∷ stored 5 key_b (inner key_b)
    ∷ stored 11 key_a (err 4)
    ∷ stored 11 key_a (inner key_a)
    ∷ promoted key_b
    ∷ stored 12 key_c (inner key_c)
    ∷ cleaned 13
    ∷ []

abbrev at_close : List (Section ℕ)
at_close = marked ∷ stored 14 key_a (inner key_a) ∷ cleared ∷ []

sections-max_entries_example : length (sections two_keys (λ x. x) run empty_cache).entries ≤ 2
sections-max_entries_example = sections-max_entries two_keys (λ x. x) run

-- A key that was stored again after it had expired stands in the order twice, so that it is evicted
-- before a key that was stored earlier.
evicted_first :
    lookup 12 key_a (
      sections two_keys
        (λ x. x)
        (stored 0 key_a (inner key_a)
          ∷ stored 10 key_b (inner key_b)
          ∷ stored 11 key_a (inner key_a)
          ∷ stored 12 key_c (inner key_c)
          ∷ [])
        empty_cache)
    ≡ none
unfolding sections section after_inner store lookup find_entry delete_entry evict_lru equal_bytes
evicted_first = refl
