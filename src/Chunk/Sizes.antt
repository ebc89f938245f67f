-- ===== src/Chunk/Sizes.antt =====
-- The two size equations: which plaintext size goes with which ciphertext size.
use native.Mathlib.Nat.{div-add-mod', mod-lt}
use s3_encryption_gateway.Prelude.{
  ℕ, zero, suc, ◌+◌, ◌-◌, ◌*◌, ◌/◌, ◌%◌, ◌≤◌, ◌<◌, ◌≡◌, refl, ap, arith, le→ltb, Option-cases, some,
  ◌⊎◌, inl, inr, pos, max_int64, ok, ◌∙◌,
}
use s3_encryption_gateway.Chunk.{
  max_chunk_size, validate_chunk_size, validate_chunked_version, chunked_ciphertext_size,
  chunked_plaintext_size, plaintext_of_data, first_candidate, try_count, or_else, v1, v2,
  terminal_overhead,
}
use s3_encryption_gateway.Chunk.Count.{
  IsChunkSize, IsCount, IsCount-unique, record_count, record_count-IsCount, chunk_count_lem,
  chunk_count-eq_of, validate_chunk_size_lem,
}

abbrev pub IsVersion : ℕ → Type 0
IsVersion v = (v ≡ v1) ⊎ (v ≡ v2)

pub validate_chunked_version_lem : (v : ℕ) → IsVersion v → validate_chunked_version v ≡ ok tt
unfolding validate_chunked_version
validate_chunked_version_lem v h = ground arith

pub validate_chunked_version_inv : (v : ℕ) → validate_chunked_version v ≡ ok tt → IsVersion v
unfolding validate_chunked_version
validate_chunked_version_inv v h = ground arith

-- What one round of the loop accepts is the count of a plaintext that fills the data exactly.
pub try_count_inv :
    (data_size s count : ℕ) (r : ℕ × ℕ)
    → IsChunkSize s
    → data_size ≤ max_int64
    → try_count data_size (pos s) count ≡ some r
    → (r.1 ≡ count) × (r.0 + count * 16 ≡ data_size) × IsCount r.0 s count
unfolding try_count
try_count_inv d s k r v h e = ground (
  arith,
  chunk_count_lem (d - k * 16) s v (omega arith),
  record_count-IsCount (d - k * 16) s (omega arith),
)

pub try_count_lem :
    (plain s count : ℕ)
    → IsChunkSize s
    → plain + count * 16 ≤ max_int64
    → IsCount plain s count
    → try_count (plain + count * 16) (pos s) count ≡ some (plain, count)
unfolding try_count
try_count_lem p s k v h c =
    let e : p + k * 16 - k * 16 ≡ p = omega arith in
    rw
      (
        le→ltb (max_int64 / 16) k (omega arith),
        le→ltb (p + k * 16) (k * 16) (omega arith),
        e,
        chunk_count-eq_of p s k v (omega arith) c,
      )
      (ground arith)

mul_step : (j k s : ℕ) → j < k → j * s + s ≤ k * s
mul_step j k s h = grind arith

-- A total of data and tags has one split.
split_unique :
    (p q s j k : ℕ) → IsCount p s j → IsCount q s k → p + j * 16 ≡ q + k * 16 → (p ≡ q) × (j ≡ k)
split_unique p q s j k a b e =
    ground (arith, λ (h : j < k). mul_step j k s h, λ (h : k < j). mul_step k j s h)

near_of_bounds :
    (n below k p s r : ℕ)
    → 0 < s
    → IsCount p s k
    → below + r ≡ p + k * 16
    → r < s + 16
    → (k < n → k * (s + 16) + (s + 16) ≤ below)
    → (n + 1 < k → (n + 1) * (s + 16) + (s + 16) ≤ k * (s + 16))
    → below ≡ n * (s + 16)
    → (n ≡ k) ⊎ (n + 1 ≡ k)
near_of_bounds n below k p s r hs c split hr more less e = ground arith

-- The quotient that the code starts from is the count, or one less.
candidate_near :
    (p s k : ℕ) → 0 < s → IsCount p s k → let n = (p + k * 16) / (s + 16) in (n ≡ k) ⊎ (n + 1 ≡ k)
candidate_near p s k hs c =
    let d : ℕ = p + k * 16 in
    let n : ℕ = d / (s + 16) in
    near_of_bounds n (n * (s + 16)) k p s (d % (s + 16)) hs c (div-add-mod' d (s + 16))
      (mod-lt d {m = s + 16} (omega arith)) (λ h. mul_step k n (s + 16) h)
      (λ h. mul_step (n + 1) k (s + 16) h) refl

-- The equation in closed form.
unfoldable pub ciphertext_size : ℕ → ℕ → ℕ → ℕ
ciphertext_size p s version = p + record_count p s * 16 + terminal_overhead version

-- At least 16 KiB go into each record, so counts stay far from the bound that the code tests.
record_count_bound : (p s : ℕ) → IsChunkSize s → record_count p s * 16384 < p + max_chunk_size
record_count_bound p s hs = grind (arith, record_count-IsCount p s (omega arith))

pub chunked_ciphertext_size_lem :
    (p s version : ℕ)
    → IsChunkSize s
    → IsVersion version
    → ciphertext_size p s version ≤ max_int64
    → chunked_ciphertext_size (pos p) (pos s) version ≡ ok (ciphertext_size p s version)
unfolding chunked_ciphertext_size ciphertext_size
chunked_ciphertext_size_lem p s version hs hv h =
    rw (validate_chunked_version_lem version hv, chunk_count_lem p s hs (omega arith))
      (ground (arith, record_count_bound p s hs))

pub chunked_ciphertext_size_inv :
    (p s version c : ℕ)
    → IsChunkSize s
    → p ≤ max_int64
    → chunked_ciphertext_size (pos p) (pos s) version ≡ ok c
    → (c ≡ ciphertext_size p s version) × (c ≤ max_int64) × IsVersion version
unfolding chunked_ciphertext_size ciphertext_size validate_chunked_version
chunked_ciphertext_size_inv p s version c hs hp e = ground (arith, chunk_count_lem p s hs hp)

-- One of the two rounds accepts the pair that fits, and neither accepts another.
rounds_lem :
    (p s k n : ℕ)
    → IsChunkSize s
    → p + k * 16 ≤ max_int64
    → IsCount p s k
    → (n ≡ k) ⊎ (n + 1 ≡ k)
    → or_else (try_count (p + k * 16) (pos s) n) (try_count (p + k * 16) (pos s) (n + 1))
      ≡ some (p, k)
unfolding or_else
rounds_lem p s k n hs h c (inl e) = rw (e, try_count_lem p s k hs h c)
rounds_lem p s k n hs h c (inr e) = elim (Option-cases (try_count (p + k * 16) (pos s) n)) [
  | inl failed ↦ rw (failed, e, try_count_lem p s k hs h c)
  | inr (r, found) ↦
      let i = try_count_inv (p + k * 16) s n r hs h found in
      absurd (omega (arith, split_unique r.0 p s n k i.2 c i.1))
]

first_candidate_near :
    (p s k : ℕ)
    → 0 < p
    → 0 < s
    → IsCount p s k
    → let n = first_candidate (p + k * 16) (s + 16) in (n ≡ k) ⊎ (n + 1 ≡ k)
first_candidate_near p s zero hp hs c = absurd (omega arith)
first_candidate_near p s (suc k) hp hs c = ground (arith, candidate_near p s (suc k) hs c)

plaintext_of_data_lem :
    (p s k version : ℕ)
    → IsChunkSize s
    → p + k * 16 ≤ max_int64
    → IsCount p s k
    → plaintext_of_data (p + k * 16) (pos s) version ≡ ok (p, k)
unfolding plaintext_of_data
plaintext_of_data_lem zero s zero version hs h c = refl
plaintext_of_data_lem zero s (suc k) version hs h c = absurd (grind arith)
plaintext_of_data_lem (suc p) s zero version hs h c = absurd (omega arith)
plaintext_of_data_lem (suc p) s (suc k) version hs h c =
    rw
      (rounds_lem (suc p) s (suc k) (first_candidate (suc p + suc k * 16) (s + 16)) hs h c
        (first_candidate_near (suc p) s (suc k) (omega arith) (omega arith) c))
      (ground arith)

plaintext_of_data_inv :
    (data_size s version : ℕ) (r : ℕ × ℕ)
    → IsChunkSize s
    → data_size ≤ max_int64
    → plaintext_of_data data_size (pos s) version ≡ ok r
    → (r.0 + r.1 * 16 ≡ data_size) × IsCount r.0 s r.1
unfolding plaintext_of_data or_else
plaintext_of_data_inv d s version r hs h e =
    let n : ℕ = first_candidate d (s + 16) in
    ground (arith, try_count_inv d s n r hs h, try_count_inv d s (n + 1) r hs h)

-- For an allowed chunk size and a plaintext size in an int64: decoding the ciphertext size that
-- encoding gave returns the plaintext size and its number of records.
pub plaintext_size-ciphertext_size :
    (p s version c : ℕ)
    → IsChunkSize s
    → p ≤ max_int64
    → chunked_ciphertext_size (pos p) (pos s) version ≡ ok c
    → chunked_plaintext_size (pos c) (pos s) version ≡ ok (p, record_count p s)
unfolding chunked_plaintext_size ciphertext_size
plaintext_size-ciphertext_size p s version c hs hp e =
    let i = chunked_ciphertext_size_inv p s version c hs hp e in
    let d : c - terminal_overhead version ≡ p + record_count p s * 16 = omega (arith, i.0) in
    rw
      (
        validate_chunked_version_lem version i.2,
        validate_chunk_size_lem s hs,
        le→ltb c (terminal_overhead version) (omega (arith, i.0)),
        d,
        plaintext_of_data_lem p s (record_count p s) version hs (omega (arith, i.0, i.1))
            (record_count-IsCount p s (omega arith)),
      )
      (ground arith)

-- What the guards of `chunked_plaintext_size` let through.
accepted_parts :
    (c s version : ℕ) (r : ℕ × ℕ)
    → chunked_plaintext_size (pos c) (pos s) version ≡ ok r
    → IsVersion version
      × (terminal_overhead version ≤ c)
      × (plaintext_of_data (c - terminal_overhead version) (pos s) version ≡ ok r)
unfolding chunked_plaintext_size validate_chunked_version validate_chunk_size
accepted_parts c s version r e = (ground arith, ground arith, ground arith)

-- For an allowed chunk size and a ciphertext size in an int64: a size is accepted only if encoding
-- the plaintext size that is returned gives it back, and the count returned is that of its records.
pub ciphertext_size-plaintext_size :
    (c s version : ℕ) (r : ℕ × ℕ)
    → IsChunkSize s
    → c ≤ max_int64
    → chunked_plaintext_size (pos c) (pos s) version ≡ ok r
    → (chunked_ciphertext_size (pos r.0) (pos s) version ≡ ok c) × (r.1 ≡ record_count r.0 s)
unfolding ciphertext_size
ciphertext_size-plaintext_size c s version r hs hc e =
    let a = accepted_parts c s version r e in
    let d =
      plaintext_of_data_inv (c - terminal_overhead version) s version r hs (omega arith) a.2 in
    let k : r.1 ≡ record_count r.0 s =
      IsCount-unique r.0 s r.1 (record_count r.0 s) d.1
        (record_count-IsCount r.0 s (omega arith)) in
    let t : ciphertext_size r.0 s version ≡ c = omega (arith, a.1, d.0, k) in
    (chunked_ciphertext_size_lem r.0 s version hs a.0 (omega arith) ∙ ap ok t, k)
