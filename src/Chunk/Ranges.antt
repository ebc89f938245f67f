-- ===== src/Chunk/Ranges.antt =====
-- The encrypted byte range of a run of records: it holds these records whole, and never a byte of
-- the terminal.
use native.Mathlib.Nat.{div-add-mod', mod-lt, div-mul-le_self, le-div_iff_mul-le, div-lt_iff_lt-mul}
use s3_encryption_gateway.Prelude.{
  ℕ, ◌+◌, ◌-◌, ◌*◌, ◌/◌, ◌≤◌, ◌<◌, ◌≡◌, arith, inl, inr, pos, max_int64, ok, Result-cases, min,
}
use s3_encryption_gateway.Chunk.{
  validate_chunked_version, chunked_ciphertext_size, chunked_encrypted_data_range,
  chunked_encrypted_data_range_for_plaintext_size, calculate_chunk_range_from_plaintext,
}
use s3_encryption_gateway.Chunk.Count.{
  IsChunkSize, IsCount, record_count, record_count-IsCount, chunk_count_lem,
  validate_chunk_size_lem,
}
use s3_encryption_gateway.Chunk.Sizes.{
  IsVersion, ciphertext_size, chunked_ciphertext_size_inv, validate_chunked_version_lem,
}

pub mul_mono : (j k s : ℕ) → j ≤ k → j * s ≤ k * s
mul_mono j k s h = grind arith

le_mul : (k s : ℕ) → 0 < s → k ≤ k * s
le_mul k s h = grind arith

suc_mul : (k s : ℕ) → (k + 1) * s ≡ k * s + s
suc_mul k s = grind arith

data_range_inv :
    (j k s version : ℕ) (r : ℕ × ℕ)
    → IsChunkSize s
    → chunked_encrypted_data_range j k (pos s) version ≡ ok r
    → (r.0 ≡ j * (s + 16)) × (r.1 + 1 ≡ (k + 1) * (s + 16)) × (j ≤ k) × IsVersion version
unfolding chunked_encrypted_data_range validate_chunked_version
data_range_inv j k s version r hs e = ground (
  arith,
  validate_chunk_size_lem s hs,
  (le-div_iff_mul-le {k = s + 16} {x = k + 1} {y = max_int64} (omega arith)).0,
  mul_mono j (k + 1) (s + 16),
  suc_mul k (s + 16),
)

pub data_range_lem :
    (j k s version : ℕ)
    → IsChunkSize s
    → IsVersion version
    → j ≤ k
    → (k + 1) * (s + 16) ≤ max_int64
    → chunked_encrypted_data_range j k (pos s) version ≡ ok (j * (s + 16), (k + 1) * (s + 16) - 1)
unfolding chunked_encrypted_data_range
data_range_lem j k s version hs hv h fits =
    let q = (le-div_iff_mul-le {k = s + 16} {x = k + 1} {y = max_int64} (omega arith)).1 fits in
    rw (validate_chunked_version_lem version hv, validate_chunk_size_lem s hs)
      (ground (arith, q, le_mul (k + 1) (s + 16), mul_mono j (k + 1) (s + 16)))

index_lt : (b p s k : ℕ) → 0 < s → b < p → p ≤ k * s → b / s < k
index_lt b p s k hs h e = (div-lt_iff_lt-mul {k = s} {x = b} {y = k} hs).1 (omega arith)

div_mono : (a b s : ℕ) → 0 < s → a ≤ b → a / s ≤ b / s
div_mono a b s hs h =
    (le-div_iff_mul-le {k = s} {x = a / s} {y = b} hs).1 (omega (arith, div-mul-le_self a s))

-- For a range inside an object and a positive chunk size: the record indices and the offsets inside
-- the records address the first and the last byte, and the records exist.
pub chunk_range_lem :
    (a b p s : ℕ)
    → 0 < s
    → a ≤ b
    → b < p
    → let r = calculate_chunk_range_from_plaintext (pos a) (pos b) (pos s) (record_count p s) in
      (r.start_chunk * s + r.start_offset ≡ a)
      × (r.start_offset < s)
      × (r.end_chunk * s + r.end_offset ≡ b)
      × (r.end_offset < s)
      × (r.start_chunk ≤ r.end_chunk)
      × (r.end_chunk < record_count p s)
unfolding calculate_chunk_range_from_plaintext
chunk_range_lem a b p s hs h hb =
    let c = record_count-IsCount p s hs in
    let i = index_lt b p s (record_count p s) hs hb c.enough in
    let o = div_mono a b s hs h in
    ground
      (arith, div-add-mod' a s, div-add-mod' b s, mod-lt a {m = s} hs, mod-lt b {m = s} hs, i, o)

-- A record starts before the data ends.
record_start : (j k p s n : ℕ) → IsCount p s n → j ≤ k → k < n → j * (s + 16) < p + n * 16
record_start j k p s n c h hk = grind (arith, mul_mono (j + 1) n s)

-- For an allowed chunk size and a plaintext size in an int64, a range of records that is accepted
-- exists, starts with the first byte of its first record and ends with the last byte of its last
-- one, and the terminal that follows the records is not in it.
pub data_range_bounds :
    (j k p s version : ℕ) (r : ℕ × ℕ)
    → IsChunkSize s
    → p ≤ max_int64
    → chunked_encrypted_data_range_for_plaintext_size j k (pos p) (pos s) version ≡ ok r
    → (r.0 ≡ j * (s + 16))
      × (r.1 + 1 ≡ min ((k + 1) * (s + 16)) (p + record_count p s * 16))
      × (r.0 ≤ r.1)
      × (j ≤ k)
      × (k < record_count p s)
unfolding chunked_encrypted_data_range_for_plaintext_size ciphertext_size
data_range_bounds j k p s version r hs hp e =
    elim (Result-cases (chunked_encrypted_data_range j k (pos s) version)) [
      | inl (q, eq) ↦ elim (Result-cases (chunked_ciphertext_size (pos p) (pos s) version)) [
        | inl (c, ec) ↦ ground (
          arith,
          chunk_count_lem p s hs hp,
          data_range_inv j k s version q hs eq,
          chunked_ciphertext_size_inv p s version c hs hp ec,
          record_start j k p s (record_count p s) (record_count-IsCount p s (omega arith)),
          suc_mul k (s + 16),
          mul_mono j k (s + 16),
        )
        | inr (x, ec) ↦ ground (arith, chunk_count_lem p s hs hp, eq, ec)
      ]
      | inr (x, eq) ↦ ground (arith, chunk_count_lem p s hs hp, eq)
    ]
