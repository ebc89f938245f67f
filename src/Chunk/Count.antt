-- ===== src/Chunk/Count.antt =====
-- The number of data records, against its arithmetic description.
use native.Mathlib.Nat.{div-add-mod', mod-lt, div-le_self}
use s3_encryption_gateway.Prelude.{
  ℕ, zero, suc, ◌+◌, ◌-◌, ◌*◌, ◌/◌, ◌≤◌, ◌<◌, ◌≡◌, ap, arith, ◌==◌, pos, ℤ, pos_part, max_int64, ok,
  if◌then◌else◌,
}
use s3_encryption_gateway.Chunk.{
  min_chunk_size, max_chunk_size, validate_chunk_size, chunked_data_chunk_count,
}

-- A chunk size that the format allows.
pub record IsChunkSize (s : ℕ) : Type 0 where
  pub at_least : min_chunk_size ≤ s
  pub at_most : s ≤ max_chunk_size

-- `k` records of at most `s` bytes hold `p` bytes, and fewer do not.
pub record IsCount (p s k : ℕ) : Type 0 where
  pub enough : p ≤ k * s
  pub no_more : k * s < p + s

-- Two counts of the same size are equal.
pub IsCount-unique : (p s j k : ℕ) → IsCount p s j → IsCount p s k → j ≡ k
IsCount-unique p s j k a b = grind arith

pub validate_chunk_size_lem : (s : ℕ) → IsChunkSize s → validate_chunk_size (pos s) ≡ ok tt
unfolding validate_chunk_size
validate_chunk_size_lem s h = ground arith

pub validate_chunk_size_inv : (c : ℤ) → validate_chunk_size c ≡ ok tt → IsChunkSize (pos_part c)
unfolding validate_chunk_size
validate_chunk_size_inv c h = ground arith

-- The count in closed form.
unfoldable pub record_count : ℕ → ℕ → ℕ
record_count p s = if p == 0 then 0 else (p - 1) / s + 1

pub record_count-IsCount : (p s : ℕ) → 0 < s → IsCount p s (record_count p s)
unfolding record_count
record_count-IsCount zero s hs = omega arith
record_count-IsCount (suc p) s hs =
    grind (arith, div-add-mod' (suc p - 1) s, mod-lt (suc p - 1) {m = s} hs)

pub record_count-le : (p s : ℕ) → record_count p s ≤ p
unfolding record_count
record_count-le p s = ground (arith, div-le_self (p - 1) s)

-- Every size that fits in an int64 has a count.
pub chunk_count_lem :
    (p s : ℕ)
    → IsChunkSize s
    → p ≤ max_int64
    → chunked_data_chunk_count (pos p) (pos s) ≡ ok (record_count p s)
unfolding chunked_data_chunk_count record_count
chunk_count_lem p s v h = rw (validate_chunk_size_lem s v) (ground (arith, div-le_self (p - 1) s))

pub chunk_count-eq_of :
    (p s k : ℕ)
    → IsChunkSize s
    → p ≤ max_int64
    → IsCount p s k
    → chunked_data_chunk_count (pos p) (pos s) ≡ ok k
chunk_count-eq_of p s k v h c =
    rw (chunk_count_lem p s v h)
      (ap ok (IsCount-unique p s (record_count p s) k (record_count-IsCount p s (omega arith)) c))
