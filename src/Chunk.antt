-- ===== src/Chunk.antt =====
-- internal/crypto/range_optimization.go: how many records a chunked object has, the sizes of its
-- plaintext and ciphertext, and the encrypted byte range that covers given chunks.
pub mod Count
pub mod Sizes
pub mod Ranges
use s3_encryption_gateway.Prelude.{
  Option, none, some, ℕ, ◌+◌, ◌-◌, ◌*◌, ◌/◌, ◌%◌, ◌^◌, Bool, true, false, not, ◌&&◌, ◌||◌, ltb, leb,
  ◌==◌, if◌then◌else◌, ℤ, pos, negsuc, pos_part, neg_part, ltb_ℤ, max_int64, max_uint64, wrap64,
  Result, ok, err, ◌>>=◌, ◌>>◌, reject,
}

pub data SizeError : Type 0 where
  unsupported_version invalid_chunk_size negative_size count_overflow size_overflow : SizeError
  short_terminal non_canonical invalid_chunk_range range_overflow : SizeError

abbrev pub tag_size : ℕ
tag_size = 16

abbrev pub chunked_terminal_size : ℕ
chunked_terminal_size = 32

abbrev pub min_chunk_size : ℕ
min_chunk_size = 16 * 1024

abbrev pub max_chunk_size : ℕ
max_chunk_size = 1024 * 1024

abbrev pub v1 : ℕ
v1 = 1

abbrev pub v2 : ℕ
v2 = 2

unfoldable pub validate_chunked_version : ℕ → Result SizeError (Unit {0})
validate_chunked_version version =
    reject (not (version == v1) && not (version == v2)) unsupported_version

unfoldable pub validate_chunk_size : ℤ → Result SizeError (Unit {0})
validate_chunk_size chunk_size = do
  reject (ltb_ℤ (pos (max_int64 - tag_size)) chunk_size) invalid_chunk_size
  reject (ltb_ℤ chunk_size (pos min_chunk_size) || ltb_ℤ (pos max_chunk_size) chunk_size)
      invalid_chunk_size

-- `count < 0` is the test that the int64 sum has wrapped round.
unfoldable pub chunked_data_chunk_count : ℤ → ℤ → Result SizeError ℕ
chunked_data_chunk_count (negsuc _) chunk_size = err negative_size
chunked_data_chunk_count (pos size) chunk_size = do
  validate_chunk_size chunk_size
  if size == 0 then ok 0 else do
    let count = (size - 1) / pos_part chunk_size + 1
    reject (ltb max_int64 count) count_overflow
    ok count

-- The 32 bytes of the terminal record, for version 2.
abbrev pub terminal_overhead : ℕ → ℕ
terminal_overhead version = if version == v2 then chunked_terminal_size else 0

-- `overhead` with the terminal added, and its own overflow test.
add_terminal : ℕ → ℕ → Result SizeError ℕ
add_terminal version overhead =
    if version == v2
    then (do
      reject (ltb (max_int64 - chunked_terminal_size) overhead) size_overflow
      ok (overhead + chunked_terminal_size))
    else ok overhead

unfoldable pub chunked_ciphertext_size : ℤ → ℤ → ℕ → Result SizeError ℕ
unfolding add_terminal
chunked_ciphertext_size plaintext_size chunk_size version = do
  validate_chunked_version version
  count ← chunked_data_chunk_count plaintext_size chunk_size
  reject (ltb ((max_int64 - chunked_terminal_size) / tag_size) count) size_overflow
  overhead ← add_terminal version (wrap64 (count * tag_size))
  reject (ltb max_int64 overhead || ltb (max_int64 - overhead) (pos_part plaintext_size))
      size_overflow
  ok (pos_part plaintext_size + overhead)

-- One round of the loop over `{candidate, candidate + 1}`: `none` is `continue`.
accept_count : ℕ → ℕ → Result SizeError ℕ → Option (ℕ × ℕ)
accept_count plain count (ok actual) = if actual == count then some (plain, count) else none
accept_count plain count (err _) = none

unfoldable pub try_count : ℕ → ℤ → ℕ → Option (ℕ × ℕ)
unfolding accept_count
try_count data_size chunk_size count =
    if ltb (max_int64 / tag_size) count
    then none
    else if ltb data_size (count * tag_size)
    then none
    else let plain = data_size - count * tag_size in
      accept_count plain count (chunked_data_chunk_count (pos plain) chunk_size)

or_non_canonical : Option (ℕ × ℕ) → Result SizeError (ℕ × ℕ)
or_non_canonical none = err non_canonical
or_non_canonical (some r) = ok r

unfoldable pub or_else : Option (ℕ × ℕ) → Option (ℕ × ℕ) → Option (ℕ × ℕ)
or_else none later = later
or_else (some r) later = some r

-- The first count to be tried.
abbrev pub first_candidate : ℕ → ℕ → ℕ
first_candidate data_size unit =
    let quotient = data_size / unit in if quotient == 0 then 1 else quotient

-- The function from `dataSize` on.
unfoldable pub plaintext_of_data : ℕ → ℤ → ℕ → Result SizeError (ℕ × ℕ)
unfolding or_non_canonical
plaintext_of_data data_size chunk_size version = if data_size == 0 then ok (0, 0) else (do
  reject (version == v2 && ltb data_size tag_size) non_canonical
  let candidate = first_candidate data_size (pos_part chunk_size + tag_size)
  or_non_canonical (
      or_else (try_count data_size chunk_size candidate)
        (try_count data_size chunk_size (candidate + 1))))

unfoldable pub chunked_plaintext_size : ℤ → ℤ → ℕ → Result SizeError (ℕ × ℕ)
chunked_plaintext_size ciphertext_size chunk_size version = do
  validate_chunked_version version
  validate_chunk_size chunk_size
  reject (ltb_ℤ ciphertext_size (pos 0)) negative_size
  let overhead = terminal_overhead version
  reject (ltb (pos_part ciphertext_size) overhead) short_terminal
  plaintext_of_data (pos_part ciphertext_size - overhead) chunk_size version

unfoldable pub chunked_encrypted_data_range : ℕ → ℕ → ℤ → ℕ → Result SizeError (ℕ × ℕ)
chunked_encrypted_data_range start_chunk end_chunk chunk_size version = do
  validate_chunked_version version
  validate_chunk_size chunk_size
  reject (ltb end_chunk start_chunk) invalid_chunk_range
  let unit = pos_part chunk_size + tag_size
  reject
      (end_chunk == max_uint64
        || (ltb (max_int64 / unit) start_chunk || leb (max_int64 / unit) end_chunk))
      range_overflow
  let start = wrap64 (start_chunk * unit)
  let last = wrap64 ((end_chunk + 1) * unit) - 1
  reject (ltb max_int64 last) range_overflow
  ok (start, last)

unfoldable pub calculate_encrypted_byte_range : ℤ → ℤ → ℤ → Result SizeError (ℕ × ℕ)
calculate_encrypted_byte_range start_chunk end_chunk chunk_size = do
  reject (ltb_ℤ start_chunk (pos 0) || ltb_ℤ end_chunk (pos 0)) invalid_chunk_range
  chunked_encrypted_data_range (pos_part start_chunk) (pos_part end_chunk) chunk_size v1

-- `end` clipped to the last byte of the data records.
clip_end : ℕ → ℕ → ℕ
clip_end data_end last = if leb data_end last then data_end - 1 else last

unfoldable pub chunked_encrypted_data_range_for_plaintext_size :
    ℕ → ℕ → ℤ → ℤ → ℕ → Result SizeError (ℕ × ℕ)
unfolding clip_end
chunked_encrypted_data_range_for_plaintext_size start_chunk end_chunk plaintext_size chunk_size
      version =
    do
      count ← chunked_data_chunk_count plaintext_size chunk_size
      reject (count == 0 || (ltb end_chunk start_chunk || leb count end_chunk)) invalid_chunk_range
      range ← chunked_encrypted_data_range start_chunk end_chunk chunk_size version
      canonical ← chunked_ciphertext_size plaintext_size chunk_size version
      ok (range.0, clip_end (canonical - terminal_overhead version) range.1)

pub record ChunkRange : Type 0 where
  pub start_chunk : ℕ
  pub end_chunk : ℕ
  pub start_offset : ℕ
  pub end_offset : ℕ

clamp_chunk : ℕ → ℕ → ℕ
clamp_chunk total chunk = if leb total chunk then total - 1 else chunk

abbrev pub empty_range : ChunkRange
empty_range = record { start_chunk = 0; end_chunk = 0; start_offset = 0; end_offset = 0 }

unfoldable pub calculate_chunk_range_from_plaintext : ℤ → ℤ → ℤ → ℕ → ChunkRange
unfolding clamp_chunk
calculate_chunk_range_from_plaintext plaintext_start plaintext_end chunk_size total_chunks =
    let s = pos_part chunk_size in
    if not (ltb_ℤ (pos 0) chunk_size) || total_chunks == 0
    then empty_range
    else if ltb_ℤ plaintext_start (pos 0) || ltb_ℤ plaintext_end (pos 0)
    then empty_range
    else record {
      start_chunk = clamp_chunk total_chunks (pos_part plaintext_start / s);
      end_chunk = clamp_chunk total_chunks (pos_part plaintext_end / s);
      start_offset = pos_part plaintext_start % s;
      end_offset = pos_part plaintext_end % s;
    }
