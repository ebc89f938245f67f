-- ===== src/Range/Sizes.antt =====
-- The records of a range and the number of bytes to read for each.
use native.Mathlib.Nat.{le-div_iff_mul-le}
use s3_encryption_gateway.Prelude.{
  ℕ, zero, suc, ◌+◌, ◌-◌, ◌*◌, ◌/◌, ◌≤◌, ◌<◌, true, false, [], ◌∷◌, ◌++◌, some, ltb, leb, ◌==◌, min,
  if◌then◌else◌, Bytes, length, take, drop, ok, max_int64, ◌≡◌, refl, ap, inl, inr, arith,
  Bool-cases,
}
use s3_encryption_gateway.Chunk.{v2, tag_size}
use s3_encryption_gateway.Chunk.Count.{IsCount}
use s3_encryption_gateway.Stream.Decrypt.Sound.{AreAeads}
use s3_encryption_gateway.Range.{RangeConfig, expected_size}

-- The first `n` bytes of a list whose first part has as many.
pub take_front_part : (n : ℕ) (xs ys : Bytes) → n ≤ length xs → take n (xs ++ ys) ≡ take n xs
take_front_part zero xs ys h = refl
take_front_part (suc n) [] ys h = absurd (omega arith)
take_front_part (suc n) (x ∷ xs) ys h = ap (◌∷◌ x) (take_front_part n xs ys (omega arith))

pub drop_front_part : (n : ℕ) (xs ys : Bytes) → n ≤ length xs → drop n (xs ++ ys) ≡ drop n xs ++ ys
drop_front_part zero xs ys h = refl
drop_front_part (suc n) [] ys h = absurd (omega arith)
drop_front_part (suc n) (x ∷ xs) ys h = drop_front_part n xs ys (omega arith)

pub take_shorter : (n m : ℕ) (xs : Bytes) → n ≤ m → take n (take m xs) ≡ take n xs
take_shorter zero m xs h = refl
take_shorter (suc n) zero xs h = absurd (omega arith)
take_shorter (suc n) (suc m) [] h = refl
take_shorter (suc n) (suc m) (x ∷ xs) h = ap (◌∷◌ x) (take_shorter n m xs (omega arith))

-- The bytes of record `index` that lie before the range.
unfoldable pub skip : RangeConfig → ℕ → ℕ
skip cfg index = if index == cfg.range.start_chunk then cfg.range.start_offset else 0

-- A range of the bytes of a text of `total` bytes in `count` records, cut as
-- calculateChunkRangeFromPlaintext does.
pub record IsRange (cfg : RangeConfig) (total : ℕ) : Type 0 where
  pub start_is :
      cfg.range.start_chunk * cfg.reader.chunk_size + cfg.range.start_offset ≡ cfg.plain_start
  pub start_in : cfg.range.start_offset < cfg.reader.chunk_size
  pub end_is : cfg.range.end_chunk * cfg.reader.chunk_size + cfg.range.end_offset ≡ cfg.plain_end
  pub end_in : cfg.range.end_offset < cfg.reader.chunk_size
  pub ordered : cfg.plain_start ≤ cfg.plain_end
  pub inside : cfg.plain_end < total
  pub is_count : IsCount total cfg.reader.chunk_size cfg.chunk_count
  pub size_is : cfg.plain_size ≡ some total
  pub fits : total ≤ max_int64

module _ (cfg : RangeConfig) (laws : AreAeads cfg.reader) (v : cfg.reader.version ≡ v2)
    (some_chunk : 0 < cfg.reader.chunk_size) (total : ℕ) (range : IsRange cfg total) where
  abbrev pub size : ℕ
  size = cfg.reader.chunk_size

  pub mul_le : (j k : ℕ) → j ≤ k → j * size ≤ k * size
  mul_le j k h = grind arith

  pub suc_mul : (k : ℕ) → (k + 1) * size ≡ k * size + size
  suc_mul k = grind arith

  -- Records from `index` on hold the rest of the text: all of a record's size, or the last of it.
  last_record :
      (index left : ℕ)
      → index * size + left ≡ total
      → 0 < left
      → (index == cfg.chunk_count - 1) ≡ true
      → left ≤ size
  last_record index left e h i =
      let j : index + 1 ≡ cfg.chunk_count = ground (arith, i, count_pos) in
      omega (arith, e, range.is_count.enough, suc_mul index, ap (λ k. k * size) j)
    where
      count_pos : 0 < cfg.chunk_count
      count_pos = elim (Bool-cases (ltb 0 cfg.chunk_count)) [
        | inl p ↦ ground (arith, p)
        | inr p ↦
            let z : cfg.chunk_count ≡ 0 = ground (arith, p) in
            absurd (omega (arith, range.is_count.enough, ap (λ k. k * size) z, range.inside))
      ]

  full_record :
      (index left : ℕ)
      → index * size + left ≡ total
      → 0 < left
      → (index == cfg.chunk_count - 1) ≡ false
      → size ≤ left
  full_record index left e h i = elim (Bool-cases (leb (index + 2) cfg.chunk_count)) [
    | inl p ↦
        let more = mul_le (index + 2) cfg.chunk_count (ground (arith, p)) in
        omega (arith, e, range.is_count.no_more, more, suc_mul index, suc_mul (index + 1))
    | inr p ↦
        let under : cfg.chunk_count ≤ index = ground (arith, i, p) in
        absurd (omega (arith, e, range.is_count.enough, mul_le cfg.chunk_count index under))
  ]

  pub expected_size_lem :
      (index left : ℕ)
      → index * size + left ≡ total
      → 0 < left
      → expected_size cfg index ≡ ok (min size left + tag_size)
  unfolding expected_size
  expected_size_lem index left e h = elim (Bool-cases (index == cfg.chunk_count - 1)) [
    | inl i ↦
        let l = last_record index left e h i in
        let s : total - index * size ≡ left = omega (arith, e) in
        let fits : index ≤ max_int64 / size =
          (le-div_iff_mul-le {k = size} {x = index} {y = max_int64} some_chunk).1
            (omega (arith, e, range.fits)) in
        simp (i, v, range.size_is, s) (ground (arith, l, fits))
    | inr i ↦ let l = full_record index left e h i in simp (i, v) (ground (arith, l))
  ]
