-- ===== src/RangeHeader.antt =====
-- internal/crypto/range_optimization.go, ParseHTTPRangeHeader: the plaintext range that a Range
-- header asks for.
pub mod Bounds
use s3_encryption_gateway.Prelude.{
  ℕ, suc, ◌+◌, ◌-◌, Bool, true, false, not, ◌&&◌, ◌||◌, List, [], ◌∷◌, ◌++◌, Option, none, some,
  ltb, leb, ◌==◌, if◌then◌else◌, Bytes, equal_bytes, length, take, drop, Result, ok, err, ◌>>=◌,
  ◌>>◌, reject, ℤ, pos, negsuc, pos_part, neg_part, ltb_ℤ, max_int64,
}

pub data RangeHeaderError : Type 0 where
  bad_header bad_range needs_size bad_number start_negative end_before_start unsatisfiable :
      RangeHeaderError

abbrev pub bytes_unit : Bytes
bytes_unit = b'b' ∷ b'y' ∷ b't' ∷ b'e' ∷ b's' ∷ b'=' ∷ []

abbrev pub dash : ℕ
dash = b'-'

-- strings.Split(spec, "-")
add_front : ℕ → List Bytes → List Bytes
add_front b [] = (b ∷ []) ∷ []
add_front b (p ∷ ps) = (b ∷ p) ∷ ps

unfoldable pub split_dash : Bytes → List Bytes
unfolding add_front
split_dash [] = [] ∷ []
split_dash (b ∷ bs) = let rest = split_dash bs in if b == dash then [] ∷ rest else add_front b rest

-- `totalSizeHint - suffix` in int64, and 0 if that is negative. The difference of a positive size and
-- a negative number can wrap around to a negative one.
unfoldable pub suffix_start : ℕ → ℤ → ℕ
suffix_start total (pos n) = total - n
suffix_start total (negsuc n) = if ltb max_int64 (total + suc n) then 0 else total + suc n

parsed : Option ℤ → Result RangeHeaderError ℤ
parsed none = err bad_number
parsed (some z) = ok z

-- `parse` is strconv.ParseInt with base 10 and 64 bits.
module _ (parse : Bytes → Option ℤ) where
  suffix_range : Bytes → ℤ → Result RangeHeaderError (ℤ × ℤ)
  unfolding parsed suffix_start
  suffix_range digits total = do
    reject (not (ltb_ℤ (pos 0) total)) needs_size
    n ← parsed (parse digits)
    ok (pos (suffix_start (pos_part total) n), pos (pos_part total - 1))

  range_end : Bytes → ℤ → Result RangeHeaderError ℤ
  unfolding parsed
  range_end [] total = do
    reject (not (ltb_ℤ (pos 0) total)) needs_size
    ok (pos (pos_part total - 1))
  range_end (b ∷ bs) total = parsed (parse (b ∷ bs))

  start_and_end : List Bytes → ℤ → Result RangeHeaderError (ℤ × ℤ)
  unfolding parsed range_end
  start_and_end (first ∷ second ∷ []) total = do
    s ← parsed (parse first)
    e ← range_end second total
    ok (s, e)
  start_and_end _ total = err bad_range

  range_spec : Bytes → ℤ → Result RangeHeaderError (ℤ × ℤ)
  unfolding suffix_range start_and_end
  range_spec [] total = err bad_range
  range_spec (b ∷ bs) total =
      if b == dash then suffix_range bs total else start_and_end (split_dash (b ∷ bs)) total

  -- The checks at the end.
  unfoldable pub check_range : ℤ → ℤ × ℤ → Result RangeHeaderError (ℤ × ℤ)
  check_range total r = do
    reject (ltb_ℤ r.0 (pos 0)) start_negative
    reject (ltb_ℤ r.1 r.0) end_before_start
    reject (ltb_ℤ (pos 0) total && (not (ltb_ℤ r.0 total) || not (ltb_ℤ r.1 total))) unsatisfiable
    ok r

  unfoldable pub parse_http_range_header : Bytes → ℤ → Result RangeHeaderError (ℤ × ℤ)
  unfolding range_spec
  parse_http_range_header header total = do
    reject (ltb (length header) 6 || not (equal_bytes (take 6 header) bytes_unit)) bad_header
    r ← range_spec (drop 6 header) total
    check_range total r
