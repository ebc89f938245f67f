-- ===== src/Tests/Headers.antt =====
-- Range headers for an object of ten bytes.
use s3_encryption_gateway.Prelude.{
  ◌≤◌, ◌<◌, ◌-◌, ◌≡◌, refl, arith, Option, some, none, [], ◌∷◌, ◌++◌, Bytes, ok, err, ℤ, pos,
  pos_part, equal_bytes,
}
use s3_encryption_gateway.RangeHeader.{
  bytes_unit, dash, unsatisfiable, end_before_start, split_dash, check_range,
  parse_http_range_header,
}
use s3_encryption_gateway.RangeHeader.Bounds.{
  parse_http_range_header_bounds, parse_http_range_header_suffix,
}

-- A reader of numbers of one digit.
one_digit : Bytes → Option ℤ
one_digit (d ∷ []) = some (pos (d - b'0'))
one_digit _ = none

parse_http_range_header_suffix_example :
    parse_http_range_header one_digit (bytes_unit ++ dash ∷ b'5' ∷ []) (pos 10)
    ≡ ok (pos (10 - 5), pos (10 - 1))
unfolding one_digit
parse_http_range_header_suffix_example =
    parse_http_range_header_suffix one_digit 10 5 (b'5' ∷ []) (omega arith) (omega arith) refl

abbrev header : Bytes
header = bytes_unit ++ b'2' ∷ b'-' ∷ b'7' ∷ []

header_range : parse_http_range_header one_digit header (pos 10) ≡ ok (pos 2, pos 7)
unfolding one_digit parse_http_range_header check_range split_dash equal_bytes
header_range = refl

parse_http_range_header_bounds_example :
    let range : ℤ × ℤ = (pos 2, pos 7) in
    (range ≡ (pos (pos_part range.0), pos (pos_part range.1)))
    × (pos_part range.0 ≤ pos_part range.1)
    × (pos_part range.1 < 10)
parse_http_range_header_bounds_example =
    parse_http_range_header_bounds one_digit 10 header (pos 2, pos 7) (omega arith) header_range

reversed :
    parse_http_range_header one_digit (bytes_unit ++ b'7' ∷ b'-' ∷ b'2' ∷ []) (pos 10)
    ≡ err end_before_start
unfolding one_digit parse_http_range_header check_range split_dash equal_bytes
reversed = refl

open_end :
    parse_http_range_header one_digit (bytes_unit ++ b'4' ∷ b'-' ∷ []) (pos 10) ≡ ok (pos 4, pos 9)
unfolding one_digit parse_http_range_header check_range split_dash equal_bytes
open_end = refl

-- A last byte past the end is refused, where RFC 9110 has the range end with the object.
long_end :
    parse_http_range_header one_digit (bytes_unit ++ b'4' ∷ b'-' ∷ b'9' ∷ []) (pos 8)
    ≡ err unsatisfiable
unfolding one_digit parse_http_range_header check_range split_dash equal_bytes
long_end = refl
