-- ===== src/RangeHeader/Bounds.antt =====
-- What an accepted Range header asks for.
use s3_encryption_gateway.Prelude.{
  ℕ, ◌-◌, ◌≤◌, ◌<◌, not, ◌||◌, ◌∷◌, ◌++◌, Option, some, ltb, Bytes, length, take, drop, ok, ◌≡◌,
  sym, ap, ◌∙◌, arith, reject_passed, bind_passed, ℤ, pos, negsuc, pos_part, equal_bytes,
}
use s3_encryption_gateway.RangeHeader.{
  bad_header, bytes_unit, dash, range_spec, suffix_range, parsed, suffix_start, check_range,
  parse_http_range_header,
}

module _ (parse : Bytes → Option ℤ) where
  check_range_inv :
      (total : ℕ) (a b : ℤ) (r : ℤ × ℤ)
      → 0 < total
      → check_range parse (pos total) (a, b) ≡ ok r
      → (r ≡ (a, b))
        × (a ≡ pos (pos_part a))
        × (b ≡ pos (pos_part b))
        × (pos_part a ≤ pos_part b)
        × (pos_part b < total)
  unfolding check_range
  check_range_inv total (pos a) (pos b) r h e = ground (arith, e, h)
  check_range_inv total (pos a) (negsuc b) r h e = absurd (ground (arith, e, h))
  check_range_inv total (negsuc a) b r h e = absurd (ground (arith, e, h))

  -- For an object of `total` bytes, at least one, and whatever way numbers are parsed: the range of
  -- an accepted header is not empty and lies in the object.
  pub parse_http_range_header_bounds :
      (total : ℕ) (header : Bytes) (r : ℤ × ℤ)
      → 0 < total
      → parse_http_range_header parse header (pos total) ≡ ok r
      → (r ≡ (pos (pos_part r.0), pos (pos_part r.1)))
        × (pos_part r.0 ≤ pos_part r.1)
        × (pos_part r.1 < total)
  unfolding parse_http_range_header
  parse_http_range_header_bounds total header r h e =
      let (t, e₁) =
        reject_passed (ltb (length header) 6 || not (equal_bytes (take 6 header) bytes_unit))
          bad_header _ e in
      let (x, p, e₂) =
        bind_passed (range_spec parse (drop 6 header) (pos total)) (check_range parse (pos total))
          e₁ in
      let (same, a, b, le, lt) = check_range_inv total x.0 x.1 r h e₂ in
      (
        same
            ∙ ap (λ z. (z, x.1)) (a ∙ ap (λ z. pos (pos_part z)) (sym (ap (λ y. y.0) same)))
            ∙ ap (λ z. (pos (pos_part r.0), z))
                (b ∙ ap (λ z. pos (pos_part z)) (sym (ap (λ y. y.1) same))),
        rw same le,
        rw same lt,
      )

  -- A header that asks for the last `n` bytes of an object, at least one of at least one, is accepted
  -- and gets them, or the whole object if it is shorter.
  pub parse_http_range_header_suffix :
      (total n : ℕ) (digits : Bytes)
      → 0 < total
      → 0 < n
      → parse digits ≡ some (pos n)
      → parse_http_range_header parse (bytes_unit ++ dash ∷ digits) (pos total)
        ≡ ok (pos (total - n), pos (total - 1))
  unfolding parse_http_range_header range_spec suffix_range parsed suffix_start check_range
      equal_bytes
  parse_http_range_header_suffix total n digits h k e = rw e (ground (arith, h, k))
