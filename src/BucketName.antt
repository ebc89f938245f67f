-- ===== src/BucketName.antt =====
-- internal/api/bucket_name.go: which bucket names the gateway accepts. A name is its bytes: a rune
-- past ASCII, or bytes that are no rune, is refused at its first byte, which is 128 or more.
pub mod Accepted
use s3_encryption_gateway.Prelude.{
  ℕ, Bool, true, false, not, ◌&&◌, ◌||◌, List, [], ◌∷◌, Option, none, some, ltb, leb, ◌==◌,
  if◌then◌else◌, Bytes, length, get_elem?, ◌-◌, Result, ok, err, ◌>>=◌, ◌>>◌, reject,
}

pub data NameError : Type 0 where
  bad_length is_ip_address bad_ends invalid_characters adjacent_dots dot_hyphen : NameError

add_to_first : ℕ → List Bytes → List Bytes
add_to_first c [] = (c ∷ []) ∷ []
add_to_first c (p ∷ ps) = (c ∷ p) ∷ ps

-- strings.Split(name, ".")
unfoldable pub split_dots : Bytes → List Bytes
unfolding add_to_first
split_dots [] = [] ∷ []
split_dots (c ∷ cs) = if c == 46 then [] ∷ split_dots cs else add_to_first c (split_dots cs)

unfoldable pub is_digits : Bytes → Bool
is_digits [] = true
is_digits (c ∷ cs) = (leb 48 c && leb c 57) && is_digits cs

unfoldable pub all_numeric : List Bytes → Bool
all_numeric [] = true
all_numeric ([] ∷ ps) = false
all_numeric ((c ∷ cs) ∷ ps) = is_digits (c ∷ cs) && all_numeric ps

unfoldable pub is_alpha_num : ℕ → Bool
is_alpha_num c = (leb 97 c && leb c 122) || (leb 48 c && leb c 57)

-- The last byte of `c ∷ cs`.
unfoldable pub last_byte : ℕ → Bytes → ℕ
last_byte c [] = c
last_byte c (d ∷ ds) = last_byte d ds

unfoldable pub is_allowed : ℕ → Bool
is_allowed c = is_alpha_num c || ((c == 46) || (c == 45))

-- The byte before, with 0 before the first.
unfoldable pub check_bytes : ℕ → Bytes → Result NameError (Unit {0})
check_bytes before [] = ok tt
check_bytes before (c ∷ cs) = do
  reject (not (is_allowed c)) invalid_characters
  reject ((before == 46) && (c == 46)) adjacent_dots
  reject (((before == 46) && (c == 45)) || ((before == 45) && (c == 46))) dot_hyphen
  check_bytes c cs

unfoldable pub check_ends : Bytes → Result NameError (Unit {0})
check_ends [] = ok tt
check_ends (c ∷ cs) = reject (not (is_alpha_num c) || not (is_alpha_num (last_byte c cs))) bad_ends

-- `is_ip` is net.ParseIP with an answer.
unfoldable pub validate_bucket_name : (Bytes → Bool) → Bytes → Result NameError (Unit {0})
unfolding check_ends
validate_bucket_name is_ip name = do
  reject (ltb (length name) 3 || ltb 63 (length name)) bad_length
  reject (is_ip name) is_ip_address
  reject ((length (split_dots name) == 4) && all_numeric (split_dots name)) is_ip_address
  check_ends name
  check_bytes 0 name
