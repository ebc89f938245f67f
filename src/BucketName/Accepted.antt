-- ===== src/BucketName/Accepted.antt =====
-- What an accepted name is like, and what the object cache makes of it.
use s3_encryption_gateway.Prelude.{
  ℕ, ◌≤◌, Bool, true, false, ◌&&◌, ◌||◌, [], ◌∷◌, ltb, ◌==◌, Bytes, length, ok, ◌>>◌, reject_passed,
  bind_passed, or_passed, ◌≡◌, ◌≢◌, arith, ltb→le, not_passed,
}
use s3_encryption_gateway.BucketName.{
  bad_length, is_ip_address, invalid_characters, adjacent_dots, dot_hyphen, is_alpha_num,
  is_allowed, check_bytes, check_ends, validate_bucket_name, split_dots, all_numeric,
}
use s3_encryption_gateway.MemoryCache.{cache_key}
use s3_encryption_gateway.MemoryCache.Limits.{IsColonFree, cache_key-injective}

-- Letters, digits, dots and hyphens, and no dot next to a dot or a hyphen.
abbrev pub IsNameFrom : ℕ → Bytes → Type 0
IsNameFrom before [] = Unit
IsNameFrom before (c ∷ cs) =
    (is_allowed c ≡ true)
    × (before ≡ 46 → is_alpha_num c ≡ true)
    × (before ≡ 45 → c ≢ 46)
    × IsNameFrom c cs

after_dot :
    (before c : ℕ)
    → is_allowed c ≡ true
    → before ≡ 46
    → ((before == 46) && (c == 46)) ≡ false
    → (((before == 46) && (c == 45)) || ((before == 45) && (c == 46))) ≡ false
    → is_alpha_num c ≡ true
unfolding is_allowed
after_dot before c a e y z = ground (arith, a, e, y, z)

check_bytes-IsNameFrom :
    (before : ℕ) (cs : Bytes) → check_bytes before cs ≡ ok tt → IsNameFrom before cs
unfolding check_bytes is_allowed is_alpha_num
check_bytes-IsNameFrom before [] h = tt
check_bytes-IsNameFrom before (c ∷ cs) h =
    let x = reject_passed _ invalid_characters _ h in
    let y = reject_passed ((before == 46) && (c == 46)) adjacent_dots _ x.1 in
    let z =
      reject_passed (((before == 46) && (c == 45)) || ((before == 45) && (c == 46))) dot_hyphen
        (check_bytes c cs) y.1 in
    (
      not_passed _ x.0,
      (λ e. after_dot before c (not_passed _ x.0) e y.0 z.0),
      (λ e f. ground (arith, z.0, e, f)),
      check_bytes-IsNameFrom c cs z.1,
    )

IsNameFrom-IsColonFree : (before : ℕ) (cs : Bytes) → IsNameFrom before cs → IsColonFree cs
unfolding is_allowed is_alpha_num
IsNameFrom-IsColonFree before [] h = tt
IsNameFrom-IsColonFree before (c ∷ cs) h = (ground (arith, h.0), IsNameFrom-IsColonFree c cs h.3)

-- A name that is accepted has 3 to 63 bytes, all of them letters, digits, dots or hyphens, and no
-- dot next to a dot or a hyphen.
pub validate_bucket_name-IsNameFrom :
    (is_ip : Bytes → Bool) (name : Bytes)
    → validate_bucket_name is_ip name ≡ ok tt
    → (3 ≤ length name) × (length name ≤ 63) × (is_ip name ≡ false) × IsNameFrom 0 name
unfolding validate_bucket_name
validate_bucket_name-IsNameFrom is_ip name h =
    let a = reject_passed _ bad_length _ h in
    let l = or_passed (ltb (length name) 3) (ltb 63 (length name)) a.0 in
    let b = reject_passed _ is_ip_address _ a.1 in
    let c =
      reject_passed ((length (split_dots name) == 4) && all_numeric (split_dots name)) is_ip_address
        (check_ends name >> check_bytes 0 name) b.1 in
    let d = bind_passed (check_ends name) (λ _. check_bytes 0 name) c.1 in
    (ltb→le _ _ l.0, ltb→le _ _ l.1, b.0, check_bytes-IsNameFrom 0 name d.2)

-- In accepted buckets, two objects have the same cache key only if they are the same object.
pub cache_key-validate_bucket_name :
    (is_ip : Bytes → Bool) (b1 k1 b2 k2 : Bytes)
    → validate_bucket_name is_ip b1 ≡ ok tt
    → validate_bucket_name is_ip b2 ≡ ok tt
    → cache_key b1 k1 ≡ cache_key b2 k2
    → (b1 ≡ b2) × (k1 ≡ k2)
cache_key-validate_bucket_name is_ip b1 k1 b2 k2 h1 h2 e =
    cache_key-injective b1 k1 b2 k2
      (IsNameFrom-IsColonFree 0 b1 (validate_bucket_name-IsNameFrom is_ip b1 h1).3)
      (IsNameFrom-IsColonFree 0 b2 (validate_bucket_name-IsNameFrom is_ip b2 h2).3) e
