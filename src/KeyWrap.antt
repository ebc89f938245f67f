-- ===== src/KeyWrap.antt =====
-- internal/crypto/keymanager_memory.go: the AES key wrap of RFC 3394. The block cipher is library
-- code and enters as a value. A register of the source is a list of 8 bytes.
pub mod Xor
pub mod Rows
pub mod Inverse
use Prim.Native.Nat.{bit_xor}
use s3_encryption_gateway.Prelude.{
  ℕ, zero, suc, ◌+◌, ◌-◌, ◌*◌, ◌/◌, ◌%◌, ◌<◌, ◌≡◌, Bool, true, false, not, ◌||◌, List, [], ◌∷◌,
  ◌++◌, Option, none, some, ltb, ◌==◌, if◌then◌else◌, Bytes, equal_bytes, length, take, drop,
  replicate, Result, ok, err, ◌>>=◌, ◌>>◌, reject,
}
use s3_encryption_gateway.Aad.Encoding.{big_endian, AreBytes}

-- cipher.Block, for blocks of 16 bytes.
pub record Block : Type 0 where
  pub encrypt : Bytes → Bytes
  pub decrypt : Bytes → Bytes

pub data KeyWrapError : Type 0 where
  invalid_wrapped_key_length invalid_key_size integrity_check_failed : KeyWrapError

-- `n` bytes: those of the text, then zeros.
unfoldable pub zero_extend : ℕ → Bytes → Bytes
zero_extend n text = take n text ++ replicate (n - length text) 0

unfoldable pub pad_key : Bytes → Bytes
pad_key text =
    let padded = zero_extend ((length text + 7) / 8 * 8) text in
    if not (length text % 8 == 0) || ltb (length text) 16
    then (if ltb (length padded) 16 then zero_extend 16 padded else padded)
    else text

-- The registers r[0], …, r[n - 1].
unfoldable pub registers : ℕ → Bytes → List Bytes
registers zero text = []
registers (suc n) text = take 8 text ∷ registers n (drop 8 text)

unfoldable pub join : List Bytes → Bytes
join [] = []
join (r ∷ rs) = r ++ join rs

-- Uint64(a) ^ t, byte by byte.
unfoldable pub xor_bytes : Bytes → Bytes → Bytes
xor_bytes [] ys = []
xor_bytes (x ∷ xs) [] = []
xor_bytes (x ∷ xs) (y ∷ ys) = bit_xor x y ∷ xor_bytes xs ys

-- The inner loop, from the counter `t` on.
unfoldable pub wrap_row : Block → ℕ → Bytes → List Bytes → Bytes × List Bytes
wrap_row c t a [] = (a, [])
wrap_row c t a (r ∷ rs) =
    let buf = c.encrypt (a ++ r) in
    let (a1, rs1) = wrap_row c (t + 1) (xor_bytes (take 8 buf) (big_endian 8 t)) rs in
    (a1, drop 8 buf ∷ rs1)

-- The rounds 0, …, j - 1 of the outer loop.
unfoldable pub wrap_rows : Block → ℕ → ℕ → Bytes → List Bytes → Bytes × List Bytes
wrap_rows c n zero a rs = (a, rs)
wrap_rows c n (suc j) a rs = let (a1, rs1) = wrap_rows c n j a rs in wrap_row c (n * j + 1) a1 rs1

abbrev pub default_iv : Bytes
default_iv = 166 ∷ 166 ∷ 166 ∷ 166 ∷ 166 ∷ 166 ∷ 166 ∷ 166 ∷ []

unfoldable pub wrap_padded : Block → Bytes → Bytes
wrap_padded c text =
    let n = length text / 8 in
    let (a, rs) = wrap_rows c n 6 default_iv (registers n text) in a ++ join rs

wrap_found : Option Block → Bytes → Result KeyWrapError Bytes
wrap_found none text = err invalid_key_size
wrap_found (some c) text = ok (wrap_padded c (pad_key text))

-- `new_cipher` is aes.NewCipher.
unfoldable pub aes_key_wrap : (Bytes → Option Block) → Bytes → Bytes → Result KeyWrapError Bytes
unfolding wrap_found
aes_key_wrap new_cipher kek text = wrap_found (new_cipher kek) text

unfoldable pub unwrap_row : Block → ℕ → Bytes → List Bytes → Bytes × List Bytes
unwrap_row c t a [] = (a, [])
unwrap_row c t a (r ∷ rs) =
    let (a1, rs1) = unwrap_row c (t + 1) a rs in
    let buf = c.decrypt (xor_bytes a1 (big_endian 8 t) ++ r) in (take 8 buf, drop 8 buf ∷ rs1)

-- The rounds j - 1, …, 0.
unfoldable pub unwrap_rows : Block → ℕ → ℕ → Bytes → List Bytes → Bytes × List Bytes
unwrap_rows c n zero a rs = (a, rs)
unwrap_rows c n (suc j) a rs =
    let (a1, rs1) = unwrap_row c (n * j + 1) a rs in unwrap_rows c n j a1 rs1

unfoldable pub unwrap_with : Block → Bytes → Result KeyWrapError Bytes
unwrap_with c sealed =
    let n = length sealed / 8 - 1 in
    let (a, rs) = unwrap_rows c n 6 (take 8 sealed) (registers n (drop 8 sealed)) in
    do reject (not (equal_bytes a default_iv)) integrity_check_failed; ok (join rs)

unwrap_found : Option Block → Bytes → Result KeyWrapError Bytes
unwrap_found none sealed = err invalid_key_size
unwrap_found (some c) sealed = unwrap_with c sealed

unfoldable pub aes_key_unwrap : (Bytes → Option Block) → Bytes → Bytes → Result KeyWrapError Bytes
unfolding unwrap_found
aes_key_unwrap new_cipher kek sealed =
    if ltb (length sealed) 24 || not (length sealed % 8 == 0)
    then err invalid_wrapped_key_length
    else unwrap_found (new_cipher kek) sealed
