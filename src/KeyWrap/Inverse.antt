-- ===== src/KeyWrap/Inverse.antt =====
-- Unwrapping undoes wrapping.
use s3_encryption_gateway.Prelude.{
  ℕ, zero, suc, ◌+◌, ◌-◌, ◌*◌, ◌/◌, ◌%◌, ◌≤◌, ◌≡◌, refl, sym, ap, ◌∙◌, false, not, ◌||◌, List, [],
  ◌∷◌, ◌++◌, Option, some, ltb, ◌==◌, Bytes, equal_bytes, length, take, drop, replicate,
  take-append-drop, length-append, length-take, length-drop, take_append, drop_append, take_all,
  length-replicate, ok, arith, Bool-cases, inl, inr,
}
use s3_encryption_gateway.Aad.Encoding.{big_endian, AreBytes, AreBytes-take, AreBytes-drop}
use s3_encryption_gateway.KeyWrap.{
  Block, zero_extend, pad_key, registers, join, xor_bytes, wrap_row, wrap_rows, unwrap_rows,
  default_iv, wrap_padded, unwrap_with, aes_key_wrap, aes_key_unwrap,
}
use s3_encryption_gateway.KeyWrap.Rows.{
  IsBlock, IsWord, AreRegisters, AreBytes-append, wrap_rows_lem,
}

registers_lem :
    (n : ℕ) (text : Bytes)
    → AreBytes text
    → length text ≡ 8 * n
    → AreRegisters (registers n text) × (join (registers n text) ≡ text)
unfolding registers join
registers_lem zero text h e = (tt, take_all 0 text (ground (arith, e)))
registers_lem (suc n) text h e =
    let (x, y) =
      registers_lem n (drop 8 text) (AreBytes-drop 8 text h) (ground (arith, length-drop 8 text)) in
    (
      ((ground (arith, length-take 8 text), AreBytes-take 8 text h), x),
      rw y (take-append-drop 8 text),
    )

registers-join :
    (rs : List Bytes)
    → AreRegisters rs
    → (registers (length rs) (join rs) ≡ rs) × (length (join rs) ≡ 8 * length rs)
unfolding registers join
registers-join [] h = (refl, refl)
registers-join (r ∷ rs) h =
    let (x, y) = registers-join rs h.1 in
    (
      rw (take_append 8 r (join rs) h.0.0, drop_append 8 r (join rs) h.0.0, x) refl,
      ground (arith, length-append r (join rs), h.0.0, y),
    )

length-wrap_row :
    (c : Block) (t : ℕ) (a : Bytes) (rs : List Bytes) → length (wrap_row c t a rs).1 ≡ length rs
unfolding wrap_row
length-wrap_row c t a [] = refl
length-wrap_row c t a (r ∷ rs) =
    ap suc (length-wrap_row c (t + 1) (xor_bytes (take 8 (c.encrypt (a ++ r))) (big_endian 8 t)) rs)

length-wrap_rows :
    (c : Block) (n j : ℕ) (a : Bytes) (rs : List Bytes)
    → length (wrap_rows c n j a rs).1 ≡ length rs
unfolding wrap_rows
length-wrap_rows c n zero a rs = refl
length-wrap_rows c n (suc j) a rs =
    length-wrap_row c (n * j + 1) (wrap_rows c n j a rs).0 (wrap_rows c n j a rs).1
    ∙ length-wrap_rows c n j a rs

length-registers : (n : ℕ) (text : Bytes) → length (registers n text) ≡ n
unfolding registers
length-registers zero text = refl
length-registers (suc n) text = ap suc (length-registers n (drop 8 text))

AreBytes-zeros : (n : ℕ) → AreBytes (replicate n 0)
AreBytes-zeros zero = tt
AreBytes-zeros (suc n) = (ground arith, AreBytes-zeros n)

zero_extend_lem :
    (n : ℕ) (text : Bytes)
    → AreBytes text
    → length text ≤ n
    → (length (zero_extend n text) ≡ n) × AreBytes (zero_extend n text)
unfolding zero_extend
zero_extend_lem n text h l = (
  ground (
    arith,
    length-append (take n text) (replicate (n - length text) 0),
    length-take n text,
    length-replicate {A = ℕ} (n - length text) 0,
  ),
  AreBytes-append (take n text) (replicate (n - length text) 0) (AreBytes-take n text h)
      (AreBytes-zeros (n - length text)),
)

-- A padded key: whole registers, and at least two.
abbrev pub IsPadded : Bytes → Type 0
IsPadded text = (length text % 8 ≡ 0) × (16 ≤ length text) × AreBytes text

pad_key-IsPadded : (text : Bytes) → AreBytes text → IsPadded (pad_key text)
unfolding pad_key
pad_key-IsPadded text h =
    let (l, b) = zero_extend_lem ((length text + 7) / 8 * 8) text h (ground arith) in
    elim (Bool-cases (not (length text % 8 == 0) || ltb (length text) 16)) [
      | inl e ↦
          rw e (elim (Bool-cases (ltb (length (zero_extend ((length text + 7) / 8 * 8) text)) 16)) [
            | inl f ↦
                let (u, v) =
                  zero_extend_lem 16 (zero_extend ((length text + 7) / 8 * 8) text) b
                    (ground (arith, f)) in
                rw f (ground (arith, u), ground (arith, u), v)
            | inr f ↦ rw f (ground (arith, l), ground (arith, f), b)
          ])
      | inr e ↦ rw e (ground (arith, e), ground (arith, e), h)
    ]

-- A key of whole registers, at least two, is not padded.
pub pad_key_of_IsPadded : (text : Bytes) → IsPadded text → pad_key text ≡ text
unfolding pad_key
pad_key_of_IsPadded text h = ground (arith, h)

unwrap_with_lem :
    (c : Block) (n : ℕ) (a : Bytes) (rs qs : List Bytes)
    → IsWord a
    → AreRegisters rs
    → length rs ≡ n
    → unwrap_rows c n 6 a rs ≡ (default_iv, qs)
    → (length (a ++ join rs) ≡ 8 * n + 8) × (unwrap_with c (a ++ join rs) ≡ ok (join qs))
unfolding unwrap_with equal_bytes
unwrap_with_lem c n a rs qs h i l e =
    let (x, y) = registers-join rs i in
    let len : length (a ++ join rs) ≡ 8 * n + 8 =
      ground (arith, length-append a (join rs), h.0, y, l) in
    let m : length (a ++ join rs) / 8 - 1 ≡ n = ground (arith, len) in
    let g : registers n (join rs) ≡ rs = rw (sym l) x in
    (len, rw (m, take_append 8 a (join rs) h.0, drop_append 8 a (join rs) h.0, g, e) refl)

unwrap_wrap_padded :
    (c : Block) (text : Bytes)
    → IsBlock c
    → IsPadded text
    → (length (wrap_padded c text) ≡ length text + 8)
      × (unwrap_with c (wrap_padded c text) ≡ ok text)
unfolding wrap_padded unwrap_with
unwrap_wrap_padded c text k h =
    let n = length text / 8 in
    let (r, j) = registers_lem n text h.2 (ground (arith, h)) in
    let (p, q, w) = wrap_rows_lem c n 6 default_iv (registers n text) k (refl, ground arith) r in
    let l = length-wrap_rows c n 6 default_iv (registers n text) ∙ length-registers n text in
    let (x, y) =
      unwrap_with_lem c n (wrap_rows c n 6 default_iv (registers n text)).0
        (wrap_rows c n 6 default_iv (registers n text)).1 (registers n text) q w l p in
    (ground (arith, x, h), y ∙ ap ok j)

tests_pass : (n : ℕ) → 24 ≤ n → n % 8 ≡ 0 → (ltb n 24 || not (n % 8 == 0)) ≡ false
tests_pass n h e = ground (arith, h, e)

-- What the wrap seals, the unwrap with the same key returns: the key itself when it has whole
-- registers and at least two of them, else the key padded with zeros. Neither reports an error.
pub aes_key_unwrap-wrap :
    (new_cipher : Bytes → Option Block) (kek text : Bytes) (c : Block)
    → new_cipher kek ≡ some c
    → IsBlock c
    → AreBytes text
    → (sealed : Bytes) × (aes_key_wrap new_cipher kek text ≡ ok sealed)
      × (aes_key_unwrap new_cipher kek sealed ≡ ok (pad_key text))
      × (IsPadded text → pad_key text ≡ text)
unfolding aes_key_wrap aes_key_unwrap
aes_key_unwrap-wrap new_cipher kek text c e k h =
    let w = pad_key-IsPadded text h in
    let (x, y) = unwrap_wrap_padded c (pad_key text) k w in
    (
      wrap_padded c (pad_key text),
      rw e refl,
      rw
          (
            tests_pass (length (wrap_padded c (pad_key text))) (ground (arith, x, w))
                (ground (arith, x, w)),
            e,
          )
          y,
      pad_key_of_IsPadded text,
    )
