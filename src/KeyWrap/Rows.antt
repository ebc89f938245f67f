-- ===== src/KeyWrap/Rows.antt =====
-- One round of the wrap and of the unwrap.
use s3_encryption_gateway.Prelude.{
  ℕ, zero, suc, ◌+◌, ◌*◌, ◌/◌, ◌%◌, ◌≡◌, refl, sym, ◌∙◌, List, [], ◌∷◌, ◌++◌, Bytes, length, take,
  drop, take-append-drop, length-append, length-take, length-drop, take_append, drop_append, arith,
}
use s3_encryption_gateway.Aad.Encoding.{
  big_endian, AreBytes, AreBytes-take, AreBytes-drop, length-big_endian,
}
use s3_encryption_gateway.KeyWrap.{Block, xor_bytes, wrap_row, wrap_rows, unwrap_row, unwrap_rows}
use s3_encryption_gateway.KeyWrap.Xor.{bit_xor_lem}

-- What a block cipher documents: it permutes the blocks of 16 bytes.
pub record IsBlock (c : Block) : Type 0 where
  pub decrypt-encrypt : (b : Bytes) → length b ≡ 16 → AreBytes b → c.decrypt (c.encrypt b) ≡ b
  pub length-encrypt : (b : Bytes) → length b ≡ 16 → length (c.encrypt b) ≡ 16
  pub AreBytes-encrypt : (b : Bytes) → length b ≡ 16 → AreBytes b → AreBytes (c.encrypt b)

abbrev pub IsWord : Bytes → Type 0
IsWord a = (length a ≡ 8) × AreBytes a

abbrev pub AreRegisters : List Bytes → Type 0
AreRegisters [] = Unit
AreRegisters (r ∷ rs) = IsWord r × AreRegisters rs

pub AreBytes-append : (a b : Bytes) → AreBytes a → AreBytes b → AreBytes (a ++ b)
AreBytes-append [] b h k = k
AreBytes-append (x ∷ a) b h k = (h.0, AreBytes-append a b h.1 k)

AreBytes-big_endian : (w x : ℕ) → AreBytes (big_endian w x)
unfolding big_endian
AreBytes-big_endian zero x = tt
AreBytes-big_endian (suc w) x =
    AreBytes-append (big_endian w (x / 256)) (x % 256 ∷ []) (AreBytes-big_endian w (x / 256))
      (ground arith)

xor_bytes_lem :
    (a b : Bytes)
    → AreBytes a
    → AreBytes b
    → length a ≡ length b
    → (xor_bytes (xor_bytes a b) b ≡ a)
      × AreBytes (xor_bytes a b)
      × (length (xor_bytes a b) ≡ length a)
unfolding xor_bytes
xor_bytes_lem [] b h k e = (refl, tt, refl)
xor_bytes_lem (x ∷ a) [] h k e = ground (arith, e)
xor_bytes_lem (x ∷ a) (y ∷ b) h k e =
    let (p, q, r) = xor_bytes_lem a b h.1 k.1 (ground (arith, e)) in
    let (u, v) = bit_xor_lem x y h.0 k.0 in (rw (p, u) refl, (v, q), ground (arith, r))

xor_bytes-IsWord :
    (t : ℕ) (a : Bytes)
    → IsWord a
    → (xor_bytes (xor_bytes a (big_endian 8 t)) (big_endian 8 t) ≡ a)
      × IsWord (xor_bytes a (big_endian 8 t))
xor_bytes-IsWord t a h =
    let (p, q, r) =
      xor_bytes_lem a (big_endian 8 t) h.1 (AreBytes-big_endian 8 t)
        (h.0 ∙ sym (length-big_endian 8 t)) in
    (p, (r ∙ h.0, q))

halves : (b : Bytes) → length b ≡ 16 → AreBytes b → IsWord (take 8 b) × IsWord (drop 8 b)
halves b e h = (
  (ground (arith, length-take 8 b), AreBytes-take 8 b h),
  (ground (arith, length-drop 8 b), AreBytes-drop 8 b h),
)

encrypt-IsWord :
    (c : Block) (a r : Bytes)
    → IsBlock c
    → IsWord a
    → IsWord r
    → (c.decrypt (c.encrypt (a ++ r)) ≡ a ++ r)
      × IsWord (take 8 (c.encrypt (a ++ r)))
      × IsWord (drop 8 (c.encrypt (a ++ r)))
encrypt-IsWord c a r k h i =
    let l : length (a ++ r) ≡ 16 = ground (arith, length-append a r, h, i) in
    let b = AreBytes-append a r h.1 i.1 in
    let (x, y) =
      halves (c.encrypt (a ++ r)) (k.length-encrypt (a ++ r) l) (k.AreBytes-encrypt (a ++ r) l b) in
    (k.decrypt-encrypt (a ++ r) l b, x, y)

wrap_row_lem :
    (c : Block) (t : ℕ) (a : Bytes) (rs : List Bytes)
    → IsBlock c
    → IsWord a
    → AreRegisters rs
    → (unwrap_row c t (wrap_row c t a rs).0 (wrap_row c t a rs).1 ≡ (a, rs))
      × IsWord (wrap_row c t a rs).0
      × AreRegisters (wrap_row c t a rs).1
unfolding wrap_row unwrap_row
wrap_row_lem c t a [] k h i = (refl, h, tt)
wrap_row_lem c t a (r ∷ rs) k h i =
    let buf = c.encrypt (a ++ r) in
    let (d, x, y) = encrypt-IsWord c a r k h i.0 in
    let (u, v) = xor_bytes-IsWord t (take 8 buf) x in
    let (p, q, z) = wrap_row_lem c (t + 1) (xor_bytes (take 8 buf) (big_endian 8 t)) rs k v i.1 in
    (
      rw (p, u, take-append-drop 8 buf, d, take_append 8 a r h.0, drop_append 8 a r h.0) refl,
      q,
      (y, z),
    )

pub wrap_rows_lem :
    (c : Block) (n j : ℕ) (a : Bytes) (rs : List Bytes)
    → IsBlock c
    → IsWord a
    → AreRegisters rs
    → (unwrap_rows c n j (wrap_rows c n j a rs).0 (wrap_rows c n j a rs).1 ≡ (a, rs))
      × IsWord (wrap_rows c n j a rs).0
      × AreRegisters (wrap_rows c n j a rs).1
unfolding wrap_rows unwrap_rows
wrap_rows_lem c n zero a rs k h i = (refl, h, i)
wrap_rows_lem c n (suc j) a rs k h i =
    let (x, y, z) = wrap_rows_lem c n j a rs k h i in
    let (p, q, w) =
      wrap_row_lem c (n * j + 1) (wrap_rows c n j a rs).0 (wrap_rows c n j a rs).1 k y z in
    (rw p x, q, w)
