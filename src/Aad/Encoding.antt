-- ===== src/Aad/Encoding.antt =====
-- Big-endian encodings (encoding/binary) and their decoding.
use native.Mathlib.Nat.{pow-suc}
use s3_encryption_gateway.Prelude.{
  ℕ, zero, suc, ◌+◌, ◌*◌, ◌/◌, ◌%◌, ◌^◌, ◌<◌, ◌≡◌, refl, ap, sym, ◌∙◌, List, [], ◌∷◌, ◌++◌, Bytes,
  length, take, drop, length-append, arith,
}
use mathlib.Core.List.{append_assoc, append-nil}

-- The lowest `8 * w` bits of `x`, the high byte first.
unfoldable pub big_endian : ℕ → ℕ → Bytes
big_endian zero x = []
big_endian (suc w) x = big_endian w (x / 256) ++ x % 256 ∷ []

from_acc : ℕ → Bytes → ℕ
from_acc acc [] = acc
from_acc acc (b ∷ bs) = from_acc (acc * 256 + b) bs

unfoldable pub from_big_endian : Bytes → ℕ
unfolding from_acc
from_big_endian = from_acc 0

pub length-big_endian : (w x : ℕ) → length (big_endian w x) ≡ w
unfolding big_endian
length-big_endian zero x = refl
length-big_endian (suc w) x =
    omega
      (arith, length-append (big_endian w (x / 256)) (x % 256 ∷ []), length-big_endian w (x / 256))

from_acc-append :
    (acc : ℕ) (xs : Bytes) (b : ℕ) → from_acc acc (xs ++ b ∷ []) ≡ from_acc acc xs * 256 + b
unfolding from_acc
from_acc-append acc [] b = refl
from_acc-append acc (x ∷ xs) b = from_acc-append (acc * 256 + x) xs b

-- Decoding gives the number back, if it fits.
pub from_big_endian-big_endian : (w x : ℕ) → x < 256 ^ w → from_big_endian (big_endian w x) ≡ x
unfolding from_big_endian big_endian
from_big_endian-big_endian zero x h = omega arith
from_big_endian-big_endian (suc w) x h =
    let fits : x / 256 < 256 ^ w = omega (arith, pow-suc 256 w) in
    omega (
      arith,
      from_acc-append 0 (big_endian w (x / 256)) (x % 256),
      from_big_endian-big_endian w (x / 256) fits,
    )

pub big_endian-injective :
    (w x y : ℕ) → x < 256 ^ w → y < 256 ^ w → big_endian w x ≡ big_endian w y → x ≡ y
big_endian-injective w x y hx hy e =
    sym (from_big_endian-big_endian w x hx)
    ∙ ap from_big_endian e
    ∙ from_big_endian-big_endian w y hy

-- Two lists whose first parts are equally long are equal part by part.
pub append_split {ℓ} :
    {A : Type ℓ} (xs ys : List A) {us vs : List A}
    → length xs ≡ length ys
    → xs ++ us ≡ ys ++ vs
    → (xs ≡ ys) × (us ≡ vs)
append_split [] [] h e = (refl, e)
append_split [] (y ∷ ys) h e = absurd (omega arith)
append_split (x ∷ xs) [] h e = absurd (omega arith)
append_split (x ∷ xs) (y ∷ ys) {us} {vs} h e =
    let tails : xs ++ us ≡ ys ++ vs = cc in
    let i = append_split xs ys (omega arith) tails in (cc (i.0), i.1)

-- The elements of a Go `[]byte`.
abbrev pub AreBytes : Bytes → Type 0
AreBytes [] = Unit
AreBytes (b ∷ bs) = (b < 256) × AreBytes bs

big_endian-from_acc :
    (k acc : ℕ) (bs : Bytes) (n : ℕ)
    → AreBytes bs
    → n ≡ k + length bs
    → big_endian n (from_acc acc bs) ≡ big_endian k acc ++ bs
unfolding from_acc
big_endian-from_acc k acc [] n h e =
    let e' : n ≡ k = omega arith in rw (e', append-nil (big_endian k acc))
big_endian-from_acc k acc (b ∷ bs) n h e =
    let high : (acc * 256 + b) / 256 ≡ acc = omega (arith, h.0) in
    let low : (acc * 256 + b) % 256 ≡ b = omega (arith, h.0) in
    rw (big_endian-from_acc (suc k) (acc * 256 + b) bs n h.1 (omega arith))
      (unfold big_endian in rw (high, low) (append_assoc (big_endian k acc) (b ∷ []) bs))

-- Encoding what some bytes stand for gives the bytes back.
pub big_endian-from_big_endian :
    (bs : Bytes) (n : ℕ) → AreBytes bs → n ≡ length bs → big_endian n (from_big_endian bs) ≡ bs
unfolding from_big_endian big_endian
big_endian-from_big_endian bs n h e = big_endian-from_acc 0 0 bs n h (omega arith)

pub AreBytes-take : (n : ℕ) (bs : Bytes) → AreBytes bs → AreBytes (take n bs)
AreBytes-take zero bs h = tt
AreBytes-take (suc n) [] h = tt
AreBytes-take (suc n) (b ∷ bs) h = (h.0, AreBytes-take n bs h.1)

pub AreBytes-drop : (n : ℕ) (bs : Bytes) → AreBytes bs → AreBytes (drop n bs)
AreBytes-drop zero bs h = h
AreBytes-drop (suc n) [] h = tt
AreBytes-drop (suc n) (b ∷ bs) h = AreBytes-drop n bs h.1

pub AreBytes-append : (xs ys : Bytes) → AreBytes xs → AreBytes ys → AreBytes (xs ++ ys)
AreBytes-append [] ys a b = b
AreBytes-append (x ∷ xs) ys a b = (a.0, AreBytes-append xs ys a.1 b)

pub AreBytes-big_endian : (w x : ℕ) → AreBytes (big_endian w x)
unfolding big_endian
AreBytes-big_endian zero x = tt
AreBytes-big_endian (suc w) x =
    AreBytes-append (big_endian w (x / 256)) (x % 256 ∷ []) (AreBytes-big_endian w (x / 256))
      (omega arith, tt)
