-- ===== src/Prelude/Int.antt =====
-- Signed machine integers. `negsuc n` is -(n + 1). A Go `int` or `int64` is an integer in
-- [-2 ^ 63, 2 ^ 63); code that has rejected negative values goes on with the number itself.
use Prim.Native.Nat.{ℕ, suc, ◌+◌, ◌-◌, ◌^◌, ◌%◌, ◌≤◌, ◌<◌}
use mathlib.Core.Path.{◌≡◌, refl}
use native.Mathlib.Omega.{arith}
use mathlib.Core.Bool.{Bool, true, false}
use s3_encryption_gateway.Prelude.Tests.{ltb, leb, if◌then◌else◌}

pub data ℤ : Type 0 where
  pos : ℕ → ℤ
  negsuc : ℕ → ℤ

abbrev pub pos_part : ℤ → ℕ
pos_part (pos n) = n
pos_part (negsuc n) = 0

abbrev pub neg_part : ℤ → ℕ
neg_part (pos n) = 0
neg_part (negsuc n) = suc n

-- a - b, as an integer.
abbrev pub sub_ℕ : ℕ → ℕ → ℤ
sub_ℕ a b = if leb b a then pos (a - b) else negsuc (b - a - 1)

abbrev pub ltb_ℤ : ℤ → ℤ → Bool
ltb_ℤ a b = ltb (pos_part a + neg_part b) (pos_part b + neg_part a)

-- math.MaxInt64 (and math.MaxInt on the 64-bit platforms that are modelled).
abbrev pub max_int64 : ℕ
max_int64 = 2 ^ 63 - 1

-- math.MaxUint64
abbrev pub max_uint64 : ℕ
max_uint64 = 2 ^ 64 - 1

-- Arithmetic of `uint64` wraps.
abbrev pub wrap64 : ℕ → ℕ
wrap64 n = n % 2 ^ 64

pub not_negative : (z : ℤ) → ltb_ℤ z (pos 0) ≡ false → (neg_part z ≡ 0) × (z ≡ pos (pos_part z))
not_negative (pos n) h = (refl, refl)
not_negative (negsuc n) h = ground (arith, h)

pub not_below : (a b : ℤ) → neg_part a ≡ 0 → ltb_ℤ a b ≡ false → pos_part b ≤ pos_part a
not_below (pos m) (pos n) s h = ground arith
not_below (pos m) (negsuc n) s h = ground arith
not_below (negsuc m) b s h = ground (arith, s)

pub is_below :
    (a b : ℤ)
    → neg_part a ≡ 0
    → ltb_ℤ a b ≡ true
    → (pos_part a < pos_part b) × (neg_part b ≡ 0) × (b ≡ pos (pos_part b))
is_below (pos m) (pos n) s h = (ground arith, refl, refl)
is_below (pos m) (negsuc n) s h = ground (arith, h)
is_below (negsuc m) b s h = ground (arith, s)
