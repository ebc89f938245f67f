-- ===== src/KeyWrap/Xor.antt =====
-- Exclusive or of bytes.
use Prim.Native.Nat.{bit_xor}
use s3_encryption_gateway.Prelude.{
  ℕ, zero, suc, ◌<◌, ◌≡◌, refl, Bool, true, ltb, ◌==◌, ◌&&◌, Bool-cases, inl, inr, and_passed, ==→≡,
  ltb→lt, arith,
}

-- Both laws, at one pair.
is_good : ℕ → ℕ → Bool
is_good a b = (bit_xor (bit_xor a b) b == a) && ltb (bit_xor a b) 256

row : ℕ → ℕ → Bool
row a zero = true
row a (suc n) = is_good a n && row a n

rows : ℕ → ℕ → Bool
rows zero m = true
rows (suc n) m = row n m && rows n m

rows_lem : rows 256 256 ≡ true
unfolding rows row is_good
rows_lem = refl

row_lem : (a n m : ℕ) → m < n → row a n ≡ true → is_good a m ≡ true
unfolding row
row_lem a zero m h e = ground (arith, h)
row_lem a (suc n) m h e = elim (Bool-cases (m == n)) [
  | inl x ↦ rw (==→≡ m n x) (and_passed _ _ e).0
  | inr x ↦ row_lem a n m (ground (arith, h, x)) (and_passed _ _ e).1
]

rows_all : (n k a m : ℕ) → a < n → m < k → rows n k ≡ true → is_good a m ≡ true
unfolding rows
rows_all zero k a m h l e = ground (arith, h)
rows_all (suc n) k a m h l e = elim (Bool-cases (a == n)) [
  | inl x ↦ rw (==→≡ a n x) (row_lem n k m l (and_passed _ _ e).0)
  | inr x ↦ rows_all n k a m (ground (arith, h, x)) l (and_passed _ _ e).1
]

-- For bytes, exclusive or is its own inverse and gives a byte.
pub bit_xor_lem :
    (a b : ℕ) → a < 256 → b < 256 → (bit_xor (bit_xor a b) b ≡ a) × (bit_xor a b < 256)
unfolding is_good
bit_xor_lem a b ha hb =
    let (x, y) = and_passed _ _ (rows_all 256 256 a b ha hb rows_lem) in (==→≡ _ _ x, ltb→lt _ _ y)
