-- ===== src/Part/Identity.antt =====
-- internal/crypto/mpu_encrypter.go: what tells the chunks of bound parts apart.
use s3_encryption_gateway.Prelude.{ℕ, ◌^◌, ◌<◌, true, List, [], ◌∷◌, Bytes, ok, ◌≡◌, ap, arith}
use s3_encryption_gateway.Aad.{mpu_v2_chunk}
use s3_encryption_gateway.Aad.Injective.{build_object_aad-injective}
use s3_encryption_gateway.Part.{PartConfig, chunk_aad}

-- The additional data of a chunk of a bound part are those of no other chunk: two chunks with the same
-- data belong to the same object and upload binding, and are the same chunk of the same part. Part
-- numbers and chunk indices are below 2^32.
pub chunk_aad-identity :
    (p q : PartConfig) (i j : ℕ) (aad : Bytes)
    → p.is_bound ≡ true
    → q.is_bound ≡ true
    → p.part_number < 2 ^ 32
    → q.part_number < 2 ^ 32
    → i < 2 ^ 32
    → j < 2 ^ 32
    → chunk_aad p i ≡ ok aad
    → chunk_aad q j ≡ ok aad
    → (p.object ≡ q.object)
      × (p.binding_id ≡ q.binding_id)
      × (p.part_number ≡ q.part_number)
      × (i ≡ j)
unfolding chunk_aad
chunk_aad-identity p q i j aad bp bq pp qq ii jj e f =
    let (d, o, b, same) =
      build_object_aad-injective mpu_v2_chunk mpu_v2_chunk p.object q.object p.binding_id
        q.binding_id (p.part_number ∷ i ∷ []) (q.part_number ∷ j ∷ []) aad
        (omega (arith, pp), (omega (arith, ii), tt)) (omega (arith, qq), (omega (arith, jj), tt))
        (rw bp at e) (rw bq at f) in
    (o, b, ap (λ l. first l) same, ap (λ l. first (rest l)) same)
  where
    first : List ℕ → ℕ
    first [] = 0
    first (x ∷ xs) = x

    rest : List ℕ → List ℕ
    rest [] = []
    rest (x ∷ xs) = xs
