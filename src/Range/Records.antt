-- ===== src/Range/Records.antt =====
-- The records of a ciphertext from one of them on.
use mathlib.Core.Path.{subst}
use s3_encryption_gateway.Prelude.{
  ℕ, zero, suc, ◌+◌, ◌*◌, ◌≤◌, ◌<◌, true, [], ◌∷◌, leb, Bytes, length, drop, wrap64, max_uint64,
  ◌≡◌, refl, sym, ap, ◌∙◌, inl, inr, arith, length-append, drop_past,
}
use s3_encryption_gateway.Chunk.{v2, tag_size}
use s3_encryption_gateway.Stream.Config.{ReaderConfig}
use s3_encryption_gateway.Stream.Format.{Seals}
use s3_encryption_gateway.Stream.Format.Next.{Seals-cases}
use s3_encryption_gateway.Stream.Format.Amounts.{length-record}
use s3_encryption_gateway.Stream.Decrypt.Sound.{AreAeads}
use s3_encryption_gateway.Stream.Source.{Source, full, read_full}

pub read_nothing : (s : Source) → read_full 0 s ≡ record { bytes = []; result = full; source = s }
unfolding read_full
read_nothing s = let always : leb 0 (length s.bytes) ≡ true = ground arith in rw always refl

times_zero : (s : ℕ) → 0 * s ≡ 0
times_zero s = omega arith

times_suc : (k s : ℕ) → suc k * s ≡ s + k * s
times_suc k s = grind arith

pub add_mul : (m j u : ℕ) → m * u + j * u ≡ (m + j) * u
add_mul m j u = grind arith

pub drop-drop : (m n : ℕ) (xs : Bytes) → drop m (drop n xs) ≡ drop (n + m) xs
drop-drop m zero xs = let e : 0 + m ≡ m = omega arith in ap (λ k. drop k xs) (sym e)
drop-drop m (suc n) [] = drop_nil m ∙ sym (drop_nil (suc n + m))
  where
    drop_nil : (k : ℕ) → drop {A = ℕ} k [] ≡ []
    drop_nil zero = refl
    drop_nil (suc k) = refl
drop-drop m (suc n) (x ∷ xs) =
    let e : suc n + m ≡ suc (n + m) = omega arith in
    drop-drop m n xs ∙ ap (λ k. drop k (x ∷ xs)) (sym e)

module _ (cfg : ReaderConfig) (laws : AreAeads cfg) (v : cfg.version ≡ v2)
    (some_chunk : 0 < cfg.chunk_size) where
  abbrev pub unit : ℕ
  unit = cfg.chunk_size + tag_size

  pub Seals_eq :
      {index index' size size' : ℕ} {text text' sealed sealed' : Bytes}
      → index ≡ index'
      → size ≡ size'
      → text ≡ text'
      → sealed ≡ sealed'
      → Seals cfg 1 index size text sealed
      → Seals cfg 1 index' size' text' sealed'
  Seals_eq {index' = index'} {size = size} {size' = size'} {text = text} {text' = text'}
        {sealed = sealed} i s t c x =
      subst (λ y. Seals cfg 1 index' size' text' y) c
        (subst (λ y. Seals cfg 1 index' size' y sealed) t
          (subst (λ y. Seals cfg 1 index' y text sealed) s
            (subst (λ y. Seals cfg 1 y size text sealed) i x)))

  -- The records from the `k`th on, as long as there is one.
  pub later_records :
      (k index size : ℕ) (text sealed : Bytes)
      → Seals cfg 1 index size text sealed
      → k * cfg.chunk_size < length text
      → index + length text ≤ max_uint64
      → Seals cfg 1
          (index + k)
          (size + k * cfg.chunk_size)
          (drop (k * cfg.chunk_size) text)
          (drop (k * unit) sealed)
  later_records zero index size text sealed s h b =
      let z = times_zero cfg.chunk_size in
      Seals_eq (omega arith) (omega (arith, z)) (ap (λ k. drop k text) (sym z))
        (ap (λ k. drop k sealed) (sym (times_zero unit))) s
  later_records (suc k) index size text sealed s h b = elim (Seals-cases cfg some_chunk s) [
    | inl x ↦ absurd (omega (arith, h, ap (length {A = ℕ}) x.0))
    | inr n ↦
        let c = times_suc k cfg.chunk_size in
        let u = times_suc k unit in
        let l = ap (length {A = ℕ}) n.text_is ∙ length-append n.part n.text_rest in
        let p = length-record cfg laws.data_laws laws.terminal_laws v some_chunk n.is_record in
        let is_full : length n.part ≡ cfg.chunk_size = elim n.fills [
          | inl e ↦ e
          | inr e ↦ absurd (omega (arith, h, c, l, n.at_most, ap (length {A = ℕ}) e))
        ] in
        let no_wrap : wrap64 (index + 1) ≡ index + 1 = omega (arith, b, l, n.some_text) in
        let next_bound : wrap64 (index + 1) + length n.text_rest ≤ max_uint64 =
          omega (arith, no_wrap, b, l, n.some_text) in
        Seals_eq (omega (arith, no_wrap)) (omega (arith, is_full, c))
          (sym (
            ap (drop (suc k * cfg.chunk_size)) n.text_is
            ∙ drop_past (suc k * cfg.chunk_size) (k * cfg.chunk_size) n.part n.text_rest
                (omega (arith, c, is_full))))
          (sym (
            ap (drop (suc k * unit)) n.sealed_is
            ∙ drop_past (suc k * unit) (k * unit) n.piece n.sealed_rest
                (omega (arith, u, p, is_full))))
          (later_records k (wrap64 (index + 1)) (size + length n.part) n.text_rest n.sealed_rest
            n.goes_on (omega (arith, h, c, l, is_full)) next_bound)
  ]
