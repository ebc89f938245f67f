-- ===== src/Stream/Decrypt/Step.antt =====
-- One filling step of the decrypting reader, for each version of the format.
use mathlib.Core.List.{append-nil, append_assoc}
use s3_encryption_gateway.Prelude.{
  ℕ, ◌+◌, ◌≤◌, ◌<◌, false, [], ◌∷◌, ◌++◌, ◌==◌, Bytes, length, ◌≡◌, refl, sym, ap, ◌∙◌, ◌⊎◌, inl,
  inr, arith, Bool-cases, length-append, ==_iff,
}
use s3_encryption_gateway.Chunk.{v2, tag_size}
use s3_encryption_gateway.Stream.Config.{ReaderConfig}
use s3_encryption_gateway.Stream.Format.{IsRecord, absent, Seals, finish, last, chunk}
use s3_encryption_gateway.Stream.Loop.{is_some}
use s3_encryption_gateway.Stream.Loop.Laws.{Remaining}
use s3_encryption_gateway.Stream.Source.{
  Source, ReadEnd, full, at_end, failed, end_of, read_full, poll, read_full-parts, bytes-poll,
}
use s3_encryption_gateway.Stream.Decrypt.{
  DecryptState, DecryptReader, decrypt_records, decrypt_end, decrypt_fill, fill_v1, fill_v2,
  after_read, set_lookbehind, unit_size,
}
use s3_encryption_gateway.Stream.Decrypt.Records.{
  ahead, Extends, opened, decrypt_data_inv, decrypt_records-Extends, decrypt_records_ends,
}
use s3_encryption_gateway.Stream.Decrypt.Sound.{AreAeads, decrypt_end-Concludes}

module _ (cfg : ReaderConfig) (laws : AreAeads cfg) where
  -- What is still to come. Version 1 holds nothing back.
  abbrev pub Rest : DecryptState → Bytes → Type 0
  Rest s u =
      ((cfg.version ≡ v2 → ⊥) → s.lookbehind ≡ [])
      → Seals cfg 0 s.index s.plain_size u (s.lookbehind ++ s.source.bytes)

  abbrev Amount : Bytes → ReadEnd → Source → Type 0
  Amount got result s =
      ((length got ≡ unit_size cfg) × (result ≡ full))
      ⊎ ((length got < unit_size cfg) × (s.bytes ≡ []) × (result ≡ end_of s.fault))

  records_step :
      (r q : DecryptReader) (got u : Bytes)
      → cfg.version ≡ v2
      → r.pending ≡ []
      → r.done ≡ false
      → Extends cfg (set_lookbehind (r.inner.lookbehind ++ got) r) q
      → Remaining Rest q u
      → Seals cfg 0 r.inner.index r.inner.plain_size u
          (r.inner.lookbehind ++ (got ++ r.inner.source.bytes))
  records_step r q got u v empty going x m =
      let e : u ≡ x.text ++ m.later =
        m.splits ∙ ap (λ p. p ++ m.later) (x.pending_is ∙ ap (λ p. p ++ x.text) empty) in
      rw (e, ← append_assoc r.inner.lookbehind got r.inner.source.bytes)
        (x.before m.later (m.before_end (x.same_done ∙ going) (λ not_v2. absurd (not_v2 v))))

  end_step :
      (r q : DecryptReader) (got u : Bytes)
      → cfg.version ≡ v2
      → r.pending ≡ []
      → r.inner.source.bytes ≡ []
      → length q.inner.lookbehind ≤ 32 + unit_size cfg
      → is_some (decrypt_end cfg q).error ≡ false
      → Extends cfg (set_lookbehind (r.inner.lookbehind ++ got) r) q
      → Remaining Rest (decrypt_end cfg q) u
      → Seals cfg 0 r.inner.index r.inner.plain_size u
          (r.inner.lookbehind ++ (got ++ r.inner.source.bytes))
  end_step r q got u v empty drained small fine x m =
      let c = decrypt_end-Concludes cfg laws q v small fine in
      let e : u ≡ x.text ++ c.text =
        m.splits
        ∙ ap (λ p. (decrypt_end cfg q).pending ++ p) (m.at_end c.is_done)
        ∙ append-nil (decrypt_end cfg q).pending
        ∙ c.pending_is
        ∙ ap (λ p. p ++ c.text) (x.pending_is ∙ ap (λ p. p ++ x.text) empty) in
      let nothing : ahead q ≡ q.inner.lookbehind =
        ap (λ (s : Source). q.inner.lookbehind ++ s.bytes) x.source_is
        ∙ ap (λ b. q.inner.lookbehind ++ b) drained
        ∙ append-nil q.inner.lookbehind in
      rw (e, ← append_assoc r.inner.lookbehind got r.inner.source.bytes)
        (x.before c.text (rw nothing c.sealed))

  fill_v2_step :
      (r : DecryptReader) (got u : Bytes) (result : ReadEnd)
      → cfg.version ≡ v2
      → r.pending ≡ []
      → r.done ≡ false
      → Amount got result r.inner.source
      → is_some (fill_v2 cfg r got result).error ≡ false
      → Remaining Rest (fill_v2 cfg r got result) u
      → Seals cfg 0 r.inner.index r.inner.plain_size u
          (r.inner.lookbehind ++ (got ++ r.inner.source.bytes))
  unfolding fill_v2
  fill_v2_step r got u result v empty going amount fine m =
      let held = r.inner.lookbehind ++ got in
      let start : DecryptReader = set_lookbehind held r in
      let q = decrypt_records (length held) cfg start in
      elim (Bool-cases (is_some q.error)) [
        | inl f ↦ absurd (ground arith)
        | inr f ↦
            go result amount (rw f at fine) (rw f at m) f
              (decrypt_records-Extends cfg laws.data_laws (length held) start f)
              (decrypt_records_ends cfg laws.data_laws (length held) start (omega arith) f)
      ]
    where
      go :
          (result : ReadEnd)
          → Amount got result r.inner.source
          → let q =
              decrypt_records
                (length (r.inner.lookbehind ++ got))
                cfg
                (set_lookbehind (r.inner.lookbehind ++ got) r) in
            is_some (after_read cfg q result).error ≡ false
            → Remaining Rest (after_read cfg q result) u
            → is_some q.error ≡ false
            → Extends cfg (set_lookbehind (r.inner.lookbehind ++ got) r) q
            → length q.inner.lookbehind ≤ 32 + unit_size cfg
            → Seals cfg 0 r.inner.index r.inner.plain_size u
                (r.inner.lookbehind ++ (got ++ r.inner.source.bytes))
      go full amount fine m f x small =
          records_step r
            (decrypt_records (length (r.inner.lookbehind ++ got)) cfg
              (set_lookbehind (r.inner.lookbehind ++ got) r))
            got u v empty going x m
      go at_end (inl a) fine m f x small = absurd (ground arith)
      go at_end (inr a) fine m f x small =
          end_step r
            (decrypt_records (length (r.inner.lookbehind ++ got)) cfg
              (set_lookbehind (r.inner.lookbehind ++ got) r))
            got u v empty a.1 small fine x m
      go (failed e) amount fine m f x small = absurd (ground arith)

  -- Nothing is sealed in no bytes for version 1, since each record has a tag.
  Seals_empty :
      {index size : ℕ} {text sealed : Bytes}
      → sealed ≡ []
      → Seals cfg 0 index size text sealed
      → text ≡ []
  Seals_empty e (finish t) = refl
  Seals_empty e (last {text} piece terminal i _ _ _ splits) = absurd (
      omega (
        arith,
        ap (length {A = ℕ}) (sym splits ∙ e),
        length-append piece terminal,
        ap (length {A = ℕ}) i.sealed_is,
        laws.data_laws.length-seal i.nonce text i.aad,
      ))
  Seals_empty e (chunk part piece text_rest sealed_rest i _ _ _ splits) = absurd (
      omega (
        arith,
        ap (length {A = ℕ}) (sym splits ∙ e),
        length-append piece sealed_rest,
        ap (length {A = ℕ}) i.sealed_is,
        laws.data_laws.length-seal i.nonce part i.aad,
      ))

  fill_v1_step :
      (r : DecryptReader) (got u : Bytes) (result : ReadEnd)
      → (cfg.version ≡ v2 → ⊥)
      → r.inner.lookbehind ≡ []
      → r.pending ≡ []
      → r.done ≡ false
      → Amount got result r.inner.source
      → is_some (fill_v1 cfg r got result).error ≡ false
      → Remaining Rest (fill_v1 cfg r got result) u
      → Seals cfg 0 r.inner.index r.inner.plain_size u (got ++ r.inner.source.bytes)
  unfolding fill_v1
  fill_v1_step r [] u (failed e) v1 held empty going amount fine m = absurd (ground arith)
  fill_v1_step r [] u _ v1 held empty going (inl a) fine m = absurd (omega arith)
  fill_v1_step r [] u _ v1 held empty going (inr a) fine m =
      let e : u ≡ [] =
        m.splits ∙ ap (λ x. r.pending ++ x) (m.at_end refl) ∙ append-nil r.pending ∙ empty in
      rw (e, a.1) (finish (absent v1 refl))
  fill_v1_step r (b ∷ bs) u result v1 held empty going amount fine m =
      let (text, i, l, e) = decrypt_data_inv cfg laws.data_laws r (b ∷ bs) fine in
      go text i l (rw e at m) amount
    where
      go :
          (text : Bytes)
          → IsRecord cfg r.inner.index text (b ∷ bs)
          → length (b ∷ bs) ≡ length text + tag_size
          → Remaining Rest (opened cfg laws.data_laws r text) u
          → Amount (b ∷ bs) result r.inner.source
          → Seals cfg 0 r.inner.index r.inner.plain_size u ((b ∷ bs) ++ r.inner.source.bytes)
      go text i l m (inl a) =
          chunk text (b ∷ bs) m.later r.inner.source.bytes i (omega (arith, a.0))
            (rw held at (m.before_end going (λ _. held))) (rw (m.splits, empty)) refl
      go text i l m (inr a) =
          let nothing : m.later ≡ [] =
            Seals_empty a.1 (rw held at (m.before_end going (λ _. held))) in
          rw (m.splits, empty, nothing, append-nil text)
            (last (b ∷ bs) [] i (omega arith) (omega (arith, a.0)) (absent v1 refl) (rw a.1))

  pub decrypt_step :
      (r : DecryptReader)
      → r.pending ≡ []
      → r.done ≡ false
      → is_some (decrypt_fill cfg r).error ≡ false
      → (u : Bytes) → Remaining Rest (decrypt_fill cfg r) u
      → Rest r.inner u
  unfolding decrypt_fill
  decrypt_step r empty going fine u m held =
      let p = poll r.inner.source in
      let got = read_full (unit_size cfg) p.source in
      let parts = read_full-parts (unit_size cfg) p.source in
      let after : DecryptReader = record r { inner = record r.inner { source = got.source } } in
      let amount : Amount got.bytes got.result got.source = rw parts.same_fault parts.amount in
      elim (Bool-cases p.cancelled) [
        | inl c ↦ absurd (ground arith)
        | inr c ↦
            rw (← bytes-poll r.inner.source, ← parts.splits)
              (elim (Bool-cases (cfg.version == v2)) [
                | inl v ↦
                    fill_v2_step after got.bytes u got.result ((==_iff cfg.version v2).0 v) empty
                      going amount (rw (c, v) at fine) (rw (c, v) at m)
                | inr v ↦
                    let v1 : cfg.version ≡ v2 → ⊥ = λ e. ground arith in
                    rw (held v1) (
                      fill_v1_step after got.bytes u got.result v1 (held v1) empty going amount
                        (rw (c, v) at fine) (rw (c, v) at m))
              ])
      ]
