-- ===== src/Part/Stored.antt =====
-- What a client has of an encrypting reader of a part, and what decrypting runs of it returns.
use s3_encryption_gateway.Prelude.{
  ℕ, ◌-◌, ◌<◌, true, false, not, ◌&&◌, [], ◌∷◌, ◌++◌, Option, none, some, ltb, leb, ◌==◌, min,
  Bytes, length, Result, ok, err, ◌≡◌, refl, sym, ap, ◌∙◌, ◌⊎◌, inl, inr, arith, Bool-cases,
  length-append,
}
use s3_encryption_gateway.Aad.{AadError}
use s3_encryption_gateway.Manifest.{max_int32}
use s3_encryption_gateway.Stream.Source.{
  Source, ReadEnd, full, at_end, failed, read_full, read_full-parts,
}
use s3_encryption_gateway.Stream.Source
use s3_encryption_gateway.Stream.Loop.{is_some}
use s3_encryption_gateway.Stream.Loop.Total.{Owes, Leaves}
use s3_encryption_gateway.Part.{
  PartConfig, PartReader, seal_chunk, take_text, extra_byte, part_fill, mark_eof, chunk_aad,
}
use s3_encryption_gateway.Part.Sealed.{Ready}

module _ (cfg : PartConfig) where
  keeps_seal_chunk :
      (r : PartReader) (text : Bytes) (x : Result AadError Bytes)
      → ((seal_chunk cfg r text x).inner.at_eof ≡ r.inner.at_eof)
        × ((seal_chunk cfg r text x).inner.source ≡ r.inner.source)
  unfolding seal_chunk
  keeps_seal_chunk r text (ok aad) = (refl, refl)
  keeps_seal_chunk r text (err e) = (refl, refl)

  keeps_take_text :
      (r : PartReader) (text : Bytes) (x : ReadEnd)
      → ((take_text cfg r text x).inner.at_eof ≡ r.inner.at_eof)
        × ((take_text cfg r text x).inner.source ≡ r.inner.source)
  unfolding take_text
  keeps_take_text r text full =
      keeps_seal_chunk
        (record r { inner = record r.inner { remaining = r.inner.remaining - length text } }) text
        (chunk_aad cfg r.inner.chunk_idx)
  keeps_take_text r text at_end = (refl, refl)
  keeps_take_text r text (failed e) = (refl, refl)

  extra_byte_cases :
      (r : PartReader) (got : Bytes) (x : ReadEnd)
      → ((extra_byte r got x).inner.at_eof ≡ r.inner.at_eof)
        × (is_some (extra_byte r got x).error ≡ false → (extra_byte r got x).done ≡ true)
  unfolding extra_byte
  extra_byte_cases r [] full = (refl, λ e. absurd (ground arith))
  extra_byte_cases r [] at_end = (refl, λ e. refl)
  extra_byte_cases r [] (failed x) = (refl, λ e. absurd (ground arith))
  extra_byte_cases r (b ∷ bs) x = (refl, λ e. absurd (ground arith))

  pub part_fill_keeps : (r : PartReader) → (part_fill cfg r).inner.at_eof ≡ r.inner.at_eof
  unfolding part_fill
  part_fill_keeps r =
      let extra = read_full 1 r.inner.source in
      let got = read_full (min cfg.chunk_size r.inner.remaining) r.inner.source in
      elim (Bool-cases (r.inner.remaining == 0)) [
        | inl z ↦
            rw z
              (extra_byte_cases (record r { inner = record r.inner { source = extra.source } })
                extra.bytes extra.result).0
        | inr z ↦ elim (Bool-cases (leb max_int32 r.inner.chunk_idx)) [
          | inl o ↦ rw (z, o) refl
          | inr o ↦
              rw (z, o)
                (keeps_take_text (record r { inner = record r.inner { source = got.source } })
                  got.bytes got.result).0
        ]
      ]

  pub take_text_full :
      (r : PartReader) (text : Bytes) (x : ReadEnd)
      → is_some (take_text cfg r text x).error ≡ false
      → x ≡ full
  unfolding take_text
  take_text_full r text full e = refl
  take_text_full r text at_end e = absurd (ground arith)
  take_text_full r text (failed x) e = absurd (ground arith)

  abbrev pub unread : PartReader → ℕ
  unread r = length r.inner.source.bytes

  module _ (some_size : 0 < cfg.chunk_size) where
    pub part_falls :
        (r : PartReader)
        → r.pending ≡ []
        → r.done ≡ false
        → is_some (part_fill cfg r).error ≡ false
        → ((part_fill cfg r).done ≡ true) ⊎ (unread (part_fill cfg r) < unread r)
    unfolding part_fill
    part_falls r empty going fine =
        let extra = read_full 1 r.inner.source in
        let size = min cfg.chunk_size r.inner.remaining in
        let got = read_full size r.inner.source in
        let parts = read_full-parts size r.inner.source in
        let after : PartReader = record r { inner = record r.inner { source = got.source } } in
        elim (Bool-cases (r.inner.remaining == 0)) [
          | inl z ↦ inl (
              rw z (
                (extra_byte_cases (record r { inner = record r.inner { source = extra.source } })
                    extra.bytes extra.result).1
                  (rw z at fine)))
          | inr z ↦ elim (Bool-cases (leb max_int32 r.inner.chunk_idx)) [
            | inl o ↦ absurd (ground arith)
            | inr o ↦
                let w = take_text_full after got.bytes got.result (rw (z, o) at fine) in
                let amount : length got.bytes ≡ size = elim parts.amount [
                  | inl a ↦ a.0
                  | inr a ↦ absurd (not_full r.inner.source.fault (sym w ∙ a.2))
                ] in
                let same =
                  ap (λ (s : Source). length s.bytes)
                    (keeps_take_text after got.bytes got.result).1 in
                inr (
                  rw (z, o)
                    (ground (
                      arith,
                      same,
                      amount,
                      ap (length {A = ℕ}) parts.splits,
                      length-append got.bytes got.source.bytes,
                    )))
          ]
        ]
      where
        not_full : (f : Option ℕ) → full ≡ Source.end_of f → ⊥
        not_full none e = cc
        not_full (some x) e = cc

    -- What a reader owes; one that has reported the end of the file owes nothing.
    abbrev pub Kept : PartReader → Bytes → Type 0
    Kept r t = Owes (Ready cfg) r t × (r.inner.at_eof ≡ true → t ≡ [])

    pub marked :
        (x : PartReader) (want : ℕ) (out t : Bytes)
        → Leaves (Ready cfg) t out x
        → x.inner.at_eof ≡ false
        → ((length out ≡ want) ⊎ ((x.done ≡ true) × (x.pending ≡ [])))
        → (rest : Bytes) × (t ≡ out ++ rest) × Kept (mark_eof want out x) rest
    unfolding mark_eof
    marked x want out t l a way =
        elim (Bool-cases (ltb (length out) want && not (is_some x.error))) [
          | inl c ↦
              let rest_nil : l.rest ≡ [] = elim way [
                | inl e ↦ absurd (ground (arith, e))
                | inr (d, p) ↦ l.owes.splits ∙ rw (p, l.owes.at_end d) refl
              ] in
              (
                l.rest,
                l.adds_up,
                rw c (
                  record {
                    fine = l.owes.fine;
                    later = l.owes.later;
                    splits = l.owes.splits;
                    at_end = l.owes.at_end;
                    before_end = λ d.
                        let w = l.owes.before_end d in
                        record { no_fault = w.no_fault; exact = w.exact; seals = w.seals };
                  },
                  λ e. rest_nil,
                ),
              )
          | inr c ↦ (l.rest, l.adds_up, rw c (l.owes, λ e. absurd (ground (arith, a, e))))
        ]
