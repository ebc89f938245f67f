-- ===== src/Stream/Decrypt/Drain.antt =====
-- What a client has once it has read a decrypting reader to the end of the file.
use mathlib.Core.List.{append-nil}
use mathlib.Core.Path.{subst}
use s3_encryption_gateway.Prelude.{
  ℕ, ◌+◌, ◌<◌, true, false, List, [], ◌∷◌, ◌++◌, Option, none, some, ◌==◌, Bytes, length, ◌≡◌, refl,
  sym, ap, ◌∙◌, ◌⊎◌, inl, inr, arith, Bool-cases, length-append, Option-cases,
}
use s3_encryption_gateway.Chunk.{v2}
use s3_encryption_gateway.Stream.Config.{ReaderConfig}
use s3_encryption_gateway.Stream.Format.{Seals}
use s3_encryption_gateway.Stream.Loop.{more, eof, read_loop, is_some}
use s3_encryption_gateway.Stream.Loop.Drain.{drain, drain_induction, ArePositive}
use s3_encryption_gateway.Stream.Loop.Laws.{Remaining, read_loop-Remaining, read_loop-Ends}
use s3_encryption_gateway.Stream.Source.{
  Source, read_full, poll, read_full-parts, bytes-poll, ReadEnd, full, at_end, failed, end_of,
}
use s3_encryption_gateway.Stream.Decrypt.{
  DecryptReader, decrypt_records, decrypt_end, decrypt_fill, fill_v1, fill_v2, after_read,
  set_lookbehind, unit_size, conclude, decrypt_read, decrypt_open, decrypt_outcome,
  new_decrypt_reader,
}
use s3_encryption_gateway.Stream.Decrypt.Records.{
  decrypt_records-Extends, Extends, decrypt_data_inv,
}
use s3_encryption_gateway.Stream.Decrypt.Sound.{AreAeads}
use s3_encryption_gateway.Stream.Decrypt.Step.{Rest, decrypt_step}

module _ (cfg : ReaderConfig) (laws : AreAeads cfg) where
  abbrev pub unread : DecryptReader → ℕ
  unread r = length r.inner.source.bytes

  decrypt_end_done :
      (r : DecryptReader)
      → is_some (decrypt_end cfg r).error ≡ false
      → (decrypt_end cfg r).done ≡ true
  unfolding decrypt_end conclude
  decrypt_end_done r fine = ground arith

  fill_v2_falls :
      (r : DecryptReader) (got : Bytes) (result : ReadEnd)
      → is_some (fill_v2 cfg r got result).error ≡ false
      → ((fill_v2 cfg r got result).done ≡ true)
        ⊎ (((fill_v2 cfg r got result).inner.source ≡ r.inner.source) × (result ≡ full))
  unfolding fill_v2
  fill_v2_falls r got result fine =
      let start : DecryptReader = set_lookbehind (r.inner.lookbehind ++ got) r in
      let q = decrypt_records (length (r.inner.lookbehind ++ got)) cfg start in
      elim (Bool-cases (is_some q.error)) [
        | inl f ↦ absurd (ground arith)
        | inr f ↦ rw f (
            go result (rw f at fine) (
              decrypt_records-Extends cfg laws.data_laws (length (r.inner.lookbehind ++ got)) start
                f))
      ]
    where
      go :
          (x : ReadEnd)
          → let q =
              decrypt_records
                (length (r.inner.lookbehind ++ got))
                cfg
                (set_lookbehind (r.inner.lookbehind ++ got) r) in
            is_some (after_read cfg q x).error ≡ false
            → Extends cfg (set_lookbehind (r.inner.lookbehind ++ got) r) q
            → ((after_read cfg q x).done ≡ true)
              ⊎ (((after_read cfg q x).inner.source ≡ r.inner.source) × (x ≡ full))
      go full fine e = inr (e.source_is, refl)
      go at_end fine e = inl (
          decrypt_end_done
            (decrypt_records (length (r.inner.lookbehind ++ got)) cfg
              (set_lookbehind (r.inner.lookbehind ++ got) r))
            fine)
      go (failed x) fine e = absurd (ground arith)

  fill_v1_falls :
      (r : DecryptReader) (got : Bytes) (result : ReadEnd)
      → is_some (fill_v1 cfg r got result).error ≡ false
      → ((fill_v1 cfg r got result).done ≡ true)
        ⊎ (((fill_v1 cfg r got result).inner.source ≡ r.inner.source) × (0 < length got))
  unfolding fill_v1
  fill_v1_falls r [] (failed e) fine = absurd (ground arith)
  fill_v1_falls r [] _ fine = inl refl
  fill_v1_falls r (b ∷ bs) result fine =
      let (text, i, l, e) = decrypt_data_inv cfg laws.data_laws r (b ∷ bs) fine in
      inr (ap (λ (q : DecryptReader). q.inner.source) e, omega arith)

  pub decrypt_falls :
      (r : DecryptReader)
      → r.pending ≡ []
      → r.done ≡ false
      → is_some (decrypt_fill cfg r).error ≡ false
      → ((decrypt_fill cfg r).done ≡ true) ⊎ (unread (decrypt_fill cfg r) < unread r)
  unfolding decrypt_fill
  decrypt_falls r empty going fine =
      let p = poll r.inner.source in
      let got = read_full (unit_size cfg) p.source in
      let parts = read_full-parts (unit_size cfg) p.source in
      let after : DecryptReader = record r { inner = record r.inner { source = got.source } } in
      let total = ap (length {A = ℕ}) (parts.splits ∙ bytes-poll r.inner.source) in
      elim (Bool-cases p.cancelled) [
        | inl c ↦ absurd (ground arith)
        | inr c ↦ elim (Bool-cases (cfg.version == v2)) [
          | inl v ↦
              rw (c, v)
                (elim (fill_v2_falls after got.bytes got.result (rw (c, v) at fine)) [
                  | inl d ↦ inl d
                  | inr (same, was_full) ↦ inr (elim parts.amount [
                    | inl a ↦
                        rw same
                          (omega (arith, total, length-append got.bytes got.source.bytes, a.0))
                    | inr a ↦ absurd (not_full p.source.fault (sym was_full ∙ a.2))
                  ])
                ])
          | inr v ↦
              rw (c, v)
                (elim (fill_v1_falls after got.bytes got.result (rw (c, v) at fine)) [
                  | inl d ↦ inl d
                  | inr (same, some_bytes) ↦
                      inr (rw same (omega (arith, total, length-append got.bytes got.source.bytes)))
                ])
        ]
      ]
    where
      not_full : (f : Option ℕ) → full ≡ end_of f → ⊥
      not_full none e = cc
      not_full (some x) e = cc

  module _ (r : DecryptReader) (want : ℕ) where
    abbrev looped : Bytes × DecryptReader
    looped = read_loop (decrypt_fill cfg) (want + length r.inner.source.bytes + 2) r want

    abbrev IsFinished : DecryptReader → Type 0
    IsFinished q = (is_some q.error ≡ false) × (q.done ≡ true) × (q.pending ≡ [])

    open_Remaining :
        (t : Bytes)
        → is_some (decrypt_open cfg r want).reader.error ≡ false
        → Remaining (Rest cfg laws) (decrypt_open cfg r want).reader t
        → Remaining (Rest cfg laws) r ((decrypt_open cfg r want).out ++ t)
    unfolding decrypt_open
    open_Remaining t fine m = elim (Bool-cases (want == 0)) [
      | inl c ↦ rw c (rw c at m)
      | inr c ↦ rw c (
          read_loop-Remaining (decrypt_fill cfg) (Rest cfg laws) (decrypt_step cfg laws)
            (want + length r.inner.source.bytes + 2) r want t (rw c at fine) (rw c at m))
    ]

    decrypt_read-Remaining :
        (t : Bytes)
        → is_some (decrypt_read cfg r want).reader.error ≡ false
        → Remaining (Rest cfg laws) (decrypt_read cfg r want).reader t
        → Remaining (Rest cfg laws) r ((decrypt_read cfg r want).out ++ t)
    unfolding decrypt_read
    decrypt_read-Remaining t fine m = elim (Option-cases r.error) [
      | inl e ↦ simp e (open_Remaining t (simp e at fine) (simp e at m))
      | inr (x, e) ↦ absurd (ground (arith, e))
    ]

    outcome_eof :
        (x : Bytes × DecryptReader)
        → 0 < want
        → (is_some x.1.error ≡ true)
          ⊎ ((length x.0 ≡ want) ⊎ ((x.1.done ≡ true) × (x.1.pending ≡ [])))
        → decrypt_outcome x.1.error x.0 ≡ eof
        → IsFinished x.1
    outcome_eof x h (inl b) e = absurd (ground arith)
    outcome_eof x h (inr (inl b)) e = absurd (ground arith)
    outcome_eof x h (inr (inr b)) e = (ground arith, b.0, b.1)

    open_eof :
        0 < want
        → (decrypt_open cfg r want).outcome ≡ eof
        → IsFinished (decrypt_open cfg r want).reader
    unfolding decrypt_open
    open_eof h e = elim (Bool-cases (want == 0)) [
      | inl c ↦ absurd (ground arith)
      | inr c ↦ rw c (
          outcome_eof looped h
            (read_loop-Ends (decrypt_fill cfg) unread decrypt_falls (λ q p. refl)
              (want + length r.inner.source.bytes + 2) r want (ground arith))
            (rw c at e))
    ]

    decrypt_read-eof :
        0 < want
        → (decrypt_read cfg r want).outcome ≡ eof
        → IsFinished (decrypt_read cfg r want).reader
    unfolding decrypt_read
    decrypt_read-eof h e = elim (Option-cases r.error) [
      | inl none_yet ↦ simp none_yet (open_eof h (simp none_yet at e))
      | inr (x, failed_before) ↦ absurd (ground arith)
    ]

    decrypt_read-more :
        0 < want
        → (decrypt_read cfg r want).outcome ≡ more
        → is_some (decrypt_read cfg r want).reader.error ≡ false
    unfolding decrypt_read decrypt_open
    decrypt_read-more h e = elim (Option-cases r.error) [
      | inl none_yet ↦ elim (Bool-cases (want == 0)) [
        | inl c ↦ absurd (ground arith)
        | inr c ↦ elim (Option-cases looped.1.error) [
          | inl f ↦ ground arith
          | inr (y, f) ↦ absurd (ground arith)
        ]
      ]
      | inr (x, failed_before) ↦ absurd (ground arith)
    ]

  at_eof :
      (r : DecryptReader) (w : ℕ)
      → 0 < w
      → (decrypt_read cfg r w).outcome ≡ eof
      → Remaining (Rest cfg laws) r (decrypt_read cfg r w).out
  at_eof r w h e =
      let f = decrypt_read-eof r w h e in
      let nothing : Remaining (Rest cfg laws) (decrypt_read cfg r w).reader [] = record {
        later = [];
        splits = rw (append-nil (decrypt_read cfg r w).reader.pending) (sym f.2);
        at_end = λ d. refl;
        before_end = λ d. absurd (ground arith);
      } in
      subst (Remaining (Rest cfg laws) r) (append-nil (decrypt_read cfg r w).out)
        (decrypt_read-Remaining r w [] f.0 nothing)

  -- With ciphers that keep their documented laws and reads of any positive sizes: once the reader
  -- reports the end of the file, the bytes of its source are the records that seal what it handed
  -- out, in order and each under its own index, and for version 2 the terminal with their counts.
  pub decrypt_drain-Seals :
      (ws : List ℕ) (s : Source)
      → ArePositive ws
      → (drain (decrypt_read cfg) ws (new_decrypt_reader s)).1 ≡ eof
      → Seals cfg 0 0 0 (drain (decrypt_read cfg) ws (new_decrypt_reader s)).0 s.bytes
  decrypt_drain-Seals ws s p e =
      let m =
        drain_induction (decrypt_read cfg) (Remaining (Rest cfg laws))
          (λ r w t h o m. decrypt_read-Remaining r w t (decrypt_read-more r w h o) m) at_eof ws
          (new_decrypt_reader s) p e in
      rw m.splits (m.before_end refl (λ v1. refl))
