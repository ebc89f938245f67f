-- ===== src/Stream/Encrypt/Drain.antt =====
-- What a client has once it has read an encrypting reader to the end of the file.
use s3_encryption_gateway.Prelude.{
  ℕ, ◌+◌, ◌<◌, true, false, List, [], ◌∷◌, ◌++◌, none, ◌==◌, Bytes, length, ◌&&◌, ◌≡◌, refl, sym,
  ap, ◌∙◌, ◌⊎◌, inl, inr, arith, Bool-cases, length-append, Option-cases,
}
use mathlib.Core.List.{append-nil}
use s3_encryption_gateway.Stream.Config.{ReaderConfig}
use s3_encryption_gateway.Stream.Format.{Seals}
use s3_encryption_gateway.Stream.Loop.{more, eof, read_loop, is_some}
use mathlib.Core.Path.{subst}
use s3_encryption_gateway.Stream.Loop.Drain.{drain, drain_induction, ArePositive}
use s3_encryption_gateway.Stream.Loop.Laws.{Remaining, read_loop-Remaining, read_loop-Ends}
use s3_encryption_gateway.Stream.Source.{
  Source, read_full, poll, Got, StreamError, read_full-parts, bytes-poll, ReadEnd, failed,
}
use s3_encryption_gateway.Stream.Source
use s3_encryption_gateway.Stream.Encrypt.{
  EncryptReader, encrypt_fill, encrypt_read, encrypt_open, encrypt_outcome, new_encrypt_reader,
  seal_record, at_source_end, take_chunk,
}
use s3_encryption_gateway.Stream.Encrypt.Sound.{Rest, encrypt_step, done-seal_terminal}

module _ (cfg : ReaderConfig) (chunk_pos : 0 < cfg.chunk_size) where
  abbrev pub unread : EncryptReader → ℕ
  unread r = length r.inner.source.bytes

  seal_record_bytes :
      (r : EncryptReader) (text : Bytes) → (seal_record cfg r text).inner.source ≡ r.inner.source
  unfolding seal_record
  seal_record_bytes r text = ground arith

  take_falls :
      (r : EncryptReader) (got : Bytes) (result : ReadEnd)
      → is_some (take_chunk cfg r got result).error ≡ false
      → ((take_chunk cfg r got result).done ≡ true)
        ⊎ ((unread (take_chunk cfg r got result) ≡ unread r) × (0 < length got))
  unfolding take_chunk at_source_end
  take_falls r [] (Source.failed e) fine = absurd (ground arith)
  take_falls r [] _ fine = inl (done-seal_terminal cfg chunk_pos (record r { done = true }))
  take_falls r (b ∷ bs) result fine =
      inr (ap (λ (s : Source). length s.bytes) (seal_record_bytes r (b ∷ bs)), omega arith)

  pub encrypt_falls :
      (r : EncryptReader)
      → r.pending ≡ []
      → r.done ≡ false
      → is_some (encrypt_fill cfg r).error ≡ false
      → ((encrypt_fill cfg r).done ≡ true) ⊎ (unread (encrypt_fill cfg r) < unread r)
  unfolding encrypt_fill
  encrypt_falls r empty going fine =
      let p = poll r.inner.source in
      let got = read_full cfg.chunk_size p.source in
      let parts = read_full-parts cfg.chunk_size p.source in
      let after : EncryptReader = record r { inner = record r.inner { source = got.source } } in
      elim (Bool-cases p.cancelled) [
        | inl c ↦ absurd (ground arith)
        | inr c ↦ rw c (elim (take_falls after got.bytes got.result (rw c at fine)) [
          | inl d ↦ inl d
          | inr (same, some_bytes) ↦ inr (
              omega (
                arith,
                ap (length {A = ℕ}) (parts.splits ∙ bytes-poll r.inner.source),
                length-append got.bytes got.source.bytes,
              ))
        ])
      ]

  module _ (r : EncryptReader) (want : ℕ) where
    abbrev looped : Bytes × EncryptReader
    looped = read_loop (encrypt_fill cfg) (want + length r.inner.source.bytes + 2) r want

    open_Remaining :
        (t : Bytes)
        → is_some (encrypt_open cfg r want).reader.error ≡ false
        → Remaining (Rest cfg chunk_pos) (encrypt_open cfg r want).reader t
        → Remaining (Rest cfg chunk_pos) r ((encrypt_open cfg r want).out ++ t)
    unfolding encrypt_open
    open_Remaining t fine m = elim (Bool-cases (r.done && (length r.pending == 0))) [
      | inl c ↦ simp c (simp c at m)
      | inr c ↦ simp c (
          read_loop-Remaining (encrypt_fill cfg) (Rest cfg chunk_pos) (encrypt_step cfg chunk_pos)
            (want + length r.inner.source.bytes + 2) r want t (simp c at fine) (simp c at m))
    ]

    -- A read that finds no error hands out the next bytes of what was to come.
    pub encrypt_read-Remaining :
        (t : Bytes)
        → is_some (encrypt_read cfg r want).reader.error ≡ false
        → Remaining (Rest cfg chunk_pos) (encrypt_read cfg r want).reader t
        → Remaining (Rest cfg chunk_pos) r ((encrypt_read cfg r want).out ++ t)
    unfolding encrypt_read
    encrypt_read-Remaining t fine m = elim (Option-cases r.error) [
      | inl e ↦ simp e (open_Remaining t (simp e at fine) (simp e at m))
      | inr (x, e) ↦ absurd (ground (arith, e))
    ]

    abbrev IsFinished : EncryptReader → Type 0
    IsFinished q = (is_some q.error ≡ false) × (q.done ≡ true) × (q.pending ≡ [])

    outcome_eof :
        (x : Bytes × EncryptReader)
        → 0 < want
        → (is_some x.1.error ≡ true)
          ⊎ ((length x.0 ≡ want) ⊎ ((x.1.done ≡ true) × (x.1.pending ≡ [])))
        → encrypt_outcome x.1.error x.0 x.1.done ≡ eof
        → IsFinished x.1
    outcome_eof x h (inl b) e = absurd (ground arith)
    outcome_eof x h (inr (inl b)) e = absurd (ground arith)
    outcome_eof x h (inr (inr b)) e = (ground arith, b.0, b.1)

    open_eof :
        0 < want
        → r.error ≡ none
        → (encrypt_open cfg r want).outcome ≡ eof
        → IsFinished (encrypt_open cfg r want).reader
    unfolding encrypt_open
    open_eof h e₀ e = elim (Bool-cases (r.done && (length r.pending == 0))) [
      | inl c ↦ simp c (ground arith, ground arith, ground arith)
      | inr c ↦ simp c (
          outcome_eof looped h
            (read_loop-Ends (encrypt_fill cfg) unread encrypt_falls (λ q p. refl)
              (want + length r.inner.source.bytes + 2) r want (ground arith))
            (simp c at e))
    ]

    -- At the end of the file nothing is left.
    encrypt_read-eof :
        0 < want
        → (encrypt_read cfg r want).outcome ≡ eof
        → IsFinished (encrypt_read cfg r want).reader
    unfolding encrypt_read
    encrypt_read-eof h e = elim (Option-cases r.error) [
      | inl none_yet ↦ simp none_yet (open_eof h none_yet (simp none_yet at e))
      | inr (x, failed_before) ↦ absurd (ground arith)
    ]

    encrypt_read-more :
        (encrypt_read cfg r want).outcome ≡ more
        → is_some (encrypt_read cfg r want).reader.error ≡ false
    unfolding encrypt_read encrypt_open
    encrypt_read-more e = elim (Option-cases r.error) [
      | inl none_yet ↦ elim (Bool-cases (r.done && (length r.pending == 0))) [
        | inl c ↦ absurd (ground arith)
        | inr c ↦ elim (Option-cases looped.1.error) [
          | inl f ↦ ground arith
          | inr (y, f) ↦ absurd (ground arith)
        ]
      ]
      | inr (x, failed_before) ↦ absurd (ground arith)
    ]

  onward :
      (r : EncryptReader) (w : ℕ) (t : Bytes)
      → 0 < w
      → (encrypt_read cfg r w).outcome ≡ more
      → Remaining (Rest cfg chunk_pos) (encrypt_read cfg r w).reader t
      → Remaining (Rest cfg chunk_pos) r ((encrypt_read cfg r w).out ++ t)
  onward r w t h e m = encrypt_read-Remaining r w t (encrypt_read-more r w e) m

  at_eof :
      (r : EncryptReader) (w : ℕ)
      → 0 < w
      → (encrypt_read cfg r w).outcome ≡ eof
      → Remaining (Rest cfg chunk_pos) r (encrypt_read cfg r w).out
  at_eof r w h e =
      let f = encrypt_read-eof r w h e in
      let nothing : Remaining (Rest cfg chunk_pos) (encrypt_read cfg r w).reader [] = record {
        later = [];
        splits = rw (append-nil (encrypt_read cfg r w).reader.pending) (sym f.2);
        at_end = λ d. refl;
        before_end = λ d. absurd (ground arith);
      } in
      subst (Remaining (Rest cfg chunk_pos) r) (append-nil (encrypt_read cfg r w).out)
        (encrypt_read-Remaining r w [] f.0 nothing)

  -- With a positive chunk size and reads of any positive sizes: once the reader reports the end of
  -- the file, what it handed out is the wire format of all the bytes of its source: full records, a
  -- last one that is not empty, and for version 2 the terminal with their counts.
  pub encrypt_drain-Seals :
      (ws : List ℕ) (s : Source)
      → ArePositive ws
      → (drain (encrypt_read cfg) ws (new_encrypt_reader s)).1 ≡ eof
      → Seals cfg 1 0 0 s.bytes (drain (encrypt_read cfg) ws (new_encrypt_reader s)).0
  encrypt_drain-Seals ws s p e =
      let m =
        drain_induction (encrypt_read cfg) (Remaining (Rest cfg chunk_pos)) onward at_eof ws
          (new_encrypt_reader s) p e in
      rw m.splits (m.before_end refl)
