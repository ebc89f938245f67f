-- ===== src/Stream/Encrypt/Sound.antt =====
-- What a reader hands out until the end of the file is the canonical ciphertext of its source.
use mathlib.Core.List.{append-nil}
use s3_encryption_gateway.Prelude.{
  ℕ, ◌+◌, ◌<◌, true, false, [], ◌∷◌, ◌++◌, ◌==◌, Bytes, length, wrap64, ◌≡◌, refl, sym, ap, ◌∙◌,
  ◌⊎◌, inl, inr, arith, Bool-cases, Option-cases, Result-cases, length-append, ==_iff,
}
use s3_encryption_gateway.Chunk.{v2}
use s3_encryption_gateway.Stream.Config.{ReaderConfig, record_params, terminal_params}
use s3_encryption_gateway.Stream.Format.{
  IsRecord, IsTerminal, absent, present, Seals, finish, last, chunk,
}
use s3_encryption_gateway.Stream.Loop.{is_some}
use s3_encryption_gateway.Stream.Loop.Laws.{Remaining}
use s3_encryption_gateway.Stream.Source.{
  read_full, poll, ReadEnd, full, at_end, failed, end_of, read_full-parts, bytes-poll,
}
use s3_encryption_gateway.Stream.Encrypt.{
  EncryptState, EncryptReader, seal_record, seal_terminal, encrypt_fill, take_chunk, at_source_end,
}

module _ (cfg : ReaderConfig) (chunk_pos : 0 < cfg.chunk_size) where
  -- What is still to come from a state in which nothing is pending.
  abbrev pub Rest : EncryptState → Bytes → Type 0
  Rest s u = Seals cfg 1 s.index s.plain_size s.source.bytes u

  Seals_nil :
      {index size : ℕ} {text sealed : Bytes}
      → text ≡ []
      → Seals cfg 1 index size text sealed
      → IsTerminal cfg index size sealed
  Seals_nil e (finish t) = t
  Seals_nil e (last piece terminal _ some_text _ _ _) =
      absurd (omega (arith, ap (length {A = ℕ}) e))
  Seals_nil e (chunk part piece text_rest sealed_rest _ l _ splits _) =
      absurd (omega (arith, ap (length {A = ℕ}) (sym splits ∙ e), length-append part text_rest))

  abbrev counted : EncryptReader → ℕ → Bytes → EncryptReader
  counted r n piece = record r {
    pending = piece;
    inner = record r.inner {
      plain_size = r.inner.plain_size + n;
      index = wrap64 (r.inner.index + 1);
      chunk_count = wrap64 (r.inner.index + 1);
    };
  }

  seal_record_inv :
      (r : EncryptReader) (text : Bytes)
      → is_some (seal_record cfg r text).error ≡ false
      → (piece : Bytes) × IsRecord cfg r.inner.index text piece
        × (seal_record cfg r text ≡ counted r (length text) piece)
  unfolding seal_record
  seal_record_inv r text h = elim (Result-cases (record_params cfg r.inner.index)) [
    | inl ((nonce, aad), e) ↦ (
      cfg.aead.seal nonce text aad,
      record { nonce = nonce; aad = aad; params = e; sealed_is = refl },
      ground (arith, e),
    )
    | inr (x, e) ↦ absurd (ground (arith, e))
  ]

  seal_terminal-IsTerminal :
      (r : EncryptReader)
      → r.pending ≡ []
      → is_some (seal_terminal cfg r).error ≡ false
      → IsTerminal cfg r.inner.index r.inner.plain_size (seal_terminal cfg r).pending
  unfolding seal_terminal
  seal_terminal-IsTerminal r empty h = elim (Bool-cases (cfg.version == v2)) [
    | inl v ↦ elim (Option-cases cfg.terminal_aead) [
      | inl ea ↦ absurd (ground arith)
      | inr (a, ea) ↦ elim (Result-cases (terminal_params cfg r.inner.index r.inner.plain_size)) [
        | inl ((nonce, aad), e) ↦
            present a nonce aad ((==_iff cfg.version v2).0 v) ea e (ground arith)
        | inr (x, e) ↦ absurd (ground arith)
      ]
    ]
    | inr v ↦ absent (λ e. ground arith) (ground arith)
  ]

  pub done-seal_terminal : (r : EncryptReader) → (seal_terminal cfg r).done ≡ r.done
  unfolding seal_terminal
  done-seal_terminal r = ground arith

  -- One record taken from the source.
  record_step :
      (r : EncryptReader) (text left u : Bytes)
      → r.inner.source.bytes ≡ left
      → r.done ≡ false
      → 0 < length text
      → (length text ≡ cfg.chunk_size) ⊎ ((length text < cfg.chunk_size) × (left ≡ []))
      → is_some (seal_record cfg r text).error ≡ false
      → Remaining Rest (seal_record cfg r text) u
      → Seals cfg 1 r.inner.index r.inner.plain_size (text ++ left) u
  record_step r text left u from going some_text size fine m =
      let (piece, is_rec, e) = seal_record_inv r text fine in go piece is_rec (rw e at m) size
    where
      go :
          (piece : Bytes)
          → IsRecord cfg r.inner.index text piece
          → Remaining Rest (counted r (length text) piece) u
          → (length text ≡ cfg.chunk_size) ⊎ ((length text < cfg.chunk_size) × (left ≡ []))
          → Seals cfg 1 r.inner.index r.inner.plain_size (text ++ left) u
      go piece i m (inl l) =
          chunk text piece left m.later i l (rw from at (m.before_end going)) refl m.splits
      go piece i m (inr (l, none_left)) =
          rw (none_left, append-nil text)
            (last piece m.later i some_text (omega arith)
              (Seals_nil (from ∙ none_left) (m.before_end going)) m.splits)

  end_step :
      (r : EncryptReader) (u : Bytes)
      → r.pending ≡ []
      → r.inner.source.bytes ≡ []
      → is_some (at_source_end cfg r at_end).error ≡ false
      → Remaining Rest (at_source_end cfg r at_end) u
      → Seals cfg 1 r.inner.index r.inner.plain_size [] u
  unfolding at_source_end
  end_step r u empty from fine m =
      let t : EncryptReader = record r { done = true } in
      let e : u ≡ (seal_terminal cfg t).pending =
        m.splits
        ∙ ap (λ x. (seal_terminal cfg t).pending ++ x) (m.at_end (done-seal_terminal t))
        ∙ append-nil (seal_terminal cfg t).pending in
      finish (rw e (seal_terminal-IsTerminal t empty fine))

  take_step :
      (r : EncryptReader) (got u : Bytes) (result : ReadEnd)
      → r.pending ≡ []
      → r.done ≡ false
      → ((length got ≡ cfg.chunk_size) × (result ≡ full))
        ⊎ ((length got < cfg.chunk_size)
            × (r.inner.source.bytes ≡ [])
            × (result ≡ end_of r.inner.source.fault))
      → is_some (take_chunk cfg r got result).error ≡ false
      → Remaining Rest (take_chunk cfg r got result) u
      → Seals cfg 1 r.inner.index r.inner.plain_size (got ++ r.inner.source.bytes) u
  unfolding take_chunk
  take_step r [] u (failed e) empty going size fine m = absurd (ground arith)
  take_step r [] u _ empty going (inl l) fine m = absurd (omega arith)
  take_step r [] u _ empty going (inr l) fine m = rw l.1 (end_step r u empty l.1 fine m)
  take_step r (b ∷ bs) u result empty going (inl l) fine m =
      record_step r (b ∷ bs) r.inner.source.bytes u refl going (omega arith) (inl l.0) fine m
  take_step r (b ∷ bs) u result empty going (inr l) fine m =
      record_step r (b ∷ bs) r.inner.source.bytes u refl going (omega arith) (inr (l.0, l.1)) fine m

  pub encrypt_step :
      (r : EncryptReader)
      → r.pending ≡ []
      → r.done ≡ false
      → is_some (encrypt_fill cfg r).error ≡ false
      → (u : Bytes) → Remaining Rest (encrypt_fill cfg r) u
      → Rest r.inner u
  unfolding encrypt_fill
  encrypt_step r empty going fine u m =
      let p = poll r.inner.source in
      let got = read_full cfg.chunk_size p.source in
      let parts = read_full-parts cfg.chunk_size p.source in
      elim (Bool-cases p.cancelled) [
        | inl c ↦ absurd (ground arith)
        | inr c ↦
            rw (← bytes-poll r.inner.source, ← parts.splits)
              (take_step (record r { inner = record r.inner { source = got.source } }) got.bytes u
                got.result empty going (rw parts.same_fault parts.amount) (rw c at fine)
                (rw c at m))
      ]
