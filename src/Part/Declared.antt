-- ===== src/Part/Declared.antt =====
-- An encrypting reader of a part that comes to the end of the file: its source had exactly the
-- declared number of bytes.
use mathlib.Core.List.{append-nil}
use mathlib.Core.Path.{subst}
use s3_encryption_gateway.Prelude.{
  ℕ, ◌+◌, ◌-◌, ◌<◌, true, false, not, ◌&&◌, List, [], ◌∷◌, ◌++◌, Option, none, some, ltb, leb, ◌==◌,
  min, Bytes, length, Result, ok, err, ◌≡◌, refl, sym, ap, ◌∙◌, ◌⊎◌, inl, inr, arith, Bool-cases,
  Option-cases, length-append, and_passed,
}
use s3_encryption_gateway.Aad.{AadError}
use s3_encryption_gateway.Manifest.{max_int32}
use s3_encryption_gateway.Stream.Source.{
  Source, ReadEnd, full, at_end, failed, end_of, read_full, read_full-parts,
}
use s3_encryption_gateway.Stream.Loop.{more, eof, read_loop, is_some}
use s3_encryption_gateway.Stream.Loop.Laws.{Remaining, read_loop-Remaining, read_loop-Ends}
use s3_encryption_gateway.Stream.Loop.Drain.{drain, drain_induction, ArePositive}
use s3_encryption_gateway.Stream.Loop.Total.{read_loop_keeps}
use s3_encryption_gateway.Stream.Encrypt.{encrypt_outcome}
use s3_encryption_gateway.Part.{
  PartConfig, PartState, PartReader, seal_chunk, take_text, extra_byte, part_fill, part_open,
  part_read, mark_eof, new_part_reader, chunk_aad, derive_multipart_iv,
}
use s3_encryption_gateway.Part.Format.{IsChunk, IsPart, no_more, last, chunk}
use s3_encryption_gateway.Part.Opened.{nil_of_length}
use s3_encryption_gateway.Part.Sealed.{nothing_sealed}
use s3_encryption_gateway.Part.Stored.{unread, part_fill_keeps, part_falls, take_text_full}

module _ (cfg : PartConfig) (some_size : 0 < cfg.chunk_size) where
  -- What is still to come is the ciphertext of just the bytes that are required.
  abbrev Rest : PartState → Bytes → Type 0
  Rest s u = (s.remaining ≡ length s.source.bytes) × IsPart cfg 1 s.chunk_idx s.source.bytes u

  extra_step :
      (r : PartReader) (u got : Bytes) (x : ReadEnd)
      → r.pending ≡ []
      → is_some (extra_byte r got x).error ≡ false
      → Remaining Rest (extra_byte r got x) u
      → (got ≡ []) × (x ≡ at_end) × (u ≡ [])
  unfolding extra_byte
  extra_step r u [] at_end empty fine m = (refl, refl, m.splits ∙ rw (empty, m.at_end refl) refl)
  extra_step r u [] full empty fine m = absurd (ground arith)
  extra_step r u [] (failed x) empty fine m = absurd (ground arith)
  extra_step r u (b ∷ bs) x empty fine m = absurd (ground arith)

  -- What a chunk that was sealed adds to what is left.
  chunk_step :
      (r : PartReader) (text u : Bytes) (x : Result AadError Bytes)
      → chunk_aad cfg r.inner.chunk_idx ≡ x
      → r.done ≡ false
      → r.inner.chunk_idx < max_int32
      → is_some (seal_chunk cfg r text x).error ≡ false
      → Remaining Rest (seal_chunk cfg r text x) u
      → (piece later : Bytes) × IsChunk cfg r.inner.chunk_idx text piece
        × (u ≡ piece ++ later)
        × (r.inner.remaining ≡ length r.inner.source.bytes)
        × IsPart cfg 1 (r.inner.chunk_idx + 1) r.inner.source.bytes later
  unfolding seal_chunk chunk_aad derive_multipart_iv
  chunk_step r text u (err e) f going b fine m = absurd (ground arith)
  chunk_step r text u (ok aad) f going b fine m =
      let w = m.before_end going in
      (
        cfg.aead.seal (derive_multipart_iv cfg r.inner.chunk_idx) text aad,
        m.later,
        record { aad = aad; aad_is = f; sealed_is = refl; in_range = b },
        m.splits,
        w.0,
        w.1,
      )

  text_step :
      (r : PartReader) (text u : Bytes)
      → r.done ≡ false
      → r.inner.chunk_idx < max_int32
      → 0 < length text
      → length text ≡ min cfg.chunk_size r.inner.remaining
      → is_some (take_text cfg r text full).error ≡ false
      → Remaining Rest (take_text cfg r text full) u
      → (r.inner.remaining ≡ length (text ++ r.inner.source.bytes))
        × IsPart cfg 1 r.inner.chunk_idx (text ++ r.inner.source.bytes) u
  unfolding take_text
  text_step r text u going b some_text amount fine m =
      let (piece, later, i, e, k, s) =
        chunk_step
          (record r { inner = record r.inner { remaining = r.inner.remaining - length text } }) text
          u (chunk_aad cfg r.inner.chunk_idx) refl going b fine m in
      let total : r.inner.remaining ≡ length (text ++ r.inner.source.bytes) =
        omega (arith, length-append text r.inner.source.bytes, amount, k) in
      elim (Bool-cases (length text == cfg.chunk_size)) [
        | inl c ↦
            (total, chunk text piece r.inner.source.bytes later i (ground (arith, c)) s refl e)
        | inr c ↦
            let short : length text < cfg.chunk_size = ground (arith, c, amount) in
            let none_left : length r.inner.source.bytes ≡ 0 = omega (arith, k, amount, short) in
            let n = nil_of_length r.inner.source.bytes none_left in
            let z = nothing_sealed cfg some_size none_left s in
            let u_is : u ≡ piece = e ∙ ap (λ x. piece ++ x) z ∙ append-nil piece in
            (total, rw (n, append-nil text, u_is) (last i (omega arith) (omega (arith, short))))
      ]

  part_step :
      (r : PartReader)
      → r.pending ≡ []
      → r.done ≡ false
      → is_some (part_fill cfg r).error ≡ false
      → (u : Bytes) → Remaining Rest (part_fill cfg r) u
      → Rest r.inner u
  unfolding part_fill
  part_step r empty going fine u m =
      let extra = read_full 1 r.inner.source in
      let extra_parts = read_full-parts 1 r.inner.source in
      let size = min cfg.chunk_size r.inner.remaining in
      let got = read_full size r.inner.source in
      let parts = read_full-parts size r.inner.source in
      let after : PartReader = record r { inner = record r.inner { source = got.source } } in
      elim (Bool-cases (r.inner.remaining == 0)) [
        | inl z ↦
            let (e, x, n) =
              extra_step (record r { inner = record r.inner { source = extra.source } }) u
                extra.bytes extra.result empty (rw z at fine) (rw z at m) in
            let drained : r.inner.source.bytes ≡ [] = elim extra_parts.amount [
              | inl a ↦ absurd (omega (arith, a.0, ap (length {A = ℕ}) e))
              | inr a ↦ sym extra_parts.splits ∙ rw (e, a.1) refl
            ] in
            (ground (arith, z, ap (length {A = ℕ}) drained), no_more drained n)
        | inr z ↦ elim (Bool-cases (leb max_int32 r.inner.chunk_idx)) [
          | inl o ↦ absurd (ground arith)
          | inr o ↦
              let w = take_text_full cfg after got.bytes got.result (rw (z, o) at fine) in
              let amount : length got.bytes ≡ size = elim parts.amount [
                | inl a ↦ a.0
                | inr a ↦ absurd (not_full r.inner.source.fault (sym w ∙ a.2))
              ] in
              let t =
                text_step after got.bytes u going (ground (arith, o)) (ground (arith, z, amount))
                  amount (rw (z, o, w) at fine) (rw (z, o, w) at m) in
              rw (← parts.splits) t
        ]
      ]
    where
      not_full : (f : Option ℕ) → full ≡ end_of f → ⊥
      not_full none e = cc
      not_full (some x) e = cc

  -- What holds of a reader that is still to hand out `t`.
  record Held (r : PartReader) (t : Bytes) : Type 0 where
    going : r.inner.at_eof ≡ false → Remaining Rest r t
    ended : r.inner.at_eof ≡ true → t ≡ []

  finished : (x : PartReader) → x.done ≡ true → x.pending ≡ [] → Remaining Rest x []
  finished x d p = record {
    later = [];
    splits = rw p refl;
    at_end = λ e. refl;
    before_end = λ e. cc;
  }

  -- The mark is set where nothing is left.
  before_mark :
      (x : PartReader) (want : ℕ) (out t : Bytes)
      → x.inner.at_eof ≡ false
      → ((is_some x.error ≡ true) ⊎ ((length out ≡ want) ⊎ ((x.done ≡ true) × (x.pending ≡ []))))
      → Held (mark_eof want out x) t
      → Remaining Rest x t
  unfolding mark_eof
  before_mark x want out t a way h =
      elim (Bool-cases (ltb (length out) want && not (is_some x.error))) [
        | inl c ↦
            let (short, fine) = and_passed (ltb (length out) want) (not (is_some x.error)) c in
            let n : t ≡ [] = (rw c at h).ended refl in
            elim way [
              | inl e ↦ absurd (ground (arith, e, fine))
              | inr (inl e) ↦ absurd (ground (arith, e, short))
              | inr (inr (d, p)) ↦ rw n (finished x d p)
            ]
        | inr c ↦ (rw c at h).going a
      ]

  module _ (r : PartReader) (want : ℕ) (some_room : 0 < want) where
    abbrev fuel : ℕ
    fuel = want + length r.inner.source.bytes + 2

    abbrev looped : Bytes × PartReader
    looped = read_loop (part_fill cfg) fuel r want

    way :
        (is_some looped.1.error ≡ true)
        ⊎ ((length looped.0 ≡ want) ⊎ ((looped.1.done ≡ true) × (looped.1.pending ≡ [])))
    way =
        read_loop-Ends (part_fill cfg) (unread cfg) (part_falls cfg some_size) (λ q p. refl) fuel r
          want (ground arith)

    unmarked : r.inner.at_eof ≡ false → looped.1.inner.at_eof ≡ false
    unmarked e =
        read_loop_keeps (part_fill cfg) (λ s. s.at_eof) (part_fill_keeps cfg) fuel r want ∙ e

    looped-Held :
        (t : Bytes)
        → r.inner.at_eof ≡ false
        → is_some looped.1.error ≡ false
        → Remaining Rest looped.1 t
        → Held r (looped.0 ++ t)
    looped-Held t e fine m = record {
      going = λ f. read_loop-Remaining (part_fill cfg) Rest part_step fuel r want t fine m;
      ended = λ f. absurd (ground (arith, e, f));
    }

    more_cases :
        (x : Bytes × PartReader)
        → encrypt_outcome x.1.error x.0 x.1.done ≡ more
        → is_some x.1.error ≡ false
    more_cases x e = elim (Option-cases x.1.error) [
      | inl f ↦ rw f refl
      | inr (y, f) ↦ absurd (ground arith)
    ]

    eof_cases :
        (x : Bytes × PartReader)
        → ((is_some x.1.error ≡ true)
            ⊎ ((length x.0 ≡ want) ⊎ ((x.1.done ≡ true) × (x.1.pending ≡ []))))
        → encrypt_outcome x.1.error x.0 x.1.done ≡ eof
        → (is_some x.1.error ≡ false) × (x.0 ≡ []) × (x.1.done ≡ true) × (x.1.pending ≡ [])
    eof_cases x (inl b) e = absurd (ground arith)
    eof_cases x (inr (inl b)) e = absurd (ground arith)
    eof_cases x (inr (inr b)) e = (ground arith, ground arith, b.0, b.1)

    onward :
        (t : Bytes)
        → (part_read cfg r want).outcome ≡ more
        → Held (part_read cfg r want).reader t
        → Held r ((part_read cfg r want).out ++ t)
    unfolding part_read part_open
    onward t o h = elim (Option-cases r.error) [
      | inr (x, failed_before) ↦ absurd (ground arith)
      | inl fine ↦ elim (Bool-cases r.inner.at_eof) [
        | inl e ↦ absurd (ground arith)
        | inr e ↦
            let room : (want == 0) ≡ false = ground arith in
            simp (fine, e, room)
              (looped-Held t e (more_cases looped (simp (fine, e, room) at o))
                (before_mark looped.1 want looped.0 t (unmarked e) way (simp (fine, e, room) at h)))
      ]
    ]

    at_eof_step : (part_read cfg r want).outcome ≡ eof → Held r (part_read cfg r want).out
    unfolding part_read part_open
    at_eof_step o = elim (Option-cases r.error) [
      | inr (x, failed_before) ↦ absurd (ground arith)
      | inl fine ↦ elim (Bool-cases r.inner.at_eof) [
        | inl e ↦
            simp (fine, e)
              (record { going = λ f. absurd (ground (arith, e, f)); ended = λ f. refl })
        | inr e ↦
            let room : (want == 0) ≡ false = ground arith in
            let (f, n, d, p) = eof_cases looped way (simp (fine, e, room) at o) in
            simp (fine, e, room)
              (subst (Held r) (append-nil looped.0) (looped-Held [] e f (finished looped.1 d p)))
      ]
    ]

  -- With a positive chunk size and reads of any positive sizes: a reader that was told of `declared`
  -- bytes reports the end of the file only if its source had exactly that many, and what it handed
  -- out until then is the ciphertext of all of them, full chunks first and none empty.
  pub drain-IsPart :
      (ws : List ℕ) (s : Source) (declared : ℕ)
      → ArePositive ws
      → (drain (part_read cfg) ws (new_part_reader s declared)).1 ≡ eof
      → (declared ≡ length s.bytes)
        × IsPart cfg 1 0 s.bytes (drain (part_read cfg) ws (new_part_reader s declared)).0
  drain-IsPart ws s declared p e =
      let h =
        drain_induction (part_read cfg) Held (λ r w t h o m. onward r w h t o m)
          (λ r w h o. at_eof_step r w h o) ws (new_part_reader s declared) p e in
      let m = h.going refl in rw m.splits (m.before_end refl)
