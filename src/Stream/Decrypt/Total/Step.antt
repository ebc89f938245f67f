-- ===== src/Stream/Decrypt/Total/Step.antt =====
-- The rounds of a version 2 decrypting reader over a ciphertext.
use mathlib.Core.List.{append-nil, append_assoc}
use s3_encryption_gateway.Prelude.{
  ℕ, zero, suc, ◌+◌, ◌-◌, ◌≤◌, ◌<◌, false, [], ◌++◌, none, ltb, ◌==◌, Bytes, length, drop,
  max_uint64, ◌≡◌, refl, sym, ap, ◌∙◌, ◌⊎◌, inl, inr, arith, Bool-cases, length-append, ==_iff,
  ltb→lt,
}
use s3_encryption_gateway.Chunk.{v2, chunked_terminal_size}
use s3_encryption_gateway.Stream.Config.{ReaderConfig}
use s3_encryption_gateway.Stream.Format.{Seals}
use s3_encryption_gateway.Stream.Format.Next.{Next, Seals-cases}
use s3_encryption_gateway.Stream.Format.Amounts.{
  length-record, length-terminal, length-Next, Seals_least, only-IsTerminal, last_or_full,
}
use s3_encryption_gateway.Stream.Source.{Source, ReadEnd, full, at_end, poll, read_full}
use s3_encryption_gateway.Stream.Source.Healthy.{fetch}
use s3_encryption_gateway.Stream.Loop.{is_some}
use s3_encryption_gateway.Stream.Loop.Total.{Owes}
use s3_encryption_gateway.Stream.Decrypt.{
  DecryptReader, decrypt_records, decrypt_end, decrypt_fill, fill_v2, after_read, verify_terminal,
  conclude, set_lookbehind, unit_size,
}
use s3_encryption_gateway.Stream.Decrypt.Records.{
  ahead, opened, decrypt_records-Extends, decrypt_records_ends,
}
use s3_encryption_gateway.Stream.Decrypt.Sound.{AreAeads}
use s3_encryption_gateway.Stream.Decrypt.Total.{
  AreBytes_front, take_front, Ready, decrypt_data_total, verify_terminal_total, opened-Owes,
}

module _ (cfg : ReaderConfig) (laws : AreAeads cfg) (v : cfg.version ≡ v2)
    (pos : 0 < cfg.chunk_size) where
  abbrev Kept : DecryptReader → Bytes → Type 0
  Kept = Owes (Ready cfg laws v pos)

  -- With more held than a record and a terminal, the next record is full and all of it is held.
  held_record :
      (r : DecryptReader) (text : Bytes)
      → Seals cfg 1 r.inner.index r.inner.plain_size text (ahead r)
      → 32 + unit_size cfg < length r.inner.lookbehind
      → (n : Next cfg r.inner.index r.inner.plain_size text (ahead r)) × (length n.piece
          ≡ unit_size cfg)
  held_record r text s h =
      let l = length-append r.inner.lookbehind r.inner.source.bytes in
      elim (Seals-cases cfg pos s) [
        | inl x ↦
            absurd (omega (arith, length-terminal cfg laws.data_laws laws.terminal_laws v pos x.1))
        | inr n ↦
            let k = length-Next cfg laws.data_laws laws.terminal_laws v pos n in
            let p = length-record cfg laws.data_laws laws.terminal_laws v pos n.is_record in
            (
              n,
              elim (last_or_full cfg laws.data_laws laws.terminal_laws v pos n) [
                | inl e ↦ omega arith
                | inr e ↦ absurd (omega (arith, n.at_most))
              ],
            )
      ]

  -- The loop over the held records keeps the promise.
  records_total :
      (fuel : ℕ) (r : DecryptReader) (t : Bytes)
      → r.done ≡ false
      → Kept r t
      → Kept (decrypt_records fuel cfg r) t
  unfolding decrypt_records
  records_total zero r t going w = w
  records_total (suc fuel) r t going w =
      elim (Bool-cases (ltb (chunked_terminal_size + unit_size cfg) (length r.inner.lookbehind))) [
        | inr b ↦ rw b w
        | inl b ↦
            let now = w.before_end going in
            let (n, l) = held_record r w.later now.seals (ltb→lt _ _ b) in
            let c =
              take_front r.inner.lookbehind r.inner.source.bytes n.piece n.sealed_rest
                (unit_size cfg) n.sealed_is l (omega (arith, ltb→lt _ _ b)) in
            let size : r.inner.plain_size + length n.part ≤ max_uint64 = omega (
              arith,
              now.size_fits,
              ap (length {A = ℕ}) n.text_is,
              length-append n.part n.text_rest,
            ) in
            let d =
              decrypt_data_total cfg laws v pos r n.part n.piece n.is_record
                (AreBytes_front n.part n.text_rest (rw (sym n.text_is) now.are_bytes)).0 size in
            let f : is_some r.error ≡ false = ap is_some w.fine in
            rw b (
              rw (c.0, d)
                (rw f (
                  records_total fuel
                    (set_lookbehind (drop (unit_size cfg) r.inner.lookbehind)
                      (opened cfg laws.data_laws r n.part))
                    t going
                    (opened-Owes cfg laws v pos r t (drop (unit_size cfg) r.inner.lookbehind) going
                      w n c.1))))
      ]

  -- The end of the source, with no more held than a record and a terminal.
  conclude_total :
      (q : DecryptReader) (t later terminal : Bytes)
      → q.error ≡ none
      → t ≡ q.pending ++ later
      → Seals cfg 1 q.inner.index q.inner.plain_size later terminal
      → length terminal ≤ 32
      → q.inner.index ≤ max_uint64
      → q.inner.plain_size ≤ max_uint64
      → Kept (conclude q (verify_terminal cfg q.inner terminal)) t
  unfolding conclude
  conclude_total q t later terminal fine splits s l index size =
      let (e, i) = only-IsTerminal cfg laws.data_laws laws.terminal_laws v pos s l in
      rw (verify_terminal_total cfg laws v pos q.inner terminal i index size) (record {
        fine = fine;
        later = [];
        splits = rw e at splits;
        at_end = λ d. refl;
        before_end = λ d. cc;
      })

  end_total :
      (r : DecryptReader) (t : Bytes)
      → r.done ≡ false
      → r.inner.source.bytes ≡ []
      → length r.inner.lookbehind ≤ 32 + unit_size cfg
      → Kept r t
      → Kept (decrypt_end cfg r) t
  unfolding decrypt_end
  end_total r t going drained small w =
      let held = r.inner.lookbehind in
      let now = w.before_end going in
      let all : ahead r ≡ held = rw drained (append-nil held) in
      let least = Seals_least cfg laws.data_laws laws.terminal_laws v pos now.seals in
      let enough : ltb (length held) 32 ≡ false = ground (arith, ap (length {A = ℕ}) all) in
      let f : is_some r.error ≡ false = ap is_some w.fine in
      let body = length held - 32 in
      elim (Seals-cases cfg pos now.seals) [
        | inl x ↦
            let l = length-terminal cfg laws.data_laws laws.terminal_laws v pos x.1 in
            let b : length held ≡ 32 = omega (arith, ap (length {A = ℕ}) all) in
            let s : Seals cfg 1 r.inner.index r.inner.plain_size w.later held =
              rw all at now.seals in
            rw (enough, b)
              (rw f (
                conclude_total r t w.later held w.fine w.splits s (omega arith) now.index_fits
                  (omega (arith, now.size_fits))))
        | inr n ↦
            let k = length-Next cfg laws.data_laws laws.terminal_laws v pos n in
            let p = length-record cfg laws.data_laws laws.terminal_laws v pos n.is_record in
            let z = ap (length {A = ℕ}) all in
            let rest_least = Seals_least cfg laws.data_laws laws.terminal_laws v pos n.goes_on in
            let rest : length n.sealed_rest ≡ 32 =
              elim (last_or_full cfg laws.data_laws laws.terminal_laws v pos n) [
                | inl e ↦ omega arith
                | inr e ↦ e
              ] in
            let c =
              take_front held r.inner.source.bytes n.piece n.sealed_rest body n.sealed_is
                (omega arith) (omega arith) in
            let size : r.inner.plain_size + length n.part ≤ max_uint64 = omega (
              arith,
              now.size_fits,
              ap (length {A = ℕ}) n.text_is,
              length-append n.part n.text_rest,
            ) in
            let d =
              decrypt_data_total cfg laws v pos r n.part n.piece n.is_record
                (AreBytes_front n.part n.text_rest (rw (sym n.text_is) now.are_bytes)).0 size in
            let some_body : (body == 0) ≡ false = ground (arith, n.some_text) in
            let q = opened cfg laws.data_laws r n.part in
            let left : drop body held ≡ n.sealed_rest =
              sym (append-nil (drop body held)) ∙ (rw drained at c.1) in
            rw (enough, some_body, c.0, d, left)
              (rw f (
                conclude_total q t n.text_rest n.sealed_rest w.fine
                  (w.splits
                    ∙ ap (λ x. r.pending ++ x) n.text_is
                    ∙ sym (append_assoc r.pending n.part n.text_rest))
                  n.goes_on (omega arith) (omega arith) size))
      ]

  fill_total :
      (r : DecryptReader) (got t : Bytes) (result : ReadEnd)
      → r.done ≡ false
      → Kept (set_lookbehind (r.inner.lookbehind ++ got) r) t
      → (result ≡ full) ⊎ ((result ≡ at_end) × (r.inner.source.bytes ≡ []))
      → Kept (fill_v2 cfg r got result) t
  unfolding fill_v2 after_read
  fill_total r got t result going w way =
      let held = r.inner.lookbehind ++ got in
      let start : DecryptReader = set_lookbehind held r in
      let q = decrypt_records (length held) cfg start in
      let o = records_total (length held) start t going w in
      let f : is_some q.error ≡ false = ap is_some o.fine in
      let x = decrypt_records-Extends cfg laws.data_laws (length held) start f in
      let small = decrypt_records_ends cfg laws.data_laws (length held) start (omega arith) f in
      rw f (elim way [
        | inl e ↦ rw e o
        | inr e ↦ rw e.0 (
            end_total q t (x.same_done ∙ going) (ap (λ (s : Source). s.bytes) x.source_is ∙ e.1)
              small o)
      ])

  pub decrypt_total_step :
      (r : DecryptReader) (t : Bytes)
      → r.pending ≡ []
      → r.done ≡ false
      → r.error ≡ none
      → Ready cfg laws v pos r.inner t
      → Kept (decrypt_fill cfg r) t
  unfolding decrypt_fill
  decrypt_total_step r t empty going fine w =
      let f = fetch (unit_size cfg) r.inner.source w.healthy in
      let got = read_full (unit_size cfg) (poll r.inner.source).source in
      let after : DecryptReader = record r { inner = record r.inner { source = got.source } } in
      let start : Kept (set_lookbehind (r.inner.lookbehind ++ got.bytes) after) t = record {
        fine = fine;
        later = t;
        splits = rw empty refl;
        at_end = λ d. absurd (ground arith);
        before_end = λ d. record {
          healthy = f.healthy;
          seals = rw (append_assoc r.inner.lookbehind got.bytes got.source.bytes, f.splits) w.seals;
          are_bytes = w.are_bytes;
          size_fits = w.size_fits;
          index_fits = w.index_fits;
        };
      } in
      rw (f.not_cancelled, (==_iff cfg.version v2).1 v)
        (fill_total after got.bytes t got.result going start
          (elim f.amount [ inl a ↦ inl a.1 | inr a ↦ inr (a.2, a.1) ]))
