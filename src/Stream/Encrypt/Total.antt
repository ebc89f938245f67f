-- ===== src/Stream/Encrypt/Total.antt =====
-- An encrypting reader over a healthy source delivers the ciphertext and then the end of the file.
use mathlib.Core.List.{append-nil}
use s3_encryption_gateway.Prelude.{
  ℕ, ◌+◌, ◌≤◌, ◌<◌, true, false, List, [], ◌∷◌, ◌++◌, none, ◌==◌, ◌&&◌, Bytes, length, wrap64,
  max_uint64, ◌≡◌, refl, sym, ◌∙◌, ◌⊎◌, inl, inr, arith, Bool-cases, and_passed, length-append,
  ==_iff,
}
use s3_encryption_gateway.Chunk.{v2}
use s3_encryption_gateway.Stream.Config.{ReaderConfig, terminal_params, encode_chunked_terminal}
use s3_encryption_gateway.Stream.Format.{IsRecord, IsTerminal, absent, present, Seals}
use s3_encryption_gateway.Stream.Format.Next.{Next, Seals-cases}
use s3_encryption_gateway.Stream.Source.{Source, ReadEnd, at_end, poll, read_full}
use s3_encryption_gateway.Stream.Source.Healthy.{
  IsHealthy, fetch, Fetched-nothing, Fetched-amount, cut_unique,
}
use s3_encryption_gateway.Stream.Loop.{eof, read_loop}
use s3_encryption_gateway.Stream.Loop.Laws.{read_loop-Ends, eq-nil_of}
use s3_encryption_gateway.Stream.Loop.Drain.{drain, ArePositive}
use s3_encryption_gateway.Stream.Loop.Total.{
  Owes, Leaves, Delivers, part, end, read_loop-Owes, drain_total,
}
use s3_encryption_gateway.Stream.Encrypt.{
  EncryptState, EncryptReader, seal_record, seal_terminal, encrypt_fill, take_chunk, at_source_end,
  encrypt_open, encrypt_read, encrypt_outcome, new_encrypt_reader,
}
use s3_encryption_gateway.Stream.Encrypt.Drain.{unread, encrypt_falls}

module _ (cfg : ReaderConfig) where
  -- The source is healthy, its text has the ciphertext `t`, and the counters have room for it.
  pub record Ready (s : EncryptState) (t : Bytes) : Type 0 where
    pub healthy : IsHealthy s.source
    pub seals : Seals cfg 1 s.index s.plain_size s.source.bytes t
    pub size_fits : s.plain_size + length s.source.bytes ≤ max_uint64
    pub index_fits : s.index + length s.source.bytes ≤ max_uint64

  abbrev counted : EncryptReader → ℕ → Bytes → EncryptReader
  counted r n piece = record r {
    pending = piece;
    inner = record r.inner {
      plain_size = r.inner.plain_size + n;
      index = wrap64 (r.inner.index + 1);
      chunk_count = wrap64 (r.inner.index + 1);
    };
  }

  seal_record_total :
      (r : EncryptReader) (text piece : Bytes)
      → IsRecord cfg r.inner.index text piece
      → r.inner.plain_size + length text ≤ max_uint64
      → r.inner.index < max_uint64
      → seal_record cfg r text ≡ counted r (length text) piece
  unfolding seal_record
  seal_record_total r text piece i s n = rw (i.params, i.sealed_is) (ground arith)

  terminal_total :
      (r : EncryptReader) (t : Bytes)
      → r.pending ≡ []
      → r.error ≡ none
      → IsTerminal cfg r.inner.index r.inner.plain_size t
      → Owes Ready (seal_terminal cfg (record r { done = true })) t
  unfolding seal_terminal terminal_params
  terminal_total r t empty fine (absent v e) = record {
    fine = ground (arith, v);
    later = [];
    splits = ground (arith, e, v);
    at_end = λ d. refl;
    before_end = λ d. ground (arith, d, v);
  }
  terminal_total r t empty fine (present a nonce aad v ea p e) =
      rw ((==_iff cfg.version v2).1 v, ea, p)
        (record {
          fine = fine;
          later = [];
          splits =
              e
              ∙ sym (
                  append-nil
                    (a.seal nonce (encode_chunked_terminal r.inner.index r.inner.plain_size) aad));
          at_end = λ d. refl;
          before_end = λ d. cc;
        })

  take_record :
      (r : EncryptReader) (got : Bytes) (result : ReadEnd)
      → 0 < length got
      → take_chunk cfg r got result ≡ seal_record cfg r got
  unfolding take_chunk
  take_record r [] result h = absurd (omega arith)
  take_record r (b ∷ bs) result h = refl

  abbrev next_of :
      {index size : ℕ} {text text' t : Bytes}
      → Next cfg index size text t
      → text ≡ text'
      → Next cfg index size text' t
  next_of n e = record {
    part = n.part;
    piece = n.piece;
    text_rest = n.text_rest;
    sealed_rest = n.sealed_rest;
    is_record = n.is_record;
    some_text = n.some_text;
    at_most = n.at_most;
    fills = n.fills;
    goes_on = n.goes_on;
    text_is = sym e ∙ n.text_is;
    sealed_is = n.sealed_is;
  }

  -- What is taken is the next record.
  record_total :
      (r : EncryptReader) (got : Bytes) (result : ReadEnd) (t : Bytes)
      → r.done ≡ false
      → r.error ≡ none
      → IsHealthy r.inner.source
      → (n : Next cfg r.inner.index r.inner.plain_size (got ++ r.inner.source.bytes) t)
      → got ≡ n.part
      → r.inner.source.bytes ≡ n.text_rest
      → r.inner.plain_size + length (got ++ r.inner.source.bytes) ≤ max_uint64
      → r.inner.index + length (got ++ r.inner.source.bytes) ≤ max_uint64
      → Owes Ready (take_chunk cfg r got result) t
  record_total r got result t going fine h n same left sizes counts =
      let l = length-append got r.inner.source.bytes in
      let some : 0 < length got = rw same n.some_text in
      let w : wrap64 (r.inner.index + 1) ≡ r.inner.index + 1 = omega (arith, l) in
      rw
        (
          take_record r got result some,
          seal_record_total r got n.piece (rw same n.is_record) (omega (arith, l))
              (omega (arith, l)),
        )
        (record {
          fine = fine;
          later = n.sealed_rest;
          splits = n.sealed_is;
          at_end = λ d. cc;
          before_end = λ d. record {
            healthy = h;
            seals = rw (left, same) n.goes_on;
            size_fits = omega (arith, l);
            index_fits = omega (arith, l, w);
          };
        })

  -- Nothing is taken: the source is at its end.
  empty_total :
      (r : EncryptReader) (got : Bytes) (result : ReadEnd) (t : Bytes)
      → r.pending ≡ []
      → r.error ≡ none
      → got ≡ []
      → result ≡ at_end
      → IsTerminal cfg r.inner.index r.inner.plain_size t
      → Owes Ready (take_chunk cfg r got result) t
  unfolding take_chunk at_source_end
  empty_total r got result t empty fine e f w = rw (e, f) (terminal_total r t empty fine w)

  encrypt_total_step :
      0 < cfg.chunk_size
      → (r : EncryptReader) (t : Bytes) → r.pending ≡ []
      → r.done ≡ false
      → r.error ≡ none
      → Ready r.inner t
      → Owes Ready (encrypt_fill cfg r) t
  unfolding encrypt_fill
  encrypt_total_step pos r t empty going fine w =
      let f = fetch cfg.chunk_size r.inner.source w.healthy in
      let got = read_full cfg.chunk_size (poll r.inner.source).source in
      let after : EncryptReader = record r { inner = record r.inner { source = got.source } } in
      rw f.not_cancelled (elim (Seals-cases cfg pos w.seals) [
        | inl (none_left, terminal) ↦
            let (e, g) = Fetched-nothing cfg.chunk_size r.inner.source f pos none_left in
            empty_total after got.bytes got.result t empty fine e g terminal
        | inr n ↦
            let (e, g) =
              cut_unique cfg.chunk_size got.bytes got.source.bytes n.part n.text_rest
                (f.splits ∙ n.text_is) (Fetched-amount cfg.chunk_size r.inner.source f) n.at_most
                n.fills in
            record_total after got.bytes got.result t going fine f.healthy
              (next_of n (sym f.splits)) e g (rw f.splits w.size_fits) (rw f.splits w.index_fits)
      ])

  abbrev looped : EncryptReader → ℕ → Bytes × EncryptReader
  looped r want = read_loop (encrypt_fill cfg) (want + length r.inner.source.bytes + 2) r want

  nothing_left :
      (x : Bytes × EncryptReader) (t : Bytes)
      → Leaves Ready t x.0 x.1
      → x.1.done ≡ true
      → x.1.pending ≡ []
      → x.0 ≡ []
      → t ≡ []
  nothing_left x t l d p e = rw (l.adds_up, e, l.owes.splits, p, l.owes.at_end d) refl

  nothing_owed :
      (r : EncryptReader) (t : Bytes)
      → Owes Ready r t
      → (r.done ≡ true) × ((length r.pending == 0) ≡ true)
      → t ≡ []
  nothing_owed r t w (d, p) =
      rw (w.splits, w.at_end d, eq-nil_of r.pending (ground (arith, p))) refl

  looped-Delivers :
      (r x : EncryptReader) (want : ℕ) (t out : Bytes)
      → 0 < want
      → Leaves Ready t out x
      → ((length out ≡ want) ⊎ ((x.done ≡ true) × (x.pending ≡ [])))
      → Delivers
          (Owes Ready)
          t
          (record { out = out; outcome = encrypt_outcome x.error out x.done; reader = x })
  looped-Delivers r x want t [] h l (inl e) = absurd (omega arith)
  looped-Delivers r x want t [] h l (inr (d, p)) =
      end (rw (l.owes.fine, d) refl) (nothing_left ([], x) t l d p refl) refl
  looped-Delivers r x want t (b ∷ bs) h l e =
      part l.rest (rw l.owes.fine refl) l.adds_up (omega arith) l.owes

  module _ (pos : 0 < cfg.chunk_size) where
    encrypt-Delivers :
        (r : EncryptReader) (want : ℕ) (t : Bytes)
        → 0 < want
        → Owes Ready r t
        → Delivers (Owes Ready) t (encrypt_read cfg r want)
    unfolding encrypt_read encrypt_open
    encrypt-Delivers r want t h w =
        simp w.fine (elim (Bool-cases (r.done && (length r.pending == 0))) [
          | inl c ↦
              simp c
                (end refl (nothing_owed r t w (and_passed r.done (length r.pending == 0) c)) refl)
          | inr c ↦ simp c (
              let l =
                read_loop-Owes (encrypt_fill cfg) Ready (encrypt_total_step pos)
                  (want + length r.inner.source.bytes + 2) r want t w in
              looped-Delivers r (looped r want).1 want t (looped r want).0 h l
                (elim (read_loop-Ends (encrypt_fill cfg) (unread cfg pos) (encrypt_falls cfg pos)
                  (λ q p. refl) (want + length r.inner.source.bytes + 2) r want (ground arith)) [
                    | inl e ↦ absurd (ground (arith, l.owes.fine))
                    | inr e ↦ e
                  ]))
        ])

    -- The source gives its bytes and then its end, and no poll finds the context cancelled. If the
    -- bytes have the wire format `sealed` (so that no derivation fails and version 2 has its terminal
    -- cipher) and their number fits in 64 bits, then a client that reads with more buffers, all of
    -- positive size, than `sealed` has bytes receives exactly `sealed`, and then the end of the file.
    pub encrypt_drain_total :
        (ws : List ℕ) (s : Source) (sealed : Bytes)
        → IsHealthy s
        → Seals cfg 1 0 0 s.bytes sealed
        → length s.bytes ≤ max_uint64
        → ArePositive ws
        → length sealed < length ws
        → drain (encrypt_read cfg) ws (new_encrypt_reader s) ≡ (sealed, eof)
    encrypt_drain_total ws s sealed h c m p l =
        drain_total (encrypt_read cfg) (Owes Ready) encrypt-Delivers ws (new_encrypt_reader s)
          sealed p l
          (record {
            fine = refl;
            later = sealed;
            splits = refl;
            at_end = λ d. absurd (ground arith);
            before_end = λ d. record {
              healthy = h;
              seals = c;
              size_fits = omega (arith, m);
              index_fits = omega (arith, m);
            };
          })
