-- ===== src/Range/Round.antt =====
-- One round of the reader of a range, over a version 2 ciphertext: the next record is read whole, and
-- what is cut off was not asked for.
use mathlib.Core.List.{append_assoc}
use s3_encryption_gateway.Prelude.{
  ℕ, suc, ◌+◌, ◌-◌, ◌*◌, ◌≤◌, ◌<◌, false, List, [], ◌∷◌, ◌++◌, leb, ◌==◌, min, Bytes, length, drop,
  ok, wrap64, ◌≡◌, refl, sym, ap, ◌∙◌, ◌⊎◌, inl, inr, arith, Bool-cases, length-append, length-drop,
}
use s3_encryption_gateway.Aad.Encoding.{AreBytes, append_split}
use s3_encryption_gateway.Chunk.{v2, tag_size}
use s3_encryption_gateway.Stream.Format.{IsRecord, Seals}
use s3_encryption_gateway.Stream.Format.Next.{Seals-cases}
use s3_encryption_gateway.Stream.Format.Amounts.{length-record, length-Next, Seals_least}
use s3_encryption_gateway.Stream.Decrypt.Sound.{AreAeads}
use s3_encryption_gateway.Stream.Decrypt.Total.{AreBytes_front}
use s3_encryption_gateway.Stream.Source.{Source, read_full, read_full-parts, full}
use s3_encryption_gateway.Range.{
  RangeConfig, RangeState, RangeReader, extract, cut_end, open_record, take_record, after_read,
  read_sized, range_fill,
}
use s3_encryption_gateway.Range.Sizes.{skip, IsRange, expected_size_lem}

module _ (cfg : RangeConfig) (laws : AreAeads cfg.reader) (v : cfg.reader.version ≡ v2)
    (some_chunk : 0 < cfg.reader.chunk_size) (total : ℕ) (range : IsRange cfg total) where
  abbrev size : ℕ
  size = cfg.reader.chunk_size

  extract_lem :
      (index : ℕ) (text : Bytes)
      → skip cfg index < length text
      → extract cfg index text ≡ ok (cut_end cfg index (drop (skip cfg index) text))
  unfolding extract skip
  extract_lem index text h = elim (Bool-cases (index == cfg.range.start_chunk)) [
    | inl i ↦
        let below : leb (length text) cfg.range.start_offset ≡ false = ground (arith, i) in
        rw (i, below) refl
    | inr i ↦ rw i refl
  ]

  after_read_full :
      (r : RangeReader) (sealed : Bytes)
      → after_read cfg r sealed full ≡ take_record r (open_record cfg r.inner.chunk_index sealed)
  unfolding after_read
  after_read_full r [] = refl
  after_read_full r (b ∷ bs) = refl

  open_record_total :
      (index : ℕ) (text sealed : Bytes)
      → IsRecord cfg.reader index text sealed
      → AreBytes text
      → skip cfg index < length text
      → open_record cfg index sealed ≡ ok (cut_end cfg index (drop (skip cfg index) text))
  unfolding open_record
  open_record_total index text sealed i b h =
      rw (i.params, i.sealed_is, laws.data_laws.unseal-seal i.nonce text i.aad b)
        (extract_lem index text h)

  -- The records still to be read: of the source's bytes and those that were not asked for, `tail`.
  pub record Ahead (s : RangeState) (future : Bytes) : Type 0 where
    pub rest : Bytes
    pub tail : Bytes
    pub seals :
        Seals cfg.reader 1 s.chunk_index (s.chunk_index * size) rest (s.source.bytes ++ tail)
    pub are_bytes : AreBytes rest
    pub position : s.chunk_index * size + length rest ≡ total
    pub from_start : cfg.range.start_chunk ≤ s.chunk_index
    pub within : s.chunk_index ≤ cfg.range.end_chunk
    pub future_is : future ≡ drop (skip cfg s.chunk_index) rest
    pub covered :
        ((cfg.range.end_chunk + 1 - s.chunk_index) * (size + tag_size) ≤ length s.source.bytes)
        ⊎ (length tail ≤ 32)

  -- The next record: it is whole, and reading it leaves the records behind it.
  pub record Fetched (r : RangeReader) (a : List ℕ) : Type 0 where
    pub part : Bytes
    pub after : Source
    pub text_rest : Bytes
    pub tail : Bytes
    pub amount : length part ≡ min size (length part + length text_rest)
    pub position : r.inner.chunk_index * size + (length part + length text_rest) ≡ total
    pub filled :
        skip cfg r.inner.chunk_index < length part
        → range_fill cfg r
          ≡ take_record
              (record r { inner = record r.inner { source = after } })
              (ok (cut_end cfg r.inner.chunk_index (drop (skip cfg r.inner.chunk_index) part)))
    pub future_is : a ≡ drop (skip cfg r.inner.chunk_index) (part ++ text_rest)
    pub falls : length after.bytes < length r.inner.source.bytes
    pub goes_on :
        Seals cfg.reader 1
          (wrap64 (r.inner.chunk_index + 1))
          (r.inner.chunk_index * size + length part)
          text_rest
          (after.bytes ++ tail)
    pub are_bytes : AreBytes text_rest
    pub covered :
        (length part ≡ size
          → (cfg.range.end_chunk + 1 - r.inner.chunk_index) * (size + tag_size)
            ≤ length after.bytes + (size + tag_size))
        ⊎ (length tail ≤ 32)

  pub fetch_record :
      (r : RangeReader) (future : Bytes)
      → 0 < length future
      → Ahead r.inner future
      → Fetched r future
  unfolding range_fill read_sized
  fetch_record r future h a =
      let s = r.inner in
      let left = length a.rest in
      let some_left : 0 < left =
        omega
          (arith, ap (length {A = ℕ}) a.future_is, length-drop (skip cfg s.chunk_index) a.rest) in
      elim (Seals-cases cfg.reader some_chunk a.seals) [
        | inl x ↦ absurd (omega (arith, ap (length {A = ℕ}) x.0))
        | inr n ↦
            let p =
              length-record cfg.reader laws.data_laws laws.terminal_laws v some_chunk n.is_record in
            let k = length-Next cfg.reader laws.data_laws laws.terminal_laws v some_chunk n in
            let whole : left ≡ length n.part + length n.text_rest =
              ap (length {A = ℕ}) n.text_is ∙ length-append n.part n.text_rest in
            let amount : length n.part ≡ min size (length n.part + length n.text_rest) =
              elim n.fills [
                | inl e ↦ omega (arith, e)
                | inr e ↦ omega (arith, n.at_most, ap (length {A = ℕ}) e)
              ] in
            let need = min size left + tag_size in
            let got = read_full need s.source in
            let parts = read_full-parts need s.source in
            let same_need : need ≡ length n.piece = omega (arith, amount, whole, p) in
            let held : need ≤ length s.source.bytes = elim a.covered [
              | inl c ↦
                  let one : cfg.range.end_chunk + 1 - s.chunk_index
                      ≡ suc (cfg.range.end_chunk - s.chunk_index) =
                    omega (arith, a.within) in
                  omega (
                    arith,
                    c,
                    at_least_one (cfg.range.end_chunk + 1 - s.chunk_index) (size + tag_size)
                        (omega (arith, one)),
                  )
              | inr c ↦ omega (
                arith,
                same_need,
                p,
                k,
                length-append s.source.bytes a.tail,
                Seals_least cfg.reader laws.data_laws laws.terminal_laws v some_chunk n.goes_on,
              )
            ] in
            let all : (length got.bytes ≡ need) × (got.result ≡ full) = elim parts.amount [
              | inl b ↦ b
              | inr b ↦ absurd (
                  omega (
                    arith,
                    ap (length {A = ℕ}) parts.splits,
                    length-append got.bytes got.source.bytes,
                    b.0,
                    ap (length {A = ℕ}) b.1,
                  ))
            ] in
            let cut = append_split got.bytes n.piece (all.0 ∙ same_need) (
              sym (append_assoc got.bytes got.source.bytes a.tail)
              ∙ ap (λ x. x ++ a.tail) parts.splits
              ∙ n.sealed_is) in
            let bytes = AreBytes_front n.part n.text_rest (rw (sym n.text_is) a.are_bytes) in
            record {
              part = n.part;
              after = got.source;
              text_rest = n.text_rest;
              tail = a.tail;
              amount = amount;
              position = omega (arith, a.position, whole);
              filled = λ b.
                  rw
                    (expected_size_lem cfg laws v some_chunk total range s.chunk_index left
                      a.position some_left)
                    (rw (all.1) (
                      after_read_full (record r { inner = record r.inner { source = got.source } })
                        got.bytes
                      ∙ ap
                          (take_record
                            (record r { inner = record r.inner { source = got.source } }))
                          (ap (open_record cfg s.chunk_index) cut.0
                            ∙ open_record_total s.chunk_index n.part n.piece n.is_record bytes.0
                                b)));
              future_is = a.future_is ∙ ap (drop (skip cfg s.chunk_index)) n.text_is;
              falls = omega (
                arith,
                ap (length {A = ℕ}) parts.splits,
                length-append got.bytes got.source.bytes,
                all.0,
              );
              goes_on = rw cut.1 n.goes_on;
              are_bytes = bytes.1;
              covered = elim a.covered [
                | inl c ↦ inl (λ e. omega (
                  arith,
                  c,
                  e,
                  p,
                  same_need,
                  all.0,
                  ap (length {A = ℕ}) parts.splits,
                  length-append got.bytes got.source.bytes,
                ))
                | inr c ↦ inr c
              ];
            }
      ]
    where
      at_least_one : (k u : ℕ) → 0 < k → u ≤ k * u
      at_least_one k u h = grind arith
