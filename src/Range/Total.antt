-- ===== src/Range/Total.antt =====
-- What a client receives from the reader of a range, over a version 2 ciphertext.
pub mod Read
use mathlib.Core.List.{append-nil}
use s3_encryption_gateway.Prelude.{
  ℕ, zero, suc, ◌+◌, ◌-◌, ◌*◌, ◌≤◌, ◌<◌, Bool, true, false, ◌&&◌, ◌||◌, List, [], ◌∷◌, ◌++◌, Option,
  none, some, ltb, leb, ◌==◌, min, if◌then◌else◌, Bytes, length, take, drop, ok, wrap64, max_int64,
  ◌≡◌, refl, sym, ap, ◌∙◌, ◌⊎◌, inl, inr, arith, Bool-cases, length-append, length-take,
  length-drop, ==→≡, ltb→lt,
}
use s3_encryption_gateway.Chunk.{v2, tag_size}
use s3_encryption_gateway.Stream.Format.{Seals}
use s3_encryption_gateway.Stream.Decrypt.Sound.{AreAeads}
use s3_encryption_gateway.Range.{
  RangeConfig, RangeReader, range_fill, Filled, next, take_record, cut_end, max_bytes,
}
use s3_encryption_gateway.Range.Sizes.{
  IsRange, skip, suc_mul, mul_le, take_front_part, drop_front_part, take_shorter,
}
use s3_encryption_gateway.Range.Round.{Ahead, Fetched, fetch_record}

module _ (cfg : RangeConfig) (laws : AreAeads cfg.reader) (v : cfg.reader.version ≡ v2)
    (some_chunk : 0 < cfg.reader.chunk_size) (total : ℕ) (range : IsRange cfg total) where
  abbrev size : ℕ
  size = cfg.reader.chunk_size

  abbrev skipped : ℕ → ℕ
  skipped = skip cfg

  abbrev Coming : RangeReader → Bytes → Type 0
  Coming r future = Ahead cfg laws v some_chunk total range r.inner future

  -- The reader is still to hand out `t`, which is not empty.
  pub record Promise (r : RangeReader) (t : Bytes) : Type 0 where
    pub going : r.done ≡ false
    pub fine : r.error ≡ none
    pub some_left : 0 < length t
    pub amount : length t + r.inner.returned ≡ max_bytes cfg
    pub future : Bytes
    pub prefix : t ≡ take (length t) (r.pending ++ future)
    pub enough : length t ≤ length r.pending + length future
    pub ahead :
        (future ≡ [])
        ⊎ (Coming r future
            × (length t + (r.inner.chunk_index * size + skipped r.inner.chunk_index)
                ≡ length r.pending + (cfg.plain_end + 1)))

  cut_end_lem :
      (index n : ℕ) (text : Bytes)
      → (index ≡ cfg.range.end_chunk → n ≤ cfg.range.end_offset + 1)
      → n ≤ length text
      → (take n (cut_end cfg index text) ≡ take n text) × (n ≤ length (cut_end cfg index text))
  unfolding cut_end
  cut_end_lem index n text h l =
      elim (Bool-cases ((index == cfg.range.end_chunk) && ltb cfg.range.end_offset (length text))) [
        | inl c ↦
            let at_last : index ≡ cfg.range.end_chunk = ground (arith, c) in
            rw c (
              take_shorter n (cfg.range.end_offset + 1) text (h at_last),
              omega (arith, h at_last, l, length-take (cfg.range.end_offset + 1) text),
            )
        | inr c ↦ rw c (refl, l)
      ]

  cut_end_before :
      (index : ℕ) (text : Bytes) → index < cfg.range.end_chunk → cut_end cfg index text ≡ text
  unfolding cut_end
  cut_end_before index text h =
      let other : (index == cfg.range.end_chunk) ≡ false = ground arith in rw other refl

  skip_later : (index : ℕ) → cfg.range.start_chunk ≤ index → skipped (index + 1) ≡ 0
  unfolding skip
  skip_later index h =
      let other : (index + 1 == cfg.range.start_chunk) ≡ false = ground arith in rw other refl

  skip_within : (index : ℕ) → skipped index < size
  unfolding skip
  skip_within index = ground (arith, range.start_in)

  -- The record holds the next bytes of the range.
  holds_next :
      (r : RangeReader) (t future : Bytes)
      → length t + (r.inner.chunk_index * size + skipped r.inner.chunk_index) ≡ cfg.plain_end + 1
      → 0 < length t
      → r.inner.chunk_index ≤ cfg.range.end_chunk
      → (f : Fetched cfg laws v some_chunk total range r future)
      → (skipped r.inner.chunk_index < length f.part)
        × (r.inner.chunk_index ≡ cfg.range.end_chunk
            → (length t ≤ cfg.range.end_offset + 1)
              × (length t + skipped r.inner.chunk_index ≤ length f.part))
        × (r.inner.chunk_index < cfg.range.end_chunk → length f.part ≡ size)
  holds_next r t future reach some_left within f =
      let s = skip_within r.inner.chunk_index in
      let last_part : r.inner.chunk_index ≡ cfg.range.end_chunk
          → length t + skipped r.inner.chunk_index ≡ cfg.range.end_offset + 1 =
        λ e. omega (arith, reach, range.end_is, ap (λ k. k * size) e) in
      let is_full : r.inner.chunk_index < cfg.range.end_chunk → length f.part ≡ size = λ h. omega (
        arith,
        f.amount,
        f.position,
        range.end_is,
        range.inside,
        suc_mul cfg laws v some_chunk total range r.inner.chunk_index,
        mul_le cfg laws v some_chunk total range (r.inner.chunk_index + 1) cfg.range.end_chunk
            (omega (arith, h)),
      ) in
      (
        elim (Bool-cases (r.inner.chunk_index == cfg.range.end_chunk)) [
          | inl e ↦
              let i : r.inner.chunk_index ≡ cfg.range.end_chunk = ==→≡ _ _ e in
              omega (
                arith,
                last_part i,
                f.amount,
                f.position,
                range.end_is,
                range.end_in,
                range.inside,
                ap (λ k. k * size) i,
                some_left,
              )
          | inr e ↦ omega (arith, is_full (ground (arith, within, e)), s)
        ],
        λ e. (
          omega (arith, last_part e),
          omega (
            arith,
            last_part e,
            f.amount,
            f.position,
            range.end_is,
            range.end_in,
            range.inside,
            ap (λ k. k * size) e,
          ),
        ),
        is_full,
      )

  -- A round with nothing pending reads the next record and keeps the promise.
  pub round_total :
      (r : RangeReader) (t : Bytes)
      → r.pending ≡ []
      → Promise r t
      → (q : RangeReader) × (range_fill cfg r ≡ next q)
        × Promise q t
        × (length q.inner.source.bytes < length r.inner.source.bytes)
        × (r.inner.chunk_index ≤ cfg.range.end_chunk)
  unfolding take_record
  round_total r t empty w = elim w.ahead [
    | inl e ↦
        absurd
          (omega (arith, w.enough, w.some_left, ap (length {A = ℕ}) e, ap (length {A = ℕ}) empty))
    | inr (a, reach) ↦
        let index = r.inner.chunk_index in
        let reach_now : length t + (index * size + skipped index) ≡ cfg.plain_end + 1 =
          omega (arith, reach, ap (length {A = ℕ}) empty) in
        let f =
          fetch_record cfg laws v some_chunk total range r w.future
            (omega (arith, w.enough, w.some_left, ap (length {A = ℕ}) empty)) a in
        let (skip_in, at_last, is_full) =
          holds_next r t w.future reach_now w.some_left a.within f in
        let body = drop (skipped index) f.part in
        let body_length = length-drop (skipped index) f.part in
        let future_is : w.future ≡ body ++ f.text_rest =
          f.future_is
          ∙ drop_front_part (skipped index) f.part f.text_rest (omega (arith, skip_in)) in
        let t_is : t ≡ take (length t) (body ++ f.text_rest) =
          w.prefix
          ∙ ap (λ p. take (length t) (p ++ w.future)) empty
          ∙ ap (take (length t)) future_is in
        let kept = cut_end cfg index body in
        let q : RangeReader = record r {
          pending = r.pending ++ kept;
          inner = record r.inner { source = f.after; chunk_index = index + 1 };
        } in
        let pending_is : q.pending ≡ kept = ap (λ p. p ++ kept) empty in
        (
          q,
          f.filled skip_in,
          elim (Bool-cases (ltb index cfg.range.end_chunk)) [
            | inl more ↦
                let before : index < cfg.range.end_chunk = ltb→lt _ _ more in
                let whole = is_full before in
                let kept_is : kept ≡ body = cut_end_before index body before in
                let next_start = suc_mul cfg laws v some_chunk total range index in
                let later = skip_later index a.from_start in
                let no_wrap : wrap64 (index + 1) ≡ index + 1 =
                  omega (arith, at_most_times index, f.position, range.fits) in
                record {
                  going = w.going;
                  fine = w.fine;
                  some_left = w.some_left;
                  amount = w.amount;
                  future = f.text_rest;
                  prefix =
                      t_is
                      ∙ ap (λ x. take (length t) (x ++ f.text_rest)) (sym (pending_is ∙ kept_is));
                  enough = omega (
                    arith,
                    w.enough,
                    ap (length {A = ℕ}) empty,
                    ap (length {A = ℕ}) future_is,
                    length-append body f.text_rest,
                    ap (length {A = ℕ}) (pending_is ∙ kept_is),
                  );
                  ahead = inr (
                    record {
                      rest = f.text_rest;
                      tail = f.tail;
                      seals = rw (no_wrap, whole, sym next_start) at f.goes_on;
                      are_bytes = f.are_bytes;
                      position = omega (arith, f.position, next_start, whole);
                      from_start = omega (arith, a.from_start);
                      within = omega (arith, before);
                      future_is = ap (λ k. drop k f.text_rest) (sym later);
                      covered = elim f.covered [
                        | inl c ↦
                            let one : cfg.range.end_chunk + 1 - index
                                ≡ suc (cfg.range.end_chunk + 1 - (index + 1)) =
                              omega (arith, before) in
                            inl (
                              omega (
                                arith,
                                c whole,
                                ap (λ k. k * (size + tag_size)) one,
                                times_suc (cfg.range.end_chunk + 1 - (index + 1)) (size + tag_size),
                              ))
                        | inr c ↦ inr c
                      ];
                    },
                    omega (
                      arith,
                      reach_now,
                      later,
                      next_start,
                      body_length,
                      whole,
                      skip_in,
                      ap (length {A = ℕ}) (pending_is ∙ kept_is),
                    ),
                  );
                }
            | inr more ↦
                let here : index ≡ cfg.range.end_chunk = ground (arith, more, a.within) in
                let (short, inside) = at_last here in
                let fits : length t ≤ length body = omega (arith, inside, body_length) in
                let (same, long) = cut_end_lem index (length t) body (λ e. short) fits in
                record {
                  going = w.going;
                  fine = w.fine;
                  some_left = w.some_left;
                  amount = w.amount;
                  future = [];
                  prefix =
                      t_is
                      ∙ take_front_part (length t) body f.text_rest fits
                      ∙ sym same
                      ∙ ap (take (length t))
                          (sym (append-nil kept) ∙ ap (λ x. x ++ []) (sym pending_is));
                  enough = omega (arith, long, ap (length {A = ℕ}) pending_is);
                  ahead = inl refl;
                }
          ],
          f.falls,
          a.within,
        )
  ]
    where
      times_suc : (k u : ℕ) → suc k * u ≡ k * u + u
      times_suc k u = grind arith

      at_most_times : (k : ℕ) → k ≤ k * size
      at_most_times k = grind arith
