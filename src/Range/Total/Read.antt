-- ===== src/Range/Total/Read.antt =====
-- Reading a range to its end.
pub mod Sliced
use mathlib.Core.List.{append-nil, append_assoc}
use s3_encryption_gateway.Prelude.{
  ℕ, zero, suc, ◌+◌, ◌-◌, ◌≤◌, ◌<◌, Bool, true, false, ◌&&◌, ◌||◌, List, [], ◌∷◌, ◌++◌, none, ltb,
  leb, ◌==◌, min, if◌then◌else◌, Bytes, length, take, drop, ◌≡◌, refl, sym, ap, ◌∙◌, ◌⊎◌, inl, inr,
  arith, Bool-cases, length-append, length-take, length-drop, take-append-drop, take_past,
}
use s3_encryption_gateway.Chunk.{v2}
use s3_encryption_gateway.Stream.Loop.{ReadResult, more, eof}
use s3_encryption_gateway.Stream.Loop.Laws.{eq-nil_of}
use s3_encryption_gateway.Stream.Loop.Drain.{drain, after, ArePositive}
use s3_encryption_gateway.Stream.Decrypt.Sound.{AreAeads}
use s3_encryption_gateway.Range.{
  RangeConfig, RangeState, RangeReader, range_fill, next, range_loop, range_read, max_bytes,
  after_fill,
}
use s3_encryption_gateway.Range.Sizes.{IsRange}
use s3_encryption_gateway.Range.Total.{Promise, round_total}

module _ (cfg : RangeConfig) (laws : AreAeads cfg.reader) (v : cfg.reader.version ≡ v2)
    (some_chunk : 0 < cfg.reader.chunk_size) (total : ℕ) (range : IsRange cfg total) where
  abbrev Kept : RangeReader → Bytes → Type 0
  Kept = Promise cfg laws v some_chunk total range

  -- What the loop hands out of `t`: a full buffer with more to come, or all of it.
  data Gives (want : ℕ) (t : Bytes) (x : ReadResult RangeState) : Type 0 where
    filled :
        (rest : Bytes)
        → x.outcome ≡ more
        → length x.out ≡ want
        → t ≡ x.out ++ rest
        → Kept x.reader rest
        → Gives want t x
    ended : x.outcome ≡ eof → x.out ≡ t → Gives want t x

  -- What is left of `t` after `n` pending bytes.
  abbrev left_of : ℕ → RangeReader → Bytes → Bytes → Bytes
  left_of n r t future = take (length t - n) (drop n r.pending ++ future)

  split_pending :
      (n : ℕ) (r : RangeReader) (t : Bytes) (w : Kept r t)
      → n ≤ length r.pending
      → n ≤ length t
      → t ≡ take n r.pending ++ left_of n r t w.future
  split_pending n r t w h k =
      let cut : r.pending ++ w.future ≡ take n r.pending ++ (drop n r.pending ++ w.future) =
        ap (λ x. x ++ w.future) (sym (take-append-drop n r.pending))
        ∙ append_assoc (take n r.pending) (drop n r.pending) w.future in
      w.prefix
      ∙ ap (take (length t)) cut
      ∙ take_past (length t) (length t - n) (take n r.pending) (drop n r.pending ++ w.future)
          (omega (arith, length-take n r.pending, h, k))

  abbrev copied : ℕ → RangeReader → RangeReader
  copied n r = record r {
    pending = drop n r.pending;
    inner = record r.inner { returned = r.inner.returned + n };
  }

  copied_total :
      (n : ℕ) (r : RangeReader) (t : Bytes) (w : Kept r t)
      → n ≤ length r.pending
      → n < length t
      → Kept (copied n r) (left_of n r t w.future)
  copied_total n r t w h k =
      let l = length-drop n r.pending in
      let s : length (left_of n r t w.future) ≡ length t - n = omega (
        arith,
        length-take (length t - n) (drop n r.pending ++ w.future),
        length-append (drop n r.pending) w.future,
        l,
        w.enough,
        h,
      ) in
      record {
        going = w.going;
        fine = w.fine;
        some_left = omega (arith, s, k);
        amount = omega (arith, s, k, w.amount);
        future = w.future;
        prefix = ap (λ j. take j (drop n r.pending ++ w.future)) (sym s);
        enough = omega (arith, s, l, w.enough, h);
        ahead = elim w.ahead [
          | inl e ↦ inl e
          | inr (a, e) ↦ inr (
            record {
              rest = a.rest;
              tail = a.tail;
              seals = a.seals;
              are_bytes = a.are_bytes;
              position = a.position;
              from_start = a.from_start;
              within = a.within;
              future_is = a.future_is;
              covered = a.covered;
            },
            omega (arith, s, l, e, h, k),
          )
        ];
      }

  prepended :
      (want n : ℕ) (t front rest : Bytes) (x : ReadResult RangeState)
      → n ≤ want
      → length front ≡ n
      → t ≡ front ++ rest
      → Gives (want - n) rest x
      → Gives want t (record { out = front ++ x.out; outcome = x.outcome; reader = x.reader })
  prepended want n t front rest x h l e (filled later o k s w) =
      filled later o (omega (arith, length-append front x.out, l, k, h))
        (e ∙ ap (λ y. front ++ y) s ∙ sym (append_assoc front x.out later)) w
  prepended want n t front rest x h l e (ended o s) = ended o (ap (λ y. front ++ y) s ∙ sym e)

  loop_total :
      (fuel : ℕ) (r : RangeReader) (want copied_before : ℕ) (t : Bytes)
      → want + length r.inner.source.bytes < fuel
      → Kept r t
      → Gives want t (range_loop fuel cfg r want copied_before)
  unfolding range_loop after_fill
  loop_total zero r want before t h w = absurd (omega arith)
  loop_total (suc fuel) r want before t h w =
      let to_give : leb (max_bytes cfg) r.inner.returned ≡ false =
        ground (arith, w.amount, w.some_left) in
      let n = min (min (length r.pending) (max_bytes cfg - r.inner.returned)) want in
      elim (Bool-cases (want == 0)) [
        | inl z ↦ rw z (filled t refl (ground (arith, z)) refl w)
        | inr z ↦ elim (Bool-cases (ltb 0 (length r.pending))) [
          | inl p ↦
              let some_room : 0 < want = ground (arith, z) in
              let some_pending : 0 < length r.pending = ground (arith, p) in
              let at_most : n ≤ length t = omega (arith, w.amount) in
              let front_length : length (take n r.pending) ≡ n =
                omega (arith, length-take n r.pending) in
              let cut = split_pending n r t w (omega arith) at_most in
              elim (Bool-cases (leb (max_bytes cfg) (r.inner.returned + n))) [
                | inl e ↦
                    let none_left : length t - n ≡ 0 = ground (arith, e, w.amount, at_most) in
                    rw (z, to_give, p, e)
                      (ended refl (
                        sym (
                          cut
                          ∙ ap (λ k. take n r.pending ++ take k (drop n r.pending ++ w.future))
                              none_left
                          ∙ append-nil (take n r.pending))))
                | inr e ↦
                    rw (z, to_give, p, e)
                      (prepended want n t (take n r.pending) (left_of n r t w.future)
                        (range_loop fuel cfg (copied n r) (want - n) (before + n)) (omega arith)
                        front_length cut
                        (loop_total fuel (copied n r) (want - n) (before + n)
                          (left_of n r t w.future)
                          (omega (arith, some_room, some_pending, w.amount, w.some_left))
                          (copied_total n r t w (omega arith) (ground (arith, e, w.amount)))))
              ]
          | inr p ↦
              let (q, e, k, falls, within) =
                round_total cfg laws v some_chunk total range r t (eq-nil_of r.pending p) w in
              let not_past : ltb cfg.range.end_chunk r.inner.chunk_index ≡ false =
                ground (arith, within) in
              rw (z, to_give, p, not_past, e)
                (loop_total fuel q want before t (omega (arith, falls)) k)
        ]
      ]

  read_total :
      (r : RangeReader) (want : ℕ) (t : Bytes) → Kept r t → Gives want t (range_read cfg r want)
  unfolding range_read
  read_total r want t w =
      simp (w.going, w.fine)
        (loop_total (want + length r.inner.source.bytes + 1) r want 0 t (omega arith) w)

  pub range_drain_total :
      (ws : List ℕ) (r : RangeReader) (t : Bytes)
      → ArePositive ws
      → length t ≤ length ws
      → Promise cfg laws v some_chunk total range r t
      → drain (range_read cfg) ws r ≡ (t, eof)
  unfolding drain after
  range_drain_total [] r t p l w = absurd (omega (arith, w.some_left))
  range_drain_total (k ∷ ws) r t p l w =
      go (read_total r k t w) (λ q u h. range_drain_total ws q u p.1 h)
    where
      go :
          Gives k t (range_read cfg r k)
          → ((q : RangeReader) (u : Bytes)
              → length u ≤ length ws
              → Kept q u
              → drain (range_read cfg) ws q ≡ (u, eof))
          → after
              (range_read cfg r k).outcome
              (range_read cfg r k).out
              (drain (range_read cfg) ws (range_read cfg r k).reader)
            ≡ (t, eof)
      go (filled rest o n s q) ih =
          rw
            (
              o,
              ih (range_read cfg r k).reader rest
                  (omega (
                    arith,
                    n,
                    p.0,
                    ap (length {A = ℕ}) s,
                    length-append (range_read cfg r k).out rest,
                  ))
                  q,
            )
            (ap (λ y. (y, eof)) (sym s))
      go (ended o s) ih = rw (o, s) refl
