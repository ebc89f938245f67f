-- ===== src/Stream/Loop/Total.antt =====
-- Total correctness of the loop: a reader that keeps its promise hands out exactly what it owes.
use mathlib.Core.List.{append_assoc}
use s3_encryption_gateway.Prelude.{
  ℕ, zero, suc, ◌-◌, ◌<◌, true, false, List, [], ◌∷◌, ◌++◌, none, ltb, min, Bytes, length, take,
  drop, ◌≡◌, refl, sym, ap, ◌∙◌, arith, length-append, take-append-drop,
}
use s3_encryption_gateway.Stream.Loop.{Reader, read_loop, ReadResult, more, eof}
use s3_encryption_gateway.Stream.Loop.Laws.{
  Round, enough, copied, finished, broken, refilled, round, eq-nil_of,
}
use s3_encryption_gateway.Stream.Loop.Drain.{drain, after, ArePositive}

module _ {ℓ} {S : Type ℓ} (Ready : S → Bytes → Type 0) where
  -- The reader has no error, and owes its client the bytes `t`.
  pub record Owes (r : Reader S) (t : Bytes) : Type 0 where
    pub fine : r.error ≡ none
    pub later : Bytes
    pub splits : t ≡ r.pending ++ later
    pub at_end : r.done ≡ true → later ≡ []
    pub before_end : r.done ≡ false → Ready r.inner later

  -- What is left to owe, after the bytes `out` of `t`.
  pub record Leaves (t out : Bytes) (r : Reader S) : Type 0 where
    pub rest : Bytes
    pub adds_up : t ≡ out ++ rest
    pub owes : Owes r rest

module _ {ℓ} {S : Type ℓ} (fill : Reader S → Reader S) (Ready : S → Bytes → Type 0)
    (step : (r : Reader S) (t : Bytes)
      → r.pending ≡ []
      → r.done ≡ false
      → r.error ≡ none
      → Ready r.inner t
      → Owes Ready (fill r) t) where
  fill-Owes :
      (r : Reader S) (t : Bytes)
      → ltb 0 (length r.pending) ≡ false
      → r.done ≡ false
      → Owes Ready r t
      → Owes Ready (fill r) t
  fill-Owes r t p d w =
      let e = eq-nil_of r.pending p in
      step r t e d w.fine (rw (w.splits ∙ ap (λ x. x ++ w.later) e) (w.before_end d))

  copy-Owes :
      (r : Reader S) (n : ℕ) (t : Bytes)
      → Owes Ready r t
      → Leaves Ready t (take n r.pending) (record r { pending = drop n r.pending })
  copy-Owes r n t w = record {
    rest = drop n r.pending ++ w.later;
    adds_up =
        w.splits
        ∙ ap (λ x. x ++ w.later) (sym (take-append-drop n r.pending))
        ∙ append_assoc (take n r.pending) (drop n r.pending) w.later;
    owes = record {
      fine = w.fine;
      later = w.later;
      splits = refl;
      at_end = w.at_end;
      before_end = w.before_end;
    };
  }

  -- The loop hands out the first part of what the reader owes, and keeps the promise.
  pub read_loop-Owes :
      (fuel : ℕ) (r : Reader S) (want : ℕ) (t : Bytes)
      → Owes Ready r t
      → Leaves Ready t (read_loop fill fuel r want).0 (read_loop fill fuel r want).1
  unfolding read_loop
  read_loop-Owes zero r want t w = record { rest = t; adds_up = refl; owes = w }
  read_loop-Owes (suc fuel) r want t w =
      go (read_loop fill (suc fuel) r want) (round fill fuel r want)
        (λ q k u. read_loop-Owes fuel q k u)
    where
      go :
          (x : Bytes × Reader S)
          → Round fill fuel r want x
          → ((q : Reader S) (k : ℕ) (u : Bytes)
              → Owes Ready q u
              → Leaves Ready u (read_loop fill fuel q k).0 (read_loop fill fuel q k).1)
          → Leaves Ready t x.0 x.1
      go x (enough z) ih = record { rest = t; adds_up = refl; owes = w }
      go x (copied z p) ih =
          let n = min want (length r.pending) in
          let q : Reader S = record r { pending = drop n r.pending } in
          let c = copy-Owes r n t w in
          let l = ih q (want - n) c.rest c.owes in
          record {
            rest = l.rest;
            adds_up =
                c.adds_up
                ∙ ap (λ u. take n r.pending ++ u) l.adds_up
                ∙ sym (append_assoc (take n r.pending) (read_loop fill fuel q (want - n)).0 l.rest);
            owes = l.owes;
          }
      go x (finished p d) ih = record { rest = t; adds_up = refl; owes = w }
      go x (broken p d e) ih = absurd (ground (arith, (fill-Owes r t p d w).fine))
      go x (refilled p d e) ih = ih (fill r) want t (fill-Owes r t p d w)

module _ {ℓ κ} {S : Type ℓ} {X : Type κ} (fill : Reader S → Reader S) (f : S → X)
    (keeps : (r : Reader S) → f (fill r).inner ≡ f r.inner) where
  -- What no round changes is the same after the loop.
  pub read_loop_keeps :
      (fuel : ℕ) (r : Reader S) (want : ℕ) → f (read_loop fill fuel r want).1.inner ≡ f r.inner
  unfolding read_loop
  read_loop_keeps zero r want = refl
  read_loop_keeps (suc fuel) r want =
      go (read_loop fill (suc fuel) r want) (round fill fuel r want)
        (λ q k. read_loop_keeps fuel q k)
    where
      go :
          (x : Bytes × Reader S)
          → Round fill fuel r want x
          → ((q : Reader S) (k : ℕ) → f (read_loop fill fuel q k).1.inner ≡ f q.inner)
          → f x.1.inner ≡ f r.inner
      go x (enough z) ih = refl
      go x (copied z p) ih =
          ih (record r { pending = drop (min want (length r.pending)) r.pending })
            (want - min want (length r.pending))
      go x (finished p d) ih = refl
      go x (broken p d e) ih = keeps r
      go x (refilled p d e) ih = ih (fill r) want ∙ keeps r

-- What a read does for a reader that owes `t`: it hands out the next bytes, at least one, or it has
-- nothing left and reports the end of the file.
pub data Delivers {ℓ} {S : Type ℓ} (P : Reader S → Bytes → Type 0) (t : Bytes) (x : ReadResult S)
    : Type ℓ where
  part :
      (rest : Bytes)
      → x.outcome ≡ more
      → t ≡ x.out ++ rest
      → 0 < length x.out
      → P x.reader rest
      → Delivers P t x
  end : x.outcome ≡ eof → t ≡ [] → x.out ≡ [] → Delivers P t x

module _ {ℓ} {S : Type ℓ} (read : Reader S → ℕ → ReadResult S) (P : Reader S → Bytes → Type 0)
    (delivers : (r : Reader S) (w : ℕ) (t : Bytes) → 0 < w → P r t → Delivers P t (read r w)) where
  -- A client with more reads than there are bytes gets them all, and the end of the file.
  pub drain_total :
      (ws : List ℕ) (r : Reader S) (t : Bytes)
      → ArePositive ws
      → length t < length ws
      → P r t
      → drain read ws r ≡ (t, eof)
  unfolding drain after
  drain_total [] r t p l w = absurd (omega arith)
  drain_total (k ∷ ws) r t p l w =
      go (delivers r k t p.0 w) (λ u. drain_total ws (read r k).reader u p.1)
    where
      go :
          Delivers P t (read r k)
          → ((u : Bytes)
              → length u < length ws
              → P (read r k).reader u
              → drain read ws (read r k).reader ≡ (u, eof))
          → after (read r k).outcome (read r k).out (drain read ws (read r k).reader) ≡ (t, eof)
      go (part rest o e s v) ih =
          rw
            (o, ih rest (omega (arith, ap (length {A = ℕ}) e, length-append (read r k).out rest)) v)
            (rw e refl)
      go (end o e f) ih = rw (o, e, f) refl
