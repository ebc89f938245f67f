-- ===== src/Stream/Loop/Laws.antt =====
-- What the loop hands out, and that it ends: for any kind of reader whose filling step keeps an
-- account of the output still to come.
use mathlib.Core.List.{append_assoc}
use s3_encryption_gateway.Prelude.{
  ℕ, zero, suc, ◌+◌, ◌-◌, ◌≤◌, ◌<◌, true, false, List, [], ◌∷◌, ◌++◌, ltb, ◌==◌, min, if◌then◌else◌,
  Bytes, length, take, drop, ◌≡◌, refl, sym, ap, ◌∙◌, ◌⊎◌, inl, inr, arith, length-append,
  length-take, take-append-drop, Bool-cases, ==_iff,
}
use s3_encryption_gateway.Stream.Loop.{Reader, read_loop, is_some}

pub eq-nil_of {ℓ} : {A : Type ℓ} (xs : List A) → ltb 0 (length xs) ≡ false → xs ≡ []
eq-nil_of [] h = refl
eq-nil_of (x ∷ xs) h = absurd (ground arith)

-- `copy(p[written:], r.pending)` and the rest of the loop.
abbrev pub after_copy {ℓ} :
    {S : Type ℓ} (fill : Reader S → Reader S) → ℕ → Reader S → ℕ → Bytes × Reader S
after_copy fill fuel r want =
    let n = min want (length r.pending) in
    let rest = read_loop fill fuel (record r { pending = drop n r.pending }) (want - n) in
    (take n r.pending ++ rest.0, rest.1)

-- The five ways in which a round of the loop goes.
pub data Round {ℓ} {S : Type ℓ} (fill : Reader S → Reader S) (fuel : ℕ) (r : Reader S) (want : ℕ)
    : Bytes × Reader S → Type ℓ where
  enough : want ≡ 0 → Round fill fuel r want ([], r)
  copied :
      0 < want
      → ltb 0 (length r.pending) ≡ true
      → Round fill fuel r want (after_copy fill fuel r want)
  finished : ltb 0 (length r.pending) ≡ false → r.done ≡ true → Round fill fuel r want ([], r)
  broken :
      ltb 0 (length r.pending) ≡ false
      → r.done ≡ false
      → is_some (fill r).error ≡ true
      → Round fill fuel r want ([], fill r)
  refilled :
      ltb 0 (length r.pending) ≡ false
      → r.done ≡ false
      → is_some (fill r).error ≡ false
      → Round fill fuel r want (read_loop fill fuel (fill r) want)

pub round {ℓ} :
    {S : Type ℓ} (fill : Reader S → Reader S) (fuel : ℕ) (r : Reader S) (want : ℕ)
    → Round fill fuel r want (read_loop fill (suc fuel) r want)
unfolding read_loop
round fill fuel r want = elim (Bool-cases (want == 0)) [
  | inl z ↦ rw z (enough (omega (arith, (==_iff want 0).0 z)))
  | inr z ↦ elim (Bool-cases (ltb 0 (length r.pending))) [
    | inl p ↦ rw (z, p) (copied (ground arith) p)
    | inr p ↦ elim (Bool-cases r.done) [
      | inl d ↦ rw (z, p) (simp d (finished p d))
      | inr d ↦ elim (Bool-cases (is_some (fill r).error)) [
        | inl e ↦ rw (z, p) (simp (d, e) (broken p d e))
        | inr e ↦ rw (z, p) (simp (d, e) (refilled p d e))
      ]
    ]
  ]
]

module _ {ℓ} {S : Type ℓ} (Rest : S → Bytes → Type 0) where
  -- The output still to come from `r` may be `t`.
  pub record Remaining (r : Reader S) (t : Bytes) : Type 0 where
    pub later : Bytes
    pub splits : t ≡ r.pending ++ later
    pub at_end : r.done ≡ true → later ≡ []
    pub before_end : r.done ≡ false → Rest r.inner later

module _ {ℓ} {S : Type ℓ} (fill : Reader S → Reader S) (Rest : S → Bytes → Type 0) where
  module _
      (step : (r : Reader S)
        → r.pending ≡ []
        → r.done ≡ false
        → is_some (fill r).error ≡ false
        → (u : Bytes) → Remaining Rest (fill r) u
        → Rest r.inner u) where
    Remaining-copied :
        (r : Reader S) (n : ℕ) (out t : Bytes)
        → Remaining Rest (record r { pending = drop n r.pending }) (out ++ t)
        → Remaining Rest r ((take n r.pending ++ out) ++ t)
    Remaining-copied r n out t m = record {
      later = m.later;
      splits =
          append_assoc (take n r.pending) out t
          ∙ ap (λ x. take n r.pending ++ x) m.splits
          ∙ sym (append_assoc (take n r.pending) (drop n r.pending) m.later)
          ∙ ap (λ x. x ++ m.later) (take-append-drop n r.pending);
      at_end = m.at_end;
      before_end = m.before_end;
    }

    Remaining-refilled :
        (r : Reader S) (u : Bytes)
        → ltb 0 (length r.pending) ≡ false
        → r.done ≡ false
        → is_some (fill r).error ≡ false
        → Remaining Rest (fill r) u
        → Remaining Rest r u
    Remaining-refilled r u empty going fine m =
        let e = eq-nil_of r.pending empty in
        record {
          later = u;
          splits = rw e;
          at_end = λ d. cc;
          before_end = λ d. step r e going fine u m;
        }

    -- What one run of the loop hands out is the first part of what was to come.
    pub read_loop-Remaining :
        (fuel : ℕ) (r : Reader S) (want : ℕ) (t : Bytes)
        → is_some (read_loop fill fuel r want).1.error ≡ false
        → Remaining Rest (read_loop fill fuel r want).1 t
        → Remaining Rest r ((read_loop fill fuel r want).0 ++ t)
    unfolding read_loop
    read_loop-Remaining zero r want t fine m = m
    read_loop-Remaining (suc fuel) r want t fine m =
        go (read_loop fill (suc fuel) r want) (round fill fuel r want) fine m
          (λ q k. read_loop-Remaining fuel q k t)
      where
        go :
            (x : Bytes × Reader S)
            → Round fill fuel r want x
            → is_some x.1.error ≡ false
            → Remaining Rest x.1 t
            → ((q : Reader S) (k : ℕ)
                → is_some (read_loop fill fuel q k).1.error ≡ false
                → Remaining Rest (read_loop fill fuel q k).1 t
                → Remaining Rest q ((read_loop fill fuel q k).0 ++ t))
            → Remaining Rest r (x.0 ++ t)
        go x (enough z) f m ih = m
        go x (copied z p) f m ih =
            let n = min want (length r.pending) in
            let q : Reader S = record r { pending = drop n r.pending } in
            Remaining-copied r n (read_loop fill fuel q (want - n)).0 t (ih q (want - n) f m)
        go x (finished p d) f m ih = m
        go x (broken p d e) f m ih = absurd (ground arith)
        go x (refilled p d e) f m ih =
            Remaining-refilled r ((read_loop fill fuel (fill r) want).0 ++ t) p d e
              (ih (fill r) want f m)

module _ {ℓ} {S : Type ℓ} (fill : Reader S → Reader S) (measure : Reader S → ℕ) where
  module _
      (falls : (r : Reader S)
        → r.pending ≡ []
        → r.done ≡ false
        → is_some (fill r).error ≡ false
        → ((fill r).done ≡ true) ⊎ (measure (fill r) < measure r))
      (copies : (r : Reader S) (p : Bytes) → measure (record r { pending = p }) ≡ measure r) where
    abbrev left : Reader S → ℕ
    left r = if r.done then 0 else suc (measure r)

    abbrev Ends : ℕ → Bytes × Reader S → Type 0
    Ends want x =
        (is_some x.1.error ≡ true)
        ⊎ ((length x.0 ≡ want) ⊎ ((x.1.done ≡ true) × (x.1.pending ≡ [])))

    Ends-append :
        (want n : ℕ) (x : Bytes × Reader S) (p : Bytes)
        → length p ≡ n
        → n ≤ want
        → Ends (want - n) x
        → Ends want (p ++ x.0, x.1)
    Ends-append want n x p e h (inl f) = inl f
    Ends-append want n x p e h (inr (inl l)) = inr (inl (omega (arith, length-append p x.0)))
    Ends-append want n x p e h (inr (inr d)) = inr (inr d)

    -- With this much fuel the loop ends in one of the three ways of the code.
    pub read_loop-Ends :
        (fuel : ℕ) (r : Reader S) (want : ℕ)
        → want + left r < fuel
        → Ends want (read_loop fill fuel r want)
    read_loop-Ends zero r want h = absurd (omega arith)
    read_loop-Ends (suc fuel) r want h =
        go (read_loop fill (suc fuel) r want) (round fill fuel r want)
          (λ q k. read_loop-Ends fuel q k)
      where
        go :
            (x : Bytes × Reader S)
            → Round fill fuel r want x
            → ((q : Reader S) (k : ℕ) → k + left q < fuel → Ends k (read_loop fill fuel q k))
            → Ends want x
        go x (enough z) ih = inr (inl (omega arith))
        go x (copied z p) ih =
            let n = min want (length r.pending) in
            let q : Reader S = record r { pending = drop n r.pending } in
            let l = length-take n r.pending in
            Ends-append want n (read_loop fill fuel q (want - n)) (take n r.pending) (omega arith)
              (omega arith) (ih q (want - n) (ground (arith, copies r (drop n r.pending))))
        go x (finished p d) ih = inr (inr (d, eq-nil_of r.pending p))
        go x (broken p d e) ih = inl e
        go x (refilled p d e) ih =
            ih (fill r) want (ground (arith, falls r (eq-nil_of r.pending p) d e))
