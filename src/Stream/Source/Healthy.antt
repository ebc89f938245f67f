-- ===== src/Stream/Source/Healthy.antt =====
-- A source that gives its bytes and then the end of the file, under a context that is not cancelled.
use s3_encryption_gateway.Prelude.{
  ℕ, ◌<◌, ◌≤◌, Bool, false, List, [], ◌∷◌, ◌++◌, Option, none, Bytes, length, ◌≡◌, refl, ap, ◌∙◌,
  ◌⊎◌, inl, inr, arith, length-append,
}
use s3_encryption_gateway.Stream.Source.{
  Source, full, at_end, poll, poll_list, end_of, read_full, read_full-parts, bytes-poll,
}
use s3_encryption_gateway.Aad.Encoding.{append_split}

abbrev pub IsCalm : List Bool → Type 0
IsCalm [] = Unit
IsCalm (b ∷ bs) = (b ≡ false) × IsCalm bs

pub record IsHealthy (s : Source) : Type 0 where
  pub no_fault : s.fault ≡ none
  pub calm : IsCalm s.polls

poll_list-IsHealthy :
    (s : Source) (bs : List Bool)
    → s.fault ≡ none
    → IsCalm bs
    → ((poll_list s bs).cancelled ≡ false)
      × ((poll_list s bs).source.fault ≡ none)
      × (s.polls ≡ bs → IsCalm (poll_list s bs).source.polls)
unfolding poll_list
poll_list-IsHealthy s [] f c = (refl, f, λ e. rw e c)
poll_list-IsHealthy s (b ∷ bs) f c = (c.0, f, λ e. c.1)

-- A poll and a read of `size` bytes.
pub record Fetched (size : ℕ) (s : Source) : Type 0 where
  pub not_cancelled : (poll s).cancelled ≡ false
  pub splits :
      (read_full size (poll s).source).bytes ++ (read_full size (poll s).source).source.bytes
      ≡ s.bytes
  pub amount :
      ((length (read_full size (poll s).source).bytes ≡ size)
        × ((read_full size (poll s).source).result ≡ full))
      ⊎ ((length (read_full size (poll s).source).bytes < size)
          × ((read_full size (poll s).source).source.bytes ≡ [])
          × ((read_full size (poll s).source).result ≡ at_end))
  pub healthy : IsHealthy (read_full size (poll s).source).source

polls-read_full : (size : ℕ) (s : Source) → (read_full size s).source.polls ≡ s.polls
unfolding read_full
polls-read_full size s = ground arith

pub fetch : (size : ℕ) (s : Source) → IsHealthy s → Fetched size s
unfolding poll
fetch size s h =
    let k = poll_list-IsHealthy s s.polls h.no_fault h.calm in
    let g = read_full-parts size (poll s).source in
    record {
      not_cancelled = k.0;
      splits = g.splits ∙ bytes-poll s;
      amount = ends (poll s).source.fault k.1 g.amount;
      healthy = record {
        no_fault = g.same_fault ∙ k.1;
        calm = rw (polls-read_full size (poll s).source) (k.2 refl);
      };
    }
  where
    ends :
        (f : Option ℕ)
        → f ≡ none
        → ((length (read_full size (poll s).source).bytes ≡ size)
            × ((read_full size (poll s).source).result ≡ full))
          ⊎ ((length (read_full size (poll s).source).bytes < size)
              × ((read_full size (poll s).source).source.bytes ≡ [])
              × ((read_full size (poll s).source).result ≡ end_of f))
        → ((length (read_full size (poll s).source).bytes ≡ size)
            × ((read_full size (poll s).source).result ≡ full))
          ⊎ ((length (read_full size (poll s).source).bytes < size)
              × ((read_full size (poll s).source).source.bytes ≡ [])
              × ((read_full size (poll s).source).result ≡ at_end))
    ends f e (inl x) = inl x
    ends f e (inr (x, y, z)) = inr (x, y, z ∙ ap end_of e)

cut_length :
    (size : ℕ) (xs us ys vs : Bytes)
    → length (xs ++ us) ≡ length (ys ++ vs)
    → (length xs ≡ size) ⊎ ((length xs < size) × (us ≡ []))
    → length ys ≤ size
    → (length ys ≡ size) ⊎ (vs ≡ [])
    → length xs ≡ length ys
cut_length size xs us ys vs e (inl a) m (inl f) = omega arith
cut_length size xs us ys vs e (inl a) m (inr f) =
    omega (arith, length-append xs us, length-append ys vs, ap (length {A = ℕ}) f)
cut_length size xs us ys vs e (inr a) m (inl f) =
    omega (arith, length-append xs us, length-append ys vs, ap (length {A = ℕ}) a.1)
cut_length size xs us ys vs e (inr a) m (inr f) = omega (
  arith,
  length-append xs us,
  length-append ys vs,
  ap (length {A = ℕ}) a.1,
  ap (length {A = ℕ}) f,
)

-- A text cut in two ways at the same place, or by both at its end.
pub cut_unique :
    (size : ℕ) (xs us ys vs : Bytes)
    → xs ++ us ≡ ys ++ vs
    → (length xs ≡ size) ⊎ ((length xs < size) × (us ≡ []))
    → length ys ≤ size
    → (length ys ≡ size) ⊎ (vs ≡ [])
    → (xs ≡ ys) × (us ≡ vs)
cut_unique size xs us ys vs e a m f =
    append_split xs ys (cut_length size xs us ys vs (ap (length {A = ℕ}) e) a m f) e

pub Fetched-amount :
    (size : ℕ) (s : Source)
    → Fetched size s
    → (length (read_full size (poll s).source).bytes ≡ size)
      ⊎ ((length (read_full size (poll s).source).bytes < size)
          × ((read_full size (poll s).source).source.bytes ≡ []))
Fetched-amount size s f = elim f.amount [ inl x ↦ inl x.0 | inr x ↦ inr (x.0, x.1) ]

front_nil : (xs ys : Bytes) → xs ++ ys ≡ [] → xs ≡ []
front_nil [] ys e = refl
front_nil (x ∷ xs) ys e = absurd (cc)

pub Fetched-nothing :
    (size : ℕ) (s : Source)
    → Fetched size s
    → 0 < size
    → s.bytes ≡ []
    → ((read_full size (poll s).source).bytes ≡ [])
      × ((read_full size (poll s).source).result ≡ at_end)
Fetched-nothing size s f h e = elim f.amount [
  | inl x ↦ absurd (
      omega (
        arith,
        x.0,
        ap (length {A = ℕ}) (f.splits ∙ e),
        length-append (read_full size (poll s).source).bytes
            (read_full size (poll s).source).source.bytes,
      ))
  | inr x ↦ (front_nil _ _ (f.splits ∙ e), x.2)
]
