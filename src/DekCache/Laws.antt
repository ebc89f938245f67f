-- ===== src/DekCache/Laws.antt =====
-- The cache of unwrapped keys in every run of its critical sections: it holds what the inner key
-- manager gives, and no more entries than configured.
use mathlib.Core.Path.{subst}
use s3_encryption_gateway.Prelude.{
  ℕ, ◌≤◌, false, List, [], ◌∷◌, ◌++◌, Option, none, some, ltb, Bytes, equal_bytes, equal_bytes_refl,
  equal_bytes→≡, length, ◌≡◌, refl, sym, ap, ◌∙◌, ◌⊎◌, inl, inr, arith, Bool-cases, Option-cases,
}
use s3_encryption_gateway.DekCache.{
  CacheEntry, find_entry, delete_entry, is_expired, evict_step, evict_order, evict_lru,
}

abbrev pub Entry : Type 0
Entry = Bytes × CacheEntry

abbrev pub Holds : (Entry → Type 0) → List Entry → Type 0
Holds P [] = Unit
Holds P (e ∷ es) = P e × Holds P es

abbrev pub IsIn : Bytes → List Bytes → Type 0
IsIn fp [] = ⊥
IsIn fp (f ∷ fs) = (fp ≡ f) ⊎ IsIn fp fs

pub IsIn-front : (fp : Bytes) (fs gs : List Bytes) → IsIn fp fs → IsIn fp (fs ++ gs)
IsIn-front fp [] gs i = absurd i
IsIn-front fp (f ∷ fs) gs (inl e) = inl e
IsIn-front fp (f ∷ fs) gs (inr i) = inr (IsIn-front fp fs gs i)

pub IsIn-end : (fp g : Bytes) (fs : List Bytes) → fp ≡ g → IsIn fp (fs ++ g ∷ [])
IsIn-end fp g [] e = inl e
IsIn-end fp g (f ∷ fs) e = inr (IsIn-end fp g fs e)

pub Holds-impl :
    (P Q : Entry → Type 0) (es : List Entry) → ((e : Entry) → P e → Q e) → Holds P es → Holds Q es
Holds-impl P Q [] f h = tt
Holds-impl P Q (e ∷ es) f h = (f e h.0, Holds-impl P Q es f h.1)

-- Deleting keeps what holds of the others, which have another key.
pub Holds-delete_entry :
    (P Q : Entry → Type 0) (fp : Bytes) (es : List Entry)
    → ((e : Entry) → equal_bytes fp e.0 ≡ false → P e → Q e)
    → Holds P es
    → Holds Q (delete_entry fp es)
unfolding delete_entry
Holds-delete_entry P Q fp [] f h = tt
Holds-delete_entry P Q fp (e ∷ es) f h = elim (Bool-cases (equal_bytes fp e.0)) [
  | inl b ↦ rw b (Holds-delete_entry P Q fp es f h.1)
  | inr b ↦ rw b (f e b h.0, Holds-delete_entry P Q fp es f h.1)
]

length-delete_entry : (fp : Bytes) (es : List Entry) → length (delete_entry fp es) ≤ length es
unfolding delete_entry
length-delete_entry fp [] = omega arith
length-delete_entry fp (e ∷ es) = ground (arith, length-delete_entry fp es)

pub Holds-find_entry :
    (P : Entry → Type 0) (fp : Bytes) (es : List Entry) (c : CacheEntry)
    → Holds P es
    → find_entry fp es ≡ some c
    → P (fp, c)
unfolding find_entry
Holds-find_entry P fp [] c h e = absurd (ground arith)
Holds-find_entry P fp ((f, d) ∷ es) c h e = elim (Bool-cases (equal_bytes fp f)) [
  | inl b ↦ let same : d ≡ c = some-injective (rw b at e) in rw (equal_bytes→≡ fp f b, sym same) h.0
  | inr b ↦ Holds-find_entry P fp es c h.1 (rw b at e)
]
  where
    some-injective : {x y : CacheEntry} → ◌≡◌ {A = Option CacheEntry} (some x) (some y) → x ≡ y
    some-injective {x} p = ap (λ o. elim o [ none ↦ x | some z ↦ z ]) p

-- Without an entry for a key, no entry has that key.
absent :
    (fp : Bytes) (es : List Entry)
    → find_entry fp es ≡ none
    → Holds (λ e. equal_bytes fp e.0 ≡ false) es
unfolding find_entry
absent fp [] h = tt
absent fp (e ∷ es) h = elim (Bool-cases (equal_bytes fp e.0)) [
  | inl b ↦ absurd (ground arith)
  | inr b ↦ (b, absent fp es (rw b at h))
]

Holds-both :
    (P Q : Entry → Type 0) (es : List Entry) → Holds P es → Holds Q es → Holds (λ e. P e × Q e) es
Holds-both P Q [] h k = tt
Holds-both P Q (e ∷ es) h k = ((h.0, k.0), Holds-both P Q es h.1 k.1)

other_key :
    (fp f : Bytes) (fs : List Bytes) → equal_bytes fp f ≡ false → IsIn f (fp ∷ fs) → IsIn f fs
other_key fp f fs b (inl e) =
    absurd (ground (arith, ap (equal_bytes fp) e ∙ equal_bytes_refl fp, b))
other_key fp f fs b (inr i) = i

-- At most `most` entries, all with the property `P`, and all in the order.
pub record Kept (P : Entry → Type 0) (most : ℕ) (x : List Entry × List Bytes) : Type 0 where
  pub few : length x.0 ≤ most
  pub honest : Holds P x.0
  pub ordered : Holds (λ e. IsIn e.0 x.1) x.0

-- The eviction of the oldest entries.
pub evict_lru-Kept :
    (P : Entry → Type 0) (most : ℕ) (order : List Bytes) (es : List Entry)
    → Holds P es
    → Holds (λ e. IsIn e.0 order) es
    → Kept P most (evict_lru most order es)
unfolding evict_lru
evict_lru-Kept P most [] [] h k = record { few = omega arith; honest = tt; ordered = tt }
evict_lru-Kept P most [] (e ∷ es) h k = absurd k.0
evict_lru-Kept P most (fp ∷ fps) es h k = elim (Bool-cases (ltb most (length es))) [
  | inl b ↦ rw b (
      evict_lru-Kept P most fps (delete_entry fp es) (Holds-delete_entry P P fp es (λ e n p. p) h) (
        Holds-delete_entry (λ e. IsIn e.0 (fp ∷ fps)) (λ e. IsIn e.0 fps) fp es
          (λ e n i. other_key fp e.0 fps n i) k))
  | inr b ↦ rw b (record { few = ground (arith, b); honest = h; ordered = k })
]

evict_step_cases :
    (now : ℕ) (fp : Bytes) (es : List Entry) (kept : List Bytes)
    → ((find_entry fp es ≡ none) × (evict_step now fp (find_entry fp es) (es, kept) ≡ (es, kept)))
      ⊎ ((evict_step now fp (find_entry fp es) (es, kept) ≡ (delete_entry fp es, kept))
          ⊎ (evict_step now fp (find_entry fp es) (es, kept) ≡ (es, kept ++ fp ∷ [])))
unfolding evict_step
evict_step_cases now fp es kept = elim (Option-cases (find_entry fp es)) [
  | inl n ↦ inl (n, rw n refl)
  | inr (c, s) ↦ elim (Bool-cases (is_expired now c)) [
    | inl x ↦ inr (inl (rw (s, x) refl))
    | inr x ↦ inr (inr (rw (s, x) refl))
  ]
]

-- The eviction of expired entries.
pub evict_order-Kept :
    (P : Entry → Type 0) (now most : ℕ) (fps kept : List Bytes) (es : List Entry)
    → length es ≤ most
    → Holds P es
    → Holds (λ e. IsIn e.0 kept ⊎ IsIn e.0 fps) es
    → Kept P most (evict_order now fps (es, kept))
unfolding evict_order
evict_order-Kept P now most [] kept es l h k = record {
  few = l;
  honest = h;
  ordered =
      Holds-impl (λ e. IsIn e.0 kept ⊎ IsIn e.0 []) (λ e. IsIn e.0 kept) es
        (λ e i. elim i [ inl j ↦ j | inr j ↦ absurd j ]) k;
}
evict_order-Kept P now most (fp ∷ fps) kept es l h k =
    let continue : (y : List Entry × List Bytes)
        → evict_step now fp (find_entry fp es) (es, kept) ≡ y
        → Kept P most (evict_order now fps y)
        → Kept P most (evict_order now (fp ∷ fps) (es, kept)) =
      λ y e w. subst (λ z. Kept P most (evict_order now fps z)) (sym e) w in
    elim (evict_step_cases now fp es kept) [
      | inl (n, e) ↦
          continue (es, kept) e
            (evict_order-Kept P now most fps kept es l h (
              Holds-impl (λ e. (equal_bytes fp e.0 ≡ false) × (IsIn e.0 kept ⊎ IsIn e.0 (fp ∷ fps)))
                (λ e. IsIn e.0 kept ⊎ IsIn e.0 fps) es
                (λ e p. elim p.1 [ inl i ↦ inl i | inr i ↦ inr (other_key fp e.0 fps p.0 i) ])
                (Holds-both (λ e. equal_bytes fp e.0 ≡ false)
                  (λ e. IsIn e.0 kept ⊎ IsIn e.0 (fp ∷ fps)) es (absent fp es n) k)))
      | inr (inl e) ↦
          continue (delete_entry fp es, kept) e
            (evict_order-Kept P now most fps kept (delete_entry fp es)
              (omega (arith, l, length-delete_entry fp es))
              (Holds-delete_entry P P fp es (λ e n p. p) h)
              (Holds-delete_entry (λ e. IsIn e.0 kept ⊎ IsIn e.0 (fp ∷ fps))
                (λ e. IsIn e.0 kept ⊎ IsIn e.0 fps) fp es
                (λ e n i. elim i [ inl j ↦ inl j | inr j ↦ inr (other_key fp e.0 fps n j) ]) k))
      | inr (inr e) ↦
          continue (es, kept ++ fp ∷ []) e
            (evict_order-Kept P now most fps (kept ++ fp ∷ []) es l h (
              Holds-impl (λ e. IsIn e.0 kept ⊎ IsIn e.0 (fp ∷ fps))
                (λ e. IsIn e.0 (kept ++ fp ∷ []) ⊎ IsIn e.0 fps) es
                (λ e i. elim i [
                  | inl j ↦ inl (IsIn-front e.0 kept (fp ∷ []) j)
                  | inr (inl j) ↦ inl (IsIn-end e.0 fp kept j)
                  | inr (inr j) ↦ inr j
                ])
                k))
    ]
