-- ===== src/Manifest/Layout.antt =====
-- What a manifest that passes the check is like.
use native.Mathlib.Nat.{div-add-mod', mod-lt}
use s3_encryption_gateway.Prelude.{
  ℕ, ◌+◌, ◌-◌, ◌*◌, ◌≤◌, ◌<◌, not, ◌&&◌, ◌||◌, List, [], ◌∷◌, ◌==◌, length, ℤ, pos, pos_part,
  neg_part, ltb_ℤ, max_int64, ok, reject, reject_passed, bind_passed, if_passed, and_passed,
  ok-injective, sym, or_passed, not_passed, not_negative, ltb→le, ==→≡, not_below, is_below, ◌≡◌,
  refl, ap, ◌∙◌, arith, inl, inr, ◌⊎◌,
}
use s3_encryption_gateway.Chunk.{max_chunk_size}
use s3_encryption_gateway.Prelude.{ltb}
use s3_encryption_gateway.Chunk.Count.{IsCount}
use s3_encryption_gateway.Manifest.{
  invalid_part, invalid_total, total_mismatch, invalid_chunk_size, invalid_count,
  inconsistent_sizes, MpuPartRecord, MultipartManifest, Tally, part_chunks, check_sums, check_sizes,
  check_part, check_parts, check_layout, validate_layout, no_parts, max_int32,
}

-- A part: its number is in range, its sizes are not negative, its chunk count is that of its
-- plaintext, and its ciphertext has one tag for each chunk.
pub record IsPart (chunk_size : ℕ) (p : MpuPartRecord) : Type 0 where
  pub number_positive : 0 < pos_part p.part_number
  pub number_bound : pos_part p.part_number ≤ 10000
  pub count_is : IsCount (pos_part p.plain_len) chunk_size (pos_part p.chunk_count)
  pub count_bound : pos_part p.chunk_count ≤ max_int32
  pub plain_sign : p.plain_len ≡ pos (pos_part p.plain_len)
  pub enc_sign : p.enc_len ≡ pos (pos_part p.enc_len)
  pub count_sign : p.chunk_count ≡ pos (pos_part p.chunk_count)
  pub enc_is : pos_part p.enc_len ≡ pos_part p.plain_len + pos_part p.chunk_count * 16

-- Parts whose numbers rise from `previous` on.
abbrev pub AreParts : ℕ → ℕ → List MpuPartRecord → Type 0
AreParts chunk_size previous [] = Unit
AreParts chunk_size previous (p ∷ ps) =
    IsPart chunk_size p
    × (previous < pos_part p.part_number)
    × AreParts chunk_size (pos_part p.part_number) ps

abbrev pub sum_plain : List MpuPartRecord → ℕ
sum_plain [] = 0
sum_plain (p ∷ ps) = pos_part p.plain_len + sum_plain ps

abbrev pub sum_enc : List MpuPartRecord → ℕ
sum_enc [] = 0
sum_enc (p ∷ ps) = pos_part p.enc_len + sum_enc ps

part_chunks-IsCount : (cs plain : ℕ) → 0 < cs → IsCount plain cs (part_chunks cs plain)
unfolding part_chunks
part_chunks-IsCount cs plain h = grind (arith, div-add-mod' plain cs, mod-lt plain {m = cs} h)

check_sums_inv :
    (count : ℕ) (t u : Tally) (p : MpuPartRecord)
    → t.total_enc ≤ max_int64
    → check_sums count t p ≡ ok u
    → (pos_part p.enc_len ≡ pos_part p.plain_len + count * 16)
      × (u.previous ≡ p.part_number)
      × (u.total_plain ≡ t.total_plain + pos_part p.plain_len)
      × (u.total_enc ≡ t.total_enc + pos_part p.enc_len)
      × (u.total_enc ≤ max_int64)
unfolding check_sums
check_sums_inv count t u p b e =
    let e1 = reject_passed _ inconsistent_sizes _ e in
    let o1 = or_passed _ _ e1.0 in
    let l = ltb→le (max_int64 - t.total_enc) (pos_part p.enc_len) (or_passed _ _ o1.1).1 in
    let w = ok-injective e1.1 in
    let t2 = ap (λ v. v.total_enc) w in
    (
      ==→≡ _ _ (not_passed _ o1.0),
      ap (λ v. v.previous) (sym w),
      ap (λ v. v.total_plain) (sym w),
      sym t2,
      ground (arith, t2, l, b),
    )

check_sizes_inv :
    (count : ℕ) (t u : Tally) (p : MpuPartRecord)
    → check_sizes count t p ≡ ok u
    → (count ≡ pos_part p.chunk_count) × (count ≤ max_int32) × (check_sums count t p ≡ ok u)
unfolding check_sizes
check_sizes_inv count t u p e =
    let e1 = reject_passed _ invalid_count _ e in
    let o1 = or_passed _ _ e1.0 in
    (==→≡ _ _ (not_passed _ (or_passed _ _ o1.1).0), ltb→le max_int32 count o1.0, e1.1)

check_part_inv :
    (cs : ℕ) (t u : Tally) (p : MpuPartRecord)
    → 0 < cs
    → neg_part t.previous ≡ 0
    → t.total_enc ≤ max_int64
    → check_part cs t p ≡ ok u
    → IsPart cs p
      × (pos_part t.previous < pos_part p.part_number)
      × (u.previous ≡ pos (pos_part p.part_number))
      × (u.total_plain ≡ t.total_plain + pos_part p.plain_len)
      × (u.total_enc ≡ t.total_enc + pos_part p.enc_len)
      × (u.total_enc ≤ max_int64)
unfolding check_part
check_part_inv cs t u p h s l e =
    let e1 = reject_passed _ invalid_part _ e in
    let o1 = or_passed _ _ e1.0 in
    let b1 = is_below t.previous p.part_number s (not_passed _ o1.0) in
    let o2 = or_passed _ _ o1.1 in
    let b2 = not_below (pos 10000) p.part_number refl o2.0 in
    let o3 =
      or_passed (ltb_ℤ p.plain_len (pos 0)) (ltb_ℤ p.enc_len (pos 0) || ltb_ℤ p.chunk_count (pos 0))
        o2.1 in
    let b3 = not_negative p.plain_len o3.0 in
    let b4 =
      not_negative p.enc_len
        (or_passed (ltb_ℤ p.enc_len (pos 0)) (ltb_ℤ p.chunk_count (pos 0)) o3.1).0 in
    let b5 =
      not_negative p.chunk_count
        (or_passed (ltb_ℤ p.enc_len (pos 0)) (ltb_ℤ p.chunk_count (pos 0)) o3.1).1 in
    let k = check_sizes_inv (part_chunks cs (pos_part p.plain_len)) t u p e1.1 in
    let q = check_sums_inv (part_chunks cs (pos_part p.plain_len)) t u p l k.2 in
    (
      record {
        number_positive = ground (arith, b1);
        number_bound = b2;
        count_is = rw (sym k.0) (part_chunks-IsCount cs (pos_part p.plain_len) h);
        count_bound = ground (arith, k);
        plain_sign = b3.1;
        enc_sign = b4.1;
        count_sign = b5.1;
        enc_is = ground (arith, k, q);
      },
      b1.0,
      q.1 ∙ b1.2,
      q.2,
      q.3,
      q.4,
    )

parts_from :
    (cs : ℕ) (ps : List MpuPartRecord) (y z : ℤ)
    → y ≡ z
    → AreParts cs (pos_part y) ps
    → AreParts cs (pos_part z) ps
parts_from cs ps y z e w = rw (sym e) w

check_parts_inv :
    (cs : ℕ) (t u : Tally) (ps : List MpuPartRecord)
    → 0 < cs
    → neg_part t.previous ≡ 0
    → t.total_enc ≤ max_int64
    → check_parts cs t ps ≡ ok u
    → AreParts cs (pos_part t.previous) ps
      × (u.total_plain ≡ t.total_plain + sum_plain ps)
      × (u.total_enc ≡ t.total_enc + sum_enc ps)
      × (u.total_enc ≤ max_int64)
unfolding check_parts
check_parts_inv cs t u [] h s b e = ground arith
check_parts_inv cs t u (p ∷ ps) h s b e =
    let (v, x, y) = bind_passed (check_part cs t p) (λ u. check_parts cs u ps) e in
    let k = check_part_inv cs t v p h s b x in
    let q = check_parts_inv cs v u ps h (ap neg_part k.2) k.5 y in
    (
      (k.0, k.1, parts_from cs ps v.previous (pos (pos_part p.part_number)) k.2 q.0),
      ground (arith, k.3, q.1),
      ground (arith, k.4, q.2),
      q.3,
    )

-- What the check gives: the chunk size is in its range, the parts are valid, and the sizes add up.
pub record IsLayout (m : MultipartManifest) : Type 0 where
  pub chunk_size_positive : 0 < pos_part m.chunk_size
  pub chunk_size_bound : pos_part m.chunk_size ≤ max_chunk_size
  pub parts_valid : AreParts (pos_part m.chunk_size) 0 m.parts
  pub plain_total : sum_plain m.parts ≡ pos_part m.total_plain_size
  pub enc_total : sum_enc m.parts ≤ max_int64

length-zero : (ps : List MpuPartRecord) → length ps ≡ 0 → ps ≡ []
length-zero [] h = refl
length-zero (p ∷ ps) h = ground (arith, h)

total_passed :
    (t : Tally) (m : MultipartManifest)
    → reject (not (t.total_plain == pos_part m.total_plain_size)) total_mismatch ≡ ok tt
    → t.total_plain ≡ pos_part m.total_plain_size
total_passed t m e = ground (arith, e)

check_layout_inv : (m : MultipartManifest) → check_layout m ≡ ok tt → IsLayout m
unfolding check_layout
check_layout_inv m e =
    let e1 = reject_passed _ invalid_chunk_size _ e in
    let c = is_below (pos 0) m.chunk_size refl (not_passed _ (or_passed _ _ e1.0).0) in
    let (t, y, z) = bind_passed (check_parts (pos_part m.chunk_size) no_parts m.parts) _ e1.1 in
    let k = check_parts_inv (pos_part m.chunk_size) no_parts t m.parts c.0 refl (ground arith) y in
    record {
      chunk_size_positive = c.0;
      chunk_size_bound = not_below (pos max_chunk_size) m.chunk_size refl (or_passed _ _ e1.0).1;
      parts_valid = k.0;
      plain_total = ground (arith, k.1, total_passed t m z);
      enc_total = ground (arith, k.2, k.3);
    }

-- A manifest that passes the check has at most 10000 parts and a total that is not negative. It
-- describes an empty object with no parts; or its chunk size is positive and at most the largest, its
-- parts are valid with rising numbers, and their plaintexts add up to the total.
pub validate_layout-IsLayout :
    (m : MultipartManifest)
    → validate_layout m ≡ ok tt
    → (length m.parts ≤ 10000)
      × (m.total_plain_size ≡ pos (pos_part m.total_plain_size))
      × (((m.parts ≡ []) × (pos_part m.total_plain_size ≡ 0)) ⊎ IsLayout m)
unfolding validate_layout
validate_layout-IsLayout m e =
    let e0 = reject_passed _ invalid_total _ e in
    let o0 = or_passed (ltb_ℤ m.total_plain_size (pos 0)) (ltb 10000 (length m.parts)) e0.0 in
    (
      ltb→le 10000 (length m.parts) o0.1,
      (not_negative m.total_plain_size o0.0).1,
      elim (if_passed (length m.parts == 0 && pos_part m.total_plain_size == 0) (ok tt)
          (check_layout m) e0.1) [
            | inl x ↦
                let (y, z) = and_passed _ _ x.0 in
                inl (length-zero m.parts (==→≡ _ _ y), ==→≡ _ _ z)
            | inr x ↦ inr (check_layout_inv m x.1)
          ],
    )
