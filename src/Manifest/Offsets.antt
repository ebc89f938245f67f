-- ===== src/Manifest/Offsets.antt =====
-- Where a plaintext offset lies in the parts of a valid manifest.
use native.Mathlib.Nat.{div-add-mod', mod-lt}
use s3_encryption_gateway.Prelude.{
  ℕ, zero, suc, ◌+◌, ◌-◌, ◌*◌, ◌/◌, ◌%◌, ◌≤◌, ◌<◌, true, ◌||◌, List, [], ◌∷◌, some, ltb, get_elem?,
  ℤ, pos, negsuc, pos_part, ltb_ℤ, ok, ◌≡◌, refl, arith, Bool-cases, inl, inr, le→ltb,
}
use s3_encryption_gateway.Chunk.Count.{IsCount}
use s3_encryption_gateway.Manifest.Layout.{IsPart, IsLayout}
use s3_encryption_gateway.Prelude.{
  ◌∙◌, Option, none, leb, length, ap, sym, reject_passed, not_passed, is_below, ok-injective,
  bind_passed,
}
use s3_encryption_gateway.Chunk.Ranges.{mul_mono}
use s3_encryption_gateway.Manifest.{
  part_out_of_range, chunk_out_of_range, enc_offset_for_part_chunk, chunk_offset, MpuPartRecord,
  MultipartManifest, PartChunk, locate, plain_offset_to_part_chunk, enc_before, validate_layout,
  max_int32,
}
use s3_encryption_gateway.Manifest.Layout.{AreParts, sum_plain, sum_enc, validate_layout-IsLayout}

-- The plaintext bytes of the first `n` parts.
unfoldable pub plain_before : ℕ → List MpuPartRecord → ℕ
plain_before zero ps = 0
plain_before (suc n) [] = 0
plain_before (suc n) (p ∷ ps) = pos_part p.plain_len + plain_before n ps

-- `x` names the chunk and the byte of the plaintext offset: the part exists and holds the chunk,
-- and the bytes of the parts and chunks before add up to the offset.
pub record IsAt (chunk_size offset cum skipped : ℕ) (ps : List MpuPartRecord) (x : PartChunk)
    : Type 0 where
  pub before : ℕ
  pub index_is : x.part_idx ≡ skipped + before
  pub part : MpuPartRecord
  pub part_is : get_elem? ps before ≡ some part
  pub chunk_in_part : x.chunk_idx < pos_part part.chunk_count
  pub intra_in_chunk : x.intra_chunk < chunk_size
  pub offset_in_part : x.chunk_idx * chunk_size + x.intra_chunk < pos_part part.plain_len
  pub offset_is : cum + plain_before before ps + x.chunk_idx * chunk_size + x.intra_chunk ≡ offset

chunk_of_offset :
    (cs plain count rel : ℕ)
    → 0 < cs
    → IsCount plain cs count
    → rel < plain
    → (rel / cs < count) × (rel % cs < cs) × (rel / cs * cs + rel % cs ≡ rel)
chunk_of_offset cs plain count rel h c l = grind (arith, div-add-mod' rel cs, mod-lt rel {m = cs} h)

below_pos : (n : ℕ) (z : ℤ) → n < pos_part z → ltb_ℤ (pos n) z ≡ true
below_pos n (pos m) h = ground arith
below_pos n (negsuc m) h = ground (arith, h)

-- The loop finds every offset inside the parts that are left.
locate-IsAt :
    (cs offset cum i previous : ℕ) (ps : List MpuPartRecord)
    → 0 < cs
    → AreParts cs previous ps
    → cum ≤ offset
    → offset < cum + sum_plain ps
    → (x : PartChunk) × (locate cs offset cum i ps ≡ ok x) × IsAt cs offset cum i ps x
unfolding locate plain_before
locate-IsAt cs offset cum i previous [] h w l u = ground (arith, l, u)
locate-IsAt cs offset cum i previous (p ∷ ps) h w l u =
    elim (Bool-cases (ltb offset (cum + pos_part p.plain_len))) [
      | inl e ↦
          let k =
            chunk_of_offset cs (pos_part p.plain_len) (pos_part p.chunk_count) (offset - cum) h
              w.0.count_is (ground (arith, e, l)) in
          let f = le→ltb max_int32 ((offset - cum) / cs) (ground (arith, k, w.0.count_bound)) in
          (
            record {
              part_idx = i;
              chunk_idx = (offset - cum) / cs;
              intra_chunk = (offset - cum) % cs;
            },
            rw (e, f) refl,
            record {
              before = 0;
              index_is = ground arith;
              part = p;
              part_is = refl;
              chunk_in_part = k.0;
              intra_in_chunk = k.1;
              offset_in_part = ground (arith, k.2, e, l);
              offset_is = ground (arith, k.2);
            },
          )
      | inr e ↦
          let (x, y, z) =
            locate-IsAt cs offset (cum + pos_part p.plain_len) (i + 1) (pos_part p.part_number) ps h
              w.2 (ground (arith, e)) (ground (arith, u)) in
          (
            x,
            rw e y,
            record {
              before = suc z.before;
              index_is = ground (arith, z.index_is);
              part = z.part;
              part_is = z.part_is;
              chunk_in_part = z.chunk_in_part;
              intra_in_chunk = z.intra_in_chunk;
              offset_in_part = z.offset_in_part;
              offset_is = ground (arith, z.offset_is, e);
            },
          )
    ]

-- Every offset below the total size of a valid manifest is found: in a part that exists, in a chunk
-- of that part and at a byte of that chunk, and the bytes before that place add up to the offset.
pub plain_offset_to_part_chunk-IsAt :
    (m : MultipartManifest) (offset : ℕ)
    → validate_layout m ≡ ok tt
    → offset < pos_part m.total_plain_size
    → (x : PartChunk) × (plain_offset_to_part_chunk m (pos offset) ≡ ok x)
      × IsAt (pos_part m.chunk_size) offset 0 0 m.parts x
unfolding plain_offset_to_part_chunk
plain_offset_to_part_chunk-IsAt m offset v l = elim (validate_layout-IsLayout m v).2 [
  | inl x ↦ ground (arith, x, l)
  | inr w ↦
      let k =
        locate-IsAt (pos_part m.chunk_size) offset 0 0 0 m.parts w.chunk_size_positive w.parts_valid
          (ground arith) (ground (arith, w.plain_total, l)) in
      (
        k.0,
        rw (v, below_pos offset m.total_plain_size l, le→ltb (offset + 0) 0 (ground arith)) k.1,
        k.2,
      )
]

-- The chunks of the first `n` parts.
unfoldable pub chunks_before : ℕ → List MpuPartRecord → ℕ
chunks_before zero ps = 0
chunks_before (suc n) [] = 0
chunks_before (suc n) (p ∷ ps) = pos_part p.chunk_count + chunks_before n ps

-- The backend bytes of the first parts are their plaintext and a tag for each of their chunks.
enc_before-plain :
    (n cs previous : ℕ) (ps : List MpuPartRecord)
    → AreParts cs previous ps
    → enc_before n ps ≡ plain_before n ps + chunks_before n ps * 16
unfolding enc_before plain_before chunks_before
enc_before-plain zero cs previous ps w = refl
enc_before-plain (suc n) cs previous [] w = refl
enc_before-plain (suc n) cs previous (p ∷ ps) w =
    omega (arith, w.0.enc_is, enc_before-plain n cs (pos_part p.part_number) ps w.2)

enc_before-get_elem :
    (n : ℕ) (ps : List MpuPartRecord) (p : MpuPartRecord)
    → get_elem? ps n ≡ some p
    → enc_before n ps + pos_part p.enc_len ≤ sum_enc ps
unfolding enc_before
enc_before-get_elem n [] p h = ground (arith, h)
enc_before-get_elem zero (q ∷ ps) p h = ground (arith, h)
enc_before-get_elem (suc n) (q ∷ ps) p h = ground (arith, enc_before-get_elem n ps p h)

abbrev part_or : MpuPartRecord → Option MpuPartRecord → MpuPartRecord
part_or q none = q
part_or q (some p) = p

get_elem-IsPart :
    (cs previous n : ℕ) (ps : List MpuPartRecord) (p : MpuPartRecord)
    → AreParts cs previous ps
    → get_elem? ps n ≡ some p
    → IsPart cs p
get_elem-IsPart cs previous n [] p w h = ground (arith, h)
get_elem-IsPart cs previous zero (q ∷ ps) p w h = rw (sym (ap (λ o. part_or q o) h)) w.0
get_elem-IsPart cs previous (suc n) (q ∷ ps) p w h =
    get_elem-IsPart cs (pos_part q.part_number) n ps p w.2 h

-- A chunk of a part starts, and has its tag, inside the part.
chunk_inside :
    (cs plain enc count i : ℕ)
    → IsCount plain cs count
    → enc ≡ plain + count * 16
    → i < count
    → i * (cs + 16) + 16 < enc
chunk_inside cs plain enc count i c e h = grind (arith, mul_mono (i + 1) count cs)

chunk_offset_inv :
    (m : MultipartManifest) (i j off : ℕ) (p : Option MpuPartRecord)
    → chunk_offset m i j p ≡ ok off
    → (q : MpuPartRecord) × (p ≡ some q)
      × (ltb_ℤ (pos j) q.chunk_count ≡ true)
      × (off ≡ enc_before i m.parts + j * (pos_part m.chunk_size + 16))
unfolding chunk_offset
chunk_offset_inv m i j off none h = ground (arith, h)
chunk_offset_inv m i j off (some q) h =
    let a = reject_passed _ chunk_out_of_range _ h in
    (q, refl, not_passed _ a.0, sym (ok-injective a.1))

validate_layout-get_elem :
    (m : MultipartManifest) (n : ℕ) (q : MpuPartRecord)
    → validate_layout m ≡ ok tt
    → get_elem? m.parts n ≡ some q
    → IsLayout m
validate_layout-get_elem m n q v e = elim (validate_layout-IsLayout m v).2 [
  | inl x ↦ absurd (ground (arith, rw x.0 at e))
  | inr w ↦ w
]

-- For a part and a chunk that are accepted: the backend offset of the chunk is the plaintext of the
-- parts before, the plaintext of the chunks before it in its own part, and sixteen bytes for each
-- chunk before; and the chunk's first bytes lie inside the backend object.
pub enc_offset_for_part_chunk_lem :
    (m : MultipartManifest) (i j : ℤ) (off : ℕ)
    → enc_offset_for_part_chunk m i j ≡ ok off
    → (off
        ≡ plain_before (pos_part i) m.parts
          + pos_part j * pos_part m.chunk_size
          + (chunks_before (pos_part i) m.parts + pos_part j) * 16)
      × (off + 16 < sum_enc m.parts)
unfolding enc_offset_for_part_chunk
enc_offset_for_part_chunk_lem m i j off h =
    let v = bind_passed (validate_layout m) _ h in
    let a =
      reject_passed (ltb_ℤ i (pos 0) || leb (length m.parts) (pos_part i)) part_out_of_range _
        v.2 in
    let b =
      reject_passed (ltb_ℤ j (pos 0)) chunk_out_of_range
        (chunk_offset m (pos_part i) (pos_part j) (get_elem? m.parts (pos_part i))) a.1 in
    let (q, e, c, o) =
      chunk_offset_inv m (pos_part i) (pos_part j) off (get_elem? m.parts (pos_part i)) b.1 in
    let w = validate_layout-get_elem m (pos_part i) q v.1 e in
    let p = get_elem-IsPart (pos_part m.chunk_size) 0 (pos_part i) m.parts q w.parts_valid e in
    let l = is_below (pos (pos_part j)) q.chunk_count refl c in
    let k =
      chunk_inside (pos_part m.chunk_size) (pos_part q.plain_len) (pos_part q.enc_len)
        (pos_part q.chunk_count) (pos_part j) p.count_is p.enc_is l.0 in
    let t = enc_before-plain (pos_part i) (pos_part m.chunk_size) 0 m.parts w.parts_valid in
    (o ∙ offset_sum _ _ _ _ _ t, ground (arith, o, k, enc_before-get_elem (pos_part i) m.parts q e))
  where
    offset_sum : (a b c s x : ℕ) → x ≡ a + c * 16 → x + b * (s + 16) ≡ a + b * s + (c + b) * 16
    offset_sum a b c s x h = grind (arith, h)
