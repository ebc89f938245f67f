-- ===== src/Aad/Injective.antt =====
-- internal/crypto/engine.go, buildObjectAAD: the additional authenticated data determine the domain,
-- object, binding and fields that they were built from.
use s3_encryption_gateway.Prelude.{
  ℕ, ◌^◌, ◌≤◌, ◌<◌, List, [], ◌∷◌, ◌++◌, Option, none, some, ◌==◌, if◌then◌else◌, Bytes, length, ok,
  ◌≡◌, arith, refl, sym, ap, ◌∙◌, get_elem?,
}
use s3_encryption_gateway.Aad.{
  AadDomain, ObjectContext, domain_bytes, aad_magic, write_length_prefixed, write_fields,
  build_object_aad, validate, buffered_v2, chunked_v2_data, chunked_v2_trailer, mpu_v2_chunk,
  mpu_v2_manifest,
}
use mathlib.Core.List.{append_assoc}
use s3_encryption_gateway.Aad.Encoding.{
  big_endian, big_endian-injective, length-big_endian, append_split,
}

-- A length-prefixed text, with no bound.
prefixed : Bytes → Bytes
prefixed value = big_endian 4 (length value) ++ value

prefixed_split :
    (v w : Bytes) {us vs : Bytes}
    → length v < 256 ^ 4
    → length w < 256 ^ 4
    → prefixed v ++ us ≡ prefixed w ++ vs
    → (v ≡ w) × (us ≡ vs)
unfolding prefixed
prefixed_split v w {us} {vs} hv hw e =
    let e' : big_endian 4 (length v) ++ (v ++ us) ≡ big_endian 4 (length w) ++ (w ++ vs) =
      sym (append_assoc (big_endian 4 (length v)) v us)
      ∙ e
      ∙ append_assoc (big_endian 4 (length w)) w vs in
    let heads =
      append_split (big_endian 4 (length v)) (big_endian 4 (length w))
        (length-big_endian 4 (length v) ∙ sym (length-big_endian 4 (length w))) e' in
    append_split v w (big_endian-injective 4 (length v) (length w) hv hw heads.0) heads.1

-- Every field is a uint64.
abbrev pub AreWords : List ℕ → Type 0
AreWords [] = Unit
AreWords (f ∷ fs) = (f < 256 ^ 8) × AreWords fs

write_fields-injective :
    (fs gs : List ℕ)
    → AreWords fs
    → AreWords gs
    → length fs ≡ length gs
    → write_fields fs ≡ write_fields gs
    → fs ≡ gs
unfolding write_fields
write_fields-injective [] [] hf hg h e = refl
write_fields-injective [] (g ∷ gs) hf hg h e = absurd (omega arith)
write_fields-injective (f ∷ fs) [] hf hg h e = absurd (omega arith)
write_fields-injective (f ∷ fs) (g ∷ gs) hf hg h e =
    let i =
      append_split (big_endian 8 f) (big_endian 8 g)
        (length-big_endian 8 f ∙ sym (length-big_endian 8 g)) e in
    cc (
      big_endian-injective 8 f g hf.0 hg.0 i.0,
      write_fields-injective fs gs hf.1 hg.1 (omega arith) i.1,
    )

-- The domain that starts with these letters.
domain_of : Option ℕ → Option ℕ → AadDomain
domain_of (some c) (some d) =
    if c == b'b'
    then buffered_v2
    else if c == b'c'
    then (if d == b'd' then chunked_v2_data else chunked_v2_trailer)
    else (if d == b'c' then mpu_v2_chunk else mpu_v2_manifest)
domain_of _ _ = buffered_v2

letters : Bytes → AadDomain
unfolding domain_of
letters bs = domain_of (get_elem? bs 5) (elim (get_elem? bs 5) [
  | none ↦ none
  | some c ↦ if c == b'm' then get_elem? bs 12 else get_elem? bs 16
])

domain_bytes-letters : (d : AadDomain) → letters (domain_bytes d) ≡ d
unfolding letters domain_bytes
domain_bytes-letters buffered_v2 = refl
domain_bytes-letters _ = refl

record IsBuilt (d : AadDomain) (o : ObjectContext) (i : Bytes) (fs : List ℕ) (out : Bytes)
    : Type 0 where
  layout :
      out
      ≡ aad_magic
        ++ (big_endian 2 1
            ++ (prefixed (domain_bytes d)
                ++ (prefixed o.bucket
                    ++ (prefixed o.key
                        ++ (prefixed i ++ (big_endian 2 (length fs) ++ write_fields fs))))))
  bucket_short : length o.bucket ≤ 63
  key_short : length o.key ≤ 1024
  id_length : length i ≡ 16
  few_fields : length fs ≤ 65535

write_length_prefixed_lem :
    (v : Bytes) → length v ≤ 1024 → write_length_prefixed v ≡ ok (prefixed v)
unfolding write_length_prefixed prefixed
write_length_prefixed_lem v h = ground arith

length-domain_bytes : (d : AadDomain) → length (domain_bytes d) ≤ 1024
unfolding domain_bytes
length-domain_bytes buffered_v2 = omega arith
length-domain_bytes _ = omega arith

build_object_aad_inv :
    (d : AadDomain) (o : ObjectContext) (i : Bytes) (fs : List ℕ) (out : Bytes)
    → build_object_aad d o i fs ≡ ok out
    → IsBuilt d o i fs out
unfolding build_object_aad validate
build_object_aad_inv d o i fs out e = record {
  layout = ground (
    arith,
    write_length_prefixed_lem (domain_bytes d) (length-domain_bytes d),
    write_length_prefixed_lem o.bucket,
    write_length_prefixed_lem o.key,
    write_length_prefixed_lem i,
  );
  bucket_short = ground arith;
  key_short = ground arith;
  id_length = ground arith;
  few_fields = ground arith;
}

-- Two calls that succeed with fields of 64 bits, and return the same data, had the same domain,
-- object, binding and fields.
pub build_object_aad-injective :
    (d e : AadDomain) (o q : ObjectContext) (i j : Bytes) (fs gs : List ℕ) (out : Bytes)
    → AreWords fs
    → AreWords gs
    → build_object_aad d o i fs ≡ ok out
    → build_object_aad e q j gs ≡ ok out
    → (d ≡ e) × (o ≡ q) × (i ≡ j) × (fs ≡ gs)
build_object_aad-injective d e o q i j fs gs out hf hg p r =
    let a = build_object_aad_inv d o i fs out p in
    let b = build_object_aad_inv e q j gs out r in
    let same = sym a.layout ∙ b.layout in
    let s0 = append_split aad_magic aad_magic refl same in
    let s1 = append_split (big_endian 2 1) (big_endian 2 1) refl s0.1 in
    let s2 =
      prefixed_split (domain_bytes d) (domain_bytes e) (omega (arith, length-domain_bytes d))
        (omega (arith, length-domain_bytes e)) s1.1 in
    let s3 =
      prefixed_split o.bucket q.bucket (omega (arith, a.bucket_short))
        (omega (arith, b.bucket_short)) s2.1 in
    let s4 =
      prefixed_split o.key q.key (omega (arith, a.key_short)) (omega (arith, b.key_short)) s3.1 in
    let s5 = prefixed_split i j (omega (arith, a.id_length)) (omega (arith, b.id_length)) s4.1 in
    let s6 =
      append_split (big_endian 2 (length fs)) (big_endian 2 (length gs))
        (length-big_endian 2 (length fs) ∙ sym (length-big_endian 2 (length gs))) s5.1 in
    let n =
      big_endian-injective 2 (length fs) (length gs) (omega (arith, a.few_fields))
        (omega (arith, b.few_fields)) s6.0 in
    (
      sym (domain_bytes-letters d) ∙ ap letters s2.0 ∙ domain_bytes-letters e,
      (λ k. record { bucket = s3.0 k; key = s4.0 k }),
      s5.0,
      write_fields-injective fs gs hf hg n s6.1,
    )
