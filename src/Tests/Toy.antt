-- ===== src/Tests/Toy.antt =====
-- A cipher to run the readers with: it keeps the text and adds a tag of 16 zeros.
use s3_encryption_gateway.Prelude.{
  ◌-◌, ◌≡◌, refl, sym, ap, ◌∙◌, Bool, true, ◌&&◌, and_passed, [], ◌∷◌, ◌++◌, Option, none, some,
  ltb, leb, if◌then◌else◌, Bytes, equal_bytes, equal_bytes→≡, length, take, drop, replicate,
  length-append, take-append-drop, take_append, drop_append, arith, ltb→lt, lt→ltb,
}
use s3_encryption_gateway.Aad.Encoding.{AreBytes}
use s3_encryption_gateway.Stream.Config.{Aead, IsAead, ReaderConfig}
use s3_encryption_gateway.Stream.Decrypt.Sound.{AreAeads}

abbrev toy_tag : Bytes
toy_tag = replicate 16 0

abbrev are_bytes : Bytes → Bool
are_bytes [] = true
are_bytes (b ∷ bs) = ltb b 256 && are_bytes bs

abbrev toy_text : Bytes → Bytes
toy_text s = take (length s - 16) s

abbrev toy_test : Bytes → Bool
toy_test s =
    leb 16 (length s) && (equal_bytes (drop (length s - 16) s) toy_tag && are_bytes (toy_text s))

abbrev pub toy : Aead
toy = record {
  seal = λ nonce text aad. text ++ toy_tag;
  unseal = λ nonce sealed aad. if toy_test sealed then some (toy_text sealed) else none;
}

are_bytes→AreBytes : (bs : Bytes) → are_bytes bs ≡ true → AreBytes bs
are_bytes→AreBytes [] h = tt
are_bytes→AreBytes (b ∷ bs) h =
    let (x, y) = and_passed _ _ h in (ltb→lt b 256 x, are_bytes→AreBytes bs y)

AreBytes→are_bytes : (bs : Bytes) → AreBytes bs → are_bytes bs ≡ true
AreBytes→are_bytes [] h = refl
AreBytes→are_bytes (b ∷ bs) h = rw (lt→ltb b 256 h.0, AreBytes→are_bytes bs h.1) refl

toy_passed :
    (s text : Bytes)
    → (if toy_test s then some (toy_text s) else none) ≡ some text
    → (toy_test s ≡ true) × (toy_text s ≡ text)
toy_passed s text h = ground (arith, h)

toy_splits :
    (text : Bytes)
    → (toy_text (text ++ toy_tag) ≡ text)
      × (drop (length (text ++ toy_tag) - 16) (text ++ toy_tag) ≡ toy_tag)
      × (leb 16 (length (text ++ toy_tag)) ≡ true)
toy_splits text =
    let l : length text ≡ length (text ++ toy_tag) - 16 =
      ground (arith, length-append text toy_tag) in
    (
      take_append (length (text ++ toy_tag) - 16) text toy_tag l,
      drop_append (length (text ++ toy_tag) - 16) text toy_tag l,
      ground (arith, length-append text toy_tag),
    )

pub toy-IsAead : IsAead toy
unfolding equal_bytes
toy-IsAead = record {
  unseal-seal = λ nonce text aad h.
      let (x, y, z) = toy_splits text in rw (z, y, x, AreBytes→are_bytes text h) refl;
  seal_of_unseal = λ nonce sealed aad text h.
      let (x, y) = toy_passed sealed text h in
      let (p, q) =
        and_passed (leb 16 (length sealed))
          (equal_bytes (drop (length sealed - 16) sealed) toy_tag && are_bytes (toy_text sealed))
          x in
      let t =
        equal_bytes→≡ (drop (length sealed - 16) sealed) toy_tag
          (and_passed _ (are_bytes (toy_text sealed)) q).0 in
      sym (take-append-drop (length sealed - 16) sealed) ∙ rw (t, y) refl;
  AreBytes-unseal = λ nonce sealed aad text h.
      let (x, y) = toy_passed sealed text h in
      let (p, q) =
        and_passed (leb 16 (length sealed))
          (equal_bytes (drop (length sealed - 16) sealed) toy_tag && are_bytes (toy_text sealed))
          x in
      rw (sym y) (
        are_bytes→AreBytes (toy_text sealed)
          (and_passed (equal_bytes (drop (length sealed - 16) sealed) toy_tag)
            (are_bytes (toy_text sealed)) q).1);
  length-seal = λ nonce text aad. length-append text toy_tag;
}

abbrev pub toy_config : ReaderConfig
toy_config = record {
  aead = toy;
  terminal_aead = some toy;
  hkdf = record {
    expand = λ key info n. take n (key ++ info);
    extract_expand = λ key info n. take n (key ++ info);
  };
  base_iv = replicate 12 7;
  chunk_size = 4;
  version = 2;
  binding = none;
  hkdf_iv = true;
}

pub some-injective : (a b : Aead) → ◌≡◌ {A = Option Aead} (some a) (some b) → a ≡ b
some-injective a b h = ap (λ o. elim o [ none ↦ a | some x ↦ x ]) h

pub toy_config-AreAeads : AreAeads toy_config
toy_config-AreAeads = record {
  data_laws = toy-IsAead;
  terminal_laws = λ a h. rw (sym (some-injective toy a h)) toy-IsAead;
}
