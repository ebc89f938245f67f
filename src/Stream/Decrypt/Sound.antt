-- ===== src/Stream/Decrypt/Sound.antt =====
-- What a decrypting reader hands out: the plaintext of which its source is the ciphertext. For
-- version 2 the counts in the terminal are part of that.
use mathlib.Core.List.{append-nil}
use mathlib.Core.Path.{subst}
use s3_encryption_gateway.Prelude.{
  ℕ, ◌+◌, ◌-◌, ◌≤◌, true, false, [], ◌++◌, Option, none, some, ltb, ◌==◌, if◌then◌else◌, Bytes,
  length, take, drop, ◌≡◌, refl, sym, ap, ◌∙◌, inl, inr, arith, Bool-cases, Option-cases,
  Result-cases, take-append-drop, length-take, length-drop, ==_iff,
}
use s3_encryption_gateway.Aad.Encoding.{
  AreBytes, from_big_endian, big_endian-from_big_endian, AreBytes-take, AreBytes-drop,
}
use s3_encryption_gateway.Chunk.{v2, chunked_terminal_size}
use s3_encryption_gateway.Stream.Config.{
  Aead, IsAead, ReaderConfig, terminal_params, encode_chunked_terminal,
}
use s3_encryption_gateway.Stream.Format.{IsTerminal, present, Seals, finish, last}
use s3_encryption_gateway.Stream.Loop.{is_some}
use s3_encryption_gateway.Stream.Source.{StreamError}
use s3_encryption_gateway.Stream.Decrypt.{
  DecryptState, DecryptReader, decrypt_data, decrypt_end, verify_terminal, conclude, unit_size,
}
use s3_encryption_gateway.Stream.Decrypt.Records.{opened, decrypt_data_inv}

-- A terminal's plaintext is the encoding of what it decodes to.
encode_decoded :
    (plain : Bytes) (count size : ℕ)
    → AreBytes plain
    → length plain ≡ 16
    → from_big_endian (take 8 plain) ≡ count
    → from_big_endian (drop 8 plain) ≡ size
    → plain ≡ encode_chunked_terminal count size
unfolding encode_chunked_terminal
encode_decoded plain count size h l c s =
    rw
      (
        ← c,
        ← s,
        big_endian-from_big_endian (take 8 plain) 8 (AreBytes-take 8 plain h)
            (omega (arith, length-take 8 plain)),
        big_endian-from_big_endian (drop 8 plain) 8 (AreBytes-drop 8 plain h)
            (omega (arith, length-drop 8 plain)),
      )
      (sym (take-append-drop 8 plain))

-- The laws of the two ciphers of a reader.
pub record AreAeads (cfg : ReaderConfig) : Type 0 where
  pub data_laws : IsAead cfg.aead
  pub terminal_laws : (a : Aead) → cfg.terminal_aead ≡ some a → IsAead a

module _ (cfg : ReaderConfig) (laws : AreAeads cfg) where
  verify_terminal-IsTerminal :
      (s : DecryptState) (terminal : Bytes)
      → cfg.version ≡ v2
      → verify_terminal cfg s terminal ≡ none
      → IsTerminal cfg s.index s.plain_size terminal
  unfolding verify_terminal
  verify_terminal-IsTerminal s terminal v h = elim (Option-cases cfg.terminal_aead) [
    | inl ea ↦ absurd (ground arith)
    | inr (a, ea) ↦ elim (Result-cases (terminal_params cfg s.index s.plain_size)) [
      | inl ((nonce, aad), e) ↦ elim (Option-cases (a.unseal nonce terminal aad)) [
        | inl f ↦ absurd (ground arith)
        | inr (plain, f) ↦
            let t = laws.terminal_laws a ea in
            let p : plain ≡ encode_chunked_terminal s.index s.plain_size =
              encode_decoded plain s.index s.plain_size
                (t.AreBytes-unseal nonce terminal aad plain f) (ground arith) (ground arith)
                (ground arith) in
            present a nonce aad v ea e
              (t.seal_of_unseal nonce terminal aad plain f ∙ ap (λ x. a.seal nonce x aad) p)
      ]
      | inr (x, e) ↦ absurd (ground arith)
    ]
  ]

  -- A reader that came to its end, with the text of the last records.
  pub record Concludes (r q : DecryptReader) : Type 0 where
    pub text : Bytes
    pub pending_is : q.pending ≡ r.pending ++ text
    pub is_done : q.done ≡ true
    pub sealed : Seals cfg 0 r.inner.index r.inner.plain_size text r.inner.lookbehind

  concluded :
      (q : DecryptReader) (x : Option StreamError)
      → is_some (if is_some q.error then q else conclude q x).error ≡ false
      → (x ≡ none)
        × ((if is_some q.error then q else conclude q x) ≡ conclude q none)
        × (is_some q.error ≡ false)
  unfolding conclude
  concluded q x h = elim (Bool-cases (is_some q.error)) [
    | inl b ↦ absurd (ground arith)
    | inr b ↦ elim (Option-cases x) [
      | inl n ↦ (n, ground arith, b)
      | inr (e, n) ↦ absurd (ground arith)
    ]
  ]

  last_record :
      (r : DecryptReader) (body : ℕ)
      → cfg.version ≡ v2
      → body ≡ length r.inner.lookbehind - chunked_terminal_size
      → body ≤ unit_size cfg
      → is_some (decrypt_data cfg r (take body r.inner.lookbehind)).error ≡ false
      → verify_terminal cfg
          (decrypt_data cfg r (take body r.inner.lookbehind)).inner
          (drop body r.inner.lookbehind)
        ≡ none
      → Concludes r (conclude (decrypt_data cfg r (take body r.inner.lookbehind)) none)
  unfolding conclude
  last_record r body v b small fine verified =
      let held = r.inner.lookbehind in
      let (text, i, l, e) = decrypt_data_inv cfg laws.data_laws r (take body held) fine in
      rw e (record {
        text = text;
        pending_is = refl;
        is_done = refl;
        sealed =
            last (take body held) (drop body held) i (omega arith)
              (omega (arith, length-take body held))
              (verify_terminal-IsTerminal (opened cfg laws.data_laws r text).inner (drop body held)
                v (rw e at verified))
              (sym (take-append-drop body held));
      })

  pub decrypt_end-Concludes :
      (r : DecryptReader)
      → cfg.version ≡ v2
      → length r.inner.lookbehind ≤ chunked_terminal_size + unit_size cfg
      → is_some (decrypt_end cfg r).error ≡ false
      → Concludes r (decrypt_end cfg r)
  unfolding decrypt_end
  decrypt_end-Concludes r v h fine =
      let held = r.inner.lookbehind in
      let body = length held - chunked_terminal_size in
      elim (Bool-cases (ltb (length held) chunked_terminal_size)) [
        | inl short ↦ absurd (ground arith)
        | inr long ↦ elim (Bool-cases (body == 0)) [
          | inl z ↦
              let c =
                concluded r (verify_terminal cfg r.inner (drop body held)) (rw (long, z) at fine) in
              let none_left : body ≡ 0 = (==_iff body 0).0 z in
              rw (long, z, c.1)
                (record {
                  text = [];
                  pending_is = sym (append-nil r.pending);
                  is_done = refl;
                  sealed = finish (
                      subst (λ n. IsTerminal cfg r.inner.index r.inner.plain_size (drop n held))
                        none_left (verify_terminal-IsTerminal r.inner (drop body held) v c.0));
                })
          | inr some_body ↦
              let q = decrypt_data cfg r (take body held) in
              let c =
                concluded q (verify_terminal cfg q.inner (drop body held))
                  (rw (long, some_body) at fine) in
              rw (long, some_body, c.1) (last_record r body v refl (omega arith) c.2 (c.0))
        ]
      ]
