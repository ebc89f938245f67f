-- ===== src/Stream/Decrypt/Records.antt =====
-- What the opening of records does to a reader: the opened text is pending, and the ciphertext is
-- what sealing that text gives.
use mathlib.Core.List.{append-nil, append_assoc}
use s3_encryption_gateway.Prelude.{
  ℕ, zero, suc, ◌+◌, ◌≤◌, false, [], ◌++◌, ltb, Bytes, length, take, drop, wrap64, ◌≡◌, refl, sym,
  ap, ◌∙◌, inl, inr, arith, Bool-cases, Option-cases, Result-cases, take-append-drop, length-take,
  length-drop, ltb→lt,
}
use s3_encryption_gateway.Chunk.{tag_size, chunked_terminal_size}
use s3_encryption_gateway.Stream.Config.{IsAead, ReaderConfig, record_params}
use s3_encryption_gateway.Stream.Format.{IsRecord, Seals, chunk}
use s3_encryption_gateway.Stream.Loop.{is_some}
use s3_encryption_gateway.Stream.Decrypt.{
  DecryptReader, decrypt_data, decrypt_records, set_lookbehind, unit_size,
}

-- The ciphertext that a reader has not opened yet.
abbrev pub ahead : DecryptReader → Bytes
ahead r = r.inner.lookbehind ++ r.inner.source.bytes

-- From `r` to `q` some text was opened and made pending.
pub record Extends (cfg : ReaderConfig) (r q : DecryptReader) : Type 0 where
  pub text : Bytes
  pub pending_is : q.pending ≡ r.pending ++ text
  pub source_is : q.inner.source ≡ r.inner.source
  pub same_done : q.done ≡ r.done
  pub before :
      (later : Bytes)
      → Seals cfg 0 q.inner.index q.inner.plain_size later (ahead q)
      → Seals cfg 0 r.inner.index r.inner.plain_size (text ++ later) (ahead r)

pub Extends-refl : (cfg : ReaderConfig) (r : DecryptReader) → Extends cfg r r
Extends-refl cfg r = record {
  text = [];
  pending_is = sym (append-nil r.pending);
  source_is = refl;
  same_done = refl;
  before = λ later s. s;
}

pub Extends-trans :
    (cfg : ReaderConfig) (r q p : DecryptReader)
    → Extends cfg r q
    → Extends cfg q p
    → Extends cfg r p
Extends-trans cfg r q p a b = record {
  text = a.text ++ b.text;
  pending_is =
      b.pending_is ∙ ap (λ x. x ++ b.text) a.pending_is ∙ append_assoc r.pending a.text b.text;
  source_is = b.source_is ∙ a.source_is;
  same_done = b.same_done ∙ a.same_done;
  before = λ later s.
      rw (append_assoc a.text b.text later) (a.before (b.text ++ later) (b.before later s));
}

module _ (cfg : ReaderConfig) (laws : IsAead cfg.aead) where
  abbrev pub opened : DecryptReader → Bytes → DecryptReader
  opened r text = record r {
    pending = r.pending ++ text;
    inner = record r.inner {
      index = wrap64 (r.inner.index + 1);
      plain_size = r.inner.plain_size + length text;
    };
  }

  -- Data that open with no error are a record.
  pub decrypt_data_inv :
      (r : DecryptReader) (sealed : Bytes)
      → is_some (decrypt_data cfg r sealed).error ≡ false
      → (text : Bytes) × IsRecord cfg r.inner.index text sealed
        × (length sealed ≡ length text + tag_size)
        × (decrypt_data cfg r sealed ≡ opened r text)
  unfolding decrypt_data
  decrypt_data_inv r sealed h = elim (Result-cases (record_params cfg r.inner.index)) [
    | inl ((nonce, aad), e) ↦ elim (Option-cases (cfg.aead.unseal nonce sealed aad)) [
      | inl f ↦ absurd (ground arith)
      | inr (text, f) ↦
          let s = laws.seal_of_unseal nonce sealed aad text f in
          (
            text,
            record { nonce = nonce; aad = aad; params = e; sealed_is = s },
            ap (length {A = ℕ}) s ∙ laws.length-seal nonce text aad,
            ground arith,
          )
    ]
    | inr (x, e) ↦ absurd (ground arith)
  ]

  -- One full record of the held bytes.
  full_record :
      (r : DecryptReader) (text : Bytes)
      → IsRecord cfg r.inner.index text (take (unit_size cfg) r.inner.lookbehind)
      → length text ≡ cfg.chunk_size
      → Extends cfg r (set_lookbehind (drop (unit_size cfg) r.inner.lookbehind) (opened r text))
  full_record r text i l =
      let n = unit_size cfg in
      let held = r.inner.lookbehind in
      record {
        text = text;
        pending_is = refl;
        source_is = refl;
        same_done = refl;
        before = λ later s.
            chunk text (take n held) later (drop n held ++ r.inner.source.bytes) i l s refl (
              ap (λ x. x ++ r.inner.source.bytes) (sym (take-append-drop n held))
              ∙ append_assoc (take n held) (drop n held) r.inner.source.bytes);
      }

  pub decrypt_records-Extends :
      (fuel : ℕ) (r : DecryptReader)
      → is_some (decrypt_records fuel cfg r).error ≡ false
      → Extends cfg r (decrypt_records fuel cfg r)
  unfolding decrypt_records
  decrypt_records-Extends zero r fine = Extends-refl cfg r
  decrypt_records-Extends (suc fuel) r fine =
      elim (Bool-cases (ltb (chunked_terminal_size + unit_size cfg) (length r.inner.lookbehind))) [
        | inr b ↦ rw b (Extends-refl cfg r)
        | inl b ↦
            elim (Bool-cases
              (is_some (decrypt_data cfg r (take (unit_size cfg) r.inner.lookbehind)).error)) [
                | inl f ↦ absurd (ground arith)
                | inr f ↦
                    let (text, i, l, e) =
                      decrypt_data_inv r (take (unit_size cfg) r.inner.lookbehind) f in
                    let q : DecryptReader =
                      set_lookbehind (drop (unit_size cfg) r.inner.lookbehind) (opened r text) in
                    rw (b, f, e)
                      (Extends-trans cfg r q (decrypt_records fuel cfg q)
                        (full_record r text i (
                          omega (
                            arith,
                            length-take (unit_size cfg) r.inner.lookbehind,
                            ltb→lt (chunked_terminal_size + unit_size cfg)
                                (length r.inner.lookbehind) b,
                          )))
                        (decrypt_records-Extends fuel q (rw (b, f, e) at fine)))
              ]
      ]

  -- With fuel for every held byte, at most one record and the terminal are held at the end.
  pub decrypt_records_ends :
      (fuel : ℕ) (r : DecryptReader)
      → length r.inner.lookbehind ≤ fuel
      → is_some (decrypt_records fuel cfg r).error ≡ false
      → length (decrypt_records fuel cfg r).inner.lookbehind ≤ chunked_terminal_size + unit_size cfg
  unfolding decrypt_records
  decrypt_records_ends zero r h fine = omega arith
  decrypt_records_ends (suc fuel) r h fine =
      elim (Bool-cases (ltb (chunked_terminal_size + unit_size cfg) (length r.inner.lookbehind))) [
        | inr b ↦ rw b (ground arith)
        | inl b ↦
            elim (Bool-cases
              (is_some (decrypt_data cfg r (take (unit_size cfg) r.inner.lookbehind)).error)) [
                | inl f ↦ absurd (ground arith)
                | inr f ↦
                    let (text, i, l, e) =
                      decrypt_data_inv r (take (unit_size cfg) r.inner.lookbehind) f in
                    rw (b, f)
                      (decrypt_records_ends fuel
                        (set_lookbehind (drop (unit_size cfg) r.inner.lookbehind)
                          (decrypt_data cfg r (take (unit_size cfg) r.inner.lookbehind)))
                        (omega (arith, length-drop (unit_size cfg) r.inner.lookbehind))
                        (rw (b, f) at fine))
              ]
      ]
