-- ===== src/Stream/Decrypt/Total.antt =====
-- A version 2 decrypting reader over a ciphertext: each step opens the next records and fails nowhere.
pub mod Step
pub mod Read
use mathlib.Core.List.{append-nil, append_assoc}
use s3_encryption_gateway.Prelude.{
  ℕ, zero, suc, ◌+◌, ◌-◌, ◌≤◌, ◌<◌, true, false, [], ◌∷◌, ◌++◌, none, some, ltb, ◌==◌, Bytes,
  length, take, drop, wrap64, max_uint64, ◌≡◌, refl, sym, ap, ◌∙◌, inl, inr, arith, Bool-cases,
  length-append, take-append-drop, length-take, length-drop, ==_iff,
}
use s3_encryption_gateway.Aad.Encoding.{
  AreBytes, AreBytes-append, AreBytes-big_endian, append_split, from_big_endian, big_endian,
  from_big_endian-big_endian, length-big_endian,
}
use s3_encryption_gateway.Chunk.{v2, tag_size, chunked_terminal_size}
use s3_encryption_gateway.Stream.Config.{
  Aead, ReaderConfig, IsAead, terminal_params, encode_chunked_terminal,
}
use s3_encryption_gateway.Stream.Format.{IsRecord, IsTerminal, absent, present, Seals}
use s3_encryption_gateway.Stream.Format.Next.{Next, Seals-cases}
use s3_encryption_gateway.Stream.Format.Amounts.{
  length-encode_chunked_terminal, length-record, length-Next, Seals_least, only-IsTerminal,
  last_or_full,
}
use s3_encryption_gateway.Stream.Source.Healthy.{IsHealthy}
use s3_encryption_gateway.Stream.Loop.{is_some}
use s3_encryption_gateway.Stream.Loop.Total.{Owes}
use s3_encryption_gateway.Stream.Decrypt.{
  DecryptState, DecryptReader, decrypt_data, decrypt_records, decrypt_end, verify_terminal,
  conclude, set_lookbehind, unit_size,
}
use s3_encryption_gateway.Stream.Decrypt.Records.{ahead, opened}
use s3_encryption_gateway.Stream.Decrypt.Sound.{AreAeads}

-- A part of bytes consists of bytes.
pub AreBytes_front : (xs ys : Bytes) → AreBytes (xs ++ ys) → AreBytes xs × AreBytes ys
AreBytes_front [] ys h = (tt, h)
AreBytes_front (x ∷ xs) ys h = let i = AreBytes_front xs ys h.1 in ((h.0, i.0), i.1)

-- The front of what is held and still to be read, when it is held.
pub take_front :
    (held later front rest : Bytes) (n : ℕ)
    → held ++ later ≡ front ++ rest
    → length front ≡ n
    → n ≤ length held
    → (take n held ≡ front) × (drop n held ++ later ≡ rest)
take_front held later front rest n e l h =
    append_split (take n held) front (omega (arith, length-take n held)) (
      sym (append_assoc (take n held) (drop n held) later)
      ∙ ap (λ x. x ++ later) (take-append-drop n held)
      ∙ e)

from_encoded :
    (count size : ℕ)
    → count ≤ max_uint64
    → size ≤ max_uint64
    → (from_big_endian (take 8 (encode_chunked_terminal count size)) ≡ count)
      × (from_big_endian (drop 8 (encode_chunked_terminal count size)) ≡ size)
unfolding encode_chunked_terminal
from_encoded count size c s =
    let f =
      take_front (big_endian 8 count ++ big_endian 8 size) [] (big_endian 8 count)
        (big_endian 8 size) 8 (append-nil _) (length-big_endian 8 count)
        (omega (
          arith,
          length-append (big_endian 8 count) (big_endian 8 size),
          length-big_endian 8 count,
        )) in
    (
      ap from_big_endian f.0 ∙ from_big_endian-big_endian 8 count (omega arith),
      ap from_big_endian (sym (append-nil _) ∙ f.1)
          ∙ from_big_endian-big_endian 8 size (omega arith),
    )

AreBytes-encode : (count size : ℕ) → AreBytes (encode_chunked_terminal count size)
unfolding encode_chunked_terminal
AreBytes-encode count size =
    AreBytes-append (big_endian 8 count) (big_endian 8 size) (AreBytes-big_endian 8 count)
      (AreBytes-big_endian 8 size)

module _ (cfg : ReaderConfig) (laws : AreAeads cfg) (v : cfg.version ≡ v2)
    (pos : 0 < cfg.chunk_size) where
  -- The source is healthy and what is held and still in it is the ciphertext of `t`.
  pub record Ready (s : DecryptState) (t : Bytes) : Type 0 where
    pub healthy : IsHealthy s.source
    pub seals : Seals cfg 1 s.index s.plain_size t (s.lookbehind ++ s.source.bytes)
    pub are_bytes : AreBytes t
    pub size_fits : s.plain_size + length t ≤ max_uint64
    pub index_fits : s.index ≤ max_uint64

  pub decrypt_data_total :
      (r : DecryptReader) (text sealed : Bytes)
      → IsRecord cfg r.inner.index text sealed
      → AreBytes text
      → r.inner.plain_size + length text ≤ max_uint64
      → decrypt_data cfg r sealed ≡ opened cfg laws.data_laws r text
  unfolding decrypt_data
  decrypt_data_total r text sealed i b s =
      rw (i.params, i.sealed_is, laws.data_laws.unseal-seal i.nonce text i.aad b) (ground arith)

  pub verify_terminal_total :
      (s : DecryptState) (terminal : Bytes)
      → IsTerminal cfg s.index s.plain_size terminal
      → s.index ≤ max_uint64
      → s.plain_size ≤ max_uint64
      → verify_terminal cfg s terminal ≡ none
  unfolding verify_terminal
  verify_terminal_total s terminal (absent n e) i p = absurd (n v)
  verify_terminal_total s terminal (present a nonce aad w ea f e) i p =
      let l =
        (laws.terminal_laws a ea).length-seal nonce (encode_chunked_terminal s.index s.plain_size)
          aad in
      let n = length-encode_chunked_terminal s.index s.plain_size in
      let d = from_encoded s.index s.plain_size i p in
      simp (ea, f, e)
        (rw (l, n)
          (rw
            ((laws.terminal_laws a ea).unseal-seal nonce
              (encode_chunked_terminal s.index s.plain_size) aad
              (AreBytes-encode s.index s.plain_size))
            (rw (n, d.0, d.1) (ground arith))))

  -- The reader once it has opened the record `n` in front of what it holds.
  pub opened-Owes :
      (r : DecryptReader) (t : Bytes) (rest : Bytes)
      → r.done ≡ false
      → (w : Owes Ready r t) (n : Next cfg r.inner.index r.inner.plain_size w.later (ahead r))
      → rest ++ r.inner.source.bytes ≡ n.sealed_rest
      → Owes Ready (set_lookbehind rest (opened cfg laws.data_laws r n.part)) t
  opened-Owes r t rest going w n e =
      let now = w.before_end going in
      let b = AreBytes_front n.part n.text_rest (rw (sym n.text_is) now.are_bytes) in
      let l = length-append n.part n.text_rest in
      record {
        fine = w.fine;
        later = n.text_rest;
        splits =
            w.splits
            ∙ ap (λ x. r.pending ++ x) n.text_is
            ∙ sym (append_assoc r.pending n.part n.text_rest);
        at_end = λ d. cc;
        before_end = λ d. record {
          healthy = now.healthy;
          seals = rw e n.goes_on;
          are_bytes = b.1;
          size_fits = omega (arith, now.size_fits, ap (length {A = ℕ}) n.text_is, l);
          index_fits = omega arith;
        };
      }
