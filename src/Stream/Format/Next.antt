-- ===== src/Stream/Format/Next.antt =====
-- The wire format read from the front: nothing but the terminal, or one record and the rest.
use mathlib.Core.List.{append-nil}
use s3_encryption_gateway.Prelude.{
  ℕ, ◌+◌, ◌≤◌, ◌<◌, [], ◌++◌, Bytes, length, wrap64, ◌≡◌, refl, sym, ◌⊎◌, inl, inr, arith,
}
use s3_encryption_gateway.Stream.Config.{ReaderConfig}
use s3_encryption_gateway.Stream.Format.{IsRecord, IsTerminal, Seals, finish, last, chunk}

-- One record, which is full unless it is the last.
pub record Next (cfg : ReaderConfig) (index size : ℕ) (text sealed : Bytes) : Type 0 where
  pub part : Bytes
  pub piece : Bytes
  pub text_rest : Bytes
  pub sealed_rest : Bytes
  pub is_record : IsRecord cfg index part piece
  pub some_text : 0 < length part
  pub at_most : length part ≤ cfg.chunk_size
  pub fills : (length part ≡ cfg.chunk_size) ⊎ (text_rest ≡ [])
  pub goes_on : Seals cfg 1 (wrap64 (index + 1)) (size + length part) text_rest sealed_rest
  pub text_is : text ≡ part ++ text_rest
  pub sealed_is : sealed ≡ piece ++ sealed_rest

pub Seals-cases :
    (cfg : ReaderConfig) {index size : ℕ} {text sealed : Bytes}
    → 0 < cfg.chunk_size
    → Seals cfg 1 index size text sealed
    → ((text ≡ []) × IsTerminal cfg index size sealed) ⊎ Next cfg index size text sealed
Seals-cases cfg h (finish t) = inl (refl, t)
Seals-cases cfg {text} h (last piece terminal i s m t e) = inr (record {
  part = text;
  piece = piece;
  text_rest = [];
  sealed_rest = terminal;
  is_record = i;
  some_text = s;
  at_most = m;
  fills = inr refl;
  goes_on = finish t;
  text_is = sym (append-nil text);
  sealed_is = e;
})
Seals-cases cfg h (chunk part piece text_rest sealed_rest i l s e f) = inr (record {
  part = part;
  piece = piece;
  text_rest = text_rest;
  sealed_rest = sealed_rest;
  is_record = i;
  some_text = omega arith;
  at_most = omega arith;
  fills = inl l;
  goes_on = s;
  text_is = e;
  sealed_is = f;
})
