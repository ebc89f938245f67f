-- ===== src/Stream/Loop/Drain.antt =====
-- A client that reads until the end of the file, with buffers of any sizes (as io.ReadAll does).
use s3_encryption_gateway.Prelude.{
  ℕ, ◌<◌, List, [], ◌∷◌, ◌++◌, Bytes, replicate, zero, suc, ◌≡◌, refl, arith,
}
use s3_encryption_gateway.Stream.Loop.{Reader, Outcome, more, eof, failed, ReadResult}

-- What the client has after a read, and after those that follow it.
unfoldable pub after : Outcome → Bytes → Bytes × Outcome → Bytes × Outcome
after more out rest = (out ++ rest.0, rest.1)
after eof out rest = (out, eof)
after (failed e) out rest = (out, failed e)

abbrev pub ArePositive : List ℕ → Type 0
ArePositive [] = Unit
ArePositive (w ∷ ws) = (0 < w) × ArePositive ws

pub ArePositive-replicate : (n w : ℕ) → 0 < w → ArePositive (replicate n w)
ArePositive-replicate zero w h = tt
ArePositive-replicate (suc n) w h = (h, ArePositive-replicate n w h)

module _ {ℓ} {S : Type ℓ} (read : Reader S → ℕ → ReadResult S) where
  -- Reads with the given buffer sizes until one does not return `more`.
  unfoldable pub drain : List ℕ → Reader S → Bytes × Outcome
  unfolding after
  drain [] r = ([], more)
  drain (w ∷ ws) r = let x = read r w in after x.outcome x.out (drain ws x.reader)

  -- What holds of the rest before and after each read holds of all that was read.
  pub drain_induction :
      (P : Reader S → Bytes → Type 0)
      → ((r : Reader S) (w : ℕ) (t : Bytes)
          → 0 < w
          → (read r w).outcome ≡ more
          → P (read r w).reader t
          → P r ((read r w).out ++ t))
      → ((r : Reader S) (w : ℕ) → 0 < w → (read r w).outcome ≡ eof → P r (read r w).out)
      → (ws : List ℕ) (r : Reader S) → ArePositive ws
      → (drain ws r).1 ≡ eof
      → P r (drain ws r).0
  unfolding drain
  drain_induction P onward at_end [] r p e = absurd (ground arith)
  drain_induction P onward at_end (w ∷ ws) r p e =
      go (read r w).outcome refl e (drain_induction P onward at_end ws (read r w).reader p.1)
    where
      go :
          (o : Outcome)
          → (read r w).outcome ≡ o
          → (after (read r w).outcome (read r w).out (drain ws (read r w).reader)).1 ≡ eof
          → ((drain ws (read r w).reader).1 ≡ eof
              → P (read r w).reader (drain ws (read r w).reader).0)
          → P r (after (read r w).outcome (read r w).out (drain ws (read r w).reader)).0
      go more o e' ih = rw o (onward r w (drain ws (read r w).reader).0 p.0 o (ih (rw o at e')))
      go eof o e' ih = rw o (at_end r w p.0 o)
      go (failed x) o e' ih = absurd (ground arith)
