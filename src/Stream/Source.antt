-- ===== src/Stream/Source.antt =====
-- The io.Reader that a reader reads from, and the context that it polls. A source holds the bytes
-- still to come and how it ends: with the end of the file, or with an error. `polls` holds what the
-- next checks of `ctx.Done()` see; once the list is used up the context is not cancelled.
pub mod Healthy
use mathlib.Core.List.{append-nil}
use s3_encryption_gateway.Prelude.{
  ℕ, Bool, false, List, [], ◌∷◌, Option, none, some, leb, if◌then◌else◌, Bytes, length, take, drop,
  ◌<◌, ◌≡◌, ◌⊎◌, inl, inr, refl, arith, Bool-cases, leb→le, ◌++◌, take-append-drop, length-take,
}
use s3_encryption_gateway.Aad.{AadError}

pub data StreamError : Type 0 where
  io_fault : ℕ → StreamError
  cancelled size_overflow count_overflow no_terminal_aead : StreamError
  incomplete open_failed : StreamError
  derivation : AadError → StreamError
  exceeds_declared short_source index_overflow : StreamError  -- of the readers of a part
  missing_size offset_overflow bad_start skip_failed : StreamError  -- of the reader of a range

pub record Source : Type 0 where
  pub bytes : Bytes
  pub fault : Option ℕ
  pub polls : List Bool

-- The error of io.ReadFull: none, an end of the file (io.EOF or io.ErrUnexpectedEOF), another.
pub data ReadEnd : Type 0 where
  full at_end : ReadEnd
  failed : ℕ → ReadEnd

abbrev pub end_of : Option ℕ → ReadEnd
end_of none = at_end
end_of (some e) = failed e

pub record Got : Type 0 where
  pub bytes : Bytes
  pub result : ReadEnd
  pub source : Source

-- io.ReadFull(source, buf) with a buffer of `size` bytes
unfoldable pub read_full : ℕ → Source → Got
read_full size s =
    if leb size (length s.bytes)
    then record {
      bytes = take size s.bytes;
      result = full;
      source = record s { bytes = drop size s.bytes };
    }
    else record { bytes = s.bytes; result = end_of s.fault; source = record s { bytes = [] } }

-- `select { case <-ctx.Done(): … default: }`
pub record Polled : Type 0 where
  pub cancelled : Bool
  pub source : Source

pub poll_list : Source → List Bool → Polled
poll_list s [] = record { cancelled = false; source = s }
poll_list s (b ∷ bs) = record { cancelled = b; source = record s { polls = bs } }

unfoldable pub poll : Source → Polled
unfolding poll_list
poll s = poll_list s s.polls

pub bytes-poll : (s : Source) → (poll s).source.bytes ≡ s.bytes
unfolding poll
bytes-poll s = go s.polls
  where
    go : (bs : List Bool) → (poll_list s bs).source.bytes ≡ s.bytes
    go [] = refl
    go (b ∷ bs) = refl

pub fault-poll : (s : Source) → (poll s).source.fault ≡ s.fault
unfolding poll
fault-poll s = go s.polls
  where
    go : (bs : List Bool) → (poll_list s bs).source.fault ≡ s.fault
    go [] = refl
    go (b ∷ bs) = refl

-- A read gives the next bytes: a full buffer, or all that is left and how the source ends.
pub record GotParts (size : ℕ) (s : Source) (g : Got) : Type 0 where
  pub splits : g.bytes ++ g.source.bytes ≡ s.bytes
  pub amount :
      ((length g.bytes ≡ size) × (g.result ≡ full))
      ⊎ ((length g.bytes < size) × (g.source.bytes ≡ []) × (g.result ≡ end_of s.fault))
  pub same_fault : g.source.fault ≡ s.fault

pub read_full-parts : (size : ℕ) (s : Source) → GotParts size s (read_full size s)
unfolding read_full
read_full-parts size s = elim (Bool-cases (leb size (length s.bytes))) [
  | inl h ↦ rw h (record {
    splits = take-append-drop size s.bytes;
    amount = inl (omega (arith, length-take size s.bytes, leb→le size (length s.bytes) h), refl);
    same_fault = refl;
  })
  | inr h ↦ rw h (record {
    splits = append-nil s.bytes;
    amount = inr (ground arith, refl, refl);
    same_fault = refl;
  })
]
