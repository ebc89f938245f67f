-- ===== src/Stream/Loop.antt =====
-- The loop of `Read`, which the two readers share: it hands out what is pending, and fills again
-- until the buffer is full, the reader is done or an error is met.
pub mod Laws
pub mod Drain
pub mod Total
use Prim.Native.Nat.{min}
use mathlib.Core.List.{append_assoc, append-nil}
use s3_encryption_gateway.Prelude.{
  ℕ, zero, suc, ◌+◌, ◌-◌, ◌≤◌, ◌<◌, Bool, true, false, not, ◌&&◌, List, [], ◌∷◌, ◌++◌, Option, none,
  some, ltb, ◌==◌, if◌then◌else◌, Bytes, length, take, drop, ◌≡◌, refl, sym, ap, ◌∙◌, ◌⊎◌, inl, inr,
  arith, length-append, length-take, length-drop, take-append-drop, Bool-cases, Option-cases,
}
use s3_encryption_gateway.Stream.Source.{StreamError}

-- A reader: the fields that `Read` looks at, and those that belong to one kind of reader.
pub record Reader {ℓ} (S : Type ℓ) : Type ℓ where
  pub pending : Bytes
  pub done : Bool
  pub error : Option StreamError
  pub inner : S

pub data Outcome : Type 0 where
  more eof : Outcome
  failed : StreamError → Outcome

pub record ReadResult {ℓ} (S : Type ℓ) : Type ℓ where
  pub out : Bytes
  pub outcome : Outcome
  pub reader : Reader S

abbrev pub is_some {ℓ} : {A : Type ℓ} → Option A → Bool
is_some none = false
is_some (some a) = true

module _ {ℓ} {S : Type ℓ} (fill : Reader S → Reader S) where
  -- `want` bytes of the buffer are still free.
  unfoldable pub read_loop : ℕ → Reader S → ℕ → Bytes × Reader S
  read_loop zero r want = ([], r)
  read_loop (suc fuel) r want =
      let n = min want (length r.pending) in
      let copied = read_loop fuel (record r { pending = drop n r.pending }) (want - n) in
      let filled = fill r in
      let refilled = read_loop fuel filled want in
      if want == 0
      then ([], r)
      else if ltb 0 (length r.pending)
      then (take n r.pending ++ copied.0, copied.1)
      else if r.done
      then ([], r)
      else if is_some filled.error
      then ([], filled)
      else refilled
