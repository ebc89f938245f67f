-- ===== src/Prelude/Results.antt =====
-- A function that may return an error: the value, or the error and no value.
use native.Mathlib.Omega.{arith}
use mathlib.Core.Path.{◌≡◌, refl, ap}
use mathlib.Core.Bool.{Bool, true, false, not, ◌&&◌, ◌||◌}
use s3_encryption_gateway.Prelude.Tests.{if◌then◌else◌}
use mathlib.Core.Logic.{◌⊎◌, inl, inr}

pub data Result {ℓ κ} (E : Type ℓ) (A : Type κ) : Type (ℓ ⊔ κ) where
  ok : A → Result E A
  err : E → Result E A

infixl 5 ◌>>=◌ ◌>>◌
abbrev pub ◌>>=◌ {ε ℓ κ} :
    {E : Type ε} {A : Type ℓ} {B : Type κ} → Result E A → (A → Result E B) → Result E B
ok a >>= f = f a
err e >>= f = err e

abbrev pub ◌>>◌ {ε ℓ} : {E : Type ε} {B : Type ℓ} → Result E (Unit {0}) → Result E B → Result E B
m >> k = m >>= λ _. k

-- `if !test { return err }`
abbrev pub guard {ε} : {E : Type ε} → Bool → E → Result E (Unit {0})
guard true e = ok tt
guard false e = err e

-- `if test { return err }`
abbrev pub reject {ε} : {E : Type ε} → Bool → E → Result E (Unit {0})
reject true e = err e
reject false e = ok tt

pub Result-cases {ε ℓ} :
    {E : Type ε} {A : Type ℓ} (r : Result E A) → ((a : A) × (r ≡ ok a)) ⊎ ((e : E) × (r ≡ err e))
Result-cases (ok a) = inl (a, refl)
Result-cases (err e) = inr (e, refl)

-- What a chain of checks has passed when it returns a value.
pub reject_passed {ε ℓ} :
    {E : Type ε} {B : Type ℓ} {b : B} (t : Bool) (e : E) (k : Result E B)
    → (reject t e >> k) ≡ ok b
    → (t ≡ false) × (k ≡ ok b)
reject_passed true e k h = ground (arith, h)
reject_passed false e k h = (refl, h)

pub or_passed : (s t : Bool) → (s || t) ≡ false → (s ≡ false) × (t ≡ false)
or_passed true t h = ground (arith, h)
or_passed false t h = (refl, h)

pub not_passed : (t : Bool) → not t ≡ false → t ≡ true
not_passed true h = refl
not_passed false h = ground (arith, h)

pub bind_passed {ε ℓ κ} :
    {E : Type ε} {A : Type ℓ} {B : Type κ} {b : B} (r : Result E A) (f : A → Result E B)
    → (r >>= f) ≡ ok b
    → (a : A) × (r ≡ ok a) × (f a ≡ ok b)
bind_passed (ok a) f h = (a, refl, h)
bind_passed (err e) f h = ground (arith, h)

value_or {ε ℓ} : {E : Type ε} {A : Type ℓ} → A → Result E A → A
value_or a (ok b) = b
value_or a (err e) = a

pub ok-injective {ε ℓ} :
    {E : Type ε} {A : Type ℓ} {a b : A} → ◌≡◌ {A = Result E A} (ok a) (ok b) → a ≡ b
unfolding value_or
ok-injective {a} h = ap (λ r. value_or a r) h

pub if_passed {ε ℓ} :
    {E : Type ε} {B : Type ℓ} {b : B} (t : Bool) (x y : Result E B)
    → (if t then x else y) ≡ ok b
    → ((t ≡ true) × (x ≡ ok b)) ⊎ ((t ≡ false) × (y ≡ ok b))
if_passed true x y h = inl (refl, h)
if_passed false x y h = inr (refl, h)

pub and_passed : (s t : Bool) → (s && t) ≡ true → (s ≡ true) × (t ≡ true)
and_passed true t h = (refl, h)
and_passed false t h = ground (arith, h)
