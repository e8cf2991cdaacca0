-- ===== src/Prelude/Outcome.antt =====
-- What a Python call ends with: a value, or an exception that is raised.
use mathlib.Core.Path.{◌≡◌, refl}
use mathlib.Core.Logic.{◌⊎◌, inl, inr}
use mathlib.Core.Bool.{Bool, true, false}
use Prim.Native.String.{String}

-- The exceptions that the modelled code raises or catches.
pub data Exn : Type 0 where
  value_error index_error key_error type_error zero_division stop_iteration attribute_error : Exn
  -- `configparser.NoSectionError` and `configparser.NoOptionError`
  no_section no_option : Exn
  runtime_error : String → Exn
  -- `logger.interrupt` logs the message and leaves the process by `sys.exit`
  interrupted : String → Exn

pub data Result {ℓ} (A : Type ℓ) : Type ℓ where
  ok : A → Result A
  err : Exn → Result A

infixl 5 ◌>>=◌ ◌>>◌
abbrev pub ◌>>=◌ {ℓ κ} : {A : Type ℓ} {B : Type κ} → Result A → (A → Result B) → Result B
ok a >>= f = f a
err e >>= f = err e

abbrev pub ◌>>◌ {ℓ κ} : {A : Type ℓ} {B : Type κ} → Result A → Result B → Result B
m >> k = m >>= λ _. k

-- The call returns, and its value satisfies `P`.
abbrev pub Returns {ℓ} : {A : Type ℓ} → Result A → (A → Type 0) → Type 0
Returns (ok a) P = P a
Returns (err e) P = ⊥

abbrev pub guard : Bool → Exn → Result (Unit {0})
guard true e = ok tt
guard false e = err e

pub returns_bind {ℓ κ} :
    {A : Type ℓ} {B : Type κ} (P : A → Type 0) (Q : B → Type 0) (r : Result A) (f : A → Result B)
    → Returns r P
    → ((a : A) → P a → Returns (f a) Q)
    → Returns (r >>= f) Q
returns_bind P Q (ok a) f h k = k a h
returns_bind P Q (err e) f h k = absurd h

pub returns_mono {ℓ} :
    {A : Type ℓ} (P Q : A → Type 0) (r : Result A)
    → Returns r P
    → ((a : A) → P a → Q a)
    → Returns r Q
returns_mono P Q (ok a) h k = k a h
returns_mono P Q (err e) h k = absurd h

-- Inversion of a successful bind.
pub >>=-eq-ok {ℓ κ} :
    {A : Type ℓ} {B : Type κ} (r : Result A) (f : A → Result B) {b : B}
    → (r >>= f) ≡ ok b
    → (a : A) × (r ≡ ok a) × (f a ≡ ok b)
>>=-eq-ok (ok a) f h = (a, refl, h)
>>=-eq-ok (err e) f h = cc

pub Result-cases {ℓ} :
    {A : Type ℓ} (r : Result A) → ((a : A) × (r ≡ ok a)) ⊎ ((e : Exn) × (r ≡ err e))
Result-cases (ok a) = inl (a, refl)
Result-cases (err e) = inr (e, refl)
