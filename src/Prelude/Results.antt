-- ===== src/Prelude/Results.antt =====
-- Errors as values: `AppError` and `RetryableError` of types.ts, and state that a failure rolls
-- back: a transaction returns the new state only with a result.
use Prim.Native.Nat.{ℕ}
use Prim.Native.String.{String}
use mathlib.Core.Path.{◌≡◌, refl}
use mathlib.Core.Logic.{◌⊎◌, inl, inr}
use mathlib.Core.Bool.{Bool, true, false}

-- `new AppError(code, status, publicMessage)`, `new RetryableError(code)`, and an `Error` of the
-- platform.
pub data Failure : Type 0 where
  app_error : String → ℕ → String → Failure
  retryable : String → Failure
  plain_error : String → Failure

-- The defaults of the constructor of `AppError`.
abbrev pub default_message : String
default_message =
    "\u{5d4}\u{5d1}\u{5e7}\u{5e9}\u{5d4} \u{5dc}\u{5d0} \u{5d4}\u{5d5}\u{5e9}\u{5dc}\u{5de}\u{5d4}."

abbrev pub error : String → Failure
error code = app_error code 400 default_message

abbrev pub error_status : String → ℕ → Failure
error_status code status = app_error code status default_message

pub data Result {ℓ} (A : Type ℓ) : Type ℓ where
  ok : A → Result A
  err : Failure → Result A

-- The statements behind one that may throw.
abbrev pub ◌>>=◌ {κ ℓ} : {S : Type κ} {T : Type ℓ} → Result S → (S → Result T) → Result T
◌>>=◌ (err why) next = err why
◌>>=◌ (ok value) next = next value

abbrev pub ◌>>◌ {ℓ} : {T : Type ℓ} → Result (Unit {0}) → Result T → Result T
◌>>◌ (err why) next = err why
◌>>◌ (ok _) next = next

infixl 5 ◌>>=◌ ◌>>◌
-- `if (!b) throw e`
abbrev pub ensure : Bool → Failure → Result (Unit {0})
ensure true e = ok tt
ensure false e = err e

pub Result-cases {ℓ} :
    {A : Type ℓ} (m : Result A) → ((a : A) × (m ≡ ok a)) ⊎ ((e : Failure) × (m ≡ err e))
Result-cases (ok a) = inl (a, refl)
Result-cases (err e) = inr (e, refl)

pub ok_injective {ℓ} : {A : Type ℓ} {a b : A} → ok a ≡ ok b → a ≡ b
ok_injective h = cc

-- The value behind a step of a `do` block that returned.
pub bound {κ ℓ} :
    {A : Type κ} {B : Type ℓ} (m : Result A) (k : A → Result B) (b : B)
    → (m >>= k) ≡ ok b
    → (a : A) × (m ≡ ok a) × (k a ≡ ok b)
bound (ok a) k b h = (a, refl, h)
bound (err e) k b h = absurd (cc)
