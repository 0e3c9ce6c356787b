-- ===== src/Base/Calls.antt =====
-- The result of a contract call. A call that does not succeed is rolled back by the host, so
-- a failure carries no state: `err` is a contract error, `trap` is a host trap (an arithmetic
-- overflow, an `unwrap` of nothing, a missing signature, a failing call of another contract).
use mathlib.Core.Path.{◌≡◌, refl}
use mathlib.Core.Logic.{◌⊎◌, inl, inr}
use mathlib.Core.Bool.{Bool, true, false}
use mathlib.Core.Option.{Option, none, some}

pub data Result (E A : Type 0) : Type 0 where
  ok : A → Result E A
  err : E → Result E A
  trap : Result E A

infixl 5 ◌>>=◌ ◌>>◌
abbrev pub ◌>>=◌ : {E A B : Type 0} → Result E A → (A → Result E B) → Result E B
ok a >>= f = f a
err e >>= f = err e
trap >>= f = trap

abbrev pub ◌>>◌ : {E B : Type 0} → Result E (Unit {0}) → Result E B → Result E B
m >> k = m >>= λ _. k

-- `if c { panic_with_error!(e) }`
abbrev pub fail_if : {E : Type 0} → Bool → E → Result E (Unit {0})
fail_if true e = err e
fail_if false e = ok tt

-- `o.unwrap_or_else(|| panic_with_error!(e))`, `o.ok_or(e)?`
abbrev pub or_err : {E A : Type 0} → Option A → E → Result E A
or_err none e = err e
or_err (some a) e = ok a

-- `o.unwrap()`
abbrev pub unwrap : {E A : Type 0} → Option A → Result E A
unwrap none = trap
unwrap (some a) = ok a

-- A host check, such as `require_auth` or a call of another contract: it passes or traps.
abbrev pub host : {E : Type 0} → Bool → Result E (Unit {0})
host true = ok tt
host false = trap

abbrev pub has_failed : {E A : Type 0} → Result E A → Bool
has_failed (ok a) = false
has_failed _ = true

-- To split on a call inside another, and keep the value that it gives.
pub Call-cases : {E A : Type 0} (m : Result E A) → ((a : A) × (m ≡ ok a)) ⊎ (has_failed m ≡ true)
Call-cases (ok a) = inl (a, refl)
Call-cases (err e) = inr refl
Call-cases trap = inr refl
