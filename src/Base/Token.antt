-- ===== src/Base/Token.antt =====
-- Token transfers and the host of a call, for every contract of the repository.
use Prim.Native.Nat.{ℕ, ◌+◌}
use mathlib.Core.Bool.{Bool}
use mathlib.Core.List.{List, [], ◌∷◌}
use vortex_contracts.Base.Tests.{◌==◌, if◌then◌else◌}

-- A call `token.transfer(from, to, amount)`.
pub record Transfer : Type 0 where
  pub token : ℕ
  pub from : ℕ
  pub to : ℕ
  pub amount : ℕ

-- What a call reads from the host: the ledger's time, the contract's own address, the signatures
-- of the call, and the token calls that succeed.
pub record Host : Type 0 where
  pub now : ℕ
  pub this : ℕ
  pub auth : ℕ → Bool
  pub token_ok : Transfer → Bool

-- The sum of the amounts of the transfers of a log.
unfoldable pub paid : List Transfer → ℕ
paid [] = 0
paid (t ∷ ts) = t.amount + paid ts

-- What a contract has paid out of a token, and what others have paid it.
abbrev outgoing : ℕ → ℕ → Transfer → ℕ
outgoing this token t = if t.token == token then (if t.from == this then t.amount else 0) else 0

abbrev incoming : ℕ → ℕ → Transfer → ℕ
incoming this token t = if t.token == token then (if t.from == this then 0 else t.amount) else 0

unfoldable pub paid_out : ℕ → ℕ → List Transfer → ℕ
paid_out this token [] = 0
paid_out this token (t ∷ ts) = outgoing this token t + paid_out this token ts

unfoldable pub paid_in : ℕ → ℕ → List Transfer → ℕ
paid_in this token [] = 0
paid_in this token (t ∷ ts) = incoming this token t + paid_in this token ts
