-- ===== src/Base/Checked.antt =====
-- Arithmetic under `overflow-checks = true`, on values that are not negative: a result that the
-- type cannot hold is a trap. `sub` is the subtraction of an unsigned type.
use Prim.Native.Nat.{ℕ, ◌+◌, ◌-◌, ◌*◌}
use mathlib.Core.Option.{Option, none, some}
use mathlib.Core.Bool.{◌&&◌}
use vortex_contracts.Base.Tests.{ltb, leb, if◌then◌else◌}
use vortex_contracts.Base.Int.{ℤ, pos_part, neg_part}
use vortex_contracts.Base.Calls.{Result, ok, trap}

abbrev pub u32_bound : ℕ
u32_bound = 4294967296

abbrev pub u64_bound : ℕ
u64_bound = 18446744073709551616

-- 2 ^ 127: one more than `i128::MAX`.
abbrev pub i128_bound : ℕ
i128_bound = 170141183460469231731687303715884105728

-- `n` if it is below the bound, else a trap.
abbrev pub fits : {E : Type 0} → ℕ → ℕ → Result E ℕ
fits bound n = if ltb n bound then ok n else trap

abbrev pub add_u32 : {E : Type 0} → ℕ → ℕ → Result E ℕ
add_u32 a b = fits u32_bound (a + b)

abbrev pub add_u64 : {E : Type 0} → ℕ → ℕ → Result E ℕ
add_u64 a b = fits u64_bound (a + b)

abbrev pub add_i128 : {E : Type 0} → ℕ → ℕ → Result E ℕ
add_i128 a b = fits i128_bound (a + b)

abbrev pub sub_u64 : {E : Type 0} → ℕ → ℕ → Result E ℕ
sub_u64 a b = if ltb a b then trap else ok (a - b)

-- `a.checked_mul(b)`
abbrev pub checked_mul : ℕ → ℕ → Option ℕ
checked_mul a b = if ltb (a * b) i128_bound then some (a * b) else none

-- `a.saturating_add(b)` on `u64`
abbrev pub sat_add_u64 : ℕ → ℕ → ℕ
sat_add_u64 a b = if ltb (a + b) u64_bound then a + b else u64_bound - 1

-- A signed sum or difference that `i128` cannot hold is a trap.
abbrev pub fits_i128 : {E : Type 0} → ℤ → Result E ℤ
fits_i128 z = if ltb (pos_part z) i128_bound && leb (neg_part z) i128_bound then ok z else trap
