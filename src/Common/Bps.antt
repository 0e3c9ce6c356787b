-- ===== src/Common/Bps.antt =====
-- vortex-common/src/lib.rs: arithmetic in basis points on `i128`, and the check for the admin.
use vortex_contracts.Base.{
  ℕ, min, ◌&&◌, Option, none, some, ltb, leb, ◌==◌, if◌then◌else◌, get_or, Result, ◌>>=◌, or_err,
  fail_if, not,
}
use vortex_contracts.Base.Checked.{i128_bound, checked_mul}
use vortex_contracts.Base.Int.{ℤ, pos, pos_part, neg_part, ◌+ℤ◌, ◌*ℤ◌, quot, rem, ltb_ℤ, leb_ℤ}

abbrev pub bps : ℕ
bps = 10_000

abbrev pub tier_slash_bps : ℕ
tier_slash_bps = 100

abbrev pub checked : ℤ → Option ℤ
checked z = if ltb (pos_part z) i128_bound && leb (neg_part z) i128_bound then some z else none

infixl 5 ◌>>=!◌
abbrev pub ◌>>=!◌ : Option ℤ → (ℤ → Option ℤ) → Option ℤ
none >>=! f = none
some z >>=! f = f z

unfoldable pub bps_mul_div : ℤ → ℤ → Option ℤ
bps_mul_div amount b = checked (amount *ℤ b) >>=! λ product. some (quot product bps)

pub data Rounding : Type 0 where
  floor ceil nearest : Rounding

-- The rounded quotient of a product, by the direction.
unfoldable pub rounded : Rounding → ℤ → Option ℤ
rounded Rounding.floor product = some (quot product bps)
rounded Rounding.ceil product =
    if ltb_ℤ (pos 0) (rem product bps)
    then checked (quot product bps +ℤ pos 1)
    else some (quot product bps)
rounded Rounding.nearest product =
    if leb_ℤ (pos bps) (rem product bps *ℤ pos 2)
    then checked (quot product bps +ℤ pos 1)
    else some (quot product bps)

unfoldable pub bps_mul_div_round : ℤ → ℤ → Rounding → Option ℤ
unfolding rounded
bps_mul_div_round amount b rounding = checked (amount *ℤ b) >>=! rounded rounding

-- The ceiling of a product, by the sign of the product.
unfoldable pub ceiling : ℤ → Option ℤ
ceiling product =
    if pos_part (rem product bps) == 0 && neg_part (rem product bps) == 0
    then some (quot product bps)
    else (if ltb_ℤ (pos 0) product
        then checked (quot product bps +ℤ pos 1)
        else some (quot product bps))

unfoldable pub bps_mul_div_ceil : ℤ → ℤ → Option ℤ
unfolding ceiling
bps_mul_div_ceil amount b = checked (amount *ℤ b) >>=! ceiling

unfoldable pub compute_slash_bps : ℕ → ℕ
compute_slash_bps tier = min (get_or (checked_mul tier tier_slash_bps) 0) bps

pub data CommonError : Type 0 where
  unauthorized not_initialized : CommonError

-- `admin` is what is stored under the key.
unfoldable pub require_admin : Option ℕ → ℕ → Result CommonError (Unit {0})
require_admin admin caller = do
  stored ← or_err admin CommonError.not_initialized
  fail_if (not (stored == caller)) CommonError.unauthorized
