-- ===== src/Common/Examples.antt =====
-- The rounding theorems at concrete products.
use vortex_contracts.Base.{◌≡◌, refl, some}
use vortex_contracts.Base.Int.{pos, negsuc, ◌*ℤ◌, ◌+ℤ◌}
use vortex_contracts.Common.Bps.{bps_mul_div_round, bps_mul_div_ceil, rounded, ceiling, nearest}

ceil_of_101 : bps_mul_div_ceil (pos 101) (pos 100) ≡ some (pos 2)
unfolding bps_mul_div_ceil ceiling ◌*ℤ◌ ◌+ℤ◌
ceil_of_101 = refl

-- Minus 1.6 goes to minus 1.
nearest_of_negative : bps_mul_div_round (negsuc 159) (pos 100) nearest ≡ some (negsuc 0)
unfolding bps_mul_div_round rounded ◌*ℤ◌ ◌+ℤ◌
nearest_of_negative = refl
