-- ===== src/Math/Agreement.antt =====
-- The pure helpers and the settlement contract's own copies of them.
use vortex_contracts.Base.{ℕ, ◌≡◌, ◌≤◌, refl, suc, zero, arith}
use vortex_contracts.Base.Int.{ℤ, pos}
use vortex_contracts.Settlement.Bonds
use vortex_contracts.Math.Formulas.{compute_slash_amount, tier_fill_window}

same_window :
    (tier base : ℕ) → tier ≤ 4 → tier_fill_window tier base ≡ Bonds.tier_fill_window tier base
unfolding tier_fill_window Bonds.tier_fill_window
same_window zero base h = refl
same_window (suc zero) base h = refl
same_window (suc (suc zero)) base h = refl
same_window (suc (suc (suc zero))) base h = refl
same_window (suc (suc (suc (suc zero)))) base h = refl
same_window (suc (suc (suc (suc (suc tier))))) base h = absurd (omega (arith, h))

-- On a bond that is not negative the slash of the pure helper is that of the settlement
-- contract's own function, and for tiers up to 4 so is the fill window.
pub helpers_agree :
    (bond tier base : ℕ) (unfilled : ℤ)
    → tier ≤ 4
    → (compute_slash_amount (pos bond) unfilled ≡ Bonds.compute_slash_amount bond unfilled)
      × (tier_fill_window tier base ≡ Bonds.tier_fill_window tier base)
unfolding compute_slash_amount Bonds.compute_slash_amount
helpers_agree bond tier base unfilled h = (refl, same_window tier base h)
