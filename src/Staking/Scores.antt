-- ===== src/Staking/Scores.antt =====
-- solver_registry: the score of a solver, and the volumes at which it cannot be computed.
use vortex_contracts.Base.{
  ℕ, ◌+◌, ◌-◌, ◌*◌, ◌/◌, ◌%◌, ◌≡◌, ◌≤◌, ◌<◌, arith, ok, inl, inr, Bool-cases, ◌==◌,
}
use vortex_contracts.Base.Checked.{u64_bound}
use vortex_contracts.Base.Division.{mul_le_mul, div_le_of}
use vortex_contracts.Staking.State.{SolverRecord, Staking, decay_bps, score_of}

base_bound : (a b : ℕ) → a * 10_000 / (a + b) ≤ 10_000
base_bound a b = div_le_of (a * 10_000) 10_000 (a + b) (omega arith)

product_bound : (a b : ℕ) → a ≤ 10_000 → b ≤ 10_000 → a * b / 10_000 ≤ 10_000
product_bound a b h k = let le = mul_le_mul a b 10_000 k in omega (arith, h, le)

decay_bound :
    (vol : ℕ)
    → vol + 1_000_000_000_001 < u64_bound
    → (d : ℕ) × (decay_bps vol ≡ ok d) × (d ≤ 10_000)
unfolding decay_bps
decay_bound vol h =
    let d = 10_000_000_000_000_000 / (1_000_000_000_000 + vol + 1) in
    let small =
      div_le_of 10_000_000_000_000_000 10_000 (1_000_000_000_000 + vol + 1) (omega arith) in
    (d, ground (arith, h), small)

-- PROPERTY
pub score_of-bounds :
    (r : SolverRecord)
    → r.total_volume + 1_000_000_000_001 < 18_446_744_073_709_551_616
    → (n : ℕ) × (score_of r ≡ ok n) × (n ≤ 10_000)
unfolding score_of
score_of-bounds r h = elim (Bool-cases (r.fills_completed + r.fills_failed == 0)) [
  | inl z ↦ (0, ground arith, omega arith)
  | inr z ↦
      let (d, p, q) = decay_bound r.total_volume h in
      let base = r.fills_completed * 10_000 / (r.fills_completed + r.fills_failed) in
      (
        base * (10_000 - d / 10) / 10_000,
        ground (arith, p, q),
        product_bound base (10_000 - d / 10) (base_bound r.fills_completed r.fills_failed)
            (omega arith),
      )
]

-- A volume that a `u64` sees as the negative of the scale and one.
abbrev pub WrapsToZero : ℕ → Type 0
WrapsToZero vol = (vol + 1_000_000_000_001) % u64_bound ≡ 0
