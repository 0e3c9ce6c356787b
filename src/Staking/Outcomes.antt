-- ===== src/Staking/Outcomes.antt =====
-- solver_registry: what a successful change of a stake, a write of the settlement contract, or a
-- change of an obligation has found and written.
use vortex_contracts.Base.{
  ℕ, zero, suc, ◌+◌, ◌-◌, ◌≡◌, ◌≤◌, none, some, ◌∷◌, arith, ok, inl, inr, ◌⊎◌, Option-cases,
  Call-cases, Bool-cases, ltb,
}
use vortex_contracts.Base.Int.{ℤ, pos, negsuc}
use vortex_contracts.Base.Dict.{get, put, remove}
use vortex_contracts.Base.Token.{Transfer, Host}
use vortex_contracts.Staking.State.{SolverRecord, Staking, tier0_floor}
use vortex_contracts.Staking.Stakes.{
  pay, solver_count, register_solver, stake, unstake, deregister_solver, open_obligations,
}

-- A transfer of bond tokens between the registry and an address.
abbrev pub moved : ℕ → ℕ → ℕ → ℕ → Transfer
moved token from to amount = record { token = token; from = from; to = to; amount = amount }

module _ (s : Staking) where
  pub register_lem :
      (e : Host) (solver : ℕ) (bond_amount : ℤ) {s' : Staking}
      → register_solver e solver bond_amount s ≡ ok s'
      → (token : ℕ) × (r : SolverRecord) × (s.bond_token ≡ some token)
        × (get s.solvers solver ≡ none)
        × (s' ≡ record s {
          solvers = put s.solvers solver r;
          total_solvers = some (solver_count s + 1);
          calls = moved token solver e.this r.bond_amount ∷ s.calls;
        })
  unfolding register_solver pay
  register_lem e solver (negsuc n) h = absurd (ground arith)
  register_lem e solver (pos zero) h = absurd (ground arith)
  register_lem e solver (pos (suc n)) h = elim (Call-cases (tier0_floor s)) [
    | inr f ↦ absurd (ground arith)
    | inl (floor, f) ↦ elim (Option-cases s.bond_token) [
      | inl q ↦ absurd (ground arith)
      | inr (token, q) ↦ elim (Option-cases (get s.solvers solver)) [
        | inr (o, p) ↦ absurd (ground arith)
        | inl p ↦ (
          token,
          record {
            bond_amount = suc n;
            fills_completed = 0;
            fills_failed = 0;
            total_volume = 0;
            registered_at = e.now;
            last_slash_time = 0;
            slashed_total = 0;
          },
          q,
          p,
          ground arith,
        )
      ]
    ]
  ]

  pub stake_lem :
      (e : Host) (solver : ℕ) (amount : ℤ) {s' : Staking}
      → stake e solver amount s ≡ ok s'
      → (token n : ℕ) × (r : SolverRecord) × (s.bond_token ≡ some token)
        × (get s.solvers solver ≡ some r)
        × (s' ≡ record s {
          solvers = put s.solvers solver (record r { bond_amount = r.bond_amount + n });
          calls = moved token solver e.this n ∷ s.calls;
        })
  unfolding stake pay
  stake_lem e solver (negsuc n) h = absurd (ground arith)
  stake_lem e solver (pos zero) h = absurd (ground arith)
  stake_lem e solver (pos (suc n)) h = elim (Option-cases s.bond_token) [
    | inl q ↦ absurd (ground arith)
    | inr (token, q) ↦ elim (Option-cases (get s.solvers solver)) [
      | inl p ↦ absurd (ground arith)
      | inr (r, p) ↦ (token, suc n, r, q, p, ground arith)
    ]
  ]

  pub unstake_lem :
      (e : Host) (solver : ℕ) (amount : ℤ) {s' : Staking}
      → unstake e solver amount s ≡ ok s'
      → (token n : ℕ) × (r : SolverRecord) × (s.bond_token ≡ some token)
        × (get s.solvers solver ≡ some r)
        × (n ≤ r.bond_amount)
        × (open_obligations solver s ≡ 0)
        × (s' ≡ record s {
          solvers = put s.solvers solver (record r { bond_amount = r.bond_amount - n });
          calls = moved token e.this solver n ∷ s.calls;
        })
  unfolding unstake pay
  unstake_lem e solver (negsuc n) h = absurd (ground arith)
  unstake_lem e solver (pos zero) h = absurd (ground arith)
  unstake_lem e solver (pos (suc n)) h = elim (Option-cases s.bond_token) [
    | inl q ↦ elim (Option-cases (get s.solvers solver)) [
      | inl p ↦ absurd (ground arith)
      | inr (r, p) ↦ elim (Call-cases (tier0_floor s)) [
        | inr f ↦ absurd (ground arith)
        | inl (floor, f) ↦ absurd (ground arith)
      ]
    ]
    | inr (token, q) ↦ elim (Option-cases (get s.solvers solver)) [
      | inl p ↦ absurd (ground arith)
      | inr (r, p) ↦ elim (Call-cases (tier0_floor s)) [
        | inr f ↦ absurd (ground arith)
        | inl (floor, f) ↦ (token, suc n, r, q, p, ground arith, ground arith, ground arith)
      ]
    ]
  ]

  -- The tokens that a solver takes with it: none, or the whole bond.
  pub deregister_lem :
      (e : Host) (solver : ℕ) {s' : Staking}
      → deregister_solver e solver s ≡ ok s'
      → (r : SolverRecord) × (get s.solvers solver ≡ some r)
        × (open_obligations solver s ≡ 0)
        × (s' ≡ record s {
          solvers = remove s.solvers solver;
          total_solvers = some (solver_count s - 1);
          calls = s'.calls;
        })
        × (((r.bond_amount ≡ 0) × (s'.calls ≡ s.calls))
            ⊎ ((token : ℕ) × (s.bond_token ≡ some token)
                × (s'.calls ≡ moved token e.this solver r.bond_amount ∷ s.calls)))
  unfolding deregister_solver pay
  deregister_lem e solver h = elim (Option-cases (get s.solvers solver)) [
    | inl p ↦ absurd (ground arith)
    | inr (r, p) ↦ elim (Bool-cases (ltb 0 r.bond_amount)) [
      | inr z ↦ (r, p, ground arith, ground arith, inl (ground arith, ground arith))
      | inl z ↦ elim (Option-cases s.bond_token) [
        | inl q ↦ absurd (ground arith)
        | inr (token, q) ↦ (r, p, ground arith, ground arith, inr (token, q, ground arith))
      ]
    ]
  ]
