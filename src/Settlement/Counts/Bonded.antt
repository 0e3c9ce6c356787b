-- ===== src/Settlement/Counts/Bonded.antt =====
-- The counters over the operations on a bond: `register_solver`, `withdraw_bond`,
-- `deregister_solver`.
use vortex_contracts.Base.{ℕ, ◌≡◌, sym, subst, arith, ok}
use vortex_contracts.Base.Int.{ℤ}
use vortex_contracts.Base.Dict.{weight}
use vortex_contracts.Settlement.State.{Env, Storage}
use vortex_contracts.Settlement.Bonds.{set_solver_bond_amount}
use vortex_contracts.Settlement.Solvers.{
  Deposit, active_record, bonded_record, register_solver_inner, deregister_solver,
  withdraw_bond_inner,
}
use vortex_contracts.Settlement.Success.Bonded.{
  register_solver-eq-ok, withdraw_bond-eq-ok, deregister_solver-eq-ok,
}
use vortex_contracts.Settlement.Counts.Moves.{IsCounted, Counted-solver, Counted-remove, active}

-- A registration keeps the number of the solver's intents; a new solver has none.
bonded_record-active :
    (e : Env) (solver bt n : ℕ) (d : Deposit) (s : Storage)
    → (bonded_record e solver bt n d s).0.active_intents ≡ weight active d.existing
unfolding bonded_record set_solver_bond_amount active_record
bonded_record-active e solver bt n d s = ground arith

module _ (e : Env) (s : Storage) {s' : Storage} (c : IsCounted s) where
  pub register_solver-IsCounted :
      (solver bt : ℕ) (amount : ℤ)
      → register_solver_inner e solver bt amount s ≡ ok s'
      → IsCounted s'
  register_solver-IsCounted solver bt amount h =
      let (d, p, w) = register_solver-eq-ok e s solver bt amount h in
      subst IsCounted (sym w) (
        Counted-solver c solver _
          (rw (← p.existing_exact) (bonded_record-active e solver bt _ d s)))

  pub withdraw_bond-IsCounted :
      (solver bt : ℕ) (amount : ℤ) → withdraw_bond_inner e solver bt amount s ≡ ok s' → IsCounted s'
  unfolding set_solver_bond_amount
  withdraw_bond-IsCounted solver bt amount h =
      let (r, n, k, d, p, w) = withdraw_bond-eq-ok e s solver bt amount h in
      subst IsCounted (sym w) (Counted-solver c solver _ (rw p.leaves.solver_found))

  pub deregister_solver-IsCounted :
      (solver : ℕ) → deregister_solver e solver s ≡ ok s' → IsCounted s'
  deregister_solver-IsCounted solver h =
      let (r, d, p, w) = deregister_solver-eq-ok e s solver h in
      subst IsCounted (sym w) (Counted-remove c solver (rw p.solver_found p.idle))
