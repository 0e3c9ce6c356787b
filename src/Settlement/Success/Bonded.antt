-- ===== src/Settlement/Success/Bonded.antt =====
-- What the operations on a solver's bond have found and written when they succeed.
use vortex_contracts.Base.{ℕ, ◌-◌, ◌≡◌, List, [], ◌∷◌, arith, inl, inr, ok, Call-cases, ap, ◌∙◌}
use vortex_contracts.Base.Int.{ℤ, pos, ◌+ℤ◌}
use vortex_contracts.Base.Dict.{put, remove}
use vortex_contracts.Settlement.Types.{SolverRecord}
use vortex_contracts.Settlement.State.{Env, Storage, Transfer, transfer}
use vortex_contracts.Settlement.Bonds.{set_solver_bond_amount}
use vortex_contracts.Settlement.Solvers.{
  Deposit, register_checks, bonded_record, register_solver_inner, deregister_checks, refunds,
  clear_bonds, pay_refunds, deregister_solver, withdraw_checks, withdraw_bond_inner,
}
use vortex_contracts.Settlement.State.{load_bond_token}
use vortex_contracts.Settlement.Success.Payments.{transfer-eq-ok}
use vortex_contracts.Settlement.Success.Others.{
  CanRegister, CanLeave, CanWithdraw, register_checks-CanRegister, deregister_checks-CanLeave,
  withdraw_checks-CanWithdraw,
}

-- The calls that pay a list of refunds, the last one first.
unfoldable pub refund_calls : Env → ℕ → List (ℕ × ℕ) → List Transfer → List Transfer
refund_calls e solver [] calls = calls
refund_calls e solver ((t, n) ∷ ts) calls =
    refund_calls e solver ts (record { token = t; from = e.this; to = solver; amount = n } ∷ calls)

pub pay_refunds-eq-ok :
    (e : Env) (solver : ℕ) (owed : List (ℕ × ℕ)) (s : Storage) {s' : Storage}
    → pay_refunds e solver owed s ≡ ok s'
    → s' ≡ record s { calls = refund_calls e solver owed s.calls }
unfolding pay_refunds refund_calls
pay_refunds-eq-ok e solver [] s h = ground arith
pay_refunds-eq-ok e solver ((t, n) ∷ ts) s h =
    let pay : Transfer = record { token = t; from = e.this; to = solver; amount = n } in
    elim (Call-cases (transfer e pay s)) [
      | inl (s1, p) ↦
          pay_refunds-eq-ok e solver ts s1 (ground arith)
          ∙ ap (λ (s2 : Storage). record s2 { calls = refund_calls e solver ts s2.calls })
              (transfer-eq-ok e pay s p)
      | inr f ↦ absurd (ground arith)
    ]

module _ (e : Env) (s : Storage) where
  pub register_solver-eq-ok :
      (solver bt : ℕ) (amount : ℤ) {s' : Storage}
      → register_solver_inner e solver bt amount s ≡ ok s'
      → (d : Deposit) × CanRegister e s solver bt amount d
        × (let pull : Transfer = record {
          token = bt;
          from = solver;
          to = e.this;
          amount = d.amount;
        } in
            let b = bonded_record e solver bt (e.received pull) d s in
            s' ≡ record s {
              solvers = put s.solvers solver b.0;
              solver_bond = b.1;
              total_bonded = s.total_bonded +ℤ pos d.amount;
              total_solvers = s'.total_solvers;
              calls = pull ∷ s.calls;
            })
  unfolding register_solver_inner transfer
  register_solver-eq-ok solver bt amount h =
      elim (Call-cases (register_checks e solver bt amount s)) [
        | inl (d, c) ↦ (d, register_checks-CanRegister e s solver bt amount c, ground arith)
        | inr f ↦ absurd (ground arith)
      ]

  pub withdraw_bond-eq-ok :
      (solver bt : ℕ) (amount : ℤ) {s' : Storage}
      → withdraw_bond_inner e solver bt amount s ≡ ok s'
      → (r : SolverRecord) × (n current default : ℕ) × CanWithdraw e s solver bt amount r n current
          default
        × (let b = set_solver_bond_amount s default solver r bt (current - n) in
            s' ≡ record s {
              solvers = put s.solvers solver b.0;
              solver_bond = b.1;
              calls = record { token = bt; from = e.this; to = solver; amount = n } ∷ s.calls;
            })
  unfolding withdraw_bond_inner transfer
  withdraw_bond-eq-ok solver bt amount h =
      elim (Call-cases (withdraw_checks e solver bt amount s)) [
        | inl ((r, n, cur, def), c) ↦
            (r, n, cur, def, withdraw_checks-CanWithdraw e s solver bt amount c, ground arith)
        | inr f ↦ absurd (ground arith)
      ]

  pub deregister_solver-eq-ok :
      (solver : ℕ) {s' : Storage}
      → deregister_solver e solver s ≡ ok s'
      → (r : SolverRecord) × (default : ℕ) × CanLeave e s solver r
        × (let owed = refunds solver default r s in
            s' ≡ record s {
              solver_bond = clear_bonds solver default owed s.solver_bond;
              solvers = remove s.solvers solver;
              total_solvers = s.total_solvers - 1;
              calls = refund_calls e solver owed s.calls;
            })
  unfolding deregister_solver
  deregister_solver-eq-ok solver h = elim (Call-cases (deregister_checks e solver s)) [
    | inl (r, c) ↦ elim (Call-cases (load_bond_token s)) [
      | inl (def, b) ↦ (
        r,
        def,
        deregister_checks-CanLeave e s solver c,
        pay_refunds-eq-ok e solver (refunds solver def r s)
            (record s {
              solver_bond = clear_bonds solver def (refunds solver def r s) s.solver_bond;
              solvers = remove s.solvers solver;
              total_solvers = s.total_solvers - 1;
            })
            (ground arith),
      )
      | inr f ↦ absurd (ground arith)
    ]
    | inr f ↦ absurd (ground arith)
  ]
