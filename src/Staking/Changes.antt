-- ===== src/Staking/Changes.antt =====
-- solver_registry: what a successful operation has found and written.
use vortex_contracts.Base.{ℕ, ◌≡◌, none, some, arith, ok, inl, inr, Option-cases}
use vortex_contracts.Base.Token.{Host}
use vortex_contracts.Staking.State.{Staking}
use vortex_contracts.Staking.Admin.{
  initialize, require_admin, set_writer, propose_admin, accept_admin, cancel_admin_transfer,
  propose_writer, execute_writer, cancel_writer, default_thresholds,
}

-- An operation of the administrator leaves the stakes, the obligations and the thresholds.
pub record Administered (s s' : Staking) : Type 0 where
  pub was : (a : ℕ) × (s.admin ≡ some a)
  pub is : (a : ℕ) × (s'.admin ≡ some a)
  pub same_token : s'.bond_token ≡ s.bond_token
  pub same_thresholds : s'.thresholds ≡ s.thresholds
  pub same_total : s'.total_solvers ≡ s.total_solvers
  pub same_solvers : s'.solvers ≡ s.solvers
  pub same_recorded : s'.recorded ≡ s.recorded
  pub same_obligations : s'.obligations ≡ s.obligations
  pub same_counts : s'.open_counts ≡ s.open_counts
  pub same_calls : s'.calls ≡ s.calls

module _ (s s' : Staking) where
  roles_Administered :
      {a b : ℕ}
      → s.admin ≡ some a
      → s'.admin ≡ some b
      → s' ≡ record s {
        admin = s'.admin;
        pending_admin = s'.pending_admin;
        writer = s'.writer;
        pending_writer = s'.pending_writer;
      }
      → Administered s s'
  roles_Administered {a} {b} h k p = record {
    was = (a, h);
    is = (b, k);
    same_token = cc p;
    same_thresholds = cc p;
    same_total = cc p;
    same_solvers = cc p;
    same_recorded = cc p;
    same_obligations = cc p;
    same_counts = cc p;
    same_calls = cc p;
  }

  pub set_writer-Administered :
      (e : Host) (writer : ℕ) → set_writer e writer s ≡ ok s' → Administered s s'
  unfolding set_writer require_admin
  set_writer-Administered e writer h = elim (Option-cases s.admin) [
    | inl p ↦ absurd (ground arith)
    | inr (a, p) ↦ elim (Option-cases s.writer) [
      | inl q ↦ roles_Administered {b = a} p (ground arith) (ground arith)
      | inr (w, q) ↦ absurd (ground arith)
    ]
  ]

  pub propose_admin-Administered :
      (e : Host) (new : ℕ) → propose_admin e new s ≡ ok s' → Administered s s'
  unfolding propose_admin require_admin
  propose_admin-Administered e new h = elim (Option-cases s.admin) [
    | inl p ↦ absurd (ground arith)
    | inr (a, p) ↦ roles_Administered {b = a} p (ground arith) (ground arith)
  ]

  pub accept_admin-Administered :
      (e : Host) (new : ℕ) → accept_admin e new s ≡ ok s' → Administered s s'
  unfolding accept_admin
  accept_admin-Administered e new h = elim (Option-cases s.pending_admin) [
    | inl q ↦ absurd (ground arith)
    | inr (w, q) ↦ elim (Option-cases s.admin) [
      | inl p ↦ absurd (ground arith)
      | inr (a, p) ↦ roles_Administered {b = new} p (ground arith) (ground arith)
    ]
  ]

  pub cancel_admin_transfer-Administered :
      (e : Host) → cancel_admin_transfer e s ≡ ok s' → Administered s s'
  unfolding cancel_admin_transfer require_admin
  cancel_admin_transfer-Administered e h = elim (Option-cases s.admin) [
    | inl p ↦ absurd (ground arith)
    | inr (a, p) ↦ elim (Option-cases s.pending_admin) [
      | inl q ↦ absurd (ground arith)
      | inr (w, q) ↦ roles_Administered {b = a} p (ground arith) (ground arith)
    ]
  ]

  pub propose_writer-Administered :
      (e : Host) (new : ℕ) → propose_writer e new s ≡ ok s' → Administered s s'
  unfolding propose_writer require_admin
  propose_writer-Administered e new h = elim (Option-cases s.admin) [
    | inl p ↦ absurd (ground arith)
    | inr (a, p) ↦ roles_Administered {b = a} p (ground arith) (ground arith)
  ]

  pub execute_writer-Administered :
      (e : Host) (new : ℕ) → execute_writer e new s ≡ ok s' → Administered s s'
  unfolding execute_writer require_admin
  execute_writer-Administered e new h = elim (Option-cases s.admin) [
    | inl p ↦ absurd (ground arith)
    | inr (a, p) ↦ elim (Option-cases s.pending_writer) [
      | inl q ↦ absurd (ground arith)
      | inr (w, q) ↦ roles_Administered {b = a} p (ground arith) (ground arith)
    ]
  ]

  pub cancel_writer-Administered : (e : Host) → cancel_writer e s ≡ ok s' → Administered s s'
  unfolding cancel_writer require_admin
  cancel_writer-Administered e h = elim (Option-cases s.admin) [
    | inl p ↦ absurd (ground arith)
    | inr (a, p) ↦ elim (Option-cases s.pending_writer) [
      | inl q ↦ absurd (ground arith)
      | inr (w, q) ↦ roles_Administered {b = a} p (ground arith) (ground arith)
    ]
  ]

  pub initialize_lem :
      (e : Host) (admin bond_token fee_recipient : ℕ)
      → initialize e admin bond_token fee_recipient s ≡ ok s'
      → (s.admin ≡ none)
        × (s' ≡ record s {
          admin = some admin;
          bond_token = some bond_token;
          fee_recipient = some fee_recipient;
          total_solvers = some 0;
          thresholds = some default_thresholds;
        })
  unfolding initialize
  initialize_lem e admin bond_token fee_recipient h = elim (Option-cases s.admin) [
    | inr (a, p) ↦ absurd (ground arith)
    | inl p ↦ (p, ground arith)
  ]
