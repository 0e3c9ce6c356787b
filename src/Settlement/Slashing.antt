-- ===== src/Settlement/Slashing.antt =====
-- What a missed fill costs: the bounds of the slash, and the bond that is left.
use vortex_contracts.Base.{
  ℕ, ◌-◌, ◌/◌, ◌≡◌, ◌≤◌, ◌<◌, max, some, arith, ok, ap, refl, ◌∙◌, ◌==◌, if◌then◌else◌,
}
use vortex_contracts.Base.Int.{ℤ, pos, pos_part, ◌-ℤ◌}
use vortex_contracts.Base.Dict.{get, get-put}
use vortex_contracts.Settlement.Types.{SolverRecord}
use vortex_contracts.Settlement.State.{Env, Storage, save_intent}
use vortex_contracts.Settlement.Bonds.{
  compute_slash_amount, get_solver_bond_amount, set_solver_bond_amount,
}
use vortex_contracts.Settlement.Slash.{slash_solver, slash_effects, penalized, slashed_bond, Miss}
use vortex_contracts.Settlement.Success.Outcomes.{slash_solver-eq-ok}

abbrev pub slash_cap : ℕ → ℕ
slash_cap bond = max (bond / 10) 1

-- On a positive bond the slash is at least 1 and at most the bond, at most a tenth of the bond or
-- 1, and at most a tenth of the unfilled amount or 1.
pub compute_slash_amount-bounds :
    (bond : ℕ) (unfilled : ℤ)
    → 0 < bond
    → (1 ≤ compute_slash_amount bond unfilled)
      × (compute_slash_amount bond unfilled ≤ bond)
      × (compute_slash_amount bond unfilled ≤ slash_cap bond)
      × (compute_slash_amount bond unfilled ≤ max (pos_part unfilled / 10) 1)
unfolding compute_slash_amount
compute_slash_amount-bounds bond unfilled h = ground arith

set_then_get :
    (s s' : Storage) (default solver : ℕ) (r : SolverRecord) (token n other : ℕ)
    → s'.solver_bond ≡ (set_solver_bond_amount s default solver r token n).1
    → get_solver_bond_amount s' default solver
        (set_solver_bond_amount s default solver r token n).0
        other
      ≡ (if token == other then n else get_solver_bond_amount s default solver r other)
unfolding set_solver_bond_amount get_solver_bond_amount
set_then_get s s' default solver r token n other h = ground arith

slash_le_bond : (bond : ℕ) (u : ℤ) → compute_slash_amount bond u ≤ bond
unfolding compute_slash_amount
slash_le_bond bond u = ground arith

-- A successful slash takes at most the bond before it, leaves the solver's bond in the intent's
-- bond token lower by exactly the slash, and leaves its bond in every other token as it was.
pub slash_solver-bond :
    (e : Env) (s : Storage) (id token : ℕ) {s' : Storage}
    → slash_solver e id s ≡ ok s'
    → (m : Miss) × (r : SolverRecord) × (get s.solvers m.solver ≡ some m.solver_record)
      × (get s'.solvers m.solver ≡ some r)
      × (m.slash_amount ≤ m.bond_before)
      × (get_solver_bond_amount s' m.default_token m.solver r token ≡ (
          if m.intent.bond_token == token
          then m.bond_before - m.slash_amount
          else get_solver_bond_amount s m.default_token m.solver m.solver_record token))
unfolding slash_effects penalized slashed_bond save_intent get_solver_bond_amount
slash_solver-bond e s id token {s'} h =
    let (m, x, b, p, _, w) = slash_solver-eq-ok e s id h in
    (
      m,
      penalized e m s,
      p.solver_found,
      ground (arith, w, get-put s.solvers m.solver m.solver (penalized e m s)),
      ground (
        arith,
        p.slash_exact,
        slash_le_bond m.bond_before (m.intent.min_dst_amount -ℤ pos m.intent.total_filled),
      ),
      ap
            (λ (u : Storage).
              get_solver_bond_amount u m.default_token m.solver (penalized e m s) token)
            w
          ∙ set_then_get s (slash_effects e id x b m s) m.default_token m.solver m.solver_record
              m.intent.bond_token (m.bond_before - m.slash_amount) token refl,
    )
