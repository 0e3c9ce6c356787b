-- ===== src/Staking/Runs.antt =====
-- solver_registry: its operations as a step relation.
use vortex_contracts.Base.{ℕ, ◌≡◌, ◌≢◌, ok}
use vortex_contracts.Base.Int.{ℤ}
use vortex_contracts.Base.Token.{Host}
use vortex_contracts.Staking.State.{Staking}
use vortex_contracts.Staking.Admin.{
  initialize, set_writer, propose_admin, accept_admin, cancel_admin_transfer, propose_writer,
  execute_writer, cancel_writer, set_tier_threshold,
}
use vortex_contracts.Staking.Stakes.{
  register_solver, stake, unstake, deregister_solver, record_fill, record_failure, slash,
  lock_obligation, release_obligation,
}

-- A call of the registry, which stands at the address `this` and is no solver.
pub data Step (this : ℕ) (s s' : Staking) : Type 0 where
  initialized :
      (e : Host) (admin token recipient : ℕ)
      → initialize e admin token recipient s ≡ ok s'
      → Step this s s'
  writer_set : (e : Host) (writer : ℕ) → set_writer e writer s ≡ ok s' → Step this s s'
  admin_proposed : (e : Host) (new : ℕ) → propose_admin e new s ≡ ok s' → Step this s s'
  admin_accepted : (e : Host) (new : ℕ) → accept_admin e new s ≡ ok s' → Step this s s'
  admin_cancelled : (e : Host) → cancel_admin_transfer e s ≡ ok s' → Step this s s'
  writer_proposed : (e : Host) (new : ℕ) → propose_writer e new s ≡ ok s' → Step this s s'
  writer_executed : (e : Host) (new : ℕ) → execute_writer e new s ≡ ok s' → Step this s s'
  writer_cancelled : (e : Host) → cancel_writer e s ≡ ok s' → Step this s s'
  threshold_set :
      (e : Host) (tier : ℕ) (bond : ℤ) (score : ℕ)
      → set_tier_threshold e tier bond score s ≡ ok s'
      → Step this s s'
  registered :
      (e : Host) (solver : ℕ) (bond : ℤ)
      → e.this ≡ this
      → solver ≢ this
      → register_solver e solver bond s ≡ ok s'
      → Step this s s'
  staked :
      (e : Host) (solver : ℕ) (amount : ℤ)
      → e.this ≡ this
      → solver ≢ this
      → stake e solver amount s ≡ ok s'
      → Step this s s'
  unstaked :
      (e : Host) (solver : ℕ) (amount : ℤ)
      → e.this ≡ this
      → unstake e solver amount s ≡ ok s'
      → Step this s s'
  deregistered :
      (e : Host) (solver : ℕ)
      → e.this ≡ this
      → deregister_solver e solver s ≡ ok s'
      → Step this s s'
  fill_recorded :
      (e : Host) (caller solver intent : ℕ) (amount : ℤ)
      → e.this ≡ this
      → record_fill e caller solver intent amount s ≡ ok s'
      → Step this s s'
  failure_recorded :
      (e : Host) (caller solver intent : ℕ)
      → e.this ≡ this
      → record_failure e caller solver intent s ≡ ok s'
      → Step this s s'
  was_slashed :
      (e : Host) (caller solver intent amount new_tier : ℕ)
      → e.this ≡ this
      → slash e caller solver intent s ≡ ok ((amount, new_tier), s')
      → Step this s s'
  locked :
      (e : Host) (caller solver intent n : ℕ)
      → lock_obligation e caller solver intent s ≡ ok (n, s')
      → Step this s s'
  released :
      (e : Host) (caller solver intent n : ℕ)
      → release_obligation e caller solver intent s ≡ ok (n, s')
      → Step this s s'

pub data Reach (this : ℕ) (s : Staking) : Staking → Type 0 where
  here : Reach this s s
  next : {t u : Staking} → Reach this s t → Step this t u → Reach this s u
