-- ===== src/Settlement/Success/Checks.antt =====
-- What the checks of each operation have found when they pass.
use vortex_contracts.Base.{ℕ, ◌*◌, ◌/◌, ◌≡◌, ◌≤◌, ◌<◌, ◌||◌, Bool, true, false, some, arith, ok}
use vortex_contracts.Base.Int.{ℤ, pos, ◌-ℤ◌}
use vortex_contracts.Base.Dict.{get}
use vortex_contracts.Settlement.Types.{IntentRecord, SolverRecord, accepted}
use vortex_contracts.Settlement.State.{
  Env, Storage, load_config, load_intent, slash_eligible, require_not_paused,
}
use vortex_contracts.Settlement.Bonds.{get_solver_bond_amount, compute_slash_amount}
use vortex_contracts.Settlement.Accept.{is_open, accept_checks}
use vortex_contracts.Settlement.Fill.{Delivery, fill_checks}
use vortex_contracts.Settlement.Close.{
  is_just_open, is_bidding, cancel_checks, expire_checks, amend_checks,
}
use vortex_contracts.Settlement.Slash.{Miss, slash_checks}

module _ (e : Env) (s : Storage) where
  pub record CanAccept (solver id : ℕ) (i : IntentRecord) (r : SolverRecord) : Type 0 where
    pub intent_found : get s.intents id ≡ some i
    pub solver_found : get s.solvers solver ≡ some r
    pub was_open : is_open i.state ≡ true
    pub in_time : e.now < i.deadline
    pub below_cap : r.active_intents < (load_config s).max_active_intents_per_solver
    pub was_active : r.is_active ≡ true
    pub not_paused : s.paused ≡ false

  pub accept_checks-CanAccept :
      (solver id bt : ℕ) {c : IntentRecord × SolverRecord × ℕ}
      → accept_checks e solver id bt s ≡ ok c
      → CanAccept solver id c.0 c.1
  unfolding accept_checks load_intent require_not_paused
  accept_checks-CanAccept solver id bt h = ground arith

  pub record CanFill (solver id : ℕ) (amount : ℤ) (d : Delivery) : Type 0 where
    pub intent_found : get s.intents id ≡ some d.intent
    pub solver_found : get s.solvers solver ≡ some d.solver_record
    pub was_accepted : d.intent.state ≡ accepted
    pub assigned : d.intent.solver ≡ some solver
    pub in_time : e.now < d.intent.deadline
    pub delivered : amount ≡ pos d.amount
    pub not_zero : 0 < d.amount
    pub fee_exact : d.fee ≡ (d.amount * (load_config s).protocol_fee_bps) / 10_000

  pub fill_checks-CanFill :
      (solver id : ℕ) (amount : ℤ) (p : Bool) {d : Delivery}
      → fill_checks e solver id amount p s ≡ ok d
      → CanFill solver id amount d
  unfolding fill_checks load_intent
  fill_checks-CanFill solver id amount p h = ground arith

  pub record CanSlash (id : ℕ) (m : Miss) : Type 0 where
    pub intent_found : get s.intents id ≡ some m.intent
    pub solver_found : get s.solvers m.solver ≡ some m.solver_record
    pub was_accepted : m.intent.state ≡ accepted
    pub assigned : m.intent.solver ≡ some m.solver
    pub too_late : slash_eligible e.slash_grace_secs e.now m.intent.deadline ≡ true
    pub bond_exact :
        m.bond_before
        ≡ get_solver_bond_amount s m.default_token m.solver m.solver_record m.intent.bond_token
    pub slash_exact :
        m.slash_amount
        ≡ compute_slash_amount m.bond_before (m.intent.min_dst_amount -ℤ pos m.intent.total_filled)

  pub slash_checks-CanSlash : (id : ℕ) {m : Miss} → slash_checks e id s ≡ ok m → CanSlash id m
  unfolding slash_checks load_intent
  slash_checks-CanSlash id h = ground arith

  pub record CanCancel (user id : ℕ) (i : IntentRecord) : Type 0 where
    pub intent_found : get s.intents id ≡ some i
    pub owned : i.user ≡ user
    pub was_open : is_open i.state ≡ true

  pub cancel_checks-CanCancel :
      (user id : ℕ) {i : IntentRecord} → cancel_checks user id s ≡ ok i → CanCancel user id i
  unfolding cancel_checks load_intent
  cancel_checks-CanCancel user id h = ground arith

  pub record CanExpire (id : ℕ) (i : IntentRecord) : Type 0 where
    pub intent_found : get s.intents id ≡ some i
    pub was_open : is_open i.state ≡ true
    pub too_late : i.deadline ≤ e.now

  pub expire_checks-CanExpire :
      (id : ℕ) {i : IntentRecord} → expire_checks e id s ≡ ok i → CanExpire id i
  unfolding expire_checks load_intent
  expire_checks-CanExpire id h = ground arith

  pub record CanAmend (user id new_deadline : ℕ) (i : IntentRecord) : Type 0 where
    pub intent_found : get s.intents id ≡ some i
    pub owned : i.user ≡ user
    pub was_amendable : (is_just_open i.state || is_bidding i.state) ≡ true
    pub in_time : e.now < new_deadline

  pub amend_checks-CanAmend :
      (user id : ℕ) (m : ℤ) (d : ℕ) {i : IntentRecord}
      → amend_checks e user id m d s ≡ ok i
      → CanAmend user id d i
  unfolding amend_checks load_intent
  amend_checks-CanAmend user id m d h = ground arith
