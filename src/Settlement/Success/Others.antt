-- ===== src/Settlement/Success/Others.antt =====
-- What the checks have found when they pass: the escrowed fill, the solvers, the submission.
use vortex_contracts.Base.{
  ℕ, ◌+◌, ◌-◌, ◌≡◌, ◌≤◌, ◌<◌, false, none, some, arith, get_or, ok, is_some_of,
}
use vortex_contracts.Base.Int.{ℤ, pos, ◌≤ℤ◌}
use vortex_contracts.Base.Dict.{get}
use vortex_contracts.Settlement.Types.{IntentRecord, SolverRecord, accepted, filling, disputed}
use vortex_contracts.Settlement.State.{Env, Storage, load_intent, load_arbiter}
use vortex_contracts.Settlement.Bonds.{get_solver_bond_amount, min_bond_for_token}
use vortex_contracts.Settlement.Dispute.{
  Escrow, begin_fill_checks, dispute_checks, resolve_checks, release_checks,
}
use vortex_contracts.Settlement.Solvers.{
  Deposit, active_record, register_checks, deregister_checks, withdraw_checks,
}
use vortex_contracts.Settlement.Submit.{Request, Submission, submit_checks}

module _ (e : Env) (s : Storage) where
  pub record CanBegin (solver id : ℕ) (amount : ℤ) (i : IntentRecord) (n : ℕ) : Type 0 where
    pub intent_found : get s.intents id ≡ some i
    pub was_accepted : i.state ≡ accepted
    pub assigned : i.solver ≡ some solver
    pub in_time : e.now < i.deadline
    pub escrowed : amount ≡ pos n
    pub enough : i.min_dst_amount ≤ℤ pos (i.total_filled + n)

  pub begin_fill_checks-CanBegin :
      (solver id : ℕ) (amount : ℤ) {c : IntentRecord × ℕ}
      → begin_fill_checks e solver id amount s ≡ ok c
      → CanBegin solver id amount c.0 c.1
  unfolding begin_fill_checks load_intent
  begin_fill_checks-CanBegin solver id amount h = ground arith

  pub record CanDispute (user id : ℕ) (i : IntentRecord) : Type 0 where
    pub intent_found : get s.intents id ≡ some i
    pub was_filling : i.state ≡ filling
    pub owned : i.user ≡ user
    pub in_time : e.now < get_or i.dispute_deadline 0

  pub dispute_checks-CanDispute :
      (user id : ℕ) {i : IntentRecord} → dispute_checks e user id s ≡ ok i → CanDispute user id i
  unfolding dispute_checks load_intent
  dispute_checks-CanDispute user id h = ground arith

  pub record HasEscrow (id : ℕ) (x : Escrow) : Type 0 where
    pub intent_found : get s.intents id ≡ some x.intent
    pub assigned : x.intent.solver ≡ some x.solver
    pub solver_found : get s.solvers x.solver ≡ some x.found_record
    pub amount_exact : x.amount ≡ get_or x.intent.fill_amount 0
    pub recipient_set : s.fee_recipient ≡ some x.fee_recipient

  pub release_checks-HasEscrow : (id : ℕ) {x : Escrow} → release_checks id s ≡ ok x → HasEscrow id x
  unfolding release_checks load_intent
  release_checks-HasEscrow id h = ground arith

  pub resolve_checks-HasEscrow :
      (arbiter id : ℕ) {x : Escrow}
      → resolve_checks e arbiter id s ≡ ok x
      → HasEscrow id x × (x.intent.state ≡ disputed) × (load_arbiter s ≡ ok arbiter)
  unfolding resolve_checks load_intent load_arbiter
  resolve_checks-HasEscrow arbiter id h = ground arith

  pub record CanRegister (solver bond_token : ℕ) (amount : ℤ) (d : Deposit) : Type 0 where
    pub existing_exact : d.existing ≡ get s.solvers solver
    pub delivered : amount ≡ pos d.amount
    pub not_zero : 0 < d.amount
    pub bond_exact :
        d.existing_bond
        ≡ get_solver_bond_amount s d.default_token solver
            (active_record e.now d.existing)
            bond_token
    pub covers_minimum :
        min_bond_for_token s d.default_token bond_token ≤ d.existing_bond + d.amount

  pub register_checks-CanRegister :
      (solver bond_token : ℕ) (amount : ℤ) {d : Deposit}
      → register_checks e solver bond_token amount s ≡ ok d
      → CanRegister solver bond_token amount d
  unfolding register_checks
  register_checks-CanRegister solver bond_token amount h = ground arith

  pub record CanLeave (solver : ℕ) (r : SolverRecord) : Type 0 where
    pub solver_found : get s.solvers solver ≡ some r
    pub idle : r.active_intents ≡ 0

  pub deregister_checks-CanLeave :
      (solver : ℕ) {r : SolverRecord} → deregister_checks e solver s ≡ ok r → CanLeave solver r
  unfolding deregister_checks
  deregister_checks-CanLeave solver h = ground arith

  pub record CanWithdraw (solver bond_token : ℕ) (amount : ℤ) (r : SolverRecord)
      (n current default : ℕ) : Type 0 where
    pub leaves : CanLeave solver r
    pub delivered : amount ≡ pos n
    pub not_zero : 0 < n
    pub current_exact : current ≡ get_solver_bond_amount s default solver r bond_token
    pub covered : n ≤ current
    pub keeps_minimum : min_bond_for_token s default bond_token ≤ current - n

  pub withdraw_checks-CanWithdraw :
      (solver bond_token : ℕ) (amount : ℤ) {c : SolverRecord × ℕ × ℕ × ℕ}
      → withdraw_checks e solver bond_token amount s ≡ ok c
      → CanWithdraw solver bond_token amount c.0 c.1 c.2 c.3
  unfolding withdraw_checks
  withdraw_checks-CanWithdraw solver bond_token amount h = ground arith

  pub record CanSubmit (user : ℕ) (q : Request) (b : Submission) : Type 0 where
    pub is_new : get s.intents b.intent_id ≡ none
    pub not_closed : s.tombstone b.intent_id ≡ false
    pub src_positive : (q.src_amount ≡ pos b.src_amount) × (0 < b.src_amount)
    pub dst_positive : (q.min_dst_amount ≡ pos b.min_dst_amount) × (0 < b.min_dst_amount)
    pub in_future : e.now < b.expiry
    pub not_self : is_some_of q.referrer user ≡ false

  pub submit_checks-CanSubmit :
      (user : ℕ) (q : Request) {b : Submission}
      → submit_checks e user q s ≡ ok b
      → CanSubmit user q b
  unfolding submit_checks
  submit_checks-CanSubmit user q h = ground arith
