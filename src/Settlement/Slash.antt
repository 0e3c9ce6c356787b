-- ===== src/Settlement/Slash.antt =====
-- intent_settlement/src/lib.rs: `slash_solver`. The source names two variables that no line of the
-- function binds: `cfg` is read as the loaded configuration, `fee_recipient` as the context's.
use vortex_contracts.Base.{
  ℕ, ◌+◌, ◌-◌, ◌/◌, false, not, none, ltb, if◌then◌else◌, get_or, ok, ◌>>=◌, ◌>>◌, unwrap, fail_if,
}
use vortex_contracts.Base.Checked.{add_u32, add_u64, add_i128, checked_mul, fits_i128}
use vortex_contracts.Base.Int.{ℤ, pos, ◌-ℤ◌}
use vortex_contracts.Base.Dict.{get, put}
use vortex_contracts.Settlement.Const
use vortex_contracts.Settlement.Types.{IntentState, IntentRecord, SolverRecord, Error}
use vortex_contracts.Settlement.State.{
  Env, Storage, Transfer, SolverIndex, Call, update, load_config, load_bond_token,
  load_fee_recipient, load_intent, save_intent, transfer_positive, slash_eligible,
}
use vortex_contracts.Settlement.Bonds.{
  min_bond_for_token, get_solver_bond_amount, set_solver_bond_amount, compute_slash_amount,
  exposure_notional, saturate,
}
use vortex_contracts.Settlement.Index.{solver_intents_remove}
use vortex_contracts.Settlement.Close.{is_accepted}

-- A missed fill: the intent, its solver, and the slash.
pub record Miss : Type 0 where
  pub intent : IntentRecord
  pub solver : ℕ
  pub solver_record : SolverRecord
  pub default_token : ℕ
  pub fee_recipient : ℕ
  pub bond_before : ℕ
  pub slash_amount : ℕ

unfoldable pub slash_checks : Env → ℕ → Storage → Call Miss
slash_checks e id s = do
  intent ← load_intent s id
  fail_if (not (is_accepted intent.state)) Error.intent_not_accepted
  fail_if (not (slash_eligible e.slash_grace_secs e.now intent.deadline)) Error.fill_window_expired
  solver ← unwrap intent.solver
  r ← unwrap (get s.solvers solver)
  recipient ← load_fee_recipient s
  default ← load_bond_token s
  unfilled ← fits_i128 (intent.min_dst_amount -ℤ pos intent.total_filled)
  let bond = get_solver_bond_amount s default solver r intent.bond_token
  ok (record {
    intent = intent;
    solver = solver;
    solver_record = r;
    default_token = default;
    fee_recipient = recipient;
    bond_before = bond;
    slash_amount = compute_slash_amount bond unfilled;
  })

-- The solver's record and the other tokens' bonds after the slash.
unfoldable pub slashed_bond : Miss → Storage → SolverRecord × (ℕ → ℕ → ℕ)
slashed_bond m s =
    set_solver_bond_amount s m.default_token m.solver m.solver_record m.intent.bond_token
      (m.bond_before - m.slash_amount)

unfoldable pub penalized : Env → Miss → Storage → SolverRecord
unfolding slashed_bond
penalized e m s = record (slashed_bond m s).0 {
  fills_failed = m.solver_record.fills_failed + 1;
  last_slash_time = e.now;
  active_intents = m.solver_record.active_intents - 1;
  is_active =
      if ltb (m.bond_before - m.slash_amount)
        (min_bond_for_token s m.default_token m.intent.bond_token)
      then false
      else m.solver_record.is_active;
}

unfoldable pub slash_effects : Env → ℕ → SolverIndex → ℤ → Miss → Storage → Storage
unfolding penalized save_intent
slash_effects e id index bonded m s =
    save_intent
      (record s {
        solvers = put s.solvers m.solver (penalized e m s);
        solver_bond = (slashed_bond m s).1;
        index = index;
        solver_exposure = update s.solver_exposure m.solver (
            saturate (
              s.solver_exposure m.solver
              -ℤ exposure_notional e s m.intent.dst_token m.intent.bond_token
                  (saturate (m.intent.min_dst_amount -ℤ pos m.intent.total_filled))));
        total_bonded = bonded;
        open_intents = s.open_intents + 1;
      })
      id
      (record m.intent {
        solver = none;
        solver_tier = 0;
        deadline = e.now + (load_config s).intent_expiry;
        state = IntentState.open_;
      })

-- The share of a slash that is credited to the backstop pool.
unfoldable pub vault_share : ℕ → ℕ → ℕ
vault_share bps slash =
    if ltb 0 bps then get_or (checked_mul slash bps) 0 / Const.bps_denominator else 0

-- The payout of the slash: the recipient's share, the pool's share, and then the whole slash. A
-- slash of 0 has shares of 0, and moves nothing.
unfoldable pub pay_slash : Env → Miss → Storage → Call Storage
unfolding transfer_positive vault_share
pay_slash e m s = do
  let share = vault_share (load_config s).backstop_vault_share_bps m.slash_amount
  let pay = λ (n : ℕ).
      let t : Transfer = record {
        token = m.intent.bond_token;
        from = e.this;
        to = m.fee_recipient;
        amount = n;
      } in
      t
  s1 ← transfer_positive e (pay (m.slash_amount - share)) s
  pool ← add_i128 s1.backstop_pool share
  transfer_positive e (pay m.slash_amount) (record s1 { backstop_pool = pool })

unfoldable pub slash_sums : Env → Miss → Storage → Call ℤ
slash_sums e m s = do
  _ ← add_u32 m.solver_record.fills_failed 1
  bonded ← fits_i128 (s.total_bonded -ℤ pos m.slash_amount)
  _ ← add_u64 e.now (load_config s).intent_expiry
  _ ← add_u64 s.open_intents 1
  ok bonded

unfoldable pub slash_solver : Env → ℕ → Storage → Call Storage
slash_solver e id s = do
  m ← slash_checks e id s
  bonded ← slash_sums e m s
  index ← solver_intents_remove s.index m.solver id
  pay_slash e m (slash_effects e id index bonded m s)
