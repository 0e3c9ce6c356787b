-- ===== src/Settlement/Fill.antt =====
-- intent_settlement/src/lib.rs: `fill_intent`. The source has two headers for the inner function;
-- the model takes the one with `require_proof`. The fee rate is read twice, from the same field.
use vortex_contracts.Base.{
  ℕ, ◌+◌, ◌-◌, ◌/◌, Bool, not, none, some, ltb, leb, if◌then◌else◌, is_some_of, ok, err, ◌>>=◌,
  ◌>>◌, or_err, unwrap, fail_if,
}
use vortex_contracts.Base.Checked.{add_u32, add_u64, add_i128, checked_mul}
use vortex_contracts.Base.Int.{ℤ, pos, ◌-ℤ◌, leb_ℤ}
use vortex_contracts.Base.Dict.{get, put}
use vortex_contracts.Settlement.Const
use vortex_contracts.Settlement.Types.{IntentState, IntentRecord, SolverRecord, Error}
use vortex_contracts.Settlement.State.{
  Env, Storage, SolverIndex, Call, update, load_config, load_fee_recipient, load_intent,
  save_intent, require_not_paused, require_auth, positive, transfer, transfer_positive,
}
use vortex_contracts.Settlement.Bonds.{exposure_notional, saturate}
use vortex_contracts.Settlement.Index.{solver_intents_remove}
use vortex_contracts.Settlement.Chains.{validate_proof}

-- `match &intent.state`
check_fill_state : IntentState → Call (Unit {0})
check_fill_state IntentState.accepted = ok tt
check_fill_state IntentState.filled = err Error.intent_already_filled
check_fill_state _ = err Error.intent_not_accepted

unfoldable pub check_fill_guards : IntentRecord → ℕ → ℕ → Call (Unit {0})
unfolding check_fill_state
check_fill_guards intent solver now = do
  fail_if (leb intent.deadline now) Error.fill_window_expired
  check_fill_state intent.state
  fail_if (not (is_some_of intent.solver solver)) Error.unauthorized

-- A fill that has passed the checks.
pub record Delivery : Type 0 where
  pub intent : IntentRecord
  pub solver_record : SolverRecord
  pub amount : ℕ
  pub fee : ℕ
  pub fee_recipient : ℕ

unfoldable pub fill_checks : Env → ℕ → ℕ → ℤ → Bool → Storage → Call Delivery
unfolding check_fill_guards
fill_checks e solver id fill_amount require_proof s = do
  require_not_paused s
  intent ← load_intent s id
  check_fill_guards intent solver e.now
  amount ← positive fill_amount Error.zero_amount
  fail_if (ltb Const.max_amount amount) Error.amount_too_large
  (if require_proof then validate_proof e s intent id else ok tt)
  recipient ← load_fee_recipient s
  product ← or_err (checked_mul amount (load_config s).protocol_fee_bps) Error.fee_overflow
  r ← unwrap (get s.solvers solver)
  ok (record {
    intent = intent;
    solver_record = r;
    amount = amount;
    fee = product / Const.bps_denominator;
    fee_recipient = recipient;
  })

-- Whether the delivered total reaches the minimum.
abbrev pub completes : Delivery → Bool
completes d = leb_ℤ d.intent.min_dst_amount (pos (d.intent.total_filled + d.amount))

unfoldable pub filled_intent : ℕ → Delivery → IntentRecord
filled_intent now d =
    let total = d.intent.total_filled + d.amount in
    if completes d
    then record d.intent {
      total_filled = total;
      fill_amount = some total;
      state = IntentState.filled;
      filled_at = some now;
      terminal_at = some now;
    }
    else record d.intent {
      total_filled = total;
      fill_amount = some total;
      state = IntentState.partially_filled;
      solver = none;
      solver_tier = 0;
      deadline = now + Const.intent_expiry;
    }

-- The solver's record after the fill: one intent less, and one more completed if it is complete.
unfoldable pub credited : Delivery → SolverRecord
credited d = record d.solver_record {
  total_volume = d.solver_record.total_volume + d.amount;
  active_intents = d.solver_record.active_intents - 1;
  fills_completed = d.solver_record.fills_completed + (if completes d then 1 else 0);
}

-- The exposure released: the whole minimum, or the part delivered.
abbrev pub released : Delivery → ℤ
released d = if completes d then d.intent.min_dst_amount else pos d.amount

unfoldable pub fill_effects : Env → ℕ → ℕ → SolverIndex → Delivery → Storage → Storage
unfolding filled_intent credited save_intent
fill_effects e solver id index d s =
    save_intent
      (record s {
        solvers = put s.solvers solver (credited d);
        index = index;
        solver_exposure = update s.solver_exposure solver (
            saturate (
              s.solver_exposure solver
              -ℤ exposure_notional e s d.intent.dst_token d.intent.bond_token (released d)));
        total_volume = s.total_volume + d.amount;
        open_intents = s.open_intents + (if completes d then 0 else 1);
      })
      id (filled_intent e.now d)

-- The sums of the fill that a type may be too small for.
unfoldable pub fill_sums : Env → Delivery → Storage → Call (Unit {0})
fill_sums e d s = do
  _ ← add_i128 d.intent.total_filled d.amount
  _ ← add_i128 d.solver_record.total_volume d.amount
  _ ← add_u32 d.solver_record.fills_completed (if completes d then 1 else 0)
  _ ← add_u64 e.now (if completes d then 0 else Const.intent_expiry)
  _ ← add_u64 s.open_intents (if completes d then 0 else 1)
  _ ← add_i128 s.total_volume d.amount
  ok tt

-- The solver pays the user, and then the fee.
unfoldable pub pay_fill : Env → ℕ → Delivery → Storage → Call Storage
unfolding transfer_positive transfer
pay_fill e solver d s = do
  s1 ←
      transfer e
        (record {
          token = d.intent.dst_token;
          from = solver;
          to = d.intent.user;
          amount = d.amount;
        })
        s
  transfer_positive e
      (record { token = d.intent.dst_token; from = solver; to = d.fee_recipient; amount = d.fee })
      s1

unfoldable pub fill_intent_inner : Env → ℕ → ℕ → ℤ → Bool → Storage → Call Storage
fill_intent_inner e solver id fill_amount require_proof s = do
  d ← fill_checks e solver id fill_amount require_proof s
  fill_sums e d s
  index ← solver_intents_remove s.index solver id
  pay_fill e solver d (fill_effects e solver id index d s)

unfoldable pub fill_intent : Env → ℕ → ℕ → ℤ → Bool → Storage → Call Storage
unfolding fill_intent_inner
fill_intent e solver id fill_amount require_proof s = do
  require_auth e solver
  fill_intent_inner e solver id fill_amount require_proof s
