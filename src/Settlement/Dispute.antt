-- ===== src/Settlement/Dispute.antt =====
-- intent_settlement/src/lib.rs: the escrowed fill: `begin_fill`, `dispute_fill`,
-- `resolve_dispute`, `release_fill`. The source has `begin_fill` twice; the model takes the second,
-- which pulls the escrow.
use vortex_contracts.Base.{
  ℕ, ◌-◌, ◌/◌, Bool, true, false, not, Option, none, some, ltb, leb, ◌==◌, if◌then◌else◌,
  is_some_of, get_or, ok, err, ◌>>=◌, ◌>>◌, or_err, unwrap, fail_if,
}
use vortex_contracts.Base.Checked.{add_u32, add_u64, add_i128, checked_mul, fits_i128}
use vortex_contracts.Base.Int.{ℤ, pos, ◌-ℤ◌, ltb_ℤ}
use vortex_contracts.Base.Dict.{get, put}
use vortex_contracts.Settlement.Const
use vortex_contracts.Settlement.Types.{
  IntentState, IntentRecord, SolverRecord, DisputeResolution, upheld, dismissed, Error,
}
use vortex_contracts.Settlement.State.{
  Env, Storage, Transfer, Call, load_arbiter, load_intent, load_bond_token, save_intent,
  require_not_paused, require_auth, positive, transfer, transfer_positive, fill_window_open,
}
use vortex_contracts.Settlement.Bonds.{
  min_bond_for_token, get_solver_bond_amount, set_solver_bond_amount, compute_slash_amount,
}
use vortex_contracts.Settlement.Close.{is_accepted}

abbrev pub is_filling : IntentState → Bool
is_filling IntentState.filling = true
is_filling _ = false

abbrev pub is_disputed : IntentState → Bool
is_disputed IntentState.disputed = true
is_disputed _ = false

unfoldable pub begin_fill_checks : Env → ℕ → ℕ → ℤ → Storage → Call (IntentRecord × ℕ)
unfolding fill_window_open
begin_fill_checks e solver id fill_amount s = do
  require_auth e solver
  require_not_paused s
  intent ← load_intent s id
  fail_if (not (is_accepted intent.state)) Error.intent_not_accepted_for_fill
  fail_if (not (is_some_of intent.solver solver)) Error.unauthorized
  fail_if (not (fill_window_open e.now intent.deadline)) Error.fill_window_expired
  amount ← positive fill_amount Error.zero_amount
  total ← add_i128 intent.total_filled amount
  fail_if (ltb_ℤ (pos total) intent.min_dst_amount) Error.insufficient_output
  ok (intent, amount)

-- The amount recorded is the one received, which `pull_exact` measures.
unfoldable pub begin_fill : Env → ℕ → ℕ → ℤ → Storage → Call Storage
unfolding begin_fill_checks transfer save_intent
begin_fill e solver id fill_amount s = do
  found ← begin_fill_checks e solver id fill_amount s
  let (intent, amount) = found
  let pull : Transfer = record {
    token = intent.dst_token;
    from = solver;
    to = e.this;
    amount = amount;
  }
  until ← add_u64 e.now Const.dispute_window
  transfer e pull (
      save_intent s id (record intent {
        state = IntentState.filling;
        dispute_deadline = some until;
        fill_amount = some (e.received pull);
      }))

unfoldable pub dispute_checks : Env → ℕ → ℕ → Storage → Call IntentRecord
dispute_checks e user id s = do
  require_auth e user
  intent ← load_intent s id
  fail_if (not (is_filling intent.state)) Error.intent_not_filling
  fail_if (not (intent.user == user)) Error.unauthorized
  fail_if (leb (get_or intent.dispute_deadline 0) e.now) Error.dispute_window_closed
  ok intent

unfoldable pub dispute_fill : Env → ℕ → ℕ → Storage → Call Storage
unfolding dispute_checks save_intent
dispute_fill e user id s = do
  intent ← dispute_checks e user id s
  ok (
      save_intent s id
        (record intent { state = IntentState.disputed; dispute_raised_at = some e.now }))

-- An escrowed fill that is about to be settled.
pub record Escrow : Type 0 where
  pub intent : IntentRecord
  pub solver : ℕ
  pub found_record : SolverRecord
  pub fee_recipient : ℕ
  pub amount : ℕ

-- The solver's record with one intent less.
abbrev pub freed : Escrow → SolverRecord
freed x = record x.found_record { active_intents = x.found_record.active_intents - 1 }

escrow_of : IntentRecord → Storage → Call Escrow
escrow_of intent s = do
  solver ← unwrap intent.solver
  r ← unwrap (get s.solvers solver)
  recipient ← unwrap s.fee_recipient
  ok (record {
    intent = intent;
    solver = solver;
    found_record = r;
    fee_recipient = recipient;
    amount = get_or intent.fill_amount 0;
  })

unfoldable pub resolve_checks : Env → ℕ → ℕ → Storage → Call Escrow
unfolding escrow_of
resolve_checks e arbiter id s = do
  require_auth e arbiter
  named ← load_arbiter s
  fail_if (not (arbiter == named)) Error.not_arbiter
  intent ← load_intent s id
  fail_if (not (is_disputed intent.state)) Error.intent_not_disputed
  escrow_of intent s

escrow_fee : ℕ → Call ℕ
escrow_fee amount = do
  product ← or_err (checked_mul amount Const.protocol_fee_bps) Error.fee_overflow
  ok (product / 10_000)

-- The solver's record, the other tokens' bonds, the slash and the fee.
pub record Verdict : Type 0 where
  pub solver_record : SolverRecord
  pub bonds : ℕ → ℕ → ℕ
  pub slash_amount : ℕ
  pub fee : ℕ

unfoldable pub judge : Env → Escrow → DisputeResolution → Storage → Call Verdict
unfolding escrow_fee
judge e x upheld s = do
  default ← load_bond_token s
  let token = x.intent.bond_token
  unfilled ← fits_i128 (x.intent.min_dst_amount -ℤ pos x.intent.total_filled)
  let bond = get_solver_bond_amount s default x.solver (freed x) token
  let slash = compute_slash_amount bond unfilled
  failed ← add_u32 (freed x).fills_failed 1
  let (r, bonds) = set_solver_bond_amount s default x.solver (freed x) token (bond - slash)
  ok (record {
    solver_record = record r {
      fills_failed = failed;
      last_slash_time = e.now;
      is_active =
          if ltb (bond - slash) (min_bond_for_token s default token) then false else r.is_active;
    };
    bonds = bonds;
    slash_amount = slash;
    fee = 0;
  })
judge e x dismissed s = do
  fee ← escrow_fee x.amount
  completed ← add_u32 (freed x).fills_completed 1
  volume ← add_i128 (freed x).total_volume x.amount
  ok (record {
    solver_record = record (freed x) { fills_completed = completed; total_volume = volume };
    bonds = s.solver_bond;
    slash_amount = 0;
    fee = fee;
  })

abbrev pub settled : ℕ → ℕ → Escrow → IntentState → Option DisputeResolution → IntentRecord
settled now total x state resolution = record x.intent {
  total_filled = total;
  fill_amount = some total;
  filled_at = some now;
  state = state;
  terminal_at = some now;
  resolution = resolution;
}

-- The escrow less the fee goes to the user, and the fee to its recipient.
unfoldable pub pay_escrow : Env → Escrow → ℕ → Storage → Call Storage
unfolding transfer_positive
pay_escrow e x fee s = do
  let pay = λ (to n : ℕ).
      let t : Transfer = record {
        token = x.intent.dst_token;
        from = e.this;
        to = to;
        amount = n;
      } in
      t
  s1 ← transfer e (pay x.intent.user (x.amount - fee)) s
  transfer_positive e (pay x.fee_recipient fee) s1

abbrev pub volume_of : DisputeResolution → ℕ → ℕ
volume_of upheld n = 0
volume_of dismissed n = n

unfoldable pub resolve_dispute : Env → ℕ → ℕ → DisputeResolution → Storage → Call Storage
unfolding resolve_checks transfer_positive save_intent
resolve_dispute e arbiter id resolution s = do
  x ← resolve_checks e arbiter id s
  v ← judge e x resolution s
  total ← add_i128 x.intent.total_filled x.amount
  volume ← add_i128 s.total_volume (volume_of resolution x.amount)
  s1 ← pay_escrow e x v.fee (
      save_intent
        (record s {
          solvers = put s.solvers x.solver v.solver_record;
          solver_bond = v.bonds;
          total_volume = volume;
        })
        id (settled e.now total x IntentState.resolved (some resolution)))
  transfer_positive e
      (record {
        token = x.intent.bond_token;
        from = e.this;
        to = x.fee_recipient;
        amount = v.slash_amount;
      })
      s1

-- The end of a release: a fill nobody disputed is complete, a dispute nobody judged is closed.
pub record Release : Type 0 where
  pub solver_record : SolverRecord
  pub state : IntentState
  pub resolution : Option DisputeResolution
  pub fee : ℕ

unfoldable pub release_outcome : Env → Escrow → IntentState → Call Release
unfolding escrow_fee
release_outcome e x IntentState.filling = do
  fail_if (ltb e.now (get_or x.intent.dispute_deadline 0)) Error.dispute_window_still_open
  fee ← escrow_fee x.amount
  completed ← add_u32 (freed x).fills_completed 1
  volume ← add_i128 (freed x).total_volume x.amount
  ok (record {
    solver_record = record (freed x) { fills_completed = completed; total_volume = volume };
    state = IntentState.filled;
    resolution = x.intent.resolution;
    fee = fee;
  })
release_outcome e x IntentState.disputed = do
  end ← add_u64 (get_or x.intent.dispute_raised_at 0) Const.arbiter_window
  fail_if (ltb e.now end) Error.dispute_window_still_open
  ok (record { solver_record = freed x; state = IntentState.resolved; resolution = none; fee = 0 })
release_outcome e x _ = err Error.intent_not_filling

unfoldable pub release_checks : ℕ → Storage → Call Escrow
unfolding escrow_of
release_checks id s = do intent ← load_intent s id; escrow_of intent s

unfoldable pub release_fill : Env → ℕ → Storage → Call Storage
unfolding release_checks save_intent
release_fill e id s = do
  x ← release_checks id s
  out ← release_outcome e x x.intent.state
  total ← add_i128 x.intent.total_filled x.amount
  volume ← add_i128 s.total_volume x.amount
  pay_escrow e x out.fee (
      save_intent
        (record s { solvers = put s.solvers x.solver out.solver_record; total_volume = volume }) id
        (settled e.now total x out.state out.resolution))
