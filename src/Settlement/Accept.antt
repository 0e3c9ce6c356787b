-- ===== src/Settlement/Accept.antt =====
-- intent_settlement/src/lib.rs: `accept_intent`, `accept_intent_with_bond`.
use vortex_contracts.Base.{
  ℕ, ◌+◌, ◌-◌, Bool, true, false, not, some, ltb, leb, ◌==◌, if◌then◌else◌, get_or, ok, ◌>>=◌, ◌>>◌,
  or_err, fail_if,
}
use vortex_contracts.Base.Checked.{add_u32, add_u64, checked_mul, i128_bound}
use vortex_contracts.Base.Int.{ℤ, pos, ◌+ℤ◌, ltb_ℤ}
use vortex_contracts.Base.Dict.{get, put}
use vortex_contracts.Settlement.Const
use vortex_contracts.Settlement.Types.{IntentState, IntentRecord, SolverRecord, Error}
use vortex_contracts.Settlement.State.{
  Env, Storage, Call, update, load_config, load_bond_token, load_fee_recipient, load_intent,
  save_intent, require_not_paused, require_auth,
}
use vortex_contracts.Settlement.Bonds.{
  min_bond_for_token, is_bond_token_allowed, get_solver_bond_amount, get_adjusted_min_bond,
  solver_tier, tier_fill_window, exposure_notional, saturate,
}
use vortex_contracts.Settlement.Index.{solver_intents_add}

-- `state == Open || state == PartiallyFilled`
abbrev pub is_open : IntentState → Bool
is_open IntentState.open_ = true
is_open IntentState.partially_filled = true
is_open _ = false

-- The sum is computed only after a slash.
unfoldable pub in_slash_cooldown : ℕ → ℕ → Call Bool
in_slash_cooldown now last =
    if ltb 0 last then (do end ← add_u64 last Const.slash_cooldown; ok (ltb now end)) else ok false

required_bond : Storage → ℕ → ℕ → ℕ → Call ℕ
required_bond s default dst_token bond_token =
    if bond_token == default
    then get_adjusted_min_bond s dst_token
    else ok (min_bond_for_token s default bond_token)

abbrev pub capacity : ℕ → ℕ → ℕ
capacity bond multiplier = get_or (checked_mul bond multiplier) (i128_bound - 1)

-- The checks of `accept_intent_inner_body`, in their order; they give the intent and the solver.
unfoldable pub accept_checks : Env → ℕ → ℕ → ℕ → Storage → Call (IntentRecord × SolverRecord × ℕ)
unfolding in_slash_cooldown required_bond
accept_checks e solver id bond_token s = do
  require_not_paused s
  _ ← load_fee_recipient s
  r ← or_err (get s.solvers solver) Error.solver_not_registered
  fail_if (not r.is_active) Error.solver_inactive
  cooling ← in_slash_cooldown e.now r.last_slash_time
  fail_if cooling Error.solver_inactive
  default ← load_bond_token s
  fail_if (not (is_bond_token_allowed s default bond_token)) Error.bond_token_not_allowed
  intent ← load_intent s id
  required ← required_bond s default intent.dst_token bond_token
  fail_if (ltb (get_solver_bond_amount s default solver r bond_token) required)
      Error.solver_bond_too_low
  fail_if (leb intent.deadline e.now) Error.intent_expired
  fail_if (not (is_open intent.state)) Error.intent_not_open
  fail_if (leb (load_config s).max_active_intents_per_solver r.active_intents)
      Error.max_active_intents_cap_reached
  ok (intent, r, get_solver_bond_amount s default solver r bond_token)

-- The writes of a successful acceptance. The list of open intents is left out: the source calls
-- `remove_from_open_intent_list` and does not declare it.
unfoldable pub accept_effects :
    ℕ → ℕ → ℕ → ℕ → ℕ → ℤ → IntentRecord → SolverRecord → Storage → Storage
unfolding save_intent
accept_effects solver id bond_token tier deadline exposure intent r s =
    save_intent
      (record s {
        solver_exposure = update s.solver_exposure solver exposure;
        solvers = put s.solvers solver (record r { active_intents = r.active_intents + 1 });
        index = solver_intents_add s.index solver id;
        open_intents = s.open_intents - 1;
      })
      id
      (record intent {
        solver = some solver;
        state = IntentState.accepted;
        bond_token = bond_token;
        solver_tier = tier;
        deadline = deadline;
      })

unfoldable pub accept_intent_inner_body : Env → ℕ → ℕ → ℕ → Storage → Call Storage
accept_intent_inner_body e solver id bond_token s = do
  found ← accept_checks e solver id bond_token s
  let (intent, r, bond) = found
  let tier = solver_tier e s solver
  deadline ← add_u64 e.now (tier_fill_window tier (load_config s).fill_window)
  _ ← add_u32 r.active_intents 1
  let notional = exposure_notional e s intent.dst_token bond_token intent.min_dst_amount
  let exposure = saturate (s.solver_exposure solver +ℤ notional)
  fail_if (ltb_ℤ (pos (capacity bond (load_config s).coverage_multiplier)) exposure)
      Error.exposure_exceeded
  ok (accept_effects solver id bond_token tier deadline exposure intent r s)

unfoldable pub accept_intent_with_bond : Env → ℕ → ℕ → ℕ → Storage → Call Storage
unfolding accept_intent_inner_body
accept_intent_with_bond e solver id bond_token s = do
  require_auth e solver
  accept_intent_inner_body e solver id bond_token s

unfoldable pub accept_intent : Env → ℕ → ℕ → Storage → Call Storage
unfolding accept_intent_with_bond
accept_intent e solver id s = do
  require_auth e solver
  bond_token ← load_bond_token s
  accept_intent_with_bond e solver id bond_token s
