-- ===== src/Settlement/Examples/Core.antt =====
-- A run of the contract, for the theorems' examples: a solver registers, a user submits an intent,
-- the solver takes it; from there it is filled, escrowed, disputed or missed.
use vortex_contracts.Base.{ℕ, ◌+◌, ◌≡◌, refl, true, false, none, some, List, [], ◌∷◌, ok}
use vortex_contracts.Base.Int.{pos, ◌+ℤ◌, ◌-ℤ◌}
use vortex_contracts.Base.Dict.{get, put}
use vortex_contracts.Settlement.Types.{IntentRecord, dismissed, accepted, filled}
use vortex_contracts.Settlement.State.{
  Env, Storage, Call, load_config, load_bond_token, load_fee_recipient, load_arbiter, load_intent,
  save_intent, require_not_paused, require_auth, transfer, fill_window_open, slash_eligible,
  transfer_positive,
}
use vortex_contracts.Settlement.Bonds.{
  min_bond_for_token, is_bond_token_allowed, get_solver_bond_amount, contains, without,
  listed_tokens, set_solver_bond_amount, compute_slash_amount, get_adjusted_min_bond, solver_tier,
  tier_fill_window, fetch_price, weight_bps, exposure_notional, saturate,
}
use vortex_contracts.Settlement.Index.{
  solver_intents_add, solver_intents_remove, user_intents_append,
}
use vortex_contracts.Settlement.Chains.{
  same, is_evm, is_hex, is_b58, all, after_0x, valid_src_token, validate_src_token,
  wormhole_chain_id, validate_proof, base,
}
use vortex_contracts.Settlement.Accept.{
  in_slash_cooldown, accept_checks, accept_effects, accept_intent_inner_body,
  accept_intent_with_bond, accept_intent,
}
use vortex_contracts.Settlement.Fill.{
  check_fill_guards, fill_checks, filled_intent, credited, fill_effects, fill_sums, pay_fill,
  fill_intent_inner, fill_intent,
}
use vortex_contracts.Settlement.Close.{
  check_cooldown, end_intent, cancel_checks, cancel_intent_core, cancel_intent, expire_checks,
  expire_intent, amend_checks, amend_intent,
}
use vortex_contracts.Settlement.Slash.{
  slash_checks, slashed_bond, penalized, slash_effects, vault_share, pay_slash, slash_sums,
  slash_solver,
}
use vortex_contracts.Settlement.Dispute.{
  begin_fill_checks, begin_fill, dispute_checks, dispute_fill, resolve_checks, judge, pay_escrow,
  resolve_dispute, release_outcome, release_checks, release_fill,
}
use vortex_contracts.Settlement.Solvers.{
  active_record, register_checks, bonded_record, register_solver_inner, register_solver,
  deregister_checks, other_refunds, refunds, clear_bonds, pay_refunds, deregister_solver,
  withdraw_checks, withdraw_bond_inner, withdraw_bond,
}
use vortex_contracts.Settlement.Submit.{
  check_policy, submit_checks, new_intent, submit_effects, submit_intent_inner, submit_intent,
  Request,
}

abbrev pub env : ℕ → Env
env now = record {
  now = now;
  this = 99;
  auth = λ _. true;
  token_ok = λ _. true;
  received = λ t. t.amount;
  decimals = λ _. some 7;
  check_intent = λ _ _ _ _. some true;
  get_tier = λ _ _. some 1;
  lastprice = λ _ _. none;
  get_proof = λ _ _. none;
  intent_id = λ _ _ _ _ _ nonce. 7 + nonce;
  slash_grace_secs = 60;
  max_total_extension = 450;
}

abbrev pub empty : Storage
empty = record {
  paused = false;
  admin = some 10;
  arbiter = none;
  fee_recipient = some 50;
  default_bond_token = some 60;
  config = none;
  oracle = none;
  solver_registry = none;
  proof_registry = none;
  policy = none;
  dst_allowlist_enabled = false;
  allowed_dst_token = λ _. false;
  src_chain_allowlist_enabled = false;
  allowed_src_chain = λ _. false;
  allowed_bond_token = λ _. false;
  min_bond_of = λ _. none;
  min_bond_multiplier = λ _. none;
  intents = [];
  tombstone = λ _. false;
  intent_retention = none;
  extension_granted = λ _. none;
  solvers = [];
  solver_bond = λ _ _. 0;
  solver_exposure = λ _. pos 0;
  index = record { solver_intents = λ _. none; solver_intent_idx = λ _ _. none };
  user_nonce = λ _. 0;
  pages = record { user_intent_count = λ _. 0; user_intents = λ _ _. [] };
  cancel_stamp = λ _. none;
  amendment_stamp = λ _. none;
  total_intents = 0;
  open_intents = 0;
  total_volume = 0;
  total_bonded = pos 0;
  total_solvers = 0;
  backstop_pool = 0;
  calls = [];
}

-- 42 bytes, as an address of an EVM chain: `0x` and forty digits.
abbrev zeros : List ℕ → List ℕ
zeros l = 48 ∷ 48 ∷ 48 ∷ 48 ∷ 48 ∷ 48 ∷ 48 ∷ 48 ∷ 48 ∷ 48 ∷ l

abbrev pub request : Request
request = record {
  src_chain = base;
  src_token = 48 ∷ 120 ∷ zeros (zeros (zeros (zeros [])));
  src_amount = pos 1_000;
  dst_token = 70;
  min_dst_amount = pos 500;
  deadline = none;
  referrer = none;
}

abbrev pub after : Call Storage → Storage
after (ok s) = s
after _ = empty

abbrev pub after₂ : Call (ℕ × Storage) → Storage
after₂ (ok (n, s)) = s
after₂ _ = empty

abbrev pub registered : Storage
registered = after (register_solver_inner (env 1_000) 20 60 (pos 1_000_000_000) empty)

pub registered_runs :
    register_solver_inner (env 1_000) 20 60 (pos 1_000_000_000) empty ≡ ok registered
unfolding load_config load_bond_token require_not_paused require_auth min_bond_for_token
    is_bond_token_allowed get_solver_bond_amount register_solver get ◌+ℤ◌
registered_runs = refl

abbrev pub submitted : Storage
submitted = after₂ (submit_intent_inner (env 1_000) 30 request registered)

pub submitted_runs : submit_intent_inner (env 1_000) 30 request registered ≡ ok (7, submitted)
unfolding load_config load_bond_token require_not_paused require_auth min_bond_for_token
    is_bond_token_allowed get_solver_bond_amount user_intents_append validate_src_token
    register_solver submit_checks submit_intent get ◌+ℤ◌
submitted_runs = refl

abbrev pub taken : Storage
taken = after (accept_intent_inner_body (env 1_010) 20 7 60 submitted)

pub taken_runs : accept_intent_inner_body (env 1_010) 20 7 60 submitted ≡ ok taken
unfolding load_config load_bond_token load_fee_recipient load_intent require_not_paused require_auth
    min_bond_for_token is_bond_token_allowed get_solver_bond_amount set_solver_bond_amount
    get_adjusted_min_bond solver_tier tier_fill_window exposure_notional saturate
    user_intents_append validate_src_token accept_checks accept_intent register_solver submit_checks
    submit_effects submit_intent get put ◌+ℤ◌
taken_runs = refl

abbrev pub filled_ : Storage
filled_ = after (fill_intent_inner (env 1_020) 20 7 (pos 500) false taken)

pub filled__runs : fill_intent_inner (env 1_020) 20 7 (pos 500) false taken ≡ ok filled_
unfolding load_config load_bond_token load_fee_recipient load_intent require_not_paused require_auth
    min_bond_for_token is_bond_token_allowed get_solver_bond_amount set_solver_bond_amount
    get_adjusted_min_bond solver_tier tier_fill_window exposure_notional saturate solver_intents_add
    solver_intents_remove user_intents_append validate_src_token accept_checks accept_effects
    accept_intent fill_checks fill_sums pay_fill fill_intent_inner register_solver submit_checks
    submit_effects submit_intent get put ◌+ℤ◌
filled__runs = refl

abbrev pub escrowed : Storage
escrowed = after (begin_fill (env 1_020) 20 7 (pos 500) taken)

pub escrowed_runs : begin_fill (env 1_020) 20 7 (pos 500) taken ≡ ok escrowed
unfolding load_config load_bond_token load_fee_recipient load_intent require_not_paused require_auth
    min_bond_for_token is_bond_token_allowed get_solver_bond_amount set_solver_bond_amount
    get_adjusted_min_bond solver_tier tier_fill_window exposure_notional saturate
    user_intents_append validate_src_token accept_checks accept_effects accept_intent_with_bond
    begin_fill register_solver submit_checks submit_effects submit_intent get put ◌+ℤ◌
escrowed_runs = refl

abbrev pub released : Storage
released = after (release_fill (env 5_000) 7 escrowed)

pub released_runs : release_fill (env 5_000) 7 escrowed ≡ ok released
unfolding load_config load_bond_token load_fee_recipient load_intent require_not_paused require_auth
    min_bond_for_token is_bond_token_allowed get_solver_bond_amount set_solver_bond_amount
    get_adjusted_min_bond solver_tier tier_fill_window exposure_notional saturate
    user_intents_append validate_src_token accept_checks accept_effects accept_intent_with_bond
    begin_fill pay_escrow release_outcome release_fill register_solver submit_checks submit_effects
    submit_intent get put ◌+ℤ◌
released_runs = refl

abbrev pub disputed_ : Storage
disputed_ = after (dispute_fill (env 1_030) 30 7 escrowed)

pub disputed__runs : dispute_fill (env 1_030) 30 7 escrowed ≡ ok disputed_
unfolding load_config load_bond_token load_fee_recipient load_intent require_not_paused require_auth
    min_bond_for_token is_bond_token_allowed get_solver_bond_amount set_solver_bond_amount
    get_adjusted_min_bond solver_tier tier_fill_window exposure_notional saturate
    user_intents_append validate_src_token accept_checks accept_effects accept_intent_with_bond
    begin_fill dispute_fill register_solver submit_checks submit_effects submit_intent get put ◌+ℤ◌
disputed__runs = refl

abbrev pub resolved_ : Storage
resolved_ = after (resolve_dispute (env 1_040) 10 7 dismissed disputed_)

pub resolved__runs : resolve_dispute (env 1_040) 10 7 dismissed disputed_ ≡ ok resolved_
unfolding load_config load_bond_token load_fee_recipient load_arbiter load_intent save_intent
    require_not_paused require_auth transfer fill_window_open slash_eligible transfer_positive
    min_bond_for_token is_bond_token_allowed get_solver_bond_amount contains without listed_tokens
    set_solver_bond_amount compute_slash_amount get_adjusted_min_bond solver_tier tier_fill_window
    fetch_price weight_bps exposure_notional saturate solver_intents_add solver_intents_remove
    user_intents_append same is_evm is_hex is_b58 all after_0x valid_src_token validate_src_token
    wormhole_chain_id validate_proof in_slash_cooldown accept_checks accept_effects
    accept_intent_inner_body accept_intent_with_bond accept_intent check_fill_guards fill_checks
    filled_intent credited fill_effects fill_sums pay_fill fill_intent_inner fill_intent
    check_cooldown end_intent cancel_checks cancel_intent_core cancel_intent expire_checks
    expire_intent amend_checks amend_intent slash_checks slashed_bond penalized slash_effects
    vault_share pay_slash slash_sums slash_solver begin_fill_checks begin_fill dispute_checks
    dispute_fill resolve_checks judge pay_escrow resolve_dispute release_outcome release_checks
    release_fill active_record register_checks bonded_record register_solver_inner register_solver
    deregister_checks other_refunds refunds clear_bonds pay_refunds deregister_solver
    withdraw_checks withdraw_bond_inner withdraw_bond check_policy submit_checks new_intent
    submit_effects submit_intent_inner submit_intent get put ◌+ℤ◌ ◌-ℤ◌
resolved__runs = refl

abbrev pub missed : Storage
missed = after (slash_solver (env 9_000) 7 taken)

pub missed_runs : slash_solver (env 9_000) 7 taken ≡ ok missed
unfolding load_config load_bond_token load_fee_recipient load_arbiter load_intent save_intent
    require_not_paused require_auth transfer fill_window_open slash_eligible transfer_positive
    min_bond_for_token is_bond_token_allowed get_solver_bond_amount contains without listed_tokens
    set_solver_bond_amount compute_slash_amount get_adjusted_min_bond solver_tier tier_fill_window
    fetch_price weight_bps exposure_notional saturate solver_intents_add solver_intents_remove
    user_intents_append same is_evm is_hex is_b58 all after_0x valid_src_token validate_src_token
    wormhole_chain_id validate_proof in_slash_cooldown accept_checks accept_effects
    accept_intent_inner_body accept_intent_with_bond accept_intent check_fill_guards fill_checks
    filled_intent credited fill_effects fill_sums pay_fill fill_intent_inner fill_intent
    check_cooldown end_intent cancel_checks cancel_intent_core cancel_intent expire_checks
    expire_intent amend_checks amend_intent slash_checks slashed_bond penalized slash_effects
    vault_share pay_slash slash_sums slash_solver begin_fill_checks begin_fill dispute_checks
    dispute_fill resolve_checks judge pay_escrow resolve_dispute release_outcome release_checks
    release_fill active_record register_checks bonded_record register_solver_inner register_solver
    deregister_checks other_refunds refunds clear_bonds pay_refunds deregister_solver
    withdraw_checks withdraw_bond_inner withdraw_bond check_policy submit_checks new_intent
    submit_effects submit_intent_inner submit_intent get put ◌+ℤ◌ ◌-ℤ◌
missed_runs = refl

abbrev pub cancelled_ : Storage
cancelled_ = after (cancel_intent (env 1_005) 30 7 submitted)

pub cancelled__runs : cancel_intent (env 1_005) 30 7 submitted ≡ ok cancelled_
unfolding load_config load_bond_token load_fee_recipient load_arbiter load_intent save_intent
    require_not_paused require_auth transfer fill_window_open slash_eligible transfer_positive
    min_bond_for_token is_bond_token_allowed get_solver_bond_amount contains without listed_tokens
    set_solver_bond_amount compute_slash_amount get_adjusted_min_bond solver_tier tier_fill_window
    fetch_price weight_bps exposure_notional saturate solver_intents_add solver_intents_remove
    user_intents_append same is_evm is_hex is_b58 all after_0x valid_src_token validate_src_token
    wormhole_chain_id validate_proof in_slash_cooldown accept_checks accept_effects
    accept_intent_inner_body accept_intent_with_bond accept_intent check_fill_guards fill_checks
    filled_intent credited fill_effects fill_sums pay_fill fill_intent_inner fill_intent
    check_cooldown end_intent cancel_checks cancel_intent_core cancel_intent expire_checks
    expire_intent amend_checks amend_intent slash_checks slashed_bond penalized slash_effects
    vault_share pay_slash slash_sums slash_solver begin_fill_checks begin_fill dispute_checks
    dispute_fill resolve_checks judge pay_escrow resolve_dispute release_outcome release_checks
    release_fill active_record register_checks bonded_record register_solver_inner register_solver
    deregister_checks other_refunds refunds clear_bonds pay_refunds deregister_solver
    withdraw_checks withdraw_bond_inner withdraw_bond check_policy submit_checks new_intent
    submit_effects submit_intent_inner submit_intent get put ◌+ℤ◌ ◌-ℤ◌
cancelled__runs = refl

abbrev pub registered_again : Storage
registered_again = after (register_solver_inner (env 1_030) 21 60 (pos 1_000_000_000) filled_)

pub registered_again_runs :
    register_solver_inner (env 1_030) 21 60 (pos 1_000_000_000) filled_ ≡ ok registered_again
unfolding load_config load_bond_token load_fee_recipient load_arbiter load_intent save_intent
    require_not_paused require_auth transfer fill_window_open slash_eligible transfer_positive
    min_bond_for_token is_bond_token_allowed get_solver_bond_amount contains without listed_tokens
    set_solver_bond_amount compute_slash_amount get_adjusted_min_bond solver_tier tier_fill_window
    fetch_price weight_bps exposure_notional saturate solver_intents_add solver_intents_remove
    user_intents_append same is_evm is_hex is_b58 all after_0x valid_src_token validate_src_token
    wormhole_chain_id validate_proof in_slash_cooldown accept_checks accept_effects
    accept_intent_inner_body accept_intent_with_bond accept_intent check_fill_guards fill_checks
    filled_intent credited fill_effects fill_sums pay_fill fill_intent_inner fill_intent
    check_cooldown end_intent cancel_checks cancel_intent_core cancel_intent expire_checks
    expire_intent amend_checks amend_intent slash_checks slashed_bond penalized slash_effects
    vault_share pay_slash slash_sums slash_solver begin_fill_checks begin_fill dispute_checks
    dispute_fill resolve_checks judge pay_escrow resolve_dispute release_outcome release_checks
    release_fill active_record register_checks bonded_record register_solver_inner register_solver
    deregister_checks other_refunds refunds clear_bonds pay_refunds deregister_solver
    withdraw_checks withdraw_bond_inner withdraw_bond check_policy submit_checks new_intent
    submit_effects submit_intent_inner submit_intent get put ◌+ℤ◌ ◌-ℤ◌
registered_again_runs = refl

abbrev pub taken_intent : IntentRecord
taken_intent = record {
  user = 30;
  src_chain = request.src_chain;
  src_token = request.src_token;
  src_amount = 1_000;
  dst_token = 70;
  min_dst_amount = pos 500;
  solver = some 20;
  state = accepted;
  created_at = 1_000;
  deadline = 1_310;
  filled_at = none;
  fill_amount = none;
  total_filled = 0;
  bond_token = 60;
  dispute_deadline = none;
  dispute_raised_at = none;
  resolution = none;
  solver_tier = 0;
  referrer = none;
  slash_cycles = 0;
  terminal_at = none;
}

abbrev pub filled_intent_ : IntentRecord
filled_intent_ = record taken_intent {
  total_filled = 500;
  fill_amount = some 500;
  state = filled;
  filled_at = some 1_020;
  terminal_at = some 1_020;
}

pub taken_found : get taken.intents 7 ≡ some taken_intent
unfolding load_config load_bond_token load_fee_recipient load_arbiter load_intent save_intent
    require_not_paused require_auth transfer fill_window_open slash_eligible transfer_positive
    min_bond_for_token is_bond_token_allowed get_solver_bond_amount contains without listed_tokens
    set_solver_bond_amount compute_slash_amount get_adjusted_min_bond solver_tier tier_fill_window
    fetch_price weight_bps exposure_notional saturate solver_intents_add solver_intents_remove
    user_intents_append same is_evm is_hex is_b58 all after_0x valid_src_token validate_src_token
    wormhole_chain_id validate_proof in_slash_cooldown accept_checks accept_effects
    accept_intent_inner_body accept_intent_with_bond accept_intent check_fill_guards fill_checks
    filled_intent credited fill_effects fill_sums pay_fill fill_intent_inner fill_intent
    check_cooldown end_intent cancel_checks cancel_intent_core cancel_intent expire_checks
    expire_intent amend_checks amend_intent slash_checks slashed_bond penalized slash_effects
    vault_share pay_slash slash_sums slash_solver begin_fill_checks begin_fill dispute_checks
    dispute_fill resolve_checks judge pay_escrow resolve_dispute release_outcome release_checks
    release_fill active_record register_checks bonded_record register_solver_inner register_solver
    deregister_checks other_refunds refunds clear_bonds pay_refunds deregister_solver
    withdraw_checks withdraw_bond_inner withdraw_bond check_policy submit_checks new_intent
    submit_effects submit_intent_inner submit_intent get put ◌+ℤ◌ ◌-ℤ◌
taken_found = refl

pub filled_found : get filled_.intents 7 ≡ some filled_intent_
unfolding load_config load_bond_token load_fee_recipient load_arbiter load_intent save_intent
    require_not_paused require_auth transfer fill_window_open slash_eligible transfer_positive
    min_bond_for_token is_bond_token_allowed get_solver_bond_amount contains without listed_tokens
    set_solver_bond_amount compute_slash_amount get_adjusted_min_bond solver_tier tier_fill_window
    fetch_price weight_bps exposure_notional saturate solver_intents_add solver_intents_remove
    user_intents_append same is_evm is_hex is_b58 all after_0x valid_src_token validate_src_token
    wormhole_chain_id validate_proof in_slash_cooldown accept_checks accept_effects
    accept_intent_inner_body accept_intent_with_bond accept_intent check_fill_guards fill_checks
    filled_intent credited fill_effects fill_sums pay_fill fill_intent_inner fill_intent
    check_cooldown end_intent cancel_checks cancel_intent_core cancel_intent expire_checks
    expire_intent amend_checks amend_intent slash_checks slashed_bond penalized slash_effects
    vault_share pay_slash slash_sums slash_solver begin_fill_checks begin_fill dispute_checks
    dispute_fill resolve_checks judge pay_escrow resolve_dispute release_outcome release_checks
    release_fill active_record register_checks bonded_record register_solver_inner register_solver
    deregister_checks other_refunds refunds clear_bonds pay_refunds deregister_solver
    withdraw_checks withdraw_bond_inner withdraw_bond check_policy submit_checks new_intent
    submit_effects submit_intent_inner submit_intent get put ◌+ℤ◌ ◌-ℤ◌
filled_found = refl

pub submitted_window : (load_config submitted).fill_window ≡ 300
unfolding load_config load_bond_token load_fee_recipient load_arbiter load_intent save_intent
    require_not_paused require_auth transfer fill_window_open slash_eligible transfer_positive
    min_bond_for_token is_bond_token_allowed get_solver_bond_amount contains without listed_tokens
    set_solver_bond_amount compute_slash_amount get_adjusted_min_bond solver_tier tier_fill_window
    fetch_price weight_bps exposure_notional saturate solver_intents_add solver_intents_remove
    user_intents_append same is_evm is_hex is_b58 all after_0x valid_src_token validate_src_token
    wormhole_chain_id validate_proof in_slash_cooldown accept_checks accept_effects
    accept_intent_inner_body accept_intent_with_bond accept_intent check_fill_guards fill_checks
    filled_intent credited fill_effects fill_sums pay_fill fill_intent_inner fill_intent
    check_cooldown end_intent cancel_checks cancel_intent_core cancel_intent expire_checks
    expire_intent amend_checks amend_intent slash_checks slashed_bond penalized slash_effects
    vault_share pay_slash slash_sums slash_solver begin_fill_checks begin_fill dispute_checks
    dispute_fill resolve_checks judge pay_escrow resolve_dispute release_outcome release_checks
    release_fill active_record register_checks bonded_record register_solver_inner register_solver
    deregister_checks other_refunds refunds clear_bonds pay_refunds deregister_solver
    withdraw_checks withdraw_bond_inner withdraw_bond check_policy submit_checks new_intent
    submit_effects submit_intent_inner submit_intent get put ◌+ℤ◌ ◌-ℤ◌
submitted_window = refl

pub taken_share : (load_config taken).backstop_vault_share_bps ≡ 0
unfolding load_config load_bond_token load_fee_recipient load_arbiter load_intent save_intent
    require_not_paused require_auth transfer fill_window_open slash_eligible transfer_positive
    min_bond_for_token is_bond_token_allowed get_solver_bond_amount contains without listed_tokens
    set_solver_bond_amount compute_slash_amount get_adjusted_min_bond solver_tier tier_fill_window
    fetch_price weight_bps exposure_notional saturate solver_intents_add solver_intents_remove
    user_intents_append same is_evm is_hex is_b58 all after_0x valid_src_token validate_src_token
    wormhole_chain_id validate_proof in_slash_cooldown accept_checks accept_effects
    accept_intent_inner_body accept_intent_with_bond accept_intent check_fill_guards fill_checks
    filled_intent credited fill_effects fill_sums pay_fill fill_intent_inner fill_intent
    check_cooldown end_intent cancel_checks cancel_intent_core cancel_intent expire_checks
    expire_intent amend_checks amend_intent slash_checks slashed_bond penalized slash_effects
    vault_share pay_slash slash_sums slash_solver begin_fill_checks begin_fill dispute_checks
    dispute_fill resolve_checks judge pay_escrow resolve_dispute release_outcome release_checks
    release_fill active_record register_checks bonded_record register_solver_inner register_solver
    deregister_checks other_refunds refunds clear_bonds pay_refunds deregister_solver
    withdraw_checks withdraw_bond_inner withdraw_bond check_policy submit_checks new_intent
    submit_effects submit_intent_inner submit_intent get put ◌+ℤ◌ ◌-ℤ◌
taken_share = refl
