-- ===== src/Settlement/Examples/Closing.antt =====
-- The rest of the run, for the theorems' examples: an intent that is cancelled and later deleted,
-- an extension, and a slash while the contract is paused.
use vortex_contracts.Base.{◌≡◌, refl, true, none, some, ok, err}
use vortex_contracts.Base.Int.{◌+ℤ◌, ◌-ℤ◌}
use vortex_contracts.Base.Dict.{get, put, remove}
use vortex_contracts.Settlement.Types.{IntentRecord, cancelled, open_, Error}
use vortex_contracts.Settlement.State.{
  Storage, load_config, load_bond_token, load_fee_recipient, load_arbiter, load_intent, save_intent,
  require_not_paused, require_auth, transfer, fill_window_open, slash_eligible, transfer_positive,
}
use vortex_contracts.Settlement.Bonds.{
  min_bond_for_token, is_bond_token_allowed, get_solver_bond_amount, contains, without,
  listed_tokens, set_solver_bond_amount, compute_slash_amount, get_adjusted_min_bond, solver_tier,
  tier_fill_window, fetch_price, weight_bps, exposure_notional, saturate,
}
use vortex_contracts.Settlement.Index.{
  solver_intents_add, solver_intents_remove, user_intents_append,
}
use vortex_contracts.Settlement.Chains.{
  same, is_evm, is_hex, is_b58, all, after_0x, valid_src_token, validate_src_token,
  wormhole_chain_id, validate_proof,
}
use vortex_contracts.Settlement.Accept.{
  in_slash_cooldown, accept_checks, accept_effects, accept_intent_inner_body,
  accept_intent_with_bond, accept_intent,
}
use vortex_contracts.Settlement.Fill.{
  check_fill_guards, fill_checks, filled_intent, credited, fill_effects, fill_sums, pay_fill,
  fill_intent_inner, fill_intent,
}
use vortex_contracts.Settlement.Close.{
  check_cooldown, end_intent, cancel_checks, cancel_intent_core, cancel_intent, expire_checks,
  expire_intent, amend_checks, amend_intent,
}
use vortex_contracts.Settlement.Slash.{
  slash_checks, slashed_bond, penalized, slash_effects, vault_share, pay_slash, slash_sums,
  slash_solver,
}
use vortex_contracts.Settlement.Dispute.{
  begin_fill_checks, begin_fill, dispute_checks, dispute_fill, resolve_checks, judge, pay_escrow,
  resolve_dispute, release_outcome, release_checks, release_fill,
}
use vortex_contracts.Settlement.Solvers.{
  active_record, register_checks, bonded_record, register_solver_inner, register_solver,
  deregister_checks, other_refunds, refunds, clear_bonds, pay_refunds, deregister_solver,
  withdraw_checks, withdraw_bond_inner, withdraw_bond,
}
use vortex_contracts.Settlement.Submit.{
  check_policy, submit_checks, new_intent, submit_effects, submit_intent_inner, submit_intent,
}
use vortex_contracts.Settlement.Extend.{
  volume_decay_bps, compute_reputation_score, extension_percent, extension_cap_secs,
  extension_checks, request_extension,
}
use vortex_contracts.Settlement.Prune.{
  clear_slot, clear_pages, user_intents_clear, close_checks, forget_solver, close_intent,
}
use vortex_contracts.Settlement.Examples.Core.{
  env, after, submitted, taken, taken_intent, cancelled_,
}

abbrev pub submitted_intent : IntentRecord
submitted_intent = record taken_intent { solver = none; state = open_; deadline = 2_800 }

pub submitted_found : get submitted.intents 7 ≡ some submitted_intent
unfolding load_config load_bond_token load_fee_recipient load_arbiter load_intent save_intent
    require_not_paused require_auth transfer fill_window_open slash_eligible transfer_positive
    min_bond_for_token is_bond_token_allowed get_solver_bond_amount contains without listed_tokens
    set_solver_bond_amount compute_slash_amount get_adjusted_min_bond solver_tier tier_fill_window
    fetch_price weight_bps exposure_notional saturate solver_intents_add solver_intents_remove
    user_intents_append same is_evm is_hex is_b58 all after_0x valid_src_token validate_src_token
    wormhole_chain_id validate_proof in_slash_cooldown accept_checks accept_effects
    accept_intent_inner_body accept_intent_with_bond accept_intent check_fill_guards fill_checks
    filled_intent credited fill_effects fill_sums pay_fill fill_intent_inner fill_intent
    check_cooldown end_intent cancel_checks cancel_intent_core cancel_intent expire_checks
    expire_intent amend_checks amend_intent slash_checks slashed_bond penalized slash_effects
    vault_share pay_slash slash_sums slash_solver begin_fill_checks begin_fill dispute_checks
    dispute_fill resolve_checks judge pay_escrow resolve_dispute release_outcome release_checks
    release_fill active_record register_checks bonded_record register_solver_inner register_solver
    deregister_checks other_refunds refunds clear_bonds pay_refunds deregister_solver
    withdraw_checks withdraw_bond_inner withdraw_bond check_policy submit_checks new_intent
    submit_effects submit_intent_inner submit_intent get put ◌+ℤ◌ ◌-ℤ◌
submitted_found = refl

abbrev pub cancelled_intent : IntentRecord
cancelled_intent = record submitted_intent { state = cancelled; terminal_at = some 1_005 }

pub cancelled_found : get cancelled_.intents 7 ≡ some cancelled_intent
unfolding load_config load_bond_token load_fee_recipient load_arbiter load_intent save_intent
    require_not_paused require_auth transfer fill_window_open slash_eligible transfer_positive
    min_bond_for_token is_bond_token_allowed get_solver_bond_amount contains without listed_tokens
    set_solver_bond_amount compute_slash_amount get_adjusted_min_bond solver_tier tier_fill_window
    fetch_price weight_bps exposure_notional saturate solver_intents_add solver_intents_remove
    user_intents_append same is_evm is_hex is_b58 all after_0x valid_src_token validate_src_token
    wormhole_chain_id validate_proof in_slash_cooldown accept_checks accept_effects
    accept_intent_inner_body accept_intent_with_bond accept_intent check_fill_guards fill_checks
    filled_intent credited fill_effects fill_sums pay_fill fill_intent_inner fill_intent
    check_cooldown end_intent cancel_checks cancel_intent_core cancel_intent expire_checks
    expire_intent amend_checks amend_intent slash_checks slashed_bond penalized slash_effects
    vault_share pay_slash slash_sums slash_solver begin_fill_checks begin_fill dispute_checks
    dispute_fill resolve_checks judge pay_escrow resolve_dispute release_outcome release_checks
    release_fill active_record register_checks bonded_record register_solver_inner register_solver
    deregister_checks other_refunds refunds clear_bonds pay_refunds deregister_solver
    withdraw_checks withdraw_bond_inner withdraw_bond check_policy submit_checks new_intent
    submit_effects submit_intent_inner submit_intent get put ◌+ℤ◌ ◌-ℤ◌
cancelled_found = refl

abbrev pub closed_ : Storage
closed_ = after (close_intent (env 2_593_005) 7 cancelled_)

pub closed__runs : close_intent (env 2_593_005) 7 cancelled_ ≡ ok closed_
unfolding load_config load_bond_token load_fee_recipient load_arbiter load_intent save_intent
    require_not_paused require_auth transfer fill_window_open slash_eligible transfer_positive
    min_bond_for_token is_bond_token_allowed get_solver_bond_amount contains without listed_tokens
    set_solver_bond_amount compute_slash_amount get_adjusted_min_bond solver_tier tier_fill_window
    fetch_price weight_bps exposure_notional saturate solver_intents_add solver_intents_remove
    user_intents_append same is_evm is_hex is_b58 all after_0x valid_src_token validate_src_token
    wormhole_chain_id validate_proof in_slash_cooldown accept_checks accept_effects
    accept_intent_inner_body accept_intent_with_bond accept_intent check_fill_guards fill_checks
    filled_intent credited fill_effects fill_sums pay_fill fill_intent_inner fill_intent
    check_cooldown end_intent cancel_checks cancel_intent_core cancel_intent expire_checks
    expire_intent amend_checks amend_intent slash_checks slashed_bond penalized slash_effects
    vault_share pay_slash slash_sums slash_solver begin_fill_checks begin_fill dispute_checks
    dispute_fill resolve_checks judge pay_escrow resolve_dispute release_outcome release_checks
    release_fill active_record register_checks bonded_record register_solver_inner register_solver
    deregister_checks other_refunds refunds clear_bonds pay_refunds deregister_solver
    withdraw_checks withdraw_bond_inner withdraw_bond check_policy submit_checks new_intent
    submit_effects submit_intent_inner submit_intent get put ◌+ℤ◌ ◌-ℤ◌ clear_slot clear_pages
    user_intents_clear close_checks forget_solver close_intent remove
closed__runs = refl

abbrev extended_ : Storage
extended_ = after (request_extension (env 1_100) 20 7 taken)

-- The deadline moves by 300 seconds, once.
extended_found : get extended_.intents 7 ≡ some (record taken_intent { deadline = 1_610 })
unfolding load_config load_bond_token load_fee_recipient load_arbiter load_intent save_intent
    require_not_paused require_auth transfer fill_window_open slash_eligible transfer_positive
    min_bond_for_token is_bond_token_allowed get_solver_bond_amount contains without listed_tokens
    set_solver_bond_amount compute_slash_amount get_adjusted_min_bond solver_tier tier_fill_window
    fetch_price weight_bps exposure_notional saturate solver_intents_add solver_intents_remove
    user_intents_append same is_evm is_hex is_b58 all after_0x valid_src_token validate_src_token
    wormhole_chain_id validate_proof in_slash_cooldown accept_checks accept_effects
    accept_intent_inner_body accept_intent_with_bond accept_intent check_fill_guards fill_checks
    filled_intent credited fill_effects fill_sums pay_fill fill_intent_inner fill_intent
    check_cooldown end_intent cancel_checks cancel_intent_core cancel_intent expire_checks
    expire_intent amend_checks amend_intent slash_checks slashed_bond penalized slash_effects
    vault_share pay_slash slash_sums slash_solver begin_fill_checks begin_fill dispute_checks
    dispute_fill resolve_checks judge pay_escrow resolve_dispute release_outcome release_checks
    release_fill active_record register_checks bonded_record register_solver_inner register_solver
    deregister_checks other_refunds refunds clear_bonds pay_refunds deregister_solver
    withdraw_checks withdraw_bond_inner withdraw_bond check_policy submit_checks new_intent
    submit_effects submit_intent_inner submit_intent get put ◌+ℤ◌ ◌-ℤ◌ volume_decay_bps
    compute_reputation_score extension_percent extension_cap_secs extension_checks request_extension
extended_found = refl

extended_again : request_extension (env 1_100) 20 7 extended_ ≡ err Error.extension_already_granted
unfolding load_config load_bond_token load_fee_recipient load_arbiter load_intent save_intent
    require_not_paused require_auth transfer fill_window_open slash_eligible transfer_positive
    min_bond_for_token is_bond_token_allowed get_solver_bond_amount contains without listed_tokens
    set_solver_bond_amount compute_slash_amount get_adjusted_min_bond solver_tier tier_fill_window
    fetch_price weight_bps exposure_notional saturate solver_intents_add solver_intents_remove
    user_intents_append same is_evm is_hex is_b58 all after_0x valid_src_token validate_src_token
    wormhole_chain_id validate_proof in_slash_cooldown accept_checks accept_effects
    accept_intent_inner_body accept_intent_with_bond accept_intent check_fill_guards fill_checks
    filled_intent credited fill_effects fill_sums pay_fill fill_intent_inner fill_intent
    check_cooldown end_intent cancel_checks cancel_intent_core cancel_intent expire_checks
    expire_intent amend_checks amend_intent slash_checks slashed_bond penalized slash_effects
    vault_share pay_slash slash_sums slash_solver begin_fill_checks begin_fill dispute_checks
    dispute_fill resolve_checks judge pay_escrow resolve_dispute release_outcome release_checks
    release_fill active_record register_checks bonded_record register_solver_inner register_solver
    deregister_checks other_refunds refunds clear_bonds pay_refunds deregister_solver
    withdraw_checks withdraw_bond_inner withdraw_bond check_policy submit_checks new_intent
    submit_effects submit_intent_inner submit_intent get put ◌+ℤ◌ ◌-ℤ◌ volume_decay_bps
    compute_reputation_score extension_percent extension_cap_secs extension_checks request_extension
extended_again = refl

abbrev pub paused_ : Storage
paused_ = record taken { paused = true }

abbrev pub paused_missed : Storage
paused_missed = after (slash_solver (env 9_000) 7 paused_)

pub paused_missed_runs : slash_solver (env 9_000) 7 paused_ ≡ ok paused_missed
unfolding load_config load_bond_token load_fee_recipient load_arbiter load_intent save_intent
    require_not_paused require_auth transfer fill_window_open slash_eligible transfer_positive
    min_bond_for_token is_bond_token_allowed get_solver_bond_amount contains without listed_tokens
    set_solver_bond_amount compute_slash_amount get_adjusted_min_bond solver_tier tier_fill_window
    fetch_price weight_bps exposure_notional saturate solver_intents_add solver_intents_remove
    user_intents_append same is_evm is_hex is_b58 all after_0x valid_src_token validate_src_token
    wormhole_chain_id validate_proof in_slash_cooldown accept_checks accept_effects
    accept_intent_inner_body accept_intent_with_bond accept_intent check_fill_guards fill_checks
    filled_intent credited fill_effects fill_sums pay_fill fill_intent_inner fill_intent
    check_cooldown end_intent cancel_checks cancel_intent_core cancel_intent expire_checks
    expire_intent amend_checks amend_intent slash_checks slashed_bond penalized slash_effects
    vault_share pay_slash slash_sums slash_solver begin_fill_checks begin_fill dispute_checks
    dispute_fill resolve_checks judge pay_escrow resolve_dispute release_outcome release_checks
    release_fill active_record register_checks bonded_record register_solver_inner register_solver
    deregister_checks other_refunds refunds clear_bonds pay_refunds deregister_solver
    withdraw_checks withdraw_bond_inner withdraw_bond check_policy submit_checks new_intent
    submit_effects submit_intent_inner submit_intent get put ◌+ℤ◌ ◌-ℤ◌
paused_missed_runs = refl

abbrev pub reopened_intent : IntentRecord
reopened_intent = record taken_intent {
  solver = none;
  state = open_;
  deadline = 10_800;
  solver_tier = 0;
}

pub reopened_found : get paused_missed.intents 7 ≡ some reopened_intent
unfolding load_config load_bond_token load_fee_recipient load_arbiter load_intent save_intent
    require_not_paused require_auth transfer fill_window_open slash_eligible transfer_positive
    min_bond_for_token is_bond_token_allowed get_solver_bond_amount contains without listed_tokens
    set_solver_bond_amount compute_slash_amount get_adjusted_min_bond solver_tier tier_fill_window
    fetch_price weight_bps exposure_notional saturate solver_intents_add solver_intents_remove
    user_intents_append same is_evm is_hex is_b58 all after_0x valid_src_token validate_src_token
    wormhole_chain_id validate_proof in_slash_cooldown accept_checks accept_effects
    accept_intent_inner_body accept_intent_with_bond accept_intent check_fill_guards fill_checks
    filled_intent credited fill_effects fill_sums pay_fill fill_intent_inner fill_intent
    check_cooldown end_intent cancel_checks cancel_intent_core cancel_intent expire_checks
    expire_intent amend_checks amend_intent slash_checks slashed_bond penalized slash_effects
    vault_share pay_slash slash_sums slash_solver begin_fill_checks begin_fill dispute_checks
    dispute_fill resolve_checks judge pay_escrow resolve_dispute release_outcome release_checks
    release_fill active_record register_checks bonded_record register_solver_inner register_solver
    deregister_checks other_refunds refunds clear_bonds pay_refunds deregister_solver
    withdraw_checks withdraw_bond_inner withdraw_bond check_policy submit_checks new_intent
    submit_effects submit_intent_inner submit_intent get put ◌+ℤ◌ ◌-ℤ◌
reopened_found = refl
