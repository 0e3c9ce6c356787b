-- ===== src/Settlement/Types.antt =====
-- intent_settlement/src/lib.rs: the records and enums kept in storage, the error codes, and the
-- constants. An `i128` that only guarded code writes is a number; `min_dst_amount`, which
-- `amend_intent` writes unguarded, is an integer.
use vortex_contracts.Base.{ℕ, Bool, Option, List}
use vortex_contracts.Base.Int.{ℤ}

pub data IntentState : Type 0 where
  open_ accepted partially_filled filled cancelled expired slashed bidding filling disputed
        resolved :
      IntentState

pub data DisputeResolution : Type 0 where
  upheld dismissed : DisputeResolution

pub record IntentRecord : Type 0 where
  pub user : ℕ
  pub src_chain : List ℕ
  pub src_token : List ℕ
  pub src_amount : ℕ
  pub dst_token : ℕ
  pub min_dst_amount : ℤ
  pub solver : Option ℕ
  pub state : IntentState
  pub created_at : ℕ
  pub deadline : ℕ
  pub filled_at : Option ℕ
  pub fill_amount : Option ℕ
  pub total_filled : ℕ
  pub bond_token : ℕ
  pub dispute_deadline : Option ℕ
  pub dispute_raised_at : Option ℕ
  pub resolution : Option DisputeResolution
  pub solver_tier : ℕ
  pub referrer : Option ℕ
  pub slash_cycles : ℕ
  pub terminal_at : Option ℕ

pub record SolverRecord : Type 0 where
  pub bond_amount : ℕ
  pub fills_completed : ℕ
  pub fills_failed : ℕ
  pub total_volume : ℕ
  pub is_active : Bool
  pub registered_at : ℕ
  pub active_intents : ℕ
  pub last_slash_time : ℕ
  pub bond_tokens : List ℕ

pub record ProtocolConfig : Type 0 where
  pub min_bond : ℕ
  pub fill_window : ℕ
  pub intent_expiry : ℕ
  pub protocol_fee_bps : ℕ
  pub max_active_intents_per_solver : ℕ
  pub max_slash_cycles : ℕ
  pub referral_share_bps : ℕ
  pub backstop_vault_share_bps : ℕ
  pub coverage_multiplier : ℕ

-- The errors that the modelled operations raise.
pub data Error : Type 0 where
  unauthorized intent_not_found intent_not_open intent_expired intent_not_accepted : Error
  solver_not_registered solver_bond_too_low insufficient_output fill_window_expired : Error
  cannot_cancel_accepted solver_inactive zero_amount invalid_deadline intent_already_filled : Error
  not_initialized solver_has_active_intents contract_paused deadline_not_reached : Error
  insufficient_bond dst_token_not_allowed intent_already_exists fee_overflow : Error
  src_chain_not_allowed invalid_src_token self_referral cancel_cooldown_not_expired : Error
  amount_too_large implausible_dst_amount max_active_intents_cap_reached : Error
  bond_token_not_allowed intent_not_filling intent_not_disputed not_arbiter : Error
  dispute_window_still_open dispute_window_closed intent_not_accepted_for_fill : Error
  too_many_bond_tokens exposure_exceeded policy_rejected intent_not_amendable : Error
  invalid_amendment_deadline amendment_too_tightening amendment_cooldown_active : Error
  proof_registry_not_set proof_not_found proof_chain_mismatch : Error
  proof_amount_insufficient src_chain_not_supported : Error
  intent_not_terminal retention_period_not_elapsed extension_already_granted : Error
  extension_cap_exceeded : Error
