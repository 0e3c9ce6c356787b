-- ===== src/Settlement/State.antt =====
-- intent_settlement/src/lib.rs: the contract's storage, its environment, and the loaders, guards
-- and token calls that every operation uses. Storage under a key with a list to sum over is a
-- `Dict`; all other keyed storage is a function. Time-to-live bumps and events are left out.
use vortex_contracts.Base.{
  ℕ, zero, suc, Bool, Option, none, some, List, ◌∷◌, ltb, leb, ◌==◌, if◌then◌else◌, get_or, Result,
  ok, err, or_err, fail_if, host, ◌>>◌,
}
use vortex_contracts.Base.Checked.{sat_add_u64}
use vortex_contracts.Base.Int.{ℤ, pos, negsuc}
use vortex_contracts.Base.Dict.{Dict, get, put}
pub use vortex_contracts.Base.Token.{Transfer}
use vortex_contracts.Settlement.Const
use vortex_contracts.Settlement.Types.{IntentRecord, SolverRecord, ProtocolConfig, Error}

-- oracle.rs: what the price feed answers.
pub record PriceData : Type 0 where
  pub price : ℤ
  pub decimals : ℕ
  pub timestamp : ℕ

-- What the proof registry answers.
pub record Proof : Type 0 where
  pub src_chain_id : ℕ
  pub src_amount : ℕ

-- What the call reads from the host and from other contracts. `slash_grace_secs` and
-- `max_total_extension` stand for the constants SLASH_GRACE_SECS and MAX_TOTAL_EXTENSION, which the
-- source uses and does not declare.
pub record Env : Type 0 where
  pub now : ℕ
  pub this : ℕ
  pub auth : ℕ → Bool
  pub token_ok : Transfer → Bool
  pub received : Transfer → ℕ
  pub decimals : ℕ → Option ℕ
  pub check_intent : ℕ → ℕ → ℕ → ℤ → Option Bool
  pub get_tier : ℕ → ℕ → Option ℕ
  pub lastprice : ℕ → ℕ → Option PriceData
  pub get_proof : ℕ → ℕ → Option Proof
  pub intent_id : ℕ → List ℕ → ℕ → ℕ → ℤ → ℕ → ℕ
  pub slash_grace_secs : ℕ
  pub max_total_extension : ℕ

-- The intents that each solver holds, and the position of each in the solver's list.
pub record SolverIndex : Type 0 where
  pub solver_intents : ℕ → Option (List ℕ)
  pub solver_intent_idx : ℕ → ℕ → Option ℕ

-- The intents of each user, in pages.
pub record UserPages : Type 0 where
  pub user_intent_count : ℕ → ℕ
  pub user_intents : ℕ → ℕ → List (Option ℕ)

pub record Storage : Type 0 where
  pub paused : Bool
  pub admin : Option ℕ
  pub arbiter : Option ℕ
  pub fee_recipient : Option ℕ
  pub default_bond_token : Option ℕ
  pub config : Option ProtocolConfig
  pub oracle : Option ℕ
  pub solver_registry : Option ℕ
  pub proof_registry : Option ℕ
  pub policy : Option ℕ
  pub dst_allowlist_enabled : Bool
  pub allowed_dst_token : ℕ → Bool
  pub src_chain_allowlist_enabled : Bool
  pub allowed_src_chain : List ℕ → Bool
  pub allowed_bond_token : ℕ → Bool
  pub min_bond_of : ℕ → Option ℕ
  pub min_bond_multiplier : ℕ → Option ℕ
  pub intents : Dict IntentRecord
  pub tombstone : ℕ → Bool
  pub intent_retention : Option ℕ
  pub extension_granted : ℕ → Option ℕ
  pub solvers : Dict SolverRecord
  pub solver_bond : ℕ → ℕ → ℕ
  pub solver_exposure : ℕ → ℤ
  pub index : SolverIndex
  pub user_nonce : ℕ → ℕ
  pub pages : UserPages
  pub cancel_stamp : ℕ → Option ℕ
  pub amendment_stamp : ℕ → Option ℕ
  pub total_intents : ℕ
  pub open_intents : ℕ
  pub total_volume : ℕ
  pub total_bonded : ℤ
  pub total_solvers : ℕ
  pub backstop_pool : ℕ
  -- The token calls made so far, the last one first.
  pub calls : List Transfer

-- Writes one entry of a storage map.
abbrev pub update {ℓ} : {A : Type ℓ} → (ℕ → A) → ℕ → A → ℕ → A
update f k v j = if k == j then v else f j

abbrev pub update₂ {ℓ} : {A : Type ℓ} → (ℕ → ℕ → A) → ℕ → ℕ → A → ℕ → ℕ → A
update₂ f k l v i j = if k == i then (if l == j then v else f i j) else f i j

abbrev pub Call : Type 0 → Type 0
Call A = Result Error A

unfoldable pub load_config : Storage → ProtocolConfig
load_config s = get_or s.config (record {
  min_bond = Const.min_bond;
  fill_window = 300;
  intent_expiry = Const.intent_expiry;
  protocol_fee_bps = Const.protocol_fee_bps;
  max_active_intents_per_solver = 10;
  max_slash_cycles = 3;
  referral_share_bps = 0;
  backstop_vault_share_bps = 0;
  coverage_multiplier = 10;
})

unfoldable pub load_bond_token : Storage → Call ℕ
load_bond_token s = or_err s.default_bond_token Error.not_initialized

-- The fee recipient, as `InvocationCtx::load` reads it.
unfoldable pub load_fee_recipient : Storage → Call ℕ
load_fee_recipient s = or_err s.fee_recipient Error.not_initialized

unfoldable pub load_arbiter : Storage → Call ℕ
load_arbiter s = elim s.arbiter [ some a ↦ ok a | none ↦ or_err s.admin Error.not_initialized ]

unfoldable pub load_intent : Storage → ℕ → Call IntentRecord
load_intent s id = or_err (get s.intents id) Error.intent_not_found

unfoldable pub save_intent : Storage → ℕ → IntentRecord → Storage
save_intent s id intent = record s { intents = put s.intents id intent }

unfoldable pub require_not_paused : Storage → Call (Unit {0})
require_not_paused s = fail_if s.paused Error.contract_paused

unfoldable pub require_auth : Env → ℕ → Call (Unit {0})
require_auth e a = host (e.auth a)

-- An `i128` argument that the code rejects unless it is positive.
abbrev pub positive : ℤ → Error → Call ℕ
positive (pos (suc n)) e = ok (suc n)
positive (pos zero) e = err e
positive (negsuc n) e = err e

-- A token call that fails makes the whole call trap.
unfoldable pub transfer : Env → Transfer → Storage → Call Storage
transfer e t s = do host (e.token_ok t); ok (record s { calls = t ∷ s.calls })

-- The comparisons of the two deadlines.
unfoldable pub fill_window_open : ℕ → ℕ → Bool
fill_window_open now deadline = ltb now deadline

unfoldable pub slash_eligible : ℕ → ℕ → ℕ → Bool
slash_eligible grace now deadline = leb (sat_add_u64 deadline grace) now

-- `if amount > 0 { transfer }`
unfoldable pub transfer_positive : Env → Transfer → Storage → Call Storage
unfolding transfer
transfer_positive e t s = if ltb 0 t.amount then transfer e t s else ok s
