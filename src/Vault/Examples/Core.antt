-- ===== src/Vault/Examples/Core.antt =====
-- A run of the vault: a provider deposits two units, and withdraws them after the cooldown.
use vortex_contracts.Base.{ℕ, ◌≡◌, refl, true, false, none, [], ok}
use vortex_contracts.Base.Dict.{get, put}
use vortex_contracts.Base.Int.{pos}
use vortex_contracts.Base.Token.{Host}
use vortex_contracts.Vault.Model.{
  Call, initialize, transfer, withdraw_checks, withdraw, load_config, Vault, load_total_assets,
  load_total_shares, mul_div, deposit_checks, significant, deposit, burn, queue_withdrawal,
  pay_withdrawal, process_queued_withdrawal, require_settlement, cover, receive_income,
  rescue_tokens, set_emergency_mode, set_config, get_vault_state, get_lp_position,
}

abbrev pub host_at : ℕ → Host
host_at now = record { now = now; this = 99; auth = λ _. true; token_ok = λ _. true }

abbrev pub empty : Vault
empty = record {
  admin = none;
  bond_token = none;
  settlement = none;
  stored_shares = none;
  stored_assets = none;
  shares = [];
  withdraw_cooldown = λ _. 0;
  emergency_mode = false;
  withdraw_queue = [];
  total_queued = 0;
  total_cover_paid = 0;
  total_income = 0;
  config = none;
  calls = [];
}

abbrev pub after : Call Vault → Vault
after (ok s) = s
after _ = empty

abbrev pub after₂ : Call (ℕ × Vault) → Vault
after₂ (ok (n, s)) = s
after₂ _ = empty

abbrev pub opened : Vault
opened = after (initialize (host_at 0) 10 60 50 empty)

pub opened_runs : initialize (host_at 0) 10 60 50 empty ≡ ok opened
unfolding initialize load_total_assets load_total_shares load_config transfer mul_div deposit_checks
    significant deposit withdraw_checks burn queue_withdrawal pay_withdrawal withdraw
    process_queued_withdrawal require_settlement cover receive_income rescue_tokens
    set_emergency_mode set_config get_vault_state get_lp_position get put
opened_runs = refl

abbrev pub funded : Vault
funded = after₂ (deposit (host_at 0) 20 (pos 20_000_000) opened)

pub funded_runs : deposit (host_at 0) 20 (pos 20_000_000) opened ≡ ok (20_000_000, funded)
unfolding initialize load_total_assets load_total_shares load_config transfer mul_div deposit_checks
    significant deposit withdraw_checks burn queue_withdrawal pay_withdrawal withdraw
    process_queued_withdrawal require_settlement cover receive_income rescue_tokens
    set_emergency_mode set_config get_vault_state get_lp_position get put
funded_runs = refl

abbrev pub left_ : Vault
left_ = after₂ (withdraw (host_at 200_000) 20 (pos 20_000_000) funded)

pub left__runs : withdraw (host_at 200_000) 20 (pos 20_000_000) funded ≡ ok (20_000_000, left_)
unfolding initialize load_total_assets load_total_shares load_config transfer mul_div deposit_checks
    significant deposit withdraw_checks burn queue_withdrawal pay_withdrawal withdraw
    process_queued_withdrawal require_settlement cover receive_income rescue_tokens
    set_emergency_mode set_config get_vault_state get_lp_position get put
left__runs = refl

pub opened_assets : load_total_assets opened ≡ 1_000_000_000
unfolding initialize load_total_assets load_total_shares load_config transfer mul_div deposit_checks
    significant deposit withdraw_checks burn queue_withdrawal pay_withdrawal withdraw
    process_queued_withdrawal require_settlement cover receive_income rescue_tokens
    set_emergency_mode set_config get_vault_state get_lp_position get put
opened_assets = refl

pub opened_shares : load_total_shares opened ≡ 1_000_000_000
unfolding initialize load_total_assets load_total_shares load_config transfer mul_div deposit_checks
    significant deposit withdraw_checks burn queue_withdrawal pay_withdrawal withdraw
    process_queued_withdrawal require_settlement cover receive_income rescue_tokens
    set_emergency_mode set_config get_vault_state get_lp_position get put
opened_shares = refl

pub funded_mode : funded.emergency_mode ≡ false
unfolding initialize load_total_assets load_total_shares load_config transfer mul_div deposit_checks
    significant deposit withdraw_checks burn queue_withdrawal pay_withdrawal withdraw
    process_queued_withdrawal require_settlement cover receive_income rescue_tokens
    set_emergency_mode set_config get_vault_state get_lp_position get put
funded_mode = refl
