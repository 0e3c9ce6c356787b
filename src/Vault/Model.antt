-- ===== src/Vault/Model.antt =====
-- backstop_vault/src/lib.rs: liquidity providers' shares in a vault of the bond token. Amounts that
-- guarded code alone writes are numbers; time-to-live and events are left out. `require_admin` of
-- vortex-common is called with the stored admin itself, so it always passes.
use vortex_contracts.Base.{
  ℕ, ◌-◌, ◌/◌, min, max, Bool, true, false, not, ◌||◌, Option, none, some, List, ◌∷◌, ltb, leb,
  ◌==◌, if◌then◌else◌, get_or, Result, ok, err, ◌>>=◌, ◌>>◌, or_err, unwrap, fail_if, host,
}
use vortex_contracts.Base.Checked.{add_u64, add_i128, checked_mul}
use vortex_contracts.Base.Int.{ℤ, pos, negsuc}
use vortex_contracts.Base.Dict.{Dict, get, put}
use vortex_contracts.Base.Token.{Transfer, Host}

abbrev pub virtual_shares : ℕ
virtual_shares = 1_000_000_000

abbrev pub virtual_assets : ℕ
virtual_assets = 1_000_000_000

abbrev pub default_min_deposit : ℕ
default_min_deposit = 10_000_000

abbrev pub default_cooldown : ℕ
default_cooldown = 172_800

abbrev pub min_deposit_ceiling : ℕ
min_deposit_ceiling = 10_000_000_000_000

abbrev pub cooldown_floor : ℕ
cooldown_floor = 3_600

abbrev pub cooldown_ceiling : ℕ
cooldown_ceiling = 2_592_000

abbrev pub cooldown_reset_fraction_bps : ℕ
cooldown_reset_fraction_bps = 1_000

pub record BackstopConfig : Type 0 where
  pub min_deposit : ℕ
  pub withdrawal_cooldown_secs : ℕ

pub data Error : Type 0 where
  already_initialized not_initialized unauthorized zero_amount below_min_deposit : Error
  cooldown_not_expired insufficient_shares vault_insolvent emergency_mode_active : Error
  emergency_mode_not_active nothing_queued invalid_config arithmetic_overflow : Error
  protected_token : Error

-- Entries that are missing read as their defaults.
pub record Vault : Type 0 where
  pub admin : Option ℕ
  pub bond_token : Option ℕ
  pub settlement : Option ℕ
  pub stored_shares : Option ℕ
  pub stored_assets : Option ℕ
  pub shares : Dict ℕ
  pub withdraw_cooldown : ℕ → ℕ
  pub emergency_mode : Bool
  pub withdraw_queue : Dict ℕ
  pub total_queued : ℕ
  pub total_cover_paid : ℕ
  pub total_income : ℕ
  pub config : Option BackstopConfig
  -- The token calls made so far, the last one first.
  pub calls : List Transfer

abbrev pub Call : Type 0 → Type 0
Call A = Result Error A

abbrev pub default_config : BackstopConfig
default_config = record {
  min_deposit = default_min_deposit;
  withdrawal_cooldown_secs = default_cooldown;
}

unfoldable pub initialize : Host → ℕ → ℕ → ℕ → Vault → Call Vault
initialize e admin bond_token settlement s = elim s.admin [
  | some _ ↦ err Error.already_initialized
  | none ↦ do
    host (e.auth admin)
    ok (record s {
      admin = some admin;
      bond_token = some bond_token;
      settlement = some settlement;
      stored_shares = some virtual_shares;
      stored_assets = some virtual_assets;
      total_cover_paid = 0;
      total_income = 0;
      total_queued = 0;
      emergency_mode = false;
      config = some default_config;
    })
]

unfoldable pub load_total_assets : Vault → ℕ
load_total_assets s = get_or s.stored_assets virtual_assets

unfoldable pub load_total_shares : Vault → ℕ
load_total_shares s = get_or s.stored_shares virtual_shares

unfoldable pub load_config : Vault → BackstopConfig
load_config s = get_or s.config default_config

abbrev pub balance : Dict ℕ → ℕ → ℕ
balance d lp = get_or (get d lp) 0

abbrev pub write : (ℕ → ℕ) → ℕ → ℕ → ℕ → ℕ
write f k v j = if k == j then v else f j

-- A token call that fails makes the whole call trap.
unfoldable pub transfer : Host → Transfer → Vault → Call Vault
transfer e t s = do host (e.token_ok t); ok (record s { calls = t ∷ s.calls })

-- `a.checked_mul(b)` and `checked_div(c)`, each an overflow error when it has no value.
unfoldable pub mul_div : ℕ → ℕ → ℕ → Call ℕ
mul_div a b c = do
  n ← or_err (checked_mul a b) Error.arithmetic_overflow
  fail_if (c == 0) Error.arithmetic_overflow
  ok (n / c)

abbrev pub at_least : ℕ → ℤ → Error → Call ℕ
at_least m (pos n) e = if ltb n m then err e else ok n
at_least m (negsuc n) e = err e

-- A deposit that has passed the checks.
pub record Deposit : Type 0 where
  pub amount : ℕ
  pub minted : ℕ
  pub token : ℕ

unfoldable pub deposit_checks : Host → ℕ → ℤ → Vault → Call Deposit
unfolding load_config load_total_assets load_total_shares mul_div
deposit_checks e lp amount s = do
  host (e.auth lp)
  n ← at_least (load_config s).min_deposit amount Error.below_min_deposit
  minted ← mul_div n (load_total_shares s) (load_total_assets s)
  token ← unwrap s.bond_token
  ok (record { amount = n; minted = max minted 1; token = token })

-- The value of the shares that the provider has already.
existing_position_assets : ℕ → Vault → Call ℕ
unfolding load_total_assets load_total_shares mul_div
existing_position_assets lp_shares s =
    if ltb 0 (load_total_shares s)
    then mul_div lp_shares (load_total_assets s) (load_total_shares s)
    else ok 0

is_tenth_of : ℕ → ℕ → Call Bool
is_tenth_of amount existing = do
  a ← or_err (checked_mul amount 10_000) Error.arithmetic_overflow
  b ← or_err (checked_mul existing cooldown_reset_fraction_bps) Error.arithmetic_overflow
  ok (leb b a)

-- Whether the deposit starts the cooldown again.
unfoldable pub significant : ℕ → ℕ → Vault → Call Bool
unfolding existing_position_assets is_tenth_of
significant amount lp_shares s = do
  existing ← existing_position_assets lp_shares s
  if existing == 0 then ok true else is_tenth_of amount existing

unfoldable pub deposit : Host → ℕ → ℤ → Vault → Call (ℕ × Vault)
unfolding deposit_checks load_total_assets load_total_shares load_config transfer significant
deposit e lp amount s = do
  d ← deposit_checks e lp amount s
  s1 ← transfer e (record { token = d.token; from = lp; to = e.this; amount = d.amount }) s
  own ← add_i128 (balance s.shares lp) d.minted
  shares ← add_i128 (load_total_shares s) d.minted
  assets ← add_i128 (load_total_assets s) d.amount
  restarts ← significant d.amount (balance s.shares lp) s
  until ← add_u64 e.now (if restarts then (load_config s).withdrawal_cooldown_secs else 0)
  ok (
    d.minted,
    record s1 {
      shares = put s1.shares lp own;
      stored_shares = some shares;
      stored_assets = some assets;
      withdraw_cooldown =
          if restarts then write s1.withdraw_cooldown lp until else s1.withdraw_cooldown;
    },
  )

unfoldable pub withdraw_checks : Host → ℕ → ℤ → Vault → Call (ℕ × ℕ)
unfolding load_total_assets load_total_shares mul_div
withdraw_checks e lp shares s = do
  host (e.auth lp)
  n ← at_least 1 shares Error.zero_amount
  fail_if (ltb (balance s.shares lp) n) Error.insufficient_shares
  fail_if (ltb e.now (s.withdraw_cooldown lp)) Error.cooldown_not_expired
  out ← mul_div n (load_total_assets s) (load_total_shares s)
  ok (n, out)

-- The shares that both paths of `withdraw` burn.
unfoldable pub burn : ℕ → ℕ → Vault → Vault
unfolding load_total_shares
burn lp n s = record s {
  shares = put s.shares lp (balance s.shares lp - n);
  stored_shares = some (load_total_shares s - n);
}

unfoldable pub queue_withdrawal : ℕ → ℕ → ℕ → Vault → Call Vault
unfolding burn
queue_withdrawal lp n out s = do
  queued ← add_i128 (balance s.withdraw_queue lp) out
  total ← add_i128 s.total_queued out
  ok (
      burn lp n
        (record s { withdraw_queue = put s.withdraw_queue lp queued; total_queued = total }))

unfoldable pub pay_withdrawal : Host → ℕ → ℕ → ℕ → Vault → Call Vault
unfolding burn load_total_assets transfer
pay_withdrawal e lp n out s = do
  fail_if (ltb (load_total_assets s) out) Error.vault_insolvent
  token ← unwrap s.bond_token
  transfer e (record { token = token; from = e.this; to = lp; amount = out })
      (burn lp n (record s { stored_assets = some (load_total_assets s - out) }))

unfoldable pub withdraw : Host → ℕ → ℤ → Vault → Call (ℕ × Vault)
unfolding withdraw_checks queue_withdrawal pay_withdrawal
withdraw e lp shares s = do
  found ← withdraw_checks e lp shares s
  let (n, out) = found
  s1 ← (if s.emergency_mode then queue_withdrawal lp n out s else pay_withdrawal e lp n out s)
  ok (out, s1)

-- The total queued is a natural number here, so its saturating subtraction stops at 0, where that
-- of an i128 would go below 0.
unfoldable pub process_queued_withdrawal : Host → ℕ → Vault → Call Vault
unfolding load_total_assets transfer
process_queued_withdrawal e lp s = do
  fail_if (not s.emergency_mode) Error.emergency_mode_not_active
  let queued = balance s.withdraw_queue lp
  let payout = min queued (load_total_assets s)
  fail_if (queued == 0) Error.nothing_queued
  token ← unwrap s.bond_token
  transfer e (record { token = token; from = e.this; to = lp; amount = payout })
      (record s {
        withdraw_queue = put s.withdraw_queue lp 0;
        total_queued = s.total_queued - queued;
        stored_assets = some (load_total_assets s - payout);
      })

unfoldable pub require_settlement : Host → Vault → Call (Unit {0})
require_settlement e s = do
  settlement ← or_err s.settlement Error.not_initialized
  host (e.auth settlement)

unfoldable pub cover : Host → ℤ → ℕ → Vault → Call Vault
unfolding require_settlement load_total_assets transfer
cover e amount recipient s = do
  require_settlement e s
  n ← at_least 1 amount Error.zero_amount
  let payout = min n (load_total_assets s)
  total ← add_i128 s.total_cover_paid payout
  token ← unwrap s.bond_token
  transfer e (record { token = token; from = e.this; to = recipient; amount = payout })
      (record s { stored_assets = some (load_total_assets s - payout); total_cover_paid = total })

unfoldable pub receive_income : Host → ℤ → Vault → Call Vault
unfolding require_settlement load_total_assets
receive_income e amount s = do
  require_settlement e s
  n ← at_least 1 amount Error.zero_amount
  assets ← add_i128 (load_total_assets s) n
  income ← add_i128 s.total_income n
  ok (record s { stored_assets = some assets; total_income = income })

unfoldable pub rescue_tokens : Host → ℕ → ℤ → ℕ → Vault → Call Vault
unfolding transfer
rescue_tokens e token amount recipient s = do
  admin ← or_err s.admin Error.not_initialized
  host (e.auth admin)
  bond_token ← or_err s.bond_token Error.not_initialized
  fail_if (token == bond_token) Error.protected_token
  n ← at_least 1 amount Error.zero_amount
  transfer e (record { token = token; from = e.this; to = recipient; amount = n }) s

unfoldable pub set_emergency_mode : Host → Bool → Vault → Call Vault
set_emergency_mode e enabled s = do
  admin ← or_err s.admin Error.not_initialized
  fail_if (not (admin == admin)) Error.unauthorized
  ok (record s { emergency_mode = enabled })

unfoldable pub set_config : Host → ℤ → ℕ → Vault → Call Vault
set_config e min_deposit cooldown s = do
  admin ← or_err s.admin Error.not_initialized
  host (e.auth admin)
  n ← at_least default_min_deposit min_deposit Error.invalid_config
  fail_if (ltb min_deposit_ceiling n) Error.invalid_config
  fail_if (ltb cooldown cooldown_floor || ltb cooldown_ceiling cooldown) Error.invalid_config
  ok (record s { config = some (record { min_deposit = n; withdrawal_cooldown_secs = cooldown }) })

unfoldable pub get_vault_state : Vault → ℕ × ℕ × ℕ
unfolding load_total_assets load_total_shares
get_vault_state s =
    let assets = load_total_assets s in
    let shares = load_total_shares s in
    let rate = if shares == 0 then 10_000 else get_or (checked_mul assets 10_000) assets / shares in
    (assets, shares, rate)

unfoldable pub get_lp_position : Vault → ℕ → ℕ × ℕ × ℕ
get_lp_position s lp = (balance s.shares lp, balance s.withdraw_queue lp, s.withdraw_cooldown lp)
