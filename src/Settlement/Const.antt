-- ===== src/Settlement/Const.antt =====
-- intent_settlement/src/lib.rs: the constants that the modelled operations use.
use vortex_contracts.Base.{ℕ, ◌*◌}

abbrev pub bps_denominator : ℕ
bps_denominator = 10_000

abbrev pub slash_bps : ℕ
slash_bps = 1_000

abbrev pub protocol_fee_bps : ℕ
protocol_fee_bps = 5

abbrev pub min_bond : ℕ
min_bond = 50 * 10_000_000

abbrev pub intent_expiry : ℕ
intent_expiry = 1_800

abbrev pub dispute_window : ℕ
dispute_window = 3_600

abbrev pub arbiter_window : ℕ
arbiter_window = 86_400

abbrev pub slash_cooldown : ℕ
slash_cooldown = 3_600

abbrev pub cancel_cooldown : ℕ
cancel_cooldown = 60

abbrev pub amendment_cooldown : ℕ
amendment_cooldown = 60

abbrev pub max_bond_tokens : ℕ
max_bond_tokens = 8

abbrev pub max_amount : ℕ
max_amount = 1_000_000_000_000_000_000_000_000_000_000

abbrev pub max_whole_units : ℕ
max_whole_units = 1_000_000_000_000

abbrev pub user_intent_bucket_size : ℕ
user_intent_bucket_size = 64
