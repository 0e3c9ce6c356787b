-- ===== src/Staking/Admin.antt =====
-- solver_registry/src/lib.rs: its setup, the changes of its administrator and of its writer, and of
-- the thresholds of a tier.
use vortex_contracts.Base.{
  ℕ, ◌+◌, ◌-◌, ◌*◌, Bool, false, true, not, ◌||◌, Option, none, some, List, [], ◌∷◌, ltb, leb, ◌==◌,
  if◌then◌else◌, get_elem?, Result, ok, ◌>>=◌, ◌>>◌, or_err, unwrap, fail_if, host,
}
use vortex_contracts.Base.Checked.{add_u64}
use vortex_contracts.Base.Int.{ℤ, pos, negsuc}
use vortex_contracts.Base.Lists.{set}
use vortex_contracts.Base.Token.{Host}
use vortex_contracts.Staking.State.{
  usdc, tier_count, max_tunable_min_bond, max_tunable_min_score_bps, admin_timelock_delay,
  writer_timelock_delay, TierThreshold, Error, Staking, Call, load_thresholds,
}

abbrev pub is_some {ℓ} : {A : Type ℓ} → Option A → Bool
is_some none = false
is_some (some a) = true

-- `DEFAULT_THRESHOLDS`, with the bonds in the smallest unit.
abbrev pub default_thresholds : List TierThreshold
default_thresholds =
    record { min_bond = 50 * usdc; min_score_bps = 0 }
    ∷ record { min_bond = 500 * usdc; min_score_bps = 1_000 }
    ∷ record { min_bond = 2_000 * usdc; min_score_bps = 3_500 }
    ∷ record { min_bond = 10_000 * usdc; min_score_bps = 7_000 }
    ∷ record { min_bond = 50_000 * usdc; min_score_bps = 9_000 }
    ∷ []

unfoldable pub initialize : Host → ℕ → ℕ → ℕ → Staking → Call Staking
initialize e admin bond_token fee_recipient s = do
  fail_if (is_some s.admin) Error.already_initialized
  host (e.auth admin)
  ok (record s {
    admin = some admin;
    bond_token = some bond_token;
    fee_recipient = some fee_recipient;
    total_solvers = some 0;
    thresholds = some default_thresholds;
  })

unfoldable pub require_admin : Host → Staking → Call (Unit {0})
require_admin e s = do admin ← or_err s.admin Error.not_initialized; host (e.auth admin)

unfoldable pub set_writer : Host → ℕ → Staking → Call Staking
set_writer e writer s = do
  require_admin e s
  fail_if (is_some s.writer) Error.writer_already_set
  ok (record s { writer = some writer })

unfoldable pub propose_admin : Host → ℕ → Staking → Call Staking
propose_admin e new_admin s = do
  require_admin e s
  eta ← add_u64 e.now admin_timelock_delay
  ok (record s { pending_admin = some (record { to = new_admin; eta = eta }) })

unfoldable pub accept_admin : Host → ℕ → Staking → Call Staking
accept_admin e new_admin s = do
  p ← or_err s.pending_admin Error.no_pending_admin_transfer
  fail_if (not (p.to == new_admin)) Error.unauthorized
  fail_if (ltb e.now p.eta) Error.admin_timelock_not_elapsed
  host (e.auth new_admin)
  old_admin ← or_err s.admin Error.not_initialized
  ok (record s { admin = some new_admin; pending_admin = none })

unfoldable pub cancel_admin_transfer : Host → Staking → Call Staking
cancel_admin_transfer e s = do
  require_admin e s
  p ← or_err s.pending_admin Error.no_pending_admin_transfer
  ok (record s { pending_admin = none })

unfoldable pub propose_writer : Host → ℕ → Staking → Call Staking
propose_writer e new_writer s = do
  require_admin e s
  eta ← add_u64 e.now writer_timelock_delay
  ok (record s { pending_writer = some (record { to = new_writer; eta = eta }) })

unfoldable pub execute_writer : Host → ℕ → Staking → Call Staking
execute_writer e new_writer s = do
  require_admin e s
  p ← or_err s.pending_writer Error.no_pending_writer
  fail_if (not (p.to == new_writer)) Error.unauthorized
  fail_if (ltb e.now p.eta) Error.timelock_not_elapsed
  ok (record s { pending_writer = none; writer = some new_writer })

unfoldable pub cancel_writer : Host → Staking → Call Staking
cancel_writer e s = do
  require_admin e s
  p ← or_err s.pending_writer Error.no_pending_writer
  ok (record s { pending_writer = none })

-- A bond that a threshold may ask for: an `i128` from 1 to the maximum.
unfoldable pub tunable_bond : ℤ → Call ℕ
tunable_bond (negsuc n) = Result.err Error.threshold_out_of_bounds
tunable_bond (pos n) = do
  fail_if (ltb n 1 || ltb max_tunable_min_bond n) Error.threshold_out_of_bounds
  ok n

-- The row that `rows` gets must lie above the row `tier - 1` and below the row `tier + 1`.
unfoldable pub check_neighbours : ℕ → ℕ → ℕ → List TierThreshold → Call (Unit {0})
check_neighbours tier min_bond min_score_bps rows = do
  below ← unwrap (get_elem? rows (tier - 1))
  fail_if (leb min_bond below.min_bond || leb min_score_bps below.min_score_bps)
      Error.thresholds_not_monotonic
  if ltb (tier + 1) tier_count
      then (unwrap (get_elem? rows (tier + 1)) >>= λ above.
          fail_if (leb above.min_bond min_bond || leb above.min_score_bps min_score_bps)
            Error.thresholds_not_monotonic)
      else ok tt

unfoldable pub set_tier_threshold : Host → ℕ → ℤ → ℕ → Staking → Call Staking
set_tier_threshold e tier min_bond min_score_bps s = do
  require_admin e s
  fail_if (tier == 0 || leb tier_count tier) Error.invalid_tier
  bond ← tunable_bond min_bond
  fail_if (ltb max_tunable_min_score_bps min_score_bps) Error.threshold_out_of_bounds
  rows ← load_thresholds s
  check_neighbours tier bond min_score_bps rows
  ok (record s {
    thresholds = some (set rows tier (record { min_bond = bond; min_score_bps = min_score_bps }));
  })
