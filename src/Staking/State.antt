-- ===== src/Staking/State.antt =====
-- solver_registry/src/lib.rs: the storage of the registry, scores, and the tiers that they give.
-- Bonds and volumes are written by guarded code only and are never negative. A `BytesN<32>` and the
-- name of an action are compared and nothing more, so they are numbers.
use vortex_contracts.Base.{
  ℕ, zero, suc, ◌+◌, ◌*◌, ◌/◌, ◌%◌, Bool, ◌&&◌, Option, none, some, List, [], ◌∷◌, leb, ◌==◌,
  if◌then◌else◌, get_elem?, Result, ok, trap, ◌>>=◌, ◌>>◌, or_err, unwrap, fail_if,
}
use vortex_contracts.Base.Checked.{u64_bound, i128_bound, fits, sub_u64}
use vortex_contracts.Base.Dict.{Dict, get}
use vortex_contracts.Base.Token.{Transfer}

abbrev pub usdc : ℕ
usdc = 10_000_000

abbrev pub tier_count : ℕ
tier_count = 5

abbrev pub fill_window_bonus_pct : List ℕ
fill_window_bonus_pct = 0 ∷ 10 ∷ 20 ∷ 30 ∷ 50 ∷ []

abbrev pub slash_bps : List ℕ
slash_bps = 1_000 ∷ 1_000 ∷ 800 ∷ 600 ∷ 500 ∷ []

abbrev pub fee_rebate_bps : List ℕ
fee_rebate_bps = 0 ∷ 0 ∷ 0 ∷ 0 ∷ 0 ∷ []

abbrev pub max_tunable_min_bond : ℕ
max_tunable_min_bond = 1_000_000 * usdc

abbrev pub max_tunable_min_score_bps : ℕ
max_tunable_min_score_bps = 9_999

-- The delays of `accept_admin` and of `execute_writer`.
abbrev pub admin_timelock_delay : ℕ
admin_timelock_delay = 172_800

abbrev pub writer_timelock_delay : ℕ
writer_timelock_delay = 172_800

pub record TierThreshold : Type 0 where
  pub min_bond : ℕ
  pub min_score_bps : ℕ

pub record TierInfo : Type 0 where
  pub tier : ℕ
  pub min_bond : ℕ
  pub min_score_bps : ℕ
  pub fill_window_bonus_pct : ℕ
  pub slash_bps : ℕ
  pub fee_rebate_bps : ℕ

pub record SolverRecord : Type 0 where
  pub bond_amount : ℕ
  pub fills_completed : ℕ
  pub fills_failed : ℕ
  pub total_volume : ℕ
  pub registered_at : ℕ
  pub last_slash_time : ℕ
  pub slashed_total : ℕ

pub data Error : Type 0 where
  already_initialized not_initialized unauthorized solver_not_registered : Error
  solver_already_registered bond_below_floor zero_amount insufficient_bond : Error
  invalid_tier threshold_out_of_bounds thresholds_not_monotonic writer_not_set : Error
  timelock_not_elapsed no_pending_writer writer_already_set already_recorded : Error
  admin_timelock_not_elapsed no_pending_admin_transfer open_obligations : Error

-- An address proposed for a role, and the first time at which it may take it.
pub record Handover : Type 0 where
  pub to : ℕ
  pub eta : ℕ

pub record Staking : Type 0 where
  pub admin : Option ℕ
  pub pending_admin : Option Handover
  pub bond_token : Option ℕ
  pub fee_recipient : Option ℕ
  pub writer : Option ℕ
  pub pending_writer : Option Handover
  pub thresholds : Option (List TierThreshold)
  pub total_solvers : Option ℕ
  pub solvers : Dict SolverRecord
  -- By action, and then by intent.
  pub recorded : ℕ → Dict (Unit {0})
  -- By solver, and then by intent.
  pub obligations : ℕ → Dict (Unit {0})
  pub open_counts : Dict ℕ
  -- The token calls made so far, the last one first.
  pub calls : List Transfer

abbrev pub Call : Type 0 → Type 0
Call A = Result Error A

abbrev pub volume_scale : ℕ
volume_scale = 1_000_000_000_000

-- The conversion to `u64` keeps the low 64 bits, and a division by 0 is a trap.
unfoldable pub decay_bps : ℕ → Call ℕ
decay_bps vol = fits i128_bound (volume_scale + vol + 1) >>= λ d.
    if d % u64_bound == 0 then trap else ok (volume_scale * 10_000 / (d % u64_bound))

unfoldable pub score_of : SolverRecord → Call ℕ
score_of r =
    if r.fills_completed + r.fills_failed == 0
    then ok 0
    else (decay_bps r.total_volume >>= λ decay. sub_u64 10_000 (decay / 10) >>= λ multiplier.
        ok
          (r.fills_completed * 10_000 / (r.fills_completed + r.fills_failed) * multiplier / 10_000))

abbrev pub meets : ℕ → ℕ → TierThreshold → Bool
meets score bond row = leb row.min_bond bond && leb row.min_score_bps score

-- The loop of `tier_for` with `n` rows left, from row `i`.
unfoldable pub tier_loop : List TierThreshold → ℕ → ℕ → ℕ → ℕ → ℕ → Call ℕ
tier_loop rows score bond zero i tier = ok tier
tier_loop rows score bond (suc n) i tier = do
  row ← unwrap (get_elem? rows i)
  tier_loop rows score bond n (suc i) (if meets score bond row then i else tier)

abbrev pub load_thresholds : Staking → Call (List TierThreshold)
load_thresholds s = or_err s.thresholds Error.not_initialized

unfoldable pub tier_for : ℕ → ℕ → Staking → Call ℕ
tier_for score bond s = do rows ← load_thresholds s; tier_loop rows score bond tier_count 0 0

unfoldable pub tier_of : SolverRecord → Staking → Call ℕ
tier_of r s = do score ← score_of r; tier_for score r.bond_amount s

unfoldable pub tier0_floor : Staking → Call ℕ
tier0_floor s = do rows ← load_thresholds s; row ← unwrap (get_elem? rows 0); ok row.min_bond

unfoldable pub perk : ℕ → List ℕ → Call ℕ
perk tier table = do fail_if (leb tier_count tier) Error.invalid_tier; unwrap (get_elem? table tier)

abbrev pub get_fill_window_bonus_pct : ℕ → Call ℕ
get_fill_window_bonus_pct tier = perk tier fill_window_bonus_pct

abbrev pub get_slash_bps : ℕ → Call ℕ
get_slash_bps tier = perk tier slash_bps

abbrev pub get_fee_rebate_bps : ℕ → Call ℕ
get_fee_rebate_bps tier = perk tier fee_rebate_bps

abbrev pub load_solver : ℕ → Staking → Call SolverRecord
load_solver solver s = or_err (get s.solvers solver) Error.solver_not_registered

unfoldable pub get_tier : ℕ → Staking → Call ℕ
get_tier solver s = elim (get s.solvers solver) [ none ↦ ok 0 | some r ↦ tier_of r s ]

unfoldable pub get_reputation_score : ℕ → Staking → Call (Option ℕ)
get_reputation_score solver s = elim (get s.solvers solver) [
  | none ↦ ok none
  | some r ↦ score_of r >>= λ score. ok (some score)
]

-- The loop of `get_tier_table`; the names of the tiers are left out.
unfoldable pub tier_rows : List TierThreshold → ℕ → ℕ → Call (List TierInfo)
tier_rows rows zero i = ok []
tier_rows rows (suc n) i = do
  row ← unwrap (get_elem? rows i)
  bonus ← unwrap (get_elem? fill_window_bonus_pct i)
  slash ← unwrap (get_elem? slash_bps i)
  rebate ← unwrap (get_elem? fee_rebate_bps i)
  rest ← tier_rows rows n (suc i)
  ok (
      record {
        tier = i;
        min_bond = row.min_bond;
        min_score_bps = row.min_score_bps;
        fill_window_bonus_pct = bonus;
        slash_bps = slash;
        fee_rebate_bps = rebate;
      }
      ∷ rest)

unfoldable pub get_tier_table : Staking → Call (List TierInfo)
get_tier_table s = do rows ← load_thresholds s; tier_rows rows tier_count 0
