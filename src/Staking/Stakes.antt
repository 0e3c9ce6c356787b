-- ===== src/Staking/Stakes.antt =====
-- solver_registry/src/lib.rs: stakes, the settlement contract's writes, and obligations.
use vortex_contracts.Base.{
  ℕ, zero, suc, ◌-◌, ◌*◌, ◌/◌, max, Bool, not, ◌&&◌, none, some, ◌∷◌, ltb, ◌==◌, if◌then◌else◌,
  get_or, get_elem?, Result, ok, ◌>>=◌, ◌>>◌, or_err, unwrap, fail_if, host,
}
use vortex_contracts.Base.Checked.{i128_bound, add_i128, add_u32, fits}
use vortex_contracts.Base.Int.{ℤ, pos, negsuc}
use vortex_contracts.Base.Dict.{get, put, remove, has}
use vortex_contracts.Base.Token.{Transfer, Host}
use vortex_contracts.Staking.State.{
  slash_bps, SolverRecord, Error, Staking, Call, load_solver, score_of, tier0_floor, tier_of,
}

-- `bond_client(&env).transfer(from, to, amount)`
unfoldable pub pay : Host → ℕ → ℕ → ℕ → Staking → Call Staking
pay e from to amount s = do
  token ← or_err s.bond_token Error.not_initialized
  let t : Transfer = record { token = token; from = from; to = to; amount = amount }
  host (e.token_ok t)
  ok (record s { calls = t ∷ s.calls })

-- A positive amount; an amount of at least 0.
abbrev pub positive : ℤ → Call ℕ
positive (pos (suc n)) = ok (suc n)
positive (pos zero) = Result.err Error.zero_amount
positive (negsuc n) = Result.err Error.zero_amount

abbrev pub not_negative : ℤ → Call ℕ
not_negative (pos n) = ok n
not_negative (negsuc n) = Result.err Error.zero_amount

abbrev pub save_solver : ℕ → SolverRecord → Staking → Staking
save_solver solver r s = record s { solvers = put s.solvers solver r }

abbrev pub solver_count : Staking → ℕ
solver_count s = get_or s.total_solvers 0

unfoldable pub register_solver : Host → ℕ → ℤ → Staking → Call Staking
register_solver e solver bond_amount s = do
  host (e.auth solver)
  bond ← positive bond_amount
  fail_if (has s.solvers solver) Error.solver_already_registered
  floor ← tier0_floor s
  fail_if (ltb bond floor) Error.bond_below_floor
  total ← add_u32 (solver_count s) 1
  pay e solver e.this bond (record s {
    solvers = put s.solvers solver (record {
      bond_amount = bond;
      fills_completed = 0;
      fills_failed = 0;
      total_volume = 0;
      registered_at = e.now;
      last_slash_time = 0;
      slashed_total = 0;
    });
    total_solvers = some total;
  })

unfoldable pub stake : Host → ℕ → ℤ → Staking → Call Staking
stake e solver amount s = do
  host (e.auth solver)
  n ← positive amount
  r ← load_solver solver s
  bond ← add_i128 r.bond_amount n
  pay e solver e.this n (save_solver solver (record r { bond_amount = bond }) s)

abbrev pub open_obligations : ℕ → Staking → ℕ
open_obligations solver s = get_or (get s.open_counts solver) 0

unfoldable pub unstake : Host → ℕ → ℤ → Staking → Call Staking
unstake e solver amount s = do
  host (e.auth solver)
  n ← positive amount
  fail_if (ltb 0 (open_obligations solver s)) Error.open_obligations
  r ← load_solver solver s
  fail_if (ltb r.bond_amount n) Error.insufficient_bond
  floor ← tier0_floor s
  fail_if (ltb (r.bond_amount - n) floor) Error.bond_below_floor
  pay e e.this solver n (save_solver solver (record r { bond_amount = r.bond_amount - n }) s)

unfoldable pub deregister_solver : Host → ℕ → Staking → Call Staking
deregister_solver e solver s = do
  host (e.auth solver)
  fail_if (ltb 0 (open_obligations solver s)) Error.open_obligations
  r ← load_solver solver s
  let s' = record s { solvers = remove s.solvers solver; total_solvers = some (solver_count s - 1) }
  if ltb 0 r.bond_amount then pay e e.this solver r.bond_amount s' else ok s'

unfoldable pub require_writer_or_admin : Host → ℕ → Staking → Call (Unit {0})
require_writer_or_admin e caller s = do
  admin ← or_err s.admin Error.not_initialized
  elim s.writer [
    | some w ↦ fail_if (not (caller == w) && not (caller == admin)) Error.unauthorized
    | none ↦ fail_if (not (caller == admin)) Error.writer_not_set
  ]
  host (e.auth caller)

-- The actions that are recorded for an intent.
abbrev pub fill : ℕ
fill = 0

abbrev pub failure : ℕ
failure = 1

abbrev pub slashing : ℕ
slashing = 2

abbrev pub is_intent_recorded : ℕ → ℕ → Staking → Bool
is_intent_recorded action intent_id s = has (s.recorded action) intent_id

unfoldable pub mark_recorded : ℕ → ℕ → Staking → Call Staking
mark_recorded action intent_id s = do
  fail_if (is_intent_recorded action intent_id s) Error.already_recorded
  ok (record s {
    recorded = λ a. if a == action then put (s.recorded a) intent_id tt else s.recorded a;
  })

-- The score is computed for the event.
unfoldable pub record_fill : Host → ℕ → ℕ → ℕ → ℤ → Staking → Call Staking
record_fill e caller solver intent_id amount s = do
  require_writer_or_admin e caller s
  n ← not_negative amount
  r ← load_solver solver s
  s' ← mark_recorded fill intent_id s
  completed ← add_u32 r.fills_completed 1
  volume ← add_i128 r.total_volume n
  let r' = record r { fills_completed = completed; total_volume = volume }
  score ← score_of r'
  ok (save_solver solver r' s')

unfoldable pub record_failure : Host → ℕ → ℕ → ℕ → Staking → Call Staking
record_failure e caller solver intent_id s = do
  require_writer_or_admin e caller s
  r ← load_solver solver s
  s' ← mark_recorded failure intent_id s
  failed ← add_u32 r.fills_failed 1
  let r' = record r { fills_failed = failed }
  score ← score_of r'
  ok (save_solver solver r' s')

-- What a slash takes at a tier.
unfoldable pub slash_amount : ℕ → ℕ → Call ℕ
slash_amount tier bond = do
  bps ← unwrap (get_elem? slash_bps tier)
  if ltb 0 bond then (fits i128_bound (bond * bps) >>= λ p. ok (max (p / 10_000) 1)) else ok 0

unfoldable pub slashed : Host → SolverRecord → ℕ → Call SolverRecord
slashed e r amount = do
  failed ← add_u32 r.fills_failed 1
  total ← add_i128 r.slashed_total amount
  ok (record r {
    bond_amount = r.bond_amount - amount;
    fills_failed = failed;
    slashed_total = total;
    last_slash_time = e.now;
  })

-- The slashed tokens go to the fee recipient.
unfoldable pub take_slash : Host → ℕ → Staking → Call Staking
take_slash e amount s =
    if ltb 0 amount
    then (or_err s.fee_recipient Error.not_initialized >>= λ recipient.
        pay e e.this recipient amount s)
    else ok s

unfoldable pub slash : Host → ℕ → ℕ → ℕ → Staking → Call ((ℕ × ℕ) × Staking)
slash e caller solver intent_id s = do
  require_writer_or_admin e caller s
  r ← load_solver solver s
  marked ← mark_recorded slashing intent_id s
  tier_before ← tier_of r marked
  amount ← slash_amount tier_before r.bond_amount
  r' ← slashed e r amount
  paid ← take_slash e amount (save_solver solver r' marked)
  new_tier ← tier_of r' paid
  ok ((amount, new_tier), paid)

unfoldable pub require_writer : Host → ℕ → Staking → Call (Unit {0})
require_writer e caller s = do
  writer ← or_err s.writer Error.writer_not_set
  fail_if (not (caller == writer)) Error.unauthorized
  host (e.auth caller)

abbrev pub store_open_obligations : ℕ → ℕ → Staking → Staking
store_open_obligations solver count s = record s {
  open_counts = if count == 0 then remove s.open_counts solver else put s.open_counts solver count;
}

abbrev pub has_obligation : ℕ → ℕ → Staking → Bool
has_obligation solver intent_id s = has (s.obligations solver) intent_id

unfoldable pub lock_obligation : Host → ℕ → ℕ → ℕ → Staking → Call (ℕ × Staking)
lock_obligation e caller solver intent_id s = do
  require_writer e caller s
  r ← load_solver solver s
  if has_obligation solver intent_id s
      then ok (open_obligations solver s, s)
      else (add_u32 (open_obligations solver s) 1 >>= λ count. ok (
        count,
        store_open_obligations solver count (record s {
          obligations =
              λ x. if x == solver then put (s.obligations x) intent_id tt else s.obligations x;
        }),
      ))

unfoldable pub release_obligation : Host → ℕ → ℕ → ℕ → Staking → Call (ℕ × Staking)
release_obligation e caller solver intent_id s = do
  require_writer e caller s
  let count = open_obligations solver s - 1
  if has_obligation solver intent_id s
      then ok (
        count,
        store_open_obligations solver count (record s {
          obligations =
              λ x. if x == solver then remove (s.obligations x) intent_id else s.obligations x;
        }),
      )
      else ok (open_obligations solver s, s)
