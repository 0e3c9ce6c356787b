-- ===== src/Staking/Examples.antt =====
-- A solver registers, takes an obligation and is slashed; the theorems at this run.
use vortex_contracts.Base.{
  ℕ, ◌+◌, ◌≡◌, ◌≤◌, ◌<◌, ◌↔◌, refl, true, none, some, [], ◌∷◌, ok, arith, ◌==◌, if◌then◌else◌,
  has_failed,
}
use vortex_contracts.Base.Dict.{get, put}
use vortex_contracts.Base.Token.{Host, paid_in, paid_out}
use vortex_contracts.Base.Int.{pos}
use vortex_contracts.Staking.State.{
  SolverRecord, Staking, decay_bps, score_of, tier_loop, tier_for, tier_of, tier0_floor, meets,
}
use vortex_contracts.Staking.Admin.{default_thresholds, initialize, require_admin, set_writer}
use vortex_contracts.Staking.Stakes.{
  pay, solver_count, register_solver, unstake, deregister_solver, open_obligations,
  require_writer_or_admin, mark_recorded, slash_amount, slashed, take_slash, slash, require_writer,
  lock_obligation,
}
use vortex_contracts.Staking.Writes.{IsCut}
use vortex_contracts.Staking.Slashes.{slash-IsCut}
use vortex_contracts.Staking.Runs.{
  initialized, writer_set, registered, was_slashed, locked, Reach, here, next,
}
use vortex_contracts.Staking.Backing.{bonds, registered_solvers, Reach-backed}
use vortex_contracts.Staking.Obligations.{Reach-obligated}
use vortex_contracts.Staking.Once.{slash-once}
use vortex_contracts.Staking.Tiers.{Reach-tier_for}

abbrev host : Host
host = record { now = 100; this = 99; auth = λ _. true; token_ok = λ _. true }

abbrev blank : Staking
blank = record {
  admin = none;
  pending_admin = none;
  bond_token = none;
  fee_recipient = none;
  writer = none;
  pending_writer = none;
  thresholds = none;
  total_solvers = none;
  solvers = [];
  recorded = λ _. [];
  obligations = λ _. [];
  open_counts = [];
  calls = [];
}

abbrev ready : Staking
ready = record blank {
  admin = some 1;
  bond_token = some 50;
  fee_recipient = some 60;
  total_solvers = some 0;
  thresholds = some default_thresholds;
}

abbrev steered : Staking
steered = record ready { writer = some 2 }

abbrev newcomer : SolverRecord
newcomer = record {
  bond_amount = 600_000_000;
  fills_completed = 0;
  fills_failed = 0;
  total_volume = 0;
  registered_at = 100;
  last_slash_time = 0;
  slashed_total = 0;
}

abbrev staked_one : Staking
staked_one = record steered {
  total_solvers = some 1;
  solvers = (7, newcomer) ∷ [];
  calls = record { token = 50; from = 7; to = 99; amount = 600_000_000 } ∷ [];
}

abbrev obliged : Staking
obliged = record staked_one {
  obligations = λ x. if x == 7 then (3, tt) ∷ [] else [];
  open_counts = (7, 1) ∷ [];
}

abbrev cut_one : SolverRecord
cut_one = record newcomer {
  bond_amount = 540_000_000;
  fills_failed = 1;
  last_slash_time = 100;
  slashed_total = 60_000_000;
}

abbrev slashed_one : Staking
slashed_one = record obliged {
  solvers = (7, cut_one) ∷ [];
  recorded = λ a. if a == 2 then (3, tt) ∷ [] else [];
  calls = record { token = 50; from = 99; to = 60; amount = 60_000_000 } ∷ obliged.calls;
}

initialized_run : initialize host 1 50 60 blank ≡ ok ready
unfolding initialize
initialized_run = refl

writer_run : set_writer host 2 ready ≡ ok steered
unfolding set_writer require_admin
writer_run = refl

registered_run : register_solver host 7 (pos 600_000_000) steered ≡ ok staked_one
unfolding register_solver tier0_floor pay get put
registered_run = refl

locked_run : lock_obligation host 2 7 3 staked_one ≡ ok (1, obliged)
unfolding lock_obligation require_writer get put
locked_run = ground arith

slashed_run : slash host 2 7 3 obliged ≡ ok ((60_000_000, 0), slashed_one)
unfolding slash require_writer_or_admin mark_recorded tier_of score_of decay_bps tier_for tier_loop
    slash_amount slashed take_slash pay get put
slashed_run = ground arith

to_obliged : Reach 99 blank obliged
to_obliged =
    next
      (next
        (next (next here (initialized host 1 50 60 initialized_run)) (writer_set host 2 writer_run))
        (registered host 7 (pos 600_000_000) refl (λ h. absurd (omega (arith, h))) registered_run))
      (locked host 2 7 3 1 locked_run)

Reach-backed_example :
    (bonds slashed_one + paid_out 99 50 slashed_one.calls ≡ paid_in 99 50 slashed_one.calls)
    × (solver_count slashed_one ≡ registered_solvers slashed_one)
Reach-backed_example =
    Reach-backed 99 50 refl refl refl refl refl
      (next to_obliged (was_slashed host 2 7 3 60_000_000 0 refl slashed_run)) refl

Reach-obligated_example :
    (0 < open_obligations 7 obliged)
    × (has_failed (unstake host 7 (pos 10) obliged) ≡ true)
    × (has_failed (deregister_solver host 7 obliged) ≡ true)
unfolding get
Reach-obligated_example =
    Reach-obligated 99 blank obliged host 7 3 (pos 10) (λ _. refl) refl to_obliged refl

slash-once_example : has_failed (slash host 1 7 3 slashed_one) ≡ true
slash-once_example =
    slash-once 99 obliged slashed_one slashed_one host host 2 7 1 7 3 60_000_000 0 slashed_run here

slash-IsCut_example :
    (r r' : SolverRecord) × (get obliged.solvers 7 ≡ some r)
    × (get slashed_one.solvers 7 ≡ some r')
    × IsCut r.bond_amount 60_000_000
    × (r'.bond_amount + 60_000_000 ≡ r.bond_amount)
slash-IsCut_example = slash-IsCut host 2 7 3 obliged slashed_run

Reach-tier_for_example :
    (tier : ℕ) × (tier_for 5_000 20_000_000_000 obliged ≡ ok tier)
    × (tier < 5)
    × ((meets 5_000 20_000_000_000 (record { min_bond = 20_000_000_000; min_score_bps = 3_500 })
          ≡ true)
        ↔ (2 ≤ tier))
Reach-tier_for_example =
    Reach-tier_for 99 blank obliged default_thresholds 5_000 20_000_000_000 1
      (record { min_bond = 20_000_000_000; min_score_bps = 3_500 }) refl to_obliged refl refl

-- A volume of 2 ^ 64 less the scale and one.
abbrev stuck : Staking
stuck = record obliged {
  solvers =
      (7, record newcomer { fills_completed = 3; total_volume = 18_446_743_073_709_551_615 }) ∷ [];
}
