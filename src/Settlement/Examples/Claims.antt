-- ===== src/Settlement/Examples/Claims.antt =====
-- The theorems of the settlement contract, each at a concrete run.
use vortex_contracts.Base.{
  ℕ, ◌+◌, ◌*◌, ◌/◌, ◌≤◌, ◌≡◌, refl, ◌⊎◌, true, false, some, get_or, arith, ok, has_failed,
}
use vortex_contracts.Base.Dict.{get}
use vortex_contracts.Base.Int.{◌≤ℤ◌, pos}
use vortex_contracts.Base.Token.{paid}
use vortex_contracts.Settlement.Accept.{capacity}
use vortex_contracts.Settlement.Access.{accept_intent-covered}
use vortex_contracts.Settlement.Bonds.{get_solver_bond_amount}
use vortex_contracts.Settlement.Counts.Moves.{IsCounted}
use vortex_contracts.Settlement.Dispute.{Escrow, Verdict, judge}
use vortex_contracts.Settlement.Examples.Core.{
  empty, taken, escrowed, released, env, request, registered, registered_runs, submitted,
  submitted_runs, taken_runs, filled_, filled__runs, escrowed_runs, released_runs, disputed_,
  resolved_, resolved__runs, filled_intent_, cancelled_, cancelled__runs, taken_found, filled_found,
}
use vortex_contracts.Settlement.Examples.Closing.{
  submitted_intent, submitted_found, cancelled_intent, cancelled_found, closed_, closed__runs,
  paused_, paused_missed, paused_missed_runs, reopened_intent, reopened_found,
}
use vortex_contracts.Settlement.Fill.{Delivery, filled_intent}
use vortex_contracts.Settlement.Payouts.{
  Completed, Continued, fill_intent-settles, begin_fill-release_fill, resolve_dispute-pays,
}
use vortex_contracts.Settlement.Slash.{slash_solver}
use vortex_contracts.Settlement.State.{load_config, load_bond_token}
use vortex_contracts.Settlement.Success.Escrows.{pull_of}
use vortex_contracts.Settlement.Success.Payments.{fill_calls}
use vortex_contracts.Settlement.Timing.{fill_blocks_slash}
use vortex_contracts.Settlement.Trace.{
  Step, Reach, here, next, IsInitial, submit, accept, fill, slash, cancel, register, close,
}
use vortex_contracts.Settlement.Trace.Invariants.{Reach-IsCounted, WellFormed, Reach-WellFormed}
use vortex_contracts.Settlement.Trace.Lasting.{
  IsGone, IsKept, IsClosed, Grows, Reach-Grows, Reach-final,
}
use vortex_contracts.Settlement.Trace.Paused.{is_taken, Reach-paused}
use vortex_contracts.Settlement.Types.{disputed, dismissed, IntentRecord, SolverRecord}

abbrev init : IsInitial empty
init = record { no_intents = refl; no_solvers = refl; none_open = refl }

-- The run up to the fill.
abbrev registered_reached : Reach empty registered
registered_reached = next here (register (env 1_000) 20 60 (pos 1_000_000_000) registered_runs)

abbrev taken_reached : Reach empty taken
taken_reached =
    next (next registered_reached (submit (env 1_000) 30 request 7 submitted_runs))
      (accept (env 1_010) 20 7 60 taken_runs)

abbrev filled_reached : Reach empty filled_
filled_reached = next taken_reached (fill (env 1_020) 20 7 (pos 500) false filled__runs)

Reach-IsCounted_example : IsCounted filled_
Reach-IsCounted_example = Reach-IsCounted init filled_reached

Reach-WellFormed_example : WellFormed filled_intent_
Reach-WellFormed_example = Reach-WellFormed 7 init filled_reached filled_found

-- The cancelled intent, and its deletion when it is old enough.
abbrev cancel_step : Step submitted cancelled_
cancel_step = cancel (env 1_005) 30 7 cancelled__runs

abbrev close_step : Step cancelled_ closed_
close_step = close (env 2_593_005) 7 closed__runs

Reach-Grows_example :
    IsKept 7 submitted_intent closed_ ⊎ IsClosed 7 submitted_intent submitted closed_
Reach-Grows_example = Reach-Grows 7 (next (next here cancel_step) close_step) submitted_found

Reach-final_example : (get closed_.intents 7 ≡ some cancelled_intent) ⊎ IsGone 7 closed_
Reach-final_example = Reach-final 7 (next here close_step) cancelled_found refl

Reach-paused_example :
    (paused_missed.paused ≡ true)
    × ((i : IntentRecord) × (get paused_.intents 7 ≡ some i)
        × Grows i reopened_intent
        × ((is_taken reopened_intent.state ≡ false)
            ⊎ ((reopened_intent.state ≡ i.state) × (reopened_intent.solver ≡ i.solver))))
Reach-paused_example =
    Reach-paused 7 refl (next here (slash (env 9_000) 7 paused_missed_runs)) reopened_found

fill_intent-settles_example :
    (d : Delivery) × (get taken.intents 7 ≡ some d.intent)
    × ((pos 500) ≡ pos d.amount)
    × (d.fee ≡ (d.amount * (load_config taken).protocol_fee_bps) / 10_000)
    × (filled_.calls ≡ fill_calls 20 d taken.calls)
    × (get filled_.intents 7 ≡ some (filled_intent (env 1_020).now d))
    × ((filled_intent (env 1_020).now d).total_filled ≡ d.intent.total_filled + d.amount)
    × (Completed d.intent (filled_intent (env 1_020).now d) d.amount
        ⊎ Continued d.intent (filled_intent (env 1_020).now d) d.amount)
fill_intent-settles_example =
    fill_intent-settles (env 1_020) taken 20 7 (pos 500) false filled__runs

accept_intent-covered_example :
    (r : SolverRecord) × (r' : SolverRecord) × (default : ℕ) × (get submitted.solvers 20 ≡ some r)
    × (get taken.solvers 20 ≡ some r')
    × (load_bond_token submitted ≡ ok default)
    × (r'.active_intents ≡ r.active_intents + 1)
    × (r'.active_intents ≤ (load_config submitted).max_active_intents_per_solver)
    × (taken.solver_exposure 20
        ≤ℤ pos (
            capacity
              (get_solver_bond_amount submitted default 20 r 60)
              (load_config submitted).coverage_multiplier))
accept_intent-covered_example = accept_intent-covered (env 1_010) submitted taken 20 7 60 taken_runs

fill_blocks_slash_example : has_failed (slash_solver (env 1_020) 7 taken) ≡ true
fill_blocks_slash_example =
    fill_blocks_slash (env 1_020) (env 1_020) taken 20 7 (pos 500) false taken_found (omega arith)
      refl filled__runs

begin_fill-release_fill_example :
    (i : IntentRecord) × (n : ℕ) × (get taken.intents 7 ≡ some i)
    × ((pos 500) ≡ pos n)
    × ((env 1_020).now + 3_600 ≤ (env 5_000).now)
    × (paid released.calls
        ≡ paid escrowed.calls + (env 1_020).received (pull_of (env 1_020) taken i 20 n))
begin_fill-release_fill_example =
    begin_fill-release_fill (env 1_020) (env 5_000) taken escrowed released 20 7 (pos 500)
      escrowed_runs released_runs

resolve_dispute-pays_example :
    (x : Escrow) × (v : Verdict) × (get disputed_.intents 7 ≡ some x.intent)
    × (x.intent.state ≡ disputed)
    × (judge (env 1_040) x dismissed disputed_ ≡ ok v)
    × (x.amount ≡ get_or x.intent.fill_amount 0)
    × (paid resolved_.calls ≡ paid disputed_.calls + x.amount + v.slash_amount)
resolve_dispute-pays_example =
    resolve_dispute-pays (env 1_040) disputed_ 10 7 dismissed resolved__runs
