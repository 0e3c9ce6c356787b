-- ===== src/Governor/Examples.antt =====
-- A proposal that passes: the power is recorded, the vote cast, the call queued and executed.
use vortex_contracts.Base.{
  ℕ, ◌≡◌, ◌≢◌, ◌≤◌, ◌<◌, refl, true, false, none, some, List, [], ◌∷◌, ok, arith, length,
}
use vortex_contracts.Base.Dict.{get, put, sum_by}
use vortex_contracts.Base.Int.{pos}
use vortex_contracts.Governor.Power.{
  for, Checkpoint, Proposal, GovernorConfig, Governor, Env, Call, initialize, sync_power,
  voting_power, search, checkpoints_of,
}
use vortex_contracts.Governor.Proposals.{propose, cancel, cast_vote, queue, execute}
use vortex_contracts.Governor.Search.{power_at, ledger_at, IsSorted, search-power_at}
use vortex_contracts.Governor.Success.{all_votes}
use vortex_contracts.Governor.Runs.{
  initialized, synced, proposed, voted, queued, executed, Reach, here, next, cancel-execute,
}
use vortex_contracts.Governor.Tallies.{Reach-counted, Reach-passed}
use vortex_contracts.Governor.Snapshots.{Reach-voting_power}

abbrev env_at : ℕ → Env
env_at now = record {
  at = record { now = now; this = 99; auth = λ _. true; token_ok = λ _. true };
  invoker = 7;
  bond = λ _ _. pos 500;
  schedule_ok = λ _ _ _ _. true;
  execute_ok = λ _ _ _ _. true;
}

abbrev rules : GovernorConfig
rules = record {
  registry = 2;
  timelock = 3;
  voting_delay = 10;
  voting_period = 100;
  proposal_threshold = pos 100;
  quorum = pos 400;
}

abbrev blank : Governor
blank = record {
  config = none;
  admin = none;
  count = none;
  proposals = [];
  votes = λ _. [];
  checkpoints = λ _. [];
}

abbrev after : Call Governor → Governor
after (ok s) = s
after _ = blank

abbrev after_pair : {A : Type 0} → Call (A × Governor) → Governor
after_pair (ok (_, s)) = s
after_pair _ = blank

abbrev opened : Governor
opened = after (initialize (env_at 1) 1 rules blank)

abbrev known : Governor
known = after_pair (sync_power (env_at 5) 7 opened)

abbrev asked : Governor
asked = after_pair (propose (env_at 20) 7 50 6 8 known)

abbrev chosen : Governor
chosen = after_pair (cast_vote (env_at 40) 7 0 for asked)

abbrev waiting : Governor
waiting = after (queue (env_at 200) 0 chosen)

abbrev carried : Governor
carried = after (execute (env_at 220) 0 waiting)

opened_run : initialize (env_at 1) 1 rules blank ≡ ok opened
unfolding initialize
opened_run = refl

known_run : sync_power (env_at 5) 7 opened ≡ ok (pos 500, known)
unfolding initialize sync_power get put
known_run = refl

asked_run : propose (env_at 20) 7 50 6 8 known ≡ ok (0, asked)
unfolding initialize sync_power propose voting_power get put
asked_run = refl

chosen_run : cast_vote (env_at 40) 7 0 for asked ≡ ok (500, chosen)
unfolding initialize sync_power propose cast_vote voting_power get put
chosen_run = refl

waiting_run : queue (env_at 200) 0 chosen ≡ ok waiting
unfolding initialize sync_power propose cast_vote voting_power queue get put
waiting_run = refl

carried_run : execute (env_at 220) 0 waiting ≡ ok carried
unfolding initialize sync_power propose cast_vote voting_power queue execute get put
carried_run = refl

asked_runs : Reach blank 20 asked
asked_runs =
    next (env_at 20)
      (next (env_at 5) (next (env_at 1) here refl (omega arith) (initialized 1 rules opened_run))
        refl (omega arith) (synced 7 (pos 500) known_run))
      refl (omega arith) (proposed 7 50 6 8 0 asked_run)

carried_runs : Reach blank 220 carried
carried_runs =
    next (env_at 220)
      (next (env_at 200)
        (next (env_at 40) asked_runs refl (omega arith) (voted 7 0 500 for chosen_run)) refl
        (omega arith) (queued 0 waiting_run))
      refl (omega arith) (executed 0 carried_run)

abbrev adopted : Proposal
adopted = record {
  proposer = 7;
  snapshot = 20;
  deadline = 130;
  eta = 210;
  for_votes = 500;
  against_votes = 0;
  abstain_votes = 0;
  canceled = false;
  executed = true;
  target = 50;
  function = 6;
  calldata = 8;
}

adopted-found : get carried.proposals 0 ≡ some adopted
unfolding initialize sync_power propose cast_vote voting_power queue execute get put
adopted-found = refl

Reach-counted_example : all_votes adopted ≡ sum_by (λ n. n) (carried.votes 0)
Reach-counted_example =
    Reach-counted {s = blank} {u = carried} 0 adopted refl refl refl (λ _. refl) carried_runs
      adopted-found

Reach-passed_example : (0 < 500) × (130 < 220) × (adopted.eta ≢ 0) × (210 ≤ 220)
Reach-passed_example =
    Reach-passed {s = blank} {u = carried} 0 adopted refl refl refl (λ _. refl) carried_runs
      adopted-found refl

abbrev withdrawn : Governor
withdrawn = after (cancel (env_at 205) 3 0 waiting)

withdrawn_run : cancel (env_at 205) 3 0 waiting ≡ ok withdrawn
unfolding initialize sync_power propose cast_vote voting_power queue cancel get put
withdrawn_run = refl

cancel-execute_example : (v : Governor) × (execute (env_at 220) 0 withdrawn ≡ ok v)
cancel-execute_example =
    cancel-execute (env_at 205) (env_at 220) 3 0 waiting withdrawn_run carried_run

abbrev two : List Checkpoint
two = record { ledger = 5; power = pos 500 } ∷ record { ledger = 9; power = pos 300 } ∷ []

two-IsSorted : IsSorted two
unfolding ledger_at
two-IsSorted ℕ.zero ℕ.zero a b = omega arith
two-IsSorted ℕ.zero (ℕ.suc ℕ.zero) a b = omega arith
two-IsSorted ℕ.zero (ℕ.suc (ℕ.suc j)) a b = absurd (omega (arith, b))
two-IsSorted (ℕ.suc i) ℕ.zero a b = absurd (omega (arith, a))
two-IsSorted (ℕ.suc ℕ.zero) (ℕ.suc ℕ.zero) a b = omega arith
two-IsSorted (ℕ.suc (ℕ.suc i)) (ℕ.suc ℕ.zero) a b = absurd (omega (arith, a))
two-IsSorted (ℕ.suc i) (ℕ.suc (ℕ.suc j)) a b = absurd (omega (arith, b))

search-power_at_example : search two 7 ≡ some (power_at (pos 0) two 7)
search-power_at_example = search-power_at two 7 two-IsSorted

Reach-voting_power_example :
    voting_power 2 7 20 asked ≡ ok (power_at (pos 0) (checkpoints_of 2 7 asked) 20)
Reach-voting_power_example =
    Reach-voting_power {s = blank} {u = asked} 2 7 20 (λ _. refl) asked_runs

abbrev renewed : Governor
renewed = after_pair (sync_power (env_at 30) 7 asked)

renewed_run : sync_power (env_at 30) 7 asked ≡ ok (pos 500, renewed)
unfolding initialize sync_power propose voting_power get put
renewed_run = refl

room : length (checkpoints_of 2 7 asked) < 64
unfolding initialize sync_power propose voting_power get put
room = omega arith
