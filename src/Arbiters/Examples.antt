-- ===== src/Arbiters/Examples.antt =====
-- Three arbiters, a panel of three, two votes against one, and the theorems at this run.
use vortex_contracts.Base.{ℕ, ◌+◌, ◌≡◌, refl, true, false, none, some, [], ◌∷◌, ok, arith}
use vortex_contracts.Base.Dict.{get, put, no_repeat}
use vortex_contracts.Base.Token.{Transfer, paid_in, paid_out}
use vortex_contracts.Base.Int.{pos}
use vortex_contracts.Arbiters.State.{upheld, Round, Panel, Env, initialize, register_arbiter}
use vortex_contracts.Arbiters.Rounds.{
  open_vote, scaled_threshold, vote, tally, outcome_of, count_votes, release_record,
}
use vortex_contracts.Arbiters.Success.{bonds, count}
use vortex_contracts.Arbiters.Runs.{initialized, registered, opened, Reach, here, next}
use vortex_contracts.Arbiters.Verdicts.{IsRound}
use vortex_contracts.Arbiters.Solvency.{Reach-solvent}
use vortex_contracts.Arbiters.Expiry.{tally-expires}

abbrev env_at : ℕ → Env
env_at now = record {
  at = record { now = now; this = 99; auth = λ _. true; token_ok = λ _. true };
  dispute_parties = λ _. some (20, 30);
  resolve_ok = λ _ _. true;
  gen_range = λ _ i _. i;
}

abbrev blank : Panel
blank = record {
  admin = none;
  settlement = none;
  bond_token = none;
  bond_amount = none;
  panel_size = none;
  threshold = none;
  arbiters = [];
  records = [];
  rounds = [];
  calls = [];
  resolved = [];
}

abbrev ready : Panel
ready = record blank {
  admin = some 1;
  settlement = some 2;
  bond_token = some 50;
  bond_amount = some 1_000;
  panel_size = some 1;
  threshold = some 1;
}

abbrev bonded : Transfer
bonded = record { token = 50; from = 7; to = 99; amount = 1_000 }

abbrev joined : Panel
joined = record ready {
  arbiters = 7 ∷ [];
  records = (7, record { bond = 1_000; open_votes = 0 }) ∷ [];
  calls = bonded ∷ [];
}

abbrev round : Round
round = record { panel = 7 ∷ []; threshold = 1; opened_at = 100; votes = []; settled = false }

abbrev voting : Panel
voting = record joined {
  records = (7, record { bond = 1_000; open_votes = 1 }) ∷ [];
  rounds = (4, round) ∷ [];
}

abbrev judged : Round
judged = record round { votes = (7, upheld) ∷ [] }

abbrev decided : Panel
decided = record voting { rounds = (4, judged) ∷ [] }

abbrev closed : Panel
closed = record joined {
  rounds = (4, record judged { settled = true }) ∷ [];
  resolved = (4, upheld) ∷ [];
}

initialized_run : initialize 1 2 50 (pos 1_000) 1 1 blank ≡ ok ready
unfolding initialize
initialized_run = refl

joined_run : register_arbiter (env_at 10) 7 ready ≡ ok joined
unfolding register_arbiter get put
joined_run = refl

opened_run : open_vote (env_at 100) 4 joined ≡ ok (7 ∷ [], voting)
unfolding open_vote get put
opened_run = refl

voted_run : vote (env_at 200) 7 4 upheld voting ≡ ok decided
unfolding vote get put
voted_run = refl

tallied_run : tally (env_at 300) 4 decided ≡ ok (some upheld, closed)
unfolding tally release_record count_votes get put
tallied_run = refl

runs : Reach 99 blank voting
runs =
    next
      (next (next here (initialized 1 2 50 (pos 1_000) 1 1 initialized_run))
        (registered (env_at 10) 7 refl (λ h. absurd (omega (arith, h))) joined_run))
      (opened (env_at 100) 4 (7 ∷ []) opened_run)

threshold_run : scaled_threshold 3 2 5 ≡ ok 2
unfolding scaled_threshold
threshold_run = refl

Reach-solvent_example : bonds voting + paid_out 99 50 voting.calls ≡ paid_in 99 50 voting.calls
Reach-solvent_example =
    Reach-solvent 99 50 {s = blank} {t = voting} refl refl refl refl refl runs refl

judged-found : get decided.rounds 4 ≡ some judged
unfolding get
judged-found = refl

judged-IsRound : IsRound judged
unfolding no_repeat get count
judged-IsRound = record { asked = omega arith; once = refl; of_members = λ a k. ground (arith, k) }

round-found : get voting.rounds 4 ≡ some round
unfolding get
round-found = refl

undecided : outcome_of round ≡ none
unfolding outcome_of count_votes
undecided = refl

tally-expires_example : (s' : Panel) × (tally (env_at 90_000) 4 voting ≡ ok (none, s'))
tally-expires_example =
    tally-expires 99 (env_at 90_000) 4 blank voting round refl refl runs round-found refl undecided
      (omega arith) (omega arith)
