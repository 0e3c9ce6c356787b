-- ===== src/Governor/Proposals.antt =====
-- governor/src/lib.rs: proposals, votes, and their way through the timelock.
use vortex_contracts.Base.{
  ℕ, zero, suc, ◌+◌, ◌-◌, min, Bool, true, false, not, ◌||◌, ◌&&◌, Option, none, some, List, [],
  ◌∷◌, ltb, leb, ◌==◌, if◌then◌else◌, get_or, ok, err, trap, ◌>>=◌, ◌>>◌, or_err, fail_if, host,
}
use vortex_contracts.Base.Checked.{u32_bound, i128_bound, add_u32, add_i128}
use vortex_contracts.Base.Int.{ℤ, pos, negsuc, ltb_ℤ, leb_ℤ}
use vortex_contracts.Base.Dict.{Dict, get, put}
use vortex_contracts.Governor.Power.{
  VoteType, against, for, abstain, ProposalState, Proposal, GovernorError, GovernorConfig, Governor,
  Env, Call, load_config, voting_power, max_list_limit,
}

abbrev pub load_proposal : ℕ → Governor → Call Proposal
load_proposal id s = or_err (get s.proposals id) GovernorError.proposal_not_found

abbrev pub save_proposal : ℕ → Proposal → Governor → Governor
save_proposal id p s = record s { proposals = put s.proposals id p }

-- `a.checked_add(b)` on `u32`
abbrev pub checked_add_u32 : ℕ → ℕ → Option ℕ
checked_add_u32 a b = if ltb (a + b) u32_bound then some (a + b) else none

unfoldable pub deadline_of : ℕ → GovernorConfig → Call ℕ
deadline_of snapshot c =
    or_err (checked_add_u32 snapshot c.voting_delay) GovernorError.deadline_overflow >>= λ v.
    or_err (checked_add_u32 v c.voting_period) GovernorError.deadline_overflow

unfoldable pub propose_checks : Env → ℕ → ℕ → Governor → Call GovernorConfig
propose_checks e proposer target s = do
  host (e.at.auth proposer)
  config ← load_config s
  fail_if (target == e.at.this) GovernorError.self_target_forbidden
  power ← voting_power config.registry proposer e.at.now s
  fail_if (ltb_ℤ power config.proposal_threshold) GovernorError.below_proposal_threshold
  ok config

abbrev pub new_proposal : ℕ → ℕ → ℕ → ℕ → ℕ → ℕ → Proposal
new_proposal proposer snapshot deadline target function calldata = record {
  proposer = proposer;
  snapshot = snapshot;
  deadline = deadline;
  eta = 0;
  for_votes = 0;
  against_votes = 0;
  abstain_votes = 0;
  canceled = false;
  executed = false;
  target = target;
  function = function;
  calldata = calldata;
}

unfoldable pub propose : Env → ℕ → ℕ → ℕ → ℕ → Governor → Call (ℕ × Governor)
unfolding propose_checks deadline_of
propose e proposer target function calldata s = do
  config ← propose_checks e proposer target s
  let id = get_or s.count 0
  deadline ← deadline_of e.at.now config
  next ← add_u32 id 1
  let p = new_proposal proposer e.at.now deadline target function calldata
  ok (id, record (save_proposal id p s) { count = some next })

unfoldable pub cancel : Env → ℕ → ℕ → Governor → Call Governor
cancel e caller id s = do
  host (e.at.auth caller)
  config ← load_config s
  p ← load_proposal id s
  fail_if p.executed GovernorError.already_executed
  fail_if p.canceled GovernorError.proposal_canceled
  start ← add_u32 p.snapshot config.voting_delay
  fail_if
      (not (caller == config.timelock) && not (caller == p.proposer && not (leb start e.at.now)))
      GovernorError.not_authorized
  ok (save_proposal id (record p { canceled = true }) s)

abbrev pub has_voted : ℕ → ℕ → Governor → Bool
has_voted id voter s = elim (get (s.votes id) voter) [ none ↦ false | some _ ↦ true ]

abbrev pub positive_power : ℤ → Call ℕ
positive_power (pos (suc n)) = ok (suc n)
positive_power (pos zero) = err GovernorError.no_voting_power
positive_power (negsuc n) = err GovernorError.no_voting_power

unfoldable pub vote_checks : Env → ℕ → ℕ → Governor → Call (Proposal × ℕ)
vote_checks e voter id s = do
  host (e.at.auth voter)
  config ← load_config s
  p ← load_proposal id s
  fail_if p.canceled GovernorError.proposal_canceled
  start ← or_err (checked_add_u32 p.snapshot config.voting_delay) GovernorError.deadline_overflow
  fail_if (ltb e.at.now start) GovernorError.not_active
  fail_if (ltb p.deadline e.at.now) GovernorError.voting_closed
  fail_if (has_voted id voter s) GovernorError.already_voted
  power ← voting_power config.registry voter p.snapshot s
  n ← positive_power power
  ok (p, n)

abbrev pub checked_add_i128 : ℕ → ℕ → Call ℕ
checked_add_i128 a b =
    if ltb (a + b) i128_bound then ok (a + b) else err GovernorError.vote_tally_overflow

unfoldable pub add_vote : VoteType → ℕ → Proposal → Call Proposal
add_vote for n p = checked_add_i128 p.for_votes n >>= λ v. ok (record p { for_votes = v })
add_vote against n p =
    checked_add_i128 p.against_votes n >>= λ v. ok (record p { against_votes = v })
add_vote abstain n p =
    checked_add_i128 p.abstain_votes n >>= λ v. ok (record p { abstain_votes = v })

unfoldable pub cast_vote : Env → ℕ → ℕ → VoteType → Governor → Call (ℕ × Governor)
unfolding vote_checks add_vote
cast_vote e voter id support s = do
  (p, n) ← vote_checks e voter id s
  p' ← add_vote support n p
  ok (
    n,
    record s {
      proposals = put s.proposals id p';
      votes = λ i. if i == id then put (s.votes i) voter n else s.votes i;
    },
  )

-- The state of a proposal at a ledger; the sums are of `u32` and of `i128`.
unfoldable pub state_of : ℕ → GovernorConfig → Proposal → Call ProposalState
state_of now config p =
    if p.canceled
    then ok ProposalState.canceled
    else (if p.executed then ok ProposalState.executed else (do
      start ← add_u32 p.snapshot config.voting_delay
      if ltb now start
          then ok ProposalState.pending
          else (if leb now p.deadline
              then ok ProposalState.active
              else (if not (p.eta == 0) then ok ProposalState.queued else (do
                some_votes ← add_i128 p.for_votes p.against_votes
                total ← add_i128 some_votes p.abstain_votes
                ok (
                    if ltb p.against_votes p.for_votes && leb_ℤ config.quorum (pos total)
                    then ProposalState.succeeded
                    else ProposalState.defeated))))))

abbrev pub is_succeeded : ProposalState → Bool
is_succeeded ProposalState.succeeded = true
is_succeeded _ = false

unfoldable pub queue : Env → ℕ → Governor → Call Governor
unfolding state_of
queue e id s = do
  config ← load_config s
  p ← load_proposal id s
  state ← state_of e.at.now config p
  fail_if (not (is_succeeded state)) GovernorError.proposal_not_succeeded
  eta ← add_u32 e.at.now config.voting_delay
  host (e.schedule_ok config.timelock p.target p.function eta)
  ok (save_proposal id (record p { eta = eta }) s)

unfoldable pub execute : Env → ℕ → Governor → Call Governor
execute e id s = do
  config ← load_config s
  p ← load_proposal id s
  fail_if p.executed GovernorError.already_executed
  fail_if (p.eta == 0) GovernorError.proposal_not_queued
  fail_if (ltb e.at.now p.eta) GovernorError.timelock_not_ready
  host (e.execute_ok config.timelock p.target p.function p.calldata)
  ok (save_proposal id (record p { executed = true }) s)

unfoldable pub state : Env → ℕ → Governor → Call ProposalState
unfolding state_of
state e id s = do config ← load_config s; p ← load_proposal id s; state_of e.at.now config p

abbrev pub get_proposal_count : Governor → ℕ
get_proposal_count s = get_or s.count 0

-- The stored proposals among `n` identifiers.
unfoldable pub proposals_from : ℕ → ℕ → Dict Proposal → List Proposal
proposals_from zero id d = []
proposals_from (suc n) id d =
    let rest = proposals_from n (id + 1) d in elim (get d id) [ none ↦ rest | some p ↦ p ∷ rest ]

-- The subtraction is of `u32`.
unfoldable pub list_proposals : ℕ → ℕ → Governor → Call (List Proposal)
unfolding proposals_from
list_proposals start limit s =
    let count = get_proposal_count s in
    let capped = min limit max_list_limit in
    if leb count start || limit == 0
    then ok []
    else (if ltb count capped
        then trap
        else (let end = if ltb (count - capped) start then count else start + capped in
            ok (proposals_from (end - start) start s.proposals)))
