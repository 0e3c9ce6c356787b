-- ===== src/Governor/Power.antt =====
-- governor/src/lib.rs: the configuration, the checkpoints of voting power, and their search. Time-to-live
-- and events are left out. The ledger's sequence number is the time of the host.
use vortex_contracts.Base.{
  ℕ, zero, suc, ◌+◌, ◌-◌, ◌/◌, Bool, true, false, not, ◌||◌, Option, none, some, List, [], ◌∷◌,
  ◌++◌, ltb, leb, ◌==◌, if◌then◌else◌, get_or, get_elem?, length, Result, ok, ◌>>=◌, ◌>>◌, or_err,
  unwrap, fail_if, host,
}
use vortex_contracts.Base.Int.{ℤ, pos, ltb_ℤ}
use vortex_contracts.Base.Dict.{Dict, get, put}
use vortex_contracts.Base.Lists.{drop}
use vortex_contracts.Base.Token.{Host}

abbrev pub max_checkpoints : ℕ
max_checkpoints = 64

abbrev pub max_list_limit : ℕ
max_list_limit = 50

abbrev pub max_voting : ℕ
max_voting = 1_000_000

-- `i128::MAX / 4`
abbrev pub max_tokens : ℕ
max_tokens = 42535295865117307932921825928971026431

pub record Checkpoint : Type 0 where
  pub ledger : ℕ
  pub power : ℤ

pub data VoteType : Type 0 where
  against for abstain : VoteType

pub data ProposalState : Type 0 where
  pending active defeated succeeded queued executed canceled : ProposalState

pub record Proposal : Type 0 where
  pub proposer : ℕ
  pub snapshot : ℕ
  pub deadline : ℕ
  pub eta : ℕ
  pub for_votes : ℕ
  pub against_votes : ℕ
  pub abstain_votes : ℕ
  pub canceled : Bool
  pub executed : Bool
  pub target : ℕ
  pub function : ℕ
  pub calldata : ℕ

pub data GovernorError : Type 0 where
  already_initialized not_initialized below_proposal_threshold proposal_not_found : GovernorError
  not_active voting_closed already_voted no_voting_power quorum_not_met : GovernorError
  proposal_not_succeeded proposal_not_queued timelock_not_ready already_executed : GovernorError
  proposal_canceled self_target_forbidden vote_tally_overflow deadline_overflow : GovernorError
  invalid_voting_delay invalid_voting_period invalid_proposal_threshold : GovernorError
  invalid_quorum unauthorized not_authorized : GovernorError

pub record GovernorConfig : Type 0 where
  pub registry : ℕ
  pub timelock : ℕ
  pub voting_delay : ℕ
  pub voting_period : ℕ
  pub proposal_threshold : ℤ
  pub quorum : ℤ

pub record Governor : Type 0 where
  pub config : Option GovernorConfig
  pub admin : Option ℕ
  pub count : Option ℕ
  pub proposals : Dict Proposal
  -- By proposal, and then by voter: the power of the vote.
  pub votes : ℕ → Dict ℕ
  -- By registry, and then by account.
  pub checkpoints : ℕ → Dict (List Checkpoint)

-- What a call reads from the host and the other contracts: who invoked it, the bonds of a registry,
-- and whether the timelock accepts a call for the target, the function and the time.
pub record Env : Type 0 where
  pub at : Host
  pub invoker : ℕ
  pub bond : ℕ → ℕ → ℤ
  pub schedule_ok : ℕ → ℕ → ℕ → ℕ → Bool
  pub execute_ok : ℕ → ℕ → ℕ → ℕ → Bool

abbrev pub Call : Type 0 → Type 0
Call A = Result GovernorError A

abbrev pub outside : ℤ → ℕ → Bool
outside z bound = ltb_ℤ z (pos 1) || ltb_ℤ (pos bound) z

unfoldable pub validate_config : GovernorConfig → Call (Unit {0})
validate_config c = do
  fail_if (ltb c.voting_delay 1 || ltb max_voting c.voting_delay) GovernorError.invalid_voting_delay
  fail_if (ltb c.voting_period 1 || ltb max_voting c.voting_period)
      GovernorError.invalid_voting_period
  fail_if (outside c.proposal_threshold max_tokens) GovernorError.invalid_proposal_threshold
  fail_if (outside c.quorum max_tokens) GovernorError.invalid_quorum

unfoldable pub initialize : Env → ℕ → GovernorConfig → Governor → Call Governor
unfolding validate_config
initialize e admin config s = do
  host (e.at.auth admin)
  fail_if (elim s.config [ none ↦ false | some _ ↦ true ]) GovernorError.already_initialized
  validate_config config
  ok (record s { config = some config; admin = some admin; count = some 0 })

unfoldable pub update_config : Env → GovernorConfig → Governor → Call Governor
unfolding validate_config
update_config e config s = do
  host (e.at.auth e.at.this)
  fail_if (not (e.invoker == e.at.this)) GovernorError.unauthorized
  validate_config config
  ok (record s { config = some config })

abbrev pub load_config : Governor → Call GovernorConfig
load_config s = or_err s.config GovernorError.not_initialized

abbrev pub checkpoints_of : ℕ → ℕ → Governor → List Checkpoint
checkpoints_of registry account s = get_or (get (s.checkpoints registry) account) []

-- The loop that removes the first one while there are too many drops those that are too many.
unfoldable pub appended : Checkpoint → List Checkpoint → List Checkpoint
appended c checkpoints = let all = checkpoints ++ c ∷ [] in drop (length all - max_checkpoints) all

unfoldable pub write_checkpoint : Env → ℕ → ℤ → Governor → Call Governor
unfolding appended
write_checkpoint e account power s = do
  config ← unwrap s.config
  let c : Checkpoint = record { ledger = e.at.now; power = power }
  let l = appended c (checkpoints_of config.registry account s)
  ok (record s {
    checkpoints =
        λ r. if r == config.registry then put (s.checkpoints r) account l else s.checkpoints r;
  })

unfoldable pub sync_power : Env → ℕ → Governor → Call (ℤ × Governor)
unfolding write_checkpoint
sync_power e account s = do
  host (e.at.auth account)
  config ← load_config s
  s' ← write_checkpoint e account (e.bond config.registry account) s
  ok (e.bond config.registry account, s')

-- The loop of `search`, on fuel: the position that it ends at.
unfoldable pub search_loop : ℕ → List Checkpoint → ℕ → ℕ → ℕ → Option ℕ
search_loop zero checkpoints ledger low high = none
search_loop (suc fuel) checkpoints ledger low high = elim (ltb low high) [
  | false ↦ some low
  | true ↦ elim (get_elem? checkpoints ((low + high) / 2)) [
    | none ↦ none
    | some c ↦ elim (leb c.ledger ledger) [
      | true ↦ search_loop fuel checkpoints ledger ((low + high) / 2 + 1) high
      | false ↦ search_loop fuel checkpoints ledger low ((low + high) / 2)
    ]
  ]
]

abbrev pub power_before : List Checkpoint → ℕ → Option ℤ
power_before checkpoints zero = some (pos 0)
power_before checkpoints (suc i) = elim (get_elem? checkpoints i) [
  | none ↦ none
  | some c ↦ some c.power
]

-- `none` is a read out of bounds, or fuel that has run out.
unfoldable pub search : List Checkpoint → ℕ → Option ℤ
unfolding search_loop
search checkpoints ledger =
    if length checkpoints == 0
    then some (pos 0)
    else (elim (search_loop (length checkpoints + 1) checkpoints ledger 0 (length checkpoints)) [
      | none ↦ none
      | some low ↦ power_before checkpoints low
    ])

unfoldable pub voting_power : ℕ → ℕ → ℕ → Governor → Call ℤ
unfolding search
voting_power registry account ledger s = unwrap (search (checkpoints_of registry account s) ledger)

-- The getter of the same name.
unfoldable pub get_voting_power : ℕ → ℕ → Governor → Call ℤ
unfolding voting_power
get_voting_power account ledger s = do
  config ← load_config s
  voting_power config.registry account ledger s
