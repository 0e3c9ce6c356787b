-- ===== src/Governor/Success.antt =====
-- What each operation of the governor has found and written when it succeeds.
use vortex_contracts.Base.{
  ℕ, zero, suc, ◌+◌, ◌≡◌, ◌≢◌, ◌≤◌, ◌<◌, refl, true, false, none, some, arith, ok, inl, inr,
  Call-cases, Option-cases, ◌==◌, if◌then◌else◌, get_or,
}
use vortex_contracts.Base.Int.{ℤ, pos, ◌≤ℤ◌}
use vortex_contracts.Base.Dict.{get, put}
use vortex_contracts.Governor.Power.{
  VoteType, against, for, abstain, Proposal, GovernorConfig, Governor, Env, initialize,
  validate_config, update_config, sync_power, write_checkpoint, checkpoints_of, appended,
  voting_power,
}
use vortex_contracts.Governor.Proposals.{
  propose, propose_checks, deadline_of, new_proposal, cancel, cast_vote, vote_checks,
  positive_power, add_vote, has_voted, queue, state_of, execute,
}

-- All the votes of a proposal.
abbrev pub all_votes : Proposal → ℕ
all_votes p = p.for_votes + p.against_votes + p.abstain_votes

-- What no vote changes.
pub record SameTerms (p p' : Proposal) : Type 0 where
  pub same_eta : p'.eta ≡ p.eta
  pub same_deadline : p'.deadline ≡ p.deadline
  pub same_executed : p'.executed ≡ p.executed
  pub same_snapshot : p'.snapshot ≡ p.snapshot

add_vote_lem :
    (v : VoteType) (n : ℕ) (p : Proposal) {p' : Proposal}
    → add_vote v n p ≡ ok p'
    → (all_votes p' ≡ all_votes p + n) × SameTerms p p'
unfolding add_vote
add_vote_lem for n p h = ground arith
add_vote_lem against n p h = ground arith
add_vote_lem abstain n p h = ground arith

module _ (e : Env) (s : Governor) where
  pub initialize_lem :
      (admin : ℕ) (config : GovernorConfig) {s' : Governor}
      → initialize e admin config s ≡ ok s'
      → (s.config ≡ none)
        × (s'.count ≡ some 0)
        × (s'.proposals ≡ s.proposals)
        × (s'.votes ≡ s.votes)
        × (s'.checkpoints ≡ s.checkpoints)
        × (s'.config ≡ some config)
  unfolding initialize
  initialize_lem admin config h = elim (Call-cases (validate_config config)) [
    | inr f ↦ absurd (ground arith)
    | inl (u, p) ↦ elim (Option-cases s.config) [
      | inr (c, q) ↦ absurd (ground arith)
      | inl q ↦ (q, ground arith, ground arith, ground arith, ground arith, ground arith)
    ]
  ]

  pub update_config_lem :
      (config : GovernorConfig) {s' : Governor}
      → update_config e config s ≡ ok s'
      → s' ≡ record s { config = some config }
  unfolding update_config
  update_config_lem config h = elim (Call-cases (validate_config config)) [
    | inr f ↦ absurd (ground arith)
    | inl (u, p) ↦ ground arith
  ]

  pub sync_power_lem :
      (account : ℕ) {n : ℤ} {s' : Governor}
      → sync_power e account s ≡ ok (n, s')
      → (config : GovernorConfig) × (s.config ≡ some config)
        × (n ≡ e.bond config.registry account)
        × (s' ≡ record s {
          checkpoints = λ r.
              if r == config.registry
              then put (s.checkpoints r) account (
                  appended
                    (record { ledger = e.at.now; power = n })
                    (checkpoints_of config.registry account s))
              else s.checkpoints r;
        })
  unfolding sync_power write_checkpoint
  sync_power_lem account h = elim (Option-cases s.config) [
    | inl p ↦ absurd (ground arith)
    | inr (c, p) ↦ (c, p, ground arith, ground arith)
  ]

  pub propose_lem :
      (proposer target function calldata : ℕ) {id : ℕ} {s' : Governor}
      → propose e proposer target function calldata s ≡ ok (id, s')
      → (config : GovernorConfig) × (deadline : ℕ) × (s.config ≡ some config)
        × (deadline ≡ e.at.now + config.voting_delay + config.voting_period)
        × (id ≡ get_or s.count 0)
        × (s'.proposals
            ≡ put s.proposals id (new_proposal proposer e.at.now deadline target function calldata))
        × (s'.count ≡ some (id + 1))
        × (s'.votes ≡ s.votes)
        × (s'.config ≡ s.config)
        × (s'.checkpoints ≡ s.checkpoints)
  unfolding propose deadline_of
  propose_lem proposer target function calldata h =
      elim (Call-cases (propose_checks e proposer target s)) [
        | inr f ↦ absurd (ground arith)
        | inl (c, p) ↦ (
          c,
          e.at.now + c.voting_delay + c.voting_period,
          propose_config proposer target p,
          refl,
          ground arith,
          ground arith,
          ground arith,
          ground arith,
          ground arith,
          ground arith,
        )
      ]
    where
      propose_config :
          (proposer target : ℕ) {c : GovernorConfig}
          → propose_checks e proposer target s ≡ ok c
          → s.config ≡ some c
      propose_config proposer target {c} p = elim (Option-cases s.config) [
        | inl q ↦ absurd (unfold propose_checks in ground (arith, p, q))
        | inr (k, q) ↦ elim (Call-cases (voting_power k.registry proposer e.at.now s)) [
          | inr f ↦ absurd (unfold propose_checks in ground (arith, p, q, f))
          | inl (v, w) ↦ unfold propose_checks in ground (arith, p, q, w)
        ]
      ]

  pub cancel_lem :
      (caller id : ℕ) {s' : Governor}
      → cancel e caller id s ≡ ok s'
      → (p : Proposal) × (get s.proposals id ≡ some p)
        × (p.executed ≡ false)
        × (p.canceled ≡ false)
        × (s' ≡ record s { proposals = put s.proposals id (record p { canceled = true }) })
  unfolding cancel
  cancel_lem caller id h = elim (Option-cases s.config) [
    | inl q ↦ absurd (ground arith)
    | inr (c, q) ↦ elim (Option-cases (get s.proposals id)) [
      | inl r ↦ absurd (ground arith)
      | inr (p, r) ↦ (p, r, ground arith, ground arith, ground arith)
    ]
  ]

  vote_checks_lem :
      (voter id : ℕ) {x : Proposal × ℕ}
      → vote_checks e voter id s ≡ ok x
      → (config : GovernorConfig) × (s.config ≡ some config)
        × (get s.proposals id ≡ some x.0)
        × (e.at.now ≤ x.0.deadline)
        × (x.0.snapshot + config.voting_delay ≤ e.at.now)
        × (x.0.canceled ≡ false)
        × (has_voted id voter s ≡ false)
        × (voting_power config.registry voter x.0.snapshot s ≡ ok (pos x.1))
  unfolding vote_checks
  vote_checks_lem voter id {x} h = elim (Option-cases s.config) [
    | inl q ↦ absurd (ground arith)
    | inr (c, q) ↦ elim (Option-cases (get s.proposals id)) [
      | inl r ↦ absurd (ground arith)
      | inr (p, r) ↦ elim (Call-cases (voting_power c.registry voter p.snapshot s)) [
        | inr f ↦ absurd (ground arith)
        | inl (v, w) ↦ elim (Call-cases (positive_power v)) [
          | inr f ↦ absurd (ground arith)
          | inl (n, z) ↦ (
            c,
            q,
            ground arith,
            ground arith,
            ground arith,
            ground arith,
            ground arith,
            ground (arith, positive v z),
          )
        ]
      ]
    ]
  ]
    where
      positive : (v : ℤ) {n : ℕ} → positive_power v ≡ ok n → v ≡ pos n
      positive (pos zero) z = absurd (ground (arith, z))
      positive (pos (suc n)) z = ground (arith, z)
      positive (ℤ.negsuc n) z = absurd (ground (arith, z))

  pub cast_vote_lem :
      (voter id : ℕ) (v : VoteType) {n : ℕ} {s' : Governor}
      → cast_vote e voter id v s ≡ ok (n, s')
      → (config : GovernorConfig) × (p p' : Proposal) × (s.config ≡ some config)
        × (get s.proposals id ≡ some p)
        × (e.at.now ≤ p.deadline)
        × (p.snapshot + config.voting_delay ≤ e.at.now)
        × (p.canceled ≡ false)
        × (has_voted id voter s ≡ false)
        × (voting_power config.registry voter p.snapshot s ≡ ok (pos n))
        × (all_votes p' ≡ all_votes p + n)
        × SameTerms p p'
        × (s' ≡ record s {
          proposals = put s.proposals id p';
          votes = λ i. if i == id then put (s.votes i) voter n else s.votes i;
        })
  unfolding cast_vote
  cast_vote_lem voter id v {n} {s'} h = elim (Call-cases (vote_checks e voter id s)) [
    | inr f ↦ absurd (ground arith)
    | inl (x, q) ↦ elim (Call-cases (add_vote v x.1 x.0)) [
      | inr f ↦ absurd (ground arith)
      | inl (p', r) ↦
          let (c, q₁, q₂, q₃, q₄, q₅, q₆, q₇) = vote_checks_lem voter id q in
          let (t, k) = add_vote_lem v x.1 x.0 r in
          let same : n ≡ x.1 = ground arith in
          (
            c,
            x.0,
            p',
            q₁,
            q₂,
            q₃,
            q₄,
            q₅,
            q₆,
            cc (q₇, same),
            ground (arith, t, same),
            k,
            ground arith,
          )
    ]
  ]

  pub queue_lem :
      (id : ℕ) {s' : Governor}
      → queue e id s ≡ ok s'
      → (config : GovernorConfig) × (p : Proposal) × (s.config ≡ some config)
        × (get s.proposals id ≡ some p)
        × (p.canceled ≡ false)
        × (p.executed ≡ false)
        × (p.deadline < e.at.now)
        × (p.against_votes < p.for_votes)
        × (config.quorum ≤ℤ pos (all_votes p))
        × (s' ≡ record s {
          proposals = put s.proposals id (record p { eta = e.at.now + config.voting_delay });
        })
  unfolding queue state_of
  queue_lem id h = elim (Option-cases s.config) [
    | inl q ↦ absurd (ground arith)
    | inr (c, q) ↦ elim (Option-cases (get s.proposals id)) [
      | inl r ↦ absurd (ground arith)
      | inr (p, r) ↦ (
        c,
        p,
        q,
        r,
        ground arith,
        ground arith,
        ground arith,
        ground arith,
        ground arith,
        ground arith,
      )
    ]
  ]

  pub execute_lem :
      (id : ℕ) {s' : Governor}
      → execute e id s ≡ ok s'
      → (config : GovernorConfig) × (p : Proposal) × (s.config ≡ some config)
        × (get s.proposals id ≡ some p)
        × (p.executed ≡ false)
        × (p.eta ≢ 0)
        × (p.eta ≤ e.at.now)
        × (e.execute_ok config.timelock p.target p.function p.calldata ≡ true)
        × (s' ≡ record s { proposals = put s.proposals id (record p { executed = true }) })
  unfolding execute
  execute_lem id h = elim (Option-cases s.config) [
    | inl q ↦ absurd (ground arith)
    | inr (c, q) ↦ elim (Option-cases (get s.proposals id)) [
      | inl r ↦ absurd (ground arith)
      | inr (p, r) ↦ (
        c,
        p,
        q,
        r,
        ground arith,
        λ z. ground (arith, z),
        ground arith,
        ground arith,
        ground arith,
      )
    ]
  ]
