-- ===== src/Governor/Runs.antt =====
-- The governor as a step relation over a ledger that does not go back.
use vortex_contracts.Base.{ℕ, ◌≡◌, ◌≤◌, true, arith, ok}
use vortex_contracts.Base.Int.{ℤ}
use vortex_contracts.Base.Dict.{put, get-put}
use vortex_contracts.Governor.Power.{
  VoteType, Proposal, GovernorConfig, Governor, Env, initialize, update_config, sync_power,
}
use vortex_contracts.Governor.Proposals.{propose, cancel, cast_vote, queue, execute}
use vortex_contracts.Governor.Success.{cancel_lem, execute_lem}

pub data Step (e : Env) (s s' : Governor) : Type 0 where
  initialized :
      (admin : ℕ) (config : GovernorConfig) → initialize e admin config s ≡ ok s' → Step e s s'
  updated : (config : GovernorConfig) → update_config e config s ≡ ok s' → Step e s s'
  synced : (account : ℕ) (n : ℤ) → sync_power e account s ≡ ok (n, s') → Step e s s'
  proposed :
      (proposer target function calldata id : ℕ)
      → propose e proposer target function calldata s ≡ ok (id, s')
      → Step e s s'
  canceled : (caller id : ℕ) → cancel e caller id s ≡ ok s' → Step e s s'
  voted : (voter id n : ℕ) (v : VoteType) → cast_vote e voter id v s ≡ ok (n, s') → Step e s s'
  queued : (id : ℕ) → queue e id s ≡ ok s' → Step e s s'
  executed : (id : ℕ) → execute e id s ≡ ok s' → Step e s s'

-- `Reach s t u`: a run from `s` to `u` whose last step was made at the ledger `t`.
pub data Reach (s : Governor) : ℕ → Governor → Type 0 where
  here : Reach s 0 s
  next :
      {t t' : ℕ} {u v : Governor} (e : Env)
      → Reach s t u
      → e.at.now ≡ t'
      → t ≤ t'
      → Step e u v
      → Reach s t' v

-- A proposal that is cancelled can still be executed: wherever its execution would have succeeded
-- before the cancellation, it succeeds after it.
pub cancel-execute :
    (e e' : Env) (caller id : ℕ) (s : Governor) {t u : Governor}
    → cancel e caller id s ≡ ok t
    → execute e' id s ≡ ok u
    → (v : Governor) × (execute e' id t ≡ ok v)
unfolding execute
cancel-execute e e' caller id s h k =
    let (p, f, _, _, w) = cancel_lem e s caller id h in
    let (c, p', q, f', x, z, b, y, _) = execute_lem e' s id k in
    let p₁ : Proposal = record p { canceled = true } in
    let gone = record s { proposals = put s.proposals id p₁ } in
    (
      record gone { proposals = put gone.proposals id (record p₁ { executed = true }) },
      ground (arith, w, q, f, f', x, z, b, y, get-put s.proposals id id p₁),
    )
