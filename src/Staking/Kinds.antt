-- ===== src/Staking/Kinds.antt =====
-- solver_registry: the kinds of change that a step is.
use vortex_contracts.Base.{
  ℕ, ◌+◌, ◌-◌, ◌≡◌, ◌≢◌, ◌≤◌, ◌<◌, none, some, List, ◌∷◌, arith, ok, inl, inr, ◌⊎◌, Option-cases,
  Call-cases, ◌==◌, if◌then◌else◌,
}
use vortex_contracts.Base.Int.{ℤ}
use vortex_contracts.Base.Dict.{get, put, remove}
use vortex_contracts.Base.Lists.{set}
use vortex_contracts.Base.Token.{Host}
use vortex_contracts.Staking.State.{TierThreshold, SolverRecord, Staking}
use vortex_contracts.Staking.Admin.{
  require_admin, default_thresholds, tunable_bond, check_neighbours, set_tier_threshold,
}
use vortex_contracts.Staking.Stakes.{
  solver_count, open_obligations, fill, failure, slashing, require_writer, store_open_obligations,
  lock_obligation, release_obligation,
}
use vortex_contracts.Staking.Changes.{
  Administered, set_writer-Administered, propose_admin-Administered, accept_admin-Administered,
  cancel_admin_transfer-Administered, propose_writer-Administered, execute_writer-Administered,
  cancel_writer-Administered, initialize_lem,
}
use vortex_contracts.Staking.Outcomes.{moved, register_lem, stake_lem, unstake_lem, deregister_lem}
use vortex_contracts.Staking.Writes.{Written, record_fill-Written, record_failure-Written}
use vortex_contracts.Staking.Slashes.{slash-Written}
use vortex_contracts.Staking.Runs.{
  Step, admin_accepted, admin_cancelled, admin_proposed, deregistered, failure_recorded,
  fill_recorded, initialized, locked, registered, released, staked, threshold_set, unstaked,
  was_slashed, writer_cancelled, writer_executed, writer_proposed, writer_set,
}

-- A change of the thresholds.
pub record Tuned (s s' : Staking) : Type 0 where
  pub rows : List TierThreshold
  pub tier : ℕ
  pub row : TierThreshold
  pub in_force : s.thresholds ≡ some rows
  pub inner : 0 < tier
  pub fits : tier < 5
  pub above : check_neighbours tier row.min_bond row.min_score_bps rows ≡ ok tt
  pub after : s' ≡ record s { thresholds = some (set rows tier row) }

set_tier_threshold-Tuned :
    (e : Host) (tier : ℕ) (min_bond : ℤ) (score : ℕ) (s : Staking) {s' : Staking}
    → set_tier_threshold e tier min_bond score s ≡ ok s'
    → Tuned s s'
unfolding set_tier_threshold
set_tier_threshold-Tuned e tier min_bond score s h = elim (Call-cases (require_admin e s)) [
  | inr f ↦ absurd (ground arith)
  | inl (o, a) ↦ elim (Call-cases (tunable_bond min_bond)) [
    | inr f ↦ absurd (ground arith)
    | inl (bond, b) ↦ elim (Option-cases s.thresholds) [
      | inl p ↦ absurd (ground arith)
      | inr (rows, p) ↦ elim (Call-cases (check_neighbours tier bond score rows)) [
        | inr f ↦ absurd (ground arith)
        | inl (tt, c) ↦ record {
          rows = rows;
          tier = tier;
          row = record { min_bond = bond; min_score_bps = score };
          in_force = p;
          inner = ground arith;
          fits = ground arith;
          above = c;
          after = ground arith;
        }
      ]
    ]
  ]
]

-- An obligation that is there already, or not there, changes nothing.
lock_lem :
    (e : Host) (caller solver intent n : ℕ) (s : Staking) {s' : Staking}
    → lock_obligation e caller solver intent s ≡ ok (n, s')
    → (s' ≡ s)
      ⊎ ((get (s.obligations solver) intent ≡ none)
          × (s' ≡ record s {
            obligations =
                λ x. if x == solver then put (s.obligations x) intent tt else s.obligations x;
            open_counts = put s.open_counts solver (open_obligations solver s + 1);
          }))
unfolding lock_obligation
lock_lem e caller solver intent n s h = elim (Call-cases (require_writer e caller s)) [
  | inr f ↦ absurd (ground arith)
  | inl (o, a) ↦ elim (Option-cases (get s.solvers solver)) [
    | inl p ↦ absurd (ground arith)
    | inr (r, p) ↦ elim (Option-cases (get (s.obligations solver) intent)) [
      | inl q ↦ inr (q, ground arith)
      | inr (tt, q) ↦ inl (ground arith)
    ]
  ]
]

release_lem :
    (e : Host) (caller solver intent n : ℕ) (s : Staking) {s' : Staking}
    → release_obligation e caller solver intent s ≡ ok (n, s')
    → (s' ≡ s)
      ⊎ ((get (s.obligations solver) intent ≡ some tt)
          × (s'
              ≡ store_open_obligations solver (open_obligations solver s - 1) (record s {
                obligations =
                    λ x. if x == solver then remove (s.obligations x) intent else s.obligations x;
              })))
unfolding release_obligation
release_lem e caller solver intent n s h = elim (Call-cases (require_writer e caller s)) [
  | inr f ↦ absurd (ground arith)
  | inl (o, a) ↦ elim (Option-cases (get (s.obligations solver) intent)) [
    | inl q ↦ inl (ground arith)
    | inr (tt, q) ↦ inr (q, ground arith)
  ]
]

-- What a step is.
pub data Change (this : ℕ) (s s' : Staking) : Type 0 where
  configured :
      (admin token recipient : ℕ)
      → s.admin ≡ none
      → s' ≡ record s {
        admin = some admin;
        bond_token = some token;
        fee_recipient = some recipient;
        total_solvers = some 0;
        thresholds = some default_thresholds;
      }
      → Change this s s'
  administered : Administered s s' → Change this s s'
  tuned : Tuned s s' → Change this s s'
  joined :
      (token solver : ℕ) (r : SolverRecord)
      → s.bond_token ≡ some token
      → get s.solvers solver ≡ none
      → solver ≢ this
      → s' ≡ record s {
        solvers = put s.solvers solver r;
        total_solvers = some (solver_count s + 1);
        calls = moved token solver this r.bond_amount ∷ s.calls;
      }
      → Change this s s'
  raised :
      (token n solver : ℕ) (r : SolverRecord)
      → s.bond_token ≡ some token
      → get s.solvers solver ≡ some r
      → solver ≢ this
      → s' ≡ record s {
        solvers = put s.solvers solver (record r { bond_amount = r.bond_amount + n });
        calls = moved token solver this n ∷ s.calls;
      }
      → Change this s s'
  lowered :
      (token n solver : ℕ) (r : SolverRecord)
      → s.bond_token ≡ some token
      → get s.solvers solver ≡ some r
      → n ≤ r.bond_amount
      → s' ≡ record s {
        solvers = put s.solvers solver (record r { bond_amount = r.bond_amount - n });
        calls = moved token this solver n ∷ s.calls;
      }
      → Change this s s'
  left :
      (solver : ℕ) (r : SolverRecord)
      → get s.solvers solver ≡ some r
      → s' ≡ record s {
        solvers = remove s.solvers solver;
        total_solvers = some (solver_count s - 1);
        calls = s'.calls;
      }
      → ((r.bond_amount ≡ 0) × (s'.calls ≡ s.calls))
        ⊎ ((token : ℕ) × (s.bond_token ≡ some token)
            × (s'.calls ≡ moved token this solver r.bond_amount ∷ s.calls))
      → Change this s s'
  written :
      (action intent solver : ℕ) (e : Host)
      → e.this ≡ this
      → Written action intent solver e s s'
      → Change this s s'
  nothing_done : s' ≡ s → Change this s s'
  taken :
      (solver intent : ℕ)
      → get (s.obligations solver) intent ≡ none
      → s' ≡ record s {
        obligations = λ x. if x == solver then put (s.obligations x) intent tt else s.obligations x;
        open_counts = put s.open_counts solver (open_obligations solver s + 1);
      }
      → Change this s s'
  given_up :
      (solver intent : ℕ)
      → get (s.obligations solver) intent ≡ some tt
      → s'
        ≡ store_open_obligations solver (open_obligations solver s - 1) (record s {
          obligations =
              λ x. if x == solver then remove (s.obligations x) intent else s.obligations x;
        })
      → Change this s s'

pub Step-Change : {this : ℕ} {s s' : Staking} → Step this s s' → Change this s s'
Step-Change {this} {s} {s'} (initialized e admin token recipient h) =
    let (p, q) = initialize_lem s s' e admin token recipient h in
    configured admin token recipient p q
Step-Change {this} {s} {s'} (writer_set e w h) = administered (set_writer-Administered s s' e w h)
Step-Change {this} {s} {s'} (admin_proposed e w h) =
    administered (propose_admin-Administered s s' e w h)
Step-Change {this} {s} {s'} (admin_accepted e w h) =
    administered (accept_admin-Administered s s' e w h)
Step-Change {this} {s} {s'} (admin_cancelled e h) =
    administered (cancel_admin_transfer-Administered s s' e h)
Step-Change {this} {s} {s'} (writer_proposed e w h) =
    administered (propose_writer-Administered s s' e w h)
Step-Change {this} {s} {s'} (writer_executed e w h) =
    administered (execute_writer-Administered s s' e w h)
Step-Change {this} {s} {s'} (writer_cancelled e h) =
    administered (cancel_writer-Administered s s' e h)
Step-Change {this} {s} {s'} (threshold_set e tier bond score h) =
    tuned (set_tier_threshold-Tuned e tier bond score s h)
Step-Change {this} {s} {s'} (registered e solver bond here_ other h) =
    let (token, r, t, p, q) = register_lem s e solver bond h in
    joined token solver r t p other (cc (q, here_))
Step-Change {this} {s} {s'} (staked e solver amount here_ other h) =
    let (token, n, r, t, p, q) = stake_lem s e solver amount h in
    raised token n solver r t p other (cc (q, here_))
Step-Change {this} {s} {s'} (unstaked e solver amount here_ h) =
    let (token, n, r, t, p, l, z, q) = unstake_lem s e solver amount h in
    lowered token n solver r t p l (cc (q, here_))
Step-Change {this} {s} {s'} (deregistered e solver here_ h) =
    let (r, p, z, q, c) = deregister_lem s e solver h in
    left solver r p q
      (elim c [ inl (b, k) ↦ inl (b, k) | inr (token, t, k) ↦ inr (token, t, cc (k, here_)) ])
Step-Change {this} {s} {s'} (fill_recorded e caller solver intent amount here_ h) =
    written fill intent solver e here_ (record_fill-Written e caller solver intent s amount h)
Step-Change {this} {s} {s'} (failure_recorded e caller solver intent here_ h) =
    written failure intent solver e here_ (record_failure-Written e caller solver intent s h)
Step-Change {this} {s} {s'} (was_slashed e caller solver intent amount new_tier here_ h) =
    written slashing intent solver e here_ (slash-Written e caller solver intent s h)
Step-Change {this} {s} {s'} (locked e caller solver intent n h) =
    elim (lock_lem e caller solver intent n s h) [
      | inl p ↦ nothing_done p
      | inr (f, p) ↦ taken solver intent f p
    ]
Step-Change {this} {s} {s'} (released e caller solver intent n h) =
    elim (release_lem e caller solver intent n s h) [
      | inl p ↦ nothing_done p
      | inr (f, p) ↦ given_up solver intent f p
    ]
