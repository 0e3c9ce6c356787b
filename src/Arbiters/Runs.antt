-- ===== src/Arbiters/Runs.antt =====
-- The panel as a step relation, and what each operation has found and written.
use vortex_contracts.Base.{
  ℕ, ◌+◌, ◌≡◌, ◌≢◌, ◌⊎◌, ◌<◌, true, false, Option, none, some, List, [], ◌∷◌, arith, ok, inl, inr,
  Call-cases, Bool-cases, Option-cases, ◌==◌, length, min,
}
use vortex_contracts.Base.Int.{ℤ}
use vortex_contracts.Base.Dict.{get, put, remove}
use vortex_contracts.Arbiters.State.{
  DisputeResolution, ArbiterRecord, Round, Panel, Env, initialize, register_arbiter,
  deregister_arbiter, vote_window,
}
use vortex_contracts.Arbiters.Rounds.{
  open_vote, eligible_of, draw_panel, scaled_threshold, vote, vote_checks, elem, has_voted, tally,
  tally_checks, outcome_of, settle, release_all, redistribute, report, has_round, Release,
}
use vortex_contracts.Arbiters.Success.{Kept}

-- A run of the panel at the address `this`; the panel registers itself as no arbiter.
pub data Step (this : ℕ) (s s' : Panel) : Type 0 where
  initialized :
      (admin settlement bond_token : ℕ) (bond_amount : ℤ) (panel_size threshold : ℕ)
      → initialize admin settlement bond_token bond_amount panel_size threshold s ≡ ok s'
      → Step this s s'
  registered :
      (e : Env) (arbiter : ℕ)
      → e.at.this ≡ this
      → arbiter ≢ this
      → register_arbiter e arbiter s ≡ ok s'
      → Step this s s'
  deregistered :
      (e : Env) (arbiter : ℕ)
      → e.at.this ≡ this
      → deregister_arbiter e arbiter s ≡ ok s'
      → Step this s s'
  opened :
      (e : Env) (intent : ℕ) (panel : List ℕ)
      → open_vote e intent s ≡ ok (panel, s')
      → Step this s s'
  voted :
      (e : Env) (arbiter intent : ℕ) (v : DisputeResolution)
      → vote e arbiter intent v s ≡ ok s'
      → Step this s s'
  tallied :
      (e : Env) (intent : ℕ) (o : Option DisputeResolution)
      → tally e intent s ≡ ok (o, s')
      → Step this s s'

pub data Reach (this : ℕ) (s : Panel) : Panel → Type 0 where
  here : Reach this s s
  next : {t u : Panel} → Reach this s t → Step this t u → Reach this s u

-- A round as it is stored at its opening.
abbrev pub new_round : List ℕ → ℕ → ℕ → Round
new_round panel threshold now = record {
  panel = panel;
  threshold = threshold;
  opened_at = now;
  votes = [];
  settled = false;
}

pub report_lem :
    (e : Env) (intent : ℕ) (o : Option DisputeResolution) (u : Panel)
    {o' : Option DisputeResolution} {s' : Panel}
    → report e intent o u ≡ ok (o', s')
    → (o' ≡ o) × Kept u s' × (s'.records ≡ u.records)
unfolding report
report_lem e intent none u h = (
  ground arith,
  record {
    same_admin = ground arith;
    same_token = ground arith;
    same_settlement = ground arith;
    same_rounds = ground arith;
    same_calls = ground arith;
    keys = λ k. ground arith;
  },
  ground arith,
)
report_lem e intent (some o) u h = (
  ground arith,
  record {
    same_admin = ground arith;
    same_token = ground arith;
    same_settlement = ground arith;
    same_rounds = ground arith;
    same_calls = ground arith;
    keys = λ k. ground arith;
  },
  ground arith,
)

module _ (s : Panel) where
  pub initialize_lem :
      (admin settlement bond_token : ℕ) (bond_amount : ℤ) (panel_size threshold : ℕ) {s' : Panel}
      → initialize admin settlement bond_token bond_amount panel_size threshold s ≡ ok s'
      → (s.admin ≡ none)
        × (s'.admin ≡ some admin)
        × (s'.bond_token ≡ some bond_token)
        × (s'.records ≡ s.records)
        × (s'.rounds ≡ s.rounds)
        × (s'.calls ≡ s.calls)
  unfolding initialize
  initialize_lem admin settlement bond_token bond_amount panel_size threshold h =
      elim (Option-cases s.admin) [
        | inr (a, p) ↦ absurd (ground arith)
        | inl p ↦ (p, ground arith, ground arith, ground arith, ground arith, ground arith)
      ]

  pub register_lem :
      (e : Env) (arbiter : ℕ) {s' : Panel}
      → register_arbiter e arbiter s ≡ ok s'
      → (bond token : ℕ) × (s.bond_token ≡ some token)
        × (get s.records arbiter ≡ none)
        × (s'.records ≡ put s.records arbiter (record { bond = bond; open_votes = 0 }))
        × (s'.calls
            ≡ record { token = token; from = arbiter; to = e.at.this; amount = bond } ∷ s.calls)
        × (s'.rounds ≡ s.rounds)
        × (s'.bond_token ≡ s.bond_token)
        × (s'.admin ≡ s.admin)
  unfolding register_arbiter
  register_lem e arbiter h = elim (Option-cases s.bond_amount) [
    | inl p ↦ absurd (ground arith)
    | inr (bond, p) ↦ elim (Option-cases s.bond_token) [
      | inl q ↦ absurd (ground arith)
      | inr (token, q) ↦ (
        bond,
        token,
        q,
        ground arith,
        ground arith,
        ground arith,
        ground arith,
        ground arith,
        ground arith,
      )
    ]
  ]

  pub deregister_lem :
      (e : Env) (arbiter : ℕ) {s' : Panel}
      → deregister_arbiter e arbiter s ≡ ok s'
      → (rec : ArbiterRecord) × (get s.records arbiter ≡ some rec)
        × (rec.open_votes ≡ 0)
        × (s'.records ≡ remove s.records arbiter)
        × (s'.rounds ≡ s.rounds)
        × (s'.bond_token ≡ s.bond_token)
        × (s'.admin ≡ s.admin)
  unfolding deregister_arbiter
  deregister_lem e arbiter h = elim (Option-cases (get s.records arbiter)) [
    | inl p ↦ absurd (ground arith)
    | inr (rec, p) ↦ elim (Option-cases s.bond_token) [
      | inl q ↦ (rec, p, ground arith, ground arith, ground arith, ground arith, ground arith)
      | inr (token, q) ↦
          (rec, p, ground arith, ground arith, ground arith, ground arith, ground arith)
    ]
  ]

  pub deregister_pays :
      (e : Env) (arbiter : ℕ) (rec : ArbiterRecord) {s' : Panel}
      → deregister_arbiter e arbiter s ≡ ok s'
      → get s.records arbiter ≡ some rec
      → ((rec.bond ≡ 0) × (s'.calls ≡ s.calls))
        ⊎ ((token : ℕ) × (s.bond_token ≡ some token)
            × (s'.calls
                ≡ record { token = token; from = e.at.this; to = arbiter; amount = rec.bond }
                  ∷ s.calls))
  unfolding deregister_arbiter
  deregister_pays e arbiter rec h p = elim (Option-cases s.bond_token) [
    | inl q ↦ inl (ground arith, ground arith)
    | inr (token, q) ↦ elim (Bool-cases (rec.bond == 0)) [
      | inl r ↦ inl (ground arith, ground arith)
      | inr r ↦ inr (token, q, ground arith)
    ]
  ]

  pub vote_lem :
      (e : Env) (arbiter intent : ℕ) (v : DisputeResolution) {s' : Panel}
      → vote e arbiter intent v s ≡ ok s'
      → (r : Round) × (get s.rounds intent ≡ some r)
        × (r.settled ≡ false)
        × (e.at.now < r.opened_at + vote_window)
        × (elem arbiter r.panel ≡ true)
        × (has_voted arbiter r ≡ false)
        × (e.at.auth arbiter ≡ true)
        × (s' ≡ record s {
          rounds = put s.rounds intent (record r { votes = put r.votes arbiter v });
        })
  unfolding vote vote_checks
  vote_lem e arbiter intent v h = elim (Option-cases (get s.rounds intent)) [
    | inl p ↦ absurd (ground arith)
    | inr (r, p) ↦
        (r, p, ground arith, ground arith, ground arith, ground arith, ground arith, ground arith)
  ]

  pub tally_checks_lem :
      (e : Env) (intent : ℕ) {r : Round}
      → tally_checks e intent s ≡ ok r
      → (get s.rounds intent ≡ some r) × (r.settled ≡ false)
  unfolding tally_checks
  tally_checks_lem e intent h = elim (Option-cases (get s.rounds intent)) [
    | inl p ↦ absurd (ground arith)
    | inr (x, p) ↦ elim (Option-cases (outcome_of x)) [
      | inl q ↦ ground arith
      | inr (o, q) ↦ ground arith
    ]
  ]

  pub tally_lem :
      (e : Env) (intent : ℕ) {o : Option DisputeResolution} {s' : Panel}
      → tally e intent s ≡ ok (o, s')
      → (r : Round) × (x : Release) × (u : Panel) × (tally_checks e intent s ≡ ok r)
        × (release_all
              (outcome_of r)
              r.votes
              r.panel
              (record { winners = []; slashed_total = 0; after = settle intent r s })
            ≡ ok x)
        × (redistribute x ≡ ok u)
        × (report e intent (outcome_of r) u ≡ ok (o, s'))
  unfolding tally
  tally_lem e intent h = elim (Call-cases (tally_checks e intent s)) [
    | inr f ↦ absurd (ground arith)
    | inl (r, p) ↦
        let start : Release = record {
          winners = [];
          slashed_total = 0;
          after = settle intent r s;
        } in
        elim (Call-cases (release_all (outcome_of r) r.votes r.panel start)) [
          | inr f ↦ absurd (ground arith)
          | inl (x, q) ↦ elim (Call-cases (redistribute x)) [
            | inr f ↦ absurd (ground arith)
            | inl (u, w) ↦ (r, x, u, p, q, w, ground arith)
          ]
        ]
  ]

  open_vote_drawn :
      (e : Env) (intent : ℕ) (parties : ℕ × ℕ) (b : ℕ) (l : List ℕ) (n m : ℕ) {panel : List ℕ}
      {s' : Panel}
      → e.dispute_parties intent ≡ some parties
      → s.bond_amount ≡ some b
      → eligible_of parties.0 parties.1 b s s.arbiters ≡ ok l
      → s.panel_size ≡ some n
      → s.threshold ≡ some m
      → open_vote e intent s ≡ ok (panel, s')
      → (n m t : ℕ) × (eligible : List ℕ) × (u : Panel) × (has_round intent s ≡ false)
        × (s.panel_size ≡ some n)
        × (s.threshold ≡ some m)
        × (0 < length eligible)
        × (draw_panel e intent (min n (length eligible)) 0 eligible s ≡ ok (panel, u))
        × (scaled_threshold m (min n (length eligible)) n ≡ ok t)
        × (s' ≡ record u { rounds = put u.rounds intent (new_round panel t e.at.now) })
  unfolding open_vote
  open_vote_drawn e intent parties b l n m p q a c d h =
      elim (Call-cases (draw_panel e intent (min n (length l)) 0 l s)) [
        | inr f ↦ absurd (ground arith)
        | inl (x, w) ↦ elim (Call-cases (scaled_threshold m (min n (length l)) n)) [
          | inr f ↦ absurd (ground arith)
          | inl (t, z) ↦
              (n, m, t, l, x.1, ground arith, c, d, ground arith, ground arith, z, ground arith)
        ]
      ]

  pub open_vote_lem :
      (e : Env) (intent : ℕ) {panel : List ℕ} {s' : Panel}
      → open_vote e intent s ≡ ok (panel, s')
      → (n m t : ℕ) × (eligible : List ℕ) × (u : Panel) × (has_round intent s ≡ false)
        × (s.panel_size ≡ some n)
        × (s.threshold ≡ some m)
        × (0 < length eligible)
        × (draw_panel e intent (min n (length eligible)) 0 eligible s ≡ ok (panel, u))
        × (scaled_threshold m (min n (length eligible)) n ≡ ok t)
        × (s' ≡ record u { rounds = put u.rounds intent (new_round panel t e.at.now) })
  unfolding open_vote
  open_vote_lem e intent h = elim (Option-cases (e.dispute_parties intent)) [
    | inl p ↦ absurd (ground arith)
    | inr (parties, p) ↦ elim (Option-cases s.bond_amount) [
      | inl q ↦ absurd (ground arith)
      | inr (b, q) ↦ elim (Call-cases (eligible_of parties.0 parties.1 b s s.arbiters)) [
        | inr f ↦ absurd (ground arith)
        | inl (l, a) ↦ elim (Option-cases s.panel_size) [
          | inl c ↦ absurd (ground arith)
          | inr (n, c) ↦ elim (Option-cases s.threshold) [
            | inl d ↦ absurd (ground arith)
            | inr (m, d) ↦ open_vote_drawn e intent parties b l n m p q a c d h
          ]
        ]
      ]
    ]
  ]
