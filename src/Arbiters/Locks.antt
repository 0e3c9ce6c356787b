-- ===== src/Arbiters/Locks.antt =====
-- The locks: an arbiter has as many open votes as it has places in unsettled panels.
use vortex_contracts.Base.{
  ℕ, ◌-◌, ◌≡◌, ◌≤◌, ◌<◌, refl, true, false, Option, none, some, List, [], arith, ok, inl, inr,
  Option-cases, if◌then◌else◌, length, min,
}
use vortex_contracts.Base.Dict.{
  get, put, remove, get-put, get-remove, sum_by, sum_by-put, sum_by-weight,
}
use vortex_contracts.Arbiters.State.{DisputeResolution, ArbiterRecord, Round, Panel, Env}
use vortex_contracts.Arbiters.Rounds.{tally, settle, outcome_of, Release}
use vortex_contracts.Arbiters.Success.{count, open_of, Drawn, draw_panel-Drawn}
use vortex_contracts.Arbiters.Release.{release_all-Released, redistribute-Shared}
use vortex_contracts.Arbiters.Runs.{
  Step, initialized, registered, deregistered, opened, voted, tallied, Reach, here, next, new_round,
  initialize_lem, register_lem, deregister_lem, vote_lem, tally_checks_lem, tally_lem, report_lem,
  open_vote_lem,
}

-- The places of an arbiter in a round that is not settled.
unfoldable pub locked : ℕ → Round → ℕ
locked a r = if r.settled then 0 else count a r.panel

-- The places of an arbiter in all such rounds.
abbrev pub places : Panel → ℕ → ℕ
places s a = sum_by (locked a) s.rounds

abbrev pub HasLocks : Panel → Type 0
HasLocks s = (a : ℕ) → open_of s a ≡ places s a

module _ (this : ℕ) (s s' : Panel) (inv : HasLocks s) where
  locks_same : s'.records ≡ s.records → s'.rounds ≡ s.rounds → HasLocks s'
  locks_same p q a = ground (arith, inv a, p, q)

  locks_register :
      (arbiter : ℕ) (rec : ArbiterRecord)
      → get s.records arbiter ≡ none
      → rec.open_votes ≡ 0
      → s'.records ≡ put s.records arbiter rec
      → s'.rounds ≡ s.rounds
      → HasLocks s'
  locks_register arbiter rec f z p q a =
      ground (arith, inv a, p, q, z, get-put s.records arbiter a rec)

  locks_deregister :
      (arbiter : ℕ) (rec : ArbiterRecord)
      → get s.records arbiter ≡ some rec
      → rec.open_votes ≡ 0
      → s'.records ≡ remove s.records arbiter
      → s'.rounds ≡ s.rounds
      → HasLocks s'
  locks_deregister arbiter rec f z p q a =
      ground (arith, inv a, p, q, z, get-remove s.records arbiter a)

  locks_vote :
      (intent : ℕ) (r r' : Round)
      → get s.rounds intent ≡ some r
      → r'.panel ≡ r.panel
      → r'.settled ≡ r.settled
      → s'.records ≡ s.records
      → s'.rounds ≡ put s.rounds intent r'
      → HasLocks s'
  unfolding locked
  locks_vote intent r r' f p q x y a =
      ground (arith, inv a, x, y, sum_by-put (locked a) s.rounds intent r')

  locks_open :
      (intent t now : ℕ) (panel : List ℕ) (u : Panel)
      → get s.rounds intent ≡ none
      → Drawn panel s u
      → s'.records ≡ u.records
      → s'.rounds ≡ put s.rounds intent (new_round panel t now)
      → HasLocks s'
  unfolding locked
  locks_open intent t now panel u f d x y a =
      ground (
        arith,
        inv a,
        d.locks a,
        x,
        y,
        sum_by-put (locked a) s.rounds intent (new_round panel t now),
      )

  locks_settle :
      (intent : ℕ) (r : Round)
      → get s.rounds intent ≡ some r
      → r.settled ≡ false
      → ((a : ℕ) → open_of s' a ≡ open_of s a - count a r.panel)
      → s'.rounds ≡ put s.rounds intent (record r { settled = true })
      → HasLocks s'
  unfolding locked
  locks_settle intent r f z d y a =
      ground
        (arith, inv a, d a, y, sum_by-put (locked a) s.rounds intent (record r { settled = true }))

  -- What a tally has released, whether or not the winners got a share.
  tally_open :
      (e : Env) (intent : ℕ) (o : Option DisputeResolution)
      → tally e intent s ≡ ok (o, s')
      → (r : Round) × (get s.rounds intent ≡ some r)
        × (r.settled ≡ false)
        × ((a : ℕ) → open_of s' a ≡ open_of s a - count a r.panel)
        × (s'.rounds ≡ put s.rounds intent (record r { settled = true }))
  unfolding settle
  tally_open e intent o h =
      let (r, x, u, p, q, w, z) = tally_lem s e intent h in
      let (f, g) = tally_checks_lem s e intent p in
      let start : Release = record { winners = []; slashed_total = 0; after = settle intent r s } in
      let d = release_all-Released (outcome_of r) r.votes r.panel start q in
      let (_, k, l) = report_lem e intent (outcome_of r) u z in
      let y = redistribute-Shared x w in
      (
        r,
        f,
        g,
        λ a. ground (arith, d.locks a, y.locks a, l),
        cc (d.kept.same_rounds, y.kept.same_rounds, k.same_rounds),
      )

  Step-HasLocks : Step this s s' → HasLocks s'
  Step-HasLocks (initialized admin settlement bond_token bond_amount panel_size threshold h) =
      let (_, _, _, p, q, _) =
        initialize_lem s admin settlement bond_token bond_amount panel_size threshold h in
      locks_same p q
  Step-HasLocks (registered e arbiter _ _ h) =
      let (bond, _, _, f, p, _, q, _, _) = register_lem s e arbiter h in
      locks_register arbiter _ f refl p q
  Step-HasLocks (deregistered e arbiter _ h) =
      let (rec, f, z, p, q, _, _) = deregister_lem s e arbiter h in
      locks_deregister arbiter rec f z p q
  Step-HasLocks (opened e intent panel h) =
      let (n, m, t, l, u, f, _, _, _, d, _, z) = open_vote_lem s e intent h in
      let w = draw_panel-Drawn e intent (min n (length l)) 0 l s d in
      locks_open intent t e.at.now panel u (ground (arith, f)) w (ground (arith, z))
        (ground (arith, z, w.kept.same_rounds))
  Step-HasLocks (voted e arbiter intent v h) =
      let (r, f, _, _, _, _, _, z) = vote_lem s e arbiter intent v h in
      locks_vote intent r (record r { votes = put r.votes arbiter v }) f refl refl
        (ground (arith, z)) (ground (arith, z))
  Step-HasLocks (tallied e intent o h) =
      let (r, f, g, d, p) = tally_open e intent o h in locks_settle intent r f g d p

-- Along every such sequence the open votes of each registered arbiter are the places that it has
-- in the panels of unsettled rounds, and an arbiter that is not registered has none.
pub Reach-HasLocks :
    (this : ℕ) {s t : Panel} → s.records ≡ [] → s.rounds ≡ [] → Reach this s t → HasLocks t
unfolding get sum_by
Reach-HasLocks this p q here = λ a. ground (arith, p, q)
Reach-HasLocks this p q (next {t} {u} r w) = Step-HasLocks this t u (Reach-HasLocks this p q r) w

-- A place in an unsettled round is counted.
pub member_registered :
    (s : Panel) (intent a : ℕ) (r : Round)
    → HasLocks s
    → get s.rounds intent ≡ some r
    → r.settled ≡ false
    → 0 < count a r.panel
    → (rec : ArbiterRecord) × (get s.records a ≡ some rec) × (count a r.panel ≤ rec.open_votes)
unfolding locked
member_registered s intent a r inv f g h = elim (Option-cases (get s.records a)) [
  | inl p ↦ absurd (ground (arith, inv a, sum_by-weight (locked a) s.rounds intent))
  | inr (rec, p) ↦ (rec, p, ground (arith, inv a, sum_by-weight (locked a) s.rounds intent))
]
