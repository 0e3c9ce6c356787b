-- ===== src/Arbiters/Verdicts.antt =====
-- A round that is decided has winners, so that a tally moves bonds and destroys none.
use vortex_contracts.Base.{
  ℕ, ◌≡◌, ◌≤◌, ◌<◌, refl, sym, subst, true, Option, some, List, [], ◌∷◌, arith, ok, inl, inr,
  Bool-cases, Option-cases, length,
}
use vortex_contracts.Base.Dict.{Dict, get, put, get-put, no_repeat, no_repeat-put}
use vortex_contracts.Arbiters.State.{DisputeResolution, upheld, dismissed, Round, Panel, Env}
use vortex_contracts.Arbiters.Rounds.{
  tally, settle, outcome_of, Release, elem, has_voted, count_votes, same_resolution,
  scaled_threshold,
}
use vortex_contracts.Arbiters.Success.{count, bonds, Kept, Kept-trans}
use vortex_contracts.Arbiters.Release.{
  Released, release_all-Released, redistributed, redistribute-Shared,
}
use vortex_contracts.Arbiters.Runs.{new_round, tally_checks_lem, tally_lem, report_lem}

-- A round asks for at least one vote, and its votes are of members, one each.
pub record IsRound (r : Round) : Type 0 where
  pub asked : 0 < r.threshold
  pub once : no_repeat r.votes ≡ true
  pub of_members : (a : ℕ) → has_voted a r ≡ true → 0 < count a r.panel

count_of_elem : (a : ℕ) (panel : List ℕ) → elem a panel ≡ true → 0 < count a panel
unfolding count
count_of_elem a [] h = absurd (ground arith)
count_of_elem a (x ∷ panel) h = ground (arith, count_of_elem a panel)

pub new_round-IsRound : (panel : List ℕ) (t now : ℕ) → 0 < t → IsRound (new_round panel t now)
unfolding no_repeat get
new_round-IsRound panel t now h = record {
  asked = h;
  once = refl;
  of_members = λ a k. absurd (ground (arith, k));
}

pub scaled_positive : (m k n : ℕ) {t : ℕ} → scaled_threshold m k n ≡ ok t → 0 < t
unfolding scaled_threshold
scaled_positive m k n h = ground arith

pub vote-IsRound :
    (r : Round) (arbiter : ℕ) (v : DisputeResolution)
    → IsRound r
    → elem arbiter r.panel ≡ true
    → IsRound (record r { votes = put r.votes arbiter v })
vote-IsRound r arbiter v w h = record {
  asked = w.asked;
  once = no_repeat-put r.votes arbiter v w.once;
  of_members = λ a k.
      ground
        (arith, k, get-put r.votes arbiter a v, w.of_members a, count_of_elem arbiter r.panel h);
}

vote_exists :
    (o : DisputeResolution) (votes : Dict DisputeResolution)
    → no_repeat votes ≡ true
    → 0 < count_votes o votes
    → (a : ℕ) × (v : DisputeResolution) × (get votes a ≡ some v) × (same_resolution v o ≡ true)
unfolding no_repeat count_votes get
vote_exists o [] h k = absurd (ground arith)
vote_exists o ((j, w) ∷ votes) h k = elim (Bool-cases (same_resolution w o)) [
  | inl p ↦ (j, w, ground arith, p)
  | inr p ↦
      let (a, v, q, z) = vote_exists o votes (ground arith) (ground arith) in
      (a, v, ground arith, z)
]

outcome_counts :
    (r : Round) (o : DisputeResolution)
    → outcome_of r ≡ some o
    → r.threshold ≤ count_votes o r.votes
unfolding outcome_of
outcome_counts r upheld h = ground arith
outcome_counts r dismissed h = ground arith

-- The winners of a decided round.
won_by_some :
    (r : Round) (o : DisputeResolution) (x y : Release)
    → IsRound r
    → outcome_of r ≡ some o
    → Released (some o) r.votes r.panel x y
    → 0 < length y.winners
won_by_some r o x y w h d =
    let (a, v, p, q) =
      vote_exists o r.votes w.once (omega (arith, outcome_counts r o h, w.asked)) in
    d.won a (ground (arith, p, q)) (w.of_members a (ground (arith, p)))

pub tally-Kept :
    (e : Env) (intent : ℕ) (s : Panel) {o : Option DisputeResolution} {s' : Panel}
    → tally e intent s ≡ ok (o, s')
    → (r : Round) × (get s.rounds intent ≡ some r) × Kept (settle intent r s) s'
unfolding settle
tally-Kept e intent s h =
    let (r, x, u, p, q, w, z) = tally_lem s e intent h in
    let start : Release = record { winners = []; slashed_total = 0; after = settle intent r s } in
    let d = release_all-Released (outcome_of r) r.votes r.panel start q in
    let (_, k, _) = report_lem e intent (outcome_of r) u z in
    (
      r,
      (tally_checks_lem s e intent p).0,
      Kept-trans d.kept (Kept-trans (redistribute-Shared x w).kept k),
    )

-- The tally of a round that asks for a vote, whose votes are of members and one each, gives the
-- outcome of its votes, makes no token call, and leaves the sum of all bonds as it was.
pub tally-bonds :
    (e : Env) (intent : ℕ) (s : Panel) (r : Round) {o : Option DisputeResolution} {s' : Panel}
    → get s.rounds intent ≡ some r
    → IsRound r
    → tally e intent s ≡ ok (o, s')
    → (o ≡ outcome_of r) × (bonds s' ≡ bonds s) × (s'.calls ≡ s.calls)
unfolding settle
tally-bonds e intent s r g v h =
    let (r', x, u, p, q, w, z) = tally_lem s e intent h in
    let same : r' ≡ r = ground (arith, g, (tally_checks_lem s e intent p).0) in
    let d =
      release_all-Released (outcome_of r') r'.votes r'.panel
        (record { winners = []; slashed_total = 0; after = settle intent r' s }) q in
    let y = redistribute-Shared x w in
    let (i, k, l) = report_lem e intent (outcome_of r') u z in
    (
      ground (arith, i, same),
      ground (arith, d.conserved, y.raised, l, all_given r' x _ (subst IsRound (sym same) v) d),
      cc (d.kept.same_calls, y.kept.same_calls, k.same_calls),
    )
  where
    all_given :
        (t : Round) (a b : Release)
        → IsRound t
        → Released (outcome_of t) t.votes t.panel b a
        → b.slashed_total ≡ 0
        → redistributed a ≡ a.slashed_total
    all_given t a b v d z = elim (Option-cases (outcome_of t)) [
      | inl p ↦ ground (arith, d.unslashed p, z)
      | inr (o, p) ↦
          let win =
            won_by_some t o b a v p
              (subst (λ (c : Option DisputeResolution). Released c t.votes t.panel b a) p d) in
          ground (arith, win)
    ]
