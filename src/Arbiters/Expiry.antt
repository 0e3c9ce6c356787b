-- ===== src/Arbiters/Expiry.antt =====
-- A round whose window has passed without a majority can always be tallied.
use vortex_contracts.Base.{
  ℕ, ◌+◌, ◌-◌, ◌≡◌, ◌≤◌, ◌<◌, refl, false, none, some, List, [], ◌∷◌, arith, ok, ◌==◌,
  if◌then◌else◌,
}
use vortex_contracts.Base.Checked.{u64_bound}
use vortex_contracts.Base.Dict.{Dict, get, get-put}
use vortex_contracts.Arbiters.State.{
  DisputeResolution, ArbiterRecord, Round, Panel, Env, save_arbiter, vote_window,
}
use vortex_contracts.Arbiters.Rounds.{
  tally, tally_checks, settle, outcome_of, Release, release_record, release_all, redistribute,
  report,
}
use vortex_contracts.Arbiters.Success.{count}
use vortex_contracts.Arbiters.Locks.{Reach-HasLocks, member_registered}
use vortex_contracts.Arbiters.Runs.{Reach}

-- Every member of a panel is registered.
abbrev AreRegistered : List ℕ → Panel → Type 0
AreRegistered panel s =
    (a : ℕ) → 0 < count a panel → (rec : ArbiterRecord) × (get s.records a ≡ some rec)

registered_save :
    (panel : List ℕ) (b : ℕ) (rec : ArbiterRecord) (s : Panel)
    → AreRegistered (b ∷ panel) s
    → AreRegistered panel (save_arbiter b rec s)
unfolding count
registered_save panel b rec s h a k =
    let (old, f) = h a (ground arith) in
    ((if b == a then rec else old), ground (arith, f, get-put s.records b a rec))

-- The release of the locks, when nobody is cut.
release_all-expires :
    (votes : Dict DisputeResolution) (panel : List ℕ) (r : Release)
    → r.slashed_total ≡ 0
    → AreRegistered panel r.after
    → (r' : Release) × (release_all none votes panel r ≡ ok r') × (r'.slashed_total ≡ 0)
unfolding release_all release_record
release_all-expires votes [] r z h = (r, refl, z)
release_all-expires votes (a ∷ panel) r z h =
    let (rec, f) = h a (unfold count in ground arith) in
    let freed : ArbiterRecord = record rec { open_votes = rec.open_votes - 1 } in
    let after : Release = record {
      winners = r.winners;
      slashed_total = 0;
      after = save_arbiter a freed r.after;
    } in
    let (r', p, q) =
      release_all-expires votes panel after refl (registered_save panel a freed r.after h) in
    (r', ground (arith, f, p, z), q)

-- In every storage that a sequence of successful calls reaches from one without arbiters and
-- rounds, the tally of an unsettled round without a majority succeeds once its window has passed:
-- every member of its panel is still registered.
pub tally-expires :
    (this : ℕ) (e : Env) (intent : ℕ) (s₀ s : Panel) (r : Round)
    → s₀.records ≡ []
    → s₀.rounds ≡ []
    → Reach this s₀ s
    → get s.rounds intent ≡ some r
    → r.settled ≡ false
    → outcome_of r ≡ none
    → r.opened_at + vote_window ≤ e.at.now
    → e.at.now < u64_bound
    → (s' : Panel) × (tally e intent s ≡ ok (none, s'))
unfolding tally tally_checks settle redistribute report
tally-expires this e intent s₀ s r x y w f z o k l =
    let inv = Reach-HasLocks this x y w in
    let start : Release = record { winners = []; slashed_total = 0; after = settle intent r s } in
    let members : AreRegistered r.panel s =
      λ a h. let (rec, p, _) = member_registered s intent a r inv f z h in (rec, p) in
    let (x, p, q) = release_all-expires r.votes r.panel start refl members in
    (x.after, ground (arith, f, z, o, k, l, p, q))
