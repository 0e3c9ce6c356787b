-- ===== src/Arbiters/Rounds.antt =====
-- arbiter_panel/src/lib.rs: the rounds: a panel is drawn, its members vote, and the votes are
-- tallied. The bonds of members who did not vote with the majority are cut.
use vortex_contracts.Base.{
  ℕ, zero, suc, ◌+◌, ◌-◌, ◌*◌, ◌/◌, min, max, Bool, true, false, not, ◌||◌, Option, none, some,
  List, [], ◌∷◌, ◌++◌, ltb, leb, ◌==◌, if◌then◌else◌, get_elem?, length, ok, trap, ◌>>=◌, ◌>>◌,
  or_err, unwrap, fail_if, host,
}
use vortex_contracts.Base.Checked.{u32_bound, fits, add_u32, add_u64, add_i128, i128_bound}
use vortex_contracts.Base.Dict.{Dict, get, put}
use vortex_contracts.Base.Lists.{set}
use vortex_contracts.Arbiters.State.{
  DisputeResolution, upheld, dismissed, ArbiterRecord, Round, Error, Panel, Env, Call, load_arbiter,
  save_arbiter, vote_window, slash_bps,
}

-- The arbiters who may sit, in their order.
unfoldable pub eligible_of : ℕ → ℕ → ℕ → Panel → List ℕ → Call (List ℕ)
eligible_of user solver bond_amount s [] = ok []
eligible_of user solver bond_amount s (a ∷ arbiters) = do
  fits_in ←
      if a == user || a == solver
      then ok false
      else (load_arbiter a s >>= λ rec. ok (leb bond_amount rec.bond))
  rest ← eligible_of user solver bond_amount s arbiters
  ok (if fits_in then a ∷ rest else rest)

abbrev pub lock : ℕ → ArbiterRecord → ℕ → Panel → Panel
lock a rec n s = save_arbiter a (record rec { open_votes = n }) s

-- `k` rounds of the shuffle from position `i`; the drawn arbiters are locked.
unfoldable pub draw_panel : Env → ℕ → ℕ → ℕ → List ℕ → Panel → Call (List ℕ × Panel)
draw_panel e intent zero i eligible s = ok ([], s)
draw_panel e intent (suc k) i eligible s = do
  let j = e.gen_range intent i (length eligible - 1)
  a ← unwrap (get_elem? eligible i)
  b ← unwrap (get_elem? eligible j)
  rec ← load_arbiter b s
  n ← add_u32 rec.open_votes 1
  (panel, s') ← draw_panel e intent k (i + 1) (set (set eligible i b) j a) (lock b rec n s)
  ok (b ∷ panel, s')

-- The majority asked of `k` of `n` members, where it is `m` of `n`.
unfoldable pub scaled_threshold : ℕ → ℕ → ℕ → Call ℕ
scaled_threshold m k n = do
  p ← fits u32_bound (m * k)
  q ← add_u32 p n
  if n == 0 then trap else ok (max ((q - 1) / n) 1)

abbrev pub has_round : ℕ → Panel → Bool
has_round intent s = elim (get s.rounds intent) [ none ↦ false | some _ ↦ true ]

unfoldable pub open_vote : Env → ℕ → Panel → Call (List ℕ × Panel)
unfolding eligible_of draw_panel scaled_threshold
open_vote e intent s = do
  fail_if (has_round intent s) Error.round_exists
  _ ← or_err s.settlement Error.not_initialized
  (user, solver) ← unwrap (e.dispute_parties intent)
  bond_amount ← or_err s.bond_amount Error.not_initialized
  eligible ← eligible_of user solver bond_amount s s.arbiters
  fail_if (length eligible == 0) Error.no_eligible_arbiters
  n ← or_err s.panel_size Error.not_initialized
  m ← or_err s.threshold Error.not_initialized
  let k = min n (length eligible)
  (panel, s') ← draw_panel e intent k 0 eligible s
  threshold ← scaled_threshold m k n
  let round : Round = record {
    panel = panel;
    threshold = threshold;
    opened_at = e.at.now;
    votes = [];
    settled = false;
  }
  ok (panel, record s' { rounds = put s'.rounds intent round })

abbrev pub elem : ℕ → List ℕ → Bool
elem a [] = false
elem a (x ∷ xs) = x == a || elem a xs

abbrev pub has_voted : ℕ → Round → Bool
has_voted arbiter r = elim (get r.votes arbiter) [ none ↦ false | some _ ↦ true ]

unfoldable pub vote_checks : Env → ℕ → ℕ → Panel → Call Round
vote_checks e arbiter intent s = do
  host (e.at.auth arbiter)
  r ← or_err (get s.rounds intent) Error.round_not_found
  fail_if r.settled Error.round_settled
  end ← add_u64 r.opened_at vote_window
  fail_if (leb end e.at.now) Error.voting_closed
  fail_if (not (elem arbiter r.panel)) Error.not_on_panel
  fail_if (has_voted arbiter r) Error.already_voted
  ok r

unfoldable pub vote : Env → ℕ → ℕ → DisputeResolution → Panel → Call Panel
unfolding vote_checks
vote e arbiter intent resolution s = do
  r ← vote_checks e arbiter intent s
  ok (record s {
    rounds = put s.rounds intent (record r { votes = put r.votes arbiter resolution });
  })

abbrev pub same_resolution : DisputeResolution → DisputeResolution → Bool
same_resolution upheld upheld = true
same_resolution dismissed dismissed = true
same_resolution upheld dismissed = false
same_resolution dismissed upheld = false

-- `votes.get(a) == Some(o)`
abbrev pub voted_for : DisputeResolution → Option DisputeResolution → Bool
voted_for o none = false
voted_for o (some v) = same_resolution v o

unfoldable pub count_votes : DisputeResolution → Dict DisputeResolution → ℕ
count_votes o [] = 0
count_votes o ((a, v) ∷ votes) = (if same_resolution v o then 1 else 0) + count_votes o votes

unfoldable pub outcome_of : Round → Option DisputeResolution
outcome_of r =
    if leb r.threshold (count_votes upheld r.votes)
    then some upheld
    else (if leb r.threshold (count_votes dismissed r.votes) then some dismissed else none)

-- The members of the majority, what was cut from the others, and the storage.
pub record Release : Type 0 where
  pub winners : List ℕ
  pub slashed_total : ℕ
  pub after : Panel

-- The record of a member after the release of its lock; a member outside the majority is cut.
unfoldable pub release_record :
    Option DisputeResolution → Option DisputeResolution → ArbiterRecord → Call (ArbiterRecord × ℕ)
release_record none v rec = ok (record rec { open_votes = rec.open_votes - 1 }, 0)
release_record (some o) v rec =
    if voted_for o v
    then ok (record rec { open_votes = rec.open_votes - 1 }, 0)
    else (fits i128_bound (rec.bond * slash_bps) >>= λ p.
        ok (
          record rec { open_votes = rec.open_votes - 1; bond = rec.bond - p / 10_000 },
          p / 10_000,
        ))

abbrev pub wins : Option DisputeResolution → Option DisputeResolution → Bool
wins none v = false
wins (some o) v = voted_for o v

unfoldable pub release_all :
    Option DisputeResolution → Dict DisputeResolution → List ℕ → Release → Call Release
release_all o votes [] r = ok r
release_all o votes (a ∷ panel) r = do
  rec ← load_arbiter a r.after
  (rec', cut) ← release_record o (get votes a) rec
  total ← add_i128 r.slashed_total cut
  release_all o votes panel (record {
    winners = if wins o (get votes a) then r.winners ++ a ∷ [] else r.winners;
    slashed_total = total;
    after = save_arbiter a rec' r.after;
  })

-- The winners' shares; the first one takes `dust` more.
unfoldable pub share_out : ℕ → ℕ → List ℕ → Panel → Call Panel
share_out share dust [] s = ok s
share_out share dust (a ∷ winners) s = do
  rec ← load_arbiter a s
  more ← add_i128 share dust
  bond ← add_i128 rec.bond more
  share_out share 0 winners (save_arbiter a (record rec { bond = bond }) s)

unfoldable pub redistribute : Release → Call Panel
unfolding share_out
redistribute r =
    if length r.winners == 0 || r.slashed_total == 0
    then ok r.after
    else (let share = r.slashed_total / length r.winners in
        share_out share (r.slashed_total - share * length r.winners) r.winners r.after)

unfoldable pub tally_checks : Env → ℕ → Panel → Call Round
unfolding outcome_of
tally_checks e intent s = do
  r ← or_err (get s.rounds intent) Error.round_not_found
  fail_if r.settled Error.round_settled
  elim (outcome_of r) [
    | some _ ↦ ok r
    | none ↦ do
      end ← add_u64 r.opened_at vote_window
      fail_if (ltb e.at.now end) Error.quorum_not_reached
      ok r
  ]

unfoldable pub settle : ℕ → Round → Panel → Panel
settle intent r s = record s { rounds = put s.rounds intent (record r { settled = true }) }

unfoldable pub report :
    Env → ℕ → Option DisputeResolution → Panel → Call (Option DisputeResolution × Panel)
report e intent none s = ok (none, s)
report e intent (some o) s = do
  _ ← or_err s.settlement Error.not_initialized
  host (e.resolve_ok intent o)
  ok (some o, record s { resolved = (intent, o) ∷ s.resolved })

unfoldable pub tally : Env → ℕ → Panel → Call (Option DisputeResolution × Panel)
unfolding tally_checks outcome_of settle release_all redistribute report
tally e intent s = do
  r ← tally_checks e intent s
  let start : Release = record { winners = []; slashed_total = 0; after = settle intent r s }
  released ← release_all (outcome_of r) r.votes r.panel start
  s' ← redistribute released
  report e intent (outcome_of r) s'
