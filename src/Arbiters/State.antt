-- ===== src/Arbiters/State.antt =====
-- arbiter_panel/src/lib.rs: the storage, the registration of arbiters, and the loaders. Slashing
-- and voting are in Rounds. Time-to-live and events are left out.
use vortex_contracts.Base.{
  ℕ, zero, suc, ◌*◌, Bool, true, false, ◌||◌, Option, none, some, List, [], ◌∷◌, ◌++◌, ltb, leb,
  ◌==◌, if◌then◌else◌, Result, ok, err, ◌>>=◌, ◌>>◌, or_err, fail_if, host,
}
use vortex_contracts.Base.Checked.{u32_bound, fits}
use vortex_contracts.Base.Int.{ℤ, pos, negsuc}
use vortex_contracts.Base.Dict.{Dict, get, put, remove}
use vortex_contracts.Base.Token.{Transfer, Host}

abbrev pub vote_window : ℕ
vote_window = 86_400

abbrev pub slash_bps : ℕ
slash_bps = 1_000

pub data DisputeResolution : Type 0 where
  upheld dismissed : DisputeResolution

pub record ArbiterRecord : Type 0 where
  pub bond : ℕ
  pub open_votes : ℕ

pub record Round : Type 0 where
  pub panel : List ℕ
  pub threshold : ℕ
  pub opened_at : ℕ
  pub votes : Dict DisputeResolution
  pub settled : Bool

pub data Error : Type 0 where
  already_initialized not_initialized invalid_config already_registered not_registered : Error
  has_open_votes round_exists round_not_found no_eligible_arbiters not_on_panel : Error
  already_voted voting_closed round_settled quorum_not_reached : Error

pub record Panel : Type 0 where
  pub admin : Option ℕ
  pub settlement : Option ℕ
  pub bond_token : Option ℕ
  pub bond_amount : Option ℕ
  pub panel_size : Option ℕ
  pub threshold : Option ℕ
  pub arbiters : List ℕ
  pub records : Dict ArbiterRecord
  pub rounds : Dict Round
  -- The token calls made so far, and the disputes resolved so far, the last one first.
  pub calls : List Transfer
  pub resolved : List (ℕ × DisputeResolution)

-- What a call reads from the host, the settlement contract and the random generator: the `i`-th
-- draw for an intent is from the range from `i` to a last position.
pub record Env : Type 0 where
  pub at : Host
  pub dispute_parties : ℕ → Option (ℕ × ℕ)
  pub resolve_ok : ℕ → DisputeResolution → Bool
  pub gen_range : ℕ → ℕ → ℕ → ℕ

abbrev pub Call : Type 0 → Type 0
Call A = Result Error A

-- The product is of `u32`, and is made only if the tests before it fail.
unfoldable pub bad_config : ℤ → ℕ → ℕ → Call Bool
bad_config (negsuc n) panel_size threshold = ok true
bad_config (pos zero) panel_size threshold = ok true
bad_config (pos (suc n)) panel_size threshold =
    if threshold == 0 || ltb panel_size threshold
    then ok true
    else (fits u32_bound (threshold * 2) >>= λ twice. ok (leb twice panel_size))

abbrev pub nat_of : ℤ → ℕ
nat_of (pos n) = n
nat_of (negsuc n) = 0

unfoldable pub initialize : ℕ → ℕ → ℕ → ℤ → ℕ → ℕ → Panel → Call Panel
unfolding bad_config
initialize admin settlement bond_token bond_amount panel_size threshold s = elim s.admin [
  | some _ ↦ err Error.already_initialized
  | none ↦ do
    bad ← bad_config bond_amount panel_size threshold
    fail_if bad Error.invalid_config
    ok (record s {
      admin = some admin;
      settlement = some settlement;
      bond_token = some bond_token;
      bond_amount = some (nat_of bond_amount);
      panel_size = some panel_size;
      threshold = some threshold;
    })
]

abbrev pub load_arbiter : ℕ → Panel → Call ArbiterRecord
load_arbiter a s = or_err (get s.records a) Error.not_registered

abbrev pub save_arbiter : ℕ → ArbiterRecord → Panel → Panel
save_arbiter a rec s = record s { records = put s.records a rec }

abbrev pub is_registered : ℕ → Panel → Bool
is_registered a s = elim (get s.records a) [ none ↦ false | some _ ↦ true ]

unfoldable pub register_arbiter : Env → ℕ → Panel → Call Panel
register_arbiter e arbiter s = do
  host (e.at.auth arbiter)
  fail_if (is_registered arbiter s) Error.already_registered
  bond ← or_err s.bond_amount Error.not_initialized
  token ← or_err s.bond_token Error.not_initialized
  let t : Transfer = record { token = token; from = arbiter; to = e.at.this; amount = bond }
  host (e.at.token_ok t)
  ok (record s {
    records = put s.records arbiter (record { bond = bond; open_votes = 0 });
    arbiters = s.arbiters ++ arbiter ∷ [];
    calls = t ∷ s.calls;
  })

-- The other arbiters, in their order.
unfoldable pub without : ℕ → List ℕ → List ℕ
without arbiter [] = []
without arbiter (a ∷ arbiters) =
    let rest = without arbiter arbiters in if a == arbiter then rest else a ∷ rest

unfoldable pub deregister_arbiter : Env → ℕ → Panel → Call Panel
unfolding without
deregister_arbiter e arbiter s = do
  host (e.at.auth arbiter)
  rec ← load_arbiter arbiter s
  fail_if (ltb 0 rec.open_votes) Error.has_open_votes
  let left = record s { records = remove s.records arbiter; arbiters = without arbiter s.arbiters }
  if rec.bond == 0 then ok left else (do
    token ← or_err s.bond_token Error.not_initialized
    let t : Transfer = record { token = token; from = e.at.this; to = arbiter; amount = rec.bond }
    host (e.at.token_ok t)
    ok (record left { calls = t ∷ s.calls }))
