-- ===== src/Settlement/Close.antt =====
-- intent_settlement/src/lib.rs: the ways an intent changes without a solver: `cancel_intent`,
-- `amend_intent`, `expire_intent`.
use vortex_contracts.Base.{
  ℕ, ◌-◌, Bool, true, false, not, Option, none, some, ltb, leb, ◌==◌, ◌||◌, ◌&&◌, ok, ◌>>=◌, ◌>>◌,
  fail_if,
}
use vortex_contracts.Base.Checked.{add_u64}
use vortex_contracts.Base.Int.{ℤ, ltb_ℤ}
use vortex_contracts.Settlement.Const
use vortex_contracts.Settlement.Types.{IntentState, IntentRecord, Error}
use vortex_contracts.Settlement.State.{
  Env, Storage, Call, update, load_config, load_intent, save_intent, require_auth,
}
use vortex_contracts.Settlement.Accept.{is_open}

-- The cooldown since the last stamp, if there is one.
unfoldable pub check_cooldown : ℕ → Option ℕ → ℕ → Error → Call (Unit {0})
check_cooldown now none period error = ok tt
check_cooldown now (some last) period error = do
  end ← add_u64 last period
  fail_if (ltb now end) error

abbrev pub is_accepted : IntentState → Bool
is_accepted IntentState.accepted = true
is_accepted _ = false

abbrev pub is_just_open : IntentState → Bool
is_just_open IntentState.open_ = true
is_just_open _ = false

abbrev pub is_bidding : IntentState → Bool
is_bidding IntentState.bidding = true
is_bidding _ = false

-- An open intent ends in `state`.
unfoldable pub end_intent : ℕ → ℕ → IntentState → IntentRecord → Storage → Storage
unfolding save_intent
end_intent now id state intent s =
    save_intent (record s { open_intents = s.open_intents - 1 }) id
      (record intent { state = state; terminal_at = some now })

unfoldable pub cancel_checks : ℕ → ℕ → Storage → Call IntentRecord
cancel_checks user id s = do
  intent ← load_intent s id
  fail_if (not (intent.user == user)) Error.unauthorized
  fail_if (is_accepted intent.state) Error.cannot_cancel_accepted
  fail_if (not (is_open intent.state)) Error.intent_not_open
  ok intent

unfoldable pub cancel_intent_core : Env → ℕ → ℕ → Storage → Call Storage
unfolding cancel_checks
cancel_intent_core e user id s = do
  intent ← cancel_checks user id s
  ok (end_intent e.now id IntentState.cancelled intent s)

unfoldable pub cancel_intent : Env → ℕ → ℕ → Storage → Call Storage
unfolding cancel_intent_core check_cooldown
cancel_intent e user id s = do
  require_auth e user
  check_cooldown e.now (s.cancel_stamp user) Const.cancel_cooldown Error.cancel_cooldown_not_expired
  s1 ← cancel_intent_core e user id s
  ok (record s1 { cancel_stamp = update s1.cancel_stamp user (some e.now) })

unfoldable pub expire_checks : Env → ℕ → Storage → Call IntentRecord
expire_checks e id s = do
  intent ← load_intent s id
  fail_if (not (is_open intent.state)) Error.intent_not_open
  fail_if (ltb e.now intent.deadline) Error.deadline_not_reached
  ok intent

unfoldable pub expire_intent : Env → ℕ → Storage → Call Storage
unfolding expire_checks
expire_intent e id s = do
  intent ← expire_checks e id s
  ok (end_intent e.now id IntentState.expired intent s)

unfoldable pub amend_checks : Env → ℕ → ℕ → ℤ → ℕ → Storage → Call IntentRecord
unfolding check_cooldown
amend_checks e user id new_min new_deadline s = do
  require_auth e user
  check_cooldown e.now (s.amendment_stamp user) Const.amendment_cooldown
      Error.amendment_cooldown_active
  intent ← load_intent s id
  fail_if (not (intent.user == user)) Error.unauthorized
  fail_if (not (is_just_open intent.state || is_bidding intent.state)) Error.intent_not_amendable
  fail_if (leb new_deadline e.now) Error.invalid_amendment_deadline
  latest ← add_u64 e.now (load_config s).intent_expiry
  fail_if (ltb latest new_deadline) Error.invalid_amendment_deadline
  let is_tightening = ltb_ℤ intent.min_dst_amount new_min || ltb new_deadline intent.deadline
  fail_if (is_tightening && not (is_just_open intent.state)) Error.amendment_too_tightening
  ok intent

unfoldable pub amend_intent : Env → ℕ → ℕ → ℤ → ℕ → Storage → Call Storage
unfolding amend_checks save_intent
amend_intent e user id new_min new_deadline s = do
  intent ← amend_checks e user id new_min new_deadline s
  ok (
      save_intent (record s { amendment_stamp = update s.amendment_stamp user (some e.now) }) id
        (record intent { min_dst_amount = new_min; deadline = new_deadline }))
