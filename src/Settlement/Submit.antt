-- ===== src/Settlement/Submit.antt =====
-- intent_settlement/src/lib.rs: `submit_intent`.
use vortex_contracts.Base.{
  ℕ, ◌+◌, Bool, true, not, Option, none, some, List, ltb, leb, ◌&&◌, ◌||◌, is_some_of, ok, ◌>>=◌,
  ◌>>◌, unwrap, fail_if,
}
use vortex_contracts.Base.Checked.{add_u64, checked_mul}
use vortex_contracts.Base.Int.{ℤ, pos}
use vortex_contracts.Base.Dict.{get}
use vortex_contracts.Settlement.Const
use vortex_contracts.Settlement.Types.{IntentState, IntentRecord, Error}
use vortex_contracts.Settlement.State.{
  Env, Storage, UserPages, Call, update, load_config, load_bond_token, save_intent,
  require_not_paused, require_auth, positive,
}
use vortex_contracts.Settlement.Bonds.{checked_pow10, ◌>>=?◌}
use vortex_contracts.Settlement.Index.{user_intents_append}
use vortex_contracts.Settlement.Chains.{validate_src_token}

-- The arguments of `submit_intent` after the user.
pub record Request : Type 0 where
  pub src_chain : List ℕ
  pub src_token : List ℕ
  pub src_amount : ℤ
  pub dst_token : ℕ
  pub min_dst_amount : ℤ
  pub deadline : Option ℕ
  pub referrer : Option ℕ

abbrev pub exceeds : Option ℕ → ℕ → Bool
exceeds none n = true
exceeds (some bound) n = ltb bound n

-- A token that does not answer `decimals` traps; a bound that overflows is exceeded.
check_dst_amount : Env → ℕ → ℕ → Call (Unit {0})
check_dst_amount e dst_token amount = do
  decimals ← unwrap (e.decimals dst_token)
  let bound = checked_pow10 decimals >>=? λ unit. checked_mul unit Const.max_whole_units
  fail_if (exceeds bound amount) Error.implausible_dst_amount

unfoldable pub check_policy : Env → Storage → ℕ → ℕ → ℤ → Call (Unit {0})
check_policy e s user dst_token amount = elim s.policy [
  | none ↦ ok tt
  | some policy ↦ do
    allowed ← unwrap (e.check_intent policy user dst_token amount)
    fail_if (not allowed) Error.policy_rejected
]

-- The two amounts, positive and not above the limit.
check_amounts : Request → Call (ℕ × ℕ)
check_amounts q = do
  src ← positive q.src_amount Error.zero_amount
  dst ← positive q.min_dst_amount Error.zero_amount
  fail_if (ltb Const.max_amount src || ltb Const.max_amount dst) Error.amount_too_large
  ok (src, dst)

expiry_of : Env → Storage → Option ℕ → Call ℕ
expiry_of e s (some d) = ok d
expiry_of e s none = add_u64 e.now (load_config s).intent_expiry

has_intent : Storage → ℕ → Bool
has_intent s id = elim (get s.intents id) [ none ↦ s.tombstone id | some _ ↦ true ]

-- An intent that has passed the checks: the amounts, the expiry, and the identifier.
pub record Submission : Type 0 where
  pub src_amount : ℕ
  pub min_dst_amount : ℕ
  pub expiry : ℕ
  pub intent_id : ℕ
  pub bond_token : ℕ

unfoldable pub submit_checks : Env → ℕ → Request → Storage → Call Submission
unfolding check_dst_amount check_policy check_amounts expiry_of has_intent
submit_checks e user q s = do
  require_not_paused s
  amounts ← check_amounts q
  let (src, dst) = amounts
  fail_if (s.dst_allowlist_enabled && not (s.allowed_dst_token q.dst_token))
      Error.dst_token_not_allowed
  fail_if (s.src_chain_allowlist_enabled && not (s.allowed_src_chain q.src_chain))
      Error.src_chain_not_allowed
  validate_src_token q.src_chain q.src_token
  check_dst_amount e q.dst_token dst
  check_policy e s user q.dst_token q.min_dst_amount
  expiry ← expiry_of e s q.deadline
  fail_if (leb expiry e.now) Error.invalid_deadline
  fail_if (is_some_of q.referrer user) Error.self_referral
  let id = e.intent_id user q.src_chain src q.dst_token q.min_dst_amount (s.user_nonce user)
  fail_if (has_intent s id) Error.intent_already_exists
  bond_token ← load_bond_token s
  ok (record {
    src_amount = src;
    min_dst_amount = dst;
    expiry = expiry;
    intent_id = id;
    bond_token = bond_token;
  })

unfoldable pub new_intent : Env → ℕ → Request → Submission → IntentRecord
new_intent e user q b = record {
  user = user;
  src_chain = q.src_chain;
  src_token = q.src_token;
  src_amount = b.src_amount;
  dst_token = q.dst_token;
  min_dst_amount = pos b.min_dst_amount;
  solver = none;
  state = IntentState.open_;
  created_at = e.now;
  deadline = b.expiry;
  filled_at = none;
  fill_amount = none;
  total_filled = 0;
  bond_token = b.bond_token;
  dispute_deadline = none;
  dispute_raised_at = none;
  resolution = none;
  solver_tier = 0;
  referrer = q.referrer;
  slash_cycles = 0;
  terminal_at = none;
}

-- The list of open intents is left out, as for `accept_intent`.
unfoldable pub submit_effects : Env → ℕ → Request → UserPages → Submission → Storage → Storage
unfolding new_intent save_intent
submit_effects e user q pages b s =
    save_intent
      (record s {
        user_nonce = update s.user_nonce user (s.user_nonce user + 1);
        pages = pages;
        total_intents = s.total_intents + 1;
        open_intents = s.open_intents + 1;
      })
      b.intent_id (new_intent e user q b)

unfoldable pub submit_intent_inner : Env → ℕ → Request → Storage → Call (ℕ × Storage)
submit_intent_inner e user q s = do
  b ← submit_checks e user q s
  _ ← add_u64 (s.user_nonce user) 1
  pages ← user_intents_append s.pages user b.intent_id
  _ ← add_u64 s.total_intents 1
  _ ← add_u64 s.open_intents 1
  ok (b.intent_id, submit_effects e user q pages b s)

unfoldable pub submit_intent : Env → ℕ → Request → Storage → Call (ℕ × Storage)
unfolding submit_intent_inner
submit_intent e user q s = do require_auth e user; submit_intent_inner e user q s
