-- ===== src/Router/Model.antt =====
-- fee_router/src/lib.rs: fees accumulate for each token, a distribution credits them to the sinks by
-- weight, and the sinks claim. The length of an account, which the source takes from the host, is a
-- parameter, and so are the balances that a claim reads.
use vortex_contracts.Base.{
  ℕ, zero, suc, ◌+◌, ◌-◌, ◌*◌, ◌/◌, min, Bool, false, not, ◌||◌, Option, none, some, List, [], ◌∷◌,
  ltb, ◌==◌, if◌then◌else◌, length, get_or, Result, ok, ◌>>=◌, ◌>>◌, or_err, unwrap, fail_if, host,
}
use vortex_contracts.Base.Checked.{u32_bound, i128_bound, fits, add_u64, add_i128}
use vortex_contracts.Base.Int.{ℤ, pos, negsuc, ◌-ℤ◌}
use vortex_contracts.Base.Dict.{Dict, get, put}
use vortex_contracts.Base.Token.{Transfer, Host}

abbrev pub total_bps : ℕ
total_bps = 10_000

abbrev pub max_sinks : ℕ
max_sinks = 16

abbrev pub max_account_len : ℕ
max_account_len = 64

pub record Sink : Type 0 where
  pub account : ℕ
  pub weight_bps : ℕ

pub record PendingWeights : Type 0 where
  pub sinks : List Sink
  pub executable_at : ℕ

pub data FeeRouterError : Type 0 where
  unauthorized too_many_sinks weights_must_sum_to_total empty_sinks : FeeRouterError
  duplicate_sink no_pending_weights timelock_not_elapsed unknown_token : FeeRouterError
  nothing_to_claim transfer_failed invalid_account_length : FeeRouterError

pub record Router : Type 0 where
  pub governance : Option ℕ
  pub weight_delay : Option ℕ
  pub sinks : Option (List Sink)
  pub pending : Option PendingWeights
  pub balance : Dict ℕ
  -- By token, and then by sink.
  pub claimable : ℕ → Dict ℕ
  -- The token calls made so far, the last one first.
  pub calls : List Transfer

abbrev pub Call : Type 0 → Type 0
Call A = Result FeeRouterError A

-- `account` occurs among the accounts of the sinks before it.
abbrev pub is_listed : ℕ → List Sink → Bool
is_listed account [] = false
is_listed account (s ∷ sinks) = s.account == account || is_listed account sinks

abbrev pub sat_add_u32 : ℕ → ℕ → ℕ
sat_add_u32 a b = min (a + b) (u32_bound - 1)

-- The loop of `validate_sinks`: `seen` are the sinks before, the last one first.
unfoldable pub sum_weights : (ℕ → ℕ) → List Sink → ℕ → List Sink → Call ℕ
sum_weights account_len seen sum [] = ok sum
sum_weights account_len seen sum (s ∷ sinks) = do
  fail_if (ltb max_account_len (account_len s.account)) FeeRouterError.invalid_account_length
  fail_if (is_listed s.account seen) FeeRouterError.duplicate_sink
  sum_weights account_len (s ∷ seen) (sat_add_u32 sum s.weight_bps) sinks

unfoldable pub validate_sinks : (ℕ → ℕ) → List Sink → Call (Unit {0})
validate_sinks account_len sinks = do
  fail_if (length sinks == 0) FeeRouterError.empty_sinks
  fail_if (ltb max_sinks (length sinks)) FeeRouterError.too_many_sinks
  sum ← sum_weights account_len [] 0 sinks
  fail_if (not (sum == total_bps)) FeeRouterError.weights_must_sum_to_total

unfoldable pub initialize : (ℕ → ℕ) → ℕ → ℕ → List Sink → Router → Call Router
initialize account_len governance weight_delay sinks s = do
  validate_sinks account_len sinks
  ok (record s {
    governance = some governance;
    weight_delay = some weight_delay;
    sinks = some sinks;
  })

abbrev pub balance_of : ℕ → Router → ℕ
balance_of token s = get_or (get s.balance token) 0

abbrev pub claimable_of : ℕ → ℕ → Router → ℕ
claimable_of sink token s = get_or (get (s.claimable token) sink) 0

unfoldable pub on_fee_received : ℕ → ℤ → Router → Call Router
on_fee_received token (negsuc n) s = ok s
on_fee_received token (pos zero) s = ok s
on_fee_received token (pos (suc n)) s = do
  b ← add_i128 (balance_of token s) (suc n)
  ok (record s { balance = put s.balance token b })

-- The share of the sink at position `i`; the first one takes what is not distributed yet.
unfoldable pub share_of : ℕ → ℕ → ℕ → Sink → Call ℕ
share_of total i distributed sink =
    if i == 0
    then ok (total - distributed)
    else (fits i128_bound (total * sink.weight_bps) >>= λ p. ok (p / total_bps))

unfoldable pub credit : ℕ → ℕ → Dict ℕ → Call (Dict ℕ)
credit account share d =
    if ltb 0 share
    then (add_i128 (get_or (get d account) 0) share >>= λ n. ok (put d account n))
    else ok d

unfoldable pub credit_sinks : ℕ → ℕ → ℕ → List Sink → Dict ℕ → Call (Dict ℕ)
credit_sinks total i distributed [] d = ok d
credit_sinks total i distributed (sink ∷ sinks) d = do
  share ← share_of total i distributed sink
  distributed' ← add_i128 distributed share
  d' ← credit sink.account share d
  credit_sinks total (i + 1) distributed' sinks d'

unfoldable pub distribute : ℕ → Router → Call Router
distribute token s = do
  fail_if (balance_of token s == 0) FeeRouterError.unknown_token
  sinks ← unwrap s.sinks
  d ← credit_sinks (balance_of token s) 0 0 sinks (s.claimable token)
  ok (record s {
    balance = put s.balance token 0;
    claimable = λ t. if t == token then d else s.claimable t;
  })

-- The sink's balance of the token before and after the transfer.
pub record Balances : Type 0 where
  pub before : ℕ
  pub after : ℕ

unfoldable pub claim : Host → Balances → ℕ → ℕ → Router → Call (ℤ × Router)
claim e b sink token s = do
  host (e.auth sink)
  let amount = claimable_of sink token s
  fail_if (amount == 0) FeeRouterError.nothing_to_claim
  let t : Transfer = record { token = token; from = e.this; to = sink; amount = amount }
  host (e.token_ok t)
  ok (
    pos b.after -ℤ pos b.before,
    record s {
      claimable = λ u. if u == token then put (s.claimable u) sink 0 else s.claimable u;
      calls = t ∷ s.calls;
    },
  )

-- The guards that both changes of the weights begin with.
unfoldable pub require_governance : Host → ℕ → Router → Call (Unit {0})
require_governance e caller s = do
  host (e.auth caller)
  governance ← unwrap s.governance
  fail_if (not (caller == governance)) FeeRouterError.unauthorized

unfoldable pub propose_weights : Host → (ℕ → ℕ) → ℕ → List Sink → Router → Call Router
unfolding require_governance
propose_weights e account_len caller sinks s = do
  require_governance e caller s
  validate_sinks account_len sinks
  delay ← unwrap s.weight_delay
  at ← add_u64 e.now delay
  ok (record s { pending = some (record { sinks = sinks; executable_at = at }) })

unfoldable pub apply_weights : Host → ℕ → Router → Call Router
unfolding require_governance
apply_weights e caller s = do
  require_governance e caller s
  pending ← or_err s.pending FeeRouterError.no_pending_weights
  fail_if (ltb e.now pending.executable_at) FeeRouterError.timelock_not_elapsed
  ok (record s { sinks = some pending.sinks; pending = none })

unfoldable pub pending_executable_at : Router → Option ℕ
pending_executable_at s = elim s.pending [ none ↦ none | some p ↦ some p.executable_at ]
