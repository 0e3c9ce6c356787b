-- ===== src/Router/Examples.antt =====
-- Two sinks, a fee, a distribution, a claim and a change of the weights, and the theorems at these.
use vortex_contracts.Base.{
  ℕ, ◌+◌, ◌≡◌, ◌≤◌, refl, true, none, some, List, [], ◌∷◌, ok, arith, get_or, ◌==◌, if◌then◌else◌,
}
use vortex_contracts.Base.Dict.{get, put, sum_by}
use vortex_contracts.Base.Token.{Host}
use vortex_contracts.Base.Int.{pos}
use vortex_contracts.Router.Model.{
  Sink, Router, initialize, on_fee_received, distribute, credit_sinks, credit, share_of,
  propose_weights, apply_weights, require_governance, validate_sinks, sum_weights, balance_of,
}
use vortex_contracts.Router.Sinks.{IsSinkSet, validate_sinks_iff}
use vortex_contracts.Router.Shares.{claims, other_shares, distribute-credits}
use vortex_contracts.Router.Succeeds.{distribute-succeeds}
use vortex_contracts.Router.Runs.{propose-apply_weights}

abbrev account_len : ℕ → ℕ
account_len _ = 56

abbrev at_time : ℕ → Host
at_time now = record { now = now; this = 99; auth = λ _. true; token_ok = λ _. true }

abbrev pair : List Sink
pair = record { account = 1; weight_bps = 6_000 } ∷ record { account = 2; weight_bps = 4_000 } ∷ []

abbrev blank : Router
blank = record {
  governance = none;
  weight_delay = none;
  sinks = none;
  pending = none;
  balance = [];
  claimable = λ _. [];
  calls = [];
}

abbrev ready : Router
ready = record blank { governance = some 7; weight_delay = some 100; sinks = some pair }

abbrev funded : Router
funded = record ready { balance = (50, 1_001) ∷ [] }

-- The first sink takes the whole fee, and the second its share of it.
abbrev shared : Router
shared = record ready {
  balance = (50, 0) ∷ [];
  claimable = λ t. if t == 50 then (1, 1_001) ∷ (2, 400) ∷ [] else [];
}

abbrev waiting : Router
waiting = record ready { pending = some (record { sinks = pair; executable_at = 1_100 }) }

initialized_run : initialize account_len 7 100 pair blank ≡ ok ready
unfolding initialize validate_sinks sum_weights
initialized_run = refl

received_run : on_fee_received 50 (pos 1_001) ready ≡ ok funded
unfolding on_fee_received get put
received_run = refl

distributed_run : distribute 50 funded ≡ ok shared
unfolding distribute credit_sinks credit share_of get put
distributed_run = refl

pair-IsSinkSet : IsSinkSet account_len pair
pair-IsSinkSet = (validate_sinks_iff account_len pair).0 accepted_run
  where
    accepted_run : validate_sinks account_len pair ≡ ok tt
    accepted_run = unfold validate_sinks sum_weights in refl

distribute-credits_example :
    (balance_of 50 shared ≡ 0)
    × (claims (shared.claimable 50)
        ≡ claims (funded.claimable 50)
          + balance_of 50 funded
          + other_shares (balance_of 50 funded) pair)
distribute-credits_example = distribute-credits 50 funded pair (omega arith) refl distributed_run

funded_balance : balance_of 50 funded ≡ 1_001
unfolding get
funded_balance = refl

no_claims : claims (funded.claimable 50) ≡ 0
unfolding sum_by
no_claims = refl

distribute-succeeds_example : (s' : Router) × (distribute 50 funded ≡ ok s')
distribute-succeeds_example =
    distribute-succeeds account_len 50 funded pair pair-IsSinkSet refl
      (omega (arith, funded_balance)) (omega (arith, funded_balance))
      (omega (arith, funded_balance, no_claims))

proposed_run : propose_weights (at_time 1_000) account_len 7 pair ready ≡ ok waiting
unfolding propose_weights require_governance validate_sinks sum_weights
proposed_run = refl

applied_run : apply_weights (at_time 1_100) 7 waiting ≡ ok ready
unfolding apply_weights require_governance
applied_run = refl

propose-apply_weights_example :
    ((◌≡◌ {A = ℕ} 7 7))
    × (ready.governance ≡ some 7)
    × ((at_time 1_000).auth 7 ≡ true)
    × ((at_time 1_100).auth 7 ≡ true)
    × (1_000 + get_or ready.weight_delay 0 ≤ 1_100)
    × (waiting.sinks ≡ ready.sinks)
    × (ready.sinks ≡ some pair)
propose-apply_weights_example =
    propose-apply_weights (at_time 1_000) (at_time 1_100) account_len 7 7 pair ready proposed_run
      applied_run
