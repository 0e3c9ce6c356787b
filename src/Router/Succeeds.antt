-- ===== src/Router/Succeeds.antt =====
-- A distribution goes through.
use vortex_contracts.Base.{
  ℕ, ◌+◌, ◌*◌, ◌/◌, ◌≡◌, ◌≤◌, ◌<◌, refl, some, List, [], ◌∷◌, arith, ok, inl, inr, Bool-cases, ltb,
  ◌==◌, if◌then◌else◌, get_or,
}
use vortex_contracts.Base.Checked.{i128_bound}
use vortex_contracts.Base.Dict.{Dict, get, put, sum_by-weight}
use vortex_contracts.Base.Division.{div_mul_le, mul_le_mul}
use vortex_contracts.Router.Model.{
  Sink, Router, share_of, credit, credit_sinks, distribute, balance_of,
}
use vortex_contracts.Router.Sinks.{weights, IsSinkSet}
use vortex_contracts.Router.Shares.{shares, claims, credit-claims}

-- The rounded shares are at most the total's part that the weights stand for.
shares-le : (total : ℕ) (sinks : List Sink) → 10_000 * shares total sinks ≤ total * weights sinks
unfolding shares weights
shares-le total [] = omega arith
shares-le total (s ∷ sinks) =
    grind (arith, shares-le total sinks, div_mul_le (total * s.weight_bps) 10_000)

credit-succeeds :
    (account share : ℕ) (d : Dict ℕ)
    → claims d + share < i128_bound
    → (d' : Dict ℕ) × (credit account share d ≡ ok d')
unfolding credit
credit-succeeds account share d h = elim (Bool-cases (ltb 0 share)) [
  | inl p ↦ (
    put d account (get_or (get d account) 0 + share),
    ground (arith, sum_by-weight (λ (n : ℕ). n) d account),
  )
  | inr p ↦ (d, ground arith)
]

share_of-succeeds :
    (total i distributed : ℕ) (s : Sink)
    → 0 < i
    → s.weight_bps ≤ 10_000
    → total * 10_000 < i128_bound
    → share_of total i distributed s ≡ ok ((total * s.weight_bps) / 10_000)
unfolding share_of
share_of-succeeds total i distributed s p w h =
    ground (arith, mul_le_mul total s.weight_bps 10_000 w)

credit_sinks-succeeds :
    (total i distributed : ℕ) (sinks : List Sink) (d : Dict ℕ)
    → 0 < i
    → weights sinks ≤ 10_000
    → total * 10_000 < i128_bound
    → distributed + shares total sinks < i128_bound
    → claims d + shares total sinks < i128_bound
    → (d' : Dict ℕ) × (credit_sinks total i distributed sinks d ≡ ok d')
unfolding credit_sinks shares weights
credit_sinks-succeeds total i distributed [] d p w h k l = (d, refl)
credit_sinks-succeeds total i distributed (s ∷ sinks) d p w h k l =
    let share = (total * s.weight_bps) / 10_000 in
    let (d₁, q) = credit-succeeds s.account share d (omega (arith, l)) in
    let (d', r) =
      credit_sinks-succeeds total (i + 1) (distributed + share) sinks d₁ (omega arith)
        (omega (arith, w)) h (omega (arith, k))
        (omega (arith, l, credit-claims s.account share d q)) in
    (d', ground (arith, q, r, share_of-succeeds total i distributed s p (omega (arith, w)) h))

first_succeeds :
    (total : ℕ) (sinks : List Sink) (d : Dict ℕ)
    → weights sinks ≤ 10_000
    → total * 10_000 < i128_bound
    → claims d + total + total < i128_bound
    → (d' : Dict ℕ) × (credit_sinks total 0 0 sinks d ≡ ok d')
unfolding credit_sinks share_of
first_succeeds total [] d w h l = (d, refl)
first_succeeds total (s ∷ sinks) d w h l =
    let weighed : weights sinks ≤ 10_000 = unfold weights in omega (arith, w) in
    let fit : shares total sinks ≤ total =
      omega (arith, shares-le total sinks, mul_le_mul total (weights sinks) 10_000 weighed) in
    let (d₁, q) = credit-succeeds s.account total d (omega (arith, l)) in
    let (d', r) =
      credit_sinks-succeeds total 1 total sinks d₁ (omega arith) weighed h (omega (arith, fit, l))
        (omega (arith, fit, l, credit-claims s.account total d q)) in
    (d', ground (arith, q, r))

-- With a valid sink set, a distribution of a positive balance succeeds if 10000 times the balance
-- fits an i128, and so does what the sinks can claim already plus twice the balance.
pub distribute-succeeds :
    (account_len : ℕ → ℕ) (token : ℕ) (s : Router) (sinks : List Sink)
    → IsSinkSet account_len sinks
    → s.sinks ≡ some sinks
    → 0 < balance_of token s
    → balance_of token s * 10_000 < i128_bound
    → claims (s.claimable token) + balance_of token s + balance_of token s < i128_bound
    → (s' : Router) × (distribute token s ≡ ok s')
unfolding distribute
distribute-succeeds account_len token s sinks v p b h l =
    let total = balance_of token s in
    let (d, r) = first_succeeds total sinks (s.claimable token) (omega (arith, v.whole)) h l in
    let after = record s {
      balance = put s.balance token 0;
      claimable = λ t. if t == token then d else s.claimable t;
    } in
    (after, ground (arith, p, r))
