-- ===== src/Router/Shares.antt =====
-- What a distribution credits to the sinks in all.
use vortex_contracts.Base.{
  ℕ, ◌+◌, ◌*◌, ◌/◌, ◌≡◌, ◌<◌, some, List, [], ◌∷◌, arith, ok, inl, inr, Call-cases, get_or, length,
}
use vortex_contracts.Base.Dict.{Dict, get, get-put, sum_by, sum_by-put}
use vortex_contracts.Router.Model.{
  Sink, Router, share_of, credit, credit_sinks, distribute, balance_of,
}

-- The weighted shares of some sinks, each rounded down.
unfoldable pub shares : ℕ → List Sink → ℕ
shares total [] = 0
shares total (s ∷ sinks) = (total * s.weight_bps) / 10_000 + shares total sinks

-- The shares of all sinks but the first.
abbrev pub other_shares : ℕ → List Sink → ℕ
other_shares total [] = 0
other_shares total (s ∷ sinks) = shares total sinks

-- All that the sinks can claim of a token.
abbrev pub claims : Dict ℕ → ℕ
claims d = sum_by (λ n. n) d

pub credit-claims :
    (account share : ℕ) (d : Dict ℕ) {d' : Dict ℕ}
    → credit account share d ≡ ok d'
    → claims d' ≡ claims d + share
unfolding credit
credit-claims account share d h =
    ground (arith, sum_by-put (λ (n : ℕ). n) d account (get_or (get d account) 0 + share))

-- One round of the loop.
credit_sinks_step :
    (total i distributed : ℕ) (s : Sink) (sinks : List Sink) (d : Dict ℕ) {d' : Dict ℕ}
    → credit_sinks total i distributed (s ∷ sinks) d ≡ ok d'
    → (share : ℕ) × (d₁ : Dict ℕ) × (share_of total i distributed s ≡ ok share)
      × (claims d₁ ≡ claims d + share)
      × (credit_sinks total (i + 1) (distributed + share) sinks d₁ ≡ ok d')
unfolding credit_sinks
credit_sinks_step total i distributed s sinks d h =
    elim (Call-cases (share_of total i distributed s)) [
      | inr f ↦ absurd (ground arith)
      | inl (share, q) ↦ elim (Call-cases (credit s.account share d)) [
        | inr f ↦ absurd (ground arith)
        | inl (d₁, r) ↦ (share, d₁, q, credit-claims s.account share d r, ground arith)
      ]
    ]

share_of_later :
    (total i distributed : ℕ) (s : Sink) {share : ℕ}
    → 0 < i
    → share_of total i distributed s ≡ ok share
    → share ≡ (total * s.weight_bps) / 10_000
unfolding share_of
share_of_later total i distributed s p h = ground arith

share_of_first :
    (total : ℕ) (s : Sink) {share : ℕ} → share_of total 0 0 s ≡ ok share → share ≡ total
unfolding share_of
share_of_first total s h = ground arith

credit_sinks-claims :
    (total i distributed : ℕ) (sinks : List Sink) (d : Dict ℕ) {d' : Dict ℕ}
    → 0 < i
    → credit_sinks total i distributed sinks d ≡ ok d'
    → claims d' ≡ claims d + shares total sinks
unfolding shares
credit_sinks-claims total i distributed [] d p h = unfold credit_sinks in ground arith
credit_sinks-claims total i distributed (s ∷ sinks) d p h =
    let (share, d₁, q, c, r) = credit_sinks_step total i distributed s sinks d h in
    let rest = credit_sinks-claims total (i + 1) (distributed + share) sinks d₁ (omega arith) r in
    omega (arith, rest, c, share_of_later total i distributed s p q)

first_credit :
    (total : ℕ) (sinks : List Sink) (d : Dict ℕ) {d' : Dict ℕ}
    → 0 < length sinks
    → credit_sinks total 0 0 sinks d ≡ ok d'
    → claims d' ≡ claims d + total + other_shares total sinks
first_credit total [] d p h = absurd (omega (arith, p))
first_credit total (s ∷ sinks) d p h =
    let (share, d₁, q, c, r) = credit_sinks_step total 0 0 s sinks d h in
    let rest = credit_sinks-claims total 1 (0 + share) sinks d₁ (omega arith) r in
    omega (arith, rest, c, share_of_first total s q)

-- A successful distribution over at least one sink leaves the token no balance, and raises what
-- the sinks can claim of it by the whole balance and, on top, by the rounded shares of all sinks
-- but the first.
pub distribute-credits :
    (token : ℕ) (s : Router) {s' : Router} (sinks : List Sink)
    → 0 < length sinks
    → s.sinks ≡ some sinks
    → distribute token s ≡ ok s'
    → (balance_of token s' ≡ 0)
      × (claims (s'.claimable token)
          ≡ claims (s.claimable token)
            + balance_of token s
            + other_shares (balance_of token s) sinks)
unfolding distribute
distribute-credits token s sinks p q h =
    elim (Call-cases (credit_sinks (balance_of token s) 0 0 sinks (s.claimable token))) [
      | inr f ↦ absurd (ground arith)
      | inl (d, r) ↦ (
        ground (arith, get-put s.balance token token 0),
        ground (arith, first_credit (balance_of token s) sinks (s.claimable token) p r),
      )
    ]
