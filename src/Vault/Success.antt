-- ===== src/Vault/Success.antt =====
-- What each operation of the vault has found and written when it succeeds.
use vortex_contracts.Base.{
  ℕ, ◌+◌, ◌-◌, ◌*◌, ◌/◌, min, max, ◌≡◌, ◌≤◌, ◌<◌, ◌⊎◌, refl, subst, true, false, some, ◌∷◌, arith,
  ok, inl, inr, Call-cases, Bool-cases, Option-cases, ◌==◌,
}
use vortex_contracts.Base.Int.{ℤ, pos}
use vortex_contracts.Base.Dict.{put}
use vortex_contracts.Base.Token.{Host}
use vortex_contracts.Vault.Model.{
  Vault, Deposit, balance, load_total_assets, load_total_shares, load_config, mul_div,
  deposit_checks, deposit, withdraw_checks, withdraw, queue_withdrawal, pay_withdrawal, burn,
  process_queued_withdrawal, cover, receive_income, rescue_tokens, transfer, significant,
}

pub mul_div-eq-ok : (a b c : ℕ) {q : ℕ} → mul_div a b c ≡ ok q → (q ≡ (a * b) / c) × (0 < c)
unfolding mul_div
mul_div-eq-ok a b c h = ground arith

module _ (e : Host) (s : Vault) where
  -- A deposit that passes: what it mints is the share of the assets, rounded down, or 1.
  pub record CanDeposit (lp : ℕ) (amount : ℤ) (d : Deposit) : Type 0 where
    pub amount_exact : amount ≡ pos d.amount
    pub enough : (load_config s).min_deposit ≤ d.amount
    pub minted_exact : d.minted ≡ max ((d.amount * load_total_shares s) / load_total_assets s) 1
    pub has_assets : 0 < load_total_assets s
    pub token_found : s.bond_token ≡ some d.token

  deposit_checks-CanDeposit :
      (lp : ℕ) (amount : ℤ) {d : Deposit}
      → deposit_checks e lp amount s ≡ ok d
      → CanDeposit lp amount d
  unfolding deposit_checks mul_div load_config
  deposit_checks-CanDeposit lp amount h = ground arith

  pub deposit-eq-ok :
      (lp : ℕ) (amount : ℤ) {n : ℕ} {s' : Vault}
      → deposit e lp amount s ≡ ok (n, s')
      → (d : Deposit) × CanDeposit lp amount d
        × (n ≡ d.minted)
        × (s' ≡ record s {
          shares = put s.shares lp (balance s.shares lp + d.minted);
          stored_shares = some (load_total_shares s + d.minted);
          stored_assets = some (load_total_assets s + d.amount);
          withdraw_cooldown = s'.withdraw_cooldown;
          calls = record { token = d.token; from = lp; to = e.this; amount = d.amount } ∷ s.calls;
        })
  unfolding deposit transfer
  deposit-eq-ok lp amount h = elim (Call-cases (deposit_checks e lp amount s)) [
    | inr f ↦ absurd (ground arith)
    | inl (d, p) ↦ elim (Call-cases (significant d.amount (balance s.shares lp) s)) [
      | inr f ↦ absurd (ground arith)
      | inl (b, q) ↦ (d, deposit_checks-CanDeposit lp amount p, ground arith, ground arith)
    ]
  ]

  -- A withdrawal that passes: the value of the shares, rounded down.
  pub record CanWithdraw (lp n out : ℕ) : Type 0 where
    pub not_zero : 0 < n
    pub covered : n ≤ balance s.shares lp
    pub cooled : s.withdraw_cooldown lp ≤ e.now
    pub has_shares : 0 < load_total_shares s
    pub out_exact : out ≡ (n * load_total_assets s) / load_total_shares s

  withdraw_checks-CanWithdraw :
      (lp : ℕ) (shares : ℤ) {c : ℕ × ℕ}
      → withdraw_checks e lp shares s ≡ ok c
      → (shares ≡ pos c.0) × CanWithdraw lp c.0 c.1
  unfolding withdraw_checks mul_div
  withdraw_checks-CanWithdraw lp shares h = ground arith

  -- The two ends of a withdrawal, by the mode.
  pub record Queued (lp n out : ℕ) (s' : Vault) : Type 0 where
    pub in_emergency : s.emergency_mode ≡ true
    pub after : s' ≡ record s {
      shares = put s.shares lp (balance s.shares lp - n);
      stored_shares = some (load_total_shares s - n);
      withdraw_queue = put s.withdraw_queue lp (balance s.withdraw_queue lp + out);
      total_queued = s.total_queued + out;
    }

  pub record Paid (lp n out : ℕ) (s' : Vault) : Type 0 where
    pub no_emergency : s.emergency_mode ≡ false
    pub solvent : out ≤ load_total_assets s
    pub token : ℕ
    pub token_found : s.bond_token ≡ some token
    pub after : s' ≡ record s {
      shares = put s.shares lp (balance s.shares lp - n);
      stored_shares = some (load_total_shares s - n);
      stored_assets = some (load_total_assets s - out);
      calls = record { token = token; from = e.this; to = lp; amount = out } ∷ s.calls;
    }

  queue-Queued :
      (lp n out : ℕ) {s' : Vault}
      → s.emergency_mode ≡ true
      → queue_withdrawal lp n out s ≡ ok s'
      → Queued lp n out s'
  unfolding queue_withdrawal burn load_total_shares
  queue-Queued lp n out m h = ground arith

  pay-Paid :
      (lp n out : ℕ) {s' : Vault}
      → s.emergency_mode ≡ false
      → pay_withdrawal e lp n out s ≡ ok s'
      → Paid lp n out s'
  unfolding pay_withdrawal burn transfer load_total_shares
  pay-Paid lp n out m h = ground arith

  pub withdraw-eq-ok :
      (lp : ℕ) (shares : ℤ) {out : ℕ} {s' : Vault}
      → withdraw e lp shares s ≡ ok (out, s')
      → (n : ℕ) × (shares ≡ pos n) × CanWithdraw lp n out × (Queued lp n out s' ⊎ Paid lp n out s')
  unfolding withdraw
  withdraw-eq-ok lp shares {out} {s'} h = elim (Call-cases (withdraw_checks e lp shares s)) [
    | inr f ↦ absurd (ground arith)
    | inl ((n, o), p) ↦
        let c = withdraw_checks-CanWithdraw lp shares p in
        elim (Bool-cases s.emergency_mode) [
          | inl m ↦ elim (Call-cases (queue_withdrawal lp n o s)) [
            | inr f ↦ absurd (ground arith)
            | inl (s1, q) ↦ (
              n,
              c.0,
              subst (CanWithdraw lp n) (ground arith) c.1,
              inl (queue-Queued lp n out m (ground arith)),
            )
          ]
          | inr m ↦ elim (Call-cases (pay_withdrawal e lp n o s)) [
            | inr f ↦ absurd (ground arith)
            | inl (s1, q) ↦ (
              n,
              c.0,
              subst (CanWithdraw lp n) (ground arith) c.1,
              inr (pay-Paid lp n out m (ground arith)),
            )
          ]
        ]
  ]

  pub process-eq-ok :
      (lp : ℕ) {s' : Vault}
      → process_queued_withdrawal e lp s ≡ ok s'
      → (token : ℕ) × (s.bond_token ≡ some token)
        × (0 < balance s.withdraw_queue lp)
        × (s'
            ≡ let payout = min (balance s.withdraw_queue lp) (load_total_assets s) in
              record s {
                withdraw_queue = put s.withdraw_queue lp 0;
                total_queued = s.total_queued - balance s.withdraw_queue lp;
                stored_assets = some (load_total_assets s - payout);
                calls = record { token = token; from = e.this; to = lp; amount = payout } ∷ s.calls;
              })
  unfolding process_queued_withdrawal transfer
  process-eq-ok lp h = elim (Option-cases s.bond_token) [
    | inl p ↦ absurd (ground arith)
    | inr (token, p) ↦ (token, p, ground arith, ground arith)
  ]

  pub cover-eq-ok :
      (amount : ℤ) (recipient : ℕ) {s' : Vault}
      → cover e amount recipient s ≡ ok s'
      → (n : ℕ) × (token : ℕ) × (amount ≡ pos n)
        × (s.bond_token ≡ some token)
        × (s'
            ≡ let payout = min n (load_total_assets s) in
              record s {
                stored_assets = some (load_total_assets s - payout);
                total_cover_paid = s.total_cover_paid + payout;
                calls =
                    record { token = token; from = e.this; to = recipient; amount = payout }
                    ∷ s.calls;
              })
  unfolding cover transfer
  cover-eq-ok (pos n) recipient h = elim (Option-cases s.bond_token) [
    | inl p ↦ absurd (ground arith)
    | inr (token, p) ↦ (n, token, refl, p, ground arith)
  ]
  cover-eq-ok (ℤ.negsuc n) recipient h = absurd (ground arith)

  pub receive_income-eq-ok :
      (amount : ℤ) {s' : Vault}
      → receive_income e amount s ≡ ok s'
      → (n : ℕ) × (amount ≡ pos n)
        × (s' ≡ record s {
          stored_assets = some (load_total_assets s + n);
          total_income = s.total_income + n;
        })
  unfolding receive_income
  receive_income-eq-ok (pos n) h = (n, refl, ground arith)
  receive_income-eq-ok (ℤ.negsuc n) h = absurd (ground arith)

  pub rescue_tokens-eq-ok :
      (token : ℕ) (amount : ℤ) (recipient : ℕ) {s' : Vault}
      → rescue_tokens e token amount recipient s ≡ ok s'
      → (n : ℕ) × (bond : ℕ) × (s.bond_token ≡ some bond)
        × ((token == bond) ≡ false)
        × (s' ≡ record s {
          calls = record { token = token; from = e.this; to = recipient; amount = n } ∷ s.calls;
        })
  unfolding rescue_tokens transfer
  rescue_tokens-eq-ok token (pos n) recipient h = elim (Option-cases s.bond_token) [
    | inl p ↦ absurd (ground arith)
    | inr (bond, p) ↦ (n, bond, p, ground arith, ground arith)
  ]
  rescue_tokens-eq-ok token (ℤ.negsuc n) recipient h = absurd (ground arith)
