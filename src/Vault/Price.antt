-- ===== src/Vault/Price.antt =====
-- The price of a share, the assets over the shares, compared by cross products.
use vortex_contracts.Base.{
  ℕ, ◌+◌, ◌-◌, ◌*◌, ◌/◌, max, ◌≡◌, ◌≤◌, ◌<◌, sym, subst, ap, false, arith, ok, inl, inr,
}
use vortex_contracts.Base.Int.{ℤ, pos}
use vortex_contracts.Base.Division.{div_le_of, le_div_of, div_mul_le}
use vortex_contracts.Base.Token.{Host}
use vortex_contracts.Vault.Model.{
  Vault, Deposit, load_total_assets, load_total_shares, deposit, withdraw,
}
use vortex_contracts.Vault.Success.{CanDeposit, deposit-eq-ok, withdraw-eq-ok, CanWithdraw}
use native.Mathlib.Nat.{mul_comm, mul-add, add-mul, mul-sub}

-- A share of at least 1 is not raised to 1.
floor_minted : (a n c : ℕ) → 0 < c → c ≤ a * n → c * max ((a * n) / c) 1 ≤ a * n
floor_minted a n c p h =
    let one = le_div_of 1 (a * n) c p (omega (arith, h)) in
    omega (arith, div_mul_le (a * n) c, ap (λ (q : ℕ). c * q) (max_left ((a * n) / c) one))
  where
    max_left : (q : ℕ) → 1 ≤ q → max q 1 ≡ q
    max_left q l = omega (arith, l)

price_up : (A S a n : ℕ) → A * n ≤ a * S → A * (S + n) ≤ (A + a) * S
price_up A S a n h = omega (arith, h, mul-add A S n, add-mul A a S)

price_kept : (A S out n : ℕ) → out * S ≤ n * A → A * (S - n) ≤ (A - out) * S
price_kept A S out n h = omega (
  arith,
  h,
  mul-sub A S n,
  mul-sub S A out,
  mul_comm (A - out) S,
  mul_comm S A,
  mul_comm S out,
  mul_comm A n,
)

no_gain : (A S a n : ℕ) → A * n ≤ a * S → n * (A + a) ≤ (S + n) * a
no_gain A S a n h = omega (arith, h, mul-add n A a, add-mul S n a, mul_comm n A, mul_comm S a)

no_gain_at : (A S a n A1 S1 : ℕ) → A1 ≡ A + a → S1 ≡ S + n → A * n ≤ a * S → n * A1 ≤ S1 * a
no_gain_at A S a n A1 S1 p q h =
    subst (λ (z : ℕ). n * z ≤ S1 * a) (sym p)
      (subst (λ (z : ℕ). n * (A + a) ≤ z * a) (sym q) (no_gain A S a n h))

minted_fair :
    (e : Host) (s : Vault) (lp a : ℕ) {n : ℕ} {d : Deposit}
    → load_total_assets s ≤ a * load_total_shares s
    → CanDeposit e s lp (pos a) d
    → n ≡ d.minted
    → load_total_assets s * n ≤ a * load_total_shares s
minted_fair e s lp a b p k = ground (
  arith,
  p.has_assets,
  p.minted_exact,
  p.amount_exact,
  k,
  floor_minted a (load_total_shares s) (load_total_assets s),
)

out_fair :
    (e : Host) (s : Vault) (lp n out : ℕ)
    → CanWithdraw e s lp n out
    → out * load_total_shares s ≤ n * load_total_assets s
out_fair e s lp n out p = omega (
  arith,
  p.out_exact,
  div_mul_le (n * load_total_assets s) (load_total_shares s),
  mul_comm out (load_total_shares s),
  ap (λ (z : ℕ). load_total_shares s * z) p.out_exact,
)

-- A successful deposit whose amount is worth at least one share adds the amount to the assets and
-- the minted shares to the shares, and does not lower the assets per share.
pub deposit-price :
    (e : Host) (lp a : ℕ) (s s' : Vault) {n : ℕ}
    → load_total_assets s ≤ a * load_total_shares s
    → deposit e lp (pos a) s ≡ ok (n, s')
    → (load_total_assets s' ≡ load_total_assets s + a)
      × (load_total_shares s' ≡ load_total_shares s + n)
      × (load_total_assets s * load_total_shares s' ≤ load_total_assets s' * load_total_shares s)
unfolding load_total_assets load_total_shares
deposit-price e lp a s s' {n} b h =
    let (d, p, k, w) = deposit-eq-ok e s lp (pos a) h in
    let assets : load_total_assets s' ≡ load_total_assets s + a =
      ground (arith, w, p.amount_exact) in
    let shares : load_total_shares s' ≡ load_total_shares s + n = ground (arith, w, k) in
    let fair = minted_fair e s lp a b p k in
    (
      assets,
      shares,
      subst (λ (z : ℕ). load_total_assets s * z ≤ load_total_assets s' * load_total_shares s)
          (sym shares)
          (subst
            (λ (z : ℕ). load_total_assets s * (load_total_shares s + n) ≤ z * load_total_shares s)
            (sym assets) (price_up (load_total_assets s) (load_total_shares s) a n fair)),
    )

-- Outside emergency mode, a successful withdrawal takes what it pays from the assets and the
-- burned shares from the shares, and does not lower the assets per share.
pub withdraw-price :
    (e : Host) (lp : ℕ) (m : ℤ) (s s' : Vault) {out : ℕ}
    → s.emergency_mode ≡ false
    → withdraw e lp m s ≡ ok (out, s')
    → (n : ℕ) × (m ≡ pos n)
      × (load_total_assets s' + out ≡ load_total_assets s)
      × (load_total_shares s' ≡ load_total_shares s - n)
      × (load_total_assets s * load_total_shares s' ≤ load_total_assets s' * load_total_shares s)
unfolding load_total_assets load_total_shares
withdraw-price e lp m s s' {out} b h =
    let (n, k, p, way) = withdraw-eq-ok e s lp m h in
    elim way [
      | inl q ↦ absurd (ground (arith, q.in_emergency))
      | inr q ↦
          let assets : load_total_assets s' ≡ load_total_assets s - out = ground (arith, q.after) in
          let shares : load_total_shares s' ≡ load_total_shares s - n = ground (arith, q.after) in
          (
            n,
            k,
            omega (arith, assets, q.solvent),
            shares,
            subst (λ (z : ℕ). load_total_assets s * z ≤ load_total_assets s' * load_total_shares s)
                (sym shares)
                (subst
                  (λ (z : ℕ).
                    load_total_assets s * (load_total_shares s - n) ≤ z * load_total_shares s)
                  (sym assets)
                  (price_kept (load_total_assets s) (load_total_shares s) out n
                    (out_fair e s lp n out p))),
          )
    ]

-- If a deposit worth at least one share is followed by the withdrawal of exactly the shares it
-- minted, the withdrawal gives at most the amount deposited.
pub deposit-withdraw :
    (e e' : Host) (lp a : ℕ) (s s1 s2 : Vault) {n out : ℕ}
    → load_total_assets s ≤ a * load_total_shares s
    → deposit e lp (pos a) s ≡ ok (n, s1)
    → withdraw e' lp (pos n) s1 ≡ ok (out, s2)
    → out ≤ a
deposit-withdraw e e' lp a s s1 s2 {n} {out} b h g =
    let (assets, shares, _) = deposit-price e lp a s s1 b h in
    let (k, q, p, way) = withdraw-eq-ok e' s1 lp (pos n) g in
    let (d, c, j, w) = deposit-eq-ok e s lp (pos a) h in
    let same : n ≡ k = ground (arith, q) in
    let gain =
      no_gain_at (load_total_assets s) (load_total_shares s) a n (load_total_assets s1)
        (load_total_shares s1) assets shares (minted_fair e s lp a b c j) in
    let at_k = subst (λ (z : ℕ). z * load_total_assets s1 ≤ load_total_shares s1 * a) same gain in
    omega (arith, p.out_exact, div_le_of (k * load_total_assets s1) a (load_total_shares s1) at_k)
