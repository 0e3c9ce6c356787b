-- ===== src/Vault/Examples/Claims.antt =====
-- The theorems of the vault, each at a concrete run.
use vortex_contracts.Base.{ℕ, ◌+◌, ◌-◌, ◌*◌, ◌≤◌, ◌≡◌, refl, arith}
use vortex_contracts.Base.Dict.{sum_by}
use vortex_contracts.Base.Int.{pos}
use vortex_contracts.Base.Token.{paid_out, paid_in}
use vortex_contracts.Vault.Examples.Core.{
  host_at, empty, opened, opened_runs, funded, funded_runs, left_, left__runs, opened_assets,
  opened_shares, funded_mode,
}
use vortex_contracts.Vault.Model.{
  virtual_shares, virtual_assets, load_total_assets, load_total_shares,
}
use vortex_contracts.Vault.Price.{deposit-price, withdraw-price, deposit-withdraw}
use vortex_contracts.Vault.Totals.{
  withdrawn, Reach, here, next, IsInitial, amount_of, deposited, Reach-totals,
}

abbrev init : IsInitial empty
init = record { no_admin = refl; no_shares = refl; no_queue = refl; no_calls = refl }

not_own : ◌≡◌ {A = ℕ} 20 99 → ⊥
not_own p = omega (arith, p)

abbrev reached : Reach 99 opened left_
reached =
    next (next here (deposited (host_at 0) 20 (pos 20_000_000) 20_000_000 refl not_own funded_runs))
      (withdrawn (host_at 200_000) 20 (pos 20_000_000) 20_000_000 refl left__runs)

Reach-totals_example :
    (load_total_shares left_ ≡ virtual_shares + sum_by amount_of left_.shares)
    × (left_.total_queued ≡ sum_by amount_of left_.withdraw_queue)
    × (load_total_assets left_ + paid_out 99 60 left_.calls
        ≡ virtual_assets + paid_in 99 60 left_.calls + left_.total_income)
Reach-totals_example = Reach-totals 99 (host_at 0) 10 60 50 init opened_runs reached

deposit-price_example :
    (load_total_assets funded ≡ load_total_assets opened + 20_000_000)
    × (load_total_shares funded ≡ load_total_shares opened + 20_000_000)
    × (load_total_assets opened * load_total_shares funded
        ≤ load_total_assets funded * load_total_shares opened)
deposit-price_example =
    deposit-price (host_at 0) 20 20_000_000 opened funded
      (omega (arith, opened_assets, opened_shares)) funded_runs

withdraw-price_example :
    (n : ℕ) × ((pos 20_000_000) ≡ pos n)
    × (load_total_assets left_ + 20_000_000 ≡ load_total_assets funded)
    × (load_total_shares left_ ≡ load_total_shares funded - n)
    × (load_total_assets funded * load_total_shares left_
        ≤ load_total_assets left_ * load_total_shares funded)
withdraw-price_example =
    withdraw-price (host_at 200_000) 20 (pos 20_000_000) funded left_ funded_mode left__runs

deposit-withdraw_example : 20_000_000 ≤ 20_000_000
deposit-withdraw_example =
    deposit-withdraw (host_at 0) (host_at 200_000) 20 20_000_000 opened funded left_
      (omega (arith, opened_assets, opened_shares)) funded_runs left__runs
