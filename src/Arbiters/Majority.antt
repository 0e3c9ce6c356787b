-- ===== src/Arbiters/Majority.antt =====
-- The votes that decide a round.
use vortex_contracts.Base.{ℕ, ◌+◌, ◌-◌, ◌*◌, ◌/◌, ◌≡◌, ◌≤◌, ◌<◌, arith, ok}
use vortex_contracts.Base.Division.{mul_le_mul_right}
use native.Mathlib.Nat.{div-add-mod, mod-lt, lt_of_mul-lt-mul_left, mul-add, add-mul}
use vortex_contracts.Arbiters.Rounds.{scaled_threshold}

-- `q` is a quotient of `x` by `n`, rounded up.
rounded_up : (x n : ℕ) → 0 < n → (x ≤ n * ((x + n - 1) / n)) × (n * ((x + n - 1) / n) < x + n)
rounded_up x n h = omega (arith, div-add-mod (x + n - 1) n, mod-lt (x + n - 1) {m = n} h)

cancel : (k m n : ℕ) → k * m < k * n → m < n
cancel k m n p = lt_of_mul-lt-mul_left k p

majority_of :
    (m k n q : ℕ)
    → m ≤ n
    → n < m + m
    → 0 < k
    → m * k ≤ n * q
    → n * q < m * k + n
    → (k < q + q) × (q ≤ k)
majority_of m k n q h p z a b =
    let low : n * k < n * (q + q) = omega (
      arith,
      a,
      z,
      mul_le_mul_right k (n + 1) (m + m) (omega (arith, p)),
      mul-add n q q,
      add-mul n 1 k,
      add-mul m m k,
    ) in
    let high : n * q < n * (k + 1) = omega (arith, b, mul_le_mul_right k m n h, mul-add n k 1) in
    (cancel n k (q + q) low, omega (arith, cancel n q (k + 1) high))

-- If the threshold is more than half of the panel size and at most the panel size, the threshold
-- scaled to a smaller panel of at least one member, where no product overflows, is more than half
-- of that panel and at most all of it.
pub scaled_threshold-majority :
    (m k n : ℕ) {t : ℕ}
    → m ≤ n
    → n < m + m
    → 0 < k
    → scaled_threshold m k n ≡ ok t
    → (k < t + t) × (t ≤ k)
unfolding scaled_threshold
scaled_threshold-majority m k n h p z e =
    let q = (m * k + n - 1) / n in
    let (a, b) = rounded_up (m * k) n (omega (arith, h, p)) in
    let (c, d) = majority_of m k n q h p z a b in ground (arith, c, d)
