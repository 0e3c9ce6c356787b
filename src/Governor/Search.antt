-- ===== src/Governor/Search.antt =====
-- The binary search for the power at a ledger, against a scan of the checkpoints.
use vortex_contracts.Base.{
  ℕ, zero, suc, ◌+◌, ◌-◌, ◌/◌, ◌≡◌, ◌≤◌, ◌<◌, refl, none, some, List, [], ◌∷◌, arith, inl, inr,
  Bool-cases, ltb, leb, if◌then◌else◌, get_elem?, length,
}
use vortex_contracts.Base.Int.{ℤ, pos}
use vortex_contracts.Governor.Power.{Checkpoint, search_loop, power_before, search}

-- The power of the last checkpoint at or before a ledger, and `latest` if there is none.
unfoldable pub power_at : ℤ → List Checkpoint → ℕ → ℤ
power_at latest [] ledger = latest
power_at latest (c ∷ checkpoints) ledger =
    power_at (if leb c.ledger ledger then c.power else latest) checkpoints ledger

unfoldable pub ledger_at : List Checkpoint → ℕ → ℕ
ledger_at [] i = 0
ledger_at (c ∷ checkpoints) zero = c.ledger
ledger_at (c ∷ checkpoints) (suc i) = ledger_at checkpoints i

-- The checkpoints stand in the order of their ledgers.
abbrev pub IsSorted : List Checkpoint → Type 0
IsSorted l = (i j : ℕ) → i ≤ j → j < length l → ledger_at l i ≤ ledger_at l j

-- The checkpoints before `r` are at or before the ledger, and the others after it.
record Splits (l : List Checkpoint) (ledger r : ℕ) : Type 0 where
  inside : r ≤ length l
  below : (i : ℕ) → i < r → ledger_at l i ≤ ledger
  above : (i : ℕ) → r ≤ i → i < length l → ledger < ledger_at l i

get_at :
    (l : List Checkpoint) (i : ℕ)
    → i < length l
    → (c : Checkpoint) × (get_elem? l i ≡ some c) × (c.ledger ≡ ledger_at l i)
unfolding ledger_at
get_at [] i h = absurd (omega (arith, h))
get_at (c ∷ l) zero h = (c, refl, refl)
get_at (c ∷ l) (suc i) h = get_at l i (omega (arith, h))

module _ (l : List Checkpoint) (ledger : ℕ) (sorted : IsSorted l) where
  search_loop-Splits :
      (fuel low high : ℕ)
      → low ≤ high
      → high ≤ length l
      → high - low < fuel
      → ((i : ℕ) → i < low → ledger_at l i ≤ ledger)
      → ((i : ℕ) → high ≤ i → i < length l → ledger < ledger_at l i)
      → (r : ℕ) × (search_loop fuel l ledger low high ≡ some r) × Splits l ledger r
  unfolding search_loop
  search_loop-Splits zero low high a b f p q = absurd (omega (arith, f))
  search_loop-Splits (suc fuel) low high a b f p q = elim (Bool-cases (ltb low high)) [
    | inr h ↦ (
      low,
      ground (arith, h),
      record { inside = omega (arith, a, b); below = p; above = λ i u v. q i (ground arith) v },
    )
    | inl h ↦
        let mid = (low + high) / 2 in
        let inside : mid < high = ground arith in
        let (c, e, k) = get_at l mid (omega (arith, inside, b)) in
        elim (Bool-cases (leb c.ledger ledger)) [
          | inl t ↦
              let (r, g, s) =
                search_loop-Splits fuel (mid + 1) high (omega (arith, inside)) b (ground arith)
                  (λ i u. ground (arith, sorted i mid, k, inside)) q in
              (r, ground (arith, h, e, t, g), s)
          | inr t ↦
              let (r, g, s) =
                search_loop-Splits fuel low mid (ground arith) (omega (arith, inside, b))
                  (ground arith) p (λ i u v. ground (arith, sorted mid i, k)) in
              (r, ground (arith, h, e, t, g), s)
        ]
  ]

value : ℤ → List Checkpoint → ℕ → ℤ
value latest l zero = latest
value latest l (suc i) = elim (get_elem? l i) [ none ↦ latest | some c ↦ c.power ]

Splits-tail :
    (c : Checkpoint) (l : List Checkpoint) (ledger r : ℕ)
    → Splits (c ∷ l) ledger (suc r)
    → Splits l ledger r
unfolding ledger_at
Splits-tail c l ledger r s = record {
  inside = omega (arith, s.inside);
  below = λ i h. s.below (suc i) (omega (arith, h));
  above = λ i h k. s.above (suc i) (omega (arith, h)) (omega (arith, k));
}

Splits-none :
    (c : Checkpoint) (l : List Checkpoint) (ledger : ℕ)
    → Splits (c ∷ l) ledger zero
    → Splits l ledger zero
unfolding ledger_at
Splits-none c l ledger s = record {
  inside = omega arith;
  below = λ i h. absurd (omega (arith, h));
  above = λ i h k. s.above (suc i) (omega arith) (omega (arith, k));
}

power_at-value :
    (latest : ℤ) (l : List Checkpoint) (ledger r : ℕ)
    → Splits l ledger r
    → power_at latest l ledger ≡ value latest l r
unfolding power_at value ledger_at
power_at-value latest [] ledger zero s = refl
power_at-value latest [] ledger (suc r) s = absurd (omega (arith, s.inside))
power_at-value latest (c ∷ l) ledger zero s =
    ground (arith, s.above 0, power_at-value latest l ledger zero (Splits-none c l ledger s))
power_at-value latest (c ∷ l) ledger (suc zero) s =
    ground (arith, s.below 0, power_at-value c.power l ledger zero (Splits-tail c l ledger zero s))
power_at-value latest (c ∷ l) ledger (suc (suc r)) s =
    let (d, e, _) = get_at l r (omega (arith, s.inside)) in
    ground (
      arith,
      e,
      s.below 0,
      power_at-value c.power l ledger (suc r) (Splits-tail c l ledger (suc r) s),
    )

power_before-value :
    (l : List Checkpoint) (r : ℕ) → r ≤ length l → power_before l r ≡ some (value (pos 0) l r)
unfolding value
power_before-value l zero h = refl
power_before-value l (suc i) h = let (c, e, _) = get_at l i (omega (arith, h)) in ground (arith, e)

-- On checkpoints in the order of their ledgers the binary search ends within one round more than
-- there are checkpoints, reads no position out of bounds, and gives the power of the last
-- checkpoint at or before the ledger, or 0 if there is none.
pub search-power_at :
    (l : List Checkpoint) (ledger : ℕ)
    → IsSorted l
    → search l ledger ≡ some (power_at (pos 0) l ledger)
unfolding search
search-power_at [] ledger sorted = unfold power_at in refl
search-power_at (c ∷ l) ledger sorted =
    let all = c ∷ l in
    let (r, e, s) =
      search_loop-Splits all ledger sorted (length all + 1) 0 (length all) (omega arith)
        (omega arith) (omega arith) (λ i h. absurd (omega (arith, h)))
        (λ i h k. absurd (omega (arith, h, k))) in
    ground (arith, e, power_before-value all r s.inside, power_at-value (pos 0) all ledger r s)
