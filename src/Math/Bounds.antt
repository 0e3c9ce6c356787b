-- ===== src/Math/Bounds.antt =====
-- The ranges of the results of the pure helpers.
use vortex_contracts.Base.{
  ℕ, zero, suc, ◌+◌, ◌-◌, ◌*◌, ◌/◌, min, ◌≡◌, ◌≤◌, ◌<◌, sym, subst, get_or, get_elem?, false,
  Option, none, some, arith, inl, inr, Bool-cases, ltb, leb, ◌&&◌,
}
use vortex_contracts.Base.Int.{ℤ, pos, negsuc, ◌≤ℤ◌, ◌-ℤ◌, ◌*ℤ◌}
use vortex_contracts.Base.Division.{mul_div_le}
use vortex_contracts.Math.Formulas.{
  compute_slash_amount, compute_slash_amount_tiered, compute_fee, apply_discount, dutch_decay,
  decayed, at_tier, tier_slash_bps,
}

tier_rate : (tier : ℕ) → (500 ≤ at_tier tier_slash_bps tier) × (at_tier tier_slash_bps tier ≤ 1_000)
tier_rate zero = omega arith
tier_rate (suc zero) = omega arith
tier_rate (suc (suc zero)) = omega arith
tier_rate (suc (suc (suc zero))) = omega arith
tier_rate (suc (suc (suc (suc tier)))) =
    subst
      (λ (k : ℕ).
        (500 ≤ get_or (get_elem? tier_slash_bps k) 0)
        × (get_or (get_elem? tier_slash_bps k) 0 ≤ 1_000))
      (sym (at_most_four tier)) (omega arith)
  where
    at_most_four : (tier : ℕ) → min (suc (suc (suc (suc tier)))) 4 ≡ 4
    at_most_four tier = omega arith

capped : (q r b : ℕ) → r ≤ 1_000 → q * r ≤ q * 1_000
capped q r b h = grind arith

-- On a positive bond the tiered slash is at least 1, at most the bond, and at most the slash of
-- the flat rate, for every tier.
compute_slash_amount_tiered-bounds :
    (bond tier : ℕ) (unfilled : ℤ)
    → 0 < bond
    → (1 ≤ compute_slash_amount_tiered (pos bond) unfilled tier)
      × (compute_slash_amount_tiered (pos bond) unfilled tier ≤ bond)
      × (compute_slash_amount_tiered (pos bond) unfilled tier
          ≤ compute_slash_amount (pos bond) unfilled)
unfolding compute_slash_amount_tiered compute_slash_amount
compute_slash_amount_tiered-bounds bond tier unfilled h =
    ground (arith, capped (bond / 10_000) (at_tier tier_slash_bps tier) bond (tier_rate tier).1)

fee_share : (a b : ℕ) → b ≤ 10_000 → (a * b) / 10_000 ≤ a
fee_share a b h = mul_div_le a b 10_000 h

-- On a fill amount that is not negative a defined fee is at least 0 and at most the amount.
compute_fee-bounds :
    (a : ℕ) (b : ℤ) {f : ℤ} → compute_fee (pos a) b ≡ some f → (pos 0 ≤ℤ f) × (f ≤ℤ pos a)
unfolding compute_fee ◌*ℤ◌
compute_fee-bounds a (pos b) h = ground (arith, fee_share a b)
compute_fee-bounds a (negsuc b) h = absurd (ground arith)

-- A discounted rate is at least 0 and at most a base rate that is not negative.
apply_discount-bounds :
    (base : ℕ) (d : ℤ) {r : ℤ}
    → apply_discount (pos base) d ≡ some r
    → (pos 0 ≤ℤ r) × (r ≤ℤ pos base)
unfolding apply_discount ◌*ℤ◌ ◌-ℤ◌
apply_discount-bounds base (pos d) h = ground (arith, fee_share base d, fee_share base 10_000)
apply_discount-bounds base (negsuc d) h = ground (arith, fee_share base 0)

-- The part of a decay that has passed.
decayed_between :
    (now ds de : ℕ) (start m : ℤ) {v : ℤ}
    → ds < now
    → now < de
    → m ≤ℤ start
    → decayed now start m ds de ≡ some v
    → (m ≤ℤ v) × (v ≤ℤ start)
unfolding decayed ◌*ℤ◌ ◌-ℤ◌
decayed_between now ds de (pos a) (pos b) p q r h =
    ground (arith, mul_div_le (a - b) (now - ds) (de - ds))
decayed_between now ds de (pos a) (negsuc b) p q r h =
    ground (arith, mul_div_le (a + suc b) (now - ds) (de - ds))
decayed_between now ds de (negsuc a) (pos b) p q r h = absurd (omega (arith, r))
decayed_between now ds de (negsuc a) (negsuc b) p q r h =
    ground (arith, mul_div_le (b - a) (now - ds) (de - ds))

-- Outside the decay the price is one of its two ends.
dutch_decay_ends :
    (now : ℕ) (start m : ℤ) (ds de : ℕ) {v : ℤ}
    → m ≤ℤ start
    → (ltb ds now && ltb now de) ≡ false
    → dutch_decay now (some start) m (some ds) (some de) ≡ some v
    → (m ≤ℤ v) × (v ≤ℤ start)
unfolding dutch_decay
dutch_decay_ends now start m ds de r p h = elim (Bool-cases (leb de now)) [
  | inl q ↦ ground arith
  | inr q ↦ elim (Bool-cases (leb now ds)) [ inl w ↦ ground arith | inr w ↦ absurd (ground arith) ]
]

-- If the minimum is at most the start price, the price of an auction at any time, where it is
-- defined, is between the minimum and the start price, whether the bounds of the decay are given
-- or not.
pub dutch_decay-bounds :
    (now : ℕ) (start m : ℤ) (ds de : Option ℕ) {v : ℤ}
    → m ≤ℤ start
    → dutch_decay now (some start) m ds de ≡ some v
    → (m ≤ℤ v) × (v ≤ℤ start)
unfolding dutch_decay
dutch_decay-bounds now start m (some ds) (some de) {v} r h =
    elim (Bool-cases (ltb ds now && ltb now de)) [
      | inl p ↦ decayed_between now ds de start m (ground arith) (ground arith) r (ground arith)
      | inr p ↦ dutch_decay_ends now start m ds de r p h
    ]
dutch_decay-bounds now start m none de r h = ground arith
dutch_decay-bounds now start m (some ds) none r h = ground arith
