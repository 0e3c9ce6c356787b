-- ===== src/Common/Rounds.antt =====
-- The rounding of the basis-point helpers against exact division.
use vortex_contracts.Base.{◌≡◌, refl, none, some, arith, inl, inr, Option-cases}
use vortex_contracts.Base.Int.{ℤ, pos, negsuc, ◌+ℤ◌, ◌*ℤ◌, quot, ◌≤ℤ◌}
use vortex_contracts.Common.Bps.{
  checked, bps_mul_div, bps_mul_div_round, bps_mul_div_ceil, rounded, ceiling, floor, ceil,
}

-- `c` is the least integer whose ten-thousandfold is at least the product.
pub record IsCeiling (c product : ℤ) : Type 0 where
  pub covers : product ≤ℤ c *ℤ pos 10_000
  pub tight : c *ℤ pos 10_000 ≤ℤ product +ℤ pos 9_999

checked_exact : (z : ℤ) {w : ℤ} → checked z ≡ some w → z ≡ w
checked_exact z h = ground arith

ceiling-IsCeiling : (p : ℤ) {c : ℤ} → checked p ≡ some p → ceiling p ≡ some c → IsCeiling c p
unfolding ceiling ◌*ℤ◌ ◌+ℤ◌
ceiling-IsCeiling (pos n) b h = ground arith
ceiling-IsCeiling (negsuc n) b h = ground arith

-- The product that a defined result comes from.
ceil_product :
    (a b : ℤ) {c : ℤ}
    → bps_mul_div_ceil a b ≡ some c
    → (checked (a *ℤ b) ≡ some (a *ℤ b)) × (ceiling (a *ℤ b) ≡ some c)
unfolding bps_mul_div_ceil
ceil_product a b h = elim (Option-cases (checked (a *ℤ b))) [
  | inl p ↦ absurd (ground arith)
  | inr (w, p) ↦ ground (arith, checked_exact (a *ℤ b) p)
]

floor_of :
    (a b : ℤ) → checked (a *ℤ b) ≡ some (a *ℤ b) → bps_mul_div a b ≡ some (quot (a *ℤ b) 10_000)
unfolding bps_mul_div
floor_of a b h = ground arith

ceiling_near :
    (p : ℤ) {c : ℤ}
    → checked p ≡ some p
    → ceiling p ≡ some c
    → (quot p 10_000 ≤ℤ c) × (c ≤ℤ quot p 10_000 +ℤ pos 1)
unfolding ceiling ◌+ℤ◌
ceiling_near (pos n) b h = ground arith
ceiling_near (negsuc n) b h = ground arith

-- A defined result of bps_mul_div_ceil is the least integer whose ten-thousandfold is at least
-- the product, for products of either sign; bps_mul_div is then defined too, and its result is
-- the same or one less.
pub bps_mul_div_ceil-rounds :
    (a b : ℤ) {c : ℤ}
    → bps_mul_div_ceil a b ≡ some c
    → IsCeiling c (a *ℤ b) × (f : ℤ) × (bps_mul_div a b ≡ some f) × (f ≤ℤ c) × (c ≤ℤ f +ℤ pos 1)
bps_mul_div_ceil-rounds a b h =
    let (p, q) = ceil_product a b h in
    (
      ceiling-IsCeiling (a *ℤ b) p q,
      quot (a *ℤ b) 10_000,
      floor_of a b p,
      (ceiling_near (a *ℤ b) p q).0,
      (ceiling_near (a *ℤ b) p q).1,
    )

-- The test on the remainder's sign is the test on the product's.
same_ceiling : (p : ℤ) → checked p ≡ some p → rounded ceil p ≡ ceiling p
unfolding rounded ceiling
same_ceiling (pos n) b = ground arith
same_ceiling (negsuc n) b = ground arith

-- With the floor direction bps_mul_div_round is bps_mul_div, and with the ceiling direction it is
-- bps_mul_div_ceil, overflows included.
bps_mul_div_round-directions :
    (a b : ℤ)
    → (bps_mul_div_round a b floor ≡ bps_mul_div a b)
      × (bps_mul_div_round a b ceil ≡ bps_mul_div_ceil a b)
unfolding bps_mul_div_round bps_mul_div bps_mul_div_ceil rounded
bps_mul_div_round-directions a b = elim (Option-cases (checked (a *ℤ b))) [
  | inl p ↦ (refl, ground arith)
  | inr (w, p) ↦ (refl, ground (arith, checked_exact (a *ℤ b) p, same_ceiling (a *ℤ b)))
]

-- A quotient by 10000 leaves room for one more.
ceiling_not_none : (p : ℤ) → checked p ≡ some p → ceiling p ≡ none → ⊥
unfolding ceiling ◌+ℤ◌
ceiling_not_none (pos n) b h = ground arith
ceiling_not_none (negsuc n) b h = ground arith

floor_product : (a b : ℤ) {f : ℤ} → bps_mul_div a b ≡ some f → checked (a *ℤ b) ≡ some (a *ℤ b)
unfolding bps_mul_div
floor_product a b h = elim (Option-cases (checked (a *ℤ b))) [
  | inl p ↦ absurd (ground arith)
  | inr (w, p) ↦ ground (arith, checked_exact (a *ℤ b) p)
]

-- The ceiling has a result wherever the floor has one.
bps_mul_div_ceil-defined :
    (a b : ℤ) {f : ℤ} → bps_mul_div a b ≡ some f → (c : ℤ) × (bps_mul_div_ceil a b ≡ some c)
unfolding bps_mul_div_ceil
bps_mul_div_ceil-defined a b h =
    let p = floor_product a b h in
    elim (Option-cases (ceiling (a *ℤ b))) [
      | inl q ↦ absurd (ceiling_not_none (a *ℤ b) p q)
      | inr (c, q) ↦ (c, ground (arith, p))
    ]
