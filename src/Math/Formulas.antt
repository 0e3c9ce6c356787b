-- ===== src/Math/Formulas.antt =====
-- intent_settlement/src/math.rs: slashes, fill windows, fees and the auction price. A `none` of
-- `apply_discount` and of `dutch_decay` is an arithmetic overflow, which traps.
use vortex_contracts.Base.{
  ℕ, ◌+◌, ◌-◌, ◌*◌, ◌/◌, min, max, ◌&&◌, ◌||◌, Option, none, some, List, [], ◌∷◌, ltb, leb, ◌==◌,
  if◌then◌else◌, get_or, get_elem?,
}
use vortex_contracts.Base.Checked.{u64_bound}
use vortex_contracts.Base.Int.{
  ℤ, pos, negsuc, pos_part, ◌-ℤ◌, ◌*ℤ◌, quot, ltb_ℤ, leb_ℤ, min_ℤ, max_ℤ,
}
use vortex_contracts.Common.Bps.{checked, ◌>>=!◌}

abbrev pub bps_denominator : ℕ
bps_denominator = 10_000

abbrev pub slash_bps : ℕ
slash_bps = 1_000

abbrev pub tier_fill_window_bonus_bps : List ℕ
tier_fill_window_bonus_bps = 0 ∷ 1_000 ∷ 2_000 ∷ 3_000 ∷ 5_000 ∷ []

abbrev pub tier_slash_bps : List ℕ
tier_slash_bps = 1_000 ∷ 1_000 ∷ 800 ∷ 600 ∷ 500 ∷ []

-- The index is in the table, so the default is never read.
abbrev pub at_tier : List ℕ → ℕ → ℕ
at_tier table tier = get_or (get_elem? table (min tier 4)) 0

-- A slash is never negative.
unfoldable pub compute_slash_amount : ℤ → ℤ → ℕ
compute_slash_amount (negsuc b) unfilled_amount = 0
compute_slash_amount (pos bond) unfilled_amount =
    let exposure = min (pos_part unfilled_amount) bond in
    let proportional = exposure / 10 in
    let cap = max (min ((bond / bps_denominator) * slash_bps) bond) 1 in
    if bond == 0 then 0 else min (max proportional 1) cap

unfoldable pub compute_slash_amount_tiered : ℤ → ℤ → ℕ → ℕ
compute_slash_amount_tiered (negsuc b) unfilled_amount tier = 0
compute_slash_amount_tiered (pos bond) unfilled_amount tier =
    let exposure = min (pos_part unfilled_amount) bond in
    let proportional = exposure / 10 in
    let cap = max (min ((bond / bps_denominator) * at_tier tier_slash_bps tier) bond) 1 in
    if bond == 0 then 0 else min (max proportional 1) cap

unfoldable pub tier_fill_window : ℕ → ℕ → ℕ
tier_fill_window tier base_fill_window =
    min (base_fill_window * (10_000 + at_tier tier_fill_window_bonus_bps tier)) (u64_bound - 1)
    / 10_000

unfoldable pub compute_fee : ℤ → ℤ → Option ℤ
compute_fee fill_amount effective_fee_bps =
    if ltb_ℤ effective_fee_bps (pos 0) || ltb_ℤ (pos bps_denominator) effective_fee_bps
    then none
    else checked (fill_amount *ℤ effective_fee_bps) >>=! λ p. some (quot p bps_denominator)

unfoldable pub apply_discount : ℤ → ℤ → Option ℤ
apply_discount base_fee_bps discount_bps =
    let capped = max_ℤ (min_ℤ discount_bps (pos bps_denominator)) (pos 0) in
    if leb_ℤ base_fee_bps (pos 0)
    then some (pos 0)
    else checked (base_fee_bps *ℤ capped) >>=! λ p.
        some (max_ℤ (base_fee_bps -ℤ quot p bps_denominator) (pos 0))

-- The price between the two ends of the decay.
unfoldable pub decayed : ℕ → ℤ → ℤ → ℕ → ℕ → Option ℤ
decayed now start min_dst_amount decay_start decay_end =
    checked (start -ℤ min_dst_amount) >>=! λ decay_amount.
    checked (decay_amount *ℤ pos (now - decay_start)) >>=! λ p.
    checked (start -ℤ quot p (decay_end - decay_start))

unfoldable pub dutch_decay : ℕ → Option ℤ → ℤ → Option ℕ → Option ℕ → Option ℤ
unfolding decayed
dutch_decay now (some start) min_dst_amount (some ds) (some de) =
    if ltb ds de && leb_ℤ min_dst_amount start
    then (if leb de now
        then some min_dst_amount
        else (if leb now ds then some start else decayed now start min_dst_amount ds de))
    else some min_dst_amount
dutch_decay now _ min_dst_amount _ _ = some min_dst_amount

unfoldable pub slash_bps_for_tier : ℕ → ℕ
slash_bps_for_tier tier = at_tier tier_slash_bps tier

unfoldable pub fill_window_bonus_bps_for_tier : ℕ → ℕ
fill_window_bonus_bps_for_tier tier = at_tier tier_fill_window_bonus_bps tier
