-- ===== src/Staking/Tiers.antt =====
-- solver_registry: the tier of a solver is the highest whose thresholds it meets.
use vortex_contracts.Base.{
  ℕ, zero, suc, ◌≡◌, ◌≤◌, ◌<◌, ◌↔◌, refl, sym, subst, Bool, true, none, some, List, [], ◌∷◌, ◌&&◌,
  arith, ok, if◌then◌else◌, ltb, get_elem?,
}
use vortex_contracts.Base.Lists.{set}
use vortex_contracts.Staking.State.{TierThreshold, Staking, meets, tier_loop, tier_for}
use vortex_contracts.Staking.Admin.{default_thresholds, check_neighbours}
use vortex_contracts.Staking.Runs.{Reach, here, next}
use vortex_contracts.Staking.Kinds.{
  Change, configured, administered, tuned, joined, raised, lowered, left, written, nothing_done,
  taken, given_up, Step-Change,
}

abbrev below : TierThreshold → TierThreshold → Bool
below a b = ltb a.min_bond b.min_bond && ltb a.min_score_bps b.min_score_bps

-- Five rows, each above the one before it in both thresholds.
pub record IsLadder (rows : List TierThreshold) : Type 0 where
  pub a : TierThreshold
  pub b : TierThreshold
  pub c : TierThreshold
  pub d : TierThreshold
  pub e : TierThreshold
  pub shape : rows ≡ a ∷ b ∷ c ∷ d ∷ e ∷ []
  pub ab : below a b ≡ true
  pub bc : below b c ≡ true
  pub cd : below c d ≡ true
  pub de : below d e ≡ true

module _ (score bond : ℕ) (a b c d e : TierThreshold) where
  abbrev highest : ℕ
  highest =
      if meets score bond e
      then 4
      else (if meets score bond d
          then 3
          else (if meets score bond c then 2 else (if meets score bond b then 1 else 0)))

  tier_loop-highest : tier_loop (a ∷ b ∷ c ∷ d ∷ e ∷ []) score bond 5 0 0 ≡ ok highest
  unfolding tier_loop
  tier_loop-highest = ground arith

  highest-meets :
      (i : ℕ) (row : TierThreshold)
      → below a b ≡ true
      → below b c ≡ true
      → below c d ≡ true
      → below d e ≡ true
      → get_elem? (a ∷ b ∷ c ∷ d ∷ e ∷ []) (suc i) ≡ some row
      → (meets score bond row ≡ true) ↔ (suc i ≤ highest)
  highest-meets zero row p q r t h = (λ m. ground arith, λ m. ground arith)
  highest-meets (suc zero) row p q r t h = (λ m. ground arith, λ m. ground arith)
  highest-meets (suc (suc zero)) row p q r t h = (λ m. ground arith, λ m. ground arith)
  highest-meets (suc (suc (suc zero))) row p q r t h = (λ m. ground arith, λ m. ground arith)
  highest-meets (suc (suc (suc (suc i)))) row p q r t h = absurd (ground arith)

-- On a ladder the loop finds the highest row that is met.
tier_for-highest :
    (s : Staking) (rows : List TierThreshold) (score bond i : ℕ) (row : TierThreshold)
    → IsLadder rows
    → s.thresholds ≡ some rows
    → get_elem? rows (suc i) ≡ some row
    → (t : ℕ) × (tier_for score bond s ≡ ok t)
      × (t < 5)
      × ((meets score bond row ≡ true) ↔ (suc i ≤ t))
unfolding tier_for
tier_for-highest s rows score bond i row l p h =
    let t = highest score bond l.a l.b l.c l.d l.e in
    let there : get_elem? (l.a ∷ l.b ∷ l.c ∷ l.d ∷ l.e ∷ []) (suc i) ≡ some row =
      subst (λ (x : List TierThreshold). get_elem? x (suc i) ≡ some row) l.shape h in
    let loop = tier_loop-highest score bond l.a l.b l.c l.d l.e in
    let low : t < 5 = ground arith in
    (
      t,
      cc (p, l.shape, loop),
      low,
      highest-meets score bond l.a l.b l.c l.d l.e i row l.ab l.bc l.cd l.de there,
    )

default_IsLadder : IsLadder default_thresholds
default_IsLadder = record {
  a = record { min_bond = 500_000_000; min_score_bps = 0 };
  b = record { min_bond = 5_000_000_000; min_score_bps = 1_000 };
  c = record { min_bond = 20_000_000_000; min_score_bps = 3_500 };
  d = record { min_bond = 100_000_000_000; min_score_bps = 7_000 };
  e = record { min_bond = 500_000_000_000; min_score_bps = 9_000 };
  shape = refl;
  ab = refl;
  bc = refl;
  cd = refl;
  de = refl;
}

-- A row that passes the check of its neighbours keeps the ladder.
module _ (a b c d e row : TierThreshold) (ab : below a b ≡ true) (bc : below b c ≡ true)
    (cd : below c d ≡ true) (de : below d e ≡ true) where
  set_row-IsLadder :
      (tier : ℕ)
      → 0 < tier
      → tier < 5
      → check_neighbours tier row.min_bond row.min_score_bps (a ∷ b ∷ c ∷ d ∷ e ∷ []) ≡ ok tt
      → IsLadder (set (a ∷ b ∷ c ∷ d ∷ e ∷ []) tier row)
  unfolding check_neighbours
  set_row-IsLadder zero z f h = absurd (omega (arith, z))
  set_row-IsLadder (suc zero) z f h = record {
    a = a;
    b = row;
    c = c;
    d = d;
    e = e;
    shape = refl;
    ab = ground arith;
    bc = ground arith;
    cd = cd;
    de = de;
  }
  set_row-IsLadder (suc (suc zero)) z f h = record {
    a = a;
    b = b;
    c = row;
    d = d;
    e = e;
    shape = refl;
    ab = ab;
    bc = ground arith;
    cd = ground arith;
    de = de;
  }
  set_row-IsLadder (suc (suc (suc zero))) z f h = record {
    a = a;
    b = b;
    c = c;
    d = row;
    e = e;
    shape = refl;
    ab = ab;
    bc = bc;
    cd = ground arith;
    de = ground arith;
  }
  set_row-IsLadder (suc (suc (suc (suc zero)))) z f h = record {
    a = a;
    b = b;
    c = c;
    d = d;
    e = row;
    shape = refl;
    ab = ab;
    bc = bc;
    cd = cd;
    de = ground arith;
  }
  set_row-IsLadder (suc (suc (suc (suc (suc tier))))) z f h = absurd (omega (arith, f))

set-IsLadder :
    (rows : List TierThreshold) (row : TierThreshold) (tier : ℕ)
    → IsLadder rows
    → 0 < tier
    → tier < 5
    → check_neighbours tier row.min_bond row.min_score_bps rows ≡ ok tt
    → IsLadder (set rows tier row)
set-IsLadder rows row tier l z f h =
    let whole = l.a ∷ l.b ∷ l.c ∷ l.d ∷ l.e ∷ [] in
    subst (λ (x : List TierThreshold). IsLadder (set x tier row)) (sym l.shape)
      (set_row-IsLadder l.a l.b l.c l.d l.e row l.ab l.bc l.cd l.de tier z f (
        subst
          (λ (x : List TierThreshold).
            check_neighbours tier row.min_bond row.min_score_bps x ≡ ok tt)
          l.shape h))

-- The thresholds that are set are a ladder.
abbrev HasLadder : Staking → Type 0
HasLadder s = (rows : List TierThreshold) → s.thresholds ≡ some rows → IsLadder rows

module _ (s s' : Staking) (inv : HasLadder s) where
  HasLadder-kept : s'.thresholds ≡ s.thresholds → HasLadder s'
  HasLadder-kept p rows h = inv rows (cc (p, h))

  Change-HasLadder : {this : ℕ} → Change this s s' → HasLadder s'
  Change-HasLadder (configured admin token recipient f q) rows h =
      subst IsLadder (cc (q, h)) default_IsLadder
  Change-HasLadder (administered k) rows h = HasLadder-kept k.same_thresholds rows h
  Change-HasLadder (tuned k) rows h =
      subst IsLadder (cc (k.after, h))
        (set-IsLadder k.rows k.row k.tier (inv k.rows k.in_force) k.inner k.fits k.above)
  Change-HasLadder (joined token solver r t p other q) rows h = HasLadder-kept (cc q) rows h
  Change-HasLadder (raised token n solver r t p other q) rows h = HasLadder-kept (cc q) rows h
  Change-HasLadder (lowered token n solver r t p small q) rows h = HasLadder-kept (cc q) rows h
  Change-HasLadder (left solver r p q paid) rows h = HasLadder-kept (cc q) rows h
  Change-HasLadder (written action intent solver e here_ w) rows h =
      HasLadder-kept (cc w.written) rows h
  Change-HasLadder (nothing_done q) rows h = HasLadder-kept (cc q) rows h
  Change-HasLadder (taken solver intent f q) rows h = HasLadder-kept (cc q) rows h
  Change-HasLadder (given_up solver intent f q) rows h = HasLadder-kept (cc q) rows h

-- The thresholds of every run are a ladder.
Reach-IsLadder :
    {this : ℕ} {s t : Staking} {rows : List TierThreshold}
    → s.thresholds ≡ none
    → Reach this s t
    → t.thresholds ≡ some rows
    → IsLadder rows
Reach-IsLadder {this} {s} {t} {rows} z r h = ladders r rows h
  where
    ladders : {t : Staking} → Reach this s t → HasLadder t
    ladders here rows k = absurd (cc (z, k))
    ladders (next {t} {u} r w) rows k = Change-HasLadder t u (ladders r) (Step-Change w) rows k

-- After any sequence of successful calls from a registry without thresholds, the tier of a score
-- and a bond is defined and below 5 once thresholds are set, and it is at least a positive tier
-- of the table exactly if both thresholds of that tier are met.
pub Reach-tier_for :
    (this : ℕ) (s t : Staking) (rows : List TierThreshold) (score bond i : ℕ) (row : TierThreshold)
    → s.thresholds ≡ none
    → Reach this s t
    → t.thresholds ≡ some rows
    → get_elem? rows (suc i) ≡ some row
    → (tier : ℕ) × (tier_for score bond t ≡ ok tier)
      × (tier < 5)
      × ((meets score bond row ≡ true) ↔ (suc i ≤ tier))
Reach-tier_for this s t rows score bond i row z r h k =
    tier_for-highest t rows score bond i row (Reach-IsLadder z r h) h k
