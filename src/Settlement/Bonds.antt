-- ===== src/Settlement/Bonds.antt =====
-- intent_settlement/src/lib.rs: a solver's bonds in each token, the slash formula, the tier
-- bonus; oracle.rs and the notional value of an exposure; the list of a solver's intents.
use vortex_contracts.Base.{
  ℕ, zero, suc, ◌+◌, ◌-◌, ◌*◌, ◌/◌, ◌^◌, min, max, Bool, false, not, ◌||◌, ◌&&◌, Option, none, some,
  List, [], ◌∷◌, ◌++◌, ltb, ◌==◌, if◌then◌else◌, get_or, get_elem?, ok, ◌>>=◌, unwrap,
}
use vortex_contracts.Base.Checked.{checked_mul, i128_bound, u64_bound}
use vortex_contracts.Base.Int.{ℤ, pos, negsuc, pos_part, ltb_ℤ, sub_ℕ}
use vortex_contracts.Settlement.Const
use vortex_contracts.Settlement.Types.{SolverRecord}
use vortex_contracts.Settlement.State.{Env, Storage, Call, update₂, load_config}

-- In each of these `default` is the token that `load_bond_token` gives.
unfoldable pub min_bond_for_token : Storage → ℕ → ℕ → ℕ
min_bond_for_token s default token =
    if token == default
    then (load_config s).min_bond
    else get_or (s.min_bond_of token) Const.min_bond

unfoldable pub is_bond_token_allowed : Storage → ℕ → ℕ → Bool
is_bond_token_allowed s default token = token == default || s.allowed_bond_token token

unfoldable pub get_solver_bond_amount : Storage → ℕ → ℕ → SolverRecord → ℕ → ℕ
get_solver_bond_amount s default solver r token =
    if token == default then r.bond_amount else s.solver_bond solver token

unfoldable pub contains : List ℕ → ℕ → Bool
contains [] t = false
contains (x ∷ xs) t = x == t || contains xs t

-- The loop that rebuilds the list without a token.
unfoldable pub without : List ℕ → ℕ → List ℕ
without [] t = []
without (x ∷ xs) t = if x == t then without xs t else x ∷ without xs t

unfoldable pub listed_tokens : List ℕ → ℕ → ℕ → List ℕ
unfolding contains without
listed_tokens tokens token amount =
    if ltb 0 amount && not (contains tokens token)
    then tokens ++ token ∷ []
    else (if amount == 0 && contains tokens token then without tokens token else tokens)

-- The record and the other tokens' bonds after the write. Removing an entry is writing 0, which
-- is what a missing entry reads as.
unfoldable pub set_solver_bond_amount :
    Storage → ℕ → ℕ → SolverRecord → ℕ → ℕ → SolverRecord × (ℕ → ℕ → ℕ)
unfolding listed_tokens
set_solver_bond_amount s default solver r token amount = (
  record r {
    bond_amount = if token == default then amount else r.bond_amount;
    bond_tokens = listed_tokens r.bond_tokens token amount;
  },
  if token == default then s.solver_bond else update₂ s.solver_bond solver token amount,
)

-- The slash of a missed fill: a tenth of what was at stake, between 1 and the cap.
unfoldable pub compute_slash_amount : ℕ → ℤ → ℕ
compute_slash_amount bond unfilled =
    let exposure = min (pos_part unfilled) bond in
    let proportional = exposure / 10 in
    let cap = max (min ((bond / 10_000) * Const.slash_bps) bond) 1 in
    if bond == 0 then 0 else min (max proportional 1) cap

unfoldable pub get_adjusted_min_bond : Storage → ℕ → Call ℕ
get_adjusted_min_bond s dst_token = do
  scaled ←
      unwrap (checked_mul (load_config s).min_bond (get_or (s.min_bond_multiplier dst_token) 10))
  ok (scaled / 10)

-- A registry that cannot be asked gives tier 0; a tier above 4 counts as 4.
unfoldable pub solver_tier : Env → Storage → ℕ → ℕ
solver_tier e s solver = elim s.solver_registry [
  | none ↦ 0
  | some registry ↦ min (get_or (e.get_tier registry solver) 0) 4
]

abbrev pub tier_bonus_bps : List ℕ
tier_bonus_bps = 0 ∷ 1_000 ∷ 2_000 ∷ 3_000 ∷ 5_000 ∷ []

unfoldable pub tier_fill_window : ℕ → ℕ → ℕ
tier_fill_window tier base =
    min (base * (10_000 + get_or (get_elem? tier_bonus_bps tier) 0)) (u64_bound - 1) / 10_000

-- oracle.rs. A price that is stale, or not positive, is no price.
unfoldable pub fetch_price : Env → ℕ → ℕ → Option (ℕ × ℕ)
fetch_price e oracle asset = elim (e.lastprice oracle asset) [
  | none ↦ none
  | some pd ↦
      if ltb pd.timestamp e.now && ltb 300 (e.now - pd.timestamp) then none else (elim pd.price [
        | pos zero ↦ none
        | pos (suc p) ↦ some (suc p, pd.decimals)
        | negsuc _ ↦ none
      ])
]

abbrev pub checked_pow10 : ℕ → Option ℕ
checked_pow10 d = if ltb (10 ^ d) i128_bound then some (10 ^ d) else none

infixl 5 ◌>>=?◌
abbrev pub ◌>>=?◌ : {A B : Type 0} → Option A → (A → Option B) → Option B
none >>=? f = none
some a >>=? f = f a

-- The value of one unit of the first token in the second, in basis points, if it can be computed.
weight_of_prices : ℕ × ℕ → ℕ × ℕ → Option ℕ
weight_of_prices (pf, df) (pt, dt) = checked_pow10 dt >>=? λ a. checked_mul pf a >>=? λ n.
    checked_mul n 10_000 >>=? λ n'.
    checked_pow10 df >>=? λ b. checked_mul pt b >>=? λ d. if d == 0 then none else some (n' / d)

unfoldable pub weight_bps : Env → Option ℕ → ℕ → ℕ → ℕ
unfolding fetch_price weight_of_prices
weight_bps e oracle from to = elim oracle [
  | none ↦ 10_000
  | some o ↦
      let w = fetch_price e o from >>=? λ p. fetch_price e o to >>=? λ q. weight_of_prices p q in
      if from == to
      then 10_000
      else (elim w [ none ↦ 10_000 | some zero ↦ 10_000 | some (suc n) ↦ suc n ])
]

-- A magnitude weighed: a product that reaches the bound keeps the amount, and the division follows
-- in either case.
weigh : ℕ → ℕ → ℕ → ℕ
weigh bound amount w =
    (if ltb (amount * w) bound then amount * w else amount) / Const.bps_denominator

-- Rust's division rounds towards 0, so the sign can be put back afterwards. The lowest i128 is one
-- further from 0 than the highest.
unfoldable pub exposure_notional : Env → Storage → ℕ → ℕ → ℤ → ℤ
unfolding weight_bps weigh
exposure_notional e s dst_token bond_token amount =
    let w = weight_bps e s.oracle dst_token bond_token in
    elim amount [
      | pos n ↦ pos (weigh i128_bound n w)
      | negsuc n ↦ sub_ℕ 0 (weigh (i128_bound + 1) (suc n) w)
    ]

-- `i128::saturating_add` and `saturating_sub`.
unfoldable pub saturate : ℤ → ℤ
saturate z =
    if ltb_ℤ (pos (i128_bound - 1)) z
    then pos (i128_bound - 1)
    else (if ltb_ℤ z (negsuc (i128_bound - 1)) then negsuc (i128_bound - 1) else z)
