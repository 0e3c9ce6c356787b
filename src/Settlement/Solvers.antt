-- ===== src/Settlement/Solvers.antt =====
-- intent_settlement/src/lib.rs: `register_solver`, `deregister_solver`, `withdraw_bond`. The paged
-- list of solvers, and the per-token liabilities that `adjust_token_liabilities` would keep (the
-- source calls it and does not declare it), are left out.
use vortex_contracts.Base.{
  ℕ, ◌+◌, ◌-◌, Bool, true, false, not, Option, none, some, List, [], ◌∷◌, ltb, leb, ◌==◌, ◌&&◌,
  if◌then◌else◌, length, ok, ◌>>=◌, ◌>>◌, or_err, fail_if,
}
use vortex_contracts.Base.Checked.{add_u32, add_i128, fits_i128}
use vortex_contracts.Base.Int.{ℤ, pos, ◌+ℤ◌}
use vortex_contracts.Base.Dict.{get, put, remove}
use vortex_contracts.Settlement.Const
use vortex_contracts.Settlement.Types.{SolverRecord, Error}
use vortex_contracts.Settlement.State.{
  Env, Storage, Transfer, Call, load_bond_token, require_not_paused, require_auth, positive,
  transfer,
}
use vortex_contracts.Settlement.Bonds.{
  min_bond_for_token, is_bond_token_allowed, get_solver_bond_amount, set_solver_bond_amount,
}

-- The stored record made active, or a new one.
unfoldable pub active_record : ℕ → Option SolverRecord → SolverRecord
active_record now (some r) = record r { is_active = true }
active_record now none = record {
  bond_amount = 0;
  fills_completed = 0;
  fills_failed = 0;
  total_volume = 0;
  is_active = true;
  registered_at = now;
  active_intents = 0;
  last_slash_time = 0;
  bond_tokens = [];
}

abbrev is_none : Option SolverRecord → Bool
is_none none = true
is_none (some r) = false

-- A registration that has passed the checks.
pub record Deposit : Type 0 where
  pub amount : ℕ
  pub default_token : ℕ
  pub existing : Option SolverRecord
  pub existing_bond : ℕ

unfoldable pub register_checks : Env → ℕ → ℕ → ℤ → Storage → Call Deposit
unfolding active_record
register_checks e solver bond_token bond_amount s = do
  require_auth e solver
  require_not_paused s
  amount ← positive bond_amount Error.zero_amount
  default ← load_bond_token s
  fail_if (not (is_bond_token_allowed s default bond_token)) Error.bond_token_not_allowed
  let existing = get s.solvers solver
  let r = active_record e.now existing
  let bond = get_solver_bond_amount s default solver r bond_token
  new_bond ← add_i128 bond amount
  fail_if (ltb new_bond (min_bond_for_token s default bond_token)) Error.solver_bond_too_low
  fail_if (bond == 0 && leb Const.max_bond_tokens (length r.bond_tokens)) Error.too_many_bond_tokens
  ok (record {
    amount = amount;
    default_token = default;
    existing = existing;
    existing_bond = bond;
  })

-- The record is written with the requested amount, and again with the received one if they differ.
unfoldable pub bonded_record : Env → ℕ → ℕ → ℕ → Deposit → Storage → SolverRecord × (ℕ → ℕ → ℕ)
unfolding active_record
bonded_record e solver bond_token received d s =
    let first =
      set_solver_bond_amount s d.default_token solver (active_record e.now d.existing) bond_token
        (d.existing_bond + d.amount) in
    if received == d.amount
    then first
    else set_solver_bond_amount (record s { solver_bond = first.1 }) d.default_token solver first.0
        bond_token (d.existing_bond + received)

unfoldable pub register_solver_inner : Env → ℕ → ℕ → ℤ → Storage → Call Storage
unfolding register_checks bonded_record transfer
register_solver_inner e solver bond_token bond_amount s = do
  d ← register_checks e solver bond_token bond_amount s
  bonded ← fits_i128 (s.total_bonded +ℤ pos d.amount)
  total ← add_u32 s.total_solvers (if is_none d.existing then 1 else 0)
  let pull : Transfer = record { token = bond_token; from = solver; to = e.this; amount = d.amount }
  let (r, bonds) = bonded_record e solver bond_token (e.received pull) d s
  transfer e pull (record s {
    solvers = put s.solvers solver r;
    solver_bond = bonds;
    total_bonded = bonded;
    total_solvers = total;
  })

unfoldable pub register_solver : Env → ℕ → ℤ → Storage → Call Storage
unfolding register_solver_inner
register_solver e solver bond_amount s = do
  bond_token ← load_bond_token s
  register_solver_inner e solver bond_token bond_amount s

unfoldable pub deregister_checks : Env → ℕ → Storage → Call SolverRecord
deregister_checks e solver s = do
  require_auth e solver
  require_not_paused s
  r ← or_err (get s.solvers solver) Error.solver_not_registered
  fail_if (ltb 0 r.active_intents) Error.solver_has_active_intents
  ok r

-- The bonds in tokens other than the default one, in the order of the record's list.
unfoldable pub other_refunds : (ℕ → ℕ) → ℕ → List ℕ → List (ℕ × ℕ)
other_refunds bond default [] = []
other_refunds bond default (t ∷ ts) =
    let rest = other_refunds bond default ts in
    if t == default then rest else if ltb 0 (bond t) then (t, bond t) ∷ rest else rest

unfoldable pub refunds : ℕ → ℕ → SolverRecord → Storage → List (ℕ × ℕ)
unfolding other_refunds
refunds solver default r s =
    let rest = other_refunds (s.solver_bond solver) default r.bond_tokens in
    if ltb 0 r.bond_amount then (default, r.bond_amount) ∷ rest else rest

-- The stored bonds without the refunded ones.
unfoldable pub clear_bonds : ℕ → ℕ → List (ℕ × ℕ) → (ℕ → ℕ → ℕ) → ℕ → ℕ → ℕ
clear_bonds solver default [] bonds = bonds
clear_bonds solver default ((t, _) ∷ ts) bonds = clear_bonds solver default ts (λ a u.
    if solver == a
    then (if t == u && (if t == default then false else true) then 0 else bonds a u)
    else bonds a u)

unfoldable pub pay_refunds : Env → ℕ → List (ℕ × ℕ) → Storage → Call Storage
pay_refunds e solver [] s = ok s
pay_refunds e solver ((t, amount) ∷ ts) s =
    transfer e (record { token = t; from = e.this; to = solver; amount = amount }) s >>= λ s1.
    pay_refunds e solver ts s1

unfoldable pub deregister_solver : Env → ℕ → Storage → Call Storage
unfolding deregister_checks refunds clear_bonds pay_refunds
deregister_solver e solver s = do
  r ← deregister_checks e solver s
  default ← load_bond_token s
  let owed = refunds solver default r s
  pay_refunds e solver owed (record s {
    solver_bond = clear_bonds solver default owed s.solver_bond;
    solvers = remove s.solvers solver;
    total_solvers = s.total_solvers - 1;
  })

unfoldable pub withdraw_checks : Env → ℕ → ℕ → ℤ → Storage → Call (SolverRecord × ℕ × ℕ × ℕ)
withdraw_checks e solver bond_token amount s = do
  require_auth e solver
  require_not_paused s
  n ← positive amount Error.zero_amount
  r ← or_err (get s.solvers solver) Error.solver_not_registered
  fail_if (ltb 0 r.active_intents) Error.solver_has_active_intents
  default ← load_bond_token s
  let current = get_solver_bond_amount s default solver r bond_token
  fail_if (ltb current n) Error.insufficient_bond
  fail_if (ltb (current - n) (min_bond_for_token s default bond_token)) Error.solver_bond_too_low
  ok (r, n, current, default)

unfoldable pub withdraw_bond_inner : Env → ℕ → ℕ → ℤ → Storage → Call Storage
unfolding withdraw_checks transfer
withdraw_bond_inner e solver bond_token amount s = do
  found ← withdraw_checks e solver bond_token amount s
  let (r, n, current, default) = found
  let (r', bonds) = set_solver_bond_amount s default solver r bond_token (current - n)
  transfer e (record { token = bond_token; from = e.this; to = solver; amount = n })
      (record s { solvers = put s.solvers solver r'; solver_bond = bonds })

unfoldable pub withdraw_bond : Env → ℕ → ℤ → Storage → Call Storage
unfolding withdraw_bond_inner
withdraw_bond e solver amount s = do
  bond_token ← load_bond_token s
  withdraw_bond_inner e solver bond_token amount s
