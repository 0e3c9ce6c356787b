-- ===== src/Settlement/Prune.antt =====
-- intent_settlement/src/lib.rs: the deletion of old intents, `close_intent`, and the time that they
-- are kept. The keys of the bids, the fill history and the backstop claims, which a deletion clears
-- too, are not in the storage of the model: no operation here reads them.
use vortex_contracts.Base.{
  ℕ, zero, suc, ◌+◌, ◌-◌, ◌/◌, min, Bool, true, false, not, Option, none, some, List, [], ◌∷◌, ltb,
  if◌then◌else◌, is_some_of, get_or, ok, ◌>>=◌, ◌>>◌, or_err, fail_if,
}
use vortex_contracts.Base.Checked.{u32_bound, sat_add_u64}
use vortex_contracts.Base.Dict.{remove}
use vortex_contracts.Settlement.Const
use vortex_contracts.Settlement.Types.{IntentState, IntentRecord, Error}
use vortex_contracts.Settlement.State.{
  Env, Storage, UserPages, SolverIndex, Call, update, update₂, load_intent, require_auth,
}
use vortex_contracts.Settlement.Index.{solver_intents_remove}

abbrev pub default_intent_retention_secs : ℕ
default_intent_retention_secs = 2_592_000

unfoldable pub set_intent_retention : Env → ℕ → Storage → Call Storage
set_intent_retention e retention_secs s = do
  admin ← or_err s.admin Error.not_initialized
  require_auth e admin
  ok (record s { intent_retention = some retention_secs })

abbrev pub get_intent_retention : Storage → ℕ
get_intent_retention s = get_or s.intent_retention default_intent_retention_secs

abbrev pub is_terminal : IntentState → Bool
is_terminal IntentState.filled = true
is_terminal IntentState.cancelled = true
is_terminal IntentState.expired = true
is_terminal IntentState.resolved = true
is_terminal IntentState.slashed = true
is_terminal _ = false

-- The page with the first slot of the intent emptied, if it has one.
unfoldable pub clear_slot : ℕ → List (Option ℕ) → Option (List (Option ℕ))
clear_slot id [] = none
clear_slot id (x ∷ page) =
    let rest = clear_slot id page in
    if is_some_of x id
    then some (none ∷ page)
    else elim rest [ none ↦ none | some page' ↦ some (x ∷ page') ]

-- The loop over the pages of a user, with `n` pages left, from page `b`.
unfoldable pub clear_pages : UserPages → ℕ → ℕ → ℕ → ℕ → UserPages
clear_pages p user id zero b = p
clear_pages p user id (suc n) b =
    let rest = clear_pages p user id n (suc b) in
    elim (clear_slot id (p.user_intents user b)) [
      | some page ↦ record p { user_intents = update₂ p.user_intents user b page }
      | none ↦ rest
    ]

unfoldable pub user_intents_clear : UserPages → ℕ → ℕ → UserPages
user_intents_clear p user id =
    let size = Const.user_intent_bucket_size in
    clear_pages p user id (min (p.user_intent_count user + (size - 1)) (u32_bound - 1) / size) 0

unfoldable pub close_checks : Env → ℕ → Storage → Call IntentRecord
close_checks e id s = do
  intent ← load_intent s id
  fail_if (not (is_terminal intent.state)) Error.intent_not_terminal
  let terminal_at = get_or intent.terminal_at intent.created_at
  fail_if (ltb e.now (sat_add_u64 terminal_at (get_intent_retention s)))
      Error.retention_period_not_elapsed
  ok intent

-- The solver of the intent, if it names one, no longer lists it.
unfoldable pub forget_solver : Option ℕ → ℕ → SolverIndex → Call SolverIndex
forget_solver none id x = ok x
forget_solver (some solver) id x = solver_intents_remove x solver id

unfoldable pub close_intent : Env → ℕ → Storage → Call Storage
close_intent e id s = do
  intent ← close_checks e id s
  index ← forget_solver intent.solver id s.index
  ok (record s {
    pages = user_intents_clear s.pages intent.user id;
    index = index;
    intents = remove s.intents id;
    tombstone = update s.tombstone id true;
    extension_granted = update s.extension_granted id none;
  })
