-- ===== src/Settlement/Success/Pruned.antt =====
-- What the deletion of an intent has found and written when it succeeds.
use vortex_contracts.Base.{ℕ, ◌≡◌, ◌≤◌, true, none, some, arith, inl, inr, ok, Call-cases, get_or}
use vortex_contracts.Base.Checked.{sat_add_u64}
use vortex_contracts.Base.Dict.{get, remove}
use vortex_contracts.Settlement.Types.{IntentRecord}
use vortex_contracts.Settlement.State.{
  Env, Storage, SolverIndex, UserPages, load_intent, update, require_auth,
}
use vortex_contracts.Settlement.Prune.{
  is_terminal, get_intent_retention, set_intent_retention, close_checks, forget_solver,
  user_intents_clear, close_intent,
}

module _ (e : Env) (s : Storage) where
  pub record CanClose (id : ℕ) (i : IntentRecord) : Type 0 where
    pub intent_found : get s.intents id ≡ some i
    pub has_ended : is_terminal i.state ≡ true
    pub is_old : sat_add_u64 (get_or i.terminal_at i.created_at) (get_intent_retention s) ≤ e.now

  pub close_checks-CanClose :
      (id : ℕ) {i : IntentRecord} → close_checks e id s ≡ ok i → CanClose id i
  unfolding close_checks load_intent
  close_checks-CanClose id h = ground arith

  -- The storage after a deletion, with what the user's pages and the solver's list become.
  abbrev pub closed_state : ℕ → UserPages → SolverIndex → Storage
  closed_state id pages x = record s {
    pages = pages;
    index = x;
    intents = remove s.intents id;
    tombstone = update s.tombstone id true;
    extension_granted = update s.extension_granted id none;
  }

  pub close_intent-eq-ok :
      (id : ℕ) {s' : Storage}
      → close_intent e id s ≡ ok s'
      → (i : IntentRecord) × (x : SolverIndex) × CanClose id i
        × (s' ≡ closed_state id (user_intents_clear s.pages i.user id) x)
  unfolding close_intent
  close_intent-eq-ok id h = elim (Call-cases (close_checks e id s)) [
    | inl (i, c) ↦ elim (Call-cases (forget_solver i.solver id s.index)) [
      | inl (x, r) ↦ (i, x, close_checks-CanClose id c, ground arith)
      | inr f ↦ absurd (ground arith)
    ]
    | inr f ↦ absurd (ground arith)
  ]

  pub set_intent_retention-eq-ok :
      (secs : ℕ) {s' : Storage}
      → set_intent_retention e secs s ≡ ok s'
      → s' ≡ record s { intent_retention = some secs }
  unfolding set_intent_retention require_auth
  set_intent_retention-eq-ok secs h = ground arith
