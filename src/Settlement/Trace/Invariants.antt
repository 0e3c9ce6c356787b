-- ===== src/Settlement/Trace/Invariants.antt =====
-- What every reachable storage satisfies.
use vortex_contracts.Base.{
  ℕ, ◌≤◌, ◌≡◌, sym, subst, inl, inr, Bool, true, false, Option, none, some, arith, ◌==◌,
  Option-cases, Bool-cases, ◌⊎◌,
}
use vortex_contracts.Base.Dict.{
  get, put, get-put, get-remove, sum_by, sum_by-weight, no_repeat, no_repeat-put, no_repeat-remove,
}
use vortex_contracts.Settlement.Types.{IntentState, IntentRecord, SolverRecord}
use vortex_contracts.Settlement.State.{Storage}
use vortex_contracts.Settlement.Fill.{filled_intent}
use vortex_contracts.Settlement.Counts.Moves.{IsCounted, is_held, held_weight}
use vortex_contracts.Settlement.Counts.Lifecycle.{
  submit_intent-IsCounted, accept_intent-IsCounted, fill_intent-IsCounted, slash_solver-IsCounted,
  cancel_intent-IsCounted, expire_intent-IsCounted, amend_intent-IsCounted,
}
use vortex_contracts.Settlement.Counts.Escrowed.{
  begin_fill-IsCounted, dispute_fill-IsCounted, resolve_dispute-IsCounted, release_fill-IsCounted,
}
use vortex_contracts.Settlement.Counts.Bonded.{
  register_solver-IsCounted, withdraw_bond-IsCounted, deregister_solver-IsCounted,
}
use vortex_contracts.Settlement.Counts.Extended.{request_extension-IsCounted}
use vortex_contracts.Settlement.Counts.Pruned.{close_intent-IsCounted}
use vortex_contracts.Settlement.Success.Pruned.{set_intent_retention-eq-ok}
use vortex_contracts.Settlement.Trace.{
  Step, submit, accept, fill, slash, cancel, expire, amend, begin, dispute, resolve, release,
  register, withdraw, deregister, extend, close, retain, IsInitial, Reach, here, next, Edge, taken,
  delivered, missed, ended, amended, extended, escrowed, contested, settled, same, created, changed,
  closed,
}
use vortex_contracts.Settlement.Trace.Changes.{Step-Change}

-- No identifier has two records.
abbrev pub HasKeys : Storage → Type 0
HasKeys s = no_repeat s.intents ≡ true

pub Reach-HasKeys : {s t : Storage} → IsInitial s → Reach s t → HasKeys t
unfolding no_repeat
Reach-HasKeys init here = ground (arith, init.no_intents)
Reach-HasKeys {t = u} init (next {t} r x) = elim (Step-Change x) [
  | same p v ↦ ground (arith, Reach-HasKeys init r)
  | created j i' n m f p v ↦ ground (arith, no_repeat-put t.intents j i' (Reach-HasKeys init r))
  | changed j k i' g d p v ↦ ground (arith, no_repeat-put t.intents j i' (Reach-HasKeys init r))
  | closed j i g f p v ↦ ground (arith, no_repeat-remove t.intents j (Reach-HasKeys init r))
]

pub Step-IsCounted : {s s' : Storage} → HasKeys s → IsCounted s → Step s s' → IsCounted s'
Step-IsCounted {s} k c (submit e user q id h) = submit_intent-IsCounted e s c user q h
Step-IsCounted {s} k c (accept e solver id bt h) = accept_intent-IsCounted e s c solver id bt h
Step-IsCounted {s} k c (fill e solver id amount p h) =
    fill_intent-IsCounted e s c solver id amount p h
Step-IsCounted {s} k c (slash e id h) = slash_solver-IsCounted e s c id h
Step-IsCounted {s} k c (cancel e user id h) = cancel_intent-IsCounted e s c user id h
Step-IsCounted {s} k c (expire e id h) = expire_intent-IsCounted e s c id h
Step-IsCounted {s} k c (amend e user id m d h) = amend_intent-IsCounted e s c user id m d h
Step-IsCounted {s} k c (begin e solver id amount h) = begin_fill-IsCounted e s c solver id amount h
Step-IsCounted {s} k c (dispute e user id h) = dispute_fill-IsCounted e s c user id h
Step-IsCounted {s} k c (resolve e arbiter id r h) = resolve_dispute-IsCounted e s c arbiter id r h
Step-IsCounted {s} k c (release e id h) = release_fill-IsCounted e s c id h
Step-IsCounted {s} k c (register e solver bt amount h) =
    register_solver-IsCounted e s c solver bt amount h
Step-IsCounted {s} k c (withdraw e solver bt amount h) =
    withdraw_bond-IsCounted e s c solver bt amount h
Step-IsCounted {s} k c (deregister e solver h) = deregister_solver-IsCounted e s c solver h
Step-IsCounted {s} k c (extend e solver id h) = request_extension-IsCounted e s c solver id h
Step-IsCounted {s} k c (close e id h) = close_intent-IsCounted e s k c id h
Step-IsCounted {s} k c (retain e secs h) =
    subst IsCounted (sym (set_intent_retention-eq-ok e s secs h)) (ground (arith, c))

IsInitial-IsCounted : {s : Storage} → IsInitial s → IsCounted s
unfolding sum_by get
IsInitial-IsCounted init = record {
  open_exact = ground (arith, init.none_open, init.no_intents);
  active_exact = λ a. ground (arith, init.no_solvers, init.no_intents);
}

-- In every storage that a sequence of successful calls reaches from one without intents, solvers
-- and counts, the count of open intents is the number of stored intents that are open or
-- partially filled, and each solver's count of active intents is the number of intents that it
-- holds: accepted, filling or disputed, with this solver.
pub Reach-IsCounted : {s t : Storage} → IsInitial s → Reach s t → IsCounted t
Reach-IsCounted init here = IsInitial-IsCounted init
Reach-IsCounted init (next r x) = Step-IsCounted (Reach-HasKeys init r) (Reach-IsCounted init r) x

-- The states of an intent that the modelled operations produce, by what they fix.
abbrev pub is_final : IntentState → Bool
is_final IntentState.filled = true
is_final IntentState.cancelled = true
is_final IntentState.expired = true
is_final IntentState.resolved = true
is_final _ = false

abbrev pub has_solver : IntentState → Bool
has_solver IntentState.accepted = true
has_solver IntentState.filling = true
has_solver IntentState.disputed = true
has_solver IntentState.filled = true
has_solver IntentState.resolved = true
has_solver _ = false

abbrev pub is_used : IntentState → Bool
is_used IntentState.slashed = false
is_used IntentState.bidding = false
is_used _ = true

abbrev pub is_some : Option ℕ → Bool
is_some none = false
is_some (some n) = true

pub record WellFormed (i : IntentRecord) : Type 0 where
  pub solver_exact : is_some i.solver ≡ has_solver i.state
  pub end_exact : is_some i.terminal_at ≡ is_final i.state
  pub used : is_used i.state ≡ true

-- Each edge keeps an intent well formed.
Edge-WellFormed : {i i' : IntentRecord} → WellFormed i → Edge i i' → WellFormed i'
unfolding filled_intent
Edge-WellFormed w (taken a bt tier d o p) = ground (arith, w.solver_exact, w.end_exact, w.used)
Edge-WellFormed w (delivered now d p o q) = ground (arith, w.solver_exact, w.end_exact, w.used)
Edge-WellFormed w (missed d o p) = ground (arith, w.solver_exact, w.end_exact, w.used)
Edge-WellFormed w (ended now st o p q) = ground (arith, w.solver_exact, w.end_exact, w.used)
Edge-WellFormed w (amended m d o p) = ground (arith, w.solver_exact, w.end_exact, w.used)
Edge-WellFormed w (extended d o p) = ground (arith, w.solver_exact, w.end_exact, w.used)
Edge-WellFormed w (escrowed u r o p) = ground (arith, w.solver_exact, w.end_exact, w.used)
Edge-WellFormed w (contested now o p) = ground (arith, w.solver_exact, w.end_exact, w.used)
Edge-WellFormed w (settled now n st r o p) = ground (arith, w.solver_exact, w.end_exact, w.used)

-- The intents after a change, at each identifier.
change_at :
    (s s' : Storage) (id j : ℕ) (i' : IntentRecord) {i : IntentRecord}
    → s'.intents ≡ put s.intents id i'
    → get s'.intents j ≡ some i
    → (i ≡ i') ⊎ (get s.intents j ≡ some i)
change_at s s' id j i' p h = elim (Bool-cases (id == j)) [
  | inl q ↦ inl (ground (arith, get-put s.intents id j i'))
  | inr q ↦ inr (ground (arith, get-put s.intents id j i'))
]

-- Every intent of a storage that a sequence of successful calls (the calls of `Trace.Step`)
-- reaches from one without intents and counts is well formed: it names a solver exactly when it
-- is accepted, filling, disputed, filled or resolved; it has an end time exactly when it is
-- filled, cancelled, expired or resolved; and it is never slashed or bidding.
pub Reach-WellFormed :
    {s t : Storage} {i : IntentRecord} (id : ℕ)
    → IsInitial s
    → Reach s t
    → get t.intents id ≡ some i
    → WellFormed i
unfolding get
Reach-WellFormed id init here h = absurd (ground (arith, init.no_intents))
Reach-WellFormed {t = u} id init (next {t} r x) h = elim (Step-Change x) [
  | same p v ↦ Reach-WellFormed id init r (ground arith)
  | created j i' n m f p v ↦ elim (change_at t u j id i' p h) [
    | inl q ↦ ground (arith, f.0, f.1, f.2)
    | inr q ↦ Reach-WellFormed id init r q
  ]
  | changed j k i' g d p v ↦ elim (change_at t u j id i' p h) [
    | inl q ↦ subst WellFormed (sym q) (Edge-WellFormed (Reach-WellFormed j init r g) d)
    | inr q ↦ Reach-WellFormed id init r q
  ]
  | closed j k g f p v ↦ Reach-WellFormed id init r (ground (arith, get-remove t.intents j id))
]

-- Where the counts are exact, an intent in an accepted, filling or disputed state that names a
-- solver has that solver's record in storage, with at least one active intent: the lookups that
-- the settling calls unwrap are there.
pub held_solver_found :
    (s : Storage) {i : IntentRecord} (id a : ℕ)
    → IsCounted s
    → get s.intents id ≡ some i
    → is_held i.state ≡ true
    → i.solver ≡ some a
    → (r : SolverRecord) × (get s.solvers a ≡ some r) × (1 ≤ r.active_intents)
held_solver_found s id a c h b p = elim (Option-cases (get s.solvers a)) [
  | inl q ↦ absurd (ground (arith, c.active_exact a, sum_by-weight (held_weight a) s.intents id, q))
  | inr (r, q) ↦
      (r, q, ground (arith, c.active_exact a, sum_by-weight (held_weight a) s.intents id))
]
