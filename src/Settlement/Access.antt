-- ===== src/Settlement/Access.antt =====
-- Who may act on an intent, which calls a pause leaves as they are, what a submission stores, and
-- what an acceptance may put at risk.
use vortex_contracts.Base.{
  ℕ, ◌+◌, ◌≡◌, ◌≤◌, ◌<◌, refl, none, some, arith, ok, err, Bool, true, Call-cases, inl, inr,
  has_failed, ◌==◌, if◌then◌else◌, trap, ◌⊎◌,
}
use vortex_contracts.Base.Int.{ℤ, pos, ◌≤ℤ◌}
use vortex_contracts.Base.Dict.{get, put, get-put}
use vortex_contracts.Settlement.Types.{IntentRecord, SolverRecord, open_}
use vortex_contracts.Settlement.State.{
  Env, Storage, Call, load_config, load_bond_token, require_auth, save_intent, load_intent,
}
use vortex_contracts.Settlement.Bonds.{get_solver_bond_amount}
use vortex_contracts.Settlement.Accept.{
  accept_intent_inner_body, accept_checks, accept_effects, capacity,
}
use vortex_contracts.Settlement.Close.{
  cancel_intent, amend_intent, expire_intent, cancel_checks, expire_checks, cancel_intent_core,
  end_intent, amend_checks,
}
use vortex_contracts.Settlement.Dispute.{dispute_fill, dispute_checks}
use vortex_contracts.Settlement.Submit.{Request, submit_intent_inner, submit_effects, new_intent}
use vortex_contracts.Settlement.Success.Outcomes.{
  submit_intent-eq-ok, cancel_intent-eq-ok, amend_intent-eq-ok,
}
use vortex_contracts.Settlement.Success.Checks.{accept_checks-CanAccept}
use vortex_contracts.Settlement.Success.Escrows.{dispute_fill-eq-ok}

-- A call that goes the same way, and leaves the flag as it is.
abbrev pub with_paused : Bool → Call Storage → Call Storage
with_paused b (ok s) = ok (record s { paused = b })
with_paused b (err x) = err x
with_paused b trap = trap

-- Cancelling, expiring and disputing go the same way whatever the pause flag is: the same result,
-- with the flag left as it is.
pub pause_keeps_exits :
    (e : Env) (s : Storage) (user id : ℕ) (b : Bool)
    → (cancel_intent e user id (record s { paused = b })
        ≡ with_paused b (cancel_intent e user id s))
      × (expire_intent e id (record s { paused = b }) ≡ with_paused b (expire_intent e id s))
      × (dispute_fill e user id (record s { paused = b })
          ≡ with_paused b (dispute_fill e user id s))
unfolding cancel_intent cancel_intent_core cancel_checks expire_intent expire_checks dispute_fill
    dispute_checks load_intent end_intent save_intent require_auth
pause_keeps_exits e s user id b = (ground arith, ground arith, ground arith)

-- The user's own calls.
pub record OwnerActs (e : Env) (s : Storage) (user id : ℕ) (i : IntentRecord) : Type 0 where
  pub found : get s.intents id ≡ some i
  pub owned : i.user ≡ user
  pub signed : e.auth user ≡ true

cancel_signed :
    (e : Env) (s : Storage) (user id : ℕ) {s' : Storage}
    → cancel_intent e user id s ≡ ok s'
    → e.auth user ≡ true
unfolding cancel_intent require_auth
cancel_signed e s user id h = ground arith

amend_signed :
    (e : Env) (s : Storage) (user id : ℕ) (m : ℤ) (d : ℕ) {s' : Storage}
    → amend_intent e user id m d s ≡ ok s'
    → e.auth user ≡ true
unfolding amend_intent amend_checks require_auth
amend_signed e s user id m d h = ground arith

dispute_signed :
    (e : Env) (s : Storage) (user id : ℕ) {s' : Storage}
    → dispute_fill e user id s ≡ ok s'
    → e.auth user ≡ true
unfolding dispute_fill dispute_checks require_auth
dispute_signed e s user id h = ground arith

-- A cancellation, an amendment or a dispute that succeeds was signed by the caller, and the
-- caller is the user of the stored intent.
pub user_calls_signed :
    (e : Env) (s s' : Storage) (user id : ℕ) (m : ℤ) (d : ℕ)
    → (cancel_intent e user id s ≡ ok s')
      ⊎ (amend_intent e user id m d s ≡ ok s')
      ⊎ (dispute_fill e user id s ≡ ok s')
    → (i : IntentRecord) × OwnerActs e s user id i
user_calls_signed e s s' user id m d (inl h) =
    let (i, p, _) = cancel_intent-eq-ok e s user id h in
    (i, record { found = p.intent_found; owned = p.owned; signed = cancel_signed e s user id h })
user_calls_signed e s s' user id m d (inr (inl h)) =
    let (i, p, _) = amend_intent-eq-ok e s user id m d h in
    (i, record { found = p.intent_found; owned = p.owned; signed = amend_signed e s user id m d h })
user_calls_signed e s s' user id m d (inr (inr h)) =
    let (i, p, _) = dispute_fill-eq-ok e s user id h in
    (i, record { found = p.intent_found; owned = p.owned; signed = dispute_signed e s user id h })

-- What is stored of a request.
pub record Stores (user now : ℕ) (q : Request) (i : IntentRecord) : Type 0 where
  pub of_user : (i.user ≡ user) × (i.created_at ≡ now)
  pub source : (i.src_chain ≡ q.src_chain) × (i.src_token ≡ q.src_token)
  pub src_exact : pos i.src_amount ≡ q.src_amount
  pub dst_exact : (i.dst_token ≡ q.dst_token) × (i.min_dst_amount ≡ q.min_dst_amount)
  pub starts : (i.state ≡ open_) × (i.total_filled ≡ 0) × (i.solver ≡ none)
  pub in_future : now < i.deadline

-- A successful submission returns an identifier under which nothing was stored, stores under it
-- an open intent with the request's fields, the caller as its user, nothing delivered, no solver
-- and a deadline in the future, and leaves every other intent as it was.
pub submit_intent-Stores :
    (e : Env) (s s' : Storage) (user id : ℕ) (q : Request) (other : ℕ)
    → submit_intent_inner e user q s ≡ ok (id, s')
    → (i : IntentRecord) × (get s.intents id ≡ none)
      × Stores user e.now q i
      × (get s'.intents other ≡ (if id == other then some i else get s.intents other))
unfolding submit_effects new_intent save_intent
submit_intent-Stores e s s' user id q other h =
    let (b, pages, p, n, w) = submit_intent-eq-ok e s user q h in
    (
      new_intent e user q b,
      ground (arith, p.is_new, n),
      ground (arith, p.src_positive.0, p.dst_positive.0, p.in_future),
      ground (arith, w, n, get-put s.intents b.intent_id other (new_intent e user q b)),
    )

module _ (e : Env) (s s' : Storage) (solver id bt : ℕ) where
  accept_fails :
      has_failed (accept_checks e solver id bt s) ≡ true
      → accept_intent_inner_body e solver id bt s ≡ ok s'
      → ⊥
  unfolding accept_intent_inner_body
  accept_fails f h = ground arith

  accept_checks-bond :
      {c : IntentRecord × SolverRecord × ℕ}
      → accept_checks e solver id bt s ≡ ok c
      → (default : ℕ) × (load_bond_token s ≡ ok default)
        × (c.2 ≡ get_solver_bond_amount s default solver c.1 bt)
  unfolding accept_checks
  accept_checks-bond h = elim (Call-cases (load_bond_token s)) [
    | inl (t, p) ↦ (t, p, ground arith)
    | inr f ↦ absurd (ground arith)
  ]

  accept_solvers :
      {c : IntentRecord × SolverRecord × ℕ}
      → accept_checks e solver id bt s ≡ ok c
      → accept_intent_inner_body e solver id bt s ≡ ok s'
      → (s'.solvers ≡ put s.solvers solver (record c.1 { active_intents = c.1.active_intents + 1 }))
        × (s'.solver_exposure solver ≤ℤ pos (capacity c.2 (load_config s).coverage_multiplier))
  unfolding accept_intent_inner_body accept_effects save_intent
  accept_solvers p h = ground arith

-- A successful acceptance raises the solver's active intents by one, to at most the configured
-- cap, and leaves the solver's exposure at most its bond in the chosen token times the coverage
-- multiplier (the largest i128 if that product overflows).
pub accept_intent-covered :
    (e : Env) (s s' : Storage) (solver id bt : ℕ)
    → accept_intent_inner_body e solver id bt s ≡ ok s'
    → (r : SolverRecord) × (r' : SolverRecord) × (default : ℕ) × (get s.solvers solver ≡ some r)
      × (get s'.solvers solver ≡ some r')
      × (load_bond_token s ≡ ok default)
      × (r'.active_intents ≡ r.active_intents + 1)
      × (r'.active_intents ≤ (load_config s).max_active_intents_per_solver)
      × (s'.solver_exposure solver
          ≤ℤ pos (
              capacity
                (get_solver_bond_amount s default solver r bt)
                (load_config s).coverage_multiplier))
accept_intent-covered e s s' solver id bt h = elim (Call-cases (accept_checks e solver id bt s)) [
  | inr f ↦ absurd (accept_fails e s s' solver id bt f h)
  | inl ((i, r, b), c) ↦
      let p = accept_checks-CanAccept e s solver id bt c in
      let (default, t, k) = accept_checks-bond e s s' solver id bt c in
      let w = accept_solvers e s s' solver id bt c h in
      (
        r,
        record r { active_intents = r.active_intents + 1 },
        default,
        p.solver_found,
        ground (
          arith,
          w.0,
          get-put s.solvers solver solver (record r { active_intents = r.active_intents + 1 }),
        ),
        t,
        refl,
        omega (arith, p.below_cap),
        ground (arith, w.1, k),
      )
]
