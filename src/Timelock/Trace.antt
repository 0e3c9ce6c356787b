-- ===== src/Timelock/Trace.antt =====
-- The controller as a step relation: what stays of an operation along a run.
use vortex_contracts.Base.{
  ℕ, ◌+◌, ◌≡◌, ◌≤◌, refl, true, none, some, List, arith, ok, inl, inr, Bool-cases, Option-cases,
  has_failed, ◌==◌,
}
use vortex_contracts.Base.Dict.{get, put, get-put}
use vortex_contracts.Timelock.Model.{
  Env, Call, Operation, Controller, grant_role, revoke_role, update_delay, require_role,
  schedule_batch, cancel, execute, new_operation, load_open, execute_checks, get_min_delay,
  get_grace_period, executor_role, canceller_role, is_operation_done, check_predecessor,
}
use vortex_contracts.Timelock.Runs.{logged, execute-runs, cancel_lem, schedule_lem}

pub data Step (s s' : Controller) : Type 0 where
  granted : (e : Env) (role account : ℕ) → grant_role e role account s ≡ ok s' → Step s s'
  revoked : (e : Env) (role account : ℕ) → revoke_role e role account s ≡ ok s' → Step s s'
  updated : (e : Env) (delay : ℕ) → update_delay e delay s ≡ ok s' → Step s s'
  scheduled :
      (e : Env) (calls : List Call) (predecessor salt delay id : ℕ)
      → schedule_batch e calls predecessor salt delay s ≡ ok (id, s')
      → Step s s'
  cancelled : (e : Env) (id : ℕ) → cancel e id s ≡ ok s' → Step s s'
  executed : (e : Env) (id : ℕ) → execute e id s ≡ ok s' → Step s s'

pub data Reach (s : Controller) : Controller → Type 0 where
  here : Reach s s
  next : {t u : Controller} → Reach s t → Step t u → Reach s u

-- What stays of an operation: all but the mark, which is never taken back.
pub record Kept (op op' : Operation) : Type 0 where
  pub same_calls : op'.calls ≡ op.calls
  pub same_start : op'.ready_at ≡ op.ready_at
  pub same_end : op'.expires_at ≡ op.expires_at
  pub stays_done : op.executed ≡ true → op'.executed ≡ true

Kept-refl : (op : Operation) → Kept op op
Kept-refl op = record { same_calls = refl; same_start = refl; same_end = refl; stays_done = λ h. h }

Kept-trans : {a b c : Operation} → Kept a b → Kept b c → Kept a c
Kept-trans p q = record {
  same_calls = cc (p.same_calls, q.same_calls);
  same_start = cc (p.same_start, q.same_start);
  same_end = cc (p.same_end, q.same_end);
  stays_done = λ h. q.stays_done (p.stays_done h);
}

abbrev pub Stores : Controller → ℕ → Operation → Type 0
Stores s id op = (op' : Operation) × (get s.operations id ≡ some op') × Kept op op'

module _ (s s' : Controller) (id : ℕ) (op : Operation) (h : get s.operations id ≡ some op) where
  Stores-same : s'.operations ≡ s.operations → Stores s' id op
  Stores-same p = (op, cc (h, p), Kept-refl op)

  Stores-marked :
      (k : ℕ) (x : Operation)
      → get s.operations k ≡ some x
      → s'.operations ≡ put s.operations k (record x { executed = true })
      → Stores s' id op
  Stores-marked k x f p = elim (Bool-cases (k == id)) [
    | inl q ↦ (
      record op { executed = true },
      ground (arith, get-put s.operations k id (record x { executed = true })),
      record { same_calls = refl; same_start = refl; same_end = refl; stays_done = λ _. refl },
    )
    | inr q ↦
        (op, ground (arith, get-put s.operations k id (record x { executed = true })), Kept-refl op)
  ]

  Stores-added :
      (k : ℕ) (x : Operation)
      → get s.operations k ≡ none
      → s'.operations ≡ put s.operations k x
      → Stores s' id op
  Stores-added k x f p = (op, ground (arith, get-put s.operations k id x), Kept-refl op)

  Step-Stores : Step s s' → Stores s' id op
  unfolding grant_role revoke_role update_delay require_role
  Step-Stores (granted e role account q) = Stores-same (ground arith)
  Step-Stores (revoked e role account q) = Stores-same (ground arith)
  Step-Stores (updated e delay q) = Stores-same (ground arith)
  Step-Stores (scheduled e calls predecessor salt delay k q) =
      let (_, f, p, _) = schedule_lem e s calls predecessor salt delay q in Stores-added k _ f p
  Step-Stores (cancelled e k q) = let (x, f, _, p, _) = cancel_lem e s k q in Stores-marked k x f p
  Step-Stores (executed e k q) =
      let (x, d, p, _) = execute-runs e s k q in Stores-marked k x d.found p

Reach-Stores :
    {s t : Controller} (id : ℕ) (op : Operation)
    → get s.operations id ≡ some op
    → Reach s t
    → Stores t id op
Reach-Stores id op h here = (op, h, Kept-refl op)
Reach-Stores {s} id op h (next {t} {u} r w) =
    let (x, g, k) = Reach-Stores id op h r in
    let (y, g', k') = Step-Stores t u id x g w in (y, g', Kept-trans k k')

-- If an operation is scheduled, and after any sequence of successful calls it is executed, then
-- the delay asked for was at least the minimum delay at the scheduling, the execution is at least
-- that delay after the scheduling and at most the grace period later, and it makes exactly the
-- scheduled calls, in their order.
pub schedule_batch-delays :
    (e e' : Env) (s : Controller) {t u v : Controller} (calls : List Call)
    (predecessor salt delay : ℕ) {id : ℕ}
    → schedule_batch e calls predecessor salt delay s ≡ ok (id, t)
    → Reach t u
    → execute e' id u ≡ ok v
    → (get_min_delay s ≤ delay)
      × (e.now + delay ≤ e'.now)
      × (e'.now ≤ e.now + delay + get_grace_period s)
      × (v.invoked ≡ logged calls u.invoked)
schedule_batch-delays e e' s {t} {u} {v} calls predecessor salt delay {id} h r w =
    let (bound, _, p, _) = schedule_lem e s calls predecessor salt delay h in
    let start = e.now + delay in
    let op = new_operation id calls predecessor salt start (start + get_grace_period s) in
    let stored : get t.operations id ≡ some op = ground (arith, get-put s.operations id id op) in
    let (x, g, k) = Reach-Stores id op stored r in
    let (y, d, _, l) = execute-runs e' u id w in
    (
      bound,
      ground (arith, d.found, d.matured, k.same_start),
      ground (arith, d.found, d.in_grace, k.same_end),
      ground (arith, d.found, k.same_calls),
    )

done-is_stored :
    (s : Controller) (id : ℕ)
    → is_operation_done id s ≡ true
    → (op : Operation) × (get s.operations id ≡ some op) × (op.executed ≡ true)
unfolding is_operation_done
done-is_stored s id h = elim (Option-cases (get s.operations id)) [
  | inl p ↦ absurd (ground arith)
  | inr (op, p) ↦ (op, p, ground arith)
]

load_open-fails :
    (e : Env) (role id : ℕ) (s : Controller) (op : Operation)
    → get s.operations id ≡ some op
    → op.executed ≡ true
    → has_failed (load_open e role id s) ≡ true
unfolding load_open require_role
load_open-fails e role id s op h k = ground arith

-- After any sequence of successful calls an operation that was executed or cancelled still is,
-- and neither its execution nor its cancellation succeeds.
pub done_is_final :
    {s t : Controller} (id : ℕ) (e : Env)
    → is_operation_done id s ≡ true
    → Reach s t
    → (is_operation_done id t ≡ true)
      × (has_failed (execute e id t) ≡ true)
      × (has_failed (cancel e id t) ≡ true)
unfolding is_operation_done execute execute_checks cancel
done_is_final {s} {t} id e h r =
    let (op, g, d) = done-is_stored s id h in
    let (x, g', k) = Reach-Stores id op g r in
    let f = load_open-fails e executor_role id t x g' (k.stays_done d) in
    let f' = load_open-fails e canceller_role id t x g' (k.stays_done d) in
    (ground (arith, k.stays_done d), ground (arith, f), ground (arith, f'))

-- After a successful cancellation, which makes no calls, the operation satisfies the check of a
-- predecessor, as an executed one does.
pub cancel-check_predecessor :
    (e : Env) (s : Controller) (id : ℕ) {s' : Controller}
    → cancel e id s ≡ ok s'
    → (check_predecessor id s' ≡ ok tt) × (s'.invoked ≡ s.invoked)
unfolding check_predecessor
cancel-check_predecessor e s id h =
    let (x, f, _, p, l) = cancel_lem e s id h in
    (ground (arith, get-put s.operations id id (record x { executed = true })), l)
