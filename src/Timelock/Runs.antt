-- ===== src/Timelock/Runs.antt =====
-- What the operations of the controller have found and written when they succeed.
use vortex_contracts.Base.{
  ℕ, ◌+◌, ◌≡◌, ◌≤◌, true, false, none, some, List, [], ◌∷◌, arith, ok, inl, inr, Call-cases,
  Bool-cases, Option-cases,
}
use vortex_contracts.Base.Dict.{get, put}
use vortex_contracts.Timelock.Model.{
  Env, Call, Operation, Controller, require_role, schedule_batch, schedule_checks, cancel, execute,
  execute_checks, load_open, check_predecessor, invoke_all, mark_executed, hash_operation,
  get_min_delay, get_grace_period, executor_role, canceller_role, new_operation,
}

-- The log after some calls, made in their order.
unfoldable pub logged : List Call → List Call → List Call
logged [] log = log
logged (c ∷ calls) log = logged calls (c ∷ log)

invoke_all-logged :
    (e : Env) (calls log : List Call) {l : List Call}
    → invoke_all e calls log ≡ ok l
    → l ≡ logged calls log
unfolding invoke_all logged
invoke_all-logged e [] log h = ground arith
invoke_all-logged e (c ∷ calls) log h = elim (Bool-cases (e.invoke_ok c)) [
  | inl p ↦ invoke_all-logged e calls (c ∷ log) (ground arith)
  | inr p ↦ absurd (ground arith)
]

-- An operation that was due when it ran.
pub record IsDue (e : Env) (id : ℕ) (op : Operation) (s : Controller) : Type 0 where
  pub found : get s.operations id ≡ some op
  pub pending : op.executed ≡ false
  pub matured : op.ready_at ≤ e.now
  pub in_grace : e.now ≤ op.expires_at
  pub authentic : hash_operation e op.calls op.predecessor op.salt ≡ id
  pub ordered : check_predecessor op.predecessor s ≡ ok tt

module _ (e : Env) (s : Controller) where
  load_open_lem :
      (role id : ℕ) {op : Operation}
      → load_open e role id s ≡ ok op
      → (get s.operations id ≡ some op) × (op.executed ≡ false)
  unfolding load_open require_role
  load_open_lem role id h = elim (Option-cases (get s.operations id)) [
    | inl p ↦ absurd (ground arith)
    | inr (x, p) ↦ ground arith
  ]

  pub execute_checks-IsDue :
      (id : ℕ) {op : Operation} → execute_checks e id s ≡ ok op → IsDue e id op s
  unfolding execute_checks
  execute_checks-IsDue id h = elim (Call-cases (load_open e executor_role id s)) [
    | inr f ↦ absurd (ground arith)
    | inl (x, p) ↦ elim (Call-cases (check_predecessor x.predecessor s)) [
      | inr f ↦ absurd (ground arith)
      | inl (u, q) ↦ ground (arith, load_open_lem executor_role id p)
    ]
  ]

  -- A successful execution is of a stored operation that was not executed or cancelled, between
  -- its start and its end, whose contents hash to its identifier and whose predecessor, if it
  -- names one, is marked as executed; it marks the operation, writes no other, and makes its
  -- calls in their order.
  pub execute-runs :
      (id : ℕ) {s' : Controller}
      → execute e id s ≡ ok s'
      → (op : Operation) × IsDue e id op s
        × (s'.operations ≡ put s.operations id (record op { executed = true }))
        × (s'.invoked ≡ logged op.calls s.invoked)
  unfolding execute mark_executed
  execute-runs id h = elim (Call-cases (execute_checks e id s)) [
    | inr f ↦ absurd (ground arith)
    | inl (op, p) ↦ elim (Call-cases (invoke_all e op.calls s.invoked)) [
      | inr f ↦ absurd (ground arith)
      | inl (log, q) ↦ (
        op,
        execute_checks-IsDue id p,
        ground arith,
        ground (arith, invoke_all-logged e op.calls s.invoked q),
      )
    ]
  ]

  pub cancel_lem :
      (id : ℕ) {s' : Controller}
      → cancel e id s ≡ ok s'
      → (op : Operation) × (get s.operations id ≡ some op)
        × (op.executed ≡ false)
        × (s'.operations ≡ put s.operations id (record op { executed = true }))
        × (s'.invoked ≡ s.invoked)
  unfolding cancel mark_executed
  cancel_lem id h = elim (Call-cases (load_open e canceller_role id s)) [
    | inr f ↦ absurd (ground arith)
    | inl (op, p) ↦ (
      op,
      (load_open_lem canceller_role id p).0,
      (load_open_lem canceller_role id p).1,
      ground arith,
      ground arith,
    )
  ]

  schedule_checks_lem :
      (calls : List Call) (predecessor salt delay : ℕ)
      → schedule_checks e calls predecessor salt delay s ≡ ok tt
      → (get_min_delay s ≤ delay)
        × (get s.operations (hash_operation e calls predecessor salt) ≡ none)
  unfolding schedule_checks require_role
  schedule_checks_lem calls predecessor salt delay h =
      elim (Option-cases (get s.operations (hash_operation e calls predecessor salt))) [
        | inl p ↦ (ground arith, p)
        | inr (x, p) ↦ absurd (ground arith)
      ]

  pub schedule_lem :
      (calls : List Call) (predecessor salt delay : ℕ) {id : ℕ} {s' : Controller}
      → schedule_batch e calls predecessor salt delay s ≡ ok (id, s')
      → (get_min_delay s ≤ delay)
        × (get s.operations id ≡ none)
        × (s'.operations
            ≡ put s.operations id (
                new_operation id calls predecessor salt
                  (e.now + delay)
                  (e.now + delay + get_grace_period s)))
        × (s'.invoked ≡ s.invoked)
  unfolding schedule_batch
  schedule_lem calls predecessor salt delay h =
      elim (Call-cases (schedule_checks e calls predecessor salt delay s)) [
        | inr f ↦ absurd (ground arith)
        | inl (u, p) ↦ (
          (schedule_checks_lem calls predecessor salt delay p).0,
          ground (arith, (schedule_checks_lem calls predecessor salt delay p).1),
          ground arith,
          ground arith,
        )
      ]
