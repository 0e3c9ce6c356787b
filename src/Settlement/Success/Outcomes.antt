-- ===== src/Settlement/Success/Outcomes.antt =====
-- What each operation of the intent's life has found and written when it succeeds.
use vortex_contracts.Base.{ℕ, ◌+◌, ◌≡◌, Bool, some, arith, inl, inr, ok, Call-cases, ◌-◌}
use vortex_contracts.Base.Int.{ℤ, ◌+ℤ◌}
use vortex_contracts.Settlement.Types.{IntentRecord, SolverRecord, cancelled, expired}
use vortex_contracts.Settlement.State.{
  Env, Storage, SolverIndex, UserPages, load_config, update, save_intent,
}
use vortex_contracts.Settlement.Bonds.{solver_tier, tier_fill_window, exposure_notional, saturate}
use vortex_contracts.Settlement.Index.{solver_intents_remove, user_intents_append}
use vortex_contracts.Settlement.Accept.{accept_checks, accept_effects, accept_intent_inner_body}
use vortex_contracts.Settlement.Fill.{Delivery, fill_checks, fill_effects, fill_intent_inner}
use vortex_contracts.Settlement.Slash.{Miss, slash_checks, slash_sums, slash_effects, slash_solver}
use vortex_contracts.Settlement.Close.{
  end_intent, cancel_checks, cancel_intent, expire_checks, expire_intent, amend_checks,
  amend_intent,
}
use vortex_contracts.Settlement.Submit.{
  Request, Submission, submit_checks, submit_effects, submit_intent_inner,
}
use vortex_contracts.Settlement.Success.Payments.{
  fill_calls, pay_fill-eq-ok, pay_slash-eq-ok, slash_share, slash_call, add_positive,
}
use vortex_contracts.Settlement.Success.Checks.{
  CanAccept, CanFill, CanSlash, CanCancel, CanExpire, CanAmend, accept_checks-CanAccept,
  fill_checks-CanFill, slash_checks-CanSlash, cancel_checks-CanCancel, expire_checks-CanExpire,
  amend_checks-CanAmend,
}
use vortex_contracts.Settlement.Success.Others.{CanSubmit, submit_checks-CanSubmit}

module _ (e : Env) (s : Storage) where
  -- The effects of an acceptance, at the tier and the window that it finds.
  abbrev pub accepted_state : ℕ → ℕ → ℕ → IntentRecord → SolverRecord → Storage
  accepted_state solver id bt i r =
      let tier = solver_tier e s solver in
      accept_effects solver id bt tier (e.now + tier_fill_window tier (load_config s).fill_window)
        (saturate
          (s.solver_exposure solver +ℤ exposure_notional e s i.dst_token bt i.min_dst_amount))
        i r s

  pub accept_intent-eq-ok :
      (solver id bt : ℕ) {s' : Storage}
      → accept_intent_inner_body e solver id bt s ≡ ok s'
      → (i : IntentRecord) × (r : SolverRecord) × CanAccept e s solver id i r
        × (s' ≡ accepted_state solver id bt i r)
  unfolding accept_intent_inner_body
  accept_intent-eq-ok solver id bt h = elim (Call-cases (accept_checks e solver id bt s)) [
    | inl ((i, r, b), p) ↦ (i, r, accept_checks-CanAccept e s solver id bt p, ground arith)
    | inr f ↦ absurd (ground arith)
  ]

  pub fill_intent-eq-ok :
      (solver id : ℕ) (amount : ℤ) (p : Bool) {s' : Storage}
      → fill_intent_inner e solver id amount p s ≡ ok s'
      → (d : Delivery) × (x : SolverIndex) × CanFill e s solver id amount d
        × (s'
            ≡ let s1 = fill_effects e solver id x d s in
              record s1 { calls = fill_calls solver d s1.calls })
  unfolding fill_intent_inner
  fill_intent-eq-ok solver id amount p h = elim (Call-cases (fill_checks e solver id amount p s)) [
    | inl (d, c) ↦ elim (Call-cases (solver_intents_remove s.index solver id)) [
      | inl (x, r) ↦ (
        d,
        x,
        fill_checks-CanFill e s solver id amount p c,
        pay_fill-eq-ok e solver d (fill_effects e solver id x d s) (ground arith),
      )
      | inr f ↦ absurd (ground arith)
    ]
    | inr f ↦ absurd (ground arith)
  ]

  -- The storage after a slash: the effects, the pool's share, and the two payouts.
  abbrev pub slashed_state : ℕ → SolverIndex → ℤ → Miss → Storage
  slashed_state id x bonded m =
      let s1 = slash_effects e id x bonded m s in
      record s1 {
        backstop_pool = s1.backstop_pool + slash_share m s1;
        calls =
            add_positive (slash_call e m m.slash_amount)
              (add_positive (slash_call e m (m.slash_amount - slash_share m s1)) s1.calls);
      }

  pub slash_solver-eq-ok :
      (id : ℕ) {s' : Storage}
      → slash_solver e id s ≡ ok s'
      → (m : Miss) × (x : SolverIndex) × (bonded : ℤ) × CanSlash e s id m
        × (slash_sums e m s ≡ ok bonded)
        × (s' ≡ slashed_state id x bonded m)
  unfolding slash_solver
  slash_solver-eq-ok id h = elim (Call-cases (slash_checks e id s)) [
    | inl (m, c) ↦ elim (Call-cases (slash_sums e m s)) [
      | inl (b, n) ↦ elim (Call-cases (solver_intents_remove s.index m.solver id)) [
        | inl (x, r) ↦ (
          m,
          x,
          b,
          slash_checks-CanSlash e s id c,
          n,
          pay_slash-eq-ok e m (slash_effects e id x b m s) (ground arith),
        )
        | inr f ↦ absurd (ground arith)
      ]
      | inr f ↦ absurd (ground arith)
    ]
    | inr f ↦ absurd (ground arith)
  ]

  pub cancel_intent-eq-ok :
      (user id : ℕ) {s' : Storage}
      → cancel_intent e user id s ≡ ok s'
      → (i : IntentRecord) × CanCancel e s user id i
        × (s' ≡ record (end_intent e.now id cancelled i s) {
          cancel_stamp = update (end_intent e.now id cancelled i s).cancel_stamp user (some e.now);
        })
  unfolding cancel_intent
  cancel_intent-eq-ok user id h = elim (Call-cases (cancel_checks user id s)) [
    | inl (i, c) ↦ (i, cancel_checks-CanCancel e s user id c, ground arith)
    | inr f ↦ absurd (ground arith)
  ]

  pub expire_intent-eq-ok :
      (id : ℕ) {s' : Storage}
      → expire_intent e id s ≡ ok s'
      → (i : IntentRecord) × CanExpire e s id i × (s' ≡ end_intent e.now id expired i s)
  unfolding expire_intent
  expire_intent-eq-ok id h = elim (Call-cases (expire_checks e id s)) [
    | inl (i, c) ↦ (i, expire_checks-CanExpire e s id c, ground arith)
    | inr f ↦ absurd (ground arith)
  ]

  pub amend_intent-eq-ok :
      (user id : ℕ) (m : ℤ) (d : ℕ) {s' : Storage}
      → amend_intent e user id m d s ≡ ok s'
      → (i : IntentRecord) × CanAmend e s user id d i
        × (s'
            ≡ save_intent
                (record s { amendment_stamp = update s.amendment_stamp user (some e.now) })
                id
                (record i { min_dst_amount = m; deadline = d }))
  unfolding amend_intent
  amend_intent-eq-ok user id m d h = elim (Call-cases (amend_checks e user id m d s)) [
    | inl (i, c) ↦ (i, amend_checks-CanAmend e s user id m d c, ground arith)
    | inr f ↦ absurd (ground arith)
  ]

  pub submit_intent-eq-ok :
      (user : ℕ) (q : Request) {s' : Storage} {id : ℕ}
      → submit_intent_inner e user q s ≡ ok (id, s')
      → (b : Submission) × (pages : UserPages) × CanSubmit e s user q b
        × (id ≡ b.intent_id)
        × (s' ≡ submit_effects e user q pages b s)
  unfolding submit_intent_inner
  submit_intent-eq-ok user q h = elim (Call-cases (submit_checks e user q s)) [
    | inl (b, c) ↦ elim (Call-cases (user_intents_append s.pages user b.intent_id)) [
      | inl (x, r) ↦ (b, x, submit_checks-CanSubmit e s user q c, ground arith, ground arith)
      | inr f ↦ absurd (ground arith)
    ]
    | inr f ↦ absurd (ground arith)
  ]
