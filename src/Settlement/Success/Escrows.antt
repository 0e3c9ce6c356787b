-- ===== src/Settlement/Success/Escrows.antt =====
-- What the operations of an escrowed fill and of a bond have found and written.
use vortex_contracts.Base.{
  ℕ, ◌+◌, ◌-◌, ◌≡◌, List, ◌∷◌, some, arith, inl, inr, ok, Call-cases, ◌⊎◌, ap, ◌∙◌,
}
use vortex_contracts.Base.Int.{ℤ}
use vortex_contracts.Base.Dict.{put}
use vortex_contracts.Settlement.Types.{
  IntentRecord, IntentState, DisputeResolution, upheld, dismissed, filling, disputed, filled,
  resolved,
}
use vortex_contracts.Settlement.State.{Env, Storage, Transfer, transfer, save_intent}
use vortex_contracts.Settlement.Dispute.{
  Escrow, Verdict, Release, begin_fill_checks, begin_fill, dispute_checks, dispute_fill,
  resolve_checks, judge, settled, volume_of, resolve_dispute, release_checks, release_outcome,
  release_fill, pay_escrow,
}
use vortex_contracts.Settlement.Bonds.{set_solver_bond_amount}
use vortex_contracts.Settlement.Success.Payments.{
  pay_escrow-eq-ok, transfer_positive-eq-ok, escrow_call, add_positive,
}
use vortex_contracts.Settlement.Success.Others.{
  CanBegin, CanDispute, HasEscrow, begin_fill_checks-CanBegin, dispute_checks-CanDispute,
  resolve_checks-HasEscrow, release_checks-HasEscrow,
}

-- Two storages that differ in the log of the calls alone.
abbrev pub SameButCalls : Storage → Storage → Type 0
SameButCalls s s' = s' ≡ record s { calls = s'.calls }

module _ (e : Env) (s : Storage) where
  abbrev pub pull_of : IntentRecord → ℕ → ℕ → Transfer
  pull_of i solver n = record { token = i.dst_token; from = solver; to = e.this; amount = n }

  pub begin_fill-eq-ok :
      (solver id : ℕ) (amount : ℤ) {s' : Storage}
      → begin_fill e solver id amount s ≡ ok s'
      → (i : IntentRecord) × (n : ℕ) × CanBegin e s solver id amount i n
        × (s'
            ≡ record (save_intent s id (record i {
              state = filling;
              dispute_deadline = some (e.now + 3_600);
              fill_amount = some (e.received (pull_of i solver n));
            })) { calls = pull_of i solver n ∷ s.calls })
  unfolding begin_fill transfer save_intent
  begin_fill-eq-ok solver id amount h = elim (Call-cases (begin_fill_checks e solver id amount s)) [
    | inl ((i, n), c) ↦ (i, n, begin_fill_checks-CanBegin e s solver id amount c, ground arith)
    | inr f ↦ absurd (ground arith)
  ]

  pub dispute_fill-eq-ok :
      (user id : ℕ) {s' : Storage}
      → dispute_fill e user id s ≡ ok s'
      → (i : IntentRecord) × CanDispute e s user id i
        × (s' ≡ save_intent s id (record i { state = disputed; dispute_raised_at = some e.now }))
  unfolding dispute_fill
  dispute_fill-eq-ok user id h = elim (Call-cases (dispute_checks e user id s)) [
    | inl (i, c) ↦ (i, dispute_checks-CanDispute e s user id c, ground arith)
    | inr f ↦ absurd (ground arith)
  ]

  -- The solver's record after a release, whatever its outcome: one intent less than was found.
  pub release_outcome-active :
      (x : Escrow) (st : IntentState) {o : Release}
      → release_outcome e x st ≡ ok o
      → o.solver_record.active_intents ≡ x.found_record.active_intents - 1
  unfolding release_outcome
  release_outcome-active x filling h = ground arith
  release_outcome-active x _ h = ground arith

  pub release_outcome-held :
      (x : Escrow) (st : IntentState) {o : Release}
      → release_outcome e x st ≡ ok o
      → ((st ≡ filling) × (o.state ≡ filled))
        ⊎ ((st ≡ disputed) × (o.state ≡ resolved) × (o.fee ≡ 0))
  unfolding release_outcome
  release_outcome-held x filling h = ground arith
  release_outcome-held x _ h = ground arith

  pub judge-active :
      (x : Escrow) (r : DisputeResolution) {v : Verdict}
      → judge e x r s ≡ ok v
      → v.solver_record.active_intents ≡ x.found_record.active_intents - 1
  unfolding judge set_solver_bond_amount
  judge-active x upheld h = ground arith
  judge-active x dismissed h = ground arith

  abbrev pub settle_calls : Escrow → ℕ → List Transfer
  settle_calls x fee =
      add_positive (escrow_call e x x.fee_recipient fee)
        (escrow_call e x x.intent.user (x.amount - fee) ∷ s.calls)

  pub release_fill-eq-ok :
      (id : ℕ) {s' : Storage}
      → release_fill e id s ≡ ok s'
      → (x : Escrow) × (o : Release) × HasEscrow e s id x
        × (release_outcome e x x.intent.state ≡ ok o)
        × (s'
            ≡ record (save_intent
                (record s {
                  solvers = put s.solvers x.solver o.solver_record;
                  total_volume = s.total_volume + x.amount;
                })
                id
                (settled e.now (x.intent.total_filled + x.amount) x o.state o.resolution)) {
                  calls = settle_calls x o.fee;
                })
  unfolding release_fill save_intent
  release_fill-eq-ok id {s'} h = elim (Call-cases (release_checks id s)) [
    | inl (x, c) ↦ elim (Call-cases (release_outcome e x x.intent.state)) [
      | inl (o, r) ↦ (
        x,
        o,
        release_checks-HasEscrow e s id c,
        r,
        pay_escrow-eq-ok e x o.fee
            (record s {
              solvers = put s.solvers x.solver o.solver_record;
              total_volume = s.total_volume + x.amount;
              intents =
                  put s.intents id
                    (settled e.now (x.intent.total_filled + x.amount) x o.state o.resolution);
            })
            (ground arith),
      )
      | inr f ↦ absurd (ground arith)
    ]
    | inr f ↦ absurd (ground arith)
  ]

  -- A slash that a dispute ends in is paid last.
  pub resolve_dispute-eq-ok :
      (arbiter id : ℕ) (r : DisputeResolution) {s' : Storage}
      → resolve_dispute e arbiter id r s ≡ ok s'
      → (x : Escrow) × (v : Verdict) × HasEscrow e s id x
        × (x.intent.state ≡ disputed)
        × (judge e x r s ≡ ok v)
        × (s'
            ≡ record (save_intent
                (record s {
                  solvers = put s.solvers x.solver v.solver_record;
                  solver_bond = v.bonds;
                  total_volume = s.total_volume + volume_of r x.amount;
                })
                id
                (settled e.now (x.intent.total_filled + x.amount) x resolved (some r))) {
                  calls =
                      add_positive
                        (record {
                          token = x.intent.bond_token;
                          from = e.this;
                          to = x.fee_recipient;
                          amount = v.slash_amount;
                        })
                        (settle_calls x v.fee);
                })
  unfolding resolve_dispute save_intent
  resolve_dispute-eq-ok arbiter id r {s'} h = elim (Call-cases (resolve_checks e arbiter id s)) [
    | inl (x, c) ↦ elim (Call-cases (judge e x r s)) [
      | inl (v, j) ↦
          let found = resolve_checks-HasEscrow e s arbiter id c in
          let s1 : Storage = record s {
            solvers = put s.solvers x.solver v.solver_record;
            solver_bond = v.bonds;
            total_volume = s.total_volume + volume_of r x.amount;
            intents =
                put s.intents id
                  (settled e.now (x.intent.total_filled + x.amount) x resolved (some r));
          } in
          let last : Transfer = record {
            token = x.intent.bond_token;
            from = e.this;
            to = x.fee_recipient;
            amount = v.slash_amount;
          } in
          elim (Call-cases (pay_escrow e x v.fee s1)) [
            | inl (s2, p) ↦ (
              x,
              v,
              found.0,
              found.1,
              j,
              transfer_positive-eq-ok e last s2 (ground arith)
                  ∙ ap (λ (s3 : Storage). record s3 { calls = add_positive last s3.calls })
                      (pay_escrow-eq-ok e x v.fee s1 p),
            )
            | inr f ↦ absurd (ground arith)
          ]
      | inr f ↦ absurd (ground arith)
    ]
    | inr f ↦ absurd (ground arith)
  ]
