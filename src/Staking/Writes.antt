-- ===== src/Staking/Writes.antt =====
-- solver_registry: what a successful write of the settlement contract has found and written.
use vortex_contracts.Base.{
  ℕ, zero, suc, ◌+◌, ◌-◌, ◌/◌, ◌≡◌, ◌≤◌, ◌<◌, max, refl, false, some, ◌∷◌, arith, ok, inl, inr, ◌⊎◌,
  Option-cases, Call-cases, ◌==◌, if◌then◌else◌,
}
use vortex_contracts.Base.Int.{ℤ}
use vortex_contracts.Base.Dict.{Dict, get, put}
use vortex_contracts.Base.Token.{Host}
use vortex_contracts.Staking.State.{SolverRecord, Staking, score_of}
use vortex_contracts.Staking.Stakes.{
  save_solver, not_negative, require_writer_or_admin, fill, failure, is_intent_recorded,
  mark_recorded, record_fill, record_failure, slash_amount,
}
use vortex_contracts.Staking.Outcomes.{moved}

-- The records of the actions, with one more.
abbrev pub marks : ℕ → ℕ → Staking → ℕ → Dict (Unit {0})
marks action intent s a = if a == action then put (s.recorded a) intent tt else s.recorded a

pub mark_recorded_lem :
    (action intent : ℕ) (s : Staking) {u : Staking}
    → mark_recorded action intent s ≡ ok u
    → (is_intent_recorded action intent s ≡ false)
      × (u ≡ record s { recorded = marks action intent s })
unfolding mark_recorded
mark_recorded_lem action intent s h = elim (Option-cases (get (s.recorded action) intent)) [
  | inr (o, p) ↦ absurd (ground arith)
  | inl p ↦ (ground arith, ground arith)
]

-- What a slash takes: nothing from an empty bond, else at least 1 and at most the larger of 1 and a
-- tenth of it.
pub record IsCut (bond amount : ℕ) : Type 0 where
  pub at_most : amount ≤ bond
  pub tenth : amount ≤ max 1 (bond / 10)
  pub at_least : 0 < bond → 0 < amount

pub slash_amount-IsCut : (tier bond : ℕ) {n : ℕ} → slash_amount tier bond ≡ ok n → IsCut bond n
unfolding slash_amount
slash_amount-IsCut zero bond h = record {
  at_most = ground arith;
  tenth = ground arith;
  at_least = λ z. ground arith;
}
slash_amount-IsCut (suc zero) bond h = record {
  at_most = ground arith;
  tenth = ground arith;
  at_least = λ z. ground arith;
}
slash_amount-IsCut (suc (suc zero)) bond h = record {
  at_most = ground arith;
  tenth = ground arith;
  at_least = λ z. ground arith;
}
slash_amount-IsCut (suc (suc (suc zero))) bond h = record {
  at_most = ground arith;
  tenth = ground arith;
  at_least = λ z. ground arith;
}
slash_amount-IsCut (suc (suc (suc (suc zero)))) bond h = record {
  at_most = ground arith;
  tenth = ground arith;
  at_least = λ z. ground arith;
}
slash_amount-IsCut (suc (suc (suc (suc (suc tier))))) bond h = absurd (ground arith)

-- The tokens that a write moves: none, or a cut of the bond.
abbrev pub Paid : SolverRecord → SolverRecord → Host → Staking → Staking → Type 0
Paid r r' e s s' =
    ((r'.bond_amount ≡ r.bond_amount) × (s'.calls ≡ s.calls))
    ⊎ ((token recipient n : ℕ) × (s.bond_token ≡ some token)
        × (s.fee_recipient ≡ some recipient)
        × (n ≤ r.bond_amount)
        × (r'.bond_amount ≡ r.bond_amount - n)
        × (s'.calls ≡ moved token e.this recipient n ∷ s.calls))

pub record Written (action intent solver : ℕ) (e : Host) (s s' : Staking) : Type 0 where
  pub before : SolverRecord
  pub after : SolverRecord
  pub found : get s.solvers solver ≡ some before
  pub fresh : is_intent_recorded action intent s ≡ false
  pub written : s' ≡ record s {
    solvers = put s.solvers solver after;
    recorded = marks action intent s;
    calls = s'.calls;
  }
  pub paid : Paid before after e s s'

module _ (e : Host) (caller solver intent : ℕ) (s : Staking) where
  -- A write that moves no token.
  saved_Written :
      (action : ℕ) (r r' : SolverRecord) {u s' : Staking}
      → get s.solvers solver ≡ some r
      → r'.bond_amount ≡ r.bond_amount
      → mark_recorded action intent s ≡ ok u
      → s' ≡ save_solver solver r' u
      → Written action intent solver e s s'
  saved_Written action r r' {u} {s'} p b q h =
      let (fresh, same) = mark_recorded_lem action intent s q in
      let calls : s'.calls ≡ s.calls = cc (h, same) in
      record {
        before = r;
        after = r';
        found = p;
        fresh = fresh;
        written = cc (h, same);
        paid = inl (b, calls);
      }

  pub record_fill-Written :
      (amount : ℤ) {s' : Staking}
      → record_fill e caller solver intent amount s ≡ ok s'
      → Written fill intent solver e s s'
  unfolding record_fill
  record_fill-Written amount h = elim (Call-cases (require_writer_or_admin e caller s)) [
    | inr f ↦ absurd (ground arith)
    | inl (o, a) ↦ elim (Call-cases (not_negative amount)) [
      | inr f ↦ absurd (ground arith)
      | inl (n, z) ↦ elim (Option-cases (get s.solvers solver)) [
        | inl p ↦ absurd (ground arith)
        | inr (r, p) ↦ elim (Call-cases (mark_recorded fill intent s)) [
          | inr f ↦ absurd (ground arith)
          | inl (u, q) ↦
              let r' : SolverRecord = record r {
                fills_completed = r.fills_completed + 1;
                total_volume = r.total_volume + n;
              } in
              elim (Call-cases (score_of r')) [
                | inr f ↦ absurd (ground arith)
                | inl (score, g) ↦ saved_Written fill r r' p refl q (ground arith)
              ]
        ]
      ]
    ]
  ]

  pub record_failure-Written :
      {s' : Staking}
      → record_failure e caller solver intent s ≡ ok s'
      → Written failure intent solver e s s'
  unfolding record_failure
  record_failure-Written h = elim (Call-cases (require_writer_or_admin e caller s)) [
    | inr f ↦ absurd (ground arith)
    | inl (o, a) ↦ elim (Option-cases (get s.solvers solver)) [
      | inl p ↦ absurd (ground arith)
      | inr (r, p) ↦ elim (Call-cases (mark_recorded failure intent s)) [
        | inr f ↦ absurd (ground arith)
        | inl (u, q) ↦
            let r' : SolverRecord = record r { fills_failed = r.fills_failed + 1 } in
            elim (Call-cases (score_of r')) [
              | inr f ↦ absurd (ground arith)
              | inl (score, g) ↦ saved_Written failure r r' p refl q (ground arith)
            ]
      ]
    ]
  ]
