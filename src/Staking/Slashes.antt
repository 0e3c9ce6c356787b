-- ===== src/Staking/Slashes.antt =====
-- solver_registry: what a successful slash takes from the bond, and where the tokens go.
use vortex_contracts.Base.{
  ℕ, ◌+◌, ◌-◌, ◌≡◌, subst, some, ◌∷◌, arith, ok, inl, inr, ◌⊎◌, Option-cases, Call-cases,
  Bool-cases, ltb,
}
use vortex_contracts.Base.Dict.{get, put, get-put}
use vortex_contracts.Base.Token.{Host}
use vortex_contracts.Staking.State.{SolverRecord, Staking, tier_of}
use vortex_contracts.Staking.Stakes.{
  pay, save_solver, require_writer_or_admin, slashing, mark_recorded, slash_amount, slashed,
  take_slash, slash,
}
use vortex_contracts.Staking.Outcomes.{moved}
use vortex_contracts.Staking.Writes.{IsCut, Written, mark_recorded_lem, slash_amount-IsCut}

module _ (e : Host) (caller solver intent : ℕ) (s : Staking) where
  -- The steps of a slash that succeeds.
  slash_steps :
      {amount new_tier : ℕ} {s' : Staking}
      → slash e caller solver intent s ≡ ok ((amount, new_tier), s')
      → (r r' : SolverRecord) × (u : Staking) × (tier : ℕ) × (get s.solvers solver ≡ some r)
        × (mark_recorded slashing intent s ≡ ok u)
        × (slash_amount tier r.bond_amount ≡ ok amount)
        × (slashed e r amount ≡ ok r')
        × (take_slash e amount (save_solver solver r' u) ≡ ok s')
  unfolding slash
  slash_steps {amount} {new_tier} {s'} h = elim (Call-cases (require_writer_or_admin e caller s)) [
    | inr f ↦ absurd (ground arith)
    | inl (o, a) ↦ elim (Option-cases (get s.solvers solver)) [
      | inl p ↦ absurd (ground arith)
      | inr (r, p) ↦ elim (Call-cases (mark_recorded slashing intent s)) [
        | inr f ↦ absurd (ground arith)
        | inl (u, q) ↦ elim (Call-cases (tier_of r u)) [
          | inr f ↦ absurd (ground arith)
          | inl (tier, g) ↦ elim (Call-cases (slash_amount tier r.bond_amount)) [
            | inr f ↦ absurd (ground arith)
            | inl (n, c) ↦ elim (Call-cases (slashed e r n)) [
              | inr f ↦ absurd (ground arith)
              | inl (r', d) ↦ elim (Call-cases (take_slash e n (save_solver solver r' u))) [
                | inr f ↦ absurd (ground arith)
                | inl (v, w) ↦ elim (Call-cases (tier_of r' v)) [
                  | inr f ↦ absurd (ground arith)
                  | inl (new, z) ↦
                      let m : n ≡ amount = ground arith in
                      let y : v ≡ s' = ground arith in
                      (
                        r,
                        r',
                        u,
                        tier,
                        p,
                        q,
                        subst (λ (k : ℕ). slash_amount tier r.bond_amount ≡ ok k) m c,
                        subst (λ (k : ℕ). slashed e r k ≡ ok r') m d,
                        subst (λ (k : ℕ). take_slash e k (save_solver solver r' u) ≡ ok s') m
                            (subst
                              (λ (x : Staking). take_slash e n (save_solver solver r' u) ≡ ok x) y
                              w),
                      )
                ]
              ]
            ]
          ]
        ]
      ]
    ]
  ]

pay_lem :
    (e : Host) (from to amount : ℕ) (s : Staking) {s' : Staking}
    → pay e from to amount s ≡ ok s'
    → (token : ℕ) × (s.bond_token ≡ some token)
      × (s' ≡ record s { calls = moved token from to amount ∷ s.calls })
unfolding pay
pay_lem e from to amount s h = elim (Option-cases s.bond_token) [
  | inl q ↦ absurd (ground arith)
  | inr (token, q) ↦ (token, q, ground arith)
]

take_slash_lem :
    (e : Host) (amount : ℕ) (s : Staking) {s' : Staking}
    → take_slash e amount s ≡ ok s'
    → ((amount ≡ 0) × (s' ≡ s))
      ⊎ ((token recipient : ℕ) × (s.bond_token ≡ some token)
          × (s.fee_recipient ≡ some recipient)
          × (s' ≡ record s { calls = moved token e.this recipient amount ∷ s.calls }))
unfolding take_slash
take_slash_lem e amount s {s'} h = elim (Option-cases s.fee_recipient) [
  | inl q ↦ inl (ground arith, ground arith)
  | inr (recipient, q) ↦ elim (Bool-cases (ltb 0 amount)) [
    | inr z ↦ inl (ground arith, ground arith)
    | inl z ↦
        let paid : pay e e.this recipient amount s ≡ ok s' = ground arith in
        let (token, p, w) = pay_lem e e.this recipient amount s paid in
        inr (token, recipient, p, q, w)
  ]
]

slashed_lem :
    (e : Host) (r : SolverRecord) (amount : ℕ) {r' : SolverRecord}
    → slashed e r amount ≡ ok r'
    → r'.bond_amount ≡ r.bond_amount - amount
unfolding slashed
slashed_lem e r amount h = ground arith

module _ (e : Host) (caller solver intent : ℕ) (s : Staking) where
  pub slash-Written :
      {amount new_tier : ℕ} {s' : Staking}
      → slash e caller solver intent s ≡ ok ((amount, new_tier), s')
      → Written slashing intent solver e s s'
  slash-Written {amount} {new_tier} {s'} h =
      let (r, r', u, tier, p, q, c, d, w) = slash_steps e caller solver intent s h in
      let (fresh, same) = mark_recorded_lem slashing intent s q in
      let cut = slash_amount-IsCut tier r.bond_amount c in
      let less = slashed_lem e r amount d in
      elim (take_slash_lem e amount (save_solver solver r' u) w) [
        | inl (z, v) ↦
            let kept : s'.calls ≡ s.calls = cc (v, same) in
            record {
              before = r;
              after = r';
              found = p;
              fresh = fresh;
              written = cc (v, same);
              paid = inl (omega (arith, less, z), kept);
            }
        | inr (token, recipient, t, f, v) ↦
            let token_is : s.bond_token ≡ some token = cc (t, same) in
            let recipient_is : s.fee_recipient ≡ some recipient = cc (f, same) in
            let more : s'.calls ≡ moved token e.this recipient amount ∷ s.calls = cc (v, same) in
            record {
              before = r;
              after = r';
              found = p;
              fresh = fresh;
              written = cc (v, same);
              paid =
                  inr (token, recipient, amount, token_is, recipient_is, cut.at_most, less, more);
            }
      ]

  -- A successful slash lowers the bond of the solver by exactly the amount that it returns, which
  -- is at most the bond, at most the larger of 1 and a tenth of the bond, and positive if the
  -- bond is.
  pub slash-IsCut :
      {amount new_tier : ℕ} {s' : Staking}
      → slash e caller solver intent s ≡ ok ((amount, new_tier), s')
      → (r r' : SolverRecord) × (get s.solvers solver ≡ some r)
        × (get s'.solvers solver ≡ some r')
        × IsCut r.bond_amount amount
        × (r'.bond_amount + amount ≡ r.bond_amount)
  slash-IsCut {amount} {new_tier} {s'} h =
      let (r, r', u, tier, p, q, c, d, w) = slash_steps e caller solver intent s h in
      let (fresh, same) = mark_recorded_lem slashing intent s q in
      let cut = slash_amount-IsCut tier r.bond_amount c in
      let less = slashed_lem e r amount d in
      let there = get-put u.solvers solver solver r' in
      let saved : s'.solvers ≡ put u.solvers solver r' =
        elim (take_slash_lem e amount (save_solver solver r' u) w) [
          | inl (z, v) ↦ cc v
          | inr (token, recipient, t, f, v) ↦ cc v
        ] in
      (r, r', p, ground (arith, saved, there), cut, omega (arith, less, cut.at_most))
