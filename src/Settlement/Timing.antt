-- ===== src/Settlement/Timing.antt =====
-- Which operation may run when: the fill window, the slash after it, the dispute window.
use vortex_contracts.Base.{
  ℕ, zero, suc, ◌∙◌, ◌+◌, ◌*◌, ◌/◌, ◌≡◌, ◌≤◌, ◌<◌, inl, inr, refl, min, some, arith, ok, Bool, true,
  Call-cases, has_failed, get_or, ap,
}
use vortex_contracts.Base.Checked.{u64_bound}
use vortex_contracts.Base.Int.{ℤ}
use vortex_contracts.Base.Dict.{get, put, get-put}
use vortex_contracts.Settlement.Types.{IntentRecord, accepted, filling}
use vortex_contracts.Settlement.State.{Env, Storage, load_config, slash_eligible, save_intent}
use vortex_contracts.Settlement.Bonds.{tier_fill_window, solver_tier}
use vortex_contracts.Settlement.Accept.{accept_intent_inner_body, accept_effects}
use vortex_contracts.Settlement.Fill.{fill_intent_inner}
use vortex_contracts.Settlement.Slash.{slash_solver}
use vortex_contracts.Settlement.Dispute.{begin_fill, dispute_fill, release_fill}
use vortex_contracts.Settlement.Success.Outcomes.{
  accept_intent-eq-ok, fill_intent-eq-ok, slash_solver-eq-ok,
}
use vortex_contracts.Settlement.Success.Escrows.{
  begin_fill-eq-ok, dispute_fill-eq-ok, release_fill-eq-ok,
}
use vortex_contracts.Settlement.Payouts.{release_waits}

-- If the deadline of the intent fits 64 bits, then at a time at which a fill succeeds a slash of
-- the same intent in the same storage does not, whatever the two environments are otherwise.
pub fill_blocks_slash :
    (e e' : Env) (s : Storage) (solver id : ℕ) (amount : ℤ) (q : Bool) {i : IntentRecord}
    {s' : Storage}
    → get s.intents id ≡ some i
    → i.deadline < u64_bound
    → e'.now ≡ e.now
    → fill_intent_inner e solver id amount q s ≡ ok s'
    → has_failed (slash_solver e' id s) ≡ true
unfolding slash_eligible
fill_blocks_slash e e' s solver id amount q g b n h = elim (Call-cases (slash_solver e' id s)) [
  | inr f ↦ f
  | inl (t, k) ↦
      let (d, x, p, _) = fill_intent-eq-ok e s solver id amount q h in
      let (m, y, z, c, _, _) = slash_solver-eq-ok e' s id k in
      absurd (ground (arith, p.intent_found, p.in_time, c.intent_found, c.too_late))
]

slash_needs_accepted :
    (e : Env) (s : Storage) (id : ℕ) (i : IntentRecord)
    → get s.intents id ≡ some i
    → i.state ≡ filling
    → has_failed (slash_solver e id s) ≡ true
slash_needs_accepted e s id i g f = elim (Call-cases (slash_solver e id s)) [
  | inr q ↦ q
  | inl (t, q) ↦
      let (m, y, z, c, _, _) = slash_solver-eq-ok e s id q in
      absurd (ground (arith, c.intent_found, c.was_accepted))
]

written : (s : Storage) (id : ℕ) (i : IntentRecord) → get (put s.intents id i) id ≡ some i
written s id i = ground (arith, get-put s.intents id id i)

-- If the deadline of the intent fits 64 bits, then at a time at which an escrowed fill begins, a
-- slash of the same intent fails before it and after it.
pub begin_fill_blocks_slash :
    (e e' : Env) (s s' : Storage) (solver id : ℕ) (amount : ℤ) {i : IntentRecord}
    → get s.intents id ≡ some i
    → i.deadline < u64_bound
    → e'.now ≡ e.now
    → begin_fill e solver id amount s ≡ ok s'
    → (has_failed (slash_solver e' id s) ≡ true) × (has_failed (slash_solver e' id s') ≡ true)
unfolding slash_eligible save_intent
begin_fill_blocks_slash e e' s s' solver id amount g b n h =
    let (i, k, p, w) = begin_fill-eq-ok e s solver id amount h in
    (
      elim (Call-cases (slash_solver e' id s)) [
        | inr f ↦ f
        | inl (t, q) ↦
            let (m, y, z, c, _, _) = slash_solver-eq-ok e' s id q in
            absurd (ground (arith, p.intent_found, p.in_time, c.intent_found, c.too_late))
      ],
      slash_needs_accepted e' s' id _ (ap (λ (u : Storage). get u.intents id) w ∙ written s id _)
          refl,
    )

-- At a time at which the user can dispute an escrowed fill, the fill cannot be released.
pub dispute_blocks_release :
    (e e' : Env) (s : Storage) (user id : ℕ) {s' : Storage}
    → e'.now ≡ e.now
    → dispute_fill e user id s ≡ ok s'
    → has_failed (release_fill e' id s) ≡ true
dispute_blocks_release e e' s user id n h = elim (Call-cases (release_fill e' id s)) [
  | inr f ↦ f
  | inl (t, q) ↦
      let (i, p, _) = dispute_fill-eq-ok e s user id h in
      let (x, o, c, r, _) = release_fill-eq-ok e' s id q in
      let same : i ≡ x.intent = ground (arith, p.intent_found, c.intent_found) in
      let st = ap (λ (j : IntentRecord). j.state) same in
      let late = release_waits e' x x.intent.state (ground (arith, st, p.was_filling)) r in
      absurd (
        omega
          (arith, n, late, p.in_time, ap (λ (j : IntentRecord). get_or j.dispute_deadline 0) same))
]

-- If 15000 times the base window fits 64 bits, the window of a tier is at least the base and at
-- most one and a half times the base, and the next tier's window, up to tier 4, is no shorter.
pub tier_fill_window-bounds :
    (tier base : ℕ)
    → base * 15_000 < u64_bound
    → (base ≤ tier_fill_window tier base)
      × (tier_fill_window tier base ≤ (base * 3) / 2)
      × (tier_fill_window tier base ≤ tier_fill_window (min (tier + 1) 4) base)
unfolding tier_fill_window
tier_fill_window-bounds zero base h = omega arith
tier_fill_window-bounds (suc zero) base h = omega arith
tier_fill_window-bounds (suc (suc zero)) base h = omega arith
tier_fill_window-bounds (suc (suc (suc zero))) base h = omega arith
tier_fill_window-bounds (suc (suc (suc (suc zero)))) base h = omega arith
tier_fill_window-bounds (suc (suc (suc (suc (suc tier))))) base h = omega arith

-- If 15000 times the fill window fits 64 bits, a successful acceptance at time t leaves the
-- intent accepted, with this solver, and with a deadline between t plus the window and t plus one
-- and a half windows.
pub accept_intent-deadline :
    (e : Env) (s : Storage) (solver id bt : ℕ) {s' : Storage}
    → (load_config s).fill_window * 15_000 < u64_bound
    → accept_intent_inner_body e solver id bt s ≡ ok s'
    → (i : IntentRecord) × (get s'.intents id ≡ some i)
      × (i.state ≡ accepted)
      × (i.solver ≡ some solver)
      × (e.now + (load_config s).fill_window ≤ i.deadline)
      × (i.deadline ≤ e.now + ((load_config s).fill_window * 3) / 2)
unfolding accept_effects save_intent
accept_intent-deadline e s solver id bt b h =
    let (i, r, p, w) = accept_intent-eq-ok e s solver id bt h in
    let tier = solver_tier e s solver in
    let window = tier_fill_window-bounds tier (load_config s).fill_window b in
    let i' : IntentRecord = record i {
      solver = some solver;
      state = accepted;
      bond_token = bt;
      solver_tier = tier;
      deadline = e.now + tier_fill_window tier (load_config s).fill_window;
    } in
    (
      i',
      ap (λ (u : Storage). get u.intents id) w ∙ written s id i',
      refl,
      refl,
      omega (arith, window.0),
      omega (arith, window.1),
    )
